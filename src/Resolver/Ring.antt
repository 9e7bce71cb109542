-- ===== src/Resolver/Ring.antt =====
-- src/resolvers/ring.rs: the wrappers of the crate `ring`, in a build without the feature
-- `xchachapoly`. `RingRng` is a parameter of the resolver.
pub mod RoundTrip
use screech.Base.{
  ℕ, ◌+◌, ◌++◌, Option, none, some, Bytes, codes, length, take, drop, replicate, leb, ◌==◌, ◌&&◌,
  if◌then◌else◌,
}
use screech.Constants.{taglen}
use screech.Exec.{
  Call, ExecOf, pure, raise, abort, lift, gets, modify, unwrap, call, on, ◌>>=◌, ◌>>◌,
}
use screech.Outcome.{Result, ok, err, panic, copy_slices, slice_from}
use screech.Types.{Cipher, Hash}
use screech.Params.Choices.{
  DhChoice, CipherChoice, cha_cha_poly, aesgcm, HashChoice, sha256, sha512, blake2s, blake2b,
}
use screech.Resolver.{Resolver}
use screech.Resolver.NonceBytes.{nonce_be, nonce_le}
use screech.Resolver.Default.Ciphers.{front, put_front}
use screech.Resolver.Default.Hashes.{copy_exact}

-- `LessSafeKey` of `ring::aead` over one algorithm: `new` is that of `UnboundKey`, which fails on a
-- key of the wrong length; the state is the buffer, and opening gives the length of the text in
-- front of it.
pub record RingAead (K : Type 0) : Type 0 where
  pub new : Bytes → Result (Unit {0}) K
  -- nonce, associated data
  pub seal_in_place_separate_tag : K → Bytes → Bytes → ExecOf (Unit {0}) Bytes Bytes
  pub open_in_place : K → Bytes → Bytes → ExecOf (Unit {0}) Bytes ℕ

-- `Context` of `ring::digest` over one algorithm.
pub record RingContext (B : Type 0) : Type 0 where
  pub new : B
  pub update : Bytes → B → B
  pub finish : B → Bytes

module _ {K : Type 0} ⦃crate : RingAead K⦄ where
  -- `self.key = LessSafeKey::new(UnboundKey::new(…, key).unwrap())`
  abbrev new_key : Bytes → Call K (Unit {0})
  new_key key = do self ← unwrap (lift (crate.new key)); modify (λ _. self)

  -- The rest of `encrypt` behind the nonce, which both ciphers write out.
  unfoldable pub encrypt_with : K → Bytes → Bytes → Bytes → Call Bytes ℕ
  unfolding put_front copy_exact
  encrypt_with key nonce authtext plaintext = do
    put_front plaintext
    tag ←
        on (front (length plaintext)) (unwrap (crate.seal_in_place_separate_tag key nonce authtext))
    out ← gets (λ s. s)
    rest ← lift (slice_from (length plaintext) out)
    rest' ← lift (copy_exact taglen tag rest)
    modify (λ _. take (length plaintext) out ++ rest')
    pure (length plaintext + taglen)

  -- The rest of `decrypt` behind the nonce: in the buffer, if the whole message has room there, and
  -- otherwise in a copy of the message.
  unfoldable pub decrypt_with : K → Bytes → Bytes → Bytes → ExecOf (Unit {0}) Bytes ℕ
  unfolding put_front
  decrypt_with key nonce authtext ciphertext out =
      if leb (length ciphertext) (length out)
      then (put_front ciphertext
            >> on (front (length ciphertext)) (crate.open_in_place key nonce authtext))
          out
      else let (r, in_out) = crate.open_in_place key nonce authtext ciphertext in
        ((lift r) >>= λ len. put_front (take len in_out) >> pure len) out

-- The parameter stands for `LessSafeKey` over `AES_256_GCM`.
pub record CipherAesGcm (K : Type 0) : Type 0 where
  pub key : K

-- The parameter stands for `LessSafeKey` over `CHACHA20_POLY1305`.
pub record CipherChaChaPoly (K : Type 0) : Type 0 where
  pub key : K

module _ {K : Type 0} ⦃crate : RingAead K⦄ where
  instance abbrev pub cipher_aes_gcm : Cipher (CipherAesGcm K)
  cipher_aes_gcm = record {
    name = λ self. codes "AESGCM";
    set = λ key self. (let (r, k) = new_key key self.key in (r, record { key = k }));
    encrypt =
        λ self nonce authtext plaintext. encrypt_with self.key (nonce_be nonce) authtext plaintext;
    decrypt = λ self nonce authtext ciphertext.
        decrypt_with self.key (nonce_be nonce) authtext ciphertext;
  }

  instance abbrev pub cipher_cha_cha_poly : Cipher (CipherChaChaPoly K)
  cipher_cha_cha_poly = record {
    name = λ self. codes "ChaChaPoly";
    set = λ key self. (let (r, k) = new_key key self.key in (r, record { key = k }));
    encrypt =
        λ self nonce authtext plaintext. encrypt_with self.key (nonce_le nonce) authtext plaintext;
    decrypt = λ self nonce authtext ciphertext.
        decrypt_with self.key (nonce_le nonce) authtext ciphertext;
  }

-- The parameters stand for `Context` over `SHA256` and over `SHA512`.
pub record HashSha256 (B : Type 0) : Type 0 where
  pub context : B

pub record HashSha512 (B : Type 0) : Type 0 where
  pub context : B

module _ {B : Type 0} ⦃crate : RingContext B⦄ where
  -- `out[..n].copy_from_slice(self.context.clone().finish().as_ref())`
  unfoldable pub finish : ℕ → B → Call Bytes (Unit {0})
  unfolding copy_exact
  finish n context = do
    out ← gets (λ out. out)
    out' ← lift (copy_exact n (crate.finish context) out)
    modify (λ _. out')

  instance abbrev pub hash_sha256 : Hash (HashSha256 B)
  hash_sha256 = record {
    name = λ self. codes "SHA256";
    block_len = λ self. 64;
    hash_len = λ self. 32;
    reset = λ self. record { context = crate.new };
    input = λ text self. record { context = crate.update text self.context };
    result = λ s.
        (let (self, out) = s in let (r, out') = finish 32 self.context out in (r, (self, out')));
  }

  instance abbrev pub hash_sha512 : Hash (HashSha512 B)
  hash_sha512 = record {
    name = λ self. codes "SHA512";
    block_len = λ self. 128;
    hash_len = λ self. 64;
    reset = λ self. record { context = crate.new };
    input = λ text self. record { context = crate.update text self.context };
    result = λ s.
        (let (self, out) = s in let (r, out') = finish 64 self.context out in (r, (self, out')));
  }

-- `Box<dyn Cipher>` and `Box<dyn Hash>`
pub data RingCipher (K L : Type 0) : Type 0 where
  aes_gcm : CipherAesGcm K → RingCipher K L
  cha_cha : CipherChaChaPoly L → RingCipher K L

pub data RingHash (A B : Type 0) : Type 0 where
  of_sha256 : HashSha256 A → RingHash A B
  of_sha512 : HashSha512 B → RingHash A B

module _ {K L : Type 0} ⦃aes : RingAead K⦄ ⦃cha : RingAead L⦄ where
  -- The inner result is that of `UnboundKey::new(…).unwrap()`.
  unfoldable pub resolve_cipher : CipherChoice → Result (Unit {0}) (Option (RingCipher K L))
  resolve_cipher aesgcm = elim (aes.new (replicate 32 0)) [
    | ok k ↦ ok (some (aes_gcm (record { key = k })))
    | err e ↦ panic
    | panic ↦ panic
  ]
  resolve_cipher cha_cha_poly = elim (cha.new (replicate 32 0)) [
    | ok k ↦ ok (some (cha_cha (record { key = k })))
    | err e ↦ panic
    | panic ↦ panic
  ]

module _ {A B : Type 0} ⦃a : RingContext A⦄ ⦃b : RingContext B⦄ where
  unfoldable pub resolve_hash : HashChoice → Option (RingHash A B)
  resolve_hash sha256 = some (of_sha256 (record { context = a.new }))
  resolve_hash sha512 = some (of_sha512 (record { context = b.new }))
  resolve_hash blake2s = none
  resolve_hash blake2b = none

unfoldable pub resolve_dh : {D : Type 0} → DhChoice → Option D
resolve_dh choice = none
