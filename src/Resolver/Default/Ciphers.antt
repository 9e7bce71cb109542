-- ===== src/Resolver/Default/Ciphers.antt =====
-- `CipherAesGcm` and `CipherChaChaPoly` of src/resolvers/default.rs.
use screech.Base.{
  ℕ, ◌+◌, ◌-◌, ◌++◌, Bytes, codes, length, take, drop, replicate, leb, if◌then◌else◌,
}
use screech.Constants.{taglen}
use screech.Exec.{Call, ExecOf, Lens, pure, lift, gets, modify, unwrap, on, ◌>>=◌, ◌>>◌}
use screech.Outcome.{Result, ok, panic, copy_slices, slice_from}
use screech.Types.{Cipher}
use screech.Resolver.NonceBytes.{nonce_be, nonce_le}
use screech.Resolver.Crates.{Aead}

-- `&mut out[..n]` where `out` is long enough
abbrev pub front : ℕ → Lens Bytes Bytes
front n = record { get = take n; put = λ t out. t ++ drop n out }

-- `copy_slices!(xs, out)` and `copy_slices!(xs, &mut out[n..])`
unfoldable pub put_front : {E : Type 0} → Bytes → ExecOf E Bytes (Unit {0})
put_front xs = do out ← gets (λ s. s); out' ← lift (copy_slices xs out); modify (λ _. out')

unfoldable pub put_from : {E : Type 0} → ℕ → Bytes → ExecOf E Bytes (Unit {0})
put_from n xs = do
  out ← gets (λ s. s)
  rest ← lift (slice_from n out)
  rest' ← lift (copy_slices xs rest)
  modify (λ _. take n out ++ rest')

-- `xs.len() - TAGLEN`, which panics below zero
abbrev pub text_len : {E : Type 0} → Bytes → Result E ℕ
text_len xs = if leb taglen (length xs) then ok (length xs - taglen) else panic

module _ {A : Type 0} ⦃crate : Aead A⦄ where
  -- What the `encrypt` and `decrypt` of both ciphers do with their object of the crate and the bytes
  -- of the nonce.
  unfoldable pub seal_into : A → Bytes → Bytes → Bytes → Call Bytes Bytes
  unfolding put_front put_from
  seal_into aead nonce authtext plaintext = do
    put_front plaintext
    tag ←
        on (front (length plaintext)) (unwrap (crate.encrypt_in_place_detached aead nonce authtext))
    put_from (length plaintext) tag
    pure tag

  unfoldable pub open_into : A → Bytes → Bytes → Bytes → ExecOf (Unit {0}) Bytes ℕ
  unfolding put_front
  open_into aead nonce authtext ciphertext = do
    message_len ← lift (text_len ciphertext)
    put_front (take message_len ciphertext)
    on (front message_len)
        (crate.decrypt_in_place_detached aead nonce authtext (drop message_len ciphertext))
    pure message_len

-- `copy_slices!(key, &mut self.key)`
abbrev set_key : {K : Type 0} → (K → Bytes) → (Bytes → K → K) → Bytes → Call K (Unit {0})
set_key get put key = do old ← gets get; new ← lift (copy_slices key old); modify (put new)

-- The parameter stands for `aes_gcm::Aes256Gcm`.
pub record CipherAesGcm (A : Type 0) : Type 0 where
  pub key : Bytes

-- The parameter stands for `chacha20poly1305::ChaCha20Poly1305`.
pub record CipherChaChaPoly (A : Type 0) : Type 0 where
  pub key : Bytes

module _ {A : Type 0} where
  abbrev pub default_aes_gcm : CipherAesGcm A
  default_aes_gcm = record { key = replicate 32 0 }

  abbrev pub default_cha_cha_poly : CipherChaChaPoly A
  default_cha_cha_poly = record { key = replicate 32 0 }

module _ {A : Type 0} ⦃crate : Aead A⦄ where
  instance abbrev pub cipher_aes_gcm : Cipher (CipherAesGcm A)
  cipher_aes_gcm = record {
    name = λ self. codes "AESGCM";
    set = set_key (λ self. self.key) (λ k self. record self { key = k });
    encrypt = λ self nonce authtext plaintext. (do
      _ ← seal_into (crate.new self.key) (nonce_be nonce) authtext plaintext
      pure (length plaintext + taglen));
    decrypt = λ self nonce authtext ciphertext.
        open_into (crate.new self.key) (nonce_be nonce) authtext ciphertext;
  }

  instance abbrev pub cipher_cha_cha_poly : Cipher (CipherChaChaPoly A)
  cipher_cha_cha_poly = record {
    name = λ self. codes "ChaChaPoly";
    set = set_key (λ self. self.key) (λ k self. record self { key = k });
    encrypt = λ self nonce authtext plaintext. (do
      tag ← seal_into (crate.new self.key) (nonce_le nonce) authtext plaintext
      pure (length plaintext + length tag));
    decrypt = λ self nonce authtext ciphertext.
        open_into (crate.new self.key) (nonce_le nonce) authtext ciphertext;
  }
