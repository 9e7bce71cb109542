-- ===== src/Resolver/Sodium.antt =====
-- src/resolvers/libsodium.rs: the wrappers of the crate `sodiumoxide`. `SodiumRng` is a parameter of
-- the resolver, and `sodiumoxide::init` has no state that is modelled.
pub mod KeyPair
pub mod RoundTrip
use Prim.Native.Nat.{bit_and, bit_or}
use screech.Base.{
  ℕ, ◌+◌, ◌++◌, Option, none, some, Bytes, codes, length, take, drop, replicate, leb, ◌==◌,
  get_elem?, if◌then◌else◌,
}
use screech.Base
use screech.Exec.{Call, ExecOf, pure, lift, gets, modify, ◌>>=◌, ◌>>◌}
use screech.Outcome.{Result, ok, err, panic, copy_slices, slice_to}
use screech.Types.{Random, Dh, Cipher, Hash}
use screech.Params.Choices.{
  DhChoice, curve25519, ed448, CipherChoice, cha_cha_poly, aesgcm, HashChoice, sha256, sha512,
  blake2s, blake2b,
}
use screech.Resolver.{Resolver}
use screech.Resolver.NonceBytes.{nonce_le}
use screech.Resolver.Default.Ciphers.{put_front}

-- `scalarmult_base` and `scalarmult` of `sodiumoxide::crypto::scalarmult::curve25519`.
pub record SodiumCurve : Type 0 where
  pub scalarmult_base : Bytes → Bytes
  pub scalarmult : Bytes → Bytes → Result (Unit {0}) Bytes

-- `seal` and `open` of `sodiumoxide::crypto::aead::chacha20poly1305_ietf`: text, associated data,
-- nonce, key.
pub record SodiumAead : Type 0 where
  pub seal : Bytes → Bytes → Bytes → Bytes → Bytes
  pub open_sealed : Bytes → Bytes → Bytes → Bytes → Result (Unit {0}) Bytes

-- `State` of `sodiumoxide::crypto::hash::sha256`.
pub record SodiumState (B : Type 0) : Type 0 where
  pub new : B
  pub update : Bytes → B → B
  pub finalize : B → Bytes × B

-- `from_slice(…).expect(…)` of a `Scalar`, a `GroupElement` or a `Key`: it takes 32 bytes.
unfoldable pub from_slice : {E : Type 0} → Bytes → Result E Bytes
from_slice xs = if length xs == 32 then ok xs else panic

pub record SodiumDh25519 : Type 0 where
  pub privkey : Bytes
  pub pubkey : Bytes

abbrev pub default_dh25519 : SodiumDh25519
default_dh25519 = record { privkey = replicate 32 0; pubkey = replicate 32 0 }

-- `key[i] = f(key[i])`
unfoldable pub change_byte : {E : Type 0} → ℕ → (ℕ → ℕ) → Bytes → Result E Bytes
change_byte i f key = elim (get_elem? key i) [ none ↦ panic | some b ↦ ok (Base.set key i (f b)) ]

unfoldable pub convert_to_private_key : {S : Type 0} → Bytes → Call S Bytes
unfolding change_byte
convert_to_private_key key = do
  key1 ← lift (change_byte 0 (λ b. bit_and b 248) key)
  key2 ← lift (change_byte 31 (λ b. bit_and b 127) key1)
  lift (change_byte 31 (λ b. bit_or b 64) key2)

module _ ⦃crate : SodiumCurve⦄ where
  abbrev pub with_privkey : Bytes → SodiumDh25519
  with_privkey privkey = record { privkey = privkey; pubkey = crate.scalarmult_base privkey }

  unfoldable pub set : Bytes → Call SodiumDh25519 (Unit {0})
  unfolding from_slice
  set privkey = do scalar ← lift (from_slice privkey); modify (λ _. with_privkey scalar)

  unfoldable pub dh : SodiumDh25519 → Bytes → ExecOf (Unit {0}) Bytes (Unit {0})
  unfolding from_slice put_front
  dh self pubkey = do
    first ← lift (slice_to 32 pubkey)
    point ← lift (from_slice first)
    result ← lift (crate.scalarmult self.privkey point)
    put_front result

module _ {R : Type 0} ⦃rng : Random R⦄ ⦃crate : SodiumCurve⦄ where
  unfoldable pub generate : Call (SodiumDh25519 × R) (Unit {0})
  unfolding convert_to_private_key from_slice
  generate = do
    (self, r) ← gets (λ s. s)
    let (filled, r') = rng.fill_bytes 32 r
    modify (λ s. (s.0, r'))
    privkey_bytes ← convert_to_private_key filled
    scalar ← lift (from_slice privkey_bytes)
    modify (λ s. (with_privkey scalar, s.1))

  -- `pubkey` and `privkey` are `[0..32]` of 32 bytes.
  instance abbrev pub sodium_dh_25519 : Dh R SodiumDh25519
  sodium_dh_25519 = record {
    name = λ self. codes "25519";
    pub_len = λ self. 32;
    priv_len = λ self. 32;
    set = set;
    generate = generate;
    pubkey = λ self. self.pubkey;
    privkey = λ self. self.privkey;
    dh = dh;
  }

pub record SodiumChaChaPoly : Type 0 where
  pub key : Bytes

abbrev pub default_cha_cha_poly : SodiumChaChaPoly
default_cha_cha_poly = record { key = replicate 32 0 }

module _ ⦃crate : SodiumAead⦄ where
  unfoldable pub set_key : Bytes → Call SodiumChaChaPoly (Unit {0})
  unfolding from_slice
  set_key key = do
    first ← lift (slice_to 32 key)
    new ← lift (from_slice first)
    modify (λ _. record { key = new })

  unfoldable pub encrypt : SodiumChaChaPoly → ℕ → Bytes → Bytes → Call Bytes ℕ
  unfolding put_front
  encrypt self nonce authtext plaintext = do
    let buf = crate.seal plaintext authtext (nonce_le nonce) self.key
    put_front buf
    pure (length buf)

  unfoldable pub decrypt : SodiumChaChaPoly → ℕ → Bytes → Bytes → ExecOf (Unit {0}) Bytes ℕ
  unfolding put_front
  decrypt self nonce authtext ciphertext = do
    buf ← lift (crate.open_sealed ciphertext authtext (nonce_le nonce) self.key)
    put_front buf
    pure (length buf)

  instance abbrev pub sodium_cha_cha_poly : Cipher SodiumChaChaPoly
  sodium_cha_cha_poly = record {
    name = λ self. codes "ChaChaPoly";
    set = set_key;
    encrypt = encrypt;
    decrypt = decrypt;
  }

-- The parameter stands for the `State` of the crate.
pub record SodiumSha256 (B : Type 0) : Type 0 where
  pub state : B

module _ {B : Type 0} ⦃crate : SodiumState B⦄ where
  -- `self.0.finalize()`, and `copy_slices!(digest.as_ref(), out)`
  unfoldable pub result : Call (SodiumSha256 B × Bytes) (Unit {0})
  result (self, out) =
      let (digest, state) = crate.finalize self.state in
      elim (copy_slices digest out) [
        | ok out' ↦ (ok tt, (record { state = state }, out'))
        | err e ↦ absurd e
        | panic ↦ (panic, (record { state = state }, out))
      ]

  instance abbrev pub sodium_sha256 : Hash (SodiumSha256 B)
  sodium_sha256 = record {
    name = λ self. codes "SHA256";
    block_len = λ self. 64;
    hash_len = λ self. 32;
    reset = λ self. record { state = crate.new };
    input = λ text self. record { state = crate.update text self.state };
    result = result;
  }

  -- `SodiumResolver`: `sodium_rng` stands for `SodiumRng::default()`.
  unfoldable pub sodium_resolver :
      {R : Type 0} → R → Resolver R SodiumChaChaPoly (SodiumSha256 B) SodiumDh25519
  sodium_resolver sodium_rng = record {
    resolve_rng = some sodium_rng;
    resolve_dh = λ choice. elim choice [ curve25519 ↦ some default_dh25519 | ed448 ↦ none ];
    resolve_hash =
        λ choice. elim choice [ sha256 ↦ some (record { state = crate.new }) | _ ↦ none ];
    resolve_cipher =
        λ choice. elim choice [ cha_cha_poly ↦ some default_cha_cha_poly | aesgcm ↦ none ];
  }
