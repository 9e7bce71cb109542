-- ===== src/Resolver/Sodium/RoundTrip.antt =====
-- What the cipher of src/resolvers/libsodium.rs encrypts, it decrypts.
use screech.Base.{ℕ, ◌+◌, ◌≤◌, ◌≡◌, Bytes, length, drop, arith}
use screech.Constants.{taglen}
use screech.Outcome.{ok, copy_slices}
use screech.Resolver.NonceBytes.{nonce_le, length-nonce_le}
use screech.Resolver.Default.Ciphers.{put_front}
use screech.Resolver.Default.RoundTrip.{IsRoundTrip, round_trip}
use screech.Resolver.Sodium.{SodiumAead, SodiumChaChaPoly, encrypt, decrypt, sodium_cha_cha_poly}

-- Sealing adds a tag of sixteen bytes, and opening under the same key, nonce and associated data gives
-- the text back.
pub record SodiumLaws (ops : SodiumAead) : Type 0 where
  pub length-seal : (pt ad nonce key : Bytes) → length (ops.seal pt ad nonce key) ≡ length pt + 16
  pub open_seal :
      (pt ad nonce key : Bytes)
      → length nonce ≡ 12
      → ops.open_sealed (ops.seal pt ad nonce key) ad nonce key ≡ ok pt

module _ ⦃ops : SodiumAead⦄ (laws : SodiumLaws ops) where
  -- Under the laws of the crate, with room for the text and its tag in one buffer and for the text in
  -- another: `encrypt` returns the length of the text and its tag, and `decrypt` under the same key,
  -- nonce and associated data, of what it wrote, returns the length of the text, with the text in
  -- front of the other buffer, the rest of which stays.
  pub sodium-IsRoundTrip :
      (self : SodiumChaChaPoly) (n : ℕ) (ad pt out buffer : Bytes)
      → length pt + taglen ≤ length out
      → length pt ≤ length buffer
      → IsRoundTrip sodium_cha_cha_poly self n ad pt out buffer
  unfolding encrypt decrypt put_front copy_slices
  sodium-IsRoundTrip self n ad pt out buffer room space =
      let text = ops.seal pt ad (nonce_le n) self.key in
      let len = laws.length-seal pt ad (nonce_le n) self.key in
      let opens = laws.open_seal pt ad (nonce_le n) self.key (length-nonce_le n) in
      round_trip self n ad pt out buffer text (drop (length text) out) (ground (arith, room, len))
        len (ground (arith, opens, space))
