-- ===== src/Tests/NativeResolvers.antt =====
-- The theorems on the wrappers of src/resolvers/ring.rs and src/resolvers/libsodium.rs, over concrete
-- functions in place of the crates that meet their laws. They are no cryptography.
use screech.Base.{
  take, take-append_self, ◌-◌, drop, drop-append_self, length-append, ◌^◌, ◌≡◌, refl, [], ◌++◌,
  Bytes, codes, bytes_eq, bytes_eq_refl, length, replicate, if◌then◌else◌, arith,
}
use screech.Outcome.{ok, err}
use screech.Resolver.Default.Ciphers.{cipher_aes_gcm, cipher_cha_cha_poly}
use screech.Resolver.Default.RoundTrip.{IsRoundTrip}
use screech.Resolver.Default.Dh25519.{dh_25519}
use screech.Resolver.Ring
use screech.Resolver.Ring.{RingAead}
use screech.Resolver.Ring.RoundTrip.{RingLaws, IsOpened, ciphers-IsOpened}
use screech.Resolver.Sodium.{
  SodiumAead, SodiumChaChaPoly, sodium_cha_cha_poly, convert_to_private_key,
}
use screech.Resolver.Sodium.RoundTrip.{SodiumLaws, sodium-IsRoundTrip}
use screech.Resolver.Sodium.KeyPair.{IsClamped, convert_to_private_key-IsClamped}
use screech.Tests.Resolvers.{xor_tag}

-- In place of a key of `ring`, which leaves the tag behind the text.
instance abbrev ring_plain : RingAead Bytes
ring_plain = record {
  new = λ key. ok key;
  seal_in_place_separate_tag = λ k nonce ad pt. (ok (xor_tag ad), pt);
  open_in_place = λ k nonce ad text.
      (if bytes_eq (drop (length text - 16) text) (xor_tag ad)
        then (ok (length text - 16), text)
        else (err tt, text));
}

ring_opens :
    (ad pt : Bytes)
    → ring_plain.open_in_place [] [] ad (pt ++ xor_tag ad) ≡ (ok (length pt), pt ++ xor_tag ad)
ring_opens ad pt =
    let len : length (pt ++ xor_tag ad) - 16 ≡ length pt =
      omega (arith, length-append pt (xor_tag ad)) in
    rw len (rw (drop-append_self pt (xor_tag ad), bytes_eq_refl (xor_tag ad)))

instance abbrev ring_plain_laws : RingLaws Bytes
ring_plain_laws = record {
  max_len = 2 ^ 36;
  hide = λ k nonce ad pt. pt;
  tag = λ k nonce ad pt. xor_tag ad;
  left = λ k nonce ad pt. xor_tag ad;
  length-hide = λ k nonce ad pt. refl;
  length-tag = λ k nonce ad pt. refl;
  length-left = λ k nonce ad pt. refl;
  seal_hide = λ k nonce ad pt _ _. refl;
  open_hide = λ k nonce ad pt _ _. ring_opens ad pt;
}

abbrev ring_aes : Ring.CipherAesGcm Bytes
ring_aes = record { key = replicate 32 1 }

abbrev ring_cha : Ring.CipherChaChaPoly Bytes
ring_cha = record { key = replicate 32 2 }

ciphers-IsOpened_example :
    IsOpened
      (Ring.cipher_aes_gcm {K = Bytes})
      ring_aes
      7
      (codes "ad")
      (codes "hello")
      (replicate 21 0)
      (replicate 9 0)
    × IsOpened
        (Ring.cipher_cha_cha_poly {K = Bytes})
        ring_cha
        7
        (codes "ad")
        (codes "hello")
        (replicate 21 0)
        (replicate 9 0)
ciphers-IsOpened_example =
    ciphers-IsOpened ring_aes ring_cha 7 (codes "ad") (codes "hello") (replicate 21 0)
      (replicate 9 0) (omega arith) (omega arith) (omega arith) (omega arith)

instance abbrev sodium_plain : SodiumAead
sodium_plain = record {
  seal = λ pt ad nonce key. pt ++ xor_tag ad;
  open_sealed = λ text ad nonce key.
      (if bytes_eq (drop (length text - 16) text) (xor_tag ad)
        then ok (take (length text - 16) text)
        else err tt);
}

sodium_opens : (ad pt : Bytes) → sodium_plain.open_sealed (pt ++ xor_tag ad) ad [] [] ≡ ok pt
sodium_opens ad pt =
    let len : length (pt ++ xor_tag ad) - 16 ≡ length pt =
      omega (arith, length-append pt (xor_tag ad)) in
    rw len (
      rw (
        drop-append_self pt (xor_tag ad),
        take-append_self pt (xor_tag ad),
        bytes_eq_refl (xor_tag ad),
      ))

sodium_plain_laws : SodiumLaws sodium_plain
sodium_plain_laws = record {
  length-seal = λ pt ad nonce key. length-append pt (xor_tag ad);
  open_seal = λ pt ad nonce key _. sodium_opens ad pt;
}

abbrev sodium_key : SodiumChaChaPoly
sodium_key = record { key = replicate 32 1 }

sodium-IsRoundTrip_example :
    IsRoundTrip sodium_cha_cha_poly sodium_key 7
      (codes "ad")
      (codes "hello")
      (replicate 21 0)
      (replicate 9 0)
sodium-IsRoundTrip_example =
    sodium-IsRoundTrip sodium_plain_laws sodium_key 7 (codes "ad") (codes "hello") (replicate 21 0)
      (replicate 9 0) (omega arith) (omega arith)

convert_to_private_key-IsClamped_example :
    (clamped : Bytes) × (convert_to_private_key (replicate 32 255) tt ≡ (ok clamped, tt))
    × IsClamped clamped
convert_to_private_key-IsClamped_example =
    convert_to_private_key-IsClamped (replicate 32 255) 255 255 refl refl refl (omega arith)
      (omega arith)
