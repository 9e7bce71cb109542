-- ===== src/Resolver/Default/RoundTrip.antt =====
-- What the ciphers of src/resolvers/default.rs encrypt, they decrypt.
use screech.Base.{
  ℕ, ◌+◌, ◌-◌, ◌≤◌, ◌≡◌, sym, ap, ◌∙◌, ◌++◌, Bytes, length, take, drop, length-append, length-drop,
  append_assoc, take-append_self, drop-append_self, arith,
}
use screech.Constants.{taglen}
use screech.Outcome.{ok, copy_slices}
use screech.Types.{Cipher}
use screech.Resolver.NonceBytes.{nonce_be, nonce_le, length-nonce_be, length-nonce_le}
use screech.Resolver.Crates.{Aead, AeadLaws}
use screech.Resolver.Default.Ciphers.{
  put_front, put_from, seal_into, open_into, CipherAesGcm, CipherChaChaPoly, cipher_aes_gcm,
  cipher_cha_cha_poly,
}

module _ {A : Type 0} ⦃crate : Aead A⦄ ⦃laws : AeadLaws A⦄ where
  pub seal_into_ok :
      (a : A) (nonce ad pt out : Bytes)
      → length nonce ≡ 12
      → length pt ≤ laws.max_len
      → length pt + taglen ≤ length out
      → let tag = laws.tag a nonce ad pt in
        seal_into a nonce ad pt out
        ≡ (ok tag, laws.hide a nonce ad pt ++ (tag ++ drop (length tag) (drop (length pt) out)))
  unfolding seal_into put_front put_from copy_slices
  seal_into_ok a nonce ad pt out n fits room =
      let hidden = laws.hide a nonce ad pt in
      let tag = laws.tag a nonce ad pt in
      let rest = drop (length pt) out in
      let same : length pt ≡ length hidden = sym (laws.length-hide a nonce ad pt) in
      let t1 : take (length pt) (hidden ++ rest) ≡ hidden =
        ap (λ k. take k (hidden ++ rest)) same ∙ take-append_self hidden rest in
      let d1 : drop (length pt) (hidden ++ rest) ≡ rest =
        ap (λ k. drop k (hidden ++ rest)) same ∙ drop-append_self hidden rest in
      ground (
        arith,
        room,
        laws.encrypt_hide a nonce ad pt n fits,
        laws.length-tag a nonce ad pt,
        take-append_self pt rest,
        drop-append_self pt rest,
        length-append pt rest,
        length-append hidden rest,
        length-drop (length pt) out,
        same,
        t1,
        d1,
      )

  pub open_into_ok :
      (a : A) (nonce ad pt out : Bytes)
      → length nonce ≡ 12
      → length pt ≤ laws.max_len
      → length pt ≤ length out
      → open_into a nonce ad (laws.hide a nonce ad pt ++ laws.tag a nonce ad pt) out
        ≡ (ok (length pt), pt ++ drop (length pt) out)
  unfolding open_into put_front copy_slices
  open_into_ok a nonce ad pt out n fits room =
      let hidden = laws.hide a nonce ad pt in
      let tag = laws.tag a nonce ad pt in
      let text = hidden ++ tag in
      let rest = drop (length pt) out in
      let same : length hidden ≡ length pt = laws.length-hide a nonce ad pt in
      let len : length text - taglen ≡ length hidden =
        omega (arith, length-append hidden tag, laws.length-tag a nonce ad pt) in
      let long : taglen ≤ length text =
        omega (arith, length-append hidden tag, laws.length-tag a nonce ad pt) in
      ground (
        arith,
        room,
        len,
        long,
        same,
        laws.decrypt_hide a nonce ad pt n fits,
        take-append_self hidden tag,
        drop-append_self hidden tag,
        take-append_self hidden rest,
        drop-append_self hidden rest,
      )

-- A cipher's encryption of a text into a buffer, and the decryption of what it wrote.
pub record IsRoundTrip {K : Type 0} (ops : Cipher K) (self : K) (n : ℕ) (ad pt out buffer : Bytes)
    : Type 0 where
  pub written : (ops.encrypt self n ad pt out).0 ≡ ok (length pt + taglen)
  pub read :
      ops.decrypt self n ad (take (length pt + taglen) (ops.encrypt self n ad pt out).1) buffer
      ≡ (ok (length pt), pt ++ drop (length pt) buffer)

pub round_trip :
    {K : Type 0} {ops : Cipher K} (self : K) (n : ℕ) (ad pt out buffer text rest : Bytes)
    → ops.encrypt self n ad pt out ≡ (ok (length pt + taglen), text ++ rest)
    → length text ≡ length pt + taglen
    → ops.decrypt self n ad text buffer ≡ (ok (length pt), pt ++ drop (length pt) buffer)
    → IsRoundTrip ops self n ad pt out buffer
round_trip {ops = ops} self n ad pt out buffer text rest encrypts len decrypts =
    let cut : take (length pt + taglen) (text ++ rest) ≡ text =
      ap (λ k. take k (text ++ rest)) (sym len) ∙ take-append_self text rest in
    record { written = ap (λ r. r.0) encrypts; read = rw (encrypts, cut) decrypts }

module _ {A : Type 0} ⦃aes : Aead A⦄ ⦃laws : AeadLaws A⦄ where
  length-sealed :
      (a : A) (nonce ad pt : Bytes)
      → length (laws.hide a nonce ad pt ++ laws.tag a nonce ad pt) ≡ length pt + taglen
  length-sealed a nonce ad pt = omega (
    arith,
    laws.length-hide a nonce ad pt,
    laws.length-tag a nonce ad pt,
    length-append (laws.hide a nonce ad pt) (laws.tag a nonce ad pt),
  )

  aes-IsRoundTrip :
      (self : CipherAesGcm A) (n : ℕ) (ad pt out buffer : Bytes)
      → length pt ≤ laws.max_len
      → length pt + taglen ≤ length out
      → length pt ≤ length buffer
      → IsRoundTrip cipher_aes_gcm self n ad pt out buffer
  aes-IsRoundTrip self n ad pt out buffer fits room space =
      let a = aes.new self.key in
      let nonce = nonce_be n in
      let tag = laws.tag a nonce ad pt in
      let rest = drop (length tag) (drop (length pt) out) in
      let sealed = seal_into_ok a nonce ad pt out (length-nonce_be n) fits room in
      round_trip self n ad pt out buffer (laws.hide a nonce ad pt ++ tag) rest
        (cc (sealed, append_assoc (laws.hide a nonce ad pt) tag rest)) (length-sealed a nonce ad pt)
        (open_into_ok a nonce ad pt buffer (length-nonce_be n) fits space)

  cha-IsRoundTrip :
      (self : CipherChaChaPoly A) (n : ℕ) (ad pt out buffer : Bytes)
      → length pt ≤ laws.max_len
      → length pt + taglen ≤ length out
      → length pt ≤ length buffer
      → IsRoundTrip cipher_cha_cha_poly self n ad pt out buffer
  cha-IsRoundTrip self n ad pt out buffer fits room space =
      let a = aes.new self.key in
      let nonce = nonce_le n in
      let tag = laws.tag a nonce ad pt in
      let rest = drop (length tag) (drop (length pt) out) in
      let sealed = seal_into_ok a nonce ad pt out (length-nonce_le n) fits room in
      round_trip self n ad pt out buffer (laws.hide a nonce ad pt ++ tag) rest
        (cc
          (sealed, laws.length-tag a nonce ad pt, append_assoc (laws.hide a nonce ad pt) tag rest))
        (length-sealed a nonce ad pt)
        (open_into_ok a nonce ad pt buffer (length-nonce_le n) fits space)

module _ {A B : Type 0} ⦃aes : Aead A⦄ ⦃cha : Aead B⦄ ⦃aes_laws : AeadLaws A⦄
    ⦃cha_laws : AeadLaws B⦄ where
  -- Under the laws of the two crates, for a text that both crates take, a buffer with room for it and
  -- its tag and another with room for it: `encrypt` of either cipher returns the length of the text
  -- and its tag, and `decrypt` under the same key, nonce and associated data, of what it wrote,
  -- returns the length of the text, with the text in front of the other buffer, the rest of which
  -- stays.
  pub ciphers-IsRoundTrip :
      (c : CipherAesGcm A) (d : CipherChaChaPoly B) (n : ℕ) (ad pt out buffer : Bytes)
      → length pt ≤ aes_laws.max_len
      → length pt ≤ cha_laws.max_len
      → length pt + taglen ≤ length out
      → length pt ≤ length buffer
      → IsRoundTrip cipher_aes_gcm c n ad pt out buffer
        × IsRoundTrip cipher_cha_cha_poly d n ad pt out buffer
  ciphers-IsRoundTrip c d n ad pt out buffer fits fits' room space = (
    aes-IsRoundTrip c n ad pt out buffer fits room space,
    cha-IsRoundTrip d n ad pt out buffer fits' room space,
  )
