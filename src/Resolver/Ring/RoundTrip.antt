-- ===== src/Resolver/Ring/RoundTrip.antt =====
-- What the ciphers of src/resolvers/ring.rs encrypt, they decrypt.
use screech.Base.{
  ℕ, ◌+◌, ◌≤◌, ◌≡◌, sym, ap, ◌∙◌, ◌++◌, Bytes, true, false, length, take, drop, length-append,
  length-drop, append_assoc, take-append_self, drop-append_self, Bool-cases, inl, inr, leb, arith,
}
use screech.Constants.{taglen}
use screech.Outcome.{ok, copy_slices}
use screech.Types.{Cipher}
use screech.Resolver.NonceBytes.{nonce_be, nonce_le, length-nonce_be, length-nonce_le}
use screech.Resolver.Default.Ciphers.{put_front}
use screech.Resolver.Default.Hashes.{copy_exact}
use screech.Resolver.Ring.{
  RingAead, encrypt_with, decrypt_with, CipherAesGcm, CipherChaChaPoly, cipher_aes_gcm,
  cipher_cha_cha_poly,
}

-- What `ring` documents of its keys, up to a length of the text: sealing keeps the length and gives a
-- tag of sixteen bytes; opening the text with the tag behind it puts the text in front, and may leave
-- anything where the tag was.
pub record RingLaws (K : Type 0) ⦃ops : RingAead K⦄ : Type 0 where
  pub max_len : ℕ
  pub hide : K → Bytes → Bytes → Bytes → Bytes
  pub tag : K → Bytes → Bytes → Bytes → Bytes
  pub left : K → Bytes → Bytes → Bytes → Bytes
  pub length-hide : (k : K) (nonce ad pt : Bytes) → length (hide k nonce ad pt) ≡ length pt
  pub length-tag : (k : K) (nonce ad pt : Bytes) → length (tag k nonce ad pt) ≡ 16
  pub length-left : (k : K) (nonce ad pt : Bytes) → length (left k nonce ad pt) ≡ 16
  pub seal_hide :
      (k : K) (nonce ad pt : Bytes)
      → length nonce ≡ 12
      → length pt ≤ max_len
      → ops.seal_in_place_separate_tag k nonce ad pt ≡ (ok (tag k nonce ad pt), hide k nonce ad pt)
  pub open_hide :
      (k : K) (nonce ad pt : Bytes)
      → length nonce ≡ 12
      → length pt ≤ max_len
      → ops.open_in_place k nonce ad (hide k nonce ad pt ++ tag k nonce ad pt)
        ≡ (ok (length pt), pt ++ left k nonce ad pt)

module _ {K : Type 0} ⦃ops : RingAead K⦄ ⦃laws : RingLaws K⦄ where
  encrypt_with_ok :
      (k : K) (nonce ad pt out : Bytes)
      → length nonce ≡ 12
      → length pt ≤ laws.max_len
      → length pt + taglen ≤ length out
      → let tag = laws.tag k nonce ad pt in
        encrypt_with k nonce ad pt out ≡ (
          ok (length pt + taglen),
          laws.hide k nonce ad pt ++ (tag ++ drop taglen (drop (length pt) out)),
        )
  unfolding encrypt_with put_front copy_slices copy_exact
  encrypt_with_ok k nonce ad pt out n fits room =
      let hidden = laws.hide k nonce ad pt in
      let rest = drop (length pt) out in
      let same : length pt ≡ length hidden = sym (laws.length-hide k nonce ad pt) in
      let t1 : take (length pt) (hidden ++ rest) ≡ hidden =
        ap (λ k. take k (hidden ++ rest)) same ∙ take-append_self hidden rest in
      let d1 : drop (length pt) (hidden ++ rest) ≡ rest =
        ap (λ k. drop k (hidden ++ rest)) same ∙ drop-append_self hidden rest in
      ground (
        arith,
        room,
        laws.seal_hide k nonce ad pt n fits,
        laws.length-tag k nonce ad pt,
        take-append_self pt rest,
        drop-append_self pt rest,
        length-append pt rest,
        length-append hidden rest,
        length-drop (length pt) out,
        same,
        t1,
        d1,
      )

  -- What decrypting leaves behind the text.
  behind : K → Bytes → Bytes → Bytes → Bytes → Bytes
  behind k nonce ad pt out = elim (leb (length pt + taglen) (length out)) [
    | true ↦ laws.left k nonce ad pt ++ drop (length pt + taglen) out
    | false ↦ drop (length pt) out
  ]

  decrypt_with_ok :
      (k : K) (nonce ad pt out : Bytes)
      → length nonce ≡ 12
      → length pt ≤ laws.max_len
      → length pt ≤ length out
      → let text = laws.hide k nonce ad pt ++ laws.tag k nonce ad pt in
        decrypt_with k nonce ad text out ≡ (ok (length pt), pt ++ behind k nonce ad pt out)
  unfolding decrypt_with put_front copy_slices behind
  decrypt_with_ok k nonce ad pt out n fits room =
      let hidden = laws.hide k nonce ad pt in
      let tag = laws.tag k nonce ad pt in
      let left = laws.left k nonce ad pt in
      let text = hidden ++ tag in
      let len : length text ≡ length pt + taglen = omega (
        arith,
        length-append hidden tag,
        laws.length-tag k nonce ad pt,
        laws.length-hide k nonce ad pt,
      ) in
      let opens = laws.open_hide k nonce ad pt n fits in
      elim (Bool-cases (leb (length pt + taglen) (length out))) [
        | inl whole ↦ ground (
          arith,
          len,
          whole,
          opens,
          take-append_self text (drop (length text) out),
          drop-append_self text (drop (length text) out),
          append_assoc pt left (drop (length pt + taglen) out),
        )
        | inr part ↦ ground (arith, len, part, opens, room, take-append_self pt left)
      ]

  length-text :
      (k : K) (nonce ad pt : Bytes)
      → length (laws.hide k nonce ad pt ++ laws.tag k nonce ad pt) ≡ length pt + taglen
  length-text k nonce ad pt = omega (
    arith,
    laws.length-hide k nonce ad pt,
    laws.length-tag k nonce ad pt,
    length-append (laws.hide k nonce ad pt) (laws.tag k nonce ad pt),
  )

  length-behind :
      (k : K) (nonce ad pt out : Bytes)
      → length pt ≤ length out
      → length (pt ++ behind k nonce ad pt out) ≡ length out
  unfolding behind
  length-behind k nonce ad pt out room = elim (Bool-cases (leb (length pt + taglen) (length out))) [
    | inl e ↦ ground (
      arith,
      e,
      room,
      laws.length-left k nonce ad pt,
      length-append (laws.left k nonce ad pt) (drop (length pt + taglen) out),
      length-append pt (laws.left k nonce ad pt ++ drop (length pt + taglen) out),
      length-drop (length pt + taglen) out,
    )
    | inr e ↦
        ground
          (arith, e, room, length-append pt (drop (length pt) out), length-drop (length pt) out)
  ]

-- A cipher's encryption of a text into a buffer, and the decryption of what it wrote, with the text
-- in front of the other buffer.
pub record IsOpened {C : Type 0} (ops : Cipher C) (self : C) (n : ℕ) (ad pt out buffer : Bytes)
    : Type 0 where
  pub written : (ops.encrypt self n ad pt out).0 ≡ ok (length pt + taglen)
  pub rest : Bytes
  pub read :
      ops.decrypt self n ad (take (length pt + taglen) (ops.encrypt self n ad pt out).1) buffer
      ≡ (ok (length pt), pt ++ rest)
  pub size : length (pt ++ rest) ≡ length buffer

opened :
    {C : Type 0} {ops : Cipher C} (self : C) (n : ℕ) (ad pt out buffer text tail rest : Bytes)
    → ops.encrypt self n ad pt out ≡ (ok (length pt + taglen), text ++ tail)
    → length text ≡ length pt + taglen
    → ops.decrypt self n ad text buffer ≡ (ok (length pt), pt ++ rest)
    → length (pt ++ rest) ≡ length buffer
    → IsOpened ops self n ad pt out buffer
opened {ops = ops} self n ad pt out buffer text tail rest encrypts len decrypts size =
    let cut : take (length pt + taglen) (text ++ tail) ≡ text =
      ap (λ k. take k (text ++ tail)) (sym len) ∙ take-append_self text tail in
    record {
      written = ap (λ r. r.0) encrypts;
      rest = rest;
      read = rw (encrypts, cut) decrypts;
      size = size;
    }

module _ {K L : Type 0} ⦃aes : RingAead K⦄ ⦃cha : RingAead L⦄ ⦃aes_laws : RingLaws K⦄
    ⦃cha_laws : RingLaws L⦄ where
  -- Under the laws of the two algorithms of `ring`, for a text that both take, a buffer with room for
  -- it and its tag and another with room for it: `encrypt` of either cipher returns the length of
  -- the text and its tag, and `decrypt` under the same key, nonce and associated data, of what it
  -- wrote, returns the length of the text, with the text in front of the other buffer, whose length
  -- stays. It does so also where the other buffer has no room for the tag.
  pub ciphers-IsOpened :
      (c : CipherAesGcm K) (d : CipherChaChaPoly L) (n : ℕ) (ad pt out buffer : Bytes)
      → length pt ≤ aes_laws.max_len
      → length pt ≤ cha_laws.max_len
      → length pt + taglen ≤ length out
      → length pt ≤ length buffer
      → IsOpened cipher_aes_gcm c n ad pt out buffer
        × IsOpened cipher_cha_cha_poly d n ad pt out buffer
  ciphers-IsOpened c d n ad pt out buffer fits fits' room space =
      let rest = drop taglen (drop (length pt) out) in
      let be = nonce_be n in
      let le = nonce_le n in
      let hidden = aes_laws.hide c.key be ad pt in
      let hidden' = cha_laws.hide d.key le ad pt in
      let tag = aes_laws.tag c.key be ad pt in
      let tag' = cha_laws.tag d.key le ad pt in
      let e = encrypt_with_ok c.key be ad pt out (length-nonce_be n) fits room in
      let e' = encrypt_with_ok d.key le ad pt out (length-nonce_le n) fits' room in
      (
        opened c n ad pt out buffer (hidden ++ tag) rest (behind c.key be ad pt buffer)
            (rw (append_assoc hidden tag rest) e) (length-text c.key be ad pt)
            (decrypt_with_ok c.key be ad pt buffer (length-nonce_be n) fits space)
            (length-behind c.key be ad pt buffer space),
        opened d n ad pt out buffer (hidden' ++ tag') rest (behind d.key le ad pt buffer)
            (rw (append_assoc hidden' tag' rest) e') (length-text d.key le ad pt)
            (decrypt_with_ok d.key le ad pt buffer (length-nonce_le n) fits' space)
            (length-behind d.key le ad pt buffer space),
      )
