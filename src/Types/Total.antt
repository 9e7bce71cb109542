-- ===== src/Types/Total.antt =====
-- That `Hash::hmac` and `Hash::hkdf` of src/types.rs return: no assertion fails and no slice is out of
-- bounds, over a hash function whose sizes fit the buffers.
use Prim.Native.Nat.{bit_xor}
use screech.Base.{
  ℕ, ◌+◌, ◌≤◌, ◌≡◌, refl, [], ◌∷◌, ◌++◌, Bytes, length, take, drop, replicate, length-append,
  length-drop, length-take, length-replicate, leb, true, ltb, set, length-set, lt→ltb, ◌∙◌, le→leb,
  arith,
}
use screech.Constants.{maxhashlen, maxblocklen}
use screech.Outcome.{ok}
use screech.Types.Traits.{Hash, Dh}
use screech.Types.Laws.{HashLaws, DhLaws}
use screech.Types.Hmac.{xor_into, hmac, hkdf}

-- The sizes that `hmac` relies on: a digest is a key of it, and a block fits its pads.
pub record HashSizes (H : Type 0) ⦃ops : Hash H⦄ : Type 0 where
  pub block_room : (h : H) → maxhashlen ≤ ops.block_len h
  pub block_bound : (h : H) → ops.block_len h ≤ maxblocklen

xor_into_returns :
    {E : Type 0} (pad key : Bytes)
    → length key ≤ length pad
    → (out : Bytes) × (xor_into {E = E} pad key ≡ ok out) × (length out ≡ length pad)
unfolding xor_into
xor_into_returns pad [] fits = (pad, refl, refl)
xor_into_returns [] (k ∷ key) fits = absurd (omega (arith, fits))
xor_into_returns {E} (p ∷ pad) (k ∷ key) fits =
    let (out, e, len) = xor_into_returns {E = E} pad key (omega (arith, fits)) in
    (bit_xor p k ∷ out, rw e refl, omega (arith, len))

module _ {H : Type 0} ⦃ops : Hash H⦄ ⦃laws : HashLaws H⦄ ⦃sizes : HashSizes H⦄ where
  pub hmac_returns :
      (key text : Bytes) (h : H) (out : Bytes)
      → length key ≤ maxhashlen
      → maxhashlen ≤ length out
      → (h' : H) × (out' : Bytes) × (hmac key text (h, out) ≡ (ok tt, (h', out')))
        × (length out' ≡ length out)
  unfolding hmac
  hmac_returns key text h out short room =
      let zeros : Bytes = replicate maxhashlen 0 in
      let (ip, ei, li) =
        xor_into_returns {E = ⊥} (replicate maxblocklen 0x36) key
          (omega (arith, short, length-replicate {A = ℕ} maxblocklen 0x36)) in
      let (op, eo, lo) =
        xor_into_returns {E = ⊥} (replicate maxblocklen 0x5c) key
          (omega (arith, short, length-replicate {A = ℕ} maxblocklen 0x5c)) in
      let h1 = ops.input text (ops.input (take (ops.block_len h) ip) (ops.reset h)) in
      let zeros_len = length-replicate {A = ℕ} maxhashlen 0 in
      let r1 = laws.result_digest h1 zeros (omega (arith, zeros_len, laws.hash_len_bound h1)) in
      let inner = laws.digest h1 ++ drop (ops.hash_len h1) zeros in
      let inner_len : length inner ≡ maxhashlen = omega (
        arith,
        zeros_len,
        laws.hash_len_bound h1,
        laws.length-digest h1,
        length-append (laws.digest h1) (drop (ops.hash_len h1) zeros),
        length-drop (ops.hash_len h1) zeros,
      ) in
      let h2 =
        ops.input (take (ops.hash_len h) inner)
          (ops.input (take (ops.block_len h) op) (ops.reset (laws.finalized h1))) in
      let r2 = laws.result_digest h2 out (omega (arith, room, laws.hash_len_bound h2)) in
      let pads = length-replicate {A = ℕ} maxblocklen 0x36 in
      let pads' = length-replicate {A = ℕ} maxblocklen 0x5c in
      let key_fits : leb (length key) (ops.block_len h) ≡ true =
        le→leb _ _ (omega (arith, short, sizes.block_room h)) in
      let ip_fits : leb (ops.block_len h) (length ip) ≡ true =
        le→leb _ _ (omega (arith, li, pads, sizes.block_bound h)) in
      let op_fits : leb (ops.block_len h) (length op) ≡ true =
        le→leb _ _ (omega (arith, lo, pads', sizes.block_bound h)) in
      let inner_fits : leb (ops.hash_len h) (length inner) ≡ true =
        le→leb _ _ (omega (arith, inner_len, laws.hash_len_bound h)) in
      (
        laws.finalized h2,
        laws.digest h2 ++ drop (ops.hash_len h2) out,
        ground (arith, key_fits, ei, eo, ip_fits, r1, op_fits, inner_fits, r2),
        omega (
          arith,
          room,
          laws.hash_len_bound h2,
          laws.length-digest h2,
          length-append (laws.digest h2) (drop (ops.hash_len h2) out),
          length-drop (ops.hash_len h2) out,
        ),
      )

-- The buffer of a numbered input of `hkdf`, and that its parts are in bounds.
abbrev numbered_buffer : ℕ → Bytes → Bytes
numbered_buffer n out = take n out ++ drop (length (take n out)) (replicate (maxhashlen + 1) 0)

abbrev numbered_text : ℕ → ℕ → Bytes → Bytes
numbered_text n number out = take (n + 1) (set (numbered_buffer n out) n number)

record NumberedFits (n number : ℕ) (out : Bytes) : Type 0 where
  pub sliced : leb n (length out) ≡ true
  pub copied : leb (length (take n out)) (length (replicate {A = ℕ} (maxhashlen + 1) 0)) ≡ true
  pub put : ltb n (length (numbered_buffer n out)) ≡ true
  pub taken : leb (n + 1) (length (set (numbered_buffer n out) n number)) ≡ true

numbered_fits :
    (n number : ℕ) (out : Bytes)
    → n ≤ maxhashlen
    → length out ≡ maxhashlen
    → NumberedFits n number out
numbered_fits n number out bound len =
    let zeros : Bytes = replicate (maxhashlen + 1) 0 in
    let front = length-take n out in
    let size : length (numbered_buffer n out) ≡ maxhashlen + 1 = omega (
      arith,
      bound,
      len,
      front,
      length-append (take n out) (drop (length (take n out)) zeros),
      length-drop (length (take n out)) zeros,
    ) in
    record {
      sliced = le→leb _ _ (omega (arith, bound, len));
      copied = le→leb _ _ (omega (arith, bound, len, front));
      put = lt→ltb _ _ (omega (arith, bound, size));
      taken = le→leb _ _ (omega (arith, bound, size, length-set (numbered_buffer n out) n number));
    }

module _ {H : Type 0} ⦃ops : Hash H⦄ ⦃laws : HashLaws H⦄ ⦃sizes : HashSizes H⦄ where
  -- Two outputs.
  pub hkdf_two :
      (ck text : Bytes) (h : H) (o1 o2 o3 : Bytes)
      → length ck ≤ maxhashlen
      → length o1 ≡ maxhashlen
      → length o2 ≡ maxhashlen
      → (h' : H) × (p1 : Bytes) × (p2 : Bytes) × (hkdf ck text 2 (h, (o1, o2, o3))
          ≡ (ok tt, (h', (p1, p2, o3))))
        × (length p1 ≡ maxhashlen)
        × (length p2 ≡ maxhashlen)
  unfolding hkdf
  hkdf_two ck text h o1 o2 o3 short l1 l2 =
      let zeros : Bytes = replicate maxhashlen 0 in
      let zeros_len = length-replicate {A = ℕ} maxhashlen 0 in
      let (h1, key, e1, key_len) = hmac_returns ck text h zeros short (omega (arith, zeros_len)) in
      let key_short : length key ≤ maxhashlen = omega (arith, zeros_len, key_len) in
      let (h2, p1, e2, p1_len) = hmac_returns key (1 ∷ []) h1 o1 key_short (omega (arith, l1)) in
      let fits = numbered_fits (ops.hash_len h) 2 p1 (laws.hash_len_bound h) (p1_len ∙ l1) in
      let (h3, p2, e3, p2_len) =
        hmac_returns key (numbered_text (ops.hash_len h) 2 p1) h2 o2 key_short
          (omega (arith, l2)) in
      (
        h3,
        p1,
        p2,
        ground (arith, e1, e2, e3, fits.sliced, fits.copied, fits.put, fits.taken),
        p1_len ∙ l1,
        p2_len ∙ l2,
      )

  -- Three outputs.
  pub hkdf_three :
      (ck text : Bytes) (h : H) (o1 o2 o3 : Bytes)
      → length ck ≤ maxhashlen
      → length o1 ≡ maxhashlen
      → length o2 ≡ maxhashlen
      → length o3 ≡ maxhashlen
      → (h' : H) × (p1 : Bytes) × (p2 : Bytes) × (p3 : Bytes) × (hkdf ck text 3 (h, (o1, o2, o3))
          ≡ (ok tt, (h', (p1, p2, p3))))
        × (length p1 ≡ maxhashlen)
        × (length p2 ≡ maxhashlen)
        × (length p3 ≡ maxhashlen)
  unfolding hkdf
  hkdf_three ck text h o1 o2 o3 short l1 l2 l3 =
      let zeros : Bytes = replicate maxhashlen 0 in
      let zeros_len = length-replicate {A = ℕ} maxhashlen 0 in
      let (h1, key, e1, key_len) = hmac_returns ck text h zeros short (omega (arith, zeros_len)) in
      let key_short : length key ≤ maxhashlen = omega (arith, zeros_len, key_len) in
      let (h2, p1, e2, p1_len) = hmac_returns key (1 ∷ []) h1 o1 key_short (omega (arith, l1)) in
      let fits = numbered_fits (ops.hash_len h) 2 p1 (laws.hash_len_bound h) (p1_len ∙ l1) in
      let (h3, p2, e3, p2_len) =
        hmac_returns key (numbered_text (ops.hash_len h) 2 p1) h2 o2 key_short
          (omega (arith, l2)) in
      let fits' = numbered_fits (ops.hash_len h) 3 p2 (laws.hash_len_bound h) (p2_len ∙ l2) in
      let (h4, p3, e4, p3_len) =
        hmac_returns key (numbered_text (ops.hash_len h) 3 p2) h3 o3 key_short
          (omega (arith, l3)) in
      (
        h4,
        p1,
        p2,
        p3,
        ground (
          arith, e1, e2, e3, e4, fits.sliced, fits.copied, fits.put, fits.taken, fits'.sliced,
          fits'.copied, fits'.put, fits'.taken,
        ),
        p1_len ∙ l1,
        p2_len ∙ l2,
        p3_len ∙ l3,
      )

-- A Diffie-Hellman function that fails on no key pair: `generate` returns, and so does `dh` with a
-- public key of a pair in front and room for the secret.
pub record DhTotal (R D : Type 0) ⦃ops : Dh R D⦄ ⦃laws : DhLaws R D⦄ : Type 0 where
  pub generate_ok : (s : D × R) → (ops.generate s).0 ≡ ok tt
  pub dh_ok :
      (d e : D) (k out : Bytes)
      → ops.pubkey d ≡ laws.public (ops.privkey d)
      → ops.pubkey e ≡ laws.public (ops.privkey e)
      → take (ops.pub_len e) k ≡ ops.pubkey e
      → ops.pub_len d ≤ length out
      → (out' : Bytes) × (ops.dh d k out ≡ (ok tt, out')) × (length out' ≡ length out)
