-- ===== src/HandshakeState/InStep/Payload.antt =====
-- The end of a handshake message (src/handshakestate.rs): its payload, and the split after the last
-- one.
use mathlib.Core.Path.{subst}
use screech.Base.{
  ℕ, ◌+◌, ◌-◌, ◌≤◌, ◌≡◌, refl, sym, ap, Bool, true, false, Bytes, length, ◌==◌, if◌then◌else◌,
  Bool-cases, inl, inr, arith,
}
use screech.Constants.{maxmsglen}
use screech.Exec.{Exec, call, call_inv, call_ok, on, pure}
use screech.Outcome.{ok, Result-cases}
use screech.Types.{Cipher, Hash, Dh}
use screech.Types.Laws.{DhLaws}
use screech.CipherState.{CipherState}
use screech.SymmetricState.{SymmetricState, split}
use screech.SymmetricState.Returned.{IsSynced, split_keeps, split_keyed, split-IsSynced}
use screech.HandshakeState.{HandshakeState, symmetricstate_and_children, dh_len}
use screech.HandshakeState.Frame.{encrypt_rest_stage}
use screech.HandshakeState.Write.{encrypt_rest, write_payload}
use screech.HandshakeState.InStep.{InStep, IsSound, known_to}

module _ {R C H D : Type 0} where
  unfoldable pub is_last : HandshakeState R C H D → Bool
  is_last hs = hs.pattern_position == length hs.message_patterns - 1

module _ {R C H D : Type 0} ⦃cipher_ops : Cipher C⦄ ⦃hash_ops : Hash H⦄ where
  -- What both sides do behind a message: the split, after the last one.
  abbrev pub finish : Bool → Exec (HandshakeState R C H D) (Unit {0})
  finish last = if last then on symmetricstate_and_children (call split) else pure tt

  -- The symmetric state and the two cipher states of a side.
  abbrev with_split :
      HandshakeState R C H D
      → SymmetricState C H × (CipherState C × CipherState C)
      → HandshakeState R C H D
  with_split hs t = symmetricstate_and_children.put t hs

module _ {R C H D : Type 0} ⦃cipher_ops : Cipher C⦄ ⦃hash_ops : Hash H⦄ ⦃ops : Dh R D⦄
    ⦃laws : DhLaws R D⦄ where
  with_split-IsSound :
      (hs : HandshakeState R C H D) (t : SymmetricState C H × (CipherState C × CipherState C))
      → IsSound hs
      → IsSound (with_split hs t)
  unfolding dh_len
  with_split-IsSound hs t h = record {
    e_len = h.e_len;
    rs_room = h.rs_room;
    re_room = h.re_room;
    s_pair = h.s_pair;
    fixed_pair = h.fixed_pair;
    e_pair = h.e_pair;
  }

  with_split-InStep :
      (w r : HandshakeState R C H D) (t : SymmetricState C H × (CipherState C × CipherState C))
      → InStep w r
      → IsSynced t.0
      → InStep (with_split w t) (with_split r t)
  unfolding dh_len
  with_split-InStep w r t h synced = record {
    roles = h.roles;
    symmetric = refl;
    synced = synced;
    children = refl;
    lengths = h.lengths;
    same_params = h.same_params;
    same_psks = h.same_psks;
    same_patterns = h.same_patterns;
    same_position = h.same_position;
    w_sound = with_split-IsSound w t h.w_sound;
    r_sound = with_split-IsSound r t h.r_sound;
    r_s = h.r_s;
    r_e = h.r_e;
    w_s = h.w_s;
    w_e = h.w_e;
  }

  pub finish_both :
      (w r : HandshakeState R C H D) (last : Bool) {w' : HandshakeState R C H D}
      → InStep w r
      → finish last w ≡ (ok tt, w')
      → (r' : HandshakeState R C H D) × (finish last r ≡ (ok tt, r'))
        × InStep w' r'
        × (r'.symmetricstate.inner.has_key ≡ w.symmetricstate.inner.has_key)
        × (known_to r' ≡ known_to r)
        × (r'.initiator ≡ r.initiator)
        × (known_to w' ≡ known_to w)
  finish_both w r false {w'} h returned =
      let same : w ≡ w' = cc returned in
      (
        r,
        refl,
        subst (λ x. InStep x r) same h,
        ap (λ x. x.inner.has_key) h.symmetric,
        refl,
        refl,
        ap (λ x. known_to x) (sym same),
      )
  finish_both w r true {w'} h returned =
      let before = symmetricstate_and_children.get w in
      let (_, t) = split before in
      let (splits, same) = call_inv symmetricstate_and_children split w returned in
      let equal : symmetricstate_and_children.get r ≡ before = cc (h.symmetric, h.children) in
      (
        with_split r t,
        call_ok symmetricstate_and_children split r (rw equal splits),
        subst (λ x. InStep x (with_split r t)) same
            (with_split-InStep w r t h (split-IsSynced w.symmetricstate before.1 h.synced)),
        ap (λ x. x.has_key) (split_keeps w.symmetricstate before.1).0,
        refl,
        refl,
        ap (λ x. known_to x) (sym same),
      )

  pub write_payload_inv :
      (payload : Bytes) (i : ℕ) (w : HandshakeState R C H D) (out : Bytes) {n : ℕ}
      {w' : HandshakeState R C H D} {out' : Bytes}
      → write_payload payload i (w, out) ≡ (ok n, (w', out'))
      → (len : ℕ) × (w1 : HandshakeState R C H D) × (encrypt_rest i payload (w, out)
          ≡ (ok len, (w1, out')))
        × (finish (is_last w1) w1 ≡ (ok tt, w'))
        × (n ≡ i + len)
        × (i + len ≤ maxmsglen)
  unfolding write_payload is_last
  write_payload_inv payload i w out {n} {w'} {out'} returned =
      let (r, (w1, out1)) = encrypt_rest i payload (w, out) in
      elim (Result-cases r) [
        | inl (len, e) ↦ elim (Bool-cases (w1.pattern_position == length w1.message_patterns - 1)) [
          | inl b ↦ (
            len,
            w1,
            ground (arith, returned, e, b),
            ground (arith, returned, e, b),
            ground (arith, returned, e, b),
            ground (arith, returned, e, b),
          )
          | inr b ↦ (
            len,
            w1,
            ground (arith, returned, e, b),
            ground (arith, returned, e, b),
            ground (arith, returned, e, b),
            ground (arith, returned, e, b),
          )
        ]
        | inr (inl (_, e)) ↦ ground (arith, returned, e)
        | inr (inr e) ↦ ground (arith, returned, e)
      ]

module _ {R C H D : Type 0} where
  -- Both cipher states have a key and start at the first nonce.
  pub record IsKeyed (hs : HandshakeState R C H D) : Type 0 where
    pub initiator_keyed : hs.cipherstates.initiator.has_key ≡ true
    pub responder_keyed : hs.cipherstates.responder.has_key ≡ true
    pub initiator_zero : hs.cipherstates.initiator.n ≡ 0
    pub responder_zero : hs.cipherstates.responder.n ≡ 0

module _ {R C H D : Type 0} ⦃cipher_ops : Cipher C⦄ ⦃hash_ops : Hash H⦄ where
  finish-IsKeyed :
      (w : HandshakeState R C H D) {w' : HandshakeState R C H D}
      → finish true w ≡ (ok tt, w')
      → IsKeyed w'
  finish-IsKeyed w returned =
      let before = symmetricstate_and_children.get w in
      let (splits, same) = call_inv symmetricstate_and_children split w returned in
      let (i, r, zi, zr) = split_keyed w.symmetricstate before.1 (ap (λ x. x.0) splits) in
      subst (λ x. IsKeyed x) same
        (record {
          initiator_keyed = i;
          responder_keyed = r;
          initiator_zero = zi;
          responder_zero = zr;
        })

module _ {R C H D : Type 0} ⦃cipher_ops : Cipher C⦄ ⦃hash_ops : Hash H⦄ ⦃ops : Dh R D⦄
    ⦃laws : DhLaws R D⦄ where
  pub write_payload-IsKeyed :
      (payload : Bytes) (i : ℕ) (w : HandshakeState R C H D) (out : Bytes) {n : ℕ}
      {w' : HandshakeState R C H D} {out' : Bytes}
      → is_last w ≡ true
      → write_payload payload i (w, out) ≡ (ok n, (w', out'))
      → IsKeyed w'
  unfolding is_last
  write_payload-IsKeyed payload i w out last returned =
      let (len, w1, seals, finishes, _, _) = write_payload_inv payload i w out returned in
      let stage = encrypt_rest_stage i payload (w, out) in
      let last' : is_last w1 ≡ true = cc (seals, stage.same_position, stage.same_patterns, last) in
      finish-IsKeyed w1 (rw last' at finishes)
