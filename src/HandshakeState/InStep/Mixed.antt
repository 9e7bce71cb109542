-- ===== src/HandshakeState/InStep/Mixed.antt =====
-- The `dh` and `psk` tokens of a handshake message (src/handshakestate.rs), which send nothing and
-- change the symmetric state only.
use mathlib.Core.Path.{subst}
use screech.Base.{
  ℕ, ◌≤◌, ◌≡◌, refl, sym, ap, true, [], Bytes, length, take, none, some, get_elem?, Option-cases,
  append-nil, inl, inr, arith,
}
use screech.Error.{Error}
use screech.Exec.{Exec, on, first, pure, ◌>>◌}
use screech.Outcome.{ok, slice_to, Result-cases}
use screech.Types.{Cipher, Hash, Dh}
use screech.Types.Laws.{DhLaws}
use screech.Params.Readable.{is_known}
use screech.Params.Table.{DhToken}
use screech.SymmetricState.{SymmetricState, mix_key}
use screech.SymmetricState.Returned.{IsSynced, mix_key-IsSynced, mix_key_and_hash-IsSynced}
use screech.HandshakeState.{HandshakeState, dh_len, dh}
use screech.HandshakeState.Write.{mix_dh, mix_psk}
use screech.HandshakeState.InStep.{InStep, IsSound, known_to, dh-InStep}
use screech.HandshakeState.InStep.Sent.{IsSent}

module _ {R C H D : Type 0} where
  abbrev pub with_ss : HandshakeState R C H D → SymmetricState C H → HandshakeState R C H D
  with_ss hs ss = record hs { symmetricstate = ss }

module _ {R C H D : Type 0} ⦃cipher_ops : Cipher C⦄ ⦃hash_ops : Hash H⦄ ⦃ops : Dh R D⦄
    ⦃laws : DhLaws R D⦄ where
  pub with_ss-IsSound :
      (hs : HandshakeState R C H D) (ss : SymmetricState C H) → IsSound hs → IsSound (with_ss hs ss)
  unfolding dh_len
  with_ss-IsSound hs ss h = record {
    e_len = h.e_len;
    rs_room = h.rs_room;
    re_room = h.re_room;
    s_pair = h.s_pair;
    fixed_pair = h.fixed_pair;
    e_pair = h.e_pair;
  }

  pub with_ss-InStep :
      (w r : HandshakeState R C H D) (ss : SymmetricState C H)
      → InStep w r
      → IsSynced ss
      → InStep (with_ss w ss) (with_ss r ss)
  unfolding dh_len
  with_ss-InStep w r ss h synced = record {
    roles = h.roles;
    symmetric = refl;
    synced = synced;
    children = h.children;
    lengths = h.lengths;
    same_params = h.same_params;
    same_psks = h.same_psks;
    same_patterns = h.same_patterns;
    same_position = h.same_position;
    w_sound = with_ss-IsSound w ss h.w_sound;
    r_sound = with_ss-IsSound r ss h.r_sound;
    r_s = h.r_s;
    r_e = h.r_e;
    w_s = h.w_s;
    w_e = h.w_e;
  }

  mix_dh_inv :
      (w : HandshakeState R C H D) (t : DhToken) {w' : HandshakeState R C H D}
      → mix_dh t w ≡ (ok tt, w')
      → (out : Bytes) × (secret : Bytes) × (dh w t ≡ ok out)
        × (slice_to {E = Error} (dh_len w) out ≡ ok secret)
        × (mix_key secret w.symmetricstate ≡ (ok tt, w'.symmetricstate))
        × (w' ≡ with_ss w w'.symmetricstate)
  unfolding mix_dh
  mix_dh_inv w t {w'} returned = elim (Result-cases (dh w t)) [
    | inl (out, d) ↦
        let (r, s) = mix_key (take (dh_len w) out) w.symmetricstate in
        (
          out,
          take (dh_len w) out,
          d,
          ground (arith, returned, d),
          ground (arith, returned, d),
          ground (arith, returned, d),
        )
    | inr (inl (_, e)) ↦ ground (arith, returned, e)
    | inr (inr e) ↦ ground (arith, returned, e)
  ]

  pub mix_dh_mixed :
      (w r : HandshakeState R C H D) (t : DhToken) {w' : HandshakeState R C H D}
      → InStep w r
      → is_known t r.initiator (known_to r) ≡ true
      → mix_dh t w ≡ (ok tt, w')
      → (mix_dh t r ≡ (ok tt, with_ss r w'.symmetricstate))
        × (w' ≡ with_ss w w'.symmetricstate)
        × IsSynced w'.symmetricstate
  unfolding mix_dh
  mix_dh_mixed w r t {w'} h known returned =
      let (out, secret, d, cut, mixed, after) = mix_dh_inv w t returned in
      let d' = dh-InStep w r t h known d in
      (
        ground (arith, d', cut, mixed, h.lengths, h.symmetric),
        after,
        ground (arith, mixed, mix_key-IsSynced secret w.symmetricstate),
      )

  pub mix_psk_mixed :
      (w r : HandshakeState R C H D) (n : ℕ) {w' : HandshakeState R C H D}
      → InStep w r
      → mix_psk n w ≡ (ok tt, w')
      → (mix_psk n r ≡ (ok tt, with_ss r w'.symmetricstate))
        × (w' ≡ with_ss w w'.symmetricstate)
        × IsSynced w'.symmetricstate
  unfolding mix_psk
  mix_psk_mixed w r n {w'} h returned = elim (Option-cases (get_elem? w.psks n)) [
    | inl e ↦ ground (arith, returned, e)
    | inr (none, e) ↦ ground (arith, returned, e)
    | inr (some psk, e) ↦ (
      ground (arith, returned, e, h.same_psks, h.symmetric),
      ground (arith, returned, e),
      ground (arith, returned, e, mix_key_and_hash-IsSynced psk w.symmetricstate),
    )
  ]

  mixing_inv :
      (mix : Exec (HandshakeState R C H D) (Unit {0})) (w : HandshakeState R C H D) (out : Bytes)
      (i : ℕ) {n : ℕ} {w' : HandshakeState R C H D} {out' : Bytes}
      → (on first mix >> pure i) (w, out) ≡ (ok n, (w', out'))
      → (mix w ≡ (ok tt, w')) × (n ≡ i) × (out' ≡ out)
  mixing_inv mix w out i returned = ground (arith, returned)

  -- Such a round of the loop over the tokens sends nothing.
  pub mixed-IsSent :
      (w r : HandshakeState R C H D) (out : Bytes) (i : ℕ) {n : ℕ} {w' : HandshakeState R C H D}
      {out' : Bytes} (mix : Exec (HandshakeState R C H D) (Unit {0}))
      → InStep w r
      → i ≤ length out
      → (mix w ≡ (ok tt, w')
          → (mix r ≡ (ok tt, with_ss r w'.symmetricstate))
            × (w' ≡ with_ss w w'.symmetricstate)
            × IsSynced w'.symmetricstate)
      → (on first mix >> pure i) (w, out) ≡ (ok n, (w', out'))
      → IsSent w r out i n w' out' (λ ptr. mix >> pure ptr) (known_to r)
  mixed-IsSent w r out i {n} {w'} {out'} mix h within both returned =
      let (wrote, count, kept) = mixing_inv mix w out i returned in
      let (mixed, after, synced) = both wrote in
      record {
        chunk = [];
        after = with_ss r w'.symmetricstate;
        count = omega (arith, count);
        text = rw (count, kept) (sym (append-nil (take i out)));
        size = ap (λ x. length x) kept;
        room = omega (arith, count, within);
        reads = λ rest. cc mixed;
        in_step =
            subst (λ x. InStep x (with_ss r w'.symmetricstate)) (sym after)
              (with_ss-InStep w r w'.symmetricstate h synced);
        knows = refl;
        keeps = ap (λ x. known_to x) after;
        same_role = refl;
      }
