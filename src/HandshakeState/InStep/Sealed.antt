-- ===== src/HandshakeState/InStep/Sealed.antt =====
-- The `s` token of a handshake message (src/handshakestate.rs), written by one side and read by the
-- other.
use mathlib.Core.Path.{subst}
use screech.Base.{
  ℕ, ◌+◌, ◌≤◌, ◌≡◌, refl, sym, ap, ◌∙◌, true, ◌++◌, Bytes, length, take, drop, append_assoc,
  take-append_self, length-append, length-take, length-drop, take-written, length-written, arith,
}
use screech.Outcome.{ok}
use screech.Toggle.{toggle_on}
use screech.Types.{Cipher, Hash, Dh}
use screech.Types.Laws.{CipherLaws, DhLaws}
use screech.Params.Readable.{received}
use screech.Params.Table.{Token}
use screech.SymmetricState.{SymmetricState}
use screech.SymmetricState.Sync.{sealed, behind, length-behind}
use screech.SymmetricState.Returned.{IsSynced}
use screech.HandshakeState.{HandshakeState, dh_len}
use screech.HandshakeState.Write.{write_s}
use screech.HandshakeState.Read.{read_s}
use screech.HandshakeState.InStep.{InStep, known_to}
use screech.HandshakeState.InStep.Static.{write_s-IsSealed, read_s-sealed}
use screech.HandshakeState.InStep.Sent.{IsSent}
use screech.HandshakeState.InStep.Mixed.{with_ss, with_ss-IsSound}

module _ {R C H D : Type 0} ⦃cipher_ops : Cipher C⦄ ⦃hash_ops : Hash H⦄ ⦃ops : Dh R D⦄
    ⦃laws : DhLaws R D⦄ ⦃cipher_laws : CipherLaws C⦄ where
  -- The buffer of `rs` once the key has been decrypted into it.
  rs_with : HandshakeState R C H D → Bytes → Bytes
  rs_with r key =
      (key ++ behind r.symmetricstate key (take (length key) r.rs.inner))
      ++ drop (length key) r.rs.inner

  rs_with_room :
      (r : HandshakeState R C H D) (key : Bytes)
      → length key ≤ length r.rs.inner
      → (length (rs_with r key) ≡ length r.rs.inner) × (take (length key) (rs_with r key) ≡ key)
  unfolding rs_with
  rs_with_room r key fits =
      let known = take (length key) r.rs.inner in
      let rest = drop (length key) r.rs.inner in
      let left = behind r.symmetricstate key known in
      let room : length key ≤ length known =
        omega (arith, length-take (length key) r.rs.inner, fits) in
      (
        omega (
          arith,
          fits,
          length-append (key ++ left) rest,
          length-behind r.symmetricstate key known room,
          length-drop (length key) r.rs.inner,
          length-take (length key) r.rs.inner,
        ),
        ap (take (length key)) (append_assoc key left rest) ∙ take-append_self key (left ++ rest),
      )

  with_rs : HandshakeState R C H D → SymmetricState C H → Bytes → HandshakeState R C H D
  with_rs r ss key = record r { symmetricstate = ss; rs = toggle_on (rs_with r key) }

  s-InStep :
      (w r : HandshakeState R C H D) (ss : SymmetricState C H)
      → InStep w r
      → IsSynced ss
      → w.s.is_on ≡ true
      → InStep (with_ss w ss) (with_rs r ss (ops.pubkey w.s.inner))
  unfolding dh_len with_rs
  s-InStep w r ss h synced on =
      let key = ops.pubkey w.s.inner in
      let key_len = laws.length-pubkey w.s.inner (h.w_sound.s_pair on) in
      let (same, front) =
        rs_with_room r key (omega (arith, key_len, h.lengths, h.r_sound.rs_room)) in
      record {
        roles = h.roles;
        symmetric = refl;
        synced = synced;
        children = h.children;
        lengths = h.lengths;
        same_params = h.same_params;
        same_psks = h.same_psks;
        same_patterns = h.same_patterns;
        same_position = h.same_position;
        w_sound = with_ss-IsSound w ss h.w_sound;
        r_sound = record {
          e_len = h.r_sound.e_len;
          rs_room = omega (arith, same, h.r_sound.rs_room);
          re_room = h.r_sound.re_room;
          s_pair = h.r_sound.s_pair;
          fixed_pair = h.r_sound.fixed_pair;
          e_pair = h.r_sound.e_pair;
        };
        r_s = record {
          owned = λ _. on;
          pair = λ _. h.w_sound.s_pair on;
          key = λ _. rw (sym key_len) front;
        };
        r_e = h.r_e;
        w_s = h.w_s;
        w_e = h.w_e;
      }

  pub s-IsSent :
      (w r : HandshakeState R C H D) (out : Bytes) (i : ℕ) {n : ℕ} {w' : HandshakeState R C H D}
      {out' : Bytes}
      → InStep w r
      → i ≤ length out
      → write_s i (w, out) ≡ (ok n, (w', out'))
      → IsSent w r out i n w' out' read_s (received Token.s (known_to r))
  unfolding dh_len with_rs rs_with
  s-IsSent w r out i {n} {w'} {out'} h within returned =
      let key = ops.pubkey w.s.inner in
      let ss = w'.symmetricstate in
      let (on, (len, count, seals)) = write_s-IsSealed w out i h.synced returned in
      let chunk = sealed w.symmetricstate key in
      let key_len = laws.length-pubkey w.s.inner (h.w_sound.s_pair on) in
      let sum : n ≡ i + length chunk = omega (arith, count, seals.count) in
      record {
        chunk = chunk;
        after = with_rs r ss key;
        count = sum;
        text =
            rw (sum, seals.text)
              (take-written i out chunk (drop (length chunk) (drop i out)) within);
        size = rw seals.text (length-written i out chunk seals.room);
        room = omega (arith, sum, seals.room);
        reads = λ rest. rw (sym h.symmetric) (
            read_s-sealed r key rest {after = ss} (omega (arith, key_len, h.lengths))
              h.r_sound.rs_room
              (λ buffer fits. rw h.symmetric (seals.encrypted.decrypts buffer fits)));
        in_step =
            subst (λ x. InStep x (with_rs r ss key)) (sym seals.after)
              (s-InStep w r ss h seals.encrypted.synced on);
        knows = refl;
        keeps = ap (λ x. known_to x) seals.after;
        same_role = refl;
      }
