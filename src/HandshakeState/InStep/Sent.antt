-- ===== src/HandshakeState/InStep/Sent.antt =====
-- One token of a handshake message (src/handshakestate.rs), written by one side and read by the
-- other.
use mathlib.Core.Path.{subst}
use screech.Base.{
  ℕ, ◌+◌, ◌≤◌, ◌≡◌, refl, sym, ap, ◌∙◌, ◌++◌, Bytes, length, take, drop, take-append_self,
  length-append, length-take, length-drop, take-written, arith,
}
use screech.Exec.{Exec}
use screech.Outcome.{ok}
use screech.Toggle.{toggle_on, enable}
use screech.Types.{Cipher, Hash, Dh}
use screech.Types.Laws.{DhLaws}
use screech.Params.Modifier.{is_psk}
use screech.Params.Readable.{Known, received}
use screech.Params.Table.{Token}
use screech.SymmetricState.{SymmetricState}
use screech.SymmetricState.Returned.{IsSynced}
use screech.HandshakeState.{HandshakeState, dh_len}
use screech.HandshakeState.Write.{write_e}
use screech.HandshakeState.Read.{read_e}
use screech.HandshakeState.InStep.{InStep, IsSound, known_to}
use screech.HandshakeState.InStep.Ephemeral.{
  generated, mix_ephemeral-IsSynced, write_e_returned, read_e_sent,
}

module _ {R C H D : Type 0} ⦃cipher_ops : Cipher C⦄ ⦃hash_ops : Hash H⦄ ⦃ops : Dh R D⦄
    ⦃laws : DhLaws R D⦄ where
  -- What the writer put into the message at `i`, the reader takes from what it is handed, and both
  -- are in step again.
  pub record IsSent (w r : HandshakeState R C H D) (out : Bytes) (i n : ℕ)
      (w' : HandshakeState R C H D) (out' : Bytes)
      (read : Bytes → Exec (HandshakeState R C H D) Bytes) (known : Known) : Type 0 where
    pub chunk : Bytes
    pub after : HandshakeState R C H D
    pub count : n ≡ i + length chunk
    pub text : take n out' ≡ take i out ++ chunk
    pub size : length out' ≡ length out
    pub room : n ≤ length out
    pub reads : (rest : Bytes) → read (chunk ++ rest) r ≡ (ok rest, after)
    pub in_step : InStep w' after
    pub knows : known_to after ≡ known
    pub keeps : known_to w' ≡ known_to w
    pub same_role : after.initiator ≡ r.initiator

  generated_len :
      (w : HandshakeState R C H D) → ops.pub_len (generated w).1.e.inner ≡ ops.pub_len w.e.inner
  unfolding generated
  generated_len w = ground (arith, laws.pub_len-generate (w.e.inner, w.rng))

  generated_pair :
      (w : HandshakeState R C H D)
      → IsSound w
      → (generated w).0 ≡ ok tt
      → let d = (generated w).1.e.inner in ops.pubkey d ≡ laws.public (ops.privkey d)
  unfolding generated
  generated_pair w h returned =
      ground (arith, returned, h.fixed_pair, laws.generate_pair (w.e.inner, w.rng))

  abbrev with_e : HandshakeState R C H D → SymmetricState C H → HandshakeState R C H D
  with_e w ss = record w {
    symmetricstate = ss;
    e = enable (generated w).1.e;
    rng = (generated w).1.rng;
  }

  abbrev with_re : HandshakeState R C H D → SymmetricState C H → Bytes → HandshakeState R C H D
  with_re r ss key = record r {
    symmetricstate = ss;
    re = toggle_on (key ++ drop (length key) r.re.inner);
  }

  e-InStep :
      (w r : HandshakeState R C H D) (ss : SymmetricState C H)
      → InStep w r
      → (generated w).0 ≡ ok tt
      → IsSynced ss
      → InStep (with_e w ss) (with_re r ss (ops.pubkey (generated w).1.e.inner))
  unfolding dh_len
  e-InStep w r ss h returned synced =
      let d = (generated w).1.e.inner in
      let key = ops.pubkey d in
      let pair = generated_pair w h.w_sound returned in
      let len = generated_len w in
      let key_len = laws.length-pubkey d pair in
      record {
        roles = h.roles;
        symmetric = refl;
        synced = synced;
        children = h.children;
        lengths = h.lengths;
        same_params = h.same_params;
        same_psks = h.same_psks;
        same_patterns = h.same_patterns;
        same_position = h.same_position;
        w_sound = record {
          e_len = len ∙ h.w_sound.e_len;
          rs_room = h.w_sound.rs_room;
          re_room = h.w_sound.re_room;
          s_pair = h.w_sound.s_pair;
          fixed_pair = λ _. pair;
          e_pair = λ _. pair;
        };
        r_sound = record {
          e_len = h.r_sound.e_len;
          rs_room = h.r_sound.rs_room;
          re_room = omega (
            arith,
            h.r_sound.re_room,
            length-append key (drop (length key) r.re.inner),
            length-drop (length key) r.re.inner,
          );
          s_pair = h.r_sound.s_pair;
          fixed_pair = h.r_sound.fixed_pair;
          e_pair = h.r_sound.e_pair;
        };
        r_s = h.r_s;
        r_e = record {
          owned = λ _. refl;
          pair = λ _. pair;
          key = λ _. rw (sym key_len) (take-append_self key (drop (length key) r.re.inner));
        };
        w_s = h.w_s;
        w_e = h.w_e;
      }

  pub e-IsSent :
      (w r : HandshakeState R C H D) (out : Bytes) (i : ℕ) {n : ℕ} {w' : HandshakeState R C H D}
      {out' : Bytes}
      → InStep w r
      → i ≤ length out
      → write_e i (w, out) ≡ (ok n, (w', out'))
      → IsSent w r out i n w' out' read_e (received Token.e (known_to r))
  unfolding dh_len
  e-IsSent w r out i {n} {w'} {out'} h within returned =
      let sent = write_e_returned w out i returned in
      let d = (generated w).1.e.inner in
      let key = ops.pubkey d in
      let ss = w'.symmetricstate in
      let key_len : length key ≡ dh_len r = cc (
        laws.length-pubkey d (generated_pair w h.w_sound sent.generates),
        generated_len w,
        h.w_sound.e_len,
        h.lengths,
      ) in
      let synced =
        mix_ephemeral-IsSynced (is_psk w.params.handshake) key w.symmetricstate h.synced
          sent.mixes in
      let tail = drop (i + length key) out in
      record {
        chunk = key;
        after = with_re r ss key;
        count = sent.count;
        text = rw (sent.count, sent.text) (take-written i out key tail within);
        size = rw sent.text (
            omega (
              arith,
              sent.room,
              length-append (take i out) (key ++ tail),
              length-append key tail,
              length-take i out,
              length-drop (i + length key) out,
            ));
        room = omega (arith, sent.room, sent.count);
        reads = λ rest.
            read_e_sent r key rest (sym key_len) h.r_sound.re_room
              (rw (h.same_params, h.symmetric) sent.mixes);
        in_step =
            subst (λ x. InStep x (with_re r ss key)) (sym sent.after)
              (e-InStep w r ss h sent.generates synced);
        knows = refl;
        keeps = ap (λ x. known_to x) sent.after;
        same_role = refl;
      }
