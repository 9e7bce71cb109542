-- ===== src/HandshakeState/InStep/Message.antt =====
-- A handshake message (src/handshakestate.rs) from its writer to its reader.

use screech.Base.{
  ℕ, ◌+◌, ◌≤◌, ◌≡◌, refl, sym, ap, ap, ◌∙◌, Bool, true, false, ◌++◌, List, Bytes, length, take,
  none, some, get_elem?, take-append_self, length-take, arith,
}
use screech.Constants.{maxmsglen}
use screech.Exec.{bind_inv, ◌>>=◌}
use screech.Outcome.{Outcome, ok}
use screech.Types.{Cipher, Hash, Dh}
use screech.Types.Laws.{CipherLaws, DhLaws}
use screech.Params.Readable.{is_readable, received_all}
use screech.Params.Table.{Token}
use screech.HandshakeState.{HandshakeState, dh_len}
use screech.HandshakeState.Frame.{write_tokens_stage, write_inner_stage}
use screech.HandshakeState.Write.{
  write_tokens, write_payload, write_message_inner, write_message, wrote,
}
use screech.HandshakeState.Read.{read_message, was_read}
use screech.HandshakeState.InStep.{InStep, IsSound, known_to}
use screech.HandshakeState.InStep.Tokens.{tokens-IsSent}
use screech.HandshakeState.InStep.Calls.{write_message_inv, write_inner_inv, read_message_ok}
use screech.HandshakeState.InStep.Payload.{is_last, IsKeyed, write_payload-IsKeyed}
use screech.HandshakeState.InStep.Delivered.{payload_sent}

module _ {R C H D : Type 0} ⦃cipher_ops : Cipher C⦄ ⦃hash_ops : Hash H⦄ ⦃ops : Dh R D⦄
    ⦃laws : DhLaws R D⦄ where
  counted-IsSound :
      (hs : HandshakeState R C H D) (p : ℕ) (b : Bool)
      → IsSound hs
      → IsSound (record hs { pattern_position = p; my_turn = b })
  unfolding dh_len
  counted-IsSound hs p b h = record {
    e_len = h.e_len;
    rs_room = h.rs_room;
    re_room = h.re_room;
    s_pair = h.s_pair;
    fixed_pair = h.fixed_pair;
    e_pair = h.e_pair;
  }

  counted-InStep : (w r : HandshakeState R C H D) → InStep w r → InStep (wrote w) (was_read r)
  unfolding dh_len
  counted-InStep w r h = record {
    roles = h.roles;
    symmetric = h.symmetric;
    synced = h.synced;
    children = h.children;
    lengths = h.lengths;
    same_params = h.same_params;
    same_psks = h.same_psks;
    same_patterns = h.same_patterns;
    same_position = ap (λ p. p + 1) h.same_position;
    w_sound = counted-IsSound w (w.pattern_position + 1) false h.w_sound;
    r_sound = counted-IsSound r (r.pattern_position + 1) true h.r_sound;
    r_s = h.r_s;
    r_e = h.r_e;
    w_s = h.w_s;
    w_e = h.w_e;
  }

  unfoldable pub can_read : HandshakeState R C H D → Bool
  can_read r = elim (get_elem? r.message_patterns r.pattern_position) [
    | none ↦ true
    | some ts ↦ is_readable r.initiator (known_to r) ts
  ]

module _ {R C H D : Type 0} ⦃cipher_ops : Cipher C⦄ ⦃hash_ops : Hash H⦄ ⦃ops : Dh R D⦄
    ⦃laws : DhLaws R D⦄ ⦃cipher_laws : CipherLaws C⦄ where
  body_read :
      (ts : List Token) (payload out buffer : Bytes) (w r : HandshakeState R C H D) {n : ℕ}
      {w' : HandshakeState R C H D} {out' : Bytes}
      → InStep w r
      → get_elem? r.message_patterns r.pattern_position ≡ some ts
      → is_readable r.initiator (known_to r) ts ≡ true
      → r.my_turn ≡ false
      → length payload ≤ length buffer
      → (write_tokens ts 0 >>= write_payload payload) (w, out) ≡ (ok n, (w', out'))
      → (r' : HandshakeState R C H D) × (rest : Bytes) × (read_message (take n out') (r, buffer)
          ≡ (ok (length payload), (was_read r', payload ++ rest)))
        × (length (payload ++ rest) ≡ length buffer)
        × InStep w' r'
        × (known_to r' ≡ received_all ts (known_to r))
        × (r'.initiator ≡ r.initiator)
        × (known_to w' ≡ known_to w)
  unfolding is_last
  body_read ts payload out buffer w r {n} {w'} {out'} h tokens readable turn fits returned =
      let (_, (w1, out1)) = write_tokens ts 0 (w, out) in
      let (j, wrote_tokens, ends) =
        bind_inv (write_tokens ts 0) (write_payload payload) (w, out) returned in
      let one =
        tokens-IsSent ts w r out 0 {n = j} {w' = w1} {out' = out1} (known_to r) h refl readable
          (omega arith) (cc wrote_tokens) in
      let two =
        payload_sent payload out1 buffer j w1 one.after one.in_step
          (omega (arith, one.room, one.size)) fits ends in
      let stage = write_tokens_stage ts 0 (w, out) in
      let last : is_last w1 ≡ is_last r =
        cc (stage.same_position, stage.same_patterns, h.same_position, h.same_patterns) in
      let whole : take n out' ≡ one.chunk ++ two.chunk =
        two.text ∙ ap (λ x. x ++ two.chunk) one.text in
      let limit : length (take n out') ≤ maxmsglen = omega (arith, length-take n out', two.limit) in
      (
        two.after,
        two.rest,
        read_message_ok (take n out') buffer ts r {ptr = two.chunk} {r1 = one.after}
            {r2 = two.after} limit turn tokens (rw whole (one.reads two.chunk))
            (rw (sym last) two.reads),
        two.buffer_len,
        two.in_step,
        two.knows ∙ one.knows,
        two.same_role ∙ one.same_role,
        two.keeps ∙ one.keeps,
      )

  body-IsKeyed :
      (ts : List Token) (payload out : Bytes) (w : HandshakeState R C H D) {n : ℕ}
      {w' : HandshakeState R C H D} {out' : Bytes}
      → is_last w ≡ true
      → (write_tokens ts 0 >>= write_payload payload) (w, out) ≡ (ok n, (w', out'))
      → IsKeyed w'
  unfolding is_last
  body-IsKeyed ts payload out w last returned =
      let (_, (w1, out1)) = write_tokens ts 0 (w, out) in
      let (j, _, ends) = bind_inv (write_tokens ts 0) (write_payload payload) (w, out) returned in
      let stage = write_tokens_stage ts 0 (w, out) in
      write_payload-IsKeyed payload j w1 out1 (cc (stage.same_position, stage.same_patterns, last))
        ends

  -- What a message that was written and handed over leaves.
  pub record IsExchanged (payload buffer : Bytes) (w r w' : HandshakeState R C H D) (q : Outcome ℕ)
      (r' : HandshakeState R C H D) (buffer' : Bytes) : Type 0 where
    pub outcome : q ≡ ok (length payload)
    pub text : take (length payload) buffer' ≡ payload
    pub size : length buffer' ≡ length buffer
    pub in_step : InStep w' r'
    pub w_turn : w'.my_turn ≡ false
    pub r_turn : r'.my_turn ≡ true
    pub tokens : List Token
    pub at : get_elem? w.message_patterns w.pattern_position ≡ some tokens
    pub next : w'.pattern_position ≡ w.pattern_position + 1
    pub patterns : w'.message_patterns ≡ w.message_patterns
    pub keyed : is_last w ≡ true → IsKeyed w'
    pub knows : known_to r' ≡ received_all tokens (known_to r)
    pub keeps : known_to w' ≡ known_to w
    pub same_role : r'.initiator ≡ r.initiator

  pub exchanged :
      (payload out buffer : Bytes) (w r : HandshakeState R C H D) {n : ℕ}
      {w' : HandshakeState R C H D} {out' : Bytes}
      → InStep w r
      → can_read r ≡ true
      → r.my_turn ≡ false
      → length payload ≤ length buffer
      → write_message payload (w, out) ≡ (ok n, (w', out'))
      → let (q, (r', buffer')) = read_message (take n out') (r, buffer) in
        IsExchanged payload buffer w r w' q r' buffer'
  unfolding can_read
  exchanged payload out buffer w r {n} {w'} {out'} h readable turn fits returned =
      let (_, (w0, out0)) = write_message_inner payload (w, out) in
      let (inner, after, same) = write_message_inv payload w out returned in
      let (ts, tokens, body) =
        write_inner_inv payload w out {n = n} {w' = w0} {out' = out0} (cc inner) in
      let mine : get_elem? r.message_patterns r.pattern_position ≡ some ts =
        cc (h.same_patterns, h.same_position, tokens) in
      let (r', rest, reads, size, in_step, knows, role, keeps) =
        body_read ts payload out buffer w r h mine (ground (arith, readable, mine)) turn fits
          body in
      let stage = write_inner_stage payload (w, out) in
      rw (same, after, reads)
        (record {
          outcome = refl;
          text = take-append_self payload rest;
          size = size;
          in_step = counted-InStep w0 r' in_step;
          w_turn = refl;
          r_turn = refl;
          tokens = ts;
          at = tokens;
          next = ap (λ p. p + 1) stage.same_position;
          patterns = stage.same_patterns;
          keyed = λ last.
              let k = body-IsKeyed ts payload out w last body in
              record {
                initiator_keyed = k.initiator_keyed;
                responder_keyed = k.responder_keyed;
                initiator_zero = k.initiator_zero;
                responder_zero = k.responder_zero;
              };
          knows = knows;
          keeps = keeps;
          same_role = role;
        })
