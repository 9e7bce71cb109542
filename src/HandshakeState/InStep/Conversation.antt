-- ===== src/HandshakeState/InStep/Conversation.antt =====
-- A whole handshake (src/handshakestate.rs): the sides take turns, and what one writes the other is
-- handed.
use screech.Base.{
  ℕ, suc, ◌≤◌, ◌≡◌, sym, ap, ◌∙◌, true, false, not, Bytes, length, take, drop, inl, inr,
  Option-cases, get_elem?, drop-get_elem?, arith,
}
use screech.Outcome.{Outcome, ok}
use screech.Types.{Cipher, Hash, Dh}
use screech.Types.Laws.{CipherLaws, DhLaws}
use screech.Params.Readable.{all_readable, received_all}
use screech.HandshakeState.{HandshakeState, is_handshake_finished}
use screech.HandshakeState.Write.{write_message}
use screech.HandshakeState.Read.{read_message}
use screech.HandshakeState.InStep.{InStep, known_to}
use screech.HandshakeState.InStep.Payload.{is_last, IsKeyed}
use screech.HandshakeState.InStep.Message.{can_read, exchanged, IsExchanged}

module _ {R C H D : Type 0} ⦃cipher_ops : Cipher C⦄ ⦃hash_ops : Hash H⦄ ⦃ops : Dh R D⦄ where
  -- From the next writer and its reader to the next writer and its reader: each call of
  -- `write_message` returned, and the other side was handed what it wrote, whatever that led to.
  pub data Talk (w r : HandshakeState R C H D)
      : HandshakeState R C H D → HandshakeState R C H D → Type 0 where
    silent : Talk w r w r
    message :
        (payload out buffer : Bytes) {n : ℕ} {a b a' : HandshakeState R C H D} {out' : Bytes}
        → Talk w r a b
        → length payload ≤ length buffer
        → write_message payload (a, out) ≡ (ok n, (a', out'))
        → Talk w r (read_message (take n out') (b, buffer)).1.0 a'

module _ {R C H D : Type 0} ⦃cipher_ops : Cipher C⦄ ⦃hash_ops : Hash H⦄ ⦃ops : Dh R D⦄
    ⦃laws : DhLaws R D⦄ where
  -- The two sides before a message, and the keys for all messages that are left.
  pub record IsReady (w r : HandshakeState R C H D) : Type 0 where
    pub in_step : InStep w r
    pub writer : w.my_turn ≡ true
    pub reader : r.my_turn ≡ false
    pub keyed : is_handshake_finished w ≡ true → IsKeyed w
    pub readable :
        all_readable r.initiator
          (known_to r)
          (known_to w)
          (drop r.pattern_position r.message_patterns)
        ≡ true

  InStep-sym : {w r : HandshakeState R C H D} → InStep w r → InStep r w
  InStep-sym {w} {r} h = record {
    roles = ground (arith, h.roles);
    symmetric = sym h.symmetric;
    synced = rw h.symmetric h.synced;
    children = sym h.children;
    lengths = sym h.lengths;
    same_params = sym h.same_params;
    same_psks = sym h.same_psks;
    same_patterns = sym h.same_patterns;
    same_position = sym h.same_position;
    w_sound = h.r_sound;
    r_sound = h.w_sound;
    r_s = h.w_s;
    r_e = h.w_e;
    w_s = h.r_s;
    w_e = h.r_e;
  }

  pub can_read-IsReady : (w r : HandshakeState R C H D) → IsReady w r → can_read r ≡ true
  unfolding can_read all_readable
  can_read-IsReady w r h = elim (Option-cases (get_elem? r.message_patterns r.pattern_position)) [
    | inl e ↦ ground (arith, e)
    | inr (ts, e) ↦
        let left = drop-get_elem? r.pattern_position r.message_patterns e in
        let readable = h.readable in ground (arith, e, left, readable)
  ]

module _ {R C H D : Type 0} ⦃cipher_ops : Cipher C⦄ ⦃hash_ops : Hash H⦄ ⦃ops : Dh R D⦄
    ⦃laws : DhLaws R D⦄ ⦃cipher_laws : CipherLaws C⦄ where
  IsKeyed-reader : (w r : HandshakeState R C H D) → InStep w r → IsKeyed w → IsKeyed r
  IsKeyed-reader w r h k = record {
    initiator_keyed = ap (λ c. c.initiator.has_key) h.children ∙ k.initiator_keyed;
    responder_keyed = ap (λ c. c.responder.has_key) h.children ∙ k.responder_keyed;
    initiator_zero = ap (λ c. c.initiator.n) h.children ∙ k.initiator_zero;
    responder_zero = ap (λ c. c.responder.n) h.children ∙ k.responder_zero;
  }

  pub exchanged-IsReady :
      (payload buffer : Bytes) (w r : HandshakeState R C H D) {w' r' : HandshakeState R C H D}
      {q : Outcome ℕ} {buffer' : Bytes}
      → IsReady w r
      → IsExchanged payload buffer w r w' q r' buffer'
      → IsReady r' w'
  unfolding all_readable is_last
  exchanged-IsReady payload buffer w r {w'} {r'} h x =
      let step = h.in_step in
      let left = drop-get_elem? w.pattern_position w.message_patterns x.at in
      let readable = h.readable in
      let role : w'.initiator ≡ not r.initiator = ground (arith, x.in_step.roles, x.same_role) in
      let at : w'.pattern_position ≡ suc w.pattern_position = omega (arith, x.next) in
      let tail : all_readable (not r.initiator) (known_to w) (received_all x.tokens (known_to r))
            (drop (suc w.pattern_position) w.message_patterns)
          ≡ true =
        ground (arith, readable, left, step.same_position, step.same_patterns) in
      record {
        in_step = InStep-sym x.in_step;
        writer = x.r_turn;
        reader = x.w_turn;
        keyed = λ done. IsKeyed-reader w' r' x.in_step (
            x.keyed (
              ground (
                arith, done, x.in_step.same_position, x.in_step.same_patterns, x.next, x.patterns,
              )));
        readable = rw (role, x.keeps, x.knows, at, x.patterns) tail;
      }

  pub Talk-IsReady : {w r a b : HandshakeState R C H D} → IsReady w r → Talk w r a b → IsReady a b
  Talk-IsReady h silent = h
  Talk-IsReady h (message payload out buffer {a = a} {b = b} t fits returned) =
      let ready = Talk-IsReady h t in
      exchanged-IsReady payload buffer a b ready (
        exchanged payload out buffer a b ready.in_step (can_read-IsReady a b ready) ready.reader
          fits returned)

  -- Under the laws of cipher and Diffie-Hellman function: from two sides in step, with the keys for
  -- all messages of their pattern, after any number of messages that were written by turns and handed
  -- to the other side: if `write_message` returns, `read_message` of exactly the bytes written, with a
  -- buffer that holds the payload, returns the payload's length, with the payload in front of the
  -- buffer; and the sides, which have changed turns, are in step again with the same symmetric state.
  pub read-write :
      {w r a b a' : HandshakeState R C H D} (payload out buffer : Bytes) {n : ℕ} {out' : Bytes}
      → IsReady w r
      → Talk w r a b
      → length payload ≤ length buffer
      → write_message payload (a, out) ≡ (ok n, (a', out'))
      → let (q, (b', buffer')) = read_message (take n out') (b, buffer) in
        (q ≡ ok (length payload))
        × (take (length payload) buffer' ≡ payload)
        × (length buffer' ≡ length buffer)
        × IsReady b' a'
  read-write {a = a} {b = b} payload out buffer h t fits returned =
      let ready = Talk-IsReady h t in
      let x =
        exchanged payload out buffer a b ready.in_step (can_read-IsReady a b ready) ready.reader
          fits returned in
      (x.outcome, x.text, x.size, exchanged-IsReady payload buffer a b ready x)
