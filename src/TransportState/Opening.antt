-- ===== src/TransportState/Opening.antt =====
-- From the end of a handshake (src/handshakestate.rs) to the transport phase (src/transportstate.rs).
use screech.Base.{◌≡◌, sym, ap, ◌∙◌, ◌⊎◌, inl, inr, true, not, Bool-cases}
use screech.Outcome.{ok}
use screech.Types.{Cipher, Hash, Dh}
use screech.Types.Laws.{CipherLaws, DhLaws}
use screech.HandshakeState.{HandshakeState, is_handshake_finished, dh_len}
use screech.HandshakeState.InStep.Conversation.{Talk, IsReady, Talk-IsReady}
use screech.TransportState.{TransportState, into_transport_mode}
use screech.TransportState.Session.{IsFresh}

module _ {R C H D : Type 0} ⦃cipher_ops : Cipher C⦄ ⦃hash_ops : Hash H⦄ ⦃ops : Dh R D⦄
    ⦃laws : DhLaws R D⦄ where
  abbrev transport_of : HandshakeState R C H D → TransportState C
  transport_of hs = record {
    cipherstates = hs.cipherstates;
    pattern = hs.params.handshake.pattern;
    dh_len = dh_len hs;
    rs = hs.rs;
    initiator = hs.initiator;
  }

  ready-IsFresh :
      (a b : HandshakeState R C H D)
      → IsReady a b
      → is_handshake_finished a ≡ true
      → IsFresh (transport_of a) (transport_of b) ⊎ IsFresh (transport_of b) (transport_of a)
  ready-IsFresh a b h done =
      let step = h.in_step in
      let k = h.keyed done in
      elim (Bool-cases a.initiator) [
        | inl i ↦ inl (record {
          first_role = i;
          second_role = step.roles ∙ ap not i;
          same = sym step.children;
          down_keyed = k.initiator_keyed;
          up_keyed = k.responder_keyed;
        })
        | inr i ↦ inr (record {
          first_role = step.roles ∙ ap not i;
          second_role = i;
          same = step.children;
          down_keyed = ap (λ c. c.initiator.has_key) step.children ∙ k.initiator_keyed;
          up_keyed = ap (λ c. c.responder.has_key) step.children ∙ k.responder_keyed;
        })
      ]

module _ {R C H D : Type 0} ⦃cipher_ops : Cipher C⦄ ⦃hash_ops : Hash H⦄ ⦃ops : Dh R D⦄
    ⦃laws : DhLaws R D⦄ ⦃cipher_laws : CipherLaws C⦄ where
  -- Under the laws of cipher and Diffie-Hellman function: from two sides in step, with the keys for
  -- all messages of their pattern, once all messages have been written by turns and handed over, both
  -- sides convert to the transport phase, with opposite roles, the same pattern and key length, and
  -- the same two cipher states, whose keys are set.
  pub Talk-then-IsFresh :
      {w r a b : HandshakeState R C H D}
      → IsReady w r
      → Talk w r a b
      → is_handshake_finished a ≡ true
      → (t : TransportState C) × (u : TransportState C) × (into_transport_mode a ≡ ok t)
        × (into_transport_mode b ≡ ok u)
        × (IsFresh t u ⊎ IsFresh u t)
        × (t.pattern ≡ u.pattern)
        × (t.dh_len ≡ u.dh_len)
  unfolding into_transport_mode
  Talk-then-IsFresh {a = a} {b = b} start t done =
      let h = Talk-IsReady start t in
      let step = h.in_step in
      let done' : is_handshake_finished b ≡ true =
        cc (step.same_position, step.same_patterns, done) in
      (
        transport_of a,
        transport_of b,
        rw done,
        rw done',
        ready-IsFresh a b h done,
        ap (λ p. p.handshake.pattern) (sym step.same_params),
        sym step.lengths,
      )
