-- ===== src/Example/Opening.antt =====
-- From the handshake of src/examples/simple.rs to its transport phase.
use screech.Base.{◌≡◌, refl, ap, ◌∙◌, true, false, inl, inr, arith}
use screech.Outcome.{ok}
use screech.Types.{Cipher, Hash, Dh}
use screech.Types.Laws.{CipherLaws, DhLaws}
use screech.HandshakeState.{HandshakeState, is_handshake_finished}
use screech.HandshakeState.InStep.Conversation.{silent, IsReady}
use screech.TransportState.{TransportState, into_transport_mode}
use screech.TransportState.Session.{IsFresh}
use screech.TransportState.Opening.{Talk-then-IsFresh}
use screech.Example.{Peer}
use screech.Example.Programs.{enter}

module _ {R C H D : Type 0} ⦃cipher_ops : Cipher C⦄ ⦃hash_ops : Hash H⦄ ⦃ops : Dh R D⦄ where
  converted :
      (hs : HandshakeState R C H D) {t : TransportState C}
      → into_transport_mode hs ≡ ok t
      → (t.initiator ≡ hs.initiator) × (t.cipherstates ≡ hs.cipherstates)
  unfolding into_transport_mode
  converted hs made = (ground (arith, made), ground (arith, made))

  pub entered :
      (p : Peer (HandshakeState R C H D)) {t : TransportState C}
      → into_transport_mode p.noise ≡ ok t
      → enter p
        ≡ ok (record { noise = t; buf = p.buf; incoming = p.incoming; outgoing = p.outgoing })
  unfolding enter
  entered p made = rw made refl

module _ {R C H D : Type 0} ⦃cipher_ops : Cipher C⦄ ⦃hash_ops : Hash H⦄ ⦃ops : Dh R D⦄
    ⦃laws : DhLaws R D⦄ ⦃cipher_laws : CipherLaws C⦄ where
  -- Behind the last message the sides convert: the reader's transport state and the writer's.
  pub record Opens (reader writer : HandshakeState R C H D) : Type 0 where
    pub server : TransportState C
    pub client : TransportState C
    pub server_converts : into_transport_mode reader ≡ ok server
    pub client_converts : into_transport_mode writer ≡ ok client
    pub fresh : IsFresh client server
    pub zero : client.cipherstates.initiator.n ≡ 0

  pub opens :
      (reader writer : HandshakeState R C H D)
      → IsReady reader writer
      → is_handshake_finished reader ≡ true
      → reader.initiator ≡ false
      → Opens reader writer
  opens reader writer ready done role =
      let (t, u, at, at', fresh, _, _) =
        Talk-then-IsFresh {a = reader} {b = writer} ready silent done in
      let (role', states) = converted reader at in
      let fresh' : IsFresh u t = elim fresh [
        | inl f ↦ absurd (ground (arith, f.first_role, role', role))
        | inr f ↦ f
      ] in
      record {
        server = t;
        client = u;
        server_converts = at;
        client_converts = at';
        fresh = fresh';
        zero =
            ap (λ c. c.initiator.n) fresh'.same
            ∙ ap (λ c. c.initiator.n) states
            ∙ (ready.keyed done).initiator_zero;
      }
