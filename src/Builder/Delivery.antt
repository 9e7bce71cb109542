-- ===== src/Builder/Delivery.antt =====
-- From two calls of `Builder::build` (src/builder.rs) over the handshake to the payloads of the
-- transport phase (src/transportstate.rs).
use screech.Base.{◌≡◌, sym, ◌⊎◌, inl, inr, true, false, List, ◌++◌, Bytes, length, arith}
use screech.Outcome.{ok}
use screech.Types.{Cipher, Hash, Dh}
use screech.Types.Laws.{CipherLaws, DhLaws}
use screech.HandshakeState.{HandshakeState, is_handshake_finished}
use screech.HandshakeState.InStep.Conversation.{Talk}
use screech.TransportState.{TransportState, into_transport_mode}
use screech.TransportState.Session.{Session, Reach, IsFresh, opened, delivery}
use screech.TransportState.Opening.{Talk-then-IsFresh}
use screech.Builder.{Builder, build}
use screech.Builder.Matching.{IsMatching, build-IsReady}

module _ {R C H D : Type 0} ⦃cipher_ops : Cipher C⦄ ⦃hash_ops : Hash H⦄ ⦃ops : Dh R D⦄ where
  converted-finished :
      (hs : HandshakeState R C H D) {t : TransportState C}
      → into_transport_mode hs ≡ ok t
      → is_handshake_finished hs ≡ true
  unfolding into_transport_mode
  converted-finished hs made = ground (arith, made)

  -- The two sides of a handshake, whoever is to write next.
  abbrev pub Talked :
      HandshakeState R C H D
      → HandshakeState R C H D
      → HandshakeState R C H D
      → HandshakeState R C H D
      → Type 0
  Talked i r x y = Talk i r x y ⊎ Talk i r y x

by_role :
    {C : Type 0} (t u t' u' : TransportState C)
    → t.initiator ≡ true
    → t' ≡ t
    → u' ≡ u
    → IsFresh t' u' ⊎ IsFresh u' t'
    → IsFresh t u
by_role t u t' u' role same same' (inl fresh) = rw (sym same, sym same') fresh
by_role t u t' u' role same same' (inr fresh) =
    absurd (ground (arith, role, same, fresh.second_role))

swapped : {A B : Type 0} → A ⊎ B → B ⊎ A
swapped (inl a) = inr a
swapped (inr b) = inl b

module _ {R C H D : Type 0} ⦃cipher_ops : Cipher C⦄ ⦃hash_ops : Hash H⦄ ⦃ops : Dh R D⦄
    ⦃laws : DhLaws R D⦄ ⦃cipher_laws : CipherLaws C⦄ where
  converted-IsFresh :
      (i r : Builder R C H D) {hs hs' x y : HandshakeState R C H D} {t u : TransportState C}
      → IsMatching i r
      → build i true ≡ ok hs
      → build r false ≡ ok hs'
      → Talked hs hs' x y
      → into_transport_mode x ≡ ok t
      → into_transport_mode y ≡ ok u
      → t.initiator ≡ true
      → IsFresh t u
  converted-IsFresh i r {hs} {hs'} {x} {y} {t} {u} match made made' (inl talk) at at' role =
      let (t', u', ot, ou, fresh, _, _) =
        Talk-then-IsFresh {a = x} {b = y} (build-IsReady i r match made made') talk
          (converted-finished x at) in
      by_role t u t' u' role (cc (ot, at)) (cc (ou, at')) fresh
  converted-IsFresh i r {hs} {hs'} {x} {y} {t} {u} match made made' (inr talk) at at' role =
      let (u', t', ou, ot, fresh, _, _) =
        Talk-then-IsFresh {a = y} {b = x} (build-IsReady i r match made made') talk
          (converted-finished y at') in
      by_role t u t' u' role (cc (ot, at)) (cc (ou, at')) (swapped fresh)

  -- Under the laws of cipher and Diffie-Hellman function: from the two states that matching builders
  -- built for the initiator and the responder, after any number of handshake messages written by turns
  -- and handed over, once both sides have converted into a transport state, and after any interleaving
  -- of transport calls that return, over queues that keep the order: what each side got is a prefix of
  -- what the other sent, and the rest is in flight, message by message.
  pub built-delivery :
      (i r : Builder R C H D) {hs hs' x y : HandshakeState R C H D} {t u : TransportState C}
      {s : Session C}
      → IsMatching i r
      → build i true ≡ ok hs
      → build r false ≡ ok hs'
      → Talked hs hs' x y
      → into_transport_mode x ≡ ok t
      → into_transport_mode y ≡ ok u
      → t.initiator ≡ true
      → Reach (opened t u) s
      → (down up : List Bytes) × (s.initiator_sent ≡ s.responder_got ++ down)
        × (length s.to_responder ≡ length down)
        × (s.responder_sent ≡ s.initiator_got ++ up)
        × (length s.to_initiator ≡ length up)
  built-delivery i r match made made' talked at at' role reached =
      delivery (converted-IsFresh i r match made made' talked at at' role) reached
