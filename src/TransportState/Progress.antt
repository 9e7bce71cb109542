-- ===== src/TransportState/Progress.antt =====
-- What is in flight in a session of src/transportstate.rs can be read.
use screech.Base.{
  ◌+◌, ◌≤◌, ◌<◌, ◌≡◌, refl, ap, ◌∙◌, false, ◌&&◌, List, [], ◌∷◌, ◌++◌, Bytes, length, arith,
}
use screech.Constants.{taglen}
use screech.Outcome.{ok}
use screech.Params.Pattern.{is_oneway}
use screech.Types.{Cipher, u64_max}
use screech.Types.Laws.{CipherLaws}
use screech.CipherState.{CipherState}
use screech.CipherState.Seal.{advanced}
use screech.TransportState.{TransportState, write_message, read_message}
use screech.TransportState.Messages.{receiver, with_receiver, read_message_ok}
use screech.TransportState.Channel.{IsLinked, seals}
use screech.TransportState.Session.{
  Session, Step, initiator_writes, responder_reads, responder_writes, initiator_reads, Reach, here,
  next, IsFresh, opened, opened-IsPaired, Reach-IsPaired,
}

module _ {C : Type 0} ⦃ops : Cipher C⦄ where
  write_keeps_role :
      (payload : Bytes) (t : TransportState C) (out : Bytes)
      → (write_message payload (t, out)).1.0.initiator ≡ t.initiator
  unfolding write_message
  write_keeps_role payload t out = ground arith

  read_keeps_role :
      (payload : Bytes) (t : TransportState C) (out : Bytes)
      → (read_message payload (t, out)).1.0.initiator ≡ t.initiator
  unfolding read_message
  read_keeps_role payload t out = ground arith

  -- The roles that a session started with.
  Step-keeps_role : {s t : Session C} → Step s t → t.responder.initiator ≡ s.responder.initiator
  Step-keeps_role (initiator_writes s payload out n t out' wrote) = refl
  Step-keeps_role (responder_reads s m rest out n t out' front read) =
      cc (read_keeps_role m s.responder out, read)
  Step-keeps_role (responder_writes s payload out n t out' wrote) =
      cc (write_keeps_role payload s.responder out, wrote)
  Step-keeps_role (initiator_reads s m rest out n t out' front read) = refl

  Reach-keeps_role : {s t : Session C} → Reach s t → t.responder.initiator ≡ s.responder.initiator
  Reach-keeps_role here = refl
  Reach-keeps_role (next r st) = Step-keeps_role st ∙ Reach-keeps_role r

module _ {C : Type 0} ⦃ops : Cipher C⦄ ⦃laws : CipherLaws C⦄ where
  next_opens :
      (t : TransportState C) (m out : Bytes) {rest sent got : List Bytes} {tx : CipherState C}
      (pending : List Bytes)
      → IsLinked tx (receiver t) (m ∷ rest) sent got pending
      → (t.initiator && is_oneway t.pattern) ≡ false
      → (receiver t).n < u64_max
      → length m ≤ length out + taglen
      → (p : Bytes) × (left : List Bytes) × (sent ≡ got ++ p ∷ left)
        × (read_message m (t, out) ≡ (
          ok (length p),
          (
            with_receiver t (advanced (receiver t)),
            p ++ laws.behind (receiver t).cipher (receiver t).n [] p out,
          ),
        ))
  unfolding seals
  next_opens t m out [] h allowed room fits = cc h.in_flight
  next_opens t m out (p ∷ left) h allowed room fits =
      let same : m ≡ laws.seal (receiver t).cipher (receiver t).n [] p = cc h.in_flight in
      let size : length m ≡ length p + taglen =
        ap length same ∙ laws.length-seal (receiver t).cipher (receiver t).n [] p in
      (
        p,
        left,
        h.accounts,
        rw same (
            read_message_ok t p out (record { keyed = h.rx_keyed; room = room }) allowed
              (omega (arith, size, fits))),
      )

  -- From two sides with the same keys and nonces, of opposite roles, after any interleaving of calls
  -- that return, over queues that keep the order: into a buffer that holds the first message in
  -- flight to the responder without its tag, and at a nonce below the last one, `read_message` of
  -- that message returns, and gives the first payload that the initiator sent and the responder has
  -- not got yet.
  pub progress :
      {t u : TransportState C} {s : Session C} (m out : Bytes) {rest : List Bytes}
      → IsFresh t u
      → Reach (opened t u) s
      → s.to_responder ≡ m ∷ rest
      → (receiver s.responder).n < u64_max
      → length m ≤ length out + taglen
      → (p : Bytes) × (left : List Bytes) × (s.initiator_sent ≡ s.responder_got ++ p ∷ left)
        × (read_message m (s.responder, out) ≡ (
          ok (length p),
          (
            with_receiver s.responder (advanced (receiver s.responder)),
            p ++ laws.behind (receiver s.responder).cipher (receiver s.responder).n [] p out,
          ),
        ))
  progress {t} {u} {s} m out fresh r front room fits =
      let h = Reach-IsPaired (opened-IsPaired fresh) r in
      let role : s.responder.initiator ≡ false = Reach-keeps_role r ∙ fresh.second_role in
      next_opens s.responder m out h.down_pending (rw front at h.down) (ground (arith, role)) room
        fits
