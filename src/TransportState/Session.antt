-- ===== src/TransportState/Session.antt =====
-- A transport session (src/transportstate.rs): both sides, and a queue in each direction that keeps
-- the order of the messages. Any interleaving of calls that return is a sequence of steps.
use screech.Base.{
  ℕ, ◌≡◌, refl, ap, ◌∙◌, true, false, List, [], ◌∷◌, ◌++◌, Bytes, length, take, arith,
}
use screech.Outcome.{ok}
use screech.Types.{Cipher}
use screech.Types.Laws.{CipherLaws}
use screech.TransportState.{TransportState, write_message, read_message}
use screech.TransportState.Messages.{sender, receiver}
use screech.TransportState.Channel.{IsLinked, seals, length-seals}
use screech.TransportState.Links.{write_links, write_keeps_receiver, read_links}

pub record Session (C : Type 0) : Type 0 where
  pub initiator : TransportState C
  pub responder : TransportState C
  pub to_responder : List Bytes
  pub to_initiator : List Bytes
  -- what the applications handed to `write_message`, and what `read_message` gave them
  pub initiator_sent : List Bytes
  pub responder_got : List Bytes
  pub responder_sent : List Bytes
  pub initiator_got : List Bytes

module _ {C : Type 0} ⦃ops : Cipher C⦄ where
  pub data Step : Session C → Session C → Type 0 where
    initiator_writes :
        (s : Session C) (payload out : Bytes) (n : ℕ) (t : TransportState C) (out' : Bytes)
        → write_message payload (s.initiator, out) ≡ (ok n, (t, out'))
        → Step s (record s {
          initiator = t;
          to_responder = s.to_responder ++ take n out' ∷ [];
          initiator_sent = s.initiator_sent ++ payload ∷ [];
        })
    responder_reads :
        (s : Session C) (m : Bytes) (rest : List Bytes) (out : Bytes) (n : ℕ) (t : TransportState C)
        (out' : Bytes)
        → s.to_responder ≡ m ∷ rest
        → read_message m (s.responder, out) ≡ (ok n, (t, out'))
        → Step s (record s {
          responder = t;
          to_responder = rest;
          responder_got = s.responder_got ++ take n out' ∷ [];
        })
    responder_writes :
        (s : Session C) (payload out : Bytes) (n : ℕ) (t : TransportState C) (out' : Bytes)
        → write_message payload (s.responder, out) ≡ (ok n, (t, out'))
        → Step s (record s {
          responder = t;
          to_initiator = s.to_initiator ++ take n out' ∷ [];
          responder_sent = s.responder_sent ++ payload ∷ [];
        })
    initiator_reads :
        (s : Session C) (m : Bytes) (rest : List Bytes) (out : Bytes) (n : ℕ) (t : TransportState C)
        (out' : Bytes)
        → s.to_initiator ≡ m ∷ rest
        → read_message m (s.initiator, out) ≡ (ok n, (t, out'))
        → Step s (record s {
          initiator = t;
          to_initiator = rest;
          initiator_got = s.initiator_got ++ take n out' ∷ [];
        })

  pub data Reach (s : Session C) : Session C → Type 0 where
    here : Reach s s
    next : {t u : Session C} → Reach s t → Step t u → Reach s u

module _ {C : Type 0} ⦃ops : Cipher C⦄ ⦃laws : CipherLaws C⦄ where
  pub record IsPaired (s : Session C) : Type 0 where
    pub down_pending : List Bytes
    pub up_pending : List Bytes
    pub down :
        IsLinked
          (sender s.initiator)
          (receiver s.responder)
          s.to_responder
          s.initiator_sent
          s.responder_got
          down_pending
    pub up :
        IsLinked
          (sender s.responder)
          (receiver s.initiator)
          s.to_initiator
          s.responder_sent
          s.initiator_got
          up_pending

  Step-IsPaired : {s t : Session C} → Step s t → IsPaired s → IsPaired t
  Step-IsPaired (initiator_writes s payload out n t out' wrote) h = record {
    down_pending = h.down_pending ++ payload ∷ [];
    up_pending = h.up_pending;
    down = write_links s.initiator payload out wrote h.down;
    up = rw (write_keeps_receiver s.initiator payload out h.down.tx_keyed wrote) h.up;
  }
  Step-IsPaired (responder_reads s m rest out n t out' front read) h =
      let (left, down, same) = read_links s.responder m out rest h.down_pending front read h.down in
      record { down_pending = left; up_pending = h.up_pending; down = down; up = rw same h.up }
  Step-IsPaired (responder_writes s payload out n t out' wrote) h = record {
    down_pending = h.down_pending;
    up_pending = h.up_pending ++ payload ∷ [];
    down = rw (write_keeps_receiver s.responder payload out h.up.tx_keyed wrote) h.down;
    up = write_links s.responder payload out wrote h.up;
  }
  Step-IsPaired (initiator_reads s m rest out n t out' front read) h =
      let (left, up, same) = read_links s.initiator m out rest h.up_pending front read h.up in
      record { down_pending = h.down_pending; up_pending = left; down = rw same h.down; up = up }

  pub Reach-IsPaired : {s t : Session C} → IsPaired s → Reach s t → IsPaired t
  Reach-IsPaired h here = h
  Reach-IsPaired h (next r st) = Step-IsPaired st (Reach-IsPaired h r)

-- Two sides as they come out of one handshake: of opposite roles, with the same keys and nonces.
pub record IsFresh {C : Type 0} (t u : TransportState C) : Type 0 where
  pub first_role : t.initiator ≡ true
  pub second_role : u.initiator ≡ false
  pub same : t.cipherstates ≡ u.cipherstates
  pub down_keyed : t.cipherstates.initiator.has_key ≡ true
  pub up_keyed : t.cipherstates.responder.has_key ≡ true

abbrev pub opened : {C : Type 0} → TransportState C → TransportState C → Session C
opened t u = record {
  initiator = t;
  responder = u;
  to_responder = [];
  to_initiator = [];
  initiator_sent = [];
  responder_got = [];
  responder_sent = [];
  initiator_got = [];
}

module _ {C : Type 0} ⦃ops : Cipher C⦄ ⦃laws : CipherLaws C⦄ where
  pub opened-IsPaired : {t u : TransportState C} → IsFresh t u → IsPaired (opened t u)
  unfolding seals
  opened-IsPaired {t} {u} h = record {
    down_pending = [];
    up_pending = [];
    down = record {
      same_key = ground (arith, h.first_role, h.second_role, h.same);
      tx_keyed = ground (arith, h.first_role, h.down_keyed);
      rx_keyed = ground (arith, h.second_role, h.same, h.down_keyed);
      nonces = ground (arith, h.first_role, h.second_role, h.same);
      in_flight = refl;
      accounts = refl;
    };
    up = record {
      same_key = ground (arith, h.first_role, h.second_role, h.same);
      tx_keyed = ground (arith, h.second_role, h.same, h.up_keyed);
      rx_keyed = ground (arith, h.first_role, h.up_keyed);
      nonces = ground (arith, h.first_role, h.second_role, h.same);
      in_flight = refl;
      accounts = refl;
    };
  }

  -- From two sides with the same keys and nonces, of opposite roles, after any interleaving of calls
  -- that return, over queues that keep the order: what each side got is a prefix of what the other
  -- sent, and the rest is in flight, message by message.
  pub delivery :
      {t u : TransportState C} {s : Session C}
      → IsFresh t u
      → Reach (opened t u) s
      → (down up : List Bytes) × (s.initiator_sent ≡ s.responder_got ++ down)
        × (length s.to_responder ≡ length down)
        × (s.responder_sent ≡ s.initiator_got ++ up)
        × (length s.to_initiator ≡ length up)
  delivery fresh r =
      let h = Reach-IsPaired (opened-IsPaired fresh) r in
      (
        h.down_pending,
        h.up_pending,
        h.down.accounts,
        ap length h.down.in_flight ∙ length-seals _ _ h.down_pending,
        h.up.accounts,
        ap length h.up.in_flight ∙ length-seals _ _ h.up_pending,
      )
