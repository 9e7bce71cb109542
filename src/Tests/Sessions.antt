-- ===== src/Tests/Sessions.antt =====
-- The theorems on the transport phase at concrete inputs that meet their hypotheses.
use screech.Base.{
  ◌≡◌, refl, Bool, true, false, List, [], ◌∷◌, ◌++◌, Bytes, codes, replicate, length, take, drop,
  if◌then◌else◌, arith,
}
use screech.Outcome.{ok}
use screech.Toggle.{toggle_off}
use screech.Params.Pattern.{xx}
use screech.CipherState
use screech.CipherState.{CipherState, CipherStates, next_nonce, new_states}
use screech.CipherState.Nonces.{counted, counted_if_ok, kept}
use screech.CipherState.Seal.{advanced}
use screech.TransportState.Progress.{progress}
use screech.TransportState.Recovery.{disturbed, recovers}
use screech.TransportState
use screech.TransportState.{TransportState, rekey_outgoing, rekey_incoming}
use screech.TransportState.Messages.{with_sender, with_receiver}
use screech.TransportState.Nonces.{
  stateless, on_sender, on_receiver, read_accepts, TransportState-refines, rekey_keeps_pair,
}
use screech.TransportState.Session
use screech.TransportState.Session.{
  Session, IsFresh, opened, delivery, initiator_writes, responder_reads,
}
use screech.StatelessTransportState
use screech.Tests.Toy.{Key, toy_cipher, toy_hash, toy_dh, toy_cipher_laws, toy_hash_laws}
use screech.Tests.Witnesses.{keyed_state}

abbrev side : Bool → TransportState Key
side initiator = record {
  cipherstates = record { initiator = keyed_state 0; responder = keyed_state 0 };
  pattern = xx;
  dh_len = 32;
  rs = toggle_off (replicate 56 0);
  initiator = initiator;
}

sides-IsFresh : IsFresh (side true) (side false)
sides-IsFresh = record {
  first_role = refl;
  second_role = refl;
  same = refl;
  down_keyed = refl;
  up_keyed = refl;
}

TransportState-refines_example :
    (TransportState.write_message (codes "hi") (side true, replicate 20 0)
      ≡ on_sender (side true) (
          counted_if_ok (keyed_state 0) (
            StatelessTransportState.write_message
              (stateless (side true))
              (TransportState.sending_nonce (side true))
              (codes "hi")
              (replicate 20 0))))
    × (TransportState.read_message (codes "hi") (side true, replicate 20 0)
        ≡ on_receiver (side true) (
            (if read_accepts (side true) (codes "hi") (replicate 20 0)
                then counted (keyed_state 0)
                else kept (keyed_state 0))
              (StatelessTransportState.read_message
                (stateless (side true))
                (TransportState.receiving_nonce (side true))
                (codes "hi")
                (replicate 20 0))))
TransportState-refines_example = TransportState-refines (side true) (codes "hi") (replicate 20 0)

rekey_keeps_pair_example :
    ((rekey_outgoing (side true)).0 ≡ (rekey_incoming (side false)).0)
    × ((rekey_outgoing (side true)).1.cipherstates ≡ (rekey_incoming (side false)).1.cipherstates)
rekey_keeps_pair_example = rekey_keeps_pair (side true) (side false) refl refl

-- One message from the initiator, written and read.
abbrev written : TransportState Key
written = with_sender (side true) (advanced (keyed_state 0))

abbrev sealed : Bytes
sealed = codes "hi" ++ replicate 16 0

abbrev read_by : TransportState Key
read_by = with_receiver (side false) (advanced (keyed_state 0))

abbrev exchanged : Session Key
exchanged = record {
  initiator = written;
  responder = read_by;
  to_responder = [];
  to_initiator = [];
  initiator_sent = codes "hi" ∷ [];
  responder_got = codes "hi" ∷ [];
  responder_sent = [];
  initiator_got = [];
}

one_way_trip : Session.Reach (opened (side true) (side false)) exchanged
unfolding TransportState.write_message TransportState.read_message CipherState.encrypt
    CipherState.decrypt CipherState.encrypt_ad CipherState.decrypt_ad
one_way_trip =
    Session.next
      (Session.next Session.here (
        initiator_writes (opened (side true) (side false)) (codes "hi") (replicate 18 0) 18 written
          sealed refl))
      (responder_reads _ sealed [] (replicate 18 0) 2 read_by (codes "hi" ++ replicate 16 0) refl
        refl)

delivery_example :
    (down up : List Bytes) × (codes "hi" ∷ [] ≡ codes "hi" ∷ [] ++ down)
    × (length exchanged.to_responder ≡ length down)
    × (exchanged.responder_sent ≡ exchanged.initiator_got ++ up)
    × (length exchanged.to_initiator ≡ length up)
delivery_example = delivery sides-IsFresh one_way_trip

-- One message in flight.
abbrev in_flight : Session Key
in_flight = record {
  initiator = written;
  responder = side false;
  to_responder = sealed ∷ [];
  to_initiator = [];
  initiator_sent = codes "hi" ∷ [];
  responder_got = [];
  responder_sent = [];
  initiator_got = [];
}

one_write : Session.Reach (opened (side true) (side false)) in_flight
unfolding TransportState.write_message CipherState.encrypt CipherState.encrypt_ad
one_write = Session.next Session.here (
    initiator_writes (opened (side true) (side false)) (codes "hi") (replicate 18 0) 18 written
      sealed refl)

progress_example :
    (p : Bytes) × (left : List Bytes) × (codes "hi" ∷ [] ≡ [] ++ p ∷ left)
    × (TransportState.read_message sealed (side false, replicate 2 0) ≡ (
      ok (length p),
      (with_receiver (side false) (advanced (keyed_state 0)), p ++ drop (length p) (replicate 2 0)),
    ))
progress_example =
    progress sealed (replicate 2 0) sides-IsFresh one_write refl (omega arith) (omega arith)

abbrev junk : List (Bytes × Bytes)
junk = (replicate 17 9, replicate 20 0) ∷ ((sealed, replicate 2 0) ∷ [])

recovers_example :
    let (_, v) =
      TransportState.set_receiving_nonce
        (TransportState.receiving_nonce (side false))
        (disturbed junk (side false)) in
    (v ≡ side false)
    × ((p : Bytes) × (left : List Bytes) × (codes "hi" ∷ [] ≡ [] ++ p ∷ left)
        × ((TransportState.read_message sealed (v, replicate 2 0)).0 ≡ ok (length p))
        × (take (length p) (TransportState.read_message sealed (v, replicate 2 0)).1.1 ≡ p))
recovers_example =
    recovers sealed (replicate 2 0) junk sides-IsFresh one_write refl (omega arith) (omega arith)
