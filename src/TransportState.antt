-- ===== src/TransportState.antt =====
-- src/transportstate.rs: the transport phase, with a nonce in each cipher state. A method on
-- `&mut self` and the buffer `message` has the state `TransportState C × Bytes`.
pub mod Messages
pub mod Channel
pub mod Links
pub mod Session
pub mod Progress
pub mod Recovery
pub mod Nonces
pub mod Opening
use screech.Base.{
  ℕ, ◌+◌, Bool, Option, none, some, Bytes, length, ltb, leb, not, ◌&&◌, ◌||◌, if◌then◌else◌,
}
use screech.Constants.{taglen, maxmsglen}
use screech.Error.{state, input, decrypt, one_way, handshake_not_finished}
use screech.Exec.{Exec, Call, Lens, pure, gets, require, map_err, on, ◌>>=◌, ◌>>◌}
use screech.Outcome.{Result, Outcome, ok, err, slice_to}
use screech.Toggle.{Toggle, get}
use screech.Types.{Cipher, Hash, Dh}
use screech.Params.Pattern.{HandshakePattern, is_oneway}
use screech.CipherState
use screech.CipherState.{CipherState, CipherStates, of_initiator, of_responder}
use screech.HandshakeState.{HandshakeState, is_handshake_finished, dh_len}

pub record TransportState (C : Type 0) : Type 0 where
  pub cipherstates : CipherStates C
  pub pattern : HandshakePattern
  pub dh_len : ℕ
  pub rs : Toggle Bytes
  pub initiator : Bool

-- `TransportState::new`, which `into_transport_mode` and `try_from` call
unfoldable pub into_transport_mode :
    {R C H D : Type 0} ⦃cipher_ops : Cipher C⦄ ⦃hash_ops : Hash H⦄ ⦃ops : Dh R D⦄
    → HandshakeState R C H D
    → Outcome (TransportState C)
into_transport_mode handshake =
    if not (is_handshake_finished handshake)
    then err (state handshake_not_finished)
    else ok (record {
      cipherstates = handshake.cipherstates;
      pattern = handshake.params.handshake.pattern;
      dh_len = dh_len handshake;
      rs = handshake.rs;
      initiator = handshake.initiator;
    })

module _ {C : Type 0} where
  abbrev pub the_cipherstates : Lens (TransportState C) (CipherStates C)
  the_cipherstates = record {
    get = λ t. t.cipherstates;
    put = λ c t. record t { cipherstates = c };
  }

  -- The cipher state for what this side sends, and that for what it receives.
  abbrev pub egress : Bool → Lens (CipherStates C) (CipherState C)
  egress initiator = if initiator then of_initiator else of_responder

  abbrev pub ingress : Bool → Lens (CipherStates C) (CipherState C)
  ingress initiator = if initiator then of_responder else of_initiator

  -- A cipher state of the pair, and the buffer.
  abbrev pub cipher_and_out :
      Lens (CipherStates C) (CipherState C)
      → Lens (TransportState C × Bytes) (CipherState C × Bytes)
  cipher_and_out l = record {
    get = λ s. (l.get s.0.cipherstates, s.1);
    put = λ t s. (record s.0 { cipherstates = l.put t.0 s.0.cipherstates }, t.1);
  }

  unfoldable pub get_remote_static : TransportState C → Option (Result ⊥ Bytes)
  get_remote_static self = elim (get self.rs) [
    | none ↦ none
    | some rs ↦ some (slice_to self.dh_len rs)
  ]

  unfoldable pub set_receiving_nonce : ℕ → Call (TransportState C) (Unit {0})
  set_receiving_nonce nonce self =
      let l = ingress self.initiator in
      (
        ok tt,
        record self {
          cipherstates =
              l.put (CipherState.set_nonce nonce (l.get self.cipherstates)) self.cipherstates;
        },
      )

  unfoldable pub receiving_nonce : TransportState C → ℕ
  receiving_nonce self =
      if self.initiator
      then CipherState.nonce self.cipherstates.responder
      else CipherState.nonce self.cipherstates.initiator

  unfoldable pub sending_nonce : TransportState C → ℕ
  sending_nonce self =
      if self.initiator
      then CipherState.nonce self.cipherstates.initiator
      else CipherState.nonce self.cipherstates.responder

  abbrev pub is_initiator : TransportState C → Bool
  is_initiator self = self.initiator

module _ {C : Type 0} ⦃ops : Cipher C⦄ where
  unfoldable pub write_message : Bytes → Exec (TransportState C × Bytes) ℕ
  write_message payload = do
    (self, message) ← gets (λ s. s)
    require (not (not self.initiator && is_oneway self.pattern)) (state one_way)
    require
        (not (
          ltb maxmsglen (length payload + taglen)
          || ltb (length message) (length payload + taglen)))
        input
    on (cipher_and_out (egress self.initiator)) (CipherState.encrypt payload)

  unfoldable pub read_message : Bytes → Exec (TransportState C × Bytes) ℕ
  read_message payload = do
    (self, message) ← gets (λ s. s)
    require (not (self.initiator && is_oneway self.pattern)) (state one_way)
    map_err decrypt (on (cipher_and_out (ingress self.initiator)) (CipherState.decrypt payload))

  unfoldable pub rekey_outgoing : Call (TransportState C) (Unit {0})
  rekey_outgoing = do
    self ← gets (λ t. t)
    on the_cipherstates
        (if self.initiator then CipherState.rekey_initiator else CipherState.rekey_responder)

  unfoldable pub rekey_incoming : Call (TransportState C) (Unit {0})
  rekey_incoming = do
    self ← gets (λ t. t)
    on the_cipherstates
        (if self.initiator then CipherState.rekey_responder else CipherState.rekey_initiator)

  unfoldable pub rekey_initiator_manually : Bytes → Call (TransportState C) (Unit {0})
  rekey_initiator_manually key = on the_cipherstates (CipherState.rekey_initiator_manually key)

  unfoldable pub rekey_responder_manually : Bytes → Call (TransportState C) (Unit {0})
  rekey_responder_manually key = on the_cipherstates (CipherState.rekey_responder_manually key)

  abbrev if_some :
      Option Bytes
      → (Bytes → Call (TransportState C) (Unit {0}))
      → Call (TransportState C) (Unit {0})
  if_some none f = pure tt
  if_some (some key) f = f key

  unfoldable pub rekey_manually : Option Bytes → Option Bytes → Call (TransportState C) (Unit {0})
  unfolding rekey_initiator_manually rekey_responder_manually
  rekey_manually initiator responder = do
    if_some initiator rekey_initiator_manually
    if_some responder rekey_responder_manually
