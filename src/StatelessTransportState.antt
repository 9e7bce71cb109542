-- ===== src/StatelessTransportState.antt =====
-- src/stateless_transportstate.rs: the transport phase where the caller gives the nonce of each
-- message. `write_message` and `read_message` take `&self`: their state is the buffer `message`.
use screech.Base.{
  ℕ, ◌+◌, Bool, Option, none, some, Bytes, length, ltb, not, ◌&&◌, ◌||◌, if◌then◌else◌,
}
use screech.Constants.{taglen, maxmsglen}
use screech.Error.{state, input, decrypt, one_way, handshake_not_finished}
use screech.Exec.{Exec, Call, Lens, pure, gets, require, map_err, on, ◌>>=◌, ◌>>◌}
use screech.Outcome.{Result, Outcome, ok, err, slice_to}
use screech.Toggle.{Toggle, get}
use screech.Types.{Cipher, Hash, Dh}
use screech.Params.Pattern.{HandshakePattern, is_oneway}
use screech.CipherState.Stateless
use screech.CipherState.Stateless.{StatelessCipherStates}
use screech.HandshakeState.{HandshakeState, is_handshake_finished, dh_len}

pub record StatelessTransportState (C : Type 0) : Type 0 where
  pub cipherstates : StatelessCipherStates C
  pub pattern : HandshakePattern
  pub dh_len : ℕ
  pub rs : Toggle Bytes
  pub initiator : Bool

-- `StatelessTransportState::new`, which `into_stateless_transport_mode` and `try_from` call
unfoldable pub into_stateless_transport_mode :
    {R C H D : Type 0} ⦃cipher_ops : Cipher C⦄ ⦃hash_ops : Hash H⦄ ⦃ops : Dh R D⦄
    → HandshakeState R C H D
    → Outcome (StatelessTransportState C)
into_stateless_transport_mode handshake =
    if not (is_handshake_finished handshake)
    then err (state handshake_not_finished)
    else ok (record {
      cipherstates = Stateless.from_states handshake.cipherstates;
      pattern = handshake.params.handshake.pattern;
      dh_len = dh_len handshake;
      rs = handshake.rs;
      initiator = handshake.initiator;
    })

module _ {C : Type 0} where
  abbrev pub the_cipherstates : Lens (StatelessTransportState C) (StatelessCipherStates C)
  the_cipherstates = record {
    get = λ t. t.cipherstates;
    put = λ c t. record t { cipherstates = c };
  }

  unfoldable pub get_remote_static : StatelessTransportState C → Option (Result ⊥ Bytes)
  get_remote_static self = elim (get self.rs) [
    | none ↦ none
    | some rs ↦ some (slice_to self.dh_len rs)
  ]

  abbrev pub is_initiator : StatelessTransportState C → Bool
  is_initiator self = self.initiator

module _ {C : Type 0} ⦃ops : Cipher C⦄ where
  unfoldable pub write_message : StatelessTransportState C → ℕ → Bytes → Exec Bytes ℕ
  write_message self nonce payload = do
    message ← gets (λ s. s)
    require (not (not self.initiator && is_oneway self.pattern)) (state one_way)
    require
        (not (
          ltb maxmsglen (length payload + taglen)
          || ltb (length message) (length payload + taglen)))
        input
    Stateless.encrypt
        (if self.initiator then self.cipherstates.initiator else self.cipherstates.responder) nonce
        payload

  unfoldable pub read_message : StatelessTransportState C → ℕ → Bytes → Exec Bytes ℕ
  read_message self nonce payload = do
    require (not (self.initiator && is_oneway self.pattern)) (state one_way)
    map_err decrypt (
        Stateless.decrypt
          (if self.initiator then self.cipherstates.responder else self.cipherstates.initiator)
          nonce payload)

  unfoldable pub rekey_outgoing : Call (StatelessTransportState C) (Unit {0})
  rekey_outgoing = do
    self ← gets (λ t. t)
    on the_cipherstates
        (if self.initiator then Stateless.rekey_initiator else Stateless.rekey_responder)

  unfoldable pub rekey_incoming : Call (StatelessTransportState C) (Unit {0})
  rekey_incoming = do
    self ← gets (λ t. t)
    on the_cipherstates
        (if self.initiator then Stateless.rekey_responder else Stateless.rekey_initiator)

  unfoldable pub rekey_initiator_manually : Bytes → Call (StatelessTransportState C) (Unit {0})
  rekey_initiator_manually key = on the_cipherstates (Stateless.rekey_initiator_manually key)

  unfoldable pub rekey_responder_manually : Bytes → Call (StatelessTransportState C) (Unit {0})
  rekey_responder_manually key = on the_cipherstates (Stateless.rekey_responder_manually key)

  abbrev if_some :
      Option Bytes
      → (Bytes → Call (StatelessTransportState C) (Unit {0}))
      → Call (StatelessTransportState C) (Unit {0})
  if_some none f = pure tt
  if_some (some key) f = f key

  unfoldable pub rekey_manually :
      Option Bytes → Option Bytes → Call (StatelessTransportState C) (Unit {0})
  unfolding rekey_initiator_manually rekey_responder_manually
  rekey_manually initiator responder = do
    if_some initiator rekey_initiator_manually
    if_some responder rekey_responder_manually
