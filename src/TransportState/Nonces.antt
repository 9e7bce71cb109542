-- ===== src/TransportState/Nonces.antt =====
-- The nonces and keys of a transport state (src/transportstate.rs): the stateless transport state at
-- the nonce that is kept, and the new keys of both sides.
use screech.Base.{ℕ, ◌≡◌, Bool, not, ◌&&◌, Bytes, if◌then◌else◌, arith}
use screech.Outcome.{Result}
use screech.Params.Pattern.{is_oneway}
use screech.Types.{Cipher}
use screech.CipherState
use screech.CipherState.{CipherState}
use screech.CipherState.Nonces.{counted, counted_if_ok, kept, accepts}
use screech.CipherState.Stateless
use screech.TransportState.{
  TransportState, sending_nonce, receiving_nonce, write_message, read_message, rekey_outgoing,
  rekey_incoming,
}
use screech.TransportState.Messages.{sender, receiver, with_sender, with_receiver}
use screech.StatelessTransportState
use screech.StatelessTransportState.{StatelessTransportState}

-- The stateless transport state that a handshake gives in place of this one.
abbrev pub stateless : {C : Type 0} → TransportState C → StatelessTransportState C
stateless t = record {
  cipherstates = Stateless.from_states t.cipherstates;
  pattern = t.pattern;
  dh_len = t.dh_len;
  rs = t.rs;
  initiator = t.initiator;
}

module _ {C E : Type 0} where
  abbrev pub on_sender :
      TransportState C
      → Result E ℕ × (CipherState C × Bytes)
      → Result E ℕ × (TransportState C × Bytes)
  on_sender t (r, (c, out)) = (r, (with_sender t c, out))

  abbrev pub on_receiver :
      TransportState C
      → Result E ℕ × (CipherState C × Bytes)
      → Result E ℕ × (TransportState C × Bytes)
  on_receiver t (r, (c, out)) = (r, (with_receiver t c, out))

-- The test of `read_message` before the cipher is called.
abbrev pub read_accepts : {C : Type 0} → TransportState C → Bytes → Bytes → Bool
read_accepts t m out = not (t.initiator && is_oneway t.pattern) && accepts (receiver t) m out

module _ {C : Type 0} ⦃ops : Cipher C⦄ where
  -- For every transport state, payload and buffer, `write_message` is that of the stateless transport
  -- state at the sending nonce; a call that returns counts this nonce up, and panics at the last one.
  -- `read_message` is that of the stateless one at the receiving nonce, which is counted up once the
  -- cipher was called, whatever it answered, with a panic at the last nonce.
  pub TransportState-refines :
      (t : TransportState C) (text out : Bytes)
      → (write_message text (t, out)
          ≡ on_sender t (
              counted_if_ok
                (sender t)
                (StatelessTransportState.write_message (stateless t) (sending_nonce t) text out)))
        × (read_message text (t, out)
            ≡ on_receiver t (
                (if read_accepts t text out then counted (receiver t) else kept (receiver t)) (
                  StatelessTransportState.read_message (stateless t) (receiving_nonce t) text out)))
  unfolding write_message read_message sending_nonce receiving_nonce
      StatelessTransportState.write_message StatelessTransportState.read_message CipherState.encrypt
      CipherState.decrypt Stateless.encrypt Stateless.decrypt
  TransportState-refines t text out = (ground arith, ground arith)

  -- Two sides of opposite roles with the same cipher states still have the same ones after one has
  -- rekeyed what it sends and the other what it receives, in either direction, and both calls end in
  -- the same way.
  pub rekey_keeps_pair :
      (t u : TransportState C)
      → t.initiator ≡ not u.initiator
      → t.cipherstates ≡ u.cipherstates
      → ((rekey_outgoing t).0 ≡ (rekey_incoming u).0)
        × ((rekey_outgoing t).1.cipherstates ≡ (rekey_incoming u).1.cipherstates)
  unfolding rekey_outgoing rekey_incoming
  rekey_keeps_pair t u roles same = ground (arith, roles, same)
