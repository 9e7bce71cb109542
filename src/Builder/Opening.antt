-- ===== src/Builder/Opening.antt =====
-- When a handshake from `Builder::build` (src/builder.rs) can become a transport state
-- (src/transportstate.rs, src/stateless_transportstate.rs).
use screech.Base.{◌≡◌, Bool, length, ◌==◌, arith}
use screech.Outcome.{ok}
use screech.Types.{Cipher, Hash, Dh}
use screech.Params.Table.{base_patterns}
use screech.HandshakeState.{HandshakeState}
use screech.HandshakeState.Turns.{Reach}
use screech.HandshakeState.Finish.{is_ok, returned, Reach-moves}
use screech.TransportState.{into_transport_mode}
use screech.StatelessTransportState.{into_stateless_transport_mode}
use screech.Builder.{Builder, build}
use screech.Builder.Prerequisites.{build-IfOk}

module _ {R C H D : Type 0} ⦃cipher_ops : Cipher C⦄ ⦃hash_ops : Hash H⦄ ⦃ops : Dh R D⦄ where
  -- From a handshake state that `build` returns, after any sequence of calls of `write_message` and
  -- `read_message` that do not panic, failed ones included: both conversions into a transport state
  -- succeed exactly when as many of these calls have returned as the pattern has messages.
  pub conversion-returned :
      (b : Builder R C H D) (initiator : Bool) {hs later : HandshakeState R C H D}
      → build b initiator ≡ ok hs
      → (r : Reach hs later)
      → let finished = returned r == length (base_patterns b.params.handshake.pattern).2 in
        (is_ok (into_transport_mode later) ≡ finished)
        × (is_ok (into_stateless_transport_mode later) ≡ finished)
  unfolding into_transport_mode into_stateless_transport_mode
  conversion-returned b initiator {hs} {later} made r =
      let built = (build-IfOk b initiator).at hs made in
      let (position, patterns) = Reach-moves r in
      (
        ground (arith, position, patterns, built.unstarted, built.message_count),
        ground (arith, position, patterns, built.unstarted, built.message_count),
      )
