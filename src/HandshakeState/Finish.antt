-- ===== src/HandshakeState/Finish.antt =====
-- The end of a handshake (src/handshakestate.rs): how many calls it takes, and what calls behind the
-- last message do.
use screech.Base.{ℕ, ◌+◌, ◌≡◌, Bool, true, false, Bytes, length, ltb, if◌then◌else◌, arith}
use screech.Constants.{maxmsglen}
use screech.Error.{state, input, not_turn_to_write, not_turn_to_read, handshake_already_finished}
use screech.Outcome.{Outcome, ok, err, panic}
use screech.Types.{Cipher, Hash, Dh}
use screech.HandshakeState.{HandshakeState, is_handshake_finished}
use screech.HandshakeState.Write.{write_message_inner, write_message}
use screech.HandshakeState.Read.{read_message_inner, read_message}
use screech.HandshakeState.Turns.{
  Turned, Step, writes, reads, Reach, here, next, write_message-Turned, read_message-Turned,
  past_end,
}

abbrev pub is_ok {ℓ} : {A : Type ℓ} → Outcome A → Bool
is_ok (ok a) = true
is_ok (err e) = false
is_ok panic = false

abbrev one_if_ok : Outcome ℕ → ℕ
one_if_ok (ok n) = 1
one_if_ok (err e) = 0
one_if_ok panic = 0

module _ {R C H D : Type 0} where
  Turned-moves :
      (mine : Bool) (a : HandshakeState R C H D) (r : Outcome ℕ) (b : HandshakeState R C H D)
      → Turned mine a r b
      → (b.pattern_position ≡ a.pattern_position + one_if_ok r)
        × (b.message_patterns ≡ a.message_patterns)
  Turned-moves mine a (ok n) b t = ground arith
  Turned-moves mine a (err e) b t = ground arith
  Turned-moves mine a panic b t = ground arith

module _ {R C H D : Type 0} ⦃cipher_ops : Cipher C⦄ ⦃hash_ops : Hash H⦄ ⦃ops : Dh R D⦄ where
  step_returned : {a b : HandshakeState R C H D} → Step a b → ℕ
  step_returned (writes hs payload out r after e _) = one_if_ok r
  step_returned (reads hs message out r after e _) = one_if_ok r

  -- How many of the calls returned.
  pub returned : {a b : HandshakeState R C H D} → Reach a b → ℕ
  unfolding step_returned
  returned here = 0
  returned (next r st) = returned r + step_returned st

  Step-moves :
      {a b : HandshakeState R C H D} (st : Step a b)
      → (b.pattern_position ≡ a.pattern_position + step_returned st)
        × (b.message_patterns ≡ a.message_patterns)
  unfolding step_returned
  Step-moves (writes hs payload out r after e _) =
      Turned-moves true hs r after.0 (rw e at (write_message-Turned payload hs out))
  Step-moves (reads hs message out r after e _) =
      Turned-moves false hs r after.0 (rw e at (read_message-Turned message hs out))

  pub Reach-moves :
      {a b : HandshakeState R C H D} (r : Reach a b)
      → (b.pattern_position ≡ a.pattern_position + returned r)
        × (b.message_patterns ≡ a.message_patterns)
  unfolding returned
  Reach-moves here = ground arith
  Reach-moves (next r st) = ground (arith, Reach-moves r, Step-moves st)

  -- Behind the last message, every call of `write_message` and `read_message` is an error that leaves
  -- the handshake state and the buffer as they were: out of turn where it is not the side's turn to
  -- write or to read, a message above the maximal length for `read_message`, and otherwise that the
  -- handshake is finished.
  pub finished_refuses :
      (hs : HandshakeState R C H D) (payload message out : Bytes)
      → is_handshake_finished hs ≡ true
      → (write_message payload (hs, out) ≡ (
        err (state (if hs.my_turn then handshake_already_finished else not_turn_to_write)),
        (hs, out),
      ))
        × (read_message message (hs, out) ≡ (
          err (
              if ltb maxmsglen (length message)
              then input
              else state (if hs.my_turn then not_turn_to_read else handshake_already_finished)),
          (hs, out),
        ))
  unfolding write_message write_message_inner read_message read_message_inner
  finished_refuses hs payload message out finished =
      let none_left = past_end hs.message_patterns hs.pattern_position (ground arith) in
      (ground (arith, none_left), ground (arith, none_left))
