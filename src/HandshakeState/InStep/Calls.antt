-- ===== src/HandshakeState/InStep/Calls.antt =====
-- A call of `write_message` of src/handshakestate.rs that returned taken apart, and one of
-- `read_message` put together.
use screech.Base.{
  ℕ, ◌≤◌, ◌≡◌, false, List, Bytes, length, inl, inr, some, Option-cases, get_elem?, arith,
}
use screech.Constants.{maxmsglen}
use screech.Exec.{◌>>=◌}
use screech.Outcome.{ok, Result-cases}
use screech.Types.{Cipher, Hash, Dh}
use screech.Params.Table.{Token}
use screech.HandshakeState.{HandshakeState}
use screech.HandshakeState.Write.{
  write_tokens, write_payload, write_message_inner, write_message, wrote,
}
use screech.HandshakeState.Read.{
  read_tokens, read_payload, read_message_inner, read_message, was_read,
}
use screech.HandshakeState.InStep.Payload.{is_last}

module _ {R C H D : Type 0} ⦃cipher_ops : Cipher C⦄ ⦃hash_ops : Hash H⦄ ⦃ops : Dh R D⦄ where
  pub write_message_inv :
      (payload : Bytes) (w : HandshakeState R C H D) (out : Bytes) {n : ℕ}
      {w' : HandshakeState R C H D} {out' : Bytes}
      → write_message payload (w, out) ≡ (ok n, (w', out'))
      → let (r, (w0, out0)) = write_message_inner payload (w, out) in
        (r ≡ ok n) × (w' ≡ wrote w0) × (out' ≡ out0)
  unfolding write_message
  write_message_inv payload w out {n} {w'} {out'} returned =
      let (r, (w0, out0)) = write_message_inner payload (w, out) in
      elim (Result-cases r) [
        | inl (m, e) ↦ ground (arith, returned, e)
        | inr (inl (m, e)) ↦ ground (arith, returned, e)
        | inr (inr e) ↦ ground (arith, returned, e)
      ]

  pub write_inner_inv :
      (payload : Bytes) (w : HandshakeState R C H D) (out : Bytes) {n : ℕ}
      {w' : HandshakeState R C H D} {out' : Bytes}
      → write_message_inner payload (w, out) ≡ (ok n, (w', out'))
      → (ts : List Token) × (get_elem? w.message_patterns w.pattern_position ≡ some ts)
        × ((write_tokens ts 0 >>= write_payload payload) (w, out) ≡ (ok n, (w', out')))
  unfolding write_message_inner
  write_inner_inv payload w out returned =
      elim (Option-cases (get_elem? w.message_patterns w.pattern_position)) [
        | inl e ↦ ground (arith, returned, e)
        | inr (ts, e) ↦ (ts, e, ground (arith, returned, e))
      ]

  pub read_message_ok :
      (message buffer : Bytes) (ts : List Token) (r : HandshakeState R C H D) {m : ℕ}
      {ptr buffer' : Bytes} {r1 r2 : HandshakeState R C H D}
      → length message ≤ maxmsglen
      → r.my_turn ≡ false
      → get_elem? r.message_patterns r.pattern_position ≡ some ts
      → read_tokens ts message r ≡ (ok ptr, r1)
      → read_payload (is_last r) ptr (r1, buffer) ≡ (ok m, (r2, buffer'))
      → read_message message (r, buffer) ≡ (ok m, (was_read r2, buffer'))
  unfolding read_message read_message_inner is_last
  read_message_ok message buffer ts r limit turn tokens reads ends =
      ground (arith, limit, turn, tokens, reads, ends)
