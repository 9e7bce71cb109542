-- ===== src/HandshakeState/Write.antt =====
-- `write_message` of src/handshakestate.rs. The state is the handshake state and the buffer
-- `message`.
use screech.Base.{
  ℕ, ◌+◌, ◌-◌, false, none, some, List, [], ◌∷◌, ◌++◌, Bytes, length, take, drop, get_elem?, leb,
  ◌==◌, if◌then◌else◌,
}
use screech.Constants.{taglen, maxmsglen}
use screech.Error.{
  state, input, not_turn_to_write, handshake_already_finished, missing_key_material, missing_psk,
}
use screech.Exec.{
  Exec, Lens, pure, raise, abort, lift, gets, modify, require, attempt, call, on, first, ◌>>=◌,
  ◌>>◌,
}
use screech.Outcome.{Result, ok, err, panic, slice_to, slice_from}
use screech.Toggle.{enable}
use screech.Types.{Cipher, Hash, Dh}
use screech.Params.Modifier.{is_psk}
use screech.Params.Table.{Token, DhToken}
use screech.SymmetricState
use screech.SymmetricState.{
  SymmetricState, mix_hash, mix_key, mix_key_and_hash, encrypt_and_mix_hash, split,
}
use screech.HandshakeState.{
  HandshakeState, the_symmetricstate, symmetricstate_and_children, dh, dh_len,
}

-- `message[at..at + data.len()].copy_from_slice(data)`
unfoldable pub write_at : {E : Type 0} → ℕ → Bytes → Bytes → Result E Bytes
write_at at bytes message =
    if leb (at + length bytes) (length message)
    then ok (take at message ++ (bytes ++ drop (at + length bytes) message))
    else panic

module _ {R C H D : Type 0} where
  -- `self.symmetricstate` and `&mut message[byte_index..]`
  abbrev pub symmetricstate_and_rest :
      ℕ → Lens (HandshakeState R C H D × Bytes) (SymmetricState C H × Bytes)
  symmetricstate_and_rest byte_index = record {
    get = λ s. (s.0.symmetricstate, drop byte_index s.1);
    put = λ t s. (record s.0 { symmetricstate = t.0 }, take byte_index s.1 ++ t.1);
  }

  -- `self.e` and `self.rng`
  abbrev pub e_and_rng : Lens (HandshakeState R C H D) (D × R)
  e_and_rng = record {
    get = λ hs. (hs.e.inner, hs.rng);
    put = λ t hs. record hs { e = record hs.e { inner = t.0 }; rng = t.1 };
  }

  abbrev pub wrote : HandshakeState R C H D → HandshakeState R C H D
  wrote hs = record hs { pattern_position = hs.pattern_position + 1; my_turn = false }

  -- `self.symmetricstate.restore(checkpoint)`
  abbrev pub restored :
      SymmetricState.SymmetricStateData → HandshakeState R C H D → HandshakeState R C H D
  restored saved hs = record hs { symmetricstate = SymmetricState.restore saved hs.symmetricstate }

  abbrev pub enable_e : HandshakeState R C H D → HandshakeState R C H D
  enable_e hs = record hs { e = enable hs.e }

module _ {R C H D : Type 0} ⦃cipher_ops : Cipher C⦄ ⦃hash_ops : Hash H⦄ ⦃ops : Dh R D⦄ where
  -- `encrypt_and_mix_hash(plaintext, &mut message[byte_index..])`: the number of bytes written.
  unfoldable pub encrypt_rest : ℕ → Bytes → Exec (HandshakeState R C H D × Bytes) ℕ
  encrypt_rest byte_index plaintext = do
    message ← gets (λ s. s.1)
    _ ← lift (slice_from byte_index message)
    on (symmetricstate_and_rest byte_index) (encrypt_and_mix_hash plaintext)

  unfoldable pub write_e : ℕ → Exec (HandshakeState R C H D × Bytes) ℕ
  unfolding write_at
  write_e byte_index = do
    (self, message) ← gets (λ s. s)
    require (leb (byte_index + ops.pub_len self.e.inner) (length message)) input
    if self.fixed_ephemeral then pure tt else on first (on e_and_rng (call ops.generate))
    self' ← gets (λ s. s.0)
    let pubkey = ops.pubkey self'.e.inner
    message' ← lift (write_at byte_index pubkey message)
    modify (λ s. (s.0, message'))
    on first (on the_symmetricstate (call (mix_hash pubkey)))
    if is_psk self'.params.handshake
        then on first (on the_symmetricstate (call (mix_key pubkey)))
        else pure tt
    on first (modify enable_e)
    pure (byte_index + length pubkey)

  unfoldable pub write_s : ℕ → Exec (HandshakeState R C H D × Bytes) ℕ
  write_s byte_index = do
    (self, message) ← gets (λ s. s)
    require self.s.is_on (state missing_key_material)
    require (leb (byte_index + ops.pub_len self.s.inner) (length message)) input
    len ← encrypt_rest byte_index (ops.pubkey self.s.inner)
    pure (byte_index + len)

  -- `Token::Psk(n)`, the same for both messages.
  unfoldable pub mix_psk : ℕ → Exec (HandshakeState R C H D) (Unit {0})
  mix_psk n = do
    self ← gets (λ s. s)
    elim (get_elem? self.psks n) [
      | none ↦ abort
      | some none ↦ raise (state missing_psk)
      | some (some psk) ↦ on the_symmetricstate (call (mix_key_and_hash psk))
    ]

  -- `Token::Dh(t)`, the same for both messages.
  unfoldable pub mix_dh : DhToken → Exec (HandshakeState R C H D) (Unit {0})
  mix_dh t = do
    self ← gets (λ s. s)
    dh_out ← lift (dh self t)
    secret ← lift (slice_to (dh_len self) dh_out)
    on the_symmetricstate (call (mix_key secret))

  -- One round of the loop over the tokens: the new `byte_index`.
  unfoldable pub write_token : Token → ℕ → Exec (HandshakeState R C H D × Bytes) ℕ
  write_token Token.e byte_index = write_e byte_index
  write_token Token.s byte_index = write_s byte_index
  write_token (Token.psk n) byte_index = do on first (mix_psk n); pure byte_index
  write_token (Token.dh t) byte_index = do on first (mix_dh t); pure byte_index

  unfoldable pub write_tokens : List Token → ℕ → Exec (HandshakeState R C H D × Bytes) ℕ
  write_tokens [] byte_index = pure byte_index
  write_tokens (t ∷ ts) byte_index = do
    byte_index' ← write_token t byte_index
    write_tokens ts byte_index'

  -- `_write_message` behind the loop: the payload, and the split after the last message.
  unfoldable pub write_payload : Bytes → ℕ → Exec (HandshakeState R C H D × Bytes) ℕ
  write_payload payload byte_index = do
    message ← gets (λ s. s.1)
    require (leb (byte_index + length payload + taglen) (length message)) input
    len ← encrypt_rest byte_index payload
    require (leb (byte_index + len) maxmsglen) input
    self ← gets (λ s. s.0)
    if self.pattern_position == length self.message_patterns - 1
        then on first (on symmetricstate_and_children (call split))
        else pure tt
    pure (byte_index + len)

  -- `_write_message`
  unfoldable pub write_message_inner : Bytes → Exec (HandshakeState R C H D × Bytes) ℕ
  write_message_inner payload = do
    self ← gets (λ s. s.0)
    require self.my_turn (state not_turn_to_write)
    elim (get_elem? self.message_patterns self.pattern_position) [
      | none ↦ raise (state handshake_already_finished)
      | some tokens ↦ do byte_index ← write_tokens tokens 0; write_payload payload byte_index
    ]

  unfoldable pub write_message : Bytes → Exec (HandshakeState R C H D × Bytes) ℕ
  write_message payload = do
    self ← gets (λ s. s.0)
    let checkpoint = SymmetricState.checkpoint self.symmetricstate
    res ← attempt (write_message_inner payload)
    elim res [
      | ok n ↦ do on first (modify wrote); pure n
      | err e ↦ do on first (modify (restored checkpoint)); raise e
      | panic ↦ abort
    ]
