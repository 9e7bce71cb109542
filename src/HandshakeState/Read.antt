-- ===== src/HandshakeState/Read.antt =====
-- `read_message` of src/handshakestate.rs. The loop over the tokens works on the handshake state and
-- hands on what is left of the message; the last step also has the buffer `payload`.
use screech.Base.{
  ℕ, ◌+◌, ◌-◌, Bool, true, none, some, List, [], ◌∷◌, ◌++◌, not, Bytes, length, take, drop,
  get_elem?, leb, ◌==◌, if◌then◌else◌,
}
use screech.Constants.{taglen, maxmsglen}
use screech.Error.{state, input, decrypt, not_turn_to_read, handshake_already_finished}
use screech.Exec.{
  Exec, Lens, pure, raise, abort, lift, gets, modify, require, attempt, call, map_err, on, first,
  ◌>>=◌, ◌>>◌,
}
use screech.Outcome.{ok, err, panic, slice_to, copy_slices}
use screech.Toggle.{enable, write}
use screech.Types.{Cipher, Hash, Dh}
use screech.Params.Modifier.{is_psk}
use screech.Params.Table.{Token}
use screech.SymmetricState
use screech.SymmetricState.{SymmetricState, mix_hash, mix_key, decrypt_and_mix_hash, split}
use screech.HandshakeState.{HandshakeState, the_symmetricstate, symmetricstate_and_children, dh_len}
use screech.HandshakeState.Write.{mix_psk, mix_dh, restored}

module _ {R C H D : Type 0} where
  -- `self.symmetricstate` and `&mut self.rs[..dh_len]`
  abbrev pub symmetricstate_and_rs : ℕ → Lens (HandshakeState R C H D) (SymmetricState C H × Bytes)
  symmetricstate_and_rs dh_len = record {
    get = λ hs. (hs.symmetricstate, take dh_len hs.rs.inner);
    put = λ t hs. record hs {
      symmetricstate = t.0;
      rs = write (t.1 ++ drop dh_len hs.rs.inner) hs.rs;
    };
  }

  abbrev pub symmetricstate_and_payload :
      Lens (HandshakeState R C H D × Bytes) (SymmetricState C H × Bytes)
  symmetricstate_and_payload = record {
    get = λ s. (s.0.symmetricstate, s.1);
    put = λ t s. (record s.0 { symmetricstate = t.0 }, t.1);
  }

  abbrev pub write_re : Bytes → HandshakeState R C H D → HandshakeState R C H D
  write_re re hs = record hs { re = write re hs.re }

  abbrev pub was_read : HandshakeState R C H D → HandshakeState R C H D
  was_read hs = record hs { pattern_position = hs.pattern_position + 1; my_turn = true }

  abbrev pub enable_re : HandshakeState R C H D → HandshakeState R C H D
  enable_re hs = record hs { re = enable hs.re }

  abbrev pub enable_rs : HandshakeState R C H D → HandshakeState R C H D
  enable_rs hs = record hs { rs = enable hs.rs }

module _ {R C H D : Type 0} ⦃cipher_ops : Cipher C⦄ ⦃hash_ops : Hash H⦄ ⦃ops : Dh R D⦄ where
  unfoldable pub read_e : Bytes → Exec (HandshakeState R C H D) Bytes
  read_e ptr = do
    self ← gets (λ hs. hs)
    let len = dh_len self
    require (leb len (length ptr)) input
    re ← lift (copy_slices (take len ptr) self.re.inner)
    modify (write_re re)
    re_key ← lift (slice_to len re)
    on the_symmetricstate (call (mix_hash re_key))
    if is_psk self.params.handshake then on the_symmetricstate (call (mix_key re_key)) else pure tt
    modify enable_re
    pure (drop len ptr)

  unfoldable pub read_s : Bytes → Exec (HandshakeState R C H D) Bytes
  read_s ptr = do
    self ← gets (λ hs. hs)
    let len = dh_len self
    let read_len = if SymmetricState.has_key self.symmetricstate then len + taglen else len
    require (leb read_len (length ptr)) input
    _ ← lift (slice_to len self.rs.inner)
    map_err decrypt (on (symmetricstate_and_rs len) (decrypt_and_mix_hash (take read_len ptr)))
    modify enable_rs
    pure (drop read_len ptr)

  -- One round of the loop over the tokens: what is left of the message.
  unfoldable pub read_token : Token → Bytes → Exec (HandshakeState R C H D) Bytes
  read_token Token.e ptr = read_e ptr
  read_token Token.s ptr = read_s ptr
  read_token (Token.psk n) ptr = do mix_psk n; pure ptr
  read_token (Token.dh t) ptr = do mix_dh t; pure ptr

  unfoldable pub read_tokens : List Token → Bytes → Exec (HandshakeState R C H D) Bytes
  read_tokens [] ptr = pure ptr
  read_tokens (t ∷ ts) ptr = do ptr' ← read_token t ptr; read_tokens ts ptr'

  -- `_read_message` behind the loop: the payload, and the split after the last message.
  unfoldable pub read_payload : Bool → Bytes → Exec (HandshakeState R C H D × Bytes) ℕ
  read_payload last ptr = do
    _ ← map_err decrypt (on symmetricstate_and_payload (decrypt_and_mix_hash ptr))
    if last then on first (on symmetricstate_and_children (call split)) else pure tt
    self ← gets (λ s. s.0)
    pure (if SymmetricState.has_key self.symmetricstate then length ptr - taglen else length ptr)

  -- `_read_message`
  unfoldable pub read_message_inner : Bytes → Exec (HandshakeState R C H D × Bytes) ℕ
  read_message_inner message = do
    self ← gets (λ s. s.0)
    require (leb (length message) maxmsglen) input
    require (not self.my_turn) (state not_turn_to_read)
    elim (get_elem? self.message_patterns self.pattern_position) [
      | none ↦ raise (state handshake_already_finished)
      | some tokens ↦ do
        let last = self.pattern_position == length self.message_patterns - 1
        ptr ← on first (read_tokens tokens message)
        read_payload last ptr
    ]

  unfoldable pub read_message : Bytes → Exec (HandshakeState R C H D × Bytes) ℕ
  read_message message = do
    self ← gets (λ s. s.0)
    let checkpoint = SymmetricState.checkpoint self.symmetricstate
    res ← attempt (read_message_inner message)
    elim res [
      | ok n ↦ do on first (modify was_read); pure n
      | err e ↦ do on first (modify (restored checkpoint)); raise e
      | panic ↦ abort
    ]
