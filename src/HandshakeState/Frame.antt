-- ===== src/HandshakeState/Frame.antt =====
-- What the calls inside `write_message` and `read_message` of src/handshakestate.rs leave alone.
use screech.Base.{
  ℕ, ◌-◌, ◌≡◌, Bool, List, [], ◌∷◌, Bytes, length, get_elem?, ◌==◌, inl, inr, Option-cases, arith,
}
use screech.Exec.{Exec, continue, on, first, ◌>>=◌}
use screech.Outcome.{Outcome, ok, err, panic}
use screech.Params.Table.{Token, DhToken}
use screech.Types.{Cipher, Hash, Dh}
use screech.HandshakeState.{HandshakeState}
use screech.HandshakeState.Write.{
  encrypt_rest, write_e, write_s, mix_psk, mix_dh, write_token, write_tokens, write_payload,
  write_message_inner,
}
use screech.HandshakeState.Read.{
  read_e, read_s, read_token, read_tokens, read_payload, read_message_inner,
}

-- The two states differ at most in keys, hashes and ciphers.
pub record SameStage {R C H D : Type 0} (a b : HandshakeState R C H D) : Type 0 where
  pub same_turn : b.my_turn ≡ a.my_turn
  pub same_position : b.pattern_position ≡ a.pattern_position
  pub same_patterns : b.message_patterns ≡ a.message_patterns
  pub same_role : b.initiator ≡ a.initiator
  pub same_params : b.params ≡ a.params
  pub same_psks : b.psks ≡ a.psks

module _ {R C H D : Type 0} where
  pub SameStage-refl : (a : HandshakeState R C H D) → SameStage a a
  SameStage-refl a = ground arith

  pub SameStage-trans :
      {a b c : HandshakeState R C H D} → SameStage a b → SameStage b c → SameStage a c
  SameStage-trans p q = ground arith

module _ {R C H D : Type 0} ⦃cipher_ops : Cipher C⦄ ⦃hash_ops : Hash H⦄ ⦃ops : Dh R D⦄ where
  pub encrypt_rest_stage :
      (i : ℕ) (pt : Bytes) (s : HandshakeState R C H D × Bytes)
      → SameStage s.0 (encrypt_rest i pt s).1.0
  unfolding encrypt_rest
  encrypt_rest_stage i pt s = ground arith

  write_e_stage : (i : ℕ) (s : HandshakeState R C H D × Bytes) → SameStage s.0 (write_e i s).1.0
  unfolding write_e
  write_e_stage i s = ground arith

  write_s_stage : (i : ℕ) (s : HandshakeState R C H D × Bytes) → SameStage s.0 (write_s i s).1.0
  unfolding write_s
  write_s_stage i s = ground (arith, encrypt_rest_stage i (ops.pubkey s.0.s.inner) s)

  mix_psk_stage : (n : ℕ) (hs : HandshakeState R C H D) → SameStage hs (mix_psk n hs).1
  unfolding mix_psk
  mix_psk_stage n hs = ground arith

  mix_dh_stage : (t : DhToken) (hs : HandshakeState R C H D) → SameStage hs (mix_dh t hs).1
  unfolding mix_dh
  mix_dh_stage t hs = ground arith

  write_token_stage :
      (t : Token) (i : ℕ) (s : HandshakeState R C H D × Bytes)
      → SameStage s.0 (write_token t i s).1.0
  unfolding write_token
  write_token_stage Token.e i s = write_e_stage i s
  write_token_stage Token.s i s = write_s_stage i s
  write_token_stage (Token.psk n) i s = ground (arith, mix_psk_stage n s.0)
  write_token_stage (Token.dh t) i s = ground (arith, mix_dh_stage t s.0)

  read_e_stage : (ptr : Bytes) (hs : HandshakeState R C H D) → SameStage hs (read_e ptr hs).1
  unfolding read_e
  read_e_stage ptr hs = ground arith

  read_s_stage : (ptr : Bytes) (hs : HandshakeState R C H D) → SameStage hs (read_s ptr hs).1
  unfolding read_s
  read_s_stage ptr hs = ground arith

  read_token_stage :
      (t : Token) (ptr : Bytes) (hs : HandshakeState R C H D) → SameStage hs (read_token t ptr hs).1
  unfolding read_token
  read_token_stage Token.e ptr hs = read_e_stage ptr hs
  read_token_stage Token.s ptr hs = read_s_stage ptr hs
  read_token_stage (Token.psk n) ptr hs = ground (arith, mix_psk_stage n hs)
  read_token_stage (Token.dh t) ptr hs = ground (arith, mix_dh_stage t hs)

-- The rule for a chain of calls, over any part of the state that holds a handshake state.
module _ {R C H D S A B : Type 0} (view : S → HandshakeState R C H D) where
  continue_stage :
      (r : Outcome A) (f : A → Exec S B) (s : S)
      → ((a : A) (s' : S) → SameStage (view s') (view (f a s').1))
      → SameStage (view s) (view (continue r f s).1)
  continue_stage (ok a) f s h = h a s
  continue_stage (err e) f s h = SameStage-refl (view s)
  continue_stage panic f s h = SameStage-refl (view s)

  bind_stage :
      (m : Exec S A) (f : A → Exec S B) (s : S)
      → SameStage (view s) (view (m s).1)
      → ((a : A) (s' : S) → SameStage (view s') (view (f a s').1))
      → SameStage (view s) (view ((m >>= f) s).1)
  bind_stage m f s first rest =
      let (r, s') = m s in SameStage-trans first (continue_stage r f s' rest)

module _ {R C H D : Type 0} ⦃cipher_ops : Cipher C⦄ ⦃hash_ops : Hash H⦄ ⦃ops : Dh R D⦄ where
  pub write_tokens_stage :
      (ts : List Token) (i : ℕ) (s : HandshakeState R C H D × Bytes)
      → SameStage s.0 (write_tokens ts i s).1.0
  unfolding write_tokens
  write_tokens_stage [] i s = SameStage-refl s.0
  write_tokens_stage (t ∷ ts) i s =
      bind_stage (λ (x : HandshakeState R C H D × Bytes). x.0) (write_token t i) (write_tokens ts) s
        (write_token_stage t i s) (λ j s'. write_tokens_stage ts j s')

  write_payload_stage :
      (payload : Bytes) (i : ℕ) (s : HandshakeState R C H D × Bytes)
      → SameStage s.0 (write_payload payload i s).1.0
  unfolding write_payload
  write_payload_stage payload i s = ground (arith, encrypt_rest_stage i payload s)

  write_body_stage :
      (ts : List Token) (payload : Bytes) (s : HandshakeState R C H D × Bytes)
      → SameStage s.0 ((write_tokens ts 0 >>= write_payload payload) s).1.0
  write_body_stage ts payload s =
      bind_stage (λ (x : HandshakeState R C H D × Bytes). x.0) (write_tokens ts 0)
        (write_payload payload) s (write_tokens_stage ts 0 s) (write_payload_stage payload)

  pub write_inner_stage :
      (payload : Bytes) (s : HandshakeState R C H D × Bytes)
      → SameStage s.0 (write_message_inner payload s).1.0
  unfolding write_message_inner
  write_inner_stage payload s =
      elim (Option-cases (get_elem? s.0.message_patterns s.0.pattern_position)) [
        | inl e ↦ ground (arith, e)
        | inr (ts, e) ↦ ground (arith, e, write_body_stage ts payload s)
      ]

  read_tokens_stage :
      (ts : List Token) (ptr : Bytes) (hs : HandshakeState R C H D)
      → SameStage hs (read_tokens ts ptr hs).1
  unfolding read_tokens
  read_tokens_stage [] ptr hs = SameStage-refl hs
  read_tokens_stage (t ∷ ts) ptr hs =
      bind_stage (λ (x : HandshakeState R C H D). x) (read_token t ptr) (read_tokens ts) hs
        (read_token_stage t ptr hs) (λ p hs'. read_tokens_stage ts p hs')

  read_payload_stage :
      (last : Bool) (ptr : Bytes) (s : HandshakeState R C H D × Bytes)
      → SameStage s.0 (read_payload last ptr s).1.0
  unfolding read_payload
  read_payload_stage last ptr s = ground arith

  read_body_stage :
      (ts : List Token) (last : Bool) (message : Bytes) (s : HandshakeState R C H D × Bytes)
      → SameStage s.0 ((on first (read_tokens ts message) >>= read_payload last) s).1.0
  read_body_stage ts last message s =
      bind_stage (λ (x : HandshakeState R C H D × Bytes). x.0) (on first (read_tokens ts message))
        (read_payload last) s (read_tokens_stage ts message s.0) (read_payload_stage last)

  pub read_inner_stage :
      (message : Bytes) (s : HandshakeState R C H D × Bytes)
      → SameStage s.0 (read_message_inner message s).1.0
  unfolding read_message_inner
  read_inner_stage message s =
      elim (Option-cases (get_elem? s.0.message_patterns s.0.pattern_position)) [
        | inl e ↦ ground (arith, e)
        | inr (ts, e) ↦ ground (
          arith,
          e,
          read_body_stage ts (s.0.pattern_position == length s.0.message_patterns - 1) message s,
        )
      ]
