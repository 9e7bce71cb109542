-- ===== src/HandshakeState/Total/Reader.antt =====
-- `read_message` of src/handshakestate.rs leaves the keys of the reader alone.
use screech.Base.{
  ◌≡◌, refl, ◌∙◌, Bool, List, [], ◌∷◌, Bytes, length, get_elem?, ◌-◌, ◌==◌, inl, inr, Option-cases,
  arith,
}
use screech.Exec.{Exec, continue, on, first, ◌>>=◌}
use screech.Outcome.{Outcome, ok, err, panic, Result-cases}
use screech.Params.Table.{Token}
use screech.Types.{Cipher, Hash, Dh}
use screech.HandshakeState.{HandshakeState}
use screech.HandshakeState.Write.{mix_psk, mix_dh}
use screech.HandshakeState.Read.{
  read_e, read_s, read_token, read_tokens, read_payload, read_message_inner, read_message,
}

pub record SameKeys {R C H D : Type 0} (a b : HandshakeState R C H D) : Type 0 where
  pub s : b.s ≡ a.s
  pub e : b.e ≡ a.e

module _ {R C H D S A B : Type 0} (view : S → HandshakeState R C H D) where
  continue_keys :
      (r : Outcome A) (f : A → Exec S B) (s : S)
      → ((a : A) (s' : S) → SameKeys (view s') (view (f a s').1))
      → SameKeys (view s) (view (continue r f s).1)
  continue_keys (ok a) f s h = h a s
  continue_keys (err e) f s h = record { s = refl; e = refl }
  continue_keys panic f s h = record { s = refl; e = refl }

  bind_keys :
      (m : Exec S A) (f : A → Exec S B) (s : S)
      → SameKeys (view s) (view (m s).1)
      → ((a : A) (s' : S) → SameKeys (view s') (view (f a s').1))
      → SameKeys (view s) (view ((m >>= f) s).1)
  bind_keys m f s h rest =
      let (r, s') = m s in
      let k = continue_keys r f s' rest in record { s = k.s ∙ h.s; e = k.e ∙ h.e }

module _ {R C H D : Type 0} ⦃cipher_ops : Cipher C⦄ ⦃hash_ops : Hash H⦄ ⦃ops : Dh R D⦄ where
  read_token_keys :
      (t : Token) (ptr : Bytes) (hs : HandshakeState R C H D) → SameKeys hs (read_token t ptr hs).1
  unfolding read_token read_e read_s mix_psk mix_dh
  read_token_keys Token.e ptr hs = ground arith
  read_token_keys Token.s ptr hs = ground arith
  read_token_keys (Token.psk n) ptr hs = ground arith
  read_token_keys (Token.dh t) ptr hs = ground arith

  read_tokens_keys :
      (ts : List Token) (ptr : Bytes) (hs : HandshakeState R C H D)
      → SameKeys hs (read_tokens ts ptr hs).1
  unfolding read_tokens
  read_tokens_keys [] ptr hs = record { s = refl; e = refl }
  read_tokens_keys (t ∷ ts) ptr hs =
      bind_keys (λ (x : HandshakeState R C H D). x) (read_token t ptr) (read_tokens ts) hs
        (read_token_keys t ptr hs) (λ p hs'. read_tokens_keys ts p hs')

  read_payload_keys :
      (last : Bool) (ptr : Bytes) (s : HandshakeState R C H D × Bytes)
      → SameKeys s.0 (read_payload last ptr s).1.0
  unfolding read_payload
  read_payload_keys last ptr s = ground arith

  read_body_keys :
      (ts : List Token) (last : Bool) (message : Bytes) (s : HandshakeState R C H D × Bytes)
      → SameKeys s.0 ((on first (read_tokens ts message) >>= read_payload last) s).1.0
  read_body_keys ts last message s =
      bind_keys (λ (x : HandshakeState R C H D × Bytes). x.0) (on first (read_tokens ts message))
        (read_payload last) s (read_tokens_keys ts message s.0) (read_payload_keys last)

  read_inner_keys :
      (message : Bytes) (s : HandshakeState R C H D × Bytes)
      → SameKeys s.0 (read_message_inner message s).1.0
  unfolding read_message_inner
  read_inner_keys message s =
      elim (Option-cases (get_elem? s.0.message_patterns s.0.pattern_position)) [
        | inl e ↦ ground (arith, e)
        | inr (ts, e) ↦ ground (
          arith,
          e,
          read_body_keys ts (s.0.pattern_position == length s.0.message_patterns - 1) message s,
        )
      ]

  pub read_message_keys :
      (message : Bytes) (s : HandshakeState R C H D × Bytes)
      → SameKeys s.0 (read_message message s).1.0
  unfolding read_message
  read_message_keys message s =
      let inner = read_inner_keys message s in
      elim (Result-cases (read_message_inner message s).0) [
        | inl (n, e) ↦ ground (arith, e, inner)
        | inr (inl (x, e)) ↦ ground (arith, e, inner)
        | inr (inr e) ↦ ground (arith, e, inner)
      ]
