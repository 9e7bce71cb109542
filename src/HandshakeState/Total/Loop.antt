-- ===== src/HandshakeState/Total/Loop.antt =====
-- The loop over the tokens of a message goes through (src/handshakestate.rs).
use screech.Base.{
  ℕ, ◌+◌, ◌≤◌, ◌<◌, ◌≡◌, refl, ap, ◌∙◌, Bool, true, List, [], ◌∷◌, Bytes, length, arith,
}
use screech.Outcome.{Outcome}
use screech.Types.{Cipher, Hash, Dh, u64_max}
use screech.Types.Laws.{CipherLaws, HashLaws, DhLaws}
use screech.Types.Total.{HashSizes, DhTotal}
use screech.Params.Table.{Token}
use screech.Params.Readable.{Known}
use screech.SymmetricState.Total.{IsRunning-more}
use screech.HandshakeState.{HandshakeState, dh_len}
use screech.HandshakeState.Write.{write_token, write_tokens}
use screech.Params.Writable.{sent, sent_all, is_writable}
use screech.HandshakeState.Total.{token_len, tokens_len, IsWriter, own_keys}
use screech.HandshakeState.InStep.{known_to}
use screech.HandshakeState.Total.Tokens.{
  Wrote, running-IsWriter, mix_dh_returns, mix_psk_returns, write_e_returns, write_s_returns,
  mixed-Wrote,
}

module _ {R C H D : Type 0} ⦃cipher_ops : Cipher C⦄ ⦃hash_ops : Hash H⦄ ⦃ops : Dh R D⦄
    ⦃laws : DhLaws R D⦄ where
  -- The bounds of `Wrote` are upper bounds.
  Wrote-more :
      {call : Outcome ℕ × (HandshakeState R C H D × Bytes)} {hs : HandshakeState R C H D}
      {message : Bytes} (at at' count count' : ℕ) {keys keys' : Known}
      → Wrote call hs message at count keys
      → keys ≡ keys'
      → at ≤ at'
      → count ≤ count'
      → Wrote call hs message at' count' keys'
  unfolding dh_len
  Wrote-more at at' count count' x e le le' = record {
    next = x.next;
    after = x.after;
    text = x.text;
    is = x.is;
    writer =
        running-IsWriter x.after x.after.symmetricstate count count' x.writer
          (IsRunning-more x.after.symmetricstate count count' x.writer.running le');
    size = x.size;
    index = omega (arith, x.index, le);
    own = x.own ∙ e;
    known = x.known;
    role = x.role;
    psks = x.psks;
    len = x.len;
  }

  then-Wrote :
      (t : Token) (ts : List Token) (i : ℕ) (hs : HandshakeState R C H D) (message : Bytes)
      {at at' count count' : ℕ} {keys keys' : Known}
      (x : Wrote (write_token t i (hs, message)) hs message at count keys)
      → Wrote (write_tokens ts x.next (x.after, x.text)) x.after x.text at' count' keys'
      → Wrote (write_tokens (t ∷ ts) i (hs, message)) hs message at' count' keys'
  unfolding write_tokens
  then-Wrote t ts i hs message x y = record {
    next = y.next;
    after = y.after;
    text = y.text;
    is = ground (arith, x.is, y.is);
    writer = y.writer;
    size = y.size ∙ x.size;
    index = y.index;
    own = y.own;
    known = y.known ∙ x.known;
    role = y.role ∙ x.role;
    psks = y.psks ∙ x.psks;
    len = y.len ∙ x.len;
  }

module _ {R C H D : Type 0} ⦃cipher_ops : Cipher C⦄ ⦃hash_ops : Hash H⦄ ⦃ops : Dh R D⦄
    ⦃laws : DhLaws R D⦄ ⦃cipher_laws : CipherLaws C⦄ ⦃hash_laws : HashLaws H⦄ ⦃sizes : HashSizes H⦄
    ⦃total : DhTotal R D⦄ where
  abbrev writable : HandshakeState R C H D → List Token → Bool
  writable hs ts = is_writable hs.initiator (own_keys hs) (known_to hs) hs.psks ts

  -- One token, and that the rest can be written behind it.
  write_token_returns :
      (t : Token) (ts : List Token) (i : ℕ) (hs : HandshakeState R C H D) (message : Bytes)
      (count : ℕ)
      → IsWriter hs count
      → count < u64_max
      → i + token_len (dh_len hs) t ≤ length message
      → writable hs (t ∷ ts) ≡ true
      → Wrote
          (write_token t i (hs, message))
          hs
          message
          (i + token_len (dh_len hs) t)
          (count + 1)
          (sent t (own_keys hs))
        × (is_writable hs.initiator (sent t (own_keys hs)) (known_to hs) hs.psks ts ≡ true)
  unfolding write_token is_writable
  write_token_returns Token.e ts i hs message count w left room can = (
    Wrote-more (i + dh_len hs) (i + dh_len hs) count (count + 1)
        (write_e_returns i hs message count w room) refl (omega arith) (omega arith),
    can,
  )
  write_token_returns Token.s ts i hs message count w left room can =
      (write_s_returns i hs message count w (ground (arith, can)) left room, ground (arith, can))
  write_token_returns (Token.psk n) ts i hs message count w left room can =
      let (st, e, run) = mix_psk_returns n hs count w (ground (arith, can)) in
      (
        Wrote-more (i + 0) (i + 0) count (count + 1)
            (mixed-Wrote i hs message count (write_token (Token.psk n) i (hs, message)) st w run
              (ground (arith, e)))
            refl (omega arith) (omega arith),
        ground (arith, can),
      )
  write_token_returns (Token.dh t) ts i hs message count w left room can =
      let (st, e, run) = mix_dh_returns t hs count w (ground (arith, can)) (ground (arith, can)) in
      (
        Wrote-more (i + 0) (i + 0) count (count + 1)
            (mixed-Wrote i hs message count (write_token (Token.dh t) i (hs, message)) st w run
              (ground (arith, e)))
            refl (omega arith) (omega arith),
        ground (arith, can),
      )

  pub write_tokens_returns :
      (ts : List Token) (i at : ℕ) (hs : HandshakeState R C H D) (message : Bytes) (count : ℕ)
      → IsWriter hs count
      → count + length ts ≤ u64_max
      → i + tokens_len (dh_len hs) ts ≤ at
      → at ≤ length message
      → writable hs ts ≡ true
      → Wrote
          (write_tokens ts i (hs, message))
          hs
          message
          at
          (count + length ts)
          (sent_all ts (own_keys hs))
  unfolding write_tokens
  write_tokens_returns [] i at hs message count w left index room can = record {
    next = i;
    after = hs;
    text = message;
    is = refl;
    writer =
        running-IsWriter hs hs.symmetricstate count (count + 0) w
          (IsRunning-more hs.symmetricstate count (count + 0) w.running (omega arith));
    size = refl;
    index = omega (arith, index);
    own = refl;
    known = refl;
    role = refl;
    psks = refl;
    len = refl;
  }
  write_tokens_returns (t ∷ ts) i at hs message count w left index room can =
      let (x, can') =
        write_token_returns t ts i hs message count w (omega (arith, left))
          (omega (arith, index, room)) can in
      let can'' : writable x.after ts ≡ true = rw (x.role, x.own, x.known, x.psks) can' in
      let y =
        write_tokens_returns ts x.next at x.after x.text (count + 1) x.writer (omega (arith, left))
          (rw x.len (omega (arith, index, x.index))) (omega (arith, room, x.size)) can'' in
      Wrote-more at at (count + 1 + length ts) (count + length (t ∷ ts))
        (then-Wrote t ts i hs message x y) (ap (λ k. sent_all ts k) x.own) (omega arith)
        (omega arith)
