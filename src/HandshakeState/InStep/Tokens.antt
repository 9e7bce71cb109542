-- ===== src/HandshakeState/InStep/Tokens.antt =====
-- The loop over the tokens of a handshake message (src/handshakestate.rs): what the writer's puts into
-- the message the reader's takes from it.
use mathlib.Core.Path.{subst}
use screech.Base.{
  ℕ, ◌≤◌, ◌≡◌, refl, ap, ◌∙◌, Bool, true, ◌++◌, List, [], ◌∷◌, Bytes, length, take, append_assoc,
  append-nil, length-append, arith,
}
use screech.Exec.{Exec, bind_inv, ◌>>=◌}
use screech.Outcome.{ok}
use screech.Types.{Cipher, Hash, Dh}
use screech.Types.Laws.{CipherLaws, DhLaws}
use screech.Params.Readable.{Known, is_known, is_readable, received, received_all}
use screech.Params.Table.{Token}
use screech.HandshakeState.{HandshakeState}
use screech.HandshakeState.Write.{write_token, write_tokens, mix_dh, mix_psk}
use screech.HandshakeState.Read.{read_token, read_tokens}
use screech.HandshakeState.InStep.{InStep, known_to}
use screech.HandshakeState.InStep.Sent.{IsSent, e-IsSent}
use screech.HandshakeState.InStep.Mixed.{mix_dh_mixed, mix_psk_mixed, mixed-IsSent}
use screech.HandshakeState.InStep.Sealed.{s-IsSent}

-- The reader has the key that the token asks for.
abbrev pub is_readable_token : Bool → Known → Token → Bool
is_readable_token initiator k (Token.dh t) = is_known t initiator k
is_readable_token initiator k (Token.psk n) = true
is_readable_token initiator k Token.e = true
is_readable_token initiator k Token.s = true

readable_first :
    (b : Bool) (k : Known) (t : Token) (ts : List Token)
    → is_readable b k (t ∷ ts) ≡ true
    → (is_readable_token b k t ≡ true) × (is_readable b (received t k) ts ≡ true)
unfolding is_readable
readable_first b k Token.e ts h = (refl, h)
readable_first b k Token.s ts h = (refl, h)
readable_first b k (Token.psk n) ts h = (refl, h)
readable_first b k (Token.dh t) ts h = (ground (arith, h), ground (arith, h))

module _ {R C H D : Type 0} ⦃cipher_ops : Cipher C⦄ ⦃hash_ops : Hash H⦄ ⦃ops : Dh R D⦄
    ⦃laws : DhLaws R D⦄ ⦃cipher_laws : CipherLaws C⦄ where
  token-IsSent :
      (t : Token) (w r : HandshakeState R C H D) (out : Bytes) (i : ℕ) {n : ℕ}
      {w' : HandshakeState R C H D} {out' : Bytes}
      → InStep w r
      → is_readable_token r.initiator (known_to r) t ≡ true
      → i ≤ length out
      → write_token t i (w, out) ≡ (ok n, (w', out'))
      → IsSent w r out i n w' out' (read_token t) (received t (known_to r))
  unfolding write_token read_token
  token-IsSent Token.e w r out i h k within returned = e-IsSent w r out i h within returned
  token-IsSent Token.s w r out i h k within returned = s-IsSent w r out i h within returned
  token-IsSent (Token.psk m) w r out i {n} {w'} {out'} h k within returned =
      mixed-IsSent w r out i (mix_psk m) h within (mix_psk_mixed w r m h) returned
  token-IsSent (Token.dh t) w r out i {n} {w'} {out'} h k within returned =
      mixed-IsSent w r out i (mix_dh t) h within (mix_dh_mixed w r t h k) returned

  IsSent-both :
      (w r : HandshakeState R C H D) (out : Bytes) (i : ℕ) {j n : ℕ}
      {w' w'' : HandshakeState R C H D} {out' out'' : Bytes} {k k' : Known}
      (read : Bytes → Exec (HandshakeState R C H D) Bytes)
      (read' : Bytes → Exec (HandshakeState R C H D) Bytes)
      (one : IsSent w r out i j w' out' read k)
      → IsSent w' one.after out' j n w'' out'' read' k'
      → IsSent w r out i n w'' out'' (λ ptr. read ptr >>= read') k'
  IsSent-both w r out i {j} {n} {out' = out'} read read' one two = record {
    chunk = one.chunk ++ two.chunk;
    after = two.after;
    count = omega (arith, one.count, two.count, length-append one.chunk two.chunk);
    text =
        two.text
        ∙ ap (λ x. x ++ two.chunk) one.text
        ∙ append_assoc (take i out) one.chunk two.chunk;
    size = two.size ∙ one.size;
    room = omega (arith, two.room, one.size);
    reads = λ rest.
        rw (append_assoc one.chunk two.chunk rest, one.reads (two.chunk ++ rest)) (two.reads rest);
    in_step = two.in_step;
    knows = two.knows;
    keeps = two.keeps ∙ one.keeps;
    same_role = two.same_role ∙ one.same_role;
  }

  -- In step, and with the keys that the reader needs: what the writer's loop over the tokens put into
  -- the message, the reader's loop takes from it.
  pub tokens-IsSent :
      (ts : List Token) (w r : HandshakeState R C H D) (out : Bytes) (i : ℕ) {n : ℕ}
      {w' : HandshakeState R C H D} {out' : Bytes} (k : Known)
      → InStep w r
      → known_to r ≡ k
      → is_readable r.initiator k ts ≡ true
      → i ≤ length out
      → write_tokens ts i (w, out) ≡ (ok n, (w', out'))
      → IsSent w r out i n w' out' (read_tokens ts) (received_all ts k)
  unfolding write_tokens read_tokens
  tokens-IsSent [] w r out i {n} {w'} {out'} k h known readable within returned = record {
    chunk = [];
    after = r;
    count = ground (arith, returned);
    text = ground (arith, returned, append-nil (take i out));
    size = ground (arith, returned);
    room = ground (arith, returned, within);
    reads = λ rest. refl;
    in_step = subst (λ x. InStep x r) (cc returned) h;
    knows = known;
    keeps = cc returned;
    same_role = refl;
  }
  tokens-IsSent (t ∷ ts) w r out i {n} {w'} {out'} k h known readable within returned =
      let (now, later) = readable_first r.initiator k t ts readable in
      let (j, wrote, rest) = bind_inv (write_token t i) (write_tokens ts) (w, out) returned in
      let (_, (w1, out1)) = write_token t i (w, out) in
      let one =
        token-IsSent t w r out i {n = j} {w' = w1} {out' = out1} h (rw known now) within
          (cc wrote) in
      let two =
        tokens-IsSent ts w1 one.after out1 j (received t k) one.in_step
          (one.knows ∙ ap (received t) known) (rw one.same_role later)
          (omega (arith, one.room, one.size)) rest in
      IsSent-both w r out i (read_token t) (read_tokens ts) one two
