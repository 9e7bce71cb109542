-- ===== src/Params/Readable/Modifiers.antt =====
-- The PSK modifiers of src/params/patterns.rs leave alone which keys a reader needs.
use screech.Base.{
  ℕ, zero, suc, ◌≡◌, refl, sym, ap, ◌∙◌, Bool, true, false, not, ◌&&◌, List, [], ◌∷◌, ◌++◌, some,
  Option-cases, get_elem?, set, inl, inr, arith,
}
use screech.Params.Modifier.{HandshakeModifier, HandshakeChoice, psk, fallback}
use screech.Params.Table.{Token, MessagePatterns, Patterns, base_patterns}
use screech.Params.Tokens.{
  HandshakeTokens, apply_psk_modifier, apply_modifiers, try_from, change_at, tokens_of,
}
use screech.Outcome.{ok, ◌>>=◌, Result-cases}
use screech.Params.Readable.{
  Known, is_known, received, received_all, is_readable, all_readable, unknown, is_readable_pattern,
  base-readable,
}

-- A change of a message that leaves what a reader of it needs and gets.
record IsNeutral (f : List Token → List Token) : Type 0 where
  pub same_needs :
      (b : Bool) (k : Known) (ts : List Token) → is_readable b k (f ts) ≡ is_readable b k ts
  pub same_gets : (k : Known) (ts : List Token) → received_all (f ts) k ≡ received_all ts k

set-readable :
    (f : List Token → List Token) (b : Bool) (kr kw : Known) (msgs : MessagePatterns) (i : ℕ)
    {msg : List Token}
    → IsNeutral f
    → get_elem? msgs i ≡ some msg
    → all_readable b kr kw (set msgs i (f msg)) ≡ all_readable b kr kw msgs
unfolding all_readable
set-readable f b kr kw [] i h at = cc at
set-readable f b kr kw (ts ∷ rest) zero {msg} h at =
    let same : ts ≡ msg = cc in rw (same, h.same_needs b kr msg, h.same_gets kr msg)
set-readable f b kr kw (ts ∷ rest) (suc i) h at =
    ap (λ x. is_readable b kr ts && x) (set-readable f (not b) kw (received_all ts kr) rest i h at)

front_needs : (n : ℕ) → IsNeutral (λ msg. Token.psk n ∷ msg)
unfolding is_readable
front_needs n = record { same_needs = λ b k ts. refl; same_gets = λ k ts. refl }

end-readable :
    (n : ℕ) (b : Bool) (k : Known) (ts : List Token)
    → is_readable b k (ts ++ Token.psk n ∷ []) ≡ is_readable b k ts
unfolding is_readable
end-readable n b k [] = refl
end-readable n b k (Token.e ∷ ts) = end-readable n b (received Token.e k) ts
end-readable n b k (Token.s ∷ ts) = end-readable n b (received Token.s k) ts
end-readable n b k (Token.psk m ∷ ts) = end-readable n b k ts
end-readable n b k (Token.dh t ∷ ts) = ap (λ x. is_known t b k && x) (end-readable n b k ts)

pub end-received :
    (n : ℕ) (k : Known) (ts : List Token)
    → received_all (ts ++ Token.psk n ∷ []) k ≡ received_all ts k
end-received n k [] = refl
end-received n k (t ∷ ts) = end-received n (received t k) ts

end_needs : (n : ℕ) → IsNeutral (λ msg. msg ++ Token.psk n ∷ [])
end_needs n = record { same_needs = end-readable n; same_gets = end-received n }

change-readable :
    (f : List Token → List Token) (b : Bool) (kr kw : Known) (msgs : MessagePatterns) (i : ℕ)
    {msgs' : MessagePatterns}
    → IsNeutral f
    → change_at msgs i f ≡ ok msgs'
    → all_readable b kr kw msgs' ≡ all_readable b kr kw msgs
change-readable f b kr kw msgs i h changed = elim (Option-cases (get_elem? msgs i)) [
  | inl e ↦ ground (arith, changed, e)
  | inr (msg, e) ↦ ground (arith, changed, e, set-readable f b kr kw msgs i h e)
]

-- A change of the patterns at a message.
changed-readable :
    (f : List Token → List Token) (p : Patterns) (at : ℕ) {p' : Patterns}
    → IsNeutral f
    → (change_at p.2 at f >>= λ msgs. ok (p.0, p.1, msgs)) ≡ ok p'
    → is_readable_pattern p' ≡ is_readable_pattern p
changed-readable f p at {p'} h applied = elim (Result-cases (change_at p.2 at f)) [
  | inl (msgs, e) ↦
      let same : (p.0, p.1, msgs) ≡ p' = cc (applied, e) in
      sym (ap (λ q. is_readable_pattern q) same)
      ∙ change-readable f false (received_all p.0 unknown) (received_all p.1 unknown) p.2 at h e
  | inr (inl (_, e)) ↦ cc (applied, e)
  | inr (inr e) ↦ cc (applied, e)
]

psk-readable :
    (p : Patterns) (n : ℕ) {p' : Patterns}
    → apply_psk_modifier p n ≡ ok p'
    → is_readable_pattern p' ≡ is_readable_pattern p
unfolding apply_psk_modifier
psk-readable p zero applied =
    changed-readable (λ msg. Token.psk 0 ∷ msg) p 0 (front_needs 0) applied
psk-readable p (suc n) applied =
    changed-readable (λ msg. msg ++ Token.psk (suc n) ∷ []) p n (end_needs (suc n)) applied

apply_modifiers-readable :
    (ms : List HandshakeModifier) (p : Patterns) {p' : Patterns}
    → apply_modifiers ms p ≡ ok p'
    → is_readable_pattern p' ≡ is_readable_pattern p
unfolding apply_modifiers
apply_modifiers-readable [] p {p'} applied =
    let same : p ≡ p' = cc applied in sym (ap (λ r. is_readable_pattern r) same)
apply_modifiers-readable (psk n ∷ ms) p {p'} applied =
    elim (Result-cases (apply_psk_modifier p n)) [
      | inl (q, e) ↦ apply_modifiers-readable ms q {p' = p'} (cc (applied, e)) ∙ psk-readable p n e
      | inr (inl (_, e)) ↦ cc (applied, e)
      | inr (inr e) ↦ cc (applied, e)
    ]
apply_modifiers-readable (fallback ∷ ms) p applied = cc applied

-- Whenever the pattern of a handshake choice with its modifiers is found, no `Dh` token of it asks its
-- reader for a key of the other side that neither a pre-message nor an earlier token has given it; the
-- initiator writes the first message and the sides take turns.
pub patterns-readable :
    (choice : HandshakeChoice) {tokens : HandshakeTokens}
    → try_from choice ≡ ok tokens
    → let known = received_all tokens.premsg_pattern_i unknown in
      let known' = received_all tokens.premsg_pattern_r unknown in
      all_readable false known known' tokens.msg_patterns ≡ true
unfolding try_from
patterns-readable choice {tokens} found =
    let p = base_patterns choice.pattern in
    elim (Result-cases (apply_modifiers choice.modifiers.list p)) [
      | inl (q, e) ↦
          let same : tokens ≡ tokens_of q = cc (found, e) in
          rw same
            (apply_modifiers-readable choice.modifiers.list p e ∙ base-readable choice.pattern)
      | inr (inl (_, e)) ↦ cc (found, e)
      | inr (inr e) ↦ cc (found, e)
    ]
