-- ===== src/Params/PreMessages.antt =====
-- The pre-messages in the patterns of src/params/patterns.rs: static keys only, whatever the modifiers.
use screech.Base.{
  ℕ, zero, suc, ◌<◌, ◌≡◌, refl, ap, ◌∙◌, Bool, true, false, List, [], ◌∷◌, length, arith,
}
use screech.Outcome.{ok, Result-cases}
use screech.Base.{inl, inr}
use screech.Params.Modifier.{HandshakeModifier, HandshakeChoice, psk, fallback}
use screech.Params.Pattern.{HandshakePattern}
use screech.Params.Table.{Token, Patterns, base_patterns, deferred_patterns}
use screech.Params.Tokens.{
  HandshakeTokens, apply_psk_modifier, apply_modifiers, try_from, tokens_of,
}
use screech.Params.PskPosition.{try_from-length}

abbrev pub only_static : List Token → Bool
only_static [] = true
only_static (Token.s ∷ ts) = only_static ts
only_static (Token.e ∷ ts) = false
only_static (Token.psk _ ∷ ts) = false
only_static (Token.dh _ ∷ ts) = false

base_premessages :
    (p : HandshakePattern)
    → (only_static (base_patterns p).0 ≡ true) × (only_static (base_patterns p).1 ≡ true)
unfolding base_patterns deferred_patterns
base_premessages HandshakePattern.n = (refl, refl)
base_premessages _ = (refl, refl)

base-nonempty : (p : HandshakePattern) → 0 < length (base_patterns p).2
unfolding base_patterns deferred_patterns
base-nonempty HandshakePattern.n = omega arith
base-nonempty _ = omega arith

psk_keeps :
    (p : Patterns) (n : ℕ) {q : Patterns}
    → apply_psk_modifier p n ≡ ok q
    → (q.0 ≡ p.0) × (q.1 ≡ p.1)
unfolding apply_psk_modifier
psk_keeps p zero applied = ground (arith, applied)
psk_keeps p (suc n) applied = ground (arith, applied)

modifiers_keep :
    (ms : List HandshakeModifier) (p : Patterns) {q : Patterns}
    → apply_modifiers ms p ≡ ok q
    → (q.0 ≡ p.0) × (q.1 ≡ p.1)
unfolding apply_modifiers
modifiers_keep [] p applied = ground (arith, applied)
modifiers_keep (psk n ∷ ms) p {q} applied = elim (Result-cases (apply_psk_modifier p n)) [
  | inl (p', e) ↦
      let (i, r) = psk_keeps p n e in
      let (i', r') = modifiers_keep ms p' {q = q} (cc (applied, e)) in (i' ∙ i, r' ∙ r)
  | inr (inl (_, e)) ↦ cc (applied, e)
  | inr (inr e) ↦ cc (applied, e)
]
modifiers_keep (fallback ∷ ms) p applied = cc applied

pub try_from-only_static :
    (choice : HandshakeChoice) {tokens : HandshakeTokens}
    → try_from choice ≡ ok tokens
    → (only_static tokens.premsg_pattern_i ≡ true) × (only_static tokens.premsg_pattern_r ≡ true)
unfolding try_from
try_from-only_static choice {tokens} found =
    let p = base_patterns choice.pattern in
    let (pi, pr) = base_premessages choice.pattern in
    elim (Result-cases (apply_modifiers choice.modifiers.list p)) [
      | inl (q, e) ↦
          let same : tokens ≡ tokens_of q = cc (found, e) in
          let (i, r) = modifiers_keep choice.modifiers.list p e in
          (
            ap (λ t. only_static t.premsg_pattern_i) same ∙ ap only_static i ∙ pi,
            ap (λ t. only_static t.premsg_pattern_r) same ∙ ap only_static r ∙ pr,
          )
      | inr (inl (_, e)) ↦ cc (found, e)
      | inr (inr e) ↦ cc (found, e)
    ]

pub try_from-nonempty :
    (choice : HandshakeChoice) {tokens : HandshakeTokens}
    → try_from choice ≡ ok tokens
    → 0 < length tokens.msg_patterns
try_from-nonempty choice found =
    omega (arith, try_from-length choice found, base-nonempty choice.pattern)
