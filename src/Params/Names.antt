-- ===== src/Params/Names.antt =====
-- The names of the handshake patterns and their parser (src/params/patterns.rs, `pattern_enum!`).
use screech.Base.{
  ◌≡◌, refl, ap, ◌↔◌, ◌∙◌, Bool, true, Option, none, some, List, [], ◌∷◌, Bytes, bytes_eq,
  bytes_eq→≡, find, inl, inr, Bool-cases, arith,
}
use screech.Error.{Error}
use screech.Outcome.{ok, ok_or}
use screech.Params.Pattern.{HandshakePattern, as_str, parse_pattern, supported_handshake_patterns}

pub find_sound {ℓ} :
    {A : Type ℓ} (p : A → Bool) (xs : List A) {x : A} → find p xs ≡ some x → p x ≡ true
find_sound p [] h = cc
find_sound p (y ∷ xs) h = elim (Bool-cases (p y)) [
  | inl e ↦ ground (arith, e)
  | inr e ↦ find_sound p xs (ground (arith, e))
]

pub parse_as_str : (p : HandshakePattern) → parse_pattern (as_str p) ≡ ok p
unfolding parse_pattern
parse_as_str HandshakePattern.n = refl
parse_as_str _ = refl

ok_or_ok {ℓ} : {A : Type ℓ} (o : Option A) (e : Error) {a : A} → ok_or o e ≡ ok a → o ≡ some a
ok_or_ok none e h = cc
ok_or_ok (some b) e h = cc

-- A text parses as a handshake pattern exactly when it is the name of that pattern, whole and in
-- the spelling that `as_str` prints.
pub parse_pattern-eq-ok_iff :
    (s : Bytes) (p : HandshakePattern) → (parse_pattern s ≡ ok p) ↔ (s ≡ as_str p)
unfolding parse_pattern
parse_pattern-eq-ok_iff s p = (
  λ h.
      bytes_eq→≡ s (as_str p)
        (find_sound (λ q. bytes_eq s (as_str q)) supported_handshake_patterns (ok_or_ok _ _ h)),
  λ e. ap parse_pattern e ∙ parse_as_str p,
)
