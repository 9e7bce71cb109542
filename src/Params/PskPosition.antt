-- ===== src/Params/PskPosition.antt =====
-- Where `apply_psk_modifier` puts the PSK tokens (src/params/patterns.rs), for every pattern and
-- every list of modifiers.
mod Place
use screech.Base.{
  ℕ, zero, suc, ◌<◌, ◌+◌, ◌≡◌, refl, ap, sym, ◌∙◌, Bool, true, false, List, [], ◌∷◌, ◌++◌, length,
  leb, if◌then◌else◌, le→leb, arith, inl, inr, Bool-cases,
}
use screech.Error.{pattern_error, unsupported_modifier}
use screech.Outcome.{Outcome, ok, err, panic, ◌>>=◌}
use screech.Params.Modifier.{HandshakeModifier, psk, fallback, HandshakeChoice}
use screech.Params.Pattern.{HandshakePattern}
use screech.Params.Table.{Token, MessagePatterns, base_patterns}
use screech.Params.Tokens.{
  HandshakeTokens, tokens_of, apply_psk_modifier, apply_modifiers, try_from,
}
use Place.{modify, length-modify, change_in, change_out}
pub use Place.{psks_at, trail, place}
use Place.{length-place, place-nil, place-psk-zero, place-psk-suc}

pub data Verdict : Type 0 where
  fits unsupported out_of_range : Verdict

-- The first modifier that is refused, for a pattern of so many messages.
pub verdict : ℕ → List HandshakeModifier → Verdict
verdict count [] = fits
verdict count (fallback ∷ ms) = unsupported
verdict count (psk n ∷ ms) = if leb n count then verdict count ms else out_of_range

pub psk_numbers : List HandshakeModifier → List ℕ
psk_numbers [] = []
psk_numbers (fallback ∷ ms) = psk_numbers ms
psk_numbers (psk n ∷ ms) = n ∷ psk_numbers ms

abbrev pub expected {ℓ} : {A : Type ℓ} → Verdict → A → Outcome A
expected fits a = ok a
expected unsupported a = err (pattern_error unsupported_modifier)
expected out_of_range a = panic

module _ (i r : List Token) where
  apply_modifiers_lem :
      (ms : List HandshakeModifier) (msgs : MessagePatterns)
      → 0 < length msgs
      → apply_modifiers ms (i, r, msgs)
        ≡ expected (verdict (length msgs) ms) (i, r, place (psk_numbers ms) msgs)
  unfolding apply_modifiers verdict psk_numbers
  apply_modifiers_lem [] msgs h = rw (place-nil msgs)
  apply_modifiers_lem (fallback ∷ ms) msgs h = refl
  apply_modifiers_lem (psk zero ∷ ms) [] h = elim h [ ]
  apply_modifiers_lem (psk zero ∷ ms) (m ∷ msgs) h =
      rw (le→leb 0 (suc (length msgs)) (omega arith)) (
        apply_modifiers_lem ms ((Token.psk 0 ∷ m) ∷ msgs) h
        ∙ rw (place-psk-zero (psk_numbers ms) m msgs))
  apply_modifiers_lem (psk (suc n) ∷ ms) msgs h = elim (Bool-cases (leb (suc n) (length msgs))) [
    | inl within ↦ rw (change_in msgs n (λ m. m ++ Token.psk (suc n) ∷ []) (ground arith)) (
        apply_modifiers_lem ms (modify msgs n (λ m. m ++ Token.psk (suc n) ∷ []))
          (ground (arith, length-modify msgs n (λ m. m ++ Token.psk (suc n) ∷ [])))
        ∙ rw (
          length-modify msgs n (λ m. m ++ Token.psk (suc n) ∷ []),
          place-psk-suc n (psk_numbers ms) msgs,
          within,
        ))
    | inr beyond ↦ rw (change_out msgs n (λ m. m ++ Token.psk (suc n) ∷ []) (ground arith), beyond)
  ]

base_nonempty : (p : HandshakePattern) → 0 < length (base_patterns p).2
unfolding base_patterns
base_nonempty HandshakePattern.n = omega arith
base_nonempty _ = omega arith

map_ok-expected {ℓ κ} :
    {A : Type ℓ} {B : Type κ} (f : A → B) (v : Verdict) (a : A)
    → (expected v a >>= λ x. ok (f x)) ≡ expected v (f a)
map_ok-expected f fits a = refl
map_ok-expected f _ a = refl

-- For every handshake choice, `try_from` goes by the first modifier that it refuses: on `fallback`
-- it returns the error for an unsupported modifier, on a PSK number above the number of messages it
-- panics. With none refused it returns the pattern's pre-messages, and its messages with a token
-- for each PSK modifier: those of number 0 before the first message, those of number n behind
-- message n.
pub try_from-eq-place :
    (choice : HandshakeChoice)
    → let (i, r, msgs) = base_patterns choice.pattern in
      let ms = choice.modifiers.list in
      try_from choice
      ≡ expected (verdict (length msgs) ms) (tokens_of (i, r, place (psk_numbers ms) msgs))
unfolding try_from
try_from-eq-place choice =
    let (i, r, msgs) = base_patterns choice.pattern in
    let ms = choice.modifiers.list in
    rw (apply_modifiers_lem i r ms msgs (base_nonempty choice.pattern))
      (map_ok-expected tokens_of (verdict (length msgs) ms) (i, r, place (psk_numbers ms) msgs))

expected-inv {ℓ} : {A : Type ℓ} (v : Verdict) (a : A) {b : A} → expected v a ≡ ok b → a ≡ b
expected-inv fits a e = cc
expected-inv unsupported a e = cc
expected-inv out_of_range a e = cc

-- The modifiers change no number of messages.
pub try_from-length :
    (choice : HandshakeChoice) {tokens : HandshakeTokens}
    → try_from choice ≡ ok tokens
    → length tokens.msg_patterns ≡ length (base_patterns choice.pattern).2
try_from-length choice made =
    let (i, r, msgs) = base_patterns choice.pattern in
    let ns = psk_numbers choice.modifiers.list in
    let same = expected-inv _ _ (sym (try_from-eq-place choice) ∙ made) in
    sym (ap (λ t. length t.msg_patterns) same) ∙ length-place ns msgs
