-- ===== src/Params/RoundTrip/Prefix.antt =====
-- `parse_pattern_and_modifier` on a pattern's name with a text behind it.
use screech.Base.{
  ℕ, zero, suc, ◌-◌, ◌≤◌, ◌<◌, ◌≡◌, refl, sym, ap, ◌∙◌, Bool, true, false, ◌&&◌, none, some, List,
  [], ◌∷◌, ◌++◌, Bytes, leb, ltb, any, length, take, drop, get_elem?, length-append,
  take-append_self, drop-append_self, lt→ltb, arith,
}
use screech.Outcome.{Outcome, ok, err, panic}
use screech.Params.Names.{parse_as_str, parse_pattern-eq-ok_iff}
use screech.Params.Pattern.{HandshakePattern, as_str, parse_pattern}
use screech.Params.Modifier.{
  if_ok, is_char_boundary, try_prefix, first_prefix, parse_pattern_and_modifier,
}

abbrev pub is_lower : ℕ → Bool
is_lower c = leb b'a' c && leb c b'z'

-- What may stand behind a pattern's name: nothing, or a text that begins with a small letter.
abbrev pub IsTail : Bytes → Type 0
IsTail [] = Unit
IsTail (c ∷ t) = is_lower c ≡ true

names_upper : (p : HandshakePattern) → any is_lower (as_str p) ≡ false
unfolding as_str
names_upper HandshakePattern.n = refl
names_upper _ = refl

not_a_name :
    (u rest : Bytes) (r : Outcome HandshakePattern)
    → parse_pattern u ≡ r
    → any is_lower u ≡ true
    → if_ok r rest ≡ none
not_a_name u rest (err e) h low = refl
not_a_name u rest panic h low = refl
not_a_name u rest (ok p) h low =
    let same : u ≡ as_str p = (parse_pattern-eq-ok_iff u p).0 h in
    cc (sym low ∙ ap (any is_lower) same ∙ names_upper p)

lower_in_take :
    (xs : Bytes) (c : ℕ) (t : Bytes) (i : ℕ)
    → length xs < i
    → is_lower c ≡ true
    → any is_lower (take i (xs ++ c ∷ t)) ≡ true
lower_in_take [] c t zero h low = elim h [ ]
lower_in_take [] c t (suc i) h low = ground (arith, low)
lower_in_take (x ∷ xs) c t zero h low = elim h [ ]
lower_in_take (x ∷ xs) c t (suc i) h low = ground (arith, lower_in_take xs c t i)

-- A longer prefix than the name is none.
skip : (xs t : Bytes) (i : ℕ) → length xs < i → IsTail t → try_prefix (xs ++ t) i ≡ none
unfolding try_prefix
skip xs [] i h tail = ground (arith, length-append xs [])
skip xs (c ∷ t) i h tail = ground (
  arith,
  not_a_name (take i (xs ++ c ∷ t)) (drop i (xs ++ c ∷ t)) _ refl (lower_in_take xs c t i h tail),
)

get_elem?-append : (xs : Bytes) (c : ℕ) (t : Bytes) → get_elem? (xs ++ c ∷ t) (length xs) ≡ some c
get_elem?-append [] c t = refl
get_elem?-append (x ∷ xs) c t = get_elem?-append xs c t

boundary : (xs t : Bytes) → IsTail t → is_char_boundary (xs ++ t) (length xs) ≡ true
unfolding is_char_boundary
boundary xs [] tail = ground (arith, length-append xs [])
boundary xs (c ∷ t) tail = ground (arith, get_elem?-append xs c t)

within : (xs t : Bytes) → 0 < length xs → ltb (length xs - 1) (length (xs ++ t)) ≡ true
within xs t h = lt→ltb _ _ (omega (arith, length-append xs t))

-- The name itself is found, with what stands behind it.
hit :
    (p : HandshakePattern) (t : Bytes)
    → 0 < length (as_str p)
    → IsTail t
    → try_prefix (as_str p ++ t) (length (as_str p)) ≡ some (p, t)
unfolding try_prefix
hit p t pos tail = rw (
  within (as_str p) t pos,
  boundary (as_str p) t tail,
  take-append_self (as_str p) t,
  drop-append_self (as_str p) t,
  parse_as_str p,
)

name_lengths : (p : HandshakePattern) → (1 ≤ length (as_str p)) × (length (as_str p) ≤ 4)
unfolding as_str
name_lengths HandshakePattern.n = omega arith
name_lengths _ = omega arith

miss :
    (s : Bytes) (i : ℕ) (is : List ℕ)
    → try_prefix s i ≡ none
    → first_prefix s (i ∷ is) ≡ first_prefix s is
unfolding first_prefix
miss s i is e = ground (arith, e)

found :
    (s : Bytes) (i : ℕ) (is : List ℕ) (r : HandshakePattern × Bytes)
    → try_prefix s i ≡ some r
    → first_prefix s (i ∷ is) ≡ some r
unfolding first_prefix
found s i is r e = ground (arith, e)

-- Prefixes are tried from the longest on: with none above `k`, the one of length `k` is found.
search_down :
    (s : Bytes) (k : ℕ) (r : HandshakePattern × Bytes)
    → 1 ≤ k
    → k ≤ 4
    → try_prefix s k ≡ some r
    → ((i : ℕ) → k < i → try_prefix s i ≡ none)
    → first_prefix s (4 ∷ 3 ∷ 2 ∷ 1 ∷ []) ≡ some r
search_down s zero r h h' e above = absurd (omega arith)
search_down s (suc zero) r h h' e above =
    miss s 4 _ (above 4 (omega arith))
    ∙ miss s 3 _ (above 3 (omega arith))
    ∙ miss s 2 _ (above 2 (omega arith))
    ∙ found s 1 _ r e
search_down s (suc (suc zero)) r h h' e above =
    miss s 4 _ (above 4 (omega arith)) ∙ miss s 3 _ (above 3 (omega arith)) ∙ found s 2 _ r e
search_down s (suc (suc (suc zero))) r h h' e above =
    miss s 4 _ (above 4 (omega arith)) ∙ found s 3 _ r e
search_down s (suc (suc (suc (suc zero)))) r h h' e above = found s 4 _ r e
search_down s (suc (suc (suc (suc (suc k))))) r h h' e above = absurd (omega arith)

pub parse_pattern_and_modifier-append :
    (p : HandshakePattern) (t : Bytes)
    → IsTail t
    → parse_pattern_and_modifier (as_str p ++ t) ≡ ok (p, t)
unfolding parse_pattern_and_modifier
parse_pattern_and_modifier-append p t tail =
    let (low, high) = name_lengths p in
    rw (
      search_down (as_str p ++ t) (length (as_str p)) (p, t) low high (hit p t low tail)
        (λ i h. skip (as_str p) t i h tail))
