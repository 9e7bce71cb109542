-- ===== src/Params/Modifier.antt =====
-- `HandshakeModifier`, `HandshakeModifierList` and `HandshakeChoice` of src/params/patterns.rs, with
-- their parsers, in a build without the `hfs` feature. A `&str` is the list of its UTF-8 bytes.
use screech.Base.{
  ℕ, ◌+◌, ◌-◌, ◌*◌, Bool, true, false, Option, none, some, List, [], ◌∷◌, ◌&&◌, ◌||◌, Bytes, codes,
  bytes_eq, length, take, drop, any, get_elem?, ◌==◌, leb, ltb, if◌then◌else◌,
}
use screech.Error.{pattern_error, invalid_psk, unsupported_modifier, unsupported_handshake_type}
use screech.Outcome.{Outcome, ok, err, panic, ◌>>=◌, ok_or}
use screech.Params.Pattern.{HandshakePattern, parse_pattern}

pub data HandshakeModifier : Type 0 where
  psk : ℕ → HandshakeModifier
  fallback : HandshakeModifier

pub record HandshakeModifierList : Type 0 where
  pub list : List HandshakeModifier

pub record HandshakeChoice : Type 0 where
  pub pattern : HandshakePattern
  pub modifiers : HandshakeModifierList

-- `str::split(sep)`
unfoldable pub cons_head : ℕ → List Bytes → List Bytes
cons_head c [] = (c ∷ []) ∷ []
cons_head c (s ∷ rest) = (c ∷ s) ∷ rest

unfoldable pub split : ℕ → Bytes → List Bytes
unfolding cons_head
split sep [] = [] ∷ []
split sep (c ∷ s) = let rest = split sep s in if c == sep then [] ∷ rest else cons_head c rest

-- `str::parse::<u8>`: decimal digits, behind an optional `+`, of a value that a byte holds.
unfoldable pub u8_digits : ℕ → Bytes → Option ℕ
u8_digits acc [] = some acc
u8_digits acc (c ∷ s) =
    let acc' = acc * 10 + (c - 48) in
    let rest = u8_digits acc' s in if leb 48 c && leb c 57 && leb acc' 255 then rest else none

unfoldable pub parse_u8 : Bytes → Option ℕ
unfolding u8_digits
parse_u8 [] = none
parse_u8 (c ∷ []) = u8_digits 0 (c ∷ [])
parse_u8 (c ∷ d ∷ s) = if c == b'+' then u8_digits 0 (d ∷ s) else u8_digits 0 (c ∷ d ∷ s)

-- `HandshakeModifier::from_str`
unfoldable pub parse_modifier : Bytes → Outcome HandshakeModifier
unfolding parse_u8
parse_modifier s =
    if bytes_eq (take 3 s) (codes "psk")
    then (do n ← ok_or (parse_u8 (drop 3 s)) (pattern_error invalid_psk); ok (psk n))
    else if bytes_eq s (codes "fallback")
    then ok fallback
    else err (pattern_error unsupported_modifier)

-- The loop over `modifier_names`, which stops at the first name that does not parse.
unfoldable pub parse_modifiers : List Bytes → Outcome (List HandshakeModifier)
unfolding parse_modifier
parse_modifiers [] = ok []
parse_modifiers (name ∷ names) = do m ← parse_modifier name; ms ← parse_modifiers names; ok (m ∷ ms)

-- `HandshakeModifierList::from_str`
unfoldable pub parse_modifier_list : Bytes → Outcome HandshakeModifierList
parse_modifier_list [] = ok (record { list = [] })
parse_modifier_list (c ∷ s) = do
  ms ← parse_modifiers (split b'+' (c ∷ s))
  ok (record { list = ms })

-- `HandshakeChoice::is_psk` and `is_fallback`
abbrev pub is_psk_modifier : HandshakeModifier → Bool
is_psk_modifier (psk _) = true
is_psk_modifier fallback = false

abbrev pub is_fallback_modifier : HandshakeModifier → Bool
is_fallback_modifier (psk _) = false
is_fallback_modifier fallback = true

unfoldable pub is_psk : HandshakeChoice → Bool
is_psk choice = any is_psk_modifier choice.modifiers.list

unfoldable pub is_fallback : HandshakeChoice → Bool
is_fallback choice = any is_fallback_modifier choice.modifiers.list

-- `str::is_char_boundary`: a UTF-8 continuation byte is 0x80 to 0xbf.
abbrev pub starts_char : Option ℕ → Bool
starts_char none = false
starts_char (some b) = ltb b 0x80 || leb 0xc0 b

unfoldable pub is_char_boundary : Bytes → ℕ → Bool
is_char_boundary s i = i == 0 || i == length s || starts_char (get_elem? s i)

-- One round of the loop in `parse_pattern_and_modifier`: `none` where the round falls through.
abbrev pub if_ok : Outcome HandshakePattern → Bytes → Option (HandshakePattern × Bytes)
if_ok (ok p) rest = some (p, rest)
if_ok (err _) rest = none
if_ok panic rest = none

unfoldable pub try_prefix : Bytes → ℕ → Option (HandshakePattern × Bytes)
unfolding is_char_boundary parse_pattern
try_prefix s i =
    if ltb (i - 1) (length s) && is_char_boundary s i
    then if_ok (parse_pattern (take i s)) (drop i s)
    else none

unfoldable pub first_prefix : Bytes → List ℕ → Option (HandshakePattern × Bytes)
unfolding try_prefix
first_prefix s [] = none
first_prefix s (i ∷ is) = elim (try_prefix s i) [ some r ↦ some r | none ↦ first_prefix s is ]

unfoldable pub parse_pattern_and_modifier : Bytes → Outcome (HandshakePattern × Bytes)
unfolding first_prefix
parse_pattern_and_modifier s =
    ok_or (first_prefix s (4 ∷ 3 ∷ 2 ∷ 1 ∷ [])) (pattern_error unsupported_handshake_type)

-- `HandshakeChoice::from_str`
abbrev pub choice_of : HandshakePattern × Bytes → Outcome HandshakeChoice
choice_of (p, remainder) = do
  ms ← parse_modifier_list remainder
  ok (record { pattern = p; modifiers = ms })

unfoldable pub parse_choice : Bytes → Outcome HandshakeChoice
parse_choice s = parse_pattern_and_modifier s >>= choice_of
