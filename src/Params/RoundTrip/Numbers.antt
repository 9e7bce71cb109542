-- ===== src/Params/RoundTrip/Numbers.antt =====
-- PSK numbers in decimal, and their parser.
use native.Mathlib.Decide.{dec_le}
use screech.Base.{
  ℕ, zero, suc, ◌+◌, ◌/◌, ◌%◌, ◌≤◌, ◌<◌, ◌≡◌, refl, Bool, true, false, Option, none, some, [], ◌∷◌,
  Bytes, ltb, ◌==◌, if◌then◌else◌, any, not, arith,
}
use screech.Params.Modifier.{parse_u8}

-- The decimal digits of a number below 1000.
pub decimal : ℕ → Bytes
decimal n =
    if ltb n 10
    then (48 + n) ∷ []
    else if ltb n 100
    then (48 + n / 10) ∷ (48 + n % 10) ∷ []
    else (48 + n / 100) ∷ (48 + n / 10 % 10) ∷ (48 + n % 10) ∷ []

-- The test holds of `count` numbers from `start` on, found by evaluation.
every : (ℕ → Bool) → ℕ → ℕ → Bool
every test start zero = true
every test start (suc count) = if test start then every test (start + 1) count else false

tested :
    (test : ℕ → Bool) (start count n : ℕ)
    → start ≤ n
    → n < start + count
    → every test start count ≡ true
    → test n ≡ true
unfolding every
tested test start zero n low high checked = absurd (omega arith)
tested test start (suc count) n low high checked = elim (dec_le (start + 1) n) [
  | yes later ↦ tested test (start + 1) count n later (omega arith) (ground (arith, checked))
  | no here ↦ let same : n ≡ start = omega arith in ground (arith, checked, same)
]

abbrev is_some_of : ℕ → Option ℕ → Bool
is_some_of n none = false
is_some_of n (some m) = m == n

is_some_of_sound : (n : ℕ) (o : Option ℕ) → is_some_of n o ≡ true → o ≡ some n
is_some_of_sound n none h = cc
is_some_of_sound n (some m) h = ground arith

parse_table : every (λ n. is_some_of n (parse_u8 (decimal n))) 0 256 ≡ true
unfolding every parse_u8 decimal
parse_table = refl

pub parse_u8-decimal : (n : ℕ) → n < 256 → parse_u8 (decimal n) ≡ some n
parse_u8-decimal n h =
    is_some_of_sound n (parse_u8 (decimal n)) (tested _ 0 256 n (omega arith) h parse_table)

abbrev pub is_separator : ℕ → Bool
is_separator c = if c == b'+' then true else c == b'_'

decimal_table : every (λ n. not (any is_separator (decimal n))) 0 256 ≡ true
unfolding every decimal
decimal_table = refl

pub decimal_plain : (n : ℕ) → n < 256 → not (any is_separator (decimal n)) ≡ true
decimal_plain n h = tested _ 0 256 n (omega arith) h decimal_table
