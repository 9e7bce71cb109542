-- ===== src/Params/RoundTrip/Choice.antt =====
-- A handshake choice, printed and parsed back (src/params/patterns.rs).
use screech.Base.{
  ◌<◌, ◌≡◌, ◌≢◌, refl, sym, true, false, List, [], ◌∷◌, ◌++◌, append-nil, Bytes, codes, not, any,
  arith,
}
use screech.Outcome.{ok}
use screech.Params.Pattern.{as_str}
use screech.Params.Modifier.{
  HandshakeModifier, psk, fallback, HandshakeChoice, split, parse_modifier, parse_modifiers,
  parse_modifier_list, parse_choice,
}
use screech.Params.RoundTrip.Numbers.{decimal, parse_u8-decimal, decimal_plain, is_separator}
use screech.Params.RoundTrip.Split.{holds, split-single, split-append}
use screech.Params.RoundTrip.Prefix.{IsTail, parse_pattern_and_modifier-append}

unfoldable pub show_modifier : HandshakeModifier → Bytes
show_modifier (psk n) = codes "psk" ++ decimal n
show_modifier fallback = codes "fallback"

-- The modifiers, with `+` between them.
unfoldable pub show_modifiers : List HandshakeModifier → Bytes
show_modifiers [] = []
show_modifiers (m ∷ []) = show_modifier m
show_modifiers (m ∷ n ∷ ms) = show_modifier m ++ b'+' ∷ show_modifiers (n ∷ ms)

unfoldable pub show_choice : HandshakeChoice → Bytes
show_choice c = as_str c.pattern ++ show_modifiers c.modifiers.list

-- Every PSK number fits a byte.
abbrev pub AreBytes : List HandshakeModifier → Type 0
AreBytes [] = Unit
AreBytes (psk n ∷ ms) = (n < 256) × AreBytes ms
AreBytes (fallback ∷ ms) = AreBytes ms

abbrev pub IsByte : HandshakeModifier → Type 0
IsByte (psk n) = n < 256
IsByte fallback = Unit

pub head_IsByte :
    (m : HandshakeModifier) (ms : List HandshakeModifier) → AreBytes (m ∷ ms) → IsByte m
head_IsByte (psk n) ms h = h.0
head_IsByte fallback ms h = tt

pub tail_AreBytes :
    (m : HandshakeModifier) (ms : List HandshakeModifier) → AreBytes (m ∷ ms) → AreBytes ms
tail_AreBytes (psk n) ms h = h.1
tail_AreBytes fallback ms h = h

pub parse_show_modifier :
    (m : HandshakeModifier) → IsByte m → parse_modifier (show_modifier m) ≡ ok m
unfolding parse_modifier show_modifier
parse_show_modifier (psk n) h = rw (parse_u8-decimal n h)
parse_show_modifier fallback h = refl

pub not_plus : (xs : Bytes) → not (any is_separator xs) ≡ true → holds b'+' xs ≡ false
not_plus [] h = refl
not_plus (x ∷ xs) h = ground (arith, not_plus xs)

pub show_no_plus : (m : HandshakeModifier) → IsByte m → holds b'+' (show_modifier m) ≡ false
unfolding show_modifier
show_no_plus (psk n) h = not_plus (decimal n) (decimal_plain n h)
show_no_plus fallback h = refl

pub parse_modifiers-cons :
    (name : Bytes) (names : List Bytes) (m : HandshakeModifier) (ms : List HandshakeModifier)
    → parse_modifier name ≡ ok m
    → parse_modifiers names ≡ ok ms
    → parse_modifiers (name ∷ names) ≡ ok (m ∷ ms)
unfolding parse_modifiers
parse_modifiers-cons name names m ms h hs = rw (h, hs)

pub parse_show_modifiers :
    (m : HandshakeModifier) (ms : List HandshakeModifier)
    → AreBytes (m ∷ ms)
    → parse_modifiers (split b'+' (show_modifiers (m ∷ ms))) ≡ ok (m ∷ ms)
unfolding show_modifiers
parse_show_modifiers m [] h =
    let here = head_IsByte m [] h in
    rw (split-single b'+' (show_modifier m) (show_no_plus m here))
      (parse_modifiers-cons _ [] m [] (parse_show_modifier m here) (unfold parse_modifiers in refl))
parse_show_modifiers m (n ∷ ms) h =
    let here = head_IsByte m (n ∷ ms) h in
    rw (split-append b'+' (show_modifier m) (show_modifiers (n ∷ ms)) (show_no_plus m here)) (
      parse_modifiers-cons _ _ m (n ∷ ms) (parse_show_modifier m here)
        (parse_show_modifiers n ms (tail_AreBytes m (n ∷ ms) h)))

-- A printed list of modifiers begins with a small letter, if it is not empty.
pub show_first : (m : HandshakeModifier) (rest : Bytes) → IsTail (show_modifier m ++ rest)
unfolding show_modifier
show_first (psk n) rest = refl
show_first fallback rest = refl

pub show_IsTail : (ms : List HandshakeModifier) → IsTail (show_modifiers ms)
unfolding show_modifiers
show_IsTail [] = tt
show_IsTail (m ∷ []) = rw (sym (append-nil (show_modifier m))) (show_first m [])
show_IsTail (m ∷ n ∷ ms) = show_first m _

pub empty_name :
    (m : HandshakeModifier) (ms : List HandshakeModifier)
    → parse_modifiers (split b'+' []) ≢ ok (m ∷ ms)
unfolding parse_modifiers split
empty_name m ms h = cc

pub parse_list_nonempty :
    (s : Bytes) (m : HandshakeModifier) (ms : List HandshakeModifier)
    → parse_modifiers (split b'+' s) ≡ ok (m ∷ ms)
    → parse_modifier_list s ≡ ok (record { list = m ∷ ms })
unfolding parse_modifier_list
parse_list_nonempty [] m ms h = absurd (empty_name m ms h)
parse_list_nonempty (c ∷ s) m ms h = rw h

pub parse_show_list :
    (ms : List HandshakeModifier)
    → AreBytes ms
    → parse_modifier_list (show_modifiers ms) ≡ ok (record { list = ms })
parse_show_list [] h = unfold parse_modifier_list show_modifiers in refl
parse_show_list (m ∷ ms) h = parse_list_nonempty _ m ms (parse_show_modifiers m ms h)

-- A handshake choice whose PSK numbers fit a byte is parsed back from its printed name: the longest
-- prefix that is a pattern's name is that name, and the modifiers come back in their order.
pub parse_choice-show :
    (c : HandshakeChoice) → AreBytes c.modifiers.list → parse_choice (show_choice c) ≡ ok c
unfolding parse_choice show_choice
parse_choice-show c h = rw (
  parse_pattern_and_modifier-append c.pattern (show_modifiers c.modifiers.list)
      (show_IsTail c.modifiers.list),
  parse_show_list c.modifiers.list h,
)
