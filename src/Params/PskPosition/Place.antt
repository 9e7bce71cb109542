-- ===== src/Params/PskPosition/Place.antt =====
-- The messages with the PSK tokens in their places, and how one more token changes them.
use screech.Base.{
  ℕ, zero, suc, ◌<◌, ◌≤◌, ◌+◌, ◌≡◌, refl, ap, List, [], ◌∷◌, ◌++◌, append-nil, append_assoc, length,
  ◌==◌, if◌then◌else◌, arith,
}
use screech.Outcome.{ok, panic}
use screech.Params.Table.{Token, MessagePatterns}
use screech.Params.Tokens.{change_at}

-- As many tokens as `n` stands in the list.
pub psks_at : ℕ → List ℕ → List Token
psks_at n [] = []
psks_at n (m ∷ ms) = let rest = psks_at n ms in if m == n then Token.psk n ∷ rest else rest

-- The messages from number `j` on (the first is 1), each with its tokens behind it.
pub trail : List ℕ → ℕ → MessagePatterns → MessagePatterns
trail ns j [] = []
trail ns j (m ∷ msgs) = (m ++ psks_at j ns) ∷ trail ns (suc j) msgs

-- The tokens of number 0 stand before the first message, those of number `j` behind message `j`.
pub place : List ℕ → MessagePatterns → MessagePatterns
place ns [] = []
place ns (m ∷ msgs) = (psks_at 0 ns ++ (m ++ psks_at 1 ns)) ∷ trail ns 2 msgs

abbrev pub modify : MessagePatterns → ℕ → (List Token → List Token) → MessagePatterns
modify [] n f = []
modify (m ∷ msgs) zero f = f m ∷ msgs
modify (m ∷ msgs) (suc n) f = m ∷ modify msgs n f

pub length-modify :
    (msgs : MessagePatterns) (n : ℕ) (f : List Token → List Token)
    → length (modify msgs n f) ≡ length msgs
length-modify [] n f = refl
length-modify (m ∷ msgs) zero f = refl
length-modify (m ∷ msgs) (suc n) f = ap suc (length-modify msgs n f)

pub change_in :
    (msgs : MessagePatterns) (n : ℕ) (f : List Token → List Token)
    → n < length msgs
    → change_at msgs n f ≡ ok (modify msgs n f)
change_in [] n f h = elim h [ ]
change_in (m ∷ msgs) zero f h = refl
change_in (m ∷ msgs) (suc n) f h = ground (arith, change_in msgs n f)

pub change_out :
    (msgs : MessagePatterns) (n : ℕ) (f : List Token → List Token)
    → length msgs ≤ n
    → change_at msgs n f ≡ panic
change_out [] n f h = refl
change_out (m ∷ msgs) zero f h = absurd (omega arith)
change_out (m ∷ msgs) (suc n) f h = ground (arith, change_out msgs n f)

trail-nil : (j : ℕ) (msgs : MessagePatterns) → trail [] j msgs ≡ msgs
unfolding trail psks_at
trail-nil j [] = refl
trail-nil j (m ∷ msgs) = rw (append-nil m, trail-nil (suc j) msgs)

pub place-nil : (msgs : MessagePatterns) → place [] msgs ≡ msgs
unfolding place psks_at
place-nil [] = refl
place-nil (m ∷ msgs) = rw (append-nil m, trail-nil 2 msgs)

-- A number below `j` has no place from `j` on.
trail-other :
    (k j : ℕ) (ns : List ℕ) (msgs : MessagePatterns)
    → k < j
    → trail (k ∷ ns) j msgs ≡ trail ns j msgs
unfolding trail psks_at
trail-other k j ns [] h = refl
trail-other k j ns (m ∷ msgs) h = ground (arith, trail-other k (suc j) ns msgs)

psks_at-cons : (k n : ℕ) (ns : List ℕ) → k ≡ n → psks_at n (k ∷ ns) ≡ Token.psk k ∷ psks_at n ns
unfolding psks_at
psks_at-cons k n ns e = ground arith

psks_at-cons_ne : (k n : ℕ) (ns : List ℕ) → n < k → psks_at n (k ∷ ns) ≡ psks_at n ns
unfolding psks_at
psks_at-cons_ne k n ns h = ground arith

psks_at-cons_lt : (k n : ℕ) (ns : List ℕ) → k < n → psks_at n (k ∷ ns) ≡ psks_at n ns
unfolding psks_at
psks_at-cons_lt k n ns h = ground arith

psks_at_comm :
    (n : ℕ) (ns : List ℕ) (xs : List Token)
    → psks_at n ns ++ Token.psk n ∷ xs ≡ Token.psk n ∷ (psks_at n ns ++ xs)
unfolding psks_at
psks_at_comm n [] xs = refl
psks_at_comm n (m ∷ ns) xs = ground (arith, psks_at_comm n ns xs)

trail-psk :
    (k n j : ℕ) (ns : List ℕ) (msgs : MessagePatterns)
    → k ≡ n + j
    → trail ns j (modify msgs n (λ m. m ++ Token.psk k ∷ [])) ≡ trail (k ∷ ns) j msgs
unfolding trail
trail-psk k n j ns [] e = refl
trail-psk k zero j ns (m ∷ msgs) e = cc (
  append_assoc m (Token.psk k ∷ []) (psks_at j ns),
  psks_at-cons k j ns (omega arith),
  trail-other k (suc j) ns msgs (omega arith),
)
trail-psk k (suc n) j ns (m ∷ msgs) e =
    cc (psks_at-cons_ne k j ns (omega arith), trail-psk k n (suc j) ns msgs (omega arith))

pub place-psk-zero :
    (ns : List ℕ) (m : List Token) (msgs : MessagePatterns)
    → place ns ((Token.psk 0 ∷ m) ∷ msgs) ≡ place (0 ∷ ns) (m ∷ msgs)
unfolding place
place-psk-zero ns m msgs = cc (
  psks_at_comm 0 ns (m ++ psks_at 1 ns),
  psks_at-cons 0 0 ns refl,
  psks_at-cons_lt 0 1 ns (omega arith),
  trail-other 0 2 ns msgs (omega arith),
)

pub place-psk-suc :
    (n : ℕ) (ns : List ℕ) (msgs : MessagePatterns)
    → place ns (modify msgs n (λ m. m ++ Token.psk (suc n) ∷ [])) ≡ place (suc n ∷ ns) msgs
unfolding place
place-psk-suc n ns [] = refl
place-psk-suc zero ns (m ∷ msgs) = cc (
  append_assoc m (Token.psk 1 ∷ []) (psks_at 1 ns),
  psks_at-cons 1 1 ns refl,
  psks_at-cons_ne 1 0 ns (omega arith),
  trail-other 1 2 ns msgs (omega arith),
)
place-psk-suc (suc n) ns (m ∷ msgs) = cc (
  psks_at-cons_ne (suc (suc n)) 0 ns (omega arith),
  psks_at-cons_ne (suc (suc n)) 1 ns (omega arith),
  trail-psk (suc (suc n)) n 2 ns msgs (omega arith),
)

length-trail :
    (ns : List ℕ) (j : ℕ) (msgs : MessagePatterns) → length (trail ns j msgs) ≡ length msgs
unfolding trail
length-trail ns j [] = refl
length-trail ns j (m ∷ msgs) = ap suc (length-trail ns (suc j) msgs)

pub length-place : (ns : List ℕ) (msgs : MessagePatterns) → length (place ns msgs) ≡ length msgs
unfolding place
length-place ns [] = refl
length-place ns (m ∷ msgs) = ap suc (length-trail ns 2 msgs)
