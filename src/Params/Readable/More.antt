-- ===== src/Params/Readable/More.antt =====
-- A reader of src/params/patterns.rs' messages that has more keys needs no more.
use screech.Base.{◌≡◌, refl, Bool, true, false, not, List, [], ◌∷◌, arith}
use screech.Params.Table.{Token, DhToken, MessagePatterns, ee, es, se, ss}
use screech.Params.PreMessages.{only_static}
use screech.Params.Readable.{
  Known, is_known, received, received_all, is_readable, all_readable, unknown,
}

pub record HasMore (a b : Known) : Type 0 where
  pub static : a.static ≡ true → b.static ≡ true
  pub ephemeral : a.ephemeral ≡ true → b.ephemeral ≡ true

received-HasMore : (t : Token) {a b : Known} → HasMore a b → HasMore (received t a) (received t b)
received-HasMore Token.e h = record { static = h.static; ephemeral = λ _. refl }
received-HasMore Token.s h = record { static = λ _. refl; ephemeral = h.ephemeral }
received-HasMore (Token.psk n) h = h
received-HasMore (Token.dh t) h = h

pub received_all-HasMore :
    (ts : List Token) {a b : Known} → HasMore a b → HasMore (received_all ts a) (received_all ts b)
received_all-HasMore [] h = h
received_all-HasMore (t ∷ ts) h = received_all-HasMore ts (received-HasMore t h)

pub known-HasMore :
    (t : DhToken) (initiator : Bool) (a b : Known)
    → HasMore a b
    → is_known t initiator a ≡ true
    → is_known t initiator b ≡ true
known-HasMore ee _ a b h k = h.ephemeral k
known-HasMore ss _ a b h k = h.static k
known-HasMore se true a b h k = h.ephemeral k
known-HasMore se false a b h k = h.static k
known-HasMore es true a b h k = h.static k
known-HasMore es false a b h k = h.ephemeral k

readable-HasMore :
    (initiator : Bool) (ts : List Token) (a b : Known)
    → HasMore a b
    → is_readable initiator a ts ≡ true
    → is_readable initiator b ts ≡ true
unfolding is_readable
readable-HasMore i [] a b h r = refl
readable-HasMore i (Token.e ∷ ts) a b h r =
    readable-HasMore i ts (received Token.e a) (received Token.e b) (received-HasMore Token.e h) r
readable-HasMore i (Token.s ∷ ts) a b h r =
    readable-HasMore i ts (received Token.s a) (received Token.s b) (received-HasMore Token.s h) r
readable-HasMore i (Token.psk n ∷ ts) a b h r = readable-HasMore i ts a b h r
readable-HasMore i (Token.dh t ∷ ts) a b h r =
    ground (arith, r, known-HasMore t i a b h, readable-HasMore i ts a b h)

pub all_readable-HasMore :
    (initiator : Bool) (msgs : MessagePatterns) (reader writer reader' writer' : Known)
    → HasMore reader reader'
    → HasMore writer writer'
    → all_readable initiator reader writer msgs ≡ true
    → all_readable initiator reader' writer' msgs ≡ true
unfolding all_readable
all_readable-HasMore i [] a w a' w' h k r = refl
all_readable-HasMore i (ts ∷ msgs) a w a' w' h k r = ground (
  arith,
  r,
  readable-HasMore i ts a a' h,
  all_readable-HasMore (not i) msgs w (received_all ts a) w' (received_all ts a') k
      (received_all-HasMore ts h),
)

-- The keys of a pre-message of static keys.
abbrev pub has_static : List Token → Bool
has_static [] = false
has_static (t ∷ ts) = true

received-static :
    (ts : List Token)
    → only_static ts ≡ true
    → received_all ts (record { static = true; ephemeral = false })
      ≡ record { static = true; ephemeral = false }
received-static [] only = refl
received-static (Token.s ∷ ts) only = received-static ts only
received-static (Token.e ∷ ts) only = cc only
received-static (Token.psk n ∷ ts) only = cc only
received-static (Token.dh t ∷ ts) only = cc only

pub received-premsg :
    (ts : List Token)
    → only_static ts ≡ true
    → received_all ts unknown ≡ record { static = has_static ts; ephemeral = false }
received-premsg [] only = refl
received-premsg (Token.s ∷ ts) only = received-static ts only
received-premsg (Token.e ∷ ts) only = cc only
received-premsg (Token.psk n ∷ ts) only = cc only
received-premsg (Token.dh t ∷ ts) only = cc only
