-- ===== src/Params/Readable.antt =====
-- Which keys of the other side a reader needs for the tokens of src/params/patterns.rs, and that the
-- patterns send them before.
pub mod Modifiers
pub mod More
use screech.Base.{
  ℕ, zero, suc, ◌≡◌, refl, sym, ap, ◌∙◌, Bool, true, false, not, ◌&&◌, List, [], ◌∷◌, ◌++◌, Option,
  none, some, Option-cases, get_elem?, set, inl, inr, arith,
}
use screech.Params.Pattern
use screech.Params.Pattern.{HandshakePattern}
use screech.Params.Modifier.{HandshakeModifier, HandshakeChoice, psk, fallback}
use screech.Params.Table.{
  Token, DhToken, MessagePatterns, Patterns, base_patterns, deferred_patterns, ee, es, se, ss,
}
use screech.Params.Tokens.{
  HandshakeTokens, apply_psk_modifier, apply_modifiers, try_from, change_at, tokens_of,
}
use screech.Outcome.{ok, err, panic, ◌>>=◌, Result-cases}

-- Which keys of the other side are there: its static and its ephemeral key.
pub record Known : Type 0 where
  pub static : Bool
  pub ephemeral : Bool

-- Whether the key of the other side that a `Dh` token asks for is there, for the initiator and for
-- the responder.
abbrev pub is_known : DhToken → Bool → Known → Bool
is_known ee _ k = k.ephemeral
is_known ss _ k = k.static
is_known se true k = k.ephemeral
is_known se false k = k.static
is_known es true k = k.static
is_known es false k = k.ephemeral

abbrev pub received : Token → Known → Known
received Token.e k = record k { ephemeral = true }
received Token.s k = record k { static = true }
received (Token.psk _) k = k
received (Token.dh _) k = k

-- The reader of a message, the initiator or not, has the keys of the other side that it needs.
unfoldable pub is_readable : Bool → Known → List Token → Bool
is_readable initiator k [] = true
is_readable initiator k (Token.dh t ∷ ts) = is_known t initiator k && is_readable initiator k ts
is_readable initiator k (Token.psk n ∷ ts) = is_readable initiator k ts
is_readable initiator k (Token.e ∷ ts) = is_readable initiator (received Token.e k) ts
is_readable initiator k (Token.s ∷ ts) = is_readable initiator (received Token.s k) ts

abbrev pub received_all : List Token → Known → Known
received_all [] k = k
received_all (t ∷ ts) k = received_all ts (received t k)

-- All messages from here on, the next of which the initiator or the responder reads, with the keys
-- that its reader and its writer have.
unfoldable pub all_readable : Bool → Known → Known → MessagePatterns → Bool
all_readable initiator reader writer [] = true
all_readable initiator reader writer (ts ∷ rest) =
    is_readable initiator reader ts
    && all_readable (not initiator) writer (received_all ts reader) rest

abbrev pub unknown : Known
unknown = record { static = false; ephemeral = false }

abbrev pub is_readable_pattern : Patterns → Bool
is_readable_pattern (i, r, msgs) =
    all_readable false (received_all i unknown) (received_all r unknown) msgs

pub base-readable : (p : HandshakePattern) → is_readable_pattern (base_patterns p) ≡ true
unfolding base_patterns deferred_patterns all_readable is_readable
base-readable HandshakePattern.n = refl
base-readable HandshakePattern.x = refl
base-readable HandshakePattern.k = refl
base-readable HandshakePattern.nn = refl
base-readable HandshakePattern.nk = refl
base-readable HandshakePattern.nx = refl
base-readable HandshakePattern.xn = refl
base-readable HandshakePattern.xk = refl
base-readable HandshakePattern.xx = refl
base-readable HandshakePattern.kn = refl
base-readable HandshakePattern.kk = refl
base-readable HandshakePattern.kx = refl
base-readable HandshakePattern.i_n = refl
base-readable HandshakePattern.ik = refl
base-readable HandshakePattern.ix = refl
base-readable HandshakePattern.nk1 = refl
base-readable HandshakePattern.nx1 = refl
base-readable HandshakePattern.x1n = refl
base-readable HandshakePattern.x1k = refl
base-readable HandshakePattern.xk1 = refl
base-readable HandshakePattern.x1k1 = refl
base-readable HandshakePattern.x1x = refl
base-readable HandshakePattern.xx1 = refl
base-readable HandshakePattern.x1x1 = refl
base-readable HandshakePattern.k1n = refl
base-readable HandshakePattern.k1k = refl
base-readable HandshakePattern.kk1 = refl
base-readable HandshakePattern.k1k1 = refl
base-readable HandshakePattern.k1x = refl
base-readable HandshakePattern.kx1 = refl
base-readable HandshakePattern.k1x1 = refl
base-readable HandshakePattern.i1n = refl
base-readable HandshakePattern.i1k = refl
base-readable HandshakePattern.ik1 = refl
base-readable HandshakePattern.i1k1 = refl
base-readable HandshakePattern.i1x = refl
base-readable HandshakePattern.ix1 = refl
base-readable HandshakePattern.i1x1 = refl
