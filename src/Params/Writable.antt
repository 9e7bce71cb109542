-- ===== src/Params/Writable.antt =====
-- Which keys of its own and of the other side, and which PSKs, a writer needs for the tokens of
-- src/params/patterns.rs.
pub mod Modifiers
use screech.Base.{
  ℕ, ◌≡◌, refl, Bool, true, false, not, ◌&&◌, List, [], ◌∷◌, Option, none, some, Bytes, get_elem?,
  arith,
}
use screech.Params.Pattern.{HandshakePattern, needs_local_static_key, need_known_remote_pubkey}
use screech.Params.Table.{
  Token, DhToken, MessagePatterns, Patterns, base_patterns, deferred_patterns,
}
use screech.Params.Readable.{Known, is_known, received, received_all}
use screech.Params.Readable.More.{HasMore, known-HasMore, received_all-HasMore}

abbrev pub has_psk : List (Option Bytes) → ℕ → Bool
has_psk psks n = elim (get_elem? psks n) [ some (some psk) ↦ true | _ ↦ false ]

abbrev pub sent : Token → Known → Known
sent Token.e k = record k { ephemeral = true }
sent Token.s k = k
sent (Token.psk _) k = k
sent (Token.dh _) k = k

-- The writer, the initiator or not, has what the tokens ask of it: its static key, the PSKs, and for a
-- `Dh` token a key of its own, which is the one that the other side needs, and one of the other side.
unfoldable pub is_writable : Bool → Known → Known → List (Option Bytes) → List Token → Bool
is_writable initiator own known psks [] = true
is_writable initiator own known psks (Token.e ∷ ts) =
    is_writable initiator (sent Token.e own) known psks ts
is_writable initiator own known psks (Token.s ∷ ts) =
    own.static && is_writable initiator own known psks ts
is_writable initiator own known psks (Token.psk n ∷ ts) =
    has_psk psks n && is_writable initiator own known psks ts
is_writable initiator own known psks (Token.dh t ∷ ts) =
    is_known t (not initiator) own
    && (is_known t initiator known && is_writable initiator own known psks ts)

abbrev pub sent_all : List Token → Known → Known
sent_all [] k = k
sent_all (t ∷ ts) k = sent_all ts (sent t k)

-- The writer of each message, in turn, has what its tokens ask of it; with the keys of its own and of
-- the other side that the next writer and the next reader have.
unfoldable pub all_writable :
    Bool → Known → Known → Known → Known → List (Option Bytes) → MessagePatterns → Bool
all_writable initiator own known own' known' psks [] = true
all_writable initiator own known own' known' psks (ts ∷ msgs) =
    is_writable initiator own known psks ts
    && all_writable (not initiator) own' (received_all ts known') (sent_all ts own) known psks msgs

sent-HasMore : (t : Token) {a b : Known} → HasMore a b → HasMore (sent t a) (sent t b)
sent-HasMore Token.e h = record { static = h.static; ephemeral = λ _. refl }
sent-HasMore Token.s h = h
sent-HasMore (Token.psk n) h = h
sent-HasMore (Token.dh t) h = h

sent_all-HasMore :
    (ts : List Token) {a b : Known} → HasMore a b → HasMore (sent_all ts a) (sent_all ts b)
sent_all-HasMore [] h = h
sent_all-HasMore (t ∷ ts) h = sent_all-HasMore ts (sent-HasMore t h)

writable-HasMore :
    (i : Bool) (ts : List Token) (psks : List (Option Bytes)) (a b c d : Known)
    → HasMore a b
    → HasMore c d
    → is_writable i a c psks ts ≡ true
    → is_writable i b d psks ts ≡ true
unfolding is_writable
writable-HasMore i [] psks a b c d h k w = refl
writable-HasMore i (Token.e ∷ ts) psks a b c d h k w =
    writable-HasMore i ts psks (sent Token.e a) (sent Token.e b) c d (sent-HasMore Token.e h) k w
writable-HasMore i (Token.s ∷ ts) psks a b c d h k w =
    ground (arith, w, h.static, writable-HasMore i ts psks a b c d h k)
writable-HasMore i (Token.psk n ∷ ts) psks a b c d h k w =
    ground (arith, w, writable-HasMore i ts psks a b c d h k)
writable-HasMore i (Token.dh t ∷ ts) psks a b c d h k w = ground (
  arith,
  w,
  known-HasMore t (not i) a b h,
  known-HasMore t i c d k,
  writable-HasMore i ts psks a b c d h k,
)

pub all_writable-HasMore :
    (i : Bool) (msgs : MessagePatterns) (psks : List (Option Bytes)) (a b c d a' b' c' d' : Known)
    → HasMore a a'
    → HasMore b b'
    → HasMore c c'
    → HasMore d d'
    → all_writable i a b c d psks msgs ≡ true
    → all_writable i a' b' c' d' psks msgs ≡ true
unfolding all_writable
all_writable-HasMore i [] psks a b c d a' b' c' d' ha hb hc hd w = refl
all_writable-HasMore i (ts ∷ msgs) psks a b c d a' b' c' d' ha hb hc hd w = ground (
  arith,
  w,
  writable-HasMore i ts psks a a' b b' ha hb,
  all_writable-HasMore (not i) msgs psks c (received_all ts d) (sent_all ts a) b c'
      (received_all ts d') (sent_all ts a') b' hc (received_all-HasMore ts hd)
      (sent_all-HasMore ts ha) hb,
)

abbrev pub static_only : Bool → Known
static_only b = record { static = b; ephemeral = false }

-- From the keys that the builder asks for.
abbrev pub is_writable_pattern : HandshakePattern → List (Option Bytes) → MessagePatterns → Bool
is_writable_pattern p psks msgs =
    all_writable true (static_only (needs_local_static_key p true))
      (static_only (need_known_remote_pubkey p true)) (static_only (needs_local_static_key p false))
      (static_only (need_known_remote_pubkey p false)) psks msgs

pub base-writable :
    (p : HandshakePattern) (psks : List (Option Bytes))
    → is_writable_pattern p psks (base_patterns p).2 ≡ true
unfolding base_patterns deferred_patterns all_writable is_writable needs_local_static_key
    need_known_remote_pubkey
base-writable HandshakePattern.n psks = refl
base-writable _ psks = refl
