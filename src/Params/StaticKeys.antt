-- ===== src/Params/StaticKeys.antt =====
-- What the tables of src/params/patterns.rs say of static keys, compared with one another.
use screech.Base.{◌≡◌, refl, Bool, true, false, [], ◌∷◌, ◌||◌, ◌==◌, any, length}
use screech.Params.Pattern.{
  HandshakePattern, is_oneway, needs_local_static_key, need_known_remote_pubkey,
}
use screech.Params.Table.{Token, MessagePatterns, base_patterns}

abbrev is_static : Token → Bool
is_static Token.e = false
is_static Token.s = true
is_static (Token.dh _) = false
is_static (Token.psk _) = false

-- Whether the side whose turn it is first (`mine`) or the other side sends its static key.
pub sends_static : Bool → MessagePatterns → Bool
sends_static mine [] = false
sends_static true (msg ∷ msgs) = any is_static msg || sends_static false msgs
sends_static false (msg ∷ msgs) = sends_static true msgs

-- The side has a static key in the pattern: it is known beforehand or sent in a message of its own.
pub uses_static : HandshakePattern → Bool → Bool
unfolding sends_static base_patterns
uses_static p true = let (i, _, msgs) = base_patterns p in any is_static i || sends_static true msgs
uses_static p false =
    let (_, r, msgs) = base_patterns p in any is_static r || sends_static false msgs

-- The pre-message of the other side holds its static key.
pub remote_known : HandshakePattern → Bool → Bool
unfolding base_patterns
remote_known p true = let (_, r, _) = base_patterns p in any is_static r
remote_known p false = let (i, _, _) = base_patterns p in any is_static i

-- For every pattern and both roles, the builder asks for a local static key exactly when the
-- side's static key stands in its pre-message or in a message that it sends, and for the remote
-- public key exactly when the other side's pre-message holds it; the one-way patterns are those of
-- one message.
pub StaticKeys_agree :
    (p : HandshakePattern) (initiator : Bool)
    → (needs_local_static_key p initiator ≡ uses_static p initiator)
      × (need_known_remote_pubkey p initiator ≡ remote_known p initiator)
      × (is_oneway p ≡ (length (base_patterns p).2 == 1))
unfolding needs_local_static_key need_known_remote_pubkey is_oneway uses_static remote_known
    base_patterns
StaticKeys_agree HandshakePattern.n true = (refl, refl, refl)
StaticKeys_agree HandshakePattern.n false = (refl, refl, refl)
StaticKeys_agree _ true = (refl, refl, refl)
StaticKeys_agree _ false = (refl, refl, refl)
