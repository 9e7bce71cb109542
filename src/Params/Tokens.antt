-- ===== src/Params/Tokens.antt =====
-- `HandshakeTokens` (src/params/patterns.rs): the patterns of a handshake choice with its modifiers
-- applied, in a build without the `hfs` feature.
use screech.Base.{ℕ, zero, suc, none, some, List, [], ◌∷◌, ◌++◌, get_elem?, set}
use screech.Error.{pattern_error, unsupported_modifier}
use screech.Outcome.{Outcome, ok, err, panic, ◌>>=◌}
use screech.Params.Modifier.{HandshakeModifier, psk, fallback, HandshakeChoice}
use screech.Params.Table.{Token, MessagePatterns, Patterns, base_patterns}

pub record HandshakeTokens : Type 0 where
  pub premsg_pattern_i : List Token
  pub premsg_pattern_r : List Token
  pub msg_patterns : MessagePatterns

-- `patterns.2[i]`, which panics out of bounds, changed in place.
abbrev pub change_at : MessagePatterns → ℕ → (List Token → List Token) → Outcome MessagePatterns
change_at msgs i f = elim (get_elem? msgs i) [ none ↦ panic | some msg ↦ ok (set msgs i (f msg)) ]

unfoldable pub apply_psk_modifier : Patterns → ℕ → Outcome Patterns
apply_psk_modifier (i, r, msgs) zero = do
  msgs' ← change_at msgs 0 (λ msg. Token.psk 0 ∷ msg)
  ok (i, r, msgs')
apply_psk_modifier (i, r, msgs) (suc n) = do
  msgs' ← change_at msgs n (λ msg. msg ++ Token.psk (suc n) ∷ [])
  ok (i, r, msgs')

unfoldable pub apply_modifiers : List HandshakeModifier → Patterns → Outcome Patterns
unfolding apply_psk_modifier
apply_modifiers [] p = ok p
apply_modifiers (psk n ∷ ms) p = apply_psk_modifier p n >>= apply_modifiers ms
apply_modifiers (fallback ∷ ms) p = err (pattern_error unsupported_modifier)

-- `check_hfs_and_oneway_conflict` without the `hfs` feature
abbrev check_hfs_and_oneway_conflict : HandshakeChoice → Outcome (Unit {0})
check_hfs_and_oneway_conflict _ = ok tt

abbrev pub tokens_of : Patterns → HandshakeTokens
tokens_of (i, r, msgs) = record { premsg_pattern_i = i; premsg_pattern_r = r; msg_patterns = msgs }

-- `HandshakeTokens::try_from`
unfoldable pub try_from : HandshakeChoice → Outcome HandshakeTokens
unfolding apply_modifiers
try_from handshake = do
  _ ← check_hfs_and_oneway_conflict handshake
  patterns ← apply_modifiers handshake.modifiers.list (base_patterns handshake.pattern)
  ok (tokens_of patterns)
