-- ===== src/Params/Table.antt =====
-- The token patterns of each handshake (src/params/patterns.rs): the table of
-- `HandshakeTokens::try_from`.
use screech.Base.{ℕ, List, [], ◌∷◌}
use screech.Params.Pattern.{
  HandshakePattern, nn, nk, nx, xn, xk, xx, kn, kk, kx, i_n, ik, ix, nk1, nx1, x1n, x1k, xk1, x1k1,
  x1x, xx1, x1x1, k1n, k1k, kk1, k1k1, k1x, kx1, k1x1, i1n, i1k, ik1, i1k1, i1x, ix1, i1x1,
}

pub data DhToken : Type 0 where
  ee es se ss : DhToken

pub data Token : Type 0 where
  e s : Token
  dh : DhToken → Token
  psk : ℕ → Token

abbrev pub MessagePatterns : Type 0
MessagePatterns = List (List Token)

-- The pre-messages of the initiator and of the responder, and the messages.
abbrev pub Patterns : Type 0
Patterns = List Token × List Token × MessagePatterns

-- The deferred patterns.
unfoldable pub deferred_patterns : HandshakePattern → Patterns
deferred_patterns nk1 = ([], Token.s ∷ [], (Token.e ∷ []) ∷ (Token.e ∷ dh ee ∷ dh es ∷ []) ∷ [])
deferred_patterns nx1 =
    ([], [], (Token.e ∷ []) ∷ (Token.e ∷ dh ee ∷ Token.s ∷ []) ∷ (dh es ∷ []) ∷ [])
deferred_patterns x1n =
    ([], [], (Token.e ∷ []) ∷ (Token.e ∷ dh ee ∷ []) ∷ (Token.s ∷ []) ∷ (dh se ∷ []) ∷ [])
deferred_patterns x1k = (
  [],
  Token.s ∷ [],
  (Token.e ∷ dh es ∷ []) ∷ (Token.e ∷ dh ee ∷ []) ∷ (Token.s ∷ []) ∷ (dh se ∷ []) ∷ [],
)
deferred_patterns xk1 = (
  [],
  Token.s ∷ [],
  (Token.e ∷ []) ∷ (Token.e ∷ dh ee ∷ dh es ∷ []) ∷ (Token.s ∷ dh se ∷ []) ∷ [],
)
deferred_patterns x1k1 = (
  [],
  Token.s ∷ [],
  (Token.e ∷ []) ∷ (Token.e ∷ dh ee ∷ dh es ∷ []) ∷ (Token.s ∷ []) ∷ (dh se ∷ []) ∷ [],
)
deferred_patterns x1x = (
  [],
  [],
  (Token.e ∷ []) ∷ (Token.e ∷ dh ee ∷ Token.s ∷ dh es ∷ []) ∷ (Token.s ∷ []) ∷ (dh se ∷ []) ∷ [],
)
deferred_patterns xx1 = (
  [],
  [],
  (Token.e ∷ []) ∷ (Token.e ∷ dh ee ∷ Token.s ∷ []) ∷ (dh es ∷ Token.s ∷ dh se ∷ []) ∷ [],
)
deferred_patterns x1x1 = (
  [],
  [],
  (Token.e ∷ []) ∷ (Token.e ∷ dh ee ∷ Token.s ∷ []) ∷ (dh es ∷ Token.s ∷ []) ∷ (dh se ∷ []) ∷ [],
)
deferred_patterns k1n =
    (Token.s ∷ [], [], (Token.e ∷ []) ∷ (Token.e ∷ dh ee ∷ []) ∷ (dh se ∷ []) ∷ [])
deferred_patterns k1k = (
  Token.s ∷ [],
  Token.s ∷ [],
  (Token.e ∷ dh es ∷ []) ∷ (Token.e ∷ dh ee ∷ []) ∷ (dh se ∷ []) ∷ [],
)
deferred_patterns kk1 =
    (Token.s ∷ [], Token.s ∷ [], (Token.e ∷ []) ∷ (Token.e ∷ dh ee ∷ dh se ∷ dh es ∷ []) ∷ [])
deferred_patterns k1k1 = (
  Token.s ∷ [],
  Token.s ∷ [],
  (Token.e ∷ []) ∷ (Token.e ∷ dh ee ∷ dh es ∷ []) ∷ (dh se ∷ []) ∷ [],
)
deferred_patterns k1x = (
  Token.s ∷ [],
  [],
  (Token.e ∷ []) ∷ (Token.e ∷ dh ee ∷ Token.s ∷ dh es ∷ []) ∷ (dh se ∷ []) ∷ [],
)
deferred_patterns kx1 = (
  Token.s ∷ [],
  [],
  (Token.e ∷ []) ∷ (Token.e ∷ dh ee ∷ dh se ∷ Token.s ∷ []) ∷ (dh es ∷ []) ∷ [],
)
deferred_patterns k1x1 = (
  Token.s ∷ [],
  [],
  (Token.e ∷ []) ∷ (Token.e ∷ dh ee ∷ Token.s ∷ []) ∷ (dh se ∷ dh es ∷ []) ∷ [],
)
deferred_patterns i1n =
    ([], [], (Token.e ∷ Token.s ∷ []) ∷ (Token.e ∷ dh ee ∷ []) ∷ (dh se ∷ []) ∷ [])
deferred_patterns i1k = (
  [],
  Token.s ∷ [],
  (Token.e ∷ dh es ∷ Token.s ∷ []) ∷ (Token.e ∷ dh ee ∷ []) ∷ (dh se ∷ []) ∷ [],
)
deferred_patterns ik1 =
    ([], Token.s ∷ [], (Token.e ∷ Token.s ∷ []) ∷ (Token.e ∷ dh ee ∷ dh se ∷ dh es ∷ []) ∷ [])
deferred_patterns i1k1 = (
  [],
  Token.s ∷ [],
  (Token.e ∷ Token.s ∷ []) ∷ (Token.e ∷ dh ee ∷ dh es ∷ []) ∷ (dh se ∷ []) ∷ [],
)
deferred_patterns i1x = (
  [],
  [],
  (Token.e ∷ Token.s ∷ []) ∷ (Token.e ∷ dh ee ∷ Token.s ∷ dh es ∷ []) ∷ (dh se ∷ []) ∷ [],
)
deferred_patterns ix1 = (
  [],
  [],
  (Token.e ∷ Token.s ∷ []) ∷ (Token.e ∷ dh ee ∷ dh se ∷ Token.s ∷ []) ∷ (dh es ∷ []) ∷ [],
)
deferred_patterns i1x1 = (
  [],
  [],
  (Token.e ∷ Token.s ∷ []) ∷ (Token.e ∷ dh ee ∷ Token.s ∷ []) ∷ (dh se ∷ dh es ∷ []) ∷ [],
)
deferred_patterns _ = ([], [], [])

-- The rows of the `match`: one-way and fundamental patterns, then the deferred ones.
unfoldable pub base_patterns : HandshakePattern → Patterns
unfolding deferred_patterns
base_patterns HandshakePattern.n = ([], Token.s ∷ [], (Token.e ∷ dh es ∷ []) ∷ [])
base_patterns HandshakePattern.k = (Token.s ∷ [], Token.s ∷ [], (Token.e ∷ dh es ∷ dh ss ∷ []) ∷ [])
base_patterns HandshakePattern.x = ([], Token.s ∷ [], (Token.e ∷ dh es ∷ Token.s ∷ dh ss ∷ []) ∷ [])
base_patterns nn = ([], [], (Token.e ∷ []) ∷ (Token.e ∷ dh ee ∷ []) ∷ [])
base_patterns nk = ([], Token.s ∷ [], (Token.e ∷ dh es ∷ []) ∷ (Token.e ∷ dh ee ∷ []) ∷ [])
base_patterns nx = ([], [], (Token.e ∷ []) ∷ (Token.e ∷ dh ee ∷ Token.s ∷ dh es ∷ []) ∷ [])
base_patterns xn = ([], [], (Token.e ∷ []) ∷ (Token.e ∷ dh ee ∷ []) ∷ (Token.s ∷ dh se ∷ []) ∷ [])
base_patterns xk = (
  [],
  Token.s ∷ [],
  (Token.e ∷ dh es ∷ []) ∷ (Token.e ∷ dh ee ∷ []) ∷ (Token.s ∷ dh se ∷ []) ∷ [],
)
base_patterns xx = (
  [],
  [],
  (Token.e ∷ []) ∷ (Token.e ∷ dh ee ∷ Token.s ∷ dh es ∷ []) ∷ (Token.s ∷ dh se ∷ []) ∷ [],
)
base_patterns kn = (Token.s ∷ [], [], (Token.e ∷ []) ∷ (Token.e ∷ dh ee ∷ dh se ∷ []) ∷ [])
base_patterns kk = (
  Token.s ∷ [],
  Token.s ∷ [],
  (Token.e ∷ dh es ∷ dh ss ∷ []) ∷ (Token.e ∷ dh ee ∷ dh se ∷ []) ∷ [],
)
base_patterns kx =
    (Token.s ∷ [], [], (Token.e ∷ []) ∷ (Token.e ∷ dh ee ∷ dh se ∷ Token.s ∷ dh es ∷ []) ∷ [])
base_patterns i_n = ([], [], (Token.e ∷ Token.s ∷ []) ∷ (Token.e ∷ dh ee ∷ dh se ∷ []) ∷ [])
base_patterns ik = (
  [],
  Token.s ∷ [],
  (Token.e ∷ dh es ∷ Token.s ∷ dh ss ∷ []) ∷ (Token.e ∷ dh ee ∷ dh se ∷ []) ∷ [],
)
base_patterns ix =
    ([], [], (Token.e ∷ Token.s ∷ []) ∷ (Token.e ∷ dh ee ∷ dh se ∷ Token.s ∷ dh es ∷ []) ∷ [])
base_patterns p = deferred_patterns p
