-- ===== src/Params/Pattern.antt =====
-- `HandshakePattern` of src/params/patterns.rs: the enum that the macro `pattern_enum!` makes, its
-- names, and the static keys that each pattern asks for.
use screech.Base.{Bool, true, false, List, [], ◌∷◌, not, Bytes, codes, bytes_eq, find}
use screech.Error.{pattern_error, unsupported_handshake_type}
use screech.Outcome.{Outcome, ok_or}

pub data HandshakePattern : Type 0 where
  n x k : HandshakePattern
  nn nk nx xn xk xx kn kk kx i_n ik ix : HandshakePattern
  nk1 nx1 x1n x1k xk1 x1k1 x1x xx1 x1x1 k1n k1k kk1 k1k1 k1x : HandshakePattern
  kx1 k1x1 i1n i1k ik1 i1k1 i1x ix1 i1x1 : HandshakePattern

-- `SUPPORTED_HANDSHAKE_PATTERNS`
abbrev pub supported_handshake_patterns : List HandshakePattern
supported_handshake_patterns =
    HandshakePattern.n ∷ HandshakePattern.x ∷ HandshakePattern.k ∷ nn ∷ nk ∷ nx ∷ xn ∷ xk ∷ xx ∷ kn
    ∷ kk ∷ kx ∷ i_n ∷ ik ∷ ix ∷ nk1 ∷ nx1 ∷ x1n ∷ x1k ∷ xk1 ∷ x1k1 ∷ x1x ∷ xx1 ∷ x1x1 ∷ k1n ∷ k1k
    ∷ kk1 ∷ k1k1 ∷ k1x ∷ kx1 ∷ k1x1 ∷ i1n ∷ i1k ∷ ik1 ∷ i1k1 ∷ i1x ∷ ix1 ∷ i1x1 ∷ []

unfoldable pub as_str : HandshakePattern → Bytes
as_str HandshakePattern.n = codes "N"
as_str HandshakePattern.x = codes "X"
as_str HandshakePattern.k = codes "K"
as_str HandshakePattern.nn = codes "NN"
as_str HandshakePattern.nk = codes "NK"
as_str HandshakePattern.nx = codes "NX"
as_str HandshakePattern.xn = codes "XN"
as_str HandshakePattern.xk = codes "XK"
as_str HandshakePattern.xx = codes "XX"
as_str HandshakePattern.kn = codes "KN"
as_str HandshakePattern.kk = codes "KK"
as_str HandshakePattern.kx = codes "KX"
as_str HandshakePattern.i_n = codes "IN"
as_str HandshakePattern.ik = codes "IK"
as_str HandshakePattern.ix = codes "IX"
as_str HandshakePattern.nk1 = codes "NK1"
as_str HandshakePattern.nx1 = codes "NX1"
as_str HandshakePattern.x1n = codes "X1N"
as_str HandshakePattern.x1k = codes "X1K"
as_str HandshakePattern.xk1 = codes "XK1"
as_str HandshakePattern.x1k1 = codes "X1K1"
as_str HandshakePattern.x1x = codes "X1X"
as_str HandshakePattern.xx1 = codes "XX1"
as_str HandshakePattern.x1x1 = codes "X1X1"
as_str HandshakePattern.k1n = codes "K1N"
as_str HandshakePattern.k1k = codes "K1K"
as_str HandshakePattern.kk1 = codes "KK1"
as_str HandshakePattern.k1k1 = codes "K1K1"
as_str HandshakePattern.k1x = codes "K1X"
as_str HandshakePattern.kx1 = codes "KX1"
as_str HandshakePattern.k1x1 = codes "K1X1"
as_str HandshakePattern.i1n = codes "I1N"
as_str HandshakePattern.i1k = codes "I1K"
as_str HandshakePattern.ik1 = codes "IK1"
as_str HandshakePattern.i1k1 = codes "I1K1"
as_str HandshakePattern.i1x = codes "I1X"
as_str HandshakePattern.ix1 = codes "IX1"
as_str HandshakePattern.i1x1 = codes "I1X1"

-- The arms of the generated `match` are the variants in their order.
unfoldable pub parse_pattern : Bytes → Outcome HandshakePattern
unfolding as_str
parse_pattern s =
    ok_or (find (λ p. bytes_eq s (as_str p)) supported_handshake_patterns)
      (pattern_error unsupported_handshake_type)

unfoldable pub is_oneway : HandshakePattern → Bool
is_oneway HandshakePattern.n = true
is_oneway HandshakePattern.x = true
is_oneway HandshakePattern.k = true
is_oneway _ = false

lacks_initiator_static : HandshakePattern → Bool
lacks_initiator_static HandshakePattern.n = true
lacks_initiator_static HandshakePattern.nn = true
lacks_initiator_static HandshakePattern.nk = true
lacks_initiator_static HandshakePattern.nx = true
lacks_initiator_static HandshakePattern.nk1 = true
lacks_initiator_static HandshakePattern.nx1 = true
lacks_initiator_static _ = false

lacks_responder_static : HandshakePattern → Bool
lacks_responder_static HandshakePattern.nn = true
lacks_responder_static HandshakePattern.xn = true
lacks_responder_static HandshakePattern.kn = true
lacks_responder_static HandshakePattern.i_n = true
lacks_responder_static HandshakePattern.x1n = true
lacks_responder_static HandshakePattern.k1n = true
lacks_responder_static HandshakePattern.i1n = true
lacks_responder_static _ = false

unfoldable pub needs_local_static_key : HandshakePattern → Bool → Bool
unfolding lacks_initiator_static lacks_responder_static
needs_local_static_key p true = not (lacks_initiator_static p)
needs_local_static_key p false = not (lacks_responder_static p)

initiator_knows_remote : HandshakePattern → Bool
initiator_knows_remote HandshakePattern.n = true
initiator_knows_remote HandshakePattern.k = true
initiator_knows_remote HandshakePattern.x = true
initiator_knows_remote HandshakePattern.nk = true
initiator_knows_remote HandshakePattern.xk = true
initiator_knows_remote HandshakePattern.kk = true
initiator_knows_remote HandshakePattern.ik = true
initiator_knows_remote HandshakePattern.nk1 = true
initiator_knows_remote HandshakePattern.x1k = true
initiator_knows_remote HandshakePattern.xk1 = true
initiator_knows_remote HandshakePattern.x1k1 = true
initiator_knows_remote HandshakePattern.k1k = true
initiator_knows_remote HandshakePattern.kk1 = true
initiator_knows_remote HandshakePattern.k1k1 = true
initiator_knows_remote HandshakePattern.i1k = true
initiator_knows_remote HandshakePattern.ik1 = true
initiator_knows_remote HandshakePattern.i1k1 = true
initiator_knows_remote _ = false

responder_knows_remote : HandshakePattern → Bool
responder_knows_remote HandshakePattern.k = true
responder_knows_remote HandshakePattern.kn = true
responder_knows_remote HandshakePattern.kk = true
responder_knows_remote HandshakePattern.kx = true
responder_knows_remote HandshakePattern.k1n = true
responder_knows_remote HandshakePattern.k1k = true
responder_knows_remote HandshakePattern.kk1 = true
responder_knows_remote HandshakePattern.k1k1 = true
responder_knows_remote HandshakePattern.k1x = true
responder_knows_remote HandshakePattern.kx1 = true
responder_knows_remote HandshakePattern.k1x1 = true
responder_knows_remote _ = false

unfoldable pub need_known_remote_pubkey : HandshakePattern → Bool → Bool
unfolding initiator_knows_remote responder_knows_remote
need_known_remote_pubkey p true = initiator_knows_remote p
need_known_remote_pubkey p false = responder_knows_remote p
