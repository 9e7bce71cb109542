-- ===== src/Example/Name.antt =====
-- The messages of the protocol name of src/examples/simple.rs.
use screech.Base.{◌≡◌, refl, [], ◌∷◌}
use screech.Outcome.{ok}
use screech.Params.Table.{Token, MessagePatterns, ee, es, se}
use screech.Params.Choices.{
  noise, curve25519, cha_cha_poly, blake2s, parse_base, parse_dh, parse_cipher, parse_hash,
}
use screech.Params.Pattern.{xx}
use screech.Params.Table.{base_patterns}
use screech.Params.Modifier.{
  psk, parse_choice, parse_pattern_and_modifier, parse_modifier_list, parse_modifiers, split,
}
use screech.Params.Tokens.{HandshakeTokens, try_from}
use screech.Params.NoiseParams.{NoiseParams, parse_params}
use screech.Example.{params}

abbrev pub messages : MessagePatterns
messages =
    (Token.e ∷ [])
    ∷ (Token.e ∷ Token.dh ee ∷ Token.s ∷ Token.dh es ∷ [])
    ∷ (Token.s ∷ Token.dh se ∷ Token.psk 3 ∷ [])
    ∷ []

abbrev pub the_params : NoiseParams
the_params = record {
  name = params;
  base = noise;
  handshake = record { pattern = xx; modifiers = record { list = psk 3 ∷ [] } };
  dh = curve25519;
  cipher = cha_cha_poly;
  hash = blake2s;
}

pub parsed : parse_params params ≡ ok the_params
unfolding parse_params parse_base parse_choice parse_pattern_and_modifier parse_modifier_list
    parse_modifiers parse_dh parse_cipher parse_hash split
parsed = refl

pub params_messages :
    (p : NoiseParams) {tokens : HandshakeTokens}
    → parse_params params ≡ ok p
    → try_from p.handshake ≡ ok tokens
    → tokens.msg_patterns ≡ messages
unfolding try_from base_patterns
params_messages p {tokens} given found =
    let same : p ≡ the_params = cc (parsed, given) in
    let found' : try_from the_params.handshake ≡ ok tokens = rw same at found in cc found'
