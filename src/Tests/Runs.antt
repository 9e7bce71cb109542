-- ===== src/Tests/Runs.antt =====
-- Runs of the model on concrete inputs: a whole handshake, and names that do and do not parse.
use screech.Base.{
  ℕ, ◌≡◌, refl, Bool, true, false, some, List, [], ◌∷◌, Bytes, codes, replicate, take,
}
use screech.Error.{pattern_error, unsupported_modifier, unsupported_handshake_type, invalid_psk}
use screech.Outcome.{Outcome, ok, err, panic, ◌>>=◌}
use screech.Params.Choices.{noise, curve25519, cha_cha_poly, sha256}
use screech.Params.Pattern.{HandshakePattern, nn, xx}
use screech.Params.Table.{base_patterns}
use screech.Params.Modifier.{
  HandshakeModifier, psk, HandshakeChoice, parse_choice, parse_pattern_and_modifier,
  parse_modifier_list, parse_modifiers, split,
}
use screech.Params.NoiseParams.{NoiseParams}
use screech.Params.Tokens.{try_from}
use screech.HandshakeState.{HandshakeState}
use screech.HandshakeState.Write.{write_message}
use screech.HandshakeState.Read.{read_message}
use screech.TransportState.{into_transport_mode}
use screech.Resolver.{Resolver}
use screech.Builder.{Builder, with_resolver, local_private_key, build}
use screech.Tests.Toy.{Key, Hasher, Counter, Pair, toy_cipher, toy_hash, toy_dh}

abbrev pub choice : HandshakePattern → List HandshakeModifier → HandshakeChoice
choice p ms = record { pattern = p; modifiers = record { list = ms } }

parse_xx : parse_choice (codes "XXpsk0+psk3") ≡ ok (choice xx (psk 0 ∷ psk 3 ∷ []))
unfolding parse_choice parse_pattern_and_modifier parse_modifier_list parse_modifiers split
parse_xx = refl

parse_errors :
    (parse_choice (codes "XXpsk256") ≡ err (pattern_error invalid_psk))
    × (parse_choice (codes "XXhfs") ≡ err (pattern_error unsupported_modifier))
    × (parse_choice (codes "ZZ") ≡ err (pattern_error unsupported_handshake_type))
unfolding parse_choice parse_pattern_and_modifier parse_modifier_list parse_modifiers split
parse_errors = (refl, refl, refl)

-- A PSK number above the number of messages is no error: it panics.
psk_past_end : try_from (choice nn (psk 3 ∷ [])) ≡ panic
unfolding try_from base_patterns
psk_past_end = refl

abbrev pub xx_params : NoiseParams
xx_params = record {
  name = codes "Noise_XX_25519_ChaChaPoly_SHA256";
  base = noise;
  handshake = choice xx [];
  dh = curve25519;
  cipher = cha_cha_poly;
  hash = sha256;
}

-- Each side starts from its own random numbers.
abbrev pub toy_resolver : ℕ → Resolver Counter Key Hasher Pair
toy_resolver seed = record {
  resolve_rng = some (record { count = seed });
  resolve_dh = λ _. some (record { secret = replicate 32 0 });
  resolve_hash = λ _. some (record { fed = [] });
  resolve_cipher = λ _. some (replicate 32 0);
}

abbrev pub toy_builder : ℕ → ℕ → Builder Counter Key Hasher Pair
toy_builder seed key =
    local_private_key (replicate 32 key) (with_resolver xx_params (toy_resolver seed))

abbrev pub Side : Type 0
Side = HandshakeState Counter Key Hasher Pair

-- One message from a side to the other: the states behind it, and the payload that arrived.
pub exchange : Bytes → Side → Side → Outcome (Side × Side × Bytes)
exchange payload from to =
    let (written, (from', message)) = write_message payload (from, replicate 200 0) in
    do
      n ← written
      let (got, (to', text)) = read_message (take n message) (to, replicate 200 0)
      m ← got
      ok (from', to', take m text)

-- The three messages of XX, the payloads that arrived, and the two transport states.
unfoldable run_xx : Outcome (List Bytes × Bool)
unfolding exchange
run_xx = do
  i0 ← build (toy_builder 10 3) true
  r0 ← build (toy_builder 20 5) false
  (i1, r1, a) ← exchange (codes "one") i0 r0
  (r2, i2, b) ← exchange (codes "two") r1 i1
  (i3, r3, c) ← exchange (codes "three") i2 r2
  t ← into_transport_mode i3
  u ← into_transport_mode r3
  ok (a ∷ b ∷ c ∷ [], t.initiator)
