-- ===== src/Tests/Matching.antt =====
-- Two matching builders for KK, where each side is given the other's public key.
use screech.Base.{ℕ, refl, true, false, Bytes, [], codes, replicate, ◌≡◌}
use screech.Outcome.{ok, copy_slices}
use screech.Params.Pattern.{kk, need_known_remote_pubkey, needs_local_static_key}
use screech.Params.Choices.{noise, curve25519, cha_cha_poly, sha256}
use screech.Params.NoiseParams.{NoiseParams}
use screech.Params.Table.{base_patterns}
use screech.Params.Tokens.{try_from}
use screech.CipherState.{new_states}
use screech.SymmetricState
use screech.HandshakeState
use screech.HandshakeState.{HandshakeState}
use screech.HandshakeState.InStep.Conversation.{IsReady}
use screech.Builder.{
  Builder, build, build_psks, build_rs, with_resolver, local_private_key, remote_public_key,
  prologue,
}
use screech.Builder.Matching.{IsMatching, build-IsReady}
use screech.Tests.Toy.{
  toy_cipher, toy_hash, toy_dh, toy_cipher_laws, toy_dh_laws, Key, Hasher, Counter, Pair,
}
use screech.Tests.Runs.{Side, choice, toy_resolver}

abbrev kk_params : NoiseParams
kk_params = record {
  name = codes "Noise_KK_25519_ChaChaPoly_SHA256";
  base = noise;
  handshake = choice kk [];
  dh = curve25519;
  cipher = cha_cha_poly;
  hash = sha256;
}

-- The toy public key of a key of 32 bytes is the key.
abbrev kk_builder : ℕ → Bytes → Bytes → Builder Counter Key Hasher Pair
kk_builder seed own other =
    prologue (codes "p") (
      remote_public_key other (local_private_key own (with_resolver kk_params (toy_resolver seed))))

abbrev alice : Builder Counter Key Hasher Pair
alice = kk_builder 1 (replicate 32 5) (replicate 32 9)

abbrev bob : Builder Counter Key Hasher Pair
bob = kk_builder 2 (replicate 32 9) (replicate 32 5)

kk_sides : (i : Side) × (r : Side) × (build alice true ≡ ok i) × (build bob false ≡ ok r)
unfolding build build_psks build_rs HandshakeState.new try_from base_patterns
    need_known_remote_pubkey new_states SymmetricState.initialize copy_slices
    SymmetricState.mix_hash needs_local_static_key
kk_sides = (_, _, refl, refl)

kk_match : IsMatching alice bob
kk_match = record {
  same_params = refl;
  same_cipher = refl;
  same_hash = refl;
  same_dh = refl;
  same_prologue = refl;
  same_psks = refl;
  i_key = λ d e. refl;
  r_key = λ d e. refl;
}

build-IsReady_example : IsReady kk_sides.0 kk_sides.1
build-IsReady_example = build-IsReady alice bob kk_match kk_sides.2 kk_sides.3
