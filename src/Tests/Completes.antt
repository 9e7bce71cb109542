-- ===== src/Tests/Completes.antt =====
-- A handshake of KK with a PSK in front that goes through, and the theorems about it.
use screech.Base.{
  ℕ, ◌≤◌, ◌≡◌, ◌⊎◌, refl, true, false, Bytes, List, [], ◌∷◌, codes, replicate, some, none, arith,
}
use screech.Outcome.{ok, copy_slices}
use screech.Types.{u64_max}
use screech.Params.Pattern.{kk, need_known_remote_pubkey, needs_local_static_key}
use screech.Params.Choices.{noise, curve25519, cha_cha_poly, sha256}
use screech.Params.NoiseParams.{NoiseParams}
use screech.Params.Modifier.{psk}
use screech.Params.Table.{Token, base_patterns, es, ss}
use screech.Params.Tokens.{HandshakeTokens, try_from}
use screech.Params.Writable.{is_writable, is_writable_pattern}
use screech.Params.Writable.Modifiers.{patterns-writable}
use screech.CipherState.{new_states}
use screech.SymmetricState
use screech.HandshakeState
use screech.HandshakeState.{HandshakeState, dh_len, is_handshake_finished}
use screech.HandshakeState.Write.{write_message}
use screech.HandshakeState.InStep.Conversation.{Talk}
use screech.HandshakeState.Total.{IsWriter}
use screech.HandshakeState.Total.Message.{Sent, write_message_returns}
use screech.HandshakeState.Total.Completes.{Letter, Fit, seals_bound, correspond}
use screech.TransportState.{TransportState, into_transport_mode}
use screech.TransportState.Session.{IsFresh}
use screech.Builder.{
  Builder, build, build_psks, build_rs, with_resolver, local_private_key, remote_public_key,
}
use screech.Builder.Matching.{IsMatching}
use screech.Builder.Completes.{handshake-completes}
use screech.Tests.Toy.{
  toy_cipher, toy_hash, toy_dh, toy_cipher_laws, toy_hash_laws, toy_hash_sizes, toy_dh_laws,
  toy_dh_total, Key, Hasher, Counter, Pair,
}
use screech.Tests.Runs.{Side, choice, toy_resolver}

abbrev params : NoiseParams
params = record {
  name = codes "Noise_KKpsk0_25519_ChaChaPoly_SHA256";
  base = noise;
  handshake = choice kk (psk 0 ∷ []);
  dh = curve25519;
  cipher = cha_cha_poly;
  hash = sha256;
}

abbrev with_psk : ℕ → Bytes → Bytes → Builder Counter Key Hasher Pair
with_psk seed own other =
    record (remote_public_key other
      (local_private_key own (with_resolver params (toy_resolver seed)))) {
        psks = some (replicate 32 3) ∷ replicate 9 none;
      }

abbrev carol : Builder Counter Key Hasher Pair
carol = with_psk 1 (replicate 32 5) (replicate 32 9)

abbrev dave : Builder Counter Key Hasher Pair
dave = with_psk 2 (replicate 32 9) (replicate 32 5)

abbrev psk_sides : (i : Side) × (r : Side) × (build carol true ≡ ok i) × (build dave false ≡ ok r)
unfolding build build_psks build_rs HandshakeState.new try_from base_patterns
    need_known_remote_pubkey new_states SymmetricState.initialize copy_slices
    SymmetricState.mix_hash needs_local_static_key
psk_sides = (_, _, refl, refl)

psk_match : IsMatching carol dave
psk_match = record {
  same_params = refl;
  same_cipher = refl;
  same_hash = refl;
  same_dh = refl;
  same_prologue = refl;
  same_psks = refl;
  i_key = λ d e. refl;
  r_key = λ d e. refl;
}

abbrev letters : List Letter
letters =
    record { payload = codes "hello"; out = replicate 300 0; buffer = replicate 300 0 }
    ∷ (record { payload = []; out = replicate 300 0; buffer = replicate 300 0 } ∷ [])

letters-Fit : Fit (dh_len psk_sides.0) psk_sides.0.message_patterns letters
unfolding psk_sides dh_len
letters-Fit = (omega arith, omega arith, omega arith, (omega arith, omega arith, omega arith, tt))

few_seals : seals_bound psk_sides.0.message_patterns ≤ u64_max
unfolding psk_sides
few_seals = omega arith

handshake-completes_example :
    (x : Side) × (y : Side) × (correspond letters psk_sides.0 psk_sides.1
      ≡ ok (codes "hello" ∷ [] ∷ [], x, y))
    × Talk psk_sides.0 psk_sides.1 x y
    × (t : TransportState Key) × (u : TransportState Key) × (into_transport_mode x ≡ ok t)
    × (into_transport_mode y ≡ ok u)
    × (IsFresh t u ⊎ IsFresh u t)
handshake-completes_example =
    handshake-completes carol dave letters psk_match refl psk_sides.2 psk_sides.3 few_seals
      letters-Fit

carol_writes : IsWriter psk_sides.0 0
unfolding psk_sides dh_len
carol_writes = record {
  running = record { h_len = refl; ck_len = refl; keyed = λ e. cc e; nonce = omega arith };
  e_len = refl;
  s_pair = λ e. refl;
  e_pair = λ e. cc e;
  fixed_pair = λ e. cc e;
  rs_owned = λ e. record { owner = record { secret = replicate 32 9 }; pair = refl; key = refl };
  re_owned = λ e. cc e;
}

abbrev first_tokens : List Token
first_tokens = Token.psk 0 ∷ (Token.e ∷ (Token.dh es ∷ (Token.dh ss ∷ [])))

write_message_returns_example :
    Sent
      (write_message (codes "hello") (psk_sides.0, replicate 300 0))
      psk_sides.0
      (replicate 300 0)
      5
      (record { static = true; ephemeral = true })
unfolding psk_sides is_writable dh_len
write_message_returns_example =
    write_message_returns (codes "hello") first_tokens psk_sides.0 (replicate 300 0) 0 carol_writes
      refl refl refl (omega arith) (omega arith) (omega arith)

psk_tokens : (tokens : HandshakeTokens) × (try_from (choice kk (psk 0 ∷ [])) ≡ ok tokens)
unfolding try_from base_patterns
psk_tokens = (_, refl)

patterns-writable_example : is_writable_pattern kk carol.psks psk_tokens.0.msg_patterns ≡ true
patterns-writable_example = patterns-writable (choice kk (psk 0 ∷ [])) carol.psks refl psk_tokens.1
