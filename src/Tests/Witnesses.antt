-- ===== src/Tests/Witnesses.antt =====
-- The theorems applied at concrete inputs that meet their hypotheses.
use screech.Base.{
  ℕ, ◌≡◌, ◌↔◌, refl, true, false, [], ◌∷◌, ◌++◌, codes, replicate, length, take, drop,
  if◌then◌else◌, ◌==◌, arith,
}
use screech.Outcome.{ok}
use screech.Params.Choices.{ed448, aesgcm, blake2b, noise}
use screech.Params.Pattern.{
  HandshakePattern, xx, ik, kk1, x1x1, parse_pattern, as_str, needs_local_static_key,
  need_known_remote_pubkey, is_oneway,
}
use screech.Params.Table.{base_patterns}
use screech.Params.Modifier.{psk, fallback, parse_choice}
use screech.Params.NoiseParams.{parse_params}
use screech.Params.Tokens.{try_from, tokens_of}
use screech.Params.Names.{parse_pattern-eq-ok_iff}
use screech.Params.StaticKeys.{StaticKeys_agree, uses_static, remote_known}
use screech.Params.PskPosition.{try_from-eq-place, expected, verdict, place, psk_numbers}
use screech.Params.RoundTrip.Choice.{show_choice, parse_choice-show}
use screech.Params.RoundTrip.Name.{show_name, parse_params-show}
use screech.CipherState
use screech.CipherState.{CipherState, CipherStates, next_nonce, new_states}
use screech.CipherState.Nonces.{
  counted, counted_if_ok, kept, accepts, encrypt_ad-eq-counted, decrypt_ad-eq-counted,
}
use screech.CipherState.Stateless
use screech.SymmetricState
use screech.SymmetricState.{SymmetricState, encrypt_and_mix_hash, decrypt_and_mix_hash}
use screech.SymmetricState.Sync.{IsUsable, decrypt-encrypt}
use screech.Tests.Toy.{Key, Hasher, toy_cipher, toy_hash, toy_dh, toy_cipher_laws, toy_hash_laws}
use screech.Tests.Runs.{choice}

parse_pattern-eq-ok_iff_example :
    (parse_pattern (codes "XX1") ≡ ok HandshakePattern.xx1)
    ↔ (codes "XX1" ≡ as_str HandshakePattern.xx1)
parse_pattern-eq-ok_iff_example = parse_pattern-eq-ok_iff (codes "XX1") HandshakePattern.xx1

StaticKeys_agree_example :
    (needs_local_static_key ik false ≡ uses_static ik false)
    × (need_known_remote_pubkey ik false ≡ remote_known ik false)
    × (is_oneway ik ≡ (length (base_patterns ik).2 == 1))
StaticKeys_agree_example = StaticKeys_agree ik false

try_from-eq-place_example :
    let (i, r, msgs) = base_patterns xx in
    try_from (choice xx (psk 0 ∷ psk 3 ∷ []))
    ≡ expected
        (verdict (length msgs) (psk 0 ∷ psk 3 ∷ []))
        (tokens_of (i, r, place (psk_numbers (psk 0 ∷ psk 3 ∷ [])) msgs))
try_from-eq-place_example = try_from-eq-place (choice xx (psk 0 ∷ psk 3 ∷ []))

parse_choice-show_example :
    parse_choice (show_choice (choice kk1 (psk 255 ∷ fallback ∷ [])))
    ≡ ok (choice kk1 (psk 255 ∷ fallback ∷ []))
parse_choice-show_example = parse_choice-show (choice kk1 (psk 255 ∷ fallback ∷ [])) (omega arith)

parse_params-show_example :
    let c = choice x1x1 (psk 2 ∷ []) in
    parse_params (show_name c ed448 aesgcm blake2b)
    ≡ ok (record {
      name = show_name c ed448 aesgcm blake2b;
      base = noise;
      handshake = c;
      dh = ed448;
      cipher = aesgcm;
      hash = blake2b;
    })
parse_params-show_example =
    parse_params-show (choice x1x1 (psk 2 ∷ [])) ed448 aesgcm blake2b (omega arith)

abbrev pub keyed_state : ℕ → CipherState Key
keyed_state n = record { cipher = replicate 32 7; n = n; has_key = true }

encrypt_ad-eq-counted_example :
    CipherState.encrypt_ad [] (codes "hi") (keyed_state 4, replicate 20 0)
    ≡ counted_if_ok (keyed_state 4) (
        Stateless.encrypt_ad
          (Stateless.from_state (keyed_state 4))
          4
          []
          (codes "hi")
          (replicate 20 0))
encrypt_ad-eq-counted_example =
    encrypt_ad-eq-counted (keyed_state 4) [] (codes "hi") (replicate 20 0)

decrypt_ad-eq-counted_example :
    CipherState.decrypt_ad [] (replicate 17 0) (keyed_state 4, replicate 20 0)
    ≡ (if accepts (keyed_state 4) (replicate 17 0) (replicate 20 0)
          then counted (keyed_state 4)
          else kept (keyed_state 4))
        (Stateless.decrypt_ad
          (Stateless.from_state (keyed_state 4))
          4
          []
          (replicate 17 0)
          (replicate 20 0))
decrypt_ad-eq-counted_example =
    decrypt_ad-eq-counted (keyed_state 4) [] (replicate 17 0) (replicate 20 0)

abbrev symmetric : SymmetricState Key Hasher
symmetric = record {
  cipherstate = keyed_state 0;
  hasher = record { fed = [] };
  inner = record { h = replicate 64 1; ck = replicate 64 2; has_key = true };
}

decrypt-encrypt_example :
    let (r, (after, out')) = encrypt_and_mix_hash (codes "hi") (symmetric, replicate 20 0) in
    (r ≡ ok 18)
    × (decrypt_and_mix_hash (take 18 out') (symmetric, replicate 3 0)
        ≡ (ok 2, (after, codes "hi" ++ drop 2 (replicate 3 0))))
    × (length (codes "hi" ++ drop 2 (replicate {A = ℕ} 3 0)) ≡ length (replicate {A = ℕ} 3 0))
unfolding SymmetricState.Sync.overhead SymmetricState.Sync.behind
decrypt-encrypt_example =
    decrypt-encrypt symmetric (codes "hi") (replicate 20 0) (replicate 3 0)
      (record { keyed = λ _. record { keyed = refl; room = omega arith }; hashed = omega arith })
      (omega arith) (omega arith)
