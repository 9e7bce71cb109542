-- ===== src/Tests/Talks.antt =====
-- The theorems on two sides in step applied to the two messages of NN.
use screech.Base.{
  ℕ, ◌≡◌, refl, true, false, Bytes, [], ◌∷◌, codes, replicate, length, take, List, ◌++◌, ◌⊎◌, inl,
  arith,
}
use screech.Outcome.{Outcome, ok, copy_slices}
use screech.Params.Pattern.{nn, xx, need_known_remote_pubkey, needs_local_static_key}
use screech.Params.Choices.{noise, curve25519, cha_cha_poly, sha256}
use screech.Params.NoiseParams.{NoiseParams}
use screech.Params.Table.{base_patterns}
use screech.Params.Modifier.{is_psk, psk}
use screech.Params.Readable.{all_readable, received_all, unknown}
use screech.Params.Readable.Modifiers.{patterns-readable}
use screech.Params.Tokens.{HandshakeTokens, try_from}
use screech.CipherState
use screech.CipherState.{new_states}
use screech.SymmetricState
use screech.SymmetricState.{encrypt_and_mix_hash, decrypt_and_mix_hash}
use screech.HandshakeState
use screech.HandshakeState.{HandshakeState, dh, dh_len, is_handshake_finished}
use screech.HandshakeState.Write.{
  write_message, write_message_inner, write_tokens, write_token, write_e, write_payload,
  encrypt_rest, mix_dh, write_at,
}
use screech.HandshakeState.Read.{
  read_message, read_message_inner, read_tokens, read_token, read_e, read_payload,
}
use screech.HandshakeState.InStep.Conversation.{Talk, silent, message, IsReady, read-write}
use screech.Types.{hkdf, hmac, xor_into}
use screech.TransportState
use screech.TransportState.{TransportState, into_transport_mode}
use screech.TransportState.Session
use screech.TransportState.Session.{IsFresh, opened, initiator_writes}
use screech.TransportState.Opening.{Talk-then-IsFresh}
use screech.Builder.Matching.{IsMatching, build-IsReady}
use screech.Builder.Delivery.{built-delivery}
use screech.Builder.{Builder, build, build_psks, build_rs, with_resolver}
use screech.Tests.Toy.{
  toy_cipher, toy_hash, toy_dh, toy_cipher_laws, toy_dh_laws, Key, Hasher, Counter, Pair,
}
use screech.Tests.Runs.{Side, choice, toy_resolver}

abbrev nn_params : NoiseParams
nn_params = record {
  name = codes "Noise_NN_25519_ChaChaPoly_SHA256";
  base = noise;
  handshake = choice nn [];
  dh = curve25519;
  cipher = cha_cha_poly;
  hash = sha256;
}

abbrev nn_builder : ℕ → Builder Counter Key Hasher Pair
nn_builder seed = with_resolver nn_params (toy_resolver seed)

abbrev sides :
    (i : Side) × (r : Side) × (build (nn_builder 10) true ≡ ok i)
    × (build (nn_builder 20) false ≡ ok r)
unfolding build build_psks build_rs HandshakeState.new try_from base_patterns
    need_known_remote_pubkey new_states SymmetricState.initialize copy_slices
    SymmetricState.mix_hash needs_local_static_key
sides = (_, _, refl, refl)

sides_match : IsMatching (nn_builder 10) (nn_builder 20)
sides_match = record {
  same_params = refl;
  same_cipher = refl;
  same_hash = refl;
  same_dh = refl;
  same_prologue = refl;
  same_psks = refl;
  i_key = λ d e. tt;
  r_key = λ d e. tt;
}

sides-IsReady : IsReady sides.0 sides.1
sides-IsReady = build-IsReady (nn_builder 10) (nn_builder 20) sides_match sides.2 sides.3

abbrev sent_e : Outcome ℕ × (Side × Bytes)
sent_e = write_message (codes "one") (sides.0, replicate 200 0)

sent_e_returns : sent_e.0 ≡ ok 35
unfolding sides write_message write_message_inner write_tokens write_token write_e is_psk
    write_payload encrypt_rest encrypt_and_mix_hash
sent_e_returns = refl

one_message :
    Talk sides.0 sides.1
      (read_message (take 35 sent_e.1.1) (sides.1, replicate 200 0)).1.0
      sent_e.1.0
one_message =
    message (codes "one") (replicate 200 0) (replicate 200 0) {n = 35} {a = sides.0} {b = sides.1}
      {a' = sent_e.1.0} {out' = sent_e.1.1} silent (omega arith) (cc sent_e_returns)

abbrev second : Side
second = (read_message (take 35 sent_e.1.1) (sides.1, replicate 200 0)).1.0

abbrev sent_ee : Outcome ℕ × (Side × Bytes)
sent_ee = write_message (codes "two") (second, replicate 200 0)

sent_ee_returns : sent_ee.0 ≡ ok 51
unfolding sides read_message read_message_inner read_tokens read_token read_e read_payload
    decrypt_and_mix_hash write_message write_message_inner write_tokens write_token write_e is_psk
    write_payload encrypt_rest encrypt_and_mix_hash copy_slices dh_len mix_dh dh
    SymmetricState.mix_key hkdf hmac xor_into CipherState.encrypt_ad CipherState.set
    SymmetricState.split SymmetricState.split_raw write_at SymmetricState.mix_hash
sent_ee_returns = refl

two_messages :
    Talk sides.0 sides.1
      (read_message (take 51 sent_ee.1.1) (sent_e.1.0, replicate 200 0)).1.0
      sent_ee.1.0
two_messages =
    message (codes "two") (replicate 200 0) (replicate 200 0) {n = 51} {a = second} {b = sent_e.1.0}
      {a' = sent_ee.1.0} {out' = sent_ee.1.1} one_message (omega arith) (cc sent_ee_returns)

read-write_example :
    let (q, (b', buffer')) = read_message (take 51 sent_ee.1.1) (sent_e.1.0, replicate 200 0) in
    (q ≡ ok 3) × (take 3 buffer' ≡ codes "two") × (length buffer' ≡ 200) × IsReady b' sent_ee.1.0
read-write_example =
    read-write {a = second} {b = sent_e.1.0} {a' = sent_ee.1.0} (codes "two") (replicate 200 0)
      (replicate 200 0) {n = 51} {out' = sent_ee.1.1} sides-IsReady one_message (omega arith)
      (cc sent_ee_returns)

abbrev last_read : Side
last_read = (read_message (take 51 sent_ee.1.1) (sent_e.1.0, replicate 200 0)).1.0

both_finished : is_handshake_finished last_read ≡ true
unfolding sides read_message read_message_inner read_tokens read_token read_e read_payload
    decrypt_and_mix_hash write_message write_message_inner write_tokens write_token write_e is_psk
    write_payload encrypt_rest encrypt_and_mix_hash copy_slices dh_len mix_dh dh
    SymmetricState.mix_key hkdf hmac xor_into CipherState.encrypt_ad CipherState.decrypt_ad
    CipherState.set SymmetricState.split SymmetricState.split_raw write_at SymmetricState.mix_hash
both_finished = refl

Talk-then-IsFresh_example :
    (t : TransportState Key) × (u : TransportState Key) × (into_transport_mode last_read ≡ ok t)
    × (into_transport_mode sent_ee.1.0 ≡ ok u)
    × (IsFresh t u ⊎ IsFresh u t)
    × (t.pattern ≡ u.pattern)
    × (t.dh_len ≡ u.dh_len)
Talk-then-IsFresh_example = Talk-then-IsFresh sides-IsReady two_messages both_finished

xx_tokens : (tokens : HandshakeTokens) × (try_from (choice xx (psk 0 ∷ psk 3 ∷ [])) ≡ ok tokens)
unfolding try_from base_patterns
xx_tokens = (_, refl)

patterns-readable_example :
    let tokens = xx_tokens.0 in
    all_readable false
      (received_all tokens.premsg_pattern_i unknown)
      (received_all tokens.premsg_pattern_r unknown)
      tokens.msg_patterns
    ≡ true
patterns-readable_example = patterns-readable (choice xx (psk 0 ∷ psk 3 ∷ [])) xx_tokens.1

abbrev ends :
    (t : TransportState Key) × (u : TransportState Key) × (into_transport_mode last_read ≡ ok t)
    × (into_transport_mode sent_ee.1.0 ≡ ok u)
unfolding sides read_message read_message_inner read_tokens read_token read_e read_payload
    decrypt_and_mix_hash write_message write_message_inner write_tokens write_token write_e is_psk
    write_payload encrypt_rest encrypt_and_mix_hash copy_slices dh_len mix_dh dh
    SymmetricState.mix_key hkdf hmac xor_into CipherState.encrypt_ad CipherState.decrypt_ad
    CipherState.set SymmetricState.split SymmetricState.split_raw write_at SymmetricState.mix_hash
    into_transport_mode
ends = (_, _, refl, refl)

abbrev first_sent : Outcome ℕ × (TransportState Key × Bytes)
first_sent = TransportState.write_message (codes "hi") (ends.0, replicate 18 0)

first_sent_returns : first_sent.0 ≡ ok 18
unfolding ends TransportState.write_message CipherState.encrypt CipherState.encrypt_ad
first_sent_returns = refl

one_sent : Session.Reach (opened ends.0 ends.1) (record (opened ends.0 ends.1) {
  initiator = first_sent.1.0;
  to_responder = take 18 first_sent.1.1 ∷ [];
  initiator_sent = codes "hi" ∷ [];
})
one_sent = Session.next Session.here (
    initiator_writes (opened ends.0 ends.1) (codes "hi") (replicate 18 0) 18 first_sent.1.0
      first_sent.1.1 (cc first_sent_returns))

ends_role : ends.0.initiator ≡ true
unfolding ends
ends_role = refl

built-delivery_example :
    (down up : List Bytes) × (codes "hi" ∷ [] ≡ [] ++ down)
    × (1 ≡ length down)
    × ([] ≡ [] ++ up)
    × (0 ≡ length up)
built-delivery_example =
    built-delivery (nn_builder 10) (nn_builder 20) sides_match sides.2 sides.3 (inl two_messages)
      ends.2 ends.3 ends_role one_sent
