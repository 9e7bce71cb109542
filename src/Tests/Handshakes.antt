-- ===== src/Tests/Handshakes.antt =====
-- The theorems on handshakes applied to a side of XX that the builder made.
use screech.Base.{ℕ, ◌≡◌, refl, true, false, Bytes, codes, replicate, length, if◌then◌else◌, ◌==◌}
use screech.Outcome.{Outcome, ok, err, copy_slices}
use screech.Params.Pattern.{xx, need_known_remote_pubkey}
use screech.Params.Table.{base_patterns}
use screech.Params.Modifier.{is_psk}
use screech.Params.Tokens.{try_from}
use screech.CipherState.{new_states}
use screech.SymmetricState
use screech.SymmetricState.{SymmetricState, encrypt_and_mix_hash, decrypt_and_mix_hash}
use screech.HandshakeState.Agreement.{ArePeers, Mixed, mixing-ArePeers}
use screech.HandshakeState.Write.{mix_dh, mix_psk}
use screech.HandshakeState.{dh_len}
use screech.CipherState
use screech.CipherState.{CipherState}
use screech.Toggle.{toggle_on}
use screech.Params.Table.{se}
use screech.Tests.Toy.{Key, toy_dh_laws}
use screech.Tests.Runs.{xx_params}
use screech.Base.{Bool, none, some, [], ◌∷◌, ◌++◌}
use screech.HandshakeState
use screech.HandshakeState.{HandshakeState}
use screech.HandshakeState.Write.{
  write_message, write_message_inner, write_tokens, write_token, write_e, write_payload,
  encrypt_rest,
}
use screech.HandshakeState.Read.{read_message}
use screech.HandshakeState.Turns.{
  Turned, Reach, IsInTurn, here, writes, write_message-Turned, read_message-Turned,
}
use screech.Builder.{build, build_psks, build_rs}
use screech.Builder.Prerequisites.{IsBuilt, build-then-Reach}
use screech.Tests.Toy.{toy_cipher, toy_hash, toy_dh, toy_cipher_laws, toy_hash_laws}
use screech.Tests.Runs.{toy_builder, Side}
use screech.HandshakeState.Finish.{is_ok, returned, finished_refuses}
use screech.HandshakeState.{is_handshake_finished}
use screech.Builder.Opening.{conversion-returned}
use screech.StatelessTransportState.{into_stateless_transport_mode}
use screech.TransportState.{into_transport_mode}
use screech.Constants.{maxmsglen}
use screech.Error.{state, input, not_turn_to_write, not_turn_to_read, handshake_already_finished}
use screech.Base.{ltb, ◌==◌}

-- A side of XX as the builder makes it, and what one written message makes of it.
abbrev built : (hs : Side) × (build (toy_builder 10 3) true ≡ ok hs)
unfolding build build_psks build_rs HandshakeState.new try_from base_patterns
    need_known_remote_pubkey new_states SymmetricState.initialize copy_slices
    SymmetricState.mix_hash
built = (_, refl)

abbrev wrote_e : Outcome ℕ × (Side × Bytes)
wrote_e = write_message (codes "one") (built.0, replicate 200 0)

wrote_e_returns : wrote_e.0 ≡ ok 35
unfolding built write_message write_message_inner write_tokens write_token write_e is_psk
    write_payload encrypt_rest encrypt_and_mix_hash
wrote_e_returns = refl

one_call : Reach built.0 wrote_e.1.0
one_call = Reach.next here (
    writes built.0 (codes "one") (replicate 200 0) wrote_e.0 wrote_e.1 refl
      (λ e. cc (wrote_e_returns, e)))

build-then-Reach_example : IsBuilt (toy_builder 10 3) true built.0 × IsInTurn wrote_e.1.0
build-then-Reach_example = build-then-Reach (toy_builder 10 3) true built.1 one_call

write_message-Turned_example : Turned true built.0 wrote_e.0 wrote_e.1.0
write_message-Turned_example = write_message-Turned (codes "one") built.0 (replicate 200 0)

read_message-Turned_example :
    let (r, after) = read_message (codes "two") (wrote_e.1.0, replicate 200 0) in
    Turned false wrote_e.1.0 r after.0
read_message-Turned_example = read_message-Turned (codes "two") wrote_e.1.0 (replicate 200 0)

conversion-returned_example :
    let finished = returned one_call == length (base_patterns xx).2 in
    (is_ok (into_transport_mode wrote_e.1.0) ≡ finished)
    × (is_ok (into_stateless_transport_mode wrote_e.1.0) ≡ finished)
conversion-returned_example = conversion-returned (toy_builder 10 3) true built.1 one_call

-- The same side, behind its last message.
abbrev ended : Side
ended = record built.0 { pattern_position = 3 }

ended_finished : is_handshake_finished ended ≡ true
unfolding built
ended_finished = refl

finished_refuses_example :
    (write_message (codes "hi") (ended, replicate 20 0) ≡ (
      err (state (if ended.my_turn then handshake_already_finished else not_turn_to_write)),
      (ended, replicate 20 0),
    ))
    × (read_message (codes "yo") (ended, replicate 20 0) ≡ (
      err (
          if ltb maxmsglen (length (codes "yo"))
          then input
          else state (if ended.my_turn then not_turn_to_read else handshake_already_finished)),
      (ended, replicate 20 0),
    ))
finished_refuses_example =
    finished_refuses ended (codes "hi") (codes "yo") (replicate 20 0) ended_finished

abbrev no_key : CipherState Key
no_key = CipherState.new (replicate 32 0)

-- Both sides use the same two keys.
abbrev peer : Bool → Side
peer initiator = record {
  rng = record { count = 0 };
  symmetricstate = SymmetricState.new no_key (record { fed = [] });
  cipherstates = record { initiator = no_key; responder = no_key };
  s = toggle_on (record { secret = replicate 32 3 });
  e = toggle_on (record { secret = replicate 32 5 });
  fixed_ephemeral = false;
  rs = toggle_on (replicate 32 3 ++ replicate 24 0);
  re = toggle_on (replicate 32 5 ++ replicate 24 0);
  initiator = initiator;
  params = xx_params;
  psks = none ∷ some (replicate 32 9) ∷ [];
  my_turn = initiator;
  message_patterns = [];
  pattern_position = 0;
}

peers : ArePeers (peer true) (peer false)
unfolding dh_len
peers = record {
  first_role = refl;
  second_role = refl;
  symmetric = refl;
  lengths = refl;
  same_psks = refl;
  i_s = record { both = refl; pair = λ _. refl; key = λ _. refl };
  i_e = record { both = refl; pair = λ _. refl; key = λ _. refl };
  r_s = record { both = refl; pair = λ _. refl; key = λ _. refl };
  r_e = record { both = refl; pair = λ _. refl; key = λ _. refl };
}

mixing-ArePeers_example :
    Mixed (mix_dh se (peer true)) (mix_dh se (peer false))
    × Mixed (mix_psk 1 (peer true)) (mix_psk 1 (peer false))
mixing-ArePeers_example = mixing-ArePeers (peer true) (peer false) se 1 peers
