-- ===== src/Tests/Programs.antt =====
-- Witnesses for the theorems on src/examples/simple.rs.
use screech.Base.{
  ℕ, suc, ◌≡◌, refl, Bool, true, false, [], ◌∷◌, ◌++◌, Bytes, codes, length, replicate,
  length-replicate, arith,
}
use screech.Outcome.{ok, err}
use screech.Params.NoiseParams.{parse_params}
use screech.Params.Choices.{parse_base, parse_dh, parse_cipher, parse_hash}
use screech.Params.Pattern.{xx, needs_local_static_key, need_known_remote_pubkey}
use screech.Params.Table.{base_patterns}
use screech.Params.Modifier.{
  parse_choice, parse_pattern_and_modifier, parse_modifier_list, parse_modifiers, split,
}
use screech.Params.Tokens.{try_from}
use screech.CipherState.{CipherState, new_states}
use screech.SymmetricState
use screech.HandshakeState
use screech.Toggle.{toggle_off}
use screech.TransportState.{TransportState}
use screech.TransportState.Session.{IsFresh}
use screech.Builder
use screech.Builder.{
  Builder, build, generate_keypair, build_psks, build_rs, with_resolver, local_private_key,
}
use screech.Example.{unexpected_eof, Peer, planet, recv, send, notify, serve}
use screech.Example.Framing.{recv-send, recv_truncated}
use screech.Example.Planet.{serve-notify}
use screech.Example.Programs.{session, configured}
use screech.Example.Configured.{SameSuite}
use screech.Example.Session.{connected, session-prints}
use screech.Outcome.{copy_slices}
use screech.Tests.Toy.{
  toy_cipher, toy_hash, toy_dh, toy_cipher_laws, toy_hash_laws, toy_hash_sizes, toy_dh_laws,
  toy_dh_total, Key, Hasher, Counter, Pair,
}
use screech.Tests.Runs.{Side, toy_resolver}

recv-send_example :
    recv ((send (codes "hello") []).1 ++ codes "next") ≡ (ok (codes "hello"), codes "next")
recv-send_example = recv-send (codes "hello") (codes "next") (omega arith)

hello_sent : (send (codes "hello") []).1 ≡ (0 ∷ 5 ∷ codes "he") ++ 108 ∷ codes "lo"
unfolding send
hello_sent = refl

recv_truncated_example : (recv (0 ∷ 5 ∷ codes "he")).0 ≡ err unexpected_eof
recv_truncated_example =
    recv_truncated (codes "hello") (0 ∷ 5 ∷ codes "he") (codes "lo") 108 (omega arith) hello_sent

abbrev key_state : ℕ → CipherState Key
key_state key = record { cipher = replicate 32 key; n = 0; has_key = true }

abbrev peer : Bool → Peer (TransportState Key)
peer initiator = record {
  noise = record {
    cipherstates = record { initiator = key_state 1; responder = key_state 2 };
    pattern = xx;
    dh_len = 32;
    rs = toggle_off (replicate 56 0);
    initiator = initiator;
  };
  buf = replicate 100 0;
  incoming = [];
  outgoing = [];
}

peers-IsFresh : IsFresh (peer true).noise (peer false).noise
peers-IsFresh = record {
  first_role = refl;
  second_role = refl;
  same = refl;
  down_keyed = refl;
  up_keyed = refl;
}

serve-notify_example :
    (p' : Peer (TransportState Key)) × (added : Bytes) × (notify 10 (peer true) ≡ (ok tt, p'))
    × (p'.outgoing ≡ [] ++ added)
    × ((serve (suc (length added)) (record (peer false) { incoming = added })).0
        ≡ ok (replicate 10 planet))
serve-notify_example =
    serve-notify 10 (peer true) (peer false) peers-IsFresh (omega arith) (omega arith) (omega arith)

abbrev our_program :
    (b : Builder Counter Key Hasher Pair) × (configured {R = Counter} {C = Key} {H = Hasher}
        {D = Pair}
        (toy_resolver 1)
      ≡ ok b)
unfolding configured parse_params parse_base parse_choice parse_pattern_and_modifier
    parse_modifier_list parse_modifiers parse_dh parse_cipher parse_hash split generate_keypair
    Builder.psk
our_program = (_, refl)

abbrev their_program :
    (b : Builder Counter Key Hasher Pair) × (configured {R = Counter} {C = Key} {H = Hasher}
        {D = Pair}
        (toy_resolver 2)
      ≡ ok b)
unfolding configured parse_params parse_base parse_choice parse_pattern_and_modifier
    parse_modifier_list parse_modifiers parse_dh parse_cipher parse_hash split generate_keypair
    Builder.psk
their_program = (_, refl)

abbrev built :
    (i : Side) × (r : Side) × (build our_program.0 true ≡ ok i)
    × (build their_program.0 false ≡ ok r)
unfolding our_program their_program build build_psks build_rs HandshakeState.new try_from
    base_patterns need_known_remote_pubkey new_states SymmetricState.initialize copy_slices
    SymmetricState.mix_hash needs_local_static_key
built = (_, _, refl, refl)

same_suite :
    SameSuite {R = Counter} {C = Key} {H = Hasher} {D = Pair} (toy_resolver 1) (toy_resolver 2)
same_suite = record { same_cipher = refl; same_hash = refl; same_dh = refl }

session-prints_example :
    session 10 (connected built.0 (replicate 65535 0)) (connected built.1 (replicate 65535 0))
    ≡ ok (replicate 10 planet)
session-prints_example =
    session-prints 10 (toy_resolver 1) (toy_resolver 2) (replicate 65535 0) (replicate 65535 0)
      same_suite our_program.1 their_program.1 built.2 built.3 (length-replicate {A = ℕ} 65535 0)
      (length-replicate {A = ℕ} 65535 0) (omega arith)
