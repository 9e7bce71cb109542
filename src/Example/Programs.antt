-- ===== src/Example/Programs.antt =====
-- `run_client` and `run_server` of src/examples/simple.rs: what they configure and,
-- behind the connection, what each does, cut where it waits for the other one, and a run of both.
use screech.Base.{ℕ, suc, [], List, ◌++◌, Bytes, length}
use screech.Outcome.{Result, ok, err, panic, Outcome, ◌>>=◌}
use screech.Types.{Cipher, Hash, Dh}
use screech.HandshakeState.{HandshakeState}
use screech.HandshakeState.Write.{write_message}
use screech.HandshakeState.Read.{read_message}
use screech.TransportState.{TransportState, into_transport_mode}
use screech.Params.NoiseParams.{parse_params}
use screech.Resolver.{Resolver}
use screech.Builder.{Builder, with_resolver, generate_keypair, psk, local_private_key}
use screech.Example.{params, secret, Peer, tell, listen, notify, serve}

-- `.unwrap()`
abbrev unwrapped : {A : Type 0} → Outcome A → Result ⊥ A
unwrapped (ok a) = ok a
unwrapped (err e) = panic
unwrapped panic = panic

module _ {R C H D : Type 0} ⦃cipher_ops : Cipher C⦄ ⦃hash_ops : Hash H⦄ ⦃ops : Dh R D⦄ where
  -- What both programs do up to `build_responder` and `build_initiator`, with the resolver that
  -- `Builder::new` picks.
  unfoldable pub configured : Resolver R C H D → Result ⊥ (Builder R C H D)
  configured resolver = do
    noise_params ← unwrapped (parse_params params)
    let builder = with_resolver noise_params resolver
    static_key ← unwrapped (generate_keypair builder)
    unwrapped (psk 3 secret (local_private_key static_key.private builder))

  -- `let mut noise = noise.into_transport_mode().unwrap();`
  unfoldable pub enter : Peer (HandshakeState R C H D) → Result ⊥ (Peer (TransportState C))
  enter p = do
    noise ← unwrapped (into_transport_mode p.noise)
    ok (record { noise = noise; buf = p.buf; incoming = p.incoming; outgoing = p.outgoing })

  -- The client up to its `recv`, and from there.
  unfoldable pub client_start :
      Peer (HandshakeState R C H D) → Result ⊥ (Peer (HandshakeState R C H D))
  client_start p = do let (r, p') = tell (write_message []) p; _ ← r; ok p'

  unfoldable pub client_rest :
      ℕ → Peer (HandshakeState R C H D) → Result ⊥ (Peer (TransportState C))
  client_rest rounds p = do
    let (r, p') = listen read_message p
    _ ← r
    let (r', p'') = tell (write_message []) p'
    _ ← r'
    q ← enter p''
    let (r'', q') = notify rounds q
    _ ← r''
    ok q'

  -- The server up to its second `recv`, and from there: what it prints.
  unfoldable pub server_start :
      Peer (HandshakeState R C H D) → Result ⊥ (Peer (HandshakeState R C H D))
  server_start p = do
    let (r, p') = listen read_message p
    _ ← r
    let (r', p'') = tell (write_message []) p'
    _ ← r'
    ok p''

  unfoldable pub server_rest : Peer (HandshakeState R C H D) → Result ⊥ (List Bytes)
  server_rest p = do
    let (r, p') = listen read_message p
    _ ← r
    q ← enter p'
    (serve (suc (length q.incoming)) q).0

  -- Both programs, each running until it waits for bytes that the other one has not written. What one
  -- wrote comes behind what the other has not read yet.
  unfoldable pub session :
      ℕ → Peer (HandshakeState R C H D) → Peer (HandshakeState R C H D) → Result ⊥ (List Bytes)
  session rounds client server = do
    client' ← client_start client
    server' ← server_start (record server { incoming = server.incoming ++ client'.outgoing })
    client'' ←
        client_rest rounds
          (record client' { incoming = client'.incoming ++ server'.outgoing; outgoing = [] })
    server_rest (record server' { incoming = server'.incoming ++ client''.outgoing; outgoing = [] })
