-- ===== src/Example/Session.antt =====
-- A whole run of both programs of src/examples/simple.rs, from two calls of `Builder::build`
-- (src/builder.rs) over the handshake (src/handshakestate.rs) and the transport phase
-- (src/transportstate.rs) to what the server prints.
use screech.Base.{
  ℕ, suc, ◌≤◌, ◌≡◌, refl, sym, ap, ◌∙◌, append-nil, true, false, some, List, [], ◌∷◌, Bytes, length,
  replicate, get_elem?, arith,
}
use screech.Constants.{maxmsglen}
use screech.Outcome.{ok}
use screech.Types.{Cipher, Hash, Dh, u64_max}
use screech.Types.Laws.{CipherLaws, HashLaws, DhLaws}
use screech.Types.Total.{HashSizes, DhTotal}
use screech.Params.Table.{Token, ee, es, se}
use screech.HandshakeState.{HandshakeState, dh_len, is_handshake_finished}
use screech.HandshakeState.InStep.Conversation.{IsReady}
use screech.HandshakeState.Total.Exchange.{IsAble}
use screech.Builder.{Builder, build}
use screech.Builder.Made.{build-IsMade}
use screech.Builder.Matching.{build-IsReady}
use screech.Builder.Completes.{IsMade-Starts, build-IsAble}
use screech.Example.{Peer, planet}
use screech.Example.Framing.{frame}
use screech.Example.Programs.{
  session, configured, client_start, client_rest, server_start, server_rest,
}
use screech.Example.Handshake.{Told, tells}
use screech.Example.Planet.{serve-notify}
use screech.Resolver.{Resolver}
use screech.Example.Configured.{
  SameSuite, configured-IsMatching, configured_params, configured_psks,
}
use screech.Example.Name.{messages, params_messages}
use screech.Example.Opening.{entered, opens}

module _ {N : Type 0} where
  -- A program behind the connection: nothing is on the stream.
  abbrev pub connected : N → Bytes → Peer N
  connected side buf = record { noise = side; buf = buf; incoming = []; outgoing = [] }

  -- A program that has written a message, and is not sent any.
  abbrev wrote : N → Bytes → Bytes → Peer N
  wrote side buf text = record { noise = side; buf = buf; incoming = []; outgoing = frame text }

module _ {R C H D : Type 0} ⦃cipher_ops : Cipher C⦄ ⦃hash_ops : Hash H⦄ ⦃ops : Dh R D⦄
    ⦃laws : DhLaws R D⦄ ⦃cipher_laws : CipherLaws C⦄ ⦃hash_laws : HashLaws H⦄ ⦃sizes : HashSizes H⦄
    ⦃total : DhTotal R D⦄ where
  -- Which message is next, by the state of its writer.
  record At (hs : HandshakeState R C H D) (k : ℕ) : Type 0 where
    pub patterns : hs.message_patterns ≡ messages
    pub position : hs.pattern_position ≡ k

  message-At :
      (hs : HandshakeState R C H D) (k : ℕ) {ts : List Token}
      → At hs k
      → get_elem? messages k ≡ some ts
      → get_elem? hs.message_patterns hs.pattern_position ≡ some ts
  message-At hs k here found = rw (here.patterns, here.position) found

  told-At :
      {w r : Peer (HandshakeState R C H D)} {count : ℕ} (k : ℕ) (a : Told w r count)
      → At w.noise k
      → At a.reader (suc k)
  told-At k a here = record {
    patterns = a.patterns ∙ here.patterns;
    position = a.next ∙ ap suc here.position;
  }

  all_sent : (hs : HandshakeState R C H D) → At hs 3 → is_handshake_finished hs ≡ true
  all_sent hs here = rw (here.patterns, here.position) refl

  -- The three messages, each told on one side and listened to on the other.
  record Handshake (hs hs' : HandshakeState R C H D) (buf buf' : Bytes) : Type 0 where
    pub one : Told (connected hs buf) (connected hs' buf') 2
    pub two : Told (connected one.reader one.reader_buf) (connected one.writer one.writer_buf) 7
    pub three : Told (connected two.reader two.reader_buf) (connected two.writer two.writer_buf) 11
    pub finished : is_handshake_finished three.reader ≡ true
    pub role : three.reader.initiator ≡ false
    pub room : maxmsglen ≤ length three.writer_buf
    pub room' : maxmsglen ≤ length three.reader_buf

  handshake :
      (hs hs' : HandshakeState R C H D) (buf buf' : Bytes)
      → IsReady hs hs'
      → IsAble hs hs' 0
      → At hs 0
      → hs.initiator ≡ true
      → length buf ≡ maxmsglen
      → length buf' ≡ maxmsglen
      → Handshake hs hs' buf buf'
  unfolding dh_len
  handshake hs hs' buf buf' ready able here role size size' =
      let short = laws.pub_len_bound hs.s.inner in
      let m1 = Token.e ∷ [] in
      let m2 = Token.e ∷ Token.dh ee ∷ Token.s ∷ Token.dh es ∷ [] in
      let m3 = Token.s ∷ Token.dh se ∷ Token.psk 3 ∷ [] in
      let a =
        tells m1 (connected hs buf) (connected hs' buf') 0 ready able (message-At hs 0 here refl)
          (omega arith) (omega (arith, short, size)) (omega (arith, short)) in
      let b =
        tells m2 (connected a.reader a.reader_buf) (connected a.writer a.writer_buf) 2 a.ready
          a.able (message-At a.reader 1 (told-At 0 a here) refl) (omega arith)
          (omega (arith, a.len, short, a.reader_size, size')) (omega (arith, a.len, short)) in
      let c =
        tells m3 (connected b.reader b.reader_buf) (connected b.writer b.writer_buf) 7 b.ready
          b.able (message-At b.reader 2 (told-At 1 b (told-At 0 a here)) refl) (omega arith)
          (omega (arith, b.len, a.len, short, b.reader_size, a.writer_size, size))
          (omega (arith, b.len, a.len, short)) in
      record {
        one = a;
        two = b;
        three = c;
        finished = all_sent c.reader (told-At 2 c (told-At 1 b (told-At 0 a here)));
        role = ground (
          arith, c.role, b.ready.in_step.roles, b.role, a.ready.in_step.roles, a.role,
          ready.in_step.roles, role,
        );
        room = omega (arith, c.writer_size, b.reader_size, a.writer_size, size);
        room' = omega (arith, c.reader_size, b.writer_size, a.reader_size, size');
      }

  -- What each program does, from where the other one has come.
  runs :
      (rounds : ℕ) (hs hs' : HandshakeState R C H D) (buf buf' : Bytes)
      → rounds ≤ u64_max
      → Handshake hs hs' buf buf'
      → session rounds (connected hs buf) (connected hs' buf') ≡ ok (replicate rounds planet)
  unfolding session client_start client_rest server_start server_rest
  runs rounds hs hs' buf buf' bound h =
      let a = h.one in
      let b = h.two in
      let c = h.three in
      let o = opens c.reader c.writer c.ready h.finished h.role in
      let p = record (wrote o.client c.writer_buf (c.text)) { incoming = [] } in
      let (p', added, notifies, sent, serves) =
        serve-notify rounds p (connected o.server c.reader_buf) o.fresh
          (omega (arith, o.zero, bound)) (omega (arith, h.room)) (omega (arith, h.room')) in
      let heard =
        a.listened (record (connected hs' buf') { incoming = frame a.text }) [] refl refl
          (sym (append-nil (frame a.text))) in
      let heard' =
        b.listened (record (connected a.writer a.writer_buf) { incoming = frame b.text }) [] refl
          refl (sym (append-nil (frame b.text))) in
      let heard'' =
        c.listened (record (connected b.writer b.writer_buf) { incoming = p'.outgoing }) added refl
          refl sent in
      let enters = entered (wrote c.writer c.writer_buf c.text) o.client_converts in
      let enters' =
        entered (record (connected c.reader c.reader_buf) { incoming = added }) o.server_converts in
      rw (a.told, heard, b.told, heard', c.told, enters, notifies, heard'', enters') serves

  -- Under the laws of cipher, hash and Diffie-Hellman function, and with a function whose `dh` and
  -- `generate` do not fail on key pairs: with resolvers that give both programs the same cipher, hash
  -- and key object for the protocol name of the example, where both have configured their builders
  -- and built the initiator and the responder, and with buffers of 65535 bytes: no `unwrap` of what
  -- the programs do then panics, and the server, which returns from its loop, has printed the client's
  -- message once for each round, of which there are no more than nonces.
  pub session-prints :
      (rounds : ℕ) (a b : Resolver R C H D) (buf buf' : Bytes) {i r : Builder R C H D}
      {hs hs' : HandshakeState R C H D}
      → SameSuite a b
      → configured a ≡ ok i
      → configured b ≡ ok r
      → build i true ≡ ok hs
      → build r false ≡ ok hs'
      → length buf ≡ maxmsglen
      → length buf' ≡ maxmsglen
      → rounds ≤ u64_max
      → session rounds (connected hs buf) (connected hs' buf') ≡ ok (replicate rounds planet)
  session-prints rounds a b buf buf' {i} {r} {hs} {hs'} same set set' made made' size size' bound =
      let match = configured-IsMatching a b same set set' in
      let starts = IsMade-Starts i true ((build-IsMade i true).at hs made) in
      let here : At hs 0 = record {
        patterns =
            starts.patterns ∙ params_messages i.params (configured_params a set) starts.found;
        position = starts.position;
      } in
      runs rounds hs hs' buf buf' bound (
        handshake hs hs' buf buf' (build-IsReady i r match made made')
          (build-IsAble i r match (configured_psks a set) made made') here starts.role size size')
