-- ===== src/Example/Handshake.antt =====
-- A handshake message from one program of src/examples/simple.rs to the other.
use screech.Base.{
  ℕ, suc, ◌+◌, ◌^◌, ◌≤◌, ◌<◌, ◌≡◌, sym, ap, ◌∙◌, some, List, [], ◌++◌, Bytes, length, take,
  get_elem?, length-take, arith,
}
use screech.Constants.{taglen, maxmsglen}
use screech.Outcome.{ok}
use screech.Types.{Cipher, Hash, Dh, u64_max}
use screech.Types.Laws.{CipherLaws, HashLaws, DhLaws}
use screech.Types.Total.{HashSizes, DhTotal}
use screech.Params.Table.{Token}
use screech.HandshakeState.{HandshakeState, dh_len}
use screech.HandshakeState.Write.{write_message}
use screech.HandshakeState.Read.{read_message}
use screech.HandshakeState.InStep.Conversation.{Talk, silent, message, IsReady}
use screech.HandshakeState.Total.{tokens_len}
use screech.HandshakeState.Total.Exchange.{IsAble, goes_through}
use screech.Example.{Peer, tell, listen}
use screech.Example.Framing.{frame}
use screech.Example.Turns.{tell_ok, listen_ok}

module _ {R C H D : Type 0} ⦃cipher_ops : Cipher C⦄ ⦃hash_ops : Hash H⦄ ⦃ops : Dh R D⦄
    ⦃laws : DhLaws R D⦄ where
  -- A message that was told and can be listened to, whatever else follows it on the stream.
  pub record Told (w r : Peer (HandshakeState R C H D)) (count : ℕ) : Type 0 where
    pub text : Bytes
    pub writer : HandshakeState R C H D
    pub writer_buf : Bytes
    pub reader : HandshakeState R C H D
    pub reader_buf : Bytes
    pub told : tell (write_message []) w ≡ (
      ok tt,
      record w { noise = writer; buf = writer_buf; outgoing = w.outgoing ++ frame text },
    )
    pub listened :
        (p : Peer (HandshakeState R C H D)) (rest : Bytes)
        → p.noise ≡ r.noise
        → p.buf ≡ r.buf
        → p.incoming ≡ frame text ++ rest
        → listen read_message p
          ≡ (ok tt, record p { noise = reader; buf = reader_buf; incoming = rest })
    pub ready : IsReady reader writer
    pub able : IsAble reader writer count
    pub talk : Talk w.noise r.noise reader writer
    pub role : reader.initiator ≡ r.noise.initiator
    pub next : reader.pattern_position ≡ suc w.noise.pattern_position
    pub patterns : reader.message_patterns ≡ w.noise.message_patterns
    pub len : dh_len reader ≡ dh_len w.noise
    pub writer_size : length writer_buf ≡ length w.buf
    pub reader_size : length reader_buf ≡ length r.buf

module _ {R C H D : Type 0} ⦃cipher_ops : Cipher C⦄ ⦃hash_ops : Hash H⦄ ⦃ops : Dh R D⦄
    ⦃laws : DhLaws R D⦄ ⦃cipher_laws : CipherLaws C⦄ ⦃hash_laws : HashLaws H⦄ ⦃sizes : HashSizes H⦄
    ⦃total : DhTotal R D⦄ where
  pub tells :
      (ts : List Token) (w r : Peer (HandshakeState R C H D)) (count : ℕ)
      → IsReady w.noise r.noise
      → IsAble w.noise r.noise count
      → get_elem? w.noise.message_patterns w.noise.pattern_position ≡ some ts
      → count + length ts < u64_max
      → tokens_len (dh_len w.noise) ts + taglen ≤ length w.buf
      → tokens_len (dh_len w.noise) ts + taglen ≤ maxmsglen
      → Told w r (count + length ts + 1)
  tells ts w r count ready able at left room limit =
      let g =
        goes_through [] w.buf r.buf ts w.noise r.noise count ready able at left
          (omega (arith, room)) (omega (arith, limit)) (omega arith) in
      let m = take g.number g.text in
      let (q, (reader, reader_buf)) = read_message m (r.noise, r.buf) in
      let short : length m < 2 ^ 16 = omega (arith, length-take g.number g.text, g.short) in
      let step = g.ready.in_step in
      record {
        text = m;
        writer = g.after;
        writer_buf = g.text;
        reader = reader;
        reader_buf = reader_buf;
        told = tell_ok (write_message []) w g.is g.room;
        listened = λ p rest same same' front.
            listen_ok read_message p m rest {n = 0} {after = reader} {text = reader_buf} front short
              (rw (same, same') (ap (λ q. (q, (reader, reader_buf))) g.got));
        ready = g.ready;
        able = g.able;
        talk = message [] w.buf r.buf silent (omega arith) g.is;
        role = g.role;
        next = omega (arith, step.same_position, g.next);
        patterns = sym step.same_patterns ∙ g.patterns;
        len = g.len;
        writer_size = g.size;
        reader_size = g.kept;
      }
