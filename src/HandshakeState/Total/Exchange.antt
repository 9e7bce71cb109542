-- ===== src/HandshakeState/Total/Exchange.antt =====
-- A message goes through between two sides in step (src/handshakestate.rs), and they can go on.
use screech.Base.{
  ℕ, suc, ◌+◌, ◌≤◌, ◌<◌, ◌≡◌, ap, ◌∙◌, true, not, List, some, Bytes, length, take, drop, get_elem?,
  drop-get_elem?, arith,
}
use screech.Constants.{taglen, maxmsglen}
use screech.Outcome.{Outcome, ok}
use screech.Types.{Cipher, Hash, Dh, u64_max}
use screech.Types.Laws.{CipherLaws, HashLaws, DhLaws}
use screech.Types.Total.{HashSizes, DhTotal}
use screech.Params.Table.{Token}
use screech.Params.Readable.{received_all}
use screech.SymmetricState.Total.{IsRunning}
use screech.Toggle.{Toggle}
use screech.HandshakeState.{HandshakeState, dh_len}
use screech.HandshakeState.Write.{write_message}
use screech.HandshakeState.Read.{read_message}
use screech.HandshakeState.InStep.{InStep, Knows, known_to}
use screech.HandshakeState.InStep.Message.{exchanged, IsExchanged}
use screech.HandshakeState.InStep.Conversation.{IsReady, can_read-IsReady, exchanged-IsReady}
use screech.Params.Writable.{sent_all, all_writable}
use screech.HandshakeState.Total.{tokens_len, IsWriter, IsOwned, own_keys}
use screech.HandshakeState.Total.Message.{Sent, write_message_returns}
use screech.HandshakeState.Total.Reader.{read_message_keys}

module _ {R D : Type 0} ⦃ops : Dh R D⦄ ⦃laws : DhLaws R D⦄ where
  Knows-IsOwned :
      (known : Toggle Bytes) (own : Toggle D)
      → Knows R known own
      → known.is_on ≡ true
      → IsOwned R D known.inner
  Knows-IsOwned known own k on = record { owner = own.inner; pair = k.pair on; key = k.key on }

module _ {R C H D : Type 0} ⦃cipher_ops : Cipher C⦄ ⦃hash_ops : Hash H⦄ ⦃ops : Dh R D⦄
    ⦃laws : DhLaws R D⦄ where
  -- The two sides can write all messages that are left.
  pub record IsAble (w r : HandshakeState R C H D) (count : ℕ) : Type 0 where
    pub running : IsRunning w.symmetricstate count
    pub writable :
        all_writable w.initiator
          (own_keys w)
          (known_to w)
          (own_keys r)
          (known_to r)
          w.psks
          (drop w.pattern_position w.message_patterns)
        ≡ true

  able-IsWriter :
      (w r : HandshakeState R C H D) (count : ℕ)
      → InStep w r
      → IsRunning w.symmetricstate count
      → IsWriter w count
  able-IsWriter w r count h run = record {
    running = run;
    e_len = h.w_sound.e_len;
    s_pair = h.w_sound.s_pair;
    e_pair = h.w_sound.e_pair;
    fixed_pair = h.w_sound.fixed_pair;
    rs_owned = Knows-IsOwned w.rs r.s h.w_s;
    re_owned = Knows-IsOwned w.re r.e h.w_e;
  }

module _ {R C H D : Type 0} ⦃cipher_ops : Cipher C⦄ ⦃hash_ops : Hash H⦄ ⦃ops : Dh R D⦄
    ⦃laws : DhLaws R D⦄ ⦃cipher_laws : CipherLaws C⦄ where
  -- Behind a message, from its writer and reader to the next ones.
  exchanged-IsAble :
      (payload buffer : Bytes) (w r : HandshakeState R C H D) {w' r' : HandshakeState R C H D}
      {q : Outcome ℕ} {buffer' : Bytes} (count : ℕ)
      → InStep w r
      → (x : IsExchanged payload buffer w r w' q r' buffer') → IsRunning w'.symmetricstate count
      → own_keys w' ≡ sent_all x.tokens (own_keys w)
      → own_keys r' ≡ own_keys r
      → w'.psks ≡ w.psks
      → all_writable
          (not w.initiator)
          (own_keys r)
          (received_all x.tokens (known_to r))
          (sent_all x.tokens (own_keys w))
          (known_to w)
          w.psks
          (drop (suc w.pattern_position) w.message_patterns)
        ≡ true
      → IsAble r' w' count
  exchanged-IsAble payload buffer w r {w'} {r'} count step x run own own' psks left =
      let role : r'.initiator ≡ not w.initiator = x.same_role ∙ step.roles in
      let psks' : r'.psks ≡ w.psks = x.in_step.same_psks ∙ psks in
      let at : r'.pattern_position ≡ suc w.pattern_position =
        x.in_step.same_position ∙ omega (arith, x.next) in
      let patterns : r'.message_patterns ≡ w.message_patterns =
        x.in_step.same_patterns ∙ x.patterns in
      record {
        running = rw x.in_step.symmetric run;
        writable = rw (role, own, own', x.knows, x.keeps, psks', at, patterns) left;
      }

  -- A message that was written, and what it leaves on both sides once it is handed over.
  pub record GoesThrough (payload out buffer : Bytes) (w r : HandshakeState R C H D) (count : ℕ)
      : Type 0 where
    pub number : ℕ
    pub after : HandshakeState R C H D
    pub text : Bytes
    pub is : write_message payload (w, out) ≡ (ok number, (after, text))
    pub size : length text ≡ length out
    pub room : number ≤ length text
    pub short : number ≤ maxmsglen
    pub got : (read_message (take number text) (r, buffer)).0 ≡ ok (length payload)
    pub heard : take (length payload) (read_message (take number text) (r, buffer)).1.1 ≡ payload
    pub kept : length (read_message (take number text) (r, buffer)).1.1 ≡ length buffer
    pub ready : IsReady (read_message (take number text) (r, buffer)).1.0 after
    pub able : IsAble (read_message (take number text) (r, buffer)).1.0 after count
    pub role : (read_message (take number text) (r, buffer)).1.0.initiator ≡ r.initiator
    pub next : after.pattern_position ≡ w.pattern_position + 1
    pub patterns : after.message_patterns ≡ w.message_patterns
    pub len : dh_len (read_message (take number text) (r, buffer)).1.0 ≡ dh_len w

  handed_over :
      (payload out buffer : Bytes) (ts : List Token) (w r : HandshakeState R C H D)
      (count count' : ℕ)
      → IsReady w r
      → IsAble w r count
      → get_elem? w.message_patterns w.pattern_position ≡ some ts
      → length payload ≤ length buffer
      → Sent (write_message payload (w, out)) w out count' (sent_all ts (own_keys w))
      → GoesThrough payload out buffer w r count'
  unfolding all_writable dh_len
  handed_over payload out buffer ts w r count count' ready able at fits sent =
      let step = ready.in_step in
      let tail = drop-get_elem? w.pattern_position w.message_patterns at in
      let writable = able.writable in
      let x =
        exchanged payload out buffer w r step (can_read-IsReady w r ready) ready.reader fits
          sent.is in
      let keys = read_message_keys (take sent.number sent.text) (r, buffer) in
      let own : own_keys (read_message (take sent.number sent.text) (r, buffer)).1.0 ≡ own_keys r =
        cc (keys.s, keys.e) in
      let tokens : x.tokens ≡ ts = cc (x.at, at) in
      record {
        number = sent.number;
        after = sent.after;
        text = sent.text;
        is = sent.is;
        size = sent.size;
        room = sent.room;
        short = sent.short;
        got = x.outcome;
        heard = x.text;
        kept = x.size;
        ready = exchanged-IsReady payload buffer w r ready x;
        able =
            exchanged-IsAble payload buffer w r count' step x sent.running (rw tokens sent.own) own
              sent.psks (rw tokens (ground (arith, writable, tail)));
        role = x.same_role;
        next = x.next;
        patterns = x.patterns;
        len = ap (λ (d : Toggle D). ops.pub_len d.inner) keys.s ∙ step.lengths;
      }

module _ {R C H D : Type 0} ⦃cipher_ops : Cipher C⦄ ⦃hash_ops : Hash H⦄ ⦃ops : Dh R D⦄
    ⦃laws : DhLaws R D⦄ ⦃cipher_laws : CipherLaws C⦄ ⦃hash_laws : HashLaws H⦄ ⦃sizes : HashSizes H⦄
    ⦃total : DhTotal R D⦄ where
  pub goes_through :
      (payload out buffer : Bytes) (ts : List Token) (w r : HandshakeState R C H D) (count : ℕ)
      → IsReady w r
      → IsAble w r count
      → get_elem? w.message_patterns w.pattern_position ≡ some ts
      → count + length ts < u64_max
      → tokens_len (dh_len w) ts + length payload + taglen ≤ length out
      → tokens_len (dh_len w) ts + length payload + taglen ≤ maxmsglen
      → length payload ≤ length buffer
      → GoesThrough payload out buffer w r (count + length ts + 1)
  unfolding all_writable
  goes_through payload out buffer ts w r count ready able at left room limit fits =
      let tail = drop-get_elem? w.pattern_position w.message_patterns at in
      let writable = able.writable in
      handed_over payload out buffer ts w r count (count + length ts + 1) ready able at fits (
        write_message_returns payload ts w out count
          (able-IsWriter w r count ready.in_step able.running) ready.writer at
          (ground (arith, writable, tail)) left room limit)
