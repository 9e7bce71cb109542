-- ===== src/HandshakeState/Total/Message.antt =====
-- A call of `write_message` goes through (src/handshakestate.rs).
use screech.Base.{
  ℕ, ◌+◌, ◌-◌, ◌≤◌, ◌<◌, ◌≡◌, refl, ◌∙◌, true, List, some, Bytes, length, get_elem?, leb, le→leb,
  ◌==◌, Bool-cases, inl, inr, arith,
}
use screech.Constants.{taglen, maxmsglen}
use screech.Outcome.{Outcome, ok}
use screech.Types.{Cipher, Hash, Dh, u64_max}
use screech.Types.Laws.{CipherLaws, HashLaws, DhLaws}
use screech.Types.Total.{HashSizes, DhTotal}
use screech.Params.Table.{Token}
use screech.Params.Readable.{Known}
use screech.CipherState.{CipherState}
use screech.SymmetricState.Total.{IsRunning, split_returns}
use screech.HandshakeState.{HandshakeState, dh_len}
use screech.HandshakeState.Write.{write_payload, write_message_inner, write_message, wrote}
use screech.Params.Writable.{is_writable, sent_all}
use screech.HandshakeState.Total.{tokens_len, IsWriter, own_keys}
use screech.HandshakeState.InStep.{known_to}
use screech.HandshakeState.Total.Tokens.{encrypt_rest_returns}
use screech.HandshakeState.Total.Loop.{write_tokens_returns}

module _ {R C H D : Type 0} ⦃cipher_ops : Cipher C⦄ ⦃hash_ops : Hash H⦄ ⦃ops : Dh R D⦄
    ⦃laws : DhLaws R D⦄ where
  -- A call that returned a number of bytes within the limit and the buffer, with what it leaves of the
  -- writer's keys and of its symmetric state.
  pub record Sent (call : Outcome ℕ × (HandshakeState R C H D × Bytes))
      (hs : HandshakeState R C H D) (message : Bytes) (count : ℕ) (keys : Known) : Type 0 where
    pub number : ℕ
    pub after : HandshakeState R C H D
    pub text : Bytes
    pub is : call ≡ (ok number, (after, text))
    pub size : length text ≡ length message
    pub room : number ≤ length text
    pub short : number ≤ maxmsglen
    pub running : IsRunning after.symmetricstate count
    pub own : own_keys after ≡ keys
    pub psks : after.psks ≡ hs.psks

module _ {R C H D : Type 0} ⦃cipher_ops : Cipher C⦄ ⦃hash_ops : Hash H⦄ ⦃ops : Dh R D⦄
    ⦃laws : DhLaws R D⦄ ⦃cipher_laws : CipherLaws C⦄ ⦃hash_laws : HashLaws H⦄ ⦃sizes : HashSizes H⦄
    ⦃total : DhTotal R D⦄ where
  write_payload_returns :
      (payload : Bytes) (i : ℕ) (hs : HandshakeState R C H D) (message : Bytes) (count : ℕ)
      → IsWriter hs count
      → count < u64_max
      → i + length payload + taglen ≤ length message
      → i + length payload + taglen ≤ maxmsglen
      → Sent (write_payload payload i (hs, message)) hs message (count + 1) (own_keys hs)
  unfolding write_payload
  write_payload_returns payload i hs message count w left room limit =
      let (n, st, text, e, run, len, bound) =
        encrypt_rest_returns i payload hs message count w left room in
      let short : leb (i + n) maxmsglen ≡ true = le→leb _ _ (omega (arith, bound, limit)) in
      elim (Bool-cases (hs.pattern_position == length hs.message_patterns - 1)) [
        | inl last ↦
            let children : CipherState C × CipherState C =
              (hs.cipherstates.initiator, hs.cipherstates.responder) in
            let (after, e', run') = split_returns st children (count + 1) run in
            record {
              number = i + n;
              after = record hs {
                symmetricstate = after.0;
                cipherstates = record { initiator = after.1.0; responder = after.1.1 };
              };
              text = text;
              is = ground (arith, room, e, short, last, e');
              size = len;
              room = omega (arith, room, len, bound);
              short = omega (arith, bound, limit);
              running = run';
              own = refl;
              psks = refl;
            }
        | inr more ↦ record {
          number = i + n;
          after = record hs { symmetricstate = st };
          text = text;
          is = ground (arith, room, e, short, more);
          size = len;
          room = omega (arith, room, len, bound);
          short = omega (arith, bound, limit);
          running = run;
          own = refl;
          psks = refl;
        }
      ]

  -- Under the laws of cipher, hash and Diffie-Hellman function, with a function whose `dh` and
  -- `generate` do not fail on key pairs: a side with whole hash buffers, key pairs, and keys of the
  -- other side that belong to key pairs, returns from `write_message` at its turn, where it has the
  -- keys and PSKs that the tokens of the message ask for, nonces for the tokens and the payload, and a
  -- buffer for a message within the limit; it then has sent its ephemeral key where a token says so.
  pub write_message_returns :
      (payload : Bytes) (ts : List Token) (hs : HandshakeState R C H D) (message : Bytes)
      (count : ℕ)
      → IsWriter hs count
      → hs.my_turn ≡ true
      → get_elem? hs.message_patterns hs.pattern_position ≡ some ts
      → is_writable hs.initiator (own_keys hs) (known_to hs) hs.psks ts ≡ true
      → count + length ts < u64_max
      → tokens_len (dh_len hs) ts + length payload + taglen ≤ length message
      → tokens_len (dh_len hs) ts + length payload + taglen ≤ maxmsglen
      → Sent
          (write_message payload (hs, message))
          hs
          message
          (count + length ts + 1)
          (sent_all ts (own_keys hs))
  unfolding write_message write_message_inner
  write_message_returns payload ts hs message count w turn at can left room limit =
      let x =
        write_tokens_returns ts 0 (tokens_len (dh_len hs) ts) hs message count w
          (omega (arith, left)) (omega arith) (omega (arith, room)) can in
      let y =
        write_payload_returns payload x.next x.after x.text (count + length ts) x.writer left
          (omega (arith, room, x.index, x.size)) (omega (arith, limit, x.index)) in
      record {
        number = y.number;
        after = wrote y.after;
        text = y.text;
        is = ground (arith, turn, at, x.is, y.is);
        size = y.size ∙ x.size;
        room = y.room;
        short = y.short;
        running = y.running;
        own = y.own ∙ x.own;
        psks = y.psks ∙ x.psks;
      }
