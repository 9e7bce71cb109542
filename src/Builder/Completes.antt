-- ===== src/Builder/Completes.antt =====
-- Two matching builders (src/builder.rs) whose handshake goes through to the transport phase.
use screech.Base.{
  ◌≤◌, ◌≡◌, ◌⊎◌, refl, ap, Bool, true, false, List, Option, some, none, Bytes, drop, replicate,
  arith,
}
use screech.Constants.{maxdhlen}
use screech.Outcome.{ok}
use screech.Toggle.{toggle_off}
use screech.Types.{Cipher, Hash, Dh, u64_max}
use screech.Types.Laws.{CipherLaws, HashLaws, DhLaws}
use screech.Types.Total.{HashSizes, DhTotal}
use screech.Params.Pattern.{needs_local_static_key, need_known_remote_pubkey}
use screech.Params.Tokens.{HandshakeTokens, try_from}
use screech.Params.Readable.More.{HasMore}
use screech.Params.Writable.{all_writable-HasMore, static_only}
use screech.Params.Writable.Modifiers.{has_psks, patterns-writable}
use screech.CipherState
use screech.HandshakeState.{HandshakeState, dh_len}
use screech.HandshakeState.Start.{new-started}
use screech.HandshakeState.Start.Running.{new-IsRunning}
use screech.HandshakeState.InStep.{known_to}
use screech.HandshakeState.InStep.Conversation.{Talk}
use screech.HandshakeState.Total.{own_keys}
use screech.HandshakeState.Total.Exchange.{IsAble}
use screech.HandshakeState.Total.Completes.{
  Letter, Fit, seals_bound, correspond, payloads, completes,
}
use screech.TransportState.{TransportState, into_transport_mode}
use screech.TransportState.Session.{IsFresh}
use screech.TransportState.Opening.{Talk-then-IsFresh}
use screech.Builder.{Builder, build, is_some, or_empty}
use screech.Builder.Prerequisites.{given, build-IfOk}
use screech.Builder.Keys.{build_rs_inv, build_s_inv, build_e_inv}
use screech.Builder.Made.{IsMade, build-IsMade}
use screech.Builder.Matching.{IsMatching, build-IsReady}

given-HasMore :
    (key : Option Bytes) (needed : Bool)
    → given key needed ≡ true
    → HasMore (static_only needed) (static_only (is_some key))
given-HasMore none true h = cc h
given-HasMore none false h = record { static = λ e. e; ephemeral = λ e. e }
given-HasMore (some key) needed h = record { static = λ _. refl; ephemeral = λ e. e }

module _ {R C H D : Type 0} ⦃cipher_ops : Cipher C⦄ ⦃hash_ops : Hash H⦄ ⦃ops : Dh R D⦄
    ⦃laws : DhLaws R D⦄ where
  -- The keys and the patterns of a state that was built.
  pub record Starts (b : Builder R C H D) (initiator : Bool) (hs : HandshakeState R C H D)
      : Type 0 where
    pub own : own_keys hs ≡ static_only (is_some b.s)
    pub known : known_to hs ≡ static_only (is_some b.rs)
    pub tokens : HandshakeTokens
    pub found : try_from b.params.handshake ≡ ok tokens
    pub patterns : hs.message_patterns ≡ tokens.msg_patterns
    pub position : hs.pattern_position ≡ 0
    pub role : hs.initiator ≡ initiator

  pub IsMade-Starts :
      (b : Builder R C H D) (initiator : Bool) {hs : HandshakeState R C H D}
      → IsMade b initiator hs
      → Starts b initiator hs
  IsMade-Starts b initiator {hs} m =
      let (_, s) = build_s_inv {R = R} b.s m.d {s = m.s} m.s_made in
      let (_, e) = build_e_inv {R = R} b.e_fixed m.d {e = m.e} m.e_made in
      let (rs, _) = build_rs_inv b.rs {rs = m.rs} m.rs_made in
      let (tokens, st, found, is) =
        new-started m.rng (CipherState.new m.cipher) m.hash m.s m.e (is_some b.e_fixed) m.rs
          (toggle_off (replicate maxdhlen 0)) initiator b.params m.psks (or_empty b.plog)
          m.cipherstates {hs = hs} m.made in
      record {
        own = ground (arith, is, s, e);
        known = ground (arith, is, rs);
        tokens = tokens;
        found = found;
        patterns = ap (λ h. h.message_patterns) is;
        position = ap (λ h. h.pattern_position) is;
        role = ap (λ h. h.initiator) is;
      }

module _ {R C H D : Type 0} ⦃cipher_ops : Cipher C⦄ ⦃hash_ops : Hash H⦄ ⦃ops : Dh R D⦄
    ⦃laws : DhLaws R D⦄ ⦃hash_laws : HashLaws H⦄ where
  pub build-IsAble :
      (i r : Builder R C H D) {hs hs' : HandshakeState R C H D}
      → IsMatching i r
      → has_psks i.psks i.params.handshake.modifiers.list ≡ true
      → build i true ≡ ok hs
      → build r false ≡ ok hs'
      → IsAble hs hs' 0
  build-IsAble i r {hs} {hs'} match psks made made' =
      let mi = (build-IsMade i true).at hs made in
      let mr = (build-IsMade r false).at hs' made' in
      let si = IsMade-Starts i true mi in
      let sr = IsMade-Starts r false mr in
      let bi = (build-IfOk i true).at hs made in
      let br = (build-IfOk r false).at hs' made' in
      let p = i.params.handshake.pattern in
      let local = rw match.same_params at br.local_given in
      let remote = rw match.same_params at br.remote_given in
      record {
        running =
            new-IsRunning mi.rng (CipherState.new mi.cipher) mi.hash mi.s mi.e (is_some i.e_fixed)
              mi.rs (toggle_off (replicate maxdhlen 0)) true i.params mi.psks (or_empty i.plog)
              mi.cipherstates {hs = hs} refl mi.made;
        writable =
            rw (si.role, si.own, si.known, sr.own, sr.known, si.position, si.patterns, bi.same_psks)
              (all_writable-HasMore true si.tokens.msg_patterns i.psks
                (static_only (needs_local_static_key p true))
                (static_only (need_known_remote_pubkey p true))
                (static_only (needs_local_static_key p false))
                (static_only (need_known_remote_pubkey p false)) (static_only (is_some i.s))
                (static_only (is_some i.rs)) (static_only (is_some r.s))
                (static_only (is_some r.rs)) (given-HasMore i.s _ bi.local_given)
                (given-HasMore i.rs _ bi.remote_given) (given-HasMore r.s _ local)
                (given-HasMore r.rs _ remote)
                (patterns-writable i.params.handshake i.psks psks si.found));
      }

module _ {R C H D : Type 0} ⦃cipher_ops : Cipher C⦄ ⦃hash_ops : Hash H⦄ ⦃ops : Dh R D⦄
    ⦃laws : DhLaws R D⦄ ⦃cipher_laws : CipherLaws C⦄ ⦃hash_laws : HashLaws H⦄ ⦃sizes : HashSizes H⦄
    ⦃total : DhTotal R D⦄ where
  -- Under the laws of cipher, hash and Diffie-Hellman function, and with a function whose `dh` and
  -- `generate` do not fail on key pairs: from two matching builders whose calls of `build` return, with
  -- the PSKs of all PSK modifiers, for any letters, one for each message, with which no message is
  -- longer than the limit and all fit the buffers, and with no more tokens and messages than nonces:
  -- when the sides take turns, each writing the payload of the next letter into its buffer and handing
  -- what it wrote to the other one, every call of `write_message` and of `read_message` returns, what
  -- was read are the payloads of the letters, and the two sides behind the last one convert into
  -- transport states of opposite roles with the same keys.
  pub handshake-completes :
      (i r : Builder R C H D) (letters : List Letter) {hs hs' : HandshakeState R C H D}
      → IsMatching i r
      → has_psks i.psks i.params.handshake.modifiers.list ≡ true
      → build i true ≡ ok hs
      → build r false ≡ ok hs'
      → seals_bound hs.message_patterns ≤ u64_max
      → Fit (dh_len hs) hs.message_patterns letters
      → (x : HandshakeState R C H D) × (y : HandshakeState R C H D) × (correspond letters hs hs'
          ≡ ok (payloads letters, x, y))
        × Talk hs hs' x y
        × (t : TransportState C) × (u : TransportState C) × (into_transport_mode x ≡ ok t)
        × (into_transport_mode y ≡ ok u)
        × (IsFresh t u ⊎ IsFresh u t)
  handshake-completes i r letters {hs} {hs'} match psks made made' bound fit =
      let ready = build-IsReady i r match made made' in
      let able = build-IsAble i r match psks made made' in
      let si = IsMade-Starts i true ((build-IsMade i true).at hs made) in
      let (x, y, sent, talk, done) =
        completes hs.message_patterns letters hs hs' 0 ready able
          (ap (λ n. drop n hs.message_patterns) si.position) (omega (arith, si.position))
          (omega (arith, bound)) fit in
      let (t, u, at, at', fresh, _, _) = Talk-then-IsFresh {a = x} {b = y} ready talk done in
      (x, y, sent, talk, t, u, at, at', fresh)
