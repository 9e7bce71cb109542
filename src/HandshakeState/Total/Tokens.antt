-- ===== src/HandshakeState/Total/Tokens.antt =====
-- The tokens of a message go through (src/handshakestate.rs): `write_token` and the loop over it.
use screech.Base.{
  ℕ, ◌+◌, ◌≤◌, ◌<◌, ◌≡◌, refl, ◌∙◌, Bool, true, false, not, ◌++◌, none, some, Bytes, length, take,
  drop, get_elem?, length-append, length-take, length-drop, Bool-cases, inl, inr, Option-cases,
  arith,
}
use screech.Constants.{taglen}
use screech.Exec.{on}
use screech.Outcome.{Outcome, ok}
use screech.Types.{Cipher, Hash, Dh, u64_max}
use screech.Types.Laws.{CipherLaws, HashLaws, DhLaws}
use screech.Types.Total.{HashSizes, DhTotal}
use screech.Params.Modifier.{is_psk}
use screech.Params.Table.{Token, DhToken}
use screech.Params.Readable.{Known, is_known}
use screech.SymmetricState.{SymmetricState}
use screech.SymmetricState.Total.{
  IsRunning, mix_hash_returns, mix_key_returns, mix_key_and_hash_returns, encrypt_runs,
}
use screech.HandshakeState.{HandshakeState, dh_len}
use screech.HandshakeState.Write.{mix_dh, mix_psk, write_e, write_s, encrypt_rest, write_at}
use screech.HandshakeState.InStep.{known_to}
use screech.HandshakeState.InStep.Ephemeral.{generated, mix_ephemeral}
use screech.Params.Writable.{has_psk, sent}
use screech.HandshakeState.Total.{IsWriter, own_keys, dh_returns}

module _ {C H : Type 0} ⦃cipher_ops : Cipher C⦄ ⦃hash_ops : Hash H⦄ ⦃cipher_laws : CipherLaws C⦄
    ⦃hash_laws : HashLaws H⦄ ⦃sizes : HashSizes H⦄ where
  mix_ephemeral_returns :
      (psk : Bool) (key : Bytes) (self : SymmetricState C H) (count : ℕ)
      → IsRunning self count
      → (st : SymmetricState C H) × (mix_ephemeral psk key self ≡ (ok tt, st)) × IsRunning st count
  unfolding mix_ephemeral
  mix_ephemeral_returns true key self count run =
      let (mid, e, run') = mix_hash_returns key self count run in
      let (st, e', run'') = mix_key_returns key mid count run' in (st, ground (arith, e, e'), run'')
  mix_ephemeral_returns false key self count run =
      let (mid, e, run') = mix_hash_returns key self count run in (mid, ground (arith, e), run')

module _ {R C H D : Type 0} ⦃cipher_ops : Cipher C⦄ ⦃hash_ops : Hash H⦄ ⦃ops : Dh R D⦄
    ⦃laws : DhLaws R D⦄ where
  -- A call for a token, or for several, that returned, and the writer behind it.
  pub record Wrote (call : Outcome ℕ × (HandshakeState R C H D × Bytes))
      (hs : HandshakeState R C H D) (message : Bytes) (at count : ℕ) (keys : Known) : Type 0 where
    pub next : ℕ
    pub after : HandshakeState R C H D
    pub text : Bytes
    pub is : call ≡ (ok next, (after, text))
    pub writer : IsWriter after count
    pub size : length text ≡ length message
    pub index : next ≤ at
    pub own : own_keys after ≡ keys
    pub known : known_to after ≡ known_to hs
    pub role : after.initiator ≡ hs.initiator
    pub psks : after.psks ≡ hs.psks
    pub len : dh_len after ≡ dh_len hs

  -- A side with another symmetric state.
  pub running-IsWriter :
      (hs : HandshakeState R C H D) (st : SymmetricState C H) (n m : ℕ)
      → IsWriter hs n
      → IsRunning st m
      → IsWriter (record hs { symmetricstate = st }) m
  unfolding dh_len
  running-IsWriter hs st n m w run = record {
    running = run;
    e_len = w.e_len;
    s_pair = w.s_pair;
    e_pair = w.e_pair;
    fixed_pair = w.fixed_pair;
    rs_owned = w.rs_owned;
    re_owned = w.re_owned;
  }

module _ {R C H D : Type 0} ⦃cipher_ops : Cipher C⦄ ⦃hash_ops : Hash H⦄ ⦃ops : Dh R D⦄
    ⦃laws : DhLaws R D⦄ ⦃cipher_laws : CipherLaws C⦄ ⦃hash_laws : HashLaws H⦄ ⦃sizes : HashSizes H⦄
    ⦃total : DhTotal R D⦄ where
  pub mix_dh_returns :
      (t : DhToken) (hs : HandshakeState R C H D) (count : ℕ)
      → IsWriter hs count
      → is_known t (not hs.initiator) (own_keys hs) ≡ true
      → is_known t hs.initiator (known_to hs) ≡ true
      → (st : SymmetricState C H) × (mix_dh t hs ≡ (ok tt, record hs { symmetricstate = st }))
        × IsRunning st count
  unfolding mix_dh dh_len
  mix_dh_returns t hs count w own known =
      let (out, e, len) = dh_returns hs count t w own known in
      let (st, mixed, run) =
        mix_key_returns (take (dh_len hs) out) hs.symmetricstate count w.running in
      (st, ground (arith, e, len, laws.pub_len_bound hs.s.inner, mixed), run)

  pub mix_psk_returns :
      (n : ℕ) (hs : HandshakeState R C H D) (count : ℕ)
      → IsWriter hs count
      → has_psk hs.psks n ≡ true
      → (st : SymmetricState C H) × (mix_psk n hs ≡ (ok tt, record hs { symmetricstate = st }))
        × IsRunning st count
  unfolding mix_psk
  mix_psk_returns n hs count w has = elim (Option-cases (get_elem? hs.psks n)) [
    | inl e ↦ absurd (ground (arith, has, e))
    | inr (none, e) ↦ absurd (ground (arith, has, e))
    | inr (some psk, e) ↦
        let (st, mixed, run) = mix_key_and_hash_returns psk hs.symmetricstate count w.running in
        (st, ground (arith, e, mixed), run)
  ]

  -- The ephemeral key that is sent.
  record Ephemeral (hs : HandshakeState R C H D) : Type 0 where
    pub d : D
    pub rng : R
    pub is : generated hs ≡ (ok tt, record hs { e = record hs.e { inner = d }; rng = rng })
    pub pair : ops.pubkey d ≡ laws.public (ops.privkey d)
    pub len : ops.pub_len d ≡ dh_len hs

  generated-Ephemeral : (hs : HandshakeState R C H D) (count : ℕ) → IsWriter hs count → Ephemeral hs
  unfolding generated
  generated-Ephemeral hs count w = elim (Bool-cases hs.fixed_ephemeral) [
    | inl fixed ↦ record {
      d = hs.e.inner;
      rng = hs.rng;
      is = ground (arith, fixed);
      pair = w.fixed_pair fixed;
      len = w.e_len;
    }
    | inr free ↦
        let s : D × R = (hs.e.inner, hs.rng) in
        record {
          d = (ops.generate s).1.0;
          rng = (ops.generate s).1.1;
          is = ground (arith, free, total.generate_ok s);
          pair = laws.generate_pair s (total.generate_ok s);
          len = laws.pub_len-generate s ∙ w.e_len;
        }
  ]

  pub write_e_returns :
      (i : ℕ) (hs : HandshakeState R C H D) (message : Bytes) (count : ℕ)
      → IsWriter hs count
      → i + dh_len hs ≤ length message
      → Wrote
          (write_e i (hs, message))
          hs
          message
          (i + dh_len hs)
          count
          (sent Token.e (own_keys hs))
  unfolding write_e write_at dh_len generated mix_ephemeral
  write_e_returns i hs message count w room =
      let g = generated-Ephemeral hs count w in
      let key = ops.pubkey g.d in
      let key_len : length key ≡ ops.pub_len hs.s.inner = laws.length-pubkey g.d g.pair ∙ g.len in
      let (st, mixed, run) =
        mix_ephemeral_returns (is_psk hs.params.handshake) key hs.symmetricstate count w.running in
      record {
        next = i + length key;
        after = record hs {
          symmetricstate = st;
          e = record { inner = g.d; is_on = true };
          rng = g.rng;
        };
        text = take i message ++ (key ++ drop (i + length key) message);
        is = ground (arith, room, key_len, w.e_len, g.is, mixed);
        writer = record {
          running = run;
          e_len = g.len;
          s_pair = w.s_pair;
          e_pair = λ _. g.pair;
          fixed_pair = λ _. g.pair;
          rs_owned = w.rs_owned;
          re_owned = w.re_owned;
        };
        size = omega (
          arith,
          room,
          key_len,
          length-take i message,
          length-drop (i + length key) message,
          length-append (take i message) (key ++ drop (i + length key) message),
          length-append key (drop (i + length key) message),
        );
        index = omega (arith, key_len);
        own = refl;
        known = refl;
        role = refl;
        psks = refl;
        len = refl;
      }

  pub encrypt_rest_returns :
      (i : ℕ) (pt : Bytes) (hs : HandshakeState R C H D) (message : Bytes) (count : ℕ)
      → IsWriter hs count
      → count < u64_max
      → i + length pt + taglen ≤ length message
      → (n : ℕ) × (st : SymmetricState C H) × (text : Bytes) × (encrypt_rest i pt (hs, message)
          ≡ (ok n, (record hs { symmetricstate = st }, text)))
        × IsRunning st (count + 1)
        × (length text ≡ length message)
        × (n ≤ length pt + taglen)
  unfolding encrypt_rest
  encrypt_rest_returns i pt hs message count w left room =
      let rest = length-drop i message in
      let (n, st, out, e, run, len, bound) =
        encrypt_runs pt (drop i message) hs.symmetricstate count w.running left
          (omega (arith, room, rest)) in
      (
        n,
        st,
        take i message ++ out,
        ground (arith, room, e),
        run,
        omega (arith, room, len, rest, length-take i message, length-append (take i message) out),
        bound,
      )

  pub write_s_returns :
      (i : ℕ) (hs : HandshakeState R C H D) (message : Bytes) (count : ℕ)
      → IsWriter hs count
      → hs.s.is_on ≡ true
      → count < u64_max
      → i + (dh_len hs + taglen) ≤ length message
      → Wrote
          (write_s i (hs, message))
          hs
          message
          (i + (dh_len hs + taglen))
          (count + 1)
          (own_keys hs)
  unfolding write_s dh_len
  write_s_returns i hs message count w on left room =
      let key = ops.pubkey hs.s.inner in
      let key_len : length key ≡ ops.pub_len hs.s.inner =
        laws.length-pubkey hs.s.inner (w.s_pair on) in
      let (n, st, text, e, run, len, bound) =
        encrypt_rest_returns i key hs message count w left (omega (arith, key_len, room)) in
      record {
        next = i + n;
        after = record hs { symmetricstate = st };
        text = text;
        is = ground (arith, on, room, key_len, e);
        writer = running-IsWriter hs st count (count + 1) w run;
        size = len;
        index = omega (arith, bound, key_len);
        own = refl;
        known = refl;
        role = refl;
        psks = refl;
        len = refl;
      }

  -- A token that writes nothing.
  pub mixed-Wrote :
      (i : ℕ) (hs : HandshakeState R C H D) (message : Bytes) (count : ℕ)
      (call : Outcome ℕ × (HandshakeState R C H D × Bytes)) (st : SymmetricState C H)
      → IsWriter hs count
      → IsRunning st count
      → call ≡ (ok i, (record hs { symmetricstate = st }, message))
      → Wrote call hs message (i + 0) count (own_keys hs)
  unfolding dh_len
  mixed-Wrote i hs message count call st w run e = record {
    next = i;
    after = record hs { symmetricstate = st };
    text = message;
    is = e;
    writer = running-IsWriter hs st count count w run;
    size = refl;
    index = omega arith;
    own = refl;
    known = refl;
    role = refl;
    psks = refl;
    len = refl;
  }
