-- ===== src/Builder/Matching.antt =====
-- Two builders for the two sides of one handshake (src/builder.rs), and what they build.
use screech.Base.{
  ℕ, ◌≡◌, refl, sym, ap, ◌∙◌, Bool, true, false, List, Option, some, Bytes, length, take, replicate,
  length-replicate, arith,
}
use screech.Constants.{maxdhlen}
use screech.Outcome.{ok}
use screech.Toggle.{toggle_off}
use screech.Types.{Cipher, Hash, Dh}
use screech.Types.Laws.{DhLaws}
use screech.CipherState
use screech.CipherState.{CipherStates}
use screech.SymmetricState.{SymmetricState}
use screech.Params.NoiseParams.{NoiseParams}
use screech.Params.Tokens.{HandshakeTokens, try_from}
use screech.Params.PreMessages.{try_from-only_static, try_from-nonempty}
use screech.Params.Readable.{received_all, unknown}
use screech.Params.Readable.Modifiers.{patterns-readable}
use screech.Params.Readable.More.{all_readable-HasMore, received-premsg, has_static}
use screech.HandshakeState
use screech.HandshakeState.{HandshakeState, dh_len}
use screech.HandshakeState.Start.{started, new-agree}
use screech.HandshakeState.InStep.{InStep, IsSound}
use screech.HandshakeState.InStep.Conversation.{IsReady}
use screech.Builder.{Builder, build, is_some, or_empty}
use screech.Builder.Keys.{
  IsKeyOf, IsKeyObject, with_key, rs_buf, build_rs_inv, build_s_inv, build_e_inv, key_of-Knows,
}
use screech.Builder.Made.{IsMade, build-IsMade}

module _ {R C H D : Type 0} ⦃cipher_ops : Cipher C⦄ ⦃hash_ops : Hash H⦄ ⦃ops : Dh R D⦄
    ⦃laws : DhLaws R D⦄ where
  -- Two builders for one handshake: the same parameters, prologue and PSKs, implementations that
  -- start alike, and remote public keys that are those of the other side.
  pub record IsMatching (i r : Builder R C H D) : Type 0 where
    pub same_params : r.params ≡ i.params
    pub same_cipher :
        r.resolver.resolve_cipher i.params.cipher ≡ i.resolver.resolve_cipher i.params.cipher
    pub same_hash : r.resolver.resolve_hash i.params.hash ≡ i.resolver.resolve_hash i.params.hash
    pub same_dh : r.resolver.resolve_dh i.params.dh ≡ i.resolver.resolve_dh i.params.dh
    pub same_prologue : or_empty r.plog ≡ or_empty i.plog
    pub same_psks : r.psks ≡ i.psks
    pub i_key : (d : D) → i.resolver.resolve_dh i.params.dh ≡ some d → IsKeyOf R i.rs r.s d
    pub r_key : (d : D) → i.resolver.resolve_dh i.params.dh ≡ some d → IsKeyOf R r.rs i.s d

  -- The static key and the fixed ephemeral one of a side, and the buffers, as `build` makes them.
  abbrev made_state :
      R
      → CipherStates C
      → Builder R C H D
      → D
      → Bool
      → NoiseParams
      → List (Option Bytes)
      → HandshakeTokens
      → SymmetricState C H
      → HandshakeState R C H D
  made_state rng cs b d initiator params psks tokens st =
      started rng cs (record { inner = with_key R b.s d; is_on = is_some b.s })
        (record { inner = with_key R b.e_fixed d; is_on = false }) (is_some b.e_fixed)
        (record { inner = rs_buf b.rs; is_on = is_some b.rs }) (toggle_off (replicate maxdhlen 0))
        initiator params psks tokens st

  made-IsSound :
      (rng : R) (cs : CipherStates C) (b : Builder R C H D) (d : D) (initiator : Bool)
      (params : NoiseParams) (psks : List (Option Bytes)) (tokens : HandshakeTokens)
      (st : SymmetricState C H)
      → IsKeyObject R b.s d
      → IsKeyObject R b.e_fixed d
      → length (rs_buf b.rs) ≡ maxdhlen
      → IsSound (made_state rng cs b d initiator params psks tokens st)
  unfolding dh_len
  made-IsSound rng cs b d initiator params psks tokens st s e room = record {
    e_len = e.same_len ∙ sym s.same_len;
    rs_room = omega (arith, room, s.same_len, laws.pub_len_bound d);
    re_room = omega (arith, length-replicate {A = ℕ} maxdhlen 0, s.same_len, laws.pub_len_bound d);
    s_pair = s.pair;
    fixed_pair = e.pair;
    e_pair = λ on. cc on;
  }

  made-InStep :
      (rng rng' : R) (cs : CipherStates C) (i r : Builder R C H D) (d : D) (params : NoiseParams)
      (psks : List (Option Bytes)) (tokens : HandshakeTokens) (st : SymmetricState C H)
      → IsKeyObject R i.s d
      → IsKeyObject R i.e_fixed d
      → IsKeyObject R r.s d
      → IsKeyObject R r.e_fixed d
      → length (rs_buf i.rs) ≡ maxdhlen
      → length (rs_buf r.rs) ≡ maxdhlen
      → IsKeyOf R i.rs r.s d
      → IsKeyOf R r.rs i.s d
      → st.inner.has_key ≡ false
      → InStep
          (made_state rng cs i d true params psks tokens st)
          (made_state rng' cs r d false params psks tokens st)
  unfolding dh_len
  made-InStep rng rng' cs i r d params psks tokens st is ie rs re i_room r_room ik rk unkeyed =
      record {
        roles = refl;
        symmetric = refl;
        synced = record { keyed = λ e. cc (e, unkeyed) };
        children = refl;
        lengths = rs.same_len ∙ sym is.same_len;
        same_params = refl;
        same_psks = refl;
        same_patterns = refl;
        same_position = refl;
        w_sound = made-IsSound rng cs i d true params psks tokens st is ie i_room;
        r_sound = made-IsSound rng' cs r d false params psks tokens st rs re r_room;
        r_s = key_of-Knows r.rs i.s d rk is;
        r_e = record { owned = λ e. cc; pair = λ e. cc; key = λ e. cc };
        w_s = key_of-Knows i.rs r.s d ik rs;
        w_e = record { owned = λ e. cc; pair = λ e. cc; key = λ e. cc };
      }

  made-IsReady :
      (rng rng' : R) (cs : CipherStates C) (i r : Builder R C H D) (d : D) (params : NoiseParams)
      (psks : List (Option Bytes)) (tokens : HandshakeTokens) (st : SymmetricState C H)
      → try_from params.handshake ≡ ok tokens
      → (has_static tokens.premsg_pattern_i ≡ true → is_some r.rs ≡ true)
      → (has_static tokens.premsg_pattern_r ≡ true → is_some i.rs ≡ true)
      → InStep
          (made_state rng cs i d true params psks tokens st)
          (made_state rng' cs r d false params psks tokens st)
      → IsReady
          (made_state rng cs i d true params psks tokens st)
          (made_state rng' cs r d false params psks tokens st)
  made-IsReady rng rng' cs i r d params psks tokens st found on on' step =
      let (only_i, only_r) = try_from-only_static params.handshake found in
      let pi = tokens.premsg_pattern_i in
      let pr = tokens.premsg_pattern_r in
      record {
        in_step = step;
        writer = refl;
        reader = refl;
        keyed = λ done. absurd (ground (arith, done, try_from-nonempty params.handshake found));
        readable =
            all_readable-HasMore false tokens.msg_patterns (received_all pi unknown)
              (received_all pr unknown) (record { static = is_some r.rs; ephemeral = false })
              (record { static = is_some i.rs; ephemeral = false })
              (rw (received-premsg pi only_i) (record { static = on; ephemeral = λ e. cc e }))
              (rw (received-premsg pr only_r) (record { static = on'; ephemeral = λ e. cc e }))
              (patterns-readable params.handshake found);
      }

  -- The keys of one side, and the call of `new`, with what the resolver gave under other names.
  record Sets (b : Builder R C H D) (initiator : Bool) (hs : HandshakeState R C H D) (rng : R)
      (cipher : C) (hash : H) (d : D) (params : NoiseParams) (psks : List (Option Bytes))
      (prologue : Bytes) (cs : CipherStates C) : Type 0 where
    pub s_set : IsKeyObject R b.s d
    pub e_set : IsKeyObject R b.e_fixed d
    pub room : length (rs_buf b.rs) ≡ maxdhlen
    pub called :
        HandshakeState.new rng
          (CipherState.new cipher)
          hash
          (record { inner = with_key R b.s d; is_on = is_some b.s })
          (record { inner = with_key R b.e_fixed d; is_on = false })
          (is_some b.e_fixed)
          (record { inner = rs_buf b.rs; is_on = is_some b.rs })
          (toggle_off (replicate maxdhlen 0))
          initiator
          params
          psks
          prologue
          cs
        ≡ ok hs

  IsMade-Sets :
      (b : Builder R C H D) (initiator : Bool) {hs : HandshakeState R C H D}
      (m : IsMade b initiator hs)
      → Sets b initiator hs m.rng m.cipher m.hash m.d b.params m.psks
          (or_empty b.plog)
          m.cipherstates
  IsMade-Sets b initiator m =
      let (s_set, s) = build_s_inv {R = R} b.s m.d {s = m.s} m.s_made in
      let (e_set, e) = build_e_inv {R = R} b.e_fixed m.d {e = m.e} m.e_made in
      let (rs, room) = build_rs_inv b.rs {rs = m.rs} m.rs_made in
      record { s_set = s_set; e_set = e_set; room = room; called = cc (s, e, rs, m.made) }

  -- What the responder's builder found, under the initiator's names.
  matching-Sets :
      (i r : Builder R C H D) {hs hs' : HandshakeState R C H D}
      → IsMatching i r
      → (mi : IsMade i true hs) (mr : IsMade r false hs')
      → Sets r false hs' mr.rng mi.cipher mi.hash mi.d i.params mi.psks
          (or_empty i.plog)
          mi.cipherstates
  matching-Sets i r h mi mr =
      let same_d : mr.d ≡ mi.d = cc (h.same_params, h.same_dh, mi.dh_found, mr.dh_found) in
      let same_c : mr.cipher ≡ mi.cipher =
        cc (h.same_params, h.same_cipher, mi.cipher_found, mr.cipher_found) in
      let same_h : mr.hash ≡ mi.hash =
        cc (h.same_params, h.same_hash, mi.hash_found, mr.hash_found) in
      let same_psks : mr.psks ≡ mi.psks = cc (h.same_psks, mi.psks_made, mr.psks_made) in
      let same_cs : mr.cipherstates ≡ mi.cipherstates =
        cc (same_c, mi.children_made, mr.children_made) in
      rw
        (
          sym same_d,
          sym same_c,
          sym same_h,
          sym same_psks,
          sym same_cs,
          sym h.same_params,
          sym h.same_prologue,
        )
        (IsMade-Sets r false mr)

  both_made :
      (i r : Builder R C H D) {hs hs' : HandshakeState R C H D}
      → IsMatching i r
      → IsMade i true hs
      → IsMade r false hs'
      → IsReady hs hs'
  both_made i r {hs} {hs'} h mi mr =
      let d = mi.d in
      let on_i = IsMade-Sets i true mi in
      let on_r = matching-Sets i r h mi mr in
      let ik = h.i_key d mi.dh_found in
      let rk = h.r_key d mi.dh_found in
      let same_len = on_r.s_set.same_len ∙ sym on_i.s_set.same_len in
      let re = toggle_off (replicate maxdhlen 0) in
      let (tokens, st, found, is_i, is_r, unkeyed, on, on') =
        new-agree mi.rng mr.rng (CipherState.new mi.cipher) mi.hash
          (record { inner = with_key R i.s d; is_on = is_some i.s })
          (record { inner = with_key R i.e_fixed d; is_on = false })
          (record { inner = with_key R r.s d; is_on = is_some r.s })
          (record { inner = with_key R r.e_fixed d; is_on = false }) (is_some i.e_fixed)
          (is_some r.e_fixed) (record { inner = rs_buf i.rs; is_on = is_some i.rs }) re
          (record { inner = rs_buf r.rs; is_on = is_some r.rs }) re i.params mi.psks
          (or_empty i.plog) mi.cipherstates {hs = hs} {hs' = hs'}
          (λ on _.
            ap (λ n. take n (rs_buf r.rs)) same_len
            ∙ (key_of-Knows r.rs i.s d rk on_i.s_set).key on)
          (λ on _.
            ap (λ n. take n (rs_buf i.rs)) (sym same_len)
            ∙ (key_of-Knows i.rs r.s d ik on_r.s_set).key on)
          on_i.called on_r.called in
      rw (is_i, is_r)
        (made-IsReady mi.rng mr.rng mi.cipherstates i r d i.params mi.psks tokens st found on on' (
          made-InStep mi.rng mr.rng mi.cipherstates i r d i.params mi.psks tokens st on_i.s_set
            on_i.e_set on_r.s_set on_r.e_set on_i.room on_r.room ik rk unkeyed))

  -- Under the laws of the Diffie-Hellman function: two builders with the same parameters, prologue and
  -- PSKs, with resolvers that give the same cipher, hash and key object, and where a remote public key
  -- that is given belongs to the private key that the other is given: if both calls of `build` return,
  -- the initiator and the responder are in step, with one symmetric state, the initiator has the turn,
  -- and they have, or will be sent, the keys for all messages of their pattern.
  pub build-IsReady :
      (i r : Builder R C H D) {hs hs' : HandshakeState R C H D}
      → IsMatching i r
      → build i true ≡ ok hs
      → build r false ≡ ok hs'
      → IsReady hs hs'
  build-IsReady i r {hs} {hs'} h made made' =
      both_made i r h ((build-IsMade i true).at hs made) ((build-IsMade r false).at hs' made')
