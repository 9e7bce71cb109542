-- ===== src/Builder/Made.antt =====
-- The steps of a call of `Builder::build` (src/builder.rs) that returned.
use screech.Base.{◌≡◌, replicate, Bool, not, ◌&&◌, Option, none, some, List, Bytes}
use screech.Constants.{maxdhlen}
use screech.Error.{
  Prerequisite, prereq, init, get_rng_impl, get_dh_impl, get_cipher_impl, get_hash_impl,
}
use screech.Outcome.{ok, IfOk, IfOk-bind, ok_or}
use screech.Toggle.{Toggle, toggle_off}
use screech.Types.{Cipher, Hash, Dh}
use screech.CipherState.{CipherStates, new_states}
use screech.CipherState
use screech.Params.Pattern.{needs_local_static_key, need_known_remote_pubkey}
use screech.HandshakeState
use screech.HandshakeState.{HandshakeState}
use screech.Builder.{
  Builder, build, build_psks, build_rs, build_s, build_e, check, is_some, or_empty,
}

ok_or_inv : {E A : Type 0} (o : Option A) (e : E) {a : A} → ok_or o e ≡ ok a → o ≡ some a
ok_or_inv none e h = cc
ok_or_inv (some a) e h = cc

module _ {R C H D : Type 0} ⦃cipher_ops : Cipher C⦄ ⦃hash_ops : Hash H⦄ ⦃ops : Dh R D⦄ where
  abbrev pub check_s : Builder R C H D → Bool → Bool
  check_s b initiator =
      not (is_some b.s) && needs_local_static_key b.params.handshake.pattern initiator

  abbrev pub check_rs : Builder R C H D → Bool → Bool
  check_rs b initiator =
      not (is_some b.rs) && need_known_remote_pubkey b.params.handshake.pattern initiator

  -- What `build` found and made on its way to the handshake state. One call of the resolver stands
  -- for all with the same choice.
  pub record IsMade (b : Builder R C H D) (initiator : Bool) (hs : HandshakeState R C H D)
      : Type 0 where
    pub rng : R
    pub cipher : C
    pub hash : H
    pub d : D
    pub cipherstates : CipherStates C
    pub s : Toggle D
    pub e : Toggle D
    pub rs : Toggle Bytes
    pub psks : List (Option Bytes)
    pub s_checked : check (check_s b initiator) (prereq Prerequisite.local_private_key) ≡ ok tt
    pub rs_checked : check (check_rs b initiator) (prereq Prerequisite.remote_public_key) ≡ ok tt
    pub cipher_found : b.resolver.resolve_cipher b.params.cipher ≡ some cipher
    pub hash_found : b.resolver.resolve_hash b.params.hash ≡ some hash
    pub dh_found : b.resolver.resolve_dh b.params.dh ≡ some d
    pub children_made :
        new_states (CipherState.new cipher) (CipherState.new cipher) ≡ ok cipherstates
    pub s_made : build_s R b.s d ≡ ok s
    pub e_made : build_e R b.e_fixed d ≡ ok e
    pub rs_made : build_rs b.rs ≡ ok rs
    pub psks_made : build_psks b.psks ≡ ok psks
    pub made :
        HandshakeState.new rng
          (CipherState.new cipher)
          hash
          s
          e
          (is_some b.e_fixed)
          rs
          (toggle_off (replicate maxdhlen 0))
          initiator
          b.params
          psks
          (or_empty b.plog)
          cipherstates
        ≡ ok hs

  pub build-IsMade :
      (b : Builder R C H D) (initiator : Bool) → IfOk (IsMade b initiator) (build b initiator)
  unfolding build
  build-IsMade b initiator =
      let params = b.params in
      let find = b.resolver in
      IfOk-bind (check (check_s b initiator) (prereq Prerequisite.local_private_key)) _ λ _ l.
        IfOk-bind (check (check_rs b initiator) (prereq Prerequisite.remote_public_key)) _ λ _ r.
          IfOk-bind (ok_or find.resolve_rng (init get_rng_impl)) _ λ rng _.
            IfOk-bind (ok_or (find.resolve_cipher params.cipher) (init get_cipher_impl)) _ λ c ec.
              IfOk-bind (ok_or (find.resolve_hash params.hash) (init get_hash_impl)) _ λ hash eh.
                IfOk-bind (ok_or (find.resolve_dh params.dh) (init get_dh_impl)) _ λ d ed.
                  IfOk-bind (ok_or (find.resolve_dh params.dh) (init get_dh_impl)) _ λ d' ed'.
                    IfOk-bind (ok_or (find.resolve_cipher params.cipher) (init get_cipher_impl)) _
                      λ c1 e1.
                        IfOk-bind (ok_or (find.resolve_cipher params.cipher) (init get_cipher_impl))
                          _
                          λ c2 e2.
                            let same_d : d' ≡ d = cc (ed, ed') in
                            let same_1 : c1 ≡ c = cc (ec, e1) in
                            let same_2 : c2 ≡ c = cc (ec, e2) in
                            IfOk-bind (new_states (CipherState.new c1) (CipherState.new c2)) _
                              λ cs ecs. IfOk-bind (build_s R b.s d) _ λ s es.
                                IfOk-bind (build_e R b.e_fixed d') _ λ e ee.
                                  IfOk-bind (build_rs b.rs) _ λ rs ers.
                                    IfOk-bind (build_psks b.psks) _ λ psks ep. record {
                                      at = λ hs made. record {
                                        rng = rng;
                                        cipher = c;
                                        hash = hash;
                                        d = d;
                                        cipherstates = cs;
                                        s = s;
                                        e = e;
                                        rs = rs;
                                        psks = psks;
                                        s_checked = l;
                                        rs_checked = r;
                                        cipher_found = ok_or_inv _ _ ec;
                                        hash_found = ok_or_inv _ _ eh;
                                        dh_found = ok_or_inv _ _ ed;
                                        children_made = cc (same_1, same_2, ecs);
                                        s_made = es;
                                        e_made = cc (same_d, ee);
                                        rs_made = ers;
                                        psks_made = ep;
                                        made = made;
                                      };
                                    }
