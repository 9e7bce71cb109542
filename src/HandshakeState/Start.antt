-- ===== src/HandshakeState/Start.antt =====
-- What `HandshakeState::new` of src/handshakestate.rs makes of its symmetric state, seen from two sides.
pub mod Running
use screech.Base.{
  ℕ, inl, inr, if◌then◌else◌, ◌≡◌, sym, ◌∙◌, true, false, List, [], ◌∷◌, Bytes, take, Bool, Option,
  arith,
}
use screech.Error.{Error}
use screech.Outcome.{Outcome, ok, Result-cases}
use screech.Exec.{bind_inv, call, lift, ◌>>◌}
use screech.Toggle.{Toggle}
use screech.Types.{Cipher, Hash, Dh}
use screech.Params.Table.{Token}
use screech.Params.Tokens.{HandshakeTokens, try_from}
use screech.Params.Readable.More.{has_static}
use screech.Params.NoiseParams.{NoiseParams}
use screech.Params.PreMessages.{only_static, try_from-only_static}
use screech.CipherState.{CipherState, CipherStates}
use screech.SymmetricState
use screech.SymmetricState.{SymmetricState, initialize, mix_hash}
use screech.SymmetricState.Returned.{mix_hash_keeps}
use screech.HandshakeState
use screech.HandshakeState.{HandshakeState, mix_premsg, start_symmetric, own_premsg, remote_premsg}

module _ {C H : Type 0} ⦃cipher_ops : Cipher C⦄ ⦃hash_ops : Hash H⦄ where
  premsg_same :
      (f g : Token → Outcome Bytes) (ts : List Token) (s : SymmetricState C H)
      {a b : SymmetricState C H}
      → only_static ts ≡ true
      → ((k l : Bytes) → f Token.s ≡ ok k → g Token.s ≡ ok l → k ≡ l)
      → mix_premsg f ts s ≡ (ok tt, a)
      → mix_premsg g ts s ≡ (ok tt, b)
      → a ≡ b
  unfolding mix_premsg
  premsg_same f g [] s only same left right = cc (left, right)
  premsg_same f g (Token.s ∷ ts) s only same left right =
      let (k, ek, left') = bind_inv (lift (f Token.s)) _ s left in
      let (l, el, right') = bind_inv (lift (g Token.s)) _ s right in
      let (_, mk, left'') = bind_inv (call (mix_hash k)) _ s left' in
      let (_, ml, right'') = bind_inv (call (mix_hash l)) _ s right' in
      let e = same k l ek el in
      premsg_same f g ts (call (mix_hash k) s).1 only same left'' (rw e right'')
  premsg_same f g (Token.e ∷ ts) s only same left right = cc only
  premsg_same f g (Token.psk n ∷ ts) s only same left right = cc only
  premsg_same f g (Token.dh t ∷ ts) s only same left right = cc only

  -- A pre-message with a static key found one.
  premsg_found :
      (f : Token → Outcome Bytes) (ts : List Token) (s : SymmetricState C H)
      {a : SymmetricState C H}
      → has_static ts ≡ true
      → only_static ts ≡ true
      → mix_premsg f ts s ≡ (ok tt, a)
      → (k : Bytes) × (f Token.s ≡ ok k)
  unfolding mix_premsg
  premsg_found f [] s some_static only mixed = cc some_static
  premsg_found f (Token.s ∷ ts) s some_static only mixed =
      let (k, e, _) = bind_inv (lift (f Token.s)) _ s mixed in (k, e)
  premsg_found f (Token.e ∷ ts) s some_static only mixed = cc only
  premsg_found f (Token.psk n ∷ ts) s some_static only mixed = cc only
  premsg_found f (Token.dh t ∷ ts) s some_static only mixed = cc only

  premsg_keeps :
      (f : Token → Outcome Bytes) (ts : List Token) (s : SymmetricState C H)
      {a : SymmetricState C H}
      → mix_premsg f ts s ≡ (ok tt, a)
      → a.inner.has_key ≡ s.inner.has_key
  unfolding mix_premsg
  premsg_keeps f [] s {a} mixed = ground (arith, mixed)
  premsg_keeps f (t ∷ ts) s {a} mixed =
      let (k, _, next) = bind_inv (lift (f t)) _ s mixed in
      let (_, _, rest) = bind_inv (call (mix_hash k)) _ s next in
      premsg_keeps f ts (call (mix_hash k) s).1 rest ∙ ground (arith, (mix_hash_keeps k s).0)

  initialize_unkeyed :
      (name : Bytes) (s : SymmetricState C H) {a : SymmetricState C H}
      → initialize name s ≡ (ok tt, a)
      → a.inner.has_key ≡ false
  unfolding initialize
  initialize_unkeyed name s done = ground (arith, done)

remote_on :
    (n : ℕ) (rs re : Toggle Bytes) {k : Bytes}
    → remote_premsg n rs re Token.s ≡ ok k
    → rs.is_on ≡ true
unfolding remote_premsg
remote_on n rs re found = ground (arith, found)

module _ {C H : Type 0} ⦃cipher_ops : Cipher C⦄ ⦃hash_ops : Hash H⦄ where
  -- The symmetric state before the pre-messages.
  named : Bytes → Bytes → SymmetricState C H → SymmetricState C H
  named name prologue st =
      (call {E = Error} (mix_hash prologue) (call {E = Error} (initialize name) st).1).1

  -- Both pre-messages, each with the source of its keys.
  Premsgs :
      (f g : Token → Outcome Bytes) (tokens : HandshakeTokens) (st a : SymmetricState C H) → Type 0
  Premsgs f g tokens st a =
      (b : SymmetricState C H) × (mix_premsg f tokens.premsg_pattern_i st ≡ (ok tt, b))
      × (mix_premsg g tokens.premsg_pattern_r b ≡ (ok tt, a))

  Premsgs-inv :
      (f g : Token → Outcome Bytes) (tokens : HandshakeTokens) (st : SymmetricState C H)
      {a : SymmetricState C H}
      → (mix_premsg f tokens.premsg_pattern_i >> mix_premsg g tokens.premsg_pattern_r) st
        ≡ (ok tt, a)
      → Premsgs f g tokens st a
  unfolding Premsgs
  Premsgs-inv f g tokens st mixed =
      let (_, e, rest) =
        bind_inv (mix_premsg f tokens.premsg_pattern_i) (λ _. mix_premsg g tokens.premsg_pattern_r)
          st mixed in
      (_, ground (arith, e), rest)

module _ (R : Type 0) {C H D : Type 0} ⦃cipher_ops : Cipher C⦄ ⦃hash_ops : Hash H⦄
    ⦃ops : Dh R D⦄ where
  -- The two parts of a call that returned: the name with the prologue, and the pre-messages.
  start_inv :
      (s e : Toggle D) (rs re : Toggle Bytes) (initiator : Bool) (name prologue : Bytes)
      (tokens : HandshakeTokens) (st : SymmetricState C H) {a : SymmetricState C H}
      → start_symmetric R s e rs re initiator name prologue tokens st ≡ (ok tt, a)
      → let own = own_premsg R s e in
        let remote = remote_premsg (ops.pub_len s.inner) rs re in
        ((named name prologue st).inner.has_key ≡ false)
        × Premsgs
            (if initiator then own else remote)
            (if initiator then remote else own)
            tokens
            (named name prologue st)
            a
  unfolding start_symmetric named
  start_inv s e rs re true name prologue tokens st started =
      let (_, ei, h1) = bind_inv (call (initialize name)) _ st started in
      let s1 = (call {E = Error} (initialize name) st).1 in
      let (_, em, h2) = bind_inv (call (mix_hash prologue)) _ s1 h1 in
      (
        ground (arith, (mix_hash_keeps prologue s1).0, initialize_unkeyed name st {a = s1}, ei),
        Premsgs-inv (own_premsg R s e) (remote_premsg (ops.pub_len s.inner) rs re) tokens _ h2,
      )
  start_inv s e rs re false name prologue tokens st started =
      let (_, ei, h1) = bind_inv (call (initialize name)) _ st started in
      let s1 = (call {E = Error} (initialize name) st).1 in
      let (_, em, h2) = bind_inv (call (mix_hash prologue)) _ s1 h1 in
      (
        ground (arith, (mix_hash_keeps prologue s1).0, initialize_unkeyed name st {a = s1}, ei),
        Premsgs-inv (remote_premsg (ops.pub_len s.inner) rs re) (own_premsg R s e) tokens _ h2,
      )

  -- Two sides that start from one symmetric state, where the keys of the pre-messages are the same
  -- on both, end in one symmetric state, and have got the keys of the other's pre-message.
  start-agree :
      (s e s' e' : Toggle D) (rs re rs' re' : Toggle Bytes) (name prologue : Bytes)
      (tokens : HandshakeTokens) (st : SymmetricState C H) {a b : SymmetricState C H}
      → (only_static tokens.premsg_pattern_i ≡ true) × (only_static tokens.premsg_pattern_r ≡ true)
      → ((k l : Bytes)
          → own_premsg R s e Token.s ≡ ok k
          → remote_premsg (ops.pub_len s'.inner) rs' re' Token.s ≡ ok l
          → k ≡ l)
      → ((k l : Bytes)
          → remote_premsg (ops.pub_len s.inner) rs re Token.s ≡ ok k
          → own_premsg R s' e' Token.s ≡ ok l
          → k ≡ l)
      → start_symmetric R s e rs re true name prologue tokens st ≡ (ok tt, a)
      → start_symmetric R s' e' rs' re' false name prologue tokens st ≡ (ok tt, b)
      → (b ≡ a)
        × (a.inner.has_key ≡ false)
        × (has_static tokens.premsg_pattern_i ≡ true → rs'.is_on ≡ true)
        × (has_static tokens.premsg_pattern_r ≡ true → rs.is_on ≡ true)
  unfolding Premsgs
  start-agree s e s' e' rs re rs' re' name prologue tokens st (only_i, only_r) key_i key_r left
        right =
      let (unkeyed, (m, i1, r1)) = start_inv s e rs re true name prologue tokens st left in
      let (_, (n, i2, r2)) = start_inv s' e' rs' re' false name prologue tokens st right in
      let pi = tokens.premsg_pattern_i in
      let pr = tokens.premsg_pattern_r in
      let mid = named name prologue st in
      let own = own_premsg R s e in
      let own' = own_premsg R s' e' in
      let remote = remote_premsg (ops.pub_len s.inner) rs re in
      let remote' = remote_premsg (ops.pub_len s'.inner) rs' re' in
      let same = premsg_same own remote' pi mid only_i key_i i1 i2 in
      (
        sym (premsg_same remote own' pr m only_r key_r r1 (rw same r2)),
        premsg_keeps remote pr m r1 ∙ premsg_keeps own pi mid i1 ∙ unkeyed,
        λ h.
            let (_, found) = premsg_found remote' pi mid h only_i i2 in
            remote_on (ops.pub_len s'.inner) rs' re' found,
        λ h.
            let (_, found) = premsg_found remote pr m h only_r r1 in
            remote_on (ops.pub_len s.inner) rs re found,
      )

module _ (R : Type 0) {D : Type 0} ⦃ops : Dh R D⦄ where
  -- The key that one side holds of the other, where both have it.
  abbrev pub Holds : Toggle Bytes → Toggle D → D → Type 0
  Holds known own d =
      known.is_on ≡ true
      → own.is_on ≡ true
      → take (ops.pub_len d) known.inner ≡ ops.pubkey own.inner

  premsg_key :
      (s e d : Toggle D) (rs re : Toggle Bytes) (k l : Bytes)
      → Holds rs s d.inner
      → own_premsg R s e Token.s ≡ ok k
      → remote_premsg (ops.pub_len d.inner) rs re Token.s ≡ ok l
      → k ≡ l
  unfolding own_premsg remote_premsg
  premsg_key s e d rs re k l holds own remote = ground (arith, own, remote, holds)

module _ {R C H D : Type 0} ⦃cipher_ops : Cipher C⦄ ⦃hash_ops : Hash H⦄ ⦃ops : Dh R D⦄ where
  -- What `new` makes of its arguments, the patterns and the symmetric state.
  abbrev pub started :
      R
      → CipherStates C
      → Toggle D
      → Toggle D
      → Bool
      → Toggle Bytes
      → Toggle Bytes
      → Bool
      → NoiseParams
      → List (Option Bytes)
      → HandshakeTokens
      → SymmetricState C H
      → HandshakeState R C H D
  started rng cipherstates s e fixed rs re initiator params psks tokens st = record {
    rng = rng;
    symmetricstate = st;
    cipherstates = cipherstates;
    s = s;
    e = e;
    fixed_ephemeral = fixed;
    rs = rs;
    re = re;
    initiator = initiator;
    params = params;
    psks = psks;
    my_turn = initiator;
    message_patterns = tokens.msg_patterns;
    pattern_position = 0;
  }

  new_inv :
      (rng : R) (cipherstate : CipherState C) (hasher : H) (s e : Toggle D) (fixed : Bool)
      (rs re : Toggle Bytes) (initiator : Bool) (params : NoiseParams) (psks : List (Option Bytes))
      (prologue : Bytes) (cipherstates : CipherStates C) {hs : HandshakeState R C H D}
      → HandshakeState.new rng cipherstate hasher s e fixed rs re initiator params psks prologue
          cipherstates
        ≡ ok hs
      → (tokens : HandshakeTokens) × (st : SymmetricState C H) × (try_from params.handshake
          ≡ ok tokens)
        × (start_symmetric R s e rs re initiator params.name prologue tokens
              (SymmetricState.new cipherstate hasher)
            ≡ (ok tt, st))
        × (hs ≡ started rng cipherstates s e fixed rs re initiator params psks tokens st)
  unfolding HandshakeState.new
  new_inv rng cipherstate hasher s e fixed rs re initiator params psks prologue cipherstates made =
      elim (Result-cases (try_from params.handshake)) [
        | inl (tokens, found) ↦
            let (r, st) =
              start_symmetric R s e rs re initiator params.name prologue tokens
                (SymmetricState.new cipherstate hasher) in
            elim (Result-cases r) [
              | inl (u, e) ↦ (tokens, st, found, ground (arith, e), ground (arith, found, made, e))
              | inr (inl (_, e)) ↦ ground (arith, found, made, e)
              | inr (inr e) ↦ ground (arith, found, made, e)
            ]
        | inr (inl (_, e)) ↦ ground (arith, made, e)
        | inr (inr e) ↦ ground (arith, made, e)
      ]

  -- Two calls of `new` that returned, for the two roles, from one symmetric state, where the static
  -- keys that one side holds are those of the other.
  pub new-agree :
      (rng rng' : R) (cipherstate : CipherState C) (hasher : H) (s e s' e' : Toggle D)
      (fixed fixed' : Bool) (rs re rs' re' : Toggle Bytes) (params : NoiseParams)
      (psks : List (Option Bytes)) (prologue : Bytes) (cipherstates : CipherStates C)
      {hs hs' : HandshakeState R C H D}
      → Holds R rs' s s'.inner
      → Holds R rs s' s.inner
      → HandshakeState.new rng cipherstate hasher s e fixed rs re true params psks prologue
          cipherstates
        ≡ ok hs
      → HandshakeState.new rng' cipherstate hasher s' e' fixed' rs' re' false params psks prologue
          cipherstates
        ≡ ok hs'
      → (tokens : HandshakeTokens) × (st : SymmetricState C H) × (try_from params.handshake
          ≡ ok tokens)
        × (hs ≡ started rng cipherstates s e fixed rs re true params psks tokens st)
        × (hs' ≡ started rng' cipherstates s' e' fixed' rs' re' false params psks tokens st)
        × (st.inner.has_key ≡ false)
        × (has_static tokens.premsg_pattern_i ≡ true → rs'.is_on ≡ true)
        × (has_static tokens.premsg_pattern_r ≡ true → rs.is_on ≡ true)
  new-agree rng rng' cs hasher s e s' e' fixed fixed' rs re rs' re' params psks prologue children
        {hs} {hs'} key_i key_r left right =
      let (tokens, st, found, start, is) =
        new_inv rng cs hasher s e fixed rs re true params psks prologue children {hs = hs} left in
      let (tokens', st', found', start', is') =
        new_inv rng' cs hasher s' e' fixed' rs' re' false params psks prologue children {hs = hs'}
          right in
      let same_tokens : tokens' ≡ tokens = cc (found, found') in
      let (same, unkeyed, on, on') =
        start-agree R s e s' e' rs re rs' re' params.name prologue tokens
          (SymmetricState.new cs hasher) {b = st'} (try_from-only_static params.handshake found)
          (λ k l. premsg_key R s e s' rs' re' k l key_i)
          (λ k l a b. sym (premsg_key R s' e' s rs re l k key_r b a)) start
          (rw (sym same_tokens) start') in
      (tokens, st, found, is, cc (is', same, same_tokens), unkeyed, on, on')

  pub new-started :
      (rng : R) (cipherstate : CipherState C) (hasher : H) (s e : Toggle D) (fixed : Bool)
      (rs re : Toggle Bytes) (initiator : Bool) (params : NoiseParams) (psks : List (Option Bytes))
      (prologue : Bytes) (cipherstates : CipherStates C) {hs : HandshakeState R C H D}
      → HandshakeState.new rng cipherstate hasher s e fixed rs re initiator params psks prologue
          cipherstates
        ≡ ok hs
      → (tokens : HandshakeTokens) × (st : SymmetricState C H) × (try_from params.handshake
          ≡ ok tokens)
        × (hs ≡ started rng cipherstates s e fixed rs re initiator params psks tokens st)
  new-started rng cs hasher s e fixed rs re initiator params psks prologue children {hs} made =
      let (tokens, st, found, _, is) =
        new_inv rng cs hasher s e fixed rs re initiator params psks prologue children {hs = hs}
          made in
      (tokens, st, found, is)
