-- ===== src/HandshakeState/Start/Running.antt =====
-- The symmetric state that `HandshakeState::new` of src/handshakestate.rs makes has whole buffers and a
-- fresh nonce.
use mathlib.Core.Path.{subst}
use screech.Base.{
  ℕ, ◌≤◌, ◌≡◌, false, List, [], ◌∷◌, ◌++◌, Bytes, Bool, Option, length, drop, replicate,
  length-replicate, length-append, length-drop, leb, Bool-cases, inl, inr, if◌then◌else◌, arith,
}
use screech.Constants.{maxhashlen}
use screech.Error.{Error}
use screech.Outcome.{Outcome, ok, copy_slices}
use screech.Exec.{bind_inv, call, lift}
use screech.Toggle.{Toggle}
use screech.Types.{Cipher, Hash, Dh}
use screech.Types.Laws.{HashLaws}
use screech.CipherState.{CipherState, CipherStates}
use screech.Params.Table.{Token}
use screech.Params.Tokens.{HandshakeTokens}
use screech.Params.NoiseParams.{NoiseParams}
use screech.SymmetricState
use screech.SymmetricState.{SymmetricState, initialize, mix_hash}
use screech.SymmetricState.Total.{IsRunning, mix_hash_returns}
use screech.HandshakeState
use screech.HandshakeState.{HandshakeState, mix_premsg, own_premsg, remote_premsg}
use screech.HandshakeState.Start.{Premsgs, named, new_inv, start_inv}

module _ {C H : Type 0} ⦃cipher_ops : Cipher C⦄ ⦃hash_ops : Hash H⦄ ⦃laws : HashLaws H⦄ where
  mix_hash-IsRunning :
      (text : Bytes) (s : SymmetricState C H)
      → IsRunning s 0
      → IsRunning (call {E = Error} (mix_hash text) s).1 0
  mix_hash-IsRunning text s run =
      let (after, e, run') = mix_hash_returns text s 0 run in
      let same : (call {E = Error} (mix_hash text) s).1 ≡ after = ground (arith, e) in rw same run'

  mix_premsg-IsRunning :
      (f : Token → Outcome Bytes) (ts : List Token) (s : SymmetricState C H)
      {a : SymmetricState C H}
      → IsRunning s 0
      → mix_premsg f ts s ≡ (ok tt, a)
      → IsRunning a 0
  unfolding mix_premsg
  mix_premsg-IsRunning f [] s {a} run mixed =
      let same : s ≡ a = ground (arith, mixed) in subst (λ t. IsRunning t 0) same run
  mix_premsg-IsRunning f (t ∷ ts) s {a} run mixed =
      let (k, _, next) = bind_inv (lift (f t)) _ s mixed in
      let (_, _, rest) = bind_inv (call (mix_hash k)) _ s next in
      mix_premsg-IsRunning f ts (call (mix_hash k) s).1 (mix_hash-IsRunning k s run) rest

  -- The state that `initialize` leaves, from the hash it made of the name.
  abbrev initialized : CipherState C → H → Bytes → SymmetricState C H
  initialized c hasher h = record {
    cipherstate = c;
    hasher = hasher;
    inner = record { h = h; ck = h ++ drop (length h) (replicate maxhashlen 0); has_key = false };
  }

  initialized-IsRunning :
      (c : CipherState C) (hasher : H) (h : Bytes)
      → c.n ≡ 0
      → length h ≡ maxhashlen
      → IsRunning (initialized c hasher h) 0
  initialized-IsRunning c hasher h fresh len = record {
    h_len = len;
    ck_len = omega (
      arith,
      len,
      length-replicate {A = ℕ} maxhashlen 0,
      length-append h (drop (length h) (replicate maxhashlen 0)),
      length-drop (length h) (replicate {A = ℕ} maxhashlen 0),
    );
    keyed = λ e. cc e;
    nonce = omega (arith, fresh);
  }

  initialize_returns :
      (name : Bytes) (c : CipherState C) (hasher : H)
      → c.n ≡ 0
      → (after : SymmetricState C H) × (initialize name (SymmetricState.new c hasher)
          ≡ (ok tt, after))
        × IsRunning after 0
  unfolding initialize copy_slices
  initialize_returns name c hasher fresh =
      let zeros : Bytes = replicate maxhashlen 0 in
      let zeros_len = length-replicate {A = ℕ} maxhashlen 0 in
      elim (Bool-cases (leb (length name) (hash_ops.hash_len hasher))) [
        | inl short ↦
            let bound = laws.hash_len_bound hasher in
            let fits : length name ≤ hash_ops.hash_len hasher = ground (arith, short) in
            let h = name ++ drop (length name) zeros in
            let len : length h ≡ maxhashlen = omega (
              arith,
              bound,
              fits,
              zeros_len,
              length-append name (drop (length name) zeros),
              length-drop (length name) zeros,
            ) in
            (
              initialized c hasher h,
              ground (arith, short, bound, fits, len),
              initialized-IsRunning c hasher h fresh len,
            )
        | inr long ↦
            let h1 = hash_ops.input name (hash_ops.reset hasher) in
            let bound = laws.hash_len_bound h1 in
            let r = laws.result_digest h1 zeros (omega (arith, zeros_len, bound)) in
            let h = laws.digest h1 ++ drop (hash_ops.hash_len h1) zeros in
            let len : length h ≡ maxhashlen = omega (
              arith,
              bound,
              zeros_len,
              laws.length-digest h1,
              length-append (laws.digest h1) (drop (hash_ops.hash_len h1) zeros),
              length-drop (hash_ops.hash_len h1) zeros,
            ) in
            (
              initialized c (laws.finalized h1) h,
              ground (arith, long, r, len),
              initialized-IsRunning c (laws.finalized h1) h fresh len,
            )
      ]

  named-IsRunning :
      (name prologue : Bytes) (c : CipherState C) (hasher : H)
      → c.n ≡ 0
      → IsRunning (named name prologue (SymmetricState.new c hasher)) 0
  unfolding named
  named-IsRunning name prologue c hasher fresh =
      let (after, e, run) = initialize_returns name c hasher fresh in
      let st = SymmetricState.new c hasher in
      let same : (call {E = Error} (initialize name) st).1 ≡ after = ground (arith, e) in
      mix_hash-IsRunning prologue (call {E = Error} (initialize name) st).1 (rw same run)

  Premsgs-IsRunning :
      (f g : Token → Outcome Bytes) (tokens : HandshakeTokens) (st a : SymmetricState C H)
      → IsRunning st 0
      → Premsgs f g tokens st a
      → IsRunning a 0
  unfolding Premsgs
  Premsgs-IsRunning f g tokens st a run (b, first, second) =
      mix_premsg-IsRunning g tokens.premsg_pattern_r b
        (mix_premsg-IsRunning f tokens.premsg_pattern_i st run first) second

module _ {R C H D : Type 0} ⦃cipher_ops : Cipher C⦄ ⦃hash_ops : Hash H⦄ ⦃ops : Dh R D⦄
    ⦃laws : HashLaws H⦄ where
  pub new-IsRunning :
      (rng : R) (cipherstate : CipherState C) (hasher : H) (s e : Toggle D) (fixed : Bool)
      (rs re : Toggle Bytes) (initiator : Bool) (params : NoiseParams) (psks : List (Option Bytes))
      (prologue : Bytes) (cipherstates : CipherStates C) {hs : HandshakeState R C H D}
      → cipherstate.n ≡ 0
      → HandshakeState.new rng cipherstate hasher s e fixed rs re initiator params psks prologue
          cipherstates
        ≡ ok hs
      → IsRunning hs.symmetricstate 0
  new-IsRunning rng cs hasher s e fixed rs re initiator params psks prologue children {hs} fresh
        made =
      let (tokens, st, _, start, is) =
        new_inv rng cs hasher s e fixed rs re initiator params psks prologue children {hs = hs}
          made in
      let own = own_premsg R s e in
      let remote = remote_premsg (ops.pub_len s.inner) rs re in
      let (_, premsgs) =
        start_inv R s e rs re initiator params.name prologue tokens (SymmetricState.new cs hasher)
          {a = st} start in
      rw is (
        Premsgs-IsRunning (if initiator then own else remote) (if initiator then remote else own)
          tokens (named params.name prologue (SymmetricState.new cs hasher)) st
          (named-IsRunning params.name prologue cs hasher fresh) premsgs)
