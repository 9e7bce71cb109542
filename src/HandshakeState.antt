-- ===== src/HandshakeState.antt =====
-- src/handshakestate.rs: the state machine of the handshake, in a build without the `hfs` feature.
-- Here are the state, its construction and the queries; `Write` and `Read` have the two messages.
pub mod Write
pub mod Read
pub mod Frame
pub mod Turns
pub mod Finish
pub mod Agreement
pub mod InStep
pub mod Start
pub mod Total
use screech.Base.{
  ℕ, ◌+◌, ◌-◌, Bool, true, false, Option, none, some, List, [], ◌∷◌, ◌&&◌, ◌||◌, not, Bytes,
  replicate, length, take, drop, set, ltb, leb, ◌==◌, if◌then◌else◌,
}
use screech.Constants.{maxdhlen, psklen}
use screech.Error.{Error, init, state, input, validate_key_lengths, missing_key_material}
use screech.Exec.{Exec, Lens, pure, raise, abort, lift, gets, call, on, ◌>>=◌, ◌>>◌}
use screech.Outcome.{Result, Outcome, ok, err, panic, ok_or, slice_to, ◌>>=◌ as and_then}
use screech.Toggle.{Toggle, get}
use screech.Types.{Cipher, Hash, Dh}
use screech.Params.Modifier.{HandshakeChoice}
use screech.Params.NoiseParams.{NoiseParams}
use screech.Params.Table.{Token, DhToken, MessagePatterns, ee, es, se, ss}
use screech.Params.Tokens.{HandshakeTokens, try_from}
use screech.CipherState.{CipherState, CipherStates}
use screech.SymmetricState
use screech.SymmetricState.{SymmetricState, initialize, mix_hash}

pub record HandshakeState (R C H D : Type 0) : Type 0 where
  pub rng : R
  pub symmetricstate : SymmetricState C H
  pub cipherstates : CipherStates C
  pub s : Toggle D
  pub e : Toggle D
  pub fixed_ephemeral : Bool
  pub rs : Toggle Bytes
  pub re : Toggle Bytes
  pub initiator : Bool
  pub params : NoiseParams
  pub psks : List (Option Bytes)
  pub my_turn : Bool
  pub message_patterns : MessagePatterns
  pub pattern_position : ℕ

module _ {R C H D : Type 0} where
  abbrev pub the_symmetricstate : Lens (HandshakeState R C H D) (SymmetricState C H)
  the_symmetricstate = record {
    get = λ hs. hs.symmetricstate;
    put = λ t hs. record hs { symmetricstate = t };
  }

  -- `symmetricstate.split(&mut self.cipherstates.0, &mut self.cipherstates.1)`
  abbrev pub symmetricstate_and_children :
      Lens (HandshakeState R C H D) (SymmetricState C H × (CipherState C × CipherState C))
  symmetricstate_and_children = record {
    get = λ hs. (hs.symmetricstate, (hs.cipherstates.initiator, hs.cipherstates.responder));
    put = λ t hs. record hs {
      symmetricstate = t.0;
      cipherstates = record { initiator = t.1.0; responder = t.1.1 };
    };
  }

module _ (R : Type 0) {D : Type 0} ⦃ops : Dh R D⦄ where
  -- The key objects are not of one length.
  lengths_differ : Toggle D → Toggle D → Toggle Bytes → Toggle Bytes → Bool
  lengths_differ s e rs re =
      (s.is_on && (e.is_on && not (ops.pub_len s.inner == ops.pub_len e.inner)))
      || ((s.is_on && (rs.is_on && ltb (length rs.inner) (ops.pub_len s.inner)))
          || (s.is_on && (re.is_on && ltb (length re.inner) (ops.pub_len s.inner))))

  -- The public key of `s` or `e` for a pre-message token of the own side.
  own_premsg : Toggle D → Toggle D → Token → Outcome Bytes
  own_premsg s e Token.s =
      and_then (ok_or (get s) (state missing_key_material)) λ d. ok (ops.pubkey d)
  own_premsg s e Token.e =
      and_then (ok_or (get e) (state missing_key_material)) λ d. ok (ops.pubkey d)
  own_premsg s e _ = panic

-- The first `dh_len` bytes of `rs` or `re` for a pre-message token of the other side.
remote_premsg : ℕ → Toggle Bytes → Toggle Bytes → Token → Outcome Bytes
remote_premsg dh_len rs re Token.s =
    and_then (ok_or (get rs) (state missing_key_material)) (slice_to dh_len)
remote_premsg dh_len rs re Token.e =
    and_then (ok_or (get re) (state missing_key_material)) (slice_to dh_len)
remote_premsg dh_len rs re _ = panic

module _ {C H : Type 0} ⦃cipher_ops : Cipher C⦄ ⦃hash_ops : Hash H⦄ where
  -- One of the four loops over a pre-message.
  mix_premsg : (Token → Outcome Bytes) → List Token → Exec (SymmetricState C H) (Unit {0})
  mix_premsg key [] = pure tt
  mix_premsg key (t ∷ ts) = do k ← lift (key t); call (mix_hash k); mix_premsg key ts

abbrev dh_output : Result (Unit {0}) (Unit {0}) × Bytes → Outcome Bytes
dh_output (ok _, out) = ok out
dh_output (err _, out) = err Error.dh
dh_output (panic, out) = panic

module _ (R : Type 0) {C H D : Type 0} ⦃cipher_ops : Cipher C⦄ ⦃hash_ops : Hash H⦄
    ⦃ops : Dh R D⦄ where
  -- What `new` does with its symmetric state: the name, the prologue and the pre-messages, those of
  -- the own side from the key objects and those of the other side from the buffers.
  start_symmetric :
      (s e : Toggle D) (rs re : Toggle Bytes) (initiator : Bool) (name prologue : Bytes)
      (tokens : HandshakeTokens)
      → Exec (SymmetricState C H) (Unit {0})
  unfolding own_premsg remote_premsg mix_premsg
  start_symmetric s e rs re initiator name prologue tokens = do
    call (initialize name)
    call (mix_hash prologue)
    let dh_len = ops.pub_len s.inner
    if initiator
        then (do
          mix_premsg (own_premsg R s e) tokens.premsg_pattern_i
          mix_premsg (remote_premsg dh_len rs re) tokens.premsg_pattern_r)
        else do
          mix_premsg (remote_premsg dh_len rs re) tokens.premsg_pattern_i
          mix_premsg (own_premsg R s e) tokens.premsg_pattern_r

module _ {R C H D : Type 0} ⦃cipher_ops : Cipher C⦄ ⦃hash_ops : Hash H⦄ ⦃ops : Dh R D⦄ where
  unfoldable pub new :
      (rng : R) (cipherstate : CipherState C) (hasher : H) (s e : Toggle D) (fixed_ephemeral : Bool)
      (rs re : Toggle Bytes) (initiator : Bool) (params : NoiseParams) (psks : List (Option Bytes))
      (prologue : Bytes) (cipherstates : CipherStates C)
      → Outcome (HandshakeState R C H D)
  unfolding lengths_differ start_symmetric
  new rng cipherstate hasher s e fixed_ephemeral rs re initiator params psks prologue cipherstates =
      if lengths_differ R s e rs re
      then err (init validate_key_lengths)
      else and_then (try_from params.handshake) λ tokens.
        let (r, symmetricstate) =
          start_symmetric R s e rs re initiator params.name prologue tokens
            (SymmetricState.new cipherstate hasher) in
        and_then r λ _. ok (record {
          rng = rng;
          symmetricstate = symmetricstate;
          cipherstates = cipherstates;
          s = s;
          e = e;
          fixed_ephemeral = fixed_ephemeral;
          rs = rs;
          re = re;
          initiator = initiator;
          params = params;
          psks = psks;
          my_turn = initiator;
          message_patterns = tokens.msg_patterns;
          pattern_position = 0;
        })

  unfoldable pub dh_len : HandshakeState R C H D → ℕ
  dh_len self = ops.pub_len self.s.inner

  -- The key object and the public key of a DH token, for either role.
  abbrev dh_keys : HandshakeState R C H D → DhToken → Bool → Toggle D × Toggle Bytes
  dh_keys self ee _ = (self.e, self.re)
  dh_keys self ss _ = (self.s, self.rs)
  dh_keys self se true = (self.s, self.re)
  dh_keys self se false = (self.e, self.rs)
  dh_keys self es true = (self.e, self.rs)
  dh_keys self es false = (self.s, self.re)

  unfoldable pub dh : HandshakeState R C H D → DhToken → Outcome Bytes
  dh self token =
      let (d, key) = dh_keys self token self.initiator in
      if not (d.is_on && key.is_on)
      then err (state missing_key_material)
      else dh_output (ops.dh d.inner key.inner (replicate maxdhlen 0))

  unfoldable pub get_remote_static : HandshakeState R C H D → Option (Result ⊥ Bytes)
  unfolding dh_len
  get_remote_static self = elim (get self.rs) [
    | none ↦ none
    | some rs ↦ some (slice_to (dh_len self) rs)
  ]

module _ {R C H D : Type 0} where
  unfoldable pub was_write_payload_encrypted : HandshakeState R C H D → Bool
  was_write_payload_encrypted self = SymmetricState.has_key self.symmetricstate

  unfoldable pub set_psk : ℕ → Bytes → Exec (HandshakeState R C H D) (Unit {0})
  set_psk location key self =
      if not (length key == psklen) || leb (length self.psks) location
      then (err input, self)
      else (ok tt, record self { psks = set self.psks location (some key) })

  abbrev pub is_initiator : HandshakeState R C H D → Bool
  is_initiator self = self.initiator

  abbrev pub is_handshake_finished : HandshakeState R C H D → Bool
  is_handshake_finished self = self.pattern_position == length self.message_patterns

  abbrev pub is_my_turn : HandshakeState R C H D → Bool
  is_my_turn self = self.my_turn

module _ {R C H D : Type 0} ⦃ops : Hash H⦄ where
  unfoldable pub get_handshake_hash : HandshakeState R C H D → Result ⊥ Bytes
  get_handshake_hash self = SymmetricState.handshake_hash self.symmetricstate
