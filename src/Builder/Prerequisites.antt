-- ===== src/Builder/Prerequisites.antt =====
-- What holds of a handshake state that `Builder::build` of src/builder.rs returns.
use screech.Base.{
  ◌≡◌, ◌∙◌, replicate, refl, Bool, true, false, not, ◌&&◌, Option, none, some, List, [], ◌∷◌, Bytes,
  length, inl, inr, arith,
}
use screech.Constants.{psklen, maxdhlen}
use screech.Error.{Error, Prerequisite, prereq}
use screech.Outcome.{Outcome, ok, err, panic, IfOk, Result-cases}
use screech.Toggle.{Toggle, toggle_off}
use screech.Types.{Cipher, Hash, Dh}
use screech.CipherState.{CipherState, CipherStates, new_states}
use screech.CipherState
use screech.Params.Pattern.{needs_local_static_key, need_known_remote_pubkey}
use screech.Params.Table.{base_patterns}
use screech.Params.Tokens.{try_from}
use screech.Params.PskPosition.{try_from-length}
use screech.Params.NoiseParams.{NoiseParams}
use screech.HandshakeState
use screech.HandshakeState.{HandshakeState}
use screech.HandshakeState.Turns.{IsInTurn, Reach, Reach-IsInTurn, is_even-zero}
use screech.Builder.Made.{build-IsMade}
use screech.Builder.{Builder, build, build_psks, check, is_some, or_empty}

-- Every PSK that is given has the length of one.
abbrev pub ArePsks : List (Option Bytes) → Type 0
ArePsks [] = Unit
ArePsks (none ∷ psks) = ArePsks psks
ArePsks (some key ∷ psks) = (length key ≡ psklen) × ArePsks psks

-- What a successful step of the loop says of the PSKs.
abbrev PsksKept : List (Option Bytes) → Outcome (List (Option Bytes)) → Type 0
PsksKept psks (ok out) = ArePsks psks × (out ≡ psks)
PsksKept psks (err e) = Unit
PsksKept psks panic = Unit

build_psks_kept : (psks : List (Option Bytes)) → PsksKept psks (build_psks psks)
unfolding build_psks
build_psks_kept [] = ground arith
build_psks_kept (none ∷ psks) = ground (arith, build_psks_kept psks)
build_psks_kept (some key ∷ psks) = ground (arith, build_psks_kept psks)

-- The key that a role must hold, or know, is given.
abbrev pub given : Option Bytes → Bool → Bool
given none needed = not needed
given (some key) needed = true

given_of_check :
    (key : Option Bytes) (needed : Bool) (e : Error)
    → check (not (is_some key) && needed) e ≡ ok tt
    → given key needed ≡ true
given_of_check none true e h = cc
given_of_check none false e h = refl
given_of_check (some key) needed e h = refl

module _ {R C H D : Type 0} ⦃cipher_ops : Cipher C⦄ ⦃hash_ops : Hash H⦄ ⦃ops : Dh R D⦄ where
  new_fields :
      (rng : R) (cipherstate : CipherState C) (hasher : H) (s e : Toggle D) (fixed_ephemeral : Bool)
      (rs re : Toggle Bytes) (initiator : Bool) (params : NoiseParams) (psks : List (Option Bytes))
      (prologue : Bytes) (cipherstates : CipherStates C) {hs : HandshakeState R C H D}
      → HandshakeState.new rng cipherstate hasher s e fixed_ephemeral rs re initiator params psks
          prologue cipherstates
        ≡ ok hs
      → IsInTurn hs
        × (hs.initiator ≡ initiator)
        × (hs.params ≡ params)
        × (hs.psks ≡ psks)
        × (hs.pattern_position ≡ 0)
        × (length hs.message_patterns ≡ length (base_patterns params.handshake.pattern).2)
  unfolding HandshakeState.new
  new_fields rng cipherstate hasher s e fixed rs re initiator params psks prologue cs h =
      elim (Result-cases (try_from params.handshake)) [
        | inl (tokens, found) ↦
            ground (arith, is_even-zero, found, try_from-length params.handshake found)
        | inr (inl (e', failed)) ↦ ground (arith, failed)
        | inr (inr panicked) ↦ ground (arith, panicked)
      ]

  -- What `build-then-Reach` states of a handshake state that was built.
  pub record IsBuilt (b : Builder R C H D) (initiator : Bool) (hs : HandshakeState R C H D)
      : Type 0 where
    pub local_given : given b.s (needs_local_static_key b.params.handshake.pattern initiator) ≡ true
    pub remote_given :
        given b.rs (need_known_remote_pubkey b.params.handshake.pattern initiator) ≡ true
    pub psk_lengths : ArePsks b.psks
    pub in_turn : IsInTurn hs
    pub unstarted : hs.pattern_position ≡ 0
    pub message_count :
        length hs.message_patterns ≡ length (base_patterns b.params.handshake.pattern).2
    pub same_role : hs.initiator ≡ initiator
    pub same_params : hs.params ≡ b.params
    pub same_psks : hs.psks ≡ b.psks

  pub build-IfOk :
      (b : Builder R C H D) (initiator : Bool) → IfOk (IsBuilt b initiator) (build b initiator)
  build-IfOk b initiator = record {
    at = λ hs made.
        let m = (build-IsMade b initiator).at hs made in
        let (turn, role, same, kept, first, count) =
          new_fields m.rng (CipherState.new m.cipher) m.hash m.s m.e (is_some b.e_fixed) m.rs
            (toggle_off (replicate maxdhlen 0)) initiator b.params m.psks (or_empty b.plog)
            m.cipherstates m.made in
        let (lengths, out) = rw m.psks_made at (build_psks_kept b.psks) in
        record {
          local_given = given_of_check b.s _ (prereq Prerequisite.local_private_key) m.s_checked;
          remote_given = given_of_check b.rs _ (prereq Prerequisite.remote_public_key) m.rs_checked;
          psk_lengths = lengths;
          in_turn = turn;
          unstarted = first;
          message_count = count;
          same_role = role;
          same_params = same;
          same_psks = kept ∙ out;
        };
  }

  -- A handshake state that `build` returns was built with the static keys that the pattern asks of
  -- the role, and with PSKs of the right length only; and after any sequence of calls of
  -- `write_message` and `read_message` that do not panic, failed ones included, it has the turn
  -- exactly at the messages of its own role (the even ones are the initiator's) and stands at most
  -- behind the last message.
  pub build-then-Reach :
      (b : Builder R C H D) (initiator : Bool) {hs later : HandshakeState R C H D}
      → build b initiator ≡ ok hs
      → Reach hs later
      → IsBuilt b initiator hs × IsInTurn later
  build-then-Reach b initiator {hs} made r =
      let built = (build-IfOk b initiator).at hs made in (built, Reach-IsInTurn built.in_turn r)
