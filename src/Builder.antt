-- ===== src/Builder.antt =====
-- src/builder.rs: what a handshake is built from, in a build without the `hfs` feature. A
-- `&'builder [u8]` is a byte string.
pub mod Made
pub mod Prerequisites
pub mod Keys
pub mod Matching
pub mod Delivery
pub mod Completes
pub mod Opening
use screech.Base.{
  ℕ, ◌+◌, ◌<◌, Bool, true, false, Option, none, some, List, [], ◌∷◌, ◌&&◌, not, Bytes, replicate,
  length, set, bytes_eq, ltb, ◌==◌, if◌then◌else◌,
}
use screech.Constants.{maxdhlen, psklen}
use screech.Error.{
  Error, Prerequisite, init, prereq, get_rng_impl, get_dh_impl, get_cipher_impl, get_hash_impl,
  validate_psk_lengths,
}
use screech.Outcome.{Result, Outcome, ok, err, panic, ok_or, copy_slices, ◌>>=◌}
use screech.Toggle.{Toggle, toggle_on, toggle_off}
use screech.Types.{Random, Cipher, Hash, Dh}
use screech.Resolver.{Resolver}
use screech.Params.Pattern.{needs_local_static_key, need_known_remote_pubkey}
use screech.Params.NoiseParams.{NoiseParams}
use screech.CipherState
use screech.CipherState.{CipherStates, new_states}
use screech.HandshakeState
use screech.HandshakeState.{HandshakeState}

pub record Keypair : Type 0 where
  pub private : Bytes
  pub public : Bytes

-- `PartialEq for Keypair`: both comparisons are made, in constant time.
unfoldable pub keypair_eq : Keypair → Keypair → Bool
keypair_eq self other =
    let priv_eq = bytes_eq self.private other.private in
    let pub_eq = bytes_eq self.public other.public in priv_eq && pub_eq

pub record Builder (R C H D : Type 0) : Type 0 where
  pub params : NoiseParams
  pub resolver : Resolver R C H D
  pub s : Option Bytes
  pub e_fixed : Option Bytes
  pub rs : Option Bytes
  pub psks : List (Option Bytes)
  pub plog : Option Bytes

abbrev pub is_some : Option Bytes → Bool
is_some none = false
is_some (some _) = true

-- `unwrap_or_else(|| &[0u8; 0])`
abbrev pub or_empty : Option Bytes → Bytes
or_empty none = []
or_empty (some xs) = xs

module _ {R C H D : Type 0} where
  abbrev pub with_resolver : NoiseParams → Resolver R C H D → Builder R C H D
  with_resolver params resolver = record {
    params = params;
    resolver = resolver;
    s = none;
    e_fixed = none;
    rs = none;
    psks = replicate 10 none;
    plog = none;
  }

  -- `self.psks[location] = Some(key)`, which panics out of bounds
  unfoldable pub psk : ℕ → Bytes → Builder R C H D → Outcome (Builder R C H D)
  psk location key self =
      if ltb location (length self.psks)
      then ok (record self { psks = set self.psks location (some key) })
      else panic

  abbrev pub local_private_key : Bytes → Builder R C H D → Builder R C H D
  local_private_key key self = record self { s = some key }

  abbrev pub fixed_ephemeral_key_for_testing_only : Bytes → Builder R C H D → Builder R C H D
  fixed_ephemeral_key_for_testing_only key self = record self { e_fixed = some key }

  abbrev pub prologue : Bytes → Builder R C H D → Builder R C H D
  prologue key self = record self { plog = some key }

  abbrev pub remote_public_key : Bytes → Builder R C H D → Builder R C H D
  remote_public_key pub_key self = record self { rs = some pub_key }

-- `copy_from_slice` into a whole buffer, which panics if the lengths differ
abbrev copy_whole : ℕ → Bytes → Outcome Bytes
copy_whole n xs = if length xs == n then ok xs else panic

-- The loop over the PSKs.
unfoldable pub build_psks : List (Option Bytes) → Outcome (List (Option Bytes))
build_psks [] = ok []
build_psks (none ∷ psks) = do rest ← build_psks psks; ok (none ∷ rest)
build_psks (some key ∷ psks) =
    if not (length key == psklen)
    then err (init validate_psk_lengths)
    else (do rest ← build_psks psks; ok (some key ∷ rest))

-- `rs_buf` with the key in front, or zeroed and switched off
unfoldable pub build_rs : Option Bytes → Outcome (Toggle Bytes)
build_rs none = ok (toggle_off (replicate maxdhlen 0))
build_rs (some v) = do buf ← copy_slices v (replicate maxdhlen 0); ok (toggle_on buf)

-- The key object that a call of `set` leaves.
abbrev left_by : {D : Type 0} → Result ⊥ (Unit {0}) × D → Outcome D
left_by (ok _, d) = ok d
left_by (err e, d) = absurd e
left_by (panic, d) = panic

module _ {R C H D : Type 0} ⦃cipher_ops : Cipher C⦄ ⦃hash_ops : Hash H⦄ ⦃ops : Dh R D⦄ where
  unfoldable pub generate_keypair : Builder R C H D → Outcome Keypair
  generate_keypair self = do
    rng ← ok_or self.resolver.resolve_rng (init get_rng_impl)
    dh ← ok_or (self.resolver.resolve_dh self.params.dh) (init get_dh_impl)
    (dh', _) ← left_by (ops.generate (dh, rng))
    private ← copy_whole (ops.priv_len dh) (ops.privkey dh')
    public ← copy_whole (ops.pub_len dh) (ops.pubkey dh')
    ok (record { private = private; public = public })

-- `bail!` where the test holds.
abbrev pub check : Bool → Error → Outcome (Unit {0})
check true e = err e
check false e = ok tt

module _ (R : Type 0) {D : Type 0} ⦃ops : Dh R D⦄ where
  -- The key object `s`, with the private key set.
  pub build_s : Option Bytes → D → Outcome (Toggle D)
  build_s none s_dh = ok (toggle_off s_dh)
  build_s (some k) s_dh = do s_dh' ← left_by (ops.set k s_dh); ok (toggle_on s_dh')

  pub build_e : Option Bytes → D → Outcome (Toggle D)
  build_e none e_dh = ok (toggle_off e_dh)
  build_e (some k) e_dh = do e_dh' ← left_by (ops.set k e_dh); ok (toggle_off e_dh')

module _ {R C H D : Type 0} ⦃cipher_ops : Cipher C⦄ ⦃hash_ops : Hash H⦄ ⦃ops : Dh R D⦄ where
  unfoldable pub build : Builder R C H D → Bool → Outcome (HandshakeState R C H D)
  unfolding build_psks build_rs build_s build_e
  build self initiator = do
    let pattern = self.params.handshake.pattern
    let resolver = self.resolver
    _ ←
        check (not (is_some self.s) && needs_local_static_key pattern initiator)
          (prereq Prerequisite.local_private_key)
    _ ←
        check (not (is_some self.rs) && need_known_remote_pubkey pattern initiator)
          (prereq Prerequisite.remote_public_key)
    rng ← ok_or resolver.resolve_rng (init get_rng_impl)
    cipher ← ok_or (resolver.resolve_cipher self.params.cipher) (init get_cipher_impl)
    hash ← ok_or (resolver.resolve_hash self.params.hash) (init get_hash_impl)
    s_dh ← ok_or (resolver.resolve_dh self.params.dh) (init get_dh_impl)
    e_dh ← ok_or (resolver.resolve_dh self.params.dh) (init get_dh_impl)
    cipher1 ← ok_or (resolver.resolve_cipher self.params.cipher) (init get_cipher_impl)
    cipher2 ← ok_or (resolver.resolve_cipher self.params.cipher) (init get_cipher_impl)
    let handshake_cipherstate = CipherState.new cipher
    cipherstates ← new_states (CipherState.new cipher1) (CipherState.new cipher2)
    s ← build_s R self.s s_dh
    e ← build_e R self.e_fixed e_dh
    rs ← build_rs self.rs
    let re = toggle_off (replicate maxdhlen 0)
    psks ← build_psks self.psks
    HandshakeState.new rng handshake_cipherstate hash s e (is_some self.e_fixed) rs re initiator
        self.params psks (or_empty self.plog) cipherstates

  abbrev pub build_initiator : Builder R C H D → Outcome (HandshakeState R C H D)
  build_initiator self = build self true

  abbrev pub build_responder : Builder R C H D → Outcome (HandshakeState R C H D)
  build_responder self = build self false
