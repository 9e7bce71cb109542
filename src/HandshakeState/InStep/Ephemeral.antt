-- ===== src/HandshakeState/InStep/Ephemeral.antt =====
-- The `e` token of a handshake message (src/handshakestate.rs), written and read.
use screech.Base.{
  ℕ, ◌+◌, ◌≤◌, ◌≡◌, Bool, ◌++◌, Bytes, length, take, drop, if◌then◌else◌, take-append_self,
  drop-append_self, length-append, Bool-cases, inl, inr, arith,
}
use screech.Exec.{Exec, pure, call, on, ◌>>◌}
use screech.Outcome.{Result, ok, copy_slices}
use screech.Toggle.{toggle_on, enable}
use screech.Types.{Cipher, Hash, Dh}
use screech.Params.Modifier.{is_psk}
use screech.SymmetricState.{SymmetricState, mix_hash, mix_key}
use screech.SymmetricState.Returned.{IsSynced, mix_hash-IsSynced, mix_key-IsSynced}
use screech.HandshakeState.{HandshakeState, dh_len}
use screech.HandshakeState.Write.{write_at, write_e, e_and_rng}
use screech.HandshakeState.Read.{read_e}

module _ {C H : Type 0} ⦃cipher_ops : Cipher C⦄ ⦃hash_ops : Hash H⦄ where
  -- What both sides do with the key in the symmetric state.
  unfoldable pub mix_ephemeral : Bool → Bytes → Exec (SymmetricState C H) (Unit {0})
  mix_ephemeral psk key = call (mix_hash key) >> (if psk then call (mix_key key) else pure tt)

  pub mix_ephemeral-IsSynced :
      (psk : Bool) (key : Bytes) (self : SymmetricState C H) {after : SymmetricState C H}
      → IsSynced self
      → mix_ephemeral psk key self ≡ (ok tt, after)
      → IsSynced after
  unfolding mix_ephemeral
  mix_ephemeral-IsSynced psk key self {after} h returned =
      let (r, s) = mix_hash key self in
      let hashed = mix_hash-IsSynced key self h in
      elim (Bool-cases psk) [
        | inl on ↦ ground (arith, on, returned, mix_key-IsSynced key s)
        | inr off ↦ ground (arith, off, returned, hashed)
      ]

module _ {R C H D : Type 0} ⦃cipher_ops : Cipher C⦄ ⦃hash_ops : Hash H⦄ ⦃ops : Dh R D⦄ where
  -- The key pair in `e` that is sent.
  unfoldable pub generated : HandshakeState R C H D → Result ⊥ (Unit {0}) × HandshakeState R C H D
  generated w = if w.fixed_ephemeral then (ok tt, w) else on e_and_rng ops.generate w

  pub record IsEphemeralSent (w : HandshakeState R C H D) (out : Bytes) (i n : ℕ)
      (w' : HandshakeState R C H D) (out' key : Bytes) : Type 0 where
    pub generates : (generated w).0 ≡ ok tt
    pub mixes :
        mix_ephemeral (is_psk w.params.handshake) key w.symmetricstate ≡ (ok tt, w'.symmetricstate)
    pub after : w' ≡ record w {
      symmetricstate = w'.symmetricstate;
      e = enable (generated w).1.e;
      rng = (generated w).1.rng;
    }
    pub text : out' ≡ take i out ++ (key ++ drop (i + length key) out)
    pub count : n ≡ i + length key
    pub room : i + length key ≤ length out

  pub write_e_returned :
      (w : HandshakeState R C H D) (out : Bytes) (i : ℕ) {n : ℕ} {w' : HandshakeState R C H D}
      {out' : Bytes}
      → write_e i (w, out) ≡ (ok n, (w', out'))
      → IsEphemeralSent w out i n w' out' (ops.pubkey (generated w).1.e.inner)
  unfolding write_e generated mix_ephemeral write_at
  write_e_returned w out i {n} {w'} {out'} returned = record {
    generates = ground (arith, returned);
    mixes = ground (arith, returned);
    after = ground (arith, returned);
    text = ground (arith, returned);
    count = ground (arith, returned);
    room = ground (arith, returned);
  }

  pub read_e_sent :
      (r : HandshakeState R C H D) (key rest : Bytes) {after : SymmetricState C H}
      → dh_len r ≡ length key
      → dh_len r ≤ length r.re.inner
      → mix_ephemeral (is_psk r.params.handshake) key r.symmetricstate ≡ (ok tt, after)
      → read_e (key ++ rest) r ≡ (
        ok rest,
        record r { symmetricstate = after; re = toggle_on (key ++ drop (length key) r.re.inner) },
      )
  unfolding read_e mix_ephemeral copy_slices
  read_e_sent r key rest {after} len room mixes = ground (
    arith,
    len,
    room,
    mixes,
    take-append_self key rest,
    drop-append_self key rest,
    take-append_self key (drop (length key) r.re.inner),
    length-append key rest,
    length-append key (drop (length key) r.re.inner),
  )
