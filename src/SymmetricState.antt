-- ===== src/SymmetricState.antt =====
-- src/symmetricstate.rs: the chaining key, the handshake hash and the cipher state of a handshake.
pub mod Sync
pub mod Returned
pub mod Total
use screech.Base.{
  ℕ, ◌+◌, ◌-◌, ◌<◌, ◌≡◌, Bool, true, false, List, [], ◌∷◌, Bytes, replicate, length, ltb, leb, not,
  if◌then◌else◌,
}
use screech.Constants.{cipherkeylen, maxhashlen}
use screech.Exec.{
  ExecOf, Exec, Call, Lens, pure, lift, gets, modify, require, call, on, first, filling, ◌>>=◌,
  ◌>>◌,
}
use screech.Outcome.{Result, slice_to, copy_slices}
use screech.Types.{Cipher, Hash, hkdf, Outputs}
use screech.CipherState
use screech.CipherState.{CipherState}

pub record SymmetricStateData : Type 0 where
  pub h : Bytes
  pub ck : Bytes
  pub has_key : Bool

abbrev pub default_data : SymmetricStateData
default_data = record { h = replicate maxhashlen 0; ck = replicate maxhashlen 0; has_key = false }

pub record SymmetricState (C H : Type 0) : Type 0 where
  pub cipherstate : CipherState C
  pub hasher : H
  pub inner : SymmetricStateData

-- A zeroed buffer for the outputs of `hkdf`.
abbrev pub two_outputs : Outputs
two_outputs = (replicate maxhashlen 0, replicate maxhashlen 0, [])

abbrev pub three_outputs : Outputs
three_outputs = (replicate maxhashlen 0, replicate maxhashlen 0, replicate maxhashlen 0)

module _ {C H : Type 0} where
  abbrev pub new : CipherState C → H → SymmetricState C H
  new cipherstate hasher = record {
    cipherstate = cipherstate;
    hasher = hasher;
    inner = default_data;
  }

  abbrev the_hasher : Lens (SymmetricState C H) H
  the_hasher = record { get = λ s. s.hasher; put = λ t s. record s { hasher = t } }

  abbrev the_cipherstate : Lens (SymmetricState C H) (CipherState C)
  the_cipherstate = record { get = λ s. s.cipherstate; put = λ t s. record s { cipherstate = t } }

  -- `self.hasher` and `&mut self.inner.h`
  abbrev hasher_and_h : Lens (SymmetricState C H) (H × Bytes)
  hasher_and_h = record {
    get = λ s. (s.hasher, s.inner.h);
    put = λ t s. record s { hasher = t.0; inner = record s.inner { h = t.1 } };
  }

  -- `self.cipherstate` and the buffer `out`
  abbrev cipherstate_and_out : Lens (SymmetricState C H × Bytes) (CipherState C × Bytes)
  cipherstate_and_out = record {
    get = λ s. (s.0.cipherstate, s.1);
    put = λ t s. (record s.0 { cipherstate = t.0 }, t.1);
  }

  abbrev pub set_ck : Bytes → SymmetricState C H → SymmetricState C H
  set_ck ck s = record s { inner = record s.inner { ck = ck } }

  abbrev pub set_h : Bytes → SymmetricState C H → SymmetricState C H
  set_h h s = record s { inner = record s.inner { h = h } }

  abbrev pub set_has_key : Bool → SymmetricState C H → SymmetricState C H
  set_has_key b s = record s { inner = record s.inner { has_key = b } }

  abbrev hasher_and_outputs : Lens (SymmetricState C H × Outputs) (H × Outputs)
  hasher_and_outputs = record {
    get = λ s. (s.0.hasher, s.1);
    put = λ t s. (record s.0 { hasher = t.0 }, t.1);
  }

  abbrev child1 : Lens (SymmetricState C H × (CipherState C × CipherState C)) (CipherState C)
  child1 = record { get = λ s. s.1.0; put = λ t s. (s.0, (t, s.1.1)) }

  abbrev child2 : Lens (SymmetricState C H × (CipherState C × CipherState C)) (CipherState C)
  child2 = record { get = λ s. s.1.1; put = λ t s. (s.0, (s.1.0, t)) }

module _ {C H : Type 0} ⦃cipher_ops : Cipher C⦄ ⦃ops : Hash H⦄ where
  unfoldable pub initialize : Bytes → Call (SymmetricState C H) (Unit {0})
  initialize handshake_name = do
    self ← gets (λ s. s)
    if leb (length handshake_name) (ops.hash_len self.hasher)
        then (do h ← lift (copy_slices handshake_name self.inner.h); modify (set_h h))
        else do
          on the_hasher (modify ops.reset)
          on the_hasher (modify (ops.input handshake_name))
          on hasher_and_h ops.result
    self' ← gets (λ s. s)
    ck ← lift (copy_slices self'.inner.h self'.inner.ck)
    modify (set_ck ck)
    modify (set_has_key false)

  unfoldable pub mix_key : Bytes → Call (SymmetricState C H) (Unit {0})
  mix_key text = do
    self ← gets (λ s. s)
    ck ← lift (slice_to (ops.hash_len self.hasher) self.inner.ck)
    (output0, output1, _) ← on the_hasher (filling two_outputs (hkdf ck text 2))
    ck' ← lift (copy_slices output0 self.inner.ck)
    modify (set_ck ck')
    key ← lift (slice_to cipherkeylen output1)
    on the_cipherstate (CipherState.set key 0)
    modify (set_has_key true)

  unfoldable pub mix_hash : Bytes → Call (SymmetricState C H) (Unit {0})
  mix_hash text = do
    self ← gets (λ s. s)
    on the_hasher (modify ops.reset)
    h ← lift (slice_to (ops.hash_len self.hasher) self.inner.h)
    on the_hasher (modify (ops.input h))
    on the_hasher (modify (ops.input text))
    on hasher_and_h ops.result

  -- `inner.has_key` stays as it was.
  unfoldable pub mix_key_and_hash : Bytes → Call (SymmetricState C H) (Unit {0})
  mix_key_and_hash text = do
    self ← gets (λ s. s)
    let hash_len = ops.hash_len self.hasher
    ck ← lift (slice_to hash_len self.inner.ck)
    (output0, output1, output2) ← on the_hasher (filling three_outputs (hkdf ck text 3))
    ck' ← lift (copy_slices output0 self.inner.ck)
    modify (set_ck ck')
    temp_h ← lift (slice_to hash_len output1)
    mix_hash temp_h
    key ← lift (slice_to cipherkeylen output2)
    on the_cipherstate (CipherState.set key 0)

module _ {C H : Type 0} where
  abbrev pub has_key : SymmetricState C H → Bool
  has_key self = self.inner.has_key

module _ {C H : Type 0} ⦃cipher_ops : Cipher C⦄ ⦃ops : Hash H⦄ where
  unfoldable pub encrypt_and_mix_hash : Bytes → Exec (SymmetricState C H × Bytes) ℕ
  encrypt_and_mix_hash plaintext = do
    (self, out) ← gets (λ s. s)
    output_len ←
        if self.inner.has_key
        then (do
          ad ← lift (slice_to (ops.hash_len self.hasher) self.inner.h)
          on cipherstate_and_out (CipherState.encrypt_ad ad plaintext))
        else do
          out' ← lift (copy_slices plaintext out)
          modify (λ s. (s.0, out'))
          pure (length plaintext)
    out'' ← gets (λ s. s.1)
    output ← lift (slice_to output_len out'')
    on first (call (mix_hash output))
    pure output_len

  unfoldable pub decrypt_and_mix_hash : Bytes → ExecOf (Unit {0}) (SymmetricState C H × Bytes) ℕ
  decrypt_and_mix_hash text = do
    (self, out) ← gets (λ s. s)
    payload_len ←
        if self.inner.has_key
        then (do
          ad ← lift (slice_to (ops.hash_len self.hasher) self.inner.h)
          on cipherstate_and_out (CipherState.decrypt_ad ad text))
        else do
          require (not (ltb (length out) (length text))) tt
          out' ← lift (copy_slices text out)
          modify (λ s. (s.0, out'))
          pure (length text)
    on first (call (mix_hash text))
    pure payload_len

  -- The state is the symmetric state and the buffers `out1` and `out2`.
  unfoldable pub split_raw : Call (SymmetricState C H × Outputs) (Unit {0})
  split_raw = do
    (self, _) ← gets (λ s. s)
    ck ← lift (slice_to (ops.hash_len self.hasher) self.inner.ck)
    on hasher_and_outputs (hkdf ck [] 2)

  -- The cipher states `child1` and `child2` beside it.
  unfoldable pub split : Call (SymmetricState C H × (CipherState C × CipherState C)) (Unit {0})
  unfolding split_raw
  split = do
    (output0, output1, _) ← on first (filling two_outputs split_raw)
    key1 ← lift (slice_to cipherkeylen output0)
    on child1 (CipherState.set key1 0)
    key2 ← lift (slice_to cipherkeylen output1)
    on child2 (CipherState.set key2 0)

module _ {C H : Type 0} where
  abbrev pub checkpoint : SymmetricState C H → SymmetricStateData
  checkpoint self = self.inner

  abbrev pub restore : SymmetricStateData → SymmetricState C H → SymmetricState C H
  restore saved self = record self { inner = saved }

module _ {C H : Type 0} ⦃ops : Hash H⦄ where
  unfoldable pub handshake_hash : SymmetricState C H → Result ⊥ Bytes
  handshake_hash self = slice_to (ops.hash_len self.hasher) self.inner.h
