-- ===== src/SymmetricState/Returned.antt =====
-- What a call of src/symmetricstate.rs that returned tells of the state it started from.
use mathlib.Core.Path.{subst}
use screech.Base.{
  ℕ, ◌+◌, ◌≤◌, ◌≡◌, sym, ap, ◌∙◌, true, ◌++◌, Bytes, length, take, drop, Bool-cases, inl, inr,
  arith,
}
use screech.Error.{Error}
use screech.Constants.{taglen}
use screech.Outcome.{Result, ok, err, panic, copy_slices, Result-cases}
use screech.Types.{Cipher, Hash}
use screech.Types.Laws.{CipherLaws}
use screech.CipherState
use screech.CipherState.{CipherState}
use screech.SymmetricState.{
  SymmetricState, mix_hash, mix_key, mix_key_and_hash, encrypt_and_mix_hash, decrypt_and_mix_hash,
  split, split_raw,
}
use screech.SymmetricState.Sync.{
  IsUsable, sealed, stepped, overhead, behind, encrypt_sealed, decrypt_sealed, length-sealed,
  returning,
}

-- Where the symmetric state goes by a key, its cipher state has one.
pub record IsSynced {C H : Type 0} (self : SymmetricState C H) : Type 0 where
  pub keyed : self.inner.has_key ≡ true → self.cipherstate.has_key ≡ true

returning_inv :
    (r : Result ⊥ (Unit {0})) {a n : ℕ} → returning {E = Error} a r ≡ ok n → (r ≡ ok tt) × (n ≡ a)
returning_inv (ok _) e = (cc, cc e)
returning_inv (err never) e = absurd never
returning_inv panic e = cc

module _ {C H : Type 0} ⦃cipher_ops : Cipher C⦄ ⦃ops : Hash H⦄ where
  pub mix_hash_keeps :
      (text : Bytes) (self : SymmetricState C H)
      → let (_, after) = mix_hash text self in
        (after.inner.has_key ≡ self.inner.has_key) × (after.cipherstate ≡ self.cipherstate)
  unfolding mix_hash
  mix_hash_keeps text self = (ground arith, ground arith)

  mix_hash_within :
      (text : Bytes) (self : SymmetricState C H)
      → (mix_hash text self).0 ≡ ok tt
      → ops.hash_len self.hasher ≤ length self.inner.h
  unfolding mix_hash
  mix_hash_within text self returned = ground (arith, returned)

  pub mix_hash-IsSynced :
      (text : Bytes) (self : SymmetricState C H) → IsSynced self → IsSynced (mix_hash text self).1
  mix_hash-IsSynced text self h = record {
    keyed =
        λ e. let (a, b) = mix_hash_keeps text self in ap (λ c. c.has_key) b ∙ h.keyed (sym a ∙ e);
  }

  pub mix_key-IsSynced :
      (text : Bytes) (self : SymmetricState C H)
      → (mix_key text self).0 ≡ ok tt
      → IsSynced (mix_key text self).1
  unfolding mix_key CipherState.set
  mix_key-IsSynced text self returned = record { keyed = λ e. ground (arith, returned) }

  pub mix_key_and_hash-IsSynced :
      (text : Bytes) (self : SymmetricState C H)
      → (mix_key_and_hash text self).0 ≡ ok tt
      → IsSynced (mix_key_and_hash text self).1
  unfolding mix_key_and_hash CipherState.set
  mix_key_and_hash-IsSynced text self returned = record { keyed = λ e. ground (arith, returned) }

  pub split_keeps :
      (self : SymmetricState C H) (children : CipherState C × CipherState C)
      → let (after, _) = (split (self, children)).1 in
        (after.inner ≡ self.inner) × (after.cipherstate ≡ self.cipherstate)
  unfolding split split_raw
  split_keeps self children = (ground arith, ground arith)

  pub split_keyed :
      (self : SymmetricState C H) (children : CipherState C × CipherState C)
      → (split (self, children)).0 ≡ ok tt
      → let (_, after) = (split (self, children)).1 in
        (after.0.has_key ≡ true) × (after.1.has_key ≡ true) × (after.0.n ≡ 0) × (after.1.n ≡ 0)
  unfolding split CipherState.set
  split_keyed self children returned = (
    ground (arith, returned),
    ground (arith, returned),
    ground (arith, returned),
    ground (arith, returned),
  )

  pub split-IsSynced :
      (ss : SymmetricState C H) (children : CipherState C × CipherState C)
      → IsSynced ss
      → IsSynced (split (ss, children)).1.0
  split-IsSynced ss children h =
      let (a, b) = split_keeps ss children in
      record { keyed = λ e. ap (λ c. c.has_key) b ∙ h.keyed (sym (ap (λ i. i.has_key) a) ∙ e) }

module _ {C H : Type 0} ⦃cipher_ops : Cipher C⦄ ⦃ops : Hash H⦄ ⦃laws : CipherLaws C⦄ where
  encrypt_room :
      (self : SymmetricState C H) (pt out : Bytes) {n : ℕ}
      → self.inner.has_key ≡ true
      → self.cipherstate.has_key ≡ true
      → (encrypt_and_mix_hash pt (self, out)).0 ≡ ok n
      → length pt + taglen ≤ length out
  unfolding encrypt_and_mix_hash CipherState.encrypt_ad
  encrypt_room self pt out e k returned =
      let c = self.cipherstate in
      let ad = take (ops.hash_len self.hasher) self.inner.h in
      elim (Result-cases (cipher_ops.encrypt c.cipher c.n ad pt out).0) [
        | inl (m, wrote) ↦ laws.encrypt_fits c.cipher c.n ad pt out wrote
        | inr (inl (never, _)) ↦ absurd never
        | inr (inr stopped) ↦ ground (arith, e, k, returned, stopped)
      ]

  encrypt-IsUsable :
      (self : SymmetricState C H) (pt out : Bytes) {n : ℕ}
      → IsSynced self
      → (encrypt_and_mix_hash pt (self, out)).0 ≡ ok n
      → IsUsable self × (length pt + overhead self ≤ length out)
  unfolding encrypt_and_mix_hash overhead CipherState.encrypt_ad copy_slices
  encrypt-IsUsable self pt out h returned = elim (Bool-cases self.inner.has_key) [
    | inl e ↦
        let k = h.keyed e in
        (
          record {
            keyed = λ _. record { keyed = k; room = ground (arith, e, k, returned) };
            hashed = ground (arith, e, k, returned);
          },
          ground (arith, e, encrypt_room self pt out e k returned),
        )
    | inr e ↦ (
      record {
        keyed = λ e'. cc (e, e');
        hashed = ground (
          arith,
          e,
          returned,
          mix_hash_within (take (length pt) (pt ++ drop (length pt) out)) self,
        );
      },
      ground (arith, e, returned),
    )
  ]

  stepped-IsSynced : (self : SymmetricState C H) → IsSynced self → IsSynced (stepped self)
  unfolding stepped
  stepped-IsSynced self h = elim (Bool-cases self.inner.has_key) [
    | inl e ↦ let k = h.keyed e in record { keyed = λ _. ground (arith, e, k) }
    | inr e ↦ record { keyed = λ e'. ground (arith, e, e') }
  ]

  stepped_keeps : (self : SymmetricState C H) → (stepped self).inner.has_key ≡ self.inner.has_key
  unfolding stepped
  stepped_keeps self = ground arith

  -- A call of `encrypt_and_mix_hash` that returned wrote `sealed` in front of the buffer, which the
  -- same state decrypts again, into any buffer that holds it.
  pub record IsEncrypted (self : SymmetricState C H) (pt out : Bytes) (n : ℕ)
      (after : SymmetricState C H) (out' : Bytes) : Type 0 where
    pub count : n ≡ length (sealed self pt)
    pub text : out' ≡ sealed self pt ++ drop (length (sealed self pt)) out
    pub room : length (sealed self pt) ≤ length out
    pub decrypts :
        (buffer : Bytes)
        → length pt ≤ length buffer
        → decrypt_and_mix_hash (sealed self pt) (self, buffer)
          ≡ (ok (length pt), (after, pt ++ behind self pt buffer))
    pub synced : IsSynced after
    pub same_flag : after.inner.has_key ≡ self.inner.has_key

  pub encrypt_returned :
      (self : SymmetricState C H) (pt out : Bytes) {n : ℕ} {after : SymmetricState C H}
      {out' : Bytes}
      → IsSynced self
      → encrypt_and_mix_hash pt (self, out) ≡ (ok n, (after, out'))
      → IsEncrypted self pt out n after out'
  encrypt_returned self pt out {n} {after} {out'} h returned =
      let (usable, fits) = encrypt-IsUsable self pt out h (ap (λ r. r.0) returned) in
      let form = encrypt_sealed self pt out usable fits in
      let (r, s) = mix_hash (sealed self pt) (stepped self) in
      let outcome : returning {E = Error} (length (sealed self pt)) r ≡ ok n =
        cc (form, returned) in
      let mixed : r ≡ ok tt = (returning_inv r outcome).0 in
      let count : n ≡ length (sealed self pt) = (returning_inv r outcome).1 in
      let same : s ≡ after = cc (form, returned) in
      let (flag, _) = mix_hash_keeps (sealed self pt) (stepped self) in
      record {
        count = count;
        text = cc (form, returned);
        room = omega (arith, length-sealed self pt, fits);
        decrypts = λ buffer room. decrypt_sealed self pt buffer usable room ∙ cc (mixed, same);
        synced =
            subst IsSynced same
              (mix_hash-IsSynced (sealed self pt) (stepped self) (stepped-IsSynced self h));
        same_flag = cc (same, flag, stepped_keeps self);
      }
