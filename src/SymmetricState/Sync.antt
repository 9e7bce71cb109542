-- ===== src/SymmetricState/Sync.antt =====
-- Two symmetric states in step (src/symmetricstate.rs): what one encrypts the other decrypts, and
-- both are then the same state again.
use screech.Base.{
  ℕ, ◌+◌, ◌≤◌, ◌≡◌, sym, ◌∙◌, true, false, ◌++◌, Bytes, length, take, drop, length-append,
  length-drop, take-append_self, Bool-cases, inl, inr, arith,
}
use screech.Constants.{taglen}
use screech.Outcome.{Result, ok, err, panic, copy_slices}
use screech.Types.{Cipher, Hash}
use screech.Types.Laws.{CipherLaws, HashLaws}
use screech.CipherState.Seal.{IsReady, advanced, encrypt_ad_seal, decrypt_ad_seal}
use screech.SymmetricState.{SymmetricState, mix_hash, encrypt_and_mix_hash, decrypt_and_mix_hash}

abbrev pub returning {ℓ} : {E : Type 0} {A : Type ℓ} → A → Result ⊥ (Unit {0}) → Result E A
returning a (ok _) = ok a
returning a (err e) = absurd e
returning a panic = panic

module _ {C H : Type 0} ⦃cipher_ops : Cipher C⦄ ⦃ops : Hash H⦄ ⦃laws : CipherLaws C⦄ where
  -- The bytes that `encrypt_and_mix_hash` writes, and the cipher state behind them.
  unfoldable pub sealed : SymmetricState C H → Bytes → Bytes
  sealed self pt = elim self.inner.has_key [
    | true ↦
        laws.seal self.cipherstate.cipher self.cipherstate.n
          (take (ops.hash_len self.hasher) self.inner.h) pt
    | false ↦ pt
  ]

  unfoldable pub stepped : SymmetricState C H → SymmetricState C H
  stepped self = elim self.inner.has_key [
    | true ↦ record self { cipherstate = advanced self.cipherstate }
    | false ↦ self
  ]

  -- Room for the tag, once there is a key.
  unfoldable pub overhead : SymmetricState C H → ℕ
  overhead self = elim self.inner.has_key [ true ↦ taglen | false ↦ 0 ]

  -- What decrypting leaves behind the plaintext.
  unfoldable pub behind : SymmetricState C H → Bytes → Bytes → Bytes
  behind self pt out = elim self.inner.has_key [
    | true ↦
        laws.behind self.cipherstate.cipher self.cipherstate.n
          (take (ops.hash_len self.hasher) self.inner.h) pt out
    | false ↦ drop (length pt) out
  ]

  pub length-behind :
      (self : SymmetricState C H) (pt out : Bytes)
      → length pt ≤ length out
      → length (pt ++ behind self pt out) ≡ length out
  unfolding behind
  length-behind self pt out fits = elim (Bool-cases self.inner.has_key) [
    | inl e ↦ ground (
      arith,
      e,
      length-append pt (
          laws.behind self.cipherstate.cipher self.cipherstate.n
            (take (ops.hash_len self.hasher) self.inner.h) pt out),
      laws.length-behind self.cipherstate.cipher self.cipherstate.n
          (take (ops.hash_len self.hasher) self.inner.h) pt out fits,
    )
    | inr e ↦
        ground (arith, e, length-append pt (drop (length pt) out), length-drop (length pt) out)
  ]

  -- The cipher can be used where a key is set, and the hash lies within its buffer.
  pub record IsUsable (self : SymmetricState C H) : Type 0 where
    pub keyed : self.inner.has_key ≡ true → IsReady self.cipherstate
    pub hashed : ops.hash_len self.hasher ≤ length self.inner.h

  pub length-sealed :
      (self : SymmetricState C H) (pt : Bytes) → length (sealed self pt) ≡ length pt + overhead self
  unfolding sealed overhead
  length-sealed self pt = ground (
    arith,
    laws.length-seal self.cipherstate.cipher self.cipherstate.n
        (take (ops.hash_len self.hasher) self.inner.h) pt,
  )

  pub encrypt_sealed :
      (self : SymmetricState C H) (pt out : Bytes)
      → IsUsable self
      → length pt + overhead self ≤ length out
      → let (r, after) = mix_hash (sealed self pt) (stepped self) in
        encrypt_and_mix_hash pt (self, out) ≡ (
          returning (length (sealed self pt)) r,
          (after, sealed self pt ++ drop (length (sealed self pt)) out),
        )
  unfolding encrypt_and_mix_hash sealed stepped overhead copy_slices
  encrypt_sealed self pt out usable fits = elim (Bool-cases self.inner.has_key) [
    | inl e ↦ ground (
      arith,
      e,
      usable.hashed,
      encrypt_ad_seal self.cipherstate (take (ops.hash_len self.hasher) self.inner.h) pt out
          (usable.keyed e),
      laws.length-seal self.cipherstate.cipher self.cipherstate.n
          (take (ops.hash_len self.hasher) self.inner.h) pt,
      take-append_self
          (laws.seal self.cipherstate.cipher self.cipherstate.n
            (take (ops.hash_len self.hasher) self.inner.h) pt)
          (drop (length pt + taglen) out),
      length-append
          (laws.seal self.cipherstate.cipher self.cipherstate.n
            (take (ops.hash_len self.hasher) self.inner.h) pt)
          (drop (length pt + taglen) out),
    )
    | inr e ↦ ground (
      arith,
      e,
      take-append_self pt (drop (length pt) out),
      length-append pt (drop (length pt) out),
    )
  ]

  pub decrypt_sealed :
      (self : SymmetricState C H) (pt out : Bytes)
      → IsUsable self
      → length pt ≤ length out
      → let (r, after) = mix_hash (sealed self pt) (stepped self) in
        decrypt_and_mix_hash (sealed self pt) (self, out)
        ≡ (returning (length pt) r, (after, pt ++ behind self pt out))
  unfolding decrypt_and_mix_hash sealed stepped behind copy_slices
  decrypt_sealed self pt out usable fits = elim (Bool-cases self.inner.has_key) [
    | inl e ↦ ground (
      arith,
      e,
      usable.hashed,
      decrypt_ad_seal self.cipherstate (take (ops.hash_len self.hasher) self.inner.h) pt out
          (usable.keyed e),
    )
    | inr e ↦ ground (arith, e)
  ]

module _ {C H : Type 0} ⦃cipher_ops : Cipher C⦄ ⦃ops : Hash H⦄ ⦃hash_laws : HashLaws H⦄ where
  -- With the hash within its buffer, `mix_hash` returns.
  pub mix_hash_returns :
      (text : Bytes) (self : SymmetricState C H)
      → ops.hash_len self.hasher ≤ length self.inner.h
      → (mix_hash text self).0 ≡ ok tt
  unfolding mix_hash
  mix_hash_returns text self within =
      let fed =
        ops.input text
          (ops.input (take (ops.hash_len self.hasher) self.inner.h) (ops.reset self.hasher)) in
      ground (
        arith,
        within,
        hash_laws.result_digest fed self.inner.h,
        hash_laws.hash_len-input text
            (ops.input (take (ops.hash_len self.hasher) self.inner.h) (ops.reset self.hasher)),
        hash_laws.hash_len-input (take (ops.hash_len self.hasher) self.inner.h)
            (ops.reset self.hasher),
        hash_laws.hash_len-reset self.hasher,
      )

module _ {C H : Type 0} ⦃cipher_ops : Cipher C⦄ ⦃ops : Hash H⦄ ⦃laws : CipherLaws C⦄
    ⦃hash_laws : HashLaws H⦄ where
  stepped_hash :
      (self : SymmetricState C H)
      → IsUsable self
      → ops.hash_len (stepped self).hasher ≤ length (stepped self).inner.h
  unfolding stepped
  stepped_hash self usable = ground (arith, usable.hashed)

  -- Under the laws of cipher and hash, from a usable symmetric state and with room for the tag once
  -- there is a key, `encrypt_and_mix_hash` returns the length of what it wrote, the payload's and the
  -- tag's; and `decrypt_and_mix_hash` of exactly these bytes, from the same state and into a buffer
  -- that holds the payload, returns the payload's length, puts the payload in front of the buffer,
  -- whose length stays, and ends in the same state as the encryption.
  pub decrypt-encrypt :
      (self : SymmetricState C H) (pt out buffer : Bytes)
      → IsUsable self
      → length pt + overhead self ≤ length out
      → length pt ≤ length buffer
      → let (r, (after, out')) = encrypt_and_mix_hash pt (self, out) in
        let n = length pt + overhead self in
        (r ≡ ok n)
        × (decrypt_and_mix_hash (take n out') (self, buffer)
            ≡ (ok (length pt), (after, pt ++ behind self pt buffer)))
        × (length (pt ++ behind self pt buffer) ≡ length buffer)
  decrypt-encrypt self pt out buffer usable room fits =
      let (r, after) = mix_hash (sealed self pt) (stepped self) in
      let mixed : r ≡ ok tt =
        mix_hash_returns (sealed self pt) (stepped self) (stepped_hash self usable) in
      let rest = drop (length (sealed self pt)) out in
      rw (encrypt_sealed self pt out usable room) (
        rw (mixed, length-sealed self pt),
        rw (sym (length-sealed self pt), take-append_self (sealed self pt) rest)
            (decrypt_sealed self pt buffer usable fits ∙ rw mixed),
        length-behind self pt buffer fits,
      )
