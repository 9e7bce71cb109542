-- ===== src/CipherState.antt =====
-- src/cipherstate.rs: the cipher states with a nonce of their own, and the pair of them. The
-- states without a nonce are in `Stateless`. A method on `&mut self` and `out` has the state
-- `CipherState C × Bytes`.
pub mod Stateless
pub mod Nonces
pub mod Seal
use screech.Base.{
  ℕ, ◌+◌, ◌-◌, ◌<◌, ◌≡◌, refl, Bool, true, false, List, [], ◌∷◌, ◌||◌, not, Bytes, bytes_eq, length,
  ltb, leb, if◌then◌else◌,
}
use screech.Constants.{taglen}
use screech.Error.{Error, init, state, validate_cipher_types, missing_key_material}
use screech.Exec.{
  ExecOf, Exec, Call, Lens, pure, raise, lift, gets, modify, require, attempt, call, on, first,
  second, ◌>>=◌, ◌>>◌,
}
use screech.Outcome.{Result, Outcome, ok, err, panic}
use screech.Types.{Cipher, rekey as cipher_rekey, u64_max}

pub record CipherState (C : Type 0) : Type 0 where
  pub cipher : C
  pub n : ℕ
  pub has_key : Bool

-- `n.checked_add(1).unwrap()` on a `u64`
unfoldable pub next_nonce : {E : Type 0} → ℕ → Result E ℕ
next_nonce n = if ltb n u64_max then ok (n + 1) else panic

abbrev the_cipher : {C : Type 0} → Lens (CipherState C) C
the_cipher = record { get = λ c. c.cipher; put = λ t c. record c { cipher = t } }

module _ {C : Type 0} ⦃ops : Cipher C⦄ where
  abbrev pub new : C → CipherState C
  new c = record { cipher = c; n = 0; has_key = false }

  abbrev pub name : CipherState C → Bytes
  name self = ops.name self.cipher

  unfoldable pub set : Bytes → ℕ → Call (CipherState C) (Unit {0})
  set key n = do on the_cipher (ops.set key); modify (λ c. record c { n = n; has_key = true })

  -- `self.n = self.n.checked_add(1).unwrap()`
  bump : {E : Type 0} → ExecOf E (CipherState C) (Unit {0})
  unfolding next_nonce
  bump = do self ← gets (λ c. c); n' ← lift (next_nonce self.n); modify (λ c. record c { n = n' })

  unfoldable pub encrypt_ad : Bytes → Bytes → Exec (CipherState C × Bytes) ℕ
  unfolding bump
  encrypt_ad authtext plaintext = do
    self ← gets (λ s. s.0)
    require self.has_key (state missing_key_material)
    len ← on second (call (ops.encrypt self.cipher self.n authtext plaintext))
    on first bump
    pure len

  -- The nonce is counted up before the cipher's `Result` is returned, also when that is an error.
  unfoldable pub decrypt_ad : Bytes → Bytes → ExecOf (Unit {0}) (CipherState C × Bytes) ℕ
  unfolding bump
  decrypt_ad authtext ciphertext = do
    (self, out) ← gets (λ s. s)
    require
        (not (
          ltb (length ciphertext) taglen
          || (ltb (length out) (length ciphertext - taglen) || not self.has_key)))
        tt
    len ← on second (attempt (ops.decrypt self.cipher self.n authtext ciphertext))
    on first bump
    lift len

  unfoldable pub encrypt : Bytes → Exec (CipherState C × Bytes) ℕ
  unfolding encrypt_ad
  encrypt plaintext = encrypt_ad [] plaintext

  unfoldable pub decrypt : Bytes → ExecOf (Unit {0}) (CipherState C × Bytes) ℕ
  unfolding decrypt_ad
  decrypt ciphertext = decrypt_ad [] ciphertext

  unfoldable pub rekey : Call (CipherState C) (Unit {0})
  rekey = on the_cipher cipher_rekey

  unfoldable pub rekey_manually : Bytes → Call (CipherState C) (Unit {0})
  rekey_manually key = on the_cipher (ops.set key)

module _ {C : Type 0} where
  abbrev pub nonce : CipherState C → ℕ
  nonce self = self.n

  abbrev pub set_nonce : ℕ → CipherState C → CipherState C
  set_nonce nonce self = record self { n = nonce }

-- The cipher state for what the initiator sends, and that for what the responder sends.
pub record CipherStates (C : Type 0) : Type 0 where
  pub initiator : CipherState C
  pub responder : CipherState C

abbrev pub of_initiator : {C : Type 0} → Lens (CipherStates C) (CipherState C)
of_initiator = record { get = λ s. s.initiator; put = λ t s. record s { initiator = t } }

abbrev pub of_responder : {C : Type 0} → Lens (CipherStates C) (CipherState C)
of_responder = record { get = λ s. s.responder; put = λ t s. record s { responder = t } }

module _ {C : Type 0} ⦃ops : Cipher C⦄ where
  unfoldable pub new_states : CipherState C → CipherState C → Outcome (CipherStates C)
  new_states initiator responder =
      if bytes_eq (name initiator) (name responder)
      then ok (record { initiator = initiator; responder = responder })
      else err (init validate_cipher_types)

  unfoldable pub rekey_initiator : Call (CipherStates C) (Unit {0})
  unfolding rekey
  rekey_initiator = on of_initiator rekey

  unfoldable pub rekey_initiator_manually : Bytes → Call (CipherStates C) (Unit {0})
  unfolding rekey_manually
  rekey_initiator_manually key = on of_initiator (rekey_manually key)

  unfoldable pub rekey_responder : Call (CipherStates C) (Unit {0})
  unfolding rekey
  rekey_responder = on of_responder rekey

  unfoldable pub rekey_responder_manually : Bytes → Call (CipherStates C) (Unit {0})
  unfolding rekey_manually
  rekey_responder_manually key = on of_responder (rekey_manually key)
