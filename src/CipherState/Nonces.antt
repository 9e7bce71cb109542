-- ===== src/CipherState/Nonces.antt =====
-- What the cipher states of src/cipherstate.rs do with their nonce and their key, on every branch.
use screech.Base.{ℕ, ◌+◌, ◌-◌, ◌≡◌, Bool, ◌&&◌, leb, Bytes, length, ltb, if◌then◌else◌, arith}
use screech.Constants.{taglen}
use screech.Outcome.{Result, ok, panic}
use screech.Types.{Cipher, u64_max}
use screech.CipherState.{CipherState, encrypt_ad, decrypt_ad}
use screech.CipherState.Stateless
use screech.CipherState.Stateless.{from_state}

-- What the outcome of a stateless call comes to with a nonce of one's own: `kept` leaves the nonce,
-- `counted` counts it up, or panics where it is the last one.
module _ {C E : Type 0} where
  abbrev pub kept : CipherState C → Result E ℕ × Bytes → Result E ℕ × (CipherState C × Bytes)
  kept self (r, out) = (r, (self, out))

  abbrev pub counted : CipherState C → Result E ℕ × Bytes → Result E ℕ × (CipherState C × Bytes)
  counted self (panic, out) = (panic, (self, out))
  counted self (r, out) =
      if ltb self.n u64_max
      then (r, (record self { n = self.n + 1 }, out))
      else (panic, (self, out))

  abbrev pub counted_if_ok :
      CipherState C → Result E ℕ × Bytes → Result E ℕ × (CipherState C × Bytes)
  counted_if_ok self (ok len, out) = counted self (ok len, out)
  counted_if_ok self (r, out) = kept self (r, out)

-- The test of `decrypt_ad` before it calls the cipher.
abbrev pub accepts : {C : Type 0} → CipherState C → Bytes → Bytes → Bool
accepts self ct out =
    self.has_key && (leb taglen (length ct) && leb (length ct - taglen) (length out))

module _ {C : Type 0} ⦃ops : Cipher C⦄ where
  -- `encrypt_ad` of a cipher state is that of the stateless one at the state's nonce; a call that
  -- returns counts the nonce up and panics at the last nonce, and one without a key leaves the state.
  pub encrypt_ad-eq-counted :
      (self : CipherState C) (ad pt out : Bytes)
      → encrypt_ad ad pt (self, out)
        ≡ counted_if_ok self (Stateless.encrypt_ad (from_state self) self.n ad pt out)
  unfolding encrypt_ad Stateless.encrypt_ad
  encrypt_ad-eq-counted self ad pt out = ground arith

  -- `decrypt_ad` of a cipher state is that of the stateless one at the state's nonce. Where a key is
  -- set and the lengths fit, the nonce is counted up whatever the cipher answers, also on an error,
  -- and the call panics at the last nonce; otherwise it is an error that leaves the state.
  pub decrypt_ad-eq-counted :
      (self : CipherState C) (ad ct out : Bytes)
      → decrypt_ad ad ct (self, out)
        ≡ (if accepts self ct out then counted self else kept self)
            (Stateless.decrypt_ad (from_state self) self.n ad ct out)
  unfolding decrypt_ad Stateless.decrypt_ad
  decrypt_ad-eq-counted self ad ct out = ground arith
