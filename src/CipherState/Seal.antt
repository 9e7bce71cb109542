-- ===== src/CipherState/Seal.antt =====
-- The cipher states of src/cipherstate.rs over a cipher with its laws: what is encrypted is a sealed
-- text that the same state decrypts.
use screech.Base.{◌+◌, ◌≤◌, ◌<◌, ◌≡◌, true, ◌++◌, Bytes, length, drop, arith}
use screech.Constants.{taglen}
use screech.Outcome.{ok}
use screech.Types.{Cipher, u64_max}
use screech.Types.Laws.{CipherLaws}
use screech.CipherState.{CipherState, encrypt_ad, decrypt_ad}

-- A state that can be used once more.
pub record IsReady {C : Type 0} (self : CipherState C) : Type 0 where
  pub keyed : self.has_key ≡ true
  pub room : self.n < u64_max

abbrev pub advanced : {C : Type 0} → CipherState C → CipherState C
advanced self = record self { n = self.n + 1 }

module _ {C : Type 0} ⦃ops : Cipher C⦄ ⦃laws : CipherLaws C⦄ where
  pub encrypt_ad_seal :
      (self : CipherState C) (ad pt out : Bytes)
      → IsReady self
      → length pt + taglen ≤ length out
      → encrypt_ad ad pt (self, out) ≡ (
        ok (length pt + taglen),
        (advanced self, laws.seal self.cipher self.n ad pt ++ drop (length pt + taglen) out),
      )
  unfolding encrypt_ad
  encrypt_ad_seal self ad pt out ready fits =
      ground (arith, ready.keyed, ready.room, laws.encrypt_seal self.cipher self.n ad pt out fits)

  pub decrypt_ad_seal :
      (self : CipherState C) (ad pt out : Bytes)
      → IsReady self
      → length pt ≤ length out
      → decrypt_ad ad (laws.seal self.cipher self.n ad pt) (self, out)
        ≡ (ok (length pt), (advanced self, pt ++ laws.behind self.cipher self.n ad pt out))
  unfolding decrypt_ad
  decrypt_ad_seal self ad pt out ready fits = ground (
    arith,
    ready.keyed,
    ready.room,
    laws.length-seal self.cipher self.n ad pt,
    laws.decrypt_seal self.cipher self.n ad pt out fits,
  )
