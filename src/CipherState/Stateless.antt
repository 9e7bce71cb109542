-- ===== src/CipherState/Stateless.antt =====
-- `StatelessCipherState` and `StatelessCipherStates` of src/cipherstate.rs: the caller gives the
-- nonce. A method on `&self` and `out` has the buffer alone as its state.
use screech.Base.{ℕ, ◌-◌, Bool, [], ◌||◌, not, Bytes, length, ltb}
use screech.Constants.{taglen}
use screech.Error.{state, missing_key_material}
use screech.Exec.{ExecOf, Exec, Call, Lens, gets, require, call, on, ◌>>=◌, ◌>>◌}
use screech.Types.{Cipher, rekey as cipher_rekey}
use screech.CipherState.{CipherState, CipherStates}

pub record StatelessCipherState (C : Type 0) : Type 0 where
  pub cipher : C
  pub has_key : Bool

abbrev the_cipher : {C : Type 0} → Lens (StatelessCipherState C) C
the_cipher = record { get = λ c. c.cipher; put = λ t c. record c { cipher = t } }

module _ {C : Type 0} ⦃ops : Cipher C⦄ where
  unfoldable pub encrypt_ad : StatelessCipherState C → ℕ → Bytes → Bytes → Exec Bytes ℕ
  encrypt_ad self nonce authtext plaintext = do
    require self.has_key (state missing_key_material)
    call (ops.encrypt self.cipher nonce authtext plaintext)

  unfoldable pub decrypt_ad : StatelessCipherState C → ℕ → Bytes → Bytes → ExecOf (Unit {0}) Bytes ℕ
  decrypt_ad self nonce authtext ciphertext = do
    out ← gets (λ s. s)
    require
        (not (
          ltb (length ciphertext) taglen
          || (ltb (length out) (length ciphertext - taglen) || not self.has_key)))
        tt
    ops.decrypt self.cipher nonce authtext ciphertext

  unfoldable pub encrypt : StatelessCipherState C → ℕ → Bytes → Exec Bytes ℕ
  unfolding encrypt_ad
  encrypt self nonce plaintext = encrypt_ad self nonce [] plaintext

  unfoldable pub decrypt : StatelessCipherState C → ℕ → Bytes → ExecOf (Unit {0}) Bytes ℕ
  unfolding decrypt_ad
  decrypt self nonce ciphertext = decrypt_ad self nonce [] ciphertext

  unfoldable pub rekey : Call (StatelessCipherState C) (Unit {0})
  rekey = on the_cipher cipher_rekey

  unfoldable pub rekey_manually : Bytes → Call (StatelessCipherState C) (Unit {0})
  rekey_manually key = on the_cipher (ops.set key)

pub record StatelessCipherStates (C : Type 0) : Type 0 where
  pub initiator : StatelessCipherState C
  pub responder : StatelessCipherState C

-- `From<CipherState>` and `From<CipherStates>`
module _ {C : Type 0} where
  abbrev pub from_state : CipherState C → StatelessCipherState C
  from_state other = record { cipher = other.cipher; has_key = other.has_key }

  abbrev pub from_states : CipherStates C → StatelessCipherStates C
  from_states other = record {
    initiator = from_state other.initiator;
    responder = from_state other.responder;
  }

  abbrev pub of_initiator : Lens (StatelessCipherStates C) (StatelessCipherState C)
  of_initiator = record { get = λ s. s.initiator; put = λ t s. record s { initiator = t } }

  abbrev pub of_responder : Lens (StatelessCipherStates C) (StatelessCipherState C)
  of_responder = record { get = λ s. s.responder; put = λ t s. record s { responder = t } }

module _ {C : Type 0} ⦃ops : Cipher C⦄ where
  unfoldable pub rekey_initiator : Call (StatelessCipherStates C) (Unit {0})
  unfolding rekey
  rekey_initiator = on of_initiator rekey

  unfoldable pub rekey_initiator_manually : Bytes → Call (StatelessCipherStates C) (Unit {0})
  unfolding rekey_manually
  rekey_initiator_manually key = on of_initiator (rekey_manually key)

  unfoldable pub rekey_responder : Call (StatelessCipherStates C) (Unit {0})
  unfolding rekey
  rekey_responder = on of_responder rekey

  unfoldable pub rekey_responder_manually : Bytes → Call (StatelessCipherStates C) (Unit {0})
  unfolding rekey_manually
  rekey_responder_manually key = on of_responder (rekey_manually key)
