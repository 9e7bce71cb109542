-- ===== src/Types/Traits.antt =====
-- The traits of src/types.rs. A type parameter stands for the implementation behind a `Box<dyn …>`.
use screech.Base.{ℕ, ◌-◌, ◌^◌, [], Bytes, replicate, ◌==◌}
use screech.Exec.{ExecOf, Call, gets, on, second, filling, assert, lift, ◌>>=◌}
use screech.Outcome.{slice_to}
use screech.Constants.{cipherkeylen}

-- `Random`: `RngCore::fill_bytes` of so many bytes.
pub record Random (R : Type 0) : Type 0 where
  pub fill_bytes : ℕ → R → Bytes × R

pub record Dh (R D : Type 0) : Type 0 where
  pub name : D → Bytes
  pub pub_len : D → ℕ
  pub priv_len : D → ℕ
  pub set : Bytes → Call D (Unit {0})
  pub generate : Call (D × R) (Unit {0})
  pub pubkey : D → Bytes
  pub privkey : D → Bytes
  -- the buffer `out` is the state
  pub dh : D → Bytes → ExecOf (Unit {0}) Bytes (Unit {0})

pub record Cipher (C : Type 0) : Type 0 where
  pub name : C → Bytes
  pub set : Bytes → Call C (Unit {0})
  -- nonce, associated data, text; the buffer `out` is the state
  pub encrypt : C → ℕ → Bytes → Bytes → Call Bytes ℕ
  pub decrypt : C → ℕ → Bytes → Bytes → ExecOf (Unit {0}) Bytes ℕ

pub record Hash (H : Type 0) : Type 0 where
  pub name : H → Bytes
  pub block_len : H → ℕ
  pub hash_len : H → ℕ
  pub reset : H → H
  pub input : Bytes → H → H
  -- the hasher and the buffer `out`
  pub result : Call (H × Bytes) (Unit {0})

abbrev pub u64_max : ℕ
u64_max = 2 ^ 64 - 1

-- `Cipher::rekey`
module _ {C : Type 0} ⦃ops : Cipher C⦄ where
  unfoldable pub rekey : Call C (Unit {0})
  rekey = do
    ciphertext ← filling (replicate 48 0) do
      c ← gets (λ s. s.0)
      ciphertext_len ← on second (ops.encrypt c u64_max [] (replicate 32 0))
      assert (ciphertext_len == 48)
    key ← lift (slice_to cipherkeylen ciphertext)
    ops.set key
