-- ===== src/Resolver/Default/Hashes.antt =====
-- `HashSHA256`, `HashSHA512`, `HashBLAKE2b` and `HashBLAKE2s` of src/resolvers/default.rs.
use screech.Base.{ℕ, Bytes, codes, length, leb, ◌==◌, ◌&&◌, ◌++◌, drop, if◌then◌else◌}
use screech.Outcome.{Result, ok, err, panic, copy_slices}
use screech.Types.{Hash}
use screech.Resolver.Crates.{Digest}

-- The parameters stand for `Sha256`, `Sha512`, `Blake2b` and `Blake2s` of the crates.
pub record HashSha256 (B : Type 0) : Type 0 where
  pub hasher : B

pub record HashSha512 (B : Type 0) : Type 0 where
  pub hasher : B

pub record HashBlake2b (B : Type 0) : Type 0 where
  pub hasher : B

pub record HashBlake2s (B : Type 0) : Type 0 where
  pub hasher : B

-- `out[..n].copy_from_slice(xs)`, which also panics if `xs` is not of length `n`
unfoldable pub copy_exact : {E : Type 0} → ℕ → Bytes → Bytes → Result E Bytes
copy_exact n xs out = if leb n (length out) && length xs == n then ok (xs ++ drop n out) else panic

module _ {B : Type 0} ⦃crate : Digest B⦄ where
  -- `finalize_reset`, and its digest put in front of the buffer in one of the two ways
  unfoldable pub finish :
      (Bytes → Bytes → Result ⊥ Bytes) → B × Bytes → Result ⊥ (Unit {0}) × (B × Bytes)
  finish copy (hasher, out) =
      let (hash, hasher') = crate.finalize_reset hasher in
      elim (copy hash out) [
        | ok out' ↦ (ok tt, (hasher', out'))
        | err e ↦ absurd e
        | panic ↦ (panic, (hasher', out))
      ]

  instance abbrev pub hash_sha256 : Hash (HashSha256 B)
  hash_sha256 = record {
    name = λ self. codes "SHA256";
    block_len = λ self. 64;
    hash_len = λ self. 32;
    reset = λ self. record { hasher = crate.new };
    input = λ text self. record { hasher = crate.update text self.hasher };
    result = λ s.
        (let (self, out) = s in
          let (r, (b, out')) = finish copy_slices (self.hasher, out) in
          (r, (record { hasher = b }, out')));
  }

  instance abbrev pub hash_sha512 : Hash (HashSha512 B)
  hash_sha512 = record {
    name = λ self. codes "SHA512";
    block_len = λ self. 128;
    hash_len = λ self. 64;
    reset = λ self. record { hasher = crate.new };
    input = λ text self. record { hasher = crate.update text self.hasher };
    result = λ s.
        (let (self, out) = s in
          let (r, (b, out')) = finish copy_slices (self.hasher, out) in
          (r, (record { hasher = b }, out')));
  }

  instance abbrev pub hash_blake2b : Hash (HashBlake2b B)
  hash_blake2b = record {
    name = λ self. codes "BLAKE2b";
    block_len = λ self. 128;
    hash_len = λ self. 64;
    reset = λ self. record { hasher = crate.new };
    input = λ text self. record { hasher = crate.update text self.hasher };
    result = λ s.
        (let (self, out) = s in
          let (r, (b, out')) = finish (copy_exact 64) (self.hasher, out) in
          (r, (record { hasher = b }, out')));
  }

  instance abbrev pub hash_blake2s : Hash (HashBlake2s B)
  hash_blake2s = record {
    name = λ self. codes "BLAKE2s";
    block_len = λ self. 64;
    hash_len = λ self. 32;
    reset = λ self. record { hasher = crate.new };
    input = λ text self. record { hasher = crate.update text self.hasher };
    result = λ s.
        (let (self, out) = s in
          let (r, (b, out')) = finish (copy_exact 32) (self.hasher, out) in
          (r, (record { hasher = b }, out')));
  }
