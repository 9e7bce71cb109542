-- ===== src/Resolver/Default/Digests.antt =====
-- What the hash functions of src/resolvers/default.rs write.
use screech.Base.{ℕ, ◌≤◌, ◌≡◌, refl, ◌++◌, Bytes, length, drop, arith}
use screech.Constants.{maxhashlen, maxblocklen}
use screech.Outcome.{ok, copy_slices}
use screech.Types.Laws.{HashLaws}
use screech.Types.Total.{HashSizes}
use screech.Resolver.Crates.{Digest}
use screech.Resolver.Default.Hashes.{
  finish, copy_exact, hash_sha256, hash_sha512, hash_blake2b, hash_blake2s,
}
use screech.Resolver.Default.Resolve.{
  DefaultHash, of_sha256, of_sha512, of_blake2b, of_blake2s, default_hash,
}

-- A digest of a constant length, after which the hasher is a new one.
pub record DigestLaws (B : Type 0) ⦃ops : Digest B⦄ (n : ℕ) : Type 0 where
  pub digest : B → Bytes
  pub length-digest : (b : B) → length (digest b) ≡ n
  pub finalize_digest : (b : B) → ops.finalize_reset b ≡ (digest b, ops.new)

module _ {B : Type 0} ⦃ops : Digest B⦄ {n : ℕ} (laws : DigestLaws B n) where
  finish-copy_slices :
      (b : B) (out : Bytes)
      → n ≤ length out
      → finish copy_slices (b, out) ≡ (ok tt, (ops.new, laws.digest b ++ drop n out))
  unfolding finish copy_slices
  finish-copy_slices b out room = ground (arith, laws.finalize_digest b, laws.length-digest b, room)

  finish-copy_exact :
      (b : B) (out : Bytes)
      → n ≤ length out
      → finish (copy_exact n) (b, out) ≡ (ok tt, (ops.new, laws.digest b ++ drop n out))
  unfolding finish copy_exact
  finish-copy_exact b out room = ground (arith, laws.finalize_digest b, laws.length-digest b, room)

module _ {A B C D : Type 0} ⦃a : Digest A⦄ ⦃b : Digest B⦄ ⦃c : Digest C⦄ ⦃d : Digest D⦄
    (a_laws : DigestLaws A 32) (b_laws : DigestLaws B 64) (c_laws : DigestLaws C 64)
    (d_laws : DigestLaws D 32) where
  abbrev pub digest_of : DefaultHash A B C D → Bytes
  digest_of (of_sha256 h) = a_laws.digest h.hasher
  digest_of (of_sha512 h) = b_laws.digest h.hasher
  digest_of (of_blake2b h) = c_laws.digest h.hasher
  digest_of (of_blake2s h) = d_laws.digest h.hasher

  length-digest_of : (h : DefaultHash A B C D) → length (digest_of h) ≡ default_hash.hash_len h
  length-digest_of (of_sha256 h) = a_laws.length-digest h.hasher
  length-digest_of (of_sha512 h) = b_laws.length-digest h.hasher
  length-digest_of (of_blake2b h) = c_laws.length-digest h.hasher
  length-digest_of (of_blake2s h) = d_laws.length-digest h.hasher

  hash_len_bound : (h : DefaultHash A B C D) → default_hash.hash_len h ≤ maxhashlen
  hash_len_bound (of_sha256 h) = omega arith
  hash_len_bound (of_sha512 h) = omega arith
  hash_len_bound (of_blake2b h) = omega arith
  hash_len_bound (of_blake2s h) = omega arith

  hash_len-reset :
      (h : DefaultHash A B C D)
      → default_hash.hash_len (default_hash.reset h) ≡ default_hash.hash_len h
  hash_len-reset (of_sha256 h) = refl
  hash_len-reset (of_sha512 h) = refl
  hash_len-reset (of_blake2b h) = refl
  hash_len-reset (of_blake2s h) = refl

  hash_len-input :
      (text : Bytes) (h : DefaultHash A B C D)
      → default_hash.hash_len (default_hash.input text h) ≡ default_hash.hash_len h
  hash_len-input text (of_sha256 h) = refl
  hash_len-input text (of_sha512 h) = refl
  hash_len-input text (of_blake2b h) = refl
  hash_len-input text (of_blake2s h) = refl

  result_digest :
      (h : DefaultHash A B C D) (out : Bytes)
      → default_hash.hash_len h ≤ length out
      → default_hash.result (h, out)
        ≡ (ok tt, (default_hash.reset h, digest_of h ++ drop (default_hash.hash_len h) out))
  result_digest (of_sha256 h) out room = cc (finish-copy_slices a_laws h.hasher out room)
  result_digest (of_sha512 h) out room = cc (finish-copy_slices b_laws h.hasher out room)
  result_digest (of_blake2b h) out room = cc (finish-copy_exact c_laws h.hasher out room)
  result_digest (of_blake2s h) out room = cc (finish-copy_exact d_laws h.hasher out room)

  -- Under the laws of the crates, with room in the buffer: `result` of each of the four hash
  -- functions puts the digest in front of the buffer, the rest of which stays, and leaves the hasher
  -- as `reset` does; the digest has the length `hash_len`, which is at most MAXHASHLEN.
  pub result-digest :
      (h : DefaultHash A B C D) (out : Bytes)
      → default_hash.hash_len h ≤ length out
      → (default_hash.result (h, out)
          ≡ (ok tt, (default_hash.reset h, digest_of h ++ drop (default_hash.hash_len h) out)))
        × (length (digest_of h) ≡ default_hash.hash_len h)
        × (default_hash.hash_len h ≤ maxhashlen)
  result-digest h out room = (result_digest h out room, length-digest_of h, hash_len_bound h)

  -- The laws that the symmetric state relies on.
  instance pub default_hash_laws : HashLaws (DefaultHash A B C D)
  default_hash_laws = record {
    digest = digest_of;
    finalized = default_hash.reset;
    length-digest = length-digest_of;
    hash_len-reset = hash_len-reset;
    hash_len-input = hash_len-input;
    hash_len-finalized = hash_len-reset;
    hash_len_bound = hash_len_bound;
    result_digest = result_digest;
  }

  block_sizes :
      (h : DefaultHash A B C D)
      → (maxhashlen ≤ default_hash.block_len h) × (default_hash.block_len h ≤ maxblocklen)
  block_sizes (of_sha256 h) = omega arith
  block_sizes (of_sha512 h) = omega arith
  block_sizes (of_blake2b h) = omega arith
  block_sizes (of_blake2s h) = omega arith

  -- The sizes that `hmac` relies on.
  instance pub default_hash_sizes : HashSizes (DefaultHash A B C D)
  default_hash_sizes = record {
    block_room = λ h. (block_sizes h).0;
    block_bound = λ h. (block_sizes h).1;
  }
