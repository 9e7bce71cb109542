-- ===== src/Tests/Digests.antt =====
-- The theorem on the hash functions of src/resolvers/default.rs, over functions in place of the crates
-- that cut or pad what they were fed. They are no cryptography.
use screech.Base.{
  ℕ, ◌≤◌, ◌≡◌, refl, [], ◌++◌, Bytes, codes, length, take, drop, replicate, length-take,
  length-append, length-replicate, arith,
}
use screech.Constants.{maxhashlen}
use screech.Outcome.{ok}
use screech.Resolver.Crates.{Digest}
use screech.Resolver.Default.Resolve.{DefaultHash, of_sha512, default_hash}
use screech.Resolver.Default.Digests.{DigestLaws, digest_of, result-digest}

record Short : Type 0 where
  pub fed : Bytes

record Long : Type 0 where
  pub fed : Bytes

abbrev fitted : ℕ → Bytes → Bytes
fitted n fed = take n (fed ++ replicate n 0)

length-fitted : (n : ℕ) (fed : Bytes) → length (fitted n fed) ≡ n
length-fitted n fed = omega (
  arith,
  length-take n (fed ++ replicate n 0),
  length-append fed (replicate n 0),
  length-replicate {A = ℕ} n 0,
)

instance abbrev short : Digest Short
short = record {
  new = record { fed = [] };
  update = λ text h. record { fed = h.fed ++ text };
  finalize_reset = λ h. (fitted 32 h.fed, record { fed = [] });
}

instance abbrev long : Digest Long
long = record {
  new = record { fed = [] };
  update = λ text h. record { fed = h.fed ++ text };
  finalize_reset = λ h. (fitted 64 h.fed, record { fed = [] });
}

short_laws : DigestLaws Short 32
short_laws = record {
  digest = λ h. fitted 32 h.fed;
  length-digest = λ h. length-fitted 32 h.fed;
  finalize_digest = λ h. refl;
}

long_laws : DigestLaws Long 64
long_laws = record {
  digest = λ h. fitted 64 h.fed;
  length-digest = λ h. length-fitted 64 h.fed;
  finalize_digest = λ h. refl;
}

abbrev hasher : DefaultHash Short Long Long Short
hasher = of_sha512 (record { hasher = record { fed = codes "abc" } })

result-digest_example :
    (default_hash.result (hasher, replicate 70 1) ≡ (
      ok tt,
      (
        default_hash.reset hasher,
        digest_of short_laws long_laws long_laws short_laws hasher ++ drop 64 (replicate 70 1),
      ),
    ))
    × (length (digest_of short_laws long_laws long_laws short_laws hasher) ≡ 64)
    × (64 ≤ maxhashlen)
result-digest_example =
    result-digest short_laws long_laws long_laws short_laws hasher (replicate 70 1) (omega arith)
