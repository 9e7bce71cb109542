-- ===== src/Resolver/Default/Named.antt =====
-- What `DefaultResolver` of src/resolvers/default.rs gives for a choice has the name of that choice.
use screech.Base.{◌≡◌, refl, Option, none, some}
use screech.Outcome.{ok}
use screech.Types.{Dh, Random}
use screech.Params.Choices.{
  DhChoice, curve25519, ed448, CipherChoice, cha_cha_poly, aesgcm, HashChoice, sha256, sha512,
  blake2s, blake2b, parse_dh, parse_cipher, parse_hash,
}
use screech.Resolver.{Resolver}
use screech.Resolver.Crates.{Aead, Digest, X25519}
use screech.Resolver.Default.Dh25519.{Dh25519, dh_25519}
use screech.Resolver.Default.Resolve.{
  DefaultCipher, DefaultHash, default_cipher, default_hash, resolve_dh, resolve_hash,
  resolve_cipher, default_resolver,
}

-- Nothing, or something of which this holds.
abbrev pub OrNone : {K : Type 0} → (K → Type 0) → Option K → Type 0
OrNone P none = Unit
OrNone P (some k) = P k

dh-named :
    {R : Type 0} ⦃rng : Random R⦄ ⦃x25519 : X25519⦄ (ops : Dh R Dh25519) (choice : DhChoice)
    → ops ≡ dh_25519
    → OrNone (λ k. parse_dh (ops.name k) ≡ ok choice) (resolve_dh choice)
unfolding resolve_dh parse_dh
dh-named ops curve25519 e = rw e refl
dh-named ops ed448 e = tt

module _ (X Y : Type 0) ⦃aes : Aead X⦄ ⦃cha : Aead Y⦄ where
  cipher-named :
      (choice : CipherChoice)
      → OrNone
          (λ (k : DefaultCipher X Y). parse_cipher (default_cipher.name k) ≡ ok choice)
          (resolve_cipher choice)
  unfolding resolve_cipher parse_cipher
  cipher-named cha_cha_poly = refl
  cipher-named aesgcm = refl

module _ (A B C D : Type 0) ⦃a : Digest A⦄ ⦃b : Digest B⦄ ⦃c : Digest C⦄ ⦃d : Digest D⦄ where
  hash-named :
      (choice : HashChoice)
      → OrNone
          (λ (k : DefaultHash A B C D). parse_hash (default_hash.name k) ≡ ok choice)
          (resolve_hash choice)
  unfolding resolve_hash parse_hash
  hash-named sha256 = refl
  hash-named sha512 = refl
  hash-named blake2s = refl
  hash-named blake2b = refl

module _ (R X Y A B C D : Type 0) ⦃rng : Random R⦄ ⦃x25519 : X25519⦄ ⦃aes : Aead X⦄ ⦃cha : Aead Y⦄
    ⦃a : Digest A⦄ ⦃b : Digest B⦄ ⦃c : Digest C⦄ ⦃d : Digest D⦄ where
  -- What the resolver gives for a choice of primitives, where it gives something, has a name that
  -- parses as exactly this choice.
  pub resolved-named :
      (os_rng : R) (dh : DhChoice) (cipher : CipherChoice) (hash : HashChoice)
      → let self : Resolver R (DefaultCipher X Y) (DefaultHash A B C D) Dh25519 =
          default_resolver os_rng in
        OrNone (λ k. parse_dh ((dh_25519 {R = R}).name k) ≡ ok dh) (self.resolve_dh dh)
        × OrNone
            (λ k. parse_cipher (default_cipher.name k) ≡ ok cipher)
            (self.resolve_cipher cipher)
        × OrNone (λ k. parse_hash (default_hash.name k) ≡ ok hash) (self.resolve_hash hash)
  unfolding default_resolver
  resolved-named os_rng dh cipher hash =
      (dh-named (dh_25519 {R = R}) dh refl, cipher-named X Y cipher, hash-named A B C D hash)
