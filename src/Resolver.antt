-- ===== src/Resolver.antt =====
-- `CryptoResolver` and `FallbackResolver` of src/resolvers/mod.rs. The type parameters stand for the
-- boxed implementations; the child modules are the wrappers over other crates.
pub mod NonceBytes
pub mod Crates
pub mod Default
pub mod Ring
pub mod Sodium
use screech.Base.{Option, none, some}
use screech.Params.Choices.{DhChoice, CipherChoice, HashChoice}

pub record Resolver (R C H D : Type 0) : Type 0 where
  pub resolve_rng : Option R
  pub resolve_dh : DhChoice → Option D
  pub resolve_hash : HashChoice → Option H
  pub resolve_cipher : CipherChoice → Option C

-- `Option::or_else`
abbrev pub or_else : {A : Type 0} → Option A → Option A → Option A
or_else none o = o
or_else (some a) o = some a

unfoldable pub fallback_resolver :
    {R C H D : Type 0} → Resolver R C H D → Resolver R C H D → Resolver R C H D
fallback_resolver preferred fallback = record {
  resolve_rng = or_else preferred.resolve_rng fallback.resolve_rng;
  resolve_dh = λ choice. or_else (preferred.resolve_dh choice) (fallback.resolve_dh choice);
  resolve_hash = λ choice. or_else (preferred.resolve_hash choice) (fallback.resolve_hash choice);
  resolve_cipher =
      λ choice. or_else (preferred.resolve_cipher choice) (fallback.resolve_cipher choice);
}
