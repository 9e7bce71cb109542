-- ===== src/Resolver/Crates.antt =====
-- What the resolvers call of third-party crates: a type parameter stands for the crate's type, an
-- instance for its functions, and the laws are what the crate documents.
use screech.Base.{ℕ, ◌≤◌, ◌≡◌, Bytes, length}
use screech.Exec.{ExecOf}
use screech.Outcome.{ok}

-- `NewAead` and `AeadInPlace` of the crate `aead`, for `Aes256Gcm` of `aes-gcm` and
-- `ChaCha20Poly1305` of `chacha20poly1305`; the state is the buffer.
pub record Aead (A : Type 0) : Type 0 where
  pub new : Bytes → A
  -- nonce, associated data
  pub encrypt_in_place_detached : A → Bytes → Bytes → ExecOf (Unit {0}) Bytes Bytes
  -- nonce, associated data, tag
  pub decrypt_in_place_detached : A → Bytes → Bytes → Bytes → ExecOf (Unit {0}) Bytes (Unit {0})

-- Up to a length of the text, encryption keeps the length and gives a tag of sixteen bytes, and
-- decryption with this tag gives the text back.
pub record AeadLaws (A : Type 0) ⦃ops : Aead A⦄ : Type 0 where
  pub max_len : ℕ
  pub hide : A → Bytes → Bytes → Bytes → Bytes
  pub tag : A → Bytes → Bytes → Bytes → Bytes
  pub length-hide : (a : A) (nonce ad pt : Bytes) → length (hide a nonce ad pt) ≡ length pt
  pub length-tag : (a : A) (nonce ad pt : Bytes) → length (tag a nonce ad pt) ≡ 16
  pub encrypt_hide :
      (a : A) (nonce ad pt : Bytes)
      → length nonce ≡ 12
      → length pt ≤ max_len
      → ops.encrypt_in_place_detached a nonce ad pt ≡ (ok (tag a nonce ad pt), hide a nonce ad pt)
  pub decrypt_hide :
      (a : A) (nonce ad pt : Bytes)
      → length nonce ≡ 12
      → length pt ≤ max_len
      → ops.decrypt_in_place_detached a nonce ad (tag a nonce ad pt) (hide a nonce ad pt)
        ≡ (ok tt, pt)

-- `Digest` of the crate `digest`.
pub record Digest (B : Type 0) : Type 0 where
  pub new : B
  pub update : Bytes → B → B
  pub finalize_reset : B → Bytes × B

-- The function `x25519` of the crate `x25519-dalek` and its base point.
pub record X25519 : Type 0 where
  pub x25519 : Bytes → Bytes → Bytes
  pub basepoint : Bytes

-- It is multiplication on a curve, of points of 32 bytes.
pub record X25519Laws (ops : X25519) : Type 0 where
  pub length-x25519 : (scalar point : Bytes) → length (ops.x25519 scalar point) ≡ 32
  pub shared :
      (a b : Bytes)
      → ops.x25519 a (ops.x25519 b ops.basepoint) ≡ ops.x25519 b (ops.x25519 a ops.basepoint)
