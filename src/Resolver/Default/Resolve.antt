-- ===== src/Resolver/Default/Resolve.antt =====
-- `DefaultResolver` of src/resolvers/default.rs. A boxed implementation is one of the wrappers.
use screech.Base.{ℕ, Option, none, some, Bytes}
use screech.Exec.{Call, ExecOf}
use screech.Outcome.{Result}
use screech.Types.{Cipher, Hash}
use screech.Params.Choices.{
  DhChoice, curve25519, ed448, CipherChoice, cha_cha_poly, aesgcm, HashChoice, sha256, sha512,
  blake2s, blake2b,
}
use screech.Resolver.{Resolver}
use screech.Resolver.Crates.{Aead, Digest}
use screech.Resolver.Default.Ciphers.{
  CipherAesGcm, CipherChaChaPoly, default_aes_gcm, default_cha_cha_poly, cipher_aes_gcm,
  cipher_cha_cha_poly,
}
use screech.Resolver.Default.Hashes.{
  HashSha256, HashSha512, HashBlake2b, HashBlake2s, hash_sha256, hash_sha512, hash_blake2b,
  hash_blake2s,
}
use screech.Resolver.Default.Dh25519.{Dh25519, default_dh25519}

-- `Box<dyn Cipher>`
pub data DefaultCipher (A B : Type 0) : Type 0 where
  aes_gcm : CipherAesGcm A → DefaultCipher A B
  cha_cha : CipherChaChaPoly B → DefaultCipher A B

-- `Box<dyn Hash>`
pub data DefaultHash (A B C D : Type 0) : Type 0 where
  of_sha256 : HashSha256 A → DefaultHash A B C D
  of_sha512 : HashSha512 B → DefaultHash A B C D
  of_blake2b : HashBlake2b C → DefaultHash A B C D
  of_blake2s : HashBlake2s D → DefaultHash A B C D

-- A method on the object in the box.
abbrev inside : {E X K L : Type 0} → (K → L) → ExecOf E K X → K → Result E X × L
inside box m k = let (r, k') = m k in (r, box k')

abbrev inside_with :
    {E X K L T : Type 0} → (K → L) → ExecOf E (K × T) X → K × T → Result E X × (L × T)
inside_with box m s = let (r, (k', t)) = m s in (r, (box k', t))

module _ {A B : Type 0} ⦃aes : Aead A⦄ ⦃cha : Aead B⦄ where
  abbrev cipher_set : Bytes → Call (DefaultCipher A B) (Unit {0})
  cipher_set key (aes_gcm c) = inside aes_gcm (cipher_aes_gcm.set key) c
  cipher_set key (cha_cha c) = inside cha_cha (cipher_cha_cha_poly.set key) c

  abbrev cipher_name : DefaultCipher A B → Bytes
  cipher_name (aes_gcm c) = cipher_aes_gcm.name c
  cipher_name (cha_cha c) = cipher_cha_cha_poly.name c

  abbrev cipher_encrypt : DefaultCipher A B → ℕ → Bytes → Bytes → Call Bytes ℕ
  cipher_encrypt (aes_gcm c) = cipher_aes_gcm.encrypt c
  cipher_encrypt (cha_cha c) = cipher_cha_cha_poly.encrypt c

  abbrev cipher_decrypt : DefaultCipher A B → ℕ → Bytes → Bytes → ExecOf (Unit {0}) Bytes ℕ
  cipher_decrypt (aes_gcm c) = cipher_aes_gcm.decrypt c
  cipher_decrypt (cha_cha c) = cipher_cha_cha_poly.decrypt c

  instance abbrev pub default_cipher : Cipher (DefaultCipher A B)
  default_cipher = record {
    name = cipher_name;
    set = cipher_set;
    encrypt = cipher_encrypt;
    decrypt = cipher_decrypt;
  }

module _ {A B C D : Type 0} ⦃a : Digest A⦄ ⦃b : Digest B⦄ ⦃c : Digest C⦄ ⦃d : Digest D⦄ where
  abbrev hash_name : DefaultHash A B C D → Bytes
  hash_name (of_sha256 h) = hash_sha256.name h
  hash_name (of_sha512 h) = hash_sha512.name h
  hash_name (of_blake2b h) = hash_blake2b.name h
  hash_name (of_blake2s h) = hash_blake2s.name h

  abbrev hash_block_len : DefaultHash A B C D → ℕ
  hash_block_len (of_sha256 h) = hash_sha256.block_len h
  hash_block_len (of_sha512 h) = hash_sha512.block_len h
  hash_block_len (of_blake2b h) = hash_blake2b.block_len h
  hash_block_len (of_blake2s h) = hash_blake2s.block_len h

  abbrev hash_hash_len : DefaultHash A B C D → ℕ
  hash_hash_len (of_sha256 h) = hash_sha256.hash_len h
  hash_hash_len (of_sha512 h) = hash_sha512.hash_len h
  hash_hash_len (of_blake2b h) = hash_blake2b.hash_len h
  hash_hash_len (of_blake2s h) = hash_blake2s.hash_len h

  abbrev hash_reset : DefaultHash A B C D → DefaultHash A B C D
  hash_reset (of_sha256 h) = of_sha256 (hash_sha256.reset h)
  hash_reset (of_sha512 h) = of_sha512 (hash_sha512.reset h)
  hash_reset (of_blake2b h) = of_blake2b (hash_blake2b.reset h)
  hash_reset (of_blake2s h) = of_blake2s (hash_blake2s.reset h)

  abbrev hash_input : Bytes → DefaultHash A B C D → DefaultHash A B C D
  hash_input text (of_sha256 h) = of_sha256 (hash_sha256.input text h)
  hash_input text (of_sha512 h) = of_sha512 (hash_sha512.input text h)
  hash_input text (of_blake2b h) = of_blake2b (hash_blake2b.input text h)
  hash_input text (of_blake2s h) = of_blake2s (hash_blake2s.input text h)

  abbrev hash_result : Call (DefaultHash A B C D × Bytes) (Unit {0})
  hash_result (of_sha256 h, out) = inside_with of_sha256 hash_sha256.result (h, out)
  hash_result (of_sha512 h, out) = inside_with of_sha512 hash_sha512.result (h, out)
  hash_result (of_blake2b h, out) = inside_with of_blake2b hash_blake2b.result (h, out)
  hash_result (of_blake2s h, out) = inside_with of_blake2s hash_blake2s.result (h, out)

  instance abbrev pub default_hash : Hash (DefaultHash A B C D)
  default_hash = record {
    name = hash_name;
    block_len = hash_block_len;
    hash_len = hash_hash_len;
    reset = hash_reset;
    input = hash_input;
    result = hash_result;
  }

  unfoldable pub resolve_hash : HashChoice → Option (DefaultHash A B C D)
  resolve_hash sha256 = some (of_sha256 (record { hasher = a.new }))
  resolve_hash sha512 = some (of_sha512 (record { hasher = b.new }))
  resolve_hash blake2s = some (of_blake2s (record { hasher = d.new }))
  resolve_hash blake2b = some (of_blake2b (record { hasher = c.new }))

unfoldable pub resolve_dh : DhChoice → Option Dh25519
resolve_dh curve25519 = some default_dh25519
resolve_dh ed448 = none

module _ {A B : Type 0} where
  unfoldable pub resolve_cipher : CipherChoice → Option (DefaultCipher A B)
  resolve_cipher cha_cha_poly = some (cha_cha default_cha_cha_poly)
  resolve_cipher aesgcm = some (aes_gcm default_aes_gcm)

-- `DefaultResolver`: `os_rng` stands for `OsRng::default()`.
unfoldable pub default_resolver :
    {R X Y A B C D : Type 0} ⦃a : Digest A⦄ ⦃b : Digest B⦄ ⦃c : Digest C⦄ ⦃d : Digest D⦄
    (os_rng : R)
    → Resolver R (DefaultCipher X Y) (DefaultHash A B C D) Dh25519
unfolding resolve_hash resolve_dh resolve_cipher
default_resolver os_rng = record {
  resolve_rng = some os_rng;
  resolve_dh = resolve_dh;
  resolve_hash = resolve_hash;
  resolve_cipher = resolve_cipher;
}
