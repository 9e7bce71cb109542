-- ===== src/Types/Laws.antt =====
-- What the crate relies on of the implementations behind the traits of src/types.rs, as the traits'
-- comments and the Noise specification describe them. The theorems take these as instances.
use screech.Base.{ℕ, ◌+◌, ◌≤◌, ◌≡◌, ◌++◌, Bytes, length, take, drop}
use screech.Constants.{taglen, cipherkeylen, maxhashlen, maxdhlen}
use screech.Outcome.{ok}
use screech.Types.Traits.{Dh, Cipher, Hash}

-- An authenticated cipher: `seal` is the ciphertext with its tag, and `behind` what decrypting leaves
-- in the buffer behind the plaintext, which an implementation may have used as scratch.
pub record CipherLaws (C : Type 0) ⦃ops : Cipher C⦄ : Type 0 where
  pub set_ok : (key : Bytes) (c : C) → length key ≡ cipherkeylen → (ops.set key c).0 ≡ ok tt
  pub seal : C → ℕ → Bytes → Bytes → Bytes
  pub length-seal : (c : C) (n : ℕ) (ad pt : Bytes) → length (seal c n ad pt) ≡ length pt + taglen
  pub encrypt_seal :
      (c : C) (n : ℕ) (ad pt out : Bytes)
      → length pt + taglen ≤ length out
      → ops.encrypt c n ad pt out
        ≡ (ok (length pt + taglen), seal c n ad pt ++ drop (length pt + taglen) out)
  -- There is no writing past the end of the buffer.
  pub encrypt_fits :
      (c : C) (n : ℕ) (ad pt out : Bytes) {m : ℕ}
      → (ops.encrypt c n ad pt out).0 ≡ ok m
      → length pt + taglen ≤ length out
  pub behind : C → ℕ → Bytes → Bytes → Bytes → Bytes
  pub length-behind :
      (c : C) (n : ℕ) (ad pt out : Bytes)
      → length pt ≤ length out
      → length (behind c n ad pt out) + length pt ≡ length out
  pub decrypt_seal :
      (c : C) (n : ℕ) (ad pt out : Bytes)
      → length pt ≤ length out
      → ops.decrypt c n ad (seal c n ad pt) out ≡ (ok (length pt), pt ++ behind c n ad pt out)

-- A hash function: `result` writes a digest of the constant length `hash_len` in front of the buffer.
pub record HashLaws (H : Type 0) ⦃ops : Hash H⦄ : Type 0 where
  pub digest : H → Bytes
  pub finalized : H → H
  pub length-digest : (h : H) → length (digest h) ≡ ops.hash_len h
  pub hash_len-reset : (h : H) → ops.hash_len (ops.reset h) ≡ ops.hash_len h
  pub hash_len-input : (text : Bytes) (h : H) → ops.hash_len (ops.input text h) ≡ ops.hash_len h
  pub hash_len-finalized : (h : H) → ops.hash_len (finalized h) ≡ ops.hash_len h
  pub hash_len_bound : (h : H) → ops.hash_len h ≤ maxhashlen
  pub result_digest :
      (h : H) (out : Bytes)
      → ops.hash_len h ≤ length out
      → ops.result (h, out) ≡ (ok tt, (finalized h, digest h ++ drop (ops.hash_len h) out))

-- A Diffie-Hellman function: `public` is the public key of a private key. `set` and `generate` leave
-- a key pair, and two key pairs, each with the public key of the other in front of a buffer, come to
-- the same outcome.
pub record DhLaws (R D : Type 0) ⦃ops : Dh R D⦄ : Type 0 where
  pub public : Bytes → Bytes
  pub set_pair :
      (key : Bytes) (d : D)
      → (ops.set key d).0 ≡ ok tt
      → let (_, d') = ops.set key d in ops.pubkey d' ≡ public (ops.privkey d')
  pub generate_pair :
      (s : D × R)
      → (ops.generate s).0 ≡ ok tt
      → let (_, (d, _)) = ops.generate s in ops.pubkey d ≡ public (ops.privkey d)
  pub pub_len-set : (key : Bytes) (d : D) → ops.pub_len (ops.set key d).1 ≡ ops.pub_len d
  pub pub_len_bound : (d : D) → ops.pub_len d ≤ maxdhlen
  pub pub_len-generate : (s : D × R) → ops.pub_len (ops.generate s).1.0 ≡ ops.pub_len s.0
  pub length-pubkey :
      (d : D) → ops.pubkey d ≡ public (ops.privkey d) → length (ops.pubkey d) ≡ ops.pub_len d
  pub commutes :
      (d e : D) (k l out : Bytes)
      → ops.pubkey d ≡ public (ops.privkey d)
      → ops.pubkey e ≡ public (ops.privkey e)
      → take (ops.pub_len e) k ≡ ops.pubkey e
      → take (ops.pub_len d) l ≡ ops.pubkey d
      → ops.dh d k out ≡ ops.dh e l out
