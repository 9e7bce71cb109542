-- ===== src/Tests/Resolvers.antt =====
-- The theorems on the wrappers of src/resolvers/, over concrete functions in place of the crates
-- that meet their laws. They are no cryptography.
use screech.Base.{
  ℕ, ◌^◌, suc, ◌∙◌, ap, sym, ◌≢◌, ◌≡◌, refl, [], ◌∷◌, ◌++◌, Bytes, codes, bytes_eq, bytes_eq_refl,
  length, replicate, if◌then◌else◌, arith,
}
use screech.Outcome.{ok, err, copy_slices}
use screech.Types.{Random}
use screech.Params.Choices.{curve25519, aesgcm, blake2s, parse_dh, parse_cipher, parse_hash}
use screech.Resolver.NonceBytes.{nonce_be, nonce_le, nonce_bytes_differ}
use screech.Resolver.Crates.{Aead, AeadLaws, Digest, X25519, X25519Laws}
use screech.Resolver.Default.Ciphers.{
  CipherAesGcm, CipherChaChaPoly, cipher_aes_gcm, cipher_cha_cha_poly,
}
use screech.Resolver.Default.RoundTrip.{IsRoundTrip, ciphers-IsRoundTrip}
use screech.Resolver.Default.Dh25519.{Dh25519, default_dh25519, set, dh, dh_25519, dh-set}
use screech.Resolver.Default.Resolve.{default_resolver, resolve_dh, resolve_cipher, resolve_hash}
use screech.Resolver.Default.Named.{resolved-named}
use screech.Resolver.Sodium.{sodium_cha_cha_poly}
use screech.Tests.Toy.{add_keys, add_keys_comm, padded, padded_self, length-padded}

abbrev pub xor_tag : Bytes → Bytes
xor_tag ad = replicate 16 (length ad)

instance abbrev plain : Aead Bytes
plain = record {
  new = λ key. key;
  encrypt_in_place_detached = λ a nonce ad pt. (ok (xor_tag ad), pt);
  decrypt_in_place_detached =
      λ a nonce ad tag ct. if bytes_eq tag (xor_tag ad) then (ok tt, ct) else (err tt, ct);
}

plain_opens :
    (ad pt : Bytes) → plain.decrypt_in_place_detached [] [] ad (xor_tag ad) pt ≡ (ok tt, pt)
plain_opens ad pt = rw (bytes_eq_refl (xor_tag ad))

instance abbrev plain_laws : AeadLaws Bytes
plain_laws = record {
  max_len = 2 ^ 36;
  hide = λ a nonce ad pt. pt;
  tag = λ a nonce ad pt. xor_tag ad;
  length-hide = λ a nonce ad pt. refl;
  length-tag = λ a nonce ad pt. refl;
  encrypt_hide = λ a nonce ad pt _ _. refl;
  decrypt_hide = λ a nonce ad pt _ _. plain_opens ad pt;
}

abbrev aes_key : CipherAesGcm Bytes
aes_key = record { key = replicate 32 1 }

abbrev cha_key : CipherChaChaPoly Bytes
cha_key = record { key = replicate 32 2 }

ciphers-IsRoundTrip_example :
    IsRoundTrip
      (cipher_aes_gcm {A = Bytes})
      aes_key
      7
      (codes "ad")
      (codes "hello")
      (replicate 21 0)
      (replicate 5 0)
    × IsRoundTrip
        (cipher_cha_cha_poly {A = Bytes})
        cha_key
        7
        (codes "ad")
        (codes "hello")
        (replicate 21 0)
        (replicate 5 0)
ciphers-IsRoundTrip_example =
    ciphers-IsRoundTrip aes_key cha_key 7 (codes "ad") (codes "hello") (replicate 21 0)
      (replicate 5 0) (omega arith) (omega arith) (omega arith) (omega arith)

nonce_bytes_differ_example :
    (nonce_be 1 ≢ nonce_be 256)
    × (nonce_le 1 ≢ nonce_le 256)
    × (length (nonce_be 1) ≡ 12)
    × (length (nonce_le 1) ≡ 12)
nonce_bytes_differ_example =
    nonce_bytes_differ 1 256 (omega arith) (omega arith) (λ e. omega (arith, e))

-- Addition in place of the curve, where the public key of a private key is the key itself.
abbrev add : Bytes → Bytes → Bytes
add a [] = padded a
add a (x ∷ p) = add_keys (padded a) (padded (x ∷ p))

instance abbrev addition : X25519
addition = record { x25519 = add; basepoint = [] }

length-add_keys : (xs ys : Bytes) → length xs ≡ length ys → length (add_keys xs ys) ≡ length xs
length-add_keys [] ys h = refl
length-add_keys (x ∷ xs) [] h = omega (arith, h)
length-add_keys (x ∷ xs) (y ∷ ys) h = ap suc (length-add_keys xs ys (omega (arith, h)))

length-add : (a p : Bytes) → length (add a p) ≡ 32
length-add a [] = length-padded a
length-add a (x ∷ p) =
    length-add_keys (padded a) (padded (x ∷ p)) (length-padded a ∙ sym (length-padded (x ∷ p)))
    ∙ length-padded a

add-padded : (a b : Bytes) → add a (padded b) ≡ add_keys (padded a) (padded b)
add-padded a [] = refl
add-padded a (x ∷ b) = ap (add_keys (padded a)) (padded_self (x ∷ b))

addition_laws : X25519Laws addition
addition_laws = record {
  length-x25519 = length-add;
  shared = λ a b. add-padded a b ∙ add_keys_comm (padded a) (padded b) ∙ sym (add-padded b a);
}

abbrev one : Dh25519
one = (set (replicate 32 1) default_dh25519).1

abbrev two : Dh25519
two = (set (replicate 32 2) default_dh25519).1

dh-set_example :
    (dh one two.pubkey (replicate 56 0) ≡ (ok tt, add one.privkey two.pubkey ++ replicate 24 0))
    × (dh two one.pubkey (replicate 56 0) ≡ (ok tt, add one.privkey two.pubkey ++ replicate 24 0))
unfolding set copy_slices
dh-set_example =
    dh-set addition_laws (replicate 32 1) (replicate 32 2) (replicate 56 0) default_dh25519
      default_dh25519 refl refl (omega arith)

instance abbrev collected : Digest Bytes
collected = record { new = []; update = λ text fed. fed ++ text; finalize_reset = λ fed. (fed, []) }

instance abbrev zeros : Random ℕ
zeros = record { fill_bytes = λ n r. (replicate n 0, r) }

resolved-named_example :
    (parse_dh (codes "25519") ≡ ok curve25519)
    × (parse_cipher (codes "AESGCM") ≡ ok aesgcm)
    × (parse_hash (codes "BLAKE2s") ≡ ok blake2s)
unfolding default_resolver resolve_dh resolve_cipher resolve_hash
resolved-named_example =
    resolved-named ℕ Bytes Bytes Bytes Bytes Bytes Bytes 0 curve25519 aesgcm blake2s
