-- ===== src/Tests/Toy.antt =====
-- Concrete implementations of the traits of src/types.rs that meet their laws. They are no
-- cryptography: the tag is made of the nonce, the digest is the first bytes, keys are added.
use screech.Base.{
  ◌∙◌, zero, suc, sym, ap, ℕ, ◌+◌, ◌-◌, ◌%◌, ◌≤◌, ◌≡◌, refl, [], ◌∷◌, ◌++◌, Bytes, codes, bytes_eq,
  bytes_eq_refl, length, take, drop, replicate, length-append, length-replicate, length-take,
  length-drop, take-append_self, drop-append_self, leb, if◌then◌else◌, arith, le→leb,
}
use native.Mathlib.Nat.{add_comm}
use screech.Outcome.{Result, ok, err, panic}
use screech.Types.{Cipher, Hash, Dh}
use screech.Types.Laws.{CipherLaws, HashLaws, DhLaws}
use screech.Types.Total.{HashSizes, DhTotal}

abbrev pub Key : Type 0
Key = Bytes

abbrev pub tag : Bytes → ℕ → Bytes
tag ad n = replicate 16 ((n + length ad) % 256)

abbrev pub toy_seal : Key → ℕ → Bytes → Bytes → Bytes
toy_seal key n ad pt = pt ++ tag ad n

abbrev pub toy_encrypt : Key → ℕ → Bytes → Bytes → Bytes → Result ⊥ ℕ × Bytes
toy_encrypt key n ad pt out =
    if leb (length pt + 16) (length out)
    then (ok (length pt + 16), toy_seal key n ad pt ++ drop (length pt + 16) out)
    else (panic, out)

abbrev pub toy_decrypt : Key → ℕ → Bytes → Bytes → Bytes → Result (Unit {0}) ℕ × Bytes
toy_decrypt key n ad ct out =
    let m = length ct - 16 in
    if bytes_eq (drop m ct) (tag ad n) then (ok m, take m ct ++ drop m out) else (err tt, out)

instance abbrev pub toy_cipher : Cipher Key
toy_cipher = record {
  name = λ key. codes "toy";
  set = λ new key. (ok tt, new);
  encrypt = toy_encrypt;
  decrypt = toy_decrypt;
}

pub toy_length-seal : (n : ℕ) (ad pt : Bytes) → length (pt ++ tag ad n) ≡ length pt + 16
toy_length-seal n ad pt = length-append pt (tag ad n)

pub toy_encrypt_seal :
    (key : Key) (n : ℕ) (ad pt out : Bytes)
    → length pt + 16 ≤ length out
    → toy_encrypt key n ad pt out
      ≡ (ok (length pt + 16), toy_seal key n ad pt ++ drop (length pt + 16) out)
toy_encrypt_seal key n ad pt out fits = rw (le→leb _ _ fits)

pub toy_encrypt_fits :
    (key : Key) (n : ℕ) (ad pt out : Bytes) {m : ℕ}
    → (toy_encrypt key n ad pt out).0 ≡ ok m
    → length pt + 16 ≤ length out
toy_encrypt_fits key n ad pt out returned = ground arith

pub toy_length-behind :
    (key : Key) (n : ℕ) (ad pt out : Bytes)
    → length pt ≤ length out
    → length (drop (length pt) out) + length pt ≡ length out
toy_length-behind key n ad pt out fits = omega (arith, length-drop (length pt) out)

pub toy_decrypt_seal :
    (key : Key) (n : ℕ) (ad pt out : Bytes)
    → length pt ≤ length out
    → toy_decrypt key n ad (toy_seal key n ad pt) out ≡ (ok (length pt), pt ++ drop (length pt) out)
toy_decrypt_seal key n ad pt out fits =
    let m : length (pt ++ tag ad n) - 16 ≡ length pt = omega (arith, toy_length-seal n ad pt) in
    rw m (
      rw (drop-append_self pt (tag ad n), take-append_self pt (tag ad n), bytes_eq_refl (tag ad n)))

instance abbrev pub toy_cipher_laws : CipherLaws Key
toy_cipher_laws = record {
  set_ok = λ key c e. refl;
  seal = toy_seal;
  length-seal = λ c n ad pt. toy_length-seal n ad pt;
  encrypt_seal = toy_encrypt_seal;
  encrypt_fits = toy_encrypt_fits;
  behind = λ key n ad pt out. drop (length pt) out;
  length-behind = toy_length-behind;
  decrypt_seal = toy_decrypt_seal;
}

-- The state of the hasher is what was put in.
pub record Hasher : Type 0 where
  pub fed : Bytes

abbrev pub toy_digest : Hasher → Bytes
toy_digest h = take 32 (h.fed ++ replicate 32 0)

abbrev pub toy_result : Hasher × Bytes → Result ⊥ (Unit {0}) × (Hasher × Bytes)
toy_result (h, out) =
    if leb 32 (length out)
    then (ok tt, (record { fed = [] }, toy_digest h ++ drop 32 out))
    else (panic, (h, out))

instance abbrev pub toy_hash : Hash Hasher
toy_hash = record {
  name = λ h. codes "toy";
  block_len = λ h. 64;
  hash_len = λ h. 32;
  reset = λ h. record { fed = [] };
  input = λ text h. record { fed = h.fed ++ text };
  result = toy_result;
}

pub toy_length-digest : (h : Hasher) → length (toy_digest h) ≡ 32
toy_length-digest h = omega (
  arith,
  length-take 32 (h.fed ++ replicate 32 0),
  length-append h.fed (replicate 32 0),
  length-replicate {A = ℕ} 32 0,
)

pub toy_result_digest :
    (h : Hasher) (out : Bytes)
    → 32 ≤ length out
    → toy_result (h, out) ≡ (ok tt, (record { fed = [] }, toy_digest h ++ drop 32 out))
toy_result_digest h out fits = rw (le→leb _ _ fits)

instance abbrev pub toy_hash_laws : HashLaws Hasher
toy_hash_laws = record {
  digest = toy_digest;
  finalized = λ h. record { fed = [] };
  length-digest = toy_length-digest;
  hash_len-reset = λ h. refl;
  hash_len-input = λ text h. refl;
  hash_len-finalized = λ h. refl;
  hash_len_bound = λ h. omega arith;
  result_digest = toy_result_digest;
}

instance abbrev pub toy_hash_sizes : HashSizes Hasher
toy_hash_sizes = record { block_room = λ h. omega arith; block_bound = λ h. omega arith }

-- The random numbers count up.
pub record Counter : Type 0 where
  pub count : ℕ

pub record Pair : Type 0 where
  pub secret : Bytes

abbrev pub add_keys : Bytes → Bytes → Bytes
add_keys [] ys = []
add_keys (x ∷ xs) [] = []
add_keys (x ∷ xs) (y ∷ ys) = ((x + y) % 256) ∷ add_keys xs ys

-- A private key is cut or padded to 32 bytes.
abbrev pub padded : Bytes → Bytes
padded key = take 32 (key ++ replicate 32 0)

instance abbrev pub toy_dh : Dh Counter Pair
toy_dh = record {
  name = λ d. codes "toy";
  pub_len = λ d. 32;
  priv_len = λ d. 32;
  set = λ key d. (ok tt, record { secret = padded key });
  generate = λ s. (
    ok tt,
    (record { secret = replicate 32 (s.1.count % 256) }, record { count = s.1.count + 1 }),
  );
  pubkey = λ d. d.secret;
  privkey = λ d. d.secret;
  dh = λ d key out. (ok tt, add_keys d.secret (take 32 key) ++ drop 32 out);
}

take_twice : (n : ℕ) (xs : Bytes) → take n (take n xs) ≡ take n xs
take_twice zero xs = refl
take_twice (suc n) [] = refl
take_twice (suc n) (x ∷ xs) = ap (λ r. x ∷ r) (take_twice n xs)

pub add_keys_comm : (xs ys : Bytes) → add_keys xs ys ≡ add_keys ys xs
add_keys_comm [] [] = refl
add_keys_comm [] (y ∷ ys) = refl
add_keys_comm (x ∷ xs) [] = refl
add_keys_comm (x ∷ xs) (y ∷ ys) = cc (add_comm x y, add_keys_comm xs ys)

pub length-padded : (key : Bytes) → length (padded key) ≡ 32
length-padded key = omega (
  arith,
  length-take 32 (key ++ replicate 32 0),
  length-append key (replicate 32 0),
  length-replicate {A = ℕ} 32 0,
)

pub padded_self : (key : Bytes) → padded (padded key) ≡ padded key
padded_self key =
    ap (λ n. take n (padded key ++ replicate 32 0)) (sym (length-padded key))
    ∙ take-append_self (padded key) (replicate 32 0)

pub toy_commutes :
    (d e : Pair) (k l out : Bytes)
    → d.secret ≡ padded d.secret
    → e.secret ≡ padded e.secret
    → take 32 k ≡ e.secret
    → take 32 l ≡ d.secret
    → toy_dh.dh d k out ≡ toy_dh.dh e l out
toy_commutes d e k l out hd he hk hl = cc (hk, hl, add_keys_comm d.secret e.secret)

pub toy_length-pubkey : (d : Pair) → d.secret ≡ padded d.secret → length d.secret ≡ 32
toy_length-pubkey d h = ap length h ∙ length-padded d.secret

instance abbrev pub toy_dh_laws : DhLaws Counter Pair
toy_dh_laws = record {
  public = padded;
  set_pair = λ key d e. sym (padded_self key);
  generate_pair = λ s e. refl;
  pub_len-set = λ key d. refl;
  pub_len_bound = λ d. omega arith;
  pub_len-generate = λ s. refl;
  length-pubkey = toy_length-pubkey;
  commutes = toy_commutes;
}

pub length-add_keys : (xs ys : Bytes) → length xs ≡ length ys → length (add_keys xs ys) ≡ length xs
length-add_keys [] [] h = refl
length-add_keys [] (y ∷ ys) h = refl
length-add_keys (x ∷ xs) [] h = absurd (omega (arith, h))
length-add_keys (x ∷ xs) (y ∷ ys) h = omega (arith, length-add_keys xs ys (omega (arith, h)))

pub toy_dh_ok :
    (d e : Pair) (k out : Bytes)
    → d.secret ≡ padded d.secret
    → e.secret ≡ padded e.secret
    → take 32 k ≡ e.secret
    → 32 ≤ length out
    → (out' : Bytes) × (toy_dh.dh d k out ≡ (ok tt, out')) × (length out' ≡ length out)
toy_dh_ok d e k out hd he hk room =
    let sum = add_keys d.secret (take 32 k) in
    let dl = toy_length-pubkey d hd in
    let el = toy_length-pubkey e he in
    let kl = ap length hk in
    (
      _,
      refl,
      omega (
        arith,
        room,
        dl,
        length-add_keys d.secret (take 32 k) (omega (arith, dl, el, kl)),
        length-append sum (drop 32 out),
        length-drop 32 out,
      ),
    )

instance abbrev pub toy_dh_total : DhTotal Counter Pair
toy_dh_total = record { generate_ok = λ s. refl; dh_ok = toy_dh_ok }
