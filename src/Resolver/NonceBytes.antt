-- ===== src/Resolver/NonceBytes.antt =====
-- The bytes of a nonce that the ciphers of src/resolvers/default.rs, src/resolvers/ring.rs and
-- src/resolvers/libsodium.rs hand to their crates.
use screech.Base.{
  ℕ, zero, suc, ◌*◌, ◌/◌, ◌%◌, ◌^◌, ◌<◌, ◌≡◌, ◌≢◌, refl, ap, [], ◌∷◌, ◌++◌, Bytes, length, take,
  drop, replicate, length-append, take-append_self, drop-append_self, arith,
}

-- `u64::to_le_bytes` and `u64::to_be_bytes`, of so many bytes.
unfoldable pub le_bytes : ℕ → ℕ → Bytes
le_bytes zero n = []
le_bytes (suc k) n = (n % 256) ∷ le_bytes k (n / 256)

unfoldable pub be_bytes : ℕ → ℕ → Bytes
be_bytes zero n = []
be_bytes (suc k) n = be_bytes k (n / 256) ++ (n % 256) ∷ []

-- `[0u8; 12]` with the bytes of the nonce written from the fifth on.
unfoldable pub nonce_be : ℕ → Bytes
unfolding be_bytes
nonce_be nonce = replicate 4 0 ++ be_bytes 8 nonce

unfoldable pub nonce_le : ℕ → Bytes
unfolding le_bytes
nonce_le nonce = replicate 4 0 ++ le_bytes 8 nonce

length-le_bytes : (k n : ℕ) → length (le_bytes k n) ≡ k
unfolding le_bytes
length-le_bytes zero n = refl
length-le_bytes (suc k) n = ap suc (length-le_bytes k (n / 256))

length-be_bytes : (k n : ℕ) → length (be_bytes k n) ≡ k
unfolding be_bytes
length-be_bytes zero n = refl
length-be_bytes (suc k) n =
    omega
      (arith, length-be_bytes k (n / 256), length-append (be_bytes k (n / 256)) ((n % 256) ∷ []))

bytes_bound : ℕ → ℕ
bytes_bound zero = 1
bytes_bound (suc k) = 256 * bytes_bound k

le_bytes_inj :
    (k m n : ℕ) → m < bytes_bound k → n < bytes_bound k → le_bytes k m ≡ le_bytes k n → m ≡ n
unfolding le_bytes bytes_bound
le_bytes_inj zero m n hm hn e = omega (arith, hm, hn)
le_bytes_inj (suc k) m n hm hn e =
    let low : m % 256 ≡ n % 256 = cc e in
    let high : m / 256 ≡ n / 256 =
      le_bytes_inj k (m / 256) (n / 256) (omega (arith, hm)) (omega (arith, hn)) (cc e) in
    omega (arith, low, high)

be_bytes_inj :
    (k m n : ℕ) → m < bytes_bound k → n < bytes_bound k → be_bytes k m ≡ be_bytes k n → m ≡ n
unfolding be_bytes bytes_bound
be_bytes_inj zero m n hm hn e = omega (arith, hm, hn)
be_bytes_inj (suc k) m n hm hn e =
    let front : take k (be_bytes (suc k) m) ≡ take k (be_bytes (suc k) n) = ap (take k) e in
    let back : drop k (be_bytes (suc k) m) ≡ drop k (be_bytes (suc k) n) = ap (drop k) e in
    let hm' = length-be_bytes k (m / 256) in
    let hn' = length-be_bytes k (n / 256) in
    let same : be_bytes k (m / 256) ≡ be_bytes k (n / 256) = cc (
      hm',
      hn',
      take-append_self (be_bytes k (m / 256)) ((m % 256) ∷ []),
      take-append_self (be_bytes k (n / 256)) ((n % 256) ∷ []),
    ) in
    let low : m % 256 ≡ n % 256 = cc (
      hm',
      hn',
      drop-append_self (be_bytes k (m / 256)) ((m % 256) ∷ []),
      drop-append_self (be_bytes k (n / 256)) ((n % 256) ∷ []),
    ) in
    let high : m / 256 ≡ n / 256 =
      be_bytes_inj k (m / 256) (n / 256) (omega (arith, hm)) (omega (arith, hn)) same in
    omega (arith, low, high)

-- Two different nonces of 64 bits have different bytes, in either byte order; there are twelve.
pub nonce_bytes_differ :
    (m n : ℕ)
    → m < 2 ^ 64
    → n < 2 ^ 64
    → m ≢ n
    → (nonce_be m ≢ nonce_be n)
      × (nonce_le m ≢ nonce_le n)
      × (length (nonce_be m) ≡ 12)
      × (length (nonce_le m) ≡ 12)
unfolding nonce_be nonce_le bytes_bound
nonce_bytes_differ m n hm hn differ = (
  λ e. differ (be_bytes_inj 8 m n (omega (arith, hm)) (omega (arith, hn)) (ap (drop 4) e)),
  λ e. differ (le_bytes_inj 8 m n (omega (arith, hm)) (omega (arith, hn)) (ap (drop 4) e)),
  refl,
  refl,
)

pub length-nonce_be : (n : ℕ) → length (nonce_be n) ≡ 12
unfolding nonce_be
length-nonce_be n = refl

pub length-nonce_le : (n : ℕ) → length (nonce_le n) ≡ 12
unfolding nonce_le
length-nonce_le n = refl
