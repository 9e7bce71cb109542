-- ===== src/Resolver/Sodium/KeyPair.antt =====
-- The private keys that `SodiumDh25519::generate` of src/resolvers/libsodium.rs makes.
use Prim.Native.Nat.{bit_and, bit_or}
use screech.Base.{
  ℕ, zero, suc, ◌%◌, ◌≤◌, ◌<◌, ◌≡◌, refl, Bool, true, ◌&&◌, [], ◌∷◌, set, get_elem?-set, length-set,
  some, Bytes, length, get_elem?, ltb, leb, ◌==◌, Bool-cases, inl, inr, arith,
}
use screech.Outcome.{ok}
use screech.Resolver.Sodium.{convert_to_private_key, change_byte}

-- What holds of every number below a bound.
holds_below : (ℕ → Bool) → ℕ → Bool
holds_below p zero = true
holds_below p (suc n) = p n && holds_below p n

below_holds : (p : ℕ → Bool) (n : ℕ) {k : ℕ} → holds_below p n ≡ true → k < n → p k ≡ true
unfolding holds_below
below_holds p zero all h = ground (arith, h)
below_holds p (suc n) {k} all h = elim (Bool-cases (k == n)) [
  | inl e ↦ ground (arith, all, e)
  | inr e ↦ below_holds p n (ground (arith, all)) (ground (arith, h, e))
]

abbrev low_clear : ℕ → Bool
low_clear b = bit_and b 248 % 8 == 0

abbrev high_set : ℕ → Bool
high_set b = let c = bit_or (bit_and b 127) 64 in leb 64 c && ltb c 128

low_clear_all : holds_below low_clear 256 ≡ true
unfolding holds_below
low_clear_all = refl

high_set_all : holds_below high_set 256 ≡ true
unfolding holds_below
high_set_all = refl

-- The first byte of such a key is a multiple of eight and the last lies from 64 to 127.
pub record IsClamped (key : Bytes) : Type 0 where
  pub size : length key ≡ 32
  pub first : ℕ
  pub last : ℕ
  pub at_first : get_elem? key 0 ≡ some first
  pub at_last : get_elem? key 31 ≡ some last
  pub multiple : first % 8 ≡ 0
  pub low : 64 ≤ last
  pub high : last < 128

-- From 32 bytes, of which the first and the last are below 256, `convert_to_private_key` returns a
-- key of 32 bytes whose first byte is a multiple of eight and whose last byte is at least 64 and
-- below 128.
pub convert_to_private_key-IsClamped :
    (key : Bytes) (a b : ℕ)
    → length key ≡ 32
    → get_elem? key 0 ≡ some a
    → get_elem? key 31 ≡ some b
    → a < 256
    → b < 256
    → (clamped : Bytes) × (convert_to_private_key key tt ≡ (ok clamped, tt)) × IsClamped clamped
unfolding convert_to_private_key change_byte
convert_to_private_key-IsClamped [] a b len at0 at31 ha hb = ground (arith, len)
convert_to_private_key-IsClamped (x ∷ xs) a b len at0 at31 ha hb =
    let first = bit_and x 248 in
    let last = bit_or (bit_and b 127) 64 in
    let same : x ≡ a = cc at0 in
    let rest : get_elem? xs 30 ≡ some b = at31 in
    let step = get_elem?-set xs 30 (bit_and b 127) rest in
    let done = get_elem?-set (set xs 30 (bit_and b 127)) 30 last step in
    let low = below_holds low_clear 256 {k = x} low_clear_all (omega (arith, same, ha)) in
    let high = below_holds high_set 256 {k = b} high_set_all hb in
    (
      first ∷ set (set xs 30 (bit_and b 127)) 30 last,
      ground (arith, rest, step),
      record {
        size = omega (
          arith,
          len,
          length-set (set xs 30 (bit_and b 127)) 30 last,
          length-set xs 30 (bit_and b 127),
        );
        first = first;
        last = last;
        at_first = refl;
        at_last = done;
        multiple = ground (arith, low);
        low = ground (arith, high);
        high = ground (arith, high);
      },
    )
