-- ===== src/Outcome.antt =====
-- How a call ends: it returns, it returns an error, or it panics; and the monad of such calls. A
-- call that also changes state is in `Exec`.
use screech.Base.{
  ℕ, ◌≤◌, ◌⊎◌, inl, inr, ◌≡◌, refl, Option, none, some, List, ◌++◌, Bytes, length, take, drop, leb,
  if◌then◌else◌, arith,
}
use screech.Error.{Error}

-- A Rust `Result<A, E>`, or a panic.
pub data Result {ℓ} (E : Type 0) (A : Type ℓ) : Type ℓ where
  ok : A → Result E A
  err : E → Result E A
  panic : Result E A

abbrev pub Outcome {ℓ} : Type ℓ → Type ℓ
Outcome A = Result Error A

module _ {ℓ κ} {E : Type 0} {A : Type ℓ} {B : Type κ} where
  infixl 5 ◌>>=◌
  abbrev pub ◌>>=◌ : Result E A → (A → Result E B) → Result E B
  ok a >>= f = f a
  err e >>= f = err e
  panic >>= f = panic

abbrev pub ok_or {ℓ} : {E : Type 0} {A : Type ℓ} → Option A → E → Result E A
ok_or none e = err e
ok_or (some a) e = ok a

-- `&xs[..n]` and `&xs[n..]`
abbrev pub slice_to {ℓ} : {E : Type 0} {A : Type ℓ} → ℕ → List A → Result E (List A)
slice_to n xs = if leb n (length xs) then ok (take n xs) else panic

abbrev pub slice_from {ℓ} : {E : Type 0} {A : Type ℓ} → ℕ → List A → Result E (List A)
slice_from n xs = if leb n (length xs) then ok (drop n xs) else panic

-- The `copy_slices!` macro: `out[..xs.len()].copy_from_slice(xs)`, as the new value of `out`.
unfoldable pub copy_slices : {E : Type 0} → Bytes → Bytes → Result E Bytes
copy_slices xs out = if leb (length xs) (length out) then ok (xs ++ drop (length xs) out) else panic

pub copy_slices-eq-ok :
    {E : Type 0} (xs out : Bytes)
    → length xs ≤ length out
    → copy_slices {E = E} xs out ≡ ok (xs ++ drop (length xs) out)
unfolding copy_slices
copy_slices-eq-ok xs out h = ground arith

-- What holds of the value of a call, if it returns; and the rule for a chain of calls.
pub record IfOk {ℓ κ} {E : Type 0} {A : Type ℓ} (P : A → Type κ) (r : Result E A)
    : Type (ℓ ⊔ κ) where
  pub at : (a : A) → r ≡ ok a → P a

pub IfOk-bind {ℓ κ μ} :
    {E : Type 0} {A : Type ℓ} {B : Type κ} {P : B → Type μ} (m : Result E A) (f : A → Result E B)
    → ((a : A) → m ≡ ok a → IfOk P (f a))
    → IfOk P (m >>= f)
IfOk-bind (ok a) f h = h a refl
IfOk-bind (err e) f h = record { at = λ b e'. cc }
IfOk-bind panic f h = record { at = λ b e'. cc }

pub Result-cases {ℓ} :
    {E : Type 0} {A : Type ℓ} (r : Result E A)
    → ((a : A) × (r ≡ ok a)) ⊎ (((e : E) × (r ≡ err e)) ⊎ (r ≡ panic))
Result-cases (ok a) = inl (a, refl)
Result-cases (err e) = inr (inl (e, refl))
Result-cases panic = inr (inr refl)
