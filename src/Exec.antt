-- ===== src/Exec.antt =====
-- Methods that take `&mut self` or a buffer: the state comes back beside the outcome, also beside
-- an error, as the call left it. (Beside a panic it is what the unwinding leaves behind.)
use screech.Base.{◌≡◌, refl, Bool, true, false, arith}
use screech.Error.{Error}
use screech.Outcome.{Result, ok, err, panic}

abbrev pub ExecOf {ℓ} : Type 0 → Type ℓ → Type ℓ → Type ℓ
ExecOf E S A = S → Result E A × S

abbrev pub Exec {ℓ} : Type ℓ → Type ℓ → Type ℓ
Exec S A = ExecOf Error S A

module _ {ℓ} {E : Type 0} {S A : Type ℓ} where
  abbrev pub pure : A → ExecOf E S A
  pure a s = (ok a, s)

  abbrev pub raise : E → ExecOf E S A
  raise e s = (err e, s)

  abbrev pub abort : ExecOf E S A
  abort s = (panic, s)

  abbrev pub lift : Result E A → ExecOf E S A
  lift r s = (r, s)

  abbrev pub gets : (S → A) → ExecOf E S A
  gets f s = (ok (f s), s)

  -- A call whose `Result` is kept as a value: only a panic stops the caller.
  abbrev pub attempt : {F : Type 0} → ExecOf F S A → S → Result E (Result F A) × S
  attempt m s =
      let (r, s') = m s in
      elim r [ ok a ↦ (ok (ok a), s') | err e ↦ (ok (err e), s') | panic ↦ (panic, s') ]

  -- `.map_err(|_| e)`
  abbrev pub map_err : {F : Type 0} → E → ExecOf F S A → ExecOf E S A
  map_err e m s =
      let (r, s') = m s in elim r [ ok a ↦ (ok a, s') | err _ ↦ (err e, s') | panic ↦ (panic, s') ]

module _ {ℓ} {E : Type 0} {S A B : Type ℓ} where
  abbrev pub continue : Result E A → (A → ExecOf E S B) → ExecOf E S B
  continue (ok a) f s = f a s
  continue (err e) f s = (err e, s)
  continue panic f s = (panic, s)

  infixl 5 ◌>>=◌ ◌>>◌
  abbrev pub ◌>>=◌ : ExecOf E S A → (A → ExecOf E S B) → ExecOf E S B
  ◌>>=◌ m f s = let (r, s') = m s in continue r f s'

  abbrev pub ◌>>◌ : ExecOf E S A → ExecOf E S B → ExecOf E S B
  m >> n = m >>= λ _. n

module _ {E S : Type 0} where
  abbrev pub modify : (S → S) → ExecOf E S (Unit {0})
  modify f s = (ok tt, f s)

  -- `if !b { bail!(e) }`
  abbrev pub require : Bool → E → ExecOf E S (Unit {0})
  require true e s = (ok tt, s)
  require false e s = (err e, s)

  -- `assert!(b)`
  abbrev pub assert : Bool → ExecOf E S (Unit {0})
  assert true s = (ok tt, s)
  assert false s = (panic, s)

-- A part of a state that a call is lent: `&mut self.field`, `&mut buffer[i..]`.
pub record Lens (S T : Type 0) : Type 0 where
  pub get : S → T
  pub put : T → S → S

module _ {E S T A : Type 0} where
  abbrev pub on : Lens S T → ExecOf E T A → ExecOf E S A
  on l m s = let (r, t) = m (l.get s) in (r, l.put t s)

module _ {S T : Type 0} where
  abbrev pub first : Lens (S × T) S
  first = record { get = λ s. s.0; put = λ t s. (t, s.1) }

  abbrev pub second : Lens (S × T) T
  second = record { get = λ s. s.1; put = λ t s. (s.0, t) }

-- A local buffer that a call fills: its last value is what the caller goes on with.
module _ {E S T : Type 0} where
  abbrev pub filling : T → ExecOf E (S × T) (Unit {0}) → ExecOf E S T
  filling buffer m s =
      let (r, st) = m (s, buffer) in
      elim r [ ok _ ↦ (ok st.1, st.0) | err e ↦ (err e, st.0) | panic ↦ (panic, st.0) ]

-- A call that returns no `Result`: it returns or panics.
abbrev pub Call {ℓ} : Type ℓ → Type ℓ → Type ℓ
Call S A = ExecOf ⊥ S A

module _ {ℓ} {E : Type 0} {S A : Type ℓ} where
  abbrev pub call : Call S A → ExecOf E S A
  call m s =
      let (r, s') = m s in elim r [ ok a ↦ (ok a, s') | err e ↦ absurd e | panic ↦ (panic, s') ]

module _ {ℓ} {F : Type 0} {S A : Type ℓ} where
  -- `.unwrap()` or `.expect(…)` of what the call returns
  abbrev pub unwrap : ExecOf F S A → Call S A
  unwrap m s =
      let (r, s') = m s in elim r [ ok a ↦ (ok a, s') | err e ↦ (panic, s') | panic ↦ (panic, s') ]

-- What a chain of calls that returned tells of its parts.
module _ {E S A B : Type 0} where
  continue_inv :
      (r : Result E A) (f : A → ExecOf E S B) (s : S) {b : B} {s'' : S}
      → continue r f s ≡ (ok b, s'')
      → (a : A) × (r ≡ ok a) × (f a s ≡ (ok b, s''))
  continue_inv (ok a) f s returned = (a, refl, returned)
  continue_inv (err e) f s returned = cc
  continue_inv panic f s returned = cc

  pub bind_inv :
      (m : ExecOf E S A) (f : A → ExecOf E S B) (s : S) {b : B} {s'' : S}
      → (m >>= f) s ≡ (ok b, s'')
      → let (r, s') = m s in (a : A) × (r ≡ ok a) × (f a s' ≡ (ok b, s''))
  bind_inv m f s returned = let (r, s') = m s in continue_inv r f s' returned

module _ {E S B : Type 0} where
  pub require_inv :
      (b : Bool) (e : E) (m : ExecOf E S B) (s : S) {a : B} {s' : S}
      → (require b e >> m) s ≡ (ok a, s')
      → (b ≡ true) × (m s ≡ (ok a, s'))
  require_inv true e m s returned = (refl, returned)
  require_inv false e m s returned = cc

module _ {E S T A : Type 0} where
  pub call_inv :
      (l : Lens S T) (m : Call T A) (s : S) {a : A} {s' : S}
      → on l (call {E = E} m) s ≡ (ok a, s')
      → (m (l.get s) ≡ (ok a, (m (l.get s)).1)) × (l.put (m (l.get s)).1 s ≡ s')
  call_inv l m s returned =
      let (r, t) = m (l.get s) in (ground (arith, returned), ground (arith, returned))

  pub call_ok :
      (l : Lens S T) (m : Call T A) (s : S) {a : A} {t : T}
      → m (l.get s) ≡ (ok a, t)
      → on l (call {E = E} m) s ≡ (ok a, l.put t s)
  call_ok l m s returned = ground (arith, returned)
