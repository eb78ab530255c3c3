-- ===== src/Prelude/Action.antt =====
-- Python methods over a store: exceptions as values, and a transaction that rolls back on a raise.
use Prim.Native.Nat.{ℕ}
use Prim.Native.String.{String}
use mathlib.Core.Bool.{Bool, true, false}
use mathlib.Core.Option.{Option, none, some}
use mathlib.Core.List.{List}
use mathlib.Core.Path.{◌≡◌, refl, ap}
use mathlib.Core.Logic.{◌⊎◌, inl, inr}
use native.Mathlib.Omega.{arith}

-- The exceptions that the modelled code raises, with the texts that it gives them.
pub data Error : Type 0 where
  value_error : String → Error
  key_error : String → Error
  key_error_number : ℕ → Error
  runtime_error : String → Error
  integrity_error : String → Error
  -- `decimal.InvalidOperation`, for an order comparison with a NaN.
  invalid_operation : Error
  active_mutation_exists : Error
  dispatch_blocked : List String → Error

pub data Result {ℓ} (A : Type ℓ) : Type ℓ where
  ok : A → Result A
  err : Error → Result A

pub Result-cases : (r : Result (Unit {0})) → (r ≡ ok tt) ⊎ ((e : Error) × (r ≡ err e))
Result-cases (ok tt) = inl refl
Result-cases (err e) = inr (e, refl)

pub Given-cases {ℓ} :
    {A : Type ℓ} (r : Result A) → ((a : A) × (r ≡ ok a)) ⊎ ((e : Error) × (r ≡ err e))
Given-cases (ok a) = inl (a, refl)
Given-cases (err e) = inr (e, refl)

-- The state comes back after a raise too: what was committed stays committed.
abbrev pub Action : Type 0 → Type 0 → Type 0
Action S A = S → Result A × S

infixl 5 ◌>>=◌ ◌>>◌
abbrev pub ◌>>=◌ : {S A B : Type 0} → Action S A → (A → Action S B) → Action S B
◌>>=◌ m f s = let (r, s') = m s in elim r [ ok a ↦ f a s' | err e ↦ (err e, s') ]

-- A method that returns goes on with its value.
pub bind_ok :
    {S A B : Type 0} (m : Action S A) (f : A → Action S B) (s s' : S) (a : A)
    → m s ≡ (ok a, s')
    → (m >>= f) s ≡ f a s'
bind_ok m f s s' a h = ap (λ p. elim p.0 [ ok x ↦ f x p.1 | err e ↦ (err e, p.1) ]) h

-- A method that raises ends what it stands in.
pub bind_err :
    {S A B : Type 0} (m : Action S A) (f : A → Action S B) (s s' : S) (e : Error)
    → m s ≡ (err e, s')
    → (m >>= f) s ≡ (err e, s')
bind_err m f s s' e h = ap (λ p. elim p.0 [ ok x ↦ f x p.1 | err x ↦ (err x, p.1) ]) h

-- What follows a method counts only at the values and the stores that it can give.
pub bind_same :
    {S A B : Type 0} (m : Action S A) (f g : A → Action S B) (s : S)
    → ((a : A) (t : S) → f a t ≡ g a t)
    → (m >>= f) s ≡ (m >>= g) s
bind_same m f g s h = elim (Given-cases (m s).0) [
  | inl (a, done) ↦ rw (◌>>=◌, done) (h a (m s).1)
  | inr (e, failed) ↦ rw (◌>>=◌, failed) refl
]

abbrev pub ◌>>◌ : {S B : Type 0} → Action S (Unit {0}) → Action S B → Action S B
m >> k = m >>= λ _. k

module _ {S : Type 0} where
  abbrev pub pure : {A : Type 0} → A → Action S A
  pure a s = (ok a, s)

  abbrev pub raise : {A : Type 0} → Error → Action S A
  raise e s = (err e, s)

  abbrev pub gets : {A : Type 0} → (S → A) → Action S A
  gets f s = (ok (f s), s)

  abbrev pub modify : (S → S) → Action S (Unit {0})
  modify f s = (ok tt, f s)

  abbrev pub raise_if : Bool → Error → Action S (Unit {0})
  raise_if true e s = (err e, s)
  raise_if false e s = (ok tt, s)

  abbrev pub or_raise : {A : Type 0} → Option A → Error → Action S A
  or_raise none e s = (err e, s)
  or_raise (some a) e s = (ok a, s)

  -- A check that takes no store.
  abbrev pub lift : {A : Type 0} → Result A → Action S A
  lift r s = (r, s)

  -- BEGIN IMMEDIATE, then COMMIT, or ROLLBACK where the body raises.
  abbrev pub transaction : {A : Type 0} → Action S A → Action S A
  transaction m s = let (r, s') = m s in elim r [ ok a ↦ (ok a, s') | err e ↦ (err e, s) ]

  -- A transaction depends on what its body does here.
  pub transaction_same :
      {A : Type 0} (m n : Action S A) (s : S) → m s ≡ n s → transaction m s ≡ transaction n s
  transaction_same m n s h = ap (λ p. elim p.0 [ ok a ↦ (ok a, p.1) | err e ↦ (err e, s) ]) h

pub ok_is_no_err : {A : Type 0} {r : Result A} {a : A} {e : Error} → r ≡ ok a → r ≡ err e → ⊥
ok_is_no_err {r = r} h k = ground arith
