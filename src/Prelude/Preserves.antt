-- ===== src/Prelude/Preserves.antt =====
-- A method over a store that keeps a predicate of the store, whether it returns or raises.
use mathlib.Core.Bool.{Bool, true, false}
use mathlib.Core.Logic.{inl, inr}
use mathlib.Core.Path.{◌≡◌}
use trade_bot.Prelude.Tests.{if◌then◌else◌}
use trade_bot.Prelude.Action.{Action, ◌>>=◌, Given-cases}

abbrev pub Preserves : {S A : Type 0} → (S → Type 0) → Action S A → Type 0
Preserves {S} P m = (s : S) → P s → P (m s).1

module _ {S : Type 0} (P : S → Type 0) where
  pub bind-Preserves :
      {A B : Type 0} (m : Action S A) (f : A → Action S B)
      → Preserves P m
      → ((a : A) → Preserves P (f a))
      → Preserves P (m >>= f)
  bind-Preserves m f first later s h = elim (Given-cases (m s).0) [
    | inl (a, done) ↦ rw (◌>>=◌, done) (later a (m s).1 (first s h))
    | inr (e, failed) ↦ rw (◌>>=◌, failed) (first s h)
  ]

  pub if-Preserves :
      {A : Type 0} (b : Bool) (m n : Action S A)
      → Preserves P m
      → Preserves P n
      → Preserves P (if b then m else n)
  if-Preserves true m n h k = h
  if-Preserves false m n h k = k

  -- A method that writes nothing.
  pub read-Preserves : {A : Type 0} (m : Action S A) → ((s : S) → (m s).1 ≡ s) → Preserves P m
  read-Preserves m same s h = rw (same s) h
