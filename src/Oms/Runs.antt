-- ===== src/Oms/Runs.antt =====
-- Sequences of steps of the tables of app/oms/store.py, and the methods that only make steps.
use trade_bot.Prelude.{Bool, true, false, some, String, ◌≡◌, inl, inr, if◌then◌else◌}
use trade_bot.Prelude.Action.{Action, ◌>>=◌, Given-cases}
use trade_bot.Oms.Tables.{Oms, OrderRow, find_order}
use trade_bot.Oms.Steps.{Step}
use trade_bot.Oms.Soundness.{IsSound, Step-IsSound}
use trade_bot.Oms.Evolution.{Later, Step-Later, Evolves-refl, Evolves-trans}

pub data Steps : Oms → Oms → Type 0 where
  stop : {s : Oms} → Steps s s
  go : {s t u : Oms} → Step s t → Steps t u → Steps s u

pub Steps-of : {s s' : Oms} → s' ≡ s → Steps s s'
Steps-of {s} e = rw e (stop {s = s})

Steps-trans : {s t u : Oms} → Steps s t → Steps t u → Steps s u
Steps-trans stop more = more
Steps-trans (go step rest) more = go step (Steps-trans rest more)

pub Steps-IsSound : {s s' : Oms} → Steps s s' → IsSound s → IsSound s'
Steps-IsSound stop h = h
Steps-IsSound (go step rest) h = Steps-IsSound rest (Step-IsSound step h)

pub Steps-Later :
    (i : String) (r : OrderRow) {s s' : Oms}
    → Steps s s'
    → find_order i s.orders ≡ some r
    → Later i r s'
Steps-Later i r stop h = (r, h, Evolves-refl r.order)
Steps-Later i r (go step rest) h =
    let (q, found, first) = Step-Later i r step h in
    let (q', found', then_) = Steps-Later i q rest found in
    (q', found', Evolves-trans r.order q.order q'.order first then_)

-- The method only makes steps, whether it returns or raises.
abbrev pub IsRun : {A : Type 0} → Action Oms A → Type 0
IsRun m = (s : Oms) → Steps s (m s).1

pub Step-IsRun : {A : Type 0} (m : Action Oms A) → ((s : Oms) → Step s (m s).1) → IsRun m
Step-IsRun m step s = go (step s) stop

pub bind-IsRun :
    {A B : Type 0} (m : Action Oms A) (f : A → Action Oms B)
    → IsRun m
    → ((a : A) → IsRun (f a))
    → IsRun (m >>= f)
bind-IsRun m f first later s = elim (Given-cases (m s).0) [
  | inl (a, done) ↦ rw (◌>>=◌, done) (Steps-trans (first s) (later a (m s).1))
  | inr (e, failed) ↦ rw (◌>>=◌, failed) (first s)
]

pub if-IsRun :
    {A : Type 0} (b : Bool) (m n : Action Oms A) → IsRun m → IsRun n → IsRun (if b then m else n)
if-IsRun true m n h k = h
if-IsRun false m n h k = k

-- A method that writes nothing.
pub read-IsRun : {A : Type 0} (m : Action Oms A) → ((s : Oms) → (m s).1 ≡ s) → IsRun m
read-IsRun m same s = Steps-of (same s)
