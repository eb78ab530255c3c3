-- ===== src/Execution/Blockers.antt =====
-- What app/execution/trade_fills.py leaves behind where a projection fails, and where it succeeds.
use trade_bot.Prelude.{
  ℕ, Bool, true, false, Option, none, some, String, if◌then◌else◌, ◌≡◌, refl, ◌∙◌, arith, inl, inr,
}
use trade_bot.Prelude.Clock.{Datetime, aware, naive}
use trade_bot.Prelude.Action.{
  Action, Result, ok, err, Error, ◌>>=◌, pure, raise, gets, raise_if, or_raise, lift, Given-cases,
}
use trade_bot.Domain.{Fill}
use trade_bot.Oms.Tables.{Oms, OrderRecord}
use trade_bot.Portfolio.Ledger.{Ledger}
use trade_bot.Portfolio.Journal.{Journal}
use trade_bot.Execution.Checkpoints.{CheckpointDb}
use trade_bot.Execution.Facts.{ExecutionFact, FactDb, mark_projected}
use trade_bot.Execution.Accounting.{
  Accounting, Books, FillAccountingResult, on_oms, on_portfolio, on_facts, on_ledger,
  on_checkpoints, admit, advance_order, check_candidate, book_fill, book_fact, project_fact,
}

-- The method leaves the inbox of facts alone, whether it returns or raises.
pub record Spares {A : Type 0} (m : Action Books A) : Type 0 where
  pub same : (b : Books) → (m b).1.facts ≡ b.facts

bind-Spares :
    {A B : Type 0} (m : Action Books A) (f : A → Action Books B)
    → Spares m
    → ((a : A) → Spares (f a))
    → Spares (m >>= f)
bind-Spares m f first later = record {
  same = λ b. elim (Given-cases (m b).0) [
    | inl (a, done) ↦ rw (◌>>=◌, done) ((later a).same (m b).1 ∙ first.same b)
    | inr (e, failed) ↦ rw (◌>>=◌, failed) (first.same b)
  ];
}

if-Spares :
    {A : Type 0} (b : Bool) (m n : Action Books A)
    → Spares m
    → Spares n
    → Spares (if b then m else n)
if-Spares true m n h k = h
if-Spares false m n h k = k

pure-Spares : {A : Type 0} (x : A) → Spares (pure x)
pure-Spares x = record { same = λ b. refl }

raise-Spares : {A : Type 0} (e : Error) → Spares {A = A} (raise e)
raise-Spares e = record { same = λ b. refl }

lift-Spares : {A : Type 0} (r : Result A) → Spares (lift r)
lift-Spares r = record { same = λ b. refl }

gets-Spares : {A : Type 0} (f : Books → A) → Spares (gets f)
gets-Spares f = record { same = λ b. refl }

raise_if-Spares : (c : Bool) (e : Error) → Spares (raise_if c e)
raise_if-Spares true e = raise-Spares e
raise_if-Spares false e = pure-Spares tt

or_raise-Spares : {A : Type 0} (o : Option A) (e : Error) → Spares (or_raise o e)
or_raise-Spares none e = raise-Spares e
or_raise-Spares (some a) e = pure-Spares a

oms-Spares : {A : Type 0} (m : Action Oms A) → Spares (on_oms m)
oms-Spares m = record { same = λ b. refl }

portfolio-Spares : {A : Type 0} (m : Action Journal A) → Spares (on_portfolio m)
portfolio-Spares m = record { same = λ b. refl }

ledger-Spares : (m : Action Ledger (Unit {0})) → Spares (on_ledger m)
unfolding on_ledger
ledger-Spares m = record { same = λ b. ground arith }

checkpoints-Spares : (m : Action CheckpointDb ℕ) → Spares (on_checkpoints m)
unfolding on_checkpoints
checkpoints-Spares m = record { same = λ b. ground arith }

ruleset spares_rules = (
  bind-Spares, if-Spares, pure-Spares, raise-Spares, lift-Spares, gets-Spares, raise_if-Spares,
  or_raise-Spares, oms-Spares, portfolio-Spares, ledger-Spares, checkpoints-Spares,
)

module _ (a : Accounting) where
  admit-Spares : (f : ExecutionFact) (r : OrderRecord) → Spares (admit a f r)
  unfolding admit
  admit-Spares f r = search (spares_rules)

  advance_order-Spares : (f : ExecutionFact) (r : OrderRecord) → Spares (advance_order a f r)
  unfolding advance_order
  advance_order-Spares f r = search (spares_rules)

  check_candidate-Spares : (fill : Fill) → Spares (check_candidate a fill)
  unfolding check_candidate
  check_candidate-Spares fill = search (spares_rules)

  book_fill-Spares :
      (f : ExecutionFact) (r q : OrderRecord) (fill : Fill) → Spares (book_fill a f r q fill)
  unfolding book_fill
  book_fill-Spares f r q fill = search (spares_rules)

  pub book_fact-Spares : (f : ExecutionFact) → Spares (book_fact a f)
  unfolding book_fact
  book_fact-Spares f =
      search
        (spares_rules, admit-Spares, advance_order-Spares, check_candidate-Spares, book_fill-Spares)
        depth 30

bind_raised :
    {A B : Type 0} (m : Action Books A) (f : A → Action Books B) (b : Books) (e : Error)
    → Spares m
    → ((x : A) (b' : Books) → (f x b').0 ≡ err e → (f x b').1.facts ≡ b'.facts)
    → ((m >>= f) b).0 ≡ err e
    → ((m >>= f) b).1.facts ≡ b.facts
bind_raised m f b e spares later h = elim (Given-cases (m b).0) [
  | inr (x, failed) ↦ rw (◌>>=◌, failed) (spares.same b)
  | inl (x, done) ↦ rw (◌>>=◌, done) (later x (m b).1 (rw (◌>>=◌, done) at h) ∙ spares.same b)
]

mark_projected-raised :
    (i : String) (t : Datetime) (s : FactDb) (e : Error)
    → (mark_projected i t s).0 ≡ err e
    → (mark_projected i t s).1 ≡ s
unfolding mark_projected
mark_projected-raised i (naive t) s e h = ground arith
mark_projected-raised i (aware t) s e h = ground arith

module _ (a : Accounting) (f : ExecutionFact) where
  abbrev pub mark_step : FillAccountingResult → Action Books FillAccountingResult
  mark_step result =
      on_facts (mark_projected f.execution_fact_id f.occurred_at) >>= λ _. pure result

  marked_returns :
      (result : FillAccountingResult) (b : Books) (x : Unit {0}) (e : Error)
      → (mark_projected f.execution_fact_id f.occurred_at b.facts).0 ≡ ok x
      → (mark_step result b).0 ≡ err e
      → ⊥
  marked_returns result b x e done h = cc (rw (◌>>=◌, done) at h)

  mark_step-raised :
      (result : FillAccountingResult) (b : Books) (e : Error)
      → (mark_step result b).0 ≡ err e
      → (mark_step result b).1.facts ≡ b.facts
  mark_step-raised result b e h =
      elim (Given-cases (mark_projected f.execution_fact_id f.occurred_at b.facts).0) [
        | inl (x, done) ↦ absurd (marked_returns result b x e done h)
        | inr (x, failed) ↦
            rw (◌>>=◌, failed)
              (mark_projected-raised f.execution_fact_id f.occurred_at b.facts x failed)
      ]

  -- Where the projection of a fact raises, wherever that happens, the inbox of facts is as it was: a
  -- fact that was unresolved still holds the buys back.
  pub failed_fact_kept :
      (b : Books) (e : Error)
      → (project_fact a f b).0 ≡ err e
      → (project_fact a f b).1.facts ≡ b.facts
  unfolding project_fact
  failed_fact_kept b e =
      bind_raised (book_fact a f) mark_step b e (book_fact-Spares a f)
        (λ result b'. mark_step-raised result b' e)
