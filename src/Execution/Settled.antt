-- ===== src/Execution/Settled.antt =====
-- What app/execution/trade_fills.py has done where a projection returns: the portfolio's journal holds
-- the fill, and the fact is PROJECTED.
use trade_bot.Prelude.{
  Option, some, sym, if◌then◌else◌, ℕ, Bool, true, false, none, strip, ◌≡◌, refl, ◌∙◌, arith, inl,
  inr,
}
use mathlib.Core.Path.{subst}
use trade_bot.Prelude.Decimal.{dec_lt}
use trade_bot.Prelude.Action.{
  Action, Result, ok, err, Error, ◌>>=◌, ◌>>◌, pure, raise, gets, raise_if, or_raise, lift,
  Given-cases, Result-cases,
}
use trade_bot.Domain.{Fill, validate_fill}
use trade_bot.Oms.Tables.{Oms, OrderRecord}
use trade_bot.Portfolio.Ledger.{Ledger, apply_fill}
use trade_bot.Portfolio.Journal.{append_fill}
use trade_bot.Execution.Checkpoints.{CheckpointDb, resolve_through}
use trade_bot.Execution.Facts.{
  ExecutionFact, FactDb, projected, mark_projected, holds_projection, projection_id, to_fill,
  fill_of_fact,
}
use trade_bot.Execution.Journaled.{TakesFill, HasFill, TakesFill-HasFill}
use trade_bot.Execution.Projected.{IsProjected, mark_projected-IsProjected}
use trade_bot.Execution.Accounting.{
  Accounting, Books, FillAccountingResult, on_portfolio, on_facts, on_ledger, on_checkpoints,
  on_oms, admit, advance_order, check_candidate, book_fill, book_fact, project_fact,
}
use trade_bot.Execution.Blockers.{book_fact-Spares, mark_step}

-- Where the method returns over a journal that takes the fill, the journal has it.
record Ends (a : Accounting) (f : ExecutionFact) {A : Type 0} (m : Action Books A) : Type 0 where
  at :
      (b : Books) (x : A)
      → TakesFill a f b.portfolio
      → (m b).0 ≡ ok x
      → HasFill f f.occurred_at (m b).1.portfolio

-- The method leaves the journal alone.
record Leaves {A : Type 0} (m : Action Books A) : Type 0 where
  at : (b : Books) → (m b).1.portfolio ≡ b.portfolio

bind-Leaves :
    {A B : Type 0} (m : Action Books A) (f : A → Action Books B)
    → Leaves m
    → ((a : A) → Leaves (f a))
    → Leaves (m >>= f)
bind-Leaves m f first later = record {
  at = λ b. elim (Given-cases (m b).0) [
    | inl (a, done) ↦ rw (◌>>=◌, done) ((later a).at (m b).1 ∙ first.at b)
    | inr (e, failed) ↦ rw (◌>>=◌, failed) (first.at b)
  ];
}

pure-Leaves : {A : Type 0} (x : A) → Leaves (pure x)
pure-Leaves x = record { at = λ b. refl }

facts-Leaves : {A : Type 0} (m : Action FactDb A) → Leaves (on_facts m)
facts-Leaves m = record { at = λ b. refl }

ledger-Leaves : (m : Action Ledger (Unit {0})) → Leaves (on_ledger m)
unfolding on_ledger
ledger-Leaves m = record { at = λ b. ground arith }

checkpoints-Leaves : (m : Action CheckpointDb ℕ) → Leaves (on_checkpoints m)
unfolding on_checkpoints
checkpoints-Leaves m = record { at = λ b. ground arith }

if-Leaves :
    {A : Type 0} (c : Bool) (m n : Action Books A)
    → Leaves m
    → Leaves n
    → Leaves (if c then m else n)
if-Leaves true m n h k = h
if-Leaves false m n h k = k

raise-Leaves : {A : Type 0} (e : Error) → Leaves {A = A} (raise e)
raise-Leaves e = record { at = λ b. refl }

lift-Leaves : {A : Type 0} (r : Result A) → Leaves (lift r)
lift-Leaves r = record { at = λ b. refl }

gets-Leaves : {A : Type 0} (f : Books → A) → Leaves (gets f)
gets-Leaves f = record { at = λ b. refl }

raise_if-Leaves : (c : Bool) (e : Error) → Leaves (raise_if c e)
raise_if-Leaves true e = raise-Leaves e
raise_if-Leaves false e = pure-Leaves tt

or_raise-Leaves : {A : Type 0} (o : Option A) (e : Error) → Leaves (or_raise o e)
or_raise-Leaves none e = raise-Leaves e
or_raise-Leaves (some x) e = pure-Leaves x

oms-Leaves : {A : Type 0} (m : Action Oms A) → Leaves (on_oms m)
oms-Leaves m = record { at = λ b. refl }

ruleset leaves_rules = (
  bind-Leaves, pure-Leaves, facts-Leaves, ledger-Leaves, checkpoints-Leaves, if-Leaves,
  raise-Leaves, lift-Leaves, gets-Leaves, raise_if-Leaves, or_raise-Leaves, oms-Leaves,
)

module _ (a : Accounting) (f : ExecutionFact) where
  admit-Leaves : (r : OrderRecord) → Leaves (admit a f r)
  unfolding admit
  admit-Leaves r = search (leaves_rules)

  advance_order-Leaves : (r : OrderRecord) → Leaves (advance_order a f r)
  unfolding advance_order
  advance_order-Leaves r = search (leaves_rules)

  check_candidate-Leaves : (fill : Fill) → Leaves (check_candidate a fill)
  unfolding check_candidate
  check_candidate-Leaves fill = search (leaves_rules)

module _ (a : Accounting) (f : ExecutionFact) where
  later-Ends :
      {A B : Type 0} (m : Action Books A) (k : A → Action Books B)
      → Leaves m
      → ((x : A) → Ends a f (k x))
      → Ends a f (m >>= k)
  later-Ends m k first later = record {
    at = λ b y takes h. elim (Given-cases (m b).0) [
      | inl (x, done) ↦
          rw (◌>>=◌, done) ((later x).at (m b).1 y (rw (first.at b) takes) (rw (◌>>=◌, done) at h))
      | inr (e, failed) ↦ absurd (cc (rw (◌>>=◌, failed) at h))
    ];
  }

  lift-Ends :
      {A B : Type 0} (r : Result A) (k : A → Action Books B)
      → ((x : A) → r ≡ ok x → Ends a f (k x))
      → Ends a f (lift r >>= k)
  lift-Ends (ok x) k later = record { at = (later x refl).at }
  lift-Ends (err e) k later = record { at = λ b y takes h. absurd (cc) }

  kept-Ends :
      {A B : Type 0} (m : Action Books A) (k : A → Action Books B)
      → Ends a f m
      → ((x : A) → Leaves (k x))
      → Ends a f (m >>= k)
  kept-Ends m k first later = record {
    at = λ b y takes h. elim (Given-cases (m b).0) [
      | inl (x, done) ↦ rw (◌>>=◌, done, (later x).at (m b).1) (first.at b x takes done)
      | inr (e, failed) ↦ absurd (cc (rw (◌>>=◌, failed) at h))
    ];
  }

-- What is left of `book_fill` after the journal.
abbrev after_append :
    Accounting
    → ExecutionFact
    → OrderRecord
    → OrderRecord
    → Fill
    → Bool
    → Action Books FillAccountingResult
after_append a f r q fill appended = do
  on_ledger (apply_fill fill)
  on_checkpoints (resolve_through f.intent_id f.cumulative_quantity f.occurred_at)
  pure (record {
    order = q;
    fill = fill;
    portfolio_event_appended = appended;
    oms_advanced = dec_lt r.filled_quantity f.cumulative_quantity;
  })

to_fill-fill : (f : ExecutionFact) (fill : Fill) → to_fill f ≡ ok fill → fill ≡ fill_of_fact f
unfolding to_fill
to_fill-fill f fill h = ground arith

module _ (a : Accounting) (f : ExecutionFact) where
  append_fill-Ends : Ends a f (on_portfolio (append_fill a.portfolio_append (fill_of_fact f)))
  unfolding append_fill
  append_fill-Ends = record {
    at = λ b x takes h. elim (Result-cases (validate_fill (fill_of_fact f))) [
      | inr (e, bad) ↦ absurd (cc (rw bad at h))
      | inl fine ↦ rw fine (TakesFill-HasFill a f b.portfolio x takes (rw fine at h))
    ];
  }

  after_append-Leaves :
      (r q : OrderRecord) (fill : Fill) (appended : Bool)
      → Leaves (after_append a f r q fill appended)
  after_append-Leaves r q fill appended = search leaves_rules

  book_fill-Ends : (r q : OrderRecord) → Ends a f (book_fill a f r q (fill_of_fact f))
  unfolding book_fill
  book_fill-Ends r q =
      kept-Ends a f (on_portfolio (append_fill a.portfolio_append (fill_of_fact f)))
        (after_append a f r q (fill_of_fact f)) append_fill-Ends
        (after_append-Leaves r q (fill_of_fact f))

  made-Ends :
      (r q : OrderRecord) (fill : Fill)
      → to_fill f ≡ ok fill
      → Ends a f (check_candidate a fill >>= λ _. book_fill a f r q fill)
  made-Ends r q fill made =
      later-Ends a f (check_candidate a fill) (λ _. book_fill a f r q fill)
        (check_candidate-Leaves a f fill)
        (λ _.
          subst (λ x. Ends a f (book_fill a f r q x)) (sym (to_fill-fill f fill made))
            (book_fill-Ends r q))

  book_fact-Ends : Ends a f (book_fact a f)
  unfolding book_fact
  book_fact-Ends =
      search (leaves_rules, admit-Leaves, advance_order-Leaves, made-Ends, lift-Ends, later-Ends)
        depth 30

  mark_step-Leaves : (result : FillAccountingResult) → Leaves (mark_step a f result)
  mark_step-Leaves result = search leaves_rules

  project_fact-Ends : Ends a f (project_fact a f)
  unfolding project_fact
  project_fact-Ends = kept-Ends a f (book_fact a f) (mark_step a f) book_fact-Ends mark_step-Leaves

  marked :
      (result : FillAccountingResult) (b : Books) (r : FillAccountingResult)
      → (mark_step a f result b).0 ≡ ok r
      → holds_projection
          (projection_id (strip f.execution_fact_id) projected none)
          b.facts.projections
        ≡ false
      → IsProjected (strip f.execution_fact_id) (mark_step a f result b).1.facts
  marked result b r h new =
      elim (Given-cases (mark_projected f.execution_fact_id f.occurred_at b.facts).0) [
        | inl (x, done) ↦
            rw (◌>>=◌, done)
              (mark_projected-IsProjected f.execution_fact_id f.occurred_at b.facts new done)
        | inr (e, failed) ↦ absurd (cc (rw (◌>>=◌, failed) at h))
      ]

  projected_after :
      (b : Books) (r : FillAccountingResult)
      → (project_fact a f b).0 ≡ ok r
      → holds_projection
          (projection_id (strip f.execution_fact_id) projected none)
          b.facts.projections
        ≡ false
      → IsProjected (strip f.execution_fact_id) (project_fact a f b).1.facts
  unfolding project_fact
  projected_after b r h new = elim (Given-cases (book_fact a f b).0) [
    | inl (x, done) ↦
        rw (◌>>=◌, done)
          (marked x (book_fact a f b).1 r (rw (◌>>=◌, done) at h)
            (rw ((book_fact-Spares a f).same b) new))
    | inr (e, failed) ↦ absurd (cc (rw (◌>>=◌, failed) at h))
  ]

  -- Where the projection of a fact returns, over a portfolio store that is the strict one, or the
  -- plain one with an id that is new to its journal, and the event that marks the fact is new: under
  -- the id of the fact the portfolio's journal holds a fill with the order, symbol, side, quantity,
  -- price, fee and time of the fact, and the last state of the fact is PROJECTED.
  pub settled_fact :
      (b : Books) (r : FillAccountingResult)
      → TakesFill a f b.portfolio
      → (project_fact a f b).0 ≡ ok r
      → holds_projection
          (projection_id (strip f.execution_fact_id) projected none)
          b.facts.projections
        ≡ false
      → HasFill f f.occurred_at (project_fact a f b).1.portfolio
        × IsProjected (strip f.execution_fact_id) (project_fact a f b).1.facts
  settled_fact b r takes h new = (project_fact-Ends.at b r takes h, projected_after b r h new)
