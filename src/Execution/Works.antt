-- ===== src/Execution/Works.antt =====
-- The parts of app/execution/paper_executor.py that submit nothing: they only make steps of the
-- order store.
use trade_bot.Prelude.{
  Bool, true, false, Option, none, some, if◌then◌else◌, ◌≡◌, refl, arith, ◌∙◌, inl, inr,
}
use trade_bot.Prelude.Action.{
  Action, Result, Error, ◌>>=◌, pure, raise, gets, lift, raise_if, or_raise, Given-cases,
}
use trade_bot.Oms.Tables.{Oms}
use trade_bot.Oms.Runs.{Steps, stop, go, IsRun}
use trade_bot.Execution.World.{World, attempt, on_oms, on_checkpoints}
use trade_bot.Execution.Checkpoints.{CheckpointDb}

pub Steps-join : {s t u : Oms} → Steps s t → Steps t u → Steps s u
Steps-join stop more = more
Steps-join (go step rest) more = go step (Steps-join rest more)

-- The store only makes steps, and nothing is submitted, whether the method returns or raises.
pub record Works {E A : Type 0} (m : Action (World E) A) : Type 0 where
  pub steps : (w : World E) → Steps w.oms (m w).1.oms
  pub quiet : (w : World E) → (m w).1.posts ≡ w.posts

module _ {E : Type 0} where
  bind-Steps :
      {A B : Type 0} (m : Action (World E) A) (f : A → Action (World E) B)
      → Works m
      → ((a : A) → Works (f a))
      → (w : World E) → Steps w.oms ((m >>= f) w).1.oms
  bind-Steps m f first later w = elim (Given-cases (m w).0) [
    | inl (a, done) ↦ rw (◌>>=◌, done) (Steps-join (first.steps w) ((later a).steps (m w).1))
    | inr (e, failed) ↦ rw (◌>>=◌, failed) (first.steps w)
  ]

  bind-quiet :
      {A B : Type 0} (m : Action (World E) A) (f : A → Action (World E) B)
      → Works m
      → ((a : A) → Works (f a))
      → (w : World E) → ((m >>= f) w).1.posts ≡ w.posts
  bind-quiet m f first later w = elim (Given-cases (m w).0) [
    | inl (a, done) ↦ rw (◌>>=◌, done) ((later a).quiet (m w).1 ∙ first.quiet w)
    | inr (e, failed) ↦ rw (◌>>=◌, failed) (first.quiet w)
  ]

  pub bind-Works :
      {A B : Type 0} (m : Action (World E) A) (f : A → Action (World E) B)
      → Works m
      → ((a : A) → Works (f a))
      → Works (m >>= f)
  bind-Works m f first later = record {
    steps = bind-Steps m f first later;
    quiet = bind-quiet m f first later;
  }

  pub if-Works :
      {A : Type 0} (b : Bool) (m n : Action (World E) A)
      → Works m
      → Works n
      → Works (if b then m else n)
  if-Works true m n h k = h
  if-Works false m n h k = k

  pub oms-Works : {A : Type 0} (m : Action Oms A) → IsRun m → Works {E = E} (on_oms m)
  oms-Works m run = record { steps = λ w. run w.oms; quiet = λ w. refl }

  -- A method that leaves the store and the submissions alone.
  pub idle-Works :
      {A : Type 0} (m : Action (World E) A)
      → ((w : World E) → (m w).1.oms ≡ w.oms)
      → ((w : World E) → (m w).1.posts ≡ w.posts)
      → Works m
  idle-Works m same quiet = record { steps = λ w. rw (same w) stop; quiet = quiet }

  pub attempt-Works : {A : Type 0} (m : Action (World E) A) → Works m → Works (attempt m)
  attempt-Works m h = record { steps = h.steps; quiet = h.quiet }

  pub checkpoints-Works :
      {A : Type 0} (m : Action CheckpointDb A) → Works {E = E} (on_checkpoints m)
  checkpoints-Works m = idle-Works (on_checkpoints m) (λ w. ground arith) (λ w. ground arith)

  pub pure-Works : {A : Type 0} (a : A) → Works {E = E} (pure a)
  pure-Works a = record { steps = λ w. stop; quiet = λ w. refl }

  pub raise-Works : {A : Type 0} (e : Error) → Works {E = E} {A = A} (raise e)
  raise-Works e = record { steps = λ w. stop; quiet = λ w. refl }

  pub lift-Works : {A : Type 0} (r : Result A) → Works {E = E} (lift r)
  lift-Works r = record { steps = λ w. stop; quiet = λ w. refl }

  pub gets-Works : {A : Type 0} (f : World E → A) → Works (gets f)
  gets-Works f = record { steps = λ w. stop; quiet = λ w. refl }

  pub raise_if-Works : (b : Bool) (e : Error) → Works {E = E} (raise_if b e)
  raise_if-Works true e = raise-Works e
  raise_if-Works false e = pure-Works tt

  pub or_raise-Works : {A : Type 0} (o : Option A) (e : Error) → Works {E = E} (or_raise o e)
  or_raise-Works none e = raise-Works e
  or_raise-Works (some a) e = pure-Works a

pub ruleset works_rules = (
  bind-Works, if-Works, attempt-Works, checkpoints-Works, pure-Works, raise-Works, lift-Works,
  gets-Works, raise_if-Works, or_raise-Works,
)
