-- ===== src/Amendments/Quiet.antt =====
-- Methods of app/execution/order_mutation_executor.py that call no change at the broker, and leave no
-- mutation more to claim than there was, and only make steps of the order store; they are put together
-- by rules.
use trade_bot.Prelude.{
  ℕ, ◌≤◌, Bool, true, false, Option, none, some, String, if◌then◌else◌, ◌≡◌, refl, arith, ◌∙◌, inl,
  inr,
}
use trade_bot.Prelude.Clock.{aware}
use trade_bot.Prelude.Action.{
  Action, Result, Error, ◌>>=◌, pure, raise, gets, lift, raise_if, or_raise, Given-cases,
}
use trade_bot.Oms.Tables.{Oms}
use trade_bot.Mutations.Tables.{MutationState, Db}
use trade_bot.Mutations.Store.{set_state, mark_outbox_published}
use trade_bot.Mutations.Steps.{TableStep, settle-TableStep, published-TableStep}
use trade_bot.Mutations.Claims.{open_claims, step_closes}
use trade_bot.Indexed.Lineage.{Succession}
use trade_bot.Amendments.World.{Market, Desk, on_orders, on_mutations, look_up}
use trade_bot.Prelude.Decimal.{Decimal}
use trade_bot.Prelude.Json.{Json}
use trade_bot.Oms.State.{OrderState}
use trade_bot.Oms.Orders.{transition}
use trade_bot.Oms.Fills.{apply_cumulative_fill}
use trade_bot.Oms.Steps.{transition-Step, fill-Step}
use trade_bot.Oms.Runs.{Steps, stop, IsRun, Step-IsRun}
use trade_bot.Execution.Works.{Steps-join}

-- The method that writes the lineage leaves the table of mutations alone.
abbrev pub KeepsMutations : Option (Succession → Action Db (Unit {0})) → Type 0
KeepsMutations none = Unit
KeepsMutations (some method) = (p : Succession) (s : Db) → (method p s).1.mutations ≡ s.mutations

-- No change is called at the broker, no mutation has more to claim than before, and the order store
-- only makes steps.
pub record Quiet {E A : Type 0} (m : Action (Desk E) A) : Type 0 where
  pub closes :
      (i : String) (w : Desk E) → open_claims i (m w).1.mutations ≤ open_claims i w.mutations
  pub calls : (w : Desk E) → (m w).1.amendments ≡ w.amendments
  pub steps : (w : Desk E) → Steps w.oms (m w).1.oms

module _ {E : Type 0} where
  pub bind-Quiet :
      {A B : Type 0} (m : Action (Desk E) A) (f : A → Action (Desk E) B)
      → Quiet m
      → ((a : A) → Quiet (f a))
      → Quiet (m >>= f)
  bind-Quiet m f first later = record {
    closes = λ i w. elim (Given-cases (m w).0) [
      | inl (a, done) ↦
          rw (◌>>=◌, done) (omega (arith, first.closes i w, (later a).closes i (m w).1))
      | inr (e, failed_) ↦ rw (◌>>=◌, failed_) (first.closes i w)
    ];
    calls = λ w. elim (Given-cases (m w).0) [
      | inl (a, done) ↦ rw (◌>>=◌, done) ((later a).calls (m w).1 ∙ first.calls w)
      | inr (e, failed_) ↦ rw (◌>>=◌, failed_) (first.calls w)
    ];
    steps = λ w. elim (Given-cases (m w).0) [
      | inl (a, done) ↦ rw (◌>>=◌, done) (Steps-join (first.steps w) ((later a).steps (m w).1))
      | inr (e, failed_) ↦ rw (◌>>=◌, failed_) (first.steps w)
    ];
  }

  pub if-Quiet :
      {A : Type 0} (b : Bool) (m n : Action (Desk E) A)
      → Quiet m
      → Quiet n
      → Quiet (if b then m else n)
  if-Quiet true m n h k = h
  if-Quiet false m n h k = k

  -- A method that leaves the mutations and the calls alone.
  idle-Quiet :
      {A : Type 0} (m : Action (Desk E) A)
      → ((w : Desk E) → (m w).1.mutations ≡ w.mutations)
      → ((w : Desk E) → (m w).1.amendments ≡ w.amendments)
      → ((w : Desk E) → (m w).1.oms ≡ w.oms)
      → Quiet m
  idle-Quiet m kept calls same_orders = record {
    closes = λ i w. rw (kept w) (omega arith);
    calls = calls;
    steps = λ w. rw (same_orders w) stop;
  }

  orders-Quiet : {A : Type 0} (m : Action Oms A) → IsRun m → Quiet {E = E} (on_orders m)
  orders-Quiet m run = record {
    closes = λ i w. omega arith;
    calls = λ w. refl;
    steps = λ w. run w.oms;
  }

  pub transition-Quiet :
      (digest : Json → String) (i : String) (target : OrderState) (e : String) (t : ℕ)
      (b : Option String) (p : Option Json)
      → Quiet {E = E} (on_orders (transition digest i target e (aware t) b p))
  transition-Quiet digest i target e t b p =
      orders-Quiet (transition digest i target e (aware t) b p) (
        Step-IsRun (transition digest i target e (aware t) b p)
          (transition-Step digest i target e (aware t) b p))

  pub fill-Quiet :
      (digest : Json → String) (i e : String) (c : Decimal) (t : ℕ) (b : Option String)
      → Quiet {E = E} (on_orders (apply_cumulative_fill digest i e c (aware t) b))
  fill-Quiet digest i e c t b = orders-Quiet (apply_cumulative_fill digest i e c (aware t) b) (
      Step-IsRun (apply_cumulative_fill digest i e c (aware t) b)
        (fill-Step digest i e c (aware t) b))

  pub mutations-Quiet :
      {A : Type 0} (m : Action Db A)
      → ((s : Db) → TableStep s (m s).1)
      → Quiet {E = E} (on_mutations m)
  mutations-Quiet m steps = record {
    closes = λ i w. step_closes i (steps (record (w.mutations) { orders = w.oms.orders }));
    calls = λ w. refl;
    steps = λ w. stop;
  }

  pub settle-Quiet :
      (i : String) (target : MutationState) (o : String) (t : ℕ) (b : Option String)
      → Quiet {E = E} (on_mutations (set_state i target o (aware t) b))
  settle-Quiet i target o t b =
      mutations-Quiet (set_state i target o (aware t) b) (settle-TableStep i target o (aware t) b)

  pub published-Quiet : (n t : ℕ) → Quiet {E = E} (on_mutations (mark_outbox_published n (aware t)))
  published-Quiet n t =
      mutations-Quiet (mark_outbox_published n (aware t)) (published-TableStep n (aware t))

  pub pure-Quiet : {A : Type 0} (a : A) → Quiet {E = E} (pure a)
  pure-Quiet a = idle-Quiet (pure a) (λ w. refl) (λ w. refl) (λ w. refl)

  pub raise-Quiet : {A : Type 0} (e : Error) → Quiet {E = E} {A = A} (raise e)
  raise-Quiet e = idle-Quiet (raise e) (λ w. refl) (λ w. refl) (λ w. refl)

  pub lift-Quiet : {A : Type 0} (r : Result A) → Quiet {E = E} (lift r)
  lift-Quiet r = idle-Quiet (lift r) (λ w. refl) (λ w. refl) (λ w. refl)

  pub gets-Quiet : {A : Type 0} (f : Desk E → A) → Quiet (gets f)
  gets-Quiet f = idle-Quiet (gets f) (λ w. refl) (λ w. refl) (λ w. refl)

  pub raise_if-Quiet : (b : Bool) (e : Error) → Quiet {E = E} (raise_if b e)
  raise_if-Quiet true e = raise-Quiet e
  raise_if-Quiet false e = pure-Quiet tt

  pub or_raise-Quiet : {A : Type 0} (o : Option A) (e : Error) → Quiet {E = E} (or_raise o e)
  or_raise-Quiet none e = raise-Quiet e
  or_raise-Quiet (some a) e = pure-Quiet a

  pub look_up-Quiet : (market : Market E) (client : String) → Quiet (look_up market client)
  unfolding look_up
  look_up-Quiet market client =
      idle-Quiet (look_up market client) (λ w. refl) (λ w. refl) (λ w. refl)

pub ruleset quiet_rules = (
  bind-Quiet, if-Quiet, transition-Quiet, fill-Quiet, settle-Quiet, published-Quiet, pure-Quiet,
  raise-Quiet, lift-Quiet, gets-Quiet, raise_if-Quiet, or_raise-Quiet, look_up-Quiet,
)
