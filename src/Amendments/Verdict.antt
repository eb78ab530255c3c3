-- ===== src/Amendments/Verdict.antt =====
-- app/execution/order_mutation_executor.py: `_resolve_truth` against a table of what each report of
-- the broker makes of a mutation.
use trade_bot.Prelude.{
  ℕ, Bool, true, false, not, ◌&&◌, ◌||◌, Option, none, some, String, str_eq, if◌then◌else◌, ◌≡◌,
  refl, arith, inl, inr,
}
use trade_bot.Prelude.Decimal.{Decimal, dec_eq}
use trade_bot.Prelude.Clock.{aware}
use trade_bot.Prelude.Action.{Action, ok, Error, ◌>>=◌, pure, raise, Given-cases}
use trade_bot.Domain.{Side, buy, sell}
use trade_bot.Oms.Events.{side_value}
use trade_bot.Oms.Tables.{OrderRecord}
use trade_bot.Mutations.Tables.{
  MutationState, cancel, kind_eq, succeeded, failed, uncertain, mutation_eq, Mutation,
}
use trade_bot.Mutations.Store.{set_state, mark_succeeded}
use trade_bot.Execution.Broker.{
  BrokerOrder, BrokerOrderStatus, cancelled, rejected, filled, OrderSide, bid, ask,
  order_side_value, is_filled, is_cancelled, is_rejected,
}
use trade_bot.Amendments.World.{Setting, Desk, on_mutations}
use trade_bot.Amendments.Truth.{
  MutationExecutionResult, outcome_of, confirms_replace, mark_uncertain_if_needed, give_up,
  fail_mutation,
}
use trade_bot.Amendments.Evidence.{set_state_state}

abbrev is_uncertain : MutationState → Bool
is_uncertain uncertain = true
is_uncertain _ = false

abbrev pub is_failed : MutationState → Bool
is_failed failed = true
is_failed _ = false

abbrev is_succeeded : MutationState → Bool
is_succeeded succeeded = true
is_succeeded _ = false

-- What becomes of a cancel, by whether the id is still its own and by the status.
abbrev cancel_becomes : Bool → BrokerOrderStatus → MutationState → Bool
cancel_becomes false status s = is_uncertain s
cancel_becomes true cancelled s = is_succeeded s || is_failed s
cancel_becomes true filled s = is_failed s
cancel_becomes true rejected s = is_failed s
cancel_becomes true _ s = is_uncertain s

-- What becomes of a replace, by whether the price is the target and by the status.
abbrev replace_becomes : Bool → BrokerOrderStatus → MutationState → Bool
replace_becomes at_target cancelled s = is_failed s
replace_becomes at_target rejected s = is_failed s
replace_becomes true _ s = is_succeeded s
replace_becomes false filled s = is_failed s
replace_becomes false _ s = is_uncertain s

abbrev pub at_target : Option Decimal → BrokerOrder → Bool
at_target none o = false
at_target (some target) o = dec_eq o.limit_price target

abbrev pub becomes : Mutation → BrokerOrder → MutationState → Bool
becomes m o s =
    if kind_eq m.kind cancel
    then cancel_becomes (str_eq o.broker_order_id m.broker_order_id) o.status s
    else replace_becomes (at_target m.target_limit_price o) o.status s

abbrev side_is : Side → OrderSide → Bool
side_is buy bid = true
side_is sell ask = true
side_is _ _ = false

-- The report is of the order.
abbrev pub reports_on : OrderRecord → BrokerOrder → Bool
reports_on r o =
    str_eq o.client_order_id r.client_order_id
    && str_eq o.instrument r.symbol
    && side_is r.side o.side
    && dec_eq o.quantity r.quantity

pub side_is-order_side_value :
    (s : Side) (b : OrderSide)
    → str_eq (order_side_value b) (side_value s) ≡ true
    → side_is s b ≡ true
side_is-order_side_value buy bid h = refl
side_is-order_side_value buy ask h = absurd (cc)
side_is-order_side_value sell bid h = absurd (cc)
side_is-order_side_value sell ask h = refl

-- Neither an id of its own is lost by a cancel, nor the target of a replace confirmed.
abbrev pub is_undecided : Mutation → BrokerOrder → Bool
is_undecided m o =
    if kind_eq m.kind cancel
    then str_eq o.broker_order_id m.broker_order_id
    else not (at_target m.target_limit_price o && confirms_replace o.status)

mutation_eq-path : (s t : MutationState) → mutation_eq s t ≡ true → s ≡ t
mutation_eq-path s t h = ground arith

module _ (m : Mutation) (o : BrokerOrder) (undecided : is_undecided m o ≡ true) where
  pub filled_fails : is_filled o.status ≡ true → becomes m o failed ≡ true
  filled_fails h = ground arith

  pub cancelled_fails : is_cancelled o.status ≡ true → becomes m o failed ≡ true
  cancelled_fails h = ground arith

  pub rejected_fails : is_rejected o.status ≡ true → becomes m o failed ≡ true
  rejected_fails h = ground arith

  pub cancelled_succeeds :
      is_cancelled o.status ≡ true → kind_eq m.kind cancel ≡ true → becomes m o succeeded ≡ true
  cancelled_succeeds h kind = ground arith

  pub others_uncertain :
      is_filled o.status ≡ false
      → is_cancelled o.status ≡ false
      → is_rejected o.status ≡ false
      → becomes m o uncertain ≡ true
  others_uncertain h k l = ground arith

-- The mutation that the method returns is in a state that will do.
pub record Returns {E : Type 0} (P : MutationState → Bool) (m : Action (Desk E) Mutation)
    : Type 0 where
  pub at : (w : Desk E) (x : Mutation) → (m w).0 ≡ ok x → P x.state ≡ true

-- The same of a method that returns a result.
pub record Resolves {E : Type 0} (P : MutationState → Bool)
    (m : Action (Desk E) MutationExecutionResult) : Type 0 where
  pub at : (w : Desk E) (x : MutationExecutionResult) → (m w).0 ≡ ok x → P x.mutation.state ≡ true

module _ {E : Type 0} (P : MutationState → Bool) where
  pub set_state-Returns :
      (i : String) (target : MutationState) (o : String) (t : ℕ) (b : Option String)
      → P target ≡ true
      → Returns {E = E} P (on_mutations (set_state i target o (aware t) b))
  set_state-Returns i target o t b good = record {
    at = λ w x h.
        let s = record (w.mutations) { orders = w.oms.orders } in
        rw (mutation_eq-path x.state target (set_state_state i target o t b s x h)) good;
  }

  later-Returns :
      {A : Type 0} (m : Action (Desk E) A) (f : A → Action (Desk E) Mutation)
      → ((a : A) → Returns P (f a))
      → Returns P (m >>= f)
  later-Returns m f later = record {
    at = λ w x h. elim (Given-cases (m w).0) [
      | inl (a, done) ↦ (later a).at (m w).1 x (rw (◌>>=◌, done) at h)
      | inr (e, failed_) ↦ absurd (cc (rw (◌>>=◌, failed_) at h))
    ];
  }

  choose-Returns :
      (b : Bool) (m n : Action (Desk E) Mutation)
      → (b ≡ true → Returns P m)
      → Returns P n
      → Returns P (if b then m else n)
  choose-Returns true m n h k = h refl
  choose-Returns false m n h k = k

  current-Returns :
      (m : Mutation) (o : String)
      → P uncertain ≡ true
      → (mutation_eq m.state uncertain && str_eq m.outcome o) ≡ true
      → Returns {E = E} P (pure m)
  current-Returns m o good h = record {
    at = λ w x done.
        let same : x.state ≡ uncertain = mutation_eq-path x.state uncertain (ground arith) in
        rw same good;
  }

  pub later-Resolves :
      {A : Type 0} (m : Action (Desk E) A) (f : A → Action (Desk E) MutationExecutionResult)
      → ((a : A) → Resolves P (f a))
      → Resolves P (m >>= f)
  later-Resolves m f later = record {
    at = λ w x h. elim (Given-cases (m w).0) [
      | inl (a, done) ↦ (later a).at (m w).1 x (rw (◌>>=◌, done) at h)
      | inr (e, failed_) ↦ absurd (cc (rw (◌>>=◌, failed_) at h))
    ];
  }

  pub choose-Resolves :
      (b : Bool) (m n : Action (Desk E) MutationExecutionResult)
      → (b ≡ true → Resolves P m)
      → (b ≡ false → Resolves P n)
      → Resolves P (if b then m else n)
  choose-Resolves true m n h k = h refl
  choose-Resolves false m n h k = k refl

  pub raise-Resolves : (e : Error) → Resolves {E = E} P (raise e)
  raise-Resolves e = record { at = λ w x h. absurd (cc) }

  -- What follows a mutation that will do.
  pub with-Resolves :
      (m : Action (Desk E) Mutation) (f : Mutation → Action (Desk E) MutationExecutionResult)
      → Returns P m
      → ((n : Mutation) → P n.state ≡ true → Resolves P (f n))
      → Resolves P (m >>= f)
  with-Resolves m f good later = record {
    at = λ w x h. elim (Given-cases (m w).0) [
      | inl (n, done) ↦ (later n (good.at w n done)).at (m w).1 x (rw (◌>>=◌, done) at h)
      | inr (e, failed_) ↦ absurd (cc (rw (◌>>=◌, failed_) at h))
    ];
  }

  pub pure-Resolves :
      (r : OrderRecord) (n : Mutation) (attempted recovered : Bool)
      → P n.state ≡ true
      → Resolves {E = E} P (pure (outcome_of r n attempted recovered))
  pure-Resolves r n attempted recovered good = record { at = λ w x h. ground arith }

module _ {E : Type 0} (setting : Setting E) (P : MutationState → Bool) where
  mark_uncertain-Returns :
      (i o : String) (t : ℕ)
      → P uncertain ≡ true
      → Returns P (mark_uncertain_if_needed setting i o t)
  unfolding mark_uncertain_if_needed
  mark_uncertain-Returns i o t good =
      search (later-Returns, choose-Returns, current-Returns, set_state-Returns)

  pub give_up-Resolves :
      (m : Mutation) (r : OrderRecord) (o : String) (t : ℕ)
      → P uncertain ≡ true
      → Resolves P (give_up setting m r o t)
  unfolding give_up
  give_up-Resolves m r o t good = search (with-Resolves, pure-Resolves, mark_uncertain-Returns)

  pub fail_mutation-Resolves :
      (m : Mutation) (r : OrderRecord) (o : String) (t : ℕ) (ambiguous : Bool)
      → P failed ≡ true
      → Resolves P (fail_mutation setting m r o t ambiguous)
  unfolding fail_mutation
  fail_mutation-Resolves m r o t ambiguous good =
      search (with-Resolves, pure-Resolves, set_state-Returns)

  pub succeed-Resolves :
      (m : Mutation) (r : OrderRecord) (o : String) (t : ℕ) (b : Option String) (ambiguous : Bool)
      → P succeeded ≡ true
      → Resolves {E = E} P (
          on_mutations (mark_succeeded m.mutation_id o (aware t) b) >>= λ marked.
          pure (outcome_of r marked false ambiguous))
  succeed-Resolves m r o t b ambiguous good =
      search (with-Resolves, pure-Resolves, set_state-Returns)
