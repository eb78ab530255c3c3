-- ===== src/Amendments/Evidence.antt =====
-- app/execution/order_mutation_executor.py: what the broker must have reported where a mutation is
-- resolved as SUCCEEDED.
use trade_bot.Prelude.{
  ℕ, Bool, true, false, ◌&&◌, Option, none, some, String, str_eq, if◌then◌else◌, ◌≡◌, refl, arith,
  inl, inr, Option-cases,
}
use trade_bot.Prelude.Decimal.{Decimal, dec_eq}
use trade_bot.Prelude.Clock.{aware}
use trade_bot.Prelude.Action.{Action, ok}
use trade_bot.Oms.Orders.{resolve_broker_id}
use trade_bot.Mutations.Tables.{
  MutationState, cancel, kind_eq, succeeded, mutation_eq, Mutation, Db, find_mutation,
}
use trade_bot.Mutations.Lookup.{find_mutation-update_self}
use trade_bot.Mutations.Store.{set_state, set_row}
use trade_bot.Execution.Broker.{BrokerOrder, is_cancelled}
use trade_bot.Amendments.World.{Desk}
use trade_bot.Amendments.Truth.{MutationExecutionResult, confirms_replace}

abbrev has_target : Option Decimal → BrokerOrder → Bool
has_target none o = false
has_target (some target) o = dec_eq o.limit_price target

-- For a cancel the broker reports the order as CANCELLED, under the id that was to be cancelled; for
-- a replace it reports one with the target price that is neither cancelled nor rejected.
abbrev pub is_evidence : Mutation → BrokerOrder → Bool
is_evidence m o =
    if kind_eq m.kind cancel
    then str_eq o.broker_order_id m.broker_order_id && is_cancelled o.status
    else has_target m.target_limit_price o && confirms_replace o.status

mutation_eq_refl : (s : MutationState) → mutation_eq s s ≡ true
mutation_eq_refl s = ground arith

mutation_eq-succeeded :
    (s t : MutationState)
    → mutation_eq s t ≡ true
    → mutation_eq t succeeded ≡ false
    → mutation_eq s succeeded ≡ true
    → ⊥
mutation_eq-succeeded s t h k l = ground arith

-- A state that is set is the state of what returns.
pub set_state_state :
    (i : String) (target : MutationState) (o : String) (t : ℕ) (b : Option String) (s : Db)
    (m : Mutation)
    → (set_state i target o (aware t) b s).0 ≡ ok m
    → mutation_eq m.state target ≡ true
unfolding set_state
set_state_state i target o t b s m h = elim (Option-cases (find_mutation i s.mutations)) [
  | inl missing ↦ absurd (ground arith)
  | inr (n, found) ↦ ground (
    arith,
    mutation_eq_refl target,
    find_mutation-update_self i (set_row target o (resolve_broker_id b n.broker_order_id) t)
        s.mutations n (λ x. refl) found,
  )
]

-- Where the method returns a mutation that SUCCEEDED, `P` holds.
record Proves {E : Type 0} (P : Type 0) (m : Action (Desk E) MutationExecutionResult) : Type 0 where
  at :
      (w : Desk E) (x : MutationExecutionResult)
      → (m w).0 ≡ ok x
      → mutation_eq x.mutation.state succeeded ≡ true
      → P

-- The mutation that the method returns did not succeed.
record Unsettled {E : Type 0} (m : Action (Desk E) Mutation) : Type 0 where
  at : (w : Desk E) (x : Mutation) → (m w).0 ≡ ok x → mutation_eq x.state succeeded ≡ false
