-- ===== src/Amendments/Executor.antt =====
-- app/execution/order_mutation_executor.py: `PaperOrderMutationExecutor.execute` and `reconcile`.
use trade_bot.Prelude.{
  ℕ, ◌+◌, Bool, true, false, not, ◌&&◌, Option, none, some, List, [], ◌∷◌, String, str_eq,
  str_append, strip, is_empty, ltb, if◌then◌else◌,
}
use trade_bot.Prelude.Decimal.{Decimal}
use trade_bot.Prelude.Clock.{Datetime, aware, to_utc}
use trade_bot.Prelude.Action.{
  Action, value_error, key_error, ◌>>=◌, ◌>>◌, pure, raise, raise_if, gets, or_raise, lift,
}
use trade_bot.Oms.Tables.{OrderRecord}
use trade_bot.Mutations.Tables.{
  MutationKind, cancel, replace, kind_eq, requested, started, succeeded, uncertain, mutation_value,
  mutation_eq, Mutation, MutationMessage, MutationEvent, get,
}
use trade_bot.Mutations.Store.{
  payload_broker_id, claim_started, mark_uncertain, mark_outbox_published, events_of,
}
use trade_bot.Execution.Broker.{BrokerOrder}
use trade_bot.Execution.World.{Submission, placed, refused, broken}
use trade_bot.Amendments.World.{Setting, Desk, on_mutations, order_of, amend, look_up}
use trade_bot.Amendments.Truth.{
  MutationExecutionResult, outcome_of, register_successor, give_up, resolve_truth,
}

-- The loop of `_mutation_predecessor`: the first event of a request decides.
unfoldable pub predecessor_in : List MutationEvent → String
predecessor_in [] = ""
predecessor_in (e ∷ es) =
    let rest = predecessor_in es in
    if mutation_eq e.event_type requested then strip (payload_broker_id e.payload) else rest

module _ {E : Type 0} (setting : Setting E) where
  open setting use {market, grace}

  -- `_mutation_predecessor`
  unfoldable pub mutation_predecessor : String → Action (Desk E) String
  mutation_predecessor i = do
    found ← gets (λ w. predecessor_in (events_of i w.mutations.events))
    raise_if (is_empty found) (value_error "REPLACE_PREDECESSOR_NOT_PROVEN")
    pure found

  -- `_ensure_replace_lineage`
  unfoldable pub ensure_replace_lineage : Mutation → ℕ → Action (Desk E) (Unit {0})
  unfolding mutation_predecessor
  ensure_replace_lineage m moment =
      if kind_eq m.kind replace && mutation_eq m.state succeeded
      then (do
        predecessor ← mutation_predecessor m.mutation_id
        register_successor setting (record {
          intent_id = m.intent_id;
          mutation_id = m.mutation_id;
          predecessor_broker_order_id = predecessor;
          successor_broker_order_id = m.broker_order_id;
          occurred_at = aware moment;
        }))
      else pure tt

  -- `_recovery_due`
  abbrev pub recovery_due : Mutation → ℕ → Bool
  recovery_due m moment = not (ltb moment (m.updated_at + grace))

  -- A result of what the stores have, without a call of the broker.
  unfoldable pub as_stored : Mutation → Action (Desk E) MutationExecutionResult
  as_stored m = do r ← order_of m.intent_id; pure (outcome_of r m false false)

  unfoldable pub after_recovery_read :
      Mutation → OrderRecord → ℕ → Option BrokerOrder → Action (Desk E) MutationExecutionResult
  after_recovery_read m r moment none =
      give_up setting m r "BROKER_ORDER_NOT_FOUND_DURING_RECOVERY" moment
  after_recovery_read m r moment (some o) = do
    result ← resolve_truth setting m o moment true
    pure (outcome_of result.order result.mutation false true)

  -- `_recover`
  unfoldable pub recover : Mutation → ℕ → Action (Desk E) MutationExecutionResult
  unfolding after_recovery_read
  recover m moment = do
    r ← order_of m.intent_id
    found ← look_up market r.client_order_id
    after_recovery_read m r moment found

  unfoldable pub after_error_read :
      Mutation
      → OrderRecord
      → String
      → ℕ
      → Option BrokerOrder
      → Action (Desk E) MutationExecutionResult
  after_error_read m r code moment none = do
    marked ←
        on_mutations
          (mark_uncertain m.mutation_id (str_append "UNRESOLVED_AFTER_" code) (aware moment))
    pure (outcome_of r marked false true)
  after_error_read m r code moment (some o) = resolve_truth setting m o moment true

  -- `_read_after_error`
  unfoldable pub read_after_error : Mutation → String → ℕ → Action (Desk E) MutationExecutionResult
  unfolding after_error_read
  read_after_error m code moment = do
    r ← order_of m.intent_id
    found ← look_up market r.client_order_id
    after_error_read m r code moment found

  -- `self.mutations.mark_outbox_published`, and then the result.
  abbrev pub publish :
      MutationMessage → ℕ → MutationExecutionResult → Action (Desk E) MutationExecutionResult
  publish message moment result = do
    on_mutations (mark_outbox_published message.message_id (aware moment))
    pure result

  -- What follows the call at the broker in `_attempt`.
  unfoldable pub after_amendment :
      Mutation → MutationMessage → ℕ → Submission → Action (Desk E) MutationExecutionResult
  unfolding read_after_error
  after_amendment m message moment (placed o) = do
    result ← resolve_truth setting m o moment false
    publish message moment (outcome_of result.order result.mutation true false)
  after_amendment m message moment (refused code ambiguous) = do
    result ← read_after_error m code moment
    publish message moment (outcome_of result.order result.mutation true true)
  after_amendment m message moment (broken e) = raise e

  -- The call of the broker, by the kind of the mutation.
  unfoldable pub send : Mutation → MutationKind → Option Decimal → Action (Desk E) Submission
  send m cancel price = amend market (record {
    mutation_id = m.mutation_id;
    broker_order_id = m.broker_order_id;
    limit_price = none;
  })
  send m replace none = raise (value_error "REPLACE_TARGET_MISSING")
  send m replace (some target) = amend market (record {
    mutation_id = m.mutation_id;
    broker_order_id = m.broker_order_id;
    limit_price = some target;
  })

  -- `_attempt`
  unfoldable pub attempt_mutation :
      Mutation → MutationMessage → ℕ → Action (Desk E) MutationExecutionResult
  unfolding send after_amendment
  attempt_mutation m message moment = do
    answer ← send m m.kind m.target_limit_price
    after_amendment m message moment answer

  -- `_handle_existing`, of a mutation that is STARTED.
  unfoldable pub handle_started :
      Mutation → MutationMessage → ℕ → Action (Desk E) MutationExecutionResult
  unfolding as_stored recover
  handle_started m message moment =
      if not (recovery_due m moment)
      then as_stored m
      else do result ← recover m moment; publish message moment result

  -- The same of one that is SUCCEEDED, FAILED or UNCERTAIN.
  unfoldable pub handle_settled :
      Mutation → MutationMessage → ℕ → Action (Desk E) MutationExecutionResult
  unfolding ensure_replace_lineage as_stored
  handle_settled m message moment = do
    ensure_replace_lineage m moment
    on_mutations (mark_outbox_published message.message_id (aware moment))
    as_stored m

  -- `_handle_existing`
  unfoldable pub handle_existing_mutation :
      Mutation → MutationMessage → ℕ → Action (Desk E) MutationExecutionResult
  unfolding handle_started handle_settled
  handle_existing_mutation m message moment =
      if mutation_eq m.state started
      then handle_started m message moment
      else if not (mutation_eq m.state requested)
      then handle_settled m message moment
      else raise (value_error (str_append "MUTATION_NOT_EXECUTABLE:" (mutation_value m.state)))

  -- The claim was made: its owner calls the broker.
  unfoldable pub after_mutation_claim :
      MutationMessage → ℕ → Mutation × Bool → Action (Desk E) MutationExecutionResult
  unfolding attempt_mutation handle_existing_mutation
  after_mutation_claim message moment (m, owned) =
      if owned then attempt_mutation m message moment else handle_existing_mutation m message moment

  -- `execute`
  unfoldable pub execute_mutation :
      MutationMessage → Datetime → Action (Desk E) MutationExecutionResult
  unfolding after_mutation_claim
  execute_mutation message occurred_at = do
    moment ← lift (to_utc occurred_at "occurred_at must be timezone-aware")
    found ← gets (λ w. get message.mutation_id w.mutations)
    m ← or_raise found (key_error message.mutation_id)
    raise_if (not (str_eq m.intent_id message.intent_id))
        (value_error "MUTATION_OUTBOX_INTENT_MISMATCH")
    enabled ← gets (λ w. market.writes_enabled w.outside)
    raise_if (not enabled) (value_error "PAPER_ORDER_WRITES_DISABLED")
    if mutation_eq m.state requested
        then (do
          claimed ← on_mutations (claim_started m.mutation_id (aware moment))
          after_mutation_claim message moment claimed)
        else handle_existing_mutation m message moment

  -- `reconcile`
  unfoldable pub reconcile_mutation : String → Datetime → Action (Desk E) MutationExecutionResult
  unfolding recover ensure_replace_lineage as_stored
  reconcile_mutation i occurred_at = do
    moment ← lift (to_utc occurred_at "occurred_at must be timezone-aware")
    found ← gets (λ w. get i w.mutations)
    m ← or_raise found (key_error i)
    if mutation_eq m.state started
        then (if not (recovery_due m moment) then as_stored m else recover m moment)
        else if mutation_eq m.state uncertain
        then recover m moment
        else (do ensure_replace_lineage m moment; as_stored m)
