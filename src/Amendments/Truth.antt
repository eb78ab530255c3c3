-- ===== src/Amendments/Truth.antt =====
-- app/execution/order_mutation_executor.py: what an order that the broker reports makes of a mutation,
-- the method `_resolve_truth` and those it calls.
use trade_bot.Prelude.{
  ℕ, Bool, true, false, not, ◌&&◌, Option, none, some, String, str_eq, str_append, if◌then◌else◌,
}
use trade_bot.Prelude.Decimal.{Decimal, dec_le, dec_eq}
use trade_bot.Prelude.Clock.{aware}
use trade_bot.Prelude.Action.{
  Action, value_error, key_error, ◌>>=◌, ◌>>◌, pure, raise, raise_if, gets, or_raise, lift,
}
use trade_bot.Oms.State.{state_eq}
use trade_bot.Oms.State as State
use trade_bot.Oms.Tables.{OrderRecord}
use trade_bot.Oms.Events.{side_value}
use trade_bot.Oms.Orders.{transition}
use trade_bot.Oms.Fills.{apply_cumulative_fill}
use trade_bot.Mutations.Tables.{
  Db, MutationKind, cancel, replace, kind_eq, uncertain, mutation_eq, Mutation, find_mutation,
}
use trade_bot.Mutations.Store.{mark_succeeded, mark_failed, mark_uncertain}
use trade_bot.Execution.Broker.{
  BrokerOrder, BrokerOrderStatus, cancelled, rejected, is_filled, is_cancelled, is_rejected,
  order_side_value, validate_broker_order,
}
use trade_bot.Indexed.Lineage.{Succession}
use trade_bot.Amendments.World.{Setting, Desk, on_orders, on_mutations, order_of}

pub record MutationExecutionResult : Type 0 where
  pub order : OrderRecord
  pub mutation : Mutation
  pub mutation_attempted : Bool
  pub recovered_by_read : Bool

abbrev pub outcome_of : OrderRecord → Mutation → Bool → Bool → MutationExecutionResult
outcome_of r m attempted recovered = record {
  order = r;
  mutation = m;
  mutation_attempted = attempted;
  recovered_by_read = recovered;
}

-- ACKNOWLEDGED, REPLACED, PARTIALLY_FILLED or FILLED
abbrev pub confirms_replace : BrokerOrderStatus → Bool
confirms_replace cancelled = false
confirms_replace rejected = false
confirms_replace _ = true

abbrev pub named : Mutation → String → String
named m name = str_append "mutation:" (str_append m.mutation_id name)

-- The outcome where the broker's order does not settle the mutation.
abbrev pub unconfirmed : MutationKind → String
unconfirmed cancel = "CANCEL_NOT_CONFIRMED"
unconfirmed replace = "REPLACE_PRICE_NOT_CONFIRMED"

module _ {E : Type 0} where
  unfoldable pub register_with :
      Option (Succession → Action Db (Unit {0})) → Succession → Action (Desk E) (Unit {0})
  register_with none s = raise (value_error "BROKER_ORDER_LINEAGE_STORE_REQUIRED")
  register_with (some method) s = on_mutations (method s)

module _ {E : Type 0} (setting : Setting E) where
  open setting use {digest, decimal_str, registrar}

  -- `_register_replace_successor`
  unfoldable pub register_successor : Succession → Action (Desk E) (Unit {0})
  unfolding register_with
  register_successor s = register_with registrar s

  -- `_mark_uncertain_if_needed`
  unfoldable pub mark_uncertain_if_needed : String → String → ℕ → Action (Desk E) Mutation
  mark_uncertain_if_needed i outcome moment = do
    found ← gets (λ w. find_mutation i w.mutations.mutations)
    current ← or_raise found (key_error i)
    if mutation_eq current.state uncertain && str_eq current.outcome outcome
        then pure current
        else on_mutations (mark_uncertain i outcome (aware moment))

  -- The mutation becomes UNCERTAIN.
  unfoldable pub give_up :
      Mutation → OrderRecord → String → ℕ → Action (Desk E) MutationExecutionResult
  unfolding mark_uncertain_if_needed
  give_up m r outcome moment = do
    marked ← mark_uncertain_if_needed m.mutation_id outcome moment
    pure (outcome_of r marked false true)

  unfoldable pub fail_mutation :
      Mutation → OrderRecord → String → ℕ → Bool → Action (Desk E) MutationExecutionResult
  fail_mutation m r outcome moment ambiguous = do
    marked ← on_mutations (mark_failed m.mutation_id outcome (aware moment))
    pure (outcome_of r marked false ambiguous)

  -- `_adopt_fill`
  unfoldable pub adopt_fill :
      OrderRecord → BrokerOrder → Mutation → ℕ → Bool → Action (Desk E) OrderRecord
  adopt_fill r o m moment successor_proven =
      if dec_le o.filled_quantity r.filled_quantity
      then pure r
      else if kind_eq m.kind replace
          && not (str_eq o.broker_order_id m.broker_order_id)
          && not successor_proven
      then pure r
      else on_orders (
          apply_cumulative_fill digest r.intent_id
            (named m (str_append ":fill:" (decimal_str o.filled_quantity))) o.filled_quantity
            (aware moment) (some o.broker_order_id))

  -- `_validate_broker_truth`
  unfoldable pub validate_broker_truth : Mutation → BrokerOrder → Action (Desk E) OrderRecord
  unfolding order_of
  validate_broker_truth m o = do
    lift (validate_broker_order o)
    r ← order_of m.intent_id
    raise_if (not (str_eq o.client_order_id r.client_order_id))
        (value_error "BROKER_CLIENT_ORDER_ID_MISMATCH")
    raise_if (not (str_eq o.instrument r.symbol)) (value_error "BROKER_SYMBOL_MISMATCH")
    raise_if (not (str_eq (order_side_value o.side) (side_value r.side)))
        (value_error "BROKER_SIDE_MISMATCH")
    raise_if (not (dec_eq o.quantity r.quantity)) (value_error "BROKER_QUANTITY_MISMATCH")
    pure r

  -- The replacement is confirmed: the mutation, the lineage and the fill, in that order.
  unfoldable pub confirm_replace :
      Mutation → BrokerOrder → OrderRecord → ℕ → Bool → Action (Desk E) MutationExecutionResult
  unfolding register_successor adopt_fill
  confirm_replace m o r moment ambiguous = do
    marked ←
        on_mutations
          (mark_succeeded m.mutation_id "REPLACED" (aware moment) (some o.broker_order_id))
    register_successor (record {
      intent_id = m.intent_id;
      mutation_id = m.mutation_id;
      predecessor_broker_order_id = m.broker_order_id;
      successor_broker_order_id = o.broker_order_id;
      occurred_at = aware moment;
    })
    adopted ← adopt_fill r o m moment true
    pure (outcome_of adopted marked false ambiguous)

  -- The order becomes CANCELLED, if it is not so already.
  unfoldable pub cancel_locally :
      Mutation → BrokerOrder → OrderRecord → ℕ → Action (Desk E) OrderRecord
  cancel_locally m o r moment =
      if state_eq r.state State.cancelled
      then pure r
      else on_orders (
          transition digest r.intent_id State.cancelled (named m ":cancelled") (aware moment)
            (if str_eq o.broker_order_id m.broker_order_id then some o.broker_order_id else none)
            none)

  -- The broker reports the order as CANCELLED.
  unfoldable pub after_cancelled :
      Mutation → BrokerOrder → OrderRecord → ℕ → Bool → Action (Desk E) MutationExecutionResult
  unfolding fail_mutation cancel_locally
  after_cancelled m o r moment ambiguous =
      if state_eq r.state State.filled
      then fail_mutation m r "CANCELLED_WITH_FULL_FILL" moment ambiguous
      else do
        q ← cancel_locally m o r moment
        if kind_eq m.kind cancel
            then (do
              marked ←
                  on_mutations (
                    mark_succeeded m.mutation_id "CANCELLED" (aware moment)
                      (some o.broker_order_id))
              pure (outcome_of q marked false ambiguous))
            else fail_mutation m q "ORDER_CANCELLED_DURING_REPLACE" moment ambiguous

  -- From the second `_adopt_fill` of `_resolve_truth` to its end.
  unfoldable pub resolve_status :
      Mutation → BrokerOrder → OrderRecord → ℕ → Bool → Action (Desk E) MutationExecutionResult
  unfolding adopt_fill fail_mutation after_cancelled give_up
  resolve_status m o r moment ambiguous = do
    q ← adopt_fill r o m moment false
    if is_filled o.status
        then fail_mutation m q "ORDER_FILLED_BEFORE_MUTATION_COMPLETED" moment ambiguous
        else if is_cancelled o.status
        then after_cancelled m o q moment ambiguous
        else if is_rejected o.status
        then fail_mutation m q "BROKER_ORDER_REJECTED" moment ambiguous
        else give_up m q (unconfirmed m.kind) moment

  -- A replace is confirmed by an order with the target price that is still good.
  unfoldable pub resolve_replace :
      Mutation
      → BrokerOrder
      → OrderRecord
      → ℕ
      → Bool
      → Option Decimal
      → Action (Desk E) MutationExecutionResult
  unfolding confirm_replace resolve_status
  resolve_replace m o r moment ambiguous none = raise (value_error "REPLACE_TARGET_MISSING")
  resolve_replace m o r moment ambiguous (some target) =
      if dec_eq o.limit_price target && confirms_replace o.status
      then confirm_replace m o r moment ambiguous
      else resolve_status m o r moment ambiguous

  -- A cancel never takes another broker id.
  unfoldable pub resolve_cancel :
      Mutation → BrokerOrder → OrderRecord → ℕ → Bool → Action (Desk E) MutationExecutionResult
  unfolding give_up resolve_status
  resolve_cancel m o r moment ambiguous =
      if not (str_eq o.broker_order_id m.broker_order_id)
      then give_up m r "BROKER_ORDER_ID_DRIFT" moment
      else resolve_status m o r moment ambiguous

  -- `_resolve_truth`
  unfoldable pub resolve_truth :
      Mutation → BrokerOrder → ℕ → Bool → Action (Desk E) MutationExecutionResult
  unfolding validate_broker_truth resolve_cancel resolve_replace
  resolve_truth m o moment ambiguous = do
    r ← validate_broker_truth m o
    if kind_eq m.kind cancel
        then resolve_cancel m o r moment ambiguous
        else resolve_replace m o r moment ambiguous m.target_limit_price
