-- ===== src/Mutations/Lifecycle.antt =====
-- app/oms/order_mutations.py: `OrderMutationLifecycle`.
use trade_bot.Prelude.{
  Bool, true, false, not, ◌||◌, Option, none, some, String, str_eq, str_append, is_blank,
  if◌then◌else◌,
}
use trade_bot.Prelude.Decimal.{Decimal, dec_eq}
use trade_bot.Prelude.Clock.{Datetime}
use trade_bot.Prelude.Action.{
  Action, value_error, key_error, ◌>>=◌, ◌>>◌, pure, raise, raise_if, gets, or_raise,
}
use trade_bot.Domain.{not_positive}
use trade_bot.Oms.State.{OrderState, acknowledged, partially_filled, state_value}
use trade_bot.Oms.Tables.{OrderRecord, find_order}
use trade_bot.Mutations.Tables.{Mutation, cancel, replace, kind_eq, Db, find_mutation}
use trade_bot.Mutations.Lineage.{current_limit_price, current_broker_order_id}
use trade_bot.Mutations.Store.{request}

-- `state in _ACTIVE_ORDER_STATES`
abbrev is_mutable : OrderState → Bool
is_mutable acknowledged = true
is_mutable partially_filled = true
is_mutable _ = false

unfoldable pub active_order : String → Action Db OrderRecord
active_order i = do
  raise_if (is_blank i) (value_error "intent_id is required")
  row ← gets (λ s. find_order i s.orders)
  order ← or_raise row (key_error i)
  raise_if (not (is_mutable order.state))
      (value_error (str_append "ORDER_NOT_MUTABLE:" (state_value order.state)))
  raise_if (is_blank order.broker_order_id) (value_error "BROKER_ORDER_ID_REQUIRED")
  pure order.order

new_cancel : String → String → Datetime → Action Db Mutation
new_cancel i mutation_id occurred_at = do
  order ← active_order i
  price ← λ s. (current_limit_price i order.limit_price s, s)
  broker ← λ s. (current_broker_order_id i order.broker_order_id s, s)
  request
      (record {
        mutation_id = mutation_id;
        intent_id = i;
        kind = cancel;
        target_limit_price = none;
        baseline_limit_price = price;
        broker_order_id = broker;
      })
      occurred_at

unfoldable pub request_cancel : String → String → Datetime → Action Db Mutation
unfolding new_cancel
request_cancel i mutation_id occurred_at = do
  found ← gets (λ s. find_mutation mutation_id s.mutations)
  elim found [
    | some existing ↦
        if not (str_eq existing.intent_id i) || not (kind_eq existing.kind cancel)
        then raise (value_error "MUTATION_ID_CONFLICT")
        else pure existing
    | none ↦ new_cancel i mutation_id occurred_at
  ]

-- `existing.target_limit_price != target_limit_price`
abbrev other_target : Option Decimal → Decimal → Bool
other_target none p = true
other_target (some q) p = not (dec_eq q p)

new_replace : String → String → Decimal → Datetime → Action Db Mutation
new_replace i mutation_id target occurred_at = do
  order ← active_order i
  baseline ← λ s. (current_limit_price i order.limit_price s, s)
  raise_if (dec_eq target baseline) (value_error "REPLACE_PRICE_UNCHANGED")
  broker ← λ s. (current_broker_order_id i order.broker_order_id s, s)
  request
      (record {
        mutation_id = mutation_id;
        intent_id = i;
        kind = replace;
        target_limit_price = some target;
        baseline_limit_price = baseline;
        broker_order_id = broker;
      })
      occurred_at

unfoldable pub request_replace : String → String → Decimal → Datetime → Action Db Mutation
unfolding new_replace
request_replace i mutation_id target occurred_at = do
  raise_if (not_positive target) (value_error "target_limit_price must be positive and finite")
  found ← gets (λ s. find_mutation mutation_id s.mutations)
  elim found [
    | some existing ↦
        if not (str_eq existing.intent_id i)
          || not (kind_eq existing.kind replace)
          || other_target existing.target_limit_price target
        then raise (value_error "MUTATION_ID_CONFLICT")
        else pure existing
    | none ↦ new_replace i mutation_id target occurred_at
  ]
