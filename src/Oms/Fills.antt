-- ===== src/Oms/Fills.antt =====
-- app/oms/store.py: `apply_cumulative_fill`.
use trade_bot.Prelude.{ℕ, ◌+◌, not, ◌||◌, Option, none, some, String, if◌then◌else◌}
use trade_bot.Prelude.Decimal.{Decimal, dec_zero, is_finite, dec_lt, dec_eq}
use trade_bot.Prelude.Json.{Json, decimal_text, object, end, field}
use trade_bot.Prelude.Clock.{Datetime}
use trade_bot.Prelude.Action.{
  Action, Result, ok, value_error, ◌>>=◌, ◌>>◌, pure, modify, raise_if, lift, transaction,
}
use trade_bot.Oms.State.{OrderState, filled, partially_filled, state_eq, validate_transition}
use trade_bot.Oms.Tables.{Oms, OrderRecord, OrderRow, update_order}
use trade_bot.Oms.Events.{now, event_replayed, append_event, load_for_update, read_back}
use trade_bot.Oms.Orders.{resolve_broker_id}

-- The state that the filled quantity calls for.
unfoldable pub fill_target : OrderRecord → Decimal → OrderState
fill_target current cumulative =
    if dec_eq cumulative dec_zero
    then current.state
    else if dec_eq cumulative current.quantity
    then filled
    else partially_filled

-- UPDATE oms_orders SET state=?, broker_order_id=?, filled_quantity=?, version=version+1, …
abbrev pub fill_row : OrderState → String → Decimal → ℕ → OrderRow → OrderRow
fill_row target broker_id cumulative moment r = record r {
  order = record (r.order) {
    state = target;
    broker_order_id = broker_id;
    filled_quantity = cumulative;
    version = r.version + 1;
    updated_at = moment;
  };
}

abbrev pub set_fill : String → OrderState → String → Decimal → ℕ → Oms → Oms
set_fill intent_id target broker_id cumulative moment s = record s {
  orders = update_order intent_id (fill_row target broker_id cumulative moment) s.orders;
}

abbrev pub fill_payload : Decimal → Json
fill_payload cumulative = object (field "cumulative_filled" (decimal_text cumulative) end)

-- `if target != current.state: self._validate_transition(current.state, target)`
unfoldable pub validate_fill_target : OrderState → OrderState → Result (Unit {0})
validate_fill_target current target =
    if state_eq target current then ok tt else validate_transition current target

module _ (digest : Json → String) where
  fill_new :
      String → OrderRecord → String → Decimal → ℕ → Option String → Action Oms (Option OrderRecord)
  fill_new intent_id current event_id cumulative moment broker_order_id = do
    raise_if (dec_lt cumulative current.filled_quantity) (value_error "FILLED_QUANTITY_REGRESSION")
    raise_if (dec_lt current.quantity cumulative) (value_error "FILLED_QUANTITY_EXCEEDS_ORDER")
    let target = fill_target current cumulative
    lift (validate_fill_target current.state target)
    let broker_id = resolve_broker_id broker_order_id current.broker_order_id
    modify (set_fill intent_id target broker_id cumulative moment)
    fresh ←
        append_event digest event_id intent_id "FILL_UPDATE" (fill_payload cumulative) moment
          broker_order_id
    pure none

  fill_body : String → String → Decimal → ℕ → Option String → Action Oms (Option OrderRecord)
  unfolding fill_new
  fill_body intent_id event_id cumulative moment broker_order_id = do
    current ← load_for_update intent_id
    replayed ←
        event_replayed digest event_id intent_id "FILL_UPDATE" (fill_payload cumulative)
          broker_order_id
    if replayed
        then pure (some current)
        else fill_new intent_id current event_id cumulative moment broker_order_id

  unfoldable pub apply_cumulative_fill :
      String → String → Decimal → Datetime → Option String → Action Oms OrderRecord
  unfolding fill_body
  apply_cumulative_fill intent_id event_id cumulative occurred_at broker_order_id = do
    raise_if (not (is_finite cumulative) || dec_lt cumulative dec_zero)
        (value_error "cumulative_filled must be finite and non-negative")
    moment ← lift (now occurred_at)
    early ← transaction (fill_body intent_id event_id cumulative moment broker_order_id)
    read_back intent_id early
