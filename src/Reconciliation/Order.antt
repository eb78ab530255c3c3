-- ===== src/Reconciliation/Order.antt =====
-- app/oms/reconciliation.py: `OmsReconciler`, one order against what the broker says of it.
use trade_bot.Prelude.{
  Bool, false, not, ◌||◌, ◌&&◌, Option, none, some, List, [], ◌∷◌, ◌++◌, String, is_blank, strip,
  str_eq, str_append, contains_text, join_comma, if◌then◌else◌,
}
use trade_bot.Prelude.Decimal.{Decimal, dec_zero, dec_lt, dec_le, dec_eq}
use trade_bot.Prelude.Json.{Json, Fields, text, object, end, field}
use trade_bot.Prelude.Clock.{Datetime}
use trade_bot.Prelude.Action.{
  Action, Result, ok, err, value_error, key_error, ◌>>=◌, ◌>>◌, pure, raise, gets, raise_if,
  or_raise, lift,
}
use trade_bot.Domain.{side_eq, refuse}
use trade_bot.Oms.State.{
  OrderState, state_eq, state_value, uncertain, reconciling, reconciled, manual, acknowledged,
}
use trade_bot.Oms.Tables.{Oms, OrderRecord, EventRow, is_terminal, events_of, get}
use trade_bot.Oms.Orders.{transition}
use trade_bot.Oms.Fills.{apply_cumulative_fill}
use trade_bot.Reconciliation.Truth.{
  BrokerOrderState, open_, partially_filled, filled, cancelled, rejected, BrokerOrderTruth,
  Economics, economics, validate_truth, broker_state_value,
}

-- `get_by_broker_order_id`, where the store has it.
abbrev pub Resolver : Type 0
Resolver = Option (String → Oms → Result (Option OrderRecord))

-- `_F17_UNCERTAINTY_REASONS`
abbrev pub f17_reasons : List String
f17_reasons = "BROKER_SUBMIT_ECONOMICS_MISMATCH" ∷ "BROKER_SUBMIT_RESPONSE_INVALID" ∷ []

-- `payload.get("reason", "")`, a text.
unfoldable pub reason_of : Fields → String
reason_of end = ""
reason_of (field name (text value) rest) = if str_eq name "reason" then value else reason_of rest
reason_of (field name _ rest) = if str_eq name "reason" then "" else reason_of rest

unfoldable pub payload_reason : Json → String
unfolding reason_of
payload_reason (object fields) = reason_of fields
payload_reason _ = ""

-- The reason of the last UNCERTAIN event is one that asks for the economics.
unfoldable pub latest_asks : Bool → List EventRow → Bool
unfolding payload_reason
latest_asks asks [] = asks
latest_asks asks (e ∷ es) =
    latest_asks
      (if str_eq e.event_type (state_value uncertain)
        then contains_text (payload_reason e.payload) f17_reasons
        else asks)
      es

-- `_requires_f17_economic_proof`
unfoldable pub requires_f17_economic_proof : String → Oms → Bool
requires_f17_economic_proof intent_id s = latest_asks false (events_of intent_id s.events)

abbrev pub mismatch : Bool → String → List String
mismatch same name = if same then [] else name ∷ []

abbrev pub mismatches : OrderRecord → Economics → List String
mismatches local e =
    mismatch (str_eq e.symbol local.symbol) "symbol"
    ++ mismatch (side_eq e.side local.side) "side"
    ++ mismatch (dec_eq e.quantity local.quantity) "quantity"
    ++ mismatch (dec_eq e.limit_price local.limit_price) "limit_price"

abbrev pub refuse_mismatches : List String → Result (Unit {0})
refuse_mismatches [] = ok tt
refuse_mismatches (name ∷ names) =
    err (value_error (str_append "BROKER_ECONOMICS_MISMATCH:" (join_comma (name ∷ names))))

-- `_validate_f17_economics`
unfoldable pub validate_f17_economics : OrderRecord → BrokerOrderTruth → Result (Unit {0})
validate_f17_economics local t = elim (economics t) [
  | none ↦ err (value_error "BROKER_ECONOMICS_REQUIRED_FOR_RECONCILIATION")
  | some e ↦ refuse_mismatches (mismatches local e)
]

-- The order that an identity resolves to must be this one.
abbrev pub resolves_to : OrderRecord → Option OrderRecord → Result (Unit {0})
resolves_to local none = err (value_error "BROKER_ORDER_ID_DRIFT")
resolves_to local (some r) =
    refuse (not (str_eq r.intent_id local.intent_id)) "BROKER_ORDER_ID_DRIFT"

abbrev pub resolve_identity : OrderRecord → String → Resolver → Action Oms (Unit {0})
resolve_identity local id none s = (err (value_error "BROKER_ORDER_ID_DRIFT"), s)
resolve_identity local id (some resolve) s = elim (resolve id s) [
  | err e ↦ (err e, s)
  | ok found ↦ (resolves_to local found, s)
]

-- `_validate_broker_identity`
unfoldable pub validate_broker_identity : Resolver → OrderRecord → String → Action Oms (Unit {0})
validate_broker_identity resolver local broker_order_id =
    if is_blank local.broker_order_id || str_eq (strip broker_order_id) local.broker_order_id
    then pure tt
    else resolve_identity local (strip broker_order_id) resolver

abbrev pub state_payload : BrokerOrderTruth → Json
state_payload t = object (field "broker_state" (text (broker_state_value t.state)) end)

abbrev pub missing_payload : Json
missing_payload = object (field "reason" (text "BROKER_ORDER_NOT_FOUND") end)

-- `digest` is as in Oms/Events; `decimal_str` is Python's `str` of a decimal.
module _ (digest : Json → String) (decimal_str : Decimal → String) (resolver : Resolver) where
  -- An order that the broker does not know.
  unfoldable pub broker_missing : String → Datetime → String → OrderRecord → Action Oms OrderRecord
  broker_missing intent_id occurred_at event_prefix local =
      if not (state_eq local.state uncertain)
      then raise (value_error "BROKER_ORDER_NOT_FOUND")
      else do
        begun ←
            transition digest intent_id reconciling (str_append event_prefix ":begin") occurred_at
              none none
        transition digest intent_id manual (str_append event_prefix ":missing") occurred_at none
            (some missing_payload)

  -- An order whose submission was not proven needs the economics.
  unfoldable pub check_economics : String → OrderRecord → BrokerOrderTruth → Action Oms (Unit {0})
  check_economics intent_id local t = do
    asked ← gets (requires_f17_economic_proof intent_id)
    lift (if state_eq local.state uncertain && asked then validate_f17_economics local t else ok tt)

  -- The checks before anything is written.
  unfoldable pub check_truth : String → OrderRecord → BrokerOrderTruth → Action Oms (Unit {0})
  unfolding check_economics
  check_truth intent_id local t = do
    lift (validate_truth t)
    raise_if (not (str_eq t.client_order_id local.client_order_id))
        (value_error "CLIENT_ORDER_ID_MISMATCH")
    raise_if (dec_lt local.quantity t.cumulative_filled)
        (value_error "BROKER_FILL_EXCEEDS_LOCAL_ORDER")
    validate_broker_identity resolver local t.broker_order_id
    check_economics intent_id local t

  -- An UNCERTAIN order is reconciled in two transactions.
  unfoldable pub settle_uncertain :
      String → BrokerOrderTruth → Datetime → String → OrderRecord → Action Oms OrderRecord
  settle_uncertain intent_id t occurred_at event_prefix local =
      if not (state_eq local.state uncertain) then pure local else do
        begun ←
            transition digest intent_id reconciling (str_append event_prefix ":begin") occurred_at
              none none
        transition digest intent_id reconciled (str_append event_prefix ":truth") occurred_at
            (some t.broker_order_id) (some (state_payload t))

  abbrev pub fill_event : String → BrokerOrderTruth → String
  fill_event event_prefix t =
      str_append event_prefix (str_append ":fill:" (decimal_str t.cumulative_filled))

  unfoldable pub settle_fill :
      String → BrokerOrderTruth → Datetime → String → OrderRecord → Action Oms OrderRecord
  settle_fill intent_id t occurred_at event_prefix local =
      if dec_lt local.filled_quantity t.cumulative_filled
      then apply_cumulative_fill digest intent_id (fill_event event_prefix t) t.cumulative_filled
          occurred_at (some t.broker_order_id)
      else pure local

  -- OPEN, CANCELLED and REJECTED: the state that the broker's calls for.
  unfoldable pub settle_target :
      String
      → BrokerOrderTruth
      → Datetime
      → String
      → OrderState
      → OrderRecord
      → Action Oms OrderRecord
  settle_target intent_id t occurred_at event_prefix target local =
      if state_eq local.state target
      then pure local
      else transition digest intent_id target
          (str_append event_prefix (str_append ":state:" (state_value target))) occurred_at
          (some t.broker_order_id) (some (state_payload t))

  -- The end of the method, by the state that the broker reports.
  unfoldable pub settle_state :
      BrokerOrderState
      → String
      → BrokerOrderTruth
      → Datetime
      → String
      → OrderRecord
      → Action Oms OrderRecord
  settle_state filled intent_id t occurred_at event_prefix local = do
    raise_if (not (dec_eq local.filled_quantity local.quantity))
        (value_error "FILLED_STATE_WITH_INCOMPLETE_QUANTITY")
    pure local
  settle_state partially_filled intent_id t occurred_at event_prefix local = do
    raise_if (dec_le local.filled_quantity dec_zero || dec_le local.quantity local.filled_quantity)
        (value_error "PARTIAL_STATE_WITH_INVALID_QUANTITY")
    pure local
  settle_state open_ intent_id t occurred_at event_prefix local =
      settle_target intent_id t occurred_at event_prefix acknowledged local
  settle_state cancelled intent_id t occurred_at event_prefix local =
      settle_target intent_id t occurred_at event_prefix OrderState.cancelled local
  settle_state rejected intent_id t occurred_at event_prefix local =
      settle_target intent_id t occurred_at event_prefix OrderState.rejected local

  unfoldable pub reconcile_found :
      String → Option BrokerOrderTruth → Datetime → String → OrderRecord → Action Oms OrderRecord
  unfolding broker_missing check_truth settle_uncertain settle_fill settle_state
  reconcile_found intent_id none occurred_at event_prefix local =
      if is_terminal local
      then pure local
      else broker_missing intent_id occurred_at event_prefix local
  reconcile_found intent_id (some t) occurred_at event_prefix local = do
    check_truth intent_id local t
    proven ← settle_uncertain intent_id t occurred_at event_prefix local
    filled_in ← settle_fill intent_id t occurred_at event_prefix proven
    settle_state t.state intent_id t occurred_at event_prefix filled_in

  -- `OmsReconciler.reconcile_order`
  unfoldable pub reconcile_order :
      String → Option BrokerOrderTruth → Datetime → String → Action Oms OrderRecord
  unfolding reconcile_found
  reconcile_order intent_id broker occurred_at event_prefix = do
    found ← gets (get intent_id)
    local ← or_raise found (key_error intent_id)
    reconcile_found intent_id broker occurred_at event_prefix local
