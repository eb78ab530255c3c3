-- ===== src/Indexed/Reserve.antt =====
-- app/oms/indexed.py: `IndexedDurableOmsStore`, the approval of an order that reserves capacity, and
-- the lookup by the client's id.
use trade_bot.Prelude.{
  ℕ, Bool, true, false, not, ◌&&◌, ◌||◌, Option, none, some, List, [], ◌∷◌, String, is_blank, strip,
  str_eq, str_append, join_comma, sorted_set, if◌then◌else◌,
}
use trade_bot.Prelude.Decimal.{Decimal, mul, sub}
use trade_bot.Prelude.Json.{
  Json, null, flag, text, decimal_text, array, object, Items, nil, item, Fields, end, field,
}
use trade_bot.Prelude.SameJson.{json_same}
use trade_bot.Prelude.Clock.{Datetime}
use trade_bot.Prelude.Action.{
  Action, Result, ok, err, Error, value_error, ◌>>=◌, ◌>>◌, pure, gets, modify, lift, transaction,
}
use trade_bot.Domain.{is_buy}
use trade_bot.Oms.State.{
  OrderState, risk_approved, outboxed, submit_started, acknowledged, partially_filled,
  cancel_requested, uncertain, reconciling, reconciled, manual, contains_state, state_value,
  validate_transition,
}
use trade_bot.Oms.Tables.{Oms, OrderRecord, OrderRow, EventRow, find_event}
use trade_bot.Oms.Events.{now, side_value, append_event, load_for_update}
use trade_bot.Oms.Orders.{set_state}
use trade_bot.Risk.Reservation.{
  RiskReservationBudget, PendingBuyExposure, RiskReservationEvaluation, is_approved,
  validate_budget, evaluate_buy_reservation,
}

-- `_RISK_RESERVING_STATES`
abbrev pub risk_reserving_states : List OrderState
risk_reserving_states =
    risk_approved ∷ outboxed ∷ submit_started ∷ acknowledged ∷ partially_filled ∷ cancel_requested
    ∷ uncertain ∷ reconciling ∷ reconciled ∷ manual ∷ []

abbrev cash_json : Option Decimal → Json
cash_json none = null
cash_json (some cash) = decimal_text cash

-- `_reservation_request`
unfoldable pub reservation_request : OrderRecord → RiskReservationBudget → Json
reservation_request r b = object (
    field "intent_id" (text r.intent_id) (
      field "symbol" (text r.symbol) (
        field "side" (text (side_value r.side)) (
          field "quantity" (decimal_text r.quantity) (
            field "limit_price" (decimal_text r.limit_price) (
              field "available_cash" (cash_json b.available_cash) (
                field "current_symbol_notional" (decimal_text b.current_symbol_notional) (
                  field "current_gross_notional" (decimal_text b.current_gross_notional) (
                    field "maximum_symbol_notional" (decimal_text b.maximum_symbol_notional) (
                      field "maximum_gross_notional" (decimal_text b.maximum_gross_notional)
                        end))))))))))

abbrev find_field : String → Fields → Option Json
find_field name end = none
find_field name (field k j rest) =
    let later = find_field name rest in if str_eq k name then some j else later

abbrev stored_request : Json → Option Json
stored_request (object fields) = find_field "reservation_request" fields
stored_request _ = none

abbrev holds_request : Json → Json → Bool
holds_request payload request = elim (stored_request payload) [
  | none ↦ false
  | some stored ↦ json_same stored request
]

-- `_validate_reservation_replay`
unfoldable pub validate_reservation_replay : EventRow → String → Json → Result (Unit {0})
validate_reservation_replay e intent_id request =
    if not (str_eq e.intent_id intent_id)
      || not (str_eq e.event_type (state_value risk_approved))
      || not (holds_request e.payload request)
    then err (value_error "OMS_EVENT_ID_CONFLICT")
    else ok tt

-- SELECT * FROM oms_orders WHERE side='BUY' AND state IN (…), as exposures.
abbrev pub exposure_of : OrderRecord → PendingBuyExposure
exposure_of r = record {
  symbol = r.symbol;
  remaining_notional = mul (sub r.quantity r.filled_quantity) r.limit_price;
}

unfoldable pub active_buys : List OrderRow → List PendingBuyExposure
active_buys [] = []
active_buys (r ∷ rs) =
    let rest = active_buys rs in
    if is_buy r.side && contains_state r.state risk_reserving_states
    then exposure_of r.order ∷ rest
    else rest

abbrev reasons_json : List String → Items
reasons_json [] = nil
reasons_json (r ∷ rs) = item (text r) (reasons_json rs)

-- `RiskReservationEvaluation.event_payload`
abbrev pub reservation_json : RiskReservationEvaluation → Json
reservation_json e = object (
    field "approved" (flag (is_approved e)) (
      field "reasons" (array (reasons_json e.reasons)) (
        field "reserved_cash_notional" (decimal_text e.reserved_cash_notional) (
          field "reserved_symbol_notional" (decimal_text e.reserved_symbol_notional) (
            field "reserved_gross_notional" (decimal_text e.reserved_gross_notional) (
              field "projected_cash_commitment" (decimal_text e.projected_cash_commitment) (
                field "projected_symbol_notional" (decimal_text e.projected_symbol_notional) (
                  field "projected_gross_notional" (decimal_text e.projected_gross_notional)
                    end))))))))

abbrev pub sell_json : Json
sell_json =
    object (field "approved" (flag true) (field "kind" (text "SELL_NO_CAPACITY_CREDIT") end))

-- `RiskReservationRejected`
abbrev rejected : List String → Error
rejected reasons =
    value_error (str_append "RISK_RESERVATION_REJECTED:" (join_comma (sorted_set reasons)))

abbrev decided : RiskReservationEvaluation → Result Json
decided e = if is_approved e then ok (reservation_json e) else err (rejected e.reasons)

-- What the approval books under `reservation`, or the refusal of a buy beyond the capacity.
unfoldable pub reserve_capacity : OrderRecord → RiskReservationBudget → List OrderRow → Result Json
reserve_capacity r budget rows =
    if not (is_buy r.side)
    then ok sell_json
    else elim (evaluate_buy_reservation r.symbol (mul r.quantity r.limit_price) budget
        (active_buys rows)) [ err e ↦ err e | ok e ↦ decided e ]

abbrev pub reservation_payload : Json → Json → Json
reservation_payload reservation request =
    object (field "reservation" reservation (field "reservation_request" request end))

module _ (digest : Json → String) where
  unfoldable pub approve_new :
      String → String → ℕ → RiskReservationBudget → OrderRecord → Action Oms OrderRecord
  approve_new intent_id event_id moment budget current = do
    lift (validate_transition current.state risk_approved)
    rows ← gets (λ s. s.orders)
    reservation ← lift (reserve_capacity current budget rows)
    modify (set_state intent_id risk_approved current.broker_order_id moment)
    fresh ←
        append_event digest event_id intent_id (state_value risk_approved)
          (reservation_payload reservation (reservation_request current budget)) moment none
    load_for_update intent_id

  unfoldable pub approve_body : String → String → ℕ → RiskReservationBudget → Action Oms OrderRecord
  unfolding approve_new
  approve_body intent_id event_id moment budget = do
    current ← load_for_update intent_id
    existing ← gets (λ s. find_event event_id s.events)
    elim existing [
      | none ↦ approve_new intent_id event_id moment budget current
      | some e ↦ do
        lift (validate_reservation_replay e intent_id (reservation_request current budget))
        pure current
    ]

  -- `approve_risk_with_reservation`
  unfoldable pub approve_risk_with_reservation :
      String → String → Datetime → RiskReservationBudget → Action Oms OrderRecord
  unfolding approve_body
  approve_risk_with_reservation intent_id event_id occurred_at budget = do
    lift (validate_budget budget)
    moment ← lift (now occurred_at)
    transaction (approve_body intent_id event_id moment budget)

abbrev find_client : String → List OrderRow → Option OrderRecord
find_client c [] = none
find_client c (r ∷ rs) =
    let rest = find_client c rs in if str_eq r.client_order_id c then some r.order else rest

unfoldable pub get_by_client_order_id : String → Oms → Result (Option OrderRecord)
get_by_client_order_id c s =
    if is_blank c
    then err (value_error "client_order_id is required")
    else ok (find_client (strip c) s.orders)
