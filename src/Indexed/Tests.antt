-- ===== src/Indexed/Tests.antt =====
-- A buy that reserves capacity, and the theorems on app/oms/indexed.py at it.
use trade_bot.Prelude.{true, some, [], ◌∷◌, ◌≡◌, refl, is_blank, strip, sorted_set}
use trade_bot.Prelude.Decimal.{dec_zero, dec_lt, dec_eq, add, sub, mul}
use trade_bot.Prelude.Clock.{aware}
use trade_bot.Prelude.Action.{ok}
use trade_bot.Oms.State.{created, risk_approved, validate_transition}
use trade_bot.Oms.Tables.{Oms, OrderRow, OrderRecord, get}
use trade_bot.Oms.Events.{append_event}
use trade_bot.Oms.Tests.{texts, units, open_row}
use trade_bot.Risk.Reservation.{
  RiskReservationBudget, evaluate_buy_reservation, validate_budget, validate_exposures, sum_from,
}
use trade_bot.Risk.Engine.{failures}
use trade_bot.Indexed.Committed.{FitsRows, committed}
use trade_bot.Indexed.Reserve.{active_buys, reserve_capacity, approve_risk_with_reservation}
use trade_bot.Indexed.Approval.{approved_within_budget}

abbrev budget : RiskReservationBudget
budget = record {
  available_cash = some (units 500);
  current_symbol_notional = units 0;
  current_gross_notional = units 100;
  maximum_symbol_notional = units 200;
  maximum_gross_notional = units 1000;
}

-- A pending buy of 50, and a new order of 50.
abbrev pending : OrderRow
pending = open_row

abbrev new_order : OrderRow
new_order = record open_row {
  order = record (open_row.order) { intent_id = "i2"; client_order_id = "c2"; state = created };
}

abbrev two_orders : Oms
two_orders = record {
  orders = pending ∷ new_order ∷ [];
  events = [];
  outbox = [];
  next_message = 1;
}

abbrev approved_order : OrderRecord
approved_order = record (new_order.order) { state = risk_approved; version = 6; updated_at = 120 }

approved_here :
    (approve_risk_with_reservation texts "i2" "risk:i2" (aware 120) budget two_orders).0
    ≡ ok approved_order
unfolding approve_risk_with_reservation validate_budget get append_event reserve_capacity
    evaluate_buy_reservation validate_exposures sum_from active_buys validate_transition failures
    sorted_set dec_lt dec_eq add sub mul is_blank strip
approved_here = refl

-- The pending buy is counted: it commits 50.
pending_committed : dec_eq (committed dec_zero two_orders.orders) (units 50) ≡ true
unfolding dec_eq add sub mul
pending_committed = refl

approved_within_budget_example :
    FitsRows budget "BTC" (mul (units 10) (units 5)) two_orders.orders
    × (approved_order.state ≡ risk_approved)
approved_within_budget_example =
    approved_within_budget texts "i2" "risk:i2" (aware 120) budget two_orders new_order
      approved_order refl refl refl approved_here
