-- ===== src/Reconciliation/Tests.antt =====
-- Orders and an account against the broker's word, and the theorems on app/oms/reconciliation.py.
use trade_bot.Prelude.{
  true, false, none, some, List, [], ◌∷◌, String, ◌≡◌, ◌↔◌, refl, pos, negsuc, is_blank,
  is_uppercase, strip,
}
use trade_bot.Prelude.Decimal.{Decimal, finite, dec_zero, dec_lt, dec_eq, sub}
use trade_bot.Prelude.Json.{text, object, field, end}
use trade_bot.Prelude.Clock.{aware}
use trade_bot.Prelude.Action.{Error, ok, err}
use trade_bot.Oms.State.{uncertain, reconciling, manual, OrderState}
use trade_bot.Oms.Tables.{Oms, OrderRow, EventRow, find_order, events_of}
use trade_bot.Oms.Tests.{texts, units, open_row}
use trade_bot.Portfolio.Ledger.{Ledger}
use trade_bot.Reconciliation.Truth.{
  BrokerOrderTruth, BrokerPortfolioTruth, filled, validate_truth, validate_portfolio,
  validate_positions, validate_position_truth, has_complete_economics,
}
use trade_bot.Reconciliation.Order.{
  Resolver, reconcile_order, check_truth, check_economics, requires_f17_economic_proof,
  validate_broker_identity, latest_asks, payload_reason, reason_of,
}
use trade_bot.Reconciliation.Stuck.{IsReconciling, reconcile_order-IsReconciling}
use trade_bot.Reconciliation.Resolution.{missing_goes_manual, filled_goes_filled}
use trade_bot.Reconciliation.Proof.{other_order_kept_out}
use trade_bot.Reconciliation.Account.{
  PortfolioReconciliationResult, is_off, compare_portfolio, reconcile_portfolio,
}
use trade_bot.Reconciliation.Agreement.{quantity_off, matched_iff_agrees}

-- Any text will do for a decimal here.
abbrev digits_of : Decimal → String
digits_of d = "n"

abbrev no_resolver : Resolver
no_resolver = none

abbrev row_in : OrderState → OrderRow
row_in state = record open_row { order = record (open_row.order) { state = state } }

abbrev uncertain_event : EventRow
uncertain_event = record {
  event_id = "e9";
  intent_id = "i1";
  event_type = "UNCERTAIN";
  payload = object (field "reason" (text "BROKER_SUBMIT_RESPONSE_INVALID") end);
  event_fingerprint = some "x";
  occurred_at = 105;
}

abbrev store_in : OrderState → List EventRow → Oms
store_in state events = record {
  orders = row_in state ∷ [];
  events = events;
  outbox = [];
  next_message = 1;
}

abbrev truth : BrokerOrderTruth
truth = record {
  client_order_id = "c1";
  broker_order_id = "b1";
  state = filled;
  cumulative_filled = units 10;
  symbol = none;
  side = none;
  quantity = none;
  limit_price = none;
}

reconcile_order-IsReconciling_example :
    IsReconciling "i1"
      (reconcile_order texts digits_of no_resolver "i1"
        (some truth)
        (aware 110)
        "r"
        (store_in reconciling [])).1
reconcile_order-IsReconciling_example =
    reconcile_order-IsReconciling texts digits_of no_resolver "i1" (some truth) (aware 110) "r"
      (store_in reconciling []) (row_in reconciling, refl, refl)

missing_goes_manual_example :
    (r' : OrderRow) × ((reconcile_order texts digits_of no_resolver "i1" none
        (aware 110)
        "r"
        (store_in uncertain [])).0
      ≡ ok r'.order)
    × (find_order "i1"
          (reconcile_order texts digits_of no_resolver "i1" none
            (aware 110)
            "r"
            (store_in uncertain [])).1.orders
        ≡ some r')
    × (r'.state ≡ manual)
missing_goes_manual_example =
    missing_goes_manual texts digits_of no_resolver "i1" 110 "r" (store_in uncertain [])
      (row_in uncertain) refl refl refl refl

filled_goes_filled_example :
    let (result, s') =
      reconcile_order texts digits_of no_resolver "i1"
        (some truth)
        (aware 110)
        "r"
        (store_in uncertain []) in
    (r' : OrderRow) × (result ≡ ok r'.order)
    × (find_order "i1" s'.orders ≡ some r')
    × (r'.state ≡ OrderState.filled)
    × (r'.filled_quantity ≡ truth.cumulative_filled)
unfolding check_truth check_economics validate_truth has_complete_economics validate_broker_identity
    requires_f17_economic_proof latest_asks payload_reason reason_of events_of dec_lt dec_eq
    is_blank strip
filled_goes_filled_example =
    filled_goes_filled texts digits_of no_resolver "i1" truth 110 "r" (store_in uncertain [])
      (row_in uncertain) refl refl refl refl refl refl refl refl refl refl refl

other_order_kept_out_example :
    (e : Error) × (reconcile_order texts digits_of no_resolver "i1"
        (some truth)
        (aware 110)
        "r"
        (store_in uncertain (uncertain_event ∷ []))
      ≡ (err e, store_in uncertain (uncertain_event ∷ [])))
unfolding requires_f17_economic_proof latest_asks payload_reason reason_of events_of
other_order_kept_out_example =
    other_order_kept_out texts digits_of no_resolver "i1" truth (aware 110) "r"
      (store_in uncertain (uncertain_event ∷ [])) (row_in uncertain) refl refl refl refl

abbrev ledger : Ledger
ledger = record {
  opening_cash = units 1000;
  cash = units 950;
  realized_pnl = units 0;
  cash_income = units 0;
  fees_paid = units 0;
  external_cash_flow = units 0;
  positions = record { symbol = "BTC"; quantity = units 10; average_cost = units 5 } ∷ [];
  fill_ids = "f1" ∷ [];
  corporate_action_ids = [];
  cash_adjustment_ids = [];
}

abbrev account : BrokerPortfolioTruth
account = record {
  cash = units 950;
  positions = record { symbol = "BTC"; quantity = units 10 } ∷ [];
}

abbrev cents : Decimal
cents = finite (pos 1) (negsuc 1)

abbrev compared : PortfolioReconciliationResult
compared = compare_portfolio ledger account cents dec_zero

reconciled_here : reconcile_portfolio ledger account cents dec_zero ≡ ok compared
unfolding reconcile_portfolio validate_portfolio validate_positions validate_position_truth
    is_uppercase dec_lt dec_eq
reconciled_here = refl

matched_iff_agrees_example : (compared.matched ≡ true) ↔ (
    (is_off cents (sub account.cash ledger.cash) ≡ false)
    × ((symbol : String) → quantity_off ledger account dec_zero symbol ≡ false))
matched_iff_agrees_example =
    matched_iff_agrees ledger account cents dec_zero compared reconciled_here
