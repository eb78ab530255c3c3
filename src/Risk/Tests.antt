-- ===== src/Risk/Tests.antt =====
-- One intent through the risk engine and the order lifecycle, and the theorems at it.
use trade_bot.Prelude.{
  inl, inr, true, false, none, some, List, [], ◌∷◌, String, ◌≡◌, refl, pos, negsuc, is_blank, strip,
  is_uppercase, sorted_set,
}
use trade_bot.Prelude.Decimal.{finite, dec_lt, dec_eq, add, mul, div, neg}
use trade_bot.Prelude.Clock.{aware}
use trade_bot.Prelude.Action.{Error, ok, err}
use trade_bot.Domain.{OrderIntent, validate_intent}
use trade_bot.Oms.Calls.{empty}
use trade_bot.Oms.Tests.{texts, intent, units}
use trade_bot.Risk.Context.{
  operational, RiskLimits, OperationalRiskContext, operational_context, context_for_mode,
  validate_context, validate_mark_prices,
}
use trade_bot.Risk.Engine.{RiskDecision, failures, evaluate, evaluate_side, risk_intent_fingerprint}
use trade_bot.Risk.Reservation.{
  RiskReservationBudget, RiskReservationEvaluation, PendingBuyExposure, evaluate_buy_reservation,
  validate_budget, validate_exposures, sum_from,
}
use trade_bot.Risk.Lifecycle.{prepare, validate_risk_approval}
use trade_bot.Risk.Approval.{approval_accepted}
use trade_bot.Risk.Prepare.{unbound_refused}

abbrev limits : RiskLimits
limits = record {
  maximum_order_notional = units 1000;
  maximum_symbol_notional = units 1000;
  maximum_gross_notional = units 5000;
  maximum_price_age_seconds = units 15;
  maximum_spread_bps = units 50;
  maximum_slippage_bps = units 50;
  maximum_daily_loss = units 100;
  maximum_drawdown = units 100;
  maximum_turnover_notional = units 10000;
  maximum_liquidity_participation_fraction = finite (pos 10) (negsuc 1);
  maximum_position_fraction_of_equity = finite (pos 20) (negsuc 1);
  maximum_sector_fraction_of_equity = finite (pos 40) (negsuc 1);
  maximum_annualized_volatility = units 2;
}

abbrev measured : OperationalRiskContext
measured = record {
  price_timestamp = aware 90;
  decision_time = aware 100;
  market_open = true;
  is_halted = false;
  spread_bps = units 1;
  estimated_slippage_bps = units 1;
  daily_pnl = units 0;
  drawdown = units 0;
  turnover_notional = units 0;
  average_daily_dollar_volume = units 100000;
  portfolio_equity = units 1000;
  sector_notional = units 100;
  annualized_volatility = units 1;
  available_cash = units 500;
  portfolio_mark_prices = ("BTC", units 5) ∷ [];
}

-- An order for 50 beside 30 of the symbol and 60 in all.
abbrev approving : RiskDecision
approving = record {
  approved = true;
  reasons = [];
  order_notional = units 50;
  projected_symbol_notional = units 80;
  projected_gross_notional = units 110;
  intent_id = "i1";
  intent_fingerprint = "i1BTCBUY...trend";
}

evaluated :
    evaluate texts limits intent operational
      (units 30)
      (units 60)
      false
      (operational_context measured)
    ≡ ok approving
unfolding evaluate evaluate_side context_for_mode validate_context validate_mark_prices
    validate_intent failures sorted_set risk_intent_fingerprint is_blank is_uppercase strip dec_lt
    dec_eq add mul div neg texts
evaluated = refl

approval_accepted_example : validate_risk_approval texts intent approving ≡ ok tt
unfolding risk_intent_fingerprint is_blank strip texts
approval_accepted_example =
    approval_accepted texts limits intent operational (units 30) (units 60) false
      (operational_context measured) approving refl evaluated refl

abbrev same_text : String → String
same_text s = s

-- The approval of the intent does not serve a larger order.
abbrev larger : OrderIntent
larger = record (intent) { intent_id = "i2"; quantity = units 20 }

unbound_refused_example :
    (e : Error) × (prepare texts same_text "astra-paper" none larger approving
        (aware 200)
        none
        empty
      ≡ (err e, empty))
unbound_refused_example =
    unbound_refused texts same_text "astra-paper" none larger approving (aware 200) none empty
      (inr (inl refl))

abbrev budget : RiskReservationBudget
budget = record {
  available_cash = some (units 100);
  current_symbol_notional = units 30;
  current_gross_notional = units 60;
  maximum_symbol_notional = units 1000;
  maximum_gross_notional = units 5000;
}

abbrev pending : List PendingBuyExposure
pending =
    record { symbol = "BTC"; remaining_notional = units 20 }
    ∷ record { symbol = "ETH"; remaining_notional = units 40 }
    ∷ []

-- The cash is short by 10.
abbrev short_of_cash : RiskReservationEvaluation
short_of_cash = record {
  reasons = "INSUFFICIENT_AVAILABLE_CASH" ∷ [];
  reserved_cash_notional = units 60;
  reserved_symbol_notional = units 20;
  reserved_gross_notional = units 60;
  projected_cash_commitment = units 110;
  projected_symbol_notional = units 100;
  projected_gross_notional = units 170;
}

reserved : evaluate_buy_reservation "BTC" (units 50) budget pending ≡ ok short_of_cash
unfolding evaluate_buy_reservation validate_budget validate_exposures sum_from failures sorted_set
    is_blank strip dec_lt dec_eq add
reserved = refl
