-- ===== src/Risk/Engine.antt =====
-- app/risk/pretrade.py: `PreTradeRiskEngine.evaluate` and `risk_intent_fingerprint`.
use trade_bot.Prelude.{
  ◌-◌, Bool, true, false, not, ◌&&◌, Option, none, some, List, [], ◌∷◌, ◌++◌, String, pos, negsuc,
  sorted_set, if◌then◌else◌,
}
use trade_bot.Prelude.Decimal.{
  Decimal, finite, dec_zero, add, sub, mul, div, neg, dec_max, dec_lt, dec_le,
}
use trade_bot.Prelude.Json.{Json}
use trade_bot.Prelude.Action.{Result, ok, err}
use trade_bot.Domain.{OrderIntent, Side, buy, sell, is_buy, validate_intent, not_nonnegative}
use trade_bot.Oms.Events.{intent_material}
use trade_bot.Risk.Context.{
  RiskEvaluationMode, RiskLimits, RiskContext, AnyContext, context_for_mode, moment_of, refuse_any,
}

pub record RiskDecision : Type 0 where
  pub approved : Bool
  pub reasons : List String
  pub order_notional : Decimal
  pub projected_symbol_notional : Decimal
  pub projected_gross_notional : Decimal
  pub intent_id : String
  pub intent_fingerprint : String

-- `not reasons`
abbrev pub is_nil : List String → Bool
is_nil [] = true
is_nil (r ∷ rs) = false

-- `if test: reasons.append(reason)`, one after the other.
unfoldable pub failures : List (Bool × String) → List String
failures [] = []
failures ((failed, reason) ∷ rest) =
    let more = failures rest in if failed then reason ∷ more else more

-- `Decimal(str((decision_time - price_timestamp).total_seconds()))`, which is the exact number of
-- seconds while the difference is below 10 ^ 9 seconds.
abbrev pub age_seconds : RiskContext → Decimal
age_seconds c = finite (pos (moment_of c.decision_time - moment_of c.price_timestamp)) (negsuc 5)

module _ (l : RiskLimits) (side : Side) (order projected_symbol : Decimal) where
  abbrev pub cash_check : Option Decimal → List (Bool × String)
  cash_check none = []
  cash_check (some cash) = (is_buy side && dec_lt cash order, "INSUFFICIENT_AVAILABLE_CASH") ∷ []

  abbrev pub liquidity_check : Option Decimal → List (Bool × String)
  liquidity_check none = []
  liquidity_check (some volume) =
      (
        dec_lt l.maximum_liquidity_participation_fraction (div order volume),
        "LIQUIDITY_PARTICIPATION_EXCEEDED",
      )
      ∷ []

  abbrev pub projected_sector : Decimal → Decimal
  projected_sector sector =
      if is_buy side then add sector order else dec_max dec_zero (sub sector order)

  abbrev pub sector_check : Decimal → Option Decimal → List (Bool × String)
  sector_check equity none = []
  sector_check equity (some sector) =
      (
        dec_lt l.maximum_sector_fraction_of_equity (div (projected_sector sector) equity),
        "SECTOR_CONCENTRATION_EXCEEDED",
      )
      ∷ []

  abbrev pub equity_check : Option Decimal → Option Decimal → List (Bool × String)
  equity_check none sector = []
  equity_check (some equity) sector =
      (
        dec_lt l.maximum_position_fraction_of_equity (div projected_symbol equity),
        "POSITION_CONCENTRATION_EXCEEDED",
      )
      ∷ sector_check equity sector

  abbrev pub volatility_check : Option Decimal → List (Bool × String)
  volatility_check none = []
  volatility_check (some v) =
      (dec_lt l.maximum_annualized_volatility v, "VOLATILITY_LIMIT_EXCEEDED") ∷ []

  -- The tests that stand under `if effective_context is not None`.
  abbrev pub context_checks : Option RiskContext → List (Bool × String)
  context_checks none = []
  context_checks (some c) =
      (dec_lt l.maximum_price_age_seconds (age_seconds c), "STALE_PRICE")
        ∷ (not c.market_open, "MARKET_CLOSED")
        ∷ (c.is_halted, "INSTRUMENT_HALTED")
        ∷ (dec_lt l.maximum_spread_bps c.spread_bps, "SPREAD_LIMIT_EXCEEDED")
        ∷ (dec_lt l.maximum_slippage_bps c.estimated_slippage_bps, "SLIPPAGE_LIMIT_EXCEEDED")
        ∷ (dec_le c.daily_pnl (neg l.maximum_daily_loss), "DAILY_LOSS_LIMIT_REACHED")
        ∷ (dec_le l.maximum_drawdown c.drawdown, "DRAWDOWN_LIMIT_REACHED")
        ∷ (
          dec_lt l.maximum_turnover_notional (add c.turnover_notional order),
          "TURNOVER_LIMIT_EXCEEDED",
        )
        ∷ cash_check c.available_cash
      ++ liquidity_check c.average_daily_dollar_volume
      ++ equity_check c.portfolio_equity c.sector_notional
      ++ volatility_check c.annualized_volatility

  abbrev pub limit_checks : Bool → Decimal → List (Bool × String)
  limit_checks kill_switch projected_gross =
      (kill_switch, "KILL_SWITCH_ENGAGED")
      ∷ (dec_lt l.maximum_order_notional order, "ORDER_NOTIONAL_LIMIT_EXCEEDED")
      ∷ (dec_lt l.maximum_symbol_notional projected_symbol, "SYMBOL_NOTIONAL_LIMIT_EXCEEDED")
      ∷ (dec_lt l.maximum_gross_notional projected_gross, "GROSS_NOTIONAL_LIMIT_EXCEEDED")
      ∷ []

abbrev pub order_notional : OrderIntent → Decimal
order_notional i = mul i.quantity i.limit_price

-- All the tests of `evaluate`, in the order of the code.
abbrev pub all_checks :
    RiskLimits → OrderIntent → Decimal → Decimal → Bool → Option RiskContext → List (Bool × String)
all_checks l i projected_symbol projected_gross kill_switch c =
    limit_checks l i.side (order_notional i) projected_symbol kill_switch projected_gross
    ++ context_checks l i.side (order_notional i) projected_symbol c

module _ (digest : Json → String) where
  -- The material is that of `_intent_fingerprint` of the OMS. The callers have validated the intent.
  unfoldable pub risk_intent_fingerprint : OrderIntent → String
  risk_intent_fingerprint i = digest (intent_material i)

  abbrev pub oversold : OrderIntent → Decimal → Decimal → RiskDecision
  oversold i symbol_notional gross_notional = record {
    approved = false;
    reasons = "SELL_EXCEEDS_CURRENT_LONG_EXPOSURE" ∷ [];
    order_notional = order_notional i;
    projected_symbol_notional = symbol_notional;
    projected_gross_notional = gross_notional;
    intent_id = i.intent_id;
    intent_fingerprint = risk_intent_fingerprint i;
  }

  abbrev pub decide :
      RiskLimits → OrderIntent → Decimal → Decimal → Bool → Option RiskContext → RiskDecision
  decide l i projected_symbol projected_gross kill_switch c =
      let reasons = failures (all_checks l i projected_symbol projected_gross kill_switch c) in
      record {
        approved = is_nil reasons;
        reasons = sorted_set reasons;
        order_notional = order_notional i;
        projected_symbol_notional = projected_symbol;
        projected_gross_notional = projected_gross;
        intent_id = i.intent_id;
        intent_fingerprint = risk_intent_fingerprint i;
      }

  -- The part of `evaluate` that follows the validations.
  unfoldable pub evaluate_side :
      RiskLimits → OrderIntent → Decimal → Decimal → Bool → Option RiskContext → RiskDecision
  evaluate_side l i symbol_notional gross_notional kill_switch c =
      let order = order_notional i in
      elim i.side [
        | buy ↦ decide l i (add symbol_notional order) (add gross_notional order) kill_switch c
        | sell ↦
            if dec_lt symbol_notional order
            then oversold i symbol_notional gross_notional
            else decide l i (sub symbol_notional order)
                (dec_max dec_zero (sub gross_notional order)) kill_switch c
      ]

  unfoldable pub evaluate :
      RiskLimits
      → OrderIntent
      → RiskEvaluationMode
      → Decimal
      → Decimal
      → Bool
      → AnyContext
      → Result RiskDecision
  evaluate l i mode symbol_notional gross_notional kill_switch context = elim (validate_intent i) [
    | err e ↦ err e
    | ok _ ↦ elim (context_for_mode mode context) [
      | err e ↦ err e
      | ok c ↦
          elim (refuse_any not_nonnegative " must be finite and non-negative" (
            ("current_symbol_notional", symbol_notional)
            ∷ ("current_gross_notional", gross_notional)
            ∷ [])) [
              | err e ↦ err e
              | ok _ ↦ ok (evaluate_side l i symbol_notional gross_notional kill_switch c)
            ]
    ]
  ]
