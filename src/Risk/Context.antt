-- ===== src/Risk/Context.antt =====
-- app/risk/pretrade.py: `RiskLimits`, `RiskContext`, `OperationalRiskContext` and their validation.
use trade_bot.Prelude.{
  ℕ, Bool, not, ◌||◌, Option, none, some, List, [], ◌∷◌, String, str_append, str_eq, strip,
  is_blank, is_uppercase, ltb, pos,
}
use trade_bot.Prelude.Decimal.{Decimal, finite, is_finite, dec_lt}
use trade_bot.Prelude.Clock.{Datetime, aware, naive, is_aware}
use trade_bot.Prelude.Action.{Result, ok, err, value_error}
use trade_bot.Domain.{not_positive, not_nonnegative, refuse, ◌else_check◌}

-- The first value of a table of names and values that fails a test is refused.
abbrev pub refuse_any : (Decimal → Bool) → String → List (String × Decimal) → Result (Unit {0})
refuse_any bad message [] = ok tt
refuse_any bad message ((name, value) ∷ rest) =
    refuse (bad value) (str_append name message) else_check refuse_any bad message rest

-- The same, over values that may not be supplied.
abbrev pub refuse_supplied :
    (Decimal → Bool) → String → List (String × Option Decimal) → Result (Unit {0})
refuse_supplied bad message [] = ok tt
refuse_supplied bad message ((name, none) ∷ rest) = refuse_supplied bad message rest
refuse_supplied bad message ((name, some value) ∷ rest) =
    refuse (bad value) (str_append name message) else_check refuse_supplied bad message rest

-- `_validate_mark_prices`; for an ASCII symbol, `symbol.strip().upper() == symbol` is the two tests.
unfoldable pub validate_mark_prices : List (String × Decimal) → Result (Unit {0})
validate_mark_prices [] = ok tt
validate_mark_prices ((symbol, price) ∷ rest) =
    refuse (is_blank symbol || not (str_eq (strip symbol) symbol) || not (is_uppercase symbol))
      "portfolio mark symbols must be normalized uppercase"
    else_check refuse (not_positive price)
        (str_append "portfolio mark price must be positive and finite: " symbol)
    else_check validate_mark_prices rest

pub data RiskEvaluationMode : Type 0 where
  replay operational : RiskEvaluationMode

pub record RiskLimits : Type 0 where
  pub maximum_order_notional : Decimal
  pub maximum_symbol_notional : Decimal
  pub maximum_gross_notional : Decimal
  pub maximum_price_age_seconds : Decimal
  pub maximum_spread_bps : Decimal
  pub maximum_slippage_bps : Decimal
  pub maximum_daily_loss : Decimal
  pub maximum_drawdown : Decimal
  pub maximum_turnover_notional : Decimal
  pub maximum_liquidity_participation_fraction : Decimal
  pub maximum_position_fraction_of_equity : Decimal
  pub maximum_sector_fraction_of_equity : Decimal
  pub maximum_annualized_volatility : Decimal

-- `not value.is_finite() or value <= 0 or value > 1`
abbrev bad_fraction : Decimal → Bool
bad_fraction d = not_positive d || dec_lt (finite (pos 1) (pos 0)) d

unfoldable pub validate_limits : RiskLimits → Result (Unit {0})
validate_limits l =
    refuse_any not_positive " must be positive and finite" (
      ("maximum_order_notional", l.maximum_order_notional)
      ∷ ("maximum_symbol_notional", l.maximum_symbol_notional)
      ∷ ("maximum_gross_notional", l.maximum_gross_notional)
      ∷ ("maximum_price_age_seconds", l.maximum_price_age_seconds)
      ∷ ("maximum_spread_bps", l.maximum_spread_bps)
      ∷ ("maximum_slippage_bps", l.maximum_slippage_bps)
      ∷ ("maximum_daily_loss", l.maximum_daily_loss)
      ∷ ("maximum_drawdown", l.maximum_drawdown)
      ∷ ("maximum_turnover_notional", l.maximum_turnover_notional)
      ∷ ("maximum_annualized_volatility", l.maximum_annualized_volatility)
      ∷ [])
    else_check refuse_any bad_fraction " must be within (0, 1]" (
        ("maximum_liquidity_participation_fraction", l.maximum_liquidity_participation_fraction)
        ∷ ("maximum_position_fraction_of_equity", l.maximum_position_fraction_of_equity)
        ∷ ("maximum_sector_fraction_of_equity", l.maximum_sector_fraction_of_equity)
        ∷ [])

pub record RiskContext : Type 0 where
  pub price_timestamp : Datetime
  pub decision_time : Datetime
  pub market_open : Bool
  pub is_halted : Bool
  pub spread_bps : Decimal
  pub estimated_slippage_bps : Decimal
  pub daily_pnl : Decimal
  pub drawdown : Decimal
  pub turnover_notional : Decimal
  pub average_daily_dollar_volume : Option Decimal
  pub portfolio_equity : Option Decimal
  pub sector_notional : Option Decimal
  pub annualized_volatility : Option Decimal
  pub available_cash : Option Decimal
  pub portfolio_mark_prices : Option (List (String × Decimal))

-- The instant of an aware time; the tests before it refuse a naive one.
abbrev pub moment_of : Datetime → ℕ
moment_of (aware t) = t
moment_of (naive t) = t

abbrev validate_marks : Option (List (String × Decimal)) → Result (Unit {0})
validate_marks none = ok tt
validate_marks (some prices) = validate_mark_prices prices

unfoldable pub validate_context : RiskContext → Result (Unit {0})
validate_context c =
    refuse (not (is_aware c.price_timestamp)) "price_timestamp must be timezone-aware"
    else_check refuse (not (is_aware c.decision_time)) "decision_time must be timezone-aware"
    else_check refuse (ltb (moment_of c.decision_time) (moment_of c.price_timestamp))
        "price_timestamp cannot be in the future"
    else_check refuse_any not_nonnegative " must be finite and non-negative" (
        ("spread_bps", c.spread_bps)
        ∷ ("estimated_slippage_bps", c.estimated_slippage_bps)
        ∷ ("drawdown", c.drawdown)
        ∷ ("turnover_notional", c.turnover_notional)
        ∷ [])
    else_check refuse (not (is_finite c.daily_pnl)) "daily_pnl must be finite"
    else_check refuse_supplied not_positive " must be positive and finite when supplied" (
        ("average_daily_dollar_volume", c.average_daily_dollar_volume)
        ∷ ("portfolio_equity", c.portfolio_equity)
        ∷ [])
    else_check refuse_supplied not_nonnegative " must be finite and non-negative when supplied" (
        ("sector_notional", c.sector_notional)
        ∷ ("annualized_volatility", c.annualized_volatility)
        ∷ ("available_cash", c.available_cash)
        ∷ [])
    else_check validate_marks c.portfolio_mark_prices

pub record OperationalRiskContext : Type 0 where
  pub price_timestamp : Datetime
  pub decision_time : Datetime
  pub market_open : Bool
  pub is_halted : Bool
  pub spread_bps : Decimal
  pub estimated_slippage_bps : Decimal
  pub daily_pnl : Decimal
  pub drawdown : Decimal
  pub turnover_notional : Decimal
  pub average_daily_dollar_volume : Decimal
  pub portfolio_equity : Decimal
  pub sector_notional : Decimal
  pub annualized_volatility : Decimal
  pub available_cash : Decimal
  pub portfolio_mark_prices : List (String × Decimal)

abbrev pub as_context : OperationalRiskContext → RiskContext
as_context o = record {
  price_timestamp = o.price_timestamp;
  decision_time = o.decision_time;
  market_open = o.market_open;
  is_halted = o.is_halted;
  spread_bps = o.spread_bps;
  estimated_slippage_bps = o.estimated_slippage_bps;
  daily_pnl = o.daily_pnl;
  drawdown = o.drawdown;
  turnover_notional = o.turnover_notional;
  average_daily_dollar_volume = some o.average_daily_dollar_volume;
  portfolio_equity = some o.portfolio_equity;
  sector_notional = some o.sector_notional;
  annualized_volatility = some o.annualized_volatility;
  available_cash = some o.available_cash;
  portfolio_mark_prices = some o.portfolio_mark_prices;
}

-- `to_risk_context`
abbrev pub to_risk_context : OperationalRiskContext → Result RiskContext
to_risk_context o = elim (validate_context (as_context o)) [
  | ok _ ↦ ok (as_context o)
  | err e ↦ err e
]

abbrev pub validate_operational : OperationalRiskContext → Result (Unit {0})
validate_operational o =
    validate_mark_prices o.portfolio_mark_prices else_check validate_context (as_context o)

-- The context argument: `None`, or one of the two types.
pub data AnyContext : Type 0 where
  no_context : AnyContext
  replay_context : RiskContext → AnyContext
  operational_context : OperationalRiskContext → AnyContext

abbrev from_operational : OperationalRiskContext → Result (Option RiskContext)
from_operational o = elim (validate_operational o) [
  | err e ↦ err e
  | ok _ ↦ elim (to_risk_context o) [ ok c ↦ ok (some c) | err e ↦ err e ]
]

-- `_context_for_mode`
unfoldable pub context_for_mode : RiskEvaluationMode → AnyContext → Result (Option RiskContext)
context_for_mode operational (operational_context o) = from_operational o
context_for_mode operational _ = err (value_error "OPERATIONAL_RISK_CONTEXT_REQUIRED")
context_for_mode replay no_context = ok none
context_for_mode replay (operational_context o) = from_operational o
context_for_mode replay (replay_context c) = elim (validate_context c) [
  | ok _ ↦ ok (some c)
  | err e ↦ err e
]
