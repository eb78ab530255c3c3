-- ===== src/Strategy/Exit.antt =====
-- app/strategy/position_management.py: when a held position is left, at the close of a bar.
use trade_bot.Prelude.{
  ℕ, ◌-◌, Bool, true, false, ◌||◌, ◌&&◌, Option, none, some, [], ◌∷◌, ltb, leb, pos, if◌then◌else◌,
}
use trade_bot.Prelude.Decimal.{Decimal, finite, dec_zero, dec_le, dec_max, sub, div, neg}
use trade_bot.Prelude.Action.{Result, ok, err}
use trade_bot.Domain.{refuse, ◌else_check◌, not_positive, not_nonnegative}
use trade_bot.Risk.Context.{refuse_any}

pub data ExitReason : Type 0 where
  signal_exit stop_loss take_profit trailing_stop time_stop : ExitReason

-- The number of bars is a natural number.
pub record PositionManagementPolicy : Type 0 where
  pub stop_loss_fraction : Decimal
  pub take_profit_fraction : Decimal
  pub trailing_activation_fraction : Decimal
  pub trailing_stop_fraction : Decimal
  pub maximum_holding_bars : ℕ

abbrev pub dec_one : Decimal
dec_one = finite (pos 1) (pos 0)

-- `not value.is_finite() or value < 0 or value >= 1`
abbrev pub bad_fraction : Decimal → Bool
bad_fraction d = not_nonnegative d || dec_le dec_one d

unfoldable pub validate_management : PositionManagementPolicy → Result (Unit {0})
validate_management p =
    refuse_any bad_fraction " must be finite and within [0, 1)" (
      ("stop_loss_fraction", p.stop_loss_fraction)
      ∷ ("take_profit_fraction", p.take_profit_fraction)
      ∷ ("trailing_activation_fraction", p.trailing_activation_fraction)
      ∷ ("trailing_stop_fraction", p.trailing_stop_fraction)
      ∷ [])
    else_check refuse (dec_le p.stop_loss_fraction dec_zero) "stop_loss_fraction must be positive"
    else_check refuse (dec_le p.take_profit_fraction dec_zero)
        "take_profit_fraction must be positive"
    else_check refuse (dec_le p.trailing_stop_fraction dec_zero)
        "trailing_stop_fraction must be positive"
    else_check refuse (ltb p.maximum_holding_bars 1) "maximum_holding_bars must be positive"

pub record PositionTrackingState : Type 0 where
  pub entry_execution_index : ℕ
  pub peak_reference_price : Decimal

unfoldable pub validate_tracking : PositionTrackingState → Result (Unit {0})
validate_tracking s =
    refuse (not_positive s.peak_reference_price) "peak_reference_price must be positive and finite"

pub record PositionExitDecision : Type 0 where
  pub exit_now : Bool
  pub reason : Option ExitReason
  pub profit_fraction : Decimal
  pub drawdown_from_peak_fraction : Decimal
  pub peak_reference_price : Decimal

abbrev pub is_some : Option ExitReason → Bool
is_some none = false
is_some (some r) = true

-- `(value - base) / base`
abbrev pub fraction_above : Decimal → Decimal → Decimal
fraction_above value base = div (sub value base) base

-- The first reason that holds, in the order of the code.
abbrev pub exit_reason :
    PositionManagementPolicy → Decimal → Decimal → Decimal → ℕ → Option ExitReason
exit_reason p profit peak_profit drawdown holding_bars =
    if dec_le profit (neg p.stop_loss_fraction)
    then some stop_loss
    else if dec_le p.take_profit_fraction profit
    then some take_profit
    else if dec_le p.trailing_activation_fraction peak_profit
        && dec_le p.trailing_stop_fraction drawdown
    then some trailing_stop
    else if leb p.maximum_holding_bars holding_bars
    then some time_stop
    else none

unfoldable pub exit_decision :
    Decimal → Decimal → PositionTrackingState → ℕ → PositionManagementPolicy → PositionExitDecision
exit_decision cost price s index p =
    let peak = dec_max s.peak_reference_price price in
    let profit = fraction_above price cost in
    let drawdown = div (sub peak price) peak in
    let reason =
      exit_reason p profit (fraction_above peak cost) drawdown (index - s.entry_execution_index) in
    record {
      exit_now = is_some reason;
      reason = reason;
      profit_fraction = profit;
      drawdown_from_peak_fraction = drawdown;
      peak_reference_price = peak;
    }

unfoldable pub evaluate_position_exit :
    Decimal
    → Decimal
    → PositionTrackingState
    → ℕ
    → PositionManagementPolicy
    → Result PositionExitDecision
evaluate_position_exit average_cost reference_price s current_execution_index p =
    elim (validate_management p
      else_check validate_tracking s
      else_check refuse (not_positive average_cost) "average_cost must be positive and finite"
      else_check refuse (not_positive reference_price) "reference_price must be positive and finite"
      else_check refuse (ltb current_execution_index s.entry_execution_index)
          "current_execution_index precedes position entry") [
            | err e ↦ err e
            | ok _ ↦ ok (exit_decision average_cost reference_price s current_execution_index p)
          ]
