-- ===== src/Strategy/Tests.antt =====
-- A position held over some bars, and the theorems on app/strategy at it.
use trade_bot.Prelude.{
  ℕ, String, List, true, false, some, [], ◌∷◌, ◌≡◌, refl, pos, negsuc, leb, is_blank, is_uppercase,
  strip, upper, number_text, ◌||◌, ◌&&◌, ◌+◌, arith,
}
use trade_bot.Prelude.Decimal.{finite, dec_lt, dec_le, dec_eq, dec_max, dec_abs, add, sub, mul, div}
use trade_bot.Prelude.Clock.{aware, Datetime}
use trade_bot.Prelude.Action.{ok}
use trade_bot.Domain.{Bar, validate_bar, validate_fill}
use trade_bot.Oms.Tests.{units}
use trade_bot.Portfolio.Ledger.{Ledger, position, apply_fill, bought_position}
use trade_bot.Portfolio.Valuation.{equity, gross_notional, sum_positions, valid_price}
use trade_bot.Strategy.Momentum.{MomentumStrategy, target, validate_bars, sort_bars, split_latest}
use trade_bot.Strategy.Backtest.{BacktestConfig, Progress, rounds, round, trade, opened_progress}
use trade_bot.Strategy.Lookahead.{decided_before_bar}
use trade_bot.Strategy.Reentry.{
  ReentryConfirmationPolicy, ReentryConfirmationDecision, validate_policy,
}
use trade_bot.Strategy.Confirmation.{after_exit, decide_after, streak_of, entry_confirmed}
use trade_bot.Strategy.Exit.{PositionManagementPolicy, validate_management}
use trade_bot.Strategy.Intrabar.{
  OhlcvBar, IntrabarPositionState, IntrabarExitDecision, validate_ohlcv, validate_intrabar,
  is_market_symbol, hard_stop_price, take_profit_price, trailing_stop_price, intrabar_decision,
  evaluate_long_intrabar_exit,
}
use trade_bot.Strategy.Bounds.{IsWithin, stop_of, exit_at_most_high, leaves_when_touched}

abbrev reentry : ReentryConfirmationPolicy
reentry = record {
  minimum_consecutive_eligible_bars = 3;
  initial_entry_requires_confirmation = false;
  reset_streak_on_ineligible_signal = true;
  apply_after_any_exit = true;
}

-- The third eligible signal after a break completes the run.
entry_confirmed_example :
    (d : ReentryConfirmationDecision) × (decide_after reentry true
        (after_exit reentry (true ∷ true ∷ false ∷ true ∷ []))
      ≡ ok d)
    × (d.allow_entry ≡ (
        true
        && leb reentry.minimum_consecutive_eligible_bars
            (streak_of (true ∷ true ∷ false ∷ true ∷ []) + 1)))
unfolding validate_policy
entry_confirmed_example =
    entry_confirmed reentry (true ∷ true ∷ false ∷ true ∷ []) true refl
      (omega arith, (omega arith, (omega arith, (omega arith, tt))))

abbrev management : PositionManagementPolicy
management = record {
  stop_loss_fraction = finite (pos 5) (negsuc 1);
  take_profit_fraction = finite (pos 10) (negsuc 1);
  trailing_activation_fraction = finite (pos 4) (negsuc 1);
  trailing_stop_fraction = finite (pos 3) (negsuc 1);
  maximum_holding_bars = 5;
}

-- A bar that reaches both the stop at 95 and the target at 110.
abbrev wide_bar : OhlcvBar
wide_bar = record {
  symbol = "BTC-USD";
  timestamp = aware 100;
  open_price = units 101;
  high = units 111;
  low = units 94;
  close = units 105;
  volume = pos 1000;
  trade_count = pos 10;
  vwap = some (units 102);
}

abbrev held : IntrabarPositionState
held = record { peak_completed_price = units 102 }

abbrev stopped : IntrabarExitDecision
stopped =
    intrabar_decision wide_bar held (hard_stop_price (units 100) management)
      (take_profit_price (units 100) management) (trailing_stop_price (units 100) held management)
      (stop_of (units 100) held management).0 (stop_of (units 100) held management).1

evaluated_stopped : evaluate_long_intrabar_exit (units 100) wide_bar held management ≡ ok stopped
unfolding evaluate_long_intrabar_exit validate_management validate_intrabar validate_ohlcv
    is_market_symbol dec_lt dec_eq dec_max
evaluated_stopped = refl

exit_at_most_high_example : IsWithin wide_bar stopped.exit_price_before_costs
exit_at_most_high_example =
    exit_at_most_high (units 100) wide_bar held management stopped evaluated_stopped

leaves_when_touched_example : stopped.exit_now ≡ (
    dec_le wide_bar.low (stop_of (units 100) held management).0
    || dec_le (take_profit_price (units 100) management) wide_bar.high)
leaves_when_touched_example =
    leaves_when_touched (units 100) wide_bar held management stopped evaluated_stopped

abbrev day_bar : ℕ → ℕ → Bar
day_bar day price = record { symbol = "BTC"; timestamp = aware day; close = units price }

abbrev four_days : List Bar
four_days = day_bar 1 100 ∷ day_bar 2 101 ∷ day_bar 3 103 ∷ day_bar 4 104 ∷ []

abbrev three_days : List Bar
three_days = day_bar 1 100 ∷ day_bar 2 101 ∷ day_bar 3 103 ∷ []

abbrev other_fourth : List Bar
other_fourth = day_bar 1 100 ∷ day_bar 2 101 ∷ day_bar 3 103 ∷ day_bar 4 50 ∷ []

abbrev momentum : MomentumStrategy
momentum = record { strategy_id = "m"; target_quantity = units 1 }

abbrev config : BacktestConfig
config = record {
  opening_cash = units 1000;
  fee_per_fill = units 1;
  slippage_bps = units 10;
  minimum_history_bars = 3;
}

abbrev opening : Ledger
opening = record {
  opening_cash = units 1000;
  cash = units 1000;
  realized_pnl = units 0;
  cash_income = units 0;
  fees_paid = units 0;
  external_cash_flow = units 0;
  positions = [];
  fill_ids = [];
  corporate_action_ids = [];
  cash_adjustment_ids = [];
}

abbrev no_text : Datetime → String
no_text t = "t"

abbrev started : Progress
started = opened_progress no_text momentum config opening

decided_before_bar_example :
    (rounds no_text momentum config 1 3 four_days started).1.trades
    ≡ (rounds no_text momentum config 1 3 other_fourth started).1.trades
unfolding rounds round trade target validate_bar validate_bars sort_bars split_latest position
    apply_fill bought_position equity gross_notional sum_positions valid_price validate_fill dec_lt
    dec_eq dec_max dec_abs add sub mul div is_blank is_uppercase strip upper number_text
decided_before_bar_example =
    decided_before_bar no_text momentum config 0 3 three_days [] [] (day_bar 4 104) (day_bar 4 50)
      started (omega arith) refl refl

-- The rule buys on the fourth day, at the close with the slippage and the fee.
bought_then :
    (rounds no_text momentum config 1 3 four_days started).1.ledger.cash
    ≡ finite (pos 894896) (negsuc 2)
unfolding rounds round trade target validate_bar validate_bars sort_bars split_latest position
    apply_fill bought_position equity gross_notional sum_positions valid_price validate_fill dec_lt
    dec_eq dec_max dec_abs add sub mul div is_blank is_uppercase strip upper number_text
bought_then = refl
