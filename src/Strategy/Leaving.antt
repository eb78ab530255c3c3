-- ===== src/Strategy/Leaving.antt =====
-- When the close-of-bar rule of app/strategy/position_management.py leaves a position.
use trade_bot.Prelude.{ℕ, ◌+◌, ◌≤◌, true, false, ◌≡◌, arith}
use trade_bot.Prelude.Decimal.{Decimal}
use trade_bot.Prelude.Action.{ok}
use trade_bot.Domain.{not_positive}
use trade_bot.Strategy.Exit.{
  PositionManagementPolicy, PositionTrackingState, PositionExitDecision, evaluate_position_exit,
  exit_decision, validate_management, validate_tracking,
}

-- No position is kept past its time: with valid arguments the rule returns a decision, and at the
-- maximum of bars or later that decision is to leave, whatever the prices were.
pub time_stop_leaves :
    (cost price : Decimal) (s : PositionTrackingState) (index : ℕ) (p : PositionManagementPolicy)
    → validate_management p ≡ ok tt
    → validate_tracking s ≡ ok tt
    → not_positive cost ≡ false
    → not_positive price ≡ false
    → s.entry_execution_index + p.maximum_holding_bars ≤ index
    → (d : PositionExitDecision) × (evaluate_position_exit cost price s index p ≡ ok d)
      × (d.exit_now ≡ true)
unfolding evaluate_position_exit exit_decision
time_stop_leaves cost price s index p valid tracked hc hp late =
    (exit_decision cost price s index p, ground arith, ground arith)
