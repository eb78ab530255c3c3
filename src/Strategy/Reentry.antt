-- ===== src/Strategy/Reentry.antt =====
-- app/strategy/reentry_confirmation.py: no entry after an exit until enough bars confirm it.
use trade_bot.Prelude.{
  ℕ, ◌+◌, Bool, true, false, not, Option, none, some, ltb, if◌then◌else◌, ◌==◌, ◌&&◌,
}
use trade_bot.Prelude.Action.{Result, ok, err}
use trade_bot.Domain.{refuse, ◌else_check◌}

pub data EntryBlockReason : Type 0 where
  reentry_confirmation_pending : EntryBlockReason

pub record ReentryConfirmationPolicy : Type 0 where
  pub minimum_consecutive_eligible_bars : ℕ
  pub initial_entry_requires_confirmation : Bool
  pub reset_streak_on_ineligible_signal : Bool
  pub apply_after_any_exit : Bool

unfoldable pub validate_policy : ReentryConfirmationPolicy → Result (Unit {0})
validate_policy p =
    refuse (ltb p.minimum_consecutive_eligible_bars 1)
      "minimum_consecutive_eligible_bars must be positive"
    else_check refuse p.initial_entry_requires_confirmation
        "initial-entry confirmation is not qualified in this policy"
    else_check refuse (not p.reset_streak_on_ineligible_signal)
        "re-entry confirmation must reset on ineligible signal"
    else_check refuse (not p.apply_after_any_exit) "re-entry confirmation must apply after any exit"

pub record ReentryConfirmationState : Type 0 where
  pub blocked_after_exit : Bool
  pub consecutive_eligible_bars : ℕ

-- A streak is a natural number here, so the test for a negative one is left out.
unfoldable pub validate_state : ReentryConfirmationState → Result (Unit {0})
validate_state s =
    refuse (not s.blocked_after_exit && not (s.consecutive_eligible_bars == 0))
      "unblocked re-entry state cannot retain confirmation streak"

pub record ReentryConfirmationDecision : Type 0 where
  pub allow_entry : Bool
  pub reason : Option EntryBlockReason
  pub confirmation_streak : ℕ
  pub state : ReentryConfirmationState

abbrev pub blocked : ℕ → ReentryConfirmationState
blocked streak = record { blocked_after_exit = true; consecutive_eligible_bars = streak }

abbrev pub clear_after_entry : ReentryConfirmationState
clear_after_entry = record { blocked_after_exit = false; consecutive_eligible_bars = 0 }

unfoldable pub arm_after_exit : ReentryConfirmationPolicy → Result ReentryConfirmationState
arm_after_exit p = elim (validate_policy p) [ ok _ ↦ ok (blocked 0) | err e ↦ err e ]

-- The decision on an eligible signal after an exit.
abbrev pub confirm : ℕ → ℕ → ReentryConfirmationDecision
confirm minimum streak =
    if ltb streak minimum
    then record {
      allow_entry = false;
      reason = some reentry_confirmation_pending;
      confirmation_streak = streak;
      state = blocked streak;
    }
    else record {
      allow_entry = true;
      reason = none;
      confirmation_streak = streak;
      state = clear_after_entry;
    }

-- The decision once the policy and the state are valid.
abbrev pub decide :
    Bool → ReentryConfirmationState → ReentryConfirmationPolicy → ReentryConfirmationDecision
decide signal_eligible s p =
    if not s.blocked_after_exit
    then record { allow_entry = signal_eligible; reason = none; confirmation_streak = 0; state = s }
    else if not signal_eligible
    then record { allow_entry = false; reason = none; confirmation_streak = 0; state = blocked 0 }
    else confirm p.minimum_consecutive_eligible_bars (s.consecutive_eligible_bars + 1)

unfoldable pub evaluate_reentry_confirmation :
    Bool → ReentryConfirmationState → ReentryConfirmationPolicy → Result ReentryConfirmationDecision
evaluate_reentry_confirmation signal_eligible s p =
    elim (validate_policy p else_check validate_state s) [
      | err e ↦ err e
      | ok _ ↦ ok (decide signal_eligible s p)
    ]
