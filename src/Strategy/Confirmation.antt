-- ===== src/Strategy/Confirmation.antt =====
-- What the re-entry rule of app/strategy/reentry_confirmation.py says over a run of bars.
use trade_bot.Prelude.{ℕ, suc, ◌+◌, ◌<◌, Bool, true, false, ◌&&◌, List, [], ◌∷◌, ◌≡◌, arith, leb}
use trade_bot.Prelude.Action.{Result, ok, err}
use trade_bot.Strategy.Reentry.{
  ReentryConfirmationPolicy, ReentryConfirmationState, ReentryConfirmationDecision, validate_policy,
  validate_state, blocked, decide, arm_after_exit, evaluate_reentry_confirmation,
}

-- How many signals were eligible without a break, the last signal first.
abbrev pub streak_of : List Bool → ℕ
streak_of [] = 0
streak_of (true ∷ signals) = suc (streak_of signals)
streak_of (false ∷ signals) = 0

-- No run of `minimum` eligible signals so far.
abbrev pub Unconfirmed : ℕ → List Bool → Type 0
Unconfirmed minimum [] = Unit
Unconfirmed minimum (b ∷ signals) =
    (streak_of (b ∷ signals) < minimum) × Unconfirmed minimum signals

abbrev pub decide_after :
    ReentryConfirmationPolicy
    → Bool
    → Result ReentryConfirmationState
    → Result ReentryConfirmationDecision
decide_after p b (err e) = err e
decide_after p b (ok s) = evaluate_reentry_confirmation b s p

abbrev pub state_of : Result ReentryConfirmationDecision → Result ReentryConfirmationState
state_of (err e) = err e
state_of (ok d) = ok d.state

-- The state that the signals since an exit lead to, the last signal first.
unfoldable pub after_exit : ReentryConfirmationPolicy → List Bool → Result ReentryConfirmationState
after_exit p [] = arm_after_exit p
after_exit p (b ∷ signals) = state_of (decide_after p b (after_exit p signals))

after_exit_lem :
    (p : ReentryConfirmationPolicy) (signals : List Bool)
    → validate_policy p ≡ ok tt
    → Unconfirmed p.minimum_consecutive_eligible_bars signals
    → after_exit p signals ≡ ok (blocked (streak_of signals))
unfolding after_exit arm_after_exit evaluate_reentry_confirmation validate_state
after_exit_lem p [] valid h = ground arith
after_exit_lem p (true ∷ signals) valid h = rw (after_exit_lem p signals valid h.1) (ground arith)
after_exit_lem p (false ∷ signals) valid h = rw (after_exit_lem p signals valid h.1) (ground arith)

-- After an exit, and while no run of `minimum` eligible signals has come, a valid policy allows an
-- entry exactly when this signal is eligible and completes such a run.
pub entry_confirmed :
    (p : ReentryConfirmationPolicy) (signals : List Bool) (b : Bool)
    → validate_policy p ≡ ok tt
    → Unconfirmed p.minimum_consecutive_eligible_bars signals
    → (d : ReentryConfirmationDecision) × (decide_after p b (after_exit p signals) ≡ ok d)
      × (d.allow_entry ≡ (b && leb p.minimum_consecutive_eligible_bars (streak_of signals + 1)))
unfolding evaluate_reentry_confirmation validate_state
entry_confirmed p signals b valid h = (
  decide b (blocked (streak_of signals)) p,
  rw (after_exit_lem p signals valid h) (ground arith),
  ground arith,
)
