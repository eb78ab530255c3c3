-- ===== src/Amendments/Late.antt =====
-- app/execution/order_mutation_executor.py: a cancel in `_resolve_truth` whose order was filled before
-- the broker reports it as cancelled.
use trade_bot.Prelude.{
  ℕ, Bool, true, false, ◌&&◌, ◌||◌, not, str_eq, ◌≡◌, refl, arith, inl, inr, if◌then◌else◌,
  Bool-cases,
}
use trade_bot.Prelude.Decimal.{dec_le}
use trade_bot.Prelude.Action.{Action, ok}
use trade_bot.Oms.State as State
use trade_bot.Oms.State.{state_eq}
use trade_bot.Oms.Tables.{OrderRecord}
use trade_bot.Mutations.Tables.{MutationState, cancel, kind_eq, Mutation}
use trade_bot.Execution.Broker.{BrokerOrder, BrokerOrderStatus, is_cancelled, is_filled}
use trade_bot.Amendments.World.{Setting, Desk}
use trade_bot.Amendments.Truth.{
  MutationExecutionResult, adopt_fill, fail_mutation, after_cancelled, resolve_status,
  resolve_cancel,
}
use trade_bot.Amendments.Verdict.{is_failed, fail_mutation-Resolves}

-- The mutation is a cancel of an order that is FILLED, with no less than the report says, and the
-- report is CANCELLED under the id that was to be cancelled.
abbrev pub cancels_too_late : Mutation → BrokerOrder → OrderRecord → Bool
cancels_too_late m o r =
    kind_eq m.kind cancel
    && str_eq o.broker_order_id m.broker_order_id
    && is_cancelled o.status
    && state_eq r.state State.filled
    && dec_le o.filled_quantity r.filled_quantity

abbrev pub fails_too_late : Mutation → BrokerOrder → OrderRecord → MutationState → Bool
fails_too_late m o r s = not (cancels_too_late m o r) || is_failed s

cancelled_not_filled : (s : BrokerOrderStatus) → is_cancelled s ≡ true → is_filled s ≡ false
cancelled_not_filled s h = ground arith

module _ {E : Type 0} (setting : Setting E) (m : Mutation) (o : BrokerOrder) where
  too_late_fails :
      (r : OrderRecord) (t : ℕ) (ambiguous : Bool) (w : Desk E)
      → cancels_too_late m o r ≡ true
      → resolve_cancel setting m o r t ambiguous w
        ≡ fail_mutation setting m r "CANCELLED_WITH_FULL_FILL" t ambiguous w
  unfolding resolve_cancel resolve_status adopt_fill after_cancelled
  too_late_fails r t ambiguous w late = ground (arith, cancelled_not_filled o.status)

  too_late-is_failed :
      (r : OrderRecord) (t : ℕ) (ambiguous : Bool) (w : Desk E) (x : MutationExecutionResult)
      → cancels_too_late m o r ≡ true
      → (resolve_cancel setting m o r t ambiguous w).0 ≡ ok x
      → is_failed x.mutation.state ≡ true
  too_late-is_failed r t ambiguous w x late h =
      (fail_mutation-Resolves setting is_failed m r "CANCELLED_WITH_FULL_FILL" t ambiguous refl).at
        w x (rw (too_late_fails r t ambiguous w late) at h)

  pub chosen-fails_too_late :
      (r : OrderRecord) (t : ℕ) (ambiguous : Bool) (w : Desk E) (x : MutationExecutionResult)
      (other : Action (Desk E) MutationExecutionResult)
      → ((if kind_eq m.kind cancel then resolve_cancel setting m o r t ambiguous else other) w).0
        ≡ ok x
      → fails_too_late m o r x.mutation.state ≡ true
  chosen-fails_too_late r t ambiguous w x other h = elim (Bool-cases (cancels_too_late m o r)) [
    | inr early ↦ rw early refl
    | inl late ↦
        let kind : kind_eq m.kind cancel ≡ true = ground arith in
        rw (late, too_late-is_failed r t ambiguous w x late (rw kind at h)) refl
  ]
