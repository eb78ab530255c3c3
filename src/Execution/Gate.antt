-- ===== src/Execution/Gate.antt =====
-- When `execute` of app/execution/paper_executor.py holds an order back.
use trade_bot.Prelude.{
  ℕ, ltb, Bool, true, ◌||◌, some, String, Bool-cases, ◌≡◌, refl, arith, inl, inr,
}
use trade_bot.Prelude.Clock.{Datetime, aware, naive}
use trade_bot.Prelude.Action.{err, Error, value_error, runtime_error, ◌>>=◌, bind_err, Result-cases}
use trade_bot.Domain.{is_buy}
use trade_bot.Oms.State.{OrderState, outboxed, state_eq}
use trade_bot.Oms.Tables.{OrderRecord, OutboxRow, get}
use trade_bot.Execution.World.{Texts, Outside, World, attempt}
use trade_bot.Execution.Submit.{
  validate_submit_message, open_fact_count, open_checkpoint_count, execution_convergence_gate,
  before_claim, claim, after_claim, execute_outboxed, execute,
}

-- An execution is not accounted for yet, or a checkpoint is unresolved.
abbrev pub has_not_converged : {E : Type 0} → World E → Bool
has_not_converged w = ltb 0 (open_fact_count w.facts) || ltb 0 (open_checkpoint_count w.checkpoints)

is_outboxed : (s : OrderState) → s ≡ outboxed → state_eq s outboxed ≡ true
is_outboxed s h = ground arith

module _ {E : Type 0} (texts : Texts) (shared : Bool) (outside : Outside E) (grace : ℕ) where
  buy_not_claimed :
      (r : OrderRecord) (m : OutboxRow) (t : ℕ) (w : World E)
      → is_buy r.side ≡ true
      → has_not_converged w ≡ true
      → (e : Error) × (before_claim texts shared outside grace r m t w ≡ (err e, w))
  unfolding before_claim execution_convergence_gate
  buy_not_claimed r m t w bought open_ = elim (Result-cases (validate_submit_message r m)) [
    | inr (e, bad) ↦ (e, ground arith)
    | inl fine ↦ (runtime_error "EXECUTION_ACCOUNTING_NOT_CONVERGED", ground arith)
  ]

  buy_not_executed :
      (r : OrderRecord) (m : OutboxRow) (token : String) (t : ℕ) (w : World E)
      → is_buy r.side ≡ true
      → has_not_converged w ≡ true
      → (e : Error) × (execute_outboxed texts shared outside grace r m token t w ≡ (err e, w))
  unfolding execute_outboxed
  buy_not_executed r m token t w bought open_ =
      let (e, held) = buy_not_claimed r m t w bought open_ in
      (
        e,
        bind_err (before_claim texts shared outside grace r m t)
            (λ _. attempt (claim texts shared outside grace r m token t) >>= λ claimed.
              after_claim texts shared outside grace m t claimed)
            w w e held,
      )

  -- A buy that waits in the outbox is not executed while an exact execution is not accounted for or a
  -- checkpoint is unresolved: the call raises, and the stores, the broker and the log of submissions
  -- are as they were.
  pub buy_held_back :
      (m : OutboxRow) (token : String) (t : Datetime) (w : World E) (r : OrderRecord)
      → get m.intent_id w.oms ≡ some r
      → r.state ≡ outboxed
      → is_buy r.side ≡ true
      → has_not_converged w ≡ true
      → (e : Error) × (execute texts shared outside grace m token t w ≡ (err e, w))
  unfolding execute
  buy_held_back m token (naive t) w r found state bought open_ =
      (value_error "occurred_at must be timezone-aware", refl)
  buy_held_back m token (aware t) w r found state bought open_ =
      elim (Bool-cases (outside.writes_enabled w.outside)) [
        | inr off ↦ (value_error "PAPER_ORDER_WRITES_DISABLED", rw (found, off) refl)
        | inl on ↦
            let (e, held) = buy_not_executed r m token t w bought open_ in
            (e, rw (found, on, is_outboxed r.state state) held)
      ]
