-- ===== src/Dispatch/Postgres.antt =====
-- app/runtime/paper_dispatch_control.py: `PostgresPaperDispatchControlStore`. The advisory lock
-- makes its transactions follow one another; the state's row is inserted where it is missing.
use trade_bot.Prelude.{◌+◌, some, List, String, ℤ, pos_part}
use trade_bot.Prelude.Json.{Json}
use trade_bot.Prelude.Clock.{Datetime}
use trade_bot.Prelude.Action.{Action, ◌>>=◌, ◌>>◌, pure, gets, modify, lift, transaction}
use trade_bot.Dispatch.Control.{
  ControlState, Authorization, ControlStore, load_current, aware_utc, normalized_text, validate_ttl,
  assert_armed,
}
use trade_bot.Dispatch.Sqlite.{
  armed_row, halted_row, check_readiness, record_arm, record_halt, record_authorization,
  authorization,
}

-- INSERT … ON CONFLICT (singleton) DO UPDATE
abbrev pub upsert_row : ControlState → ControlStore → ControlStore
upsert_row new s = record s { row = some new }

module _ (digest : Json → String) where
  unfoldable pub arm : String → String → Datetime → ℤ → Action ControlStore ControlState
  arm operator_id reason occurred_at ttl = do
    moment ← lift (aware_utc occurred_at "occurred_at")
    operator ← lift (normalized_text operator_id "operator_id" 128)
    normalized ← lift (normalized_text reason "reason" 1000)
    lift (validate_ttl ttl)
    let armed_until = moment + pos_part ttl
    transaction do
      current ← gets load_current
      let version = current.version + 1
      modify (upsert_row (armed_row version operator normalized armed_until moment))
      modify (record_arm digest version operator normalized armed_until moment)
      gets load_current

  unfoldable pub halt : String → String → Datetime → Action ControlStore ControlState
  halt operator_id reason occurred_at = do
    moment ← lift (aware_utc occurred_at "occurred_at")
    operator ← lift (normalized_text operator_id "operator_id" 128)
    normalized ← lift (normalized_text reason "reason" 1000)
    transaction do
      current ← gets load_current
      let version = current.version + 1
      modify (upsert_row (halted_row version operator normalized moment))
      modify (record_halt digest version operator normalized moment)
      gets load_current

  unfoldable pub authorize : String → Datetime → List String → Action ControlStore Authorization
  authorize intent_id occurred_at readiness_reasons = do
    moment ← lift (aware_utc occurred_at "occurred_at")
    intent ← lift (normalized_text intent_id "intent_id" 256)
    lift (check_readiness readiness_reasons)
    transaction do
      current ← gets load_current
      lift (assert_armed current moment)
      modify (record_authorization digest intent current.version moment)
      pure (authorization digest intent current.version moment)
