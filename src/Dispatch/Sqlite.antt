-- ===== src/Dispatch/Sqlite.antt =====
-- app/runtime/paper_dispatch_control.py: `SQLitePaperDispatchControlStore`.
use trade_bot.Prelude.{ℕ, ◌+◌, none, some, List, [], ◌∷◌, String, ℤ, pos_part, sorted_set}
use trade_bot.Prelude.Json.{Json}
use trade_bot.Prelude.Clock.{Datetime}
use trade_bot.Prelude.Action.{
  Action, Result, ok, err, dispatch_blocked, ◌>>=◌, ◌>>◌, pure, gets, modify, lift, transaction,
}
use trade_bot.Dispatch.Control.{
  halted, armed, arm_event, halt_event, dispatch_authorized, ControlState, Authorization,
  ControlStore, load_current, aware_utc, normalized_text, validate_ttl, assert_armed,
  append_control_event, control_event, control_event_id, arm_payload, halt_payload,
  authorize_payload,
}

-- The row that `_initialize` inserts.
abbrev pub initial_row : ControlState
initial_row = record {
  mode = halted;
  version = 1;
  operator_id = "system:migration";
  reason = "CONTROL_NOT_ARMED";
  armed_until = none;
  updated_at = some 62135596800000000;
}

-- `INSERT OR IGNORE` of `_initialize`.
unfoldable pub initialize : ControlStore → ControlStore
initialize s = elim s.row [ none ↦ record s { row = some initial_row } | some r ↦ s ]

-- UPDATE … WHERE singleton=1 changes nothing where there is no row.
abbrev pub update_row : ControlState → ControlStore → ControlStore
update_row new s = elim s.row [ none ↦ s | some r ↦ record s { row = some new } ]

abbrev pub armed_row : ℕ → String → String → ℕ → ℕ → ControlState
armed_row version operator reason armed_until moment = record {
  mode = armed;
  version = version;
  operator_id = operator;
  reason = reason;
  armed_until = some armed_until;
  updated_at = some moment;
}

abbrev pub halted_row : ℕ → String → String → ℕ → ControlState
halted_row version operator reason moment = record {
  mode = halted;
  version = version;
  operator_id = operator;
  reason = reason;
  armed_until = none;
  updated_at = some moment;
}

-- `if readiness_reasons: raise DispatchBlocked(tuple(readiness_reasons))`
abbrev pub check_readiness : List String → Result (Unit {0})
check_readiness [] = ok tt
check_readiness (r ∷ rs) = err (dispatch_blocked (sorted_set (r ∷ rs)))

module _ (digest : Json → String) where
  abbrev pub record_arm : ℕ → String → String → ℕ → ℕ → ControlStore → ControlStore
  record_arm version operator reason armed_until moment =
      append_control_event (
        control_event digest arm_event version none moment
          (arm_payload operator reason armed_until))

  abbrev pub record_halt : ℕ → String → String → ℕ → ControlStore → ControlStore
  record_halt version operator reason moment =
      append_control_event
        (control_event digest halt_event version none moment (halt_payload operator reason))

  unfoldable pub arm : String → String → Datetime → ℤ → Action ControlStore ControlState
  arm operator_id reason occurred_at ttl = do
    moment ← lift (aware_utc occurred_at "occurred_at")
    operator ← lift (normalized_text operator_id "operator_id" 128)
    normalized ← lift (normalized_text reason "reason" 1000)
    lift (validate_ttl ttl)
    let armed_until = moment + pos_part ttl
    transaction do
      current ← gets load_current
      let version = current.version + 1
      modify (update_row (armed_row version operator normalized armed_until moment))
      modify (record_arm version operator normalized armed_until moment)
      gets load_current

  unfoldable pub halt : String → String → Datetime → Action ControlStore ControlState
  halt operator_id reason occurred_at = do
    moment ← lift (aware_utc occurred_at "occurred_at")
    operator ← lift (normalized_text operator_id "operator_id" 128)
    normalized ← lift (normalized_text reason "reason" 1000)
    transaction do
      current ← gets load_current
      let version = current.version + 1
      modify (update_row (halted_row version operator normalized moment))
      modify (record_halt version operator normalized moment)
      gets load_current

  abbrev pub authorization : String → ℕ → ℕ → Authorization
  authorization intent version moment = record {
    event_id =
        control_event_id digest dispatch_authorized version (some intent) moment
          (authorize_payload intent version);
    intent_id = intent;
    control_version = version;
    occurred_at = moment;
  }

  abbrev pub record_authorization : String → ℕ → ℕ → ControlStore → ControlStore
  record_authorization intent version moment = append_control_event (
      control_event digest dispatch_authorized version (some intent) moment
        (authorize_payload intent version))

  unfoldable pub authorize : String → Datetime → List String → Action ControlStore Authorization
  authorize intent_id occurred_at readiness_reasons = do
    moment ← lift (aware_utc occurred_at "occurred_at")
    intent ← lift (normalized_text intent_id "intent_id" 256)
    lift (check_readiness readiness_reasons)
    transaction do
      current ← gets load_current
      lift (assert_armed current moment)
      modify (record_authorization intent current.version moment)
      pure (authorization intent current.version moment)
