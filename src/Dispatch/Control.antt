-- ===== src/Dispatch/Control.antt =====
-- app/runtime/paper_dispatch_control.py: the control state, its checks and its events, which the
-- SQLite and the PostgreSQL store share. `digest` is SHA-256, in hexadecimal, of a JSON text.
use Prim.Native.String.{count}
use trade_bot.Prelude.{
  ℕ, Bool, true, false, not, ◌&&◌, ◌||◌, Option, none, some, List, [], ◌∷◌, ◌++◌, String,
  str_append, strip, is_empty, ℤ, pos, leb_ℤ, ltb_ℤ, ltb, leb, if◌then◌else◌, str_eq,
}
use trade_bot.Prelude.Json.{Json, null, number, text, moment_text, array, object, nil, end, field}
use trade_bot.Prelude.Clock.{Datetime, to_utc, seconds}
use trade_bot.Prelude.Action.{Result, ok, err, value_error, dispatch_blocked}

pub data Mode : Type 0 where
  halted armed : Mode

pub data EventKind : Type 0 where
  arm_event halt_event dispatch_authorized : EventKind

abbrev pub mode_value : Mode → String
mode_value halted = "HALTED"
mode_value armed = "ARMED"

abbrev pub kind_value : EventKind → String
kind_value arm_event = "ARM"
kind_value halt_event = "HALT"
kind_value dispatch_authorized = "DISPATCH_AUTHORIZED"

pub record ControlState : Type 0 where
  pub mode : Mode
  pub version : ℕ
  pub operator_id : String
  pub reason : String
  pub armed_until : Option ℕ
  pub updated_at : Option ℕ

pub record Authorization : Type 0 where
  pub event_id : String
  pub intent_id : String
  pub control_version : ℕ
  pub occurred_at : ℕ

-- A row of the table of control events.
pub record ControlEvent : Type 0 where
  pub event_id : String
  pub event_type : EventKind
  pub intent_id : Option String
  pub control_version : ℕ
  pub payload : Json
  pub occurred_at : ℕ

-- The two tables: the single row of the state, where it is there, and the journal.
pub record ControlStore : Type 0 where
  pub row : Option ControlState
  pub journal : List ControlEvent

abbrev pub is_armed : Mode → Bool
is_armed armed = true
is_armed halted = false

-- `armed_until is not None and moment <= armed_until`
abbrev pub in_time : Option ℕ → ℕ → Bool
in_time none moment = false
in_time (some t) moment = leb moment t

-- `DispatchControlState.allows_new_entry`
unfoldable pub allows_new_entry : ControlState → Datetime → Result Bool
allows_new_entry s occurred_at = elim (to_utc occurred_at "occurred_at must be timezone-aware") [
  | ok moment ↦ ok (is_armed s.mode && in_time s.armed_until moment)
  | err e ↦ err e
]

abbrev pub implicit_halt : ControlState
implicit_halt = record {
  mode = halted;
  version = 0;
  operator_id = "system";
  reason = "CONTROL_NOT_ARMED";
  armed_until = none;
  updated_at = none;
}

-- `_load_current`
abbrev pub load_current : ControlStore → ControlState
load_current s = elim s.row [ none ↦ implicit_halt | some r ↦ r ]

abbrev pub aware_utc : Datetime → String → Result ℕ
aware_utc value label = to_utc value (str_append label " must be timezone-aware")

-- `_text`
unfoldable pub normalized_text : String → String → ℕ → Result String
normalized_text value label maximum =
    let normalized = strip value in
    if is_empty normalized
    then err (value_error (str_append label " is required"))
    else if ltb maximum (count normalized)
    then err (value_error (str_append label " is too long"))
    else ok normalized

-- Five minutes.
abbrev pub max_arm_ttl : ℕ
max_arm_ttl = seconds 300

unfoldable pub validate_ttl : ℤ → Result (Unit {0})
validate_ttl ttl =
    if leb_ℤ ttl (pos 0) || ltb_ℤ (pos max_arm_ttl) ttl
    then err (value_error "dispatch ARM ttl must be within (0, 300] seconds")
    else ok tt

unfoldable pub assert_armed : ControlState → ℕ → Result (Unit {0})
assert_armed s moment =
    if not (is_armed s.mode)
    then err (dispatch_blocked ("DISPATCH_CONTROL_HALTED" ∷ []))
    else if not (in_time s.armed_until moment)
    then err (dispatch_blocked ("DISPATCH_CONTROL_EXPIRED" ∷ []))
    else ok tt

abbrev text_or_null : Option String → Json
text_or_null none = null
text_or_null (some s) = text s

abbrev control_material : EventKind → ℕ → Option String → ℕ → Json → Json
control_material kind version intent_id occurred_at payload = object (
    field "kind" (text (kind_value kind)) (
      field "version" (number version) (
        field "intent_id" (text_or_null intent_id)
          (field "occurred_at" (moment_text occurred_at) (field "payload" payload end)))))

unfoldable pub control_event_id :
    (Json → String) → EventKind → ℕ → Option String → ℕ → Json → String
control_event_id digest kind version intent_id occurred_at payload =
    digest (control_material kind version intent_id occurred_at payload)

abbrev pub find_control_event : String → List ControlEvent → Bool
find_control_event e [] = false
find_control_event e (r ∷ rs) = str_eq r.event_id e || find_control_event e rs

-- `_append_event`: a row whose id is taken is ignored.
unfoldable pub append_control_event : ControlEvent → ControlStore → ControlStore
append_control_event e s =
    if find_control_event e.event_id s.journal
    then s
    else record s { journal = s.journal ++ e ∷ [] }

abbrev pub control_event : (Json → String) → EventKind → ℕ → Option String → ℕ → Json → ControlEvent
control_event digest kind version intent_id moment payload = record {
  event_id = control_event_id digest kind version intent_id moment payload;
  event_type = kind;
  intent_id = intent_id;
  control_version = version;
  payload = payload;
  occurred_at = moment;
}

abbrev pub arm_payload : String → String → ℕ → Json
arm_payload operator reason armed_until = object (
    field "mode" (text (mode_value armed)) (
      field "operator_id" (text operator)
        (field "reason" (text reason) (field "armed_until" (moment_text armed_until) end))))

abbrev pub halt_payload : String → String → Json
halt_payload operator reason = object (
    field "mode" (text (mode_value halted))
      (field "operator_id" (text operator) (field "reason" (text reason) end)))

abbrev pub authorize_payload : String → ℕ → Json
authorize_payload intent version = object (
    field "intent_id" (text intent)
      (field "control_version" (number version) (field "readiness_reasons" (array nil) end)))
