-- ===== src/Oms/State.antt =====
-- app/oms/store.py: `OrderState`, `_TERMINAL`, `_ALLOWED` and `_validate_transition`.
use trade_bot.Prelude.{
  ℕ, Bool, false, List, [], ◌∷◌, String, ◌==◌, ◌||◌, ◌&&◌, str_append, if◌then◌else◌,
}
use trade_bot.Prelude.Action.{Result, ok, err, value_error}

pub data OrderState : Type 0 where
  created risk_approved outboxed submit_started acknowledged partially_filled filled : OrderState
  cancel_requested cancelled rejected uncertain reconciling reconciled manual : OrderState

-- The member's value, a text of the enumeration.
abbrev pub state_value : OrderState → String
state_value created = "CREATED"
state_value risk_approved = "RISK_APPROVED"
state_value outboxed = "OUTBOXED"
state_value submit_started = "SUBMIT_STARTED"
state_value acknowledged = "ACKNOWLEDGED"
state_value partially_filled = "PARTIALLY_FILLED"
state_value filled = "FILLED"
state_value cancel_requested = "CANCEL_REQUESTED"
state_value cancelled = "CANCELLED"
state_value rejected = "REJECTED"
state_value uncertain = "UNCERTAIN"
state_value reconciling = "RECONCILING"
state_value reconciled = "RECONCILED"
state_value manual = "MANUAL"

abbrev state_number : OrderState → ℕ
state_number created = 0
state_number risk_approved = 1
state_number outboxed = 2
state_number submit_started = 3
state_number acknowledged = 4
state_number partially_filled = 5
state_number filled = 6
state_number cancel_requested = 7
state_number cancelled = 8
state_number rejected = 9
state_number uncertain = 10
state_number reconciling = 11
state_number reconciled = 12
state_number manual = 13

abbrev pub state_eq : OrderState → OrderState → Bool
state_eq s t = state_number s == state_number t

-- `state in states`
abbrev pub contains_state : OrderState → List OrderState → Bool
contains_state s [] = false
contains_state s (t ∷ ts) = state_eq s t || contains_state s ts

abbrev pub terminal_states : List OrderState
terminal_states = filled ∷ cancelled ∷ rejected ∷ []

abbrev pub allowed : OrderState → List OrderState
allowed created = risk_approved ∷ rejected ∷ []
allowed risk_approved = outboxed ∷ []
allowed outboxed = submit_started ∷ []
allowed submit_started = acknowledged ∷ rejected ∷ uncertain ∷ []
allowed acknowledged = partially_filled ∷ filled ∷ cancel_requested ∷ cancelled ∷ uncertain ∷ []
allowed partially_filled = partially_filled ∷ filled ∷ cancel_requested ∷ cancelled ∷ uncertain ∷ []
allowed cancel_requested = cancelled ∷ partially_filled ∷ filled ∷ uncertain ∷ []
allowed uncertain = reconciling ∷ manual ∷ []
allowed reconciling = reconciled ∷ manual ∷ []
allowed reconciled = acknowledged ∷ partially_filled ∷ filled ∷ cancelled ∷ rejected ∷ manual ∷ []
allowed manual = []
allowed filled = []
allowed cancelled = []
allowed rejected = []

unfoldable pub validate_transition : OrderState → OrderState → Result (Unit {0})
validate_transition current target =
    if state_eq target current && state_eq current partially_filled
    then ok tt
    else if contains_state target (allowed current)
    then ok tt
    else err (
        value_error (
          str_append "invalid OMS transition: "
            (str_append (state_value current) (str_append "->" (state_value target)))))
