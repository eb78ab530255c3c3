-- ===== src/Risk/Lifecycle.antt =====
-- app/application/order_lifecycle.py: `PaperOrderLifecycle`, on the store of app/oms/store.py.
use trade_bot.Prelude.{
  ℕ, zero, suc, not, ◌||◌, if◌then◌else◌, Option, none, some, [], ◌∷◌, String, str_append, str_eq,
  is_blank,
}
use trade_bot.Prelude.Decimal.{dec_eq}
use trade_bot.Prelude.Json.{Json}
use trade_bot.Prelude.Clock.{Datetime}
use trade_bot.Prelude.Action.{
  Action, Result, ok, err, value_error, runtime_error, ◌>>=◌, ◌>>◌, pure, raise, raise_if, lift,
}
use trade_bot.Domain.{OrderIntent, validate_intent, refuse, ◌else_check◌}
use trade_bot.Oms.State.{
  created, risk_approved, rejected, cancelled, filled, manual, state_eq, state_value,
  contains_state,
}
use trade_bot.Oms.Tables.{Oms, OrderRecord}
use trade_bot.Oms.Orders.{create, approve_risk, enqueue_submit}
use trade_bot.Risk.Reservation.{RiskReservationBudget}
use trade_bot.Risk.Engine.{RiskDecision, order_notional, risk_intent_fingerprint}

-- `approve_risk_with_reservation` of the store, where it has that method.
abbrev pub Reserve : Type 0
Reserve = Option (String → String → Datetime → RiskReservationBudget → Action Oms OrderRecord)

pub record PreparedPaperOrder : Type 0 where
  pub order : OrderRecord
  pub client_order_id : String

-- `text[:n]`
abbrev first_of : ℕ → String → String
first_of n String.[] = String.[]
first_of zero (String.◌∷◌ c s) = String.[]
first_of (suc n) (String.◌∷◌ c s) = String.◌∷◌ c (first_of n s)

module _ (digest : Json → String) where
  -- `_validate_risk_approval`
  unfoldable pub validate_risk_approval : OrderIntent → RiskDecision → Result (Unit {0})
  validate_risk_approval i d =
      refuse (not d.approved) "RISK_NOT_APPROVED"
      else_check refuse (is_blank d.intent_id || is_blank d.intent_fingerprint)
          "RISK_APPROVAL_NOT_BOUND"
      else_check refuse (not (str_eq d.intent_id i.intent_id)) "RISK_APPROVAL_INTENT_MISMATCH"
      else_check refuse (not (dec_eq d.order_notional (order_notional i)))
          "RISK_APPROVAL_ECONOMICS_MISMATCH"
      else_check refuse (not (str_eq d.intent_fingerprint (risk_intent_fingerprint digest i)))
          "RISK_APPROVAL_INTENT_MISMATCH"

  abbrev pub approve_created :
      Reserve
      → OrderIntent
      → Datetime
      → Option RiskReservationBudget
      → OrderRecord
      → Action Oms OrderRecord
  approve_created reserve i t none r =
      approve_risk digest i.intent_id (str_append "risk:" i.intent_id) t
  approve_created none i t (some budget) r =
      raise (runtime_error "OMS_RISK_RESERVATION_UNSUPPORTED")
  approve_created (some reserve) i t (some budget) r =
      reserve i.intent_id (str_append "risk:" i.intent_id) t budget

  -- `if record.state is OrderState.CREATED`
  abbrev pub approve_step :
      Reserve
      → OrderIntent
      → Datetime
      → Option RiskReservationBudget
      → OrderRecord
      → Action Oms OrderRecord
  approve_step reserve i t budget r =
      if state_eq r.state created then approve_created reserve i t budget r else pure r

  -- `if record.state is OrderState.RISK_APPROVED`
  abbrev pub enqueue_step : OrderIntent → Datetime → OrderRecord → Action Oms OrderRecord
  enqueue_step i t r =
      if state_eq r.state risk_approved
      then enqueue_submit digest i.intent_id (str_append "outbox:" i.intent_id) t
      else pure r

  abbrev pub prepared : String → OrderRecord → Action Oms PreparedPaperOrder
  prepared client r = do
    raise_if (contains_state r.state (rejected ∷ cancelled ∷ filled ∷ manual ∷ []))
        (value_error (str_append "ORDER_NOT_PREPARABLE:" (state_value r.state)))
    pure (record { order = r; client_order_id = client })

  -- `prepare`, once the client's id is made.
  unfoldable pub open_order :
      String
      → Reserve
      → OrderIntent
      → Datetime
      → Option RiskReservationBudget
      → Action Oms PreparedPaperOrder
  open_order client reserve i t budget = do
    opened ← create digest i client (some t)
    approved ← approve_step reserve i t budget opened
    queued ← enqueue_step i t approved
    prepared client queued

  -- `client_order_id`; `sha` is the hexadecimal SHA-256 of a text, and `namespace` is stripped and
  -- in lower case, as `__init__` stores it.
  unfoldable pub client_order_id : (String → String) → String → OrderIntent → Result String
  client_order_id sha namespace i = elim (validate_intent i) [
    | err e ↦ err e
    | ok _ ↦
        let name = str_append namespace (str_append "|" i.intent_id) in
        ok (str_append namespace (str_append "-" (first_of 32 (sha name))))
  ]

  unfoldable pub prepare :
      (String → String)
      → String
      → Reserve
      → OrderIntent
      → RiskDecision
      → Datetime
      → Option RiskReservationBudget
      → Action Oms PreparedPaperOrder
  prepare sha namespace reserve i d t budget = do
    lift (validate_intent i)
    lift (validate_risk_approval i d)
    client ← lift (client_order_id sha namespace i)
    open_order client reserve i t budget
