-- ===== src/Risk/Prepare.antt =====
-- What `PaperOrderLifecycle.prepare` of app/application/order_lifecycle.py does to the store.
use trade_bot.Prelude.{
  false, ◌⊎◌, inl, inr, Option, none, some, String, ◌≡◌, refl, arith, str_eq, Bool-cases,
  str_append,
}
use trade_bot.Prelude.Json.{Json}
use trade_bot.Prelude.Clock.{Datetime}
use trade_bot.Prelude.Action.{Action, ok, err, Error, ◌>>=◌, Result-cases, Given-cases}
use trade_bot.Prelude.Preserves.{Preserves, bind-Preserves}
use trade_bot.Domain.{OrderIntent, validate_intent}
use trade_bot.Oms.State.{created, risk_approved, state_eq}
use trade_bot.Oms.Tables.{Oms, OrderRecord}
use trade_bot.Oms.Orders.{create}
use trade_bot.Oms.Steps.{create-Step, approve_risk-Step, enqueue_submit-Step}
use trade_bot.Oms.Soundness.{IsSound, Step-IsSound}
use trade_bot.Risk.Reservation.{RiskReservationBudget}
use trade_bot.Risk.Engine.{RiskDecision, risk_intent_fingerprint}
use trade_bot.Risk.Lifecycle.{
  Reserve, validate_risk_approval, approve_created, approve_step, enqueue_step, prepared,
  open_order, prepare, client_order_id,
}

-- The method keeps a sound store sound, whether it returns or raises.
abbrev Keeps : {A : Type 0} → Action Oms A → Type 0
Keeps m = Preserves IsSound m

-- The reservation method, where there is one, keeps a sound store sound.
abbrev pub ReserveKeeps : Reserve → Type 0
ReserveKeeps none = Unit
ReserveKeeps (some f) =
    (i e : String) (t : Datetime) (b : RiskReservationBudget) → Keeps (f i e t b)

-- The decision does not approve, or it is of another intent.
abbrev IsUnbound : String → OrderIntent → RiskDecision → Type 0
IsUnbound fingerprint i d =
    (d.approved ≡ false)
    ⊎ (str_eq d.intent_id i.intent_id ≡ false)
    ⊎ (str_eq d.intent_fingerprint fingerprint ≡ false)

module _ (digest : Json → String) where
  not_accepted :
      (i : OrderIntent) (d : RiskDecision)
      → IsUnbound (risk_intent_fingerprint digest i) i d
      → validate_risk_approval digest i d ≡ ok tt
      → ⊥
  unfolding validate_risk_approval
  not_accepted i d (inl h) valid = ground arith
  not_accepted i d (inr (inl h)) valid = ground arith
  not_accepted i d (inr (inr h)) valid = ground arith

  -- A decision that does not approve, that names another intent, or that bears another fingerprint
  -- than this intent's, is refused: `prepare` raises and the store is as it was.
  pub unbound_refused :
      (sha : String → String) (namespace : String) (reserve : Reserve) (i : OrderIntent)
      (d : RiskDecision) (t : Datetime) (budget : Option RiskReservationBudget) (s : Oms)
      → IsUnbound (risk_intent_fingerprint digest i) i d
      → (e : Error) × (prepare digest sha namespace reserve i d t budget s ≡ (err e, s))
  unfolding prepare
  unbound_refused sha namespace reserve i d t budget s unbound =
      elim (Result-cases (validate_risk_approval digest i d)) [
        | inl valid ↦ absurd (not_accepted i d unbound valid)
        | inr (e, refused) ↦ elim (Result-cases (validate_intent i)) [
          | inl fine ↦ (e, rw (fine, refused) refl)
          | inr (e', bad) ↦ (e', rw bad refl)
        ]
      ]

  approve_created-Keeps :
      (reserve : Reserve)
      → ReserveKeeps reserve
      → (i : OrderIntent) (t : Datetime) (budget : Option RiskReservationBudget) (r : OrderRecord)
      → Keeps (approve_created digest reserve i t budget r)
  approve_created-Keeps reserve keeps i t none r s h =
      Step-IsSound (approve_risk-Step digest i.intent_id (str_append "risk:" i.intent_id) t s) h
  approve_created-Keeps none keeps i t (some b) r s h = h
  approve_created-Keeps (some f) keeps i t (some b) r s h =
      keeps i.intent_id (str_append "risk:" i.intent_id) t b s h

  approve_step-Keeps :
      (reserve : Reserve)
      → ReserveKeeps reserve
      → (i : OrderIntent) (t : Datetime) (budget : Option RiskReservationBudget) (r : OrderRecord)
      → Keeps (approve_step digest reserve i t budget r)
  approve_step-Keeps reserve keeps i t budget r s h = elim (Bool-cases (state_eq r.state created)) [
    | inr other ↦ rw other h
    | inl new ↦ rw new (approve_created-Keeps reserve keeps i t budget r s h)
  ]

  enqueue_step-Keeps :
      (i : OrderIntent) (t : Datetime) (r : OrderRecord) → Keeps (enqueue_step digest i t r)
  enqueue_step-Keeps i t r s h = elim (Bool-cases (state_eq r.state risk_approved)) [
    | inr other ↦ rw other h
    | inl approved ↦ rw approved (
        Step-IsSound (enqueue_submit-Step digest i.intent_id (str_append "outbox:" i.intent_id) t s)
          h)
  ]

  prepared-Keeps : (client : String) (r : OrderRecord) → Keeps (prepared digest client r)
  prepared-Keeps client r s h = ground arith

  open_order-Keeps :
      (reserve : Reserve)
      → ReserveKeeps reserve
      → (client : String) (i : OrderIntent) (t : Datetime) (budget : Option RiskReservationBudget)
      → Keeps (open_order digest client reserve i t budget)
  unfolding open_order
  open_order-Keeps reserve keeps client i t budget =
      bind-Preserves IsSound (create digest i client (some t))
        (λ opened. approve_step digest reserve i t budget opened >>= λ approved.
          enqueue_step digest i t approved >>= prepared digest client)
        (λ s h. Step-IsSound (create-Step digest i client (some t) s) h)
        (λ opened.
          bind-Preserves IsSound (approve_step digest reserve i t budget opened)
            (λ approved. enqueue_step digest i t approved >>= prepared digest client)
            (approve_step-Keeps reserve keeps i t budget opened)
            (λ approved.
              bind-Preserves IsSound (enqueue_step digest i t approved) (prepared digest client)
                (enqueue_step-Keeps i t approved) (prepared-Keeps client)))

  -- With any reservation method that keeps the invariant.
  pub prepare_reserving-IsSound :
      (reserve : Reserve)
      → ReserveKeeps reserve
      → (sha : String → String) (namespace : String) (i : OrderIntent) (d : RiskDecision)
        (t : Datetime) (budget : Option RiskReservationBudget) (s : Oms)
      → IsSound s
      → IsSound (prepare digest sha namespace reserve i d t budget s).1
  unfolding prepare
  prepare_reserving-IsSound reserve keeps sha namespace i d t budget s h =
      elim (Result-cases (validate_intent i)) [
        | inr (e, bad) ↦ rw bad h
        | inl fine ↦ elim (Result-cases (validate_risk_approval digest i d)) [
          | inr (e, refused) ↦ rw (fine, refused) h
          | inl valid ↦ elim (Given-cases (client_order_id digest sha namespace i)) [
            | inr (e, bad) ↦ rw (fine, valid, bad) h
            | inl (client, named) ↦
                rw (fine, valid, named) (open_order-Keeps reserve keeps client i t budget s h)
          ]
        ]
      ]

  -- On a store without risk reservations, `prepare` keeps the invariant of the store, whatever it
  -- is given and whether it returns or raises.
  pub prepare-IsSound :
      (sha : String → String) (namespace : String) (i : OrderIntent) (d : RiskDecision)
      (t : Datetime) (budget : Option RiskReservationBudget) (s : Oms)
      → IsSound s
      → IsSound (prepare digest sha namespace none i d t budget s).1
  prepare-IsSound = prepare_reserving-IsSound none tt
