-- ===== src/Oms/Atomic.antt =====
-- A method of app/oms/store.py that raises leaves the database as it was.
use trade_bot.Prelude.{
  ℕ, Option, none, some, [], ◌∷◌, String, ◌≡◌, refl, arith, inl, inr, Option-cases, Bool-cases,
  true, false, str_eq_refl, is_blank,
}
use trade_bot.Prelude.Decimal.{Decimal}
use trade_bot.Prelude.Json.{Json}
use trade_bot.Prelude.Action.{ok, err, Error, Result-cases}
use trade_bot.Prelude.Clock.{Datetime, aware, naive}
use trade_bot.Domain.{OrderIntent, validate_intent}
use trade_bot.Oms.State.{OrderState, risk_approved, outboxed}
use trade_bot.Oms.Tables.{Oms, OrderRow, find_order, find_event, identity_rows, get}
use trade_bot.Oms.Events.{append_event, intent_fingerprint, now}
use trade_bot.Oms.Orders.{
  create, transition, approve_risk, enqueue_submit, advance_row, resolve_broker_id, insert_outbox,
  or_else, new_row,
}
use trade_bot.Oms.Fills.{apply_cumulative_fill, fill_row, fill_target, validate_fill_target}
use trade_bot.Oms.Outbox.{mark_outbox_published}
use trade_bot.Oms.Lookup.{
  find_order-update_self, find_order-append_none, identity_rows-nil, no_row, one_row, more_rows,
  Rows-cases,
}
use trade_bot.Oms.Steps.{time_cases, refuses_fill}
use trade_bot.Oms.Calls.{
  Call, create_order, move, approve, enqueue, fill_order, mark_published, invoke,
}

module _ (digest : Json → String) where
  transition-Kept :
      (i : String) (target : OrderState) (e : String) (t : Datetime) (b : Option String)
      (p : Option Json) (s : Oms) {x : Error}
      → (transition digest i target e t b p s).0 ≡ err x
      → (transition digest i target e t b p s).1 ≡ s
  unfolding transition get append_event
  transition-Kept i target e (naive t) b p s h = refl
  transition-Kept i target e (aware t) b p s h = elim (Option-cases (find_order i s.orders)) [
    | inl missing ↦ ground arith
    | inr (r, found) ↦ elim (Option-cases (find_event e s.events)) [
      | inl fresh ↦ ground (
        arith,
        find_order-update_self i (advance_row target (resolve_broker_id b r.broker_order_id) t)
            s.orders {r = r} (λ x. refl) found,
      )
      | inr (x, taken) ↦ ground arith
    ]
  ]

  enqueue_submit-Kept :
      (i e : String) (t : Datetime) (s : Oms) {x : Error}
      → (enqueue_submit digest i e t s).0 ≡ err x
      → (enqueue_submit digest i e t s).1 ≡ s
  unfolding enqueue_submit get append_event insert_outbox
  enqueue_submit-Kept i e (naive t) s h = refl
  enqueue_submit-Kept i e (aware t) s h = elim (Option-cases (find_order i s.orders)) [
    | inl missing ↦ ground arith
    | inr (r, found) ↦ elim (Option-cases (find_event e s.events)) [
      | inl fresh ↦ ground (
        arith,
        find_order-update_self i (advance_row outboxed r.broker_order_id t) s.orders {r = r}
            (λ x. refl) found,
      )
      | inr (x, taken) ↦ ground arith
    ]
  ]

  approve_risk-Kept :
      (i e : String) (t : Datetime) (s : Oms) {x : Error}
      → (approve_risk digest i e t s).0 ≡ err x
      → (approve_risk digest i e t s).1 ≡ s
  unfolding approve_risk
  approve_risk-Kept i e t s h = transition-Kept i risk_approved e t none none s h

  -- A fill that every check accepts gives the order back.
  fill_accepted :
      (i e : String) (c : Decimal) (t : ℕ) (b : Option String) (s : Oms) (r : OrderRow)
      → find_order i s.orders ≡ some r
      → find_event e s.events ≡ none
      → refuses_fill c r.order ≡ false
      → validate_fill_target r.state (fill_target r.order c) ≡ ok tt
      → (apply_cumulative_fill digest i e c (aware t) b s).0
        ≡ ok (fill_row (fill_target r.order c) (resolve_broker_id b r.broker_order_id) c t r).order
  unfolding apply_cumulative_fill get append_event
  fill_accepted i e c t b s r found fresh sound good = ground (
    arith,
    find_order-update_self i
        (fill_row (fill_target r.order c) (resolve_broker_id b r.broker_order_id) c t) s.orders
        {r = r} (λ x. refl) found,
  )

  fill_refused :
      (i e : String) (c : Decimal) (t : ℕ) (b : Option String) (s : Oms) (r : OrderRow)
      → find_order i s.orders ≡ some r
      → refuses_fill c r.order ≡ true
      → (apply_cumulative_fill digest i e c (aware t) b s).1 ≡ s
  unfolding apply_cumulative_fill get append_event
  fill_refused i e c t b s r found refused = ground arith

  fill-Kept :
      (i e : String) (c : Decimal) (t : Datetime) (b : Option String) (s : Oms) {x : Error}
      → (apply_cumulative_fill digest i e c t b s).0 ≡ err x
      → (apply_cumulative_fill digest i e c t b s).1 ≡ s
  fill-Kept i e c (naive t) b s h = unfold apply_cumulative_fill in ground arith
  fill-Kept i e c (aware t) b s h = elim (Option-cases (find_order i s.orders)) [
    | inl missing ↦ unfold apply_cumulative_fill get in ground arith
    | inr (r, found) ↦ elim (Option-cases (find_event e s.events)) [
      | inl fresh ↦ elim (Bool-cases (refuses_fill c r.order)) [
        | inl refused ↦ fill_refused i e c t b s r found refused
        | inr sound ↦ elim (Result-cases (validate_fill_target r.state (fill_target r.order c))) [
          | inl good ↦ cc (fill_accepted i e c t b s r found fresh sound good)
          | inr (x, bad) ↦ unfold apply_cumulative_fill get append_event in ground arith
        ]
      ]
      | inr (x, taken) ↦ unfold apply_cumulative_fill get append_event in ground arith
    ]
  ]

  create_valid-Kept :
      (i : OrderIntent) (client : String) (t : Option Datetime) (m : ℕ) (s : Oms) {x : Error}
      → validate_intent i ≡ ok tt
      → now (or_else t i.created_at) ≡ ok m
      → is_blank client ≡ false
      → (create digest i client t s).0 ≡ err x
      → (create digest i client t s).1 ≡ s
  unfolding create get append_event
  create_valid-Kept i client t m s valid time named h =
      elim (Rows-cases (identity_rows i.intent_id client s.orders)) [
        | no_row none_there ↦ ground (
          arith,
          str_eq_refl i.intent_id,
          find_order-append_none i.intent_id s.orders
              (new_row i client (intent_fingerprint digest i) m ∷ [])
              (identity_rows-nil i.intent_id client s.orders none_there),
        )
        | one_row r one ↦ ground arith
        | more_rows r q rest several ↦ ground arith
      ]

  create-Kept :
      (i : OrderIntent) (client : String) (t : Option Datetime) (s : Oms) {x : Error}
      → (create digest i client t s).0 ≡ err x
      → (create digest i client t s).1 ≡ s
  create-Kept i client t s h = elim (Result-cases (validate_intent i)) [
    | inr (e, bad) ↦ unfold create in ground arith
    | inl valid ↦ elim (Bool-cases (is_blank client)) [
      | inl blank ↦ unfold create in ground arith
      | inr named ↦ elim (time_cases (or_else t i.created_at)) [
        | inl naive_time ↦ unfold create in ground arith
        | inr (m, time) ↦ create_valid-Kept i client t m s valid time named h
      ]
    ]
  ]

  publish-Kept :
      (n : ℕ) (t : Datetime) (s : Oms) {x : Error}
      → (mark_outbox_published n t s).0 ≡ err x
      → (mark_outbox_published n t s).1 ≡ s
  unfolding mark_outbox_published
  publish-Kept n t s h = ground arith

  -- A call that raises changes nothing: no order, event or message, and no message number.
  pub raised_call_unchanged :
      (c : Call) (s : Oms) {x : Error} → (invoke digest c s).0 ≡ err x → (invoke digest c s).1 ≡ s
  unfolding invoke
  raised_call_unchanged (create_order i client t) s {x} h =
      ground (arith, create-Kept i client t s {x = x})
  raised_call_unchanged (move i target e t b p) s {x} h =
      ground (arith, transition-Kept i target e t b p s {x = x})
  raised_call_unchanged (approve i e t) s {x} h = ground (arith, approve_risk-Kept i e t s {x = x})
  raised_call_unchanged (enqueue i e t) s {x} h =
      ground (arith, enqueue_submit-Kept i e t s {x = x})
  raised_call_unchanged (fill_order i e c t b) s {x} h =
      ground (arith, fill-Kept i e c t b s {x = x})
  raised_call_unchanged (mark_published n t) s {x} h = ground (arith, publish-Kept n t s {x = x})
