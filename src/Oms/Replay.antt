-- ===== src/Oms/Replay.antt =====
-- A method of app/oms/store.py that is called again with the same event changes nothing.
use trade_bot.Prelude.{
  ℕ, Option, none, [], ◌∷◌, String, ◌≡◌, refl, arith, inl, inr, Option-cases, str_eq_refl,
}
use trade_bot.Prelude.Decimal.{Decimal}
use trade_bot.Prelude.Json.{Json}
use trade_bot.Prelude.Action.{ok, Result-cases}
use trade_bot.Prelude.Clock.{aware}
use trade_bot.Oms.State.{OrderState, state_value, outboxed}
use trade_bot.Oms.Tables.{Oms, OrderRecord, find_order, find_event, get}
use trade_bot.Oms.Events.{append_event, event_fingerprint, journal_row}
use trade_bot.Oms.Orders.{
  transition, enqueue_submit, advance_row, resolve_broker_id, insert_outbox, payload_or_empty,
  submit_payload,
}
use trade_bot.Oms.Fills.{
  apply_cumulative_fill, fill_row, fill_target, fill_payload, validate_fill_target,
}
use trade_bot.Oms.Lookup.{find_order-update_self, find_event-append_none}

module _ (digest : Json → String) where
  -- A transition that succeeded and is sent again with the same event, at any time, gives the same
  -- order back and leaves the store as it is.
  pub transition_replay :
      (i : String) (target : OrderState) (e : String) (t t' : ℕ) (b : Option String)
      (p : Option Json) (s : Oms) (r : OrderRecord)
      → (transition digest i target e (aware t) b p s).0 ≡ ok r
      → let s' = (transition digest i target e (aware t) b p s).1 in
        transition digest i target e (aware t') b p s' ≡ (ok r, s')
  unfolding transition get append_event
  transition_replay i target e t t' b p s r h = elim (Option-cases (find_order i s.orders)) [
    | inl missing ↦ ground arith
    | inr (x, found) ↦ elim (Option-cases (find_event e s.events)) [
      | inl fresh ↦ ground (
        arith,
        find_order-update_self i (advance_row target (resolve_broker_id b x.broker_order_id) t)
            s.orders {r = x} (λ y. refl) found,
        find_event-append_none e s.events
            (journal_row digest e i (state_value target) (payload_or_empty p) t b ∷ []) fresh,
        str_eq_refl e,
        str_eq_refl (event_fingerprint digest i (state_value target) (payload_or_empty p) b),
      )
      | inr (x', taken) ↦ ground arith
    ]
  ]

  -- An `enqueue_submit` that succeeded and is sent again with the same event, at any time, gives the
  -- same order back and leaves the store as it is: no second message is queued.
  pub enqueue_submit_replay :
      (i e : String) (t t' : ℕ) (s : Oms) (r : OrderRecord)
      → (enqueue_submit digest i e (aware t) s).0 ≡ ok r
      → let s' = (enqueue_submit digest i e (aware t) s).1 in
        enqueue_submit digest i e (aware t') s' ≡ (ok r, s')
  unfolding enqueue_submit get append_event insert_outbox
  enqueue_submit_replay i e t t' s r h = elim (Option-cases (find_order i s.orders)) [
    | inl missing ↦ ground arith
    | inr (x, found) ↦ elim (Option-cases (find_event e s.events)) [
      | inl fresh ↦ ground (
        arith,
        find_order-update_self i (advance_row outboxed x.broker_order_id t) s.orders {r = x}
            (λ y. refl) found,
        find_event-append_none e s.events
            (journal_row digest e i "OUTBOXED" (submit_payload x.order) t none ∷ []) fresh,
        str_eq_refl e,
        str_eq_refl (event_fingerprint digest i "OUTBOXED" (submit_payload x.order) none),
      )
      | inr (x', taken) ↦ ground arith
    ]
  ]

  -- A fill that succeeded and is sent again with the same event, at any time, gives the same order
  -- back and leaves the store as it is: the quantity is not counted twice.
  pub fill_replay :
      (i e : String) (c : Decimal) (t t' : ℕ) (b : Option String) (s : Oms) (r : OrderRecord)
      → (apply_cumulative_fill digest i e c (aware t) b s).0 ≡ ok r
      → let s' = (apply_cumulative_fill digest i e c (aware t) b s).1 in
        apply_cumulative_fill digest i e c (aware t') b s' ≡ (ok r, s')
  unfolding apply_cumulative_fill get append_event
  fill_replay i e c t t' b s r h = elim (Option-cases (find_order i s.orders)) [
    | inl missing ↦ ground arith
    | inr (x, found) ↦ elim (Option-cases (find_event e s.events)) [
      | inl fresh ↦ elim (Result-cases (validate_fill_target x.state (fill_target x.order c))) [
        | inl good ↦ ground (
          arith,
          find_order-update_self i
              (fill_row (fill_target x.order c) (resolve_broker_id b x.broker_order_id) c t)
              s.orders {r = x} (λ y. refl) found,
          find_event-append_none e s.events
              (journal_row digest e i "FILL_UPDATE" (fill_payload c) t b ∷ []) fresh,
          str_eq_refl e,
          str_eq_refl (event_fingerprint digest i "FILL_UPDATE" (fill_payload c) b),
        )
        | inr (x', bad) ↦ ground arith
      ]
      | inr (x', taken) ↦ ground arith
    ]
  ]
