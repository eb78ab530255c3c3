-- ===== src/Oms/Steps.antt =====
-- What a method of app/oms/store.py does to the tables: one of six steps, on every branch.
use mathlib.Core.List.{append-nil}
use trade_bot.Prelude.{
  ℕ, ◌+◌, Option, none, some, List, [], ◌∷◌, ◌++◌, String, str_append, is_blank, Bool, true, false,
  ◌≡◌, str_eq, refl, arith, ◌⊎◌, inl, inr, Option-cases, Bool-cases, ◌==◌, not, ◌||◌,
}
use trade_bot.Prelude.Decimal.{Decimal, dec_zero, dec_lt, is_finite}
use trade_bot.Prelude.Json.{Json}
use trade_bot.Prelude.Clock.{Datetime, aware, naive}
use trade_bot.Prelude.Action.{ok, err, Error, value_error, Result-cases}
use trade_bot.Domain.{OrderIntent, validate_intent, validate_intent-IsValidIntent, not_positive}
use trade_bot.Oms.State.{
  OrderState, state_value, created, risk_approved, outboxed, validate_transition,
}
use trade_bot.Oms.Tables.{
  Oms, OrderRecord, OrderRow, EventRow, OutboxRow, find_order, update_order, find_event,
  identity_rows, get,
}
use trade_bot.Oms.Events.{append_event, journal_row, intent_fingerprint, event_fingerprint, now}
use trade_bot.Oms.Orders.{
  create, transition, approve_risk, enqueue_submit, advance_row, resolve_broker_id, submit_queued,
  insert_outbox, or_else, payload_or_empty, submit_payload, create_payload, new_row,
}
use trade_bot.Oms.Lookup.{identity_rows-nil, no_row, one_row, more_rows, Rows-cases}
use trade_bot.Oms.Fills.{
  apply_cumulative_fill, fill_row, fill_target, fill_payload, validate_fill_target,
}
use trade_bot.Oms.Outbox.{mark_outbox_published, publish_row, count_message}

pub data Step (s s' : Oms) : Type 0 where
  same : s' ≡ s → Step s s'
  insert :
      (row : OrderRow) (more : List EventRow)
      → find_order row.intent_id s.orders ≡ none
      → row.state ≡ created
      → row.filled_quantity ≡ dec_zero
      → not_positive row.quantity ≡ false
      → s' ≡ record s { orders = s.orders ++ row ∷ []; events = s.events ++ more }
      → Step s s'
  advance :
      (i : String) (r : OrderRow) (target : OrderState) (b : String) (m : ℕ) (more : List EventRow)
      → find_order i s.orders ≡ some r
      → validate_transition r.state target ≡ ok tt
      → s' ≡ record s {
        orders = update_order i (advance_row target b m) s.orders;
        events = s.events ++ more;
      }
      → Step s s'
  submit :
      (i : String) (r : OrderRow) (row : OutboxRow) (b : String) (m : ℕ) (more : List EventRow)
      → find_order i s.orders ≡ some r
      → validate_transition r.state outboxed ≡ ok tt
      → submit_queued row.intent_id row.topic s.outbox ≡ false
      → row.message_id ≡ s.next_message
      → s' ≡ record s {
        orders = update_order i (advance_row outboxed b m) s.orders;
        events = s.events ++ more;
        outbox = s.outbox ++ row ∷ [];
        next_message = s.next_message + 1;
      }
      → Step s s'
  fill :
      (i : String) (r : OrderRow) (target : OrderState) (b : String) (c : Decimal) (m : ℕ)
      (more : List EventRow)
      → find_order i s.orders ≡ some r
      → dec_lt c r.filled_quantity ≡ false
      → dec_lt r.quantity c ≡ false
      → is_finite c ≡ true
      → validate_fill_target r.state target ≡ ok tt
      → s' ≡ record s {
        orders = update_order i (fill_row target b c m) s.orders;
        events = s.events ++ more;
      }
      → Step s s'
  publish : (n m : ℕ) → s' ≡ record s { outbox = publish_row n m s.outbox } → Step s s'

-- The row that `enqueue_submit` inserts.
abbrev submit_row : String → OrderRecord → ℕ → Oms → OutboxRow
submit_row i r t s = record {
  message_id = s.next_message;
  intent_id = i;
  topic = "paper_order_submit";
  payload = submit_payload r;
  created_at = t;
  published_at = none;
}

-- The tests of `apply_cumulative_fill` that refuse an amount.
abbrev pub refuses_fill : Decimal → OrderRecord → Bool
refuses_fill c r =
    not (is_finite c) || dec_lt c dec_zero || dec_lt c r.filled_quantity || dec_lt r.quantity c

abbrev create_id : OrderIntent → String
create_id i = str_append "create:" i.intent_id

abbrev created_row : (Json → String) → OrderIntent → String → ℕ → OrderRow
created_row digest i client m = new_row i client (intent_fingerprint digest i) m

abbrev created_event : (Json → String) → OrderIntent → String → ℕ → EventRow
created_event digest i client m =
    journal_row digest (create_id i) i.intent_id "CREATED"
      (create_payload client (intent_fingerprint digest i)) m none

-- The event of `create` is in the journal already.
abbrev holds_event : (Json → String) → OrderIntent → String → ℕ → EventRow → Bool
holds_event digest i client m x = elim x.event_fingerprint [
  | none ↦ false
  | some f ↦ str_eq f (
      event_fingerprint digest i.intent_id "CREATED"
        (create_payload client (intent_fingerprint digest i)) none)
]

pub time_cases : (t : Datetime) → ((e : Error) × (now t ≡ err e)) ⊎ ((m : ℕ) × (now t ≡ ok m))
time_cases (aware t) = inr (t, refl)
time_cases (naive t) = inl (value_error "timestamp must be timezone-aware", refl)

module _ (digest : Json → String) where
  pub transition-Step :
      (i : String) (target : OrderState) (e : String) (t : Datetime) (b : Option String)
      (p : Option Json) (s : Oms)
      → Step s (transition digest i target e t b p s).1
  unfolding transition get append_event
  transition-Step i target e (naive t) b p s = same refl
  transition-Step i target e (aware t) b p s = elim (Option-cases (find_order i s.orders)) [
    | inl missing ↦ same (ground arith)
    | inr (r, found) ↦ elim (Option-cases (find_event e s.events)) [
      | inl fresh ↦ elim (Result-cases (validate_transition r.state target)) [
        | inl good ↦
            advance i r target (resolve_broker_id b r.broker_order_id) t
              (journal_row digest e i (state_value target) (payload_or_empty p) t b ∷ []) found good
              (ground arith)
        | inr (x, bad) ↦ same (ground arith)
      ]
      | inr (x, taken) ↦ same (ground arith)
    ]
  ]

  pub approve_risk-Step :
      (i e : String) (t : Datetime) (s : Oms) → Step s (approve_risk digest i e t s).1
  unfolding approve_risk
  approve_risk-Step i e t s = transition-Step i risk_approved e t none none s

  pub enqueue_submit-Step :
      (i e : String) (t : Datetime) (s : Oms) → Step s (enqueue_submit digest i e t s).1
  unfolding enqueue_submit get append_event insert_outbox
  enqueue_submit-Step i e (naive t) s = same refl
  enqueue_submit-Step i e (aware t) s = elim (Option-cases (find_order i s.orders)) [
    | inl missing ↦ same (ground arith)
    | inr (r, found) ↦ elim (Option-cases (find_event e s.events)) [
      | inl fresh ↦ elim (Result-cases (validate_transition r.state outboxed)) [
        | inl good ↦ elim (Bool-cases (submit_queued i "paper_order_submit" s.outbox)) [
          | inl queued ↦ same (ground arith)
          | inr open_slot ↦
              submit i r (submit_row i r.order t s) r.broker_order_id t
                (journal_row digest e i "OUTBOXED" (submit_payload r.order) t none ∷ []) found good
                open_slot refl (ground arith)
        ]
        | inr (x, bad) ↦ same (ground arith)
      ]
      | inr (x, taken) ↦ same (ground arith)
    ]
  ]

  pub fill-Step :
      (i e : String) (c : Decimal) (t : Datetime) (b : Option String) (s : Oms)
      → Step s (apply_cumulative_fill digest i e c t b s).1
  unfolding apply_cumulative_fill get append_event
  fill-Step i e c (naive t) b s = same (ground arith)
  fill-Step i e c (aware t) b s = elim (Option-cases (find_order i s.orders)) [
    | inl missing ↦ same (ground arith)
    | inr (r, found) ↦ elim (Option-cases (find_event e s.events)) [
      | inl fresh ↦ elim (Bool-cases (refuses_fill c r.order)) [
        | inl refused ↦ same (ground arith)
        | inr sound ↦ elim (Result-cases (validate_fill_target r.state (fill_target r.order c))) [
          | inl good ↦
              fill i r (fill_target r.order c) (resolve_broker_id b r.broker_order_id) c t
                (journal_row digest e i "FILL_UPDATE" (fill_payload c) t b ∷ []) found
                (ground arith) (ground arith) (ground arith) good (ground arith)
          | inr (x, bad) ↦ same (ground arith)
        ]
      ]
      | inr (x, taken) ↦ same (ground arith)
    ]
  ]

  create_valid-Step :
      (i : OrderIntent) (client : String) (t : Option Datetime) (m : ℕ) (s : Oms)
      → validate_intent i ≡ ok tt
      → now (or_else t i.created_at) ≡ ok m
      → is_blank client ≡ false
      → Step s (create digest i client t s).1
  unfolding create get append_event
  create_valid-Step i client t m s valid time named =
      elim (Rows-cases (identity_rows i.intent_id client s.orders)) [
        | no_row none_there ↦ elim (Option-cases (find_event (create_id i) s.events)) [
          | inl fresh ↦
              insert (created_row digest i client m) (created_event digest i client m ∷ [])
                (identity_rows-nil i.intent_id client s.orders none_there) refl refl
                ((validate_intent-IsValidIntent i).0 valid).quantity_positive (ground arith)
          | inr (x, taken) ↦ elim (Bool-cases (holds_event digest i client m x)) [
            | inl alike ↦
                insert (created_row digest i client m) []
                  (identity_rows-nil i.intent_id client s.orders none_there) refl refl
                  ((validate_intent-IsValidIntent i).0 valid).quantity_positive
                  (ground (arith, append-nil s.events))
            | inr other ↦ same (ground arith)
          ]
        ]
        | one_row r one ↦ same (ground arith)
        | more_rows r q rest several ↦ same (ground arith)
      ]

  pub create-Step :
      (i : OrderIntent) (client : String) (t : Option Datetime) (s : Oms)
      → Step s (create digest i client t s).1
  unfolding create
  create-Step i client t s = elim (Result-cases (validate_intent i)) [
    | inr (e, bad) ↦ same (ground arith)
    | inl valid ↦ elim (Bool-cases (is_blank client)) [
      | inl blank ↦ same (ground arith)
      | inr named ↦ elim (time_cases (or_else t i.created_at)) [
        | inl naive_time ↦ same (ground arith)
        | inr (m, time) ↦ create_valid-Step i client t m s valid time named
      ]
    ]
  ]

-- Publishing a message touches its row only, or fails and changes nothing.
pub publish-Step : (n : ℕ) (t : Datetime) (s : Oms) → Step s (mark_outbox_published n t s).1
unfolding mark_outbox_published
publish-Step n (naive t) s = same refl
publish-Step n (aware t) s = elim (Bool-cases (count_message n s.outbox == 1)) [
  | inl one ↦ publish n t (ground arith)
  | inr other ↦ same (ground arith)
]
