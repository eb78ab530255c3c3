-- ===== src/Oms/Orders.antt =====
-- app/oms/store.py: `create`, `transition`, `approve_risk` and `enqueue_submit`.
use trade_bot.Prelude.{
  ℕ, ◌+◌, Bool, false, not, Option, none, some, List, [], ◌∷◌, ◌++◌, ◌||◌, String, is_blank, strip,
  str_eq, str_append, if◌then◌else◌,
}
use trade_bot.Prelude.Decimal.{dec_zero}
use trade_bot.Prelude.Json.{Json, text, decimal_text, object, end, field}
use trade_bot.Prelude.Clock.{Datetime}
use trade_bot.Prelude.Action.{
  Action, Result, ok, err, value_error, integrity_error, ◌>>=◌, ◌>>◌, pure, raise, gets, modify,
  raise_if, lift, transaction,
}
use trade_bot.Domain.{OrderIntent, validate_intent}
use trade_bot.Oms.State.{
  OrderState, created, risk_approved, outboxed, state_value, validate_transition,
}
use trade_bot.Oms.Tables.{Oms, OrderRecord, OrderRow, OutboxRow, identity_rows, update_order}
use trade_bot.Oms.Events.{
  now, side_value, intent_fingerprint, event_replayed, append_event, load_for_update, read_back,
}

abbrev pub or_else : Option Datetime → Datetime → Datetime
or_else none d = d
or_else (some t) d = t

-- `current.broker_order_id if broker_order_id is None else broker_order_id.strip()`
abbrev pub resolve_broker_id : Option String → String → String
resolve_broker_id none current = current
resolve_broker_id (some b) current = strip b

-- INSERT INTO oms_outbox; the index on (intent_id, topic) is unique.
abbrev pub submit_queued : String → String → List OutboxRow → Bool
submit_queued intent_id topic [] = false
submit_queued intent_id topic (r ∷ rs) =
    let rest = submit_queued intent_id topic rs in
    if str_eq r.intent_id intent_id then str_eq r.topic topic || rest else rest

unfoldable pub insert_outbox : String → String → Json → ℕ → Action Oms (Unit {0})
insert_outbox intent_id topic payload moment s =
    let row : OutboxRow = record {
      message_id = s.next_message;
      intent_id = intent_id;
      topic = topic;
      payload = payload;
      created_at = moment;
      published_at = none;
    } in
    if submit_queued intent_id topic s.outbox
    then (
      err (integrity_error "UNIQUE constraint failed: oms_outbox.intent_id, oms_outbox.topic"),
      s,
    )
    else (ok tt, record s { outbox = s.outbox ++ row ∷ []; next_message = s.next_message + 1 })

-- UPDATE oms_orders SET state=?, broker_order_id=?, version=version+1, updated_at=?
abbrev pub advance_row : OrderState → String → ℕ → OrderRow → OrderRow
advance_row target broker_id moment r = record r {
  order = record (r.order) {
    state = target;
    broker_order_id = broker_id;
    version = r.version + 1;
    updated_at = moment;
  };
}

abbrev pub set_state : String → OrderState → String → ℕ → Oms → Oms
set_state intent_id target broker_id moment s = record s {
  orders = update_order intent_id (advance_row target broker_id moment) s.orders;
}

-- The row that `create` inserts.
abbrev pub new_row : OrderIntent → String → String → ℕ → OrderRow
new_row i client fingerprint moment = record {
  order = record {
    intent_id = i.intent_id;
    client_order_id = client;
    broker_order_id = "";
    symbol = i.symbol;
    side = i.side;
    quantity = i.quantity;
    limit_price = i.limit_price;
    filled_quantity = dec_zero;
    state = created;
    version = 1;
    updated_at = moment;
  };
  intent_fingerprint = some fingerprint;
}

-- `_assert_intent_replay`
abbrev pub assert_intent_replay : OrderRow → String → String → Result (Unit {0})
assert_intent_replay row expected client = elim row.intent_fingerprint [
  | none ↦ err (value_error "INTENT_ID_CONFLICT")
  | some stored ↦
      if not (str_eq stored expected) || not (str_eq row.client_order_id client)
      then err (value_error "INTENT_ID_CONFLICT")
      else ok tt
]

abbrev pub create_payload : String → String → Json
create_payload client fingerprint =
    object
      (field "client_order_id" (text client) (field "intent_fingerprint" (text fingerprint) end))

abbrev pub payload_or_empty : Option Json → Json
payload_or_empty none = object end
payload_or_empty (some p) = p

abbrev pub submit_payload : OrderRecord → Json
submit_payload r = object (
    field "intent_id" (text r.intent_id) (
      field "client_order_id" (text r.client_order_id) (
        field "symbol" (text r.symbol) (
          field "side" (text (side_value r.side)) (
            field "quantity" (decimal_text r.quantity)
              (field "limit_price" (decimal_text r.limit_price) end))))))

module _ (digest : Json → String) where
  -- The order that holds the intent's identity already, if it is the same order.
  replay_create : OrderIntent → String → List OrderRow → Action Oms (Option OrderRecord)
  replay_create i client [] = pure none
  replay_create i client (existing ∷ []) =
      if not (str_eq existing.intent_id i.intent_id)
      then raise (value_error "INTENT_ID_CONFLICT")
      else do
        lift (assert_intent_replay existing (intent_fingerprint digest i) client)
        pure (some existing.order)
  replay_create i client (first ∷ second ∷ more) = raise (value_error "INTENT_ID_CONFLICT")

  insert_order : OrderIntent → String → ℕ → Action Oms (Option OrderRecord)
  insert_order i client moment = do
    let fingerprint = intent_fingerprint digest i
    modify (λ s. record s { orders = s.orders ++ new_row i client fingerprint moment ∷ [] })
    fresh ←
        append_event digest (str_append "create:" i.intent_id) i.intent_id "CREATED"
          (create_payload client fingerprint) moment none
    pure none

  -- The transaction of `create`.
  create_body : OrderIntent → String → ℕ → Action Oms (Option OrderRecord)
  unfolding replay_create insert_order
  create_body i client moment = do
    rows ← gets (λ s. identity_rows i.intent_id client s.orders)
    early ← replay_create i client rows
    elim early [ none ↦ insert_order i client moment | some r ↦ pure (some r) ]

  unfoldable pub create : OrderIntent → String → Option Datetime → Action Oms OrderRecord
  unfolding create_body
  create i client occurred_at = do
    lift (validate_intent i)
    raise_if (is_blank client) (value_error "client_order_id is required")
    moment ← lift (now (or_else occurred_at i.created_at))
    early ← transaction (create_body i client moment)
    read_back i.intent_id early

  -- The transaction of `transition`, once the event is known to be new.
  advance :
      String
      → OrderRecord
      → OrderState
      → String
      → ℕ
      → Option String
      → Json
      → Action Oms (Option OrderRecord)
  advance intent_id current target event_id moment broker_order_id payload = do
    lift (validate_transition current.state target)
    let broker_id = resolve_broker_id broker_order_id current.broker_order_id
    modify (set_state intent_id target broker_id moment)
    fresh ←
        append_event digest event_id intent_id (state_value target) payload moment broker_order_id
    pure none

  transition_body :
      String → OrderState → String → ℕ → Option String → Json → Action Oms (Option OrderRecord)
  unfolding advance
  transition_body intent_id target event_id moment broker_order_id payload = do
    current ← load_for_update intent_id
    replayed ← event_replayed digest event_id intent_id (state_value target) payload broker_order_id
    if replayed
        then pure (some current)
        else advance intent_id current target event_id moment broker_order_id payload

  unfoldable pub transition :
      String → OrderState → String → Datetime → Option String → Option Json → Action Oms OrderRecord
  unfolding transition_body
  transition intent_id target event_id occurred_at broker_order_id payload = do
    moment ← lift (now occurred_at)
    early ← transaction (
        transition_body intent_id target event_id moment broker_order_id (payload_or_empty payload))
    read_back intent_id early

  unfoldable pub approve_risk : String → String → Datetime → Action Oms OrderRecord
  unfolding transition
  approve_risk intent_id event_id occurred_at =
      transition intent_id risk_approved event_id occurred_at none none

  enqueue_new : String → OrderRecord → String → ℕ → Action Oms (Option OrderRecord)
  enqueue_new intent_id current event_id moment = do
    lift (validate_transition current.state outboxed)
    modify (set_state intent_id outboxed current.broker_order_id moment)
    insert_outbox intent_id "paper_order_submit" (submit_payload current) moment
    fresh ← append_event digest event_id intent_id "OUTBOXED" (submit_payload current) moment none
    pure none

  enqueue_body : String → String → ℕ → Action Oms (Option OrderRecord)
  unfolding enqueue_new
  enqueue_body intent_id event_id moment = do
    current ← load_for_update intent_id
    replayed ← event_replayed digest event_id intent_id "OUTBOXED" (submit_payload current) none
    if replayed then pure (some current) else enqueue_new intent_id current event_id moment

  unfoldable pub enqueue_submit : String → String → Datetime → Action Oms OrderRecord
  unfolding enqueue_body
  enqueue_submit intent_id event_id occurred_at = do
    moment ← lift (now occurred_at)
    early ← transaction (enqueue_body intent_id event_id moment)
    read_back intent_id early
