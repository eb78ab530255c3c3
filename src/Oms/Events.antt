-- ===== src/Oms/Events.antt =====
-- app/oms/store.py: fingerprints, the event journal, and the reads that open a transaction.
-- `digest` is SHA-256, in hexadecimal, of the canonical JSON text of a value.
use trade_bot.Prelude.{
  ℕ, Bool, true, false, Option, none, some, [], ◌∷◌, ◌++◌, String, strip, str_eq, if◌then◌else◌,
}
use trade_bot.Prelude.Json.{Json, text, decimal_text, moment_text, object, end, field}
use trade_bot.Prelude.Clock.{Datetime, aware, naive, to_utc}
use trade_bot.Prelude.Action.{
  Action, Result, ok, value_error, key_error, runtime_error, ◌>>=◌, pure, raise, gets, or_raise,
}
use trade_bot.Domain.{OrderIntent, Side, buy, sell}
use trade_bot.Oms.Tables.{Oms, OrderRecord, EventRow, find_event, get}

-- `DurableOmsStore._now`, at a value that is given.
abbrev pub now : Datetime → Result ℕ
now value = to_utc value "timestamp must be timezone-aware"

abbrev pub side_value : Side → String
side_value buy = "BUY"
side_value sell = "SELL"

-- The UTC instant of a valid intent's time.
abbrev pub instant : Datetime → ℕ
instant (aware t) = t
instant (naive t) = t

abbrev pub intent_material : OrderIntent → Json
intent_material i = object (
    field "intent_id" (text i.intent_id) (
      field "symbol" (text i.symbol) (
        field "side" (text (side_value i.side)) (
          field "quantity" (decimal_text i.quantity) (
            field "limit_price" (decimal_text i.limit_price) (
              field "created_at" (moment_text (instant i.created_at))
                (field "strategy_id" (text i.strategy_id) end)))))))

abbrev pub stripped_or_empty : Option String → String
stripped_or_empty none = ""
stripped_or_empty (some b) = strip b

abbrev pub event_material : String → String → Json → Option String → Json
event_material intent_id event_type payload broker_order_id = object (
    field "intent_id" (text intent_id) (
      field "event_type" (text event_type) (
        field "payload" payload
          (field "broker_order_id" (text (stripped_or_empty broker_order_id)) end))))

module _ (digest : Json → String) where
  -- The callers have validated the intent.
  unfoldable pub intent_fingerprint : OrderIntent → String
  intent_fingerprint i = digest (intent_material i)

  unfoldable pub event_fingerprint : String → String → Json → Option String → String
  event_fingerprint intent_id event_type payload broker_order_id =
      digest (event_material intent_id event_type payload broker_order_id)

  -- Whether the journal holds this very event; another event of that id is refused.
  unfoldable pub event_replayed : String → String → String → Json → Option String → Action Oms Bool
  event_replayed event_id intent_id event_type payload broker_order_id = do
    let expected = event_fingerprint intent_id event_type payload broker_order_id
    row ← gets (λ s. find_event event_id s.events)
    elim row [
      | none ↦ pure false
      | some r ↦ elim r.event_fingerprint [
        | none ↦ raise (value_error "OMS_EVENT_ID_CONFLICT")
        | some stored ↦
            if str_eq stored expected
            then pure true
            else raise (value_error "OMS_EVENT_ID_CONFLICT")
      ]
    ]

  -- The row of `oms_events` that records an event.
  abbrev pub journal_row : String → String → String → Json → ℕ → Option String → EventRow
  journal_row event_id intent_id event_type payload occurred_at broker_order_id = record {
    event_id = event_id;
    intent_id = intent_id;
    event_type = event_type;
    payload = payload;
    event_fingerprint = some (event_fingerprint intent_id event_type payload broker_order_id);
    occurred_at = occurred_at;
  }

  -- INSERT OR IGNORE; where the id is taken, the event there must be the same.
  unfoldable pub append_event :
      String → String → String → Json → ℕ → Option String → Action Oms Bool
  unfolding event_replayed
  append_event event_id intent_id event_type payload occurred_at broker_order_id s =
      let row = journal_row event_id intent_id event_type payload occurred_at broker_order_id in
      elim (find_event event_id s.events) [
        | none ↦ (ok true, record s { events = s.events ++ row ∷ [] })
        | some _ ↦
            (do
              same ← event_replayed event_id intent_id event_type payload broker_order_id
              pure false)
              s
      ]

-- `_load_for_update`
abbrev pub load_for_update : String → Action Oms OrderRecord
load_for_update intent_id s = or_raise (get intent_id s) (key_error intent_id) s

-- The end of each method: the early return of the transaction, or the order as it is stored now.
abbrev pub read_back : String → Option OrderRecord → Action Oms OrderRecord
read_back intent_id (some early) s = pure early s
read_back intent_id none s =
    or_raise (get intent_id s) (runtime_error "OMS persistence invariant violated") s
