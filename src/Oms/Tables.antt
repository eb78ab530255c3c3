-- ===== src/Oms/Tables.antt =====
-- app/oms/store.py: the tables of the SQLite store, their rows, and the queries over them. A table
-- is its rows in the order of their row ids.
use trade_bot.Prelude.{
  ℕ, suc, Bool, ◌||◌, Option, none, some, List, [], ◌∷◌, String, str_eq, if◌then◌else◌,
}
use trade_bot.Prelude.Decimal.{Decimal}
use trade_bot.Prelude.Json.{Json}
use trade_bot.Domain.{Side}
use trade_bot.Oms.State.{
  OrderState, terminal_states, contains_state, uncertain, reconciling, manual,
}

pub record OrderRecord : Type 0 where
  pub intent_id : String
  pub client_order_id : String
  pub broker_order_id : String
  pub symbol : String
  pub side : Side
  pub quantity : Decimal
  pub limit_price : Decimal
  pub filled_quantity : Decimal
  pub state : OrderState
  pub version : ℕ
  pub updated_at : ℕ

-- `OrderRecord.terminal`
unfoldable pub is_terminal : OrderRecord → Bool
is_terminal r = contains_state r.state terminal_states

-- A row of `oms_orders`: the record, and the fingerprint, which may be null.
pub record OrderRow : Type 0 where
  pub order : OrderRecord
  pub open order use *
  pub intent_fingerprint : Option String

-- A row of `oms_events`.
pub record EventRow : Type 0 where
  pub event_id : String
  pub intent_id : String
  pub event_type : String
  pub payload : Json
  pub event_fingerprint : Option String
  pub occurred_at : ℕ

-- A row of `oms_outbox`.
pub record OutboxRow : Type 0 where
  pub message_id : ℕ
  pub intent_id : String
  pub topic : String
  pub payload : Json
  pub created_at : ℕ
  pub published_at : Option ℕ

-- The database; `next_message` is the next number of AUTOINCREMENT.
pub record Oms : Type 0 where
  pub orders : List OrderRow
  pub events : List EventRow
  pub outbox : List OutboxRow
  pub next_message : ℕ

-- SELECT * FROM oms_orders WHERE intent_id=?
abbrev pub find_order : String → List OrderRow → Option OrderRow
find_order i [] = none
find_order i (r ∷ rs) = if str_eq r.intent_id i then some r else find_order i rs

-- SELECT * FROM oms_orders WHERE intent_id=? OR client_order_id=?
abbrev pub identity_rows : String → String → List OrderRow → List OrderRow
identity_rows i c [] = []
identity_rows i c (r ∷ rs) =
    let rest = identity_rows i c rs in
    if str_eq r.intent_id i || str_eq r.client_order_id c then r ∷ rest else rest

-- UPDATE oms_orders SET … WHERE intent_id=?
abbrev pub update_order : String → (OrderRow → OrderRow) → List OrderRow → List OrderRow
update_order i f [] = []
update_order i f (r ∷ rs) = (if str_eq r.intent_id i then f r else r) ∷ update_order i f rs

-- `DurableOmsStore.get`
unfoldable pub get : String → Oms → Option OrderRecord
get i s = elim (find_order i s.orders) [ none ↦ none | some r ↦ some r.order ]

abbrev is_blocking : OrderState → Bool
is_blocking t = contains_state t (uncertain ∷ reconciling ∷ manual ∷ [])

abbrev count_blocking : List OrderRow → ℕ
count_blocking [] = 0
count_blocking (r ∷ rs) =
    let rest = count_blocking rs in if is_blocking r.state then suc rest else rest

unfoldable pub operational_blocking_count : Oms → ℕ
operational_blocking_count s = count_blocking s.orders

abbrev pub find_event : String → List EventRow → Option EventRow
find_event e [] = none
find_event e (r ∷ rs) = if str_eq r.event_id e then some r else find_event e rs

-- `DurableOmsStore.events`
unfoldable pub events_of : String → List EventRow → List EventRow
events_of i [] = []
events_of i (r ∷ rs) = let rest = events_of i rs in if str_eq r.intent_id i then r ∷ rest else rest
