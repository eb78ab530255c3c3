-- ===== src/Execution/Checkpoints.antt =====
-- app/execution/execution_checkpoints.py: aggregate executions that a broker reported, and their
-- SQLite store. A payload is kept as the values that its JSON text stands for.
use Prim.Native.Nat.{Ordering, compare as compare_nat}
use Prim.Native.String.{compare}
use trade_bot.Prelude.{
  ℕ, suc, ◌+◌, Bool, true, false, not, ◌||◌, ◌&&◌, Option, none, some, List, [], ◌∷◌, ◌++◌, String,
  is_blank, is_uppercase, strip, str_eq, str_append, if◌then◌else◌, ◌==◌,
}
use trade_bot.Prelude.Decimal.{Decimal, dec_lt, dec_same, dec_max}
use trade_bot.Prelude.Clock.{Datetime, is_aware, to_utc}
use trade_bot.Prelude.Action.{
  Action, Result, ok, err, value_error, ◌>>=◌, ◌>>◌, pure, raise, gets, modify, raise_if, lift,
  transaction,
}
use trade_bot.Domain.{Side, side_eq, not_positive, refuse, ◌else_check◌}
use trade_bot.Execution.Broker.{bad_price, required}

pub record ExecutionCheckpoint : Type 0 where
  pub checkpoint_id : String
  pub intent_id : String
  pub broker_order_id : String
  pub client_order_id : String
  pub symbol : String
  pub side : Side
  pub order_quantity : Decimal
  pub cumulative_quantity : Decimal
  pub broker_status : String
  pub observed_at : Datetime
  pub observed_avg_price : Option Decimal

-- `ExecutionCheckpoint.validate`
unfoldable pub validate_checkpoint : ExecutionCheckpoint → Result (Unit {0})
validate_checkpoint c =
    required "checkpoint_id" c.checkpoint_id
    else_check required "intent_id" c.intent_id
    else_check required "broker_order_id" c.broker_order_id
    else_check required "client_order_id" c.client_order_id
    else_check required "symbol" c.symbol
    else_check required "broker_status" c.broker_status
    else_check refuse (not (is_uppercase c.symbol)) "symbol must be uppercase"
    else_check refuse (not_positive c.order_quantity) "order_quantity must be positive and finite"
    else_check refuse (not_positive c.cumulative_quantity)
        "cumulative_quantity must be positive and finite"
    else_check refuse (dec_lt c.order_quantity c.cumulative_quantity)
        "cumulative_quantity exceeds order_quantity"
    else_check refuse (bad_price c.observed_avg_price)
        "observed_avg_price must be positive and finite when present"
    else_check refuse (not (is_aware c.observed_at)) "observed_at must be timezone-aware"

-- `canonical_execution_checkpoint_id`: `sha` is SHA-256 in hexadecimal, `plain` the text
-- `format(value.normalize(), "f")`, and `zulu` the ISO text of a UTC instant that ends in Z.
unfoldable pub canonical_checkpoint_id :
    (String → String)
    → (Decimal → String)
    → (ℕ → String)
    → String
    → String
    → Decimal
    → Datetime
    → Result String
canonical_checkpoint_id sha plain zulu intent_id broker_order_id cumulative observed_at =
    elim (refuse (is_blank intent_id || is_blank broker_order_id)
        "intent_id and broker_order_id are required"
      else_check refuse (not_positive cumulative)
          "cumulative_quantity must be positive and finite") [
            | err e ↦ err e
            | ok _ ↦ elim (to_utc observed_at "observed_at must be timezone-aware") [
              | err e ↦ err e
              | ok moment ↦ ok (
                  str_append "execution-checkpoint:" (
                    sha (
                      str_append intent_id (
                        str_append "|" (
                          str_append broker_order_id (
                            str_append "|"
                              (str_append (plain cumulative) (str_append "|" (zulu moment)))))))))
            ]
          ]

-- A row of `execution_checkpoints`.
pub record CheckpointRow : Type 0 where
  pub checkpoint : ExecutionCheckpoint
  pub open checkpoint use {checkpoint_id, intent_id, cumulative_quantity}
  pub observed_at : ℕ

-- A row of `execution_checkpoint_events`; its state is always RESOLVED.
pub record CheckpointEvent : Type 0 where
  pub event_id : String
  pub checkpoint_id : String
  pub cumulative_quantity : Decimal
  pub occurred_at : ℕ

pub record CheckpointDb : Type 0 where
  pub checkpoints : List CheckpointRow
  pub events : List CheckpointEvent

abbrev price_same : Option Decimal → Option Decimal → Bool
price_same none none = true
price_same (some a) (some b) = dec_same a b
price_same _ _ = false

-- The canonical payloads are the same text.
unfoldable pub checkpoint_same : ExecutionCheckpoint → ExecutionCheckpoint → Bool
checkpoint_same a b =
    str_eq a.intent_id b.intent_id
    && str_eq a.broker_order_id b.broker_order_id
    && str_eq a.client_order_id b.client_order_id
    && str_eq a.symbol b.symbol
    && side_eq a.side b.side
    && dec_same a.order_quantity b.order_quantity
    && dec_same a.cumulative_quantity b.cumulative_quantity
    && str_eq a.broker_status b.broker_status
    && price_same a.observed_avg_price b.observed_avg_price

abbrev pub find_checkpoint : String → List CheckpointRow → Option CheckpointRow
find_checkpoint i [] = none
find_checkpoint i (r ∷ rs) =
    let rest = find_checkpoint i rs in if str_eq r.checkpoint_id i then some r else rest

append_body : ExecutionCheckpoint → ℕ → Action CheckpointDb Bool
append_body c moment = do
  held ← gets (λ s. find_checkpoint c.checkpoint_id s.checkpoints)
  elim held [
    | none ↦ do
      modify (λ s. record s {
        checkpoints = s.checkpoints ++ (record { checkpoint = c; observed_at = moment }) ∷ [];
      })
      pure true
    | some r ↦
        if checkpoint_same r.checkpoint c && r.observed_at == moment
        then pure false
        else raise (value_error "EXECUTION_CHECKPOINT_CONFLICT")
  ]

-- `append` of `SQLiteExecutionCheckpointStore`
unfoldable pub append_checkpoint : ExecutionCheckpoint → Action CheckpointDb Bool
unfolding append_body
append_checkpoint c = do
  lift (validate_checkpoint c)
  moment ← lift (to_utc c.observed_at "timestamp must be timezone-aware")
  transaction (append_body c moment)

-- NOT EXISTS (SELECT 1 FROM execution_checkpoint_events e WHERE e.checkpoint_id=c.checkpoint_id …)
abbrev pub is_resolved : String → List CheckpointEvent → Bool
is_resolved i [] = false
is_resolved i (e ∷ es) = str_eq e.checkpoint_id i || is_resolved i es

abbrev pub open_rows : List CheckpointEvent → List CheckpointRow → List CheckpointRow
open_rows es [] = []
open_rows es (r ∷ rs) =
    let rest = open_rows es rs in if is_resolved r.checkpoint_id es then rest else r ∷ rest

-- ORDER BY c.observed_at, c.checkpoint_id
abbrev comes_before : CheckpointRow → CheckpointRow → Bool
comes_before a b = elim (compare_nat a.observed_at b.observed_at) [
  | Ordering.lt ↦ true
  | Ordering.gt ↦ false
  | Ordering.eq ↦ elim (compare a.checkpoint_id b.checkpoint_id) [ Ordering.lt ↦ true | _ ↦ false ]
]

unfoldable pub insert_row : CheckpointRow → List CheckpointRow → List CheckpointRow
insert_row a [] = a ∷ []
insert_row a (b ∷ bs) =
    let rest = insert_row a bs in if comes_before a b then a ∷ b ∷ bs else b ∷ rest

unfoldable pub in_order : List CheckpointRow → List CheckpointRow
in_order [] = []
in_order (r ∷ rs) = insert_row r (in_order rs)

-- `unresolved`
unfoldable pub unresolved_checkpoints : CheckpointDb → List CheckpointRow
unfolding in_order
unresolved_checkpoints s = in_order (open_rows s.events s.checkpoints)

abbrev pub count_rows : List CheckpointRow → ℕ
count_rows [] = 0
count_rows (r ∷ rs) = suc (count_rows rs)

-- `unresolved_count`
unfoldable pub unresolved_checkpoint_count : CheckpointDb → ℕ
unresolved_checkpoint_count s = count_rows (open_rows s.events s.checkpoints)

abbrev pub holds_event : String → List CheckpointEvent → Bool
holds_event e [] = false
holds_event e (r ∷ rs) = str_eq r.event_id e || holds_event e rs

abbrev pub resolution : CheckpointRow → Decimal → ℕ → CheckpointEvent
resolution r cumulative moment = record {
  event_id = str_append "execution-checkpoint-resolved:" r.checkpoint_id;
  checkpoint_id = r.checkpoint_id;
  cumulative_quantity = cumulative;
  occurred_at = moment;
}

-- INSERT OR IGNORE INTO execution_checkpoint_events, and its row count.
abbrev pub insert_event : CheckpointEvent → List CheckpointEvent → List CheckpointEvent
insert_event e es = if holds_event e.event_id es then es else es ++ e ∷ []

abbrev pub inserted : CheckpointEvent → List CheckpointEvent → ℕ
inserted e es = if holds_event e.event_id es then 0 else 1

-- The row is of the intent and not beyond the quantity.
abbrev pub covers : String → Decimal → CheckpointRow → Bool
covers intent cumulative r =
    str_eq r.intent_id intent && not (dec_lt cumulative r.cumulative_quantity)

-- The loop of `resolve_through`: the events, and how many are new.
unfoldable pub resolve_rows :
    String → Decimal → ℕ → List CheckpointRow → List CheckpointEvent → ℕ × List CheckpointEvent
resolve_rows intent cumulative moment [] es = (0, es)
resolve_rows intent cumulative moment (r ∷ rs) es =
    let e = resolution r cumulative moment in
    let after = if covers intent cumulative r then insert_event e es else es in
    let new : ℕ = if covers intent cumulative r then inserted e es else 0 in
    let (count, final) = resolve_rows intent cumulative moment rs after in (new + count, final)

resolve_body : String → Decimal → ℕ → Action CheckpointDb ℕ
unfolding resolve_rows
resolve_body intent cumulative moment s =
    let (count, events) =
      resolve_rows intent cumulative moment (unresolved_checkpoints s) s.events in
    (ok count, record s { events = events })

-- `resolve_through`
unfoldable pub resolve_through : String → Decimal → Datetime → Action CheckpointDb ℕ
unfolding resolve_body
resolve_through intent_id cumulative occurred_at = do
  raise_if (is_blank intent_id) (value_error "intent_id is required")
  raise_if (not_positive cumulative) (value_error "cumulative_quantity must be positive and finite")
  moment ← lift (to_utc occurred_at "timestamp must be timezone-aware")
  transaction (resolve_body (strip intent_id) cumulative moment)

-- `max` of a list that is not empty.
abbrev pub greatest : Decimal → List Decimal → Decimal
greatest d [] = d
greatest d (c ∷ cs) = greatest (dec_max d c) cs

abbrev pub quantities : String → List (String × Decimal) → List Decimal
quantities intent [] = []
quantities intent ((i, d) ∷ fs) =
    let rest = quantities intent fs in if str_eq i intent then d ∷ rest else rest

-- `resolve_from_projected_facts`, with the pairs of intent and cumulative quantity of the projected
-- facts in the same database file, or none where the file has no such tables.
unfoldable pub resolve_from_projected :
    Option (List (String × Decimal)) → String → Datetime → Action CheckpointDb ℕ
resolve_from_projected projected intent_id occurred_at = do
  raise_if (is_blank intent_id) (value_error "intent_id is required")
  elim projected [
    | none ↦ pure 0
    | some facts ↦ elim (quantities (strip intent_id) facts) [
      | [] ↦ pure 0
      | d ∷ ds ↦ resolve_through (strip intent_id) (greatest d ds) occurred_at
    ]
  ]
