-- ===== src/Execution/Facts.antt =====
-- app/execution/execution_facts.py: exact executions, and the SQLite inbox with its journal of
-- projections. A payload is kept as the values that its JSON text stands for.
use Prim.Native.Nat.{Ordering, compare as compare_nat}
use Prim.Native.String.{compare}
use trade_bot.Prelude.{
  ℕ, suc, Bool, true, false, not, ◌||◌, ◌&&◌, Option, none, some, List, [], ◌∷◌, ◌++◌, String,
  is_blank, is_uppercase, strip, str_eq, str_append, if◌then◌else◌, ◌==◌,
}
use trade_bot.Prelude.Decimal.{Decimal, dec_lt, dec_same}
use trade_bot.Prelude.Clock.{Datetime, is_aware, aware, to_utc}
use trade_bot.Prelude.Action.{
  Action, Result, ok, err, value_error, key_error, ◌>>=◌, ◌>>◌, pure, raise, gets, modify, raise_if,
  lift, transaction,
}
use trade_bot.Domain.{Fill, Side, side_eq, not_positive, not_nonnegative, refuse, ◌else_check◌}
use trade_bot.Execution.Broker.{required}

pub data ProjectionState : Type 0 where
  pending quarantined projected : ProjectionState

abbrev pub projection_value : ProjectionState → String
projection_value pending = "PENDING"
projection_value quarantined = "QUARANTINED"
projection_value projected = "PROJECTED"

abbrev pub is_projected : ProjectionState → Bool
is_projected projected = true
is_projected _ = false

pub record ExecutionFact : Type 0 where
  pub execution_fact_id : String
  pub intent_id : String
  pub broker_order_id : String
  pub client_order_id : String
  pub symbol : String
  pub side : Side
  pub order_quantity : Decimal
  pub cumulative_quantity : Decimal
  pub quantity : Decimal
  pub price : Decimal
  pub fee : Decimal
  pub occurred_at : Datetime

-- `ExecutionFact.validate`
unfoldable pub validate_fact : ExecutionFact → Result (Unit {0})
validate_fact f =
    required "execution_fact_id" f.execution_fact_id
    else_check required "intent_id" f.intent_id
    else_check required "broker_order_id" f.broker_order_id
    else_check required "client_order_id" f.client_order_id
    else_check required "symbol" f.symbol
    else_check refuse (not (is_uppercase f.symbol)) "symbol must be uppercase"
    else_check refuse (not_positive f.order_quantity) "order_quantity must be positive and finite"
    else_check refuse (not_positive f.cumulative_quantity)
        "cumulative_quantity must be positive and finite"
    else_check refuse (not_positive f.quantity) "quantity must be positive and finite"
    else_check refuse (not_positive f.price) "price must be positive and finite"
    else_check refuse (not_nonnegative f.fee) "fee must be finite and non-negative"
    else_check refuse (dec_lt f.cumulative_quantity f.quantity)
        "quantity exceeds cumulative_quantity"
    else_check refuse (dec_lt f.order_quantity f.cumulative_quantity)
        "cumulative_quantity exceeds order_quantity"
    else_check refuse (not (is_aware f.occurred_at)) "occurred_at must be timezone-aware"

-- The fill that `to_fill` makes of a fact that is valid.
abbrev pub fill_of_fact : ExecutionFact → Fill
fill_of_fact f = record {
  fill_id = f.execution_fact_id;
  order_intent_id = f.intent_id;
  symbol = f.symbol;
  side = f.side;
  quantity = f.quantity;
  price = f.price;
  occurred_at = f.occurred_at;
  fee = f.fee;
}

-- `ExecutionFact.to_fill`
unfoldable pub to_fill : ExecutionFact → Result Fill
to_fill f = elim (validate_fact f) [ ok _ ↦ ok (fill_of_fact f) | err e ↦ err e ]

-- A row of `execution_facts`.
pub record FactRow : Type 0 where
  pub fact : ExecutionFact
  pub open fact use {execution_fact_id, intent_id, cumulative_quantity}
  pub occurred_at : ℕ

-- A row of `execution_fact_sources`.
pub record SourceRow : Type 0 where
  pub source_execution_id : String
  pub execution_fact_id : String
  pub observed_at : ℕ

-- A row of `execution_projection_events`.
pub record ProjectionRow : Type 0 where
  pub event_id : String
  pub execution_fact_id : String
  pub state : ProjectionState
  pub reason : Option String
  pub occurred_at : ℕ

pub record FactDb : Type 0 where
  pub facts : List FactRow
  pub sources : List SourceRow
  pub projections : List ProjectionRow

-- The canonical payloads are the same text.
unfoldable pub fact_same : ExecutionFact → ExecutionFact → Bool
fact_same a b =
    str_eq a.intent_id b.intent_id
    && str_eq a.broker_order_id b.broker_order_id
    && str_eq a.client_order_id b.client_order_id
    && str_eq a.symbol b.symbol
    && side_eq a.side b.side
    && dec_same a.order_quantity b.order_quantity
    && dec_same a.cumulative_quantity b.cumulative_quantity
    && dec_same a.quantity b.quantity
    && dec_same a.price b.price
    && dec_same a.fee b.fee

abbrev pub find_fact : String → List FactRow → Option FactRow
find_fact i [] = none
find_fact i (r ∷ rs) =
    let rest = find_fact i rs in if str_eq r.execution_fact_id i then some r else rest

abbrev pub find_source : String → List SourceRow → Option SourceRow
find_source i [] = none
find_source i (r ∷ rs) =
    let rest = find_source i rs in if str_eq r.source_execution_id i then some r else rest

-- INSERT OR IGNORE INTO execution_facts, and the comparison where the id is taken.
unfoldable pub record_fact : ExecutionFact → ℕ → Action FactDb Bool
record_fact f moment = do
  held ← gets (λ s. find_fact f.execution_fact_id s.facts)
  elim held [
    | none ↦ do
      modify (λ s. record s { facts = s.facts ++ (record { fact = f; occurred_at = moment }) ∷ [] })
      pure true
    | some r ↦
        if fact_same r.fact f && r.occurred_at == moment
        then pure false
        else raise (value_error "EXECUTION_FACT_CONFLICT")
  ]

unfoldable pub record_source : String → String → ℕ → Action FactDb (Unit {0})
record_source source_id fact_id moment = do
  held ← gets (λ s. find_source source_id s.sources)
  elim held [
    | none ↦ modify (λ s. record s {
      sources =
          s.sources
          ++ (record {
            source_execution_id = source_id;
            execution_fact_id = fact_id;
            observed_at = moment;
          })
            ∷ [];
    })
    | some r ↦
        if str_eq r.execution_fact_id fact_id
        then pure tt
        else raise (value_error "EXECUTION_SOURCE_ID_CONFLICT")
  ]

unfoldable pub append_fact_body : ExecutionFact → String → ℕ → Action FactDb Bool
append_fact_body f source_id moment = do
  appended ← record_fact f moment
  record_source source_id f.execution_fact_id moment
  pure appended

-- `append` of `SQLiteExecutionFactStore`
unfoldable pub append_fact : ExecutionFact → String → Action FactDb Bool
unfolding append_fact_body record_fact record_source
append_fact f source_execution_id = do
  lift (validate_fact f)
  raise_if (is_blank source_execution_id) (value_error "source_execution_id is required")
  moment ← lift (to_utc f.occurred_at "timestamp must be timezone-aware")
  transaction (append_fact_body f (strip source_execution_id) moment)

-- The state of the last projection event of a fact; PENDING where there is none.
abbrev pub last_state : ProjectionState → String → List ProjectionRow → ProjectionState
last_state seen i [] = seen
last_state seen i (e ∷ es) =
    last_state (if str_eq e.execution_fact_id i then e.state else seen) i es

abbrev pub last_reason : Option String → String → List ProjectionRow → Option String
last_reason seen i [] = seen
last_reason seen i (e ∷ es) =
    last_reason (if str_eq e.execution_fact_id i then e.reason else seen) i es

abbrev pub projection_state : String → List ProjectionRow → ProjectionState
projection_state i es = last_state pending i es

abbrev pub holds_projection : String → List ProjectionRow → Bool
holds_projection e [] = false
holds_projection e (r ∷ rs) = str_eq r.event_id e || holds_projection e rs

-- `(reason or "").strip()`
abbrev pub reason_text : Option String → String
reason_text none = ""
reason_text (some r) = strip r

abbrev pub stripped_reason : Option String → Option String
stripped_reason none = none
stripped_reason (some r) = some (strip r)

abbrev pub is_quarantined : ProjectionState → Bool
is_quarantined quarantined = true
is_quarantined _ = false

abbrev pub is_pending : ProjectionState → Bool
is_pending pending = true
is_pending _ = false

abbrev pub projection_id : String → ProjectionState → Option String → String
projection_id fact_id state reason = str_append "execution-projection:" (
    str_append fact_id
      (str_append ":" (str_append (projection_value state) (str_append ":" (reason_text reason)))))

abbrev pub projection_row : String → ProjectionState → Option String → ℕ → ProjectionRow
projection_row fact_id state reason moment = record {
  event_id = projection_id fact_id state reason;
  execution_fact_id = fact_id;
  state = state;
  reason = stripped_reason reason;
  occurred_at = moment;
}

-- INSERT OR IGNORE INTO execution_projection_events
abbrev pub add_projection : ProjectionRow → FactDb → FactDb
add_projection r s = record s {
  projections =
      if holds_projection r.event_id s.projections then s.projections else s.projections ++ r ∷ [];
}

unfoldable pub projection_body :
    String → ProjectionState → Option String → ℕ → Action FactDb (Unit {0})
projection_body fact_id state reason moment = do
  known ← gets (λ s. find_fact fact_id s.facts)
  current ← gets (λ s. projection_state fact_id s.projections)
  elim known [
    | none ↦ raise (key_error fact_id)
    | some _ ↦
        if is_projected current && not (is_projected state)
        then raise (value_error "EXECUTION_PROJECTION_STATE_REGRESSION")
        else modify (add_projection (projection_row fact_id state reason moment))
  ]

-- `_append_projection_event`
unfoldable pub append_projection :
    String → ProjectionState → Option String → Datetime → Action FactDb (Unit {0})
unfolding projection_body
append_projection execution_fact_id state reason occurred_at = do
  raise_if (is_pending state) (value_error "PENDING is represented by absence of projection events")
  raise_if (is_blank execution_fact_id) (value_error "execution_fact_id is required")
  raise_if (is_quarantined state && is_blank (reason_text reason))
      (value_error "quarantine reason is required")
  moment ← lift (to_utc occurred_at "timestamp must be timezone-aware")
  transaction (projection_body (strip execution_fact_id) state reason moment)

unfoldable pub mark_projected : String → Datetime → Action FactDb (Unit {0})
unfolding append_projection
mark_projected execution_fact_id occurred_at =
    append_projection execution_fact_id projected none occurred_at

unfoldable pub mark_quarantined : String → String → Datetime → Action FactDb (Unit {0})
unfolding append_projection
mark_quarantined execution_fact_id reason occurred_at =
    append_projection execution_fact_id quarantined (some reason) occurred_at

pub record StoredExecutionFact : Type 0 where
  pub fact : ExecutionFact
  pub state : ProjectionState
  pub reason : Option String

-- WHERE COALESCE((the last state), 'PENDING') != 'PROJECTED'
abbrev pub open_facts : List ProjectionRow → List FactRow → List FactRow
open_facts es [] = []
open_facts es (r ∷ rs) =
    let rest = open_facts es rs in
    if is_projected (projection_state r.execution_fact_id es) then rest else r ∷ rest

-- ORDER BY f.occurred_at, f.execution_fact_id
abbrev comes_before : FactRow → FactRow → Bool
comes_before a b = elim (compare_nat a.occurred_at b.occurred_at) [
  | Ordering.lt ↦ true
  | Ordering.gt ↦ false
  | Ordering.eq ↦ elim (compare a.execution_fact_id b.execution_fact_id) [
    | Ordering.lt ↦ true
    | _ ↦ false
  ]
]

insert_fact : FactRow → List FactRow → List FactRow
insert_fact a [] = a ∷ []
insert_fact a (b ∷ bs) =
    let rest = insert_fact a bs in if comes_before a b then a ∷ b ∷ bs else b ∷ rest

unfoldable pub facts_in_order : List FactRow → List FactRow
unfolding insert_fact
facts_in_order [] = []
facts_in_order (r ∷ rs) = insert_fact r (facts_in_order rs)

-- The row as it is read back: its time is the UTC instant.
abbrev pub stored_fact : List ProjectionRow → FactRow → StoredExecutionFact
stored_fact es r = record {
  fact = record (r.fact) { occurred_at = aware r.occurred_at };
  state = projection_state r.execution_fact_id es;
  reason = last_reason none r.execution_fact_id es;
}

abbrev pub stored_facts : List ProjectionRow → List FactRow → List StoredExecutionFact
stored_facts es [] = []
stored_facts es (r ∷ rs) = stored_fact es r ∷ stored_facts es rs

-- `unresolved`
unfoldable pub unresolved_facts : FactDb → List StoredExecutionFact
unfolding facts_in_order
unresolved_facts s = stored_facts s.projections (facts_in_order (open_facts s.projections s.facts))

abbrev pub count_facts : List StoredExecutionFact → ℕ
count_facts [] = 0
count_facts (f ∷ fs) = suc (count_facts fs)

-- `unresolved_count`
unfoldable pub unresolved_fact_count : FactDb → ℕ
unfolding unresolved_facts
unresolved_fact_count s = count_facts (unresolved_facts s)

-- EXISTS (SELECT 1 FROM execution_projection_events e WHERE … AND e.state='PROJECTED')
abbrev pub ever_projected : String → List ProjectionRow → Bool
ever_projected i [] = false
ever_projected i (e ∷ es) =
    (str_eq e.execution_fact_id i && is_projected e.state) || ever_projected i es

-- The intent and the cumulative quantity of each projected fact, as another store of the same file
-- reads them.
unfoldable pub projected_amounts : FactDb → List FactRow → List (String × Decimal)
projected_amounts s [] = []
projected_amounts s (r ∷ rs) =
    let rest = projected_amounts s rs in
    if ever_projected r.execution_fact_id s.projections
    then (r.intent_id, r.cumulative_quantity) ∷ rest
    else rest
