-- ===== src/Mutations/Tables.antt =====
-- app/oms/order_mutations.py: the kinds and states of a mutation, its tables and their queries.
use trade_bot.Prelude.{
  ℕ, Bool, true, false, ◌&&◌, Option, none, some, List, [], ◌∷◌, String, str_eq, if◌then◌else◌,
}
use trade_bot.Prelude.Decimal.{Decimal}
use trade_bot.Prelude.Json.{Json}
use trade_bot.Oms.Tables.{OrderRow}

pub data MutationKind : Type 0 where
  cancel replace : MutationKind

pub data MutationState : Type 0 where
  requested started succeeded failed uncertain : MutationState

abbrev pub kind_value : MutationKind → String
kind_value cancel = "CANCEL"
kind_value replace = "REPLACE"

abbrev pub kind_eq : MutationKind → MutationKind → Bool
kind_eq cancel cancel = true
kind_eq replace replace = true
kind_eq _ _ = false

abbrev pub mutation_value : MutationState → String
mutation_value requested = "REQUESTED"
mutation_value started = "STARTED"
mutation_value succeeded = "SUCCEEDED"
mutation_value failed = "FAILED"
mutation_value uncertain = "UNCERTAIN"

abbrev pub mutation_eq : MutationState → MutationState → Bool
mutation_eq requested requested = true
mutation_eq started started = true
mutation_eq succeeded succeeded = true
mutation_eq failed failed = true
mutation_eq uncertain uncertain = true
mutation_eq _ _ = false

-- `state in _FINAL_MUTATION_STATES`
abbrev pub is_final : MutationState → Bool
is_final succeeded = true
is_final failed = true
is_final _ = false

-- The states of the index `idx_oms_order_mutations_one_active`.
abbrev pub is_active : MutationState → Bool
is_active requested = true
is_active started = true
is_active uncertain = true
is_active _ = false

pub record Mutation : Type 0 where
  pub mutation_id : String
  pub intent_id : String
  pub kind : MutationKind
  pub target_limit_price : Option Decimal
  pub baseline_limit_price : Decimal
  pub broker_order_id : String
  pub state : MutationState
  pub outcome : String
  pub version : ℕ
  pub created_at : ℕ
  pub updated_at : ℕ

-- `OrderMutationRecord.terminal`
abbrev pub is_terminal : Mutation → Bool
is_terminal m = is_final m.state

pub record MutationMessage : Type 0 where
  pub message_id : ℕ
  pub mutation_id : String
  pub intent_id : String
  pub topic : String
  pub payload : Json
  pub created_at : ℕ
  pub published_at : Option ℕ

pub record MutationEvent : Type 0 where
  pub event_id : String
  pub mutation_id : String
  pub event_type : MutationState
  pub payload : Json
  pub occurred_at : ℕ

-- A row of `oms_broker_order_identities`, which app/oms/indexed.py writes.
pub record BrokerIdentity : Type 0 where
  pub intent_id : String
  pub broker_order_id : String
  pub predecessor_broker_order_id : Option String
  pub replace_mutation_id : Option String
  pub generation : ℕ
  pub created_at : ℕ

-- The database of the OMS: the orders, the mutations with their events and messages, and the table
-- of broker identities, where it has been made.
pub record Db : Type 0 where
  pub orders : List OrderRow
  pub mutations : List Mutation
  pub events : List MutationEvent
  pub outbox : List MutationMessage
  pub next_message : ℕ
  pub identities : Option (List BrokerIdentity)

-- SELECT * FROM oms_order_mutations WHERE mutation_id=?
abbrev pub find_mutation : String → List Mutation → Option Mutation
find_mutation i [] = none
find_mutation i (m ∷ ms) = if str_eq m.mutation_id i then some m else find_mutation i ms

-- UPDATE oms_order_mutations SET … WHERE mutation_id=?
abbrev pub update_mutation : String → (Mutation → Mutation) → List Mutation → List Mutation
update_mutation i f [] = []
update_mutation i f (m ∷ ms) = (if str_eq m.mutation_id i then f m else m) ∷ update_mutation i f ms

-- An active mutation of the order is there: the unique index refuses a second one.
abbrev pub has_active : String → List Mutation → Bool
has_active i [] = false
has_active i (m ∷ ms) =
    let rest = has_active i ms in if str_eq m.intent_id i && is_active m.state then true else rest

abbrev pub has_mutation_event : String → List MutationEvent → Bool
has_mutation_event e [] = false
has_mutation_event e (r ∷ rs) = if str_eq r.event_id e then true else has_mutation_event e rs

-- `DurableOrderMutationStore.get`
unfoldable pub get : String → Db → Option Mutation
get i s = find_mutation i s.mutations
