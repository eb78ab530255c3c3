-- ===== src/Indexed/Lineage.antt =====
-- app/oms/indexed.py: the lineage of broker ids of `IndexedDurableOmsStore`, the table
-- `oms_broker_order_identities`.
use Prim.Native.Nat.{Ordering}
use Prim.Native.String.{compare}
use trade_bot.Prelude.{
  ℕ, ◌+◌, Bool, true, false, not, ◌&&◌, ◌||◌, Option, none, some, List, [], ◌∷◌, ◌++◌, String,
  str_eq, strip, is_blank, is_empty, ◌==◌, if◌then◌else◌,
}
use trade_bot.Prelude.Clock.{Datetime}
use trade_bot.Prelude.Action.{
  Action, ok, err, value_error, runtime_error, ◌>>=◌, ◌>>◌, pure, raise, raise_if, gets, modify,
  lift, transaction,
}
use trade_bot.Oms.Tables.{OrderRecord, OrderRow, find_order}
use trade_bot.Oms.Events.{now}
use trade_bot.Mutations.Tables.{
  replace, succeeded, kind_eq, mutation_eq, Mutation, MutationMessage, BrokerIdentity, Db,
  find_mutation,
}
use trade_bot.Mutations.Store.{payload_broker_id}

-- The arguments of `register_replace_successor`.
pub record Succession : Type 0 where
  pub intent_id : String
  pub mutation_id : String
  pub predecessor_broker_order_id : String
  pub successor_broker_order_id : String
  pub occurred_at : Datetime

-- SELECT … FROM oms_broker_order_identities WHERE broker_order_id=?
abbrev pub find_identity : String → List BrokerIdentity → Option BrokerIdentity
find_identity b [] = none
find_identity b (r ∷ rs) =
    let rest = find_identity b rs in if str_eq r.broker_order_id b then some r else rest

-- … WHERE intent_id=? AND generation=0
abbrev pub primary_of : String → List BrokerIdentity → Option BrokerIdentity
primary_of i [] = none
primary_of i (r ∷ rs) =
    let rest = primary_of i rs in if str_eq r.intent_id i && r.generation == 0 then some r else rest

-- The rows, where the table has been made.
abbrev pub rows_of : Option (List BrokerIdentity) → List BrokerIdentity
rows_of none = []
rows_of (some rows) = rows

abbrev pub identities : Db → List BrokerIdentity
identities s = rows_of s.identities

abbrev pub add_identity : BrokerIdentity → Db → Db
add_identity r s = record s { identities = some (identities s ++ r ∷ []) }

abbrev pub primary_row : OrderRow → BrokerIdentity
primary_row r = record {
  intent_id = r.intent_id;
  broker_order_id = r.broker_order_id;
  predecessor_broker_order_id = none;
  replace_mutation_id = none;
  generation = 0;
  created_at = r.updated_at;
}

-- WHERE broker_order_id <> '' ORDER BY intent_id
abbrev order_before : OrderRow → OrderRow → Bool
order_before a b = elim (compare a.intent_id b.intent_id) [ Ordering.lt ↦ true | _ ↦ false ]

unfoldable pub insert_by_intent : OrderRow → List OrderRow → List OrderRow
insert_by_intent a [] = a ∷ []
insert_by_intent a (b ∷ bs) =
    let rest = insert_by_intent a bs in if order_before a b then a ∷ b ∷ bs else b ∷ rest

unfoldable pub with_broker_id : List OrderRow → List OrderRow
unfolding insert_by_intent
with_broker_id [] = []
with_broker_id (r ∷ rs) =
    let rest = with_broker_id rs in
    if is_empty r.broker_order_id then rest else insert_by_intent r rest

-- One round of the loop of `_initialize_broker_order_lineage`.
unfoldable pub initialize_row : OrderRow → Action Db (Unit {0})
initialize_row r = do
  existing ← gets (λ s. find_identity r.broker_order_id (identities s))
  primary ← gets (λ s. primary_of r.intent_id (identities s))
  elim existing [
    | some held ↦
        if not (str_eq held.intent_id r.intent_id)
        then raise (value_error "OMS_BROKER_ORDER_ID_CONFLICT")
        else pure tt
    | none ↦ elim primary [ some held ↦ pure tt | none ↦ modify (add_identity (primary_row r)) ]
  ]

unfoldable pub initialize_rows : List OrderRow → Action Db (Unit {0})
unfolding initialize_row
initialize_rows [] = pure tt
initialize_rows (r ∷ rs) = do initialize_row r; initialize_rows rs

-- `_initialize_broker_order_lineage`: each insertion is committed by itself.
unfoldable pub initialize_broker_order_lineage : Action Db (Unit {0})
unfolding initialize_rows with_broker_id
initialize_broker_order_lineage s =
    initialize_rows (with_broker_id s.orders) (record s { identities = some (identities s) })

abbrev pub matching_orders : String → List OrderRow → List OrderRow
matching_orders b [] = []
matching_orders b (r ∷ rs) =
    let rest = matching_orders b rs in if str_eq r.broker_order_id b then r ∷ rest else rest

-- `get_by_broker_order_id`
unfoldable pub get_by_broker_order_id : String → Action Db (Option OrderRecord)
get_by_broker_order_id broker_order_id = do
  raise_if (is_blank broker_order_id) (value_error "broker_order_id is required")
  identity ← gets (λ s. find_identity (strip broker_order_id) (identities s))
  rows ← gets (λ s. s.orders)
  elim identity [
    | some held ↦ elim (find_order held.intent_id rows) [
      | none ↦ raise (runtime_error "OMS broker identity points to missing order")
      | some r ↦ pure (some r.order)
    ]
    | none ↦ elim (matching_orders (strip broker_order_id) rows) [
      | [] ↦ pure none
      | r ∷ [] ↦ pure (some r.order)
      | r ∷ q ∷ more ↦ raise (value_error "OMS_BROKER_ORDER_ID_CONFLICT")
    ]
  ]

abbrev message_of : String → List MutationMessage → Option MutationMessage
message_of i [] = none
message_of i (m ∷ ms) =
    let rest = message_of i ms in if str_eq m.mutation_id i then some m else rest

-- The tests of the joined row: the mutation is a REPLACE of the order that SUCCEEDED with the
-- successor, and its request named the predecessor.
abbrev pub is_proof : Succession → String → String → Option Mutation → Option MutationMessage → Bool
is_proof p predecessor successor (some m) (some message) =
    str_eq m.intent_id p.intent_id
    && kind_eq m.kind replace
    && mutation_eq m.state succeeded
    && str_eq m.broker_order_id successor
    && str_eq (payload_broker_id message.payload) predecessor
is_proof p predecessor successor _ _ = false

-- The predecessor is not registered: it must be the order's own id, and becomes the primary one.
unfoldable pub source_new : String → String → Option OrderRow → Option BrokerIdentity → Action Db ℕ
source_new intent_id predecessor none primary = raise (value_error "REPLACE_PREDECESSOR_NOT_PROVEN")
source_new intent_id predecessor (some r) (some held) =
    if not (str_eq r.broker_order_id predecessor) || not (str_eq held.broker_order_id predecessor)
    then raise (value_error "REPLACE_PREDECESSOR_NOT_PROVEN")
    else pure 0
source_new intent_id predecessor (some r) none =
    if not (str_eq r.broker_order_id predecessor)
    then raise (value_error "REPLACE_PREDECESSOR_NOT_PROVEN")
    else do
      modify (
          add_identity
            (record (primary_row r) { intent_id = intent_id; broker_order_id = predecessor }))
      pure 0

unfoldable pub source_from :
    String → String → Option BrokerIdentity → Option OrderRow → Option BrokerIdentity → Action Db ℕ
unfolding source_new
source_from intent_id predecessor none order primary =
    source_new intent_id predecessor order primary
source_from intent_id predecessor (some held) order primary =
    if not (str_eq held.intent_id intent_id)
    then raise (value_error "REPLACE_PREDECESSOR_NOT_PROVEN")
    else pure held.generation

-- The generation of the predecessor.
unfoldable pub source_generation : String → String → Action Db ℕ
unfolding source_from
source_generation intent_id predecessor s =
    source_from intent_id predecessor (find_identity predecessor (identities s))
      (find_order intent_id s.orders) (primary_of intent_id (identities s)) s

abbrev option_is : Option String → String → Bool
option_is none t = false
option_is (some u) t = str_eq u t

abbrev pub successor_row : Succession → String → String → ℕ → ℕ → BrokerIdentity
successor_row p predecessor successor generation moment = record {
  intent_id = p.intent_id;
  broker_order_id = successor;
  predecessor_broker_order_id = some predecessor;
  replace_mutation_id = some p.mutation_id;
  generation = generation + 1;
  created_at = moment;
}

-- The UNIQUE columns `predecessor_broker_order_id` and `replace_mutation_id`.
abbrev pub is_taken : String → String → List BrokerIdentity → Bool
is_taken predecessor mutation_id [] = false
is_taken predecessor mutation_id (r ∷ rs) =
    option_is r.predecessor_broker_order_id predecessor
    || option_is r.replace_mutation_id mutation_id
    || is_taken predecessor mutation_id rs

abbrev pub same_edge : Succession → String → ℕ → BrokerIdentity → Bool
same_edge p predecessor generation r =
    str_eq r.intent_id p.intent_id
    && option_is r.predecessor_broker_order_id predecessor
    && option_is r.replace_mutation_id p.mutation_id
    && r.generation == generation + 1

unfoldable pub add_edge :
    Succession → String → String → ℕ → ℕ → Option BrokerIdentity → Action Db (Unit {0})
add_edge p predecessor successor generation moment (some held) s =
    if same_edge p predecessor generation held
    then (ok tt, s)
    else (err (value_error "BROKER_ORDER_LINEAGE_CONFLICT"), s)
add_edge p predecessor successor generation moment none s =
    if is_taken predecessor p.mutation_id (identities s)
    then (err (value_error "BROKER_ORDER_LINEAGE_CONFLICT"), s)
    else (ok tt, add_identity (successor_row p predecessor successor generation moment) s)

-- The edge to the successor, which may be there already.
unfoldable pub add_successor : Succession → String → String → ℕ → ℕ → Action Db (Unit {0})
unfolding add_edge
add_successor p predecessor successor generation moment = do
  existing ← gets (λ s. find_identity successor (identities s))
  add_edge p predecessor successor generation moment existing

unfoldable pub register_body : Succession → String → String → ℕ → Action Db (Unit {0})
unfolding source_generation add_successor
register_body p predecessor successor moment = do
  proven ← gets (λ s.
      is_proof p predecessor successor (find_mutation p.mutation_id s.mutations)
        (message_of p.mutation_id s.outbox))
  raise_if (not proven) (value_error "REPLACE_LINEAGE_NOT_PROVEN")
  generation ← source_generation p.intent_id predecessor
  if str_eq successor predecessor
      then pure tt
      else add_successor p predecessor successor generation moment

-- `register_replace_successor`
unfoldable pub register_replace_successor : Succession → Action Db (Unit {0})
unfolding register_body
register_replace_successor p = do
  raise_if (is_blank p.intent_id || is_blank p.mutation_id)
      (value_error "intent_id and mutation_id are required")
  raise_if (is_blank p.predecessor_broker_order_id || is_blank p.successor_broker_order_id)
      (value_error "broker order lineage identity is required")
  moment ← lift (now p.occurred_at)
  transaction (
      register_body p (strip p.predecessor_broker_order_id) (strip p.successor_broker_order_id)
        moment)

-- `IndexedDurableOmsStore(path).register_replace_successor(…)`
unfoldable pub open_and_register : Succession → Action Db (Unit {0})
unfolding initialize_broker_order_lineage register_replace_successor
open_and_register p = do initialize_broker_order_lineage; register_replace_successor p
