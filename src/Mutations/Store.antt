-- ===== src/Mutations/Store.antt =====
-- app/oms/order_mutations.py: `request`, `claim_started`, `_set_state` and what calls it, and the
-- outbox of the mutations.
use trade_bot.Prelude.{
  ℕ, suc, ◌+◌, Bool, true, false, not, ◌&&◌, ◌||◌, Option, none, some, List, [], ◌∷◌, ◌++◌, String,
  str_eq, str_append, number_text, is_blank, is_empty, ltb, ◌==◌, if◌then◌else◌,
}
use trade_bot.Prelude.Decimal.{Decimal, dec_eq}
use trade_bot.Prelude.Json.{Json, Fields, text, decimal_text, object, end, field}
use trade_bot.Prelude.Clock.{Datetime}
use trade_bot.Prelude.Action.{
  Action, Result, ok, err, value_error, key_error, key_error_number, integrity_error,
  active_mutation_exists, ◌>>=◌, ◌>>◌, pure, raise, raise_if, gets, modify, lift, or_raise,
  transaction,
}
use trade_bot.Domain.{refuse, ◌else_check◌, not_positive}
use trade_bot.Oms.Tables.{find_order}
use trade_bot.Oms.Events.{now}
use trade_bot.Oms.Orders.{resolve_broker_id}
use trade_bot.Oms.Outbox.{take, coalesce}
use trade_bot.Mutations.Tables.{
  MutationKind, cancel, replace, kind_value, kind_eq, MutationState, requested, started, succeeded,
  failed, uncertain, mutation_value, mutation_eq, Mutation, MutationMessage, MutationEvent, Db,
  find_mutation, update_mutation, has_active, has_mutation_event,
}

abbrev dec_option_eq : Option Decimal → Option Decimal → Bool
dec_option_eq none none = true
dec_option_eq (some p) (some q) = dec_eq p q
dec_option_eq _ _ = false

-- The tests of the target price.
abbrev check_target : MutationKind → Option Decimal → Result (Unit {0})
check_target cancel none = ok tt
check_target cancel (some p) = err (value_error "cancel mutation cannot have target_limit_price")
check_target replace none = err (value_error "replace mutation requires target_limit_price")
check_target replace (some p) =
    refuse (not_positive p) "target_limit_price must be positive and finite"

-- The arguments of `request`.
pub record Request : Type 0 where
  pub mutation_id : String
  pub intent_id : String
  pub kind : MutationKind
  pub target_limit_price : Option Decimal
  pub baseline_limit_price : Decimal
  pub broker_order_id : String

unfoldable pub validate_request : Request → Result (Unit {0})
validate_request q =
    refuse (is_blank q.mutation_id || is_blank q.intent_id) "mutation_id and intent_id are required"
    else_check refuse (is_blank q.broker_order_id) "broker_order_id is required"
    else_check refuse (not_positive q.baseline_limit_price)
        "baseline_limit_price must be positive and finite"
    else_check check_target q.kind q.target_limit_price

unfoldable pub same_request : Mutation → Request → Bool
same_request m q =
    str_eq m.intent_id q.intent_id
    && kind_eq m.kind q.kind
    && dec_option_eq m.target_limit_price q.target_limit_price
    && dec_eq m.baseline_limit_price q.baseline_limit_price
    && str_eq m.broker_order_id q.broker_order_id

abbrev pub new_mutation : Request → ℕ → Mutation
new_mutation q moment = record {
  mutation_id = q.mutation_id;
  intent_id = q.intent_id;
  kind = q.kind;
  target_limit_price = q.target_limit_price;
  baseline_limit_price = q.baseline_limit_price;
  broker_order_id = q.broker_order_id;
  state = requested;
  outcome = "";
  version = 1;
  created_at = moment;
  updated_at = moment;
}

-- `_append_event`
abbrev pub append_mutation_event : MutationEvent → Db → Db
append_mutation_event e s =
    if has_mutation_event e.event_id s.events then s else record s { events = s.events ++ e ∷ [] }

abbrev target_fields : Option Decimal → Fields
target_fields none = end
target_fields (some p) = field "target_limit_price" (decimal_text p) end

abbrev pub request_payload : Request → Json
request_payload q = object (
    field "mutation_id" (text q.mutation_id) (
      field "intent_id" (text q.intent_id) (
        field "kind" (text (kind_value q.kind)) (
          field "broker_order_id" (text q.broker_order_id) (
            field "baseline_limit_price" (decimal_text q.baseline_limit_price)
              (target_fields q.target_limit_price))))))

abbrev pub topic_of : MutationKind → String
topic_of cancel = "paper_order_cancel"
topic_of replace = "paper_order_replace"

abbrev pub request_event : Request → ℕ → MutationEvent
request_event q moment = record {
  event_id = str_append "request:" q.mutation_id;
  mutation_id = q.mutation_id;
  event_type = requested;
  payload = request_payload q;
  occurred_at = moment;
}

abbrev pub request_message : Request → ℕ → ℕ → MutationMessage
request_message q n moment = record {
  message_id = n;
  mutation_id = q.mutation_id;
  intent_id = q.intent_id;
  topic = topic_of q.kind;
  payload = request_payload q;
  created_at = moment;
  published_at = none;
}

-- The rows that a new request inserts, in the three tables.
abbrev pub insert_request : Request → ℕ → Db → Db
insert_request q moment s = append_mutation_event (request_event q moment) (record s {
  mutations = s.mutations ++ new_mutation q moment ∷ [];
  outbox = s.outbox ++ request_message q s.next_message moment ∷ [];
  next_message = s.next_message + 1;
})

-- The constraints of the table: one active mutation for an order, and an order that is there.
insert_new : Request → ℕ → Action Db Mutation
insert_new q moment = do
  busy ← gets (λ s. has_active q.intent_id s.mutations)
  raise_if busy active_mutation_exists
  order ← gets (λ s. find_order q.intent_id s.orders)
  known ← or_raise order (integrity_error "FOREIGN KEY constraint failed")
  modify (insert_request q moment)
  pure (new_mutation q moment)

unfoldable pub request : Request → Datetime → Action Db Mutation
unfolding insert_new
request q occurred_at = do
  lift (validate_request q)
  moment ← lift (now occurred_at)
  transaction do
    row ← gets (λ s. find_mutation q.mutation_id s.mutations)
    elim row [
      | none ↦ insert_new q moment
      | some existing ↦
          if same_request existing q
          then pure existing
          else raise (value_error "MUTATION_ID_CONFLICT")
    ]

-- `_load`
abbrev load : String → Action Db Mutation
load i s = or_raise (find_mutation i s.mutations) (key_error i) s

abbrev pub set_row : MutationState → String → String → ℕ → Mutation → Mutation
set_row target outcome broker moment m = record m {
  state = target;
  outcome = outcome;
  broker_order_id = broker;
  version = m.version + 1;
  updated_at = moment;
}

abbrev pub state_event : Mutation → MutationState → String → ℕ → MutationEvent
state_event m target outcome moment = record {
  -- f"state:{mutation_id}:{target.value}:{version + 1}"
  event_id = str_append "state:" (
      str_append m.mutation_id (
        str_append ":"
          (str_append (mutation_value target) (str_append ":" (number_text (m.version + 1))))));
  mutation_id = m.mutation_id;
  event_type = target;
  payload = object (field "outcome" (text outcome) end);
  occurred_at = moment;
}

abbrev pub write_state : String → Mutation → MutationState → String → String → ℕ → Db → Db
write_state i current target outcome broker moment s =
    append_mutation_event (state_event current target outcome moment) (record s {
      mutations = update_mutation i (set_row target outcome broker moment) s.mutations;
    })

-- One worker is granted the mutation: the answer says whether it is this call.
unfoldable pub claim_started : String → Datetime → Action Db (Mutation × Bool)
claim_started i occurred_at = do
  moment ← lift (now occurred_at)
  transaction do
    current ← load i
    if not (mutation_eq current.state requested) then pure (current, false) else do
      modify (write_state i current started "" current.broker_order_id moment)
      claimed ← load i
      pure (claimed, true)

-- `target in allowed[current.state]`
abbrev pub allows : MutationState → MutationState → Bool
allows requested started = true
allows started succeeded = true
allows started failed = true
allows started uncertain = true
allows uncertain succeeded = true
allows uncertain failed = true
allows uncertain uncertain = true
allows _ _ = false

abbrev invalid_mutation : {A : Type 0} → MutationState → MutationState → Result A
invalid_mutation current target = err (
    value_error (
      str_append "invalid mutation transition: "
        (str_append (mutation_value current) (str_append "->" (mutation_value target)))))

move_state : String → Mutation → MutationState → String → ℕ → Option String → Action Db Mutation
move_state i current target outcome moment broker_order_id = do
  lift (if allows current.state target then ok tt else invalid_mutation current.state target)
  let broker = resolve_broker_id broker_order_id current.broker_order_id
  raise_if (is_empty broker) (value_error "broker_order_id is required")
  modify (write_state i current target outcome broker moment)
  load i

unfoldable pub set_state :
    String → MutationState → String → Datetime → Option String → Action Db Mutation
unfolding move_state
set_state i target outcome occurred_at broker_order_id = do
  moment ← lift (now occurred_at)
  transaction do
    current ← load i
    if mutation_eq current.state target && str_eq current.outcome outcome
        then pure current
        else move_state i current target outcome moment broker_order_id

unfoldable pub mark_started : String → Datetime → Action Db Mutation
unfolding claim_started
mark_started i occurred_at = do
  answer ← claim_started i occurred_at
  if mutation_eq (answer.0).state started
      then pure answer.0
      else lift (invalid_mutation (answer.0).state started)

abbrev pub mark_succeeded : String → String → Datetime → Option String → Action Db Mutation
mark_succeeded i outcome occurred_at broker = set_state i succeeded outcome occurred_at broker

abbrev pub mark_failed : String → String → Datetime → Action Db Mutation
mark_failed i outcome occurred_at = set_state i failed outcome occurred_at none

abbrev pub mark_uncertain : String → String → Datetime → Action Db Mutation
mark_uncertain i outcome occurred_at = set_state i uncertain outcome occurred_at none

-- WHERE published_at IS NULL; the rows stand in the order of their numbers.
abbrev unpublished : List MutationMessage → List MutationMessage
unpublished [] = []
unpublished (r ∷ rs) =
    let rest = unpublished rs in elim r.published_at [ none ↦ r ∷ rest | some _ ↦ rest ]

unfoldable pub pending_outbox : ℕ → Action Db (List MutationMessage)
pending_outbox limit = do
  raise_if (ltb limit 1) (value_error "limit must be positive")
  gets (λ s. take limit (unpublished s.outbox))

abbrev pub publish_message : ℕ → ℕ → List MutationMessage → List MutationMessage
publish_message n moment [] = []
publish_message n moment (r ∷ rs) =
    (if r.message_id == n then record r { published_at = coalesce r.published_at moment } else r)
    ∷ publish_message n moment rs

abbrev count_message : ℕ → List MutationMessage → ℕ
count_message n [] = 0
count_message n (r ∷ rs) =
    let rest = count_message n rs in if r.message_id == n then suc rest else rest

unfoldable pub mark_outbox_published : ℕ → Datetime → Action Db (Unit {0})
mark_outbox_published n occurred_at = do
  moment ← lift (now occurred_at)
  transaction do
    count ← gets (λ s. count_message n s.outbox)
    modify (λ s. record s { outbox = publish_message n moment s.outbox })
    if count == 1 then pure tt else raise (key_error_number n)

-- The rows of the journal that tell of one mutation.
unfoldable pub events_of : String → List MutationEvent → List MutationEvent
events_of i [] = []
events_of i (r ∷ rs) =
    let rest = events_of i rs in if str_eq r.mutation_id i then r ∷ rest else rest

-- `str(payload.get("broker_order_id", ""))` of a payload: a request writes a text there.
abbrev id_field : Fields → String
id_field end = ""
id_field (field n (text v) rest) =
    let later = id_field rest in if str_eq n "broker_order_id" then v else later
id_field (field n v rest) = id_field rest

abbrev pub payload_broker_id : Json → String
payload_broker_id (object fs) = id_field fs
payload_broker_id _ = ""
