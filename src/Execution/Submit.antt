-- ===== src/Execution/Submit.antt =====
-- app/execution/paper_executor.py: `PaperSubmitExecutor.execute`, which submits an order at most
-- once, and what it does with an order that was submitted before.
use trade_bot.Prelude.{
  ℕ, ◌+◌, Bool, true, false, not, ◌||◌, ◌&&◌, Option, none, some, List, [], ◌∷◌, ◌++◌, String,
  str_eq, str_append, number_text, if◌then◌else◌, ltb,
}
use trade_bot.Prelude.Json.{Json, text, object, Fields, end, field}
use trade_bot.Prelude.SameJson.{json_same}
use trade_bot.Prelude.Clock.{Datetime, aware, to_utc}
use trade_bot.Prelude.Action.{
  Action, Result, ok, err, Error, value_error, key_error, runtime_error, ◌>>=◌, ◌>>◌, pure, raise,
  gets, raise_if, or_raise, lift,
}
use trade_bot.Domain.{is_buy, refuse, ◌else_check◌}
use trade_bot.Oms.State.{
  OrderState, state_eq, contains_state, state_value, outboxed, submit_started, acknowledged,
  partially_filled, filled, cancelled, rejected, uncertain, reconciling, reconciled, manual,
}
use trade_bot.Oms.Tables.{OrderRecord, OutboxRow, get}
use trade_bot.Oms.Orders.{transition, submit_payload}
use trade_bot.Oms.Outbox.{mark_outbox_published}
use trade_bot.Execution.Broker.{BrokerOrder, order_side}
use trade_bot.Execution.Checkpoints.{CheckpointDb, unresolved_checkpoint_count}
use trade_bot.Execution.Facts.{FactDb, unresolved_fact_count}
use trade_bot.Execution.World.{
  Post, Submission, placed, refused, broken, Outside, Texts, World, attempt, on_oms,
}
use trade_bot.Execution.Adopt.{adopt_broker_truth}

pub record ExecutionResult : Type 0 where
  pub order : OrderRecord
  pub mutation_attempted : Bool
  pub recovered_by_read : Bool

-- `a == b` of two dictionaries, whose keys are distinct: each has the other's entries.
abbrev has_entry : String → Json → Fields → Bool
has_entry name value end = false
has_entry name value (field n v rest) =
    (str_eq n name && json_same v value) || has_entry name value rest

abbrev entries_within : Fields → Fields → Bool
entries_within end fs = true
entries_within (field n v rest) fs = has_entry n v fs && entries_within rest fs

unfoldable pub dict_same : Json → Json → Bool
dict_same (object a) (object b) = entries_within a b && entries_within b a
dict_same a b = json_same a b

-- `_validate_submit_message`
unfoldable pub validate_submit_message : OrderRecord → OutboxRow → Result (Unit {0})
unfolding dict_same
validate_submit_message local m =
    refuse (not (str_eq m.intent_id local.intent_id)) "SUBMIT_OUTBOX_INTENT_MISMATCH"
    else_check refuse (not (str_eq m.topic "paper_order_submit")) "SUBMIT_OUTBOX_TOPIC_MISMATCH"
    else_check refuse (not (dict_same m.payload (submit_payload local)))
        "SUBMIT_OUTBOX_ECONOMICS_MISMATCH"

abbrev pub open_fact_count : Option FactDb → ℕ
open_fact_count none = 0
open_fact_count (some db) = unresolved_fact_count db

abbrev pub open_checkpoint_count : Option CheckpointDb → ℕ
open_checkpoint_count none = 0
open_checkpoint_count (some db) = unresolved_checkpoint_count db

-- The states in which the order was submitted and settled before.
abbrev pub settled_states : List OrderState
settled_states =
    acknowledged ∷ partially_filled ∷ filled ∷ cancelled ∷ rejected ∷ uncertain ∷ reconciling
    ∷ reconciled ∷ manual ∷ []

abbrev pub post_of : OrderRecord → Post
post_of r = record {
  intent_id = r.intent_id;
  client_order_id = r.client_order_id;
  instrument = r.symbol;
  side = order_side r.side;
  quantity = r.quantity;
  limit_price = r.limit_price;
}

abbrev code_payload : String → Json
code_payload code = object (field "code" (text code) end)

abbrev pub numbered : String → OutboxRow → String
numbered name m = str_append name (number_text m.message_id)

abbrev pub claim_event : OutboxRow → String → String
claim_event m token = str_append (numbered "submit-claim:" m) (str_append ":" token)

abbrev executed : OrderRecord → Bool → Bool → ExecutionResult
executed r attempted recovered = record {
  order = r;
  mutation_attempted = attempted;
  recovered_by_read = recovered;
}

-- `grace` is `started_recovery_grace_seconds`, in microseconds.
module _ {E : Type 0} (texts : Texts) (shared : Bool) (outside : Outside E) (grace : ℕ) where
  open texts use {digest}

  -- `_execution_convergence_gate`
  unfoldable pub execution_convergence_gate : OrderRecord → Action (World E) (Unit {0})
  execution_convergence_gate r = if not (is_buy r.side) then pure tt else do
    facts ← gets (λ w. open_fact_count w.facts)
    raise_if (ltb 0 facts) (runtime_error "EXECUTION_ACCOUNTING_NOT_CONVERGED")
    checkpoints ← gets (λ w. open_checkpoint_count w.checkpoints)
    raise_if (ltb 0 checkpoints) (runtime_error "EXECUTION_ACCOUNTING_NOT_CONVERGED")

  -- `self.dispatch_authorizer(record, occurred_at=moment)`, where there is one.
  unfoldable pub dispatch : OrderRecord → ℕ → Action (World E) (Unit {0})
  dispatch r moment w = elim outside.authorize [
    | none ↦ (ok tt, w)
    | some check ↦
        let (granted, e) = check r moment w.outside in (granted, record w { outside = e })
  ]

  -- `self.broker.submit_limit_order(…)`
  unfoldable pub post : Post → Action (World E) Submission
  post p w =
      let (answer, e) = outside.submit p w.outside in
      (ok answer, record w { outside = e; posts = w.posts ++ p ∷ [] })

  -- `self.broker.get_order_by_client_order_id(…)`
  unfoldable pub look_up : String → Action (World E) (Option BrokerOrder)
  look_up client w =
      let (answer, e) = outside.look_up client w.outside in (answer, record w { outside = e })

  -- `mark_outbox_published`, and then the result.
  unfoldable pub publish :
      OutboxRow → ℕ → OrderRecord → Bool → Bool → Action (World E) ExecutionResult
  publish m moment r attempted recovered = do
    on_oms (mark_outbox_published m.message_id (aware moment))
    pure (executed r attempted recovered)

  -- A broker's order is adopted under a prefix that names the message.
  unfoldable pub adopt_and_publish :
      OrderRecord
      → OutboxRow
      → BrokerOrder
      → String
      → ℕ
      → Bool
      → Bool
      → Action (World E) ExecutionResult
  unfolding publish
  adopt_and_publish r m o name moment attempted recovered = do
    resolved ← adopt_broker_truth texts shared r.intent_id o (numbered name m) moment
    publish m moment resolved attempted recovered

  -- The order moves under an event that names the message, and the message is published.
  unfoldable pub move_and_publish :
      OrderRecord
      → OutboxRow
      → OrderState
      → String
      → Json
      → ℕ
      → Bool
      → Bool
      → Action (World E) ExecutionResult
  unfolding publish
  move_and_publish r m target name payload moment attempted recovered = do
    moved ←
        on_oms (
          transition digest r.intent_id target (numbered name m) (aware moment) none (some payload))
    publish m moment moved attempted recovered

  -- An ambiguous error: what the broker knows of the order decides.
  unfoldable pub after_ambiguous :
      OrderRecord → OutboxRow → String → ℕ → Option BrokerOrder → Action (World E) ExecutionResult
  unfolding adopt_and_publish move_and_publish
  after_ambiguous r m code moment none =
      move_and_publish r m uncertain "submit-uncertain:" (code_payload code) moment true true
  after_ambiguous r m code moment (some o) =
      adopt_and_publish r m o "submit-recovered:" moment true true

  unfoldable pub ask_broker :
      OrderRecord → OutboxRow → String → ℕ → Action (World E) ExecutionResult
  unfolding after_ambiguous look_up
  ask_broker r m code moment = do
    found ← look_up r.client_order_id
    after_ambiguous r m code moment found

  unfoldable pub after_submission :
      OrderRecord → OutboxRow → ℕ → Submission → Action (World E) ExecutionResult
  unfolding adopt_and_publish move_and_publish ask_broker
  after_submission r m moment (placed o) = adopt_and_publish r m o "submit-ack:" moment true false
  after_submission r m moment (refused code ambiguous) =
      if ambiguous
      then ask_broker r m code moment
      else move_and_publish r m rejected "submit-rejected:" (code_payload code) moment true false
  after_submission r m moment (broken e) = raise e

  -- `_attempt_submit`
  unfoldable pub attempt_submit : OrderRecord → OutboxRow → ℕ → Action (World E) ExecutionResult
  unfolding post after_submission
  attempt_submit r m moment = do answer ← post (post_of r); after_submission r m moment answer

  -- The broker was asked for an order whose submission was started before.
  unfoldable pub after_recovery :
      OrderRecord → OutboxRow → ℕ → Option BrokerOrder → Action (World E) ExecutionResult
  unfolding adopt_and_publish move_and_publish
  after_recovery r m moment none =
      move_and_publish r m uncertain "started-recovery-missing:"
        (object (field "reason" (text "NO_ORDER_AFTER_SUBMIT_STARTED") end)) moment false true
  after_recovery r m moment (some o) = adopt_and_publish r m o "started-recovery:" moment false true

  -- `_recover_after_started`
  unfoldable pub recover_after_started :
      OrderRecord → OutboxRow → ℕ → Action (World E) ExecutionResult
  unfolding after_recovery look_up
  recover_after_started r m moment =
      if ltb moment (r.updated_at + grace)
      then pure (executed r false false)
      else do found ← look_up r.client_order_id; after_recovery r m moment found

  -- `_handle_existing`
  unfoldable pub handle_existing : OrderRecord → OutboxRow → ℕ → Action (World E) ExecutionResult
  unfolding recover_after_started publish
  handle_existing r m moment =
      if state_eq r.state submit_started
      then recover_after_started r m moment
      else if contains_state r.state settled_states
      then publish m moment r false false
      else raise (value_error (str_append "OUTBOX_NOT_EXECUTABLE:" (state_value r.state)))

  -- The claim was refused: another caller has the order, or the exception goes on.
  unfoldable pub after_refused_claim : OutboxRow → ℕ → Error → Action (World E) ExecutionResult
  unfolding handle_existing
  after_refused_claim m moment (value_error message) = do
    found ← gets (λ w. get m.intent_id w.oms)
    latest ← or_raise found (key_error m.intent_id)
    if state_eq latest.state outboxed
        then raise (value_error message)
        else handle_existing latest m moment
  after_refused_claim m moment e = raise e

  abbrev pub claim : OrderRecord → OutboxRow → String → ℕ → Action (World E) OrderRecord
  claim r m token moment =
      on_oms (
        transition digest r.intent_id submit_started (claim_event m token) (aware moment) none none)

  -- The checks of an order that waits in the outbox; nothing is submitted yet.
  unfoldable pub before_claim : OrderRecord → OutboxRow → ℕ → Action (World E) (Unit {0})
  unfolding execution_convergence_gate dispatch
  before_claim r m moment = do
    lift (validate_submit_message r m)
    execution_convergence_gate r
    dispatch r moment

  -- The caller that got the claim submits the order.
  unfoldable pub after_claim : OutboxRow → ℕ → Result OrderRecord → Action (World E) ExecutionResult
  unfolding attempt_submit after_refused_claim
  after_claim m moment (ok started) = attempt_submit started m moment
  after_claim m moment (err e) = after_refused_claim m moment e

  -- The order waits in the outbox: it is claimed, and then submitted.
  unfoldable pub execute_outboxed :
      OrderRecord → OutboxRow → String → ℕ → Action (World E) ExecutionResult
  unfolding after_claim
  execute_outboxed r m token moment = do
    before_claim r m moment
    claimed ← attempt (claim r m token moment)
    after_claim m moment claimed

  -- `execute`; `token` is the hexadecimal form of the `uuid4` that this call draws.
  unfoldable pub execute : OutboxRow → String → Datetime → Action (World E) ExecutionResult
  unfolding handle_existing
  execute m token occurred_at = do
    moment ← lift (to_utc occurred_at "occurred_at must be timezone-aware")
    found ← gets (λ w. get m.intent_id w.oms)
    r ← or_raise found (key_error m.intent_id)
    enabled ← gets (λ w. outside.writes_enabled w.outside)
    raise_if (not enabled) (value_error "PAPER_ORDER_WRITES_DISABLED")
    if state_eq r.state outboxed
        then execute_outboxed r m token moment
        else handle_existing r m moment
