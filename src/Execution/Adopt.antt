-- ===== src/Execution/Adopt.antt =====
-- app/execution/paper_executor.py: what the executor does with an order that the broker reports,
-- the methods `_adopt_broker_truth`, `_checkpoint_broker_execution` and `_quarantine_broker_truth`.
use trade_bot.Prelude.{
  Bool, true, false, ◌&&◌, not, Option, none, some, List, [], ◌∷◌, ◌++◌, String, str_eq, str_append,
  if◌then◌else◌, ℕ,
}
use trade_bot.Prelude.Decimal.{Decimal, dec_zero, dec_lt, dec_le, dec_eq}
use trade_bot.Prelude.Json.{
  Json, null, text, decimal_text, array, object, Items, nil, item, Fields, end, field,
}
use trade_bot.Prelude.Clock.{Datetime, aware}
use trade_bot.Prelude.Action.{
  Action, Result, ok, err, Error, value_error, key_error, ◌>>=◌, pure, raise, gets, or_raise, lift,
}
use trade_bot.Oms.State.{state_eq, submit_started, acknowledged, cancelled, rejected, uncertain}
use trade_bot.Oms.Tables.{OrderRecord, get}
use trade_bot.Oms.Events.{side_value}
use trade_bot.Oms.Orders.{transition, submit_payload}
use trade_bot.Reconciliation.Order.{mismatch}
use trade_bot.Execution.Broker.{
  order_side_value, status_value, is_rejected, is_cancelled, BrokerOrder, validate_broker_order,
}
use trade_bot.Execution.Checkpoints.{
  CheckpointDb, ExecutionCheckpoint, canonical_checkpoint_id, append_checkpoint,
  resolve_from_projected,
}
use trade_bot.Execution.World.{Texts, World, attempt, on_oms, on_checkpoints, visible_amounts}

-- The text of the exception that `validate` raises, if it is one that is caught.
abbrev pub validation_error : Result (Unit {0}) → Result (Option String)
validation_error (ok tt) = ok none
validation_error (err (value_error message)) = ok (some (str_append "ValueError:" message))
validation_error (err e) = err e

-- `_broker_truth_mismatches`, the names.
abbrev pub truth_mismatches : OrderRecord → BrokerOrder → List String
truth_mismatches local o =
    mismatch (str_eq o.client_order_id local.client_order_id) "client_order_id"
    ++ mismatch (str_eq o.instrument local.symbol) "symbol"
    ++ mismatch (str_eq (order_side_value o.side) (side_value local.side)) "side"
    ++ mismatch (dec_eq o.quantity local.quantity) "quantity"
    ++ mismatch (dec_eq o.limit_price local.limit_price) "limit_price"

abbrev price_json : Option Decimal → Json
price_json none = null
price_json (some p) = decimal_text p

abbrev text_items : List String → Items
text_items [] = nil
text_items (s ∷ ss) = item (text s) (text_items ss)

abbrev error_field : Option String → Fields
error_field none = end
error_field (some e) = field "validation_error" (text e) end

abbrev pub quarantine_reason : Option String → String
quarantine_reason none = "BROKER_SUBMIT_ECONOMICS_MISMATCH"
quarantine_reason (some e) = "BROKER_SUBMIT_RESPONSE_INVALID"

abbrev pub is_checkpoint_conflict : Error → Bool
is_checkpoint_conflict (value_error message) = str_eq message "EXECUTION_CHECKPOINT_CONFLICT"
is_checkpoint_conflict _ = false

abbrev pub checkpoint_of : String → OrderRecord → BrokerOrder → ExecutionCheckpoint
checkpoint_of id local o = record {
  checkpoint_id = id;
  intent_id = local.intent_id;
  broker_order_id = o.broker_order_id;
  client_order_id = o.client_order_id;
  symbol = o.instrument;
  side = local.side;
  order_quantity = o.quantity;
  cumulative_quantity = o.filled_quantity;
  broker_status = status_value o.status;
  observed_at = o.updated_at;
  observed_avg_price = o.filled_avg_price;
}

abbrev pub is_clean : Option String → List String → Bool
is_clean none [] = true
is_clean _ _ = false

module _ (iso : Datetime → String) where
  -- `_broker_order_evidence`
  unfoldable pub broker_order_evidence : BrokerOrder → Json
  broker_order_evidence o = object (
      field "client_order_id" (text o.client_order_id) (
        field "broker_order_id" (text o.broker_order_id) (
          field "instrument" (text o.instrument) (
            field "side" (text (order_side_value o.side)) (
              field "quantity" (decimal_text o.quantity) (
                field "limit_price" (decimal_text o.limit_price) (
                  field "status" (text (status_value o.status)) (
                    field "filled_quantity" (decimal_text o.filled_quantity) (
                      field "filled_avg_price" (price_json o.filled_avg_price)
                        (field "updated_at" (text (iso o.updated_at)) end))))))))))

  abbrev pub evidence_payload : String → BrokerOrder → Json
  evidence_payload reason o =
      object (field "reason" (text reason) (field "broker_response" (broker_order_evidence o) end))

  abbrev pub quarantine_payload : OrderRecord → BrokerOrder → List String → Option String → Json
  quarantine_payload local o names problem = object (
      field "reason" (text (quarantine_reason problem)) (
        field "mismatches" (array (text_items names)) (
          field "authorized" (submit_payload local)
            (field "broker_response" (broker_order_evidence o) (error_field problem)))))

-- `shared` says whether the facts and the checkpoints are in one file.
module _ {E : Type 0} (texts : Texts) (shared : Bool) where
  open texts use {digest, sha, plain, iso, zulu}

  -- A transition of the order store that carries no broker id.
  abbrev pub to_uncertain : OrderRecord → String → ℕ → Json → Action (World E) OrderRecord
  to_uncertain local event_id moment payload =
      on_oms
        (transition digest local.intent_id uncertain event_id (aware moment) none (some payload))

  -- `_quarantine_broker_truth`
  unfoldable pub quarantine_broker_truth :
      OrderRecord
      → BrokerOrder
      → List String
      → Option String
      → String
      → ℕ
      → Action (World E) OrderRecord
  quarantine_broker_truth local o names problem event_prefix moment =
      to_uncertain local (str_append event_prefix ":broker-truth-uncertain") moment
        (quarantine_payload iso local o names problem)

  -- The checkpoint was appended, or the exception of `append`.
  unfoldable pub after_append :
      OrderRecord → BrokerOrder → String → ℕ → Result Bool → Action (World E) (Option OrderRecord)
  after_append local o event_prefix moment (ok appended) = do
    amounts ← gets (visible_amounts shared)
    resolved ← on_checkpoints (resolve_from_projected amounts local.intent_id (aware moment))
    pure none
  after_append local o event_prefix moment (err e) =
      if not (is_checkpoint_conflict e) then raise e else do
        failed ←
            to_uncertain local (str_append event_prefix ":execution-checkpoint-conflict") moment
              (evidence_payload iso "EXECUTION_CHECKPOINT_CONFLICT" o)
        pure (some failed)

  -- An execution that the broker reports is checkpointed, or the order is uncertain.
  unfoldable pub record_checkpoint :
      OrderRecord
      → BrokerOrder
      → String
      → ℕ
      → Option CheckpointDb
      → Action (World E) (Option OrderRecord)
  unfolding after_append
  record_checkpoint local o event_prefix moment none = do
    failed ←
        to_uncertain local (str_append event_prefix ":execution-checkpoint-required") moment
          (evidence_payload iso "EXECUTION_CHECKPOINT_STORE_REQUIRED" o)
    pure (some failed)
  record_checkpoint local o event_prefix moment (some store) = do
    id ← lift (
        canonical_checkpoint_id sha plain zulu local.intent_id o.broker_order_id o.filled_quantity
          o.updated_at)
    appended ← attempt (on_checkpoints (append_checkpoint (checkpoint_of id local o)))
    after_append local o event_prefix moment appended

  -- `_checkpoint_broker_execution`
  unfoldable pub checkpoint_broker_execution :
      OrderRecord → BrokerOrder → String → ℕ → Action (World E) (Option OrderRecord)
  unfolding record_checkpoint
  checkpoint_broker_execution local o event_prefix moment =
      if dec_le o.filled_quantity dec_zero
      then pure none
      else do store ← gets (λ w. w.checkpoints); record_checkpoint local o event_prefix moment store

  -- An order that the broker rejected.
  unfoldable pub adopt_rejected : String → BrokerOrder → String → ℕ → Action (World E) OrderRecord
  adopt_rejected intent_id o event_prefix moment =
      if dec_lt dec_zero o.filled_quantity
      then on_oms (
          transition digest intent_id uncertain
            (str_append event_prefix ":execution-status-conflict") (aware moment) none
            (some (evidence_payload iso "BROKER_EXECUTION_STATUS_CONFLICT" o)))
      else on_oms (
          transition digest intent_id rejected (str_append event_prefix ":rejected") (aware moment)
            (some o.broker_order_id) none)

  -- The acknowledgement, where the order was only started.
  unfoldable pub acknowledge :
      OrderRecord → String → BrokerOrder → String → ℕ → Action (World E) OrderRecord
  acknowledge local intent_id o event_prefix moment =
      if state_eq local.state submit_started
      then on_oms (
          transition digest intent_id acknowledged (str_append event_prefix ":ack") (aware moment)
            (some o.broker_order_id) none)
      else pure local

  -- A cancellation without any execution.
  unfoldable pub adopt_cancelled :
      OrderRecord → String → BrokerOrder → String → ℕ → Action (World E) OrderRecord
  adopt_cancelled local intent_id o event_prefix moment =
      if dec_lt dec_zero o.filled_quantity
      then pure local
      else if is_cancelled o.status && not (state_eq local.state cancelled)
      then on_oms (
          transition digest intent_id cancelled (str_append event_prefix ":cancelled")
            (aware moment) (some o.broker_order_id) none)
      else pure local

  -- The end of `_adopt_broker_truth`, for an order whose execution is on record.
  unfoldable pub adopt_status :
      OrderRecord → String → BrokerOrder → String → ℕ → Action (World E) OrderRecord
  unfolding adopt_rejected acknowledge adopt_cancelled
  adopt_status local intent_id o event_prefix moment =
      if is_rejected o.status then adopt_rejected intent_id o event_prefix moment else do
        known ← acknowledge local intent_id o event_prefix moment
        adopt_cancelled known intent_id o event_prefix moment

  -- The order as it is after an early return, or its status is adopted.
  unfoldable pub adopt_checkpointed :
      OrderRecord
      → String
      → BrokerOrder
      → String
      → ℕ
      → Option OrderRecord
      → Action (World E) OrderRecord
  unfolding adopt_status
  adopt_checkpointed local intent_id o event_prefix moment (some failed) = pure failed
  adopt_checkpointed local intent_id o event_prefix moment none =
      adopt_status local intent_id o event_prefix moment

  -- `_adopt_broker_truth`
  unfoldable pub adopt_broker_truth :
      String → BrokerOrder → String → ℕ → Action (World E) OrderRecord
  unfolding quarantine_broker_truth checkpoint_broker_execution adopt_checkpointed
  adopt_broker_truth intent_id o event_prefix moment = do
    found ← gets (λ w. get intent_id w.oms)
    local ← or_raise found (key_error intent_id)
    problem ← lift (validation_error (validate_broker_order o))
    if not (is_clean problem (truth_mismatches local o))
        then quarantine_broker_truth local o (truth_mismatches local o) problem event_prefix moment
        else do
          early ← checkpoint_broker_execution local o event_prefix moment
          adopt_checkpointed local intent_id o event_prefix moment early
