-- ===== src/Execution/Unposted.antt =====
-- app/execution/paper_executor.py: adopting a broker's order, recovering and publishing submit
-- nothing.
use trade_bot.Prelude.{ℕ, Bool, Option, none, some, List, String, refl}
use trade_bot.Prelude.Json.{Json}
use trade_bot.Prelude.Clock.{aware}
use trade_bot.Prelude.Action.{Result, ok, err, Error, value_error}
use trade_bot.Oms.State.{OrderState}
use trade_bot.Oms.Tables.{OrderRecord, OutboxRow}
use trade_bot.Oms.Orders.{transition}
use trade_bot.Oms.Outbox.{mark_outbox_published}
use trade_bot.Oms.Steps.{transition-Step, publish-Step}
use trade_bot.Oms.Runs.{Step-IsRun, stop}
use trade_bot.Execution.Broker.{BrokerOrder}
use trade_bot.Execution.Checkpoints.{CheckpointDb}
use trade_bot.Execution.World.{Texts, Outside, Submission, placed, refused, broken, on_oms}
use trade_bot.Execution.Adopt.{
  after_append, adopt_checkpointed, quarantine_broker_truth, record_checkpoint,
  checkpoint_broker_execution, adopt_status, adopt_broker_truth,
}
use trade_bot.Execution.Submit.{
  ask_broker, after_recovery, publish, adopt_and_publish, move_and_publish, after_ambiguous,
  after_submission, look_up, recover_after_started, handle_existing, after_refused_claim,
}
use trade_bot.Execution.Works.{Works, pure-Works, raise-Works, oms-Works, works_rules}

module _ {E : Type 0} (texts : Texts) (shared : Bool) where
  move-Works :
      (i : String) (target : OrderState) (e : String) (t : ℕ) (b : Option String) (p : Option Json)
      → Works {E = E} (on_oms (transition texts.digest i target e (aware t) b p))
  move-Works i target e t b p = oms-Works (transition texts.digest i target e (aware t) b p) (
      Step-IsRun (transition texts.digest i target e (aware t) b p)
        (transition-Step texts.digest i target e (aware t) b p))

  mark-Works : (n t : ℕ) → Works {E = E} (on_oms (mark_outbox_published n (aware t)))
  mark-Works n t =
      oms-Works (mark_outbox_published n (aware t))
        (Step-IsRun (mark_outbox_published n (aware t)) (publish-Step n (aware t)))

  after_append-Works :
      (local : OrderRecord) (o : BrokerOrder) (prefix : String) (t : ℕ) (r : Result Bool)
      → Works (after_append {E = E} texts shared local o prefix t r)
  unfolding after_append
  after_append-Works local o prefix t (ok added) = search (works_rules)
  after_append-Works local o prefix t (err e) = search (works_rules, move-Works)

  record_checkpoint-Works :
      (local : OrderRecord) (o : BrokerOrder) (prefix : String) (t : ℕ)
      (store : Option CheckpointDb)
      → Works (record_checkpoint {E = E} texts shared local o prefix t store)
  unfolding record_checkpoint
  record_checkpoint-Works local o prefix t none = search (works_rules, move-Works)
  record_checkpoint-Works local o prefix t (some store) = search (works_rules, after_append-Works)

  checkpoint_broker_execution-Works :
      (local : OrderRecord) (o : BrokerOrder) (prefix : String) (t : ℕ)
      → Works (checkpoint_broker_execution {E = E} texts shared local o prefix t)
  unfolding checkpoint_broker_execution
  checkpoint_broker_execution-Works local o prefix t = search (works_rules, record_checkpoint-Works)

  adopt_status-Works :
      (local : OrderRecord) (i : String) (o : BrokerOrder) (prefix : String) (t : ℕ)
      → Works (adopt_status {E = E} texts shared local i o prefix t)
  unfolding adopt_status
  adopt_status-Works local i o prefix t = search (works_rules, move-Works)

  adopt_checkpointed-Works :
      (local : OrderRecord) (i : String) (o : BrokerOrder) (prefix : String) (t : ℕ)
      (early : Option OrderRecord)
      → Works (adopt_checkpointed {E = E} texts shared local i o prefix t early)
  unfolding adopt_checkpointed
  adopt_checkpointed-Works local i o prefix t none = adopt_status-Works local i o prefix t
  adopt_checkpointed-Works local i o prefix t (some failed) = pure-Works failed

  quarantine-Works :
      (local : OrderRecord) (o : BrokerOrder) (prefix : String) (t : ℕ) (names : List String)
      (problem : Option String)
      → Works (quarantine_broker_truth {E = E} texts shared local o names problem prefix t)
  unfolding quarantine_broker_truth
  quarantine-Works local o prefix t names problem = search (works_rules, move-Works)

  adopt_broker_truth-Works :
      (i : String) (o : BrokerOrder) (prefix : String) (t : ℕ)
      → Works (adopt_broker_truth {E = E} texts shared i o prefix t)
  unfolding adopt_broker_truth
  adopt_broker_truth-Works i o prefix t =
      search
        (works_rules, quarantine-Works, checkpoint_broker_execution-Works, adopt_checkpointed-Works)
        depth 9

  module _ (outside : Outside E) (grace : ℕ) where
    publish-Works :
        (m : OutboxRow) (t : ℕ) (r : OrderRecord) (attempted recovered : Bool)
        → Works (publish texts shared outside grace m t r attempted recovered)
    unfolding publish
    publish-Works m t r attempted recovered = search (works_rules, mark-Works)

    adopt_and_publish-Works :
        (r : OrderRecord) (m : OutboxRow) (o : BrokerOrder) (name : String) (t : ℕ)
        (attempted recovered : Bool)
        → Works (adopt_and_publish texts shared outside grace r m o name t attempted recovered)
    unfolding adopt_and_publish
    adopt_and_publish-Works r m o name t attempted recovered =
        search (works_rules, adopt_broker_truth-Works, publish-Works)

    move_and_publish-Works :
        (r : OrderRecord) (m : OutboxRow) (target : OrderState) (name : String) (payload : Json)
        (t : ℕ) (attempted recovered : Bool)
        → Works (
            move_and_publish texts shared outside grace r m target name payload t attempted
              recovered)
    unfolding move_and_publish
    move_and_publish-Works r m target name payload t attempted recovered =
        search (works_rules, move-Works, publish-Works)

    look_up-Works : (client : String) → Works (look_up texts shared outside grace client)
    unfolding look_up
    look_up-Works client = record { steps = λ w. stop; quiet = λ w. refl }

    after_ambiguous-Works :
        (r : OrderRecord) (m : OutboxRow) (code : String) (t : ℕ) (found : Option BrokerOrder)
        → Works (after_ambiguous texts shared outside grace r m code t found)
    unfolding after_ambiguous
    after_ambiguous-Works r m code t none = search (move_and_publish-Works)
    after_ambiguous-Works r m code t (some o) = search (adopt_and_publish-Works)

    ask_broker-Works :
        (r : OrderRecord) (m : OutboxRow) (code : String) (t : ℕ)
        → Works (ask_broker texts shared outside grace r m code t)
    unfolding ask_broker
    ask_broker-Works r m code t = search (works_rules, look_up-Works, after_ambiguous-Works)

    pub after_submission-Works :
        (r : OrderRecord) (m : OutboxRow) (t : ℕ) (answer : Submission)
        → Works (after_submission texts shared outside grace r m t answer)
    unfolding after_submission
    after_submission-Works r m t (placed o) = search (adopt_and_publish-Works)
    after_submission-Works r m t (refused code ambiguous) =
        search (works_rules, ask_broker-Works, move_and_publish-Works)
    after_submission-Works r m t (broken e) = raise-Works e

    after_recovery-Works :
        (r : OrderRecord) (m : OutboxRow) (t : ℕ) (found : Option BrokerOrder)
        → Works (after_recovery texts shared outside grace r m t found)
    unfolding after_recovery
    after_recovery-Works r m t none = search (move_and_publish-Works)
    after_recovery-Works r m t (some o) = search (adopt_and_publish-Works)

    recover_after_started-Works :
        (r : OrderRecord) (m : OutboxRow) (t : ℕ)
        → Works (recover_after_started texts shared outside grace r m t)
    unfolding recover_after_started
    recover_after_started-Works r m t = search (works_rules, look_up-Works, after_recovery-Works)

    pub handle_existing-Works :
        (r : OrderRecord) (m : OutboxRow) (t : ℕ)
        → Works (handle_existing texts shared outside grace r m t)
    unfolding handle_existing
    handle_existing-Works r m t = search (works_rules, recover_after_started-Works, publish-Works)

    refused-Works :
        (m : OutboxRow) (t : ℕ) (message : String)
        → Works (after_refused_claim texts shared outside grace m t (value_error message))
    unfolding after_refused_claim
    refused-Works m t message = search (works_rules, handle_existing-Works) depth 9

    pub after_refused_claim-Works :
        (m : OutboxRow) (t : ℕ) (e : Error)
        → Works (after_refused_claim texts shared outside grace m t e)
    unfolding after_refused_claim
    after_refused_claim-Works m t (value_error message) = refused-Works m t message
    after_refused_claim-Works m t _ = search (works_rules)
