-- ===== src/Amendments/Recovery.antt =====
-- app/execution/order_mutation_executor.py: the resolution of a mutation, its recovery and its
-- publication call no change at the broker.
use trade_bot.Prelude.{ℕ, Bool, Option, none, some, String}
use trade_bot.Prelude.Decimal.{Decimal}
use trade_bot.Prelude.Clock.{Datetime}
use trade_bot.Prelude.Action.{Action}
use trade_bot.Oms.Tables.{OrderRecord}
use trade_bot.Mutations.Tables.{Mutation, MutationMessage, Db}
use trade_bot.Mutations.Steps.{same}
use trade_bot.Execution.Broker.{BrokerOrder}
use trade_bot.Execution.World.{Submission, placed, refused, broken}
use trade_bot.Indexed.Lineage.{Succession}
use trade_bot.Amendments.World.{Setting, order_of}
use trade_bot.Amendments.Truth.{
  register_with, register_successor, mark_uncertain_if_needed, give_up, fail_mutation, adopt_fill,
  validate_broker_truth, confirm_replace, cancel_locally, after_cancelled, resolve_status,
  resolve_replace, resolve_cancel, resolve_truth,
}
use trade_bot.Amendments.Executor.{
  mutation_predecessor, ensure_replace_lineage, as_stored, after_recovery_read, recover,
  after_error_read, read_after_error, after_amendment, handle_started, handle_settled,
  handle_existing_mutation, reconcile_mutation,
}
use trade_bot.Amendments.Quiet.{KeepsMutations, Quiet, mutations-Quiet, quiet_rules}

module _ {E : Type 0} where
  order_of-Quiet : (i : String) → Quiet {E = E} (order_of i)
  unfolding order_of
  order_of-Quiet i = search (quiet_rules)

  register_with-Quiet :
      (o : Option (Succession → Action Db (Unit {0}))) (p : Succession)
      → KeepsMutations o
      → Quiet {E = E} (register_with o p)
  unfolding register_with
  register_with-Quiet none p kept = search (quiet_rules)
  register_with-Quiet (some method) p kept = mutations-Quiet (method p) (λ s. same (kept p s))

module _ {E : Type 0} (setting : Setting E) (kept : KeepsMutations setting.registrar) where
  register_successor-Quiet : (p : Succession) → Quiet (register_successor setting p)
  unfolding register_successor
  register_successor-Quiet p = register_with-Quiet setting.registrar p kept

  mark_uncertain-Quiet : (i o : String) (t : ℕ) → Quiet (mark_uncertain_if_needed setting i o t)
  unfolding mark_uncertain_if_needed
  mark_uncertain-Quiet i o t = search (quiet_rules)

  give_up-Quiet :
      (m : Mutation) (r : OrderRecord) (o : String) (t : ℕ) → Quiet (give_up setting m r o t)
  unfolding give_up
  give_up-Quiet m r o t = search (quiet_rules, mark_uncertain-Quiet)

  fail_mutation-Quiet :
      (m : Mutation) (r : OrderRecord) (o : String) (t : ℕ) (b : Bool)
      → Quiet (fail_mutation setting m r o t b)
  unfolding fail_mutation
  fail_mutation-Quiet m r o t b = search (quiet_rules)

  adopt_fill-Quiet :
      (r : OrderRecord) (o : BrokerOrder) (m : Mutation) (t : ℕ) (b : Bool)
      → Quiet (adopt_fill setting r o m t b)
  unfolding adopt_fill
  adopt_fill-Quiet r o m t b = search (quiet_rules)

  validate_broker_truth-Quiet :
      (m : Mutation) (o : BrokerOrder) → Quiet (validate_broker_truth setting m o)
  unfolding validate_broker_truth
  validate_broker_truth-Quiet m o = search (quiet_rules, order_of-Quiet) depth 20

  module _ (m : Mutation) (o : BrokerOrder) (r : OrderRecord) (t : ℕ) where
    cancel_locally-Quiet : Quiet (cancel_locally setting m o r t)
    unfolding cancel_locally
    cancel_locally-Quiet = search (quiet_rules)

    module _ (ambiguous : Bool) where
      confirm_replace-Quiet : Quiet (confirm_replace setting m o r t ambiguous)
      unfolding confirm_replace
      confirm_replace-Quiet = search (quiet_rules, register_successor-Quiet, adopt_fill-Quiet)

  module _ (m : Mutation) (o : BrokerOrder) where
    after_cancelled-Quiet :
        (r : OrderRecord) (t : ℕ) (ambiguous : Bool)
        → Quiet (after_cancelled setting m o r t ambiguous)
    unfolding after_cancelled
    after_cancelled-Quiet r t ambiguous =
        search (quiet_rules, fail_mutation-Quiet, cancel_locally-Quiet) depth 9

    resolve_status-Quiet :
        (r : OrderRecord) (t : ℕ) (ambiguous : Bool)
        → Quiet (resolve_status setting m o r t ambiguous)
    unfolding resolve_status
    resolve_status-Quiet r t ambiguous =
        search
          (quiet_rules, adopt_fill-Quiet, fail_mutation-Quiet, after_cancelled-Quiet, give_up-Quiet)
          depth 9

    resolve_replace-Quiet :
        (r : OrderRecord) (t : ℕ) (ambiguous : Bool) (target : Option Decimal)
        → Quiet (resolve_replace setting m o r t ambiguous target)
    unfolding resolve_replace
    resolve_replace-Quiet r t ambiguous none = search (quiet_rules)
    resolve_replace-Quiet r t ambiguous (some target) =
        search (quiet_rules, confirm_replace-Quiet, resolve_status-Quiet)

    resolve_cancel-Quiet :
        (r : OrderRecord) (t : ℕ) (ambiguous : Bool)
        → Quiet (resolve_cancel setting m o r t ambiguous)
    unfolding resolve_cancel
    resolve_cancel-Quiet r t ambiguous = search (quiet_rules, give_up-Quiet, resolve_status-Quiet)

    resolve_truth-Quiet : (t : ℕ) (ambiguous : Bool) → Quiet (resolve_truth setting m o t ambiguous)
    unfolding resolve_truth
    resolve_truth-Quiet t ambiguous =
        search
          (quiet_rules, validate_broker_truth-Quiet, resolve_cancel-Quiet, resolve_replace-Quiet)

  predecessor-Quiet : (i : String) → Quiet (mutation_predecessor setting i)
  unfolding mutation_predecessor
  predecessor-Quiet i = search (quiet_rules)

  lineage-Quiet : (m : Mutation) (t : ℕ) → Quiet (ensure_replace_lineage setting m t)
  unfolding ensure_replace_lineage
  lineage-Quiet m t = search (quiet_rules, predecessor-Quiet, register_successor-Quiet) depth 9

  as_stored-Quiet : (m : Mutation) → Quiet (as_stored setting m)
  unfolding as_stored
  as_stored-Quiet m = search (quiet_rules, order_of-Quiet)

  after_recovery_read-Quiet :
      (m : Mutation) (r : OrderRecord) (t : ℕ) (found : Option BrokerOrder)
      → Quiet (after_recovery_read setting m r t found)
  unfolding after_recovery_read
  after_recovery_read-Quiet m r t none = search (give_up-Quiet)
  after_recovery_read-Quiet m r t (some o) = search (quiet_rules, resolve_truth-Quiet)

  recover-Quiet : (m : Mutation) (t : ℕ) → Quiet (recover setting m t)
  unfolding recover
  recover-Quiet m t = search (quiet_rules, order_of-Quiet, after_recovery_read-Quiet)

  after_error_read-Quiet :
      (m : Mutation) (r : OrderRecord) (code : String) (t : ℕ) (found : Option BrokerOrder)
      → Quiet (after_error_read setting m r code t found)
  unfolding after_error_read
  after_error_read-Quiet m r code t none = search (quiet_rules)
  after_error_read-Quiet m r code t (some o) = search (resolve_truth-Quiet)

  read_after_error-Quiet :
      (m : Mutation) (code : String) (t : ℕ) → Quiet (read_after_error setting m code t)
  unfolding read_after_error
  read_after_error-Quiet m code t = search (quiet_rules, order_of-Quiet, after_error_read-Quiet)

  pub after_amendment-Quiet :
      (m : Mutation) (message : MutationMessage) (t : ℕ) (answer : Submission)
      → Quiet (after_amendment setting m message t answer)
  unfolding after_amendment
  after_amendment-Quiet m message t (placed o) = search (quiet_rules, resolve_truth-Quiet) depth 9
  after_amendment-Quiet m message t (refused code ambiguous) =
      search (quiet_rules, read_after_error-Quiet) depth 9
  after_amendment-Quiet m message t (broken e) = search (quiet_rules)

  handle_started-Quiet :
      (m : Mutation) (message : MutationMessage) (t : ℕ)
      → Quiet (handle_started setting m message t)
  unfolding handle_started
  handle_started-Quiet m message t = search (quiet_rules, as_stored-Quiet, recover-Quiet) depth 9

  handle_settled-Quiet :
      (m : Mutation) (message : MutationMessage) (t : ℕ)
      → Quiet (handle_settled setting m message t)
  unfolding handle_settled
  handle_settled-Quiet m message t = search (quiet_rules, as_stored-Quiet, lineage-Quiet) depth 9

  pub handle_existing-Quiet :
      (m : Mutation) (message : MutationMessage) (t : ℕ)
      → Quiet (handle_existing_mutation setting m message t)
  unfolding handle_existing_mutation
  handle_existing-Quiet m message t =
      search (quiet_rules, handle_started-Quiet, handle_settled-Quiet)

  -- A reconciliation only reads at the broker.
  pub reconcile-Quiet : (i : String) (t : Datetime) → Quiet (reconcile_mutation setting i t)
  unfolding reconcile_mutation
  reconcile-Quiet i t = search (quiet_rules, as_stored-Quiet, recover-Quiet, lineage-Quiet) depth 20
