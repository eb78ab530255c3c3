-- ===== src/Amendments/Tests.antt =====
-- A replace that the executor of app/execution/order_mutation_executor.py brings to the broker, with
-- the lineage of app/oms/indexed.py, and the theorems at it.
use trade_bot.Prelude.{
  false, inr, ℕ, ◌+◌, ◌≤◌, true, none, some, [], ◌∷◌, String, ◌≡◌, refl, inl, is_blank,
  is_uppercase, strip, number_text,
}
use trade_bot.Prelude.Decimal.{dec_lt, dec_eq}
use trade_bot.Prelude.Clock.{aware}
use trade_bot.Prelude.Action.{ok}
use trade_bot.Oms.Tables.{OrderRecord, get}
use trade_bot.Oms.Tests.{texts as digest, units, open_row}
use trade_bot.Mutations.Tables as Tables
use trade_bot.Mutations.Tables.{
  Mutation, MutationMessage, BrokerIdentity, Db, succeeded, find_mutation,
}
use trade_bot.Mutations.Store.{
  request, validate_request, same_request, claim_started, set_state, request_message,
  mark_outbox_published, events_of,
}
use trade_bot.Mutations.Steps.{ask, claim, run, after}
use trade_bot.Mutations.Claims.{open_claims}
use trade_bot.Mutations.Tests.{replacing, empty_db}
use trade_bot.Execution.Broker.{BrokerOrder, BrokerOrderStatus, bid, validate_broker_order}
use trade_bot.Execution.World.{placed}
use trade_bot.Indexed.Lineage.{
  Succession, find_identity, identities, primary_row, open_and_register,
}
use trade_bot.Indexed.Edges.{
  IsLineage-append, IsLineage, open_and_register-Extending, open_and_register-IsLineage,
}
use trade_bot.Amendments.World.{Setting, Desk, read, amend}
use trade_bot.Amendments.Truth.{MutationExecutionResult, resolve_truth}
use trade_bot.Amendments.Executor.{predecessor_in, execute_mutation}
use trade_bot.Amendments.Quiet.{KeepsMutations}
use trade_bot.Amendments.Once.{amended, executes, at_first, amended_once}
use trade_bot.Amendments.Late.{fails_too_late}
use trade_bot.Amendments.Verdict.{becomes, reports_on}
use trade_bot.Amendments.Resolved.{resolved_as_reported}

abbrev replaced_order : BrokerOrder
replaced_order = record {
  client_order_id = "c1";
  broker_order_id = "b2";
  instrument = "BTC";
  side = bid;
  quantity = units 10;
  limit_price = units 6;
  status = BrokerOrderStatus.replaced;
  filled_quantity = units 0;
  updated_at = aware 13;
  filled_avg_price = none;
}

-- A broker that counts the calls and answers with the replacement.
abbrev setting : Setting ℕ
setting = record {
  digest = digest;
  decimal_str = λ d. "d";
  registrar = some open_and_register;
  market = record {
    writes_enabled = λ n. true;
    amend = λ a n. (placed replaced_order, n + 1);
    look_up = λ client n. (read none, n);
  };
  grace = 30;
}

abbrev asked_db : Db
asked_db = run (ask replacing (aware 11) ∷ []) empty_db

abbrev claimed_db : Db
claimed_db = run (ask replacing (aware 11) ∷ claim "m2" (aware 12) ∷ []) empty_db

abbrev desk : Db → Desk ℕ
desk db = record {
  oms = record { orders = open_row ∷ []; events = []; outbox = []; next_message = 1 };
  mutations = db;
  outside = 0;
  amendments = [];
}

abbrev replace_message : MutationMessage
replace_message = request_message replacing 1 11

abbrev executed_desk : Desk ℕ
executed_desk = (execute_mutation setting replace_message (aware 13) (desk asked_db)).1

abbrev executed_again : Desk ℕ
executed_again = (execute_mutation setting replace_message (aware 14) executed_desk).1

abbrev lineage_row : BrokerIdentity
lineage_row = record {
  intent_id = "i1";
  broker_order_id = "b2";
  predecessor_broker_order_id = some "b1";
  replace_mutation_id = some "m2";
  generation = 1;
  created_at = 13;
}

-- Two calls change the order at the broker once, and the successor is registered.
replaced_once :
    (amended "m2" executed_again.amendments ≡ 1)
    × (find_identity "b2" (identities executed_again.mutations) ≡ some lineage_row)
unfolding execute_mutation run after request claim_started set_state mark_outbox_published
    validate_request same_request is_blank strip dec_lt dec_eq number_text resolve_truth get
    open_and_register validate_broker_order is_uppercase Tables.get amend predecessor_in events_of
replaced_once = (refl, refl)

open_and_register-kept : KeepsMutations setting.registrar
open_and_register-kept p s = ((open_and_register-Extending p).at s).kept

amended_once_example :
    (amended "m2" executed_desk.amendments ≤ 1)
    × (1 ≤ amended "m2" executed_desk.amendments → open_claims "m2" executed_desk.mutations ≡ 0)
amended_once_example =
    amended_once setting open_and_register-kept "m2" (desk asked_db) executed_desk refl
      (executes replace_message (aware 13) at_first)

abbrev confirmed : MutationExecutionResult
confirmed = record {
  order = open_row.order;
  mutation = record {
    mutation_id = "m2";
    intent_id = "i1";
    kind = Tables.replace;
    target_limit_price = some (units 6);
    baseline_limit_price = units 5;
    broker_order_id = "b2";
    state = succeeded;
    outcome = "REPLACED";
    version = 3;
    created_at = 11;
    updated_at = 13;
  };
  mutation_attempted = false;
  recovered_by_read = false;
}

abbrev started_mutation : Mutation
started_mutation = record (confirmed.mutation) {
  broker_order_id = "b1";
  state = Tables.started;
  outcome = "";
  version = 2;
  updated_at = 12;
}

confirmed_result :
    (resolve_truth setting started_mutation replaced_order 13 false (desk claimed_db)).0
    ≡ ok confirmed
unfolding run after request claim_started set_state validate_request same_request is_blank strip
    dec_lt dec_eq number_text resolve_truth get open_and_register validate_broker_order is_uppercase
confirmed_result = refl

abbrev succession : Succession
succession = record {
  intent_id = "i1";
  mutation_id = "m2";
  predecessor_broker_order_id = "b1";
  successor_broker_order_id = "b2";
  occurred_at = aware 13;
}

resolved_as_reported_example :
    ((r : OrderRecord) × (get "i1" (desk claimed_db).oms ≡ some r)
      × (reports_on r replaced_order ≡ true)
      × (fails_too_late started_mutation replaced_order r succeeded ≡ true))
    × (validate_broker_order replaced_order ≡ ok tt)
    × (becomes started_mutation replaced_order succeeded ≡ true)
resolved_as_reported_example =
    resolved_as_reported setting started_mutation replaced_order 13 false (desk claimed_db)
      confirmed confirmed_result

-- The database of the call, with the primary id and its successor.
abbrev registered_db : Db
registered_db = record empty_db { identities = some (primary_row open_row ∷ lineage_row ∷ []) }

registered_IsLineage : IsLineage (identities registered_db)
registered_IsLineage =
    let first = primary_row open_row in
    IsLineage-append (first ∷ []) lineage_row
      (IsLineage-append [] first (λ b r h. absurd (cc)) (inl refl))
      (inr ("b1", first, refl, refl, refl, refl))

open_and_register-IsLineage_example :
    IsLineage (identities (open_and_register succession registered_db).1)
    × ((b : String) (r : BrokerIdentity)
        → find_identity b (identities registered_db) ≡ some r
        → find_identity b (identities (open_and_register succession registered_db).1) ≡ some r)
    × ((open_and_register succession registered_db).1.mutations ≡ [])
open_and_register-IsLineage_example =
    open_and_register-IsLineage succession registered_db registered_IsLineage
