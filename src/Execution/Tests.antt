-- ===== src/Execution/Tests.antt =====
-- An order that is executed, and one that is booked, in the stores of app/execution, and the
-- theorems at them.
use trade_bot.Prelude.{
  ℕ, ◌+◌, ◌≤◌, true, false, none, some, [], ◌∷◌, strip, ◌≡◌, refl, inl, is_blank, is_uppercase,
  upper, number_text,
}
use trade_bot.Prelude.Decimal.{dec_lt, dec_eq, add, sub, mul}
use trade_bot.Prelude.Clock.{aware}
use trade_bot.Prelude.Action.{Result, ok, err, Error, key_error}
use trade_bot.Prelude.SameJson.{json_same}
use trade_bot.Domain.{validate_fill, buy}
use trade_bot.Oms.State.{
  outboxed, submit_started, acknowledged, partially_filled, validate_transition,
}
use trade_bot.Oms.Tables.{Oms, OrderRecord, OrderRow, OutboxRow, find_order, get}
use trade_bot.Oms.Events.{append_event, event_fingerprint}
use trade_bot.Oms.Orders.{transition, submit_payload}
use trade_bot.Oms.Outbox.{mark_outbox_published}
use trade_bot.Oms.Tests.{texts as digest, units, open_row}
use trade_bot.Reconciliation.Truth.{BrokerOrderState}
use trade_bot.Oms.Fills.{apply_cumulative_fill, fill_target, validate_fill_target}
use trade_bot.Portfolio.Ledger.{open_ledger, apply_fill, position}
use trade_bot.Portfolio.Journal.{strict_append, append_fill, replay, apply_rows}
use trade_bot.Execution.Broker.{BrokerOrder, BrokerOrderStatus, bid, validate_broker_order}
use trade_bot.Execution.Checkpoints.{
  CheckpointRow, CheckpointDb, resolve_through, unresolved_checkpoints, insert_row,
  unresolved_checkpoint_count,
}
use trade_bot.Execution.Facts.{
  validate_fact, to_fill, fill_of_fact, FactDb, ExecutionFact, mark_projected, projected,
}
use trade_bot.Execution.World.{Outside, Texts, World, placed}
use trade_bot.Execution.Adopt.{adopt_broker_truth}
use trade_bot.Execution.Submit.{execute, execute_outboxed, before_claim, validate_submit_message}
use trade_bot.Execution.Claims.{Moves, occurrences}
use trade_bot.Execution.Once.{seen, intents, at_first, executes, submitted_once, execute-Moves}
use trade_bot.Execution.Projected.{quarantine, IsProjected, run, run-IsProjected}
use trade_bot.Execution.Barrier.{any_covered, unresolved_rows, Named, resolve_through-any_covered}
use trade_bot.Execution.Gate.{buy_held_back}
use trade_bot.Execution.Adopted.{adopted_as_reported}
use trade_bot.Execution.Quarantine.{Report}
use trade_bot.Execution.Accounting.{
  validate_fact_identity, Accounting, Books, FillAccountingResult, book_fact, project_fact,
}
use trade_bot.Execution.Blockers.{failed_fact_kept}
use trade_bot.Execution.Journaled.{HasFill}
use trade_bot.Execution.Settled.{settled_fact}

abbrev words : Texts
words = record { digest = digest; sha = λ s. s; plain = λ d. "d"; iso = λ d. "t"; zulu = λ n. "z" }

abbrev waiting : OrderRow
waiting = record open_row {
  order = record (open_row.order) { state = outboxed; broker_order_id = ""; version = 3 };
}

abbrev message : OutboxRow
message = record {
  message_id = 1;
  intent_id = "i1";
  topic = "paper_order_submit";
  payload = submit_payload waiting.order;
  created_at = 102;
  published_at = none;
}

abbrev waiting_store : Oms
waiting_store = record {
  orders = waiting ∷ [];
  events = [];
  outbox = message ∷ [];
  next_message = 2;
}

abbrev answer : BrokerOrder
answer = record {
  client_order_id = "c1";
  broker_order_id = "b1";
  instrument = "BTC";
  side = bid;
  quantity = units 10;
  limit_price = units 5;
  status = BrokerOrderStatus.acknowledged;
  filled_quantity = units 0;
  updated_at = aware 104;
  filled_avg_price = none;
}

-- A broker that counts the submissions and acknowledges each.
abbrev broker : Outside ℕ
broker = record {
  writes_enabled = λ n. true;
  authorize = none;
  submit = λ p n. (placed answer, n + 1);
  look_up = λ client n. (ok none, n);
}

abbrev world : World ℕ
world = record { oms = waiting_store; facts = none; checkpoints = none; outside = 0; posts = [] }

-- The world after a call.
abbrev executed_world : World ℕ
executed_world = (execute words false broker 30 message "aa" (aware 103) world).1

-- The call submits the order, and the order is acknowledged.
executed_once : intents executed_world.posts ≡ "i1" ∷ []
unfolding execute adopt_broker_truth transition mark_outbox_published get append_event
    event_fingerprint validate_transition validate_broker_order is_blank is_uppercase strip
    number_text digest dec_lt dec_eq json_same execute_outboxed before_claim validate_submit_message
executed_once = refl

execute-Moves_example : Moves digest (seen world []) (seen executed_world [])
execute-Moves_example = execute-Moves words false broker 30 message "aa" (aware 103) world refl

submitted_once_example : occurrences "i1" (intents executed_world.posts) ≤ 1
submitted_once_example =
    submitted_once words false broker 30 "i1" world executed_world refl
      (executes message "aa" (aware 103) at_first refl)

-- Another order is executed in part, which is not booked yet.
abbrev checkpoint : CheckpointRow
checkpoint = record {
  checkpoint = record {
    checkpoint_id = "k1";
    intent_id = "i0";
    broker_order_id = "b0";
    client_order_id = "c0";
    symbol = "BTC";
    side = buy;
    order_quantity = units 10;
    cumulative_quantity = units 4;
    broker_status = "PARTIALLY_FILLED";
    observed_at = aware 90;
    observed_avg_price = none;
  };
  observed_at = 90;
}

abbrev barrier : CheckpointDb
barrier = record { checkpoints = checkpoint ∷ []; events = [] }

buy_held_back_example :
    (e : Error) × (execute words false broker 30 message "aa"
        (aware 103)
        (record world { checkpoints = some barrier })
      ≡ (err e, record world { checkpoints = some barrier }))
unfolding get unresolved_checkpoint_count
buy_held_back_example =
    buy_held_back words false broker 30 message "aa" (aware 103)
      (record world { checkpoints = some barrier }) waiting.order refl refl refl refl

resolve_through-any_covered_example :
    (any_covered
        (strip "i0")
        (units 4)
        (unresolved_rows (resolve_through "i0" (units 4) (aware 95) barrier).1)
      ≡ false)
    × Named (resolve_through "i0" (units 4) (aware 95) barrier).1.events
unfolding resolve_through unresolved_checkpoints insert_row is_blank strip dec_lt dec_eq
resolve_through-any_covered_example =
    resolve_through-any_covered "i0" (units 4) (aware 95) barrier 1 tt refl

-- The broker answers with an order of another quantity.
abbrev other_answer : BrokerOrder
other_answer = record answer { quantity = units 11 }

abbrev started : OrderRow
started = record waiting { order = record (waiting.order) { state = submit_started; version = 4 } }

abbrev started_world : World ℕ
started_world = record world { oms = record waiting_store { orders = started ∷ [] } }

-- The answer to an order that was only started is adopted as an acknowledgement.
adopted_as_reported_example :
    let (result, w') = adopt_broker_truth words false "i1" answer "p" 104 started_world in
    (q : OrderRow) × (result ≡ ok q.order)
    × (find_order "i1" w'.oms.orders ≡ some q)
    × (q.state ≡ acknowledged)
    × (q.broker_order_id ≡ "b1")
unfolding validate_broker_order is_blank is_uppercase strip dec_lt dec_eq
adopted_as_reported_example =
    adopted_as_reported words false answer "p" 104 started_world started refl refl refl refl refl
      refl refl refl

-- A report without the economic values, and one with the quantity of the answer.
abbrev bare_report : Report
bare_report = record {
  broker = record {
    client_order_id = "c1";
    broker_order_id = "b1";
    state = BrokerOrderState.filled;
    cumulative_filled = units 10;
    symbol = none;
    side = none;
    quantity = none;
    limit_price = none;
  };
  occurred_at = aware 110;
  event_prefix = "r";
}

abbrev other_report : Report
other_report = record bare_report {
  broker = record (bare_report.broker) {
    symbol = some "BTC";
    side = some buy;
    quantity = some (units 11);
    limit_price = some (units 5);
  };
}

abbrev fact : ExecutionFact
fact = record {
  execution_fact_id = "x1";
  intent_id = "i1";
  broker_order_id = "b1";
  client_order_id = "c1";
  symbol = "BTC";
  side = buy;
  order_quantity = units 10;
  cumulative_quantity = units 4;
  quantity = units 4;
  price = units 5;
  fee = units 0;
  occurred_at = aware 110;
}

abbrev inbox : FactDb
inbox = record {
  facts = record { fact = fact; occurred_at = 110 } ∷ [];
  sources = [];
  projections = [];
}

abbrev accounting : Accounting
accounting = record {
  digest = digest;
  sha = λ s. s;
  plain = λ d. "d";
  zulu = λ n. "z";
  message_of = λ e. "m";
  name_of = λ e. "E";
  resolver = none;
  opening_cash = units 1000;
  portfolio_append = strict_append;
  fee_for = λ f. ok (units 0);
}

-- The books with the order acknowledged, and without it.
abbrev books : Books
books = record {
  oms = record waiting_store { orders = open_row ∷ [] };
  portfolio = record { rows = []; genesis = none };
  facts = inbox;
  checkpoints = none;
  runtime_ledger = none;
}

abbrev no_order : Books
no_order = record books { oms = record waiting_store { orders = [] } }

abbrev projection : Result FillAccountingResult × Books
projection = project_fact accounting fact books

abbrev filled_row : OrderRecord
filled_row = record (open_row.order) {
  state = partially_filled;
  filled_quantity = units 4;
  version = 6;
  updated_at = 110;
}

abbrev booked : FillAccountingResult
booked = record {
  order = filled_row;
  fill = fill_of_fact fact;
  portfolio_event_appended = true;
  oms_advanced = true;
}

failed_fact_kept_example : (project_fact accounting fact no_order).1.facts ≡ inbox
unfolding project_fact book_fact validate_fact get is_blank strip is_uppercase dec_lt dec_eq
failed_fact_kept_example = failed_fact_kept accounting fact no_order (key_error "i1") refl

settled_fact_example :
    HasFill fact fact.occurred_at projection.1.portfolio
    × IsProjected (strip "x1") projection.1.facts
unfolding project_fact book_fact validate_fact to_fill get transition apply_cumulative_fill
    append_event event_fingerprint validate_transition fill_target validate_fill_target digest
    append_fill strict_append replay apply_rows open_ledger apply_fill validate_fill position
    mark_projected is_blank strip is_uppercase dec_lt dec_eq add sub mul validate_fact_identity
    upper
settled_fact_example = settled_fact accounting fact books booked (inl refl) refl refl

-- The fact is projected, and then quarantined by a late caller.
abbrev projected_inbox : FactDb
projected_inbox = record inbox {
  projections =
      record {
        event_id = "execution-projection:x1:PROJECTED:";
        execution_fact_id = "x1";
        state = projected;
        reason = none;
        occurred_at = 110;
      }
      ∷ [];
}

run-IsProjected_example :
    IsProjected "x1" (run (quarantine "x1" "late" (aware 120) ∷ []) projected_inbox)
run-IsProjected_example =
    run-IsProjected (quarantine "x1" "late" (aware 120) ∷ []) "x1" projected_inbox refl
