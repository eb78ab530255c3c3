-- ===== src/Execution/Quarantine.antt =====
-- How `_adopt_broker_truth` of app/execution/paper_executor.py quarantines an answer of the broker
-- that is not the order, and what app/oms/reconciliation.py makes of that.
use trade_bot.Prelude.{
  ℕ, Bool, true, false, ◌&&◌, ◌||◌, Option, none, some, List, [], ◌∷◌, String, str_append,
}
use trade_bot.Prelude.Decimal.{Decimal}
use trade_bot.Prelude.Clock.{Datetime}
use trade_bot.Prelude.Action.{Result, ok, err}
use trade_bot.Prelude.Json.{Json}
use trade_bot.Oms.State.{uncertain}
use trade_bot.Oms.Tables.{Oms, OrderRecord, OrderRow}
use trade_bot.Oms.Accepted.{moved}
use trade_bot.Reconciliation.Truth.{BrokerOrderTruth}
use trade_bot.Reconciliation.Order.{Resolver, reconcile_order}
use trade_bot.Reconciliation.Proof.{is_same_order}
use trade_bot.Execution.Broker.{BrokerOrder}
use trade_bot.Execution.World.{Texts, World}
use trade_bot.Execution.Adopt.{truth_mismatches, quarantine_payload}

abbrev quarantine_event : String → String
quarantine_event prefix = str_append prefix ":broker-truth-uncertain"

module _ (texts : Texts) where
  open texts use {digest, iso}

  -- The order store after the quarantine.
  abbrev quarantined_store : OrderRow → BrokerOrder → Option String → String → ℕ → Oms → Oms
  quarantined_store r o problem prefix t s =
      moved digest r.intent_id uncertain (quarantine_event prefix) t none
        (some (quarantine_payload iso r.order o (truth_mismatches r.order o) problem)) r s

-- The arguments of a reconciliation that a broker's report is given to.
pub record Report : Type 0 where
  pub broker : BrokerOrderTruth
  pub occurred_at : Datetime
  pub event_prefix : String

-- Some report has the symbol, the side, the quantity and the limit price of the order.
abbrev pub any_same : OrderRecord → List Report → Bool
any_same r [] = false
any_same r (x ∷ xs) = is_same_order r x.broker || any_same r xs

abbrev has_raised : {A : Type 0} → Result A → Bool
has_raised (ok x) = false
has_raised (err e) = true

module _ (digest : Json → String) (decimal_str : Decimal → String) (resolver : Resolver) where
  -- The reports are reconciled in turn: whether every call raised, and the store at the end.
  abbrev pub reconcile_each : String → List Report → Oms → Bool × Oms
  reconcile_each i [] s = (true, s)
  reconcile_each i (x ∷ xs) s =
      let (answer, s') =
        reconcile_order digest decimal_str resolver i (some x.broker) x.occurred_at x.event_prefix
          s in
      let (rest, final) = reconcile_each i xs s' in (has_raised answer && rest, final)
