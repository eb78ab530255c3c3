-- ===== src/Amendments/World.antt =====
-- The arguments of `PaperOrderMutationExecutor` in app/execution/order_mutation_executor.py: its
-- stores, the broker, which is not modelled, and the method that writes the lineage of broker ids.
use trade_bot.Prelude.{ℕ, Bool, Option, none, List, [], ◌∷◌, ◌++◌, String}
use trade_bot.Prelude.Decimal.{Decimal}
use trade_bot.Prelude.Json.{Json}
use trade_bot.Prelude.Action.{Action, ok, err, Error, key_error, ◌>>=◌, gets, or_raise}
use trade_bot.Oms.Tables.{Oms, OrderRecord, get}
use trade_bot.Mutations.Tables.{Db}
use trade_bot.Indexed.Lineage.{Succession}
use trade_bot.Execution.Broker.{BrokerOrder}
use trade_bot.Execution.World.{Submission}

-- A call that changes an order at the broker, and the mutation that it is for: a cancel has no price.
pub record Amendment : Type 0 where
  pub mutation_id : String
  pub broker_order_id : String
  pub limit_price : Option Decimal

-- What `get_order_by_client_order_id` comes to: an order or none, a `BrokerMutationError`, or
-- another exception.
pub data Reading : Type 0 where
  read : Option BrokerOrder → Reading
  unreadable : Reading
  failing : Error → Reading

-- What the broker does, over a state of its own.
pub record Market (E : Type 0) : Type 0 where
  pub writes_enabled : E → Bool
  pub amend : Amendment → E → Submission × E
  pub look_up : String → E → Reading × E

-- `registrar` is the method that writes the lineage of broker ids, where a store for it is found;
-- `grace` is `started_recovery_grace_seconds`, in microseconds.
pub record Setting (E : Type 0) : Type 0 where
  pub digest : Json → String
  pub decimal_str : Decimal → String
  pub registrar : Option (Succession → Action Db (Unit {0}))
  pub market : Market E
  pub grace : ℕ

-- The stores, which are tables of one database, the state of the broker, and every call so far that
-- was to change an order there.
pub record Desk (E : Type 0) : Type 0 where
  pub oms : Oms
  pub mutations : Db
  pub outside : E
  pub amendments : List Amendment

module _ {E : Type 0} where
  abbrev pub on_orders : {A : Type 0} → Action Oms A → Action (Desk E) A
  on_orders m w = let (r, s) = m w.oms in (r, record w { oms = s })

  -- The mutation store is handed the orders as they are.
  abbrev pub on_mutations : {A : Type 0} → Action Db A → Action (Desk E) A
  on_mutations m w =
      let (r, s) = m (record (w.mutations) { orders = w.oms.orders }) in
      (r, record w { mutations = s })

  -- `_order`
  unfoldable pub order_of : String → Action (Desk E) OrderRecord
  order_of i = do found ← gets (λ w. get i w.oms); or_raise found (key_error i)

  -- `self.broker.cancel_order(…)` and `self.broker.replace_limit_order(…)`
  unfoldable pub amend : Market E → Amendment → Action (Desk E) Submission
  amend market a w =
      let (answer, e) = market.amend a w.outside in
      (ok answer, record w { outside = e; amendments = w.amendments ++ a ∷ [] })

  -- `self.broker.get_order_by_client_order_id(…)`, where a `BrokerMutationError` counts as no order.
  unfoldable pub look_up : Market E → String → Action (Desk E) (Option BrokerOrder)
  look_up market client w =
      let (answer, e) = market.look_up client w.outside in
      (
        elim answer [ read o ↦ ok o | unreadable ↦ ok none | failing x ↦ err x ],
        record w { outside = e },
      )
