-- ===== src/Execution/World.antt =====
-- The arguments of `PaperSubmitExecutor` in app/execution/paper_executor.py: its stores, and the
-- broker and the dispatch authorizer, which are not modelled.
use trade_bot.Prelude.{ℕ, Bool, true, false, Option, none, some, List, String}
use trade_bot.Prelude.Decimal.{Decimal}
use trade_bot.Prelude.Json.{Json}
use trade_bot.Prelude.Clock.{Datetime}
use trade_bot.Prelude.Action.{Action, Result, ok, err, Error, runtime_error}
use trade_bot.Oms.Tables.{Oms, OrderRecord}
use trade_bot.Execution.Broker.{OrderSide, BrokerOrder}
use trade_bot.Execution.Checkpoints.{CheckpointDb}
use trade_bot.Execution.Facts.{FactDb, projected_amounts}

-- The arguments of `submit_limit_order`, and the intent that they are for.
pub record Post : Type 0 where
  pub intent_id : String
  pub client_order_id : String
  pub instrument : String
  pub side : OrderSide
  pub quantity : Decimal
  pub limit_price : Decimal

-- What a submission comes to: an order, a `BrokerMutationError`, or another exception.
pub data Submission : Type 0 where
  placed : BrokerOrder → Submission
  refused : String → Bool → Submission
  broken : Error → Submission

-- What the broker and the authorizer do, over a state of their own.
pub record Outside (E : Type 0) : Type 0 where
  pub writes_enabled : E → Bool
  pub authorize : Option (OrderRecord → ℕ → E → Result (Unit {0}) × E)
  pub submit : Post → E → Submission × E
  pub look_up : String → E → Result (Option BrokerOrder) × E

-- SHA-256 of a canonical JSON value and of a text, in hexadecimal, and the texts that Python makes
-- of decimals and times.
pub record Texts : Type 0 where
  pub digest : Json → String
  pub sha : String → String
  pub plain : Decimal → String
  pub iso : Datetime → String
  pub zulu : ℕ → String

-- The stores that the executor is given, the state of the outside, and every submission so far.
pub record World (E : Type 0) : Type 0 where
  pub oms : Oms
  pub facts : Option FactDb
  pub checkpoints : Option CheckpointDb
  pub outside : E
  pub posts : List Post

-- `try: result = m() except …`: the exception is a value.
abbrev pub attempt : {S A : Type 0} → Action S A → Action S (Result A)
attempt m s = let (r, s') = m s in (ok r, s')

module _ {E : Type 0} where
  abbrev pub on_oms : {A : Type 0} → Action Oms A → Action (World E) A
  on_oms m w = let (r, s) = m w.oms in (r, record w { oms = s })

  -- The caller has found the store.
  abbrev pub on_checkpoints : {A : Type 0} → Action CheckpointDb A → Action (World E) A
  on_checkpoints m w = elim w.checkpoints [
    | none ↦ (err (runtime_error "no checkpoint store"), w)
    | some db ↦ let (r, db') = m db in (r, record w { checkpoints = some db' })
  ]

  -- What the checkpoint store sees of the facts, if both are in one file.
  abbrev pub visible_amounts : Bool → World E → Option (List (String × Decimal))
  visible_amounts false w = none
  visible_amounts true w = elim w.facts [
    | none ↦ none
    | some db ↦ some (projected_amounts db db.facts)
  ]
