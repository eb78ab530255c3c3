-- ===== src/Execution/Accounting.antt =====
-- app/execution/trade_fills.py: `PaperTradeFillAccounting`, which records an exact execution, moves
-- its order, and projects it into the portfolio.
use trade_bot.Prelude.{
  ℕ, zero, suc, Bool, true, false, not, ◌||◌, ◌&&◌, Option, none, some, List, [], ◌∷◌, String,
  is_empty, is_uppercase, strip, str_eq, str_append, if◌then◌else◌,
}
use trade_bot.Prelude.Decimal.{Decimal, dec_lt, dec_eq}
use trade_bot.Prelude.Json.{Json}
use trade_bot.Prelude.Clock.{Datetime, is_aware, to_utc}
use trade_bot.Prelude.Action.{
  Action, Result, ok, err, Error, value_error, key_error, ◌>>=◌, ◌>>◌, pure, raise, gets, raise_if,
  or_raise, lift,
}
use trade_bot.Domain.{Fill, Side, side_eq, not_positive, not_nonnegative, refuse, ◌else_check◌}
use trade_bot.Oms.State.{
  OrderState, state_eq, contains_state, state_value, submit_started, acknowledged, partially_filled,
  cancel_requested, filled, cancelled, uncertain, reconciling, reconciled, manual,
}
use trade_bot.Oms.Tables.{Oms, OrderRecord, get}
use trade_bot.Oms.Events.{side_value}
use trade_bot.Oms.Orders.{transition}
use trade_bot.Oms.Fills.{apply_cumulative_fill}
use trade_bot.Portfolio.Ledger.{Ledger, apply_fill}
use trade_bot.Portfolio.Journal.{Journal, PortfolioEvent, append_fill, kept, replay}
use trade_bot.Reconciliation.Order.{Resolver}
use trade_bot.Execution.Broker.{required}
use trade_bot.Execution.Checkpoints.{CheckpointDb, resolve_through}
use trade_bot.Execution.Facts.{
  ExecutionFact, validate_fact, to_fill, FactDb, append_fact, mark_projected, mark_quarantined,
  StoredExecutionFact, unresolved_facts,
}
use trade_bot.Execution.World.{attempt}

pub record ExactBrokerFill : Type 0 where
  pub execution_id : String
  pub broker_order_id : String
  pub client_order_id : String
  pub symbol : String
  pub side : Side
  pub order_quantity : Decimal
  pub cumulative_quantity : Decimal
  pub quantity : Decimal
  pub price : Decimal
  pub occurred_at : Datetime

-- `ExactBrokerFill.validate`; `TradeFillProtocolError` is a ValueError.
unfoldable pub validate_broker_fill : ExactBrokerFill → Result (Unit {0})
validate_broker_fill f =
    required "execution_id" f.execution_id
    else_check required "broker_order_id" f.broker_order_id
    else_check required "client_order_id" f.client_order_id
    else_check required "symbol" f.symbol
    else_check refuse (not (is_uppercase f.symbol)) "symbol must be uppercase"
    else_check refuse (not_positive f.order_quantity) "order_quantity must be positive and finite"
    else_check refuse (not_positive f.cumulative_quantity)
        "cumulative_quantity must be positive and finite"
    else_check refuse (not_positive f.quantity) "quantity must be positive and finite"
    else_check refuse (not_positive f.price) "price must be positive and finite"
    else_check refuse (dec_lt f.cumulative_quantity f.quantity)
        "fill quantity exceeds cumulative quantity"
    else_check refuse (dec_lt f.order_quantity f.cumulative_quantity)
        "cumulative quantity exceeds order quantity"
    else_check refuse (not (is_aware f.occurred_at)) "occurred_at must be timezone-aware"

abbrev join_bar : List String → String
join_bar [] = ""
join_bar (s ∷ []) = s
join_bar (s ∷ t ∷ rest) = str_append s (str_append "|" (join_bar (t ∷ rest)))

-- `canonical_broker_fill_id`, with the parameters of `canonical_checkpoint_id`.
unfoldable pub canonical_broker_fill_id :
    (String → String) → (Decimal → String) → (ℕ → String) → ExactBrokerFill → Result String
canonical_broker_fill_id sha plain zulu f = elim (validate_broker_fill f) [
  | err e ↦ err e
  | ok _ ↦ elim (to_utc f.occurred_at "occurred_at must be timezone-aware") [
    | err e ↦ err e
    | ok moment ↦ ok (
        str_append "broker-fill:" (
          sha (
            join_bar (
              f.broker_order_id
              ∷ f.symbol
              ∷ side_value f.side
              ∷ plain f.quantity
              ∷ plain f.price
              ∷ plain f.cumulative_quantity
              ∷ zulu moment
              ∷ []))))
  ]
]

-- The stores of the accounting; the ledger of the running process may be absent.
pub record Books : Type 0 where
  pub oms : Oms
  pub portfolio : Journal
  pub facts : FactDb
  pub checkpoints : Option CheckpointDb
  pub runtime_ledger : Option Ledger

pub record FillAccountingResult : Type 0 where
  pub order : OrderRecord
  pub fill : Fill
  pub portfolio_event_appended : Bool
  pub oms_advanced : Bool

abbrev pub on_oms : {A : Type 0} → Action Oms A → Action Books A
on_oms m b = let (r, s) = m b.oms in (r, record b { oms = s })

abbrev pub on_portfolio : {A : Type 0} → Action Journal A → Action Books A
on_portfolio m b = let (r, s) = m b.portfolio in (r, record b { portfolio = s })

abbrev pub on_facts : {A : Type 0} → Action FactDb A → Action Books A
on_facts m b = let (r, s) = m b.facts in (r, record b { facts = s })

-- `if self.runtime_ledger is not None: …`
unfoldable pub on_ledger : Action Ledger (Unit {0}) → Action Books (Unit {0})
on_ledger m b = elim b.runtime_ledger [
  | none ↦ (ok tt, b)
  | some l ↦ let (r, l') = m l in (r, record b { runtime_ledger = some l' })
]

-- `if self.execution_checkpoints is not None: …`, where the number is not used.
unfoldable pub on_checkpoints : Action CheckpointDb ℕ → Action Books (Unit {0})
on_checkpoints m b = elim b.checkpoints [
  | none ↦ (ok tt, b)
  | some db ↦
      let (r, db') = m db in
      (elim r [ ok _ ↦ ok tt | err e ↦ err e ], record b { checkpoints = some db' })
]

abbrev pub direct_states : List OrderState
direct_states = acknowledged ∷ partially_filled ∷ cancel_requested ∷ []

abbrev pub late_event_states : List OrderState
late_event_states = filled ∷ cancelled ∷ uncertain ∷ reconciling ∷ reconciled ∷ manual ∷ []

abbrev resolves_here : OrderRecord → Option OrderRecord → Bool
resolves_here r none = false
resolves_here r (some q) = str_eq q.intent_id r.intent_id

abbrev resolved_here : OrderRecord → Result (Option OrderRecord) → Result Bool
resolved_here r (ok found) = ok (resolves_here r found)
resolved_here r (err e) = err e

-- `_broker_identity_is_proven`; the resolver is `get_by_broker_order_id`, where the store has it.
unfoldable pub broker_identity_is_proven : Resolver → OrderRecord → String → Oms → Result Bool
broker_identity_is_proven resolver r id s =
    if is_empty r.broker_order_id || str_eq r.broker_order_id (strip id)
    then ok true
    else elim resolver [ none ↦ ok false | some resolve ↦ resolved_here r (resolve (strip id) s) ]

-- The rest of the two identity checks, which compare the same five values.
abbrev pub identity_checks :
    OrderRecord → Result Bool → String → String → Side → Decimal → Result (Unit {0})
identity_checks r proven client symbol side quantity =
    refuse (not (str_eq r.client_order_id client)) "BROKER_CLIENT_ORDER_ID_MISMATCH"
    else_check elim proven [ err e ↦ err e | ok p ↦ refuse (not p) "BROKER_ORDER_ID_MISMATCH" ]
    else_check refuse (not (str_eq r.symbol symbol)) "BROKER_SYMBOL_MISMATCH"
    else_check refuse (not (side_eq r.side side)) "BROKER_SIDE_MISMATCH"
    else_check refuse (not (dec_eq r.quantity quantity)) "BROKER_QUANTITY_MISMATCH"

-- `_validate_fact_identity`
unfoldable pub validate_fact_identity :
    Resolver → OrderRecord → ExecutionFact → Oms → Result (Unit {0})
unfolding broker_identity_is_proven
validate_fact_identity resolver r f s =
    identity_checks r (broker_identity_is_proven resolver r f.broker_order_id s) f.client_order_id
      f.symbol f.side f.order_quantity

-- `_validate_identity`
unfoldable pub validate_identity :
    Resolver → OrderRecord → ExactBrokerFill → Oms → Result (Unit {0})
unfolding broker_identity_is_proven
validate_identity resolver r f s =
    identity_checks r (broker_identity_is_proven resolver r f.broker_order_id s) f.client_order_id
      f.symbol f.side f.order_quantity

-- The first characters of a text.
take_text : ℕ → String → String
take_text zero s = String.[]
take_text (suc n) String.[] = String.[]
take_text (suc n) (String.◌∷◌ c s) = String.◌∷◌ c (take_text n s)

-- `_projection_reason`, for the text `str(exc)` and the name of the exception's class.
unfoldable pub projection_reason : String → String → String
unfolding take_text
projection_reason message name =
    if is_empty (strip message) then name else take_text 160 (strip message)

pub record Accounting : Type 0 where
  pub digest : Json → String
  pub sha : String → String
  pub plain : Decimal → String
  pub zulu : ℕ → String
  -- `str(exc)`, and the name of its class.
  pub message_of : Error → String
  pub name_of : Error → String
  pub resolver : Resolver
  pub opening_cash : Decimal
  -- `_append` of the portfolio store, the plain one or the strict one.
  pub portfolio_append : String → PortfolioEvent → Datetime → Action Journal Bool
  pub fee_for : ExactBrokerFill → Result Decimal

module _ (a : Accounting) where
  open a use {digest, resolver, opening_cash, portfolio_append, fee_for}

  -- An order whose submission was only started is acknowledged by its execution.
  unfoldable pub admit : ExecutionFact → OrderRecord → Action Books OrderRecord
  admit f r =
      if state_eq r.state submit_started
      then on_oms (
          transition digest f.intent_id acknowledged (str_append "fill-ack:" f.execution_fact_id)
            f.occurred_at (some f.broker_order_id) none)
      else if contains_state r.state direct_states || contains_state r.state late_event_states
      then pure r
      else raise (value_error (str_append "FILL_NOT_ADMISSIBLE:" (state_value r.state)))

  -- The order is filled up to the cumulative quantity, if it is behind.
  unfoldable pub advance_order : ExecutionFact → OrderRecord → Action Books OrderRecord
  advance_order f r =
      if dec_lt r.filled_quantity f.cumulative_quantity
      then on_oms (
          apply_cumulative_fill digest f.intent_id (str_append "broker-fill:" f.execution_fact_id)
            f.cumulative_quantity f.occurred_at (some f.broker_order_id))
      else pure r

  -- The fill would be booked by the ledger that the journal gives.
  unfoldable pub check_candidate : Fill → Action Books (Unit {0})
  check_candidate fill = do
    replayed ← gets (λ b. replay opening_cash b.portfolio)
    candidate ← lift replayed
    booked ← lift (kept (apply_fill fill candidate))
    pure tt

  -- The fill goes into the journal and the running ledger, and resolves the checkpoints.
  unfoldable pub book_fill :
      ExecutionFact → OrderRecord → OrderRecord → Fill → Action Books FillAccountingResult
  unfolding on_ledger on_checkpoints
  book_fill f admitted advanced fill = do
    appended ← on_portfolio (append_fill portfolio_append fill)
    on_ledger (apply_fill fill)
    on_checkpoints (resolve_through f.intent_id f.cumulative_quantity f.occurred_at)
    pure (record {
      order = advanced;
      fill = fill;
      portfolio_event_appended = appended;
      oms_advanced = dec_lt admitted.filled_quantity f.cumulative_quantity;
    })

  -- What `_project_fact` does before it marks the fact.
  unfoldable pub book_fact : ExecutionFact → Action Books FillAccountingResult
  unfolding admit advance_order check_candidate book_fill
  book_fact f = do
    lift (validate_fact f)
    found ← gets (λ b. get f.intent_id b.oms)
    r ← or_raise found (key_error f.intent_id)
    checked ← gets (λ b. validate_fact_identity resolver r f b.oms)
    lift checked
    admitted ← admit f r
    raise_if
        (contains_state admitted.state late_event_states
          && dec_lt admitted.filled_quantity f.cumulative_quantity)
        (value_error (str_append "FILL_REQUIRES_RECONCILIATION:" (state_value admitted.state)))
    advanced ← advance_order f admitted
    fill ← lift (to_fill f)
    check_candidate fill
    book_fill f admitted advanced fill

  -- `_project_fact`
  unfoldable pub project_fact : ExecutionFact → Action Books FillAccountingResult
  project_fact f = do
    result ← book_fact f
    on_facts (mark_projected f.execution_fact_id f.occurred_at)
    pure result

  abbrev pub reason_of : Error → String
  reason_of e = projection_reason (a.message_of e) (a.name_of e)

  -- The fact that `apply` records.
  abbrev pub fact_of : String → String → Decimal → ExactBrokerFill → ExecutionFact
  fact_of id intent_id fee f = record {
    execution_fact_id = id;
    intent_id = intent_id;
    broker_order_id = f.broker_order_id;
    client_order_id = f.client_order_id;
    symbol = f.symbol;
    side = f.side;
    order_quantity = f.order_quantity;
    cumulative_quantity = f.cumulative_quantity;
    quantity = f.quantity;
    price = f.price;
    fee = fee;
    occurred_at = f.occurred_at;
  }

  -- A projection that failed is quarantined, and the exception goes on.
  unfoldable pub after_projection :
      ExecutionFact → Result FillAccountingResult → Action Books FillAccountingResult
  after_projection f (ok result) = pure result
  after_projection f (err e) = do
    on_facts (mark_quarantined f.execution_fact_id (reason_of e) f.occurred_at)
    raise e

  -- `apply`
  unfoldable pub apply : String → ExactBrokerFill → Action Books FillAccountingResult
  unfolding project_fact after_projection
  apply intent_id f = do
    lift (validate_broker_fill f)
    found ← gets (λ b. get intent_id b.oms)
    r ← or_raise found (key_error intent_id)
    checked ← gets (λ b. validate_identity resolver r f b.oms)
    lift checked
    fee ← lift (fee_for f)
    raise_if (not_nonnegative fee) (value_error "fill fee must be finite and non-negative")
    id ← lift (canonical_broker_fill_id a.sha a.plain a.zulu f)
    added ← on_facts (append_fact (fact_of id intent_id fee f) f.execution_id)
    projected ← attempt (project_fact (fact_of id intent_id fee f))
    after_projection (fact_of id intent_id fee f) projected

  -- The loop of `recover_unresolved`.
  unfoldable pub recover_facts : List StoredExecutionFact → Action Books (List FillAccountingResult)
  unfolding project_fact
  recover_facts [] = pure []
  recover_facts (f ∷ fs) = do
    projected ← attempt (project_fact f.fact)
    elim projected [
      | ok result ↦ (do rest ← recover_facts fs; pure (result ∷ rest))
      | err e ↦ (do
        on_facts (mark_quarantined f.fact.execution_fact_id (reason_of e) f.fact.occurred_at)
        recover_facts fs)
    ]

  -- `recover_unresolved`
  unfoldable pub recover_unresolved : Action Books (List FillAccountingResult)
  unfolding recover_facts
  recover_unresolved b = recover_facts (unresolved_facts b.facts) b
