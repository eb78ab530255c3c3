-- ===== src/Lib.antt =====
-- The order path of the trading service, from an intent to its durable outbox, with the controls
-- that stand beside it, and theorems about them.
--
-- The program. A strategy makes an `OrderIntent` (app/domain/trading.py). The risk engine
-- (app/risk/pretrade.py) turns it into a `RiskDecision`, which is bound to the intent by a
-- fingerprint. The lifecycle (app/application/order_lifecycle.py) checks that binding and writes the
-- order into the OMS (app/oms/store.py): three tables, for orders, events and outbox messages,
-- with one transaction for each method. Cancel and replace requests stand in tables of their own
-- (app/oms/order_mutations.py), where a worker (app/execution/order_mutation_executor.py) claims
-- each before it goes to the broker. Before anything is sent, `authorize` of the dispatch control
-- (app/runtime/paper_dispatch_control.py) must find the control ARMED. The executor
-- (app/execution/paper_executor.py) takes a message of the outbox, claims its order by the
-- transition to SUBMIT_STARTED, and calls the broker; a claim that was made before makes it ask
-- the broker instead. A cumulative quantity that the broker reports becomes
-- a checkpoint (app/execution/execution_checkpoints.py), and each exact execution a fact in a durable
-- inbox (app/execution/execution_facts.py), which app/execution/trade_fills.py projects into the OMS,
-- the portfolio's journal and the ledger. While one of either is open the executor holds buys back.
-- What the broker reports later is set against the orders and the account by
-- app/oms/reconciliation.py. Fills end in the ledger of app/portfolio, and the rules of
-- app/strategy decide from bars when a position is left and entered again.
--
-- The files.
--   Prelude      shared names. Text: `strip`, the uppercase test. Decimal: `decimal.Decimal`. Clock:
--                `datetime`. Json: payloads. Sorted: `sorted(set(...))`. Action: a method is a
--                function from the store to a result and a store, `transaction` puts the store
--                back where the body raises, and `Error` has the exceptions; Preserves is about such
--                methods, Prefix about texts with a common beginning, SameJson compares payloads.
--   Domain       app/domain/trading.py: `validate_intent` is `OrderIntent.validate`, and so on.
--   Oms          app/oms/store.py. State: `OrderState`, `_ALLOWED`. Tables: the rows. Events: the
--                fingerprints and `_append_event`. Orders: `create`, `transition`, `approve_risk`,
--                `enqueue_submit`. Fills: `apply_cumulative_fill`. Outbox: `pending_outbox`,
--                `mark_outbox_published`. Steps says what a method does to the tables, as a
--                relation; Lookup, Paths, Evolution, Soundness, Calls, Atomic, Replay, Runs and Accepted
--                stand on it.
--   Dispatch     app/runtime/paper_dispatch_control.py. Control: what the two stores share. Sqlite
--                and Postgres: `arm`, `halt`, `authorize`. Calls and Safety: sequences of calls.
--   Mutations    app/oms/order_mutations.py. Tables, Lineage (`current_limit_price`,
--                `current_broker_order_id`), Store (`DurableOrderMutationStore`), Lifecycle
--                (`OrderMutationLifecycle`); Lookup, Steps, Active and Claims are about them.
--   Risk         app/risk/pretrade.py in Context and Engine, app/oms/risk_reservations.py in
--                Reservation, app/application/order_lifecycle.py in Lifecycle; Approval, Capacity
--                and Prepare are about them.
--   Indexed      app/oms/indexed.py: Reserve has `approve_risk_with_reservation` on the tables of Oms,
--                Committed counts what its buys commit, and Approval is about it; Lineage has the
--                lineage of broker ids on the tables of Mutations, and Edges is about that.
--   Reconciliation  app/oms/reconciliation.py. Truth: what the broker reports. Order:
--                `OmsReconciler`. Account: `reconcile_portfolio`. Steps, Stuck, Resolution and Proof
--                are about orders, Agreement about the account.
--   Portfolio    app/portfolio. Ledger and Valuation: ledger.py. Journal: store.py, and the SQLite
--                class of strict.py. Held, Solvent, Again, Symbols and Rebuild are about them.
--   Execution    app/execution. Broker: app/runtime/paper_broker_contract_v99.py. Checkpoints:
--                execution_checkpoints.py. Facts: execution_facts.py. World: what the executor works
--                on. Adopt and Submit: paper_executor.py. Accounting: trade_fills.py. Works, Unposted,
--                Claims, Once, Adopted, Projected, Gate and Quarantine are about the executor,
--                Barrier about checkpoints, Blockers, Journaled and Settled about the accounting.
--   Amendments   app/execution/order_mutation_executor.py. World: what it works on. Truth:
--                `_resolve_truth` and what it calls. Executor: `execute` and `reconcile`. Quiet, Recovery
--                and Once are about the calls of the broker, Evidence about success, Verdict, Late
--                and Resolved about what each report makes of a mutation, and Orders about the order store.
--   Strategy     app/strategy. Reentry: reentry_confirmation.py. Exit: position_management.py.
--                Intrabar: ohlcv_exit.py, and the bar of app/marketdata/ohlcv.py. Momentum:
--                momentum.py. Backtest: `HistoricalBacktester` of backtest.py, over the ledger.
--                Confirmation, Leaving, Bounds and Lookahead are about them.
-- Each Tests file runs its part on concrete data.
--
-- Correspondence. A table is the list of its rows in the order of insertion; a SELECT or an UPDATE
-- by key goes through the list, and a UNIQUE index is a test before the insertion. `BEGIN IMMEDIATE`,
-- or the advisory lock of PostgreSQL, lets one transaction follow another, so an interleaving of
-- processes is a sequence of calls. A keyword argument is an argument, a `None` an `Option`.
--
-- Parameters. `digest` is the SHA-256 of the canonical JSON text of a value, `sha` that of a text;
-- nothing is assumed of them but where a theorem says so. `Reserve` is the reservation method that
-- some stores have and app/oms/store.py has not; Indexed has one. `resolver` is
-- `get_by_broker_order_id`, where the store has it, as a function that only reads; `decimal_str` is
-- the text `str` gives of a decimal, `isoformat` that of a time. `Outside` is the broker and the
-- dispatch authorizer of the executor, as functions on a state of their own, and `Texts` the texts of
-- decimals and instants; `Setting` has the same of the executor of mutations, and the method that
-- writes the lineage. The random `uuid4` of a claim is an argument, `token`; `shared` says whether
-- the executor's stores are one database file, and `grace` is its recovery time in microseconds.
-- `Accounting` has the fee provider, and the message and class name of an exception. The list `posts`
-- of a `World`, and `amendments` of a `Desk`, are no state of the program: they record what the broker
-- was handed.
--
-- Bounds and fuel. Decimals have 28 digits and round half to even, as the default context; their
-- exponents have no bounds, and the sign of a zero is dropped. Division by 0 and arithmetic on
-- infinities, which the validations keep away, give `nan` here. The number of digits of n is
-- counted with fuel n, which is enough since each round divides by 10; an exact quotient drops at
-- most as many zeros as its fuel. Symbols are ASCII texts. A naive `datetime` has no instant; an
-- aware one is its microseconds in UTC, without an upper bound. The age of a price is exact below
-- 10 ^ 9 seconds.
--
-- Not modelled. Connections, PRAGMAs, the schema and its migration, the text form of rows, and the
-- exceptions of a broken database. The stores on PostgreSQL but for the dispatch control, the
-- snapshots of app/portfolio/store.py, the parser of Alpaca's trade updates, and the other backtests
-- and strategies: these are left for later. The execution and market-data adapters,
-- the runtime planes v99 to v109, the qualification packages, and the tools: they are adapters of
-- input and output, or stand beside the order path.
pub mod Prelude
pub mod Domain
pub mod Oms
pub mod Dispatch
pub mod Mutations
pub mod Risk
pub mod Indexed
pub mod Reconciliation
pub mod Portfolio
pub mod Execution
pub mod Amendments
pub mod Strategy
