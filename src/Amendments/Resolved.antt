-- ===== src/Amendments/Resolved.antt =====
-- app/execution/order_mutation_executor.py: `_resolve_truth` resolves a mutation as its table says,
-- and only from a report on its order.
use trade_bot.Prelude.{
  ℕ, Bool, true, false, not, ◌&&◌, Option, none, some, str_eq, if◌then◌else◌, ◌≡◌, refl, arith, inl,
  inr, Option-cases, Bool-cases,
}
use trade_bot.Prelude.Decimal.{Decimal, dec_eq}
use trade_bot.Prelude.Action.{value_error, ok, ◌>>=◌, Given-cases, Result-cases}
use trade_bot.Oms.Events.{side_value}
use trade_bot.Oms.Tables.{OrderRecord, get}
use trade_bot.Mutations.Tables.{
  MutationState, cancel, kind_eq, succeeded, failed, uncertain, Mutation,
}
use trade_bot.Execution.Broker.{
  BrokerOrder, is_filled, is_cancelled, is_rejected, order_side_value, validate_broker_order,
}
use trade_bot.Amendments.World.{Setting, Desk, order_of}
use trade_bot.Amendments.Truth.{
  MutationExecutionResult, confirms_replace, give_up, validate_broker_truth, confirm_replace,
  after_cancelled, resolve_status, resolve_replace, resolve_cancel, resolve_truth,
}
use trade_bot.Amendments.Late.{fails_too_late, chosen-fails_too_late}
use trade_bot.Amendments.Verdict.{
  becomes, reports_on, side_is-order_side_value, is_undecided, Resolves, filled_fails,
  cancelled_fails, rejected_fails, cancelled_succeeds, others_uncertain, later-Resolves,
  choose-Resolves, raise-Resolves, with-Resolves, pure-Resolves, set_state-Returns,
  give_up-Resolves, fail_mutation-Resolves,
}

module _ {E : Type 0} (setting : Setting E) (P : MutationState → Bool) where
  after_cancelled-Resolves :
      (m : Mutation) (o : BrokerOrder) (r : OrderRecord) (t : ℕ) (ambiguous : Bool)
      → P failed ≡ true
      → (kind_eq m.kind cancel ≡ true → P succeeded ≡ true)
      → Resolves P (after_cancelled setting m o r t ambiguous)
  unfolding after_cancelled
  after_cancelled-Resolves m o r t ambiguous fails succeeds =
      search
        (
          choose-Resolves, later-Resolves, fail_mutation-Resolves, with-Resolves, pure-Resolves,
          set_state-Returns, succeeds,
        )
        depth 12

  resolve_status-Resolves :
      (m : Mutation) (o : BrokerOrder) (r : OrderRecord) (t : ℕ) (ambiguous : Bool)
      → (is_filled o.status ≡ true → P failed ≡ true)
      → (is_cancelled o.status ≡ true → P failed ≡ true)
      → (is_cancelled o.status ≡ true → kind_eq m.kind cancel ≡ true → P succeeded ≡ true)
      → (is_rejected o.status ≡ true → P failed ≡ true)
      → (is_filled o.status ≡ false
          → is_cancelled o.status ≡ false
          → is_rejected o.status ≡ false
          → P uncertain ≡ true)
      → Resolves P (resolve_status setting m o r t ambiguous)
  unfolding resolve_status
  resolve_status-Resolves m o r t ambiguous fills ends succeeds rejects others =
      search
        (
          choose-Resolves, later-Resolves, fail_mutation-Resolves, give_up-Resolves,
          after_cancelled-Resolves, fills, ends, succeeds, rejects, others,
        )
        depth 12

  confirm_replace-Resolves :
      (m : Mutation) (o : BrokerOrder) (r : OrderRecord) (t : ℕ) (ambiguous : Bool)
      → P succeeded ≡ true
      → Resolves P (confirm_replace setting m o r t ambiguous)
  unfolding confirm_replace
  confirm_replace-Resolves m o r t ambiguous good =
      search (with-Resolves, later-Resolves, pure-Resolves, set_state-Returns)

module _ {E : Type 0} (setting : Setting E) (m : Mutation) (o : BrokerOrder) where
  undecided-Resolves :
      (r : OrderRecord) (t : ℕ) (ambiguous : Bool)
      → is_undecided m o ≡ true
      → Resolves (becomes m o) (resolve_status setting m o r t ambiguous)
  undecided-Resolves r t ambiguous undecided =
      resolve_status-Resolves setting (becomes m o) m o r t ambiguous (filled_fails m o undecided)
        (cancelled_fails m o undecided) (cancelled_succeeds m o undecided)
        (rejected_fails m o undecided) (others_uncertain m o undecided)

  confirmed_becomes :
      (target : Decimal)
      → m.target_limit_price ≡ some target
      → kind_eq m.kind cancel ≡ false
      → (dec_eq o.limit_price target && confirms_replace o.status) ≡ true
      → becomes m o succeeded ≡ true
  confirmed_becomes target h kind good = rw (kind, h) (ground arith)

  drifted_becomes :
      kind_eq m.kind cancel ≡ true
      → not (str_eq o.broker_order_id m.broker_order_id) ≡ true
      → becomes m o uncertain ≡ true
  drifted_becomes kind other = ground arith

  replace_undecided :
      (target : Decimal)
      → m.target_limit_price ≡ some target
      → kind_eq m.kind cancel ≡ false
      → (dec_eq o.limit_price target && confirms_replace o.status) ≡ false
      → is_undecided m o ≡ true
  replace_undecided target h kind bad = rw (kind, h) (ground arith)

  resolve_replace-Resolves :
      (r : OrderRecord) (t : ℕ) (ambiguous : Bool) (target : Option Decimal)
      → m.target_limit_price ≡ target
      → kind_eq m.kind cancel ≡ false
      → Resolves (becomes m o) (resolve_replace setting m o r t ambiguous target)
  unfolding resolve_replace
  resolve_replace-Resolves r t ambiguous none h kind =
      raise-Resolves (becomes m o) (value_error "REPLACE_TARGET_MISSING")
  resolve_replace-Resolves r t ambiguous (some target) h kind =
      choose-Resolves (becomes m o) (dec_eq o.limit_price target && confirms_replace o.status)
        (confirm_replace setting m o r t ambiguous) (resolve_status setting m o r t ambiguous)
        (λ good.
          confirm_replace-Resolves setting (becomes m o) m o r t ambiguous
            (confirmed_becomes target h kind good))
        (λ bad. undecided-Resolves r t ambiguous (replace_undecided target h kind bad))

  resolve_cancel-Resolves :
      (r : OrderRecord) (t : ℕ) (ambiguous : Bool)
      → kind_eq m.kind cancel ≡ true
      → Resolves (becomes m o) (resolve_cancel setting m o r t ambiguous)
  unfolding resolve_cancel
  resolve_cancel-Resolves r t ambiguous kind =
      choose-Resolves (becomes m o) (not (str_eq o.broker_order_id m.broker_order_id))
        (give_up setting m r "BROKER_ORDER_ID_DRIFT" t) (resolve_status setting m o r t ambiguous)
        (λ other.
          give_up-Resolves setting (becomes m o) m r "BROKER_ORDER_ID_DRIFT" t
            (drifted_becomes kind other))
        (λ own. undecided-Resolves r t ambiguous (ground arith))

  kind_chosen :
      (b : Bool)
      → kind_eq m.kind cancel ≡ b
      → (r : OrderRecord) (t : ℕ) (ambiguous : Bool)
      → Resolves (becomes m o) (
          if b
          then resolve_cancel setting m o r t ambiguous
          else resolve_replace setting m o r t ambiguous m.target_limit_price)
  kind_chosen true kind r t ambiguous = resolve_cancel-Resolves r t ambiguous kind
  kind_chosen false kind r t ambiguous =
      resolve_replace-Resolves r t ambiguous m.target_limit_price refl kind

  validated :
      (w : Desk E) (r : OrderRecord)
      → (validate_broker_truth setting m o w).0 ≡ ok r
      → (validate_broker_order o ≡ ok tt)
        × (get m.intent_id w.oms ≡ some r)
        × (reports_on r o ≡ true)
  unfolding validate_broker_truth order_of get
  validated w r h = elim (Result-cases (validate_broker_order o)) [
    | inr (e, bad) ↦ absurd (cc (rw bad at h))
    | inl fine ↦ elim (Option-cases (get m.intent_id w.oms)) [
      | inl missing ↦ absurd (cc (rw (fine, missing) at h))
      | inr (q, found) ↦ elim (Bool-cases (str_eq o.client_order_id q.client_order_id)) [
        | inr other ↦ absurd (cc (rw (fine, found, other) at h))
        | inl client ↦ elim (Bool-cases (str_eq o.instrument q.symbol)) [
          | inr other ↦ absurd (cc (rw (fine, found, client, other) at h))
          | inl symbol ↦ elim (Bool-cases (str_eq (order_side_value o.side) (side_value q.side))) [
            | inr other ↦ absurd (cc (rw (fine, found, client, symbol, other) at h))
            | inl side ↦ elim (Bool-cases (dec_eq o.quantity q.quantity)) [
              | inr other ↦ absurd (cc (rw (fine, found, client, symbol, side, other) at h))
              | inl quantity ↦
                  let returned : ok q ≡ ok r =
                    rw (fine, found, client, symbol, side, quantity) at h in
                  let same : q ≡ r = cc in
                  rw (← same) (
                    fine,
                    found,
                    rw (client, symbol, side_is-order_side_value q.side o.side side, quantity) refl,
                  )
            ]
          ]
        ]
      ]
    ]
  ]

  -- Where an order that the broker reports is resolved, the report is valid, and it is of the order
  -- of the mutation, with its client id, symbol, side and quantity. The mutation that returns is as
  -- the table of the reports says: a cancel is UNCERTAIN under another id than its own, and else
  -- SUCCEEDED or FAILED where the order is CANCELLED, FAILED where it is FILLED or REJECTED, and
  -- UNCERTAIN in any other status; a replace is FAILED where the order is CANCELLED or REJECTED, and
  -- else SUCCEEDED at the target price; at another price it is FAILED where the order is FILLED, and
  -- else UNCERTAIN. A cancel that the broker reports as CANCELLED under its own id is FAILED where the
  -- order was FILLED already, with no less than the report says.
  pub resolved_as_reported :
      (t : ℕ) (ambiguous : Bool) (w : Desk E) (x : MutationExecutionResult)
      → (resolve_truth setting m o t ambiguous w).0 ≡ ok x
      → ((r : OrderRecord) × (get m.intent_id w.oms ≡ some r)
          × (reports_on r o ≡ true)
          × (fails_too_late m o r x.mutation.state ≡ true))
        × (validate_broker_order o ≡ ok tt)
        × (becomes m o x.mutation.state ≡ true)
  unfolding resolve_truth
  resolved_as_reported t ambiguous w x h =
      elim (Given-cases (validate_broker_truth setting m o w).0) [
        | inr (e, failed_) ↦ absurd (cc (rw (◌>>=◌, failed_) at h))
        | inl (r, done) ↦
            let after = (validate_broker_truth setting m o w).1 in
            let resolved = rw (◌>>=◌, done) at h in
            let (valid, found, same) = validated w r done in
            (
              (
                r,
                found,
                same,
                chosen-fails_too_late setting m o r t ambiguous after x
                    (resolve_replace setting m o r t ambiguous m.target_limit_price) resolved,
              ),
              valid,
              (kind_chosen (kind_eq m.kind cancel) refl r t ambiguous).at after x resolved,
            )
      ]
