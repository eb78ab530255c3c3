-- ===== src/Execution/Adopted.antt =====
-- What `_adopt_broker_truth` of app/execution/paper_executor.py makes of an order that was submitted,
-- where the broker answers with that order and no execution of it.
use trade_bot.Prelude.{
  ℕ, Bool, true, false, ◌&&◌, none, some, [], String, str_eq, str_append, strip, ◌≡◌, refl, sym,
  arith, inl, inr, Bool-cases,
}
use trade_bot.Prelude.Prefix.{str_eq-append}
use trade_bot.Prelude.Decimal.{is_finite, dec_zero, dec_lt, dec_le, dec_eq}
use trade_bot.Prelude.Decimal.Order.{dec_le-dec_lt}
use trade_bot.Prelude.Action.{Result, ok, bind_ok}
use trade_bot.Oms.State.{
  OrderState, state_eq, submit_started, acknowledged, cancelled, rejected, validate_transition,
}
use trade_bot.Oms.Tables.{OrderRecord, OrderRow, find_order, find_event}
use trade_bot.Oms.Events.{side_value}
use trade_bot.Oms.Orders.{transition, advance_row}
use trade_bot.Oms.Accepted.{moved, transition_accepted, moved_found, moved_fresh}
use trade_bot.Reconciliation.Stuck.{get-find_order}
use trade_bot.Execution.Broker as Broker
use trade_bot.Execution.Broker.{
  BrokerOrder, BrokerOrderStatus, is_rejected, is_cancelled, order_side_value,
  validate_broker_order,
}
use trade_bot.Execution.World.{Texts, World, on_oms}
use trade_bot.Prelude.Clock.{aware}
use trade_bot.Execution.Adopt.{
  truth_mismatches, acknowledge, adopt_cancelled, adopt_status, checkpoint_broker_execution,
  adopt_checkpointed, adopt_broker_truth,
}

-- The state of an order without any execution, by what the broker reports.
abbrev pub reported : BrokerOrderStatus → OrderState
reported Broker.rejected = rejected
reported Broker.cancelled = cancelled
reported _ = acknowledged

-- The answer is the order that was submitted.
abbrev pub is_answer_to : OrderRecord → BrokerOrder → Bool
is_answer_to r o =
    str_eq o.client_order_id r.client_order_id
    && str_eq o.instrument r.symbol
    && str_eq (order_side_value o.side) (side_value r.side)
    && dec_eq o.quantity r.quantity
    && dec_eq o.limit_price r.limit_price

answer-truth_mismatches :
    (r : OrderRecord) (o : BrokerOrder) → is_answer_to r o ≡ true → truth_mismatches r o ≡ []
answer-truth_mismatches r o h = ground arith

valid-is_finite :
    (o : BrokerOrder) → validate_broker_order o ≡ ok tt → is_finite o.filled_quantity ≡ true
unfolding validate_broker_order
valid-is_finite o h = ground arith

reported-rejected : (s : BrokerOrderStatus) → is_rejected s ≡ true → reported s ≡ rejected
reported-rejected s h = ground arith

reported-cancelled : (s : BrokerOrderStatus) → is_cancelled s ≡ true → reported s ≡ cancelled
reported-cancelled s h = ground arith

reported-acknowledged :
    (s : BrokerOrderStatus)
    → is_rejected s ≡ false
    → is_cancelled s ≡ false
    → reported s ≡ acknowledged
reported-acknowledged s h k = ground arith

from_started :
    (r : OrderRow) → r.state ≡ submit_started → validate_transition r.state acknowledged ≡ ok tt
unfolding validate_transition
from_started r state = rw state refl

-- The answer returned an order in the reported state and with the broker's id, and stored it so.
abbrev Adopted : {E : Type 0} → OrderRow → BrokerOrder → Result OrderRecord × World E → Type 0
Adopted r o p =
    (q : OrderRow) × (p.0 ≡ ok q.order)
    × (find_order r.intent_id p.1.oms.orders ≡ some q)
    × (q.state ≡ reported o.status)
    × (q.broker_order_id ≡ strip o.broker_order_id)

module _ {E : Type 0} (texts : Texts) (shared : Bool) where
  open texts use {digest}

  adopted_in_full :
      (o : BrokerOrder) (prefix : String) (t : ℕ) (w : World E) (r : OrderRow)
      → find_order r.intent_id w.oms.orders ≡ some r
      → validate_broker_order o ≡ ok tt
      → is_answer_to r.order o ≡ true
      → dec_le o.filled_quantity dec_zero ≡ true
      → adopt_broker_truth texts shared r.intent_id o prefix t w
        ≡ adopt_status texts shared r.order r.intent_id o prefix t w
  unfolding adopt_broker_truth checkpoint_broker_execution adopt_checkpointed
  adopted_in_full o prefix t w r found valid same none_filled =
      rw
        (
          get-find_order r.intent_id w.oms found,
          valid,
          answer-truth_mismatches r.order o same,
          none_filled,
        )
        refl

  rejected-Adopted :
      (o : BrokerOrder) (prefix : String) (t : ℕ) (w : World E) (r : OrderRow)
      → find_order r.intent_id w.oms.orders ≡ some r
      → r.state ≡ submit_started
      → dec_lt dec_zero o.filled_quantity ≡ false
      → find_event (str_append prefix ":rejected") w.oms.events ≡ none
      → is_rejected o.status ≡ true
      → Adopted r o (adopt_status texts shared r.order r.intent_id o prefix t w)
  unfolding adopt_status validate_transition
  rejected-Adopted o prefix t w r found state none_filled fresh status =
      let e = str_append prefix ":rejected" in
      let b = some o.broker_order_id in
      let valid : validate_transition r.state rejected ≡ ok tt = rw state refl in
      rw
        (
          status,
          none_filled,
          transition_accepted digest r.intent_id rejected e t b none w.oms r found fresh valid,
        )
        (
          advance_row rejected (strip o.broker_order_id) t r,
          refl,
          moved_found digest r.intent_id rejected e t b none w.oms r found,
          sym (reported-rejected o.status status),
          refl,
        )

  acknowledge_started :
      (o : BrokerOrder) (prefix : String) (t : ℕ) (w : World E) (r : OrderRow)
      → r.state ≡ submit_started
      → acknowledge texts shared r.order r.intent_id o prefix t w
        ≡ on_oms
            (transition digest r.intent_id acknowledged
              (str_append prefix ":ack")
              (aware t)
              (some o.broker_order_id)
              none)
            w
  unfolding acknowledge
  acknowledge_started o prefix t w r state =
      let begun : state_eq r.state submit_started ≡ true = rw state refl in rw begun refl

  module _ (o : BrokerOrder) (prefix : String) (t : ℕ) (w : World E) (r : OrderRow)
      (found : find_order r.intent_id w.oms.orders ≡ some r) (state : r.state ≡ submit_started)
      (none_filled : dec_lt dec_zero o.filled_quantity ≡ false)
      (fresh : find_event (str_append prefix ":ack") w.oms.events ≡ none)
      (accepted : is_rejected o.status ≡ false) where
    -- The acknowledgement is stored, and what is left is a cancellation.
    started_acknowledged :
        adopt_status texts shared r.order r.intent_id o prefix t w
        ≡ adopt_cancelled texts shared
            (advance_row acknowledged (strip o.broker_order_id) t r).order
            r.intent_id
            o
            prefix
            t
            (record w {
              oms =
                  moved digest r.intent_id acknowledged
                    (str_append prefix ":ack")
                    t
                    (some o.broker_order_id)
                    none
                    r
                    w.oms;
            })
    unfolding adopt_status
    started_acknowledged =
        let e = str_append prefix ":ack" in
        let b = some o.broker_order_id in
        rw accepted (
          bind_ok (acknowledge texts shared r.order r.intent_id o prefix t)
            (λ known. adopt_cancelled texts shared known r.intent_id o prefix t) w _ _
            (rw
              (
                acknowledge_started o prefix t w r state,
                transition_accepted digest r.intent_id acknowledged e t b none w.oms r found fresh
                    (from_started r state),
              )
              refl))

    others-Adopted :
        is_cancelled o.status ≡ false
        → Adopted r o (adopt_status texts shared r.order r.intent_id o prefix t w)
    unfolding adopt_cancelled
    others-Adopted open_ =
        let e = str_append prefix ":ack" in
        let b = some o.broker_order_id in
        rw (started_acknowledged, none_filled, open_)
          (
            advance_row acknowledged (strip o.broker_order_id) t r,
            refl,
            moved_found digest r.intent_id acknowledged e t b none w.oms r found,
            sym (reported-acknowledged o.status accepted open_),
            refl,
          )

    cancelled-Adopted :
        find_event (str_append prefix ":cancelled") w.oms.events ≡ none
        → is_cancelled o.status ≡ true
        → Adopted r o (adopt_status texts shared r.order r.intent_id o prefix t w)
    unfolding adopt_cancelled validate_transition
    cancelled-Adopted later closed =
        let e = str_append prefix ":ack" in
        let e' = str_append prefix ":cancelled" in
        let b = some o.broker_order_id in
        let q = advance_row acknowledged (strip o.broker_order_id) t r in
        let s = moved digest r.intent_id acknowledged e t b none r w.oms in
        let found' = moved_found digest r.intent_id acknowledged e t b none w.oms r found in
        let fresh' =
          moved_fresh digest r.intent_id acknowledged e e' t b none w.oms r later
            (str_eq-append prefix ":ack" ":cancelled" refl) in
        rw
          (
            started_acknowledged,
            none_filled,
            closed,
            transition_accepted digest r.intent_id cancelled e' t b none s q found' fresh' refl,
          )
          (
            advance_row cancelled (strip o.broker_order_id) t q,
            refl,
            moved_found digest r.intent_id cancelled e' t b none s q found',
            sym (reported-cancelled o.status closed),
            refl,
          )

  -- Where an order is SUBMIT_STARTED and the broker's answer is valid, has the client id, symbol,
  -- side, quantity and limit price of the order and reports no execution, and the events of the answer
  -- are new: the order that is returned and stored bears the broker's id and is REJECTED or CANCELLED
  -- where the broker says so, and else ACKNOWLEDGED.
  pub adopted_as_reported :
      (o : BrokerOrder) (prefix : String) (t : ℕ) (w : World E) (r : OrderRow)
      → find_order r.intent_id w.oms.orders ≡ some r
      → r.state ≡ submit_started
      → validate_broker_order o ≡ ok tt
      → is_answer_to r.order o ≡ true
      → dec_le o.filled_quantity dec_zero ≡ true
      → find_event (str_append prefix ":ack") w.oms.events ≡ none
      → find_event (str_append prefix ":rejected") w.oms.events ≡ none
      → find_event (str_append prefix ":cancelled") w.oms.events ≡ none
      → let (result, w') = adopt_broker_truth texts shared r.intent_id o prefix t w in
        (q : OrderRow) × (result ≡ ok q.order)
        × (find_order r.intent_id w'.oms.orders ≡ some q)
        × (q.state ≡ reported o.status)
        × (q.broker_order_id ≡ strip o.broker_order_id)
  adopted_as_reported o prefix t w r found state valid same unfilled ack refusal cancel =
      let none_filled =
        dec_le-dec_lt o.filled_quantity dec_zero (valid-is_finite o valid) refl unfilled in
      rw (adopted_in_full o prefix t w r found valid same unfilled)
        (elim (Bool-cases (is_rejected o.status)) [
          | inl status ↦ rejected-Adopted o prefix t w r found state none_filled refusal status
          | inr accepted ↦ elim (Bool-cases (is_cancelled o.status)) [
            | inl closed ↦
                cancelled-Adopted o prefix t w r found state none_filled ack accepted cancel closed
            | inr open_ ↦ others-Adopted o prefix t w r found state none_filled ack accepted open_
          ]
        ])
