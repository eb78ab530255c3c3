-- ===== src/Reconciliation/Resolution.antt =====
-- How app/oms/reconciliation.py resolves an order whose submission is UNCERTAIN.
use trade_bot.Prelude.{
  ℕ, true, false, Option, none, some, String, ◌≡◌, refl, arith, ◌∙◌, ◌==◌, inl, inr, str_append,
  str_eq,
}
use trade_bot.Prelude.Prefix.{str_eq-append, str_eq-second, second}
use trade_bot.Prelude.Decimal.{Decimal, dec_zero, dec_eq, dec_lt, is_finite}
use trade_bot.Prelude.Decimal.Order.{dec_lt_asym}
use trade_bot.Prelude.Json.{Json}
use trade_bot.Prelude.Clock.{Datetime, aware}
use trade_bot.Prelude.Action.{ok, ◌>>=◌, Result-cases, bind_ok}
use trade_bot.Domain.{not_nonnegative}
use trade_bot.Oms.State.{
  OrderState, reconciling, reconciled, manual, uncertain, validate_transition,
}
use trade_bot.Oms.Tables.{Oms, OrderRecord, OrderRow, find_order, find_event, is_terminal}
use trade_bot.Oms.Orders.{transition, resolve_broker_id, advance_row}
use trade_bot.Oms.Fills.{apply_cumulative_fill, fill_target, validate_fill_target, fill_row}
use trade_bot.Oms.Steps.{refuses_fill}
use trade_bot.Oms.Accepted.{
  moved, transition_accepted, moved_found, moved_fresh, filled_up, fill_accepted, filled_found,
}
use trade_bot.Reconciliation.Truth.{filled, BrokerOrderTruth, validate_truth}
use trade_bot.Reconciliation.Order.{
  Resolver, reconcile_order, reconcile_found, broker_missing, check_truth, settle_uncertain,
  settle_fill, settle_state, state_payload, fill_event, missing_payload,
}
use trade_bot.Reconciliation.Stuck.{get-find_order}

truth_amount :
    (b : BrokerOrderTruth) → validate_truth b ≡ ok tt → not_nonnegative b.cumulative_filled ≡ false
unfolding validate_truth
truth_amount b h = ground arith

fill_id_differs :
    (a x : String) → (102 == second a) ≡ false → str_eq a (str_append ":fill:" x) ≡ false
fill_id_differs a x h = str_eq-second a ":" "f" "ill:" x h

module _ (digest : Json → String) (decimal_str : Decimal → String) (resolver : Resolver) where
  pub found_begin :
      (i : String) (broker : Option BrokerOrderTruth) (at : Datetime) (prefix : String) (s : Oms)
      (r : OrderRow)
      → find_order i s.orders ≡ some r
      → reconcile_order digest decimal_str resolver i broker at prefix s
        ≡ reconcile_found digest decimal_str resolver i broker at prefix r.order s
  unfolding reconcile_order
  found_begin i broker at prefix s r found = rw (get-find_order i s found) refl

  missing_begun :
      (i : String) (at : Datetime) (prefix : String) (local a : OrderRecord) (s s' : Oms)
      → local.state ≡ uncertain
      → transition digest i reconciling (str_append prefix ":begin") at none none s ≡ (ok a, s')
      → reconcile_found digest decimal_str resolver i none at prefix local s
        ≡ transition digest i manual
            (str_append prefix ":missing")
            at
            none
            (some missing_payload)
            s'
  unfolding reconcile_found broker_missing is_terminal
  missing_begun i at prefix local a s s' state begun = rw state (
      bind_ok (transition digest i reconciling (str_append prefix ":begin") at none none)
        (λ begun.
          transition digest i manual (str_append prefix ":missing") at none (some missing_payload))
        s s' a begun)

  -- An UNCERTAIN order that the broker does not know ends MANUAL: where the prefix names no event
  -- yet, the call returns that order, and the store holds it in that state.
  pub missing_goes_manual :
      (i : String) (t : ℕ) (prefix : String) (s : Oms) (r : OrderRow)
      → find_order i s.orders ≡ some r
      → r.state ≡ uncertain
      → find_event (str_append prefix ":begin") s.events ≡ none
      → find_event (str_append prefix ":missing") s.events ≡ none
      → (r' : OrderRow) × ((reconcile_order digest decimal_str resolver i none (aware t) prefix s).0
          ≡ ok r'.order)
        × (find_order i
              (reconcile_order digest decimal_str resolver i none (aware t) prefix s).1.orders
            ≡ some r')
        × (r'.state ≡ manual)
  unfolding validate_transition
  missing_goes_manual i t prefix s r found state begin missing =
      let begin_id = str_append prefix ":begin" in
      let end_id = str_append prefix ":missing" in
      let first = advance_row reconciling (resolve_broker_id none r.broker_order_id) t r in
      let s' = moved digest i reconciling begin_id t none none r s in
      let found' = moved_found digest i reconciling begin_id t none none s r found in
      let fresh' =
        moved_fresh digest i reconciling begin_id end_id t none none s r missing
          (str_eq-append prefix ":begin" ":missing" refl) in
      let valid : validate_transition r.state reconciling ≡ ok tt = rw state refl in
      let begun =
        transition_accepted digest i reconciling begin_id t none none s r found begin valid in
      let ended =
        transition_accepted digest i manual end_id t none (some missing_payload) s' first found'
          fresh' refl in
      rw
        (
          found_begin i none (aware t) prefix s r found,
          missing_begun i (aware t) prefix r.order first.order s s' state begun,
          ended,
        )
        (
          advance_row manual (resolve_broker_id none first.broker_order_id) t first,
          refl,
          moved_found digest i manual end_id t none (some missing_payload) s' first found',
          refl,
        )

  uncertain_settled :
      (i : String) (b : BrokerOrderTruth) (at : Datetime) (prefix : String) (local a : OrderRecord)
      (s s' : Oms)
      → local.state ≡ uncertain
      → transition digest i reconciling (str_append prefix ":begin") at none none s ≡ (ok a, s')
      → settle_uncertain digest decimal_str resolver i b at prefix local s
        ≡ transition digest i reconciled
            (str_append prefix ":truth")
            at
            (some b.broker_order_id)
            (some (state_payload b))
            s'
  unfolding settle_uncertain
  uncertain_settled i b at prefix local a s s' state begun = rw state (
      bind_ok (transition digest i reconciling (str_append prefix ":begin") at none none)
        (λ begun.
          transition digest i reconciled (str_append prefix ":truth") at (some b.broker_order_id)
            (some (state_payload b)))
        s s' a begun)

  -- The four parts of the method in turn.
  found_chain :
      (i : String) (b : BrokerOrderTruth) (at : Datetime) (prefix : String)
      (local proven filled_in : OrderRecord) (s s' s'' : Oms)
      → check_truth digest decimal_str resolver i local b s ≡ (ok tt, s)
      → settle_uncertain digest decimal_str resolver i b at prefix local s ≡ (ok proven, s')
      → settle_fill digest decimal_str resolver i b at prefix proven s' ≡ (ok filled_in, s'')
      → reconcile_found digest decimal_str resolver i (some b) at prefix local s
        ≡ settle_state digest decimal_str resolver b.state i b at prefix filled_in s''
  unfolding reconcile_found
  found_chain i b at prefix local proven filled_in s s' s'' checked settled filling =
      let rest = settle_state digest decimal_str resolver b.state i b at prefix in
      let fill = settle_fill digest decimal_str resolver i b at prefix in
      bind_ok (check_truth digest decimal_str resolver i local b)
        (λ _.
          settle_uncertain digest decimal_str resolver i b at prefix local >>= λ q. fill q >>= rest)
        s s tt checked
      ∙ bind_ok (settle_uncertain digest decimal_str resolver i b at prefix local)
          (λ q. fill q >>= rest) s s' proven settled
      ∙ bind_ok (fill proven) rest s' s'' filled_in filling

  -- What the checks say of the amount.
  checked_amount :
      (i : String) (local : OrderRecord) (b : BrokerOrderTruth) (s : Oms)
      → check_truth digest decimal_str resolver i local b s ≡ (ok tt, s)
      → (not_nonnegative b.cumulative_filled ≡ false)
        × (dec_lt local.quantity b.cumulative_filled ≡ false)
  unfolding check_truth
  checked_amount i local b s h = elim (Result-cases (validate_truth b)) [
    | inl valid ↦ (truth_amount b valid, ground arith)
    | inr (e, bad) ↦ ground arith
  ]

  fill_step :
      (i : String) (b : BrokerOrderTruth) (at : Datetime) (prefix : String) (local : OrderRecord)
      (s : Oms)
      → dec_lt local.filled_quantity b.cumulative_filled ≡ true
      → settle_fill digest decimal_str resolver i b at prefix local s
        ≡ apply_cumulative_fill digest i
            (fill_event digest decimal_str resolver prefix b)
            b.cumulative_filled
            at
            (some b.broker_order_id)
            s
  unfolding settle_fill
  fill_step i b at prefix local s more = rw more refl

  filled_settled :
      (i : String) (b : BrokerOrderTruth) (at : Datetime) (prefix : String) (local : OrderRecord)
      (s : Oms)
      → b.state ≡ filled
      → dec_eq local.filled_quantity local.quantity ≡ true
      → settle_state digest decimal_str resolver b.state i b at prefix local s ≡ (ok local, s)
  unfolding settle_state
  filled_settled i b at prefix local s done whole = ground arith

  -- An UNCERTAIN order that the broker reports as FILLED with the whole quantity ends FILLED with
  -- that quantity, in the result and in the store, where the report passes the checks, the filled
  -- quantity of the order is a number, the quantity is not 0 and above what was filled, and the
  -- begin, truth and fill events of the prefix are new.
  pub filled_goes_filled :
      (i : String) (b : BrokerOrderTruth) (t : ℕ) (prefix : String) (s : Oms) (r : OrderRow)
      → find_order i s.orders ≡ some r
      → r.state ≡ uncertain
      → is_finite r.filled_quantity ≡ true
      → check_truth digest decimal_str resolver i r.order b s ≡ (ok tt, s)
      → b.state ≡ filled
      → dec_eq b.cumulative_filled r.quantity ≡ true
      → dec_eq b.cumulative_filled dec_zero ≡ false
      → dec_lt r.filled_quantity b.cumulative_filled ≡ true
      → find_event (str_append prefix ":begin") s.events ≡ none
      → find_event (str_append prefix ":truth") s.events ≡ none
      → find_event (fill_event digest decimal_str resolver prefix b) s.events ≡ none
      → let (result, s') =
          reconcile_order digest decimal_str resolver i (some b) (aware t) prefix s in
        (r' : OrderRow) × (result ≡ ok r'.order)
        × (find_order i s'.orders ≡ some r')
        × (r'.state ≡ OrderState.filled)
        × (r'.filled_quantity ≡ b.cumulative_filled)
  unfolding validate_transition fill_target second validate_fill_target
  filled_goes_filled i b t prefix s r found state number checked done whole some_ more begin truth
        fills =
      let begin_id = str_append prefix ":begin" in
      let truth_id = str_append prefix ":truth" in
      let fill_id = fill_event digest decimal_str resolver prefix b in
      let c = b.cumulative_filled in
      let named = some b.broker_order_id in
      let p = some (state_payload b) in
      let r1 = advance_row reconciling (resolve_broker_id none r.broker_order_id) t r in
      let s1 = moved digest i reconciling begin_id t none none r s in
      let found1 = moved_found digest i reconciling begin_id t none none s r found in
      let r2 = advance_row reconciled (resolve_broker_id named r1.broker_order_id) t r1 in
      let s2 = moved digest i reconciled truth_id t named p r1 s1 in
      let found2 = moved_found digest i reconciled truth_id t named p s1 r1 found1 in
      let truth1 =
        moved_fresh digest i reconciling begin_id truth_id t none none s r truth
          (str_eq-append prefix ":begin" ":truth" refl) in
      let fills1 = moved_fresh digest i reconciling begin_id fill_id t none none s r fills (
        str_eq-append prefix ":begin" (str_append ":fill:" (decimal_str c))
          (fill_id_differs ":begin" (decimal_str c) refl)) in
      let fills2 = moved_fresh digest i reconciled truth_id fill_id t named p s1 r1 fills1 (
        str_eq-append prefix ":truth" (str_append ":fill:" (decimal_str c))
          (fill_id_differs ":truth" (decimal_str c) refl)) in
      let valid : validate_transition r.state reconciling ≡ ok tt = rw state refl in
      let begun =
        transition_accepted digest i reconciling begin_id t none none s r found begin valid in
      let proven =
        transition_accepted digest i reconciled truth_id t named p s1 r1 found1 truth1 refl in
      let (amount, capacity) = checked_amount i r.order b s checked in
      let sound : refuses_fill c r2.order ≡ false =
        ground (arith, dec_lt_asym r.filled_quantity c) in
      let good : validate_fill_target r2.state (fill_target r2.order c) ≡ ok tt = ground arith in
      let filling = fill_accepted digest i fill_id c t named s2 r2 found2 fills2 sound good in
      let settled =
        uncertain_settled i b (aware t) prefix r.order r1.order s s1 state begun ∙ proven in
      let r3 =
        fill_row (fill_target r2.order c) (resolve_broker_id named r2.broker_order_id) c t r2 in
      let s3 = filled_up digest i fill_id c t named r2 s2 in
      let chain =
        found_begin i (some b) (aware t) prefix s r found
        ∙ found_chain i b (aware t) prefix r.order r2.order r3.order s s2 s3 checked settled
            (fill_step i b (aware t) prefix r2.order s2 more ∙ filling) in
      let result : reconcile_order digest decimal_str resolver i (some b) (aware t) prefix s
          ≡ (ok r3.order, s3) =
        chain ∙ filled_settled i b (aware t) prefix r3.order s3 done whole in
      rw result (r3, refl, filled_found digest i fill_id c t named s2 r2 found2, ground arith, refl)
