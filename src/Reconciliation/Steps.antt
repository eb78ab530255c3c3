-- ===== src/Reconciliation/Steps.antt =====
-- Reconciling an order, by app/oms/reconciliation.py, only makes steps of the store.
use trade_bot.Prelude.{
  Option, none, some, String, ◌≡◌, refl, arith, inl, inr, not, str_append, Option-cases,
}
use trade_bot.Prelude.Decimal.{Decimal, dec_lt}
use trade_bot.Prelude.Json.{Json}
use trade_bot.Prelude.Clock.{Datetime}
use trade_bot.Prelude.Action.{◌>>=◌, pure, raise, value_error}
use trade_bot.Oms.State.{
  OrderState, state_eq, state_value, uncertain, reconciling, reconciled, manual, acknowledged,
}
use trade_bot.Oms.Tables.{is_terminal, Oms, OrderRecord, OrderRow, find_order, get}
use trade_bot.Oms.Orders.{transition}
use trade_bot.Oms.Fills.{apply_cumulative_fill}
use trade_bot.Oms.Steps.{transition-Step, fill-Step}
use trade_bot.Oms.Soundness.{IsSound}
use trade_bot.Oms.Evolution.{Later}
use trade_bot.Oms.Runs.{
  IsRun, Steps-IsSound, Steps-Later, Step-IsRun, bind-IsRun, if-IsRun, read-IsRun, stop, Steps-of,
}
use trade_bot.Reconciliation.Truth.{
  BrokerOrderState, open_, partially_filled, filled, cancelled, rejected, BrokerOrderTruth,
}
use trade_bot.Reconciliation.Order.{
  Resolver, reconcile_order, reconcile_found, broker_missing, check_truth, settle_uncertain,
  settle_fill, settle_state, settle_target, validate_broker_identity, check_economics,
  missing_payload, fill_event, state_payload,
}

module _ (digest : Json → String) (decimal_str : Decimal → String) (resolver : Resolver) where
  transition-IsRun :
      (i : String) (target : OrderState) (e : String) (t : Datetime) (b : Option String)
      (p : Option Json)
      → IsRun (transition digest i target e t b p)
  transition-IsRun i target e t b p =
      Step-IsRun (transition digest i target e t b p) (transition-Step digest i target e t b p)

  pub validate_broker_identity-same :
      (local : OrderRecord) (id : String) (s : Oms)
      → (validate_broker_identity resolver local id s).1 ≡ s
  unfolding validate_broker_identity
  validate_broker_identity-same local id s = ground arith

  check_economics-same :
      (i : String) (local : OrderRecord) (t : BrokerOrderTruth) (s : Oms)
      → (check_economics digest decimal_str resolver i local t s).1 ≡ s
  unfolding check_economics
  check_economics-same i local t s = refl

  pub check_truth-same :
      (i : String) (local : OrderRecord) (t : BrokerOrderTruth) (s : Oms)
      → (check_truth digest decimal_str resolver i local t s).1 ≡ s
  unfolding check_truth
  check_truth-same i local t s = ground (
    arith,
    validate_broker_identity-same local t.broker_order_id s,
    check_economics-same i local t s,
  )

  settle_uncertain-IsRun :
      (i : String) (t : BrokerOrderTruth) (at : Datetime) (prefix : String) (local : OrderRecord)
      → IsRun (settle_uncertain digest decimal_str resolver i t at prefix local)
  unfolding settle_uncertain
  settle_uncertain-IsRun i t at prefix local =
      if-IsRun (not (state_eq local.state uncertain)) (pure local)
        (transition digest i reconciling (str_append prefix ":begin") at none none >>= λ begun.
          transition digest i reconciled (str_append prefix ":truth") at (some t.broker_order_id)
            (some (state_payload t)))
        (λ s. stop)
        (bind-IsRun (transition digest i reconciling (str_append prefix ":begin") at none none)
          (λ begun.
            transition digest i reconciled (str_append prefix ":truth") at (some t.broker_order_id)
              (some (state_payload t)))
          (transition-IsRun i reconciling (str_append prefix ":begin") at none none)
          (λ begun.
            transition-IsRun i reconciled (str_append prefix ":truth") at (some t.broker_order_id)
              (some (state_payload t))))

  broker_missing-IsRun :
      (i : String) (at : Datetime) (prefix : String) (local : OrderRecord)
      → IsRun (broker_missing digest decimal_str resolver i at prefix local)
  unfolding broker_missing
  broker_missing-IsRun i at prefix local =
      if-IsRun (not (state_eq local.state uncertain)) (raise (value_error "BROKER_ORDER_NOT_FOUND"))
        (transition digest i reconciling (str_append prefix ":begin") at none none >>= λ begun.
          transition digest i manual (str_append prefix ":missing") at none (some missing_payload))
        (λ s. stop)
        (bind-IsRun (transition digest i reconciling (str_append prefix ":begin") at none none)
          (λ begun.
            transition digest i manual (str_append prefix ":missing") at none
              (some missing_payload))
          (transition-IsRun i reconciling (str_append prefix ":begin") at none none)
          (λ begun.
            transition-IsRun i manual (str_append prefix ":missing") at none
              (some missing_payload)))

  settle_fill-IsRun :
      (i : String) (t : BrokerOrderTruth) (at : Datetime) (prefix : String) (local : OrderRecord)
      → IsRun (settle_fill digest decimal_str resolver i t at prefix local)
  unfolding settle_fill
  settle_fill-IsRun i t at prefix local =
      let e = fill_event digest decimal_str resolver prefix t in
      if-IsRun (dec_lt local.filled_quantity t.cumulative_filled)
        (apply_cumulative_fill digest i e t.cumulative_filled at (some t.broker_order_id))
        (pure local)
        (Step-IsRun
          (apply_cumulative_fill digest i e t.cumulative_filled at (some t.broker_order_id))
          (fill-Step digest i e t.cumulative_filled at (some t.broker_order_id)))
        (λ s. stop)

  settle_target-IsRun :
      (i : String) (t : BrokerOrderTruth) (at : Datetime) (prefix : String) (target : OrderState)
      (local : OrderRecord)
      → IsRun (settle_target digest decimal_str resolver i t at prefix target local)
  unfolding settle_target
  settle_target-IsRun i t at prefix target local =
      let e = str_append prefix (str_append ":state:" (state_value target)) in
      if-IsRun (state_eq local.state target) (pure local)
        (transition digest i target e at (some t.broker_order_id) (some (state_payload t)))
        (λ s. stop)
        (transition-IsRun i target e at (some t.broker_order_id) (some (state_payload t)))

  settle_state-IsRun :
      (state : BrokerOrderState) (i : String) (t : BrokerOrderTruth) (at : Datetime)
      (prefix : String) (local : OrderRecord)
      → IsRun (settle_state digest decimal_str resolver state i t at prefix local)
  unfolding settle_state
  settle_state-IsRun filled i t at prefix local s = Steps-of (ground arith)
  settle_state-IsRun partially_filled i t at prefix local s = Steps-of (ground arith)
  settle_state-IsRun open_ i t at prefix local s =
      settle_target-IsRun i t at prefix acknowledged local s
  settle_state-IsRun cancelled i t at prefix local s =
      settle_target-IsRun i t at prefix OrderState.cancelled local s
  settle_state-IsRun rejected i t at prefix local s =
      settle_target-IsRun i t at prefix OrderState.rejected local s

  reconcile_found-IsRun :
      (i : String) (broker : Option BrokerOrderTruth) (at : Datetime) (prefix : String)
      (local : OrderRecord)
      → IsRun (reconcile_found digest decimal_str resolver i broker at prefix local)
  unfolding reconcile_found
  reconcile_found-IsRun i none at prefix local =
      if-IsRun (is_terminal local) (pure local)
        (broker_missing digest decimal_str resolver i at prefix local) (λ s. stop)
        (broker_missing-IsRun i at prefix local)
  reconcile_found-IsRun i (some t) at prefix local =
      bind-IsRun (check_truth digest decimal_str resolver i local t)
        (λ _. settle_uncertain digest decimal_str resolver i t at prefix local >>= λ proven.
          settle_fill digest decimal_str resolver i t at prefix proven
          >>= settle_state digest decimal_str resolver t.state i t at prefix)
        (read-IsRun (check_truth digest decimal_str resolver i local t)
          (check_truth-same i local t))
        (λ _.
          bind-IsRun (settle_uncertain digest decimal_str resolver i t at prefix local)
            (λ proven.
              settle_fill digest decimal_str resolver i t at prefix proven
              >>= settle_state digest decimal_str resolver t.state i t at prefix)
            (settle_uncertain-IsRun i t at prefix local)
            (λ proven.
              bind-IsRun (settle_fill digest decimal_str resolver i t at prefix proven)
                (settle_state digest decimal_str resolver t.state i t at prefix)
                (settle_fill-IsRun i t at prefix proven)
                (settle_state-IsRun t.state i t at prefix)))

  reconcile_order-IsRun :
      (i : String) (broker : Option BrokerOrderTruth) (at : Datetime) (prefix : String)
      → IsRun (reconcile_order digest decimal_str resolver i broker at prefix)
  unfolding reconcile_order
  reconcile_order-IsRun i broker at prefix s = elim (Option-cases (get i s)) [
    | inl missing ↦ rw missing stop
    | inr (local, found) ↦ rw found (reconcile_found-IsRun i broker at prefix local s)
  ]

  -- Reconciling an order keeps the invariant of the store, whatever the broker reports and whether
  -- the call returns or raises: no order is filled beyond its quantity, none is stored twice.
  pub reconcile_order-IsSound :
      (i : String) (broker : Option BrokerOrderTruth) (at : Datetime) (prefix : String) (s : Oms)
      → IsSound s
      → IsSound (reconcile_order digest decimal_str resolver i broker at prefix s).1
  reconcile_order-IsSound i broker at prefix s h =
      Steps-IsSound (reconcile_order-IsRun i broker at prefix s) h

  -- Reconciling leaves every order in the store as a later version of itself: its identity and its
  -- economics stay, its filled quantity does not fall, and its state follows `_ALLOWED`.
  pub reconcile_order-Later :
      (i j : String) (broker : Option BrokerOrderTruth) (at : Datetime) (prefix : String) (s : Oms)
      (r : OrderRow)
      → find_order j s.orders ≡ some r
      → Later j r (reconcile_order digest decimal_str resolver i broker at prefix s).1
  reconcile_order-Later i j broker at prefix s r h =
      Steps-Later j r (reconcile_order-IsRun i broker at prefix s) h
