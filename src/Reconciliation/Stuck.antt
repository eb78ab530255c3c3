-- ===== src/Reconciliation/Stuck.antt =====
-- What app/oms/reconciliation.py does with an order that is RECONCILING already.
use trade_bot.Prelude.{
  Option, none, some, String, ◌≡◌, refl, arith, inl, inr, Option-cases, Bool-cases, str_append,
}
use trade_bot.Prelude.Decimal.{Decimal, dec_lt}
use trade_bot.Prelude.Json.{Json}
use trade_bot.Prelude.Clock.{Datetime, aware, naive}
use trade_bot.Prelude.Action.{Action, ok, err, Error, ◌>>=◌, pure, Result-cases}
use trade_bot.Prelude.Preserves.{Preserves, bind-Preserves, if-Preserves, read-Preserves}
use trade_bot.Oms.State.{
  OrderState, state_eq, reconciling, acknowledged, state_value, validate_transition,
}
use trade_bot.Oms.Tables.{Oms, OrderRecord, OrderRow, find_order, find_event, get, is_terminal}
use trade_bot.Oms.Orders.{transition, resolve_broker_id}
use trade_bot.Oms.Fills.{apply_cumulative_fill, fill_target, validate_fill_target, fill_row}
use trade_bot.Oms.Events.{append_event}
use trade_bot.Oms.Steps.{refuses_fill}
use trade_bot.Oms.Lookup.{find_order-update_self}
use trade_bot.Reconciliation.Truth.{
  BrokerOrderState, open_, partially_filled, filled, cancelled, rejected, BrokerOrderTruth,
}
use trade_bot.Reconciliation.Order.{
  Resolver, reconcile_order, reconcile_found, broker_missing, check_truth, settle_uncertain,
  settle_fill, settle_state, settle_target, state_payload, fill_event,
}
use trade_bot.Reconciliation.Steps.{check_truth-same}

-- The order is in the store, RECONCILING.
abbrev pub IsReconciling : String → Oms → Type 0
IsReconciling i s = (r : OrderRow) × (find_order i s.orders ≡ some r) × (r.state ≡ reconciling)

-- The method keeps the order RECONCILING, and gives it back so.
abbrev KeepsReconciling : String → Action Oms OrderRecord → Type 0
KeepsReconciling i m = Preserves (IsReconciling i) m

pub get-find_order :
    (i : String) (s : Oms) {r : OrderRow} → find_order i s.orders ≡ some r → get i s ≡ some r.order
unfolding get
get-find_order i s h = ground arith

-- A fill that the state RECONCILING accepts leaves it.
fill_target_reconciling :
    (r : OrderRecord) (c : Decimal)
    → r.state ≡ reconciling
    → validate_fill_target r.state (fill_target r c) ≡ ok tt
    → fill_target r c ≡ reconciling
unfolding validate_fill_target fill_target validate_transition
fill_target_reconciling r c h valid = ground arith

module _ (digest : Json → String) where
  transition_refused :
      (i : String) (target : OrderState) (e : String) (t : Datetime) (b : Option String)
      (p : Option Json) (s : Oms) (r : OrderRow) {x : Error}
      → find_order i s.orders ≡ some r
      → validate_transition r.state target ≡ err x
      → (transition digest i target e t b p s).1 ≡ s
  unfolding transition get append_event
  transition_refused i target e (naive t) b p s r found bad = refl
  transition_refused i target e (aware t) b p s r found bad =
      elim (Option-cases (find_event e s.events)) [
        | inl fresh ↦ ground arith
        | inr (x, taken) ↦ ground arith
      ]

  fill-IsReconciling :
      (i e : String) (c : Decimal) (t : Datetime) (b : Option String)
      → KeepsReconciling i (apply_cumulative_fill digest i e c t b)
  unfolding apply_cumulative_fill get append_event
  fill-IsReconciling i e c (naive t) b s (r, found, state) = (r, ground arith, state)
  fill-IsReconciling i e c (aware t) b s (r, found, state) =
      elim (Option-cases (find_event e s.events)) [
        | inl fresh ↦ elim (Result-cases (validate_fill_target r.state (fill_target r.order c))) [
          | inr (x, bad) ↦ (r, ground arith, state)
          | inl good ↦ elim (Bool-cases (refuses_fill c r.order)) [
            | inl refused ↦ (r, ground arith, state)
            | inr sound ↦ (
              fill_row (fill_target r.order c) (resolve_broker_id b r.broker_order_id) c t r,
              ground (
                arith,
                find_order-update_self i
                    (fill_row (fill_target r.order c) (resolve_broker_id b r.broker_order_id) c t)
                    s.orders {r = r} (λ x. refl) found,
              ),
              fill_target_reconciling r.order c state good,
            )
          ]
        ]
        | inr (x, taken) ↦ (r, ground arith, state)
      ]

  transition-IsReconciling :
      (i : String) (target : OrderState) (e : String) (t : Datetime) (b : Option String)
      (p : Option Json) {x : Error}
      → validate_transition reconciling target ≡ err x
      → KeepsReconciling i (transition digest i target e t b p)
  transition-IsReconciling i target e t b p {x} bad s (r, found, state) =
      let refused : validate_transition r.state target ≡ err x = rw state bad in
      rw (transition_refused i target e t b p s r {x = x} found refused) (r, found, state)

module _ (digest : Json → String) (decimal_str : Decimal → String) (resolver : Resolver) where
  settle_target-IsReconciling :
      (i : String) (t : BrokerOrderTruth) (at : Datetime) (prefix : String) (target : OrderState)
      (local : OrderRecord) {x : Error}
      → validate_transition reconciling target ≡ err x
      → KeepsReconciling i (settle_target digest decimal_str resolver i t at prefix target local)
  unfolding settle_target
  settle_target-IsReconciling i t at prefix target local {x} bad =
      let e = str_append prefix (str_append ":state:" (state_value target)) in
      if-Preserves (IsReconciling i) (state_eq local.state target) (pure local)
        (transition digest i target e at (some t.broker_order_id) (some (state_payload t)))
        (λ s h. h)
        (transition-IsReconciling digest i target e at (some t.broker_order_id)
          (some (state_payload t)) {x = x} bad)

  settle_state-IsReconciling :
      (state : BrokerOrderState) (i : String) (t : BrokerOrderTruth) (at : Datetime)
      (prefix : String) (local : OrderRecord)
      → KeepsReconciling i (settle_state digest decimal_str resolver state i t at prefix local)
  unfolding settle_state validate_transition
  settle_state-IsReconciling filled i t at prefix local s h = ground (arith, h)
  settle_state-IsReconciling partially_filled i t at prefix local s h = ground (arith, h)
  settle_state-IsReconciling open_ i t at prefix local s h =
      settle_target-IsReconciling i t at prefix acknowledged local refl s h
  settle_state-IsReconciling cancelled i t at prefix local s h =
      settle_target-IsReconciling i t at prefix OrderState.cancelled local refl s h
  settle_state-IsReconciling rejected i t at prefix local s h =
      settle_target-IsReconciling i t at prefix OrderState.rejected local refl s h

  settle_fill-IsReconciling :
      (i : String) (t : BrokerOrderTruth) (at : Datetime) (prefix : String) (local : OrderRecord)
      → KeepsReconciling i (settle_fill digest decimal_str resolver i t at prefix local)
  unfolding settle_fill
  settle_fill-IsReconciling i t at prefix local =
      let e = fill_event digest decimal_str resolver prefix t in
      if-Preserves (IsReconciling i) (dec_lt local.filled_quantity t.cumulative_filled)
        (apply_cumulative_fill digest i e t.cumulative_filled at (some t.broker_order_id))
        (pure local) (fill-IsReconciling digest i e t.cumulative_filled at (some t.broker_order_id))
        (λ s h. h)

  reconcile_found-IsReconciling :
      (i : String) (broker : Option BrokerOrderTruth) (at : Datetime) (prefix : String)
      (local : OrderRecord)
      → local.state ≡ reconciling
      → KeepsReconciling i (reconcile_found digest decimal_str resolver i broker at prefix local)
  unfolding reconcile_found broker_missing settle_uncertain is_terminal
  reconcile_found-IsReconciling i none at prefix local state = λ s h. ground (arith, h)
  reconcile_found-IsReconciling i (some t) at prefix local state =
      bind-Preserves (IsReconciling i) (check_truth digest decimal_str resolver i local t)
        (λ _. settle_uncertain digest decimal_str resolver i t at prefix local >>= λ proven.
          settle_fill digest decimal_str resolver i t at prefix proven
          >>= settle_state digest decimal_str resolver t.state i t at prefix)
        (read-Preserves (IsReconciling i) (check_truth digest decimal_str resolver i local t)
          (check_truth-same digest decimal_str resolver i local t))
        (λ _.
          bind-Preserves (IsReconciling i)
            (settle_uncertain digest decimal_str resolver i t at prefix local)
            (λ proven.
              settle_fill digest decimal_str resolver i t at prefix proven
              >>= settle_state digest decimal_str resolver t.state i t at prefix)
            (λ s h. ground (arith, h))
            (λ proven.
              bind-Preserves (IsReconciling i)
                (settle_fill digest decimal_str resolver i t at prefix proven)
                (settle_state digest decimal_str resolver t.state i t at prefix)
                (settle_fill-IsReconciling i t at prefix proven)
                (settle_state-IsReconciling t.state i t at prefix)))

  -- An order that is RECONCILING when the reconciler reads it stays RECONCILING: whatever the broker
  -- reports, filled, cancelled or unknown, no call of `reconcile_order` moves it on.
  pub reconcile_order-IsReconciling :
      (i : String) (broker : Option BrokerOrderTruth) (at : Datetime) (prefix : String) (s : Oms)
      → IsReconciling i s
      → IsReconciling i (reconcile_order digest decimal_str resolver i broker at prefix s).1
  unfolding reconcile_order
  reconcile_order-IsReconciling i broker at prefix s (r, found, state) =
      rw (get-find_order i s found)
        (reconcile_found-IsReconciling i broker at prefix r.order state s (r, found, state))
