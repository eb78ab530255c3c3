-- ===== src/Indexed/Approval.antt =====
-- What `approve_risk_with_reservation` of app/oms/indexed.py promises.
use trade_bot.Prelude.{
  ℕ, ◌⊎◌, true, Option, none, some, List, [], ◌∷◌, ◌++◌, String, ◌≡◌, refl, arith, inl, inr,
  Option-cases,
}
use trade_bot.Prelude.Decimal.{mul}
use trade_bot.Prelude.Json.{Json}
use trade_bot.Prelude.Clock.{Datetime, aware, naive}
use trade_bot.Prelude.Action.{
  Result, ok, err, Error, Result-cases, Given-cases, transaction, transaction_same, ok_is_no_err,
}
use trade_bot.Domain.{OrderIntent, is_buy}
use trade_bot.Oms.State.{risk_approved, state_value, validate_transition}
use trade_bot.Oms.Tables.{Oms, OrderRecord, OrderRow, find_order, find_event, get, update_order}
use trade_bot.Oms.Events.{append_event, journal_row}
use trade_bot.Oms.Orders.{advance_row}
use trade_bot.Oms.Steps.{Step, same, advance}
use trade_bot.Oms.Lookup.{find_order-update_self}
use trade_bot.Oms.Soundness.{IsSound, Step-IsSound}
use trade_bot.Risk.Engine.{RiskDecision}
use trade_bot.Risk.Lifecycle.{prepare}
use trade_bot.Risk.Prepare.{prepare_reserving-IsSound}
use trade_bot.Risk.Reservation.{
  RiskReservationBudget, is_approved, validate_budget, evaluate_buy_reservation,
}
use trade_bot.Risk.Capacity.{evaluate_buy_reservation-FitsBudget}
use trade_bot.Indexed.Committed.{FitsRows, evaluated-FitsRows}
use trade_bot.Indexed.Reserve.{
  reservation_request, reservation_payload, reserve_capacity, active_buys, approve_new,
  approve_body, approve_risk_with_reservation,
}

-- A buy that is let through fits, with what is committed to the other buys.
reserve_capacity-FitsRows :
    (r : OrderRecord) (b : RiskReservationBudget) (rows : List OrderRow) (payload : Json)
    → is_buy r.side ≡ true
    → reserve_capacity r b rows ≡ ok payload
    → FitsRows b r.symbol (mul r.quantity r.limit_price) rows
unfolding reserve_capacity
reserve_capacity-FitsRows r b rows payload buys given =
    let evaluation =
      evaluate_buy_reservation r.symbol (mul r.quantity r.limit_price) b (active_buys rows) in
    elim (Given-cases evaluation) [
      | inl (e, done) ↦
          let approved : is_approved e ≡ true = ground arith in
          evaluated-FitsRows r.symbol (mul r.quantity r.limit_price) b rows e done (
            (evaluate_buy_reservation-FitsBudget r.symbol (mul r.quantity r.limit_price) b
                (active_buys rows) e done).0
              approved)
      | inr (x, failed) ↦ absurd (refused x failed)
    ]
  where
    refused :
        (x : Error)
        → evaluate_buy_reservation r.symbol (mul r.quantity r.limit_price) b (active_buys rows)
          ≡ err x
        → ⊥
    refused x failed = ground arith

module _ (digest : Json → String) where
  -- The store after an approval.
  abbrev booked : String → String → ℕ → RiskReservationBudget → Json → OrderRow → Oms → Oms
  booked i e t b payload r s = record s {
    orders = update_order i (advance_row risk_approved r.broker_order_id t) s.orders;
    events =
        s.events
        ++ journal_row digest e i (state_value risk_approved)
            (reservation_payload payload (reservation_request r.order b)) t none
          ∷ [];
  }

  approve_new-booked :
      (i e : String) (t : ℕ) (b : RiskReservationBudget) (s : Oms) (r : OrderRow) (payload : Json)
      → find_order i s.orders ≡ some r
      → find_event e s.events ≡ none
      → validate_transition r.state risk_approved ≡ ok tt
      → reserve_capacity r.order b s.orders ≡ ok payload
      → approve_new digest i e t b r.order s
        ≡ (ok (advance_row risk_approved r.broker_order_id t r).order, booked i e t b payload r s)
  unfolding approve_new get append_event
  approve_new-booked i e t b s r payload found fresh good given = ground (
    arith,
    find_order-update_self i (advance_row risk_approved r.broker_order_id t) s.orders {r = r}
        (λ x. refl) found,
  )

  approve_new-refused :
      (i e : String) (t : ℕ) (b : RiskReservationBudget) (s : Oms) (r : OrderRow) {x : Error}
      → validate_transition r.state risk_approved ≡ err x
      → approve_new digest i e t b r.order s ≡ (err x, s)
  unfolding approve_new
  approve_new-refused i e t b s r bad = ground arith

  approve_new-beyond :
      (i e : String) (t : ℕ) (b : RiskReservationBudget) (s : Oms) (r : OrderRow) {x : Error}
      → validate_transition r.state risk_approved ≡ ok tt
      → reserve_capacity r.order b s.orders ≡ err x
      → approve_new digest i e t b r.order s ≡ (err x, s)
  unfolding approve_new
  approve_new-beyond i e t b s r good beyond = ground arith

  -- A new approval is booked with its payload, or raises and writes nothing.
  approve_new-cases :
      (i e : String) (t : ℕ) (b : RiskReservationBudget) (s : Oms) (r : OrderRow)
      → find_order i s.orders ≡ some r
      → find_event e s.events ≡ none
      → ((payload : Json) × (validate_transition r.state risk_approved ≡ ok tt)
          × (reserve_capacity r.order b s.orders ≡ ok payload)
          × (approve_new digest i e t b r.order s ≡ (
            ok (advance_row risk_approved r.broker_order_id t r).order,
            booked i e t b payload r s,
          )))
        ⊎ ((x : Error) × (approve_new digest i e t b r.order s ≡ (err x, s)))
  approve_new-cases i e t b s r found fresh =
      elim (Result-cases (validate_transition r.state risk_approved)) [
        | inr (x, bad) ↦ inr (x, approve_new-refused i e t b s r {x = x} bad)
        | inl good ↦ elim (Given-cases (reserve_capacity r.order b s.orders)) [
          | inr (x, beyond) ↦ inr (x, approve_new-beyond i e t b s r {x = x} good beyond)
          | inl (payload, given) ↦
              inl (
                payload,
                good,
                given,
                approve_new-booked i e t b s r payload found fresh good given,
              )
        ]
      ]

  approve_body_fresh :
      (i e : String) (t : ℕ) (b : RiskReservationBudget) (s : Oms) (r : OrderRow)
      → find_order i s.orders ≡ some r
      → find_event e s.events ≡ none
      → approve_body digest i e t b s ≡ approve_new digest i e t b r.order s
  unfolding approve_body get
  approve_body_fresh i e t b s r found fresh = ground arith

  -- A call at a new event is the new approval, in a transaction.
  approve_fresh :
      (i e : String) (t : ℕ) (b : RiskReservationBudget) (s : Oms) (r : OrderRow)
      → find_order i s.orders ≡ some r
      → find_event e s.events ≡ none
      → validate_budget b ≡ ok tt
      → approve_risk_with_reservation digest i e (aware t) b s
        ≡ transaction (approve_new digest i e t b r.order) s
  unfolding approve_risk_with_reservation
  approve_fresh i e t b s r found fresh valid = rw valid (
      transaction_same (approve_body digest i e t b) (approve_new digest i e t b r.order) s
        (approve_body_fresh i e t b s r found fresh))

  approve-Step :
      (i e : String) (t : Datetime) (b : RiskReservationBudget) (s : Oms)
      → Step s (approve_risk_with_reservation digest i e t b s).1
  unfolding approve_risk_with_reservation get append_event
  approve-Step i e (naive t) b s = same (ground arith)
  approve-Step i e (aware t) b s = elim (Result-cases (validate_budget b)) [
    | inr (x, bad) ↦ same (ground arith)
    | inl valid ↦ elim (Option-cases (find_order i s.orders)) [
      | inl missing ↦ same (ground arith)
      | inr (r, found) ↦ elim (Option-cases (find_event e s.events)) [
        | inr (x, taken) ↦ same (ground arith)
        | inl fresh ↦ elim (approve_new-cases i e t b s r found fresh) [
          | inr (x, refused) ↦
              same (ground (arith, refused, approve_fresh i e t b s r found fresh valid))
          | inl (payload, good, given, done) ↦
              advance i r risk_approved r.broker_order_id t
                (journal_row digest e i (state_value risk_approved)
                    (reservation_payload payload (reservation_request r.order b)) t none
                  ∷ [])
                found good (ground (arith, done, approve_fresh i e t b s r found fresh valid))
        ]
      ]
    ]
  ]

  naive_refused :
      (i e : String) (t : ℕ) (b : RiskReservationBudget) (s : Oms) {approved : OrderRecord}
      → (approve_risk_with_reservation digest i e (naive t) b s).0 ≡ ok approved
      → ⊥
  unfolding approve_risk_with_reservation
  naive_refused i e t b s h = ground arith

  invalid_refused :
      (i e : String) (t : ℕ) (b : RiskReservationBudget) (s : Oms) {approved : OrderRecord}
      {x : Error}
      → validate_budget b ≡ err x
      → (approve_risk_with_reservation digest i e (aware t) b s).0 ≡ ok approved
      → ⊥
  unfolding approve_risk_with_reservation
  invalid_refused i e t b s bad h = ground arith

  same_state :
      {r : Result OrderRecord} (a b : OrderRecord) → r ≡ ok a → r ≡ ok b → a.state ≡ b.state
  same_state {r} a b h k = ground arith

  -- An approval of a buy that is new to the journal keeps the budget: where the call returns, the
  -- whole notional of the order, together with what is still to be paid for every buy of the store
  -- that is neither new nor settled, is within the cash, if a cash is given; with the current
  -- notional, the same of the symbol is within its limit, and of all symbols within theirs. The order
  -- that returns is RISK_APPROVED.
  pub approved_within_budget :
      (i e : String) (t : Datetime) (b : RiskReservationBudget) (s : Oms) (r : OrderRow)
      (approved : OrderRecord)
      → find_order i s.orders ≡ some r
      → is_buy r.side ≡ true
      → find_event e s.events ≡ none
      → (approve_risk_with_reservation digest i e t b s).0 ≡ ok approved
      → FitsRows b r.symbol (mul r.quantity r.limit_price) s.orders
        × (approved.state ≡ risk_approved)
  approved_within_budget i e (naive t) b s r approved found buys fresh h =
      absurd (naive_refused i e t b s h)
  approved_within_budget i e (aware t) b s r approved found buys fresh h =
      elim (Result-cases (validate_budget b)) [
        | inr (x, bad) ↦ absurd (invalid_refused i e t b s {x = x} bad h)
        | inl valid ↦ elim (approve_new-cases i e t b s r found fresh) [
          | inr (x, refused) ↦ absurd (
              ok_is_no_err {e = x} h
                (ground (arith, refused, approve_fresh i e t b s r found fresh valid)))
          | inl (payload, good, given, done) ↦
              let row = advance_row risk_approved r.broker_order_id t r in
              let result : (approve_risk_with_reservation digest i e (aware t) b s).0
                  ≡ ok row.order =
                ground (arith, done, approve_fresh i e t b s r found fresh valid) in
              (
                reserve_capacity-FitsRows r.order b s.orders payload buys given,
                same_state approved row.order h result,
              )
        ]
      ]

  -- `prepare` on the store with reservations keeps the invariant of the tables, whatever it is given
  -- and whether it returns or raises: reserving capacity is one more step of the same store.
  pub prepare_indexed-IsSound :
      (sha : String → String) (namespace : String) (i : OrderIntent) (d : RiskDecision)
      (t : Datetime) (budget : Option RiskReservationBudget) (s : Oms)
      → IsSound s
      → IsSound
          (prepare digest sha namespace
            (some (approve_risk_with_reservation digest))
            i
            d
            t
            budget
            s).1
  prepare_indexed-IsSound =
      prepare_reserving-IsSound digest (some (approve_risk_with_reservation digest))
        (λ i e t b s h. Step-IsSound (approve-Step i e t b s) h)
