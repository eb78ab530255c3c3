-- ===== src/Risk/Capacity.antt =====
-- What an approval of app/oms/risk_reservations.py says.
use trade_bot.Prelude.{
  true, false, ◌↔◌, List, [], ◌∷◌, String, ◌≡◌, refl, inl, inr, arith, sorted_set, sorted_set-nil,
  is_blank,
}
use trade_bot.Prelude.Decimal.{Decimal, dec_zero, add, dec_lt}
use trade_bot.Prelude.Action.{ok, Result-cases}
use trade_bot.Domain.{refuse, ◌else_check◌, not_positive}
use trade_bot.Risk.Engine.{failures, is_nil}
use trade_bot.Risk.Reservation.{
  RiskReservationBudget, PendingBuyExposure, RiskReservationEvaluation, is_approved, beyond_cash,
  sum_from, of_symbol, reservation, validate_budget, validate_exposures, evaluate_buy_reservation,
}

-- The three commitments of the evaluation, each within its capacity.
abbrev pub FitsBudget : RiskReservationBudget → RiskReservationEvaluation → Type 0
FitsBudget b e =
    (beyond_cash b.available_cash e.projected_cash_commitment ≡ false)
    × (dec_lt b.maximum_symbol_notional e.projected_symbol_notional ≡ false)
    × (dec_lt b.maximum_gross_notional e.projected_gross_notional ≡ false)

is_nil-nil : (rs : List String) → is_nil rs ≡ true → rs ≡ []
is_nil-nil [] h = refl
is_nil-nil (r ∷ rs) h = ground arith

pub evaluate_inv :
    (symbol : String) (candidate : Decimal) (b : RiskReservationBudget)
    (active : List PendingBuyExposure) (e : RiskReservationEvaluation)
    → evaluate_buy_reservation symbol candidate b active ≡ ok e
    → reservation candidate b
        (sum_from dec_zero active)
        (sum_from dec_zero (of_symbol symbol active))
      ≡ e
unfolding evaluate_buy_reservation
evaluate_inv symbol candidate b active e h =
    elim (Result-cases (
      validate_budget b
      else_check refuse (is_blank symbol) "symbol is required"
      else_check refuse (not_positive candidate) "candidate_notional must be positive and finite"
      else_check validate_exposures active)) [
        | inl valid ↦ ground arith
        | inr (x, bad) ↦ ground arith
      ]

abbrev reservation_failures : Decimal → Decimal → Decimal → RiskReservationBudget → List String
reservation_failures candidate p q b =
    let cash = add p candidate in
    let symbol = add (add b.current_symbol_notional q) candidate in
    let gross = add (add b.current_gross_notional p) candidate in
    failures (
      (beyond_cash b.available_cash cash, "INSUFFICIENT_AVAILABLE_CASH")
      ∷ (dec_lt b.maximum_symbol_notional symbol, "SYMBOL_NOTIONAL_LIMIT_EXCEEDED")
      ∷ (dec_lt b.maximum_gross_notional gross, "GROSS_NOTIONAL_LIMIT_EXCEEDED")
      ∷ [])

reservation_fits :
    (candidate p q : Decimal) (b : RiskReservationBudget)
    → is_approved (reservation candidate b p q) ≡ true
    → FitsBudget b (reservation candidate b p q)
unfolding failures
reservation_fits candidate p q b h = ground (
  arith,
  sorted_set-nil (reservation_failures candidate p q b),
  is_nil-nil (reservation candidate b p q).reasons,
)

fits_reservation :
    (candidate p q : Decimal) (b : RiskReservationBudget)
    → FitsBudget b (reservation candidate b p q)
    → is_approved (reservation candidate b p q) ≡ true
unfolding failures sorted_set
fits_reservation candidate p q b (cash, symbol, gross) = rw (cash, symbol, gross) refl

-- An evaluation of a buy approves exactly where the cash, the symbol's notional and the gross
-- notional, with every pending buy counted, stay within the budget.
pub evaluate_buy_reservation-FitsBudget :
    (symbol : String) (candidate : Decimal) (b : RiskReservationBudget)
    (active : List PendingBuyExposure) (e : RiskReservationEvaluation)
    → evaluate_buy_reservation symbol candidate b active ≡ ok e
    → (is_approved e ≡ true) ↔ FitsBudget b e
evaluate_buy_reservation-FitsBudget symbol candidate b active e h =
    let p = sum_from dec_zero active in
    let q = sum_from dec_zero (of_symbol symbol active) in
    rw (← evaluate_inv symbol candidate b active e h)
      (reservation_fits candidate p q b, fits_reservation candidate p q b)
