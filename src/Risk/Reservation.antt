-- ===== src/Risk/Reservation.antt =====
-- app/oms/risk_reservations.py: the capacity that a buy may reserve before it is submitted.
use trade_bot.Prelude.{
  Bool, false, Option, none, some, List, [], ◌∷◌, String, is_blank, str_eq, sorted_set,
  if◌then◌else◌,
}
use trade_bot.Prelude.Decimal.{Decimal, dec_zero, add, dec_lt}
use trade_bot.Prelude.Action.{Result, ok, err}
use trade_bot.Domain.{not_positive, not_nonnegative, refuse, ◌else_check◌}
use trade_bot.Risk.Context.{refuse_any, refuse_supplied}
use trade_bot.Risk.Engine.{failures, is_nil}

pub record RiskReservationBudget : Type 0 where
  pub available_cash : Option Decimal
  pub current_symbol_notional : Decimal
  pub current_gross_notional : Decimal
  pub maximum_symbol_notional : Decimal
  pub maximum_gross_notional : Decimal

unfoldable pub validate_budget : RiskReservationBudget → Result (Unit {0})
validate_budget b =
    refuse_any not_nonnegative " must be finite and non-negative" (
      ("current_symbol_notional", b.current_symbol_notional)
      ∷ ("current_gross_notional", b.current_gross_notional)
      ∷ [])
    else_check refuse_any not_positive " must be positive and finite" (
        ("maximum_symbol_notional", b.maximum_symbol_notional)
        ∷ ("maximum_gross_notional", b.maximum_gross_notional)
        ∷ [])
    else_check refuse_supplied not_nonnegative " must be finite and non-negative when supplied"
        (("available_cash", b.available_cash) ∷ [])

pub record PendingBuyExposure : Type 0 where
  pub symbol : String
  pub remaining_notional : Decimal

-- `validate`, over all the exposures.
unfoldable pub validate_exposures : List PendingBuyExposure → Result (Unit {0})
validate_exposures [] = ok tt
validate_exposures (x ∷ xs) =
    refuse (is_blank x.symbol) "pending exposure symbol is required"
    else_check refuse (not_nonnegative x.remaining_notional)
        "pending remaining_notional must be finite and non-negative"
    else_check validate_exposures xs

pub record RiskReservationEvaluation : Type 0 where
  pub reasons : List String
  pub reserved_cash_notional : Decimal
  pub reserved_symbol_notional : Decimal
  pub reserved_gross_notional : Decimal
  pub projected_cash_commitment : Decimal
  pub projected_symbol_notional : Decimal
  pub projected_gross_notional : Decimal

abbrev pub is_approved : RiskReservationEvaluation → Bool
is_approved e = is_nil e.reasons

-- `sum(…, start=total)`, from the left.
unfoldable pub sum_from : Decimal → List PendingBuyExposure → Decimal
sum_from total [] = total
sum_from total (x ∷ xs) = sum_from (add total x.remaining_notional) xs

abbrev pub of_symbol : String → List PendingBuyExposure → List PendingBuyExposure
of_symbol s [] = []
of_symbol s (x ∷ xs) = let rest = of_symbol s xs in if str_eq x.symbol s then x ∷ rest else rest

-- `available_cash is not None and projected > available_cash`
abbrev pub beyond_cash : Option Decimal → Decimal → Bool
beyond_cash none projected = false
beyond_cash (some cash) projected = dec_lt cash projected

abbrev pub reservation :
    Decimal → RiskReservationBudget → Decimal → Decimal → RiskReservationEvaluation
reservation candidate b reserved_gross reserved_symbol =
    let cash = add reserved_gross candidate in
    let symbol = add (add b.current_symbol_notional reserved_symbol) candidate in
    let gross = add (add b.current_gross_notional reserved_gross) candidate in
    record {
      reasons = sorted_set (
          failures (
            (beyond_cash b.available_cash cash, "INSUFFICIENT_AVAILABLE_CASH")
            ∷ (dec_lt b.maximum_symbol_notional symbol, "SYMBOL_NOTIONAL_LIMIT_EXCEEDED")
            ∷ (dec_lt b.maximum_gross_notional gross, "GROSS_NOTIONAL_LIMIT_EXCEEDED")
            ∷ []));
      reserved_cash_notional = reserved_gross;
      reserved_symbol_notional = reserved_symbol;
      reserved_gross_notional = reserved_gross;
      projected_cash_commitment = cash;
      projected_symbol_notional = symbol;
      projected_gross_notional = gross;
    }

unfoldable pub evaluate_buy_reservation :
    String
    → Decimal
    → RiskReservationBudget
    → List PendingBuyExposure
    → Result RiskReservationEvaluation
evaluate_buy_reservation symbol candidate budget active =
    elim (validate_budget budget
      else_check refuse (is_blank symbol) "symbol is required"
      else_check refuse (not_positive candidate) "candidate_notional must be positive and finite"
      else_check validate_exposures active) [
        | err e ↦ err e
        | ok _ ↦ ok (
            reservation candidate budget (sum_from dec_zero active)
              (sum_from dec_zero (of_symbol symbol active)))
      ]
