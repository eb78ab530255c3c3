-- ===== src/Portfolio/Again.antt =====
-- The calls on app/portfolio/ledger.py that come twice: the ids that the ledger keeps.
use trade_bot.Prelude.{
  true, List, ◌∷◌, String, ◌≡◌, ap, arith, inl, inr, str_eq_refl, contains_text,
}
use trade_bot.Prelude.Decimal.{Decimal}
use trade_bot.Prelude.Action.{Error, ok, err, Given-cases}
use trade_bot.Domain.{Fill}
use trade_bot.Portfolio.Ledger.{
  CashAdjustmentKind, Ledger, apply_fill, apply_cash_adjustment, apply_split, apply_cash_dividend,
}
use trade_bot.Portfolio.Solvent.{
  LedgerCall, fill_call, adjust_call, split_call, dividend_call, after,
}

contains_text_head : (i : String) (ids : List String) → contains_text i (i ∷ ids) ≡ true
contains_text_head i ids = ground (arith, str_eq_refl i)

apply_fill_raised :
    (f : Fill) (l : Ledger) {e : Error} → (apply_fill f l).0 ≡ err e → (apply_fill f l).1 ≡ l
unfolding apply_fill
apply_fill_raised f l h = ground arith

apply_fill_kept :
    (f : Fill) (l : Ledger)
    → (apply_fill f l).0 ≡ ok tt
    → contains_text f.fill_id (apply_fill f l).1.fill_ids ≡ true
unfolding apply_fill
apply_fill_kept f l h = ground (arith, contains_text_head f.fill_id l.fill_ids)

apply_fill_known :
    (f : Fill) (l : Ledger) → contains_text f.fill_id l.fill_ids ≡ true → (apply_fill f l).1 ≡ l
unfolding apply_fill
apply_fill_known f l h = ground arith

apply_cash_adjustment_raised :
    (i : String) (amount : Decimal) (kind : CashAdjustmentKind) (l : Ledger) {e : Error}
    → (apply_cash_adjustment i amount kind l).0 ≡ err e
    → (apply_cash_adjustment i amount kind l).1 ≡ l
unfolding apply_cash_adjustment
apply_cash_adjustment_raised i amount kind l h = ground arith

apply_cash_adjustment_kept :
    (i : String) (amount : Decimal) (kind : CashAdjustmentKind) (l : Ledger)
    → (apply_cash_adjustment i amount kind l).0 ≡ ok tt
    → contains_text i (apply_cash_adjustment i amount kind l).1.cash_adjustment_ids ≡ true
unfolding apply_cash_adjustment
apply_cash_adjustment_kept i amount kind l h =
    ground (arith, contains_text_head i l.cash_adjustment_ids)

apply_cash_adjustment_known :
    (i : String) (amount : Decimal) (kind : CashAdjustmentKind) (l : Ledger)
    → contains_text i l.cash_adjustment_ids ≡ true
    → (apply_cash_adjustment i amount kind l).1 ≡ l
unfolding apply_cash_adjustment
apply_cash_adjustment_known i amount kind l h = ground arith

apply_split_raised :
    (i symbol : String) (ratio : Decimal) (l : Ledger) {e : Error}
    → (apply_split i symbol ratio l).0 ≡ err e
    → (apply_split i symbol ratio l).1 ≡ l
unfolding apply_split
apply_split_raised i symbol ratio l h = ground arith

apply_split_kept :
    (i symbol : String) (ratio : Decimal) (l : Ledger)
    → (apply_split i symbol ratio l).0 ≡ ok tt
    → contains_text i (apply_split i symbol ratio l).1.corporate_action_ids ≡ true
unfolding apply_split
apply_split_kept i symbol ratio l h = ground (arith, contains_text_head i l.corporate_action_ids)

apply_split_known :
    (i symbol : String) (ratio : Decimal) (l : Ledger)
    → contains_text i l.corporate_action_ids ≡ true
    → (apply_split i symbol ratio l).1 ≡ l
unfolding apply_split
apply_split_known i symbol ratio l h = ground arith

apply_cash_dividend_raised :
    (i symbol : String) (amount : Decimal) (l : Ledger) {e : Error}
    → (apply_cash_dividend i symbol amount l).0 ≡ err e
    → (apply_cash_dividend i symbol amount l).1 ≡ l
unfolding apply_cash_dividend
apply_cash_dividend_raised i symbol amount l h = ground arith

apply_cash_dividend_kept :
    (i symbol : String) (amount : Decimal) (l : Ledger) {x : Decimal}
    → (apply_cash_dividend i symbol amount l).0 ≡ ok x
    → contains_text i (apply_cash_dividend i symbol amount l).1.corporate_action_ids ≡ true
unfolding apply_cash_dividend
apply_cash_dividend_kept i symbol amount l h =
    ground (arith, contains_text_head i l.corporate_action_ids)

apply_cash_dividend_known :
    (i symbol : String) (amount : Decimal) (l : Ledger)
    → contains_text i l.corporate_action_ids ≡ true
    → (apply_cash_dividend i symbol amount l).1 ≡ l
unfolding apply_cash_dividend
apply_cash_dividend_known i symbol amount l h = ground arith

-- Booking the same fill, cash adjustment, split or dividend again, at once, changes nothing, whether
-- the first call returned or raised.
pub after_again : (c : LedgerCall) (l : Ledger) → after c (after c l) ≡ after c l
unfolding after
after_again (fill_call f) l = elim (Given-cases (apply_fill f l).0) [
  | inl (x, returned) ↦ apply_fill_known f (apply_fill f l).1 (apply_fill_kept f l returned)
  | inr (e, raised) ↦
      ap (λ (m : Ledger). after (fill_call f) m) (apply_fill_raised f l {e = e} raised)
]
after_again (adjust_call i amount kind) l =
    elim (Given-cases (apply_cash_adjustment i amount kind l).0) [
      | inl (x, returned) ↦
          apply_cash_adjustment_known i amount kind (apply_cash_adjustment i amount kind l).1
            (apply_cash_adjustment_kept i amount kind l returned)
      | inr (e, raised) ↦
          ap (λ (m : Ledger). after (adjust_call i amount kind) m)
            (apply_cash_adjustment_raised i amount kind l {e = e} raised)
    ]
after_again (split_call i symbol ratio) l = elim (Given-cases (apply_split i symbol ratio l).0) [
  | inl (x, returned) ↦
      apply_split_known i symbol ratio (apply_split i symbol ratio l).1
        (apply_split_kept i symbol ratio l returned)
  | inr (e, raised) ↦
      ap (λ (m : Ledger). after (split_call i symbol ratio) m)
        (apply_split_raised i symbol ratio l {e = e} raised)
]
after_again (dividend_call i symbol amount) l =
    elim (Given-cases (apply_cash_dividend i symbol amount l).0) [
      | inl (x, returned) ↦
          apply_cash_dividend_known i symbol amount (apply_cash_dividend i symbol amount l).1
            (apply_cash_dividend_kept i symbol amount l {x = x} returned)
      | inr (e, raised) ↦
          ap (λ (m : Ledger). after (dividend_call i symbol amount) m)
            (apply_cash_dividend_raised i symbol amount l {e = e} raised)
    ]
