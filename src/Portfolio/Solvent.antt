-- ===== src/Portfolio/Solvent.antt =====
-- app/portfolio/ledger.py never goes short and never into debt, whatever is booked.
use trade_bot.Prelude.{
  not, ◌||◌, List, [], ◌∷◌, String, ◌≡◌, arith, inl, inr, Bool-cases, contains_text, is_blank,
}
use trade_bot.Prelude.Decimal.{Decimal, dec_zero, is_finite, dec_lt, dec_eq, add, mul, div}
use trade_bot.Prelude.Decimal.Sign.{
  IsNonneg, IsNonneg-of_test, IsNonneg-is_finite, add-IsNonneg, mul-IsNonneg,
}
use trade_bot.Prelude.Decimal.Finite.{add-is_finite}
use trade_bot.Prelude.Action.{ok, ◌>>=◌, Given-cases}
use trade_bot.Domain.{Fill, not_positive, not_nonnegative}
use trade_bot.Portfolio.Ledger.{
  CashAdjustmentKind, external_flow, income, fee_charge, Position, Ledger, open_ledger, position,
  apply_fill, adjust_cash, bad_fee, book_adjustment, apply_cash_adjustment, split_position,
  split_shares, apply_split, pay_dividend, apply_cash_dividend, not_normalized, is_positive,
}
use trade_bot.Portfolio.Held.{
  IsSolvent, positive_held, nonnegative_held, set_position-AllHeld, position-IsNonneg,
  apply_fill-IsSolvent,
}

pub data LedgerCall : Type 0 where
  fill_call : Fill → LedgerCall
  adjust_call : String → Decimal → CashAdjustmentKind → LedgerCall
  split_call : String → String → Decimal → LedgerCall
  dividend_call : String → String → Decimal → LedgerCall

-- The ledger after a call, whether it returned or raised.
unfoldable pub after : LedgerCall → Ledger → Ledger
after (fill_call f) l = (apply_fill f l).1
after (adjust_call i amount kind) l = (apply_cash_adjustment i amount kind l).1
after (split_call i symbol ratio) l = (apply_split i symbol ratio l).1
after (dividend_call i symbol amount) l = (apply_cash_dividend i symbol amount l).1

unfoldable pub run : List LedgerCall → Ledger → Ledger
run [] l = l
run (c ∷ cs) l = run cs (after c l)

book_adjustment-IsSolvent :
    (kind : CashAdjustmentKind) (amount : Decimal) (l : Ledger)
    → IsSolvent l
    → IsSolvent (book_adjustment kind amount l)
book_adjustment-IsSolvent external_flow amount l h = ground arith
book_adjustment-IsSolvent income amount l h = ground arith
book_adjustment-IsSolvent fee_charge amount l h = ground arith

adjust_cash-IsSolvent :
    (i : String) (amount : Decimal) (kind : CashAdjustmentKind) (l : Ledger)
    → IsSolvent l
    → IsSolvent (adjust_cash i amount kind l).1
adjust_cash-IsSolvent i amount kind l h =
    let projected = add l.cash amount in
    elim (Bool-cases (not (is_finite amount) || dec_eq amount dec_zero)) [
      | inl bad ↦ rw bad h
      | inr usable ↦ elim (Bool-cases (bad_fee kind amount)) [
        | inl bad ↦ rw (usable, bad) h
        | inr fair ↦ elim (Bool-cases (dec_lt projected dec_zero)) [
          | inl short ↦ rw (usable, fair, short) h
          | inr enough ↦
              let known =
                add-is_finite l.cash amount (IsNonneg-is_finite l.cash h.cash_held)
                  (ground arith) in
              let after_cash : IsSolvent (record l { cash = projected }) = record {
                cash_held = IsNonneg-of_test projected known enough;
                shares_held = h.shares_held;
              } in
              let booked =
                book_adjustment-IsSolvent kind amount (record l { cash = projected }) after_cash in
              rw (usable, fair, enough)
                (record { cash_held = booked.cash_held; shares_held = booked.shares_held })
        ]
      ]
    ]

split_position-IsSolvent :
    (ratio : Decimal) (prior : Position) (l : Ledger)
    → IsNonneg ratio
    → IsNonneg prior.quantity
    → IsSolvent l
    → IsSolvent (split_position ratio prior l)
split_position-IsSolvent ratio prior l r p h = elim (Bool-cases (is_positive prior.quantity)) [
  | inr none_held ↦ rw none_held h
  | inl held ↦ rw held (record {
    cash_held = h.cash_held;
    shares_held =
        set_position-AllHeld
          (record {
            symbol = prior.symbol;
            quantity = mul prior.quantity ratio;
            average_cost = div prior.average_cost ratio;
          })
          l.positions (mul-IsNonneg prior.quantity ratio p r) h.shares_held;
  })
]

split_shares-IsSolvent :
    (i symbol : String) (ratio : Decimal) (l : Ledger)
    → IsSolvent l
    → IsSolvent (split_shares i symbol ratio l).1
split_shares-IsSolvent i symbol ratio l h = elim (Bool-cases (not_normalized symbol)) [
  | inl bad ↦ rw bad h
  | inr fine ↦ elim (Bool-cases (not_positive ratio)) [
    | inl bad ↦ rw (fine, bad) h
    | inr usable ↦ elim (Given-cases (position symbol l)) [
      | inr (e, unnamed) ↦ rw (fine, usable) (rw (◌>>=◌, unnamed) h)
      | inl (prior, found) ↦
          let split =
            split_position-IsSolvent ratio prior l (positive_held ratio usable)
              (position-IsNonneg symbol l prior h found) h in
          rw (fine, usable)
            (rw (◌>>=◌, found)
              (record { cash_held = split.cash_held; shares_held = split.shares_held }))
    ]
  ]
]

pay_dividend-IsSolvent :
    (i symbol : String) (amount : Decimal) (l : Ledger)
    → IsSolvent l
    → IsSolvent (pay_dividend i symbol amount l).1
pay_dividend-IsSolvent i symbol amount l h = elim (Bool-cases (not_normalized symbol)) [
  | inl bad ↦ rw bad h
  | inr fine ↦ elim (Bool-cases (not_nonnegative amount)) [
    | inl bad ↦ rw (fine, bad) h
    | inr usable ↦ elim (Given-cases (position symbol l)) [
      | inr (e, unnamed) ↦ rw (fine, usable) (rw (◌>>=◌, unnamed) h)
      | inl (held, found) ↦
          rw (fine, usable)
            (rw (◌>>=◌, found)
              (record {
                cash_held = add-IsNonneg l.cash (mul held.quantity amount) h.cash_held (
                    mul-IsNonneg held.quantity amount (position-IsNonneg symbol l held h found)
                      (nonnegative_held amount usable));
                shares_held = h.shares_held;
              }))
    ]
  ]
]

apply_cash_adjustment-IsSolvent :
    (i : String) (amount : Decimal) (kind : CashAdjustmentKind) (l : Ledger)
    → IsSolvent l
    → IsSolvent (apply_cash_adjustment i amount kind l).1
unfolding apply_cash_adjustment
apply_cash_adjustment-IsSolvent i amount kind l h = elim (Bool-cases (is_blank i)) [
  | inl blank ↦ rw blank h
  | inr named ↦ elim (Bool-cases (contains_text i l.cash_adjustment_ids)) [
    | inl known ↦ rw (named, known) h
    | inr fresh ↦ rw (named, fresh) (adjust_cash-IsSolvent i amount kind l h)
  ]
]

apply_split-IsSolvent :
    (i symbol : String) (ratio : Decimal) (l : Ledger)
    → IsSolvent l
    → IsSolvent (apply_split i symbol ratio l).1
unfolding apply_split
apply_split-IsSolvent i symbol ratio l h = elim (Bool-cases (is_blank i)) [
  | inl blank ↦ rw blank h
  | inr named ↦ elim (Bool-cases (contains_text i l.corporate_action_ids)) [
    | inl known ↦ rw (named, known) h
    | inr fresh ↦ rw (named, fresh) (split_shares-IsSolvent i symbol ratio l h)
  ]
]

apply_cash_dividend-IsSolvent :
    (i symbol : String) (amount : Decimal) (l : Ledger)
    → IsSolvent l
    → IsSolvent (apply_cash_dividend i symbol amount l).1
unfolding apply_cash_dividend
apply_cash_dividend-IsSolvent i symbol amount l h = elim (Bool-cases (is_blank i)) [
  | inl blank ↦ rw blank h
  | inr named ↦ elim (Bool-cases (contains_text i l.corporate_action_ids)) [
    | inl known ↦ rw (named, known) h
    | inr fresh ↦ rw (named, fresh) (pay_dividend-IsSolvent i symbol amount l h)
  ]
]

after-IsSolvent : (c : LedgerCall) (l : Ledger) → IsSolvent l → IsSolvent (after c l)
unfolding after
after-IsSolvent (fill_call f) l h = apply_fill-IsSolvent f l h
after-IsSolvent (adjust_call i amount kind) l h = apply_cash_adjustment-IsSolvent i amount kind l h
after-IsSolvent (split_call i symbol ratio) l h = apply_split-IsSolvent i symbol ratio l h
after-IsSolvent (dividend_call i symbol amount) l h =
    apply_cash_dividend-IsSolvent i symbol amount l h

open_ledger-IsSolvent : (c : Decimal) (l : Ledger) → open_ledger c ≡ ok l → IsSolvent l
unfolding open_ledger
open_ledger-IsSolvent c l h = elim (Bool-cases (not_nonnegative c)) [
  | inl bad ↦ ground arith
  | inr good ↦
      let cash : l.cash ≡ c = ground arith in
      let none_held : l.positions ≡ [] = ground arith in
      record { cash_held = rw cash (nonnegative_held c good); shares_held = rw none_held tt }
]

run-IsSolvent_from : (cs : List LedgerCall) (l : Ledger) → IsSolvent l → IsSolvent (run cs l)
unfolding run
run-IsSolvent_from [] l h = h
run-IsSolvent_from (c ∷ cs) l h = run-IsSolvent_from cs (after c l) (after-IsSolvent c l h)

-- From an opened ledger, whatever fills, cash adjustments, splits and dividends are booked or
-- refused, the cash and every held quantity stay finite and not negative, roundings included.
pub run-IsSolvent :
    (c : Decimal) (l : Ledger) (cs : List LedgerCall) → open_ledger c ≡ ok l → IsSolvent (run cs l)
run-IsSolvent c l cs h = run-IsSolvent_from cs l (open_ledger-IsSolvent c l h)
