-- ===== src/Indexed/Committed.antt =====
-- What the buys of the store of app/oms/indexed.py commit, counted from the orders, and the budget
-- that an approval keeps with them.
use trade_bot.Prelude.{
  Bool, true, false, not, ◌&&◌, Option, none, some, List, [], ◌∷◌, String, str_eq, if◌then◌else◌,
  ◌≡◌, refl, arith,
}
use trade_bot.Prelude.Decimal.{Decimal, dec_zero, dec_lt, add, sub, mul}
use trade_bot.Prelude.Action.{ok}
use trade_bot.Domain.{is_buy}
use trade_bot.Oms.State.{OrderState, created, filled, cancelled, rejected, contains_state}
use trade_bot.Oms.Tables.{OrderRow}
use trade_bot.Risk.Reservation.{
  RiskReservationBudget, RiskReservationEvaluation, evaluate_buy_reservation, sum_from, of_symbol,
  beyond_cash,
}
use trade_bot.Risk.Capacity.{FitsBudget, evaluate_inv}
use trade_bot.Indexed.Reserve.{risk_reserving_states, active_buys}

-- The order may still be filled: it is neither new nor settled.
abbrev pub may_fill : OrderState → Bool
may_fill created = false
may_fill filled = false
may_fill cancelled = false
may_fill rejected = false
may_fill _ = true

-- What is still to be paid for the buys of the store that may be filled, on top of a total.
abbrev pub committed : Decimal → List OrderRow → Decimal
committed total [] = total
committed total (r ∷ rs) =
    if is_buy r.side && may_fill r.state
    then committed (add total (mul (sub r.quantity r.filled_quantity) r.limit_price)) rs
    else committed total rs

-- The same of one symbol.
abbrev pub committed_to : String → Decimal → List OrderRow → Decimal
committed_to symbol total [] = total
committed_to symbol total (r ∷ rs) =
    if is_buy r.side && may_fill r.state && str_eq r.symbol symbol
    then committed_to symbol (add total (mul (sub r.quantity r.filled_quantity) r.limit_price)) rs
    else committed_to symbol total rs

contains_state-may_fill : (s : OrderState) → contains_state s risk_reserving_states ≡ may_fill s
contains_state-may_fill s = ground arith

sum_from-active_buys :
    (total : Decimal) (rows : List OrderRow)
    → sum_from total (active_buys rows) ≡ committed total rows
unfolding sum_from active_buys
sum_from-active_buys total [] = refl
sum_from-active_buys total (r ∷ rs) =
    let more = add total (mul (sub r.quantity r.filled_quantity) r.limit_price) in
    ground (
      arith,
      contains_state-may_fill r.state,
      sum_from-active_buys total rs,
      sum_from-active_buys more rs,
    )

sum_from-of_symbol :
    (symbol : String) (total : Decimal) (rows : List OrderRow)
    → sum_from total (of_symbol symbol (active_buys rows)) ≡ committed_to symbol total rows
unfolding sum_from active_buys
sum_from-of_symbol symbol total [] = refl
sum_from-of_symbol symbol total (r ∷ rs) =
    let more = add total (mul (sub r.quantity r.filled_quantity) r.limit_price) in
    ground (
      arith,
      contains_state-may_fill r.state,
      sum_from-of_symbol symbol total rs,
      sum_from-of_symbol symbol more rs,
    )

-- The amount is within the cash, where a cash is given.
abbrev pub affords : Option Decimal → Decimal → Bool
affords none amount = true
affords (some cash) amount = not (dec_lt cash amount)

-- A buy of the symbol at this cost keeps the budget, with all that the rows commit.
abbrev pub FitsRows : RiskReservationBudget → String → Decimal → List OrderRow → Type 0
FitsRows b symbol cost rows =
    (affords b.available_cash (add (committed dec_zero rows) cost) ≡ true)
    × (dec_lt b.maximum_symbol_notional
          (add (add b.current_symbol_notional (committed_to symbol dec_zero rows)) cost)
        ≡ false)
    × (dec_lt b.maximum_gross_notional
          (add (add b.current_gross_notional (committed dec_zero rows)) cost)
        ≡ false)

affords-beyond_cash :
    (cash : Option Decimal) (amount : Decimal)
    → beyond_cash cash amount ≡ false
    → affords cash amount ≡ true
affords-beyond_cash none amount h = refl
affords-beyond_cash (some cash) amount h = ground arith

pub evaluated-FitsRows :
    (symbol : String) (cost : Decimal) (b : RiskReservationBudget) (rows : List OrderRow)
    (e : RiskReservationEvaluation)
    → evaluate_buy_reservation symbol cost b (active_buys rows) ≡ ok e
    → FitsBudget b e
    → FitsRows b symbol cost rows
evaluated-FitsRows symbol cost b rows e done fits =
    let (cash, of_one, of_all) =
      rw (← evaluate_inv symbol cost b (active_buys rows) e done) at fits in
    rw (← sum_from-active_buys dec_zero rows, ← sum_from-of_symbol symbol dec_zero rows)
      (
        affords-beyond_cash b.available_cash (add (sum_from dec_zero (active_buys rows)) cost) cash,
        of_one,
        of_all,
      )
