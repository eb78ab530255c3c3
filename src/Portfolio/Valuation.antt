-- ===== src/Portfolio/Valuation.antt =====
-- app/portfolio/ledger.py: the prices of the positions, `equity` and `snapshot`.
use Prim.Native.Nat.{Ordering}
use Prim.Native.String.{compare}
use trade_bot.Prelude.{
  true, false, Option, none, some, List, [], ◌∷◌, String, str_eq, str_append, if◌then◌else◌,
}
use trade_bot.Prelude.Decimal.{Decimal, dec_zero, dec_eq, add, sub, mul}
use trade_bot.Prelude.Action.{Result, ok, err, value_error}
use trade_bot.Domain.{not_positive}
use trade_bot.Portfolio.Ledger.{Position, Ledger}

-- `prices.get(symbol)`
abbrev pub find_price : String → List (String × Decimal) → Option Decimal
find_price symbol [] = none
find_price symbol ((s, price) ∷ rest) =
    let later = find_price symbol rest in if str_eq s symbol then some price else later

-- `_valid_price`
unfoldable pub valid_price : String → List (String × Decimal) → Result Decimal
valid_price symbol prices = elim (find_price symbol prices) [
  | none ↦ err (value_error (str_append "valid price required for " symbol))
  | some price ↦
      if not_positive price
      then err (value_error (str_append "valid price required for " symbol))
      else ok price
]

-- The sum over the positions that are held, each at its price.
unfoldable pub sum_positions :
    (Decimal → Position → Decimal)
    → List (String × Decimal)
    → Decimal
    → List Position
    → Result Decimal
sum_positions value prices total [] = ok total
sum_positions value prices total (p ∷ ps) = elim (dec_eq p.quantity dec_zero) [
  | true ↦ sum_positions value prices total ps
  | false ↦ elim (valid_price p.symbol prices) [
    | err e ↦ err e
    | ok price ↦ sum_positions value prices (add total (value price p)) ps
  ]
]

unfoldable pub gross_notional : List (String × Decimal) → Ledger → Result Decimal
gross_notional prices l =
    sum_positions (λ price p. mul p.quantity price) prices dec_zero l.positions

unfoldable pub unrealized_pnl : List (String × Decimal) → Ledger → Result Decimal
unrealized_pnl prices l =
    sum_positions (λ price p. mul (sub price p.average_cost) p.quantity) prices dec_zero l.positions

unfoldable pub equity : List (String × Decimal) → Ledger → Result Decimal
equity prices l = elim (gross_notional prices l) [
  | ok gross ↦ ok (add l.cash gross)
  | err e ↦ err e
]

pub record PortfolioSnapshot : Type 0 where
  pub cash : Decimal
  pub positions : List Position
  pub gross_notional : Decimal
  pub equity : Decimal
  pub realized_pnl : Decimal
  pub unrealized_pnl : Decimal
  pub cash_income : Decimal
  pub total_pnl : Decimal
  pub fees_paid : Decimal
  pub external_cash_flow : Decimal

insert_position : Position → List Position → List Position
insert_position p [] = p ∷ []
insert_position p (q ∷ qs) =
    let rest = insert_position p qs in
    elim (compare p.symbol q.symbol) [ Ordering.gt ↦ q ∷ rest | _ ↦ p ∷ q ∷ qs ]

-- `positions`: sorted by symbol.
unfoldable pub sorted_positions : List Position → List Position
unfolding insert_position
sorted_positions [] = []
sorted_positions (p ∷ ps) = insert_position p (sorted_positions ps)

abbrev snapshot_of : Decimal → Decimal → Ledger → PortfolioSnapshot
snapshot_of gross unrealized l =
    let total = add l.cash gross in
    record {
      cash = l.cash;
      positions = sorted_positions l.positions;
      gross_notional = gross;
      equity = total;
      realized_pnl = l.realized_pnl;
      unrealized_pnl = unrealized;
      cash_income = l.cash_income;
      total_pnl = sub (sub total l.opening_cash) l.external_cash_flow;
      fees_paid = l.fees_paid;
      external_cash_flow = l.external_cash_flow;
    }

unfoldable pub snapshot : List (String × Decimal) → Ledger → Result PortfolioSnapshot
snapshot prices l = elim (gross_notional prices l) [
  | err e ↦ err e
  | ok gross ↦ elim (unrealized_pnl prices l) [
    | err e ↦ err e
    | ok unrealized ↦ ok (snapshot_of gross unrealized l)
  ]
]
