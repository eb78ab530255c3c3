-- ===== src/Reconciliation/Account.antt =====
-- app/oms/reconciliation.py: `reconcile_portfolio`, the ledger against the broker's account.
use trade_bot.Prelude.{
  Bool, true, false, Option, none, some, List, [], ◌∷◌, ◌++◌, String, str_eq, str_append,
  sorted_set, if◌then◌else◌,
}
use trade_bot.Prelude.Decimal.{Decimal, dec_zero, dec_lt, dec_abs, sub}
use trade_bot.Prelude.Action.{Result, ok, err}
use trade_bot.Domain.{not_nonnegative, ◌else_check◌}
use trade_bot.Risk.Context.{refuse_any}
use trade_bot.Portfolio.Ledger.{Position, Ledger}
use trade_bot.Portfolio.Valuation.{sorted_positions}
use trade_bot.Reconciliation.Truth.{BrokerPositionTruth, BrokerPortfolioTruth, validate_portfolio}

pub record PortfolioReconciliationResult : Type 0 where
  pub matched : Bool
  pub cash_delta : Decimal
  pub position_deltas : List (String × Decimal)
  pub reasons : List String

-- `{position.symbol: position.quantity for position in positions}`
abbrev pub broker_holdings : List BrokerPositionTruth → List (String × Decimal)
broker_holdings [] = []
broker_holdings (p ∷ ps) = (p.symbol, p.quantity) ∷ broker_holdings ps

abbrev pub local_holdings : List Position → List (String × Decimal)
local_holdings [] = []
local_holdings (p ∷ ps) = (p.symbol, p.quantity) ∷ local_holdings ps

-- `holdings.get(symbol)` of the dictionary that a list of pairs makes: the last pair counts.
abbrev pub find_holding : String → List (String × Decimal) → Option Decimal
find_holding symbol [] = none
find_holding symbol ((s, quantity) ∷ rest) = elim (find_holding symbol rest) [
  | some later ↦ some later
  | none ↦ if str_eq s symbol then some quantity else none
]

abbrev pub held : String → List (String × Decimal) → Decimal
held symbol holdings = elim (find_holding symbol holdings) [ none ↦ dec_zero | some q ↦ q ]

abbrev pub symbols_of : List (String × Decimal) → List String
symbols_of [] = []
symbols_of ((s, quantity) ∷ rest) = s ∷ symbols_of rest

-- `abs(delta) > tolerance`
abbrev pub is_off : Decimal → Decimal → Bool
is_off tolerance delta = dec_lt tolerance (dec_abs delta)

module _ (tolerance : Decimal) (broker local : List (String × Decimal)) where
  abbrev pub delta_of : String → Decimal
  delta_of symbol = sub (held symbol broker) (held symbol local)

  -- The symbols whose quantities differ, with the differences.
  unfoldable pub position_deltas : List String → List (String × Decimal)
  position_deltas [] = []
  position_deltas (s ∷ symbols) =
      let rest = position_deltas symbols in
      if is_off tolerance (delta_of s) then (s, delta_of s) ∷ rest else rest

abbrev pub position_reasons : List (String × Decimal) → List String
position_reasons [] = []
position_reasons ((s, delta) ∷ rest) = str_append "POSITION_MISMATCH:" s ∷ position_reasons rest

abbrev pub is_nil {ℓ} : {A : Type ℓ} → List A → Bool
is_nil [] = true
is_nil (a ∷ rest) = false

unfoldable pub compare_portfolio :
    Ledger → BrokerPortfolioTruth → Decimal → Decimal → PortfolioReconciliationResult
compare_portfolio ledger broker cash_tolerance quantity_tolerance =
    let cash_delta = sub broker.cash ledger.cash in
    let theirs = broker_holdings broker.positions in
    let ours = local_holdings (sorted_positions ledger.positions) in
    let symbols = sorted_set (symbols_of theirs ++ symbols_of ours) in
    let deltas = position_deltas quantity_tolerance theirs ours symbols in
    let reasons =
      position_reasons deltas
      ++ (if is_off cash_tolerance cash_delta then "CASH_MISMATCH" ∷ [] else []) in
    record {
      matched = is_nil reasons;
      cash_delta = cash_delta;
      position_deltas = deltas;
      reasons = reasons;
    }

unfoldable pub reconcile_portfolio :
    Ledger → BrokerPortfolioTruth → Decimal → Decimal → Result PortfolioReconciliationResult
reconcile_portfolio ledger broker cash_tolerance quantity_tolerance =
    elim (validate_portfolio broker
      else_check refuse_any not_nonnegative " must be finite and non-negative"
          (("cash_tolerance", cash_tolerance) ∷ ("quantity_tolerance", quantity_tolerance) ∷ [])) [
            | err e ↦ err e
            | ok _ ↦ ok (compare_portfolio ledger broker cash_tolerance quantity_tolerance)
          ]
