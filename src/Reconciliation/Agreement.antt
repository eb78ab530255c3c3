-- ===== src/Reconciliation/Agreement.antt =====
-- What a match of `reconcile_portfolio` of app/oms/reconciliation.py says of the account.
use trade_bot.Prelude.{
  Bool, true, false, ◌||◌, none, List, [], ◌∷◌, ◌++◌, String, ◌≡◌, ◌↔◌, refl, sym, ◌∙◌, arith, inl,
  inr, str_eq, str_eq_iff, contains_text, sorted_set, sorted_set-contains_text, Bool-cases,
  if◌then◌else◌,
}
use trade_bot.Prelude.Decimal.{Decimal, dec_zero, dec_abs, sub}
use trade_bot.Prelude.Action.{ok}
use trade_bot.Domain.{not_nonnegative}
use trade_bot.Portfolio.Ledger.{Ledger}
use trade_bot.Portfolio.Valuation.{sorted_positions}
use trade_bot.Reconciliation.Truth.{BrokerPortfolioTruth}
use trade_bot.Reconciliation.Account.{
  PortfolioReconciliationResult, broker_holdings, local_holdings, find_holding, held, symbols_of,
  is_off, delta_of, position_deltas, position_reasons, is_nil, compare_portfolio,
  reconcile_portfolio,
}

-- A symbol that is in neither account is held in neither.
not_held :
    (symbol : String) (holdings : List (String × Decimal))
    → contains_text symbol (symbols_of holdings) ≡ false
    → find_holding symbol holdings ≡ none
not_held symbol [] h = refl
not_held symbol ((s, quantity) ∷ rest) h = ground (arith, not_held symbol rest)

contains_text-append :
    (s : String) (xs ys : List String)
    → contains_text s (xs ++ ys) ≡ (contains_text s xs || contains_text s ys)
contains_text-append s [] ys = refl
contains_text-append s (x ∷ xs) ys = ground (arith, contains_text-append s xs ys)

no_delta :
    (tolerance : Decimal)
    → not_nonnegative tolerance ≡ false
    → is_off tolerance (sub dec_zero dec_zero) ≡ false
unfolding dec_abs sub
no_delta tolerance h = ground arith

module _ (tolerance : Decimal) (broker local : List (String × Decimal)) where
  -- No difference among the symbols that are looked at.
  agree_on_symbols :
      (symbols : List String)
      → position_deltas tolerance broker local symbols ≡ []
      → (s : String) → contains_text s symbols ≡ true
      → is_off tolerance (delta_of tolerance broker local s) ≡ false
  unfolding position_deltas
  agree_on_symbols [] h s k = ground arith
  agree_on_symbols (x ∷ symbols) h s k = elim (Bool-cases (str_eq x s)) [
    | inl same ↦ rw (← (str_eq_iff x s).0 same) (ground arith)
    | inr other ↦ agree_on_symbols symbols (ground arith) s (ground arith)
  ]

  differ_nowhere :
      (symbols : List String)
      → ((s : String) → is_off tolerance (delta_of tolerance broker local s) ≡ false)
      → position_deltas tolerance broker local symbols ≡ []
  unfolding position_deltas
  differ_nowhere [] h = refl
  differ_nowhere (x ∷ symbols) h = ground (arith, h x, differ_nowhere symbols h)

agree_off_symbols :
    (tolerance : Decimal) (broker local : List (String × Decimal)) (s : String)
    → not_nonnegative tolerance ≡ false
    → contains_text s (sorted_set (symbols_of broker ++ symbols_of local)) ≡ false
    → is_off tolerance (delta_of tolerance broker local s) ≡ false
agree_off_symbols tolerance broker local s valid out =
    let either : (contains_text s (symbols_of broker) || contains_text s (symbols_of local))
        ≡ false =
      sym (contains_text-append s (symbols_of broker) (symbols_of local))
      ∙ sym (sorted_set-contains_text s (symbols_of broker ++ symbols_of local))
      ∙ out in
    let theirs = not_held s broker (ground arith) in
    let ours = not_held s local (ground arith) in
    rw (delta_of, held, theirs, ours) (no_delta tolerance valid)

-- The quantity that each side says, and whether they are further apart than the tolerance.
abbrev pub quantity_off : Ledger → BrokerPortfolioTruth → Decimal → String → Bool
quantity_off l b tolerance symbol = is_off tolerance (
    delta_of tolerance (broker_holdings b.positions) (local_holdings (sorted_positions l.positions))
      symbol)

-- What an empty list of reasons is made of.
no_reasons :
    (deltas : List (String × Decimal)) (cash : Bool)
    → is_nil (position_reasons deltas ++ (if cash then "CASH_MISMATCH" ∷ [] else [])) ≡ true
    → (deltas ≡ []) × (cash ≡ false)
no_reasons [] cash h = (refl, ground arith)
no_reasons ((s, delta) ∷ rest) cash h = ground arith

-- `reconcile_portfolio` reports a match exactly where the account agrees: a call that returns says
-- `matched` if and only if the cash is within its tolerance and, for every symbol there is, held by
-- one side, by both or by neither, the two quantities are within theirs.
pub matched_iff_agrees :
    (l : Ledger) (b : BrokerPortfolioTruth) (cash_tolerance quantity_tolerance : Decimal)
    (r : PortfolioReconciliationResult)
    → reconcile_portfolio l b cash_tolerance quantity_tolerance ≡ ok r
    → (r.matched ≡ true) ↔ (
        (is_off cash_tolerance (sub b.cash l.cash) ≡ false)
        × ((symbol : String) → quantity_off l b quantity_tolerance symbol ≡ false))
unfolding reconcile_portfolio compare_portfolio
matched_iff_agrees l b cash_tolerance quantity_tolerance r h =
    let theirs = broker_holdings b.positions in
    let ours = local_holdings (sorted_positions l.positions) in
    let symbols = sorted_set (symbols_of theirs ++ symbols_of ours) in
    let deltas = position_deltas quantity_tolerance theirs ours symbols in
    let valid : not_nonnegative quantity_tolerance ≡ false = ground arith in
    let e : r ≡ compare_portfolio l b cash_tolerance quantity_tolerance = ground arith in
    rw e (
      (λ nothing.
          let (same, cash) =
            no_reasons deltas (is_off cash_tolerance (sub b.cash l.cash)) nothing in
          (
            cash,
            λ symbol. elim (Bool-cases (contains_text symbol symbols)) [
              | inl in_ ↦ agree_on_symbols quantity_tolerance theirs ours symbols same symbol in_
              | inr out ↦ agree_off_symbols quantity_tolerance theirs ours symbol valid out
            ],
          )),
      (λ agrees.
          rw (differ_nowhere quantity_tolerance theirs ours symbols agrees.1, agrees.0) refl),
    )
