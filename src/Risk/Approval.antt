-- ===== src/Risk/Approval.antt =====
-- What an approval of `PreTradeRiskEngine.evaluate` in app/risk/pretrade.py says.
use trade_bot.Prelude.{
  Bool, true, false, ◌&&◌, Option, List, [], ◌∷◌, String, ◌≡◌, refl, ap, arith, inl, inr, is_blank,
  str_eq_refl,
}
use trade_bot.Prelude.Decimal.{Decimal, add, div, neg, dec_lt, dec_le, dec_eq, is_finite}
use trade_bot.Prelude.Decimal.Finite.{mul-is_finite, dec_eq_refl}
use trade_bot.Prelude.Json.{Json}
use trade_bot.Prelude.Action.{ok, Result-cases, Given-cases}
use trade_bot.Domain.{
  OrderIntent, is_buy, validate_intent, IsValidIntent, validate_intent-IsValidIntent, not_positive,
}
use trade_bot.Risk.Context.{
  RiskEvaluationMode, RiskLimits, RiskContext, AnyContext, OperationalRiskContext, as_context,
  context_for_mode,
}
use trade_bot.Risk.Engine.{
  RiskDecision, evaluate, evaluate_side, decide, age_seconds, order_notional, projected_sector,
  risk_intent_fingerprint,
}
use trade_bot.Risk.Lifecycle.{validate_risk_approval}

-- Every test of the list has passed.
abbrev AllPass : List (Bool × String) → Type 0
AllPass [] = Unit
AllPass ((failed, reason) ∷ rest) = (failed ≡ false) × AllPass rest

-- The state of the market, the account and the order that an operational approval calls for.
pub record IsAdmitted (l : RiskLimits) (i : OrderIntent) (kill_switch : Bool)
    (o : OperationalRiskContext) (d : RiskDecision) : Type 0 where
  pub not_killed : kill_switch ≡ false
  pub order_bounded : dec_lt l.maximum_order_notional (order_notional i) ≡ false
  pub symbol_bounded : dec_lt l.maximum_symbol_notional d.projected_symbol_notional ≡ false
  pub gross_bounded : dec_lt l.maximum_gross_notional d.projected_gross_notional ≡ false
  pub price_fresh : dec_lt l.maximum_price_age_seconds (age_seconds (as_context o)) ≡ false
  pub market_is_open : o.market_open ≡ true
  pub not_halted : o.is_halted ≡ false
  pub spread_bounded : dec_lt l.maximum_spread_bps o.spread_bps ≡ false
  pub slippage_bounded : dec_lt l.maximum_slippage_bps o.estimated_slippage_bps ≡ false
  pub loss_bounded : dec_le o.daily_pnl (neg l.maximum_daily_loss) ≡ false
  pub drawdown_bounded : dec_le l.maximum_drawdown o.drawdown ≡ false
  pub turnover_bounded :
      dec_lt l.maximum_turnover_notional (add o.turnover_notional (order_notional i)) ≡ false
  pub cash_covers : is_buy i.side && dec_lt o.available_cash (order_notional i) ≡ false
  pub liquidity_bounded :
      dec_lt l.maximum_liquidity_participation_fraction
        (div (order_notional i) o.average_daily_dollar_volume)
      ≡ false
  pub position_bounded :
      dec_lt l.maximum_position_fraction_of_equity
        (div d.projected_symbol_notional o.portfolio_equity)
      ≡ false
  pub sector_bounded :
      dec_lt l.maximum_sector_fraction_of_equity (
        div
          (projected_sector l i.side
            (order_notional i)
            d.projected_symbol_notional
            o.sector_notional)
          o.portfolio_equity)
      ≡ false
  pub volatility_bounded : dec_lt l.maximum_annualized_volatility o.annualized_volatility ≡ false

positive_finite : (d : Decimal) → not_positive d ≡ false → is_finite d ≡ true
positive_finite d h = ground arith

notional_equal :
    (i : OrderIntent) → IsValidIntent i → dec_eq (order_notional i) (order_notional i) ≡ true
notional_equal i v = dec_eq_refl (order_notional i) (
    mul-is_finite i.quantity i.limit_price (positive_finite i.quantity v.quantity_positive)
      (positive_finite i.limit_price v.price_positive))

module _ (digest : Json → String) where
  -- Where `evaluate` gives a decision, the intent and the context were valid.
  evaluate_inv :
      (l : RiskLimits) (i : OrderIntent) (mode : RiskEvaluationMode) (p q : Decimal) (k : Bool)
      (x : AnyContext) (d : RiskDecision)
      → evaluate digest l i mode p q k x ≡ ok d
      → (c : Option RiskContext) × (validate_intent i ≡ ok tt)
        × (context_for_mode mode x ≡ ok c)
        × (evaluate_side digest l i p q k c ≡ d)
  unfolding evaluate
  evaluate_inv l i mode p q k x d h = elim (Result-cases (validate_intent i)) [
    | inr (e, bad) ↦ ground arith
    | inl valid ↦ elim (Given-cases (context_for_mode mode x)) [
      | inr (e, bad) ↦ ground arith
      | inl (c, given) ↦ (c, valid, given, ground arith)
    ]
  ]

  side_inv :
      (l : RiskLimits) (i : OrderIntent) (p q : Decimal) (k : Bool) (c : Option RiskContext)
      (d : RiskDecision)
      → evaluate_side digest l i p q k c ≡ d
      → d.approved ≡ true
      → decide digest l i d.projected_symbol_notional d.projected_gross_notional k c ≡ d
  unfolding evaluate_side
  side_inv l i p q k c d h approved = ground arith

  accepts :
      (l : RiskLimits) (i : OrderIntent) (k : Bool) (c : Option RiskContext) (d : RiskDecision)
      → is_blank (risk_intent_fingerprint digest i) ≡ false
      → validate_intent i ≡ ok tt
      → decide digest l i d.projected_symbol_notional d.projected_gross_notional k c ≡ d
      → d.approved ≡ true
      → validate_risk_approval digest i d ≡ ok tt
  unfolding validate_risk_approval
  accepts l i k c d named valid h approved =
      let v = (validate_intent-IsValidIntent i).0 valid in
      let same_id : i.intent_id ≡ d.intent_id = ap (λ e. e.intent_id) h in
      let same_mark : risk_intent_fingerprint digest i ≡ d.intent_fingerprint =
        ap (λ e. e.intent_fingerprint) h in
      let same_size : order_notional i ≡ d.order_notional = ap (λ e. e.order_notional) h in
      rw
        (
          approved,
          ← same_id,
          ← same_mark,
          ← same_size,
          v.named,
          named,
          str_eq_refl i.intent_id,
          str_eq_refl (risk_intent_fingerprint digest i),
          notional_equal i v,
        )
        refl

  -- A decision of `evaluate` that approves is accepted by the order lifecycle for the same intent,
  -- where the digest of the intent is not blank.
  pub approval_accepted :
      (l : RiskLimits) (i : OrderIntent) (mode : RiskEvaluationMode) (p q : Decimal) (k : Bool)
      (x : AnyContext) (d : RiskDecision)
      → is_blank (risk_intent_fingerprint digest i) ≡ false
      → evaluate digest l i mode p q k x ≡ ok d
      → d.approved ≡ true
      → validate_risk_approval digest i d ≡ ok tt
  approval_accepted l i mode p q k x d named h approved =
      let (c, valid, given, e) = evaluate_inv l i mode p q k x d h in
      let decided = side_inv l i p q k c d e approved in
      accepts l i k c d named valid decided approved
