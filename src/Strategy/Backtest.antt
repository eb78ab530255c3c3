-- ===== src/Strategy/Backtest.antt =====
-- app/strategy/backtest.py: `HistoricalBacktester`, the momentum rule over a series of bars.
use trade_bot.Prelude.{
  ℕ, zero, suc, ◌+◌, ◌-◌, Bool, true, not, ◌&&◌, Option, none, some, List, [], ◌∷◌, String,
  str_append, number_text, ltb, leb, pos, if◌then◌else◌,
}
use trade_bot.Prelude.Decimal.{
  Decimal, finite, dec_zero, dec_lt, dec_le, dec_eq, dec_max, dec_abs, add, sub, mul, div,
}
use trade_bot.Prelude.Clock.{Datetime}
use trade_bot.Prelude.Action.{
  Action, Result, ok, err, value_error, ◌>>=◌, ◌>>◌, pure, raise_if, gets, modify, or_raise, lift,
}
use trade_bot.Domain.{
  Bar, Fill, Side, buy, sell, is_buy, refuse, ◌else_check◌, not_positive, not_nonnegative,
}
use trade_bot.Oms.Events.{instant}
use trade_bot.Portfolio.Ledger.{Ledger, open_ledger, position, apply_fill}
use trade_bot.Portfolio.Valuation.{equity, snapshot, PortfolioSnapshot}
use trade_bot.Strategy.Exit.{dec_one}
use trade_bot.Strategy.Momentum.{MomentumStrategy, target, count_bars, validate_bars, one_symbol}

pub record BacktestConfig : Type 0 where
  pub opening_cash : Decimal
  pub fee_per_fill : Decimal
  pub slippage_bps : Decimal
  pub minimum_history_bars : ℕ

unfoldable pub validate_config : BacktestConfig → Result (Unit {0})
validate_config c =
    refuse (not_positive c.opening_cash) "opening_cash must be positive and finite"
    else_check refuse (not_nonnegative c.fee_per_fill)
        "fee_per_fill must be finite and non-negative"
    else_check refuse (not_nonnegative c.slippage_bps)
        "slippage_bps must be finite and non-negative"
    else_check refuse (ltb c.minimum_history_bars 3) "minimum_history_bars must be at least three"

pub record BacktestResult : Type 0 where
  pub trades : ℕ
  pub ending_equity : Decimal
  pub total_pnl : Decimal
  pub total_return : Decimal
  pub max_drawdown : Decimal
  pub fees_paid : Decimal
  pub final_quantity : Decimal

-- The variables of the loop of `run`.
pub record Progress : Type 0 where
  pub ledger : Ledger
  pub peak_equity : Decimal
  pub max_drawdown : Decimal
  pub trades : ℕ

-- `bars[:n]`
abbrev pub take_bars : ℕ → List Bar → List Bar
take_bars zero bars = []
take_bars (suc n) [] = []
take_bars (suc n) (b ∷ bs) = b ∷ take_bars n bs

-- `bars[n]`
abbrev pub bar_at : ℕ → List Bar → Option Bar
bar_at n [] = none
bar_at zero (b ∷ bs) = some b
bar_at (suc n) (b ∷ bs) = bar_at n bs

-- Each bar is after the one before it.
abbrev pub is_increasing : List Bar → Bool
is_increasing [] = true
is_increasing (b ∷ []) = true
is_increasing (b ∷ c ∷ cs) =
    ltb (instant b.timestamp) (instant c.timestamp) && is_increasing (c ∷ cs)

-- A method of the ledger, inside the loop.
abbrev pub on_ledger : {A : Type 0} → Action Ledger A → Action Progress A
on_ledger m s = let (r, l) = m s.ledger in (r, record s { ledger = l })

abbrev pub slippage : BacktestConfig → Decimal
slippage c = div c.slippage_bps (finite (pos 10000) (pos 0))

abbrev pub execution_price : BacktestConfig → Side → Bar → Decimal
execution_price c side bar =
    mul bar.close (if is_buy side then add dec_one (slippage c) else sub dec_one (slippage c))

abbrev side_of : Decimal → Side
side_of delta = if dec_lt dec_zero delta then buy else sell

abbrev track : Decimal → Progress → Progress
track equity s =
    let peak = dec_max s.peak_equity equity in
    record s { peak_equity = peak; max_drawdown = dec_max s.max_drawdown (sub peak equity) }

-- `isoformat` is the method of a time.
module _ (isoformat : Datetime → String) (strategy : MomentumStrategy)
    (config : BacktestConfig) where
  abbrev fill_of : ℕ → ℕ → String → Decimal → Bar → Fill
  fill_of trades index symbol delta bar =
      let side = side_of delta in
      record {
        fill_id =
            str_append "bt-"
              (str_append (number_text (trades + 1)) (str_append "-" (isoformat bar.timestamp)));
        order_intent_id = str_append "bt-intent-" (number_text (index - 1));
        symbol = symbol;
        side = side;
        quantity = dec_abs delta;
        price = execution_price config side bar;
        occurred_at = bar.timestamp;
        fee = config.fee_per_fill;
      }

  unfoldable pub trade : ℕ → Bar → String → Decimal → Action Progress (Unit {0})
  trade index bar symbol delta = do
    raise_if (dec_le (execution_price config (side_of delta) bar) dec_zero)
        (value_error "slippage produced invalid execution price")
    trades ← gets (λ s. s.trades)
    on_ledger (apply_fill (fill_of trades index symbol delta bar))
    modify (λ s. record s { trades = s.trades + 1 })

  -- The body of the loop, at the bars before the execution bar.
  unfoldable pub round : ℕ → List Bar → Bar → Action Progress (Unit {0})
  unfolding trade
  round index history bar = do
    goal ← lift (target strategy history)
    held ← on_ledger (λ l. (position goal.symbol l, l))
    let delta = sub goal.quantity held.quantity
    if dec_eq delta dec_zero then pure tt else trade index bar goal.symbol delta
    worth ← on_ledger (λ l. (equity ((bar.symbol, bar.close) ∷ []) l, l))
    modify (track worth)

  -- `count` rounds from an index on; an index is inside the list by the checks of `run`.
  unfoldable pub rounds : ℕ → ℕ → List Bar → Action Progress (Unit {0})
  rounds zero index bars = pure tt
  rounds (suc count) index bars = do
    bar ← (λ s. or_raise (bar_at index bars) (value_error "list index out of range") s)
    round index (take_bars index bars) bar
    rounds count (index + 1) bars

  abbrev result_of : Bar → Progress → PortfolioSnapshot → Decimal → BacktestResult
  result_of last s snap quantity = record {
    trades = s.trades;
    ending_equity = snap.equity;
    total_pnl = snap.total_pnl;
    total_return = div snap.total_pnl config.opening_cash;
    max_drawdown = s.max_drawdown;
    fees_paid = snap.fees_paid;
    final_quantity = quantity;
  }

  unfoldable pub finish : List Bar → Action Progress BacktestResult
  finish bars = do
    last ← (λ s.
        or_raise (bar_at (count_bars bars - 1) bars) (value_error "list index out of range") s)
    snap ← on_ledger (λ l. (snapshot ((last.symbol, last.close) ∷ []) l, l))
    held ← on_ledger (λ l. (position last.symbol l, l))
    s ← gets (λ s. s)
    pure (result_of last s snap held.quantity)

  abbrev pub first_of : Option ℕ → ℕ
  first_of none = config.minimum_history_bars
  first_of (some n) = n

  unfoldable pub check_bars : List Bar → ℕ → Result (Unit {0})
  check_bars bars first =
      refuse (leb (count_bars bars) config.minimum_history_bars)
        "insufficient bars for no-lookahead backtest"
      else_check validate_bars bars
      else_check refuse (not (one_symbol bars)) "backtest requires exactly one symbol"
      else_check refuse (not (is_increasing bars)) "backtest bars must be strictly increasing"
      else_check refuse (ltb first config.minimum_history_bars)
          "first execution cannot precede minimum strategy history"
      else_check refuse (leb (count_bars bars) first)
          "first execution must be inside the supplied bar series"

  abbrev pub opened_progress : Ledger → Progress
  opened_progress l = record {
    ledger = l;
    peak_equity = config.opening_cash;
    max_drawdown = dec_zero;
    trades = 0;
  }

  unfoldable pub run : List Bar → Option ℕ → Result BacktestResult
  unfolding check_bars finish
  run bars given =
      let first = first_of given in
      let start = λ (l : Ledger). opened_progress l in
      elim (validate_config config else_check check_bars bars first) [
        | err e ↦ err e
        | ok _ ↦ elim (open_ledger config.opening_cash) [
          | err e ↦ err e
          | ok l ↦ ((rounds (count_bars bars - first) first bars >> finish bars) (start l)).0
        ]
      ]
