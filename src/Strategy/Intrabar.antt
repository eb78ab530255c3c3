-- ===== src/Strategy/Intrabar.antt =====
-- app/strategy/ohlcv_exit.py, and the bar of app/marketdata/ohlcv.py: a long position inside a bar.
use Prim.Native.Char.{code}
use Prim.Native.String.{count}
use trade_bot.Prelude.{
  ℕ, Bool, true, false, not, ◌||◌, ◌&&◌, ◌==◌, Option, none, some, [], ◌∷◌, String, ℤ, pos, leb,
  ltb_ℤ, if◌then◌else◌,
}
use trade_bot.Prelude.Decimal.{Decimal, dec_lt, dec_le, dec_max, add, sub, mul}
use trade_bot.Prelude.Clock.{Datetime, is_aware}
use trade_bot.Prelude.Action.{Result, ok, err}
use trade_bot.Domain.{refuse, ◌else_check◌, not_positive}
use trade_bot.Risk.Context.{refuse_any, refuse_supplied}
use trade_bot.Strategy.Exit.{PositionManagementPolicy, validate_management, dec_one}

pub record OhlcvBar : Type 0 where
  pub symbol : String
  pub timestamp : Datetime
  pub open_price : Decimal
  pub high : Decimal
  pub low : Decimal
  pub close : Decimal
  pub volume : ℤ
  pub trade_count : ℤ
  pub vwap : Option Decimal

-- `[A-Z0-9]`
is_market_character : ℕ → Bool
is_market_character c = (leb b'A' c && leb c b'Z') || (leb b'0' c && leb c b'9')

-- `[A-Z0-9.\-]*`
market_tail : String → Bool
unfolding is_market_character
market_tail String.[] = true
market_tail (String.◌∷◌ c s) =
    (is_market_character (code c) || code c == b'.' || code c == b'-') && market_tail s

-- `_SYMBOL_RE.fullmatch(symbol)`
unfoldable pub is_market_symbol : String → Bool
unfolding is_market_character market_tail
is_market_symbol String.[] = false
is_market_symbol (String.◌∷◌ c s) =
    is_market_character (code c) && leb (count s) 14 && market_tail s

-- `min(a, b)` of Python gives the first unless the second is less.
abbrev pub dec_min : Decimal → Decimal → Decimal
dec_min a b = if dec_lt b a then b else a

unfoldable pub validate_ohlcv : OhlcvBar → Result (Unit {0})
validate_ohlcv b =
    refuse (not (is_market_symbol b.symbol))
      "OHLCV symbol must be normalized uppercase market symbol"
    else_check refuse (not (is_aware b.timestamp)) "OHLCV timestamp must be timezone-aware"
    else_check refuse_any not_positive " must be positive and finite" (
        ("OHLCV open", b.open_price)
        ∷ ("OHLCV high", b.high)
        ∷ ("OHLCV low", b.low)
        ∷ ("OHLCV close", b.close)
        ∷ [])
    else_check refuse (dec_lt b.high (dec_max (dec_max b.open_price b.close) b.low))
        "OHLCV high is below another price field"
    else_check refuse (dec_lt (dec_min (dec_min b.open_price b.close) b.high) b.low)
        "OHLCV low is above another price field"
    else_check refuse (ltb_ℤ b.volume (pos 0)) "OHLCV volume must be non-negative"
    else_check refuse (ltb_ℤ b.trade_count (pos 0)) "OHLCV trade_count must be non-negative"
    else_check refuse_supplied not_positive " must be positive and finite when supplied"
        (("OHLCV vwap", b.vwap) ∷ [])

pub data IntrabarExitReason : Type 0 where
  hard_stop take_profit trailing_stop : IntrabarExitReason

pub record IntrabarPositionState : Type 0 where
  pub peak_completed_price : Decimal

unfoldable pub validate_intrabar : IntrabarPositionState → Result (Unit {0})
validate_intrabar s =
    refuse (not_positive s.peak_completed_price) "peak_completed_price must be positive and finite"

pub record IntrabarExitDecision : Type 0 where
  pub exit_now : Bool
  pub reason : Option IntrabarExitReason
  pub exit_price_before_costs : Option Decimal
  pub hard_stop_price : Decimal
  pub take_profit_price : Decimal
  pub trailing_stop_price : Option Decimal
  pub ambiguous_bar : Bool
  pub gap_through_protective_stop : Bool
  pub state : IntrabarPositionState

unfoldable pub hard_stop_price : Decimal → PositionManagementPolicy → Decimal
hard_stop_price cost p = mul cost (sub dec_one p.stop_loss_fraction)

unfoldable pub take_profit_price : Decimal → PositionManagementPolicy → Decimal
take_profit_price cost p = mul cost (add dec_one p.take_profit_fraction)

-- The trailing stop, where the peak of the completed bars has made it active.
unfoldable pub trailing_stop_price :
    Decimal → IntrabarPositionState → PositionManagementPolicy → Option Decimal
trailing_stop_price cost s p =
    if dec_le (mul cost (add dec_one p.trailing_activation_fraction)) s.peak_completed_price
    then some (mul s.peak_completed_price (sub dec_one p.trailing_stop_fraction))
    else none

-- The higher of the two protective stops, with its reason.
abbrev pub protective : Decimal → Option Decimal → Decimal × IntrabarExitReason
protective hard none = (hard, hard_stop)
protective hard (some trailing) =
    if dec_lt hard trailing then (trailing, trailing_stop) else (hard, hard_stop)

module _ (bar : OhlcvBar) (s : IntrabarPositionState) (hard take : Decimal)
    (trailing : Option Decimal) where
  abbrev pub leave : IntrabarExitReason → Decimal → Bool → Bool → IntrabarExitDecision
  leave reason price ambiguous gap = record {
    exit_now = true;
    reason = some reason;
    exit_price_before_costs = some price;
    hard_stop_price = hard;
    take_profit_price = take;
    trailing_stop_price = trailing;
    ambiguous_bar = ambiguous;
    gap_through_protective_stop = gap;
    state = s;
  }

  abbrev pub stay : IntrabarExitDecision
  stay = record {
    exit_now = false;
    reason = none;
    exit_price_before_costs = none;
    hard_stop_price = hard;
    take_profit_price = take;
    trailing_stop_price = trailing;
    ambiguous_bar = false;
    gap_through_protective_stop = false;
    state = record { peak_completed_price = dec_max s.peak_completed_price bar.high };
  }

  -- The branches of the code, at the protective price and its reason.
  unfoldable pub intrabar_decision : Decimal → IntrabarExitReason → IntrabarExitDecision
  intrabar_decision price reason =
      if dec_le bar.open_price price
      then leave reason bar.open_price false (dec_lt bar.open_price price)
      else if dec_le take bar.open_price
      then leave take_profit take false false
      else if dec_le bar.low price
      then leave reason price (dec_le take bar.high) false
      else if dec_le take bar.high
      then leave take_profit take false false
      else stay

unfoldable pub evaluate_long_intrabar_exit :
    Decimal
    → OhlcvBar
    → IntrabarPositionState
    → PositionManagementPolicy
    → Result IntrabarExitDecision
evaluate_long_intrabar_exit average_cost bar s p =
    let hard = hard_stop_price average_cost p in
    let trailing = trailing_stop_price average_cost s p in
    let (price, reason) = protective hard trailing in
    elim (validate_management p
      else_check validate_intrabar s
      else_check validate_ohlcv bar
      else_check refuse (not_positive average_cost) "average_cost must be positive and finite") [
        | err e ↦ err e
        | ok _ ↦
            ok (
              intrabar_decision bar s hard (take_profit_price average_cost p) trailing price reason)
      ]
