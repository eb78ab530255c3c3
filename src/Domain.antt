-- ===== src/Domain.antt =====
-- app/domain/trading.py: sides, bars, targets, order intents and fills, with their validation.
use trade_bot.Prelude.{
  ◌≡◌, ◌↔◌, arith, Bool, true, false, not, ◌||◌, String, is_blank, is_empty, is_uppercase,
}
use trade_bot.Prelude.Decimal.{Decimal, dec_zero, is_finite, dec_lt, dec_le}
use trade_bot.Prelude.Clock.{Datetime, is_aware}
use trade_bot.Prelude.Action.{Result, ok, err, value_error}

pub data Side : Type 0 where
  buy sell : Side

abbrev pub side_eq : Side → Side → Bool
side_eq buy buy = true
side_eq sell sell = true
side_eq _ _ = false

abbrev pub is_buy : Side → Bool
is_buy buy = true
is_buy sell = false

-- `not value.is_finite() or value <= 0`
abbrev pub not_positive : Decimal → Bool
not_positive d = not (is_finite d) || dec_le d dec_zero

-- `not value.is_finite() or value < 0`
abbrev pub not_nonnegative : Decimal → Bool
not_nonnegative d = not (is_finite d) || dec_lt d dec_zero

-- `not symbol or symbol != symbol.upper()`
abbrev pub bad_symbol : String → Bool
bad_symbol s = is_empty s || not (is_uppercase s)

-- `if test: raise ValueError(message)`, then the checks that follow.
infixr 5 ◌else_check◌
abbrev pub ◌else_check◌ : Result (Unit {0}) → Result (Unit {0}) → Result (Unit {0})
ok tt else_check rest = rest
err e else_check rest = err e

abbrev pub refuse : Bool → String → Result (Unit {0})
refuse true message = err (value_error message)
refuse false message = ok tt

pub record Bar : Type 0 where
  pub symbol : String
  pub timestamp : Datetime
  pub close : Decimal

unfoldable pub validate_bar : Bar → Result (Unit {0})
validate_bar b =
    refuse (bad_symbol b.symbol) "symbol must be non-empty uppercase"
    else_check refuse (not (is_aware b.timestamp)) "timestamp must be timezone-aware"
    else_check refuse (not_positive b.close) "close must be positive and finite"

pub record TargetPosition : Type 0 where
  pub symbol : String
  pub quantity : Decimal
  pub reference_price : Decimal
  pub generated_at : Datetime
  pub strategy_id : String

pub validate_target : TargetPosition → Result (Unit {0})
validate_target t =
    refuse (bad_symbol t.symbol) "symbol must be non-empty uppercase"
    else_check refuse (not_nonnegative t.quantity) "target quantity must be finite and non-negative"
    else_check refuse (not_positive t.reference_price) "reference price must be positive and finite"
    else_check refuse (not (is_aware t.generated_at)) "generated_at must be timezone-aware"
    else_check refuse (is_blank t.strategy_id) "strategy_id is required"

pub record OrderIntent : Type 0 where
  pub intent_id : String
  pub symbol : String
  pub side : Side
  pub quantity : Decimal
  pub limit_price : Decimal
  pub created_at : Datetime
  pub strategy_id : String

unfoldable pub validate_intent : OrderIntent → Result (Unit {0})
validate_intent i =
    refuse (is_blank i.intent_id) "intent_id is required"
    else_check refuse (bad_symbol i.symbol) "symbol must be non-empty uppercase"
    else_check refuse (not_positive i.quantity) "quantity must be positive and finite"
    else_check refuse (not_positive i.limit_price) "limit_price must be positive and finite"
    else_check refuse (not (is_aware i.created_at)) "created_at must be timezone-aware"
    else_check refuse (is_blank i.strategy_id) "strategy_id is required"

pub record Fill : Type 0 where
  pub fill_id : String
  pub order_intent_id : String
  pub symbol : String
  pub side : Side
  pub quantity : Decimal
  pub price : Decimal
  pub occurred_at : Datetime
  pub fee : Decimal

unfoldable pub validate_fill : Fill → Result (Unit {0})
validate_fill f =
    refuse (is_blank f.fill_id || is_blank f.order_intent_id) "fill identity is required"
    else_check refuse (bad_symbol f.symbol) "symbol must be non-empty uppercase"
    else_check refuse (not_positive f.quantity) "fill quantity must be positive and finite"
    else_check refuse (not_positive f.price) "fill price must be positive and finite"
    else_check refuse (not_nonnegative f.fee) "fill fee must be finite and non-negative"
    else_check refuse (not (is_aware f.occurred_at)) "occurred_at must be timezone-aware"

-- What a valid intent has; `validate_intent` accepts exactly these.
pub record IsValidIntent (i : OrderIntent) : Type 0 where
  pub named : is_blank i.intent_id ≡ false
  pub symbol_upper : bad_symbol i.symbol ≡ false
  pub quantity_positive : not_positive i.quantity ≡ false
  pub price_positive : not_positive i.limit_price ≡ false
  pub dated : is_aware i.created_at ≡ true
  pub owned : is_blank i.strategy_id ≡ false

pub validate_intent-IsValidIntent : (i : OrderIntent) → validate_intent i ≡ ok tt ↔ IsValidIntent i
unfolding validate_intent
validate_intent-IsValidIntent i = (λ h. ground arith, λ h. ground arith)
