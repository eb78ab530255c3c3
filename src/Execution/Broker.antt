-- ===== src/Execution/Broker.antt =====
-- app/runtime/paper_broker_contract_v99.py: an order as the broker reports it, and its validation.
use trade_bot.Prelude.{
  Bool, true, false, not, ◌||◌, Option, none, some, String, is_blank, is_uppercase, str_append,
}
use trade_bot.Prelude.Decimal.{Decimal, nan, dec_zero, is_finite, dec_lt, dec_le}
use trade_bot.Prelude.Clock.{Datetime, is_aware}
use trade_bot.Prelude.Action.{Result, err, invalid_operation}
use trade_bot.Domain.{not_positive, refuse, ◌else_check◌, Side, buy, sell}

-- `OrderSide`, an enumeration of its own with the values of `Side`.
pub data OrderSide : Type 0 where
  bid ask : OrderSide

-- `OrderSide(record.side.value)`
abbrev pub order_side : Side → OrderSide
order_side buy = bid
order_side sell = ask

abbrev pub order_side_value : OrderSide → String
order_side_value bid = "BUY"
order_side_value ask = "SELL"

pub data BrokerOrderStatus : Type 0 where
  acknowledged replaced cancelled rejected partially_filled filled : BrokerOrderStatus

abbrev pub status_value : BrokerOrderStatus → String
status_value acknowledged = "ACKNOWLEDGED"
status_value replaced = "REPLACED"
status_value cancelled = "CANCELLED"
status_value rejected = "REJECTED"
status_value partially_filled = "PARTIALLY_FILLED"
status_value filled = "FILLED"

abbrev pub is_rejected : BrokerOrderStatus → Bool
is_rejected rejected = true
is_rejected _ = false

abbrev pub is_cancelled : BrokerOrderStatus → Bool
is_cancelled cancelled = true
is_cancelled _ = false

abbrev pub is_filled : BrokerOrderStatus → Bool
is_filled filled = true
is_filled _ = false

pub record BrokerOrder : Type 0 where
  pub client_order_id : String
  pub broker_order_id : String
  pub instrument : String
  pub side : OrderSide
  pub quantity : Decimal
  pub limit_price : Decimal
  pub status : BrokerOrderStatus
  pub filled_quantity : Decimal
  pub updated_at : Datetime
  pub filled_avg_price : Option Decimal

-- `value <= 0 or not value.is_finite()`, in that order: a NaN raises at the comparison.
abbrev pub refuse_amount : Decimal → String → Result (Unit {0})
refuse_amount nan message = err invalid_operation
refuse_amount d message = refuse (dec_le d dec_zero || not (is_finite d)) message

-- A price that is given must be positive.
abbrev pub bad_price : Option Decimal → Bool
bad_price none = false
bad_price (some p) = not_positive p

abbrev pub required : String → String → Result (Unit {0})
required name value = refuse (is_blank value) (str_append name " is required")

-- `BrokerOrder.validate`
unfoldable pub validate_broker_order : BrokerOrder → Result (Unit {0})
validate_broker_order o =
    refuse (not (is_aware o.updated_at)) "updated_at must be timezone-aware"
    else_check required "client_order_id" o.client_order_id
    else_check required "broker_order_id" o.broker_order_id
    else_check required "instrument" o.instrument
    else_check refuse (not (is_uppercase o.instrument)) "instrument must be uppercase"
    else_check refuse_amount o.quantity "quantity must be positive and finite"
    else_check refuse_amount o.limit_price "limit_price must be positive and finite"
    else_check refuse
        (not (is_finite o.filled_quantity)
          || dec_lt o.filled_quantity dec_zero
          || dec_lt o.quantity o.filled_quantity)
        "filled_quantity is outside order quantity"
    else_check refuse (bad_price o.filled_avg_price)
        "filled_avg_price must be positive and finite when present"
