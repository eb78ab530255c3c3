-- ===== src/Reconciliation/Truth.antt =====
-- app/oms/reconciliation.py: what the broker reports of orders and of the account.
use trade_bot.Prelude.{
  Bool, true, false, not, ◌||◌, ◌&&◌, Option, none, some, List, [], ◌∷◌, String, is_blank,
  contains_text,
}
use trade_bot.Prelude.Decimal.{Decimal}
use trade_bot.Prelude.Action.{Result, ok}
use trade_bot.Domain.{Side, bad_symbol, not_positive, not_nonnegative, refuse, ◌else_check◌}

pub data BrokerOrderState : Type 0 where
  open_ partially_filled filled cancelled rejected : BrokerOrderState

abbrev pub broker_state_value : BrokerOrderState → String
broker_state_value open_ = "OPEN"
broker_state_value partially_filled = "PARTIALLY_FILLED"
broker_state_value filled = "FILLED"
broker_state_value cancelled = "CANCELLED"
broker_state_value rejected = "REJECTED"

pub record BrokerOrderTruth : Type 0 where
  pub client_order_id : String
  pub broker_order_id : String
  pub state : BrokerOrderState
  pub cumulative_filled : Decimal
  pub symbol : Option String
  pub side : Option Side
  pub quantity : Option Decimal
  pub limit_price : Option Decimal

-- The four economic values, where all of them are there.
pub record Economics : Type 0 where
  pub symbol : String
  pub side : Side
  pub quantity : Decimal
  pub limit_price : Decimal

abbrev pub all_four :
    Option String → Option Side → Option Decimal → Option Decimal → Option Economics
all_four (some a) (some b) (some c) (some d) =
    some (record { symbol = a; side = b; quantity = c; limit_price = d })
all_four _ _ _ _ = none

abbrev pub is_given {ℓ} : {A : Type ℓ} → Option A → Bool
is_given none = false
is_given (some a) = true

-- The values that `has_complete_economics` finds.
abbrev pub economics : BrokerOrderTruth → Option Economics
economics t = all_four t.symbol t.side t.quantity t.limit_price

unfoldable pub has_complete_economics : BrokerOrderTruth → Bool
has_complete_economics t = is_given (economics t)

abbrev pub any_economics : BrokerOrderTruth → Bool
any_economics t =
    is_given t.symbol || is_given t.side || is_given t.quantity || is_given t.limit_price

unfoldable pub validate_economics : Economics → Result (Unit {0})
validate_economics e =
    refuse (bad_symbol e.symbol) "broker symbol must be non-empty uppercase"
    else_check refuse (not_positive e.quantity) "broker quantity must be positive and finite"
    else_check refuse (not_positive e.limit_price) "broker limit_price must be positive and finite"

-- `BrokerOrderTruth.validate`; a side of the type is a side.
unfoldable pub validate_truth : BrokerOrderTruth → Result (Unit {0})
unfolding has_complete_economics
validate_truth t =
    refuse (is_blank t.client_order_id || is_blank t.broker_order_id)
      "broker order identity is required"
    else_check refuse (not_nonnegative t.cumulative_filled)
        "cumulative_filled must be finite and non-negative"
    else_check refuse (any_economics t && not (has_complete_economics t))
        "BROKER_ORDER_ECONOMICS_INCOMPLETE"
    else_check elim (economics t) [ none ↦ ok tt | some e ↦ validate_economics e ]

pub record BrokerPositionTruth : Type 0 where
  pub symbol : String
  pub quantity : Decimal

unfoldable pub validate_position_truth : BrokerPositionTruth → Result (Unit {0})
validate_position_truth p =
    refuse (bad_symbol p.symbol) "symbol must be non-empty uppercase"
    else_check refuse (not_nonnegative p.quantity)
        "broker position quantity must be finite and non-negative"

pub record BrokerPortfolioTruth : Type 0 where
  pub cash : Decimal
  pub positions : List BrokerPositionTruth

-- The positions in turn, with the symbols that were seen.
unfoldable pub validate_positions : List String → List BrokerPositionTruth → Result (Unit {0})
validate_positions seen [] = ok tt
validate_positions seen (p ∷ ps) =
    validate_position_truth p
    else_check refuse (contains_text p.symbol seen) "duplicate broker position symbol"
    else_check validate_positions (p.symbol ∷ seen) ps

unfoldable pub validate_portfolio : BrokerPortfolioTruth → Result (Unit {0})
validate_portfolio t =
    refuse (not_nonnegative t.cash) "broker cash must be finite and non-negative"
    else_check validate_positions [] t.positions
