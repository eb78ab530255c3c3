-- ===== src/Strategy/Momentum.antt =====
-- app/strategy/momentum.py: the target that a long-only momentum rule makes from past bars.
use trade_bot.Prelude.{
  ℕ, zero, suc, Bool, true, false, not, ◌&&◌, ◌==◌, List, [], ◌∷◌, String, is_blank, str_eq, ltb,
  leb, pos, if◌then◌else◌,
}
use trade_bot.Prelude.Decimal.{Decimal, finite, dec_zero, dec_lt, add, div}
use trade_bot.Prelude.Action.{Result, ok, err, value_error}
use trade_bot.Domain.{Bar, validate_bar, TargetPosition, refuse, ◌else_check◌, not_positive}
use trade_bot.Oms.Events.{instant}

pub record MomentumStrategy : Type 0 where
  pub strategy_id : String
  pub target_quantity : Decimal

-- `__init__`
unfoldable pub open_momentum : String → Decimal → Result MomentumStrategy
open_momentum strategy_id target_quantity =
    elim (refuse (is_blank strategy_id) "strategy_id is required"
      else_check refuse (not_positive target_quantity)
          "target_quantity must be positive and finite") [
            | err e ↦ err e
            | ok _ ↦ ok (record { strategy_id = strategy_id; target_quantity = target_quantity })
          ]

abbrev pub count_bars : List Bar → ℕ
count_bars [] = zero
count_bars (b ∷ bs) = suc (count_bars bs)

unfoldable pub validate_bars : List Bar → Result (Unit {0})
validate_bars [] = ok tt
validate_bars (b ∷ bs) = validate_bar b else_check validate_bars bs

abbrev all_named : String → List Bar → Bool
all_named s [] = true
all_named s (b ∷ bs) = str_eq b.symbol s && all_named s bs

-- `len({bar.symbol for bar in bars}) == 1`
abbrev pub one_symbol : List Bar → Bool
one_symbol [] = false
one_symbol (b ∷ bs) = all_named b.symbol bs

-- `sorted(bars, key=...)`; the bars are aware here.
insert_bar : Bar → List Bar → List Bar
insert_bar b [] = b ∷ []
insert_bar b (c ∷ cs) =
    let rest = insert_bar b cs in
    if leb (instant b.timestamp) (instant c.timestamp) then b ∷ c ∷ cs else c ∷ rest

unfoldable pub sort_bars : List Bar → List Bar
unfolding insert_bar
sort_bars [] = []
sort_bars (b ∷ bs) = insert_bar b (sort_bars bs)

-- No two neighbours of the sorted bars have one time.
abbrev all_distinct : List Bar → Bool
all_distinct [] = true
all_distinct (b ∷ []) = true
all_distinct (b ∷ c ∷ cs) =
    not (instant b.timestamp == instant c.timestamp) && all_distinct (c ∷ cs)

-- The last bar, and the sum of the closes before it.
unfoldable pub split_latest : Decimal → Bar → List Bar → Decimal × Bar
split_latest total b [] = (total, b)
split_latest total b (c ∷ cs) = split_latest (add total b.close) c cs

target_of : MomentumStrategy → List Bar → Result TargetPosition
target_of s [] = err (value_error "at least three bars are required")
target_of s (b ∷ bs) =
    let (total, latest) = split_latest dec_zero b bs in
    let prior_average = div total (finite (pos (count_bars bs)) (pos 0)) in
    ok (record {
      symbol = latest.symbol;
      quantity = if dec_lt prior_average latest.close then s.target_quantity else dec_zero;
      reference_price = latest.close;
      generated_at = latest.timestamp;
      strategy_id = s.strategy_id;
    })

unfoldable pub target : MomentumStrategy → List Bar → Result TargetPosition
unfolding target_of
target s bars =
    elim (refuse (ltb (count_bars bars) 3) "at least three bars are required"
      else_check validate_bars bars
      else_check refuse (not (one_symbol bars)) "strategy input must contain exactly one symbol"
      else_check refuse (not (all_distinct (sort_bars bars)))
          "duplicate bar timestamps are forbidden") [
            | err e ↦ err e
            | ok _ ↦ target_of s (sort_bars bars)
          ]
