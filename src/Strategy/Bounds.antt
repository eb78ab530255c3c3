-- ===== src/Strategy/Bounds.antt =====
-- The prices and the peak that the intrabar rule of app/strategy/ohlcv_exit.py reports.
use trade_bot.Prelude.{
  true, false, ◌||◌, Option, none, some, ◌≡◌, refl, arith, inl, inr, Bool-cases,
}
use trade_bot.Prelude.Decimal.{Decimal, is_finite, dec_lt, dec_le, dec_max, add, sub}
use trade_bot.Prelude.Decimal.Order.{
  dec_lt_asym, dec_lt_trans, dec_le-dec_lt, dec_lt-dec_le, dec_le_trans,
}
use trade_bot.Prelude.Decimal.Finite.{mul-is_finite, sub-is_finite, add-is_finite}
use trade_bot.Prelude.Action.{ok}
use trade_bot.Domain.{not_positive}
use trade_bot.Strategy.Exit.{PositionManagementPolicy, validate_management, dec_one}
use trade_bot.Strategy.Intrabar.{
  OhlcvBar, validate_ohlcv, dec_min, IntrabarExitReason, IntrabarPositionState, validate_intrabar,
  IntrabarExitDecision, hard_stop_price, take_profit_price, trailing_stop_price, protective,
  intrabar_decision, evaluate_long_intrabar_exit,
}

-- What the checks of a bar give: its prices are numbers, and its high bounds its open price.
abbrev IsBounded : OhlcvBar → Type 0
IsBounded b =
    (is_finite b.open_price ≡ true)
    × (is_finite b.high ≡ true)
    × (is_finite b.low ≡ true)
    × (dec_lt b.high b.open_price ≡ false)
    × (dec_lt b.open_price b.low ≡ false)

max_bound :
    (a b c : Decimal)
    → is_finite a ≡ true
    → is_finite b ≡ true
    → is_finite c ≡ true
    → dec_lt c (dec_max a b) ≡ false
    → dec_lt c a ≡ false
unfolding dec_max
max_bound a b c ha hb hc h = elim (Bool-cases (dec_lt a b)) [
  | inl less ↦ dec_lt_trans a b c hb (dec_lt_asym a b ha hb less) (ground arith) ha hc
  | inr more ↦ ground arith
]

min_bound :
    (a b c : Decimal)
    → is_finite a ≡ true
    → is_finite b ≡ true
    → is_finite c ≡ true
    → dec_lt (dec_min a b) c ≡ false
    → dec_lt a c ≡ false
min_bound a b c ha hb hc h = elim (Bool-cases (dec_lt b a)) [
  | inl less ↦ dec_lt_trans c b a hb (ground arith) (dec_lt_asym b a hb ha less) hc ha
  | inr more ↦ ground arith
]

max_finite :
    (a b : Decimal) → is_finite a ≡ true → is_finite b ≡ true → is_finite (dec_max a b) ≡ true
unfolding dec_max
max_finite a b ha hb = ground arith

min_finite :
    (a b : Decimal) → is_finite a ≡ true → is_finite b ≡ true → is_finite (dec_min a b) ≡ true
min_finite a b ha hb = ground arith

validate_ohlcv-IsBounded : (b : OhlcvBar) → validate_ohlcv b ≡ ok tt → IsBounded b
unfolding validate_ohlcv
validate_ohlcv-IsBounded b h =
    let o : is_finite b.open_price ≡ true = ground arith in
    let c : is_finite b.close ≡ true = ground arith in
    let hi : is_finite b.high ≡ true = ground arith in
    let lo : is_finite b.low ≡ true = ground arith in
    let top : dec_lt b.high (dec_max (dec_max b.open_price b.close) b.low) ≡ false = ground arith in
    let floor : dec_lt (dec_min (dec_min b.open_price b.close) b.high) b.low ≡ false =
      ground arith in
    (
      o,
      hi,
      lo,
      max_bound b.open_price b.close b.high o c hi (
          max_bound (dec_max b.open_price b.close) b.low b.high
            (max_finite b.open_price b.close o c) lo hi top),
      min_bound b.open_price b.close b.low o c lo (
          min_bound (dec_min b.open_price b.close) b.high b.low
            (min_finite b.open_price b.close o c) hi lo floor),
    )

-- No fill above the high of the bar.
abbrev pub IsWithin : OhlcvBar → Option Decimal → Type 0
IsWithin b none = Unit
IsWithin b (some price) = dec_lt b.high price ≡ false

module _ (bar : OhlcvBar) (s : IntrabarPositionState) (hard take : Decimal)
    (trailing : Option Decimal) where
  intrabar_decision-IsWithin :
      (price : Decimal) (reason : IntrabarExitReason)
      → IsBounded bar
      → is_finite take ≡ true
      → is_finite price ≡ true
      → IsWithin bar
          (intrabar_decision bar s hard take trailing price reason).exit_price_before_costs
  unfolding intrabar_decision
  intrabar_decision-IsWithin price reason (o, hi, lo, top, floor) ht hp =
      elim (Bool-cases (dec_le bar.open_price price)) [
        | inl at_stop ↦ ground arith
        | inr above_stop ↦
            let below : dec_lt bar.open_price price ≡ false = ground arith in
            ground (
              arith,
              dec_lt_trans price bar.open_price bar.high o below top hp hi,
              dec_lt_trans take bar.open_price bar.high o,
              dec_le-dec_lt take bar.open_price,
              dec_le-dec_lt take bar.high,
            )
      ]

  -- A position is left in exactly the bars that touch the stop or the target.
  exit_touched :
      (price : Decimal) (reason : IntrabarExitReason)
      → IsBounded bar
      → is_finite take ≡ true
      → is_finite price ≡ true
      → (intrabar_decision bar s hard take trailing price reason).exit_now
        ≡ (dec_le bar.low price || dec_le take bar.high)
  unfolding intrabar_decision
  exit_touched price reason (o, hi, lo, top, floor) ht hp =
      let under = dec_lt-dec_le bar.low bar.open_price lo o floor in
      let over = dec_lt-dec_le bar.open_price bar.high o hi top in
      ground (
        arith,
        dec_le_trans bar.low bar.open_price price lo o hp under,
        dec_le_trans take bar.open_price bar.high ht o hi,
      )

-- The stops of a position with numbers for its cost, its peak and its fractions.
stops_finite :
    (cost : Decimal) (s : IntrabarPositionState) (p : PositionManagementPolicy)
    → is_finite cost ≡ true
    → is_finite s.peak_completed_price ≡ true
    → is_finite p.stop_loss_fraction ≡ true
    → is_finite p.trailing_stop_fraction ≡ true
    → is_finite (protective (hard_stop_price cost p) (trailing_stop_price cost s p)).0 ≡ true
unfolding hard_stop_price trailing_stop_price
stops_finite cost s p hc hs hl ht =
    let loss =
      mul-is_finite cost (sub dec_one p.stop_loss_fraction) hc
        (sub-is_finite dec_one p.stop_loss_fraction refl hl) in
    let trail =
      mul-is_finite s.peak_completed_price (sub dec_one p.trailing_stop_fraction) hs
        (sub-is_finite dec_one p.trailing_stop_fraction refl ht) in
    ground arith

fractions_finite :
    (p : PositionManagementPolicy)
    → validate_management p ≡ ok tt
    → (is_finite p.stop_loss_fraction ≡ true)
      × (is_finite p.take_profit_fraction ≡ true)
      × (is_finite p.trailing_stop_fraction ≡ true)
unfolding validate_management
fractions_finite p h = (ground arith, ground arith, ground arith)

peak_finite :
    (s : IntrabarPositionState)
    → validate_intrabar s ≡ ok tt
    → is_finite s.peak_completed_price ≡ true
unfolding validate_intrabar
peak_finite s h = ground arith

take_finite :
    (cost : Decimal) (p : PositionManagementPolicy)
    → is_finite cost ≡ true
    → is_finite p.take_profit_fraction ≡ true
    → is_finite (take_profit_price cost p) ≡ true
unfolding take_profit_price
take_finite cost p h k =
    mul-is_finite cost (add dec_one p.take_profit_fraction) h
      (add-is_finite dec_one p.take_profit_fraction refl k)

-- The protective stop of a position, and why a sale there is made.
abbrev pub stop_of :
    Decimal → IntrabarPositionState → PositionManagementPolicy → Decimal × IntrabarExitReason
stop_of cost s p = protective (hard_stop_price cost p) (trailing_stop_price cost s p)

-- The decision of a call that returns, with what its checks give.
evaluated :
    (cost : Decimal) (bar : OhlcvBar) (s : IntrabarPositionState) (p : PositionManagementPolicy)
    (d : IntrabarExitDecision)
    → evaluate_long_intrabar_exit cost bar s p ≡ ok d
    → IsBounded bar
      × (is_finite (take_profit_price cost p) ≡ true)
      × (is_finite (stop_of cost s p).0 ≡ true)
      × (d
          ≡ intrabar_decision bar s
              (hard_stop_price cost p)
              (take_profit_price cost p)
              (trailing_stop_price cost s p)
              (stop_of cost s p).0
              (stop_of cost s p).1)
unfolding evaluate_long_intrabar_exit
evaluated cost bar s p d h =
    let valid : validate_management p ≡ ok tt = ground arith in
    let state : validate_intrabar s ≡ ok tt = ground arith in
    let sound : validate_ohlcv bar ≡ ok tt = ground arith in
    let number : not_positive cost ≡ false = ground arith in
    let (loss, profit, trail) = fractions_finite p valid in
    (
      validate_ohlcv-IsBounded bar sound,
      take_finite cost p (ground arith) profit,
      stops_finite cost s p (ground arith) (peak_finite s state) loss trail,
      ground arith,
    )

-- The intrabar rule never reports a sale above the high of its bar: whatever stop, target or gap
-- decides, the exit price of a call that returns is at most `high`.
pub exit_at_most_high :
    (cost : Decimal) (bar : OhlcvBar) (s : IntrabarPositionState) (p : PositionManagementPolicy)
    (d : IntrabarExitDecision)
    → evaluate_long_intrabar_exit cost bar s p ≡ ok d
    → IsWithin bar d.exit_price_before_costs
exit_at_most_high cost bar s p d h =
    let (sound, take, stop, e) = evaluated cost bar s p d h in
    rw e (
      intrabar_decision-IsWithin bar s (hard_stop_price cost p) (take_profit_price cost p)
        (trailing_stop_price cost s p) (stop_of cost s p).0 (stop_of cost s p).1 sound take stop)

-- A call that returns leaves the position exactly if the range of the bar, from its low to its
-- high, reaches down to the protective stop or up to the take-profit price.
pub leaves_when_touched :
    (cost : Decimal) (bar : OhlcvBar) (s : IntrabarPositionState) (p : PositionManagementPolicy)
    (d : IntrabarExitDecision)
    → evaluate_long_intrabar_exit cost bar s p ≡ ok d
    → d.exit_now
      ≡ (dec_le bar.low (stop_of cost s p).0 || dec_le (take_profit_price cost p) bar.high)
leaves_when_touched cost bar s p d h =
    let (sound, take, stop, e) = evaluated cost bar s p d h in
    rw e (
      exit_touched bar s (hard_stop_price cost p) (take_profit_price cost p)
        (trailing_stop_price cost s p) (stop_of cost s p).0 (stop_of cost s p).1 sound take stop)

-- The pessimistic reading of a bar: where the bar reaches the protective stop and does not open at
-- the take-profit price or above, the position leaves for the stop's reason, also if the same bar
-- reaches the take-profit price.
pub stop_before_target :
    (cost : Decimal) (bar : OhlcvBar) (s : IntrabarPositionState) (p : PositionManagementPolicy)
    (d : IntrabarExitDecision)
    → evaluate_long_intrabar_exit cost bar s p ≡ ok d
    → dec_le bar.low (stop_of cost s p).0 ≡ true
    → dec_le (take_profit_price cost p) bar.open_price ≡ false
    → d.reason ≡ some (stop_of cost s p).1
unfolding intrabar_decision
stop_before_target cost bar s p d h low target =
    let (sound, take, stop, e) = evaluated cost bar s p d h in rw e (ground arith)
