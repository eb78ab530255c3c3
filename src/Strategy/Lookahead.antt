-- ===== src/Strategy/Lookahead.antt =====
-- The boundary of app/strategy/backtest.py: no round reads a bar that comes after its own.
use trade_bot.Prelude.{
  ℕ, zero, suc, ◌+◌, ◌≤◌, ◌<◌, List, [], ◌∷◌, ◌++◌, String, ◌≡◌, refl, sym, ◌∙◌, arith, inl, inr,
  Option-cases, some, if◌then◌else◌,
}
use trade_bot.Prelude.Clock.{Datetime}
use trade_bot.Prelude.Action.{ok, err, ◌>>◌, bind_same, Given-cases, Error, ok_is_no_err}
use trade_bot.Domain.{Bar}
use trade_bot.Prelude.Decimal.{Decimal, dec_zero, dec_eq, sub}
use trade_bot.Portfolio.Ledger.{position}
use trade_bot.Strategy.Momentum.{MomentumStrategy, count_bars, target}
use trade_bot.Strategy.Backtest.{BacktestConfig, Progress, take_bars, bar_at, rounds, round, trade}

take_bars-append :
    (n : ℕ) (xs ys : List Bar) → n ≤ count_bars xs → take_bars n (xs ++ ys) ≡ take_bars n xs
take_bars-append zero xs ys h = refl
take_bars-append (suc n) [] ys h = ground arith
take_bars-append (suc n) (x ∷ xs) ys h = ground (arith, take_bars-append n xs ys)

bar_at-append : (n : ℕ) (xs ys : List Bar) → n < count_bars xs → bar_at n (xs ++ ys) ≡ bar_at n xs
bar_at-append n [] ys h = ground arith
bar_at-append zero (x ∷ xs) ys h = refl
bar_at-append (suc n) (x ∷ xs) ys h = bar_at-append n xs ys (omega (arith, h))

module _ (isoformat : Datetime → String) (strategy : MomentumStrategy)
    (config : BacktestConfig) where
  then_same :
      (count index : ℕ) (xs ys : List Bar) (b : Bar) (s : Progress)
      → ((t : Progress)
          → rounds isoformat strategy config count (index + 1) (xs ++ ys) t
            ≡ rounds isoformat strategy config count (index + 1) xs t)
      → (round isoformat strategy config index (take_bars index xs) b
            >> rounds isoformat strategy config count (index + 1) (xs ++ ys))
          s
        ≡ (round isoformat strategy config index (take_bars index xs) b
              >> rounds isoformat strategy config count (index + 1) xs)
            s
  then_same count index xs ys b s later =
      bind_same (round isoformat strategy config index (take_bars index xs) b)
        (λ _. rounds isoformat strategy config count (index + 1) (xs ++ ys))
        (λ _. rounds isoformat strategy config count (index + 1) xs) s (λ _ t. later t)

  -- The backtest does not look ahead: the ledger, the peak, the drawdown and the trades after the
  -- rounds over the bars of a prefix, or the exception that ends them, are the same whatever bars
  -- follow the prefix.
  pub rounds-append :
      (count index : ℕ) (xs ys : List Bar) (s : Progress)
      → index + count ≤ count_bars xs
      → rounds isoformat strategy config count index (xs ++ ys) s
        ≡ rounds isoformat strategy config count index xs s
  unfolding rounds
  rounds-append zero index xs ys s h = refl
  rounds-append (suc count) index xs ys s h =
      rw
        (
          bar_at-append index xs ys (omega (arith, h)),
          take_bars-append index xs ys (omega (arith, h)),
        )
        (elim (Option-cases (bar_at index xs)) [
          | inl none_ ↦ rw none_ refl
          | inr (b, there) ↦ rw there (
              then_same count index xs ys b s
                (λ t. rounds-append count (index + 1) xs ys t (omega (arith, h))))
        ])

  -- The trades after a round, by what stands before its bar.
  abbrev trades_after : List Bar → Progress → ℕ
  trades_after history s = elim (target strategy history) [
    | err e ↦ s.trades
    | ok goal ↦ elim (position goal.symbol s.ledger) [
      | err e ↦ s.trades
      | ok held ↦
          if dec_eq (sub goal.quantity held.quantity) dec_zero then s.trades else s.trades + 1
    ]
  ]

  trade_counts :
      (index : ℕ) (b : Bar) (symbol : String) (delta : Decimal) (s : Progress)
      → (trade isoformat strategy config index b symbol delta s).0 ≡ ok tt
      → (trade isoformat strategy config index b symbol delta s).1.trades ≡ s.trades + 1
  unfolding trade
  trade_counts index b symbol delta s h = ground arith

  round-trades_after :
      (index : ℕ) (history : List Bar) (b : Bar) (s : Progress)
      → (round isoformat strategy config index history b s).0 ≡ ok tt
      → (round isoformat strategy config index history b s).1.trades ≡ trades_after history s
  unfolding round
  round-trades_after index history b s h = ground arith

  bar_at-here : (xs ys : List Bar) (b : Bar) → bar_at (count_bars xs) (xs ++ b ∷ ys) ≡ some b
  bar_at-here [] ys b = refl
  bar_at-here (x ∷ xs) ys b = bar_at-here xs ys b

  take_bars-here : (xs ys : List Bar) → take_bars (count_bars xs) (xs ++ ys) ≡ xs
  take_bars-here [] ys = refl
  take_bars-here (x ∷ xs) ys = ground (arith, take_bars-here xs ys)

  -- One round, at the bar that follows a prefix.
  last_round :
      (xs ys : List Bar) (b : Bar) (s : Progress)
      → (rounds isoformat strategy config 1 (count_bars xs) (xs ++ b ∷ ys) s).0 ≡ ok tt
      → (rounds isoformat strategy config 1 (count_bars xs) (xs ++ b ∷ ys) s).1.trades
        ≡ trades_after xs s
  unfolding rounds
  last_round xs ys b s h = ground (
    arith,
    bar_at-here xs ys b,
    take_bars-here xs (b ∷ ys),
    round-trades_after (count_bars xs) xs b s,
  )

  -- The first of some rounds, at a bar of the prefix, where it returns.
  first_round :
      (count index : ℕ) (xs ys : List Bar) (a : Bar) (s : Progress)
      → index < count_bars xs
      → bar_at index xs ≡ some a
      → (round isoformat strategy config index (take_bars index xs) a s).0 ≡ ok tt
      → rounds isoformat strategy config (suc count) index (xs ++ ys) s
        ≡ rounds isoformat strategy config count
            (index + 1)
            (xs ++ ys)
            (round isoformat strategy config index (take_bars index xs) a s).1
  unfolding rounds
  first_round count index xs ys a s inside there done =
      let same = take_bars-append index xs ys (omega (arith, inside)) in
      ground (arith, bar_at-append index xs ys inside, same)

  -- Where the first round raises, so do the rounds.
  first_raised :
      (count index : ℕ) (xs ys : List Bar) (a : Bar) (s : Progress) {e : Error}
      → index < count_bars xs
      → bar_at index xs ≡ some a
      → (round isoformat strategy config index (take_bars index xs) a s).0 ≡ err e
      → (rounds isoformat strategy config (suc count) index (xs ++ ys) s).0 ≡ err e
  unfolding rounds
  first_raised count index xs ys a s inside there failed =
      let same = take_bars-append index xs ys (omega (arith, inside)) in
      ground (arith, bar_at-append index xs ys inside, same)

  bar_inside : (n : ℕ) (xs : List Bar) → n < count_bars xs → (a : Bar) × (bar_at n xs ≡ some a)
  bar_inside n [] h = ground arith
  bar_inside zero (x ∷ xs) h = (x, refl)
  bar_inside (suc n) (x ∷ xs) h = bar_inside n xs (omega (arith, h))

  -- Whether a round trades is decided before its bar: two series with a common prefix, whose next
  -- bars differ in any way, lead to the same number of trades after the rounds of the prefix and the
  -- round at that next bar, where both return.
  pub decided_before_bar :
      (count index : ℕ) (xs ys zs : List Bar) (b c : Bar) (s : Progress)
      → index + count ≡ count_bars xs
      → (rounds isoformat strategy config (suc count) index (xs ++ b ∷ ys) s).0 ≡ ok tt
      → (rounds isoformat strategy config (suc count) index (xs ++ c ∷ zs) s).0 ≡ ok tt
      → (rounds isoformat strategy config (suc count) index (xs ++ b ∷ ys) s).1.trades
        ≡ (rounds isoformat strategy config (suc count) index (xs ++ c ∷ zs) s).1.trades
  decided_before_bar zero index xs ys zs b c s len h k =
      let here : index ≡ count_bars xs = omega (arith, len) in
      let first = last_round xs ys b s (rw (← here) h) in
      let second = last_round xs zs c s (rw (← here) k) in rw here (first ∙ sym second)
  decided_before_bar (suc count) index xs ys zs b c s len h k =
      let inside : index < count_bars xs = omega (arith, len) in
      let (a, there) = bar_inside index xs inside in
      let next = round isoformat strategy config index (take_bars index xs) a s in
      elim (Given-cases next.0) [
        | inr (e, failed) ↦ absurd (
            ok_is_no_err {e = e} h
              (first_raised (suc count) index xs (b ∷ ys) a s {e = e} inside there failed))
        | inl (_, done) ↦
            let left = first_round (suc count) index xs (b ∷ ys) a s inside there done in
            let right = first_round (suc count) index xs (c ∷ zs) a s inside there done in
            rw (left, right)
              (decided_before_bar count (index + 1) xs ys zs b c next.1 (omega (arith, len))
                (rw (← left) h) (rw (← right) k))
      ]
