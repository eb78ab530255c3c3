-- ===== src/Portfolio/Held.antt =====
-- Fills of app/portfolio/ledger.py never lead to a debt or to a short position.
use trade_bot.Prelude.{
  false, List, [], ◌∷◌, String, ◌≡◌, refl, arith, inl, inr, Bool-cases, str_eq, contains_text,
  is_empty,
}
use trade_bot.Prelude.Decimal.{Decimal, dec_zero, dec_lt, add, sub}
use trade_bot.Prelude.Decimal.Sign.{
  IsNonneg, IsNonneg-of_test, IsNonneg-is_finite, add-IsNonneg, mul-IsNonneg, sub-IsNonneg,
}
use trade_bot.Prelude.Decimal.Finite.{sub-is_finite}
use trade_bot.Prelude.Action.{ok, ◌>>=◌, Result-cases, Given-cases}
use trade_bot.Domain.{Fill, validate_fill, is_buy, not_positive, not_nonnegative}
use trade_bot.Portfolio.Ledger.{
  Position, Ledger, find_position, set_position, normalized, position, notional, bought_position,
  apply_buy, sold_position, apply_sell, apply_new_fill, apply_fill,
}

-- Every position is held in a quantity that is not negative.
abbrev pub AllHeld : List Position → Type 0
AllHeld [] = Unit
AllHeld (p ∷ ps) = IsNonneg p.quantity × AllHeld ps

pub record IsSolvent (l : Ledger) : Type 0 where
  pub cash_held : IsNonneg l.cash
  pub shares_held : AllHeld l.positions

pub positive_held : (d : Decimal) → not_positive d ≡ false → IsNonneg d
positive_held d h = IsNonneg-of_test d (ground arith) (ground arith)

pub nonnegative_held : (d : Decimal) → not_nonnegative d ≡ false → IsNonneg d
nonnegative_held d h = IsNonneg-of_test d (ground arith) (ground arith)

find_position-IsNonneg :
    (s : String) (ps : List Position) → AllHeld ps → IsNonneg (find_position s ps).quantity
find_position-IsNonneg s [] h = refl
find_position-IsNonneg s (p ∷ ps) h = elim (Bool-cases (str_eq p.symbol s)) [
  | inl e ↦ rw e h.0
  | inr e ↦ rw e (find_position-IsNonneg s ps h.1)
]

pub set_position-AllHeld :
    (new : Position) (ps : List Position)
    → IsNonneg new.quantity
    → AllHeld ps
    → AllHeld (set_position new ps)
set_position-AllHeld new [] n h = (n, tt)
set_position-AllHeld new (p ∷ ps) n h = elim (Bool-cases (str_eq p.symbol new.symbol)) [
  | inl e ↦ rw e (n, h.1)
  | inr e ↦ rw e (h.0, set_position-AllHeld new ps n h.1)
]

pub position-IsNonneg :
    (s : String) (l : Ledger) (p : Position)
    → IsSolvent l
    → position s l ≡ ok p
    → IsNonneg p.quantity
unfolding position
position-IsNonneg s l p h e = elim (Bool-cases (is_empty (normalized s))) [
  | inl blank ↦ ground arith
  | inr named ↦
      let found : find_position (normalized s) l.positions ≡ p = ground arith in
      rw (← found) (find_position-IsNonneg (normalized s) l.positions h.shares_held)
]

-- What a valid fill has.
record IsTraded (f : Fill) : Type 0 where
  quantity_held : IsNonneg f.quantity
  price_held : IsNonneg f.price
  fee_held : IsNonneg f.fee

validate_fill-IsTraded : (f : Fill) → validate_fill f ≡ ok tt → IsTraded f
unfolding validate_fill
validate_fill-IsTraded f h = record {
  quantity_held = positive_held f.quantity (ground arith);
  price_held = positive_held f.price (ground arith);
  fee_held = nonnegative_held f.fee (ground arith);
}

notional-IsNonneg : (f : Fill) → IsTraded f → IsNonneg (notional f)
notional-IsNonneg f t = mul-IsNonneg f.quantity f.price t.quantity_held t.price_held

apply_buy-IsSolvent :
    (f : Fill) (prior : Position) (l : Ledger)
    → IsTraded f
    → IsNonneg prior.quantity
    → IsSolvent l
    → IsSolvent (apply_buy f prior l).1
unfolding bought_position
apply_buy-IsSolvent f prior l t p h =
    let cost = add (notional f) f.fee in
    let spent = add-IsNonneg (notional f) f.fee (notional-IsNonneg f t) t.fee_held in
    elim (Bool-cases (dec_lt l.cash cost)) [
      | inl short ↦ rw short h
      | inr enough ↦ rw enough (record {
        cash_held =
            sub-IsNonneg l.cash cost (IsNonneg-is_finite l.cash h.cash_held)
              (IsNonneg-is_finite cost spent) enough;
        shares_held =
            set_position-AllHeld (bought_position f cost prior) l.positions
              (add-IsNonneg prior.quantity f.quantity p t.quantity_held) h.shares_held;
      })
    ]

apply_sell-IsSolvent :
    (f : Fill) (prior : Position) (l : Ledger)
    → IsTraded f
    → IsNonneg prior.quantity
    → IsSolvent l
    → IsSolvent (apply_sell f prior l).1
unfolding sold_position
apply_sell-IsSolvent f prior l t p h =
    let proceeds = sub (notional f) f.fee in
    let known =
      sub-is_finite (notional f) f.fee (IsNonneg-is_finite (notional f) (notional-IsNonneg f t))
        (IsNonneg-is_finite f.fee t.fee_held) in
    elim (Bool-cases (dec_lt prior.quantity f.quantity)) [
      | inl short ↦ rw short h
      | inr enough ↦ elim (Bool-cases (dec_lt proceeds dec_zero)) [
        | inl loss ↦ rw (enough, loss) h
        | inr gain ↦
            rw (enough, gain)
              (record {
                cash_held =
                    add-IsNonneg l.cash proceeds h.cash_held (IsNonneg-of_test proceeds known gain);
                shares_held =
                    set_position-AllHeld (sold_position f prior) l.positions
                      (sub-IsNonneg prior.quantity f.quantity (IsNonneg-is_finite prior.quantity p)
                        (IsNonneg-is_finite f.quantity t.quantity_held) enough)
                      h.shares_held;
              })
      ]
    ]

apply_new_fill-IsSolvent :
    (f : Fill) (l : Ledger) → IsTraded f → IsSolvent l → IsSolvent (apply_new_fill f l).1
apply_new_fill-IsSolvent f l t h = elim (Given-cases (position f.symbol l)) [
  | inr (e, unnamed) ↦ rw (apply_new_fill, ◌>>=◌, unnamed) h
  | inl (prior, found) ↦
      let p = position-IsNonneg f.symbol l prior h found in
      elim (Bool-cases (is_buy f.side)) [
        | inl buys ↦ rw (apply_new_fill, ◌>>=◌, found, buys) (apply_buy-IsSolvent f prior l t p h)
        | inr sells ↦
            rw (apply_new_fill, ◌>>=◌, found, sells) (apply_sell-IsSolvent f prior l t p h)
      ]
]

pub apply_fill-IsSolvent : (f : Fill) (l : Ledger) → IsSolvent l → IsSolvent (apply_fill f l).1
unfolding apply_fill
apply_fill-IsSolvent f l h = elim (Result-cases (validate_fill f)) [
  | inr (e, bad) ↦ rw bad h
  | inl valid ↦ elim (Bool-cases (contains_text f.fill_id l.fill_ids)) [
    | inl known ↦ rw (valid, known) h
    | inr fresh ↦
        rw (valid, fresh) (apply_new_fill-IsSolvent f l (validate_fill-IsTraded f valid) h)
  ]
]
