-- ===== src/Portfolio/Ledger.antt =====
-- app/portfolio/ledger.py: `PortfolioLedger`, what changes it. The dictionary of the positions is
-- the list of its values in the order of insertion: a key is the symbol of its value.
use trade_bot.Prelude.{
  Bool, false, not, ◌||◌, List, [], ◌∷◌, String, is_blank, is_empty, strip, upper, str_eq,
  contains_text, if◌then◌else◌,
}
use trade_bot.Prelude.Decimal.{
  Decimal, dec_zero, is_finite, dec_lt, dec_eq, add, sub, mul, div, neg,
}
use trade_bot.Prelude.Action.{
  Action, Result, ok, err, value_error, ◌>>=◌, ◌>>◌, pure, gets, modify, raise_if, lift,
}
use trade_bot.Domain.{Fill, validate_fill, is_buy, not_positive, not_nonnegative}

pub data CashAdjustmentKind : Type 0 where
  external_flow income fee_charge : CashAdjustmentKind

pub record Position : Type 0 where
  pub symbol : String
  pub quantity : Decimal
  pub average_cost : Decimal

pub record Ledger : Type 0 where
  pub opening_cash : Decimal
  pub cash : Decimal
  pub realized_pnl : Decimal
  pub cash_income : Decimal
  pub fees_paid : Decimal
  pub external_cash_flow : Decimal
  pub positions : List Position
  pub fill_ids : List String
  pub corporate_action_ids : List String
  pub cash_adjustment_ids : List String

-- `__init__`
unfoldable pub open_ledger : Decimal → Result Ledger
open_ledger opening_cash =
    if not_nonnegative opening_cash
    then err (value_error "opening_cash must be finite and non-negative")
    else ok (record {
      opening_cash = opening_cash;
      cash = opening_cash;
      realized_pnl = dec_zero;
      cash_income = dec_zero;
      fees_paid = dec_zero;
      external_cash_flow = dec_zero;
      positions = [];
      fill_ids = [];
      corporate_action_ids = [];
      cash_adjustment_ids = [];
    })

abbrev pub no_position : String → Position
no_position symbol = record { symbol = symbol; quantity = dec_zero; average_cost = dec_zero }

-- `self._positions.get(symbol, Position(symbol, Decimal("0"), Decimal("0")))`
abbrev pub find_position : String → List Position → Position
find_position symbol [] = no_position symbol
find_position symbol (p ∷ ps) =
    let rest = find_position symbol ps in if str_eq p.symbol symbol then p else rest

-- `self._positions[position.symbol] = position`
abbrev pub set_position : Position → List Position → List Position
set_position new [] = new ∷ []
set_position new (p ∷ ps) =
    let rest = set_position new ps in if str_eq p.symbol new.symbol then new ∷ ps else p ∷ rest

-- `symbol.strip().upper()`
abbrev pub normalized : String → String
normalized symbol = upper (strip symbol)

-- `position`
unfoldable pub position : String → Ledger → Result Position
position symbol l =
    if is_empty (normalized symbol)
    then err (value_error "symbol is required")
    else ok (find_position (normalized symbol) l.positions)

abbrev pub notional : Fill → Decimal
notional f = mul f.quantity f.price

-- `quantity > 0`
abbrev pub is_positive : Decimal → Bool
is_positive d = dec_lt dec_zero d

-- The position after a buy at a total cost.
unfoldable pub bought_position : Fill → Decimal → Position → Position
bought_position f cost prior =
    let quantity = add prior.quantity f.quantity in
    record {
      symbol = f.symbol;
      quantity = quantity;
      average_cost =
          if is_positive quantity
          then div (add (mul prior.quantity prior.average_cost) cost) quantity
          else dec_zero;
    }

abbrev pub record_fill : Fill → Ledger → Ledger
record_fill f l = record l { fees_paid = add l.fees_paid f.fee; fill_ids = f.fill_id ∷ l.fill_ids }

abbrev pub book_buy : Fill → Decimal → Position → Ledger → Ledger
book_buy f cost prior l = record_fill f (record l {
  cash = sub l.cash cost;
  positions = set_position (bought_position f cost prior) l.positions;
})

abbrev pub apply_buy : Fill → Position → Action Ledger (Unit {0})
apply_buy f prior = do
  let cost = add (notional f) f.fee
  cash ← gets (λ l. l.cash)
  raise_if (dec_lt cash cost) (value_error "INSUFFICIENT_CASH")
  modify (book_buy f cost prior)

-- The position after a sale.
unfoldable pub sold_position : Fill → Position → Position
sold_position f prior =
    let quantity = sub prior.quantity f.quantity in
    record {
      symbol = f.symbol;
      quantity = quantity;
      average_cost = if is_positive quantity then prior.average_cost else dec_zero;
    }

abbrev pub book_sell : Fill → Decimal → Position → Ledger → Ledger
book_sell f proceeds prior l = record_fill f (record l {
  realized_pnl = add l.realized_pnl (sub (mul (sub f.price prior.average_cost) f.quantity) f.fee);
  cash = add l.cash proceeds;
  positions = set_position (sold_position f prior) l.positions;
})

abbrev pub apply_sell : Fill → Position → Action Ledger (Unit {0})
apply_sell f prior = do
  raise_if (dec_lt prior.quantity f.quantity) (value_error "LONG_ONLY_POSITION_EXCEEDED")
  let proceeds = sub (notional f) f.fee
  raise_if (dec_lt proceeds dec_zero) (value_error "FEE_EXCEEDS_PROCEEDS")
  modify (book_sell f proceeds prior)

-- `apply_fill`, once the fill is known to be new.
abbrev pub apply_new_fill : Fill → Action Ledger (Unit {0})
apply_new_fill f = do
  prior ← λ l. (position f.symbol l, l)
  if is_buy f.side then apply_buy f prior else apply_sell f prior

unfoldable pub apply_fill : Fill → Action Ledger (Unit {0})
apply_fill f = do
  lift (validate_fill f)
  known ← gets (λ l. contains_text f.fill_id l.fill_ids)
  if known then pure tt else apply_new_fill f

-- `amount > 0` of a fee is refused.
abbrev pub bad_fee : CashAdjustmentKind → Decimal → Bool
bad_fee fee_charge amount = is_positive amount
bad_fee _ amount = false

abbrev pub book_adjustment : CashAdjustmentKind → Decimal → Ledger → Ledger
book_adjustment external_flow amount l = record l {
  external_cash_flow = add l.external_cash_flow amount;
}
book_adjustment income amount l = record l { cash_income = add l.cash_income amount }
book_adjustment fee_charge amount l = record l { fees_paid = add l.fees_paid (neg amount) }

abbrev pub adjust_cash : String → Decimal → CashAdjustmentKind → Action Ledger (Unit {0})
adjust_cash activity_id amount kind = do
  raise_if (not (is_finite amount) || dec_eq amount dec_zero)
      (value_error "cash adjustment amount must be finite and non-zero")
  raise_if (bad_fee kind amount) (value_error "fee cash adjustment must not be positive")
  projected ← gets (λ l. add l.cash amount)
  raise_if (dec_lt projected dec_zero) (value_error "NEGATIVE_CASH_AFTER_ADJUSTMENT")
  modify (λ l. book_adjustment kind amount (record l { cash = projected }))
  modify (λ l. record l { cash_adjustment_ids = activity_id ∷ l.cash_adjustment_ids })

unfoldable pub apply_cash_adjustment :
    String → Decimal → CashAdjustmentKind → Action Ledger (Unit {0})
apply_cash_adjustment activity_id amount kind = do
  raise_if (is_blank activity_id) (value_error "activity_id is required")
  known ← gets (λ l. contains_text activity_id l.cash_adjustment_ids)
  if known then pure tt else adjust_cash activity_id amount kind

-- `not normalized or normalized != symbol`
abbrev pub not_normalized : String → Bool
not_normalized symbol = is_empty (normalized symbol) || not (str_eq (normalized symbol) symbol)

abbrev pub split_position : Decimal → Position → Ledger → Ledger
split_position ratio prior l =
    if is_positive prior.quantity
    then record l {
      positions =
          set_position
            (record {
              symbol = prior.symbol;
              quantity = mul prior.quantity ratio;
              average_cost = div prior.average_cost ratio;
            })
            l.positions;
    }
    else l

abbrev pub record_action : String → Ledger → Ledger
record_action action_id l = record l { corporate_action_ids = action_id ∷ l.corporate_action_ids }

abbrev pub split_shares : String → String → Decimal → Action Ledger (Unit {0})
split_shares action_id symbol ratio = do
  raise_if (not_normalized symbol) (value_error "symbol must be normalized uppercase")
  raise_if (not_positive ratio) (value_error "split ratio must be positive and finite")
  prior ← λ l. (position symbol l, l)
  modify (split_position ratio prior)
  modify (record_action action_id)

unfoldable pub apply_split : String → String → Decimal → Action Ledger (Unit {0})
apply_split action_id symbol ratio = do
  raise_if (is_blank action_id) (value_error "action_id is required")
  known ← gets (λ l. contains_text action_id l.corporate_action_ids)
  if known then pure tt else split_shares action_id symbol ratio

abbrev pub book_dividend : Decimal → Ledger → Ledger
book_dividend amount l = record l {
  cash = add l.cash amount;
  cash_income = add l.cash_income amount;
}

abbrev pub pay_dividend : String → String → Decimal → Action Ledger Decimal
pay_dividend action_id symbol amount_per_share = do
  raise_if (not_normalized symbol) (value_error "symbol must be normalized uppercase")
  raise_if (not_nonnegative amount_per_share)
      (value_error "amount_per_share must be finite and non-negative")
  held ← λ l. (position symbol l, l)
  let amount = mul held.quantity amount_per_share
  modify (book_dividend amount)
  modify (record_action action_id)
  pure amount

unfoldable pub apply_cash_dividend : String → String → Decimal → Action Ledger Decimal
apply_cash_dividend action_id symbol amount_per_share = do
  raise_if (is_blank action_id) (value_error "action_id is required")
  known ← gets (λ l. contains_text action_id l.corporate_action_ids)
  if known then pure dec_zero else pay_dividend action_id symbol amount_per_share
