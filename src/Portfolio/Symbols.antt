-- ===== src/Portfolio/Symbols.antt =====
-- Which positions of app/portfolio/ledger.py a fill touches: the ledger looks a position up under
-- its normalized symbol, and stores it under the symbol of the fill.
use trade_bot.Prelude.{false, List, [], ◌∷◌, String, ◌≡◌, arith, str_eq, str_eq_iff, contains_text}
use trade_bot.Prelude.Decimal.{add, sub}
use trade_bot.Prelude.Action.{ok}
use trade_bot.Domain.{Fill, buy}
use trade_bot.Portfolio.Ledger.{
  Position, Ledger, find_position, set_position, normalized, position, notional, bought_position,
  apply_fill,
}

find_position-set_position :
    (s : String) (new : Position) (ps : List Position)
    → str_eq new.symbol s ≡ false
    → find_position s (set_position new ps) ≡ find_position s ps
find_position-set_position s new [] h = ground arith
find_position-set_position s new (p ∷ ps) h = ground (
  arith,
  str_eq_iff p.symbol new.symbol,
  str_eq_iff p.symbol s,
  str_eq_iff new.symbol s,
  find_position-set_position s new ps h,
)

-- A buy whose symbol is not its own normalized form, such as one that ends in a space: the cash is
-- spent, and the position of that symbol is as it was.
pub padded_buy_lost :
    (f : Fill) (l : Ledger)
    → f.side ≡ buy
    → contains_text f.fill_id l.fill_ids ≡ false
    → str_eq f.symbol (normalized f.symbol) ≡ false
    → (apply_fill f l).0 ≡ ok tt
    → ((apply_fill f l).1.cash ≡ sub l.cash (add (notional f) f.fee))
      × (position f.symbol (apply_fill f l).1 ≡ position f.symbol l)
unfolding apply_fill position bought_position
padded_buy_lost f l buys fresh padded booked = (
  ground arith,
  ground (
    arith,
    find_position-set_position (normalized f.symbol)
        (bought_position f (add (notional f) f.fee)
          (find_position (normalized f.symbol) l.positions))
        l.positions,
  ),
)
