-- ===== src/Portfolio/Tests.antt =====
-- A ledger and its journal over a few events, and the theorems on app/portfolio at them.
use trade_bot.Prelude.{none, List, [], ◌∷◌, ◌≡◌, refl, is_blank, is_uppercase, strip, upper}
use trade_bot.Prelude.Decimal.{dec_lt, dec_eq, add, sub, mul, div}
use trade_bot.Prelude.Clock.{aware}
use trade_bot.Prelude.Action.{ok}
use trade_bot.Domain.{Fill, buy, sell, validate_fill}
use trade_bot.Oms.Tests.{units}
use trade_bot.Portfolio.Ledger.{Ledger, fee_charge, open_ledger, notional, position, apply_fill}
use trade_bot.Portfolio.Held.{IsSolvent}
use trade_bot.Portfolio.Solvent.{
  LedgerCall, fill_call, adjust_call, split_call, dividend_call, run, after, run-IsSolvent,
}
use trade_bot.Portfolio.Again.{after_again}
use trade_bot.Portfolio.Symbols.{padded_buy_lost}
use trade_bot.Portfolio.Journal.{Journal, append, append_fill, kept, replay}
use trade_bot.Portfolio.Rebuild.{then_step, replay-append_fill}

abbrev opened : Ledger
opened = record {
  opening_cash = units 1000;
  cash = units 1000;
  realized_pnl = units 0;
  cash_income = units 0;
  fees_paid = units 0;
  external_cash_flow = units 0;
  positions = [];
  fill_ids = [];
  corporate_action_ids = [];
  cash_adjustment_ids = [];
}

opened_here : open_ledger (units 1000) ≡ ok opened
unfolding open_ledger dec_lt
opened_here = refl

abbrev bought : Fill
bought = record {
  fill_id = "f1";
  order_intent_id = "i1";
  symbol = "BTC";
  side = buy;
  quantity = units 10;
  price = units 5;
  occurred_at = aware 100;
  fee = units 1;
}

-- The same, with a space before the symbol.
abbrev padded : Fill
padded = record bought { symbol = " BTC" }

abbrev sold : Fill
sold = record bought { fill_id = "f2"; side = sell; quantity = units 4 }

abbrev calls : List LedgerCall
calls =
    fill_call bought
    ∷ fill_call sold
    ∷ split_call "s1" "BTC" (units 2)
    ∷ dividend_call "d1" "BTC" (units 1)
    ∷ adjust_call "a1" (units 3) fee_charge
    ∷ fill_call (record bought { fill_id = "f3"; quantity = units 1000000 })
    ∷ []

run-IsSolvent_example : IsSolvent (run calls opened)
run-IsSolvent_example = run-IsSolvent (units 1000) opened calls opened_here

after_again_example :
    after (fill_call bought) (after (fill_call bought) opened) ≡ after (fill_call bought) opened
after_again_example = after_again (fill_call bought) opened

padded_buy_lost_example :
    ((apply_fill padded opened).1.cash ≡ sub opened.cash (add (notional padded) padded.fee))
    × (position padded.symbol (apply_fill padded opened).1 ≡ position padded.symbol opened)
unfolding apply_fill validate_fill dec_lt dec_eq mul add sub div is_blank is_uppercase strip upper
    position
padded_buy_lost_example = padded_buy_lost padded opened refl refl refl refl

abbrev no_rows : Journal
no_rows = record { rows = []; genesis = none }

replay-append_fill_example :
    replay (units 1000) (append_fill append bought no_rows).1
    ≡ then_step (replay (units 1000) no_rows) (λ l. kept (apply_fill bought l))
unfolding append_fill append validate_fill dec_lt dec_eq is_blank is_uppercase strip
replay-append_fill_example = replay-append_fill (units 1000) bought no_rows refl
