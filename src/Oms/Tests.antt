-- ===== src/Oms/Tests.antt =====
-- A life of one order in the store of app/oms/store.py, and the theorems at it.
use trade_bot.Prelude.{
  ℕ, none, some, List, [], ◌∷◌, String, str_append, ◌≡◌, refl, pos, negsuc, is_blank, is_uppercase,
  strip,
}
use trade_bot.Prelude.Decimal.{Decimal, finite, dec_lt, dec_eq}
use trade_bot.Prelude.Json.{Json, text, array, object, Items, nil, item, Fields, end, field}
use trade_bot.Prelude.Clock.{aware}
use trade_bot.Prelude.Action.{ok, key_error}
use trade_bot.Domain.{OrderIntent, buy, validate_intent}
use trade_bot.Oms.State.{
  submit_started, acknowledged, filled, partially_filled, validate_transition,
}
use trade_bot.Oms.Tables.{Oms, OrderRow, OrderRecord, find_order, get}
use trade_bot.Oms.Events.{append_event, event_fingerprint, intent_fingerprint}
use trade_bot.Oms.Orders.{create, transition, approve_risk, enqueue_submit, insert_outbox}
use trade_bot.Oms.Fills.{apply_cumulative_fill, fill_target, validate_fill_target}
use trade_bot.Oms.Outbox.{mark_outbox_published}
use trade_bot.Oms.Evolution.{Later}
use trade_bot.Oms.Soundness.{IsSound}
use trade_bot.Oms.Calls.{
  Call, create_order, move, approve, enqueue, fill_order, mark_published, empty, invoke, run,
  run-IsSound, run-Later,
}
use trade_bot.Oms.Atomic.{raised_call_unchanged}
use trade_bot.Oms.Replay.{fill_replay}

-- A digest that can be run: the texts of the value, one after the other.
unfoldable mutual
  pub texts : Json → String
  texts (text s) = s
  texts (array xs) = texts_items xs
  texts (object fs) = texts_fields fs
  texts _ = "."

  texts_items : Items → String
  texts_items nil = ""
  texts_items (item j js) = str_append (texts j) (texts_items js)

  texts_fields : Fields → String
  texts_fields end = ""
  texts_fields (field k j fs) = str_append (texts j) (texts_fields fs)

abbrev pub units : ℕ → Decimal
units n = finite (pos n) (pos 0)

abbrev pub intent : OrderIntent
intent = record {
  intent_id = "i1";
  symbol = "BTC";
  side = buy;
  quantity = units 10;
  limit_price = units 5;
  created_at = aware 100;
  strategy_id = "trend";
}

abbrev opening : List Call
opening =
    create_order intent "c1" none
    ∷ approve "i1" "risk:i1" (aware 101)
    ∷ enqueue "i1" "outbox:i1" (aware 102)
    ∷ move "i1" submit_started "e1" (aware 103) none none
    ∷ move "i1" acknowledged "e2" (aware 104) (some " b1 ") none
    ∷ []

abbrev fills : List Call
fills =
    fill_order "i1" "f1" (units 4) (aware 105) none
    ∷ mark_published 1 (aware 106)
    ∷ fill_order "i1" "f2" (finite (pos 100) (negsuc 0)) (aware 107) none
    ∷ fill_order "i1" "f3" (units 3) (aware 108) none
    ∷ []

abbrev opened : Oms
opened = run texts opening empty

-- The order as it stands after `opening`.
abbrev pub open_row : OrderRow
open_row = record {
  order = record {
    intent_id = "i1";
    client_order_id = "c1";
    broker_order_id = "b1";
    symbol = "BTC";
    side = buy;
    quantity = units 10;
    limit_price = units 5;
    filled_quantity = units 0;
    state = acknowledged;
    version = 5;
    updated_at = 104;
  };
  intent_fingerprint = some "i1BTCBUY...trend";
}

opened_order : find_order "i1" opened.orders ≡ some open_row
unfolding run invoke create transition approve_risk enqueue_submit validate_intent append_event get
    insert_outbox intent_fingerprint event_fingerprint validate_transition texts dec_lt dec_eq
    is_blank is_uppercase strip
opened_order = refl

abbrev done : Oms
done = run texts fills opened

-- The last fill of `fills`, 10.0, is the quantity 10; the one after it is below and is refused.
abbrev done_row : OrderRow
done_row = record {
  order = record (open_row.order) {
    filled_quantity = finite (pos 100) (negsuc 0);
    state = filled;
    version = 7;
    updated_at = 107;
  };
  intent_fingerprint = some "i1BTCBUY...trend";
}

done_order : find_order "i1" done.orders ≡ some done_row
unfolding run invoke create transition approve_risk enqueue_submit apply_cumulative_fill
    mark_outbox_published validate_intent append_event get insert_outbox intent_fingerprint
    event_fingerprint validate_transition texts dec_lt dec_eq is_blank is_uppercase strip
    fill_target validate_fill_target
done_order = refl

run-IsSound_example : IsSound (run texts opening empty)
run-IsSound_example = run-IsSound texts opening

run-Later_example : Later "i1" open_row (run texts fills opened)
run-Later_example = run-Later texts fills opened "i1" open_row opened_order

raised_call_unchanged_example : (invoke texts (approve "i9" "risk:i9" (aware 1)) opened).1 ≡ opened
unfolding run invoke create transition approve_risk enqueue_submit validate_intent append_event get
    insert_outbox intent_fingerprint event_fingerprint validate_transition texts dec_lt dec_eq
    is_blank is_uppercase strip
raised_call_unchanged_example =
    raised_call_unchanged texts (approve "i9" "risk:i9" (aware 1)) opened {x = key_error "i9"} refl

abbrev half_filled : OrderRecord
half_filled = record (open_row.order) {
  filled_quantity = units 4;
  state = partially_filled;
  version = 6;
  updated_at = 105;
}

fill_replay_example :
    let s' = (apply_cumulative_fill texts "i1" "f1" (units 4) (aware 105) none opened).1 in
    apply_cumulative_fill texts "i1" "f1" (units 4) (aware 300) none s' ≡ (ok half_filled, s')
unfolding run invoke create transition approve_risk enqueue_submit apply_cumulative_fill
    validate_intent append_event get insert_outbox intent_fingerprint event_fingerprint
    validate_transition texts dec_lt dec_eq is_blank is_uppercase strip fill_target
    validate_fill_target
fill_replay_example = fill_replay texts "i1" "f1" (units 4) 105 300 none opened half_filled refl
