-- ===== src/Oms/Soundness.antt =====
-- The invariant of the store of app/oms/store.py: no order is filled beyond its quantity, no key is
-- stored twice, and no order is queued for submission twice.
use trade_bot.Prelude.{
  ℕ, ◌+◌, ◌<◌, true, false, none, some, List, [], ◌∷◌, ◌++◌, String, ◌≡◌, refl, inl, inr, arith,
  Bool-cases, str_eq, str_eq_iff,
}
use trade_bot.Prelude.Decimal.{dec_zero, dec_lt, is_finite}
use trade_bot.Domain.{not_positive}
use trade_bot.Oms.State.{outboxed}
use trade_bot.Oms.Tables.{Oms, OrderRow, OutboxRow, find_order, update_order}
use trade_bot.Oms.Fills.{fill_row}
use trade_bot.Oms.Orders.{advance_row, submit_queued}
use trade_bot.Oms.Outbox.{publish_row}
use trade_bot.Oms.Lookup.{KeepsKey, find_order-append_none}
use trade_bot.Oms.Steps.{Step, same, insert, advance, submit, fill, publish}

-- The filled quantity is a number, and not above the quantity of the order.
abbrev pub IsWithin : OrderRow → Type 0
IsWithin r = (is_finite r.filled_quantity ≡ true) × (dec_lt r.quantity r.filled_quantity ≡ false)

abbrev pub AllWithin : List OrderRow → Type 0
AllWithin [] = Unit
AllWithin (r ∷ rs) = IsWithin r × AllWithin rs

-- No two rows have one key.
abbrev pub KeysOnce : List OrderRow → Type 0
KeysOnce [] = Unit
KeysOnce (r ∷ rs) = (find_order r.intent_id rs ≡ none) × KeysOnce rs

-- No two messages have one order and topic.
abbrev pub QueuedOnce : List OutboxRow → Type 0
QueuedOnce [] = Unit
QueuedOnce (r ∷ rs) = (submit_queued r.intent_id r.topic rs ≡ false) × QueuedOnce rs

abbrev pub NumbersBelow : ℕ → List OutboxRow → Type 0
NumbersBelow n [] = Unit
NumbersBelow n (r ∷ rs) = (r.message_id < n) × NumbersBelow n rs

pub record IsSound (s : Oms) : Type 0 where
  pub within : AllWithin s.orders
  pub keys_once : KeysOnce s.orders
  pub queued_once : QueuedOnce s.outbox
  pub numbers : NumbersBelow s.next_message s.outbox

find_order-update_none :
    (i j : String) (f : OrderRow → OrderRow) (rows : List OrderRow)
    → KeepsKey f
    → find_order i rows ≡ none
    → find_order i (update_order j f rows) ≡ none
find_order-update_none i j f [] key h = refl
find_order-update_none i j f (x ∷ rows) key h =
    ground (arith, key x, find_order-update_none i j f rows key)

update-KeysOnce :
    (i : String) (f : OrderRow → OrderRow) (rows : List OrderRow)
    → KeepsKey f
    → KeysOnce rows
    → KeysOnce (update_order i f rows)
update-KeysOnce i f [] key h = tt
update-KeysOnce i f (x ∷ rows) key h = ground (
  arith,
  key x,
  find_order-update_none x.intent_id i f rows key h.0,
  update-KeysOnce i f rows key h.1,
)

update_absent :
    (i : String) (f : OrderRow → OrderRow) (rows : List OrderRow)
    → find_order i rows ≡ none
    → update_order i f rows ≡ rows
update_absent i f [] h = refl
update_absent i f (x ∷ rows) h = ground (arith, update_absent i f rows)

-- An update by a function that is good at the row with the key.
update-AllWithin :
    (i : String) (f : OrderRow → OrderRow) (rows : List OrderRow) (r : OrderRow)
    → KeysOnce rows
    → AllWithin rows
    → find_order i rows ≡ some r
    → (IsWithin r → IsWithin (f r))
    → AllWithin (update_order i f rows)
update-AllWithin i f [] r once all h good = tt
update-AllWithin i f (x ∷ rows) r once all h good = elim (Bool-cases (str_eq x.intent_id i)) [
  | inl e ↦ ground (
    arith,
    str_eq_iff x.intent_id i,
    good,
    update_absent i f rows (rw (← (str_eq_iff x.intent_id i).0 e) once.0),
  )
  | inr ne ↦ ground (arith, update-AllWithin i f rows r once.1 all.1 (ground arith) good)
]

append-AllWithin :
    (rows : List OrderRow) (r : OrderRow) → AllWithin rows → IsWithin r → AllWithin (rows ++ r ∷ [])
append-AllWithin [] r all h = (h, tt)
append-AllWithin (x ∷ rows) r all h = (all.0, append-AllWithin rows r all.1 h)

append-KeysOnce :
    (rows : List OrderRow) (r : OrderRow)
    → KeysOnce rows
    → find_order r.intent_id rows ≡ none
    → KeysOnce (rows ++ r ∷ [])
append-KeysOnce [] r once h = (refl, tt)
append-KeysOnce (x ∷ rows) r once h = ground (
  arith,
  str_eq_iff x.intent_id r.intent_id,
  str_eq_iff r.intent_id x.intent_id,
  find_order-append_none x.intent_id rows (r ∷ []),
  append-KeysOnce rows r once.1,
)

submit_queued-append :
    (i t : String) (rows : List OutboxRow) (r : OutboxRow)
    → submit_queued i t rows ≡ false
    → submit_queued i t (r ∷ []) ≡ false
    → submit_queued i t (rows ++ r ∷ []) ≡ false
submit_queued-append i t [] r h k = k
submit_queued-append i t (x ∷ rows) r h k = ground (arith, submit_queued-append i t rows r)

append-QueuedOnce :
    (rows : List OutboxRow) (r : OutboxRow)
    → QueuedOnce rows
    → submit_queued r.intent_id r.topic rows ≡ false
    → QueuedOnce (rows ++ r ∷ [])
append-QueuedOnce [] r once h = (refl, tt)
append-QueuedOnce (x ∷ rows) r once h = ground (
  arith,
  str_eq_iff x.intent_id r.intent_id,
  str_eq_iff r.intent_id x.intent_id,
  str_eq_iff x.topic r.topic,
  str_eq_iff r.topic x.topic,
  submit_queued-append x.intent_id x.topic rows r once.0,
  append-QueuedOnce rows r once.1,
)

append-NumbersBelow :
    (n : ℕ) (rows : List OutboxRow) (r : OutboxRow)
    → NumbersBelow n rows
    → r.message_id ≡ n
    → NumbersBelow (n + 1) (rows ++ r ∷ [])
append-NumbersBelow n [] r h e = (omega arith, tt)
append-NumbersBelow n (x ∷ rows) r h e = (omega arith, append-NumbersBelow n rows r h.1 e)

-- Publishing keeps the order and the topic of each message.
submit_queued-publish :
    (i t : String) (n m : ℕ) (rows : List OutboxRow)
    → submit_queued i t (publish_row n m rows) ≡ submit_queued i t rows
submit_queued-publish i t n m [] = refl
submit_queued-publish i t n m (x ∷ rows) = ground (arith, submit_queued-publish i t n m rows)

publish-QueuedOnce :
    (n m : ℕ) (rows : List OutboxRow) → QueuedOnce rows → QueuedOnce (publish_row n m rows)
publish-QueuedOnce n m [] h = tt
publish-QueuedOnce n m (x ∷ rows) h =
    ground
      (arith, submit_queued-publish x.intent_id x.topic n m rows, publish-QueuedOnce n m rows h.1)

publish-NumbersBelow :
    (k n m : ℕ) (rows : List OutboxRow)
    → NumbersBelow k rows
    → NumbersBelow k (publish_row n m rows)
publish-NumbersBelow k n m [] h = tt
publish-NumbersBelow k n m (x ∷ rows) h = ground (arith, publish-NumbersBelow k n m rows h.1)

-- A new order has nothing filled and a positive quantity.
new-IsWithin :
    (r : OrderRow) → r.filled_quantity ≡ dec_zero → not_positive r.quantity ≡ false → IsWithin r
new-IsWithin r e h = rw e (refl, ground arith)

-- Every step keeps the store sound.
pub Step-IsSound : {s s' : Oms} → Step s s' → IsSound s → IsSound s'
Step-IsSound (same e) h = rw e h
Step-IsSound {s} (insert row more absent st fl qty e) h = rw e (record {
  within = append-AllWithin s.orders row h.within (new-IsWithin row fl qty);
  keys_once = append-KeysOnce s.orders row h.keys_once absent;
  queued_once = h.queued_once;
  numbers = h.numbers;
})
Step-IsSound {s} (advance i r target b m more found good e) h = rw e (record {
  within =
      update-AllWithin i (advance_row target b m) s.orders r h.keys_once h.within found (λ w. w);
  keys_once = update-KeysOnce i (advance_row target b m) s.orders (λ x. refl) h.keys_once;
  queued_once = h.queued_once;
  numbers = h.numbers;
})
Step-IsSound {s} (submit i r row b m more found good slot number e) h = rw e (record {
  within =
      update-AllWithin i (advance_row outboxed b m) s.orders r h.keys_once h.within found (λ w. w);
  keys_once = update-KeysOnce i (advance_row outboxed b m) s.orders (λ x. refl) h.keys_once;
  queued_once = append-QueuedOnce s.outbox row h.queued_once slot;
  numbers = append-NumbersBelow s.next_message s.outbox row h.numbers number;
})
Step-IsSound {s} (fill i r target b c m more found no_less no_more fin good e) h = rw e (record {
  within =
      update-AllWithin i (fill_row target b c m) s.orders r h.keys_once h.within found
        (λ w. (fin, no_more));
  keys_once = update-KeysOnce i (fill_row target b c m) s.orders (λ x. refl) h.keys_once;
  queued_once = h.queued_once;
  numbers = h.numbers;
})
Step-IsSound {s} (publish n m e) h = rw e (record {
  within = h.within;
  keys_once = h.keys_once;
  queued_once = publish-QueuedOnce n m s.outbox h.queued_once;
  numbers = publish-NumbersBelow s.next_message n m s.outbox h.numbers;
})
