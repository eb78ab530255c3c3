-- ===== src/Oms/Lookup.antt =====
-- How the queries of app/oms/store.py read a table after an update or an insert.
use trade_bot.Prelude.{none, some, List, [], ◌∷◌, ◌++◌, String, str_eq_iff, ◌≡◌, ◌≢◌, refl, arith}
use trade_bot.Oms.Tables.{OrderRow, EventRow, find_order, update_order, find_event, identity_rows}

-- An update keeps the key of the row.
abbrev pub KeepsKey : (OrderRow → OrderRow) → Type 0
KeepsKey f = (r : OrderRow) → (f r).intent_id ≡ r.intent_id

pub find_order-update_self :
    (i : String) (f : OrderRow → OrderRow) (rows : List OrderRow) {r : OrderRow}
    → KeepsKey f
    → find_order i rows ≡ some r
    → find_order i (update_order i f rows) ≡ some (f r)
find_order-update_self i f [] {r} key h = ground arith
find_order-update_self i f (x ∷ rows) {r} key h =
    ground (arith, key x, str_eq_iff x.intent_id i, find_order-update_self i f rows {r = r} key)

pub find_order-update_ne :
    (i j : String) (f : OrderRow → OrderRow) (rows : List OrderRow)
    → KeepsKey f
    → i ≢ j
    → find_order i (update_order j f rows) ≡ find_order i rows
find_order-update_ne i j f [] key ne = refl
find_order-update_ne i j f (x ∷ rows) key ne = ground (
  arith,
  key x,
  str_eq_iff x.intent_id i,
  str_eq_iff x.intent_id j,
  find_order-update_ne i j f rows key ne,
)

-- A row that is found stays first when another is added at the end.
pub find_order-append :
    (i : String) (rows more : List OrderRow) {r : OrderRow}
    → find_order i rows ≡ some r
    → find_order i (rows ++ more) ≡ some r
find_order-append i [] more {r} h = ground arith
find_order-append i (x ∷ rows) more {r} h = ground (arith, find_order-append i rows more {r = r})

pub find_order-append_none :
    (i : String) (rows more : List OrderRow)
    → find_order i rows ≡ none
    → find_order i (rows ++ more) ≡ find_order i more
find_order-append_none i [] more h = refl
find_order-append_none i (x ∷ rows) more h = ground (arith, find_order-append_none i rows more)

pub find_event-append_none :
    (e : String) (rows more : List EventRow)
    → find_event e rows ≡ none
    → find_event e (rows ++ more) ≡ find_event e more
find_event-append_none e [] more h = refl
find_event-append_none e (x ∷ rows) more h = ground (arith, find_event-append_none e rows more)

-- The row that is found has the key that was asked for.
pub find_order-key :
    (i : String) (rows : List OrderRow) {r : OrderRow}
    → find_order i rows ≡ some r
    → r.intent_id ≡ i
find_order-key i [] {r} h = ground arith
find_order-key i (x ∷ rows) {r} h =
    ground (arith, str_eq_iff x.intent_id i, find_order-key i rows {r = r})

-- Where no row has the identity, none has the key.
pub identity_rows-nil :
    (i c : String) (rows : List OrderRow) → identity_rows i c rows ≡ [] → find_order i rows ≡ none
identity_rows-nil i c [] h = refl
identity_rows-nil i c (x ∷ rows) h = ground (arith, identity_rows-nil i c rows)

-- No row, one row, or more.
pub data Rows (rows : List OrderRow) : Type 0 where
  no_row : rows ≡ [] → Rows rows
  one_row : (r : OrderRow) → rows ≡ r ∷ [] → Rows rows
  more_rows : (r q : OrderRow) (rest : List OrderRow) → rows ≡ r ∷ q ∷ rest → Rows rows

pub Rows-cases : (rows : List OrderRow) → Rows rows
Rows-cases [] = no_row refl
Rows-cases (r ∷ []) = one_row r refl
Rows-cases (r ∷ q ∷ rest) = more_rows r q rest refl
