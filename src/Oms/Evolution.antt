-- ===== src/Oms/Evolution.antt =====
-- How one order of app/oms/store.py may change over the methods of the store.
use trade_bot.Prelude.{
  Bool, not, ◌&&◌, ℕ, ◌≤◌, true, false, some, List, [], ◌∷◌, String, ◌≡◌, refl, ◌∙◌, inl, inr,
  arith, Bool-cases, str_eq, str_eq_iff,
}
use trade_bot.Prelude.Decimal.{Decimal, dec_lt, is_finite}
use trade_bot.Prelude.Decimal.Order.{dec_lt_trans}
use trade_bot.Prelude.Action.{ok}
use trade_bot.Oms.State.{OrderState, outboxed, state_eq, validate_transition}
use trade_bot.Oms.Tables.{Oms, OrderRecord, OrderRow, find_order, update_order}
use trade_bot.Oms.Fills.{fill_row, validate_fill_target}
use trade_bot.Oms.Orders.{advance_row}
use trade_bot.Oms.Lookup.{KeepsKey, find_order-update_self, find_order-update_ne, find_order-append}
use trade_bot.Oms.Paths.{
  StatePath, here, next, StatePath-join, validate_transition-allowed, state_eq-eq,
}
use trade_bot.Oms.Steps.{Step, same, insert, advance, submit, fill, publish}

-- `r'` is a later version of the order `r`.
pub record Evolves (r r' : OrderRecord) : Type 0 where
  pub same_intent : r'.intent_id ≡ r.intent_id
  pub same_client : r'.client_order_id ≡ r.client_order_id
  pub same_symbol : r'.symbol ≡ r.symbol
  pub same_side : r'.side ≡ r.side
  pub same_quantity : r'.quantity ≡ r.quantity
  pub same_price : r'.limit_price ≡ r.limit_price
  pub later : r.version ≤ r'.version
  pub path : StatePath r.state r'.state
  pub still_finite : is_finite r.filled_quantity && not (is_finite r'.filled_quantity) ≡ false
  pub no_regression :
      is_finite r.filled_quantity && dec_lt r'.filled_quantity r.filled_quantity ≡ false

guarded : (b c : Bool) → (b ≡ true → c ≡ false) → b && c ≡ false
guarded true c h = h refl
guarded false c h = refl

guard_holds : (b c : Bool) → b && c ≡ false → b ≡ true → c ≡ false
guard_holds b c h k = ground arith

not_number : (b : Bool) → b ≡ true → not b ≡ false
not_number b h = ground arith

a_number : (b : Bool) → not b ≡ false → b ≡ true
a_number b h = ground arith

dec_lt_irrefl : (d : Decimal) → dec_lt d d ≡ false
unfolding dec_lt
dec_lt_irrefl d = ground arith

pub Evolves-refl : (r : OrderRecord) → Evolves r r
Evolves-refl r = record {
  same_intent = refl;
  same_client = refl;
  same_symbol = refl;
  same_side = refl;
  same_quantity = refl;
  same_price = refl;
  later = omega arith;
  path = here;
  still_finite =
      guarded (is_finite r.filled_quantity) (not (is_finite r.filled_quantity))
        (not_number (is_finite r.filled_quantity));
  no_regression =
      guarded (is_finite r.filled_quantity) (dec_lt r.filled_quantity r.filled_quantity)
        (λ _. dec_lt_irrefl r.filled_quantity);
}

number_later :
    (a b : OrderRecord)
    → Evolves a b
    → is_finite a.filled_quantity ≡ true
    → is_finite b.filled_quantity ≡ true
number_later a b h f =
    a_number (is_finite b.filled_quantity) (
      guard_holds (is_finite a.filled_quantity) (not (is_finite b.filled_quantity)) h.still_finite
        f)

no_less_later :
    (a b : OrderRecord)
    → Evolves a b
    → is_finite a.filled_quantity ≡ true
    → dec_lt b.filled_quantity a.filled_quantity ≡ false
no_less_later a b h f =
    guard_holds (is_finite a.filled_quantity) (dec_lt b.filled_quantity a.filled_quantity)
      h.no_regression f

pub Evolves-trans : (a b c : OrderRecord) → Evolves a b → Evolves b c → Evolves a c
Evolves-trans a b c h k = record {
  same_intent = cc (h.same_intent, k.same_intent);
  same_client = cc (h.same_client, k.same_client);
  same_symbol = cc (h.same_symbol, k.same_symbol);
  same_side = cc (h.same_side, k.same_side);
  same_quantity = cc (h.same_quantity, k.same_quantity);
  same_price = cc (h.same_price, k.same_price);
  later = omega (arith, h.later, k.later);
  path = StatePath-join h.path k.path;
  still_finite =
      guarded (is_finite a.filled_quantity) (not (is_finite c.filled_quantity))
        (λ f. not_number (is_finite c.filled_quantity) (number_later b c k (number_later a b h f)));
  no_regression =
      guarded (is_finite a.filled_quantity) (dec_lt c.filled_quantity a.filled_quantity) (λ f.
        dec_lt_trans a.filled_quantity b.filled_quantity c.filled_quantity (number_later a b h f)
          (no_less_later a b h f) (no_less_later b c k (number_later a b h f)) f
          (number_later b c k (number_later a b h f)));
}

-- The order is there in both stores, the second a later version of the first.
abbrev pub Later : String → OrderRow → Oms → Type 0
Later i r s' = (r' : OrderRow) × (find_order i s'.orders ≡ some r') × Evolves r.order r'.order

update-Later :
    (i j : String) (f : OrderRow → OrderRow) (rows : List OrderRow) (r q : OrderRow)
    → KeepsKey f
    → find_order i rows ≡ some r
    → find_order j rows ≡ some q
    → Evolves q.order (f q).order
    → (r' : OrderRow) × (find_order i (update_order j f rows) ≡ some r') × Evolves r.order r'.order
update-Later i j f rows r q key hi hj ev = elim (Bool-cases (str_eq i j)) [
  | inl e ↦
      let p : i ≡ j = (str_eq_iff i j).0 e in
      let rq : r ≡ q = ground arith in
      (f r, rw (← p) (find_order-update_self i f rows key hi), rw rq ev)
  | inr ne ↦ (
    r,
    find_order-update_ne i j f rows key (ground (arith, str_eq_iff i j)) ∙ hi,
    Evolves-refl r.order,
  )
]

advance-Evolves :
    (r : OrderRow) (target : OrderState) (b : String) (m : ℕ)
    → validate_transition r.state target ≡ ok tt
    → Evolves r.order (advance_row target b m r).order
advance-Evolves r target b m good = record {
  same_intent = refl;
  same_client = refl;
  same_symbol = refl;
  same_side = refl;
  same_quantity = refl;
  same_price = refl;
  later = omega arith;
  path = next here (validate_transition-allowed r.state target good);
  still_finite =
      guarded (is_finite r.filled_quantity) (not (is_finite r.filled_quantity))
        (not_number (is_finite r.filled_quantity));
  no_regression =
      guarded (is_finite r.filled_quantity) (dec_lt r.filled_quantity r.filled_quantity)
        (λ _. dec_lt_irrefl r.filled_quantity);
}

fill_path : (s t : OrderState) → validate_fill_target s t ≡ ok tt → StatePath s t
unfolding validate_fill_target
fill_path s t h = elim (Bool-cases (state_eq t s)) [
  | inl e ↦ rw (state_eq-eq t s e) here
  | inr ne ↦ next here (validate_transition-allowed s t (rw ne at h))
]

fill-Evolves :
    (r : OrderRow) (target : OrderState) (b : String) (c : Decimal) (m : ℕ)
    → dec_lt c r.filled_quantity ≡ false
    → is_finite c ≡ true
    → validate_fill_target r.state target ≡ ok tt
    → Evolves r.order (fill_row target b c m r).order
fill-Evolves r target b c m no_less fin good = record {
  same_intent = refl;
  same_client = refl;
  same_symbol = refl;
  same_side = refl;
  same_quantity = refl;
  same_price = refl;
  later = omega arith;
  path = fill_path r.state target good;
  still_finite =
      guarded (is_finite r.filled_quantity) (not (is_finite c)) (λ _. not_number (is_finite c) fin);
  no_regression = guarded (is_finite r.filled_quantity) (dec_lt c r.filled_quantity) (λ _. no_less);
}

-- Every step leaves every order in the store, as a later version of itself.
pub Step-Later :
    {s s' : Oms} (i : String) (r : OrderRow)
    → Step s s'
    → find_order i s.orders ≡ some r
    → Later i r s'
Step-Later i r (same e) h = rw e (r, h, Evolves-refl r.order)
Step-Later {s} i r (insert row more absent st fl qty e) h =
    rw e (r, find_order-append i s.orders (row ∷ []) h, Evolves-refl r.order)
Step-Later {s} i r (advance j q target b m more found good e) h = rw e (
    update-Later i j (advance_row target b m) s.orders r q (λ x. refl) h found
      (advance-Evolves q target b m good))
Step-Later {s} i r (submit j q row b m more found good slot number e) h = rw e (
    update-Later i j (advance_row outboxed b m) s.orders r q (λ x. refl) h found
      (advance-Evolves q outboxed b m good))
Step-Later {s} i r (fill j q target b c m more found no_less no_more fin good e) h = rw e (
    update-Later i j (fill_row target b c m) s.orders r q (λ x. refl) h found
      (fill-Evolves q target b c m no_less fin good))
Step-Later i r (publish n m e) h = rw e (r, h, Evolves-refl r.order)
