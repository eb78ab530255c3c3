-- ===== src/Oms/Accepted.antt =====
-- The results of the methods of app/oms/store.py where every check accepts.
use trade_bot.Prelude.{
  ℕ, false, Option, none, some, [], ◌∷◌, ◌++◌, String, ◌≡◌, refl, arith, str_eq,
}
use trade_bot.Prelude.Decimal.{Decimal}
use trade_bot.Prelude.Json.{Json}
use trade_bot.Prelude.Clock.{aware}
use trade_bot.Prelude.Action.{ok}
use trade_bot.Oms.State.{OrderState, state_value, validate_transition}
use trade_bot.Oms.Tables.{Oms, OrderRow, find_order, update_order, find_event, get}
use trade_bot.Oms.Orders.{transition, resolve_broker_id, advance_row, payload_or_empty}
use trade_bot.Oms.Fills.{
  apply_cumulative_fill, fill_target, validate_fill_target, fill_row, fill_payload,
}
use trade_bot.Oms.Events.{append_event, journal_row}
use trade_bot.Oms.Steps.{refuses_fill}
use trade_bot.Oms.Lookup.{find_order-update_self, find_event-append_none}

module _ (digest : Json → String) where
  -- The store after a transition that is accepted.
  abbrev pub moved :
      String → OrderState → String → ℕ → Option String → Option Json → OrderRow → Oms → Oms
  moved i target e t b p r s = record s {
    orders = update_order i (advance_row target (resolve_broker_id b r.broker_order_id) t) s.orders;
    events = s.events ++ journal_row digest e i (state_value target) (payload_or_empty p) t b ∷ [];
  }

  pub transition_accepted :
      (i : String) (target : OrderState) (e : String) (t : ℕ) (b : Option String) (p : Option Json)
      (s : Oms) (r : OrderRow)
      → find_order i s.orders ≡ some r
      → find_event e s.events ≡ none
      → validate_transition r.state target ≡ ok tt
      → transition digest i target e (aware t) b p s ≡ (
        ok (advance_row target (resolve_broker_id b r.broker_order_id) t r).order,
        moved i target e t b p r s,
      )
  unfolding transition get append_event
  transition_accepted i target e t b p s r found fresh valid = ground (
    arith,
    find_order-update_self i (advance_row target (resolve_broker_id b r.broker_order_id) t) s.orders
        {r = r} (λ x. refl) found,
  )

  pub moved_found :
      (i : String) (target : OrderState) (e : String) (t : ℕ) (b : Option String) (p : Option Json)
      (s : Oms) (r : OrderRow)
      → find_order i s.orders ≡ some r
      → find_order i (moved i target e t b p r s).orders
        ≡ some (advance_row target (resolve_broker_id b r.broker_order_id) t r)
  moved_found i target e t b p s r found =
      find_order-update_self i (advance_row target (resolve_broker_id b r.broker_order_id) t)
        s.orders (λ x. refl) found

  pub moved_fresh :
      (i : String) (target : OrderState) (e e' : String) (t : ℕ) (b : Option String)
      (p : Option Json) (s : Oms) (r : OrderRow)
      → find_event e' s.events ≡ none
      → str_eq e e' ≡ false
      → find_event e' (moved i target e t b p r s).events ≡ none
  moved_fresh i target e e' t b p s r fresh differ = ground (
    arith,
    find_event-append_none e' s.events
        (journal_row digest e i (state_value target) (payload_or_empty p) t b ∷ []) fresh,
  )

  -- The store after a fill that is accepted.
  abbrev pub filled_up : String → String → Decimal → ℕ → Option String → OrderRow → Oms → Oms
  filled_up i e c t b r s = record s {
    orders =
        update_order i
          (fill_row (fill_target r.order c) (resolve_broker_id b r.broker_order_id) c t) s.orders;
    events = s.events ++ journal_row digest e i "FILL_UPDATE" (fill_payload c) t b ∷ [];
  }

  pub fill_accepted :
      (i e : String) (c : Decimal) (t : ℕ) (b : Option String) (s : Oms) (r : OrderRow)
      → find_order i s.orders ≡ some r
      → find_event e s.events ≡ none
      → refuses_fill c r.order ≡ false
      → validate_fill_target r.state (fill_target r.order c) ≡ ok tt
      → apply_cumulative_fill digest i e c (aware t) b s ≡ (
        ok (fill_row (fill_target r.order c) (resolve_broker_id b r.broker_order_id) c t r).order,
        filled_up i e c t b r s,
      )
  unfolding apply_cumulative_fill get append_event
  fill_accepted i e c t b s r found fresh sound good = ground (
    arith,
    find_order-update_self i
        (fill_row (fill_target r.order c) (resolve_broker_id b r.broker_order_id) c t) s.orders
        {r = r} (λ x. refl) found,
  )

  pub filled_found :
      (i e : String) (c : Decimal) (t : ℕ) (b : Option String) (s : Oms) (r : OrderRow)
      → find_order i s.orders ≡ some r
      → find_order i (filled_up i e c t b r s).orders
        ≡ some (fill_row (fill_target r.order c) (resolve_broker_id b r.broker_order_id) c t r)
  filled_found i e c t b s r found =
      find_order-update_self i
        (fill_row (fill_target r.order c) (resolve_broker_id b r.broker_order_id) c t) s.orders
        (λ x. refl) found
