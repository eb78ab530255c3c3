-- ===== src/Oms/Paths.antt =====
-- The diagram of `_ALLOWED` in app/oms/store.py, and what can be reached in it.
use trade_bot.Prelude.{true, ◌≡◌, refl, ◌⊎◌, arith}
use trade_bot.Prelude.Action.{ok}
use trade_bot.Oms.State.{
  OrderState, created, manual, contains_state, allowed, state_eq, terminal_states,
  validate_transition,
}

-- A way through the diagram.
pub data StatePath (s : OrderState) : OrderState → Type 0 where
  here : StatePath s s
  next : {t u : OrderState} → StatePath s t → contains_state u (allowed t) ≡ true → StatePath s u

pub StatePath-join : {s t u : OrderState} → StatePath s t → StatePath t u → StatePath s u
StatePath-join p here = p
StatePath-join p (next q h) = next (StatePath-join p q) h

-- The check accepts the edges of the diagram only: its own exception for a repeated partial fill
-- is an edge too.
pub validate_transition-allowed :
    (s t : OrderState) → validate_transition s t ≡ ok tt → contains_state t (allowed s) ≡ true
unfolding validate_transition
validate_transition-allowed created t h = ground arith
validate_transition-allowed _ t h = ground arith

pub state_eq-eq : (s t : OrderState) → state_eq s t ≡ true → s ≡ t
state_eq-eq s t h = ground arith

-- The states that no transition leaves.
abbrev pub IsFinal : OrderState → Type 0
IsFinal s = (contains_state s terminal_states ≡ true) ⊎ (s ≡ manual)

IsFinal-stuck : (s t : OrderState) → IsFinal s → contains_state t (allowed s) ≡ true → ⊥
IsFinal-stuck s t f h = ground arith

pub IsFinal-path : {s t : OrderState} → IsFinal s → StatePath s t → t ≡ s
IsFinal-path f here = refl
IsFinal-path {s} f (next {t = u} {u = v} p h) =
    let e = IsFinal-path f p in absurd (IsFinal-stuck u v (ground arith) h)
