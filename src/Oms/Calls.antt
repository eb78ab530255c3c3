-- ===== src/Oms/Calls.antt =====
-- Sequences of calls of the methods of app/oms/store.py.
use trade_bot.Prelude.{ℕ, Option, none, some, List, [], ◌∷◌, ◌++◌, String, ◌≡◌, sym, arith}
use mathlib.Core.List.{append-nil, append_assoc}
use trade_bot.Prelude.Decimal.{Decimal}
use trade_bot.Prelude.Json.{Json}
use trade_bot.Prelude.Clock.{Datetime}
use trade_bot.Prelude.Action.{Action, ◌>>=◌, pure}
use trade_bot.Domain.{OrderIntent}
use trade_bot.Oms.State.{OrderState}
use trade_bot.Oms.Tables.{Oms, OrderRecord, OrderRow, EventRow, find_order}
use trade_bot.Oms.Orders.{create, transition, approve_risk, enqueue_submit}
use trade_bot.Oms.Fills.{apply_cumulative_fill}
use trade_bot.Oms.Outbox.{mark_outbox_published}
use trade_bot.Oms.Paths.{IsFinal, IsFinal-path}
use trade_bot.Oms.Steps.{
  Step, same, insert, advance, submit, fill, publish, create-Step, transition-Step,
  enqueue_submit-Step, approve_risk-Step, fill-Step, publish-Step,
}
use trade_bot.Oms.Evolution.{Later, Step-Later, Evolves-refl, Evolves-trans}
use trade_bot.Oms.Soundness.{IsSound, Step-IsSound}

-- A call of one of the methods that write.
pub data Call : Type 0 where
  create_order : OrderIntent → String → Option Datetime → Call
  move : String → OrderState → String → Datetime → Option String → Option Json → Call
  approve : String → String → Datetime → Call
  enqueue : String → String → Datetime → Call
  fill_order : String → String → Decimal → Datetime → Option String → Call
  mark_published : ℕ → Datetime → Call

abbrev pub some_order : Action Oms OrderRecord → Action Oms (Option OrderRecord)
some_order m = m >>= λ r. pure (some r)

abbrev pub no_order : Action Oms (Unit {0}) → Action Oms (Option OrderRecord)
no_order m = m >>= λ _. pure none

-- The store that is opened first.
abbrev pub empty : Oms
empty = record { orders = []; events = []; outbox = []; next_message = 1 }

Step_journal : {s s' : Oms} → Step s s' → (more : List EventRow) × (s'.events ≡ s.events ++ more)
Step_journal {s} (same e) = ([], rw e (sym (append-nil s.events)))
Step_journal (insert row more _ _ _ _ e) = (more, rw e)
Step_journal (advance _ _ _ _ _ more _ _ e) = (more, rw e)
Step_journal (submit _ _ _ _ _ more _ _ _ _ e) = (more, rw e)
Step_journal (fill _ _ _ _ _ _ more _ _ _ _ _ e) = (more, rw e)
Step_journal {s} (publish n m e) = ([], rw e (sym (append-nil s.events)))

some_order-state : (m : Action Oms OrderRecord) (s : Oms) → (some_order m s).1 ≡ (m s).1
some_order-state m s = ground arith

no_order-state : (m : Action Oms (Unit {0})) (s : Oms) → (no_order m s).1 ≡ (m s).1
no_order-state m s = ground arith

module _ (digest : Json → String) where
  unfoldable pub invoke : Call → Action Oms (Option OrderRecord)
  invoke (create_order i client t) = some_order (create digest i client t)
  invoke (move i target e t b p) = some_order (transition digest i target e t b p)
  invoke (approve i e t) = some_order (approve_risk digest i e t)
  invoke (enqueue i e t) = some_order (enqueue_submit digest i e t)
  invoke (fill_order i e c t b) = some_order (apply_cumulative_fill digest i e c t b)
  invoke (mark_published n t) = no_order (mark_outbox_published n t)

  -- The store after the calls; a call that raises is one of them.
  unfoldable pub run : List Call → Oms → Oms
  run [] s = s
  run (c ∷ cs) s = run cs (invoke c s).1

  -- Each call, raised or not, is one step of the tables.
  pub invoke-Step : (c : Call) (s : Oms) → Step s (invoke c s).1
  unfolding invoke
  invoke-Step (create_order i client t) s =
      rw (some_order-state (create digest i client t) s) (create-Step digest i client t s)
  invoke-Step (move i target e t b p) s =
      rw (some_order-state (transition digest i target e t b p) s)
        (transition-Step digest i target e t b p s)
  invoke-Step (approve i e t) s =
      rw (some_order-state (approve_risk digest i e t) s) (approve_risk-Step digest i e t s)
  invoke-Step (enqueue i e t) s =
      rw (some_order-state (enqueue_submit digest i e t) s) (enqueue_submit-Step digest i e t s)
  invoke-Step (fill_order i e c t b) s =
      rw (some_order-state (apply_cumulative_fill digest i e c t b) s)
        (fill-Step digest i e c t b s)
  invoke-Step (mark_published n t) s =
      rw (no_order-state (mark_outbox_published n t) s) (publish-Step n t s)

  run-IsSound_from : (cs : List Call) (s : Oms) → IsSound s → IsSound (run cs s)
  unfolding run
  run-IsSound_from [] s h = h
  run-IsSound_from (c ∷ cs) s h =
      run-IsSound_from cs (invoke c s).1 (Step-IsSound (invoke-Step c s) h)

  -- After any calls on an empty store, no order is filled beyond its quantity, no intent has two
  -- orders, and no order is in the outbox twice under one topic.
  pub run-IsSound : (cs : List Call) → IsSound (run cs empty)
  run-IsSound cs =
      run-IsSound_from cs empty
        (record { within = tt; keys_once = tt; queued_once = tt; numbers = tt })

  -- Any calls leave every order in the store: its identity and its economics are the same, its
  -- version is not lower, its filled quantity, where that is a number, stays one that is not lower,
  -- and its state has followed `_ALLOWED`.
  pub run-Later :
      (cs : List Call) (s : Oms) (i : String) (r : OrderRow)
      → find_order i s.orders ≡ some r
      → Later i r (run cs s)
  unfolding run
  run-Later [] s i r h = (r, h, Evolves-refl r.order)
  run-Later (c ∷ cs) s i r h =
      let (r', h', ev') = Step-Later i r (invoke-Step c s) h in
      let (r'', h'', ev'') = run-Later cs (invoke c s).1 i r' h' in
      (r'', h'', Evolves-trans r.order r'.order r''.order ev' ev'')

  -- An order that is FILLED, CANCELLED, REJECTED or MANUAL stays in that state through any calls.
  pub final_stays :
      (cs : List Call) (s : Oms) (i : String) (r : OrderRow)
      → find_order i s.orders ≡ some r
      → IsFinal r.state
      → (r' : OrderRow) × (find_order i (run cs s).orders ≡ some r') × (r'.state ≡ r.state)
  final_stays cs s i r h f =
      let (r', h', ev) = run-Later cs s i r h in (r', h', IsFinal-path f ev.path)

  -- The event journal only grows at its end.
  pub run_journal :
      (cs : List Call) (s : Oms) → (more : List EventRow) × ((run cs s).events ≡ s.events ++ more)
  unfolding run
  run_journal [] s = ([], sym (append-nil s.events))
  run_journal (c ∷ cs) s =
      let (first, e) = Step_journal (invoke-Step c s) in
      let (rest, f) = run_journal cs (invoke c s).1 in
      (first ++ rest, rw (f, e) (append_assoc s.events first rest))
