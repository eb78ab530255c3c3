-- ===== src/Dispatch/Safety.antt =====
-- What app/runtime/paper_dispatch_control.py promises: dispatch only inside an armed window.
use trade_bot.Prelude.{
  ℕ, ◌+◌, ◌≤◌, true, false, Option, none, some, List, [], ◌∷◌, String, ℤ, ◌≡◌, ◌↔◌, refl, arith,
  inl, inr, pos_part, Option-cases,
}
use trade_bot.Prelude.Json.{Json}
use trade_bot.Prelude.Clock.{Datetime, aware}
use trade_bot.Prelude.Action.{ok, err, Error, Given-cases}
use trade_bot.Dispatch.Control.{
  Mode, halted, armed, is_armed, in_time, ControlState, ControlStore, Authorization,
  append_control_event, load_current, normalized_text, validate_ttl, max_arm_ttl, assert_armed,
}
use trade_bot.Dispatch.Sqlite
use trade_bot.Dispatch.Sqlite.{authorization, initialize, halted_row}
use trade_bot.Dispatch.Calls.{
  ControlCall, arm_call, halt_call, authorize_call, arms, on_sqlite, run_sqlite,
}

-- A halted state has no window; an armed one ends at most five minutes after the arming.
abbrev pub Windowed : Mode → Option ℕ → Option ℕ → Type 0
Windowed halted none updated = Unit
Windowed halted (some until) updated = ⊥
Windowed armed (some until) (some updated) = until ≤ updated + max_arm_ttl
Windowed armed none updated = ⊥
Windowed armed (some until) none = ⊥

abbrev pub RowWindowed : Option ControlState → Type 0
RowWindowed none = Unit
RowWindowed (some r) = Windowed r.mode r.armed_until r.updated_at

ttl_bounds : (ttl : ℤ) → validate_ttl ttl ≡ ok tt → pos_part ttl ≤ max_arm_ttl
unfolding validate_ttl
ttl_bounds ttl h = ground arith

-- A database before its tables are made.
abbrev pub fresh : ControlStore
fresh = record { row = none; journal = [] }

module _ (digest : Json → String) where
  authorize_needs :
      (i n : String) (t : ℕ) (reasons : List String) (s : ControlStore) (a : Authorization)
      → normalized_text i "intent_id" 256 ≡ ok n
      → (Sqlite.authorize digest i (aware t) reasons s).0 ≡ ok a
      → (reasons ≡ [])
        × (is_armed (load_current s).mode ≡ true)
        × (in_time (load_current s).armed_until t ≡ true)
  unfolding Sqlite.authorize assert_armed append_control_event
  authorize_needs i n t [] s a named h = (refl, ground arith, ground arith)
  authorize_needs i n t (x ∷ reasons) s a named h = ground arith

  authorize_grants :
      (i n : String) (t : ℕ) (s : ControlStore)
      → normalized_text i "intent_id" 256 ≡ ok n
      → is_armed (load_current s).mode ≡ true
      → in_time (load_current s).armed_until t ≡ true
      → (Sqlite.authorize digest i (aware t) [] s).0
        ≡ ok (authorization digest n (load_current s).version t)
  unfolding Sqlite.authorize assert_armed append_control_event
  authorize_grants i n t s named mode window = ground arith

  -- At an aware time and for an accepted intent text, `authorize` succeeds exactly where no
  -- readiness reason is given and the state is ARMED at a time not past `armed_until`.
  pub authorize_iff :
      (i n : String) (t : ℕ) (reasons : List String) (s : ControlStore)
      → normalized_text i "intent_id" 256 ≡ ok n
      → ((a : Authorization) × ((Sqlite.authorize digest i (aware t) reasons s).0 ≡ ok a))
        ↔ (reasons ≡ [])
          × (is_armed (load_current s).mode ≡ true)
          × (in_time (load_current s).armed_until t ≡ true)
  authorize_iff i n t reasons s named = (
    λ g. authorize_needs i n t reasons s g.0 named g.1,
    λ g. (
      authorization digest n (load_current s).version t,
      rw g.0 (authorize_grants i n t s named g.1 g.2),
    ),
  )

  call_windowed :
      (c : ControlCall) (s : ControlStore)
      → RowWindowed s.row
      → RowWindowed (on_sqlite digest c s).1.row
  unfolding on_sqlite Sqlite.arm Sqlite.halt Sqlite.authorize append_control_event
  call_windowed (arm_call o x t ttl) s w = ground (arith, ttl_bounds ttl)
  call_windowed (halt_call o x t) s w = ground arith
  call_windowed (authorize_call i t rs) s w = ground arith

  run_windowed :
      (cs : List ControlCall) (s : ControlStore)
      → RowWindowed s.row
      → RowWindowed (run_sqlite digest cs s).1.row
  unfolding run_sqlite
  run_windowed [] s w = w
  run_windowed (c ∷ cs) s w = run_windowed cs (on_sqlite digest c s).1 (call_windowed c s w)

  -- A call other than `arm` leaves a halted state halted.
  call_halted :
      (c : ControlCall) (s : ControlStore)
      → arms (c ∷ []) ≡ false
      → (load_current s).mode ≡ halted
      → (load_current (on_sqlite digest c s).1).mode ≡ halted
  unfolding on_sqlite Sqlite.arm Sqlite.halt Sqlite.authorize append_control_event
  call_halted (arm_call o x t ttl) s h k = ground arith
  call_halted (halt_call o x t) s h k = ground arith
  call_halted (authorize_call i t rs) s h k = ground arith

  run_halted :
      (cs : List ControlCall) (s : ControlStore)
      → arms cs ≡ false
      → (load_current s).mode ≡ halted
      → (load_current (run_sqlite digest cs s).1).mode ≡ halted
  unfolding run_sqlite
  run_halted [] s quiet h = h
  run_halted (c ∷ cs) s quiet h =
      run_halted cs (on_sqlite digest c s).1 (ground arith) (call_halted c s (ground arith) h)

  halted_not_granted :
      (i : String) (t : Datetime) (reasons : List String) (s : ControlStore) (a : Authorization)
      → (load_current s).mode ≡ halted
      → (Sqlite.authorize digest i t reasons s).0 ≡ ok a
      → ⊥
  unfolding Sqlite.authorize assert_armed append_control_event
  halted_not_granted i t [] s a h granted = ground arith
  halted_not_granted i t (x ∷ reasons) s a h granted = ground arith

  halted_refuses :
      (i : String) (t : Datetime) (reasons : List String) (s : ControlStore)
      → (load_current s).mode ≡ halted
      → (e : Error) × ((Sqlite.authorize digest i t reasons s).0 ≡ err e)
  halted_refuses i t reasons s h = elim (Given-cases (Sqlite.authorize digest i t reasons s).0) [
    | inr failed ↦ failed
    | inl (a, granted) ↦ absurd (halted_not_granted i t reasons s a h granted)
  ]

  -- Once halted, and while nobody arms, every authorization raises.
  halt_blocks_dispatch :
      (cs : List ControlCall) (s : ControlStore) (i : String) (t : Datetime) (reasons : List String)
      → arms cs ≡ false
      → (load_current s).mode ≡ halted
      → (e : Error) × ((Sqlite.authorize digest i t reasons (run_sqlite digest cs s).1).0 ≡ err e)
  halt_blocks_dispatch cs s i t reasons quiet h =
      halted_refuses i t reasons (run_sqlite digest cs s).1 (run_halted cs s quiet h)

  granted_in_window :
      (i : String) (t : ℕ) (reasons : List String) (s : ControlStore) (a : Authorization)
      → RowWindowed s.row
      → (Sqlite.authorize digest i (aware t) reasons s).0 ≡ ok a
      → (r : ControlState) × (u : ℕ) × (s.row ≡ some r)
        × (r.mode ≡ armed)
        × (r.updated_at ≡ some u)
        × (a.control_version ≡ r.version)
        × (t ≤ u + max_arm_ttl)
  unfolding Sqlite.authorize assert_armed append_control_event
  granted_in_window i t (x ∷ reasons) s a w h = ground arith
  granted_in_window i t [] s a w h = elim (Option-cases s.row) [
    | inl missing ↦ absurd (halted_not_granted i (aware t) [] s a (rw missing refl) h)
    | inr (r, found) ↦ elim (Option-cases r.updated_at) [
      | inl undated ↦ ground arith
      | inr (u, dated) ↦ (r, u, found, ground arith, dated, ground arith, ground arith)
    ]
  ]

  -- After any calls on a new store, an authorization that is granted bears the version of an ARMED
  -- state, and is dated at most five minutes after that state was armed.
  pub dispatch_in_window :
      (cs : List ControlCall) (i : String) (t : ℕ) (reasons : List String) (a : Authorization)
      → let s = (run_sqlite digest cs (initialize fresh)).1 in
        (Sqlite.authorize digest i (aware t) reasons s).0 ≡ ok a
        → (r : ControlState) × (u : ℕ) × (s.row ≡ some r)
          × (r.mode ≡ armed)
          × (r.updated_at ≡ some u)
          × (a.control_version ≡ r.version)
          × (t ≤ u + max_arm_ttl)
  dispatch_in_window cs i t reasons a h =
      let s = (run_sqlite digest cs (initialize fresh)).1 in
      granted_in_window i t reasons s a
        (run_windowed cs (initialize fresh) (unfold initialize in tt)) h

  -- `halt` with accepted texts always halts, and raises the version by one.
  halt_halts :
      (o o' x x' : String) (t : ℕ) (s : ControlStore) (r : ControlState)
      → s.row ≡ some r
      → normalized_text o "operator_id" 128 ≡ ok o'
      → normalized_text x "reason" 1000 ≡ ok x'
      → let (answer, s') = Sqlite.halt digest o x (aware t) s in
        (answer ≡ ok (halted_row (r.version + 1) o' x' t))
        × (s'.row ≡ some (halted_row (r.version + 1) o' x' t))
  unfolding Sqlite.halt append_control_event
  halt_halts o o' x x' t s r h named reasoned = ground arith

  -- From a store that has the control row, after a `halt` with accepted texts at an aware time, and
  -- then any calls without an `arm`, every `authorize` raises, whatever it is given.
  pub halt_stops_dispatch :
      (o o' x x' : String) (t : ℕ) (s : ControlStore) (r : ControlState) (cs : List ControlCall)
      (i : String) (t' : Datetime) (reasons : List String)
      → s.row ≡ some r
      → normalized_text o "operator_id" 128 ≡ ok o'
      → normalized_text x "reason" 1000 ≡ ok x'
      → arms cs ≡ false
      → let after_halt = (Sqlite.halt digest o x (aware t) s).1 in
        (e : Error) × ((Sqlite.authorize digest i t' reasons (run_sqlite digest cs after_halt).1).0
          ≡ err e)
  halt_stops_dispatch o o' x x' t s r cs i t' reasons h named reasoned quiet =
      halt_blocks_dispatch cs (Sqlite.halt digest o x (aware t) s).1 i t' reasons quiet
        (rw (load_current, (halt_halts o o' x x' t s r h named reasoned).1) refl)
