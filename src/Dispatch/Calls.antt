-- ===== src/Dispatch/Calls.antt =====
-- Sequences of calls on the stores of app/runtime/paper_dispatch_control.py.
use trade_bot.Prelude.{
  Bool, true, false, none, some, List, [], ◌∷◌, String, ℤ, ◌≡◌, refl, arith, inl, inr, ◌||◌,
  Option-cases,
}
use trade_bot.Prelude.Json.{Json}
use trade_bot.Prelude.Clock.{Datetime}
use trade_bot.Prelude.Action.{Action, Result, ◌>>=◌, pure}
use trade_bot.Dispatch.Control.{ControlState, ControlStore, Authorization, append_control_event}
use trade_bot.Dispatch.Sqlite
use trade_bot.Dispatch.Postgres

pub data ControlCall : Type 0 where
  arm_call : String → String → Datetime → ℤ → ControlCall
  halt_call : String → String → Datetime → ControlCall
  authorize_call : String → Datetime → List String → ControlCall

-- What a call gives back: the new state, or the authorization.
pub data Answer : Type 0 where
  control : ControlState → Answer
  granted : Authorization → Answer

abbrev pub as_control : Action ControlStore ControlState → Action ControlStore Answer
as_control m = m >>= λ c. pure (control c)

abbrev pub as_grant : Action ControlStore Authorization → Action ControlStore Answer
as_grant m = m >>= λ a. pure (granted a)

abbrev pub is_arm : ControlCall → Bool
is_arm (arm_call _ _ _ _) = true
is_arm _ = false

-- `any(is_arm(c) for c in calls)`
abbrev pub arms : List ControlCall → Bool
arms [] = false
arms (c ∷ cs) = is_arm c || arms cs

module _ (digest : Json → String) where
  unfoldable pub on_sqlite : ControlCall → Action ControlStore Answer
  on_sqlite (arm_call o r t ttl) = as_control (Sqlite.arm digest o r t ttl)
  on_sqlite (halt_call o r t) = as_control (Sqlite.halt digest o r t)
  on_sqlite (authorize_call i t rs) = as_grant (Sqlite.authorize digest i t rs)

  unfoldable pub on_postgres : ControlCall → Action ControlStore Answer
  on_postgres (arm_call o r t ttl) = as_control (Postgres.arm digest o r t ttl)
  on_postgres (halt_call o r t) = as_control (Postgres.halt digest o r t)
  on_postgres (authorize_call i t rs) = as_grant (Postgres.authorize digest i t rs)

  unfoldable pub run_sqlite : List ControlCall → ControlStore → List (Result Answer) × ControlStore
  run_sqlite [] s = ([], s)
  run_sqlite (c ∷ cs) s =
      let (r, s') = on_sqlite c s in let (rs, s'') = run_sqlite cs s' in (r ∷ rs, s'')

  unfoldable pub run_postgres :
      List ControlCall → ControlStore → List (Result Answer) × ControlStore
  run_postgres [] s = ([], s)
  run_postgres (c ∷ cs) s =
      let (r, s') = on_postgres c s in let (rs, s'') = run_postgres cs s' in (r ∷ rs, s'')

  same_call :
      (c : ControlCall) (s : ControlStore) (r : ControlState)
      → s.row ≡ some r
      → on_sqlite c s ≡ on_postgres c s
  unfolding on_sqlite on_postgres Sqlite.arm Sqlite.halt Sqlite.authorize Postgres.arm Postgres.halt
      Postgres.authorize append_control_event
  same_call (arm_call o x t ttl) s r h = ground arith
  same_call (halt_call o x t) s r h = ground arith
  same_call (authorize_call i t rs) s r h = ground arith

  row_present :
      (c : ControlCall) (s : ControlStore) (r : ControlState)
      → s.row ≡ some r
      → (on_sqlite c s).1.row ≡ none
      → ⊥
  unfolding on_sqlite Sqlite.arm Sqlite.halt Sqlite.authorize append_control_event
  row_present (arm_call o x t ttl) s r h gone = ground arith
  row_present (halt_call o x t) s r h gone = ground arith
  row_present (authorize_call i t rs) s r h gone = ground arith

  -- The row stays where it is once it is there.
  row_stays :
      (c : ControlCall) (s : ControlStore) (r : ControlState)
      → s.row ≡ some r
      → (r' : ControlState) × ((on_sqlite c s).1.row ≡ some r')
  row_stays c s r h = elim (Option-cases (on_sqlite c s).1.row) [
    | inl gone ↦ absurd (row_present c s r h gone)
    | inr found ↦ found
  ]

  -- From a store that has the control row, the SQLite and the PostgreSQL store answer every
  -- sequence of calls alike and end with the same rows and events.
  pub stores_agree :
      (cs : List ControlCall) (s : ControlStore) (r : ControlState)
      → s.row ≡ some r
      → run_sqlite cs s ≡ run_postgres cs s
  unfolding run_sqlite run_postgres
  stores_agree [] s r h = refl
  stores_agree (c ∷ cs) s r h =
      let (r', h') = row_stays c s r h in
      rw (← same_call c s r h) (rw (stores_agree cs (on_sqlite c s).1 r' h'))
