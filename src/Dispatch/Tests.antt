-- ===== src/Dispatch/Tests.antt =====
-- Runs of the stores of app/runtime/paper_dispatch_control.py, and the theorems at them.
use trade_bot.Prelude.{
  ℕ, ◌+◌, ◌≤◌, some, List, [], ◌∷◌, ◌++◌, String, ◌≡◌, ◌↔◌, refl, pos, true, strip,
}
use trade_bot.Prelude.Clock.{aware}
use trade_bot.Prelude.Action.{ok, err, Error}
use trade_bot.Dispatch.Control.{
  armed, is_armed, in_time, ControlState, ControlStore, Authorization, load_current, max_arm_ttl,
  normalized_text, validate_ttl, assert_armed, append_control_event, control_event_id,
}
use trade_bot.Dispatch.Sqlite
use trade_bot.Dispatch.Sqlite.{authorization, initialize, armed_row, initial_row}
use trade_bot.Dispatch.Calls.{
  ControlCall, arm_call, halt_call, authorize_call, on_sqlite, run_sqlite, run_postgres,
  stores_agree,
}
use trade_bot.Dispatch.Safety.{fresh, authorize_iff, halt_stops_dispatch, dispatch_in_window}
use trade_bot.Oms.Tests.{texts}

abbrev start : ControlStore
start = record { row = some initial_row; journal = [] }

abbrev arming : List ControlCall
arming = arm_call " op " "open" (aware 1000) (pos 60000000) ∷ []

abbrev halting : List ControlCall
halting = halt_call "op" "close" (aware 3000) ∷ authorize_call "i2" (aware 4000) [] ∷ []

abbrev armed_store : ControlStore
armed_store = (run_sqlite texts arming start).1

abbrev armed_control : ControlState
armed_control = armed_row 2 "op" "open" 60001000 1000

-- Armed for a minute at 1000, then halted.
armed_version : (load_current armed_store).version ≡ 2
unfolding run_sqlite on_sqlite Sqlite.arm validate_ttl append_control_event normalized_text strip
    control_event_id
armed_version = refl

stores_agree_example :
    run_sqlite texts (arming ++ halting) start ≡ run_postgres texts (arming ++ halting) start
stores_agree_example = stores_agree texts (arming ++ halting) start initial_row refl

authorize_iff_example :
    ((a : Authorization) × ((Sqlite.authorize texts "i1" (aware 2000) [] armed_store).0 ≡ ok a))
    ↔ (◌≡◌ {A = List String} [] [])
      × (is_armed (load_current armed_store).mode ≡ true)
      × (in_time (load_current armed_store).armed_until 2000 ≡ true)
unfolding normalized_text strip
authorize_iff_example = authorize_iff texts "i1" "i1" 2000 [] armed_store refl

halt_stops_dispatch_example :
    let after_halt = (Sqlite.halt texts "op" "stop" (aware 3000) armed_store).1 in
    (e : Error) × ((Sqlite.authorize texts "i1"
        (aware 3500)
        []
        (run_sqlite texts halting after_halt).1).0
      ≡ err e)
unfolding run_sqlite on_sqlite Sqlite.arm validate_ttl append_control_event normalized_text strip
    control_event_id
halt_stops_dispatch_example =
    halt_stops_dispatch texts "op" "op" "stop" "stop" 3000 armed_store armed_control halting "i1"
      (aware 3500) [] refl refl refl refl

abbrev granted_once : Authorization
granted_once = authorization texts "i1" 2 2000

dispatch_in_window_example :
    (r : ControlState) × (u : ℕ) × ((run_sqlite texts arming (initialize fresh)).1.row ≡ some r)
    × (r.mode ≡ armed)
    × (r.updated_at ≡ some u)
    × (2 ≡ r.version)
    × (2000 ≤ u + max_arm_ttl)
unfolding run_sqlite on_sqlite Sqlite.arm Sqlite.authorize validate_ttl append_control_event
    normalized_text strip control_event_id initialize assert_armed
dispatch_in_window_example = dispatch_in_window texts arming "i1" 2000 [] granted_once refl
