-- ===== src/Execution/Projected.antt =====
-- The journal of projections in app/execution/execution_facts.py: a fact that is PROJECTED stays so.
use trade_bot.Prelude.{
  true, false, Option, none, some, List, [], ◌∷◌, ◌++◌, String, str_eq, str_eq_iff, str_eq_refl,
  strip, ◌≡◌, refl, arith, if◌then◌else◌,
}
use trade_bot.Prelude.Clock.{Datetime, aware, naive}
use trade_bot.Prelude.Action.{ok}
use trade_bot.Prelude.Preserves.{Preserves}
use trade_bot.Execution.Facts.{
  ProjectionState, pending, projected, quarantined, is_projected, ExecutionFact, FactDb,
  ProjectionRow, projection_id, last_state, projection_state, projection_row, holds_projection,
  append_fact, append_projection, mark_projected, mark_quarantined,
}

-- A call of one of the methods of the inbox that write.
pub data FactCall : Type 0 where
  record_execution : ExecutionFact → String → FactCall
  project : String → Datetime → FactCall
  quarantine : String → String → Datetime → FactCall

unfoldable pub after : FactCall → FactDb → FactDb
after (record_execution f source) s = (append_fact f source s).1
after (project i t) s = (mark_projected i t s).1
after (quarantine i reason t) s = (mark_quarantined i reason t s).1

unfoldable pub run : List FactCall → FactDb → FactDb
run [] s = s
run (c ∷ cs) s = run cs (after c s)

last_state-append :
    (seen : ProjectionState) (i : String) (es : List ProjectionRow) (e : ProjectionRow)
    → last_state seen i (es ++ e ∷ [])
      ≡ (if str_eq e.execution_fact_id i then e.state else last_state seen i es)
last_state-append seen i [] e = refl
last_state-append seen i (x ∷ es) e =
    last_state-append (if str_eq x.execution_fact_id i then x.state else seen) i es e

abbrev pub IsProjected : String → FactDb → Type 0
IsProjected i s = is_projected (projection_state i s.projections) ≡ true

append_fact-IsProjected :
    (i : String) (f : ExecutionFact) (source : String)
    → Preserves (IsProjected i) (append_fact f source)
unfolding append_fact
append_fact-IsProjected i f source s h = ground arith

projection-IsProjected :
    (i j : String) (state : ProjectionState) (reason : Option String) (t : Datetime)
    → Preserves (IsProjected i) (append_projection j state reason t)
unfolding append_projection
projection-IsProjected i j state reason (naive t) s h = ground arith
projection-IsProjected i j state reason (aware t) s h = ground (
  arith,
  str_eq_iff (strip j) i,
  last_state-append pending i s.projections (projection_row (strip j) state reason t),
)

after-IsProjected :
    (i : String) (c : FactCall) (s : FactDb) → IsProjected i s → IsProjected i (after c s)
unfolding after mark_projected mark_quarantined
after-IsProjected i (record_execution f source) s h = append_fact-IsProjected i f source s h
after-IsProjected i (project j t) s h = projection-IsProjected i j projected none t s h
after-IsProjected i (quarantine j reason t) s h =
    projection-IsProjected i j quarantined (some reason) t s h

-- A fact whose last projection event is PROJECTED keeps that state through any calls that record
-- facts, project or quarantine, of this fact or of others, returned or raised.
pub run-IsProjected :
    (cs : List FactCall) (i : String) (s : FactDb) → IsProjected i s → IsProjected i (run cs s)
unfolding run
run-IsProjected [] i s h = h
run-IsProjected (c ∷ cs) i s h = run-IsProjected cs i (after c s) (after-IsProjected i c s h)

-- Where `mark_projected` returns, and the id of its event was new, the last state of the fact is
-- PROJECTED.
pub mark_projected-IsProjected :
    (i : String) (t : Datetime) (s : FactDb)
    → holds_projection (projection_id (strip i) projected none) s.projections ≡ false
    → (mark_projected i t s).0 ≡ ok tt
    → IsProjected (strip i) (mark_projected i t s).1
unfolding mark_projected
mark_projected-IsProjected i (naive t) s new done = ground arith
mark_projected-IsProjected i (aware t) s new done = ground (
  arith,
  str_eq_refl (strip i),
  last_state-append pending (strip i) s.projections (projection_row (strip i) projected none t),
)
