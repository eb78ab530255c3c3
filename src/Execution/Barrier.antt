-- ===== src/Execution/Barrier.antt =====
-- The checkpoints of app/execution/execution_checkpoints.py as a barrier: what `resolve_through`
-- leaves unresolved.
use trade_bot.Prelude.{
  ℕ, Bool, true, false, not, ◌&&◌, ◌||◌, List, [], ◌∷◌, ◌++◌, String, str_append, str_eq,
  str_eq_refl, strip, is_blank, ◌≡◌, refl, sym, ◌∙◌, arith, inl, inr, Bool-cases, if◌then◌else◌,
}
use trade_bot.Prelude.Prefix.{str_eq-append}
use trade_bot.Prelude.Decimal.{Decimal}
use trade_bot.Prelude.Clock.{Datetime, aware, naive}
use trade_bot.Prelude.Action.{ok}
use trade_bot.Domain.{not_positive}
use trade_bot.Execution.Checkpoints.{
  CheckpointRow, CheckpointEvent, CheckpointDb, is_resolved, open_rows, insert_row, in_order,
  unresolved_checkpoints, holds_event, resolution, insert_event, covers, resolve_rows,
  resolve_through,
}

-- Every event resolves the checkpoint that its id names.
abbrev pub Named : List CheckpointEvent → Type 0
Named [] = Unit
Named (e ∷ es) =
    (e.event_id ≡ str_append "execution-checkpoint-resolved:" e.checkpoint_id) × Named es

-- Some row of the list is of the intent and not beyond the quantity.
abbrev pub any_covered : String → Decimal → List CheckpointRow → Bool
any_covered i c [] = false
any_covered i c (r ∷ rs) = covers i c r || any_covered i c rs

-- The same of a row that is not resolved.
abbrev left_open : String → Decimal → List CheckpointEvent → List CheckpointRow → Bool
left_open i c es [] = false
left_open i c es (r ∷ rs) =
    (covers i c r && not (is_resolved r.checkpoint_id es)) || left_open i c es rs

-- What was resolved is resolved.
abbrev Grows : List CheckpointEvent → List CheckpointEvent → Type 0
Grows es es' = (j : String) → is_resolved j es ≡ true → is_resolved j es' ≡ true

left_open-insert_row :
    (i : String) (c : Decimal) (es : List CheckpointEvent) (a : CheckpointRow)
    (rs : List CheckpointRow)
    → left_open i c es (insert_row a rs) ≡ left_open i c es (a ∷ rs)
unfolding insert_row
left_open-insert_row i c es a [] = refl
left_open-insert_row i c es a (b ∷ rs) = ground (arith, left_open-insert_row i c es a rs)

left_open-in_order :
    (i : String) (c : Decimal) (es : List CheckpointEvent) (rs : List CheckpointRow)
    → left_open i c es (in_order rs) ≡ left_open i c es rs
unfolding in_order
left_open-in_order i c es [] = refl
left_open-in_order i c es (r ∷ rs) =
    rw (left_open-insert_row i c es r (in_order rs), left_open-in_order i c es rs) refl

left_open-open_rows :
    (i : String) (c : Decimal) (es es' : List CheckpointEvent) (rs : List CheckpointRow)
    → Grows es es'
    → left_open i c es' (open_rows es rs) ≡ left_open i c es' rs
left_open-open_rows i c es es' [] grows = refl
left_open-open_rows i c es es' (r ∷ rs) grows =
    ground (arith, grows r.checkpoint_id, left_open-open_rows i c es es' rs grows)

any_covered-open_rows :
    (i : String) (c : Decimal) (es : List CheckpointEvent) (rs : List CheckpointRow)
    → any_covered i c (open_rows es rs) ≡ left_open i c es rs
any_covered-open_rows i c es [] = refl
any_covered-open_rows i c es (r ∷ rs) = ground (arith, any_covered-open_rows i c es rs)

Named-append :
    (es : List CheckpointEvent) (e : CheckpointEvent)
    → Named es
    → e.event_id ≡ str_append "execution-checkpoint-resolved:" e.checkpoint_id
    → Named (es ++ e ∷ [])
Named-append [] e h k = (k, tt)
Named-append (x ∷ es) e (named, rest) k = (named, Named-append es e rest k)

is_resolved-append :
    (j : String) (es : List CheckpointEvent) (e : CheckpointEvent)
    → is_resolved j (es ++ e ∷ []) ≡ (is_resolved j es || str_eq e.checkpoint_id j)
is_resolved-append j [] e = ground arith
is_resolved-append j (x ∷ es) e = ground (arith, is_resolved-append j es e)

-- An id that is taken was taken by an event of the same checkpoint.
holds_event-is_resolved :
    (i : String) (es : List CheckpointEvent)
    → Named es
    → holds_event (str_append "execution-checkpoint-resolved:" i) es ≡ true
    → is_resolved i es ≡ true
holds_event-is_resolved i [] h k = ground arith
holds_event-is_resolved i (e ∷ es) (named, rest) k = elim (Bool-cases (str_eq e.checkpoint_id i)) [
  | inl same ↦ rw same refl
  | inr differ ↦ rw differ (
      holds_event-is_resolved i es rest
        (rw (named, str_eq-append "execution-checkpoint-resolved:" e.checkpoint_id i differ) at k))
]

module _ (i : String) (c : Decimal) (t : ℕ) where
  -- The events after one row of the loop.
  abbrev after_row : CheckpointRow → List CheckpointEvent → List CheckpointEvent
  after_row r es = if covers i c r then insert_event (resolution r c t) es else es

  after_row-Named :
      (r : CheckpointRow) (es : List CheckpointEvent) → Named es → Named (after_row r es)
  after_row-Named r es h = ground (arith, Named-append es (resolution r c t) h refl)

  after_row-Grows : (r : CheckpointRow) (es : List CheckpointEvent) → Grows es (after_row r es)
  after_row-Grows r es j h = ground (arith, is_resolved-append j es (resolution r c t))

  after_row-resolved :
      (r : CheckpointRow) (es : List CheckpointEvent)
      → Named es
      → covers i c r ≡ true
      → is_resolved r.checkpoint_id (after_row r es) ≡ true
  after_row-resolved r es h k = ground (
    arith,
    holds_event-is_resolved r.checkpoint_id es h,
    is_resolved-append r.checkpoint_id es (resolution r c t),
    str_eq_refl r.checkpoint_id,
  )

  resolve_rows-Grows :
      (rs : List CheckpointRow) (es : List CheckpointEvent) → Grows es (resolve_rows i c t rs es).1
  unfolding resolve_rows
  resolve_rows-Grows [] es j h = h
  resolve_rows-Grows (r ∷ rs) es j h =
      resolve_rows-Grows rs (after_row r es) j (after_row-Grows r es j h)

  resolve_rows-left_open :
      (rs : List CheckpointRow) (es : List CheckpointEvent)
      → Named es
      → left_open i c (resolve_rows i c t rs es).1 rs ≡ false
  unfolding resolve_rows
  resolve_rows-left_open [] es h = refl
  resolve_rows-left_open (r ∷ rs) es h = ground (
    arith,
    after_row-resolved r es h,
    resolve_rows-Grows rs (after_row r es) r.checkpoint_id,
    resolve_rows-left_open rs (after_row r es) (after_row-Named r es h),
  )

  resolve_rows-Named :
      (rs : List CheckpointRow) (es : List CheckpointEvent)
      → Named es
      → Named (resolve_rows i c t rs es).1
  unfolding resolve_rows
  resolve_rows-Named [] es h = h
  resolve_rows-Named (r ∷ rs) es h = resolve_rows-Named rs (after_row r es) (after_row-Named r es h)

all_resolved :
    (i : String) (c : Decimal) (t : ℕ) (s : CheckpointDb)
    → Named s.events
    → any_covered i c
        (open_rows (resolve_rows i c t (unresolved_checkpoints s) s.events).1 s.checkpoints)
      ≡ false
unfolding unresolved_checkpoints
all_resolved i c t s h =
    let rows = open_rows s.events s.checkpoints in
    let es' = (resolve_rows i c t (in_order rows) s.events).1 in
    any_covered-open_rows i c es' s.checkpoints
    ∙ sym (
        left_open-open_rows i c s.events es' s.checkpoints
          (resolve_rows-Grows i c t (in_order rows) s.events))
    ∙ sym (left_open-in_order i c es' rows)
    ∙ resolve_rows-left_open i c t (in_order rows) s.events h

-- The rows that are counted as unresolved.
abbrev pub unresolved_rows : CheckpointDb → List CheckpointRow
unresolved_rows s = open_rows s.events s.checkpoints

-- Where `resolve_through` returns, no checkpoint of the intent that is at or below the cumulative
-- quantity is unresolved any more, and the events still name the checkpoints that they resolve.
pub resolve_through-any_covered :
    (i : String) (c : Decimal) (t : Datetime) (s : CheckpointDb) (n : ℕ)
    → Named s.events
    → (resolve_through i c t s).0 ≡ ok n
    → (any_covered (strip i) c (unresolved_rows (resolve_through i c t s).1) ≡ false)
      × Named (resolve_through i c t s).1.events
unfolding resolve_through
resolve_through-any_covered i c (naive t) s n h done = absurd (ground arith)
resolve_through-any_covered i c (aware t) s n h done = elim (Bool-cases (is_blank i)) [
  | inl blank ↦ absurd (ground arith)
  | inr named ↦ elim (Bool-cases (not_positive c)) [
    | inl bad ↦ absurd (ground arith)
    | inr fine ↦
        rw (named, fine)
          (
            all_resolved (strip i) c t s h,
            resolve_rows-Named (strip i) c t (unresolved_checkpoints s) s.events h,
          )
  ]
]
