-- ===== src/Portfolio/Rebuild.antt =====
-- The journal of app/portfolio/store.py rebuilds the ledger of app/portfolio/ledger.py.
use trade_bot.Prelude.{
  Bool, true, List, [], ◌∷◌, ◌++◌, String, ◌≡◌, refl, arith, inl, inr, str_append,
}
use trade_bot.Prelude.Decimal.{Decimal}
use trade_bot.Prelude.Clock.{Datetime, aware, naive, is_aware}
use trade_bot.Prelude.Action.{Result, ok, err, Given-cases}
use trade_bot.Domain.{Fill}
use trade_bot.Portfolio.Ledger.{Ledger, open_ledger, apply_fill}
use trade_bot.Portfolio.Journal.{
  PortfolioEvent, fill_event, JournalRow, Journal, add_row, append, strict_append, append_fill,
  fill_payload, replayed_fill, apply_row, apply_rows, kept, replay,
}

-- What `replay` gives, followed by one more step.
abbrev pub then_step : Result Ledger → (Ledger → Result Ledger) → Result Ledger
then_step (err e) step = err e
then_step (ok l) step = step l

apply_rows-snoc :
    (rs : List JournalRow) (r : JournalRow) (l : Ledger)
    → apply_rows (rs ++ r ∷ []) l ≡ then_step (apply_rows rs l) (λ m. kept (apply_row r m))
unfolding apply_rows
apply_rows-snoc [] r l = ground arith
apply_rows-snoc (q ∷ rs) r l = elim (Given-cases (kept (apply_row q l))) [
  | inl (m, applied) ↦ rw (apply_rows, applied) (apply_rows-snoc rs r m)
  | inr (e, raised) ↦ rw (apply_rows, raised) refl
]

replay-add_row :
    (c : Decimal) (r : JournalRow) (s : Journal)
    → replay c (add_row r s) ≡ then_step (replay c s) (λ m. kept (apply_row r m))
unfolding replay
replay-add_row c r s = elim (Given-cases (open_ledger c)) [
  | inl (l, opened) ↦ rw (replay, opened) (apply_rows-snoc s.rows r l)
  | inr (e, raised) ↦ rw (replay, raised) refl
]

-- The row of a fill, and the fill that is read back from it.
abbrev fill_row : Fill → JournalRow
fill_row f = record {
  event_id = str_append "fill:" f.fill_id;
  event = fill_event (fill_payload f);
  occurred_at = elim f.occurred_at [ aware t ↦ t | naive t ↦ t ];
}

read_back :
    (f : Fill)
    → is_aware f.occurred_at ≡ true
    → replayed_fill (fill_payload f) (fill_row f).occurred_at ≡ f
read_back f h = ground arith

appended_row :
    (f : Fill) (s : Journal)
    → (append_fill append f s).0 ≡ ok true
    → ((append_fill append f s).1 ≡ add_row (fill_row f) s) × (is_aware f.occurred_at ≡ true)
unfolding append_fill append
appended_row f s h = (ground arith, ground arith)

-- Where `append_fill` reports a new event, the ledger that is replayed from the journal is the
-- ledger replayed before, with the fill applied; where that ledger or the fill raises, so does it.
pub replay-append_fill :
    (c : Decimal) (f : Fill) (s : Journal)
    → (append_fill append f s).0 ≡ ok true
    → replay c (append_fill append f s).1 ≡ then_step (replay c s) (λ l. kept (apply_fill f l))
unfolding apply_row
replay-append_fill c f s h =
    let (stored, dated) = appended_row f s h in
    rw (stored, replay-add_row c (fill_row f) s, read_back f dated) refl

-- An `_append` of the strict store that returns does what the plain one does; it only raises more.
pub strict_append-append :
    (e : String) (v : PortfolioEvent) (t : Datetime) (s : Journal) {b : Bool}
    → (strict_append e v t s).0 ≡ ok b
    → strict_append e v t s ≡ append e v t s
unfolding strict_append append
strict_append-append e v t s h = ground arith
