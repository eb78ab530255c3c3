-- ===== src/Execution/Journaled.antt =====
-- The event of a fact in the journal of app/portfolio/store.py and app/portfolio/strict.py, after an
-- append.
use trade_bot.Prelude.{
  ℕ, Bool, true, false, ◌&&◌, ◌==◌, none, some, List, [], ◌∷◌, ◌++◌, String, str_append, str_eq,
  is_blank, str_eq_refl, ◌≡◌, ◌⊎◌, refl, arith, inl, inr, Option-cases, Bool-cases,
}
use trade_bot.Prelude.Decimal.{Decimal, dec_same}
use trade_bot.Prelude.Clock.{Datetime, aware, naive}
use trade_bot.Prelude.Action.{ok}
use trade_bot.Domain.{Side, side_eq}
use trade_bot.Portfolio.Journal.{
  Journal, JournalRow, PortfolioEvent, fill_event, adjustment_event, split_event, dividend_event,
  append, strict_append, find_row, fill_payload, event_same, identical,
}
use trade_bot.Execution.Facts.{ExecutionFact, fill_of_fact}
use trade_bot.Execution.Accounting.{Accounting}

-- The event is a fill with the values of the fact.
abbrev pub is_fill_of : ExecutionFact → PortfolioEvent → Bool
is_fill_of f (fill_event p) =
    str_eq p.fill_id f.execution_fact_id
    && str_eq p.order_intent_id f.intent_id
    && str_eq p.symbol f.symbol
    && side_eq p.side f.side
    && dec_same p.quantity f.quantity
    && dec_same p.price f.price
    && dec_same p.fee f.fee
is_fill_of f _ = false

abbrev pub is_dated : Datetime → ℕ → Bool
is_dated (aware t) n = n == t
is_dated (naive t) n = false

abbrev pub fill_key : ExecutionFact → String
fill_key f = str_append "fill:" f.execution_fact_id

-- Under the id of the fact the journal has a fill with the values of the fact, at the time.
abbrev pub HasFill : ExecutionFact → Datetime → Journal → Type 0
HasFill f t j =
    (r : JournalRow) × (find_row (fill_key f) j.rows ≡ some r)
    × (is_fill_of f r.event ≡ true)
    × (is_dated t r.occurred_at ≡ true)

-- The store of the portfolio is the strict one, or the plain one and the id is new to its journal.
abbrev pub TakesFill : Accounting → ExecutionFact → Journal → Type 0
TakesFill a f j =
    (a.portfolio_append ≡ strict_append)
    ⊎ ((a.portfolio_append ≡ append) × (find_row (fill_key f) j.rows ≡ none))

find_row-append_new :
    (e : String) (rows : List JournalRow) (r : JournalRow)
    → find_row e rows ≡ none
    → str_eq r.event_id e ≡ true
    → find_row e (rows ++ r ∷ []) ≡ some r
find_row-append_new e [] r new h = ground arith
find_row-append_new e (x ∷ rows) r new h = ground (arith, find_row-append_new e rows r)

dec_same_refl : (d : Decimal) → dec_same d d ≡ true
dec_same_refl d = ground arith

side_eq_refl : (s : Side) → side_eq s s ≡ true
side_eq_refl s = ground arith

same_event-is_fill_of :
    (f : ExecutionFact) (v : PortfolioEvent)
    → event_same v (fill_event (fill_payload (fill_of_fact f))) ≡ true
    → is_fill_of f v ≡ true
unfolding event_same
same_event-is_fill_of f (fill_event p) h = h
same_event-is_fill_of f (adjustment_event i d k) h = absurd (ground arith)
same_event-is_fill_of f (split_event i s d) h = absurd (ground arith)
same_event-is_fill_of f (dividend_event i s d) h = absurd (ground arith)

fill_payload-is_fill_of :
    (f : ExecutionFact) → is_fill_of f (fill_event (fill_payload (fill_of_fact f))) ≡ true
fill_payload-is_fill_of f =
    rw
      (
        str_eq_refl f.execution_fact_id,
        str_eq_refl f.intent_id,
        str_eq_refl f.symbol,
        side_eq_refl f.side,
        dec_same_refl f.quantity,
        dec_same_refl f.price,
        dec_same_refl f.fee,
      )
      refl

abbrev pub event_of : ExecutionFact → PortfolioEvent
event_of f = fill_event (fill_payload (fill_of_fact f))

append-HasFill :
    (f : ExecutionFact) (t : Datetime) (j : Journal) (x : Bool)
    → find_row (fill_key f) j.rows ≡ none
    → (append (fill_key f) (event_of f) t j).0 ≡ ok x
    → HasFill f t (append (fill_key f) (event_of f) t j).1
unfolding append
append-HasFill f (naive t) j x new h = absurd (ground arith)
append-HasFill f (aware t) j x new h = elim (Bool-cases (is_blank (fill_key f))) [
  | inl blank ↦ absurd (ground arith)
  | inr named ↦
      let r : JournalRow = record { event_id = fill_key f; event = event_of f; occurred_at = t } in
      rw (named, new)
        (
          r,
          find_row-append_new (fill_key f) j.rows r new (str_eq_refl (fill_key f)),
          fill_payload-is_fill_of f,
          ground arith,
        )
]

strict_append-HasFill :
    (f : ExecutionFact) (t : Datetime) (j : Journal) (x : Bool)
    → (strict_append (fill_key f) (event_of f) t j).0 ≡ ok x
    → HasFill f t (strict_append (fill_key f) (event_of f) t j).1
unfolding strict_append
strict_append-HasFill f (naive t) j x h = absurd (ground arith)
strict_append-HasFill f (aware t) j x h = elim (Bool-cases (is_blank (fill_key f))) [
  | inl blank ↦ absurd (ground arith)
  | inr named ↦ elim (Option-cases (find_row (fill_key f) j.rows)) [
    | inl new ↦
        let r : JournalRow = record {
          event_id = fill_key f;
          event = event_of f;
          occurred_at = t;
        } in
        rw (named, new)
          (
            r,
            find_row-append_new (fill_key f) j.rows r new (str_eq_refl (fill_key f)),
            fill_payload-is_fill_of f,
            ground arith,
          )
    | inr (r, taken) ↦ elim (Bool-cases (identical r (event_of f) t)) [
      | inr other ↦ absurd (ground arith)
      | inl same ↦
          rw (named, taken, same)
            (r, taken, same_event-is_fill_of f r.event (ground arith), ground arith)
    ]
  ]
]

pub TakesFill-HasFill :
    (a : Accounting) (f : ExecutionFact) (j : Journal) (x : Bool)
    → TakesFill a f j
    → (a.portfolio_append (fill_key f) (event_of f) f.occurred_at j).0 ≡ ok x
    → HasFill f f.occurred_at (a.portfolio_append (fill_key f) (event_of f) f.occurred_at j).1
TakesFill-HasFill a f j x (inl strict) h =
    rw strict (strict_append-HasFill f f.occurred_at j x (rw strict at h))
TakesFill-HasFill a f j x (inr (plain, new)) h =
    rw plain (append-HasFill f f.occurred_at j x new (rw plain at h))
