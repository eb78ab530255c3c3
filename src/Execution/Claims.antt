-- ===== src/Execution/Claims.antt =====
-- Several workers of app/execution/paper_executor.py over one order store: the claim of an order by
-- its transition to SUBMIT_STARTED, the submission by the worker that has it, and whatever else is
-- done to the store in between.
use trade_bot.Prelude.{
  ℕ, ◌+◌, ◌≤◌, true, false, none, some, List, [], ◌∷◌, ◌++◌, String, str_eq, str_eq_iff,
  contains_text, if◌then◌else◌, ◌≡◌, refl, ap, sym, ◌∙◌, arith, ◌⊎◌, inl, inr, Bool-cases,
  Option-cases,
}
use mathlib.Core.Path.{subst}
use trade_bot.Prelude.Json.{Json}
use trade_bot.Prelude.Clock.{Datetime, aware, naive}
use trade_bot.Prelude.Action.{ok, err, Error, Result-cases, ok_is_no_err}
use trade_bot.Oms.State.{
  OrderState, created, risk_approved, outboxed, submit_started, contains_state, allowed,
  validate_transition,
}
use trade_bot.Oms.Tables.{Oms, OrderRecord, OrderRow, find_order, find_event, get}
use trade_bot.Oms.Orders.{transition}
use trade_bot.Oms.Accepted.{moved, transition_accepted, moved_found}
use trade_bot.Oms.Paths.{StatePath, here, next}
use trade_bot.Oms.Events.{append_event}
use trade_bot.Oms.Steps.{Step, transition-Step}
use trade_bot.Oms.Lookup.{find_order-key}
use trade_bot.Oms.Evolution.{Step-Later}
use trade_bot.Oms.Orders.{advance_row}

-- The order has left the outbox.
abbrev pub HasLeft : OrderState → Type 0
HasLeft s = contains_state s (created ∷ risk_approved ∷ outboxed ∷ []) ≡ false

HasLeft-allowed : (s t : OrderState) → HasLeft s → contains_state t (allowed s) ≡ true → HasLeft t
HasLeft-allowed created t h k = ground arith
HasLeft-allowed _ t h k = ground arith

HasLeft-path : {s t : OrderState} → HasLeft s → StatePath s t → HasLeft t
HasLeft-path h here = h
HasLeft-path h (next {t = u} {u = v} p k) = HasLeft-allowed u v (HasLeft-path h p) k

-- Only the outbox leads to a submission.
started_from_outbox :
    (s : OrderState) → validate_transition s submit_started ≡ ok tt → HasLeft s → ⊥
unfolding validate_transition
started_from_outbox s h k = ground arith

abbrev pub occurrences : String → List String → ℕ
occurrences i [] = 0
occurrences i (j ∷ js) = (if str_eq j i then 1 else 0) + occurrences i js

-- The first of them is taken away.
abbrev pub remove_first : String → List String → List String
remove_first i [] = []
remove_first i (j ∷ js) = let rest = remove_first i js in if str_eq j i then js else j ∷ rest

-- The store, the intents that some worker has claimed and not yet submitted, and the intents of the
-- submissions, in their order.
pub record Submitters : Type 0 where
  pub oms : Oms
  pub held : List String
  pub posted : List String

module _ (digest : Json → String) where
  -- A step of some worker, or of anyone else. The event of a claim is new: its id ends in a `uuid4`.
  pub data Move (s s' : Submitters) : Type 0 where
    claims :
        (i e : String) (t : Datetime) (r : OrderRecord) (oms : Oms)
        → find_event e s.oms.events ≡ none
        → transition digest i submit_started e t none none s.oms ≡ (ok r, oms)
        → s' ≡ record s { oms = oms; held = i ∷ s.held }
        → Move s s'
    posts :
        (i : String)
        → contains_text i s.held ≡ true
        → s' ≡ record s { held = remove_first i s.held; posted = s.posted ++ i ∷ [] }
        → Move s s'
    works : (oms : Oms) → Step s.oms oms → s' ≡ record s { oms = oms } → Move s s'

  pub data Moves : Submitters → Submitters → Type 0 where
    stays : {s : Submitters} → Moves s s
    goes : {s t u : Submitters} → Move s t → Moves t u → Moves s u

occurrences-append :
    (i : String) (xs ys : List String)
    → occurrences i (xs ++ ys) ≡ occurrences i xs + occurrences i ys
occurrences-append i [] ys = omega arith
occurrences-append i (x ∷ xs) ys = omega (arith, occurrences-append i xs ys)

-- What is taken from one list and added to the other is counted once.
occurrences-moved :
    (i j : String) (held posted : List String)
    → contains_text j held ≡ true
    → occurrences i (remove_first j held) + occurrences i (posted ++ j ∷ [])
      ≡ occurrences i held + occurrences i posted
occurrences-moved i j [] posted h = ground arith
occurrences-moved i j (x ∷ held) posted h =
    ground (
      arith,
      str_eq_iff x j,
      occurrences-append i posted (j ∷ []),
      occurrences-moved i j held posted,
    )

-- The store has the order, and it has left the outbox.
abbrev pub Gone : String → Oms → Type 0
Gone i oms = (r : OrderRow) × (find_order i oms.orders ≡ some r) × HasLeft r.state

abbrev pub Counted : String → Oms → ℕ → Type 0
Counted i oms n = (n ≡ 0) ⊎ ((n ≡ 1) × Gone i oms)

-- The intent is unclaimed, or it was claimed once and its order has left the outbox.
abbrev pub Submission : String → Submitters → Type 0
Submission i s = Counted i s.oms (occurrences i s.held + occurrences i s.posted)

at_most_one : (i : String) (s : Submitters) → Submission i s → occurrences i s.posted ≤ 1
at_most_one i s (inl zero) = omega arith
at_most_one i s (inr (one, gone)) = omega arith

Step-Gone : (i : String) {s s' : Oms} → Step s s' → Gone i s → Gone i s'
Step-Gone i step (r, found, left) =
    let (r', found', ev) = Step-Later i r step found in (r', found', HasLeft-path left ev.path)

Step-Counted : (i : String) (n : ℕ) {s s' : Oms} → Step s s' → Counted i s n → Counted i s' n
Step-Counted i n step (inl zero) = inl zero
Step-Counted i n step (inr (one, gone)) = inr (one, Step-Gone i step gone)

module _ (digest : Json → String) where
  claim_refused :
      (i e : String) (t : ℕ) (s : Oms) (q : OrderRow) (x : Error)
      → find_event e s.events ≡ none
      → find_order i s.orders ≡ some q
      → validate_transition q.state submit_started ≡ err x
      → (transition digest i submit_started e (aware t) none none s).0 ≡ err x
  unfolding transition get append_event
  claim_refused i e t s q x fresh found bad = ground arith

  -- A claim that succeeds takes an order that waits in the outbox.
  claim_taken :
      (i e : String) (t : Datetime) (r : OrderRecord) (s s' : Oms)
      → find_event e s.events ≡ none
      → transition digest i submit_started e t none none s ≡ (ok r, s')
      → (q : OrderRow) × (find_order i s.orders ≡ some q)
        × (validate_transition q.state submit_started ≡ ok tt)
        × ((m : ℕ) × (transition digest i submit_started e t none none s ≡ (
          ok (advance_row submit_started q.broker_order_id m q).order,
          moved digest i submit_started e m none none q s,
        )))
  unfolding transition get
  claim_taken i e (naive t) r s s' fresh done = absurd (cc)
  claim_taken i e (aware t) r s s' fresh done = elim (Option-cases (find_order i s.orders)) [
    | inl missing ↦ absurd (ground arith)
    | inr (q, found) ↦ elim (Result-cases (validate_transition q.state submit_started)) [
      | inr (x, bad) ↦
          absurd (ok_is_no_err (ap (λ p. p.0) done) (claim_refused i e t s q x fresh found bad))
      | inl good ↦ (
        q,
        found,
        good,
        (t, transition_accepted digest i submit_started e t none none s q found fresh good),
      )
    ]
  ]

  claim_found :
      (i e : String) (t : Datetime) (r : OrderRecord) (s s' : Oms)
      → find_event e s.events ≡ none
      → transition digest i submit_started e t none none s ≡ (ok r, s')
      → Gone i s'
  claim_found i e t r s s' fresh done =
      let (q, found, good, (m, same)) = claim_taken i e t r s s' fresh done in
      (
        advance_row submit_started q.broker_order_id m q,
        subst (λ x. find_order i x.orders ≡ some (advance_row submit_started q.broker_order_id m q))
            (sym (ap (λ p. p.1) same) ∙ ap (λ p. p.1) done)
            (moved_found digest i submit_started e m none none s q found),
        refl,
      )

  -- The order that the claim returns is the one that was asked for.
  pub claim_order :
      (i e : String) (t : Datetime) (r : OrderRecord) (s s' : Oms)
      → find_event e s.events ≡ none
      → transition digest i submit_started e t none none s ≡ (ok r, s')
      → r.intent_id ≡ i
  claim_order i e t r s s' fresh done =
      let (q, found, good, (m, same)) = claim_taken i e t r s s' fresh done in
      ground (arith, find_order-key i s.orders {r = q} found, done, same)

  claims_once :
      (i e : String) (t : Datetime) (r : OrderRecord) (s s' : Oms) (n : ℕ)
      → find_event e s.events ≡ none
      → transition digest i submit_started e t none none s ≡ (ok r, s')
      → Counted i s n
      → Counted i s' (1 + n)
  claims_once i e t r s s' n fresh done (inl zero) =
      inr (omega arith, claim_found i e t r s s' fresh done)
  claims_once i e t r s s' n fresh done (inr (one, (q, found, left))) =
      let (q', found', good, taken) = claim_taken i e t r s s' fresh done in
      absurd (started_from_outbox q'.state good (ground arith))

  Move-Submission :
      (i : String) {s s' : Submitters} → Move digest s s' → Submission i s → Submission i s'
  Move-Submission i {s} (works oms step e) h =
      rw e (Step-Counted i (occurrences i s.held + occurrences i s.posted) step h)
  Move-Submission i {s} (posts j held e) h = rw (e, occurrences-moved i j s.held s.posted held) h
  Move-Submission i {s} (claims j e t r oms fresh done same) h = elim (Bool-cases (str_eq j i)) [
    | inl mine ↦
        let done' = rw ((str_eq_iff j i).0 mine) at done in
        rw (same, mine)
          (subst (Counted i oms) (omega arith) (
            claims_once i e t r s.oms oms (occurrences i s.held + occurrences i s.posted) fresh
              done' h))
    | inr other ↦
        let step = rw done at (transition-Step digest j submit_started e t none none s.oms) in
        rw (same, other)
          (subst (Counted i oms) (omega arith)
            (Step-Counted i (occurrences i s.held + occurrences i s.posted) step h))
  ]

  Moves-Submission :
      (i : String) {s s' : Submitters} → Moves digest s s' → Submission i s → Submission i s'
  Moves-Submission i stays h = h
  Moves-Submission i (goes move rest) h = Moves-Submission i rest (Move-Submission i move h)

  -- However many workers there are, and however their claims, their submissions and any other steps
  -- of the store follow one another: from a store for which nothing was claimed or submitted, no
  -- intent is submitted more than once.
  pub posted_once :
      (i : String) (oms : Oms) (s : Submitters)
      → Moves digest (record { oms = oms; held = []; posted = [] }) s
      → occurrences i s.posted ≤ 1
  posted_once i oms s moves = at_most_one i s (Moves-Submission i moves (inl (omega arith)))
