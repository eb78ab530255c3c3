-- ===== src/Execution/Once.antt =====
-- `execute` of app/execution/paper_executor.py is a run of the workers of Execution/Claims: it
-- submits an order only after its own claim, and once.
use trade_bot.Prelude.{
  ℕ, ◌≤◌, Bool, true, false, none, some, List, [], ◌∷◌, ◌++◌, String, str_eq_refl, Option-cases,
  Bool-cases, if◌then◌else◌, ◌≡◌, refl, sym, arith, inl, inr,
}
use mathlib.Core.Path.{subst}
use trade_bot.Prelude.Json.{Json}
use trade_bot.Prelude.Clock.{Datetime, aware, naive}
use trade_bot.Prelude.Action.{Action, Result, ok, err, ◌>>=◌, Given-cases}
use trade_bot.Oms.State.{outboxed, submit_started, state_eq}
use trade_bot.Oms.Tables.{Oms, OrderRecord, OutboxRow, OrderRow, find_order, find_event, get}
use trade_bot.Oms.Orders.{transition}
use trade_bot.Oms.Runs.{Steps, stop, go, Steps-IsSound, Steps-Later}
use trade_bot.Oms.Steps.{Step, transition-Step}
use trade_bot.Oms.Soundness.{IsSound}
use trade_bot.Oms.Evolution.{Later}
use trade_bot.Execution.World.{Texts, Outside, World, Post, attempt}
use trade_bot.Execution.Submit.{
  after_submission, after_refused_claim, claim_event, post_of, execution_convergence_gate, dispatch,
  post, attempt_submit, before_claim, claim, after_claim, execute_outboxed, handle_existing,
  execute,
}
use trade_bot.Execution.Claims.{
  Submitters, Move, Moves, claims, posts, works, stays, goes, claim_order, occurrences, posted_once,
}
use trade_bot.Execution.Works.{Works, idle-Works, Steps-join}
use trade_bot.Execution.Unposted.{
  after_submission-Works, handle_existing-Works, after_refused_claim-Works,
}

-- The intents of the submissions.
abbrev pub intents : List Post → List String
intents [] = []
intents (p ∷ ps) = p.intent_id ∷ intents ps

intents-append :
    (ps : List Post) (p : Post) → intents (ps ++ p ∷ []) ≡ intents ps ++ p.intent_id ∷ []
intents-append [] p = refl
intents-append (q ∷ ps) p = rw (intents-append ps p) refl

module _ {E : Type 0} where
  -- What the workers see of the world, with the claims that are not yet used.
  abbrev pub seen : World E → List String → Submitters
  seen w held = record { oms = w.oms; held = held; posted = intents w.posts }

module _ (digest : Json → String) where
  Moves-join : {s t u : Submitters} → Moves digest s t → Moves digest t u → Moves digest s u
  Moves-join stays more = more
  Moves-join (goes move rest) more = goes move (Moves-join rest more)

  Steps-Moves :
      (held posted : List String) {s t : Oms}
      → Steps s t
      → Moves digest
          (record { oms = s; held = held; posted = posted })
          (record { oms = t; held = held; posted = posted })
  Steps-Moves held posted stop = stays
  Steps-Moves held posted (go {t = t} step rest) =
      goes (works t step refl) (Steps-Moves held posted rest)

module _ {E : Type 0} (texts : Texts) (shared : Bool) (outside : Outside E) (grace : ℕ) where
  Works-Moves :
      {A : Type 0} (m : Action (World E) A) (held : List String) (w : World E)
      → Works m
      → Moves texts.digest (seen w held) (seen (m w).1 held)
  Works-Moves m held w h =
      subst
        (λ ps.
          Moves texts.digest (seen w held)
            (record { oms = (m w).1.oms; held = held; posted = intents ps }))
        (sym (h.quiet w)) (Steps-Moves texts.digest held (intents w.posts) (h.steps w))

  -- The submission uses the claim up.
  attempt_submit-Moves :
      (r : OrderRecord) (m : OutboxRow) (t : ℕ) (w : World E)
      → Moves texts.digest
          (seen w (r.intent_id ∷ []))
          (seen (attempt_submit texts shared outside grace r m t w).1 [])
  unfolding attempt_submit post
  attempt_submit-Moves r m t w =
      let (answer, e) = outside.submit (post_of r) w.outside in
      let w' : World E = record w { outside = e; posts = w.posts ++ post_of r ∷ [] } in
      goes {t = seen w' []}
        (posts r.intent_id (rw (str_eq_refl r.intent_id) refl)
          (rw (str_eq_refl r.intent_id, intents-append w.posts (post_of r)) refl))
        (Works-Moves (after_submission texts shared outside grace r m t answer) [] w'
          (after_submission-Works texts shared outside grace r m t answer))

  after_claim-Moves :
      (m : OutboxRow) (t : ℕ) (i : String) (token : String) (w : World E)
      → find_event (claim_event m token) w.oms.events ≡ none
      → (p : Result OrderRecord × Oms)
      → transition texts.digest i submit_started (claim_event m token) (aware t) none none w.oms ≡ p
      → Moves texts.digest
          (seen w [])
          (seen (after_claim texts shared outside grace m t p.0 (record w { oms = p.1 })).1 [])
  unfolding after_claim
  after_claim-Moves m t i token w fresh (ok r, s) done =
      goes {t = seen (record w { oms = s }) (r.intent_id ∷ [])}
        (claims i (claim_event m token) (aware t) r s fresh done (
          rw (claim_order texts.digest i (claim_event m token) (aware t) r w.oms s fresh done)
            refl))
        (attempt_submit-Moves r m t (record w { oms = s }))
  after_claim-Moves m t i token w fresh (err e, s) done =
      goes {t = seen (record w { oms = s }) []}
        (works s
          (rw done at (
            transition-Step texts.digest i submit_started (claim_event m token) (aware t) none none
              w.oms))
          refl)
        (Works-Moves (after_refused_claim texts shared outside grace m t e) []
          (record w { oms = s }) (after_refused_claim-Works texts shared outside grace m t e))

  -- The checks before the claim write to neither the store nor the log of submissions.
  before_claim-oms :
      (r : OrderRecord) (m : OutboxRow) (t : ℕ) (w : World E)
      → ((before_claim texts shared outside grace r m t w).1.oms ≡ w.oms)
        × ((before_claim texts shared outside grace r m t w).1.posts ≡ w.posts)
  unfolding before_claim execution_convergence_gate dispatch
  before_claim-oms r m t w = ground arith

  bind-Moves :
      {A B : Type 0} (m : Action (World E) A) (f : A → Action (World E) B) (w : World E)
      → Moves texts.digest (seen w []) (seen (m w).1 [])
      → ((a : A) → Moves texts.digest (seen (m w).1 []) (seen (f a (m w).1).1 []))
      → Moves texts.digest (seen w []) (seen ((m >>= f) w).1 [])
  bind-Moves m f w first later = elim (Given-cases (m w).0) [
    | inl (a, done) ↦ rw (◌>>=◌, done) (Moves-join texts.digest first (later a))
    | inr (e, failed) ↦ rw (◌>>=◌, failed) first
  ]

  before_claim-Moves :
      (r : OrderRecord) (m : OutboxRow) (t : ℕ) (w : World E)
      → Moves texts.digest (seen w []) (seen (before_claim texts shared outside grace r m t w).1 [])
  before_claim-Moves r m t w = Works-Moves (before_claim texts shared outside grace r m t) [] w (
      idle-Works (before_claim texts shared outside grace r m t) (λ v. (before_claim-oms r m t v).0)
        (λ v. (before_claim-oms r m t v).1))

  outboxed-Moves :
      (r : OrderRecord) (m : OutboxRow) (token : String) (t : ℕ) (w : World E)
      → find_event (claim_event m token) w.oms.events ≡ none
      → Moves texts.digest
          (seen w [])
          (seen (execute_outboxed texts shared outside grace r m token t w).1 [])
  unfolding execute_outboxed
  outboxed-Moves r m token t w fresh =
      let w' = (before_claim texts shared outside grace r m t w).1 in
      bind-Moves (before_claim texts shared outside grace r m t)
        (λ _. attempt (claim texts shared outside grace r m token t) >>= λ claimed.
          after_claim texts shared outside grace m t claimed)
        w (before_claim-Moves r m t w)
        (λ _.
          after_claim-Moves m t r.intent_id token w' (rw (before_claim-oms r m t w).0 fresh)
            (transition texts.digest r.intent_id submit_started (claim_event m token) (aware t) none
              none w'.oms)
            refl)

  existing-Moves :
      (r : OrderRecord) (m : OutboxRow) (t : ℕ) (w : World E)
      → Moves texts.digest
          (seen w [])
          (seen (handle_existing texts shared outside grace r m t w).1 [])
  existing-Moves r m t w =
      Works-Moves (handle_existing texts shared outside grace r m t) [] w
        (handle_existing-Works texts shared outside grace r m t)

  chosen-Moves :
      (b : Bool) (r : OrderRecord) (m : OutboxRow) (token : String) (t : ℕ) (w : World E)
      → find_event (claim_event m token) w.oms.events ≡ none
      → Moves texts.digest (seen w []) (
          seen
            ((if b
                then execute_outboxed texts shared outside grace r m token t
                else handle_existing texts shared outside grace r m t)
              w).1
            [])
  chosen-Moves true r m token t w fresh = outboxed-Moves r m token t w fresh
  chosen-Moves false r m token t w fresh = existing-Moves r m t w

  -- Whatever the broker answers, and whether the call returns or raises: where the event of its claim
  -- is new, `execute` is a run of a worker that claims an order before it submits it, once for each
  -- claim, and is left with no claim.
  pub execute-Moves :
      (m : OutboxRow) (token : String) (t : Datetime) (w : World E)
      → find_event (claim_event m token) w.oms.events ≡ none
      → Moves texts.digest (seen w []) (seen (execute texts shared outside grace m token t w).1 [])
  unfolding execute
  execute-Moves m token (naive t) w fresh = stays
  execute-Moves m token (aware t) w fresh = elim (Option-cases (get m.intent_id w.oms)) [
    | inl missing ↦ rw missing stays
    | inr (r, found) ↦ elim (Bool-cases (outside.writes_enabled w.outside)) [
      | inr off ↦ rw (found, off) stays
      | inl on ↦ rw (found, on) (chosen-Moves (state_eq r.state outboxed) r m token t w fresh)
    ]
  ]

  -- What is reached from a world by calls of `execute` in any number, each with a `uuid4` that makes
  -- the event of its claim new, and by whatever steps of the order store in between.
  pub data Reached (w : World E) : World E → Type 0 where
    at_first : Reached w w
    executes :
        {v : World E} (m : OutboxRow) (token : String) (t : Datetime)
        → Reached w v
        → find_event (claim_event m token) v.oms.events ≡ none
        → Reached w (execute texts shared outside grace m token t v).1
    others : {v : World E} (s : Oms) → Reached w v → Step v.oms s → Reached w (record v { oms = s })

  Reached-Moves : {w v : World E} → Reached w v → Moves texts.digest (seen w []) (seen v [])
  Reached-Moves at_first = stays
  Reached-Moves (executes {v} m token t before fresh) =
      Moves-join texts.digest (Reached-Moves before) (execute-Moves m token t v fresh)
  Reached-Moves (others {v} s before step) =
      Moves-join texts.digest (Reached-Moves before) (goes (works s step refl) stays)

  -- From a world without submissions, any calls of `execute` and any steps of the order store in
  -- between, whatever the broker answers, submit no intent more than once.
  pub submitted_once :
      (i : String) (w v : World E)
      → w.posts ≡ []
      → Reached w v
      → occurrences i (intents v.posts) ≤ 1
  submitted_once i w v none_yet reached = posted_once texts.digest i w.oms (seen v []) (
      subst
        (λ ps.
          Moves texts.digest (record { oms = w.oms; held = []; posted = intents ps }) (seen v []))
        none_yet (Reached-Moves reached))

  Move-Steps : {s t : Submitters} → Move texts.digest s t → Steps s.oms t.oms
  Move-Steps {s} (claims i e t r oms fresh done same) =
      rw same
        (go (rw done at (transition-Step texts.digest i submit_started e t none none s.oms)) stop)
  Move-Steps {s} (posts i held same) = rw same stop
  Move-Steps {s} (works oms step same) = rw same (go step stop)

  Moves-Steps : {s t : Submitters} → Moves texts.digest s t → Steps s.oms t.oms
  Moves-Steps stays = stop
  Moves-Steps (goes move rest) = Steps-join (Move-Steps move) (Moves-Steps rest)

  -- Where the event of its claim is new, `execute` keeps the invariant of the order store, and leaves
  -- every order in it as a later version of itself, whatever the broker answers and whether the call
  -- returns or raises.
  pub execute-IsSound :
      (m : OutboxRow) (token : String) (t : Datetime) (w : World E)
      → find_event (claim_event m token) w.oms.events ≡ none
      → IsSound w.oms
      → IsSound (execute texts shared outside grace m token t w).1.oms
        × ((i : String) (r : OrderRow)
            → find_order i w.oms.orders ≡ some r
            → Later i r (execute texts shared outside grace m token t w).1.oms)
  execute-IsSound m token t w fresh sound =
      let steps = Moves-Steps (execute-Moves m token t w fresh) in
      (Steps-IsSound steps sound, λ i r found. Steps-Later i r steps found)
