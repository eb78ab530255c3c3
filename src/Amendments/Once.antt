-- ===== src/Amendments/Once.antt =====
-- app/execution/order_mutation_executor.py calls a change at the broker only for a claim of its own,
-- so at most once for each mutation.
use trade_bot.Prelude.{
  ℕ, suc, ◌+◌, ◌≤◌, Bool, true, false, Option, none, some, List, [], ◌∷◌, ◌++◌, String, str_eq,
  str_eq_iff, if◌then◌else◌, ◌≡◌, refl, arith, inl, inr, Option-cases, Bool-cases,
}
use trade_bot.Prelude.Decimal.{Decimal}
use trade_bot.Prelude.Clock.{Datetime, aware, naive}
use trade_bot.Prelude.Action.{Action, ok, ◌>>=◌, Given-cases}
use trade_bot.Oms.Tables.{Oms}
use trade_bot.Mutations.Tables.{
  MutationKind, cancel, replace, requested, started, mutation_eq, Mutation, MutationMessage, Db,
  find_mutation, get,
}
use trade_bot.Mutations.Lookup.{find_mutation-update_self, find_mutation-update_ne}
use trade_bot.Mutations.Store.{claim_started, set_row}
use trade_bot.Mutations.Steps.{MutationCall, after, after-TableStep, claim-TableStep}
use trade_bot.Mutations.Claims.{open_claims, open_row_bound, step_closes}
use trade_bot.Amendments.World.{Amendment, Setting, Desk, on_mutations, amend}
use trade_bot.Amendments.Executor.{
  after_amendment, send, attempt_mutation, handle_existing_mutation, after_mutation_claim,
  execute_mutation, reconcile_mutation,
}
use trade_bot.Amendments.Quiet.{KeepsMutations, Quiet}
use trade_bot.Amendments.Recovery.{after_amendment-Quiet, handle_existing-Quiet, reconcile-Quiet}

-- How many calls were for the mutation.
abbrev pub amended : String → List Amendment → ℕ
amended i [] = 0
amended i (a ∷ rest) =
    let later = amended i rest in if str_eq a.mutation_id i then suc later else later

-- 1 where the ids are the same, and 0 else.
abbrev same_id : String → String → ℕ
same_id i j = if str_eq i j then 1 else 0

amended-append :
    (i : String) (rest : List Amendment) (a : Amendment)
    → amended i (rest ++ a ∷ []) ≡ amended i rest + same_id a.mutation_id i
amended-append i [] a = ground arith
amended-append i (b ∷ rest) a = ground (arith, amended-append i rest a)

find_mutation-key :
    (i : String) (ms : List Mutation) (m : Mutation)
    → find_mutation i ms ≡ some m
    → m.mutation_id ≡ i
find_mutation-key i [] m h = ground arith
find_mutation-key i (n ∷ ms) m h =
    ground (arith, find_mutation-key i ms m, str_eq_iff n.mutation_id i)

-- A claim that is granted is of the mutation that was asked for, and closes it.
granted_closes :
    (i j : String) (t : ℕ) (s : Db) (m : Mutation)
    → (claim_started j (aware t) s).0 ≡ ok (m, true)
    → same_id m.mutation_id i + open_claims i (claim_started j (aware t) s).1 ≤ open_claims i s
unfolding claim_started
granted_closes i j t s m h = elim (Option-cases (find_mutation j s.mutations)) [
  | inl missing ↦ absurd (ground (arith))
  | inr (n, found) ↦ elim (Bool-cases (mutation_eq n.state requested)) [
    | inl asked ↦ elim (Bool-cases (str_eq j i)) [
      | inl eq ↦ ground (
        arith,
        str_eq_iff j i,
        find_mutation-key j s.mutations n found,
        find_mutation-update_self j (set_row started "" n.broker_order_id t) s.mutations n
            (λ x. refl) found,
      )
      | inr ne ↦ ground (
        arith,
        find_mutation-key j s.mutations n found,
        find_mutation-update_self j (set_row started "" n.broker_order_id t) s.mutations n
            (λ x. refl) found,
        find_mutation-update_ne i j (set_row started "" n.broker_order_id t) s.mutations (λ x. refl)
            (ground (arith, str_eq_iff i j)),
      )
    ]
    | inr taken ↦ absurd (ground (arith))
  ]
]

module _ {E : Type 0} where
  -- The calls for a mutation and the claims of it that are still to be granted.
  abbrev spent : String → Desk E → ℕ
  spent i w = amended i w.amendments + open_claims i w.mutations

  Quiet-spent :
      {A : Type 0} (m : Action (Desk E) A) (i : String) (w : Desk E)
      → Quiet m
      → spent i (m w).1 ≤ spent i w
  Quiet-spent m i w h = rw (h.calls w) (omega (arith, h.closes i w))

  bind-spent :
      {A B : Type 0} (m : Action (Desk E) A) (f : A → Action (Desk E) B) (i : String) (w : Desk E)
      (bound : ℕ)
      → spent i (m w).1 ≤ bound
      → ((a : A) → (m w).0 ≡ ok a → spent i (f a (m w).1).1 ≤ bound)
      → spent i ((m >>= f) w).1 ≤ bound
  bind-spent m f i w bound first later = elim (Given-cases (m w).0) [
    | inl (a, done) ↦ rw (◌>>=◌, done) (later a done)
    | inr (e, failed_) ↦ rw (◌>>=◌, failed_) first
  ]

module _ {E : Type 0} (setting : Setting E) (kept : KeepsMutations setting.registrar) where
  amend-spent :
      (a : Amendment) (i : String) (w : Desk E)
      → spent i (amend setting.market a w).1 ≤ same_id a.mutation_id i + spent i w
  unfolding amend
  amend-spent a i w = rw (amended-append i w.amendments a) (omega arith)

  send-spent :
      (m : Mutation) (kind : MutationKind) (target : Option Decimal) (i : String) (w : Desk E)
      → spent i (send setting m kind target w).1 ≤ same_id m.mutation_id i + spent i w
  unfolding send
  send-spent m cancel target i w = amend-spent _ i w
  send-spent m replace none i w = omega arith
  send-spent m replace (some price) i w = amend-spent _ i w

  attempt-spent :
      (m : Mutation) (message : MutationMessage) (t : ℕ) (i : String) (w : Desk E)
      → spent i (attempt_mutation setting m message t w).1 ≤ same_id m.mutation_id i + spent i w
  unfolding attempt_mutation
  attempt-spent m message t i w =
      let first = send setting m m.kind m.target_limit_price in
      bind-spent first (after_amendment setting m message t) i w
        (same_id m.mutation_id i + spent i w) (send-spent m m.kind m.target_limit_price i w)
        (λ answer done. omega (
          arith,
          Quiet-spent (after_amendment setting m message t answer) i (first w).1
              (after_amendment-Quiet setting kept m message t answer),
          send-spent m m.kind m.target_limit_price i w,
        ))

  existing-spent :
      (m : Mutation) (message : MutationMessage) (t : ℕ) (i : String) (w : Desk E)
      → spent i (handle_existing_mutation setting m message t w).1 ≤ spent i w
  existing-spent m message t i w =
      Quiet-spent (handle_existing_mutation setting m message t) i w
        (handle_existing-Quiet setting kept m message t)

  -- The worker that the claim is granted to uses it up, whatever the broker answers.
  after_claim-spent :
      (j : String) (message : MutationMessage) (t : ℕ) (i : String) (w : Desk E)
      (claimed : Mutation × Bool)
      → (claim_started j (aware t) (record (w.mutations) { orders = w.oms.orders })).0 ≡ ok claimed
      → spent i
          (after_mutation_claim setting message t claimed
            (on_mutations (claim_started j (aware t)) w).1).1
        ≤ spent i w
  unfolding after_mutation_claim
  after_claim-spent j message t i w (m, true) done = omega (
    arith,
    attempt-spent m message t i (on_mutations (claim_started j (aware t)) w).1,
    granted_closes i j t (record (w.mutations) { orders = w.oms.orders }) m done,
  )
  after_claim-spent j message t i w (m, false) done = omega (
    arith,
    existing-spent m message t i (on_mutations (claim_started j (aware t)) w).1,
    step_closes i (claim-TableStep j (aware t) (record (w.mutations) { orders = w.oms.orders })),
  )

  claimed-spent :
      (j : String) (message : MutationMessage) (t : ℕ) (i : String) (w : Desk E)
      → spent i
          ((on_mutations (claim_started j (aware t)) >>= λ claimed.
              after_mutation_claim setting message t claimed)
            w).1
        ≤ spent i w
  claimed-spent j message t i w =
      bind-spent (on_mutations (claim_started j (aware t))) (after_mutation_claim setting message t)
        i w (spent i w)
        (omega (
          arith,
          step_closes i
              (claim-TableStep j (aware t) (record (w.mutations) { orders = w.oms.orders })),
        ))
        (after_claim-spent j message t i w)

  -- What `execute` does once the mutation was found and may be worked on.
  chosen-spent :
      (b : Bool) (m : Mutation) (message : MutationMessage) (t : ℕ) (i : String) (w : Desk E)
      → spent i
          ((if b
              then (on_mutations (claim_started m.mutation_id (aware t)) >>= λ claimed.
                  after_mutation_claim setting message t claimed)
              else handle_existing_mutation setting m message t)
            w).1
        ≤ spent i w
  chosen-spent true m message t i w = claimed-spent m.mutation_id message t i w
  chosen-spent false m message t i w = existing-spent m message t i w

  execute-spent :
      (message : MutationMessage) (t : Datetime) (i : String) (w : Desk E)
      → spent i (execute_mutation setting message t w).1 ≤ spent i w
  unfolding execute_mutation
  execute-spent message (naive t) i w = omega arith
  execute-spent message (aware t) i w = elim (Option-cases (get message.mutation_id w.mutations)) [
    | inl missing ↦ rw missing (omega arith)
    | inr (m, found) ↦ elim (Bool-cases (str_eq m.intent_id message.intent_id)) [
      | inr other ↦ rw (found, other) (omega arith)
      | inl same ↦ elim (Bool-cases (setting.market.writes_enabled w.outside)) [
        | inr off ↦ rw (found, same, off) (omega arith)
        | inl on ↦
            rw (found, same, on) (chosen-spent (mutation_eq m.state requested) m message t i w)
      ]
    ]
  ]

  -- What is reached by calls of `execute` and `reconcile` in any number and order, and by whatever
  -- calls of the mutation store and changes of the order store in between.
  pub data Reached (w : Desk E) : Desk E → Type 0 where
    at_first : Reached w w
    executes :
        {v : Desk E} (message : MutationMessage) (t : Datetime)
        → Reached w v
        → Reached w (execute_mutation setting message t v).1
    reconciles :
        {v : Desk E} (i : String) (t : Datetime)
        → Reached w v
        → Reached w (reconcile_mutation setting i t v).1
    others :
        {v : Desk E} (c : MutationCall)
        → Reached w v
        → Reached w (record v { mutations = after c v.mutations })
    orders : {v : Desk E} (s : Oms) → Reached w v → Reached w (record v { oms = s })

  Reached-spent : {w v : Desk E} (i : String) → Reached w v → spent i v ≤ spent i w
  Reached-spent i at_first = omega arith
  Reached-spent i (executes {v} message t before) =
      omega (arith, Reached-spent i before, execute-spent message t i v)
  Reached-spent i (reconciles {v} j t before) = omega (
    arith,
    Reached-spent i before,
    Quiet-spent (reconcile_mutation setting j t) i v (reconcile-Quiet setting kept j t),
  )
  Reached-spent i (others {v} c before) =
      omega (arith, Reached-spent i before, step_closes i (after-TableStep c v.mutations))
  Reached-spent i (orders {v} s before) = Reached-spent i before

  -- From a desk without calls, whatever the broker answers: any calls of `execute` and `reconcile`,
  -- and whatever is done to the two stores in between, call a change for a mutation at the broker at
  -- most once, and where one was called the mutation is no more to be claimed. The method that writes
  -- the lineage must leave the table of mutations alone.
  pub amended_once :
      (i : String) (w v : Desk E)
      → w.amendments ≡ []
      → Reached w v
      → (amended i v.amendments ≤ 1) × (1 ≤ amended i v.amendments → open_claims i v.mutations ≡ 0)
  amended_once i w v none_yet reached =
      let none_before : amended i w.amendments ≡ 0 = rw none_yet refl in
      let bound = open_row_bound (find_mutation i w.mutations.mutations) in
      (
        omega (arith, Reached-spent i reached, bound, none_before),
        λ called. omega (arith, Reached-spent i reached, bound, none_before, called),
      )
