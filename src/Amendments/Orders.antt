-- ===== src/Amendments/Orders.antt =====
-- app/execution/order_mutation_executor.py keeps the order store of app/oms/store.py sound.
use trade_bot.Prelude.{
  ℕ, Bool, true, false, Option, none, some, String, str_eq, if◌then◌else◌, ◌≡◌, inl, inr,
  Option-cases, Bool-cases,
}
use trade_bot.Prelude.Decimal.{Decimal}
use trade_bot.Prelude.Clock.{Datetime, aware, naive}
use trade_bot.Prelude.Action.{Action, ◌>>=◌, Given-cases}
use trade_bot.Oms.Tables.{OrderRow, find_order}
use trade_bot.Oms.Runs.{Steps, stop, Steps-IsSound, Steps-Later}
use trade_bot.Oms.Soundness.{IsSound}
use trade_bot.Oms.Evolution.{Later}
use trade_bot.Mutations.Tables.{
  MutationKind, cancel, replace, requested, mutation_eq, Mutation, MutationMessage, get,
}
use trade_bot.Mutations.Store.{claim_started}
use trade_bot.Execution.World.{Submission}
use trade_bot.Execution.Works.{Steps-join}
use trade_bot.Amendments.World.{Setting, Desk, on_mutations, amend}
use trade_bot.Amendments.Executor.{
  after_amendment, send, attempt_mutation, handle_existing_mutation, after_mutation_claim,
  execute_mutation, reconcile_mutation,
}
use trade_bot.Amendments.Quiet.{KeepsMutations}
use trade_bot.Amendments.Recovery.{after_amendment-Quiet, handle_existing-Quiet, reconcile-Quiet}

-- The method only makes steps of the order store.
record Stepping {E A : Type 0} (m : Action (Desk E) A) : Type 0 where
  at : (w : Desk E) → Steps w.oms (m w).1.oms

bind-Stepping :
    {E A B : Type 0} (m : Action (Desk E) A) (f : A → Action (Desk E) B)
    → Stepping m
    → ((a : A) → Stepping (f a))
    → Stepping (m >>= f)
bind-Stepping m f first later = record {
  at = λ w. elim (Given-cases (m w).0) [
    | inl (a, done) ↦ rw (◌>>=◌, done) (Steps-join (first.at w) ((later a).at (m w).1))
    | inr (e, failed_) ↦ rw (◌>>=◌, failed_) (first.at w)
  ];
}

if-Stepping :
    {E A : Type 0} (b : Bool) (m n : Action (Desk E) A)
    → Stepping m
    → Stepping n
    → Stepping (if b then m else n)
if-Stepping true m n h k = h
if-Stepping false m n h k = k

module _ {E : Type 0} (setting : Setting E) (kept : KeepsMutations setting.registrar) where
  send-Stepping :
      (m : Mutation) (kind : MutationKind) (target : Option Decimal)
      → Stepping (send setting m kind target)
  unfolding send amend
  send-Stepping m cancel target = record { at = λ w. stop }
  send-Stepping m replace none = record { at = λ w. stop }
  send-Stepping m replace (some price) = record { at = λ w. stop }

  after_amendment-Stepping :
      (m : Mutation) (message : MutationMessage) (t : ℕ) (answer : Submission)
      → Stepping (after_amendment setting m message t answer)
  after_amendment-Stepping m message t answer = record {
    at = (after_amendment-Quiet setting kept m message t answer).steps;
  }

  attempt-Stepping :
      (m : Mutation) (message : MutationMessage) (t : ℕ)
      → Stepping (attempt_mutation setting m message t)
  unfolding attempt_mutation
  attempt-Stepping m message t = search (bind-Stepping, send-Stepping, after_amendment-Stepping)

  existing-Stepping :
      (m : Mutation) (message : MutationMessage) (t : ℕ)
      → Stepping (handle_existing_mutation setting m message t)
  existing-Stepping m message t = record {
    at = (handle_existing-Quiet setting kept m message t).steps;
  }

  after_claim-Stepping :
      (message : MutationMessage) (t : ℕ) (claimed : Mutation × Bool)
      → Stepping (after_mutation_claim setting message t claimed)
  unfolding after_mutation_claim
  after_claim-Stepping message t (m, owned) =
      search (if-Stepping, attempt-Stepping, existing-Stepping)

  claim-Stepping :
      (i : String) (t : ℕ) → Stepping {E = E} (on_mutations (claim_started i (aware t)))
  claim-Stepping i t = record { at = λ w. stop }

  chosen-Stepping :
      (b : Bool) (m : Mutation) (message : MutationMessage) (t : ℕ)
      → Stepping (
          if b
          then (on_mutations (claim_started m.mutation_id (aware t)) >>= λ claimed.
              after_mutation_claim setting message t claimed)
          else handle_existing_mutation setting m message t)
  chosen-Stepping b m message t =
      search (if-Stepping, bind-Stepping, claim-Stepping, after_claim-Stepping, existing-Stepping)

  execute-Steps :
      (message : MutationMessage) (t : Datetime) (w : Desk E)
      → Steps w.oms (execute_mutation setting message t w).1.oms
  unfolding execute_mutation
  execute-Steps message (naive t) w = stop
  execute-Steps message (aware t) w = elim (Option-cases (get message.mutation_id w.mutations)) [
    | inl missing ↦ rw missing stop
    | inr (m, found) ↦ elim (Bool-cases (str_eq m.intent_id message.intent_id)) [
      | inr other ↦ rw (found, other) stop
      | inl same ↦ elim (Bool-cases (setting.market.writes_enabled w.outside)) [
        | inr off ↦ rw (found, same, off) stop
        | inl on ↦
            rw (found, same, on)
              ((chosen-Stepping (mutation_eq m.state requested) m message t).at w)
      ]
    ]
  ]

  -- What is reached by calls of `execute` and `reconcile`, in any number and order.
  pub data Served (w : Desk E) : Desk E → Type 0 where
    at_first : Served w w
    executes :
        {v : Desk E} (message : MutationMessage) (t : Datetime)
        → Served w v
        → Served w (execute_mutation setting message t v).1
    reconciles :
        {v : Desk E} (i : String) (t : Datetime)
        → Served w v
        → Served w (reconcile_mutation setting i t v).1

  Served-Steps : {w v : Desk E} → Served w v → Steps w.oms v.oms
  Served-Steps at_first = stop
  Served-Steps (executes {v} message t before) =
      Steps-join (Served-Steps before) (execute-Steps message t v)
  Served-Steps (reconciles {v} i t before) =
      Steps-join (Served-Steps before) ((reconcile-Quiet setting kept i t).steps v)

  -- Any calls of `execute` and `reconcile`, returned or raised and whatever the broker answers, keep
  -- the invariant of the order store and leave every order in it as a later version of itself. The
  -- method that writes the lineage must leave the table of mutations alone.
  pub Served-IsSound :
      (w v : Desk E)
      → IsSound w.oms
      → Served w v
      → IsSound v.oms
        × ((i : String) (r : OrderRow) → find_order i w.oms.orders ≡ some r → Later i r v.oms)
  Served-IsSound w v sound served =
      let steps = Served-Steps served in
      (Steps-IsSound steps sound, λ i r found. Steps-Later i r steps found)
