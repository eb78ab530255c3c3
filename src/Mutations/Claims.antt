-- ===== src/Mutations/Claims.antt =====
-- A mutation of app/oms/order_mutations.py is claimed once, and a settled one stays settled.
use trade_bot.Prelude.{
  ℕ, ◌+◌, ◌≤◌, Bool, true, false, Option, none, some, List, [], ◌∷◌, ◌++◌, String, ◌≡◌, refl, arith,
  inl, inr, Option-cases, Bool-cases, str_eq, str_eq_iff, if◌then◌else◌, ◌∙◌,
}
use trade_bot.Prelude.Action.{Result, ok, err}
use trade_bot.Prelude.Clock.{Datetime, aware, naive}
use trade_bot.Mutations.Tables.{
  MutationState, requested, started, Mutation, Db, find_mutation, mutation_eq, is_final,
}
use trade_bot.Mutations.Lookup.{
  find_mutation-update_self, find_mutation-update_ne, find_mutation-append,
}
use trade_bot.Mutations.Store.{claim_started, new_mutation, set_row, allows}
use trade_bot.Mutations.Steps.{
  MutationCall, ask, claim, settle, published, TableStep, same, insert, move, after, run,
  after-TableStep,
}

-- How often the claim of mutation `i` is still to be granted: once, until it is claimed.
abbrev pub open_row : Option Mutation → ℕ
open_row none = 1
open_row (some m) = if mutation_eq m.state requested then 1 else 0

abbrev pub open_claims : String → Db → ℕ
open_claims i s = open_row (find_mutation i s.mutations)

abbrev granted_flag : Result (Mutation × Bool) → ℕ
granted_flag (ok (m, true)) = 1
granted_flag (ok (m, false)) = 0
granted_flag (err e) = 0

-- Whether this call is granted the claim of mutation `i`.
abbrev granted : String → MutationCall → Db → ℕ
granted i (claim j t) s = if str_eq j i then granted_flag (claim_started j t s).0 else 0
granted i _ s = 0

-- How many calls are granted the claim of mutation `i`.
unfoldable pub grants : String → List MutationCall → Db → ℕ
grants i [] s = 0
grants i (c ∷ cs) s = granted i c s + grants i cs (after c s)

pub open_row_bound : (o : Option Mutation) → open_row o ≤ 1
open_row_bound none = omega arith
open_row_bound (some m) = ground arith

-- A move never leads back to REQUESTED, and never leaves a settled state.
allows_requested : (s t : MutationState) → allows s t ≡ true → mutation_eq t requested ≡ false
allows_requested s t h = ground arith

allows_final : (s t : MutationState) → is_final s ≡ true → allows s t ≡ true → ⊥
allows_final s t f h = ground arith

-- A step never opens a claim.
pub step_closes : {s s' : Db} (i : String) → TableStep s s' → open_claims i s' ≤ open_claims i s
step_closes i (same e) = rw e (omega arith)
step_closes {s} i (insert q t valid new idle e) =
    elim (Option-cases (find_mutation i s.mutations)) [
      | inl missing ↦
          rw (e, missing) (open_row_bound (find_mutation i (s.mutations ++ new_mutation q t ∷ [])))
      | inr (m, found) ↦
          rw (e, find_mutation-append i s.mutations (new_mutation q t ∷ []) m found, found)
            (omega arith)
    ]
step_closes {s} i (move j m target o b t found good e) = elim (Bool-cases (str_eq i j)) [
  | inl eq ↦
      rw
        (
          e,
          (str_eq_iff i j).0 eq,
          find_mutation-update_self j (set_row target o b t) s.mutations m (λ x. refl) found,
          allows_requested m.state target good,
        )
        (omega arith)
  | inr ne ↦
      rw
        (
          e,
          find_mutation-update_ne i j (set_row target o b t) s.mutations (λ x. refl)
              (ground (arith, str_eq_iff i j)),
        )
        (omega arith)
]

claim_closes :
    (i j : String) (t : Datetime) (s : Db)
    → str_eq j i ≡ true
    → granted i (claim j t) s + open_claims i (after (claim j t) s) ≤ open_claims i s
unfolding after claim_started
claim_closes i j (naive t) s eq = ground arith
claim_closes i j (aware t) s eq = elim (Option-cases (find_mutation j s.mutations)) [
  | inl missing ↦ ground (arith, str_eq_iff j i)
  | inr (m, found) ↦ elim (Bool-cases (mutation_eq m.state requested)) [
    | inl asked ↦ ground (
      arith,
      str_eq_iff j i,
      find_mutation-update_self j (set_row started "" m.broker_order_id t) s.mutations m (λ x. refl)
          found,
    )
    | inr other ↦ ground (arith, str_eq_iff j i)
  ]
]

call_closes :
    (i : String) (c : MutationCall) (s : Db)
    → granted i c s + open_claims i (after c s) ≤ open_claims i s
call_closes i (claim j t) s = elim (Bool-cases (str_eq j i)) [
  | inl eq ↦ claim_closes i j t s eq
  | inr ne ↦ rw ne (omega (arith, step_closes i (after-TableStep (claim j t) s)))
]
call_closes i (ask q t) s = omega (arith, step_closes i (after-TableStep (ask q t) s))
call_closes i (settle j target o t b) s =
    omega (arith, step_closes i (after-TableStep (settle j target o t b) s))
call_closes i (published n t) s = omega (arith, step_closes i (after-TableStep (published n t) s))

grants-le :
    (i : String) (cs : List MutationCall) (s : Db)
    → grants i cs s + open_claims i (run cs s) ≤ open_claims i s
unfolding grants run
grants-le i [] s = omega arith
grants-le i (c ∷ cs) s = omega (arith, call_closes i c s, grants-le i cs (after c s))

-- Over any calls, in any order, at most one is granted the claim of a mutation.
pub claimed_once : (i : String) (cs : List MutationCall) (s : Db) → grants i cs s ≤ 1
claimed_once i cs s = omega (arith, grants-le i cs s, open_row_bound (find_mutation i s.mutations))

final_refuses :
    (i j : String) (ms : List Mutation) (m n : Mutation) (target : MutationState)
    → str_eq i j ≡ true
    → find_mutation i ms ≡ some m
    → find_mutation j ms ≡ some n
    → is_final m.state ≡ true
    → allows n.state target ≡ true
    → ⊥
final_refuses i j ms m n target eq h found f good =
    let same_key : i ≡ j = (str_eq_iff i j).0 eq in
    let same_row : m ≡ n = cc in allows_final m.state target f (rw same_row good)

step_final :
    {s s' : Db} (i : String) (m : Mutation)
    → TableStep s s'
    → find_mutation i s.mutations ≡ some m
    → is_final m.state ≡ true
    → find_mutation i s'.mutations ≡ some m
step_final i m (same e) h f = rw e h
step_final {s} i m (insert q t valid new idle e) h f =
    rw e (find_mutation-append i s.mutations (new_mutation q t ∷ []) m h)
step_final {s} i m (move j n target o b t found good e) h f = elim (Bool-cases (str_eq i j)) [
  | inl eq ↦ absurd (final_refuses i j s.mutations m n target eq h found f good)
  | inr ne ↦ rw e (
      find_mutation-update_ne i j (set_row target o b t) s.mutations (λ x. refl)
        (ground (arith, str_eq_iff i j))
      ∙ h)
]

-- A mutation that SUCCEEDED or FAILED is never written again.
pub final_mutation_stays :
    (cs : List MutationCall) (s : Db) (i : String) (m : Mutation)
    → find_mutation i s.mutations ≡ some m
    → is_final m.state ≡ true
    → find_mutation i (run cs s).mutations ≡ some m
unfolding run
final_mutation_stays [] s i m h f = h
final_mutation_stays (c ∷ cs) s i m h f =
    final_mutation_stays cs (after c s) i m (step_final i m (after-TableStep c s) h f) f
