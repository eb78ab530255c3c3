-- ===== src/Mutations/Active.antt =====
-- The invariant of app/oms/order_mutations.py: one active mutation for an order, and one row for an
-- id, whatever the calls.
use trade_bot.Prelude.{
  true, false, ◌&&◌, none, some, List, [], ◌∷◌, ◌++◌, String, ◌≡◌, refl, arith, inl, inr,
  Bool-cases, str_eq, str_eq_iff,
}
use trade_bot.Mutations.Tables.{
  MutationState, Mutation, Db, find_mutation, update_mutation, has_active, is_active,
}
use trade_bot.Mutations.Lookup.{
  KeepsKey, find_mutation-update_none, find_mutation-append_none, update_absent,
}
use trade_bot.Mutations.Store.{new_mutation, set_row, allows}
use trade_bot.Mutations.Steps.{
  MutationCall, TableStep, same, insert, move, after, run, after-TableStep,
}

-- No two active mutations are of one order.
abbrev pub ActiveOnce : List Mutation → Type 0
ActiveOnce [] = Unit
ActiveOnce (m ∷ ms) = (is_active m.state && has_active m.intent_id ms ≡ false) × ActiveOnce ms

abbrev pub KeysOnce : List Mutation → Type 0
KeysOnce [] = Unit
KeysOnce (m ∷ ms) = (find_mutation m.mutation_id ms ≡ none) × KeysOnce ms

pub record IsSound (ms : List Mutation) : Type 0 where
  pub keys_once : KeysOnce ms
  pub active_once : ActiveOnce ms

-- A move that does not make a settled mutation active again.
abbrev Quiets : (Mutation → Mutation) → Mutation → Type 0
Quiets f m = ((f m).intent_id ≡ m.intent_id) × (is_active m.state ≡ true)

has_active-update :
    (j i : String) (f : Mutation → Mutation) (ms : List Mutation) (m : Mutation)
    → KeysOnce ms
    → find_mutation i ms ≡ some m
    → Quiets f m
    → has_active j ms ≡ false
    → has_active j (update_mutation i f ms) ≡ false
has_active-update j i f [] m once h q idle = refl
has_active-update j i f (x ∷ ms) m once h q idle = elim (Bool-cases (str_eq x.mutation_id i)) [
  | inl e ↦ ground (
    arith,
    str_eq_iff x.intent_id j,
    update_absent i f ms (rw (← (str_eq_iff x.mutation_id i).0 e) once.0),
  )
  | inr ne ↦ ground (arith, has_active-update j i f ms m once.1 (ground arith) q)
]

update-ActiveOnce :
    (i : String) (f : Mutation → Mutation) (ms : List Mutation) (m : Mutation)
    → KeysOnce ms
    → find_mutation i ms ≡ some m
    → Quiets f m
    → ActiveOnce ms
    → ActiveOnce (update_mutation i f ms)
update-ActiveOnce i f [] m once h q a = tt
update-ActiveOnce i f (x ∷ ms) m once h q a = elim (Bool-cases (str_eq x.mutation_id i)) [
  | inl e ↦ ground (arith, update_absent i f ms (rw (← (str_eq_iff x.mutation_id i).0 e) once.0))
  | inr ne ↦ ground (
    arith,
    has_active-update x.intent_id i f ms m once.1 (ground arith) q,
    update-ActiveOnce i f ms m once.1 (ground arith) q a.1,
  )
]

update-KeysOnce :
    (i : String) (f : Mutation → Mutation) (ms : List Mutation)
    → KeepsKey f
    → KeysOnce ms
    → KeysOnce (update_mutation i f ms)
update-KeysOnce i f [] key h = tt
update-KeysOnce i f (x ∷ ms) key h = ground (
  arith,
  key x,
  find_mutation-update_none x.mutation_id i f ms key h.0,
  update-KeysOnce i f ms key h.1,
)

append-KeysOnce :
    (ms : List Mutation) (m : Mutation)
    → KeysOnce ms
    → find_mutation m.mutation_id ms ≡ none
    → KeysOnce (ms ++ m ∷ [])
append-KeysOnce [] m once h = (refl, tt)
append-KeysOnce (x ∷ ms) m once h = ground (
  arith,
  str_eq_iff x.mutation_id m.mutation_id,
  str_eq_iff m.mutation_id x.mutation_id,
  find_mutation-append_none x.mutation_id ms (m ∷ []),
  append-KeysOnce ms m once.1,
)

has_active-append :
    (i : String) (ms : List Mutation) (m : Mutation)
    → has_active i ms ≡ false
    → has_active i (m ∷ []) ≡ false
    → has_active i (ms ++ m ∷ []) ≡ false
has_active-append i [] m h k = k
has_active-append i (x ∷ ms) m h k = ground (arith, has_active-append i ms m)

append-ActiveOnce :
    (ms : List Mutation) (m : Mutation)
    → ActiveOnce ms
    → has_active m.intent_id ms ≡ false
    → ActiveOnce (ms ++ m ∷ [])
append-ActiveOnce [] m once h = (ground arith, tt)
append-ActiveOnce (x ∷ ms) m once h = ground (
  arith,
  str_eq_iff x.intent_id m.intent_id,
  str_eq_iff m.intent_id x.intent_id,
  has_active-append x.intent_id ms m,
  append-ActiveOnce ms m once.1,
)

allows_active : (s t : MutationState) → allows s t ≡ true → is_active s ≡ true
allows_active s t h = ground arith

step-IsSound : {s s' : Db} → TableStep s s' → IsSound s.mutations → IsSound s'.mutations
step-IsSound (same e) h = rw e h
step-IsSound {s} (insert q t valid new idle e) h = rw e (record {
  keys_once = append-KeysOnce s.mutations (new_mutation q t) h.keys_once new;
  active_once = append-ActiveOnce s.mutations (new_mutation q t) h.active_once idle;
})
step-IsSound {s} (move i m target o b t found good e) h = rw e (record {
  keys_once = update-KeysOnce i (set_row target o b t) s.mutations (λ x. refl) h.keys_once;
  active_once =
      update-ActiveOnce i (set_row target o b t) s.mutations m h.keys_once found
        (refl, allows_active m.state target good) h.active_once;
})

-- Whatever the calls, no order has two mutations that are REQUESTED, STARTED or UNCERTAIN, and no
-- id has two rows, where that held before.
pub run_one_active :
    (cs : List MutationCall) (s : Db) → IsSound s.mutations → IsSound (run cs s).mutations
unfolding run
run_one_active [] s h = h
run_one_active (c ∷ cs) s h = run_one_active cs (after c s) (step-IsSound (after-TableStep c s) h)
