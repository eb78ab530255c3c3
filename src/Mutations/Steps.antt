-- ===== src/Mutations/Steps.antt =====
-- What a call on the store of app/oms/order_mutations.py does to the table of mutations.
use trade_bot.Prelude.{
  ℕ, true, false, ◌&&◌, Option, none, some, List, [], ◌∷◌, ◌++◌, String, ◌≡◌, refl, arith, inl, inr,
  Option-cases, Bool-cases, str_eq, is_empty,
}
use trade_bot.Prelude.Clock.{Datetime, aware, naive}
use trade_bot.Prelude.Action.{ok, Result-cases}
use trade_bot.Oms.Tables.{find_order}
use trade_bot.Oms.Orders.{resolve_broker_id}
use trade_bot.Mutations.Tables.{
  MutationState, requested, started, Mutation, Db, find_mutation, update_mutation, has_active,
  mutation_eq,
}
use trade_bot.Mutations.Lookup.{find_mutation-update_self}
use trade_bot.Mutations.Store.{
  Request, request, validate_request, new_mutation, claim_started, set_state, set_row, allows,
  mark_outbox_published,
}

pub data MutationCall : Type 0 where
  ask : Request → Datetime → MutationCall
  claim : String → Datetime → MutationCall
  settle : String → MutationState → String → Datetime → Option String → MutationCall
  published : ℕ → Datetime → MutationCall

-- The database after a call.
unfoldable pub after : MutationCall → Db → Db
after (ask q t) s = (request q t s).1
after (claim i t) s = (claim_started i t s).1
after (settle i target o t b) s = (set_state i target o t b s).1
after (published n t) s = (mark_outbox_published n t s).1

unfoldable pub run : List MutationCall → Db → Db
run [] s = s
run (c ∷ cs) s = run cs (after c s)

pub data TableStep (s s' : Db) : Type 0 where
  same : s'.mutations ≡ s.mutations → TableStep s s'
  insert :
      (q : Request) (t : ℕ)
      → validate_request q ≡ ok tt
      → find_mutation q.mutation_id s.mutations ≡ none
      → has_active q.intent_id s.mutations ≡ false
      → s'.mutations ≡ s.mutations ++ new_mutation q t ∷ []
      → TableStep s s'
  move :
      (i : String) (m : Mutation) (target : MutationState) (o b : String) (t : ℕ)
      → find_mutation i s.mutations ≡ some m
      → allows m.state target ≡ true
      → s'.mutations ≡ update_mutation i (set_row target o b t) s.mutations
      → TableStep s s'

request-TableStep : (q : Request) (t : Datetime) (s : Db) → TableStep s (request q t s).1
unfolding request
request-TableStep q (naive t) s = same (ground arith)
request-TableStep q (aware t) s = elim (Result-cases (validate_request q)) [
  | inr (e, bad) ↦ same (ground arith)
  | inl valid ↦ elim (Option-cases (find_mutation q.mutation_id s.mutations)) [
    | inr (m, there) ↦ same (ground arith)
    | inl new ↦ elim (Bool-cases (has_active q.intent_id s.mutations)) [
      | inl busy ↦ same (ground arith)
      | inr idle ↦ elim (Option-cases (find_order q.intent_id s.orders)) [
        | inl unknown ↦ same (ground arith)
        | inr (r, known) ↦ insert q t valid new idle (ground arith)
      ]
    ]
  ]
]

pub claim-TableStep : (i : String) (t : Datetime) (s : Db) → TableStep s (claim_started i t s).1
unfolding claim_started
claim-TableStep i (naive t) s = same (ground arith)
claim-TableStep i (aware t) s = elim (Option-cases (find_mutation i s.mutations)) [
  | inl missing ↦ same (ground arith)
  | inr (m, found) ↦ elim (Bool-cases (mutation_eq m.state requested)) [
    | inl open_request ↦ move i m started "" m.broker_order_id t found (ground arith) (
        ground (
          arith,
          find_mutation-update_self i (set_row started "" m.broker_order_id t) s.mutations m
              (λ x. refl) found,
        ))
    | inr taken ↦ same (ground arith)
  ]
]

pub settle-TableStep :
    (i : String) (target : MutationState) (o : String) (t : Datetime) (b : Option String) (s : Db)
    → TableStep s (set_state i target o t b s).1
unfolding set_state
settle-TableStep i target o (naive t) b s = same (ground arith)
settle-TableStep i target o (aware t) b s = elim (Option-cases (find_mutation i s.mutations)) [
  | inl missing ↦ same (ground arith)
  | inr (m, found) ↦ elim (Bool-cases (mutation_eq m.state target && str_eq m.outcome o)) [
    | inl again ↦ same (ground arith)
    | inr new ↦ elim (Bool-cases (allows m.state target)) [
      | inr refused ↦ same (ground arith)
      | inl good ↦ elim (Bool-cases (is_empty (resolve_broker_id b m.broker_order_id))) [
        | inl blank ↦ same (ground arith)
        | inr named ↦ move i m target o (resolve_broker_id b m.broker_order_id) t found good (
            ground (
              arith,
              find_mutation-update_self i
                  (set_row target o (resolve_broker_id b m.broker_order_id) t) s.mutations m
                  (λ x. refl) found,
            ))
      ]
    ]
  ]
]

pub published-TableStep :
    (n : ℕ) (t : Datetime) (s : Db) → TableStep s (mark_outbox_published n t s).1
unfolding mark_outbox_published
published-TableStep n t s = same (ground arith)

pub after-TableStep : (c : MutationCall) (s : Db) → TableStep s (after c s)
unfolding after
after-TableStep (ask q t) s = request-TableStep q t s
after-TableStep (claim i t) s = claim-TableStep i t s
after-TableStep (settle i target o t b) s = settle-TableStep i target o t b s
after-TableStep (published n t) s = published-TableStep n t s
