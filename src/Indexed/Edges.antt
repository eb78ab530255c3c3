-- ===== src/Indexed/Edges.antt =====
-- The lineage of broker ids of app/oms/indexed.py: each id leads back to a primary id of its order,
-- and what was registered stays registered.
use trade_bot.Prelude.{
  ℕ, ◌+◌, Bool, true, false, Option, none, some, List, [], ◌∷◌, ◌++◌, String, str_eq, str_eq_iff,
  str_eq_refl, if◌then◌else◌, ◌≡◌, refl, sym, ◌∙◌, ◌⊎◌, inl, inr, arith, Option-cases, Bool-cases,
}
use trade_bot.Prelude.Action.{
  Action, Result, ok, Error, value_error, ◌>>=◌, pure, raise, raise_if, gets, lift, transaction,
  Given-cases,
}
use trade_bot.Oms.Tables.{OrderRow, find_order}
use trade_bot.Mutations.Tables.{BrokerIdentity, Db}
use trade_bot.Indexed.Lineage.{
  Succession, find_identity, primary_of, identities, add_identity, primary_row, initialize_row,
  source_new, source_from, initialize_rows, with_broker_id, initialize_broker_order_lineage,
  source_generation, is_taken, same_edge, successor_row, add_edge, add_successor, register_body,
  register_replace_successor, open_and_register,
}

-- A row is primary, or its predecessor is a row of the same order, one generation before.
abbrev pub IsGrounded : List BrokerIdentity → BrokerIdentity → Type 0
IsGrounded rows r =
    (r.generation ≡ 0)
    ⊎ ((p : String) × (q : BrokerIdentity) × (r.predecessor_broker_order_id ≡ some p)
        × (find_identity p rows ≡ some q)
        × (q.intent_id ≡ r.intent_id)
        × (r.generation ≡ q.generation + 1))

abbrev pub IsLineage : List BrokerIdentity → Type 0
IsLineage rows =
    (b : String) (r : BrokerIdentity) → find_identity b rows ≡ some r → IsGrounded rows r

find_identity-append :
    (b : String) (rows : List BrokerIdentity) (x r : BrokerIdentity)
    → find_identity b rows ≡ some r
    → find_identity b (rows ++ x ∷ []) ≡ some r
find_identity-append b [] x r h = ground arith
find_identity-append b (y ∷ rows) x r h = ground (arith, find_identity-append b rows x r)

find_identity-append_new :
    (b : String) (rows : List BrokerIdentity) (x : BrokerIdentity)
    → find_identity b rows ≡ none
    → find_identity b (rows ++ x ∷ []) ≡ (if str_eq x.broker_order_id b then some x else none)
find_identity-append_new b [] x h = refl
find_identity-append_new b (y ∷ rows) x h = ground (arith, find_identity-append_new b rows x)

IsGrounded-append :
    (rows : List BrokerIdentity) (x r : BrokerIdentity)
    → IsGrounded rows r
    → IsGrounded (rows ++ x ∷ []) r
IsGrounded-append rows x r (inl primary) = inl primary
IsGrounded-append rows x r (inr (p, q, named, found, same, next)) =
    inr (p, q, named, find_identity-append p rows x q found, same, next)

some_same : {A : Type 0} (x y : A) → some x ≡ some y → x ≡ y
some_same x y h = ground arith

pub IsLineage-append :
    (rows : List BrokerIdentity) (x : BrokerIdentity)
    → IsLineage rows
    → IsGrounded rows x
    → IsLineage (rows ++ x ∷ [])
IsLineage-append rows x lineage grounded b r h = elim (Option-cases (find_identity b rows)) [
  | inr (q, found) ↦
      rw (sym (some_same q r (sym (find_identity-append b rows x q found) ∙ h)))
        (IsGrounded-append rows x q (lineage b q found))
  | inl new ↦ elim (Bool-cases (str_eq x.broker_order_id b)) [
    | inl same ↦
        rw (sym (some_same x r (sym (rw (find_identity-append_new b rows x new, same) refl) ∙ h)))
          (IsGrounded-append rows x x grounded)
    | inr other ↦ absurd (ground (arith, find_identity-append_new b rows x new))
  ]
]

-- The mutations stay, the lineage stays one, and no id is lost.
pub record Extends (s s' : Db) : Type 0 where
  pub kept : s'.mutations ≡ s.mutations
  pub lineage : IsLineage (identities s) → IsLineage (identities s')
  pub grows :
      (b : String) (r : BrokerIdentity)
      → find_identity b (identities s) ≡ some r
      → find_identity b (identities s') ≡ some r

Extends-refl : (s : Db) → Extends s s
Extends-refl s = record { kept = refl; lineage = λ h. h; grows = λ b r h. h }

Extends-trans : (s t u : Db) → Extends s t → Extends t u → Extends s u
Extends-trans s t u h k = record {
  kept = k.kept ∙ h.kept;
  lineage = λ l. k.lineage (h.lineage l);
  grows = λ b r f. k.grows b r (h.grows b r f);
}

add_identity-Extends :
    (r : BrokerIdentity) (s : Db) → IsGrounded (identities s) r → Extends s (add_identity r s)
add_identity-Extends r s grounded = record {
  kept = refl;
  lineage = λ l. IsLineage-append (identities s) r l grounded;
  grows = λ b q f. find_identity-append b (identities s) r q f;
}

-- A method that only extends the lineage.
pub record Extending {A : Type 0} (m : Action Db A) : Type 0 where
  pub at : (s : Db) → Extends s (m s).1

bind-Extending :
    {A B : Type 0} (m : Action Db A) (f : A → Action Db B)
    → Extending m
    → ((a : A) → Extending (f a))
    → Extending (m >>= f)
bind-Extending m f first later = record {
  at = λ s. elim (Given-cases (m s).0) [
    | inl (a, done) ↦
        rw (◌>>=◌, done)
          (Extends-trans s (m s).1 (f a (m s).1).1 (first.at s) ((later a).at (m s).1))
    | inr (e, failed) ↦ rw (◌>>=◌, failed) (first.at s)
  ];
}

lift-Extending : {A : Type 0} (r : Result A) → Extending (lift r)
lift-Extending r = record { at = Extends-refl }

gets-Extending : {A : Type 0} (f : Db → A) → Extending (gets f)
gets-Extending f = record { at = Extends-refl }

raise_if-Extending : (b : Bool) (e : Error) → Extending (raise_if b e)
raise_if-Extending true e = record { at = Extends-refl }
raise_if-Extending false e = record { at = Extends-refl }

initialize_row-Extending : (r : OrderRow) → Extending (initialize_row r)
unfolding initialize_row
initialize_row-Extending r = record {
  at = λ s. elim (Option-cases (find_identity r.broker_order_id (identities s))) [
    | inr (held, found) ↦ elim (Bool-cases (str_eq held.intent_id r.intent_id)) [
      | inl same ↦ rw (found, same) (Extends-refl s)
      | inr other ↦ rw (found, other) (Extends-refl s)
    ]
    | inl new ↦ elim (Option-cases (primary_of r.intent_id (identities s))) [
      | inr (held, primary) ↦ rw (new, primary) (Extends-refl s)
      | inl first ↦ rw (new, first) (add_identity-Extends (primary_row r) s (inl refl))
    ]
  ];
}

initialize_rows-Extending : (rs : List OrderRow) → Extending (initialize_rows rs)
unfolding initialize_rows
initialize_rows-Extending [] = record { at = Extends-refl }
initialize_rows-Extending (r ∷ rs) =
    bind-Extending (initialize_row r) (λ _. initialize_rows rs) (initialize_row-Extending r)
      (λ _. initialize_rows-Extending rs)

-- The table is made where it is not there; a table without rows has no ids either.
initialize-Extending : Extending initialize_broker_order_lineage
unfolding initialize_broker_order_lineage
initialize-Extending = record {
  at = λ s.
      let made = record s { identities = some (identities s) } in
      Extends-trans s made (initialize_rows (with_broker_id s.orders) made).1
        (record { kept = refl; lineage = λ l. l; grows = λ b r f. f })
        ((initialize_rows-Extending (with_broker_id s.orders)).at made);
}

primary_of-find_identity :
    (i b : String) (rows : List BrokerIdentity) (h : BrokerIdentity)
    → primary_of i rows ≡ some h
    → str_eq h.broker_order_id b ≡ true
    → find_identity b rows ≡ none
    → ⊥
primary_of-find_identity i b [] h p same new = ground arith
primary_of-find_identity i b (r ∷ rows) h p same new =
    ground (arith, primary_of-find_identity i b rows h)

-- The id has a row of the order, of the generation.
abbrev IsSource : String → String → ℕ → Db → Type 0
IsSource i b g s =
    (q : BrokerIdentity) × (find_identity b (identities s) ≡ some q)
    × (q.intent_id ≡ i)
    × (q.generation ≡ g)

-- What a method that looks for the source does: the store is extended, and a generation that it
-- returns is that of a row of the order.
abbrev Sources : String → String → Action Db ℕ → Db → Type 0
Sources i b m s = Extends s (m s).1 × ((g : ℕ) → (m s).0 ≡ ok g → IsSource i b g (m s).1)

refused-Sources : (i b : String) (e : Error) (s : Db) → Sources i b (raise e) s
refused-Sources i b e s = (Extends-refl s, λ g h. absurd (cc))

source_new-Sources :
    (i b : String) (order : Option OrderRow) (primary : Option BrokerIdentity) (s : Db)
    → find_identity b (identities s) ≡ none
    → primary_of i (identities s) ≡ primary
    → Sources i b (source_new i b order primary) s
unfolding source_new
source_new-Sources i b none primary s new first =
    refused-Sources i b (value_error "REPLACE_PREDECESSOR_NOT_PROVEN") s
source_new-Sources i b (some r) (some held) s new first =
    elim (Bool-cases (str_eq r.broker_order_id b)) [
      | inr other ↦ rw other (refused-Sources i b (value_error "REPLACE_PREDECESSOR_NOT_PROVEN") s)
      | inl own ↦ elim (Bool-cases (str_eq held.broker_order_id b)) [
        | inr other ↦
            rw (own, other) (refused-Sources i b (value_error "REPLACE_PREDECESSOR_NOT_PROVEN") s)
        | inl same ↦ absurd (primary_of-find_identity i b (identities s) held first same new)
      ]
    ]
source_new-Sources i b (some r) none s new first =
    let x = record (primary_row r) { intent_id = i; broker_order_id = b } in
    elim (Bool-cases (str_eq r.broker_order_id b)) [
      | inr other ↦ rw other (refused-Sources i b (value_error "REPLACE_PREDECESSOR_NOT_PROVEN") s)
      | inl own ↦ rw own (
        add_identity-Extends x s (inl refl),
        λ g h. (
          x,
          rw (find_identity-append_new b (identities s) x new, str_eq_refl b) refl,
          refl,
          ground arith,
        ),
      )
    ]

source_from-Sources :
    (i b : String) (source : Option BrokerIdentity) (order : Option OrderRow)
    (primary : Option BrokerIdentity) (s : Db)
    → find_identity b (identities s) ≡ source
    → primary_of i (identities s) ≡ primary
    → Sources i b (source_from i b source order primary) s
unfolding source_from
source_from-Sources i b none order primary s new first =
    source_new-Sources i b order primary s new first
source_from-Sources i b (some held) order primary s found first =
    elim (Bool-cases (str_eq held.intent_id i)) [
      | inr other ↦ rw other (refused-Sources i b (value_error "REPLACE_PREDECESSOR_NOT_PROVEN") s)
      | inl same ↦
          rw same (
            Extends-refl s,
            λ g h. (held, found, (str_eq_iff held.intent_id i).0 same, ground arith),
          )
    ]

source_generation-Sources : (i b : String) (s : Db) → Sources i b (source_generation i b) s
unfolding source_generation
source_generation-Sources i b s =
    source_from-Sources i b (find_identity b (identities s)) (find_order i s.orders)
      (primary_of i (identities s)) s refl refl

add_edge-Extends :
    (p : Succession) (b c : String) (g t : ℕ) (existing : Option BrokerIdentity) (s : Db)
    → IsSource p.intent_id b g s
    → Extends s (add_edge p b c g t existing s).1
unfolding add_edge
add_edge-Extends p b c g t (some held) s source = elim (Bool-cases (same_edge p b g held)) [
  | inl again ↦ rw again (Extends-refl s)
  | inr other ↦ rw other (Extends-refl s)
]
add_edge-Extends p b c g t none s (q, found, same, next) =
    elim (Bool-cases (is_taken b p.mutation_id (identities s))) [
      | inl taken ↦ rw taken (Extends-refl s)
      | inr fresh ↦ rw fresh (
          add_identity-Extends (successor_row p b c g t) s
            (inr (b, q, refl, found, same, rw next refl)))
    ]

add_successor-Extends :
    (p : Succession) (b c : String) (g t : ℕ) (s : Db)
    → IsSource p.intent_id b g s
    → Extends s (add_successor p b c g t s).1
unfolding add_successor
add_successor-Extends p b c g t s source =
    add_edge-Extends p b c g t (find_identity c (identities s)) s source

-- After the source the edge is added, unless the successor is the predecessor.
after_source-Extends :
    (same : Bool) (p : Succession) (b c : String) (g t : ℕ) (s : Db)
    → IsSource p.intent_id b g s
    → Extends s ((if same then pure tt else add_successor p b c g t) s).1
after_source-Extends true p b c g t s source = Extends-refl s
after_source-Extends false p b c g t s source = add_successor-Extends p b c g t s source

sourced-Extending :
    (p : Succession) (b c : String) (t : ℕ)
    → Extending (
        source_generation p.intent_id b >>= λ g.
        if str_eq c b then pure tt else add_successor p b c g t)
sourced-Extending p b c t = record {
  at = λ s.
      let (first, source) = source_generation-Sources p.intent_id b s in
      let s' = (source_generation p.intent_id b s).1 in
      elim (Given-cases (source_generation p.intent_id b s).0) [
        | inl (g, done) ↦
            rw (◌>>=◌, done)
              (Extends-trans s s' ((if str_eq c b then pure tt else add_successor p b c g t) s').1
                first (after_source-Extends (str_eq c b) p b c g t s' (source g done)))
        | inr (e, failed) ↦ rw (◌>>=◌, failed) first
      ];
}

register_body-Extending :
    (p : Succession) (b c : String) (t : ℕ) → Extending (register_body p b c t)
unfolding register_body
register_body-Extending p b c t =
    search (bind-Extending, gets-Extending, raise_if-Extending, sourced-Extending)

transaction-Extending : {A : Type 0} (m : Action Db A) → Extending m → Extending (transaction m)
transaction-Extending m h = record {
  at = λ s. elim (Given-cases (m s).0) [
    | inl (a, done) ↦ rw (transaction, done) (h.at s)
    | inr (e, failed) ↦ rw (transaction, failed) (Extends-refl s)
  ];
}

register-Extending : (p : Succession) → Extending (register_replace_successor p)
unfolding register_replace_successor
register-Extending p = search (
  bind-Extending, raise_if-Extending, lift-Extending, transaction-Extending,
  register_body-Extending,
)

pub open_and_register-Extending : (p : Succession) → Extending (open_and_register p)
unfolding open_and_register
open_and_register-Extending p = search (bind-Extending, initialize-Extending, register-Extending)

-- Registering a successor, and making the table before, keeps the lineage of the ids one in which each
-- id leads back to a primary id of its order, generation by generation; it loses no id, and leaves
-- the table of mutations as it was. This holds whether the call returns or raises.
pub open_and_register-IsLineage :
    (p : Succession) (s : Db)
    → IsLineage (identities s)
    → IsLineage (identities (open_and_register p s).1)
      × ((b : String) (r : BrokerIdentity)
          → find_identity b (identities s) ≡ some r
          → find_identity b (identities (open_and_register p s).1) ≡ some r)
      × ((open_and_register p s).1.mutations ≡ s.mutations)
open_and_register-IsLineage p s lineage =
    let all = (open_and_register-Extending p).at s in (all.lineage lineage, all.grows, all.kept)
