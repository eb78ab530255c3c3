-- ===== src/Mutations/Lookup.antt =====
-- How the table of mutations is read after an update.
use trade_bot.Prelude.{none, some, List, [], ◌∷◌, ◌++◌, String, ◌≡◌, ◌≢◌, refl, arith, str_eq_iff}
use trade_bot.Mutations.Tables.{Mutation, find_mutation, update_mutation}

abbrev pub KeepsKey : (Mutation → Mutation) → Type 0
KeepsKey f = (m : Mutation) → (f m).mutation_id ≡ m.mutation_id

pub find_mutation-update_self :
    (i : String) (f : Mutation → Mutation) (ms : List Mutation) (m : Mutation)
    → KeepsKey f
    → find_mutation i ms ≡ some m
    → find_mutation i (update_mutation i f ms) ≡ some (f m)
find_mutation-update_self i f [] m key h = ground arith
find_mutation-update_self i f (x ∷ ms) m key h =
    ground (arith, key x, str_eq_iff x.mutation_id i, find_mutation-update_self i f ms m key)

pub find_mutation-update_ne :
    (i j : String) (f : Mutation → Mutation) (ms : List Mutation)
    → KeepsKey f
    → i ≢ j
    → find_mutation i (update_mutation j f ms) ≡ find_mutation i ms
find_mutation-update_ne i j f [] key ne = refl
find_mutation-update_ne i j f (x ∷ ms) key ne = ground (
  arith,
  key x,
  str_eq_iff x.mutation_id i,
  str_eq_iff x.mutation_id j,
  find_mutation-update_ne i j f ms key ne,
)

pub find_mutation-update_none :
    (i j : String) (f : Mutation → Mutation) (ms : List Mutation)
    → KeepsKey f
    → find_mutation i ms ≡ none
    → find_mutation i (update_mutation j f ms) ≡ none
find_mutation-update_none i j f [] key h = refl
find_mutation-update_none i j f (x ∷ ms) key h =
    ground (arith, key x, find_mutation-update_none i j f ms key)

pub find_mutation-append :
    (i : String) (ms more : List Mutation) (m : Mutation)
    → find_mutation i ms ≡ some m
    → find_mutation i (ms ++ more) ≡ some m
find_mutation-append i [] more m h = ground arith
find_mutation-append i (x ∷ ms) more m h = ground (arith, find_mutation-append i ms more m)

pub find_mutation-append_none :
    (i : String) (ms more : List Mutation)
    → find_mutation i ms ≡ none
    → find_mutation i (ms ++ more) ≡ find_mutation i more
find_mutation-append_none i [] more h = refl
find_mutation-append_none i (x ∷ ms) more h = ground (arith, find_mutation-append_none i ms more)

pub update_absent :
    (i : String) (f : Mutation → Mutation) (ms : List Mutation)
    → find_mutation i ms ≡ none
    → update_mutation i f ms ≡ ms
update_absent i f [] h = refl
update_absent i f (x ∷ ms) h = ground (arith, update_absent i f ms)
