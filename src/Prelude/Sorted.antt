-- ===== src/Prelude/Sorted.antt =====
-- `sorted(set(texts))` of Python: the texts in the order of their code points, each once.
use Prim.Native.Nat.{Ordering}
use Prim.Native.String.{String, compare}
use mathlib.Core.List.{List, [], ◌∷◌}
use mathlib.Core.Bool.{◌||◌}
use mathlib.Core.Path.{◌≡◌, refl}
use text.Mathlib.TextEquality.{path_by_compare}
use trade_bot.Prelude.Text.{str_eq, contains_text}
use native.Mathlib.Omega.{arith}

insert_reason : String → List String → List String
insert_reason r [] = r ∷ []
insert_reason r (q ∷ qs) =
    let rest = insert_reason r qs in
    elim (compare r q) [ Ordering.lt ↦ r ∷ q ∷ qs | Ordering.eq ↦ q ∷ qs | Ordering.gt ↦ q ∷ rest ]

unfoldable pub sorted_set : List String → List String
unfolding insert_reason
sorted_set [] = []
sorted_set (r ∷ rs) = insert_reason r (sorted_set rs)

insert_reason-nonempty : (r : String) (qs : List String) → insert_reason r qs ≡ [] → ⊥
unfolding insert_reason
insert_reason-nonempty r [] h = ground arith
insert_reason-nonempty r (q ∷ qs) h = ground arith

-- Only the empty set is empty.
pub sorted_set-nil : (rs : List String) → sorted_set rs ≡ [] → rs ≡ []
unfolding sorted_set
sorted_set-nil [] h = refl
sorted_set-nil (r ∷ rs) h = absurd (insert_reason-nonempty r (sorted_set rs) h)

same_reason :
    (s r q : String) (qs : List String)
    → compare r q ≡ Ordering.eq
    → contains_text s (q ∷ qs) ≡ (str_eq r s || contains_text s (q ∷ qs))
same_reason s r q qs h = rw (path_by_compare r q h) (ground arith)

insert_reason-contains_text :
    (s r : String) (qs : List String)
    → contains_text s (insert_reason r qs) ≡ (str_eq r s || contains_text s qs)
unfolding insert_reason
insert_reason-contains_text s r [] = refl
insert_reason-contains_text s r (q ∷ qs) =
    ground (arith, same_reason s r q qs, insert_reason-contains_text s r qs)

-- The set has the texts of the list.
pub sorted_set-contains_text :
    (s : String) (rs : List String) → contains_text s (sorted_set rs) ≡ contains_text s rs
unfolding sorted_set
sorted_set-contains_text s [] = refl
sorted_set-contains_text s (r ∷ rs) =
    rw (insert_reason-contains_text s r (sorted_set rs), sorted_set-contains_text s rs) refl
