-- ===== src/Mutations/Lineage.antt =====
-- app/oms/order_mutations.py: `_lineage_leaf`, `current_limit_price` and `current_broker_order_id`.
use Prim.Native.Nat.{Ordering}
use Prim.Native.String.{compare}
use trade_bot.Prelude.{
  Bool, true, false, ◌&&◌, ◌||◌, Option, none, some, List, [], ◌∷◌, String, str_eq, is_blank, strip,
  ltb, ◌==◌, if◌then◌else◌,
}
use trade_bot.Prelude.Decimal.{Decimal}
use trade_bot.Prelude.Action.{Result, ok, err, value_error}
use trade_bot.Domain.{not_positive}
use trade_bot.Mutations.Tables.{
  Mutation, BrokerIdentity, Db, replace, succeeded, kind_eq, mutation_eq, find_mutation,
}

-- The greater of two rows by generation; the first where they are equal.
abbrev later_identity : BrokerIdentity → Option BrokerIdentity → BrokerIdentity
later_identity b none = b
later_identity b (some c) = if ltb b.generation c.generation then c else b

-- ORDER BY generation DESC LIMIT 1, over the rows of the order.
abbrev leaf_of : String → List BrokerIdentity → Option BrokerIdentity
leaf_of i [] = none
leaf_of i (b ∷ bs) =
    let rest = leaf_of i bs in if str_eq b.intent_id i then some (later_identity b rest) else rest

unfoldable pub lineage_leaf : String → Db → Option BrokerIdentity
lineage_leaf i s = elim s.identities [ none ↦ none | some rows ↦ leaf_of i rows ]

abbrev is_less : Ordering → Bool
is_less Ordering.lt = true
is_less _ = false

-- ORDER BY updated_at DESC, mutation_id DESC
abbrev comes_after : Mutation → Mutation → Bool
comes_after m n =
    ltb n.updated_at m.updated_at
    || (n.updated_at == m.updated_at && is_less (compare n.mutation_id m.mutation_id))

abbrev later_mutation : Mutation → Option Mutation → Mutation
later_mutation m none = m
later_mutation m (some n) = if comes_after n m then n else m

abbrev is_replaced : String → Mutation → Bool
is_replaced i m = str_eq m.intent_id i && kind_eq m.kind replace && mutation_eq m.state succeeded

unfoldable pub last_replace : String → List Mutation → Option Mutation
last_replace i [] = none
last_replace i (m ∷ ms) =
    let rest = last_replace i ms in if is_replaced i m then some (later_mutation m rest) else rest

abbrev conflict : {A : Type 0} → Result A
conflict = err (value_error "BROKER_ORDER_LINEAGE_CONFLICT")

-- `str(leaf["replace_mutation_id"] or "")`
abbrev text_of : Option String → String
text_of none = ""
text_of (some t) = t

-- The price of the replace that made the leaf.
leaf_price : String → String → List Mutation → Result Decimal
leaf_price i mutation_id ms =
    if is_blank mutation_id then conflict else elim (find_mutation (strip mutation_id) ms) [
      | none ↦ conflict
      | some m ↦
          if is_replaced i m
          then elim m.target_limit_price [ none ↦ conflict | some p ↦ ok p ]
          else conflict
    ]

-- `Decimal(str(None))` cannot come up: a replace has a target, by the table's CHECK.
price_or : Option Mutation → Decimal → Result Decimal
price_or none fallback = ok fallback
price_or (some m) fallback = elim m.target_limit_price [
  | none ↦ err (value_error "InvalidOperation")
  | some p ↦ ok p
]

unfoldable pub current_limit_price : String → Decimal → Db → Result Decimal
unfolding leaf_price price_or
current_limit_price i fallback s =
    if not_positive fallback
    then err (value_error "fallback must be positive and finite")
    else elim (lineage_leaf i s) [
      | none ↦ price_or (last_replace i s.mutations) fallback
      | some leaf ↦
          if ltb 0 leaf.generation
          then leaf_price i (text_of leaf.replace_mutation_id) s.mutations
          else ok fallback
    ]

unfoldable pub current_broker_order_id : String → String → Db → Result String
current_broker_order_id i fallback s =
    if is_blank fallback
    then err (value_error "fallback broker_order_id is required")
    else elim (lineage_leaf i s) [
      | none ↦ elim (last_replace i s.mutations) [
        | none ↦ ok fallback
        | some m ↦ ok m.broker_order_id
      ]
      | some leaf ↦
          if is_blank leaf.broker_order_id then conflict else ok (strip leaf.broker_order_id)
    ]
