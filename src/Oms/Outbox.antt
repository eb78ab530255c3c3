-- ===== src/Oms/Outbox.antt =====
-- app/oms/store.py: `pending_outbox` and `mark_outbox_published`.
use trade_bot.Prelude.{ℕ, zero, suc, Option, none, some, List, [], ◌∷◌, ◌==◌, ltb, if◌then◌else◌}
use trade_bot.Prelude.Clock.{Datetime}
use trade_bot.Prelude.Action.{
  Action, value_error, key_error_number, ◌>>=◌, ◌>>◌, pure, raise, raise_if, gets, modify, lift,
  transaction,
}
use trade_bot.Oms.Tables.{Oms, OutboxRow}
use trade_bot.Oms.Events.{now}

-- WHERE published_at IS NULL; the rows stand in the order of their numbers.
abbrev pub unpublished : List OutboxRow → List OutboxRow
unpublished [] = []
unpublished (r ∷ rs) =
    let rest = unpublished rs in elim r.published_at [ none ↦ r ∷ rest | some _ ↦ rest ]

abbrev pub take {ℓ} : {A : Type ℓ} → ℕ → List A → List A
take zero xs = []
take (suc n) [] = []
take (suc n) (x ∷ xs) = x ∷ take n xs

-- A negative limit is refused as 0 is.
unfoldable pub pending_outbox : ℕ → Action Oms (List OutboxRow)
pending_outbox limit = do
  raise_if (ltb limit 1) (value_error "limit must be positive")
  gets (λ s. take limit (unpublished s.outbox))

-- COALESCE(published_at, ?)
abbrev pub coalesce : Option ℕ → ℕ → Option ℕ
coalesce none t = some t
coalesce (some p) t = some p

abbrev pub publish_row : ℕ → ℕ → List OutboxRow → List OutboxRow
publish_row m moment [] = []
publish_row m moment (r ∷ rs) =
    (if r.message_id == m then record r { published_at = coalesce r.published_at moment } else r)
    ∷ publish_row m moment rs

-- The row count of the update.
abbrev pub count_message : ℕ → List OutboxRow → ℕ
count_message m [] = 0
count_message m (r ∷ rs) =
    let rest = count_message m rs in if r.message_id == m then suc rest else rest

publish_body : ℕ → ℕ → Action Oms (Unit {0})
publish_body m moment = do
  count ← gets (λ s. count_message m s.outbox)
  modify (λ s. record s { outbox = publish_row m moment s.outbox })
  if count == 1 then pure tt else raise (key_error_number m)

unfoldable pub mark_outbox_published : ℕ → Datetime → Action Oms (Unit {0})
unfolding publish_body
mark_outbox_published m occurred_at = do
  moment ← lift (now occurred_at)
  transaction (publish_body m moment)
