-- ===== src/Reconciliation/Proof.antt =====
-- When app/oms/reconciliation.py refuses to take a broker's order for an UNCERTAIN one.
use trade_bot.Prelude.{
  Bool, true, false, ◌&&◌, none, some, String, ◌≡◌, refl, arith, inl, inr, str_eq,
}
use trade_bot.Prelude.Decimal.{Decimal, dec_eq}
use trade_bot.Prelude.Json.{Json}
use trade_bot.Prelude.Clock.{Datetime}
use trade_bot.Prelude.Action.{err, Error, ◌>>=◌, Result-cases}
use trade_bot.Domain.{side_eq}
use trade_bot.Oms.State.{uncertain}
use trade_bot.Oms.Tables.{Oms, OrderRecord, OrderRow, find_order}
use trade_bot.Reconciliation.Truth.{BrokerOrderTruth, economics}
use trade_bot.Reconciliation.Order.{
  Resolver, reconcile_order, reconcile_found, check_truth, check_economics,
  requires_f17_economic_proof, validate_f17_economics,
}
use trade_bot.Reconciliation.Steps.{check_truth-same, validate_broker_identity-same}
use trade_bot.Reconciliation.Resolution.{found_begin}

-- The report has the four values, and they are the order's.
abbrev pub is_same_order : OrderRecord → BrokerOrderTruth → Bool
is_same_order local b = elim (economics b) [
  | none ↦ false
  | some e ↦
      str_eq e.symbol local.symbol
      && side_eq e.side local.side
      && dec_eq e.quantity local.quantity
      && dec_eq e.limit_price local.limit_price
]

other_order_refused :
    (local : OrderRecord) (b : BrokerOrderTruth)
    → is_same_order local b ≡ false
    → (e : Error) × (validate_f17_economics local b ≡ err e)
unfolding validate_f17_economics
other_order_refused local b h = elim (Result-cases (validate_f17_economics local b)) [
  | inr refused ↦ refused
  | inl fine ↦ ground arith
]

module _ (digest : Json → String) (decimal_str : Decimal → String) (resolver : Resolver) where
  economics_needed :
      (i : String) (local : OrderRecord) (b : BrokerOrderTruth) (s : Oms)
      → local.state ≡ uncertain
      → requires_f17_economic_proof i s ≡ true
      → is_same_order local b ≡ false
      → (e : Error) × (check_economics digest decimal_str resolver i local b s ≡ (err e, s))
  unfolding check_economics
  economics_needed i local b s state asked other =
      let (e, refused) = other_order_refused local b other in (e, ground (arith, refused))

  checks_fail :
      (i : String) (local : OrderRecord) (b : BrokerOrderTruth) (s : Oms)
      → local.state ≡ uncertain
      → requires_f17_economic_proof i s ≡ true
      → is_same_order local b ≡ false
      → (e : Error) × ((check_truth digest decimal_str resolver i local b s).0 ≡ err e)
  unfolding check_truth
  checks_fail i local b s state asked other =
      let (e, needed) = economics_needed i local b s state asked other in
      elim (Result-cases (check_truth digest decimal_str resolver i local b s).0) [
        | inr failed ↦ failed
        | inl fine ↦ ground (
          arith,
          needed,
          validate_broker_identity-same digest decimal_str resolver local b.broker_order_id s,
        )
      ]

  -- An UNCERTAIN order whose last UNCERTAIN event gives a reason that asks for the economics is not
  -- reconciled with another order: where the report lacks the symbol, side, quantity or limit price,
  -- or one of them is not the order's, the call raises and the store is as it was.
  pub other_order_kept_out :
      (i : String) (b : BrokerOrderTruth) (at : Datetime) (prefix : String) (s : Oms) (r : OrderRow)
      → find_order i s.orders ≡ some r
      → r.state ≡ uncertain
      → requires_f17_economic_proof i s ≡ true
      → is_same_order r.order b ≡ false
      → (e : Error) × (reconcile_order digest decimal_str resolver i (some b) at prefix s
          ≡ (err e, s))
  unfolding reconcile_found
  other_order_kept_out i b at prefix s r found state asked other =
      let (e, failed) = checks_fail i r.order b s state asked other in
      (
        e,
        rw (found_begin digest decimal_str resolver i (some b) at prefix s r found)
            (rw (◌>>=◌, failed, check_truth-same digest decimal_str resolver i r.order b s) refl),
      )
