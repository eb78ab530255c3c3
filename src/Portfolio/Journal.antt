-- ===== src/Portfolio/Journal.antt =====
-- app/portfolio/store.py and the SQLite half of app/portfolio/strict.py: the journal of the
-- portfolio and its replay. A payload is kept as the value that its JSON text stands for.
use trade_bot.Prelude.{
  Bool, true, false, ◌&&◌, Option, none, some, List, [], ◌∷◌, ◌++◌, String, is_blank, str_eq,
  str_append, if◌then◌else◌, ℕ, ◌==◌,
}
use trade_bot.Prelude.Decimal.{Decimal, dec_zero, is_finite, dec_eq, dec_same}
use trade_bot.Prelude.Clock.{Datetime, aware, to_utc}
use trade_bot.Prelude.Action.{
  Action, Result, ok, err, value_error, ◌>>=◌, ◌>>◌, pure, raise, gets, modify, raise_if, lift,
}
use trade_bot.Domain.{Fill, Side, side_eq, validate_fill, not_positive, not_nonnegative}
use trade_bot.Portfolio.Ledger.{
  CashAdjustmentKind, external_flow, income, fee_charge, Ledger, open_ledger, apply_fill,
  apply_cash_adjustment, apply_split, apply_cash_dividend,
}

-- The fields of a payload of type FILL.
pub record FillPayload : Type 0 where
  pub fill_id : String
  pub order_intent_id : String
  pub symbol : String
  pub side : Side
  pub quantity : Decimal
  pub price : Decimal
  pub fee : Decimal

-- The event type with its payload.
pub data PortfolioEvent : Type 0 where
  fill_event : FillPayload → PortfolioEvent
  adjustment_event : String → Decimal → CashAdjustmentKind → PortfolioEvent
  split_event : String → String → Decimal → PortfolioEvent
  dividend_event : String → String → Decimal → PortfolioEvent

pub record JournalRow : Type 0 where
  pub event_id : String
  pub event : PortfolioEvent
  pub occurred_at : ℕ

-- The tables of the events and of the genesis; the rows stand in the order of their sequence.
pub record Journal : Type 0 where
  pub rows : List JournalRow
  pub genesis : Option Decimal

abbrev pub find_row : String → List JournalRow → Option JournalRow
find_row e [] = none
find_row e (r ∷ rs) = let rest = find_row e rs in if str_eq r.event_id e then some r else rest

abbrev pub add_row : JournalRow → Journal → Journal
add_row r s = record s { rows = s.rows ++ r ∷ [] }

-- `_append` of `PortfolioEventStore`: a row whose id is taken is ignored.
unfoldable pub append : String → PortfolioEvent → Datetime → Action Journal Bool
append event_id event occurred_at = do
  raise_if (is_blank event_id) (value_error "event_id is required")
  moment ← lift (to_utc occurred_at "timestamp must be timezone-aware")
  taken ← gets (λ s. find_row event_id s.rows)
  elim taken [
    | some _ ↦ pure false
    | none ↦ do
      modify (add_row (record { event_id = event_id; event = event; occurred_at = moment }))
      pure true
  ]

abbrev pub kind_same : CashAdjustmentKind → CashAdjustmentKind → Bool
kind_same external_flow external_flow = true
kind_same income income = true
kind_same fee_charge fee_charge = true
kind_same _ _ = false

-- The same event type and the same canonical payload.
unfoldable pub event_same : PortfolioEvent → PortfolioEvent → Bool
event_same (fill_event a) (fill_event b) =
    str_eq a.fill_id b.fill_id
    && str_eq a.order_intent_id b.order_intent_id
    && str_eq a.symbol b.symbol
    && side_eq a.side b.side
    && dec_same a.quantity b.quantity
    && dec_same a.price b.price
    && dec_same a.fee b.fee
event_same (adjustment_event i a k) (adjustment_event j b m) =
    str_eq i j && dec_same a b && kind_same k m
event_same (split_event i s a) (split_event j t b) = str_eq i j && str_eq s t && dec_same a b
event_same (dividend_event i s a) (dividend_event j t b) = str_eq i j && str_eq s t && dec_same a b
event_same _ _ = false

abbrev pub identical : JournalRow → PortfolioEvent → ℕ → Bool
identical r event moment = event_same r.event event && r.occurred_at == moment

-- `_append` of `StrictPortfolioEventStore`: a taken id must hold the identical event.
unfoldable pub strict_append : String → PortfolioEvent → Datetime → Action Journal Bool
strict_append event_id event occurred_at = do
  raise_if (is_blank event_id) (value_error "event_id is required")
  moment ← lift (to_utc occurred_at "timestamp must be timezone-aware")
  taken ← gets (λ s. find_row event_id s.rows)
  elim taken [
    | some r ↦
        if identical r event moment
        then pure false
        else raise (value_error "PORTFOLIO_EVENT_CONFLICT")
    | none ↦ do
      modify (add_row (record { event_id = event_id; event = event; occurred_at = moment }))
      pure true
  ]

abbrev pub fill_payload : Fill → FillPayload
fill_payload f = record {
  fill_id = f.fill_id;
  order_intent_id = f.order_intent_id;
  symbol = f.symbol;
  side = f.side;
  quantity = f.quantity;
  price = f.price;
  fee = f.fee;
}

-- The methods that append, over either `_append`.
module _ (append_event : String → PortfolioEvent → Datetime → Action Journal Bool) where
  unfoldable pub append_fill : Fill → Action Journal Bool
  append_fill f = do
    lift (validate_fill f)
    append_event (str_append "fill:" f.fill_id) (fill_event (fill_payload f)) f.occurred_at

  unfoldable pub append_cash_adjustment :
      String → Decimal → CashAdjustmentKind → Datetime → Action Journal Bool
  append_cash_adjustment activity_id amount kind occurred_at = do
    raise_if (is_blank activity_id) (value_error "activity_id is required")
    raise_if (if is_finite amount then dec_eq amount dec_zero else true)
        (value_error "cash adjustment amount must be finite and non-zero")
    append_event (str_append "broker-cash:" activity_id) (adjustment_event activity_id amount kind)
        occurred_at

  unfoldable pub append_split : String → String → Decimal → Datetime → Action Journal Bool
  append_split action_id symbol ratio occurred_at = do
    raise_if (not_positive ratio) (value_error "split ratio must be positive and finite")
    append_event (str_append "corporate-action:" action_id) (split_event action_id symbol ratio)
        occurred_at

  unfoldable pub append_cash_dividend : String → String → Decimal → Datetime → Action Journal Bool
  append_cash_dividend action_id symbol amount_per_share occurred_at = do
    raise_if (not_nonnegative amount_per_share)
        (value_error "amount_per_share must be finite and non-negative")
    append_event (str_append "corporate-action:" action_id)
        (dividend_event action_id symbol amount_per_share) occurred_at

abbrev pub is_nil : List JournalRow → Bool
is_nil [] = true
is_nil (r ∷ rs) = false

abbrev genesis_mismatch : {A : Type 0} → Action Journal A
genesis_mismatch = raise (value_error "AccountGenesisMismatch")

-- `bind_genesis`; `AccountGenesisMismatch` is a ValueError.
unfoldable pub bind_genesis : Decimal → Action Journal Decimal
bind_genesis opening_cash = do
  raise_if (not_positive opening_cash) (value_error "opening_cash must be positive and finite")
  bound ← gets (λ s. s.genesis)
  no_history ← gets (λ s. is_nil s.rows)
  elim bound [
    | none ↦ do modify (λ s. record s { genesis = some opening_cash }); pure opening_cash
    | some stored ↦
        if no_history
        then (do modify (λ s. record s { genesis = some opening_cash }); pure opening_cash)
        else if dec_eq stored opening_cash
        then pure stored
        else genesis_mismatch
  ]

abbrev pub replayed_fill : FillPayload → ℕ → Fill
replayed_fill p moment = record {
  fill_id = p.fill_id;
  order_intent_id = p.order_intent_id;
  symbol = p.symbol;
  side = p.side;
  quantity = p.quantity;
  price = p.price;
  occurred_at = aware moment;
  fee = p.fee;
}

-- The body of the loop of `replay`.
unfoldable pub apply_row : JournalRow → Action Ledger (Unit {0})
apply_row r = elim r.event [
  | fill_event p ↦ apply_fill (replayed_fill p r.occurred_at)
  | adjustment_event i amount kind ↦ apply_cash_adjustment i amount kind
  | split_event i symbol ratio ↦ apply_split i symbol ratio
  | dividend_event i symbol amount ↦ (do paid ← apply_cash_dividend i symbol amount; pure tt)
]

abbrev pub kept : Result (Unit {0}) × Ledger → Result Ledger
kept (ok tt, l) = ok l
kept (err e, l) = err e

unfoldable pub apply_rows : List JournalRow → Ledger → Result Ledger
apply_rows [] l = ok l
apply_rows (r ∷ rs) l = elim (kept (apply_row r l)) [ err e ↦ err e | ok l' ↦ apply_rows rs l' ]

-- `replay`; an exception leaves no ledger.
unfoldable pub replay : Decimal → Journal → Result Ledger
replay opening_cash s = elim (open_ledger opening_cash) [
  | err e ↦ err e
  | ok l ↦ apply_rows s.rows l
]
