-- ===== src/Prelude/Json.antt =====
-- The JSON values of event payloads and of the material under a digest. A decimal and a moment
-- stand for the texts `str(value)` and `value.isoformat()`.
use Prim.Native.Nat.{ℕ}
use Prim.Native.String.{String}
use mathlib.Core.Bool.{Bool}
use trade_bot.Prelude.Decimal.{Decimal}

mutual
  pub data Json : Type 0 where
    null : Json
    flag : Bool → Json
    number : ℕ → Json
    text : String → Json
    decimal_text : Decimal → Json
    moment_text : ℕ → Json
    array : Items → Json
    object : Fields → Json

  pub data Items : Type 0 where
    nil : Items
    item : Json → Items → Items

  pub data Fields : Type 0 where
    end : Fields
    field : String → Json → Fields → Fields
