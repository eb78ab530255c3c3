-- ===== src/Prelude/SameJson.antt =====
-- The equality of JSON values that the same code made, so that an object's fields stand in the same
-- order.
use mathlib.Core.Bool.{Bool, true, false, ◌&&◌}
use trade_bot.Prelude.Tests.{◌==◌}
use trade_bot.Prelude.Text.{str_eq}
use trade_bot.Prelude.Decimal.{dec_same}
use trade_bot.Prelude.Json.{
  Json, null, flag, number, text, decimal_text, moment_text, array, object, Items, nil, item,
  Fields, end, field,
}

abbrev flag_same : Bool → Bool → Bool
flag_same true true = true
flag_same false false = true
flag_same _ _ = false

unfoldable mutual
  pub json_same : Json → Json → Bool
  json_same null null = true
  json_same (flag a) (flag b) = flag_same a b
  json_same (number a) (number b) = a == b
  json_same (text a) (text b) = str_eq a b
  json_same (decimal_text a) (decimal_text b) = dec_same a b
  json_same (moment_text a) (moment_text b) = a == b
  json_same (array a) (array b) = items_same a b
  json_same (object a) (object b) = fields_same a b
  json_same _ _ = false

  items_same : Items → Items → Bool
  items_same nil nil = true
  items_same (item a as_) (item b bs) = json_same a b && items_same as_ bs
  items_same _ _ = false

  fields_same : Fields → Fields → Bool
  fields_same end end = true
  fields_same (field k a as_) (field l b bs) = str_eq k l && json_same a b && fields_same as_ bs
  fields_same _ _ = false
