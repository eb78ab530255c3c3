-- ===== src/Prelude/Decimal/Finite.antt =====
-- Which operations on decimals give a number, and that a number equals itself.
use mathlib.Core.Path.{◌≡◌}
use mathlib.Core.Bool.{true}
use native.Mathlib.Omega.{arith}
use trade_bot.Prelude.Decimal.{Decimal, finite, is_finite, add, sub, mul, dec_eq, fix}

pub mul-is_finite :
    (a b : Decimal) → is_finite a ≡ true → is_finite b ≡ true → is_finite (mul a b) ≡ true
unfolding mul fix
mul-is_finite (finite a e) (finite b f) h k = ground arith
mul-is_finite _ _ h k = ground arith

pub dec_eq_refl : (d : Decimal) → is_finite d ≡ true → dec_eq d d ≡ true
unfolding dec_eq
dec_eq_refl d h = ground arith

pub add-is_finite :
    (a b : Decimal) → is_finite a ≡ true → is_finite b ≡ true → is_finite (add a b) ≡ true
unfolding add fix
add-is_finite (finite a e) (finite b f) h k = ground arith
add-is_finite _ _ h k = ground arith

pub sub-is_finite :
    (a b : Decimal) → is_finite a ≡ true → is_finite b ≡ true → is_finite (sub a b) ≡ true
unfolding sub fix
sub-is_finite (finite a e) (finite b f) h k = ground arith
sub-is_finite _ _ h k = ground arith
