-- ===== src/Prelude/Decimal.antt =====
-- Python's `decimal.Decimal` under the default context: precision 28, ROUND_HALF_EVEN.
-- `finite c e` is c * 10 ^ e. The sign of a zero is dropped, and exponents have no bounds.
pub mod Order
pub mod Finite
pub mod Sign
use Prim.Native.Nat.{ℕ, zero, suc, ◌+◌, ◌-◌, ◌*◌, ◌/◌, ◌%◌, ◌^◌}
use mathlib.Core.Bool.{Bool, true, false, not, ◌&&◌, ◌||◌}
use trade_bot.Prelude.Tests.{ltb, ◌==◌, if◌then◌else◌}
use trade_bot.Prelude.Int.{
  ℤ, pos, pos_part, neg_part, ◌+ℤ◌, ◌-ℤ◌, ◌*ℤ◌, ltb_ℤ, leb_ℤ, abs, neg as neg_ℤ,
}

pub data Decimal : Type 0 where
  finite : ℤ → ℤ → Decimal
  -- `true` is the positive infinity.
  infinite : Bool → Decimal
  nan : Decimal

abbrev pub dec_zero : Decimal
dec_zero = finite (pos 0) (pos 0)

abbrev pub is_finite : Decimal → Bool
is_finite (finite c e) = true
is_finite _ = false

-- The two parts of the numerator and the denominator of c * 10 ^ e.
abbrev pub upper_part : ℤ → ℤ → ℕ
upper_part c e = pos_part c * 10 ^ pos_part e

abbrev pub lower_part : ℤ → ℤ → ℕ
lower_part c e = neg_part c * 10 ^ pos_part e

abbrev pub denominator : ℤ → ℕ
denominator e = 10 ^ neg_part e

-- `a < b`, which is exact. Python raises on a NaN; every comparison of the code stands behind
-- `is_finite`.
unfoldable pub dec_lt : Decimal → Decimal → Bool
dec_lt (finite a e) (finite b f) =
    ltb (upper_part a e * denominator f + lower_part b f * denominator e)
      (upper_part b f * denominator e + lower_part a e * denominator f)
dec_lt (infinite p) (infinite q) = not p && q
dec_lt (infinite p) (finite b f) = not p
dec_lt (finite a e) (infinite p) = p
dec_lt _ _ = false

unfoldable pub dec_eq : Decimal → Decimal → Bool
dec_eq (finite a e) (finite b f) =
    upper_part a e * denominator f + lower_part b f * denominator e
    == upper_part b f * denominator e + lower_part a e * denominator f
dec_eq (infinite p) (infinite q) = (p && q) || (not p && not q)
dec_eq _ _ = false

abbrev pub dec_le : Decimal → Decimal → Bool
dec_le a b = dec_lt a b || dec_eq a b

abbrev pub precision : ℕ
precision = 28

-- The number of digits; each round drops one, so `n` rounds are enough.
digits_from : ℕ → ℕ → ℕ
digits_from zero n = 1
digits_from (suc f) n = elim (ltb n 10) [ true ↦ 1 | false ↦ suc (digits_from f (n / 10)) ]

digits : ℕ → ℕ
unfolding digits_from
digits n = digits_from n n

-- n / 10 ^ k, to the nearest, a tie to the even neighbour.
round_half_even : ℕ → ℕ → ℕ
round_half_even n k =
    let q = n / 10 ^ k in
    let r = n % 10 ^ k in
    if ltb (10 ^ k) (2 * r) || (2 * r == 10 ^ k && q % 2 == 1) then q + 1 else q

signed : Bool → ℕ → ℤ
signed negative n = if negative then neg_ℤ (pos n) else pos n

-- `_fix`: at most 28 digits stay; a carry to 10 ^ 28 moves the exponent once more.
fix : ℤ → ℤ → Decimal
unfolding digits round_half_even signed
fix c e =
    let drop = digits (abs c) - precision in
    let q = round_half_even (abs c) drop in
    let negative = ltb 0 (neg_part c) in
    if drop == 0
    then finite c e
    else if ltb q (10 ^ precision)
    then finite (signed negative q) (e +ℤ pos drop)
    else finite (signed negative (q / 10)) (e +ℤ pos (drop + 1))

abbrev min_ℤ : ℤ → ℤ → ℤ
min_ℤ a b = if leb_ℤ a b then a else b

-- The coefficient of c * 10 ^ e at the lower exponent f.
abbrev rescale : ℤ → ℤ → ℤ → ℤ
rescale c e f = c *ℤ pos (10 ^ pos_part (e -ℤ f))

-- Arithmetic is on finite values only in the modelled code; else the result here is `nan`.
unfoldable pub add : Decimal → Decimal → Decimal
unfolding fix
add (finite a e) (finite b f) = let low = min_ℤ e f in fix (rescale a e low +ℤ rescale b f low) low
add _ _ = nan

unfoldable pub neg : Decimal → Decimal
unfolding fix
neg (finite a e) = fix (neg_ℤ a) e
neg _ = nan

-- `abs(a)`, which rounds as every operation does.
unfoldable pub dec_abs : Decimal → Decimal
unfolding fix
dec_abs (finite a e) = fix (if ltb 0 (neg_part a) then neg_ℤ a else a) e
dec_abs (infinite negative) = infinite false
dec_abs nan = nan

unfoldable pub sub : Decimal → Decimal → Decimal
unfolding fix
sub (finite a e) (finite b f) = let low = min_ℤ e f in fix (rescale a e low -ℤ rescale b f low) low
sub _ _ = nan

unfoldable pub mul : Decimal → Decimal → Decimal
unfolding fix
mul (finite a e) (finite b f) = fix (a *ℤ b) (e +ℤ f)
mul _ _ = nan

-- `max(a, b)` of Python gives the first unless the second is greater.
unfoldable pub dec_max : Decimal → Decimal → Decimal
dec_max a b = if dec_lt a b then b else a

-- An exact quotient drops its zeros down to the ideal exponent; the fuel is the digits kept.
shed_zeros : ℕ → ℕ → ℤ → ℤ → Bool → Decimal
unfolding fix signed
shed_zeros zero n e ideal negative = fix (signed negative n) e
shed_zeros (suc k) n e ideal negative = elim (ltb_ℤ e ideal && n % 10 == 0) [
  | true ↦ shed_zeros k (n / 10) (e +ℤ pos 1) ideal negative
  | false ↦ fix (signed negative n) e
]

-- `_pydecimal.__truediv__` of two values that are not 0.
divide_from : ℤ → ℤ → ℤ → ℤ → Decimal
unfolding digits fix signed shed_zeros
divide_from a e b f =
    let shift = (pos (digits (abs b)) -ℤ pos (digits (abs a))) +ℤ pos (precision + 1) in
    let top = abs a * 10 ^ pos_part shift in
    let bottom = abs b * 10 ^ neg_part shift in
    let q = top / bottom in
    let ideal = e -ℤ f in
    let low = ideal -ℤ shift in
    let negative = ltb 0 (neg_part a * pos_part b + pos_part a * neg_part b) in
    if top % bottom == 0
    then shed_zeros (pos_part (ideal -ℤ low)) q low ideal negative
    else fix (signed negative (if q % 5 == 0 then q + 1 else q)) low

-- `a / b`; Python raises for a divisor 0, which the code excludes before each division.
unfoldable pub div : Decimal → Decimal → Decimal
unfolding divide_from
div (finite a e) (finite b f) =
    if abs b == 0 then nan else if abs a == 0 then finite (pos 0) (e -ℤ f) else divide_from a e b f
div _ _ = nan

-- `str(a) == str(b)`: the same coefficient and exponent.
abbrev pub int_same : ℤ → ℤ → Bool
int_same a b = pos_part a == pos_part b && neg_part a == neg_part b

abbrev pub dec_same : Decimal → Decimal → Bool
dec_same (finite a e) (finite b f) = int_same a b && int_same e f
dec_same (infinite true) (infinite true) = true
dec_same (infinite false) (infinite false) = true
dec_same nan nan = true
dec_same _ _ = false
