-- ===== src/Prelude/Decimal/Sign.antt =====
-- Which operations on decimals give a number that is not negative, rounding included.
use Prim.Native.Nat.{ℕ, zero, suc, ◌+◌, ◌-◌, ◌*◌, ◌^◌, ◌≤◌, ◌<◌}
use mathlib.Core.Path.{◌≡◌, refl, sym, ◌∙◌, ap}
use mathlib.Core.Bool.{true, false}
use native.Mathlib.Nat.{pow-suc, le_of_mul-le-mul_right}
use native.Mathlib.Omega.{arith}
use trade_bot.Prelude.Int.{ℤ, pos, negsuc, pos_part, neg_part, ◌*ℤ◌, ◌-ℤ◌, ◌+ℤ◌}
use trade_bot.Prelude.Decimal.{
  Decimal, finite, infinite, nan, is_finite, dec_zero, dec_lt, add, sub, mul, fix, min_ℤ, rescale,
  signed,
}
use trade_bot.Prelude.Decimal.Order.{pow_pos}

-- A number that is not negative.
abbrev pub IsNonneg : Decimal → Type 0
IsNonneg (finite c e) = neg_part c ≡ 0
IsNonneg _ = ⊥

mul_pos : (a b : ℕ) → 0 < a → 0 < b → 0 < a * b
mul_pos a b h k = grind arith

pow_add : (a b : ℕ) → 10 ^ (a + b) ≡ 10 ^ a * 10 ^ b
pow_add zero b = let e : 0 + b ≡ b = omega arith in rw e (omega arith)
pow_add (suc a) b =
    let e : suc a + b ≡ suc (a + b) = omega arith in
    rw (e, pow-suc 10 (a + b), pow-suc 10 a, pow_add a b) (omega arith)

shared_power : (a b c t : ℕ) → a + b ≡ c + t → 10 ^ a * 10 ^ b ≡ 10 ^ c * 10 ^ t
shared_power a b c t h = sym (pow_add a b) ∙ ap (λ n. 10 ^ n) h ∙ pow_add c t

exponents :
    (e f : ℤ)
    → let low = min_ℤ e f in
      (t : ℕ) × (pos_part e + neg_part f ≡ pos_part (e -ℤ low) + t)
      × (pos_part f + neg_part e ≡ pos_part (f -ℤ low) + t)
exponents e f = (pos_part e + neg_part f - pos_part (e -ℤ min_ℤ e f), ground arith, ground arith)

rescale_pos : (a : ℤ) (k : ℕ) → pos_part (a *ℤ pos k) ≡ pos_part a * k
rescale_pos (pos n) k = grind arith
rescale_pos (negsuc n) k = grind arith

rescale_neg : (a : ℤ) (k : ℕ) → neg_part (a *ℤ pos k) ≡ neg_part a * k
rescale_neg (pos n) k = grind arith
rescale_neg (negsuc n) k = grind arith

fix-IsNonneg : (c e : ℤ) → neg_part c ≡ 0 → IsNonneg (fix c e)
unfolding fix signed
fix-IsNonneg c e h = ground arith

-- The test of the code.
pub IsNonneg-of_test : (d : Decimal) → is_finite d ≡ true → dec_lt d dec_zero ≡ false → IsNonneg d
unfolding dec_lt
IsNonneg-of_test (finite (pos n) e) h k = refl
IsNonneg-of_test (finite (negsuc n) e) h k =
    ground (arith, mul_pos (suc n) (10 ^ pos_part e) (omega arith) (pow_pos (pos_part e)))
IsNonneg-of_test (infinite b) h k = ground arith
IsNonneg-of_test nan h k = ground arith

pub IsNonneg-is_finite : (d : Decimal) → IsNonneg d → is_finite d ≡ true
IsNonneg-is_finite d h = ground arith

sum_parts : (x y : ℤ) → neg_part x ≡ 0 → neg_part y ≡ 0 → neg_part (x +ℤ y) ≡ 0
sum_parts x y h k = ground arith

difference_parts :
    (x y : ℤ) → pos_part y + neg_part x ≤ pos_part x + neg_part y → neg_part (x -ℤ y) ≡ 0
difference_parts x y h = ground arith

product_parts : (x y : ℤ) → neg_part x ≡ 0 → neg_part y ≡ 0 → neg_part (x *ℤ y) ≡ 0
product_parts (pos m) (pos n) h k = grind arith
product_parts (pos m) (negsuc n) h k = omega arith
product_parts (negsuc m) y h k = omega arith

rescale_IsNonneg : (c e f : ℤ) → neg_part c ≡ 0 → neg_part (rescale c e f) ≡ 0
rescale_IsNonneg c e f h = product_parts c (pos (10 ^ pos_part (e -ℤ f))) h refl

pub add-IsNonneg : (a b : Decimal) → IsNonneg a → IsNonneg b → IsNonneg (add a b)
unfolding add
add-IsNonneg (finite a e) (finite b f) h k =
    let low = min_ℤ e f in
    fix-IsNonneg (rescale a e low +ℤ rescale b f low) low (
      sum_parts (rescale a e low) (rescale b f low) (rescale_IsNonneg a e low h)
        (rescale_IsNonneg b f low k))
add-IsNonneg _ _ h k = ground arith

pub mul-IsNonneg : (a b : Decimal) → IsNonneg a → IsNonneg b → IsNonneg (mul a b)
unfolding mul
mul-IsNonneg (finite a e) (finite b f) h k = fix-IsNonneg (a *ℤ b) (e +ℤ f) (product_parts a b h k)
mul-IsNonneg _ _ h k = ground arith

-- b * y ≤ a * x over differences of numbers, where x and y have a common factor u.
cancel_factor :
    (a a' b b' x y u v w : ℕ)
    → 0 < u
    → v ≡ x * u
    → w ≡ y * u
    → b * w + a' * v ≤ a * v + b' * w
    → b * y + a' * x ≤ a * x + b' * y
cancel_factor a a' b b' x y u v w p hv hw h =
    le_of_mul-le-mul_right {m = b * y + a' * x} {n = a * x + b' * y} {k = u}
      (let h' : b * (y * u) + a' * (x * u) ≤ a * (x * u) + b' * (y * u) = rw (← hv, ← hw) h in
        omega arith)
      p

not_below :
    (a e b f : ℤ)
    → dec_lt (finite a e) (finite b f) ≡ false
    → pos_part b * (10 ^ pos_part f * 10 ^ neg_part e)
        + neg_part a * (10 ^ pos_part e * 10 ^ neg_part f)
      ≤ pos_part a * (10 ^ pos_part e * 10 ^ neg_part f)
        + neg_part b * (10 ^ pos_part f * 10 ^ neg_part e)
unfolding dec_lt
not_below a e b f h = ground arith

rescaled_le :
    (a e b f : ℤ)
    → dec_lt (finite a e) (finite b f) ≡ false
    → let low = min_ℤ e f in
      pos_part (rescale b f low) + neg_part (rescale a e low)
      ≤ pos_part (rescale a e low) + neg_part (rescale b f low)
rescaled_le a e b f h =
    let low = min_ℤ e f in
    let (t, he, hf) = exponents e f in
    let x = 10 ^ pos_part (e -ℤ low) in
    let y = 10 ^ pos_part (f -ℤ low) in
    let v : 10 ^ pos_part e * 10 ^ neg_part f ≡ x * 10 ^ t =
      shared_power (pos_part e) (neg_part f) (pos_part (e -ℤ low)) t he in
    let w : 10 ^ pos_part f * 10 ^ neg_part e ≡ y * 10 ^ t =
      shared_power (pos_part f) (neg_part e) (pos_part (f -ℤ low)) t hf in
    let result =
      cancel_factor (pos_part a) (neg_part a) (pos_part b) (neg_part b) x y (10 ^ t)
        (10 ^ pos_part e * 10 ^ neg_part f) (10 ^ pos_part f * 10 ^ neg_part e) (pow_pos t) v w
        (not_below a e b f h) in
    rw (rescale_pos a x, rescale_pos b y, rescale_neg a x, rescale_neg b y) result

-- a - b is not negative where a is not below b.
pub sub-IsNonneg :
    (a b : Decimal)
    → is_finite a ≡ true
    → is_finite b ≡ true
    → dec_lt a b ≡ false
    → IsNonneg (sub a b)
unfolding sub
sub-IsNonneg (finite a e) (finite b f) h k no_less =
    let low = min_ℤ e f in
    fix-IsNonneg (rescale a e low -ℤ rescale b f low) low
      (difference_parts (rescale a e low) (rescale b f low) (rescaled_le a e b f no_less))
sub-IsNonneg _ _ h k no_less = ground arith
