-- ===== src/Prelude/Decimal/Order.antt =====
-- The order of finite decimals is transitive.
use Prim.Native.Nat.{ℕ, zero, suc, ◌+◌, ◌*◌, ◌^◌, ◌≤◌, ◌<◌}
use mathlib.Core.Path.{◌≡◌}
use mathlib.Core.Bool.{true, false}
use native.Mathlib.Nat.{pow-suc, le_of_mul-le-mul_right, mul-le-mul_right}
use native.Mathlib.Omega.{arith}
use trade_bot.Prelude.Int.{neg_part}
use trade_bot.Prelude.Decimal.{
  Decimal, finite, is_finite, dec_lt, dec_le, dec_eq, upper_part, lower_part, denominator,
}

pub pow_pos : (n : ℕ) → 0 < 10 ^ n
pow_pos zero = omega arith
pow_pos (suc n) = omega (arith, pow_pos n, pow-suc 10 n)

-- a/x ≤ b/y and b/y ≤ c/z give a/x ≤ c/z, over differences of numbers.
cross_trans :
    (a a' b b' c c' x y z : ℕ)
    → 0 < y
    → a * y + b' * x ≤ b * x + a' * y
    → b * z + c' * y ≤ c * y + b' * z
    → a * z + c' * x ≤ c * x + a' * z
cross_trans a a' b b' c c' x y z p h k =
    let hz : (a * y + b' * x) * z ≤ (b * x + a' * y) * z = mul-le-mul_right z h in
    let kx : (b * z + c' * y) * x ≤ (c * y + b' * z) * x = mul-le-mul_right x k in
    le_of_mul-le-mul_right {m = a * z + c' * x} {n = c * x + a' * z} {k = y} (omega arith) p

-- No finite value is below one that is at most itself: `not (b < a)` is the order `a ≤ b`.
pub dec_lt_trans :
    (a b c : Decimal)
    → is_finite b ≡ true
    → dec_lt b a ≡ false
    → dec_lt c b ≡ false
    → is_finite a ≡ true
    → is_finite c ≡ true
    → dec_lt c a ≡ false
unfolding dec_lt
dec_lt_trans (finite a e) (finite b f) (finite c g) hb h k ha hc = ground (
  arith,
  cross_trans (upper_part a e) (lower_part a e) (upper_part b f) (lower_part b f) (upper_part c g)
      (lower_part c g) (denominator e) (denominator f) (denominator g) (pow_pos (neg_part f)),
)
dec_lt_trans _ _ _ hb h k ha hc = ground arith

pub dec_lt_irrefl : (a : Decimal) → is_finite a ≡ true → dec_lt a a ≡ false
unfolding dec_lt
dec_lt_irrefl a h = ground arith

pub dec_lt_asym :
    (a b : Decimal)
    → is_finite a ≡ true
    → is_finite b ≡ true
    → dec_lt a b ≡ true
    → dec_lt b a ≡ false
unfolding dec_lt
dec_lt_asym (finite a e) (finite b f) h k less = ground arith
dec_lt_asym _ _ h k less = ground arith

-- `a <= b` of two numbers excludes `b < a`.
pub dec_le-dec_lt :
    (a b : Decimal)
    → is_finite a ≡ true
    → is_finite b ≡ true
    → dec_le a b ≡ true
    → dec_lt b a ≡ false
unfolding dec_lt dec_eq
dec_le-dec_lt (finite a e) (finite b f) h k le = ground arith
dec_le-dec_lt _ _ h k le = ground arith

-- `a <= b` of two numbers holds where `b < a` does not.
pub dec_lt-dec_le :
    (a b : Decimal)
    → is_finite a ≡ true
    → is_finite b ≡ true
    → dec_lt b a ≡ false
    → dec_le a b ≡ true
unfolding dec_lt dec_eq
dec_lt-dec_le (finite a e) (finite b f) h k le = ground arith
dec_lt-dec_le _ _ h k le = ground arith

pub dec_le_trans :
    (a b c : Decimal)
    → is_finite a ≡ true
    → is_finite b ≡ true
    → is_finite c ≡ true
    → dec_le a b ≡ true
    → dec_le b c ≡ true
    → dec_le a c ≡ true
dec_le_trans a b c ha hb hc h k =
    dec_lt-dec_le a c ha hc
      (dec_lt_trans a b c hb (dec_le-dec_lt a b ha hb h) (dec_le-dec_lt b c hb hc k) ha hc)
