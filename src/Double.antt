-- ===== src/Double.antt =====
-- The `double` of prices, as far as the code compares it (include/Order.h, src/OrderBook.cpp).
-- An IEEE 754 value that is no NaN is a sign and the other 63 bits, read as a magnitude: the bits
-- of two values of one sign are in the order of the values, and the two zeros are equal.
-- A NaN compares as false; the code does not tell one NaN from another.
-- Arithmetic on prices rounds and is no part of this module: it enters where it is used.
use low_latency_trading_engi.Base.{ℕ, ◌≡◌, ◌^◌, ◌*◌, Bool, true, false, not, ◌&&◌, arith, ltb, ◌==◌}

pub data Double : Type 0 where
  nan : Double
  pos : ℕ → Double
  neg : ℕ → Double

-- The exponent bits all ones: the magnitude of infinity.
abbrev pub inf_bits : ℕ
inf_bits = 2047 * 2 ^ 52

-- `a < b`; `a > b` is the same with the operands exchanged.
unfoldable pub lt : Double → Double → Bool
lt nan b = false
lt (pos a) nan = false
lt (pos a) (pos b) = ltb a b
lt (pos a) (neg b) = false
lt (neg a) nan = false
lt (neg a) (pos b) = not (a == 0 && b == 0)
lt (neg a) (neg b) = ltb b a

-- `a == b`
unfoldable pub eq : Double → Double → Bool
eq nan b = false
eq (pos a) nan = false
eq (pos a) (pos b) = a == b
eq (pos a) (neg b) = a == 0 && b == 0
eq (neg a) nan = false
eq (neg a) (pos b) = a == 0 && b == 0
eq (neg a) (neg b) = a == b

abbrev pub zero_price : Double
zero_price = pos 0

-- `std::isfinite`
unfoldable pub is_finite : Double → Bool
is_finite nan = false
is_finite (pos a) = ltb a inf_bits
is_finite (neg a) = ltb a inf_bits

-- `price <= 0.0 || std::isnan(price) || std::isinf(price)`, negated.
unfoldable pub positive_finite : Double → Bool
positive_finite p = is_finite p && lt zero_price p

-- A value that takes part in the order of the numbers.
abbrev pub IsNumber : Double → Type 0
IsNumber p = eq p p ≡ true

pub lt_irrefl : (a : Double) → lt a a ≡ false
unfolding lt
lt_irrefl nan = ground arith
lt_irrefl (pos a) = ground arith
lt_irrefl (neg a) = ground arith

pub lt_trans : (a b c : Double) → lt a b ≡ true → lt b c ≡ true → lt a c ≡ true
unfolding lt
lt_trans a b c h k = ground arith

-- Two numbers are in one order or the other, or equal.
pub eq_of_not-lt :
    (a b : Double) → IsNumber a → IsNumber b → lt a b ≡ false → lt b a ≡ false → eq a b ≡ true
unfolding lt eq
eq_of_not-lt a b ha hb h k = ground arith

pub lt-asymm : (a b : Double) → lt a b ≡ true → lt b a ≡ false
unfolding lt
lt-asymm a b h = ground arith

-- What is not below a number, and below another, puts these in order.
pub lt_of_not-lt-lt :
    (a b c : Double) → IsNumber a → IsNumber b → lt b a ≡ false → lt b c ≡ true → lt a c ≡ true
unfolding lt eq
lt_of_not-lt-lt a b c ha hb h k = ground arith

pub lt-congr : (a b c : Double) → eq a b ≡ true → lt a c ≡ lt b c
unfolding lt eq
lt-congr a b c h = ground arith

pub lt-congr_right : (a b c : Double) → eq a b ≡ true → lt c a ≡ lt c b
unfolding lt eq
lt-congr_right a b c h = ground arith

pub eq_of_lt : (a b : Double) → lt a b ≡ true → eq a b ≡ false
unfolding lt eq
eq_of_lt a b h = ground arith

-- Positive finite values are numbers, and equal as values only if they are the same.
pub positive_finite-IsNumber : (a : Double) → positive_finite a ≡ true → IsNumber a
unfolding positive_finite lt is_finite eq
positive_finite-IsNumber a h = ground arith

pub eq→same : (a b : Double) → positive_finite a ≡ true → eq a b ≡ true → a ≡ b
unfolding positive_finite lt is_finite eq
eq→same a b h e = ground arith
