-- ===== src/Shared/Rounding.antt =====
-- Rounded quotients of natural numbers: what is known of `a / b` and of `(a + b - 1) / b`.
use Prim.Native.Nat.{ℕ, suc, ◌+◌, ◌-◌, ◌*◌, ◌/◌, ◌≤◌, ◌<◌}
use native.Mathlib.Omega.{arith}
use native.Mathlib.Nat.{div-mul-le_self, lt-div-mul-add, le-div_iff_mul-le, div-lt_iff_lt-mul}

-- The quotient rounded up.
abbrev pub ceil_div : ℕ → ℕ → ℕ
ceil_div a b = (a + b - 1) / b

-- `a` lies between the quotients rounded down and up, each times the divisor, and these differ from it
-- by less than the divisor.
pub floor_bounds : (a b : ℕ) → 0 < b → (a / b * b ≤ a) × (a < a / b * b + b)
floor_bounds a b h = (div-mul-le_self a b, lt-div-mul-add h)

pub ceil_bounds : (a b : ℕ) → 0 < b → (a ≤ ceil_div a b * b) × (ceil_div a b * b < a + b)
ceil_bounds a b h =
    (omega (arith, lt-div-mul-add {a = a + b - 1} h), omega (arith, div-mul-le_self (a + b - 1) b))

pub ceil-le : (a b k : ℕ) → 0 < b → a ≤ k * b → ceil_div a b ≤ k
ceil-le a b k h le =
    omega (arith, (div-lt_iff_lt-mul {k = b} {x = a + b - 1} {y = suc k} h).1 (omega arith))

pub le_of_ceil-le : (a b k : ℕ) → 0 < b → ceil_div a b ≤ k → a ≤ k * b
le_of_ceil-le a b k h le =
    omega (arith, (div-lt_iff_lt-mul {k = b} {x = a + b - 1} {y = suc k} h).0 (omega arith))

pub floor_mono : (a b c : ℕ) → a ≤ b → 0 < c → a / c ≤ b / c
floor_mono a b c le h = (le-div_iff_mul-le h).1 (omega (arith, div-mul-le_self a c))

pub ceil_mono : (a b c : ℕ) → a ≤ b → 0 < c → ceil_div a c ≤ ceil_div b c
ceil_mono a b c le h = ceil-le a c (ceil_div b c) h (omega (arith, (ceil_bounds b c h).0))

-- Rounding down by one divisor and then by another, and going back rounded up, gains nothing.
pub ceil-floor_le : (m u p : ℕ) → 0 < u → 0 < p → ceil_div (m * u / p * p) u ≤ m
ceil-floor_le m u p hu hp = ceil-le (m * u / p * p) u m hu (div-mul-le_self (m * u) p)

pub floor-le-ceil : (a b : ℕ) → 0 < b → a / b ≤ ceil_div a b
floor-le-ceil a b h = (le-div_iff_mul-le h).1 (omega (arith, div-mul-le_self a b))

pub ceil-le-floor : (a b : ℕ) → 0 < b → ceil_div a b ≤ a / b + 1
ceil-le-floor a b h = ceil-le a b (a / b + 1) h (omega (arith, lt-div-mul-add {a = a} h))
