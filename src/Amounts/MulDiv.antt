-- ===== src/Amounts/MulDiv.antt =====
-- packages/core/src/amounts.ts: `mulDiv` on quantities that are not negative, and its rounding.
use capital_os.Shared.{
  ℕ, ◌+◌, ◌-◌, ◌*◌, ◌/◌, ◌≤◌, ◌<◌, ◌≡◌, pos, ◌+ℤ◌, ◌-ℤ◌, ◌*ℤ◌, ◌/ℤ◌, arith, ap, eqb_ℤ, false,
}
use capital_os.Shared.Rounding.{ceil_div, floor_bounds, ceil_bounds, floor-le-ceil, ceil-le-floor}
use capital_os.Errors.{ok}
use capital_os.Amounts.{down, up, mul_div}

pub mul_div-down : (v n d : ℕ) → 0 < d → mul_div (pos v) (pos n) (pos d) down ≡ ok (pos (v * n / d))
unfolding mul_div ◌*ℤ◌ ◌/ℤ◌
mul_div-down v n d h = ground arith

pred_sum : (a d : ℕ) → 0 < d → pos a +ℤ pos d -ℤ pos 1 ≡ pos (a + d - 1)
unfolding ◌+ℤ◌ ◌-ℤ◌
pred_sum a d h = ground arith

nonzero : (d : ℕ) → 0 < d → eqb_ℤ (pos d) (pos 0) ≡ false
nonzero d h = ground arith

pub mul_div-up :
    (v n d : ℕ) → 0 < d → mul_div (pos v) (pos n) (pos d) up ≡ ok (pos (ceil_div (v * n) d))
unfolding mul_div ◌*ℤ◌ ◌/ℤ◌
mul_div-up v n d h = rw (nonzero d h) (ap (λ t. ok (t /ℤ pos d)) (pred_sum (v * n) d h))

-- Either rounding of a division of natural numbers by a positive one gives a quotient that is within
-- one of the exact value: rounded down it does not exceed it, rounded up it is not below it.
pub mul_div_bounds :
    (v n d : ℕ)
    → 0 < d
    → (q : ℕ) × (r : ℕ) × (mul_div (pos v) (pos n) (pos d) down ≡ ok (pos q))
      × (mul_div (pos v) (pos n) (pos d) up ≡ ok (pos r))
      × (q * d ≤ v * n)
      × (v * n < q * d + d)
      × (v * n ≤ r * d)
      × (r * d < v * n + d)
      × (q ≤ r)
      × (r ≤ q + 1)
mul_div_bounds v n d h = (
  v * n / d,
  ceil_div (v * n) d,
  mul_div-down v n d h,
  mul_div-up v n d h,
  (floor_bounds (v * n) d h).0,
  (floor_bounds (v * n) d h).1,
  (ceil_bounds (v * n) d h).0,
  (ceil_bounds (v * n) d h).1,
  floor-le-ceil (v * n) d h,
  ceil-le-floor (v * n) d h,
)
