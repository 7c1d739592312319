-- ===== src/Risk/Liquidation.antt =====
-- packages/core/src/risk.ts: how the health factor and the loan-to-value meet at the threshold.
use capital_os.Shared.{ℕ, ◌+◌, ◌*◌, ◌/◌, ◌≤◌, ◌<◌, ◌≡◌, arith}
use capital_os.Shared.Rounding.{ceil_div, ceil_bounds}
use capital_os.Risk.Bounds.{ltv, factor}
use native.Mathlib.Nat.{le_of_mul-le-mul_right, div-lt_iff_lt-mul, mul-le-mul_right, mul_comm}

factor_suc : (liq c d : ℕ) → 0 < d → factor liq c d ≡ c * liq * 1 / d
factor_suc liq c d h = ground arith

ltv_suc : (c d : ℕ) → 0 < c → ltv c d ≡ ceil_div (d * 10000) c
ltv_suc c d h = ground arith

pub below_one : (liq c d : ℕ) → 0 < d → factor liq c d < 10000 → liq * c < d * 10000
below_one liq c d hd low = omega (
  arith,
  mul_comm c liq,
  (div-lt_iff_lt-mul {x = c * liq * 1} {y = 10000} hd).0 (rw (factor_suc liq c d hd) at low),
)

-- A health factor below 1.0 means that the loan-to-value has reached the threshold.
pub liquidatable_of_factor : (liq c d : ℕ) → 0 < c → 0 < d → factor liq c d < 10000 → liq ≤ ltv c d
liquidatable_of_factor liq c d hc hd low = rw (ltv_suc c d hc) (
    le_of_mul-le-mul_right {k = c}
      (omega (arith, below_one liq c d hd low, (ceil_bounds (d * 10000) c hc).0)) hc)

-- A loan-to-value that has reached the threshold means that the debt exceeds the value one basis point
-- below it.
pub debt_of_liquidatable : (liq c d : ℕ) → 0 < c → 0 < d → liq ≤ ltv c d → liq * c < d * 10000 + c
debt_of_liquidatable liq c d hc hd high =
    omega
      (arith, mul-le-mul_right c (rw (ltv_suc c d hc) at high), (ceil_bounds (d * 10000) c hc).1)
