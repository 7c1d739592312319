-- ===== src/Risk/Bounds.antt =====
-- packages/core/src/risk.ts: the health of a loan whose amounts and prices are not negative, as natural
-- numbers, and what its limits guarantee.
use capital_os.Shared.{
  ℕ, zero, suc, ◌-◌, ◌*◌, ◌/◌, ◌≤◌, ◌<◌, ◌≡◌, refl, sym, ◌∙◌, ℤ, pos, ◌*ℤ◌, ◌-ℤ◌, ◌≤ℤ◌, arith, true,
  ◌||◌, if◌then◌else◌, ◌==◌, leb,
}
use capital_os.Shared.Rounding.{ceil_div, ceil-le}
use native.Mathlib.Nat.{le-div_iff_mul-le, div-mul-le_self, mul_comm, zero-mul}
use capital_os.Errors.{ok}
use capital_os.Amounts.{down, up}
use capital_os.Amounts.MulDiv.{mul_div-down, mul_div-up}
use capital_os.Risk.{
  OracleQuote, AssetRiskSide, RiskParams, Health, usd_scale, times_ten, pow10, usd_notional,
  buffer_limit, ltv_of, factor_of, max_borrow_of, assess, fresh_health,
}

-- A side and limits that are not negative, on the scale that the code wants.
abbrev pub side : ℕ → ℕ → ℕ → OracleQuote → AssetRiskSide
side amount decimals price oracle = record {
  amount = pos amount;
  decimals = pos decimals;
  oracle = record oracle { price = pos price; scale = usd_scale };
}

abbrev pub limits : ℕ → ℕ → ℕ → RiskParams
limits borrow liq buffer = record {
  ltv_borrow_bps = pos borrow;
  ltv_liq_bps = pos liq;
  buffer_bps = pos buffer;
}

times_ten_pos : (n : ℕ) → 0 < times_ten n
unfolding times_ten
times_ten_pos zero = omega arith
times_ten_pos (suc n) = omega (arith, times_ten_pos n)

-- The figures of `computeHealth` on natural numbers: values in 10^-8 USD, the loan-to-value, the health
-- factor, and the limits.
abbrev pub collateral_value : ℕ → ℕ → ℕ → ℕ
collateral_value amount decimals price = amount * price / times_ten decimals

abbrev pub debt_value : ℕ → ℕ → ℕ → ℕ
debt_value amount decimals price = ceil_div (amount * price) (times_ten decimals)

abbrev pub ltv : ℕ → ℕ → ℕ
ltv c d = if c == 0 then 100000 else ceil_div (d * 10000) c

abbrev pub factor : ℕ → ℕ → ℕ → ℕ
factor liq c d = if d == 0 then 100000 else c * liq * 1 / d

abbrev pub max_debt_value : ℕ → ℕ → ℕ
max_debt_value limit c = c * limit / 10000

abbrev pub max_debt : ℕ → ℕ → ℕ → ℕ → ℕ
max_debt limit c decimals price = max_debt_value limit c * times_ten decimals / price

usd_notional-down :
    (a d p : ℕ) (o : OracleQuote)
    → usd_notional (side a d p o) down ≡ ok (pos (collateral_value a d p))
unfolding usd_notional pow10
usd_notional-down a d p o = mul_div-down a p (times_ten d) (times_ten_pos d)

usd_notional-up :
    (a d p : ℕ) (o : OracleQuote) → usd_notional (side a d p o) up ≡ ok (pos (debt_value a d p))
unfolding usd_notional pow10
usd_notional-up a d p o = mul_div-up a p (times_ten d) (times_ten_pos d)

ltv_of_lem : (c d : ℕ) → ltv_of (pos c) (pos d) ≡ ok (pos (ltv c d))
unfolding ltv_of
ltv_of_lem zero d = refl
ltv_of_lem (suc c) d = ground (arith, mul_div-up d 10000 (suc c) (omega arith))

factor_of_lem : (b l u c d : ℕ) → factor_of (limits b l u) (pos c) (pos d) ≡ ok (pos (factor l c d))
unfolding factor_of ◌*ℤ◌
factor_of_lem b l u c zero = refl
factor_of_lem b l u c (suc d) = ground (arith, mul_div-down (c * l) 1 (suc d) (omega arith))

buffer_limit_lem : (b l u : ℕ) → buffer_limit (limits b l u) ≡ pos (b - u)
unfolding buffer_limit ◌-ℤ◌
buffer_limit_lem b l u = ground arith

max_borrow_of_lem :
    (b l u a dd p c : ℕ) (o : OracleQuote)
    → 0 < p
    → max_borrow_of (limits b l u) (side a dd p o) (pos c) ≡ ok (pos (max_debt (b - u) c dd p))
unfolding max_borrow_of pow10
max_borrow_of_lem b l u a dd p c o h = rw (
  buffer_limit_lem b l u,
  mul_div-down c (b - u) 10000 (omega arith),
  mul_div-down (c * (b - u) / 10000) (times_ten dd) p h,
)

-- On amounts, prices and limits that are not negative, with a positive debt price, `computeHealth` on
-- fresh oracles never throws, and its figures are these natural numbers.
pub fresh_health_lem :
    (ca cd cp da dd dp b l u : ℕ) (o o' : OracleQuote)
    → 0 < dp
    → let c = collateral_value ca cd cp in
      let d = debt_value da dd dp in
      fresh_health (side ca cd cp o) (side da dd dp o') (limits b l u)
      ≡ ok (
          assess
            (limits b l u)
            (pos c)
            (pos d)
            (pos (ltv c d))
            (pos (factor l c d))
            (pos (max_debt (b - u) c dd dp)))
unfolding fresh_health
fresh_health_lem ca cd cp da dd dp b l u o o' h = rw (
  usd_notional-down ca cd cp o,
  usd_notional-up da dd dp o',
  ltv_of_lem (collateral_value ca cd cp) (debt_value da dd dp),
  factor_of_lem b l u (collateral_value ca cd cp) (debt_value da dd dp),
  max_borrow_of_lem b l u da dd dp (collateral_value ca cd cp) o' h,
)

-- The value of a debt up to the limit, rounded up, stays under the limit's own value.
debt_value-max_debt :
    (limit c dd dp x : ℕ)
    → 0 < dp
    → x ≤ max_debt limit c dd dp
    → debt_value x dd dp ≤ max_debt_value limit c
debt_value-max_debt limit c dd dp x h le =
    ceil-le (x * dp) (times_ten dd) (max_debt_value limit c) (times_ten_pos dd)
      ((le-div_iff_mul-le h).0 le)

zero_value : (limit d : ℕ) → d ≤ max_debt_value limit 0 → d ≡ 0
zero_value limit d le = omega (arith, zero-mul limit)

scaled_le : (c limit d : ℕ) → d ≤ max_debt_value limit c → d * 10000 ≤ limit * c
scaled_le c limit d le = omega (arith, mul_comm c limit, div-mul-le_self (c * limit) 10000)

-- A debt value under the limit's keeps the loan-to-value within the limit.
ltv_within : (limit c d : ℕ) → d ≤ max_debt_value limit c → ((d == 0) || leb (ltv c d) limit) ≡ true
ltv_within limit zero d le = ground (arith, zero_value limit d le)
ltv_within limit (suc c) d le =
    ground (arith, ceil-le (d * 10000) (suc c) limit (omega arith) (scaled_le (suc c) limit d le))

within-assess :
    (b l u c d f m : ℕ)
    → ((d == 0) || leb (ltv c d) (b - u)) ≡ true
    → (assess (limits b l u) (pos c) (pos d) (pos (ltv c d)) (pos f) (pos m)).within_buffer ≡ true
unfolding assess
within-assess b l u c d f m h = ground (arith, buffer_limit_lem b l u)

reported-limit :
    (b l u c d m : ℕ) (h : Health)
    → ok h ≡ ok (assess (limits b l u) (pos c) (pos d) (pos (ltv c d)) (pos (factor l c d)) (pos m))
    → h.max_borrow ≡ pos m
unfolding assess
reported-limit b l u c d m h e = ground arith

le_of_limit : (x limit : ℕ) (z : ℤ) → z ≡ pos limit → pos x ≤ℤ z → x ≤ limit
le_of_limit x limit z e le = ground arith

-- Any debt up to the limit that `computeHealth` reports is within the buffer, on the same collateral and
-- the same price: a fresh computation for it succeeds, says so, and reports the same limit.
pub max_borrow_within_buffer :
    (ca cd cp da dd dp b l u : ℕ) (o o' : OracleQuote) (h : Health) (x : ℕ)
    → 0 < dp
    → fresh_health (side ca cd cp o) (side da dd dp o') (limits b l u) ≡ ok h
    → pos x ≤ℤ h.max_borrow
    → (h' : Health) × (fresh_health (side ca cd cp o) (side x dd dp o') (limits b l u) ≡ ok h')
      × (h'.within_buffer ≡ true)
      × (h'.max_borrow ≡ h.max_borrow)
max_borrow_within_buffer ca cd cp da dd dp b l u o o' h x p e le = (
  assess (limits b l u) (pos c) (pos d) (pos (ltv c d)) (pos (factor l c d)) (pos limit),
  fresh_health_lem ca cd cp x dd dp b l u o o' p,
  within-assess b l u c d (factor l c d) limit
      (ltv_within (b - u) c d (debt_value-max_debt (b - u) c dd dp x p below)),
  unfold assess in sym same_limit,
)
  where
    c : ℕ
    c = collateral_value ca cd cp

    d : ℕ
    d = debt_value x dd dp

    limit : ℕ
    limit = max_debt (b - u) c dd dp

    same_limit : h.max_borrow ≡ pos limit
    same_limit =
        reported-limit b l u c (debt_value da dd dp) limit h
          (sym e ∙ fresh_health_lem ca cd cp da dd dp b l u o o' p)

    below : x ≤ limit
    below = le_of_limit x limit h.max_borrow same_limit le
