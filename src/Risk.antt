-- ===== src/Risk.antt =====
-- packages/core/src/risk.ts: oracle freshness, notional values and the health of a loan. A `Date` is
-- its time in milliseconds; `Date.parse`, whose answer on other than ISO text is the engine's own, is
-- an argument, and gives `none` for NaN.
pub mod Bounds
pub mod Liquidation
mod Examples
use capital_os.Shared.{
  ℕ, zero, suc, ◌*◌, Text, codes, text_eq, ℤ, pos, negsuc, ◌+ℤ◌, ◌-ℤ◌, ◌*ℤ◌, leb_ℤ, ltb_ℤ, eqb_ℤ,
  show_ℤ, Bool, true, false, not, ◌&&◌, ◌||◌, Option, none, some, List, [], ◌∷◌, ◌++◌,
  if◌then◌else◌,
}
use capital_os.Errors.{
  Result, ok, err, error, throw, throw_if, oracle_stale, quorum_disagreement, ◌>>=◌,
}
use capital_os.Amounts.{Rounding, down, up, mul_div}

abbrev pub bps : ℤ
bps = pos 10000

abbrev pub usd_scale : ℤ
usd_scale = pos 8

abbrev pub oracle_max_age_ms : ℤ
oracle_max_age_ms = pos 180000

-- `disagreement` is optional in the code, and an absent one counts as false there.
pub record OracleQuote : Type 0 where
  pub price : ℤ
  pub scale : ℤ
  pub observed_at : Text
  pub source : Text
  pub stale : Bool
  pub max_age_ms : ℤ
  pub disagreement : Bool
  pub source_set : Option (List Text)
  pub status : Option Text
  pub warnings : Option (List Text)

pub record AssetRiskSide : Type 0 where
  pub amount : ℤ
  pub decimals : ℤ
  pub oracle : OracleQuote

pub record RiskParams : Type 0 where
  pub ltv_borrow_bps : ℤ
  pub ltv_liq_bps : ℤ
  pub buffer_bps : ℤ

pub record Health : Type 0 where
  pub collateral_usd : ℤ
  pub debt_usd : ℤ
  pub current_ltv_bps : ℤ
  pub health_factor_bps : ℤ
  pub max_borrow : ℤ
  pub liquidation_threshold_bps : ℤ
  pub within_buffer : Bool
  pub healthy : Bool
  pub stale : Bool
  pub warnings : List Text

-- The loop `out *= 10n`.
unfoldable pub times_ten : ℕ → ℕ
times_ten zero = 1
times_ten (suc n) = times_ten n * 10

unfoldable pub pow10 : ℤ → Result ℤ
pow10 (negsuc n) = err (error (codes "decimals cannot be negative"))
pow10 (pos n) = ok (pos (times_ten n))

unfoldable pub scaled_value : AssetRiskSide → Rounding → Result ℤ
scaled_value side rounding = do
  unit ← pow10 side.decimals
  mul_div side.amount side.oracle.price unit rounding

unfoldable pub usd_notional : AssetRiskSide → Rounding → Result ℤ
unfolding scaled_value
usd_notional side rounding =
    if eqb_ℤ side.oracle.scale usd_scale
    then scaled_value side rounding
    else err (error (codes "oracle scale must be 8"))

abbrev has_status : Text → Option Text → Bool
has_status s none = false
has_status s (some t) = text_eq t s

unfoldable pub assert_oracle_quorum : OracleQuote → Text → Result (Unit {0})
unfolding codes text_eq
assert_oracle_quorum oracle label =
    throw_if (oracle.disagreement || has_status (codes "disputed") oracle.status)
      quorum_disagreement
      (label ++ codes " oracle has quorum disagreement; financial actions fail closed")

abbrev unavailable : RiskParams → Text → Health
unavailable params warning = record {
  collateral_usd = pos 0;
  debt_usd = pos 0;
  current_ltv_bps = pos 0;
  health_factor_bps = pos 0;
  max_borrow = pos 0;
  liquidation_threshold_bps = params.ltv_liq_bps;
  within_buffer = false;
  healthy = false;
  stale = true;
  warnings = warning ∷ [];
}

unfoldable pub buffer_limit : RiskParams → ℤ
buffer_limit params =
    if ltb_ℤ params.buffer_bps params.ltv_borrow_bps
    then params.ltv_borrow_bps -ℤ params.buffer_bps
    else pos 0

-- `collateralUsd === 0n ? BPS * 10n : mulDiv(debtUsd, BPS, collateralUsd, "up")`
unfoldable pub ltv_of : ℤ → ℤ → Result ℤ
ltv_of collateral_usd debt_usd =
    if eqb_ℤ collateral_usd (pos 0) then ok (pos 100000) else mul_div debt_usd bps collateral_usd up

-- `debtUsd === 0n ? BPS * 10n : mulDiv(collateralUsd * ltvLiqBps, 1n, debtUsd, "down")`
unfoldable pub factor_of : RiskParams → ℤ → ℤ → Result ℤ
factor_of params collateral_usd debt_usd =
    if eqb_ℤ debt_usd (pos 0)
    then ok (pos 100000)
    else mul_div (collateral_usd *ℤ params.ltv_liq_bps) (pos 1) debt_usd down

-- The largest debt, in the debt asset's base units, that stays in the buffer.
unfoldable pub max_borrow_of : RiskParams → AssetRiskSide → ℤ → Result ℤ
max_borrow_of params debt collateral_usd = do
  max_debt_usd ← mul_div collateral_usd (buffer_limit params) bps down
  unit ← pow10 debt.decimals
  mul_div max_debt_usd unit debt.oracle.price down

abbrev buffer_warning : Bool → Bool → List Text
buffer_warning within healthy =
    if not within && healthy
    then codes "projected LTV is inside the buffer to liquidation" ∷ []
    else []

abbrev threshold_warning : RiskParams → List Text
threshold_warning params =
    if leb_ℤ params.ltv_liq_bps params.ltv_borrow_bps
    then codes "liquidation threshold must be above borrow LTV" ∷ []
    else []

-- The tests and the record at the end of `computeHealth`.
unfoldable pub assess : RiskParams → ℤ → ℤ → ℤ → ℤ → ℤ → Health
assess params collateral_usd debt_usd ltv factor max_borrow =
    let healthy = leb_ℤ bps factor && leb_ℤ ltv params.ltv_borrow_bps in
    let within = eqb_ℤ debt_usd (pos 0) || leb_ℤ ltv (buffer_limit params) in
    record {
      collateral_usd = collateral_usd;
      debt_usd = debt_usd;
      current_ltv_bps = ltv;
      health_factor_bps = factor;
      max_borrow = max_borrow;
      liquidation_threshold_bps = params.ltv_liq_bps;
      within_buffer = within;
      healthy = healthy;
      stale = false;
      warnings = buffer_warning within healthy ++ threshold_warning params;
    }

-- `computeHealth` once both oracles are fresh and agreed.
unfoldable pub fresh_health : AssetRiskSide → AssetRiskSide → RiskParams → Result Health
fresh_health collateral debt params = do
  collateral_usd ← usd_notional collateral down
  debt_usd ← usd_notional debt up
  ltv ← ltv_of collateral_usd debt_usd
  factor ← factor_of params collateral_usd debt_usd
  max_borrow ← max_borrow_of params debt collateral_usd
  ok (assess params collateral_usd debt_usd ltv factor max_borrow)

abbrev at_least_zero : ℤ → ℤ
at_least_zero z = if ltb_ℤ z (pos 0) then pos 0 else z

module _ (parse_date : Text → Option ℤ) where
  unfoldable pub oracle_age_ms : OracleQuote → ℤ → Option ℤ
  oracle_age_ms oracle now = elim (parse_date oracle.observed_at) [
    | none ↦ none
    | some t ↦ some (now -ℤ t)
  ]

  abbrev age_in_range : OracleQuote → Option ℤ → Bool
  age_in_range oracle none = false
  age_in_range oracle (some age) = leb_ℤ (pos 0) age && leb_ℤ age oracle.max_age_ms

  unfoldable pub oracle_fresh : OracleQuote → ℤ → Bool
  unfolding oracle_age_ms
  oracle_fresh oracle now =
      if oracle.stale then false else age_in_range oracle (oracle_age_ms oracle now)

  abbrev age_text : Option ℤ → Text
  age_text none = codes "NaN"
  age_text (some age) = show_ℤ age

  unfoldable pub assert_oracle_fresh : OracleQuote → ℤ → Text → Result (Unit {0})
  unfolding oracle_age_ms
  assert_oracle_fresh oracle now label = throw_if (not (oracle_fresh oracle now)) oracle_stale (
      label
      ++ codes " oracle is stale or age "
      ++ age_text (oracle_age_ms oracle now)
      ++ codes "ms exceeds "
      ++ show_ℤ oracle.max_age_ms
      ++ codes "ms")

  unfoldable pub compute_health : AssetRiskSide → AssetRiskSide → RiskParams → ℤ → Result Health
  compute_health collateral debt params now =
      if collateral.oracle.disagreement || debt.oracle.disagreement
      then ok (
          unavailable params
            (codes "oracle has quorum disagreement; health and LTV are unavailable"))
      else if not (oracle_fresh collateral.oracle now) || not (oracle_fresh debt.oracle now)
      then ok (unavailable params (codes "oracle is stale; health and LTV are unavailable"))
      else fresh_health collateral debt params

  -- The sides come with the amounts before; the deltas are added, and a negative sum counts as 0.
  unfoldable pub projected_health :
      AssetRiskSide → AssetRiskSide → ℤ → ℤ → RiskParams → ℤ → Result Health
  projected_health collateral debt collateral_delta debt_delta params now =
      compute_health
        (record collateral { amount = at_least_zero (collateral.amount +ℤ collateral_delta) })
        (record debt { amount = at_least_zero (debt.amount +ℤ debt_delta) }) params now

unfoldable pub min_out_from_spot : ℤ → ℤ → Result ℤ
min_out_from_spot amount_out slippage_bps =
    if ltb_ℤ slippage_bps (pos 0) || leb_ℤ bps slippage_bps
    then err (error (codes "slippage must be between 0 and 9999 bps"))
    else mul_div amount_out (bps -ℤ slippage_bps) bps down

-- The two pairs are (protocol, action).
unfoldable pub markets_comparable : Text × Text → Text × Text → Bool
markets_comparable left right = text_eq left.1 right.1 && text_eq left.0 right.0
