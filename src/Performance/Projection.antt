-- ===== src/Performance/Projection.antt =====
-- packages/core/src/performance.ts: `evaluateForward30dProjection`.
use capital_os.Shared.{
  Text, codes, is_empty, ℤ, pos, ◌*ℤ◌, show_ℤ, Bool, true, false, ◌||◌, Option, none, some,
  if◌then◌else◌,
}
use capital_os.Errors.{Result, ok, ◌>>=◌}
use capital_os.Amounts.{parse_quantity, mul_div, down}

pub data ProjectionRateStatus : Type 0 where
  verified unverified stale disputed missing : ProjectionRateStatus

pub data RateDisagreement : Type 0 where
  matching mismatch unavailable : RateDisagreement

pub record Forward30dProjection : Type 0 where
  pub is_projection_available : Bool
  pub projected30d_amount : Option Text
  pub projected30d_usd : Option Text
  pub rate_used_bps : Option Text
  pub rate_status : ProjectionRateStatus
  pub unavailable_reason : Option Text

pub record Forward30dProjectionParams : Type 0 where
  pub principal_amount : Text
  pub principal_usd : Option Text
  pub rate_bps : Option Text
  pub rate_status : ProjectionRateStatus
  pub rate_disagreement : Option RateDisagreement
  pub is_stale : Bool

abbrev withheld : Option Text → ProjectionRateStatus → Text → Forward30dProjection
withheld rate status reason = record {
  is_projection_available = false;
  projected30d_amount = none;
  projected30d_usd = none;
  rate_used_bps = rate;
  rate_status = status;
  unavailable_reason = some reason;
}

abbrev pub is_mismatch : Option RateDisagreement → Bool
is_mismatch (some mismatch) = true
is_mismatch _ = false

abbrev pub is_unavailable : Option RateDisagreement → Bool
is_unavailable (some unavailable) = true
is_unavailable _ = false

abbrev pub status_stale : ProjectionRateStatus → Bool
status_stale stale = true
status_stale _ = false

abbrev pub status_disputed : ProjectionRateStatus → Bool
status_disputed disputed = true
status_disputed _ = false

abbrev pub status_missing : ProjectionRateStatus → Bool
status_missing missing = true
status_missing _ = false

abbrev pub status_unverified : ProjectionRateStatus → Bool
status_unverified unverified = true
status_unverified _ = false

-- principal * rate * 30 / 3650000, rounded down
unfoldable pub project : Text → ℤ → Result Text
project principal numerator = do
  p ← parse_quantity principal
  q ← mul_div p numerator (pos 3650000) down
  ok (show_ℤ q)

-- The principal in USD is projected where it is given and not empty.
unfoldable pub project_usd : Option Text → ℤ → Result (Option Text)
unfolding project
project_usd none numerator = ok none
project_usd (some usd) numerator =
    if is_empty usd then ok none else (project usd numerator >>= λ q. ok (some q))

unfoldable pub verified_projection : Forward30dProjectionParams → Text → Result Forward30dProjection
unfolding project project_usd
verified_projection p rate = do
  principal ← parse_quantity p.principal_amount
  bps ← parse_quantity rate
  amount ← mul_div principal (bps *ℤ pos 30) (pos 3650000) down
  usd ← project_usd p.principal_usd (bps *ℤ pos 30)
  ok (record {
    is_projection_available = true;
    projected30d_amount = some (show_ℤ amount);
    projected30d_usd = usd;
    rate_used_bps = some rate;
    rate_status = verified;
    unavailable_reason = none;
  })

abbrev missing_reason : Text
missing_reason =
    codes "Thirty-day projections require current verified rates; market has no reported rate"

-- With a rate: whether it is missing all the same, unverified, or verified.
unfoldable pub with_rate : Forward30dProjectionParams → Text → Result Forward30dProjection
unfolding verified_projection
with_rate p rate =
    if status_missing p.rate_status
    then ok (withheld none missing missing_reason)
    else if status_unverified p.rate_status || is_unavailable p.rate_disagreement
    then ok (
        withheld (some rate) unverified
          (codes "Thirty-day projections require current verified rates; rate is unverified"))
    else verified_projection p rate

unfoldable pub evaluate_forward30d_projection :
    Forward30dProjectionParams → Result Forward30dProjection
unfolding with_rate
evaluate_forward30d_projection p =
    if p.is_stale || status_stale p.rate_status
    then ok (
        withheld p.rate_bps stale
          (codes "Thirty-day projections require current verified rates; current rate is stale"))
    else if is_mismatch p.rate_disagreement || status_disputed p.rate_status
    then ok (
        withheld p.rate_bps disputed (
          codes
            "Thirty-day projections require current verified rates; rate is disputed by independent node read"))
    else elim p.rate_bps [
      | none ↦ ok (withheld none missing missing_reason)
      | some rate ↦ with_rate p rate
    ]
