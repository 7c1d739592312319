-- ===== src/Performance/Shares.antt =====
-- packages/core/src/performance.ts: shares of a vault and the assets under them.
use capital_os.Shared.{Text, codes, ℤ, pos, eqb_ℤ, show_ℤ, if◌then◌else◌}
use capital_os.Errors.{Result, ok, err, error, ◌>>=◌, ◌>>◌}
use capital_os.Amounts.{parse_quantity, mul_div, down}

pub record ShareRate : Type 0 where
  pub numerator : Text
  pub denominator : Text

abbrev pub reject_zero : ℤ → Text → Result (Unit {0})
reject_zero z message = if eqb_ℤ z (pos 0) then err (error message) else ok tt

unfoldable pub underlying_from_shares : Text → ShareRate → Result Text
underlying_from_shares shares rate = do
  s ← parse_quantity shares
  num ← parse_quantity rate.numerator
  den ← parse_quantity rate.denominator
  reject_zero num (codes "Share rate numerator cannot be zero")
  q ← mul_div s den num down
  ok (show_ℤ q)

unfoldable pub shares_from_underlying : Text → ShareRate → Result Text
shares_from_underlying assets rate = do
  a ← parse_quantity assets
  num ← parse_quantity rate.numerator
  den ← parse_quantity rate.denominator
  reject_zero den (codes "Share rate denominator cannot be zero")
  q ← mul_div a num den down
  ok (show_ℤ q)
