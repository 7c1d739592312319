-- ===== src/Risk/Examples.antt =====
-- A loan at work in packages/core/src/risk.ts: collateral of 10 units at a price of 10, and a debt of 20 at 1.
use capital_os.Amounts.{mul_div}
use capital_os.Shared.{pos, ◌≡◌, refl, true, false, none, [], arith, ◌*ℤ◌, ◌+ℤ◌, ◌-ℤ◌, ◌/ℤ◌}
use capital_os.Errors.{ok}
use capital_os.Risk.{
  OracleQuote, Health, fresh_health, assess, times_ten, buffer_limit, factor_of, ltv_of,
  max_borrow_of, pow10, usd_notional,
}
use capital_os.Risk.Bounds.{side, limits, max_borrow_within_buffer}

abbrev quote : OracleQuote
quote = record {
  price = pos 0;
  scale = pos 8;
  observed_at = [];
  source = [];
  stale = false;
  max_age_ms = pos 90000;
  disagreement = false;
  source_set = none;
  status = none;
  warnings = none;
}

-- 100 in value against 20: a loan-to-value of 2000, and up to 45 may be owed within the buffer.
abbrev loan : Health
loan = record {
  collateral_usd = pos 100;
  debt_usd = pos 20;
  current_ltv_bps = pos 2000;
  health_factor_bps = pos 30000;
  max_borrow = pos 45;
  liquidation_threshold_bps = pos 6000;
  within_buffer = true;
  healthy = true;
  stale = false;
  warnings = [];
}

loan_lem : fresh_health (side 10 0 10 quote) (side 20 0 1 quote) (limits 5000 6000 500) ≡ ok loan
unfolding fresh_health usd_notional pow10 mul_div times_ten ltv_of ◌/ℤ◌ ◌*ℤ◌ factor_of ◌-ℤ◌ ◌+ℤ◌
    max_borrow_of assess buffer_limit
loan_lem = refl

max_borrow_within_buffer_example :
    (h' : Health) × (fresh_health (side 10 0 10 quote) (side 45 0 1 quote) (limits 5000 6000 500)
      ≡ ok h')
    × (h'.within_buffer ≡ true)
    × (h'.max_borrow ≡ pos 45)
max_borrow_within_buffer_example =
    max_borrow_within_buffer 10 0 10 20 0 1 5000 6000 500 quote quote loan 45 (omega arith) loan_lem
      (omega arith)
