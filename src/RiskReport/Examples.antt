-- ===== src/RiskReport/Examples.antt =====
-- Reports on a loan in packages/core/src/riskReport.ts.
use capital_os.Amounts.{mul_div}
use capital_os.Shared.{
  ℕ, negsuc, show_ℤ, ◌++◌, ◌+◌, ◌*◌, ◌<◌, Text, codes, ℤ, pos, ◌<ℤ◌, ◌≡◌, refl, arith, true, false,
  not, ◌||◌, Option, none, some, List, [], ◌∷◌, All, filter, ◌*ℤ◌, ◌+ℤ◌, ◌-ℤ◌, ◌/ℤ◌, text_eq,
}
use capital_os.Errors.{ok}
use capital_os.Risk.{
  OracleQuote, Health, fresh_health, compute_health, oracle_fresh, assess, buffer_limit, factor_of,
  ltv_of, max_borrow_of, pow10, times_ten, usd_notional,
}
use capital_os.Risk.Bounds.{side, limits, collateral_value, debt_value}
use capital_os.RiskReport.Health.{
  ProtectiveAction, granite_protective_actions, interpret_granite_health, known,
}
use capital_os.RiskReport.Stress.{
  shift_label, StressScenarioReport, stress_granite_collateral, bad_shift, shift_oracle_price,
}
use capital_os.RiskReport.Concentration.{Slice, concentration_by_quantity, is_unknown}
use capital_os.RiskReport.Texts.{risk_calculation_version, granite_health_limitations}
use capital_os.RiskReport.Safety.{untrusted_blocks, liquidatable_by_factor}
use capital_os.RiskReport.Totals.{AddsUp, concentration-AddsUp}

abbrev quote : OracleQuote
quote = record {
  price = pos 10;
  scale = pos 8;
  observed_at = [];
  source = [];
  stale = false;
  max_age_ms = pos 90000;
  disagreement = false;
  source_set = none;
  status = none;
  warnings = none;
}

-- Every text is the time 0, or none is a time.
abbrev at_zero : Text → Option ℤ
at_zero t = some (pos 0)

abbrev no_date : Text → Option ℤ
no_date t = none

abbrev blind : Health
blind = record {
  collateral_usd = pos 0;
  debt_usd = pos 0;
  current_ltv_bps = pos 0;
  health_factor_bps = pos 0;
  max_borrow = pos 0;
  liquidation_threshold_bps = pos 6000;
  within_buffer = false;
  healthy = false;
  stale = true;
  warnings = codes "oracle is stale; health and LTV are unavailable" ∷ [];
}

unseen :
    compute_health no_date (side 10 0 10 quote) (side 20 0 1 quote) (limits 5000 6000 500) (pos 1)
    ≡ ok blind
unfolding compute_health oracle_fresh
unseen = refl

not_fresh :
    (quote.disagreement
      || quote.disagreement
      || not (oracle_fresh no_date (side 10 0 10 quote).oracle (pos 1))
      || not (oracle_fresh no_date (side 20 0 1 quote).oracle (pos 1)))
    ≡ true
unfolding oracle_fresh
not_fresh = refl

untrusted_blocks_example :
    All
      (λ (a : ProtectiveAction). a.allowed ≡ false)
      (granite_protective_actions blind false (known (pos 9)) (pos 1)).actions
    × ((interpret_granite_health blind (limits 5000 6000 500)).liquidatable ≡ false)
    × ((interpret_granite_health blind (limits 5000 6000 500)).within_borrow_cap ≡ false)
untrusted_blocks_example =
    untrusted_blocks no_date (side 10 0 10 quote) (side 20 0 1 quote) (limits 5000 6000 500) (pos 1)
      blind false (known (pos 9)) (pos 1) not_fresh unseen

-- 100 in value against 80 at a threshold of 60 %: the health factor is 0.75.
abbrev sinking : Health
sinking = record {
  collateral_usd = pos 100;
  debt_usd = pos 80;
  current_ltv_bps = pos 8000;
  health_factor_bps = pos 7500;
  max_borrow = pos 45;
  liquidation_threshold_bps = pos 6000;
  within_buffer = false;
  healthy = false;
  stale = false;
  warnings = [];
}

sinking_lem :
    fresh_health (side 10 0 10 quote) (side 80 0 1 quote) (limits 5000 6000 500) ≡ ok sinking
unfolding fresh_health usd_notional pow10 mul_div times_ten ltv_of ◌/ℤ◌ ◌*ℤ◌ factor_of ◌-ℤ◌ ◌+ℤ◌
    max_borrow_of assess buffer_limit
sinking_lem = refl

value_positive : 0 < collateral_value 10 0 10
unfolding times_ten
value_positive = omega arith

debt_positive : 0 < debt_value 80 0 1
unfolding times_ten
debt_positive = omega arith

liquidatable_by_factor_example :
    (sinking.health_factor_bps <ℤ pos 10000
      → (interpret_granite_health sinking (limits 5000 6000 500)).liquidatable ≡ true)
    × ((interpret_granite_health sinking (limits 5000 6000 500)).liquidatable ≡ true
        → 6000 * collateral_value 10 0 10 < debt_value 80 0 1 * 10000 + collateral_value 10 0 10)
liquidatable_by_factor_example =
    liquidatable_by_factor 10 0 10 80 0 1 5000 6000 500 quote quote sinking (omega arith)
      value_positive debt_positive sinking_lem

-- A shift of -100 % would leave no price.
abbrev at_full_loss : StressScenarioReport
at_full_loss = record {
  calculation_version = risk_calculation_version;
  assumptions = record {
    collateral_feed = [];
    debt_feed = [];
    collateral_price = show_ℤ (pos 10);
    published_at = [];
    liquidation_threshold_bps = show_ℤ (pos 6000);
    note =
        codes
          "Only the collateral price moves. Debt, interest and the protocol's parameters are held still.";
  };
  limitations =
      granite_health_limitations
      ++ codes
          "Only the collateral oracle price is shifted by the declared bps. Debt price, interest accrual and protocol parameters are held still."
        ∷ codes
            "Scenarios are withheld when any oracle is stale or a shift would invent a non-positive price."
        ∷ [];
  rows =
      record {
        shift_bps = negsuc 9999;
        label = shift_label (negsuc 9999);
        health = none;
        unavailable_reason = some bad_shift;
      }
      ∷ [];
}

stressed :
    stress_granite_collateral at_zero
      (side 10 0 10 quote)
      (side 20 0 1 quote)
      (limits 5000 6000 500)
      (pos 1)
      []
      []
      (negsuc 9999 ∷ [])
    ≡ ok at_full_loss
unfolding stress_granite_collateral oracle_fresh ◌-ℤ◌ shift_oracle_price ◌+ℤ◌
stressed = refl

abbrev held : Text → ℕ → Slice
held key n = record { key = key; quantity = some (pos n); asset_id = b's' ∷ [] }

abbrev positions : List Slice
positions = held (b'g' ∷ []) 6 ∷ held (b'z' ∷ []) 3 ∷ held (b'g' ∷ []) 1 ∷ []

compared : (concentration_by_quantity positions).available ≡ true
unfolding concentration_by_quantity text_eq ◌+ℤ◌
compared = refl

concentration-AddsUp_example :
    AddsUp positions (concentration_by_quantity positions) × (filter is_unknown positions ≡ [])
concentration-AddsUp_example = concentration-AddsUp positions compared
