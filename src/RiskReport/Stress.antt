-- ===== src/RiskReport/Stress.antt =====
-- packages/core/src/riskReport.ts: what a shift of the collateral price does to a loan's health.
use capital_os.Shared.{
  ℕ, suc, ◌+◌, ◌/◌, Text, codes, ℤ, pos, negsuc, ◌+ℤ◌, ◌*ℤ◌, ◌/ℤ◌, leb_ℤ, show_ℕ, show_ℤ, not,
  Option, none, some, List, [], ◌∷◌, ◌++◌, if◌then◌else◌,
}
use capital_os.Errors.{Result, ok, ◌>>=◌}
use capital_os.Risk.{AssetRiskSide, RiskParams, Health, oracle_fresh, compute_health}
use capital_os.RiskReport.Texts.{risk_calculation_version, granite_health_limitations}

pub record StressAssumptions : Type 0 where
  pub collateral_feed : Text
  pub debt_feed : Text
  pub collateral_price : Text
  pub published_at : Text
  pub liquidation_threshold_bps : Text
  pub note : Text

pub record StressScenarioRow : Type 0 where
  pub shift_bps : ℤ
  pub label : Text
  pub health : Option Health
  pub unavailable_reason : Option Text

pub record StressScenarioReport : Type 0 where
  pub calculation_version : Text
  pub assumptions : StressAssumptions
  pub limitations : List Text
  pub rows : List StressScenarioRow

unfoldable pub shift_oracle_price : ℤ → ℤ → Option ℤ
shift_oracle_price base_price shift_bps =
    let factor = pos 10000 +ℤ shift_bps in
    if leb_ℤ base_price (pos 0)
    then none
    else if leb_ℤ factor (pos 0)
    then none
    else some (base_price *ℤ factor /ℤ pos 10000)

-- `(shiftBps / 100).toFixed(0)` rounds halves away from zero, and keeps the sign of what it rounds.
abbrev percent : ℕ → Text
percent n = show_ℕ ((n + 50) / 100) ++ codes "%"

unfoldable pub shift_label : ℤ → Text
shift_label (pos n) = codes "+" ++ percent n
shift_label (negsuc n) = codes "-" ++ percent (suc n)

abbrev pub bad_shift : Text
bad_shift = codes "That price shift is unsupported because it would invent a non-positive price."

module _ (parse_date : Text → Option ℤ) (collateral debt : AssetRiskSide) (params : RiskParams)
    (now : ℤ) (collateral_feed debt_feed : Text) where
  unfoldable pub blocker : Option Text
  blocker =
      if not (oracle_fresh parse_date collateral.oracle now)
      then some (codes "The " ++ collateral_feed ++ codes " price is stale.")
      else if not (oracle_fresh parse_date debt.oracle now)
      then some (codes "The " ++ debt_feed ++ codes " price is stale.")
      else if leb_ℤ collateral.oracle.price (pos 0)
      then some (codes "No evidenced price for " ++ collateral_feed ++ codes ".")
      else if leb_ℤ debt.oracle.price (pos 0)
      then some (codes "No evidenced price for " ++ debt_feed ++ codes ".")
      else none

  abbrev pub withheld : ℤ → Text → StressScenarioRow
  withheld shift reason = record {
    shift_bps = shift;
    label = shift_label shift;
    health = none;
    unavailable_reason = some reason;
  }

  abbrev pub computed : ℤ → Health → StressScenarioRow
  computed shift health = record {
    shift_bps = shift;
    label = shift_label shift;
    health = some health;
    unavailable_reason = none;
  }

  unfoldable pub moved_row : ℤ → Option ℤ → Result StressScenarioRow
  moved_row shift none = ok (withheld shift bad_shift)
  moved_row shift (some price) = do
    health ←
        compute_health parse_date
          (record collateral { oracle = record (collateral.oracle) { price = price } }) debt params
          now
    ok (computed shift health)

  unfoldable pub stress_row : Option Text → ℤ → Result StressScenarioRow
  unfolding moved_row
  stress_row (some reason) shift = ok (withheld shift reason)
  stress_row none shift = moved_row shift (shift_oracle_price collateral.oracle.price shift)

  unfoldable pub stress_rows : List ℤ → Result (List StressScenarioRow)
  unfolding stress_row blocker
  stress_rows [] = ok []
  stress_rows (shift ∷ shifts) = do
    row ← stress_row blocker shift
    rows ← stress_rows shifts
    ok (row ∷ rows)

  unfoldable pub stress_granite_collateral : List ℤ → Result StressScenarioReport
  unfolding stress_rows
  stress_granite_collateral shifts = do
    rows ← stress_rows shifts
    ok (record {
      calculation_version = risk_calculation_version;
      assumptions = record {
        collateral_feed = collateral_feed;
        debt_feed = debt_feed;
        collateral_price = show_ℤ collateral.oracle.price;
        published_at = collateral.oracle.observed_at;
        liquidation_threshold_bps = show_ℤ params.ltv_liq_bps;
        note =
            codes
              "Only the collateral price moves. Debt, interest and the protocol's parameters are held still.";
      };
      limitations =
          granite_health_limitations
          ++ codes
              "Only the collateral oracle price is shifted by the declared bps. Debt price, interest accrual and protocol parameters are held still."
            ∷ codes
                "Scenarios are withheld when any oracle is stale or a shift would invent a non-positive price."
            ∷ [];
      rows = rows;
    })
