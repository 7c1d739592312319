-- ===== src/RiskReport/Texts.antt =====
-- packages/core/src/riskReport.ts: the texts that every report carries.
use capital_os.Shared.{Text, codes, List, [], ◌∷◌}

abbrev pub risk_calculation_version : Text
risk_calculation_version = codes "risk@1.0.0"

pub data RiskProtocol : Type 0 where
  granite zest bitflow sbtc unknown : RiskProtocol

abbrev pub granite_health_limitations : List Text
granite_health_limitations =
    codes
      "Granite health factor uses liquidation LTV: HF_bps = (collateralUsd × ltvLiqBps) / debtUsd. 10000 means HF 1.0 at the liquidation threshold."
    ∷ codes "healthy requires HF ≥ 10000 and current LTV ≤ borrow LTV."
    ∷ codes
        "withinBuffer is advisory (borrow LTV minus buffer); it does not change on-chain liquidation."
    ∷ codes "Zero debt uses a sentinel HF of 100000 bps (10.0), not an invented infinite value."
    ∷ codes
        "Stale oracles fail closed: numeric health is unavailable and must not be treated as zero risk."
    ∷ []
