-- ===== src/RiskReport/Health.antt =====
-- packages/core/src/riskReport.ts: the reading of a loan's health, and the actions that it allows.
use capital_os.Shared.{
  Text, codes, includes, ℤ, pos, ltb_ℤ, leb_ℤ, eqb_ℤ, any, Bool, true, false, not, ◌&&◌, ◌||◌,
  Option, none, some, List, [], ◌∷◌, ◌++◌, if◌then◌else◌,
}
use capital_os.Risk.{Health, RiskParams}
use capital_os.RiskReport.Texts.{RiskProtocol, risk_calculation_version, granite_health_limitations}

pub record HealthInputs : Type 0 where
  pub collateral_usd : ℤ
  pub debt_usd : ℤ
  pub max_borrow : ℤ
  pub buffer_bps : ℤ

-- The fields `protocol` and `kind` have one value each in the code, and are left out.
pub record GraniteHealthInterpretation : Type 0 where
  pub calculation_version : Text
  pub health_factor_bps : ℤ
  pub current_ltv_bps : ℤ
  pub liquidation_threshold_bps : ℤ
  pub borrow_ltv_bps : ℤ
  pub meaning : Text
  pub liquidatable : Bool
  pub within_borrow_cap : Bool
  pub within_buffer : Bool
  pub healthy : Bool
  pub stale : Bool
  pub inputs : HealthInputs
  pub limitations : List Text
  pub warnings : List Text

unfoldable pub has_quorum_dispute : Health → Bool
unfolding includes codes
has_quorum_dispute health = any (λ w. includes w (codes "quorum")) health.warnings

unfoldable pub is_liquidatable : Health → RiskParams → Bool
is_liquidatable health params =
    not health.stale
    && ltb_ℤ (pos 0) health.debt_usd
    && leb_ℤ params.ltv_liq_bps health.current_ltv_bps

unfoldable pub meaning_of : Health → RiskParams → Text
unfolding is_liquidatable has_quorum_dispute
meaning_of health params =
    if health.stale
    then (if has_quorum_dispute health
        then codes "Oracle evidence has quorum disagreement; Granite health factor is unavailable."
        else codes "Oracle evidence is stale; Granite health factor is unavailable.")
    else if eqb_ℤ health.debt_usd (pos 0)
    then codes
        "No USDCx debt. Sentinel health factor 10.0; liquidation does not apply until debt is opened."
    else if is_liquidatable health params
    then codes "Current LTV is at or above the Granite liquidation threshold (HF < 1.0)."
    else if health.healthy
    then codes "HF ≥ 1.0 and LTV is within the Granite borrow cap."
    else codes "HF or borrow-cap check failed; new borrow or collateral withdrawal is unsafe."

unfoldable pub interpret_granite_health : Health → RiskParams → GraniteHealthInterpretation
interpret_granite_health health params = record {
  calculation_version = risk_calculation_version;
  health_factor_bps = health.health_factor_bps;
  current_ltv_bps = health.current_ltv_bps;
  liquidation_threshold_bps = params.ltv_liq_bps;
  borrow_ltv_bps = params.ltv_borrow_bps;
  meaning = meaning_of health params;
  liquidatable = is_liquidatable health params;
  within_borrow_cap = not health.stale && leb_ℤ health.current_ltv_bps params.ltv_borrow_bps;
  within_buffer = health.within_buffer;
  healthy = health.healthy;
  stale = health.stale;
  inputs = record {
    collateral_usd = health.collateral_usd;
    debt_usd = health.debt_usd;
    max_borrow = health.max_borrow;
    buffer_bps = params.buffer_bps;
  };
  limitations = granite_health_limitations;
  warnings = health.warnings;
}

pub data CreditAction : Type 0 where
  borrow repay supply withdraw_supply : CreditAction

pub record ProtectiveAction : Type 0 where
  pub action : CreditAction
  pub allowed : Bool
  pub reason : Text

pub record ProtectiveActionReport : Type 0 where
  pub calculation_version : Text
  pub actions : List ProtectiveAction
  pub limitations : List Text

-- The vault's liquidity: not asked for (`undefined`), unknown (`null`), or known.
pub data Liquidity : Type 0 where
  unasked : Liquidity
  unknown : Liquidity
  known : ℤ → Liquidity

unfoldable pub liquidity_ok : Liquidity → ℤ → Bool
liquidity_ok unasked requested = true
liquidity_ok unknown requested = false
liquidity_ok (known available) requested = leb_ℤ requested (pos 0) || leb_ℤ requested available

unfoldable pub stale_or_dispute_reason : Health → Text → Text
unfolding has_quorum_dispute
stale_or_dispute_reason health label =
    if has_quorum_dispute health
    then codes "Oracle has quorum disagreement; "
      ++ label
      ++ codes " fails closed until price sources agree."
    else codes "Oracle is stale; " ++ label ++ codes " is blocked until a fresh price is evidenced."

unfoldable pub borrow_reason : Health → Bool → Bool → Text
borrow_reason health paused enough =
    if health.stale
    then stale_or_dispute_reason health (codes "borrow")
    else if not health.healthy
    then codes "Projected health is outside the Granite borrow cap or liquidation buffer."
    else if paused
    then codes "USDCx vault redeem is paused."
    else if not enough
    then codes "USDCx vault liquidity is unknown or insufficient for the requested borrow."
    else codes "Borrow is within evidenced health and liquidity."

unfoldable pub withdraw_reason : Health → Text
withdraw_reason health =
    if health.stale
    then codes "Oracle is stale; collateral withdrawal is blocked."
    else if not health.healthy
    then codes "Withdrawing collateral would leave the position outside the Granite borrow cap."
    else codes "Collateral withdrawal stays within evidenced health."

-- An absent `vaultPaused` counts as false and an absent `requestedBorrow` as 0.
unfoldable pub granite_protective_actions : Health → Bool → Liquidity → ℤ → ProtectiveActionReport
granite_protective_actions health paused liquidity requested =
    let can_risk_write = not health.stale && health.healthy in
    let enough = liquidity_ok liquidity requested in
    record {
      calculation_version = risk_calculation_version;
      actions =
          record {
            action = supply;
            allowed = not health.stale;
            reason =
                if health.stale
                then stale_or_dispute_reason health (codes "collateral add")
                else codes "Adding isolated sBTC collateral is supported when the oracle is fresh.";
          }
          ∷ record {
            action = borrow;
            allowed = can_risk_write && not paused && enough;
            reason = borrow_reason health paused enough;
          }
          ∷ record {
            action = repay;
            allowed = not health.stale;
            reason =
                if health.stale
                then stale_or_dispute_reason health (codes "repay")
                else codes
                    "Repay reduces debt and is the primary protective action when LTV is elevated.";
          }
          ∷ record {
            action = withdraw_supply;
            allowed = can_risk_write;
            reason = withdraw_reason health;
          }
          ∷ [];
      limitations =
          granite_health_limitations
          ++ codes
              "Protective actions are advisory for the host app; the unsigned plan still fails closed on stale oracles and caps."
            ∷ [];
    }

pub record LiquidityGate : Type 0 where
  pub calculation_version : Text
  pub sufficient : Option Bool
  pub available : Option ℤ
  pub requested : ℤ
  pub limitations : List Text
  pub reason : Text

abbrev gate_limitations : List Text
gate_limitations =
    codes "Liquidity is protocol vault totalAssets evidence. Null means unknown and fails closed."
    ∷ codes "This gate does not invent available liquidity from quotes or prior observations."
    ∷ []

unfoldable pub borrow_liquidity_gate : Option ℤ → ℤ → LiquidityGate
borrow_liquidity_gate none requested = record {
  calculation_version = risk_calculation_version;
  sufficient = none;
  available = none;
  requested = requested;
  limitations = gate_limitations;
  reason = codes "Vault liquidity is unknown; borrow is blocked.";
}
borrow_liquidity_gate (some available) requested = record {
  calculation_version = risk_calculation_version;
  sufficient = some (leb_ℤ requested available);
  available = some available;
  requested = requested;
  limitations = gate_limitations;
  reason =
      if leb_ℤ requested available
      then codes "Requested borrow is within evidenced vault liquidity."
      else codes "Requested borrow exceeds evidenced vault liquidity.";
}

pub record UnsupportedCreditRisk : Type 0 where
  pub calculation_version : Text
  pub protocol : RiskProtocol
  pub reason : Text
  pub limitations : List Text

unfoldable pub unsupported_credit_risk : RiskProtocol → Text → UnsupportedCreditRisk
unsupported_credit_risk protocol reason = record {
  calculation_version = risk_calculation_version;
  protocol = protocol;
  reason = reason;
  limitations =
      codes "Health factor and borrow LTV apply only to Granite isolated credit."
      ∷ codes
          "Earn and swap surfaces use protocol disclosures and route/vault evidence instead of inventing a health factor."
      ∷ [];
}

abbrev pub would_liquidate_at_ltv : ℤ → ℤ → Bool
would_liquidate_at_ltv current_ltv_bps liquidation_threshold_bps =
    leb_ℤ liquidation_threshold_bps current_ltv_bps
