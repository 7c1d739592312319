-- ===== src/Granite/Examples.antt =====
-- A borrow that waits for its signature, at work in packages/adapters/src/granite/creditLifecycle.ts.
use native.Mathlib.Decide.{dec_le, dec_lt}
use native.Mathlib.Bridge.{IsLe}
use capital_os.Risk.{
  assess, buffer_limit, compute_health, factor_of, fresh_health, ltv_of, max_borrow_of,
  oracle_age_ms, oracle_fresh, pow10, projected_health, scaled_value, times_ten, usd_notional,
}
use capital_os.Ids.{network_text}
use capital_os.BorrowSafety.{settle_repay_amount}
use capital_os.Amounts.{mul_div, parse_quantity}
use capital_os.Granite.Gates.{
  borrow_block, collateral_block, granite_block, max_block, project, project_with,
}
use capital_os.Granite.Sums.{
  amounts_of, as_oracle, collateral_delta, debt_delta, risk_params, settle_granite_repay,
}
use capital_os.Shared.{
  Text, codes, true, false, Option, none, some, [], ◌∷◌, ℤ, pos, ◌≡◌, refl, is_digits, is_integer,
  is_space, json_text, keep_trimmed, read_ℤ, show_ℕ, show_ℤ, text_eq, trim, trim_end, trim_start,
  value, ◌*ℤ◌, ◌+ℤ◌, ◌-ℤ◌, ◌/ℤ◌,
}
use capital_os.Errors.{ok}
use capital_os.Network.{StacksNetwork}
use capital_os.Plan.{borrow}
use capital_os.Registry.Deployments.{
  Tables, enabled, apply_registry_mode, capability_for, find_contract,
}
use capital_os.Granite.Evidence.{
  borrows, OracleSnapshot, GranitePositionEvidence, GraniteMarketEvidence, GraniteCreditLifecycle,
  GraniteEvidence, awaiting_signature, sign,
}
use capital_os.Granite.Evaluate.{
  granite_view, evaluate_granite_credit, after_gates, after_project, after_repay, granite_outcome,
  known_contracts, with_evidence,
}
use capital_os.Granite.Steps.{
  granite_credit_transfer_id, repay_step, repay_taken, settle_outcome, settlement_mismatches,
}
use capital_os.Granite.Cleared.{evaluate_granite-Stands}
use capital_os.Granite.States.{Stands}

abbrev at_nought : Text → Option ℤ
at_nought date = some (pos 0)

abbrev tables : Tables
tables = record {
  contracts = [];
  capabilities =
      record {
        action = borrow;
        protocol = codes "granite";
        network = StacksNetwork.mainnet;
        contract_id = codes "SP.c";
        adapter_version = codes "a@0.1.0";
        state = enabled;
        reason = codes "ok";
        wallet = [];
      }
      ∷ [];
}

abbrev price : OracleSnapshot
price = record {
  price = codes "1";
  scale = codes "8";
  observed_at = codes "t";
  source = codes "o";
  stale = false;
  max_age_ms = pos 9;
}

abbrev market : GraniteMarketEvidence
market = record {
  borrow_paused = false;
  repay_paused = false;
  liquidity_usdcx = some (codes "9");
  interest_rate_bps = none;
  risk_params = record {
    ltv_borrow_bps = codes "5000";
    ltv_liq_bps = codes "8000";
    buffer_bps = codes "500";
    sbtc_decimals = codes "0";
    usdcx_decimals = codes "0";
  };
  sbtc = price;
  usdcx = price;
}

abbrev position : GranitePositionEvidence
position = record {
  collateral = codes "100";
  debt = codes "10";
  accrued_debt = none;
  observed_at = codes "t";
  source = codes "o";
}

abbrev evidence : GraniteEvidence
evidence = record {
  intent = record {
    action = borrows;
    network = StacksNetwork.mainnet;
    owner = codes "s";
    amount = codes "5";
    collateral_amount = none;
    recipient = none;
    on_behalf_of = none;
    idempotency_key = codes "k";
  };
  market = some market;
  position = some position;
  settlement = none;
  broadcast_known = false;
  now = pos 3;
}

abbrev view : GraniteCreditLifecycle
view = granite_view tables evidence (record {
  state = awaiting_signature;
  next_action = sign;
  complete = false;
  warnings = [];
  health = record {
    current_ltv_bps = some (codes "1500");
    health_factor_bps = some (codes "53333");
    max_borrow = some (codes "45");
    within_buffer = some true;
    healthy = some true;
    stale = false;
  };
  repay = record {
    requested = codes "5";
    settled_amount = none;
    is_repay_all = false;
    accrued_debt = some (codes "10");
    remaining_debt = none;
  };
})

evaluated : evaluate_granite_credit at_nought tables evidence ≡ ok view
unfolding evaluate_granite_credit granite_outcome capability_for text_eq codes apply_registry_mode
    with_evidence repay_step after_repay after_project project risk_params parse_quantity is_integer
    trim amounts_of collateral_delta mul_div settle_repay_amount after_gates
    granite_credit_transfer_id granite_view known_contracts repay_taken settle_outcome
    settlement_mismatches as_oracle borrow_block collateral_block debt_delta granite_block max_block
    project_with settle_granite_repay network_text find_contract assess buffer_limit compute_health
    factor_of fresh_health ltv_of max_borrow_of oracle_age_ms oracle_fresh pow10 projected_health
    scaled_value times_ten usd_notional is_digits read_ℤ show_ℕ show_ℤ value ◌*ℤ◌ ◌+ℤ◌ ◌-ℤ◌ ◌/ℤ◌
    is_space json_text keep_trimmed trim_end trim_start IsLe dec_le dec_lt
evaluated = refl

evaluate_granite-Stands_example :
    Stands at_nought tables evidence view.next_action view.warnings view.state
evaluate_granite-Stands_example = evaluate_granite-Stands at_nought tables evidence view evaluated
