-- ===== src/Signing/Examples.antt =====
-- A plan of a Bitcoin deposit and a Stacks call that passes the gate of packages/core/src/signing.ts.
use capital_os.Signing.Effects.{OnQuote, promised, Delivers, ready-effects}
use native.Mathlib.Decide.{dec_le, dec_lt}
use native.Mathlib.Bridge.{IsLe}
use capital_os.Shared.{
  ℕ, Text, codes, pos, true, none, some, List, [], ◌∷◌, ◌≡◌, refl, All, text_eq, text_lt,
  starts_with, join, ◌++◌, is_digits, value, is_integer, is_space, json_text, keep_trimmed, read_ℤ,
  show_ℕ, show_ℤ, to_lower, trim, trim_end, trim_start,
}
use capital_os.Errors.{ok, capital_error, error_class}
use capital_os.Network.{
  testnet, regtest, base58_pattern, bech32_pattern, bitcoin_address_kind, is_base58, is_bech32,
  is_c32, stacks_address_network, stacks_pattern,
}
use capital_os.Ids.{
  bitcoin_native, stacks_native, sip10, chain_text, format_asset_id, identity_text, network_text,
  same_asset, symbol_text,
}
use capital_os.Amounts.{AssetAmount, Value, assert_financial_int, parse_quantity}
use capital_os.Plan.{
  uint, send_eq, receive_gte, deny, bitcoin_deposit, stacks_contract_call, PlanStep, Plan, Quote,
  deposit_sbtc, quote_expired,
}
use capital_os.Signing.Checks.{
  SigningContext, amounts_equal, check_args, check_conditions, condition_reasons,
  conditions_reasons, dependency_reasons, depends_on_reasons, effect_binding_reasons,
  includes_amount, missing_outputs, payload_reasons, payload_uses_number,
  post_condition_binding_reasons, quote_reference_amounts, step_reasons, steps_reasons, take_amount,
  take_first, unbound_effects,
}
use capital_os.Signing.Validate.{
  assert_ready_to_sign, assert_valid_plan, binding_reasons, bitcoin_address_reasons,
  bitcoin_deposit_reasons, each_step, stacks_call_reasons, validate_plan,
}
use capital_os.Signing.Outflow.{Covered, steps_outflow}
use capital_os.Signing.Gate.{Bound, SafePayload, ready-Bound, ready-SafePayload, ready-outflow}

abbrev address : Text
address =
    let a : List ℕ = b'2' ∷ b'3' ∷ b'4' ∷ b'5' ∷ b'6' ∷ b'7' ∷ b'8' ∷ b'9' ∷ b'A' ∷ [] in
    b'S' ∷ b'T' ∷ a ++ a ++ a ++ a

abbrev soon : Text
soon = b'5' ∷ []

abbrev btc_in : AssetAmount
btc_in = record { asset = bitcoin_native testnet; quantity = pos 70 }

abbrev stx_in : AssetAmount
stx_in = record { asset = stacks_native testnet; quantity = pos 30 }

abbrev token_out : AssetAmount
token_out = record { asset = sip10 testnet address (b't' ∷ []); quantity = pos 60 }

abbrev quote : Quote
quote = record {
  id = b'q' ∷ [];
  action = deposit_sbtc;
  market_id = b'm' ∷ [];
  network = testnet;
  input = stx_in ∷ btc_in ∷ [];
  expected_output = token_out ∷ [];
  fees = [];
  snapshots = [];
  expires_at = soon;
  executable = true;
  warnings = [];
  registry_version = b'r' ∷ [];
  adapter_version = b'a' ∷ [];
  minimum_output = none;
}

abbrev deposit : PlanStep
deposit = record {
  id = b'1' ∷ [];
  payload = bitcoin_deposit (record {
    amount_sats = Value.text (b'7' ∷ b'0' ∷ []);
    stacks_recipient = address;
    bitcoin_network = regtest;
    reclaim_lock_time = 10;
    max_signer_fee_sats = Value.text (b'5' ∷ []);
    emily_notify_path = [];
  });
  expected_asset_effects = [];
  depends_on = [];
}

abbrev call : PlanStep
call = record {
  id = b'2' ∷ [];
  payload = stacks_contract_call (record {
    contract_id = b'c' ∷ [];
    function_name = b'f' ∷ [];
    function_args = uint (Value.text (b'3' ∷ b'0' ∷ [])) ∷ [];
    post_conditions =
        record { principal = address; mode = send_eq; amount = stx_in }
        ∷ record { principal = address; mode = receive_gte; amount = token_out }
        ∷ [];
    post_condition_mode = deny;
    network = testnet;
  });
  expected_asset_effects = token_out ∷ [];
  depends_on = (b'1' ∷ []) ∷ [];
}

abbrev plan : Plan
plan = record {
  id = b'p' ∷ [];
  quote_id = b'q' ∷ [];
  network = testnet;
  registry_version = b'r' ∷ [];
  adapter_version = b'a' ∷ [];
  steps = deposit ∷ call ∷ [];
  expires_at = soon;
  review_summary = [];
}

abbrev context : SigningContext
context = record {
  now = b'4' ∷ [];
  network = testnet;
  registry_version = b'r' ∷ [];
  allowed_contracts = some ((b'c' ∷ []) ∷ []);
  sender = some address;
  bitcoin_addresses = [];
}

ready : assert_ready_to_sign plan quote context ≡ ok tt
unfolding assert_ready_to_sign validate_plan post_condition_binding_reasons steps_reasons
    payload_reasons assert_financial_int parse_quantity is_integer trim binding_reasons text_eq
    quote_expired text_lt stacks_address_network bitcoin_address_reasons depends_on_reasons
    effect_binding_reasons includes_amount capital_error error_class chain_text format_asset_id
    identity_text network_text same_asset symbol_text base58_pattern bech32_pattern
    bitcoin_address_kind is_base58 is_bech32 is_c32 stacks_pattern is_digits read_ℤ show_ℕ show_ℤ
    value codes is_space join json_text keep_trimmed starts_with to_lower trim_end trim_start
    amounts_equal check_args check_conditions condition_reasons conditions_reasons
    dependency_reasons missing_outputs payload_uses_number quote_reference_amounts step_reasons
    take_amount take_first unbound_effects assert_valid_plan bitcoin_deposit_reasons each_step
    stacks_call_reasons IsLe dec_le dec_lt
ready = refl

ready-Bound_example : Bound plan quote context
ready-Bound_example = ready-Bound plan quote context ready

ready-SafePayload_example :
    All (λ (s : PlanStep). SafePayload testnet context s.payload) (deposit ∷ call ∷ [])
ready-SafePayload_example = ready-SafePayload plan quote context ready

ready-outflow_example : Covered (stx_in ∷ btc_in ∷ []) [] (steps_outflow (deposit ∷ call ∷ []))
ready-outflow_example = ready-outflow plan quote context ready

ready-effects_example :
    All (OnQuote quote) (promised (deposit ∷ call ∷ []))
    × Delivers (promised (deposit ∷ call ∷ [])) (token_out ∷ [])
ready-effects_example = ready-effects plan quote context ready
