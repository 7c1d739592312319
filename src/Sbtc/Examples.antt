-- ===== src/Sbtc/Examples.antt =====
-- A withdrawal that the signers turned down, at work in packages/adapters/src/sbtc.
use native.Mathlib.Decide.{dec_le, dec_lt}
use native.Mathlib.Bridge.{IsLe}
use capital_os.Ids.{network_text}
use capital_os.Amounts.{parse_quantity}
use capital_os.Sbtc.Fields.{
  hex, hex_value, is_byte_hex, is_hex_digit, non_empty, noted, recipient_kind, safe_uint, script_of,
  txid, uint_string, unprefixed, withdrawal_recipient_script,
}
use capital_os.Sbtc.Mismatches.{
  completion_mismatches, emily_mismatches, fulfillment_differences, payout_mismatches,
  request_mismatches, validate_metadata,
}
use capital_os.Shared.{
  Text, codes, true, false, none, some, [], ◌∷◌, pos, ◌≡◌, refl, ◌⊎◌, is_digits, is_integer,
  is_space, join, json_text, keep_trimmed, read_ℤ, show_ℕ, show_ℤ, text_eq, to_lower, trim,
  trim_end, trim_start, value, ◌+ℤ◌, ◌-ℤ◌,
}
use capital_os.Errors.{ok}
use capital_os.Network.{StacksNetwork}
use capital_os.Plan.{withdraw_sbtc}
use capital_os.Registry.Deployments.{
  Tables, ContractRef, enabled, apply_registry_mode, capability_for, contract, find_contract,
}
use capital_os.Sbtc.Withdrawal.{
  SbtcWithdrawalMetadata, CanonicalWithdrawalRequest, WithdrawalEvidence, SbtcWithdrawalLifecycle,
  rejected,
}
use capital_os.Sbtc.Evaluate.{
  evaluate_sbtc_withdrawal, withdrawal_view, payout_reads, withdrawal_accounting,
  withdrawal_amounts, withdrawal_state, withdrawal_title,
}
use capital_os.Sbtc.Warnings.{
  contradictions, mismatch_warnings, sbtc_withdrawal_availability, sbtc_withdrawal_transfer_id,
  withdrawal_contracts,
}
use capital_os.Sbtc.Settled.{complete-Settled}
use capital_os.Sbtc.Accounts.{Paid, Returned}

abbrev token : Text → ContractRef
token label = record {
  protocol = codes "sbtc";
  label = label;
  network = StacksNetwork.testnet;
  contract_id = codes "ST.c";
  revision = codes "1";
  role = codes "r";
}

abbrev tables : Tables
tables = record {
  contracts =
      token (codes "sbtc-withdrawal")
      ∷ token (codes "sbtc-registry")
      ∷ token (codes "sbtc-token")
      ∷ [];
  capabilities =
      record {
        action = withdraw_sbtc;
        protocol = codes "sbtc";
        network = StacksNetwork.testnet;
        contract_id = codes "ST.c";
        adapter_version = codes "a@0.1.0";
        state = enabled;
        reason = codes "ok";
        wallet = [];
      }
      ∷ [];
}

abbrev tx : Text
tx = codes "abcdefabcdefabcdabcdefabcdefabcdabcdefabcdefabcdabcdefabcdefabcd"

abbrev hash : Text
hash = codes "abcdefabcdabcdefabcdabcdefabcdabcdefabcd"

abbrev metadata : SbtcWithdrawalMetadata
metadata = record {
  network = StacksNetwork.testnet;
  request_id = codes "7";
  stacks_txid = tx;
  sender = codes "s";
  recipient_version = codes "00";
  recipient_hashbytes = hash;
  amount_sats = codes "5";
  max_signer_fee_sats = codes "1";
}

abbrev refused : CanonicalWithdrawalRequest
refused = record {
  request_id = codes "7";
  stacks_txid = tx;
  block_height = 3;
  block_hash = tx;
  amount_sats = codes "5";
  max_signer_fee_sats = codes "1";
  sender = codes "s";
  recipient_version = codes "00";
  recipient_hashbytes = hash;
  status = some false;
  canonical = true;
}

abbrev evidence : WithdrawalEvidence
evidence = record {
  metadata = metadata;
  request = some refused;
  emily = none;
  completion = none;
  payout = none;
  provider_timed_out = false;
}

abbrev view : SbtcWithdrawalLifecycle
view =
    withdrawal_view (record { available = true; reason = none }) rejected evidence [] none
      (record {
        transfer_id = codes "sbtc-withdrawal:testnet:7";
        contracts = record {
          withdrawal = codes "ST.c";
          registry = codes "ST.c";
          token = codes "ST.c";
        };
        request_id = codes "7";
        stacks_txid = tx;
      })
      (record {
        amount = pos 5;
        maximum = pos 1;
        fee = none;
        payout_txid = none;
        payout_amount = none;
        script = codes "76a914abcdefabcdabcdefabcdabcdefabcdabcdefabcd88ac";
      })

evaluated : evaluate_sbtc_withdrawal tables evidence ≡ ok view
unfolding evaluate_sbtc_withdrawal withdrawal_view validate_metadata uint_string parse_quantity
    is_integer trim codes read_ℤ txid non_empty withdrawal_recipient_script recipient_kind hex
    to_lower mismatch_warnings request_mismatches withdrawal_amounts withdrawal_title network_text
    apply_registry_mode capability_for contract find_contract contradictions payout_reads
    sbtc_withdrawal_availability sbtc_withdrawal_transfer_id withdrawal_accounting
    withdrawal_contracts withdrawal_state hex_value is_byte_hex is_hex_digit noted safe_uint
    script_of unprefixed completion_mismatches emily_mismatches fulfillment_differences
    payout_mismatches is_digits show_ℕ show_ℤ value ◌+ℤ◌ ◌-ℤ◌ is_space join json_text keep_trimmed
    text_eq trim_end trim_start IsLe dec_le dec_lt
evaluated = refl

view_complete : view.complete ≡ true
unfolding withdrawal_view
view_complete = refl

complete-Settled_example : Paid evidence view ⊎ Returned evidence view
complete-Settled_example = complete-Settled tables evidence view evaluated view_complete
