-- ===== src/Sbtc/DepositExamples.antt =====
-- A deposit that was minted, at work in packages/adapters/src/sbtc.
use native.Mathlib.Decide.{dec_le, dec_lt}
use native.Mathlib.Bridge.{IsLe}
use capital_os.Ids.{network_text}
use capital_os.Amounts.{parse_quantity}
use capital_os.Sbtc.Fields.{is_byte_hex, is_hex_digit, non_empty, noted, safe_uint}
use capital_os.Shared.{
  Text, codes, true, false, none, some, [], ◌∷◌, pos, ◌≡◌, refl, is_digits, is_integer, is_space,
  join, json_text, keep_trimmed, read_ℤ, show_ℕ, show_ℤ, text_eq, to_lower, trim, trim_end,
  trim_start, value, ◌-ℤ◌,
}
use capital_os.Errors.{ok}
use capital_os.Network.{StacksNetwork}
use capital_os.Registry.Deployments.{Tables, ContractRef, contract, find_contract}
use capital_os.Sbtc.Deposit.{
  SbtcDepositMetadata, CanonicalDepositMint, DepositEvidence, SbtcDepositLifecycle, reconciled,
}
use capital_os.Sbtc.Deposited.{
  evaluate_sbtc_deposit, deposit_view, blocks_remaining, deposit_notes, deposit_paid, deposit_reads,
  deposit_state, deposit_warnings, expected_minimum, fee_conflict, final_state, has_mismatch,
  mint_fee, reclaim_available,
}
use capital_os.Sbtc.DepositChecks.{
  deposit_contracts, emily_deposit_mismatches, mint_mismatches, sbtc_deposit_transfer_id,
  validate_deposit, validate_scripts,
}
use capital_os.Sbtc.Minted.{evaluate_deposit-Stands}
use capital_os.Sbtc.Grounds.{Stands}

abbrev token : Text → ContractRef
token label = record {
  protocol = codes "sbtc";
  label = label;
  network = StacksNetwork.testnet;
  contract_id = codes "ST.c";
  revision = codes "1";
  role = codes "r";
}

abbrev tables : Tables
tables = record {
  contracts =
      token (codes "sbtc-deposit")
      ∷ token (codes "sbtc-registry")
      ∷ token (codes "sbtc-token")
      ∷ [];
  capabilities = [];
}

abbrev tx : Text
tx = codes "abcdefabcdefabcdabcdefabcdefabcdabcdefabcdefabcdabcdefabcdefabcd"

abbrev metadata : SbtcDepositMetadata
metadata = record {
  network = StacksNetwork.testnet;
  bitcoin_txid = tx;
  output_index = pos 0;
  transaction_hex = codes "ab";
  deposit_script = codes "cd";
  reclaim_script = codes "ef";
  recipient = codes "s";
  amount_sats = codes "9";
  max_signer_fee_sats = codes "2";
}

abbrev mint : CanonicalDepositMint
mint = record {
  bitcoin_txid = tx;
  output_index = pos 0;
  amount_sats = codes "8";
  recipient = codes "s";
  stacks_txid = tx;
  block_height = 3;
  block_hash = tx;
  canonical = true;
}

abbrev evidence : DepositEvidence
evidence = record {
  metadata = metadata;
  emily = none;
  bitcoin = none;
  mint = some mint;
  provider_timed_out = false;
}

abbrev view : SbtcDepositLifecycle
view =
    deposit_view evidence
      (record {
        gross = pos 9;
        maximum = pos 2;
        minted = some (pos 8);
        fulfilled = none;
        emily_notes = [];
        mint_notes = [];
      })
      (record { deposit = codes "ST.c"; registry = codes "ST.c"; token = codes "ST.c" }) reconciled

evaluated : evaluate_sbtc_deposit tables evidence ≡ ok view
unfolding evaluate_sbtc_deposit validate_deposit codes safe_uint validate_scripts is_byte_hex
    non_empty parse_quantity is_integer trim read_ℤ deposit_reads deposit_notes mint_mismatches
    deposit_paid deposit_contracts contract network_text find_contract blocks_remaining
    deposit_state deposit_view deposit_warnings emily_deposit_mismatches expected_minimum
    fee_conflict final_state has_mismatch mint_fee reclaim_available sbtc_deposit_transfer_id
    is_hex_digit noted is_digits show_ℕ show_ℤ value ◌-ℤ◌ is_space join json_text keep_trimmed
    text_eq to_lower trim_end trim_start IsLe dec_le dec_lt
evaluated = refl

evaluate_deposit-Stands_example : Stands evidence view view.state
evaluate_deposit-Stands_example = evaluate_deposit-Stands tables evidence view evaluated
