-- ===== src/Sbtc/DepositChecks.antt =====
-- packages/adapters/src/sbtc/depositLifecycle.ts: the checks of a deposit, what Emily is told of it, and in
-- what the evidence differs from it.
use capital_os.Shared.{
  Text, codes, text_eq, to_lower, ℤ, pos, leb_ℤ, ltb_ℤ, eqb_ℤ, show_ℤ, not, ◌||◌, List, [], ◌∷◌,
  ◌++◌,
}
use capital_os.Errors.{Result, ok, ◌>>=◌, ◌>>◌}
use capital_os.Network.{StacksNetwork}
use capital_os.Ids.{network_text}
use capital_os.Amounts.{parse_quantity}
use capital_os.Registry.Deployments.{Tables, contract}
use capital_os.Sbtc.Fields.{
  fail_if, non_empty, safe_uint, is_hex_of, is_hex_digit, is_byte_hex, quantity_text, noted,
}
use capital_os.Sbtc.Deposit.{
  SbtcDepositMetadata, EmilyDeposit, CanonicalDepositMint, DepositContracts,
  EmilyDepositNotification,
}

abbrev check_byte_hex : Text → Text → Result (Unit {0})
check_byte_hex value name =
    fail_if (not (is_byte_hex value)) (name ++ codes " must be non-empty byte hex")

-- The checks of the scripts and of the transaction.
unfoldable pub validate_scripts : SbtcDepositMetadata → Result (Unit {0})
validate_scripts m = do
  check_byte_hex m.transaction_hex (codes "transactionHex")
  check_byte_hex m.deposit_script (codes "depositScript")
  check_byte_hex m.reclaim_script (codes "reclaimScript")

unfoldable pub validate_deposit : SbtcDepositMetadata → Result (Unit {0})
unfolding is_hex_digit
validate_deposit m = do
  fail_if (not (is_hex_of 64 m.bitcoin_txid)) (codes "bitcoinTxid must be 32-byte hex")
  index ← safe_uint m.output_index (codes "bitcoinTxOutputIndex")
  validate_scripts m
  recipient ← non_empty m.recipient (codes "recipient")
  amount ← parse_quantity m.amount_sats
  fail_if (leb_ℤ amount (pos 0)) (codes "amountSats must be positive")
  fee ← parse_quantity m.max_signer_fee_sats
  fail_if (ltb_ℤ fee (pos 0)) (codes "maxSignerFeeSats cannot be negative")

unfoldable pub sbtc_deposit_transfer_id : SbtcDepositMetadata → Text
sbtc_deposit_transfer_id m =
    codes "sbtc-deposit:"
    ++ network_text m.network
    ++ codes ":"
    ++ to_lower m.bitcoin_txid
    ++ codes ":"
    ++ show_ℤ m.output_index

unfoldable pub create_emily_deposit_notification :
    SbtcDepositMetadata → Result EmilyDepositNotification
create_emily_deposit_notification m = do
  validate_deposit m
  ok (record {
    bitcoin_txid = to_lower m.bitcoin_txid;
    output_index = m.output_index;
    reclaim_script = to_lower m.reclaim_script;
    deposit_script = to_lower m.deposit_script;
    transaction_hex = to_lower m.transaction_hex;
  })

unfoldable pub deposit_contracts : Tables → StacksNetwork → Result DepositContracts
deposit_contracts tables network = do
  d ← contract tables (codes "sbtc") (codes "sbtc-deposit") network
  r ← contract tables (codes "sbtc") (codes "sbtc-registry") network
  t ← contract tables (codes "sbtc") (codes "sbtc-token") network
  ok (record { deposit = d.contract_id; registry = r.contract_id; token = t.contract_id })

-- `emilyMatches`
unfoldable pub emily_deposit_mismatches : SbtcDepositMetadata → EmilyDeposit → Result (List Text)
emily_deposit_mismatches m e = do
  amount ← quantity_text m.amount_sats
  fee ← quantity_text m.max_signer_fee_sats
  ok (
      noted (
        (not (text_eq (to_lower e.bitcoin_txid) (to_lower m.bitcoin_txid)), codes "bitcoin txid")
        ∷ (not (eqb_ℤ e.output_index m.output_index), codes "bitcoin output index")
        ∷ (not (text_eq e.recipient m.recipient), codes "recipient")
        ∷ (not (text_eq e.amount amount), codes "deposit amount")
        ∷ (not (text_eq e.max_fee fee), codes "maximum signer fee")
        ∷ (
          not (text_eq (to_lower e.deposit_script) (to_lower m.deposit_script)),
          codes "deposit script",
        )
        ∷ (
          not (text_eq (to_lower e.reclaim_script) (to_lower m.reclaim_script)),
          codes "reclaim script",
        )
        ∷ []))

-- `mintMatches`
unfoldable pub mint_mismatches : SbtcDepositMetadata → ℤ → CanonicalDepositMint → Result (List Text)
mint_mismatches m minimum mint = do
  minted ← parse_quantity mint.amount_sats
  gross ← parse_quantity m.amount_sats
  ok (
      noted (
        (not mint.canonical, codes "mint is not canonical")
        ∷ (
          not (text_eq (to_lower mint.bitcoin_txid) (to_lower m.bitcoin_txid)),
          codes "mint bitcoin txid",
        )
        ∷ (not (eqb_ℤ mint.output_index m.output_index), codes "mint output index")
        ∷ (not (text_eq mint.recipient m.recipient), codes "mint recipient")
        ∷ (ltb_ℤ minted minimum || ltb_ℤ gross minted, codes "mint amount outside quoted fee bound")
        ∷ []))
