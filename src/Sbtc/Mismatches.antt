-- ===== src/Sbtc/Mismatches.antt =====
-- packages/adapters/src/sbtc/withdrawalLifecycle.ts: in what each piece of evidence differs from what is
-- kept of the withdrawal.
use capital_os.Shared.{
  ◌==◌, Text, codes, text_eq, to_lower, pos, leb_ℤ, ltb_ℤ, not, Option, none, some, List, [], ◌++◌,
  ◌∷◌,
}
use capital_os.Errors.{Result, ok, ◌>>=◌, ◌>>◌}
use capital_os.Amounts.{parse_quantity}
use capital_os.Sbtc.Fields.{
  fail_if, non_empty, uint_string, txid, withdrawal_recipient_script, quantity_text, noted,
}
use capital_os.Sbtc.Withdrawal.{
  SbtcWithdrawalMetadata, Fulfillment, EmilyWithdrawal, CanonicalWithdrawalRequest,
  CanonicalWithdrawalCompletion, BitcoinPayoutObservation,
}

unfoldable pub validate_metadata : SbtcWithdrawalMetadata → Result (Unit {0})
validate_metadata m = do
  id ← uint_string m.request_id (codes "requestId")
  tx ← txid m.stacks_txid (codes "stacksTxid")
  sender ← non_empty m.sender (codes "sender")
  script ← withdrawal_recipient_script m.recipient_version m.recipient_hashbytes
  amount ← parse_quantity m.amount_sats
  fail_if (leb_ℤ amount (pos 0)) (codes "amountSats must be positive")
  fee ← parse_quantity m.max_signer_fee_sats
  fail_if (ltb_ℤ fee (pos 0)) (codes "maxSignerFeeSats cannot be negative")

unfoldable pub request_mismatches :
    SbtcWithdrawalMetadata → CanonicalWithdrawalRequest → Result (List Text)
request_mismatches m r = do
  id ← uint_string r.request_id (codes "request.requestId")
  id' ← uint_string m.request_id (codes "requestId")
  tx ← txid r.stacks_txid (codes "request.stacksTxid")
  tx' ← txid m.stacks_txid (codes "stacksTxid")
  amount ← uint_string r.amount_sats (codes "request.amountSats")
  amount' ← quantity_text m.amount_sats
  fee ← uint_string r.max_signer_fee_sats (codes "request.maxSignerFeeSats")
  fee' ← quantity_text m.max_signer_fee_sats
  ok (
      noted (
        (not r.canonical, codes "withdrawal request is not canonical")
        ∷ (not (text_eq id id'), codes "request id")
        ∷ (not (text_eq tx tx'), codes "request Stacks txid")
        ∷ (not (text_eq amount amount'), codes "request amount")
        ∷ (not (text_eq fee fee'), codes "request maximum signer fee")
        ∷ (not (text_eq r.sender m.sender), codes "request sender")
        ∷ (
          not (text_eq (to_lower r.recipient_version) (to_lower m.recipient_version)),
          codes "request recipient version",
        )
        ∷ (
          not (text_eq (to_lower r.recipient_hashbytes) (to_lower m.recipient_hashbytes)),
          codes "request recipient hashbytes",
        )
        ∷ []))

-- The comparison with the block of the request, when one is known.
abbrev pub block_mismatches :
    EmilyWithdrawal → Option CanonicalWithdrawalRequest → Result (List Text)
block_mismatches e none = ok []
block_mismatches e (some r) = do
  hash ← txid r.block_hash (codes "request.blockHash")
  ok (
      noted (
        (not (e.stacks_block_height == r.block_height), codes "Emily request block height")
        ∷ (not (text_eq e.stacks_block_hash hash), codes "Emily request block hash")
        ∷ []))

unfoldable pub emily_mismatches :
    SbtcWithdrawalMetadata
    → Option CanonicalWithdrawalRequest
    → EmilyWithdrawal
    → Result (List Text)
emily_mismatches m request e = do
  id ← uint_string m.request_id (codes "requestId")
  tx ← txid m.stacks_txid (codes "stacksTxid")
  script ← withdrawal_recipient_script m.recipient_version m.recipient_hashbytes
  amount ← quantity_text m.amount_sats
  fee ← quantity_text m.max_signer_fee_sats
  block ← block_mismatches e request
  ok (
      noted (
        (not (text_eq e.request_id id), codes "Emily request id")
        ∷ (not (text_eq e.txid tx), codes "Emily request Stacks txid")
        ∷ (not (text_eq e.sender m.sender), codes "Emily sender")
        ∷ (not (text_eq e.recipient_script script), codes "Emily recipient")
        ∷ (not (text_eq e.amount_sats amount), codes "Emily amount")
        ∷ (not (text_eq e.max_fee_sats fee), codes "Emily maximum signer fee")
        ∷ [])
      ++ block)

unfoldable pub completion_mismatches :
    SbtcWithdrawalMetadata → CanonicalWithdrawalCompletion → Result (List Text)
completion_mismatches m c = do
  id ← uint_string c.request_id (codes "completion.requestId")
  id' ← uint_string m.request_id (codes "requestId")
  fee ← parse_quantity c.fee_sats
  maximum ← parse_quantity m.max_signer_fee_sats
  ok (
      noted (
        (not c.canonical, codes "completion is not canonical")
        ∷ (not (text_eq id id'), codes "completion request id")
        ∷ (ltb_ℤ maximum fee, codes "completion fee exceeds maximum")
        ∷ []))

abbrev pub against_completion :
    BitcoinPayoutObservation → Option CanonicalWithdrawalCompletion → Result (List Text)
against_completion p none = ok []
against_completion p (some c) = do
  tx ← txid p.txid (codes "payout.txid")
  tx' ← txid c.payout_txid (codes "completion.payoutTxid")
  block ← txid p.block_hash (codes "payout.blockHash")
  block' ← txid c.burn_block_hash (codes "completion.burnBlockHash")
  ok (
      noted (
        (not (text_eq tx tx'), codes "Bitcoin payout txid")
        ∷ (not (p.output_index == c.payout_output_index), codes "Bitcoin payout output index")
        ∷ (not (text_eq block block'), codes "Bitcoin payout block hash")
        ∷ (not (p.block_height == c.burn_block_height), codes "Bitcoin payout block height")
        ∷ []))

abbrev pub against_fulfillment : BitcoinPayoutObservation → Option Fulfillment → Result (List Text)
against_fulfillment p none = ok []
against_fulfillment p (some f) = do
  tx ← txid p.txid (codes "payout.txid")
  block ← txid p.block_hash (codes "payout.blockHash")
  ok (
      noted (
        (not (text_eq tx f.bitcoin_txid), codes "Emily payout txid")
        ∷ (not (p.output_index == f.bitcoin_tx_output_index), codes "Emily payout output index")
        ∷ (not (text_eq block f.bitcoin_block_hash), codes "Emily payout block hash")
        ∷ (not (p.block_height == f.bitcoin_block_height), codes "Emily payout block height")
        ∷ []))

-- `emily?.fulfillment`
abbrev pub fulfillment_of : Option EmilyWithdrawal → Option Fulfillment
fulfillment_of none = none
fulfillment_of (some e) = e.fulfillment

unfoldable pub payout_mismatches :
    SbtcWithdrawalMetadata
    → Option CanonicalWithdrawalCompletion
    → Option EmilyWithdrawal
    → BitcoinPayoutObservation
    → Result (List Text)
payout_mismatches m completion emily p = do
  amount ← uint_string p.amount_sats (codes "payout.amountSats")
  amount' ← quantity_text m.amount_sats
  script ← withdrawal_recipient_script m.recipient_version m.recipient_hashbytes
  completed ← against_completion p completion
  fulfilled ← against_fulfillment p (fulfillment_of emily)
  ok (
      noted (
        (not p.canonical, codes "Bitcoin payout is not canonical")
        ∷ (not (text_eq amount amount'), codes "Bitcoin payout amount")
        ∷ (not (text_eq (to_lower p.script_pub_key) script), codes "Bitcoin payout recipient")
        ∷ [])
      ++ completed
      ++ fulfilled)

-- The differences of a fulfillment from the completion.
unfoldable pub fulfillment_differences :
    Fulfillment → CanonicalWithdrawalCompletion → Result (List Text)
fulfillment_differences f c = do
  tx ← txid c.payout_txid (codes "completion.payoutTxid")
  stacks ← txid c.stacks_txid (codes "completion.stacksTxid")
  block ← txid c.burn_block_hash (codes "completion.burnBlockHash")
  fee ← quantity_text c.fee_sats
  ok (
      noted (
        (not (text_eq f.bitcoin_txid tx), codes "txid")
        ∷ (not (f.bitcoin_tx_output_index == c.payout_output_index), codes "output index")
        ∷ (not (text_eq f.stacks_txid stacks), codes "Stacks completion txid")
        ∷ (not (text_eq f.bitcoin_block_hash block), codes "Bitcoin block hash")
        ∷ (not (f.bitcoin_block_height == c.burn_block_height), codes "Bitcoin block height")
        ∷ (not (text_eq f.btc_fee_sats fee), codes "fee")
        ∷ []))
