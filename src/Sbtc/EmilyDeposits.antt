-- ===== src/Sbtc/EmilyDeposits.antt =====
-- packages/adapters/src/sbtc/depositLifecycle.ts: a deposit as Emily sends it, and how it is fetched. The addresses
-- of the providers and `fetch` are arguments.
use capital_os.Shared.{
  Text, codes, text_eq, to_lower, ℤ, pos, show_ℕ, not, Option, none, some, ◌++◌, if◌then◌else◌,
}
use capital_os.Errors.{Result, ok, ◌>>=◌, ◌>>◌}
use capital_os.Network.{StacksNetwork}
use capital_os.Sbtc.Fields.{fail, fail_if, safe_uint, is_hex_of, is_hex_digit}
use capital_os.Sbtc.Withdrawal.{Fulfillment}
use capital_os.Sbtc.Deposit.{
  EmilyDepositStatus, pending, accepted, confirmed, failed, rbf, EmilyDeposit,
}
use capital_os.Sbtc.Unknown.{
  Unknown, missing, null, array, object, Members, end, get_member, members_of, text_field,
  uint_field, uint_text_field, optional_field, Response, read_response,
}

unfoldable pub deposit_fulfillment_members : Members → Result Fulfillment
deposit_fulfillment_members r = do
  bitcoin ← text_field (get_member r (codes "BitcoinTxid")) (codes "fulfillment.BitcoinTxid")
  index ← uint_field (get_member r (codes "BitcoinTxIndex")) (codes "fulfillment.BitcoinTxIndex")
  stacks ← text_field (get_member r (codes "StacksTxid")) (codes "fulfillment.StacksTxid")
  block ←
      text_field (get_member r (codes "BitcoinBlockHash")) (codes "fulfillment.BitcoinBlockHash")
  height ←
      uint_field (get_member r (codes "BitcoinBlockHeight"))
        (codes "fulfillment.BitcoinBlockHeight")
  fee ← uint_text_field (get_member r (codes "BtcFee")) (codes "fulfillment.BtcFee")
  ok (record {
    bitcoin_txid = bitcoin;
    bitcoin_tx_output_index = index;
    stacks_txid = stacks;
    bitcoin_block_hash = block;
    bitcoin_block_height = height;
    btc_fee_sats = fee;
  })

-- `parseFulfillment`, which lets an array through, that has no such fields.
unfoldable pub parse_deposit_fulfillment : Unknown → Result (Option Fulfillment)
parse_deposit_fulfillment missing = ok none
parse_deposit_fulfillment null = ok none
parse_deposit_fulfillment (object r) = deposit_fulfillment_members r >>= λ f. ok (some f)
parse_deposit_fulfillment array = deposit_fulfillment_members end >>= λ f. ok (some f)
parse_deposit_fulfillment value = fail (codes "fulfillment must be an object or null")

unfoldable pub deposit_status : Text → Result EmilyDepositStatus
deposit_status s =
    if text_eq s (codes "pending")
    then ok pending
    else if text_eq s (codes "accepted")
    then ok accepted
    else if text_eq s (codes "confirmed")
    then ok confirmed
    else if text_eq s (codes "failed")
    then ok failed
    else if text_eq s (codes "rbf")
    then ok rbf
    else fail (codes "Unsupported Emily deposit status: " ++ s)

unfoldable pub parse_emily_deposit : Unknown → Result EmilyDeposit
parse_emily_deposit value = do
  r ← members_of value (codes "Emily deposit")
  parameters ← members_of (get_member r (codes "parameters")) (codes "parameters")
  status_text ← text_field (get_member r (codes "status")) (codes "status")
  status ← deposit_status status_text
  id ← text_field (get_member r (codes "bitcoinTxid")) (codes "bitcoinTxid")
  index ← uint_field (get_member r (codes "bitcoinTxOutputIndex")) (codes "bitcoinTxOutputIndex")
  recipient ← text_field (get_member r (codes "recipient")) (codes "recipient")
  amount ← uint_text_field (get_member r (codes "amount")) (codes "amount")
  update_height ← uint_field (get_member r (codes "lastUpdateHeight")) (codes "lastUpdateHeight")
  update_hash ←
      text_field (get_member r (codes "lastUpdateBlockHash")) (codes "lastUpdateBlockHash")
  message ← text_field (get_member r (codes "statusMessage")) (codes "statusMessage")
  lock ← uint_field (get_member parameters (codes "lockTime")) (codes "parameters.lockTime")
  max_fee ← uint_text_field (get_member parameters (codes "maxFee")) (codes "parameters.maxFee")
  reclaim ← text_field (get_member r (codes "reclaimScript")) (codes "reclaimScript")
  deposit ← text_field (get_member r (codes "depositScript")) (codes "depositScript")
  fulfillment ← parse_deposit_fulfillment (get_member r (codes "fulfillment"))
  replaced ← optional_field text_field (get_member r (codes "replacedByTx")) (codes "replacedByTx")
  ok (record {
    bitcoin_txid = id;
    output_index = pos index;
    recipient = recipient;
    amount = amount;
    last_update_height = update_height;
    last_update_block_hash = update_hash;
    status = status;
    status_message = message;
    lock_time = lock;
    max_fee = max_fee;
    reclaim_script = reclaim;
    deposit_script = deposit;
    fulfillment = fulfillment;
    replaced_by_tx = replaced;
  })

unfoldable pub fetch_emily_deposit :
    (StacksNetwork → Text)
    → (Text → Result Response)
    → StacksNetwork
    → Text
    → ℤ
    → Result (Option EmilyDeposit)
unfolding is_hex_digit
fetch_emily_deposit emily fetch network bitcoin_txid index = do
  fail_if (not (is_hex_of 64 bitcoin_txid)) (codes "bitcoinTxid must be 32-byte hex")
  n ← safe_uint index (codes "bitcoinTxOutputIndex")
  response ←
      fetch (emily network ++ codes "/deposit/" ++ to_lower bitcoin_txid ++ codes "/" ++ show_ℕ n)
  read_response (codes "deposit") parse_emily_deposit response
