-- ===== src/Sbtc/EmilyWithdrawals.antt =====
-- packages/adapters/src/sbtc/withdrawalLifecycle.ts: a withdrawal as Emily sends it, and how it is fetched. The
-- addresses of the providers and `fetch` are arguments.
use capital_os.Shared.{Text, codes, text_eq, Option, none, some, ◌++◌, if◌then◌else◌}
use capital_os.Errors.{Result, ok, ◌>>=◌}
use capital_os.Network.{StacksNetwork}
use capital_os.Sbtc.Fields.{fail, uint_string}
use capital_os.Sbtc.Withdrawal.{
  EmilyWithdrawalStatus, pending, accepted, confirmed, failed, Fulfillment, EmilyWithdrawal,
}
use capital_os.Sbtc.Unknown.{
  Unknown, missing, null, Members, get_member, members_of, text_field, uint_field, uint_text_field,
  txid_field, hex_field, optional_field, Response, read_response,
}

-- The fields of a fulfillment.
unfoldable pub parse_fulfillment_members : Members → Result Fulfillment
parse_fulfillment_members r = do
  bitcoin ← txid_field (get_member r (codes "BitcoinTxid")) (codes "fulfillment.BitcoinTxid")
  index ← uint_field (get_member r (codes "BitcoinTxIndex")) (codes "fulfillment.BitcoinTxIndex")
  stacks ← txid_field (get_member r (codes "StacksTxid")) (codes "fulfillment.StacksTxid")
  block ←
      txid_field (get_member r (codes "BitcoinBlockHash")) (codes "fulfillment.BitcoinBlockHash")
  height ←
      uint_field (get_member r (codes "BitcoinBlockHeight"))
        (codes "fulfillment.BitcoinBlockHeight")
  fee ← uint_text_field (get_member r (codes "BtcFee")) (codes "fulfillment.BtcFee")
  ok (record {
    bitcoin_txid = bitcoin;
    bitcoin_tx_output_index = index;
    stacks_txid = stacks;
    bitcoin_block_hash = block;
    bitcoin_block_height = height;
    btc_fee_sats = fee;
  })

-- `parseFulfillment`
unfoldable pub parse_fulfillment : Unknown → Result (Option Fulfillment)
parse_fulfillment missing = ok none
parse_fulfillment null = ok none
parse_fulfillment (Unknown.object r) = parse_fulfillment_members r >>= λ f. ok (some f)
parse_fulfillment value = fail (codes "fulfillment must be an object or null")

unfoldable pub withdrawal_status : Text → Result EmilyWithdrawalStatus
withdrawal_status s =
    if text_eq s (codes "pending")
    then ok pending
    else if text_eq s (codes "accepted")
    then ok accepted
    else if text_eq s (codes "confirmed")
    then ok confirmed
    else if text_eq s (codes "failed")
    then ok failed
    else fail (codes "Unsupported Emily withdrawal status: " ++ s)

unfoldable pub parse_emily_withdrawal : Unknown → Result EmilyWithdrawal
parse_emily_withdrawal value = do
  r ← members_of value (codes "Emily withdrawal")
  parameters ← members_of (get_member r (codes "parameters")) (codes "parameters")
  expected ←
      members_of (get_member r (codes "expectedFulfillmentInfo")) (codes "expectedFulfillmentInfo")
  status_text ← text_field (get_member r (codes "status")) (codes "status")
  status ← withdrawal_status status_text
  request_id ← uint_text_field (get_member r (codes "requestId")) (codes "requestId")
  block_hash ← txid_field (get_member r (codes "stacksBlockHash")) (codes "stacksBlockHash")
  block_height ← uint_field (get_member r (codes "stacksBlockHeight")) (codes "stacksBlockHeight")
  script ← hex_field (get_member r (codes "recipient")) (codes "recipient")
  sender ← text_field (get_member r (codes "sender")) (codes "sender")
  amount ← uint_text_field (get_member r (codes "amount")) (codes "amount")
  update_height ← uint_field (get_member r (codes "lastUpdateHeight")) (codes "lastUpdateHeight")
  update_hash ←
      txid_field (get_member r (codes "lastUpdateBlockHash")) (codes "lastUpdateBlockHash")
  message ← text_field (get_member r (codes "statusMessage")) (codes "statusMessage")
  max_fee ← uint_text_field (get_member parameters (codes "maxFee")) (codes "parameters.maxFee")
  expected_height ←
      optional_field uint_field (get_member expected (codes "bitcoinBlockHeight"))
        (codes "expectedFulfillmentInfo.bitcoinBlockHeight")
  expected_txid ←
      optional_field txid_field (get_member expected (codes "bitcoinTxid"))
        (codes "expectedFulfillmentInfo.bitcoinTxid")
  fulfillment ← parse_fulfillment (get_member r (codes "fulfillment"))
  id ← txid_field (get_member r (codes "txid")) (codes "txid")
  ok (record {
    request_id = request_id;
    stacks_block_hash = block_hash;
    stacks_block_height = block_height;
    recipient_script = script;
    sender = sender;
    amount_sats = amount;
    last_update_height = update_height;
    last_update_block_hash = update_hash;
    status = status;
    status_message = message;
    max_fee_sats = max_fee;
    expected_block_height = expected_height;
    expected_txid = expected_txid;
    fulfillment = fulfillment;
    txid = id;
  })

unfoldable pub fetch_emily_withdrawal :
    (StacksNetwork → Text)
    → (Text → Result Response)
    → StacksNetwork
    → Text
    → Result (Option EmilyWithdrawal)
fetch_emily_withdrawal emily fetch network request_id = do
  id ← uint_string request_id (codes "requestId")
  response ← fetch (emily network ++ codes "/withdrawal/" ++ id)
  read_response (codes "withdrawal") parse_emily_withdrawal response
