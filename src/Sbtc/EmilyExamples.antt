-- ===== src/Sbtc/EmilyExamples.antt =====
-- What packages/adapters/src/sbtc reads of values that Emily may send.
use capital_os.Amounts.{parse_quantity}
use capital_os.Shared.{
  Text, codes, true, none, some, pos, ◌≡◌, refl, is_integer, read_ℤ, show_ℕ, show_ℤ, text_eq, trim,
}
use capital_os.Errors.{Result, ok}
use capital_os.Network.{StacksNetwork}
use capital_os.Sbtc.Fields.{non_empty, safe_uint, uint_string}
use capital_os.Sbtc.Deposit.{EmilyDeposit, rbf}
use capital_os.Sbtc.Unknown.{Unknown, text, whole, object, null, end, member, Response, get_member}
use capital_os.Sbtc.EmilyWithdrawals.{fetch_emily_withdrawal}
use capital_os.Sbtc.EmilyDeposits.{parse_emily_deposit, deposit_status, parse_deposit_fulfillment}

abbrev replaced_deposit : Unknown
replaced_deposit = object (
    member (codes "status") (text (codes "rbf")) (
      member (codes "bitcoinTxid") (text (codes "a")) (
        member (codes "bitcoinTxOutputIndex") (whole (pos 1)) (
          member (codes "recipient") (text (codes "s")) (
            member (codes "amount") (whole (pos 9)) (
              member (codes "lastUpdateHeight") (whole (pos 3)) (
                member (codes "lastUpdateBlockHash") (text (codes "h")) (
                  member (codes "statusMessage") (text (codes "m")) (
                    member (codes "parameters")
                      (object (
                        member (codes "lockTime") (whole (pos 7))
                          (member (codes "maxFee") (text (codes "2")) end)))
                      (member (codes "reclaimScript") (text (codes "r")) (
                        member (codes "depositScript") (text (codes "d"))
                          (member (codes "replacedByTx") (text (codes "b")) end))))))))))))

abbrev replaced : EmilyDeposit
replaced = record {
  bitcoin_txid = codes "a";
  output_index = pos 1;
  recipient = codes "s";
  amount = codes "9";
  last_update_height = 3;
  last_update_block_hash = codes "h";
  status = rbf;
  status_message = codes "m";
  lock_time = 7;
  max_fee = codes "2";
  reclaim_script = codes "r";
  deposit_script = codes "d";
  fulfillment = none;
  replaced_by_tx = some (codes "b");
}

replaced_read : parse_emily_deposit replaced_deposit ≡ ok replaced
unfolding parse_emily_deposit get_member text_eq codes non_empty deposit_status safe_uint
    uint_string parse_quantity is_integer trim read_ℤ parse_deposit_fulfillment show_ℕ show_ℤ
replaced_read = refl

abbrev host : StacksNetwork → Text
host network = codes "e"

abbrev not_found : Text → Result Response
not_found url = ok (record { ok = true; status = 404; json = ok null })

nothing_found : fetch_emily_withdrawal host not_found StacksNetwork.mainnet (codes "7") ≡ ok none
unfolding fetch_emily_withdrawal uint_string parse_quantity is_integer trim codes read_ℤ
nothing_found = refl
