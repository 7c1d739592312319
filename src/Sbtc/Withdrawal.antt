-- ===== src/Sbtc/Withdrawal.antt =====
-- packages/adapters/src/sbtc/withdrawalLifecycle.ts: what is kept of a withdrawal, the evidence on it, and
-- the view that is rebuilt from them.
use capital_os.Shared.{ℕ, Text, ℤ, Bool, Option, List}
use capital_os.Network.{StacksNetwork}

pub data EmilyWithdrawalStatus : Type 0 where
  pending accepted confirmed failed : EmilyWithdrawalStatus

pub record SbtcWithdrawalMetadata : Type 0 where
  pub network : StacksNetwork
  pub request_id : Text
  pub stacks_txid : Text
  pub sender : Text
  pub recipient_version : Text
  pub recipient_hashbytes : Text
  pub amount_sats : Text
  pub max_signer_fee_sats : Text

pub record Fulfillment : Type 0 where
  pub bitcoin_txid : Text
  pub bitcoin_tx_output_index : ℕ
  pub stacks_txid : Text
  pub bitcoin_block_hash : Text
  pub bitcoin_block_height : ℕ
  pub btc_fee_sats : Text

pub record EmilyWithdrawal : Type 0 where
  pub request_id : Text
  pub stacks_block_hash : Text
  pub stacks_block_height : ℕ
  pub recipient_script : Text
  pub sender : Text
  pub amount_sats : Text
  pub last_update_height : ℕ
  pub last_update_block_hash : Text
  pub status : EmilyWithdrawalStatus
  pub status_message : Text
  pub max_fee_sats : Text
  pub expected_block_height : Option ℕ
  pub expected_txid : Option Text
  pub fulfillment : Option Fulfillment
  pub txid : Text

pub record CanonicalWithdrawalRequest : Type 0 where
  pub request_id : Text
  pub stacks_txid : Text
  pub block_height : ℕ
  pub block_hash : Text
  pub amount_sats : Text
  pub max_signer_fee_sats : Text
  pub sender : Text
  pub recipient_version : Text
  pub recipient_hashbytes : Text
  pub status : Option Bool
  pub canonical : Bool

pub record CanonicalWithdrawalCompletion : Type 0 where
  pub request_id : Text
  pub payout_txid : Text
  pub payout_output_index : ℕ
  pub fee_sats : Text
  pub burn_block_hash : Text
  pub burn_block_height : ℕ
  pub sweep_txid : Text
  pub stacks_txid : Text
  pub canonical : Bool

pub record BitcoinPayoutObservation : Type 0 where
  pub txid : Text
  pub output_index : ℕ
  pub amount_sats : Text
  pub script_pub_key : Text
  pub block_height : ℕ
  pub block_hash : Text
  pub confirmations : ℤ
  pub canonical : Bool
  pub source : Text

pub data SbtcWithdrawalState : Type 0 where
  unavailable request_confirming signer_processing : SbtcWithdrawalState
  signer_rejection_pending payout_confirming rejected : SbtcWithdrawalState
  reconciliation_failed reconciled : SbtcWithdrawalState

pub data WithdrawalAction : Type 0 where
  wait contact_support complete nothing : WithdrawalAction

pub record Availability : Type 0 where
  pub available : Bool
  pub reason : Option Text

pub record WithdrawalContracts : Type 0 where
  pub withdrawal : Text
  pub registry : Text
  pub token : Text

pub data RequestStatus : Type 0 where
  pending accepted rejected : RequestStatus

pub record WithdrawalAccounting : Type 0 where
  pub withdrawal_amount_sats : Text
  pub maximum_signer_fee_sats : Text
  pub initially_locked_sats : Text
  pub actual_signer_fee_sats : Option Text
  pub final_sbtc_debit_sats : Option Text
  pub refunded_sbtc_sats : Option Text
  pub returned_after_rejection_sats : Option Text
  pub bitcoin_received_sats : Option Text

pub record RequestView : Type 0 where
  pub request_id : Text
  pub stacks_txid : Text
  pub canonical : Option Bool
  pub status : Option RequestStatus

pub record SignerView : Type 0 where
  pub status : Option EmilyWithdrawalStatus
  pub message : Option Text
  pub last_update_height : Option ℕ
  pub last_update_block_hash : Option Text
  pub expected_payout_txid : Option Text
  pub expected_payout_block_height : Option ℕ

pub record BitcoinView : Type 0 where
  pub txid : Option Text
  pub output_index : Option ℕ
  pub amount_sats : Option Text
  pub confirmations : Option ℕ
  pub canonical : Option Bool
  pub source : Option Text

-- `broadcastAllowed` is the constant false in the code's type too.
pub record SbtcWithdrawalLifecycle : Type 0 where
  pub transfer_id : Text
  pub state : SbtcWithdrawalState
  pub complete : Bool
  pub next_action : WithdrawalAction
  pub broadcast_allowed : Bool
  pub availability : Availability
  pub contracts : WithdrawalContracts
  pub request : RequestView
  pub signer : SignerView
  pub bitcoin : BitcoinView
  pub accounting : WithdrawalAccounting
  pub recipient_script : Text
  pub completion : Option CanonicalWithdrawalCompletion
  pub warnings : List Text

-- The argument of the evaluation.
pub record WithdrawalEvidence : Type 0 where
  pub metadata : SbtcWithdrawalMetadata
  pub request : Option CanonicalWithdrawalRequest
  pub emily : Option EmilyWithdrawal
  pub completion : Option CanonicalWithdrawalCompletion
  pub payout : Option BitcoinPayoutObservation
  pub provider_timed_out : Bool
