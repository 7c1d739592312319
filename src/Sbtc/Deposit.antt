-- ===== src/Sbtc/Deposit.antt =====
-- packages/adapters/src/sbtc/depositLifecycle.ts: what is kept of a deposit, the evidence on it, and the
-- view that is rebuilt from them. A fulfillment is the one of withdrawalLifecycle.ts.
use capital_os.Shared.{ℕ, Text, ℤ, Bool, Option, List}
use capital_os.Network.{StacksNetwork}
use capital_os.Sbtc.Withdrawal.{Fulfillment}

pub data EmilyDepositStatus : Type 0 where
  pending accepted confirmed failed rbf : EmilyDepositStatus

pub record SbtcDepositMetadata : Type 0 where
  pub network : StacksNetwork
  pub bitcoin_txid : Text
  pub output_index : ℤ
  pub transaction_hex : Text
  pub deposit_script : Text
  pub reclaim_script : Text
  pub recipient : Text
  pub amount_sats : Text
  pub max_signer_fee_sats : Text

pub record EmilyDeposit : Type 0 where
  pub bitcoin_txid : Text
  pub output_index : ℤ
  pub recipient : Text
  pub amount : Text
  pub last_update_height : ℕ
  pub last_update_block_hash : Text
  pub status : EmilyDepositStatus
  pub status_message : Text
  pub lock_time : ℕ
  pub max_fee : Text
  pub reclaim_script : Text
  pub deposit_script : Text
  pub fulfillment : Option Fulfillment
  pub replaced_by_tx : Option Text

pub record BitcoinDepositObservation : Type 0 where
  pub confirmations : ℕ
  pub tip_height : ℕ
  pub canonical : Bool
  pub source : Text

pub record CanonicalDepositMint : Type 0 where
  pub bitcoin_txid : Text
  pub output_index : ℤ
  pub amount_sats : Text
  pub recipient : Text
  pub stacks_txid : Text
  pub block_height : ℕ
  pub block_hash : Text
  pub canonical : Bool

pub data SbtcDepositState : Type 0 where
  submitted confirming signer_processing mint_pending : SbtcDepositState
  reclaimable replaced failed reconciliation_failed reconciled : SbtcDepositState

pub data DepositAction : Type 0 where
  wait reclaim contact_support complete : DepositAction

pub data RecoveryState : Type 0 where
  unavailable locked available consumed : RecoveryState

pub record DepositContracts : Type 0 where
  pub deposit : Text
  pub registry : Text
  pub token : Text

pub record DepositBitcoin : Type 0 where
  pub txid : Text
  pub output_index : ℤ
  pub confirmations : Option ℕ
  pub canonical : Option Bool
  pub source : Option Text

pub record DepositSigner : Type 0 where
  pub status : Option EmilyDepositStatus
  pub message : Option Text
  pub last_update_height : Option ℕ
  pub last_update_block_hash : Option Text

pub record DepositFees : Type 0 where
  pub maximum_signer_fee_sats : Text
  pub actual_signer_fee_sats : Option Text

pub record DepositOutput : Type 0 where
  pub expected_minimum_sats : Text
  pub minted_sats : Option Text

pub record DepositRecovery : Type 0 where
  pub reclaim_script : Text
  pub lock_height : Option ℕ
  pub current_bitcoin_height : Option ℕ
  pub blocks_remaining : Option ℕ
  pub state : RecoveryState

-- `broadcastAllowed` is the constant false in the code's type too.
pub record SbtcDepositLifecycle : Type 0 where
  pub transfer_id : Text
  pub state : SbtcDepositState
  pub complete : Bool
  pub next_action : DepositAction
  pub broadcast_allowed : Bool
  pub contracts : DepositContracts
  pub bitcoin : DepositBitcoin
  pub signer : DepositSigner
  pub fees : DepositFees
  pub output : DepositOutput
  pub recovery : DepositRecovery
  pub mint : Option CanonicalDepositMint
  pub warnings : List Text

-- The argument of the evaluation.
pub record DepositEvidence : Type 0 where
  pub metadata : SbtcDepositMetadata
  pub emily : Option EmilyDeposit
  pub bitcoin : Option BitcoinDepositObservation
  pub mint : Option CanonicalDepositMint
  pub provider_timed_out : Bool

-- What Emily is told of a deposit.
pub record EmilyDepositNotification : Type 0 where
  pub bitcoin_txid : Text
  pub output_index : ℤ
  pub reclaim_script : Text
  pub deposit_script : Text
  pub transaction_hex : Text
