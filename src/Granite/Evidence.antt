-- ===== src/Granite/Evidence.antt =====
-- packages/adapters/src/granite/creditLifecycle.ts: the intent, the evidence on it, and the view that is
-- rebuilt from them.
use capital_os.Shared.{ℕ, Text, ℤ, Bool, Option, List}
use capital_os.Network.{StacksNetwork}
use capital_os.Plan.{Action, supply, withdraw_supply, borrow, repay}

pub data GraniteCreditAction : Type 0 where
  supplies withdraws borrows repays : GraniteCreditAction

-- `action as Action`
abbrev pub action_of : GraniteCreditAction → Action
action_of GraniteCreditAction.supplies = supply
action_of GraniteCreditAction.withdraws = withdraw_supply
action_of GraniteCreditAction.borrows = borrow
action_of GraniteCreditAction.repays = repay

-- A reading of a price, as packages/adapters/src/reads.ts has it.
pub record OracleSnapshot : Type 0 where
  pub price : Text
  pub scale : Text
  pub observed_at : Text
  pub source : Text
  pub stale : Bool
  pub max_age_ms : ℤ

pub record GranitePositionEvidence : Type 0 where
  pub collateral : Text
  pub debt : Text
  pub accrued_debt : Option Text
  pub observed_at : Text
  pub source : Text

pub record GraniteRiskParams : Type 0 where
  pub ltv_borrow_bps : Text
  pub ltv_liq_bps : Text
  pub buffer_bps : Text
  pub sbtc_decimals : Text
  pub usdcx_decimals : Text

pub record GraniteMarketEvidence : Type 0 where
  pub borrow_paused : Bool
  pub repay_paused : Bool
  pub liquidity_usdcx : Option Text
  pub interest_rate_bps : Option Text
  pub risk_params : GraniteRiskParams
  pub sbtc : OracleSnapshot
  pub usdcx : OracleSnapshot

pub record GraniteCreditIntent : Type 0 where
  pub action : GraniteCreditAction
  pub network : StacksNetwork
  pub owner : Text
  pub amount : Text
  pub collateral_amount : Option Text
  pub recipient : Option Text
  pub on_behalf_of : Option Text
  pub idempotency_key : Text

pub data SettlementKind : Type 0 where
  collateral_add collateral_remove granite_borrow granite_repay : SettlementKind

pub record CanonicalGraniteSettlement : Type 0 where
  pub kind : SettlementKind
  pub stacks_txid : Text
  pub block_height : ℕ
  pub block_hash : Text
  pub canonical : Bool
  pub asset_moved : Text
  pub owner : Text

pub data GraniteCreditState : Type 0 where
  unavailable oracle_stale paused liquidity_blocked health_blocked : GraniteCreditState
  awaiting_signature submitted confirming reconciled reconciliation_failed : GraniteCreditState

pub data GraniteNextAction : Type 0 where
  wait sign contact_support complete not_available : GraniteNextAction

pub record RepayView : Type 0 where
  pub requested : Text
  pub settled_amount : Option Text
  pub is_repay_all : Bool
  pub accrued_debt : Option Text
  pub remaining_debt : Option Text

pub record HealthView : Type 0 where
  pub current_ltv_bps : Option Text
  pub health_factor_bps : Option Text
  pub max_borrow : Option Text
  pub within_buffer : Option Bool
  pub healthy : Option Bool
  pub stale : Bool

pub record GraniteContracts : Type 0 where
  pub market : Text
  pub sbtc : Text
  pub usdcx : Text

pub record GraniteObserved : Type 0 where
  pub stacks_txid : Option Text
  pub asset_moved : Option Text
  pub collateral : Option Text
  pub debt : Option Text

-- `broadcastAllowed` is the constant false in the code's type too.
pub record GraniteCreditLifecycle : Type 0 where
  pub transfer_id : Text
  pub action : GraniteCreditAction
  pub network : StacksNetwork
  pub state : GraniteCreditState
  pub complete : Bool
  pub next_action : GraniteNextAction
  pub broadcast_allowed : Bool
  pub contracts : GraniteContracts
  pub repay : RepayView
  pub health : HealthView
  pub observed : GraniteObserved
  pub warnings : List Text

-- The argument of the evaluation; `now` is the time in milliseconds.
pub record GraniteEvidence : Type 0 where
  pub intent : GraniteCreditIntent
  pub market : Option GraniteMarketEvidence
  pub position : Option GranitePositionEvidence
  pub settlement : Option CanonicalGraniteSettlement
  pub broadcast_known : Bool
  pub now : ℤ

-- What the reads of packages/adapters/src/reads.ts hold of a market.
pub record VaultSnapshot : Type 0 where
  pub paused_redeem : Bool
  pub total_assets : Text
  pub interest_rate_bps : Option Text

pub record MarketReads : Type 0 where
  pub oracle : Option (OracleSnapshot × OracleSnapshot)
  pub risk_params : Option GraniteRiskParams
  pub debt_vault : Option VaultSnapshot

-- `GraniteMarketEvidence | { error }`
pub data MarketAnswer : Type 0 where
  read : GraniteMarketEvidence → MarketAnswer
  unread : Text → MarketAnswer
