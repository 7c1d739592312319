-- ===== src/Plan.antt =====
-- packages/core/src/plan.ts and quote.ts: quotes, and the plans that bind them.
use capital_os.Shared.{Text, text_lt, not, ℕ, Bool, Option, List}
use capital_os.Network.{StacksNetwork, BitcoinNetworkKind}
use capital_os.Amounts.{AssetAmount, Value}

-- `tuple` holds its fields, which no function here looks into, as their text.
pub data ClarityValue : Type 0 where
  uint : Value → ClarityValue
  principal : Text → ClarityValue
  buff : Text → ClarityValue
  tuple : Text → ClarityValue
  empty : ClarityValue
  just : ClarityValue → ClarityValue

pub data PostConditionKind : Type 0 where
  send_lte send_eq send_gte receive_gte : PostConditionKind

pub record PostCondition : Type 0 where
  pub principal : Text
  pub mode : PostConditionKind
  pub amount : AssetAmount

-- The two amounts are strings by type; what a caller passes is looked at when a plan is validated.
pub record BitcoinDepositPayload : Type 0 where
  pub amount_sats : Value
  pub stacks_recipient : Text
  pub bitcoin_network : BitcoinNetworkKind
  pub reclaim_lock_time : ℕ
  pub max_signer_fee_sats : Value
  pub emily_notify_path : Text

pub data PostConditionMode : Type 0 where
  deny allow : PostConditionMode

pub record StacksCallPayload : Type 0 where
  pub contract_id : Text
  pub function_name : Text
  pub function_args : List ClarityValue
  pub post_conditions : List PostCondition
  pub post_condition_mode : PostConditionMode
  pub network : StacksNetwork

pub data UnsignedPayload : Type 0 where
  bitcoin_deposit : BitcoinDepositPayload → UnsignedPayload
  stacks_contract_call : StacksCallPayload → UnsignedPayload

pub record PlanStep : Type 0 where
  pub id : Text
  pub payload : UnsignedPayload
  pub expected_asset_effects : List AssetAmount
  pub depends_on : List Text

pub record Plan : Type 0 where
  pub id : Text
  pub quote_id : Text
  pub network : StacksNetwork
  pub registry_version : Text
  pub adapter_version : Text
  pub steps : List PlanStep
  pub expires_at : Text
  pub review_summary : Text

pub record PlanValidation : Type 0 where
  pub is_ok : Bool
  pub reasons : List Text

pub data Action : Type 0 where
  deposit_sbtc withdraw_sbtc supply withdraw_supply borrow repay swap stake : Action

pub data FeeKind : Type 0 where
  miner signer protocol network : FeeKind

pub record Fee : Type 0 where
  pub kind : FeeKind
  pub amount : AssetAmount
  pub max : Option AssetAmount

pub record Quote : Type 0 where
  pub id : Text
  pub action : Action
  pub market_id : Text
  pub network : StacksNetwork
  pub input : List AssetAmount
  pub expected_output : List AssetAmount
  pub fees : List Fee
  pub snapshots : List Text
  pub expires_at : Text
  pub executable : Bool
  pub warnings : List Text
  pub registry_version : Text
  pub adapter_version : Text
  pub minimum_output : Option AssetAmount

-- `now` is the text of `now.toISOString()`, which is all that the code uses of it.
unfoldable pub quote_expired : Quote → Text → Bool
quote_expired quote now = not (text_lt now quote.expires_at)
