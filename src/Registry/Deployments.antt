-- ===== src/Registry/Deployments.antt =====
-- packages/config/src/deployments.ts: the records of contracts, assets and capabilities, and the lookups
-- in their tables, which are an argument.
use capital_os.Shared.{
  ℕ, ◌==◌, Text, codes, text_eq, add_all, Bool, true, false, not, ◌&&◌, ◌||◌, Option, none, some,
  List, [], ◌++◌, map, filter, find, if◌then◌else◌,
}
use capital_os.Errors.{Result, ok, err, error}
use capital_os.Network.{StacksNetwork, network_eq}
use capital_os.Ids.{network_text}
use capital_os.Plan.{
  Action, deposit_sbtc, withdraw_sbtc, supply, withdraw_supply, borrow, repay, swap, stake,
}

pub record ContractRef : Type 0 where
  pub protocol : Text
  pub label : Text
  pub network : StacksNetwork
  pub contract_id : Text
  pub revision : Text
  pub role : Text

pub record ReviewedAsset : Type 0 where
  pub id : Text
  pub network : StacksNetwork
  pub contract_id : Text
  pub asset_name : Text
  pub protocol : Text

pub data CapabilityState : Type 0 where
  enabled read_only paused disabled : CapabilityState

pub data RegistryMode : Type 0 where
  active safe_exit_only : RegistryMode

pub record CapabilityRecord : Type 0 where
  pub action : Action
  pub protocol : Text
  pub network : StacksNetwork
  pub contract_id : Text
  pub adapter_version : Text
  pub state : CapabilityState
  pub reason : Text
  pub wallet : List Text

-- `CONTRACTS` and `CAPABILITIES`.
pub record Tables : Type 0 where
  pub contracts : List ContractRef
  pub capabilities : List CapabilityRecord

abbrev pub action_text : Action → Text
action_text deposit_sbtc = codes "deposit_sbtc"
action_text withdraw_sbtc = codes "withdraw_sbtc"
action_text supply = codes "supply"
action_text withdraw_supply = codes "withdraw_supply"
action_text borrow = codes "borrow"
action_text repay = codes "repay"
action_text swap = codes "swap"
action_text stake = codes "stake"

abbrev action_rank : Action → ℕ
action_rank deposit_sbtc = 0
action_rank withdraw_sbtc = 1
action_rank supply = 2
action_rank withdraw_supply = 3
action_rank borrow = 4
action_rank repay = 5
action_rank swap = 6
action_rank stake = 7

abbrev pub action_eq : Action → Action → Bool
action_eq a b = action_rank a == action_rank b

abbrev pub is_enabled : CapabilityState → Bool
is_enabled enabled = true
is_enabled _ = false

abbrev pub is_disabled : CapabilityState → Bool
is_disabled disabled = true
is_disabled _ = false

abbrev is_active : RegistryMode → Bool
is_active active = true
is_active safe_exit_only = false

-- `EXIT_ACTIONS.has(action)`
abbrev pub is_exit : Action → Bool
is_exit withdraw_sbtc = true
is_exit withdraw_supply = true
is_exit repay = true
is_exit _ = false

unfoldable pub apply_registry_mode : CapabilityRecord → RegistryMode → CapabilityRecord
apply_registry_mode capability mode =
    if is_active mode || is_exit capability.action || is_disabled capability.state
    then capability
    else record capability {
      state = paused;
      reason = codes "Registry is in safe-exit-only mode. " ++ capability.reason;
    }

abbrev pub is_contract : Text → Text → StacksNetwork → ContractRef → Bool
is_contract protocol label network item =
    text_eq item.protocol protocol && text_eq item.label label && network_eq item.network network

unfoldable pub find_contract : Tables → Text → Text → StacksNetwork → Option ContractRef
find_contract tables protocol label network =
    find (is_contract protocol label network) tables.contracts

unfoldable pub contract : Tables → Text → Text → StacksNetwork → Result ContractRef
unfolding find_contract
contract tables protocol label network = elim (find_contract tables protocol label network) [
  | none ↦ err (
      error (
        codes "No contract "
        ++ protocol
        ++ codes "/"
        ++ label
        ++ codes " on "
        ++ network_text network))
  | some found ↦ ok found
]

abbrev any_protocol : Option Text → Text → Bool
any_protocol none theirs = true
any_protocol (some protocol) theirs = text_eq theirs protocol

abbrev pub is_capability : Action → StacksNetwork → Option Text → CapabilityRecord → Bool
is_capability action network protocol item =
    action_eq item.action action
    && network_eq item.network network
    && any_protocol protocol item.protocol

abbrev pub with_mode : RegistryMode → Option CapabilityRecord → Option CapabilityRecord
with_mode mode none = none
with_mode mode (some found) = some (apply_registry_mode found mode)

unfoldable pub capability_for :
    Tables → Action → StacksNetwork → Option Text → RegistryMode → Option CapabilityRecord
capability_for tables action network protocol mode =
    with_mode mode (find (is_capability action network protocol) tables.capabilities)

abbrev not_executable : Action → StacksNetwork → Text → Text
not_executable action network reason =
    action_text action
    ++ codes " is not executable on "
    ++ network_text network
    ++ codes ": "
    ++ reason

-- The error's code, `CAPABILITY_DISABLED`, is left out.
abbrev pub executable_one :
    Action → StacksNetwork → Option CapabilityRecord → Result CapabilityRecord
executable_one action network none =
    err (error (not_executable action network (codes "no capability record")))
executable_one action network (some found) =
    if is_enabled found.state
    then ok found
    else err (error (not_executable action network found.reason))

unfoldable pub assert_executable :
    Tables → Action → StacksNetwork → Option Text → RegistryMode → Result CapabilityRecord
assert_executable tables action network protocol mode =
    executable_one action network (capability_for tables action network protocol mode)

abbrev pub is_target : StacksNetwork → CapabilityRecord → Bool
is_target network item = network_eq item.network network && not (is_disabled item.state)

unfoldable pub executable_contract_ids : Tables → StacksNetwork → List Text
executable_contract_ids tables network =
    add_all [] (map (λ item. item.contract_id) (filter (is_target network) tables.capabilities))
