-- ===== src/Registry/Validate.antt =====
-- packages/config/src/signedRegistry.ts: the checks of a registry's payload, the verification of its
-- signature, and the activation, rollback and restriction of versions.
use capital_os.Shared.{
  ℕ, ◌==◌, leb, Text, codes, text_eq, has, is_empty, all, Bool, true, false, not, ◌&&◌, ◌||◌,
  Option, none, some, List, [], ◌∷◌, ◌++◌, is_digit, if◌then◌else◌, get,
}
use capital_os.Errors.{Result, ok, ◌>>=◌, ◌>>◌}
use capital_os.Network.{StacksNetwork, network_eq}
use capital_os.Ids.{AssetId, network_text, parse_asset_id, format_asset_id}
use capital_os.Registry.Deployments.{
  ContractRef, ReviewedAsset, CapabilityRecord, active, safe_exit_only, action_text, is_disabled,
}
use capital_os.Registry.Signed.{
  RegistryPayload, SignedRegistry, VerifiedRegistry, RegistryActivation, Platform, check,
  throw_error, canonical_registry_payload, bytes, assert_network_target,
}

abbrev pub deployment_key : ContractRef → Text
deployment_key d =
    d.protocol
    ++ codes ":"
    ++ network_text d.network
    ++ codes ":"
    ++ d.contract_id
    ++ codes "@"
    ++ d.revision

-- A contract on a network, as the checks know it.
abbrev pub target_key : StacksNetwork → Text → Text
target_key network id = network_text network ++ codes ":" ++ id

abbrev pub capability_key : CapabilityRecord → Text
capability_key c =
    network_text c.network ++ codes ":" ++ c.protocol ++ codes ":" ++ action_text c.action

-- The loop over the deployments, with the keys seen so far.
unfoldable pub check_deployments : List Text → List ContractRef → Result (Unit {0})
check_deployments known [] = ok tt
check_deployments known (d ∷ ds) = do
  assert_network_target d.network d.contract_id
  check (not (has (deployment_key d) known))
      (codes "Duplicate registry deployment " ++ deployment_key d)
  check_deployments (deployment_key d ∷ known) ds

-- `deployedContracts`
abbrev pub deployed : List ContractRef → List Text
deployed [] = []
deployed (d ∷ ds) = target_key d.network d.contract_id ∷ deployed ds

abbrev pub same_identity : ReviewedAsset → AssetId → Bool
same_identity a parsed =
    network_eq parsed.network a.network && text_eq (format_asset_id parsed) a.id

unfoldable pub check_assets : List Text → List ReviewedAsset → Result (Unit {0})
check_assets known [] = ok tt
check_assets known (a ∷ more) = do
  assert_network_target a.network a.contract_id
  parsed ← parse_asset_id a.id
  check (same_identity a parsed) (codes "Asset identity does not match its network: " ++ a.id)
  check (not (has a.id known)) (codes "Duplicate registry asset " ++ a.id)
  check_assets (a.id ∷ known) more

-- `[a-z0-9-]`
unfoldable pub is_adapter_unit : ℕ → Bool
is_adapter_unit c = (leb b'a' c && leb c b'z') || is_digit c || c == b'-'

-- The rest behind one unit of a class or more, followed by a separator.
unfoldable pub behind : (ℕ → Bool) → ℕ → Bool → Text → Option Text
behind test separator some_read [] = none
behind test separator some_read (c ∷ s) =
    let rest = behind test separator true s in
    if test c then rest else if some_read && c == separator then some s else none

abbrev digits_to_end : Text → Bool
digits_to_end s = not (is_empty s) && all is_digit s

abbrev last_part : Option Text → Bool
last_part none = false
last_part (some s) = digits_to_end s

abbrev middle_part : Option Text → Bool
middle_part none = false
middle_part (some s) = last_part (behind is_digit b'.' false s)

abbrev version_part : Option Text → Bool
version_part none = false
version_part (some s) = middle_part (behind is_digit b'.' false s)

-- `/^[a-z0-9-]+@\d+\.\d+\.\d+$/`
unfoldable pub is_adapter_version : Text → Bool
unfolding behind is_adapter_unit
is_adapter_version s = version_part (behind is_adapter_unit b'@' false s)

abbrev pub check_target : List Text → CapabilityRecord → Result (Unit {0})
check_target contracts c = do
  assert_network_target c.network c.contract_id
  check (has (target_key c.network c.contract_id) contracts)
      (codes "Capability targets an unregistered deployment: " ++ c.contract_id)

abbrev pub check_enabled : List Text → CapabilityRecord → Result (Unit {0})
check_enabled contracts c = if is_disabled c.state then ok tt else check_target contracts c

unfoldable pub check_capabilities :
    List Text → List Text → List CapabilityRecord → Result (Unit {0})
check_capabilities contracts known [] = ok tt
check_capabilities contracts known (c ∷ cs) = do
  check (not (has (capability_key c) known))
      (codes "Duplicate registry capability " ++ capability_key c)
  check (is_adapter_version c.adapter_version)
      (codes "Invalid adapter version " ++ c.adapter_version)
  check_enabled contracts c
  check_capabilities contracts (capability_key c ∷ known) cs

unfoldable pub validate_payload : Platform → RegistryPayload → Result (Unit {0})
validate_payload platform payload = do
  check (text_eq payload.schema_version (codes "1") && not (is_empty payload.version))
      (codes "Registry metadata is invalid")
  check (platform.is_date payload.issued_at) (codes "Registry issuedAt is invalid")
  check_deployments [] payload.deployments
  check_assets [] payload.assets
  check_capabilities (deployed payload.deployments) [] payload.capabilities

abbrev pub trusted_key : Text → Option Text → Result Text
trusted_key id none = throw_error (codes "Registry signer is not trusted: " ++ id)
trusted_key id (some key) = ok key

unfoldable pub verify_signed_registry :
    Platform → List (Text × Text) → SignedRegistry → Result VerifiedRegistry
verify_signed_registry platform trusted_keys registry = do
  public_key ← trusted_key registry.key_id (get registry.key_id trusted_keys)
  validate_payload platform registry.payload
  raw ← bytes public_key
  key ← platform.import_key raw
  signature ← bytes registry.signature
  check (platform.verify key signature (canonical_registry_payload platform registry.payload))
      (codes "Registry signature is invalid for " ++ registry.payload.version)
  ok (record { key_id = registry.key_id; payload = registry.payload })

abbrev pub follows : Option Text → Text → Bool
follows none version = false
follows (some previous) version = text_eq previous version

unfoldable pub activate_registry :
    Option RegistryActivation → VerifiedRegistry → Result RegistryActivation
activate_registry none candidate = ok (record {
  active_version = candidate.payload.version;
  rollback_version = candidate.payload.previous_version;
  mode = active;
})
activate_registry (some current) candidate = do
  check (follows candidate.payload.previous_version current.active_version) (
      codes "Registry "
      ++ candidate.payload.version
      ++ codes " cannot replace "
      ++ current.active_version
      ++ codes "; previousVersion does not match")
  ok (record {
    active_version = candidate.payload.version;
    rollback_version = some current.active_version;
    mode = active;
  })

unfoldable pub go_safe_exit_only : RegistryActivation → RegistryActivation
go_safe_exit_only state = record state { mode = safe_exit_only }

abbrev rolled_back : RegistryActivation → Option Text → Result RegistryActivation
rolled_back state none = throw_error (codes "Registry has no rollback version")
rolled_back state (some version) = ok (record {
  active_version = version;
  rollback_version = some state.active_version;
  mode = safe_exit_only;
})

unfoldable pub rollback_registry : RegistryActivation → Result RegistryActivation
rollback_registry state = rolled_back state state.rollback_version
