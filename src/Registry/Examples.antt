-- ===== src/Registry/Examples.antt =====
-- A small registry at work in packages/config/src.
use capital_os.Shared.{codes, true, none, some, [], ◌∷◌, ◌≡◌, ◌↔◌, refl, get, text_eq}
use capital_os.Errors.{ok}
use capital_os.Network.{StacksNetwork}
use capital_os.Ids.{format_asset_id, bitcoin_native, parse_asset_id}
use capital_os.Plan.{withdraw_sbtc}
use capital_os.Registry.Deployments.{
  Tables, ContractRef, ReviewedAsset, CapabilityRecord, enabled, active, safe_exit_only, is_exit,
  assert_executable,
}
use capital_os.Registry.Signed.{
  Platform, RegistryPayload, SignedRegistry, VerifiedRegistry, RegistryActivation,
  assert_network_target, bytes,
}
use capital_os.Registry.Validate.{
  verify_signed_registry, activate_registry, check_assets, check_capabilities, check_deployments,
  is_adapter_version, validate_payload,
}
use capital_os.Registry.Sound.{SignedBy, IsSound, verify_signed_registry-IsSound}
use capital_os.Registry.Modes.{Rollback, safe_exit_iff, activate_registry-Rollback}

abbrev platform : Platform
platform = record {
  is_date = λ s. true;
  locale_le = λ s t. true;
  import_key = λ raw. ok raw;
  verify = λ key signature message. true;
}

abbrev withdrawal : ContractRef
withdrawal = record {
  protocol = codes "sbtc";
  label = codes "w";
  network = StacksNetwork.mainnet;
  contract_id = codes "SP.w";
  revision = codes "1";
  role = codes "r";
}

abbrev btc : ReviewedAsset
btc = record {
  id = format_asset_id (bitcoin_native StacksNetwork.mainnet);
  network = StacksNetwork.mainnet;
  contract_id = codes "SP.w";
  asset_name = codes "n";
  protocol = codes "sbtc";
}

abbrev withdraws : CapabilityRecord
withdraws = record {
  action = withdraw_sbtc;
  protocol = codes "sbtc";
  network = StacksNetwork.mainnet;
  contract_id = codes "SP.w";
  adapter_version = codes "w@0.1.0";
  state = enabled;
  reason = codes "ok";
  wallet = [];
}

abbrev payload : RegistryPayload
payload = record {
  schema_version = codes "1";
  version = codes "2";
  previous_version = some (codes "1");
  issued_at = codes "d";
  assets = btc ∷ [];
  deployments = withdrawal ∷ [];
  capabilities = withdraws ∷ [];
}

abbrev registry : SignedRegistry
registry = record { key_id = codes "k"; signature = codes "0a"; payload = payload }

abbrev verified : VerifiedRegistry
verified = record { key_id = codes "k"; payload = payload }

signed_ok : verify_signed_registry platform ((codes "k", codes "ff") ∷ []) registry ≡ ok verified
unfolding verify_signed_registry get text_eq codes validate_payload check_deployments
    assert_network_target check_assets parse_asset_id format_asset_id check_capabilities
    is_adapter_version bytes
signed_ok = refl

verify_signed_registry-IsSound_example :
    (verified.payload ≡ registry.payload)
    × SignedBy platform ((codes "k", codes "ff") ∷ []) registry
    × IsSound verified.payload
verify_signed_registry-IsSound_example =
    verify_signed_registry-IsSound platform ((codes "k", codes "ff") ∷ []) registry verified
      signed_ok

abbrev tables : Tables
tables = record { contracts = withdrawal ∷ []; capabilities = withdraws ∷ [] }

safe_exit_iff_example :
    (assert_executable tables withdraw_sbtc StacksNetwork.mainnet none safe_exit_only
      ≡ ok withdraws)
    ↔ ((is_exit withdraw_sbtc ≡ true)
        × (assert_executable tables withdraw_sbtc StacksNetwork.mainnet none active ≡ ok withdraws))
safe_exit_iff_example = safe_exit_iff tables withdraw_sbtc StacksNetwork.mainnet none withdraws

abbrev current : RegistryActivation
current = record { active_version = codes "1"; rollback_version = none; mode = active }

abbrev next : RegistryActivation
next = record { active_version = codes "2"; rollback_version = some (codes "1"); mode = active }

activated : activate_registry (some current) verified ≡ ok next
unfolding activate_registry text_eq codes
activated = refl

activate_registry-Rollback_example : Rollback current verified next
activate_registry-Rollback_example = activate_registry-Rollback current verified next activated
