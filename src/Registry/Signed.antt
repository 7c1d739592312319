-- ===== src/Registry/Signed.antt =====
-- packages/config/src/signedRegistry.ts: the checks of a registry, its signature, and which version is
-- active. The cryptography of the platform, the parsing of dates and the order of locales are an argument.
use capital_os.Shared.{
  ℕ, ◌+◌, ◌-◌, ◌*◌, leb, Text, codes, text_eq, is_empty, Bool, true, false, ◌&&◌, ◌||◌, Option,
  none, some, List, [], ◌∷◌, ◌++◌, is_digit, if◌then◌else◌,
}
use capital_os.Errors.{Result, ok, err, error}
use capital_os.Network.{StacksNetwork}
use capital_os.Ids.{network_text}
use capital_os.Registry.Deployments.{
  ContractRef, ReviewedAsset, CapabilityRecord, CapabilityState, RegistryMode, action_text, enabled,
  read_only, paused, disabled,
}
use capital_os.Registry.Canonical.{
  Json, null, string, array, object, Items, nil, cons, end, field, canonical_value,
}

pub record RegistryPayload : Type 0 where
  pub schema_version : Text
  pub version : Text
  pub previous_version : Option Text
  pub issued_at : Text
  pub assets : List ReviewedAsset
  pub deployments : List ContractRef
  pub capabilities : List CapabilityRecord

pub record SignedRegistry : Type 0 where
  pub key_id : Text
  pub signature : Text
  pub payload : RegistryPayload

pub record VerifiedRegistry : Type 0 where
  pub key_id : Text
  pub payload : RegistryPayload

pub record RegistryActivation : Type 0 where
  pub active_version : Text
  pub rollback_version : Option Text
  pub mode : RegistryMode

-- What the platform gives: whether `Date.parse` finds a time, `localeCompare(...) <= 0`, and Ed25519 of
-- WebCrypto, whose import throws on a key that is none.
pub record Platform : Type 0 where
  pub is_date : Text → Bool
  pub locale_le : Text → Text → Bool
  pub import_key : List ℕ → Result (List ℕ)
  pub verify : List ℕ → List ℕ → Text → Bool

abbrev pub throw_error {ℓ} : {A : Type ℓ} → Text → Result A
throw_error message = err (error message)

abbrev pub check : Bool → Text → Result (Unit {0})
check true message = ok tt
check false message = throw_error message

abbrev optional_text : Option Text → Json
optional_text none = null
optional_text (some s) = string s

abbrev state_json : CapabilityState → Text
state_json enabled = codes "enabled"
state_json read_only = codes "read_only"
state_json paused = codes "paused"
state_json disabled = codes "disabled"

abbrev texts_json : List Text → Items
texts_json [] = nil
texts_json (s ∷ ss) = cons (string s) (texts_json ss)

abbrev asset_json : ReviewedAsset → Json
asset_json a = object (
    field (codes "id") (string a.id) (
      field (codes "network") (string (network_text a.network)) (
        field (codes "contractId") (string a.contract_id) (
          field (codes "assetName") (string a.asset_name)
            (field (codes "protocol") (string a.protocol) end)))))

abbrev contract_json : ContractRef → Json
contract_json c = object (
    field (codes "protocol") (string c.protocol) (
      field (codes "label") (string c.label) (
        field (codes "network") (string (network_text c.network)) (
          field (codes "contractId") (string c.contract_id) (
            field (codes "revision") (string c.revision)
              (field (codes "role") (string c.role) end))))))

abbrev capability_json : CapabilityRecord → Json
capability_json c = object (
    field (codes "action") (string (action_text c.action)) (
      field (codes "protocol") (string c.protocol) (
        field (codes "network") (string (network_text c.network)) (
          field (codes "contractId") (string c.contract_id) (
            field (codes "adapterVersion") (string c.adapter_version) (
              field (codes "state") (string (state_json c.state)) (
                field (codes "reason") (string c.reason)
                  (field (codes "wallet") (array (texts_json c.wallet)) end))))))))

abbrev items_of {ℓ} : {A : Type ℓ} → (A → Json) → List A → Items
items_of f [] = nil
items_of f (x ∷ xs) = cons (f x) (items_of f xs)

-- A payload as a JSON value.
unfoldable pub payload_json : RegistryPayload → Json
payload_json p = object (
    field (codes "schemaVersion") (string p.schema_version) (
      field (codes "version") (string p.version) (
        field (codes "previousVersion") (optional_text p.previous_version) (
          field (codes "issuedAt") (string p.issued_at) (
            field (codes "assets") (array (items_of asset_json p.assets)) (
              field (codes "deployments") (array (items_of contract_json p.deployments)) (
                field (codes "capabilities") (array (items_of capability_json p.capabilities))
                  end)))))))

unfoldable pub canonical_registry_payload : Platform → RegistryPayload → Text
unfolding canonical_value payload_json
canonical_registry_payload platform payload =
    canonical_value platform.locale_le (payload_json payload)

-- The value of a hexadecimal digit.
unfoldable pub nibble : ℕ → Option ℕ
nibble c =
    if is_digit c
    then some (c - b'0')
    else if leb b'a' c && leb c b'f'
    then some (c - b'a' + 10)
    else if leb b'A' c && leb c b'F'
    then some (c - b'A' + 10)
    else none

abbrev paired : Option ℕ → Option ℕ → Option (List ℕ) → Option (List ℕ)
paired (some high) (some low) (some rest) = some ((high * 16 + low) ∷ rest)
paired high low rest = none

-- The bytes that pairs of digits spell.
unfoldable pub pairs : Text → Option (List ℕ)
unfolding nibble
pairs [] = some []
pairs (c ∷ []) = none
pairs (c ∷ d ∷ s) = paired (nibble c) (nibble d) (pairs s)

abbrev bytes_of : Option (List ℕ) → Result (List ℕ)
bytes_of none = throw_error (codes "Registry key or signature is not hex")
bytes_of (some bs) = ok bs

-- `bytes(hex)`; the empty text is refused.
unfoldable pub bytes : Text → Result (List ℕ)
unfolding pairs
bytes hex =
    if is_empty hex
    then throw_error (codes "Registry key or signature is not hex")
    else bytes_of (pairs hex)

-- `contractId.slice(0, 2)`
abbrev first_two : Text → Text
first_two (c ∷ d ∷ s) = c ∷ d ∷ []
first_two s = s

unfoldable pub targets : StacksNetwork → Text → Bool
targets StacksNetwork.mainnet id =
    text_eq (first_two id) (codes "SP") || text_eq (first_two id) (codes "SM")
targets StacksNetwork.testnet id =
    text_eq (first_two id) (codes "ST") || text_eq (first_two id) (codes "SN")

unfoldable pub assert_network_target : StacksNetwork → Text → Result (Unit {0})
unfolding targets
assert_network_target network id =
    check (targets network id) (id ++ codes " does not target " ++ network_text network)
