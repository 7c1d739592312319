-- ===== src/Registry/Sound.antt =====
-- What the checks of packages/config/src/signedRegistry.ts guarantee of a registry that they let through.
use capital_os.Shared.{
  Text, text_eq_iff, has, Bool, true, false, not, Option, none, some, List, [], ◌∷◌, map, ◌≡◌, refl,
  sym, arith, ℕ, All, get, Bool-cases, inl, inr,
}
use mathlib.Core.Path.{subst}
use capital_os.Errors.{Result, ok, ◌>>◌, bind-ok}
use capital_os.Network.{network_eq}
use capital_os.Ids.{AssetId, parse_asset_id, format_asset_id}
use capital_os.Registry.Deployments.{ContractRef, ReviewedAsset, CapabilityRecord, is_disabled}
use capital_os.Registry.Signed.{
  RegistryPayload, SignedRegistry, VerifiedRegistry, Platform, check, canonical_registry_payload,
  bytes, targets, assert_network_target,
}
use capital_os.Registry.Validate.{
  deployment_key, target_key, capability_key, deployed, check_deployments, check_assets,
  check_capabilities, check_enabled, check_target, is_adapter_version, validate_payload,
  verify_signed_registry, trusted_key, same_identity,
}

-- No key stands twice.
abbrev pub Distinct : List Text → Type 0
Distinct [] = Unit {0}
Distinct (k ∷ ks) = (has k ks ≡ false) × Distinct ks

-- Nor is one of them among those known.
abbrev Fresh : List Text → List Text → Type 0
Fresh known ks = All (λ k. has k known ≡ false) ks × Distinct ks

others :
    (k : Text) (known ks : List Text)
    → All (λ j. has j (k ∷ known) ≡ false) ks
    → (has k ks ≡ false) × All (λ j. has j known ≡ false) ks
others k known [] h = (refl, tt)
others k known (j ∷ ks) (h, hs) =
    let (a, b) = others k known ks hs in
    (ground (arith, text_eq_iff j k, text_eq_iff k j), (ground arith, b))

Fresh-cons :
    (k : Text) (known ks : List Text)
    → has k known ≡ false
    → Fresh (k ∷ known) ks
    → Fresh known (k ∷ ks)
Fresh-cons k known ks h (new, distinct) =
    let (a, b) = others k known ks new in ((h, b), (a, distinct))

check-ok {ℓ} :
    {B : Type ℓ} (b : Bool) (message : Text) (rest : Result B) (r : B)
    → (check b message >> rest) ≡ ok r
    → (b ≡ true) × (rest ≡ ok r)
check-ok true message rest r e = (refl, e)
check-ok false message rest r e = absurd (ground arith)

negated : (b : Bool) → not b ≡ true → b ≡ false
negated b h = ground arith

check_deployments-Fresh :
    (known : List Text) (ds : List ContractRef)
    → check_deployments known ds ≡ ok tt
    → Fresh known (map deployment_key ds) × All (λ d. targets d.network d.contract_id ≡ true) ds
unfolding check_deployments assert_network_target
check_deployments-Fresh known [] e = ((tt, tt), tt)
check_deployments-Fresh known (d ∷ ds) e =
    let (t, e₁) = check-ok (targets d.network d.contract_id) _ _ tt e in
    let (n, e₂) = check-ok (not (has (deployment_key d) known)) _ _ tt e₁ in
    let (fresh, all_targets) = check_deployments-Fresh (deployment_key d ∷ known) ds e₂ in
    (
      Fresh-cons (deployment_key d) known (map deployment_key ds) (negated _ n) fresh,
      (t, all_targets),
    )

-- An asset's identifier is the one that its parse is written as, on its own network.
abbrev pub Identified : ReviewedAsset → Type 0
Identified a =
    (targets a.network a.contract_id ≡ true)
    × ((parsed : AssetId) × (parse_asset_id a.id ≡ ok parsed)
        × (network_eq parsed.network a.network ≡ true)
        × (format_asset_id parsed ≡ a.id))

check_assets-Fresh :
    (known : List Text) (listed : List ReviewedAsset)
    → check_assets known listed ≡ ok tt
    → Fresh known (map (λ a. a.id) listed) × All Identified listed
unfolding check_assets assert_network_target
check_assets-Fresh known [] e = ((tt, tt), tt)
check_assets-Fresh known (a ∷ more) e =
    let (t, e₁) = check-ok (targets a.network a.contract_id) _ _ tt e in
    let (parsed, p, e₂) = bind-ok (parse_asset_id a.id) _ tt e₁ in
    let (s, e₃) = check-ok (same_identity a parsed) _ _ tt e₂ in
    let (n, e₄) = check-ok (not (has a.id known)) _ _ tt e₃ in
    let (fresh, identified) = check_assets-Fresh (a.id ∷ known) more e₄ in
    (
      Fresh-cons a.id known (map (λ b. b.id) more) (negated _ n) fresh,
      ((t, (parsed, p, ground arith, (text_eq_iff _ _).0 (ground arith))), identified),
    )

-- A capability that may be used targets a contract of its network that is deployed.
abbrev pub Targeted : List ContractRef → CapabilityRecord → Type 0
Targeted deployments c =
    (is_adapter_version c.adapter_version ≡ true)
    × (is_disabled c.state ≡ false
        → (targets c.network c.contract_id ≡ true)
          × (has (target_key c.network c.contract_id) (deployed deployments) ≡ true))

module _ (deployments : List ContractRef) where
  check_enabled-Targeted :
      (c : CapabilityRecord) (rest : Result (Unit {0}))
      → (check_enabled (deployed deployments) c >> rest) ≡ ok tt
      → (is_disabled c.state ≡ false
          → (targets c.network c.contract_id ≡ true)
            × (has (target_key c.network c.contract_id) (deployed deployments) ≡ true))
        × (rest ≡ ok tt)
  unfolding assert_network_target
  check_enabled-Targeted c rest e = elim (Bool-cases (is_disabled c.state)) [
    | inl off ↦ (λ on. absurd (cc (off, on)), rw off at e)
    | inr on ↦
        let (x, first, e₁) = bind-ok (check_target (deployed deployments) c) _ tt (rw on at e) in
        let (t, e₂) = check-ok (targets c.network c.contract_id) _ _ x first in
        (λ _. (t, is_deployed _ _ e₂), e₁)
  ]
    where
      is_deployed : (b : Bool) (m : Text) {r : Unit {0}} → check b m ≡ ok r → b ≡ true
      is_deployed true m h = refl
      is_deployed false m h = absurd (ground arith)

  check_capabilities-Fresh :
      (known : List Text) (cs : List CapabilityRecord)
      → check_capabilities (deployed deployments) known cs ≡ ok tt
      → Fresh known (map capability_key cs) × All (Targeted deployments) cs
  unfolding check_capabilities
  check_capabilities-Fresh known [] e = ((tt, tt), tt)
  check_capabilities-Fresh known (c ∷ cs) e =
      let (n, e₁) = check-ok (not (has (capability_key c) known)) _ _ tt e in
      let (v, e₂) = check-ok (is_adapter_version c.adapter_version) _ _ tt e₁ in
      let (t, e₃) = check_enabled-Targeted c _ e₂ in
      let (fresh, targeted) = check_capabilities-Fresh (capability_key c ∷ known) cs e₃ in
      (
        Fresh-cons (capability_key c) known (map capability_key cs) (negated _ n) fresh,
        ((v, t), targeted),
      )

-- What a payload that passes the checks is.
pub record IsSound (payload : RegistryPayload) : Type 0 where
  pub deployments : Distinct (map deployment_key payload.deployments)
  pub targeted : All (λ d. targets d.network d.contract_id ≡ true) payload.deployments
  pub assets : Distinct (map (λ a. a.id) payload.assets)
  pub identified : All Identified payload.assets
  pub capabilities : Distinct (map capability_key payload.capabilities)
  pub usable : All (Targeted payload.deployments) payload.capabilities

validate_payload-IsSound :
    (platform : Platform) (p : RegistryPayload) → validate_payload platform p ≡ ok tt → IsSound p
unfolding validate_payload
validate_payload-IsSound platform p e =
    let (m, e₁) = check-ok _ _ _ tt e in
    let (d, e₂) = check-ok (platform.is_date p.issued_at) _ _ tt e₁ in
    let (x, first, e₃) = bind-ok (check_deployments [] p.deployments) _ tt e₂ in
    let (y, second, e₄) = bind-ok (check_assets [] p.assets) _ tt e₃ in
    let (fresh, targeted) = check_deployments-Fresh [] p.deployments first in
    let (fresh', identified) = check_assets-Fresh [] p.assets second in
    let (fresh'', usable) = check_capabilities-Fresh p.deployments [] p.capabilities e₄ in
    record {
      deployments = fresh.1;
      targeted = targeted;
      assets = fresh'.1;
      identified = identified;
      capabilities = fresh''.1;
      usable = usable;
    }

-- The signature of a trusted key was found good for the canonical text of the payload.
abbrev pub SignedBy : Platform → List (Text × Text) → SignedRegistry → Type 0
SignedBy platform trusted_keys registry =
    (public_key : Text) × (raw : List ℕ) × (key : List ℕ) × (signature : List ℕ) × (get
        registry.key_id trusted_keys
      ≡ some public_key)
    × (bytes public_key ≡ ok raw)
    × (platform.import_key raw ≡ ok key)
    × (bytes registry.signature ≡ ok signature)
    × (platform.verify key signature (canonical_registry_payload platform registry.payload) ≡ true)

trusted-ok : (id : Text) (k : Option Text) (key : Text) → trusted_key id k ≡ ok key → k ≡ some key
trusted-ok id none key e = absurd (ground arith)
trusted-ok id (some k) key e = ground arith

-- A registry that is taken for verified is the one that was given, a trusted key signed its canonical
-- text, and it is sound: no deployment, asset or capability stands twice; every contract is one of its
-- network; every asset's identifier is the one that its parse is written as, on its network; every
-- capability has a well formed adapter version, and one that is not disabled targets a contract that is
-- deployed on its network.
pub verify_signed_registry-IsSound :
    (platform : Platform) (trusted_keys : List (Text × Text)) (registry : SignedRegistry)
    (verified : VerifiedRegistry)
    → verify_signed_registry platform trusted_keys registry ≡ ok verified
    → (verified.payload ≡ registry.payload)
      × SignedBy platform trusted_keys registry
      × IsSound verified.payload
unfolding verify_signed_registry
verify_signed_registry-IsSound platform trusted_keys registry verified e =
    let (public_key, t, e₁) =
      bind-ok (trusted_key registry.key_id (get registry.key_id trusted_keys)) _ verified e in
    let (x, valid, e₂) = bind-ok (validate_payload platform registry.payload) _ verified e₁ in
    let (raw, r, e₃) = bind-ok (bytes public_key) _ verified e₂ in
    let (key, k, e₄) = bind-ok (platform.import_key raw) _ verified e₃ in
    let (signature, s, e₅) = bind-ok (bytes registry.signature) _ verified e₄ in
    let (good, e₆) =
      check-ok
        (platform.verify key signature (canonical_registry_payload platform registry.payload)) _ _
        verified e₅ in
    let same : verified.payload ≡ registry.payload = ground arith in
    (
      same,
      (public_key, raw, key, signature, trusted-ok registry.key_id _ public_key t, r, k, s, good),
      subst IsSound (sym same) (validate_payload-IsSound platform registry.payload valid),
    )
