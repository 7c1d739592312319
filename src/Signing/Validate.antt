-- ===== src/Signing/Validate.antt =====
-- packages/core/src/signing.ts: `validatePlan`, the two assertions on it, and `walletOutcome`.
use capital_os.Shared.{
  Text, codes, text_eq, text_lt, join, has, is_empty, Bool, true, false, not, ◌||◌, Option, none,
  some, List, [], ◌∷◌, ◌++◌, if◌then◌else◌,
}
use capital_os.Errors.{Result, ok, err, throw_if, plan_invalid, ◌>>=◌}
use capital_os.Network.{
  StacksNetwork, BitcoinNetworkKind, bitcoin_for_stacks, network_eq, kind_eq,
  stacks_address_network, bitcoin_address_kind,
}
use capital_os.Plan.{
  PostConditionMode, deny, allow, BitcoinDepositPayload, StacksCallPayload, UnsignedPayload,
  bitcoin_deposit, stacks_contract_call, PlanStep, Plan, PlanValidation, Quote, quote_expired,
}
use capital_os.Signing.Checks.{
  SigningContext, reason_if, message_of, on_other_network, payload_uses_number, depends_on_reasons,
  effect_binding_reasons, post_condition_binding_reasons,
}

abbrev pub is_deny : PostConditionMode → Bool
is_deny deny = true
is_deny allow = false

abbrev pub is_given : Option Text → Bool
is_given none = false
is_given (some s) = true

unfoldable pub stacks_call_reasons : StacksCallPayload → StacksNetwork → SigningContext → List Text
stacks_call_reasons payload plan_network ctx =
    reason_if (not (is_deny payload.post_condition_mode))
      (codes "Stacks calls must use deny-mode post conditions")
    ++ reason_if (is_empty payload.post_conditions)
        (codes "Stacks calls must include post conditions")
    ++ reason_if (not (network_eq payload.network plan_network))
        (codes "Stacks call network does not match the plan network")
    ++ reason_if (not (is_given ctx.sender))
        (codes "sender is required before a Stacks plan can be signed")

unfoldable pub bitcoin_deposit_reasons : BitcoinDepositPayload → StacksNetwork → List Text
bitcoin_deposit_reasons payload plan_network =
    reason_if (not (kind_eq payload.bitcoin_network (bitcoin_for_stacks plan_network)))
      (codes "bitcoin deposit network does not match the Stacks network")
    ++ reason_if (on_other_network (stacks_address_network payload.stacks_recipient) plan_network)
        (codes "deposit recipient is on the wrong Stacks network")

abbrev pub registry_reasons : Option (List Text) → Text → List Text
registry_reasons none contract = codes "trusted contract registry is unavailable" ∷ []
registry_reasons (some allowed) contract =
    reason_if (not (has contract allowed))
      (codes "contract is not approved by the active registry: " ++ contract)

-- What `payloadUsesNumber` throws becomes a reason.
abbrev pub caught : Result (Unit {0}) → List Text
caught (ok a) = []
caught (err e) = message_of e ∷ []

abbrev pub kind_reasons : UnsignedPayload → StacksNetwork → SigningContext → List Text
kind_reasons (stacks_contract_call p) plan_network ctx =
    registry_reasons ctx.allowed_contracts p.contract_id ++ stacks_call_reasons p plan_network ctx
kind_reasons (bitcoin_deposit p) plan_network ctx = bitcoin_deposit_reasons p plan_network

-- The body of the loop over the steps.
unfoldable pub each_step : StacksNetwork → SigningContext → List PlanStep → List Text
each_step plan_network ctx [] = []
each_step plan_network ctx (s ∷ steps) =
    (caught (payload_uses_number s.payload) ++ kind_reasons s.payload plan_network ctx)
    ++ each_step plan_network ctx steps

abbrev pub wrong_address : StacksNetwork → Option Text → Bool
wrong_address network none = false
wrong_address network (some sender) = on_other_network (stacks_address_network sender) network

abbrev pub on_other_bitcoin : Option BitcoinNetworkKind → StacksNetwork → Bool
on_other_bitcoin none network = true
on_other_bitcoin (some kind) network = not (kind_eq kind (bitcoin_for_stacks network))

unfoldable pub bitcoin_address_reasons : StacksNetwork → List Text → List Text
bitcoin_address_reasons network [] = []
bitcoin_address_reasons network (b ∷ addresses) =
    reason_if (on_other_bitcoin (bitcoin_address_kind b) network)
      (codes "Bitcoin network does not match the Stacks network")
    ++ bitcoin_address_reasons network addresses

-- The checks of the plan against the quote and the context, before the steps are looked at.
unfoldable pub binding_reasons : Plan → Quote → SigningContext → List Text
binding_reasons plan quote ctx =
    reason_if (not (text_eq plan.quote_id quote.id)) (codes "plan is not bound to this quote")
    ++ reason_if
        (not (network_eq plan.network ctx.network) || not (network_eq quote.network ctx.network))
        (codes "network mismatch")
    ++ reason_if (not (network_eq plan.network quote.network))
        (codes "plan and quote networks disagree")
    ++ reason_if
        (not (text_eq plan.registry_version ctx.registry_version)
          || not (text_eq quote.registry_version ctx.registry_version))
        (codes "registry version mismatch")
    ++ reason_if (not (text_eq plan.adapter_version quote.adapter_version))
        (codes "adapter version mismatch")
    ++ reason_if (not (text_eq plan.expires_at quote.expires_at))
        (codes "plan expiry must match the quote")
    ++ reason_if (quote_expired quote ctx.now || not (text_lt ctx.now plan.expires_at))
        (codes "quote expired")
    ++ reason_if (not quote.executable) (codes "quote is not executable")
    ++ reason_if (is_empty plan.steps) (codes "plan has no steps")
    ++ reason_if (wrong_address ctx.network ctx.sender) (codes "Stacks address network mismatch")
    ++ bitcoin_address_reasons ctx.network ctx.bitcoin_addresses

unfoldable pub validate_plan : Plan → Quote → SigningContext → Result PlanValidation
validate_plan plan quote ctx = do
  bound ← post_condition_binding_reasons plan quote ctx
  let reasons =
      binding_reasons plan quote ctx
      ++ depends_on_reasons plan
      ++ effect_binding_reasons plan quote
      ++ bound
      ++ each_step plan.network ctx plan.steps
  ok (record { is_ok = is_empty reasons; reasons = reasons })

unfoldable pub assert_valid_plan : Plan → Quote → SigningContext → Result (Unit {0})
assert_valid_plan plan quote ctx = do
  result ← validate_plan plan quote ctx
  throw_if (not result.is_ok) plan_invalid (join (codes "; ") result.reasons)

unfoldable pub assert_ready_to_sign : Plan → Quote → SigningContext → Result (Unit {0})
unfolding assert_valid_plan
assert_ready_to_sign plan quote ctx = assert_valid_plan plan quote ctx

pub data WalletOutcome : Type 0 where
  broadcast signed unknown : WalletOutcome

-- What a wallet may answer: no object, or one of which four fields are looked at. A field that is
-- missing or is no string is `none`.
pub record WalletAnswer : Type 0 where
  pub txid : Option Text
  pub transaction : Option Text
  pub psbt : Option Text
  pub hex : Option Text

abbrev is_filled : Option Text → Bool
is_filled none = false
is_filled (some t) = not (is_empty t)

unfoldable pub wallet_outcome : Option WalletAnswer → WalletOutcome
wallet_outcome none = unknown
wallet_outcome (some r) =
    if is_filled r.txid
    then broadcast
    else if is_given r.transaction || is_given r.psbt || is_given r.hex
    then signed
    else unknown
