-- ===== src/Signing/Checks.antt =====
-- packages/core/src/signing.ts: the groups of checks that `validatePlan` makes.
use capital_os.Shared.{
  Text, codes, text_eq, ℤ, eqb_ℤ, show_ℤ, has, any, Bool, true, false, not, ◌&&◌, Option, none,
  some, List, [], ◌∷◌, ◌++◌, map, if◌then◌else◌,
}
use capital_os.Errors.{Result, ok, Thrown, ◌>>=◌, ◌>>◌}
use capital_os.Ids.{AssetIdentity, native, contract, btc, stx, same_asset}
use capital_os.Amounts.{AssetAmount, Value, assert_financial_int}
use capital_os.Network.{StacksNetwork, network_eq, stacks_address_network}
use capital_os.Plan.{
  ClarityValue, uint, PostCondition, PostConditionKind, receive_gte, UnsignedPayload,
  bitcoin_deposit, stacks_contract_call, PlanStep, Plan, Quote,
}

-- `now` is the text of `now.toISOString()`.
pub record SigningContext : Type 0 where
  pub now : Text
  pub network : StacksNetwork
  pub registry_version : Text
  pub allowed_contracts : Option (List Text)
  pub sender : Option Text
  pub bitcoin_addresses : List Text

unfoldable pub amounts_equal : AssetAmount → AssetAmount → Bool
amounts_equal left right = same_asset left.asset right.asset && eqb_ℤ left.quantity right.quantity

-- `findIndex` and `splice`: the list without the first item that passes the test, if there is one.
unfoldable pub take_first : (AssetAmount → Bool) → List AssetAmount → Option (List AssetAmount)
take_first test [] = none
take_first test (item ∷ pool) = elim (test item) [
  | true ↦ some pool
  | false ↦ elim (take_first test pool) [ none ↦ none | some rest ↦ some (item ∷ rest) ]
]

unfoldable pub take_amount : List AssetAmount → AssetAmount → Option (List AssetAmount)
unfolding take_first
take_amount pool target = take_first (λ item. amounts_equal item target) pool

unfoldable pub includes_amount : List AssetAmount → AssetAmount → Bool
includes_amount list target = any (λ item. amounts_equal item target) list

abbrev pub with_minimum : Option AssetAmount → List AssetAmount
with_minimum none = []
with_minimum (some m) = m ∷ []

unfoldable pub quote_reference_amounts : Quote → List AssetAmount
quote_reference_amounts quote =
    quote.input ++ quote.expected_output ++ with_minimum quote.minimum_output

abbrev pub reason_if : Bool → Text → List Text
reason_if b reason = if b then reason ∷ [] else []

-- The message of what a check throws: the checks here throw plain errors.
abbrev pub message_of : Thrown → Text
message_of (Thrown.capital e) = e.message
message_of (Thrown.error m) = m

abbrev check_arg : Text → ClarityValue → Result (Unit {0})
check_arg name (uint v) = assert_financial_int v name >>= λ _. ok tt
check_arg name _ = ok tt

unfoldable pub check_args : Text → List ClarityValue → Result (Unit {0})
check_args name [] = ok tt
check_args name (a ∷ args) = check_arg name a >> check_args name args

unfoldable pub check_conditions : List PostCondition → Result (Unit {0})
check_conditions [] = ok tt
check_conditions (c ∷ cs) =
    (assert_financial_int (Value.text (show_ℤ c.amount.quantity)) (codes "post condition") >>= λ _.
    ok tt)
    >> check_conditions cs

unfoldable pub payload_uses_number : UnsignedPayload → Result (Unit {0})
unfolding check_args check_conditions
payload_uses_number (bitcoin_deposit p) = do
  a ← assert_financial_int p.amount_sats (codes "bitcoin deposit amount")
  f ← assert_financial_int p.max_signer_fee_sats (codes "max signer fee")
  ok tt
payload_uses_number (stacks_contract_call p) =
    check_args p.function_name p.function_args >> check_conditions p.post_conditions

unfoldable pub dependency_reasons : List Text → Text → List Text → List Text
dependency_reasons ids id [] = []
dependency_reasons ids id (d ∷ ds) =
    reason_if (text_eq d id) (codes "step " ++ id ++ codes " cannot depend on itself")
    ++ reason_if (not (has d ids)) (codes "step " ++ id ++ codes " depends on unknown step " ++ d)
    ++ dependency_reasons ids id ds

unfoldable pub step_reasons : List Text → List Text → List PlanStep → List Text
unfolding dependency_reasons
step_reasons ids seen [] = []
step_reasons ids seen (s ∷ steps) =
    reason_if (has s.id seen) (codes "duplicate plan step id " ++ s.id)
    ++ dependency_reasons ids s.id s.depends_on
    ++ step_reasons ids (seen ++ s.id ∷ []) steps

unfoldable pub depends_on_reasons : Plan → List Text
unfolding step_reasons
depends_on_reasons plan = step_reasons (map (λ (s : PlanStep). s.id) plan.steps) [] plan.steps

abbrev pub all_effects : List PlanStep → List AssetAmount
all_effects [] = []
all_effects (s ∷ steps) = s.expected_asset_effects ++ all_effects steps

unfoldable pub unbound_effects : List AssetAmount → List AssetAmount → List Text
unbound_effects references [] = []
unbound_effects references (e ∷ es) =
    reason_if (not (includes_amount references e))
      (codes "expected asset effect is not present on the bound quote")
    ++ unbound_effects references es

unfoldable pub missing_outputs : List AssetAmount → List AssetAmount → List Text
missing_outputs effects [] = []
missing_outputs effects (o ∷ outputs) = elim (take_amount effects o) [
  | none ↦
      codes "quote expected output is missing from plan expected effects"
      ∷ missing_outputs effects outputs
  | some rest ↦ missing_outputs rest outputs
]

unfoldable pub effect_binding_reasons : Plan → Quote → List Text
unfolding unbound_effects missing_outputs
effect_binding_reasons plan quote =
    unbound_effects (quote_reference_amounts quote) (all_effects plan.steps)
    ++ missing_outputs (all_effects plan.steps) quote.expected_output

abbrev pub is_bitcoin : AssetIdentity → Bool
is_bitcoin (native btc) = true
is_bitcoin (native stx) = false
is_bitcoin (contract p n) = false

abbrev pub is_deposited : ℤ → AssetAmount → Bool
is_deposited quantity item = is_bitcoin item.asset.identity && eqb_ℤ item.quantity quantity

abbrev pub is_send : PostConditionKind → Bool
is_send receive_gte = false
is_send _ = true

abbrev pub other_sender : Option Text → Text → Bool
other_sender none principal = false
other_sender (some sender) principal = not (text_eq principal sender)

abbrev pub on_other_network : Option StacksNetwork → StacksNetwork → Bool
on_other_network none n = true
on_other_network (some m) n = not (network_eq m n)

-- What is left of a pool, and the reasons found: `Left` names the pair.
abbrev pub Left : Type 0
Left = List AssetAmount × List Text

abbrev pub taken : List AssetAmount → Option (List AssetAmount) → Text → Left
taken pool none reason = (pool, reason ∷ [])
taken pool (some rest) reason = (rest, [])

abbrev pub after : List Text → Left → Left
after reasons (pool, more) = (pool, reasons ++ more)

abbrev pub wrong_network : SigningContext → PostCondition → List Text
wrong_network ctx c =
    reason_if (on_other_network (stacks_address_network c.principal) ctx.network)
      (codes "post-condition principal is on the wrong Stacks network")

abbrev pub wrong_sender : SigningContext → PostCondition → List Text
wrong_sender ctx c =
    reason_if (other_sender ctx.sender c.principal)
      (codes "send post-condition principal must match the sender")

-- One post-condition: a send takes its amount from the inputs not yet covered, and a receive names an
-- amount of the outputs.
unfoldable pub condition_reasons :
    SigningContext → List AssetAmount → List AssetAmount → PostCondition → Left
condition_reasons ctx receive uncovered c = after (wrong_network ctx c) (
    if is_send c.mode
    then after (wrong_sender ctx c) (
        taken uncovered (take_amount uncovered c.amount)
          (codes "send post-condition amount is not present on the quote input"))
    else (
      uncovered,
      reason_if (not (includes_amount receive c.amount))
          (codes "receive post-condition amount is not present on the quote output"),
    ))

unfoldable pub conditions_reasons :
    SigningContext → List AssetAmount → List AssetAmount → List PostCondition → Left
conditions_reasons ctx receive uncovered [] = (uncovered, [])
conditions_reasons ctx receive uncovered (c ∷ cs) =
    let (rest, reasons) = condition_reasons ctx receive uncovered c in
    after reasons (conditions_reasons ctx receive rest cs)

unfoldable pub payload_reasons :
    SigningContext → List AssetAmount → List AssetAmount → UnsignedPayload → Result Left
payload_reasons ctx receive uncovered (bitcoin_deposit p) =
    assert_financial_int p.amount_sats (codes "bitcoin deposit amount") >>= λ quantity. ok (
      taken uncovered (take_first (is_deposited quantity) uncovered)
        (codes "bitcoin deposit amount does not match quote input"))
payload_reasons ctx receive uncovered (stacks_contract_call p) =
    ok (conditions_reasons ctx receive uncovered p.post_conditions)

unfoldable pub steps_reasons :
    SigningContext → List AssetAmount → List AssetAmount → List PlanStep → Result Left
steps_reasons ctx receive uncovered [] = ok (uncovered, [])
steps_reasons ctx receive uncovered (s ∷ steps) = do
  here ← payload_reasons ctx receive uncovered s.payload
  rest ← steps_reasons ctx receive here.0 steps
  ok (after here.1 rest)

abbrev pub unprotected : List AssetAmount → List Text
unprotected [] = []
unprotected (a ∷ pool) =
    codes "quote input is not protected by a send post-condition or bitcoin deposit" ∷ []

unfoldable pub post_condition_binding_reasons : Plan → Quote → SigningContext → Result (List Text)
post_condition_binding_reasons plan quote ctx = do
  left ←
      steps_reasons ctx (quote.expected_output ++ with_minimum quote.minimum_output) quote.input
        plan.steps
  ok (left.1 ++ unprotected left.0)
