-- ===== src/Signing/Gate.antt =====
-- packages/core/src/signing.ts: what a plan that passes the gate is known to satisfy.
use capital_os.Shared.{
  Text, codes, text_eq, text_lt, join, has, is_empty, true, false, not, Option, none, some, List,
  [], ◌∷◌, ◌++◌, ◌≡◌, refl, arith, All, ap, ◌∙◌,
}
use capital_os.Signing.Coverage.{outflow-Covered}
use capital_os.Signing.Outflow.{Covered, steps_outflow}
use capital_os.Errors.{Result, ok, err, throw_if, plan_invalid, ◌>>=◌}
use capital_os.Network.{
  StacksNetwork, bitcoin_for_stacks, network_eq, kind_eq, stacks_address_network,
}
use capital_os.Plan.{
  StacksCallPayload, UnsignedPayload, bitcoin_deposit, stacks_contract_call, PlanStep, Plan,
  PlanValidation, Quote,
}
use capital_os.Signing.Checks.{
  SigningContext, on_other_network, depends_on_reasons, effect_binding_reasons,
  post_condition_binding_reasons,
}
use capital_os.Signing.Validate.{
  is_deny, is_given, stacks_call_reasons, bitcoin_deposit_reasons, registry_reasons, kind_reasons,
  each_step, binding_reasons, validate_plan, assert_valid_plan, assert_ready_to_sign,
}

pub append-nil : {A : Type 0} (xs ys : List A) → xs ++ ys ≡ [] → (xs ≡ []) × (ys ≡ [])
append-nil [] ys h = (refl, h)
append-nil (x ∷ xs) ys h = absurd (ground arith)

all-nil :
    {A : Type 0} (xs bs cs ds es : List A)
    → xs ++ bs ++ cs ++ ds ++ es ≡ []
    → (xs ≡ []) × (bs ≡ []) × (cs ≡ []) × (ds ≡ []) × (es ≡ [])
all-nil [] [] [] ds es h = let (hd, he) = append-nil ds es h in (refl, refl, refl, hd, he)
all-nil (a ∷ xs) bs cs ds es h = absurd (ground arith)
all-nil [] (b ∷ bs) cs ds es h = absurd (ground arith)
all-nil [] [] (c ∷ cs) ds es h = absurd (ground arith)

-- A plan that answers to its quote and to the wallet's context.
pub record Bound (plan : Plan) (quote : Quote) (ctx : SigningContext) : Type 0 where
  pub same_quote : text_eq plan.quote_id quote.id ≡ true
  pub plan_network : network_eq plan.network ctx.network ≡ true
  pub quote_network : network_eq quote.network ctx.network ≡ true
  pub plan_registry : text_eq plan.registry_version ctx.registry_version ≡ true
  pub quote_registry : text_eq quote.registry_version ctx.registry_version ≡ true
  pub same_adapter : text_eq plan.adapter_version quote.adapter_version ≡ true
  pub same_expiry : text_eq plan.expires_at quote.expires_at ≡ true
  pub not_expired : text_lt ctx.now plan.expires_at ≡ true
  pub executable : quote.executable ≡ true
  pub has_steps : is_empty plan.steps ≡ false

binding-Bound :
    (plan : Plan) (quote : Quote) (ctx : SigningContext)
    → binding_reasons plan quote ctx ≡ []
    → Bound plan quote ctx
unfolding binding_reasons
binding-Bound plan quote ctx h = record {
  same_quote = ground arith;
  plan_network = ground arith;
  quote_network = ground arith;
  plan_registry = ground arith;
  quote_registry = ground arith;
  same_adapter = ground arith;
  same_expiry = ground arith;
  not_expired = ground arith;
  executable = ground arith;
  has_steps = ground arith;
}

-- A Stacks call that the wallet may be shown.
pub record SafeCall (network : StacksNetwork) (ctx : SigningContext) (p : StacksCallPayload)
    : Type 0 where
  pub denies : is_deny p.post_condition_mode ≡ true
  pub has_conditions : is_empty p.post_conditions ≡ false
  pub same_network : network_eq p.network network ≡ true
  pub has_sender : is_given ctx.sender ≡ true
  pub approved :
      (allowed : List Text) × (ctx.allowed_contracts ≡ some allowed)
      × (has p.contract_id allowed ≡ true)

approved_of :
    (registry : Option (List Text)) (contract : Text)
    → registry_reasons registry contract ≡ []
    → (allowed : List Text) × (registry ≡ some allowed) × (has contract allowed ≡ true)
approved_of none contract h = absurd (ground arith)
approved_of (some allowed) contract h = (allowed, refl, ground arith)

call-SafeCall :
    (network : StacksNetwork) (ctx : SigningContext) (p : StacksCallPayload)
    → kind_reasons (stacks_contract_call p) network ctx ≡ []
    → SafeCall network ctx p
unfolding stacks_call_reasons
call-SafeCall network ctx p h =
    let (h1, h2) = append-nil (registry_reasons ctx.allowed_contracts p.contract_id) _ h in
    record {
      denies = ground arith;
      has_conditions = ground arith;
      same_network = ground arith;
      has_sender = ground arith;
      approved = approved_of ctx.allowed_contracts p.contract_id h1;
    }

unfoldable pub SafePayload : StacksNetwork → SigningContext → UnsignedPayload → Type 0
SafePayload network ctx (stacks_contract_call p) = SafeCall network ctx p
SafePayload network ctx (bitcoin_deposit p) =
    (kind_eq p.bitcoin_network (bitcoin_for_stacks network) ≡ true)
    × (on_other_network (stacks_address_network p.stacks_recipient) network ≡ false)

payload-SafePayload :
    (network : StacksNetwork) (ctx : SigningContext) (p : UnsignedPayload)
    → kind_reasons p network ctx ≡ []
    → SafePayload network ctx p
unfolding SafePayload bitcoin_deposit_reasons
payload-SafePayload network ctx (stacks_contract_call p) h = call-SafeCall network ctx p h
payload-SafePayload network ctx (bitcoin_deposit p) h = (ground arith, ground arith)

each-SafePayload :
    (network : StacksNetwork) (ctx : SigningContext) (steps : List PlanStep)
    → each_step network ctx steps ≡ []
    → All (λ (s : PlanStep). SafePayload network ctx s.payload) steps
unfolding each_step
each-SafePayload network ctx [] h = tt
each-SafePayload network ctx (s ∷ steps) h =
    let (here, rest) = append-nil _ _ h in
    let (numbers, kind) = append-nil _ _ here in
    (payload-SafePayload network ctx s.payload kind, each-SafePayload network ctx steps rest)

-- What a passed gate says of each group of checks.
pub record Passed (plan : Plan) (quote : Quote) (ctx : SigningContext) : Type 0 where
  pub binding : binding_reasons plan quote ctx ≡ []
  pub depends : depends_on_reasons plan ≡ []
  pub effects : effect_binding_reasons plan quote ≡ []
  pub conditions : post_condition_binding_reasons plan quote ctx ≡ ok []
  pub each : each_step plan.network ctx plan.steps ≡ []

no_reasons :
    (r : Result (List Text)) (before : List Text → List Text)
    → ((r >>= λ bound. ok (record { is_ok = is_empty (before bound); reasons = before bound }))
        >>= λ (result : PlanValidation).
            throw_if (not result.is_ok) plan_invalid (join (codes "; ") result.reasons))
      ≡ ok tt
    → (bound : List Text) × (r ≡ ok bound) × (before bound ≡ [])
no_reasons (err e) before h = absurd (ground arith)
no_reasons (ok bound) before h = (bound, refl, ground arith)

pub ready-Passed :
    (plan : Plan) (quote : Quote) (ctx : SigningContext)
    → assert_ready_to_sign plan quote ctx ≡ ok tt
    → Passed plan quote ctx
unfolding assert_ready_to_sign assert_valid_plan validate_plan
ready-Passed plan quote ctx h =
    let (bound, conditions, all_clear) =
      no_reasons (post_condition_binding_reasons plan quote ctx)
        (λ bound.
          binding_reasons plan quote ctx
          ++ depends_on_reasons plan
          ++ effect_binding_reasons plan quote
          ++ bound
          ++ each_step plan.network ctx plan.steps)
        h in
    let (binding, depends, effects, clear, each) =
      all-nil (binding_reasons plan quote ctx) (depends_on_reasons plan)
        (effect_binding_reasons plan quote) bound (each_step plan.network ctx plan.steps)
        all_clear in
    record {
      binding = binding;
      depends = depends;
      effects = effects;
      conditions = conditions ∙ ap ok clear;
      each = each;
    }

-- A plan that passes the gate is bound to its quote and to the context, by identifier, network, registry and adapter
-- version and expiry, has not expired, is executable and has a step.
pub ready-Bound :
    (plan : Plan) (quote : Quote) (ctx : SigningContext)
    → assert_ready_to_sign plan quote ctx ≡ ok tt
    → Bound plan quote ctx
ready-Bound plan quote ctx h = binding-Bound plan quote ctx (ready-Passed plan quote ctx h).binding

-- In a plan that passes the gate every Stacks call is of an approved contract, on the plan's network, in deny
-- mode with at least one post-condition and with a known sender; and every Bitcoin deposit is on the Bitcoin
-- network of the plan's, for a recipient on the plan's network.
pub ready-SafePayload :
    (plan : Plan) (quote : Quote) (ctx : SigningContext)
    → assert_ready_to_sign plan quote ctx ≡ ok tt
    → All (λ (s : PlanStep). SafePayload plan.network ctx s.payload) plan.steps
ready-SafePayload plan quote ctx h =
    each-SafePayload plan.network ctx plan.steps (ready-Passed plan quote ctx h).each

-- In a plan that passes the gate the inputs of the quote can be put in an order in which they answer one by one
-- to the send post-conditions and the Bitcoin deposits of the steps, none of either being left over: an input
-- has the asset, by its identifier, and the quantity that a post-condition names, or is as much bitcoin as a deposit
-- sends. What a post-condition names is an upper bound, the exact amount or a lower bound by its mode, and the
-- mode is not restricted.
pub ready-outflow :
    (plan : Plan) (quote : Quote) (ctx : SigningContext)
    → assert_ready_to_sign plan quote ctx ≡ ok tt
    → Covered quote.input [] (steps_outflow plan.steps)
ready-outflow plan quote ctx h =
    outflow-Covered plan quote ctx (ready-Passed plan quote ctx h).conditions
