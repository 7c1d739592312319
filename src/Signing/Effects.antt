-- ===== src/Signing/Effects.antt =====
-- packages/core/src/signing.ts: what the binding of the steps' effects to the quote comes to.
use capital_os.Shared.{
  codes, true, not, Option, none, some, List, [], ◌∷◌, ◌++◌, All, any, ◌≡◌, refl, sym, arith,
  Bool-cases, Option-cases, ◌⊎◌, inl, inr,
}
use mathlib.Core.List.{Perm}
use mathlib.Core.List.Perm
use capital_os.Amounts.{AssetAmount}
use capital_os.Plan.{PlanStep, Plan, Quote}
use capital_os.Errors.{ok}
use capital_os.Signing.Checks.{
  SigningContext, amounts_equal, take_amount, includes_amount, quote_reference_amounts,
  with_minimum, all_effects, unbound_effects, missing_outputs, effect_binding_reasons, reason_if,
}
use capital_os.Signing.Validate.{assert_ready_to_sign}
use capital_os.Signing.Coverage.{take_first-Perm}
use capital_os.Signing.Outflow.{Same, Pairs, done, pair, amounts_equal-Same}
use capital_os.Signing.Gate.{ready-Passed, append-nil}

-- One of some amounts has the asset and the quantity of another.
abbrev pub SameIn : List AssetAmount → AssetAmount → Type 0
SameIn [] e = ⊥
SameIn (r ∷ rs) e = Same r e ⊎ SameIn rs e

-- An input, an expected output or the minimum output of a quote.
abbrev pub OnQuote : Quote → AssetAmount → Type 0
OnQuote quote e =
    SameIn quote.input e
    ⊎ (SameIn quote.expected_output e
        ⊎ ((m : AssetAmount) × (quote.minimum_output ≡ some m) × Same m e))

-- What the steps promise, in order.
unfoldable pub promised : List PlanStep → List AssetAmount
promised [] = []
promised (s ∷ steps) = s.expected_asset_effects ++ promised steps

promised_lem : (steps : List PlanStep) → all_effects steps ≡ promised steps
unfolding promised
promised_lem [] = refl
promised_lem (s ∷ steps) = rw (promised_lem steps) refl

any-SameIn :
    (rs : List AssetAmount) (e : AssetAmount)
    → any (λ item. amounts_equal item e) rs ≡ true
    → SameIn rs e
any-SameIn [] e h = absurd (ground arith)
any-SameIn (r ∷ rs) e h = elim (Bool-cases (amounts_equal r e)) [
  | inl same ↦ inl (amounts_equal-Same r e same)
  | inr other ↦ inr (any-SameIn rs e (ground (arith, h, other)))
]

parts-SameIn :
    (xs ys : List AssetAmount) (e : AssetAmount) → SameIn (xs ++ ys) e → SameIn xs e ⊎ SameIn ys e
parts-SameIn [] ys e h = inr h
parts-SameIn (x ∷ xs) ys e (inl same) = inl (inl same)
parts-SameIn (x ∷ xs) ys e (inr h) = elim (parts-SameIn xs ys e h) [
  | inl left ↦ inl (inr left)
  | inr right ↦ inr right
]

minimum-OnQuote :
    (m : Option AssetAmount) (e : AssetAmount)
    → SameIn (with_minimum m) e
    → (a : AssetAmount) × (m ≡ some a) × Same a e
minimum-OnQuote none e h = absurd h
minimum-OnQuote (some a) e (inl same) = (a, refl, same)
minimum-OnQuote (some a) e (inr h) = absurd h

includes-OnQuote :
    (quote : Quote) (e : AssetAmount)
    → includes_amount (quote_reference_amounts quote) e ≡ true
    → OnQuote quote e
unfolding includes_amount quote_reference_amounts
includes-OnQuote quote e h = elim (parts-SameIn _ _ e (any-SameIn _ e h)) [
  | inl front ↦ elim (parts-SameIn quote.input quote.expected_output e front) [
    | inl input ↦ inl input
    | inr output ↦ inr (inl output)
  ]
  | inr minimum ↦ inr (inr (minimum-OnQuote quote.minimum_output e minimum))
]

bound-All :
    (quote : Quote) (effects : List AssetAmount)
    → unbound_effects (quote_reference_amounts quote) effects ≡ []
    → All (OnQuote quote) effects
unfolding unbound_effects
bound-All quote [] h = tt
bound-All quote (e ∷ effects) h =
    let (here, rest) =
      append-nil
        (reason_if (not (includes_amount (quote_reference_amounts quote) e))
          (codes "expected asset effect is not present on the bound quote"))
        _ h in
    (includes-OnQuote quote e (ground arith), bound-All quote effects rest)

take_amount-Same :
    (pool rest : List AssetAmount) (target : AssetAmount)
    → take_amount pool target ≡ some rest
    → (a : AssetAmount) × Same a target × Perm pool (a ∷ rest)
unfolding take_amount
take_amount-Same pool rest target h =
    let (a, passes, p) = take_first-Perm (λ item. amounts_equal item target) pool rest h in
    (a, amounts_equal-Same a target passes, p)

-- Out of some effects come amounts that are the outputs one by one; `rest` are the others.
pub record Delivers (effects outputs : List AssetAmount) : Type 0 where
  pub chosen : List AssetAmount
  pub rest : List AssetAmount
  pub parted : Perm effects (chosen ++ rest)
  pub same : Pairs Same chosen outputs

outputs-Delivers :
    (effects outputs : List AssetAmount)
    → missing_outputs effects outputs ≡ []
    → Delivers effects outputs
unfolding missing_outputs
outputs-Delivers effects [] h = record {
  chosen = [];
  rest = effects;
  parted = Perm.refl effects;
  same = done;
}
outputs-Delivers effects (o ∷ outputs) h = elim (Option-cases (take_amount effects o)) [
  | inl n ↦ absurd (ground arith)
  | inr (left, e) ↦
      let more : missing_outputs left outputs ≡ [] = ground arith in
      let d = outputs-Delivers left outputs more in
      let (a, same, p) = take_amount-Same effects left o e in
      record {
        chosen = a ∷ d.chosen;
        rest = d.rest;
        parted = Perm.trans p (Perm.cons a d.parted);
        same = pair same d.same;
      }
]

-- In a plan that passes the gate every effect that a step expects has the asset, by its identifier, and the
-- quantity of an input, of an expected output or of the minimum output of the quote; and out of the effects of all
-- steps come amounts that have, one by one, the assets and the quantities of all expected outputs.
pub ready-effects :
    (plan : Plan) (quote : Quote) (ctx : SigningContext)
    → assert_ready_to_sign plan quote ctx ≡ ok tt
    → All (OnQuote quote) (promised plan.steps)
      × Delivers (promised plan.steps) quote.expected_output
unfolding effect_binding_reasons
ready-effects plan quote ctx h =
    let (bound, outputs) =
      append-nil (unbound_effects (quote_reference_amounts quote) (all_effects plan.steps)) _
        (ready-Passed plan quote ctx h).effects in
    rw (sym (promised_lem plan.steps)) (
      bound-All quote (all_effects plan.steps) bound,
      outputs-Delivers (all_effects plan.steps) quote.expected_output outputs,
    )
