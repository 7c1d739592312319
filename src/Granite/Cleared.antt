-- ===== src/Granite/Cleared.antt =====
-- packages/adapters/src/granite/creditLifecycle.ts: what holds of the evidence in each state that an intent is
-- shown in.
use mathlib.Core.Path.{subst}
use capital_os.Shared.{
  nil_parts, Text, text_eq_iff, ℤ, true, false, not, ◌||◌, Option, none, some, List, [], ◌∷◌, ◌≡◌,
  refl, inl, inr, arith,
}
use capital_os.Errors.{Result, ok, err, bind-ok, ok_inj}
use capital_os.Risk.{Health}
use capital_os.Registry.Deployments.{Tables}
use capital_os.Granite.Evidence.{
  GranitePositionEvidence, GraniteMarketEvidence, CanonicalGraniteSettlement, GraniteCreditState,
  unavailable, oracle_stale, paused, liquidity_blocked, health_blocked, GraniteNextAction,
  not_available, GraniteCreditLifecycle, GraniteEvidence, HealthView,
}
use capital_os.Granite.Gates.{project, Block, granite_block}
use capital_os.Granite.Evaluate.{
  after_gates, intent_for_health, after_project, offers, is_mainnet, granite_capability,
  granite_view, after_repay, with_evidence, granite_outcome, evaluate_granite_credit,
}
use capital_os.Granite.Steps.{
  Settled, RepayStep, goes_on, refused, repay_step, judged, health_view, settlement_mismatches,
  settle_outcome, Outcome,
}
use capital_os.Granite.Permitted.{
  Permitted, either_way, by_test, spared, is_stop, granite_block-Permitted, granite_block-stops,
  warned,
}
use capital_os.Granite.States.{Fits, IsCleared, Stands, Stopped}

module _ (parse_date : Text → Option ℤ) (tables : Tables) (i : GraniteEvidence) where
  abbrev Holds : Outcome → Type 0
  Holds o = Stands parse_date tables i o.next_action o.warnings o.state

  stop-Stands :
      (next : GraniteNextAction) (warnings : List Text) (s : GraniteCreditState)
      → is_stop s ≡ true
      → Stopped next warnings
      → Stands parse_date tables i next warnings s
  stop-Stands next warnings unavailable h stop = stop
  stop-Stands next warnings oracle_stale h stop = stop
  stop-Stands next warnings paused h stop = stop
  stop-Stands next warnings liquidity_blocked h stop = stop
  stop-Stands next warnings health_blocked h stop = stop
  stop-Stands next warnings s h stop = absurd (ground (arith, h))

  -- A settlement that differs in nothing.
  agreed-Fits :
      (amount : Text) (s : CanonicalGraniteSettlement)
      → i.settlement ≡ some s
      → s.canonical ≡ true
      → settlement_mismatches i.intent amount s ≡ []
      → Fits i amount
  unfolding settlement_mismatches
  agreed-Fits amount s es canonical e =
      let (front, moved) = nil_parts _ _ e in
      let (kind, owner) = nil_parts _ _ front in
      record {
        settlement = s;
        settlement_is = es;
        canonical = canonical;
        kind = spared _ _ kind;
        owner = spared _ _ owner;
        moved = (text_eq_iff s.asset_moved amount).0 (spared _ _ moved);
      }

  module _ (c : IsCleared parse_date tables i) (health : HealthView) where
    judged-Holds :
        (s : CanonicalGraniteSettlement) (notes : List Text)
        → i.settlement ≡ some s
        → s.canonical ≡ true
        → settlement_mismatches i.intent c.settled.amount s ≡ notes
        → Holds (judged notes health c.settled.view)
    judged-Holds s [] es h e = (c, agreed-Fits c.settled.amount s es h e)
    judged-Holds s (m ∷ ms) es h e = (c, λ none_is. cc none_is)

    settle-Holds :
        (o : Option CanonicalGraniteSettlement)
        → i.settlement ≡ o
        → Holds (settle_outcome i c.settled health o)
    unfolding settle_outcome
    settle-Holds none e = by_test Holds i.broadcast_known (λ h. (c, e, h)) (λ h. (c, e, h))
    settle-Holds (some s) e =
        by_test Holds s.canonical
          (λ h. judged-Holds s (settlement_mismatches i.intent c.settled.amount s) e h refl)
          (λ h. (c, (s, e, h)))

  -- From the health on.
  module _ (market : GraniteMarketEvidence) (position : GranitePositionEvidence) (r : Settled)
      (cleared : (h : Health)
        → project parse_date (intent_for_health i r) position market i.now ≡ ok h
        → h.stale ≡ false
        → Permitted i.intent market position h i.intent.action
        → (c : IsCleared parse_date tables i) × (c.settled ≡ r)) where
    gates-Holds :
        (h : Health) (block : Option Block)
        → project parse_date (intent_for_health i r) position market i.now ≡ ok h
        → h.stale ≡ false
        → granite_block i.intent market position h i.intent.action ≡ ok block
        → Holds (after_gates i r h block)
    unfolding after_gates
    gates-Holds h (some b) p f e =
        stop-Stands not_available (b.warning ∷ []) b.state
          (granite_block-stops i.intent market position h i.intent.action b e)
          (refl, λ none_is. cc none_is)
    gates-Holds h none p f e =
        let (c, same) =
          cleared h p f (granite_block-Permitted i.intent market position h i.intent.action e) in
        subst (λ (r : Settled). Holds (settle_outcome i r (health_view h false) i.settlement)) same
          (settle-Holds c (health_view h false) i.settlement refl)

    project-Holds :
        (p : Result Health) (o : Outcome)
        → project parse_date (intent_for_health i r) position market i.now ≡ p
        → after_project i market position r p ≡ ok o
        → Holds o
    unfolding after_project
    project-Holds (err thrown) o p e = subst Holds (ok_inj _ o e) (refl, λ none_is. cc none_is)
    project-Holds (ok h) o p e = elim (either_way h.stale _ _ o e) [
      | inl (stale, stop) ↦ subst Holds (ok_inj _ o stop) (refl, warned h.warnings)
      | inr (fresh, rest) ↦
          let (block, b, e₁) =
            bind-ok (granite_block i.intent market position h i.intent.action) _ o rest in
          subst Holds (ok_inj _ o e₁) (gates-Holds h block p fresh b)
    ]

  repay-Holds :
      (market : GraniteMarketEvidence) (position : GranitePositionEvidence) (o : Outcome)
      → is_mainnet i.intent.network ≡ true
      → offers (granite_capability tables i) ≡ true
      → i.market ≡ some market
      → i.position ≡ some position
      → (step : RepayStep) → repay_step i position i.intent.action ≡ ok step
      → after_repay parse_date tables i market position step ≡ ok o
      → Holds o
  unfolding after_repay
  repay-Holds market position o on offered em ep (refused message) s e =
      subst Holds (ok_inj _ o e) (refl, λ none_is. cc none_is)
  repay-Holds market position o on offered em ep (goes_on r) s e =
      project-Holds market position r
        (λ h p f permitted. (
          record {
            market = market;
            position = position;
            settled = r;
            health = h;
            on_mainnet = on;
            offered = offered;
            market_is = em;
            position_is = ep;
            settled_is = s;
            health_is = p;
            fresh = f;
            permitted = permitted;
          },
          refl,
        ))
        (project parse_date (intent_for_health i r) position market i.now) o refl e

  evidence-Holds :
      (market : Option GraniteMarketEvidence) (position : Option GranitePositionEvidence)
      (o : Outcome)
      → is_mainnet i.intent.network ≡ true
      → offers (granite_capability tables i) ≡ true
      → i.market ≡ market
      → i.position ≡ position
      → with_evidence parse_date tables i market position ≡ ok o
      → Holds o
  unfolding with_evidence
  evidence-Holds (some market) (some position) o on offered em ep e =
      let (step, s, e₁) = bind-ok (repay_step i position i.intent.action) _ o e in
      repay-Holds market position o on offered em ep step s e₁
  evidence-Holds none position o on offered em ep e =
      subst Holds (ok_inj _ o e) (refl, λ none_is. cc none_is)
  evidence-Holds (some market) none o on offered em ep e =
      subst Holds (ok_inj _ o e) (refl, λ none_is. cc none_is)

  outcome-Holds : (o : Outcome) → granite_outcome parse_date tables i ≡ ok o → Holds o
  unfolding granite_outcome
  outcome-Holds o e =
      elim (either_way
        (not (is_mainnet i.intent.network) || not (offers (granite_capability tables i))) _ _ o e) [
          | inl (_, stop) ↦ subst Holds (ok_inj _ o stop) (refl, λ none_is. cc none_is)
          | inr (usable, rest) ↦
              evidence-Holds i.market i.position o (ground (arith, usable)) (ground (arith, usable))
                refl refl rest
        ]

-- The state in which an intent is shown has its grounds in the evidence. Whenever a signature is asked for,
-- awaited or settled, the intent is on mainnet and offered, the health projected with its change is fresh, a
-- borrow meets every limit of the market, the loan and the largest borrow, and a withdrawal leaves a healthy
-- loan. Shown as reconciled, a canonical settlement of its kind, by its owner or recipient, moved the amount
-- that was settled on. Shown as one whose settlement does not fit, there is a warning; in every other state the
-- next action is unavailable and there is a warning.
pub evaluate_granite-Stands :
    (parse_date : Text → Option ℤ) (tables : Tables) (i : GraniteEvidence)
    (v : GraniteCreditLifecycle)
    → evaluate_granite_credit parse_date tables i ≡ ok v
    → Stands parse_date tables i v.next_action v.warnings v.state
unfolding evaluate_granite_credit granite_view
evaluate_granite-Stands parse_date tables i v e =
    let (o, found, e₁) = bind-ok (granite_outcome parse_date tables i) _ v e in
    subst
      (λ (v : GraniteCreditLifecycle). Stands parse_date tables i v.next_action v.warnings v.state)
      (ok_inj _ v e₁) (outcome-Holds parse_date tables i o found)
