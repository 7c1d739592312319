-- ===== src/Worker/Judged.antt =====
-- apps/worker/src/reconciliation.ts: what its verdict says of the amounts that arrived.
use capital_os.Shared.{
  Text, text_eq_refl, eq_of_text_eq, big_int, ap, ◌∙◌, int_laws, All, ◌+ℤ◌, ℤ, pos, ◌≤ℤ◌, ◌<ℤ◌,
  ltb_ℤ, Bool, true, false, Option, none, some, List, [], ◌∷◌, filter, ◌≡◌, ◌≢◌, refl, ◌⊎◌, inl,
  inr, arith, Bool-cases,
}
use mathlib.Core.Path.{subst}
use capital_os.Errors.{ok, bind-ok}
use capital_os.Workflow.Moves.{ReconciliationResult}
use capital_os.Worker.Arrived.{
  Arrived, Credited, SomeCredited, read_bigint_lem, observed_total-Arrived, received-SomeCredited,
  none_received,
}
use capital_os.Worker.Reconciliation.{
  StoredAmount, StoredEffect, AwaitingReconciliation, ReconciliationDecision, judged, same_asset_id,
  is_received, read_bigint, observed_total, against_floor, compared_with_floor, tallied, attributed,
  judge_output, reconciliation_decision,
}

-- What the workflow received of the asset that its quote expects first.
abbrev received_of : AwaitingReconciliation → StoredAmount → List StoredEffect → List StoredEffect
received_of workflow expected = filter (is_received workflow.owner expected.asset)

-- A minimum was signed on that asset.
abbrev pub Signed : AwaitingReconciliation → StoredAmount → ℤ → Type 0
Signed workflow expected minimum =
    (floor : StoredAmount) × (workflow.minimum_output ≡ some floor)
    × (floor.asset ≡ expected.asset)
    × (big_int floor.quantity ≡ some minimum)

-- The verdict on an expected amount.
abbrev pub Holds : AwaitingReconciliation → StoredAmount → List StoredEffect → Bool → Type 0
Holds workflow expected effects true =
    (total : ℤ) × SomeCredited workflow.owner expected.asset effects
    × Arrived workflow.owner expected.asset effects total
    × ((minimum : ℤ) → Signed workflow expected minimum → minimum ≤ℤ total)
Holds workflow expected effects false =
    (effects ≢ [])
    × (All (λ e. ¬ Credited workflow.owner expected.asset e) effects
        ⊎ ((total : ℤ) × (minimum : ℤ) × Arrived workflow.owner expected.asset effects total
            × Signed workflow expected minimum
            × (total <ℤ minimum)))

some_inj : {A : Type 0} (a b : A) → some a ≡ some b → a ≡ b
some_inj a b e = ground (arith, e)

-- There is one signed minimum at most.
same_minimum :
    (workflow : AwaitingReconciliation) (expected : StoredAmount) (a b : ℤ)
    → Signed workflow expected a
    → Signed workflow expected b
    → a ≡ b
same_minimum workflow expected a b (f, ef, sf, qf) (g, eg, sg, qg) =
    some_inj a b (cc (ef, eg, qf, qg))

different_asset :
    (floor expected : StoredAmount)
    → floor.asset ≡ expected.asset
    → same_asset_id floor.asset expected.asset ≡ false
    → ⊥
unfolding same_asset_id
different_asset floor expected same h =
    let hit = text_eq_refl expected.asset in absurd (cc (same, h, hit))

from_zero : (z : ℤ) → pos 0 +ℤ z ≡ z
from_zero z = omega int_laws

-- What a decision says is what its verdict was.
verdict_of :
    (d : ReconciliationDecision) (r : ReconciliationResult) (m : Bool) (t : Text)
    → ok (judged m t) ≡ ok d
    → d.result ≡ some r
    → m ≡ r.matched
verdict_of d r m t e h = ground (arith, e, h)

module _ (workflow : AwaitingReconciliation) (expected : StoredAmount) (effects : List StoredEffect)
    (d : ReconciliationDecision) (r : ReconciliationResult) (decided : d.result ≡ some r) where
  holds :
      (m : Bool) {t : Text}
      → ok (judged m t) ≡ ok d
      → Holds workflow expected effects m
      → Holds workflow expected effects r.matched
  holds m {t} e h = subst (Holds workflow expected effects) (verdict_of d r m t e decided) h

  module _ (total quoted : ℤ) (some_received : SomeCredited workflow.owner expected.asset effects)
      (summed : Arrived workflow.owner expected.asset effects total)
      (some_effects : effects ≢ []) where
    floor-Holds :
        (minimum : ℤ)
        → Signed workflow expected minimum
        → ok (against_floor total quoted minimum) ≡ ok d
        → Holds workflow expected effects r.matched
    unfolding against_floor
    floor-Holds minimum signed e = elim (Bool-cases (ltb_ℤ total minimum)) [
      | inl low ↦
          holds false (rw low at e)
            (some_effects, inr (total, minimum, summed, signed, ground arith))
      | inr enough ↦ holds true (rw enough at e) (
        total,
        some_received,
        summed,
        λ other signed'.
            subst (λ z. z ≤ℤ total) (same_minimum workflow expected minimum other signed signed')
              (ground arith),
      )
    ]

    compared_with_floor-Holds :
        (m : Option StoredAmount)
        → workflow.minimum_output ≡ m
        → compared_with_floor m expected.asset total quoted ≡ ok d
        → Holds workflow expected effects r.matched
    unfolding same_asset_id
    compared_with_floor-Holds none k e =
        holds true e (total, some_received, summed, λ other (f, ef, sf, qf). absurd (cc (k, ef)))
    compared_with_floor-Holds (some floor) k e =
        elim (Bool-cases (same_asset_id floor.asset expected.asset)) [
          | inl same ↦
              let (minimum, read, judged_by) =
                bind-ok (read_bigint floor.quantity) _ d (rw same at e) in
              let same_asset = eq_of_text_eq floor.asset expected.asset same in
              floor-Holds minimum
                (floor, k, same_asset, read_bigint_lem floor.quantity minimum read) judged_by
          | inr different ↦ holds true (rw different at e) (
            total,
            some_received,
            summed,
            λ other (f, ef, sf, qf).
                let g : floor ≡ f = some_inj floor f (cc (k, ef)) in
                let a : floor.asset ≡ expected.asset = ap (λ (x : StoredAmount). x.asset) g ∙ sf in
                absurd (different_asset floor expected a different),
          )
        ]

  tallied-Holds :
      (es : List StoredEffect)
      → received_of workflow expected effects ≡ es
      → effects ≢ []
      → tallied workflow expected es ≡ ok d
      → Holds workflow expected effects r.matched
  tallied-Holds [] k ne e =
      holds false e (ne, inl (none_received workflow.owner expected.asset effects k))
  tallied-Holds (x ∷ xs) k ne e =
      let (total, summed, next) = bind-ok (observed_total (pos 0) (x ∷ xs)) _ d e in
      let (quoted, read, last) = bind-ok (read_bigint expected.quantity) _ d next in
      let (sum, arrived, same) =
        observed_total-Arrived workflow.owner expected.asset effects (pos 0) total (rw k summed) in
      compared_with_floor-Holds total quoted
        (received-SomeCredited workflow.owner expected.asset effects (λ n. cc (k, n)))
        (rw (same ∙ from_zero sum) arrived) ne workflow.minimum_output refl last

attributed-Holds :
    (workflow : AwaitingReconciliation) (expected : StoredAmount) (effects : List StoredEffect)
    (d : ReconciliationDecision) (r : ReconciliationResult)
    → d.result ≡ some r
    → attributed workflow expected effects ≡ ok d
    → Holds workflow expected effects r.matched
attributed-Holds workflow expected [] d r h e = absurd (ground (arith, e, h))
attributed-Holds workflow expected (x ∷ xs) d r h e =
    tallied-Holds workflow expected (x ∷ xs) d r h _ refl (λ n. cc n) e

judged-Holds :
    (workflow : AwaitingReconciliation) (effects : List StoredEffect) (outputs : List StoredAmount)
    (d : ReconciliationDecision) (r : ReconciliationResult)
    → d.result ≡ some r
    → judge_output workflow outputs effects ≡ ok d
    → (expected : StoredAmount) × (more : List StoredAmount) × (outputs ≡ expected ∷ more)
      × Holds workflow expected effects r.matched
judged-Holds workflow effects [] d r h e = absurd (ground (arith, e, h))
judged-Holds workflow effects (expected ∷ more) d r h e =
    (expected, more, refl, attributed-Holds workflow expected effects d r h e)

-- A verdict is on the first output that the quote expects. An effect counts as credited when it is inward, of that
-- output's asset, and its owner and the workflow's are equal or one of them is unknown. The verdict is that all is
-- well only when something was credited and the sum of all quantities credited is not below a minimum that was signed
-- on that asset; and it is a mismatch only when there are effects, of which none is credited, or that sum is below
-- such a minimum.
pub reconciliation_decision-Holds :
    (workflow : AwaitingReconciliation) (effects : List StoredEffect) (d : ReconciliationDecision)
    (r : ReconciliationResult)
    → d.result ≡ some r
    → reconciliation_decision workflow effects ≡ ok d
    → (expected : StoredAmount) × (more : List StoredAmount) × (workflow.expected_output
        ≡ expected ∷ more)
      × Holds workflow expected effects r.matched
unfolding reconciliation_decision
reconciliation_decision-Holds workflow effects d r h e =
    judged-Holds workflow effects workflow.expected_output d r h e
