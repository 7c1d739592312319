-- ===== src/Worker/Reconciliation.antt =====
-- apps/worker/src/reconciliation.ts: whether what a confirmed workflow received is what the user
-- signed for. Amounts are stored as texts, which `BigInt` reads.
use capital_os.Shared.{
  ℕ, ◌+◌, Text, codes, text_eq, ℤ, pos, ◌+ℤ◌, ltb_ℤ, show_ℤ, big_int, Bool, true, false, ◌&&◌,
  Option, none, some, List, [], ◌∷◌, ◌++◌, filter, if◌then◌else◌,
}
use capital_os.Errors.{Result, ok, err, error, ◌>>=◌}
use capital_os.Workflow.Moves.{ReconciliationResult, complete_from_reconciliation}
use capital_os.Workflow.States.{WorkflowState, Workflow}
use capital_os.Worker.Writes.{advance_workflow_from_chain, rebuilt}

-- An amount as stored.
pub record StoredAmount : Type 0 where
  pub asset : Text
  pub quantity : Text

pub data Direction : Type 0 where
  inward outward : Direction

pub record StoredEffect : Type 0 where
  pub kind : Text
  pub owner : Option Text
  pub direction : Direction
  pub asset_id : Text
  pub quantity : Text

pub record AwaitingReconciliation : Type 0 where
  pub workflow_id : Text
  pub network : Text
  pub state : WorkflowState
  pub transition_count : ℕ
  pub owner : Option Text
  pub expected_output : List StoredAmount
  pub minimum_output : Option StoredAmount

pub record ReconciliationDecision : Type 0 where
  pub result : Option ReconciliationResult
  pub reason : Text

abbrev pub undecided : Text → ReconciliationDecision
undecided reason = record { result = none; reason = reason }

abbrev pub judged : Bool → Text → ReconciliationDecision
judged matched evidence = record {
  result = some (record { matched = matched; evidence = evidence });
  reason = [];
}

abbrev pub is_inward : Direction → Bool
is_inward inward = true
is_inward outward = false

-- `owner === null || effect.owner === null || effect.owner === owner`
abbrev pub same_owner : Option Text → Option Text → Bool
same_owner none theirs = true
same_owner (some owner) none = true
same_owner (some owner) (some theirs) = text_eq theirs owner

-- `sameAssetId`
unfoldable pub same_asset_id : Text → Text → Bool
same_asset_id left right = text_eq left right

unfoldable pub is_received : Option Text → Text → StoredEffect → Bool
unfolding same_asset_id
is_received owner asset effect =
    is_inward effect.direction
    && same_asset_id effect.asset_id asset
    && same_owner owner effect.owner

-- `BigInt(text)`, which throws on a text that is no integer.
unfoldable pub read_bigint : Text → Result ℤ
read_bigint s = elim (big_int s) [
  | none ↦ err (error (codes "Cannot convert " ++ s ++ codes " to a BigInt"))
  | some z ↦ ok z
]

-- `received.reduce(...)`
unfoldable pub observed_total : ℤ → List StoredEffect → Result ℤ
unfolding read_bigint
observed_total total [] = ok total
observed_total total (effect ∷ effects) =
    read_bigint effect.quantity >>= λ q. observed_total (total +ℤ q) effects

abbrev owner_text : Option Text → Text
owner_text none = codes "the workflow"
owner_text (some owner) = owner

-- The comparison with the signed minimum.
unfoldable pub against_floor : ℤ → ℤ → ℤ → ReconciliationDecision
against_floor observed quoted minimum =
    if ltb_ℤ observed minimum
    then judged false (
        codes "received "
        ++ show_ℤ observed
        ++ codes " below the signed minimum "
        ++ show_ℤ minimum)
    else judged true (
        codes "received "
        ++ show_ℤ observed
        ++ codes ", at or above the signed minimum "
        ++ show_ℤ minimum
        ++ (if ltb_ℤ observed quoted
            then codes ", under the " ++ show_ℤ quoted ++ codes " quoted"
            else []))

abbrev pub no_floor : ℤ → ℤ → ReconciliationDecision
no_floor observed quoted = judged true (
    codes "received "
    ++ show_ℤ observed
    ++ codes " against "
    ++ show_ℤ quoted
    ++ codes " quoted, with no signed minimum")

abbrev pub compared_with_floor : Option StoredAmount → Text → ℤ → ℤ → Result ReconciliationDecision
compared_with_floor none asset observed quoted = ok (no_floor observed quoted)
compared_with_floor (some floor) asset observed quoted =
    if same_asset_id floor.asset asset
    then (read_bigint floor.quantity >>= λ minimum. ok (against_floor observed quoted minimum))
    else ok (no_floor observed quoted)

abbrev pub tallied :
    AwaitingReconciliation → StoredAmount → List StoredEffect → Result ReconciliationDecision
tallied workflow expected [] = ok (
    judged false
      (codes "no " ++ expected.asset ++ codes " credited to " ++ owner_text workflow.owner))
tallied workflow expected (effect ∷ effects) = do
  observed ← observed_total (pos 0) (effect ∷ effects)
  quoted ← read_bigint expected.quantity
  compared_with_floor workflow.minimum_output expected.asset observed quoted

abbrev pub attributed :
    AwaitingReconciliation → StoredAmount → List StoredEffect → Result ReconciliationDecision
attributed workflow expected [] =
    ok (undecided (codes "no attributed effects for this workflow yet"))
attributed workflow expected (effect ∷ effects) =
    tallied workflow expected
      (filter (is_received workflow.owner expected.asset) (effect ∷ effects))

abbrev pub judge_output :
    AwaitingReconciliation → List StoredAmount → List StoredEffect → Result ReconciliationDecision
judge_output workflow [] effects =
    ok (undecided (codes "quote records no expected output to check against"))
judge_output workflow (expected ∷ more) effects = attributed workflow expected effects

unfoldable pub reconciliation_decision :
    AwaitingReconciliation → List StoredEffect → Result ReconciliationDecision
reconciliation_decision workflow effects = judge_output workflow workflow.expected_output effects

pub record ReconcileSummary : Type 0 where
  pub examined : ℕ
  pub completed : ℕ
  pub mismatched : ℕ
  pub waiting : ℕ

abbrev tally_reconciled : ReconcileSummary → Bool → Bool → ReconcileSummary
tally_reconciled s false matched = record s { waiting = s.waiting + 1 }
tally_reconciled s true true = record s { completed = s.completed + 1 }
tally_reconciled s true false = record s { mismatched = s.mismatched + 1 }

-- What the loop does with a decision; `now` and `now'` are two readings of the clock.
unfoldable pub settle_row :
    Text
    → Text
    → AwaitingReconciliation
    → Option ReconciliationResult
    → List Workflow
    → ReconcileSummary
    → Result (List Workflow × ReconcileSummary)
settle_row now now' row none store s = ok (store, record s { waiting = s.waiting + 1 })
settle_row now now' row (some result) store s =
    complete_from_reconciliation now now' (rebuilt row.workflow_id row.network row.state) result
      (codes "worker")
    >>= λ after.
        let (store', written) =
          advance_workflow_from_chain store after after.transitions row.transition_count in
        ok (store', tally_reconciled s written result.matched)

-- The loop over the pending rows; `effects` is `listWorkflowEffects` by the workflow's id, and
-- `clock n` is the reading number n.
unfoldable pub reconcile_all :
    (Text → List StoredEffect)
    → (ℕ → Text)
    → ℕ
    → List AwaitingReconciliation
    → List Workflow
    → ReconcileSummary
    → Result (List Workflow × ReconcileSummary)
unfolding settle_row
reconcile_all effects clock n [] store s = ok (store, s)
reconcile_all effects clock n (row ∷ rows) store s =
    reconciliation_decision row (effects row.workflow_id) >>= λ decision.
    settle_row (clock n) (clock (n + 1)) row decision.result store
      (record s { examined = s.examined + 1 })
    >>= λ done. reconcile_all effects clock (n + 2) rows done.0 done.1

unfoldable pub reconcile_confirmed_workflows :
    (Text → List StoredEffect)
    → (ℕ → Text)
    → List AwaitingReconciliation
    → List Workflow
    → Result (List Workflow × ReconcileSummary)
unfolding reconcile_all
reconcile_confirmed_workflows effects clock pending store =
    reconcile_all effects clock 0 pending store
      (record { examined = 0; completed = 0; mismatched = 0; waiting = 0 })
