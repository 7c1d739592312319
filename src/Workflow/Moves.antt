-- ===== src/Workflow/Moves.antt =====
-- packages/core/src/workflow.ts: the operations that record a move. `now` is what
-- `new Date().toISOString()` gives when the move is recorded.
use capital_os.Shared.{
  Text, codes, is_empty, trim, Bool, true, false, not, Option, none, some, [], ◌∷◌, ◌++◌,
  if◌then◌else◌,
}
use capital_os.Errors.{ErrorCode, plan_invalid, Result, ok, throw, throw_if, ◌>>=◌, ◌>>◌}
use capital_os.Network.{StacksNetwork}
use capital_os.Workflow.States.{
  WorkflowState, draft, awaiting_signature, broadcast_unknown, submitted, confirming,
  step_confirmed, reconciling, action_required, reorged, manual_review, completed, expired,
  user_rejected, failed, Transition, Workflow, state_eq, is_in, allowed, next_action_for,
  state_text, can_submit_write,
}

pub record ReconciliationResult : Type 0 where
  pub matched : Bool
  pub evidence : Text

pub data UnknownBroadcastResolution : Type 0 where
  found : Text → UnknownBroadcastResolution
  absent : Text → UnknownBroadcastResolution

unfoldable pub create_workflow : Text → StacksNetwork → Text → Workflow
unfolding next_action_for
create_workflow id network idempotency_key = record {
  id = id;
  network = network;
  quote_id = none;
  plan_id = none;
  step_id = none;
  state = draft;
  next_action = next_action_for draft none;
  transitions = [];
  idempotency_key = idempotency_key;
}

-- The third argument of `transition`.
pub record Cause : Type 0 where
  pub reason : Text
  pub actor : Text
  pub evidence : Text
  pub at : Option Text

-- What `transition` appends to the history.
abbrev pub entry : Text → WorkflowState → WorkflowState → Cause → Transition
entry now from to c = record {
  from = from;
  to = to;
  reason = c.reason;
  actor = c.actor;
  evidence = c.evidence;
  at = elim c.at [ none ↦ now | some t ↦ t ];
}

abbrev pub moved : Text → Workflow → WorkflowState → Cause → Workflow
moved now w to c = record w {
  state = to;
  next_action = next_action_for to (some c.evidence);
  transitions = w.transitions ++ entry now w.state to c ∷ [];
}

unfoldable pub transition : Text → Workflow → WorkflowState → Cause → Result Workflow
transition now w to c =
    if is_in (allowed w.state) to
    then ok (moved now w to c)
    else throw plan_invalid (
        codes "Cannot move workflow "
        ++ w.id
        ++ codes " from "
        ++ state_text w.state
        ++ codes " to "
        ++ state_text to)

-- A cause with no `at`, as every operation below gives.
abbrev pub because : Text → Text → Text → Cause
because reason actor evidence = record {
  reason = reason;
  actor = actor;
  evidence = evidence;
  at = none;
}

abbrev wrong_state : Text → Workflow → Text
wrong_state doing w = codes "Cannot " ++ doing ++ codes " from " ++ state_text w.state

unfoldable pub assert_write_allowed : Workflow → Result (Unit {0})
unfolding can_submit_write
assert_write_allowed w =
    throw_if (not (can_submit_write w.state)) plan_invalid
      (codes "Cannot submit a write while workflow is " ++ state_text w.state)

unfoldable pub record_rejection : Text → Workflow → Text → Result Workflow
record_rejection now w evidence = do
  assert_write_allowed w
  transition now w user_rejected
      (because (codes "User declined the signature request") (codes "wallet") evidence)

-- The default of `recordRejection`'s second argument.
unfoldable pub rejection_evidence : Text
rejection_evidence = codes "user rejected in wallet"

unfoldable pub record_broadcast : Text → Workflow → Text → Result Workflow
record_broadcast now w txid = do
  assert_write_allowed w
  throw_if (is_empty (trim txid)) ErrorCode.broadcast_unknown
      (codes "Broadcast evidence must include a non-empty txid")
  transition now w submitted
      (because (codes "Wallet returned a broadcast txid") (codes "wallet") txid)

unfoldable pub record_unknown_broadcast : Text → Workflow → Text → Result Workflow
record_unknown_broadcast now w evidence = do
  throw_if (not (is_in (awaiting_signature ∷ submitted ∷ confirming ∷ []) w.state)) plan_invalid
      (wrong_state (codes "record unknown broadcast") w)
  transition now w broadcast_unknown (
      because (codes "Wallet or broadcast result did not include a txid") (codes "wallet") evidence)

abbrev resolve : Text → Workflow → UnknownBroadcastResolution → Result Workflow
resolve now w (found txid) = do
  throw_if (is_empty (trim txid)) ErrorCode.broadcast_unknown
      (codes "Found resolution requires a non-empty txid")
  transition now w submitted (
      because (codes "Read recovered a txid after an uncertain wallet answer") (codes "worker")
        txid)
resolve now w (absent evidence) = transition now w manual_review (
    because (codes "Read could not find a broadcast after an uncertain wallet answer")
      (codes "worker") evidence)

unfoldable pub resolve_unknown_broadcast :
    Text → Workflow → UnknownBroadcastResolution → Result Workflow
resolve_unknown_broadcast now w resolution = do
  throw_if (not (state_eq w.state broadcast_unknown)) plan_invalid
      (wrong_state (codes "resolve unknown broadcast") w)
  resolve now w resolution

unfoldable pub begin_confirming : Text → Workflow → Text → Result Workflow
begin_confirming now w evidence = do
  throw_if (not (is_in (submitted ∷ action_required ∷ reorged ∷ []) w.state)) plan_invalid
      (wrong_state (codes "begin confirming") w)
  transition now w confirming
      (because (codes "Waiting for canonical confirmation") (codes "worker") evidence)

unfoldable pub mark_step_confirmed : Text → Workflow → Text → Result Workflow
mark_step_confirmed now w evidence = do
  throw_if (not (state_eq w.state confirming)) plan_invalid
      (wrong_state (codes "mark a step confirmed") w)
  transition now w step_confirmed
      (because (codes "Plan step confirmed on chain") (codes "worker") evidence)

unfoldable pub begin_reconciling : Text → Workflow → Text → Text → Result Workflow
begin_reconciling now w evidence actor = do
  throw_if (not (is_in (step_confirmed ∷ reorged ∷ action_required ∷ manual_review ∷ []) w.state))
      plan_invalid (wrong_state (codes "begin reconciliation") w)
  transition now w reconciling
      (because (codes "Begin canonical position reconciliation") actor evidence)

-- The end of `completeFromReconciliation`, on the workflow that it calls `flow`.
unfoldable pub finish_reconciliation :
    Text → Workflow → ReconciliationResult → Text → Result Workflow
finish_reconciliation now flow result actor = do
  throw_if (not (state_eq flow.state reconciling)) plan_invalid (
      codes "Cannot complete workflow "
      ++ flow.id
      ++ codes " from "
      ++ state_text flow.state
      ++ codes "; canonical reconciliation is required")
  elim result.matched [
    | false ↦ transition now flow action_required (
        because (codes "Canonical position did not match the expected effect") actor
          (codes "mismatch:" ++ result.evidence))
    | true ↦
        transition now flow completed
          (because (codes "Canonical position matched") actor result.evidence)
  ]

-- The clock is read once for each of the two moves.
unfoldable pub complete_from_reconciliation :
    Text → Text → Workflow → ReconciliationResult → Text → Result Workflow
complete_from_reconciliation now now' w result actor = elim (state_eq w.state step_confirmed) [
  | true ↦ begin_reconciling now w result.evidence actor >>= λ flow.
      finish_reconciliation now' flow result actor
  | false ↦ finish_reconciliation now' w result actor
]

unfoldable pub record_provider_outage : Text → Workflow → Text → Result Workflow
unfolding can_submit_write
record_provider_outage now w evidence = do
  throw_if
      (not (
        is_in (submitted ∷ confirming ∷ step_confirmed ∷ reconciling ∷ broadcast_unknown ∷ [])
          w.state))
      plan_invalid (wrong_state (codes "record a provider outage") w)
  throw_if (can_submit_write w.state) plan_invalid (codes "Provider outage must not reopen a write")
  transition now w (if state_eq w.state step_confirmed then reconciling else w.state) (
      because (codes "Provider outage while waiting on chain evidence") (codes "worker")
        (codes "outage:" ++ evidence))

unfoldable pub apply_reorg_to_workflow : Text → Workflow → Text → Result Workflow
apply_reorg_to_workflow now w evidence =
    if is_in (expired ∷ user_rejected ∷ failed ∷ []) w.state
    then ok w
    else if state_eq w.state reorged
    then ok w
    else transition now w reorged
        (because (codes "Canonical chain evidence was rewound") (codes "ingestion") evidence)

unfoldable pub resume_after_reorg : Text → Workflow → Text → Result Workflow
resume_after_reorg now w evidence = do
  throw_if (not (state_eq w.state reorged)) plan_invalid
      (wrong_state (codes "resume after reorg") w)
  transition now w reconciling
      (because (codes "Re-read canonical positions after a reorg") (codes "worker") evidence)
