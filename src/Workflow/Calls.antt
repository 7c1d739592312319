-- ===== src/Workflow/Calls.antt =====
-- Any sequence of calls of the operations of packages/core/src/workflow.ts on one workflow. A call
-- that throws leaves the caller with the workflow that it had.
use capital_os.Shared.{Text, List, [], ◌∷◌}
use capital_os.Errors.{Result, ok, err}
use capital_os.Workflow.States.{WorkflowState, Workflow}
use capital_os.Workflow.Moves.{
  Cause, ReconciliationResult, UnknownBroadcastResolution, transition, record_rejection,
  record_broadcast, record_unknown_broadcast, resolve_unknown_broadcast, begin_confirming,
  mark_step_confirmed, begin_reconciling, complete_from_reconciliation, record_provider_outage,
  apply_reorg_to_workflow, resume_after_reorg,
}

pub data Call : Type 0 where
  move : WorkflowState → Cause → Call
  reject broadcast unknown confirm mark outage reorg resume : Text → Call
  settle : UnknownBroadcastResolution → Call
  reconcile : Text → Text → Call
  finish : ReconciliationResult → Text → Call

unfoldable pub perform : Text → Call → Workflow → Result Workflow
perform now (move to c) w = transition now w to c
perform now (reject e) w = record_rejection now w e
perform now (broadcast txid) w = record_broadcast now w txid
perform now (unknown e) w = record_unknown_broadcast now w e
perform now (confirm e) w = begin_confirming now w e
perform now (mark e) w = mark_step_confirmed now w e
perform now (outage e) w = record_provider_outage now w e
perform now (reorg e) w = apply_reorg_to_workflow now w e
perform now (resume e) w = resume_after_reorg now w e
perform now (settle r) w = resolve_unknown_broadcast now w r
perform now (reconcile e actor) w = begin_reconciling now w e actor
perform now (finish r actor) w = complete_from_reconciliation now now w r actor

abbrev pub kept : Workflow → Result Workflow → Workflow
kept w (ok w') = w'
kept w (err e) = w

unfoldable pub perform_all : Text → List Call → Workflow → Workflow
perform_all now [] w = w
perform_all now (c ∷ cs) w = perform_all now cs (kept w (perform now c w))
