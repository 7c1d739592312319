-- ===== src/Workflow/Examples.antt =====
-- Runs of packages/core/src/workflow.ts on concrete workflows: the theorems at inputs that meet their
-- hypotheses, and tests.
use capital_os.Shared.{
  Text, codes, is_empty, trim, length, any, true, false, ◌||◌, none, List, [], ◌∷◌, ◌++◌, ◌≡◌, refl,
  ◌⊎◌, ◌≤◌,
}
use capital_os.Errors.{ok, throw, plan_invalid}
use capital_os.Network.{StacksNetwork}
use capital_os.Workflow.States.{
  WorkflowState, quoted, awaiting_signature, broadcast_unknown, submitted, reconciling, reorged,
  manual_review, completed, expired, Transition, Workflow, next_action_for, can_submit_write,
}
use capital_os.Workflow.Moves.{
  Cause, ReconciliationResult, because, found, moved, create_workflow, apply_reorg_to_workflow,
  record_broadcast, transition, assert_write_allowed, record_provider_outage, begin_confirming,
  mark_step_confirmed, complete_from_reconciliation, finish_reconciliation, begin_reconciling,
  resolve_unknown_broadcast, resume_after_reorg,
}
use capital_os.Workflow.Calls.{
  Call, move, broadcast, confirm, mark, outage, reorg, settle, finish, perform_all, perform,
}
use capital_os.Workflow.Route.{Extends, perform_all-Extends}
use capital_os.Workflow.Outcomes.{
  is_checkpoint, completed-from-reconciling, no_blind_retry, dead_absorbs, completed_reopens,
}
use capital_os.Workflow.Progress.{happy_path, completes}
use capital_os.Workflow.Answers.{rewinds, after_rewind, untouched, apply_reorg_cases}

abbrev now : Text
now = b'5' ∷ []

abbrev txid : Text
txid = b'a' ∷ b'b' ∷ []

abbrev cause : Cause
cause = because (b'r' ∷ []) (b'u' ∷ []) (b'e' ∷ [])

abbrev matched : ReconciliationResult
matched = record { matched = true; evidence = b'm' ∷ [] }

abbrev at_state : WorkflowState → Workflow
at_state s = record {
  id = b'w' ∷ [];
  network = StacksNetwork.testnet;
  quote_id = none;
  plan_id = none;
  step_id = none;
  state = s;
  next_action = next_action_for s none;
  transitions = [];
  idempotency_key = b'k' ∷ [];
}

abbrev whole_run : List Call
whole_run =
    move quoted cause
    ∷ move awaiting_signature cause
    ∷ broadcast txid
    ∷ outage txid
    ∷ confirm txid
    ∷ mark txid
    ∷ finish matched txid
    ∷ []

perform_all-Extends_example :
    (added : List Transition) × Extends
      (at_state submitted)
      (perform_all now whole_run (at_state submitted))
      added
perform_all-Extends_example = perform_all-Extends now whole_run (at_state submitted)

whole_run_completes :
    (perform_all now whole_run (create_workflow txid StacksNetwork.testnet now)).state ≡ completed
unfolding perform_all perform create_workflow transition record_broadcast assert_write_allowed
    can_submit_write record_provider_outage begin_confirming mark_step_confirmed trim
    complete_from_reconciliation finish_reconciliation begin_reconciling
whole_run_completes = refl

completed-from-reconciling_example :
    let w = perform_all now whole_run (create_workflow txid StacksNetwork.testnet now) in
    (pre : List Transition) × (last : Transition) × (w.transitions ≡ pre ++ last ∷ [])
    × (last.from ≡ reconciling)
    × (last.to ≡ completed)
completed-from-reconciling_example =
    completed-from-reconciling now whole_run txid StacksNetwork.testnet now whole_run_completes

abbrev retry_run : List Call
retry_run = settle (found txid) ∷ confirm txid ∷ mark txid ∷ move awaiting_signature cause ∷ []

retry_run_signs :
    can_submit_write (perform_all now retry_run (at_state broadcast_unknown)).state ≡ true
unfolding perform_all perform transition can_submit_write resolve_unknown_broadcast begin_confirming
    mark_step_confirmed trim
retry_run_signs = refl

no_blind_retry_example :
    let w = at_state broadcast_unknown in
    let w' = perform_all now retry_run w in
    (added : List Transition) × (w'.transitions ≡ w.transitions ++ added)
    × (any (λ t. is_checkpoint t.to) added ≡ true)
no_blind_retry_example =
    no_blind_retry now retry_run (at_state broadcast_unknown) refl retry_run_signs

dead_absorbs_example :
    let w = at_state expired in
    ((perform_all now whole_run w).state ≡ w.state)
    × ((perform_all now whole_run w).transitions ≡ w.transitions)
dead_absorbs_example = dead_absorbs now whole_run (at_state expired) refl

completed_reopens_example :
    let w = at_state completed in
    let w' = perform_all now (reorg txid ∷ []) w in
    ((w'.state ≡ completed) × (w'.transitions ≡ w.transitions))
    ⊎ ((t : Transition) × (ts : List Transition) × (w'.transitions ≡ w.transitions ++ t ∷ ts)
        × (t.to ≡ reorged))
completed_reopens_example = completed_reopens now (reorg txid ∷ []) (at_state completed) refl

txid_not_blank : is_empty (trim txid) ≡ false
unfolding trim
txid_not_blank = refl

completes_example :
    let cs = happy_path manual_review cause txid now matched now in
    ((perform_all now cs (at_state manual_review)).state ≡ completed) × (length cs ≤ 6)
completes_example =
    completes now (at_state manual_review) cause txid now now matched refl txid_not_blank refl

apply_reorg_cases_example :
    let w = at_state completed in
    ((rewinds w.state ≡ true)
      × (apply_reorg_to_workflow now w txid ≡ ok (after_rewind now w txid))
      × (apply_reorg_to_workflow now (after_rewind now w txid) txid ≡ ok (after_rewind now w txid))
      × (resume_after_reorg now (after_rewind now w txid) txid
          ≡ ok (
              moved now (after_rewind now w txid) reconciling (
                because
                  (codes "Re-read canonical positions after a reorg")
                  (codes "worker")
                  txid))))
    ⊎ ((untouched w.state ≡ true) × (apply_reorg_to_workflow now w txid ≡ ok w))
    ⊎ (((rewinds w.state || untouched w.state) ≡ false)
        × (m : Text) × (apply_reorg_to_workflow now w txid ≡ throw plan_invalid m))
apply_reorg_cases_example = apply_reorg_cases now now (at_state completed) txid txid
