-- ===== src/Workflow/Progress.antt =====
-- Progress in packages/core/src/workflow.ts: from every state that is not dead the operations lead to
-- completion.
use capital_os.Shared.{
  length, ◌≤◌, Text, true, false, List, [], ◌∷◌, ◌≡◌, refl, arith, is_empty, trim,
}
use capital_os.Workflow.States.{
  WorkflowState, draft, quoted, awaiting_signature, broadcast_unknown, submitted, confirming,
  step_confirmed, reconciling, action_required, reorged, manual_review, completed, expired,
  user_rejected, failed, Workflow, is_in, allowed, can_submit_write,
}
use capital_os.Workflow.Moves.{
  Cause, ReconciliationResult, found, transition, record_broadcast, assert_write_allowed,
  complete_from_reconciliation, finish_reconciliation, begin_reconciling, begin_confirming,
  mark_step_confirmed, resume_after_reorg, resolve_unknown_broadcast,
}
use capital_os.Workflow.Calls.{
  Call, move, broadcast, confirm, mark, resume, settle, reconcile, finish, perform, perform_all,
  kept,
}
use capital_os.Workflow.Outcomes.{dead}

-- The calls that bring a workflow to COMPLETED when everything goes well from where it is.
abbrev sign_and_send : Cause → Text → Text → ReconciliationResult → Text → List Call
sign_and_send c txid e r actor = broadcast txid ∷ confirm e ∷ mark e ∷ finish r actor ∷ []

unfoldable pub happy_path :
    WorkflowState → Cause → Text → Text → ReconciliationResult → Text → List Call
happy_path draft c txid e r a =
    move quoted c ∷ move awaiting_signature c ∷ sign_and_send c txid e r a
happy_path quoted c txid e r a = move awaiting_signature c ∷ sign_and_send c txid e r a
happy_path awaiting_signature c txid e r a = sign_and_send c txid e r a
happy_path broadcast_unknown c txid e r a =
    settle (found txid) ∷ confirm e ∷ mark e ∷ finish r a ∷ []
happy_path submitted c txid e r a = confirm e ∷ mark e ∷ finish r a ∷ []
happy_path confirming c txid e r a = mark e ∷ finish r a ∷ []
happy_path step_confirmed c txid e r a = finish r a ∷ []
happy_path reconciling c txid e r a = finish r a ∷ []
happy_path action_required c txid e r a = confirm e ∷ mark e ∷ finish r a ∷ []
happy_path reorged c txid e r a = resume e ∷ finish r a ∷ []
happy_path manual_review c txid e r a = reconcile e a ∷ finish r a ∷ []
happy_path completed c txid e r a = []
happy_path expired c txid e r a = []
happy_path user_rejected c txid e r a = []
happy_path failed c txid e r a = []

-- One call, with the state that it leads to.
module _ (now : Text) (w : Workflow) where
  move-to :
      (c : Cause) (to : WorkflowState)
      → is_in (allowed w.state) to ≡ true
      → (kept w (perform now (move to c) w)).state ≡ to
  unfolding perform transition
  move-to c to h = ground arith

  broadcast-to :
      (txid : Text)
      → is_empty (trim txid) ≡ false
      → w.state ≡ awaiting_signature
      → (kept w (perform now (broadcast txid) w)).state ≡ submitted
  unfolding perform record_broadcast assert_write_allowed can_submit_write transition
  broadcast-to txid t h = ground arith

  settle-to :
      (txid : Text)
      → is_empty (trim txid) ≡ false
      → w.state ≡ broadcast_unknown
      → (kept w (perform now (settle (found txid)) w)).state ≡ submitted
  unfolding perform resolve_unknown_broadcast transition
  settle-to txid t h = ground arith

  confirm-to :
      (e : Text)
      → is_in (submitted ∷ action_required ∷ []) w.state ≡ true
      → (kept w (perform now (confirm e) w)).state ≡ confirming
  unfolding perform begin_confirming transition
  confirm-to e h = ground arith

  mark-to :
      (e : Text) → w.state ≡ confirming → (kept w (perform now (mark e) w)).state ≡ step_confirmed
  unfolding perform mark_step_confirmed transition
  mark-to e h = ground arith

  resume-to :
      (e : Text) → w.state ≡ reorged → (kept w (perform now (resume e) w)).state ≡ reconciling
  unfolding perform resume_after_reorg transition
  resume-to e h = ground arith

  reconcile-to :
      (e actor : Text)
      → w.state ≡ manual_review
      → (kept w (perform now (reconcile e actor) w)).state ≡ reconciling
  unfolding perform begin_reconciling transition
  reconcile-to e actor h = ground arith

  finish-to :
      (r : ReconciliationResult) (actor : Text)
      → r.matched ≡ true
      → is_in (step_confirmed ∷ reconciling ∷ []) w.state ≡ true
      → (kept w (perform now (finish r actor) w)).state ≡ completed
  unfolding perform complete_from_reconciliation finish_reconciliation begin_reconciling transition
  finish-to r actor m h = ground arith

-- The ends of the path, each from the state where it begins.
module _ (now txid e actor : Text) (r : ReconciliationResult) (c : Cause)
    (t : is_empty (trim txid) ≡ false) (m : r.matched ≡ true) where
  from_reconciling :
      (w : Workflow)
      → is_in (step_confirmed ∷ reconciling ∷ []) w.state ≡ true
      → (perform_all now (finish r actor ∷ []) w).state ≡ completed
  unfolding perform_all
  from_reconciling w h = finish-to now w r actor m h

  from_confirming :
      (w : Workflow)
      → w.state ≡ confirming
      → (perform_all now (mark e ∷ finish r actor ∷ []) w).state ≡ completed
  unfolding perform_all
  from_confirming w h = from_reconciling _ (rw (mark-to now w e h))

  from_submitted :
      (w : Workflow)
      → is_in (submitted ∷ action_required ∷ []) w.state ≡ true
      → (perform_all now (confirm e ∷ mark e ∷ finish r actor ∷ []) w).state ≡ completed
  unfolding perform_all
  from_submitted w h = from_confirming _ (confirm-to now w e h)

  from_awaiting :
      (w : Workflow)
      → w.state ≡ awaiting_signature
      → (perform_all now (sign_and_send c txid e r actor) w).state ≡ completed
  unfolding perform_all
  from_awaiting w h = from_submitted _ (rw (broadcast-to now w txid t h))

  from_quoted :
      (w : Workflow)
      → w.state ≡ quoted
      → (perform_all now (move awaiting_signature c ∷ sign_and_send c txid e r actor) w).state
        ≡ completed
  unfolding perform_all
  from_quoted w h = from_awaiting _ (move-to now w c awaiting_signature (rw h))

  completes_from :
      (s : WorkflowState) (w : Workflow)
      → w.state ≡ s
      → dead s ≡ false
      → (perform_all now (happy_path s c txid e r actor) w).state ≡ completed
  unfolding happy_path perform_all
  completes_from draft w h d = from_quoted _ (move-to now w c quoted (rw h))
  completes_from quoted w h d = from_quoted w h
  completes_from awaiting_signature w h d = from_awaiting w h
  completes_from broadcast_unknown w h d = from_submitted _ (rw (settle-to now w txid t h))
  completes_from submitted w h d = from_submitted w (rw h)
  completes_from confirming w h d = from_confirming w h
  completes_from step_confirmed w h d = from_reconciling w (rw h)
  completes_from reconciling w h d = from_reconciling w (rw h)
  completes_from action_required w h d = from_submitted w (rw h)
  completes_from reorged w h d = from_reconciling _ (rw (resume-to now w e h))
  completes_from manual_review w h d = from_reconciling _ (rw (reconcile-to now w e actor h))
  completes_from completed w h d = h
  completes_from expired w h d = cc
  completes_from user_rejected w h d = cc
  completes_from failed w h d = cc

-- From every state but EXPIRED, USER_REJECTED and FAILED a run of at most six calls completes the
-- workflow, given a txid that is not blank and a reconciliation that matched.
pub completes :
    (now : Text) (w : Workflow) (c : Cause) (txid e actor : Text) (r : ReconciliationResult)
    → dead w.state ≡ false
    → is_empty (trim txid) ≡ false
    → r.matched ≡ true
    → ((perform_all now (happy_path w.state c txid e r actor) w).state ≡ completed)
      × (length (happy_path w.state c txid e r actor) ≤ 6)
unfolding happy_path
completes now w c txid e actor r d t m =
    (completes_from now txid e actor r c t m w.state w refl d, short w.state)
  where
    short : (s : WorkflowState) → length (happy_path s c txid e r actor) ≤ 6
    short draft = omega arith
    short quoted = omega arith
    short _ = omega arith
