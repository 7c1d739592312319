-- ===== src/Workflow/Answers.antt =====
-- What single operations of packages/core/src/workflow.ts answer, on every branch.
use capital_os.Shared.{Text, Bool, true, false, [], ◌∷◌, ◌≡◌, arith, ◌⊎◌, not, ◌||◌, codes}
use capital_os.Errors.{ok, plan_invalid, throw}
use capital_os.Workflow.States.{
  WorkflowState, draft, submitted, confirming, step_confirmed, reconciling, reorged, completed,
  expired, user_rejected, failed, Workflow, is_in, next_action_for, resume_hint, sign,
}
use capital_os.Workflow.Moves.{
  moved, because, transition, apply_reorg_to_workflow, resume_after_reorg,
}
use capital_os.Workflow.Route.{IsCurrent}

-- States from which a reorganisation is recorded.
abbrev pub rewinds : WorkflowState → Bool
rewinds = is_in (submitted ∷ confirming ∷ step_confirmed ∷ reconciling ∷ completed ∷ [])

-- States in which a reorganisation changes nothing.
abbrev pub untouched : WorkflowState → Bool
untouched = is_in (expired ∷ user_rejected ∷ failed ∷ reorged ∷ [])

-- A workflow whose canonical evidence was rewound.
abbrev pub after_rewind : Text → Workflow → Text → Workflow
after_rewind now w e =
    moved now w reorged
      (because (codes "Canonical chain evidence was rewound") (codes "ingestion") e)

-- What a reorganisation does to a workflow. In SUBMITTED, CONFIRMING, STEP_CONFIRMED, RECONCILING and COMPLETED it
-- moves to REORGED once: a second report leaves it as it is, and the resumption takes it on to RECONCILING. A dead or
-- a REORGED workflow is returned as it is, and in every other state the call throws.
pub apply_reorg_cases :
    (now later : Text) (w : Workflow) (e e' : Text)
    → ((rewinds w.state ≡ true)
        × (apply_reorg_to_workflow now w e ≡ ok (after_rewind now w e))
        × (apply_reorg_to_workflow later (after_rewind now w e) e' ≡ ok (after_rewind now w e))
        × (resume_after_reorg later (after_rewind now w e) e'
            ≡ ok (
                moved later (after_rewind now w e) reconciling (
                  because
                    (codes "Re-read canonical positions after a reorg")
                    (codes "worker")
                    e'))))
      ⊎ ((untouched w.state ≡ true) × (apply_reorg_to_workflow now w e ≡ ok w))
      ⊎ ((rewinds w.state || untouched w.state ≡ false)
          × (m : Text) × (apply_reorg_to_workflow now w e ≡ throw plan_invalid m))
unfolding apply_reorg_to_workflow resume_after_reorg transition
apply_reorg_cases now later w e e' = ground arith

-- What a reload is told: a state is resumable or terminal, and never both, unless it is DRAFT; a
-- write can be signed only where the next action is SIGN; and where it is RETRY_READ, no write can
-- be signed and the workflow is not over.
pub resume_hint_safe :
    (w : Workflow)
    → IsCurrent w
    → let h = resume_hint w in
      ((w.state ≡ draft) ⊎ (h.resumable ≡ not h.terminal))
      × (h.can_sign ≡ true → w.next_action ≡ sign)
      × (h.can_retry_read ≡ true → (h.can_sign ≡ false) × (h.terminal ≡ false))
unfolding resume_hint next_action_for
resume_hint_safe w (e, p) = ground arith
