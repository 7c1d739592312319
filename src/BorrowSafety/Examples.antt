-- ===== src/BorrowSafety/Examples.antt =====
-- A borrow plan of two steps, half done, in packages/core/src/borrowSafety.ts.
use capital_os.Shared.{
  Text, codes, text_eq, trim, ℤ, pos, ◌≤ℤ◌, ◌<ℤ◌, ◌≡◌, true, false, none, List, [], ◌∷◌,
}
use capital_os.Errors.{ok, throw, plan_invalid}
use capital_os.Network.{StacksNetwork}
use capital_os.Workflow.States.{
  WorkflowState, confirming, awaiting_signature, action_required, user_rejected, step_confirmed,
  Transition, Workflow, next_action_for, state_eq,
}
use capital_os.BorrowSafety.{
  Step, has_confirmed_step, amount, settle_repay_amount, park_partial_completion,
}
use capital_os.BorrowSafety.Partial.{settled_within_debt, park_keeps}

abbrev text : Text
text = b'5' ∷ []

abbrev history : List Transition
history =
    record {
      from = confirming;
      to = step_confirmed;
      reason = text;
      actor = text;
      evidence = text;
      at = text;
    }
    ∷ []

abbrev in_state : WorkflowState → Workflow
in_state s = record {
  id = text;
  network = StacksNetwork.testnet;
  quote_id = none;
  plan_id = none;
  step_id = none;
  state = s;
  next_action = next_action_for s none;
  transitions = history;
  idempotency_key = text;
}

abbrev steps : List Step
steps =
    record { id = b'c' ∷ []; depends_on = [] }
    ∷ record { id = b'b' ∷ []; depends_on = (b'c' ∷ []) ∷ [] }
    ∷ []

settled_within_debt_example :
    ((paid : ℤ)
      → settle_repay_amount text (pos 7) ≡ amount paid
      → (pos 0 <ℤ paid) × (paid ≤ℤ pos 7))
    × (text_eq (trim text) (codes "max") ≡ true
        → pos 0 <ℤ pos 7
        → settle_repay_amount text (pos 7) ≡ amount (pos 7))
settled_within_debt_example = settled_within_debt text (pos 7)

park_keeps_example :
    (state_eq awaiting_signature awaiting_signature ≡ false
      → park_partial_completion text (in_state awaiting_signature)
        ≡ throw plan_invalid (codes "partial completion can only park an unsigned remainder"))
    × (awaiting_signature ≡ awaiting_signature
        → (w' : Workflow) × (park_partial_completion text (in_state awaiting_signature) ≡ ok w')
          × (has_confirmed_step (in_state awaiting_signature) ≡ true → w'.state ≡ action_required)
          × (has_confirmed_step (in_state awaiting_signature) ≡ false → w'.state ≡ user_rejected)
          × (has_confirmed_step w' ≡ has_confirmed_step (in_state awaiting_signature)))
park_keeps_example = park_keeps text (in_state awaiting_signature)
