-- ===== src/BorrowSafety.antt =====
-- packages/core/src/borrowSafety.ts: a borrow plan whose steps confirm one by one, and what is kept when
-- it stops half way.
pub mod Partial
mod Examples
use capital_os.Shared.{
  Text, codes, text_eq, trim, is_digits, value, ℤ, pos, leb_ℤ, ltb_ℤ, has, any, all, filter, Bool,
  true, false, not, ◌&&◌, Option, none, some, List, if◌then◌else◌,
}
use capital_os.Errors.{Result, ok, throw_if, plan_invalid, ◌>>=◌, ◌>>◌}
use capital_os.Workflow.States.{
  step_confirmed, awaiting_signature, action_required, user_rejected, Transition, Workflow,
  state_eq,
}
use capital_os.Workflow.Moves.{transition, because}

-- What the code needs of a plan's step.
pub record Step : Type 0 where
  pub id : Text
  pub depends_on : List Text

abbrev pub is_ready : List Text → Step → Bool
is_ready done step = not (has step.id done) && all (λ id. has id done) step.depends_on

-- The steps that are not confirmed and whose dependencies all are.
unfoldable pub unsigned_steps : List Step → List Text → List Step
unsigned_steps steps confirmed = filter (is_ready confirmed) steps

unfoldable pub has_confirmed_step : Workflow → Bool
has_confirmed_step w = any (λ (move : Transition). state_eq move.to step_confirmed) w.transitions

pub data BorrowPartialLabel : Type 0 where
  collateral_only nothing_confirmed complete : BorrowPartialLabel

pub data BorrowFollowUp : Type 0 where
  retry_borrow withdraw_collateral no_follow_up : BorrowFollowUp

pub record BorrowPartialOutcome : Type 0 where
  pub fail_workflow : Bool
  pub preserve_confirmed : Bool
  pub label : BorrowPartialLabel
  pub follow_up : BorrowFollowUp

abbrev is_step : Text → Option Text → Bool
is_step id none = false
is_step id (some s) = text_eq s id

abbrev is_given : Option Text → Bool
is_given none = false
is_given (some s) = true

unfoldable pub borrow_partial_outcome : List Text → Option Text → BorrowPartialOutcome
borrow_partial_outcome confirmed rejected =
    if has (codes "collateral-add") confirmed && has (codes "borrow") confirmed
    then record {
      fail_workflow = false;
      preserve_confirmed = true;
      label = complete;
      follow_up = no_follow_up;
    }
    else if has (codes "collateral-add") confirmed
    then record {
      fail_workflow = false;
      preserve_confirmed = true;
      label = collateral_only;
      follow_up = if is_step (codes "borrow") rejected then retry_borrow else withdraw_collateral;
    }
    else record {
      fail_workflow = is_given rejected;
      preserve_confirmed = false;
      label = nothing_confirmed;
      follow_up = no_follow_up;
    }

-- `{ amount } | { error }`
pub data Settlement : Type 0 where
  amount : ℤ → Settlement
  refused : Text → Settlement

abbrev pub checked_amount : ℤ → ℤ → Settlement
checked_amount debt asked =
    if leb_ℤ asked (pos 0)
    then refused (codes "Enter an amount greater than zero.")
    else if ltb_ℤ debt asked
    then refused (codes "That is more than you owe.")
    else amount asked

-- Digits spell no negative number, so that the test for zero is `≤ 0` here.
unfoldable pub settle_repay_amount : Text → ℤ → Settlement
unfolding is_digits value
settle_repay_amount requested debt =
    if leb_ℤ debt (pos 0)
    then refused (codes "There is no debt to repay.")
    else if text_eq (trim requested) (codes "max")
    then amount debt
    else if not (is_digits (trim requested))
    then refused (codes "Enter an amount in base units.")
    else checked_amount debt (pos (value 0 (trim requested)))

-- The clock is read once for each of the two moves.
unfoldable pub continue_after_confirmed_step : Text → Text → Workflow → ℤ → Result Workflow
continue_after_confirmed_step now now' w remaining =
    transition now w step_confirmed
      (because (codes "Plan step confirmed on chain") (codes "adapter") (codes "step-confirmed"))
    >>= λ confirmed.
        if leb_ℤ remaining (pos 0)
        then ok confirmed
        else transition now' confirmed awaiting_signature (
            because (codes "Next plan step needs a signature") (codes "sdk")
              (codes "unsigned-remainder"))

unfoldable pub park_partial_completion : Text → Workflow → Result Workflow
unfolding has_confirmed_step
park_partial_completion now w = do
  throw_if (not (state_eq w.state awaiting_signature)) plan_invalid
      (codes "partial completion can only park an unsigned remainder")
  elim (has_confirmed_step w) [
    | false ↦ transition now w user_rejected (
        because (codes "User rejected before any step confirmed") (codes "wallet")
          (codes "rejected"))
    | true ↦ transition now w action_required (
        because (codes "Confirmed collateral is kept; unsigned borrow was not submitted")
          (codes "wallet") (codes "partial:collateral-only"))
  ]
