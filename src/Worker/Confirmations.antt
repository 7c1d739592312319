-- ===== src/Worker/Confirmations.antt =====
-- apps/worker/src/confirmations.ts: how far chain evidence moves a workflow that was broadcast.
use capital_os.Shared.{
  ℕ, ◌+◌, ltb, Text, codes, text_eq, has, show_ℕ, Bool, false, not, ◌||◌, ◌&&◌, Option, none, some,
  List, [], ◌∷◌, ◌++◌, if◌then◌else◌,
}
use capital_os.Errors.{Result, ok, err, error, ◌>>=◌}
use capital_os.Workflow.States.{
  WorkflowState, awaiting_signature, submitted, confirming, step_confirmed, action_required,
  reorged, failed, Workflow, state_eq, state_text,
}
use capital_os.Workflow.Moves.{
  transition, because, begin_confirming, mark_step_confirmed, apply_reorg_to_workflow,
}

-- What the provider reports of a transaction; a pending one has no block yet.
pub record TransactionEvidence : Type 0 where
  pub status : Text
  pub canonical : Bool
  pub block_height : Option ℕ
  pub block_hash : Option Text

pub record ConfirmationInput : Type 0 where
  pub state : WorkflowState
  pub transaction : Option TransactionEvidence
  pub checkpoint_height : Option ℕ
  pub block_still_canonical : Bool
  pub is_final_step : Bool

pub record ConfirmationOutcome : Type 0 where
  pub states : List WorkflowState
  pub reason : Text

-- `SUCCESS`
unfoldable pub is_success : Text → Bool
is_success status = text_eq status (codes "success")

-- `PENDING`
unfoldable pub is_pending : Text → Bool
is_pending status = text_eq status (codes "pending")

-- `ABORTED.has(status)`
unfoldable pub is_aborted : Text → Bool
is_aborted status = has status (codes "abort_by_response" ∷ codes "abort_by_post_condition" ∷ [])

-- `DROPPED.has(status)`
unfoldable pub is_dropped : Text → Bool
is_dropped status = has status (
    codes "dropped_replace_by_fee"
    ∷ codes "dropped_replace_across_fork"
    ∷ codes "dropped_too_expensive"
    ∷ codes "dropped_stale_garbage_collect"
    ∷ codes "dropped_problematic"
    ∷ [])

abbrev pub unmoved : Text → ConfirmationOutcome
unmoved reason = record { states = []; reason = reason }

abbrev pub is_submitted : WorkflowState → Bool
is_submitted s = state_eq s submitted

-- `input.checkpointHeight !== null && input.checkpointHeight > tx.blockHeight`
abbrev pub is_ahead : Option ℕ → ℕ → Bool
is_ahead none height = false
is_ahead (some checkpoint) height = ltb height checkpoint

abbrev checkpoint_text : Option ℕ → Text
checkpoint_text none = codes "null"
checkpoint_text (some checkpoint) = show_ℕ checkpoint

-- `confirming`: the move that a submitted workflow makes first.
abbrev first_move : WorkflowState → List WorkflowState
first_move s = if is_submitted s then confirming ∷ [] else []

-- The end of the decision, for a transaction that succeeded in a canonical block.
unfoldable pub included : ConfirmationInput → ℕ → ConfirmationOutcome
included input height =
    if not (is_ahead input.checkpoint_height height)
    then (if is_submitted input.state
        then record {
          states = confirming ∷ [];
          reason = codes "transaction is in canonical block " ++ show_ℕ height;
        }
        else unmoved (codes "ingestion has not stored a block above the transaction yet"))
    else record {
      states =
          first_move input.state
          ++ step_confirmed ∷ (if input.is_final_step then [] else awaiting_signature ∷ []);
      reason =
          codes "canonical block "
          ++ show_ℕ height
          ++ codes " is below checkpoint "
          ++ checkpoint_text input.checkpoint_height;
    }

-- From the test of the status on.
unfoldable pub executed : ConfirmationInput → TransactionEvidence → ℕ → ConfirmationOutcome
executed input tx height =
    if is_aborted tx.status
    then record {
      states = failed ∷ [];
      reason = codes "transaction reverted on chain: " ++ tx.status;
    }
    else if is_dropped tx.status
    then record {
      states = action_required ∷ [];
      reason = codes "transaction left the mempool: " ++ tx.status;
    }
    else if not (is_success tx.status)
    then unmoved (codes "unrecognised transaction status " ++ tx.status)
    else if not tx.canonical || not input.block_still_canonical
    then record {
      states = reorged ∷ [];
      reason = codes "the block holding the transaction is no longer canonical";
    }
    else included input height

abbrev pub mempool : Text
mempool = codes "transaction is still in the mempool"

unfoldable pub transaction_decision :
    ConfirmationInput → Option TransactionEvidence → ConfirmationOutcome
transaction_decision input none = unmoved (codes "provider has no record of the transaction yet")
transaction_decision input (some tx) = elim tx.block_height [
  | none ↦ unmoved mempool
  | some height ↦ if is_pending tx.status then unmoved mempool else executed input tx height
]

unfoldable pub confirmation_decision : ConfirmationInput → ConfirmationOutcome
confirmation_decision input =
    if not (is_submitted input.state) && not (state_eq input.state confirming)
    then unmoved (state_text input.state ++ codes " is not waiting on chain confirmation")
    else transaction_decision input input.transaction

-- One turn of the loop of `applyConfirmation`; `now` is what the clock shows at the move.
unfoldable pub confirmation_move : Text → Workflow → Text → WorkflowState → Result Workflow
confirmation_move now flow evidence confirming = begin_confirming now flow evidence
confirmation_move now flow evidence step_confirmed = mark_step_confirmed now flow evidence
confirmation_move now flow evidence reorged = apply_reorg_to_workflow now flow evidence
confirmation_move now flow evidence awaiting_signature = transition now flow awaiting_signature (
    because (codes "Step confirmed; the next plan step is ready to sign") (codes "worker") evidence)
confirmation_move now flow evidence failed =
    transition now flow failed
      (because (codes "Transaction reverted on chain") (codes "worker") evidence)
confirmation_move now flow evidence action_required =
    transition now flow action_required
      (because (codes "Transaction left the mempool without executing") (codes "worker") evidence)
confirmation_move now flow evidence other =
    err (error (codes "No confirmation move defined for " ++ state_text other))

-- `applyConfirmation`; the clock is read once for each move, `clock n` at the move number `n`.
unfoldable pub apply_confirmation :
    (ℕ → Text) → ℕ → Workflow → List WorkflowState → Text → Result Workflow
apply_confirmation clock n flow [] evidence = ok flow
apply_confirmation clock n flow (state ∷ states) evidence =
    confirmation_move (clock n) flow evidence state >>= λ next.
    apply_confirmation clock (n + 1) next states evidence
