-- ===== src/Worker/Advance.antt =====
-- apps/worker/src/confirmations.ts: the loop over the workflows that wait for a confirmation. The
-- provider's answers and the stored blocks are an argument.
use capital_os.Shared.{
  ℕ, ◌+◌, Text, codes, text_eq, Bool, true, false, Option, none, some, List, [], ◌∷◌, ◌++◌,
  is_empty, if◌then◌else◌,
}
use capital_os.Errors.{Result, ok, ◌>>=◌}
use capital_os.Workflow.States.{WorkflowState, Workflow}
use capital_os.Worker.Confirmations.{
  TransactionEvidence, ConfirmationInput, ConfirmationOutcome, confirmation_decision,
  apply_confirmation,
}
use capital_os.Worker.Writes.{advance_workflow_from_chain, rebuilt}

pub record AwaitingConfirmation : Type 0 where
  pub workflow_id : Text
  pub network : Text
  pub state : WorkflowState
  pub txid : Text
  pub transition_count : ℕ
  pub is_final_step : Bool

-- `hiro.transaction(txid)`, where none is a read that throws, and the hash of the canonical block
-- that is stored at a height.
pub record Evidence : Type 0 where
  pub transaction : Text → Option TransactionEvidence
  pub canonical_block : ℕ → Option Text

abbrev same_block : Option Text → Text → Bool
same_block none hash = true
same_block (some stored) hash = text_eq stored hash

-- `blockStillCanonical`
abbrev block_still_canonical : Evidence → Option Text → Option ℕ → Bool
block_still_canonical seen none height = true
block_still_canonical seen (some hash) none = true
block_still_canonical seen (some hash) (some height) = same_block (seen.canonical_block height) hash

-- What the decision is given.
abbrev pub input_for :
    Evidence → Option ℕ → AwaitingConfirmation → TransactionEvidence → ConfirmationInput
input_for seen checkpoint row tx = record {
  state = row.state;
  transaction = some tx;
  checkpoint_height = checkpoint;
  block_still_canonical = block_still_canonical seen tx.block_hash tx.block_height;
  is_final_step = row.is_final_step;
}

abbrev pub decision_for :
    Evidence → Option ℕ → AwaitingConfirmation → TransactionEvidence → ConfirmationOutcome
decision_for seen checkpoint row tx = confirmation_decision (input_for seen checkpoint row tx)

pub record AdvanceSummary : Type 0 where
  pub examined : ℕ
  pub advanced : ℕ
  pub unchanged : ℕ
  pub unreadable : ℕ

-- One turn of the loop, after `summary.examined += 1`.
pub data Turn : Type 0 where
  advanced unchanged unreadable : Turn

abbrev pub turn_of : List Workflow × Bool → List Workflow × Turn
turn_of (store, true) = (store, advanced)
turn_of (store, false) = (store, unchanged)

-- The walk and the write that follow a decision with moves.
unfoldable pub advance_by :
    (ℕ → Text)
    → AwaitingConfirmation
    → ConfirmationOutcome
    → List Workflow
    → Result (List Workflow × Turn)
advance_by clock row decision store =
    apply_confirmation clock 0 (rebuilt row.workflow_id row.network row.state) decision.states
      (codes "tx:" ++ row.txid ++ codes " " ++ decision.reason)
    >>= λ after.
        ok
          (turn_of (advance_workflow_from_chain store after after.transitions row.transition_count))

-- A turn from the answer of the provider on.
unfoldable pub advance_read :
    Evidence
    → Option ℕ
    → (ℕ → Text)
    → AwaitingConfirmation
    → List Workflow
    → Option TransactionEvidence
    → Result (List Workflow × Turn)
advance_read seen checkpoint clock row store none = ok (store, unreadable)
advance_read seen checkpoint clock row store (some tx) =
    if is_empty (decision_for seen checkpoint row tx).states
    then ok (store, unchanged)
    else advance_by clock row (decision_for seen checkpoint row tx) store

unfoldable pub advance_turn :
    Evidence
    → Option ℕ
    → (ℕ → Text)
    → AwaitingConfirmation
    → List Workflow
    → Result (List Workflow × Turn)
advance_turn seen checkpoint clock row store =
    advance_read seen checkpoint clock row store (seen.transaction row.txid)

abbrev pub counted : AdvanceSummary → Turn → AdvanceSummary
counted s advanced = record s { examined = s.examined + 1; advanced = s.advanced + 1 }
counted s unchanged = record s { examined = s.examined + 1; unchanged = s.unchanged + 1 }
counted s unreadable = record s { examined = s.examined + 1; unreadable = s.unreadable + 1 }

-- The loop over the pending rows; `clock n` holds the readings of the clock in turn n.
unfoldable pub advance_all :
    Evidence
    → Option ℕ
    → (ℕ → ℕ → Text)
    → ℕ
    → List AwaitingConfirmation
    → List Workflow
    → AdvanceSummary
    → Result (List Workflow × AdvanceSummary)
advance_all seen checkpoint clock n [] store summary = ok (store, summary)
advance_all seen checkpoint clock n (row ∷ rows) store summary =
    advance_turn seen checkpoint (clock n) row store >>= λ turn.
    advance_all seen checkpoint clock (n + 1) rows turn.0 (counted summary turn.1)

unfoldable pub advance_submitted_workflows :
    Evidence
    → Option ℕ
    → (ℕ → ℕ → Text)
    → List AwaitingConfirmation
    → List Workflow
    → Result (List Workflow × AdvanceSummary)
advance_submitted_workflows seen checkpoint clock pending store =
    advance_all seen checkpoint clock 0 pending store
      (record { examined = 0; advanced = 0; unchanged = 0; unreadable = 0 })
