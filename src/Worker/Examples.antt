-- ===== src/Worker/Examples.antt =====
-- A transaction that is confirmed and an amount that arrives, at work in apps/worker/src.
use capital_os.Shared.{
  ℕ, Text, codes, true, false, none, some, List, [], ◌∷◌, map, length, ◌≡◌, refl, text_eq, big_int,
  show_ℕ, show_ℤ, ◌+ℤ◌,
}
use capital_os.Errors.{ok}
use capital_os.Workflow.States.{
  awaiting_signature, submitted, confirming, step_confirmed, Transition, Workflow,
}
use capital_os.Workflow.Moves.{ReconciliationResult}
use capital_os.Workflow.Route.{Extends, Extends-refl}
use capital_os.Worker.Confirmations.{
  TransactionEvidence, ConfirmationInput, confirmation_decision, apply_confirmation, executed,
  included, is_aborted, is_dropped, is_pending, is_success, transaction_decision,
}
use capital_os.Worker.Justified.{Decided, confirmation_decision-Decided}
use capital_os.Worker.Walk.{apply_confirmation-Extends}
use capital_os.Worker.Writes.{rebuilt}
use capital_os.Worker.Advance.{
  AwaitingConfirmation, Evidence, AdvanceSummary, advance_submitted_workflows,
}
use capital_os.Worker.Stored.{AddsUp, advance_submitted-GoesOn}
use capital_os.Worker.Claimed.{GoesOn}
use capital_os.Worker.Reconciliation.{
  StoredAmount, StoredEffect, AwaitingReconciliation, inward, reconciliation_decision, is_received,
  observed_total, against_floor,
}
use capital_os.Worker.Judged.{Holds, reconciliation_decision-Holds}

abbrev landed : TransactionEvidence
landed = record {
  status = codes "success";
  canonical = true;
  block_height = some 7;
  block_hash = some (b'h' ∷ []);
}

abbrev evidence_of_two : ConfirmationInput
evidence_of_two = record {
  state = submitted;
  transaction = some landed;
  checkpoint_height = some 9;
  block_still_canonical = true;
  is_final_step = false;
}

three_moves :
    (confirmation_decision evidence_of_two).states
    ≡ confirming ∷ step_confirmed ∷ awaiting_signature ∷ []
unfolding confirmation_decision transaction_decision is_pending text_eq codes executed is_aborted
    is_dropped is_success included
three_moves = refl

confirmation_decision-Decided_example :
    Decided evidence_of_two (confirmation_decision evidence_of_two)
confirmation_decision-Decided_example = confirmation_decision-Decided evidence_of_two

abbrev clock : ℕ → Text
clock n = b'0' ∷ []

abbrev pending_workflow : Workflow
pending_workflow = rebuilt (b'w' ∷ []) (codes "mainnet") submitted

apply_confirmation-Extends_example :
    let states = (confirmation_decision evidence_of_two).states in
    (w' : Workflow) × (added : List Transition) × (apply_confirmation clock 0 pending_workflow
        states
        (b'e' ∷ [])
      ≡ ok w')
    × Extends pending_workflow w' added
    × (map (λ t. t.to) added ≡ states)
apply_confirmation-Extends_example =
    apply_confirmation-Extends clock (b'e' ∷ []) pending_workflow evidence_of_two refl

abbrev pending_row : AwaitingConfirmation
pending_row = record {
  workflow_id = b'w' ∷ [];
  network = codes "mainnet";
  state = submitted;
  txid = b't' ∷ [];
  transition_count = 0;
  is_final_step = false;
}

abbrev answers : Evidence
answers = record { transaction = λ txid. some landed; canonical_block = λ height. none }

advance_submitted-GoesOn_example :
    (store' : List Workflow) × (s : AdvanceSummary) × (advance_submitted_workflows answers
        (some 9)
        (λ n. clock)
        (pending_row ∷ [])
        (pending_workflow ∷ [])
      ≡ ok (store', s))
    × GoesOn (pending_workflow ∷ []) store'
    × AddsUp s
    × (s.examined ≡ length (pending_row ∷ []))
advance_submitted-GoesOn_example =
    advance_submitted-GoesOn answers (some 9) (λ n. clock) (pending_row ∷ [])
      (pending_workflow ∷ [])
      (((λ same. (pending_workflow, [], Extends-refl pending_workflow, refl, refl)), tt), tt)

abbrev sbtc : ℕ → StoredAmount
sbtc digit = record { asset = b's' ∷ []; quantity = digit ∷ [] }

abbrev credited : StoredEffect
credited = record {
  kind = b'k' ∷ [];
  owner = none;
  direction = inward;
  asset_id = b's' ∷ [];
  quantity = b'6' ∷ [];
}

abbrev confirmed_row : AwaitingReconciliation
confirmed_row = record {
  workflow_id = b'w' ∷ [];
  network = codes "mainnet";
  state = step_confirmed;
  transition_count = 3;
  owner = some (b'o' ∷ []);
  expected_output = sbtc b'9' ∷ [];
  minimum_output = some (sbtc b'5');
}

abbrev matched_result : ReconciliationResult
matched_result = record {
  matched = true;
  evidence = codes "received 6, at or above the signed minimum 5, under the 9 quoted";
}

above_minimum :
    reconciliation_decision confirmed_row (credited ∷ [])
    ≡ ok (record { result = some matched_result; reason = [] })
unfolding reconciliation_decision is_received text_eq observed_total big_int against_floor ◌+ℤ◌
    codes show_ℤ show_ℕ
above_minimum = refl

reconciliation_decision-Holds_example :
    (expected : StoredAmount) × (more : List StoredAmount) × (confirmed_row.expected_output
      ≡ expected ∷ more)
    × Holds confirmed_row expected (credited ∷ []) true
reconciliation_decision-Holds_example =
    reconciliation_decision-Holds confirmed_row (credited ∷ [])
      (record { result = some matched_result; reason = [] }) matched_result refl above_minimum
