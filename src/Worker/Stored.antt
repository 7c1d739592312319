-- ===== src/Worker/Stored.antt =====
-- apps/worker/src/confirmations.ts over the stored workflows: what a tick of the worker leaves of them.
use capital_os.Shared.{
  ℕ, ◌+◌, Text, codes, Bool, true, false, not, ◌&&◌, Option, none, some, List, [], ◌∷◌, ◌++◌,
  length, is_empty, ◌≡◌, refl, sym, inl, inr, arith, Bool-cases, All,
}
use mathlib.Core.Path.{subst}
use capital_os.Errors.{Result, ok}
use capital_os.Workflow.States.{
  WorkflowState, Workflow, next_action_for, waiting_action, wait, submitted, confirming, state_eq,
}
use capital_os.Worker.Confirmations.{
  TransactionEvidence, ConfirmationInput, confirmation_decision, is_submitted,
}
use capital_os.Worker.Walk.{apply_confirmation-Extends}
use capital_os.Worker.Writes.{rebuilt, advance_workflow_from_chain}
use capital_os.Worker.Advance.{
  AwaitingConfirmation, Evidence, AdvanceSummary, Turn, advanced, unchanged, unreadable, input_for,
  decision_for, advance_by, advance_read, advance_turn, advance_all, advance_submitted_workflows,
  turn_of, counted,
}
use capital_os.Worker.Claimed.{
  GoesOn, GoesOn-refl, GoesOn-trans, Snapshot, Snapshots-GoesOn, advance-GoesOn,
}

turn_of-store : (r : List Workflow × Bool) → (turn_of r).0 ≡ r.0
turn_of-store (store, true) = refl
turn_of-store (store, false) = refl

idle_waiting :
    (s : WorkflowState)
    → not (is_submitted s) && not (state_eq s confirming) ≡ false
    → wait ≡ next_action_for s none
unfolding next_action_for waiting_action
idle_waiting submitted h = refl
idle_waiting confirming h = refl
idle_waiting s h = absurd (ground arith)

-- Only a workflow that waits for a confirmation is moved.
moves_waiting :
    (input : ConfirmationInput)
    → is_empty (confirmation_decision input).states ≡ false
    → wait ≡ next_action_for input.state none
unfolding confirmation_decision
moves_waiting input h =
    elim (Bool-cases (not (is_submitted input.state) && not (state_eq input.state confirming))) [
      | inl n ↦ absurd (cc (rw n at h))
      | inr w ↦ idle_waiting input.state w
    ]

-- What a turn leaves.
abbrev Turned : List Workflow → Result (List Workflow × Turn) → Type 0
Turned store r = (store' : List Workflow) × (t : Turn) × (r ≡ ok (store', t)) × GoesOn store store'

advance_by-Turned :
    (clock : ℕ → Text) (row : AwaitingConfirmation) (input : ConfirmationInput)
    (store : List Workflow)
    → input.state ≡ row.state
    → is_empty (confirmation_decision input).states ≡ false
    → All (Snapshot row) store
    → Turned store (advance_by clock row (confirmation_decision input) store)
unfolding advance_by
advance_by-Turned clock row input store e some_moves s =
    let evidence = codes "tx:" ++ row.txid ++ codes " " ++ (confirmation_decision input).reason in
    let (after, added, goes, x, states) =
      apply_confirmation-Extends clock evidence (rebuilt row.workflow_id row.network row.state)
        input e in
    let idle : wait ≡ next_action_for row.state none =
      subst (λ t. wait ≡ next_action_for t none) e (moves_waiting input some_moves) in
    let w = advance_workflow_from_chain store after after.transitions row.transition_count in
    let t = turn_of w in
    (
      t.0,
      t.1,
      rw goes,
      subst (GoesOn store) (sym (turn_of-store w))
          (advance-GoesOn row after added x idle store after.transitions refl s),
    )

advance_read-Turned :
    (seen : Evidence) (checkpoint : Option ℕ) (clock : ℕ → Text) (row : AwaitingConfirmation)
    (store : List Workflow) (answer : Option TransactionEvidence)
    → All (Snapshot row) store
    → Turned store (advance_read seen checkpoint clock row store answer)
unfolding advance_read
advance_read-Turned seen checkpoint clock row store none s =
    (store, unreadable, refl, GoesOn-refl store)
advance_read-Turned seen checkpoint clock row store (some tx) s =
    elim (Bool-cases (is_empty (decision_for seen checkpoint row tx).states)) [
      | inl idle ↦ rw idle (store, unchanged, refl, GoesOn-refl store)
      | inr moves ↦
          rw moves
            (advance_by-Turned clock row (input_for seen checkpoint row tx) store refl moves s)
    ]

-- The turns are counted, each once.
abbrev pub AddsUp : AdvanceSummary → Type 0
AddsUp s = s.examined ≡ s.advanced + s.unchanged + s.unreadable

counted_lem :
    (s : AdvanceSummary) (t : Turn)
    → AddsUp s
    → AddsUp (counted s t) × ((counted s t).examined ≡ s.examined + 1)
counted_lem s advanced h = (omega arith, refl)
counted_lem s unchanged h = (omega arith, refl)
counted_lem s unreadable h = (omega arith, refl)

Snapshots-All :
    (rows : List AwaitingConfirmation) (store store' : List Workflow)
    → GoesOn store store'
    → All (λ row. All (Snapshot row) store) rows
    → All (λ row. All (Snapshot row) store') rows
Snapshots-All [] store store' g s = tt
Snapshots-All (row ∷ rows) store store' g (s, ss) =
    (Snapshots-GoesOn row store store' g s, Snapshots-All rows store store' g ss)

advance_all-GoesOn :
    (seen : Evidence) (checkpoint : Option ℕ) (clock : ℕ → ℕ → Text) (n : ℕ)
    (rows : List AwaitingConfirmation) (store : List Workflow) (summary : AdvanceSummary)
    → All (λ row. All (Snapshot row) store) rows
    → AddsUp summary
    → (store' : List Workflow) × (s : AdvanceSummary) × (advance_all seen checkpoint clock n rows
          store summary
        ≡ ok (store', s))
      × GoesOn store store'
      × AddsUp s
      × (s.examined ≡ summary.examined + length rows)
unfolding advance_all advance_turn
advance_all-GoesOn seen checkpoint clock n [] store summary s a =
    (store, summary, refl, GoesOn-refl store, a, omega arith)
advance_all-GoesOn seen checkpoint clock n (row ∷ rows) store summary (s, ss) a =
    let (mid, t, turned, g) =
      advance_read-Turned seen checkpoint (clock n) row store (seen.transaction row.txid) s in
    let (a', one) = counted_lem summary t a in
    let (store', s', run, g', adds, total) =
      advance_all-GoesOn seen checkpoint clock (n + 1) rows mid (counted summary t)
        (Snapshots-All rows store mid g ss) a' in
    (store', s', rw turned run, GoesOn-trans store mid store' g g', adds, omega arith)

-- A tick of the worker over pending rows that were read from earlier versions of the stored workflows
-- never throws. Whatever the provider answers, every stored workflow is kept or goes on by legal moves from
-- the state that it is in, so that a decision on a state that was left since is not written; and each
-- row is counted once, as advanced, unchanged or unreadable.
pub advance_submitted-GoesOn :
    (seen : Evidence) (checkpoint : Option ℕ) (clock : ℕ → ℕ → Text)
    (pending : List AwaitingConfirmation) (store : List Workflow)
    → All (λ row. All (Snapshot row) store) pending
    → (store' : List Workflow) × (s : AdvanceSummary) × (advance_submitted_workflows seen checkpoint
          clock pending store
        ≡ ok (store', s))
      × GoesOn store store'
      × AddsUp s
      × (s.examined ≡ length pending)
unfolding advance_submitted_workflows
advance_submitted-GoesOn seen checkpoint clock pending store s =
    let (store', s', run, g, adds, total) =
      advance_all-GoesOn seen checkpoint clock 0 pending store
        (record { examined = 0; advanced = 0; unchanged = 0; unreadable = 0 }) s refl in
    (store', s', run, g, adds, omega arith)
