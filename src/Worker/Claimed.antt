-- ===== src/Worker/Claimed.antt =====
-- packages/database/src/execution.ts and apps/worker/src/confirmations.ts: what one guarded write leaves of the
-- stored workflows.
use capital_os.Shared.{
  text_eq, true, none, List, [], ◌∷◌, ◌++◌, length, length-append, ◌≡◌, refl, sym, ap, ◌∙◌, inl,
  inr, arith, Bool-cases, All,
}
use mathlib.Core.Path.{subst}
use capital_os.Workflow.States.{Workflow, Transition, next_action_for, wait}
use capital_os.Workflow.Route.{Extends, Extends-refl, Extends-trans, IsCurrent, Route}
use capital_os.Worker.Writes.{
  rebuilt, advance_workflow_from_chain, write_claimed, written, is_claimed,
}
use capital_os.Worker.Advance.{AwaitingConfirmation}

-- The pending row was read from an earlier version of the stored workflow.
abbrev pub Snapshot : AwaitingConfirmation → Workflow → Type 0
Snapshot row stored =
    text_eq stored.id row.workflow_id ≡ true
    → (earlier : Workflow) × (since : List Transition) × Extends earlier stored since
      × (row.state ≡ earlier.state)
      × (row.transition_count ≡ length earlier.transitions)

-- Every stored workflow is kept, or goes on by legal moves.
abbrev pub GoesOn : List Workflow → List Workflow → Type 0
GoesOn [] [] = Unit {0}
GoesOn (w ∷ ws) (w' ∷ ws') = ((added : List Transition) × Extends w w' added) × GoesOn ws ws'
GoesOn [] (w' ∷ ws') = ⊥
GoesOn (w ∷ ws) [] = ⊥

pub GoesOn-refl : (store : List Workflow) → GoesOn store store
GoesOn-refl [] = tt
GoesOn-refl (w ∷ ws) = (([], Extends-refl w), GoesOn-refl ws)

pub GoesOn-trans : (a b c : List Workflow) → GoesOn a b → GoesOn b c → GoesOn a c
GoesOn-trans [] [] [] p q = tt
GoesOn-trans [] [] (z ∷ c) p q = absurd q
GoesOn-trans [] (y ∷ b) c p q = absurd p
GoesOn-trans (x ∷ a) [] c p q = absurd p
GoesOn-trans (x ∷ a) (y ∷ b) [] p q = absurd q
GoesOn-trans (x ∷ a) (y ∷ b) (z ∷ c) ((s, e), p) ((t, f), q) =
    ((s ++ t, Extends-trans s t e f), GoesOn-trans a b c p q)

-- What was a snapshot of a stored workflow stays one when the workflow goes on.
Snapshot-Extends :
    (row : AwaitingConfirmation) (w w' : Workflow) (added : List Transition)
    → Extends w w' added
    → Snapshot row w
    → Snapshot row w'
Snapshot-Extends row w w' added e s same =
    let (earlier, since, x, state, count) =
      s (ap (λ i. text_eq i row.workflow_id) (sym e.id) ∙ same) in
    (earlier, since ++ added, Extends-trans since added x e, state, count)

pub Snapshots-GoesOn :
    (row : AwaitingConfirmation) (store store' : List Workflow)
    → GoesOn store store'
    → All (Snapshot row) store
    → All (Snapshot row) store'
Snapshots-GoesOn row [] [] g s = tt
Snapshots-GoesOn row [] (w' ∷ ws') g s = absurd g
Snapshots-GoesOn row (w ∷ ws) [] g s = absurd g
Snapshots-GoesOn row (w ∷ ws) (w' ∷ ws') ((added, e), g) (s, ss) =
    (Snapshot-Extends row w w' added e s, Snapshots-GoesOn row ws ws' g ss)

nothing_since :
    (earlier : List Transition) (since : List Transition)
    → length (earlier ++ since) ≡ length earlier
    → since ≡ []
nothing_since earlier [] e = refl
nothing_since earlier (t ∷ ts) e = absurd (omega (arith, length-append {0} earlier (t ∷ ts)))

-- A claim finds the workflow in the state that the decision was made for.
claimed_state :
    (row : AwaitingConfirmation) (w : Workflow)
    → Snapshot row w
    → is_claimed w row.workflow_id row.transition_count ≡ true
    → w.state ≡ row.state
claimed_state row w s c =
    let (earlier, since, x, state, count) = s (ground arith) in
    let same : length (earlier.transitions ++ since) ≡ length earlier.transitions =
      ap length (sym x.history) ∙ ground arith ∙ count in
    let none_since : since ≡ [] = nothing_since earlier.transitions since same in
    sym (rw none_since at x.route) ∙ sym state

written-Extends :
    (row : AwaitingConfirmation) (w before after : Workflow) (added : List Transition)
    → Extends before after added
    → before.transitions ≡ []
    → IsCurrent before
    → w.state ≡ before.state
    → Extends w (written w after after.transitions) added
written-Extends row w before after added x fresh current same = record {
  history = ap (λ l. w.transitions ++ l) (x.history ∙ ap (λ l. l ++ added) fresh);
  route = subst (λ s. Route s added after.state) (sym same) x.route;
  id = refl;
  network = refl;
  key = refl;
  plan = refl;
  current = λ _. x.current current;
}

module _ (row : AwaitingConfirmation) (after : Workflow) (added : List Transition)
    (x : Extends (rebuilt row.workflow_id row.network row.state) after added)
    (idle : wait ≡ next_action_for row.state none) where
  claim_row :
      (w : Workflow)
      → Snapshot row w
      → is_claimed w after.id row.transition_count ≡ true
      → Extends w (written w after after.transitions) added
  claim_row w s c =
      written-Extends row w (rebuilt row.workflow_id row.network row.state) after added x refl
        (none, idle)
        (claimed_state row w s (subst (λ i. is_claimed w i row.transition_count ≡ true) x.id c))

  write_claimed-GoesOn :
      (store : List Workflow)
      → All (Snapshot row) store
      → GoesOn store (write_claimed store after after.transitions row.transition_count).0
  unfolding write_claimed
  write_claimed-GoesOn [] s = tt
  write_claimed-GoesOn (w ∷ ws) (s, ss) =
      elim (Bool-cases (is_claimed w after.id row.transition_count)) [
        | inl c ↦ rw c ((added, claim_row w s c), GoesOn-refl ws)
        | inr n ↦ rw n (([], Extends-refl w), write_claimed-GoesOn ws ss)
      ]

  pub advance-GoesOn :
      (store : List Workflow) (ts : List Transition)
      → ts ≡ after.transitions
      → All (Snapshot row) store
      → GoesOn store (advance_workflow_from_chain store after ts row.transition_count).0
  unfolding advance_workflow_from_chain
  advance-GoesOn store [] e s = GoesOn-refl store
  advance-GoesOn store (t ∷ ts) e s = rw e (write_claimed-GoesOn store s)
