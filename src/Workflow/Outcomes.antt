-- ===== src/Workflow/Outcomes.antt =====
-- What the table of moves in packages/core/src/workflow.ts guarantees of whole runs: completion
-- only after reconciliation, no blind retry of an uncertain write, dead states, and a way on.
use capital_os.Shared.{
  Text, Bool, true, false, List, [], ◌∷◌, ◌++◌, append-nil, ◌≡◌, refl, sym, ◌∙◌, ap, arith,
  Bool-cases, ◌⊎◌, inl, inr, not, any,
}
use capital_os.Network.{StacksNetwork}
use capital_os.Workflow.States.{
  WorkflowState, draft, quoted, awaiting_signature, broadcast_unknown, step_confirmed, reconciling,
  action_required, reorged, completed, expired, user_rejected, failed, Transition, Workflow, is_in,
  allowed, can_submit_write,
}
use capital_os.Workflow.Moves.{create_workflow}
use capital_os.Workflow.Calls.{Call, perform_all}
use capital_os.Workflow.Route.{Route, Extends, perform_all-Extends}

into_completed : (s : WorkflowState) → is_in (allowed s) completed ≡ true → s ≡ reconciling
into_completed s h = ground arith

Route-completed :
    (s u : WorkflowState) (t : Transition) (ts : List Transition)
    → Route s (t ∷ ts) u
    → u ≡ completed
    → (pre : List Transition) × (last : Transition) × (t ∷ ts ≡ pre ++ last ∷ [])
      × (last.from ≡ reconciling)
      × (last.to ≡ completed)
Route-completed s u t [] r e = ([], t, refl, r.0 ∙ into_completed s (rw (r.2 ∙ e) at r.1), r.2 ∙ e)
Route-completed s u t (t' ∷ ts) r e =
    let (pre, last, split, from, to) = Route-completed t.to u t' ts r.2 e in
    (t ∷ pre, last, ap (λ l. t ∷ l) split, from, to)

-- A new workflow that any sequence of calls has brought to COMPLETED got there by its last recorded
-- move, from RECONCILING: no other state leads to completion.
pub completed-from-reconciling :
    (now : Text) (cs : List Call) (id : Text) (network : StacksNetwork) (key : Text)
    → let w = perform_all now cs (create_workflow id network key) in
      w.state ≡ completed
      → (pre : List Transition) × (last : Transition) × (w.transitions ≡ pre ++ last ∷ [])
        × (last.from ≡ reconciling)
        × (last.to ≡ completed)
unfolding create_workflow
completed-from-reconciling now cs id network key e =
    ended (perform_all-Extends now cs (create_workflow id network key)).0
      (perform_all-Extends now cs (create_workflow id network key)).1
  where
    w : Workflow
    w = perform_all now cs (create_workflow id network key)

    ended :
        (added : List Transition)
        → Extends (create_workflow id network key) w added
        → (pre : List Transition) × (last : Transition) × (w.transitions ≡ pre ++ last ∷ [])
          × (last.from ≡ reconciling)
          × (last.to ≡ completed)
    ended [] x = cc (x.route, e)
    ended (t ∷ ts) x =
        let (pre, last, split, from, to) = Route-completed draft w.state t ts x.route e in
        (pre, last, x.history ∙ split, from, to)

abbrev uncertain : WorkflowState → Bool
uncertain s =
    not (is_in (draft ∷ quoted ∷ awaiting_signature ∷ step_confirmed ∷ action_required ∷ []) s)

abbrev pub is_checkpoint : WorkflowState → Bool
is_checkpoint = is_in (step_confirmed ∷ action_required ∷ [])

uncertain_move :
    (s t : WorkflowState)
    → uncertain s ≡ true
    → is_in (allowed s) t ≡ true
    → is_checkpoint t ≡ false
    → uncertain t ≡ true
uncertain_move s t u a = ground arith

Route-uncertain :
    (s u : WorkflowState) (ts : List Transition)
    → Route s ts u
    → uncertain s ≡ true
    → any (λ t. is_checkpoint t.to) ts ≡ false
    → uncertain u ≡ true
Route-uncertain s u [] r h n = rw r at h
Route-uncertain s u (t ∷ ts) r h n =
    Route-uncertain t.to u ts r.2 (uncertain_move s t.to h r.1 (ground (arith, n)))
      (ground (arith, n))

uncertain_no_write : (u : WorkflowState) → uncertain u ≡ true → can_submit_write u ≡ false
unfolding can_submit_write
uncertain_no_write u h = ground arith

-- After an uncertain broadcast, no sequence of calls makes a write possible again unless the history
-- that it adds passes a confirmed step or a state that asks the user to act.
pub no_blind_retry :
    (now : Text) (cs : List Call) (w : Workflow)
    → w.state ≡ broadcast_unknown
    → let w' = perform_all now cs w in
      can_submit_write w'.state ≡ true
      → (added : List Transition) × (w'.transitions ≡ w.transitions ++ added)
        × (any (λ t. is_checkpoint t.to) added ≡ true)
no_blind_retry now cs w e ready =
    let (added, x) = perform_all-Extends now cs w in
    (
      added,
      x.history,
      elim (Bool-cases (any (λ t. is_checkpoint t.to) added)) [
        | inl yes_it_does ↦ yes_it_does
        | inr none_does ↦ cc (
          ready,
          uncertain_no_write _ (Route-uncertain _ _ added x.route (ground (arith, e)) none_does),
        )
      ],
    )

abbrev pub dead : WorkflowState → Bool
dead = is_in (expired ∷ user_rejected ∷ failed ∷ [])

dead_move : (s t : WorkflowState) → dead s ≡ true → is_in (allowed s) t ≡ false
dead_move s t d = ground arith

Route-dead : (s u : WorkflowState) (ts : List Transition) → dead s ≡ true → Route s ts u → ts ≡ []
Route-dead s u [] d r = refl
Route-dead s u (t ∷ ts) d r = cc (dead_move s t.to d, r.1)

-- An expired, rejected or failed workflow keeps its state and its history, whatever is called.
pub dead_absorbs :
    (now : Text) (cs : List Call) (w : Workflow)
    → dead w.state ≡ true
    → ((perform_all now cs w).state ≡ w.state)
      × ((perform_all now cs w).transitions ≡ w.transitions)
dead_absorbs now cs w d =
    let (added, x) = perform_all-Extends now cs w in
    let none_added = Route-dead w.state (perform_all now cs w).state added d x.route in
    (sym (rw none_added at x.route), x.history ∙ rw none_added (append-nil w.transitions))

-- What can follow a completed workflow: nothing, or a first move to REORGED.
completed_move : (t : WorkflowState) → is_in (allowed completed) t ≡ true → t ≡ reorged
completed_move t h = ground arith

-- A completed workflow is reopened only by a reorganisation of the chain: any sequence of calls
-- leaves its state and history alone, or the first move that it adds is to REORGED.
pub completed_reopens :
    (now : Text) (cs : List Call) (w : Workflow)
    → w.state ≡ completed
    → let w' = perform_all now cs w in
      ((w'.state ≡ completed) × (w'.transitions ≡ w.transitions))
      ⊎ ((t : Transition) × (ts : List Transition) × (w'.transitions ≡ w.transitions ++ t ∷ ts)
          × (t.to ≡ reorged))
completed_reopens now cs w e =
    reopened (perform_all-Extends now cs w).0 (perform_all-Extends now cs w).1
  where
    w' : Workflow
    w' = perform_all now cs w

    reopened :
        (added : List Transition)
        → Extends w w' added
        → ((w'.state ≡ completed) × (w'.transitions ≡ w.transitions))
          ⊎ ((t : Transition) × (ts : List Transition) × (w'.transitions ≡ w.transitions ++ t ∷ ts)
              × (t.to ≡ reorged))
    reopened [] x = inl (sym x.route ∙ e, x.history ∙ append-nil w.transitions)
    reopened (t ∷ ts) x = inr (t, ts, x.history, completed_move t.to (rw e at x.route.1))
