-- ===== src/Workflow/Route.antt =====
-- Every operation of packages/core/src/workflow.ts appends to the history a legal route through the
-- table of allowed moves, and changes nothing else of the workflow's identity.
use capital_os.Shared.{
  Option, some, Text, Bool, true, false, Option, some, List, [], ◌∷◌, ◌++◌, append_assoc,
  append-nil, ◌≡◌, refl, sym, ◌∙◌, if◌then◌else◌, Bool-cases, inl, inr,
}
use capital_os.Errors.{ErrorCode, Thrown, Result, ok, err, throw_if, ◌>>=◌, ◌>>◌}
use capital_os.Workflow.States.{
  WorkflowState, step_confirmed, next_action_for, state_eq, Transition, Workflow, is_in, allowed,
  next_action_for,
}
use capital_os.Workflow.Moves.{
  Cause, moved, entry, ReconciliationResult, UnknownBroadcastResolution, transition,
  assert_write_allowed, record_rejection, record_broadcast, record_unknown_broadcast,
  resolve_unknown_broadcast, begin_confirming, mark_step_confirmed, begin_reconciling,
  finish_reconciliation, complete_from_reconciliation, record_provider_outage,
  apply_reorg_to_workflow, resume_after_reorg, found, absent,
}
use capital_os.Workflow.Calls.{
  Call, move, reject, broadcast, unknown, confirm, mark, outage, reorg, resume, settle, reconcile,
  finish, perform, perform_all, kept,
}

-- The entries lead from one state to another, each by an allowed move from where the last ended.
abbrev pub Route : WorkflowState → List Transition → WorkflowState → Type 0
Route s [] u = s ≡ u
Route s (t ∷ ts) u = (t.from ≡ s) × (is_in (allowed s) t.to ≡ true) × Route t.to ts u

pub Route-append :
    (s u v : WorkflowState) (xs ys : List Transition)
    → Route s xs u
    → Route u ys v
    → Route s (xs ++ ys) v
Route-append s u v [] ys r q = rw r q
Route-append s u v (t ∷ ts) ys r q = (r.0, r.1, Route-append t.to u v ts ys r.2 q)

-- The next action is the one that the state asks for, given some evidence or none.
abbrev pub IsCurrent : Workflow → Type 0
IsCurrent w = (e : Option Text) × (w.next_action ≡ next_action_for w.state e)

-- `w'` is `w` after the moves `added`: the history is extended, and the identity is kept.
pub record Extends (w w' : Workflow) (added : List Transition) : Type 0 where
  pub history : w'.transitions ≡ w.transitions ++ added
  pub route : Route w.state added w'.state
  pub id : w'.id ≡ w.id
  pub network : w'.network ≡ w.network
  pub key : w'.idempotency_key ≡ w.idempotency_key
  pub plan : w'.plan_id ≡ w.plan_id
  pub current : IsCurrent w → IsCurrent w'

-- What a call on `w` may come to: a workflow that extends it by legal moves, or an exception.
pub data Legal (w : Workflow) : Result Workflow → Type 0 where
  moves : {v : Workflow} (added : List Transition) → Extends w v added → Legal w (ok v)
  throws : {e : Thrown} → Legal w (err e)

pub Extends-refl : (w : Workflow) → Extends w w []
Extends-refl w = record {
  history = sym (append-nil w.transitions);
  route = refl;
  id = refl;
  network = refl;
  key = refl;
  plan = refl;
  current = λ h. h;
}

pub Extends-trans :
    {u v w : Workflow} (xs ys : List Transition)
    → Extends u v xs
    → Extends v w ys
    → Extends u w (xs ++ ys)
Extends-trans {u} {v} {w} xs ys p q = record {
  history = cc (p.history, q.history, append_assoc u.transitions xs ys);
  route = Route-append u.state v.state w.state xs ys p.route q.route;
  id = q.id ∙ p.id;
  network = q.network ∙ p.network;
  key = q.key ∙ p.key;
  plan = q.plan ∙ p.plan;
  current = λ h. q.current (p.current h);
}

pub moved-Extends :
    (now : Text) (w : Workflow) (to : WorkflowState) (c : Cause)
    → is_in (allowed w.state) to ≡ true
    → Extends w (moved now w to c) (entry now w.state to c ∷ [])
moved-Extends now w to c h = record {
  history = refl;
  route = (refl, h, refl);
  id = refl;
  network = refl;
  key = refl;
  plan = refl;
  current = λ _. (some c.evidence, refl);
}

pub transition-Legal :
    (now : Text) (w : Workflow) (to : WorkflowState) (c : Cause) → Legal w (transition now w to c)
unfolding transition
transition-Legal now w to c = elim (Bool-cases (is_in (allowed w.state) to)) [
  | inl h ↦ rw h (moves _ (moved-Extends now w to c h))
  | inr h ↦ rw h throws
]

-- A guard before an operation keeps it legal.
pub throw_if-Legal :
    (b : Bool) (code : ErrorCode) (message : Text) (w : Workflow) (r : Result Workflow)
    → Legal w r
    → Legal w (throw_if b code message >> r)
throw_if-Legal true code message w r h = throws
throw_if-Legal false code message w r h = h

if-Legal :
    (b : Bool) (w : Workflow) (r q : Result Workflow)
    → Legal w r
    → Legal w q
    → Legal w (if b then r else q)
if-Legal true w r q h k = h
if-Legal false w r q h k = k

matched-Legal :
    (b : Bool) (w : Workflow) (r q : Result Workflow)
    → Legal w r
    → Legal w q
    → Legal w (elim b [ false ↦ r | true ↦ q ])
matched-Legal true w r q h k = k
matched-Legal false w r q h k = h

module _ (now : Text) (w : Workflow) where
  record_rejection-Legal : (e : Text) → Legal w (record_rejection now w e)
  unfolding record_rejection assert_write_allowed
  record_rejection-Legal e = search (throw_if-Legal, transition-Legal)

  record_broadcast-Legal : (e : Text) → Legal w (record_broadcast now w e)
  unfolding record_broadcast assert_write_allowed
  record_broadcast-Legal e = search (throw_if-Legal, transition-Legal)

  record_unknown_broadcast-Legal : (e : Text) → Legal w (record_unknown_broadcast now w e)
  unfolding record_unknown_broadcast
  record_unknown_broadcast-Legal e = search (throw_if-Legal, transition-Legal)

  resolve_unknown_broadcast-Legal :
      (r : UnknownBroadcastResolution) → Legal w (resolve_unknown_broadcast now w r)
  unfolding resolve_unknown_broadcast
  resolve_unknown_broadcast-Legal (found txid) = search (throw_if-Legal, transition-Legal)
  resolve_unknown_broadcast-Legal (absent e) = search (throw_if-Legal, transition-Legal)

  begin_confirming-Legal : (e : Text) → Legal w (begin_confirming now w e)
  unfolding begin_confirming
  begin_confirming-Legal e = search (throw_if-Legal, transition-Legal)

  mark_step_confirmed-Legal : (e : Text) → Legal w (mark_step_confirmed now w e)
  unfolding mark_step_confirmed
  mark_step_confirmed-Legal e = search (throw_if-Legal, transition-Legal)

  begin_reconciling-Legal : (e actor : Text) → Legal w (begin_reconciling now w e actor)
  unfolding begin_reconciling
  begin_reconciling-Legal e actor = search (throw_if-Legal, transition-Legal)

  resume_after_reorg-Legal : (e : Text) → Legal w (resume_after_reorg now w e)
  unfolding resume_after_reorg
  resume_after_reorg-Legal e = search (throw_if-Legal, transition-Legal)

  record_provider_outage-Legal : (e : Text) → Legal w (record_provider_outage now w e)
  unfolding record_provider_outage
  record_provider_outage-Legal e = search (throw_if-Legal, transition-Legal)

  apply_reorg-Legal : (e : Text) → Legal w (apply_reorg_to_workflow now w e)
  unfolding apply_reorg_to_workflow
  apply_reorg-Legal e =
      if-Legal _ w _ _ (moves [] (Extends-refl w))
        (if-Legal _ w _ _ (moves [] (Extends-refl w)) (transition-Legal now w _ _))

  finish-Legal :
      (r : ReconciliationResult) (actor : Text) → Legal w (finish_reconciliation now w r actor)
  unfolding finish_reconciliation
  finish-Legal r actor =
      throw_if-Legal _ _ _ w _
        (matched-Legal r.matched w _ _ (transition-Legal now w _ _) (transition-Legal now w _ _))

after-Legal :
    {w v : Workflow} {r : Result Workflow} (xs : List Transition)
    → Extends w v xs
    → Legal v r
    → Legal w r
after-Legal xs p throws = throws
after-Legal xs p (moves ys q) = moves (xs ++ ys) (Extends-trans xs ys p q)

-- One operation after another.
pub then-Legal :
    (w : Workflow) (r : Result Workflow) (f : Workflow → Result Workflow)
    → Legal w r
    → ((v : Workflow) → Legal v (f v))
    → Legal w (r >>= f)
then-Legal w r f throws g = throws
then-Legal w r f (moves {v} xs p) g = after-Legal xs p (g v)

complete-Legal :
    (now now' : Text) (w : Workflow) (r : ReconciliationResult) (actor : Text)
    → Legal w (complete_from_reconciliation now now' w r actor)
unfolding complete_from_reconciliation
complete-Legal now now' w r actor =
    matched-Legal (state_eq w.state step_confirmed) w _ _ (finish-Legal now' w r actor) (
      then-Legal w _ _ (begin_reconciling-Legal now w r.evidence actor)
        (λ v. finish-Legal now' v r actor))

-- Every operation, on any workflow, throws or makes legal moves from it.
pub perform-Legal : (now : Text) (c : Call) (w : Workflow) → Legal w (perform now c w)
unfolding perform
perform-Legal now (move to c) w = transition-Legal now w to c
perform-Legal now (reject e) w = record_rejection-Legal now w e
perform-Legal now (broadcast txid) w = record_broadcast-Legal now w txid
perform-Legal now (unknown e) w = record_unknown_broadcast-Legal now w e
perform-Legal now (confirm e) w = begin_confirming-Legal now w e
perform-Legal now (mark e) w = mark_step_confirmed-Legal now w e
perform-Legal now (outage e) w = record_provider_outage-Legal now w e
perform-Legal now (reorg e) w = apply_reorg-Legal now w e
perform-Legal now (resume e) w = resume_after_reorg-Legal now w e
perform-Legal now (settle r) w = resolve_unknown_broadcast-Legal now w r
perform-Legal now (reconcile e actor) w = begin_reconciling-Legal now w e actor
perform-Legal now (finish r actor) w = complete-Legal now now w r actor

kept-Extends :
    {w u : Workflow} (r : Result Workflow)
    → Legal w r
    → ((ys : List Transition) × Extends (kept w r) u ys)
    → (zs : List Transition) × Extends w u zs
kept-Extends r throws t = t
kept-Extends r (moves xs p) (ys, q) = (xs ++ ys, Extends-trans xs ys p q)

-- Any sequence of calls, failed ones included, appends to the history entries that lead by allowed
-- moves from the state before to the state after, each from where the last ended. The earlier
-- history, the id, the network, the idempotency key and the plan stay as they were.
pub perform_all-Extends :
    (now : Text) (cs : List Call) (w : Workflow)
    → (added : List Transition) × Extends w (perform_all now cs w) added
unfolding perform_all
perform_all-Extends now [] w = ([], Extends-refl w)
perform_all-Extends now (c ∷ cs) w =
    kept-Extends _ (perform-Legal now c w) (perform_all-Extends now cs (kept w (perform now c w)))
