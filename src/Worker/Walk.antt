-- ===== src/Worker/Walk.antt =====
-- apps/worker/src/confirmations.ts: the walk through the states that were decided never throws.
use capital_os.Shared.{
  ℕ, ◌+◌, Text, codes, Bool, true, false, not, ◌||◌, ◌&&◌, List, [], ◌∷◌, map, ◌≡◌, refl, ap, inl,
  inr, ◌⊎◌, arith, Bool-cases, if◌then◌else◌, Option, none, some,
}
use mathlib.Core.Path.{subst}
use capital_os.Errors.{ok}
use capital_os.Workflow.States.{
  WorkflowState, awaiting_signature, submitted, confirming, step_confirmed, action_required,
  reorged, failed, is_in, state_eq, Transition, Workflow, allowed,
}
use capital_os.Workflow.Moves.{
  Cause, because, moved, entry, transition, begin_confirming, mark_step_confirmed,
  apply_reorg_to_workflow,
}
use capital_os.Workflow.Route.{Extends, Extends-refl, Extends-trans, moved-Extends}
use capital_os.Worker.Confirmations.{
  TransactionEvidence, ConfirmationInput, ConfirmationOutcome, confirmation_decision, included,
  executed, transaction_decision, unmoved, mempool, is_success, is_pending, is_aborted, is_dropped,
  is_submitted, is_ahead, confirmation_move, apply_confirmation,
}

-- What a walk may do next.
abbrev can_follow : WorkflowState → WorkflowState → Bool
can_follow submitted t = is_in (confirming ∷ failed ∷ action_required ∷ reorged ∷ []) t
can_follow confirming t = is_in (step_confirmed ∷ failed ∷ action_required ∷ reorged ∷ []) t
can_follow step_confirmed t = state_eq t awaiting_signature
can_follow _ t = false

abbrev IsWalk : WorkflowState → List WorkflowState → Type 0
IsWalk s [] = Unit {0}
IsWalk s (t ∷ ts) = (can_follow s t ≡ true) × IsWalk t ts

follows_allowed : (s t : WorkflowState) → can_follow s t ≡ true → is_in (allowed s) t ≡ true
follows_allowed s t h = ground arith

-- What the worker gives as the cause of a move.
abbrev cause_of : Text → WorkflowState → Cause
cause_of e confirming = because (codes "Waiting for canonical confirmation") (codes "worker") e
cause_of e step_confirmed = because (codes "Plan step confirmed on chain") (codes "worker") e
cause_of e reorged = because (codes "Canonical chain evidence was rewound") (codes "ingestion") e
cause_of e awaiting_signature =
    because (codes "Step confirmed; the next plan step is ready to sign") (codes "worker") e
cause_of e failed = because (codes "Transaction reverted on chain") (codes "worker") e
cause_of e _ = because (codes "Transaction left the mempool without executing") (codes "worker") e

-- A move that may come next goes through.
confirmation_move_goes :
    (now e : Text) (w : Workflow) (s t : WorkflowState)
    → w.state ≡ s
    → can_follow s t ≡ true
    → confirmation_move now w e t ≡ ok (moved now w t (cause_of e t))
unfolding confirmation_move begin_confirming mark_step_confirmed apply_reorg_to_workflow transition
confirmation_move_goes now e w submitted t k h = ground arith
confirmation_move_goes now e w confirming t k h = ground arith
confirmation_move_goes now e w step_confirmed t k h = ground arith
confirmation_move_goes now e w s t k h = absurd (ground arith)

-- A walk goes through to its end, and the history grows by one entry for each of its states.
IsWalk-goes :
    (clock : ℕ → Text) (n : ℕ) (e : Text) (w : Workflow) (ts : List WorkflowState)
    → IsWalk w.state ts
    → (w' : Workflow) × (added : List Transition) × (apply_confirmation clock n w ts e ≡ ok w')
      × Extends w w' added
      × (map (λ t. t.to) added ≡ ts)
unfolding apply_confirmation
IsWalk-goes clock n e w [] k = (w, [], refl, Extends-refl w, refl)
IsWalk-goes clock n e w (t ∷ ts) (k, ks) =
    let c = cause_of e t in
    let (w', added, goes, extends, states) =
      IsWalk-goes clock (n + 1) e (moved (clock n) w t c) ts ks in
    let first : Extends w (moved (clock n) w t c) (entry (clock n) w.state t c ∷ []) =
      moved-Extends (clock n) w t c (follows_allowed w.state t k) in
    (
      w',
      entry (clock n) w.state t c ∷ added,
      rw (confirmation_move_goes (clock n) e w w.state t refl k) goes,
      Extends-trans _ added first extends,
      ap (λ l. t ∷ l) states,
    )

last-IsWalk :
    (final : Bool)
    → IsWalk confirming (step_confirmed ∷ (if final then [] else awaiting_signature ∷ []))
last-IsWalk true = (refl, tt)
last-IsWalk false = (refl, (refl, tt))

pub waiting_cases :
    (s : WorkflowState)
    → not (is_submitted s) && not (state_eq s confirming) ≡ false
    → (s ≡ submitted) ⊎ (s ≡ confirming)
waiting_cases submitted h = inl refl
waiting_cases confirming h = inr refl
waiting_cases s h = absurd (ground arith)

included-IsWalk :
    (input : ConfirmationInput) (height : ℕ) (s : WorkflowState)
    → input.state ≡ s
    → not (is_submitted s) && not (state_eq s confirming) ≡ false
    → IsWalk s (included input height).states
unfolding included
included-IsWalk input height submitted e h =
    elim (Bool-cases (is_ahead input.checkpoint_height height)) [
      | inl ahead ↦ rw (ahead, e) (refl, last-IsWalk input.is_final_step)
      | inr behind ↦ rw (behind, e) (refl, tt)
    ]
included-IsWalk input height confirming e h =
    elim (Bool-cases (is_ahead input.checkpoint_height height)) [
      | inl ahead ↦ rw (ahead, e) (last-IsWalk input.is_final_step)
      | inr behind ↦ rw (behind, e) tt
    ]
included-IsWalk input height s e h = absurd (ground arith)

abbrev Waiting : WorkflowState → Type 0
Waiting s = not (is_submitted s) && not (state_eq s confirming) ≡ false

ending_moves :
    (s t : WorkflowState)
    → Waiting s
    → is_in (failed ∷ action_required ∷ reorged ∷ []) t ≡ true
    → can_follow s t ≡ true
ending_moves submitted t w h = ground arith
ending_moves confirming t w h = ground arith
ending_moves s t w h = absurd (ground arith)

executed-IsWalk :
    (input : ConfirmationInput) (tx : TransactionEvidence) (height : ℕ)
    → Waiting input.state
    → IsWalk input.state (executed input tx height).states
unfolding executed
executed-IsWalk input tx height w = elim (Bool-cases (is_aborted tx.status)) [
  | inl a ↦ rw a (ending_moves input.state failed w refl, tt)
  | inr na ↦ elim (Bool-cases (is_dropped tx.status)) [
    | inl d ↦ rw (na, d) (ending_moves input.state action_required w refl, tt)
    | inr nd ↦ elim (Bool-cases (is_success tx.status)) [
      | inr ns ↦ rw (na, nd, ns) tt
      | inl s ↦ elim (Bool-cases (not tx.canonical || not input.block_still_canonical)) [
        | inl n ↦ rw (na, nd, s, n) (ending_moves input.state reorged w refl, tt)
        | inr c ↦ rw (na, nd, s, c) (included-IsWalk input height input.state refl w)
      ]
    ]
  ]
]

in_block-IsWalk :
    (input : ConfirmationInput) (tx : TransactionEvidence) (h : Option ℕ)
    → Waiting input.state
    → IsWalk input.state
        (elim h as (λ _. ConfirmationOutcome) [
          | none ↦ unmoved mempool
          | some height ↦ if is_pending tx.status then unmoved mempool else executed input tx height
        ]).states
in_block-IsWalk input tx none w = tt
in_block-IsWalk input tx (some height) w = elim (Bool-cases (is_pending tx.status)) [
  | inl p ↦ rw p tt
  | inr n ↦ rw n (executed-IsWalk input tx height w)
]

transaction_decision-IsWalk :
    (input : ConfirmationInput) (t : Option TransactionEvidence)
    → Waiting input.state
    → IsWalk input.state (transaction_decision input t).states
unfolding transaction_decision
transaction_decision-IsWalk input none w = tt
transaction_decision-IsWalk input (some tx) w = in_block-IsWalk input tx tx.block_height w

decision-IsWalk :
    (input : ConfirmationInput) → IsWalk input.state (confirmation_decision input).states
unfolding confirmation_decision
decision-IsWalk input =
    elim (Bool-cases (not (is_submitted input.state) && not (state_eq input.state confirming))) [
      | inl h ↦ rw h tt
      | inr h ↦ rw h (transaction_decision-IsWalk input input.transaction h)
    ]

-- Whatever the evidence, the moves that are decided for the state that a workflow is in go through, none
-- of them throws: they extend the workflow by a legal route that passes exactly the decided states, in
-- their order, and keep its identity.
pub apply_confirmation-Extends :
    (clock : ℕ → Text) (evidence : Text) (w : Workflow) (input : ConfirmationInput)
    → input.state ≡ w.state
    → let states = (confirmation_decision input).states in
      (w' : Workflow) × (added : List Transition) × (apply_confirmation clock 0 w states evidence
        ≡ ok w')
      × Extends w w' added
      × (map (λ t. t.to) added ≡ states)
apply_confirmation-Extends clock evidence w input e =
    IsWalk-goes clock 0 evidence w (confirmation_decision input).states
      (subst (λ s. IsWalk s (confirmation_decision input).states) e (decision-IsWalk input))
