-- ===== src/BorrowSafety/Partial.antt =====
-- packages/core/src/borrowSafety.ts: what is kept of a plan that stops half way.
use capital_os.Shared.{
  Text, codes, text_eq, trim, ℤ, pos, leb_ℤ, ◌≤ℤ◌, ◌<ℤ◌, has, any, all, ◌≡◌, refl, ap, ◌∙◌, arith,
  Bool, true, false, ◌||◌, List, [], ◌∷◌, ◌++◌, All, Bool-cases, inl, inr,
}
use capital_os.Errors.{ok, throw, plan_invalid}
use capital_os.Workflow.States.{
  WorkflowState, step_confirmed, awaiting_signature, action_required, user_rejected, Transition,
  Workflow, state_eq, allowed, is_in,
}
use capital_os.Workflow.Moves.{Cause, transition, moved, because}
use capital_os.BorrowSafety.{
  Step, is_ready, unsigned_steps, has_confirmed_step, amount, settle_repay_amount,
  continue_after_confirmed_step, park_partial_completion,
}

-- A repayment that is settled is positive and no more than the debt; "max" settles the whole of a debt.
pub settled_within_debt :
    (requested : Text) (debt : ℤ)
    → ((paid : ℤ)
        → settle_repay_amount requested debt ≡ amount paid
        → (pos 0 <ℤ paid) × (paid ≤ℤ debt))
      × (text_eq (trim requested) (codes "max") ≡ true
          → pos 0 <ℤ debt
          → settle_repay_amount requested debt ≡ amount debt)
unfolding settle_repay_amount
settled_within_debt requested debt =
    ((λ paid h. (ground arith, ground arith)), (λ max h. ground arith))

all_given :
    (done ids : List Text) → all (λ id. has id done) ids ≡ true → All (λ id. has id done ≡ true) ids
all_given done [] h = tt
all_given done (id ∷ ids) h = (ground arith, all_given done ids (ground arith))

offered :
    (confirmed : List Text) (s : Step) (steps : List Step)
    → (is_ready confirmed s ≡ true
        → unsigned_steps (s ∷ steps) confirmed ≡ s ∷ unsigned_steps steps confirmed)
      × (is_ready confirmed s ≡ false
          → unsigned_steps (s ∷ steps) confirmed ≡ unsigned_steps steps confirmed)
unfolding unsigned_steps
offered confirmed s steps = ((λ e. ground arith), (λ e. ground arith))

-- Every step that is offered for signing is itself not confirmed, and everything it depends on is.
pub unsigned-ready :
    (confirmed : List Text) (steps : List Step)
    → All
        (λ (s : Step).
          (has s.id confirmed ≡ false) × All (λ id. has id confirmed ≡ true) s.depends_on)
        (unsigned_steps steps confirmed)
unfolding unsigned_steps
unsigned-ready confirmed [] = tt
unsigned-ready confirmed (s ∷ steps) = elim (Bool-cases (is_ready confirmed s)) [
  | inl e ↦ rw ((offered confirmed s steps).0 e) (
    (ground arith, all_given confirmed s.depends_on (ground arith)),
    unsigned-ready confirmed steps,
  )
  | inr e ↦ rw ((offered confirmed s steps).1 e) (unsigned-ready confirmed steps)
]

transition_ok :
    (now : Text) (w : Workflow) (to : WorkflowState) (c : Cause)
    → is_in (allowed w.state) to ≡ true
    → transition now w to c ≡ ok (moved now w to c)
unfolding transition
transition_ok now w to c h = ground arith

any-snoc :
    {A : Type 0} (test : A → Bool) (xs : List A) (x : A)
    → test x ≡ false
    → any test (xs ++ x ∷ []) ≡ any test xs
any-snoc test [] x h = rw h refl
any-snoc test (y ∷ ys) x h = ap (λ t. test y || t) (any-snoc test ys x h)

-- What parking a workflow leads to, by whether a step was confirmed before.
abbrev parked_state : Bool → WorkflowState
parked_state true = action_required
parked_state false = user_rejected

park_moves :
    (now : Text) (w : Workflow)
    → w.state ≡ awaiting_signature
    → (c : Cause) × (park_partial_completion now w
        ≡ ok (moved now w (parked_state (has_confirmed_step w)) c))
unfolding park_partial_completion
park_moves now w h = elim (Bool-cases (has_confirmed_step w)) [
  | inl e ↦ (
    because (codes "Confirmed collateral is kept; unsigned borrow was not submitted")
        (codes "wallet") (codes "partial:collateral-only"),
    ground (
      arith,
      transition_ok now w action_required
          (because (codes "Confirmed collateral is kept; unsigned borrow was not submitted")
            (codes "wallet") (codes "partial:collateral-only"))
          (rw h refl),
    ),
  )
  | inr e ↦ (
    because (codes "User rejected before any step confirmed") (codes "wallet") (codes "rejected"),
    ground (
      arith,
      transition_ok now w user_rejected
          (because (codes "User rejected before any step confirmed") (codes "wallet")
            (codes "rejected"))
          (rw h refl),
    ),
  )
]

confirmed_kept :
    (now : Text) (w : Workflow) (b : Bool) (c : Cause)
    → has_confirmed_step (moved now w (parked_state b) c) ≡ has_confirmed_step w
unfolding has_confirmed_step
confirmed_kept now w true c =
    any-snoc (λ (move : Transition). state_eq move.to step_confirmed) w.transitions _ refl
confirmed_kept now w false c =
    any-snoc (λ (move : Transition). state_eq move.to step_confirmed) w.transitions _ refl

other_state :
    (now : Text) (w : Workflow)
    → state_eq w.state awaiting_signature ≡ false
    → park_partial_completion now w
      ≡ throw plan_invalid (codes "partial completion can only park an unsigned remainder")
unfolding park_partial_completion
other_state now w h = ground arith

-- What parking does: it is refused unless a signature is awaited; else it always goes through, to a state that asks
-- the user to act when a step was confirmed before, and to a rejection when none was; and the confirmed step stays
-- on record.
pub park_keeps :
    (now : Text) (w : Workflow)
    → (state_eq w.state awaiting_signature ≡ false
        → park_partial_completion now w
          ≡ throw plan_invalid (codes "partial completion can only park an unsigned remainder"))
      × (w.state ≡ awaiting_signature
          → (w' : Workflow) × (park_partial_completion now w ≡ ok w')
            × (has_confirmed_step w ≡ true → w'.state ≡ action_required)
            × (has_confirmed_step w ≡ false → w'.state ≡ user_rejected)
            × (has_confirmed_step w' ≡ has_confirmed_step w))
park_keeps now w = (
  other_state now w,
  λ h.
      let (c, e) = park_moves now w h in
      (
        moved now w (parked_state (has_confirmed_step w)) c,
        e,
        (λ b. ap parked_state b),
        (λ b. ap parked_state b),
        confirmed_kept now w (has_confirmed_step w) c,
      ),
)

any-last :
    {A : Type 0} (test : A → Bool) (xs : List A) (x : A)
    → test x ≡ true
    → any test (xs ++ x ∷ []) ≡ true
any-last test [] x h = rw h refl
any-last test (y ∷ ys) x h = ground (arith, any-last test ys x h)

-- The two moves of `continueAfterConfirmedStep`.
abbrev confirmed_move : Text → Workflow → Workflow
confirmed_move now w =
    moved now w step_confirmed
      (because (codes "Plan step confirmed on chain") (codes "adapter") (codes "step-confirmed"))

abbrev awaiting_move : Text → Workflow → Workflow
awaiting_move now w =
    moved now w awaiting_signature (
      because (codes "Next plan step needs a signature") (codes "sdk") (codes "unsigned-remainder"))

confirmed_move-kept : (now : Text) (w : Workflow) → has_confirmed_step (confirmed_move now w) ≡ true
unfolding has_confirmed_step
confirmed_move-kept now w =
    any-last (λ (move : Transition). state_eq move.to step_confirmed) w.transitions _ refl

awaiting_move-kept :
    (now : Text) (w : Workflow) → has_confirmed_step (awaiting_move now w) ≡ has_confirmed_step w
unfolding has_confirmed_step
awaiting_move-kept now w =
    any-snoc (λ (move : Transition). state_eq move.to step_confirmed) w.transitions _ refl

first_move :
    (now : Text) (w : Workflow)
    → is_in (allowed w.state) step_confirmed ≡ true
    → transition now w step_confirmed
        (because (codes "Plan step confirmed on chain") (codes "adapter") (codes "step-confirmed"))
      ≡ ok (confirmed_move now w)
first_move now w h = transition_ok now w step_confirmed _ h

stops :
    (now now' : Text) (w : Workflow) (remaining : ℤ)
    → is_in (allowed w.state) step_confirmed ≡ true
    → leb_ℤ remaining (pos 0) ≡ true
    → continue_after_confirmed_step now now' w remaining ≡ ok (confirmed_move now w)
unfolding continue_after_confirmed_step
stops now now' w remaining h e = rw (first_move now w h, e) refl

goes_on :
    (now now' : Text) (w : Workflow) (remaining : ℤ)
    → is_in (allowed w.state) step_confirmed ≡ true
    → leb_ℤ remaining (pos 0) ≡ false
    → continue_after_confirmed_step now now' w remaining
      ≡ ok (awaiting_move now' (confirmed_move now w))
unfolding continue_after_confirmed_step
goes_on now now' w remaining h e =
    rw (first_move now w h, e) (transition_ok now' (confirmed_move now w) awaiting_signature _ refl)

-- A confirmed step, in a state from which that move is allowed, always goes through: the workflow then stands at the
-- confirmed step if nothing is left to sign, and awaits a signature if something is, with the step on record either way.
pub continue_keeps :
    (now now' : Text) (w : Workflow) (remaining : ℤ)
    → is_in (allowed w.state) step_confirmed ≡ true
    → (w' : Workflow) × (continue_after_confirmed_step now now' w remaining ≡ ok w')
      × (remaining ≤ℤ pos 0 → w'.state ≡ step_confirmed)
      × (pos 0 <ℤ remaining → w'.state ≡ awaiting_signature)
      × (has_confirmed_step w' ≡ true)
continue_keeps now now' w remaining h = elim (Bool-cases (leb_ℤ remaining (pos 0))) [
  | inl e ↦ (
    confirmed_move now w,
    stops now now' w remaining h e,
    (λ l. refl),
    (λ l. absurd (ground arith)),
    confirmed_move-kept now w,
  )
  | inr e ↦ (
    awaiting_move now' (confirmed_move now w),
    goes_on now now' w remaining h e,
    (λ l. absurd (ground arith)),
    (λ l. refl),
    awaiting_move-kept now' (confirmed_move now w) ∙ confirmed_move-kept now w,
  )
]
