-- ===== src/Worker/Justified.antt =====
-- What apps/worker/src/confirmations.ts must have transaction_decision for each move that it decides.
use capital_os.Shared.{
  ℕ, ◌<◌, codes, Bool, true, false, not, ◌||◌, ◌&&◌, Option, none, some, [], ◌∷◌, ◌++◌, ◌≡◌, refl,
  ◌⊎◌, inl, inr, arith, Bool-cases, All, if◌then◌else◌,
}
use capital_os.Workflow.States.{
  WorkflowState, awaiting_signature, submitted, confirming, step_confirmed, action_required,
  reorged, failed, state_eq,
}
use capital_os.Worker.Confirmations.{
  TransactionEvidence, ConfirmationInput, ConfirmationOutcome, confirmation_decision, included,
  executed, transaction_decision, is_success, unmoved, mempool, is_pending, is_aborted, is_dropped,
  is_submitted, is_ahead,
}

-- The transaction succeeded in a block that both the provider and the stored chain hold canonical.
abbrev pub Included : ConfirmationInput → TransactionEvidence → Type 0
Included input tx =
    (is_success tx.status ≡ true) × (tx.canonical ≡ true) × (input.block_still_canonical ≡ true)

-- The stored chain reaches above the block of the transaction.
abbrev pub Buried : ConfirmationInput → ℕ → Type 0
Buried input height =
    (checkpoint : ℕ) × (input.checkpoint_height ≡ some checkpoint) × (height < checkpoint)

-- What a move rests on.
abbrev pub Grounds : ConfirmationInput → TransactionEvidence → ℕ → WorkflowState → Type 0
Grounds input tx height confirming = Included input tx × (input.state ≡ submitted)
Grounds input tx height step_confirmed = Included input tx × Buried input height
Grounds input tx height awaiting_signature =
    Included input tx × Buried input height × (input.is_final_step ≡ false)
Grounds input tx height failed = is_aborted tx.status ≡ true
Grounds input tx height action_required = is_dropped tx.status ≡ true
Grounds input tx height reorged =
    (is_success tx.status ≡ true) × (tx.canonical && input.block_still_canonical ≡ false)
Grounds input tx height _ = ⊥

abbrev pub Grounded : ConfirmationInput → TransactionEvidence → ℕ → ConfirmationOutcome → Type 0
Grounded input tx height outcome = All (Grounds input tx height) outcome.states

submitted_lem : (s : WorkflowState) → is_submitted s ≡ true → s ≡ submitted
submitted_lem s h = ground arith

ahead_lem :
    (c : Option ℕ) (height : ℕ) → is_ahead c height ≡ true → (n : ℕ) × (c ≡ some n) × (height < n)
ahead_lem none height h = absurd (ground arith)
ahead_lem (some n) height h = (n, refl, ground arith)

module _ (input : ConfirmationInput) (tx : TransactionEvidence) (height : ℕ) where
  last_move :
      Included input tx
      → Buried input height
      → (final : Bool) → input.is_final_step ≡ final
      → All
          (Grounds input tx height)
          (step_confirmed ∷ (if final then [] else awaiting_signature ∷ []))
  last_move i b true h = ((i, b), tt)
  last_move i b false h = ((i, b), ((i, b, h), tt))

  Buried-Grounded :
      Included input tx
      → Buried input height
      → (first : Bool) → is_submitted input.state ≡ first
      → All (Grounds input tx height) (
          (if first then confirming ∷ [] else [])
          ++ step_confirmed ∷ (if input.is_final_step then [] else awaiting_signature ∷ []))
  Buried-Grounded i b true h =
      ((i, submitted_lem input.state h), last_move i b input.is_final_step refl)
  Buried-Grounded i b false h = last_move i b input.is_final_step refl

  included-Grounded : Included input tx → Grounded input tx height (included input height)
  unfolding included
  included-Grounded i = elim (Bool-cases (is_ahead input.checkpoint_height height)) [
    | inl ahead ↦ rw ahead (
        Buried-Grounded i (ahead_lem input.checkpoint_height height ahead)
          (is_submitted input.state) refl)
    | inr behind ↦ elim (Bool-cases (is_submitted input.state)) [
      | inl h ↦ rw (behind, h) ((i, submitted_lem input.state h), tt)
      | inr h ↦ rw (behind, h) tt
    ]
  ]

  canonical-Grounded :
      is_success tx.status ≡ true
      → (c d : Bool) → tx.canonical ≡ c
      → input.block_still_canonical ≡ d
      → Grounded input tx height (
          if not c || not d
          then record {
            states = reorged ∷ [];
            reason = codes "the block holding the transaction is no longer canonical";
          }
          else included input height)
  canonical-Grounded s true true hc hd = included-Grounded (s, hc, hd)
  canonical-Grounded s true false hc hd = ((s, ground arith), tt)
  canonical-Grounded s false d hc hd = ((s, ground arith), tt)

  executed-Grounded : Grounded input tx height (executed input tx height)
  unfolding executed
  executed-Grounded = elim (Bool-cases (is_aborted tx.status)) [
    | inl a ↦ rw a (a, tt)
    | inr na ↦ elim (Bool-cases (is_dropped tx.status)) [
      | inl d ↦ rw (na, d) (d, tt)
      | inr nd ↦ elim (Bool-cases (is_success tx.status)) [
        | inl s ↦
            rw (na, nd, s) (canonical-Grounded s tx.canonical input.block_still_canonical refl refl)
        | inr ns ↦ rw (na, nd, ns) tt
      ]
    ]
  ]

-- What a decision rests on: it moves nothing, or the provider knows the transaction, which is in a
-- block, and every move has its grounds there.
abbrev pub Decided : ConfirmationInput → ConfirmationOutcome → Type 0
Decided input outcome =
    (outcome.states ≡ [])
    ⊎ ((tx : TransactionEvidence) × (height : ℕ) × (input.transaction ≡ some tx)
        × (tx.block_height ≡ some height)
        × (is_pending tx.status ≡ false)
        × Grounded input tx height outcome)

in_block :
    (input : ConfirmationInput) (tx : TransactionEvidence)
    → input.transaction ≡ some tx
    → (h : Option ℕ) → tx.block_height ≡ h
    → Decided input (elim h [
      | none ↦ unmoved mempool
      | some height ↦ if is_pending tx.status then unmoved mempool else executed input tx height
    ])
in_block input tx e none k = inl refl
in_block input tx e (some height) k = elim (Bool-cases (is_pending tx.status)) [
  | inl p ↦ rw p (inl refl)
  | inr n ↦ rw n (inr (tx, height, e, k, n, executed-Grounded input tx height))
]

transaction_decision-Decided :
    (input : ConfirmationInput) (t : Option TransactionEvidence)
    → input.transaction ≡ t
    → Decided input (transaction_decision input t)
unfolding transaction_decision
transaction_decision-Decided input none e = inl refl
transaction_decision-Decided input (some tx) e = in_block input tx e tx.block_height refl

-- A decision moves nothing, or the provider knows the transaction, which is in a block and not
-- pending, and every move has its grounds: a step is confirmed only on a transaction that succeeded in
-- a block that is canonical for the provider and the stored chain, with a stored block above it; the
-- next signature is asked for only then and when a step is left; a workflow fails only when the
-- transaction was reverted, asks for action only when it was dropped, and is taken back only when a
-- successful one is not in a canonical block. No other state is ever decided.
pub confirmation_decision-Decided :
    (input : ConfirmationInput) → Decided input (confirmation_decision input)
unfolding confirmation_decision
confirmation_decision-Decided input =
    elim (Bool-cases (not (is_submitted input.state) && not (state_eq input.state confirming))) [
      | inl h ↦ rw h (inl refl)
      | inr h ↦ rw h (transaction_decision-Decided input input.transaction refl)
    ]
