-- ===== src/Sbtc/Evaluate.antt =====
-- packages/adapters/src/sbtc/withdrawalLifecycle.ts: the view of a withdrawal, from all its evidence. The
-- tables of the registry are an argument.
use capital_os.Shared.{
  ℕ, zero, ltb, Text, codes, is_empty, ℤ, ◌+ℤ◌, ◌-ℤ◌, show_ℤ, Bool, true, false, not, ◌&&◌, ◌||◌,
  Option, none, some, List, ◌++◌, if◌then◌else◌,
}
use capital_os.Errors.{Result, ok, ◌>>=◌, ◌>>◌}
use capital_os.Amounts.{parse_quantity}
use capital_os.Registry.Deployments.{Tables}
use capital_os.Sbtc.Fields.{safe_uint, uint_string, txid, withdrawal_recipient_script, note_if}
use capital_os.Sbtc.Withdrawal.{
  SbtcWithdrawalMetadata, EmilyWithdrawal, CanonicalWithdrawalRequest,
  CanonicalWithdrawalCompletion, BitcoinPayoutObservation, SbtcWithdrawalState, unavailable,
  request_confirming, signer_processing, signer_rejection_pending, payout_confirming, rejected,
  reconciliation_failed, reconciled, WithdrawalAction, wait, contact_support, complete, nothing,
  Availability, WithdrawalContracts, RequestStatus, WithdrawalAccounting, SbtcWithdrawalLifecycle,
  WithdrawalEvidence,
}
use capital_os.Sbtc.Mismatches.{validate_metadata}
use capital_os.Sbtc.Warnings.{
  emily_is, is_rejected, is_some, mismatch_warnings, sbtc_withdrawal_availability,
  sbtc_withdrawal_transfer_id, status_confirmed, status_failed, status_open, withdrawal_contracts,
}

abbrev pub confirmations_of : Option BitcoinPayoutObservation → Result (Option ℕ)
confirmations_of none = ok none
confirmations_of (some p) =
    safe_uint p.confirmations (codes "payout.confirmations") >>= λ n. ok (some n)

abbrev pub is_paid : Option ℕ → Bool
is_paid none = false
is_paid (some n) = ltb 0 n

abbrev is_zero : Option ℕ → Bool
is_zero (some zero) = true
is_zero _ = false

unfoldable pub withdrawal_state : Bool → Bool → WithdrawalEvidence → Option ℕ → SbtcWithdrawalState
withdrawal_state available has_mismatch i confirmations =
    if not available
    then unavailable
    else if has_mismatch
    then reconciliation_failed
    else if is_rejected i.request
    then rejected
    else if is_some i.completion && is_some i.payout && is_paid confirmations
    then reconciled
    else if is_some i.completion || emily_is status_confirmed i.emily
    then payout_confirming
    else if emily_is status_failed i.emily
    then signer_rejection_pending
    else if is_some i.request || emily_is status_open i.emily
    then signer_processing
    else request_confirming

abbrev pub is_complete : SbtcWithdrawalState → Bool
is_complete reconciled = true
is_complete rejected = true
is_complete _ = false

abbrev pub next_action_of : SbtcWithdrawalState → WithdrawalAction
next_action_of unavailable = nothing
next_action_of reconciliation_failed = contact_support
next_action_of reconciled = complete
next_action_of rejected = complete
next_action_of _ = wait

abbrev request_status : CanonicalWithdrawalRequest → RequestStatus
request_status r = elim r.status [
  | none ↦ RequestStatus.pending
  | some true ↦ RequestStatus.accepted
  | some false ↦ RequestStatus.rejected
]

abbrev pub mapped {ℓ κ} : {A : Type ℓ} {B : Type κ} → (A → B) → Option A → Option B
mapped f none = none
mapped f (some x) = some (f x)

abbrev bound {ℓ κ} : {A : Type ℓ} {B : Type κ} → (A → Option B) → Option A → Option B
bound f none = none
bound f (some x) = f x

abbrev pub optional {ℓ κ} :
    {A : Type ℓ} {B : Type κ} → (A → Result B) → Option A → Result (Option B)
optional f none = ok none
optional f (some x) = f x >>= λ y. ok (some y)

abbrev pub when_reconciled : SbtcWithdrawalState → Option Text → Option Text
when_reconciled reconciled t = t
when_reconciled _ t = none

abbrev pub when_rejected : SbtcWithdrawalState → Text → Option Text
when_rejected rejected t = some t
when_rejected _ t = none

-- `accounting`; `received` is what the payout paid.
unfoldable pub withdrawal_accounting :
    SbtcWithdrawalState → ℤ → ℤ → Option ℤ → Option Text → WithdrawalAccounting
withdrawal_accounting state amount maximum fee received = record {
  withdrawal_amount_sats = show_ℤ amount;
  maximum_signer_fee_sats = show_ℤ maximum;
  initially_locked_sats = show_ℤ (amount +ℤ maximum);
  actual_signer_fee_sats = mapped show_ℤ fee;
  final_sbtc_debit_sats = when_reconciled state (mapped (λ f. show_ℤ (amount +ℤ f)) fee);
  refunded_sbtc_sats = when_reconciled state (mapped (λ f. show_ℤ (maximum -ℤ f)) fee);
  returned_after_rejection_sats = when_rejected state (show_ℤ (amount +ℤ maximum));
  bitcoin_received_sats = when_reconciled state received;
}

-- What the view reads of the amounts, of the payout and of the recipient.
pub record WithdrawalReads : Type 0 where
  pub amount : ℤ
  pub maximum : ℤ
  pub fee : Option ℤ
  pub payout_txid : Option Text
  pub payout_amount : Option Text
  pub script : Text

-- What it says of the withdrawal itself.
pub record WithdrawalTitle : Type 0 where
  pub transfer_id : Text
  pub contracts : WithdrawalContracts
  pub request_id : Text
  pub stacks_txid : Text

unfoldable pub withdrawal_amounts : WithdrawalEvidence → Result (ℤ × ℤ × Option ℤ)
withdrawal_amounts i = do
  amount ← parse_quantity i.metadata.amount_sats
  maximum ← parse_quantity i.metadata.max_signer_fee_sats
  fee ← optional (λ (c : CanonicalWithdrawalCompletion). parse_quantity c.fee_sats) i.completion
  ok (amount, maximum, fee)

unfoldable pub withdrawal_title : Tables → SbtcWithdrawalMetadata → Result WithdrawalTitle
withdrawal_title tables m = do
  id ← sbtc_withdrawal_transfer_id m
  contracts ← withdrawal_contracts tables m.network
  request_id ← uint_string m.request_id (codes "requestId")
  stacks_txid ← txid m.stacks_txid (codes "stacksTxid")
  ok (record {
    transfer_id = id;
    contracts = contracts;
    request_id = request_id;
    stacks_txid = stacks_txid;
  })

unfoldable pub payout_reads : Option BitcoinPayoutObservation → Result (Option Text × Option Text)
payout_reads payout = do
  tx ← optional (λ (p : BitcoinPayoutObservation). txid p.txid (codes "payout.txid")) payout
  amount ←
      optional
        (λ (p : BitcoinPayoutObservation). uint_string p.amount_sats (codes "payout.amountSats"))
        payout
  ok (tx, amount)

-- The view, of a withdrawal whose parts have been read.
unfoldable pub withdrawal_view :
    Availability
    → SbtcWithdrawalState
    → WithdrawalEvidence
    → List Text
    → Option ℕ
    → WithdrawalTitle
    → WithdrawalReads
    → SbtcWithdrawalLifecycle
withdrawal_view availability state i notes confirmations t r = record {
  transfer_id = t.transfer_id;
  state = state;
  complete = is_complete state;
  next_action = next_action_of state;
  broadcast_allowed = false;
  availability = availability;
  contracts = t.contracts;
  request = record {
    request_id = t.request_id;
    stacks_txid = t.stacks_txid;
    canonical = mapped (λ (r : CanonicalWithdrawalRequest). r.canonical) i.request;
    status = mapped request_status i.request;
  };
  signer = record {
    status = mapped (λ (e : EmilyWithdrawal). e.status) i.emily;
    message = mapped (λ (e : EmilyWithdrawal). e.status_message) i.emily;
    last_update_height = mapped (λ (e : EmilyWithdrawal). e.last_update_height) i.emily;
    last_update_block_hash = mapped (λ (e : EmilyWithdrawal). e.last_update_block_hash) i.emily;
    expected_payout_txid = bound (λ (e : EmilyWithdrawal). e.expected_txid) i.emily;
    expected_payout_block_height = bound (λ (e : EmilyWithdrawal). e.expected_block_height) i.emily;
  };
  bitcoin = record {
    txid = r.payout_txid;
    output_index = mapped (λ (p : BitcoinPayoutObservation). p.output_index) i.payout;
    amount_sats = r.payout_amount;
    confirmations = confirmations;
    canonical = mapped (λ (p : BitcoinPayoutObservation). p.canonical) i.payout;
    source = mapped (λ (p : BitcoinPayoutObservation). p.source) i.payout;
  };
  accounting = withdrawal_accounting state r.amount r.maximum r.fee r.payout_amount;
  recipient_script = r.script;
  completion = i.completion;
  warnings =
      note_if i.provider_timed_out
        (codes "Emily status read timed out; the existing request remains pending")
      ++ notes
      ++ note_if (is_zero confirmations) (codes "Bitcoin payout has no confirmation yet");
}

-- The state that the evidence shows, given the warnings of mismatches and the confirmations.
abbrev pub evidence_state : Tables → WithdrawalEvidence → List Text → Option ℕ → SbtcWithdrawalState
evidence_state tables i notes confirmations =
    withdrawal_state (sbtc_withdrawal_availability tables i.metadata.network).available
      (not (is_empty notes)) i confirmations

unfoldable pub evaluate_sbtc_withdrawal :
    Tables → WithdrawalEvidence → Result SbtcWithdrawalLifecycle
evaluate_sbtc_withdrawal tables i = do
  validate_metadata i.metadata
  notes ← mismatch_warnings i
  confirmations ← confirmations_of i.payout
  amounts ← withdrawal_amounts i
  title ← withdrawal_title tables i.metadata
  payout ← payout_reads i.payout
  script ← withdrawal_recipient_script i.metadata.recipient_version i.metadata.recipient_hashbytes
  ok (
      withdrawal_view (sbtc_withdrawal_availability tables i.metadata.network)
        (evidence_state tables i notes confirmations) i notes confirmations title
        (record {
          amount = amounts.0;
          maximum = amounts.1;
          fee = amounts.2;
          payout_txid = payout.0;
          payout_amount = payout.1;
          script = script;
        }))
