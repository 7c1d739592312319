-- ===== src/Sbtc/Deposited.antt =====
-- packages/adapters/src/sbtc/depositLifecycle.ts: the view of a deposit from all its evidence. The tables of the registry are an argument.
use capital_os.Shared.{
  ℕ, zero, ◌-◌, ltb, Text, codes, to_lower, is_empty, ℤ, pos, ◌-ℤ◌, leb_ℤ, eqb_ℤ, show_ℤ, Bool,
  true, false, not, ◌&&◌, ◌||◌, Option, none, some, List, ◌++◌, if◌then◌else◌,
}
use capital_os.Errors.{Result, ok, ◌>>=◌, ◌>>◌}
use capital_os.Amounts.{parse_quantity}
use capital_os.Registry.Deployments.{Tables}
use capital_os.Sbtc.Fields.{note_if}
use capital_os.Sbtc.Withdrawal.{Fulfillment}
use capital_os.Sbtc.Evaluate.{mapped, optional}
use capital_os.Sbtc.Warnings.{each, is_some, listed}
use capital_os.Sbtc.Deposit.{
  EmilyDepositStatus, accepted, confirmed, rbf, EmilyDeposit, BitcoinDepositObservation,
  CanonicalDepositMint, SbtcDepositState, submitted, confirming, signer_processing, mint_pending,
  reclaimable, replaced, reconciliation_failed, reconciled, DepositAction, wait, reclaim,
  contact_support, complete, RecoveryState, unavailable, locked, available, consumed,
  DepositContracts, SbtcDepositLifecycle, DepositEvidence,
}
use capital_os.Sbtc.DepositChecks.{
  deposit_contracts, emily_deposit_mismatches, mint_mismatches, sbtc_deposit_transfer_id,
  validate_deposit,
}

-- `expectedMinimum`
unfoldable pub expected_minimum : ℤ → ℤ → ℤ
expected_minimum gross maximum = if leb_ℤ gross maximum then pos 0 else gross -ℤ maximum

abbrev pub status_is : (EmilyDepositStatus → Bool) → Option EmilyDeposit → Bool
status_is test none = false
status_is test (some e) = test e.status

abbrev pub is_rbf : EmilyDepositStatus → Bool
is_rbf rbf = true
is_rbf _ = false

abbrev pub is_failed : EmilyDepositStatus → Bool
is_failed EmilyDepositStatus.failed = true
is_failed _ = false

abbrev is_confirmed : EmilyDepositStatus → Bool
is_confirmed confirmed = true
is_confirmed _ = false

abbrev is_accepted : EmilyDepositStatus → Bool
is_accepted accepted = true
is_accepted _ = false

abbrev pub lock_height : Option EmilyDeposit → Option ℕ
lock_height = mapped (λ (e : EmilyDeposit). e.lock_time)

abbrev pub tip_height : Option BitcoinDepositObservation → Option ℕ
tip_height = mapped (λ (b : BitcoinDepositObservation). b.tip_height)

-- `Math.max(0, lockHeight - currentHeight)`, when both are known.
unfoldable pub blocks_remaining : Option ℕ → Option ℕ → Option ℕ
blocks_remaining (some lock) (some tip) = some (lock - tip)
blocks_remaining none tip = none
blocks_remaining (some lock) none = none

abbrev pub is_nought : Option ℕ → Bool
is_nought (some zero) = true
is_nought _ = false

unfoldable pub reclaim_available : DepositEvidence → Bool
reclaim_available i =
    is_nought (blocks_remaining (lock_height i.emily) (tip_height i.bitcoin))
    && not (is_some i.mint)

abbrev has_confirmation : Option BitcoinDepositObservation → Bool
has_confirmation none = false
has_confirmation (some b) = ltb 0 b.confirmations

-- The state, before the fee of a fulfillment is compared.
unfoldable pub deposit_state : Bool → DepositEvidence → SbtcDepositState
deposit_state has_mismatch i =
    if has_mismatch
    then reconciliation_failed
    else if is_some i.mint
    then reconciled
    else if status_is is_rbf i.emily
    then replaced
    else if status_is is_failed i.emily
    then SbtcDepositState.failed
    else if reclaim_available i
    then reclaimable
    else if status_is is_confirmed i.emily
    then mint_pending
    else if status_is is_accepted i.emily
    then signer_processing
    else if has_confirmation i.bitcoin
    then confirming
    else submitted

-- What is read of the amounts and of the mismatches.
pub record DepositReads : Type 0 where
  pub gross : ℤ
  pub maximum : ℤ
  pub minted : Option ℤ
  pub fulfilled : Option ℤ
  pub emily_notes : List Text
  pub mint_notes : List Text

unfoldable pub has_mismatch : DepositReads → Bool
has_mismatch r = not (is_empty r.mint_notes) || not (is_empty r.emily_notes)

-- `mintFee`
unfoldable pub mint_fee : DepositReads → Option ℤ
mint_fee r = if is_empty r.mint_notes then mapped (λ minted. r.gross -ℤ minted) r.minted else none

abbrev pub differ : Option ℤ → Option ℤ → Bool
differ (some a) (some b) = not (eqb_ℤ a b)
differ none b = false
differ (some a) none = false

unfoldable pub fee_conflict : DepositReads → Bool
fee_conflict r = differ (mint_fee r) r.fulfilled

unfoldable pub final_state : DepositEvidence → DepositReads → SbtcDepositState
final_state i r = if fee_conflict r then reconciliation_failed else deposit_state (has_mismatch r) i

abbrev pub is_reconciled : SbtcDepositState → Bool
is_reconciled reconciled = true
is_reconciled _ = false

abbrev pub deposit_action : SbtcDepositState → DepositAction
deposit_action reconciled = complete
deposit_action reclaimable = reclaim
deposit_action reconciliation_failed = contact_support
deposit_action SbtcDepositState.failed = contact_support
deposit_action replaced = contact_support
deposit_action _ = wait

-- `mintFee ?? fulfillmentFee`
abbrev pub first_of : Option ℤ → Option ℤ → Option ℤ
first_of (some a) b = some a
first_of none b = b

abbrev recovery_state : Bool → Option ℕ → Bool → RecoveryState
recovery_state true lock is_open = consumed
recovery_state false none is_open = unavailable
recovery_state false (some lock) is_open = if is_open then available else locked

unfoldable pub deposit_warnings : DepositEvidence → DepositReads → List Text
deposit_warnings i r =
    note_if i.provider_timed_out
      (codes "Emily status read timed out; the existing transfer remains pending")
    ++ note_if (is_uncanonical i.bitcoin) (codes "Bitcoin observation is not canonical")
    ++ listed (codes "Emily evidence mismatch: ") r.emily_notes
    ++ listed (codes "Canonical mint mismatch: ") r.mint_notes
    ++ note_if (fee_conflict r)
        (codes "Emily fulfillment fee does not match the canonical minted amount delta")
  where
    is_uncanonical : Option BitcoinDepositObservation → Bool
    is_uncanonical none = false
    is_uncanonical (some b) = not b.canonical

-- The view, of a deposit whose parts have been read.
unfoldable pub deposit_view :
    DepositEvidence → DepositReads → DepositContracts → SbtcDepositState → SbtcDepositLifecycle
deposit_view i r contracts state = record {
  transfer_id = sbtc_deposit_transfer_id i.metadata;
  state = state;
  complete = is_reconciled state;
  next_action = deposit_action state;
  broadcast_allowed = false;
  contracts = contracts;
  bitcoin = record {
    txid = to_lower i.metadata.bitcoin_txid;
    output_index = i.metadata.output_index;
    confirmations = mapped (λ (b : BitcoinDepositObservation). b.confirmations) i.bitcoin;
    canonical = mapped (λ (b : BitcoinDepositObservation). b.canonical) i.bitcoin;
    source = mapped (λ (b : BitcoinDepositObservation). b.source) i.bitcoin;
  };
  signer = record {
    status = mapped (λ (e : EmilyDeposit). e.status) i.emily;
    message = mapped (λ (e : EmilyDeposit). e.status_message) i.emily;
    last_update_height = mapped (λ (e : EmilyDeposit). e.last_update_height) i.emily;
    last_update_block_hash = mapped (λ (e : EmilyDeposit). e.last_update_block_hash) i.emily;
  };
  fees = record {
    maximum_signer_fee_sats = show_ℤ r.maximum;
    actual_signer_fee_sats = mapped show_ℤ (first_of (mint_fee r) r.fulfilled);
  };
  output = record {
    expected_minimum_sats = show_ℤ (expected_minimum r.gross r.maximum);
    minted_sats = mapped show_ℤ r.minted;
  };
  recovery = record {
    reclaim_script = to_lower i.metadata.reclaim_script;
    lock_height = lock_height i.emily;
    current_bitcoin_height = tip_height i.bitcoin;
    blocks_remaining = blocks_remaining (lock_height i.emily) (tip_height i.bitcoin);
    state = recovery_state (is_reconciled state) (lock_height i.emily) (reclaim_available i);
  };
  mint = i.mint;
  warnings = deposit_warnings i r;
}

abbrev pub deposit_fulfillment : Option EmilyDeposit → Option Fulfillment
deposit_fulfillment none = none
deposit_fulfillment (some e) = e.fulfillment

unfoldable pub deposit_notes : DepositEvidence → ℤ → Result (List Text × List Text)
deposit_notes i minimum = do
  emilys ← each (emily_deposit_mismatches i.metadata) i.emily
  mints ← each (mint_mismatches i.metadata minimum) i.mint
  ok (emilys, mints)

unfoldable pub deposit_paid : DepositEvidence → Result (Option ℤ × Option ℤ)
deposit_paid i = do
  minted ← optional (λ (c : CanonicalDepositMint). parse_quantity c.amount_sats) i.mint
  fee ← optional (λ (f : Fulfillment). parse_quantity f.btc_fee_sats) (deposit_fulfillment i.emily)
  ok (minted, fee)

unfoldable pub deposit_reads : DepositEvidence → Result DepositReads
deposit_reads i = do
  gross ← parse_quantity i.metadata.amount_sats
  maximum ← parse_quantity i.metadata.max_signer_fee_sats
  notes ← deposit_notes i (expected_minimum gross maximum)
  paid ← deposit_paid i
  ok (record {
    gross = gross;
    maximum = maximum;
    minted = paid.0;
    fulfilled = paid.1;
    emily_notes = notes.0;
    mint_notes = notes.1;
  })

unfoldable pub evaluate_sbtc_deposit : Tables → DepositEvidence → Result SbtcDepositLifecycle
evaluate_sbtc_deposit tables i = do
  validate_deposit i.metadata
  reads ← deposit_reads i
  contracts ← deposit_contracts tables i.metadata.network
  ok (deposit_view i reads contracts (final_state i reads))
