-- ===== src/Sbtc/Grounds.antt =====
-- packages/adapters/src/sbtc/depositLifecycle.ts: what an evaluation has read, and the evidence behind each
-- state of a deposit.
use mathlib.Core.Path.{subst}
use capital_os.Shared.{
  Bool-cases, negated, nil_parts, ℕ, zero, suc, ◌-◌, ◌≤◌, Text, text_eq_iff, is_empty, ℤ, pos, ◌-ℤ◌,
  ◌≤ℤ◌, show_ℤ, int_laws, Bool, true, false, Option, none, some, List, [], ◌≡◌, refl, ap, ◌∙◌, ◌⊎◌,
  inl, inr, arith,
}
use capital_os.Errors.{ok, bind-ok, ok_inj}
use capital_os.Amounts.{parse_quantity}
use capital_os.Registry.Deployments.{Tables}
use capital_os.Sbtc.Fields.{note_if}
use capital_os.Sbtc.Withdrawal.{Fulfillment}
use capital_os.Sbtc.Evaluate.{optional}
use capital_os.Sbtc.Warnings.{each, is_some}
use capital_os.Sbtc.Agreement.{noted-Quiet, nothing_listed, ok_nil, none_of}
use capital_os.Sbtc.Deposit.{
  EmilyDepositStatus, EmilyDeposit, BitcoinDepositObservation, CanonicalDepositMint,
  SbtcDepositMetadata, SbtcDepositState, submitted, confirming, signer_processing, mint_pending,
  reclaimable, replaced, reconciliation_failed, reconciled, SbtcDepositLifecycle, DepositEvidence,
  DepositContracts,
}
use capital_os.Sbtc.Deposited.{
  expected_minimum, status_is, is_rbf, is_failed, lock_height, tip_height, blocks_remaining,
  is_nought, reclaim_available, deposit_state, DepositReads, has_mismatch, mint_fee, fee_conflict,
  final_state, deposit_warnings, deposit_view, deposit_notes, deposit_paid, deposit_reads,
  evaluate_sbtc_deposit, deposit_fulfillment,
}
use capital_os.Sbtc.DepositChecks.{
  mint_mismatches, emily_deposit_mismatches, validate_deposit, deposit_contracts,
}

-- A deposit that was minted: to the recipient, in full but for a fee within the maximum.
pub record Minted (i : DepositEvidence) (v : SbtcDepositLifecycle) : Type 0 where
  pub mint : CanonicalDepositMint
  pub gross : ℤ
  pub maximum : ℤ
  pub minted : ℤ
  pub mint_is : (i.mint ≡ some mint) × (mint.canonical ≡ true)
  pub recipient : mint.recipient ≡ i.metadata.recipient
  pub gross_is : parse_quantity i.metadata.amount_sats ≡ ok gross
  pub maximum_is : parse_quantity i.metadata.max_signer_fee_sats ≡ ok maximum
  pub minted_is : parse_quantity mint.amount_sats ≡ ok minted
  pub positive : pos 0 ≤ℤ minted
  pub at_most : minted ≤ℤ gross
  pub fee_within : gross -ℤ minted ≤ℤ maximum
  pub fee_shown : v.fees.actual_signer_fee_sats ≡ some (show_ℤ (gross -ℤ minted))
  pub minted_shown : v.output.minted_sats ≡ some (show_ℤ minted)

-- Nothing was minted, and the height at which the deposit may be reclaimed is reached.
abbrev Reclaimable : DepositEvidence → Type 0
Reclaimable i =
    (i.mint ≡ none)
    × ((e : EmilyDeposit) × (b : BitcoinDepositObservation) × (i.emily ≡ some e)
        × (i.bitcoin ≡ some b)
        × (e.lock_time ≤ b.tip_height))

abbrev SignersSay : (EmilyDepositStatus → Bool) → DepositEvidence → Type 0
SignersSay test i =
    (i.mint ≡ none) × ((e : EmilyDeposit) × (i.emily ≡ some e) × (test e.status ≡ true))

-- What each state of a deposit says of its evidence.
abbrev pub Stands : DepositEvidence → SbtcDepositLifecycle → SbtcDepositState → Type 0
Stands i v reconciled = Minted i v
Stands i v reclaimable = Reclaimable i
Stands i v replaced = SignersSay is_rbf i
Stands i v SbtcDepositState.failed = SignersSay is_failed i
Stands i v reconciliation_failed = ¬ (v.warnings ≡ [])
Stands i v submitted = i.mint ≡ none
Stands i v confirming = i.mint ≡ none
Stands i v signer_processing = i.mint ≡ none
Stands i v mint_pending = i.mint ≡ none

-- A mint that differs in nothing.
pub mint_agrees :
    (m : SbtcDepositMetadata) (minimum : ℤ) (c : CanonicalDepositMint)
    → mint_mismatches m minimum c ≡ ok []
    → (c.canonical ≡ true)
      × (c.recipient ≡ m.recipient)
      × ((minted : ℤ) × (gross : ℤ) × (parse_quantity c.amount_sats ≡ ok minted)
          × (parse_quantity m.amount_sats ≡ ok gross)
          × (minimum ≤ℤ minted)
          × (minted ≤ℤ gross))
unfolding mint_mismatches
mint_agrees m minimum c e =
    let (minted, p, e₁) = bind-ok (parse_quantity c.amount_sats) _ [] e in
    let (gross, g, e₂) = bind-ok (parse_quantity m.amount_sats) _ [] e₁ in
    let (canonical, (_, (_, (recipient, (within, _))))) = noted-Quiet _ (ok_nil _ e₂) in
    (
      negated canonical,
      (text_eq_iff c.recipient m.recipient).0 (negated recipient),
      (minted, gross, p, g, ground (arith, within), ground (arith, within)),
    )

pub fee_within_maximum :
    (gross maximum minted : ℤ)
    → expected_minimum gross maximum ≤ℤ minted
    → (pos 0 ≤ℤ minted) × (gross -ℤ minted ≤ℤ maximum)
unfolding expected_minimum
fee_within_maximum gross maximum minted k = (grind (int_laws, k), grind (int_laws, k))

-- What an evaluation has read.
pub record Read (tables : Tables) (i : DepositEvidence) (v : SbtcDepositLifecycle) : Type 0 where
  pub reads : DepositReads
  pub contracts : DepositContracts
  pub gross_is : parse_quantity i.metadata.amount_sats ≡ ok reads.gross
  pub maximum_is : parse_quantity i.metadata.max_signer_fee_sats ≡ ok reads.maximum
  pub mint_notes_are :
      each (mint_mismatches i.metadata (expected_minimum reads.gross reads.maximum)) i.mint
      ≡ ok reads.mint_notes
  pub minted_is :
      optional (λ (c : CanonicalDepositMint). parse_quantity c.amount_sats) i.mint ≡ ok reads.minted
  pub view : deposit_view i reads contracts (final_state i reads) ≡ v

notes_read :
    (i : DepositEvidence) (minimum : ℤ) (notes : List Text × List Text)
    → deposit_notes i minimum ≡ ok notes
    → each (mint_mismatches i.metadata minimum) i.mint ≡ ok notes.1
unfolding deposit_notes
notes_read i minimum notes e =
    let (emilys, x, e₁) = bind-ok (each (emily_deposit_mismatches i.metadata) i.emily) _ notes e in
    let (mints, y, e₂) = bind-ok (each (mint_mismatches i.metadata minimum) i.mint) _ notes e₁ in
    y ∙ ap (λ (n : List Text × List Text). ok n.1) (ok_inj _ notes e₂)

minted_read :
    (i : DepositEvidence) (paid : Option ℤ × Option ℤ)
    → deposit_paid i ≡ ok paid
    → optional (λ (c : CanonicalDepositMint). parse_quantity c.amount_sats) i.mint ≡ ok paid.0
unfolding deposit_paid
minted_read i paid e =
    let (minted, x, e₁) =
      bind-ok (optional (λ (c : CanonicalDepositMint). parse_quantity c.amount_sats) i.mint) _ paid
        e in
    let (fee, y, e₂) =
      bind-ok
        (optional (λ (f : Fulfillment). parse_quantity f.btc_fee_sats)
          (deposit_fulfillment i.emily))
        _ paid e₁ in
    x ∙ ap (λ (n : Option ℤ × Option ℤ). ok n.0) (ok_inj _ paid e₂)

pub evaluate_deposit-Read :
    (tables : Tables) (i : DepositEvidence) (v : SbtcDepositLifecycle)
    → evaluate_sbtc_deposit tables i ≡ ok v
    → Read tables i v
unfolding evaluate_sbtc_deposit deposit_reads
evaluate_deposit-Read tables i v e =
    let (x, valid, e₁) = bind-ok (validate_deposit i.metadata) _ v e in
    let (reads, r, e₂) = bind-ok (deposit_reads i) _ v e₁ in
    let (contracts, c, e₃) = bind-ok (deposit_contracts tables i.metadata.network) _ v e₂ in
    let (gross, g, r₁) = bind-ok (parse_quantity i.metadata.amount_sats) _ reads r in
    let (maximum, m, r₂) = bind-ok (parse_quantity i.metadata.max_signer_fee_sats) _ reads r₁ in
    let (notes, n, r₃) = bind-ok (deposit_notes i (expected_minimum gross maximum)) _ reads r₂ in
    let (paid, p, r₄) = bind-ok (deposit_paid i) _ reads r₃ in
    let same = ok_inj _ reads r₄ in
    subst (λ (r : DepositReads). deposit_view i r contracts (final_state i r) ≡ v → Read tables i v)
      same
      (λ seen. record {
        reads = record {
          gross = gross;
          maximum = maximum;
          minted = paid.0;
          fulfilled = paid.1;
          emily_notes = notes.0;
          mint_notes = notes.1;
        };
        contracts = contracts;
        gross_is = g;
        maximum_is = m;
        mint_notes_are = notes_read i (expected_minimum gross maximum) notes n;
        minted_is = minted_read i paid p;
        view = seen;
      })
      (ok_inj _ v e₃)

unnoted : (test : Bool) (note : Text) → note_if test note ≡ [] → test ≡ false
unnoted false note h = refl
unnoted true note h = absurd (cc h)

nought : (n : ℕ) → is_nought (some n) ≡ true → n ≡ 0
nought zero h = refl
nought (suc n) h = absurd (cc h)

abbrev pub is_unminted : SbtcDepositState → Bool
is_unminted reconciled = false
is_unminted reconciliation_failed = false
is_unminted _ = true

module _ (i : DepositEvidence) (r : DepositReads) where
  pub reconciled_cases :
      final_state i r ≡ reconciled → (has_mismatch r ≡ false) × (is_some i.mint ≡ true)
  unfolding final_state deposit_state
  reconciled_cases e = (ground arith, ground arith)

  pub unminted : is_unminted (final_state i r) ≡ true → i.mint ≡ none
  unfolding final_state deposit_state
  unminted e = none_of i.mint (ground arith)

  pub reclaimable_case : final_state i r ≡ reclaimable → reclaim_available i ≡ true
  unfolding final_state deposit_state
  reclaimable_case e = ground arith

  pub replaced_case : final_state i r ≡ replaced → status_is is_rbf i.emily ≡ true
  unfolding final_state deposit_state
  replaced_case e = ground arith

  pub failed_case : final_state i r ≡ SbtcDepositState.failed → status_is is_failed i.emily ≡ true
  unfolding final_state deposit_state
  failed_case e = ground arith

  mismatch_cases :
      final_state i r ≡ reconciliation_failed → (fee_conflict r ≡ true) ⊎ (has_mismatch r ≡ true)
  unfolding final_state deposit_state
  mismatch_cases e = elim (Bool-cases (fee_conflict r)) [
    | inl c ↦ inl c
    | inr c ↦ inr (ground (arith, c, e))
  ]

  pub warned : final_state i r ≡ reconciliation_failed → ¬ (deposit_warnings i r ≡ [])
  unfolding deposit_warnings has_mismatch
  warned e quiet =
      let (front, conflict) = nil_parts _ _ quiet in
      let (front₁, mints) = nil_parts _ _ front in
      let (front₂, emilys) = nil_parts _ _ front₁ in
      let no_emilys = nothing_listed _ r.emily_notes emilys in
      let no_mints = nothing_listed _ r.mint_notes mints in
      let no_conflict = unnoted (fee_conflict r) _ conflict in
      let matching : has_mismatch r ≡ false = rw (no_emilys, no_mints) refl in
      elim (mismatch_cases e) [ inl c ↦ cc (c, no_conflict) | inr m ↦ cc (m, matching) ]

-- The evidence behind a test of the status.
pub says :
    (test : EmilyDepositStatus → Bool) (emily : Option EmilyDeposit)
    → status_is test emily ≡ true
    → (e : EmilyDeposit) × (emily ≡ some e) × (test e.status ≡ true)
says test none h = absurd (cc h)
says test (some e) h = (e, refl, h)

pub reached :
    (emily : Option EmilyDeposit) (bitcoin : Option BitcoinDepositObservation)
    → is_nought (blocks_remaining (lock_height emily) (tip_height bitcoin)) ≡ true
    → (e : EmilyDeposit) × (b : BitcoinDepositObservation) × (emily ≡ some e)
      × (bitcoin ≡ some b)
      × (e.lock_time ≤ b.tip_height)
unfolding blocks_remaining
reached none bitcoin h = absurd (ground (arith, h))
reached (some e) none h = absurd (ground (arith, h))
reached (some e) (some b) h =
    (e, b, refl, refl, omega (arith, nought (e.lock_time - b.tip_height) h))

pub may_reclaim :
    (i : DepositEvidence)
    → reclaim_available i ≡ true
    → is_nought (blocks_remaining (lock_height i.emily) (tip_height i.bitcoin)) ≡ true
unfolding reclaim_available
may_reclaim i h = ground arith

pub fee_of :
    (r : DepositReads) (minted : ℤ)
    → has_mismatch r ≡ false
    → r.minted ≡ some minted
    → mint_fee r ≡ some (r.gross -ℤ minted)
unfolding mint_fee has_mismatch
fee_of r minted h e =
    let no_notes : is_empty r.mint_notes ≡ true = ground (arith, h) in rw (no_notes, e) refl
