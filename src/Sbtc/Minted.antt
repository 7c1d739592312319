-- ===== src/Sbtc/Minted.antt =====
-- packages/adapters/src/sbtc/depositLifecycle.ts: what the evidence on a deposit is, in each state that it
-- is shown in.
use mathlib.Core.Path.{subst}
use capital_os.Shared.{ℤ, ◌≤ℤ◌, show_ℤ, false, some, [], ◌≡◌, sym, ap, ◌∙◌, arith}
use capital_os.Errors.{ok, same_ok}
use capital_os.Amounts.{parse_quantity}
use capital_os.Registry.Deployments.{Tables}
use capital_os.Sbtc.Evaluate.{mapped, optional}
use capital_os.Sbtc.Warnings.{each}
use capital_os.Sbtc.Agreement.{some_of, no_notes}
use capital_os.Sbtc.Accounts.{optional-some}
use capital_os.Sbtc.Deposit.{
  CanonicalDepositMint, SbtcDepositState, submitted, confirming, signer_processing, mint_pending,
  reclaimable, replaced, reconciliation_failed, reconciled, SbtcDepositLifecycle, DepositEvidence,
}
use capital_os.Sbtc.Deposited.{
  expected_minimum, is_rbf, is_failed, first_of, has_mismatch, mint_fee, final_state, deposit_view,
  evaluate_sbtc_deposit,
}
use capital_os.Sbtc.DepositChecks.{mint_mismatches}
use capital_os.Sbtc.Grounds.{
  Minted, Read, Stands, evaluate_deposit-Read, failed_case, fee_of, fee_within_maximum, is_unminted,
  may_reclaim, mint_agrees, reached, reclaimable_case, reconciled_cases, replaced_case, says,
  unminted, warned,
}

module _ (tables : Tables) (i : DepositEvidence) (v : SbtcDepositLifecycle)
    (x : Read tables i v) where
  unmentioned : has_mismatch x.reads ≡ false → x.reads.mint_notes ≡ []
  unfolding has_mismatch
  unmentioned h = no_notes x.reads.mint_notes (ground (arith, h))

  shown_fee :
      {fee : ℤ} → mint_fee x.reads ≡ some fee → v.fees.actual_signer_fee_sats ≡ some (show_ℤ fee)
  unfolding deposit_view
  shown_fee {fee} h =
      ap (λ (u : SbtcDepositLifecycle). u.fees.actual_signer_fee_sats) (sym x.view)
      ∙ ap (λ f. mapped show_ℤ (first_of f x.reads.fulfilled)) h

  shown_minted :
      {minted : ℤ} → x.reads.minted ≡ some minted → v.output.minted_sats ≡ some (show_ℤ minted)
  unfolding deposit_view
  shown_minted {minted} h =
      ap (λ (u : SbtcDepositLifecycle). u.output.minted_sats) (sym x.view) ∙ ap (mapped show_ℤ) h

  is_Minted : final_state i x.reads ≡ reconciled → Minted i v
  is_Minted e =
      let (matching, was_minted) = reconciled_cases i x.reads e in
      let (mint, em) = some_of i.mint was_minted in
      let (canonical, recipient, (minted, amount, minted_is, gross_is, at_least, at_most)) =
        mint_agrees i.metadata (expected_minimum x.reads.gross x.reads.maximum) mint (
          subst
            (λ o.
              each (mint_mismatches i.metadata (expected_minimum x.reads.gross x.reads.maximum)) o
              ≡ ok [])
            em (x.mint_notes_are ∙ ap ok (unmentioned matching))) in
      let (m, read, is_m) =
        optional-some (λ (c : CanonicalDepositMint). parse_quantity c.amount_sats) mint _
          (subst
            (λ o.
              optional (λ (c : CanonicalDepositMint). parse_quantity c.amount_sats) o
              ≡ ok x.reads.minted)
            em x.minted_is) in
      let same_minted : x.reads.minted ≡ some minted =
        is_m ∙ ap some (same_ok _ m minted read minted_is) in
      let same_gross : amount ≡ x.reads.gross = same_ok _ _ _ gross_is x.gross_is in
      let (positive, within) = fee_within_maximum x.reads.gross x.reads.maximum minted at_least in
      record {
        mint = mint;
        gross = x.reads.gross;
        maximum = x.reads.maximum;
        minted = minted;
        mint_is = (em, canonical);
        recipient = recipient;
        gross_is = x.gross_is;
        maximum_is = x.maximum_is;
        minted_is = minted_is;
        positive = positive;
        at_most = subst (λ g. minted ≤ℤ g) same_gross at_most;
        fee_within = within;
        fee_shown = shown_fee (fee_of x.reads minted matching same_minted);
        minted_shown = shown_minted same_minted;
      }

  stands : (s : SbtcDepositState) → final_state i x.reads ≡ s → Stands i v s
  unfolding deposit_view
  stands reconciled e = is_Minted e
  stands reclaimable e = (
    unminted i x.reads (cc (ap is_unminted e)),
    reached i.emily i.bitcoin (may_reclaim i (reclaimable_case i x.reads e)),
  )
  stands replaced e =
      (unminted i x.reads (ap is_unminted e), says is_rbf i.emily (replaced_case i x.reads e))
  stands SbtcDepositState.failed e =
      (unminted i x.reads (ap is_unminted e), says is_failed i.emily (failed_case i x.reads e))
  stands reconciliation_failed e =
      λ quiet. warned i x.reads e (ap (λ (u : SbtcDepositLifecycle). u.warnings) x.view ∙ quiet)
  stands submitted e = unminted i x.reads (ap is_unminted e)
  stands confirming e = unminted i x.reads (ap is_unminted e)
  stands signer_processing e = unminted i x.reads (ap is_unminted e)
  stands mint_pending e = unminted i x.reads (ap is_unminted e)

-- The state in which a deposit is shown has its grounds in the evidence. Shown as reconciled, it was minted:
-- a canonical mint to the recipient, of at most the amount sent, for a fee within the maximum that was
-- allowed, and that fee and the minted amount are the ones shown. Shown as reclaimable, nothing was minted and
-- the height of the lock is reached. Shown as replaced or failed, the signers say so and nothing was minted.
-- Shown as one whose evidence does not fit, there is a warning. In every other state nothing was minted.
pub evaluate_deposit-Stands :
    (tables : Tables) (i : DepositEvidence) (v : SbtcDepositLifecycle)
    → evaluate_sbtc_deposit tables i ≡ ok v
    → Stands i v v.state
unfolding deposit_view
evaluate_deposit-Stands tables i v e =
    let x = evaluate_deposit-Read tables i v e in
    stands tables i v x v.state (ap (λ (u : SbtcDepositLifecycle). u.state) x.view)
