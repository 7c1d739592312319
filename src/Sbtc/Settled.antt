-- ===== src/Sbtc/Settled.antt =====
-- packages/adapters/src/sbtc/withdrawalLifecycle.ts: what the evidence is when a withdrawal is complete, and
-- where its sBTC went.
use mathlib.Core.Path.{subst}
use capital_os.Shared.{
  codes, is_empty, show_ℤ, true, false, not, some, [], ◌≡◌, sym, ap, ◌∙◌, ◌⊎◌, inl, inr, arith,
}
use capital_os.Errors.{ok, same_ok}
use capital_os.Amounts.{parse_quantity}
use capital_os.Registry.Deployments.{Tables}
use capital_os.Sbtc.Fields.{uint_string}
use capital_os.Sbtc.Withdrawal.{
  CanonicalWithdrawalRequest, CanonicalWithdrawalCompletion, BitcoinPayoutObservation,
  SbtcWithdrawalState, rejected, reconciled, SbtcWithdrawalLifecycle, WithdrawalEvidence,
  WithdrawalAccounting,
}
use capital_os.Sbtc.Mismatches.{request_mismatches, completion_mismatches, payout_mismatches}
use capital_os.Sbtc.Evaluate.{
  is_complete, optional, withdrawal_accounting, evaluate_sbtc_withdrawal, withdrawal_view,
  evidence_state,
}
use capital_os.Sbtc.Warnings.{each, is_some, is_accepted}
use capital_os.Sbtc.Agreement.{
  Agrees, completion_agrees, payout_agrees, mismatch_warnings-Agrees, complete_cases, some_of,
  none_of, no_notes, accepted_of, rejected_of, request_canonical, consistent_parts,
  reconciled_cases, rejected_cases,
}
use capital_os.Sbtc.Accounts.{
  Evaluated, Paid, Returned, amounts_read, evaluate-Evaluated, locked_parts, optional-some,
  payout_read,
}

module _ (tables : Tables) (i : WithdrawalEvidence) (v : SbtcWithdrawalLifecycle)
    (x : Evaluated tables i v) where
  abbrev state : SbtcWithdrawalState
  state = evidence_state tables i x.notes x.confirmations

  view_complete : v.complete ≡ is_complete state
  unfolding withdrawal_view
  view_complete = ap (λ (u : SbtcWithdrawalLifecycle). u.complete) (sym x.view)

  view_accounting :
      v.accounting
      ≡ withdrawal_accounting state x.reads.amount x.reads.maximum x.reads.fee x.reads.payout_amount
  unfolding withdrawal_view
  view_accounting = ap (λ (u : SbtcWithdrawalLifecycle). u.accounting) (sym x.view)

  agreed : not (is_empty x.notes) ≡ false → Agrees i
  agreed h = mismatch_warnings-Agrees i (x.noted_are ∙ ap ok (no_notes x.notes h))

  answered : (r : CanonicalWithdrawalRequest) → i.request ≡ some r → Agrees i → r.canonical ≡ true
  answered r e a =
      request_canonical i.metadata r
        (subst (λ o. each (request_mismatches i.metadata) o ≡ ok []) e a.request)

  is_Paid : state ≡ reconciled → Paid i v
  unfolding withdrawal_accounting
  is_Paid e =
      let (matching, completed, paid_out, confirmed) = reconciled_cases _ _ i x.confirmations e in
      let a = agreed matching in
      let (completion, ec) = some_of i.completion completed in
      let (payout, ep) = some_of i.payout paid_out in
      let (ca, (fee, maximum, fee_read, maximum_read, within)) =
        completion_agrees i.metadata completion
          (subst (λ o. each (completion_mismatches i.metadata) o ≡ ok []) ec a.completion) in
      let (pa, (amount, amount_read, payout_read')) = payout_agrees i.metadata i payout (
        subst (λ o. each (payout_mismatches i.metadata i.completion i.emily) o ≡ ok []) ep
          a.payout) in
      let (r, er, accepted) =
        accepted_of i.request (ground (arith, completed, (consistent_parts i a.consistent).0)) in
      let (x_amount, x_maximum, x_fee) = amounts_read i _ _ _ x.amounts_are in
      let (f, ef, is_fee) =
        optional-some (λ (c : CanonicalWithdrawalCompletion). parse_quantity c.fee_sats) completion
          _
          (subst
            (λ o.
              optional (λ (c : CanonicalWithdrawalCompletion). parse_quantity c.fee_sats) o
              ≡ ok x.reads.fee)
            ec x_fee) in
      let (t, et, is_paid_text) =
        optional-some
          (λ (p : BitcoinPayoutObservation). uint_string p.amount_sats (codes "payout.amountSats"))
          payout _
          (subst
            (λ o.
              optional
                (λ (p : BitcoinPayoutObservation).
                  uint_string p.amount_sats (codes "payout.amountSats"))
                o
              ≡ ok x.reads.payout_amount)
            ep (payout_read i.payout _ _ x.payout_is)) in
      let same_amount : x.reads.amount ≡ amount = same_ok _ _ _ x_amount amount_read in
      let same_maximum : x.reads.maximum ≡ maximum = same_ok _ _ _ x_maximum maximum_read in
      let same_fee : x.reads.fee ≡ some fee = is_fee ∙ ap some (same_ok _ f fee ef fee_read) in
      let same_text : x.reads.payout_amount ≡ some (show_ℤ amount) =
        is_paid_text ∙ ap some (same_ok _ t (show_ℤ amount) et payout_read') in
      let accounts : v.accounting
          ≡ withdrawal_accounting reconciled amount maximum (some fee) (some (show_ℤ amount)) =
        cc (view_accounting, e, same_amount, same_maximum, same_fee, same_text) in
      record {
        completion = completion;
        payout = payout;
        amount = amount;
        maximum = maximum;
        fee = fee;
        accepted = (r, er, accepted, answered r er a);
        completion_is = (ec, ca);
        payout_is = (ep, pa);
        amount_is = amount_read;
        maximum_is = maximum_read;
        fee_is = fee_read;
        fee_within = within;
        locked =
            ap (λ (w : WithdrawalAccounting). w.initially_locked_sats) accounts
            ∙ ap show_ℤ (locked_parts amount maximum fee);
        debited = ap (λ (w : WithdrawalAccounting). w.final_sbtc_debit_sats) accounts;
        refunded = ap (λ (w : WithdrawalAccounting). w.refunded_sbtc_sats) accounts;
        received = ap (λ (w : WithdrawalAccounting). w.bitcoin_received_sats) accounts;
        returned = ap (λ (w : WithdrawalAccounting). w.returned_after_rejection_sats) accounts;
      }

  is_Returned : state ≡ rejected → Returned i v
  unfolding withdrawal_accounting
  is_Returned e =
      let (matching, refusal) = rejected_cases _ _ i x.confirmations e in
      let a = agreed matching in
      let (r, er, refused) = rejected_of i.request refusal in
      let (first, second) = consistent_parts i a.consistent in
      let not_accepted : is_accepted i.request ≡ false = rw er (ground (arith, refused)) in
      let uncompleted : is_some i.completion ≡ false = ground (arith, first, not_accepted) in
      let unpaid : is_some i.payout ≡ false = ground (arith, second, uncompleted) in
      let accounts : v.accounting
          ≡ withdrawal_accounting rejected x.reads.amount x.reads.maximum x.reads.fee
              x.reads.payout_amount =
        cc (view_accounting, e) in
      record {
        refused = (r, er, refused, answered r er a);
        unpaid = (none_of i.completion uncompleted, none_of i.payout unpaid);
        returned =
            ap (λ (w : WithdrawalAccounting). w.returned_after_rejection_sats) accounts
            ∙ ap some (sym (ap (λ (w : WithdrawalAccounting). w.initially_locked_sats) accounts));
        debited = ap (λ (w : WithdrawalAccounting). w.final_sbtc_debit_sats) accounts;
        received = ap (λ (w : WithdrawalAccounting). w.bitcoin_received_sats) accounts;
      }

-- A withdrawal that is shown as complete was paid or was turned down. If it was paid, the canonical request
-- was accepted, a canonical completion and a canonical payout are there, the fee is within the maximum, the
-- sum that was locked is the sum of what is shown as debited and as refunded, and the amount arrived. If it
-- was turned down, the canonical request was rejected, there is no completion and no payout, all that was
-- locked is shown as returned, and nothing as debited or received.
pub complete-Settled :
    (tables : Tables) (i : WithdrawalEvidence) (v : SbtcWithdrawalLifecycle)
    → evaluate_sbtc_withdrawal tables i ≡ ok v
    → v.complete ≡ true
    → Paid i v ⊎ Returned i v
complete-Settled tables i v e done =
    let x = evaluate-Evaluated tables i v e in
    settled (
      complete_cases (evidence_state tables i x.notes x.confirmations)
        (sym (view_complete tables i v x) ∙ done))
  where
    settled :
        (evidence_state tables i
              (evaluate-Evaluated tables i v e).notes
              (evaluate-Evaluated tables i v e).confirmations
            ≡ reconciled)
          ⊎ (evidence_state tables i
                (evaluate-Evaluated tables i v e).notes
                (evaluate-Evaluated tables i v e).confirmations
              ≡ rejected)
        → Paid i v ⊎ Returned i v
    settled (inl s) = inl (is_Paid tables i v (evaluate-Evaluated tables i v e) s)
    settled (inr s) = inr (is_Returned tables i v (evaluate-Evaluated tables i v e) s)
