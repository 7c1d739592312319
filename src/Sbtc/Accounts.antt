-- ===== src/Sbtc/Accounts.antt =====
-- packages/adapters/src/sbtc/withdrawalLifecycle.ts: what an evaluation has read, and how a complete
-- withdrawal is accounted for.
use capital_os.Shared.{
  ℕ, Text, codes, ℤ, ◌+ℤ◌, ◌-ℤ◌, ◌≤ℤ◌, show_ℤ, int_laws, Bool, true, false, Option, none, some,
  List, ◌≡◌, sym, ap, ◌∙◌,
}
use capital_os.Errors.{Result, ok, bind-ok, ok_inj}
use capital_os.Amounts.{parse_quantity}
use capital_os.Registry.Deployments.{Tables}
use capital_os.Sbtc.Fields.{uint_string, txid, withdrawal_recipient_script}
use capital_os.Sbtc.Withdrawal.{
  CanonicalWithdrawalRequest, CanonicalWithdrawalCompletion, BitcoinPayoutObservation,
  SbtcWithdrawalLifecycle, WithdrawalEvidence,
}
use capital_os.Sbtc.Mismatches.{validate_metadata}
use capital_os.Sbtc.Evaluate.{
  confirmations_of, optional, evaluate_sbtc_withdrawal, WithdrawalReads, WithdrawalTitle,
  withdrawal_amounts, payout_reads, withdrawal_view, evidence_state, withdrawal_title,
}
use capital_os.Sbtc.Warnings.{mismatch_warnings, sbtc_withdrawal_availability}

-- What the amounts and the payout were read from.
pub record Evaluated (tables : Tables) (i : WithdrawalEvidence) (v : SbtcWithdrawalLifecycle)
    : Type 0 where
  pub notes : List Text
  pub confirmations : Option ℕ
  pub title : WithdrawalTitle
  pub reads : WithdrawalReads
  pub noted_are : mismatch_warnings i ≡ ok notes
  pub amounts_are : withdrawal_amounts i ≡ ok (reads.amount, reads.maximum, reads.fee)
  pub payout_is : payout_reads i.payout ≡ ok (reads.payout_txid, reads.payout_amount)
  pub view :
      withdrawal_view
        (sbtc_withdrawal_availability tables i.metadata.network)
        (evidence_state tables i notes confirmations)
        i
        notes
        confirmations
        title
        reads
      ≡ v

pub evaluate-Evaluated :
    (tables : Tables) (i : WithdrawalEvidence) (v : SbtcWithdrawalLifecycle)
    → evaluate_sbtc_withdrawal tables i ≡ ok v
    → Evaluated tables i v
unfolding evaluate_sbtc_withdrawal
evaluate-Evaluated tables i v e =
    let (x, valid, e₁) = bind-ok (validate_metadata i.metadata) _ v e in
    let (notes, n, e₂) = bind-ok (mismatch_warnings i) _ v e₁ in
    let (confirmations, c, e₃) = bind-ok (confirmations_of i.payout) _ v e₂ in
    let (amounts, a, e₄) = bind-ok (withdrawal_amounts i) _ v e₃ in
    let (title, t, e₅) = bind-ok (withdrawal_title tables i.metadata) _ v e₄ in
    let (payout, p, e₆) = bind-ok (payout_reads i.payout) _ v e₅ in
    let (script, w, e₇) =
      bind-ok
        (withdrawal_recipient_script i.metadata.recipient_version i.metadata.recipient_hashbytes) _
        v e₆ in
    record {
      notes = notes;
      confirmations = confirmations;
      title = title;
      reads = record {
        amount = amounts.0;
        maximum = amounts.1;
        fee = amounts.2;
        payout_txid = payout.0;
        payout_amount = payout.1;
        script = script;
      };
      noted_are = n;
      amounts_are = a;
      payout_is = p;
      view = ok_inj _ v e₇;
    }

abbrev AcceptedRequest : WithdrawalEvidence → Bool → Type 0
AcceptedRequest i answer =
    (r : CanonicalWithdrawalRequest) × (i.request ≡ some r)
    × (r.status ≡ some answer)
    × (r.canonical ≡ true)

-- A withdrawal that was paid: what was locked is what was debited and what was refunded.
pub record Paid (i : WithdrawalEvidence) (v : SbtcWithdrawalLifecycle) : Type 0 where
  pub completion : CanonicalWithdrawalCompletion
  pub payout : BitcoinPayoutObservation
  pub amount : ℤ
  pub maximum : ℤ
  pub fee : ℤ
  pub accepted : AcceptedRequest i true
  pub completion_is : (i.completion ≡ some completion) × (completion.canonical ≡ true)
  pub payout_is : (i.payout ≡ some payout) × (payout.canonical ≡ true)
  pub amount_is : parse_quantity i.metadata.amount_sats ≡ ok amount
  pub maximum_is : parse_quantity i.metadata.max_signer_fee_sats ≡ ok maximum
  pub fee_is : parse_quantity completion.fee_sats ≡ ok fee
  pub fee_within : fee ≤ℤ maximum
  pub locked : v.accounting.initially_locked_sats ≡ show_ℤ ((amount +ℤ fee) +ℤ (maximum -ℤ fee))
  pub debited : v.accounting.final_sbtc_debit_sats ≡ some (show_ℤ (amount +ℤ fee))
  pub refunded : v.accounting.refunded_sbtc_sats ≡ some (show_ℤ (maximum -ℤ fee))
  pub received : v.accounting.bitcoin_received_sats ≡ some (show_ℤ amount)
  pub returned : v.accounting.returned_after_rejection_sats ≡ none

-- A withdrawal that was turned down: all that was locked comes back, and nothing was paid.
pub record Returned (i : WithdrawalEvidence) (v : SbtcWithdrawalLifecycle) : Type 0 where
  pub refused : AcceptedRequest i false
  pub unpaid : (i.completion ≡ none) × (i.payout ≡ none)
  pub returned :
      v.accounting.returned_after_rejection_sats ≡ some v.accounting.initially_locked_sats
  pub debited : v.accounting.final_sbtc_debit_sats ≡ none
  pub received : v.accounting.bitcoin_received_sats ≡ none

-- The amounts that were read.
pub amounts_read :
    (i : WithdrawalEvidence) (amount maximum : ℤ) (fee : Option ℤ)
    → withdrawal_amounts i ≡ ok (amount, maximum, fee)
    → (parse_quantity i.metadata.amount_sats ≡ ok amount)
      × (parse_quantity i.metadata.max_signer_fee_sats ≡ ok maximum)
      × (optional (λ (c : CanonicalWithdrawalCompletion). parse_quantity c.fee_sats) i.completion
          ≡ ok fee)
unfolding withdrawal_amounts
amounts_read i amount maximum fee e =
    let (a, ea, e₁) = bind-ok (parse_quantity i.metadata.amount_sats) _ (amount, maximum, fee) e in
    let (m, em, e₂) =
      bind-ok (parse_quantity i.metadata.max_signer_fee_sats) _ (amount, maximum, fee) e₁ in
    let (f, ef, e₃) =
      bind-ok
        (optional (λ (c : CanonicalWithdrawalCompletion). parse_quantity c.fee_sats) i.completion) _
        (amount, maximum, fee) e₂ in
    let same = ok_inj _ (amount, maximum, fee) e₃ in
    (
      ea ∙ ap (λ (t : ℤ × ℤ × Option ℤ). ok t.0) same,
      em ∙ ap (λ (t : ℤ × ℤ × Option ℤ). ok t.1) same,
      ef ∙ ap (λ (t : ℤ × ℤ × Option ℤ). ok t.2) same,
    )

pub payout_read :
    (payout : Option BitcoinPayoutObservation) (tx amount : Option Text)
    → payout_reads payout ≡ ok (tx, amount)
    → optional
        (λ (p : BitcoinPayoutObservation). uint_string p.amount_sats (codes "payout.amountSats"))
        payout
      ≡ ok amount
unfolding payout_reads
payout_read payout tx amount e =
    let (t, et, e₁) =
      bind-ok
        (optional (λ (p : BitcoinPayoutObservation). txid p.txid (codes "payout.txid")) payout) _
        (tx, amount) e in
    let (a, ea, e₂) =
      bind-ok
        (optional
          (λ (p : BitcoinPayoutObservation). uint_string p.amount_sats (codes "payout.amountSats"))
          payout)
        _ (tx, amount) e₁ in
    ea ∙ ap (λ (t : Option Text × Option Text). ok t.1) (ok_inj _ (tx, amount) e₂)

pub optional-some {ℓ κ} :
    {A : Type ℓ} {B : Type κ} (f : A → Result B) (x : A) (r : Option B)
    → optional f (some x) ≡ ok r
    → (y : B) × (f x ≡ ok y) × (r ≡ some y)
optional-some f x r e = let (y, ey, e₁) = bind-ok (f x) _ r e in (y, ey, sym (ok_inj (some y) r e₁))

-- The locked sum is parted into what is debited and what is refunded.
pub locked_parts :
    (amount maximum fee : ℤ) → amount +ℤ maximum ≡ (amount +ℤ fee) +ℤ (maximum -ℤ fee)
locked_parts amount maximum fee = omega int_laws
