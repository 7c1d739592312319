-- ===== src/Sbtc/Agreement.antt =====
-- packages/adapters/src/sbtc/withdrawalLifecycle.ts: what it takes for the evidence on a withdrawal to
-- differ in nothing.
use capital_os.Shared.{
  negated, nil_parts, ℕ, Text, codes, text_eq_iff, is_empty, ℤ, ◌≤ℤ◌, ltb_ℤ, show_ℤ, Bool, true,
  false, not, ◌&&◌, Option, none, some, List, [], ◌∷◌, ◌≡◌, refl, sym, ap, ◌∙◌, ◌⊎◌, inl, inr,
  arith,
}
use capital_os.Errors.{ok, bind-ok}
use capital_os.Amounts.{parse_quantity}
use capital_os.Sbtc.Fields.{uint_string, txid, withdrawal_recipient_script, quantity_text, noted}
use capital_os.Sbtc.Withdrawal.{
  SbtcWithdrawalMetadata, CanonicalWithdrawalRequest, CanonicalWithdrawalCompletion,
  BitcoinPayoutObservation, SbtcWithdrawalState, rejected, reconciled, WithdrawalEvidence,
}
use capital_os.Sbtc.Mismatches.{
  request_mismatches, emily_mismatches, completion_mismatches, payout_mismatches, fulfillment_of,
  against_completion, against_fulfillment,
}
use capital_os.Sbtc.Evaluate.{is_paid, withdrawal_state, is_complete}
use capital_os.Sbtc.Warnings.{
  each, listed, is_some, is_accepted, is_rejected, contradictions, fulfilled_differently,
  mismatch_warnings,
}

-- None of the tests holds.
abbrev Quiet : List (Bool × Text) → Type 0
Quiet [] = Unit {0}
Quiet ((test, note) ∷ more) = (test ≡ false) × Quiet more

pub noted-Quiet : (tests : List (Bool × Text)) → noted tests ≡ [] → Quiet tests
unfolding noted
noted-Quiet [] e = tt
noted-Quiet ((true, note) ∷ more) e = absurd (ground (arith, e))
noted-Quiet ((false, note) ∷ more) e = (refl, noted-Quiet more e)

pub nothing_listed : (title : Text) (ms : List Text) → listed title ms ≡ [] → ms ≡ []
nothing_listed title [] e = refl
nothing_listed title (m ∷ ms) e = absurd (cc e)

pub ok_nil : (xs : List Text) → ok xs ≡ ok [] → xs ≡ []
ok_nil [] e = refl
ok_nil (x ∷ xs) e = absurd (ground arith)

pub not_below : (a b : ℤ) → ltb_ℤ a b ≡ false → b ≤ℤ a
not_below a b h = ground arith

-- A completion that differs in nothing is canonical, and its fee is within the maximum.
pub completion_agrees :
    (m : SbtcWithdrawalMetadata) (c : CanonicalWithdrawalCompletion)
    → completion_mismatches m c ≡ ok []
    → (c.canonical ≡ true)
      × ((fee : ℤ) × (maximum : ℤ) × (parse_quantity c.fee_sats ≡ ok fee)
          × (parse_quantity m.max_signer_fee_sats ≡ ok maximum)
          × (fee ≤ℤ maximum))
unfolding completion_mismatches
completion_agrees m c e =
    let (id, i, e₁) = bind-ok (uint_string c.request_id (codes "completion.requestId")) _ [] e in
    let (id', i', e₂) = bind-ok (uint_string m.request_id (codes "requestId")) _ [] e₁ in
    let (fee, f, e₃) = bind-ok (parse_quantity c.fee_sats) _ [] e₂ in
    let (maximum, x, e₄) = bind-ok (parse_quantity m.max_signer_fee_sats) _ [] e₃ in
    let (canonical, (same_id, (within, _))) = noted-Quiet _ (ok_nil _ e₄) in
    (negated canonical, (fee, maximum, f, x, not_below maximum fee within))

-- A payout that differs in nothing is canonical, and pays the amount of the withdrawal.
pub payout_agrees :
    (m : SbtcWithdrawalMetadata) (i : WithdrawalEvidence) (p : BitcoinPayoutObservation)
    → payout_mismatches m i.completion i.emily p ≡ ok []
    → (p.canonical ≡ true)
      × ((amount : ℤ) × (parse_quantity m.amount_sats ≡ ok amount)
          × (uint_string p.amount_sats (codes "payout.amountSats") ≡ ok (show_ℤ amount)))
unfolding payout_mismatches
payout_agrees m i p e =
    let (paid, x, e₁) = bind-ok (uint_string p.amount_sats (codes "payout.amountSats")) _ [] e in
    let (asked, y, e₂) = bind-ok (quantity_text m.amount_sats) _ [] e₁ in
    let (script, z, e₃) =
      bind-ok (withdrawal_recipient_script m.recipient_version m.recipient_hashbytes) _ [] e₂ in
    let (completed, c, e₄) = bind-ok (against_completion p i.completion) _ [] e₃ in
    let (fulfilled, f, e₅) = bind-ok (against_fulfillment p (fulfillment_of i.emily)) _ [] e₄ in
    let (first, rest) = nil_parts _ _ (ok_nil _ e₅) in
    let (most, end) = nil_parts _ _ first in
    let (canonical, (same_amount, _)) = noted-Quiet _ most in
    let (amount, q, shown) = bind-ok (parse_quantity m.amount_sats) _ asked y in
    (
      negated canonical,
      (amount, q, x ∙ ap ok ((text_eq_iff paid asked).0 (negated same_amount)) ∙ sym shown),
    )

-- Nothing differs, and nothing contradicts anything.
pub record Agrees (i : WithdrawalEvidence) : Type 0 where
  pub request : each (request_mismatches i.metadata) i.request ≡ ok []
  pub completion : each (completion_mismatches i.metadata) i.completion ≡ ok []
  pub payout : each (payout_mismatches i.metadata i.completion i.emily) i.payout ≡ ok []
  pub consistent : contradictions i ≡ []

pub mismatch_warnings-Agrees : (i : WithdrawalEvidence) → mismatch_warnings i ≡ ok [] → Agrees i
unfolding mismatch_warnings
mismatch_warnings-Agrees i e =
    let (requests, r, e₁) = bind-ok (each (request_mismatches i.metadata) i.request) _ [] e in
    let (emilys, m, e₂) = bind-ok (each (emily_mismatches i.metadata i.request) i.emily) _ [] e₁ in
    let (completions, c, e₃) =
      bind-ok (each (completion_mismatches i.metadata) i.completion) _ [] e₂ in
    let (payouts, p, e₄) =
      bind-ok (each (payout_mismatches i.metadata i.completion i.emily) i.payout) _ [] e₃ in
    let (differences, d, e₅) =
      bind-ok (fulfilled_differently (fulfillment_of i.emily) i.completion) _ [] e₄ in
    let (a, rest) = nil_parts (listed _ requests) _ (ok_nil _ e₅) in
    let (b, rest₁) = nil_parts (listed _ emilys) _ rest in
    let (k, rest₂) = nil_parts (listed _ completions) _ rest₁ in
    let (l, rest₃) = nil_parts (listed _ payouts) _ rest₂ in
    let (q, rest₄) = nil_parts (contradictions i) _ rest₃ in
    record {
      request = r ∙ ap ok (nothing_listed _ requests a);
      completion = c ∙ ap ok (nothing_listed _ completions k);
      payout = p ∙ ap ok (nothing_listed _ payouts l);
      consistent = q;
    }

module _ (available has_mismatch : Bool) (i : WithdrawalEvidence) (confirmations : Option ℕ) where
  pub reconciled_cases :
      withdrawal_state available has_mismatch i confirmations ≡ reconciled
      → (has_mismatch ≡ false)
        × (is_some i.completion ≡ true)
        × (is_some i.payout ≡ true)
        × (is_paid confirmations ≡ true)
  unfolding withdrawal_state
  reconciled_cases e = (ground arith, ground arith, ground arith, ground arith)

  pub rejected_cases :
      withdrawal_state available has_mismatch i confirmations ≡ rejected
      → (has_mismatch ≡ false) × (is_rejected i.request ≡ true)
  unfolding withdrawal_state
  rejected_cases e = (ground arith, ground arith)

pub complete_cases :
    (s : SbtcWithdrawalState) → is_complete s ≡ true → (s ≡ reconciled) ⊎ (s ≡ rejected)
complete_cases reconciled h = inl refl
complete_cases rejected h = inr refl
complete_cases s h = absurd (ground arith)

pub some_of {ℓ} : {A : Type ℓ} (o : Option A) → is_some o ≡ true → (a : A) × (o ≡ some a)
some_of none h = absurd (cc h)
some_of (some a) h = (a, refl)

pub none_of {ℓ} : {A : Type ℓ} (o : Option A) → is_some o ≡ false → o ≡ none
none_of none h = refl
none_of (some a) h = absurd (cc h)

pub no_notes : (notes : List Text) → not (is_empty notes) ≡ false → notes ≡ []
no_notes [] h = refl
no_notes (n ∷ ns) h = absurd (cc h)

pub accepted_of :
    (o : Option CanonicalWithdrawalRequest)
    → is_accepted o ≡ true
    → (r : CanonicalWithdrawalRequest) × (o ≡ some r) × (r.status ≡ some true)
accepted_of none h = absurd (cc h)
accepted_of (some r) h = (r, refl, ground arith)

pub rejected_of :
    (o : Option CanonicalWithdrawalRequest)
    → is_rejected o ≡ true
    → (r : CanonicalWithdrawalRequest) × (o ≡ some r) × (r.status ≡ some false)
rejected_of none h = absurd (cc h)
rejected_of (some r) h = (r, refl, ground arith)

pub request_canonical :
    (m : SbtcWithdrawalMetadata) (r : CanonicalWithdrawalRequest)
    → request_mismatches m r ≡ ok []
    → r.canonical ≡ true
unfolding request_mismatches
request_canonical m r e =
    let (id, i, e₁) = bind-ok (uint_string r.request_id (codes "request.requestId")) _ [] e in
    let (id', i', e₂) = bind-ok (uint_string m.request_id (codes "requestId")) _ [] e₁ in
    let (tx, t, e₃) = bind-ok (txid r.stacks_txid (codes "request.stacksTxid")) _ [] e₂ in
    let (tx', t', e₄) = bind-ok (txid m.stacks_txid (codes "stacksTxid")) _ [] e₃ in
    let (amount, a, e₅) =
      bind-ok (uint_string r.amount_sats (codes "request.amountSats")) _ [] e₄ in
    let (amount', a', e₆) = bind-ok (quantity_text m.amount_sats) _ [] e₅ in
    let (fee, f, e₇) =
      bind-ok (uint_string r.max_signer_fee_sats (codes "request.maxSignerFeeSats")) _ [] e₆ in
    let (fee', f', e₈) = bind-ok (quantity_text m.max_signer_fee_sats) _ [] e₇ in
    negated ((noted-Quiet _ (ok_nil _ e₈)).0)

-- The contradictions that are excluded.
pub consistent_parts :
    (i : WithdrawalEvidence)
    → contradictions i ≡ []
    → (is_some i.completion && not (is_accepted i.request) ≡ false)
      × (is_some i.payout && not (is_some i.completion) ≡ false)
unfolding contradictions
consistent_parts i e = let (first, (second, _)) = noted-Quiet _ e in (first, second)
