-- ===== src/Signing/Coverage.antt =====
-- packages/core/src/signing.ts: what the binding of post-conditions to the quote comes to.
use capital_os.Shared.{
  Text, codes, Bool, true, some, List, [], ◌∷◌, ◌++◌, ◌≡◌, refl, sym, arith, ℤ, eq_of_parts,
  Bool-cases, Option-cases, inl, inr,
}
use mathlib.Core.List.{Perm}
use mathlib.Core.List.Perm
use capital_os.Errors.{Result, ok, err, ◌>>=◌}
use capital_os.Ids.{AssetIdentity, native, contract, btc, stx}
use capital_os.Amounts.{AssetAmount, Value, assert_financial_int}
use capital_os.Plan.{
  PostCondition, PostConditionKind, send_lte, send_eq, send_gte, receive_gte, UnsignedPayload,
  bitcoin_deposit, stacks_contract_call, PlanStep, Plan, Quote,
}
use capital_os.Signing.Checks.{
  SigningContext, Left, amounts_equal, take_amount, take_first, is_deposited, is_bitcoin, taken,
  is_send, condition_reasons, conditions_reasons, payload_reasons, steps_reasons,
  post_condition_binding_reasons, after, wrong_network, wrong_sender, unprotected, with_minimum,
}
use capital_os.Signing.Outflow.{
  Covered, Covered-none, Covered-then, Fits, Outflow, amounts_equal-Same, condition_outflow,
  conditions_outflow, deposited, done, pair, payload_outflow, sent, steps_outflow,
}

-- `take_first` takes an item that passes the test and leaves the others.
pub take_first-Perm :
    (test : AssetAmount → Bool) (pool rest : List AssetAmount)
    → take_first test pool ≡ some rest
    → (a : AssetAmount) × (test a ≡ true) × Perm pool (a ∷ rest)
unfolding take_first
take_first-Perm test [] rest h = absurd (ground arith)
take_first-Perm test (a ∷ pool) rest h = elim (Bool-cases (test a)) [
  | inl e ↦ let same : rest ≡ pool = ground arith in (a, e, rw same (Perm.refl (a ∷ pool)))
  | inr e ↦ elim (Option-cases (take_first test pool)) [
    | inl n ↦ absurd (ground arith)
    | inr (r, o) ↦
        let same : rest ≡ a ∷ r = ground arith in
        let (b, passes, p) = take_first-Perm test pool r o in
        (b, passes, rw same (Perm.trans (Perm.cons a p) (Perm.swap _ _ _)))
  ]
]

taken-Covered :
    (pool rest : List AssetAmount) (test : AssetAmount → Bool) (o : Outflow) (reason : Text)
    → ((a : AssetAmount) → test a ≡ true → Fits a o)
    → taken pool (take_first test pool) reason ≡ (rest, [])
    → Covered pool rest (o ∷ [])
taken-Covered pool rest test o reason fits h = elim (Option-cases (take_first test pool)) [
  | inl n ↦ absurd (ground (arith, n, h))
  | inr (r, e) ↦
      let same : r ≡ rest = ground (arith, e, h) in
      let (a, passes, p) = take_first-Perm test pool r e in
      record { used = a ∷ []; parted = rw (sym same) p; fitting = pair (fits a passes) done }
]

after-nil :
    (reasons : List Text) (l : Left) (rest : List AssetAmount)
    → after reasons l ≡ (rest, [])
    → (reasons ≡ []) × (l ≡ (rest, []))
after-nil [] (pool, more) rest h = (refl, h)
after-nil (r ∷ reasons) (pool, more) rest h = absurd (ground arith)

is_native_btc : (i : AssetIdentity) → is_bitcoin i ≡ true → i ≡ native btc
is_native_btc (native btc) h = refl
is_native_btc (native stx) h = absurd (cc h)
is_native_btc (contract p n) h = absurd (cc h)

deposited-Fits :
    (sats : Value) (q : ℤ) (a : AssetAmount)
    → assert_financial_int sats (codes "bitcoin deposit amount") ≡ ok q
    → is_deposited q a ≡ true
    → Fits a (deposited sats)
deposited-Fits sats q a e h =
    let same : a.quantity ≡ q = eq_of_parts a.quantity q (ground (arith, h)) in
    (is_native_btc a.asset.identity (ground (arith, h)), rw same e)

-- A send takes its amount, whatever is sent of it; a receive leaves the pool as it is.
send-Covered :
    (ctx : SigningContext) (receive uncovered rest : List AssetAmount) (c : PostCondition)
    → is_send c.mode ≡ true
    → condition_reasons ctx receive uncovered c ≡ (rest, [])
    → Covered uncovered rest (sent c.amount ∷ [])
unfolding condition_reasons take_amount
send-Covered ctx receive uncovered rest c e h =
    let sent_one : after (wrong_network ctx c) (
          after (wrong_sender ctx c) (
            taken uncovered (take_amount uncovered c.amount)
              (codes "send post-condition amount is not present on the quote input")))
        ≡ (rest, []) =
      ground (arith, e, h) in
    taken-Covered uncovered rest (λ item. amounts_equal item c.amount) (sent c.amount) _
      (λ a. amounts_equal-Same a c.amount) (after-nil _ _ rest (after-nil _ _ rest sent_one).1).1

kept :
    (ctx : SigningContext) (receive uncovered rest : List AssetAmount) (c : PostCondition)
    → c.mode ≡ receive_gte
    → condition_reasons ctx receive uncovered c ≡ (rest, [])
    → uncovered ≡ rest
unfolding condition_reasons
kept ctx receive uncovered rest c e h = ground (arith, e, h)

condition-Covered :
    (ctx : SigningContext) (receive uncovered rest : List AssetAmount) (c : PostCondition)
    (mode : PostConditionKind)
    → c.mode ≡ mode
    → condition_reasons ctx receive uncovered c ≡ (rest, [])
    → Covered uncovered rest (condition_outflow mode c.amount)
condition-Covered ctx receive uncovered rest c send_lte e h =
    send-Covered ctx receive uncovered rest c (rw e refl) h
condition-Covered ctx receive uncovered rest c send_eq e h =
    send-Covered ctx receive uncovered rest c (rw e refl) h
condition-Covered ctx receive uncovered rest c send_gte e h =
    send-Covered ctx receive uncovered rest c (rw e refl) h
condition-Covered ctx receive uncovered rest c receive_gte e h =
    rw (kept ctx receive uncovered rest c e h) (Covered-none rest)

conditions-Covered :
    (ctx : SigningContext) (receive uncovered rest : List AssetAmount) (cs : List PostCondition)
    → conditions_reasons ctx receive uncovered cs ≡ (rest, [])
    → Covered uncovered rest (conditions_outflow cs)
unfolding conditions_reasons conditions_outflow
conditions-Covered ctx receive uncovered rest [] h =
    let all : uncovered ≡ rest = ground arith in rw all (Covered-none rest)
conditions-Covered ctx receive uncovered rest (c ∷ cs) h =
    let first : Left = condition_reasons ctx receive uncovered c in
    let (clean, more) = after-nil first.1 (conditions_reasons ctx receive first.0 cs) rest h in
    Covered-then
      (condition-Covered ctx receive uncovered first.0 c c.mode refl (λ i. (first.0, clean i)))
      (conditions-Covered ctx receive first.0 rest cs more)

deposit-Covered :
    (uncovered rest : List AssetAmount) (sats : Value) (amount : Result ℤ) (reason : Text)
    → assert_financial_int sats (codes "bitcoin deposit amount") ≡ amount
    → (amount >>= λ quantity.
        ok (taken uncovered (take_first (is_deposited quantity) uncovered) reason))
      ≡ ok (rest, [])
    → Covered uncovered rest (deposited sats ∷ [])
deposit-Covered uncovered rest sats (err e) reason k h = absurd (ground arith)
deposit-Covered uncovered rest sats (ok q) reason k h =
    taken-Covered uncovered rest (is_deposited q) (deposited sats) reason
      (λ a. deposited-Fits sats q a k) (ground arith)

payload-Covered :
    (ctx : SigningContext) (receive uncovered rest : List AssetAmount) (p : UnsignedPayload)
    → payload_reasons ctx receive uncovered p ≡ ok (rest, [])
    → Covered uncovered rest (payload_outflow p)
unfolding payload_reasons payload_outflow
payload-Covered ctx receive uncovered rest (bitcoin_deposit p) h =
    deposit-Covered uncovered rest p.amount_sats _ _ refl h
payload-Covered ctx receive uncovered rest (stacks_contract_call p) h =
    conditions-Covered ctx receive uncovered rest p.post_conditions (ground arith)

after-ok :
    (reasons : List Text) (r : Result Left) (rest : List AssetAmount)
    → (r >>= λ l. ok (after reasons l)) ≡ ok (rest, [])
    → (reasons ≡ []) × (r ≡ ok (rest, []))
after-ok reasons (err e) rest h = absurd (ground arith)
after-ok reasons (ok l) rest h =
    let (clean, same) = after-nil reasons l rest (ground arith) in (clean, λ i. ok (same i))

in_turn :
    (first : Result Left) (next : List AssetAmount → Result Left) (rest : List AssetAmount)
    → (first >>= λ here. next here.0 >>= λ l. ok (after here.1 l)) ≡ ok (rest, [])
    → (middle : List AssetAmount) × (first ≡ ok (middle, [])) × (next middle ≡ ok (rest, []))
in_turn (err e) next rest h = absurd (ground arith)
in_turn (ok (middle, reasons)) next rest h =
    let (clean, more) = after-ok reasons (next middle) rest h in
    (middle, (λ i. ok (middle, clean i)), more)

steps-Covered :
    (ctx : SigningContext) (receive uncovered rest : List AssetAmount) (steps : List PlanStep)
    → steps_reasons ctx receive uncovered steps ≡ ok (rest, [])
    → Covered uncovered rest (steps_outflow steps)
unfolding steps_reasons steps_outflow
steps-Covered ctx receive uncovered rest [] h =
    let all : uncovered ≡ rest = ground arith in rw all (Covered-none rest)
steps-Covered ctx receive uncovered rest (s ∷ steps) h =
    let (middle, here, there) =
      in_turn (payload_reasons ctx receive uncovered s.payload)
        (λ pool. steps_reasons ctx receive pool steps) rest h in
    Covered-then (payload-Covered ctx receive uncovered middle s.payload here)
      (steps-Covered ctx receive middle rest steps there)

protected_of :
    (r : Result Left) → (r >>= λ left. ok (left.1 ++ unprotected left.0)) ≡ ok [] → r ≡ ok ([], [])
protected_of (err e) h = absurd (ground arith)
protected_of (ok ([], [])) h = refl
protected_of (ok (a ∷ pool, [])) h = absurd (ground arith)
protected_of (ok (pool, r ∷ reasons)) h = absurd (ground arith)

pub outflow-Covered :
    (plan : Plan) (quote : Quote) (ctx : SigningContext)
    → post_condition_binding_reasons plan quote ctx ≡ ok []
    → Covered quote.input [] (steps_outflow plan.steps)
unfolding post_condition_binding_reasons
outflow-Covered plan quote ctx h =
    steps-Covered ctx (quote.expected_output ++ with_minimum quote.minimum_output) quote.input []
      plan.steps (protected_of _ h)
