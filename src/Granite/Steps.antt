-- ===== src/Granite/Steps.antt =====
-- packages/adapters/src/granite/creditLifecycle.ts: the repayment, the comparison with a settlement, and what
-- the view is given of each.
use capital_os.Shared.{
  Text, codes, text_eq, ℤ, pos, ◌-ℤ◌, ltb_ℤ, show_ℤ, Bool, true, false, ◌||◌, ◌==◌, ℕ, Option, none,
  some, List, [], ◌∷◌, ◌++◌, if◌then◌else◌,
}
use capital_os.Errors.{Result, ok, ◌>>=◌}
use capital_os.Network.{StacksNetwork}
use capital_os.Ids.{network_text}
use capital_os.Amounts.{parse_quantity}
use capital_os.Risk.{Health}
use capital_os.Registry.Deployments.{action_text}
use capital_os.Granite.Evidence.{
  GraniteCreditAction, supplies, withdraws, borrows, repays, action_of, GranitePositionEvidence,
  GraniteCreditIntent, SettlementKind, collateral_add, collateral_remove, granite_borrow,
  granite_repay, CanonicalGraniteSettlement, GraniteCreditState, awaiting_signature, submitted,
  confirming, reconciled, reconciliation_failed, GraniteNextAction, wait, sign, contact_support,
  complete, not_available, RepayView, HealthView, GraniteEvidence,
}
use capital_os.Granite.Sums.{owed, RepaySettlement, settled, turned_down, settle_granite_repay}

unfoldable pub granite_credit_transfer_id : StacksNetwork → GraniteCreditAction → Text → Text
granite_credit_transfer_id network action idempotency_key =
    network_text network
    ++ codes ":granite:"
    ++ action_text (action_of action)
    ++ codes ":"
    ++ idempotency_key

abbrev pub empty_health : HealthView
empty_health = record {
  current_ltv_bps = none;
  health_factor_bps = none;
  max_borrow = none;
  within_buffer = none;
  healthy = none;
  stale = true;
}

abbrev pub health_view : Health → Bool → HealthView
health_view h stale = record {
  current_ltv_bps = some (show_ℤ h.current_ltv_bps);
  health_factor_bps = some (show_ℤ h.health_factor_bps);
  max_borrow = some (show_ℤ h.max_borrow);
  within_buffer = some h.within_buffer;
  healthy = some h.healthy;
  stale = stale;
}

abbrev pub owed_at : Option GranitePositionEvidence → Option Text
owed_at none = none
owed_at (some p) = some (owed p)

abbrev pub empty_repay : GraniteEvidence → RepayView
empty_repay i = record {
  requested = i.intent.amount;
  settled_amount = none;
  is_repay_all = false;
  accrued_debt = owed_at i.position;
  remaining_debt = none;
}

-- What the calls of `lifecycle` are given.
pub record Outcome : Type 0 where
  pub state : GraniteCreditState
  pub next_action : GraniteNextAction
  pub complete : Bool
  pub warnings : List Text
  pub health : HealthView
  pub repay : RepayView

-- `lifecycle(state, "UNAVAILABLE", false, ...)`
abbrev pub stopped : GraniteCreditState → List Text → HealthView → RepayView → Outcome
stopped state warnings health repay = record {
  state = state;
  next_action = not_available;
  complete = false;
  warnings = warnings;
  health = health;
  repay = repay;
}

-- A repayment that was settled, with the intent's amount and the view of it; other actions keep theirs.
pub record Settled : Type 0 where
  pub amount : Text
  pub view : RepayView

pub data RepayStep : Type 0 where
  goes_on : Settled → RepayStep
  refused : Text → RepayStep

abbrev at_least_nought : ℤ → Text
at_least_nought z = if ltb_ℤ z (pos 0) then codes "0" else show_ℤ z

unfoldable pub repay_taken : GraniteEvidence → RepaySettlement → Result RepayStep
repay_taken i (turned_down message) = ok (refused message)
repay_taken i (settled r) = do
  accrued ← parse_quantity r.accrued_debt
  paid ← parse_quantity r.amount
  ok (
      goes_on (record {
        amount = r.amount;
        view = record {
          requested = i.intent.amount;
          settled_amount = some r.amount;
          is_repay_all = r.is_repay_all;
          accrued_debt = some r.accrued_debt;
          remaining_debt = some (at_least_nought (accrued -ℤ paid));
        };
      }))

unfoldable pub repay_step :
    GraniteEvidence → GranitePositionEvidence → GraniteCreditAction → Result RepayStep
repay_step i p repays = settle_granite_repay i.intent.amount p >>= λ s. repay_taken i s
repay_step i p supplies = ok (goes_on (record { amount = i.intent.amount; view = empty_repay i }))
repay_step i p withdraws = ok (goes_on (record { amount = i.intent.amount; view = empty_repay i }))
repay_step i p borrows = ok (goes_on (record { amount = i.intent.amount; view = empty_repay i }))

abbrev kind_rank : SettlementKind → ℕ
kind_rank collateral_add = 0
kind_rank collateral_remove = 1
kind_rank granite_borrow = 2
kind_rank granite_repay = 3

abbrev pub kind_eq : SettlementKind → SettlementKind → Bool
kind_eq a b = kind_rank a == kind_rank b

abbrev kind_text : SettlementKind → Text
kind_text collateral_add = codes "granite_collateral_add"
kind_text collateral_remove = codes "granite_collateral_remove"
kind_text granite_borrow = codes "granite_borrow"
kind_text granite_repay = codes "granite_repay"

abbrev pub expected_kind : GraniteCreditAction → SettlementKind
expected_kind supplies = collateral_add
expected_kind withdraws = collateral_remove
expected_kind borrows = granite_borrow
expected_kind repays = granite_repay

abbrev pub is_recipient : Text → Option Text → Bool
is_recipient owner none = false
is_recipient owner (some recipient) = text_eq owner recipient

abbrev pub unless : Bool → Text → List Text
unless true note = []
unless false note = note ∷ []

-- In what a canonical settlement differs from the intent, whose asset moved should be `amount`.
unfoldable pub settlement_mismatches :
    GraniteCreditIntent → Text → CanonicalGraniteSettlement → List Text
settlement_mismatches intent amount s =
    unless (kind_eq s.kind (expected_kind intent.action)) (
      codes "expected "
      ++ kind_text (expected_kind intent.action)
      ++ codes ", observed "
      ++ kind_text s.kind)
    ++ unless (text_eq s.owner intent.owner || is_recipient s.owner intent.recipient)
        (codes "settlement owner does not match the intent")
    ++ unless (text_eq s.asset_moved amount)
        (codes "asset moved " ++ s.asset_moved ++ codes " !== expected " ++ amount)

abbrev pub judged : List Text → HealthView → RepayView → Outcome
judged [] health repay = record {
  state = reconciled;
  next_action = complete;
  complete = true;
  warnings = [];
  health = health;
  repay = repay;
}
judged (m ∷ ms) health repay = record {
  state = reconciliation_failed;
  next_action = contact_support;
  complete = false;
  warnings = m ∷ ms;
  health = health;
  repay = repay;
}

abbrev waiting :
    GraniteCreditState → GraniteNextAction → List Text → HealthView → RepayView → Outcome
waiting state next warnings health repay = record {
  state = state;
  next_action = next;
  complete = false;
  warnings = warnings;
  health = health;
  repay = repay;
}

-- From the test for a settlement on, for an intent that nothing blocks.
unfoldable pub settle_outcome :
    GraniteEvidence → Settled → HealthView → Option CanonicalGraniteSettlement → Outcome
settle_outcome i r health none =
    if i.broadcast_known
    then waiting submitted wait [] health r.view
    else waiting awaiting_signature sign [] health r.view
settle_outcome i r health (some s) =
    if s.canonical
    then judged (settlement_mismatches i.intent r.amount s) health r.view
    else waiting confirming wait
        (codes "Granite settlement is not yet on a canonical Stacks block" ∷ []) health r.view
