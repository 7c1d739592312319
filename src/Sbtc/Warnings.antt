-- ===== src/Sbtc/Warnings.antt =====
-- packages/adapters/src/sbtc/withdrawalLifecycle.ts: whether a withdrawal is offered, its contracts, and every
-- warning that its evidence does not fit.
use capital_os.Shared.{
  Text, codes, join, Bool, true, false, not, ◌&&◌, ◌||◌, Option, none, some, List, [], ◌∷◌, ◌++◌,
  if◌then◌else◌,
}
use capital_os.Errors.{Result, ok, ◌>>=◌}
use capital_os.Network.{StacksNetwork}
use capital_os.Ids.{network_text}
use capital_os.Plan.{withdraw_sbtc}
use capital_os.Registry.Deployments.{
  Tables, CapabilityRecord, active, is_enabled, capability_for, contract,
}
use capital_os.Sbtc.Fields.{uint_string, noted}
use capital_os.Sbtc.Withdrawal.{
  EmilyWithdrawalStatus, accepted, confirmed, failed, SbtcWithdrawalMetadata, Fulfillment,
  EmilyWithdrawal, CanonicalWithdrawalRequest, CanonicalWithdrawalCompletion, Availability,
  WithdrawalContracts, WithdrawalEvidence,
}
use capital_os.Sbtc.Mismatches.{
  request_mismatches, emily_mismatches, completion_mismatches, payout_mismatches,
  fulfillment_differences, fulfillment_of,
}

unfoldable pub sbtc_withdrawal_transfer_id : SbtcWithdrawalMetadata → Result Text
sbtc_withdrawal_transfer_id m = do
  id ← uint_string m.request_id (codes "requestId")
  ok (codes "sbtc-withdrawal:" ++ network_text m.network ++ codes ":" ++ id)

abbrev availability_of : Option CapabilityRecord → Availability
availability_of none = record {
  available = false;
  reason = some (codes "sBTC withdrawal is not registered for this environment");
}
availability_of (some c) =
    if is_enabled c.state
    then record { available = true; reason = none }
    else record { available = false; reason = some c.reason }

unfoldable pub sbtc_withdrawal_availability : Tables → StacksNetwork → Availability
sbtc_withdrawal_availability tables network =
    availability_of (capability_for tables withdraw_sbtc network (some (codes "sbtc")) active)

unfoldable pub withdrawal_contracts : Tables → StacksNetwork → Result WithdrawalContracts
withdrawal_contracts tables network = do
  w ← contract tables (codes "sbtc") (codes "sbtc-withdrawal") network
  r ← contract tables (codes "sbtc") (codes "sbtc-registry") network
  t ← contract tables (codes "sbtc") (codes "sbtc-token") network
  ok (record { withdrawal = w.contract_id; registry = r.contract_id; token = t.contract_id })

-- `value === null ? [] : f(value)`
abbrev pub each {ℓ} : {A : Type ℓ} → (A → Result (List Text)) → Option A → Result (List Text)
each f none = ok []
each f (some x) = f x

abbrev pub is_some {ℓ} : {A : Type ℓ} → Option A → Bool
is_some none = false
is_some (some x) = true

-- `request?.status === true` and `=== false`
abbrev pub is_accepted : Option CanonicalWithdrawalRequest → Bool
is_accepted none = false
is_accepted (some r) = elim r.status [ some true ↦ true | some false ↦ false | none ↦ false ]

abbrev pub is_rejected : Option CanonicalWithdrawalRequest → Bool
is_rejected none = false
is_rejected (some r) = elim r.status [ some true ↦ false | some false ↦ true | none ↦ false ]

abbrev pub status_failed : EmilyWithdrawalStatus → Bool
status_failed failed = true
status_failed _ = false

abbrev pub status_confirmed : EmilyWithdrawalStatus → Bool
status_confirmed confirmed = true
status_confirmed _ = false

abbrev pub status_open : EmilyWithdrawalStatus → Bool
status_open accepted = true
status_open EmilyWithdrawalStatus.pending = true
status_open _ = false

-- `emily?.status === ...`
abbrev pub emily_is : (EmilyWithdrawalStatus → Bool) → Option EmilyWithdrawal → Bool
emily_is test none = false
emily_is test (some e) = test e.status

abbrev pub listed : Text → List Text → List Text
listed title [] = []
listed title (m ∷ ms) = (title ++ join (codes ", ") (m ∷ ms)) ∷ []

-- The evidence that contradicts itself.
unfoldable pub contradictions : WithdrawalEvidence → List Text
contradictions i = noted (
    (
      is_some i.completion && not (is_accepted i.request),
      codes "Canonical completion exists without an accepted canonical withdrawal request",
    )
    ∷ (
      is_some i.payout && not (is_some i.completion),
      codes "Bitcoin payout cannot be attributed without canonical completion evidence",
    )
    ∷ (
      emily_is status_failed i.emily && (is_accepted i.request || is_some i.completion),
      codes "Emily signer failure contradicts canonical acceptance or completion",
    )
    ∷ (
      emily_is status_confirmed i.emily && is_rejected i.request,
      codes "Emily confirmation contradicts canonical rejection",
    )
    ∷ [])

abbrev pub fulfilled_differently :
    Option Fulfillment → Option CanonicalWithdrawalCompletion → Result (List Text)
fulfilled_differently (some f) (some c) = fulfillment_differences f c
fulfilled_differently none c = ok []
fulfilled_differently (some f) none = ok []

abbrev pub flatten : List (List Text) → List Text
flatten [] = []
flatten (l ∷ ls) = l ++ flatten ls

-- Every warning that comes with `hasMismatch = true`; it is set exactly when there is one.
unfoldable pub mismatch_warnings : WithdrawalEvidence → Result (List Text)
mismatch_warnings i = do
  requests ← each (request_mismatches i.metadata) i.request
  emilys ← each (emily_mismatches i.metadata i.request) i.emily
  completions ← each (completion_mismatches i.metadata) i.completion
  payouts ← each (payout_mismatches i.metadata i.completion i.emily) i.payout
  differences ← fulfilled_differently (fulfillment_of i.emily) i.completion
  ok (
      flatten (
        listed (codes "Canonical request mismatch: ") requests
        ∷ listed (codes "Emily evidence mismatch: ") emilys
        ∷ listed (codes "Canonical completion mismatch: ") completions
        ∷ listed (codes "Bitcoin payout mismatch: ") payouts
        ∷ contradictions i
        ∷ listed (codes "Emily fulfillment does not match canonical completion: ") differences
        ∷ []))
