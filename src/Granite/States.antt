-- ===== src/Granite/States.antt =====
-- packages/adapters/src/granite/creditLifecycle.ts: what each state of an intent says of its evidence.
use capital_os.Shared.{Text, text_eq, ℤ, true, false, ◌||◌, Option, none, some, List, [], ◌≡◌}
use capital_os.Errors.{ok}
use capital_os.Risk.{Health}
use capital_os.Registry.Deployments.{Tables}
use capital_os.Granite.Evidence.{
  GranitePositionEvidence, GraniteMarketEvidence, CanonicalGraniteSettlement, GraniteCreditState,
  unavailable, oracle_stale, paused, liquidity_blocked, health_blocked, awaiting_signature,
  submitted, confirming, reconciled, reconciliation_failed, GraniteNextAction, not_available,
  GraniteEvidence,
}
use capital_os.Granite.Gates.{project}
use capital_os.Granite.Evaluate.{intent_for_health, offers, is_mainnet, granite_capability}
use capital_os.Granite.Steps.{Settled, goes_on, repay_step, kind_eq, expected_kind, is_recipient}
use capital_os.Granite.Permitted.{Permitted}

-- What holds of an intent that nothing blocks: it is on mainnet and offered, its evidence is there, the
-- projected health is fresh, and the action is permitted.
pub record IsCleared (parse_date : Text → Option ℤ) (tables : Tables) (i : GraniteEvidence)
    : Type 0 where
  pub market : GraniteMarketEvidence
  pub position : GranitePositionEvidence
  pub settled : Settled
  pub health : Health
  pub on_mainnet : is_mainnet i.intent.network ≡ true
  pub offered : offers (granite_capability tables i) ≡ true
  pub market_is : i.market ≡ some market
  pub position_is : i.position ≡ some position
  pub settled_is : repay_step i position i.intent.action ≡ ok (goes_on settled)
  pub health_is : project parse_date (intent_for_health i settled) position market i.now ≡ ok health
  pub fresh : health.stale ≡ false
  pub permitted : Permitted i.intent market position health i.intent.action

-- A canonical settlement of the intent, of the amount that it settled on.
pub record Fits (i : GraniteEvidence) (amount : Text) : Type 0 where
  pub settlement : CanonicalGraniteSettlement
  pub settlement_is : i.settlement ≡ some settlement
  pub canonical : settlement.canonical ≡ true
  pub kind : kind_eq settlement.kind (expected_kind i.intent.action) ≡ true
  pub owner :
      text_eq settlement.owner i.intent.owner || is_recipient settlement.owner i.intent.recipient
      ≡ true
  pub moved : settlement.asset_moved ≡ amount

abbrev pub Stopped : GraniteNextAction → List Text → Type 0
Stopped next warnings = (next ≡ not_available) × (¬ (warnings ≡ []))

-- What each state of an intent says of its evidence.
abbrev pub Stands :
    (Text → Option ℤ)
    → Tables
    → GraniteEvidence
    → GraniteNextAction
    → List Text
    → GraniteCreditState
    → Type 0
Stands parse_date tables i next warnings awaiting_signature =
    IsCleared parse_date tables i × (i.settlement ≡ none) × (i.broadcast_known ≡ false)
Stands parse_date tables i next warnings submitted =
    IsCleared parse_date tables i × (i.settlement ≡ none) × (i.broadcast_known ≡ true)
Stands parse_date tables i next warnings confirming =
    IsCleared parse_date tables i
    × ((s : CanonicalGraniteSettlement) × (i.settlement ≡ some s) × (s.canonical ≡ false))
Stands parse_date tables i next warnings reconciled =
    (c : IsCleared parse_date tables i) × Fits i c.settled.amount
Stands parse_date tables i next warnings reconciliation_failed =
    IsCleared parse_date tables i × (¬ (warnings ≡ []))
Stands parse_date tables i next warnings unavailable = Stopped next warnings
Stands parse_date tables i next warnings oracle_stale = Stopped next warnings
Stands parse_date tables i next warnings paused = Stopped next warnings
Stands parse_date tables i next warnings liquidity_blocked = Stopped next warnings
Stands parse_date tables i next warnings health_blocked = Stopped next warnings
