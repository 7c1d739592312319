-- ===== src/Granite/Evaluate.antt =====
-- packages/adapters/src/granite/creditLifecycle.ts: the view of an intent from its evidence. The tables of
-- the registry and `Date.parse` are arguments.
use capital_os.Shared.{
  Text, codes, ℤ, Bool, true, false, not, ◌||◌, Option, none, some, List, [], ◌∷◌, if◌then◌else◌,
}
use capital_os.Errors.{Result, ok, err, ◌>>=◌}
use capital_os.Network.{StacksNetwork, network_eq}
use capital_os.Risk.{Health}
use capital_os.Registry.Deployments.{
  Tables, ContractRef, CapabilityRecord, active, is_enabled, capability_for, contract,
  find_contract,
}
use capital_os.Granite.Evidence.{
  action_of, GranitePositionEvidence, GraniteMarketEvidence, GraniteCreditIntent,
  CanonicalGraniteSettlement, unavailable, oracle_stale, health_blocked, GraniteContracts,
  GraniteCreditLifecycle, GraniteEvidence,
}
use capital_os.Granite.Gates.{project, Block, granite_block}
use capital_os.Granite.Sums.{message_of}
use capital_os.Granite.Steps.{
  Outcome, RepayStep, Settled, empty_health, empty_repay, goes_on, granite_credit_transfer_id,
  health_view, owed_at, refused, repay_step, settle_outcome, stopped,
}

abbrev pub or_stale : List Text → List Text
or_stale [] = codes "oracle is stale" ∷ []
or_stale (w ∷ ws) = w ∷ ws

unfoldable pub after_gates : GraniteEvidence → Settled → Health → Option Block → Outcome
after_gates i r health (some block) =
    stopped block.state (block.warning ∷ []) (health_view health false) r.view
after_gates i r health none = settle_outcome i r (health_view health false) i.settlement

-- `{ ...input.intent, amount: settled.amount }`
abbrev pub intent_for_health : GraniteEvidence → Settled → GraniteCreditIntent
intent_for_health i r = record i.intent { amount = r.amount }

unfoldable pub after_project :
    GraniteEvidence
    → GraniteMarketEvidence
    → GranitePositionEvidence
    → Settled
    → Result Health
    → Result Outcome
after_project i market position r (err thrown) =
    ok (stopped oracle_stale (message_of thrown ∷ []) empty_health r.view)
after_project i market position r (ok health) =
    if health.stale
    then ok (stopped oracle_stale (or_stale health.warnings) (health_view health true) r.view)
    else (granite_block i.intent market position health i.intent.action >>= λ block.
        ok (after_gates i r health block))

-- `capability?.state === "enabled"`
abbrev pub offers : Option CapabilityRecord → Bool
offers none = false
offers (some c) = is_enabled c.state

abbrev reason_of : Option CapabilityRecord → Text
reason_of none = codes "Granite v0-8-market is not available on this network"
reason_of (some c) = c.reason

abbrev contract_or : Option ContractRef → Text
contract_or none = codes "unavailable"
contract_or (some c) = c.contract_id

-- `findContract(...)?.contractId ?? "unavailable"`, three times.
unfoldable pub known_contracts : Tables → StacksNetwork → GraniteContracts
known_contracts tables network = record {
  market = contract_or (find_contract tables (codes "granite") (codes "v0-8-market") network);
  sbtc = contract_or (find_contract tables (codes "sbtc") (codes "sbtc-token") network);
  usdcx = contract_or (find_contract tables (codes "usdcx") (codes "usdcx") network);
}

abbrev moved_by {ℓ} :
    {A : Type ℓ} → (CanonicalGraniteSettlement → A) → Option CanonicalGraniteSettlement → Option A
moved_by f none = none
moved_by f (some s) = some (f s)

abbrev held_by {ℓ} :
    {A : Type ℓ} → (GranitePositionEvidence → A) → Option GranitePositionEvidence → Option A
held_by f none = none
held_by f (some p) = some (f p)

-- `lifecycle`
unfoldable pub granite_view : Tables → GraniteEvidence → Outcome → GraniteCreditLifecycle
granite_view tables i o = record {
  transfer_id =
      granite_credit_transfer_id i.intent.network i.intent.action i.intent.idempotency_key;
  action = i.intent.action;
  network = i.intent.network;
  state = o.state;
  complete = o.complete;
  next_action = o.next_action;
  broadcast_allowed = false;
  contracts = known_contracts tables i.intent.network;
  repay = o.repay;
  health = o.health;
  observed = record {
    stacks_txid = moved_by (λ (s : CanonicalGraniteSettlement). s.stacks_txid) i.settlement;
    asset_moved = moved_by (λ (s : CanonicalGraniteSettlement). s.asset_moved) i.settlement;
    collateral = held_by (λ (p : GranitePositionEvidence). p.collateral) i.position;
    debt = owed_at i.position;
  };
  warnings = o.warnings;
}

abbrev pub is_mainnet : StacksNetwork → Bool
is_mainnet network = network_eq network StacksNetwork.mainnet

abbrev pub granite_capability : Tables → GraniteEvidence → Option CapabilityRecord
granite_capability tables i =
    capability_for tables (action_of i.intent.action) i.intent.network (some (codes "granite"))
      active

module _ (parse_date : Text → Option ℤ) (tables : Tables) where
  unfoldable pub after_repay :
      GraniteEvidence → GraniteMarketEvidence → GranitePositionEvidence → RepayStep → Result Outcome
  after_repay i market position (refused message) =
      ok (stopped health_blocked (message ∷ []) empty_health (empty_repay i))
  after_repay i market position (goes_on r) =
      after_project i market position r
        (project parse_date (intent_for_health i r) position market i.now)

  unfoldable pub with_evidence :
      GraniteEvidence
      → Option GraniteMarketEvidence
      → Option GranitePositionEvidence
      → Result Outcome
  with_evidence i (some market) (some position) =
      repay_step i position i.intent.action >>= λ step. after_repay i market position step
  with_evidence i none position = ok (
      stopped unavailable (codes "Granite market or position evidence is missing" ∷ []) empty_health
        (empty_repay i))
  with_evidence i (some market) none = ok (
      stopped unavailable (codes "Granite market or position evidence is missing" ∷ []) empty_health
        (empty_repay i))

  unfoldable pub granite_outcome : GraniteEvidence → Result Outcome
  granite_outcome i =
      if not (is_mainnet i.intent.network) || not (offers (granite_capability tables i))
      then ok (
          stopped unavailable (reason_of (granite_capability tables i) ∷ []) empty_health
            (empty_repay i))
      else with_evidence i i.market i.position

  unfoldable pub evaluate_granite_credit : GraniteEvidence → Result GraniteCreditLifecycle
  evaluate_granite_credit i = granite_outcome i >>= λ o. ok (granite_view tables i o)

unfoldable pub granite_contracts : Tables → StacksNetwork → Result GraniteContracts
granite_contracts tables network = do
  m ← contract tables (codes "granite") (codes "v0-8-market") network
  s ← contract tables (codes "sbtc") (codes "sbtc-token") network
  u ← contract tables (codes "usdcx") (codes "usdcx") network
  ok (record { market = m.contract_id; sbtc = s.contract_id; usdcx = u.contract_id })
