-- ===== src/Performance/Attribution.antt =====
-- packages/core/src/performance.ts: `attributeCashFlowYield`. The scale of a price is a natural number,
-- whose power of ten is exact, as it is in the code up to 22.
use capital_os.Shared.{
  ℕ, ◌^◌, Text, codes, text_eq, is_empty, ℤ, pos, ◌+ℤ◌, ◌-ℤ◌, ltb_ℤ, show_ℤ, Bool, true, false,
  Option, none, some, List, [], ◌∷◌, ◌++◌, if◌then◌else◌,
}
use capital_os.Errors.{Result, ok, ◌>>=◌}
use capital_os.Amounts.{parse_quantity, mul_div, down}
use capital_os.Performance.Shares.{ShareRate, underlying_from_shares}

pub data CashFlowKind : Type 0 where
  deposit withdrawal fee reward_claim : CashFlowKind

pub record CashFlowEvent : Type 0 where
  pub id : Text
  pub kind : CashFlowKind
  pub asset_id : Text
  pub amount : Text
  pub timestamp : Text
  pub block_height : Option ℕ
  pub block_hash : Option Text
  pub txid : Option Text

pub record CashFlowAttribution : Type 0 where
  pub deposits_total : Text
  pub withdrawals_total : Text
  pub net_deposits : Text
  pub fees_total : Text
  pub claimed_rewards_total : Text
  pub cost_basis : Text
  pub current_value : Text
  pub unattributed_inflow : Text
  pub has_unattributed_inflow : Bool
  pub earned_yield : Text
  pub warnings : List Text

pub record RealizedEarnings : Type 0 where
  pub amount : Text
  pub usd_value : Option Text
  pub asset_id : Text

pub record UnclaimedReward : Type 0 where
  pub asset_id : Text
  pub amount : Text
  pub usd_value : Option Text
  pub observed_at : Text

pub record AccruedEstimate : Type 0 where
  pub amount : Text
  pub usd_value : Option Text
  pub asset_id : Text
  pub share_appreciation_amount : Text
  pub unclaimed_rewards : List UnclaimedReward

pub record OraclePrice : Type 0 where
  pub price : Text
  pub scale : ℕ

-- An absent `startingUnderlyingValue` is "0", and absent rewards are none.
pub record AttributeYieldParams : Type 0 where
  pub asset_id : Text
  pub current_underlying_value : Text
  pub current_shares : Option Text
  pub current_share_rate : Option ShareRate
  pub initial_share_rate : Option ShareRate
  pub starting_underlying_value : Text
  pub cash_flows : List CashFlowEvent
  pub unclaimed_rewards : List UnclaimedReward
  pub oracle_price : Option OraclePrice

pub record Totals : Type 0 where
  pub deposits : ℤ
  pub withdrawals : ℤ
  pub fees : ℤ
  pub claimed_rewards : ℤ

abbrev pub no_totals : Totals
no_totals = record { deposits = pos 0; withdrawals = pos 0; fees = pos 0; claimed_rewards = pos 0 }

unfoldable pub add_flow : CashFlowKind → ℤ → Totals → Totals
add_flow deposit amt t = record t { deposits = t.deposits +ℤ amt }
add_flow withdrawal amt t = record t { withdrawals = t.withdrawals +ℤ amt }
add_flow fee amt t = record t { fees = t.fees +ℤ amt }
add_flow reward_claim amt t = record t { claimed_rewards = t.claimed_rewards +ℤ amt }

unfoldable pub sum_flows : Totals → List CashFlowEvent → Result Totals
sum_flows t [] = ok t
sum_flows t (cf ∷ cfs) = do amt ← parse_quantity cf.amount; sum_flows (add_flow cf.kind amt t) cfs

-- The larger of a difference and 0.
unfoldable pub excess : ℤ → ℤ → ℤ
excess a b = if ltb_ℤ b a then a -ℤ b else pos 0

unfoldable pub cost_basis_of : Totals → ℤ
cost_basis_of t = excess (t.deposits -ℤ t.withdrawals) (pos 0)

abbrev pub worth_at : Text → ShareRate → Result ℤ
worth_at shares rate = underlying_from_shares shares rate >>= parse_quantity

-- How much the position's shares have gained, if they are known.
unfoldable pub appreciation : Text → ShareRate → Option ShareRate → ℤ → Result ℤ
appreciation shares rate none basis = worth_at shares rate >>= λ cur. ok (excess cur basis)
appreciation shares rate (some initial) basis =
    worth_at shares rate >>= λ cur. worth_at shares initial >>= λ init. ok (excess cur init)

unfoldable pub share_appreciation : AttributeYieldParams → ℤ → Result ℤ
share_appreciation p basis = elim p.current_shares [
  | none ↦ ok (pos 0)
  | some shares ↦ elim p.current_share_rate [
    | none ↦ ok (pos 0)
    | some rate ↦
        if is_empty shares then ok (pos 0) else appreciation shares rate p.initial_share_rate basis
  ]
]

unfoldable pub realized_gains : Totals → ℤ
realized_gains t = excess (excess t.withdrawals t.deposits +ℤ t.claimed_rewards) t.fees

unfoldable pub sum_rewards : Text → ℤ → List UnclaimedReward → Result ℤ
sum_rewards asset total [] = ok total
sum_rewards asset total (r ∷ rs) = elim (text_eq r.asset_id asset) [
  | true ↦ parse_quantity r.amount >>= λ amt. sum_rewards asset (total +ℤ amt) rs
  | false ↦ sum_rewards asset total rs
]

unfoldable pub to_usd : Option OraclePrice → ℤ → Result (Option Text)
to_usd none amt = ok none
to_usd (some o) amt = do
  p ← parse_quantity o.price
  usd ← mul_div amt p (pos (10 ^ o.scale)) down
  ok (some (show_ℤ usd))

abbrev inflow_warning : Text → ℤ → List Text
inflow_warning asset inflow =
    if ltb_ℤ (pos 0) inflow
    then (codes "Balance increase of "
        ++ show_ℤ inflow
        ++ codes " "
        ++ asset
        ++ codes
            " has no cash-flow or share-rate attribution; classified as unattributed inflow and excluded from earned yield.")
      ∷ []
    else []

-- The attribution's figures, before they are written as text.
pub record Figures : Type 0 where
  pub totals : Totals
  pub current : ℤ
  pub start : ℤ
  pub appreciation : ℤ
  pub realized : ℤ
  pub inflow : ℤ
  pub earned : ℤ

unfoldable pub figures : ℤ → ℤ → Totals → ℤ → Figures
figures current start t gain =
    let realized = realized_gains t in
    record {
      totals = t;
      current = current;
      start = start;
      appreciation = gain;
      realized = realized;
      inflow = excess current (start +ℤ (t.deposits -ℤ t.withdrawals) +ℤ gain);
      earned = gain +ℤ realized;
    }

unfoldable pub attribution : Text → Figures → CashFlowAttribution
attribution asset f = record {
  deposits_total = show_ℤ f.totals.deposits;
  withdrawals_total = show_ℤ f.totals.withdrawals;
  net_deposits = show_ℤ (f.totals.deposits -ℤ f.totals.withdrawals);
  fees_total = show_ℤ f.totals.fees;
  claimed_rewards_total = show_ℤ f.totals.claimed_rewards;
  cost_basis = show_ℤ (cost_basis_of f.totals);
  current_value = show_ℤ f.current;
  unattributed_inflow = show_ℤ f.inflow;
  has_unattributed_inflow = ltb_ℤ (pos 0) f.inflow;
  earned_yield = show_ℤ f.earned;
  warnings = inflow_warning asset f.inflow;
}

-- The first half of the function: what is read, and the figures.
unfoldable pub measure : AttributeYieldParams → Result Figures
unfolding sum_flows share_appreciation
measure p = do
  current ← parse_quantity p.current_underlying_value
  start ← parse_quantity p.starting_underlying_value
  t ← sum_flows no_totals p.cash_flows
  gain ← share_appreciation p (cost_basis_of t)
  ok (figures current start t gain)

pub record AttributedYield : Type 0 where
  pub attribution : CashFlowAttribution
  pub realized_earnings : RealizedEarnings
  pub accrued_estimate : AccruedEstimate

unfoldable pub attribute_cash_flow_yield : AttributeYieldParams → Result AttributedYield
unfolding measure
attribute_cash_flow_yield p = do
  f ← measure p
  unclaimed ← sum_rewards p.asset_id (pos 0) p.unclaimed_rewards
  realized_usd ← to_usd p.oracle_price f.realized
  accrued_usd ← to_usd p.oracle_price (f.appreciation +ℤ unclaimed)
  ok (record {
    attribution = attribution p.asset_id f;
    realized_earnings = record {
      amount = show_ℤ f.realized;
      usd_value = realized_usd;
      asset_id = p.asset_id;
    };
    accrued_estimate = record {
      amount = show_ℤ (f.appreciation +ℤ unclaimed);
      usd_value = accrued_usd;
      asset_id = p.asset_id;
      share_appreciation_amount = show_ℤ f.appreciation;
      unclaimed_rewards = p.unclaimed_rewards;
    };
  })
