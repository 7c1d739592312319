-- ===== src/Granite/Sums.antt =====
-- packages/adapters/src/granite/creditLifecycle.ts: the prices, the repayment and the amounts that are worked
-- out of the evidence.
use capital_os.Shared.{
  Text, codes, text_eq, ℤ, pos, ◌-ℤ◌, eqb_ℤ, show_ℤ, Bool, false, ◌||◌, Option, none, some,
}
use capital_os.Errors.{Result, ok, Thrown, error, capital, ◌>>=◌}
use capital_os.Amounts.{parse_quantity}
use capital_os.Risk.{OracleQuote, RiskParams}
use capital_os.BorrowSafety.{Settlement, amount, refused, settle_repay_amount}
use capital_os.Granite.Evidence.{
  GraniteCreditAction, supplies, withdraws, borrows, repays, OracleSnapshot,
  GranitePositionEvidence, GraniteRiskParams, GraniteCreditIntent, VaultSnapshot,
}

-- `error instanceof Error ? error.message : "oracle is stale"`; a CapitalError is a plain object there.
abbrev pub message_of : Thrown → Text
message_of (error message) = message
message_of (capital e) = codes "oracle is stale"

unfoldable pub as_oracle : OracleSnapshot → Result OracleQuote
as_oracle snapshot = do
  price ← parse_quantity snapshot.price
  scale ← parse_quantity snapshot.scale
  ok (record {
    price = price;
    scale = scale;
    observed_at = snapshot.observed_at;
    source = snapshot.source;
    stale = snapshot.stale;
    max_age_ms = snapshot.max_age_ms;
    disagreement = false;
    source_set = none;
    status = none;
    warnings = none;
  })

-- The debt that counts: what the protocol says has accrued, or what is stored.
abbrev pub owed : GranitePositionEvidence → Text
owed p = elim p.accrued_debt [ none ↦ p.debt | some accrued ↦ accrued ]

-- `{ amount, isRepayAll, accruedDebt } | { error }`
pub record GraniteRepay : Type 0 where
  pub amount : Text
  pub is_repay_all : Bool
  pub accrued_debt : Text

pub data RepaySettlement : Type 0 where
  settled : GraniteRepay → RepaySettlement
  turned_down : Text → RepaySettlement

abbrev pub repay_settled : Text → Text → ℤ → Settlement → RepaySettlement
repay_settled requested accrued debt (refused message) = turned_down message
repay_settled requested accrued debt (amount paid) = settled (record {
  amount = show_ℤ paid;
  is_repay_all = text_eq requested (codes "max") || eqb_ℤ paid debt;
  accrued_debt = accrued;
})

unfoldable pub settle_granite_repay : Text → GranitePositionEvidence → Result RepaySettlement
settle_granite_repay requested position = do
  debt ← parse_quantity (owed position)
  ok (repay_settled requested (owed position) debt (settle_repay_amount requested debt))

abbrev minus : ℤ → ℤ
minus z = pos 0 -ℤ z

-- `parseQuantity` of an amount that may be undefined, which counts as 0.
abbrev pub quantity_or_zero : Option Text → Result ℤ
quantity_or_zero none = ok (pos 0)
quantity_or_zero (some quantity) = parse_quantity quantity

unfoldable pub collateral_delta : GraniteCreditIntent → GraniteCreditAction → Result ℤ
collateral_delta intent supplies = parse_quantity intent.amount
collateral_delta intent withdraws = parse_quantity intent.amount >>= λ q. ok (minus q)
collateral_delta intent borrows = quantity_or_zero intent.collateral_amount
collateral_delta intent repays = quantity_or_zero intent.collateral_amount

unfoldable pub debt_delta : GraniteCreditIntent → GraniteCreditAction → Result ℤ
debt_delta intent borrows = parse_quantity intent.amount
debt_delta intent repays = parse_quantity intent.amount >>= λ q. ok (minus q)
debt_delta intent supplies = ok (pos 0)
debt_delta intent withdraws = ok (pos 0)

unfoldable pub risk_params : GraniteRiskParams → Result RiskParams
risk_params p = do
  borrow ← parse_quantity p.ltv_borrow_bps
  liq ← parse_quantity p.ltv_liq_bps
  buffer ← parse_quantity p.buffer_bps
  ok (record { ltv_borrow_bps = borrow; ltv_liq_bps = liq; buffer_bps = buffer })

-- What `project` reads of the amounts: the collateral and the debt before, and their changes.
pub record Amounts : Type 0 where
  pub collateral : ℤ
  pub debt : ℤ
  pub collateral_change : ℤ
  pub debt_change : ℤ

unfoldable pub amounts_of : GraniteCreditIntent → GranitePositionEvidence → Result Amounts
amounts_of intent position = do
  collateral ← parse_quantity position.collateral
  debt ← parse_quantity (owed position)
  up ← collateral_delta intent intent.action
  down ← debt_delta intent intent.action
  ok (record { collateral = collateral; debt = debt; collateral_change = up; debt_change = down })

abbrev pub is_paused : Option VaultSnapshot → Bool
is_paused none = false
is_paused (some v) = v.paused_redeem

abbrev pub assets_of : Option VaultSnapshot → Option Text
assets_of none = none
assets_of (some v) = some v.total_assets

abbrev pub rate_of : Option VaultSnapshot → Option Text
rate_of none = none
rate_of (some v) = v.interest_rate_bps
