-- ===== src/Granite/Gates.antt =====
-- packages/adapters/src/granite/creditLifecycle.ts: the projected health, the market as it is read, and the
-- checks that a borrow or a withdrawal passes before it may be signed. `Date.parse` is an argument.
use capital_os.Shared.{
  Text, codes, ℤ, pos, ◌+ℤ◌, leb_ℤ, ltb_ℤ, show_ℤ, Bool, true, false, not, Option, none, some, ◌++◌,
  if◌then◌else◌,
}
use capital_os.Errors.{Result, ok, err, ◌>>=◌, ◌>>◌}
use capital_os.Amounts.{parse_quantity}
use capital_os.Risk.{RiskParams, Health, projected_health, assert_oracle_fresh}
use capital_os.Granite.Evidence.{
  GraniteCreditAction, supplies, withdraws, borrows, repays, OracleSnapshot,
  GranitePositionEvidence, GraniteRiskParams, GraniteMarketEvidence, GraniteCreditIntent,
  GraniteCreditState, paused, liquidity_blocked, health_blocked, MarketReads, MarketAnswer, read,
  unread,
}
use capital_os.Granite.Sums.{
  Amounts, amounts_of, as_oracle, assets_of, is_paused, message_of, quantity_or_zero, rate_of,
  risk_params,
}

module _ (parse_date : Text → Option ℤ) where
  -- The health with the sides' decimals and prices read.
  unfoldable pub project_with : GraniteMarketEvidence → RiskParams → Amounts → ℤ → Result Health
  project_with market params a now = do
    sbtc_decimals ← parse_quantity market.risk_params.sbtc_decimals
    sbtc ← as_oracle market.sbtc
    usdcx_decimals ← parse_quantity market.risk_params.usdcx_decimals
    usdcx ← as_oracle market.usdcx
    projected_health parse_date
        (record { amount = a.collateral; decimals = sbtc_decimals; oracle = sbtc })
        (record { amount = a.debt; decimals = usdcx_decimals; oracle = usdcx }) a.collateral_change
        a.debt_change params now

  unfoldable pub project :
      GraniteCreditIntent → GranitePositionEvidence → GraniteMarketEvidence → ℤ → Result Health
  project intent position market now = do
    params ← risk_params market.risk_params
    a ← amounts_of intent position
    project_with market params a now

  unfoldable pub fresh_oracles : OracleSnapshot → OracleSnapshot → ℤ → Result (Unit {0})
  fresh_oracles sbtc usdcx now = do
    first ← as_oracle sbtc
    assert_oracle_fresh parse_date first now (codes "sBTC")
    second ← as_oracle usdcx
    assert_oracle_fresh parse_date second now (codes "USDCx")

  abbrev read_market :
      MarketReads
      → OracleSnapshot
      → OracleSnapshot
      → GraniteRiskParams
      → Result (Unit {0})
      → MarketAnswer
  read_market reads sbtc usdcx params (err thrown) = unread (message_of thrown)
  read_market reads sbtc usdcx params (ok passed) = read (record {
    borrow_paused = is_paused reads.debt_vault;
    repay_paused = false;
    liquidity_usdcx = assets_of reads.debt_vault;
    interest_rate_bps = rate_of reads.debt_vault;
    risk_params = params;
    sbtc = sbtc;
    usdcx = usdcx;
  })

  abbrev market_of :
      MarketReads
      → Option (OracleSnapshot × OracleSnapshot)
      → Option GraniteRiskParams
      → ℤ
      → MarketAnswer
  market_of reads (some (sbtc, usdcx)) (some params) now =
      read_market reads sbtc usdcx params (fresh_oracles sbtc usdcx now)
  market_of reads none params now =
      unread (codes "Granite quotes require oracle and risk parameters")
  market_of reads (some oracle) none now =
      unread (codes "Granite quotes require oracle and risk parameters")

  unfoldable pub market_from_reads : MarketReads → ℤ → MarketAnswer
  unfolding fresh_oracles
  market_from_reads reads now = market_of reads reads.oracle reads.risk_params now

-- Why an action is stopped: the state and the warning.
pub record Block : Type 0 where
  pub state : GraniteCreditState
  pub warning : Text

-- `qty > parseQuantity(limit)`, when there is a limit.
abbrev pub above_limit : ℤ → Option Text → Result Bool
above_limit qty none = ok false
above_limit qty (some limit) = parse_quantity limit >>= λ available. ok (ltb_ℤ available qty)

-- `!health.healthy || parseQuantity(position.debt) + qty > health.maxBorrow`
abbrev pub above_max : Health → GranitePositionEvidence → ℤ → Result Bool
above_max health position qty =
    if health.healthy
    then (parse_quantity position.debt >>= λ debt. ok (ltb_ℤ health.max_borrow (debt +ℤ qty)))
    else ok true

abbrev pub block_if : Bool → Block → Option Block
block_if true block = some block
block_if false block = none

unfoldable pub max_block : Health → GranitePositionEvidence → ℤ → Result (Option Block)
max_block health position qty = do
  above ← above_max health position qty
  ok (
      block_if above (record {
        state = health_blocked;
        warning =
            codes "borrow exceeds max " ++ show_ℤ health.max_borrow ++ codes " or projected LTV";
      }))

unfoldable pub collateral_block :
    GraniteCreditIntent → GranitePositionEvidence → Health → ℤ → Result (Option Block)
collateral_block intent position health qty = do
  held ← parse_quantity position.collateral
  added ← quantity_or_zero intent.collateral_amount
  (if leb_ℤ (held +ℤ added) (pos 0)
      then ok (
          some (record {
            state = health_blocked;
            warning = codes "isolated collateral is required before borrow";
          }))
      else max_block health position qty)

unfoldable pub borrow_block :
    GraniteCreditIntent
    → GraniteMarketEvidence
    → GranitePositionEvidence
    → Health
    → Result (Option Block)
borrow_block intent market position health = do
  qty ← parse_quantity intent.amount
  short ← above_limit qty market.liquidity_usdcx
  (if short
      then ok (
          some (record {
            state = liquidity_blocked;
            warning = codes "USDCx vault liquidity is insufficient";
          }))
      else collateral_block intent position health qty)

-- The checks of the action itself.
unfoldable pub granite_block :
    GraniteCreditIntent
    → GraniteMarketEvidence
    → GranitePositionEvidence
    → Health
    → GraniteCreditAction
    → Result (Option Block)
granite_block intent market position health borrows =
    if market.borrow_paused
    then ok (some (record { state = paused; warning = codes "USDCx debt vault is paused" }))
    else borrow_block intent market position health
granite_block intent market position health withdraws = ok (
    block_if (not health.healthy)
      (record { state = health_blocked; warning = codes "projected health is above borrow LTV" }))
granite_block intent market position health supplies = ok none
granite_block intent market position health repays = ok none
