-- ===== src/Accounting/Ledger.antt =====
-- packages/core/src/accounting.ts: the totals of a portfolio, `evaluatePortfolioAccounting`.
use capital_os.Shared.{
  Text, codes, ◌-ℤ◌, show_ℤ, put, distinct, add_all, length, ltb, ◌==◌, Bool, true, false, not,
  ◌&&◌, ◌||◌, Option, none, some, List, [], ◌∷◌, ◌++◌, map, if◌then◌else◌,
}
use capital_os.Errors.{Result, ok, ◌>>=◌}
use capital_os.Valuation.Readings.{to_bigint}
use capital_os.Valuation.Portfolio.{
  Holding, Unvalued, PortfolioCoverage, PortfolioValuation, evaluate_portfolio_valuation, ratio_bps,
}
use capital_os.Accounting.Entries.{
  AccountingEntry, CapitalCategory, PortfolioAccountingSummary, Valuations, aggregate_holdings,
  all_warnings, amounts_where, category_eq, counted, debt, missing_quantity, summarize_categories,
}

abbrev pub gross_of : List Holding → PortfolioValuation → Option Text
gross_of [] value = some (codes "0")
gross_of (h ∷ holdings) value = value.total_usd

unfoldable pub net_worth : Option Text → Option Text → Result (Option Text)
net_worth (some assets) (some debts) = do
  a ← to_bigint assets
  d ← to_bigint debts
  ok (some (show_ℤ (a -ℤ d)))
net_worth _ _ = ok none

abbrev pub is_unknown : Option Text → Bool
is_unknown none = true
is_unknown (some t) = false

abbrev asset_ids : List Holding → List Text
asset_ids holdings = map (λ (h : Holding). h.asset_id) holdings

-- The Map from assets to what could not be valued: a later entry takes the place of an earlier.
unfoldable pub unvalued_map : List (Text × Unvalued) → List Unvalued → List (Text × Unvalued)
unfolding put
unvalued_map m [] = m
unvalued_map m (u ∷ us) = unvalued_map (put u.asset_id u m) us

abbrev unvalued_entries : List (Text × Unvalued) → List Unvalued
unvalued_entries m = map (λ (e : Text × Unvalued). e.1) m

unfoldable pub combined_coverage :
    List Holding → List Holding → PortfolioValuation → PortfolioValuation → Bool → PortfolioCoverage
unfolding unvalued_map add_all
combined_coverage assets debts assets_value debts_value incomplete =
    let total = length (distinct (asset_ids assets ++ asset_ids debts)) in
    let valued =
      distinct (assets_value.coverage.valued_assets ++ debts_value.coverage.valued_assets) in
    let unvalued =
      unvalued_map []
        (assets_value.coverage.unvalued_assets ++ debts_value.coverage.unvalued_assets) in
    record {
      is_complete = ltb 0 total && (length valued == total) && not incomplete;
      valued_count = length valued;
      unvalued_count = length unvalued;
      total_count = total;
      coverage_bps = some (if total == 0 then 10000 else ratio_bps (length valued) total);
      valued_assets = valued;
      unvalued_assets = unvalued_entries unvalued;
    }

abbrev unvalued_warnings : List Unvalued → List Text
unvalued_warnings [] = []
unvalued_warnings (u ∷ us) =
    (codes "Asset " ++ u.asset_id ++ codes " could not be valued: " ++ u.reason)
    ∷ unvalued_warnings us

abbrev pub is_debt : CapitalCategory → Bool
is_debt category = category_eq category debt

-- From the counted entries on, without the warnings of the loop.
unfoldable pub account : Valuations → List AccountingEntry → Result PortfolioAccountingSummary
unfolding amounts_where aggregate_holdings summarize_categories net_worth combined_coverage
account valuations entries = do
  assets ← aggregate_holdings (amounts_where (λ c. not (is_debt c)) entries)
  debts ← aggregate_holdings (amounts_where is_debt entries)
  assets_value ← evaluate_portfolio_valuation assets valuations
  debts_value ← evaluate_portfolio_valuation debts valuations
  by_category ← summarize_categories valuations entries
  let gross_assets = gross_of assets assets_value
  let gross_debts = gross_of debts debts_value
  net ← net_worth gross_assets gross_debts
  let coverage =
      combined_coverage assets debts assets_value debts_value
        (missing_quantity entries || is_unknown net)
  ok (record {
    gross_assets_usd = gross_assets;
    gross_debt_usd = gross_debts;
    net_worth_usd = net;
    coverage = coverage;
    by_category = by_category;
    incomplete = not coverage.is_complete;
    warnings =
        assets_value.warnings ++ debts_value.warnings ++ unvalued_warnings coverage.unvalued_assets;
  })

abbrev pub with_warnings : List Text → PortfolioAccountingSummary → PortfolioAccountingSummary
with_warnings more r = record r { warnings = more ++ r.warnings }

unfoldable pub evaluate_portfolio_accounting :
    List AccountingEntry → Valuations → Result PortfolioAccountingSummary
unfolding account counted
evaluate_portfolio_accounting entries valuations =
    account valuations (counted entries) >>= λ r. ok (with_warnings (all_warnings entries) r)
