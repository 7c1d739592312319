-- ===== src/Accounting/Net.antt =====
-- packages/core/src/accounting.ts: what the totals of a portfolio rest on.
use capital_os.Shared.{
  ◌<◌, Text, ℤ, ◌-ℤ◌, show_ℤ, ◌≡◌, refl, sym, ◌∙◌, arith, Bool, false, not, ◌||◌, Option, none,
  some, List, [], ◌∷◌, ◌++◌, inl, inr, ◌⊎◌,
}
use capital_os.Errors.{ok, bind-ok}
use capital_os.Valuation.Readings.{to_bigint}
use capital_os.Valuation.Portfolio.{Holding, PortfolioValuation, evaluate_portfolio_valuation}
use capital_os.Accounting.Ledger.{
  gross_of, net_worth, is_unknown, combined_coverage, is_debt, account, with_warnings,
  evaluate_portfolio_accounting,
}
use capital_os.Accounting.Entries.{
  AccountingEntry, PortfolioAccountingSummary, Valuations, counted, amounts_where, missing_quantity,
  aggregate_holdings, summarize_categories, all_warnings,
}

-- Two summaries that differ in their warnings at most.
pub record SameFigures (r r' : PortfolioAccountingSummary) : Type 0 where
  pub assets : r'.gross_assets_usd ≡ r.gross_assets_usd
  pub debts : r'.gross_debt_usd ≡ r.gross_debt_usd
  pub net : r'.net_worth_usd ≡ r.net_worth_usd
  pub coverage : r'.coverage ≡ r.coverage
  pub by_category : r'.by_category ≡ r.by_category
  pub incomplete : r'.incomplete ≡ r.incomplete

counted-skip :
    (before rest : List AccountingEntry) (e : AccountingEntry)
    → e.counts_toward_total ≡ false
    → counted (before ++ e ∷ rest) ≡ counted (before ++ rest)
unfolding counted
counted-skip [] rest e h = ground arith
counted-skip (b ∷ before) rest e h = ground (arith, counted-skip before rest e h)

-- An entry that does not count toward the total, as a receipt, changes no figure of the summary, wherever it stands
-- among the entries.
pub uncounted_ignored :
    (before rest : List AccountingEntry) (e : AccountingEntry) (m : Valuations)
    (r : PortfolioAccountingSummary)
    → e.counts_toward_total ≡ false
    → evaluate_portfolio_accounting (before ++ e ∷ rest) m ≡ ok r
    → (r' : PortfolioAccountingSummary) × (evaluate_portfolio_accounting (before ++ rest) m ≡ ok r')
      × SameFigures r r'
unfolding evaluate_portfolio_accounting
uncounted_ignored before rest e m r h run =
    let (s, made, h1) = bind-ok (account m (counted (before ++ e ∷ rest))) _ r run in
    let same : with_warnings (all_warnings (before ++ e ∷ rest)) s ≡ r = ground arith in
    (
      with_warnings (all_warnings (before ++ rest)) s,
      rw (sym (counted-skip before rest e h), made) refl,
      rw (sym same) (record {
        assets = refl;
        debts = refl;
        net = refl;
        coverage = refl;
        by_category = refl;
        incomplete = refl;
      }),
    )

-- How the net worth and the completeness of a summary come about.
pub record Nets (entries : List AccountingEntry) (r : PortfolioAccountingSummary) : Type 0 where
  pub net :
      ((assets debts : Text) × (a d : ℤ) × (r.gross_assets_usd ≡ some assets)
        × (r.gross_debt_usd ≡ some debts)
        × (to_bigint assets ≡ ok a)
        × (to_bigint debts ≡ ok d)
        × (r.net_worth_usd ≡ some (show_ℤ (a -ℤ d))))
      ⊎ (r.net_worth_usd ≡ none)
  pub complete :
      r.incomplete ≡ false
      → (is_unknown r.net_worth_usd ≡ false)
        × (missing_quantity (counted entries) ≡ false)
        × (0 < r.coverage.total_count)
        × (r.coverage.valued_count ≡ r.coverage.total_count)

net_lem :
    (assets debts net : Option Text)
    → net_worth assets debts ≡ ok net
    → ((a d : Text) × (x y : ℤ) × (assets ≡ some a)
        × (debts ≡ some d)
        × (to_bigint a ≡ ok x)
        × (to_bigint d ≡ ok y)
        × (net ≡ some (show_ℤ (x -ℤ y))))
      ⊎ (net ≡ none)
unfolding net_worth
net_lem none debts net h = inr (ground arith)
net_lem (some a) none net h = inr (ground arith)
net_lem (some a) (some d) net h =
    let (x, hx, h1) = bind-ok (to_bigint a) _ net h in
    let (y, hy, h2) = bind-ok (to_bigint d) _ net h1 in
    inl (a, d, x, y, refl, refl, hx, hy, ground arith)

complete_lem :
    (assets debts : List Holding) (va vd : PortfolioValuation) (m u : Bool)
    → let c = combined_coverage assets debts va vd (m || u) in
      not c.is_complete ≡ false
      → (u ≡ false) × (m ≡ false) × (0 < c.total_count) × (c.valued_count ≡ c.total_count)
unfolding combined_coverage
complete_lem assets debts va vd m u h = (ground arith, ground arith, ground arith, ground arith)

finish-Nets :
    (entries : List AccountingEntry) (assets debts : List Holding) (va vd : PortfolioValuation)
    (net : Option Text) (r : PortfolioAccountingSummary)
    → net_worth (gross_of assets va) (gross_of debts vd) ≡ ok net
    → r.gross_assets_usd ≡ gross_of assets va
    → r.gross_debt_usd ≡ gross_of debts vd
    → r.net_worth_usd ≡ net
    → r.coverage
      ≡ combined_coverage assets debts va vd (missing_quantity (counted entries) || is_unknown net)
    → r.incomplete
      ≡ not
          (combined_coverage assets debts va vd
            (missing_quantity (counted entries) || is_unknown net)).is_complete
    → Nets entries r
finish-Nets entries assets debts va vd net r e ea ed en ec ei = record {
  net = rw (ea, ed, en) (net_lem (gross_of assets va) (gross_of debts vd) net e);
  complete = λ h.
      rw (en, ec)
        (complete_lem assets debts va vd (missing_quantity (counted entries)) (is_unknown net)
          (sym ei ∙ h));
}

-- The net worth is the difference of the two totals, both of them known, or it is absent; and a summary is complete
-- only if the net worth is known, every entry that counts has a quantity, and there is at least one asset and as many
-- are valued as there are.
pub accounting-Nets :
    (entries : List AccountingEntry) (m : Valuations) (r : PortfolioAccountingSummary)
    → evaluate_portfolio_accounting entries m ≡ ok r
    → Nets entries r
unfolding evaluate_portfolio_accounting account
accounting-Nets entries m r run =
    let (s, made, h1) = bind-ok (account m (counted entries)) _ r run in
    let (assets, a1, k1) =
      bind-ok (aggregate_holdings (amounts_where (λ c. not (is_debt c)) (counted entries))) _ s
        made in
    let (debts, a2, k2) =
      bind-ok (aggregate_holdings (amounts_where is_debt (counted entries))) _ s k1 in
    let (va, a3, k3) = bind-ok (evaluate_portfolio_valuation assets m) _ s k2 in
    let (vd, a4, k4) = bind-ok (evaluate_portfolio_valuation debts m) _ s k3 in
    let (cats, a5, k5) = bind-ok (summarize_categories m (counted entries)) _ s k4 in
    let (net, a6, k6) = bind-ok (net_worth (gross_of assets va) (gross_of debts vd)) _ s k5 in
    finish-Nets entries assets debts va vd net r a6 (ground arith) (ground arith) (ground arith)
      (ground arith) (ground arith)
