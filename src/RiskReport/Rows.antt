-- ===== src/RiskReport/Rows.antt =====
-- packages/core/src/riskReport.ts: the rows of a stress report.
use capital_os.Shared.{Text, ℤ, ◌≡◌, refl, sym, arith, Option, none, some, List, [], ◌∷◌}
use capital_os.Errors.{ok, bind-ok}
use capital_os.Risk.{AssetRiskSide, RiskParams, Health, compute_health}
use capital_os.RiskReport.Stress.{
  StressScenarioRow, StressScenarioReport, shift_oracle_price, blocker, moved_row, stress_row,
  stress_rows, stress_granite_collateral, bad_shift,
}

module _ (parse_date : Text → Option ℤ) (collateral debt : AssetRiskSide) (params : RiskParams)
    (now : ℤ) (collateral_feed debt_feed : Text) where
  -- A row shows the health at the shifted price, or why there is none, and never both.
  pub data RowFor (shift : ℤ) : StressScenarioRow → Type 0 where
    blocked_row :
        (row : StressScenarioRow) (reason : Text)
        → blocker parse_date collateral debt params now collateral_feed debt_feed ≡ some reason
        → row.shift_bps ≡ shift
        → row.health ≡ none
        → row.unavailable_reason ≡ some reason
        → RowFor shift row
    no_price :
        (row : StressScenarioRow) (reason : Text)
        → blocker parse_date collateral debt params now collateral_feed debt_feed ≡ none
        → shift_oracle_price collateral.oracle.price shift ≡ none
        → row.shift_bps ≡ shift
        → row.health ≡ none
        → row.unavailable_reason ≡ some reason
        → RowFor shift row
    health_row :
        (row : StressScenarioRow) (price : ℤ) (health : Health)
        → blocker parse_date collateral debt params now collateral_feed debt_feed ≡ none
        → shift_oracle_price collateral.oracle.price shift ≡ some price
        → compute_health parse_date
            (record collateral { oracle = record (collateral.oracle) { price = price } })
            debt
            params
            now
          ≡ ok health
        → row.shift_bps ≡ shift
        → row.health ≡ some health
        → row.unavailable_reason ≡ none
        → RowFor shift row

  unfoldable pub RowsFor : List ℤ → List StressScenarioRow → Type 0
  RowsFor [] [] = Unit
  RowsFor [] (r ∷ rows) = ⊥
  RowsFor (shift ∷ shifts) [] = ⊥
  RowsFor (shift ∷ shifts) (r ∷ rows) = RowFor shift r × RowsFor shifts rows

  moved-RowFor :
      (shift : ℤ) (o : Option ℤ) (row : StressScenarioRow)
      → blocker parse_date collateral debt params now collateral_feed debt_feed ≡ none
      → shift_oracle_price collateral.oracle.price shift ≡ o
      → moved_row parse_date collateral debt params now collateral_feed debt_feed shift o ≡ ok row
      → RowFor shift row
  unfolding moved_row
  moved-RowFor shift none row free e h =
      no_price row bad_shift free e (ground arith) (ground arith) (ground arith)
  moved-RowFor shift (some price) row free e h =
      let (health, computes, h1) =
        bind-ok
          (compute_health parse_date
            (record collateral { oracle = record (collateral.oracle) { price = price } }) debt
            params now)
          _ row h in
      health_row row price health free e computes (ground arith) (ground arith) (ground arith)

  row-RowFor :
      (shift : ℤ) (b : Option Text) (row : StressScenarioRow)
      → blocker parse_date collateral debt params now collateral_feed debt_feed ≡ b
      → stress_row parse_date collateral debt params now collateral_feed debt_feed b shift ≡ ok row
      → RowFor shift row
  unfolding stress_row
  row-RowFor shift (some reason) row e h =
      blocked_row row reason e (ground arith) (ground arith) (ground arith)
  row-RowFor shift none row e h = moved-RowFor shift _ row e refl h

  rows-RowsFor :
      (shifts : List ℤ) (rows : List StressScenarioRow)
      → stress_rows parse_date collateral debt params now collateral_feed debt_feed shifts ≡ ok rows
      → RowsFor shifts rows
  unfolding stress_rows RowsFor
  rows-RowsFor [] [] h = tt
  rows-RowsFor [] (r ∷ rows) h = absurd (ground arith)
  rows-RowsFor (shift ∷ shifts) rows h =
      let (row, made, h1) =
        bind-ok
          (stress_row parse_date collateral debt params now collateral_feed debt_feed
            (blocker parse_date collateral debt params now collateral_feed debt_feed) shift)
          _ rows h in
      let (rest, others, h2) =
        bind-ok (stress_rows parse_date collateral debt params now collateral_feed debt_feed shifts)
          _ rows h1 in
      let same : row ∷ rest ≡ rows = ground arith in
      rw (sym same) (row-RowFor shift _ row refl made, rows-RowsFor shifts rest others)

  -- A stress report has one row for each shift, in order; it shows the health at the shifted collateral price, or
  -- a reason, when a price is stale or absent or the shift would not leave a positive one, and never both.
  pub report-RowsFor :
      (shifts : List ℤ) (report : StressScenarioReport)
      → stress_granite_collateral parse_date collateral debt params now collateral_feed debt_feed
          shifts
        ≡ ok report
      → RowsFor shifts report.rows
  unfolding stress_granite_collateral
  report-RowsFor shifts report h =
      let (rows, made, h1) =
        bind-ok (stress_rows parse_date collateral debt params now collateral_feed debt_feed shifts)
          _ report h in
      let same : rows ≡ report.rows = ground arith in rw (sym same) (rows-RowsFor shifts rows made)
