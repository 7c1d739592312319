-- ===== src/RiskReport/Concentration.antt =====
-- packages/core/src/riskReport.ts: the share of each position in the quantity held of one asset.
use capital_os.Shared.{
  Text, codes, join, ℤ, pos, ◌+ℤ◌, ◌*ℤ◌, ◌/ℤ◌, leb_ℤ, eqb_ℤ, distinct, add_all, get, put, filter,
  length, ltb, Bool, true, false, Option, none, some, List, [], ◌∷◌, ◌++◌, map, if◌then◌else◌,
}
use capital_os.RiskReport.Texts.{risk_calculation_version}

pub record Slice : Type 0 where
  pub key : Text
  pub quantity : Option ℤ
  pub asset_id : Text

pub record ConcentrationSlice : Type 0 where
  pub key : Text
  pub quantity : ℤ
  pub share_bps : ℤ

pub record ConcentrationReport : Type 0 where
  pub calculation_version : Text
  pub available : Bool
  pub reason : Option Text
  pub total : Option ℤ
  pub slices : List ConcentrationSlice
  pub limitations : List Text

abbrev concentration_limitations : List Text
concentration_limitations =
    codes
      "Concentration is measured in base-unit quantities within one asset. Cross-asset shares require fresh oracles for every slice and are not invented here."
    ∷ codes "Unknown quantities make the whole calculation unavailable."
    ∷ []

abbrev pub unavailable_report : Text → ConcentrationReport
unavailable_report reason = record {
  calculation_version = risk_calculation_version;
  available = false;
  reason = some reason;
  total = none;
  slices = [];
  limitations = concentration_limitations;
}

abbrev pub is_unknown : Slice → Bool
is_unknown s = elim s.quantity [ none ↦ true | some q ↦ false ]

abbrev pub or_zero : Option ℤ → ℤ
or_zero none = pos 0
or_zero (some q) = q

-- The loop over the slices: the total, and the sum for each key.
unfoldable pub sum_slices : ℤ → List (Text × ℤ) → List Slice → ℤ × List (Text × ℤ)
sum_slices total totals [] = (total, totals)
sum_slices total totals (s ∷ rest) =
    sum_slices (total +ℤ or_zero s.quantity)
      (put s.key (or_zero (get s.key totals) +ℤ or_zero s.quantity) totals) rest

abbrev pub share_of : ℤ → Text × ℤ → ConcentrationSlice
share_of total (key, quantity) = record {
  key = key;
  quantity = quantity;
  share_bps = quantity *ℤ pos 10000 /ℤ total;
}

-- `array.sort` by falling share; equal shares keep their order.
unfoldable pub insert_slice : ConcentrationSlice → List ConcentrationSlice → List ConcentrationSlice
insert_slice x [] = x ∷ []
insert_slice x (y ∷ ys) =
    if leb_ℤ y.share_bps x.share_bps then x ∷ y ∷ ys else y ∷ insert_slice x ys

unfoldable pub sort_slices : List ConcentrationSlice → List ConcentrationSlice
unfolding insert_slice
sort_slices [] = []
sort_slices (x ∷ xs) = insert_slice x (sort_slices xs)

unfoldable pub shares : ℤ × List (Text × ℤ) → ConcentrationReport
unfolding sort_slices
shares (total, totals) =
    if eqb_ℤ total (pos 0)
    then unavailable_report
        (codes "Nothing is held in these markets, so there is nothing to compare.")
    else record {
      calculation_version = risk_calculation_version;
      available = true;
      reason = none;
      total = some total;
      slices = sort_slices (map (share_of total) totals);
      limitations = concentration_limitations;
    }

unfoldable pub unknown_reason : List Slice → Text
unfolding join codes add_all
unknown_reason unknown =
    codes "Some positions are unknown ("
    ++ join (codes ", ") (distinct (map (λ s. s.key) unknown))
    ++ codes "), so shares cannot be worked out."

unfoldable pub concentration_by_quantity : List Slice → ConcentrationReport
unfolding shares sum_slices add_all get put
concentration_by_quantity [] =
    unavailable_report (codes "No positions have been projected for this address yet.")
concentration_by_quantity (s ∷ rest) =
    let unknown = filter is_unknown (s ∷ rest) in
    if ltb 0 (length unknown)
    then unavailable_report (unknown_reason unknown)
    else if ltb 1 (length (distinct (map (λ (t : Slice). t.asset_id) (s ∷ rest))))
    then unavailable_report
        (codes "Positions are held in different assets, which cannot be added together.")
    else shares (sum_slices (pos 0) [] (s ∷ rest))
