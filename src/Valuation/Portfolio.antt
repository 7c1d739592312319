-- ===== src/Valuation/Portfolio.antt =====
-- packages/core/src/valuation.ts: the value of holdings, and what of them could be valued.
use capital_os.Shared.{
  ℕ, ◌+◌, ◌*◌, ◌/◌, Text, codes, includes, to_lower, ℤ, pos, ◌+ℤ◌, show_ℤ, get, put, length, ltb,
  ◌==◌, Bool, true, false, ◌&&◌, ◌||◌, Option, none, some, List, [], ◌∷◌, ◌++◌, if◌then◌else◌,
}
use capital_os.Errors.{Result, ok, ◌>>=◌}
use capital_os.Amounts.{mul_div, down}
use capital_os.Risk.{pow10}
use capital_os.Valuation.Readings.{AssetValuation, ValuationStatus, to_bigint}

pub data HoldingStatus : Type 0 where
  valued unsupported stale disputed missing_quantity : HoldingStatus

pub record Holding : Type 0 where
  pub asset_id : Text
  pub quantity : Option Text
  pub decimals : Option ℕ

pub record ValuedHoldingItem : Type 0 where
  pub asset_id : Text
  pub quantity : Option Text
  pub decimals : ℕ
  pub usd_value : Option Text
  pub status : HoldingStatus
  pub unvalued_reason : Option Text
  pub valuation : Option AssetValuation

pub record Unvalued : Type 0 where
  pub asset_id : Text
  pub reason : Text
  pub quantity : Option Text

pub record PortfolioCoverage : Type 0 where
  pub is_complete : Bool
  pub valued_count : ℕ
  pub unvalued_count : ℕ
  pub total_count : ℕ
  pub coverage_bps : Option ℕ
  pub valued_assets : List Text
  pub unvalued_assets : List Unvalued

pub record PortfolioValuation : Type 0 where
  pub total_usd : Option Text
  pub coverage : PortfolioCoverage
  pub items : List ValuedHoldingItem
  pub warnings : List Text

unfoldable pub default_decimals_for_asset : Text → ℕ
unfolding includes codes to_lower
default_decimals_for_asset asset_id =
    if includes asset_id (codes ":stx") || includes (to_lower asset_id) (codes "usdc") then 6 else 8

abbrev decimals_of : Holding → ℕ
decimals_of h = elim h.decimals [ none ↦ default_decimals_for_asset h.asset_id | some d ↦ d ]

-- The Map that is made of a list of valuations: a later one takes the place of an earlier.
unfoldable pub valuation_map : List AssetValuation → List (Text × AssetValuation)
unfolding put
valuation_map vs = fill [] vs
  where
    fill : List (Text × AssetValuation) → List AssetValuation → List (Text × AssetValuation)
    fill m [] = m
    fill m (v ∷ vs) = fill (put v.asset_id v m) vs

-- What one holding comes to: valued, or unvalued for a reason.
pub data Verdict : Type 0 where
  worth : ℤ → Verdict
  without : HoldingStatus → Text → Verdict

abbrev is_unsupported : ValuationStatus → Bool
is_unsupported ValuationStatus.unsupported = true
is_unsupported _ = false

abbrev is_disputed : ValuationStatus → Bool
is_disputed ValuationStatus.disputed = true
is_disputed _ = false

abbrev is_stale : ValuationStatus → Bool
is_stale ValuationStatus.stale = true
is_stale _ = false

abbrev no_feed : Holding → Verdict
no_feed h =
    without HoldingStatus.unsupported
      (codes "Asset " ++ h.asset_id ++ codes " has no supported price oracle feed")

abbrev stale_reading : Holding → Verdict
stale_reading h =
    without HoldingStatus.stale
      (codes "Price oracle reading for " ++ h.asset_id ++ codes " is stale")

unfoldable pub notional : Holding → Text → Text → Result Verdict
notional h quantity price = do
  qty ← to_bigint quantity
  p ← to_bigint price
  unit ← pow10 (pos (decimals_of h))
  usd ← mul_div qty p unit down
  ok (worth usd)

unfoldable pub by_price : Holding → Text → Option Text → Result Verdict
unfolding notional
by_price h quantity none = ok (stale_reading h)
by_price h quantity (some price) = notional h quantity price

unfoldable pub by_valuation : Holding → Text → Option AssetValuation → Result Verdict
unfolding by_price
by_valuation h quantity none = ok (no_feed h)
by_valuation h quantity (some v) =
    if is_unsupported v.status
    then ok (no_feed h)
    else if v.disagreement || is_disputed v.status
    then ok (
        without HoldingStatus.disputed
          (codes "Quorum disagreement between price sources for " ++ h.asset_id))
    else if is_stale v.status
    then ok (stale_reading h)
    else by_price h quantity v.price

unfoldable pub value_holding : Holding → Option AssetValuation → Result Verdict
value_holding h v = elim h.quantity [
  | none ↦
      ok (without HoldingStatus.missing_quantity (codes "Holding quantity is unknown or missing"))
  | some quantity ↦ by_valuation h quantity v
]

-- The loop's variables.
pub record Tally : Type 0 where
  pub items : List ValuedHoldingItem
  pub valued_assets : List Text
  pub unvalued_assets : List Unvalued
  pub warnings : List Text
  pub total : ℤ
  pub has_any_valued : Bool

abbrev pub empty_tally : Tally
empty_tally = record {
  items = [];
  valued_assets = [];
  unvalued_assets = [];
  warnings = [];
  total = pos 0;
  has_any_valued = false;
}

abbrev dispute_warning : HoldingStatus → Text → List Text
dispute_warning disputed asset = (codes "Quorum disagreement for " ++ asset) ∷ []
dispute_warning _ asset = []

-- One round of the loop, once the holding's verdict is known.
unfoldable pub tally : Holding → Option AssetValuation → Verdict → Tally → Tally
tally h v (worth usd) t = record t {
  items =
      t.items
      ++ record {
        asset_id = h.asset_id;
        quantity = h.quantity;
        decimals = decimals_of h;
        usd_value = some (show_ℤ usd);
        status = valued;
        unvalued_reason = none;
        valuation = v;
      }
        ∷ [];
  valued_assets = t.valued_assets ++ h.asset_id ∷ [];
  total = t.total +ℤ usd;
  has_any_valued = true;
}
tally h v (without status reason) t = record t {
  items =
      t.items
      ++ record {
        asset_id = h.asset_id;
        quantity = h.quantity;
        decimals = decimals_of h;
        usd_value = none;
        status = status;
        unvalued_reason = some reason;
        valuation = v;
      }
        ∷ [];
  unvalued_assets =
      t.unvalued_assets
      ++ record { asset_id = h.asset_id; reason = reason; quantity = h.quantity } ∷ [];
  warnings = t.warnings ++ dispute_warning status h.asset_id;
}

unfoldable pub tally_all : List (Text × AssetValuation) → Tally → List Holding → Result Tally
tally_all m t [] = ok t
tally_all m t (h ∷ hs) = do
  v ← value_holding h (get h.asset_id m)
  tally_all m (tally h (get h.asset_id m) v t) hs

-- `Math.round((part / whole) * 10000)`: halves are rounded up. The code divides doubles, which give
-- this integer for every count of holdings below 800; from there on an exact half may be rounded down.
abbrev pub ratio_bps : ℕ → ℕ → ℕ
ratio_bps part whole = (part * 20000 + whole) / (2 * whole)

unfoldable pub summarize : ℕ → Tally → PortfolioValuation
summarize count t = record {
  total_usd = if t.has_any_valued then some (show_ℤ t.total) else none;
  coverage = record {
    is_complete = ltb 0 count && (length t.unvalued_assets == 0);
    valued_count = length t.valued_assets;
    unvalued_count = length t.unvalued_assets;
    total_count = count;
    coverage_bps = if ltb 0 count then some (ratio_bps (length t.valued_assets) count) else none;
    valued_assets = t.valued_assets;
    unvalued_assets = t.unvalued_assets;
  };
  items = t.items;
  warnings = t.warnings;
}

unfoldable pub evaluate_portfolio_valuation :
    List Holding → List (Text × AssetValuation) → Result PortfolioValuation
unfolding tally_all summarize
evaluate_portfolio_valuation holdings m =
    tally_all m empty_tally holdings >>= λ t. ok (summarize (length holdings) t)
