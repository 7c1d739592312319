-- ===== src/Valuation/Quorum.antt =====
-- packages/core/src/valuation.ts: reconciling price readings. A `Date` is its time in milliseconds;
-- its two texts, `toISOString()` and the one that sorting compares, are arguments, since the second is
-- the engine's own.
use capital_os.Shared.{
  Text, codes, text_lt, ℤ, ltb_ℤ, show_ℤ, distinct, length, ltb, Bool, true, false, ◌&&◌, none,
  some, List, [], ◌∷◌, ◌++◌, map, if◌then◌else◌,
}
use capital_os.Errors.{Result, ok, ◌>>=◌}
use capital_os.Valuation.Readings.{
  AssetValuation, PriceReading, Stamp, date, default_price_scale, disputed, median,
  normalized_prices, spread_of, stale, text, unsupported, valid_readings, verified,
}

abbrev when : PriceReading → Stamp
when r = elim r.published_at [ none ↦ r.observed_at | some t ↦ t ]

abbrev all_warnings : List PriceReading → List Text
all_warnings [] = []
all_warnings (r ∷ rs) = r.warnings ++ all_warnings rs

abbrev or_else : List Text → Text → List Text
or_else [] fallback = fallback ∷ []
or_else (w ∷ ws) fallback = w ∷ ws

abbrev pub several : List Text → Bool
several sources = ltb 1 (length sources)

module _ (to_iso date_text : ℤ → Text) where
  abbrev stamp_iso : Stamp → Text
  stamp_iso (date t) = to_iso t
  stamp_iso (text s) = s

  -- The text by which `sort` compares an element.
  abbrev stamp_key : Stamp → Text
  stamp_key (date t) = date_text t
  stamp_key (text s) = s

  -- `.sort().reverse()[0]`: the last of those that sort last.
  unfoldable pub latest : Stamp → List Stamp → Stamp
  latest t [] = t
  latest t (u ∷ us) = latest (if text_lt (stamp_key u) (stamp_key t) then t else u) us

  abbrev latest_of : ℤ → List PriceReading → Text
  latest_of now [] = to_iso now
  latest_of now (r ∷ rs) = stamp_iso (latest (when r) (map when rs))

  abbrev unsupported_valuation : ℤ → Text → AssetValuation
  unsupported_valuation now asset = record {
    asset_id = asset;
    price = none;
    scale = default_price_scale;
    source_set = [];
    timestamp = to_iso now;
    status = unsupported;
    disagreement = false;
    spread_bps = none;
    warnings = (codes "Asset " ++ asset ++ codes " has no supported price oracle feed") ∷ [];
  }

  abbrev stale_valuation : Text → PriceReading → List PriceReading → AssetValuation
  stale_valuation asset first rest = record {
    asset_id = asset;
    price = none;
    scale = first.scale;
    source_set = distinct (map (λ (r : PriceReading). r.source) (first ∷ rest));
    timestamp = stamp_iso (when first);
    status = stale;
    disagreement = false;
    spread_bps = none;
    warnings =
        or_else (all_warnings (first ∷ rest))
          (codes "Price readings for " ++ asset ++ codes " are stale or unavailable");
  }

  abbrev disputed_warning : Text → ℤ → ℤ → Text
  disputed_warning asset spread limit =
      codes "Quorum disagreement for "
      ++ asset
      ++ codes ": price sources disagree by "
      ++ show_ℤ spread
      ++ codes " bps (exceeds "
      ++ show_ℤ limit
      ++ codes " bps limit)"

  -- The verdict on at least one valid reading, with its normalized prices and their spread.
  unfoldable pub verdict :
      ℤ → ℤ → Text → List PriceReading → List PriceReading → List ℤ → ℤ → AssetValuation
  verdict now limit asset readings valid prices spread =
      let sources = distinct (map (λ (r : PriceReading). r.source) readings) in
      if several sources && ltb_ℤ limit spread
      then record {
        asset_id = asset;
        price = none;
        scale = default_price_scale;
        source_set = sources;
        timestamp = latest_of now valid;
        status = disputed;
        disagreement = true;
        spread_bps = some spread;
        warnings = all_warnings readings ++ disputed_warning asset spread limit ∷ [];
      }
      else record {
        asset_id = asset;
        price = some (show_ℤ (median prices));
        scale = default_price_scale;
        source_set = sources;
        timestamp = latest_of now valid;
        status = verified;
        disagreement = false;
        spread_bps = if several sources then some spread else none;
        warnings = all_warnings readings;
      }

  unfoldable pub judge :
      ℤ → ℤ → Text → PriceReading → List PriceReading → List PriceReading → Result AssetValuation
  judge now limit asset first rest [] = ok (stale_valuation asset first rest)
  judge now limit asset first rest (v ∷ vs) = do
    prices ← normalized_prices (v ∷ vs)
    spread ← spread_of prices
    ok (verdict now limit asset (first ∷ rest) (v ∷ vs) prices spread)

  -- `maxSpreadBps` defaults to 300 and `now` to the clock.
  unfoldable pub reconcile_price_quorum : ℤ → ℤ → Text → List PriceReading → Result AssetValuation
  unfolding judge
  reconcile_price_quorum now limit asset [] = ok (unsupported_valuation now asset)
  reconcile_price_quorum now limit asset (first ∷ rest) =
      valid_readings (first ∷ rest) >>= λ valid. judge now limit asset first rest valid
