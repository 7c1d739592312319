-- ===== src/Performance/Chart.antt =====
-- packages/core/src/performance.ts: `buildPerformanceChartSeries`. `parse_date` is `Date.parse`, `none`
-- for NaN; a NaN compares as equal, and with one in the list the order is the engine's own.
use capital_os.Shared.{
  ℕ, Text, codes, trim, is_empty, ℤ, pos, ltb_ℤ, show_ℤ, length, ltb, filter, Bool, true, false,
  not, Option, none, some, List, [], ◌∷◌, if◌then◌else◌,
}
use capital_os.Errors.{Result, ok, ◌>>=◌}
use capital_os.Amounts.{parse_quantity}
use capital_os.Performance.Shares.{ShareRate, underlying_from_shares}
use capital_os.Performance.Attribution.{excess}

pub record CanonicalObservation : Type 0 where
  pub observed_at : Text
  pub block_height : Option ℕ
  pub block_hash : Option Text
  pub source : Text
  pub share_rate : Option ShareRate
  pub position_shares : Option Text
  pub underlying_value : Option Text
  pub accrued_rewards : Option Text

pub record CanonicalPerformancePoint : Type 0 where
  pub timestamp : Text
  pub block_height : Option ℕ
  pub block_hash : Option Text
  pub source : Text
  pub share_rate : Option ShareRate
  pub position_shares : Option Text
  pub underlying_value : Text
  pub cumulative_yield : Text

pub record PerformanceChartSeries : Type 0 where
  pub has_chart : Bool
  pub points : List CanonicalPerformancePoint
  pub observation_count : ℕ
  pub reason : Option Text

unfoldable pub is_canonical : CanonicalObservation → Bool
is_canonical obs = not (is_empty (trim obs.observed_at))

-- The value under an observation: from its shares, else as it was read, else 0.
unfoldable pub read_value : Option Text → Result ℤ
read_value none = ok (pos 0)
read_value (some v) = if is_empty v then ok (pos 0) else parse_quantity v

unfoldable pub share_value : Text → ShareRate → Result ℤ
share_value shares rate = underlying_from_shares shares rate >>= parse_quantity

unfoldable pub value_with : Option ShareRate → Option Text → Option Text → Result ℤ
unfolding read_value share_value
value_with (some rate) (some shares) value =
    if is_empty shares then read_value value else share_value shares rate
value_with _ _ value = read_value value

unfoldable pub observed_value : CanonicalObservation → Result ℤ
unfolding value_with
observed_value obs = value_with obs.share_rate obs.position_shares obs.underlying_value

unfoldable pub point_of : ℤ → CanonicalObservation → ℤ → CanonicalPerformancePoint
point_of basis obs value = record {
  timestamp = obs.observed_at;
  block_height = obs.block_height;
  block_hash = obs.block_hash;
  source = obs.source;
  share_rate = obs.share_rate;
  position_shares = obs.position_shares;
  underlying_value = show_ℤ value;
  cumulative_yield = show_ℤ (excess value basis);
}

unfoldable pub points_of : ℤ → List CanonicalObservation → Result (List CanonicalPerformancePoint)
unfolding point_of observed_value
points_of basis [] = ok []
points_of basis (obs ∷ rest) = do
  value ← observed_value obs
  points ← points_of basis rest
  ok (point_of basis obs value ∷ points)

abbrev pub comes_after : Option ℤ → Option ℤ → Bool
comes_after (some a) (some b) = ltb_ℤ b a
comes_after _ _ = false

abbrev pub too_few : ℕ → PerformanceChartSeries
too_few count = record {
  has_chart = false;
  points = [];
  observation_count = count;
  reason = some (
      codes
        "Insufficient canonical observations: history charts require two or more canonical observations and never synthetic points");
}

module _ (parse_date : Text → Option ℤ) where
  -- A stable sort by time.
  unfoldable pub insert_observation :
      CanonicalObservation → List CanonicalObservation → List CanonicalObservation
  insert_observation x [] = x ∷ []
  insert_observation x (y ∷ ys) =
      if comes_after (parse_date x.observed_at) (parse_date y.observed_at)
      then y ∷ insert_observation x ys
      else x ∷ y ∷ ys

  unfoldable pub sort_observations : List CanonicalObservation → List CanonicalObservation
  unfolding insert_observation
  sort_observations [] = []
  sort_observations (x ∷ xs) = insert_observation x (sort_observations xs)

  unfoldable pub chart_of : List CanonicalObservation → Text → Result PerformanceChartSeries
  unfolding points_of sort_observations
  chart_of canonical cost_basis = do
    basis ← parse_quantity cost_basis
    points ← points_of basis (sort_observations canonical)
    ok (record {
      has_chart = true;
      points = points;
      observation_count = length points;
      reason = none;
    })

  unfoldable pub build_performance_chart_series :
      List CanonicalObservation → Text → Result PerformanceChartSeries
  unfolding chart_of is_canonical
  build_performance_chart_series observations cost_basis =
      let canonical = filter is_canonical observations in
      if ltb (length canonical) 2
      then ok (too_few (length canonical))
      else chart_of canonical cost_basis
