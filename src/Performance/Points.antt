-- ===== src/Performance/Points.antt =====
-- packages/core/src/performance.ts: a chart's points are the observations.
use capital_os.Shared.{
  ◌≤◌, Text, ℤ, length, ltb, ◌≡◌, arith, true, false, Option, List, [], ◌∷◌, map, filter,
  Bool-cases, inl, inr, ◌⊎◌,
}
use mathlib.Core.List.{Perm}
use mathlib.Core.List.Perm
use capital_os.Errors.{ok, bind-ok}
use capital_os.Amounts.{parse_quantity}
use capital_os.Performance.Chart.{
  CanonicalObservation, CanonicalPerformancePoint, PerformanceChartSeries, is_canonical,
  observed_value, point_of, points_of, insert_observation, sort_observations, chart_of,
  build_performance_chart_series, comes_after,
}

-- The block and the time that an observation, or a point, stands for.
abbrev pub observation_key : CanonicalObservation → Text × Text
observation_key o = (o.observed_at, o.source)

abbrev pub point_key : CanonicalPerformancePoint → Text × Text
point_key q = (q.timestamp, q.source)

points_of-keys :
    (basis : ℤ) (obs : List CanonicalObservation) (points : List CanonicalPerformancePoint)
    → points_of basis obs ≡ ok points
    → map point_key points ≡ map observation_key obs
unfolding points_of point_of
points_of-keys basis [] points h = ground arith
points_of-keys basis (o ∷ obs) points h =
    let (value, read, h1) = bind-ok (observed_value o) _ points h in
    let (rest, made, h2) = bind-ok (points_of basis obs) _ points h1 in
    ground (arith, points_of-keys basis obs rest made)

module _ (parse_date : Text → Option ℤ) where
  insert-Perm :
      (x : CanonicalObservation) (xs : List CanonicalObservation)
      → Perm (insert_observation parse_date x xs) (x ∷ xs)
  unfolding insert_observation
  insert-Perm x [] = Perm.refl (x ∷ [])
  insert-Perm x (y ∷ ys) =
      elim (Bool-cases (comes_after (parse_date x.observed_at) (parse_date y.observed_at))) [
        | inl e ↦ rw e (Perm.trans (Perm.cons y (insert-Perm x ys)) (Perm.swap x y ys))
        | inr e ↦ rw e (Perm.refl (x ∷ y ∷ ys))
      ]

  sort-Perm : (xs : List CanonicalObservation) → Perm (sort_observations parse_date xs) xs
  unfolding sort_observations
  sort-Perm [] = Perm.refl []
  sort-Perm (x ∷ xs) =
      Perm.trans (insert-Perm x (sort_observations parse_date xs)) (Perm.cons x (sort-Perm xs))

  chart-Perm :
      (canonical : List CanonicalObservation) (cost_basis : Text) (series : PerformanceChartSeries)
      → chart_of parse_date canonical cost_basis ≡ ok series
      → (series.has_chart ≡ true)
        × Perm (map point_key series.points) (map observation_key canonical)
  unfolding chart_of
  chart-Perm canonical cost_basis series h =
      let (basis, read, h1) = bind-ok (parse_quantity cost_basis) _ series h in
      let (points, made, h2) =
        bind-ok (points_of basis (sort_observations parse_date canonical)) _ series h1 in
      let same : series.points ≡ points = ground arith in
      (
        ground arith,
        rw (same, points_of-keys basis (sort_observations parse_date canonical) points made)
            (Perm.map observation_key (sort-Perm canonical)),
      )

  -- A series either has a chart, whose points stand for the observations that have a time, of which there are at
  -- least two, each once; or it has no points, and fewer than two observations have a time.
  pub points-observations :
      (obs : List CanonicalObservation) (cost_basis : Text) (series : PerformanceChartSeries)
      → build_performance_chart_series parse_date obs cost_basis ≡ ok series
      → ((series.has_chart ≡ true)
          × (2 ≤ length (filter is_canonical obs))
          × Perm (map point_key series.points) (map observation_key (filter is_canonical obs)))
        ⊎ ((series.has_chart ≡ false)
            × (series.points ≡ [])
            × (length (filter is_canonical obs) ≤ 1))
  unfolding build_performance_chart_series
  points-observations obs cost_basis series h =
      elim (Bool-cases (ltb (length (filter is_canonical obs)) 2)) [
        | inl e ↦ inr (ground arith, ground arith, ground arith)
        | inr e ↦
            let (has, points) =
              chart-Perm (filter is_canonical obs) cost_basis series (ground arith) in
            inl (has, ground arith, points)
      ]
