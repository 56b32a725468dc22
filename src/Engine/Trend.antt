-- ===== src/Engine/Trend.antt =====
-- src/application/trend_detector.py
use odis.Engine.Observation.{
  Floats, TrendDirection, Observation, check_signal, sort_by_timestamp, increasing, stable,
  DetectedTrend, decreasing, length-sort,
}
use odis.Prelude.{
  ℕ, suc, ◌-◌, ◌/◌, ◌≤◌, ◌<◌, ◌≡◌, refl, ap, ◌≢◌, List, [], ◌∷◌, map, arith, ltb, if◌then◌else◌,
  length, take, drop,
}
use odis.Prelude.Result.{Result, ok, >>=-eq-ok, ok-injective, ◌>>=◌}

abbrev pub min_samples_for_directional_trend : ℕ
min_samples_for_directional_trend = 8

module _ (floats : Floats) where
  open floats use {Value, of_decimal, sub, div, abs, lt, le, fmean, pstdev}

  abbrev pub stable_epsilon : Value
  stable_epsilon = of_decimal 1 9

  abbrev pub trend_ratio_threshold : Value
  trend_ratio_threshold = of_decimal 8 1

  -- `values[:mid]` and `values[n - mid:]`
  abbrev pub first_half : List Value → List Value
  first_half values = take (length values / 2) values

  abbrev pub second_half : List Value → List Value
  second_half values = drop (length values - length values / 2) values

  abbrev sign : Value → TrendDirection
  sign shift = if lt (of_decimal 0 0) shift then increasing else decreasing

  unfoldable pub split_half_direction : List (Observation Value) → TrendDirection
  split_half_direction ordered =
      let values = map (λ (o : Observation Value). o.value) ordered in
      let shift = sub (fmean (second_half values)) (fmean (first_half values)) in
      let spread = pstdev values in
      if ltb (length values) min_samples_for_directional_trend
      then stable
      else if le (abs shift) stable_epsilon
      then stable
      else if le spread stable_epsilon
      then sign shift
      else if lt (div (abs shift) spread) trend_ratio_threshold
      then stable
      else sign shift

  unfoldable pub detect : List (Observation Value) → Result DetectedTrend
  unfolding check_signal split_half_direction sort_by_timestamp
  detect observations = do
    first ← check_signal observations
    ok (record {
      direction = split_half_direction (sort_by_timestamp observations);
      asset_id = first.asset_id;
      measurement_type = first.measurement_type;
    })

  length-map :
      (os : List (Observation Value))
      → length (map (λ (o : Observation Value). o.value) os) ≡ length os
  length-map [] = refl
  length-map (o ∷ os) = ap suc (length-map os)

  -- Below eight observations the direction is `STABLE`.
  pub split_half_direction_short :
      (os : List (Observation Value))
      → length os < min_samples_for_directional_trend
      → split_half_direction os ≡ stable
  unfolding split_half_direction
  split_half_direction_short os h = ground (arith, length-map os)

  -- Of any observations: if the detector returns, then a direction other than `STABLE` comes only
  -- from eight observations or more.
  pub detect_directional :
      (os : List (Observation Value)) (t : DetectedTrend)
      → detect os ≡ ok t
      → t.direction ≢ stable
      → min_samples_for_directional_trend ≤ length os
  unfolding detect
  detect_directional os t e n =
      let (first, _, e1) = >>=-eq-ok (check_signal os) _ e in
      let short = split_half_direction_short (sort_by_timestamp os) in
      grind (arith, ok-injective e1, short, length-sort os)
