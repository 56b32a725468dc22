-- ===== src/Engine/Variation.antt =====
-- src/application/variation_detector.py
use odis.Engine.Observation.{
  Floats, check_signal, Observation, VariationLevel, sort_by_timestamp, low, high,
  DetectedVariation,
}
use odis.Prelude.{ℕ, List, map, ltb, if◌then◌else◌, length}
use odis.Prelude.Result.{Result, ◌>>=◌, ok}

abbrev pub min_samples_for_variation_classification : ℕ
min_samples_for_variation_classification = 8

module _ (floats : Floats) where
  open floats use {Value, of_decimal, sub, lt, greatest, least}

  abbrev pub high_variation_threshold : Value
  high_variation_threshold = of_decimal 60 0

  unfoldable pub level_of : List (Observation Value) → VariationLevel
  level_of ordered =
      let values = map (λ (o : Observation Value). o.value) ordered in
      if ltb (length ordered) min_samples_for_variation_classification
      then low
      else if lt high_variation_threshold (sub (greatest values) (least values))
      then high
      else low

  unfoldable pub detect : List (Observation Value) → Result DetectedVariation
  unfolding check_signal level_of sort_by_timestamp
  detect observations = do
    first ← check_signal observations
    ok (record {
      asset_id = first.asset_id;
      measurement_type = first.measurement_type;
      level = level_of (sort_by_timestamp observations);
    })
