-- ===== src/Engine/Hypotheses.antt =====
-- src/application/reasoning/hypothesis_stage.py and domain/reasoning/hypothesis.py
use odis.Engine.Observation.{
  Floats, TrendDirection, Observation, VariationLevel, increasing, decreasing, high, low,
}
use odis.Engine.Trend
use odis.Prelude.{
  String, Bool, true, false, not, ◌&&◌, ◌||◌, List, [], ◌∷◌, map, ◌==◌, ltb, if◌then◌else◌, length,
  keep, any, take, is_empty, ◌≡◌, arith,
}
use odis.Engine.Evidence.{
  Evidence, EvidenceSourceSignal, relationship_correlation, relationship_contradiction,
  detected_variation, ReasoningSignals,
}
use odis.Engine.Relationships.{MeasurementCorrelation}
use odis.Prelude.Result.{Result, ok, ◌>>=◌, >>=-eq-ok, ok-injective}
use odis.Engine.Assessment.{has_unexpected}

pub data HypothesisKind : Type 0 where
  unknown sensor_drift load_change cooling_degradation hydrogen_supply : HypothesisKind

pub record Hypothesis : Type 0 where
  pub id : String
  pub kind : HypothesisKind
  pub supporting_evidence_ids : List String

abbrev is_correlation_evidence : EvidenceSourceSignal → Bool
is_correlation_evidence relationship_correlation = true
is_correlation_evidence _ = false

abbrev is_drift_evidence : EvidenceSourceSignal → Bool
is_drift_evidence relationship_contradiction = true
is_drift_evidence detected_variation = true
is_drift_evidence _ = false

abbrev evidence_id : Evidence → String
evidence_id e = e.id

unfoldable pub supporting_ids_for_kind : HypothesisKind → List Evidence → List String
supporting_ids_for_kind sensor_drift evidence =
    map evidence_id (keep (λ (e : Evidence). is_drift_evidence e.source_signal) evidence)
supporting_ids_for_kind cooling_degradation evidence =
    map evidence_id (keep (λ (e : Evidence). is_correlation_evidence e.source_signal) evidence)
supporting_ids_for_kind hydrogen_supply evidence =
    map evidence_id (keep (λ (e : Evidence). is_correlation_evidence e.source_signal) evidence)
supporting_ids_for_kind load_change evidence = map evidence_id (take 2 evidence)
supporting_ids_for_kind unknown evidence = map evidence_id (take 2 evidence)

abbrev is_increasing : TrendDirection → Bool
is_increasing increasing = true
is_increasing _ = false

abbrev is_decreasing : TrendDirection → Bool
is_decreasing decreasing = true
is_decreasing _ = false

abbrev pub is_high : VariationLevel → Bool
is_high high = true
is_high low = false

-- `{measurement_a, measurement_b} == {stack_temperature, fuel_flow}`
abbrev couples_fuel_and_temperature : MeasurementCorrelation → Bool
couples_fuel_and_temperature c =
    ((c.measurement_a == "stack_temperature") && (c.measurement_b == "fuel_flow"))
    || ((c.measurement_a == "fuel_flow") && (c.measurement_b == "stack_temperature"))

module _ (floats : Floats) where
  open floats use {Value}

  abbrev leads_with_stack_temperature : List (Observation Value) → Bool
  leads_with_stack_temperature [] = false
  leads_with_stack_temperature (o ∷ os) = o.measurement_type == "stack_temperature"

  unfoldable pub supports_cooling_degradation : ReasoningSignals Value → Bool
  supports_cooling_degradation signals =
      leads_with_stack_temperature signals.primary_observations
      && is_increasing signals.trend.direction
      && not (is_high signals.variation.level)
      && any couples_fuel_and_temperature signals.relationship_analysis.correlations

  unfoldable pub fuel_flow_decreasing : List (Observation Value) → Result Bool
  fuel_flow_decreasing observations =
      let fuel = keep (λ (o : Observation Value). o.measurement_type == "fuel_flow") observations in
      if ltb (length fuel) 2
      then ok false
      else (do trend ← Trend.detect floats fuel; ok (is_decreasing trend.direction))

  unfoldable pub supports_hydrogen_supply :
      ReasoningSignals Value → List (Observation Value) → Result Bool
  unfolding fuel_flow_decreasing
  supports_hydrogen_supply signals observations = do
    falling ← fuel_flow_decreasing observations
    ok (falling || has_unexpected signals.expectations)

  abbrev hypothesis : String → HypothesisKind → List Evidence → Hypothesis
  hypothesis id kind evidence = record {
    id = id;
    kind = kind;
    supporting_evidence_ids = supporting_ids_for_kind kind evidence;
  }

  -- The first hypothesis, by the chain of `if` and `elif`.
  unfoldable pub leading_hypothesis :
      ReasoningSignals Value → List Evidence → List (Observation Value) → Result Hypothesis
  unfolding supports_cooling_degradation
  leading_hypothesis signals evidence observations =
      if supports_cooling_degradation signals
      then ok (hypothesis "hypothesis-cooling-degradation" cooling_degradation evidence)
      else (do
        hydrogen ← supports_hydrogen_supply signals observations
        ok (
            if hydrogen
            then hypothesis "hypothesis-hydrogen-supply" hydrogen_supply evidence
            else if is_high signals.variation.level
                || not (is_empty signals.relationship_analysis.contradictions)
            then hypothesis "hypothesis-sensor-drift" sensor_drift evidence
            else hypothesis "hypothesis-load-change" load_change evidence))

  unfoldable pub generate_hypotheses :
      ReasoningSignals Value → List Evidence → List (Observation Value) → Result (List Hypothesis)
  unfolding leading_hypothesis
  generate_hypotheses signals evidence observations = do
    first ← leading_hypothesis signals evidence observations
    let hypotheses = first ∷ []
    ok (
        take 2 (
          if is_increasing signals.trend.direction
            && ltb (length signals.primary_observations) 4
            && ltb (length hypotheses) 2
          then first ∷ hypothesis "hypothesis-unknown" unknown evidence ∷ []
          else hypotheses))

  -- With the trend that the detector finds in the primary observations, a generation that
  -- returns gives exactly one hypothesis: the branch of the unknown one is not taken.
  pub generate_hypotheses-single :
      (signals : ReasoningSignals Value) (evidence : List Evidence)
      (observations : List (Observation Value)) (hs : List Hypothesis)
      → Trend.detect floats signals.primary_observations ≡ ok signals.trend
      → generate_hypotheses signals evidence observations ≡ ok hs
      → length hs ≡ 1
  unfolding generate_hypotheses
  generate_hypotheses-single signals evidence observations hs found generated =
      let (first, _, rest) =
        >>=-eq-ok (leading_hypothesis signals evidence observations) _ generated in
      grind (
        arith,
        ok-injective rest,
        Trend.detect_directional floats signals.primary_observations signals.trend found,
      )
