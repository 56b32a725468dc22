-- ===== src/Engine/Evidence.antt =====
-- src/application/reasoning/evidence_generation_stage.py and domain/reasoning/evidence.py. The
-- weights are hundredths. `rendered` stands for the texts of observed values, which format floats.
use odis.Prelude.{
  ℕ, zero, suc, String, Option, none, some, List, [], ◌∷◌, ◌++◌, map, leb, if◌then◌else◌, length,
}
use odis.Engine.Observation.{
  VariationLevel, TrendDirection, DetectedTrend, Observation, increasing, DetectedVariation, low,
  high, stable, decreasing,
}
use odis.Prelude.Text.{concat}
use odis.Engine.Relationships.{
  MeasurementCorrelation, OperationalContradiction, RelationshipAnalysis,
}
use odis.Engine.Assessment.{ExpectationStatus}

pub data EvidenceRole : Type 0 where
  primary_support corroborating contradicting context : EvidenceRole

pub data EvidenceSourceSignal : Type 0 where
  latest_reading detected_trend detected_variation recent_delta sample_support
        relationship_correlation relationship_contradiction :
      EvidenceSourceSignal

pub record Evidence : Type 0 where
  pub id : String
  pub description : String
  pub source_signal : EvidenceSourceSignal
  pub measurement_type : String
  pub observed_value : String
  pub role : EvidenceRole
  pub weight : ℕ

pub record ReasoningSignals (Value : Type 0) : Type 0 where
  pub trend : DetectedTrend
  pub variation : DetectedVariation
  pub relationship_analysis : RelationshipAnalysis
  pub expectations : List ExpectationStatus
  pub primary_observations : List (Observation Value)

-- The texts of a reading, of the change between two readings, and of a count.
pub record Rendered (Value : Type 0) : Type 0 where
  pub reading : Observation Value → String
  pub delta : Observation Value → Observation Value → String
  pub number : ℕ → String

abbrev trend_text : TrendDirection → String
trend_text increasing = "Direction: increasing"
trend_text stable = "Direction: stable"
trend_text decreasing = "Direction: decreasing"

abbrev variation_text : VariationLevel → String
variation_text low = "Variation: low"
variation_text high = "Variation: high"

module _ {Value : Type 0} (rendered : Rendered Value) where
  abbrev label : List (Observation Value) → String
  label [] = "unknown"
  label (o ∷ os) = o.measurement_type

  abbrev last_two :
      List (Observation Value) → Option (Observation Value) × Option (Observation Value)
  last_two [] = (none, none)
  last_two (o ∷ []) = (none, some o)
  last_two (o ∷ p ∷ []) = (some o, some p)
  last_two (o ∷ p ∷ q ∷ rest) = last_two (p ∷ q ∷ rest)

  abbrev latest_evidence : String → Option (Observation Value) → List Evidence
  latest_evidence measurement none = []
  latest_evidence measurement (some latest) =
      record {
        id = "latest_reading";
        description = "Latest recorded reading is considered in the decision.";
        source_signal = latest_reading;
        measurement_type = measurement;
        observed_value = rendered.reading latest;
        role = primary_support;
        weight = 35;
      }
      ∷ []

  abbrev delta_evidence :
      String → Option (Observation Value) → Option (Observation Value) → List Evidence
  delta_evidence measurement (some previous) (some latest) =
      record {
        id = "recent_delta";
        description = "Change between the two most recent readings supports the assessment.";
        source_signal = recent_delta;
        measurement_type = measurement;
        observed_value = rendered.delta previous latest;
        role = primary_support;
        weight = 30;
      }
      ∷ []
  delta_evidence measurement _ _ = []

  abbrev support_evidence : String → ℕ → List Evidence
  support_evidence measurement zero = []
  support_evidence measurement (suc n) =
      record {
        id = "sample_support";
        description = "Multiple observations reduce the chance of a one-off anomaly.";
        source_signal = sample_support;
        measurement_type = measurement;
        observed_value = concat (rendered.number (suc n)) " supporting observations";
        role = corroborating;
        weight = if leb 3 (suc n) then 20 else 15;
      }
      ∷ []

  abbrev correlation_evidence : String → MeasurementCorrelation → Evidence
  correlation_evidence measurement c = record {
    id = concat "relationship_correlation:" (concat c.measurement_a (concat ":" c.measurement_b));
    description = "Cross-measurement correlation supports interpretation.";
    source_signal = relationship_correlation;
    measurement_type = measurement;
    observed_value = c.relationship;
    role = corroborating;
    weight = 20;
  }

  abbrev contradiction_evidences : String → ℕ → List OperationalContradiction → List Evidence
  contradiction_evidences measurement i [] = []
  contradiction_evidences measurement i (c ∷ cs) =
      record {
        id = concat "relationship_contradiction:" (rendered.number i);
        description = "Cross-measurement contradiction weakens certainty.";
        source_signal = relationship_contradiction;
        measurement_type = measurement;
        observed_value = c.description;
        role = contradicting;
        weight = 20;
      }
      ∷ contradiction_evidences measurement (suc i) cs

  unfoldable pub generate_evidence : ReasoningSignals Value → List Evidence
  generate_evidence signals =
      let primary = signals.primary_observations in
      let measurement = label primary in
      let (previous, latest) = last_two primary in
      latest_evidence measurement latest
      ++ (record {
        id = "detected_trend";
        description = "Directional trend derived from the primary measurement sequence.";
        source_signal = detected_trend;
        measurement_type = measurement;
        observed_value = trend_text signals.trend.direction;
        role = primary_support;
        weight = 25;
      }
          ∷ record {
            id = "detected_variation";
            description = "Variability of the primary measurement sequence.";
            source_signal = detected_variation;
            measurement_type = measurement;
            observed_value = variation_text signals.variation.level;
            role = context;
            weight = 15;
          }
          ∷ [])
      ++ delta_evidence measurement previous latest
      ++ support_evidence measurement (length primary)
      ++ map (correlation_evidence measurement) signals.relationship_analysis.correlations
      ++ contradiction_evidences measurement 0 signals.relationship_analysis.contradictions
