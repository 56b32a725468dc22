-- ===== src/Engine/Relationships.antt =====
-- src/application: relationship_policy.py, observation_group.py, measurement_index.py,
-- correlation_detector.py, contradiction_detector.py, relationship_analysis.py.
-- `capitalized` and `lowered` stand for the text methods that turn a measurement name to a label.
use odis.Engine.Observation.{Floats, TrendDirection, Observation, decreasing, increasing}
use odis.Engine.Trend
use odis.Prelude.{
  String, not, ◌||◌, Option, none, some, List, [], ◌∷◌, ◌==◌, ltb, if◌then◌else◌, length, keep, any,
  is_empty,
}
use odis.Prelude.Result.{Result, ok, ◌>>=◌, err, value_error}
use odis.Prelude.Text.{concat}

pub record RelationshipRule : Type 0 where
  pub measurement_a : String
  pub measurement_b : String

pub record RelationshipPolicy : Type 0 where
  pub correlation_rules : List RelationshipRule
  pub contradiction_rules : List RelationshipRule

abbrev rule : String → String → RelationshipRule
rule a b = record { measurement_a = a; measurement_b = b }

abbrev pub default_relationship_policy : RelationshipPolicy
default_relationship_policy = record {
  correlation_rules = rule "temperature" "pressure" ∷ [];
  contradiction_rules = rule "temperature" "pressure" ∷ [];
}

abbrev pub fuel_cell_relationship_policy : RelationshipPolicy
fuel_cell_relationship_policy = record {
  correlation_rules =
      rule "stack_temperature" "stack_pressure"
      ∷ rule "current" "voltage"
      ∷ rule "fuel_flow" "stack_temperature"
      ∷ [];
  contradiction_rules = [];
}

pub record MeasurementCorrelation : Type 0 where
  pub measurement_a : String
  pub measurement_b : String
  pub relationship : String

pub record OperationalContradiction : Type 0 where
  pub description : String

pub record RelationshipAnalysis : Type 0 where
  pub correlations : List MeasurementCorrelation
  pub contradictions : List OperationalContradiction

pub record ObservationGroup (Value : Type 0) : Type 0 where
  pub asset_id : String
  pub observations : List (Observation Value)

module _ {Value : Type 0} where
  -- `ObservationGroup.__post_init__`
  unfoldable pub group_of : String → List (Observation Value) → Result (ObservationGroup Value)
  group_of asset_id observations =
      if is_empty observations
      then err value_error
      else if any (λ (o : Observation Value). not (o.asset_id == asset_id)) observations
      then err value_error
      else ok (record { asset_id = asset_id; observations = observations })

  -- `MeasurementIndex.get`: the bucket of a type, in the order of the group.
  unfoldable pub measurements : ObservationGroup Value → String → List (Observation Value)
  measurements group measurement_type =
      keep (λ (o : Observation Value). o.measurement_type == measurement_type) group.observations

module _ (floats : Floats) (capitalized lowered : String → String) where
  open floats use {Value}

  -- The trends of both sides of a rule; `none` where a side has fewer than two observations.
  unfoldable pub rule_trends :
      ObservationGroup Value → RelationshipRule → Result (Option (TrendDirection × TrendDirection))
  unfolding measurements
  rule_trends group r =
      let a = measurements group r.measurement_a in
      let b = measurements group r.measurement_b in
      if ltb (length a) 2 || ltb (length b) 2 then ok none else (do
        trend_a ← Trend.detect floats a
        trend_b ← Trend.detect floats b
        ok (some (trend_a.direction, trend_b.direction)))

  abbrev add_correlation :
      RelationshipRule
      → Option (TrendDirection × TrendDirection)
      → List MeasurementCorrelation
      → List MeasurementCorrelation
  add_correlation r (some (increasing, decreasing)) rest =
      record {
        measurement_a = r.measurement_a;
        measurement_b = r.measurement_b;
        relationship =
            concat (capitalized r.measurement_a)
              (concat " increasing while " (concat (lowered r.measurement_b) " decreasing"));
      }
      ∷ rest
  add_correlation r _ rest = rest

  abbrev add_contradiction :
      RelationshipRule
      → Option (TrendDirection × TrendDirection)
      → List OperationalContradiction
      → List OperationalContradiction
  add_contradiction r (some (increasing, increasing)) rest =
      record {
        description =
            concat (capitalized r.measurement_a)
              (concat " and " (concat (lowered r.measurement_b) " are increasing simultaneously."));
      }
      ∷ rest
  add_contradiction r _ rest = rest

  -- `CorrelationDetector.detect`
  unfoldable pub detect_correlations :
      ObservationGroup Value → List RelationshipRule → Result (List MeasurementCorrelation)
  detect_correlations group [] = ok []
  detect_correlations group (r ∷ rules) = do
    trends ← rule_trends group r
    rest ← detect_correlations group rules
    ok (add_correlation r trends rest)

  -- `ContradictionDetector.detect`
  unfoldable pub detect_contradictions :
      ObservationGroup Value → List RelationshipRule → Result (List OperationalContradiction)
  detect_contradictions group [] = ok []
  detect_contradictions group (r ∷ rules) = do
    trends ← rule_trends group r
    rest ← detect_contradictions group rules
    ok (add_contradiction r trends rest)

  -- `RelationshipAnalyzer.analyze`
  unfoldable pub analyze : RelationshipPolicy → ObservationGroup Value → Result RelationshipAnalysis
  analyze policy group = do
    correlations ← detect_correlations group policy.correlation_rules
    contradictions ← detect_contradictions group policy.contradiction_rules
    ok (record { correlations = correlations; contradictions = contradictions })
