-- ===== src/Engine/Assessment.antt =====
-- src/application: operational_situation_assessor.py, structured_assessment.py,
-- planning_context.py, expectation_analysis.py, and the profiles' expectations.
use odis.Engine.Observation.{
  TrendDirection, VariationLevel, Observation, increasing, DetectedTrend, DetectedVariation, stable,
  decreasing, sort_by_timestamp, low, high,
}
use odis.Prelude.{
  String, Bool, true, false, not, ◌&&◌, ◌||◌, List, [], ◌∷◌, map, ◌==◌, if◌then◌else◌, any,
  is_empty,
}
use odis.Engine.Relationships.{
  RelationshipPolicy, RelationshipAnalysis, default_relationship_policy,
  fuel_cell_relationship_policy,
}
use odis.Prelude.Result.{Result, err, value_error, ok, ◌>>◌, raise_if, ◌>>=◌}
use odis.Prelude.Text.{concat}

pub data ExpectationStatus : Type 0 where
  expected unexpected indeterminate : ExpectationStatus

abbrev is_unexpected : ExpectationStatus → Bool
is_unexpected unexpected = true
is_unexpected _ = false

abbrev is_indeterminate : ExpectationStatus → Bool
is_indeterminate indeterminate = true
is_indeterminate _ = false

-- `has_unexpected` and `has_indeterminate` of the statuses of the evaluations.
abbrev pub has_unexpected : List ExpectationStatus → Bool
has_unexpected evaluations = any is_unexpected evaluations

abbrev pub has_indeterminate : List ExpectationStatus → Bool
has_indeterminate evaluations = any is_indeterminate evaluations

pub data OperationalProfile : Type 0 where
  default_profile fuel_cell_profile : OperationalProfile

unfoldable pub relationship_policy : OperationalProfile → RelationshipPolicy
relationship_policy default_profile = default_relationship_policy
relationship_policy fuel_cell_profile = fuel_cell_relationship_policy

-- `OperationalProfile.evaluate_expectations`, and the fuel cell's override.
unfoldable pub evaluate_expectations :
    OperationalProfile → RelationshipAnalysis → List ExpectationStatus
evaluate_expectations default_profile r = []
evaluate_expectations fuel_cell_profile r =
    (if not (is_empty r.correlations)
      then expected
      else if not (is_empty r.contradictions)
      then unexpected
      else indeterminate)
    ∷ []

unfoldable pub assessment_from_signals : TrendDirection → VariationLevel → String
assessment_from_signals increasing low = "Increasing operational stress detected"
assessment_from_signals increasing high =
    "Rapidly increasing unstable operational conditions detected"
assessment_from_signals stable low = "Operational conditions stable"
assessment_from_signals stable high = "Highly unstable operating conditions detected"
assessment_from_signals decreasing low = "Operational conditions improving"
assessment_from_signals decreasing high =
    "Operational conditions remain unstable despite improvement"

pub record StructuredAssessment : Type 0 where
  pub trend_direction : TrendDirection
  pub variation_level : VariationLevel
  pub has_correlations : Bool
  pub has_contradictions : Bool
  pub has_unexpected_expectations : Bool
  pub has_indeterminate_expectations : Bool

unfoldable pub from_reasoning :
    DetectedTrend
    → DetectedVariation
    → RelationshipAnalysis
    → List ExpectationStatus
    → StructuredAssessment
from_reasoning trend variation r evaluations = record {
  trend_direction = trend.direction;
  variation_level = variation.level;
  has_correlations = not (is_empty r.correlations);
  has_contradictions = not (is_empty r.contradictions);
  has_unexpected_expectations = has_unexpected evaluations;
  has_indeterminate_expectations = has_indeterminate evaluations;
}

pub record OperationalSituation : Type 0 where
  pub id : String
  pub goal_id : String
  pub observation_ids : List String
  pub assessment : String

pub record AssessmentResult : Type 0 where
  pub situation : OperationalSituation
  pub structured : StructuredAssessment

abbrev has_duplicate : List String → Bool
has_duplicate [] = false
has_duplicate (x ∷ xs) = if any (λ y. y == x) xs then true else has_duplicate xs

-- `OperationalSituation.__post_init__`
unfoldable pub situation_of : String → String → List String → String → Result OperationalSituation
situation_of id goal_id observation_ids assessment =
    if (id == "")
      || (goal_id == "")
      || is_empty observation_ids
      || has_duplicate observation_ids
      || (assessment == "")
    then err value_error
    else ok (record {
      id = id;
      goal_id = goal_id;
      observation_ids = observation_ids;
      assessment = assessment;
    })

-- The text of the relationships behind the assessment of the signals.
unfoldable pub with_relationships : RelationshipAnalysis → String → String
with_relationships r assessment =
    if not (is_empty r.contradictions)
    then concat assessment "\n\nCross-measurement inconsistencies detected."
    else if not (is_empty r.correlations)
    then concat assessment "\n\nCross-measurement relationships detected."
    else assessment

-- `OperationalSituationAssessor.assess`, as the assessment stage calls it; `fresh_id` is `uuid4()`.
unfoldable pub assess :
    {Value : Type 0}
    → String
    → String
    → List (Observation Value)
    → DetectedTrend
    → DetectedVariation
    → RelationshipAnalysis
    → List ExpectationStatus
    → Result AssessmentResult
unfolding situation_of with_relationships assessment_from_signals from_reasoning
assess {Value} fresh_id goal_id observations trend variation r evaluations = do
  let ordered = sort_by_timestamp observations
  raise_if (is_empty observations) value_error
  raise_if (not (trend.asset_id == variation.asset_id)) value_error
  raise_if (not (trend.measurement_type == variation.measurement_type)) value_error
  raise_if
      (any
        (λ (o : Observation Value).
          not ((o.asset_id == trend.asset_id) && (o.measurement_type == trend.measurement_type)))
        ordered)
      value_error
  situation ←
      situation_of fresh_id goal_id (map (λ (o : Observation Value). o.id) ordered)
        (with_relationships r (assessment_from_signals trend.direction variation.level))
  ok (record { situation = situation; structured = from_reasoning trend variation r evaluations })
