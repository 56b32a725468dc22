-- ===== src/Engine/Tests.antt =====
-- The reasoning engine at concrete inputs, with values in thousandths.
use odis.Engine.Observation.{Floats, Observation, DetectedTrend, increasing, low}
use odis.Engine.Trend
use odis.Engine.Trend.{detect_directional}
use odis.Engine.Evidence.{ReasoningSignals}
use odis.Engine.Hypotheses.{
  Hypothesis, generate_hypotheses, generate_hypotheses-single, load_change,
}
use odis.Engine.Confidence.{score_assessment_confidence, score_total_exact}
use odis.Engine.Assessment.{StructuredAssessment, with_relationships, assessment_from_signals}
use odis.Engine.Relationships.{RelationshipAnalysis}
use odis.Engine.Planner.{
  planning_outcome-assessment, PlanningOutcome, planning_outcome, expected_priority,
}
use odis.Prelude.{
  ℕ, zero, suc, ◌+◌, ◌-◌, ◌*◌, ◌/◌, ◌≤◌, min, max, ◌≡◌, refl, true, false, List, [], ◌∷◌, ltb, leb,
  length,
}
use odis.Prelude.Result.{ok}

abbrev sum : List ℕ → ℕ
sum [] = 0
sum (x ∷ xs) = x + sum xs

abbrev greatest : List ℕ → ℕ
greatest [] = 0
greatest (x ∷ xs) = max x (greatest xs)

abbrev least : List ℕ → ℕ
least [] = 0
least (x ∷ []) = x
least (x ∷ y ∷ ys) = min x (least (y ∷ ys))

abbrev thousandths : Floats
thousandths = record {
  Value = ℕ;
  of_decimal = λ m e. elim e [ zero ↦ m * 1000 | suc zero ↦ m * 100 | _ ↦ 0 ];
  sub = λ a b. a - b;
  div = λ a b. (a * 1000) / b;
  abs = λ a. a;
  lt = ltb;
  le = leb;
  fmean = λ xs. sum xs / length xs;
  pstdev = λ xs. (greatest xs - least xs) / 3;
  greatest = greatest;
  least = least;
}

abbrev reading : ℕ → Observation ℕ
reading t = record {
  id = "o";
  asset_id = "stack-1";
  timestamp = t;
  measurement_type = "stack_temperature";
  value = 60000 + t * 1000;
  unit = "C";
}

abbrev eight : List (Observation ℕ)
eight =
    reading 1
    ∷ reading 2
    ∷ reading 3
    ∷ reading 4
    ∷ reading 5
    ∷ reading 6
    ∷ reading 7
    ∷ reading 8
    ∷ []

abbrev rising : DetectedTrend
rising = record {
  direction = increasing;
  asset_id = "stack-1";
  measurement_type = "stack_temperature";
}

rises : Trend.detect thousandths eight ≡ ok rising
unfolding Trend.detect
rises = refl

detect_directional_example : 8 ≤ length eight
detect_directional_example = detect_directional thousandths eight rising rises (λ e. cc)

abbrev signals : ReasoningSignals ℕ
signals = record {
  trend = rising;
  variation = record { asset_id = "stack-1"; measurement_type = "stack_temperature"; level = low };
  relationship_analysis = record { correlations = []; contradictions = [] };
  expectations = [];
  primary_observations = eight;
}

abbrev load_change_only : List Hypothesis
load_change_only =
    record { id = "hypothesis-load-change"; kind = load_change; supporting_evidence_ids = [] } ∷ []

generates : generate_hypotheses thousandths signals [] eight ≡ ok load_change_only
unfolding generate_hypotheses odis.Engine.Hypotheses.supports_hydrogen_supply
    odis.Engine.Hypotheses.supporting_ids_for_kind
generates = refl

generate_hypotheses-single_example : length load_change_only ≡ 1
generate_hypotheses-single_example =
    generate_hypotheses-single thousandths signals [] eight load_change_only rises generates

abbrev assessed : StructuredAssessment
assessed = record {
  trend_direction = increasing;
  variation_level = low;
  has_correlations = false;
  has_contradictions = true;
  has_unexpected_expectations = false;
  has_indeterminate_expectations = false;
}

score_total_exact_example :
    let c = score_assessment_confidence thousandths assessed eight in
    (c.total + c.penalties
      ≡ c.base + c.support + c.consistency + c.trend_consistency + c.sustained_bonus)
    × (26 ≤ c.total)
    × (c.total ≤ 92)
score_total_exact_example = score_total_exact thousandths assessed eight

abbrev unrelated : RelationshipAnalysis
unrelated = record { correlations = []; contradictions = [] }

planning_outcome-assessment_example :
    (p : PlanningOutcome) × (planning_outcome
        (with_relationships unrelated (assessment_from_signals increasing low))
      ≡ ok p)
    × (p.priority ≡ expected_priority increasing low)
planning_outcome-assessment_example = planning_outcome-assessment increasing low unrelated
