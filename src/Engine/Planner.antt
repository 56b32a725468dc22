-- ===== src/Engine/Planner.antt =====
-- src/application/decision_planner.py. The planner finds words in the case-folded assessment; on
-- the ASCII texts of the assessor `casefold` lowers the letters A to Z.
use Prim.Native.Char.{code}
use odis.Prelude.{
  ℕ, ◌+◌, String, ◌≡◌, refl, Bool, true, false, not, ◌&&◌, leb, eqb, if◌then◌else◌, is_empty,
}
use odis.Engine.Assessment.{with_relationships, assessment_from_signals}
use odis.Prelude.Result.{Result, ok, err, value_error}
use odis.Engine.Observation.{
  TrendDirection, VariationLevel, increasing, stable, decreasing, high, low,
}
use odis.Engine.Relationships.{RelationshipAnalysis}
use odis.Prelude.Text.{concat}

pub data Priority : Type 0 where
  low_priority medium_priority high_priority critical_priority : Priority

abbrev lower : ℕ → ℕ
lower c = if leb 65 c && leb c 90 then c + 32 else c

abbrev begins_folded : String → String → Bool
begins_folded String.[] s = true
begins_folded (String.◌∷◌ c p) String.[] = false
begins_folded (String.◌∷◌ c p) (String.◌∷◌ d s) =
    if eqb (code c) (lower (code d)) then begins_folded p s else false

-- `word in assessment.casefold()`
unfoldable pub mentions : String → String → Bool
mentions word String.[] = begins_folded word String.[]
mentions word (String.◌∷◌ c s) =
    if begins_folded word (String.◌∷◌ c s) then true else mentions word s

pub record PlanningOutcome : Type 0 where
  pub priority : Priority
  pub recommendation : String
  pub justification : String

unfoldable pub planning_outcome : String → Result PlanningOutcome
unfolding mentions
planning_outcome assessment =
    if mentions "increasing" assessment
    then ok (record {
      priority = high_priority;
      recommendation = "Investigate operational conditions";
      justification = "Operational assessment indicates increasing stress.";
    })
    else if mentions "unstable" assessment
    then ok (record {
      priority = high_priority;
      recommendation = "Investigate operational conditions";
      justification = "Operational assessment indicates unstable conditions.";
    })
    else if mentions "stable" assessment
    then ok (record {
      priority = low_priority;
      recommendation = "Continue monitoring";
      justification = "Operational conditions remain stable.";
    })
    else if mentions "improving" assessment
    then ok (record {
      priority = low_priority;
      recommendation = "Maintain current operations";
      justification = "Operational conditions are improving.";
    })
    else err value_error

-- `HIGH` for a rising trend or a high variation, and `LOW` for the rest.
abbrev pub expected_priority : TrendDirection → VariationLevel → Priority
expected_priority increasing v = high_priority
expected_priority stable high = high_priority
expected_priority stable low = low_priority
expected_priority decreasing high = high_priority
expected_priority decreasing low = low_priority

-- The planner understands every text that the assessor writes, whatever the relationships are. Its
-- priority is `HIGH` for a rising trend or a high variation and `LOW` for the rest.
pub planning_outcome-assessment :
    (d : TrendDirection) (v : VariationLevel) (r : RelationshipAnalysis)
    → (p : PlanningOutcome) × (planning_outcome (with_relationships r (assessment_from_signals d v))
        ≡ ok p)
      × (p.priority ≡ expected_priority d v)
unfolding planning_outcome with_relationships assessment_from_signals
planning_outcome-assessment d v r =
    by_relationships d v (not (is_empty r.contradictions)) (not (is_empty r.correlations))
  where
    by_relationships :
        (d : TrendDirection) (v : VariationLevel) (b c : Bool)
        → (p : PlanningOutcome) × (planning_outcome (
              if b
              then concat
                  (assessment_from_signals d v)
                  "\n\nCross-measurement inconsistencies detected."
              else if c
              then concat
                  (assessment_from_signals d v)
                  "\n\nCross-measurement relationships detected."
              else assessment_from_signals d v)
            ≡ ok p)
          × (p.priority ≡ expected_priority d v)
    by_relationships increasing low true c = (_, refl, refl)
    by_relationships increasing low false true = (_, refl, refl)
    by_relationships increasing low false false = (_, refl, refl)
    by_relationships increasing high true c = (_, refl, refl)
    by_relationships increasing high false true = (_, refl, refl)
    by_relationships increasing high false false = (_, refl, refl)
    by_relationships stable low true c = (_, refl, refl)
    by_relationships stable low false true = (_, refl, refl)
    by_relationships stable low false false = (_, refl, refl)
    by_relationships stable high true c = (_, refl, refl)
    by_relationships stable high false true = (_, refl, refl)
    by_relationships stable high false false = (_, refl, refl)
    by_relationships decreasing low true c = (_, refl, refl)
    by_relationships decreasing low false true = (_, refl, refl)
    by_relationships decreasing low false false = (_, refl, refl)
    by_relationships decreasing high true c = (_, refl, refl)
    by_relationships decreasing high false true = (_, refl, refl)
    by_relationships decreasing high false false = (_, refl, refl)
