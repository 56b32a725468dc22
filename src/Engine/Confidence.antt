-- ===== src/Engine/Confidence.antt =====
-- src/application/reasoning/confidence_scorer.py. The penalties are kept as what they take away, and
-- `max(0, …)` is the subtraction of ℕ, which stops at 0.
use odis.Engine.Observation.{Floats, TrendDirection, Observation, stable}
use odis.Prelude.{
  ℕ, ◌+◌, ◌-◌, ◌*◌, ◌≤◌, min, ◌≡◌, Bool, true, false, not, ◌&&◌, ◌||◌, Option, none, some, List, [],
  ◌∷◌, arith, if◌then◌else◌, length,
}
use odis.Engine.Assessment.{StructuredAssessment}
use odis.Engine.Hypotheses.{is_high}

module _ (floats : Floats) where
  open floats use {Value, le}

  abbrev last_three : List (Observation Value) → Option (Value × Value × Value)
  last_three [] = none
  last_three (a ∷ []) = none
  last_three (a ∷ b ∷ []) = none
  last_three (a ∷ b ∷ c ∷ []) = some (a.value, b.value, c.value)
  last_three (a ∷ b ∷ c ∷ d ∷ rest) = last_three (b ∷ c ∷ d ∷ rest)

  unfoldable pub is_monotonic_recent : List (Observation Value) → Bool
  is_monotonic_recent primary = elim (last_three primary) [
    | none ↦ false
    | some (first, second, third) ↦
        (le first second && le second third) || (le second first && le third second)
  ]

pub record ConfidenceBreakdown : Type 0 where
  pub base : ℕ
  pub support : ℕ
  pub consistency : ℕ
  pub trend_consistency : ℕ
  pub sustained_bonus : ℕ
  pub penalties : ℕ
  pub total : ℕ

abbrev is_stable_trend : TrendDirection → Bool
is_stable_trend stable = true
is_stable_trend _ = false

-- The score from what it depends on: the assessment, the number of observations, and whether the
-- last three are monotonic.
unfoldable pub score_of : StructuredAssessment → ℕ → Bool → ConfidenceBreakdown
score_of structured n_supporting monotonic =
    let contradictions = structured.has_contradictions in
    let variation_high = is_high structured.variation_level in
    let base : ℕ = 35 in
    let support = min 25 (8 * min n_supporting 3) in
    let consistency : ℕ = if not variation_high && not contradictions then 15 else 5 in
    let trend_consistency : ℕ =
      if is_stable_trend structured.trend_direction then 8 else if variation_high then 4 else 12 in
    let sustained_bonus : ℕ =
      if monotonic && not (is_stable_trend structured.trend_direction) then 6 else 0 in
    let contradiction_penalty : ℕ = if contradictions then 12 else 0 in
    let unexpected_penalty : ℕ = if structured.has_unexpected_expectations then 6 else 0 in
    let penalties = contradiction_penalty + unexpected_penalty in
    record {
      base = base;
      support = support;
      consistency = consistency;
      trend_consistency = trend_consistency;
      sustained_bonus = sustained_bonus;
      penalties = penalties;
      total =
          min 100 (base + support + consistency + trend_consistency + sustained_bonus - penalties);
    }

unfoldable pub score_assessment_confidence :
    (floats : Floats) → StructuredAssessment → List (Observation floats.Value) → ConfidenceBreakdown
unfolding is_monotonic_recent
score_assessment_confidence floats structured primary =
    score_of structured (length primary) (is_monotonic_recent floats primary)

-- The total is the sum of the parts less the penalties: the clamp to 0 and 100 never acts, and the
-- total lies between 26 and 92.
pub score_total_exact :
    (floats : Floats) (structured : StructuredAssessment)
    (primary : List (Observation floats.Value))
    → let c = score_assessment_confidence floats structured primary in
      (c.total + c.penalties
        ≡ c.base + c.support + c.consistency + c.trend_consistency + c.sustained_bonus)
      × (26 ≤ c.total)
      × (c.total ≤ 92)
unfolding score_assessment_confidence score_of
score_total_exact floats structured primary = ground arith
