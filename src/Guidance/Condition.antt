-- ===== src/Guidance/Condition.antt =====
-- backend/app/application/operational_state_engine.py, from the explainable decision, which is an
-- input: of its trend the direction, the scores and the summary, and its confidence. A penalty below
-- zero is a bonus, and the clamp to 0 is the subtraction of ℕ.
use odis.Engine.Planner.{Priority, low_priority, medium_priority, high_priority, critical_priority}
use odis.Guidance.{
  OperationalState, HealthStatus, RiskLevel, normal, warning, critical, low_risk, medium_risk,
  high_risk,
}
use odis.Prelude.{
  ℕ, ◌+◌, ◌-◌, ◌≤◌, ◌<◌, min, String, ◌≡◌, ◌≢◌, ◌↔◌, Bool, true, false, not, ◌&&◌, arith, leb,
  if◌then◌else◌,
}
use odis.Prelude.Text.{concat}

pub data TrendText : Type 0 where
  rising falling stable_text : TrendText

pub record Explained : Type 0 where
  pub direction : TrendText
  pub stability_score : ℕ
  pub volatility_score : ℕ
  pub summary : String
  pub confidence_value : ℕ
  pub has_contradictions : Bool
  pub has_unexpected_expectations : Bool

abbrev pub priority_penalty : Priority → ℕ
priority_penalty high_priority = 45
priority_penalty medium_priority = 25
priority_penalty low_priority = 10
priority_penalty critical_priority = 20

abbrev is_stable_text : TrendText → Bool
is_stable_text stable_text = true
is_stable_text _ = false

abbrev pub is_sustained : Explained → Bool
is_sustained x = not (is_stable_text x.direction) && leb 65 x.stability_score

abbrev pub penalty : Priority → Explained → ℕ
penalty p x =
    priority_penalty p
    + (if is_sustained x then 15 else 0)
    + (if leb 60 x.volatility_score then 10 else 0)
    + (if x.has_contradictions then 15 else 0)
    + (if x.has_unexpected_expectations then 10 else 0)

abbrev pub steadiness_bonus : Explained → ℕ
steadiness_bonus x = if is_stable_text x.direction && leb 75 x.stability_score then 5 else 0

unfoldable pub health_score_of : Priority → Explained → ℕ
health_score_of p x = min 100 ((100 + steadiness_bonus x) - penalty p x)

unfoldable pub health_status_of : ℕ → HealthStatus
health_status_of score = if leb 75 score then normal else if leb 45 score then warning else critical

unfoldable pub risk_level_of : Priority → HealthStatus → RiskLevel
risk_level_of high_priority status = high_risk
risk_level_of p critical = high_risk
risk_level_of medium_priority status = medium_risk
risk_level_of p warning = medium_risk
risk_level_of p normal = low_risk

-- `Priority.value`
abbrev priority_value : Priority → String
priority_value low_priority = "low"
priority_value medium_priority = "medium"
priority_value high_priority = "high"
priority_value critical_priority = "critical"

abbrev driver_of : Priority → Explained → String
driver_of p x =
    if x.has_contradictions
    then "Contradictory signals detected in structured assessment."
    else if x.has_unexpected_expectations
    then "Unexpected expectation signals detected in assessment."
    else if is_sustained x
    then concat "Trend: " x.summary
    else concat "Decision priority: " (priority_value p)

unfoldable pub operational_state : String → ℕ → Priority → String → Explained → OperationalState
unfolding health_score_of health_status_of risk_level_of
operational_state asset_id last_updated p recommendation x =
    let score = health_score_of p x in
    let status = health_status_of score in
    record {
      asset_id = asset_id;
      health_score = score;
      health_status = status;
      risk_level = risk_level_of p status;
      confidence = min 100 x.confidence_value;
      primary_driver = driver_of p x;
      recommended_action = recommendation;
      last_updated = last_updated;
    }

penalty-bounds :
    (p : Priority) (x : Explained)
    → (5 + steadiness_bonus x ≤ penalty p x) × (penalty p x ≤ 95 + steadiness_bonus x)
penalty-bounds p x = ground arith

status-lem :
    (score : ℕ)
    → ((health_status_of score ≡ normal) ↔ (75 ≤ score))
      × ((health_status_of score ≡ critical) ↔ (score < 45))
unfolding health_status_of
status-lem score = ground arith

risk-lem :
    (p : Priority) (status : HealthStatus)
    → (risk_level_of p status ≡ low_risk)
      ↔ ((status ≡ normal) × (p ≢ high_priority) × (p ≢ medium_priority))
unfolding risk_level_of
risk-lem p status = ground arith

-- The clamps of the health score never act: with its penalties and its bonus it makes up 100, and it
-- lies between 5 and 95. Health is NORMAL exactly from 75 on and CRITICAL exactly below 45, and the
-- risk is LOW exactly where health is NORMAL and the decision is neither high nor medium.
pub operational_state-lem :
    (asset : String) (at : ℕ) (p : Priority) (action : String) (x : Explained)
    → let s = operational_state asset at p action x in
      (s.health_score + penalty p x ≡ 100 + steadiness_bonus x)
      × (5 ≤ s.health_score)
      × (s.health_score ≤ 95)
      × ((s.health_status ≡ normal) ↔ (75 ≤ s.health_score))
      × ((s.health_status ≡ critical) ↔ (s.health_score < 45))
      × ((s.risk_level ≡ low_risk)
          ↔ ((s.health_status ≡ normal) × (p ≢ high_priority) × (p ≢ medium_priority)))
unfolding operational_state
operational_state-lem asset at p action x =
    let (small, large) = penalty-bounds p x in
    let (healthy, sick) = status-lem (health_score_of p x) in
    (
      omega (arith, small, large),
      omega (arith, small, large),
      omega (arith, small, large),
      healthy,
      sick,
      risk-lem p (health_status_of (health_score_of p x)),
    )
