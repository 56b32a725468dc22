-- ===== src/Guidance/Tests.antt =====
-- Recommendations and notifications at concrete states.
use odis.Guidance.{
  OperationalState, recommend, notify, normal, critical, warning, low_risk, high_risk,
  critical_severity,
}
use odis.Guidance.Severity.{severity_for, notify-recommend, recommend-id}
use odis.Prelude.{ℕ, String, ◌≡◌, refl, ◌↔◌, none, some, ◌+◌, ◌≤◌, ◌<◌, ◌≢◌, true, false}
use odis.Guidance.Condition.{
  operational_state, Explained, rising, penalty, steadiness_bonus, operational_state-lem,
}
use odis.Engine.Planner.{high_priority, medium_priority}

abbrev hot : ℕ → String → OperationalState
hot at driver = record {
  asset_id = "stack-1";
  health_score = 80;
  health_status = warning;
  risk_level = high_risk;
  confidence = 70;
  primary_driver = driver;
  recommended_action = "Inspect";
  last_updated = at;
}

notify-recommend_example :
    ((severity_for (λ s. s) (hot 5 "cooling") ≡ some critical_severity) ↔ (warning ≡ critical))
    × ((notify (recommend (λ s. s) (hot 5 "cooling")) ≡ none)
        ↔ ((warning ≡ normal) × (high_risk ≡ low_risk)))
notify-recommend_example = notify-recommend (λ s. s) (hot 5 "cooling")

recommend-id_example :
    ((recommend (λ s. s) (hot 5 "cooling")).id ≡ (recommend (λ s. s) (hot 9 "pressure")).id)
    × ((recommend (λ s. s) (hot 5 "cooling")).priority
        ≡ (recommend (λ s. s) (hot 9 "pressure")).priority)
recommend-id_example = recommend-id (λ s. s) (hot 5 "cooling") (hot 9 "pressure") refl refl refl

abbrev worn : Explained
worn = record {
  direction = rising;
  stability_score = 80;
  volatility_score = 20;
  summary = "rising";
  confidence_value = 71;
  has_contradictions = true;
  has_unexpected_expectations = false;
}

operational_state-lem_example :
    let s = operational_state "stack-1" 5 high_priority "Inspect" worn in
    (s.health_score + penalty high_priority worn ≡ 100 + steadiness_bonus worn)
    × (5 ≤ s.health_score)
    × (s.health_score ≤ 95)
    × ((s.health_status ≡ normal) ↔ (75 ≤ s.health_score))
    × ((s.health_status ≡ critical) ↔ (s.health_score < 45))
    × ((s.risk_level ≡ low_risk) ↔ (
        (s.health_status ≡ normal)
        × (high_priority ≢ high_priority)
        × (high_priority ≢ medium_priority)))
operational_state-lem_example = operational_state-lem "stack-1" 5 high_priority "Inspect" worn
