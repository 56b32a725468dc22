-- ===== src/Guidance.antt =====
-- backend/app/application/recommendation_engine.py and notification_policy_engine.py over
-- domain/operational_state.py, recommendation.py and notification.py. `digest` is the first sixteen
-- digits of the SHA-256 of a text. The checks that the fields of a record are not empty are left out.
pub mod Severity
pub mod Condition
mod Tests
use odis.Prelude.{ℕ, String, Option, none, some, List, [], ◌∷◌}
use odis.Prelude.Text.{concat}

pub data HealthStatus : Type 0 where
  normal warning critical : HealthStatus

pub data RiskLevel : Type 0 where
  low_risk medium_risk high_risk : RiskLevel

pub record OperationalState : Type 0 where
  pub asset_id : String
  pub health_score : ℕ
  pub health_status : HealthStatus
  pub risk_level : RiskLevel
  pub confidence : ℕ
  pub primary_driver : String
  pub recommended_action : String
  pub last_updated : ℕ

pub data RecommendationCategory : Type 0 where
  mitigate investigate monitor : RecommendationCategory

pub data RecommendationPriority : Type 0 where
  p0 p1 p2 p3 : RecommendationPriority

pub data RecommendationUrgency : Type 0 where
  immediate soon scheduled : RecommendationUrgency

pub record Recommendation : Type 0 where
  pub id : String
  pub asset_id : String
  pub category : RecommendationCategory
  pub priority : RecommendationPriority
  pub urgency : RecommendationUrgency
  pub title : String
  pub description : String
  pub recommended_steps : List String
  pub estimated_impact : String
  pub created_at : ℕ

pub data NotificationSeverity : Type 0 where
  info_severity warning_severity critical_severity : NotificationSeverity

pub data NotificationStatus : Type 0 where
  open_status acknowledged_status resolved_status : NotificationStatus

pub record Notification : Type 0 where
  pub id : String
  pub asset_id : String
  pub recommendation_id : String
  pub severity : NotificationSeverity
  pub status : NotificationStatus
  pub title : String
  pub message : String
  pub created_at : ℕ

abbrev status_text : HealthStatus → String
status_text normal = "NORMAL"
status_text warning = "WARNING"
status_text critical = "CRITICAL"

-- The chain of `if` and `elif`.
unfoldable pub priority_of : HealthStatus → RiskLevel → RecommendationPriority
priority_of critical risk = p0
priority_of normal high_risk = p1
priority_of warning high_risk = p1
priority_of warning low_risk = p2
priority_of warning medium_risk = p2
priority_of normal medium_risk = p2
priority_of normal low_risk = p3

abbrev category_of : RecommendationPriority → RecommendationCategory
category_of p0 = mitigate
category_of p1 = investigate
category_of p2 = investigate
category_of p3 = monitor

abbrev urgency_of : RecommendationPriority → RecommendationUrgency
urgency_of p0 = immediate
urgency_of p1 = immediate
urgency_of p2 = soon
urgency_of p3 = scheduled

abbrev title_of : RecommendationPriority → String
title_of p0 = "Immediate mitigation required"
title_of p1 = "Elevated risk identified"
title_of p2 = "Investigation recommended"
title_of p3 = "Continue monitoring"

abbrev impact_of : RecommendationPriority → String
impact_of p0 = "Reduce likelihood of imminent outage and limit operational impact."
impact_of p1 =
    "Confirm whether elevated risk is an early warning sign before it progresses to a critical health reading."
impact_of p2 = "Prevent degradation from escalating into a user-visible incident."
impact_of p3 = "Maintain steady-state operations while tracking early signals."

abbrev sentence : String → String → String
sentence before text = concat before (concat text ".")

abbrev steps_of : OperationalState → RecommendationPriority → List String
steps_of s p0 =
    "Acknowledge the incident and page the on-call owner."
    ∷ sentence "Validate the primary driver: " s.primary_driver
    ∷ sentence "Execute the operational action: " s.recommended_action
    ∷ "Confirm recovery signals and document the outcome."
    ∷ []
steps_of s p1 =
    sentence "Investigate the primary driver: " s.primary_driver
    ∷ sentence "Apply the recommended action if corroborated: " s.recommended_action
    ∷ "Increase monitoring frequency until risk returns to normal."
    ∷ []
steps_of s p2 =
    sentence "Investigate the primary driver: " s.primary_driver
    ∷ "Review recent changes, deployments, and timeline events."
    ∷ sentence "Apply the recommended action if corroborated: " s.recommended_action
    ∷ "Increase monitoring frequency until stable."
    ∷ []
steps_of s p3 =
    "Continue monitoring key health indicators."
    ∷ sentence "Track the primary driver: " s.primary_driver
    ∷ "Validate alert thresholds and dashboards are up to date."
    ∷ []

abbrev driver_and_action : OperationalState → String → String
driver_and_action s action =
    concat (sentence " Primary driver: " s.primary_driver) (sentence action s.recommended_action)

abbrev description_of : OperationalState → RecommendationPriority → String
description_of s p0 =
    concat "Operational state indicates critical risk requiring immediate action."
      (driver_and_action s " Recommended action: ")
description_of s p1 =
    concat
      "Operational state indicates elevated risk ahead of a confirmed critical health reading (current health status: "
      (concat (status_text s.health_status)
        (concat ")." (driver_and_action s " Recommended action: ")))
description_of s p2 =
    concat "Operational state indicates a warning condition or medium risk."
      (driver_and_action s " Recommended action: ")
description_of s p3 =
    concat "Operational state indicates normal conditions with low risk."
      (driver_and_action s " Recommended action (if conditions change): ")

abbrev category_text : RecommendationCategory → String
category_text mitigate = "mitigate"
category_text investigate = "investigate"
category_text monitor = "monitor"

abbrev priority_text : RecommendationPriority → String
priority_text p0 = "P0"
priority_text p1 = "P1"
priority_text p2 = "P2"
priority_text p3 = "P3"

abbrev urgency_text : RecommendationUrgency → String
urgency_text immediate = "IMMEDIATE"
urgency_text soon = "SOON"
urgency_text scheduled = "SCHEDULED"

-- `"|".join((asset_id, category, priority, urgency, title))`
abbrev identity_key : String → RecommendationPriority → String
identity_key asset_id p = concat asset_id (
    concat "|" (
      concat (category_text (category_of p)) (
        concat "|" (
          concat (priority_text p)
            (concat "|" (concat (urgency_text (urgency_of p)) (concat "|" (title_of p))))))))

unfoldable pub recommend : (String → String) → OperationalState → Recommendation
unfolding priority_of
recommend digest s =
    let p = priority_of s.health_status s.risk_level in
    record {
      id = concat "rec-" (concat s.asset_id (concat "-" (digest (identity_key s.asset_id p))));
      asset_id = s.asset_id;
      category = category_of p;
      priority = p;
      urgency = urgency_of p;
      title = title_of p;
      description = description_of s p;
      recommended_steps = steps_of s p;
      estimated_impact = impact_of p;
      created_at = s.last_updated;
    }

abbrev severity_of : RecommendationPriority → Option NotificationSeverity
severity_of p0 = some critical_severity
severity_of p1 = some warning_severity
severity_of p2 = some warning_severity
severity_of p3 = none

unfoldable pub notify : Recommendation → Option Notification
notify r = elim (severity_of r.priority) [
  | none ↦ none
  | some severity ↦ some (record {
    id = concat "notif-" r.id;
    asset_id = r.asset_id;
    recommendation_id = r.id;
    severity = severity;
    status = open_status;
    title = r.title;
    message = r.description;
    created_at = r.created_at;
  })
]
