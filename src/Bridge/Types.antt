-- ===== src/Bridge/Types.antt =====
-- backend/app/domain/ai_fault_evidence.py: the words of the reasoning bridge's records.
use odis.Prelude.{String, List}

pub data AlertTransitionType : Type 0 where
  confirmed class_changed cleared : AlertTransitionType

pub data CorroborationResult : Type 0 where
  corroborated partially_corroborated not_corroborated insufficient_evidence not_applicable :
      CorroborationResult

pub data InvestigationStatus : Type 0 where
  investigation_open investigation_cleared : InvestigationStatus

pub data FaultRecommendationStatus : Type 0 where
  produced withheld : FaultRecommendationStatus

pub data FaultRecommendationCategory : Type 0 where
  investigate monitor : FaultRecommendationCategory

pub data FaultUrgency : Type 0 where
  informational inspection_required elevated urgent : FaultUrgency

pub record CorroborationOutcome : Type 0 where
  pub result : CorroborationResult
  pub rule_ids : List String
  pub notes : String
  pub supporting_observation_ids : List String

pub record FaultRecommendation : Type 0 where
  pub id : String
  pub status : FaultRecommendationStatus
  pub category : FaultRecommendationCategory
  pub urgency : FaultUrgency
  pub action_summary : String
  pub reason : String
  pub supporting_rule_ids : List String
  pub supporting_observation_ids : List String
  pub recommended_steps : List String
  pub limitations : String
