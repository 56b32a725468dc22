-- ===== src/Bridge/Lifecycle.antt =====
-- backend/app/application/reasoning_bridge/investigation_lifecycle.py, over the evidence record of
-- domain/ai_fault_evidence.py. `uuid4` hands out the next identifier of a supply that no two calls
-- share: the caller passes the one it will use.
use odis.Bridge.Types.{
  AlertTransitionType, FaultRecommendation, CorroborationResult, InvestigationStatus,
  investigation_open, investigation_cleared, cleared,
}
use odis.Prelude.{ℕ, String, Bool, true, false, not, Option, none, some, List, ◌==◌, if◌then◌else◌}

-- Class scores, evidence items and the moment of recording are not read by the bridge.
pub record AiFaultEvidence : Type 0 where
  pub id : String
  pub source_event_id : String
  pub asset_id : String
  pub observed_at : ℕ
  pub alert_transition_type : AlertTransitionType
  pub diagnosed_fault_class : String
  pub from_state : String
  pub to_state : String
  pub model_system_version : String
  pub model_hash : String
  pub policy_hash : String
  pub feature_schema_version : String
  pub maximum_score_in_range : Bool
  pub investigation_id : String
  pub investigation_status : InvestigationStatus
  pub previous_diagnosed_fault_class : Option String
  pub corroboration_result : CorroborationResult
  pub corroboration_rule_ids : List String
  pub corroboration_notes : String
  pub recommendation : Option FaultRecommendation

pub record InvestigationDecision : Type 0 where
  pub investigation_id : String
  pub investigation_status : InvestigationStatus
  pub previous_diagnosed_fault_class : Option String
  pub is_new_investigation : Bool

abbrev pub is_open : InvestigationStatus → Bool
is_open investigation_open = true
is_open investigation_cleared = false

abbrev pub is_clearing : AlertTransitionType → Bool
is_clearing cleared = true
is_clearing _ = false

-- `active` where its investigation is open
abbrev pub active_open : Option AiFaultEvidence → Option AiFaultEvidence
active_open none = none
active_open (some e) = if is_open e.investigation_status then some e else none

unfoldable pub decide_investigation :
    String → AlertTransitionType → String → Option AiFaultEvidence → InvestigationDecision
decide_investigation uuid4 transition_type fault_class active =
    if is_clearing transition_type
    then elim (active_open active) [
      | some e ↦ record {
        investigation_id = e.investigation_id;
        investigation_status = investigation_cleared;
        previous_diagnosed_fault_class = some e.diagnosed_fault_class;
        is_new_investigation = false;
      }
      | none ↦ record {
        investigation_id = uuid4;
        investigation_status = investigation_cleared;
        previous_diagnosed_fault_class = none;
        is_new_investigation = true;
      }
    ]
    else elim (active_open active) [
      | some e ↦ record {
        investigation_id = e.investigation_id;
        investigation_status = investigation_open;
        previous_diagnosed_fault_class =
            if not (e.diagnosed_fault_class == fault_class)
            then some e.diagnosed_fault_class
            else none;
        is_new_investigation = false;
      }
      | none ↦ record {
        investigation_id = uuid4;
        investigation_status = investigation_open;
        previous_diagnosed_fault_class = none;
        is_new_investigation = true;
      }
    ]
