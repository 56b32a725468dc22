-- ===== src/Bridge/Service.antt =====
-- backend/app/application/reasoning_bridge/reasoning_bridge_service.py over the tables that it reads
-- and writes: infrastructure/repositories/ai_fault_evidence_repository.py, observation_repository.py
-- and timeline_repository.py. `uuid4` is the identifier that the call would mint, `now` the clock,
-- `id_before` the order of the database on identifiers. Outbox and timeline rows are kept without
-- their own random identifiers and metadata, and of a maximum score what is kept is whether it is between
-- 0 and 1. A raise before `uow.commit()` leaves the store as it was.
-- Times count seconds from an origin so far back that no window of corroboration begins before it.
pub mod Fetch
pub mod Totality
use odis.Bridge.Types.{
  AlertTransitionType, CorroborationOutcome, FaultRecommendation, not_applicable,
  InvestigationStatus,
}
use odis.Bridge.Lifecycle.{AiFaultEvidence, InvestigationDecision, is_clearing}
use odis.Bridge.Mapping.{FaultClassMapping, get_fault_class_mapping}
use odis.Bridge.Recommendation.{build_recommendation}
use odis.Bridge.Corroboration.{
  corroborate_cooling_degradation, corroborate_hydrogen_supply_issue, corroborate_sensor_anomaly,
}
use odis.Engine.Observation.{Floats, Observation}
use odis.Prelude.Text.{concat}
use odis.Prelude.Result.{Result, ok, err, raise_if, unsupported_fault_class, ◌>>=◌, value_error}
use odis.Prelude.{
  ℕ, ◌-◌, String, Bool, not, ◌&&◌, ◌||◌, Option, none, some, List, [], ◌∷◌, ◌==◌, ltb, leb, eqb,
  if◌then◌else◌, keep, take, any,
}

pub record ValidatedAlertTransition : Type 0 where
  pub event_id : String
  pub event_version : String
  pub asset_id : String
  pub source_timestamp : ℕ
  pub transition_type : AlertTransitionType
  pub from_state : String
  pub to_state : String
  pub fault_class : String
  pub diagnosed_class : String
  pub model_system_version : String
  pub model_hash : String
  pub policy_hash : String
  pub feature_schema_version : String
  pub maximum_score_in_range : Bool

pub record TimelineEvent : Type 0 where
  pub asset_id : String
  pub timestamp : ℕ
  pub event_type : String
  pub title : String
  pub description : String

-- `TimelineEvent.__post_init__`, but for the random identifier.
abbrev pub is_untold : TimelineEvent → Bool
is_untold t = (t.asset_id == "") || (t.title == "") || (t.description == "")

-- The constructors of the entries one behind another
unfoldable pub check_timeline : List TimelineEvent → Result (Unit {0})
check_timeline entries = raise_if (any is_untold entries) value_error

-- The payload of an `AiFaultInvestigationUpdated` row of the outbox.
pub record OutboxEvent : Type 0 where
  pub asset_id : String
  pub investigation_id : String
  pub diagnosed_fault_class : String
  pub investigation_status : InvestigationStatus
  pub alert_transition_type : AlertTransitionType
  pub created_at : ℕ

pub record Store (Value : Type 0) : Type 0 where
  pub evidence : List AiFaultEvidence
  pub timeline : List TimelineEvent
  pub outbox : List OutboxEvent
  pub observations : List (Observation Value)

pub record ProcessingOutcome : Type 0 where
  pub evidence : AiFaultEvidence
  pub is_duplicate : Bool
  pub is_new_investigation : Bool

abbrev pub corroboration_window_seconds : ℕ
corroboration_window_seconds = 900

abbrev pub corroboration_sample_limit : ℕ
corroboration_sample_limit = 20

-- `SqlAlchemyAiFaultEvidenceRepository.get`
unfoldable pub get_evidence : String → List AiFaultEvidence → Option AiFaultEvidence
get_evidence id [] = none
get_evidence id (e ∷ es) = if e.id == id then some e else get_evidence id es

module _ (id_before : String → String → Bool) where
  -- The order of `(observed_at, id)`.
  abbrev pub precedes : ℕ → String → ℕ → String → Bool
  precedes at id at' id' = ltb at at' || (eqb at at' && id_before id id')

  abbrev pub latest_of : AiFaultEvidence → Option AiFaultEvidence → AiFaultEvidence
  latest_of e none = e
  latest_of e (some f) = if precedes e.observed_at e.id f.observed_at f.id then f else e

  unfoldable pub get_latest_for_asset : String → List AiFaultEvidence → Option AiFaultEvidence
  get_latest_for_asset asset_id [] = none
  get_latest_for_asset asset_id (e ∷ es) =
      let rest = get_latest_for_asset asset_id es in
      if e.asset_id == asset_id then some (latest_of e rest) else rest

  module _ {Value : Type 0} where
    abbrev pub insert_observation :
        Observation Value → List (Observation Value) → List (Observation Value)
    insert_observation o [] = o ∷ []
    insert_observation o (p ∷ ps) =
        let rest = insert_observation o ps in
        if precedes p.timestamp p.id o.timestamp o.id then p ∷ rest else o ∷ p ∷ ps

    abbrev pub order_observations : List (Observation Value) → List (Observation Value)
    order_observations [] = []
    order_observations (o ∷ os) = insert_observation o (order_observations os)

    abbrev pub is_selected : String → ℕ → ℕ → String → Observation Value → Bool
    is_selected asset_id start end measurement_type o =
        (o.asset_id == asset_id)
        && (leb start o.timestamp
            && (leb o.timestamp end && (o.measurement_type == measurement_type)))

    -- `list_by_asset_in_time_range` with `newest_first=False`
    unfoldable pub list_by_asset_in_time_range :
        String → ℕ → ℕ → String → ℕ → List (Observation Value) → List (Observation Value)
    list_by_asset_in_time_range asset_id start end measurement_type limit observations =
        take limit
          (order_observations (keep (is_selected asset_id start end measurement_type) observations))

module _ (floats : Floats) (id_before : String → String → Bool) where
  open floats use {Value}

  unfoldable pub corroborate :
      List (Observation Value)
      → ValidatedAlertTransition
      → FaultClassMapping
      → Result CorroborationOutcome
  corroborate observations event mapping =
      let end = event.source_timestamp in
      let start = end - corroboration_window_seconds in
      let fetch = λ (measurement_type : String).
        list_by_asset_in_time_range id_before event.asset_id start end measurement_type
          corroboration_sample_limit observations in
      if mapping.fault_class == "cooling_degradation"
      then corroborate_cooling_degradation floats (fetch "stack_temperature") (fetch "coolant_flow")
      else if mapping.fault_class == "hydrogen_supply_issue"
      then corroborate_hydrogen_supply_issue floats (fetch "fuel_flow") (fetch "voltage")
      else if mapping.fault_class == "sensor_anomaly"
      then corroborate_sensor_anomaly floats (fetch "stack_temperature") (fetch "current")
          (fetch "voltage") (fetch "fuel_flow")
      else err (unsupported_fault_class mapping.fault_class)

  abbrev pub not_run : CorroborationOutcome
  not_run = record {
    result = not_applicable;
    rule_ids = [];
    notes = "Alert cleared; clearing does not diagnose a fault, so no corroboration is run.";
    supporting_observation_ids = [];
  }

  -- The corroboration and the recommendation of an event under a decision.
  unfoldable pub assess_transition :
      List (Observation Value)
      → ValidatedAlertTransition
      → InvestigationDecision
      → Result (CorroborationOutcome × Option FaultRecommendation)
  unfolding corroborate get_fault_class_mapping build_recommendation
  assess_transition observations event decision =
      if is_clearing event.transition_type then ok (not_run, none) else (do
        mapping ← get_fault_class_mapping event.fault_class
        corroboration ← corroborate observations event mapping
        recommendation ←
            build_recommendation
              (concat "ai-fault-rec-"
                (concat decision.investigation_id (concat "-" event.event_id)))
              mapping event.transition_type corroboration
        ok (corroboration, some recommendation))

abbrev pub evidence_of :
    ValidatedAlertTransition
    → InvestigationDecision
    → CorroborationOutcome
    → Option FaultRecommendation
    → AiFaultEvidence
evidence_of event decision corroboration recommendation = record {
  id = event.event_id;
  source_event_id = event.event_id;
  asset_id = event.asset_id;
  observed_at = event.source_timestamp;
  alert_transition_type = event.transition_type;
  diagnosed_fault_class = event.fault_class;
  from_state = event.from_state;
  to_state = event.to_state;
  model_system_version = event.model_system_version;
  model_hash = event.model_hash;
  policy_hash = event.policy_hash;
  feature_schema_version = event.feature_schema_version;
  maximum_score_in_range = event.maximum_score_in_range;
  investigation_id = decision.investigation_id;
  investigation_status = decision.investigation_status;
  previous_diagnosed_fault_class = decision.previous_diagnosed_fault_class;
  corroboration_result = corroboration.result;
  corroboration_rule_ids = corroboration.rule_ids;
  corroboration_notes = corroboration.notes;
  recommendation = recommendation;
}

-- `AiFaultEvidence.__post_init__`, of the fields that its types do not decide.
unfoldable pub check_evidence : AiFaultEvidence → Result (Unit {0})
check_evidence e =
    raise_if
      ((e.id == "")
        || (e.source_event_id == "")
        || (e.asset_id == "")
        || (e.diagnosed_fault_class == "")
        || (e.model_system_version == "")
        || (e.model_hash == "")
        || (e.policy_hash == "")
        || (e.feature_schema_version == "")
        || not e.maximum_score_in_range
        || (e.investigation_id == ""))
      value_error
