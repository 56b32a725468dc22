-- ===== src/Bridge/Process.antt =====
-- `ReasoningBridgeService.process_alert_transition` and `_write_timeline_entries` of
-- backend/app/application/reasoning_bridge/reasoning_bridge_service.py. `has_event_bus` says whether
-- the service was built with an event bus, and `dispatched` is what the outbox dispatcher's
-- `dispatch` returns behind the commit.
pub mod Latest
pub mod Replay
pub mod Occurrence
pub mod Totality
use odis.Bridge.Types.{
  AlertTransitionType, CorroborationOutcome, FaultRecommendation, corroborated,
  partially_corroborated, not_corroborated, insufficient_evidence, not_applicable, confirmed,
  class_changed, cleared, produced, withheld, FaultRecommendationStatus, CorroborationResult,
}
use odis.Bridge.Lifecycle.{
  AiFaultEvidence, InvestigationDecision, decide_investigation, is_clearing,
}
use odis.Bridge.Mapping.{is_supported_fault_class}
use odis.Bridge.Service.{
  ValidatedAlertTransition, TimelineEvent, OutboxEvent, Store, ProcessingOutcome, get_evidence,
  get_latest_for_asset, assess_transition, evidence_of, check_evidence, check_timeline,
}
use odis.Engine.Observation.{Floats}
use odis.Prelude.Text.{concat}
use odis.Prelude.Result.{Result, ok, err, unsupported_fault_class, ◌>>=◌, ◌>>◌}
use odis.Prelude.{
  ℕ, String, Bool, true, false, not, Option, none, some, List, [], ◌∷◌, ◌++◌, ◌==◌, if◌then◌else◌,
}

abbrev pub transition_text : AlertTransitionType → String
transition_text confirmed = "confirmed"
transition_text class_changed = "class_changed"
transition_text cleared = "cleared"

abbrev result_text : CorroborationResult → String
result_text corroborated = "corroborated"
result_text partially_corroborated = "partially_corroborated"
result_text not_corroborated = "not_corroborated"
result_text insufficient_evidence = "insufficient_evidence"
result_text not_applicable = "not_applicable"

abbrev pub status_text : FaultRecommendationStatus → String
status_text produced = "produced"
status_text withheld = "withheld"

abbrev pub entry : ValidatedAlertTransition → ℕ → String → String → String → TimelineEvent
entry event timestamp event_type title description = record {
  asset_id = event.asset_id;
  timestamp = timestamp;
  event_type = event_type;
  title = title;
  description = description;
}

abbrev received_entry : ValidatedAlertTransition → TimelineEvent
received_entry event =
    entry event event.source_timestamp "ai_fault_alert_received"
      (concat "AI fault alert received: " event.fault_class)
      (concat (transition_text event.transition_type) (
        concat " alert for "
          (concat event.fault_class (concat " (source event " (concat event.event_id ").")))))

abbrev previously : Option String → String
previously none = "."
previously (some previous) =
    if previous == "" then "." else concat " (previously " (concat previous ").")

abbrev pub recommendation_entries :
    ℕ → ValidatedAlertTransition → Option FaultRecommendation → List TimelineEvent
recommendation_entries now event none = []
recommendation_entries now event (some r) =
    entry event now "ai_fault_recommendation_recorded"
      (concat "Recommendation " (status_text r.status)) r.action_summary
    ∷ []

unfoldable pub timeline_entries :
    ℕ
    → ValidatedAlertTransition
    → InvestigationDecision
    → CorroborationOutcome
    → Option FaultRecommendation
    → List TimelineEvent
timeline_entries now event decision corroboration recommendation =
    received_entry event
    ∷ (if is_clearing event.transition_type
        then entry event now "ai_fault_alert_cleared" "AI fault alert cleared" (
            concat event.fault_class (
              concat " alert cleared; investigation "
                (concat decision.investigation_id " marked resolved.")))
          ∷ []
        else entry event now "ai_fault_corroboration_completed"
            (concat "Deterministic corroboration: " (result_text corroboration.result))
            corroboration.notes
          ∷ entry event now "ai_fault_investigation_updated"
              (if decision.is_new_investigation
                then "AI fault investigation opened"
                else "AI fault investigation updated")
              (concat "Investigation " (
                concat decision.investigation_id (
                  concat " now concerns " (
                    concat event.fault_class
                      (previously decision.previous_diagnosed_fault_class)))))
          ∷ recommendation_entries now event recommendation)

abbrev outbox_entries : Bool → ℕ → AiFaultEvidence → List OutboxEvent
outbox_entries false now e = []
outbox_entries true now e =
    record {
      asset_id = e.asset_id;
      investigation_id = e.investigation_id;
      diagnosed_fault_class = e.diagnosed_fault_class;
      investigation_status = e.investigation_status;
      alert_transition_type = e.alert_transition_type;
      created_at = now;
    }
    ∷ []

abbrev pub fresh_outcome : AiFaultEvidence → InvestigationDecision → ProcessingOutcome
fresh_outcome e decision = record {
  evidence = e;
  is_duplicate = false;
  is_new_investigation = decision.is_new_investigation;
}

abbrev pub duplicate_outcome : AiFaultEvidence → ProcessingOutcome
duplicate_outcome e = record { evidence = e; is_duplicate = true; is_new_investigation = false }

module _ (floats : Floats) (id_before : String → String → Bool) where
  open floats use {Value}

  abbrev pub decision_for : String → ValidatedAlertTransition → Store Value → InvestigationDecision
  decision_for uuid4 event store =
      decide_investigation uuid4 event.transition_type event.fault_class
        (get_latest_for_asset id_before event.asset_id store.evidence)

  -- What one event adds to the store before the commit.
  unfoldable pub record_transition :
      String
      → ℕ
      → Bool
      → ValidatedAlertTransition
      → Store Value
      → Result (Store Value × AiFaultEvidence)
  unfolding assess_transition check_evidence check_timeline timeline_entries
  record_transition uuid4 now has_event_bus event store = do
    let decision = decision_for uuid4 event store
    (corroboration, recommendation) ←
        assess_transition floats id_before store.observations event decision
    let evidence = evidence_of event decision corroboration recommendation
    check_evidence evidence
    let entries = timeline_entries now event decision corroboration recommendation
    check_timeline entries
    ok (
      record {
        evidence = store.evidence ++ (evidence ∷ []);
        timeline = store.timeline ++ entries;
        outbox = store.outbox ++ outbox_entries has_event_bus now evidence;
        observations = store.observations;
      },
      evidence,
    )

  -- The commit and the dispatch behind it; a raise before the commit rolls back.
  abbrev pub commit :
      Bool
      → Result (Unit {0})
      → InvestigationDecision
      → Store Value
      → Result (Store Value × AiFaultEvidence)
      → Store Value × Result ProcessingOutcome
  commit has_event_bus dispatched decision store (err e) = (store, err e)
  commit has_event_bus dispatched decision store (ok (store', evidence)) = (
    store',
    (if has_event_bus then dispatched else ok tt) >> ok (fresh_outcome evidence decision),
  )

  -- The test for a row of the event, which is the bridge's idempotency check.
  abbrev pub unless_recorded :
      Option AiFaultEvidence
      → Store Value
      → Store Value × Result ProcessingOutcome
      → Store Value × Result ProcessingOutcome
  unless_recorded (some existing) store r = (store, ok (duplicate_outcome existing))
  unless_recorded none store r = r

  unfoldable pub process_alert_transition :
      String
      → ℕ
      → Bool
      → Result (Unit {0})
      → ValidatedAlertTransition
      → Store Value
      → Store Value × Result ProcessingOutcome
  unfolding record_transition get_evidence is_supported_fault_class get_latest_for_asset
      decide_investigation
  process_alert_transition uuid4 now has_event_bus dispatched event store =
      if not (is_supported_fault_class event.fault_class)
      then (store, err (unsupported_fault_class event.fault_class))
      else unless_recorded (get_evidence event.event_id store.evidence) store (
          commit has_event_bus dispatched (decision_for uuid4 event store) store
            (record_transition uuid4 now has_event_bus event store))
