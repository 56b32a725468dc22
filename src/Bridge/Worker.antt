-- ===== src/Bridge/Worker.antt =====
-- backend/app/application/reasoning_bridge/worker.py, `_handle_message`, and output_events.py. A
-- message is the decoded value, or none where `json.loads` fails. `uuid5` names a text in the
-- bridge's namespace. The topic is the list of the results that the broker has taken; metrics and
-- logs are left out. The answer says whether the caller commits the offset.
use mathlib.Core.Path.{subst}
use mathlib.Core.Option.{map as option_map}
use odis.Bridge.Types.{
  CorroborationResult, FaultRecommendationStatus, FaultUrgency, FaultRecommendation,
}
use odis.Bridge.Lifecycle.{AiFaultEvidence}
use odis.Bridge.Service.{Store, ProcessingOutcome, ValidatedAlertTransition, get_evidence}
use odis.Bridge.Process.{process_alert_transition}
use odis.Bridge.Input.{
  JsonValues, Json, Fields, object, validate_alert_transition, validate_decoded,
}
use odis.Bridge.Publish.{publish_with_retry, publish_with_retry_iff}
use odis.Engine.Observation.{Floats}
use odis.Prelude.Text.{concat}
use odis.Prelude.Result.{
  missing_field, unsupported_event_version, unsupported_transition_type, malformed_timestamp,
  malformed_scores, healthy_class_rejected, malformed_state, Result, ok, err, Error, missing_field,
  unsupported_fault_class,
}
use odis.Prelude.{
  ℕ, String, Bool, true, false, Option, none, some, List, [], ◌∷◌, ◌++◌, if◌then◌else◌, ◌≤◌, ◌≡◌,
  refl, ◌↔◌, ◌⊎◌, sym, ap, ◌∙◌, inl, inr, Bool-cases,
}
use odis.Bridge.Process.Replay.{processed}

pub record FaultReasoningResultEvent : Type 0 where
  pub event_id : String
  pub event_version : String
  pub occurred_at : ℕ
  pub source_alert_event_id : String
  pub asset_id : String
  pub diagnosed_class : String
  pub corroboration_result : CorroborationResult
  pub investigation_id : String
  pub operational_situation_id : Option String
  pub recommendation_status : Option FaultRecommendationStatus
  pub recommendation_action_summary : Option String
  pub urgency : Option FaultUrgency
  pub supporting_rule_ids : List String
  pub supporting_observation_ids : List String
  pub model_system_version : String
  pub model_hash : String
  pub reasoning_rule_version : String

abbrev deterministic_event_id : (String → String) → AiFaultEvidence → String
deterministic_event_id uuid5 e =
    uuid5 (
      concat "fault_reasoning_result.v1|"
        (concat e.source_event_id (concat "|" e.investigation_id)))

abbrev rule_ids_of : Option FaultRecommendation → List String
rule_ids_of none = []
rule_ids_of (some r) = r.supporting_rule_ids

abbrev observation_ids_of : Option FaultRecommendation → List String
observation_ids_of none = []
observation_ids_of (some r) = r.supporting_observation_ids

unfoldable pub build_reasoning_result_event :
    (String → String) → ℕ → AiFaultEvidence → FaultReasoningResultEvent
build_reasoning_result_event uuid5 now e = record {
  event_id = deterministic_event_id uuid5 e;
  event_version = "v1";
  occurred_at = now;
  source_alert_event_id = e.source_event_id;
  asset_id = e.asset_id;
  diagnosed_class = e.diagnosed_fault_class;
  corroboration_result = e.corroboration_result;
  investigation_id = e.investigation_id;
  operational_situation_id = none;
  recommendation_status = option_map (λ (r : FaultRecommendation). r.status) e.recommendation;
  recommendation_action_summary =
      option_map (λ (r : FaultRecommendation). r.action_summary) e.recommendation;
  urgency = option_map (λ (r : FaultRecommendation). r.urgency) e.recommendation;
  supporting_rule_ids = rule_ids_of e.recommendation;
  supporting_observation_ids = observation_ids_of e.recommendation;
  model_system_version = e.model_system_version;
  model_hash = e.model_hash;
  reasoning_rule_version = "1.0";
}

-- The subclasses of `AlertTransitionValidationError`.
abbrev is_validation_error : Error → Bool
is_validation_error (missing_field _) = true
is_validation_error unsupported_event_version = true
is_validation_error unsupported_transition_type = true
is_validation_error malformed_timestamp = true
is_validation_error malformed_scores = true
is_validation_error healthy_class_rejected = true
is_validation_error malformed_state = true
is_validation_error _ = false

abbrev is_unsupported : Error → Bool
is_unsupported (unsupported_fault_class _) = true
is_unsupported _ = false

abbrev pub Topic : Type 0
Topic = List FaultReasoningResultEvent

module _ (floats : Floats) (id_before : String → String → Bool) (values : JsonValues)
    (uuid5 : String → String) (max_retries : ℕ) where
  open floats use {Value}
  open values use {Number}

  -- What follows the call of the service.
  abbrev pub deliver :
      ℕ
      → (ℕ → Bool)
      → Topic
      → Store Value × Result ProcessingOutcome
      → Store Value × Topic × Result Bool
  deliver now attempts topic (store, err e) = (store, topic, ok (is_unsupported e))
  deliver now attempts topic (store, ok outcome) =
      if outcome.is_duplicate
      then (store, topic, ok true)
      else if publish_with_retry max_retries attempts
      then (store, topic ++ (build_reasoning_result_event uuid5 now outcome.evidence ∷ []), ok true)
      else (store, topic, ok false)

  unfoldable pub handle_message :
      String
      → ℕ
      → Bool
      → Result (Unit {0})
      → (ℕ → Bool)
      → Option (Json Number)
      → Store Value
      → Topic
      → Store Value × Topic × Result Bool
  unfolding process_alert_transition validate_alert_transition publish_with_retry
      build_reasoning_result_event
  handle_message uuid4 now bus dispatched attempts none store topic = (store, topic, ok true)
  handle_message uuid4 now bus dispatched attempts (some raw) store topic =
      elim (validate_decoded values raw) [
        | err e ↦ (store, topic, if is_validation_error e then ok true else err e)
        | ok event ↦
            deliver now attempts topic
              (process_alert_transition floats id_before uuid4 now bus dispatched event store)
      ]

  -- The offset is committed exactly where one of the sends succeeds; the result of the evidence is
  -- then at the end of the topic, which otherwise is as it was.
  abbrev pub Delivered :
      ℕ
      → (ℕ → Bool)
      → Topic
      → Store Value
      → AiFaultEvidence
      → Store Value × Topic × Result Bool
      → Type 0
  Delivered now attempts topic store' e r =
      (r.0 ≡ store')
      × ((r.2 ≡ ok true) ↔ ((i : ℕ) × (i ≤ max_retries) × (attempts i ≡ true)))
      × (((r.2 ≡ ok true) × (r.1 ≡ topic ++ (build_reasoning_result_event uuid5 now e ∷ [])))
          ⊎ ((r.2 ≡ ok false) × (r.1 ≡ topic)))

  deliver-new :
      (now : ℕ) (attempts : ℕ → Bool) (topic : Topic) (store' : Store Value) (o : ProcessingOutcome)
      → o.is_duplicate ≡ false
      → Delivered now attempts topic store' o.evidence (deliver now attempts topic (store', ok o))
  deliver-new now attempts topic store' o new =
      let (there, back) = publish_with_retry_iff max_retries attempts in
      elim (Bool-cases (publish_with_retry max_retries attempts)) [
        | inl e ↦ rw (new, e) (refl, (λ _. there e, λ _. refl), inl (refl, refl))
        | inr e ↦
            rw (new, e)
              (
                refl,
                (λ (x : ok false ≡ ok true). cc, λ sent. ap ok (sym e ∙ back sent)),
                inr (refl, refl),
              )
      ]

  -- Of a message that validates and whose event is new and was processed: the delivery commits the
  -- offset exactly where one of the first `max_retries + 1` sends succeeds. The result of the
  -- evidence stands at the end of the topic then, and otherwise the topic is as it was.
  pub handle_message-new :
      (uuid4 : String) (now : ℕ) (bus : Bool) (dispatched : Result (Unit {0})) (attempts : ℕ → Bool)
      (raw : Fields Number) (event : ValidatedAlertTransition) (store store' : Store Value)
      (o : ProcessingOutcome) (topic : Topic)
      → validate_alert_transition values raw ≡ ok event
      → process_alert_transition floats id_before uuid4 now bus dispatched event store
        ≡ (store', ok o)
      → get_evidence event.event_id store.evidence ≡ none
      → Delivered now attempts topic store' o.evidence
          (handle_message uuid4 now bus dispatched attempts (some (object raw)) store topic)
  unfolding handle_message
  handle_message-new uuid4 now bus dispatched attempts raw event store store' o topic valid h
        absent =
      let (_, branch) =
        processed floats id_before uuid4 now bus dispatched event store store' o h in
      let new : o.is_duplicate ≡ false = elim branch [
        | inl (found, _, _) ↦ cc
        | inr (_, _, q) ↦ ap (λ (x : ProcessingOutcome). x.is_duplicate) q
      ] in
      subst (Delivered now attempts topic store' o.evidence) (rw (valid, handle_message, h) refl)
        (deliver-new now attempts topic store' o new)
