-- ===== src/Outbox/Events/RoundTrip.antt =====
-- The payloads that observation_service.py, investigation_service.py and reasoning_bridge_service.py
-- write, read back by outbox_dispatcher.py.
use odis.Outbox.Events.{
  Datetime, with_utc, Formats, DomainEvent, observation_created, reasoning_completed,
  reasoning_started, recommendation_updated, trend_changed, health_changed, risk_changed,
  notification_created, investigation_transition_recorded, ai_fault_investigation_updated,
  deserialize_domain_event,
}
use odis.Bridge.Input.{Json, Fields, string, number, null, no_fields, field}
use odis.Prelude.{String, ◌≡◌, Option, none, some}
use odis.Prelude.Result.{ok}

-- `type(event).__name__`
abbrev pub event_name : {Number : Type 0} → DomainEvent Number → String
event_name (observation_created _ _ _) = "ObservationCreated"
event_name (reasoning_completed _ _ _) = "ReasoningCompleted"
event_name (reasoning_started _ _ _) = "ReasoningStarted"
event_name (recommendation_updated _ _ _ _ _) = "RecommendationUpdated"
event_name (trend_changed _ _ _ _ _ _ _) = "TrendChanged"
event_name (health_changed _ _ _ _ _ _) = "HealthChanged"
event_name (risk_changed _ _ _ _ _ _) = "RiskChanged"
event_name (notification_created _ _ _ _ _ _ _ _ _ _) = "NotificationCreated"
event_name (investigation_transition_recorded _ _ _ _ _ _ _ _ _) = "InvestigationTransitionRecorded"
event_name (ai_fault_investigation_updated _ _ _ _ _ _) = "AiFaultInvestigationUpdated"

-- The event with its times in UTC where they had no zone.
abbrev pub in_utc : {Number : Type 0} → DomainEvent Number → DomainEvent Number
in_utc (observation_created a o t) = observation_created a o (with_utc t)
in_utc (reasoning_completed a r t) = reasoning_completed a r (with_utc t)
in_utc (reasoning_started a r t) = reasoning_started a r (with_utc t)
in_utc (recommendation_updated a r p n t) = recommendation_updated a r p n (with_utc t)
in_utc (trend_changed a r p n s v t) = trend_changed a r p n s v (with_utc t)
in_utc (health_changed a r p n s t) = health_changed a r p n s (with_utc t)
in_utc (risk_changed a r p n s t) = risk_changed a r p n s (with_utc t)
in_utc (notification_created a r n c v s i m d t) =
    notification_created a r n c v s i m (with_utc d) (with_utc t)
in_utc (investigation_transition_recorded a r i s c d o n t) =
    investigation_transition_recorded a r i s c d (with_utc o) n (with_utc t)
in_utc (ai_fault_investigation_updated a i d s k t) =
    ai_fault_investigation_updated a i d s k (with_utc t)

module _ (formats : Formats) where
  open formats use {Number, str, int, isoformat, fromisoformat}

  abbrev pub text_field : String → String → Fields Number → Fields Number
  text_field name value rest = field name (string value) rest

  abbrev pub time_field : String → Datetime → Fields Number → Fields Number
  time_field name value rest = field name (string (isoformat value)) rest

  abbrev pub optional : Option String → Json Number
  optional none = null
  optional (some value) = string value

  abbrev pub observation_created_payload : String → String → Datetime → Fields Number
  observation_created_payload asset_id observation_id timestamp =
      text_field "asset_id" asset_id
        (text_field "observation_id" observation_id (time_field "timestamp" timestamp no_fields))

  abbrev pub reasoning_started_payload : String → String → Datetime → Fields Number
  reasoning_started_payload asset_id run_id started_at =
      text_field "asset_id" asset_id
        (text_field "run_id" run_id (time_field "timestamp" started_at no_fields))

  abbrev pub reasoning_completed_payload : String → String → Datetime → Fields Number
  reasoning_completed_payload asset_id run_id now =
      text_field "asset_id" asset_id
        (text_field "run_id" run_id (time_field "timestamp" now no_fields))

  abbrev pub recommendation_updated_payload :
      String → String → Option String → String → Datetime → Fields Number
  recommendation_updated_payload asset_id run_id previous new now = text_field "asset_id" asset_id (
      text_field "run_id" run_id (
        field "previous_recommendation" (optional previous)
          (text_field "new_recommendation" new (time_field "timestamp" now no_fields))))

  abbrev pub trend_changed_payload :
      String → String → String → String → Number → Number → Datetime → Fields Number
  trend_changed_payload asset_id run_id previous new stability volatility now =
      text_field "asset_id" asset_id (
        text_field "run_id" run_id (
          text_field "previous_direction" previous (
            text_field "new_direction" new (
              field "stability_score" (number stability) (
                field "volatility_score" (number volatility)
                  (time_field "timestamp" now no_fields))))))

  abbrev pub health_changed_payload :
      String → String → String → String → Number → Datetime → Fields Number
  health_changed_payload asset_id run_id previous new score now = text_field "asset_id" asset_id (
      text_field "run_id" run_id (
        text_field "previous_health_status" previous (
          text_field "new_health_status" new
            (field "health_score" (number score) (time_field "timestamp" now no_fields)))))

  abbrev pub risk_changed_payload :
      String → String → String → String → Number → Datetime → Fields Number
  risk_changed_payload asset_id run_id previous new score now = text_field "asset_id" asset_id (
      text_field "run_id" run_id (
        text_field "previous_risk_level" previous (
          text_field "new_risk_level" new
            (field "health_score" (number score) (time_field "timestamp" now no_fields)))))

  abbrev pub notification_created_payload :
      String
      → String
      → String
      → String
      → String
      → String
      → String
      → String
      → Datetime
      → Datetime
      → Fields Number
  notification_created_payload asset_id run_id id recommendation_id severity status title message
        created_at now =
      text_field "asset_id" asset_id (
        text_field "run_id" run_id (
          text_field "notification_id" id (
            text_field "recommendation_id" recommendation_id (
              text_field "severity" severity (
                text_field "status" status (
                  text_field "title" title (
                    text_field "message" message (
                      time_field "created_at" created_at
                        (time_field "timestamp" now no_fields)))))))))

  abbrev pub investigation_transition_payload :
      String
      → String
      → String
      → String
      → String
      → String
      → Datetime
      → Option String
      → Datetime
      → Fields Number
  investigation_transition_payload asset_id recommendation_id id status actor_id display_name
        occurred_at notes now =
      text_field "asset_id" asset_id (
        text_field "recommendation_id" recommendation_id (
          text_field "transition_id" id (
            text_field "status" status (
              text_field "actor_id" actor_id (
                text_field "actor_display_name" display_name (
                  time_field "occurred_at" occurred_at
                    (field "notes" (optional notes) (time_field "timestamp" now no_fields))))))))

  abbrev pub ai_fault_investigation_payload :
      String → String → String → String → String → Datetime → Fields Number
  ai_fault_investigation_payload asset_id investigation_id fault_class status transition now =
      text_field "asset_id" asset_id (
        text_field "investigation_id" investigation_id (
          text_field "diagnosed_fault_class" fault_class (
            text_field "investigation_status" status (
              text_field "alert_transition_type" transition
                (time_field "timestamp" now no_fields)))))

  -- The payload with which an event is written.
  unfoldable pub payload_of : DomainEvent Number → Fields Number
  payload_of (observation_created a o t) = observation_created_payload a o t
  payload_of (reasoning_completed a r t) = reasoning_completed_payload a r t
  payload_of (reasoning_started a r t) = reasoning_started_payload a r t
  payload_of (recommendation_updated a r p n t) = recommendation_updated_payload a r p n t
  payload_of (trend_changed a r p n s v t) = trend_changed_payload a r p n s v t
  payload_of (health_changed a r p n s t) = health_changed_payload a r p n s t
  payload_of (risk_changed a r p n s t) = risk_changed_payload a r p n s t
  payload_of (notification_created a r n c v s i m d t) =
      notification_created_payload a r n c v s i m d t
  payload_of (investigation_transition_recorded a r i s c d o n t) =
      investigation_transition_payload a r i s c d o n t
  payload_of (ai_fault_investigation_updated a i d s k t) =
      ai_fault_investigation_payload a i d s k t

-- What Python documents of its formats: `str` of a text is that text, `int` of an int is that int,
-- and `fromisoformat` reads what `isoformat` writes.
pub record IsFaithful (formats : Formats) : Type 0 where
  pub str-string : (s : String) → formats.str (string s) ≡ s
  pub int-number : (n : formats.Number) → formats.int (number n) ≡ ok n
  pub fromisoformat-isoformat :
      (d : Datetime) → formats.fromisoformat (formats.isoformat d) ≡ some d

-- Each event is read back from the row that is written for it, with the UTC zone on times that had none.
pub deserialize-payload_of :
    (formats : Formats)
    → IsFaithful formats
    → (e : DomainEvent formats.Number)
    → deserialize_domain_event formats (event_name e) (payload_of formats e) ≡ ok (some (in_utc e))
unfolding deserialize_domain_event payload_of
deserialize-payload_of formats laws (recommendation_updated a r none n t) =
    simp (laws.str-string, laws.fromisoformat-isoformat)
deserialize-payload_of formats laws (investigation_transition_recorded a r i s c d o none t) =
    simp (laws.str-string, laws.fromisoformat-isoformat)
deserialize-payload_of formats laws _ =
    simp (laws.str-string, laws.int-number, laws.fromisoformat-isoformat)
