-- ===== src/Outbox/Integration.antt =====
-- backend/app/application/integration_event_mapping.py and integration_events.py: which domain events
-- leave the process, and as what. `id` is the identifier that `uuid4` returns.
use odis.Outbox.Events.{
  Datetime, naive, aware, with_utc, Formats, DomainEvent, observation_created, reasoning_completed,
  reasoning_started, recommendation_updated, trend_changed, health_changed, risk_changed,
  notification_created, investigation_transition_recorded, ai_fault_investigation_updated,
  payload_get,
}
use odis.Outbox.Events.RoundTrip.{event_name, text_field, optional}
use mathlib.Core.Path.{subst}
use odis.Bridge.Input.{Fields, string, number, no_fields, field}
use odis.Prelude.{String, ◌≡◌, Option, none, some, refl}

pub record IntegrationEvent (Number : Type 0) : Type 0 where
  pub id : String
  pub name : String
  pub occurred_at : Datetime
  pub payload : Fields Number

-- The field `timestamp` of an event, and its `asset_id`.
abbrev pub timestamp_of : {Number : Type 0} → DomainEvent Number → Datetime
timestamp_of (observation_created _ _ t) = t
timestamp_of (reasoning_completed _ _ t) = t
timestamp_of (reasoning_started _ _ t) = t
timestamp_of (recommendation_updated _ _ _ _ t) = t
timestamp_of (trend_changed _ _ _ _ _ _ t) = t
timestamp_of (health_changed _ _ _ _ _ t) = t
timestamp_of (risk_changed _ _ _ _ _ t) = t
timestamp_of (notification_created _ _ _ _ _ _ _ _ _ t) = t
timestamp_of (investigation_transition_recorded _ _ _ _ _ _ _ _ t) = t
timestamp_of (ai_fault_investigation_updated _ _ _ _ _ t) = t

abbrev pub asset_of : {Number : Type 0} → DomainEvent Number → String
asset_of (observation_created a _ _) = a
asset_of (reasoning_completed a _ _) = a
asset_of (reasoning_started a _ _) = a
asset_of (recommendation_updated a _ _ _ _) = a
asset_of (trend_changed a _ _ _ _ _ _) = a
asset_of (health_changed a _ _ _ _ _) = a
asset_of (risk_changed a _ _ _ _ _) = a
asset_of (notification_created a _ _ _ _ _ _ _ _ _) = a
asset_of (investigation_transition_recorded a _ _ _ _ _ _ _ _) = a
asset_of (ai_fault_investigation_updated a _ _ _ _ _) = a

-- `_event_timestamp`
abbrev pub event_timestamp : {Number : Type 0} → DomainEvent Number → Datetime
event_timestamp event = with_utc (timestamp_of event)

module _ (formats : Formats) where
  open formats use {Number, isoformat}

  -- A time as `_to_iso` writes it.
  abbrev iso_field : String → Datetime → Fields Number → Fields Number
  iso_field name value rest = field name (string (isoformat (with_utc value))) rest

  -- What `_operational_state_payload` has for every event.
  abbrev base_payload : String → String → Datetime → Fields Number → Fields Number
  base_payload asset_id run_id occurred_at more =
      text_field formats "asset_id" asset_id
        (text_field formats "run_id" run_id (iso_field "timestamp" occurred_at more))

  -- `_operational_state_payload`; only the first four events reach it.
  abbrev operational_state_payload : DomainEvent Number → Datetime → Fields Number
  operational_state_payload (health_changed a r previous new score t) occurred_at =
      base_payload a r occurred_at (
        text_field formats "change_type" "health_status" (
          text_field formats "previous_health_status" previous (
            text_field formats "new_health_status" new
              (field "health_score" (number score) no_fields))))
  operational_state_payload (risk_changed a r previous new score t) occurred_at =
      base_payload a r occurred_at (
        text_field formats "change_type" "risk_level" (
          text_field formats "previous_risk_level" previous (
            text_field formats "new_risk_level" new
              (field "health_score" (number score) no_fields))))
  operational_state_payload (trend_changed a r previous new stability volatility t) occurred_at =
      base_payload a r occurred_at (
        text_field formats "change_type" "trend_direction" (
          text_field formats "previous_direction" previous (
            text_field formats "new_direction" new (
              field "stability_score" (number stability)
                (field "volatility_score" (number volatility) no_fields)))))
  operational_state_payload (recommendation_updated a r previous new t) occurred_at =
      base_payload a r occurred_at (
        text_field formats "change_type" "recommendation" (
          field "previous_recommendation" (optional formats previous)
            (text_field formats "new_recommendation" new no_fields)))
  operational_state_payload event occurred_at =
      base_payload (asset_of event) "" occurred_at
        (text_field formats "change_type" (event_name event) no_fields)

  abbrev integration : String → String → Datetime → Fields Number → Option (IntegrationEvent Number)
  integration id name occurred_at payload =
      some (record { id = id; name = name; occurred_at = occurred_at; payload = payload })

  abbrev state_changed : String → DomainEvent Number → Option (IntegrationEvent Number)
  state_changed id event =
      integration id "OperationalStateChanged" (event_timestamp event)
        (operational_state_payload event (event_timestamp event))

  unfoldable pub map_domain_event_to_integration_event :
      String → DomainEvent Number → Option (IntegrationEvent Number)
  map_domain_event_to_integration_event id (reasoning_completed a r t) =
      integration id "DigitalTwinUpdated" (with_utc t) (base_payload a r (with_utc t) no_fields)
  map_domain_event_to_integration_event id (health_changed a r p n s t) =
      state_changed id (health_changed a r p n s t)
  map_domain_event_to_integration_event id (risk_changed a r p n s t) =
      state_changed id (risk_changed a r p n s t)
  map_domain_event_to_integration_event id (trend_changed a r p n s v t) =
      state_changed id (trend_changed a r p n s v t)
  map_domain_event_to_integration_event id (recommendation_updated a r p n t) =
      state_changed id (recommendation_updated a r p n t)
  map_domain_event_to_integration_event id (notification_created a r n c v s i m d t) =
      integration id "NotificationRaised" (with_utc t) (
        text_field formats "asset_id" a (
          text_field formats "run_id" r (
            text_field formats "notification_id" n (
              text_field formats "recommendation_id" c (
                text_field formats "severity" v (
                  text_field formats "status" s (
                    text_field formats "title" i (
                      text_field formats "message" m
                        (iso_field "created_at" d (iso_field "timestamp" t no_fields))))))))))
  map_domain_event_to_integration_event id (investigation_transition_recorded a r i s c d o n t) =
      integration id "InvestigationTransitionRecorded" (with_utc t) (
        text_field formats "asset_id" a (
          text_field formats "recommendation_id" r (
            text_field formats "transition_id" i (
              text_field formats "status" s (
                text_field formats "actor_id" c (
                  text_field formats "actor_display_name" d (
                    iso_field "occurred_at" o (
                      field "notes" (optional formats n) (iso_field "timestamp" t no_fields)))))))))
  map_domain_event_to_integration_event id _ = none

-- What holds of an integration event made of a domain event under an identifier.
abbrev pub Tells :
    (formats : Formats)
    → String
    → DomainEvent formats.Number
    → IntegrationEvent formats.Number
    → Type 0
Tells formats id event made =
    (made.id ≡ id)
    × (made.occurred_at ≡ event_timestamp event)
    × (payload_get "asset_id" made.payload ≡ some (string (asset_of event)))
    × (payload_get "timestamp" made.payload
        ≡ some (string (formats.isoformat (event_timestamp event))))

-- Where there is one, `P` holds of it.
abbrev OnSome : {A : Type 0} → (A → Type 0) → Option A → Type 0
OnSome P none = Unit
OnSome P (some made) = P made

with_utc_twice : (d : Datetime) → with_utc (with_utc d) ≡ with_utc d
with_utc_twice (naive t) = refl
with_utc_twice (aware t) = refl

maps :
    (formats : Formats) (id : String) (event : DomainEvent formats.Number)
    → OnSome (Tells formats id event) (map_domain_event_to_integration_event formats id event)
unfolding map_domain_event_to_integration_event
maps formats id (observation_created _ _ _) = tt
maps formats id (reasoning_started _ _ _) = tt
maps formats id (ai_fault_investigation_updated _ _ _ _ _ _) = tt
maps formats id (notification_created _ _ _ _ _ _ _ _ _ _) = (refl, refl, refl, refl)
maps formats id (investigation_transition_recorded _ _ _ _ _ _ _ _ _) = (refl, refl, refl, refl)
maps formats id _ = (refl, refl, refl, simp with_utc_twice)

-- The integration event of a domain event, where there is one, keeps its asset and its time, which has
-- a zone, under the identifier given, and its payload's timestamp is the time at which it occurred.
pub map_domain_event_to_integration_event-Tells :
    (formats : Formats) (id : String) (event : DomainEvent formats.Number)
    (made : IntegrationEvent formats.Number)
    → map_domain_event_to_integration_event formats id event ≡ some made
    → Tells formats id event made
unfolding map_domain_event_to_integration_event
map_domain_event_to_integration_event-Tells formats id event made h =
    subst (OnSome (Tells formats id event)) h (maps formats id event)
