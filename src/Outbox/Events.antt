-- ===== src/Outbox/Events.antt =====
-- backend/app/application/events/domain_events.py, the payloads with which the services write them to
-- the outbox, and the reader of outbox_dispatcher.py. `Formats` holds what the code takes from Python:
-- `str` and `int` of a JSON value, `datetime.isoformat` and `datetime.fromisoformat`.
pub mod RoundTrip
use odis.Bridge.Input.{Json, Fields, string, number, null, no_fields, field}
use odis.Prelude.{ℕ, String, Option, none, some, ◌==◌, if◌then◌else◌}
use odis.Prelude.Result.{Result, ◌>>=◌, or_raise, ok, key_error, value_error}

-- A point in time, with or without a time zone. A time without one is read as UTC.
pub data Datetime : Type 0 where
  naive : ℕ → Datetime
  aware : ℕ → Datetime

-- `value.replace(tzinfo=UTC)` where there is no zone
abbrev pub with_utc : Datetime → Datetime
with_utc (naive t) = aware t
with_utc (aware t) = aware t

pub record Formats : Type 1 where
  pub Number : Type 0
  pub no_score : Number
  pub str : Json Number → String
  pub int : Json Number → Result Number
  pub isoformat : Datetime → String
  pub fromisoformat : String → Option Datetime

pub data DomainEvent (Number : Type 0) : Type 0 where
  observation_created :
      (asset_id observation_id : String) (timestamp : Datetime) → DomainEvent Number
  reasoning_completed : (asset_id run_id : String) (timestamp : Datetime) → DomainEvent Number
  reasoning_started : (asset_id run_id : String) (timestamp : Datetime) → DomainEvent Number
  recommendation_updated :
      (asset_id run_id : String) (previous_recommendation : Option String)
      (new_recommendation : String) (timestamp : Datetime)
      → DomainEvent Number
  trend_changed :
      (asset_id run_id previous_direction new_direction : String)
      (stability_score volatility_score : Number) (timestamp : Datetime)
      → DomainEvent Number
  health_changed :
      (asset_id run_id previous_health_status new_health_status : String) (health_score : Number)
      (timestamp : Datetime)
      → DomainEvent Number
  risk_changed :
      (asset_id run_id previous_risk_level new_risk_level : String) (health_score : Number)
      (timestamp : Datetime)
      → DomainEvent Number
  notification_created :
      (asset_id run_id notification_id recommendation_id severity status title message : String)
      (created_at timestamp : Datetime)
      → DomainEvent Number
  investigation_transition_recorded :
      (asset_id recommendation_id transition_id status actor_id actor_display_name : String)
      (occurred_at : Datetime) (notes : Option String) (timestamp : Datetime)
      → DomainEvent Number
  ai_fault_investigation_updated :
      (asset_id investigation_id diagnosed_fault_class investigation_status
        alert_transition_type : String)
      (timestamp : Datetime)
      → DomainEvent Number

-- `payload.get(name)`
abbrev pub payload_get : {Number : Type 0} → String → Fields Number → Option (Json Number)
payload_get name no_fields = none
payload_get name (field key value rest) = if key == name then some value else payload_get name rest

module _ (formats : Formats) where
  open formats use {Number, no_score, str, int, isoformat, fromisoformat}

  -- `_parse_datetime`
  abbrev pub parse_datetime : String → Result Datetime
  parse_datetime value =
      or_raise (fromisoformat value) value_error >>= λ parsed. ok (with_utc parsed)

  -- `str(payload[name])`
  abbrev pub text_of : String → Fields Number → Result String
  text_of name payload = or_raise (payload_get name payload) key_error >>= λ value. ok (str value)

  -- `_parse_datetime(str(payload[name]))`
  abbrev pub time_of : String → Fields Number → Result Datetime
  time_of name payload = text_of name payload >>= parse_datetime

  -- `int(payload.get(name, 0))`
  abbrev pub int_of : String → Fields Number → Result Number
  int_of name payload = elim (payload_get name payload) [
    | none ↦ ok no_score
    | some value ↦ int value
  ]

  abbrev text_or_none : Option (Json Number) → Option String
  text_or_none none = none
  text_or_none (some null) = none
  text_or_none (some value) = some (str value)

  -- `str(value) if value is not None else None` for `value = payload.get(name)`
  abbrev pub optional_text_of : String → Fields Number → Option String
  optional_text_of name payload = text_or_none (payload_get name payload)

  abbrev read_observation_created : Fields Number → Result (DomainEvent Number)
  read_observation_created payload = do
    asset_id ← text_of "asset_id" payload
    observation_id ← text_of "observation_id" payload
    timestamp ← time_of "timestamp" payload
    ok (observation_created asset_id observation_id timestamp)

  -- An event of which only the asset, the run and the time are kept.
  abbrev read_run_event :
      (String → String → Datetime → DomainEvent Number)
      → Fields Number
      → Result (DomainEvent Number)
  read_run_event event payload = do
    asset_id ← text_of "asset_id" payload
    run_id ← text_of "run_id" payload
    timestamp ← time_of "timestamp" payload
    ok (event asset_id run_id timestamp)

  abbrev read_recommendation_updated : Fields Number → Result (DomainEvent Number)
  read_recommendation_updated payload = do
    asset_id ← text_of "asset_id" payload
    run_id ← text_of "run_id" payload
    new_recommendation ← text_of "new_recommendation" payload
    timestamp ← time_of "timestamp" payload
    ok (
        recommendation_updated asset_id run_id (optional_text_of "previous_recommendation" payload)
          new_recommendation timestamp)

  abbrev read_trend_changed : Fields Number → Result (DomainEvent Number)
  read_trend_changed payload = do
    asset_id ← text_of "asset_id" payload
    run_id ← text_of "run_id" payload
    previous_direction ← text_of "previous_direction" payload
    new_direction ← text_of "new_direction" payload
    stability_score ← int_of "stability_score" payload
    volatility_score ← int_of "volatility_score" payload
    timestamp ← time_of "timestamp" payload
    ok (
        trend_changed asset_id run_id previous_direction new_direction stability_score
          volatility_score timestamp)

  -- A change of health or of risk: `previous` and `new` are the names of its fields.
  abbrev read_state_changed :
      (String → String → String → String → Number → Datetime → DomainEvent Number)
      → String
      → String
      → Fields Number
      → Result (DomainEvent Number)
  read_state_changed event previous new payload = do
    asset_id ← text_of "asset_id" payload
    run_id ← text_of "run_id" payload
    before ← text_of previous payload
    after ← text_of new payload
    health_score ← int_of "health_score" payload
    timestamp ← time_of "timestamp" payload
    ok (event asset_id run_id before after health_score timestamp)

  abbrev read_notification_created : Fields Number → Result (DomainEvent Number)
  read_notification_created payload = do
    asset_id ← text_of "asset_id" payload
    run_id ← text_of "run_id" payload
    notification_id ← text_of "notification_id" payload
    recommendation_id ← text_of "recommendation_id" payload
    severity ← text_of "severity" payload
    status ← text_of "status" payload
    title ← text_of "title" payload
    message ← text_of "message" payload
    created_at ← time_of "created_at" payload
    timestamp ← time_of "timestamp" payload
    ok (
        notification_created asset_id run_id notification_id recommendation_id severity status title
          message created_at timestamp)

  abbrev read_investigation_transition : Fields Number → Result (DomainEvent Number)
  read_investigation_transition payload = do
    asset_id ← text_of "asset_id" payload
    recommendation_id ← text_of "recommendation_id" payload
    transition_id ← text_of "transition_id" payload
    status ← text_of "status" payload
    actor_id ← text_of "actor_id" payload
    actor_display_name ← text_of "actor_display_name" payload
    occurred_at ← time_of "occurred_at" payload
    timestamp ← time_of "timestamp" payload
    ok (
        investigation_transition_recorded asset_id recommendation_id transition_id status actor_id
          actor_display_name occurred_at (optional_text_of "notes" payload) timestamp)

  abbrev read_ai_fault_investigation : Fields Number → Result (DomainEvent Number)
  read_ai_fault_investigation payload = do
    asset_id ← text_of "asset_id" payload
    investigation_id ← text_of "investigation_id" payload
    diagnosed_fault_class ← text_of "diagnosed_fault_class" payload
    investigation_status ← text_of "investigation_status" payload
    alert_transition_type ← text_of "alert_transition_type" payload
    timestamp ← time_of "timestamp" payload
    ok (
        ai_fault_investigation_updated asset_id investigation_id diagnosed_fault_class
          investigation_status alert_transition_type timestamp)

  -- The reader of a type of event, where there is one.
  abbrev reader_of : String → Option (Fields Number → Result (DomainEvent Number))
  reader_of event_type =
      if event_type == "ObservationCreated"
      then some read_observation_created
      else if event_type == "ReasoningCompleted"
      then some (read_run_event reasoning_completed)
      else if event_type == "ReasoningStarted"
      then some (read_run_event reasoning_started)
      else if event_type == "RecommendationUpdated"
      then some read_recommendation_updated
      else if event_type == "TrendChanged"
      then some read_trend_changed
      else if event_type == "HealthChanged"
      then some (read_state_changed health_changed "previous_health_status" "new_health_status")
      else if event_type == "RiskChanged"
      then some (read_state_changed risk_changed "previous_risk_level" "new_risk_level")
      else if event_type == "NotificationCreated"
      then some read_notification_created
      else if event_type == "InvestigationTransitionRecorded"
      then some read_investigation_transition
      else if event_type == "AiFaultInvestigationUpdated"
      then some read_ai_fault_investigation
      else none

  -- `_deserialize_domain_event`: `none` for a type that it does not know
  unfoldable pub deserialize_domain_event :
      String → Fields Number → Result (Option (DomainEvent Number))
  deserialize_domain_event event_type payload = elim (reader_of event_type) [
    | none ↦ ok none
    | some read ↦ read payload >>= λ event. ok (some event)
  ]
