-- ===== src/Inference/Worker.antt =====
-- backend/simulator/inference_worker/worker.py: the handling of one message, with the events that events.py
-- builds from a result. `broker m` says which of the sends of a message `m` succeed; they are repeated as in
-- Bridge.Publish, whose loop kafka_io.py has too. A message that is no JSON text is `none`. Identifiers of
-- events and the times at which they occurred are left out.
pub mod Delivered
use odis.AlertPolicy.State.{Scores, AlertEvent, EventType, new_alert, class_change}
use odis.AlertPolicy.State as State
use odis.Bridge.Types.{AlertTransitionType, confirmed, class_changed, cleared}
use odis.Bridge.Publish.{publish_with_retry}
use odis.Bridge.Input.{
  has_item, JsonValues, Fields, Json, Items, null, boolean, number, string, array, object, no_items,
  item, no_fields, field, get_field,
}
use odis.Prelude.Result.{Error, type_error, overflow_error}
use odis.Inference.Telemetry.{Readings, TelemetrySample}
use odis.Inference.Assembly.{
  SampleAssembler, AssemblyOutcome, AssemblyStatus, pending_sample, complete_sample,
  rejected_sample, RejectionReason, ingest, TelemetryObservationEvent, sweep_timeouts,
}
use odis.Inference.Session.{
  FaultInferenceSession, PromotedFaultSystem, InferenceResult, manager_ingest,
}
use odis.Inference.Events.{validate_telemetry_event}
use odis.Prelude.Text.{is_infix}
use odis.Prelude.{
  ℕ, String, Bool, true, false, Option, none, some, List, [], ◌∷◌, ◌++◌, if◌then◌else◌, ◌==◌,
}
use odis.Prelude.Result.{Result, Error, ok, err, ◌>>=◌, assertion_error}

pub record FaultAlertTransitionEvent : Type 0 where
  pub asset_id : String
  pub source_timestamp : ℕ
  pub transition_type : AlertTransitionType
  pub from_state : String
  pub to_state : String
  pub diagnosed_class : Option String

-- What the worker publishes, to the topic of each kind. A data-quality event without a reason says that
-- the message was malformed.
pub data Message (Score : Type 0) : Type 0 where
  data_quality : Option String → Option ℕ → Option RejectionReason → Message Score
  inference_result : InferenceResult Score → Message Score
  alert_transition : FaultAlertTransitionEvent → Message Score

pub record WorkerState (Value : Type 0) : Type 0 where
  pub assembler : SampleAssembler Value
  pub sessions : List (String × FaultInferenceSession Value)

-- What a handler leaves behind: the state, what was published, and whether all of it was.
pub record Handled (Value Score : Type 0) : Type 0 where
  pub state : WorkerState Value
  pub published : List (Message Score)
  pub delivered : Bool

-- `_TRANSITION_TYPE_BY_ALERT_EVENT_TYPE`
abbrev pub transition_type_of : EventType → AlertTransitionType
transition_type_of new_alert = confirmed
transition_type_of class_change = class_changed
transition_type_of State.cleared = cleared

-- `build_transition_event`
abbrev pub build_transition_event :
    {Score : Type 0}
    → InferenceResult Score
    → Option (AlertEvent ℕ)
    → Option FaultAlertTransitionEvent
build_transition_event result none = none
build_transition_event result (some event) = some (record {
  asset_id = result.asset_id;
  source_timestamp = result.timestamp;
  transition_type = transition_type_of event.event_type;
  from_state = event.from_state;
  to_state = event.to_state;
  diagnosed_class = result.diagnosed_class;
})

-- The result's event, and behind it the transition's, where there is one.
abbrev pub messages_of :
    {Score : Type 0}
    → InferenceResult Score
    → Option FaultAlertTransitionEvent
    → List (Message Score)
messages_of result none = inference_result result ∷ []
messages_of result (some event) = inference_result result ∷ (alert_transition event ∷ [])

-- The validation errors, which the handler catches.
abbrev pub is_validation_error : Error → Bool
is_validation_error type_error = false
is_validation_error overflow_error = false
is_validation_error _ = true

module _ {Score : Type 0} (max_retries : ℕ) (broker : Message Score → ℕ → Bool) where
  -- One message behind another, up to the first that is not published.
  unfoldable pub publish_each : List (Message Score) → List (Message Score) × Bool
  publish_each [] = ([], true)
  publish_each (m ∷ ms) =
      let (published, delivered) = publish_each ms in
      if publish_with_retry max_retries (broker m) then (m ∷ published, delivered) else ([], false)

  abbrev pub handled :
      {Value : Type 0} → WorkerState Value → List (Message Score) → Handled Value Score
  handled state messages =
      let (published, delivered) = publish_each messages in
      record { state = state; published = published; delivered = delivered }

module _ (scores : Scores) (readings : Readings)
    (system : PromotedFaultSystem readings.Value scores.Score) (max_retries : ℕ)
    (broker : Message scores.Score → ℕ → Bool) where
  open scores use {Score}
  open readings use {Value}

  -- `_run_inference`
  unfoldable pub run_inference :
      WorkerState Value → TelemetrySample Value → Result (Handled Value Score)
  run_inference w sample = do
    (sessions, result) ← manager_ingest scores system w.sessions sample
    ok (
        handled max_retries broker (record { assembler = w.assembler; sessions = sessions })
          (messages_of result (build_transition_event result result.alert_event)))

  -- The samples of the outcomes are there where their status is `complete`.
  abbrev pub handle_complete :
      WorkerState Value → Option (TelemetrySample Value) → Result (Handled Value Score)
  handle_complete w none = err assertion_error
  handle_complete w (some sample) = run_inference w sample

  abbrev pub handle_status :
      WorkerState Value → AssemblyOutcome Value → AssemblyStatus → Result (Handled Value Score)
  handle_status w outcome pending_sample = ok (handled max_retries broker w [])
  handle_status w outcome rejected_sample = ok (
      handled max_retries broker w
        (data_quality (some outcome.asset_id) (some outcome.source_timestamp) outcome.reason ∷ []))
  handle_status w outcome complete_sample = handle_complete w outcome.sample

  -- `_handle_assembly_outcome`
  abbrev pub handle_outcome :
      WorkerState Value → AssemblyOutcome Value → Result (Handled Value Score)
  handle_outcome w outcome = handle_status w outcome outcome.status

  -- `all(...)` stops at the first outcome that is not delivered.
  abbrev pub continue_with :
      Handled Value Score → Bool → Result (Handled Value Score) → Result (Handled Value Score)
  continue_with first false rest = ok first
  continue_with first true rest = rest >>= λ r. ok (record {
    state = r.state;
    published = first.published ++ r.published;
    delivered = r.delivered;
  })

  unfoldable pub handle_outcomes :
      WorkerState Value → List (AssemblyOutcome Value) → Result (Handled Value Score)
  unfolding run_inference
  handle_outcomes w [] = ok (record { state = w; published = []; delivered = true })
  handle_outcomes w (outcome ∷ outcomes) = do
    first ← handle_outcome w outcome
    continue_with first first.delivered (handle_outcomes first.state outcomes)

  module _ (values : JsonValues) (float : values.Number → Result Value)
      (is_zero : values.Number → Bool) where
    open values use {Number}

    -- `raw.get("asset_id")` in a data-quality event, whose identifier is joined from texts: a value that is
    -- no text raises there, unless it counts as false, when it is kept as `none`.
    abbrev pub quality_asset : Option (Json Number) → Result (Option String)
    quality_asset none = ok none
    quality_asset (some null) = ok none
    quality_asset (some (string s)) = ok (some s)
    quality_asset (some (number n)) = if is_zero n then ok none else err type_error
    quality_asset (some (boolean b)) = if b then err type_error else ok none
    quality_asset (some (array no_items)) = ok none
    quality_asset (some (array (item j js))) = err type_error
    quality_asset (some (object no_fields)) = ok none
    quality_asset (some (object (field k j js))) = err type_error

    -- `_handle_message` behind the validation
    abbrev pub handle_validated :
        WorkerState Value
        → ℕ
        → Fields Number
        → Result (TelemetryObservationEvent Value)
        → Result (Handled Value Score)
    handle_validated w now raw (err raised) =
        if is_validation_error raised
        then (do
          asset_id ← quality_asset (get_field values "asset_id" raw)
          ok (handled max_retries broker w (data_quality asset_id none none ∷ [])))
        else err raised
    handle_validated w now raw (ok event) = do
      (assembler, outcomes) ← ingest readings w.assembler event now
      handle_outcomes (record { assembler = assembler; sessions = w.sessions }) outcomes

    -- `raw[name]` of a text or a list that has the field's name in it has no index of that kind; the first of
    -- the required fields is the first that is looked for.
    abbrev pub handle_unfielded : WorkerState Value → Bool → Result (Handled Value Score)
    handle_unfielded w true = err type_error
    handle_unfielded w false = ok (handled max_retries broker w (data_quality none none none ∷ []))

    -- `_handle_message` behind the decoding: `in` has no meaning on a number, a Boolean or a null.
    abbrev pub handle_decoded : WorkerState Value → ℕ → Json Number → Result (Handled Value Score)
    handle_decoded w now (object raw) =
        handle_validated w now raw (validate_telemetry_event values readings float raw)
    handle_decoded w now (string s) = handle_unfielded w (is_infix "event_id" s)
    handle_decoded w now (array items) = handle_unfielded w (has_item "event_id" items)
    handle_decoded w now _ = err type_error

    -- `_handle_message`: the offset is committed where it answers true.
    unfoldable pub handle_message :
        WorkerState Value → ℕ → Option (Json Number) → Result (Handled Value Score)
    unfolding handle_outcomes
    handle_message w now none = ok (handled max_retries broker w (data_quality none none none ∷ []))
    handle_message w now (some raw) = handle_decoded w now raw
