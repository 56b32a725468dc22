-- ===== src/Inference/Tests.antt =====
-- The inference worker at concrete events.
use odis.Bridge.Input.{JsonValues, Json, Fields, string, number, no_fields, field, get_field}
use odis.Inference.Telemetry.{Readings, TelemetrySample, from_observations, observation, collect}
use odis.Inference.Assembly.{
  TelemetryObservationEvent, AssetBuffer, PendingSample, Measured, AssemblyOutcome, SampleAssembler,
  waiting, rejected, completed, incomplete_timeout, ingest, ingest_buffer, buffer_for, make_room,
  sweep_timeouts,
}
use odis.Inference.Assembly.Bounds.{IsBounded, ingest-IsBounded, pending_of, ends_of, Balances}
use odis.Inference.Assembly.Latest.{Moves, ingest_buffer-Moves}
use odis.Inference.Assembly.Totality.{GoodBuffer, ingest-returns}
use odis.Inference.Assembly.Sweep.{HasCurrent, sweep_timeouts-IsBounded}
use odis.Inference.Events.{validate_telemetry_event, IsCanonical, validate-IsCanonical}
use odis.Prelude.Count.{count}
use odis.Prelude.{Bool, ℕ, ◌+◌, String, ◌≡◌, refl, true, some, List, [], ◌∷◌, arith, eqb, All, leb}
use odis.Prelude.Result.{ok, err, value_error}

abbrev pub counts : Readings
counts = record { Value = ℕ; isfinite = λ n. true; equal = eqb }

abbrev pub measured : ℕ → String → Measured ℕ
measured value unit = record { value = value; unit = unit; event_id = "e0" }

abbrev pub started : PendingSample ℕ
started = record { values = ("current", measured 1 "A") ∷ []; first_seen_monotonic = 2 }

abbrev pub buffer : AssetBuffer ℕ
buffer = record {
  pending = (5, started) ∷ [];
  latest_processed_timestamp = some 4;
  last_active_monotonic = 2;
}

abbrev pub tight : SampleAssembler ℕ
tight = record {
  timeout_seconds = 30;
  max_buffered = 1;
  max_assets = 1;
  buffers = ("a1", buffer) ∷ [];
}

tight-IsBounded : IsBounded tight
tight-IsBounded = record {
  some_asset = omega arith;
  some_sample = omega arith;
  assets = omega arith;
  samples = (omega arith, tt);
}

abbrev reading : String → ℕ → TelemetryObservationEvent ℕ
reading event_id timestamp = record {
  event_id = event_id;
  asset_id = "a1";
  timestamp = timestamp;
  measurement_name = "coolant_flow";
  value = 9;
  unit = "L/min";
}

-- The sample of time 7 takes the place of the one of time 5.
abbrev pub later_buffer : AssetBuffer ℕ
later_buffer = record {
  pending =
      (
        7,
        record {
          values = ("coolant_flow", record { value = 9; unit = "L/min"; event_id = "e1" }) ∷ [];
          first_seen_monotonic = 8;
        },
      )
      ∷ [];
  latest_processed_timestamp = some 4;
  last_active_monotonic = 8;
}

abbrev reported : List (AssemblyOutcome ℕ)
reported = rejected incomplete_timeout "a1" 5 ∷ waiting "a1" 7 ∷ []

tight-ingest :
    ingest counts tight (reading "e1" 7) 8
    ≡ ok (record tight { buffers = ("a1", later_buffer) ∷ [] }, reported)
unfolding ingest buffer_for ingest_buffer make_room
tight-ingest = refl

ingest-IsBounded_example :
    IsBounded (record tight { buffers = ("a1", later_buffer) ∷ [] })
    × (tight.max_assets ≡ 1)
    × (tight.max_buffered ≡ 1)
    × Balances tight
        (reading "e1" 7)
        8
        (record tight { buffers = ("a1", later_buffer) ∷ [] }, reported)
ingest-IsBounded_example =
    ingest-IsBounded counts tight (record tight { buffers = ("a1", later_buffer) ∷ [] })
      (reading "e1" 7) 8 reported tight-IsBounded tight-ingest

ingest-returns_example :
    (after : SampleAssembler ℕ) × (outcomes : List (AssemblyOutcome ℕ)) × (ingest counts tight
        (reading "e1" 7)
        8
      ≡ ok (after, outcomes))
    × IsBounded after
    × All (GoodBuffer counts) after.buffers
ingest-returns_example =
    ingest-returns counts tight (reading "e1" 7) 8 tight-IsBounded
      ((((refl, refl, refl), tt), tt), tt) (refl, (refl, refl, refl))

sweep_timeouts-IsBounded_example :
    IsBounded (sweep_timeouts counts tight 40).0
    × All (HasCurrent 30 40) (sweep_timeouts counts tight 40).0.buffers
    × ((q : String → ℕ → Bool)
        → pending_of q (sweep_timeouts counts tight 40).0.buffers
            + count (ends_of q) (sweep_timeouts counts tight 40).1
          ≡ pending_of q tight.buffers)
sweep_timeouts-IsBounded_example = sweep_timeouts-IsBounded counts tight 40 tight-IsBounded

-- A buffer that lacks only the coolant flow.
abbrev six : List (String × Measured ℕ)
six =
    ("stack_temperature", measured 60 "celsius")
    ∷ ("stack_pressure", measured 90 "kPa")
    ∷ ("current", measured 1 "A")
    ∷ ("voltage", measured 2 "V")
    ∷ ("fuel_flow", measured 3 "SLPM")
    ∷ ("power_output", measured 4 "kW")
    ∷ []

abbrev nearly : AssetBuffer ℕ
nearly = record {
  pending = (7, record { values = six; first_seen_monotonic = 2 }) ∷ [];
  latest_processed_timestamp = some 4;
  last_active_monotonic = 2;
}

abbrev sample : TelemetrySample ℕ
sample = record {
  asset_id = "a1";
  timestamp = 7;
  values =
      ("stack_temperature", 60)
      ∷ ("stack_pressure", 90)
      ∷ ("current", 1)
      ∷ ("voltage", 2)
      ∷ ("fuel_flow", 3)
      ∷ ("power_output", 4)
      ∷ ("coolant_flow", 9)
      ∷ [];
  units =
      ("stack_temperature", "celsius")
      ∷ ("stack_pressure", "kPa")
      ∷ ("current", "A")
      ∷ ("voltage", "V")
      ∷ ("fuel_flow", "SLPM")
      ∷ ("power_output", "kW")
      ∷ ("coolant_flow", "L/min")
      ∷ [];
}

abbrev closed : AssetBuffer ℕ × List (AssemblyOutcome ℕ)
closed = (
  record { pending = []; latest_processed_timestamp = some 7; last_active_monotonic = 2 },
  completed "a1" 7 sample ∷ [],
)

nearly-closed : ingest_buffer counts 1 (reading "e1" 7) 8 nearly ≡ ok closed
unfolding ingest_buffer make_room observation from_observations collect
nearly-closed = refl

ingest_buffer-Moves_example : Moves (reading "e1" 7) nearly closed
ingest_buffer-Moves_example =
    ingest_buffer-Moves counts 1 (reading "e1" 7) 8 nearly closed nearly-closed

-- An event without an identifier is recorded, and makes the sample that it completes raise.
empty_id-raises : ingest_buffer counts 1 (reading "" 7) 8 nearly ≡ err value_error
unfolding ingest_buffer make_room observation from_observations collect
empty_id-raises = refl

abbrev plain_text : Json ℕ → String
plain_text (string s) = s
plain_text _ = ""

abbrev pub json : JsonValues
json = record {
  Number = ℕ;
  has_double = λ n. true;
  is_finite = λ n. true;
  is_in_unit_interval = λ n. leb n 1;
  text = plain_text;
  parse_timestamp = λ s. some 7;
}

abbrev pub message : Fields ℕ
message = field "event_id" (string "e1") (
    field "event_version" (string "v1") (
      field "asset_id" (string "a1") (
        field "timestamp" (string "1970-01-01T00:00:07Z") (
          field "measurement_name" (string "coolant_flow") (
            field "value" (number 9)
              (field "unit" (string "L/min") (field "source" (string "mqtt") no_fields)))))))

message-validated : validate_telemetry_event json counts (λ n. ok n) message ≡ ok (reading "e1" 7)
unfolding validate_telemetry_event
message-validated = refl

validate-IsCanonical_example :
    (get_field json "unit" message ≡ some (string "L/min"))
    × IsCanonical json counts (λ n. ok n) (reading "e1" 7)
validate-IsCanonical_example =
    validate-IsCanonical json counts (λ n. ok n) message (reading "e1" 7) message-validated
