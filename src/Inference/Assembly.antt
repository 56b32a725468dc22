-- ===== src/Inference/Assembly.antt =====
-- backend/simulator/inference_worker/assembly.py, `SampleAssembler`. Dictionaries are lists of entries in
-- the order of insertion, times are natural numbers, and the three dictionaries of a pending sample, which
-- are filled together, are one. The texts for `detail` are left out. A call that raises ends the worker,
-- so what it leaves behind is not kept.
pub mod Cases
pub mod Bounds
pub mod Latest
pub mod Totality
pub mod Sweep
use odis.Engine.Observation.{Observation}
use odis.Inference.Telemetry.{
  Readings, TelemetrySample, required_measurements, missing_of, observation, from_observations,
}
use odis.Prelude.Dict.{lookup, has_key, remove_key, set_key}
use odis.Prelude.{
  ℕ, ◌+◌, String, Bool, false, not, ◌&&◌, Option, none, some, List, [], ◌∷◌, ◌++◌, ◌==◌, ltb, leb,
  eqb, if◌then◌else◌, length, is_empty,
}
use odis.Prelude.Result.{Result, ok, ◌>>=◌, err, stop_iteration, key_error}

pub record TelemetryObservationEvent (Value : Type 0) : Type 0 where
  pub event_id : String
  pub asset_id : String
  pub timestamp : ℕ
  pub measurement_name : String
  pub value : Value
  pub unit : String

pub data AssemblyStatus : Type 0 where
  pending_sample complete_sample rejected_sample : AssemblyStatus

pub data RejectionReason : Type 0 where
  incomplete_timeout conflicting_duplicate late : RejectionReason

pub record AssemblyOutcome (Value : Type 0) : Type 0 where
  pub status : AssemblyStatus
  pub asset_id : String
  pub source_timestamp : ℕ
  pub sample : Option (TelemetrySample Value)
  pub reason : Option RejectionReason

pub record Measured (Value : Type 0) : Type 0 where
  pub value : Value
  pub unit : String
  pub event_id : String

pub record PendingSample (Value : Type 0) : Type 0 where
  pub values : List (String × Measured Value)
  pub first_seen_monotonic : ℕ

pub record AssetBuffer (Value : Type 0) : Type 0 where
  pub pending : List (ℕ × PendingSample Value)
  pub latest_processed_timestamp : Option ℕ
  pub last_active_monotonic : ℕ

pub record SampleAssembler (Value : Type 0) : Type 0 where
  pub timeout_seconds : ℕ
  pub max_buffered : ℕ
  pub max_assets : ℕ
  pub buffers : List (String × AssetBuffer Value)

abbrev pub measurement_order : List String
measurement_order = required_measurements ++ ("efficiency" ∷ [])

-- What `_buffer_for` found, and the buffers beside it; it puts the buffer behind these.
pub record Found (Value : Type 0) : Type 0 where
  pub others : List (String × AssetBuffer Value)
  pub buffer : AssetBuffer Value
  pub evicted : List (AssemblyOutcome Value)

-- `latest is not None and timestamp <= latest`
abbrev pub is_late : Option ℕ → ℕ → Bool
is_late none timestamp = false
is_late (some latest) timestamp = leb timestamp latest

module _ {Value : Type 0} where
  abbrev pub waiting : String → ℕ → AssemblyOutcome Value
  waiting asset_id timestamp = record {
    status = pending_sample;
    asset_id = asset_id;
    source_timestamp = timestamp;
    sample = none;
    reason = none;
  }

  abbrev pub rejected : RejectionReason → String → ℕ → AssemblyOutcome Value
  rejected reason asset_id timestamp = record {
    status = rejected_sample;
    asset_id = asset_id;
    source_timestamp = timestamp;
    sample = none;
    reason = some reason;
  }

  abbrev pub completed : String → ℕ → TelemetrySample Value → AssemblyOutcome Value
  completed asset_id timestamp sample = record {
    status = complete_sample;
    asset_id = asset_id;
    source_timestamp = timestamp;
    sample = some sample;
    reason = none;
  }

  abbrev pub empty_buffer : ℕ → AssetBuffer Value
  empty_buffer now = record {
    pending = [];
    latest_processed_timestamp = none;
    last_active_monotonic = now;
  }

  -- A rejection for every pending sample of a buffer that goes.
  abbrev pub reject_all : String → List (ℕ × PendingSample Value) → List (AssemblyOutcome Value)
  reject_all asset_id [] = []
  reject_all asset_id ((timestamp, p) ∷ ps) =
      rejected incomplete_timeout asset_id timestamp ∷ reject_all asset_id ps

  -- The eviction of `_buffer_for`: `popitem(last=False)` raises on an empty dictionary.
  abbrev pub evict_first :
      List (String × AssetBuffer Value)
      → Result (List (String × AssetBuffer Value) × List (AssemblyOutcome Value))
  evict_first [] = err key_error
  evict_first ((asset_id, buffer) ∷ rest) = ok (rest, reject_all asset_id buffer.pending)

  abbrev pub new_buffer :
      ℕ → List (String × AssetBuffer Value) × List (AssemblyOutcome Value) → Result (Found Value)
  new_buffer now (others, evicted) =
      ok (record { others = others; buffer = empty_buffer now; evicted = evicted })

  abbrev pub buffer_or_new :
      SampleAssembler Value → String → ℕ → Option (AssetBuffer Value) → Result (Found Value)
  buffer_or_new a asset_id now (some buffer) =
      ok (record { others = remove_key ◌==◌ asset_id a.buffers; buffer = buffer; evicted = [] })
  buffer_or_new a asset_id now none =
      (if leb a.max_assets (length a.buffers) then evict_first a.buffers else ok (a.buffers, []))
      >>= new_buffer now

  -- `_buffer_for`
  unfoldable pub buffer_for : SampleAssembler Value → String → ℕ → Result (Found Value)
  buffer_for a asset_id now = buffer_or_new a asset_id now (lookup ◌==◌ asset_id a.buffers)

  -- `next(iter(...))` of the pending samples, which raises where there is none.
  abbrev pub evict_oldest :
      String
      → List (ℕ × PendingSample Value)
      → Result (List (ℕ × PendingSample Value) × List (AssemblyOutcome Value))
  evict_oldest asset_id [] = err stop_iteration
  evict_oldest asset_id ((timestamp, p) ∷ ps) =
      ok (ps, rejected incomplete_timeout asset_id timestamp ∷ [])

  -- `_make_room`
  unfoldable pub make_room :
      ℕ
      → String
      → List (ℕ × PendingSample Value)
      → Result (List (ℕ × PendingSample Value) × List (AssemblyOutcome Value))
  make_room max_buffered asset_id pending =
      if ltb (length pending) max_buffered then ok (pending, []) else evict_oldest asset_id pending

-- `sweep_timeouts` over one buffer: what stays, and what is reported.
module _ {Value : Type 0} (timeout_seconds now : ℕ) (asset_id : String) where
  abbrev pub is_expired : PendingSample Value → Bool
  is_expired p = leb (p.first_seen_monotonic + timeout_seconds) now

  abbrev pub unexpired : List (ℕ × PendingSample Value) → List (ℕ × PendingSample Value)
  unexpired [] = []
  unexpired ((timestamp, p) ∷ ps) =
      let rest = unexpired ps in if is_expired p then rest else (timestamp, p) ∷ rest

  abbrev pub expired : List (ℕ × PendingSample Value) → List (AssemblyOutcome Value)
  expired [] = []
  expired ((timestamp, p) ∷ ps) =
      let rest = expired ps in
      if is_expired p then rejected incomplete_timeout asset_id timestamp ∷ rest else rest

module _ (readings : Readings) where
  open readings use {Value, equal}

  abbrev Outcome : Type 0
  Outcome = AssetBuffer Value × List (AssemblyOutcome Value)

  -- An observation of a measurement, where there is one, before `rest`.
  abbrev pub with_observation :
      String
      → ℕ
      → String
      → Option (Measured Value)
      → Result (List (Observation Value))
      → Result (List (Observation Value))
  with_observation asset_id timestamp name none rest = rest
  with_observation asset_id timestamp name (some m) rest = do
    o ← observation readings m.event_id asset_id timestamp name m.value m.unit
    os ← rest
    ok (o ∷ os)

  -- The observations of a sample: each measurement in the canonical order that has a value.
  abbrev pub observations_of :
      String → ℕ → List (String × Measured Value) → List String → Result (List (Observation Value))
  observations_of asset_id timestamp values [] = ok []
  observations_of asset_id timestamp values (name ∷ names) =
      with_observation asset_id timestamp name (lookup ◌==◌ name values)
        (observations_of asset_id timestamp values names)

  -- The three assignments that record the event's measurement.
  abbrev pub with_measurement :
      TelemetryObservationEvent Value → PendingSample Value → PendingSample Value
  with_measurement event p = record {
    values = p.values ++ ((event.measurement_name, measured) ∷ []);
    first_seen_monotonic = p.first_seen_monotonic;
  }
    where
      measured : Measured Value
      measured = record { value = event.value; unit = event.unit; event_id = event.event_id }

  abbrev pub fresh_sample : ℕ → PendingSample Value
  fresh_sample now = record { values = []; first_seen_monotonic = now }

  -- The end of `ingest`, behind the recording of the measurement.
  abbrev pub close_sample :
      TelemetryObservationEvent Value
      → AssetBuffer Value
      → List (ℕ × PendingSample Value)
      → PendingSample Value
      → Result Outcome
  close_sample event buffer pending p =
      if not (is_empty (missing_of required_measurements p.values))
      then ok (
        record buffer { pending = set_key eqb event.timestamp p pending },
        waiting event.asset_id event.timestamp ∷ [],
      )
      else (do
        observations ← observations_of event.asset_id event.timestamp p.values measurement_order
        sample ← from_observations readings observations
        ok (
          record buffer {
            pending = remove_key eqb event.timestamp pending;
            latest_processed_timestamp = some event.timestamp;
          },
          completed event.asset_id event.timestamp sample ∷ [],
        ))

  -- The middle of `ingest`: the measurement beside the one that the pending sample has of that name.
  abbrev pub record_measurement :
      TelemetryObservationEvent Value
      → AssetBuffer Value
      → List (ℕ × PendingSample Value)
      → PendingSample Value
      → Option (Measured Value)
      → Result Outcome
  record_measurement event buffer pending p (some existing) =
      if equal existing.value event.value && (existing.unit == event.unit)
      then ok (record buffer { pending = pending }, waiting event.asset_id event.timestamp ∷ [])
      else ok (
        record buffer { pending = remove_key eqb event.timestamp pending },
        rejected conflicting_duplicate event.asset_id event.timestamp ∷ [],
      )
  record_measurement event buffer pending p none =
      close_sample event buffer pending (with_measurement event p)

  abbrev pub ingest_pending :
      TelemetryObservationEvent Value
      → AssetBuffer Value
      → List (ℕ × PendingSample Value)
      → PendingSample Value
      → Result Outcome
  ingest_pending event buffer pending p =
      record_measurement event buffer pending p (lookup ◌==◌ event.measurement_name p.values)

  -- `ingest` behind the test for a late timestamp.
  abbrev pub ingest_timestamp :
      ℕ
      → TelemetryObservationEvent Value
      → ℕ
      → AssetBuffer Value
      → Option (PendingSample Value)
      → Result Outcome
  ingest_timestamp max_buffered event now buffer (some p) =
      ingest_pending event buffer buffer.pending p
  ingest_timestamp max_buffered event now buffer none = do
    (room, evicted) ← make_room max_buffered event.asset_id buffer.pending
    (after, outcomes) ←
        ingest_pending event buffer (set_key eqb event.timestamp (fresh_sample now) room)
          (fresh_sample now)
    ok (after, evicted ++ outcomes)

  -- `ingest` on the asset's buffer
  unfoldable pub ingest_buffer :
      ℕ → TelemetryObservationEvent Value → ℕ → AssetBuffer Value → Result Outcome
  unfolding make_room
  ingest_buffer max_buffered event now buffer =
      if is_late buffer.latest_processed_timestamp event.timestamp
      then ok (buffer, rejected late event.asset_id event.timestamp ∷ [])
      else ingest_timestamp max_buffered event now buffer
          (lookup eqb event.timestamp buffer.pending)

  unfoldable pub ingest :
      SampleAssembler Value
      → TelemetryObservationEvent Value
      → ℕ
      → Result (SampleAssembler Value × List (AssemblyOutcome Value))
  unfolding buffer_for ingest_buffer
  ingest a event now = do
    found ← buffer_for a event.asset_id now
    (after, outcomes) ←
        ingest_buffer a.max_buffered event now (record found.buffer { last_active_monotonic = now })
    ok (
      record a { buffers = found.others ++ ((event.asset_id, after) ∷ []) },
      found.evicted ++ outcomes,
    )

  abbrev pub sweep_buffers :
      ℕ
      → ℕ
      → List (String × AssetBuffer Value)
      → List (String × AssetBuffer Value) × List (AssemblyOutcome Value)
  sweep_buffers timeout_seconds now [] = ([], [])
  sweep_buffers timeout_seconds now ((asset_id, buffer) ∷ buffers) =
      let (rest, outcomes) = sweep_buffers timeout_seconds now buffers in
      (
        (
          asset_id,
          record buffer { pending = unexpired timeout_seconds now asset_id buffer.pending },
        )
            ∷ rest,
        expired timeout_seconds now asset_id buffer.pending ++ outcomes,
      )

  unfoldable pub sweep_timeouts :
      SampleAssembler Value → ℕ → SampleAssembler Value × List (AssemblyOutcome Value)
  sweep_timeouts a now =
      let (buffers, outcomes) = sweep_buffers a.timeout_seconds now a.buffers in
      (record a { buffers = buffers }, outcomes)
