-- ===== src/Inference/Assembly/Totality.antt =====
-- The assembler never raises on an event that was validated and has an identifier.
use odis.Engine.Observation.{Observation}
use odis.Inference.Telemetry.{
  Readings, TelemetrySample, required_measurements, missing_of, from_observations,
}
use odis.Inference.Telemetry.Totality.{IsGood, sample_total}
use odis.Inference.Assembly.{
  TelemetryObservationEvent, AssetBuffer, PendingSample, Measured, AssemblyOutcome, SampleAssembler,
  Found, completed, with_measurement, fresh_sample, close_sample, record_measurement,
  ingest_timestamp, ingest_buffer, ingest, make_room, evict_oldest, buffer_for, buffer_or_new,
  new_buffer, evict_first, is_late,
}
use odis.Inference.Assembly.Bounds.{IsBounded, ingest-IsBounded}
use odis.Prelude.Result.{Gives, Gives-if, Gives->>=}
use odis.Prelude.Dict.{lookup, remove_key, set_key, All-lookup, All-remove_key, All-set_key}
use odis.Prelude.{
  ℕ, String, ◌≡◌, refl, ap, ◌∙◌, false, not, List, arith, ◌==◌, eqb, is_empty, All, ◌≤◌, ◌&&◌,
  Option, none, some, [], ◌∷◌, ltb, length, All-append, inl, inr, leb, Bool-cases,
}
use odis.Prelude.Result.{Result, ok, ◌>>=◌, err}

module _ (readings : Readings) where
  open readings use {Value, equal}

  -- Every measurement kept is good.
  abbrev pub GoodSample : ℕ × PendingSample Value → Type 0
  GoodSample (timestamp, p) = All (IsGood readings) p.values

  abbrev pub GoodBuffer : String × AssetBuffer Value → Type 0
  GoodBuffer (asset_id, buffer) = All GoodSample buffer.pending

  -- What validation gives: an asset, a canonical measurement with its unit, a finite value; and an
  -- identifier, which it does not ask for.
  abbrev pub IsValidated : TelemetryObservationEvent Value → Type 0
  IsValidated event =
      ((event.asset_id == "") ≡ false)
      × IsGood readings (
        event.measurement_name,
        record { value = event.value; unit = event.unit; event_id = event.event_id },
      )

  abbrev GoodOutcome : AssetBuffer Value × List (AssemblyOutcome Value) → Type 0
  GoodOutcome (after, outcomes) = All GoodSample after.pending

  module _ (event : TelemetryObservationEvent Value) (validated : IsValidated event)
      (buffer : AssetBuffer Value) where
    -- The end of a sample whose observations are built and make a sample.
    complete-returns :
        (pending : List (ℕ × PendingSample Value)) (built : Result (List (Observation Value)))
        (os : List (Observation Value)) (sample : TelemetrySample Value)
        → built ≡ ok os
        → from_observations readings os ≡ ok sample
        → All GoodSample pending
        → Gives GoodOutcome (
            built >>= λ observations. from_observations readings observations >>= λ made. ok (
              record buffer {
                pending = remove_key eqb event.timestamp pending;
                latest_processed_timestamp = some event.timestamp;
              },
              completed event.asset_id event.timestamp made ∷ [],
            ))
    complete-returns pending built os sample e d hs =
        Gives->>= (λ v. v ≡ os) GoodOutcome _ (os, e, refl)
          λ v same.
            Gives->>= (λ v. v ≡ sample) GoodOutcome _
              (sample, ap (from_observations readings) same ∙ d, refl)
              λ w _. (_, refl, All-remove_key eqb GoodSample event.timestamp pending hs)

    built-returns :
        (pending : List (ℕ × PendingSample Value)) (built : Result (List (Observation Value)))
        (sample : TelemetrySample Value)
        → (built >>= from_observations readings) ≡ ok sample
        → All GoodSample pending
        → Gives GoodOutcome (
            built >>= λ observations. from_observations readings observations >>= λ made. ok (
              record buffer {
                pending = remove_key eqb event.timestamp pending;
                latest_processed_timestamp = some event.timestamp;
              },
              completed event.asset_id event.timestamp made ∷ [],
            ))
    built-returns pending (err raised) sample e hs = cc
    built-returns pending (ok os) sample e hs = complete-returns pending (ok os) os sample refl e hs

    close_sample-returns :
        (pending : List (ℕ × PendingSample Value)) (p : PendingSample Value)
        → All GoodSample pending
        → All (IsGood readings) p.values
        → Gives GoodOutcome (close_sample readings event buffer pending p)
    close_sample-returns pending p hs g =
        Gives-if GoodOutcome (not (is_empty (missing_of required_measurements p.values)))
          (λ e. (_, refl, All-set_key eqb GoodSample event.timestamp p pending (λ k. g) hs))
          (λ e.
            let (sample, made) =
              sample_total readings event.asset_id event.timestamp p.values g validated.0
                (ground (arith, e)) in
            built-returns pending _ sample made hs)

    ingest_pending-returns :
        (pending : List (ℕ × PendingSample Value)) (p : PendingSample Value)
        → All GoodSample pending
        → All (IsGood readings) p.values
        → (o : Option (Measured Value))
        → Gives GoodOutcome (record_measurement readings event buffer pending p o)
    ingest_pending-returns pending p hs g none =
        close_sample-returns pending (with_measurement readings event p) hs
          (All-append (IsGood readings) p.values _ g (validated.1, tt))
    ingest_pending-returns pending p hs g (some existing) =
        Gives-if GoodOutcome (equal existing.value event.value && (existing.unit == event.unit))
          (λ e. (_, refl, hs))
          (λ e. (_, refl, All-remove_key eqb GoodSample event.timestamp pending hs))

    GoodRoom : List (ℕ × PendingSample Value) × List (AssemblyOutcome Value) → Type 0
    GoodRoom (room, evicted) = All GoodSample room

    evict_oldest-returns :
        (pending : List (ℕ × PendingSample Value))
        → 1 ≤ length pending
        → All GoodSample pending
        → Gives GoodRoom (evict_oldest event.asset_id pending)
    unfolding GoodRoom
    evict_oldest-returns [] n hs = absurd (omega arith)
    evict_oldest-returns ((timestamp, p) ∷ ps) n hs = (_, refl, hs.1)

    make_room-returns :
        (max_buffered : ℕ) (pending : List (ℕ × PendingSample Value))
        → 1 ≤ max_buffered
        → All GoodSample pending
        → Gives GoodRoom (make_room max_buffered event.asset_id pending)
    unfolding make_room GoodRoom
    make_room-returns max_buffered pending n hs =
        Gives-if GoodRoom (ltb (length pending) max_buffered) (λ e. (_, refl, hs))
          (λ e. evict_oldest-returns pending (ground (arith, e)) hs)

    ingest_timestamp-returns :
        (max_buffered now : ℕ)
        → 1 ≤ max_buffered
        → All GoodSample buffer.pending
        → (o : Option (PendingSample Value)) → lookup eqb event.timestamp buffer.pending ≡ o
        → Gives GoodOutcome (ingest_timestamp readings max_buffered event now buffer o)
    unfolding GoodRoom
    ingest_timestamp-returns max_buffered now n hs (some p) e =
        ingest_pending-returns buffer.pending p hs
          (All-lookup eqb GoodSample event.timestamp buffer.pending p hs e).2 _
    ingest_timestamp-returns max_buffered now n hs none e =
        Gives->>= GoodRoom GoodOutcome _ (make_room-returns max_buffered buffer.pending n hs)
          λ (room, evicted) good.
            Gives->>= GoodOutcome GoodOutcome _
              (ingest_pending-returns (set_key eqb event.timestamp (fresh_sample readings now) room)
                (fresh_sample readings now)
                (All-set_key eqb GoodSample event.timestamp (fresh_sample readings now) room
                  (λ k. tt) good)
                tt none)
              λ (after, outcomes) kept. (_, refl, kept)

    ingest_buffer-returns :
        (max_buffered now : ℕ)
        → 1 ≤ max_buffered
        → All GoodSample buffer.pending
        → Gives GoodOutcome (ingest_buffer readings max_buffered event now buffer)
    unfolding ingest_buffer
    ingest_buffer-returns max_buffered now n hs =
        Gives-if GoodOutcome (is_late buffer.latest_processed_timestamp event.timestamp)
          (λ e. (_, refl, hs)) (λ e. ingest_timestamp-returns max_buffered now n hs _ refl)

  GoodFound : Found Value → Type 0
  GoodFound found = All GoodBuffer found.others × All GoodSample found.buffer.pending

  evict_first-returns :
      (now : ℕ) (l : List (String × AssetBuffer Value))
      → 1 ≤ length l
      → All GoodBuffer l
      → Gives GoodFound (evict_first l >>= new_buffer now)
  unfolding GoodFound
  evict_first-returns now [] n hs = absurd (omega arith)
  evict_first-returns now ((id, b) ∷ rest) n hs = (_, refl, (hs.1, tt))

  buffer_for-returns :
      (a : SampleAssembler Value) (asset_id : String) (now : ℕ)
      → IsBounded a
      → All GoodBuffer a.buffers
      → (o : Option (AssetBuffer Value)) → lookup ◌==◌ asset_id a.buffers ≡ o
      → Gives GoodFound (buffer_or_new a asset_id now o)
  unfolding GoodFound
  buffer_for-returns a asset_id now bounded hs (some b) e = (
    _,
    refl,
    (
      All-remove_key ◌==◌ GoodBuffer asset_id a.buffers hs,
      (All-lookup ◌==◌ GoodBuffer asset_id a.buffers b hs e).2,
    ),
  )
  buffer_for-returns a asset_id now bounded hs none e =
      elim (Bool-cases (leb a.max_assets (length a.buffers))) [
        | inl full ↦
            rw full
              (evict_first-returns now a.buffers (ground (arith, full, bounded.some_asset)) hs)
        | inr free ↦ rw free (_, refl, (hs, tt))
      ]

  GoodAfter : SampleAssembler Value × List (AssemblyOutcome Value) → Type 0
  GoodAfter (after, outcomes) = All GoodBuffer after.buffers

  ingest-good :
      (a : SampleAssembler Value) (event : TelemetryObservationEvent Value) (now : ℕ)
      → IsBounded a
      → All GoodBuffer a.buffers
      → IsValidated event
      → Gives GoodAfter (ingest readings a event now)
  unfolding ingest buffer_for GoodFound GoodAfter
  ingest-good a event now bounded hs validated =
      Gives->>= GoodFound GoodAfter _ (buffer_for-returns a event.asset_id now bounded hs _ refl)
        λ found good.
          Gives->>= GoodOutcome GoodAfter _
            (ingest_buffer-returns event validated
              (record found.buffer { last_active_monotonic = now }) a.max_buffered now
              bounded.some_sample good.1)
            λ (after, outcomes) kept. (
              _,
              refl,
              All-append GoodBuffer found.others ((event.asset_id, after) ∷ []) good.0 (kept, tt),
            )

-- Of an event that was validated and has an identifier, an assembler within its limits whose measurements
-- are all good raises nothing, and it stays such an assembler.
pub ingest-returns :
    (readings : Readings) (a : SampleAssembler readings.Value)
    (event : TelemetryObservationEvent readings.Value) (now : ℕ)
    → IsBounded a
    → All (GoodBuffer readings) a.buffers
    → IsValidated readings event
    → (after : SampleAssembler readings.Value) × (outcomes : List (AssemblyOutcome readings.Value))
      × (ingest readings a event now ≡ ok (after, outcomes))
      × IsBounded after
      × All (GoodBuffer readings) after.buffers
unfolding GoodAfter
ingest-returns readings a event now bounded hs validated =
    let ((after, outcomes), e, good) = ingest-good readings a event now bounded hs validated in
    (after, outcomes, e, (ingest-IsBounded readings a after event now outcomes bounded e).0, good)
