-- ===== src/Inference/Assembly/Latest.antt =====
-- The latest timestamp that an asset's buffer has processed.
use odis.Inference.Telemetry.{Readings}
use odis.Inference.Assembly.{
  TelemetryObservationEvent, AssetBuffer, AssemblyOutcome, AssemblyStatus, complete_sample, is_late,
  ingest_buffer,
}
use odis.Inference.Assembly.Cases.{
  IsSettled, waits, conflicts, completes, Ingests, too_late, finds, opens, replaces,
  ingest_buffer-Ingests,
}
use odis.Prelude.Count.{count}
use odis.Prelude.{
  ℕ, ◌<◌, ◌≡◌, refl, ◌⊎◌, inl, inr, Bool, true, false, Option, none, some, List, arith,
}
use odis.Prelude.Result.{ok, OnOk-ok}

-- The timestamp comes behind the latest one, where there is one.
abbrev pub Follows : ℕ → Option ℕ → Type 0
Follows timestamp none = Unit
Follows timestamp (some latest) = latest < timestamp

abbrev pub is_complete : {Value : Type 0} → AssemblyOutcome Value → Bool
is_complete outcome = completed outcome.status
  where
    completed : AssemblyStatus → Bool
    completed complete_sample = true
    completed _ = false

-- How the latest timestamp moves with the samples that are completed.
abbrev pub Moves :
    {Value : Type 0}
    → TelemetryObservationEvent Value
    → AssetBuffer Value
    → AssetBuffer Value × List (AssemblyOutcome Value)
    → Type 0
Moves event buffer (after, outcomes) =
    ((count is_complete outcomes ≡ 0)
      × (after.latest_processed_timestamp ≡ buffer.latest_processed_timestamp))
    ⊎ ((count is_complete outcomes ≡ 1)
        × (after.latest_processed_timestamp ≡ some event.timestamp)
        × Follows event.timestamp buffer.latest_processed_timestamp)

on_time-Follows :
    (latest : Option ℕ) (timestamp : ℕ)
    → is_late latest timestamp ≡ false
    → Follows timestamp latest
on_time-Follows none timestamp h = tt
on_time-Follows (some latest) timestamp h = ground (arith, h)

module _ (readings : Readings) where
  open readings use {Value}

  settled-Moves :
      {event : TelemetryObservationEvent Value} {buffer : AssetBuffer Value} {n : (ℕ → Bool) → ℕ}
      {outcome : AssetBuffer Value × List (AssemblyOutcome Value)}
      → Follows event.timestamp buffer.latest_processed_timestamp
      → IsSettled readings event buffer n outcome
      → Moves event buffer outcome
  settled-Moves f (waits after h l) = inl (refl, l)
  settled-Moves f (conflicts after h l) = inl (refl, l)
  settled-Moves f (completes after sample h l) = inr (refl, l, f)

  ingests-Moves :
      {max_buffered : ℕ} {event : TelemetryObservationEvent Value} {buffer : AssetBuffer Value}
      {outcome : AssetBuffer Value × List (AssemblyOutcome Value)}
      → Ingests readings max_buffered event buffer outcome
      → Moves event buffer outcome
  ingests-Moves (too_late e) = inl (refl, refl)
  ingests-Moves (finds e h s) = settled-Moves (on_time-Follows _ _ e) s
  ingests-Moves (opens e h fits s) = settled-Moves (on_time-Follows _ _ e) s
  ingests-Moves (replaces oldest p rest w e h s) = elim (settled-Moves (on_time-Follows _ _ e) s) [
    | inl (c, l) ↦ inl (omega (arith, c), l)
    | inr (c, l, f) ↦ inr (omega (arith, c), l, f)
  ]

-- An event completes one sample of its asset's buffer or none. Where it completes one, its timestamp comes
-- behind every timestamp processed before and is the latest now; otherwise the latest stays.
pub ingest_buffer-Moves :
    (readings : Readings) (max_buffered : ℕ) (event : TelemetryObservationEvent readings.Value)
    (now : ℕ) (buffer : AssetBuffer readings.Value)
    (outcome : AssetBuffer readings.Value × List (AssemblyOutcome readings.Value))
    → ingest_buffer readings max_buffered event now buffer ≡ ok outcome
    → Moves event buffer outcome
ingest_buffer-Moves readings max_buffered event now buffer outcome h = ingests-Moves readings (
    OnOk-ok (Ingests readings max_buffered event buffer) h
      (ingest_buffer-Ingests readings max_buffered event now buffer))
