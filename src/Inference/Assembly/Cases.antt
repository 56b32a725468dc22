-- ===== src/Inference/Assembly/Cases.antt =====
-- What one event does to the buffer of its asset.
use odis.Inference.Telemetry.{
  Readings, TelemetrySample, required_measurements, missing_of, from_observations,
}
use odis.Inference.Assembly.{
  TelemetryObservationEvent, AssetBuffer, PendingSample, Measured, AssemblyOutcome, waiting,
  rejected, completed, observations_of, measurement_order, close_sample, record_measurement,
  ingest_pending, ingest_timestamp, ingest_buffer, make_room, evict_oldest, is_late, late,
  conflicting_duplicate, incomplete_timeout, with_measurement, fresh_sample,
}
use mathlib.Core.Path.{subst, fun_ext}
use odis.Prelude.Count.{bit}
use odis.Prelude.Dict.{
  lookup, has_key, remove_key, set_key, set_key-has_key, weigh, weigh-set_key, weigh-remove_key,
  weigh-set_key_new, lookup-none, lookup-has_key,
}
use odis.Prelude.{
  ◌+◌, ℕ, ◌≡◌, refl, true, not, ◌&&◌, Option, none, some, List, [], ◌∷◌, ◌==◌, eqb, length,
  is_empty, ◌<◌, false, eqb_iff, Bool, ◌++◌, arith, ltb, if◌then◌else◌, sym,
}
use odis.Prelude.Result.{OnOk, OnOk-if, OnOk->>=, Result, ok, OnOk-map, ◌>>=◌, err}

module _ (readings : Readings) where
  open readings use {Value, equal}

  abbrev Outcome : Type 0
  Outcome = AssetBuffer Value × List (AssemblyOutcome Value)

  -- An event that is recorded in a pending sample waits there, takes the sample away in conflict, or
  -- completes it, and then its timestamp is the latest processed.
  pub data IsSettled (event : TelemetryObservationEvent Value) (buffer : AssetBuffer Value)
      (n : (ℕ → Bool) → ℕ) : Outcome → Type 0 where
    waits :
        (after : AssetBuffer Value)
        → ((q : ℕ → Bool) → weigh eqb q after.pending ≡ n q)
        → after.latest_processed_timestamp ≡ buffer.latest_processed_timestamp
        → IsSettled event buffer n (after, waiting event.asset_id event.timestamp ∷ [])
    conflicts :
        (after : AssetBuffer Value)
        → ((q : ℕ → Bool) → bit (q event.timestamp) + weigh eqb q after.pending ≡ n q)
        → after.latest_processed_timestamp ≡ buffer.latest_processed_timestamp
        → IsSettled event buffer n
            (after, rejected conflicting_duplicate event.asset_id event.timestamp ∷ [])
    completes :
        (after : AssetBuffer Value) (sample : TelemetrySample Value)
        → ((q : ℕ → Bool) → bit (q event.timestamp) + weigh eqb q after.pending ≡ n q)
        → after.latest_processed_timestamp ≡ some event.timestamp
        → IsSettled event buffer n (after, completed event.asset_id event.timestamp sample ∷ [])

  module _ (event : TelemetryObservationEvent Value) (buffer : AssetBuffer Value)
      (pending : List (ℕ × PendingSample Value))
      (there : has_key eqb event.timestamp pending ≡ true) where
    same_time : (t : ℕ) → eqb t event.timestamp ≡ true → t ≡ event.timestamp
    same_time t e = (eqb_iff t event.timestamp).0 e

    close_sample-IsSettled :
        (p : PendingSample Value)
        → OnOk
            (IsSettled event buffer (λ q. weigh eqb q pending))
            (close_sample readings event buffer pending p)
    close_sample-IsSettled p =
        OnOk-if _ (not (is_empty (missing_of required_measurements p.values))) _ _
          (λ e.
            waits (record buffer { pending = set_key eqb event.timestamp p pending })
              (λ q. weigh-set_key eqb q event.timestamp p pending there) refl)
          (λ e.
            OnOk->>= _
              (observations_of readings event.asset_id event.timestamp p.values measurement_order) _
              λ observations built.
                OnOk->>= _ (from_observations readings observations) _ λ sample made.
                  completes
                    (record buffer {
                      pending = remove_key eqb event.timestamp pending;
                      latest_processed_timestamp = some event.timestamp;
                    })
                    sample (λ q. weigh-remove_key eqb q event.timestamp pending same_time there)
                    refl)

    record_measurement-IsSettled :
        (p : PendingSample Value) (o : Option (Measured Value))
        → OnOk
            (IsSettled event buffer (λ q. weigh eqb q pending))
            (record_measurement readings event buffer pending p o)
    record_measurement-IsSettled p none = close_sample-IsSettled (with_measurement readings event p)
    record_measurement-IsSettled p (some existing) =
        OnOk-if _ (equal existing.value event.value && (existing.unit == event.unit)) _ _
          (λ e. waits (record buffer { pending = pending }) (λ q. refl) refl)
          (λ e.
            conflicts (record buffer { pending = remove_key eqb event.timestamp pending })
              (λ q. weigh-remove_key eqb q event.timestamp pending same_time there) refl)

    pub ingest_pending-IsSettled :
        (p : PendingSample Value)
        → OnOk
            (IsSettled event buffer (λ q. weigh eqb q pending))
            (ingest_pending readings event buffer pending p)
    ingest_pending-IsSettled p =
        record_measurement-IsSettled p (lookup ◌==◌ event.measurement_name p.values)

  -- What one event does to its buffer: it is too late for it, it finds its timestamp there, it opens a
  -- sample where there is room, or it opens one in place of the oldest.
  pub data Ingests (max_buffered : ℕ) (event : TelemetryObservationEvent Value)
      (buffer : AssetBuffer Value) : Outcome → Type 0 where
    too_late :
        is_late buffer.latest_processed_timestamp event.timestamp ≡ true
        → Ingests max_buffered event buffer
            (buffer, rejected late event.asset_id event.timestamp ∷ [])
    finds :
        {after : AssetBuffer Value} {outcomes : List (AssemblyOutcome Value)}
        → is_late buffer.latest_processed_timestamp event.timestamp ≡ false
        → has_key eqb event.timestamp buffer.pending ≡ true
        → IsSettled event buffer (λ q. weigh eqb q buffer.pending) (after, outcomes)
        → Ingests max_buffered event buffer (after, outcomes)
    opens :
        {after : AssetBuffer Value} {outcomes : List (AssemblyOutcome Value)}
        → is_late buffer.latest_processed_timestamp event.timestamp ≡ false
        → has_key eqb event.timestamp buffer.pending ≡ false
        → length buffer.pending < max_buffered
        → IsSettled event buffer
            (λ q. bit (q event.timestamp) + weigh eqb q buffer.pending)
            (after, outcomes)
        → Ingests max_buffered event buffer (after, outcomes)
    replaces :
        {after : AssetBuffer Value} {outcomes : List (AssemblyOutcome Value)} (oldest : ℕ)
        (p : PendingSample Value) (rest : List (ℕ × PendingSample Value))
        → buffer.pending ≡ (oldest, p) ∷ rest
        → is_late buffer.latest_processed_timestamp event.timestamp ≡ false
        → has_key eqb event.timestamp buffer.pending ≡ false
        → IsSettled event buffer (λ q. bit (q event.timestamp) + weigh eqb q rest) (after, outcomes)
        → Ingests max_buffered event buffer
            (after, rejected incomplete_timeout event.asset_id oldest ∷ outcomes)

  module _ (max_buffered : ℕ) (event : TelemetryObservationEvent Value) (now : ℕ)
      (buffer : AssetBuffer Value)
      (on_time : is_late buffer.latest_processed_timestamp event.timestamp ≡ false) where
    -- Behind `_make_room`, which left `room`.
    in_room :
        (room : List (ℕ × PendingSample Value))
        → has_key eqb event.timestamp room ≡ false
        → OnOk (IsSettled event buffer (λ q. bit (q event.timestamp) + weigh eqb q room)) (
            ingest_pending readings event buffer
              (set_key eqb event.timestamp (fresh_sample readings now) room)
              (fresh_sample readings now))
    in_room room free =
        subst
          (λ n.
            OnOk (IsSettled event buffer n)
              (ingest_pending readings event buffer opened (fresh_sample readings now)))
          (fun_ext
            λ q. weigh-set_key_new eqb q event.timestamp (fresh_sample readings now) room free)
          (ingest_pending-IsSettled event buffer opened
            (set_key-has_key eqb event.timestamp (fresh_sample readings now) room
              ((eqb_iff event.timestamp event.timestamp).1 refl))
            (fresh_sample readings now))
      where
        opened : List (ℕ × PendingSample Value)
        opened = set_key eqb event.timestamp (fresh_sample readings now) room

    -- What was evicted comes before what the recording gives.
    reported :
        (n : (ℕ → Bool) → ℕ) (evicted : List (AssemblyOutcome Value)) (m : Result Outcome)
        → ((after : AssetBuffer Value) (outcomes : List (AssemblyOutcome Value))
            → IsSettled event buffer n (after, outcomes)
            → Ingests max_buffered event buffer (after, evicted ++ outcomes))
        → OnOk (IsSettled event buffer n) m
        → OnOk
            (Ingests max_buffered event buffer)
            (m >>= λ (after, outcomes). ok (after, evicted ++ outcomes))
    reported n evicted (err raised) f h = tt
    reported n evicted (ok (after, outcomes)) f h = f after outcomes h

    behind_room :
        (l : List (ℕ × PendingSample Value)) (b : Bool)
        → buffer.pending ≡ l
        → has_key eqb event.timestamp l ≡ false
        → ltb (length l) max_buffered ≡ b
        → OnOk (Ingests max_buffered event buffer) (
            (if b then ok (l, []) else evict_oldest event.asset_id l) >>= λ (room, evicted).
            ingest_pending readings event buffer
              (set_key eqb event.timestamp (fresh_sample readings now) room)
              (fresh_sample readings now)
            >>= λ (after, outcomes). ok (after, evicted ++ outcomes))
    behind_room l true e free fits =
        reported (λ q. bit (q event.timestamp) + weigh eqb q l) [] _
          (λ after outcomes s. opens on_time (rw e free) (rw e (ground (arith, fits))) (
            subst
              (λ x.
                IsSettled event buffer (λ q. bit (q event.timestamp) + weigh eqb q x)
                  (after, outcomes))
              (sym e) s))
          (in_room l free)
    behind_room [] false e free fits = tt
    behind_room ((oldest, p) ∷ rest) false e free fits =
        reported (λ q. bit (q event.timestamp) + weigh eqb q rest)
          (rejected incomplete_timeout event.asset_id oldest ∷ []) _
          (λ after outcomes s. replaces oldest p rest e on_time (rw e free) s)
          (in_room rest (ground (arith, free)))

    ingest_timestamp-Ingests :
        (o : Option (PendingSample Value))
        → lookup eqb event.timestamp buffer.pending ≡ o
        → OnOk
            (Ingests max_buffered event buffer)
            (ingest_timestamp readings max_buffered event now buffer o)
    unfolding make_room
    ingest_timestamp-Ingests none e =
        behind_room buffer.pending (ltb (length buffer.pending) max_buffered) refl
          (lookup-none eqb event.timestamp buffer.pending e) refl
    ingest_timestamp-Ingests (some p) e =
        let there = lookup-has_key eqb event.timestamp buffer.pending p e in
        OnOk-map (IsSettled event buffer (λ q. weigh eqb q buffer.pending)) _
          (ingest_pending readings event buffer buffer.pending p)
          (λ (after, outcomes) s. finds on_time there s)
          (ingest_pending-IsSettled event buffer buffer.pending there p)

  pub ingest_buffer-Ingests :
      (max_buffered : ℕ) (event : TelemetryObservationEvent Value) (now : ℕ)
      (buffer : AssetBuffer Value)
      → OnOk
          (Ingests max_buffered event buffer)
          (ingest_buffer readings max_buffered event now buffer)
  unfolding ingest_buffer
  ingest_buffer-Ingests max_buffered event now buffer =
      OnOk-if _ (is_late buffer.latest_processed_timestamp event.timestamp) _ _ (λ e. too_late e)
        (λ e. ingest_timestamp-Ingests max_buffered event now buffer e _ refl)
