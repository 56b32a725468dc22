-- ===== src/Inference/Assembly/Bounds.antt =====
-- The bounds of the assembler, and that it drops no pending sample in silence.
use odis.Inference.Telemetry.{Readings}
use odis.Inference.Assembly.{
  TelemetryObservationEvent, AssetBuffer, PendingSample, AssemblyOutcome, SampleAssembler,
  AssemblyStatus, RejectionReason, pending_sample, complete_sample, rejected_sample, late, is_late,
  ingest, ingest_buffer, buffer_for, buffer_or_new, new_buffer, evict_first, Found, empty_buffer,
  reject_all,
}
use odis.Inference.Assembly.Cases.{
  IsSettled, waits, conflicts, completes, Ingests, too_late, finds, opens, replaces,
  ingest_buffer-Ingests,
}
use mathlib.Core.Path.{subst}
use odis.Prelude.Dict.{
  lookup, has_key, remove_key, length-remove_key, lookup-has_key, All-remove_key, All-lookup, weigh,
  length-weigh,
}
use odis.Prelude.Count.{count, bit, count-append}
use odis.Prelude.{
  ℕ, ◌+◌, ◌≤◌, max, String, ◌≡◌, Bool, true, false, not, Option, some, List, [], ◌∷◌, arith, eqb,
  if◌then◌else◌, length, All, suc, refl, sym, ap, inl, inr, ◌++◌, ◌==◌, Bool-cases, if-eq-some,
  none, leb, length-append, All-append, ◌&&◌, eq_iff,
}
use odis.Prelude.Result.{OnOk, ◌>>=◌, ok, OnOk-ok, OnOk->>=}

module _ {Value : Type 0} where
  -- The limits are positive, no more assets are tracked than allowed, and no asset has more pending samples
  -- than allowed.
  pub record IsBounded (a : SampleAssembler Value) : Type 0 where
    pub some_asset : 1 ≤ a.max_assets
    pub some_sample : 1 ≤ a.max_buffered
    pub assets : length a.buffers ≤ a.max_assets
    pub samples : All (λ (id, buffer). length buffer.pending ≤ a.max_buffered) a.buffers

  -- How many of the pending samples are of an asset and a time that pass a test.
  abbrev pub pending_of : (String → ℕ → Bool) → List (String × AssetBuffer Value) → ℕ
  pending_of q [] = 0
  pending_of q ((asset_id, buffer) ∷ buffers) =
      weigh eqb (q asset_id) buffer.pending + pending_of q buffers

  -- The outcome reports the end of a pending sample.
  abbrev pub is_ending : AssemblyOutcome Value → Bool
  is_ending outcome = ends outcome.status outcome.reason
    where
      ends : AssemblyStatus → Option RejectionReason → Bool
      ends pending_sample reason = false
      ends complete_sample reason = true
      ends rejected_sample (some late) = false
      ends rejected_sample _ = true

  -- The outcome reports the end of a pending sample of an asset and a time that pass a test.
  abbrev pub ends_of : (String → ℕ → Bool) → AssemblyOutcome Value → Bool
  ends_of q outcome = is_ending outcome && q outcome.asset_id outcome.source_timestamp

  -- The event opens a pending sample in the buffer.
  abbrev pub opens_sample : TelemetryObservationEvent Value → AssetBuffer Value → Bool
  opens_sample event buffer =
      if is_late buffer.latest_processed_timestamp event.timestamp
      then false
      else not (has_key eqb event.timestamp buffer.pending)

module _ (readings : Readings) where
  open readings use {Value}

  settled-balance :
      {event : TelemetryObservationEvent Value} {buffer after : AssetBuffer Value}
      {n : (ℕ → Bool) → ℕ} {outcomes : List (AssemblyOutcome Value)} (q : String → ℕ → Bool)
      → IsSettled readings event buffer n (after, outcomes)
      → weigh eqb (q event.asset_id) after.pending + count (ends_of q) outcomes
        ≡ n (q event.asset_id)
  settled-balance {event} q (waits after h l) = omega (arith, h (q event.asset_id))
  settled-balance {event} q (conflicts after h l) = omega (arith, h (q event.asset_id))
  settled-balance {event} q (completes after sample h l) = omega (arith, h (q event.asset_id))

  settled-le :
      {event : TelemetryObservationEvent Value} {buffer after : AssetBuffer Value}
      {n : (ℕ → Bool) → ℕ} {outcomes : List (AssemblyOutcome Value)}
      → IsSettled readings event buffer n (after, outcomes)
      → length after.pending ≤ n (λ t. true)
  settled-le (waits after h l) = omega (arith, h (λ t. true), length-weigh eqb after.pending)
  settled-le (conflicts after h l) = omega (arith, h (λ t. true), length-weigh eqb after.pending)
  settled-le (completes after sample h l) =
      omega (arith, h (λ t. true), length-weigh eqb after.pending)

  -- The samples that stay and the endings that are reported are the samples before, and the one opened.
  pub ingests-balance :
      {max_buffered : ℕ} {event : TelemetryObservationEvent Value}
      {buffer after : AssetBuffer Value} {outcomes : List (AssemblyOutcome Value)}
      (q : String → ℕ → Bool)
      → Ingests readings max_buffered event buffer (after, outcomes)
      → weigh eqb (q event.asset_id) after.pending + count (ends_of q) outcomes
        ≡ weigh eqb (q event.asset_id) buffer.pending
          + bit (opens_sample event buffer && q event.asset_id event.timestamp)
  ingests-balance q (too_late e) = rw e (omega arith)
  ingests-balance q (finds e h s) = rw (e, h) (omega (arith, settled-balance q s))
  ingests-balance q (opens e h fits s) = rw (e, h) (omega (arith, settled-balance q s))
  ingests-balance {event} q (replaces oldest p rest w e h s) =
      rw (e, h) (omega (arith, settled-balance q s, ap (weigh eqb (q event.asset_id)) w))

  pub ingests-le :
      {max_buffered : ℕ} {event : TelemetryObservationEvent Value}
      {buffer after : AssetBuffer Value} {outcomes : List (AssemblyOutcome Value)}
      → Ingests readings max_buffered event buffer (after, outcomes)
      → length after.pending ≤ max max_buffered (length buffer.pending)
  ingests-le (too_late e) = omega arith
  ingests-le {buffer} (finds e h s) = omega (arith, settled-le s, length-weigh eqb buffer.pending)
  ingests-le {buffer} (opens e h fits s) =
      omega (arith, settled-le s, fits, length-weigh eqb buffer.pending)
  ingests-le {buffer} (replaces oldest p rest w e h s) =
      omega (arith, settled-le s, length-weigh eqb rest, ap length w)

module _ {Value : Type 0} where
  count-reject_all :
      (q : String → ℕ → Bool) (id : String) (ps : List (ℕ × PendingSample Value))
      → count (ends_of q) (reject_all id ps) ≡ weigh eqb (q id) ps
  count-reject_all q id [] = refl
  count-reject_all q id ((t, p) ∷ ps) = omega (arith, count-reject_all q id ps)

  pending_of-append :
      (q : String → ℕ → Bool) (buffers : List (String × AssetBuffer Value)) (id : String)
      (b : AssetBuffer Value)
      → pending_of q (buffers ++ ((id, b) ∷ [])) ≡ pending_of q buffers + weigh eqb (q id) b.pending
  pending_of-append q [] id b = omega arith
  pending_of-append q ((i, c) ∷ buffers) id b = omega (arith, pending_of-append q buffers id b)

  pending_of-remove_key :
      (q : String → ℕ → Bool) (id : String) (buffers : List (String × AssetBuffer Value))
      (b : AssetBuffer Value)
      → lookup ◌==◌ id buffers ≡ some b
      → pending_of q (remove_key ◌==◌ id buffers) + weigh eqb (q id) b.pending
        ≡ pending_of q buffers
  pending_of-remove_key q id [] b h = cc
  pending_of-remove_key q id ((i, c) ∷ buffers) b h =
      elim (if-eq-some (i == id) c (lookup ◌==◌ id buffers) h) [
        | inl (e, same) ↦ rw (e, (eq_iff i id).0 e, sym same) (omega arith)
        | inr (e, same) ↦ rw e (omega (arith, pending_of-remove_key q id buffers b same))
      ]

  -- The buffer that an asset has, or a new one.
  abbrev pub buffer_or_empty : ℕ → Option (AssetBuffer Value) → AssetBuffer Value
  buffer_or_empty now none = empty_buffer now
  buffer_or_empty now (some buffer) = buffer

  module _ (a : SampleAssembler Value) (now : ℕ) (bounded : IsBounded a) where
    unfoldable pub Fits : String × AssetBuffer Value → Type 0
    Fits (id, buffer) = length buffer.pending ≤ a.max_buffered

    -- The buffer found is `buffer`; with those beside it and the endings reported it accounts for all.
    pub record IsFound (asset_id : String) (buffer : AssetBuffer Value) (found : Found Value)
        : Type 0 where
      pub same : found.buffer ≡ buffer
      pub fits : suc (length found.others) ≤ a.max_assets
      pub samples : All Fits found.others
      pub in_bounds : length buffer.pending ≤ a.max_buffered
      pub balance :
          (q : String → ℕ → Bool)
          → pending_of q found.others
              + weigh eqb (q asset_id) buffer.pending
              + count (ends_of q) found.evicted
            ≡ pending_of q a.buffers

    evict_first-IsFound :
        (asset_id : String) (l : List (String × AssetBuffer Value))
        → a.buffers ≡ l
        → a.max_assets ≤ length l
        → OnOk (IsFound asset_id (empty_buffer now)) (evict_first l >>= new_buffer now)
    unfolding Fits
    evict_first-IsFound asset_id [] e full = tt
    evict_first-IsFound asset_id ((i, c) ∷ rest) e full = record {
      same = refl;
      fits = omega (arith, full, bounded.assets, ap length e);
      samples = (subst (All Fits) e bounded.samples).1;
      in_bounds = omega arith;
      balance = λ q. omega (arith, count-reject_all q i c.pending, ap (pending_of q) e);
    }

    buffer_or_new-IsFound :
        (asset_id : String) (o : Option (AssetBuffer Value))
        → lookup ◌==◌ asset_id a.buffers ≡ o
        → OnOk (IsFound asset_id (buffer_or_empty now o)) (buffer_or_new a asset_id now o)
    unfolding Fits
    buffer_or_new-IsFound asset_id (some b) e = record {
      same = refl;
      fits = omega (
        arith,
        bounded.assets,
        length-remove_key ◌==◌ asset_id a.buffers (lookup-has_key ◌==◌ asset_id a.buffers b e),
      );
      samples = All-remove_key ◌==◌ Fits asset_id a.buffers bounded.samples;
      in_bounds = (All-lookup ◌==◌ Fits asset_id a.buffers b bounded.samples e).2;
      balance = λ q. omega (arith, pending_of-remove_key q asset_id a.buffers b e);
    }
    buffer_or_new-IsFound asset_id none e =
        elim (Bool-cases (leb a.max_assets (length a.buffers))) [
          | inl full ↦ rw full (evict_first-IsFound asset_id a.buffers refl (ground (arith, full)))
          | inr free ↦ rw free (record {
            same = refl;
            fits = ground (arith, free);
            samples = bounded.samples;
            in_bounds = omega arith;
            balance = λ q. omega arith;
          })
        ]

-- Whether an event opens a pending sample.
abbrev pub opened :
    {Value : Type 0} → SampleAssembler Value → TelemetryObservationEvent Value → ℕ → Bool
opened a event now = opens_sample event (buffer_or_empty now (lookup ◌==◌ event.asset_id a.buffers))

-- Of each asset and each time, the samples pending after an event and the endings reported are together
-- those pending before it and the one that it opens.
abbrev pub Balances :
    {Value : Type 0}
    → SampleAssembler Value
    → TelemetryObservationEvent Value
    → ℕ
    → SampleAssembler Value × List (AssemblyOutcome Value)
    → Type 0
Balances a event now (after, outcomes) =
    (q : String → ℕ → Bool)
    → pending_of q after.buffers + count (ends_of q) outcomes
      ≡ pending_of q a.buffers + bit (opened a event now && q event.asset_id event.timestamp)

abbrev Keeps :
    {Value : Type 0}
    → SampleAssembler Value
    → TelemetryObservationEvent Value
    → ℕ
    → SampleAssembler Value × List (AssemblyOutcome Value)
    → Type 0
Keeps a event now (after, outcomes) =
    IsBounded after
    × (after.max_assets ≡ a.max_assets)
    × (after.max_buffered ≡ a.max_buffered)
    × Balances a event now (after, outcomes)

module _ (readings : Readings) (a : SampleAssembler readings.Value)
    (event : TelemetryObservationEvent readings.Value) (now : ℕ) (bounded : IsBounded a) where
  open readings use {Value}

  put_back :
      (found : Found Value) (after : AssetBuffer Value) (outcomes : List (AssemblyOutcome Value))
      → IsFound a now bounded event.asset_id
          (buffer_or_empty now (lookup ◌==◌ event.asset_id a.buffers))
          found
      → Ingests readings a.max_buffered event
          (record found.buffer { last_active_monotonic = now })
          (after, outcomes)
      → Keeps a event now (
        record a { buffers = found.others ++ ((event.asset_id, after) ∷ []) },
        found.evicted ++ outcomes,
      )
  unfolding Fits
  put_back found after outcomes f s =
      let size = ap (λ (b : AssetBuffer Value). length b.pending) f.same in
      let within : length after.pending ≤ a.max_buffered =
        omega (arith, ingests-le readings s, size, f.in_bounds) in
      (
        record {
          some_asset = bounded.some_asset;
          some_sample = bounded.some_sample;
          assets = omega (arith, f.fits, length-append found.others ((event.asset_id, after) ∷ []));
          samples = All-append _ found.others ((event.asset_id, after) ∷ []) f.samples (within, tt);
        },
        refl,
        refl,
        λ q. omega (
          arith,
          ingests-balance readings q s,
          ap
              (λ (b : AssetBuffer Value).
                bit (opens_sample event b && q event.asset_id event.timestamp))
              f.same,
          ap (λ (b : AssetBuffer Value). weigh eqb (q event.asset_id) b.pending) f.same,
          f.balance q,
          pending_of-append q found.others event.asset_id after,
          count-append (ends_of q) found.evicted outcomes,
        ),
      )

-- An event leaves the limits as they were and the assembler within them, and every pending sample that
-- goes is reported with its asset and its time: for each test of an asset and a time, the samples that pass
-- and are pending after it, and those whose completion, conflict, timeout or eviction is reported, are
-- together as many as those pending before it and the one that the event opens.
pub ingest-IsBounded :
    (readings : Readings) (a after : SampleAssembler readings.Value)
    (event : TelemetryObservationEvent readings.Value) (now : ℕ)
    (outcomes : List (AssemblyOutcome readings.Value))
    → IsBounded a
    → ingest readings a event now ≡ ok (after, outcomes)
    → IsBounded after
      × (after.max_assets ≡ a.max_assets)
      × (after.max_buffered ≡ a.max_buffered)
      × Balances a event now (after, outcomes)
unfolding ingest buffer_for
ingest-IsBounded readings a after event now outcomes bounded h = OnOk-ok (Keeps a event now) h (
    OnOk->>= _ (buffer_for a event.asset_id now) _ λ found e.
      OnOk->>= _
        (ingest_buffer readings a.max_buffered event now
          (record found.buffer { last_active_monotonic = now }))
        _
        λ (buffer, reported) d.
          put_back readings a event now bounded found buffer reported
            (OnOk-ok _ e (buffer_or_new-IsFound a now bounded event.asset_id _ refl))
            (OnOk-ok _ d (ingest_buffer-Ingests readings a.max_buffered event now _)))
