-- ===== src/Inference/Assembly/Sweep.antt =====
-- The sweep of the samples that have waited too long.
use odis.Inference.Assembly.{
  AssetBuffer, PendingSample, AssemblyOutcome, SampleAssembler, is_expired, unexpired, expired,
  sweep_buffers, sweep_timeouts,
}
use odis.Inference.Assembly.Bounds.{IsBounded, pending_of, ends_of}
use odis.Prelude.Dict.{weigh, length-weigh}
use odis.Prelude.Count.{count, count-append}
use odis.Prelude.{
  Bool, true, eqb, ℕ, ◌+◌, ◌<◌, String, ◌≡◌, refl, inl, inr, List, [], ◌∷◌, arith, Bool-cases,
  length, All, ◌≤◌,
}
use odis.Inference.Telemetry.{Readings}

module _ {Value : Type 0} (timeout_seconds now : ℕ) where
  IsCurrent : ℕ × PendingSample Value → Type 0
  IsCurrent (timestamp, p) = now < p.first_seen_monotonic + timeout_seconds

  -- What stays of a buffer is current, and with what is reported it is all of it.
  swept :
      (q : String → ℕ → Bool) (id : String) (ps : List (ℕ × PendingSample Value))
      → All IsCurrent (unexpired timeout_seconds now id ps)
        × (weigh eqb (q id) (unexpired timeout_seconds now id ps)
              + count (ends_of q) (expired timeout_seconds now id ps)
            ≡ weigh eqb (q id) ps)
  unfolding IsCurrent
  swept q id [] = (tt, refl)
  swept q id ((timestamp, p) ∷ ps) = elim (Bool-cases (is_expired timeout_seconds now id p)) [
    | inl e ↦ rw e (let (c, n) = swept q id ps in (c, omega (arith, n)))
    | inr e ↦ rw e (let (c, n) = swept q id ps in ((ground (arith, e), c), omega (arith, n)))
  ]

-- No sample that has waited for the timeout is pending.
unfoldable pub HasCurrent : {Value : Type 0} → ℕ → ℕ → String × AssetBuffer Value → Type 0
unfolding IsCurrent
HasCurrent timeout_seconds now (asset_id, buffer) =
    All (IsCurrent timeout_seconds now) buffer.pending

module _ (readings : Readings) (timeout_seconds now : ℕ) where
  open readings use {Value}

  Swept :
      ℕ
      → List (String × AssetBuffer Value)
      → List (String × AssetBuffer Value) × List (AssemblyOutcome Value)
      → Type 0
  Swept max_buffered buffers (after, outcomes) =
      All (HasCurrent timeout_seconds now) after
      × (length after ≡ length buffers)
      × ((q : String → ℕ → Bool)
          → pending_of q after + count (ends_of q) outcomes ≡ pending_of q buffers)
      × All (λ (id, buffer). length buffer.pending ≤ max_buffered) after

  sweep_buffers-Swept :
      (max_buffered : ℕ) (buffers : List (String × AssetBuffer Value))
      → All (λ (id, buffer). length buffer.pending ≤ max_buffered) buffers
      → Swept max_buffered buffers (sweep_buffers readings timeout_seconds now buffers)
  unfolding Swept HasCurrent
  sweep_buffers-Swept max_buffered [] hs = (tt, refl, λ q. refl, tt)
  sweep_buffers-Swept max_buffered ((id, b) ∷ bs) hs =
      let (current, size, balance, samples) = sweep_buffers-Swept max_buffered bs hs.1 in
      let ps = unexpired timeout_seconds now id b.pending in
      let (c, all_of_it) = swept timeout_seconds now (λ i t. true) id b.pending in
      (
        (c, current),
        omega (arith, size),
        λ q. omega (
          arith,
          balance q,
          (swept timeout_seconds now q id b.pending).1,
          count-append (ends_of q) (expired timeout_seconds now id b.pending)
              (sweep_buffers readings timeout_seconds now bs).1,
        ),
        (omega (arith, all_of_it, hs.0, length-weigh eqb ps, length-weigh eqb b.pending), samples),
      )

-- A sweep keeps the assembler within its limits, leaves no sample that has waited for the timeout, and
-- reports each sample that goes with its asset and its time: for each test of an asset and a time, the
-- samples that pass and are pending after it and those that are reported are as many as those before.
pub sweep_timeouts-IsBounded :
    (readings : Readings) (a : SampleAssembler readings.Value) (now : ℕ)
    → IsBounded a
    → IsBounded (sweep_timeouts readings a now).0
      × All (HasCurrent a.timeout_seconds now) (sweep_timeouts readings a now).0.buffers
      × ((q : String → ℕ → Bool)
          → pending_of q (sweep_timeouts readings a now).0.buffers
              + count (ends_of q) (sweep_timeouts readings a now).1
            ≡ pending_of q a.buffers)
unfolding sweep_timeouts Swept
sweep_timeouts-IsBounded readings a now bounded =
    let (current, size, balance, samples) =
      sweep_buffers-Swept readings a.timeout_seconds now a.max_buffered a.buffers bounded.samples in
    (
      record {
        some_asset = bounded.some_asset;
        some_sample = bounded.some_sample;
        assets = omega (arith, size, bounded.assets);
        samples = samples;
      },
      current,
      balance,
    )
