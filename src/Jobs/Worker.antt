-- ===== src/Jobs/Worker.antt =====
-- backend/app/application/reasoning_worker.py: `process_next` on the job table. What the run of the
-- reasoning does for an asset and what the dispatch of the outbox does are parameters, which may
-- raise. `id` and `id'` are the identifiers for the follow-ups. A raise before a commit leaves the
-- table as it was.
use mathlib.Core.Path.{subst}
use odis.Jobs.Table.{
  ReasoningJob, Table, claim_oldest_pending, complete_and_reschedule, fail_and_reschedule,
  oldest_pending, find_row, is_outstanding, has_id, outstanding_of, failed, completed, update_rows,
  start, is_pending,
}
use odis.Jobs.Table.Invariant.{IsValid, claim-IsValid, finish-IsValid, refail-IsValid}
use odis.Prelude.Result.{Result, ok, err, Error, ◌>>=◌}
use odis.Prelude.{ℕ, String, ◌≡◌, refl, ◌∙◌, Bool, true, false, none, some, Option, ap}
use odis.Prelude.Count.{count, bit}
use odis.Jobs.Table.Rows.{oldest_pending-Mem, find-updated, Mem-find_row, count-same}

-- The `except` branch: `fail`, commit, and raise again.
abbrev fail_and_raise : Table → Error → Result Table → Table × Result Bool
fail_and_raise before e (ok t) = (t, err e)
fail_and_raise before e (err e') = (before, err e')

-- The `try` of a claimed job, from what its work and the dispatch behind the commit return.
unfoldable pub process_job :
    Result (Unit {0})
    → Result (Unit {0})
    → String
    → String
    → ℕ
    → Table
    → ReasoningJob
    → Table
    → Table × Result Bool
process_job (err e) dispatched id id' now before j t =
    fail_and_raise before e (fail_and_reschedule id' now j.id t)
process_job (ok _) dispatched id id' now before j t = elim (complete_and_reschedule id now j.id t) [
  | err e ↦ fail_and_raise before e (fail_and_reschedule id' now j.id t)
  | ok t' ↦ elim dispatched [
    | ok _ ↦ (t', ok true)
    | err e ↦ fail_and_raise t' e (fail_and_reschedule id' now j.id t')
  ]
]

unfoldable pub process_next :
    (String → Result (Unit {0}))
    → Result (Unit {0})
    → String
    → String
    → ℕ
    → Table
    → Table × Result Bool
unfolding process_job claim_oldest_pending
process_next work dispatched id id' now t = elim (claim_oldest_pending now t).0 [
  | none ↦ (t, ok false)
  | some j ↦ process_job (work j.asset_id) dispatched id id' now t j (claim_oldest_pending now t).1
]

-- What a run of `process_next` owes to the table: the claimed job `j`, and what was to be raised.
abbrev pub Settled : ReasoningJob → Result Bool → Table × Result Bool → Type 0
Settled j returned r =
    IsValid r.0 × (count (outstanding_of j.asset_id) r.0 ≡ bit j.dirty) × (r.1 ≡ returned)

process_job-IsValid :
    (worked dispatched : Result (Unit {0})) (id id' : String) (now : ℕ) (before t : Table)
    (j : ReasoningJob)
    → IsValid t
    → find_row j.id t ≡ some j
    → is_outstanding j.status ≡ true
    → is_pending j.status ≡ false
    → count (has_id id) t ≡ 0
    → count (has_id id') t ≡ 0
    → Settled j
        (worked >>= λ _. dispatched >>= λ _. ok true)
        (process_job worked dispatched id id' now before j t)
unfolding process_job
process_job-IsValid (err e) dispatched id id' now before t j v found live p fresh fresh' =
    let (t', done, valid, left, _, _) =
      finish-IsValid t j.id j v found live failed id' now refl p fresh' in
    subst (Settled j (err e)) {x = (t', err e)} (rw (done, process_job) refl) (valid, left, refl)
process_job-IsValid (ok u) (ok u') id id' now before t j v found live p fresh fresh' =
    let (t', done, valid, left, _, _) =
      finish-IsValid t j.id j v found live completed id now refl p fresh in
    subst (Settled j (ok true)) {x = (t', ok true)} (rw (done, process_job) refl)
      (valid, left, refl)
process_job-IsValid (ok u) (err e) id id' now before t j v found live p fresh fresh' =
    let (t', done, valid, left, _, (k, found', ended, clean)) =
      finish-IsValid t j.id j v found live completed id now refl p fresh in
    let (t'', done', valid', same) = refail-IsValid id' now t' j.id k valid found' ended clean in
    subst (Settled j (err e)) {x = (t'', err e)} (rw (done, process_job, done') refl)
      (valid', same j.asset_id ∙ left, refl)

-- Of a valid table, its oldest pending job and fresh ids: whatever the work and the dispatch do,
-- the table stays valid, the asset of the claimed job is left with one outstanding job where
-- that was dirty and with none otherwise, and `process_next` raises what they raise and nothing
-- else.
pub process_next-IsValid :
    (work : String → Result (Unit {0})) (dispatched : Result (Unit {0})) (id id' : String) (now : ℕ)
    (t : Table) (j : ReasoningJob)
    → IsValid t
    → count (has_id id) t ≡ 0
    → count (has_id id') t ≡ 0
    → oldest_pending t ≡ some j
    → Settled j
        (work j.asset_id >>= λ _. dispatched >>= λ _. ok true)
        (process_next work dispatched id id' now t)
unfolding claim_oldest_pending process_next
process_next-IsValid work dispatched id id' now t j v fresh fresh' oldest =
    let (m, p) = oldest_pending-Mem t j oldest in
    let t1 = update_rows (has_id j.id) (start now) t in
    let claimed : claim_oldest_pending now t ≡ (some (start now j), t1) =
      rw (oldest, claim_oldest_pending) refl in
    let found = find-updated j.id (start now) t j (λ k. refl) (Mem-find_row t j (v.1 j.id) m) in
    let ids = λ (i : String). count-same (has_id i) (has_id j.id) (start now) t (λ k h. refl) in
    let settled =
      process_job-IsValid (work j.asset_id) dispatched id id' now t t1 (start now j)
        (subst (λ (r : Option ReasoningJob × Table). IsValid r.1) claimed (claim-IsValid now t v))
        found refl refl (ids id ∙ fresh) (ids id' ∙ fresh') in
    subst (Settled j (work j.asset_id >>= λ _. dispatched >>= λ _. ok true))
      (rw
        (
          ap (λ (r : Option ReasoningJob × Table). r.0) claimed,
          process_next,
          ap (λ (r : Option ReasoningJob × Table). r.1) claimed,
        )
        refl)
      settled
