-- ===== src/Jobs/Tests.antt =====
-- The job table at concrete inputs.
use odis.Jobs.Table.{
  ReasoningJob, Table, pending_job, start, coalesce, completed, claim_oldest_pending,
  enqueue_or_mark_dirty, finish_and_reschedule, find_row, outstanding_of, oldest_pending,
  is_outstanding,
}
use odis.Jobs.Table.Invariant.{
  IsValid, owed, enqueue-IsValid, finish-IsValid, claim-IsValid, is_stale,
}
use odis.Jobs.Worker.{process_next-IsValid, process_next, Settled}
use odis.Prelude.{◌≤◌, String, ◌≡◌, refl, false, some, [], ◌∷◌, arith}
use odis.Prelude.Result.{ok, err, value_error}
use odis.Prelude.Count.{count}

-- One request, absorbed by no job.
abbrev one_job : Table
one_job = pending_job "j1" "stack-1" 10 ∷ []

-- The claimed job, behind a second request.
abbrev dirty_job : ReasoningJob
dirty_job = coalesce (start 11 (pending_job "j1" "stack-1" 10))

abbrev running : Table
running = dirty_job ∷ []

small-IsValid : (j : ReasoningJob) → is_stale j ≡ false → IsValid (j ∷ [])
small-IsValid j h = (λ a. ground arith, λ i. ground arith, ground (arith, h))

enqueue-IsValid_example :
    (t' : Table) × (enqueue_or_mark_dirty "j2" 12 "stack-1" one_job ≡ ok t')
    × IsValid t'
    × (count (outstanding_of "stack-1") t' ≡ 1)
    × (1 ≤ count (owed "stack-1") t')
    × ((a : String) → count (owed a) one_job ≤ count (owed a) t')
enqueue-IsValid_example =
    enqueue-IsValid "j2" 12 "stack-1" one_job (small-IsValid (pending_job "j1" "stack-1" 10) refl)
      refl

claim-IsValid_example : IsValid (claim_oldest_pending 11 one_job).1
claim-IsValid_example =
    claim-IsValid 11 one_job (small-IsValid (pending_job "j1" "stack-1" 10) refl)

finish-IsValid_example :
    (t' : Table) × (finish_and_reschedule completed "j3" 20 "j1" running ≡ ok t')
    × IsValid t'
    × (count (outstanding_of "stack-1") t' ≡ 1)
    × ((a : String) → count (owed a) running ≤ count (owed a) t')
    × ((k : ReasoningJob) × (find_row "j1" t' ≡ some k)
        × (is_outstanding k.status ≡ false)
        × (k.dirty ≡ false))
finish-IsValid_example =
    finish-IsValid running "j1" dirty_job (small-IsValid dirty_job refl) refl refl completed "j3" 20
      refl refl refl

process_next-IsValid_example :
    Settled
      (pending_job "j1" "stack-1" 10)
      (err value_error)
      (process_next (λ _. ok tt) (err value_error) "j3" "j4" 20 one_job)
unfolding oldest_pending
process_next-IsValid_example =
    process_next-IsValid (λ _. ok tt) (err value_error) "j3" "j4" 20 one_job
      (pending_job "j1" "stack-1" 10) (small-IsValid (pending_job "j1" "stack-1" 10) refl) refl refl
      refl
