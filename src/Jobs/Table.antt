-- ===== src/Jobs/Table.antt =====
-- backend/app/infrastructure/repositories/reasoning_job_repository.py over the table of
-- infrastructure/database/models/reasoning_job.py: the rows in the order they were inserted. The
-- database's primary key and its unique index on outstanding rows are the tests of `insert_row`. `now`
-- is the clock, and `id` the identifier that `uuid4` returns.
pub mod Rows
pub mod Invariant
use odis.Prelude.Result.{Result, ok, err, integrity_error, no_result_found}
use odis.Prelude.{
  ℕ, suc, String, Bool, true, false, not, ◌&&◌, Option, none, some, List, [], ◌∷◌, ◌++◌, ◌==◌, leb,
  if◌then◌else◌, any,
}

pub data ReasoningJobStatus : Type 0 where
  pending running completed failed : ReasoningJobStatus

pub record ReasoningJob : Type 0 where
  pub id : String
  pub asset_id : String
  pub status : ReasoningJobStatus
  pub created_at : ℕ
  pub started_at : Option ℕ
  pub completed_at : Option ℕ
  pub attempts : ℕ
  pub dirty : Bool
  pub coalesced_count : ℕ

abbrev pub Table : Type 0
Table = List ReasoningJob

-- `_OUTSTANDING_WHERE`
abbrev pub is_outstanding : ReasoningJobStatus → Bool
is_outstanding pending = true
is_outstanding running = true
is_outstanding completed = false
is_outstanding failed = false

abbrev pub is_pending : ReasoningJobStatus → Bool
is_pending pending = true
is_pending _ = false

abbrev pub has_id : String → ReasoningJob → Bool
has_id id j = j.id == id

-- The rows that the unique index of an asset holds.
abbrev pub outstanding_of : String → ReasoningJob → Bool
outstanding_of asset j = is_outstanding j.status && (j.asset_id == asset)

abbrev pub find_row : String → Table → Option ReasoningJob
find_row id [] = none
find_row id (j ∷ js) = if j.id == id then some j else find_row id js

-- `UPDATE ... WHERE test`
abbrev pub update_rows : (ReasoningJob → Bool) → (ReasoningJob → ReasoningJob) → Table → Table
update_rows test f [] = []
update_rows test f (j ∷ js) = (if test j then f j else j) ∷ update_rows test f js

-- A plain `INSERT`, which the primary key and the unique index may refuse.
unfoldable pub insert_row : ReasoningJob → Table → Result Table
insert_row j table =
    if any (has_id j.id) table
    then err integrity_error
    else if is_outstanding j.status && any (outstanding_of j.asset_id) table
    then err integrity_error
    else ok (table ++ (j ∷ []))

abbrev pub pending_job : String → String → ℕ → ReasoningJob
pending_job id asset_id now = record {
  id = id;
  asset_id = asset_id;
  status = pending;
  created_at = now;
  started_at = none;
  completed_at = none;
  attempts = 0;
  dirty = false;
  coalesced_count = 0;
}

-- The older of two candidates, the first of the table where they are as old.
abbrev pub older : ReasoningJob → Option ReasoningJob → ReasoningJob
older j none = j
older j (some k) = if leb j.created_at k.created_at then j else k

unfoldable pub oldest_pending : Table → Option ReasoningJob
oldest_pending [] = none
oldest_pending (j ∷ js) =
    let rest = oldest_pending js in if is_pending j.status then some (older j rest) else rest

abbrev pub start : ℕ → ReasoningJob → ReasoningJob
start now j = record {
  id = j.id;
  asset_id = j.asset_id;
  status = running;
  created_at = j.created_at;
  started_at = some now;
  completed_at = j.completed_at;
  attempts = suc j.attempts;
  dirty = j.dirty;
  coalesced_count = j.coalesced_count;
}

unfoldable pub claim_oldest_pending : ℕ → Table → Option ReasoningJob × Table
unfolding oldest_pending
claim_oldest_pending now table = elim (oldest_pending table) [
  | none ↦ (none, table)
  | some j ↦ (some (start now j), update_rows (has_id j.id) (start now) table)
]

abbrev pub coalesce : ReasoningJob → ReasoningJob
coalesce j = record {
  id = j.id;
  asset_id = j.asset_id;
  status = j.status;
  created_at = j.created_at;
  started_at = j.started_at;
  completed_at = j.completed_at;
  attempts = j.attempts;
  dirty = true;
  coalesced_count = suc j.coalesced_count;
}

-- `INSERT ... ON CONFLICT (asset_id) WHERE outstanding DO UPDATE`
unfoldable pub enqueue_or_mark_dirty : String → ℕ → String → Table → Result Table
unfolding insert_row
enqueue_or_mark_dirty id now asset_id table =
    if any (outstanding_of asset_id) table
    then ok (update_rows (outstanding_of asset_id) coalesce table)
    else insert_row (pending_job id asset_id now) table

abbrev pub finish : ReasoningJobStatus → ℕ → ReasoningJob → ReasoningJob
finish status now j = record {
  id = j.id;
  asset_id = j.asset_id;
  status = status;
  created_at = j.created_at;
  started_at = j.started_at;
  completed_at = some now;
  attempts = j.attempts;
  dirty = j.dirty;
  coalesced_count = j.coalesced_count;
}

abbrev pub clear_dirty : ReasoningJob → ReasoningJob
clear_dirty j = record {
  id = j.id;
  asset_id = j.asset_id;
  status = j.status;
  created_at = j.created_at;
  started_at = j.started_at;
  completed_at = j.completed_at;
  attempts = j.attempts;
  dirty = false;
  coalesced_count = j.coalesced_count;
}

-- `_finish_and_reschedule`: step 1 for the row that the table holds under the job's id, then steps 2
-- and 3 where that row is dirty. `.one()` raises where there is no such row.
unfoldable pub finish_and_reschedule :
    ReasoningJobStatus → String → ℕ → String → Table → Result Table
unfolding insert_row
finish_and_reschedule status id now job_id table = elim (find_row job_id table) [
  | none ↦ err no_result_found
  | some j ↦
      let finished = update_rows (has_id job_id) (finish status now) table in
      if not j.dirty
      then ok finished
      else insert_row (pending_job id j.asset_id now)
          (update_rows (has_id job_id) clear_dirty finished)
]

abbrev pub complete_and_reschedule : String → ℕ → String → Table → Result Table
complete_and_reschedule = finish_and_reschedule completed

abbrev pub fail_and_reschedule : String → ℕ → String → Table → Result Table
fail_and_reschedule = finish_and_reschedule failed
