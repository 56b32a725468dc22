-- ===== src/Jobs/Table/Invariant.antt =====
-- What every operation of the job table keeps.
use odis.Jobs.Table.{
  ReasoningJob, Table, claim_oldest_pending, is_outstanding, insert_row, enqueue_or_mark_dirty,
  outstanding_of, has_id, oldest_pending, coalesce, update_rows, start, pending_job,
  finish_and_reschedule, ReasoningJobStatus, find_row, clear_dirty, finish, is_pending,
  fail_and_reschedule, failed,
}
use odis.Prelude.Count.{count, bit, count-append, count-any, any-true, any-false}
use odis.Prelude.{
  ℕ, ◌≤◌, String, ◌≡◌, refl, inl, inr, Bool, false, not, ◌&&◌, [], ◌∷◌, ◌++◌, arith, Bool-cases,
  any, Option, none, some, eq_iff, ◌+◌, true, ap, ◌∙◌, ◌==◌, ◌||◌,
}
use odis.Prelude.Result.{ok}
use odis.Jobs.Table.Rows.{
  oldest_pending-Mem, count-same, count-update, find_row-Mem, find_row-id, update_rows-twice,
  count-reaches, count-grows, find_row-append, find-updated,
}
use odis.Prelude.Text.{eq_refl}

abbrev pub is_stale : ReasoningJob → Bool
is_stale j = not (is_outstanding j.status) && j.dirty

-- A run of reasoning for the asset is still to start on account of the job.
abbrev pub owed : String → ReasoningJob → Bool
owed a j = outstanding_of a j && (is_pending j.status || j.dirty)

-- Ids are unique, an asset has one outstanding job at most, and no finished job is dirty.
abbrev pub IsValid : Table → Type 0
IsValid t =
    ((a : String) → count (outstanding_of a) t ≤ 1)
    × ((i : String) → count (has_id i) t ≤ 1)
    × (count is_stale t ≡ 0)

pub nil-IsValid : IsValid []
nil-IsValid = (λ a. omega arith, λ i. omega arith, refl)

pub insert_row-IsValid :
    (j : ReasoningJob) (t : Table)
    → IsValid t
    → count (has_id j.id) t ≡ 0
    → count (outstanding_of j.asset_id) t ≡ 0
    → is_stale j ≡ false
    → (insert_row j t ≡ ok (t ++ (j ∷ []))) × IsValid (t ++ (j ∷ []))
unfolding insert_row
insert_row-IsValid j t v fresh free h =
    let after = λ (p : ReasoningJob → Bool). count-append p t (j ∷ []) in
    (
      rw (count-any _ t fresh, count-any _ t free) (ground arith),
      (
        λ a. grind (arith, v.0 a, after (outstanding_of a), eq_iff j.asset_id a),
        λ i. grind (arith, v.1 i, after (has_id i), eq_iff j.id i),
        grind (arith, v.2, after is_stale),
      ),
    )

-- A claim keeps a valid table valid: ids stay unique, an asset has one outstanding job at most,
-- and no finished job is dirty.
pub claim-IsValid : (now : ℕ) (t : Table) → IsValid t → IsValid (claim_oldest_pending now t).1
unfolding claim_oldest_pending
claim-IsValid now t v = pick (oldest_pending t) refl
  where
    pick : (o : Option ReasoningJob) → oldest_pending t ≡ o → IsValid (claim_oldest_pending now t).1
    pick none e = rw (e, claim_oldest_pending) v
    pick (some j) e =
        let (m, p) = oldest_pending-Mem t j e in
        let after = λ (p : ReasoningJob → Bool).
          count-update p (has_id j.id) (start now) t j (v.1 j.id) m (eq_refl j.id) in
        rw (e, claim_oldest_pending)
          (
            λ a. ground (arith, v.0 a, after (outstanding_of a)),
            λ i. ground (arith, v.1 i, after (has_id i)),
            ground (arith, v.2, after is_stale),
          )

-- Of a valid table and a fresh id: an enqueue returns and keeps the table valid, the asset is left
-- with one outstanding job, a run that is still to start is owed to it, and no asset is owed fewer
-- runs than before.
pub enqueue-IsValid :
    (id : String) (now : ℕ) (asset_id : String) (t : Table)
    → IsValid t
    → count (has_id id) t ≡ 0
    → (t' : Table) × (enqueue_or_mark_dirty id now asset_id t ≡ ok t')
      × IsValid t'
      × (count (outstanding_of asset_id) t' ≡ 1)
      × (1 ≤ count (owed asset_id) t')
      × ((a : String) → count (owed a) t ≤ count (owed a) t')
unfolding enqueue_or_mark_dirty
enqueue-IsValid id now asset_id t v fresh = elim (Bool-cases (any (outstanding_of asset_id) t)) [
  | inl e ↦
      let after = λ (p : ReasoningJob → Bool). count-same p (outstanding_of asset_id) coalesce t in
      (
        update_rows (outstanding_of asset_id) coalesce t,
        rw e refl,
        (
          λ a. grind (arith, v.0 a, after (outstanding_of a) (λ j h. refl)),
          λ i. grind (arith, v.1 i, after (has_id i) (λ j h. refl)),
          grind (arith, v.2, after is_stale (λ j h. ground (arith, h))),
        ),
        grind (
          arith,
          v.0 asset_id,
          any-true (outstanding_of asset_id) t e,
          after (outstanding_of asset_id) (λ j h. refl),
        ),
        grind (
          arith,
          any-true (outstanding_of asset_id) t e,
          count-reaches (owed asset_id) (outstanding_of asset_id) coalesce t
              (λ j h. ground (arith, h)),
        ),
        λ a. count-grows (owed a) (outstanding_of asset_id) coalesce t (λ j h. ground (arith, h)),
      )
  | inr e ↦
      let none_left = any-false (outstanding_of asset_id) t e in
      let j = pending_job id asset_id now in
      let (_, valid) = insert_row-IsValid j t v fresh none_left refl in
      (
        t ++ (j ∷ []),
        rw (e, count-any (has_id id) t fresh) refl,
        valid,
        grind
            (arith, none_left, count-append (outstanding_of asset_id) t (j ∷ []), eq_refl asset_id),
        grind (arith, count-append (owed asset_id) t (j ∷ []), eq_refl asset_id),
        λ a. grind (arith, count-append (owed a) t (j ∷ [])),
      )
]

module _ (t : Table) (job_id : String) (j : ReasoningJob) (v : IsValid t)
    (found : find_row job_id t ≡ some j) (live : is_outstanding j.status ≡ true) where
  -- An update that ends the job, cleanly.
  close-IsValid :
      (f : ReasoningJob → ReasoningJob)
      → ((k : ReasoningJob) → (f k).id ≡ k.id)
      → is_outstanding (f j).status ≡ false
      → (f j).dirty ≡ false
      → let t' = update_rows (has_id job_id) f t in
        IsValid t'
        × (count (outstanding_of j.asset_id) t' ≡ 0)
        × ((i : String) → count (has_id i) t' ≡ count (has_id i) t)
        × ((a : String) → count (owed a) t' + bit (owed a j) ≡ count (owed a) t)
  close-IsValid f same_id ended clean =
      let once = λ (p : ReasoningJob → Bool).
        count-update p (has_id job_id) f t j (v.1 job_id) (find_row-Mem job_id t j found)
          (find_row-id job_id t j found) in
      let ids = λ (i : String).
        count-same (has_id i) (has_id job_id) f t (λ k h. ap (λ s. s == i) (same_id k)) in
      (
        (
          λ a. grind (arith, v.0 a, once (outstanding_of a)),
          λ i. grind (arith, v.1 i, ids i),
          grind (arith, v.2, once is_stale),
        ),
        grind (arith, v.0 j.asset_id, once (outstanding_of j.asset_id), eq_refl j.asset_id),
        ids,
        λ a. grind (arith, once (owed a)),
      )

  -- Of a valid table, a running job in it, a final status and a fresh id: `_finish_and_reschedule`
  -- never meets the primary key or the unique index, so it returns. The table stays valid, the asset
  -- is left with one outstanding job where the job was dirty and with none otherwise, no asset is
  -- owed fewer runs than before, and the job has ended and is clean.
  pub finish-IsValid :
      (status : ReasoningJobStatus) (id : String) (now : ℕ)
      → is_outstanding status ≡ false
      → is_pending j.status ≡ false
      → count (has_id id) t ≡ 0
      → (t' : Table) × (finish_and_reschedule status id now job_id t ≡ ok t')
        × IsValid t'
        × (count (outstanding_of j.asset_id) t' ≡ bit j.dirty)
        × ((a : String) → count (owed a) t ≤ count (owed a) t')
        × ((k : ReasoningJob) × (find_row job_id t' ≡ some k)
            × (is_outstanding k.status ≡ false)
            × (k.dirty ≡ false))
  unfolding finish_and_reschedule
  finish-IsValid status id now terminal p fresh = elim (Bool-cases j.dirty) [
    | inl e ↦
        let t1 = update_rows (has_id job_id) (λ k. clear_dirty (finish status now k)) t in
        let (valid, free, ids, less) =
          close-IsValid (λ k. clear_dirty (finish status now k)) (λ k. refl) terminal refl in
        let follow_up = pending_job id j.asset_id now in
        let (done, valid') = insert_row-IsValid follow_up t1 valid (ids id ∙ fresh) free refl in
        (
          t1 ++ (follow_up ∷ []),
          rw
              (
                found,
                finish_and_reschedule,
                e,
                update_rows-twice (has_id job_id) (finish status now) clear_dirty t (λ k. refl),
                count-any (has_id id) t1 (ids id ∙ fresh),
                count-any (outstanding_of j.asset_id) t1 free,
              )
              refl,
          valid',
          grind (
            arith,
            e,
            free,
            count-append (outstanding_of j.asset_id) t1 (follow_up ∷ []),
            eq_refl j.asset_id,
          ),
          λ a. ground (arith, p, e, less a, count-append (owed a) t1 (follow_up ∷ [])),
          (
            clear_dirty (finish status now j),
            find_row-append job_id t1 (follow_up ∷ []) _ (
                find-updated job_id (λ k. clear_dirty (finish status now k)) t j (λ k. refl) found),
            terminal,
            refl,
          ),
        )
    | inr e ↦
        let (valid, free, ids, less) = close-IsValid (finish status now) (λ k. refl) terminal e in
        (
          update_rows (has_id job_id) (finish status now) t,
          rw (found, finish_and_reschedule, e) refl,
          valid,
          grind (arith, e, free),
          λ a. grind (arith, p, e, less a),
          (
            finish status now j,
            find-updated job_id (finish status now) t j (λ k. refl) found,
            terminal,
            e,
          ),
        )
  ]

-- To fail a job that has ended and is clean changes its status and no more.
pub refail-IsValid :
    (id : String) (now : ℕ) (t : Table) (job_id : String) (k : ReasoningJob)
    → IsValid t
    → find_row job_id t ≡ some k
    → is_outstanding k.status ≡ false
    → k.dirty ≡ false
    → (t' : Table) × (fail_and_reschedule id now job_id t ≡ ok t')
      × IsValid t'
      × ((a : String) → count (outstanding_of a) t' ≡ count (outstanding_of a) t)
unfolding finish_and_reschedule
refail-IsValid id now t job_id k v found ended clean =
    let once = λ (p : ReasoningJob → Bool).
      count-update p (has_id job_id) (finish failed now) t k (v.1 job_id)
        (find_row-Mem job_id t k found) (find_row-id job_id t k found) in
    (
      update_rows (has_id job_id) (finish failed now) t,
      rw (found, finish_and_reschedule, clean) refl,
      (
        λ a. grind (arith, v.0 a, once (outstanding_of a)),
        λ i. grind (arith, v.1 i, once (has_id i)),
        grind (arith, v.2, once is_stale),
      ),
      λ a. grind (arith, once (outstanding_of a)),
    )
