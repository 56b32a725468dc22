-- ===== src/Jobs.antt =====
-- The queue of reasoning jobs: backend/app/infrastructure/repositories/reasoning_job_repository.py
-- and application/reasoning_worker.py.
pub mod Table
pub mod Worker
mod Tests
