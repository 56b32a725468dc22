-- ===== src/Bridge.antt =====
-- The reasoning bridge: backend/app/application/reasoning_bridge, from a validated alert to the
-- persisted evidence.
pub mod Types
pub mod Mapping
pub mod Corroboration
pub mod Recommendation
pub mod Lifecycle
pub mod Service
pub mod Process
pub mod Input
pub mod Publish
pub mod Worker
mod Tests
mod WorkerTests
