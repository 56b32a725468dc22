-- ===== src/Inference.antt =====
-- backend/simulator/inference and backend/simulator/inference_worker: the worker that assembles telemetry
-- into samples, scores them and publishes results and alert transitions.
pub mod Telemetry
pub mod Assembly
pub mod Session
pub mod Worker
pub mod Polling
pub mod Events
mod Tests
mod SessionTests
mod WorkerTests
