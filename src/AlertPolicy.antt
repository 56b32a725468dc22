-- ===== src/AlertPolicy.antt =====
-- backend/simulator/dataset/alert_policy: the hysteresis state machine of a fault alert, and the
-- episodes that are read off its events.
pub mod State
pub mod Machine
mod Tests
