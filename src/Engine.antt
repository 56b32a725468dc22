-- ===== src/Engine.antt =====
-- src/application: the reasoning engine. Detectors read signals off observations, the stages build
-- hypotheses, an assessment and a confidence on them, and the planner reads the assessment.
pub mod Observation
pub mod Trend
pub mod Variation
pub mod Relationships
pub mod Assessment
pub mod Planner
pub mod Evidence
pub mod Hypotheses
pub mod Confidence
pub mod History
mod Tests
mod HistoryTests
