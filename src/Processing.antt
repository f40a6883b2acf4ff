-- ===== src/Processing.antt =====
-- The processing framework: src/data_platform/processing.
pub mod Outcome
pub mod Core
pub mod Machine
pub mod Hooks
pub mod Runtime
pub mod Policies
pub mod Executor
pub mod Extraction
pub mod Metrics
