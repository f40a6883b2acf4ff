-- ===== src/Processing/Executor.antt =====
-- processing/executor: the base executor, and the sequential and parallel strategies.
pub mod Base
pub mod Sequential
pub mod Parallel
