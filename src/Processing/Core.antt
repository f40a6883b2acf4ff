-- ===== src/Processing/Core.antt =====
-- processing/core: statuses, results, the processing context and the pipeline.
pub mod Status
pub mod Results
pub mod Context
pub mod Stage
pub mod Pipeline
