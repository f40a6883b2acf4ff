-- ===== src/Samples/Executions.antt =====
-- Executions of sample pipelines.
use modern_data_platform.Prelude.{◌≡◌, refl, [], ◌∷◌}
use modern_data_platform.Processing.Outcome.{returned}
use modern_data_platform.Processing.Core.Status.{completed, failed}
use modern_data_platform.Processing.Machine.{◌>>=◌}
use modern_data_platform.Processing.Executor.Sequential.{execute_pipeline}
use modern_data_platform.Samples.Pipelines.{
  flaky, ok_stage, bad_stage, down_stage, executor, pipeline_of, start,
}

retry_run :
    let (o, m) =
      execute_pipeline executor 3
        (pipeline_of (flaky 2 completed "a" 3 ∷ ok_stage "b" ∷ []))
        start in
    (o ≡ returned completed) × (m.calls ≡ "a" ∷ "a" ∷ "a" ∷ "b" ∷ [])
unfolding execute_pipeline ◌>>=◌
retry_run = (refl, refl)

down_run :
    (execute_pipeline executor 3
      (pipeline_of (ok_stage "a" ∷ down_stage "b" ∷ ok_stage "c" ∷ []))
      start).1.calls
    ≡ "a" ∷ "b" ∷ "b" ∷ "b" ∷ []
unfolding execute_pipeline ◌>>=◌
down_run = refl

fail_fast_run :
    let (o, m) =
      execute_pipeline executor 3
        (pipeline_of (ok_stage "a" ∷ bad_stage "b" ∷ ok_stage "c" ∷ []))
        start in
    (o ≡ returned failed) × (m.calls ≡ "a" ∷ "b" ∷ [])
unfolding execute_pipeline ◌>>=◌
fail_fast_run = (refl, refl)
