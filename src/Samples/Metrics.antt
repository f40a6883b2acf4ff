-- ===== src/Samples/Metrics.antt =====
-- The metrics of a stage that succeeds at its second attempt, in a pipeline that then fails.
use modern_data_platform.Prelude.{ℕ, ◌≤◌, ◌≡◌, refl, Option, none, some, List, [], ◌∷◌, length}
use modern_data_platform.Prelude.Int.{pos}
use modern_data_platform.Processing.Outcome.{Exn, runtime_error}
use modern_data_platform.Processing.Core.Status.{completed}
use modern_data_platform.Processing.Core.Results.{StageResult}
use modern_data_platform.Processing.Core.Stage.{Stage}
use modern_data_platform.Processing.Machine.{HookType}
use modern_data_platform.Processing.Hooks.{HookContext}
use modern_data_platform.Processing.Metrics.{new_hook, observe}
use modern_data_platform.Processing.Metrics.Laws.{
  observe_all, pipelines_started, stages_started, observe_all_at_most,
}
use modern_data_platform.Samples.Pipelines.{flaky, pipeline_of, result_with}

abbrev second_time : Stage ℕ
second_time = flaky 1 completed "a" 3

abbrev event : HookType → Option (Stage ℕ) → Option StageResult → Option Exn → ℕ → HookContext ℕ
event t s r e now = record {
  hook_type = t;
  pipeline = pipeline_of (second_time ∷ []);
  stage = s;
  result = r;
  exception = e;
  timestamp = now;
}

abbrev events : List (HookContext ℕ)
events =
    event HookType.before_pipeline none none none 0
    ∷ event HookType.before_stage (some second_time) none none 1
    ∷ event HookType.stage_failed (some second_time) none (some (runtime_error "down")) 4
    ∷ event HookType.after_stage (some second_time) (some (result_with completed "a")) none 9
    ∷ event HookType.pipeline_failed none none (some (runtime_error "cancelled")) 10
    ∷ []

-- one execution, with the time of the attempt that failed, and both statuses are COMPLETED
metrics_run :
    let h = observe_all events new_hook in
    (h.stage_samples
      ≡ record { pipeline_name = "p"; stage_name = "a"; status = completed; duration = pos 3 } ∷ [])
    × (h.pipeline_samples
        ≡ record { pipeline_name = "p"; status = completed; duration = pos 10 } ∷ [])
unfolding observe
metrics_run = (refl, refl)

observe_all_at_most_example :
    (length (observe_all events new_hook).pipeline_samples ≤ pipelines_started events)
    × (length (observe_all events new_hook).stage_samples ≤ stages_started events)
observe_all_at_most_example = observe_all_at_most events
