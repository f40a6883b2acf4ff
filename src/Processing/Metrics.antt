-- ===== src/Processing/Metrics.antt =====
-- processing/metrics/prometheus_metrics_hook.py. The histograms and the counter of the client are lists
-- of what was observed; the call of the Pushgateway is left out.
pub mod Laws
use modern_data_platform.Prelude.{
  ℕ, String, String_Eq, Option, none, some, List, [], ◌∷◌, ◌++◌, map,
}
use modern_data_platform.Prelude.Int.{ℤ, sub_ℕ}
use modern_data_platform.Prelude.Dict.{Dict, get, put, remove}
use modern_data_platform.Processing.Core.Status.{ExecutionStatus, completed}
use modern_data_platform.Processing.Core.Results.{StageResult}
use modern_data_platform.Processing.Core.Stage.{Stage}
use modern_data_platform.Processing.Core.Pipeline.{Pipeline}
use modern_data_platform.Processing.Machine.{
  HookType, before_pipeline, after_pipeline, pipeline_failed, before_stage, after_stage,
  stage_failed,
}
use modern_data_platform.Processing.Hooks.{HookContext}

-- an observation of mdp_pipeline_duration_seconds
pub record PipelineSample : Type 0 where
  pub pipeline_name : String
  pub status : ExecutionStatus
  pub duration : ℤ

-- an observation of mdp_stage_duration_seconds, with which mdp_stage_executions_total is increased
pub record StageSample : Type 0 where
  pub pipeline_name : String
  pub stage_name : String
  pub status : ExecutionStatus
  pub duration : ℤ

pub record PrometheusHook : Type 0 where
  pub pipeline_started_at : Dict String ℕ
  pub stage_started : Dict String ℕ
  pub last_pipeline_status : Dict String ExecutionStatus
  pub pipeline_samples : List PipelineSample
  pub stage_samples : List StageSample

abbrev pub new_hook : PrometheusHook
new_hook = record {
  pipeline_started_at = [];
  stage_started = [];
  last_pipeline_status = [];
  pipeline_samples = [];
  stage_samples = [];
}

-- context.result.status if context.result is not None else COMPLETED
abbrev pub status_of : Option StageResult → ExecutionStatus
status_of none = completed
status_of (some r) = r.status

module _ {W : Type 0} where
  unfoldable pub on_before_pipeline : HookContext W → PrometheusHook → PrometheusHook
  on_before_pipeline c h = record h {
    pipeline_started_at = put c.pipeline.id c.timestamp h.pipeline_started_at;
    stage_started = [];
  }

  -- what follows the `pop`, which takes the entry out
  abbrev pub pipeline_ended : Option ℕ → HookContext W → PrometheusHook → PrometheusHook
  pipeline_ended none c h = h
  pipeline_ended (some started) c h = record h {
    pipeline_started_at = remove c.pipeline.id h.pipeline_started_at;
    pipeline_samples =
        h.pipeline_samples
        ++ record {
          pipeline_name = c.pipeline.name;
          status = status_of c.result;
          duration = sub_ℕ c.timestamp started;
        }
          ∷ [];
    last_pipeline_status = put c.pipeline.name (status_of c.result) h.last_pipeline_status;
  }

  -- `_on_after_pipeline`, and `_on_pipeline_failed`, which calls it
  unfoldable pub on_after_pipeline : HookContext W → PrometheusHook → PrometheusHook
  on_after_pipeline c h = pipeline_ended (get c.pipeline.id h.pipeline_started_at) c h

  unfoldable pub on_before_stage :
      Option (Stage W) → HookContext W → PrometheusHook → PrometheusHook
  on_before_stage none c h = h
  on_before_stage (some s) c h = record h { stage_started = put s.id c.timestamp h.stage_started }

  abbrev pub stage_ended : Stage W → Option ℕ → HookContext W → PrometheusHook → PrometheusHook
  stage_ended s none c h = h
  stage_ended s (some started) c h = record h {
    stage_started = remove s.id h.stage_started;
    stage_samples =
        h.stage_samples
        ++ record {
          pipeline_name = c.pipeline.name;
          stage_name = s.name;
          status = status_of c.result;
          duration = sub_ℕ c.timestamp started;
        }
          ∷ [];
  }

  -- `_on_after_stage`, and `_on_stage_failed`, which calls it
  unfoldable pub on_after_stage : Option (Stage W) → HookContext W → PrometheusHook → PrometheusHook
  on_after_stage none c h = h
  on_after_stage (some s) c h = stage_ended s (get s.id h.stage_started) c h

  abbrev pub on_event : HookType → HookContext W → PrometheusHook → PrometheusHook
  on_event before_pipeline c h = on_before_pipeline c h
  on_event after_pipeline c h = on_after_pipeline c h
  on_event pipeline_failed c h = on_after_pipeline c h
  on_event before_stage c h = on_before_stage c.stage c h
  on_event after_stage c h = on_after_stage c.stage c h
  on_event stage_failed c h = on_after_stage c.stage c h

  -- `PrometheusHook.execute`
  unfoldable pub observe : HookContext W → PrometheusHook → PrometheusHook
  unfolding on_before_pipeline on_after_pipeline on_before_stage on_after_stage
  observe c h = on_event c.hook_type c h

-- The gauge mdp_pipeline_last_run_timestamp_seconds, as `push` sets it at the time `now`.
abbrev last_runs : ℕ → PrometheusHook → List ((String × ExecutionStatus) × ℕ)
last_runs now h = map (λ entry. (entry, now)) h.last_pipeline_status
