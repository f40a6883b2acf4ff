-- ===== src/Processing/Executor/Base.antt =====
-- executor/base_executor.py: dispatching hooks, asking the policies, and turning the end of a
-- strategy into a `PipelineResult`.
pub mod Frames
use modern_data_platform.Prelude.{
  ℕ, String, Bool, true, false, Option, none, some, List, [], ◌∷◌, ◌++◌, last?,
}
use modern_data_platform.Prelude.Dict
use modern_data_platform.Processing.Outcome.{Exn, Outcome, returned, raised, out_of_fuel}
use modern_data_platform.Processing.Core.Status.{ExecutionStatus, completed, failed}
use modern_data_platform.Processing.Core.Results.{
  ExecutionMetadata, StageResult, ProcessingResult, PipelineResult,
}
use modern_data_platform.Processing.Core.Stage.{Stage}
use modern_data_platform.Processing.Core.Pipeline.{Pipeline}
use modern_data_platform.Processing.Machine.{
  HookType, Emission, Machine, Action, pure, modify, perform, ◌>>=◌, ◌>>◌,
}
use modern_data_platform.Processing.Hooks.{HookManager, HookContext, dispatch}
use modern_data_platform.Processing.Runtime.{tick, pipeline_result}
use modern_data_platform.Processing.Policies.{
  PolicyEvent, PolicyContext, PolicyResult, Policy, evaluate,
}

-- `clock` is `datetime.now(UTC)`.
pub record Executor (W : Type 0) : Type 0 where
  pub clock : W → ℕ × W
  pub hook_manager : HookManager W
  pub policies : List (Policy W)

-- PolicyManager((FailurePolicy(), RetryPolicy()))
abbrev pub default_policies : {W : Type 0} → List (Policy W)
default_policies = Policy.failure true ∷ Policy.retry ∷ []

-- BaseExecutor(), and the hooks that were registered since
abbrev pub new_executor : {W : Type 0} → (W → ℕ × W) → HookManager W → Executor W
new_executor clock hooks = record {
  clock = clock;
  hook_manager = hooks;
  policies = default_policies;
}

abbrev pub stage_id_of : {W : Type 0} → Option (Stage W) → Option String
stage_id_of none = none
stage_id_of (some s) = some s.id

module _ {W : Type 0} (x : Executor W) (p : Pipeline W) where
  -- `_emit`: the timestamp is taken when the HookContext is made
  unfoldable pub emit :
      HookType → Option (Stage W) → Option StageResult → Option Exn → Action W (Unit {0})
  unfolding tick dispatch
  emit t stage result exception = do
    now ← tick x.clock
    modify (λ m. record m {
      emitted =
          m.emitted
          ++ record {
            hook_type = t;
            stage = stage_id_of stage;
            result = result;
            exception = exception;
          }
            ∷ [];
    })
    dispatch x.hook_manager (record {
      hook_type = t;
      pipeline = p;
      stage = stage;
      result = result;
      exception = exception;
      timestamp = now;
    })

  -- `_evaluate_policies` and `_build_policy_context`, at the event of a failed stage
  unfoldable pub evaluate_policies : Stage W → Action W PolicyResult
  unfolding evaluate
  evaluate_policies s =
      evaluate x.clock x.policies
        (record { pipeline = p; stage = some s; event = PolicyEvent.stage_failed })

module _ {W : Type 0} where
  -- `_execute_stage`
  unfoldable pub execute_stage : Stage W → Action W StageResult
  unfolding perform ◌>>=◌
  execute_stage s = modify (λ m. record m { calls = m.calls ++ s.id ∷ [] }) >> perform s.execute

-- last.error_type if last else None
abbrev pub error_type_of : Option StageResult → Option String
error_type_of none = none
error_type_of (some r) = r.error_type

abbrev pub error_message_of : Option StageResult → Option String
error_message_of none = none
error_message_of (some r) = r.error_message

-- The three PipelineResults that `execute` makes, from the list that the strategy has filled.
abbrev pub failed_result : ExecutionMetadata → List StageResult → PipelineResult
failed_result metadata results = record {
  base = record {
    status = failed;
    metadata = metadata;
    error_type = error_type_of (last? results);
    error_message = error_message_of (last? results);
  };
  stage_results = results;
}

abbrev pub completed_result : ExecutionMetadata → List StageResult → PipelineResult
completed_result metadata results = record {
  base = record {
    status = completed;
    metadata = metadata;
    error_type = none;
    error_message = none;
  };
  stage_results = results;
}

abbrev pub raised_result : Exn → ExecutionMetadata → List StageResult → PipelineResult
raised_result e metadata results = record {
  base = record {
    status = failed;
    metadata = metadata;
    error_type = some e.type_name;
    error_message = some e.message;
  };
  stage_results = results;
}

-- if status == ExecutionStatus.FAILED
abbrev pub result_of_status :
    ExecutionStatus → ExecutionMetadata → List StageResult → PipelineResult
result_of_status failed metadata results = failed_result metadata results
result_of_status _ metadata results = completed_result metadata results

module _ {W : Type 0} where
  publish : PipelineResult → Action W PipelineResult
  unfolding pipeline_result
  publish r = pipeline_result r >> pure r

  -- The `try` of `execute`: `_execute_pipeline` has returned a status or has raised.
  unfoldable pub finish : Outcome ExecutionStatus → Action W PipelineResult
  unfolding publish
  finish (returned status) m =
      publish (result_of_status status m.context.metadata m.stage_results) m
  finish (raised e) m = publish (raised_result e m.context.metadata m.stage_results) m
  finish out_of_fuel m = (out_of_fuel, m)

  -- `execute`, over the `_execute_pipeline` of a strategy
  unfoldable pub execute :
      (Pipeline W → Action W ExecutionStatus) → Pipeline W → Action W PipelineResult
  unfolding finish
  execute execute_pipeline p m =
      let (o, m') = execute_pipeline p (record m { stage_results = [] }) in finish o m'
