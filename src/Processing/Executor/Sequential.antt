-- ===== src/Processing/Executor/Sequential.antt =====
-- executor/sequential_executor.py. The `while True` of the attempts takes fuel: one unit for each
-- attempt of a stage.
pub mod Turns
pub mod Attempts
pub mod Loop
pub mod Progress
pub mod Stages
pub mod Runs
pub mod Correct
pub mod Exhaustion
use modern_data_platform.Prelude.{
  ℕ, zero, suc, ◌+◌, String, Bool, true, false, Option, none, some, List, [], ◌∷◌, ◌++◌,
  if◌then◌else◌,
}
use modern_data_platform.Processing.Outcome.{
  Exn, Outcome, returned, raised, out_of_fuel, runtime_error,
}
use modern_data_platform.Processing.Core.Status.{ExecutionStatus, completed, failed}
use modern_data_platform.Processing.Core.Results.{StageResult, PipelineResult, succeeded}
use modern_data_platform.Processing.Core.Stage.{Stage}
use modern_data_platform.Processing.Core.Pipeline.{Pipeline, flatten, assertion_error}
use modern_data_platform.Processing.Machine.{
  HookType, Machine, Action, pure, raise, modify, ◌>>=◌, ◌>>◌,
}
use modern_data_platform.Processing.Runtime
use modern_data_platform.Processing.Executor.Base.{
  Executor, emit, evaluate_policies, execute_stage, execute,
}

-- How the loop over the attempts of one stage is left.
pub data StageEnd : Type 0 where
  succeeded_end tolerated_end cancelled_end : StageEnd

abbrev pub cancelled_error : Exn
cancelled_error = runtime_error "Pipeline cancelled by FailurePolicy."

abbrev pub status_of : Bool → ExecutionStatus
status_of has_tolerated_failures = if has_tolerated_failures then failed else completed

module _ {W : Type 0} where
  -- stage_results.append(result)
  unfoldable pub append_result : StageResult → Action W (Unit {0})
  append_result r = modify (λ m. record m { stage_results = m.stage_results ++ r ∷ [] })

module _ {W : Type 0} (x : Executor W) (p : Pipeline W) where
  -- the pipeline stops: the runtime is told, the hooks are told
  unfoldable pub fail_pipeline : Exn → Action W (Unit {0})
  unfolding Runtime.execution_failed emit
  fail_pipeline e = do
    Runtime.execution_failed x.clock (some e)
    emit x p HookType.pipeline_failed none none (some e)

  -- the `except` clause; `again` is the next round of the loop
  unfoldable pub on_exception : (ℕ → Action W StageEnd) → Stage W → ℕ → Exn → Action W StageEnd
  unfolding Runtime.stage_failed emit evaluate_policies Runtime.retry_started
      Runtime.execution_failed Runtime.stage_finished
  on_exception again s attempt e = do
    Runtime.stage_failed e
    emit x p HookType.stage_failed (some s) none (some e)
    decision ← evaluate_policies x p s
    if decision.retry then Runtime.retry_started (attempt + 1) >> again (attempt + 1) else (do
      Runtime.execution_failed x.clock (some e)
      Runtime.stage_finished
      emit x p HookType.pipeline_failed none none (some e)
      raise e)

  -- the rest of the loop's body, with the result that the stage returned
  unfoldable pub on_result : Stage W → StageResult → Action W StageEnd
  unfolding Runtime.stage_result append_result Runtime.stage_finished emit evaluate_policies
      fail_pipeline
  on_result s r = do
    Runtime.stage_result r
    if succeeded r.base
        then (do
          append_result r
          Runtime.stage_finished
          emit x p HookType.after_stage (some s) (some r) none
          pure succeeded_end)
        else (do
          emit x p HookType.stage_failed (some s) (some r) none
          decision ← evaluate_policies x p s
          append_result r
          Runtime.stage_finished
          if decision.cancel_pipeline
              then fail_pipeline cancelled_error >> pure cancelled_end
              else pure tolerated_end)

  -- how the call of the stage ended
  unfoldable pub on_outcome :
      (ℕ → Action W StageEnd) → Stage W → ℕ → Outcome StageResult → Action W StageEnd
  unfolding on_exception on_result
  on_outcome again s attempt (returned r) = on_result s r
  on_outcome again s attempt (raised e) = on_exception again s attempt e
  on_outcome again s attempt out_of_fuel = λ m. (out_of_fuel, m)

  -- while True
  unfoldable pub run_attempts : ℕ → Stage W → ℕ → Action W StageEnd
  unfolding on_outcome execute_stage
  run_attempts zero s attempt m = (out_of_fuel, m)
  run_attempts (suc fuel) s attempt m =
      let (o, m') = execute_stage s m in
      on_outcome (λ next. run_attempts fuel s next) s attempt o m'

  -- the body of the loop over the stages, up to its end
  unfoldable pub run_stage : ℕ → Stage W → Action W StageEnd
  unfolding Runtime.stage_started Runtime.max_attempts emit run_attempts
  run_stage fuel s = do
    Runtime.stage_started s.id
    Runtime.max_attempts s.max_attempts
    emit x p HookType.before_stage (some s) none none
    run_attempts fuel s 1

  -- after the loop over the stages
  unfoldable pub end_pipeline : Bool → Action W ExecutionStatus
  unfolding Runtime.execution_failed Runtime.execution_completed emit
  end_pipeline has_tolerated_failures = do
    if has_tolerated_failures
        then Runtime.execution_failed x.clock none
        else Runtime.execution_completed x.clock
    emit x p HookType.after_pipeline none none none
    pure (status_of has_tolerated_failures)

  -- for stage in pipeline, with `has_tolerated_failures`
  unfoldable pub run_stages : ℕ → List (Option (Stage W)) → Bool → Action W ExecutionStatus
  unfolding run_stage end_pipeline
  run_stages fuel [] has_tolerated_failures = end_pipeline has_tolerated_failures
  run_stages fuel (none ∷ stages) has_tolerated_failures = raise assertion_error
  run_stages fuel (some s ∷ stages) has_tolerated_failures = run_stage fuel s >>= λ end. elim end [
    | succeeded_end ↦ run_stages fuel stages has_tolerated_failures
    | tolerated_end ↦ run_stages fuel stages true
    | cancelled_end ↦ pure failed
  ]

-- `SequentialExecutor._execute_pipeline`
unfoldable pub execute_pipeline :
    {W : Type 0} → Executor W → ℕ → Pipeline W → Action W ExecutionStatus
unfolding Runtime.execution_started emit run_stages flatten
execute_pipeline x fuel p = do
  Runtime.execution_started x.clock
  emit x p HookType.before_pipeline none none none
  run_stages x p fuel (flatten p.stages) false

-- `SequentialExecutor.execute`
unfoldable pub execute_sequential :
    {W : Type 0} → Executor W → ℕ → Pipeline W → Action W PipelineResult
unfolding execute execute_pipeline
execute_sequential x fuel = execute (execute_pipeline x fuel)
