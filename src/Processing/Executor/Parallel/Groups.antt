-- ===== src/Processing/Executor/Parallel/Groups.antt =====
-- executor/parallel_executor.py: `_execute_pipeline`, the loop over the groups.
use modern_data_platform.Prelude.{
  ℕ, zero, suc, ◌-◌, Bool, false, Option, none, some, List, [], ◌∷◌, ◌++◌, any, drop, length,
  if◌then◌else◌, ◌||◌,
}
use modern_data_platform.Processing.Outcome.{Exn, Outcome, returned, raised, out_of_fuel}
use modern_data_platform.Processing.Core.Status.{ExecutionStatus, failed}
use modern_data_platform.Processing.Core.Results.{StageResult, PipelineResult, has_failed}
use modern_data_platform.Processing.Core.Stage.{Stage}
use modern_data_platform.Processing.Core.Pipeline.{Pipeline, groups}
use modern_data_platform.Processing.Machine.{
  HookType, Machine, Action, pure, raise, modify, ◌>>=◌, ◌>>◌,
}
use modern_data_platform.Processing.Runtime
use modern_data_platform.Processing.Runtime.{tick}
use modern_data_platform.Processing.Executor.Base.{Executor, emit, execute}
use modern_data_platform.Processing.Executor.Sequential.{cancelled_error, end_pipeline}
use modern_data_platform.Processing.Executor.Parallel.{Task, new_tasks, gather}

-- The loop over `outcomes`: the results, whether one cancels, and the first exception.
pub record Collected : Type 0 where
  pub results : List StageResult
  pub cancelled : Bool
  pub technical_failure : Option Exn

unfoldable pub collect : List (Outcome (StageResult × Bool)) → Collected
collect [] = record { results = []; cancelled = false; technical_failure = none }
collect (returned (r, cancel) ∷ os) =
    let rest = collect os in
    record {
      results = r ∷ rest.results;
      cancelled = cancel || rest.cancelled;
      technical_failure = rest.technical_failure;
    }
collect (raised e ∷ os) = let rest = collect os in record rest { technical_failure = some e }
collect (out_of_fuel ∷ os) = collect os

-- xs[-n:]; for n = 0 this is all of xs
abbrev pub last_n : ℕ → List StageResult → List StageResult
last_n zero rs = rs
last_n (suc n) rs = drop (length rs - suc n) rs

-- stage_results.append(result), for each
unfoldable pub append_results : {W : Type 0} → List StageResult → Action W (Unit {0})
append_results rs = modify (λ m. record m { stage_results = m.stage_results ++ rs })

module _ {W : Type 0} (x : Executor W) (p : Pipeline W) where
  -- the end of a group, after the loop over its outcomes; `run_rest` is the next group
  unfoldable pub end_group :
      (Bool → Action W ExecutionStatus) → ℕ → Bool → Collected → Action W ExecutionStatus
  unfolding Runtime.execution_failed emit
  end_group run_rest size tolerated c = elim c.technical_failure [
    | some e ↦ (do
      Runtime.execution_failed x.clock (some e)
      emit x p HookType.pipeline_failed none none (some e)
      raise e)
    | none ↦
        if c.cancelled
        then (do
          Runtime.execution_failed x.clock (some cancelled_error)
          emit x p HookType.pipeline_failed none none (some cancelled_error)
          pure failed)
        else (λ m.
            run_rest (tolerated || any (λ r. has_failed r.base) (last_n size m.stage_results)) m)
  ]

module _ {W : Type 0} (x : Executor W) (p : Pipeline W)
    (choose : List (Task W) → Machine W → ℕ) where
  -- for group in pipeline.groups
  unfoldable pub run_groups : ℕ → List (List (Option (Stage W))) → Bool → Action W ExecutionStatus
  unfolding gather append_results end_group end_pipeline
  run_groups fuel [] tolerated = end_pipeline x p tolerated
  run_groups fuel (group ∷ rest) tolerated = do
    os ← (λ m. gather x p choose fuel (new_tasks m.vars group) m)
    append_results (collect os).results
    end_group x p (λ b. run_groups fuel rest b) (length group) tolerated (collect os)

  -- `ParallelExecutor._execute_pipeline`
  unfoldable pub execute_pipeline_parallel : ℕ → Action W ExecutionStatus
  unfolding Runtime.execution_started emit run_groups groups
  execute_pipeline_parallel fuel = do
    Runtime.execution_started x.clock
    emit x p HookType.before_pipeline none none none
    run_groups fuel (groups p.stages) false

-- `ParallelExecutor.execute`
unfoldable pub execute_parallel :
    {W : Type 0}
    → Executor W
    → (List (Task W) → Machine W → ℕ)
    → ℕ
    → Pipeline W
    → Action W PipelineResult
unfolding execute execute_pipeline_parallel
execute_parallel x choose fuel = execute (λ p. execute_pipeline_parallel x p choose fuel)
