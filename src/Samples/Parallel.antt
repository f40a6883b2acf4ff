-- ===== src/Samples/Parallel.antt =====
-- Executions of a grouped pipeline under sample schedulers.
use modern_data_platform.Prelude.{ℕ, ◌≡◌, refl, Option, some, List, [], ◌∷◌, length, arith}
use modern_data_platform.Processing.Outcome.{returned}
use modern_data_platform.Processing.Core.Status.{completed, failed}
use modern_data_platform.Processing.Core.Results.{PipelineResult}
use modern_data_platform.Processing.Core.Stage.{Stage}
use modern_data_platform.Processing.Core.Pipeline.{Pipeline, lone, group, groups, flatten}
use modern_data_platform.Processing.Machine.{Machine, ◌>>=◌}
use modern_data_platform.Processing.Executor.Base.{execute_stage, evaluate_policies}
use modern_data_platform.Processing.Executor.Parallel.{Task, new_tasks, gather}
use modern_data_platform.Processing.Executor.Parallel.Groups.{
  collect, execute_parallel, execute_pipeline_parallel,
}
use modern_data_platform.Processing.Executor.Parallel.Gather.{Gathered, gather-Gathered}
use modern_data_platform.Processing.Executor.Parallel.Correct.{
  Concludes, execute_parallel-Concludes,
}
use modern_data_platform.Samples.Pipelines.{flaky, ok_stage, bad_stage, executor, start}

-- two members that run at once, and a stage after them
abbrev grouped : Stage ℕ → Stage ℕ → Pipeline ℕ
grouped s t = record {
  id = "g";
  name = "g";
  stages = group (some s ∷ some t ∷ []) ∷ lone (some (ok_stage "z")) ∷ [];
}

-- the first member that is not done, and the last one
abbrev first_open : List (Task ℕ) → Machine ℕ → ℕ
first_open ts m = 0

abbrev last_open : List (Task ℕ) → Machine ℕ → ℕ
last_open ts m = length ts

-- by the number of calls so far
abbrev in_turn : List (Task ℕ) → Machine ℕ → ℕ
in_turn ts m = m.world

abbrev flaky_pair : Pipeline ℕ
flaky_pair = grouped (flaky 3 completed "a" 3) (flaky 2 completed "b" 3)

last_first_run :
    let (o, m) = execute_pipeline_parallel executor flaky_pair last_open 40 start in
    (o ≡ returned completed) × (m.calls ≡ "b" ∷ "b" ∷ "b" ∷ "a" ∷ "z" ∷ [])
unfolding execute_pipeline_parallel ◌>>=◌ execute_stage evaluate_policies collect
last_first_run = (refl, refl)

in_turn_run :
    let (o, m) = execute_pipeline_parallel executor flaky_pair in_turn 40 start in
    (o ≡ returned completed) × (m.calls ≡ "a" ∷ "b" ∷ "b" ∷ "a" ∷ "z" ∷ [])
unfolding execute_pipeline_parallel ◌>>=◌ execute_stage evaluate_policies collect
in_turn_run = (refl, refl)

-- A sibling of a failed member still runs to its end; the next group is not started.
cancelled_run :
    let (o, m) =
      execute_pipeline_parallel executor
        (grouped (bad_stage "a") (ok_stage "b"))
        first_open
        40
        start in
    (o ≡ returned failed) × (m.calls ≡ "a" ∷ "b" ∷ [])
unfolding execute_pipeline_parallel ◌>>=◌ execute_stage evaluate_policies collect
cancelled_run = (refl, refl)

execute_parallel-Concludes_example :
    (r : PipelineResult) × ((execute_parallel executor last_open 40 flaky_pair start).0
      ≡ returned r)
    × Concludes (length (flatten flaky_pair.stages)) r
unfolding groups
execute_parallel-Concludes_example =
    execute_parallel-Concludes executor flaky_pair last_open 40 start (tt, (tt, tt))
      (omega arith, (omega arith, tt))

abbrev pair : List (Option (Stage ℕ))
pair = some (bad_stage "a") ∷ some (ok_stage "b") ∷ []

gather-Gathered_example :
    let (o, m) = gather executor flaky_pair last_open 40 (new_tasks start.vars pair) start in
    Gathered executor flaky_pair (tt, (tt, tt)) (new_tasks start.vars pair) start o m
gather-Gathered_example =
    gather-Gathered executor flaky_pair (tt, (tt, tt)) last_open 40 pair start (omega arith)
