-- ===== src/Samples/Witnesses.antt =====
-- Applications of the theorems of processing to the sample pipelines.
use modern_data_platform.Prelude.{
  ◌+◌, replicate, concat, ℕ, ◌≡◌, ◌↔◌, refl, ◌++◌, List, [], ◌∷◌, true, some, none, map, length,
  arith, String, String_Eq, eq_iff,
}
use modern_data_platform.Prelude.Int.{pos}
use modern_data_platform.Processing.Outcome.{Exn, failure, returned, raised, runtime_error}
use modern_data_platform.Processing.Executor.Base.{new_executor}
use modern_data_platform.Processing.Executor.Sequential.{run_stage}
use modern_data_platform.Processing.Executor.Sequential.Turns.{limit}
use modern_data_platform.Processing.Executor.Sequential.Exhaustion.{run_stage_exhausts}
use modern_data_platform.Processing.Core.Status.{completed}
use modern_data_platform.Processing.Core.Results.{PipelineResult}
use modern_data_platform.Processing.Core.Stage.{Stage, no_stage}
use modern_data_platform.Processing.Core.Pipeline.{
  Pipeline, lone, group, flatten, groups, make, flatten_validated, stage_count, builder, named,
  build, add_stages,
}
use modern_data_platform.Processing.Core.Pipeline.Laws.{
  concat-groups, IsWellFormed, make-IsWellFormed, walk_of_IsWellFormed, empty_group-stage_count,
  build-add_stages,
}
use modern_data_platform.Processing.Machine.{Machine}
use modern_data_platform.Processing.Machine.Ensures.{Core, Ensures}
use modern_data_platform.Processing.Policies.{
  PolicyEvent, PolicyContext, Policy, policy_result, cancellation, evaluate,
}
use modern_data_platform.Processing.Policies.Laws.{
  IsConsistent, policy_result-IsConsistent, NoRaise, IsVote, evaluate-IsVote, default_decision,
  evaluate_default,
}
use modern_data_platform.Processing.Executor.Sequential.{execute_sequential}
use modern_data_platform.Processing.Executor.Sequential.Progress.{OnlyLastFails}
use modern_data_platform.Processing.Executor.Sequential.Correct.{
  Reports, execute_sequential-Reports, execute_sequential_fail_fast,
}
use modern_data_platform.Samples.Pipelines.{
  flaky, ok_stage, bad_stage, down_stage, clock, executor, pipeline_of, start,
}

-- a stage that is retried, and one that raises until its attempts are spent
abbrev troubled : Pipeline ℕ
troubled = pipeline_of (flaky 2 completed "a" 3 ∷ down_stage "b" ∷ ok_stage "c" ∷ [])

abbrev stopped : Pipeline ℕ
stopped = pipeline_of (ok_stage "a" ∷ bad_stage "b" ∷ ok_stage "c" ∷ [])

execute_sequential-Reports_example :
    let (o, m') = execute_sequential executor 3 troubled start in
    (r : PipelineResult) × (o ≡ returned r)
    × ((calls : List String) × (m'.calls ≡ start.calls ++ calls)
        × Reports (flatten troubled.stages) calls r)
unfolding flatten
execute_sequential-Reports_example =
    execute_sequential-Reports executor troubled 3 start (tt, (tt, tt))
      (omega arith, (omega arith, (omega arith, tt)))

execute_sequential_fail_fast_example :
    (r : PipelineResult) × ((execute_sequential executor 3 stopped start).0 ≡ returned r)
    × OnlyLastFails r.stage_results
unfolding flatten
execute_sequential_fail_fast_example =
    execute_sequential_fail_fast clock [] stopped 3 start
      (omega arith, (omega arith, (omega arith, tt)))

abbrev at_failure : PolicyContext ℕ
at_failure = record {
  pipeline = stopped;
  stage = some (bad_stage "b");
  event = PolicyEvent.stage_failed;
}

-- the second attempt of three has raised
abbrev retrying : Machine ℕ
retrying = record start {
  vars = record no_stage {
    current_attempt = some 2;
    max_attempts = some 3;
    stage_exception = some (runtime_error "down");
  };
}

evaluate_default_example :
    evaluate clock (Policy.failure true ∷ Policy.retry ∷ []) at_failure retrying
    ≡ (returned (default_decision true retrying.vars), retrying)
evaluate_default_example = evaluate_default clock true at_failure retrying refl

abbrev NoCondition : Core → Type 0
NoCondition d = Unit

evaluate-IsVote_example :
    Ensures
      (λ d. (d.vars ≡ retrying.vars) × NoCondition d)
      (evaluate clock (Policy.timeout (pos 5) ∷ Policy.retry ∷ []) at_failure)
      (λ r d. (d.vars ≡ retrying.vars) × NoCondition d × IsVote retrying.vars r)
      NoRaise
evaluate-IsVote_example =
    evaluate-IsVote clock retrying.vars NoCondition (Policy.timeout (pos 5) ∷ Policy.retry ∷ [])
      at_failure (tt, (tt, tt))

abbrev grouped : Pipeline ℕ
grouped = record {
  id = "p";
  name = "p";
  stages =
      lone (some (ok_stage "a")) ∷ group (some (ok_stage "b") ∷ some (bad_stage "c") ∷ []) ∷ [];
}

concat-groups_example : concat (groups grouped.stages) ≡ flatten grouped.stages
concat-groups_example = concat-groups grouped.stages

make-IsWellFormed_example :
    (make grouped.id grouped.name grouped.stages ≡ returned grouped) ↔ IsWellFormed grouped
make-IsWellFormed_example = make-IsWellFormed grouped

grouped-IsWellFormed : IsWellFormed grouped
unfolding flatten
grouped-IsWellFormed = record {
  has_id = ground (arith, eq_iff "p" "");
  has_name = ground (arith, eq_iff "p" "");
  has_element = λ e. cc;
  distinct = (refl, (refl, (refl, tt)));
}

walk_of_IsWellFormed_example :
    (walk : List (Stage ℕ)) × (flatten_validated (flatten grouped.stages) ≡ returned walk)
    × (map some walk ≡ concat (groups grouped.stages))
    × (stage_count grouped ≡ returned (length walk))
walk_of_IsWellFormed_example = walk_of_IsWellFormed grouped grouped-IsWellFormed

empty_group-stage_count_example :
    let p : Pipeline ℕ = record { id = "p"; name = "q"; stages = group [] ∷ [] } in
    (make "p" "q" (group [] ∷ []) ≡ returned p) × (stage_count p ≡ returned 0)
empty_group-stage_count_example =
    empty_group-stage_count "p" "q" (ground (arith, eq_iff "p" "")) (ground (arith, eq_iff "q" ""))

abbrev two_stages : List (Stage ℕ)
two_stages = ok_stage "a" ∷ bad_stage "b" ∷ []

abbrev built : Pipeline ℕ
built = record {
  id = "p";
  name = "q";
  stages = lone (some (ok_stage "a")) ∷ lone (some (bad_stage "b")) ∷ [];
}

build-add_stages_example :
    (built.id ≡ "p") × (built.name ≡ "q") × (flatten built.stages ≡ map some two_stages)
unfolding build named builder add_stages
build-add_stages_example =
    build-add_stages "p" "q" two_stages (record { id = "p"; name = "q"; stages = two_stages }) built
      refl refl

policy_result-IsConsistent_example :
    (policy_result (cancellation none) ≡ returned (cancellation none)
      → IsConsistent (cancellation none))
    × (IsConsistent (cancellation none)
        → policy_result (cancellation none) ≡ returned (cancellation none))
policy_result-IsConsistent_example = policy_result-IsConsistent (cancellation none)

-- a stage that is never up
abbrev dead : Stage ℕ
dead = record {
  id = "d";
  name = "d";
  max_attempts = 3;
  execute = λ c v w. (failure (runtime_error "down"), c, w + 1);
}

run_stage_exhausts_example :
    let (o, m') = run_stage (new_executor clock []) stopped 3 dead start in
    (e : Exn) × (o ≡ raised e) × (m'.calls ≡ start.calls ++ replicate (limit dead) dead.id)
run_stage_exhausts_example =
    run_stage_exhausts clock stopped dead 3 start (λ c v w. (runtime_error "down", refl))
      (omega arith)
