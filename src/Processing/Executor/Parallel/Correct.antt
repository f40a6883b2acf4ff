-- ===== src/Processing/Executor/Parallel/Correct.antt =====
-- What `ParallelExecutor.execute` returns.
use modern_data_platform.Prelude.{
  ℕ, ◌≤◌, ◌≡◌, ◌⊎◌, inl, inr, refl, sym, ◌∙◌, true, false, List, [], ◌∷◌, length, length-append,
  is_some, arith,
}
use modern_data_platform.Processing.Outcome.{Outcome, returned, raised, out_of_fuel}
use modern_data_platform.Processing.Core.Status.{ExecutionStatus, completed, failed}
use modern_data_platform.Processing.Core.Results.{PipelineResult, total_stages, has_failures}
use modern_data_platform.Processing.Core.Pipeline.{Item, lone, group, Pipeline, flatten, groups}
use modern_data_platform.Processing.Machine.{Machine, ◌>>=◌}
use modern_data_platform.Processing.Machine.Ensures.{core, Post}
use modern_data_platform.Processing.Policies.Laws.{AllBuiltin}
use modern_data_platform.Processing.Executor.Base.{
  Executor, execute, finish, completed_result, failed_result, raised_result,
}
use modern_data_platform.Processing.Executor.Sequential.Correct.{any-count}
use modern_data_platform.Processing.Executor.Parallel.{Task}
use modern_data_platform.Processing.Executor.Parallel.Groups.{
  execute_pipeline_parallel, execute_parallel,
}
use modern_data_platform.Processing.Executor.Parallel.Costs.{registrations}
use modern_data_platform.Processing.Executor.Parallel.Runs.{execute_pipeline_parallel-Settled}
use modern_data_platform.Processing.Executor.Parallel.Ends.{GroupsFuelled, members, Settled, Within}

members-groups :
    {W : Type 0} → (items : List (Item W)) → members (groups items) ≡ length (flatten items)
unfolding groups flatten
members-groups [] = refl
members-groups (lone s ∷ items) = omega (arith, members-groups items)
members-groups (group ss ∷ items) =
    omega (arith, members-groups items, length-append ss (flatten items))

-- What a pipeline result says of an execution of `n` stages.
pub record Concludes (n : ℕ) (r : PipelineResult) : Type 0 where
  pub ended : (r.status ≡ completed) ⊎ (r.status ≡ failed)
  pub all_done : r.status ≡ completed → total_stages r ≡ n
  pub all_good : r.status ≡ completed → has_failures r ≡ false
  pub explained : r.status ≡ failed → (has_failures r ≡ true) ⊎ (is_some r.error_type ≡ true)
  pub at_most : total_stages r ≤ n

conclude :
    {W : Type 0} (n : ℕ) (o : Outcome ExecutionStatus) (m : Machine W)
    → Post (Settled n) (λ _. Within n) o (core m)
    → (r : PipelineResult) × ((finish o m).0 ≡ returned r) × Concludes n r
unfolding finish ◌>>=◌
conclude n (returned completed) m h = (
  completed_result m.context.metadata m.stage_results,
  refl,
  record {
    ended = inl refl;
    all_done = λ _. h.0;
    all_good = λ _. sym (any-count m.stage_results) ∙ h.1;
    explained = λ e. cc;
    at_most = omega (arith, h.0);
  },
)
conclude n (returned failed) m h = (
  failed_result m.context.metadata m.stage_results,
  refl,
  record {
    ended = inr refl;
    all_done = λ e. cc;
    all_good = λ e. cc;
    explained = λ _. inl (sym (any-count m.stage_results) ∙ h.1);
    at_most = h.0;
  },
)
conclude n (returned _) m h = absurd h
conclude n (raised e) m h = (
  raised_result e m.context.metadata m.stage_results,
  refl,
  record {
    ended = inr refl;
    all_done = λ e'. cc;
    all_good = λ e'. cc;
    explained = λ _. inr refl;
    at_most = h;
  },
)
conclude n out_of_fuel m h = absurd h

-- With the built-in policies, in any number and order, and fuel for each step that the members of a
-- group may make, `ParallelExecutor.execute` always returns a result under every scheduler, whatever
-- the stages and the hooks do. Its status is COMPLETED or FAILED. If COMPLETED, every stage has a
-- result and none of them failed; if FAILED, some result failed or an error is named. There are
-- never more results than stages.
pub execute_parallel-Concludes :
    {W : Type 0} (x : Executor W) (p : Pipeline W) (choose : List (Task W) → Machine W → ℕ)
    (fuel : ℕ) (m : Machine W)
    → AllBuiltin x.policies
    → GroupsFuelled (registrations x.hook_manager) fuel (groups p.stages)
    → (r : PipelineResult) × ((execute_parallel x choose fuel p m).0 ≡ returned r)
      × Concludes (length (flatten p.stages)) r
unfolding execute_parallel execute
execute_parallel-Concludes x p choose fuel m builtin fuelled =
    let start = record m { stage_results = [] } in
    let (o, m') = execute_pipeline_parallel x p choose fuel start in
    conclude (length (flatten p.stages)) o m' (
      (execute_pipeline_parallel-Settled x p builtin choose fuel (length (flatten p.stages)) fuelled
          (members-groups p.stages)).at
        start (refl, refl))
