-- ===== src/Processing/Executor/Parallel/Runs.antt =====
-- The loop over the groups: what the results come to at its end.
use mathlib.Core.Path.{subst}
use modern_data_platform.Prelude.{
  ℕ, ◌+◌, ◌≤◌, ◌≡◌, refl, ◌∙◌, Bool, false, Option, none, List, [], ◌∷◌, length, arith,
}
use modern_data_platform.Processing.Outcome.{Exn, Outcome}
use modern_data_platform.Processing.Core.Results.{StageResult}
use modern_data_platform.Processing.Core.Stage.{Stage}
use modern_data_platform.Processing.Core.Pipeline.{Pipeline, groups}
use modern_data_platform.Processing.Machine.{HookType, Machine}
use modern_data_platform.Processing.Machine.Ensures.{
  Core, core, Post, Ensures, Ensures-bind, Ensures-after, Ensures-weaken, Ensures-modify,
}
use modern_data_platform.Processing.Policies.Laws.{AllBuiltin}
use modern_data_platform.Processing.Executor.Base.{Executor}
use modern_data_platform.Processing.Executor.Base.Frames.{Frames-emit, Ensures-execution_started}
use modern_data_platform.Processing.Executor.Parallel.{Task, gather, new_tasks}
use modern_data_platform.Processing.Executor.Parallel.Groups.{
  collect, append_results, run_groups, execute_pipeline_parallel,
}
use modern_data_platform.Processing.Executor.Parallel.Costs.{registrations}
use modern_data_platform.Processing.Executor.Parallel.Gather.{
  group_cost, length-new_tasks, Gathered, gather-Gathered,
}
use modern_data_platform.Processing.Executor.Parallel.Summary.{Summed, collect-Summed}
use modern_data_platform.Processing.Executor.Parallel.Ends.{
  GroupsFuelled, Joined, Settled, Tally, Within, end_group-Settled, end_pipeline-Settled, members,
}

module _ {W : Type 0} (x : Executor W) (p : Pipeline W) (builtin : AllBuiltin x.policies)
    (choose : List (Task W) → Machine W → ℕ) (fuel N : ℕ) where
  abbrev H : ℕ
  H = registrations x.hook_manager

  -- the outcomes of a group, and the results before it
  abbrev GatheredOver : ℕ → Bool → ℕ → List (Outcome (StageResult × Bool)) → Core → Type 0
  GatheredOver n tolerated size os d = Tally n tolerated d × Summed size (collect os)

  gather-Ensures :
      (n : ℕ) (tolerated : Bool) (group : List (Option (Stage W)))
      → group_cost H group ≤ fuel
      → Ensures
          (Tally n tolerated)
          (λ m. gather x p choose fuel (new_tasks m.vars group) m)
          (GatheredOver n tolerated (length group))
          (λ _. Within N)
  gather-Ensures n tolerated group enough = record {
    at = λ m h.
        let g = gather-Gathered x p builtin choose fuel group m enough in
        by_gathered m (gather x p choose fuel (new_tasks m.vars group) m).0
          (gather x p choose fuel (new_tasks m.vars group) m).1 h g;
  }
    where
      by_gathered :
          (m : Machine W) (o : Outcome (List (Outcome (StageResult × Bool)))) (m' : Machine W)
          → Tally n tolerated (core m)
          → Gathered x p builtin (new_tasks m.vars group) m o m'
          → Post (GatheredOver n tolerated (length group)) (λ _. Within N) o (core m')
      by_gathered m o m' h g = rw g.returns (
        (rw g.untouched h.0, rw g.untouched h.1),
        subst (λ k. Summed k (collect g.os)) (g.one_each ∙ length-new_tasks m.vars group)
            (collect-Summed g.os g.all_ended),
      )

  append-Joined :
      (n : ℕ) (tolerated : Bool) (size : ℕ) (os : List (Outcome (StageResult × Bool)))
      → Ensures {W = W}
          (GatheredOver n tolerated size os)
          (append_results (collect os).results)
          (λ _. Joined n tolerated size (collect os))
          (λ _. Within N)
  unfolding append_results
  append-Joined n tolerated size os =
      Ensures-modify (GatheredOver n tolerated size os) _ (Joined n tolerated size (collect os))
        (λ _. Within N) (λ m h. (m.stage_results, h.0.0, h.0.1, refl, h.1))

  -- The loop over the groups ends, with a status that the results bear out.
  run_groups-Settled :
      (gs : List (List (Option (Stage W)))) (n : ℕ) (tolerated : Bool)
      → GroupsFuelled H fuel gs
      → n + members gs ≡ N
      → Ensures
          (Tally n tolerated)
          (run_groups x p choose fuel gs tolerated)
          (Settled N)
          (λ _. Within N)
  unfolding run_groups
  run_groups-Settled [] n tolerated fuelled h =
      Ensures-weaken _ (λ c q. (omega (arith, q.0, h), q.1)) (λ _ c q. q) (λ _ c q. q)
        (end_pipeline-Settled x p N tolerated)
  run_groups-Settled (group ∷ gs) n tolerated fuelled h =
      Ensures-bind (GatheredOver n tolerated (length group)) _ _
        (gather-Ensures n tolerated group fuelled.0)
        λ os.
          Ensures-bind (λ _. Joined n tolerated (length group) (collect os)) _ _
            (append-Joined n tolerated (length group) os)
            λ _.
              end_group-Settled x p N n tolerated (length group) (collect os)
                (λ b. run_groups x p choose fuel gs b) (omega (arith, h))
                (λ b. run_groups-Settled gs (n + length group) b fuelled.1 (omega (arith, h)))

  -- And so does the strategy, with as many results as stages at most.
  pub execute_pipeline_parallel-Settled :
      GroupsFuelled H fuel (groups p.stages)
      → members (groups p.stages) ≡ N
      → Ensures
          (Tally 0 false)
          (execute_pipeline_parallel x p choose fuel)
          (Settled N)
          (λ _. Within N)
  unfolding execute_pipeline_parallel
  execute_pipeline_parallel-Settled fuelled h =
      Ensures-bind (λ _. Tally 0 false) _ _
        (Ensures-execution_started x.clock (Tally 0 false) (Tally 0 false) (λ _. Within N)
          (λ c q. q) stopped)
        λ _.
          Ensures-after _ _ (Frames-emit x p HookType.before_pipeline none none none) stopped
            λ _. run_groups-Settled (groups p.stages) 0 false fuelled (omega (arith, h))
    where
      stopped : (e : Exn) (c : Core) → Tally 0 false c → Within N c
      stopped e c q = omega (arith, q.0)
