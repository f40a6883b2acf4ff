-- ===== src/Processing/Executor/Sequential/Correct.antt =====
-- What `SequentialExecutor.execute` returns.
use mathlib.Core.Path.{subst}
use modern_data_platform.Prelude.{
  ℕ, ◌≤◌, String, true, false, Option, some, List, [], ◌∷◌, ◌++◌, ◌≡◌, ◌⊎◌, inl, inr, refl, sym,
  length, arith, any, count, is_some, ap, ◌∙◌, ltb,
}
use modern_data_platform.Processing.Outcome.{Outcome, returned, raised, out_of_fuel}
use modern_data_platform.Processing.Core.Status.{ExecutionStatus, completed, failed}
use modern_data_platform.Processing.Core.Results.{
  StageResult, PipelineResult, total_stages, has_failures,
}
use modern_data_platform.Processing.Core.Stage.{Stage, StageVars}
use modern_data_platform.Processing.Core.Pipeline.{Pipeline, flatten}
use modern_data_platform.Processing.Machine.{Machine, ◌>>=◌}
use modern_data_platform.Processing.Machine.Ensures.{core, Post}
use modern_data_platform.Processing.Hooks.{HookManager}
use modern_data_platform.Processing.Runtime.{current_attempt, current_max_attempts}
use modern_data_platform.Processing.Policies.{PolicyEvent, PolicyContext, PolicyResult}
use modern_data_platform.Processing.Policies.Laws.{
  AllBuiltin, IsVote, evaluate-IsVote, evaluate_default, default_decision,
}
use modern_data_platform.Processing.Executor.Base.{
  Executor, new_executor, evaluate_policies, execute, finish, completed_result, failed_result,
  raised_result,
}
use modern_data_platform.Processing.Executor.Sequential.{execute_pipeline, execute_sequential}
use modern_data_platform.Processing.Executor.Sequential.Turns.{Advice, Spared}
use modern_data_platform.Processing.Executor.Sequential.Progress.{
  is_bad, CallsOf, OnlyLastFails, Progress,
}
use modern_data_platform.Processing.Executor.Sequential.Runs.{
  Fuelled, execute_pipeline_lem, AtStatus,
}

module _ {W : Type 0} (x : Executor W) (p : Pipeline W) where
  pub builtin_advice : AllBuiltin x.policies → Advice x p IsVote
  unfolding evaluate_policies
  builtin_advice builtin = record {
    decides = λ V P s. evaluate-IsVote x.clock V P x.policies _ builtin;
    bounded = λ V r vote. vote.retry_bounded;
  }

-- the decision of the default policies
abbrev pub Default : StageVars → PolicyResult → Type 0
Default V d = d ≡ default_decision true V

Default-bounded :
    (V : StageVars) (r : PolicyResult)
    → Default V r
    → r.retry ≡ true
    → ltb (current_attempt V) (current_max_attempts V) ≡ true
Default-bounded V r e asked = ground arith

-- under the default policies no failed result is let pass
not_spared : ¬ Spared Default
not_spared (V, d, decided, no_exception, was_failed, spared) = ground arith

module _ {W : Type 0} (clock : W → ℕ × W) (hooks : HookManager W) (p : Pipeline W) where
  pub Default-advice : Advice (new_executor clock hooks) p Default
  unfolding evaluate_policies
  Default-advice = record {
    decides = λ V P s. record {
      at = λ m q.
          let c : PolicyContext W = record {
            pipeline = p;
            stage = some s;
            event = PolicyEvent.stage_failed;
          } in
          rw (evaluate_default clock true c m refl) (q.0, q.1, ap (default_decision true) q.0);
    };
    bounded = Default-bounded;
  }

-- What a pipeline result says of an execution over the stages `ss`, which made the calls `calls`.
pub record Reports {W : Type 0} (ss : List (Option (Stage W))) (calls : List String)
    (r : PipelineResult) : Type 0 where
  pub ended : (r.status ≡ completed) ⊎ (r.status ≡ failed)
  pub all_done : r.status ≡ completed → total_stages r ≡ length ss
  pub all_good : r.status ≡ completed → has_failures r ≡ false
  pub explained : r.status ≡ failed → (has_failures r ≡ true) ⊎ (is_some r.error_type ≡ true)
  pub at_most : total_stages r ≤ length ss
  pub in_order : CallsOf ss r.stage_results calls

pub any-count : (rs : List StageResult) → any is_bad rs ≡ ltb 0 (count is_bad rs)
any-count [] = refl
any-count (r ∷ rs) = ground (arith, any-count rs)

-- The outcome of an execution that began with the calls `C`: it is a result, with its report.
abbrev pub Reported :
    {W : Type 0}
    → (StageVars → PolicyResult → Type 0)
    → List (Option (Stage W))
    → List String
    → Outcome PipelineResult
    → List String
    → Type 0
Reported D ss C o now =
    (r : PipelineResult) × (o ≡ returned r)
    × ((calls : List String) × (now ≡ C ++ calls) × Reports ss calls r)
    × (¬ Spared D → OnlyLastFails r.stage_results)

failed_explained :
    (results : List StageResult)
    → (false ≡ true) ⊎ (any is_bad results ≡ true)
    → any is_bad results ≡ true
failed_explained results (inl e) = cc
failed_explained results (inr e) = e

module _ {W : Type 0} (D : StageVars → PolicyResult → Type 0) (ss : List (Option (Stage W)))
    (C : List String) where
  same_length :
      (m : Machine W) (g : Progress D ss [] C (core m)) → length m.stage_results ≡ length g.results
  same_length m g = ap length g.results_eq

  same_failures :
      (m : Machine W) (g : Progress D ss [] C (core m))
      → ltb 0 (count is_bad m.stage_results) ≡ any is_bad g.results
  same_failures m g = sym (any-count m.stage_results) ∙ ap (any is_bad) g.results_eq

  order_of : (m : Machine W) (g : Progress D ss [] C (core m)) → CallsOf ss m.stage_results g.calls
  order_of m g = subst (λ rs. CallsOf ss rs g.calls) (sym g.results_eq) g.order

  only_last_of :
      (m : Machine W) (g : Progress D ss [] C (core m)) → ¬ Spared D → OnlyLastFails m.stage_results
  only_last_of m g n = subst OnlyLastFails (sym g.results_eq) (g.fail_fast n)

  report :
      (o : Outcome ExecutionStatus) (m : Machine W)
      → Post (AtStatus D false ss [] C) (λ _. Progress D ss [] C) o (core m)
      → Reported D ss C (finish o m).0 (finish o m).1.calls
  unfolding finish ◌>>=◌
  report (returned completed) m h = (
    completed_result m.context.metadata m.stage_results,
    refl,
    (
      h.0.calls,
      h.0.calls_eq,
      record {
        ended = inl refl;
        all_done = λ _. same_length m h.0 ∙ h.1.1;
        all_good = λ _. same_failures m h.0 ∙ h.1.2;
        explained = λ e. cc;
        at_most = omega (arith, same_length m h.0, h.0.bounded);
        in_order = order_of m h.0;
      },
    ),
    only_last_of m h.0,
  )
  report (returned failed) m h = (
    failed_result m.context.metadata m.stage_results,
    refl,
    (
      h.0.calls,
      h.0.calls_eq,
      record {
        ended = inr refl;
        all_done = λ e. cc;
        all_good = λ e. cc;
        explained = λ _. inl (same_failures m h.0 ∙ failed_explained h.0.results h.1);
        at_most = omega (arith, same_length m h.0, h.0.bounded);
        in_order = order_of m h.0;
      },
    ),
    only_last_of m h.0,
  )
  report (returned _) m h = absurd h.1
  report (raised e) m g = (
    raised_result e m.context.metadata m.stage_results,
    refl,
    (
      g.calls,
      g.calls_eq,
      record {
        ended = inr refl;
        all_done = λ e'. cc;
        all_good = λ e'. cc;
        explained = λ _. inr refl;
        at_most = omega (arith, same_length m g, g.bounded);
        in_order = order_of m g;
      },
    ),
    only_last_of m g,
  )
  report out_of_fuel m h = absurd h

module _ {W : Type 0} (x : Executor W) (p : Pipeline W) where
  execute_Reported :
      (D : StageVars → PolicyResult → Type 0) (fuel : ℕ) (m : Machine W)
      → Advice x p D
      → Fuelled fuel (flatten p.stages)
      → let (o, m') = execute_sequential x fuel p m in
        Reported D (flatten p.stages) m.calls o m'.calls
  unfolding execute_sequential execute
  execute_Reported D fuel m advice fuelled =
      let start : Machine W = record m { stage_results = [] } in
      let (o, m') = execute_pipeline x fuel p start in
      report D (flatten p.stages) m.calls o m'
        ((execute_pipeline_lem x p D advice fuel [] m.calls fuelled).at start (refl, refl))

  -- With the built-in policies, in any number and order, and fuel for each attempt that a stage may
  -- make, `execute` always returns a result, whatever the stages and the hooks do. Its status is
  -- COMPLETED or FAILED. If COMPLETED, every stage has a result and none of them failed; if FAILED,
  -- some result failed or an error is named. There are never more results than stages. The calls
  -- go with the results: the first stages, in order and with none left out, have a result each and
  -- were called at least once and at most as often as their `max_attempts` allows; the stage after
  -- the last result may have been called too, up to its `max_attempts`, and no other stage was.
  pub execute_sequential-Reports :
      (fuel : ℕ) (m : Machine W)
      → AllBuiltin x.policies
      → Fuelled fuel (flatten p.stages)
      → let (o, m') = execute_sequential x fuel p m in
        (r : PipelineResult) × (o ≡ returned r)
        × ((calls : List String) × (m'.calls ≡ m.calls ++ calls)
            × Reports (flatten p.stages) calls r)
  execute_sequential-Reports fuel m builtin fuelled =
      let (r, e, calls, _) = execute_Reported IsVote fuel m (builtin_advice x p builtin) fuelled in
      (r, e, calls)

-- Under the default policies the results stop at the first failure: in the result of `execute`,
-- every stage result but the last is a success.
pub execute_sequential_fail_fast :
    {W : Type 0} (clock : W → ℕ × W) (hooks : HookManager W) (p : Pipeline W) (fuel : ℕ)
    (m : Machine W)
    → Fuelled fuel (flatten p.stages)
    → (r : PipelineResult) × ((execute_sequential (new_executor clock hooks) fuel p m).0
        ≡ returned r)
      × OnlyLastFails r.stage_results
execute_sequential_fail_fast clock hooks p fuel m fuelled =
    let (r, e, calls, only) =
      execute_Reported (new_executor clock hooks) p Default fuel m (Default-advice clock hooks p)
        fuelled in
    (r, e, only not_spared)
