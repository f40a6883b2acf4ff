-- ===== src/Processing/Executor/Parallel.antt =====
-- executor/parallel_executor.py. `_run_stage` is cut where it awaits, so that the members of a group
-- interleave: `advance` runs one member up to its next await, and a scheduler that sees the whole
-- state chooses the member.
pub mod Costs
pub mod Phases
pub mod Tasks
pub mod Gather
pub mod Groups
pub mod Summary
pub mod Ends
pub mod Runs
pub mod Correct
use modern_data_platform.Prelude.{
  ℕ, zero, suc, ◌+◌, ◌-◌, String, Bool, true, false, Option, none, some, List, [], ◌∷◌, ◌++◌, any,
  drop, length, if◌then◌else◌, ◌||◌, ◌&&◌,
}
use modern_data_platform.Processing.Outcome.{
  Exn, Outcome, returned, raised, out_of_fuel, runtime_error,
}
use modern_data_platform.Processing.Core.Status.{ExecutionStatus, failed}
use modern_data_platform.Processing.Core.Results.{
  StageResult, PipelineResult, succeeded, has_failed,
}
use modern_data_platform.Processing.Core.Stage.{Stage, StageVars}
use modern_data_platform.Processing.Core.Pipeline.{Pipeline, groups}
use modern_data_platform.Processing.Machine.{
  HookType, Emission, Machine, Action, pure, raise, modify, perform, ◌>>=◌, ◌>>◌,
}
use modern_data_platform.Processing.Hooks.{Hook, HookContext, get_hooks}
use modern_data_platform.Processing.Runtime
use modern_data_platform.Processing.Runtime.{tick}
use modern_data_platform.Processing.Policies.{PolicyResult}
use modern_data_platform.Processing.Executor.Base.{
  Executor, emit, evaluate_policies, execute_stage, execute, stage_id_of,
}
use modern_data_platform.Processing.Executor.Sequential.{cancelled_error, end_pipeline}

-- What follows the hooks of an event.
pub data After : Type 0 where
  then_call : After
  then_decide : ℕ → Exn → After
  then_judge : StageResult → After
  then_return : StageResult → After

-- Where a member stands: before its first step, among the hooks of an event, before the call of its
-- attempt, before the policies are asked after an exception or after a failed result, at its end.
pub data Phase (W : Type 0) : Type 0 where
  starting : Phase W
  hooking : List (Hook W) → HookContext W → After → Phase W
  calling : ℕ → Phase W
  deciding : ℕ → Exn → Phase W
  judging : StageResult → Phase W
  ended : Outcome (StageResult × Bool) → Phase W

-- An asyncio.Task of a member: its stage, its own copy of the ContextVars, and where it stands.
pub record Task (W : Type 0) : Type 0 where
  pub stage : Option (Stage W)
  pub vars : StageVars
  pub phase : Phase W

abbrev attribute_error : Exn
attribute_error = record {
  type_name = "AttributeError";
  message = "'NoneType' object has no attribute 'id'";
}

abbrev after_phase : {W : Type 0} → After → Phase W
after_phase then_call = calling 1
after_phase (then_decide a e) = deciding a e
after_phase (then_judge r) = judging r
after_phase (then_return r) = ended (returned (r, false))

module _ {W : Type 0} (x : Executor W) (p : Pipeline W) (s : Stage W) where
  -- `_emit`, up to the first of its hooks
  unfoldable pub begin_emit :
      HookType → Option StageResult → Option Exn → After → Machine W → Phase W × Machine W
  begin_emit t result exception after m =
      let (now, w) = x.clock m.world in
      (
        hooking (get_hooks t x.hook_manager)
            (record {
              hook_type = t;
              pipeline = p;
              stage = some s;
              result = result;
              exception = exception;
              timestamp = now;
            })
            after,
        record m {
          world = w;
          emitted =
              m.emitted
              ++ record { hook_type = t; stage = some s.id; result = result; exception = exception }
                ∷ [];
        },
      )

  -- the end of an awaited hook; an exception of a hook leaves `_run_stage`
  abbrev pub hooked : List (Hook W) → HookContext W → After → Outcome (Unit {0}) → Phase W
  hooked hooks c after (returned _) = hooking hooks c after
  hooked hooks c after (raised e) = ended (raised e)
  hooked hooks c after out_of_fuel = ended out_of_fuel

  unfoldable pub hook_step : List (Hook W) → HookContext W → After → Machine W → Phase W × Machine W
  hook_step [] c after m = (after_phase after, m)
  hook_step (hook ∷ hooks) c after m =
      let (o, m') = perform (hook.execute c) m in (hooked hooks c after o, m')

  -- what follows the call of attempt `a`, up to the next await
  unfoldable pub called : ℕ → Outcome StageResult → Machine W → Phase W × Machine W
  unfolding begin_emit
  called a (returned r) m =
      let noted : Machine W = record m { vars = record m.vars { stage_result = some r } } in
      let finished : Machine W = record noted {
        vars = record noted.vars { current_stage = none; current_attempt = none };
      } in
      if succeeded r.base
      then begin_emit HookType.after_stage (some r) none (then_return r) finished
      else begin_emit HookType.stage_failed (some r) none (then_judge r) noted
  called a (raised e) m =
      begin_emit HookType.stage_failed none (some e) (then_decide a e)
        (record m { vars = record m.vars { stage_exception = some e } })
  called a out_of_fuel m = (ended out_of_fuel, m)

  abbrev finish_vars : Machine W → Machine W
  finish_vars m = record m { vars = record m.vars { current_stage = none; current_attempt = none } }

  -- the policies' decision after an exception
  unfoldable pub decided : ℕ → Exn → Outcome PolicyResult → Machine W → Phase W × Machine W
  decided a e (returned d) m =
      if d.retry
      then (
        calling (a + 1),
        record m {
          vars = record m.vars {
            current_attempt = some (a + 1);
            stage_result = none;
            stage_exception = none;
          };
        },
      )
      else (ended (raised e), finish_vars m)
  decided a e (raised e') m = (ended (raised e'), m)
  decided a e out_of_fuel m = (ended out_of_fuel, m)

  -- and after a failed result
  unfoldable pub judged : StageResult → Outcome PolicyResult → Machine W → Phase W × Machine W
  judged r (returned d) m = (ended (returned (r, d.cancel_pipeline)), finish_vars m)
  judged r (raised e) m = (ended (raised e), m)
  judged r out_of_fuel m = (ended out_of_fuel, m)

  -- `_run_stage` from one await to the next
  unfoldable pub advance : Phase W → Machine W → Phase W × Machine W
  unfolding begin_emit hook_step called decided judged
  advance starting m = begin_emit HookType.before_stage none none then_call (record m {
    vars = record m.vars {
      current_stage = some s.id;
      current_attempt = some 1;
      max_attempts = some s.max_attempts;
      stage_result = none;
      stage_exception = none;
    };
  })
  advance (hooking hooks c after) m = hook_step hooks c after m
  advance (calling a) m = let (o, m') = execute_stage s m in called a o m'
  advance (deciding a e) m = let (o, m') = evaluate_policies x p s m in decided a e o m'
  advance (judging r) m = let (o, m') = evaluate_policies x p s m in judged r o m'
  advance (ended o) m = (ended o, m)

module _ {W : Type 0} where
  -- a task is made with a copy of the variables; `None` has no id
  abbrev new_task : StageVars → Option (Stage W) → Task W
  new_task vars none = record { stage = none; vars = vars; phase = ended (raised attribute_error) }
  new_task vars (some s) = record { stage = some s; vars = vars; phase = starting }

  abbrev pub new_tasks : StageVars → List (Option (Stage W)) → List (Task W)
  new_tasks vars [] = []
  new_tasks vars (s ∷ group) = new_task vars s ∷ new_tasks vars group

  abbrev pub phase_done : Phase W → Bool
  phase_done (ended o) = true
  phase_done _ = false

  abbrev pub all_done : List (Task W) → Bool
  all_done [] = true
  all_done (t ∷ ts) = phase_done t.phase && all_done ts

  abbrev pub outcome_of : Phase W → Outcome (StageResult × Bool)
  outcome_of (ended o) = o
  outcome_of _ = out_of_fuel

  -- what `gather(..., return_exceptions=True)` hands back, in the order of the group
  abbrev pub outcomes : List (Task W) → List (Outcome (StageResult × Bool))
  outcomes [] = []
  outcomes (t ∷ ts) = outcome_of t.phase ∷ outcomes ts

module _ {W : Type 0} (x : Executor W) (p : Pipeline W) where
  -- A task runs with its own variables; those of the gathering task stay.
  abbrev pub step_phase : Option (Stage W) → Task W → Machine W → Task W × Machine W
  step_phase none t m = (t, m)
  step_phase (some s) t m =
      let (phase, m') = advance x p s t.phase (record m { vars = t.vars }) in
      (record t { vars = m'.vars; phase = phase }, record m' { vars = m.vars })

  unfoldable pub step_task : Task W → Machine W → Task W × Machine W
  unfolding advance
  step_task t m = step_phase t.stage t m

  -- the task that runs next: the `k`-th that is not done, or the last such
  unfoldable pub step_one : ℕ → List (Task W) → Machine W → List (Task W) × Machine W
  unfolding step_task
  step_one k [] m = ([], m)
  step_one k (t ∷ ts) m =
      let later = step_one k ts m in
      let next = step_one (k - 1) ts m in
      let (t', m') = step_task t m in
      if phase_done t.phase then (t ∷ later.0, later.1) else elim k [
        | zero ↦ (t' ∷ ts, m')
        | suc j ↦ if all_done ts then (t' ∷ ts, m') else (t ∷ next.0, next.1)
      ]

  -- `asyncio.gather` under a scheduler, with fuel
  unfoldable pub gather :
      (List (Task W) → Machine W → ℕ)
      → ℕ
      → List (Task W)
      → Action W (List (Outcome (StageResult × Bool)))
  unfolding step_one
  gather choose zero ts m = if all_done ts then (returned (outcomes ts), m) else (out_of_fuel, m)
  gather choose (suc fuel) ts m =
      let (ts', m') = step_one (choose ts m) ts m in
      let rest = gather choose fuel ts' m' in
      if all_done ts then (returned (outcomes ts), m) else rest
