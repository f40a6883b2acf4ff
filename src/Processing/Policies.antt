-- ===== src/Processing/Policies.antt =====
-- processing/policies: the decisions that an executor asks for after a stage has failed.
pub mod Laws
use modern_data_platform.Prelude.{
  ℕ, ◌-◌, String, Bool, true, false, not, Option, none, some, List, [], ◌∷◌, ◌&&◌, ◌||◌, ltb, leb,
  if◌then◌else◌,
}
use modern_data_platform.Prelude.Int.{ℤ, pos, leb_ℤ, ◌-ℤ◌}
use modern_data_platform.Processing.Outcome.{Exn, Outcome, returned, raised, value_error}
use modern_data_platform.Processing.Core.Results.{StageResult, has_failed}
use modern_data_platform.Processing.Core.Stage.{Stage, StageVars, Effect}
use modern_data_platform.Processing.Core.Pipeline.{Pipeline}
use modern_data_platform.Processing.Machine.{Action, lift, perform, ◌>>=◌}
use modern_data_platform.Processing.Runtime.{current_attempt, current_max_attempts, tick}

-- policy_event.py
pub data PolicyEvent : Type 0 where
  before_pipeline after_pipeline before_stage after_stage pipeline_failed stage_failed : PolicyEvent

-- policy_context.py; its properties are read from the variables of the runtime.
pub record PolicyContext (W : Type 0) : Type 0 where
  pub pipeline : Pipeline W
  pub stage : Option (Stage W)
  pub event : PolicyEvent

-- policy_result.py
pub record PolicyResult : Type 0 where
  pub continue_execution : Bool
  pub retry : Bool
  pub cancel_pipeline : Bool
  pub reason : Option String

-- PolicyResult()
abbrev pub no_decision : PolicyResult
no_decision = record {
  continue_execution = true;
  retry = false;
  cancel_pipeline = false;
  reason = none;
}

-- the constructor, with `__post_init__`
unfoldable pub policy_result : PolicyResult → Outcome PolicyResult
policy_result r =
    if r.cancel_pipeline && r.continue_execution
    then raised (value_error "A cancelled pipeline cannot continue execution.")
    else if r.cancel_pipeline && r.retry
    then raised (value_error "A cancelled pipeline cannot request a retry.")
    else if r.retry && not r.continue_execution
    then raised (value_error "Retry requires execution to continue.")
    else returned r

abbrev is_stage_failed : PolicyEvent → Bool
is_stage_failed PolicyEvent.stage_failed = true
is_stage_failed _ = false

-- `PolicyContext.failed`
abbrev pub failed : Option StageResult → Bool
failed none = false
failed (some r) = has_failed r.base

abbrev pub is_absent : Option Exn → Bool
is_absent none = true
is_absent (some e) = false

-- failure_policy.py
unfoldable pub failure_policy : Bool → PolicyEvent → StageVars → Outcome PolicyResult
unfolding policy_result
failure_policy fail_fast event v =
    if not (is_stage_failed event)
    then policy_result no_decision
    else if not (is_absent v.stage_exception)
    then policy_result no_decision
    else if not (failed v.stage_result)
    then policy_result no_decision
    else if fail_fast
    then policy_result (record {
      continue_execution = false;
      retry = false;
      cancel_pipeline = true;
      reason = some "Pipeline interrupted due to stage failure.";
    })
    else policy_result (record no_decision { reason = some "Stage failure ignored by policy." })

-- retry_policy.py
unfoldable pub retry_policy : PolicyEvent → StageVars → Outcome PolicyResult
unfolding policy_result
retry_policy event v =
    if not (is_stage_failed event)
    then policy_result no_decision
    else if is_absent v.stage_exception
    then policy_result no_decision
    else if ltb (current_attempt v) (current_max_attempts v)
    then policy_result (record no_decision { retry = true; reason = some "Retry allowed." })
    else policy_result (record no_decision { reason = some "Maximum retry attempts reached." })

-- timeout_policy.py; `timeout` in microseconds, which may be negative. A `started_at` without a time
-- zone, from which `now` cannot be subtracted, is left out.
unfoldable pub timeout_policy : ℤ → Option ℕ → ℕ → Outcome PolicyResult
unfolding policy_result
timeout_policy timeout none now = policy_result no_decision
timeout_policy timeout (some started_at) now =
    if leb_ℤ (pos now -ℤ pos started_at) timeout
    then policy_result no_decision
    else policy_result (record {
      continue_execution = false;
      retry = false;
      cancel_pipeline = true;
      reason = some "Execution timeout exceeded.";
    })

-- The subclasses of `Policy`; `custom` is one that the framework does not define.
pub data Policy (W : Type 0) : Type 0 where
  failure : Bool → Policy W
  retry : Policy W
  timeout : ℤ → Policy W
  custom : (PolicyContext W → Effect W PolicyResult) → Policy W

abbrev first_reason : Option String → Option String → Option String
first_reason none later = later
first_reason (some s) later = some s

-- The variables of the loop of `PolicyManager.evaluate`; their first values are `no_decision`.
unfoldable pub merge : PolicyResult → PolicyResult → PolicyResult
merge acc r = record {
  continue_execution = acc.continue_execution && r.continue_execution;
  retry = acc.retry || r.retry;
  cancel_pipeline = acc.cancel_pipeline || r.cancel_pipeline;
  reason = first_reason acc.reason r.reason;
}

abbrev pub cancellation : Option String → PolicyResult
cancellation reason = record {
  continue_execution = false;
  retry = false;
  cancel_pipeline = true;
  reason = reason;
}

module _ {W : Type 0} (clock : W → ℕ × W) where
  -- the clock is read only if there is a start
  unfoldable pub evaluate_timeout : ℤ → Option ℕ → Action W PolicyResult
  unfolding tick timeout_policy
  evaluate_timeout limit none = lift (timeout_policy limit none 0)
  evaluate_timeout limit (some t) = tick clock >>= λ now. lift (timeout_policy limit (some t) now)

  -- `Policy.evaluate`
  unfoldable pub evaluate_policy : Policy W → PolicyContext W → Action W PolicyResult
  unfolding failure_policy retry_policy evaluate_timeout
  evaluate_policy (failure fail_fast) c m = (failure_policy fail_fast c.event m.vars, m)
  evaluate_policy retry c m = (retry_policy c.event m.vars, m)
  evaluate_policy (timeout limit) c m = evaluate_timeout limit m.context.metadata.started_at m
  evaluate_policy (custom f) c m = perform (f c) m

  -- The loop of `PolicyManager.evaluate`. Cancellation ends it.
  unfoldable pub evaluate_from :
      PolicyResult → List (Policy W) → PolicyContext W → Action W PolicyResult
  unfolding evaluate_policy merge policy_result
  evaluate_from acc [] c = lift (policy_result acc)
  evaluate_from acc (p ∷ ps) c = do
    r ← evaluate_policy p c
    let acc' = merge acc r
    if acc'.cancel_pipeline
        then lift (policy_result (cancellation acc'.reason))
        else evaluate_from acc' ps c

  unfoldable pub evaluate : List (Policy W) → PolicyContext W → Action W PolicyResult
  unfolding evaluate_from
  evaluate = evaluate_from no_decision
