-- ===== src/Processing/Policies/Laws.antt =====
-- What the policies and their manager decide.
use mathlib.Core.Path.{subst}
use modern_data_platform.Prelude.{
  ℕ, Bool, true, false, Option, none, some, List, [], ◌∷◌, ◌≡◌, refl, arith, ltb, not,
  if◌then◌else◌,
}
use modern_data_platform.Prelude.Int.{ℤ}
use modern_data_platform.Processing.Outcome.{Exn, Outcome, returned, raised, out_of_fuel}
use modern_data_platform.Processing.Core.Stage.{StageVars}
use modern_data_platform.Processing.Machine.{Machine, Action, lift, ◌>>=◌}
use modern_data_platform.Processing.Machine.Ensures.{
  Core, core, Post, Ensures, Frames, Ensures-bind, Ensures-weaken, Ensures-given, Ensures-if,
}
use modern_data_platform.Processing.Runtime.{tick, current_attempt, current_max_attempts}
use modern_data_platform.Processing.Policies.{
  PolicyEvent, PolicyContext, PolicyResult, no_decision, policy_result, failure_policy,
  retry_policy, timeout_policy, Policy, merge, cancellation, evaluate_timeout, evaluate_policy,
  evaluate_from, evaluate, is_absent, failed,
}

-- The combinations that `__post_init__` accepts.
pub record IsConsistent (r : PolicyResult) : Type 0 where
  pub stops : r.cancel_pipeline ≡ true → r.continue_execution ≡ false
  pub no_retry : r.cancel_pipeline ≡ true → r.retry ≡ false
  pub goes_on : r.retry ≡ true → r.continue_execution ≡ true

-- The constructor of a policy result returns its argument exactly when that is consistent: a
-- cancellation neither continues nor retries, and a retry continues.
pub policy_result-IsConsistent :
    (r : PolicyResult)
    → (policy_result r ≡ returned r → IsConsistent r)
      × (IsConsistent r → policy_result r ≡ returned r)
unfolding policy_result
policy_result-IsConsistent r = ground arith

-- A result that stops the execution only by a cancellation, and then asks for no retry.
pub record IsPlain (r : PolicyResult) : Type 0 where
  pub decided : r.continue_execution ≡ not r.cancel_pipeline
  pub calm : r.cancel_pipeline ≡ true → r.retry ≡ false

-- What a vote says, given the variables at which it was asked for: a retry is asked for only while
-- an attempt is left.
pub record IsVote (v : StageVars) (r : PolicyResult) : Type 0 where
  pub plain : IsPlain r
  pub retry_bounded : r.retry ≡ true → ltb (current_attempt v) (current_max_attempts v) ≡ true

abbrev VoteOf : StageVars → Outcome PolicyResult → Type 0
VoteOf v (returned r) = IsVote v r
VoteOf v _ = ⊥

failure_policy-VoteOf :
    (fail_fast : Bool) (event : PolicyEvent) (v : StageVars)
    → VoteOf v (failure_policy fail_fast event v)
unfolding failure_policy
failure_policy-VoteOf fail_fast event v = ground arith

retry_policy-VoteOf : (event : PolicyEvent) (v : StageVars) → VoteOf v (retry_policy event v)
unfolding retry_policy
retry_policy-VoteOf event v = ground arith

timeout_policy-VoteOf :
    (limit : ℤ) (started_at : Option ℕ) (now : ℕ) (v : StageVars)
    → VoteOf v (timeout_policy limit started_at now)
unfolding timeout_policy
timeout_policy-VoteOf limit none now v = ground arith
timeout_policy-VoteOf limit (some t) now v = ground arith

-- The policies that this package defines.
abbrev pub IsBuiltin : {W : Type 0} → Policy W → Type 0
IsBuiltin (Policy.custom f) = ⊥
IsBuiltin _ = Unit

abbrev pub AllBuiltin : {W : Type 0} → List (Policy W) → Type 0
AllBuiltin [] = Unit
AllBuiltin (p ∷ ps) = IsBuiltin p × AllBuiltin ps

abbrev pub NoRaise : Exn → Core → Type 0
NoRaise _ _ = ⊥

-- The table of decisions that the documentation of the executor gives for its default policies.
abbrev pub default_decision : Bool → StageVars → PolicyResult
default_decision fail_fast v =
    if not (is_absent v.stage_exception)
    then (if ltb (current_attempt v) (current_max_attempts v)
        then record no_decision { retry = true; reason = some "Retry allowed." }
        else record no_decision { reason = some "Maximum retry attempts reached." })
    else if not (failed v.stage_result)
    then no_decision
    else if fail_fast
    then cancellation (some "Pipeline interrupted due to stage failure.")
    else record no_decision { reason = some "Stage failure ignored by policy." }

module _ {W : Type 0} (clock : W → ℕ × W) where
  pub Frames-tick : Frames (tick clock)
  unfolding tick
  Frames-tick = record { same = λ m. refl; ends = λ m. tt }

  Post-IsVote :
      (P : Core → Type 0) (o : Outcome PolicyResult) (c : Core)
      → VoteOf c.vars o
      → P c
      → Post (λ r d. P d × IsVote d.vars r) NoRaise o c
  Post-IsVote P (returned r) c v p = (p, v)
  Post-IsVote P (raised e) c v p = absurd v
  Post-IsVote P out_of_fuel c v p = absurd v

  evaluate_timeout-IsVote :
      (P : Core → Type 0) (limit : ℤ) (started_at : Option ℕ)
      → Ensures P (evaluate_timeout clock limit started_at) (λ r d. P d × IsVote d.vars r) NoRaise
  unfolding evaluate_timeout ◌>>=◌ tick
  evaluate_timeout-IsVote P limit none = record {
    at = λ m q.
        Post-IsVote P (timeout_policy limit none 0) (core m)
          (timeout_policy-VoteOf limit none 0 m.vars) q;
  }
  evaluate_timeout-IsVote P limit (some t) = record {
    at = λ m q.
        Post-IsVote P (timeout_policy limit (some t) (clock m.world).0) (core m)
          (timeout_policy-VoteOf limit (some t) (clock m.world).0 m.vars) q;
  }

  evaluate_policy-IsVote :
      (P : Core → Type 0) (p : Policy W) (c : PolicyContext W)
      → IsBuiltin p
      → Ensures P (evaluate_policy clock p c) (λ r d. P d × IsVote d.vars r) NoRaise
  unfolding evaluate_policy
  evaluate_policy-IsVote P (Policy.failure b) c h = record {
    at = λ m q. Post-IsVote P _ (core m) (failure_policy-VoteOf b c.event m.vars) q;
  }
  evaluate_policy-IsVote P Policy.retry c h = record {
    at = λ m q. Post-IsVote P _ (core m) (retry_policy-VoteOf c.event m.vars) q;
  }
  evaluate_policy-IsVote P (Policy.timeout limit) c h = record {
    at = λ m. (evaluate_timeout-IsVote P limit m.context.metadata.started_at).at m;
  }
  evaluate_policy-IsVote P (Policy.custom f) c h = absurd h

  -- The accumulated decision before a vote.
  abbrev Open : StageVars → PolicyResult → Type 0
  Open v acc = IsVote v acc × (acc.cancel_pipeline ≡ false)

  merge-Open :
      (v : StageVars) (acc r : PolicyResult)
      → Open v acc
      → IsVote v r
      → (merge acc r).cancel_pipeline ≡ false
      → Open v (merge acc r)
  unfolding merge
  merge-Open v acc r ha hr cm = ground arith

  result_of_Open :
      (v : StageVars) (acc : PolicyResult) → Open v acc → policy_result acc ≡ returned acc
  unfolding policy_result
  result_of_Open v acc h = ground arith

  decide :
      (V : StageVars) (P : Core → Type 0) (acc : PolicyResult) (k : Action W PolicyResult)
      → (acc.cancel_pipeline ≡ false
          → Ensures (λ d. (d.vars ≡ V) × P d) k (λ r d. (d.vars ≡ V) × P d × IsVote V r) NoRaise)
      → Ensures
          (λ d. (d.vars ≡ V) × P d)
          (if acc.cancel_pipeline then lift (policy_result (cancellation acc.reason)) else k)
          (λ r d. (d.vars ≡ V) × P d × IsVote V r)
          NoRaise
  unfolding policy_result
  decide V P acc k rest =
      Ensures-if acc.cancel_pipeline _ k
        (λ cancels. record { at = λ m q. (q.0, q.1, ground arith) }) rest

  evaluate_from-IsVote :
      (V : StageVars) (P : Core → Type 0) (acc : PolicyResult) (ps : List (Policy W))
      (c : PolicyContext W)
      → AllBuiltin ps
      → Open V acc
      → Ensures
          (λ d. (d.vars ≡ V) × P d)
          (evaluate_from clock acc ps c)
          (λ r d. (d.vars ≡ V) × P d × IsVote V r)
          NoRaise
  unfolding evaluate_from
  evaluate_from-IsVote V P acc [] c h open_acc = record {
    at = λ m q. rw (result_of_Open V acc open_acc) (q.0, q.1, open_acc.0);
  }
  evaluate_from-IsVote V P acc (p ∷ ps) c h open_acc =
      Ensures-bind (λ r d. ((d.vars ≡ V) × P d) × IsVote d.vars r) (evaluate_policy clock p c) _
        (evaluate_policy-IsVote (λ d. (d.vars ≡ V) × P d) p c h.0)
        λ r.
          Ensures-given _ (λ d q. subst (λ v. IsVote v r) q.0.0 q.1)
            λ vote.
              Ensures-weaken _ (λ d q. q.0) (λ a d q. q) (λ e d q. q)
                (decide V P (merge acc r) _ λ goes_on.
                  evaluate_from-IsVote V P (merge acc r) ps c h.1
                    (merge-Open V acc r open_acc vote goes_on))

  -- Any list of the built-in policies comes to a decision: evaluating it raises nothing, changes
  -- no stage variable, result or call, and its decision continues exactly if it does not cancel,
  -- asks for no retry if it cancels, and asks for one only while the attempt number is below the
  -- maximum.
  pub evaluate-IsVote :
      (V : StageVars) (P : Core → Type 0) (ps : List (Policy W)) (c : PolicyContext W)
      → AllBuiltin ps
      → Ensures
          (λ d. (d.vars ≡ V) × P d)
          (evaluate clock ps c)
          (λ r d. (d.vars ≡ V) × P d × IsVote V r)
          NoRaise
  unfolding evaluate
  evaluate-IsVote V P ps c h = evaluate_from-IsVote V P no_decision ps c h (ground arith)

  -- At a stage failure the failure policy and the retry policy decide together: an exception is
  -- retried while the attempt number is below the maximum and never cancels; a failed result
  -- cancels exactly under `fail_fast` and is never retried; with neither, nothing is asked for.
  -- The evaluation changes nothing.
  pub evaluate_default :
      (fail_fast : Bool) (c : PolicyContext W) (m : Machine W)
      → c.event ≡ PolicyEvent.stage_failed
      → evaluate clock (Policy.failure fail_fast ∷ Policy.retry ∷ []) c m
        ≡ (returned (default_decision fail_fast m.vars), m)
  unfolding evaluate evaluate_from evaluate_policy merge policy_result failure_policy retry_policy
      ◌>>=◌
  evaluate_default fail_fast c m e = ground arith
