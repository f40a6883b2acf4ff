-- ===== src/Processing/Executor/Parallel/Tasks.antt =====
-- Each step of a member keeps what is known of it and costs a step.
use mathlib.Core.Path.{subst}
use modern_data_platform.Prelude.{
  ℕ, ◌-◌, ◌≡◌, ◌⊎◌, inl, inr, refl, ap, sym, ◌∙◌, true, false, none, some, arith, Bool-cases,
}
use modern_data_platform.Processing.Executor.Sequential.Turns.{limit_pos}
use modern_data_platform.Processing.Outcome.{Exn, Outcome, returned, raised, out_of_fuel, Ends}
use modern_data_platform.Processing.Core.Results.{StageResult, succeeded}
use modern_data_platform.Processing.Core.Stage.{Stage}
use modern_data_platform.Processing.Core.Pipeline.{Pipeline}
use modern_data_platform.Processing.Machine.{HookType, Machine, perform, ◌>>=◌}
use modern_data_platform.Processing.Machine.Ensures.{core, outcome-Ends}
use modern_data_platform.Processing.Policies.{PolicyResult}
use modern_data_platform.Processing.Policies.Laws.{AllBuiltin, IsVote}
use modern_data_platform.Processing.Executor.Base.{Executor, evaluate_policies, execute_stage}
use modern_data_platform.Processing.Executor.Sequential.Turns.{limit}
use modern_data_platform.Processing.Executor.Sequential.Loop.{attempt_left}
use modern_data_platform.Processing.Executor.Parallel.{
  After, Phase, called, decided, judged, advance, phase_done,
}
use modern_data_platform.Processing.Executor.Parallel.Costs.{
  registrations, decide_cost, decide_cost_pos, call_cost, cost, call_cost-next,
}
use modern_data_platform.Processing.Executor.Parallel.Phases.{
  Counts, PhaseOk, Stepped, evaluate_lem, hook_step-Stepped, Stepped-at_most, emits,
}

module _ {W : Type 0} (x : Executor W) (p : Pipeline W) (s : Stage W) where
  abbrev H : ℕ
  H = registrations x.hook_manager

  called-Stepped :
      (a : ℕ) (o : Outcome StageResult) (m : Machine W)
      → Counts s m.vars a
      → Ends o
      → let (phase, m') = called x p s a o m in Stepped H s (call_cost H (limit s - a)) m phase m'
  unfolding called
  called-Stepped a (returned r) m h ends = by_result (Bool-cases (succeeded r.base))
    where
      by_result :
          (succeeded r.base ≡ true) ⊎ (succeeded r.base ≡ false)
          → let (phase, m') = called x p s a (returned r) m in
            Stepped H s (call_cost H (limit s - a)) m phase m'
      by_result (inl ok) = rw ok (
          emits x p s HookType.after_stage (some r) none (After.then_return r) m
            (record m.vars { stage_result = some r; current_stage = none; current_attempt = none })
            (call_cost H (limit s - a)) ok (omega (arith, decide_cost_pos H (limit s - a))))
      by_result (inr bad) = rw bad (
          emits x p s HookType.stage_failed (some r) none (After.then_judge r) m
            (record m.vars { stage_result = some r }) (call_cost H (limit s - a)) bad
            (omega (arith, decide_cost_pos H (limit s - a))))
  called-Stepped a (raised e) m h ends =
      emits x p s HookType.stage_failed none (some e) (After.then_decide a e) m
        (record m.vars { stage_exception = some e }) (call_cost H (limit s - a)) h (omega arith)
  called-Stepped a out_of_fuel m h ends = absurd ends

  -- the call leaves variables and results alone
  execute_stage_lem :
      (m : Machine W)
      → let (o, m') = execute_stage s m in
        Ends o × (m'.vars ≡ m.vars) × (m'.stage_results ≡ m.stage_results)
  unfolding execute_stage perform ◌>>=◌
  execute_stage_lem m = (outcome-Ends (s.execute m.context m.vars m.world).0, refl, refl)

  decided-Stepped :
      (a : ℕ) (e : Exn) (d : PolicyResult) (m m' : Machine W)
      → Counts s m.vars a
      → IsVote m.vars d
      → core m' ≡ core m
      → let (phase, m'') = decided x p s a e (returned d) m' in
        Stepped H s (decide_cost H (limit s - a)) m phase m''
  unfolding decided
  decided-Stepped a e d m m' h vote same = by_retry (Bool-cases d.retry)
    where
      by_retry :
          (d.retry ≡ true) ⊎ (d.retry ≡ false)
          → let (phase, m'') = decided x p s a e (returned d) m' in
            Stepped H s (decide_cost H (limit s - a)) m phase m''
      by_retry (inl again) =
          let left = attempt_left a s.max_attempts m.vars h.0 h.1 h.2 (vote.retry_bounded again) in
          rw again (record {
            is_ok = (refl, ap (λ c. c.vars.max_attempts) same ∙ h.1, omega arith, left);
            cheaper = omega (arith, call_cost-next H a (limit s) left);
            same_results = ap (λ c. c.stage_results) same;
          })
      by_retry (inr no_more) = rw no_more (record {
        is_ok = tt;
        cheaper = omega (arith, decide_cost_pos H (limit s - a));
        same_results = ap (λ c. c.stage_results) same;
      })

  -- only a failed result is judged
  judged-Stepped :
      (r : StageResult) (d : PolicyResult) (m m' : Machine W)
      → succeeded r.base ≡ false
      → core m' ≡ core m
      → let (phase, m'') = judged x p s r (returned d) m' in Stepped H s 1 m phase m''
  unfolding judged
  judged-Stepped r d m m' bad same = record {
    is_ok = inr bad;
    cheaper = omega arith;
    same_results = ap (λ c. c.stage_results) same;
  }

  -- Each step of a member that is not done ends, with what is known of it, and costs a step.
  pub advance-Stepped :
      AllBuiltin x.policies
      → (phase : Phase W) (m : Machine W) → PhaseOk s m.vars phase
      → phase_done phase ≡ false
      → let (phase', m') = advance x p s phase m in Stepped H s (cost H s phase) m phase' m'
  unfolding advance
  advance-Stepped builtin Phase.starting m h e =
      emits x p s HookType.before_stage none none After.then_call m
        (record m.vars {
          current_stage = some s.id;
          current_attempt = some 1;
          max_attempts = some s.max_attempts;
          stage_result = none;
          stage_exception = none;
        })
        (cost H s Phase.starting) (refl, refl, omega arith, limit_pos s.max_attempts) (omega arith)
  advance-Stepped builtin (Phase.hooking hs c after) m h e = hook_step-Stepped x p s hs c after m h
  advance-Stepped builtin (Phase.calling a) m h e =
      let (o, m') = execute_stage s m in
      let (ends, same_vars, same) = execute_stage_lem m in
      let (phase, m'') = called x p s a o m' in
      Stepped-at_most x p s (call_cost H (limit s - a)) (call_cost H (limit s - a)) m m' m'' phase
        same (omega arith)
        (called-Stepped a o m' (subst (λ v. Counts s v a) (sym same_vars) h) ends)
  advance-Stepped builtin (Phase.deciding a e) m h e' =
      let (d, returns, vote, same) = evaluate_lem x p s builtin m in
      rw returns (decided-Stepped a e d m (evaluate_policies x p s m).1 h vote same)
  advance-Stepped builtin (Phase.judging r) m h e =
      let (d, returns, vote, same) = evaluate_lem x p s builtin m in
      rw returns (judged-Stepped r d m (evaluate_policies x p s m).1 h same)
  advance-Stepped builtin (Phase.ended o) m h e = cc
