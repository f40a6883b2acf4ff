-- ===== src/Processing/Executor/Parallel/Phases.antt =====
-- What is known of a member in each phase, and the steps that emit events or ask the policies.
use modern_data_platform.Prelude.{
  ℕ, suc, ◌+◌, ◌≤◌, ◌≡◌, ◌⊎◌, inl, refl, ◌∙◌, Bool, true, false, Option, some, List, [], ◌∷◌,
  length, arith,
}
use modern_data_platform.Processing.Outcome.{
  Exn, Outcome, returned, raised, out_of_fuel, outcome, Reply, answer, failure,
}
use modern_data_platform.Processing.Core.Results.{StageResult, succeeded}
use modern_data_platform.Processing.Core.Stage.{Stage, StageVars}
use modern_data_platform.Processing.Core.Pipeline.{Pipeline}
use modern_data_platform.Processing.Machine.{HookType, Machine, perform}
use modern_data_platform.Processing.Machine.Ensures.{Core, core, Post}
use modern_data_platform.Processing.Hooks.{Hook, HookContext}
use modern_data_platform.Processing.Policies.{PolicyResult}
use modern_data_platform.Processing.Policies.Laws.{AllBuiltin, IsVote, NoRaise}
use modern_data_platform.Processing.Executor.Base.{Executor, evaluate_policies}
use modern_data_platform.Processing.Executor.Sequential.Turns.{limit}
use modern_data_platform.Processing.Executor.Sequential.Correct.{builtin_advice}
use modern_data_platform.Processing.Executor.Parallel.{After, Phase, begin_emit, hooked, hook_step}
use modern_data_platform.Processing.Executor.Parallel.Costs.{
  registrations, get_hooks-registrations, after_cost, cost,
}

-- What the variables of a task say during attempt `a`.
abbrev pub Counts : {W : Type 0} → Stage W → StageVars → ℕ → Type 0
Counts s v a =
    (v.current_attempt ≡ some a) × (v.max_attempts ≡ some s.max_attempts) × (1 ≤ a) × (a ≤ limit s)

abbrev pub AfterOk : {W : Type 0} → Stage W → StageVars → After → Type 0
AfterOk s v After.then_call = Counts s v 1
AfterOk s v (After.then_decide a e) = Counts s v a
AfterOk s v (After.then_judge r) = succeeded r.base ≡ false
AfterOk s v (After.then_return r) = succeeded r.base ≡ true

-- Only a failed result cancels.
abbrev pub EndOk : Outcome (StageResult × Bool) → Type 0
EndOk (returned (r, cancel)) = (cancel ≡ false) ⊎ (succeeded r.base ≡ false)
EndOk (raised e) = Unit
EndOk out_of_fuel = ⊥

abbrev pub PhaseOk : {W : Type 0} → Stage W → StageVars → Phase W → Type 0
PhaseOk s v Phase.starting = Unit
PhaseOk s v (Phase.hooking hs c after) = AfterOk s v after
PhaseOk s v (Phase.calling a) = Counts s v a
PhaseOk s v (Phase.deciding a e) = Counts s v a
PhaseOk s v (Phase.judging r) = succeeded r.base ≡ false
PhaseOk s v (Phase.ended o) = EndOk o

-- A step from a phase of cost `before`.
pub record Stepped {W : Type 0} (hooks : ℕ) (s : Stage W) (before : ℕ) (m : Machine W)
    (phase : Phase W) (m' : Machine W) : Type 0 where
  pub is_ok : PhaseOk s m'.vars phase
  pub cheaper : cost hooks s phase + 1 ≤ before
  pub same_results : m'.stage_results ≡ m.stage_results

module _ {W : Type 0} (x : Executor W) (p : Pipeline W) (s : Stage W) where
  abbrev H : ℕ
  H = registrations x.hook_manager

  begin_emit-Stepped :
      (t : HookType) (r : _) (e : _) (after : After) (m : Machine W)
      → AfterOk s m.vars after
      → let (phase, m') = begin_emit x p s t r e after m in
        Stepped H s (H + 2 + after_cost H s after) m phase m'
  unfolding begin_emit
  begin_emit-Stepped t r e after m h = record {
    is_ok = h;
    cheaper = omega (arith, get_hooks-registrations t x.hook_manager);
    same_results = refl;
  }

  -- what the policies decide, and what they leave alone
  pub evaluate_lem :
      AllBuiltin x.policies
      → (m : Machine W)
      → let (o, m') = evaluate_policies x p s m in
        (d : PolicyResult) × (o ≡ returned d) × IsVote m.vars d × (core m' ≡ core m)
  evaluate_lem builtin m =
      let (o, m') = evaluate_policies x p s m in
      by_outcome o (core m')
        (((builtin_advice x p builtin).decides m.vars (λ c. c ≡ core m) s).at m (refl, refl))
    where
      by_outcome :
          (o : Outcome PolicyResult) (c : Core)
          → Post (λ r d. (d.vars ≡ m.vars) × (d ≡ core m) × IsVote m.vars r) NoRaise o c
          → (d : PolicyResult) × (o ≡ returned d) × IsVote m.vars d × (c ≡ core m)
      by_outcome (returned d) c h = (d, refl, h.2, h.1)
      by_outcome (raised e) c h = absurd h
      by_outcome out_of_fuel c h = absurd h

  pub hook_step-Stepped :
      (hs : List (Hook W)) (c : HookContext W) (after : After) (m : Machine W)
      → AfterOk s m.vars after
      → let (phase, m') = hook_step x p s hs c after m in
        Stepped H s (length hs + 1 + after_cost H s after) m phase m'
  unfolding hook_step perform
  hook_step-Stepped [] c After.then_call m h = record {
    is_ok = h;
    cheaper = omega arith;
    same_results = refl;
  }
  hook_step-Stepped [] c (After.then_decide a e) m h = record {
    is_ok = h;
    cheaper = omega arith;
    same_results = refl;
  }
  hook_step-Stepped [] c (After.then_judge r) m h = record {
    is_ok = h;
    cheaper = omega arith;
    same_results = refl;
  }
  hook_step-Stepped [] c (After.then_return r) m h = record {
    is_ok = inl refl;
    cheaper = omega arith;
    same_results = refl;
  }
  hook_step-Stepped (hook ∷ hs) c after m h = by_reply (hook.execute c m.context m.vars m.world).0
    where
      by_reply :
          (r : Reply (Unit {0}))
          → Stepped H s
              (suc (length hs) + 1 + after_cost H s after)
              m
              (hooked x p s hs c after (outcome r))
              (hook_step x p s (hook ∷ hs) c after m).1
      by_reply (answer u) = record { is_ok = h; cheaper = omega arith; same_results = refl }
      by_reply (failure e) = record { is_ok = tt; cheaper = omega arith; same_results = refl }

  -- a dearer phase, and a machine with the same results
  pub Stepped-at_most :
      (before before' : ℕ) (m₀ m m' : Machine W) (phase : Phase W)
      → m.stage_results ≡ m₀.stage_results
      → before ≤ before'
      → Stepped H s before m phase m'
      → Stepped H s before' m₀ phase m'
  Stepped-at_most before before' m₀ m m' phase same le h = record {
    is_ok = h.is_ok;
    cheaper = omega (arith, h.cheaper, le);
    same_results = h.same_results ∙ same;
  }

  -- an event that is emitted after the variables were written
  pub emits :
      (t : HookType) (r : Option StageResult) (e : Option Exn) (after : After) (m : Machine W)
      (v : StageVars) (before : ℕ)
      → AfterOk s v after
      → H + 2 + after_cost H s after ≤ before
      → let (phase, m') = begin_emit x p s t r e after (record m { vars = v }) in
        Stepped H s before m phase m'
  emits t r e after m v before h le =
      let (phase, m') = begin_emit x p s t r e after (record m { vars = v }) in
      Stepped-at_most (H + 2 + after_cost H s after) before m (record m { vars = v }) m' phase refl
        le (begin_emit-Stepped t r e after (record m { vars = v }) h)
