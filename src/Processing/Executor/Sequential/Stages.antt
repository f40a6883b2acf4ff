-- ===== src/Processing/Executor/Sequential/Stages.antt =====
-- The run of one stage: what it needs before its first attempt, and how it ends.
use modern_data_platform.Prelude.{
  ℕ, zero, suc, ◌+◌, ◌≤◌, String, none, some, List, ◌++◌, ◌≡◌, ◌⊎◌, inl, inr, refl, sym, arith,
  replicate, ◌∙◌, append-nil,
}
use modern_data_platform.Processing.Executor.Sequential.Turns.{limit_pos}
use modern_data_platform.Processing.Outcome.{Exn}
use modern_data_platform.Processing.Core.Results.{StageResult}
use modern_data_platform.Processing.Core.Stage.{Stage, StageVars}
use modern_data_platform.Processing.Core.Pipeline.{Pipeline}
use modern_data_platform.Processing.Machine.{HookType}
use modern_data_platform.Processing.Machine.Ensures.{
  Core, Ensures, Ensures-bind, Ensures-after, Ensures-weaken, Ensures-modify,
}
use modern_data_platform.Processing.Runtime
use modern_data_platform.Processing.Runtime.{or_one}
use modern_data_platform.Processing.Policies.{PolicyResult}
use modern_data_platform.Processing.Executor.Base.{Executor}
use modern_data_platform.Processing.Executor.Base.Frames.{Frames-emit}
use modern_data_platform.Processing.Executor.Sequential.{run_stage}
use modern_data_platform.Processing.Executor.Sequential.Turns.{limit, Advice, AtEnd, AtRaise, Ready}
use modern_data_platform.Processing.Executor.Sequential.Loop.{run_attempts_lem}

abbrev pub At : List StageResult → List String → Core → Type 0
At R C d = (d.stage_results ≡ R) × (d.calls ≡ C)

-- Before the first call a stage may also raise without having been called: a hook did.
abbrev pub StageRaise :
    {W : Type 0} → Stage W → List StageResult → List String → Exn → Core → Type 0
StageRaise s R C e d = At R C d ⊎ AtRaise s R C e d

-- the runtime knows the stage and its first attempt, and not yet the maximum
abbrev Begun : List StageResult → List String → Core → Type 0
Begun R C d = (d.vars.current_attempt ≡ some 1) × (d.vars.stage_exception ≡ none) × At R C d

module _ {W : Type 0} (x : Executor W) (p : Pipeline W) (D : StageVars → PolicyResult → Type 0)
    (advice : Advice x p D) where
  begin_stage :
      (s : Stage W) (R : List StageResult) (C : List String)
      → Ensures {W = W} (At R C) (Runtime.stage_started s.id) (λ _. Begun R C) (StageRaise s R C)
  unfolding Runtime.stage_started
  begin_stage s R C =
      Ensures-modify (At R C) _ (Begun R C) (StageRaise s R C) (λ m h. (refl, refl, h))

  set_maximum :
      (s : Stage W) (R : List StageResult) (C : List String)
      → Ensures {W = W}
          (Begun R C)
          (Runtime.max_attempts s.max_attempts)
          (λ _. Ready s R C 1)
          (StageRaise s R C)
  unfolding Runtime.max_attempts
  set_maximum s R C = Ensures-modify (Begun R C) _ (Ready s R C 1) (StageRaise s R C) λ m h.
      record {
        attempt = h.0;
        maximum = refl;
        no_exception = h.1;
        results = h.2.0;
        count = 0;
        counted = refl;
        calls = h.2.1 ∙ sym (append-nil C);
        first = omega arith;
        last = limit_pos s.max_attempts;
      }

  pub run_stage_lem :
      (s : Stage W) (R : List StageResult) (C : List String) (fuel : ℕ)
      → limit s ≤ fuel
      → Ensures (At R C) (run_stage x p fuel s) (AtEnd D s R C) (StageRaise s R C)
  unfolding run_stage
  run_stage_lem s R C fuel enough =
      Ensures-bind (λ _. Begun R C) _ _ (begin_stage s R C)
        λ _.
          Ensures-bind (λ _. Ready s R C 1) _ _ (set_maximum s R C)
            λ _.
              Ensures-after _ _ (Frames-emit x p HookType.before_stage (some s) none none)
                (λ e c h. inl (h.results, not_called h.count h.counted c.calls h.calls))
                λ _.
                  Ensures-weaken _ (λ c h. h) (λ _ c h. h) (λ e c h. inr h)
                    (run_attempts_lem x p D advice s R C fuel 1 (omega arith))
    where
      not_called :
          (k : ℕ) → k + 1 ≡ 1 → (calls : List String) → calls ≡ C ++ replicate k s.id → calls ≡ C
      not_called zero e calls h = h ∙ append-nil C
      not_called (suc k) e calls h = absurd (omega arith)
