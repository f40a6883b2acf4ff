-- ===== src/Processing/Executor/Sequential/Runs.antt =====
-- The loop over the stages, and the execution of a pipeline as a whole.
use mathlib.Core.Path.{subst}
use modern_data_platform.Prelude.{
  ℕ, suc, ◌≤◌, ◌<◌, String, Bool, true, false, Option, none, some, List, [], ◌∷◌, ◌++◌, ◌≡◌, ◌⊎◌,
  inl, inr, refl, sym, length, arith, replicate,
}
use modern_data_platform.Processing.Executor.Sequential.Stages.{At, StageRaise, run_stage_lem}
use modern_data_platform.Processing.Outcome.{Exn}
use modern_data_platform.Processing.Core.Status.{ExecutionStatus, completed, failed}
use modern_data_platform.Processing.Core.Results.{StageResult, succeeded}
use modern_data_platform.Processing.Core.Stage.{Stage, StageVars}
use modern_data_platform.Processing.Core.Pipeline.{Pipeline, flatten}
use modern_data_platform.Processing.Machine.{HookType, Action, pure}
use modern_data_platform.Processing.Machine.Ensures.{
  Core, core, Ensures, Ensures-bind, Ensures-after, Ensures-weaken, Ensures-if,
}
use modern_data_platform.Processing.Runtime
use modern_data_platform.Processing.Runtime.{or_one}
use modern_data_platform.Processing.Policies.{PolicyResult}
use modern_data_platform.Processing.Executor.Base.{Executor}
use modern_data_platform.Processing.Executor.Base.Frames.{
  Frames-emit, Ensures-execution_failed, Ensures-execution_completed, Ensures-execution_started,
}
use modern_data_platform.Processing.Executor.Sequential.{
  StageEnd, succeeded_end, tolerated_end, cancelled_end, status_of, end_pipeline, run_stages,
  execute_pipeline,
}
use modern_data_platform.Processing.Executor.Sequential.Turns.{limit, Advice, AtEnd, Spared}
use modern_data_platform.Processing.Executor.Sequential.Progress.{
  Progress, Verdict, Progress-none, Progress-one, Progress-raise, Progress-more,
}

-- A unit of fuel for each attempt that a stage of the pipeline may make.
abbrev pub Fuelled : {W : Type 0} → ℕ → List (Option (Stage W)) → Type 0
Fuelled fuel [] = Unit
Fuelled fuel (none ∷ ss) = Fuelled fuel ss
Fuelled fuel (some s ∷ ss) = (limit s ≤ fuel) × Fuelled fuel ss

Verdict-ok :
    (tolerated : Bool) (n : ℕ) (status : ExecutionStatus) (r : StageResult) (rs : List StageResult)
    → succeeded r.base ≡ true
    → Verdict tolerated n status rs
    → Verdict tolerated (suc n) status (r ∷ rs)
Verdict-ok tolerated n completed r rs ok v = ground arith
Verdict-ok tolerated n failed r rs ok v = ground arith
Verdict-ok tolerated n _ r rs ok v = absurd v

Verdict-bad :
    (tolerated : Bool) (n : ℕ) (status : ExecutionStatus) (r : StageResult) (rs : List StageResult)
    → succeeded r.base ≡ false
    → Verdict true n status rs
    → Verdict tolerated (suc n) status (r ∷ rs)
Verdict-bad tolerated n completed r rs bad v = cc
Verdict-bad tolerated n failed r rs bad v = ground arith
Verdict-bad tolerated n _ r rs bad v = absurd v

-- The postcondition of a run over `ss`.
abbrev pub AtStatus :
    {W : Type 0}
    → (StageVars → PolicyResult → Type 0)
    → Bool
    → List (Option (Stage W))
    → List StageResult
    → List String
    → ExecutionStatus
    → Core
    → Type 0
AtStatus D tolerated ss R C status d =
    (g : Progress D ss R C d) × Verdict tolerated (length ss) status g.results

module _ {W : Type 0} (x : Executor W) (p : Pipeline W) (D : StageVars → PolicyResult → Type 0)
    (advice : Advice x p D) where
  end_pipeline_lem :
      (tolerated : Bool) (R : List StageResult) (C : List String)
      → Ensures {W = W}
          (At R C)
          (end_pipeline x p tolerated)
          (AtStatus {W = W} D tolerated [] R C)
          (λ _. Progress {W = W} D [] R C)
  unfolding end_pipeline Progress-none
  end_pipeline_lem tolerated R C =
      Ensures-bind (λ _. At R C) _ _
        (Ensures-if tolerated _ _
          (λ _.
            Ensures-execution_failed x.clock (At R C) (At R C) (λ _. Progress {W = W} D [] R C) none
              (λ c h. h) stopped)
          (λ _.
            Ensures-execution_completed x.clock (At R C) (At R C) (λ _. Progress {W = W} D [] R C)
              (λ c h. h) stopped))
        λ _.
          Ensures-after _ _ (Frames-emit x p HookType.after_pipeline none none none) stopped
            λ _. record { at = λ m h. verdict tolerated (core m) h }
    where
      stopped : (e : Exn) (c : Core) → At R C c → Progress {W = W} D [] R C c
      stopped e c h = Progress-none D R C [] c h.0 h.1

      verdict : (b : Bool) (c : Core) → At R C c → AtStatus {W = W} D b [] R C (status_of b) c
      verdict true c h = (Progress-none D R C [] c h.0 h.1, inl refl)
      verdict false c h = (Progress-none D R C [] c h.0 h.1, (refl, refl, refl))

  module _ (s : Stage W) (ss : List (Option (Stage W))) (R : List StageResult)
      (C : List String) where
    -- the stage has ended with a result, and the run goes on with the next stage
    go_on :
        (tolerated tolerated' : Bool) (r : StageResult) (k : ℕ) (k' : Action W ExecutionStatus)
        → (succeeded r.base ≡ true) ⊎ Spared D
        → 0 < k
        → k ≤ limit s
        → ((status : ExecutionStatus) (rs : List StageResult)
            → Verdict tolerated' (length ss) status rs
            → Verdict tolerated (suc (length ss)) status (r ∷ rs))
        → Ensures
            (At (R ++ r ∷ []) (C ++ replicate k s.id))
            k'
            (AtStatus D tolerated' ss (R ++ r ∷ []) (C ++ replicate k s.id))
            (λ _. Progress D ss (R ++ r ∷ []) (C ++ replicate k s.id))
        → Ensures
            (At (R ++ r ∷ []) (C ++ replicate k s.id))
            k'
            (AtStatus D tolerated (some s ∷ ss) R C)
            (λ _. Progress D (some s ∷ ss) R C)
    go_on tolerated tolerated' r k k' good pos most verdict =
        Ensures-weaken k' (λ c h. h)
          (λ status c h.
            let (g, same) = Progress-more D R C s ss c r k good pos most h.0 in
            (
              g,
              subst (λ rs. Verdict tolerated (suc (length ss)) status rs) (sym same)
                  (verdict status h.0.results h.1),
            ))
          (λ e c g. (Progress-more D R C s ss c r k good pos most g).0)

    stage_raised : (e : Exn) (c : Core) → StageRaise s R C e c → Progress D (some s ∷ ss) R C c
    stage_raised e c (inl h) = Progress-none D R C (some s ∷ ss) c h.0 h.1
    stage_raised e c (inr h) = Progress-raise D R C s ss e c h

    after_end :
        (tolerated : Bool) (run : Bool → Action W ExecutionStatus)
        → ((b : Bool) (R' : List StageResult) (C' : List String)
            → Ensures (At R' C') (run b) (AtStatus D b ss R' C') (λ _. Progress D ss R' C'))
        → (end : StageEnd)
        → Ensures
            (AtEnd D s R C end)
            (elim end [
              | succeeded_end ↦ run tolerated
              | tolerated_end ↦ run true
              | cancelled_end ↦ pure failed
            ])
            (AtStatus D tolerated (some s ∷ ss) R C)
            (λ _. Progress D (some s ∷ ss) R C)
    unfolding Progress-one
    after_end tolerated run h succeeded_end = record {
      at = λ m q.
          let (r, er, ok) = q.0 in
          let (k, ec, pos, most) = q.1 in
          (go_on tolerated tolerated r k (run tolerated) (inl ok) pos most
              (λ status rs. Verdict-ok tolerated (length ss) status r rs ok)
              (h tolerated (R ++ r ∷ []) (C ++ replicate k s.id))).at
            m (er, ec);
    }
    after_end tolerated run h tolerated_end = record {
      at = λ m q.
          let (r, er, bad) = q.0 in
          let (k, ec, pos, most) = q.1 in
          (go_on tolerated true r k (run true) (inr q.2) pos most
              (λ status rs. Verdict-bad tolerated (length ss) status r rs bad)
              (h true (R ++ r ∷ []) (C ++ replicate k s.id))).at
            m (er, ec);
    }
    after_end tolerated run h cancelled_end = record {
      at = λ m q.
          let (r, er, bad) = q.0 in (Progress-one D R C s ss (core m) r er q.1, inr (rw bad));
    }

  -- The loop over the stages ends, with fuel for each attempt.
  run_stages_lem :
      (fuel : ℕ) (ss : List (Option (Stage W))) (tolerated : Bool) (R : List StageResult)
      (C : List String)
      → Fuelled fuel ss
      → Ensures
          (At R C)
          (run_stages x p fuel ss tolerated)
          (AtStatus D tolerated ss R C)
          (λ _. Progress D ss R C)
  unfolding run_stages
  run_stages_lem fuel [] tolerated R C h = end_pipeline_lem tolerated R C
  run_stages_lem fuel (none ∷ ss) tolerated R C h = record {
    at = λ m q. Progress-none D R C (none ∷ ss) (core m) q.0 q.1;
  }
  run_stages_lem fuel (some s ∷ ss) tolerated R C h =
      Ensures-bind (AtEnd D s R C) _ _
        (Ensures-weaken _ (λ c q. q) (λ _ c q. q) (stage_raised s ss R C)
          (run_stage_lem x p D advice s R C fuel h.0))
        (after_end s ss R C tolerated (λ b. run_stages x p fuel ss b)
          (λ b R' C'. run_stages_lem fuel ss b R' C' h.1))

  begin_pipeline :
      (R : List StageResult) (C : List String) (R' : Exn → Core → Type 0)
      → ((e : Exn) (c : Core) → At R C c → R' e c)
      → Ensures (At R C) (Runtime.execution_started x.clock) (λ _. At R C) R'
  begin_pipeline R C R' ex = Ensures-execution_started x.clock (At R C) (At R C) R' (λ c h. h) ex

  -- The strategy ends: with a status that its results bear out, or by raising.
  pub execute_pipeline_lem :
      (fuel : ℕ) (R : List StageResult) (C : List String)
      → Fuelled fuel (flatten p.stages)
      → Ensures
          (At R C)
          (execute_pipeline x fuel p)
          (AtStatus D false (flatten p.stages) R C)
          (λ _. Progress D (flatten p.stages) R C)
  unfolding execute_pipeline
  execute_pipeline_lem fuel R C h =
      Ensures-bind (λ _. At R C) _ _
        (begin_pipeline R C (λ _. Progress D (flatten p.stages) R C) stopped)
        λ _.
          Ensures-after _ _ (Frames-emit x p HookType.before_pipeline none none none) stopped
            λ _. run_stages_lem fuel (flatten p.stages) false R C h
    where
      stopped : (e : Exn) (c : Core) → At R C c → Progress D (flatten p.stages) R C c
      stopped e c q = Progress-none D R C (flatten p.stages) c q.0 q.1
