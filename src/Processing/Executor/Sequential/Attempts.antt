-- ===== src/Processing/Executor/Sequential/Attempts.antt =====
-- The loop over the attempts of one stage: it ends, it calls the stage at most as often as
-- `max_attempts` allows, and it adds one result or raises.
use mathlib.Core.Path.{subst}
use modern_data_platform.Prelude.{
  ℕ, String, Bool, true, false, none, some, List, [], ◌∷◌, ◌++◌, ◌≡◌, inl, inr, refl, ap,
  if◌then◌else◌,
}
use modern_data_platform.Processing.Outcome.{Exn}
use modern_data_platform.Processing.Core.Results.{StageResult, succeeded}
use modern_data_platform.Processing.Core.Stage.{Stage, StageVars}
use modern_data_platform.Processing.Core.Pipeline.{Pipeline}
use modern_data_platform.Processing.Machine.{HookType, pure, ◌>>◌}
use modern_data_platform.Processing.Machine.Ensures.{
  Core, core, Ensures, Ensures-bind, Ensures-after, Ensures-frame, Ensures-weaken, Ensures-given,
  Ensures-vars, Ensures-if, Ensures-modify, Ensures-pure,
}
use modern_data_platform.Processing.Runtime
use modern_data_platform.Processing.Runtime.{or_one, current_attempt, current_max_attempts, on_vars}
use modern_data_platform.Processing.Policies.{PolicyResult, failed}
use modern_data_platform.Processing.Executor.Base.{Executor, emit}
use modern_data_platform.Processing.Executor.Base.Frames.{Frames-emit, Ensures-execution_failed}
use modern_data_platform.Processing.Executor.Sequential.Turns.{
  Added, Advice, AtEnd, AtRaise, Called, Called-of_Made, Made, limit,
}
use modern_data_platform.Processing.Executor.Sequential.{
  StageEnd, succeeded_end, tolerated_end, cancelled_end, cancelled_error, append_result,
  fail_pipeline, on_result,
}

module _ {W : Type 0} (x : Executor W) (p : Pipeline W) (D : StageVars → PolicyResult → Type 0)
    (advice : Advice x p D) (s : Stage W) (R : List StageResult) (C : List String) where
  abbrev pub Q : StageEnd → Core → Type 0
  Q = AtEnd D s R C

  abbrev pub E : Exn → Core → Type 0
  E = AtRaise s R C

  -- after the result has been appended
  abbrev Over : Bool → Core → Type 0
  Over good d = Added good R d.stage_results × Called (limit s) s.id C d.calls

  Over-E : (good : Bool) (e : Exn) (c : Core) → Over good c → E e c
  Over-E good e c h = (inr (good, h.0), h.1)

  pub Made-E : (a : ℕ) (e : Exn) (c : Core) → Made s R C a c → E e c
  Made-E a e c h = (inl h.results, Called-of_Made s R C a c h)

  append_Over :
      (a : ℕ) (r : StageResult) (good : Bool)
      → succeeded r.base ≡ good
      → Ensures {W = W} (Made s R C a) (append_result r) (λ _. Over good) E
  unfolding append_result
  append_Over a r good ok =
      Ensures-modify (Made s R C a) _ (Over good) E
        λ m h. ((r, ap (λ rs. rs ++ r ∷ []) h.results, ok), Called-of_Made s R C a (core m) h)

  finish_Over :
      (good : Bool) → Ensures {W = W} (Over good) Runtime.stage_finished (λ _. Over good) E
  unfolding Runtime.stage_finished
  finish_Over good = Ensures-modify (Over good) _ (Over good) E (λ m h. h)

  -- the stage has returned a successful result
  on_success :
      (a : ℕ) (r : StageResult)
      → succeeded r.base ≡ true
      → Ensures
          (Made s R C a)
          (do
            append_result r
            Runtime.stage_finished
            emit x p HookType.after_stage (some s) (some r) none
            pure succeeded_end)
          Q
          E
  on_success a r ok =
      Ensures-bind (λ _. Over true) _ _ (append_Over a r true ok)
        λ _.
          Ensures-bind (λ _. Over true) _ _ (finish_Over true)
            λ _.
              Ensures-after _ _ (Frames-emit x p HookType.after_stage (some s) (some r) none)
                (Over-E true) λ _. Ensures-pure succeeded_end Q E

  fail_pipeline-Over : Ensures (Over false) (fail_pipeline x p cancelled_error) (λ _. Over false) E
  unfolding fail_pipeline
  fail_pipeline-Over =
      Ensures-bind (λ _. Over false) _ _
        (Ensures-execution_failed x.clock (Over false) (Over false) E (some cancelled_error)
          (λ c h. h) (Over-E false))
        λ _.
          Ensures-weaken _ (λ c h. h) (λ _ c h. h) (Over-E false)
            (Ensures-frame (Over false) _
              (Frames-emit x p HookType.pipeline_failed none none (some cancelled_error)))

  -- after the policies have decided on a failed result
  on_decision :
      (a : ℕ) (r : StageResult) (V : StageVars) (d : PolicyResult)
      → succeeded r.base ≡ false
      → V.stage_exception ≡ none
      → failed V.stage_result ≡ true
      → D V d
      → Ensures
          (Made s R C a)
          (do
            append_result r
            Runtime.stage_finished
            if d.cancel_pipeline
                then fail_pipeline x p cancelled_error >> pure cancelled_end
                else pure tolerated_end)
          Q
          E
  on_decision a r V d bad no_exception was_failed decided =
      Ensures-bind (λ _. Over false) _ _ (append_Over a r false bad)
        λ _.
          Ensures-bind (λ _. Over false) _ _ (finish_Over false)
            λ _.
              Ensures-if d.cancel_pipeline _ _
                (λ _.
                  Ensures-bind (λ _. Over false) _ _ fail_pipeline-Over
                    λ _. Ensures-pure cancelled_end Q E)
                (λ spared. record {
                  at = λ m h. (h.0, h.1, (V, d, decided, no_exception, was_failed, spared));
                })

  note_result :
      (a : ℕ) (r : StageResult)
      → Ensures {W = W}
          (Made s R C a)
          (Runtime.stage_result r)
          (λ _ d. Made s R C a d × (d.vars.stage_result ≡ some r))
          E
  unfolding Runtime.stage_result
  note_result a r =
      Ensures-modify (Made s R C a) _ (λ d. Made s R C a d × (d.vars.stage_result ≡ some r)) E
        λ m h. (
          record {
            attempt = h.attempt;
            maximum = h.maximum;
            no_exception = h.no_exception;
            results = h.results;
            count = h.count;
            counted = h.counted;
            calls = h.calls;
            first = h.first;
            last = h.last;
          },
          refl,
        )

  -- the stage has returned
  pub on_result_lem : (a : ℕ) (r : StageResult) → Ensures (Made s R C a) (on_result x p s r) Q E
  unfolding on_result
  on_result_lem a r =
      Ensures-bind (λ _ d. Made s R C a d × (d.vars.stage_result ≡ some r)) _ _ (note_result a r)
        λ _.
          Ensures-if (succeeded r.base) _ _
            (λ ok. Ensures-weaken _ (λ c h. h.0) (λ _ c h. h) (λ e c h. h) (on_success a r ok))
            λ bad.
              Ensures-after _ _ (Frames-emit x p HookType.stage_failed (some s) (some r) none)
                (λ e c h. Made-E a e c h.0)
                λ _. Ensures-vars _ λ V.
                  Ensures-bind
                    (λ d c.
                      (c.vars ≡ V) × (Made s R C a c × (c.vars.stage_result ≡ some r)) × D V d)
                    _ _
                    (Ensures-weaken _ (λ c h. h) (λ _ c h. h) (λ e c h. absurd h)
                      (advice.decides V (λ c. Made s R C a c × (c.vars.stage_result ≡ some r)) s))
                    λ d.
                      Ensures-given _ (λ c h. facts V d c (h.0) (h.1) (h.2) bad)
                        λ f.
                          Ensures-weaken _ (λ c h. h.1.0) (λ _ c h. h) (λ e c h. h)
                            (on_decision a r V d bad f.0 f.1 f.2)
    where
      facts :
          (V : StageVars) (d : PolicyResult) (c : Core)
          → c.vars ≡ V
          → Made s R C a c × (c.vars.stage_result ≡ some r)
          → D V d
          → succeeded r.base ≡ false
          → (V.stage_exception ≡ none) × (failed V.stage_result ≡ true) × D V d
      facts V d c e h decided bad = (
        subst (λ v. v.stage_exception ≡ none) e h.0.no_exception,
        subst (λ v. failed v.stage_result ≡ true) e (rw h.1 (rw bad)),
        decided,
      )
