-- ===== src/Processing/Executor/Sequential/Loop.antt =====
-- The loop over the attempts of one stage as a whole.
use mathlib.Core.Path.{subst}
use modern_data_platform.Prelude.{
  ℕ, zero, suc, ◌+◌, ◌≤◌, ◌<◌, String, true, none, some, List, ◌++◌, ◌≡◌, inl, refl, replicate,
  arith, ltb,
}
use modern_data_platform.Processing.Outcome.{Exn, Outcome, returned, raised, out_of_fuel}
use modern_data_platform.Processing.Core.Results.{StageResult}
use modern_data_platform.Processing.Core.Stage.{Stage, StageVars}
use modern_data_platform.Processing.Core.Pipeline.{Pipeline}
use modern_data_platform.Processing.Machine.{HookType, Machine, Action, raise, ◌>>◌}
use modern_data_platform.Processing.Machine.Ensures.{
  Core, core, Post, Ensures, Ensures-bind, Ensures-after, Ensures-weaken, Ensures-given,
  Ensures-vars, Ensures-if, Ensures-modify, Ensures-raise,
}
use modern_data_platform.Processing.Runtime
use modern_data_platform.Processing.Runtime.{or_one, current_attempt, current_max_attempts, on_vars}
use modern_data_platform.Processing.Policies.{PolicyResult}
use modern_data_platform.Processing.Executor.Base.{Executor, emit, execute_stage}
use modern_data_platform.Processing.Executor.Base.Frames.{Frames-emit, Ensures-execution_failed}
use modern_data_platform.Processing.Executor.Sequential.{
  StageEnd, on_exception, on_outcome, run_attempts,
}
use modern_data_platform.Processing.Executor.Sequential.Attempts.{on_result_lem}
use modern_data_platform.Processing.Executor.Sequential.Turns.{
  limit, Advice, AtEnd, AtRaise, Ready, Made, call-Made,
}

-- An attempt that has raised: its number, the maximum, and the untouched results.
record Broken (attempts : ℕ) (id : String) (R : List StageResult) (C : List String) (a : ℕ)
    (d : Core) : Type 0 where
  attempt : d.vars.current_attempt ≡ some a
  maximum : d.vars.max_attempts ≡ some attempts
  results : d.stage_results ≡ R
  calls : d.calls ≡ C ++ replicate a id
  first : 1 ≤ a
  last : a ≤ or_one (some attempts)

pub attempt_left :
    (a n : ℕ) (V : StageVars)
    → V.current_attempt ≡ some a
    → V.max_attempts ≡ some n
    → 1 ≤ a
    → ltb (current_attempt V) (current_max_attempts V) ≡ true
    → a + 1 ≤ or_one (some n)
attempt_left zero n V ea en first h = absurd (omega arith)
attempt_left (suc a) n V ea en first h = ltb_le (suc a) (or_one (some n)) (rw (ea, en) at h)
  where
    ltb_le : (a b : ℕ) → ltb a b ≡ true → a + 1 ≤ b
    ltb_le a b h = ground arith

module _ {W : Type 0} (x : Executor W) (p : Pipeline W) (D : StageVars → PolicyResult → Type 0)
    (advice : Advice x p D) (s : Stage W) (R : List StageResult) (C : List String) where
  abbrev Qs : StageEnd → Core → Type 0
  Qs = AtEnd D s R C

  abbrev Es : Exn → Core → Type 0
  Es = AtRaise s R C

  abbrev Fell : ℕ → Core → Type 0
  Fell = Broken s.max_attempts s.id R C

  Fell-E : (a : ℕ) (e : Exn) (c : Core) → Fell a c → Es e c
  Fell-E a e c h = (inl h.results, (a, h.calls, h.first, h.last))

  made_count : (k a : ℕ) → k + 0 ≡ a → k ≡ a
  made_count k a e = omega arith

  note_failure :
      (a : ℕ) (e : Exn) → Ensures {W = W} (Made s R C a) (Runtime.stage_failed e) (λ _. Fell a) Es
  unfolding Runtime.stage_failed
  note_failure a e = Ensures-modify (Made s R C a) _ (Fell a) Es λ m h. record {
    attempt = h.attempt;
    maximum = h.maximum;
    results = h.results;
    calls = rw (made_count h.count a h.counted) at h.calls;
    first = h.first;
    last = h.last;
  }

  start_again :
      (a : ℕ)
      → a + 1 ≤ limit s
      → Ensures {W = W} (Fell a) (Runtime.retry_started (a + 1)) (λ _. Ready s R C (a + 1)) Es
  unfolding Runtime.retry_started
  start_again a left = Ensures-modify (Fell a) _ (Ready s R C (a + 1)) Es λ m h. record {
    attempt = refl;
    maximum = h.maximum;
    no_exception = refl;
    results = h.results;
    count = a;
    counted = refl;
    calls = h.calls;
    first = omega arith;
    last = left;
  }

  -- no attempt is left, or the policies ask for none
  give_up :
      (a : ℕ) (e : Exn)
      → Ensures
          (Fell a)
          (do
            Runtime.execution_failed x.clock (some e)
            Runtime.stage_finished
            emit x p HookType.pipeline_failed none none (some e)
            raise e)
          Qs
          Es
  give_up a e =
      Ensures-bind (λ _ c. Es e c) _ _
        (Ensures-execution_failed x.clock (Fell a) (λ c. Es e c) Es (some e) (Fell-E a e)
          (Fell-E a))
        λ _.
          Ensures-bind (λ _ c. Es e c) _ _ (finished e)
            λ _.
              Ensures-after _ _ (Frames-emit x p HookType.pipeline_failed none none (some e))
                (λ _ c h. h) λ _. Ensures-raise e Qs Es
    where
      finished : (e : Exn) → Ensures {W = W} (λ c. Es e c) Runtime.stage_finished (λ _ c. Es e c) Es
      finished e =
          unfold Runtime.stage_finished in
          Ensures-modify (λ c. Es e c) _ (λ c. Es e c) Es (λ m h. h)

  -- the stage has raised; `again` is known to be right for the next attempt
  on_exception_lem :
      (again : ℕ → Action W StageEnd) (a : ℕ) (e : Exn)
      → (a + 1 ≤ limit s → Ensures (Ready s R C (a + 1)) (again (a + 1)) Qs Es)
      → Ensures (Made s R C a) (on_exception x p again s a e) Qs Es
  unfolding on_exception
  on_exception_lem again a e next =
      Ensures-bind (λ _. Fell a) _ _ (note_failure a e)
        λ _.
          Ensures-after _ _ (Frames-emit x p HookType.stage_failed (some s) none (some e))
            (Fell-E a)
            λ _. Ensures-vars _ λ V.
              Ensures-bind (λ d c. (c.vars ≡ V) × Fell a c × D V d) _ _
                (Ensures-weaken _ (λ c h. h) (λ _ c h. h) (λ e c h. absurd h)
                  (advice.decides V (Fell a) s))
                λ d.
                  Ensures-if d.retry _ _
                    (λ asked.
                      Ensures-given _ (λ c h. left_of V d asked c h)
                        λ left.
                          Ensures-weaken _ (λ c h. h.1) (λ _ c h. h) (λ e c h. h)
                            (Ensures-bind (λ _. Ready s R C (a + 1)) _ _ (start_again a left)
                              λ _. next left))
                    (λ _. Ensures-weaken _ (λ c h. h.1) (λ _ c h. h) (λ e c h. h) (give_up a e))
    where
      left_of :
          (V : StageVars) (d : PolicyResult)
          → d.retry ≡ true
          → (c : Core) → (c.vars ≡ V) × Fell a c × D V d
          → a + 1 ≤ limit s
      left_of V d asked c h =
          attempt_left a s.max_attempts V (subst (λ v. v.current_attempt ≡ some a) h.0 h.1.attempt)
            (subst (λ v. v.max_attempts ≡ some s.max_attempts) h.0 h.1.maximum) h.1.first
            (advice.bounded V d h.2 asked)

  after_call :
      (again : ℕ → Action W StageEnd) (a : ℕ)
      → (a + 1 ≤ limit s → Ensures (Ready s R C (a + 1)) (again (a + 1)) Qs Es)
      → (o : Outcome StageResult) (m : Machine W)
      → Post (λ _. Made s R C a) (λ _. Made s R C a) o (core m)
      → let (o', m') = on_outcome x p again s a o m in Post Qs Es o' (core m')
  unfolding on_outcome
  after_call again a next (returned r) m h = (on_result_lem x p D advice s R C a r).at m h
  after_call again a next (raised e) m h = (on_exception_lem again a e next).at m h
  after_call again a next out_of_fuel m h = absurd h

  -- With a unit of fuel for each attempt that is left, the loop ends as the specification says.
  pub run_attempts_lem :
      (fuel a : ℕ) → limit s < fuel + a → Ensures (Ready s R C a) (run_attempts x p fuel s a) Qs Es
  unfolding run_attempts
  run_attempts_lem zero a enough = record { at = λ m h. absurd (omega (arith, h.last)) }
  run_attempts_lem (suc fuel) a enough = record {
    at = λ m h.
        let (o, m') = execute_stage s m in
        after_call (λ n. run_attempts x p fuel s n) a
          (λ left. run_attempts_lem fuel (a + 1) (omega arith)) o m' ((call-Made s R C a).at m h);
  }
