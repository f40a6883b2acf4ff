-- ===== src/Processing/Executor/Sequential/Exhaustion.antt =====
-- A stage that raises at every call, under the default policies.
use mathlib.Core.Path.{subst}
use modern_data_platform.Prelude.{
  append-nil, ℕ, zero, suc, ◌+◌, ◌≤◌, ◌<◌, String, Option, none, some, List, [], ◌∷◌, ◌++◌, ◌≡◌,
  refl, sym, arith, replicate, ◌∙◌, ltb,
}
use modern_data_platform.Processing.Executor.Sequential.Turns.{limit_pos}
use modern_data_platform.Processing.Outcome.{Exn, Outcome, returned, raised, out_of_fuel, failure}
use modern_data_platform.Processing.Core.Results.{StageResult}
use modern_data_platform.Processing.Core.Context.{ProcessingContext}
use modern_data_platform.Processing.Core.Stage.{Stage, StageVars}
use modern_data_platform.Processing.Core.Pipeline.{Pipeline}
use modern_data_platform.Processing.Machine.{HookType, Machine, Action, raise, perform, ◌>>=◌, ◌>>◌}
use modern_data_platform.Processing.Machine.Ensures.{
  Core, core, Post, Ensures, Ensures-bind, Ensures-weaken, Ensures-given, Ensures-vars, Ensures-if,
  Ensures-modify, Ensures-raise,
}
use modern_data_platform.Processing.Hooks.{dispatch}
use modern_data_platform.Processing.Runtime
use modern_data_platform.Processing.Runtime.{or_one, tick, current_attempt, current_max_attempts}
use modern_data_platform.Processing.Policies.{PolicyResult}
use modern_data_platform.Processing.Executor.Base.{new_executor, emit, execute_stage}
use modern_data_platform.Processing.Executor.Base.Frames.{Ensures-execution_failed}
use modern_data_platform.Processing.Executor.Sequential.{
  StageEnd, on_exception, on_outcome, run_attempts, run_stage,
}
use modern_data_platform.Processing.Executor.Sequential.Turns.{limit, one_more}
use modern_data_platform.Processing.Executor.Sequential.Correct.{Default, Default-advice}

-- The stage raises whatever the state.
abbrev pub AlwaysRaises : {W : Type 0} → Stage W → Type 0
AlwaysRaises {W} s =
    (c : ProcessingContext) (v : StageVars) (w : W) → (e : Exn) × ((s.execute c v w).0 ≡ failure e)

-- The default policies retry an exception exactly if an attempt is left.
retry_at :
    (a n : ℕ) (e : Exn) (V : StageVars) (d : PolicyResult)
    → 1 ≤ a
    → Default V d
    → V.stage_exception ≡ some e
    → V.current_attempt ≡ some a
    → V.max_attempts ≡ some n
    → d.retry ≡ ltb a (or_one (some n))
retry_at zero n e V d first decided ex at_a at_n = absurd (omega (arith, first))
retry_at (suc a) n e V d first decided ex at_a at_n = ground arith

module _ {W : Type 0} (clock : W → ℕ × W) (p : Pipeline W) (s : Stage W) (C : List String) where
  -- before the call of attempt `a`, after `k` calls
  abbrev Trying : ℕ → ℕ → Core → Type 0
  Trying k a d =
      (d.vars.current_attempt ≡ some a)
      × (d.vars.max_attempts ≡ some s.max_attempts)
      × (d.calls ≡ C ++ replicate k s.id)

  -- attempt `a` has raised `e`
  abbrev Noted : ℕ → Exn → Core → Type 0
  Noted a e d = (d.vars.stage_exception ≡ some e) × Trying a a d

  abbrev Never : StageEnd → Core → Type 0
  Never _ _ = ⊥

  abbrev Spent : Exn → Core → Type 0
  Spent e d = d.calls ≡ C ++ replicate (limit s) s.id

  -- without hooks an event cannot raise
  emit_silent :
      (P : Core → Type 0) (t : HookType) (st : Option (Stage W)) (r : Option StageResult)
      (e : Option Exn)
      → Ensures P (emit (new_executor clock []) p t st r e) (λ _. P) Spent
  unfolding emit dispatch ◌>>=◌
  emit_silent P t st r e = record { at = λ m h. h }

  note_it :
      (a : ℕ) (e : Exn)
      → Ensures {W = W} (Trying a a) (Runtime.stage_failed e) (λ _. Noted a e) Spent
  unfolding Runtime.stage_failed
  note_it a e = Ensures-modify (Trying a a) _ (Noted a e) Spent (λ m h. (refl, h))

  try_again :
      (a : ℕ) (e : Exn)
      → Ensures {W = W} (Noted a e) (Runtime.retry_started (a + 1)) (λ _. Trying a (a + 1)) Spent
  unfolding Runtime.retry_started
  try_again a e =
      Ensures-modify (Noted a e) _ (Trying a (a + 1)) Spent (λ m h. (refl, h.1.1, h.1.2))

  spend : (a : ℕ) (e : Exn) (c : Core) → a ≡ limit s → Noted a e c → Spent e c
  spend a e c full h = subst (λ n. c.calls ≡ C ++ replicate n s.id) full h.1.2

  give_up :
      (a : ℕ) (e : Exn)
      → a ≡ limit s
      → Ensures
          (Noted a e)
          (do
            Runtime.execution_failed clock (some e)
            Runtime.stage_finished
            emit (new_executor clock []) p HookType.pipeline_failed none none (some e)
            raise e)
          Never
          Spent
  give_up a e full =
      Ensures-bind (λ _. Spent e) _ _
        (Ensures-execution_failed clock (Noted a e) (Spent e) Spent (some e)
          (λ c h. spend a e c full h) (λ x c h. spend a e c full h))
        λ _.
          Ensures-bind (λ _. Spent e) _ _ finished
            λ _.
              Ensures-bind (λ _. Spent e) _ _
                (emit_silent (Spent e) HookType.pipeline_failed none none (some e))
                λ _. Ensures-raise e Never Spent
    where
      finished : Ensures {W = W} (Spent e) Runtime.stage_finished (λ _. Spent e) Spent
      finished =
          unfold Runtime.stage_finished in Ensures-modify (Spent e) _ (Spent e) Spent (λ m h. h)

  -- what the default policies decide on the exception of attempt `a`
  retry_iff :
      (k a : ℕ) (e : Exn) (V : StageVars) (d : PolicyResult) (c : Core)
      → k + 1 ≡ a
      → (c.vars ≡ V) × Noted a e c × Default V d
      → d.retry ≡ ltb a (limit s)
  retry_iff k a e V d c counted h =
      retry_at a s.max_attempts e V d (omega (arith, counted)) h.2
        (subst (λ v. v.stage_exception ≡ some e) h.0 h.1.0)
        (subst (λ v. v.current_attempt ≡ some a) h.0 h.1.1.0)
        (subst (λ v. v.max_attempts ≡ some s.max_attempts) h.0 h.1.1.1)

  on_exception_spends :
      (again : ℕ → Action W StageEnd) (k a : ℕ) (e : Exn)
      → k + 1 ≡ a
      → a ≤ limit s
      → (a < limit s → Ensures (Trying a (a + 1)) (again (a + 1)) Never Spent)
      → Ensures (Trying a a) (on_exception (new_executor clock []) p again s a e) Never Spent
  unfolding on_exception
  on_exception_spends again k a e counted most next =
      Ensures-bind (λ _. Noted a e) _ _ (note_it a e)
        λ _.
          Ensures-bind (λ _. Noted a e) _ _
            (emit_silent (Noted a e) HookType.stage_failed (some s) none (some e))
            λ _. Ensures-vars _ λ V.
              Ensures-bind (λ d c. (c.vars ≡ V) × Noted a e c × Default V d) _ _
                (Ensures-weaken _ (λ c h. h) (λ _ c h. h) (λ e c h. absurd h)
                  ((Default-advice clock [] p).decides V (Noted a e) s))
                λ d.
                  Ensures-given _ (λ c h. retry_iff k a e V d c counted h)
                    λ iff.
                      Ensures-if d.retry _ _
                        (λ asked.
                          Ensures-weaken _ (λ c h. h.1) (λ _ c h. h) (λ e c h. h)
                            (Ensures-bind (λ _. Trying a (a + 1)) _ _ (try_again a e)
                              λ _. next (ground (arith, asked, iff))))
                        (λ refused.
                          Ensures-weaken _ (λ c h. h.1) (λ _ c h. h) (λ e c h. h)
                            (give_up a e (ground (arith, refused, iff))))

  call_raises :
      AlwaysRaises s
      → (k a : ℕ) → k + 1 ≡ a
      → Ensures (Trying k a) (execute_stage s) (λ _ _. ⊥) (λ _. Trying a a)
  unfolding execute_stage perform ◌>>=◌
  call_raises always k a counted = record {
    at = λ m h.
        let (e, fails) = always m.context m.vars m.world in
        rw fails (
          h.0,
          h.1,
          subst (λ n. m.calls ++ s.id ∷ [] ≡ C ++ replicate n s.id) {x = suc k}
              (omega (arith, counted)) (one_more C s.id k m.calls h.2),
        );
  }

  after_call :
      (again : ℕ → Action W StageEnd) (k a : ℕ)
      → k + 1 ≡ a
      → a ≤ limit s
      → (a < limit s → Ensures (Trying a (a + 1)) (again (a + 1)) Never Spent)
      → (o : Outcome StageResult) (m : Machine W) → Post (λ _ _. ⊥) (λ _. Trying a a) o (core m)
      → let (o', m') = on_outcome (new_executor clock []) p again s a o m in
        Post Never Spent o' (core m')
  unfolding on_outcome
  after_call again k a counted most next (returned r) m h = absurd h
  after_call again k a counted most next (raised e) m h =
      (on_exception_spends again k a e counted most next).at m h
  after_call again k a counted most next out_of_fuel m h = absurd h

  run_attempts_spends :
      AlwaysRaises s
      → (fuel k a : ℕ) → k + 1 ≡ a
      → a ≤ limit s
      → limit s < fuel + a
      → Ensures (Trying k a) (run_attempts (new_executor clock []) p fuel s a) Never Spent
  unfolding run_attempts
  run_attempts_spends always zero k a counted most enough = record {
    at = λ m h. absurd (omega (arith, most, enough));
  }
  run_attempts_spends always (suc fuel) k a counted most enough = record {
    at = λ m h.
        let (o, m') = execute_stage s m in
        after_call (λ n. run_attempts (new_executor clock []) p fuel s n) k a counted most
          (λ left.
            run_attempts_spends always fuel a (a + 1) refl (omega (arith, left))
              (omega (arith, enough)))
          o m' ((call_raises always k a counted).at m h);
  }

  begin_it :
      Ensures {W = W}
        (λ d. d.calls ≡ C)
        (Runtime.stage_started s.id)
        (λ _ d. (d.vars.current_attempt ≡ some 1) × (d.calls ≡ C))
        Spent
  unfolding Runtime.stage_started
  begin_it =
      Ensures-modify (λ d. d.calls ≡ C) _ (λ d. (d.vars.current_attempt ≡ some 1) × (d.calls ≡ C))
        Spent (λ m h. (refl, h))

  set_maximum :
      Ensures {W = W}
        (λ d. (d.vars.current_attempt ≡ some 1) × (d.calls ≡ C))
        (Runtime.max_attempts s.max_attempts)
        (λ _. Trying 0 1)
        Spent
  unfolding Runtime.max_attempts
  set_maximum =
      Ensures-modify (λ d. (d.vars.current_attempt ≡ some 1) × (d.calls ≡ C)) _ (Trying 0 1) Spent
        (λ m h. (h.0, refl, h.1 ∙ sym (append-nil C)))

  run_stage_spends :
      AlwaysRaises s
      → (fuel : ℕ) → limit s ≤ fuel
      → Ensures (λ d. d.calls ≡ C) (run_stage (new_executor clock []) p fuel s) Never Spent
  unfolding run_stage
  run_stage_spends always fuel enough =
      Ensures-bind (λ _ d. (d.vars.current_attempt ≡ some 1) × (d.calls ≡ C)) _ _ begin_it
        λ _.
          Ensures-bind (λ _. Trying 0 1) _ _ set_maximum
            λ _.
              Ensures-bind (λ _. Trying 0 1) _ _
                (emit_silent (Trying 0 1) HookType.before_stage (some s) none none)
                λ _.
                  run_attempts_spends always fuel 0 1 (omega arith) (limit_pos s.max_attempts)
                    (omega (arith, enough))

raised_at :
    {W : Type 0} (Q : Core → Type 0) (o : Outcome StageEnd) (m : Machine W)
    → Post (λ _ _. ⊥) (λ _. Q) o (core m)
    → (e : Exn) × (o ≡ raised e) × Q (core m)
raised_at Q (returned a) m h = absurd h
raised_at Q (raised e) m h = (e, refl, h)
raised_at Q out_of_fuel m h = absurd h

-- A stage that raises at every call is called exactly as often as its `max_attempts` says, once if
-- that is 0, under the default policies and without hooks; then its run raises, given fuel for those
-- calls.
pub run_stage_exhausts :
    {W : Type 0} (clock : W → ℕ × W) (p : Pipeline W) (s : Stage W) (fuel : ℕ) (m : Machine W)
    → AlwaysRaises s
    → limit s ≤ fuel
    → let (o, m') = run_stage (new_executor clock []) p fuel s m in
      (e : Exn) × (o ≡ raised e) × (m'.calls ≡ m.calls ++ replicate (limit s) s.id)
run_stage_exhausts clock p s fuel m always enough =
    let (o, m') = run_stage (new_executor clock []) p fuel s m in
    raised_at (λ d. d.calls ≡ m.calls ++ replicate (limit s) s.id) o m'
      ((run_stage_spends clock p s m.calls always fuel enough).at m refl)
