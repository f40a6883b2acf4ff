-- ===== src/Processing/Executor/Sequential/Turns.antt =====
-- What holds while the attempts of one stage are made, and what the loop over them leaves.
use modern_data_platform.Prelude.{
  zero, ℕ, suc, ◌+◌, ◌≤◌, ◌<◌, String, Bool, true, false, none, some, List, [], ◌∷◌, ◌++◌, ◌≡◌, ◌⊎◌,
  ap, append_assoc, replicate, replicate-snoc, ◌∙◌, arith, ltb,
}
use modern_data_platform.Processing.Outcome.{Exn}
use modern_data_platform.Processing.Core.Results.{StageResult, succeeded}
use modern_data_platform.Processing.Core.Stage.{Stage, StageVars}
use modern_data_platform.Processing.Core.Pipeline.{Pipeline}
use modern_data_platform.Processing.Machine.Ensures.{
  Core, Ensures, Frames-perform, Ensures-bind, Ensures-frame, Ensures-modify,
}
use modern_data_platform.Processing.Runtime.{or_one, current_attempt, current_max_attempts}
use modern_data_platform.Processing.Policies.{PolicyResult, failed}
use modern_data_platform.Processing.Policies.Laws.{NoRaise}
use modern_data_platform.Processing.Executor.Base.{Executor, evaluate_policies, execute_stage}
use modern_data_platform.Processing.Executor.Sequential.{
  StageEnd, succeeded_end, tolerated_end, cancelled_end,
}

-- How often a stage may be called: `max_attempts`, read as the runtime reads it.
abbrev pub limit : {W : Type 0} → Stage W → ℕ
limit s = or_one (some s.max_attempts)

pub limit_pos : (n : ℕ) → 1 ≤ or_one (some n)
limit_pos zero = omega arith
limit_pos (suc n) = omega arith

-- One result more, that succeeded or not.
abbrev pub Added : Bool → List StageResult → List StageResult → Type 0
Added good before now = (r : StageResult) × (now ≡ before ++ r ∷ []) × (succeeded r.base ≡ good)

-- A failed result that the policies let pass.
abbrev pub Spared : (StageVars → PolicyResult → Type 0) → Type 0
Spared D =
    (V : StageVars) × (d : PolicyResult) × D V d
    × (V.stage_exception ≡ none)
    × (failed V.stage_result ≡ true)
    × (d.cancel_pipeline ≡ false)

-- Since `before` the stage with that id was called, at least once and at most `most` times, and
-- no other stage was.
abbrev pub Called : ℕ → String → List String → List String → Type 0
Called most id before calls = (k : ℕ) × (calls ≡ before ++ replicate k id) × (0 < k) × (k ≤ most)

-- How the loop may end.
abbrev pub AtEnd :
    {W : Type 0}
    → (StageVars → PolicyResult → Type 0)
    → Stage W
    → List StageResult
    → List String
    → StageEnd
    → Core
    → Type 0
AtEnd D s R C succeeded_end d = Added true R d.stage_results × Called (limit s) s.id C d.calls
AtEnd D s R C tolerated_end d =
    Added false R d.stage_results × Called (limit s) s.id C d.calls × Spared D
AtEnd D s R C cancelled_end d = Added false R d.stage_results × Called (limit s) s.id C d.calls

abbrev pub AtRaise : {W : Type 0} → Stage W → List StageResult → List String → Exn → Core → Type 0
AtRaise s R C e d =
    ((d.stage_results ≡ R) ⊎ ((good : Bool) × Added good R d.stage_results))
    × Called (limit s) s.id C d.calls

-- While attempt `a` of a stage is made; `due` is 1 before the call of the stage and 0 after it.
pub record Turn (attempts : ℕ) (id : String) (R : List StageResult) (C : List String) (due a : ℕ)
    (d : Core) : Type 0 where
  pub attempt : d.vars.current_attempt ≡ some a
  pub maximum : d.vars.max_attempts ≡ some attempts
  pub no_exception : d.vars.stage_exception ≡ none
  pub results : d.stage_results ≡ R
  pub count : ℕ
  pub counted : count + due ≡ a
  pub calls : d.calls ≡ C ++ replicate count id
  pub first : 1 ≤ a
  pub last : a ≤ or_one (some attempts)

pub one_more :
    (C : List String) (id : String) (n : ℕ) (calls : List String)
    → calls ≡ C ++ replicate n id
    → calls ++ id ∷ [] ≡ C ++ replicate (suc n) id
one_more C id n calls e =
    rw e (append_assoc C (replicate n id) (id ∷ []) ∙ ap (λ xs. C ++ xs) (replicate-snoc n id))

module _ {W : Type 0} (s : Stage W) (R : List StageResult) (C : List String) where
  abbrev pub Ready : ℕ → Core → Type 0
  Ready a = Turn s.max_attempts s.id R C 1 a

  abbrev pub Made : ℕ → Core → Type 0
  Made a = Turn s.max_attempts s.id R C 0 a

  pub call-Made : (a : ℕ) → Ensures (Ready a) (execute_stage s) (λ _. Made a) (λ _. Made a)
  unfolding execute_stage
  call-Made a =
      Ensures-bind (λ _. Made a) _ _
        (Ensures-modify (Ready a) _ (Made a) (λ _. Made a)
          λ m h. record {
            attempt = h.attempt;
            maximum = h.maximum;
            no_exception = h.no_exception;
            results = h.results;
            count = suc h.count;
            counted = omega (arith, h.counted);
            calls = one_more C s.id h.count m.calls h.calls;
            first = h.first;
            last = h.last;
          })
        λ _. Ensures-frame (Made a) _ (Frames-perform s.execute)

  pub Called-of_Made : (a : ℕ) (d : Core) → Made a d → Called (limit s) s.id C d.calls
  Called-of_Made a d h =
      (h.count, h.calls, omega (arith, h.counted, h.first), omega (arith, h.counted, h.last))

-- What the policies of an executor have to satisfy: they come to a decision, of which `D` holds, and
-- they ask for a retry only while an attempt is left.
pub record Advice {W : Type 0} (x : Executor W) (p : Pipeline W)
    (D : StageVars → PolicyResult → Type 0) : Type 1 where
  pub decides :
      (V : StageVars) (P : Core → Type 0) (s : Stage W)
      → Ensures
          (λ d. (d.vars ≡ V) × P d)
          (evaluate_policies x p s)
          (λ r d. (d.vars ≡ V) × P d × D V r)
          NoRaise
  pub bounded :
      (V : StageVars) (r : PolicyResult)
      → D V r
      → r.retry ≡ true
      → ltb (current_attempt V) (current_max_attempts V) ≡ true
