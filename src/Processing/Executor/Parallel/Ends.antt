-- ===== src/Processing/Executor/Parallel/Ends.antt =====
-- The end of a group and of the pipeline: what the results come to.
use modern_data_platform.Prelude.{
  ℕ, ◌+◌, ◌≤◌, ◌≡◌, refl, sym, ◌∙◌, Bool, true, false, Option, none, some, List, [], ◌∷◌, ◌++◌,
  length, length-append, any, any-append, arith, ◌||◌, if◌then◌else◌,
}
use modern_data_platform.Processing.Outcome.{Exn}
use modern_data_platform.Processing.Core.Status.{ExecutionStatus, completed, failed}
use modern_data_platform.Processing.Core.Results.{StageResult, has_failed}
use modern_data_platform.Processing.Core.Stage.{Stage}
use modern_data_platform.Processing.Core.Pipeline.{Pipeline}
use modern_data_platform.Processing.Machine.{HookType, Action, pure, raise, ◌>>◌}
use modern_data_platform.Processing.Machine.Ensures.{
  Core, core, Ensures, Ensures-bind, Ensures-after, Ensures-weaken, Ensures-if, Ensures-raise,
  Ensures-pure,
}
use modern_data_platform.Processing.Runtime
use modern_data_platform.Processing.Executor.Base.{Executor, emit}
use modern_data_platform.Processing.Executor.Base.Frames.{
  Frames-emit, Ensures-execution_failed, Ensures-execution_completed,
}
use modern_data_platform.Processing.Executor.Sequential.{cancelled_error, end_pipeline, status_of}
use modern_data_platform.Processing.Executor.Sequential.Progress.{is_bad}
use modern_data_platform.Processing.Executor.Parallel.Groups.{Collected, last_n, end_group}
use modern_data_platform.Processing.Executor.Parallel.Gather.{group_cost}
use modern_data_platform.Processing.Executor.Parallel.Summary.{Summed, any-last_n}

-- A unit of fuel for each step that a group may take.
abbrev pub GroupsFuelled : {W : Type 0} → ℕ → ℕ → List (List (Option (Stage W))) → Type 0
GroupsFuelled hooks fuel [] = Unit
GroupsFuelled hooks fuel (group ∷ rest) =
    (group_cost hooks group ≤ fuel) × GroupsFuelled hooks fuel rest

abbrev pub members : {W : Type 0} → List (List (Option (Stage W))) → ℕ
members [] = 0
members (group ∷ rest) = length group + members rest

-- `n` results; a failure among them was tolerated.
abbrev pub Tally : ℕ → Bool → Core → Type 0
Tally n tolerated d = (length d.stage_results ≡ n) × (any is_bad d.stage_results ≡ tolerated)

-- What a status says of the results of a pipeline of `n` stages.
abbrev pub Settled : ℕ → ExecutionStatus → Core → Type 0
Settled n completed d = (length d.stage_results ≡ n) × (any is_bad d.stage_results ≡ false)
Settled n failed d = (length d.stage_results ≤ n) × (any is_bad d.stage_results ≡ true)
Settled n _ d = ⊥

abbrev pub Within : ℕ → Core → Type 0
Within n d = length d.stage_results ≤ n

-- The results of a group follow those before it.
abbrev pub Joined : ℕ → Bool → ℕ → Collected → Core → Type 0
Joined n tolerated size c d =
    (rs : List StageResult) × (length rs ≡ n)
    × (any is_bad rs ≡ tolerated)
    × (d.stage_results ≡ rs ++ c.results)
    × Summed size c

module _ {W : Type 0} (x : Executor W) (p : Pipeline W) (N : ℕ) where
  pub end_pipeline-Settled :
      (tolerated : Bool)
      → Ensures {W = W} (Tally N tolerated) (end_pipeline x p tolerated) (Settled N) (λ _. Within N)
  unfolding end_pipeline
  end_pipeline-Settled tolerated =
      Ensures-bind (λ _. Tally N tolerated) _ _
        (Ensures-if tolerated _ _
          (λ _.
            Ensures-execution_failed x.clock (Tally N tolerated) (Tally N tolerated) (λ _. Within N)
              none (λ c h. h) stopped)
          (λ _.
            Ensures-execution_completed x.clock (Tally N tolerated) (Tally N tolerated)
              (λ _. Within N) (λ c h. h) stopped))
        λ _.
          Ensures-after _ _ (Frames-emit x p HookType.after_pipeline none none none) stopped
            λ _. record { at = λ m h. settled tolerated (core m) h }
    where
      stopped : (e : Exn) (c : Core) → Tally N tolerated c → Within N c
      stopped e c h = omega (arith, h.0)

      settled : (b : Bool) (c : Core) → Tally N b c → Settled N (status_of b) c
      settled true c h = (omega (arith, h.0), h.1)
      settled false c h = h

  -- the pipeline ends as failed, with or without a failed result
  pub fail_pipeline-Ensures :
      {A : Type 0} (P : Core → Type 0) (Q : A → Core → Type 0) (R : Exn → Core → Type 0) (e : Exn)
      (k : Action W A)
      → ((e' : Exn) (c : Core) → P c → R e' c)
      → ((c : Core) (v : _) → P c → P (record c { vars = v }))
      → Ensures P k Q R
      → Ensures P
          (do
            Runtime.execution_failed x.clock (some e)
            emit x p HookType.pipeline_failed none none (some e)
            k)
          Q
          R
  fail_pipeline-Ensures P Q R e k ex keep h =
      Ensures-bind (λ _. P) _ _
        (Ensures-execution_failed x.clock P P R (some e) (λ c q. keep c _ q) ex)
        λ _.
          Ensures-after _ _ (Frames-emit x p HookType.pipeline_failed none none (some e)) ex λ _. h

  pub Joined-Within :
      (n : ℕ) (tolerated : Bool) (size : ℕ) (c : Collected) (d : Core)
      → n + size ≤ N
      → Joined n tolerated size c d
      → Within N d
  Joined-Within n tolerated size c d le (rs, h, _, e, sum) =
      rw e (omega (arith, length-append rs c.results, h, sum.at_most, le))

  -- a group that cancels has a failed result
  pub cancelled-Settled :
      (n : ℕ) (tolerated : Bool) (size : ℕ) (c : Collected) (d : Core)
      → n + size ≤ N
      → c.cancelled ≡ true
      → Joined n tolerated size c d
      → Settled N failed d
  cancelled-Settled n tolerated size c d le cancelled (rs, h, bad, e, sum) = (
    Joined-Within n tolerated size c d le (rs, h, bad, e, sum),
    rw e (any-append is_bad rs c.results ∙ ground (arith, sum.blamed cancelled)),
  )

  -- the results before the next group
  pub next-Tally :
      (n : ℕ) (tolerated : Bool) (size : ℕ) (c : Collected) (d : Core)
      → c.technical_failure ≡ none
      → Joined n tolerated size c d
      → Tally (n + size) (tolerated || any (λ r. has_failed r.base) (last_n size d.stage_results)) d
  next-Tally n tolerated size c d fine (rs, h, bad, e, sum) = (
    rw e (length-append rs c.results ∙ omega (arith, h, sum.whole fine)),
    rw (e, sym bad) (sym (any-last_n size rs c.results (sum.whole fine))),
  )

  pub end_group-Settled :
      (n : ℕ) (tolerated : Bool) (size : ℕ) (c : Collected)
      (run_rest : Bool → Action W ExecutionStatus)
      → n + size ≤ N
      → ((b : Bool) → Ensures (Tally (n + size) b) (run_rest b) (Settled N) (λ _. Within N))
      → Ensures
          (Joined n tolerated size c)
          (end_group x p run_rest size tolerated c)
          (Settled N)
          (λ _. Within N)
  unfolding end_group
  end_group-Settled n tolerated size c run_rest le rest = by_failure c.technical_failure refl
    where
      J : Core → Type 0
      J = Joined n tolerated size c

      by_failure :
          (f : Option Exn)
          → c.technical_failure ≡ f
          → Ensures J
              (elim f [
                | some e ↦ (do
                  Runtime.execution_failed x.clock (some e)
                  emit x p HookType.pipeline_failed none none (some e)
                  raise e)
                | none ↦
                    if c.cancelled
                    then (do
                      Runtime.execution_failed x.clock (some cancelled_error)
                      emit x p HookType.pipeline_failed none none (some cancelled_error)
                      pure failed)
                    else (λ m.
                        run_rest
                          (tolerated || any (λ r. has_failed r.base) (last_n size m.stage_results))
                          m)
              ])
              (Settled N)
              (λ _. Within N)
      by_failure (some e) h =
          fail_pipeline-Ensures J (Settled N) (λ _. Within N) e (raise e)
            (λ _ d. Joined-Within n tolerated size c d le) (λ d v q. q)
            (Ensures-weaken _ (λ d. Joined-Within n tolerated size c d le) (λ _ d q. q) (λ _ d q. q)
              (Ensures-raise e (Settled N) (λ _. Within N)))
      by_failure none h =
          Ensures-if c.cancelled _ _
            (λ cancelled.
              fail_pipeline-Ensures J (Settled N) (λ _. Within N) cancelled_error (pure failed)
                (λ _ d. Joined-Within n tolerated size c d le) (λ d v q. q)
                (Ensures-weaken _ (λ d. cancelled-Settled n tolerated size c d le cancelled)
                  (λ _ d q. q) (λ _ d q. q) (Ensures-pure failed (Settled N) (λ _. Within N))))
            (λ _. record {
              at = λ m q.
                  (rest
                      (tolerated || any (λ r. has_failed r.base) (last_n size m.stage_results))).at
                    m (next-Tally n tolerated size c (core m) h q);
            })
