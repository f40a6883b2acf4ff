-- ===== src/Processing/Executor/Sequential/Progress.antt =====
-- What a run over some stages may have added to the results and to the calls.
use modern_data_platform.Prelude.{
  ℕ, ◌≤◌, ◌<◌, String, Bool, true, false, Option, none, some, List, [], ◌∷◌, ◌++◌, ◌≡◌, ◌⊎◌, inl,
  inr, refl, sym, length, arith, any, replicate, append_assoc, append-nil, ◌∙◌,
}
use modern_data_platform.Processing.Outcome.{Exn}
use modern_data_platform.Processing.Core.Status.{ExecutionStatus, completed, failed}
use modern_data_platform.Processing.Core.Results.{StageResult, succeeded, has_failed}
use modern_data_platform.Processing.Core.Stage.{Stage, StageVars}
use modern_data_platform.Processing.Machine.Ensures.{Core}
use modern_data_platform.Processing.Policies.{PolicyResult}
use modern_data_platform.Processing.Executor.Sequential.Turns.{limit, Spared, Called, AtRaise}

abbrev pub is_bad : StageResult → Bool
is_bad r = has_failed r.base

-- The calls that go with the results of a run: each result is that of the next stage, which was
-- called at least once and at most as often as its limit allows; after the last result the next
-- stage may have been called too, up to its limit, and nothing else was.
abbrev pub CallsOf :
    {W : Type 0} → List (Option (Stage W)) → List StageResult → List String → Type 0
CallsOf [] [] calls = calls ≡ []
CallsOf [] (r ∷ rs) calls = ⊥
CallsOf (none ∷ ss) [] calls = calls ≡ []
CallsOf (none ∷ ss) (r ∷ rs) calls = ⊥
CallsOf (some s ∷ ss) [] calls = (k : ℕ) × (calls ≡ replicate k s.id) × (k ≤ limit s)
CallsOf (some s ∷ ss) (r ∷ rs) calls =
    (k : ℕ) × (rest : List String) × (calls ≡ replicate k s.id ++ rest)
    × (0 < k)
    × (k ≤ limit s)
    × CallsOf ss rs rest

-- Every result but the last is a success.
abbrev pub OnlyLastFails : List StageResult → Type 0
OnlyLastFails [] = Unit
OnlyLastFails (r ∷ []) = Unit
OnlyLastFails (r ∷ x ∷ xs) = (succeeded r.base ≡ true) × OnlyLastFails (x ∷ xs)

pub record Progress {W : Type 0} (D : StageVars → PolicyResult → Type 0)
    (ss : List (Option (Stage W))) (R : List StageResult) (C : List String) (d : Core)
    : Type 0 where
  pub results : List StageResult
  pub calls : List String
  pub results_eq : d.stage_results ≡ R ++ results
  pub calls_eq : d.calls ≡ C ++ calls
  pub order : CallsOf ss results calls
  pub bounded : length results ≤ length ss
  pub fail_fast : ¬ Spared D → OnlyLastFails results

-- What the returned status says of the results that were added; `tolerated` is whether a failure
-- had been tolerated before.
abbrev pub Verdict : Bool → ℕ → ExecutionStatus → List StageResult → Type 0
Verdict tolerated stages completed results =
    (tolerated ≡ false) × (length results ≡ stages) × (any is_bad results ≡ false)
Verdict tolerated stages failed results = (tolerated ≡ true) ⊎ (any is_bad results ≡ true)
Verdict tolerated stages _ results = ⊥

only_last :
    (r : StageResult) (rs : List StageResult)
    → succeeded r.base ≡ true
    → OnlyLastFails rs
    → OnlyLastFails (r ∷ rs)
only_last r [] ok h = tt
only_last r (x ∷ xs) ok h = (ok, h)

module _ {W : Type 0} (D : StageVars → PolicyResult → Type 0) (R : List StageResult)
    (C : List String) where
  pub CallsOf-nil : (ss : List (Option (Stage W))) → CallsOf ss [] []
  CallsOf-nil [] = refl
  CallsOf-nil (none ∷ ss) = refl
  CallsOf-nil (some s ∷ ss) = (0, refl, omega arith)

  -- nothing was added
  unfoldable pub Progress-none :
      (ss : List (Option (Stage W))) (d : Core)
      → d.stage_results ≡ R
      → d.calls ≡ C
      → Progress D ss R C d
  Progress-none ss d er ec = record {
    results = [];
    calls = [];
    results_eq = er ∙ sym (append-nil _);
    calls_eq = ec ∙ sym (append-nil _);
    order = CallsOf-nil ss;
    bounded = omega arith;
    fail_fast = λ _. tt;
  }

  pub CallsOf-one :
      (s : Stage W) (ss : List (Option (Stage W))) (r : StageResult) (k : ℕ)
      → 0 < k
      → k ≤ limit s
      → CallsOf (some s ∷ ss) (r ∷ []) (replicate k s.id)
  CallsOf-one s ss r k pos most = (k, [], sym (append-nil _), pos, most, CallsOf-nil ss)

  -- the run stops within the first stage
  unfoldable pub Progress-one :
      (s : Stage W) (ss : List (Option (Stage W))) (d : Core) (r : StageResult)
      → d.stage_results ≡ R ++ r ∷ []
      → Called (limit s) s.id C d.calls
      → Progress D (some s ∷ ss) R C d
  Progress-one s ss d r er (k, ec, pos, most) = record {
    results = r ∷ [];
    calls = replicate k s.id;
    results_eq = er;
    calls_eq = ec;
    order = CallsOf-one s ss r k pos most;
    bounded = omega arith;
    fail_fast = λ _. tt;
  }

  pub Progress-raise :
      (s : Stage W) (ss : List (Option (Stage W))) (e : Exn) (d : Core)
      → AtRaise s R C e d
      → Progress D (some s ∷ ss) R C d
  Progress-raise s ss e d (inl er, (k, ec, pos, most)) = record {
    results = [];
    calls = replicate k s.id;
    results_eq = er ∙ sym (append-nil _);
    calls_eq = ec;
    order = (k, refl, most);
    bounded = omega arith;
    fail_fast = λ _. tt;
  }
  Progress-raise s ss e d (inr (good, (r, er, ok)), called) = Progress-one s ss d r er called

  -- the first stage is over, and the run goes on
  pub Progress-more :
      (s : Stage W) (ss : List (Option (Stage W))) (d : Core) (r : StageResult) (k : ℕ)
      → (succeeded r.base ≡ true) ⊎ Spared D
      → 0 < k
      → k ≤ limit s
      → (g : Progress D ss (R ++ r ∷ []) (C ++ replicate k s.id) d)
      → (h : Progress D (some s ∷ ss) R C d) × (h.results ≡ r ∷ g.results)
  Progress-more s ss d r k good pos most g = (
    record {
      results = r ∷ g.results;
      calls = replicate k s.id ++ g.calls;
      results_eq = g.results_eq ∙ append_assoc R (r ∷ []) g.results;
      calls_eq = g.calls_eq ∙ append_assoc C (replicate k s.id) g.calls;
      order = (k, g.calls, refl, pos, most, g.order);
      bounded = omega (arith, g.bounded);
      fail_fast = λ n. only_last r g.results (succeeds good n) (g.fail_fast n);
    },
    refl,
  )
    where
      succeeds : (succeeded r.base ≡ true) ⊎ Spared D → ¬ Spared D → succeeded r.base ≡ true
      succeeds (inl ok) n = ok
      succeeds (inr spared) n = absurd (n spared)
