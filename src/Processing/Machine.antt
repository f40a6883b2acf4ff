-- ===== src/Processing/Machine.antt =====
-- The state that an `execute` call of an executor works on, and actions on it.
pub mod Ensures
use modern_data_platform.Prelude.{ℕ, String, Option, List}
use modern_data_platform.Processing.Outcome.{
  Exn, Reply, Outcome, returned, raised, out_of_fuel, outcome,
}
use modern_data_platform.Processing.Core.Results.{StageResult}
use modern_data_platform.Processing.Core.Context.{ProcessingContext}
use modern_data_platform.Processing.Core.Stage.{StageVars, Effect}

-- events/hook_type.py
pub data HookType : Type 0 where
  before_pipeline after_pipeline pipeline_failed before_stage after_stage stage_failed : HookType

-- What a HookContext says of an event, its pipeline, context and timestamp left out.
pub record Emission : Type 0 where
  pub hook_type : HookType
  pub stage : Option String
  pub result : Option StageResult
  pub exception : Option Exn

-- `stage_results` is the list that `execute` passes down. The last two fields are a record of what
-- happened that the program does not keep: the id of a stage for each call of its `execute`, and
-- each event that was dispatched.
pub record Machine (W : Type 0) : Type 0 where
  pub context : ProcessingContext
  pub vars : StageVars
  pub world : W
  pub stage_results : List StageResult
  pub calls : List String
  pub emitted : List Emission

-- What was changed before a raise stays changed, so the state comes back beside every outcome.
abbrev pub Action : Type 0 → Type 0 → Type 0
Action W A = Machine W → Outcome A × Machine W

module _ {W A : Type 0} where
  abbrev pub pure : A → Action W A
  pure a m = (returned a, m)

  abbrev pub raise : Exn → Action W A
  raise e m = (raised e, m)

  abbrev pub lift : Outcome A → Action W A
  lift o m = (o, m)

  -- Awaits code outside the framework.
  unfoldable pub perform : Effect W A → Action W A
  perform f m =
      let (r, c, w) = f m.context m.vars m.world in (outcome r, record m { context = c; world = w })

module _ {W : Type 0} where
  abbrev pub modify : (Machine W → Machine W) → Action W (Unit {0})
  modify f m = (returned tt, f m)

module _ {W A B : Type 0} where
  abbrev pub continue : Outcome A → (A → Action W B) → Action W B
  continue (returned a) f m = f a m
  continue (raised e) f m = (raised e, m)
  continue out_of_fuel f m = (out_of_fuel, m)

  infixl 5 ◌>>=◌
  unfoldable pub ◌>>=◌ : Action W A → (A → Action W B) → Action W B
  ◌>>=◌ k f m = let (o, m') = k m in continue o f m'

module _ {W B : Type 0} where
  infixl 5 ◌>>◌
  abbrev pub ◌>>◌ : Action W (Unit {0}) → Action W B → Action W B
  k >> l = k >>= λ _. l
