-- ===== src/Processing/Core/Stage.antt =====
-- core/stage.py. A stage is given by what its `execute` does: it reads the context and the
-- stage-level variables of the runtime, and it may write to the context and to the world. `World`
-- stands for everything outside the framework: databases, object storage, the wall clock.
use modern_data_platform.Prelude.{ℕ, String, Option, none}
use modern_data_platform.Processing.Outcome.{Exn, Reply}
use modern_data_platform.Processing.Core.Results.{StageResult}
use modern_data_platform.Processing.Core.Context.{ProcessingContext}

-- The ContextVars of runtime/execution_runtime.py, as one asyncio.Task sees them.
pub record StageVars : Type 0 where
  pub current_stage : Option String
  pub current_attempt : Option ℕ
  pub max_attempts : Option ℕ
  pub stage_result : Option StageResult
  pub stage_exception : Option Exn

abbrev pub no_stage : StageVars
no_stage = record {
  current_stage = none;
  current_attempt = none;
  max_attempts = none;
  stage_result = none;
  stage_exception = none;
}

-- What a piece of code outside the framework does when it is awaited.
abbrev pub Effect : Type 0 → Type 0 → Type 0
Effect W A = ProcessingContext → StageVars → W → Reply A × ProcessingContext × W

-- A stage; `max_attempts` is not negative.
pub record Stage (W : Type 0) : Type 0 where
  pub id : String
  pub name : String
  pub max_attempts : ℕ
  pub execute : Effect W StageResult
