-- ===== src/Samples/Pipelines.antt =====
-- Sample stages, pipelines and executors. Their world is the number of times that it was asked.
use modern_data_platform.Prelude.{ℕ, ◌+◌, String, none, some, List, [], ◌∷◌, ltb, if◌then◌else◌}
use modern_data_platform.Processing.Outcome.{answer, failure, runtime_error}
use modern_data_platform.Processing.Core.Status.{ExecutionStatus, completed, failed}
use modern_data_platform.Processing.Core.Results.{ExecutionMetadata, StageResult}
use modern_data_platform.Processing.Core.Stage.{Stage, no_stage}
use modern_data_platform.Processing.Core.Pipeline.{Pipeline, Item, lone}
use modern_data_platform.Processing.Machine.{Machine}
use modern_data_platform.Processing.Executor.Base.{Executor, new_executor}

abbrev pub metadata : ExecutionMetadata
metadata = record {
  execution_id = "run-1";
  pipeline_id = none;
  stage_id = none;
  correlation_id = none;
  parent_execution_id = none;
  started_at = none;
  attributes = [];
}

abbrev pub result_with : ExecutionStatus → String → StageResult
result_with status id = record {
  base = record { status = status; metadata = metadata; error_type = none; error_message = none };
  stage_id = id;
  stage_name = id;
  attempt = 1;
  output = [];
}

-- A stage that raises until the world has been asked `n` times, and then returns `status`.
abbrev pub flaky : ℕ → ExecutionStatus → String → ℕ → Stage ℕ
flaky n status id attempts = record {
  id = id;
  name = id;
  max_attempts = attempts;
  execute = λ c v w. (
    if ltb w n then failure (runtime_error "down") else answer (result_with status id),
    c,
    w + 1,
  );
}

abbrev pub ok_stage : String → Stage ℕ
ok_stage id = flaky 0 completed id 3

abbrev pub bad_stage : String → Stage ℕ
bad_stage id = flaky 0 failed id 3

abbrev pub down_stage : String → Stage ℕ
down_stage id = flaky 1000 completed id 3

abbrev pub clock : ℕ → ℕ × ℕ
clock w = (w, w)

abbrev pub executor : Executor ℕ
executor = new_executor clock []

abbrev pub pipeline_of : List (Stage ℕ) → Pipeline ℕ
pipeline_of ss = record { id = "p"; name = "p"; stages = items ss }
  where
    items : List (Stage ℕ) → List (Item ℕ)
    items [] = []
    items (s ∷ ss) = lone (some s) ∷ items ss

abbrev pub start : Machine ℕ
start = record {
  context = record { id = "ctx"; metadata = metadata; values = [] };
  vars = no_stage;
  world = 0;
  stage_results = [];
  calls = [];
  emitted = [];
}
