-- ===== src/Processing/Core/Results.antt =====
-- core/execution_metadata.py, processing_result.py, stage_result.py and pipeline_result.py.
-- A moment in time is a number of microseconds.
use modern_data_platform.Prelude.{
  ℕ, String, String_Eq, Bool, not, Option, List, length, count, last?, ltb,
}
use modern_data_platform.Prelude.Dict.{Dict, put}
use modern_data_platform.Prelude.Value.{Value}
use modern_data_platform.Processing.Core.Status.{ExecutionStatus, is_success}

pub record ExecutionMetadata : Type 0 where
  pub execution_id : String
  pub pipeline_id : Option String
  pub stage_id : Option String
  pub correlation_id : Option String
  pub parent_execution_id : Option String
  pub started_at : Option ℕ
  pub attributes : Dict String Value

unfoldable pub with_attribute : String → Value → ExecutionMetadata → ExecutionMetadata
with_attribute key value m = record m { attributes = put key value m.attributes }

pub record ProcessingResult : Type 0 where
  pub status : ExecutionStatus
  pub metadata : ExecutionMetadata
  pub error_type : Option String
  pub error_message : Option String

abbrev pub succeeded : ProcessingResult → Bool
succeeded r = is_success r.status

abbrev pub has_failed : ProcessingResult → Bool
has_failed r = not (succeeded r)

pub record StageResult : Type 0 where
  pub base : ProcessingResult
  pub open base use *
  pub stage_id : String
  pub stage_name : String
  pub attempt : ℕ
  pub output : Dict String Value

pub record PipelineResult : Type 0 where
  pub base : ProcessingResult
  pub open base use *
  pub stage_results : List StageResult

abbrev pub total_stages : PipelineResult → ℕ
total_stages r = length r.stage_results

abbrev pub successful_stages : PipelineResult → ℕ
successful_stages r = count (λ s. succeeded s.base) r.stage_results

abbrev pub failed_stages : PipelineResult → ℕ
failed_stages r = count (λ s. has_failed s.base) r.stage_results

abbrev pub last_result : PipelineResult → Option StageResult
last_result r = last? r.stage_results

abbrev pub has_failures : PipelineResult → Bool
has_failures r = ltb 0 (failed_stages r)
