-- ===== src/Processing/Core/Context.antt =====
-- core/processing_context.py, and the keys of context_keys/execution_keys.py and
-- processing_keys.py that the runtime writes.
use modern_data_platform.Prelude.{ℕ, String, String_Eq, Bool, Option, []}
use modern_data_platform.Prelude.Int.{ℤ}
use modern_data_platform.Prelude.Dict
use modern_data_platform.Prelude.Dict.{Dict, get-put, get-remove}
use modern_data_platform.Prelude.Value.{Value}
use modern_data_platform.Processing.Core.Status.{ExecutionStatus}
use modern_data_platform.Processing.Core.Results.{ExecutionMetadata, PipelineResult}

-- What an entry of the context holds: the runtime's own entries, and those of any other writer.
pub data Entry : Type 0 where
  status : ExecutionStatus → Entry
  time : ℕ → Entry
  duration : ℤ → Entry
  flag : Bool → Entry
  result : PipelineResult → Entry
  other : Value → Entry

-- The members of the StrEnums, each normalized to its `.value`.
abbrev pub status_key : String
status_key = "execution.status"

abbrev pub start_time_key : String
start_time_key = "execution.start_time"

abbrev pub end_time_key : String
end_time_key = "execution.end_time"

abbrev pub duration_key : String
duration_key = "execution.duration"

abbrev pub pipeline_result_key : String
pipeline_result_key = "processing.pipeline_result"

abbrev pub cancelled_key : String
cancelled_key = "processing.cancelled"

pub record ProcessingContext : Type 0 where
  pub id : String
  pub metadata : ExecutionMetadata
  pub values : Dict String Entry

unfoldable pub set : String → Entry → ProcessingContext → ProcessingContext
set key value c = record c { values = Dict.put key value c.values }

unfoldable pub get : String → ProcessingContext → Option Entry
get key c = Dict.get key c.values

unfoldable pub remove : String → ProcessingContext → ProcessingContext
remove key c = record c { values = Dict.remove key c.values }

unfoldable pub contains : String → ProcessingContext → Bool
contains key c = Dict.contains key c.values

unfoldable pub clear : ProcessingContext → ProcessingContext
clear c = record c { values = [] }
