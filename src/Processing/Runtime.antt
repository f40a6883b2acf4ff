-- ===== src/Processing/Runtime.antt =====
-- runtime/execution_runtime.py: the single writer of the execution state. `clock` is what
-- `datetime.now(UTC)` does: it reads a time from the world.
use modern_data_platform.Prelude.{ℕ, zero, suc, String, true, false, Option, none, some}
use modern_data_platform.Prelude.Int.{sub_ℕ}
use modern_data_platform.Processing.Outcome.{Exn, returned}
use modern_data_platform.Processing.Core.Status.{ExecutionStatus}
use modern_data_platform.Processing.Core.Results.{StageResult, PipelineResult}
use modern_data_platform.Processing.Core.Context.{
  Entry, ProcessingContext, get, set, remove, status_key, start_time_key, end_time_key,
  duration_key, pipeline_result_key, cancelled_key,
}
use modern_data_platform.Processing.Core.Stage.{StageVars}
use modern_data_platform.Processing.Machine.{Machine, Action, pure, raise, modify, ◌>>=◌, ◌>>◌}

abbrev type_error : Exn
type_error = record { type_name = "TypeError"; message = "unsupported operand type(s) for -" }

-- if exception is not None
abbrev pub note_exception : Option Exn → StageVars → StageVars
note_exception none v = v
note_exception (some e) v = record v { stage_exception = some e }

-- _current_attempt.get() or 1; in Python 0 is false too
abbrev pub or_one : Option ℕ → ℕ
or_one none = 1
or_one (some zero) = 1
or_one (some (suc n)) = suc n

abbrev pub current_attempt : StageVars → ℕ
current_attempt v = or_one v.current_attempt

abbrev pub current_max_attempts : StageVars → ℕ
current_max_attempts v = or_one v.max_attempts

start_context : ℕ → ProcessingContext → ProcessingContext
unfolding set remove
start_context started c = set cancelled_key (Entry.flag false) (
    remove pipeline_result_key (
      remove duration_key (
        remove end_time_key (
          set start_time_key (Entry.time started)
            (set status_key (Entry.status ExecutionStatus.running) c)))))

module _ {W : Type 0} where
  unfoldable pub on_vars : (StageVars → StageVars) → Machine W → Machine W
  on_vars f m = record m { vars = f m.vars }

  unfoldable pub stage_started : String → Action W (Unit {0})
  unfolding on_vars
  stage_started id = modify (
      on_vars (λ v. record v {
        current_stage = some id;
        current_attempt = some 1;
        stage_result = none;
        stage_exception = none;
      }))

  unfoldable pub stage_finished : Action W (Unit {0})
  unfolding on_vars
  stage_finished = modify (on_vars (λ v. record v { current_stage = none; current_attempt = none }))

  unfoldable pub retry_started : ℕ → Action W (Unit {0})
  unfolding on_vars
  retry_started attempt = modify (
      on_vars (λ v. record v {
        current_attempt = some attempt;
        stage_result = none;
        stage_exception = none;
      }))

  unfoldable pub max_attempts : ℕ → Action W (Unit {0})
  unfolding on_vars
  max_attempts n = modify (on_vars (λ v. record v { max_attempts = some n }))

  unfoldable pub stage_result : StageResult → Action W (Unit {0})
  unfolding on_vars
  stage_result r = modify (on_vars (λ v. record v { stage_result = some r }))

  unfoldable pub stage_failed : Exn → Action W (Unit {0})
  unfolding on_vars
  stage_failed e = modify (on_vars (λ v. record v { stage_exception = some e }))

  unfoldable pub pipeline_result : PipelineResult → Action W (Unit {0})
  unfolding set
  pipeline_result r =
      modify (λ m. record m { context = set pipeline_result_key (Entry.result r) m.context })

  unfoldable pub execution_cancelled : Action W (Unit {0})
  unfolding set
  execution_cancelled =
      modify (λ m. record m { context = set cancelled_key (Entry.flag true) m.context })

module _ {W : Type 0} where
  unfoldable pub on_context : (ProcessingContext → ProcessingContext) → Action W (Unit {0})
  on_context f = modify (λ m. record m { context = f m.context })

  -- if started_at is not None: a difference of two datetimes; any other entry is no operand of `-`
  unfoldable pub set_duration : ℕ → Option Entry → Action W (Unit {0})
  unfolding on_context set
  set_duration finished none = pure tt
  set_duration finished (some (Entry.time started)) =
      on_context (set duration_key (Entry.duration (sub_ℕ finished started)))
  set_duration finished (some _) = raise type_error

  -- STATUS, END_TIME and DURATION at the end of an execution
  unfoldable pub finish_context : ExecutionStatus → ℕ → Action W (Unit {0})
  unfolding on_context set get set_duration
  finish_context status finished =
      on_context
        (λ c. set end_time_key (Entry.time finished) (set status_key (Entry.status status) c))
      >> λ m. set_duration finished (get start_time_key m.context) m

module _ {W : Type 0} (clock : W → ℕ × W) where
  unfoldable pub tick : Action W ℕ
  tick m = let (t, w) = clock m.world in (returned t, record m { world = w })

  unfoldable pub execution_started : Action W (Unit {0})
  unfolding tick start_context
  execution_started = tick >>= λ started. modify (λ m. record m {
    context = start_context started m.context;
    vars = record m.vars { stage_exception = none; stage_result = none };
  })

  unfoldable pub execution_completed : Action W (Unit {0})
  unfolding tick finish_context on_vars
  execution_completed = do
    finished ← tick
    finish_context ExecutionStatus.completed finished
    modify (on_vars (λ v. record v { stage_exception = none }))

  unfoldable pub execution_failed : Option Exn → Action W (Unit {0})
  unfolding tick finish_context on_vars
  execution_failed exception = do
    finished ← tick
    finish_context ExecutionStatus.failed finished
    modify (on_vars (note_exception exception))
