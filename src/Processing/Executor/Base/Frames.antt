-- ===== src/Processing/Executor/Base/Frames.antt =====
-- The clock, the hooks and the end of an execution leave the stage's variables, the results and
-- the calls alone, and they end.
use modern_data_platform.Prelude.{ℕ, Option, none, some, List, [], ◌∷◌, refl}
use modern_data_platform.Processing.Outcome.{Exn}
use modern_data_platform.Processing.Core.Status.{ExecutionStatus}
use modern_data_platform.Processing.Core.Results.{StageResult}
use modern_data_platform.Processing.Core.Context.{Entry, ProcessingContext, get, start_time_key}
use modern_data_platform.Processing.Core.Stage.{Stage}
use modern_data_platform.Processing.Core.Pipeline.{Pipeline}
use modern_data_platform.Processing.Machine.{HookType, perform}
use modern_data_platform.Processing.Machine.Ensures.{
  Core, core, Frames, Ensures, Ensures-modify, Ensures-after, Frames-pure, Frames-raise,
  Frames-bind, Frames-perform,
}
use modern_data_platform.Processing.Hooks.{
  Hook, HookContext, HookManager, run_hooks, dispatch, get_hooks,
}
use modern_data_platform.Processing.Runtime.{
  tick, finish_context, set_duration, on_context, execution_failed, execution_completed,
  execution_started, on_vars, note_exception,
}
use modern_data_platform.Processing.Executor.Base.{Executor, emit}
use modern_data_platform.Processing.Policies.Laws.{Frames-tick}

module _ {W : Type 0} where
  Frames-run_hooks : (hs : List (Hook W)) (c : HookContext W) → Frames (run_hooks hs c)
  unfolding run_hooks
  Frames-run_hooks [] c = Frames-pure tt
  Frames-run_hooks (h ∷ hs) c =
      Frames-bind (perform (h.execute c)) _ (Frames-perform (h.execute c))
        λ _. Frames-run_hooks hs c

  Frames-dispatch : (h : HookManager W) (c : HookContext W) → Frames (dispatch h c)
  unfolding dispatch
  Frames-dispatch h c = Frames-run_hooks (get_hooks c.hook_type h) c

  pub Frames-emit :
      (x : Executor W) (p : Pipeline W) (t : HookType) (s : Option (Stage W))
      (r : Option StageResult) (e : Option Exn)
      → Frames (emit x p t s r e)
  unfolding emit
  Frames-emit x p t s r e = Frames-bind (tick x.clock) _ (Frames-tick x.clock) λ now.
      Frames-bind _ _ (record { same = λ m. refl; ends = λ m. tt })
        λ _. Frames-dispatch x.hook_manager _

  Frames-on_context : (f : ProcessingContext → ProcessingContext) → Frames (on_context {W = W} f)
  unfolding on_context
  Frames-on_context f = record { same = λ m. refl; ends = λ m. tt }

  Frames-set_duration : (n : ℕ) (o : Option Entry) → Frames (set_duration {W = W} n o)
  unfolding set_duration
  Frames-set_duration n none = Frames-pure tt
  Frames-set_duration n (some (Entry.time t)) = Frames-on_context _
  Frames-set_duration n (some _) = Frames-raise _

  Frames-finish_context : (s : ExecutionStatus) (n : ℕ) → Frames (finish_context {W = W} s n)
  unfolding finish_context
  Frames-finish_context s n = Frames-bind _ _ (Frames-on_context _) λ _. record {
    same = λ m. (Frames-set_duration n (get start_time_key m.context)).same m;
    ends = λ m. (Frames-set_duration n (get start_time_key m.context)).ends m;
  }

  module _ (clock : W → ℕ × W) (P Q : Core → Type 0) (R : Exn → Core → Type 0) where
    pub Ensures-execution_failed :
        (e : Option Exn)
        → ((c : Core) → P c → Q (record c { vars = note_exception e c.vars }))
        → ((x : Exn) (c : Core) → P c → R x c)
        → Ensures P (execution_failed clock e) (λ _. Q) R
    unfolding execution_failed on_vars
    Ensures-execution_failed e keep ex = Ensures-after _ _ (Frames-tick clock) ex λ n.
        Ensures-after _ _ (Frames-finish_context ExecutionStatus.failed n) ex
          λ _. Ensures-modify P _ Q R (λ m p. keep (core m) p)

    pub Ensures-execution_completed :
        ((c : Core) → P c → Q (record c { vars = record c.vars { stage_exception = none } }))
        → ((x : Exn) (c : Core) → P c → R x c)
        → Ensures P (execution_completed clock) (λ _. Q) R
    unfolding execution_completed on_vars
    Ensures-execution_completed keep ex = Ensures-after _ _ (Frames-tick clock) ex λ n.
        Ensures-after _ _ (Frames-finish_context ExecutionStatus.completed n) ex
          λ _. Ensures-modify P _ Q R (λ m p. keep (core m) p)

    pub Ensures-execution_started :
        ((c : Core)
          → P c
          → Q (record c { vars = record c.vars { stage_exception = none; stage_result = none } }))
        → ((x : Exn) (c : Core) → P c → R x c)
        → Ensures P (execution_started clock) (λ _. Q) R
    unfolding execution_started
    Ensures-execution_started keep ex =
        Ensures-after _ _ (Frames-tick clock) ex
          λ n. Ensures-modify P _ Q R (λ m p. keep (core m) p)
