-- ===== src/Processing/Metrics/Laws.antt =====
-- How much the metrics count, over any sequence of events.
use modern_data_platform.Prelude.{
  ℕ, ◌+◌, ◌≤◌, String, String_Eq, ◌≡◌, inl, inr, refl, Option, none, some, List, [], ◌∷◌, ◌==◌,
  length, length-append, arith, Bool-cases,
}
use modern_data_platform.Prelude.Int.{sub_ℕ}
use modern_data_platform.Prelude.Dict.{Dict, get, put, remove}
use modern_data_platform.Processing.Core.Stage.{Stage}
use modern_data_platform.Processing.Machine.{
  HookType, before_pipeline, after_pipeline, pipeline_failed, before_stage, after_stage,
  stage_failed,
}
use modern_data_platform.Processing.Hooks.{HookContext}
use modern_data_platform.Processing.Metrics.{
  PrometheusHook, new_hook, status_of, on_before_pipeline, pipeline_ended, on_after_pipeline,
  on_before_stage, stage_ended, on_after_stage, on_event, observe,
}

length-put : (k : String) (v : ℕ) (d : Dict String ℕ) → length (put k v d) ≤ length d + 1
length-put k v [] = omega arith
length-put k v ((j, w) ∷ d) = ground (arith, length-put k v d)

length-remove : (k : String) (d : Dict String ℕ) → length (remove k d) ≤ length d
length-remove k [] = omega arith
length-remove k ((j, w) ∷ d) = ground (arith, length-remove k d)

length-pop :
    (k : String) (v : ℕ) (d : Dict String ℕ) → get k d ≡ some v → length (remove k d) + 1 ≤ length d
length-pop k v [] h = cc
length-pop k v ((j, w) ∷ d) h = elim (Bool-cases (j == k)) [
  | inl e ↦ rw e (omega (arith, length-remove k d))
  | inr e ↦
      let later : get k d ≡ some v = ground arith in rw e (omega (arith, length-pop k v d later))
]

abbrev starts_pipeline : HookType → ℕ
starts_pipeline before_pipeline = 1
starts_pipeline _ = 0

abbrev starts_stage : HookType → ℕ
starts_stage before_stage = 1
starts_stage _ = 0

-- how many samples there are, counting those that wait for their end
abbrev pipelines_seen : PrometheusHook → ℕ
pipelines_seen h = length h.pipeline_samples + length h.pipeline_started_at

abbrev stages_seen : PrometheusHook → ℕ
stages_seen h = length h.stage_samples + length h.stage_started

-- at most `p` more pipelines and `s` more stages
abbrev Grown : ℕ → ℕ → PrometheusHook → PrometheusHook → Type 0
Grown p s h h' = (pipelines_seen h' ≤ pipelines_seen h + p) × (stages_seen h' ≤ stages_seen h + s)

module _ {W : Type 0} where
  -- the hook's calls for a sequence of events
  abbrev pub observe_all : List (HookContext W) → PrometheusHook → PrometheusHook
  observe_all [] h = h
  observe_all (c ∷ cs) h = observe_all cs (observe c h)

  abbrev pub pipelines_started : List (HookContext W) → ℕ
  pipelines_started [] = 0
  pipelines_started (c ∷ cs) = starts_pipeline c.hook_type + pipelines_started cs

  abbrev pub stages_started : List (HookContext W) → ℕ
  stages_started [] = 0
  stages_started (c ∷ cs) = starts_stage c.hook_type + stages_started cs

  Grown-pipeline_ended :
      (o : Option ℕ) (c : HookContext W) (h : PrometheusHook)
      → get c.pipeline.id h.pipeline_started_at ≡ o
      → Grown 0 0 h (pipeline_ended o c h)
  Grown-pipeline_ended none c h e = (omega arith, omega arith)
  Grown-pipeline_ended (some started) c h e = (
    omega (
      arith,
      length-append h.pipeline_samples (
          record {
            pipeline_name = c.pipeline.name;
            status = status_of c.result;
            duration = sub_ℕ c.timestamp started;
          }
          ∷ []),
      length-pop c.pipeline.id started h.pipeline_started_at e,
    ),
    omega arith,
  )

  Grown-stage_ended :
      (s : Stage W) (o : Option ℕ) (c : HookContext W) (h : PrometheusHook)
      → get s.id h.stage_started ≡ o
      → Grown 0 0 h (stage_ended s o c h)
  Grown-stage_ended s none c h e = (omega arith, omega arith)
  Grown-stage_ended s (some started) c h e = (
    omega arith,
    omega (
      arith,
      length-append h.stage_samples (
          record {
            pipeline_name = c.pipeline.name;
            stage_name = s.name;
            status = status_of c.result;
            duration = sub_ℕ c.timestamp started;
          }
          ∷ []),
      length-pop s.id started h.stage_started e,
    ),
  )

  Grown-on_after_stage :
      (s : Option (Stage W)) (c : HookContext W) (h : PrometheusHook)
      → Grown 0 0 h (on_after_stage s c h)
  unfolding on_after_stage
  Grown-on_after_stage none c h = (omega arith, omega arith)
  Grown-on_after_stage (some s) c h = Grown-stage_ended s (get s.id h.stage_started) c h refl

  Grown-on_after_pipeline :
      (c : HookContext W) (h : PrometheusHook) → Grown 0 0 h (on_after_pipeline c h)
  unfolding on_after_pipeline
  Grown-on_after_pipeline c h =
      Grown-pipeline_ended (get c.pipeline.id h.pipeline_started_at) c h refl

  Grown-on_before_stage :
      (s : Option (Stage W)) (c : HookContext W) (h : PrometheusHook)
      → Grown 0 1 h (on_before_stage s c h)
  unfolding on_before_stage
  Grown-on_before_stage none c h = (omega arith, omega arith)
  Grown-on_before_stage (some s) c h =
      (omega arith, omega (arith, length-put s.id c.timestamp h.stage_started))

  Grown-on_event :
      (t : HookType) (c : HookContext W) (h : PrometheusHook)
      → Grown (starts_pipeline t) (starts_stage t) h (on_event t c h)
  unfolding on_before_pipeline
  Grown-on_event before_pipeline c h =
      (omega (arith, length-put c.pipeline.id c.timestamp h.pipeline_started_at), omega arith)
  Grown-on_event after_pipeline c h = Grown-on_after_pipeline c h
  Grown-on_event pipeline_failed c h = Grown-on_after_pipeline c h
  Grown-on_event before_stage c h = Grown-on_before_stage c.stage c h
  Grown-on_event after_stage c h = Grown-on_after_stage c.stage c h
  Grown-on_event stage_failed c h = Grown-on_after_stage c.stage c h

  observe_all-Grown :
      (cs : List (HookContext W)) (h : PrometheusHook)
      → Grown (pipelines_started cs) (stages_started cs) h (observe_all cs h)
  unfolding observe
  observe_all-Grown [] h = (omega arith, omega arith)
  observe_all-Grown (c ∷ cs) h =
      let first = Grown-on_event c.hook_type c h in
      let rest = observe_all-Grown cs (observe c h) in
      (omega (arith, first.0, rest.0), omega (arith, first.1, rest.1))

  -- Over any sequence of events a new hook observes at most one duration for each BEFORE_PIPELINE, and at
  -- most one duration and one execution for each BEFORE_STAGE, however often a stage is retried.
  pub observe_all_at_most :
      (cs : List (HookContext W))
      → (length (observe_all cs new_hook).pipeline_samples ≤ pipelines_started cs)
        × (length (observe_all cs new_hook).stage_samples ≤ stages_started cs)
  observe_all_at_most cs =
      let grown = observe_all-Grown cs new_hook in (omega (arith, grown.0), omega (arith, grown.1))
