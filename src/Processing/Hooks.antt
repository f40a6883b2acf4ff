-- ===== src/Processing/Hooks.antt =====
-- hooks/hook_manager.py, hooks/hook.py and events/hook_context.py.
pub mod Laws
use modern_data_platform.Prelude.{
  ℕ, ℕ_Eq, Bool, true, false, Option, none, some, List, [], ◌∷◌, ◌++◌, ◌≡◌, ◌↔◌, Eq, ◌==◌, ◌||◌,
  if◌then◌else◌, arith,
}
use modern_data_platform.Prelude.Dict.{Dict, get, put}
use modern_data_platform.Processing.Outcome.{Exn}
use modern_data_platform.Processing.Core.Results.{StageResult}
use modern_data_platform.Processing.Core.Stage.{Stage, Effect}
use modern_data_platform.Processing.Core.Pipeline.{Pipeline}
use modern_data_platform.Processing.Machine.{
  HookType, before_pipeline, after_pipeline, pipeline_failed, before_stage, after_stage,
  stage_failed, Action, pure, perform, ◌>>◌,
}

HookType-discrete : Discrete HookType
HookType-discrete = hlevel

-- The context is shared and mutable, so a hook is handed it as it is when the hook is awaited.
pub record HookContext (W : Type 0) : Type 0 where
  pub hook_type : HookType
  pub pipeline : Pipeline W
  pub stage : Option (Stage W)
  pub result : Option StageResult
  pub exception : Option Exn
  pub timestamp : ℕ

-- A hook object: its identity, which `in` and `remove` compare, and its `execute`.
pub record Hook (W : Type 0) : Type 0 where
  pub id : ℕ
  pub execute : HookContext W → Effect W (Unit {0})

abbrev pub hook_type_eq : HookType → HookType → Bool
hook_type_eq before_pipeline before_pipeline = true
hook_type_eq after_pipeline after_pipeline = true
hook_type_eq pipeline_failed pipeline_failed = true
hook_type_eq before_stage before_stage = true
hook_type_eq after_stage after_stage = true
hook_type_eq stage_failed stage_failed = true
hook_type_eq _ _ = false

pub hook_type_eq_iff : (a b : HookType) → (hook_type_eq a b ≡ true) ↔ (a ≡ b)
hook_type_eq_iff a b = ground arith

instance abbrev pub HookType_Eq : Eq HookType
HookType_Eq = record { eqb = hook_type_eq; eqb_iff = hook_type_eq_iff }

-- `HookManager._hooks`
abbrev pub HookManager : Type 0 → Type 0
HookManager W = Dict HookType (List (Hook W))

abbrev pub all_hook_types : List HookType
all_hook_types =
    before_pipeline ∷ after_pipeline ∷ pipeline_failed ∷ before_stage ∷ after_stage ∷ stage_failed
    ∷ []

module _ {W : Type 0} where
  -- get_hooks, and the list that dispatch walks: self._hooks.get(hook_type, [])
  unfoldable pub get_hooks : HookType → HookManager W → List (Hook W)
  get_hooks t h = elim (get t h) [ none ↦ [] | some hs ↦ hs ]

  -- defaultdict(list): a missing key starts as []
  unfoldable pub register : HookType → Hook W → HookManager W → HookManager W
  unfolding get_hooks
  register t hook h = put t (get_hooks t h ++ hook ∷ []) h

  -- hook in hooks
  abbrev pub is_registered : Hook W → List (Hook W) → Bool
  is_registered hook [] = false
  is_registered hook (x ∷ xs) = x.id == hook.id || is_registered hook xs

  -- hooks.remove(hook): the first occurrence goes
  abbrev pub remove_first : Hook W → List (Hook W) → List (Hook W)
  remove_first hook [] = []
  remove_first hook (x ∷ xs) = if x.id == hook.id then xs else x ∷ remove_first hook xs

  unfoldable pub unregister : HookType → Hook W → HookManager W → HookManager W
  unregister t hook h = elim (get t h) [
    | none ↦ h
    | some hs ↦ if is_registered hook hs then put t (remove_first hook hs) h else h
  ]

  unfoldable pub clear : HookManager W → HookManager W
  clear h = []

  -- `BaseExecutor.register_hooks`: for hook_type in HookType
  register_each : List HookType → Hook W → HookManager W → HookManager W
  unfolding register
  register_each [] hook h = h
  register_each (t ∷ ts) hook h = register_each ts hook (register t hook h)

  unfoldable pub register_hooks : Hook W → HookManager W → HookManager W
  unfolding register_each
  register_hooks hook h = register_each all_hook_types hook h

  -- the loop of `dispatch`; a hook that raises ends it
  unfoldable pub run_hooks : List (Hook W) → HookContext W → Action W (Unit {0})
  run_hooks [] c = pure tt
  run_hooks (hook ∷ hooks) c = perform (hook.execute c) >> run_hooks hooks c

  unfoldable pub dispatch : HookManager W → HookContext W → Action W (Unit {0})
  unfolding run_hooks get_hooks
  dispatch h c = run_hooks (get_hooks c.hook_type h) c
