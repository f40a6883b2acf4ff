-- ===== src/Samples/Hooks.antt =====
-- The laws of hooks on two sample hooks.
use modern_data_platform.Prelude.{ℕ, [], ◌∷◌, ◌++◌, ◌≡◌, refl}
use modern_data_platform.Processing.Outcome.{answer}
use modern_data_platform.Processing.Machine.{HookType}
use modern_data_platform.Processing.Hooks.{
  Hook, HookManager, get_hooks, register, unregister, register_hooks,
}
use modern_data_platform.Processing.Hooks.Laws.{unregister-register, get_hooks-register_hooks}

-- it does nothing
abbrev quiet : ℕ → Hook ℕ
quiet id = record { id = id; execute = λ hc c v w. (answer tt, c, w) }

abbrev hooks : HookManager ℕ
hooks = (HookType.before_stage, quiet 1 ∷ []) ∷ []

unregister-register_example :
    get_hooks HookType.before_stage
      (unregister HookType.before_stage (quiet 2) (register HookType.before_stage (quiet 2) hooks))
    ≡ get_hooks HookType.before_stage hooks
unfolding get_hooks
unregister-register_example =
    unregister-register HookType.before_stage HookType.before_stage (quiet 2) hooks refl

get_hooks-register_hooks_example :
    get_hooks HookType.before_stage (register_hooks (quiet 2) hooks)
    ≡ get_hooks HookType.before_stage hooks ++ quiet 2 ∷ []
get_hooks-register_hooks_example = get_hooks-register_hooks HookType.before_stage (quiet 2) hooks
