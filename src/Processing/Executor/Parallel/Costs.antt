-- ===== src/Processing/Executor/Parallel/Costs.antt =====
-- How many steps a member of a group has still to make at most.
use modern_data_platform.Prelude.{ℕ, zero, suc, ◌+◌, ◌-◌, ◌≤◌, ◌≡◌, [], ◌∷◌, length, arith}
use modern_data_platform.Processing.Core.Stage.{Stage}
use modern_data_platform.Processing.Machine.{HookType}
use modern_data_platform.Processing.Hooks.{HookManager, HookType_Eq, get_hooks}
use modern_data_platform.Processing.Executor.Parallel.{After, Phase}
use modern_data_platform.Processing.Executor.Sequential.Turns.{limit}

-- before the policies decide on an exception, with `left` attempts left
abbrev pub decide_cost : ℕ → ℕ → ℕ
decide_cost hooks zero = 1
decide_cost hooks (suc left) = 3 + hooks + decide_cost hooks left

pub decide_cost_pos : (hooks left : ℕ) → 1 ≤ decide_cost hooks left
decide_cost_pos hooks zero = omega arith
decide_cost_pos hooks (suc left) = omega (arith, decide_cost_pos hooks left)

-- before a call
abbrev pub call_cost : ℕ → ℕ → ℕ
call_cost hooks left = 2 + hooks + decide_cost hooks left

-- a retry has an attempt less
pub call_cost-next :
    (hooks a n : ℕ) → a + 1 ≤ n → call_cost hooks (n - (a + 1)) + 1 ≡ decide_cost hooks (n - a)
call_cost-next hooks a n h = let e : n - a ≡ suc (n - (a + 1)) = omega arith in rw e (omega arith)

module _ {W : Type 0} where
  -- all registrations; no event has more hooks
  abbrev pub registrations : HookManager W → ℕ
  registrations [] = 0
  registrations ((t, hs) ∷ h) = length hs + registrations h

  pub get_hooks-registrations :
      (t : HookType) (h : HookManager W) → length (get_hooks t h) ≤ registrations h
  unfolding get_hooks
  get_hooks-registrations t [] = omega arith
  get_hooks-registrations t ((u, hs) ∷ h) = ground (arith, get_hooks-registrations t h)

  abbrev pub after_cost : ℕ → Stage W → After → ℕ
  after_cost hooks s After.then_call = call_cost hooks (limit s - 1)
  after_cost hooks s (After.then_decide a e) = decide_cost hooks (limit s - a)
  after_cost hooks s (After.then_judge r) = 1
  after_cost hooks s (After.then_return r) = 0

  abbrev pub cost : ℕ → Stage W → Phase W → ℕ
  cost hooks s Phase.starting = 2 + hooks + call_cost hooks (limit s - 1)
  cost hooks s (Phase.hooking hs c after) = length hs + 1 + after_cost hooks s after
  cost hooks s (Phase.calling a) = call_cost hooks (limit s - a)
  cost hooks s (Phase.deciding a e) = decide_cost hooks (limit s - a)
  cost hooks s (Phase.judging r) = 1
  cost hooks s (Phase.ended o) = 0
