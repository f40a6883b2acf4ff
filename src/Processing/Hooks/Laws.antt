-- ===== src/Processing/Hooks/Laws.antt =====
-- Registering and unregistering hooks.
use modern_data_platform.Prelude.{
  suc, ◌+◌, sym, replicate, count, append_assoc, ℕ, ℕ_Eq, Bool, true, false, Option, none, some,
  List, [], ◌∷◌, ◌++◌, ◌≡◌, ◌==◌, refl, ap, ◌∙◌, if◌then◌else◌, arith, nat_eq_iff, append-nil,
}
use modern_data_platform.Prelude.Dict.{get, put, get-put}
use modern_data_platform.Processing.Machine.{HookType}
use modern_data_platform.Processing.Hooks.{
  Hook, HookManager, HookType_Eq, hook_type_eq_iff, get_hooks, register, unregister, is_registered,
  remove_first, register_each, register_hooks, all_hook_types,
}

-- self._hooks.get(hook_type, [])
abbrev hooks_of : {W : Type 0} → Option (List (Hook W)) → List (Hook W)
hooks_of none = []
hooks_of (some hs) = hs

self_eq : (t : HookType) → (t == t) ≡ true
self_eq t = (hook_type_eq_iff t t).1 refl

one_more : (n : ℕ) → suc n ≡ 1 + n
one_more n = omega arith

none_more : (n : ℕ) → n ≡ 0 + n
none_more n = omega arith

module _ {W : Type 0} where
  get_hooks_lem : (t : HookType) (h : HookManager W) → get_hooks t h ≡ hooks_of (get t h)
  unfolding get_hooks
  get_hooks_lem t h = go (get t h)
    where
      go : (o : Option (List (Hook W))) → (elim o [ none ↦ [] | some hs ↦ hs ]) ≡ hooks_of o
      go none = refl
      go (some hs) = refl

  hooks_of_if :
      (b : Bool) (hs : List (Hook W)) (o : Option (List (Hook W)))
      → hooks_of (if b then some hs else o) ≡ (if b then hs else hooks_of o)
  hooks_of_if true hs o = refl
  hooks_of_if false hs o = refl

  get_hooks-put :
      (t u : HookType) (hs : List (Hook W)) (h : HookManager W)
      → get_hooks u (put t hs h) ≡ (if t == u then hs else get_hooks u h)
  get_hooks-put t u hs h =
      rw (get_hooks_lem u (put t hs h), get_hooks_lem u h, get-put t u hs h)
        (hooks_of_if (t == u) hs (get u h))

  get_hooks-register :
      (t u : HookType) (hook : Hook W) (h : HookManager W)
      → get_hooks u (register t hook h)
        ≡ (if t == u then get_hooks t h ++ hook ∷ [] else get_hooks u h)
  unfolding register
  get_hooks-register t u hook h = get_hooks-put t u (get_hooks t h ++ hook ∷ []) h

  remove_first-append :
      (hook : Hook W) (hs : List (Hook W))
      → is_registered hook hs ≡ false
      → remove_first hook (hs ++ hook ∷ []) ≡ hs
  remove_first-append hook [] e = ground (arith, nat_eq_iff hook.id hook.id)
  remove_first-append hook (x ∷ hs) e =
      ground (arith, nat_eq_iff x.id hook.id, remove_first-append hook hs)

  registered-append :
      (hook : Hook W) (hs : List (Hook W)) → is_registered hook (hs ++ hook ∷ []) ≡ true
  registered-append hook [] = ground (arith, nat_eq_iff hook.id hook.id)
  registered-append hook (x ∷ hs) = ground (arith, registered-append hook hs)

  unregister_lem :
      (t : HookType) (hook : Hook W) (hs : List (Hook W)) (h : HookManager W)
      → get t h ≡ some hs
      → is_registered hook hs ≡ true
      → unregister t hook h ≡ put t (remove_first hook hs) h
  unfolding unregister
  unregister_lem t hook hs h found present = go (get t h) found
    where
      go :
          (o : Option (List (Hook W)))
          → o ≡ some hs
          → elim o [
            | none ↦ h
            | some hs ↦ if is_registered hook hs then put t (remove_first hook hs) h else h
          ]
            ≡ put t (remove_first hook hs) h
      go none e = cc
      go (some hs') e = ground (arith, present)

  -- what a key reads, when its value is the one of an equal key
  same_hooks :
      (t u : HookType) (b : Bool) (h : HookManager W) (other : List (Hook W))
      → (t == u) ≡ b
      → (if b then get_hooks t h else (if b then other else get_hooks u h)) ≡ get_hooks u h
  same_hooks t u true h other e = ap (λ v. get_hooks v h) ((hook_type_eq_iff t u).0 e)
  same_hooks t u false h other e = refl

  -- Unregistering a hook that was registered for an event just before, and was not registered for it
  -- earlier, gives every event its hooks back.
  pub unregister-register :
      (t u : HookType) (hook : Hook W) (h : HookManager W)
      → is_registered hook (get_hooks t h) ≡ false
      → get_hooks u (unregister t hook (register t hook h)) ≡ get_hooks u h
  unfolding register
  unregister-register t u hook h e =
      let hs : List (Hook W) = get_hooks t h ++ hook ∷ [] in
      let found : get t (put t hs h) ≡ some hs = rw (get-put t t hs h, self_eq t) refl in
      rw
        (
          unregister_lem t hook hs (put t hs h) found (registered-append hook (get_hooks t h)),
          remove_first-append hook (get_hooks t h) e,
          get_hooks-put t u (get_hooks t h) (put t hs h),
          get_hooks-put t u hs h,
        )
        (same_hooks t u (t == u) h hs refl)

  appended :
      (t u : HookType) (b : Bool) (hook : Hook W) (h : HookManager W) (n : ℕ)
      → (t == u) ≡ b
      → (if b then get_hooks t h ++ hook ∷ [] else get_hooks u h) ++ replicate n hook
        ≡ get_hooks u h ++ replicate ((if b then 1 else 0) + n) hook
  appended t u true hook h n e =
      append_assoc (get_hooks t h) (hook ∷ []) (replicate n hook)
      ∙ ap (λ v. get_hooks v h ++ replicate (suc n) hook) ((hook_type_eq_iff t u).0 e)
      ∙ ap (λ k. get_hooks u h ++ replicate k hook) (one_more n)
  appended t u false hook h n e = ap (λ k. get_hooks u h ++ replicate k hook) (none_more n)

  get_hooks-register_each :
      (ts : List HookType) (u : HookType) (hook : Hook W) (h : HookManager W)
      → get_hooks u (register_each ts hook h)
        ≡ get_hooks u h ++ replicate (count (λ t. t == u) ts) hook
  unfolding register_each
  get_hooks-register_each [] u hook h = sym (append-nil (get_hooks u h))
  get_hooks-register_each (t ∷ ts) u hook h =
      get_hooks-register_each ts u hook (register t hook h)
      ∙ ap (λ hs. hs ++ replicate (count (λ t. t == u) ts) hook) (get_hooks-register t u hook h)
      ∙ appended t u (t == u) hook h (count (λ t. t == u) ts) refl

  -- `register_hooks` adds the hook once, at the end of the hooks of every event.
  pub get_hooks-register_hooks :
      (u : HookType) (hook : Hook W) (h : HookManager W)
      → get_hooks u (register_hooks hook h) ≡ get_hooks u h ++ hook ∷ []
  unfolding register_hooks
  get_hooks-register_hooks u hook h =
      get_hooks-register_each all_hook_types u hook h
      ∙ ap (λ n. get_hooks u h ++ replicate n hook) (each_once u)
    where
      each_once : (u : HookType) → count (λ t. t == u) all_hook_types ≡ 1
      each_once HookType.before_pipeline = refl
      each_once HookType.after_pipeline = refl
      each_once HookType.pipeline_failed = refl
      each_once HookType.before_stage = refl
      each_once HookType.after_stage = refl
      each_once HookType.stage_failed = refl
