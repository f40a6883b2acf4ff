-- ===== src/Simulator/UniqueInsert.antt =====
-- simulator/core/unique_insert.py. `generate` and `insert` are parameters, as they are in the source.
use modern_data_platform.Prelude.{
  ℕ, zero, suc, String, Bool, true, false, ◌≡◌, refl, sym, text_append, show_ℕ,
}
use modern_data_platform.Processing.Outcome.{Exn, Reply, answer, failure}

abbrev pub default_max_attempts : ℕ
default_max_attempts = 10

abbrev pub exhausted_error : String → ℕ → Exn
exhausted_error label max_attempts = record {
  type_name = "UniqueInsertExhausted";
  message = text_append "Could not insert " (
      text_append label (
        text_append " after " (
          text_append (show_ℕ max_attempts)
            " attempts: unique constraint kept colliding with pre-existing data.")));
}

module _ {W T : Type 0} (label : String) (generate : W → Reply T × W)
    (insert : T → W → Reply Bool × W) (max_attempts : ℕ) where
  -- the loop, with the attempts that are left; `rest` is the one after a collision
  abbrev after_insert : T → Reply Bool → W → (Reply T × W) → Reply T × W
  after_insert entity (failure e) w rest = (failure e, w)
  after_insert entity (answer true) w rest = (answer entity, w)
  after_insert entity (answer false) w rest = rest

  abbrev after_generate : Reply T → W → (T → W → Reply T × W) → Reply T × W
  after_generate (failure e) w attempt = (failure e, w)
  after_generate (answer entity) w attempt = attempt entity w

  unfoldable pub attempts_left : ℕ → T → W → Reply T × W
  attempts_left zero entity w = (failure (exhausted_error label max_attempts), w)
  attempts_left (suc n) entity w =
      let (r, w') = insert entity w in
      let (g, w'') = generate w' in
      after_insert entity r w' (after_generate g w'' (attempts_left n))

  -- `insert_with_unique_retry`
  unfoldable pub insert_with_unique_retry : W → Reply T × W
  unfolding attempts_left
  insert_with_unique_retry w =
      let (g, w') = generate w in after_generate g w' (attempts_left max_attempts)

  -- The entity was inserted by the last call that was made: nothing follows it.
  pub record Inserted (entity : T) (w : W) : Type 0 where
    pub before : W
    pub inserted : (insert entity before).0 ≡ answer true
    pub last : (insert entity before).1 ≡ w

  attempts_left-Inserted :
      (n : ℕ) (entity : T) (w : W) (e : T)
      → (attempts_left n entity w).0 ≡ answer e
      → Inserted e (attempts_left n entity w).1
  unfolding attempts_left
  attempts_left-Inserted zero entity w e h = cc
  attempts_left-Inserted (suc n) entity w e h =
      by_insert (insert entity w).0 refl (generate (insert entity w).1).0
        (generate (insert entity w).1).1 h (λ entity' w'. attempts_left-Inserted n entity' w' e)
    where
      by_generate :
          (g : Reply T) (w'' : W)
          → (after_generate g w'' (attempts_left n)).0 ≡ answer e
          → ((entity' : T) (w' : W)
              → (attempts_left n entity' w').0 ≡ answer e
              → Inserted e (attempts_left n entity' w').1)
          → Inserted e (after_generate g w'' (attempts_left n)).1
      by_generate (failure x) w'' h' later = cc
      by_generate (answer entity') w'' h' later = later entity' w'' h'

      by_insert :
          (r : Reply Bool)
          → (insert entity w).0 ≡ r
          → (g : Reply T) (w'' : W)
          → (after_insert entity r (insert entity w).1 (after_generate g w'' (attempts_left n))).0
            ≡ answer e
          → ((entity' : T) (w' : W)
              → (attempts_left n entity' w').0 ≡ answer e
              → Inserted e (attempts_left n entity' w').1)
          → Inserted e
              (after_insert entity r (insert entity w).1 (after_generate g w'' (attempts_left n))).1
      by_insert (failure x) eq g w'' h' later = cc
      by_insert (answer true) eq g w'' h' later =
          let same : entity ≡ e = cc in
          record { before = w; inserted = rw (sym same) eq; last = rw (sym same) refl }
      by_insert (answer false) eq g w'' h' later = by_generate g w'' h' later

  -- If `insert_with_unique_retry` returns an entity, its last call of `insert` was for that entity and
  -- inserted it.
  pub insert_with_unique_retry-Inserted :
      (w : W) (e : T)
      → (insert_with_unique_retry w).0 ≡ answer e
      → Inserted e (insert_with_unique_retry w).1
  unfolding insert_with_unique_retry
  insert_with_unique_retry-Inserted w e h = by_generate (generate w).0 (generate w).1 h
    where
      by_generate :
          (g : Reply T) (w' : W)
          → (after_generate g w' (attempts_left max_attempts)).0 ≡ answer e
          → Inserted e (after_generate g w' (attempts_left max_attempts)).1
      by_generate (failure x) w' h' = cc
      by_generate (answer entity) w' h' = attempts_left-Inserted max_attempts entity w' e h'

  -- what a collision does to the world, as long as `generate` returns
  abbrev pub collide : T → (W → T) → ℕ → W → W
  collide entity next zero w = w
  collide entity next (suc n) w =
      let w' = (insert entity w).1 in collide (next w') next n (generate w').1

  attempts_left_exhausts :
      (next : W → T) (n : ℕ) (entity : T) (w : W)
      → ((w : W) → (generate w).0 ≡ answer (next w))
      → ((e : T) (w : W) → (insert e w).0 ≡ answer false)
      → attempts_left n entity w
        ≡ (failure (exhausted_error label max_attempts), collide entity next n w)
  unfolding attempts_left
  attempts_left_exhausts next zero entity w generates collides = refl
  attempts_left_exhausts next (suc n) entity w generates collides =
      rw (collides entity w, generates (insert entity w).1)
        (attempts_left_exhausts next n (next (insert entity w).1) (generate (insert entity w).1).1
          generates collides)

  -- If every insertion collides, and `generate` returns, `insert_with_unique_retry` ends with
  -- UniqueInsertExhausted after just `max_attempts` rounds of an insertion and a generation.
  pub insert_with_unique_retry_exhausts :
      (next : W → T) (w : W)
      → ((w : W) → (generate w).0 ≡ answer (next w))
      → ((e : T) (w : W) → (insert e w).0 ≡ answer false)
      → insert_with_unique_retry w ≡ (
        failure (exhausted_error label max_attempts),
        collide (next w) next max_attempts (generate w).1,
      )
  unfolding insert_with_unique_retry
  insert_with_unique_retry_exhausts next w generates collides =
      rw (generates w)
        (attempts_left_exhausts next max_attempts (next w) (generate w).1 generates collides)
