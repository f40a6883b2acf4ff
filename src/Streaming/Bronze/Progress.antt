-- ===== src/Streaming/Bronze/Progress.antt =====
-- A flush ends, and what each way of ending leaves.
use modern_data_platform.Prelude.{
  ℕ, zero, suc, String, Bool, true, false, Option, none, some, List, [], ◌∷◌, ◌++◌, ◌≡◌, ◌⊎◌, inl,
  inr, refl, sym, ap, ◌∙◌,
}
use mathlib.Core.Path.{subst}
use modern_data_platform.Processing.Outcome.{Exn, Reply, answer, failure}
use modern_data_platform.Streaming.Bronze
use modern_data_platform.Streaming.Bronze.{
  Backend, Slot, Phase, clear_slot, topic_for, consumer_group_id,
}
use modern_data_platform.Streaming.Debezium.{Row}
use modern_data_platform.Streaming.Bronze.Flush.{
  flush_step, flush_at, write_batch, commit_batch, recover, measure_lag,
}

-- the batch stays in the buffer, and is flushed again
abbrev Kept : Slot → Slot → Type 0
Kept s s' = (s'.buffer ≡ s.buffer) × (s'.settled ≡ s.settled)

-- the batch is taken out of the buffer
abbrev Cleared : Slot → Slot → Type 0
Cleared s s' =
    (s'.buffer.records ≡ [])
    × (s'.buffer.opened_at ≡ none)
    × (s'.settled ≡ s.settled ++ s.buffer.records ∷ [])

-- after an exception: the batch is dropped exactly if the assignment was lost
abbrev Recovered : Slot → Reply Bool → Slot → Type 0
Recovered s (answer true) s' = Cleared s s' × (s'.flight ≡ some Phase.ended)
Recovered s (answer false) s' = Kept s s' × (s'.flight ≡ some Phase.ended)
Recovered s (failure e) s' = Kept s s' × (s'.flight ≡ some (Phase.crashed e))

-- after the commit
abbrev Measured : Slot → Reply (Option ℕ) → Slot → Type 0
Measured s (answer lag) s' = Cleared s s' × (s'.flight ≡ some Phase.ended)
Measured s (failure e) s' = Kept s s' × (s'.flight ≡ some (Phase.crashed e))

module _ {W B : Type 0} (x : Backend W B) where
  -- `n` steps of the worker thread
  abbrev pub flush_steps : ℕ → String → Slot → W → Slot × W
  flush_steps zero entity s w = (s, w)
  flush_steps (suc n) entity s w =
      let (s', w') = flush_step x entity s w in flush_steps n entity s' w'

  abbrev recovery : String → Exn → W → Reply Bool
  recovery entity e w = (x.recover_from_lost_assignment (topic_for entity) consumer_group_id e w).0

  abbrev lag_of : String → W → Reply (Option ℕ)
  lag_of entity w = (x.consumer_lag (topic_for entity) consumer_group_id w).0

  -- by what the commit answers, in the world that the write has left
  abbrev Committed : String → Slot → Reply (Unit {0}) → W → Slot → Type 0
  Committed entity s (answer _) w s' = Measured s (lag_of entity w) s'
  Committed entity s (failure e) w s' = Recovered s (recovery entity e w) s'

  -- by what the write answers
  abbrev Wrote : String → Slot → Reply (Unit {0}) → W → Slot → Type 0
  Wrote entity s (answer _) w s' =
      let (r, w') = x.commit (topic_for entity) consumer_group_id w in
      (s'.written ≡ s.written ++ s.buffer.records ∷ []) × Committed entity s r w' s'
  Wrote entity s (failure e) w s' = (s'.written ≡ s.written) × Recovered s (recovery entity e w) s'

  -- How a flush of the slot `s` that begins in the world `w` may leave the slot.
  abbrev pub Flushed : String → Slot → W → Slot → Type 0
  Flushed entity s w s' =
      let (r, w') = x.write_rows entity s.buffer.records w in Wrote entity s r w' s'

  abbrev at : Slot → Phase → List (List Row) → Slot
  at s phase written = record s { flight = some phase; written = written }

  -- the first of some steps
  first_step :
      (P : Slot → Type 0) (n : ℕ) (entity : String) (s t : Slot) (w w' : W)
      → flush_step x entity s w ≡ (t, w')
      → P (flush_steps n entity t w').0
      → P (flush_steps (suc n) entity s w).0
  first_step P n entity s t w w' e h = subst (λ p. P (flush_steps n entity p.0 p.1).0) (sym e) h

  -- a flush that is done takes no step
  IsDone : Option Phase → Type 0
  IsDone flight = (flight ≡ some Phase.ended) ⊎ ((e : Exn) × (flight ≡ some (Phase.crashed e)))

  done_step :
      (entity : String) (s : Slot) (w : W) → IsDone s.flight → flush_step x entity s w ≡ (s, w)
  unfolding flush_step IsDone
  done_step entity s w (inl e) = ap (λ phase. flush_at x entity phase s w) e
  done_step entity s w (inr (e', e)) = ap (λ phase. flush_at x entity phase s w) e

  done_steps :
      (P : Slot → Type 0) (n : ℕ) (entity : String) (s : Slot) (w : W)
      → IsDone s.flight
      → P s
      → P (flush_steps n entity s w).0
  done_steps P zero entity s w done h = h
  done_steps P (suc n) entity s w done h =
      first_step P n entity s s w w (done_step entity s w done) (done_steps P n entity s w done h)

  -- the slot after a call, with the batches that are then in the table
  abbrev After : List (List Row) → (Slot → Type 0) → Slot → Type 0
  After written Q s' = (s'.written ≡ written) × Q s'

  recover_lem :
      (n : ℕ) (entity : String) (s : Slot) (e : Exn) (written : List (List Row)) (w : W)
      → After written
          (Recovered s (recovery entity e w))
          (flush_steps (suc n) entity (at s (Phase.recovering e) written) w).0
  unfolding flush_step recover clear_slot Bronze.clear IsDone
  recover_lem n entity s e written w = by_reply (recovery entity e w) refl
    where
      next : W
      next = (x.recover_from_lost_assignment (topic_for entity) consumer_group_id e w).1

      from : Slot
      from = at s (Phase.recovering e) written

      by_reply :
          (r : Reply Bool)
          → recovery entity e w ≡ r
          → After written (Recovered s (recovery entity e w)) (flush_steps (suc n) entity from w).0
      by_reply (answer true) same =
          let t : Slot = record (clear_slot from) { flight = some Phase.ended } in
          rw same (
            first_step (After written (Recovered s (answer true))) n entity from t w next
              (rw (recover, same) refl)
              (done_steps (After written (Recovered s (answer true))) n entity t next (inl refl)
                (refl, ((refl, refl, refl), refl))))
      by_reply (answer false) same =
          let t : Slot = at s Phase.ended written in
          rw same (
            first_step (After written (Recovered s (answer false))) n entity from t w next
              (rw (recover, same) refl)
              (done_steps (After written (Recovered s (answer false))) n entity t next (inl refl)
                (refl, ((refl, refl), refl))))
      by_reply (failure e') same =
          let t : Slot = at s (Phase.crashed e') written in
          rw same (
            first_step (After written (Recovered s (failure e'))) n entity from t w next
              (rw (recover, same) refl)
              (done_steps (After written (Recovered s (failure e'))) n entity t next
                (inr (e', refl)) (refl, ((refl, refl), refl))))

  measure_lem :
      (entity : String) (s : Slot) (written : List (List Row)) (w : W)
      → After written
          (Measured s (lag_of entity w))
          (flush_steps 2 entity (at s Phase.measuring written) w).0
  unfolding flush_step measure_lag clear_slot Bronze.clear IsDone
  measure_lem entity s written w = by_lag (lag_of entity w) refl
    where
      next : W
      next = (x.consumer_lag (topic_for entity) consumer_group_id w).1

      from : Slot
      from = at s Phase.measuring written

      by_lag :
          (r : Reply (Option ℕ))
          → lag_of entity w ≡ r
          → After written (Measured s (lag_of entity w)) (flush_steps 2 entity from w).0
      by_lag (answer lag) same =
          let t : Slot = at s Phase.clearing written in
          rw same (
            first_step (After written (Measured s (answer lag))) 1 entity from t w next
              (rw (measure_lag, same) refl) (refl, ((refl, refl, refl), refl)))
      by_lag (failure e') same =
          let t : Slot = at s (Phase.crashed e') written in
          rw same (
            first_step (After written (Measured s (failure e'))) 1 entity from t w next
              (rw (measure_lag, same) refl) (refl, ((refl, refl), refl)))

  commit_lem :
      (entity : String) (s : Slot) (written : List (List Row)) (w : W)
      → let (r, w') = x.commit (topic_for entity) consumer_group_id w in
        After written
          (Committed entity s r w')
          (flush_steps 3 entity (at s Phase.committing written) w).0
  unfolding flush_step commit_batch
  commit_lem entity s written w = by_commit (x.commit (topic_for entity) consumer_group_id w).0 refl
    where
      next : W
      next = (x.commit (topic_for entity) consumer_group_id w).1

      from : Slot
      from = at s Phase.committing written

      by_commit :
          (r : Reply (Unit {0}))
          → (x.commit (topic_for entity) consumer_group_id w).0 ≡ r
          → After written (Committed entity s r next) (flush_steps 3 entity from w).0
      by_commit (answer u) same =
          first_step (After written (Measured s (lag_of entity next))) 2 entity from
            (at s Phase.measuring written) w next (rw (commit_batch, same) refl)
            (measure_lem entity s written next)
      by_commit (failure e) same =
          first_step (After written (Recovered s (recovery entity e next))) 2 entity from
            (at s (Phase.recovering e) written) w next (rw (commit_batch, same) refl)
            (recover_lem 1 entity s e written next)

  -- A flush that has been submitted is over after at most four of its calls, whatever they return or
  -- raise. If the write raises, nothing is written, and if the write returns, the batch is. If the
  -- write, the commit and the reading of the lag return, the batch leaves the buffer and the future
  -- ends. If the write or the commit raises, the batch leaves the buffer if the recovery says that
  -- the assignment was lost, and stays otherwise; the future then ends. If the recovery or the
  -- reading of the lag raises, the batch stays, and the future holds that exception.
  pub flush_ends :
      (entity : String) (s : Slot) (w : W)
      → s.flight ≡ some Phase.writing
      → Flushed entity s w (flush_steps 4 entity s w).0
  unfolding flush_step write_batch
  flush_ends entity s w writing = by_write (x.write_rows entity s.buffer.records w).0 refl
    where
      next : W
      next = (x.write_rows entity s.buffer.records w).1

      step : (t : Slot) → write_batch x entity s w ≡ (t, next) → flush_step x entity s w ≡ (t, next)
      step t e = ap (λ phase. flush_at x entity phase s w) writing ∙ e

      by_write :
          (r : Reply (Unit {0}))
          → (x.write_rows entity s.buffer.records w).0 ≡ r
          → Wrote entity s r next (flush_steps 4 entity s w).0
      by_write (answer u) same =
          let rows = s.written ++ s.buffer.records ∷ [] in
          let (r, w') = x.commit (topic_for entity) consumer_group_id next in
          first_step (After rows (Committed entity s r w')) 3 entity s (at s Phase.committing rows)
            w next (step _ (rw (write_batch, same) refl)) (commit_lem entity s rows next)
      by_write (failure e) same =
          first_step (After s.written (Recovered s (recovery entity e next))) 3 entity s
            (at s (Phase.recovering e) s.written) w next (step _ (rw (write_batch, same) refl))
            (recover_lem 2 entity s e s.written next)
