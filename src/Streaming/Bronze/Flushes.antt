-- ===== src/Streaming/Bronze/Flushes.antt =====
-- Each step of a flush keeps the rows of an entity.
use modern_data_platform.Prelude.{
  ℕ, String, Bool, true, false, Option, none, some, List, [], ◌∷◌, ◌++◌, ◌≡◌, refl, sym, ◌∙◌,
  append-nil, concat, concat-snoc, Sub, Sub-snoc, Sub-fewer, arith, if◌then◌else◌,
}
use modern_data_platform.Processing.Outcome.{Exn, Reply, answer, failure}
use modern_data_platform.Streaming.Bronze
use modern_data_platform.Streaming.Debezium.{Row}
use modern_data_platform.Streaming.Bronze.{
  Backend, EntityBuffer, Slot, Phase, max_batch_size, max_poll_batch_size, is_due, skip_poll,
  remaining, clear_slot, open_at, topic_for, consumer_group_id, add, add_change, buffer_message,
  buffer_messages, polled, consume, poll, submit, poll_and_submit, turn, turn_at,
}
use modern_data_platform.Streaming.Bronze.Flush.{
  flush_step, flush_at, write_batch, commit_batch, recover, measure_lag,
}
use modern_data_platform.Streaming.Bronze.Kept.{Documented, InTable, Kept, stored_at}

module _ {W B : Type 0} (x : Backend W B) (lost : Exn → Bool) (laws : Documented x lost) where
  -- the slot at another phase, with the batches that are then in the table
  Kept-phase :
      (s : Slot) (phase : Phase) (written : List (List Row))
      → Kept lost s
      → InTable lost (some phase) s.settled s.buffer.records written
      → Kept lost (record s { flight = some phase; written = written })
  Kept-phase s phase written h stored = record {
    size = h.size;
    fits = h.fits;
    accounts = h.accounts;
    in_table = stored;
  }

  -- the batch in the table is taken out of the buffer
  Kept-clear_slot :
      (s : Slot)
      → Kept lost s
      → Sub (s.settled ++ s.buffer.records ∷ []) s.written
      → Kept lost (record (clear_slot s) { flight = some Phase.ended })
  unfolding clear_slot Bronze.clear
  Kept-clear_slot s h stored = record {
    size = h.size;
    fits = omega arith;
    accounts =
        h.accounts
        ∙ sym (concat-snoc s.settled s.buffer.records)
        ∙ sym (append-nil (concat (s.settled ++ s.buffer.records ∷ [])));
    in_table = stored;
  }

  Kept-write_batch :
      (entity : String) (s : Slot) (w : W)
      → Kept lost s
      → Sub s.settled s.written
      → Kept lost (write_batch x entity s w).0
  unfolding write_batch
  Kept-write_batch entity s w h stored =
      by_reply (x.write_rows entity s.buffer.records w).0
        (laws.write_not_lost entity s.buffer.records w)
    where
      w' : W
      w' = (x.write_rows entity s.buffer.records w).1

      by_reply :
          (r : Reply (Unit {0}))
          → ((e : Exn) → r ≡ failure e → lost e ≡ false)
          → let p : Slot × W = elim r [
            | answer _ ↦ (
              record s {
                flight = some Phase.committing;
                written = s.written ++ s.buffer.records ∷ [];
              },
              w',
            )
            | failure e ↦ (record s { flight = some (Phase.recovering e) }, w')
          ] in
            Kept lost p.0
      by_reply (answer u) not_lost =
          Kept-phase s Phase.committing (s.written ++ s.buffer.records ∷ []) h
            (Sub-snoc s.settled s.written s.buffer.records stored)
      by_reply (failure e) not_lost =
          Kept-phase s (Phase.recovering e) s.written h
            (stored, λ is_lost. cc (not_lost e refl, is_lost))

  Kept-commit_batch :
      (entity : String) (s : Slot) (w : W)
      → Kept lost s
      → Sub (s.settled ++ s.buffer.records ∷ []) s.written
      → Kept lost (commit_batch x entity s w).0
  unfolding commit_batch
  Kept-commit_batch entity s w h stored =
      by_reply (x.commit (topic_for entity) consumer_group_id w).0
    where
      w' : W
      w' = (x.commit (topic_for entity) consumer_group_id w).1

      by_reply :
          (r : Reply (Unit {0}))
          → let p : Slot × W = elim r [
            | answer _ ↦ (record s { flight = some Phase.measuring }, w')
            | failure e ↦ (record s { flight = some (Phase.recovering e) }, w')
          ] in
            Kept lost p.0
      by_reply (answer u) = Kept-phase s Phase.measuring s.written h stored
      by_reply (failure e) =
          Kept-phase s (Phase.recovering e) s.written h
            (Sub-fewer s.settled s.written s.buffer.records stored, λ is_lost. stored)

  Kept-recover :
      (entity : String) (e : Exn) (s : Slot) (w : W)
      → Kept lost s
      → Sub s.settled s.written
      → (lost e ≡ true → Sub (s.settled ++ s.buffer.records ∷ []) s.written)
      → Kept lost (recover x entity e s w).0
  unfolding recover
  Kept-recover entity e s w h stored if_lost =
      by_reply (x.recover_from_lost_assignment (topic_for entity) consumer_group_id e w).0
        (laws.rejoins_if_lost (topic_for entity) consumer_group_id e w)
    where
      w' : W
      w' = (x.recover_from_lost_assignment (topic_for entity) consumer_group_id e w).1

      by_reply :
          (r : Reply Bool)
          → (r ≡ answer true → lost e ≡ true)
          → let p : Slot × W = elim r [
            | answer rejoined ↦ (
              if rejoined
                  then record (clear_slot s) { flight = some Phase.ended }
                  else record s { flight = some Phase.ended },
              w',
            )
            | failure e' ↦ (record s { flight = some (Phase.crashed e') }, w')
          ] in
            Kept lost p.0
      by_reply (answer true) lost_if = Kept-clear_slot s h (if_lost (lost_if refl))
      by_reply (answer false) lost_if = Kept-phase s Phase.ended s.written h stored
      by_reply (failure e') lost_if = Kept-phase s (Phase.crashed e') s.written h stored

  Kept-measure_lag :
      (entity : String) (s : Slot) (w : W)
      → Kept lost s
      → Sub (s.settled ++ s.buffer.records ∷ []) s.written
      → Kept lost (measure_lag x entity s w).0
  unfolding measure_lag
  Kept-measure_lag entity s w h stored =
      by_reply (x.consumer_lag (topic_for entity) consumer_group_id w).0
    where
      w' : W
      w' = (x.consumer_lag (topic_for entity) consumer_group_id w).1

      by_reply :
          (r : Reply (Option ℕ))
          → let p : Slot × W = elim r [
            | answer lag ↦ (record s { flight = some Phase.clearing }, w')
            | failure e ↦ (record s { flight = some (Phase.crashed e) }, w')
          ] in
            Kept lost p.0
      by_reply (answer lag) = Kept-phase s Phase.clearing s.written h stored
      by_reply (failure e) =
          Kept-phase s (Phase.crashed e) s.written h
            (Sub-fewer s.settled s.written s.buffer.records stored)

  Kept-flush_at :
      (entity : String) (flight : Option Phase) (s : Slot) (w : W)
      → s.flight ≡ flight
      → Kept lost s
      → Kept lost (flush_at x entity flight s w).0
  Kept-flush_at entity (some Phase.writing) s w e h =
      Kept-write_batch entity s w h (stored_at lost s (some Phase.writing) e h)
  Kept-flush_at entity (some Phase.committing) s w e h =
      Kept-commit_batch entity s w h (stored_at lost s (some Phase.committing) e h)
  Kept-flush_at entity (some (Phase.recovering e')) s w e h =
      let stored = stored_at lost s (some (Phase.recovering e')) e h in
      Kept-recover entity e' s w h stored.0 stored.1
  Kept-flush_at entity (some Phase.measuring) s w e h =
      Kept-measure_lag entity s w h (stored_at lost s (some Phase.measuring) e h)
  Kept-flush_at entity (some Phase.clearing) s w e h =
      Kept-clear_slot s h (stored_at lost s (some Phase.clearing) e h)
  Kept-flush_at entity none s w e h = h
  Kept-flush_at entity (some Phase.ended) s w e h = h
  Kept-flush_at entity (some (Phase.crashed e')) s w e h = h

  -- Each step of a flush keeps a slot.
  pub Kept-flush_step :
      (entity : String) (s : Slot) (w : W) → Kept lost s → Kept lost (flush_step x entity s w).0
  unfolding flush_step
  Kept-flush_step entity s w h = Kept-flush_at entity s.flight s w refl h
