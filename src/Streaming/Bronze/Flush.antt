-- ===== src/Streaming/Bronze/Flush.antt =====
-- streaming/consumers/bronze_consumer.py: `_flush`, which a worker thread runs.
use modern_data_platform.Prelude.{String, String_Eq, Option, some, [], ◌∷◌, ◌++◌, if◌then◌else◌}
use modern_data_platform.Processing.Outcome.{Exn, answer, failure}
use modern_data_platform.Streaming.Bronze.{
  Backend, Slot, Phase, writing, committing, measuring, clearing, ended, recovering, crashed,
  clear_slot, topic_for, consumer_group_id,
}

module _ {W B : Type 0} (x : Backend W B) where
  -- The parts of `_flush`, each ended by a call that leaves the process.
  unfoldable pub write_batch : String → Slot → W → Slot × W
  write_batch entity s w =
      let (r, w') = x.write_rows entity s.buffer.records w in
      elim r [
        | answer _ ↦ (
          record s { flight = some committing; written = s.written ++ s.buffer.records ∷ [] },
          w',
        )
        | failure e ↦ (record s { flight = some (recovering e) }, w')
      ]

  unfoldable pub commit_batch : String → Slot → W → Slot × W
  commit_batch entity s w =
      let (r, w') = x.commit (topic_for entity) consumer_group_id w in
      elim r [
        | answer _ ↦ (record s { flight = some measuring }, w')
        | failure e ↦ (record s { flight = some (recovering e) }, w')
      ]

  -- the `except` clause
  unfoldable pub recover : String → Exn → Slot → W → Slot × W
  unfolding clear_slot
  recover entity e s w =
      let (r, w') = x.recover_from_lost_assignment (topic_for entity) consumer_group_id e w in
      elim r [
        | answer rejoined ↦ (
          if rejoined
              then record (clear_slot s) { flight = some ended }
              else record s { flight = some ended },
          w',
        )
        | failure e' ↦ (record s { flight = some (crashed e') }, w')
      ]

  unfoldable pub measure_lag : String → Slot → W → Slot × W
  measure_lag entity s w =
      let (r, w') = x.consumer_lag (topic_for entity) consumer_group_id w in
      elim r [
        | answer lag ↦ (record s { flight = some clearing }, w')
        | failure e ↦ (record s { flight = some (crashed e) }, w')
      ]

  abbrev pub flush_at : String → Option Phase → Slot → W → Slot × W
  flush_at entity (some writing) s w = write_batch entity s w
  flush_at entity (some committing) s w = commit_batch entity s w
  flush_at entity (some (recovering e)) s w = recover entity e s w
  flush_at entity (some measuring) s w = measure_lag entity s w
  flush_at entity (some clearing) s w = (record (clear_slot s) { flight = some ended }, w)
  flush_at entity _ s w = (s, w)

  -- One step of the worker thread that flushes the entity; nothing if none does.
  unfoldable pub flush_step : String → Slot → W → Slot × W
  unfolding write_batch commit_batch recover measure_lag clear_slot
  flush_step entity s w = flush_at entity s.flight s w
