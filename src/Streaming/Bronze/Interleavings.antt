-- ===== src/Streaming/Bronze/Interleavings.antt =====
-- The loop of `run_bronze_consumer` beside the worker threads. A step is a turn of the loop for some
-- entity or a part of the flush that a worker runs; they follow one another in any order. The loop's
-- own round-robin order is one of these.
use mathlib.Core.Path.{subst}
use modern_data_platform.Prelude.{
  ◌≤◌, String, String_Eq, Bool, true, false, Option, none, some, List, [], ◌∷◌, ◌++◌, ◌≡◌, refl,
  sym, ◌∙◌, length, concat, concat-snoc, Sub, Sub-fewer, ◌==◌, if◌then◌else◌, arith,
}
use modern_data_platform.Processing.Outcome.{Exn, answer}
use modern_data_platform.Streaming.Debezium.{Row}
use modern_data_platform.Streaming.Bronze.{Backend, Slot, Phase, new_slot, max_batch_size, turn}
use modern_data_platform.Streaming.Bronze.Flush.{flush_step}
use modern_data_platform.Streaming.Bronze.Kept.{Documented, InTable, Kept, Answered}
use modern_data_platform.Streaming.Bronze.Turns.{Kept-turn}
use modern_data_platform.Streaming.Bronze.Flushes.{Kept-flush_step}

-- What the loop keeps for each entity, and the world outside.
pub record System (W : Type 0) : Type 0 where
  pub slots : String → Slot
  pub world : W

unfoldable pub put_slot : String → Slot → (String → Slot) → String → Slot
put_slot entity s slots other = if entity == other then s else slots other

module _ {W B : Type 0} (x : Backend W B) where
  pub data Step : System W → System W → Type 0 where
    turns :
        (entity : String) (σ : System W) (s : Slot) (w : W)
        → turn x entity (σ.slots entity) σ.world ≡ (answer s, w)
        → Step σ (record { slots = put_slot entity s σ.slots; world = w })
    works :
        (entity : String) (σ : System W) (s : Slot) (w : W)
        → flush_step x entity (σ.slots entity) σ.world ≡ (s, w)
        → Step σ (record { slots = put_slot entity s σ.slots; world = w })

  pub data Reachable : System W → Type 0 where
    begins : (w : W) → Reachable (record { slots = λ entity. new_slot; world = w })
    continues : (σ τ : System W) → Reachable σ → Step σ τ → Reachable τ

abbrev AllKept : {W : Type 0} → (Exn → Bool) → System W → Type 0
AllKept lost σ = (entity : String) → Kept lost (σ.slots entity)

new_slot-Kept : (lost : Exn → Bool) → Kept lost new_slot
new_slot-Kept lost = record { size = refl; fits = omega arith; accounts = refl; in_table = tt }

put_slot-AllKept :
    {W : Type 0} (lost : Exn → Bool) (σ : System W) (entity : String) (s : Slot) (w : W)
    → AllKept lost σ
    → Kept lost s
    → AllKept {W = W} lost (record { slots = put_slot entity s σ.slots; world = w })
unfolding put_slot
put_slot-AllKept lost σ entity s w all h other = by_test (entity == other)
  where
    by_test : (same : Bool) → Kept lost (if same then s else σ.slots other)
    by_test true = h
    by_test false = all other

-- whatever the flush does, the batches that left the buffer stand in the table
settled-Sub :
    (lost : Exn → Bool) (flight : Option Phase) (settled : List (List Row)) (rows : List Row)
    (written : List (List Row))
    → InTable lost flight settled rows written
    → Sub settled written
settled-Sub lost none settled rows written h = h
settled-Sub lost (some Phase.writing) settled rows written h = h
settled-Sub lost (some Phase.committing) settled rows written h = Sub-fewer settled written rows h
settled-Sub lost (some Phase.measuring) settled rows written h = Sub-fewer settled written rows h
settled-Sub lost (some Phase.clearing) settled rows written h = Sub-fewer settled written rows h
settled-Sub lost (some Phase.ended) settled rows written h = h
settled-Sub lost (some (Phase.recovering e)) settled rows written h = h.0
settled-Sub lost (some (Phase.crashed e)) settled rows written h = h

module _ {W B : Type 0} (x : Backend W B) (lost : Exn → Bool) (laws : Documented x lost) where
  Step-AllKept : (σ τ : System W) → Step x σ τ → AllKept lost σ → AllKept lost τ
  Step-AllKept _ _ (turns entity σ s w e) all = put_slot-AllKept lost σ entity s w all (
      subst (λ p. Answered (Kept lost) p.0) e
        (Kept-turn x lost laws entity (σ.slots entity) σ.world (all entity)))
  Step-AllKept _ _ (works entity σ s w e) all = put_slot-AllKept lost σ entity s w all (
      subst (λ p. Kept lost p.0) e
        (Kept-flush_step x lost laws entity (σ.slots entity) σ.world (all entity)))

  Reachable-AllKept : (σ : System W) → Reachable x σ → AllKept lost σ
  Reachable-AllKept _ (begins w) = λ entity. new_slot-Kept lost
  Reachable-AllKept _ (continues σ τ r step) = Step-AllKept σ τ step (Reachable-AllKept σ r)

  -- No row is lost: let the provider and the table behave as documented. Then at every moment, in
  -- every interleaving of turns and flushes, failures included, each row that went into the buffer
  -- of an entity is still there or was in a batch that was taken out of it; the batches that were
  -- taken out stand in the table, in order; and the buffer holds no more than its flush threshold.
  pub no_row_lost :
      (σ : System W) (entity : String)
      → Reachable x σ
      → let s = σ.slots entity in
        (s.accepted ≡ concat s.settled ++ s.buffer.records)
        × Sub s.settled s.written
        × (length s.buffer.records ≤ max_batch_size)
  no_row_lost σ entity r =
      let h = Reachable-AllKept σ r entity in
      let s = σ.slots entity in
      (
        h.accounts,
        settled-Sub lost s.flight s.settled s.buffer.records s.written h.in_table,
        h.fits,
      )

  -- Offsets are committed only after the write: under the same conditions, whenever a flush is
  -- about to commit, every row that ever went into the buffer of its entity stands in the table.
  pub commit_after_write :
      (σ : System W) (entity : String)
      → Reachable x σ
      → (σ.slots entity).flight ≡ some Phase.committing
      → let s = σ.slots entity in
        (batches : List (List Row)) × (s.accepted ≡ concat batches) × Sub batches s.written
  commit_after_write σ entity r e =
      let h = Reachable-AllKept σ r entity in
      let s = σ.slots entity in
      (
        s.settled ++ s.buffer.records ∷ [],
        h.accounts ∙ sym (concat-snoc s.settled s.buffer.records),
        subst (λ f. InTable lost f s.settled s.buffer.records s.written) e h.in_table,
      )
