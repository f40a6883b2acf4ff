-- ===== src/Streaming/Bronze/Kept.antt =====
-- What the consumer keeps of an entity, and what it relies on for that.
use mathlib.Core.Path.{subst}
use modern_data_platform.Prelude.{
  ℕ, ◌≤◌, String, Bool, true, false, Option, some, List, [], ◌∷◌, ◌++◌, ◌≡◌, length, concat, Sub,
}
use modern_data_platform.Processing.Outcome.{Exn, Reply, answer, failure}
use modern_data_platform.Streaming.Debezium.{Row}
use modern_data_platform.Streaming.Bronze.{Backend, Slot, Phase, max_batch_size}

-- What the consumer relies on of its provider and of the table, as the MessagingProvider documents
-- it. `lost` tells the errors of a commit that only a new consumer mends.
pub record Documented {W B : Type 0} (x : Backend W B) (lost : Exn → Bool) : Type 0 where
  pub polls_at_most :
      (topic group : String) (n : ℕ) (w : W) (messages : List B)
      → (x.consume_batch topic group n w).0 ≡ answer messages
      → length messages ≤ n
  pub rejoins_if_lost :
      (topic group : String) (e : Exn) (w : W)
      → (x.recover_from_lost_assignment topic group e w).0 ≡ answer true
      → lost e ≡ true
  pub write_not_lost :
      (entity : String) (rows : List Row) (w : W) (e : Exn)
      → (x.write_rows entity rows w).0 ≡ failure e
      → lost e ≡ false

-- The batches that have left the buffer stand in the table, in order; so does the one in the buffer
-- once its write has returned.
abbrev pub InTable :
    (Exn → Bool) → Option Phase → List (List Row) → List Row → List (List Row) → Type 0
InTable lost (some Phase.committing) settled rows written = Sub (settled ++ rows ∷ []) written
InTable lost (some Phase.measuring) settled rows written = Sub (settled ++ rows ∷ []) written
InTable lost (some Phase.clearing) settled rows written = Sub (settled ++ rows ∷ []) written
InTable lost (some (Phase.recovering e)) settled rows written =
    Sub settled written × (lost e ≡ true → Sub (settled ++ rows ∷ []) written)
InTable lost _ settled rows written = Sub settled written

pub record Kept (lost : Exn → Bool) (s : Slot) : Type 0 where
  pub size : s.buffer.max_size ≡ max_batch_size
  pub fits : length s.buffer.records ≤ max_batch_size
  pub accounts : s.accepted ≡ concat s.settled ++ s.buffer.records
  pub in_table : InTable lost s.flight s.settled s.buffer.records s.written

-- the part of `Kept` on the table, at a known entry of `in_flight`
pub stored_at :
    (lost : Exn → Bool) (s : Slot) (flight : Option Phase)
    → s.flight ≡ flight
    → Kept lost s
    → InTable lost flight s.settled s.buffer.records s.written
stored_at lost s flight e h =
    subst (λ f. InTable lost f s.settled s.buffer.records s.written) e h.in_table

-- A statement of the slot that a turn leaves, if it does not leave the loop.
abbrev pub Answered : (Slot → Type 0) → Reply Slot → Type 0
Answered P (answer s) = P s
Answered P (failure e) = Unit
