-- ===== src/Streaming/Kafka/Laws.antt =====
-- The consumers that the provider keeps, and the batches that it hands out.
use modern_data_platform.Prelude.{
  ℕ, suc, ◌≤◌, String, Bool, true, false, none, List, [], ◌∷◌, ◌≡◌, ◌==◌, ◌&&◌, pair_Eq, refl,
  length, if◌then◌else◌, arith,
}
use modern_data_platform.Prelude.Dict.{get, remove, get-remove}
use modern_data_platform.Processing.Outcome.{Exn, Reply, answer, failure}
use modern_data_platform.Streaming.Kafka.{
  Record, Message, Client, Consumers, checked, cons_reply, to_messages, consume_batch,
  resolve_consumer, is_lost, recover_from_lost_assignment, close_if,
}

module _ {B : Type 0} (decode_utf8 : B → Reply String) where
  -- A batch is handed out whole or not at all: as many messages as records.
  length-to_messages :
      (rs : List (Record B)) (ms : List (Message B))
      → to_messages decode_utf8 rs ≡ answer ms
      → length ms ≡ length rs
  unfolding to_messages
  length-to_messages [] ms e = ground arith
  length-to_messages (r ∷ rs) ms e =
      go (checked decode_utf8 r r.error) (to_messages decode_utf8 rs) ms (length-to_messages rs) e
    where
      go :
          (one : Reply (Message B)) (rest : Reply (List (Message B))) (ms : List (Message B))
          → ((ms : List (Message B)) → rest ≡ answer ms → length ms ≡ length rs)
          → cons_reply one rest ≡ answer ms
          → length ms ≡ suc (length rs)
      go (failure e) rest ms h q = cc
      go (answer m) (failure e) ms h q = cc
      go (answer m) (answer tail) ms h q = ground (arith, h tail refl)

module _ {W B : Type 0} (k : Client W B) where
  -- Recovering never raises, answers whether the error means that the consumer is lost, and then
  -- drops just the consumer of this topic and group, whatever closing it does; otherwise every
  -- consumer stays.
  pub recover_drops_one :
      (topic group : String) (error : Exn) (cs : Consumers) (w : W) (key : String × String)
      → let (r, cs', w') = recover_from_lost_assignment k topic group error cs w in
        (r ≡ answer (is_lost k error))
        × (get key cs' ≡ (if is_lost k error && (topic, group) == key then none else get key cs))
  unfolding recover_from_lost_assignment
  recover_drops_one topic group error cs w key = by_loss (is_lost k error)
    where
      by_loss :
          (lost : Bool)
          → let (r, cs', w') : Reply Bool × Consumers × W =
              if lost
              then (answer true, remove (topic, group) cs, close_if k (get (topic, group) cs) w)
              else (answer false, cs, w) in
            (r ≡ answer lost)
            × (get key cs' ≡ (if lost && (topic, group) == key then none else get key cs))
      by_loss true = (refl, get-remove (topic, group) key cs)
      by_loss false = (refl, refl)

  -- The client hands out at most as many records as it is asked for.
  abbrev pub ConsumesAtMost : Type 0
  ConsumesAtMost =
      (consumer n : ℕ) (w : W) (rs : List (Record B))
      → (k.consume consumer n w).0 ≡ answer rs
      → length rs ≤ n

  -- A batch has at most as many messages as were asked for, if the client keeps to that with records.
  pub consume_batch_at_most :
      (topic group : String) (n : ℕ) (auto_commit : Bool) (cs : Consumers) (w : W)
      (ms : List (Message B))
      → ConsumesAtMost
      → (consume_batch k topic group n auto_commit cs w).0 ≡ answer ms
      → length ms ≤ n
  unfolding consume_batch
  consume_batch_at_most topic group n auto_commit cs w ms most =
      by_consumer (resolve_consumer k topic group auto_commit cs w)
    where
      by_records :
          (rs : Reply (List (Record B))) (cs' : Consumers) (w' : W)
          → ((records : List (Record B)) → rs ≡ answer records → length records ≤ n)
          → let p : Reply (List (Message B)) × Consumers × W = elim rs [
            | failure e ↦ (failure e, cs', w')
            | answer records ↦ (to_messages k.decode_utf8 records, cs', w')
          ] in
            p.0 ≡ answer ms → length ms ≤ n
      by_records (failure e) cs' w' h q = cc
      by_records (answer records) cs' w' h q =
          omega (arith, length-to_messages k.decode_utf8 records ms q, h records refl)

      by_consumer :
          (found : Reply ℕ × Consumers × W)
          → let p : Reply (List (Message B)) × Consumers × W = elim found.0 [
            | failure e ↦ (failure e, found.1, found.2)
            | answer consumer ↦
                let (rs, w'') = k.consume consumer n found.2 in
                elim rs [
                  | failure e ↦ (failure e, found.1, w'')
                  | answer records ↦ (to_messages k.decode_utf8 records, found.1, w'')
                ]
          ] in
            p.0 ≡ answer ms → length ms ≤ n
      by_consumer (failure e, cs', w') q = cc
      by_consumer (answer consumer, cs', w') q =
          by_records (k.consume consumer n w').0 cs' (k.consume consumer n w').1
            (most consumer n w') q
