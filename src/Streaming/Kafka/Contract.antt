-- ===== src/Streaming/Kafka/Contract.antt =====
-- The Kafka provider as the MessagingProvider of the Bronze consumer. The world of the consumer is
-- then the provider's consumers with the world of the client.
use modern_data_platform.Prelude.{
  ℕ, ◌≤◌, String, false, List, [], ◌∷◌, ◌≡◌, refl, length, map, arith,
}
use modern_data_platform.Processing.Outcome.{Exn, Reply, answer, failure}
use modern_data_platform.Streaming.Debezium.{Row, DebeziumChange}
use modern_data_platform.Streaming.Bronze.{Backend}
use modern_data_platform.Streaming.Bronze.Kept.{Documented}
use modern_data_platform.Streaming.Kafka.{
  Message, Client, Consumers, consume_batch, commit, recover_from_lost_assignment, consumer_lag,
  is_lost,
}
use modern_data_platform.Streaming.Kafka.Laws.{
  ConsumesAtMost, consume_batch_at_most, recover_drops_one,
}

-- message.value, for each message
abbrev values : {B : Type 0} → List (Message B) → List B
values ms = map (λ m. m.value) ms

abbrev map_reply : {A B : Type 0} → (A → B) → Reply A → Reply B
map_reply f (answer a) = answer (f a)
map_reply f (failure e) = failure e

module _ {W B : Type 0} (k : Client W B) (monotonic : W → ℕ × W) (decode : B → Reply DebeziumChange)
    (write_rows : String → List Row → W → Reply (Unit {0}) × W) where
  unfoldable pub kafka_backend : Backend (Consumers × W) B
  unfolding consume_batch commit recover_from_lost_assignment consumer_lag
  kafka_backend = record {
    monotonic = λ (cs, w). let (t, w') = monotonic w in (t, (cs, w'));
    decode_debezium_message = decode;
    consume_batch = λ topic group n (cs, w).
        let (r, cs', w') = consume_batch k topic group n false cs w in
        (map_reply values r, (cs', w'));
    commit = λ topic group (cs, w). let (r, w') = commit k topic group cs w in (r, (cs, w'));
    recover_from_lost_assignment = λ topic group e (cs, w).
        let (r, cs', w') = recover_from_lost_assignment k topic group e cs w in (r, (cs', w'));
    consumer_lag =
        λ topic group (cs, w). let (r, w') = consumer_lag k topic group cs w in (r, (cs, w'));
    write_rows = λ entity rows (cs, w). let (r, w') = write_rows entity rows w in (r, (cs, w'));
  }

  -- No error of a write is one that means a lost consumer.
  abbrev pub WritesNotLost : Type 0
  WritesNotLost =
      (entity : String) (rows : List Row) (w : W) (e : Exn)
      → (write_rows entity rows w).0 ≡ failure e
      → is_lost k e ≡ false

  length-values : (ms : List (Message B)) → length (values ms) ≡ length ms
  length-values [] = refl
  length-values (m ∷ ms) = omega (arith, length-values ms)

  mapped_at_most :
      (n : ℕ) (r : Reply (List (Message B))) (messages : List B)
      → ((ms : List (Message B)) → r ≡ answer ms → length ms ≤ n)
      → map_reply values r ≡ answer messages
      → length messages ≤ n
  mapped_at_most n (failure e) messages h q = cc
  mapped_at_most n (answer ms) messages h q = ground (arith, h ms refl, length-values ms)

  -- The Kafka provider keeps the contract that the Bronze consumer relies on, if the client hands out
  -- no more records than it is asked for and no error of a write means a lost consumer.
  pub kafka_backend-Documented :
      ConsumesAtMost k → WritesNotLost → Documented kafka_backend (is_lost k)
  unfolding kafka_backend
  kafka_backend-Documented most not_lost = record {
    polls_at_most = λ topic group n (cs, w) messages q.
        mapped_at_most n (consume_batch k topic group n false cs w).0 messages
          (λ ms e. consume_batch_at_most k topic group n false cs w ms most e) q;
    rejoins_if_lost = λ topic group e (cs, w) q.
        let answered = (recover_drops_one k topic group e cs w (topic, group)).0 in
        cc (answered, q);
    write_not_lost = λ entity rows (cs, w) e q. not_lost entity rows w e q;
  }
