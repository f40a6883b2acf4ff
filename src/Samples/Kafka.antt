-- ===== src/Samples/Kafka.antt =====
-- A client with one message, whose commits hang, and the theorems of the Kafka provider on it.
use mathlib.Core.Path.{subst}
use modern_data_platform.Prelude.{
  ℕ, zero, suc, ◌+◌, ◌≤◌, String, String_Eq, Bool, false, none, some, List, [], ◌∷◌, ◌≡◌, ◌==◌,
  ◌&&◌, pair_Eq, refl, length, arith, if◌then◌else◌,
}
use modern_data_platform.Prelude.Int.{pos}
use modern_data_platform.Prelude.Dict.{get}
use modern_data_platform.Processing.Outcome.{Exn, Reply, answer, failure, runtime_error}
use modern_data_platform.Streaming.Debezium.{Row, DebeziumChange}
use modern_data_platform.Streaming.Bronze.Kept.{Documented}
use modern_data_platform.Streaming.Kafka.{
  Record, Message, Client, Consumers, CommitEnd, consume_batch, to_message,
  recover_from_lost_assignment, is_lost,
}
use modern_data_platform.Streaming.Kafka.Laws.{
  ConsumesAtMost, consume_batch_at_most, recover_drops_one,
}
use modern_data_platform.Streaming.Kafka.Contract.{
  kafka_backend, kafka_backend-Documented, WritesNotLost,
}

abbrev received : Record ℕ
received = record {
  error = none;
  topic = some "t";
  value = some 7;
  key = some 3;
  partition = some 0;
  offset = some 4;
  headers = ("trace", some 1) ∷ ("note", none) ∷ ("trace", some 2) ∷ [];
}

abbrev one_record : ℕ → List (Record ℕ)
one_record zero = []
one_record (suc n) = received ∷ []

abbrev hanging : Client ℕ ℕ
hanging = record {
  create_consumer = λ group auto_commit w. (answer w, w + 1);
  subscribe = λ consumer topic w. (answer tt, w);
  consume = λ consumer n w. (answer (one_record n), w + 1);
  commit = λ consumer w. (CommitEnd.stuck, w + 1);
  poll = λ consumer w. (answer (some received), w + 1);
  produce = λ topic value key headers w. (answer tt, w + 1);
  flush = λ w. (answer tt, w);
  close = λ consumer w. (failure (runtime_error "still committing"), w + 1);
  assignment = λ consumer w. (answer [], w);
  position = λ consumer partitions w. (answer partitions, w);
  get_watermark_offsets = λ consumer partition w. (answer (pos 0, pos 9), w);
  is_assignment_lost = λ e. false;
  decode_utf8 = λ b. answer "k";
}

hanging-ConsumesAtMost : ConsumesAtMost hanging
hanging-ConsumesAtMost consumer n w rs e = go n rs e
  where
    go : (n : ℕ) (rs : List (Record ℕ)) → answer (one_record n) ≡ answer rs → length rs ≤ n
    go zero rs e = ground arith
    go (suc n) rs e = ground arith

abbrev hung : Exn
hung = record { type_name = "CommitTimeoutError"; message = "" }

abbrev two_consumers : Consumers
two_consumers = (("t", "g"), 0) ∷ (("u", "g"), 1) ∷ []

recover_drops_one_example :
    let (r, cs', w') = recover_from_lost_assignment hanging "t" "g" hung two_consumers 2 in
    (r ≡ answer (is_lost hanging hung))
    × (get ("u", "g") cs' ≡ (
        if is_lost hanging hung && ◌==◌ {A = String × String} ("t", "g") ("u", "g")
        then none
        else get ("u", "g") two_consumers))
recover_drops_one_example = recover_drops_one hanging "t" "g" hung two_consumers 2 ("u", "g")

abbrev message : Message ℕ
message = record {
  topic = "t";
  key = some "k";
  value = 7;
  partition = some 0;
  offset = some 4;
  headers = ("trace", 2) ∷ [];
}

consume_batch_at_most_example : length {A = Message ℕ} (message ∷ []) ≤ 25
unfolding consume_batch to_message
consume_batch_at_most_example =
    consume_batch_at_most hanging "t" "g" 25 false two_consumers 2 (message ∷ [])
      hanging-ConsumesAtMost refl

abbrev decode : ℕ → Reply DebeziumChange
decode b = failure (runtime_error "malformed")

abbrev write_rows : String → List Row → ℕ → Reply (Unit {0}) × ℕ
write_rows entity rows w = (failure (runtime_error "unreachable"), w)

write_rows-WritesNotLost : WritesNotLost hanging (λ w. (w, w)) decode write_rows
write_rows-WritesNotLost entity rows w e h = subst (λ r. lost_in r ≡ false) h refl
  where
    lost_in : Reply (Unit {0}) → Bool
    lost_in (answer u) = false
    lost_in (failure e) = is_lost hanging e

kafka_backend-Documented_example :
    Documented (kafka_backend hanging (λ w. (w, w)) decode write_rows) (is_lost hanging)
kafka_backend-Documented_example =
    kafka_backend-Documented hanging (λ w. (w, w)) decode write_rows hanging-ConsumesAtMost
      write_rows-WritesNotLost
