-- ===== src/Samples/Bronze.antt =====
-- A backend whose commits lose their assignment, and the theorems of the Bronze consumer on it. Its
-- world is the number of the calls that were made, which its clock reads as 1000 seconds each.
use modern_data_platform.Prelude.{
  ℕ, zero, suc, ◌+◌, ◌*◌, ◌≤◌, ◌<◌, String_Eq, Bool, true, some, List, [], ◌∷◌, ◌++◌, ◌≡◌, ◌⊎◌,
  refl, length, concat, Sub, ◌==◌, arith,
}
use modern_data_platform.Prelude.Int.{pos}
use modern_data_platform.Prelude.Value.{Value}
use modern_data_platform.Processing.Outcome.{Exn, answer, failure}
use modern_data_platform.Streaming.Bronze
use modern_data_platform.Streaming.Debezium.{Row}
use modern_data_platform.Streaming.Bronze.{
  Backend, EntityBuffer, Slot, Phase, new_slot, new_buffer, max_batch_size, turn, poll_and_submit,
  is_due, remaining, add,
}
use modern_data_platform.Streaming.Bronze.Flush.{flush_step}
use modern_data_platform.Streaming.Bronze.Kept.{Documented}
use modern_data_platform.Streaming.Bronze.Interleavings.{
  System, Reachable, begins, continues, turns, works, put_slot, no_row_lost, commit_after_write,
}
use modern_data_platform.Streaming.Bronze.Progress.{flush_steps, Flushed, flush_ends}
use modern_data_platform.Streaming.Bronze.Polls.{run_turns, idle_polls, remaining-is_due}

abbrev assignment_lost : Exn
assignment_lost = record { type_name = "KafkaException"; message = "_ASSIGNMENT_LOST" }

abbrev is_lost : Exn → Bool
is_lost e = e.type_name == "KafkaException"

abbrev one_message : ℕ → List ℕ
one_message zero = []
one_message (suc n) = 7 ∷ []

abbrev losing : Backend ℕ ℕ
losing = record {
  monotonic = λ w. (w * 1000000000, w + 1);
  decode_debezium_message = λ b. answer (record {
    entity = Value.text "orders";
    op = Value.text "c";
    record_of = some (("id", Value.int (pos b)) ∷ []);
    source_ts_ms = Value.int (pos 5);
  });
  consume_batch = λ topic group n w. (answer (one_message n), w + 1);
  commit = λ topic group w. (failure assignment_lost, w + 1);
  recover_from_lost_assignment = λ topic group e w. (answer (is_lost e), w + 1);
  consumer_lag = λ topic group w. (answer (some 0), w + 1);
  write_rows = λ entity rows w. (answer tt, w + 1);
}

one_message_most :
    (n : ℕ) (messages : List ℕ) → answer (one_message n) ≡ answer messages → length messages ≤ n
one_message_most zero messages e = ground arith
one_message_most (suc n) messages e = ground arith

losing-Documented : Documented losing is_lost
losing-Documented = record {
  polls_at_most = λ topic group n w messages e. one_message_most n messages e;
  rejoins_if_lost = λ topic group e w h. ground (arith, h);
  write_not_lost = λ entity rows w e h. cc;
}

abbrev row : Row
row = ("id", Value.int (pos 7)) ∷ ("_cdc_ts_ms", Value.int (pos 5)) ∷ []

-- the entity has one row, two calls after it was opened, and its flush is submitted
abbrev submitted : Slot
submitted = record new_slot {
  buffer = record new_buffer { records = row ∷ []; opened_at = some 1000000000 };
  flight = some Phase.writing;
  accepted = row ∷ [];
}

abbrev start : System ℕ
start = record { slots = λ entity. new_slot; world = 0 }

abbrev after_turn : System ℕ
after_turn = record { slots = put_slot "orders" submitted start.slots; world = 3 }

abbrev written : Slot
written = record submitted { flight = some Phase.committing; written = (row ∷ []) ∷ [] }

abbrev after_write : System ℕ
after_write = record { slots = put_slot "orders" written after_turn.slots; world = 4 }

after_turn-Reachable : Reachable losing after_turn
unfolding turn poll_and_submit add
after_turn-Reachable = continues start after_turn (begins 0) (turns "orders" start submitted 3 refl)

after_write-Reachable : Reachable losing after_write
unfolding flush_step put_slot
after_write-Reachable =
    continues after_turn after_write after_turn-Reachable (works "orders" after_turn written 4 refl)

no_row_lost_example :
    let s = after_write.slots "orders" in
    (s.accepted ≡ concat s.settled ++ s.buffer.records)
    × Sub s.settled s.written
    × (length s.buffer.records ≤ max_batch_size)
no_row_lost_example =
    no_row_lost losing is_lost losing-Documented after_write "orders" after_write-Reachable

commit_after_write_example :
    let s = after_write.slots "orders" in
    (batches : List (List Row)) × (s.accepted ≡ concat batches) × Sub batches s.written
unfolding put_slot
commit_after_write_example =
    commit_after_write losing is_lost losing-Documented after_write "orders" after_write-Reachable
      refl

flush_ends_example :
    Flushed losing "orders" submitted 3 (flush_steps losing 4 "orders" submitted 3).0
flush_ends_example = flush_ends losing "orders" submitted 3 refl

remaining-is_due_example :
    ((0 < remaining "products" submitted.buffer) ⊎ (is_due submitted.buffer 9 ≡ true))
    × (0 < remaining "products" (Bronze.clear submitted.buffer))
remaining-is_due_example = remaining-is_due "products" submitted.buffer 9 (omega arith)

-- the lost assignment empties the buffer
lost_run : (flush_steps losing 4 "orders" submitted 3).0.buffer.records ≡ []
unfolding flush_step
lost_run = refl

-- two rounds after an idle entity was polled
abbrev idle : Slot
idle = record new_slot {
  buffer = record new_buffer { consecutive_empty_polls = 3; rounds_since_last_poll = 2 };
}

abbrev unreachable : Exn
unreachable = record { type_name = "KafkaException"; message = "_TRANSPORT" }

abbrev cut_off : Backend ℕ ℕ
cut_off = record losing { consume_batch = λ topic group n w. (failure unreachable, w + 1) }

idle_polls_example : (run_turns cut_off "orders" 5 idle 0).0 ≡ failure unreachable
unfolding turn remaining poll_and_submit
idle_polls_example =
    idle_polls cut_off "orders" unreachable (λ topic group n w. refl) idle 0
      (tt, omega arith, (tt, omega arith, (tt, omega arith, tt)))
