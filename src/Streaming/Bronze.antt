-- ===== src/Streaming/Bronze.antt =====
-- streaming/consumers/bronze_consumer.py: the buffer of an entity, one turn of the round-robin loop
-- for it, and the state of its flush. Times are natural numbers of microseconds.
pub mod Flush
pub mod Growth
pub mod Kept
pub mod Turns
pub mod Flushes
pub mod Interleavings
pub mod Progress
pub mod Polls
use modern_data_platform.Prelude.{
  ℕ, ◌+◌, ◌-◌, min, String, String_Eq, Bool, true, false, Option, none, some, List, [], ◌∷◌, ◌++◌,
  ◌&&◌, ◌==◌, length, ltb, leb, if◌then◌else◌, text_append,
}
use modern_data_platform.Prelude.Int.{ℤ}
use modern_data_platform.Prelude.Dict.{Dict, put}
use modern_data_platform.Prelude.Value.{Value}
use modern_data_platform.Processing.Outcome.{Exn, Reply, answer, failure}
use modern_data_platform.Streaming.Debezium.{Row, DebeziumChange}

abbrev pub max_batch_size : ℕ
max_batch_size = 100

abbrev max_batch_age : ℕ
max_batch_age = 300000000

abbrev idle_after_empty_polls : ℕ
idle_after_empty_polls = 3

abbrev idle_poll_every_n_rounds : ℕ
idle_poll_every_n_rounds = 5

abbrev pub consumer_group_id : String
consumer_group_id = "bronze-consumer"

-- _MAX_POLL_BATCH_SIZE_OVERRIDES.get(entity, _MAX_POLL_BATCH_SIZE)
abbrev pub max_poll_batch_size : String → ℕ
max_poll_batch_size entity =
    if entity == "products" then 100 else if entity == "inventories" then 100 else 25

abbrev pub topic_for : String → String
topic_for entity = text_append "marketplace.marketplace." entity

-- What the consumer calls: the MessagingProvider, the decoder of messages, Delta Lake and the
-- monotonic clock. `write_rows` builds the Arrow table from the coerced rows and appends it to the
-- Bronze table of the entity.
pub record Backend (W B : Type 0) : Type 0 where
  pub monotonic : W → ℕ × W
  pub decode_debezium_message : B → Reply DebeziumChange
  pub consume_batch : String → String → ℕ → W → Reply (List B) × W
  pub commit : String → String → W → Reply (Unit {0}) × W
  pub recover_from_lost_assignment : String → String → Exn → W → Reply Bool × W
  pub consumer_lag : String → String → W → Reply (Option ℕ) × W
  pub write_rows : String → List Row → W → Reply (Unit {0}) × W

-- `_EntityBuffer`
pub record EntityBuffer : Type 0 where
  pub records : List Row
  pub opened_at : Option ℕ
  pub consecutive_empty_polls : ℕ
  pub rounds_since_last_poll : ℕ
  pub max_size : ℕ

-- _EntityBuffer(max_batch_size=...), without overrides
abbrev pub new_buffer : EntityBuffer
new_buffer = record {
  records = [];
  opened_at = none;
  consecutive_empty_polls = 0;
  rounds_since_last_poll = 0;
  max_size = max_batch_size;
}

abbrev is_old : ℕ → Option ℕ → Bool
is_old now none = false
is_old now (some opened) = leb max_batch_age (now - opened)

unfoldable pub is_due : EntityBuffer → ℕ → Bool
is_due b now =
    if leb (length b.records) 0
    then false
    else if leb b.max_size (length b.records)
    then true
    else is_old now b.opened_at

unfoldable pub clear : EntityBuffer → EntityBuffer
clear b = record b { records = []; opened_at = none }

-- `idle and ...`: the poll of this round is left out
unfoldable pub skip_poll : EntityBuffer → Bool
skip_poll b =
    leb idle_after_empty_polls b.consecutive_empty_polls
    && ltb b.rounds_since_last_poll (idle_poll_every_n_rounds - 1)

-- A negative difference is no room either, so the truncated one takes the same branch.
unfoldable pub remaining : String → EntityBuffer → ℕ
remaining entity b = min (b.max_size - length b.records) (max_poll_batch_size entity)

-- Where the flush of an entity stands. `writing` is submitted and not yet written; `ended` and
-- `crashed` are done, the latter with an exception that `future.result()` raises.
pub data Phase : Type 0 where
  writing committing measuring clearing ended : Phase
  recovering crashed : Exn → Phase

-- What the loop keeps for an entity: its buffer and its entry of `in_flight`. The other fields are
-- a record of what happened that the program does not keep: every row that went into the buffer,
-- the batches that were taken out of it, and the batches whose write returned.
pub record Slot : Type 0 where
  pub buffer : EntityBuffer
  pub flight : Option Phase
  pub accepted : List Row
  pub settled : List (List Row)
  pub written : List (List Row)

abbrev pub new_slot : Slot
new_slot = record { buffer = new_buffer; flight = none; accepted = []; settled = []; written = [] }

-- record["_cdc_ts_ms"] = change.source_ts_ms
abbrev stamped : DebeziumChange → Row → Row
stamped change row = put "_cdc_ts_ms" change.source_ts_ms row

unfoldable pub clear_slot : Slot → Slot
unfolding clear
clear_slot s = record s { buffer = clear s.buffer; settled = s.settled ++ s.buffer.records ∷ [] }

module _ {W B : Type 0} (x : Backend W B) where
  -- if self.opened_at is None: the clock is read
  abbrev pub open_at : Option ℕ → W → ℕ × W
  open_at none w = x.monotonic w
  open_at (some opened) w = (opened, w)

  -- `_EntityBuffer.add`
  unfoldable pub add : Row → Slot → W → Slot × W
  add row s w =
      let (opened, w') = open_at s.buffer.opened_at w in
      (
        record s {
          buffer = record s.buffer {
            opened_at = some opened;
            records = s.buffer.records ++ row ∷ [];
          };
          accepted = s.accepted ++ row ∷ [];
        },
        w',
      )

  -- if change.record is not None
  abbrev pub add_change : DebeziumChange → Option Row → Slot → W → Slot × W
  add_change change none s w = (s, w)
  add_change change (some row) s w = add (stamped change row) s w

  -- `_buffer_message`: a malformed message is skipped
  unfoldable pub buffer_message : B → Slot → W → Slot × W
  buffer_message value s w = elim (x.decode_debezium_message value) [
    | failure e ↦ (s, w)
    | answer change ↦ add_change change change.record_of s w
  ]

  -- for message in messages
  unfoldable pub buffer_messages : List B → Slot → W → Slot × W
  unfolding buffer_message
  buffer_messages [] s w = (s, w)
  buffer_messages (value ∷ values) s w =
      let (s', w') = buffer_message value s w in buffer_messages values s' w'

  -- after a poll that returned: if messages
  unfoldable pub polled : List B → Slot → W → Slot × W
  unfolding buffer_messages
  polled [] s w = (
    record s {
      buffer = record s.buffer { consecutive_empty_polls = s.buffer.consecutive_empty_polls + 1 };
    },
    w,
  )
  polled (value ∷ values) s w =
      buffer_messages (value ∷ values)
        (record s { buffer = record s.buffer { consecutive_empty_polls = 0 } }) w

  -- the call of `consume_batch` and what follows it; an exception leaves the loop
  unfoldable pub consume : String → ℕ → Slot → W → Reply Slot × W
  unfolding polled
  consume entity n s w =
      let (r, w') = x.consume_batch (topic_for entity) consumer_group_id n w in
      elim r [
        | failure e ↦ (failure e, w')
        | answer messages ↦ let (s', w'') = polled messages s w' in (answer s', w'')
      ]

  -- from `idle` to the end of the poll
  unfoldable pub poll : String → Slot → W → Reply Slot × W
  unfolding skip_poll remaining consume
  poll entity s w =
      let b = s.buffer in
      let waiting : Slot = record s {
        buffer = record b { rounds_since_last_poll = b.rounds_since_last_poll + 1 };
      } in
      let ready : Slot = record s { buffer = record b { rounds_since_last_poll = 0 } } in
      let n = remaining entity b in
      if skip_poll b
      then (answer waiting, w)
      else if ltb 0 n
      then consume entity n ready w
      else (answer ready, w)

  -- if buffer.is_due(time.monotonic())
  unfoldable pub submit : Slot → W → Slot × W
  unfolding is_due
  submit s w =
      let (now, w') = x.monotonic w in
      (if is_due s.buffer now then record s { flight = some writing } else s, w')

  unfoldable pub poll_and_submit : String → Slot → W → Reply Slot × W
  unfolding poll submit
  poll_and_submit entity s w =
      let (r, w') = poll entity s w in
      elim r [
        | failure e ↦ (failure e, w')
        | answer s' ↦ let (s'', w'') = submit s' w' in (answer s'', w'')
      ]

  abbrev pub turn_at : String → Option Phase → Slot → W → Reply Slot × W
  turn_at entity none s w = poll_and_submit entity s w
  turn_at entity (some ended) s w = poll_and_submit entity (record s { flight = none }) w
  turn_at entity (some (crashed e)) s w = (failure e, w)
  turn_at entity (some _) s w = (answer s, w)

  -- One pass of `for entity in entities`: a running flush defers the turn, the exception of one
  -- that crashed leaves the loop.
  unfoldable pub turn : String → Slot → W → Reply Slot × W
  turn entity s w = turn_at entity s.flight s w
