-- ===== src/Streaming/Kafka.antt =====
-- integrations/kafka/messaging/kafka_messaging_provider.py and messaging/models.py. The Kafka client
-- is a parameter: a consumer object is a number, and each of its methods is a field of `Client`.
pub mod Laws
pub mod Contract
use modern_data_platform.Prelude.{
  text_append, ℕ, ◌+◌, String, Bool, true, false, Option, none, some, List, [], ◌∷◌, ◌||◌, ◌==◌,
  String_Eq, pair_Eq, if◌then◌else◌,
}
use modern_data_platform.Prelude.Int.{ℤ, pos, negsuc, max_0, ◌-ℤ◌}
use modern_data_platform.Prelude.Dict.{Dict, get, put, remove}
use modern_data_platform.Processing.Outcome.{Exn, Reply, answer, failure, runtime_error}
use modern_data_platform.Processing.Outcome.Replies.{◌>>=◌}

-- `confluent_kafka.Message`. A header whose value is no bytes has none here.
pub record Record (B : Type 0) : Type 0 where
  pub error : Option String
  pub topic : Option String
  pub value : Option B
  pub key : Option B
  pub partition : Option ℕ
  pub offset : Option ℕ
  pub headers : List (String × Option B)

-- messaging/models.py
pub record Message (B : Type 0) : Type 0 where
  pub topic : String
  pub key : Option String
  pub value : B
  pub partition : Option ℕ
  pub offset : Option ℕ
  pub headers : Dict String B

pub record TopicPartition : Type 0 where
  pub topic : String
  pub partition : ℕ
  pub offset : ℤ

-- How the thread that commits stands when the wait for it is over.
pub data CommitEnd : Type 0 where
  finished stuck : CommitEnd
  failed : Exn → CommitEnd

-- `is_assignment_lost` tells a KafkaException whose code is _ASSIGNMENT_LOST; `decode_utf8` is
-- `bytes.decode("utf-8")`, which may raise.
pub record Client (W B : Type 0) : Type 0 where
  pub create_consumer : String → Bool → W → Reply ℕ × W
  pub subscribe : ℕ → String → W → Reply (Unit {0}) × W
  pub consume : ℕ → ℕ → W → Reply (List (Record B)) × W
  pub commit : ℕ → W → CommitEnd × W
  pub poll : ℕ → W → Reply (Option (Record B)) × W
  pub produce : String → B → Option String → List (String × B) → W → Reply (Unit {0}) × W
  pub flush : W → Reply (Unit {0}) × W
  pub close : ℕ → W → Reply (Unit {0}) × W
  pub assignment : ℕ → W → Reply (List TopicPartition) × W
  pub position : ℕ → List TopicPartition → W → Reply (List TopicPartition) × W
  pub get_watermark_offsets : ℕ → TopicPartition → W → Reply (ℤ × ℤ) × W
  pub is_assignment_lost : Exn → Bool
  pub decode_utf8 : B → Reply String

-- `KafkaMessagingProvider._consumers`
abbrev pub Consumers : Type 0
Consumers = Dict (String × String) ℕ

-- ({topic!r}, {group_id!r}), for texts that `repr` only puts in quotes
abbrev pair_text : String → String → String
pair_text topic group =
    text_append "('" (text_append topic (text_append "', '" (text_append group "')")))

abbrev commit_timeout_error : String → String → Exn
commit_timeout_error topic group = record {
  type_name = "CommitTimeoutError";
  message =
      text_append "commit() for "
        (text_append (pair_text topic group) " did not return within 60s.");
}

abbrev unresolved_error : String → String → Exn
unresolved_error topic group = runtime_error (
    text_append "commit() called for " (
      text_append (pair_text topic group)
        " before any consume() call resolved a consumer for that pair."))

-- {key: value for ... if isinstance(value, bytes)}
abbrev header_dict : {B : Type 0} → List (String × Option B) → Dict String B → Dict String B
header_dict [] d = d
header_dict ((key, none) ∷ headers) d = header_dict headers d
header_dict ((key, some value) ∷ headers) d = header_dict headers (put key value d)

abbrev pub cons_reply : {A : Type 0} → Reply A → Reply (List A) → Reply (List A)
cons_reply (failure e) rest = failure e
cons_reply (answer a) (failure e) = failure e
cons_reply (answer a) (answer rest) = answer (a ∷ rest)

module _ {B : Type 0} (decode_utf8 : B → Reply String) where
  -- key.decode("utf-8") if key is not None else None
  abbrev decode_key : Option B → Reply (Option String)
  decode_key none = answer none
  decode_key (some key) = decode_utf8 key >>= λ text. answer (some text)

  -- `_to_message`
  unfoldable pub to_message : Record B → Option String → Option B → Reply (Message B)
  to_message r none value =
      failure (runtime_error "Kafka returned a consumed record without a topic.")
  to_message r (some topic) none =
      failure (runtime_error "Kafka returned a consumed record without a value.")
  to_message r (some topic) (some value) = decode_key r.key >>= λ key. answer (record {
    topic = topic;
    key = key;
    value = value;
    partition = r.partition;
    offset = r.offset;
    headers = header_dict r.headers [];
  })

  -- if record.error()
  abbrev pub checked : Record B → Option String → Reply (Message B)
  checked r none = to_message r r.topic r.value
  checked r (some text) = failure (runtime_error text)

  -- for record in records: the first bad record raises
  unfoldable pub to_messages : List (Record B) → Reply (List (Message B))
  unfolding to_message
  to_messages [] = answer []
  to_messages (r ∷ rs) = cons_reply (checked r r.error) (to_messages rs)

module _ {W B : Type 0} (k : Client W B) where
  -- `_resolve_consumer`
  unfoldable pub resolve_consumer : String → String → Bool → Consumers → W → Reply ℕ × Consumers × W
  resolve_consumer topic group auto_commit cs w = elim (get (topic, group) cs) [
    | some consumer ↦ (answer consumer, cs, w)
    | none ↦
        let (r, w') = k.create_consumer group auto_commit w in
        elim r [
          | failure e ↦ (failure e, cs, w')
          | answer consumer ↦
              let (r', w'') = k.subscribe consumer topic w' in
              elim r' [
                | failure e ↦ (failure e, cs, w'')
                | answer _ ↦ (answer consumer, put (topic, group) consumer cs, w'')
              ]
        ]
  ]

  -- `produce`
  unfoldable pub produce : String → B → Option String → List (String × B) → W → Reply (Unit {0}) × W
  produce topic value key headers w =
      let (r, w') = k.produce topic value key headers w in
      elim r [ failure e ↦ (failure e, w') | answer _ ↦ k.flush w' ]

  -- what `consume` makes of the record that it polled
  abbrev pub polled_reply : Reply (Option (Record B)) → Reply (Option (Message B))
  polled_reply (failure e) = failure e
  polled_reply (answer none) = answer none
  polled_reply (answer (some r)) = elim (checked k.decode_utf8 r r.error) [
    | failure e ↦ failure e
    | answer m ↦ answer (some m)
  ]

  -- `consume`
  unfoldable pub consume :
      String → String → Bool → Consumers → W → Reply (Option (Message B)) × Consumers × W
  unfolding resolve_consumer to_message
  consume topic group auto_commit cs w =
      let (r, cs', w') = resolve_consumer topic group auto_commit cs w in
      elim r [
        | failure e ↦ (failure e, cs', w')
        | answer consumer ↦ let (o, w'') = k.poll consumer w' in (polled_reply o, cs', w'')
      ]

  -- `consume_batch`
  unfoldable pub consume_batch :
      String → String → ℕ → Bool → Consumers → W → Reply (List (Message B)) × Consumers × W
  unfolding resolve_consumer to_messages
  consume_batch topic group max_messages auto_commit cs w =
      let (r, cs', w') = resolve_consumer topic group auto_commit cs w in
      elim r [
        | failure e ↦ (failure e, cs', w')
        | answer consumer ↦
            let (rs, w'') = k.consume consumer max_messages w' in
            elim rs [
              | failure e ↦ (failure e, cs', w'')
              | answer records ↦ (to_messages k.decode_utf8 records, cs', w'')
            ]
      ]

  abbrev commit_reply : String → String → CommitEnd → Reply (Unit {0})
  commit_reply topic group finished = answer tt
  commit_reply topic group stuck = failure (commit_timeout_error topic group)
  commit_reply topic group (failed e) = failure e

  -- `commit`
  unfoldable pub commit : String → String → Consumers → W → Reply (Unit {0}) × W
  commit topic group cs w = elim (get (topic, group) cs) [
    | none ↦ (failure (unresolved_error topic group), w)
    | some consumer ↦ let (end, w') = k.commit consumer w in (commit_reply topic group end, w')
  ]

  -- is_assignment_lost or isinstance(error, CommitTimeoutError)
  abbrev pub is_lost : Exn → Bool
  is_lost e = k.is_assignment_lost e || e.type_name == "CommitTimeoutError"

  abbrev pub close_if : Option ℕ → W → W
  close_if none w = w
  close_if (some consumer) w = (k.close consumer w).1

  -- `recover_from_lost_assignment`: what `close` raises is ignored
  unfoldable pub recover_from_lost_assignment :
      String → String → Exn → Consumers → W → Reply Bool × Consumers × W
  recover_from_lost_assignment topic group error cs w =
      if is_lost error
      then (answer true, remove (topic, group) cs, close_if (get (topic, group) cs) w)
      else (answer false, cs, w)

  -- max(high - current, 0)
  abbrev pub partition_lag : ℤ → ℤ × ℤ → ℕ
  partition_lag (pos n) (low, high) = max_0 (high -ℤ pos n)
  partition_lag (negsuc n) (low, high) = max_0 (high -ℤ low)

  -- for partition in positions
  unfoldable pub total_lag : ℕ → List TopicPartition → ℕ → W → Reply ℕ × W
  total_lag consumer [] lag w = (answer lag, w)
  total_lag consumer (p ∷ ps) lag w =
      let (r, w') = k.get_watermark_offsets consumer p w in
      elim r [
        | failure e ↦ (failure e, w')
        | answer marks ↦ total_lag consumer ps (lag + partition_lag p.offset marks) w'
      ]

  abbrev some_reply : Reply ℕ → Reply (Option ℕ)
  some_reply (answer n) = answer (some n)
  some_reply (failure e) = failure e

  abbrev lag_of : ℕ → List TopicPartition → W → Reply (Option ℕ) × W
  lag_of consumer [] w = (answer (some 0), w)
  lag_of consumer (p ∷ ps) w =
      let (r, w') = k.position consumer (p ∷ ps) w in
      elim r [
        | failure e ↦ (failure e, w')
        | answer positions ↦
            let (lag, w'') = total_lag consumer positions 0 w' in (some_reply lag, w'')
      ]

  -- `consumer_lag`
  unfoldable pub consumer_lag : String → String → Consumers → W → Reply (Option ℕ) × W
  consumer_lag topic group cs w = elim (get (topic, group) cs) [
    | none ↦ (answer none, w)
    | some consumer ↦
        let (r, w') = k.assignment consumer w in
        elim r [ failure e ↦ (failure e, w') | answer partitions ↦ lag_of consumer partitions w' ]
  ]
