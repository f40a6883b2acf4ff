-- ===== src/Streaming/Debezium.antt =====
-- integrations/kafka/messaging/debezium_envelope.py. `json.loads`, `datetime.fromisoformat` and the
-- reading of a float as days are the fields of `Parsers`. Of an OverflowError the text is the one
-- that adding to a date gives.
pub mod Paths
pub mod Logical
pub mod Typed
pub mod Encoding
pub mod Json
pub mod RoundTrip
use modern_data_platform.Prelude.{
  ℕ, String, String_Eq, Bool, true, false, Option, none, some, List, [], ◌∷◌, ◌==◌, ◌&&◌, leb,
  if◌then◌else◌, text_append,
}
use modern_data_platform.Prelude.Int.{ℤ, pos, negsuc, leb_ℤ}
use modern_data_platform.Prelude.Dict.{Dict, get, put}
use modern_data_platform.Prelude.Value.{Value, Items, Fields}
use modern_data_platform.Processing.Outcome.{Exn, Reply, answer, failure, value_error}
use modern_data_platform.Processing.Outcome.Replies.{◌>>=◌}

-- A row, as `DebeziumChange.record` holds it.
abbrev pub Row : Type 0
Row = Dict String Value

-- The annotations `str` and `int` of the dataclass are not checked by Python.
pub record DebeziumChange : Type 0 where
  pub entity : Value
  pub op : Value
  pub record_of : Option Row
  pub source_ts_ms : Value

pub record Parsers (B : Type 0) : Type 0 where
  pub loads : B → Reply Value
  pub fromisoformat : String → Reply String
  pub float_days : String → Reply ℤ

abbrev pub zoned_timestamp : String
zoned_timestamp = "io.debezium.time.ZonedTimestamp"

abbrev pub connect_date : String
connect_date = "org.apache.kafka.connect.data.Date"

-- type(value).__name__
abbrev type_name_of : Value → String
type_name_of Value.null = "NoneType"
type_name_of (Value.bool b) = "bool"
type_name_of (Value.int n) = "int"
type_name_of (Value.float f) = "float"
type_name_of (Value.text s) = "str"
type_name_of (Value.list vs) = "list"
type_name_of (Value.object fs) = "dict"
type_name_of (Value.timestamp t) = "datetime"
type_name_of (Value.date d) = "date"
type_name_of (Value.decimal t) = "Decimal"

abbrev pub type_error : String → Exn
type_error text = record { type_name = "TypeError"; message = text }

abbrev no_attribute : Value → String → Exn
no_attribute v name = record {
  type_name = "AttributeError";
  message = text_append "'" (
      text_append (type_name_of v)
        (text_append "' object has no attribute '" (text_append name "'")));
}

abbrev key_error : String → Exn
key_error key = record { type_name = "KeyError"; message = text_append "'" (text_append key "'") }

abbrev pub overflow_error : Exn
overflow_error = record { type_name = "OverflowError"; message = "date value out of range" }

abbrev pub entries : Fields → Dict String Value
entries Fields.end = []
entries (Fields.field k v fs) = (k, v) ∷ entries fs

abbrev pub elements : Items → List Value
elements Items.nil = []
elements (Items.cons v vs) = v ∷ elements vs

abbrev or_missing : String → Option Value → Reply Value
or_missing key none = failure (key_error key)
or_missing key (some v) = answer v

abbrev pub or_null : Option Value → Value
or_null none = Value.null
or_null (some v) = v

-- v[key]
unfoldable pub subscript : Value → String → Reply Value
subscript (Value.object fs) key = or_missing key (get key (entries fs))
subscript (Value.list vs) key =
    failure (type_error "list indices must be integers or slices, not str")
subscript (Value.text s) key = failure (type_error "string indices must be integers, not 'str'")
subscript v key =
    failure
      (type_error (text_append "'" (text_append (type_name_of v) "' object is not subscriptable")))

-- v.get(key)
unfoldable pub get_of : Value → String → Reply Value
get_of (Value.object fs) key = answer (or_null (get key (entries fs)))
get_of v key = failure (no_attribute v "get")

-- v.items()
unfoldable pub items_of : Value → Reply (Dict String Value)
items_of (Value.object fs) = answer (entries fs)
items_of v = failure (no_attribute v "items")

abbrev pub keys : Dict String Value → List Value
keys [] = []
keys ((k, v) ∷ d) = Value.text k ∷ keys d

-- for x in v. Of the characters of a text only the first is met, since it has no attribute.
unfoldable pub iterate : Value → Reply (List Value)
iterate (Value.list vs) = answer (elements vs)
iterate (Value.object fs) = answer (keys (entries fs))
iterate (Value.text s) = answer (if s == "" then [] else Value.text s ∷ [])
iterate v =
    failure (type_error (text_append "'" (text_append (type_name_of v) "' object is not iterable")))

-- v == s
abbrev pub is_text : String → Value → Bool
is_text s (Value.text t) = t == s
is_text s _ = false

-- Adding to the dict of logical types. A key that is no text meets no column.
unfoldable pub enter : Value → Value → Dict String Value → Reply (Dict String Value)
enter (Value.text k) v d = answer (put k v d)
enter (Value.list vs) v d = failure (type_error "unhashable type: 'list'")
enter (Value.object fs) v d = failure (type_error "unhashable type: 'dict'")
enter _ v d = answer d

-- {column["field"]: column.get("name") for column in ...}
unfoldable pub column_types : List Value → Dict String Value → Reply (Dict String Value)
unfolding subscript get_of enter
column_types [] d = answer d
column_types (column ∷ columns) d = subscript column "field" >>= λ k.
    get_of column "name" >>= λ v. enter k v d >>= λ d'. column_types columns d'

unfoldable pub struct_columns : Value → Reply (Dict String Value)
unfolding subscript iterate column_types
struct_columns field =
    subscript field "fields" >>= λ v. iterate v >>= λ columns. column_types columns []

-- the loop over schema["fields"]
unfoldable pub find_struct : String → List Value → Reply (Dict String Value)
unfolding get_of struct_columns
find_struct name [] = failure (
    value_error
      (text_append "Debezium envelope schema has no '" (text_append name "' struct field.")))
find_struct name (field ∷ fields) =
    let rest = find_struct name fields in
    get_of field "field" >>= λ f.
    if is_text name f
    then (get_of field "type" >>= λ t. if is_text "struct" t then struct_columns field else rest)
    else rest

-- `_logical_types_for`
unfoldable pub logical_types_for : Value → String → Reply (Dict String Value)
unfolding subscript iterate find_struct
logical_types_for schema name =
    subscript schema "fields" >>= λ v. iterate v >>= λ fields. find_struct name fields

-- date.min and date.max, in days from 1970-01-01
abbrev pub first_day : ℤ
first_day = negsuc 719161

abbrev pub last_day : ℤ
last_day = pos 2932896

-- _EPOCH_DATE + timedelta(days=n)
unfoldable pub date_of_days : ℤ → Reply Value
date_of_days n =
    if leb_ℤ first_day n && leb_ℤ n last_day then answer (Value.date n) else failure overflow_error

-- after or before, with the name of its field; none if neither carries data
abbrev pub raw_record : Value → Value → Option (Value × String)
raw_record Value.null Value.null = none
raw_record Value.null before = some (before, "before")
raw_record after before = some (after, "after")

module _ {B : Type 0} (x : Parsers B) where
  unfoldable pub to_date : Value → Reply Value
  unfolding date_of_days
  to_date (Value.int n) = date_of_days n
  to_date (Value.bool b) = date_of_days (if b then pos 1 else pos 0)
  to_date (Value.float f) = x.float_days f >>= date_of_days
  to_date v =
      failure (
        type_error (text_append "unsupported type for timedelta days component: " (type_name_of v)))

  unfoldable pub to_timestamp : Value → Reply Value
  to_timestamp (Value.text s) = x.fromisoformat s >>= λ t. answer (Value.timestamp t)
  to_timestamp v = failure (type_error "fromisoformat: argument must be str")

  abbrev pub decode_present : Value → Value → Reply Value
  decode_present v logical_type =
      if is_text zoned_timestamp logical_type
      then to_timestamp v
      else if is_text connect_date logical_type
      then to_date v
      else answer v

  -- `_decode_value`
  unfoldable pub decode_value : Value → Value → Reply Value
  unfolding to_date to_timestamp
  decode_value Value.null logical_type = answer Value.null
  decode_value v logical_type = decode_present v logical_type

  -- the columns of the record; the keys of a JSON object are unique
  unfoldable pub decode_columns : Dict String Value → Dict String Value → Reply Row
  unfolding decode_value
  decode_columns logical_types [] = answer []
  decode_columns logical_types ((column, v) ∷ columns) =
      decode_value v (or_null (get column logical_types)) >>= λ v'.
      decode_columns logical_types columns >>= λ row. answer ((column, v') ∷ row)

  unfoldable pub decode_record :
      Value → Value → Value → Value → Option (Value × String) → Reply DebeziumChange
  unfolding subscript items_of logical_types_for decode_columns
  decode_record payload schema op entity none =
      answer (record { entity = entity; op = op; record_of = none; source_ts_ms = Value.null })
  decode_record payload schema op entity (some (raw, name)) =
      logical_types_for schema name >>= λ logical_types. items_of raw >>= λ columns.
      decode_columns logical_types columns >>= λ row. subscript payload "source" >>= λ source.
      subscript source "ts_ms" >>= λ ts.
      answer (record { entity = entity; op = op; record_of = some row; source_ts_ms = ts })

  unfoldable pub decode_envelope : Value → Reply DebeziumChange
  unfolding subscript get_of decode_record
  decode_envelope envelope = subscript envelope "payload" >>= λ payload.
      subscript envelope "schema" >>= λ schema. subscript payload "op" >>= λ op.
      subscript payload "source" >>= λ source. subscript source "table" >>= λ entity.
      get_of payload "after" >>= λ after. get_of payload "before" >>= λ before.
      decode_record payload schema op entity (raw_record after before)

  -- `decode_debezium_message`
  unfoldable pub decode_debezium_message : B → Reply DebeziumChange
  unfolding decode_envelope
  decode_debezium_message value = x.loads value >>= decode_envelope
