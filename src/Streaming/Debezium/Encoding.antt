-- ===== src/Streaming/Debezium/Encoding.antt =====
-- The events of the connector, as the docstring of integrations/kafka/messaging/debezium_envelope.py
-- describes them (JsonConverter with schemas), and how they are read back.
use modern_data_platform.Prelude.{
  String, String_Eq, Bool, true, false, Option, none, some, is_some, not, ◌&&◌, ◌≡◌, ◌≢◌, List, [],
  ◌∷◌, ◌||◌, ◌==◌,
}
use modern_data_platform.Prelude.Int.{ℤ}
use modern_data_platform.Prelude.Dict.{Dict, get, put}
use modern_data_platform.Prelude.Value.{Value, Items, Fields}
use modern_data_platform.Processing.Outcome.{answer}
use modern_data_platform.Streaming.Debezium.{Row, Parsers, entries, zoned_timestamp, connect_date}
use modern_data_platform.Streaming.Debezium.Typed.{InRange}

-- A field of a row of the source database. A plain one has a Connect type such as "int64" and may
-- have a logical type such as "io.debezium.data.Uuid", which leaves it a text; an instant is written
-- as the text that stands for it.
pub data Cell : Type 0 where
  plain : (schema_type : String) (logical_type : Option String) → Value → Cell
  instant : String → Cell
  day : ℤ → Cell
  no_instant no_day : Cell

abbrev pub TableRow : Type 0
TableRow = List (String × Cell)

-- What the change of a row was.
pub data Event : Type 0 where
  upserted : (op : String) (before : Value) → TableRow → Event
  deleted : TableRow → Event

abbrev pub object_of : Dict String Value → Fields
object_of [] = Fields.end
object_of ((k, v) ∷ d) = Fields.field k v (object_of d)

abbrev pub list_of : List Value → Items
list_of [] = Items.nil
list_of (v ∷ vs) = Items.cons v (list_of vs)

abbrev object_with : Dict String Value → Value
object_with d = Value.object (object_of d)

abbrev pub encode_cell : Cell → Value
encode_cell (plain schema_type logical_type v) = v
encode_cell (instant t) = Value.text t
encode_cell (day d) = Value.int d
encode_cell no_instant = Value.null
encode_cell no_day = Value.null

-- the logical type
abbrev pub cell_type : Cell → Value
cell_type (plain schema_type none v) = Value.null
cell_type (plain schema_type (some name) v) = Value.text name
cell_type (instant t) = Value.text zoned_timestamp
cell_type no_instant = Value.text zoned_timestamp
cell_type (day d) = Value.text connect_date
cell_type no_day = Value.text connect_date

abbrev pub encode_row : TableRow → Dict String Value
encode_row [] = []
encode_row ((c, cell) ∷ row) = (c, encode_cell cell) ∷ encode_row row

-- the Connect type
abbrev schema_type_of : Cell → String
schema_type_of (plain schema_type logical_type v) = schema_type
schema_type_of (instant t) = "string"
schema_type_of no_instant = "string"
schema_type_of (day d) = "int32"
schema_type_of no_day = "int32"

-- {"type": ..., "name": ..., "field": ...}, without "name" where there is no logical type
abbrev column_of : String → String → Value → Value
column_of c schema_type Value.null =
    object_with (("type", Value.text schema_type) ∷ ("field", Value.text c) ∷ [])
column_of c schema_type t =
    object_with (("type", Value.text schema_type) ∷ ("name", t) ∷ ("field", Value.text c) ∷ [])

abbrev pub columns_of : TableRow → List Value
columns_of [] = []
columns_of ((c, cell) ∷ row) = column_of c (schema_type_of cell) (cell_type cell) ∷ columns_of row

abbrev pub struct_of : String → TableRow → Value
struct_of name row = object_with (
    ("type", Value.text "struct")
    ∷ ("fields", Value.list (list_of (columns_of row)))
    ∷ ("field", Value.text name)
    ∷ [])

abbrev pub table_schema : TableRow → Value
table_schema row = object_with (
    ("type", Value.text "struct")
    ∷ ("fields", Value.list (list_of (struct_of "before" row ∷ struct_of "after" row ∷ [])))
    ∷ [])

abbrev payload_of : String → Value → Event → Value
payload_of table ts (upserted op before row) = object_with (
    ("before", before)
    ∷ ("after", object_with (encode_row row))
    ∷ ("source", object_with (("ts_ms", ts) ∷ ("table", Value.text table) ∷ []))
    ∷ ("op", Value.text op)
    ∷ [])
payload_of table ts (deleted row) = object_with (
    ("before", object_with (encode_row row))
    ∷ ("after", Value.null)
    ∷ ("source", object_with (("ts_ms", ts) ∷ ("table", Value.text table) ∷ []))
    ∷ ("op", Value.text "d")
    ∷ [])

abbrev pub row_of : Event → TableRow
row_of (upserted op before row) = row
row_of (deleted row) = row

abbrev pub op_of : Event → String
op_of (upserted op before row) = op
op_of (deleted row) = "d"

-- The message of an event on a row of a table, committed at `ts`.
abbrev pub envelope_of : String → Value → Event → Value
envelope_of table ts event =
    object_with
      (("schema", table_schema (row_of event)) ∷ ("payload", payload_of table ts event) ∷ [])

-- The row as plain Python values; `read` parses the text of an instant.
abbrev pub cell_value : (String → String) → Cell → Value
cell_value read (plain schema_type logical_type v) = v
cell_value read (instant t) = Value.timestamp (read t)
cell_value read (day d) = Value.date d
cell_value read no_instant = Value.null
cell_value read no_day = Value.null

abbrev pub row_values : (String → String) → TableRow → Row
row_values read [] = []
row_values read ((c, cell) ∷ row) = (c, cell_value read cell) ∷ row_values read row

abbrev pub has_column : String → TableRow → Bool
has_column c [] = false
has_column c ((c', cell) ∷ row) = c' == c || has_column c row

-- What `json.loads` can return: no datetime, date or Decimal, and in an object each key once.
abbrev mutual
  pub is_json : Value → Bool
  is_json (Value.list vs) = are_json vs
  is_json (Value.object fs) = are_members fs
  is_json (Value.timestamp t) = false
  is_json (Value.date d) = false
  is_json (Value.decimal t) = false
  is_json _ = true

  pub are_json : Items → Bool
  are_json Items.nil = true
  are_json (Items.cons v vs) = is_json v && are_json vs

  pub are_members : Fields → Bool
  are_members Fields.end = true
  are_members (Fields.field k v fs) =
      not (is_some (get k (entries fs))) && is_json v && are_members fs

abbrev IsPlain : Option String → Type 0
IsPlain none = Unit
IsPlain (some name) = (name ≢ zoned_timestamp) × (name ≢ connect_date)

module _ {B : Type 0} (x : Parsers B) (read : String → String) where
  -- The value of a plain column is JSON and its logical type is none that is decoded; the text of an
  -- instant is parsed as `read` says; a day lies in Python's calendar.
  abbrev pub CellOk : Cell → Type 0
  CellOk (plain schema_type logical_type v) = (is_json v ≡ true) × IsPlain logical_type
  CellOk (instant t) = x.fromisoformat t ≡ answer (read t)
  CellOk (day d) = InRange d
  CellOk _ = Unit

  -- The columns have names of their own.
  abbrev pub RowOk : TableRow → Type 0
  RowOk [] = Unit
  RowOk ((c, cell) ∷ row) = (has_column c row ≡ false) × CellOk cell × RowOk row

  abbrev pub EventOk : Event → Type 0
  EventOk (upserted op before row) = (is_json before ≡ true) × RowOk row
  EventOk (deleted row) = RowOk row

abbrev pub type_dict : TableRow → Dict String Value → Dict String Value
type_dict [] d = d
type_dict ((c, cell) ∷ row) d = type_dict row (put c (cell_type cell) d)
