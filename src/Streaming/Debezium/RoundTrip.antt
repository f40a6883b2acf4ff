-- ===== src/Streaming/Debezium/RoundTrip.antt =====
-- The events that the connector writes are read back.
use modern_data_platform.Prelude.{
  ◌≢◌, ◌==◌, none, true, String, String_Eq, false, ◌≡◌, refl, ◌∙◌, some, [], ◌∷◌, arith, eq_iff,
}
use modern_data_platform.Prelude.Dict.{Dict, get, put, get-put}
use modern_data_platform.Prelude.Value.{Value}
use modern_data_platform.Processing.Outcome.{answer}
use modern_data_platform.Streaming.Debezium.{
  DebeziumChange, Parsers, zoned_timestamp, connect_date, column_types, struct_columns,
  logical_types_for, date_of_days, to_date, to_timestamp, decode_value, decode_columns,
  decode_record, decode_envelope, decode_debezium_message,
}
use modern_data_platform.Streaming.Debezium.Json.{
  entries-object_of, elements-list_of, envelope_of-is_json,
}
use modern_data_platform.Streaming.Debezium.Encoding.{
  Cell, CellOk, Event, RowOk, TableRow, cell_type, cell_value, columns_of, day, deleted,
  encode_cell, encode_row, envelope_of, instant, has_column, no_day, no_instant, op_of, plain,
  row_of, row_values, table_schema, struct_of, type_dict, upserted, EventOk, is_json,
}

column_types-columns_of :
    (row : TableRow) (d : Dict String Value)
    → column_types (columns_of row) d ≡ answer (type_dict row d)
unfolding column_types
column_types-columns_of [] d = refl
column_types-columns_of ((c, plain schema_type none v) ∷ row) d =
    column_types-columns_of row (put c Value.null d)
column_types-columns_of ((c, plain schema_type (some name) v) ∷ row) d =
    column_types-columns_of row (put c (Value.text name) d)
column_types-columns_of ((c, instant t) ∷ row) d =
    column_types-columns_of row (put c (Value.text zoned_timestamp) d)
column_types-columns_of ((c, no_instant) ∷ row) d =
    column_types-columns_of row (put c (Value.text zoned_timestamp) d)
column_types-columns_of ((c, day n) ∷ row) d =
    column_types-columns_of row (put c (Value.text connect_date) d)
column_types-columns_of ((c, no_day) ∷ row) d =
    column_types-columns_of row (put c (Value.text connect_date) d)

-- the types of the columns before stay
get-type_dict :
    (c : String) (row : TableRow) (d : Dict String Value)
    → has_column c row ≡ false
    → get c (type_dict row d) ≡ get c d
get-type_dict c [] d h = refl
get-type_dict c ((c', cell) ∷ row) d h =
    ground (arith, get-type_dict c row (put c' (cell_type cell) d), get-put c' c (cell_type cell) d)

-- a name that differs is told apart
differs : (a b : String) → a ≢ b → (a == b) ≡ false
differs a b n = ground (arith, eq_iff a b, n)

module _ {B : Type 0} (x : Parsers B) (read : String → String) where
  decode_value-encode_cell :
      (cell : Cell)
      → CellOk x read cell
      → decode_value x (encode_cell cell) (cell_type cell) ≡ answer (cell_value read cell)
  unfolding decode_value to_date to_timestamp date_of_days
  decode_value-encode_cell (plain schema_type none Value.null) h = refl
  decode_value-encode_cell (plain schema_type none v) h = refl
  decode_value-encode_cell (plain schema_type (some name) Value.null) h = refl
  decode_value-encode_cell (plain schema_type (some name) v) h =
      rw (differs name zoned_timestamp h.1.0, differs name connect_date h.1.1) refl
  decode_value-encode_cell (instant t) h = rw h refl
  decode_value-encode_cell (day d) h = ground (arith, h.0, h.1)
  decode_value-encode_cell no_instant h = refl
  decode_value-encode_cell no_day h = refl

  decode_columns-encode_row :
      (row : TableRow) (d : Dict String Value)
      → RowOk x read row
      → decode_columns x (type_dict row d) (encode_row row) ≡ answer (row_values read row)
  unfolding decode_columns
  decode_columns-encode_row [] d h = refl
  decode_columns-encode_row ((c, cell) ∷ row) d h =
      let types = type_dict row (put c (cell_type cell) d) in
      let typed : get c types ≡ some (cell_type cell) =
        get-type_dict c row (put c (cell_type cell) d) h.0
        ∙ ground (arith, get-put c c (cell_type cell) d, eq_iff c c) in
      rw
        (
          typed,
          decode_value-encode_cell cell h.1,
          decode_columns-encode_row row (put c (cell_type cell) d) h.2,
        )
        refl

struct_columns-struct_of :
    (name : String) (row : TableRow)
    → struct_columns (struct_of name row) ≡ answer (type_dict row [])
unfolding struct_columns
struct_columns-struct_of name row =
    rw (elements-list_of (columns_of row)) (column_types-columns_of row [])

logical_types_for-after :
    (row : TableRow) → logical_types_for (table_schema row) "after" ≡ answer (type_dict row [])
unfolding logical_types_for
logical_types_for-after row = struct_columns-struct_of "after" row

logical_types_for-before :
    (row : TableRow) → logical_types_for (table_schema row) "before" ≡ answer (type_dict row [])
unfolding logical_types_for
logical_types_for-before row = struct_columns-struct_of "before" row

-- the change that an event stands for
abbrev pub change_of : (String → String) → String → Value → Event → DebeziumChange
change_of read table ts event = record {
  entity = Value.text table;
  op = Value.text (op_of event);
  record_of = some (row_values read (row_of event));
  source_ts_ms = ts;
}

module _ {B : Type 0} (x : Parsers B) (read : String → String) where
  decode_envelope-envelope_of :
      (table : String) (ts : Value) (event : Event)
      → EventOk x read event
      → decode_envelope x (envelope_of table ts event) ≡ answer (change_of read table ts event)
  unfolding decode_envelope decode_record
  decode_envelope-envelope_of table ts (upserted op before row) ok =
      rw
        (
          logical_types_for-after row,
          entries-object_of (encode_row row),
          decode_columns-encode_row x read row [] ok.1,
        )
        refl
  decode_envelope-envelope_of table ts (deleted row) ok =
      rw
        (
          logical_types_for-before row,
          entries-object_of (encode_row row),
          decode_columns-encode_row x read row [] ok,
        )
        refl

  -- If `json.loads` reads back the JSON values that the connector writes, a message decodes to the
  -- event that it was written for: table, operation, timestamp, and the row after the change, or for a
  -- deletion the row before it, with instants as datetimes and days as dates. The values of the plain
  -- columns, the row before an update and the timestamp are JSON, the names of the columns are
  -- distinct, the texts of the instants can be parsed, and the days lie in Python's calendar.
  pub decode_debezium_message-dumps :
      (dumps : Value → B) (table : String) (ts : Value) (event : Event)
      → ((v : Value) → is_json v ≡ true → x.loads (dumps v) ≡ answer v)
      → is_json ts ≡ true
      → EventOk x read event
      → decode_debezium_message x (dumps (envelope_of table ts event))
        ≡ answer (change_of read table ts event)
  unfolding decode_debezium_message
  decode_debezium_message-dumps dumps table ts event loads stamped ok =
      rw (loads (envelope_of table ts event) (envelope_of-is_json x read table ts event stamped ok))
        (decode_envelope-envelope_of table ts event ok)
