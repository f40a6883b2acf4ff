-- ===== src/Streaming/Debezium/Json.antt =====
-- The envelopes of the connector are JSON values.
use modern_data_platform.Prelude.{
  String, String_Eq, true, false, ◌≡◌, refl, ap, none, some, List, [], ◌∷◌, arith,
}
use modern_data_platform.Prelude.Dict.{Dict, get}
use modern_data_platform.Prelude.Value.{Value}
use modern_data_platform.Streaming.Debezium.{Parsers, entries, elements}
use modern_data_platform.Streaming.Debezium.Encoding.{
  Cell, CellOk, Event, EventOk, RowOk, TableRow, are_json, are_members, columns_of, day, deleted,
  encode_cell, encode_row, envelope_of, instant, is_json, list_of, has_column, no_day, no_instant,
  object_of, plain, upserted, table_schema,
}

pub entries-object_of : (d : Dict String Value) → entries (object_of d) ≡ d
entries-object_of [] = refl
entries-object_of ((k, v) ∷ d) = ap (λ e. (k, v) ∷ e) (entries-object_of d)

pub elements-list_of : (vs : List Value) → elements (list_of vs) ≡ vs
elements-list_of [] = refl
elements-list_of (v ∷ vs) = ap (λ e. v ∷ e) (elements-list_of vs)

-- the columns are described by JSON values
columns_of-are_json : (row : TableRow) → are_json (list_of (columns_of row)) ≡ true
columns_of-are_json [] = refl
columns_of-are_json ((c, plain schema_type none v) ∷ row) = columns_of-are_json row
columns_of-are_json ((c, plain schema_type (some name) v) ∷ row) = columns_of-are_json row
columns_of-are_json ((c, instant t) ∷ row) = columns_of-are_json row
columns_of-are_json ((c, no_instant) ∷ row) = columns_of-are_json row
columns_of-are_json ((c, day d) ∷ row) = columns_of-are_json row
columns_of-are_json ((c, no_day) ∷ row) = columns_of-are_json row

schema-is_json : (row : TableRow) → is_json (table_schema row) ≡ true
schema-is_json row = rw (columns_of-are_json row) refl

absent :
    (c : String) (row : TableRow)
    → has_column c row ≡ false
    → get c (entries (object_of (encode_row row))) ≡ none
absent c [] h = refl
absent c ((c', cell) ∷ row) h = ground (arith, absent c row, h)

module _ {B : Type 0} (x : Parsers B) (read : String → String) where
  encode_cell-is_json : (cell : Cell) → CellOk x read cell → is_json (encode_cell cell) ≡ true
  encode_cell-is_json (plain schema_type logical_type v) h = h.0
  encode_cell-is_json (instant t) h = refl
  encode_cell-is_json no_instant h = refl
  encode_cell-is_json (day d) h = refl
  encode_cell-is_json no_day h = refl

  encode_row-are_members :
      (row : TableRow) → RowOk x read row → are_members (object_of (encode_row row)) ≡ true
  encode_row-are_members [] h = refl
  encode_row-are_members ((c, cell) ∷ row) h =
      rw (absent c row h.0, encode_cell-is_json cell h.1, encode_row-are_members row h.2) refl

  pub envelope_of-is_json :
      (table : String) (ts : Value) (event : Event)
      → is_json ts ≡ true
      → EventOk x read event
      → is_json (envelope_of table ts event) ≡ true
  envelope_of-is_json table ts (upserted op before row) stamped ok =
      rw (schema-is_json row, ok.0, encode_row-are_members row ok.1, stamped) refl
  envelope_of-is_json table ts (deleted row) stamped ok =
      rw (schema-is_json row, encode_row-are_members row ok, stamped) refl
