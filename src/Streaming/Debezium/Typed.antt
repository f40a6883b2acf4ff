-- ===== src/Streaming/Debezium/Typed.antt =====
-- What a decoded row holds.
use modern_data_platform.Prelude.{
  String, String_Eq, true, false, ◌≡◌, inl, inr, refl, sym, Option, none, some, [], ◌∷◌, arith,
  Bool-cases, if◌then◌else◌,
}
use modern_data_platform.Prelude.Int.{ℤ, pos, leb_ℤ}
use modern_data_platform.Prelude.Dict.{Dict, get}
use modern_data_platform.Prelude.Value.{Value}
use modern_data_platform.Processing.Outcome.{answer}
use modern_data_platform.Streaming.Debezium.{
  Row, DebeziumChange, Parsers, zoned_timestamp, connect_date, or_null, subscript, get_of, items_of,
  is_text, logical_types_for, first_day, last_day, date_of_days, to_date, to_timestamp,
  decode_present, decode_value, decode_columns, raw_record, decode_record, decode_envelope,
  decode_debezium_message,
}
use modern_data_platform.Processing.Outcome.Replies.{bind_answer, by_answer}
use modern_data_platform.Streaming.Debezium.Logical.{Described, logical_types_for-Described}
use modern_data_platform.Streaming.Debezium.Paths.{at, at_one, at_two, at_three, Image, Image-at}

abbrev pub InRange : ℤ → Type 0
InRange d = (leb_ℤ first_day d ≡ true) × (leb_ℤ d last_day ≡ true)

date_of_days_lem : (n : ℤ) (v : Value) → date_of_days n ≡ answer v → (v ≡ Value.date n) × InRange n
unfolding date_of_days
date_of_days_lem n v h = ground arith

module _ {B : Type 0} (x : Parsers B) where
  -- the days that a raw value stands for; null stands for none
  abbrev DaysOf : Value → ℤ → Type 0
  DaysOf (Value.int n) d = d ≡ n
  DaysOf (Value.bool b) d = d ≡ (if b then pos 1 else pos 0)
  DaysOf (Value.float f) d = x.float_days f ≡ answer d
  DaysOf _ d = ⊥

  -- What a raw value of a column of the given logical type comes to.
  pub data Typed (logical_type : Value) : Value → Value → Type 0 where
    null_stays : Typed logical_type Value.null Value.null
    is_timestamp :
        (s t : String)
        → is_text zoned_timestamp logical_type ≡ true
        → x.fromisoformat s ≡ answer t
        → Typed logical_type (Value.text s) (Value.timestamp t)
    is_date :
        (raw : Value) (d : ℤ)
        → is_text connect_date logical_type ≡ true
        → DaysOf raw d
        → InRange d
        → Typed logical_type raw (Value.date d)
    is_plain :
        (raw : Value)
        → is_text zoned_timestamp logical_type ≡ false
        → is_text connect_date logical_type ≡ false
        → Typed logical_type raw raw

  -- The row has the columns of the raw record, in their order.
  abbrev AllTyped : Dict String Value → Dict String Value → Row → Type 0
  AllTyped types [] [] = Unit
  AllTyped types ((c, v) ∷ columns) ((c', v') ∷ row) =
      (c' ≡ c) × Typed (or_null (get c types)) v v' × AllTyped types columns row
  AllTyped types _ _ = ⊥

  to_date_lem :
      (raw v : Value)
      → to_date x raw ≡ answer v
      → (d : ℤ) × (v ≡ Value.date d) × DaysOf raw d × InRange d
  unfolding to_date
  to_date_lem (Value.int n) v h = let p = date_of_days_lem n v h in (n, p.0, refl, p.1)
  to_date_lem (Value.bool b) v h =
      let p = date_of_days_lem (if b then pos 1 else pos 0) v h in (_, p.0, refl, p.1)
  to_date_lem (Value.float f) v h =
      let (n, days, e) = bind_answer (x.float_days f) date_of_days v h in
      let p = date_of_days_lem n v e in (n, p.0, days, p.1)
  to_date_lem _ v h = cc

  to_timestamp_lem :
      (raw v : Value)
      → to_timestamp x raw ≡ answer v
      → (s : String) × (t : String) × (raw ≡ Value.text s)
        × (v ≡ Value.timestamp t)
        × (x.fromisoformat s ≡ answer t)
  unfolding to_timestamp
  to_timestamp_lem (Value.text s) v h =
      let (t, reads, e) = bind_answer (x.fromisoformat s) (λ t. answer (Value.timestamp t)) v h in
      (s, t, refl, cc, reads)
  to_timestamp_lem _ v h = cc

  decode_present-Typed :
      (logical_type raw v : Value)
      → decode_present x raw logical_type ≡ answer v
      → Typed logical_type raw v
  decode_present-Typed lt raw v h = elim (Bool-cases (is_text zoned_timestamp lt)) [
    | inl zoned ↦
        let (s, t, er, ev, reads) = to_timestamp_lem raw v (ground arith) in
        rw (er, ev) (is_timestamp s t zoned reads)
    | inr unzoned ↦ elim (Bool-cases (is_text connect_date lt)) [
      | inl dated ↦
          let (d, ev, days, within) = to_date_lem raw v (ground arith) in
          rw ev (is_date raw d dated days within)
      | inr undated ↦ let e : v ≡ raw = ground arith in rw e (is_plain raw unzoned undated)
    ]
  ]

  decode_value-Typed :
      (logical_type raw v : Value)
      → decode_value x raw logical_type ≡ answer v
      → Typed logical_type raw v
  unfolding decode_value
  decode_value-Typed lt Value.null v h = let e : v ≡ Value.null = cc in rw e null_stays
  decode_value-Typed lt raw v h = decode_present-Typed lt raw v h

  decode_columns-AllTyped :
      (types columns : Dict String Value) (row : Row)
      → decode_columns x types columns ≡ answer row
      → AllTyped types columns row
  unfolding decode_columns
  decode_columns-AllTyped types [] [] h = tt
  decode_columns-AllTyped types [] (r ∷ row) h = cc
  decode_columns-AllTyped types ((c, raw) ∷ columns) row h =
      let (v, ev, h') = bind_answer (decode_value x raw (or_null (get c types))) _ row h in
      let (rest, er, e) = bind_answer (decode_columns x types columns) _ row h' in
      let same : row ≡ (c, v) ∷ rest = cc in
      rw same (
        refl,
        decode_value-Typed (or_null (get c types)) raw v ev,
        decode_columns-AllTyped types columns rest er,
      )

  -- Where the row of a decoded change came from.
  pub record Sourced (value : B) (change : DebeziumChange) (row : Row) : Type 0 where
    pub envelope : Value
    pub schema : Value
    pub name : String
    pub raw : Value
    pub types : Dict String Value
    pub columns : Dict String Value
    pub envelope_eq : x.loads value ≡ answer envelope
    pub schema_eq : at ("schema" ∷ []) envelope ≡ some schema
    pub op_eq : at ("payload" ∷ "op" ∷ []) envelope ≡ some change.op
    pub entity_eq : at ("payload" ∷ "source" ∷ "table" ∷ []) envelope ≡ some change.entity
    pub ts_eq : at ("payload" ∷ "source" ∷ "ts_ms" ∷ []) envelope ≡ some change.source_ts_ms
    pub image :
        Image
          (or_null (at ("payload" ∷ "after" ∷ []) envelope))
          (or_null (at ("payload" ∷ "before" ∷ []) envelope))
          name
          raw
    pub described : Described schema name types
    pub columns_eq : items_of raw ≡ answer columns
    pub typed : AllTyped types columns row

  -- What `decode_record` has read.
  record Built (payload schema op entity : Value) (chosen : Option (Value × String))
      (change : DebeziumChange) (row : Row) : Type 0 where
    raw : Value
    name : String
    types : Dict String Value
    columns : Dict String Value
    source : Value
    chosen_eq : chosen ≡ some (raw, name)
    types_eq : logical_types_for schema name ≡ answer types
    columns_eq : items_of raw ≡ answer columns
    typed : AllTyped types columns row
    source_eq : subscript payload "source" ≡ answer source
    ts_eq : subscript source "ts_ms" ≡ answer change.source_ts_ms
    op_eq : change.op ≡ op
    entity_eq : change.entity ≡ entity

  decode_record-Built :
      (payload schema op entity : Value) (chosen : Option (Value × String))
      (change : DebeziumChange) (row : Row)
      → decode_record x payload schema op entity chosen ≡ answer change
      → change.record_of ≡ some row
      → Built payload schema op entity chosen change row
  unfolding decode_record
  decode_record-Built payload schema op entity none change row h is_row =
      let made : change
          ≡ record { entity = entity; op = op; record_of = none; source_ts_ms = Value.null } =
        cc in
      cc
  decode_record-Built payload schema op entity (some (raw, name)) change row h is_row =
      by_answer (logical_types_for schema name) _ change h λ types types_eq h₁.
        by_answer (items_of raw) _ change h₁ λ columns columns_eq h₂.
          by_answer (decode_columns x types columns) _ change h₂ λ row' row_eq h₃.
            by_answer (subscript payload "source") _ change h₃ λ source source_eq h₄.
              by_answer (subscript source "ts_ms") _ change h₄ λ ts ts_eq h₅.
                let made : change ≡ record {
                  entity = entity;
                  op = op;
                  record_of = some row';
                  source_ts_ms = ts;
                } =
                  cc in
                let same : row ≡ row' = cc in
                record {
                  raw = raw;
                  name = name;
                  types = types;
                  columns = columns;
                  source = source;
                  chosen_eq = refl;
                  types_eq = types_eq;
                  columns_eq = columns_eq;
                  typed = rw same (decode_columns-AllTyped types columns row' row_eq);
                  source_eq = source_eq;
                  ts_eq = cc;
                  op_eq = cc;
                  entity_eq = cc;
                }

  -- A decoded change that has a row read it from `payload.after` or, if that is null or missing, from
  -- `payload.before`. The logical type of a column is the `name` of its last description in a struct
  -- field of the schema that is called like that image, if it has one. The row has the columns of the
  -- image, in order; a null stays null; the text of a column of type ZonedTimestamp becomes the
  -- datetime that it is parsed to; the number of a column of type Date becomes the date that many days
  -- from 1970-01-01, which lies in Python's calendar; and every other value is unchanged. The
  -- operation, the entity and the timestamp stand at `payload.op`, `payload.source.table` and
  -- `payload.source.ts_ms`.
  pub decode_debezium_message-Sourced :
      (value : B) (change : DebeziumChange) (row : Row)
      → decode_debezium_message x value ≡ answer change
      → change.record_of ≡ some row
      → Sourced value change row
  unfolding decode_debezium_message decode_envelope
  decode_debezium_message-Sourced value change row h is_row =
      by_answer (x.loads value) (decode_envelope x) change h λ envelope envelope_eq h₁.
        by_answer (subscript envelope "payload") _ change h₁ λ payload payload_eq h₂.
          by_answer (subscript envelope "schema") _ change h₂ λ schema schema_eq h₃.
            by_answer (subscript payload "op") _ change h₃ λ op op_eq h₄.
              by_answer (subscript payload "source") _ change h₄ λ source source_eq h₅.
                by_answer (subscript source "table") _ change h₅ λ entity entity_eq h₆.
                  by_answer (get_of payload "after") _ change h₆ λ after after_eq h₇.
                    by_answer (get_of payload "before") _ change h₇ λ before before_eq h₈.
                      let b =
                        decode_record-Built payload schema op entity (raw_record after before)
                          change row h₈ is_row in
                      let same : b.source ≡ source = cc in
                      record {
                        envelope = envelope;
                        schema = schema;
                        name = b.name;
                        raw = b.raw;
                        types = b.types;
                        columns = b.columns;
                        envelope_eq = envelope_eq;
                        schema_eq = at_one envelope schema "schema" schema_eq;
                        op_eq =
                            at_two envelope payload change.op "payload" "op" payload_eq
                              (rw b.op_eq op_eq);
                        entity_eq =
                            at_three envelope payload source change.entity "payload" "source"
                              "table" payload_eq source_eq (rw b.entity_eq entity_eq);
                        ts_eq =
                            at_three envelope payload source change.source_ts_ms "payload" "source"
                              "ts_ms" payload_eq source_eq (rw (sym same) b.ts_eq);
                        image =
                            Image-at envelope payload after before b.raw b.name payload_eq after_eq
                              before_eq b.chosen_eq;
                        described = logical_types_for-Described schema b.name b.types b.types_eq;
                        columns_eq = b.columns_eq;
                        typed = b.typed;
                      }
