-- ===== src/Compute/BronzeSchema/Resolution.antt =====
-- The schema that is resolved for an entity.
use mathlib.Core.Path.{subst}
use modern_data_platform.Prelude.{
  sym, All, ◌↔◌, String, String_Eq, Bool, true, false, ◌≡◌, ◌≢◌, inl, inr, refl, Option, none, some,
  List, [], ◌∷◌, ◌++◌, ◌==◌, arith, eq_iff, Bool-cases,
}
use modern_data_platform.Prelude.Int.{ℤ}
use modern_data_platform.Prelude.Dict.{Dict, get}
use modern_data_platform.Processing.Outcome.{Exn, Reply, answer}
use modern_data_platform.Processing.Outcome.Replies.{by_answer}
use modern_data_platform.Compute.BronzeSchema.{
  ArrowType, bool_, int16, int32, int64, string, date32, timestamp_us_utc, Schema, ColumnInfo,
  arrow_type, numeric_type, or_error, unscaled_error, unmapped_error, data_type_to_arrow, fields_of,
  cdc_fields, schema_of, resolve_bronze_schema,
}

module _ (decimal128 : ℤ → ℤ → Reply ArrowType) where
  -- The Arrow type that a column has by the name of its Postgres type.
  pub data HasType (c : ColumnInfo) : ArrowType → Type 0 where
    is_boolean : c.data_type ≡ "boolean" → HasType c bool_
    is_smallint : c.data_type ≡ "smallint" → HasType c int16
    is_integer : c.data_type ≡ "integer" → HasType c int32
    is_text_column : c.data_type ≡ "text" → HasType c string
    is_varchar : c.data_type ≡ "character varying" → HasType c string
    is_date_column : c.data_type ≡ "date" → HasType c date32
    is_timestamptz : c.data_type ≡ "timestamp with time zone" → HasType c timestamp_us_utc
    is_uuid : c.data_type ≡ "uuid" → HasType c string
    is_numeric :
        (p s : ℤ) (t : ArrowType)
        → c.data_type ≡ "numeric"
        → c.precision ≡ some p
        → c.scale ≡ some s
        → decimal128 p s ≡ answer t
        → HasType c t

  numeric_type_lem :
      (e : Exn) (p s : Option ℤ) (t : ArrowType)
      → numeric_type decimal128 e p s ≡ answer t
      → (m : ℤ) × (n : ℤ) × (p ≡ some m) × (s ≡ some n) × (decimal128 m n ≡ answer t)
  numeric_type_lem e (some m) (some n) t h = (m, n, refl, refl, h)
  numeric_type_lem e (some m) none t h = cc
  numeric_type_lem e none s t h = cc

  or_error_lem :
      (e : Exn) (o : Option ArrowType) (t : ArrowType) → or_error e o ≡ answer t → o ≡ some t
  or_error_lem e none t h = cc
  or_error_lem e (some t') t h = cc

  -- the columns of a Postgres type that a table lists
  abbrev Listed : ColumnInfo → String × ArrowType → Type 0
  Listed c entry = c.data_type ≡ entry.0 → HasType c entry.1

  get-Listed :
      (c : ColumnInfo) (d : Dict String ArrowType) (t : ArrowType)
      → All (Listed c) d
      → get c.data_type d ≡ some t
      → HasType c t
  get-Listed c [] t h e = cc
  get-Listed c ((k, v) ∷ d) t h e = elim (Bool-cases (k == c.data_type)) [
    | inl same ↦
        let found : v ≡ t = ground (arith, e, same) in
        subst (HasType c) found (h.0 (sym ((eq_iff k c.data_type).0 same)))
    | inr other ↦ get-Listed c d t h.1 (ground (arith, e, other))
  ]

  table-Listed : (c : ColumnInfo) → All (Listed c) data_type_to_arrow
  table-Listed c = (
    is_boolean,
    (
      is_smallint,
      (
        is_integer,
        (is_text_column, (is_varchar, (is_date_column, (is_timestamptz, (is_uuid, tt))))),
      ),
    ),
  )

  arrow_type-HasType :
      (c : ColumnInfo) (t : ArrowType) → arrow_type decimal128 c ≡ answer t → HasType c t
  unfolding arrow_type
  arrow_type-HasType c t h = elim (Bool-cases (c.data_type == "numeric")) [
    | inl numeric ↦
        let (p, s, ep, es, made) =
          numeric_type_lem (unscaled_error c.name) c.precision c.scale t
            (ground (arith, h, numeric)) in
        is_numeric p s t ((eq_iff c.data_type "numeric").0 numeric) ep es made
    | inr other ↦ get-Listed c data_type_to_arrow t (table-Listed c) (
        or_error_lem (unmapped_error c.name c.data_type) (get c.data_type data_type_to_arrow) t
          (ground (arith, h, other)))
  ]

  HasType-arrow_type :
      (c : ColumnInfo) (t : ArrowType) → HasType c t → arrow_type decimal128 c ≡ answer t
  unfolding arrow_type
  HasType-arrow_type c _ (is_boolean e) = rw e refl
  HasType-arrow_type c _ (is_smallint e) = rw e refl
  HasType-arrow_type c _ (is_integer e) = rw e refl
  HasType-arrow_type c _ (is_text_column e) = rw e refl
  HasType-arrow_type c _ (is_varchar e) = rw e refl
  HasType-arrow_type c _ (is_date_column e) = rw e refl
  HasType-arrow_type c _ (is_timestamptz e) = rw e refl
  HasType-arrow_type c _ (is_uuid e) = rw e refl
  HasType-arrow_type c _ (is_numeric p s t e ep es made) = rw (e, ep, es) made

  -- a field for each column, in order, with its name and its Arrow type, and after them the field
  -- of the CDC timestamp if it was asked for
  abbrev pub FieldsOf : Bool → List ColumnInfo → Schema → Type 0
  FieldsOf true [] fields = fields ≡ ("_cdc_ts_ms", int64) ∷ []
  FieldsOf false [] fields = fields ≡ []
  FieldsOf cdc (c ∷ columns) [] = ⊥
  FieldsOf cdc (c ∷ columns) ((name, t) ∷ fields) =
      (name ≡ c.name) × HasType c t × FieldsOf cdc columns fields

  FieldsOf-nil : (cdc : Bool) → FieldsOf cdc [] (cdc_fields cdc)
  FieldsOf-nil true = refl
  FieldsOf-nil false = refl

  fields_of-FieldsOf :
      (cdc : Bool) (columns : List ColumnInfo) (fields : Schema)
      → fields_of decimal128 columns ≡ answer fields
      → FieldsOf cdc columns (fields ++ cdc_fields cdc)
  unfolding fields_of
  fields_of-FieldsOf cdc [] fields h =
      let none_left : fields ≡ [] = cc in rw none_left (FieldsOf-nil cdc)
  fields_of-FieldsOf cdc (c ∷ columns) fields h =
      by_answer (arrow_type decimal128 c) _ fields h λ t t_eq h₁.
        by_answer (fields_of decimal128 columns) _ fields h₁ λ rest rest_eq h₂.
          let same : fields ≡ (c.name, t) ∷ rest = cc in
          rw same (refl, arrow_type-HasType c t t_eq, fields_of-FieldsOf cdc columns rest rest_eq)

  -- the fields of the columns, without the one of the CDC timestamp
  FieldsOf-fields_of :
      (cdc : Bool) (columns : List ColumnInfo) (schema : Schema)
      → FieldsOf cdc columns schema
      → (fields : Schema) × (fields_of decimal128 columns ≡ answer fields)
        × (schema ≡ fields ++ cdc_fields cdc)
  unfolding fields_of
  FieldsOf-fields_of true [] schema h = ([], refl, h)
  FieldsOf-fields_of false [] schema h = ([], refl, h)
  FieldsOf-fields_of cdc (c ∷ columns) [] h = absurd h
  FieldsOf-fields_of cdc (c ∷ columns) ((name, t) ∷ schema) h =
      let (fields, e, same) = FieldsOf-fields_of cdc columns schema h.2 in
      ((c.name, t) ∷ fields, rw (HasType-arrow_type c t h.1, e) refl, rw (h.0, same) refl)

  -- The schema of an entity is resolved to `schema` just if the query returns at least one column
  -- and `schema` has a field for each column, in order, with its name and the Arrow type of its
  -- Postgres type, a numeric one with its precision and scale; and after these the field
  -- `_cdc_ts_ms` of type int64 with `include_cdc_metadata`, and no other field without.
  pub resolve_bronze_schema_lem :
      {W : Type 0} (query : String → String → W → Reply (List ColumnInfo) × W)
      (entity schema_name : String) (cdc : Bool) (w : W) (schema : Schema)
      → ((resolve_bronze_schema decimal128 query entity schema_name cdc w).0 ≡ answer schema) ↔ (
          (columns : List ColumnInfo) × ((query schema_name entity w).0 ≡ answer columns)
          × (columns ≢ [])
          × FieldsOf cdc columns schema)
  unfolding resolve_bronze_schema schema_of
  resolve_bronze_schema_lem query entity schema_name cdc w schema = (
    (λ h.
        by_answer (query schema_name entity w).0 (schema_of decimal128 schema_name entity cdc)
          schema h by_columns),
    (λ (columns, returned, some_column, h). conversely columns returned some_column h),
  )
    where
      by_columns :
          (columns : List ColumnInfo)
          → (query schema_name entity w).0 ≡ answer columns
          → schema_of decimal128 schema_name entity cdc columns ≡ answer schema
          → (columns : List ColumnInfo) × ((query schema_name entity w).0 ≡ answer columns)
            × (columns ≢ [])
            × FieldsOf cdc columns schema
      by_columns [] e h = cc
      by_columns (c ∷ columns) e h =
          by_answer (fields_of decimal128 (c ∷ columns)) _ schema h λ fields fields_eq h₁.
            let same : schema ≡ fields ++ cdc_fields cdc = cc in
            (
              c ∷ columns,
              e,
              (λ q. cc),
              subst (FieldsOf cdc (c ∷ columns)) (sym same)
                  (fields_of-FieldsOf cdc (c ∷ columns) fields fields_eq),
            )

      conversely :
          (columns : List ColumnInfo)
          → (query schema_name entity w).0 ≡ answer columns
          → columns ≢ []
          → FieldsOf cdc columns schema
          → (resolve_bronze_schema decimal128 query entity schema_name cdc w).0 ≡ answer schema
      conversely [] e n h = absurd (n refl)
      conversely (c ∷ columns) e n h =
          let (fields, made, same) = FieldsOf-fields_of cdc (c ∷ columns) schema h in
          rw (resolve_bronze_schema, e, schema_of, made, same) refl
