-- ===== src/Samples/Schemas.antt =====
-- Schemas of sample columns.
use modern_data_platform.Prelude.{
  ◌↔◌, ℕ, ℕ_Eq, String, String_Eq, ◌≡◌, ◌≢◌, refl, false, Bool-cases, nat_eq_iff, sym, ap, ◌∙◌,
  ◌==◌, inl, inr, Option-cases, List, Option, none, some, [], ◌∷◌, arith, true, if◌then◌else◌,
}
use modern_data_platform.Prelude.Int.{ℤ, pos}
use modern_data_platform.Prelude.Dict.{Dict, get}
use modern_data_platform.Prelude.Value.{Value}
use modern_data_platform.Processing.Outcome.{Reply, answer}
use modern_data_platform.Streaming.Debezium.{Row}
use modern_data_platform.Compute.BronzeSchema.{
  ArrowType, decimal, int32, int64, Schema, ColumnInfo, arrow_type, coerce_record,
  resolve_bronze_schema,
}
use modern_data_platform.Compute.BronzeSchema.Resolution.{FieldsOf, resolve_bronze_schema_lem}
use modern_data_platform.Compute.BronzeSchema.Coercion.{
  columns_of, scale_of, coerced?, coerce_record_lem,
}
use modern_data_platform.Processing.Extraction.{Column, arrow_type_for_column}
use modern_data_platform.Processing.Extraction.Lockstep.{
  postgres_types, Catalog, described, Agree, arrow_type-arrow_type_for_column,
}

abbrev or_other : Option String → String
or_other none = "ARRAY"
or_other (some t) = t

abbrev data_type_of : ℕ → String
data_type_of oid = or_other (get oid postgres_types)

abbrev oid_of : String → ℕ
oid_of t =
    if t == "boolean"
    then 16
    else if t == "smallint"
    then 21
    else if t == "integer"
    then 23
    else if t == "text"
    then 25
    else if t == "character varying"
    then 1043
    else if t == "date"
    then 1082
    else if t == "timestamp with time zone"
    then 1184
    else if t == "uuid"
    then 2950
    else 1700

-- every entry is read back, and none has the name of an unknown type
abbrev Inverse : Dict ℕ String → Type 0
Inverse [] = Unit
Inverse ((k, t) ∷ types) = (oid_of t ≡ k) × ((t == "ARRAY") ≡ false) × Inverse types

oid_of-get :
    (oid : ℕ) (t : String) (types : Dict ℕ String)
    → Inverse types
    → get oid types ≡ some t
    → (oid_of t ≡ oid) × ((t == "ARRAY") ≡ false)
oid_of-get oid t [] h e = cc
oid_of-get oid t ((k, t') ∷ types) h e = elim (Bool-cases (k == oid)) [
  | inl same ↦
      let k_eq : k ≡ oid = (nat_eq_iff k oid).0 same in
      let t_eq : t' ≡ t = ground arith in (rw (sym t_eq) (h.0 ∙ k_eq), rw (sym t_eq) h.1)
  | inr other ↦ oid_of-get oid t types h.2 (ground arith)
]

inverse : Inverse postgres_types
inverse = (
  refl,
  refl,
  (
    refl,
    refl,
    (
      refl,
      refl,
      (refl, refl, (refl, refl, (refl, refl, (refl, refl, (refl, refl, (refl, refl, tt)))))),
    ),
  ),
)

documents : Catalog data_type_of
documents = record {
  documented = λ oid t h. ap or_other h;
  unique = λ oid oid' h. elim (Option-cases (get oid' postgres_types)) [
    | inl unknown ↦
        let (_, apart) =
          oid_of-get oid "ARRAY" postgres_types inverse (h ∙ ap (λ o. some (or_other o)) unknown) in
        cc
    | inr (t, known) ↦
        sym (oid_of-get oid' t postgres_types inverse known).0
        ∙ (oid_of-get oid t postgres_types inverse (h ∙ ap (λ o. some (or_other o)) known)).0
  ];
}

-- a constructor that takes every precision
abbrev decimal128 : ℤ → ℤ → Reply ArrowType
decimal128 p s = answer (decimal p s)

abbrev price : Column
price = record { name = "price"; type_code = 1700; precision = some (pos 12); scale = some (pos 2) }

arrow_type-arrow_type_for_column_example :
    Agree
      (arrow_type decimal128 (described data_type_of price))
      (arrow_type_for_column decimal128 price)
arrow_type-arrow_type_for_column_example =
    arrow_type-arrow_type_for_column data_type_of decimal128 price documents

abbrev order_columns : List ColumnInfo
order_columns =
    record { name = "quantity"; data_type = "integer"; precision = none; scale = none }
    ∷ record {
      name = "price";
      data_type = "numeric";
      precision = some (pos 12);
      scale = some (pos 2);
    }
    ∷ []

abbrev query : String → String → ℕ → Reply (List ColumnInfo) × ℕ
query schema_name entity w = (answer order_columns, w)

abbrev order_schema : Schema
order_schema =
    ("quantity", int32) ∷ ("price", decimal (pos 12) (pos 2)) ∷ ("_cdc_ts_ms", int64) ∷ []

order_schema_run :
    (resolve_bronze_schema decimal128 query "order_items" "marketplace" true 0).0
    ≡ answer order_schema
unfolding resolve_bronze_schema
order_schema_run = refl

resolve_bronze_schema_lem_example :
    ((resolve_bronze_schema decimal128 query "order_items" "marketplace" true 0).0
      ≡ answer order_schema)
    ↔ ((columns : List ColumnInfo) × ((query "marketplace" "order_items" 0).0 ≡ answer columns)
        × (columns ≢ [])
        × FieldsOf decimal128 true columns order_schema)
resolve_bronze_schema_lem_example =
    resolve_bronze_schema_lem decimal128 query "order_items" "marketplace" true 0 order_schema

abbrev rounded : String → ℤ → String
rounded f s = f

abbrev item : Row
item = ("price", Value.float "9.99") ∷ ("quantity", Value.int (pos 3)) ∷ []

coerce_run :
    coerce_record rounded item order_schema
    ≡ ("price", Value.decimal "9.99") ∷ ("quantity", Value.int (pos 3)) ∷ []
unfolding coerce_record
coerce_run = refl

coerce_record_lem_example :
    (columns_of (coerce_record rounded item order_schema) ≡ columns_of item)
    × ((c : String)
        → get c (coerce_record rounded item order_schema)
          ≡ coerced? rounded (scale_of c order_schema) (get c item))
coerce_record_lem_example = coerce_record_lem rounded item order_schema
