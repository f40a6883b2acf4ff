-- ===== src/Compute/BronzeSchema.antt =====
-- data_platform/compute/bronze_schema.py. The query of `information_schema.columns`, the constructor
-- `pa.decimal128` and `Decimal(str(round(value, scale)))` are parameters.
pub mod Coercion
pub mod Resolution
use modern_data_platform.Prelude.{
  String, String_Eq, Bool, true, false, Option, none, some, List, [], ◌∷◌, ◌++◌, ◌==◌,
  if◌then◌else◌, text_append,
}
use modern_data_platform.Prelude.Int.{ℤ}
use modern_data_platform.Prelude.Dict.{Dict, get, put}
use modern_data_platform.Prelude.Value.{Value}
use modern_data_platform.Processing.Outcome.{Exn, Reply, answer, failure, value_error}
use modern_data_platform.Streaming.Debezium.{Row}
use modern_data_platform.Processing.Outcome.Replies.{◌>>=◌}

-- The `pa.DataType`s that occur; `decimal precision scale` is a decimal128.
pub data ArrowType : Type 0 where
  bool_ int16 int32 int64 string date32 timestamp_us_utc : ArrowType
  decimal : ℤ → ℤ → ArrowType

abbrev pub Schema : Type 0
Schema = List (String × ArrowType)

-- a row of information_schema.columns
pub record ColumnInfo : Type 0 where
  pub name : String
  pub data_type : String
  pub precision : Option ℤ
  pub scale : Option ℤ

abbrev pub data_type_to_arrow : Dict String ArrowType
data_type_to_arrow =
    ("boolean", bool_)
    ∷ ("smallint", int16)
    ∷ ("integer", int32)
    ∷ ("text", string)
    ∷ ("character varying", string)
    ∷ ("date", date32)
    ∷ ("timestamp with time zone", timestamp_us_utc)
    ∷ ("uuid", string)
    ∷ []

abbrev unscaled_error : String → Exn
unscaled_error column = value_error (
    text_append "Column '" (
      text_append column
        "' is numeric without a precision/scale -- add explicit handling before resolving its schema."))

abbrev unmapped_error : String → String → Exn
unmapped_error column data_type = value_error (
    text_append "Column '" (
      text_append column (
        text_append "' has Postgres data_type '" (
          text_append data_type
            "', which is not mapped to an Arrow type yet -- add it to _DATA_TYPE_TO_ARROW before resolving it."))))

-- d[key], with the error that is raised in place of a KeyError
abbrev pub or_error : Exn → Option ArrowType → Reply ArrowType
or_error e none = failure e
or_error e (some t) = answer t

abbrev no_columns_error : String → String → Exn
no_columns_error schema_name entity = value_error (
    text_append "No columns found for '" (
      text_append schema_name (text_append "." (text_append entity "' -- check the entity name."))))

abbrev pub cdc_fields : Bool → Schema
cdc_fields include_cdc_metadata = if include_cdc_metadata then ("_cdc_ts_ms", int64) ∷ [] else []

module _ (decimal128 : ℤ → ℤ → Reply ArrowType) where
  abbrev pub numeric_type : Exn → Option ℤ → Option ℤ → Reply ArrowType
  numeric_type e (some p) (some s) = decimal128 p s
  numeric_type e _ _ = failure e

  -- `_arrow_type`
  unfoldable pub arrow_type : ColumnInfo → Reply ArrowType
  arrow_type c =
      if c.data_type == "numeric"
      then numeric_type (unscaled_error c.name) c.precision c.scale
      else or_error (unmapped_error c.name c.data_type) (get c.data_type data_type_to_arrow)

  -- the comprehension over the rows
  unfoldable pub fields_of : List ColumnInfo → Reply Schema
  unfolding arrow_type
  fields_of [] = answer []
  fields_of (c ∷ columns) =
      arrow_type c >>= λ t. fields_of columns >>= λ fields. answer ((c.name, t) ∷ fields)

  unfoldable pub schema_of : String → String → Bool → List ColumnInfo → Reply Schema
  unfolding fields_of
  schema_of schema_name entity cdc [] = failure (no_columns_error schema_name entity)
  schema_of schema_name entity cdc (c ∷ columns) =
      fields_of (c ∷ columns) >>= λ fields. answer (fields ++ cdc_fields cdc)

  -- `resolve_bronze_schema`
  unfoldable pub resolve_bronze_schema :
      {W : Type 0}
      → (String → String → W → Reply (List ColumnInfo) × W)
      → String
      → String
      → Bool
      → W
      → Reply Schema × W
  unfolding schema_of
  resolve_bronze_schema query entity schema_name cdc w =
      let (r, w') = query schema_name entity w in (r >>= schema_of schema_name entity cdc, w')

module _ (rounded : String → ℤ → String) where
  -- if isinstance(value, float)
  abbrev pub coerce_value : String → ℤ → Option Value → Row → Row
  coerce_value name scale (some (Value.float f)) row =
      put name (Value.decimal (rounded f scale)) row
  coerce_value name scale _ row = row

  abbrev pub coerce_field : String → ArrowType → Row → Row
  coerce_field name (decimal precision scale) row = coerce_value name scale (get name row) row
  coerce_field name _ row = row

  -- `coerce_record`: for field in schema
  unfoldable pub coerce_record : Row → Schema → Row
  coerce_record row [] = row
  coerce_record row ((name, t) ∷ schema) = coerce_record (coerce_field name t row) schema
