-- ===== src/Processing/Extraction.antt =====
-- processing/extraction/postgres_extraction_stage.py: the Arrow type of a column and the values that
-- are read for it. `pa.decimal128` and `str` of a UUID are parameters.
pub mod Lockstep
use modern_data_platform.Prelude.{
  ℕ, zero, suc, ℕ_Eq, String, Bool, Option, none, some, List, [], ◌∷◌, ◌==◌, if◌then◌else◌,
  text_append, show_ℕ,
}
use modern_data_platform.Prelude.Int.{ℤ}
use modern_data_platform.Prelude.Dict.{Dict, get}
use modern_data_platform.Prelude.Value.{Value}
use modern_data_platform.Processing.Outcome.{Exn, Reply, answer, failure, value_error}
use modern_data_platform.Processing.Outcome.Replies.{◌>>=◌}
use modern_data_platform.Compute.BronzeSchema.{
  ArrowType, bool_, int16, int32, string, date32, timestamp_us_utc, Schema, numeric_type, or_error,
}

-- psycopg.Column, as `cursor.description` has it
pub record Column : Type 0 where
  pub name : String
  pub type_code : ℕ
  pub precision : Option ℤ
  pub scale : Option ℤ

abbrev pub numeric_oid : ℕ
numeric_oid = 1700

abbrev uuid_oid : ℕ
uuid_oid = 2950

abbrev pub postgres_oid_to_arrow : Dict ℕ ArrowType
postgres_oid_to_arrow =
    (16, bool_)
    ∷ (21, int16)
    ∷ (23, int32)
    ∷ (25, string)
    ∷ (1043, string)
    ∷ (1082, date32)
    ∷ (1184, timestamp_us_utc)
    ∷ (uuid_oid, string)
    ∷ []

abbrev unscaled_column_error : String → Exn
unscaled_column_error column = value_error (
    text_append "Column '" (
      text_append column
        "' is numeric without a precision/scale -- add explicit handling before extracting it (every numeric column in the marketplace schema has both)."))

abbrev unmapped_oid_error : String → ℕ → Exn
unmapped_oid_error column oid = value_error (
    text_append "Column '" (
      text_append column (
        text_append "' has Postgres type OID " (
          text_append (show_ℕ oid)
            ", which is not mapped to an Arrow type yet -- add it to _POSTGRES_OID_TO_ARROW before extracting it."))))

-- `_arrow_type_for_column`
unfoldable pub arrow_type_for_column : (ℤ → ℤ → Reply ArrowType) → Column → Reply ArrowType
arrow_type_for_column decimal128 c =
    if c.type_code == numeric_oid
    then numeric_type decimal128 (unscaled_column_error c.name) c.precision c.scale
    else or_error (unmapped_oid_error c.name c.type_code) (get c.type_code postgres_oid_to_arrow)

-- the schema of `_extract`
unfoldable pub extracted_schema : (ℤ → ℤ → Reply ArrowType) → List Column → Reply Schema
unfolding arrow_type_for_column
extracted_schema decimal128 [] = answer []
extracted_schema decimal128 (c ∷ columns) = arrow_type_for_column decimal128 c >>= λ t.
    extracted_schema decimal128 columns >>= λ fields. answer ((c.name, t) ∷ fields)

abbrev index_error : Exn
index_error = record { type_name = "IndexError"; message = "tuple index out of range" }

-- row[index]
abbrev value_at : ℕ → List Value → Reply Value
value_at i [] = failure index_error
value_at zero (v ∷ row) = answer v
value_at (suc i) (v ∷ row) = value_at i row

abbrev values_at : ℕ → List (List Value) → Reply (List Value)
values_at i [] = answer []
values_at i (row ∷ rows) = value_at i row >>= λ v. values_at i rows >>= λ vs. answer (v ∷ vs)

abbrev text_or_null : (Value → String) → Value → Value
text_or_null str Value.null = Value.null
text_or_null str v = Value.text (str v)

abbrev pub texts : (Value → String) → List Value → List Value
texts str [] = []
texts str (v ∷ vs) = text_or_null str v ∷ texts str vs

-- `_column_values`
unfoldable pub column_values :
    (Value → String) → Column → ℕ → List (List Value) → Reply (List Value)
column_values str c i rows =
    values_at i rows >>= λ vs. if c.type_code == uuid_oid then answer (texts str vs) else answer vs
