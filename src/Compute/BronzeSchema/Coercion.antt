-- ===== src/Compute/BronzeSchema/Coercion.antt =====
-- What `coerce_record` does to each column.
use mathlib.Core.Path.{subst}
use modern_data_platform.Prelude.{
  String, String_Eq, true, false, ◌≡◌, inl, inr, refl, sym, ap, ◌∙◌, Option, none, some, List, [],
  ◌∷◌, ◌==◌, eq_iff, arith, Bool-cases, if◌then◌else◌,
}
use modern_data_platform.Prelude.Int.{ℤ}
use modern_data_platform.Prelude.Dict.{get, put, get-put}
use modern_data_platform.Prelude.Value.{Value}
use modern_data_platform.Streaming.Debezium.{Row}
use modern_data_platform.Compute.BronzeSchema.{
  ArrowType, decimal, Schema, coerce_value, coerce_field, coerce_record,
}

-- the scale of a column, by its first decimal field
abbrev pub scale_of : String → Schema → Option ℤ
scale_of c [] = none
scale_of c ((name, decimal p s) ∷ schema) =
    let rest = scale_of c schema in if name == c then some s else rest
scale_of c ((name, _) ∷ schema) = scale_of c schema

-- what a value of a column with that scale is to become
abbrev pub coerced : (String → ℤ → String) → Option ℤ → Value → Value
coerced rounded (some s) (Value.float f) = Value.decimal (rounded f s)
coerced rounded _ v = v

abbrev pub coerced? : (String → ℤ → String) → Option ℤ → Option Value → Option Value
coerced? rounded scale none = none
coerced? rounded scale (some v) = some (coerced rounded scale v)

abbrev pub columns_of : Row → List String
columns_of [] = []
columns_of ((c, v) ∷ row) = c ∷ columns_of row

columns_of-put :
    (c : String) (v w : Value) (row : Row)
    → get c row ≡ some v
    → columns_of (put c w row) ≡ columns_of row
columns_of-put c v w [] h = cc
columns_of-put c v w ((c', v') ∷ row) h = elim (Bool-cases (c' == c)) [
  | inl same ↦ rw same refl
  | inr other ↦ rw other (ap (λ cs. c' ∷ cs) (columns_of-put c v w row (ground arith)))
]

module _ (rounded : String → ℤ → String) where
  -- a value that is no float stays, whatever the scale
  settled :
      (scale : Option ℤ) (s : ℤ) (v : Value)
      → coerced rounded scale (coerced rounded (some s) v) ≡ coerced rounded (some s) v
  settled none s v = refl
  settled (some s') s (Value.float f) = refl
  settled (some s') s v = refl

  get_other-coerce_value :
      (c name : String) (s : ℤ) (row : Row) (o : Option Value)
      → (name == c) ≡ false
      → get c (coerce_value rounded name s o row) ≡ get c row
  get_other-coerce_value c name s row (some (Value.float f)) other =
      get-put name c (Value.decimal (rounded f s)) row ∙ rw other refl
  get_other-coerce_value c name s row none other = refl
  get_other-coerce_value c name s row (some v) other = refl

  get_same-coerce_value :
      (name : String) (s : ℤ) (row : Row) (o : Option Value)
      → get name row ≡ o
      → get name (coerce_value rounded name s o row) ≡ coerced? rounded (some s) o
  get_same-coerce_value name s row (some (Value.float f)) h =
      get-put name name (Value.decimal (rounded f s)) row ∙ ground (arith, eq_iff name name)
  get_same-coerce_value name s row none h = h
  get_same-coerce_value name s row (some v) h = h

  settled? :
      (scale : Option ℤ) (s : ℤ) (o : Option Value)
      → coerced? rounded scale (coerced? rounded (some s) o) ≡ coerced? rounded (some s) o
  settled? scale s none = refl
  settled? scale s (some v) = ap some (settled scale s v)

  -- a decimal field at the head of the schema
  get-coerce_value :
      (c name : String) (s : ℤ) (scale : Option ℤ) (row : Row)
      → coerced? rounded scale (get c (coerce_value rounded name s (get name row) row))
        ≡ coerced? rounded (if name == c then some s else scale) (get c row)
  get-coerce_value c name s scale row = elim (Bool-cases (name == c)) [
    | inr other ↦ rw (other, get_other-coerce_value c name s row (get name row) other) refl
    | inl same ↦
        let e : name ≡ c = (eq_iff name c).0 same in
        subst
          (λ d.
            coerced? rounded scale (get d (coerce_value rounded name s (get name row) row))
            ≡ coerced? rounded (if name == d then some s else scale) (get d row))
          e
          (rw (get_same-coerce_value name s row (get name row) refl, rw_same name)
            (settled? scale s (get name row)))
  ]
    where
      rw_same : (d : String) → (d == d) ≡ true
      rw_same d = (eq_iff d d).1 refl

  columns_of-coerce_value :
      (name : String) (s : ℤ) (row : Row) (o : Option Value)
      → get name row ≡ o
      → columns_of (coerce_value rounded name s o row) ≡ columns_of row
  columns_of-coerce_value name s row none h = refl
  columns_of-coerce_value name s row (some (Value.float f)) h =
      columns_of-put name (Value.float f) (Value.decimal (rounded f s)) row h
  columns_of-coerce_value name s row (some v) h = refl

  columns_of-coerce_field :
      (name : String) (t : ArrowType) (row : Row)
      → columns_of (coerce_field rounded name t row) ≡ columns_of row
  columns_of-coerce_field name (decimal p s) row =
      columns_of-coerce_value name s row (get name row) refl
  columns_of-coerce_field name t row = refl

  columns_of-coerce_record :
      (row : Row) (schema : Schema) → columns_of (coerce_record rounded row schema) ≡ columns_of row
  unfolding coerce_record
  columns_of-coerce_record row [] = refl
  columns_of-coerce_record row ((name, t) ∷ schema) =
      columns_of-coerce_record (coerce_field rounded name t row) schema
      ∙ columns_of-coerce_field name t row

  coerced?-none : (o : Option Value) → coerced? rounded none o ≡ o
  coerced?-none none = refl
  coerced?-none (some v) = refl

  get-coerce_record :
      (c : String) (row : Row) (schema : Schema)
      → get c (coerce_record rounded row schema) ≡ coerced? rounded (scale_of c schema) (get c row)
  unfolding coerce_record
  get-coerce_record c row [] = sym (coerced?-none (get c row))
  get-coerce_record c row ((name, decimal p s) ∷ schema) =
      get-coerce_record c (coerce_field rounded name (decimal p s) row) schema
      ∙ get-coerce_value c name s (scale_of c schema) row
  get-coerce_record c row ((name, t) ∷ schema) = get-coerce_record c row schema

  -- `coerce_record` keeps the columns and their order. In a column that the schema gives as a
  -- decimal, a float becomes the Decimal that it rounds to at the scale of the column's first
  -- decimal field; every other value is unchanged.
  pub coerce_record_lem :
      (row : Row) (schema : Schema)
      → (columns_of (coerce_record rounded row schema) ≡ columns_of row)
        × ((c : String)
            → get c (coerce_record rounded row schema)
              ≡ coerced? rounded (scale_of c schema) (get c row))
  coerce_record_lem row schema =
      (columns_of-coerce_record row schema, λ c. get-coerce_record c row schema)
