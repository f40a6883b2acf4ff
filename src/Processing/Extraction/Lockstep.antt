-- ===== src/Processing/Extraction/Lockstep.antt =====
-- The batch path and the streaming path give a column of Postgres the same Arrow type.
use modern_data_platform.Prelude.{
  ℕ, ℕ_Eq, String, String_Eq, Bool, true, false, ◌≡◌, inl, inr, refl, sym, ap, ◌∙◌, Option, none,
  some, [], ◌∷◌, ◌==◌, nat_eq_iff, eq_iff, arith, Bool-cases, if◌then◌else◌,
}
use modern_data_platform.Prelude.Int.{ℤ}
use modern_data_platform.Prelude.Dict.{Dict, get}
use modern_data_platform.Processing.Outcome.{Exn, Reply, answer, failure}
use modern_data_platform.Compute.BronzeSchema.{
  ArrowType, ColumnInfo, data_type_to_arrow, arrow_type, numeric_type, or_error,
}
use modern_data_platform.Processing.Extraction.{
  Column, numeric_oid, postgres_oid_to_arrow, arrow_type_for_column,
}

-- The types of Postgres that the program names: their OIDs, and their names in information_schema.
abbrev pub postgres_types : Dict ℕ String
postgres_types =
    (16, "boolean")
    ∷ (21, "smallint")
    ∷ (23, "integer")
    ∷ (25, "text")
    ∷ (1043, "character varying")
    ∷ (1082, "date")
    ∷ (1184, "timestamp with time zone")
    ∷ (2950, "uuid")
    ∷ (1700, "numeric")
    ∷ []

-- `data_type_of` names the type of an OID the way Postgres does.
pub record Catalog (data_type_of : ℕ → String) : Type 0 where
  pub documented : (oid : ℕ) (t : String) → get oid postgres_types ≡ some t → data_type_of oid ≡ t
  pub unique : (oid oid' : ℕ) → get oid postgres_types ≡ some (data_type_of oid') → oid' ≡ oid

-- the column as information_schema describes it
abbrev pub described : (ℕ → String) → Column → ColumnInfo
described data_type_of c = record {
  name = c.name;
  data_type = data_type_of c.type_code;
  precision = c.precision;
  scale = c.scale;
}

-- the same type, or errors of one type
abbrev pub Agree : Reply ArrowType → Reply ArrowType → Type 0
Agree (answer t) (answer u) = t ≡ u
Agree (failure e) (failure d) = e.type_name ≡ d.type_name
Agree _ _ = ⊥

Agree-refl : (r : Reply ArrowType) → Agree r r
Agree-refl (answer t) = refl
Agree-refl (failure e) = refl

Agree-numeric_type :
    (decimal128 : ℤ → ℤ → Reply ArrowType) (e d : Exn) (p s : Option ℤ)
    → e.type_name ≡ d.type_name
    → Agree (numeric_type decimal128 e p s) (numeric_type decimal128 d p s)
Agree-numeric_type decimal128 e d (some p) (some s) h = Agree-refl (decimal128 p s)
Agree-numeric_type decimal128 e d (some p) none h = h
Agree-numeric_type decimal128 e d none s h = h

Agree-or_error :
    (e d : Exn) (o : Option ArrowType)
    → e.type_name ≡ d.type_name
    → Agree (or_error e o) (or_error d o)
Agree-or_error e d none h = h
Agree-or_error e d (some t) h = refl

module _ (data_type_of : ℕ → String) (catalog : Catalog data_type_of) (oid : ℕ) where
  -- a test of the name is a test of the OID
  same_test :
      (k : ℕ) (t : String) → get k postgres_types ≡ some t → (t == data_type_of oid) ≡ (k == oid)
  same_test k t h = elim (Bool-cases (k == oid)) [
    | inl same ↦
        let e : k ≡ oid = (nat_eq_iff k oid).0 same in
        let named : data_type_of oid ≡ t = ap data_type_of (sym e) ∙ catalog.documented k t h in
        (eq_iff t (data_type_of oid)).1 (sym named) ∙ sym same
    | inr other ↦ elim (Bool-cases (t == data_type_of oid)) [
      | inr unnamed ↦ unnamed ∙ sym other
      | inl named ↦
          let e : oid ≡ k =
            catalog.unique k oid (h ∙ ap some ((eq_iff t (data_type_of oid)).0 named)) in
          let same : (k == oid) ≡ true = (nat_eq_iff k oid).1 (sym e) in cc
    ]
  ]

  tables_agree : get (data_type_of oid) data_type_to_arrow ≡ get oid postgres_oid_to_arrow
  tables_agree =
      rw
        (
          same_test 16 "boolean" refl,
          same_test 21 "smallint" refl,
          same_test 23 "integer" refl,
          same_test 25 "text" refl,
          same_test 1043 "character varying" refl,
          same_test 1082 "date" refl,
          same_test 1184 "timestamp with time zone" refl,
          same_test 2950 "uuid" refl,
        )
        refl

  numeric_agrees : (data_type_of oid == "numeric") ≡ (oid == numeric_oid)
  numeric_agrees = ground (
    arith,
    same_test 1700 "numeric" refl,
    eq_iff "numeric" (data_type_of oid),
    eq_iff (data_type_of oid) "numeric",
  )

-- For every column of every Postgres type, the streaming path and the batch path choose the same
-- Arrow type, or both refuse the column with errors of one type. `data_type_of` names each type as
-- Postgres documents it, and `decimal128` is the same constructor for both.
pub arrow_type-arrow_type_for_column :
    (data_type_of : ℕ → String) (decimal128 : ℤ → ℤ → Reply ArrowType) (c : Column)
    → Catalog data_type_of
    → Agree (arrow_type decimal128 (described data_type_of c)) (arrow_type_for_column decimal128 c)
unfolding arrow_type arrow_type_for_column
arrow_type-arrow_type_for_column data_type_of decimal128 c catalog =
    rw
      (
        numeric_agrees data_type_of catalog c.type_code,
        tables_agree data_type_of catalog c.type_code,
      )
      (by_test (c.type_code == numeric_oid) _ _ _ _ (get c.type_code postgres_oid_to_arrow) refl
        refl)
  where
    by_test :
        (numeric : Bool) (e d e' d' : Exn) (o : Option ArrowType)
        → e.type_name ≡ d.type_name
        → e'.type_name ≡ d'.type_name
        → Agree
            (if numeric then numeric_type decimal128 e c.precision c.scale else or_error e' o)
            (if numeric then numeric_type decimal128 d c.precision c.scale else or_error d' o)
    by_test true e d e' d' o h h' = Agree-numeric_type decimal128 e d c.precision c.scale h
    by_test false e d e' d' o h h' = Agree-or_error e' d' o h'
