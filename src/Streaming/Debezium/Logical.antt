-- ===== src/Streaming/Debezium/Logical.antt =====
-- What `_logical_types_for` reads from the schema of an envelope.
use modern_data_platform.Prelude.{
  String, String_Eq, Bool, true, false, ◌≡◌, ◌⊎◌, ap, ◌∙◌, inl, inr, refl, sym, Option, none, some,
  List, [], ◌∷◌, eq_iff, if◌then◌else◌,
}
use modern_data_platform.Prelude.Dict.{Dict, get, put, get-put}
use modern_data_platform.Prelude.Value.{Value}
use modern_data_platform.Processing.Outcome.{answer}
use modern_data_platform.Processing.Outcome.Replies.{by_answer, ◌>>=◌}
use modern_data_platform.Streaming.Debezium.{
  or_null, subscript, get_of, is_text, iterate, enter, column_types, struct_columns, find_struct,
  logical_types_for,
}
use modern_data_platform.Streaming.Debezium.Paths.{at, at_one, or_null-at}

-- The `name` of the last of the columns whose `field` is `c`; `o` if there is none.
abbrev pub last_type : String → List Value → Option Value → Option Value
last_type c [] o = o
last_type c (column ∷ columns) o = last_type c columns (
    if is_text c (or_null (at ("field" ∷ []) column))
    then some (or_null (at ("name" ∷ []) column))
    else o)

abbrev Among : Value → List Value → Type 0
Among v [] = ⊥
Among v (u ∷ us) = (v ≡ u) ⊎ Among v us

enter_lem :
    (c : String) (k v : Value) (d d' : Dict String Value)
    → enter k v d ≡ answer d'
    → get c d' ≡ (if is_text c k then some v else get c d)
unfolding enter
enter_lem c (Value.text k) v d d' h =
    let same : d' ≡ put k v d = cc in ap (get c) same ∙ get-put k c v d
enter_lem c _ v d d' h = let same : d' ≡ d = cc in ap (get c) same

column_types_lem :
    (c : String) (columns : List Value) (d d' : Dict String Value)
    → column_types columns d ≡ answer d'
    → get c d' ≡ last_type c columns (get c d)
unfolding column_types
column_types_lem c [] d d' h = let same : d' ≡ d = cc in ap (get c) same
column_types_lem c (column ∷ columns) d d' h =
    by_answer (subscript column "field") _ d' h λ k k_eq h₁.
      by_answer (get_of column "name") _ d' h₁ λ v v_eq h₂.
        by_answer (enter k v d) _ d' h₂ λ d₁ d₁_eq h₃.
          column_types_lem c columns d₁ d' h₃
          ∙ ap (last_type c columns) (
              enter_lem c k v d d₁ d₁_eq
              ∙ ap (λ k. if is_text c k then some v else get c d)
                  (sym (ap or_null (at_one column k "field" k_eq)))
              ∙ ap (λ v. if is_text c (or_null (at ("field" ∷ []) column)) then some v else get c d)
                  (sym (or_null-at column v "name" v_eq)))

is_text_lem : (s : String) (v : Value) → is_text s v ≡ true → v ≡ Value.text s
is_text_lem s (Value.text t) h = ap Value.text ((eq_iff t s).0 h)
is_text_lem s _ h = cc

-- The struct field of the schema that is called `name`, and the types of its columns.
pub record Described (schema : Value) (name : String) (types : Dict String Value) : Type 0 where
  pub fields_value : Value
  pub fields : List Value
  pub struct : Value
  pub columns_value : Value
  pub columns : List Value
  pub fields_at : at ("fields" ∷ []) schema ≡ some fields_value
  pub fields_eq : iterate fields_value ≡ answer fields
  pub is_field : Among struct fields
  pub is_named : or_null (at ("field" ∷ []) struct) ≡ Value.text name
  pub is_struct : or_null (at ("type" ∷ []) struct) ≡ Value.text "struct"
  pub columns_at : at ("fields" ∷ []) struct ≡ some columns_value
  pub columns_eq : iterate columns_value ≡ answer columns
  pub types_eq : (c : String) → get c types ≡ last_type c columns none

-- The struct field that is found.
abbrev Found : String → List Value → Dict String Value → Type 0
Found name fields types =
    (struct : Value) × Among struct fields
    × (or_null (at ("field" ∷ []) struct) ≡ Value.text name)
    × (or_null (at ("type" ∷ []) struct) ≡ Value.text "struct")
    × (struct_columns struct ≡ answer types)

-- how the search goes on at the head of the fields
module _ (name : String) (field : Value) (fields : List Value) (types : Dict String Value)
    (later : find_struct name fields ≡ answer types → Found name (field ∷ fields) types) where
  by_type :
      (f t : Value)
      → or_null (at ("field" ∷ []) field) ≡ f
      → is_text name f ≡ true
      → or_null (at ("type" ∷ []) field) ≡ t
      → (b : Bool) → is_text "struct" t ≡ b
      → (if b then struct_columns field else find_struct name fields) ≡ answer types
      → Found name (field ∷ fields) types
  by_type f t f_at named t_at true is_struct h =
      (field, inl refl, f_at ∙ is_text_lem name f named, t_at ∙ is_text_lem "struct" t is_struct, h)
  by_type f t f_at named t_at false is_struct h = later h

  by_name :
      (f : Value)
      → or_null (at ("field" ∷ []) field) ≡ f
      → (b : Bool) → is_text name f ≡ b
      → (if b
          then (get_of field "type" >>= λ t.
              if is_text "struct" t then struct_columns field else find_struct name fields)
          else find_struct name fields)
        ≡ answer types
      → Found name (field ∷ fields) types
  by_name f f_at true named h = by_answer (get_of field "type") _ types h λ t t_eq h₁.
      by_type f t f_at named (or_null-at field t "type" t_eq) (is_text "struct" t) refl h₁
  by_name f f_at false named h = later h

find_later :
    (name : String) (field : Value) (fields : List Value) (types : Dict String Value)
    → (find_struct name fields ≡ answer types → Found name fields types)
    → find_struct name fields ≡ answer types
    → Found name (field ∷ fields) types
find_later name field fields types earlier h =
    let (struct, inside, named, typed, made) = earlier h in (struct, inr inside, named, typed, made)

find_struct_lem :
    (name : String) (fields : List Value) (types : Dict String Value)
    → find_struct name fields ≡ answer types
    → Found name fields types
unfolding find_struct
find_struct_lem name [] types h = cc
find_struct_lem name (field ∷ fields) types h =
    by_answer (get_of field "field") _ types h λ f f_eq h₁.
      by_name name field fields types
        (find_later name field fields types (find_struct_lem name fields types)) f
        (or_null-at field f "field" f_eq) (is_text name f) refl h₁

-- If the logical types of a field are read, the schema has a struct field of that name, and the type
-- of each column is the one that the last description of that column gives.
pub logical_types_for-Described :
    (schema : Value) (name : String) (types : Dict String Value)
    → logical_types_for schema name ≡ answer types
    → Described schema name types
unfolding logical_types_for struct_columns
logical_types_for-Described schema name types h =
    by_answer (subscript schema "fields") _ types h λ v v_eq h₁.
      by_answer (iterate v) _ types h₁ λ fields fields_eq h₂.
        let (struct, inside, named, typed, made) = find_struct_lem name fields types h₂ in
        by_answer (subscript struct "fields") _ types made λ u u_eq h₃.
          by_answer (iterate u) _ types h₃ λ columns columns_eq h₄. record {
            fields_value = v;
            fields = fields;
            struct = struct;
            columns_value = u;
            columns = columns;
            fields_at = at_one schema v "fields" v_eq;
            fields_eq = fields_eq;
            is_field = inside;
            is_named = named;
            is_struct = typed;
            columns_at = at_one struct u "fields" u_eq;
            columns_eq = columns_eq;
            types_eq = λ c. column_types_lem c columns [] types h₄;
          }
