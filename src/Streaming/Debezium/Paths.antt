-- ===== src/Streaming/Debezium/Paths.antt =====
-- What stands at a path of keys in a message.
use modern_data_platform.Prelude.{
  String, String_Eq, ◌≡◌, ◌≢◌, ◌⊎◌, List, ap, ◌∙◌, inl, inr, refl, Option, none, some, [], ◌∷◌,
}
use modern_data_platform.Prelude.Dict.{get}
use modern_data_platform.Prelude.Value.{Value}
use modern_data_platform.Processing.Outcome.{answer}
use modern_data_platform.Streaming.Debezium.{
  or_null, or_missing, entries, subscript, get_of, raw_record,
}

-- The member of an object; nothing else has members.
abbrev member : Value → String → Option Value
member (Value.object fs) key = get key (entries fs)
member _ key = none

-- what stands in a message at a path of keys
abbrev pub at : List String → Value → Option Value
at [] v = some v
at (k ∷ ks) v = elim (member v k) [ none ↦ none | some u ↦ at ks u ]

subscript_lem : (v u : Value) (k : String) → subscript v k ≡ answer u → member v k ≡ some u
unfolding subscript
subscript_lem (Value.object fs) u k h = present (get k (entries fs)) h
  where
    present : (o : Option Value) → or_missing k o ≡ answer u → o ≡ some u
    present none h = cc
    present (some v) h = cc
subscript_lem _ u k h = cc

get_of_lem : (v u : Value) (k : String) → get_of v k ≡ answer u → or_null (member v k) ≡ u
unfolding get_of
get_of_lem (Value.object fs) u k h = cc
get_of_lem _ u k h = cc

at_cons :
    (v u : Value) (k : String) (ks : List String)
    → subscript v k ≡ answer u
    → at (k ∷ ks) v ≡ at ks u
at_cons v u k ks e = ap (λ o. elim o [ none ↦ none | some t ↦ at ks t ]) (subscript_lem v u k e)

pub at_one : (v u : Value) (k : String) → subscript v k ≡ answer u → at (k ∷ []) v ≡ some u
at_one v u k e = at_cons v u k [] e

pub at_two :
    (v u t : Value) (k j : String)
    → subscript v k ≡ answer u
    → subscript u j ≡ answer t
    → at (k ∷ j ∷ []) v ≡ some t
at_two v u t k j e e' = at_cons v u k (j ∷ []) e ∙ at_cons u t j [] e'

pub at_three :
    (v u t r : Value) (k j i : String)
    → subscript v k ≡ answer u
    → subscript u j ≡ answer t
    → subscript t i ≡ answer r
    → at (k ∷ j ∷ i ∷ []) v ≡ some r
at_three v u t r k j i e e' e'' =
    at_cons v u k (j ∷ i ∷ []) e ∙ at_cons u t j (i ∷ []) e' ∙ at_cons t r i [] e''

-- a member that may be missing
pub or_null-at : (v u : Value) (k : String) → get_of v k ≡ answer u → or_null (at (k ∷ []) v) ≡ u
or_null-at v u k e = one (member v k) (get_of_lem v u k e)
  where
    one :
        (o : Option Value) → or_null o ≡ u → or_null (elim o [ none ↦ none | some w ↦ some w ]) ≡ u
    one none h = h
    one (some w) h = h

at_present :
    (v u t : Value) (k j : String)
    → subscript v k ≡ answer u
    → get_of u j ≡ answer t
    → or_null (at (k ∷ j ∷ []) v) ≡ t
at_present v u t k j e e' = ap or_null (at_cons v u k (j ∷ []) e) ∙ or_null-at u t j e'

-- The image of the row that a change is read from: `after` or, if that is null or missing, `before`.
abbrev pub Image : Value → Value → String → Value → Type 0
Image after before name raw =
    ((name ≡ "after") × (raw ≡ after) × (after ≢ Value.null))
    ⊎ ((name ≡ "before") × (raw ≡ before) × (after ≡ Value.null))

raw_record-Image :
    (after before raw : Value) (name : String)
    → raw_record after before ≡ some (raw, name)
    → Image after before name raw
raw_record-Image Value.null Value.null raw name h = cc
raw_record-Image Value.null before raw name h = inr (cc, cc, refl)
raw_record-Image after before raw name h = inl (cc, cc, λ e. cc)

pub Image-at :
    (envelope payload after before raw : Value) (name : String)
    → subscript envelope "payload" ≡ answer payload
    → get_of payload "after" ≡ answer after
    → get_of payload "before" ≡ answer before
    → raw_record after before ≡ some (raw, name)
    → Image
        (or_null (at ("payload" ∷ "after" ∷ []) envelope))
        (or_null (at ("payload" ∷ "before" ∷ []) envelope))
        name
        raw
Image-at envelope payload after before raw name e ea eb chosen =
    rw
      (
        at_present envelope payload after "payload" "after" e ea,
        at_present envelope payload before "payload" "before" e eb,
      )
      (raw_record-Image after before raw name chosen)
