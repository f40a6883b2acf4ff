-- ===== src/Processing/Core/Pipeline.antt =====
-- core/pipeline.py and core/pipeline_builder.py. An element of `stages` is a lone stage or a
-- group; `none` stands for a Python `None` in the place of a stage.
pub mod Laws
use modern_data_platform.Prelude.{
  ℕ, String, String_Eq, Bool, true, false, Option, none, some, List, [], ◌∷◌, ◌++◌, length,
  if◌then◌else◌, ◌==◌, ◌||◌, map, text_append,
}
use modern_data_platform.Processing.Outcome.{
  Exn, Outcome, returned, raised, value_error, ◌>>=◌, ◌>>◌,
}
use modern_data_platform.Processing.Core.Stage.{Stage}

pub data Item (W : Type 0) : Type 0 where
  lone : Option (Stage W) → Item W
  group : List (Option (Stage W)) → Item W

pub record Pipeline (W : Type 0) : Type 0 where
  pub id : String
  pub name : String
  pub stages : List (Item W)

-- stage.id in stage_ids
abbrev pub seen : String → List String → Bool
seen id [] = false
seen id (j ∷ ids) = id == j || seen id ids

abbrev pub duplicate_error : String → Exn
duplicate_error id =
    value_error (text_append "Duplicate stage id detected: '" (text_append id "'."))

abbrev pub null_error : Exn
null_error = value_error "Pipeline cannot contain null stages."

abbrev pub assertion_error : Exn
assertion_error = record {
  type_name = "AssertionError";
  message = "Pipeline cannot contain null stages.";
}

-- not xs
abbrev pub is_nil : {A : Type 0} → List A → Bool
is_nil [] = true
is_nil (x ∷ xs) = false

module _ {W : Type 0} where
  -- `Pipeline._flatten`
  unfoldable pub flatten : List (Item W) → List (Option (Stage W))
  flatten [] = []
  flatten (lone s ∷ items) = s ∷ flatten items
  flatten (group ss ∷ items) = ss ++ flatten items

  -- `Pipeline.groups`
  unfoldable pub groups : List (Item W) → List (List (Option (Stage W)))
  groups [] = []
  groups (lone s ∷ items) = (s ∷ []) ∷ groups items
  groups (group ss ∷ items) = ss ∷ groups items

  -- the loop over `stage_ids` in `__post_init__`; `ids` is the set so far
  unfoldable pub check_stages : List (Option (Stage W)) → List String → Outcome (Unit {0})
  check_stages [] ids = returned tt
  check_stages (none ∷ ss) ids = raised null_error
  check_stages (some s ∷ ss) ids =
      let rest = check_stages ss (s.id ∷ ids) in
      if seen s.id ids then raised (duplicate_error s.id) else rest

  -- the constructor, with `Pipeline.__post_init__`
  unfoldable pub make : String → String → List (Item W) → Outcome (Pipeline W)
  make id name stages =
      if id == ""
      then raised (value_error "Pipeline id cannot be empty.")
      else if name == ""
      then raised (value_error "Pipeline name cannot be empty.")
      else if is_nil stages
      then raised (value_error "A pipeline must contain at least one stage.")
      else check_stages (flatten stages) []
        >> returned (record { id = id; name = name; stages = stages })

  -- `_flatten_validated`, `__iter__` and `__len__`: the walk stops with an AssertionError at a None.
  unfoldable pub flatten_validated : List (Option (Stage W)) → Outcome (List (Stage W))
  flatten_validated [] = returned []
  flatten_validated (none ∷ ss) = raised assertion_error
  flatten_validated (some s ∷ ss) = flatten_validated ss >>= λ rest. returned (s ∷ rest)

  unfoldable pub stage_count : Pipeline W → Outcome ℕ
  stage_count p = flatten_validated (flatten p.stages) >>= λ ss. returned (length ss)

-- `PipelineBuilder`
pub record PipelineBuilder (W : Type 0) : Type 0 where
  pub id : String
  pub name : String
  pub stages : List (Stage W)

module _ {W : Type 0} where
  unfoldable pub builder : String → PipelineBuilder W
  builder id = record { id = id; name = id; stages = [] }

  unfoldable pub named : String → PipelineBuilder W → PipelineBuilder W
  named name b = record b { name = name }

  unfoldable pub add_stage : Option (Stage W) → PipelineBuilder W → Outcome (PipelineBuilder W)
  add_stage none b = raised (value_error "Stage cannot be None.")
  add_stage (some s) b = returned (record b { stages = b.stages ++ s ∷ [] })

  unfoldable pub add_stages :
      List (Option (Stage W)) → PipelineBuilder W → Outcome (PipelineBuilder W)
  unfolding add_stage
  add_stages [] b = returned b
  add_stages (s ∷ ss) b = add_stage s b >>= add_stages ss

  unfoldable pub build : PipelineBuilder W → Outcome (Pipeline W)
  unfolding make check_stages flatten
  build b = make b.id b.name (map (λ s. lone (some s)) b.stages)
