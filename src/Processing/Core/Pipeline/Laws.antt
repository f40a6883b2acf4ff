-- ===== src/Processing/Core/Pipeline/Laws.antt =====
-- Well-formed pipelines: what the constructor accepts, and how stages are walked.
use modern_data_platform.Prelude.{
  concat, String, String_Eq, false, Option, none, some, List, [], ◌∷◌, ◌++◌, ◌≡◌, ◌≢◌, ◌↔◌, refl,
  length, map, arith, eq_iff, append_assoc, append-nil, ◌∙◌, ap, sym,
}
use modern_data_platform.Processing.Outcome.{returned}
use modern_data_platform.Processing.Core.Stage.{Stage}
use modern_data_platform.Processing.Core.Pipeline.{
  Item, lone, group, Pipeline, seen, flatten, groups, check_stages, make, flatten_validated,
  stage_count, PipelineBuilder, builder, named, add_stages, build,
}

module _ {W : Type 0} where
  -- Walking the groups one after the other, each in order, meets the same stages in the same
  -- order as walking the pipeline: grouping never adds, drops or reorders a stage.
  pub concat-groups : (items : List (Item W)) → concat (groups items) ≡ flatten items
  unfolding groups flatten
  concat-groups [] = refl
  concat-groups (lone s ∷ items) = ap (λ r. s ∷ r) (concat-groups items)
  concat-groups (group ss ∷ items) = ap (λ r. ss ++ r) (concat-groups items)

  -- Every element is a stage, and no id occurs twice or in `ids`.
  abbrev pub IsDistinct : List (Option (Stage W)) → List String → Type 0
  IsDistinct [] ids = Unit
  IsDistinct (none ∷ ss) ids = ⊥
  IsDistinct (some s ∷ ss) ids = (seen s.id ids ≡ false) × IsDistinct ss (s.id ∷ ids)

  check_stages-IsDistinct :
      (ss : List (Option (Stage W))) (ids : List String)
      → (check_stages ss ids ≡ returned tt) ↔ IsDistinct ss ids
  unfolding check_stages
  check_stages-IsDistinct [] ids = ((λ _. tt), (λ _. refl))
  check_stages-IsDistinct (none ∷ ss) ids = ((λ h. cc), (λ h. absurd h))
  check_stages-IsDistinct (some s ∷ ss) ids =
      ground (arith, check_stages-IsDistinct ss (s.id ∷ ids))

  -- What the constructor demands: an id, a name, an element, and distinct stages.
  pub record IsWellFormed (p : Pipeline W) : Type 0 where
    pub has_id : p.id ≢ ""
    pub has_name : p.name ≢ ""
    pub has_element : p.stages ≢ []
    pub distinct : IsDistinct (flatten p.stages) []

  make_parts :
      (id name : String) (stages : List (Item W))
      → make id name stages ≡ returned (record { id = id; name = name; stages = stages })
      → (check_stages (flatten stages) [] ≡ returned tt) × (id ≢ "") × (name ≢ "") × (stages ≢ [])
  unfolding make
  make_parts id name [] h = ground (arith, eq_iff id "", eq_iff name "")
  make_parts id name (i ∷ is) h = ground (arith, eq_iff id "", eq_iff name "")

  make_of_parts :
      (id name : String) (stages : List (Item W))
      → let p : Pipeline W = record { id = id; name = name; stages = stages } in
        IsWellFormed p → make id name stages ≡ returned p
  unfolding make
  make_of_parts id name [] h = absurd (h.has_element refl)
  make_of_parts id name (i ∷ is) h =
      let checked = (check_stages-IsDistinct (flatten (i ∷ is)) []).1 h.distinct in
      ground (arith, eq_iff id "", eq_iff name "", checked)

  -- The constructor returns the pipeline of its arguments exactly when that is well-formed:
  -- it has an id, a name and an element, no element is None, and no stage id occurs twice.
  pub make-IsWellFormed :
      (p : Pipeline W) → (make p.id p.name p.stages ≡ returned p) ↔ IsWellFormed p
  make-IsWellFormed p = (
    (λ h.
        let parts = make_parts p.id p.name p.stages h in
        record {
          has_id = parts.1;
          has_name = parts.2;
          has_element = parts.3;
          distinct = (check_stages-IsDistinct (flatten p.stages) []).0 parts.0;
        }),
    make_of_parts p.id p.name p.stages,
  )

  pub make_otherwise :
      (id name : String) (stages : List (Item W)) {p : Pipeline W}
      → make id name stages ≡ returned p
      → p ≡ record { id = id; name = name; stages = stages }
  unfolding make
  make_otherwise id name stages h = ground arith

  -- In a walk of distinct stages no assertion fails, and the walk meets each of them once.
  flatten_validated-IsDistinct :
      (ss : List (Option (Stage W))) (ids : List String)
      → IsDistinct ss ids
      → (walk : List (Stage W)) × (flatten_validated ss ≡ returned walk) × (map some walk ≡ ss)
  unfolding flatten_validated
  flatten_validated-IsDistinct [] ids h = ([], refl, refl)
  flatten_validated-IsDistinct (none ∷ ss) ids h = absurd h
  flatten_validated-IsDistinct (some s ∷ ss) ids h =
      let (walk, ends, same) = flatten_validated-IsDistinct ss (s.id ∷ ids) h.1 in
      (s ∷ walk, rw ends, ap (λ r. some s ∷ r) same)

  -- In a well-formed pipeline the walk over the stages ends without an
  -- AssertionError, meets the stages of the groups in order, and is as long as `stage_count` says.
  pub walk_of_IsWellFormed :
      (p : Pipeline W)
      → IsWellFormed p
      → (walk : List (Stage W)) × (flatten_validated (flatten p.stages) ≡ returned walk)
        × (map some walk ≡ concat (groups p.stages))
        × (stage_count p ≡ returned (length walk))
  unfolding stage_count
  walk_of_IsWellFormed p h =
      let (walk, ends, same) = flatten_validated-IsDistinct (flatten p.stages) [] h.distinct in
      (walk, ends, same ∙ sym (concat-groups p.stages), rw ends)

  -- Given an id and a name, the constructor accepts a pipeline of one empty group, whose number of
  -- stages is zero.
  pub empty_group-stage_count :
      (id name : String)
      → id ≢ ""
      → name ≢ ""
      → let p : Pipeline W = record { id = id; name = name; stages = group [] ∷ [] } in
        (make {W = W} id name (group [] ∷ []) ≡ returned p) × (stage_count {W = W} p ≡ returned 0)
  unfolding make check_stages flatten stage_count flatten_validated
  empty_group-stage_count id name hi hn = (ground (arith, eq_iff id "", eq_iff name ""), refl)

  all_lone : (ss : List (Stage W)) → flatten (map (λ s. lone (some s)) ss) ≡ map some ss
  unfolding flatten
  all_lone [] = refl
  all_lone (s ∷ ss) = ap (λ r. some s ∷ r) (all_lone ss)

  add_stages_lem :
      (ss : List (Stage W)) (b : PipelineBuilder W)
      → add_stages (map some ss) b ≡ returned (record b { stages = b.stages ++ ss })
  unfolding add_stages
  add_stages_lem [] b = rw append-nil
  add_stages_lem (s ∷ ss) b =
      rw (add_stages_lem ss (record b { stages = b.stages ++ s ∷ [] }), append_assoc)

  -- A pipeline built by a builder that was given an id, a name and then stages, none of them None,
  -- has that id and name and walks over just those stages, in that order.
  pub build-add_stages :
      (id name : String) (ss : List (Stage W)) (b : PipelineBuilder W) (p : Pipeline W)
      → add_stages (map some ss) (named name (builder id)) ≡ returned b
      → build b ≡ returned p
      → (p.id ≡ id) × (p.name ≡ name) × (flatten p.stages ≡ map some ss)
  unfolding build named builder
  build-add_stages id name ss b p added built =
      let given : PipelineBuilder W = record { id = id; name = name; stages = ss } in
      let same : given ≡ b = cc (added, add_stages_lem ss (named name (builder id))) in
      let whole = make_otherwise b.id b.name (map (λ s. lone (some s)) b.stages) built in
      rw whole (rw (← same) (refl, refl, all_lone ss))
