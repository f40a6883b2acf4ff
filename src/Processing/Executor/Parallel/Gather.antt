-- ===== src/Processing/Executor/Parallel/Gather.antt =====
-- Gathering the members of a group ends under every scheduler, with the built-in policies.
use modern_data_platform.Prelude.{
  ℕ, zero, suc, ◌+◌, ◌-◌, ◌≤◌, ◌≡◌, inl, inr, refl, ap, ◌∙◌, Bool, true, false, Option, none, some,
  List, [], ◌∷◌, length, arith, Bool-cases,
}
use modern_data_platform.Processing.Outcome.{Exn, Outcome, returned, raised}
use modern_data_platform.Processing.Core.Results.{StageResult}
use modern_data_platform.Processing.Core.Stage.{Stage, StageVars}
use modern_data_platform.Processing.Core.Pipeline.{Pipeline}
use modern_data_platform.Processing.Machine.{Machine}
use modern_data_platform.Processing.Policies.Laws.{AllBuiltin}
use modern_data_platform.Processing.Executor.Base.{Executor}
use modern_data_platform.Processing.Executor.Parallel.{
  Phase, Task, phase_done, all_done, outcome_of, outcomes, new_tasks, step_phase, step_task,
  step_one, gather,
}
use modern_data_platform.Processing.Executor.Parallel.Costs.{registrations, cost}
use modern_data_platform.Processing.Executor.Parallel.Tasks.{advance-Stepped}
use modern_data_platform.Processing.Executor.Parallel.Phases.{EndOk, PhaseOk}

abbrev pub AllEnded : List (Outcome (StageResult × Bool)) → Type 0
AllEnded [] = Unit
AllEnded (o ∷ os) = EndOk o × AllEnded os

module _ {W : Type 0} where
  abbrev StageOk : Option (Stage W) → StageVars → Phase W → Type 0
  StageOk none v phase = (e : Exn) × (phase ≡ Phase.ended (raised e))
  StageOk (some s) v phase = PhaseOk s v phase

  abbrev stage_cost : ℕ → Option (Stage W) → Phase W → ℕ
  stage_cost hooks none phase = 0
  stage_cost hooks (some s) phase = cost hooks s phase

  abbrev AllOk : List (Task W) → Type 0
  AllOk [] = Unit
  AllOk (t ∷ ts) = StageOk t.stage t.vars t.phase × AllOk ts

  abbrev total_cost : ℕ → List (Task W) → ℕ
  total_cost hooks [] = 0
  total_cost hooks (t ∷ ts) = stage_cost hooks t.stage t.phase + total_cost hooks ts

  -- the steps that a group may take: those of its members together
  abbrev pub group_cost : ℕ → List (Option (Stage W)) → ℕ
  group_cost hooks [] = 0
  group_cost hooks (none ∷ group) = group_cost hooks group
  group_cost hooks (some s ∷ group) = cost hooks s Phase.starting + group_cost hooks group

  new_tasks-AllOk : (v : StageVars) (group : List (Option (Stage W))) → AllOk (new_tasks v group)
  new_tasks-AllOk v [] = tt
  new_tasks-AllOk v (none ∷ group) = ((_, refl), new_tasks-AllOk v group)
  new_tasks-AllOk v (some s ∷ group) = (tt, new_tasks-AllOk v group)

  new_tasks-cost :
      (hooks : ℕ) (v : StageVars) (group : List (Option (Stage W)))
      → total_cost hooks (new_tasks v group) ≡ group_cost hooks group
  new_tasks-cost hooks v [] = refl
  new_tasks-cost hooks v (none ∷ group) = omega (arith, new_tasks-cost hooks v group)
  new_tasks-cost hooks v (some s ∷ group) = omega (arith, new_tasks-cost hooks v group)

  pub length-new_tasks :
      (v : StageVars) (group : List (Option (Stage W))) → length (new_tasks v group) ≡ length group
  length-new_tasks v [] = refl
  length-new_tasks v (none ∷ group) = ap suc (length-new_tasks v group)
  length-new_tasks v (some s ∷ group) = ap suc (length-new_tasks v group)

  length-outcomes : (ts : List (Task W)) → length (outcomes ts) ≡ length ts
  length-outcomes [] = refl
  length-outcomes (t ∷ ts) = ap suc (length-outcomes ts)

  done-EndOk :
      (s : Option (Stage W)) (v : StageVars) (phase : Phase W)
      → StageOk s v phase
      → phase_done phase ≡ true
      → EndOk (outcome_of phase)
  done-EndOk none v phase (e, same) done = rw same tt
  done-EndOk (some s) v (Phase.ended o) h done = h
  done-EndOk (some s) v Phase.starting h done = cc
  done-EndOk (some s) v (Phase.hooking hs c after) h done = cc
  done-EndOk (some s) v (Phase.calling a) h done = cc
  done-EndOk (some s) v (Phase.deciding a e) h done = cc
  done-EndOk (some s) v (Phase.judging r) h done = cc

  outcomes-AllEnded : (ts : List (Task W)) → AllOk ts → all_done ts ≡ true → AllEnded (outcomes ts)
  outcomes-AllEnded [] h done = tt
  outcomes-AllEnded (t ∷ ts) h done = (
    done-EndOk t.stage t.vars t.phase h.0 (ground arith),
    outcomes-AllEnded ts h.1 (ground arith),
  )

-- What a step of one of the tasks `ts` leaves.
record Moved {W : Type 0} (hooks : ℕ) (ts : List (Task W)) (m : Machine W) (ts' : List (Task W))
    (m' : Machine W) : Type 0 where
  all_ok : AllOk ts'
  cheaper : total_cost hooks ts' + 1 ≤ total_cost hooks ts
  same_length : length ts' ≡ length ts
  same_results : m'.stage_results ≡ m.stage_results

module _ {W : Type 0} (x : Executor W) (p : Pipeline W) (builtin : AllBuiltin x.policies) where
  abbrev H : ℕ
  H = registrations x.hook_manager

  step_phase-Moved :
      (s : Option (Stage W)) (t : Task W) (ts : List (Task W)) (m : Machine W)
      → t.stage ≡ s
      → StageOk s t.vars t.phase
      → AllOk ts
      → phase_done t.phase ≡ false
      → let (t', m') = step_phase x p s t m in Moved H (t ∷ ts) m (t' ∷ ts) m'
  step_phase-Moved none t ts m e h all open_ =
      let closed : phase_done t.phase ≡ true = rw h.1 refl in cc
  step_phase-Moved (some s) t ts m e h all open_ =
      let step = advance-Stepped x p s builtin t.phase (record m { vars = t.vars }) h open_ in
      record {
        all_ok = (rw e step.is_ok, all);
        cheaper = rw e (omega (arith, step.cheaper));
        same_length = refl;
        same_results = step.same_results;
      }

  -- a task that did not run
  Moved-cons :
      (t : Task W) (ts ts' : List (Task W)) (m m' : Machine W)
      → StageOk t.stage t.vars t.phase
      → Moved H ts m ts' m'
      → Moved H (t ∷ ts) m (t ∷ ts') m'
  Moved-cons t ts ts' m m' h g = record {
    all_ok = (h, g.all_ok);
    cheaper = omega (arith, g.cheaper);
    same_length = ap suc g.same_length;
    same_results = g.same_results;
  }

  step_task-Moved :
      (t : Task W) (ts : List (Task W)) (m : Machine W)
      → AllOk (t ∷ ts)
      → phase_done t.phase ≡ false
      → let (t', m') = step_task x p t m in Moved H (t ∷ ts) m (t' ∷ ts) m'
  unfolding step_task
  step_task-Moved t ts m h open_ = step_phase-Moved t.stage t ts m refl h.0 h.1 open_

  step_one-Moved :
      (k : ℕ) (ts : List (Task W)) (m : Machine W)
      → AllOk ts
      → all_done ts ≡ false
      → let (ts', m') = step_one x p k ts m in Moved H ts m ts' m'
  unfolding step_one
  step_one-Moved k [] m h e = cc
  step_one-Moved zero (t ∷ ts) m h e = elim (Bool-cases (phase_done t.phase)) [
    | inl done ↦ rw done (
        Moved-cons t ts (step_one x p zero ts m).0 m (step_one x p zero ts m).1 h.0
          (step_one-Moved zero ts m h.1 (ground arith)))
    | inr open_ ↦ rw open_ (step_task-Moved t ts m h open_)
  ]
  step_one-Moved (suc k) (t ∷ ts) m h e = elim (Bool-cases (phase_done t.phase)) [
    | inl done ↦ rw done (
        Moved-cons t ts (step_one x p (suc k) ts m).0 m (step_one x p (suc k) ts m).1 h.0
          (step_one-Moved (suc k) ts m h.1 (ground arith)))
    | inr open_ ↦ elim (Bool-cases (all_done ts)) [
      | inl others ↦ rw (open_, others) (step_task-Moved t ts m h open_)
      | inr others ↦
          rw (open_, others)
            (Moved-cons t ts (step_one x p (suc k - 1) ts m).0 m (step_one x p (suc k - 1) ts m).1
              h.0 (step_one-Moved (suc k - 1) ts m h.1 others))
    ]
  ]

  -- How a gathering ends.
  pub record Gathered (ts : List (Task W)) (m : Machine W)
      (o : Outcome (List (Outcome (StageResult × Bool)))) (m' : Machine W) : Type 0 where
    pub os : List (Outcome (StageResult × Bool))
    pub returns : o ≡ returned os
    pub all_ended : AllEnded os
    pub one_each : length os ≡ length ts
    pub untouched : m'.stage_results ≡ m.stage_results

  Gathered-now :
      (ts : List (Task W)) (m : Machine W)
      → AllOk ts
      → all_done ts ≡ true
      → Gathered ts m (returned (outcomes ts)) m
  Gathered-now ts m h done = record {
    os = outcomes ts;
    returns = refl;
    all_ended = outcomes-AllEnded ts h done;
    one_each = length-outcomes ts;
    untouched = refl;
  }

  Gathered-later :
      (ts ts' : List (Task W)) (m m' : Machine W)
      (o : Outcome (List (Outcome (StageResult × Bool)))) (m'' : Machine W)
      → Moved H ts m ts' m'
      → Gathered ts' m' o m''
      → Gathered ts m o m''
  Gathered-later ts ts' m m' o m'' g h = record {
    os = h.os;
    returns = h.returns;
    all_ended = h.all_ended;
    one_each = h.one_each ∙ g.same_length;
    untouched = h.untouched ∙ g.same_results;
  }

  gather_lem :
      (choose : List (Task W) → Machine W → ℕ) (fuel : ℕ) (ts : List (Task W)) (m : Machine W)
      → AllOk ts
      → total_cost H ts ≤ fuel
      → let (o, m') = gather x p choose fuel ts m in Gathered ts m o m'
  unfolding gather
  gather_lem choose zero ts m h enough = elim (Bool-cases (all_done ts)) [
    | inl done ↦ rw done (Gathered-now ts m h done)
    | inr more ↦ absurd (omega (arith, enough, (step_one-Moved 0 ts m h more).cheaper))
  ]
  gather_lem choose (suc fuel) ts m h enough = elim (Bool-cases (all_done ts)) [
    | inl done ↦ rw done (Gathered-now ts m h done)
    | inr more ↦
        let (ts', m') = step_one x p (choose ts m) ts m in
        let moved = step_one-Moved (choose ts m) ts m h more in
        let (o, m'') = gather x p choose fuel ts' m' in
        rw more (
          Gathered-later ts ts' m m' o m'' moved
            (gather_lem choose fuel ts' m' moved.all_ok (omega (arith, enough, moved.cheaper))))
  ]

  -- With the built-in policies, and fuel for the steps that the members of a group may take, their
  -- hooks included, gathering the group ends under every scheduler, whatever the stages and the hooks
  -- do. It returns an outcome for each member, in which a member asks for a cancellation only with a
  -- failed result, and it adds nothing to the results of the execution.
  pub gather-Gathered :
      (choose : List (Task W) → Machine W → ℕ) (fuel : ℕ) (group : List (Option (Stage W)))
      (m : Machine W)
      → group_cost H group ≤ fuel
      → let (o, m') = gather x p choose fuel (new_tasks m.vars group) m in
        Gathered (new_tasks m.vars group) m o m'
  gather-Gathered choose fuel group m enough =
      gather_lem choose fuel (new_tasks m.vars group) m (new_tasks-AllOk m.vars group)
        (omega (arith, enough, new_tasks-cost H m.vars group))
