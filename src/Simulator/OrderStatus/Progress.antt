-- ===== src/Simulator/OrderStatus/Progress.antt =====
-- A tick moves each order by one step at most.
use mathlib.Core.Path.{subst}
use modern_data_platform.Prelude.{
  ℕ, ◌+◌, ◌*◌, ◌≤◌, ℕ_Eq, String, String_Eq, true, false, ◌≡◌, ◌⊎◌, inl, inr, refl, sym, ap, Option,
  none, some, List, [], ◌∷◌, ◌==◌, All, arith, Bool-cases, leb, is_some,
}
use modern_data_platform.Prelude.Dict.{get, contains}
use modern_data_platform.Simulator.OrderStatus.{
  Order, Tables, Rule, Tick, Floats, forward_rules, cancel_probability, or_zero,
  candidates_per_status_per_tick, is_eligible, is_at, set_status, find_eligible, transition, cancel,
  advance, decide, roll_candidates, apply_rules, progress_eligible_orders,
}
use modern_data_platform.Simulator.OrderStatus.Candidates.{
  elem, ids_of, UniqueIds, find, IsFound, All-IsFound, find_eligible-elem,
}
use modern_data_platform.Simulator.OrderStatus.Steps.{
  Moved, OneOf, Pointwise, Pointwise-map, Pointwise-refl, Pointwise-weaken, Pointwise-with,
  ids_of-Pointwise,
}

-- An order that a rule has still to roll for has not been moved.
abbrev Ready : ℕ → Rule → List ℕ → Order → Order → Type 0
Ready now rule ids o o' =
    Moved now o o'
    × ((o'.status == rule.status) ≡ true
        → elem o'.order_id ids ≡ true
        → (o' ≡ o) × (is_eligible rule.status rule.min_age_seconds now o ≡ true))

abbrev Goal : Rule → String → Type 0
Goal rule status =
    (status ≡ rule.next_status)
    ⊎ ((status ≡ "CANCELLED") × (contains rule.status cancel_probability ≡ true))

module _ (now : ℕ) (rule : Rule) (one : OneOf rule forward_rules) where
  Ready-skip :
      (id : ℕ) (ids : List ℕ) (o o' : Order)
      → Ready now rule (id ∷ ids) o o'
      → Ready now rule ids o o'
  Ready-skip id ids o o' h = (h.0, λ e e'. h.1 e (ground arith))

  Ready-set_status :
      (id : ℕ) (ids : List ℕ) (status : String) (o o' : Order)
      → (status == rule.status) ≡ false
      → Goal rule status
      → Ready now rule (id ∷ ids) o o'
      → Ready now rule ids o (set_status id rule.status status now o')
  Ready-set_status id ids status o o' apart goal h = elim (Bool-cases (is_at id rule.status o')) [
    | inr elsewhere ↦ rw elsewhere (Ready-skip id ids o o' h)
    | inl here ↦
        let (same, eligible) = h.1 (ground arith) (ground arith) in
        rw here (
          inr (
            rule,
            one,
            record {
              eligible = eligible;
              same_id = ap (λ o. o.order_id) same;
              touched = refl;
              goal = goal;
            },
          ),
          λ e e'. cc,
        )
  ]

  -- an order that a rule picks has not been moved: it would be too young
  Ready-candidates :
      (orders : List Order) (limit : ℕ) (o o' : Order)
      → UniqueIds (ids_of orders)
      → 1 ≤ rule.min_age_seconds
      → IsFound orders o'
      → Moved now o o'
      → Ready now rule (find_eligible rule.status rule.min_age_seconds limit now orders) o o'
  Ready-candidates orders limit o o' unique positive found moved = (
    moved,
    λ e picked.
        unmoved
          (find_eligible-elem rule.status rule.min_age_seconds limit now orders o'.order_id unique
            picked)
          moved,
  )
    where
      unmoved :
          (c : Order) × (find o'.order_id orders ≡ some c)
            × (is_eligible rule.status rule.min_age_seconds now c ≡ true)
          → Moved now o o'
          → (o' ≡ o) × (is_eligible rule.status rule.min_age_seconds now o ≡ true)
      unmoved (c, c_found, eligible) (inl e) = let same : c ≡ o = cc in (e, rw (sym same) eligible)
      unmoved (c, c_found, eligible) (inr (r, r_one, step)) =
          let same : c ≡ o' = cc in
          let eligible' : is_eligible rule.status rule.min_age_seconds now o' ≡ true =
            rw (sym same) eligible in
          let old : leb (o'.updated_at + rule.min_age_seconds * 1000000) now ≡ true =
            ground arith in
          absurd (ground (arith, step.touched, positive, old))

-- what the rules of the program have in common
record RuleOk (rule : Rule) : Type 0 where
  one : OneOf rule forward_rules
  moves_on : (rule.next_status == rule.status) ≡ false
  not_cancelled : ("CANCELLED" == rule.status) ≡ false
  positive : 1 ≤ rule.min_age_seconds

forward_rules-RuleOk : All RuleOk forward_rules
forward_rules-RuleOk = (
  record { one = inl refl; moves_on = refl; not_cancelled = refl; positive = omega arith },
  (
    record { one = inr (inl refl); moves_on = refl; not_cancelled = refl; positive = omega arith },
    (
      record {
        one = inr (inr (inl refl));
        moves_on = refl;
        not_cancelled = refl;
        positive = omega arith;
      },
      (
        record {
          one = inr (inr (inr (inl refl)));
          moves_on = refl;
          not_cancelled = refl;
          positive = omega arith;
        },
        tt,
      ),
    ),
  ),
)

module _ {W F : Type 0} (fl : Floats F) (random : W → F × W)
    (non_negative : (w : W) → fl.less (random w).0 (fl.literal "0.0") ≡ false) (now : ℕ)
    (os : List Order) where
  -- a roll below the probability of a cancellation means that there is one
  cancellable :
      (w : W) (o : Option String)
      → fl.less (random w).0 (fl.literal (or_zero o)) ≡ true
      → is_some o ≡ true
  cancellable w none h = let never = non_negative w in cc
  cancellable w (some p) h = refl

  decide-Ready :
      (rule : Rule) (id : ℕ) (ids : List ℕ) (w : W) (t : Tick)
      → RuleOk rule
      → Pointwise (Ready now rule (id ∷ ids)) os t.tables.orders
      → Pointwise
          (Ready now rule ids)
          os
          (decide fl random rule id now (random w).0 t).tables.orders
  unfolding decide cancel advance transition
  decide-Ready rule id ids w t ok h =
      elim (Bool-cases
        (fl.less (random w).0 (fl.literal (or_zero (get rule.status cancel_probability))))) [
          | inl low ↦ rw low (
              Pointwise-map (Ready now rule (id ∷ ids)) (Ready now rule ids)
                (set_status id rule.status "CANCELLED" now) os t.tables.orders
                (λ o o'.
                  Ready-set_status now rule ok.one id ids "CANCELLED" o o' ok.not_cancelled
                    (inr (refl, cancellable w (get rule.status cancel_probability) low)))
                h)
          | inr high ↦
              elim (Bool-cases (
                fl.less (random w).0 (
                  fl.plus (fl.literal (or_zero (get rule.status cancel_probability)))
                    (fl.literal rule.probability)))) [
                      | inl low ↦
                          rw (high, low)
                            (Pointwise-map (Ready now rule (id ∷ ids)) (Ready now rule ids)
                              (set_status id rule.status rule.next_status now) os t.tables.orders
                              (λ o o'.
                                Ready-set_status now rule ok.one id ids rule.next_status o o'
                                  ok.moves_on (inl refl))
                              h)
                      | inr higher ↦
                          rw (high, higher)
                            (Pointwise-weaken (Ready now rule (id ∷ ids)) (Ready now rule ids) os
                              t.tables.orders (Ready-skip now rule ok.one id ids) h)
                    ]
        ]

  roll_candidates-Moved :
      (rule : Rule) (ids : List ℕ) (t : Tick) (w : W)
      → RuleOk rule
      → Pointwise (Ready now rule ids) os t.tables.orders
      → Pointwise (Moved now) os (roll_candidates fl random rule now ids t w).0.tables.orders
  unfolding roll_candidates
  roll_candidates-Moved rule [] t w ok h =
      Pointwise-weaken (Ready now rule []) (Moved now) os t.tables.orders (λ o o' r. r.0) h
  roll_candidates-Moved rule (id ∷ ids) t w ok h =
      roll_candidates-Moved rule ids (decide fl random rule id now (random w).0 t) (random w).1 ok
        (decide-Ready rule id ids w t ok h)

  apply_rules-Moved :
      (rules : List Rule) (t : Tick) (w : W)
      → UniqueIds (ids_of os)
      → All RuleOk rules
      → Pointwise (Moved now) os t.tables.orders
      → Pointwise (Moved now) os (apply_rules fl random now rules t w).0.tables.orders
  unfolding apply_rules
  apply_rules-Moved [] t w unique ok h = h
  apply_rules-Moved (rule ∷ rules) t w unique ok h =
      let orders = t.tables.orders in
      let unique' : UniqueIds (ids_of orders) =
        subst UniqueIds (sym (ids_of-Pointwise now os orders h)) unique in
      let candidates =
        find_eligible rule.status rule.min_age_seconds candidates_per_status_per_tick now orders in
      let (t', w') = roll_candidates fl random rule now candidates t w in
      apply_rules-Moved rules t' w' unique ok.1 (
        roll_candidates-Moved rule candidates t w ok.0 (
          Pointwise-with (Moved now) (Ready now rule candidates) (IsFound orders) os orders
            (λ o o' found moved.
              Ready-candidates now rule ok.0.one orders candidates_per_status_per_tick o o' unique'
                ok.0.positive found moved)
            (All-IsFound orders unique') h))

-- In one tick every order is left alone or moved by one step: from PENDING to PAID, PAID to PROCESSING,
-- PROCESSING to SHIPPED, SHIPPED to DELIVERED, or from one of the first three to CANCELLED. It had been
-- in its status for the minimal age, and its time is that of the tick. No order comes or goes. The
-- order ids are unique, and `random` returns no number below 0.0.
pub progress_eligible_orders-Moved :
    {W F : Type 0} (fl : Floats F) (random : W → F × W) (now : ℕ) (db : Tables) (w : W)
    → ((w : W) → fl.less (random w).0 (fl.literal "0.0") ≡ false)
    → UniqueIds (ids_of db.orders)
    → Pointwise (Moved now) db.orders (progress_eligible_orders fl random now db w).0.tables.orders
unfolding progress_eligible_orders
progress_eligible_orders-Moved fl random now db w non_negative unique =
    apply_rules-Moved fl random non_negative now db.orders forward_rules
      (record { tables = db; advanced = 0; cancelled = 0 }) w unique forward_rules-RuleOk
      (Pointwise-refl now db.orders)
