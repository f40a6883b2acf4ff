-- ===== src/Simulator/OrderStatus/Steps.antt =====
-- The steps that an order may make, and tables compared row by row.
use modern_data_platform.Prelude.{
  ℕ, ℕ_Eq, String_Eq, true, ◌≡◌, ◌⊎◌, inl, inr, refl, ap, List, [], ◌∷◌, map, All,
}
use modern_data_platform.Prelude.Dict.{contains}
use modern_data_platform.Simulator.OrderStatus.{
  Order, Rule, forward_rules, cancel_probability, is_eligible,
}
use modern_data_platform.Simulator.OrderStatus.Candidates.{ids_of}

-- One step by a rule: the order was old enough for it, and went to the rule's next status or, where
-- the rule's status may be cancelled, to CANCELLED.
pub record Step (now : ℕ) (rule : Rule) (o o' : Order) : Type 0 where
  pub eligible : is_eligible rule.status rule.min_age_seconds now o ≡ true
  pub same_id : o'.order_id ≡ o.order_id
  pub touched : o'.updated_at ≡ now
  pub goal :
      (o'.status ≡ rule.next_status)
      ⊎ ((o'.status ≡ "CANCELLED") × (contains rule.status cancel_probability ≡ true))

abbrev pub OneOf : Rule → List Rule → Type 0
OneOf rule [] = ⊥
OneOf rule (r ∷ rules) = (rule ≡ r) ⊎ OneOf rule rules

-- left alone, or moved by one step of one of the rules
abbrev pub Moved : ℕ → Order → Order → Type 0
Moved now o o' = (o' ≡ o) ⊎ ((rule : Rule) × OneOf rule forward_rules × Step now rule o o')

-- the same rows, each related to what it was
abbrev pub Pointwise : (Order → Order → Type 0) → List Order → List Order → Type 0
Pointwise R [] [] = Unit
Pointwise R (o ∷ os) (o' ∷ os') = R o o' × Pointwise R os os'
Pointwise R _ _ = ⊥

pub Pointwise-map :
    (R Q : Order → Order → Type 0) (f : Order → Order) (os os' : List Order)
    → ((o o' : Order) → R o o' → Q o (f o'))
    → Pointwise R os os'
    → Pointwise Q os (map f os')
Pointwise-map R Q f [] [] h p = tt
Pointwise-map R Q f (o ∷ os) (o' ∷ os') h p = (h o o' p.0, Pointwise-map R Q f os os' h p.1)
Pointwise-map R Q f [] (o' ∷ os') h p = absurd p
Pointwise-map R Q f (o ∷ os) [] h p = absurd p

pub Pointwise-weaken :
    (R Q : Order → Order → Type 0) (os os' : List Order)
    → ((o o' : Order) → R o o' → Q o o')
    → Pointwise R os os'
    → Pointwise Q os os'
Pointwise-weaken R Q [] [] h p = tt
Pointwise-weaken R Q (o ∷ os) (o' ∷ os') h p = (h o o' p.0, Pointwise-weaken R Q os os' h p.1)
Pointwise-weaken R Q [] (o' ∷ os') h p = absurd p
Pointwise-weaken R Q (o ∷ os) [] h p = absurd p

-- a fact of the new rows may be used
pub Pointwise-with :
    (R Q : Order → Order → Type 0) (P : Order → Type 0) (os os' : List Order)
    → ((o o' : Order) → P o' → R o o' → Q o o')
    → All P os'
    → Pointwise R os os'
    → Pointwise Q os os'
Pointwise-with R Q P [] [] h a p = tt
Pointwise-with R Q P (o ∷ os) (o' ∷ os') h a p =
    (h o o' a.0 p.0, Pointwise-with R Q P os os' h a.1 p.1)
Pointwise-with R Q P [] (o' ∷ os') h a p = absurd p
Pointwise-with R Q P (o ∷ os) [] h a p = absurd p

pub Pointwise-refl : (now : ℕ) (os : List Order) → Pointwise (Moved now) os os
Pointwise-refl now [] = tt
Pointwise-refl now (o ∷ os) = (inl refl, Pointwise-refl now os)

pub Moved-same_id : (now : ℕ) (o o' : Order) → Moved now o o' → o'.order_id ≡ o.order_id
Moved-same_id now o o' (inl e) = ap (λ o. o.order_id) e
Moved-same_id now o o' (inr (rule, one, step)) = step.same_id

pub ids_of-Pointwise :
    (now : ℕ) (os os' : List Order) → Pointwise (Moved now) os os' → ids_of os' ≡ ids_of os
ids_of-Pointwise now [] [] p = refl
ids_of-Pointwise now (o ∷ os) (o' ∷ os') p =
    rw (Moved-same_id now o o' p.0, ids_of-Pointwise now os os' p.1) refl
ids_of-Pointwise now [] (o' ∷ os') p = absurd p
ids_of-Pointwise now (o ∷ os) [] p = absurd p
