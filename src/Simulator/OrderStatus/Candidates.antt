-- ===== src/Simulator/OrderStatus/Candidates.antt =====
-- The orders that `find_eligible` picks.
use modern_data_platform.Prelude.{
  ℕ, zero, suc, ◌≤◌, ℕ_Eq, String, String_Eq, Bool, true, false, ◌≡◌, inl, inr, refl, sym, ap, ◌∙◌,
  Option, none, some, List, [], ◌∷◌, ◌==◌, ◌||◌, map, take, length, All, arith, nat_eq_iff,
  Bool-cases, if◌then◌else◌, leb,
}
use modern_data_platform.Simulator.OrderStatus.{
  Order, is_eligible, filter_orders, insert_by_age, sort_by_age, find_eligible,
}

abbrev pub elem : ℕ → List ℕ → Bool
elem id [] = false
elem id (j ∷ ids) = j == id || elem id ids

abbrev pub ids_of : List Order → List ℕ
ids_of [] = []
ids_of (o ∷ orders) = o.order_id ∷ ids_of orders

-- `order_id` is the primary key
abbrev pub UniqueIds : List ℕ → Type 0
UniqueIds [] = Unit
UniqueIds (id ∷ ids) = (elem id ids ≡ false) × UniqueIds ids

abbrev pub find : ℕ → List Order → Option Order
find id [] = none
find id (o ∷ orders) = let rest = find id orders in if o.order_id == id then some o else rest

-- an order that the table has under its key
abbrev pub IsFound : List Order → Order → Type 0
IsFound orders o = find o.order_id orders ≡ some o

find-elem :
    (id : ℕ) (orders : List Order) (o : Order)
    → find id orders ≡ some o
    → elem id (ids_of orders) ≡ true
find-elem id [] o h = cc
find-elem id (o' ∷ orders) o h = ground (arith, find-elem id orders o)

All-weaken :
    {P Q : Order → Type 0} (orders : List Order)
    → ((o : Order) → P o → Q o)
    → All P orders
    → All Q orders
All-weaken [] f h = tt
All-weaken (o ∷ orders) f h = (f o h.0, All-weaken orders f h.1)

pub All-IsFound : (orders : List Order) → UniqueIds (ids_of orders) → All (IsFound orders) orders
All-IsFound [] h = tt
All-IsFound (o ∷ orders) h =
    let self : (o.order_id == o.order_id) ≡ true = (nat_eq_iff o.order_id o.order_id).1 refl in
    (rw self refl, All-weaken orders later (All-IsFound orders h.1))
  where
    later : (o' : Order) → IsFound orders o' → IsFound (o ∷ orders) o'
    later o' found =
        let there = find-elem o'.order_id orders o' found in
        ground (arith, there, h.0, found, nat_eq_iff o.order_id o'.order_id)

module _ (P : Order → Type 0) where
  All-filter_orders :
      (p : Order → Bool) (orders : List Order)
      → All P orders
      → All (λ o. P o × (p o ≡ true)) (filter_orders p orders)
  All-filter_orders p [] h = tt
  All-filter_orders p (o ∷ orders) h = elim (Bool-cases (p o)) [
    | inl e ↦ rw e ((h.0, e), All-filter_orders p orders h.1)
    | inr e ↦ rw e (All-filter_orders p orders h.1)
  ]

  All-insert_by_age :
      (o : Order) (orders : List Order) → P o → All P orders → All P (insert_by_age o orders)
  All-insert_by_age o [] p h = (p, tt)
  All-insert_by_age o (o' ∷ orders) p h = elim (Bool-cases (leb o.updated_at o'.updated_at)) [
    | inl e ↦ rw e (p, h)
    | inr e ↦ rw e (h.0, All-insert_by_age o orders p h.1)
  ]

  All-sort_by_age : (orders : List Order) → All P orders → All P (sort_by_age orders)
  All-sort_by_age [] h = tt
  All-sort_by_age (o ∷ orders) h =
      All-insert_by_age o (sort_by_age orders) h.0 (All-sort_by_age orders h.1)

  All-take : (n : ℕ) (orders : List Order) → All P orders → All P (take n orders)
  All-take zero orders h = tt
  All-take (suc n) [] h = tt
  All-take (suc n) (o ∷ orders) h = (h.0, All-take n orders h.1)

  elem-map :
      (id : ℕ) (orders : List Order)
      → All P orders
      → elem id (map (λ o. o.order_id) orders) ≡ true
      → (o : Order) × P o × (o.order_id ≡ id)
  elem-map id [] h e = cc
  elem-map id (o ∷ orders) h e = elim (Bool-cases (o.order_id == id)) [
    | inl same ↦ (o, h.0, (nat_eq_iff o.order_id id).0 same)
    | inr other ↦ elem-map id orders h.1 (ground arith)
  ]

-- A candidate is the id of an eligible order of the table.
pub find_eligible-elem :
    (status : String) (age limit now : ℕ) (orders : List Order) (id : ℕ)
    → UniqueIds (ids_of orders)
    → elem id (find_eligible status age limit now orders) ≡ true
    → (o : Order) × (find id orders ≡ some o) × (is_eligible status age now o ≡ true)
unfolding find_eligible
find_eligible-elem status age limit now orders id unique e =
    let p = is_eligible status age now in
    let (o, (found, eligible), same) =
      elem-map (λ o. IsFound orders o × (p o ≡ true)) id
        (take limit (sort_by_age (filter_orders p orders)))
        (All-take (λ o. IsFound orders o × (p o ≡ true)) limit
          (sort_by_age (filter_orders p orders))
          (All-sort_by_age (λ o. IsFound orders o × (p o ≡ true)) (filter_orders p orders)
            (All-filter_orders (IsFound orders) p orders (All-IsFound orders unique))))
        e in
    (o, ap (λ i. find i orders) (sym same) ∙ found, eligible)

length-take : (n : ℕ) (orders : List Order) → length (map (λ o. o.order_id) (take n orders)) ≤ n
length-take zero orders = omega arith
length-take (suc n) [] = omega arith
length-take (suc n) (o ∷ orders) = omega (arith, length-take n orders)

pub length-find_eligible :
    (status : String) (age limit now : ℕ) (orders : List Order)
    → length (find_eligible status age limit now orders) ≤ limit
unfolding find_eligible
length-find_eligible status age limit now orders =
    length-take limit (sort_by_age (filter_orders (is_eligible status age now) orders))
