-- ===== src/Simulator/Inventory/Reservation.antt =====
-- What a reservation takes from the stock.
use modern_data_platform.Prelude.{
  ℕ, zero, suc, ◌+◌, ◌≤◌, ℕ_Eq, Bool, true, false, ◌≡◌, ◌≢◌, ◌⊎◌, inl, inr, refl, sym, ap, ◌∙◌,
  some, List, [], ◌∷◌, ◌==◌, ◌||◌, arith, nat_eq_iff, if◌then◌else◌,
}
use modern_data_platform.Prelude.Dict.{Dict, get}
use modern_data_platform.Processing.Outcome.{Reply, answer, failure}
use modern_data_platform.Simulator.Inventory.{
  Inventory, filter_inventories, draw, no_inventory_error, no_price_error, Reserved,
}

abbrev pub stocked : ℕ → List Inventory → Bool
stocked id [] = false
stocked id (i ∷ db) = i.inventory_id == id || stocked id db

-- `inventory_id` is the primary key
abbrev pub UniqueInventories : List Inventory → Type 0
UniqueInventories [] = Unit
UniqueInventories (i ∷ db) = (stocked i.inventory_id db ≡ false) × UniqueInventories db

abbrev pub total_stock : List Inventory → ℕ
total_stock [] = 0
total_stock (i ∷ db) = i.available_quantity + total_stock db

abbrev pub In : Inventory → List Inventory → Type 0
In i [] = ⊥
In i (j ∷ db) = (i ≡ j) ⊎ In i db

pub In-stocked : (i : Inventory) (db : List Inventory) → In i db → stocked i.inventory_id db ≡ true
In-stocked i [] h = absurd h
In-stocked i (j ∷ db) (inl e) =
    let same : (j.inventory_id == i.inventory_id) ≡ true =
      (nat_eq_iff j.inventory_id i.inventory_id).1 (ap (λ k. k.inventory_id) (sym e)) in
    rw same refl
In-stocked i (j ∷ db) (inr h) = ground (arith, In-stocked i db h)

pub In-filter_inventories :
    (p : Inventory → Bool) (i : Inventory) (db : List Inventory)
    → In i (filter_inventories p db)
    → In i db × (p i ≡ true)
In-filter_inventories p i [] h = absurd h
In-filter_inventories p i (j ∷ db) h = by_test (p j) refl h (In-filter_inventories p i db)
  where
    by_test :
        (b : Bool)
        → p j ≡ b
        → In i (if b then j ∷ filter_inventories p db else filter_inventories p db)
        → (In i (filter_inventories p db) → In i db × (p i ≡ true))
        → In i (j ∷ db) × (p i ≡ true)
    by_test true e (inl same) earlier = (inl same, ap p same ∙ e)
    by_test true e (inr later) earlier = let (inside, good) = earlier later in (inr inside, good)
    by_test false e later earlier = let (inside, good) = earlier later in (inr inside, good)

pub draw-In : (k : ℕ) (db : List Inventory) (i : Inventory) → draw k db ≡ some i → In i db
draw-In k [] i h = cc
draw-In k (j ∷ []) i h = inl cc
draw-In zero (j ∷ j' ∷ db) i h = inl cc
draw-In (suc k) (j ∷ j' ∷ db) i h = inr (draw-In k (j' ∷ db) i h)

-- The row of that key has `q` pieces less, and every other row is as before.
abbrev pub Took : ℕ → ℕ → List Inventory → List Inventory → Type 0
Took id q [] [] = Unit
Took id q (i ∷ db) (j ∷ db') =
    (i.inventory_id ≡ id
      → (j.inventory_id ≡ id)
        × (j.product_id ≡ i.product_id)
        × (j.available_quantity + q ≡ i.available_quantity))
    × (i.inventory_id ≢ id → j ≡ i)
    × Took id q db db'
Took id q _ _ = ⊥

module _ {W P : Type 0} (random_row : W → ℕ × W) (randint : ℕ → ℕ → W → ℕ × W)
    (prices : Dict ℕ P) where
  -- A reservation of between one and five pieces of a row of the table, which are taken from its stock.
  pub record Taken (db : List Inventory) (r : Reserved P) (db' : List Inventory) : Type 0 where
    pub row : Inventory
    pub is_row : In row db
    pub same_inventory : r.inventory_id ≡ row.inventory_id
    pub same_product : r.product_id ≡ row.product_id
    pub priced : get row.product_id prices ≡ some r.unit_price
    pub at_least : 1 ≤ r.quantity
    pub at_most : r.quantity ≤ 5
    pub in_stock : r.quantity ≤ row.available_quantity
    pub taken : Took row.inventory_id r.quantity db db'
    pub total : total_stock db' + r.quantity ≡ total_stock db

  -- how a reservation may end
  abbrev pub Ended : List Inventory → Reply (Reserved P) → List Inventory → Type 0
  Ended db (answer r) db' = Taken db r db'
  Ended db (failure e) db' = (db' ≡ db) × ((e ≡ no_inventory_error) ⊎ (e ≡ no_price_error))
