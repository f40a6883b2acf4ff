-- ===== src/Simulator/Inventory/Restock.antt =====
-- What a restock adds.
use modern_data_platform.Prelude.{
  ℕ, ◌+◌, ◌≤◌, ℕ_Eq, Bool, true, false, ◌≡◌, ◌⊎◌, inl, inr, refl, sym, ap, ◌∙◌, Option, none, some,
  List, [], ◌∷◌, ◌==◌, map, arith, nat_eq_iff, Bool-cases, ltb,
}
use modern_data_platform.Simulator.Inventory.{
  Inventory, increased, increase_available_quantity, filter_inventories, draw, or_else,
  get_restock_candidate, low_stock_threshold, restock, maybe_restock,
}
use modern_data_platform.Simulator.Inventory.Reservation.{
  stocked, UniqueInventories, total_stock, In, In-stocked, In-filter_inventories, draw-In,
}

map-increased :
    (id q : ℕ) (db : List Inventory) → stocked id db ≡ false → map (increased id q) db ≡ db
map-increased id q [] h = refl
map-increased id q (i ∷ db) h =
    let other : (i.inventory_id == id) ≡ false = ground arith in
    let later : stocked id db ≡ false = ground arith in
    rw other (ap (λ d. i ∷ d) (map-increased id q db later))

increase_lem :
    (q : ℕ) (i : Inventory) (db : List Inventory)
    → UniqueInventories db
    → In i db
    → total_stock (increase_available_quantity i.inventory_id q db) ≡ total_stock db + q
unfolding increase_available_quantity
increase_lem q i [] unique h = absurd h
increase_lem q i (j ∷ db) unique (inl e) =
    let same_id : i.inventory_id ≡ j.inventory_id = ap (λ k. k.inventory_id) e in
    let hit : (j.inventory_id == i.inventory_id) ≡ true =
      (nat_eq_iff j.inventory_id i.inventory_id).1 (sym same_id) in
    let others : map (increased i.inventory_id q) db ≡ db =
      map-increased i.inventory_id q db (ap (λ k. stocked k db) same_id ∙ unique.0) in
    rw (hit, others) (omega arith)
increase_lem q i (j ∷ db) unique (inr h) =
    let there = In-stocked i db h in
    let other : (j.inventory_id == i.inventory_id) ≡ false =
      elim (Bool-cases (j.inventory_id == i.inventory_id)) [
        | inr e ↦ e
        | inl e ↦
            let same : j.inventory_id ≡ i.inventory_id =
              (nat_eq_iff j.inventory_id i.inventory_id).0 e in
            let absent = unique.0 in cc
      ] in
    rw other (omega (arith, increase_lem q i db unique.1 h))

-- the draw of a candidate: a low row if there is one
or_else-In :
    (k : ℕ) (low db : List Inventory) (i : Inventory)
    → ((j : Inventory) → In j low → In j db)
    → or_else (draw k low) (draw k db) ≡ some i
    → In i db
or_else-In k low db i sub h = by_low (draw k low) refl h
  where
    by_low : (o : Option Inventory) → draw k low ≡ o → or_else o (draw k db) ≡ some i → In i db
    by_low none e h' = draw-In k db i h'
    by_low (some j) e h' = sub i (draw-In k low i (e ∙ h'))

module _ {W F : Type 0} (random_row : W → ℕ × W) (randint : ℕ → ℕ → W → ℕ × W) (random : W → F × W)
    (less : F → F → Bool) where
  restock_lem :
      (o : Option Inventory) (db : List Inventory) (w : W)
      → UniqueInventories db
      → ((i : Inventory) → o ≡ some i → In i db)
      → ((v : W) → (50 ≤ (randint 50 200 v).0) × ((randint 50 200 v).0 ≤ 200))
      → let (db', w') = restock random_row randint random less o db w in
        (db' ≡ db) ⊎ ((q : ℕ) × (50 ≤ q) × (q ≤ 200) × (total_stock db' ≡ total_stock db + q))
  restock_lem none db w unique h dice = inl refl
  restock_lem (some i) db w unique h dice =
      let (at_least, at_most) = dice w in
      inr (
        (randint 50 200 w).0,
        at_least,
        at_most,
        increase_lem (randint 50 200 w).0 i db unique (h i refl),
      )

  -- With `randint` in its range and unique keys, `maybe_restock` leaves the stock alone or adds between
  -- 50 and 200 pieces to it in all.
  pub maybe_restock_lem :
      (probability : F) (db : List Inventory) (w : W)
      → UniqueInventories db
      → ((v : W) → (50 ≤ (randint 50 200 v).0) × ((randint 50 200 v).0 ≤ 200))
      → let (db', w') = maybe_restock random_row randint random less probability db w in
        (db' ≡ db) ⊎ ((q : ℕ) × (50 ≤ q) × (q ≤ 200) × (total_stock db' ≡ total_stock db + q))
  unfolding maybe_restock get_restock_candidate
  maybe_restock_lem probability db w unique dice =
      let is_low : Inventory → Bool = λ i. ltb i.available_quantity low_stock_threshold in
      let k = (random_row (random w).1).0 in
      elim (Bool-cases (less (random w).0 probability)) [
        | inr no_restock ↦ rw no_restock (inl refl)
        | inl yes_restock ↦ rw yes_restock (
            restock_lem (or_else (draw k (filter_inventories is_low db)) (draw k db)) db
              (random_row (random w).1).1 unique
              (λ i e.
                or_else-In k (filter_inventories is_low db) db i
                  (λ j h. (In-filter_inventories is_low j db h).0) e)
              dice)
      ]
