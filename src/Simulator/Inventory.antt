-- ===== src/Simulator/Inventory.antt =====
-- simulator/domain/inventory/inventory_repository.py and restock_service.py, and `_reserve_inventory` of
-- simulator/domain/orders/order_service.py. The statements are functions of the table `inventories`;
-- `random` and `randint` are parameters, also where ORDER BY random() draws a row.
pub mod Reservation
pub mod Restock
use modern_data_platform.Prelude.{
  ℕ, zero, suc, ◌+◌, ◌-◌, min, ℕ_Eq, Bool, true, false, Option, none, some, List, [], ◌∷◌, ◌==◌,
  ◌&&◌, any, map, leb, ltb, if◌then◌else◌,
}
use modern_data_platform.Prelude.Dict.{Dict, get}
use modern_data_platform.Processing.Outcome.{Exn, Reply, answer, failure, value_error}

-- a row of `inventories`, as far as these statements read it
pub record Inventory : Type 0 where
  pub inventory_id : ℕ
  pub product_id : ℕ
  pub available_quantity : ℕ

-- WHERE inventory_id = ... AND available_quantity >= ...
abbrev pub can_decrease : ℕ → ℕ → Inventory → Bool
can_decrease inventory_id quantity i =
    i.inventory_id == inventory_id && leb quantity i.available_quantity

abbrev pub decreased : ℕ → ℕ → Inventory → Inventory
decreased inventory_id quantity i =
    if can_decrease inventory_id quantity i
    then record i { available_quantity = i.available_quantity - quantity }
    else i

-- `InventoryRepository.decrease_available_quantity`
unfoldable pub decrease_available_quantity : ℕ → ℕ → List Inventory → Bool × List Inventory
decrease_available_quantity inventory_id quantity db =
    (any (can_decrease inventory_id quantity) db, map (decreased inventory_id quantity) db)

abbrev pub increased : ℕ → ℕ → Inventory → Inventory
increased inventory_id quantity i =
    if i.inventory_id == inventory_id
    then record i { available_quantity = i.available_quantity + quantity }
    else i

-- `InventoryRepository.increase_available_quantity`
unfoldable pub increase_available_quantity : ℕ → ℕ → List Inventory → List Inventory
increase_available_quantity inventory_id quantity db = map (increased inventory_id quantity) db

abbrev pub filter_inventories : (Inventory → Bool) → List Inventory → List Inventory
filter_inventories p [] = []
filter_inventories p (i ∷ db) = let rest = filter_inventories p db in if p i then i ∷ rest else rest

-- the row that is drawn; none only of no rows
abbrev pub draw : ℕ → List Inventory → Option Inventory
draw k [] = none
draw k (i ∷ []) = some i
draw zero (i ∷ j ∷ db) = some i
draw (suc k) (i ∷ j ∷ db) = draw k (j ∷ db)

abbrev pub or_else : Option Inventory → Option Inventory → Option Inventory
or_else none o = o
or_else (some i) o = some i

module _ {W : Type 0} (random_row : W → ℕ × W) where
  -- `InventoryRepository.get_random_inventory`
  unfoldable pub get_random_inventory : List Inventory → W → Option Inventory × W
  get_random_inventory db w =
      let (k, w') = random_row w in
      (draw k (filter_inventories (λ i. ltb 0 i.available_quantity) db), w')

  -- `InventoryRepository.get_restock_candidate_id`: the rows below the threshold come first
  unfoldable pub get_restock_candidate : ℕ → List Inventory → W → Option Inventory × W
  get_restock_candidate low_stock_threshold db w =
      let (k, w') = random_row w in
      (
        or_else (draw k (filter_inventories (λ i. ltb i.available_quantity low_stock_threshold) db))
            (draw k db),
        w',
      )

abbrev max_inventory_reserve_attempts : ℕ
max_inventory_reserve_attempts = 5

abbrev pub low_stock_threshold : ℕ
low_stock_threshold = 20

abbrev pub no_inventory_error : Exn
no_inventory_error = value_error "No inventory found."

abbrev pub no_price_error : Exn
no_price_error = value_error "No product price found."

abbrev not_reserved_error : Exn
not_reserved_error = value_error "Could not reserve inventory after 5 attempts."

-- what `_reserve_inventory` returns
pub record Reserved (P : Type 0) : Type 0 where
  pub inventory_id : ℕ
  pub product_id : ℕ
  pub unit_price : P
  pub quantity : ℕ

module _ {W P : Type 0} (random_row : W → ℕ × W) (randint : ℕ → ℕ → W → ℕ × W)
    (prices : Dict ℕ P) where
  -- the rest of an attempt, once there are a row and a price; `again` is the next attempt
  abbrev pub reserve :
      Inventory
      → P
      → List Inventory
      → W
      → (List Inventory → W → Reply (Reserved P) × List Inventory × W)
      → Reply (Reserved P) × List Inventory × W
  reserve i unit_price db w again =
      let (n, w') = randint 1 5 w in
      let quantity = min n i.available_quantity in
      let (updated, db') = decrease_available_quantity i.inventory_id quantity db in
      let rest = again db' w' in
      if updated
      then (
        answer (record {
          inventory_id = i.inventory_id;
          product_id = i.product_id;
          unit_price = unit_price;
          quantity = quantity;
        }),
        db',
        w',
      )
      else rest

  abbrev pub with_price :
      Inventory
      → Option P
      → List Inventory
      → W
      → (List Inventory → W → Reply (Reserved P) × List Inventory × W)
      → Reply (Reserved P) × List Inventory × W
  with_price i none db w again = (failure no_price_error, db, w)
  with_price i (some unit_price) db w again = reserve i unit_price db w again

  abbrev pub with_inventory :
      Option Inventory
      → List Inventory
      → W
      → (List Inventory → W → Reply (Reserved P) × List Inventory × W)
      → Reply (Reserved P) × List Inventory × W
  with_inventory none db w again = (failure no_inventory_error, db, w)
  with_inventory (some i) db w again = with_price i (get i.product_id prices) db w again

  -- for attempt in range(...), with the attempts that are left
  unfoldable pub reserve_attempts : ℕ → List Inventory → W → Reply (Reserved P) × List Inventory × W
  unfolding get_random_inventory decrease_available_quantity
  reserve_attempts zero db w = (failure not_reserved_error, db, w)
  reserve_attempts (suc n) db w =
      let (o, w') = get_random_inventory random_row db w in
      with_inventory o db w' (reserve_attempts n)

  -- `OrderService._reserve_inventory`
  unfoldable pub reserve_inventory : List Inventory → W → Reply (Reserved P) × List Inventory × W
  unfolding reserve_attempts
  reserve_inventory = reserve_attempts max_inventory_reserve_attempts

module _ {W F : Type 0} (random_row : W → ℕ × W) (randint : ℕ → ℕ → W → ℕ × W) (random : W → F × W)
    (less : F → F → Bool) where
  abbrev pub restock : Option Inventory → List Inventory → W → List Inventory × W
  restock none db w = (db, w)
  restock (some i) db w =
      let (quantity, w') = randint 50 200 w in
      (increase_available_quantity i.inventory_id quantity db, w')

  -- `RestockService.maybe_restock`: random() >= probability leaves everything alone
  unfoldable pub maybe_restock : F → List Inventory → W → List Inventory × W
  unfolding get_restock_candidate increase_available_quantity
  maybe_restock probability db w =
      let (roll, w') = random w in
      let (o, w'') = get_restock_candidate random_row low_stock_threshold db w' in
      if less roll probability then restock o db w'' else (db, w')
