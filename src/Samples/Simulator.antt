-- ===== src/Samples/Simulator.antt =====
-- The simulator on small tables.
use modern_data_platform.Prelude.{
  ℕ, ◌+◌, ◌++◌, String, String_Eq, Bool, false, ◌≡◌, ◌≤◌, ◌⊎◌, refl, List, [], ◌∷◌, ◌==◌, arith,
  ltb, leb, if◌then◌else◌,
}
use modern_data_platform.Prelude.Int.{pos}
use modern_data_platform.Prelude.Value.{Value}
use modern_data_platform.Processing.Outcome.{Reply, answer, failure}
use modern_data_platform.Simulator.BatchWriter.{
  Row, Connection, BatchWriter, new_writer, build_insert, add,
}
use modern_data_platform.Simulator.BatchWriter.Laws.{sent_of}
use modern_data_platform.Simulator.BatchWriter.Delivery.{
  Insertion, Left, total, rows_for, add_all, add-Left, add_all-delivers,
}
use modern_data_platform.Simulator.UniqueInsert.{
  insert_with_unique_retry, exhausted_error, default_max_attempts, Inserted, collide,
  insert_with_unique_retry-Inserted, insert_with_unique_retry_exhausts,
}
use modern_data_platform.Simulator.OrderStatus.{
  Tables, Floats, progress_eligible_orders, transition,
}
use modern_data_platform.Simulator.OrderStatus.Progress.{progress_eligible_orders-Moved}
use modern_data_platform.Simulator.OrderStatus.Steps.{Pointwise, Moved}
use modern_data_platform.Simulator.OrderStatus.Audit.{Audited, progress_eligible_orders-Audited}
use modern_data_platform.Prelude.Dict.{Dict}
use modern_data_platform.Simulator.Inventory.Restock.{maybe_restock_lem}
use modern_data_platform.Simulator.Inventory.{Inventory, reserve_inventory, maybe_restock}
use modern_data_platform.Simulator.Inventory.Reservation.{total_stock}

-- a connection that counts its statements
abbrev connection : Connection ℕ
connection = record { execute = λ sql values w. (answer tt, w + 1); commit = λ w. (answer tt, w) }

abbrev insertions : List Insertion
insertions =
    ("reviews", "review_id" ∷ [], Value.int (pos 1) ∷ [])
    ∷ ("payments", "payment_id" ∷ [], Value.int (pos 2) ∷ [])
    ∷ ("reviews", "review_id" ∷ [], Value.int (pos 3) ∷ [])
    ∷ []

insert_text :
    build_insert "reviews" ("review_id" ∷ "rating" ∷ []) 2
    ≡ "INSERT INTO reviews (review_id, rating) VALUES (%s, %s), (%s, %s) ON CONFLICT DO NOTHING"
unfolding build_insert
insert_text = refl

-- a threshold of two: the first two rows are sent by an `add`, the third by the last `flush`
batch_run :
    let (r, b, w) = add_all connection insertions (new_writer 2) 0 in (r ≡ answer tt) × (w ≡ 3)
unfolding add
batch_run = (refl, refl)

add_all-delivers_example :
    sent_of "reviews" (add_all connection insertions (new_writer 2) 0).1.sent
    ≡ rows_for "reviews" insertions
add_all-delivers_example = add_all-delivers connection 2 insertions 0 batch_run.0 "reviews"

abbrev half_full : BatchWriter
half_full = record (new_writer 2) {
  rows = ("reviews", (Value.int (pos 1) ∷ []) ∷ []) ∷ [];
  columns = ("reviews", "review_id" ∷ []) ∷ [];
  pending = 1;
}

abbrev review : Row
review = Value.int (pos 3) ∷ []

add-Left_example :
    let (r, b', w') = add connection "reviews" ("review_id" ∷ []) review half_full 0 in
    Left (λ t. total t half_full ++ (if "reviews" == t then review ∷ [] else [])) r b'
add-Left_example =
    add-Left connection "reviews" ("review_id" ∷ []) review half_full 0 ((refl, tt), omega arith)

-- entities are numbers, and those below three are taken
abbrev generate : ℕ → Reply ℕ × ℕ
generate w = (answer w, w + 1)

abbrev insert_free : ℕ → ℕ → Reply Bool × ℕ
insert_free e w = (answer (leb 3 e), w)

abbrev insert_none : ℕ → ℕ → Reply Bool × ℕ
insert_none e w = (answer false, w)

unique_run :
    insert_with_unique_retry "order" generate insert_free default_max_attempts 0 ≡ (answer 3, 4)
unfolding insert_with_unique_retry
unique_run = refl

insert_with_unique_retry-Inserted_example :
    Inserted "order" generate insert_free default_max_attempts 3
      (insert_with_unique_retry "order" generate insert_free default_max_attempts 0).1
unfolding insert_with_unique_retry
insert_with_unique_retry-Inserted_example =
    insert_with_unique_retry-Inserted "order" generate insert_free default_max_attempts 0 3 refl

insert_with_unique_retry_exhausts_example :
    insert_with_unique_retry "order" generate insert_none 2 0
    ≡ (failure (exhausted_error "order" 2), collide "order" generate insert_none 2 0 (λ w. w) 2 1)
insert_with_unique_retry_exhausts_example =
    insert_with_unique_retry_exhausts "order" generate insert_none 2 (λ w. w) 0 (λ w. refl)
      (λ e w. refl)

-- probabilities in thousandths; the roll is the world
abbrev thousandths : String → ℕ
thousandths p =
    if p == "0.15"
    then 150
    else if p == "0.10"
    then 100
    else if p == "0.08"
    then 80
    else if p == "0.05"
    then 50
    else if p == "0.02"
    then 20
    else if p == "0.01"
    then 10
    else if p == "0.005"
    then 5
    else 0

abbrev floats : Floats ℕ
floats = record { literal = thousandths; plus = λ a b. a + b; less = ltb }

abbrev random : ℕ → ℕ × ℕ
random w = (w, w + 15)

abbrev tables : Tables
tables = record {
  orders =
      record { order_id = 1; status = "PENDING"; updated_at = 5 }
      ∷ record { order_id = 2; status = "PENDING"; updated_at = 0 }
      ∷ record { order_id = 3; status = "PAID"; updated_at = 400000000 }
      ∷ [];
  history = [];
}

-- the oldest is cancelled, the next goes on, and the youngest waits
tick_run :
    let (t, w) = progress_eligible_orders floats random 450000000 tables 10 in
    (t.cancelled ≡ 1)
    × (t.advanced ≡ 1)
    × (t.tables.orders
        ≡ record { order_id = 1; status = "PAID"; updated_at = 450000000 }
          ∷ record { order_id = 2; status = "CANCELLED"; updated_at = 450000000 }
          ∷ record { order_id = 3; status = "PAID"; updated_at = 400000000 }
          ∷ [])
unfolding progress_eligible_orders transition
tick_run = (refl, refl, refl)

never_below_zero : (n : ℕ) → ltb n 0 ≡ false
never_below_zero n = ground arith

progress_eligible_orders-Moved_example :
    Pointwise
      (Moved 450000000)
      tables.orders
      (progress_eligible_orders floats random 450000000 tables 10).0.tables.orders
progress_eligible_orders-Moved_example =
    progress_eligible_orders-Moved floats random 450000000 tables 10 (λ w. never_below_zero w)
      (refl, (refl, (refl, tt)))

progress_eligible_orders-Audited_example :
    Audited tables 0 60 (progress_eligible_orders floats random 450000000 tables 10).0
progress_eligible_orders-Audited_example =
    progress_eligible_orders-Audited floats random 450000000 tables 10

abbrev stock : List Inventory
stock =
    record { inventory_id = 1; product_id = 7; available_quantity = 0 }
    ∷ record { inventory_id = 2; product_id = 8; available_quantity = 3 }
    ∷ []

abbrev prices : Dict ℕ ℕ
prices = (7, 100) ∷ (8, 250) ∷ []

abbrev random_row : ℕ → ℕ × ℕ
random_row w = (w, w + 1)

-- always the largest number
abbrev randint : ℕ → ℕ → ℕ → ℕ × ℕ
randint low high w = (high, w + 1)

reserve_run : reserve_inventory random_row randint prices stock 0 ≡ (
  answer (record { inventory_id = 2; product_id = 8; unit_price = 250; quantity = 3 }),
  record { inventory_id = 1; product_id = 7; available_quantity = 0 }
      ∷ record { inventory_id = 2; product_id = 8; available_quantity = 0 }
      ∷ [],
  2,
)
unfolding reserve_inventory
reserve_run = refl

restock_run :
    (maybe_restock random_row randint random ltb 500 stock 1).0
    ≡ record { inventory_id = 1; product_id = 7; available_quantity = 0 }
      ∷ record { inventory_id = 2; product_id = 8; available_quantity = 203 }
      ∷ []
unfolding maybe_restock
restock_run = refl

maybe_restock_lem_example :
    let (db', w') = maybe_restock random_row randint random ltb 500 stock 1 in
    (db' ≡ stock) ⊎ ((q : ℕ) × (50 ≤ q) × (q ≤ 200) × (total_stock db' ≡ total_stock stock + q))
maybe_restock_lem_example =
    maybe_restock_lem random_row randint random ltb 500 stock 1 (refl, (refl, tt))
      (λ v. (omega arith, omega arith))
