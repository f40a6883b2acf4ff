-- ===== src/Simulator/OrderStatus.antt =====
-- simulator/domain/orders/order_status_service.py. The statements of OrderStatusRepository are read as
-- functions of the tables `orders` and `order_status_history`. Times are natural numbers of
-- microseconds; `now` is the time of the transaction, which now() and CURRENT_TIMESTAMP both give. The
-- tick is one transaction. Python's floats, and `random`, are parameters.
pub mod Candidates
pub mod Steps
pub mod Progress
pub mod Audit
use modern_data_platform.Prelude.{
  ℕ, zero, suc, ◌+◌, ◌*◌, ℕ_Eq, String, String_Eq, Bool, true, false, Option, none, some, List, [],
  ◌∷◌, ◌++◌, ◌==◌, ◌&&◌, any, map, take, leb, if◌then◌else◌,
}
use modern_data_platform.Prelude.Dict.{Dict, get}

-- a row of `orders`, as far as these statements read it
pub record Order : Type 0 where
  pub order_id : ℕ
  pub status : String
  pub updated_at : ℕ

-- a row of `order_status_history`, without its random key
pub record Transition : Type 0 where
  pub order_id : ℕ
  pub previous_status : String
  pub current_status : String
  pub changed_at : ℕ

pub record Tables : Type 0 where
  pub orders : List Order
  pub history : List Transition

pub record Floats (F : Type 0) : Type 0 where
  pub literal : String → F
  pub plus : F → F → F
  pub less : F → F → Bool

-- (next_status, min_age_seconds, probability_per_tick)
pub record Rule : Type 0 where
  pub status : String
  pub next_status : String
  pub min_age_seconds : ℕ
  pub probability : String

abbrev pub forward_rules : List Rule
forward_rules =
    record { status = "PENDING"; next_status = "PAID"; min_age_seconds = 60; probability = "0.15" }
    ∷ record {
      status = "PAID";
      next_status = "PROCESSING";
      min_age_seconds = 120;
      probability = "0.10";
    }
    ∷ record {
      status = "PROCESSING";
      next_status = "SHIPPED";
      min_age_seconds = 180;
      probability = "0.08";
    }
    ∷ record {
      status = "SHIPPED";
      next_status = "DELIVERED";
      min_age_seconds = 300;
      probability = "0.05";
    }
    ∷ []

abbrev pub cancel_probability : Dict String String
cancel_probability = ("PENDING", "0.02") ∷ ("PAID", "0.01") ∷ ("PROCESSING", "0.005") ∷ []

-- _CANCEL_PROBABILITY.get(status, 0.0)
abbrev pub or_zero : Option String → String
or_zero none = "0.0"
or_zero (some p) = p

abbrev pub candidates_per_status_per_tick : ℕ
candidates_per_status_per_tick = 15

-- WHERE status = ... AND updated_at <= now() - min_age
abbrev pub is_eligible : String → ℕ → ℕ → Order → Bool
is_eligible status min_age_seconds now o =
    o.status == status && leb (o.updated_at + min_age_seconds * 1000000) now

abbrev pub filter_orders : (Order → Bool) → List Order → List Order
filter_orders p [] = []
filter_orders p (o ∷ orders) = let rest = filter_orders p orders in if p o then o ∷ rest else rest

-- ORDER BY updated_at ASC; rows of one time stay in the order of the table
abbrev pub insert_by_age : Order → List Order → List Order
insert_by_age o [] = o ∷ []
insert_by_age o (o' ∷ orders) =
    if leb o.updated_at o'.updated_at then o ∷ o' ∷ orders else o' ∷ insert_by_age o orders

abbrev pub sort_by_age : List Order → List Order
sort_by_age [] = []
sort_by_age (o ∷ orders) = insert_by_age o (sort_by_age orders)

-- `OrderStatusRepository.find_eligible`
unfoldable pub find_eligible : String → ℕ → ℕ → ℕ → List Order → List ℕ
find_eligible status min_age_seconds limit now orders =
    map (λ o. o.order_id)
      (take limit (sort_by_age (filter_orders (is_eligible status min_age_seconds now) orders)))

-- WHERE order_id = ... AND status = ...
abbrev pub is_at : ℕ → String → Order → Bool
is_at order_id status o = o.order_id == order_id && o.status == status

abbrev pub set_status : ℕ → String → String → ℕ → Order → Order
set_status order_id previous_status new_status now o =
    if is_at order_id previous_status o
    then record o { status = new_status; updated_at = now }
    else o

-- `OrderStatusRepository.transition`
unfoldable pub transition : ℕ → String → String → ℕ → Tables → Bool × Tables
transition order_id previous_status new_status now db =
    let updated = any (is_at order_id previous_status) db.orders in
    (
      updated,
      record {
        orders = map (set_status order_id previous_status new_status now) db.orders;
        history =
            if updated
            then db.history
              ++ record {
                order_id = order_id;
                previous_status = previous_status;
                current_status = new_status;
                changed_at = now;
              }
                ∷ []
            else db.history;
      },
    )

-- the tables and the two counts
pub record Tick : Type 0 where
  pub tables : Tables
  pub advanced : ℕ
  pub cancelled : ℕ

abbrev pub one_if : Bool → ℕ
one_if b = if b then 1 else 0

-- if repository.transition(...): counts["cancelled"] += 1
unfoldable pub cancel : ℕ → String → ℕ → Tick → Tick
unfolding transition
cancel order_id status now t =
    let (updated, db) = transition order_id status "CANCELLED" now t.tables in
    record t { tables = db; cancelled = t.cancelled + one_if updated }

unfoldable pub advance : ℕ → String → String → ℕ → Tick → Tick
unfolding transition
advance order_id status next_status now t =
    let (updated, db) = transition order_id status next_status now t.tables in
    record t { tables = db; advanced = t.advanced + one_if updated }

module _ {W F : Type 0} (fl : Floats F) (random : W → F × W) where
  -- what a roll decides for a candidate
  unfoldable pub decide : Rule → ℕ → ℕ → F → Tick → Tick
  unfolding cancel advance
  decide rule order_id now roll t =
      let p_cancel = fl.literal (or_zero (get rule.status cancel_probability)) in
      if fl.less roll p_cancel
      then cancel order_id rule.status now t
      else if fl.less roll (fl.plus p_cancel (fl.literal rule.probability))
      then advance order_id rule.status rule.next_status now t
      else t

  -- for order_id in candidates
  unfoldable pub roll_candidates : Rule → ℕ → List ℕ → Tick → W → Tick × W
  unfolding decide
  roll_candidates rule now [] t w = (t, w)
  roll_candidates rule now (order_id ∷ candidates) t w =
      let (roll, w') = random w in
      roll_candidates rule now candidates (decide rule order_id now roll t) w'

  -- for status, (...) in _FORWARD_RULES.items()
  unfoldable pub apply_rules : ℕ → List Rule → Tick → W → Tick × W
  unfolding find_eligible roll_candidates
  apply_rules now [] t w = (t, w)
  apply_rules now (rule ∷ rules) t w =
      let candidates =
        find_eligible rule.status rule.min_age_seconds candidates_per_status_per_tick now
          t.tables.orders in
      let (t', w') = roll_candidates rule now candidates t w in apply_rules now rules t' w'

  -- `OrderStatusService.progress_eligible_orders`
  unfoldable pub progress_eligible_orders : ℕ → Tables → W → Tick × W
  unfolding apply_rules
  progress_eligible_orders now db w =
      apply_rules now forward_rules (record { tables = db; advanced = 0; cancelled = 0 }) w
