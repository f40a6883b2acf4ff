-- ===== src/Simulator/OrderStatus/Audit.antt =====
-- The history of a tick replays to what the tick made of the orders.
use modern_data_platform.Prelude.{
  ℕ, suc, ◌+◌, ◌*◌, ◌≤◌, ℕ_Eq, String, String_Eq, false, ◌≡◌, inl, inr, refl, sym, ap, ◌∙◌, List,
  [], ◌∷◌, ◌++◌, map, any, length, length-append, append_assoc, append-nil, arith, Bool-cases,
}
use modern_data_platform.Prelude.Dict.{get}
use modern_data_platform.Simulator.OrderStatus.{
  Order, Transition, Tables, Rule, Tick, Floats, forward_rules, cancel_probability, or_zero,
  candidates_per_status_per_tick, is_at, set_status, find_eligible, transition, one_if, cancel,
  advance, decide, roll_candidates, apply_rules, progress_eligible_orders,
}
use modern_data_platform.Simulator.OrderStatus.Candidates.{length-find_eligible}

-- the table after a list of transitions
abbrev replay : List Transition → List Order → List Order
replay [] orders = orders
replay (t ∷ ts) orders =
    replay ts (map (set_status t.order_id t.previous_status t.current_status t.changed_at) orders)

replay-append :
    (ts us : List Transition) (orders : List Order)
    → replay (ts ++ us) orders ≡ replay us (replay ts orders)
replay-append [] us orders = refl
replay-append (t ∷ ts) us orders =
    replay-append ts us
      (map (set_status t.order_id t.previous_status t.current_status t.changed_at) orders)

map-untouched :
    (id : ℕ) (previous status : String) (now : ℕ) (orders : List Order)
    → any (is_at id previous) orders ≡ false
    → map (set_status id previous status now) orders ≡ orders
map-untouched id previous status now [] h = refl
map-untouched id previous status now (o ∷ orders) h =
    let here : is_at id previous o ≡ false = ground arith in
    let later : any (is_at id previous) orders ≡ false = ground arith in
    rw here (ap (λ os. o ∷ os) (map-untouched id previous status now orders later))

-- What the tables tell after some work that began with `db`: `n` transitions at most, all of them
-- counted and on record.
pub record Audited (db : Tables) (done : ℕ) (n : ℕ) (t : Tick) : Type 0 where
  pub new : List Transition
  recorded : t.tables.history ≡ db.history ++ new
  replayed : replay new db.orders ≡ t.tables.orders
  pub counted : t.advanced + t.cancelled ≡ done + length new
  pub at_most : length new ≤ n

Audited-none : (t : Tick) → Audited t.tables (t.advanced + t.cancelled) 0 t
Audited-none t = record {
  new = [];
  recorded = sym (append-nil t.tables.history);
  replayed = refl;
  counted = omega arith;
  at_most = omega arith;
}

-- a transition, and its count on either side
transition-Audited :
    (id : ℕ) (previous status : String) (now : ℕ) (t : Tick) (advanced cancelled : ℕ)
    → advanced + cancelled
      ≡ t.advanced + t.cancelled + one_if (transition id previous status now t.tables).0
    → Audited t.tables (t.advanced + t.cancelled) 1 (record {
      tables = (transition id previous status now t.tables).1;
      advanced = advanced;
      cancelled = cancelled;
    })
unfolding transition
transition-Audited id previous status now t advanced cancelled count =
    elim (Bool-cases (any (is_at id previous) t.tables.orders)) [
      | inl hit ↦ record {
        new =
            record {
              order_id = id;
              previous_status = previous;
              current_status = status;
              changed_at = now;
            }
            ∷ [];
        recorded = rw hit refl;
        replayed = refl;
        counted = count ∙ rw hit (omega arith);
        at_most = omega arith;
      }
      | inr miss ↦ record {
        new = [];
        recorded = rw miss (sym (append-nil t.tables.history));
        replayed = sym (map-untouched id previous status now t.tables.orders miss);
        counted = count ∙ rw miss (omega arith);
        at_most = omega arith;
      }
    ]

Audited-weaken :
    (db : Tables) (done n n' : ℕ) (t : Tick) → n ≤ n' → Audited db done n t → Audited db done n' t
Audited-weaken db done n n' t le h = record {
  new = h.new;
  recorded = h.recorded;
  replayed = h.replayed;
  counted = h.counted;
  at_most = omega (arith, h.at_most, le);
}

Audited-then :
    (db : Tables) (done n n' : ℕ) (t t' : Tick)
    → Audited db done n t
    → Audited t.tables (t.advanced + t.cancelled) n' t'
    → Audited db done (n + n') t'
Audited-then db done n n' t t' h g = record {
  new = h.new ++ g.new;
  recorded = g.recorded ∙ ap (λ r. r ++ g.new) h.recorded ∙ append_assoc db.history h.new g.new;
  replayed = replay-append h.new g.new db.orders ∙ ap (replay g.new) h.replayed ∙ g.replayed;
  counted = omega (arith, g.counted, h.counted, length-append h.new g.new);
  at_most = omega (arith, length-append h.new g.new, h.at_most, g.at_most);
}

module _ {W F : Type 0} (fl : Floats F) (random : W → F × W) (now : ℕ) where
  decide-Audited :
      (rule : Rule) (id : ℕ) (roll : F) (t : Tick)
      → Audited t.tables (t.advanced + t.cancelled) 1 (decide fl random rule id now roll t)
  unfolding decide cancel advance
  decide-Audited rule id roll t =
      elim (Bool-cases (fl.less roll (fl.literal (or_zero (get rule.status cancel_probability))))) [
        | inl low ↦ rw low (
            transition-Audited id rule.status "CANCELLED" now t t.advanced
              (t.cancelled + one_if (transition id rule.status "CANCELLED" now t.tables).0)
              (omega arith))
        | inr high ↦
            elim (Bool-cases (
              fl.less roll (
                fl.plus (fl.literal (or_zero (get rule.status cancel_probability)))
                  (fl.literal rule.probability)))) [
                    | inl low ↦
                        rw (high, low)
                          (transition-Audited id rule.status rule.next_status now t
                            (t.advanced
                              + one_if (transition id rule.status rule.next_status now t.tables).0)
                            t.cancelled (omega arith))
                    | inr higher ↦
                        rw (high, higher)
                          (Audited-weaken t.tables (t.advanced + t.cancelled) 0 1 t (omega arith)
                            (Audited-none t))
                  ]
      ]

  roll_candidates-Audited :
      (rule : Rule) (ids : List ℕ) (t : Tick) (w : W)
      → Audited t.tables
          (t.advanced + t.cancelled)
          (length ids)
          (roll_candidates fl random rule now ids t w).0
  unfolding roll_candidates
  roll_candidates-Audited rule [] t w = Audited-none t
  roll_candidates-Audited rule (id ∷ ids) t w =
      let t' = decide fl random rule id now (random w).0 t in
      let t'' = (roll_candidates fl random rule now ids t' (random w).1).0 in
      Audited-weaken t.tables (t.advanced + t.cancelled) (1 + length ids) (suc (length ids)) t''
        (omega arith)
        (Audited-then t.tables (t.advanced + t.cancelled) 1 (length ids) t' t''
          (decide-Audited rule id (random w).0 t)
          (roll_candidates-Audited rule ids t' (random w).1))

  apply_rules-Audited :
      (rules : List Rule) (t : Tick) (w : W)
      → Audited t.tables
          (t.advanced + t.cancelled)
          (length rules * candidates_per_status_per_tick)
          (apply_rules fl random now rules t w).0
  unfolding apply_rules
  apply_rules-Audited [] t w = Audited-none t
  apply_rules-Audited (rule ∷ rules) t w =
      let orders = t.tables.orders in
      let candidates =
        find_eligible rule.status rule.min_age_seconds candidates_per_status_per_tick now orders in
      let (t', w') = roll_candidates fl random rule now candidates t w in
      let t'' = (apply_rules fl random now rules t' w').0 in
      let few =
        length-find_eligible rule.status rule.min_age_seconds candidates_per_status_per_tick now
          orders in
      Audited-weaken t.tables (t.advanced + t.cancelled)
        (length candidates + length rules * candidates_per_status_per_tick)
        (suc (length rules) * candidates_per_status_per_tick) t'' (omega (arith, few))
        (Audited-then t.tables (t.advanced + t.cancelled) (length candidates)
          (length rules * candidates_per_status_per_tick) t' t''
          (roll_candidates-Audited rule candidates t w) (apply_rules-Audited rules t' w'))

-- In one tick the history only grows, by at most 60 rows; there are as many new ones as orders were
-- counted as advanced or cancelled; and replaying them, in their order, on the orders before the tick
-- gives the orders after it.
pub progress_eligible_orders-Audited :
    {W F : Type 0} (fl : Floats F) (random : W → F × W) (now : ℕ) (db : Tables) (w : W)
    → Audited db 0 60 (progress_eligible_orders fl random now db w).0
unfolding progress_eligible_orders
progress_eligible_orders-Audited fl random now db w =
    apply_rules-Audited fl random now forward_rules
      (record { tables = db; advanced = 0; cancelled = 0 }) w
