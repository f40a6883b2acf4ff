-- ===== src/Streaming/Bronze/Growth.antt =====
-- Rows only ever go in at the end of a buffer: what a poll leaves alone.
use modern_data_platform.Prelude.{
  ℕ, suc, ◌+◌, ◌≤◌, Option, none, some, List, [], ◌∷◌, ◌++◌, ◌≡◌, refl, ap, ◌∙◌, append_assoc,
  length, length-append, arith,
}
use modern_data_platform.Processing.Outcome.{Reply, answer, failure}
use modern_data_platform.Streaming.Debezium.{Row, DebeziumChange}
use modern_data_platform.Streaming.Bronze.{
  Backend, Slot, open_at, add, add_change, buffer_message, buffer_messages,
}

-- What growing the buffer by at most `k` rows leaves alone.
pub record Grown (k : ℕ) (s s' : Slot) : Type 0 where
  pub same_flight : s'.flight ≡ s.flight
  pub same_settled : s'.settled ≡ s.settled
  pub same_written : s'.written ≡ s.written
  pub same_size : s'.buffer.max_size ≡ s.buffer.max_size
  pub grows : length s'.buffer.records ≤ length s.buffer.records + k
  pub accounted :
      (rest : List Row)
      → s.accepted ≡ rest ++ s.buffer.records
      → s'.accepted ≡ rest ++ s'.buffer.records

pub Grown-none : (s : Slot) → Grown 0 s s
Grown-none s = record {
  same_flight = refl;
  same_settled = refl;
  same_written = refl;
  same_size = refl;
  grows = omega arith;
  accounted = λ rest h. h;
}

pub Grown-more : (j k : ℕ) {s t u : Slot} → Grown j s t → Grown k t u → Grown (j + k) s u
Grown-more j k g h = record {
  same_flight = h.same_flight ∙ g.same_flight;
  same_settled = h.same_settled ∙ g.same_settled;
  same_written = h.same_written ∙ g.same_written;
  same_size = h.same_size ∙ g.same_size;
  grows = omega (arith, g.grows, h.grows);
  accounted = λ rest e. h.accounted rest (g.accounted rest e);
}

pub Grown-at_most : (j k : ℕ) {s t : Slot} → j ≤ k → Grown j s t → Grown k s t
Grown-at_most j k le g = record {
  same_flight = g.same_flight;
  same_settled = g.same_settled;
  same_written = g.same_written;
  same_size = g.same_size;
  grows = omega (arith, g.grows, le);
  accounted = g.accounted;
}

-- a slot that differs from `s` in its buffer's bookkeeping and holds one row more
abbrev with_row : Row → Slot → Option ℕ → Slot
with_row row s opened = record s {
  buffer = record s.buffer { opened_at = opened; records = s.buffer.records ++ row ∷ [] };
  accepted = s.accepted ++ row ∷ [];
}

pub Grown-with_row : (row : Row) (s : Slot) (opened : Option ℕ) → Grown 1 s (with_row row s opened)
Grown-with_row row s opened = record {
  same_flight = refl;
  same_settled = refl;
  same_written = refl;
  same_size = refl;
  grows = omega (arith, length-append s.buffer.records (row ∷ []));
  accounted = λ rest h. ap (λ r. r ++ row ∷ []) h ∙ append_assoc rest s.buffer.records (row ∷ []);
}

module _ {W B : Type 0} (x : Backend W B) where
  pub Grown-add : (row : Row) (s : Slot) (w : W) → Grown 1 s (add x row s w).0
  unfolding add
  Grown-add row s w = Grown-with_row row s (some (open_at x s.buffer.opened_at w).0)

  pub Grown-add_change :
      (c : DebeziumChange) (row : Option Row) (s : Slot) (w : W)
      → Grown 1 s (add_change x c row s w).0
  Grown-add_change c none s w = Grown-at_most 0 1 (omega arith) (Grown-none s)
  Grown-add_change c (some row) s w = Grown-add _ s w

  pub Grown-buffer_message :
      (value : B) (s : Slot) (w : W) → Grown 1 s (buffer_message x value s w).0
  unfolding buffer_message
  Grown-buffer_message value s w = by_reply (x.decode_debezium_message value)
    where
      by_reply :
          (r : Reply DebeziumChange)
          → let p : Slot × W = elim r [
            | failure e ↦ (s, w)
            | answer c ↦ add_change x c c.record_of s w
          ] in
            Grown 1 s p.0
      by_reply (failure e) = Grown-at_most 0 1 (omega arith) (Grown-none s)
      by_reply (answer c) = Grown-add_change c c.record_of s w

  pub Grown-buffer_messages :
      (values : List B) (s : Slot) (w : W)
      → Grown (length values) s (buffer_messages x values s w).0
  unfolding buffer_messages
  Grown-buffer_messages [] s w = Grown-none s
  Grown-buffer_messages (value ∷ values) s w =
      let (s', w') = buffer_message x value s w in
      Grown-at_most (1 + length values) (suc (length values)) (omega arith) (
        Grown-more 1 (length values) (Grown-buffer_message value s w)
          (Grown-buffer_messages values s' w'))

-- the bookkeeping of polls is no row
abbrev pub with_counters : Slot → ℕ → ℕ → Slot
with_counters s empty rounds = record s {
  buffer = record s.buffer { consecutive_empty_polls = empty; rounds_since_last_poll = rounds };
}

pub Grown-with_counters : (s : Slot) (empty rounds : ℕ) → Grown 0 s (with_counters s empty rounds)
Grown-with_counters s empty rounds = record {
  same_flight = refl;
  same_settled = refl;
  same_written = refl;
  same_size = refl;
  grows = omega arith;
  accounted = λ rest h. h;
}
