-- ===== src/Simulator/BatchWriter/Delivery.antt =====
-- What a sequence of `add`s and a final `flush` send.
use modern_data_platform.Prelude.{
  ℕ, ◌+◌, ◌≤◌, String, String_Eq, false, ◌≡◌, ◌⊎◌, inl, inr, refl, sym, ap, ◌∙◌, List, [], ◌∷◌,
  ◌++◌, ◌==◌, append_assoc, append-nil, leb, arith, Bool-cases, if◌then◌else◌,
}
use modern_data_platform.Processing.Outcome.{Reply, answer, failure}
use modern_data_platform.Simulator.BatchWriter.{
  Row, Connection, BatchWriter, new_writer, append_row, with_columns, Flushed, flush_tables,
  commit_flush, flush, add,
}
use modern_data_platform.Simulator.BatchWriter.Laws.{
  UniqueKeys, rows_of, sent_of, total_of, buffered, rows_of-append_row, append_row-UniqueKeys,
  buffered-append_row, Kept, flush_tables-Kept, rows_of-buffered,
}

-- The buffers have each table once, and `pending` counts at least the rows in them.
abbrev IsValid : BatchWriter → Type 0
IsValid b = UniqueKeys b.rows × (buffered b.rows ≤ b.pending)

abbrev pub total : String → BatchWriter → List Row
total t b = total_of t b.sent b.rows

-- What an operation that started with the rows `rows t` for each table leaves.
pub record Left (rows : String → List Row) (r : Reply (Unit {0})) (b : BatchWriter) : Type 0 where
  is_valid : IsValid b
  pub no_row_lost : (t : String) → total t b ≡ rows t
  pub room : r ≡ answer tt → (leb b.flush_threshold b.pending ≡ false) ⊎ (b.pending ≡ 0)

module _ {W : Type 0} (x : Connection W) where
  commit_flush-Left :
      (b : BatchWriter) (f : Flushed W)
      → IsValid b
      → Kept b.rows b.sent f
      → let (r, b', w') = commit_flush x b f in
        Left (λ t. total t b) r b' × (r ≡ answer tt → buffered b'.rows ≡ 0)
  commit_flush-Left b f h k = by_outcome f.outcome refl (x.commit f.world).0 refl
    where
      kept :
          (p : ℕ)
          → buffered f.left ≤ p
          → IsValid (record b { rows = f.left; sent = f.sent; pending = p })
      kept p le = (k.unique, le)

      by_outcome :
          (o : Reply (Unit {0}))
          → f.outcome ≡ o
          → (q : Reply (Unit {0})) → (x.commit f.world).0 ≡ q
          → let (r, b', w') = commit_flush x b f in
            Left (λ t. total t b) r b' × (r ≡ answer tt → buffered b'.rows ≡ 0)
      by_outcome (failure e) eq q eq' = rw eq (
        record {
          is_valid = kept b.pending (omega (arith, k.fewer, h.1));
          no_row_lost = k.no_row_lost;
          room = λ e'. cc;
        },
        λ e'. cc,
      )
      by_outcome (answer u) eq (failure e) eq' =
          rw (commit_flush, eq, eq')
            (
              record {
                is_valid = kept b.pending (omega (arith, k.fewer, h.1));
                no_row_lost = k.no_row_lost;
                room = λ e'. cc;
              },
              λ e'. cc,
            )
      by_outcome (answer u) eq (answer v) eq' =
          let none_left : buffered f.left ≡ 0 = k.emptied eq in
          rw (commit_flush, eq, eq')
            (
              record {
                is_valid = kept 0 (omega (arith, none_left));
                no_row_lost = k.no_row_lost;
                room = λ e'. inr refl;
              },
              λ e'. none_left,
            )

  -- A flush keeps every row, and one that returns has sent them all.
  flush-Left :
      (b : BatchWriter) (w : W)
      → IsValid b
      → let (r, b', w') = flush x b w in
        Left (λ t. total t b) r b' × (r ≡ answer tt → buffered b'.rows ≡ 0)
  unfolding flush
  flush-Left b w h = elim (Bool-cases (leb b.pending 0)) [
    | inl idle ↦ rw idle (
      record { is_valid = h; no_row_lost = λ t. refl; room = λ e. inr (ground arith) },
      λ e. ground (arith, h.1),
    )
    | inr busy ↦ rw busy (
        commit_flush-Left b (flush_tables x b.columns b.rows b.sent w) h
          (flush_tables-Kept x b.columns b.rows b.sent w h.0))
  ]

-- a call of `add`
abbrev pub Insertion : Type 0
Insertion = String × List String × Row

abbrev pub own : String → Insertion → List Row
own t (table, columns, row) = if table == t then row ∷ [] else []

-- the rows that were added for a table, in order
abbrev pub rows_for : String → List Insertion → List Row
rows_for t [] = []
rows_for t (i ∷ is) = own t i ++ rows_for t is

module _ {W : Type 0} (x : Connection W) where
  -- `add` keeps every row and adds its own at the end. If it returns, fewer rows are pending than the
  -- threshold or none is, so the buffers never grow past it.
  pub add-Left :
      (table : String) (columns : List String) (row : Row) (b : BatchWriter) (w : W)
      → IsValid b
      → let (r, b', w') = add x table columns row b w in
        Left (λ t. total t b ++ (if table == t then row ∷ [] else [])) r b'
  unfolding add
  add-Left table columns row b w h = elim (Bool-cases (leb b.flush_threshold (b.pending + 1))) [
    | inl full ↦
        let f = (flush-Left x (more b) w ready).0 in
        rw full (record {
          is_valid = f.is_valid;
          no_row_lost = λ t. f.no_row_lost t ∙ grown t;
          room = f.room;
        })
    | inr room ↦ rw room (record { is_valid = ready; no_row_lost = grown; room = λ e. inl room })
  ]
    where
      more : BatchWriter → BatchWriter
      more b = record b {
        columns = with_columns table columns b.rows b.columns;
        rows = append_row table row b.rows;
        pending = b.pending + 1;
      }

      ready : IsValid (more b)
      ready = (
        append_row-UniqueKeys table row b.rows h.0,
        omega (arith, buffered-append_row table row b.rows, h.1),
      )

      grown : (t : String) → total t (more b) ≡ total t b ++ (if table == t then row ∷ [] else [])
      grown t =
          ap (λ r. sent_of t b.sent ++ r) (rows_of-append_row t table row b.rows)
          ∙ sym (
              append_assoc (sent_of t b.sent) (rows_of t b.rows)
                (if table == t then row ∷ [] else []))

  -- the calls of `add` of a batch, and the `flush` after them; the first exception ends the batch
  abbrev pub add_all : List Insertion → BatchWriter → W → Reply (Unit {0}) × BatchWriter × W
  add_all [] b w = flush x b w
  add_all ((table, columns, row) ∷ is) b w =
      let (r, b', w') = add x table columns row b w in
      let rest = add_all is b' w' in elim r [ failure e ↦ (failure e, b', w') | answer u ↦ rest ]

  add_all_lem :
      (is : List Insertion) (b : BatchWriter) (w : W)
      → IsValid b
      → let (r, b', w') = add_all is b w in
        r ≡ answer tt → (t : String) → sent_of t b'.sent ≡ total t b ++ rows_for t is
  add_all_lem [] b w h ok t =
      let (left, emptied) = flush-Left x b w h in
      let none_left : rows_of t (flush x b w).1.rows ≡ [] =
        rows_of-buffered t (flush x b w).1.rows (emptied ok) in
      sym (append-nil (sent_of t (flush x b w).1.sent))
      ∙ ap (λ r. sent_of t (flush x b w).1.sent ++ r) (sym none_left)
      ∙ left.no_row_lost t
      ∙ sym (append-nil (total t b))
  add_all_lem ((table, columns, row) ∷ is) b w h ok t =
      let (r, b', w') = add x table columns row b w in
      let left = add-Left table columns row b w h in
      by_reply r b' w' (add_all is b' w') ok λ ok'.
        add_all_lem is b' w' left.is_valid ok' t
        ∙ ap (λ rows. rows ++ rows_for t is) (left.no_row_lost t)
        ∙ append_assoc (total t b) (own t (table, columns, row)) (rows_for t is)
    where
      wanted : List Row
      wanted = total t b ++ rows_for t ((table, columns, row) ∷ is)

      by_reply :
          (r : Reply (Unit {0})) (b' : BatchWriter) (w' : W)
          (rest : Reply (Unit {0}) × BatchWriter × W)
          → let p : Reply (Unit {0}) × BatchWriter × W = elim r [
            | failure e ↦ (failure e, b', w')
            | answer u ↦ rest
          ] in
            p.0 ≡ answer tt
            → (rest.0 ≡ answer tt → sent_of t rest.1.sent ≡ wanted)
            → sent_of t p.1.sent ≡ wanted
      by_reply (failure e) b' w' rest ok' h' = cc
      by_reply (answer u) b' w' rest ok' h' = h' ok'

  -- If a batch of `add`s and the `flush` at its end all return, the rows that were sent for each table
  -- are just the rows that were added for it, in the order in which they were added, whatever the
  -- threshold and however the tables alternate.
  pub add_all-delivers :
      (flush_threshold : ℕ) (is : List Insertion) (w : W)
      → (add_all is (new_writer flush_threshold) w).0 ≡ answer tt
      → (t : String) → sent_of t (add_all is (new_writer flush_threshold) w).1.sent ≡ rows_for t is
  add_all-delivers flush_threshold is w ok t =
      add_all_lem is (new_writer flush_threshold) w (tt, omega arith) ok t
