-- ===== src/Simulator/BatchWriter/Laws.antt =====
-- No row is lost between `add` and the statement that inserts it.
use mathlib.Core.Path.{subst}
use modern_data_platform.Prelude.{
  ℕ, ◌+◌, ◌≤◌, String, String_Eq, true, false, ◌≡◌, inl, inr, refl, sym, ap, ◌∙◌, Option, none,
  some, List, [], ◌∷◌, ◌++◌, ◌==◌, eq_iff, map, length, append-nil, arith, Bool-cases,
  if◌then◌else◌, length-append, is_some, concat,
}
use modern_data_platform.Prelude.Dict.{Dict, get, contains}
use modern_data_platform.Processing.Outcome.{Reply, answer, failure}
use modern_data_platform.Simulator.BatchWriter.{
  Row, Connection, append_row, note_sent, Flushed, with_table, flush_tables, build_insert,
  columns_of,
}

-- a dict has each key once
abbrev pub UniqueKeys : Dict String (List Row) → Type 0
UniqueKeys [] = Unit
UniqueKeys ((t, rows) ∷ d) = (contains t d ≡ false) × UniqueKeys d

-- the rows that wait for a table, and those that were sent for it
abbrev or_nil : Option (List Row) → List Row
or_nil none = []
or_nil (some rows) = rows

abbrev pub rows_of : String → Dict String (List Row) → List Row
rows_of t d = or_nil (get t d)

abbrev pub sent_of : String → List (String × Row) → List Row
sent_of t [] = []
sent_of t ((k, row) ∷ sent) = let rest = sent_of t sent in if k == t then row ∷ rest else rest

abbrev pub buffered : Dict String (List Row) → ℕ
buffered [] = 0
buffered ((t, rows) ∷ d) = length rows + buffered d

abbrev pub total_of : String → List (String × Row) → Dict String (List Row) → List Row
total_of t sent d = sent_of t sent ++ rows_of t d

pub rows_of-append_row :
    (t k : String) (row : Row) (d : Dict String (List Row))
    → rows_of t (append_row k row d) ≡ rows_of t d ++ (if k == t then row ∷ [] else [])
rows_of-append_row t k row [] = elim (Bool-cases (k == t)) [ inl e ↦ rw e refl | inr e ↦ rw e refl ]
rows_of-append_row t k row ((j, rows) ∷ d) = elim (Bool-cases (j == k)) [
  | inl e ↦ elim (Bool-cases (j == t)) [
    | inl e' ↦
        let same : (k == t) ≡ true = ground (arith, eq_iff j k, eq_iff j t, eq_iff k t) in
        rw (e, e', same) refl
    | inr e' ↦
        let other : (k == t) ≡ false = ground (arith, eq_iff j k, eq_iff j t, eq_iff k t) in
        rw (e, e', other) (sym (append-nil (rows_of t d)))
  ]
  | inr e ↦ elim (Bool-cases (j == t)) [
    | inl e' ↦
        let other : (k == t) ≡ false = ground (arith, eq_iff j k, eq_iff j t, eq_iff k t) in
        rw (e, e', other) (sym (append-nil rows))
    | inr e' ↦ rw (e, e') (rows_of-append_row t k row d)
  ]
]

contains-append_row :
    (t k : String) (row : Row) (d : Dict String (List Row))
    → (k == t) ≡ false
    → contains t (append_row k row d) ≡ contains t d
contains-append_row t k row [] e = ground arith
contains-append_row t k row ((j, rows) ∷ d) e =
    ground (arith, contains-append_row t k row d e, eq_iff j k, eq_iff j t, eq_iff k t)

pub append_row-UniqueKeys :
    (k : String) (row : Row) (d : Dict String (List Row))
    → UniqueKeys d
    → UniqueKeys (append_row k row d)
append_row-UniqueKeys k row [] h = (refl, tt)
append_row-UniqueKeys k row ((j, rows) ∷ d) h = elim (Bool-cases (j == k)) [
  | inl e ↦ rw e h
  | inr e ↦
      let flip : (k == j) ≡ false = ground (arith, eq_iff j k, eq_iff k j) in
      rw e (contains-append_row j k row d flip ∙ h.0, append_row-UniqueKeys k row d h.1)
]

pub buffered-append_row :
    (k : String) (row : Row) (d : Dict String (List Row))
    → buffered (append_row k row d) ≡ buffered d + 1
buffered-append_row k row [] = omega arith
buffered-append_row k row ((j, rows) ∷ d) =
    ground (arith, length-append rows (row ∷ []), buffered-append_row k row d)

sent_of-append :
    (t : String) (xs ys : List (String × Row)) → sent_of t (xs ++ ys) ≡ sent_of t xs ++ sent_of t ys
sent_of-append t [] ys = refl
sent_of-append t ((k, row) ∷ xs) ys = ground (arith, sent_of-append t xs ys)

sent_of-tagged :
    (t k : String) (rows : List Row)
    → sent_of t (map (λ row. (k, row)) rows) ≡ (if k == t then rows else [])
sent_of-tagged t k [] = ground arith
sent_of-tagged t k (row ∷ rows) = ground (arith, sent_of-tagged t k rows)

rows_of-absent : (t : String) (d : Dict String (List Row)) → contains t d ≡ false → rows_of t d ≡ []
rows_of-absent t d h = by_lookup (get t d) h
  where
    by_lookup : (o : Option (List Row)) → is_some o ≡ false → or_nil o ≡ []
    by_lookup none h = refl
    by_lookup (some rows) h = cc

-- What the loop of a flush keeps, whether it ends or raises.
pub record Kept {W : Type 0} (d : Dict String (List Row)) (sent : List (String × Row))
    (f : Flushed W) : Type 0 where
  same_keys : (t : String) → contains t f.left ≡ contains t d
  pub unique : UniqueKeys f.left
  pub no_row_lost : (t : String) → total_of t f.sent f.left ≡ total_of t sent d
  pub fewer : buffered f.left ≤ buffered d
  pub emptied : f.outcome ≡ answer tt → buffered f.left ≡ 0

-- the rows of a table that was sent, if there were any
Kept-cons :
    {W : Type 0} (k : String) (rows : List Row) (d : Dict String (List Row))
    (sent : List (String × Row)) (f : Flushed W)
    → contains k d ≡ false
    → Kept d (note_sent k rows sent) f
    → Kept ((k, rows) ∷ d) sent (record f { left = (k, []) ∷ f.left })
Kept-cons k rows d sent f fresh h = record {
  same_keys = λ t. elim (Bool-cases (k == t)) [ inl e ↦ rw e refl | inr e ↦ rw e (h.same_keys t) ];
  unique = (h.same_keys k ∙ fresh, h.unique);
  no_row_lost = λ t. elim (Bool-cases (k == t)) [
    | inl e ↦
        let same : k ≡ t = (eq_iff k t).0 e in
        let gone : rows_of t d ≡ [] =
          rows_of-absent t d (subst (λ j. contains j d ≡ false) same fresh) in
        let gone' : rows_of t f.left ≡ [] =
          rows_of-absent t f.left (h.same_keys t ∙ subst (λ j. contains j d ≡ false) same fresh) in
        rw e (
          ap (λ r. sent_of t f.sent ++ r) (sym gone')
          ∙ h.no_row_lost t
          ∙ ap (λ r. sent_of t (note_sent k rows sent) ++ r) gone
          ∙ append-nil (sent_of t (note_sent k rows sent))
          ∙ sent_of-append t sent (map (λ row. (k, row)) rows)
          ∙ ap (λ r. sent_of t sent ++ r) (sent_of-tagged t k rows ∙ rw e refl))
    | inr e ↦ rw e (
        h.no_row_lost t
        ∙ ap (λ r. r ++ rows_of t d)
            (sent_of-append t sent (map (λ row. (k, row)) rows)
              ∙ ap (λ r. sent_of t sent ++ r) (sent_of-tagged t k rows ∙ rw e refl)
              ∙ append-nil (sent_of t sent)))
  ];
  fewer = omega (arith, h.fewer);
  emptied = λ e. omega (arith, h.emptied e);
}

module _ {W : Type 0} (x : Connection W) (columns : Dict String (List String)) where
  pub flush_tables-Kept :
      (d : Dict String (List Row)) (sent : List (String × Row)) (w : W)
      → UniqueKeys d
      → Kept d sent (flush_tables x columns d sent w)
  unfolding flush_tables
  flush_tables-Kept [] sent w h = record {
    same_keys = λ t. refl;
    unique = tt;
    no_row_lost = λ t. refl;
    fewer = omega arith;
    emptied = λ e. refl;
  }
  flush_tables-Kept ((k, []) ∷ d) sent w h =
      Kept-cons k [] d sent (flush_tables x columns d sent w) h.0
        (rw (append-nil sent) (flush_tables-Kept d sent w h.1))
  flush_tables-Kept ((k, row ∷ rows) ∷ d) sent w h =
      by_reply
        (x.execute (build_insert k (columns_of k columns) (length (row ∷ rows)))
          (concat (row ∷ rows)) w).0
        (x.execute (build_insert k (columns_of k columns) (length (row ∷ rows)))
          (concat (row ∷ rows)) w).1
        (λ w'. flush_tables-Kept d (note_sent k (row ∷ rows) sent) w' h.1)
    where
      by_reply :
          (r : Reply (Unit {0})) (w' : W)
          → ((w'' : W)
              → Kept d
                  (note_sent k (row ∷ rows) sent)
                  (flush_tables x columns d (note_sent k (row ∷ rows) sent) w''))
          → Kept ((k, row ∷ rows) ∷ d) sent (elim r [
            | failure e ↦ record {
              outcome = failure e;
              left = (k, row ∷ rows) ∷ d;
              sent = sent;
              world = w';
            }
            | answer u ↦
                with_table x (k, []) (flush_tables x columns d (note_sent k (row ∷ rows) sent) w')
          ])
      by_reply (failure e) w' later = record {
        same_keys = λ t. refl;
        unique = h;
        no_row_lost = λ t. refl;
        fewer = omega arith;
        emptied = λ q. cc;
      }
      by_reply (answer u) w' later =
          Kept-cons k (row ∷ rows) d sent
            (flush_tables x columns d (note_sent k (row ∷ rows) sent) w') h.0 (later w')

pub rows_of-buffered : (t : String) (d : Dict String (List Row)) → buffered d ≡ 0 → rows_of t d ≡ []
rows_of-buffered t [] h = refl
rows_of-buffered t ((k, []) ∷ d) h = elim (Bool-cases (k == t)) [
  | inl e ↦ rw e refl
  | inr e ↦ rw e (rows_of-buffered t d (omega (arith, h)))
]
rows_of-buffered t ((k, row ∷ rows) ∷ d) h = absurd (omega (arith, h))
