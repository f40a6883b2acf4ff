-- ===== src/Simulator/BatchWriter.antt =====
-- simulator/core/batch_writer.py. The cursor's `execute` and the connection's `commit` are parameters.
-- The field `sent` is a record of what happened that the program does not keep: the rows of every
-- statement that returned.
pub mod Laws
pub mod Delivery
use modern_data_platform.Prelude.{
  ℕ, zero, suc, ◌+◌, String, String_Eq, Bool, true, false, Option, none, some, List, [], ◌∷◌, ◌++◌,
  ◌==◌, map, length, replicate, concat, leb, if◌then◌else◌, text_append,
}
use modern_data_platform.Prelude.Dict.{Dict, get, put, contains}
use modern_data_platform.Prelude.Value.{Value}
use modern_data_platform.Processing.Outcome.{Exn, Reply, answer, failure}

-- the values of a row, in the order of the columns
abbrev pub Row : Type 0
Row = List Value

pub record Connection (W : Type 0) : Type 0 where
  pub execute : String → List Value → W → Reply (Unit {0}) × W
  pub commit : W → Reply (Unit {0}) × W

pub record BatchWriter : Type 0 where
  pub flush_threshold : ℕ
  pub rows : Dict String (List Row)
  pub columns : Dict String (List String)
  pub pending : ℕ
  pub sent : List (String × Row)

abbrev pub new_writer : ℕ → BatchWriter
new_writer flush_threshold = record {
  flush_threshold = flush_threshold;
  rows = [];
  columns = [];
  pending = 0;
  sent = [];
}

-- separator.join(texts)
abbrev join : String → List String → String
join separator [] = ""
join separator (t ∷ []) = t
join separator (t ∷ u ∷ texts) = text_append t (text_append separator (join separator (u ∷ texts)))

-- `_build_insert`
unfoldable pub build_insert : String → List String → ℕ → String
build_insert table columns row_count =
    let group = text_append "(" (text_append (join ", " (replicate (length columns) "%s")) ")") in
    text_append "INSERT INTO " (
      text_append table (
        text_append " (" (
          text_append (join ", " columns) (
            text_append ") VALUES "
              (text_append (join ", " (replicate row_count group)) " ON CONFLICT DO NOTHING")))))

-- self._columns[table]; a table of `_rows` always has its columns
abbrev pub columns_of : String → Dict String (List String) → List String
columns_of table columns = elim (get table columns) [ none ↦ [] | some cs ↦ cs ]

abbrev pub note_sent : String → List Row → List (String × Row) → List (String × Row)
note_sent table rows sent = sent ++ map (λ row. (table, row)) rows

-- self._rows[table].append(values), for a table that may be new
abbrev pub append_row : String → Row → Dict String (List Row) → Dict String (List Row)
append_row table values [] = (table, values ∷ []) ∷ []
append_row table values ((t, rows) ∷ d) =
    if t == table then (t, rows ++ values ∷ []) ∷ d else (t, rows) ∷ append_row table values d

abbrev pub with_columns :
    String
    → List String
    → Dict String (List Row)
    → Dict String (List String)
    → Dict String (List String)
with_columns table cs rows columns = if contains table rows then columns else put table cs columns

-- What the loop of `flush` leaves: its outcome, the buffers, and the rows that were sent.
pub record Flushed (W : Type 0) : Type 0 where
  pub outcome : Reply (Unit {0})
  pub left : Dict String (List Row)
  pub sent : List (String × Row)
  pub world : W

module _ {W : Type 0} (x : Connection W) where
  abbrev pub with_table : String × List Row → Flushed W → Flushed W
  with_table entry f = record f { left = entry ∷ f.left }

  -- for table, rows in self._rows.items()
  unfoldable pub flush_tables :
      Dict String (List String) → Dict String (List Row) → List (String × Row) → W → Flushed W
  unfolding build_insert
  flush_tables columns [] sent w = record { outcome = answer tt; left = []; sent = sent; world = w }
  flush_tables columns ((table, []) ∷ d) sent w =
      with_table (table, []) (flush_tables columns d sent w)
  flush_tables columns ((table, row ∷ rows) ∷ d) sent w =
      let (r, w') =
        x.execute (build_insert table (columns_of table columns) (length (row ∷ rows)))
          (concat (row ∷ rows)) w in
      elim r [
        | failure e ↦ record {
          outcome = failure e;
          left = (table, row ∷ rows) ∷ d;
          sent = sent;
          world = w';
        }
        | answer u ↦
            with_table (table, []) (flush_tables columns d (note_sent table (row ∷ rows) sent) w')
      ]

  -- the end of `flush`, after the loop
  abbrev pub commit_flush : BatchWriter → Flushed W → Reply (Unit {0}) × BatchWriter × W
  commit_flush b f = elim f.outcome [
    | failure e ↦ (failure e, record b { rows = f.left; sent = f.sent }, f.world)
    | answer u ↦
        let (r, w') = x.commit f.world in
        elim r [
          | failure e ↦ (failure e, record b { rows = f.left; sent = f.sent }, w')
          | answer v ↦ (answer tt, record b { rows = f.left; sent = f.sent; pending = 0 }, w')
        ]
  ]

  -- `BatchWriter.flush`
  unfoldable pub flush : BatchWriter → W → Reply (Unit {0}) × BatchWriter × W
  unfolding flush_tables
  flush b w =
      if leb b.pending 0
      then (answer tt, b, w)
      else commit_flush b (flush_tables b.columns b.rows b.sent w)

  -- `BatchWriter.add`
  unfoldable pub add :
      String → List String → Row → BatchWriter → W → Reply (Unit {0}) × BatchWriter × W
  unfolding flush
  add table columns values b w =
      let b' : BatchWriter = record b {
        columns = with_columns table columns b.rows b.columns;
        rows = append_row table values b.rows;
        pending = b.pending + 1;
      } in
      if leb b'.flush_threshold b'.pending then flush b' w else (answer tt, b', w)
