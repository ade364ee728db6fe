-- ===== src/Interpreter/MemStore/Reads.antt =====
-- crates/mangle-interpreter/src/lib.rs, `MemStore`: the scans of its `impl Store`. An
-- iterator that a scan returns is the list of what it yields.
use mangle_rs.Prelude.{
  ℕ, Option, none, some, List, [], ◌∷◌, ◌++◌, get_elem?, nat_eq, list_eq, pair_eq, Str, Outcome,
  ◌>>=◌, or_panic, ok, int_eq,
}
use mangle_rs.Prelude.Map.{Map}
use mangle_rs.Prelude.Assoc
use mangle_rs.Prelude.Assoc.{Assoc}
use mangle_rs.Common.Value.{Value}
use mangle_rs.Common.Value.Equality.{value_eq}
use mangle_rs.Interpreter.Cells.{Cell, Row, Tuple, unflatten_tuple, value_to_index_key}
use mangle_rs.Interpreter.Cells.Skip.{cell_eq}
use mangle_rs.Interpreter.MemStore.State.{Tables, Indexes, MemStore, rows, n_cols}

-- the values that each row holds
unfoldable pub read_rows : ℕ → List Row → Outcome (List Tuple)
read_rows n [] = ok []
read_rows n (cells ∷ rest) = do t ← unflatten_tuple cells n; ts ← read_rows n rest; ok (t ∷ ts)

unfoldable pub scan : MemStore → Str → Outcome (List Tuple)
unfolding read_rows
scan s relation = do
  stable ← read_rows (n_cols s relation) (rows s.stable relation)
  delta ← read_rows (n_cols s relation) (rows s.delta relation)
  ok (stable ++ delta)

unfoldable pub scan_delta : MemStore → Str → Outcome (List Tuple)
unfolding read_rows
scan_delta s relation = read_rows (n_cols s relation) (rows s.delta relation)

unfoldable pub scan_next_delta : MemStore → Str → Outcome (List Tuple)
unfolding read_rows
scan_next_delta s relation = read_rows (n_cols s relation) (rows s.next_delta relation)

-- `for &i in row_indices { results.push(unflatten_tuple(&table[i], n_cols)) }`
unfoldable pub read_at : ℕ → List Row → List ℕ → Outcome (List Tuple)
read_at n table [] = ok []
read_at n table (i ∷ is) = do
  cells ← or_panic (get_elem? table i)
  t ← unflatten_tuple cells n
  ts ← read_at n table is
  ok (t ∷ ts)

-- the rows that the found row numbers name, where the table is there too
unfoldable pub hits_in : ℕ → Option (List ℕ) → Option (List Row) → Outcome (List Tuple)
unfolding read_at
hits_in n none table = ok []
hits_in n (some is) none = ok []
hits_in n (some is) (some table) = read_at n table is

unfoldable pub column_hits :
    ℕ → Option (Map Cell (List ℕ)) → Cell → Option (List Row) → Outcome (List Tuple)
unfolding hits_in
column_hits n none key table = ok []
column_hits n (some column) key table = hits_in n (column key) table

-- `if let Some(idx_map) = .. && let Some(row_indices) = .. && let Some(table) = ..`
unfoldable pub index_hits : Indexes → Tables → ℕ → Str → ℕ → Cell → Outcome (List Tuple)
unfolding column_hits
index_hits indexes tables n relation col key =
    column_hits n (indexes (relation, col)) key (Assoc.lookup relation tables)

unfoldable pub scan_index : MemStore → Str → ℕ → Value → Outcome (List Tuple)
unfolding index_hits
scan_index s relation col key = do
  let cell = value_to_index_key key
  stable ← index_hits s.stable_indexes s.stable (n_cols s relation) relation col cell
  delta ← index_hits s.delta_indexes s.delta (n_cols s relation) relation col cell
  ok (stable ++ delta)

unfoldable pub scan_delta_index : MemStore → Str → ℕ → Value → Outcome (List Tuple)
unfolding index_hits
scan_delta_index s relation col key =
    index_hits s.delta_indexes s.delta (n_cols s relation) relation col (value_to_index_key key)
