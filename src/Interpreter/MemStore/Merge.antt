-- ===== src/Interpreter/MemStore/Merge.antt =====
-- crates/mangle-interpreter/src/lib.rs, `MemStore`: `merge_deltas`.
use mangle_rs.Prelude.{
  ℕ, ◌+◌, List, [], ◌∷◌, ◌++◌, if◌then◌else◌, get_or, length, ◌==◌, nat_eq, list_eq, pair_eq, Str,
  Outcome, ◌>>=◌, ok, int_eq,
}
use mangle_rs.Prelude.Map
use mangle_rs.Prelude.Map.{Map}
use mangle_rs.Prelude.Assoc
use mangle_rs.Prelude.Assoc.{Assoc}
use mangle_rs.Common.Value.Equality.{value_eq}
use mangle_rs.Interpreter.Cells.{Row, count_logical_values}
use mangle_rs.Interpreter.Cells.Skip.{cell_eq}
use mangle_rs.Interpreter.MemStore.State.{Tables, Indexes, MemStore, rows}
use mangle_rs.Interpreter.MemStore.Index.{index_cells}

-- the rows of one relation's delta, moved behind its stable rows
unfoldable pub merge_rows : ℕ → Str → List Row → List Row → Indexes → Outcome (List Row × Indexes)
merge_rows n relation [] table indexes = ok (table, indexes)
merge_rows n relation (cells ∷ rest) table indexes = do
  count ← count_logical_values cells
  let skip = merge_rows n relation rest table indexes
  let move : Outcome (List Row × Indexes) =
      index_cells indexes relation cells n (length table) >>= λ indexes'.
      merge_rows n relation rest (table ++ cells ∷ []) indexes'
  if count == n then move else skip

-- `for (rel_name, tuples) in self.delta.drain()`
unfoldable pub merge_tables : Map Str ℕ → Tables → Tables → Indexes → Outcome (Tables × Indexes)
unfolding merge_rows
merge_tables arity [] stable indexes = ok (stable, indexes)
merge_tables arity ((relation, tuples) ∷ rest) stable indexes = do
  (table, indexes') ←
      merge_rows (get_or (arity relation) 0) relation tuples (rows stable relation) indexes
  merge_tables arity rest (Assoc.insert stable relation table) indexes'

-- the index of one relation's new delta, which leaves out rows of a wrong length
unfoldable pub index_delta_rows : ℕ → Str → List Row → ℕ → Indexes → Outcome Indexes
index_delta_rows n relation [] row_idx indexes = ok indexes
index_delta_rows n relation (cells ∷ rest) row_idx indexes = do
  count ← count_logical_values cells
  let skip = index_delta_rows n relation rest (row_idx + 1) indexes
  let add : Outcome Indexes = index_cells indexes relation cells n row_idx >>= λ indexes'.
      index_delta_rows n relation rest (row_idx + 1) indexes'
  if count == n then add else skip

unfoldable pub index_delta : Map Str ℕ → Tables → Indexes → Outcome Indexes
unfolding index_delta_rows
index_delta arity [] indexes = ok indexes
index_delta arity ((relation, tuples) ∷ rest) indexes = do
  indexes' ← index_delta_rows (get_or (arity relation) 0) relation tuples 0 indexes
  index_delta arity rest indexes'

unfoldable pub merge_deltas : MemStore → Outcome MemStore
unfolding merge_tables index_delta
merge_deltas s = do
  (stable', stable_indexes') ← merge_tables s.arity s.delta s.stable s.stable_indexes
  delta_indexes' ← index_delta s.arity s.next_delta Map.empty
  ok (record s {
    stable = stable';
    delta = s.next_delta;
    next_delta = [];
    stable_indexes = stable_indexes';
    delta_indexes = delta_indexes';
  })
