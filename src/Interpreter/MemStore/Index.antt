-- ===== src/Interpreter/MemStore/Index.antt =====
-- crates/mangle-interpreter/src/lib.rs, `MemStore`: `index_cells` and the loops that build an index.
use mangle_rs.Prelude.{
  ℕ, zero, suc, ◌+◌, none, List, [], ◌∷◌, ◌++◌, if◌then◌else◌, get_or, length, get_elem?, ◌==◌,
  nat_eq, list_eq, pair_eq, Str, Outcome, ◌>>=◌, or_panic, ok, int_eq,
}
use mangle_rs.Prelude.Map
use mangle_rs.Prelude.Map.{Map}
use mangle_rs.Common.Value.Equality.{value_eq}
use mangle_rs.Interpreter.Cells.{Cell, Row, skip_one}
use mangle_rs.Interpreter.Cells.Skip.{cell_eq}
use mangle_rs.Interpreter.MemStore.State.{Indexes}

-- `indexes.entry((relation, col)).or_default().entry(key).or_default().push(row_idx)`
unfoldable pub push_index : Indexes → Str → ℕ → Cell → ℕ → Indexes
push_index indexes relation col key row_idx =
    let column = get_or (indexes (relation, col)) Map.empty in
    Map.insert indexes (relation, col)
      (Map.insert column key (get_or (column key) [] ++ row_idx ∷ []))

-- `left` columns from column `col` on, whose first cell stands at `at`
unfoldable pub index_columns : ℕ → Indexes → Str → Row → ℕ → ℕ → ℕ → Outcome Indexes
index_columns zero indexes relation cells row_idx col at = ok indexes
index_columns (suc left) indexes relation cells row_idx col at = do
  key ← or_panic (get_elem? cells at)
  at' ← skip_one (suc (length cells)) cells at
  index_columns left (push_index indexes relation col key row_idx) relation cells row_idx (col + 1)
      at'

unfoldable pub index_cells : Indexes → Str → Row → ℕ → ℕ → Outcome Indexes
unfolding index_columns
index_cells indexes relation cells n row_idx = index_columns n indexes relation cells row_idx 0 0

-- `for (row_idx, cells) in table.iter().enumerate()` of `rebuild_indexes_for`
unfoldable pub index_table : Indexes → Str → ℕ → ℕ → List Row → Outcome Indexes
index_table indexes relation n row_idx [] = ok indexes
index_table indexes relation n row_idx (cells ∷ rest) = do
  indexes' ← index_cells indexes relation cells n row_idx
  index_table indexes' relation n (row_idx + 1) rest

-- `retain(|(rel, _), _| rel != relation)`
unfoldable pub drop_relation : Indexes → Str → Indexes
drop_relation indexes relation entry = if entry.0 == relation then none else indexes entry
