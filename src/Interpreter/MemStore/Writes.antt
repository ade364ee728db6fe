-- ===== src/Interpreter/MemStore/Writes.antt =====
-- crates/mangle-interpreter/src/lib.rs, `MemStore`: adding, inserting, retracting and clearing.
use mangle_rs.Prelude.{
  ℕ, zero, suc, ◌+◌, Bool, true, false, ◌||◌, Option, none, some, List, [], ◌∷◌, if◌then◌else◌,
  length, take, Eq, ◌==◌, nat_eq, list_eq, pair_eq, Str, Outcome, ◌>>=◌, ok, int_eq,
}
use mangle_rs.Prelude.Map
use mangle_rs.Prelude.Map.{Map}
use mangle_rs.Prelude.Assoc
use mangle_rs.Prelude.Assoc.{Assoc}
use mangle_rs.Common.Value.Equality.{value_eq}
use mangle_rs.Interpreter.Cells.{Row, Tuple, flatten_tuple}
use mangle_rs.Interpreter.Cells.Skip.{cell_eq}
use mangle_rs.Interpreter.MemStore.State.{Tables, MemStore, rows, contains, push_row, n_cols}
use mangle_rs.Interpreter.MemStore.Index.{index_cells, index_table, drop_relation}

unfoldable pub rebuild_indexes_for : MemStore → Str → Outcome MemStore
unfolding index_table drop_relation
rebuild_indexes_for s relation = do
  let n = n_cols s relation
  stable' ←
      index_table (drop_relation s.stable_indexes relation) relation n 0 (rows s.stable relation)
  delta' ← index_table (drop_relation s.delta_indexes relation) relation n 0 (rows s.delta relation)
  ok (record s { stable_indexes = stable'; delta_indexes = delta' })

-- `entry(relation).or_default()`
unfoldable pub create_relation : MemStore → Str → MemStore
create_relation s relation = record s {
  stable = Assoc.insert s.stable relation (rows s.stable relation);
}

unfoldable pub add_fact : MemStore → Str → Tuple → Outcome MemStore
unfolding create_relation
add_fact s relation args =
    let cells = flatten_tuple args in
    let n = length args in
    let table = rows s.stable relation in
    let add : Outcome MemStore =
      index_cells s.stable_indexes relation cells n (length table) >>= λ indexes. ok (record s {
        stable = push_row s.stable relation cells;
        arity = Map.or_insert s.arity relation n;
        stable_indexes = indexes;
      }) in
    if contains table cells then ok (create_relation s relation) else add

-- the tuple is new, and its number of columns agrees with the relation's
unfoldable pub insert_new : MemStore → Str → ℕ → Row → MemStore
insert_new s relation n cells = record s {
  arity = Map.or_insert s.arity relation n;
  next_delta = push_row s.next_delta relation cells;
}

abbrev pub arity_agrees : Option ℕ → ℕ → Bool
arity_agrees none n = true
arity_agrees (some reg) n = reg == n

unfoldable pub insert : MemStore → Str → Tuple → MemStore × Bool
unfolding insert_new
insert s relation tuple =
    let n = length tuple in
    let cells = flatten_tuple tuple in
    if contains (rows s.stable relation) cells
      || contains (rows s.delta relation) cells
      || contains (rows s.next_delta relation) cells
    then (s, false)
    else if arity_agrees (s.arity relation) n
    then (insert_new s relation n cells, true)
    else (s, false)

module _ {ℓ} {A : Type ℓ} where
  -- `iter().position(|t| *t == x)`
  abbrev pub find_position : ⦃e : Eq A⦄ → List A → A → Option ℕ
  find_position [] x = none
  find_position (r ∷ rs) x =
      if r == x then some 0 else elim (find_position rs x) [ none ↦ none | some i ↦ some (i + 1) ]

  abbrev pub last_or : A → List A → A
  last_or d [] = d
  last_or d (x ∷ xs) = last_or x xs

  abbrev pub replace_at : List A → ℕ → A → List A
  replace_at [] i x = []
  replace_at (y ∷ ys) zero x = x ∷ ys
  replace_at (y ∷ ys) (suc i) x = y ∷ replace_at ys i x

  -- `swap_remove`: the last element takes the place of the one that goes.
  abbrev pub swap_remove : List A → ℕ → List A
  swap_remove [] i = []
  swap_remove (x ∷ xs) i = take (length xs) (replace_at (x ∷ xs) i (last_or x xs))

-- the table with the row at the found position taken out, and whether there was one
unfoldable pub take_at : Tables → Str → List Row → Option ℕ → Tables × Bool
take_at tables relation table none = (tables, false)
take_at tables relation table (some i) = (Assoc.insert tables relation (swap_remove table i), true)

-- `if let Some(table) = tables.get_mut(relation)`
unfoldable pub take_from : Tables → Str → Row → Option (List Row) → Tables × Bool
unfolding take_at
take_from tables relation cells none = (tables, false)
take_from tables relation cells (some table) =
    take_at tables relation table (find_position table cells)

unfoldable pub take_out : Tables → Str → Row → Tables × Bool
unfolding take_from
take_out tables relation cells = take_from tables relation cells (Assoc.lookup relation tables)

unfoldable pub retract : MemStore → Str → Tuple → Outcome (MemStore × Bool)
unfolding take_out
retract s relation tuple =
    let cells = flatten_tuple tuple in
    let (stable', removed) = take_out s.stable relation cells in
    let s' : MemStore = record s {
      stable = stable';
      delta = (take_out s.delta relation cells).0;
      next_delta = (take_out s.next_delta relation cells).0;
    } in
    let rebuilt : Outcome (MemStore × Bool) =
      rebuild_indexes_for s' relation >>= λ r. ok (r, true) in
    if removed then rebuilt else ok (s', false)

-- `if let Some(table) = .. { table.clear() }`
abbrev pub clear_table : Tables → Str → Tables
clear_table tables relation = elim (Assoc.lookup relation tables) [
  | none ↦ tables
  | some table ↦ Assoc.insert tables relation []
]

unfoldable pub clear : MemStore → Str → MemStore
unfolding drop_relation
clear s relation = record s {
  stable = clear_table s.stable relation;
  delta = clear_table s.delta relation;
  next_delta = clear_table s.next_delta relation;
  stable_indexes = drop_relation s.stable_indexes relation;
  delta_indexes = drop_relation s.delta_indexes relation;
}
