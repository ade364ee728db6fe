-- ===== src/Interpreter/Grouping.antt =====
-- crates/mangle-interpreter/src/lib.rs: how `GroupBy` sorts tuples into groups, and how a hash join
-- finds its keys and fills its table.

use mangle_rs.Prelude.{
  ℕ, true, false, List, [], ◌∷◌, ◌++◌, map, nat_beq, get_or, length, get_elem?, nat_eq, list_eq,
  pair_eq, Error, Outcome, ◌>>=◌, ok_or, or_panic, ok, int_eq,
}
use mangle_rs.Prelude.Assoc
use mangle_rs.Prelude.Assoc.{Assoc}
use mangle_rs.Common.Value.{null}
use mangle_rs.Common.Value.Equality.{value_eq}
use mangle_rs.Interpreter.Aggregates.{bind_vars}
use mangle_rs.Interpreter.Cells.{Tuple}
use mangle_rs.Interpreter.Context.{Env}
use mangle_rs.Interpreter.MemStore.Writes.{find_position}

abbrev pub Groups : Type 0
Groups = Assoc Tuple (List Tuple)

-- `groups.entry(key).or_default().push(tuple)`
unfoldable pub add_to_group : Groups → Tuple → Tuple → Groups
add_to_group groups key tuple =
    Assoc.insert groups key (get_or (Assoc.lookup key groups) [] ++ tuple ∷ [])

-- the values of the grouping variables
unfoldable pub group_key : List ℕ → Env → Tuple
group_key keys env = map (λ k. get_or (env k) null) keys

-- the loop that sorts the tuples into groups, binding their columns as it goes
unfoldable pub group_tuples : List ℕ → List ℕ → List Tuple → Env → Groups → Outcome (Groups × Env)
unfolding bind_vars add_to_group group_key
group_tuples vars keys [] env groups = ok (groups, env)
group_tuples vars keys (tuple ∷ rest) env groups = elim (nat_beq (length tuple) (length vars)) [
  | true ↦ bind_vars env vars tuple >>= λ env'.
      group_tuples vars keys rest env' (add_to_group groups (group_key keys env') tuple)
  | false ↦ group_tuples vars keys rest env groups
]

-- the position of each join key among a source's variables
unfoldable pub key_positions : List ℕ → List ℕ → Outcome (List ℕ)
key_positions vars [] = ok []
key_positions vars (k ∷ ks) = do
  i ← ok_or (find_position vars k) Error.malformed_plan
  is ← key_positions vars ks
  ok (i ∷ is)

-- `positions.iter().map(|&i| tuple[i].clone())`
unfoldable pub key_at : Tuple → List ℕ → Outcome Tuple
key_at tuple [] = ok []
key_at tuple (i ∷ is) = do x ← or_panic (get_elem? tuple i); xs ← key_at tuple is; ok (x ∷ xs)

-- the hash table of the build side
unfoldable pub build_table : ℕ → List ℕ → List Tuple → Groups → Outcome Groups
unfolding key_at add_to_group
build_table n positions [] table = ok table
build_table n positions (tuple ∷ rest) table = elim (nat_beq (length tuple) n) [
  | true ↦
      key_at tuple positions >>= λ key. build_table n positions rest (add_to_group table key tuple)
  | false ↦ build_table n positions rest table
]
