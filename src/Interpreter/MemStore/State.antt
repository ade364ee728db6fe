-- ===== src/Interpreter/MemStore/State.antt =====
-- crates/mangle-interpreter/src/lib.rs, `MemStore`: the state of the in-memory store.
-- The tables are walked through, so they are association lists; the arities and the indexes are only
-- looked up, so they are functions.
use mangle_rs.Prelude.{
  ℕ, Bool, false, ◌||◌, List, [], ◌∷◌, ◌++◌, get_or, ◌==◌, nat_eq, list_eq, pair_eq, Str, int_eq,
}
use mangle_rs.Prelude.Map
use mangle_rs.Prelude.Map.{Map}
use mangle_rs.Prelude.Assoc
use mangle_rs.Prelude.Assoc.{Assoc}
use mangle_rs.Common.Value.Equality.{value_eq}
use mangle_rs.Interpreter.Cells.{Cell, Row}
use mangle_rs.Interpreter.Cells.Skip.{cell_eq}

abbrev pub Tables : Type 0
Tables = Assoc Str (List Row)

abbrev pub Indexes : Type 0
Indexes = Map (Str × ℕ) (Map Cell (List ℕ))

pub record MemStore : Type 0 where
  pub stable : Tables
  pub delta : Tables
  pub next_delta : Tables
  pub arity : Map Str ℕ
  pub stable_indexes : Indexes
  pub delta_indexes : Indexes

abbrev pub new : MemStore
new = record {
  stable = [];
  delta = [];
  next_delta = [];
  arity = Map.empty;
  stable_indexes = Map.empty;
  delta_indexes = Map.empty;
}

-- `table.get(relation).into_iter().flatten()`
abbrev pub rows : Tables → Str → List Row
rows tables relation = get_or (Assoc.lookup relation tables) []

abbrev pub contains : List Row → Row → Bool
contains [] cells = false
contains (r ∷ rs) cells = r == cells || contains rs cells

-- `entry(relation).or_default().push(cells)`
abbrev pub push_row : Tables → Str → Row → Tables
push_row tables relation cells = Assoc.insert tables relation (rows tables relation ++ cells ∷ [])

abbrev pub n_cols : MemStore → Str → ℕ
n_cols s relation = get_or (s.arity relation) 0
