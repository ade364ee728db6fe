-- ===== src/Interpreter/MemStore/Facts.antt =====
-- What the in-memory store of crates/mangle-interpreter/src/lib.rs stands for: three lists of tuples
-- for each relation, and for each column an index of where its keys stand.
use mangle_rs.Prelude.{
  ℕ, zero, suc, ◌+◌, ◌≡◌, refl, Bool, false, Option, none, some, List, [], ◌∷◌, map, if◌then◌else◌,
  get_or, length, All, ◌==◌, nat_eq, list_eq, pair_eq, Str, int_eq,
}
use mangle_rs.Prelude.Assoc
use mangle_rs.Prelude.Map.{Map}
use mangle_rs.Interpreter.Cells.{Cell, Tuple, flatten_tuple, value_to_index_key}
use mangle_rs.Interpreter.Cells.Skip.{cell_eq}
use mangle_rs.Interpreter.MemStore.State.{Tables, Indexes, MemStore, rows, new}

-- The row numbers that an index has for a key of a column.
abbrev pub postings : Indexes → Str → ℕ → Cell → List ℕ
postings indexes relation col key = elim (indexes (relation, col)) [
  | none ↦ []
  | some column ↦ get_or (column key) []
]

-- Whether column `col` of the tuple has the key.
abbrev pub has_key : Tuple → ℕ → Cell → Bool
has_key [] col key = false
has_key (v ∷ vs) zero key = key == value_to_index_key v
has_key (v ∷ vs) (suc col) key = has_key vs col key

-- The numbers, from `start` on, of the tuples that have the key in the column.
abbrev pub positions : ℕ → Cell → List Tuple → ℕ → List ℕ
positions col key [] start = []
positions col key (t ∷ ts) start =
    let rest = positions col key ts (start + 1) in if has_key t col key then start ∷ rest else rest

-- The tuples that have the key in the column.
abbrev pub matching : ℕ → Cell → List Tuple → List Tuple
matching col key [] = []
matching col key (t ∷ ts) =
    let rest = matching col key ts in if has_key t col key then t ∷ rest else rest

-- The facts of a store: the tuples of each relation that are stable, new in this round and collected
-- for the next.
pub record Facts : Type 0 where
  pub stable : Str → List Tuple
  pub delta : Str → List Tuple
  pub next : Str → List Tuple

abbrev pub HasArity : Option ℕ → Tuple → Type 0
HasArity o t = o ≡ some (length t)

-- A table holds the flat rows of the relation's tuples, all of the relation's arity.
pub record Holds (tables : Tables) (arity : Map Str ℕ) (facts : Str → List Tuple) : Type 0 where
  pub flat : (r : Str) → rows tables r ≡ map flatten_tuple (facts r)
  pub typed : (r : Str) → All (HasArity (arity r)) (facts r)

-- An index has for each key exactly the rows that hold it.
abbrev pub Indexed : Indexes → (Str → List Tuple) → Type 0
Indexed indexes facts =
    (r : Str) (col : ℕ) (key : Cell) → postings indexes r col key ≡ positions col key (facts r) 0

-- The store stands for the facts.
pub record Represents (s : MemStore) (f : Facts) : Type 0 where
  pub stable_holds : Holds s.stable s.arity f.stable
  pub delta_holds : Holds s.delta s.arity f.delta
  pub next_holds : Holds s.next_delta s.arity f.next
  pub stable_indexed : Indexed s.stable_indexes f.stable
  pub delta_indexed : Indexed s.delta_indexes f.delta
  pub delta_distinct : Assoc.Distinct s.delta
  pub next_distinct : Assoc.Distinct s.next_delta

abbrev pub no_facts : Facts
no_facts = record { stable = λ r. []; delta = λ r. []; next = λ r. [] }

pub Represents-new : Represents new no_facts
Represents-new = record {
  stable_holds = record { flat = λ r. refl; typed = λ r. tt };
  delta_holds = record { flat = λ r. refl; typed = λ r. tt };
  next_holds = record { flat = λ r. refl; typed = λ r. tt };
  stable_indexed = λ r col key. refl;
  delta_indexed = λ r col key. refl;
  delta_distinct = tt;
  next_distinct = tt;
}
