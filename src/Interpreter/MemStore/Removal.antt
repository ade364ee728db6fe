-- ===== src/Interpreter/MemStore/Removal.antt =====
-- `retract` and `clear` of `MemStore` (crates/mangle-interpreter/src/lib.rs) against the facts it
-- stands for.
use mangle_rs.Prelude.{
  ℕ, ◌≡◌, refl, ◌∙◌, inl, inr, Option, none, some, List, [], if◌then◌else◌, Bool-cases, ◌==◌,
  ==_iff, ==-sym, nat_eq, list_eq, pair_eq, Str, int_eq,
}
use mangle_rs.Prelude.Map.{Map}
use mangle_rs.Prelude.Assoc
use mangle_rs.Prelude.Assoc.{Assoc, Distinct, Distinct-insert, lookup-insert}
use mangle_rs.Common.Value.Equality.{value_eq}
use mangle_rs.Interpreter.Cells.{Row, Tuple}
use mangle_rs.Interpreter.Cells.Skip.{cell_eq}
use mangle_rs.Interpreter.MemStore.State.{Tables, Indexes, MemStore, rows}
use mangle_rs.Interpreter.MemStore.Index.{drop_relation}
use mangle_rs.Interpreter.MemStore.Writes.{clear_table, clear}
use mangle_rs.Interpreter.MemStore.Facts.{Facts, Holds, Indexed, Represents}
use mangle_rs.Interpreter.MemStore.Insert.{rows-insert}
use mangle_rs.Interpreter.MemStore.Merged.{without}
use mangle_rs.Interpreter.MemStore.Postings.{postings-drop_relation}

rows-clear_table :
    (tables : Tables) (r q : Str)
    → rows (clear_table tables r) q ≡ (if r == q then [] else rows tables q)
rows-clear_table tables r q = go (Assoc.lookup r tables) refl
  where
    go :
        (o : Option (List Row))
        → Assoc.lookup r tables ≡ o
        → rows (elim o [ none ↦ tables | some table ↦ Assoc.insert tables r [] ]) q
          ≡ (if r == q then [] else rows tables q)
    go none e = elim (Bool-cases (r == q)) [
      | inl same ↦ rw (same, ← (==_iff r q).0 same, e)
      | inr ne ↦ rw ne
    ]
    go (some table) e = rows-insert tables r q []

Distinct-clear_table :
    (tables : Tables) (r : Str) → Distinct tables → Distinct (clear_table tables r)
Distinct-clear_table tables r h = go (Assoc.lookup r tables)
  where
    go :
        (o : Option (List Row))
        → Distinct (elim o [ none ↦ tables | some table ↦ Assoc.insert tables r [] ])
    go none = h
    go (some table) = Distinct-insert tables r [] h

Holds-clear_table :
    {tables : Tables} {arity : Map Str ℕ} {facts : Str → List Tuple} (r : Str)
    → Holds tables arity facts
    → Holds (clear_table tables r) arity (without r facts)
Holds-clear_table {tables} {arity} {facts} r h = record {
  flat = λ q.
      rows-clear_table tables r q
      ∙ elim (Bool-cases (r == q)) [ inl same ↦ rw same | inr ne ↦ rw ne (h.flat q) ];
  typed = λ q. elim (Bool-cases (r == q)) [ inl same ↦ rw same tt | inr ne ↦ rw ne (h.typed q) ];
}

Indexed-drop_relation :
    (facts : Str → List Tuple) (indexes : Indexes) (r : Str)
    → Indexed indexes facts
    → Indexed (drop_relation indexes r) (without r facts)
Indexed-drop_relation facts indexes r h q d l =
    postings-drop_relation indexes r q d l ∙ elim (Bool-cases (r == q)) [
      | inl same ↦ rw (==-sym q r, same)
      | inr ne ↦ rw (==-sym q r, ne) (h q d l)
    ]

-- The facts without those of one relation.
abbrev pub clear_facts : Facts → Str → Facts
clear_facts f r = record {
  stable = without r f.stable;
  delta = without r f.delta;
  next = without r f.next;
}

-- `clear` empties one relation in all three lists and leaves the others, their indexes included.
pub clear-Represents :
    (s : MemStore) (f : Facts) (r : Str) → Represents s f → Represents (clear s r) (clear_facts f r)
unfolding clear
clear-Represents s f r rep = record {
  stable_holds = Holds-clear_table r rep.stable_holds;
  delta_holds = Holds-clear_table r rep.delta_holds;
  next_holds = Holds-clear_table r rep.next_holds;
  stable_indexed = Indexed-drop_relation f.stable s.stable_indexes r rep.stable_indexed;
  delta_indexed = Indexed-drop_relation f.delta s.delta_indexes r rep.delta_indexed;
  delta_distinct = Distinct-clear_table s.delta r rep.delta_distinct;
  next_distinct = Distinct-clear_table s.next_delta r rep.next_distinct;
}
