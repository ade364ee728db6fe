-- ===== src/Tests/Stores.antt =====
-- The in-memory store at concrete inputs.
use mangle_rs.Prelude.{
  ◌≡◌, refl, inr, true, false, none, some, [], ◌∷◌, nat_eq, list_eq, pair_eq, Str, bytes, ok, panic,
  int_eq,
}
use mangle_rs.Prelude.{pos}
use mangle_rs.Prelude.Assoc
use mangle_rs.Common.Value.{number, beq_value}
use mangle_rs.Interpreter.Cells.{Tuple, value_to_index_key, flatten_tuple, beq_cell}
use mangle_rs.Interpreter.MemStore.State.{MemStore, new}
use mangle_rs.Interpreter.MemStore.Reads.{
  scan, scan_delta, scan_next_delta, scan_index, scan_delta_index,
}
use mangle_rs.Interpreter.MemStore.Writes.{insert, retract, clear}
use mangle_rs.Interpreter.MemStore.Merge.{merge_deltas}
use mangle_rs.Interpreter.MemStore.Facts.{Facts, Represents, Represents-new, no_facts}
use mangle_rs.Interpreter.MemStore.Scans.{scan-facts, scan_index-matching}
use mangle_rs.Interpreter.MemStore.Insert.{insert-Represents, insert_fact, is_new}
use mangle_rs.Interpreter.MemStore.Merged.{merge_deltas-Represents, merge_facts}
use mangle_rs.Interpreter.MemStore.Removal.{clear-Represents, clear_facts}
use mangle_rs.Interpreter.MemStore.Retract.{retract-Represents}
use mangle_rs.Interpreter.MemStore.Removed.{retract_fact}
use mangle_rs.Interpreter.MemStore.StaleIndex.{retract_stale_index}

abbrev edge : Str
edge = bytes "edge"

abbrev one_two : Tuple
one_two = number (pos 1) ∷ number (pos 2) ∷ []

-- the store after `insert`, and after a round
abbrev inserted : MemStore
inserted = (insert new edge one_two).0

abbrev inserted_facts : Facts
inserted_facts = insert_fact none no_facts edge one_two

inserted_ok : Represents inserted inserted_facts
inserted_ok = (insert-Represents new no_facts edge one_two Represents-new).1

abbrev merged :
    (s : MemStore) × (merge_deltas inserted ≡ ok s) × Represents s (merge_facts inserted_facts)
merged = merge_deltas-Represents inserted inserted_facts inserted_ok

insert-Represents_example :
    ((insert new edge one_two).1 ≡ is_new none no_facts edge one_two)
    × Represents inserted inserted_facts
insert-Represents_example = insert-Represents new no_facts edge one_two Represents-new

-- the first insert of a fact is new, the second is not
insert_twice : ((insert new edge one_two).1 ≡ true) × ((insert inserted edge one_two).1 ≡ false)
unfolding insert flatten_tuple beq_cell beq_value
insert_twice = (refl, refl)

merge_deltas-Represents_example :
    (s : MemStore) × (merge_deltas inserted ≡ ok s) × Represents s (merge_facts inserted_facts)
merge_deltas-Represents_example = merge_deltas-Represents inserted inserted_facts inserted_ok

scan-facts_example :
    (scan merged.0 edge ≡ ok (one_two ∷ []))
    × (scan_delta merged.0 edge ≡ ok (one_two ∷ []))
    × (scan_next_delta merged.0 edge ≡ ok [])
    × (Assoc.lookup edge merged.0.stable ≡ none
        → Assoc.lookup edge merged.0.delta ≡ none
        → scan merged.0 edge ≡ ok [])
scan-facts_example = scan-facts merged.2 edge

scan_index-matching_example :
    (scan_index merged.0 edge 0 (number (pos 1)) ≡ ok (one_two ∷ []))
    × (scan_delta_index merged.0 edge 0 (number (pos 1)) ≡ ok (one_two ∷ []))
unfolding value_to_index_key beq_cell beq_value
scan_index-matching_example = scan_index-matching merged.2 edge 0 (number (pos 1))

clear-Represents_example :
    Represents (clear merged.0 edge) (clear_facts (merge_facts inserted_facts) edge)
clear-Represents_example = clear-Represents merged.0 (merge_facts inserted_facts) edge merged.2

retract-Represents_example :
    (s' : MemStore) × (retract inserted edge one_two ≡ ok (s', false))
    × Represents s' (retract_fact inserted_facts edge one_two)
retract-Represents_example =
    retract-Represents inserted inserted_facts edge one_two inserted_ok (inr refl)

abbrev one_three : Tuple
one_three = number (pos 1) ∷ number (pos 3) ∷ []

-- two new facts
abbrev both_facts : Facts
both_facts = insert_fact (some 2) inserted_facts edge one_three

both_ok : Represents (insert inserted edge one_three).0 both_facts
unfolding insert
both_ok = (insert-Represents inserted inserted_facts edge one_three inserted_ok).1

abbrev both :
    (s : MemStore) × (merge_deltas (insert inserted edge one_three).0 ≡ ok s)
    × Represents s (merge_facts both_facts)
both = merge_deltas-Represents (insert inserted edge one_three).0 both_facts both_ok

-- the first goes, and a lookup of the second panics
retract_stale_index_example :
    (s' : MemStore) × (retract both.0 edge one_two ≡ ok (s', false))
    × (scan_index s' edge 1 (number (pos 3)) ≡ panic)
    × (scan_delta_index s' edge 1 (number (pos 3)) ≡ panic)
unfolding value_to_index_key beq_cell beq_value flatten_tuple
retract_stale_index_example =
    retract_stale_index both.0 (merge_facts both_facts) edge one_two (one_two ∷ []) one_three 1
      (number (pos 3)) both.2 refl refl refl refl
