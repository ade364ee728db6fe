-- ===== src/Interpreter/MemStore/Retract.antt =====
-- `retract` of `MemStore` (crates/mangle-interpreter/src/lib.rs) against the facts it stands for.
use mangle_rs.Prelude.{
  ℕ, ◌≡◌, refl, sym, ap, ◌∙◌, ◌⊎◌, inl, inr, true, false, Option, none, some, List, arith,
  Bool-cases, get_or, ◌==◌, ==-refl, ==_iff, ==-sym, nat_eq, list_eq, pair_eq, Str, ok, int_eq,
}
use mangle_rs.Prelude.Map.{Map}
use mangle_rs.Common.Value.Equality.{value_eq}
use mangle_rs.Interpreter.Cells.{Tuple, flatten_tuple}
use mangle_rs.Interpreter.Cells.Skip.{cell_eq}
use mangle_rs.Interpreter.MemStore.State.{Tables, Indexes, MemStore, rows}
use mangle_rs.Interpreter.MemStore.Index.{index_table, drop_relation}
use mangle_rs.Interpreter.MemStore.Writes.{rebuild_indexes_for, find_position, take_out, retract}
use mangle_rs.Interpreter.MemStore.Facts.{positions, Facts, Holds, Indexed, Represents}
use mangle_rs.Interpreter.MemStore.Insert.{known}
use mangle_rs.Interpreter.MemStore.Postings.{postings-drop_relation}
use mangle_rs.Interpreter.MemStore.Tables.{index_table_lem}
use mangle_rs.Interpreter.MemStore.Removed.{
  removed_at, removed_from, retract_fact, take_out-TakesOut, is_some, known-find_position,
}
use mangle_rs.Interpreter.MemStore.Scans.{Holds-Typed}

rebuilt :
    {tables : Tables} {arity : Map Str ℕ} (facts : Str → List Tuple) (indexes : Indexes) (r : Str)
    (t : Tuple)
    → Holds tables arity (removed_from facts r t)
    → Indexed indexes facts
    → (grown : Indexes) × (index_table
          (drop_relation indexes r)
          r
          (get_or (arity r) 0)
          0
          (rows tables r)
        ≡ ok grown)
      × Indexed grown (removed_from facts r t)
rebuilt {tables} {arity} facts indexes r t h hi =
    let (grown, done, e) =
      index_table_lem (removed_from facts r t r) (drop_relation indexes r) r (get_or (arity r) 0) 0
        (Holds-Typed r h) in
    (
      grown,
      rw (h.flat r) done,
      λ q d l. e q d l ∙ elim (Bool-cases (q == r)) [
        | inl same ↦
            rw (same, postings-drop_relation indexes r q d l, same, (==_iff q r).0 same, ==-refl r)
        | inr ne ↦ rw (ne, postings-drop_relation indexes r q d l, ne, ==-sym r q, ne) (hi q d l)
      ],
    )

pub not_there :
    (facts : Str → List Tuple) (r : Str) (t : Tuple) (indexes : Indexes)
    → known (facts r) t ≡ false
    → Indexed indexes facts
    → Indexed indexes (removed_from facts r t)
not_there facts r t indexes k hi q d l = hi q d l ∙ elim (Bool-cases (r == q)) [
  | inl same ↦
      rw (same, ← (==_iff r q).0 same)
        (ap (λ o. positions d l (removed_at (facts r) o) 0)
          (sym (absent (find_position (facts r) t) (sym (known-find_position (facts r) t) ∙ k))))
  | inr ne ↦ rw ne
]
  where
    absent : (o : Option ℕ) → is_some o ≡ false → o ≡ none
    absent none p = refl
    absent (some i) p = cc

-- `retract` reports whether the fact was stable. It takes one occurrence of the fact out of each of
-- the relation's three lists, the last fact of the list moving to its place, and leaves a store, its
-- indexes included, that stands for what remains, where the fact was stable or was not new.
pub retract-Represents :
    (s : MemStore) (f : Facts) (r : Str) (t : Tuple)
    → Represents s f
    → (known (f.stable r) t ≡ true) ⊎ (known (f.delta r) t ≡ false)
    → (s' : MemStore) × (retract s r t ≡ ok (s', known (f.stable r) t))
      × Represents s' (retract_fact f r t)
unfolding retract rebuild_indexes_for
retract-Represents s f r t rep where_it_is =
    let st = take_out-TakesOut r t rep.stable_holds in
    let de = take_out-TakesOut r t rep.delta_holds in
    let ne = take_out-TakesOut r t rep.next_holds in
    let (si, si_done, si_ok) = rebuilt f.stable s.stable_indexes r t st.holds rep.stable_indexed in
    let (di, di_done, di_ok) = rebuilt f.delta s.delta_indexes r t de.holds rep.delta_indexed in
    elim (Bool-cases (known (f.stable r) t)) [
      | inl hit ↦ (
        record s {
          stable = (take_out s.stable r (flatten_tuple t)).0;
          delta = (take_out s.delta r (flatten_tuple t)).0;
          next_delta = (take_out s.next_delta r (flatten_tuple t)).0;
          stable_indexes = si;
          delta_indexes = di;
        },
        rw (st.found, hit, si_done, di_done),
        record {
          stable_holds = st.holds;
          delta_holds = de.holds;
          next_holds = ne.holds;
          stable_indexed = si_ok;
          delta_indexed = di_ok;
          delta_distinct = de.distinct rep.delta_distinct;
          next_distinct = ne.distinct rep.next_distinct;
        },
      )
      | inr miss ↦ (
        record s {
          stable = (take_out s.stable r (flatten_tuple t)).0;
          delta = (take_out s.delta r (flatten_tuple t)).0;
          next_delta = (take_out s.next_delta r (flatten_tuple t)).0;
        },
        rw (st.found, miss),
        record {
          stable_holds = st.holds;
          delta_holds = de.holds;
          next_holds = ne.holds;
          stable_indexed = not_there f.stable r t s.stable_indexes miss rep.stable_indexed;
          delta_indexed =
              not_there f.delta r t s.delta_indexes (ground (arith, miss)) rep.delta_indexed;
          delta_distinct = de.distinct rep.delta_distinct;
          next_distinct = ne.distinct rep.next_distinct;
        },
      )
    ]
