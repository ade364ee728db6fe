-- ===== src/Interpreter/MemStore/Scans.antt =====
-- The scans of `MemStore` (crates/mangle-interpreter/src/lib.rs) yield the facts of the relation.
use mangle_rs.Prelude.{
  ℕ, ◌+◌, ◌≡◌, refl, sym, ap, Option, none, some, List, [], ◌∷◌, ◌++◌, map, arith, get_or, All,
  nat_eq, list_eq, pair_eq, Str, ok, int_eq,
}
use mangle_rs.Prelude.Map.{Map}
use mangle_rs.Prelude.Assoc
use mangle_rs.Common.Value.{Value}
use mangle_rs.Interpreter.Cells.{Cell, Row, Tuple, flatten_tuple, value_to_index_key}
use mangle_rs.Interpreter.MemStore.State.{Tables, Indexes, MemStore, rows}
use mangle_rs.Interpreter.MemStore.Reads.{
  read_rows, scan, scan_delta, scan_next_delta, hits_in, column_hits, index_hits, scan_index,
  scan_delta_index,
}
use mangle_rs.Interpreter.MemStore.Facts.{
  positions, matching, HasArity, Facts, Holds, Indexed, Represents,
}
use mangle_rs.Interpreter.MemStore.Tables.{Typed, read_rows-flatten, read_at-positions}

pub HasArity-Typed : (o : Option ℕ) (ts : List Tuple) → All (HasArity o) ts → Typed (get_or o 0) ts
HasArity-Typed o [] h = tt
HasArity-Typed o (t ∷ ts) h = (ap (λ p. get_or p 0) h.0, HasArity-Typed o ts h.1)

pub Holds-Typed :
    {tables : Tables} {arity : Map Str ℕ} {facts : Str → List Tuple} (r : Str)
    → Holds tables arity facts
    → Typed (get_or (arity r) 0) (facts r)
Holds-Typed {arity = arity} {facts = facts} r h = HasArity-Typed (arity r) (facts r) (h.typed r)

read_table :
    {tables : Tables} {arity : Map Str ℕ} {facts : Str → List Tuple} (r : Str)
    → Holds tables arity facts
    → read_rows (get_or (arity r) 0) (rows tables r) ≡ ok (facts r)
read_table {arity = arity} {facts = facts} r h =
    rw (h.flat r) (read_rows-flatten (facts r) (get_or (arity r) 0) (Holds-Typed r h))

no_positions :
    (d : ℕ) (l : Cell) (ts : List Tuple) (start : ℕ)
    → positions d l ts start ≡ []
    → matching d l ts ≡ []
no_positions d l [] start h = refl
no_positions d l (t ∷ ts) start h = ground (arith, no_positions d l ts (start + 1))

pub no_rows : (ts : List Tuple) → map flatten_tuple ts ≡ [] → ts ≡ []
no_rows [] h = refl
no_rows (t ∷ ts) h = cc

module _ (n d : ℕ) (l : Cell) (ts : List Tuple) (h : Typed n ts) where
  hits_in-matching :
      (o : Option (List ℕ)) (t : Option (List Row))
      → get_or t [] ≡ map flatten_tuple ts
      → get_or o [] ≡ positions d l ts 0
      → hits_in n o t ≡ ok (matching d l ts)
  unfolding hits_in
  hits_in-matching none t flat p = ap ok (sym (no_positions d l ts 0 (sym p)))
  hits_in-matching (some is) none flat p =
      ap (λ us. ok (matching d l us)) (sym (no_rows ts (sym flat)))
  hits_in-matching (some is) (some table) flat p = rw p (read_at-positions ts d l n table [] h flat)

  column_hits-matching :
      (o : Option (Map Cell (List ℕ))) (t : Option (List Row))
      → get_or t [] ≡ map flatten_tuple ts
      → elim o [ none ↦ [] | some column ↦ get_or (column l) [] ] ≡ positions d l ts 0
      → column_hits n o l t ≡ ok (matching d l ts)
  unfolding column_hits
  column_hits-matching none t flat p = ap ok (sym (no_positions d l ts 0 (sym p)))
  column_hits-matching (some column) t flat p = hits_in-matching (column l) t flat p

pub index_hits-matching :
    {tables : Tables} {arity : Map Str ℕ} {facts : Str → List Tuple} (indexes : Indexes) (r : Str)
    (d : ℕ) (l : Cell)
    → Holds tables arity facts
    → Indexed indexes facts
    → index_hits indexes tables (get_or (arity r) 0) r d l ≡ ok (matching d l (facts r))
unfolding index_hits
index_hits-matching {tables} {arity} {facts} indexes r d l h p =
    column_hits-matching (get_or (arity r) 0) d l (facts r) (Holds-Typed r h) (indexes (r, d))
      (Assoc.lookup r tables) (h.flat r) (p r d l)

module _ {s : MemStore} {f : Facts} (rep : Represents s f) where
  -- In a store that stands for facts, its rows all of their relation's arity, a scan succeeds and
  -- yields the stable facts and then the new ones, and it yields nothing for a relation that has
  -- neither table; the other two scans yield the new facts, and those collected for the next round.
  pub scan-facts :
      (r : Str)
      → (scan s r ≡ ok (f.stable r ++ f.delta r))
        × (scan_delta s r ≡ ok (f.delta r))
        × (scan_next_delta s r ≡ ok (f.next r))
        × (Assoc.lookup r s.stable ≡ none → Assoc.lookup r s.delta ≡ none → scan s r ≡ ok [])
  unfolding read_rows scan scan_delta scan_next_delta
  scan-facts r = (
    rw (read_table r rep.stable_holds, read_table r rep.delta_holds),
    read_table r rep.delta_holds,
    read_table r rep.next_holds,
    λ p q. rw (p, q),
  )

  -- In a store that stands for facts, its indexes naming exactly the rows that hold each key, an index
  -- scan succeeds and yields exactly the facts whose column has the key's first cell, the stable ones
  -- and then the new ones, in the order of a full scan; the scan of the new facts by their index
  -- yields those of them.
  pub scan_index-matching :
      (r : Str) (col : ℕ) (key : Value)
      → (scan_index s r col key
          ≡ ok (
              matching col (value_to_index_key key) (f.stable r)
              ++ matching col (value_to_index_key key) (f.delta r)))
        × (scan_delta_index s r col key ≡ ok (matching col (value_to_index_key key) (f.delta r)))
  unfolding scan_index scan_delta_index
  scan_index-matching r col key =
      let k = value_to_index_key key in
      let stable =
        index_hits-matching s.stable_indexes r col k rep.stable_holds rep.stable_indexed in
      let delta = index_hits-matching s.delta_indexes r col k rep.delta_holds rep.delta_indexed in
      (rw (stable, delta), delta)
