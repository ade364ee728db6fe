-- ===== src/Interpreter/MemStore/StaleIndex.antt =====
-- A new fact that `retract` takes out (crates/mangle-interpreter/src/lib.rs), and the index of the
-- new facts after it.
use mangle_rs.Prelude.{
  ℕ, zero, suc, ◌+◌, ◌≤◌, ◌≡◌, refl, sym, ap, ◌∙◌, ◌⊎◌, inl, inr, true, false, Option, none, some,
  List, [], ◌∷◌, ◌++◌, map, arith, Bool-cases, get_or, length, get_elem?, take, length-append,
  ==-refl, nat_eq, list_eq, pair_eq, Str, ok, panic, int_eq,
}
use mangle_rs.Prelude.Map.{Map}
use mangle_rs.Prelude.Assoc
use mangle_rs.Prelude.Assoc.{Distinct, Distinct-insert, lookup-insert}
use mangle_rs.Common.Value.{Value}
use mangle_rs.Common.Value.Equality.{value_eq}
use mangle_rs.Interpreter.Cells.{
  Cell, Row, Tuple, flatten_tuple, unflatten_tuple, value_to_index_key,
}
use mangle_rs.Interpreter.Cells.RoundTrip.{unflatten_tuple-flatten_tuple}
use mangle_rs.Interpreter.Cells.Skip.{cell_eq}
use mangle_rs.Interpreter.MemStore.State.{MemStore, n_cols}
use mangle_rs.Interpreter.MemStore.Reads.{
  read_at, scan_index, scan_delta_index, index_hits, column_hits, hits_in,
}
use mangle_rs.Interpreter.MemStore.Retract.{not_there}
use mangle_rs.Interpreter.MemStore.Writes.{
  find_position, last_or, replace_at, swap_remove, take_at, take_from, take_out, retract,
}
use mangle_rs.Interpreter.MemStore.Tables.{Typed}
use mangle_rs.Interpreter.MemStore.Scans.{Holds-Typed, no_rows, index_hits-matching}
use mangle_rs.Interpreter.MemStore.Facts.{has_key, positions, Facts, Represents}
use mangle_rs.Interpreter.MemStore.Insert.{known}
use mangle_rs.Interpreter.MemStore.Removed.{
  take_out-TakesOut, find_position-flatten, swap_remove-map, All-swap_remove, is_some,
  known-find_position,
}

module _ {A : Type 0} where
  length-replace_at : (xs : List A) (i : ℕ) (x : A) → length (replace_at xs i x) ≡ length xs
  length-replace_at [] i x = refl
  length-replace_at (y ∷ ys) zero x = refl
  length-replace_at (y ∷ ys) (suc i) x = ap suc (length-replace_at ys i x)

  length-take_lem : (n : ℕ) (xs : List A) → n ≤ length xs → length (take n xs) ≡ n
  length-take_lem zero xs h = refl
  length-take_lem (suc n) [] h = ground arith
  length-take_lem (suc n) (x ∷ xs) h = ap suc (length-take_lem n xs (omega arith))

  length-swap_remove : (x : A) (xs : List A) (i : ℕ) → length (swap_remove (x ∷ xs) i) ≡ length xs
  length-swap_remove x xs i =
      length-take_lem (length xs) _ (omega (arith, length-replace_at (x ∷ xs) i (last_or x xs)))

  -- a list that lost an element ends before its last position
  short :
      (xs us : List A) (u : A) (i : ℕ) → xs ≡ us ++ u ∷ [] → length (swap_remove xs i) ≡ length us
  short [] us u i h = let e = ap length h ∙ length-append us (u ∷ []) in absurd (omega arith)
  short (x ∷ xs) us u i h =
      let e = ap length h ∙ length-append us (u ∷ []) in omega (arith, length-swap_remove x xs i)

positions-last :
    (us : List Tuple) (u : Tuple) (col : ℕ) (key : Cell) (start : ℕ)
    → has_key u col key ≡ true
    → (is : List ℕ) × (positions col key (us ++ u ∷ []) start ≡ is ++ (start + length us) ∷ [])
positions-last [] u col key start h = ([], rw h (ap (λ i. i ∷ []) (omega arith)))
positions-last (t ∷ us) u col key start h =
    let (is, e) = positions-last us u col key (start + 1) h in
    elim (Bool-cases (has_key t col key)) [
      | inl hit ↦ (start ∷ is, rw (hit, e) (ap (λ i. start ∷ is ++ i ∷ []) (omega arith)))
      | inr miss ↦ (is, rw (miss, e) (ap (λ i. is ++ i ∷ []) (omega arith)))
    ]

-- a row of a table is the flat form of a tuple, which reads back
row_at :
    (ts : List Tuple) (n i : ℕ)
    → Typed n ts
    → (get_elem? (map flatten_tuple ts) i ≡ none)
      ⊎ ((t : Tuple) × (get_elem? (map flatten_tuple ts) i ≡ some (flatten_tuple t))
          × (unflatten_tuple (flatten_tuple t) n ≡ ok t))
row_at [] n i h = inl refl
row_at (t ∷ ts) n zero h = inr (t, refl, rw h.0 (unflatten_tuple-flatten_tuple t))
row_at (t ∷ ts) n (suc i) h = row_at ts n i h.1

get_elem?-past :
    (ts : List Tuple) (i : ℕ) → length ts ≡ i → get_elem? (map flatten_tuple ts) i ≡ none
get_elem?-past [] i e = refl
get_elem?-past (t ∷ ts) i e = rw (← e) (get_elem?-past ts (length ts) refl)

-- row numbers of which the last is past the end of the table
read_past :
    (ts : List Tuple) (n : ℕ) (is : List ℕ) (i : ℕ)
    → Typed n ts
    → length ts ≡ i
    → read_at n (map flatten_tuple ts) (is ++ i ∷ []) ≡ panic
unfolding read_at
read_past ts n [] i h e = rw (get_elem?-past ts i e)
read_past ts n (j ∷ is) i h e = elim (row_at ts n j h) [
  | inl p ↦ rw p
  | inr (t, p, q) ↦ rw (p, q, read_past ts n is i h e)
]

not_nil : {A : Type 0} (is : List A) (i : A) → [] ≡ is ++ i ∷ [] → ⊥
not_nil [] i p = cc
not_nil (j ∷ is) i p = cc

-- an index whose last row number is past the end of the table
stale_hits :
    (n : ℕ) (key : Cell) (ts : List Tuple) (is : List ℕ) (i : ℕ) (o : Option (Map Cell (List ℕ)))
    → Typed n ts
    → length ts ≡ i
    → elim o [ none ↦ [] | some column ↦ get_or (column key) [] ] ≡ is ++ i ∷ []
    → column_hits n o key (some (map flatten_tuple ts)) ≡ panic
unfolding column_hits hits_in
stale_hits n key ts is i none h e p = absurd (not_nil is i p)
stale_hits n key ts is i (some column) h e p = go (column key) p
  where
    go :
        (o : Option (List ℕ))
        → get_or o [] ≡ is ++ i ∷ []
        → hits_in n o (some (map flatten_tuple ts)) ≡ panic
    go none p = absurd (not_nil is i p)
    go (some js) p = rw p (read_past ts n is i h e)

module _ (s : MemStore) (f : Facts) (r : Str) (t : Tuple) (rep : Represents s f) where
  -- the new facts' table after the fact is taken out
  left_over :
      (o : Option (List Row)) (i : ℕ)
      → get_or o [] ≡ map flatten_tuple (f.delta r)
      → find_position (f.delta r) t ≡ some i
      → (take_from s.delta r (flatten_tuple t) o).0
        ≡ Assoc.insert s.delta r (map flatten_tuple (swap_remove (f.delta r) i))
  unfolding take_from take_at
  left_over none i flat e = cc (e, ap (λ us. find_position us t) (no_rows (f.delta r) (sym flat)))
  left_over (some table) i flat e =
      rw (flat, find_position-flatten (f.delta r) t, e)
        (ap (λ rows. Assoc.insert s.delta r rows) (swap_remove-map flatten_tuple (f.delta r) i))

  -- what the index of the new facts answers afterwards
  delta_hits :
      (us : List Tuple) (u : Tuple) (col : ℕ) (key : Cell)
      → known (f.delta r) t ≡ true
      → f.delta r ≡ us ++ u ∷ []
      → has_key u col key ≡ true
      → index_hits s.delta_indexes (take_out s.delta r (flatten_tuple t)).0 (n_cols s r) r col key
        ≡ panic
  unfolding index_hits take_out
  delta_hits us u col key there ends hit =
      let (i, at_i) =
        found (find_position (f.delta r) t) (sym (known-find_position (f.delta r) t) ∙ there) in
      let (is, last) = positions-last us u col key 0 hit in
      rw
        (
          left_over (Assoc.lookup r s.delta) i (rep.delta_holds.flat r) at_i,
          lookup-insert r r (map flatten_tuple (swap_remove (f.delta r) i)) s.delta,
          ==-refl r,
        )
        (stale_hits (n_cols s r) key (swap_remove (f.delta r) i) is (0 + length us)
          (s.delta_indexes (r, col))
          (All-swap_remove _ (f.delta r) i (Holds-Typed r rep.delta_holds))
          (short (f.delta r) us u i ends ∙ omega arith)
          (rep.delta_indexed r col key ∙ ap (λ ts. positions col key ts 0) ends ∙ last))
    where
      found : (o : Option ℕ) → is_some o ≡ true → (i : ℕ) × (o ≡ some i)
      found none h = absurd cc
      found (some i) h = (i, refl)

-- In a store that stands for facts, a fact that is new and not stable is reported as not found when it
-- is retracted, and the store that `retract` leaves panics on a lookup, in all facts or in the new
-- ones, by a key that the relation's last new fact had in the column.
pub retract_stale_index :
    (s : MemStore) (f : Facts) (r : Str) (t : Tuple) (us : List Tuple) (u : Tuple) (col : ℕ)
    (key : Value)
    → Represents s f
    → known (f.stable r) t ≡ false
    → known (f.delta r) t ≡ true
    → f.delta r ≡ us ++ u ∷ []
    → has_key u col (value_to_index_key key) ≡ true
    → (s' : MemStore) × (retract s r t ≡ ok (s', false))
      × (scan_index s' r col key ≡ panic)
      × (scan_delta_index s' r col key ≡ panic)
unfolding retract scan_index scan_delta_index
retract_stale_index s f r t us u col key rep miss there ends hit =
    let st = take_out-TakesOut r t rep.stable_holds in
    let k = value_to_index_key key in
    let stable =
      index_hits-matching s.stable_indexes r col k st.holds
        (not_there f.stable r t s.stable_indexes miss rep.stable_indexed) in
    let delta = delta_hits s f r t rep us u col k there ends hit in
    (
      record s {
        stable = (take_out s.stable r (flatten_tuple t)).0;
        delta = (take_out s.delta r (flatten_tuple t)).0;
        next_delta = (take_out s.next_delta r (flatten_tuple t)).0;
      },
      rw (st.found, miss),
      rw (stable, delta),
      delta,
    )
