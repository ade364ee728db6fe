-- ===== src/Interpreter/MemStore/Tables.antt =====
-- The loops of `MemStore` (crates/mangle-interpreter/src/lib.rs) over the rows of one relation.
use mathlib.Core.List.{append-nil, append_assoc}
use mangle_rs.Prelude.{
  ℕ, ◌+◌, ◌≡◌, refl, sym, ap, ◌∙◌, inl, inr, Bool, true, false, ◌&&◌, List, [], ◌∷◌, ◌++◌, map,
  arith, if◌then◌else◌, Bool-cases, length, get_elem?, length-append, get_elem?-append, All, ◌==◌,
  ==-refl, nat_eq, list_eq, pair_eq, Str, or_panic, ok, int_eq,
}
use mangle_rs.Interpreter.Cells.{
  Cell, Row, Tuple, flatten_tuple, unflatten_tuple, count_logical_values,
}
use mangle_rs.Interpreter.Cells.RoundTrip.{unflatten_tuple-flatten_tuple}
use mangle_rs.Interpreter.Cells.Skip.{count_logical_values-flatten_tuple}
use mangle_rs.Interpreter.MemStore.State.{Indexes}
use mangle_rs.Interpreter.MemStore.Index.{index_cells, index_table}
use mangle_rs.Interpreter.MemStore.Reads.{read_rows, read_at}
use mangle_rs.Interpreter.MemStore.Merge.{merge_rows, index_delta_rows}
use mangle_rs.Interpreter.MemStore.Facts.{postings, has_key, positions, matching}
use mangle_rs.Interpreter.MemStore.Postings.{also, index_cells_lem}

abbrev pub Typed : ℕ → List Tuple → Type 0
Typed n = All (λ t. n ≡ length t)

-- Every list of row numbers of the relation got the new positions behind it.
abbrev pub Extends : Indexes → Indexes → Str → List Tuple → ℕ → Type 0
Extends indexes grown r ts start =
    (q : Str) (d : ℕ) (l : Cell)
    → postings grown q d l ≡ (
        if q == r then postings indexes q d l ++ positions d l ts start else postings indexes q d l)

also-positions :
    (b : Bool) (is : List ℕ) (start d : ℕ) (l : Cell) (ts : List Tuple)
    → also b is start ++ positions d l ts (start + 1)
      ≡ is ++ (if b then start ∷ positions d l ts (start + 1) else positions d l ts (start + 1))
also-positions true is start d l ts = append_assoc is (start ∷ []) (positions d l ts (start + 1))
also-positions false is start d l ts = refl

-- one more row, then the rest
grow-cons :
    (indexes next grown : Indexes) (r : Str) (t : Tuple) (ts : List Tuple) (start : ℕ)
    → ((q : Str) (d : ℕ) (l : Cell)
        → postings next q d l ≡ also ((q == r) && has_key t d l) (postings indexes q d l) start)
    → Extends next grown r ts (start + 1)
    → Extends indexes grown r (t ∷ ts) start
grow-cons indexes next grown r t ts start one rest q d l = go (q == r) (rest q d l) (one q d l)
  where
    go :
        (b : Bool)
        → postings grown q d l
          ≡ (if b then postings next q d l ++ positions d l ts (start + 1) else postings next q d l)
        → postings next q d l ≡ also (b && has_key t d l) (postings indexes q d l) start
        → postings grown q d l ≡ (
            if b
            then postings indexes q d l ++ positions d l (t ∷ ts) start
            else postings indexes q d l)
    go true p o =
        p
        ∙ ap (λ is. is ++ positions d l ts (start + 1)) o
        ∙ also-positions (has_key t d l) (postings indexes q d l) start d l ts
    go false p o = p ∙ o

grow-nil : (indexes : Indexes) (r : Str) (start : ℕ) → Extends indexes indexes r [] start
grow-nil indexes r start q d l = go (q == r)
  where
    go :
        (b : Bool)
        → postings indexes q d l
          ≡ (if b then postings indexes q d l ++ [] else postings indexes q d l)
    go true = sym (append-nil (postings indexes q d l))
    go false = refl

-- The lemmas about one row, at the relation's number of columns.
module _ {n : ℕ} (t : Tuple) (h : n ≡ length t) where
  indexed :
      (indexes grown : Indexes) (r : Str) (i : ℕ)
      → index_cells indexes r (flatten_tuple t) (length t) i ≡ ok grown
      → index_cells indexes r (flatten_tuple t) n i ≡ ok grown
  indexed indexes grown r i e = ap (λ m. index_cells indexes r (flatten_tuple t) m i) h ∙ e

  counted : count_logical_values (flatten_tuple t) ≡ ok n
  counted = count_logical_values-flatten_tuple t ∙ ap ok (sym h)

  read_back : unflatten_tuple (flatten_tuple t) n ≡ ok t
  read_back = ap (unflatten_tuple (flatten_tuple t)) h ∙ unflatten_tuple-flatten_tuple t

pub index_table_lem :
    (ts : List Tuple) (indexes : Indexes) (r : Str) (n start : ℕ)
    → Typed n ts
    → (grown : Indexes) × (index_table indexes r n start (map flatten_tuple ts) ≡ ok grown)
      × Extends indexes grown r ts start
unfolding index_table
index_table_lem [] indexes r n start h = (indexes, refl, grow-nil indexes r start)
index_table_lem (t ∷ ts) indexes r n start h =
    let (next, done, one) = index_cells_lem indexes r t start in
    let (grown, rest, g) = index_table_lem ts next r n (start + 1) h.1 in
    (
      grown,
      rw (indexed t h.0 indexes next r start done) rest,
      grow-cons indexes next grown r t ts start one g,
    )

pub merge_rows_lem :
    (ts : List Tuple) (indexes : Indexes) (r : Str) (n : ℕ) (table : List Row)
    → Typed n ts
    → (grown : Indexes) × (merge_rows n r (map flatten_tuple ts) table indexes
        ≡ ok (table ++ map flatten_tuple ts, grown))
      × Extends indexes grown r ts (length table)
unfolding merge_rows
merge_rows_lem [] indexes r n table h = (indexes, rw append-nil, grow-nil indexes r (length table))
merge_rows_lem (t ∷ ts) indexes r n table h =
    let row = flatten_tuple t in
    let (next, done, one) = index_cells_lem indexes r t (length table) in
    let (grown, rest, g) = merge_rows_lem ts next r n (table ++ row ∷ []) h.1 in
    let len : length (table ++ row ∷ []) ≡ length table + 1 =
      omega (arith, length-append table (row ∷ [])) in
    (
      grown,
      rw (counted t h.0, ==-refl n, indexed t h.0 indexes next r (length table) done)
          (rest ∙ ap (λ rs. ok (rs, grown)) (append_assoc table (row ∷ []) (map flatten_tuple ts))),
      grow-cons indexes next grown r t ts (length table) one (λ q d l. rw len at (g q d l)),
    )

pub index_delta_rows_lem :
    (ts : List Tuple) (indexes : Indexes) (r : Str) (n start : ℕ)
    → Typed n ts
    → (grown : Indexes) × (index_delta_rows n r (map flatten_tuple ts) start indexes ≡ ok grown)
      × Extends indexes grown r ts start
unfolding index_delta_rows
index_delta_rows_lem [] indexes r n start h = (indexes, refl, grow-nil indexes r start)
index_delta_rows_lem (t ∷ ts) indexes r n start h =
    let (next, done, one) = index_cells_lem indexes r t start in
    let (grown, rest, g) = index_delta_rows_lem ts next r n (start + 1) h.1 in
    (
      grown,
      rw (counted t h.0, ==-refl n, indexed t h.0 indexes next r start done) rest,
      grow-cons indexes next grown r t ts start one g,
    )

pub read_rows-flatten :
    (ts : List Tuple) (n : ℕ) → Typed n ts → read_rows n (map flatten_tuple ts) ≡ ok ts
unfolding read_rows
read_rows-flatten [] n h = refl
read_rows-flatten (t ∷ ts) n h = rw (read_back t h.0, read_rows-flatten ts n h.1)

pub read_at-positions :
    (ts : List Tuple) (d : ℕ) (l : Cell) (n : ℕ) (table before : List Row)
    → Typed n ts
    → table ≡ before ++ map flatten_tuple ts
    → read_at n table (positions d l ts (length before)) ≡ ok (matching d l ts)
unfolding read_at
read_at-positions [] d l n table before h e = refl
read_at-positions (t ∷ ts) d l n table before h e =
    let rest =
      read_at-positions ts d l n table (before ++ flatten_tuple t ∷ []) h.1
        (e ∙ sym (append_assoc before (flatten_tuple t ∷ []) (map flatten_tuple ts))) in
    elim (Bool-cases (has_key t d l)) [
      | inl hit ↦ rw (hit, found, read_back t h.0, rw len at rest)
      | inr miss ↦ rw miss (rw len at rest)
    ]
  where
    row : Row
    row = flatten_tuple t

    len : length (before ++ row ∷ []) ≡ length before + 1
    len = omega (arith, length-append before (row ∷ []))

    found : or_panic (get_elem? table (length before)) ≡ ok row
    found = rw (e, get_elem?-append before (map flatten_tuple ts) row)
