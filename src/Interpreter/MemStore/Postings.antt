-- ===== src/Interpreter/MemStore/Postings.antt =====
-- `index_cells` of crates/mangle-interpreter/src/lib.rs adds one row number to the key of each column.
use mathlib.Core.List.{append_assoc}
use mangle_rs.Prelude.{
  ℕ, zero, suc, ◌+◌, ◌<◌, ◌≡◌, refl, sym, ap, ◌∙◌, ap₂, ◌≢◌, inl, inr, Bool, false, ◌&&◌, Option,
  none, some, List, [], ◌∷◌, ◌++◌, arith, if◌then◌else◌, Bool-cases, and-true, get_or, length,
  length-append, ◌==◌, ==-refl, ==_iff, ==-ne, nat_eq, list_eq, pair_eq, Str, ok, int_eq,
}
use mangle_rs.Prelude.Map
use mangle_rs.Prelude.Map.{Map}
use mangle_rs.Common.Value.{Value}
use mangle_rs.Interpreter.Cells.{Cell, Row, Tuple, flatten_tuple, value_to_index_key}
use mangle_rs.Interpreter.Cells.RoundTrip.{cells_of, cells_of_tuple, flatten_tuple-eq}
use mangle_rs.Interpreter.Cells.Skip.{cell_eq, skip_column}
use mangle_rs.Interpreter.MemStore.State.{Indexes}
use mangle_rs.Interpreter.MemStore.Index.{push_index, index_columns, index_cells, drop_relation}
use mangle_rs.Interpreter.MemStore.Facts.{postings, has_key}

-- one entry more where relation, column and key are the pushed ones
abbrev pub also : Bool → List ℕ → ℕ → List ℕ
also b is i = if b then is ++ i ∷ [] else is

column-postings :
    (o : Option (Map Cell (List ℕ))) (k : Cell)
    → get_or (get_or o Map.empty k) [] ≡ elim o [ none ↦ [] | some m ↦ get_or (m k) [] ]
column-postings none k = refl
column-postings (some m) k = refl

pushed :
    (column : Map Cell (List ℕ)) (k l : Cell) (i : ℕ)
    → get_or (Map.insert column k (get_or (column k) [] ++ i ∷ []) l) []
      ≡ also (l == k) (get_or (column l) []) i
pushed column k l i = elim (Bool-cases (l == k)) [
  | inl same ↦ rw same (rw ((==_iff l k).0 same))
  | inr ne ↦ rw ne
]

pub postings-push_index :
    (indexes : Indexes) (r q : Str) (c d : ℕ) (k l : Cell) (i : ℕ)
    → postings (push_index indexes r c k i) q d l
      ≡ also (((q == r) && (d == c)) && (l == k)) (postings indexes q d l) i
unfolding push_index
postings-push_index indexes r q c d k l i = elim (Bool-cases ((q == r) && (d == c))) [
  | inl here ↦
      let (eq_r, eq_c) = and-true (q == r) (d == c) here in
      rw (here, postings, push_index)
        (pushed (get_or (indexes (r, c)) Map.empty) k l i
          ∙ ap (λ is. also (l == k) is i)
              (column-postings (indexes (r, c)) l
                ∙ ap₂ (λ x y. postings indexes x y l) (sym ((==_iff q r).0 eq_r))
                    (sym ((==_iff d c).0 eq_c))))
  | inr off ↦ rw (off, postings, push_index)
]

pub postings-drop_relation :
    (indexes : Indexes) (r q : Str) (c : ℕ) (k : Cell)
    → postings (drop_relation indexes r) q c k ≡ (if q == r then [] else postings indexes q c k)
unfolding drop_relation
postings-drop_relation indexes r q c k = elim (Bool-cases (q == r)) [
  | inl same ↦ rw (same, postings, drop_relation)
  | inr ne ↦ rw (ne, postings, drop_relation)
]

-- What indexing the columns `t` of a row, from column `col` on, does to every list of row numbers.
record Grows (indexes grown : Indexes) (r : Str) (t : Tuple) (col i : ℕ) : Type 0 where
  elsewhere :
      (q : Str) (d : ℕ) (l : Cell)
      → (q == r) ≡ false
      → postings grown q d l ≡ postings indexes q d l
  earlier : (d : ℕ) (l : Cell) → d < col → postings grown r d l ≡ postings indexes r d l
  here :
      (d : ℕ) (l : Cell)
      → postings grown r (col + d) l ≡ also (has_key t d l) (postings indexes r (col + d) l) i

module _ (indexes : Indexes) (r : Str) (v : Value) (i col : ℕ) where
  abbrev pushed_here : Indexes
  pushed_here = push_index indexes r col (value_to_index_key v) i

  other_relation :
      (q : Str) (d : ℕ) (l : Cell)
      → (q == r) ≡ false
      → postings pushed_here q d l ≡ postings indexes q d l
  other_relation q d l h = postings-push_index indexes r q col d (value_to_index_key v) l i ∙ rw h

  other_column : (d : ℕ) (l : Cell) → d ≢ col → postings pushed_here r d l ≡ postings indexes r d l
  other_column d l h =
      postings-push_index indexes r r col d (value_to_index_key v) l i
      ∙ rw (==-refl r, ==-ne d col h)

  same_column :
      (l : Cell)
      → postings pushed_here r col l ≡ also (l == value_to_index_key v) (postings indexes r col l) i
  same_column l =
      postings-push_index indexes r r col col (value_to_index_key v) l i
      ∙ rw (==-refl r, ==-refl col)

  Grows-cons :
      {grown : Indexes} (t : Tuple)
      → Grows pushed_here grown r t (col + 1) i
      → Grows indexes grown r (v ∷ t) col i
  Grows-cons {grown} t g = record {
    elsewhere = λ q d l h. g.elsewhere q d l h ∙ other_relation q d l h;
    earlier = λ d l h. g.earlier d l (omega arith) ∙ other_column d l (omega arith);
    here = at_column;
  }
    where
      at_column :
          (d : ℕ) (l : Cell)
          → postings grown r (col + d) l
            ≡ also (has_key (v ∷ t) d l) (postings indexes r (col + d) l) i
      at_column zero l =
          let e : col + 0 ≡ col = omega arith in
          rw e (g.earlier col l (omega arith) ∙ same_column l)
      at_column (suc d) l =
          let e : col + suc d ≡ col + 1 + d = omega arith in
          rw e (
            g.here d l
            ∙ ap (λ is. also (has_key t d l) is i) (other_column (col + 1 + d) l (omega arith)))

index_columns-Grows :
    (t : Tuple) (indexes : Indexes) (r : Str) (cells before : Row) (i col at : ℕ)
    → cells ≡ before ++ cells_of_tuple t
    → at ≡ length before
    → (grown : Indexes) × (index_columns (length t) indexes r cells i col at ≡ ok grown)
      × Grows indexes grown r t col i
unfolding index_columns cells_of_tuple
index_columns-Grows [] indexes r cells before i col at e q = (
  indexes,
  refl,
  record { elsewhere = λ q d l h. refl; earlier = λ d l h. refl; here = λ d l. refl },
)
index_columns-Grows (v ∷ t) indexes r cells before i col at e q =
    let (key_read, skipped) = skip_column v cells before (cells_of_tuple t) at e q in
    let (grown, done, g) =
      index_columns-Grows t (pushed_here indexes r v i col) r cells (before ++ cells_of v) i
        (col + 1) (at + length (cells_of v))
        (e ∙ sym (append_assoc before (cells_of v) (cells_of_tuple t)))
        (omega (arith, length-append before (cells_of v))) in
    (grown, rw (key_read, skipped) done, Grows-cons indexes r v i col t g)

-- Indexing the row of a tuple never panics. It adds the row number to the key of each of the tuple's
-- columns and to nothing else.
pub index_cells_lem :
    (indexes : Indexes) (r : Str) (t : Tuple) (i : ℕ)
    → (grown : Indexes) × (index_cells indexes r (flatten_tuple t) (length t) i ≡ ok grown)
      × ((q : Str) (d : ℕ) (l : Cell)
          → postings grown q d l ≡ also ((q == r) && has_key t d l) (postings indexes q d l) i)
unfolding index_cells
index_cells_lem indexes r t i =
    let (grown, done, g) =
      index_columns-Grows t indexes r (flatten_tuple t) [] i 0 0 (flatten_tuple-eq t) refl in
    (
      grown,
      done,
      λ q d l. elim (Bool-cases (q == r)) [
        | inl same ↦
            let e : 0 + d ≡ d = omega arith in rw (same, (==_iff q r).0 same) (rw e at (g.here d l))
        | inr ne ↦ rw ne (g.elsewhere q d l ne)
      ],
    )
