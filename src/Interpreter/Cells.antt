-- ===== src/Interpreter/Cells.antt =====
-- crates/mangle-interpreter/src/lib.rs, `Cell` and the flat form of tuples. A read position that the
-- source passes as `&mut usize` is handed back with the result; indexing out of range is a panic.
pub mod RoundTrip
pub mod Skip
use mangle_rs.Prelude.{
  ℕ, zero, suc, ◌+◌, ◌<◌, Bool, true, false, ◌&&◌, List, [], ◌∷◌, ◌++◌, ltb, nat_beq, length,
  get_elem?, nat_eq, list_eq, pair_eq, Outcome, ◌>>=◌, or_panic, ok, panic, int_eq,
}
use mangle_rs.Common.Value.{
  CompoundKind, rank, Value, number, float, string, name, time, duration, compound, null, Values,
  nil, cons, count, of_list, beq_value,
}

pub data Cell : Type 0 where
  val : Value → Cell
  compound_start : CompoundKind → ℕ → Cell

abbrev pub Row : Type 0
Row = List Cell

abbrev pub Tuple : Type 0
Tuple = List Value

unfoldable pub beq_cell : Cell → Cell → Bool
beq_cell (val a) (val b) = beq_value a b
beq_cell (compound_start k n) (compound_start l m) = nat_beq (rank k) (rank l) && nat_beq n m
beq_cell _ _ = false

unfoldable mutual
  pub flatten_value : Value → Row → Row
  flatten_value (compound kind elems) out =
      flatten_values elems (out ++ compound_start kind (count elems) ∷ [])
  flatten_value v out = out ++ val v ∷ []

  -- the loop over the elements of a compound
  pub flatten_values : Values → Row → Row
  flatten_values nil out = out
  flatten_values (cons v vs) out = flatten_values vs (flatten_value v out)

-- the loop of `flatten_tuple`
unfoldable pub flatten_loop : Tuple → Row → Row
flatten_loop [] out = out
flatten_loop (v ∷ vs) out = flatten_loop vs (flatten_value v out)

unfoldable pub flatten_tuple : Tuple → Row
unfolding flatten_loop flatten_value flatten_values
flatten_tuple t = flatten_loop t []

-- `n` values read one after the other by `one`
unfoldable pub read_many : (ℕ → Outcome (Value × ℕ)) → ℕ → ℕ → Outcome (Tuple × ℕ)
read_many one zero pos = ok ([], pos)
read_many one (suc n) pos = do
  (v, pos') ← one pos
  (vs, pos'') ← read_many one n pos'
  ok (v ∷ vs, pos'')

-- what one cell asks for
read_cell : (ℕ → ℕ → Outcome (Tuple × ℕ)) → ℕ → Cell → Outcome (Value × ℕ)
read_cell many pos (val v) = ok (v, pos + 1)
read_cell many pos (compound_start kind n) = do
  (vs, pos') ← many n (pos + 1)
  ok (compound kind (of_list vs), pos')

-- The fuel counts the cells that are left to nest in: a read that nests deeper than there are cells
-- stands past the end, where the source panics too.
unfoldable pub unflatten_one : ℕ → Row → ℕ → Outcome (Value × ℕ)
unfolding read_cell read_many
unflatten_one zero cells pos = panic
unflatten_one (suc fuel) cells pos = do
  c ← or_panic (get_elem? cells pos)
  read_cell (read_many (unflatten_one fuel cells)) pos c

unfoldable pub unflatten_tuple : Row → ℕ → Outcome Tuple
unfolding unflatten_one
unflatten_tuple cells n_cols = do
  (t, pos) ← read_many (unflatten_one (suc (length cells)) cells) n_cols 0
  ok t

unfoldable pub skip_many : (ℕ → Outcome ℕ) → ℕ → ℕ → Outcome ℕ
skip_many one zero pos = ok pos
skip_many one (suc n) pos = do pos' ← one pos; skip_many one n pos'

skip_cell : (ℕ → ℕ → Outcome ℕ) → ℕ → Cell → Outcome ℕ
skip_cell many pos (val v) = ok (pos + 1)
skip_cell many pos (compound_start kind n) = many n (pos + 1)

unfoldable pub skip_one : ℕ → Row → ℕ → Outcome ℕ
unfolding skip_cell skip_many
skip_one zero cells pos = panic
skip_one (suc fuel) cells pos = do
  c ← or_panic (get_elem? cells pos)
  skip_cell (skip_many (skip_one fuel cells)) pos c

-- `while pos < cells.len()`; each round moves on by a cell at least, so `length cells` rounds suffice.
unfoldable pub count_loop : ℕ → Row → ℕ → ℕ → Outcome ℕ
count_loop zero cells pos n = ok n
count_loop (suc rounds) cells pos n = elim (ltb pos (length cells)) [
  | true ↦ skip_one (suc (length cells)) cells pos >>= λ pos'. count_loop rounds cells pos' (n + 1)
  | false ↦ ok n
]

unfoldable pub count_logical_values : Row → Outcome ℕ
unfolding count_loop skip_one
count_logical_values cells = count_loop (length cells) cells 0 0

-- The key of a column in a secondary index: its first cell.
unfoldable pub value_to_index_key : Value → Cell
value_to_index_key (compound kind elems) = compound_start kind (count elems)
value_to_index_key v = val v
