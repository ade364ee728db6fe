-- ===== src/Interpreter/Cells/Skip.antt =====
-- `skip_one` and `count_logical_values` of crates/mangle-interpreter/src/lib.rs, and what they say
-- about flat rows: no two tuples share one.
use mathlib.Core.List.{append-nil, append_assoc}
use mathlib.Core.Path.{fun_ext}
use mangle_rs.Prelude.{
  ℕ, zero, suc, ◌+◌, ◌≤◌, ◌≡◌, refl, sym, ap, ◌∙◌, ap₂, ◌↔◌, true, false, [], ◌∷◌, ◌++◌, arith, ltb,
  lt→ltb, nat_beq_iff, length, get_elem?, length-append, Eq, ◌==◌, ==_iff, nat_eq, list_eq, pair_eq,
  Outcome, ◌>>=◌, or_panic, ok-injective, ok, err, panic, int_eq,
}
use mangle_rs.Common.Value.{rank, Value, compound, null, of_list}
use mangle_rs.Common.Value.Equality.{beq_value_iff, value_eq, rank_injective}
use mangle_rs.Interpreter.Cells.{
  Cell, val, compound_start, Row, Tuple, flatten_tuple, read_many, read_cell, unflatten_one,
  unflatten_tuple, skip_many, skip_cell, skip_one, count_loop, count_logical_values, beq_cell,
  value_to_index_key,
}
use mangle_rs.Interpreter.Cells.RoundTrip.{
  front, cells_of, cells_of_tuple, flatten_tuple-eq, reads_one, cells_of_pos,
  unflatten_tuple-flatten_tuple,
}

abbrev end_of : Outcome (Value × ℕ) → Outcome ℕ
end_of r = r >>= λ q. ok q.1

abbrev end_of_many : Outcome (Tuple × ℕ) → Outcome ℕ
end_of_many r = r >>= λ q. ok q.1

end_of-map :
    (v : Value) (m : Outcome (Tuple × ℕ))
    → end_of_many m ≡ end_of_many (m >>= λ s. ok (v ∷ s.0, s.1))
end_of-map v (ok a) = refl
end_of-map v (err e) = refl
end_of-map v panic = refl

end_of-bind :
    (r : Outcome (Value × ℕ)) (f : ℕ → Outcome (Tuple × ℕ))
    → (end_of r >>= λ p. end_of_many (f p))
      ≡ end_of_many (r >>= λ q. f q.1 >>= λ s. ok (q.0 ∷ s.0, s.1))
end_of-bind (ok (v, p)) f = end_of-map v (f p)
end_of-bind (err e) f = refl
end_of-bind panic f = refl

skip_many-eq :
    (skip : ℕ → Outcome ℕ) (read : ℕ → Outcome (Value × ℕ))
    → ((p : ℕ) → skip p ≡ end_of (read p))
    → (n p : ℕ) → skip_many skip n p ≡ end_of_many (read_many read n p)
unfolding skip_many read_many
skip_many-eq skip read h zero p = refl
skip_many-eq skip read h (suc n) p =
    rw (h p, fun_ext (skip_many-eq skip read h n)) (end_of-bind (read p) (read_many read n))

skip_cell-eq :
    (fuel : ℕ) (cells : Row)
    → ((p : ℕ) → skip_one fuel cells p ≡ end_of (unflatten_one fuel cells p))
    → (p : ℕ) (c : Cell)
    → skip_cell (skip_many (skip_one fuel cells)) p c
      ≡ end_of (read_cell (read_many (unflatten_one fuel cells)) p c)
unfolding skip_cell read_cell
skip_cell-eq fuel cells h p (val v) = refl
skip_cell-eq fuel cells h p (compound_start k n) =
    skip_many-eq _ _ h n (p + 1) ∙ compound_end (read_many (unflatten_one fuel cells) n (p + 1))
  where
    compound_end :
        (m : Outcome (Tuple × ℕ))
        → end_of_many m ≡ end_of (m >>= λ s. ok (compound k (of_list s.0), s.1))
    compound_end (ok s) = refl
    compound_end (err e) = refl
    compound_end panic = refl

-- Skipping a value ends where reading it ends, and panics exactly where reading it panics.
pub skip_one-eq :
    (fuel : ℕ) (cells : Row) (p : ℕ)
    → skip_one fuel cells p ≡ (unflatten_one fuel cells p >>= λ r. ok r.1)
unfolding skip_one unflatten_one
skip_one-eq zero cells p = refl
skip_one-eq (suc fuel) cells p = go (skip_one-eq fuel cells) (or_panic (get_elem? cells p))
  where
    go :
        ((q : ℕ) → skip_one fuel cells q ≡ end_of (unflatten_one fuel cells q))
        → (m : Outcome Cell)
        → (m >>= λ c. skip_cell (skip_many (skip_one fuel cells)) p c)
          ≡ end_of (m >>= λ c. read_cell (read_many (unflatten_one fuel cells)) p c)
    go ih (ok c) = skip_cell-eq fuel cells ih p c
    go ih (err e) = refl
    go ih panic = refl

-- The first cell of a value is its key in an index, and skipping it leads to the next value.
pub skip_column :
    (v : Value) (cells before after : Row) (p : ℕ)
    → cells ≡ before ++ (cells_of v ++ after)
    → p ≡ length before
    → (or_panic (get_elem? cells p) ≡ ok (value_to_index_key v))
      × (skip_one (suc (length cells)) cells p ≡ ok (p + length (cells_of v)))
skip_column v cells before after p e q = (
  first v e,
  rw skip_one-eq (rw (reads_one v (suc (length cells)) cells before after p short e q)),
)
  where
    first :
        (w : Value)
        → cells ≡ before ++ (cells_of w ++ after)
        → or_panic (get_elem? cells p) ≡ ok (value_to_index_key w)
    first (compound k vs) d = unfold cells_of value_to_index_key in front cells before _ _ p d q
    first null d = unfold cells_of value_to_index_key in front cells before _ _ p d q
    first w d = unfold cells_of value_to_index_key in front cells before _ _ p d q

    short : length (cells_of v) ≤ suc (length cells)
    short = omega (
      arith,
      ap length e,
      length-append before (cells_of v ++ after),
      length-append (cells_of v) after,
    )

count_loop-eq :
    (t : Tuple) (rounds : ℕ) (cells before : Row) (p n : ℕ)
    → length (cells_of_tuple t) ≤ rounds
    → cells ≡ before ++ cells_of_tuple t
    → p ≡ length before
    → count_loop rounds cells p n ≡ ok (n + length t)
unfolding count_loop cells_of_tuple
count_loop-eq [] zero cells before p n h e q = ap ok (omega arith)
count_loop-eq [] (suc rounds) cells before p n h e q = rw (ended, count_loop) (ap ok (omega arith))
  where
    ended : ltb p (length cells) ≡ false
    ended = ground (arith, ap length (e ∙ append-nil before))
count_loop-eq (v ∷ t) zero cells before p n h e q =
    absurd (omega (arith, cells_of_pos v, length-append (cells_of v) (cells_of_tuple t)))
count_loop-eq (v ∷ t) (suc rounds) cells before p n h e q =
    rw (more, count_loop)
      (rw ((skip_column v cells before (cells_of_tuple t) p e q).1) (
        count_loop-eq t rounds cells (before ++ cells_of v) (p + length (cells_of v)) (n + 1)
          (omega (arith, cells_of_pos v, length-append (cells_of v) (cells_of_tuple t)))
          (e ∙ sym (append_assoc before (cells_of v) (cells_of_tuple t)))
          (omega (arith, length-append before (cells_of v)))
        ∙ ap ok (omega arith)))
  where
    more : ltb p (length cells) ≡ true
    more = lt→ltb _ _ (
        omega (
          arith,
          ap length e,
          cells_of_pos v,
          length-append before (cells_of v ++ cells_of_tuple t),
          length-append (cells_of v) (cells_of_tuple t),
        ))

-- A flat row counts as many logical values as its tuple has columns.
pub count_logical_values-flatten_tuple :
    (t : Tuple) → count_logical_values (flatten_tuple t) ≡ ok (length t)
unfolding count_logical_values
count_logical_values-flatten_tuple t = rw flatten_tuple-eq (
    count_loop-eq t (length (cells_of_tuple t)) (cells_of_tuple t) [] 0 0 (omega arith) refl refl
    ∙ ap ok (omega arith))

-- Two tuples with the same flat cells are the same tuple.
pub flatten_tuple-injective : (t u : Tuple) → flatten_tuple t ≡ flatten_tuple u → t ≡ u
flatten_tuple-injective t u e =
    let n = ok-injective (
      sym (count_logical_values-flatten_tuple t)
      ∙ ap count_logical_values e
      ∙ count_logical_values-flatten_tuple u) in
    ok-injective (
      sym (unflatten_tuple-flatten_tuple t)
      ∙ ap₂ unflatten_tuple e n
      ∙ unflatten_tuple-flatten_tuple u)

pub beq_cell_iff : (a b : Cell) → (beq_cell a b ≡ true) ↔ (a ≡ b)
unfolding beq_cell
beq_cell_iff (val a) (val b) = ground (arith, beq_value_iff a b)
beq_cell_iff (val a) (compound_start k n) = (λ h. cc, λ h. cc)
beq_cell_iff (compound_start k n) (val b) = (λ h. cc, λ h. cc)
beq_cell_iff (compound_start k n) (compound_start l m) =
    ground (arith, rank_injective k l, nat_beq_iff n m, nat_beq_iff (rank k) (rank l))

instance abbrev pub cell_eq : Eq Cell
cell_eq = record { same = beq_cell; same_iff = beq_cell_iff }

-- A row is found among rows exactly where its tuple is found among their tuples.
pub beq-flatten_tuple : (t u : Tuple) → (flatten_tuple t == flatten_tuple u) ≡ (t == u)
beq-flatten_tuple t u = ground (
  arith,
  ==_iff (flatten_tuple t) (flatten_tuple u),
  ==_iff t u,
  flatten_tuple-injective t u,
  λ (p : t ≡ u). ap flatten_tuple p,
)
