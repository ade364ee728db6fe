-- ===== src/Interpreter/Cells/RoundTrip.antt =====
-- Reading back what `flatten_tuple` of crates/mangle-interpreter/src/lib.rs wrote.
use mathlib.Core.List.{append-nil, append_assoc}
use mangle_rs.Prelude.{
  ℕ, zero, suc, ◌+◌, ◌≤◌, ◌<◌, ◌≡◌, refl, sym, ap, ◌∙◌, ap₂, [], ◌∷◌, ◌++◌, arith, length,
  get_elem?, length-append, get_elem?-append, nat_eq, list_eq, pair_eq, or_panic, ok, int_eq,
}
use mangle_rs.Common.Value.{Value, compound, null, Values, nil, cons, count, of_list, to_list}
use mangle_rs.Interpreter.Cells.{
  Cell, val, compound_start, Row, Tuple, flatten_value, flatten_values, flatten_loop, flatten_tuple,
  read_many, read_cell, unflatten_one, unflatten_tuple,
}

-- What a value looks like in a row.
unfoldable mutual
  pub cells_of : Value → Row
  cells_of (compound kind elems) = compound_start kind (count elems) ∷ cells_of_all elems
  cells_of v = val v ∷ []

  pub cells_of_all : Values → Row
  cells_of_all nil = []
  cells_of_all (cons v vs) = cells_of v ++ cells_of_all vs

unfoldable pub cells_of_tuple : Tuple → Row
cells_of_tuple [] = []
cells_of_tuple (v ∷ vs) = cells_of v ++ cells_of_tuple vs

mutual
  unfolding flatten_value flatten_values cells_of cells_of_all

  flatten_value-eq : (v : Value) (out : Row) → flatten_value v out ≡ out ++ cells_of v
  flatten_value-eq (compound k vs) out =
      flatten_values-eq vs _ ∙ append_assoc out (compound_start k (count vs) ∷ []) (cells_of_all vs)
  flatten_value-eq null out = refl
  flatten_value-eq _ out = refl

  flatten_values-eq : (vs : Values) (out : Row) → flatten_values vs out ≡ out ++ cells_of_all vs
  flatten_values-eq nil out = sym (append-nil out)
  flatten_values-eq (cons v vs) out =
      rw (flatten_value-eq v out)
        (flatten_values-eq vs _ ∙ append_assoc out (cells_of v) (cells_of_all vs))

flatten_loop-eq : (t : Tuple) (out : Row) → flatten_loop t out ≡ out ++ cells_of_tuple t
unfolding flatten_loop cells_of_tuple
flatten_loop-eq [] out = sym (append-nil out)
flatten_loop-eq (v ∷ vs) out =
    rw (flatten_value-eq v out)
      (flatten_loop-eq vs _ ∙ append_assoc out (cells_of v) (cells_of_tuple vs))

pub flatten_tuple-eq : (t : Tuple) → flatten_tuple t ≡ cells_of_tuple t
unfolding flatten_tuple
flatten_tuple-eq t = flatten_loop-eq t []

of_list-to_list : (vs : Values) → of_list (to_list vs) ≡ vs
of_list-to_list nil = refl
of_list-to_list (cons v vs) = ap (cons v) (of_list-to_list vs)

cells_of_tuple-to_list : (vs : Values) → cells_of_tuple (to_list vs) ≡ cells_of_all vs
unfolding cells_of_tuple cells_of_all
cells_of_tuple-to_list nil = refl
cells_of_tuple-to_list (cons v vs) = ap (λ r. cells_of v ++ r) (cells_of_tuple-to_list vs)

length-to_list : (vs : Values) → length (to_list vs) ≡ count vs
length-to_list nil = refl
length-to_list (cons v vs) = ap suc (length-to_list vs)

pub cells_of_pos : (v : Value) → 0 < length (cells_of v)
unfolding cells_of
cells_of_pos (compound k vs) = omega arith
cells_of_pos null = omega arith
cells_of_pos _ = omega arith

pub front :
    (cells before after : Row) (c : Cell) (p : ℕ)
    → cells ≡ before ++ c ∷ after
    → p ≡ length before
    → or_panic (get_elem? cells p) ≡ ok c
front cells before after c p e h = rw (e, h, get_elem?-append before after c)

pub step_past :
    (cells before after : Row) (c : Cell)
    → cells ≡ before ++ c ∷ after
    → cells ≡ (before ++ c ∷ []) ++ after
step_past cells before after c e = e ∙ sym (append_assoc before (c ∷ []) after)

length-push :
    (before : Row) (c : Cell) (p : ℕ) → p ≡ length before → p + 1 ≡ length (before ++ c ∷ [])
length-push before c p h = omega (arith, length-append before (c ∷ []))

mutual
  unfolding unflatten_one read_cell cells_of cells_of_all read_many

  pub reads_one :
      (v : Value) (fuel : ℕ) (cells before after : Row) (p : ℕ)
      → length (cells_of v) ≤ fuel
      → cells ≡ before ++ (cells_of v ++ after)
      → p ≡ length before
      → unflatten_one fuel cells p ≡ ok (v, p + length (cells_of v))
  reads_one (compound k vs) zero cells before after p h e q = absurd (omega arith)
  reads_one (compound k vs) (suc fuel) cells before after p h e q =
      let c = compound_start k (count vs) in
      rw (front cells before (cells_of_all vs ++ after) c p e q) (
        rw
          (reads_all vs fuel cells (before ++ c ∷ []) after (p + 1) (omega arith)
            (step_past cells before (cells_of_all vs ++ after) c e) (length-push before c p q))
          (ap₂ (λ x (y : ℕ). ok (compound k x, y)) (of_list-to_list vs) (omega arith)))
  reads_one null zero cells before after p h e q = absurd (omega arith)
  reads_one v zero cells before after p h e q = absurd (omega arith)
  reads_one null (suc fuel) cells before after p h e q =
      rw (front cells before after (val null) p e q)
  reads_one v (suc fuel) cells before after p h e q = rw (front cells before after (val v) p e q)

  reads_all :
      (vs : Values) (fuel : ℕ) (cells before after : Row) (p : ℕ)
      → length (cells_of_all vs) ≤ fuel
      → cells ≡ before ++ (cells_of_all vs ++ after)
      → p ≡ length before
      → read_many (unflatten_one fuel cells) (count vs) p
        ≡ ok (to_list vs, p + length (cells_of_all vs))
  reads_all nil fuel cells before after p h e q = ap (λ (y : ℕ). ok ([], y)) (omega arith)
  reads_all (cons v vs) fuel cells before after p h e q =
      let n = length-append (cells_of v) (cells_of_all vs) in
      rw
        (reads_one v fuel cells before (cells_of_all vs ++ after) p (omega arith)
          (e ∙ ap (λ r. before ++ r) (append_assoc (cells_of v) (cells_of_all vs) after)) q)
        (rw
          (reads_all vs fuel cells (before ++ cells_of v) after (p + length (cells_of v))
            (omega arith)
            (e
              ∙ ap (λ r. before ++ r) (append_assoc (cells_of v) (cells_of_all vs) after)
              ∙ sym (append_assoc before (cells_of v) (cells_of_all vs ++ after)))
            (omega (arith, length-append before (cells_of v))))
          (ap (λ (y : ℕ). ok (v ∷ to_list vs, y)) (omega arith)))

reads_tuple :
    (t : Tuple) (fuel : ℕ) (cells before after : Row) (p : ℕ)
    → length (cells_of_tuple t) ≤ fuel
    → cells ≡ before ++ (cells_of_tuple t ++ after)
    → p ≡ length before
    → read_many (unflatten_one fuel cells) (length t) p ≡ ok (t, p + length (cells_of_tuple t))
unfolding read_many cells_of_tuple
reads_tuple [] fuel cells before after p h e q = ap (λ (y : ℕ). ok ([], y)) (omega arith)
reads_tuple (v ∷ t) fuel cells before after p h e q =
    let n = length-append (cells_of v) (cells_of_tuple t) in
    rw
      (reads_one v fuel cells before (cells_of_tuple t ++ after) p (omega arith)
        (e ∙ ap (λ r. before ++ r) (append_assoc (cells_of v) (cells_of_tuple t) after)) q)
      (rw
        (reads_tuple t fuel cells (before ++ cells_of v) after (p + length (cells_of v))
          (omega arith)
          (e
            ∙ ap (λ r. before ++ r) (append_assoc (cells_of v) (cells_of_tuple t) after)
            ∙ sym (append_assoc before (cells_of v) (cells_of_tuple t ++ after)))
          (omega (arith, length-append before (cells_of v))))
        (ap (λ (y : ℕ). ok (v ∷ t, y)) (omega arith)))

-- A tuple is read back from its flat cells, by the number of its columns.
pub unflatten_tuple-flatten_tuple :
    (t : Tuple) → unflatten_tuple (flatten_tuple t) (length t) ≡ ok t
unfolding unflatten_tuple
unflatten_tuple-flatten_tuple t =
    let c = cells_of_tuple t in
    rw flatten_tuple-eq
      (rw (reads_tuple t (suc (length c)) c [] [] 0 (omega arith) (sym (append-nil c)) refl))
