-- ===== src/Tests/Values.antt =====
-- Values, interners and flat rows at concrete inputs.
use mangle_rs.Prelude.{
  ℕ, ◌-◌, ◌^◌, Ordering, ◌≡◌, refl, ◌↔◌, ◌⊎◌, true, none, some, [], ◌∷◌, length, nat_eq, list_eq,
  pair_eq, Str, bytes, ◌>>=◌, ok, panic, ℤ, int_eq,
}
use mangle_rs.Prelude.{pos}
use mangle_rs.Common.Value.{
  CompoundKind, Value, number, string, time, compound, null, nil, cons, cmp, beq_value,
}
use mangle_rs.Common.Value.Equality.{beq_value_iff}
use mangle_rs.Common.Value.Order.{flip, cmp-flip, cmp_cycle}
use mangle_rs.Prelude.Map
use mangle_rs.Ir.Interner
use mangle_rs.Ir.Interner.{intern, get, lookup}
use mangle_rs.Ir.Interner.Laws.{
  IsInterner, IsInterner-new, intern-IsInterner, intern_reads_back, intern-intern,
}
use mangle_rs.Interpreter.Cells.{
  Tuple, flatten_tuple, unflatten_tuple, unflatten_one, skip_one, count_logical_values,
}
use mangle_rs.Interpreter.Cells.RoundTrip.{unflatten_tuple-flatten_tuple}
use mangle_rs.Interpreter.Cells.Skip.{
  skip_one-eq, count_logical_values-flatten_tuple, flatten_tuple-injective,
}

abbrev five : Value
five = number (pos 5)

abbrev text : Value
text = string (bytes "a")

abbrev nested : Tuple
nested =
    compound CompoundKind.list
      (cons five (cons (compound CompoundKind.pair (cons text (cons null nil))) nil))
    ∷ text
    ∷ []

-- the language's conversion, exact on the inputs of these tests
abbrev as_f64 : ℤ → ℕ
as_f64 n = 0

beq_value_iff_example : (beq_value five text ≡ true) ↔ (five ≡ text)
beq_value_iff_example = beq_value_iff five text

cmp-flip_example : cmp as_f64 five text ≡ flip (cmp as_f64 text five)
cmp-flip_example = cmp-flip as_f64 text five

cmp_cycle_example :
    (cmp as_f64 five text ≡ Ordering.lt)
    × (cmp as_f64 text (time (pos 3)) ≡ Ordering.lt)
    × (cmp as_f64 (time (pos 3)) five ≡ Ordering.lt)
cmp_cycle_example = cmp_cycle as_f64 (pos 5) (pos 3) (bytes "a") refl

abbrev with_p : Interner.Interner
with_p = record { keys = Map.insert Map.empty (bytes "p") 1; vec = bytes "p" ∷ [] }

intern-IsInterner_example : IsInterner with_p
unfolding intern Interner.new_key
intern-IsInterner_example = intern-IsInterner Interner.new (bytes "p") {k = 1} IsInterner-new refl

intern_reads_back_example :
    ((s' : Interner.Interner) × (k : ℕ) × (intern Interner.new (bytes "p") ≡ ok (s', k))
      × (get s' k ≡ ok (bytes "p"))
      × ((j : ℕ) (other : Str) → get Interner.new j ≡ ok other → get s' j ≡ ok other))
    ⊎ ((lookup Interner.new (bytes "p") ≡ none)
        × (◌≡◌ {A = ℕ} 0 (2 ^ 32 - 1))
        × (intern Interner.new (bytes "p") ≡ panic))
intern_reads_back_example = intern_reads_back Interner.new (bytes "p") IsInterner-new

abbrev with_pq : Interner.Interner
with_pq = record { keys = Map.insert with_p.keys (bytes "q") 2; vec = bytes "p" ∷ bytes "q" ∷ [] }

intern-intern_example :
    ((◌≡◌ {A = ℕ} 1 2) ↔ (bytes "p" ≡ bytes "q"))
    × (lookup with_pq (bytes "p") ≡ some 1)
    × (lookup with_pq (bytes "q") ≡ some 2)
unfolding intern Interner.new_key
intern-intern_example =
    intern-intern Interner.new (bytes "p") (bytes "q") {j = 1} {k = 2} IsInterner-new refl refl

unflatten_tuple-flatten_tuple_example : unflatten_tuple (flatten_tuple nested) 2 ≡ ok nested
unflatten_tuple-flatten_tuple_example = unflatten_tuple-flatten_tuple nested

skip_one-eq_example :
    skip_one 9 (flatten_tuple nested) 0 ≡ (unflatten_one 9 (flatten_tuple nested) 0 >>= λ r. ok r.1)
skip_one-eq_example = skip_one-eq 9 (flatten_tuple nested) 0

count_logical_values-flatten_tuple_example : count_logical_values (flatten_tuple nested) ≡ ok 2
count_logical_values-flatten_tuple_example = count_logical_values-flatten_tuple nested

-- the nested pair stands among the cells of the list that holds it
flat_cells : length (flatten_tuple nested) ≡ 6
unfolding flatten_tuple
flat_cells = refl

flatten_tuple-injective_example : nested ≡ nested
flatten_tuple-injective_example = flatten_tuple-injective nested nested refl
