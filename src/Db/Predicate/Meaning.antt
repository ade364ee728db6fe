-- ===== src/Db/Predicate/Meaning.antt =====
-- The predicates of crates/mangle-db/src/predicate.rs against the conditions they come from, as
-- crates/mangle-interpreter/src/lib.rs evaluates them.
use mangle_rs.Prelude.{
  ℕ, Ordering, ◌≡◌, refl, sym, ap, ◌∙◌, subst, not, Option, none, some, is_lt, is_gt, get_elem?,
  ==-sym, nat_eq, list_eq, pair_eq, >>=-eq-ok, ok-injective, some-injective, ok, ℤ, int_eq,
}
use mangle_rs.Prelude.Map.{Map}
use mangle_rs.Common.Value.{Value}
use mangle_rs.Common.Value
use mangle_rs.Common.Value.Equality.{value_eq}
use mangle_rs.Common.Value.Order.{flip, cmp-flip}
use mangle_rs.Db.Predicate.{
  ColumnPredicate, test, eval_column, eval, cmp_to_pred_op, flip_cmp, constant_to_value,
  operand_to_value, column_predicate, compare_column, try_var_const, or_else,
  condition_to_predicate,
}
use mangle_rs.Interpreter.Cells.{Tuple}
use mangle_rs.Interpreter.Context.{Context, Env, Store}
use mangle_rs.Interpreter.Eval.{eval_constant, eval_operand, compares, eval_cond}
use mangle_rs.Ir.{Ir}
use mangle_rs.Ir.Physical.{Constant, Operand, CmpOp, Condition}

-- Each variable that has a column holds the row's value in that column.
pub record IsBound (cols : Map ℕ ℕ) (env : Env) (row : Tuple) : Type 0 where
  pub column_of :
      (v col : ℕ)
      → cols v ≡ some col
      → (x : Value) × (get_elem? row col ≡ some x) × (env v ≡ some x)

constant_to_value-eq : (ir : Ir) (k : Constant) → constant_to_value ir k ≡ eval_constant ir k
unfolding constant_to_value eval_constant
constant_to_value-eq ir (Constant.number n) = refl
constant_to_value-eq ir (Constant.float f) = refl
constant_to_value-eq ir (Constant.string sid) = refl
constant_to_value-eq ir (Constant.name nid) = refl
constant_to_value-eq ir (Constant.time t) = refl
constant_to_value-eq ir (Constant.duration d) = refl

test-compares :
    (as_f64 : ℤ → ℕ) (op : CmpOp) (x w : Value)
    → test as_f64 (cmp_to_pred_op op) x w ≡ compares as_f64 op x w
unfolding test cmp_to_pred_op compares
test-compares as_f64 CmpOp.eq x w = refl
test-compares as_f64 CmpOp.neq x w = refl
test-compares as_f64 CmpOp.lt x w = refl
test-compares as_f64 CmpOp.le x w = refl
test-compares as_f64 CmpOp.gt x w = refl
test-compares as_f64 CmpOp.ge x w = refl

is_gt-flip : (o : Ordering) → is_gt (flip o) ≡ is_lt o
is_gt-flip Ordering.lt = refl
is_gt-flip Ordering.eq = refl
is_gt-flip Ordering.gt = refl

is_lt-flip : (o : Ordering) → is_lt (flip o) ≡ is_gt o
is_lt-flip Ordering.lt = refl
is_lt-flip Ordering.eq = refl
is_lt-flip Ordering.gt = refl

compares-flip_cmp :
    (as_f64 : ℤ → ℕ) (op : CmpOp) (x w : Value)
    → compares as_f64 (flip_cmp op) w x ≡ compares as_f64 op x w
unfolding compares flip_cmp
compares-flip_cmp as_f64 CmpOp.eq x w = ==-sym w x
compares-flip_cmp as_f64 CmpOp.neq x w = ap not (==-sym w x)
compares-flip_cmp as_f64 CmpOp.lt x w = rw (cmp-flip as_f64 x w) (is_gt-flip (Value.cmp as_f64 x w))
compares-flip_cmp as_f64 CmpOp.le x w =
    rw (cmp-flip as_f64 x w) (ap not (is_lt-flip (Value.cmp as_f64 x w)))
compares-flip_cmp as_f64 CmpOp.gt x w = rw (cmp-flip as_f64 x w) (is_lt-flip (Value.cmp as_f64 x w))
compares-flip_cmp as_f64 CmpOp.ge x w =
    rw (cmp-flip as_f64 x w) (ap not (is_gt-flip (Value.cmp as_f64 x w)))

operand_to_value-some :
    (ir : Ir) (o : Operand) (env : Env) {v : Value}
    → operand_to_value ir o ≡ ok (some v)
    → eval_operand ir o env ≡ ok v
unfolding operand_to_value eval_operand
operand_to_value-some ir (Operand.var x) env h = cc
operand_to_value-some ir (Operand.const k) env h =
    let (w, p, q) = >>=-eq-ok (constant_to_value ir k) _ h in
    sym (constant_to_value-eq ir k) ∙ p ∙ ap ok (some-injective (ok-injective q))

-- What an extracted predicate says of a row, in terms of the operands of the comparison.
pub record Compared (c : Context) (env : Env) (row : Tuple) (op : CmpOp) (l r : Operand)
    (p : ColumnPredicate) : Type 0 where
  pub left_value : Value
  pub right_value : Value
  pub left_is : eval_operand c.ir l env ≡ ok left_value
  pub right_is : eval_operand c.ir r env ≡ ok right_value
  pub answer : eval c.as_f64 p row ≡ compares c.as_f64 op left_value right_value

module _ (c : Context) (cols : Map ℕ ℕ) (env : Env) (row : Tuple)
    (bound : IsBound cols env row) where
  Compared-column :
      (op : CmpOp) (v col : ℕ) (r : Operand) (o : Option Value) {p : ColumnPredicate}
      → cols v ≡ some col
      → operand_to_value c.ir r ≡ ok o
      → column_predicate col op o ≡ some p
      → Compared c env row op (Operand.var v) r p
  unfolding eval_operand eval eval_column
  Compared-column op v col r none at given e = cc
  Compared-column op v col r (some w) at given e =
      let (x, here, there) = bound.column_of v col at in
      subst (λ q. Compared c env row op (Operand.var v) r q) (some-injective e)
        (record {
          left_value = x;
          right_value = w;
          left_is = rw there;
          right_is = operand_to_value-some c.ir r env given;
          answer = rw here (test-compares c.as_f64 op x w);
        })

  try_var_const-Compared :
      (op : CmpOp) (l r : Operand) {p : ColumnPredicate}
      → try_var_const c.ir op l r cols ≡ ok (some p)
      → Compared c env row op l r p
  unfolding try_var_const compare_column
  try_var_const-Compared op (Operand.const k) r h = cc
  try_var_const-Compared op (Operand.var v) r h = go (cols v) refl h
    where
      go :
          (o : Option ℕ) {p : ColumnPredicate}
          → cols v ≡ o
          → compare_column c.ir op o r ≡ ok (some p)
          → Compared c env row op (Operand.var v) r p
      go none at e = cc
      go (some col) at e =
          let (w, p, q) = >>=-eq-ok (operand_to_value c.ir r) _ e in
          Compared-column op v col r w at p (ok-injective q)

  swapped :
      (op : CmpOp) (l r : Operand) {p : ColumnPredicate}
      → Compared c env row (flip_cmp op) r l p
      → Compared c env row op l r p
  swapped op l r k = record {
    left_value = k.right_value;
    right_value = k.left_value;
    left_is = k.right_is;
    right_is = k.left_is;
    answer = k.answer ∙ compares-flip_cmp c.as_f64 op k.right_value k.left_value;
  }

  either :
      (op : CmpOp) (l r : Operand) (o : Option ColumnPredicate) {p : ColumnPredicate}
      → try_var_const c.ir op l r cols ≡ ok o
      → or_else o (try_var_const c.ir (flip_cmp op) r l cols) ≡ ok (some p)
      → Compared c env row op l r p
  either op l r none first h = swapped op l r (try_var_const-Compared (flip_cmp op) r l h)
  either op l r (some q) first h =
      subst (λ k. Compared c env row op l r k) (some-injective (ok-injective h))
        (try_var_const-Compared op l r first)

  -- A predicate that is extracted from a condition answers on a row what the interpreter answers for
  -- the condition, where the scan's variables are bound to the row's columns.
  pub condition_to_predicate-eval :
      {S : Type 0} ⦃i : Store S⦄ (s : S) (cond : Condition) (p : ColumnPredicate)
      → condition_to_predicate c.ir cond cols ≡ ok (some p)
      → eval_cond c s cond env ≡ ok (eval c.as_f64 p row)
  unfolding condition_to_predicate eval_cond
  condition_to_predicate-eval s (Condition.cmp op l r) p h =
      let (o, first, rest) = >>=-eq-ok (try_var_const c.ir op l r cols) _ h in
      let k = either op l r o first rest in rw (k.left_is, k.right_is, k.answer)
  condition_to_predicate-eval s (Condition.negation relation args) p h = cc
  condition_to_predicate-eval s (Condition.call function args) p h = cc
  condition_to_predicate-eval s (Condition.not inner) p h = cc
