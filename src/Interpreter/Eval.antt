-- ===== src/Interpreter/Eval.antt =====
-- crates/mangle-interpreter/src/lib.rs: `eval_operand`, `eval_expr`, `eval_builtin_predicate` and
-- `eval_cond`.
use mangle_rs.Prelude.{
  ℕ, Bool, true, false, ◌&&◌, not, Option, List, [], ◌∷◌, ltb, nat_beq, if◌then◌else◌, is_lt, is_gt,
  length, get_elem?, ◌==◌, nat_eq, list_eq, pair_eq, Str, bytes, Error, Outcome, ◌>>=◌, ok_or,
  or_panic, ok, err, panic, ℤ, int_eq,
}
use mangle_rs.Common.Value.{
  CompoundKind, Value, number, float, string, name, time, duration, compound, to_list,
}
use mangle_rs.Common.Value
use mangle_rs.Common.Value.Equality.{value_eq}
use mangle_rs.Interpreter.Cells.{Tuple}
use mangle_rs.Interpreter.Context.{Context, Env, Store}
use mangle_rs.Interpreter.Text.{starts_with, ends_with, contains_str, contains_value, any_field}
use mangle_rs.Ir.{Ir, resolve_name, resolve_string}
use mangle_rs.Ir.Physical.{Constant, Operand, Expr, CmpOp, Condition}

unfoldable pub eval_constant : Ir → Constant → Outcome Value
eval_constant ir (Constant.number n) = ok (number n)
eval_constant ir (Constant.float f) = ok (float f)
eval_constant ir (Constant.string sid) = resolve_string ir sid >>= λ s. ok (string s)
eval_constant ir (Constant.name nid) = resolve_name ir nid >>= λ s. ok (name s)
eval_constant ir (Constant.time t) = ok (time t)
eval_constant ir (Constant.duration d) = ok (duration d)

unfoldable pub eval_operand : Ir → Operand → Env → Outcome Value
unfolding eval_constant
eval_operand ir (Operand.var v) env = ok_or (env v) Error.unbound_variable
eval_operand ir (Operand.const c) env = eval_constant ir c

unfoldable pub eval_operands : Ir → List Operand → Env → Outcome Tuple
unfolding eval_operand
eval_operands ir [] env = ok []
eval_operands ir (arg ∷ args) env = do
  val ← eval_operand ir arg env
  vals ← eval_operands ir args env
  ok (val ∷ vals)

unfoldable pub eval_expr : Context → Expr → Env → Outcome Value
unfolding eval_operands
eval_expr c (Expr.value op) env = eval_operand c.ir op env
eval_expr c (Expr.call function args) env = do
  fn_name ← resolve_name c.ir function
  vals ← eval_operands c.ir args env
  c.eval_function fn_name vals

-- what the comparison operators of `Value` answer
unfoldable pub compares : (ℤ → ℕ) → CmpOp → Value → Value → Bool
compares as_f64 CmpOp.eq l r = l == r
compares as_f64 CmpOp.neq l r = not (l == r)
compares as_f64 CmpOp.lt l r = is_lt (Value.cmp as_f64 l r)
compares as_f64 CmpOp.le l r = not (is_gt (Value.cmp as_f64 l r))
compares as_f64 CmpOp.gt l r = is_gt (Value.cmp as_f64 l r)
compares as_f64 CmpOp.ge l r = not (is_lt (Value.cmp as_f64 l r))

-- two string arguments
unfoldable pub on_strings : (Str → Str → Bool) → Value → Value → Outcome Bool
on_strings test (string s) (string p) = ok (test s p)
on_strings test _ _ = err Error.bad_argument

unfoldable pub match_prefix : Value → Value → Outcome Bool
unfolding starts_with
match_prefix (name s) (name p) = ok (starts_with s p && ltb (length p) (length s))
match_prefix _ _ = err Error.bad_argument

unfoldable pub is_member : Option Value → Value → Outcome Bool
unfolding contains_value
is_member elem (compound CompoundKind.list elems) =
    or_panic elem >>= λ v. ok (contains_value (to_list elems) v)
is_member elem _ = ok false

unfoldable pub match_field : Option Value → Value → Value → Outcome Bool
unfolding any_field
match_field wanted (compound CompoundKind.struct pairs) (name field) =
    any_field (to_list pairs) (name field) wanted
match_field wanted _ _ = ok false

-- `match (&vals[0], &vals[1])`
unfoldable pub first_two : (Value → Value → Outcome Bool) → Tuple → Outcome Bool
first_two test vals = do a ← or_panic (get_elem? vals 0); b ← or_panic (get_elem? vals 1); test a b

unfoldable pub list_member : Tuple → Outcome Bool
unfolding is_member
list_member vals = or_panic (get_elem? vals 1) >>= λ l. is_member (get_elem? vals 0) l

unfoldable pub eval_builtin_predicate : Str → Tuple → Outcome Bool
unfolding first_two on_strings match_prefix list_member match_field
eval_builtin_predicate fn vals =
    if fn == bytes ":string:starts_with"
    then first_two (on_strings starts_with) vals
    else if fn == bytes ":string:ends_with"
    then first_two (on_strings ends_with) vals
    else if fn == bytes ":string:contains"
    then first_two (on_strings contains_str) vals
    else if fn == bytes ":match_prefix"
    then first_two match_prefix vals
    else if fn == bytes ":list:member"
    then list_member vals
    else if fn == bytes ":match_field"
    then first_two (match_field (get_elem? vals 2)) vals
    else err Error.unknown_predicate

-- the loop over the arguments of a negated atom, which stops at the first difference
unfoldable pub matches_args : Ir → Tuple → List Operand → Env → Outcome Bool
unfolding eval_operand
matches_args ir tuple [] env = ok true
matches_args ir [] (arg ∷ args) env = eval_operand ir arg env >>= λ val. panic
matches_args ir (x ∷ tuple) (arg ∷ args) env = eval_operand ir arg env >>= λ val. elim (x == val) [
  | true ↦ matches_args ir tuple args env
  | false ↦ ok false
]

-- the loop over the facts of a negated atom
unfoldable pub none_matches : Ir → List Tuple → List Operand → Env → Outcome Bool
unfolding matches_args
none_matches ir [] args env = ok true
none_matches ir (tuple ∷ rest) args env = elim (nat_beq (length tuple) (length args)) [
  | true ↦ matches_args ir tuple args env >>= λ mat. elim mat [
    | true ↦ ok false
    | false ↦ none_matches ir rest args env
  ]
  | false ↦ none_matches ir rest args env
]

module _ (c : Context) {S : Type 0} ⦃i : Store S⦄ where
  unfoldable pub eval_cond : S → Condition → Env → Outcome Bool
  unfolding none_matches compares eval_builtin_predicate eval_operands
  eval_cond s (Condition.cmp op left right) env = do
    l ← eval_operand c.ir left env
    r ← eval_operand c.ir right env
    ok (compares c.as_f64 op l r)
  eval_cond s (Condition.negation relation args) env = do
    rel_name ← resolve_name c.ir relation
    tuples ← i.scan s rel_name
    none_matches c.ir tuples args env
  eval_cond s (Condition.not inner) env = eval_cond s inner env >>= λ b. ok (not b)
  eval_cond s (Condition.call function args) env = do
    fn_name ← resolve_name c.ir function
    vals ← eval_operands c.ir args env
    eval_builtin_predicate fn_name vals
