-- ===== src/Interpreter/Aggregates.antt =====
-- crates/mangle-interpreter/src/lib.rs: `eval_aggregate`, and `value_as_float`. The environment that
-- it writes to is handed back with the value.
use mangle_rs.Prelude.{
  ℕ, Bool, true, false, ◌&&◌, Option, none, some, List, [], ◌∷◌, ◌++◌, if◌then◌else◌, is_lt, is_gt,
  length, get_elem?, ◌==◌, nat_eq, list_eq, pair_eq, Str, bytes, Error, Outcome, ◌>>=◌, ok_or, ok,
  err, panic, ℤ, ◌+ℤ◌, int_eq, wrap_i64,
}
use mangle_rs.Prelude.{pos}
use mangle_rs.Prelude.Map
use mangle_rs.Common.Value.{CompoundKind, Value, number, float, compound, of_list}
use mangle_rs.Common.Value
use mangle_rs.Interpreter.Cells.{Tuple}
use mangle_rs.Interpreter.Context.{Context, Env}
use mangle_rs.Interpreter.Eval.{eval_operand}
use mangle_rs.Interpreter.Text.{contains_value}
use mangle_rs.Ir.{Ir, resolve_name}
use mangle_rs.Ir.Physical.{Operand, Aggregate}

-- `for (i, var) in vars.iter().enumerate() { env.vars.insert(*var, tuple[i].clone()) }`
unfoldable pub bind_vars : Env → List ℕ → Tuple → Outcome Env
bind_vars env [] tuple = ok env
bind_vars env (var ∷ vars) [] = panic
bind_vars env (var ∷ vars) (x ∷ tuple) = bind_vars (Map.insert env var x) vars tuple

-- The loop over a group: the tuple's variables bound, the argument evaluated, and the sum, extremum
-- or list so far taken one step on.
unfoldable pub fold_group :
    {A : Type 0}
    → Ir
    → (A → Value → Outcome A)
    → Operand
    → List ℕ
    → List Tuple
    → Env
    → A
    → Outcome (A × Env)
unfolding bind_vars
fold_group ir step arg vars [] env acc = ok (acc, env)
fold_group ir step arg vars (tuple ∷ rest) env acc = do
  env' ← bind_vars env vars tuple
  val ← eval_operand ir arg env'
  acc' ← step acc val
  fold_group ir step arg vars rest env' acc'

unfoldable pub value_as_float : (ℤ → ℕ) → Value → Outcome ℕ
value_as_float as_f64 (float f) = ok f
value_as_float as_f64 (number n) = ok (as_f64 n)
value_as_float as_f64 _ = err Error.bad_argument

-- `int_sum += n`, in a release build
unfoldable pub add_number : ℤ → Value → Outcome ℤ
add_number sum (number n) = ok (wrap_i64 (sum +ℤ n))
add_number sum _ = err Error.bad_argument

unfoldable pub add_float : Context → ℕ → Value → Outcome ℕ
unfolding value_as_float
add_float c sum val = value_as_float c.as_f64 val >>= λ f. ok (c.f64_add sum f)

unfoldable pub keep_max : (ℤ → ℕ) → Option Value → Value → Outcome (Option Value)
keep_max as_f64 none val = ok (some val)
keep_max as_f64 (some m) val = ok (some (if is_gt (Value.cmp as_f64 val m) then val else m))

unfoldable pub keep_min : (ℤ → ℕ) → Option Value → Value → Outcome (Option Value)
keep_min as_f64 none val = ok (some val)
keep_min as_f64 (some m) val = ok (some (if is_lt (Value.cmp as_f64 val m) then val else m))

-- `match max_val { None => f, Some(m) => f.max(m) }`
abbrev pub extremum : (ℕ → ℕ → ℕ) → Option ℕ → ℕ → ℕ
extremum pick none f = f
extremum pick (some m) f = pick f m

unfoldable pub keep_float : Context → (ℕ → ℕ → ℕ) → Option ℕ → Value → Outcome (Option ℕ)
unfolding value_as_float
keep_float c pick best val = value_as_float c.as_f64 val >>= λ f. ok (some (extremum pick best f))

unfoldable pub collect : Bool → List Value → Value → Outcome (List Value)
unfolding contains_value
collect distinct out val =
    if distinct && contains_value out val then ok out else ok (out ++ val ∷ [])

module _ (c : Context) (group : List Tuple) (vars : List ℕ) (env : Env) where
  unfoldable pub sum_of : Operand → Outcome (Value × Env)
  unfolding fold_group add_number
  sum_of arg = fold_group c.ir add_number arg vars group env (pos 0) >>= λ r. ok (number r.0, r.1)

  unfoldable pub float_sum_of : Operand → Outcome (Value × Env)
  unfolding fold_group add_float
  float_sum_of arg =
      fold_group c.ir (add_float c) arg vars group env c.f64_zero >>= λ r. ok (float r.0, r.1)

  unfoldable pub max_of : Operand → Outcome (Value × Env)
  unfolding fold_group keep_max
  max_of arg = do
    (best, env') ← fold_group c.ir (keep_max c.as_f64) arg vars group env none
    val ← ok_or best Error.empty_group
    ok (val, env')

  unfoldable pub min_of : Operand → Outcome (Value × Env)
  unfolding fold_group keep_min
  min_of arg = do
    (best, env') ← fold_group c.ir (keep_min c.as_f64) arg vars group env none
    val ← ok_or best Error.empty_group
    ok (val, env')

  unfoldable pub float_best_of : (ℕ → ℕ → ℕ) → Operand → Outcome (Value × Env)
  unfolding fold_group keep_float
  float_best_of pick arg = do
    (best, env') ← fold_group c.ir (keep_float c pick) arg vars group env none
    f ← ok_or best Error.empty_group
    ok (float f, env')

  unfoldable pub collect_of : Bool → Operand → Outcome (Value × Env)
  unfolding fold_group collect
  collect_of distinct arg = fold_group c.ir (collect distinct) arg vars group env [] >>= λ r.
      ok (compound CompoundKind.list (of_list r.0), r.1)

  -- the first argument, which each function but `fn:count` requires
  unfoldable pub first_arg :
      List Operand → (Operand → Outcome (Value × Env)) → Outcome (Value × Env)
  first_arg args run = ok_or (get_elem? args 0) Error.bad_argument >>= run

  unfoldable pub run_aggregate : Str → List Operand → Outcome (Value × Env)
  unfolding first_arg sum_of float_sum_of max_of min_of float_best_of collect_of
  run_aggregate fn args =
      if fn == bytes "fn:count"
      then ok (number (wrap_i64 (pos (length group))), env)
      else if fn == bytes "fn:sum"
      then first_arg args sum_of
      else if fn == bytes "fn:float:sum"
      then first_arg args float_sum_of
      else if fn == bytes "fn:max"
      then first_arg args max_of
      else if fn == bytes "fn:min"
      then first_arg args min_of
      else if fn == bytes "fn:float:max"
      then first_arg args (float_best_of c.f64_max)
      else if fn == bytes "fn:float:min"
      then first_arg args (float_best_of c.f64_min)
      else if fn == bytes "fn:collect"
      then first_arg args (collect_of false)
      else if fn == bytes "fn:collect_distinct"
      then first_arg args (collect_of true)
      else err Error.unknown_aggregate

  unfoldable pub eval_aggregate : Aggregate → Outcome (Value × Env)
  unfolding run_aggregate
  eval_aggregate agg = resolve_name c.ir agg.func >>= λ fn_name. run_aggregate fn_name agg.args
