-- ===== src/Tests/Plans.antt =====
-- Plans, conditions and pushed-down predicates at concrete inputs.
use mangle_rs.Prelude.{
  ℕ, ◌≡◌, refl, ap, true, not, none, some, [], ◌∷◌, arith, get_elem?, nat_eq, list_eq, pair_eq,
  bytes, ok, int_eq,
}
use mangle_rs.Prelude.{pos}
use mangle_rs.Prelude.Map
use mangle_rs.Prelude.Map.{Map}
use mangle_rs.Common.Value.{Value, number}
use mangle_rs.Common.Value
use mangle_rs.Common.Value.Equality.{value_eq}
use mangle_rs.Db.Predicate.{
  ColumnPredicate, PredicateOp, cmp_to_pred_op, eval, eval_all, collect_filters,
  condition_to_predicate, var_to_col, extract_predicates, scan_with_predicates,
}
use mangle_rs.Db.Predicate.Meaning.{IsBound, condition_to_predicate-eval}
use mangle_rs.Db.Predicate.Safe.{bind_vars-IsBound, visit-dropped}
use mangle_rs.Interpreter.Functions
use mangle_rs.Tests.Functions.{floats}
use mangle_rs.Interpreter.Aggregates.{bind_vars}
use mangle_rs.Interpreter.Cells.{Tuple}
use mangle_rs.Interpreter.Context.{Context, Env, mem_store, Machine}
use mangle_rs.Interpreter.Eval.{eval_operands, eval_cond}
use mangle_rs.Interpreter.Exec.{visit, exec_op}
use mangle_rs.Interpreter.Grouping.{Groups, build_table}
use mangle_rs.Interpreter.Exec.Joins.{build_table-joined, joined, bucket}
use mangle_rs.Interpreter.Exec.Keeps.{Recorded, exec_op-Recorded}
use mangle_rs.Interpreter.Exec.Stored.{Collects, exec_op-Represents}
use mangle_rs.Interpreter.MemStore.Facts.{Facts, Represents, Represents-new, no_facts}
use mangle_rs.Interpreter.MemStore.Insert.{known}
use mangle_rs.Interpreter.MemStore.State.{MemStore}
use mangle_rs.Interpreter.MemStore.State
use mangle_rs.Interpreter.MemStore.Writes
use mangle_rs.Interpreter.MemStore.Reads
use mangle_rs.Interpreter.Negation.{eval_cond-negation}
use mangle_rs.Ir.{Ir, resolve_name}
use mangle_rs.Ir.Interner
use mangle_rs.Ir.Physical.{Constant, Operand, CmpOp, Condition, DataSource, Op, Ops}

-- `edge` is name 1, `path` is name 2
abbrev ir : Ir
ir = record {
  name_store = record { keys = Map.empty; vec = bytes "edge" ∷ bytes "path" ∷ [] };
  string_store = Interner.new;
}

abbrev context : Context
context = record {
  ir = ir;
  as_f64 = λ n. 0;
  f64_zero = 0;
  f64_add = λ a b. a;
  f64_max = λ a b. a;
  f64_min = λ a b. a;
  eval_function = Functions.eval_function floats;
  yielded = λ groups. groups;
}

abbrev one : Operand
one = Operand.const (Constant.number (pos 1))

abbrev one_one : Tuple
one_one = number (pos 1) ∷ number (pos 1) ∷ []

abbrev derive : Op
derive = Op.insert 2 (one ∷ one ∷ [])

abbrev before : Machine MemStore
before = record {
  store = State.new;
  provenance = some (record { entries = []; active_premises = [] });
  env = Map.empty;
}

abbrev after : Machine MemStore
after = record {
  store = (Writes.insert State.new (bytes "path") one_one).0;
  provenance = some (record {
    entries = (record { derived = (bytes "path", one_one); premises = [] }) ∷ [];
    active_premises = [];
  });
  env = Map.empty;
}

derived : exec_op context derive before ≡ ok (after, 1)
unfolding exec_op resolve_name Interner.get eval_operands Writes.insert
derived = refl

exec_op-Recorded_example : Recorded before.provenance 1 after.provenance
exec_op-Recorded_example = exec_op-Recorded context derive before after 1 derived

exec_op-Represents_example : (g : Facts) × Represents after.store g × Collects no_facts g
exec_op-Represents_example =
    exec_op-Represents context derive before after 1 no_facts Represents-new derived

abbrev table : Groups
table = (number (pos 1) ∷ [], one_one ∷ []) ∷ []

build_table-joined_example :
    bucket table (number (pos 1) ∷ []) ≡ joined 2 (0 ∷ []) (number (pos 1) ∷ []) (one_one ∷ [])
unfolding build_table
build_table-joined_example =
    build_table-joined 2 (0 ∷ []) (one_one ∷ []) table (number (pos 1) ∷ []) refl

eval_cond-negation_example :
    eval_cond context State.new (Condition.negation 1 (one ∷ [])) Map.empty
    ≡ ok (not (known [] (number (pos 1) ∷ [])))
unfolding eval_operands resolve_name Interner.get Reads.scan
eval_cond-negation_example =
    eval_cond-negation context State.new 1 (one ∷ []) Map.empty (bytes "edge") []
      (number (pos 1) ∷ []) refl refl refl

abbrev row : Tuple
row = number (pos 3) ∷ []

-- the first column above 5
abbrev above : Condition
above = Condition.cmp CmpOp.gt (Operand.var 10) (Operand.const (Constant.number (pos 5)))

abbrev above_predicate : ColumnPredicate
above_predicate = record { col_idx = 0; op = PredicateOp.gt; value = number (pos 5) }

abbrev bound_env : Env
bound_env = Map.insert Map.empty 10 (number (pos 3))

row-IsBound : IsBound (var_to_col 0 (10 ∷ []) Map.empty) bound_env row
unfolding bind_vars
row-IsBound =
    bind_vars-IsBound (10 ∷ []) 0 Map.empty Map.empty row row
      (record { column_of = λ v col at. cc }) (λ j. ap (λ k. get_elem? row k) (omega arith)) refl

condition_to_predicate-eval_example :
    eval_cond context State.new above bound_env ≡ ok (eval context.as_f64 above_predicate row)
unfolding condition_to_predicate var_to_col cmp_to_pred_op
condition_to_predicate-eval_example =
    condition_to_predicate-eval context (var_to_col 0 (10 ∷ []) Map.empty) bound_env row row-IsBound
      State.new above above_predicate refl

abbrev body : Op
body = Op.filter above (Op.insert 2 (Operand.var 10 ∷ []))

visit-dropped_example : (◌≡◌ {A = ℕ} 0 0) × (State.new ≡ State.new)
unfolding visit collect_filters condition_to_predicate var_to_col cmp_to_pred_op eval_all exec_op
    eval_cond bind_vars Value.cmp
visit-dropped_example =
    visit-dropped context body (bytes "edge") (10 ∷ []) (above_predicate ∷ []) row
      (record before { provenance = none }) (record before { provenance = none; env = bound_env }) 0
      refl refl refl

-- two rules over one relation, of which only the second uses the row
abbrev below : Op
below =
    Op.filter (Condition.cmp CmpOp.lt (Operand.var 10) (Operand.const (Constant.number (pos 4))))
      (Op.insert 2 (Operand.var 10 ∷ []))

abbrev rules : Ops
rules =
    Ops.cons (Op.iterate (DataSource.scan 1 (10 ∷ [])) body)
      (Ops.cons (Op.iterate (DataSource.scan 1 (10 ∷ [])) below) Ops.nil)

abbrev below_predicate : ColumnPredicate
below_predicate = record { col_idx = 0; op = PredicateOp.lt; value = number (pos 4) }

-- the predicates of both rules are pushed to the source
both_pushed :
    extract_predicates ir (λ relation. true) rules []
    ≡ ok ((bytes "edge", above_predicate ∷ below_predicate ∷ []) ∷ [])
unfolding extract_predicates resolve_name Interner.get cmp_to_pred_op
both_pushed = refl

-- and the source drops a row that the second rule derives a fact from
row_lost :
    scan_with_predicates context.as_f64
      (λ relation. ok (row ∷ []))
      (bytes "edge")
      (above_predicate ∷ below_predicate ∷ [])
    ≡ ok []
unfolding scan_with_predicates Value.cmp
row_lost = refl
