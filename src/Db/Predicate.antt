-- ===== src/Db/Predicate.antt =====
-- crates/mangle-db/src/predicate.rs, and `ColumnPredicate` and `EdbSource::scan_with_predicates` of
-- crates/mangle-db/src/source.rs: filters of a plan as conditions on the columns of a source.
pub mod Meaning
pub mod Safe
use mangle_rs.Prelude.{
  ℕ, ◌+◌, Bool, true, false, ◌&&◌, not, Option, none, some, List, [], ◌∷◌, ◌++◌, map, if◌then◌else◌,
  get_or, is_lt, is_gt, get_elem?, ◌==◌, nat_eq, list_eq, pair_eq, Str, Outcome, ◌>>=◌, ok, ℤ,
  int_eq,
}
use mangle_rs.Prelude.Map
use mangle_rs.Prelude.Map.{Map}
use mangle_rs.Prelude.Assoc
use mangle_rs.Prelude.Assoc.{Assoc}
use mangle_rs.Common.Value.{Value, number, float, string, name, time, duration}
use mangle_rs.Common.Value
use mangle_rs.Common.Value.Equality.{value_eq}
use mangle_rs.Interpreter.Cells.{Tuple}
use mangle_rs.Ir.{Ir, resolve_name, resolve_string}
use mangle_rs.Ir.Physical.{Constant, Operand, CmpOp, Condition, DataSource, Op, Ops}

pub data PredicateOp : Type 0 where
  eq neq lt le gt ge : PredicateOp

pub record ColumnPredicate : Type 0 where
  pub col_idx : ℕ
  pub op : PredicateOp
  pub value : Value

-- the comparison of a column's value with the predicate's
unfoldable pub test : (ℤ → ℕ) → PredicateOp → Value → Value → Bool
test as_f64 PredicateOp.eq v w = v == w
test as_f64 PredicateOp.neq v w = not (v == w)
test as_f64 PredicateOp.lt v w = is_lt (Value.cmp as_f64 v w)
test as_f64 PredicateOp.le v w = not (is_gt (Value.cmp as_f64 v w))
test as_f64 PredicateOp.gt v w = is_gt (Value.cmp as_f64 v w)
test as_f64 PredicateOp.ge v w = not (is_lt (Value.cmp as_f64 v w))

-- a missing column satisfies nothing
unfoldable pub eval_column : (ℤ → ℕ) → ColumnPredicate → Option Value → Bool
unfolding test
eval_column as_f64 p none = false
eval_column as_f64 p (some v) = test as_f64 p.op v p.value

unfoldable pub eval : (ℤ → ℕ) → ColumnPredicate → Tuple → Bool
unfolding eval_column
eval as_f64 p row = eval_column as_f64 p (get_elem? row p.col_idx)

unfoldable pub eval_all : (ℤ → ℕ) → List ColumnPredicate → Tuple → Bool
unfolding eval
eval_all as_f64 [] row = true
eval_all as_f64 (p ∷ ps) row = eval as_f64 p row && eval_all as_f64 ps row

-- `rows.into_iter().filter(..)`; without predicates every row passes
unfoldable pub filter_rows : (ℤ → ℕ) → List ColumnPredicate → List Tuple → List Tuple
unfolding eval_all
filter_rows as_f64 ps [] = []
filter_rows as_f64 ps (row ∷ rows) =
    let rest = filter_rows as_f64 ps rows in if eval_all as_f64 ps row then row ∷ rest else rest

-- The source's own `scan` is the parameter.
unfoldable pub scan_with_predicates :
    (ℤ → ℕ) → (Str → Outcome (List Tuple)) → Str → List ColumnPredicate → Outcome (List Tuple)
unfolding filter_rows
scan_with_predicates as_f64 scan relation ps =
    scan relation >>= λ rows. ok (filter_rows as_f64 ps rows)

unfoldable pub cmp_to_pred_op : CmpOp → PredicateOp
cmp_to_pred_op CmpOp.eq = PredicateOp.eq
cmp_to_pred_op CmpOp.neq = PredicateOp.neq
cmp_to_pred_op CmpOp.lt = PredicateOp.lt
cmp_to_pred_op CmpOp.le = PredicateOp.le
cmp_to_pred_op CmpOp.gt = PredicateOp.gt
cmp_to_pred_op CmpOp.ge = PredicateOp.ge

unfoldable pub flip_cmp : CmpOp → CmpOp
flip_cmp CmpOp.eq = CmpOp.eq
flip_cmp CmpOp.neq = CmpOp.neq
flip_cmp CmpOp.lt = CmpOp.gt
flip_cmp CmpOp.le = CmpOp.ge
flip_cmp CmpOp.gt = CmpOp.lt
flip_cmp CmpOp.ge = CmpOp.le

unfoldable pub constant_to_value : Ir → Constant → Outcome Value
constant_to_value ir (Constant.number n) = ok (number n)
constant_to_value ir (Constant.float f) = ok (float f)
constant_to_value ir (Constant.string sid) = resolve_string ir sid >>= λ s. ok (string s)
constant_to_value ir (Constant.name nid) = resolve_name ir nid >>= λ s. ok (name s)
constant_to_value ir (Constant.time t) = ok (time t)
constant_to_value ir (Constant.duration d) = ok (duration d)

unfoldable pub operand_to_value : Ir → Operand → Outcome (Option Value)
unfolding constant_to_value
operand_to_value ir (Operand.const c) = constant_to_value ir c >>= λ v. ok (some v)
operand_to_value ir (Operand.var v) = ok none

abbrev pub column_predicate : ℕ → CmpOp → Option Value → Option ColumnPredicate
column_predicate col op none = none
column_predicate col op (some v) =
    some (record { col_idx = col; op = cmp_to_pred_op op; value = v })

-- `cols.get(&var_id)?`, then `operand_to_value(ir, right)?`
unfoldable pub compare_column : Ir → CmpOp → Option ℕ → Operand → Outcome (Option ColumnPredicate)
unfolding operand_to_value
compare_column ir op none right = ok none
compare_column ir op (some col) right =
    operand_to_value ir right >>= λ o. ok (column_predicate col op o)

unfoldable pub try_var_const :
    Ir → CmpOp → Operand → Operand → Map ℕ ℕ → Outcome (Option ColumnPredicate)
unfolding compare_column
try_var_const ir op (Operand.var v) right cols = compare_column ir op (cols v) right
try_var_const ir op (Operand.const c) right cols = ok none

-- `if let Some(pred) = .. { return Some(pred); }`, then the second attempt
abbrev pub or_else :
    Option ColumnPredicate → Outcome (Option ColumnPredicate) → Outcome (Option ColumnPredicate)
or_else (some p) other = ok (some p)
or_else none other = other

unfoldable pub condition_to_predicate : Ir → Condition → Map ℕ ℕ → Outcome (Option ColumnPredicate)
unfolding try_var_const flip_cmp
condition_to_predicate ir (Condition.cmp op left right) cols =
    try_var_const ir op left right cols >>= λ o.
    or_else o (try_var_const ir (flip_cmp op) right left cols)
condition_to_predicate ir (Condition.negation relation args) cols = ok none
condition_to_predicate ir (Condition.call function args) cols = ok none
condition_to_predicate ir (Condition.not inner) cols = ok none

-- the predicates of the filters that stand directly under an `Iterate`
unfoldable pub collect_filters : Ir → Op → Map ℕ ℕ → Outcome (List ColumnPredicate)
unfolding condition_to_predicate
collect_filters ir (Op.filter cond body) cols = do
  pred ← condition_to_predicate ir cond cols
  rest ← collect_filters ir body cols
  ok (elim pred [ none ↦ rest | some p ↦ p ∷ rest ])
collect_filters ir _ cols = ok []

-- `vars.iter().enumerate().map(|(i, v)| (*v, i)).collect()`: a later column takes a variable over
unfoldable pub var_to_col : ℕ → List ℕ → Map ℕ ℕ → Map ℕ ℕ
var_to_col i [] cols = cols
var_to_col i (v ∷ vs) cols = var_to_col (i + 1) vs (Map.insert cols v i)

abbrev pub Pushed : Type 0
Pushed = Assoc Str (List ColumnPredicate)

-- `if !predicates.is_empty() { result.entry(rel_name).or_default().extend(predicates) }`
unfoldable pub push_all : Pushed → Str → List ColumnPredicate → Pushed
push_all result relation [] = result
push_all result relation (p ∷ ps) =
    Assoc.insert result relation (get_or (Assoc.lookup relation result) [] ++ (p ∷ ps))

-- a value as the list of at most one predicate
unfoldable pub equals_column : ℕ → Option Value → List ColumnPredicate
equals_column col none = []
equals_column col (some v) = (record { col_idx = col; op = PredicateOp.eq; value = v }) ∷ []

module _ (ir : Ir) (edb_relations : Str → Bool) where
  unfoldable pub extract_from_iterate : DataSource → Op → Pushed → Outcome Pushed
  unfolding collect_filters var_to_col push_all operand_to_value equals_column
  extract_from_iterate (DataSource.scan relation vars) body result =
      resolve_name ir relation >>= λ rel_name. elim (edb_relations rel_name) [
        | false ↦ ok result
        | true ↦ collect_filters ir body (var_to_col 0 vars Map.empty) >>= λ predicates.
            ok (push_all result rel_name predicates)
      ]
  extract_from_iterate (DataSource.scan_delta relation vars) body result =
      resolve_name ir relation >>= λ rel_name. ok result
  extract_from_iterate (DataSource.index_lookup relation col_idx key vars) body result =
      resolve_name ir relation >>= λ rel_name. elim (edb_relations rel_name) [
        | false ↦ ok result
        | true ↦
            operand_to_value ir key >>= λ o. ok (push_all result rel_name (equals_column col_idx o))
      ]

  unfoldable mutual
    unfolding extract_from_iterate

    pub extract_from_op : Op → Pushed → Outcome Pushed
    extract_from_op Op.nop result = ok result
    extract_from_op (Op.seq ops) result = extract_predicates ops result
    extract_from_op (Op.iterate source body) result =
        extract_from_iterate source body result >>= extract_from_op body
    extract_from_op (Op.filter cond body) result = extract_from_op body result
    extract_from_op (Op.insert relation args) result = ok result
    extract_from_op (Op.let_ var expr body) result = extract_from_op body result
    extract_from_op (Op.group_by source vars keys aggregates body) result =
        extract_from_op body result
    extract_from_op (Op.hash_join build probe keys body) result = extract_from_op body result
    extract_from_op (Op.match_field struct_op field var body) result = extract_from_op body result
    extract_from_op (Op.iterate_list source var body) result = extract_from_op body result

    -- the loop over the operations of a plan, from the map found so far
    pub extract_predicates : Ops → Pushed → Outcome Pushed
    extract_predicates Ops.nil result = ok result
    extract_predicates (Ops.cons op ops) result =
        extract_from_op op result >>= extract_predicates ops
