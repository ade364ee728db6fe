-- ===== src/Interpreter/Exec.antt =====
-- crates/mangle-interpreter/src/lib.rs: `exec_op`, `execute`, `collect_data_source` and
-- `exec_hash_join`. Where an operation fails, the failure is all that is left: what it had written
-- to the store by then is not modelled.

pub mod Run
pub mod Sound
pub mod Keeps
pub mod Stored
pub mod Joins
use mangle_rs.Prelude.{
  ℕ, ◌+◌, Bool, true, false, not, Option, none, some, List, [], ◌∷◌, ◌++◌, map, nat_beq, get_or,
  length, get_elem?, nat_eq, list_eq, pair_eq, Str, Error, Outcome, ◌>>=◌, ok_or, or_panic, ok, err,
  panic, malformed_plan, int_eq,
}
use mangle_rs.Prelude.Map
use mangle_rs.Prelude.Assoc
use mangle_rs.Prelude.Assoc.{Assoc}
use mangle_rs.Common.Value.{CompoundKind, Value, name, compound, null, to_list}
use mangle_rs.Common.Value.Equality.{value_eq}
use mangle_rs.Interpreter.Aggregates.{bind_vars, eval_aggregate}
use mangle_rs.Interpreter.Cells.{Tuple}
use mangle_rs.Interpreter.Context.{Context, Env, Store, ProvenanceRecorder, Machine}
use mangle_rs.Interpreter.Eval.{eval_operand, eval_operands, eval_expr, eval_cond}
use mangle_rs.Interpreter.Text.{find_field}
use mangle_rs.Ir.{resolve_name}
use mangle_rs.Interpreter.MemStore.Writes.{find_position}
use mangle_rs.Ir.Physical.{Aggregate, Operand, DataSource, Op, Ops}
use mangle_rs.Ir.Physical
use mangle_rs.Interpreter.Grouping.{
  Groups, add_to_group, build_table, group_key, group_tuples, key_at, key_positions,
}
use mangle_rs.Interpreter.Premises.{drop_last, inserted, pop_premise, push_premise, record_entry}

-- a loop that adds up what its rounds insert
unfoldable pub for_each : {A M : Type 0} → (A → M → Outcome (M × ℕ)) → List A → M → Outcome (M × ℕ)
for_each run [] m = ok (m, 0)
for_each run (x ∷ xs) m = do (m', n) ← run x m; (m'', k) ← for_each run xs m'; ok (m'', n + k)

-- the aggregates of one group, each bound to its variable
unfoldable pub bind_aggregates : Context → List Aggregate → List Tuple → List ℕ → Env → Outcome Env
bind_aggregates c [] group vars env = ok env
bind_aggregates c (agg ∷ rest) group vars env = do
  (val, env') ← eval_aggregate c group vars env agg
  bind_aggregates c rest group vars (Map.insert env' agg.var val)

-- `if let Ok(nd_iter) = ..`
abbrev pub or_empty : Outcome (List Tuple) → Outcome (List Tuple)
or_empty (ok tuples) = ok tuples
or_empty (err e) = ok []
or_empty panic = panic

abbrev pub field_of : Value → Str → Option Value
unfolding find_field
field_of (compound CompoundKind.struct pairs) field_name =
    find_field (to_list pairs) (name field_name)
field_of _ field_name = none

module _ (c : Context) {S : Type 0} ⦃i : Store S⦄ where
  -- the tuples of a data source, with the variables that they bind and the relation's name
  unfoldable pub collect_data_source : DataSource → Machine S → Outcome (Str × List Tuple × List ℕ)
  collect_data_source (DataSource.scan relation vars) m = do
    rel_name ← resolve_name c.ir relation
    tuples ← i.scan m.store rel_name
    ok (rel_name, tuples, vars)
  collect_data_source (DataSource.scan_delta relation vars) m = do
    rel_name ← resolve_name c.ir relation
    tuples ← i.scan_delta m.store rel_name
    ok (rel_name, tuples, vars)
  collect_data_source (DataSource.index_lookup relation col_idx key vars) m = do
    rel_name ← resolve_name c.ir relation
    key_val ← eval_operand c.ir key m.env
    tuples ← i.scan_index m.store rel_name col_idx key_val
    ok (rel_name, tuples, vars)

  -- one tuple of an `Iterate`
  unfoldable pub visit :
      (Machine S → Outcome (Machine S × ℕ))
      → Str
      → List ℕ
      → Tuple
      → Machine S
      → Outcome (Machine S × ℕ)
  unfolding bind_vars push_premise pop_premise
  visit run rel_name vars tuple m = elim (nat_beq (length tuple) (length vars)) [
    | true ↦ bind_vars m.env vars tuple >>= λ env'.
        run (record m { env = env'; provenance = push_premise rel_name tuple m.provenance })
        >>= λ r. ok (record r.0 { provenance = pop_premise r.0.provenance }, r.1)
    | false ↦ ok (m, 0)
  ]

  unfoldable pub exec_insert : ℕ → List Operand → Machine S → Outcome (Machine S × ℕ)
  unfolding inserted
  exec_insert relation args m = do
    rel_name ← resolve_name c.ir relation
    tuple ← eval_operands c.ir args m.env
    (store', is_new) ← i.insert m.store rel_name tuple
    ok (inserted rel_name tuple store' is_new m)

  -- one matching build tuple of a `HashJoin`
  unfoldable pub join_match :
      (Machine S → Outcome (Machine S × ℕ)) → List ℕ → Tuple → Machine S → Outcome (Machine S × ℕ)
  unfolding bind_vars
  join_match run build_vars tuple m =
      bind_vars m.env build_vars tuple >>= λ env'. run (record m { env = env' })

  -- the matches of one probe tuple
  unfoldable pub join_matches :
      (Machine S → Outcome (Machine S × ℕ))
      → List ℕ
      → List ℕ
      → Tuple
      → Option (List Tuple)
      → Machine S
      → Outcome (Machine S × ℕ)
  unfolding join_match for_each bind_vars
  join_matches run build_vars probe_vars tuple none m = ok (m, 0)
  join_matches run build_vars probe_vars tuple (some matches) m = do
    env' ← bind_vars m.env probe_vars tuple
    for_each (join_match run build_vars) matches (record m { env = env' })

  -- one tuple of the probe side
  unfoldable pub probe :
      (Machine S → Outcome (Machine S × ℕ))
      → List ℕ
      → List ℕ
      → List ℕ
      → Groups
      → Tuple
      → Machine S
      → Outcome (Machine S × ℕ)
  unfolding join_matches key_at
  probe run build_vars probe_vars positions table tuple m =
      elim (nat_beq (length tuple) (length probe_vars)) [
        | true ↦ key_at tuple positions >>= λ key.
            join_matches run build_vars probe_vars tuple (Assoc.lookup key table) m
        | false ↦ ok (m, 0)
      ]

  unfoldable pub exec_hash_join :
      (Machine S → Outcome (Machine S × ℕ))
      → DataSource
      → DataSource
      → List ℕ
      → Machine S
      → Outcome (Machine S × ℕ)
  unfolding collect_data_source key_positions build_table for_each probe
  exec_hash_join run build_source probe_source join_keys m = do
    (build_name, build_tuples, build_vars) ← collect_data_source build_source m
    build_positions ← key_positions build_vars join_keys
    table ← build_table (length build_vars) build_positions build_tuples []
    (probe_name, probe_tuples, probe_vars) ← collect_data_source probe_source m
    probe_positions ← key_positions probe_vars join_keys
    for_each (probe run build_vars probe_vars probe_positions table) probe_tuples m

  unfoldable pub exec_group :
      (Machine S → Outcome (Machine S × ℕ))
      → List ℕ
      → List ℕ
      → List Aggregate
      → Tuple × List Tuple
      → Machine S
      → Outcome (Machine S × ℕ)
  unfolding bind_aggregates bind_vars
  exec_group run vars keys aggregates (key, group) m = do
    env' ← bind_vars m.env keys key
    env'' ← bind_aggregates c aggregates group vars env'
    run (record m { env = env'' })

  unfoldable pub exec_group_by :
      (Machine S → Outcome (Machine S × ℕ))
      → ℕ
      → List ℕ
      → List ℕ
      → List Aggregate
      → Machine S
      → Outcome (Machine S × ℕ)
  unfolding exec_group for_each group_tuples
  exec_group_by run source vars keys aggregates m = do
    rel_name ← resolve_name c.ir source
    tuples ← i.scan m.store rel_name
    collected ← or_empty (i.scan_next_delta m.store rel_name)
    (groups, env') ← group_tuples vars keys (tuples ++ collected) m.env []
    for_each (exec_group run vars keys aggregates) (c.yielded groups) (record m { env = env' })

  -- `if let Some(val) = found`
  unfoldable pub with_field :
      (Machine S → Outcome (Machine S × ℕ)) → ℕ → Option Value → Machine S → Outcome (Machine S × ℕ)
  with_field run var none m = ok (m, 0)
  with_field run var (some val) m = do
    (m', n) ← run (record m { env = Map.insert m.env var val })
    ok (record m' { env = Map.remove m'.env var }, n)

  -- one element of an `IterateList`
  unfoldable pub visit_elem :
      (Machine S → Outcome (Machine S × ℕ)) → ℕ → Value → Machine S → Outcome (Machine S × ℕ)
  visit_elem run var elem m = run (record m { env = Map.insert m.env var elem })

  unfoldable pub visit_list :
      (Machine S → Outcome (Machine S × ℕ)) → ℕ → Value → Machine S → Outcome (Machine S × ℕ)
  unfolding for_each visit_elem
  visit_list run var (compound CompoundKind.list elems) m = do
    (m', n) ← for_each (visit_elem run var) (to_list elems) m
    ok (record m' { env = Map.remove m'.env var }, n)
  visit_list run var _ m = ok (m, 0)

  unfoldable mutual
    unfolding collect_data_source for_each visit exec_insert exec_hash_join exec_group_by with_field
        visit_list

    pub exec_op : Op → Machine S → Outcome (Machine S × ℕ)
    exec_op Op.nop m = ok (m, 0)
    exec_op (Op.seq ops) m = exec_ops ops m
    exec_op (Op.iterate source body) m = do
      (rel_name, tuples, vars) ← collect_data_source source m
      for_each (visit (exec_op body) rel_name vars) tuples m
    exec_op (Op.filter cond body) m =
        eval_cond c m.store cond m.env >>= λ b. elim b [ true ↦ exec_op body m | false ↦ ok (m, 0) ]
    exec_op (Op.insert relation args) m = exec_insert relation args m
    exec_op (Op.let_ var expr body) m =
        eval_expr c expr m.env >>= λ val. exec_op body (record m { env = Map.insert m.env var val })
    exec_op (Op.group_by source vars keys aggregates body) m =
        exec_group_by (exec_op body) source vars keys aggregates m
    exec_op (Op.hash_join build_source probe_source join_keys body) m =
        exec_hash_join (exec_op body) build_source probe_source join_keys m
    exec_op (Op.match_field struct_op field var body) m = do
      struct_val ← eval_operand c.ir struct_op m.env
      field_name ← resolve_name c.ir field
      with_field (exec_op body) var (field_of struct_val field_name) m
    exec_op (Op.iterate_list source var body) m =
        eval_operand c.ir source m.env >>= λ list_val. visit_list (exec_op body) var list_val m

    pub exec_ops : Ops → Machine S → Outcome (Machine S × ℕ)
    exec_ops Ops.nil m = ok (m, 0)
    exec_ops (Ops.cons op ops) m = do
      (m', n) ← exec_op op m
      (m'', k) ← exec_ops ops m'
      ok (m'', n + k)

  unfoldable pub execute : Op → Machine S → Outcome (Machine S × ℕ)
  unfolding exec_op
  execute op m = exec_op op (record m { env = Map.empty })
