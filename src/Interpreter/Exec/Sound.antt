-- ===== src/Interpreter/Exec/Sound.antt =====
-- Each operation of a plan (crates/mangle-interpreter/src/lib.rs, `exec_op`) makes a run.
use mangle_rs.Prelude.{
  ℕ, inl, inr, true, false, Option, none, some, List, [], ◌++◌, nat_beq, Bool-cases, length, nat_eq,
  list_eq, pair_eq, Str, Outcome, ok, int_eq,
}
use mangle_rs.Prelude.Assoc
use mangle_rs.Prelude.Map
use mangle_rs.Common.Value.{
  CompoundKind, Value, number, float, string, name, time, duration, compound, null, to_list,
}
use mangle_rs.Common.Value.Equality.{value_eq}
use mangle_rs.Interpreter.Aggregates.{bind_vars}
use mangle_rs.Interpreter.Cells.{Tuple}
use mangle_rs.Interpreter.Context.{Context, Env, Store, Machine}
use mangle_rs.Interpreter.Eval.{eval_operand, eval_operands, eval_expr, eval_cond}
use mangle_rs.Interpreter.Exec.{
  for_each, collect_data_source, visit, exec_insert, join_match, join_matches, probe,
  exec_hash_join, exec_group, exec_group_by, or_empty, bind_aggregates, with_field, visit_elem,
  visit_list, field_of, exec_op, exec_ops,
}
use mangle_rs.Interpreter.Grouping.{Groups, group_tuples, key_positions, key_at, build_table}
use mangle_rs.Interpreter.Premises.{push_premise}
use mangle_rs.Interpreter.Exec.Run.{
  idle, rebind, unbind, add, under, join, Leads, Leads-ok, Leads->>=, Leads-then, Leads-rebind,
  Leads-for_each,
}
use mangle_rs.Ir.{resolve_name}
use mangle_rs.Ir.Physical.{Aggregate, Operand, DataSource, Op, Ops}

module _ (c : Context) {S : Type 0} ⦃i : Store S⦄ where
  exec_insert-Leads :
      (relation : ℕ) (args : List Operand) (m : Machine S) → Leads m (exec_insert c relation args m)
  unfolding exec_insert
  exec_insert-Leads relation args m = Leads->>= (resolve_name c.ir relation) (λ rel_name e.
      Leads->>= (eval_operands c.ir args m.env) (λ tuple e'.
        Leads->>= (i.insert m.store rel_name tuple)
          (λ r h. Leads-ok (add m rel_name tuple r.0 r.1 h))))

  module _ (run : Machine S → Outcome (Machine S × ℕ)) (h : (m : Machine S) → Leads m (run m)) where
    visit-Leads :
        (rel_name : Str) (vars : List ℕ) (tuple : Tuple) (m : Machine S)
        → Leads m (visit c run rel_name vars tuple m)
    unfolding visit
    visit-Leads rel_name vars tuple m = elim (Bool-cases (nat_beq (length tuple) (length vars))) [
      | inl e ↦
          rw (visit, e)
            (Leads->>= (bind_vars m.env vars tuple) (λ env p. Leads-rebind m env (
              Leads->>= (run (entered env)) (λ r q. Leads-ok (
                under (record m { env = env }) rel_name tuple
                  ((h (entered env)).made r.0 r.1 q))))))
      | inr e ↦ rw (visit, e) (Leads-ok (idle m))
    ]
      where
        entered : Env → Machine S
        entered env = record m { env = env; provenance = push_premise rel_name tuple m.provenance }

    join_match-Leads :
        (vars : List ℕ) (tuple : Tuple) (m : Machine S) → Leads m (join_match c run vars tuple m)
    unfolding join_match
    join_match-Leads vars tuple m =
        Leads->>= (bind_vars m.env vars tuple)
          (λ env e. Leads-rebind m env (h (record m { env = env })))

    join_matches-Leads :
        (build_vars probe_vars : List ℕ) (tuple : Tuple) (o : Option (List Tuple)) (m : Machine S)
        → Leads m (join_matches c run build_vars probe_vars tuple o m)
    unfolding join_matches
    join_matches-Leads build_vars probe_vars tuple none m = Leads-ok (idle m)
    join_matches-Leads build_vars probe_vars tuple (some matches) m =
        Leads->>= (bind_vars m.env probe_vars tuple) (λ env e. Leads-rebind m env (
          Leads-for_each (join_match c run build_vars) (join_match-Leads build_vars) matches
            (record m { env = env })))

    probe-Leads :
        (build_vars probe_vars positions : List ℕ) (table : Groups) (tuple : Tuple) (m : Machine S)
        → Leads m (probe c run build_vars probe_vars positions table tuple m)
    unfolding probe
    probe-Leads build_vars probe_vars positions table tuple m =
        elim (Bool-cases (nat_beq (length tuple) (length probe_vars))) [
          | inl e ↦
              rw (probe, e)
                (Leads->>= (key_at tuple positions) (λ key p.
                  join_matches-Leads build_vars probe_vars tuple (Assoc.lookup key table) m))
          | inr e ↦ rw (probe, e) (Leads-ok (idle m))
        ]

    exec_hash_join-Leads :
        (build probed : DataSource) (keys : List ℕ) (m : Machine S)
        → Leads m (exec_hash_join c run build probed keys m)
    unfolding exec_hash_join
    exec_hash_join-Leads build probed keys m = Leads->>= (collect_data_source c build m) (λ b e1.
        Leads->>= (key_positions b.2 keys) (λ positions e2.
          Leads->>= (build_table (length b.2) positions b.1 []) (λ table e3.
            Leads->>= (collect_data_source c probed m) (λ p e4.
              Leads->>= (key_positions p.2 keys) (λ positions' e5.
                Leads-for_each (probe c run b.2 p.2 positions' table)
                  (probe-Leads b.2 p.2 positions' table) p.1 m)))))

    exec_group-Leads :
        (vars keys : List ℕ) (aggregates : List Aggregate) (g : Tuple × List Tuple) (m : Machine S)
        → Leads m (exec_group c run vars keys aggregates g m)
    unfolding exec_group
    exec_group-Leads vars keys aggregates (key, group) m =
        Leads->>= (bind_vars m.env keys key) (λ env e.
          Leads->>= (bind_aggregates c aggregates group vars env)
            (λ env' e'. Leads-rebind m env' (h (record m { env = env' }))))

    exec_group_by-Leads :
        (source : ℕ) (vars keys : List ℕ) (aggregates : List Aggregate) (m : Machine S)
        → Leads m (exec_group_by c run source vars keys aggregates m)
    unfolding exec_group_by
    exec_group_by-Leads source vars keys aggregates m =
        Leads->>= (resolve_name c.ir source) (λ rel_name e1.
          Leads->>= (i.scan m.store rel_name) (λ tuples e2.
            Leads->>= (or_empty (i.scan_next_delta m.store rel_name)) (λ collected e3.
              Leads->>= (group_tuples vars keys (tuples ++ collected) m.env []) (λ g e4.
                Leads-rebind m g.1 (
                  Leads-for_each (exec_group c run vars keys aggregates)
                    (exec_group-Leads vars keys aggregates) (c.yielded g.0)
                    (record m { env = g.1 }))))))

    with_field-Leads :
        (var : ℕ) (o : Option Value) (m : Machine S) → Leads m (with_field c run var o m)
    unfolding with_field
    with_field-Leads var none m = Leads-ok (idle m)
    with_field-Leads var (some val) m = Leads->>= (run (bound m val)) (λ r e. Leads-ok (
        unbind (Map.remove r.0.env var)
          (rebind m (Map.insert m.env var val) ((h (bound m val)).made r.0 r.1 e))))
      where
        bound : Machine S → Value → Machine S
        bound m val = record m { env = Map.insert m.env var val }

    visit_elem-Leads :
        (var : ℕ) (elem : Value) (m : Machine S) → Leads m (visit_elem c run var elem m)
    unfolding visit_elem
    visit_elem-Leads var elem m =
        Leads-rebind m (Map.insert m.env var elem)
          (h (record m { env = Map.insert m.env var elem }))

    visit_list-Leads : (var : ℕ) (v : Value) (m : Machine S) → Leads m (visit_list c run var v m)
    unfolding visit_list
    visit_list-Leads var (compound CompoundKind.list elems) m =
        Leads->>= (for_each (visit_elem c run var) (to_list elems) m) (λ r e. Leads-ok (
          unbind (Map.remove r.0.env var) (
            (Leads-for_each (visit_elem c run var) (visit_elem-Leads var) (to_list elems) m).made
              r.0 r.1 e)))
    visit_list-Leads var (compound CompoundKind.pair elems) m = Leads-ok (idle m)
    visit_list-Leads var (compound CompoundKind.map elems) m = Leads-ok (idle m)
    visit_list-Leads var (compound CompoundKind.struct elems) m = Leads-ok (idle m)
    visit_list-Leads var (number n) m = Leads-ok (idle m)
    visit_list-Leads var (float n) m = Leads-ok (idle m)
    visit_list-Leads var (string n) m = Leads-ok (idle m)
    visit_list-Leads var (name n) m = Leads-ok (idle m)
    visit_list-Leads var (time n) m = Leads-ok (idle m)
    visit_list-Leads var (duration n) m = Leads-ok (idle m)
    visit_list-Leads var null m = Leads-ok (idle m)

  mutual
    unfolding exec_op exec_ops

    pub exec_op-Leads : (op : Op) (m : Machine S) → Leads m (exec_op c op m)
    exec_op-Leads Op.nop m = Leads-ok (idle m)
    exec_op-Leads (Op.seq ops) m = exec_ops-Leads ops m
    exec_op-Leads (Op.iterate source body) m = Leads->>= (collect_data_source c source m) (λ p e.
        Leads-for_each (visit c (exec_op c body) p.0 p.2)
          (visit-Leads (exec_op c body) (exec_op-Leads body) p.0 p.2) p.1 m)
    exec_op-Leads (Op.filter cond body) m = Leads->>= (eval_cond c m.store cond m.env) (λ b e.
        elim b as (λ k. Leads m (elim k [ true ↦ exec_op c body m | false ↦ ok (m, 0) ])) [
          | true ↦ exec_op-Leads body m
          | false ↦ Leads-ok (idle m)
        ])
    exec_op-Leads (Op.insert relation args) m = exec_insert-Leads relation args m
    exec_op-Leads (Op.let_ var expr body) m = Leads->>= (eval_expr c expr m.env) (λ val e.
        Leads-rebind m (Map.insert m.env var val)
          (exec_op-Leads body (record m { env = Map.insert m.env var val })))
    exec_op-Leads (Op.group_by source vars keys aggregates body) m =
        exec_group_by-Leads (exec_op c body) (exec_op-Leads body) source vars keys aggregates m
    exec_op-Leads (Op.hash_join build probed keys body) m =
        exec_hash_join-Leads (exec_op c body) (exec_op-Leads body) build probed keys m
    exec_op-Leads (Op.match_field struct_op field var body) m =
        Leads->>= (eval_operand c.ir struct_op m.env) (λ v e.
          Leads->>= (resolve_name c.ir field) (λ field_name e'.
            with_field-Leads (exec_op c body) (exec_op-Leads body) var (field_of v field_name) m))
    exec_op-Leads (Op.iterate_list source var body) m =
        Leads->>= (eval_operand c.ir source m.env)
          (λ v e. visit_list-Leads (exec_op c body) (exec_op-Leads body) var v m)

    pub exec_ops-Leads : (ops : Ops) (m : Machine S) → Leads m (exec_ops c ops m)
    exec_ops-Leads Ops.nil m = Leads-ok (idle m)
    exec_ops-Leads (Ops.cons op ops) m = Leads-then (exec_op c op m) (exec_op-Leads op m) (λ t r.
        Leads-then (exec_ops c ops t.0) (exec_ops-Leads ops t.0) (λ u q. Leads-ok (join r q)))
