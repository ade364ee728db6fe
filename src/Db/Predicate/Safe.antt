-- ===== src/Db/Predicate/Safe.antt =====
-- A row that the predicates of one scan drop (crates/mangle-db/src/predicate.rs, `collect_filters`)
-- against what that scan's body does with it (crates/mangle-interpreter/src/lib.rs, `exec_op`).
use mangle_rs.Prelude.{
  ℕ, suc, ◌+◌, ◌≡◌, refl, sym, ap, ◌∙◌, subst, Bool, true, false, Option, none, some, List, [], ◌∷◌,
  arith, nat_beq, if◌then◌else◌, length, get_elem?, ◌==◌, nat_eq, list_eq, pair_eq, Str, Outcome,
  ◌>>=◌, >>=-eq-ok, ok-injective, some-injective, ok, int_eq,
}
use mangle_rs.Prelude.Map
use mangle_rs.Prelude.Map.{Map}
use mangle_rs.Common.Value.{Value}
use mangle_rs.Db.Predicate.{
  ColumnPredicate, eval_all, condition_to_predicate, collect_filters, var_to_col,
}
use mangle_rs.Db.Predicate.Meaning.{IsBound, condition_to_predicate-eval}
use mangle_rs.Interpreter.Aggregates.{bind_vars}
use mangle_rs.Interpreter.Cells.{Tuple}
use mangle_rs.Interpreter.Context.{Context, Env, Store, Machine}
use mangle_rs.Interpreter.Eval.{eval_cond}
use mangle_rs.Interpreter.Exec.{visit, exec_op}
use mangle_rs.Interpreter.Premises.{push_premise, pop_premise}
use mangle_rs.Ir.Physical.{Condition, Op}

module _ (c : Context) (cols : Map ℕ ℕ) (row : Tuple) {S : Type 0} ⦃i : Store S⦄ (m u : Machine S)
    (n : ℕ) where
  abbrev Idle : Type 0
  Idle = ◌≡◌ {A = Machine S × ℕ} (m, 0) (u, n)

  nothing_collected :
      (ps : List ColumnPredicate) → ok [] ≡ ok ps → eval_all c.as_f64 ps row ≡ false → Idle
  unfolding eval_all
  nothing_collected [] h e = cc
  nothing_collected (p ∷ ps) h e = cc

  module _ (body : Op) (rest : List ColumnPredicate)
      (ih : eval_all c.as_f64 rest row ≡ false → exec_op c body m ≡ ok (u, n) → Idle) where
    filtered :
        (b : Bool)
        → (b ≡ true → eval_all c.as_f64 rest row ≡ false)
        → elim b as (λ k. Outcome (Machine S × ℕ)) [ true ↦ exec_op c body m | false ↦ ok (m, 0) ]
          ≡ ok (u, n)
        → Idle
    filtered true k h = ih (k refl) h
    filtered false k h = ok-injective h

    dropped_by :
        (cond : Condition) (pred : Option ColumnPredicate) (b : Bool)
        → IsBound cols m.env row
        → condition_to_predicate c.ir cond cols ≡ ok pred
        → eval_all c.as_f64 (elim pred [ none ↦ rest | some p ↦ p ∷ rest ]) row ≡ false
        → eval_cond c m.store cond m.env ≡ ok b
        → elim b as (λ k. Outcome (Machine S × ℕ)) [ true ↦ exec_op c body m | false ↦ ok (m, 0) ]
          ≡ ok (u, n)
        → Idle
    unfolding eval_all
    dropped_by cond none b bound extracted fails given h = filtered b (λ p. fails) h
    dropped_by cond (some p) b bound extracted fails given h =
        let same = ok-injective (
          sym given
          ∙ condition_to_predicate-eval c cols m.env row bound m.store cond p extracted) in
        filtered b (λ t. ground (arith, fails, same, t)) h

  -- where a row fails what was collected from an operation, the operation does nothing
  collect_filters-Idle :
      (op : Op) (ps : List ColumnPredicate)
      → IsBound cols m.env row
      → collect_filters c.ir op cols ≡ ok ps
      → eval_all c.as_f64 ps row ≡ false
      → exec_op c op m ≡ ok (u, n)
      → Idle
  unfolding collect_filters exec_op
  collect_filters-Idle (Op.filter cond body) ps bound h fails run =
      let (pred, extracted, q) = >>=-eq-ok (condition_to_predicate c.ir cond cols) _ h in
      let (rest, collected, q') = >>=-eq-ok (collect_filters c.ir body cols) _ q in
      let (b, given, r) = >>=-eq-ok (eval_cond c m.store cond m.env) _ run in
      dropped_by body rest (collect_filters-Idle body rest bound collected) cond pred b bound
        extracted (ap (λ l. eval_all c.as_f64 l row) (ok-injective q') ∙ fails) given r
  collect_filters-Idle Op.nop ps bound h fails run = nothing_collected ps h fails
  collect_filters-Idle (Op.seq ops) ps bound h fails run = nothing_collected ps h fails
  collect_filters-Idle (Op.iterate source body) ps bound h fails run = nothing_collected ps h fails
  collect_filters-Idle (Op.insert relation args) ps bound h fails run = nothing_collected ps h fails
  collect_filters-Idle (Op.let_ var expr body) ps bound h fails run = nothing_collected ps h fails
  collect_filters-Idle (Op.group_by source vars keys aggregates body) ps bound h fails run =
      nothing_collected ps h fails
  collect_filters-Idle (Op.hash_join build probe keys body) ps bound h fails run =
      nothing_collected ps h fails
  collect_filters-Idle (Op.match_field struct_op field var body) ps bound h fails run =
      nothing_collected ps h fails
  collect_filters-Idle (Op.iterate_list source var body) ps bound h fails run =
      nothing_collected ps h fails

IsBound-insert :
    (cols : Map ℕ ℕ) (env : Env) (full : Tuple) (i v : ℕ) (x : Value)
    → IsBound cols env full
    → get_elem? full i ≡ some x
    → IsBound (Map.insert cols v i) (Map.insert env v x) full
IsBound-insert cols env full i v x bound here = record {
  column_of = λ w col at. column w col (w == v) at;
}
  where
    column :
        (w col : ℕ) (b : Bool)
        → (if b then some i else cols w) ≡ some col
        → (y : Value) × (get_elem? full col ≡ some y) × ((if b then some x else env w) ≡ some y)
    column w col true at = (x, ap (λ k. get_elem? full k) (sym (some-injective at)) ∙ here, refl)
    column w col false at = bound.column_of w col at

pub bind_vars-IsBound :
    (vars : List ℕ) (i : ℕ) (cols : Map ℕ ℕ) (env : Env) {bound_env : Env} (row full : Tuple)
    → IsBound cols env full
    → ((j : ℕ) → get_elem? row j ≡ get_elem? full (i + j))
    → bind_vars env vars row ≡ ok bound_env
    → IsBound (var_to_col i vars cols) bound_env full
unfolding bind_vars var_to_col
bind_vars-IsBound [] i cols env row full bound at h =
    subst (λ e. IsBound cols e full) (ok-injective h) bound
bind_vars-IsBound (v ∷ vs) i cols env [] full bound at h = cc
bind_vars-IsBound (v ∷ vs) i cols env (x ∷ row) full bound at h =
    bind_vars-IsBound vs (i + 1) (Map.insert cols v i) (Map.insert env v x) row full
      (IsBound-insert cols env full i v x bound
        (ap (λ k. get_elem? full k) (omega arith) ∙ sym (at 0)))
      (λ j. at (suc j) ∙ ap (λ k. get_elem? full k) (omega arith)) h

-- A row of a scan that fails a predicate collected from the scan's body derives nothing: where its
-- round of the scan succeeds, it inserts no fact and leaves the store as it is.
pub visit-dropped :
    (c : Context) {S : Type 0} ⦃i : Store S⦄ (body : Op) (rel_name : Str) (vars : List ℕ)
    (ps : List ColumnPredicate) (row : Tuple) (m u : Machine S) (n : ℕ)
    → collect_filters c.ir body (var_to_col 0 vars Map.empty) ≡ ok ps
    → eval_all c.as_f64 ps row ≡ false
    → visit c (exec_op c body) rel_name vars row m ≡ ok (u, n)
    → (n ≡ 0) × (u.store ≡ m.store)
unfolding visit
visit-dropped c {S} body rel_name vars ps row m u n collected fails h =
    go (nat_beq (length row) (length vars)) h
  where
    entered : Env → Machine S
    entered env = record m { env = env; provenance = push_premise rel_name row m.provenance }

    leave : Machine S × ℕ → Outcome (Machine S × ℕ)
    leave r = ok (record r.0 { provenance = pop_premise r.0.provenance }, r.1)

    go :
        (b : Bool)
        → elim b as (λ k. Outcome (Machine S × ℕ)) [
          | true ↦ bind_vars m.env vars row >>= λ env. exec_op c body (entered env) >>= leave
          | false ↦ ok (m, 0)
        ]
          ≡ ok (u, n)
        → (n ≡ 0) × (u.store ≡ m.store)
    go false e = (ap (λ p. p.1) (sym (ok-injective e)), ap (λ p. p.0.store) (sym (ok-injective e)))
    go true e =
        let (env, p, q) = >>=-eq-ok (bind_vars m.env vars row) _ e in
        let (r, ran, left) = >>=-eq-ok (exec_op c body (entered env)) leave q in
        let bound =
          bind_vars-IsBound vars 0 Map.empty m.env row row (record { column_of = λ v col at. cc })
            (λ j. ap (λ k. get_elem? row k) (omega arith)) p in
        let idle =
          collect_filters-Idle c (var_to_col 0 vars Map.empty) row (entered env) r.0 r.1 body ps
            bound collected fails ran in
        (
          sym (ap (λ p. p.1) idle ∙ ap (λ p. p.1) (ok-injective left)),
          sym (ap (λ p. p.0.store) idle ∙ ap (λ p. p.0.store) (ok-injective left)),
        )
