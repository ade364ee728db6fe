-- ===== src/Analysis/Strata/Graph.antt =====
-- crates/mangle-analysis/src/stratification.rs: a program's rules and the graph of what its predicates
-- depend on. A hash map is the list of its entries in the order in which it yields them. Of the
-- syntax (crates/mangle-ast/src/lib.rs) this is what `make_dep_graph` reads.
use mangle_rs.Prelude.{
  ℕ, sym, Bool, true, false, not, Option, none, some, List, [], ◌∷◌, ◌++◌, if◌then◌else◌, get_or,
  nat_eq, list_eq, pair_eq, int_eq,
}
use mangle_rs.Prelude.Assoc.{Assoc, lookup, insert}
use mangle_rs.Analysis.Strata.Walk.{member}

pub data Term : Type 0 where
  atom neg_atom temporal_atom : ℕ → Term
  equality inequality : Term

pub record TransformStmt : Type 0 where
  pub var : Option ℕ

pub record Clause : Type 0 where
  pub head : ℕ
  pub premises : List Term
  pub transform : List TransformStmt

pub record Program : Type 0 where
  pub ext_preds : List ℕ
  pub rules : Assoc ℕ (List Clause)

abbrev pub new_program : Program
new_program = record { ext_preds = []; rules = [] }

unfoldable pub add_clause : Program → Clause → Program
add_clause p clause = record p {
  rules = insert p.rules clause.head (get_or (lookup clause.head p.rules) [] ++ clause ∷ []);
}

abbrev pub EdgeMap : Type 0
EdgeMap = Assoc ℕ Bool

abbrev pub DepGraph : Type 0
DepGraph = Assoc ℕ EdgeMap

-- `keys`
abbrev pub keys {ℓ} : {V : Type ℓ} → Assoc ℕ V → List ℕ
keys [] = []
keys ((k, v) ∷ m) = k ∷ keys m

unfoldable pub init_node : DepGraph → ℕ → DepGraph
init_node dep src = insert dep src (get_or (lookup src dep) [])

unfoldable pub set_edge : EdgeMap → ℕ → Bool → EdgeMap
set_edge edges dest true = insert edges dest true
set_edge edges dest false = elim (lookup dest edges) [
  | none ↦ insert edges dest false
  | some negated ↦ if not negated then insert edges dest false else edges
]

unfoldable pub add_edge : DepGraph → ℕ → ℕ → Bool → DepGraph
unfolding set_edge
add_edge dep src dest negated = insert dep src (set_edge (get_or (lookup src dep) []) dest negated)

-- `clause.transform.is_empty() || clause.transform[0].var.is_some()`
unfoldable pub no_group : List TransformStmt → Bool
no_group [] = true
no_group (first ∷ stmts) = elim first.var [ none ↦ false | some _ ↦ true ]

unfoldable pub add_premise : List ℕ → ℕ → Clause → DepGraph → Term → DepGraph
unfolding add_edge no_group
add_premise ext s clause dep (atom sym) =
    if not (member ext sym)
    then (if no_group clause.transform then add_edge dep s sym false else add_edge dep s sym true)
    else dep
add_premise ext s clause dep (neg_atom sym) =
    if not (member ext sym) then add_edge dep s sym true else dep
add_premise ext s clause dep (temporal_atom sym) =
    if not (member ext sym)
    then (if no_group clause.transform then add_edge dep s sym false else add_edge dep s sym true)
    else dep
add_premise ext s clause dep _ = dep

unfoldable pub add_premises : List ℕ → ℕ → Clause → DepGraph → List Term → DepGraph
unfolding add_premise
add_premises ext s clause dep [] = dep
add_premises ext s clause dep (premise ∷ premises) =
    add_premises ext s clause (add_premise ext s clause dep premise) premises

unfoldable pub add_clauses : List ℕ → ℕ → DepGraph → List Clause → DepGraph
unfolding add_premises
add_clauses ext s dep [] = dep
add_clauses ext s dep (clause ∷ rule) =
    add_clauses ext s (add_premises ext s clause dep clause.premises) rule

unfoldable pub add_rules : List ℕ → DepGraph → Assoc ℕ (List Clause) → DepGraph
unfolding init_node add_clauses
add_rules ext dep [] = dep
add_rules ext dep ((s, rule) ∷ rules) =
    add_rules ext (add_clauses ext s (init_node dep s) rule) rules

unfoldable pub make_dep_graph : Program → DepGraph
unfolding add_rules
make_dep_graph program = add_rules program.ext_preds [] program.rules

unfoldable pub transpose_edges : DepGraph → ℕ → EdgeMap → DepGraph
unfolding init_node add_edge
transpose_edges rev src [] = rev
transpose_edges rev src ((dest, negated) ∷ edges) =
    transpose_edges (add_edge (init_node rev dest) dest src negated) src edges

unfoldable pub transpose_into : DepGraph → DepGraph → DepGraph
unfolding transpose_edges
transpose_into rev [] = rev
transpose_into rev ((src, edges) ∷ dep) = transpose_into (transpose_edges rev src edges) dep

unfoldable pub transpose : DepGraph → DepGraph
unfolding transpose_into
transpose dep = transpose_into [] dep

-- `if let Some(edges) = graph.get(&node)`, and the keys of the edges
unfoldable pub neighbors : DepGraph → ℕ → List ℕ
neighbors dep node = keys (get_or (lookup node dep) [])
