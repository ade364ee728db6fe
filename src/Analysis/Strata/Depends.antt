-- ===== src/Analysis/Strata/Depends.antt =====
-- What `make_dep_graph` makes of a program's rules: an edge for each premise that counts.
use mathlib.Core.List.{Memᴰ}
use mathlib.Core.List.Memᴰ.{head, tail}
use mangle_rs.Prelude.{
  ℕ, ◌≡◌, refl, sym, ap, ◌∙◌, subst, inl, inr, Bool, true, false, ◌&&◌, ◌||◌, not, Option, none,
  some, List, [], ◌∷◌, arith, if◌then◌else◌, Bool-cases, get_or, ◌==◌, ==-refl, nat_eq, list_eq,
  pair_eq, int_eq,
}
use mangle_rs.Prelude.Assoc.{Assoc, Distinct}
use mangle_rs.Analysis.Strata.Walk.{member}
use mangle_rs.Analysis.Strata.Graph.{
  Term, atom, neg_atom, temporal_atom, equality, inequality, Clause, Program, DepGraph, init_node,
  add_edge, no_group, add_premise, add_premises, add_clauses, add_rules, make_dep_graph,
}
use mangle_rs.Analysis.Strata.Edges.{
  edge, edge-add_edge, edge-init_node, Distinct-add_edge, Distinct-init_node,
}

-- the predicate that a premise asks for, and whether its clause must wait for all of that
-- predicate's facts: because the premise is negated, or because the clause groups its solutions
unfoldable pub asks : Clause → Term → Option (ℕ × Bool)
unfolding no_group
asks clause (atom sym) = some (sym, not (no_group clause.transform))
asks clause (neg_atom sym) = some (sym, true)
asks clause (temporal_atom sym) = some (sym, not (no_group clause.transform))
asks clause equality = none
asks clause inequality = none

-- A rule for `s` has a premise on the derived predicate `d`.
pub record Depends (p : Program) (s d : ℕ) (negated : Bool) : Type 0 where
  pub rule : List Clause
  pub clause : Clause
  pub premise : Term
  pub of_rule : Memᴰ (s, rule) p.rules
  pub of_clause : Memᴰ clause rule
  pub of_premise : Memᴰ premise clause.premises
  pub asked : asks clause premise ≡ some (d, negated)
  pub derived : member p.ext_preds d ≡ false

-- an edge that is negated if it must be
abbrev pub HasEdge : DepGraph → ℕ → ℕ → Bool → Type 0
HasEdge dep s d n = (b : Bool) × (edge dep s d ≡ some b) × (n ≡ true → b ≡ true)

HasEdge-add_edge :
    (dep : DepGraph) (x y s d : ℕ) (n m : Bool)
    → HasEdge dep s d n
    → HasEdge (add_edge dep x y m) s d n
HasEdge-add_edge dep x y s d n m (b, e, le) = elim (Bool-cases ((x == s) && (y == d))) [
  | inl here ↦ (m || b, ground (arith, edge-add_edge dep x y s d m), ground arith)
  | inr away ↦ (b, ground (arith, edge-add_edge dep x y s d m), le)
]

HasEdge-added : (dep : DepGraph) (s d : ℕ) (n : Bool) → HasEdge (add_edge dep s d n) s d n
HasEdge-added dep s d n = (
  n || get_or (edge dep s d) false,
  ground (arith, edge-add_edge dep s d s d n, ==-refl s, ==-refl d),
  λ h. ground arith,
)

-- the edge of what is asked for, unless it is of a stored predicate
abbrev add_asked : List ℕ → ℕ → DepGraph → Option (ℕ × Bool) → DepGraph
add_asked ext x dep none = dep
add_asked ext x dep (some (d, n)) = if member ext d then dep else add_edge dep x d n

add_premise_lem :
    (ext : List ℕ) (x : ℕ) (c : Clause) (dep : DepGraph) (t : Term)
    → add_premise ext x c dep t ≡ add_asked ext x dep (asks c t)
unfolding add_premise asks
add_premise_lem ext x c dep (atom y) = ground arith
add_premise_lem ext x c dep (neg_atom y) = ground arith
add_premise_lem ext x c dep (temporal_atom y) = ground arith
add_premise_lem ext x c dep equality = refl
add_premise_lem ext x c dep inequality = refl

-- What holds of the empty graph and is kept by the two operations holds of the whole graph.
module _ (ext : List ℕ) (P : DepGraph → Type 0)
    (on_edge : (dep : DepGraph) (x y : ℕ) (m : Bool) → P dep → P (add_edge dep x y m))
    (on_node : (dep : DepGraph) (x : ℕ) → P dep → P (init_node dep x)) where
  keep_asked : (x : ℕ) (dep : DepGraph) (a : Option (ℕ × Bool)) → P dep → P (add_asked ext x dep a)
  keep_asked x dep none h = h
  keep_asked x dep (some (d, n)) h = elim (Bool-cases (member ext d)) [
    | inl stored ↦ rw stored h
    | inr derived ↦ rw derived (on_edge dep x d n h)
  ]

  keep_premise :
      (x : ℕ) (c : Clause) (dep : DepGraph) (t : Term) → P dep → P (add_premise ext x c dep t)
  keep_premise x c dep t h =
      subst P (sym (add_premise_lem ext x c dep t)) (keep_asked x dep (asks c t) h)

  keep_premises :
      (x : ℕ) (c : Clause) (dep : DepGraph) (ts : List Term)
      → P dep
      → P (add_premises ext x c dep ts)
  unfolding add_premises
  keep_premises x c dep [] h = h
  keep_premises x c dep (t ∷ ts) h =
      keep_premises x c (add_premise ext x c dep t) ts (keep_premise x c dep t h)

  keep_clauses : (x : ℕ) (dep : DepGraph) (cs : List Clause) → P dep → P (add_clauses ext x dep cs)
  unfolding add_clauses
  keep_clauses x dep [] h = h
  keep_clauses x dep (c ∷ cs) h =
      keep_clauses x (add_premises ext x c dep c.premises) cs (keep_premises x c dep c.premises h)

  keep_rules :
      (dep : DepGraph) (rules : Assoc ℕ (List Clause)) → P dep → P (add_rules ext dep rules)
  unfolding add_rules
  keep_rules dep [] h = h
  keep_rules dep ((x, rule) ∷ rules) h =
      keep_rules (add_clauses ext x (init_node dep x) rule) rules
        (keep_clauses x (init_node dep x) rule (on_node dep x h))

pub Distinct-make_dep_graph : (p : Program) → Distinct (make_dep_graph p)
unfolding make_dep_graph
Distinct-make_dep_graph p =
    keep_rules p.ext_preds (λ dep. Distinct dep) (λ dep x y m. Distinct-add_edge dep x y m)
      Distinct-init_node [] p.rules tt

module _ (ext : List ℕ) (s d : ℕ) (n : Bool) (derived : member ext d ≡ false) where
  abbrev P : DepGraph → Type 0
  P dep = HasEdge dep s d n

  on_edge : (dep : DepGraph) (x y : ℕ) (m : Bool) → P dep → P (add_edge dep x y m)
  on_edge dep x y m h = HasEdge-add_edge dep x y s d n m h

  on_node : (dep : DepGraph) (x : ℕ) → P dep → P (init_node dep x)
  on_node dep x (b, e, le) = (b, edge-init_node dep x s d ∙ e, le)

  premises-HasEdge :
      (c : Clause) (t : Term)
      → asks c t ≡ some (d, n)
      → (dep : DepGraph) (ts : List Term) → Memᴰ t ts
      → P (add_premises ext s c dep ts)
  unfolding add_premises
  premises-HasEdge c t a dep [] m = elim m [ ]
  premises-HasEdge c t a dep (u ∷ ts) (head e) =
      keep_premises ext P on_edge on_node s c (add_premise ext s c dep u) ts (
        subst P
          (sym (add_premise_lem ext s c dep u ∙ ap (add_asked ext s dep) (ap (asks c) (sym e) ∙ a)))
          (rw derived (HasEdge-added dep s d n)))
  premises-HasEdge c t a dep (u ∷ ts) (tail m) =
      premises-HasEdge c t a (add_premise ext s c dep u) ts m

  clauses-HasEdge :
      (c : Clause) (t : Term)
      → asks c t ≡ some (d, n)
      → Memᴰ t c.premises
      → (dep : DepGraph) (cs : List Clause) → Memᴰ c cs
      → P (add_clauses ext s dep cs)
  unfolding add_clauses
  clauses-HasEdge c t a mt dep [] m = elim m [ ]
  clauses-HasEdge c t a mt dep (k ∷ cs) (head e) =
      keep_clauses ext P on_edge on_node s (add_premises ext s k dep k.premises) cs (
        subst (λ z. P (add_premises ext s z dep z.premises)) e
          (premises-HasEdge c t a dep c.premises mt))
  clauses-HasEdge c t a mt dep (k ∷ cs) (tail m) =
      clauses-HasEdge c t a mt (add_premises ext s k dep k.premises) cs m

  rules-HasEdge :
      (c : Clause) (t : Term) (rule : List Clause)
      → asks c t ≡ some (d, n)
      → Memᴰ t c.premises
      → Memᴰ c rule
      → (dep : DepGraph) (rules : Assoc ℕ (List Clause)) → Memᴰ (s, rule) rules
      → P (add_rules ext dep rules)
  unfolding add_rules
  rules-HasEdge c t rule a mt mc dep [] m = elim m [ ]
  rules-HasEdge c t rule a mt mc dep ((x, r) ∷ rules) (head e) =
      keep_rules ext P on_edge on_node (add_clauses ext x (init_node dep x) r) rules (
        subst (λ (z : ℕ × List Clause). P (add_clauses ext z.0 (init_node dep z.0) z.1)) e
          (clauses-HasEdge c t a mt (init_node dep s) rule mc))
  rules-HasEdge c t rule a mt mc dep ((x, r) ∷ rules) (tail m) =
      rules-HasEdge c t rule a mt mc (add_clauses ext x (init_node dep x) r) rules m

pub Depends-HasEdge :
    (p : Program) (s d : ℕ) (n : Bool) → Depends p s d n → HasEdge (make_dep_graph p) s d n
unfolding make_dep_graph
Depends-HasEdge p s d n h =
    rules-HasEdge p.ext_preds s d n h.derived h.clause h.premise h.rule h.asked h.of_premise
      h.of_clause [] p.rules h.of_rule
