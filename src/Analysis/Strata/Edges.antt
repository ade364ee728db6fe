-- ===== src/Analysis/Strata/Edges.antt =====
-- The edges of a graph, and what the operations of `DepGraphExt` and `make_dep_graph` do to them.
use mangle_rs.Prelude.{
  ℕ, ◌≡◌, refl, ap, ◌∙◌, ◌⊎◌, inl, inr, Bool, true, false, ◌&&◌, ◌||◌, Option, none, some, [], ◌∷◌,
  arith, if◌then◌else◌, Bool-cases, get_or, ◌==◌, ==-refl, ==_iff, nat_eq, list_eq, pair_eq, int_eq,
}
use mangle_rs.Prelude.Assoc.{Assoc, lookup, lookup-insert, Distinct, Distinct-insert}
use mangle_rs.Analysis.Strata.Walk.{member}
use mangle_rs.Analysis.Strata.Members.{member-append}
use mangle_rs.Analysis.Strata.Graph.{
  EdgeMap, DepGraph, keys, init_node, set_edge, add_edge, transpose_edges, transpose_into,
  transpose, neighbors,
}
use mangle_rs.Analysis.Strata.Order.{nodes}

abbrev pub is_some {ℓ} : {A : Type ℓ} → Option A → Bool
is_some none = false
is_some (some a) = true

-- whether there is an edge, and whether it is a negated one
abbrev pub edge : DepGraph → ℕ → ℕ → Option Bool
edge dep x y = lookup y (get_or (lookup x dep) [])

pub member-keys {ℓ} :
    {V : Type ℓ} (m : Assoc ℕ V) (x : ℕ) → member (keys m) x ≡ is_some (lookup x m)
member-keys [] x = refl
member-keys ((k, v) ∷ m) x = ground (arith, member-keys m x)

pub member-neighbors :
    (dep : DepGraph) (x y : ℕ) → member (neighbors dep x) y ≡ is_some (edge dep x y)
unfolding neighbors
member-neighbors dep x y = member-keys (get_or (lookup x dep) []) y

lookup-set_edge :
    (es : EdgeMap) (d y : ℕ) (n : Bool)
    → lookup y (set_edge es d n)
      ≡ (if d == y then some (n || get_or (lookup y es) false) else lookup y es)
unfolding set_edge
lookup-set_edge es d y true = lookup-insert d y true es
lookup-set_edge es d y false = ground (arith, ==_iff d y, lookup-insert d y false es)

pub edge-add_edge :
    (dep : DepGraph) (s d x y : ℕ) (n : Bool)
    → edge (add_edge dep s d n) x y
      ≡ (if (s == x) && (d == y) then some (n || get_or (edge dep x y) false) else edge dep x y)
unfolding add_edge
edge-add_edge dep s d x y n = ground (
  arith,
  ==_iff s x,
  lookup-insert s x (set_edge (get_or (lookup s dep) []) d n) dep,
  lookup-set_edge (get_or (lookup s dep) []) d y n,
)

pub edge-init_node : (dep : DepGraph) (s x y : ℕ) → edge (init_node dep s) x y ≡ edge dep x y
unfolding init_node
edge-init_node dep s x y =
    ground (arith, ==_iff s x, lookup-insert s x (get_or (lookup s dep) []) dep)

-- `transpose` reverses the edges of a graph with one entry to a node.
edge-transpose_edges :
    (rev : DepGraph) (src : ℕ) (es : EdgeMap) (x y : ℕ)
    → is_some (edge (transpose_edges rev src es) y x)
      ≡ ((src == x) && member (keys es) y || is_some (edge rev y x))
unfolding transpose_edges
edge-transpose_edges rev src [] x y = ground arith
edge-transpose_edges rev src ((d, n) ∷ es) x y = ground (
  arith,
  edge-transpose_edges (add_edge (init_node rev d) d src n) src es x y,
  edge-add_edge (init_node rev d) d src y x n,
  edge-init_node rev d y x,
)

reversed : DepGraph → ℕ → ℕ → Bool
reversed [] x y = false
reversed ((src, es) ∷ dep) x y = (src == x) && member (keys es) y || reversed dep x y

edge-transpose_into :
    (rev dep : DepGraph) (x y : ℕ)
    → is_some (edge (transpose_into rev dep) y x) ≡ (reversed dep x y || is_some (edge rev y x))
unfolding transpose_into reversed
edge-transpose_into rev [] x y = refl
edge-transpose_into rev ((src, es) ∷ dep) x y = ground (
  arith,
  edge-transpose_into (transpose_edges rev src es) dep x y,
  edge-transpose_edges rev src es x y,
)

reversed-none : (dep : DepGraph) (x y : ℕ) → lookup x dep ≡ none → reversed dep x y ≡ false
unfolding reversed
reversed-none [] x y h = refl
reversed-none ((src, es) ∷ dep) x y h = ground (arith, reversed-none dep x y)

reversed_lem : (dep : DepGraph) (x y : ℕ) → Distinct dep → reversed dep x y ≡ is_some (edge dep x y)
unfolding reversed
reversed_lem [] x y h = refl
reversed_lem ((src, es) ∷ dep) x y (h, hs) =
    ground (arith, ==_iff src x, member-keys es y, reversed_lem dep x y hs, reversed-none dep x y)

-- `transpose` gives an edge from y to x just where the graph has one from x to y.
pub neighbors-transpose :
    (dep : DepGraph) (x y : ℕ)
    → Distinct dep
    → member (neighbors (transpose dep) y) x ≡ member (neighbors dep x) y
unfolding transpose
neighbors-transpose dep x y h =
    member-neighbors (transpose dep) y x
    ∙ edge-transpose_into [] dep x y
    ∙ ground (arith, reversed_lem dep x y h, member-neighbors dep x y)

pub Distinct-add_edge :
    (dep : DepGraph) (s d : ℕ) (n : Bool) → Distinct dep → Distinct (add_edge dep s d n)
unfolding add_edge
Distinct-add_edge dep s d n h = Distinct-insert dep s (set_edge (get_or (lookup s dep) []) d n) h

pub Distinct-init_node : (dep : DepGraph) (s : ℕ) → Distinct dep → Distinct (init_node dep s)
unfolding init_node
Distinct-init_node dep s h = Distinct-insert dep s (get_or (lookup s dep) []) h

-- The nodes hold both ends of every edge.
pub nodes-source :
    (dep : DepGraph) (x y : ℕ) → member (neighbors dep x) y ≡ true → member (nodes dep) x ≡ true
unfolding neighbors
nodes-source [] x y h = ground arith
nodes-source ((s, es) ∷ dep) x y h =
    ground (arith, nodes-source dep x y, member-append (keys es) (nodes dep) x)

pub nodes-target :
    (dep : DepGraph) (x y : ℕ) → member (neighbors dep x) y ≡ true → member (nodes dep) y ≡ true
unfolding neighbors
nodes-target [] x y h = ground arith
nodes-target ((s, es) ∷ dep) x y h =
    ground (arith, nodes-target dep x y, member-append (keys es) (nodes dep) y)

pub nodes-key : (dep : DepGraph) (x : ℕ) → member (keys dep) x ≡ true → member (nodes dep) x ≡ true
nodes-key [] x h = h
nodes-key ((s, es) ∷ dep) x h =
    ground (arith, nodes-key dep x, member-append (keys es) (nodes dep) x)

-- A node that is no key has an edge to it from a key.
pub nodes-split :
    (dep : DepGraph) (y : ℕ)
    → Distinct dep
    → member (nodes dep) y ≡ true
    → (member (keys dep) y ≡ true)
      ⊎ ((x : ℕ) × (member (keys dep) x ≡ true) × (member (neighbors dep x) y ≡ true))
unfolding neighbors
nodes-split [] y h m = inl m
nodes-split ((s, es) ∷ dep) y (h, hs) m = elim (Bool-cases (s == y)) [
  | inl e ↦ inl (ground arith)
  | inr ne ↦ elim (Bool-cases (member (keys es) y)) [
    | inl to ↦ inr (s, ground (arith, ==-refl s), rw (==-refl s) to)
    | inr away ↦
        elim (nodes-split dep y hs (ground (arith, member-append (keys es) (nodes dep) y))) [
          | inl k ↦ inl (ground arith)
          | inr (x, k, to) ↦ inr (
            x,
            ground arith,
            ground (arith, member-keys dep x, ==_iff s x, h, ap (λ z. lookup z dep)),
          )
        ]
  ]
]
