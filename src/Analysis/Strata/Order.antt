-- ===== src/Analysis/Strata/Order.antt =====
-- crates/mangle-analysis/src/stratification.rs: `sccs`, `stratify` and `sort_result`. A stratum is the
-- list of its predicates. The fuel of a walk is the number of nodes and one more.
use mangle_rs.Prelude.{
  ℕ, zero, suc, sym, Bool, true, false, ◌||◌, not, Option, none, some, List, [], ◌∷◌, ◌++◌,
  if◌then◌else◌, get_or, length, get_elem?, ◌==◌, nat_eq, list_eq, pair_eq, Error, Outcome, ok, err,
  int_eq,
}
use mangle_rs.Prelude.Assoc.{Assoc, lookup, insert}
use mangle_rs.Analysis.Strata.Walk.{Walk, member, each, visit, rvisit}
use mangle_rs.Analysis.Strata.Graph.{EdgeMap, DepGraph, keys, transpose, neighbors}

-- the nodes of a graph: those with an entry and those that an edge leads to
abbrev pub nodes : DepGraph → List ℕ
nodes [] = []
nodes ((src, edges) ∷ dep) = src ∷ keys edges ++ nodes dep

abbrev pub blank : Walk
blank = record { seen = []; out = [] }

-- what a walk put out
abbrev pub put_out : Option Walk → Option (List ℕ)
put_out none = none
put_out (some w) = some w.out

abbrev pub option_bind {ℓ κ} : {A : Type ℓ} {B : Type κ} → Option A → (A → Option B) → Option B
option_bind none f = none
option_bind (some a) f = f a

-- `if !scc.is_empty()`, before the components found later
abbrev pub push_scc : List ℕ → List (List ℕ) → List (List ℕ)
push_scc [] sccs = sccs
push_scc (node ∷ scc) sccs = (node ∷ scc) ∷ sccs

-- `while let Some(top) = s.pop()`
unfoldable pub pop_all : (ℕ → List ℕ) → ℕ → List ℕ → List ℕ → Option (List (List ℕ))
unfolding rvisit
pop_all next fuel [] seen = some []
pop_all next fuel (top ∷ s) seen = elim (member seen top) [
  | true ↦ pop_all next fuel s seen
  | false ↦
      option_bind (rvisit next fuel top (record { seen = seen; out = [] }))
        (λ w. option_bind (pop_all next fuel s w.seen) (λ sccs. some (push_scc w.out sccs)))
]

unfoldable pub sccs : DepGraph → Option (List (List ℕ))
unfolding visit neighbors pop_all transpose
sccs dep =
    let fuel = suc (length (nodes dep)) in
    option_bind (put_out (each (visit (neighbors dep) fuel) (keys dep) blank))
      (λ s. pop_all (neighbors (transpose dep)) fuel s [])

-- `pred_to_stratum.insert(*sym, i)` for the predicates of a stratum
unfoldable pub number : Assoc ℕ ℕ → ℕ → List ℕ → Assoc ℕ ℕ
number numbers i [] = numbers
number numbers i (sym ∷ c) = number (insert numbers sym i) i c

-- whether a negated edge of these leads to the stratum
unfoldable pub negated_into : Assoc ℕ ℕ → ℕ → EdgeMap → Bool
negated_into numbers i [] = false
negated_into numbers i ((dest, negated) ∷ edges) =
    if not negated then negated_into numbers i edges else elim (lookup dest numbers) [
      | none ↦ negated_into numbers i edges
      | some dest_stratum ↦ dest_stratum == i || negated_into numbers i edges
    ]

unfoldable pub rejected : DepGraph → Assoc ℕ ℕ → ℕ → List ℕ → Bool
unfolding negated_into
rejected dep numbers i [] = false
rejected dep numbers i (sym ∷ c) =
    negated_into numbers i (get_or (lookup sym dep) []) || rejected dep numbers i c

-- the loop of `stratify` over the strata from the i-th on
unfoldable pub number_strata : DepGraph → Assoc ℕ ℕ → ℕ → List (List ℕ) → Outcome (Assoc ℕ ℕ)
unfolding number rejected
number_strata dep numbers i [] = ok numbers
number_strata dep numbers i (c ∷ strata) =
    let numbers' = number numbers i c in
    if rejected dep numbers' i c
    then err Error.not_stratified
    else number_strata dep numbers' (suc i) strata

-- the strata that the predicates' edges lead to, in the order of `visit_stratum`
unfoldable pub strata_of : Assoc ℕ ℕ → List ℕ → List ℕ
strata_of numbers [] = []
strata_of numbers (d ∷ ds) = elim (lookup d numbers) [
  | none ↦ strata_of numbers ds
  | some i ↦ i ∷ strata_of numbers ds
]

unfoldable pub strata_from : DepGraph → Assoc ℕ ℕ → List ℕ → List ℕ
unfolding strata_of neighbors
strata_from dep numbers [] = []
strata_from dep numbers (sym ∷ scc) =
    strata_of numbers (neighbors dep sym) ++ strata_from dep numbers scc

unfoldable pub next_strata : DepGraph → Assoc ℕ ℕ → List (List ℕ) → ℕ → List ℕ
unfolding strata_from
next_strata dep numbers strata index = elim (get_elem? strata index) [
  | none ↦ []
  | some scc ↦ strata_from dep numbers scc
]

-- `0..n`
abbrev pub range : ℕ → List ℕ
range zero = []
range (suc n) = range n ++ n ∷ []

-- the loop that calls `visit_stratum`; `none` is a walk deeper than its fuel
unfoldable pub sorted_indices : DepGraph → Assoc ℕ ℕ → List (List ℕ) → Option (List ℕ)
unfolding visit next_strata
sorted_indices dep numbers strata =
    let n = length strata in
    put_out (each (visit (next_strata dep numbers strata) (suc n)) (range n) blank)
