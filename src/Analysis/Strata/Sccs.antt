-- ===== src/Analysis/Strata/Sccs.antt =====
-- `sccs` on the graph of a program: it ends, and finds the layers.
use mathlib.Core.List.{append-nil}
use mangle_rs.Prelude.{
  ℕ, suc, ◌≡◌, sym, ap, ◌∙◌, inl, inr, true, some, List, [], arith, length, nat_eq, list_eq,
  pair_eq, int_eq,
}
use mangle_rs.Prelude.Assoc.{Distinct}
use mangle_rs.Analysis.Strata.Walk.{Walk, member, each, visit}
use mangle_rs.Analysis.Strata.Members.{unseen-nil}
use mangle_rs.Analysis.Strata.Grown.{
  Grown, Grown-refl, Grown-trans, Grown-map, Grown-seen, each_total,
}
use mangle_rs.Analysis.Strata.Finish.{Closed, Reach, here, onward, Good, visit_total}
use mangle_rs.Analysis.Strata.Graph.{DepGraph, keys, transpose, neighbors}
use mangle_rs.Analysis.Strata.Order.{nodes, blank, sccs}
use mangle_rs.Analysis.Strata.Edges.{
  neighbors-transpose, nodes-source, nodes-target, nodes-key, nodes-split,
}
use mangle_rs.Analysis.Strata.Layers.{Layered, pop_all_total}

Good-blank : (next : ℕ → List ℕ) → Good next blank
Good-blank next = record { order = tt; kept = λ x m. m; closed = λ x y m e. ground arith }

module _ (next : ℕ → List ℕ) (us : List ℕ) (closed : Closed next us) where
  Reach-member : {a b : ℕ} → member us a ≡ true → Reach next a b → member us b ≡ true
  unfolding Closed
  Reach-member m here = m
  Reach-member m (onward {b = b} {c = c} p e) = closed b c (Reach-member m p) e

  -- The loop that visits the nodes of a list ends, whatever the list's order.
  pub visits_total :
      (ns : List ℕ)
      → ((n : ℕ) → member ns n ≡ true → member us n ≡ true)
      → (w : Walk) × (each (visit next (suc (length us))) ns blank ≡ some w)
        × Good next w
        × ((x : ℕ) → member w.out x ≡ true → member us x ≡ true)
        × ((x : ℕ) → member w.seen x ≡ member w.out x)
        × ((n : ℕ) → member ns n ≡ true → member w.seen n ≡ true)
  visits_total ns low =
      let P : ℕ → Type 0 = λ x. member us x ≡ true in
      let (w, e, g, good, all) =
        each_total us (visit next (suc (length us))) (suc (length us)) (Good next) (Grown P)
          Grown-refl (λ _ _ _. Grown-trans) (λ _ _. Grown-seen) ns
          (λ n m w small good.
            let (w', e, g, good', seen') =
              visit_total next us closed (suc (length us)) n w (low n m) small good in
            (w', e, Grown-map (λ x. Reach-member (low n m)) g, good', seen'))
          blank (omega (arith, unseen-nil us)) (Good-blank next) in
      let out : (w.out ≡ g.found) = g.out_is ∙ append-nil g.found in
      (
        w,
        e,
        good,
        (λ x m. g.reached x (ap (λ l. member l x) (sym out) ∙ m)),
        (λ x. ground (arith, g.seen_is x, ap (λ l. member l x) out)),
        all,
      )

pub nodes-Closed : (dep : DepGraph) → Closed (neighbors dep) (nodes dep)
unfolding Closed
nodes-Closed dep x y m e = nodes-target dep x y e

pub sccs_total :
    (dep : DepGraph)
    → Distinct dep
    → (strata : List (List ℕ)) × (sccs dep ≡ some strata)
      × Layered (neighbors dep) (nodes dep) [] strata
unfolding sccs
sccs_total dep h =
    let (w, e, good, low, same, all) =
      visits_total (neighbors dep) (nodes dep) (nodes-Closed dep) (keys dep) (nodes-key dep) in
    let (strata, e', l) =
      pop_all_total (neighbors dep) (neighbors (transpose dep)) (nodes dep)
        (λ x y. neighbors-transpose dep x y h) (nodes-source dep) w.out [] good.order low
        (λ y m. elim (nodes-split dep y h m) [
          | inl k ↦ ground (arith, all y k, same y)
          | inr (x, k, to) ↦
              ground (arith, all x k, same x, good.closed x y (sym (same x) ∙ all x k) to, same y)
        ])
        (λ x y m. ground arith) in
    (strata, rw (sccs, e) e', l)
