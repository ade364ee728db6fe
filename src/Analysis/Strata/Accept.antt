-- ===== src/Analysis/Strata/Accept.antt =====
-- When the loop of `stratify` over the strata accepts them, and what its numbers are then.
use mangle_rs.Prelude.{
  ℕ, suc, ◌+◌, ◌≡◌, sym, ap, ◌≢◌, inl, inr, true, false, Option, none, some, List, [], ◌∷◌, arith,
  Bool-cases, Option-cases, nat_eq, list_eq, pair_eq, ok-injective, ok, int_eq,
}
use mangle_rs.Prelude.Assoc.{Assoc, lookup}
use mangle_rs.Analysis.Strata.Walk.{member}
use mangle_rs.Analysis.Strata.Graph.{DepGraph, neighbors}
use mangle_rs.Analysis.Strata.Order.{number, rejected, number_strata}
use mangle_rs.Analysis.Strata.Edges.{edge}
use mangle_rs.Analysis.Strata.Layers.{Layered}
use mangle_rs.Analysis.Strata.Sort.{pred_to_index}
use mangle_rs.Analysis.Strata.Numbers.{pred_to_index-seen, lookup-number, rejected-hit}

-- the number from `i` on of a stratum at this position, or what it was before
abbrev pub offset : ℕ → Option ℕ → Option ℕ → Option ℕ
offset i none before = before
offset i (some k) before = some (i + k)

accepted_first :
    (dep : DepGraph) (m m' : Assoc ℕ ℕ) (i : ℕ) (c : List ℕ) (strata : List (List ℕ))
    → number_strata dep m i (c ∷ strata) ≡ ok m'
    → (rejected dep (number m i c) i c ≡ false)
      × (number_strata dep (number m i c) (suc i) strata ≡ ok m')
unfolding number_strata
accepted_first dep m m' i c strata e = ground arith

module _ (dep : DepGraph) (us : List ℕ) where
  pub number_strata-ok :
      (seen : List ℕ) (strata : List (List ℕ)) (m m' : Assoc ℕ ℕ) (i : ℕ)
      → Layered (neighbors dep) us seen strata
      → number_strata dep m i strata ≡ ok m'
      → (x : ℕ) → lookup x m' ≡ offset i (pred_to_index strata x) (lookup x m)
  unfolding number_strata pred_to_index
  number_strata-ok seen [] m m' i l e x = ap (lookup x) (sym (ok-injective e))
  number_strata-ok seen (c ∷ strata) m m' i (layer, seen', after, l) e x =
      let (_, e') = accepted_first dep m m' i c strata e in
      let ih = number_strata-ok seen' strata (number m i c) m' (suc i) l e' x in
      elim (Bool-cases (member c x)) [
        | inl p ↦
            let q =
              pred_to_index-seen (neighbors dep) us seen' strata l x (ground (arith, after x)) in
            ground (arith, lookup-number m i c x)
        | inr p ↦ ground (arith, lookup-number m i c x)
      ]

  -- No negated edge stays inside a stratum of an accepted program.
  pub number_strata-apart :
      (seen : List ℕ) (strata : List (List ℕ)) (m m' : Assoc ℕ ℕ) (i : ℕ)
      → Layered (neighbors dep) us seen strata
      → number_strata dep m i strata ≡ ok m'
      → (s d k : ℕ) → edge dep s d ≡ some true
      → pred_to_index strata s ≡ some k
      → pred_to_index strata d ≢ some k
  unfolding pred_to_index
  number_strata-apart seen [] m m' i l e s d k h p q = ground arith
  number_strata-apart seen (c ∷ strata) m m' i (layer, seen', after, l) e s d k h p q =
      let (kept, e') = accepted_first dep m m' i c strata e in
      elim (Bool-cases (member c s)) [
        | inl in_s ↦ ground (
          arith,
          rejected-hit dep (number m i c) i s d c in_s h,
          lookup-number m i c d,
          pred_to_index strata d,
        )
        | inr out_s ↦ elim (Option-cases (pred_to_index strata s)) [
          | inl none_s ↦ ground arith
          | inr (k', some_s) ↦ ground (
            arith,
            number_strata-apart seen' strata (number m i c) m' (suc i) l e' s d k' h some_s,
          )
        ]
      ]
