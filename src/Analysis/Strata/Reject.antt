-- ===== src/Analysis/Strata/Reject.antt =====
-- When the loop of `stratify` over the strata rejects them.
use mathlib.Core.List.{Memᴰ}
use mathlib.Core.List.Memᴰ.{head, tail}
use mangle_rs.Prelude.{
  ℕ, suc, ◌<◌, ◌≡◌, refl, ap, ◌∙◌, ◌⊎◌, inl, inr, true, false, some, List, [], ◌∷◌, arith,
  Bool-cases, Option-cases, get_or, ◌==◌, ==_iff, nat_eq, list_eq, pair_eq, Error, ok, err, int_eq,
}
use mangle_rs.Prelude.Assoc.{Assoc, lookup}
use mangle_rs.Analysis.Strata.Walk.{member}
use mangle_rs.Analysis.Strata.Members.{member-head}
use mangle_rs.Analysis.Strata.Finish.{Reach}
use mangle_rs.Analysis.Strata.Graph.{EdgeMap, DepGraph, neighbors}
use mangle_rs.Analysis.Strata.Order.{number, negated_into, rejected, number_strata}
use mangle_rs.Analysis.Strata.Layers.{Layered}
use mangle_rs.Analysis.Strata.Numbers.{lookup-number}

negated_into-found :
    (numbers : Assoc ℕ ℕ) (i : ℕ) (es : EdgeMap)
    → negated_into numbers i es ≡ true
    → (d : ℕ) × Memᴰ (d, true) es × (lookup d numbers ≡ some i)
unfolding negated_into
negated_into-found numbers i [] h = ground arith
negated_into-found numbers i ((d, false) ∷ es) h =
    let (d', m, e) = negated_into-found numbers i es h in (d', tail m, e)
negated_into-found numbers i ((d, true) ∷ es) h = elim (Option-cases (lookup d numbers)) [
  | inl unnumbered ↦
      let (d', m, e) = negated_into-found numbers i es (ground arith) in (d', tail m, e)
  | inr (k, e) ↦ elim (Bool-cases (k == i)) [
    | inl same ↦ (d, head refl, e ∙ ap some ((==_iff k i).0 same))
    | inr other ↦
        let (d', m, e') = negated_into-found numbers i es (ground arith) in (d', tail m, e')
  ]
]

rejected-found :
    (dep : DepGraph) (numbers : Assoc ℕ ℕ) (i : ℕ) (c : List ℕ)
    → rejected dep numbers i c ≡ true
    → (s d : ℕ) × (member c s ≡ true)
      × Memᴰ (d, true) (get_or (lookup s dep) [])
      × (lookup d numbers ≡ some i)
unfolding rejected
rejected-found dep numbers i [] h = ground arith
rejected-found dep numbers i (s ∷ c) h =
    elim (Bool-cases (negated_into numbers i (get_or (lookup s dep) []))) [
      | inl p ↦
          let (d, m, e) = negated_into-found numbers i (get_or (lookup s dep) []) p in
          (s, d, member-head s c, m, e)
      | inr p ↦
          let (s', d, m, entry, e) = rejected-found dep numbers i c (ground arith) in
          (s', d, ground arith, entry, e)
    ]

-- A predicate with a negated edge to one that depends on it.
abbrev pub NegativeCycle : DepGraph → Type 0
NegativeCycle dep =
    (s d : ℕ) × Memᴰ (d, true) (get_or (lookup s dep) []) × Reach (neighbors dep) d s

module _ (dep : DepGraph) (us : List ℕ) where
  pub number_strata_result :
      (seen : List ℕ) (strata : List (List ℕ)) (m : Assoc ℕ ℕ) (i : ℕ)
      → Layered (neighbors dep) us seen strata
      → ((x k : ℕ) → lookup x m ≡ some k → k < i)
      → ((m' : Assoc ℕ ℕ) × (number_strata dep m i strata ≡ ok m'))
        ⊎ ((number_strata dep m i strata ≡ err Error.not_stratified) × NegativeCycle dep)
  unfolding number_strata
  number_strata_result seen [] m i l low = inl (m, refl)
  number_strata_result seen (c ∷ strata) m i (layer, seen', after, l) low =
      elim (Bool-cases (rejected dep (number m i c) i c)) [
        | inl bad ↦
            let (s, d, in_s, entry, e) = rejected-found dep (number m i c) i c bad in
            inr (
              rw (number_strata, bad) refl,
              (s, d, entry, layer.strong d s (ground (arith, lookup-number m i c d, low d i)) in_s),
            )
        | inr good ↦
            let low' : ((x k : ℕ) → lookup x (number m i c) ≡ some k → k < suc i) =
              λ x k e. ground (arith, lookup-number m i c x, low x k) in
            elim (number_strata_result seen' strata (number m i c) (suc i) l low') [
              | inl (m', e) ↦ inl (m', rw (number_strata, good) e)
              | inr (e, cycle) ↦ inr (rw (number_strata, good) e, cycle)
            ]
      ]
