-- ===== src/Analysis/Strata/Sorted.antt =====
-- `sort_result` on the layers: it ends, and moves each to the height at which its walk finished it.
use mangle_rs.Prelude.{
  ℕ, suc, ◌≤◌, ◌<◌, ◌≡◌, refl, sym, ap, ◌∙◌, subst, ◌≢◌, inl, inr, true, some, List, [], ◌∷◌, arith,
  Bool-cases, Option-cases, length, get_elem?, lt_of_get_elem?, ◌==◌, ==-refl, ==_iff, nat_eq,
  list_eq, pair_eq, some-injective, int_eq,
}
use mangle_rs.Prelude.Assoc.{Assoc, lookup}
use mangle_rs.Analysis.Strata.Walk.{member, visit, each}
use mangle_rs.Analysis.Strata.Members.{member-append}
use mangle_rs.Analysis.Strata.Finish.{Closed}
use mangle_rs.Analysis.Strata.Graph.{DepGraph, neighbors}
use mangle_rs.Analysis.Strata.Order.{
  strata_of, strata_from, next_strata, range, blank, put_out, option_bind, sorted_indices,
}
use mangle_rs.Analysis.Strata.Ranges.{length-range, member-range, member-range_lt}
use mangle_rs.Analysis.Strata.Rotate.Whole.{apply_permutation_cycle_rotate_total}
use mangle_rs.Analysis.Strata.Layers.{Layered}
use mangle_rs.Analysis.Strata.Sccs.{visits_total}
use mangle_rs.Analysis.Strata.Sort.{sort_result, pred_to_index}
use mangle_rs.Analysis.Strata.Heights.{PostOrder-Nodup, height, height-edge}
use mangle_rs.Analysis.Strata.Permute.{permute-reverse}
use mangle_rs.Analysis.Strata.Numbers.{
  pred_to_index-get_elem?, pred_to_index-found, get_elem?-pred_to_index, pred_to_index-le,
}

strata_of-found :
    (numbers : Assoc ℕ ℕ) (ds : List ℕ) (j : ℕ)
    → member (strata_of numbers ds) j ≡ true
    → (d : ℕ) × (member ds d ≡ true) × (lookup d numbers ≡ some j)
unfolding strata_of
strata_of-found numbers [] j h = ground arith
strata_of-found numbers (d ∷ ds) j h = elim (Option-cases (lookup d numbers)) [
  | inl e ↦ let (d', m, e') = strata_of-found numbers ds j (ground arith) in (d', ground arith, e')
  | inr (i, e) ↦ elim (Bool-cases (i == j)) [
    | inl same ↦ (d, ground (arith, ==-refl d), e ∙ ap some ((==_iff i j).0 same))
    | inr other ↦
        let (d', m, e') = strata_of-found numbers ds j (ground arith) in (d', ground arith, e')
  ]
]

strata_of-hit :
    (numbers : Assoc ℕ ℕ) (ds : List ℕ) (d j : ℕ)
    → member ds d ≡ true
    → lookup d numbers ≡ some j
    → member (strata_of numbers ds) j ≡ true
unfolding strata_of
strata_of-hit numbers [] d j m e = ground arith
strata_of-hit numbers (x ∷ ds) d j m e =
    ground (arith, strata_of-hit numbers ds d j, ==_iff x d, ==-refl j, ap (λ z. lookup z numbers))

strata_from-found :
    (dep : DepGraph) (numbers : Assoc ℕ ℕ) (c : List ℕ) (j : ℕ)
    → member (strata_from dep numbers c) j ≡ true
    → (x d : ℕ) × (member c x ≡ true)
      × (member (neighbors dep x) d ≡ true)
      × (lookup d numbers ≡ some j)
unfolding strata_from
strata_from-found dep numbers [] j h = ground arith
strata_from-found dep numbers (x ∷ c) j h =
    elim (Bool-cases (member (strata_of numbers (neighbors dep x)) j)) [
      | inl p ↦
          let (d, m, e) = strata_of-found numbers (neighbors dep x) j p in
          (x, d, ground (arith, ==-refl x), m, e)
      | inr p ↦
          let (y, d, my, m, e) = strata_from-found dep numbers c j (
            ground (
              arith,
              member-append (strata_of numbers (neighbors dep x)) (strata_from dep numbers c) j,
            )) in
          (y, d, ground arith, m, e)
    ]

strata_from-hit :
    (dep : DepGraph) (numbers : Assoc ℕ ℕ) (c : List ℕ) (x d j : ℕ)
    → member c x ≡ true
    → member (neighbors dep x) d ≡ true
    → lookup d numbers ≡ some j
    → member (strata_from dep numbers c) j ≡ true
unfolding strata_from
strata_from-hit dep numbers [] x d j mx m e = ground arith
strata_from-hit dep numbers (y ∷ c) x d j mx m e =
    member-append (strata_of numbers (neighbors dep y)) (strata_from dep numbers c) j
    ∙ elim (Bool-cases (y == x)) [
      | inl same ↦
          let m' : member (neighbors dep y) d ≡ true =
            ap (λ z. member (neighbors dep z) d) ((==_iff y x).0 same) ∙ m in
          ground (arith, strata_of-hit numbers (neighbors dep y) d j m' e)
      | inr other ↦ ground (arith, strata_from-hit dep numbers c x d j)
    ]

module _ (dep : DepGraph) (us : List ℕ) (strata : List (List ℕ)) (numbers : Assoc ℕ ℕ)
    (layered : Layered (neighbors dep) us [] strata)
    (numbered : (x : ℕ) → lookup x numbers ≡ pred_to_index strata x) where
  abbrev steps : ℕ → List ℕ
  steps = next_strata dep numbers strata

  -- An edge between strata is an edge between their predicates.
  steps-found :
      (i j : ℕ)
      → member (steps i) j ≡ true
      → (x d : ℕ) × (pred_to_index strata x ≡ some i)
        × (member (neighbors dep x) d ≡ true)
        × (pred_to_index strata d ≡ some j)
  unfolding next_strata
  steps-found i j h = elim (Option-cases (get_elem? strata i)) [
    | inl e ↦ ground arith
    | inr (c, g) ↦
        let (x, d, mx, m, e) = strata_from-found dep numbers c j (ground arith) in
        (
          x,
          d,
          (get_elem?-pred_to_index (neighbors dep) us [] strata layered x i c g mx).1,
          m,
          sym (numbered d) ∙ e,
        )
  ]

  pub steps-hit :
      (x d i j : ℕ)
      → pred_to_index strata x ≡ some i
      → member (neighbors dep x) d ≡ true
      → pred_to_index strata d ≡ some j
      → member (steps i) j ≡ true
  unfolding next_strata
  steps-hit x d i j hx m hd =
      let (c, g, mx) = pred_to_index-get_elem? strata x i hx in
      let at = strata_from-hit dep numbers c x d j mx m (numbered d ∙ hd) in ground arith

  steps_up : (i j : ℕ) → member (steps i) j ≡ true → i ≤ j
  steps_up i j h =
      let (x, d, hx, m, hd) = steps-found i j h in
      let (i', hx', le) = pred_to_index-le (neighbors dep) us [] strata layered x d j m hd refl in
      omega (arith, some-injective (sym hx ∙ hx'))

  index_small : (x i : ℕ) → pred_to_index strata x ≡ some i → i < length strata
  index_small x i h =
      let (c, g, m) = pred_to_index-get_elem? strata x i h in lt_of_get_elem? strata i g

  steps-Closed : Closed steps (range (length strata))
  unfolding Closed
  steps-Closed i j mi h =
      let (x, d, hx, m, hd) = steps-found i j h in
      member-range (length strata) j (index_small d j hd)

  -- Where the elements go, so do the predicates of the strata.
  moved :
      (sorted : List (List ℕ)) (place : ℕ → ℕ)
      → length sorted ≡ length strata
      → ((i : ℕ) → i < length strata → get_elem? sorted (place i) ≡ get_elem? strata i)
      → ((p : ℕ) → p < length strata → (i : ℕ) × (i < length strata) × (p ≡ place i))
      → (x i : ℕ) → pred_to_index strata x ≡ some i
      → pred_to_index sorted x ≡ some (place i)
  moved sorted place len put from x i h =
      let (c, g, m) = pred_to_index-get_elem? strata x i h in
      let (p, e) = pred_to_index-found sorted (place i) x c (put i (index_small x i h) ∙ g) m in
      let (c', g', m') = pred_to_index-get_elem? sorted x p e in
      let (i', small, q) = from p (omega (arith, len, lt_of_get_elem? sorted p g')) in
      let here' = sym (put i' small) ∙ ap (get_elem? sorted) (sym q) ∙ g' in
      let h' = (get_elem?-pred_to_index (neighbors dep) us [] strata layered x i' c' here' m').1 in
      e ∙ ap some (q ∙ ap place (some-injective (sym h' ∙ h)))

  moved_back :
      (sorted : List (List ℕ)) (place : ℕ → ℕ)
      → length sorted ≡ length strata
      → ((i : ℕ) → i < length strata → get_elem? sorted (place i) ≡ get_elem? strata i)
      → ((p : ℕ) → p < length strata → (i : ℕ) × (i < length strata) × (p ≡ place i))
      → (x p : ℕ) (c : List ℕ) → get_elem? sorted p ≡ some c
      → member c x ≡ true
      → pred_to_index sorted x ≡ some p
  moved_back sorted place len put from x p c g m =
      let (i, small, q) = from p (omega (arith, len, lt_of_get_elem? sorted p g)) in
      let stood = sym (put i small) ∙ ap (get_elem? sorted) (sym q) ∙ g in
      let h = (get_elem?-pred_to_index (neighbors dep) us [] strata layered x i c stood m).1 in
      moved sorted place len put from x i h ∙ ap some (sym q)

  -- `sort_result` returns the strata in an order in which each comes after those it has edges to.
  pub sort_result_total :
      (sorted : List (List ℕ)) × (place : ℕ → ℕ) × (sort_result dep strata numbers ≡ some sorted)
      × ((x i : ℕ) → pred_to_index strata x ≡ some i → pred_to_index sorted x ≡ some (place i))
      × ((x d i j : ℕ)
          → pred_to_index strata x ≡ some i
          → member (neighbors dep x) d ≡ true
          → pred_to_index strata d ≡ some j
          → i ≢ j
          → place j < place i)
      × ((x p : ℕ) (c : List ℕ)
          → get_elem? sorted p ≡ some c
          → member c x ≡ true
          → pred_to_index sorted x ≡ some p)
  unfolding sort_result sorted_indices
  sort_result_total =
      let n = length strata in
      let (w, e, good, low, same, all) =
        visits_total steps (range n) steps-Closed (range n) (λ k m. m) in
      let full : ((i : ℕ) → i < n → member w.out i ≡ true) =
        λ i h. sym (same i) ∙ all i (member-range n i h) in
      let (perm, e', permutes, at, from) =
        permute-reverse n w.out (PostOrder-Nodup steps w.out good.order)
          (λ i m. member-range_lt n i (low i m)) full in
      let (sorted, e'', len, put) = apply_permutation_cycle_rotate_total [] strata perm permutes in
      let ended =
        subst (λ k. each (visit steps (suc k)) (range n) blank ≡ some w) (length-range n) e in
      (
        sorted,
        height w.out,
        rw (sort_result, ended, put_out, option_bind, e', option_bind) e'',
        moved sorted (height w.out) len (λ i h. put i (height w.out i) (at i h) h) from,
        (λ x d i j hx m hd ne.
            height-edge steps steps_up w.out good.order i j (full i (index_small x i hx))
              (full j (index_small d j hd)) (steps-hit x d i j hx m hd) ne),
        moved_back sorted (height w.out) len (λ i h. put i (height w.out i) (at i h) h) from,
      )
