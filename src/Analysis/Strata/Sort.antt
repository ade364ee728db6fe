-- ===== src/Analysis/Strata/Sort.antt =====
-- crates/mangle-analysis/src/stratification.rs: `sort_result`, `stratify` and `pred_to_index`. The map
-- that `sort_result` returns is left out: `stratify` drops it.
use mangle_rs.Prelude.{
  ℕ, zero, suc, sym, Option, none, some, List, [], ◌∷◌, ◌++◌, if◌then◌else◌, length, get_elem?,
  nat_eq, list_eq, pair_eq, Outcome, ok, err, panic, int_eq,
}
use mangle_rs.Prelude.Assoc.{Assoc}
use mangle_rs.Analysis.Strata.Walk.{member}
use mangle_rs.Analysis.Strata.Graph.{Program, DepGraph, make_dep_graph}
use mangle_rs.Analysis.Strata.Order.{option_bind, sccs, number_strata, sorted_indices, range}
use mangle_rs.Analysis.Strata.Rotate.{set, apply_permutation_cycle_rotate}

abbrev pub reverse : List ℕ → List ℕ
reverse [] = []
reverse (x ∷ xs) = reverse xs ++ x ∷ []

-- `vec![0; n]`
abbrev pub zeros : ℕ → List ℕ
zeros zero = []
zeros (suc n) = 0 ∷ zeros n

-- the loop over the new positions; `none` is an index out of range
unfoldable pub permute : List ℕ → List ℕ → List ℕ → Option (List ℕ)
permute sorted [] permutation = some permutation
permute sorted (new_idx ∷ rest) permutation = option_bind (get_elem? sorted new_idx) (λ old_idx.
    option_bind (get_elem? permutation old_idx)
      (λ _. permute sorted rest (set permutation old_idx new_idx)))

unfoldable pub sort_result : DepGraph → List (List ℕ) → Assoc ℕ ℕ → Option (List (List ℕ))
unfolding sorted_indices permute apply_permutation_cycle_rotate
sort_result dep strata numbers = option_bind (sorted_indices dep numbers strata) (λ out.
    option_bind (permute (reverse out) (range (length strata)) (zeros (length strata)))
      (apply_permutation_cycle_rotate [] strata))

unfoldable pub stratify : Program → Option (Outcome (List (List ℕ)))
unfolding make_dep_graph sccs number_strata sort_result
stratify program =
    let dep = make_dep_graph program in
    option_bind (sccs dep) (λ strata. elim (number_strata dep [] 0 strata) [
      | ok numbers ↦ option_bind (sort_result dep strata numbers) (λ sorted. some (ok sorted))
      | err e ↦ some (err e)
      | panic ↦ some panic
    ])

unfoldable pub pred_to_index : List (List ℕ) → ℕ → Option ℕ
pred_to_index [] sym = none
pred_to_index (c ∷ strata) sym =
    if member c sym
    then some 0
    else elim (pred_to_index strata sym) [ none ↦ none | some i ↦ some (suc i) ]
