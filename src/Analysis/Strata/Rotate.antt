-- ===== src/Analysis/Strata/Rotate.antt =====
-- crates/mangle-analysis/src/stratification.rs, `apply_permutation_cycle_rotate`. `visited` is the list
-- of the positions that the source marks; `none` is an index out of range or a loop past its fuel.
pub mod Cycle
pub mod Whole
use mangle_rs.Prelude.{
  ℕ, zero, suc, ◌≡◌, refl, ap, ◌≢◌, true, false, Option, none, some, List, [], ◌∷◌, arith, length,
  get_elem?, ◌==◌, nat_eq, list_eq, pair_eq, int_eq,
}
use mangle_rs.Analysis.Strata.Walk.{member}
use mangle_rs.Analysis.Strata.Members.{
  member-head, member-cons, unseen, unseen-mark, unseen_mono, unseen-nil,
}
use mangle_rs.Analysis.Strata.Order.{option_bind, range}

module _ {ℓ} {T : Type ℓ} where
  abbrev pub set : List T → ℕ → T → List T
  set [] i y = []
  set (x ∷ xs) zero y = y ∷ xs
  set (x ∷ xs) (suc i) y = x ∷ set xs i y

  pub length-set : (xs : List T) (i : ℕ) (y : T) → length (set xs i y) ≡ length xs
  length-set [] i y = refl
  length-set (x ∷ xs) zero y = refl
  length-set (x ∷ xs) (suc i) y = ap suc (length-set xs i y)

  pub get_elem?-set_same :
      (xs : List T) (i : ℕ) (y : T) {x : T}
      → get_elem? xs i ≡ some x
      → get_elem? (set xs i y) i ≡ some y
  get_elem?-set_same [] i y h = ground arith
  get_elem?-set_same (x ∷ xs) zero y h = refl
  get_elem?-set_same (x ∷ xs) (suc i) y h = get_elem?-set_same xs i y h

  pub get_elem?-set_other :
      (xs : List T) (i j : ℕ) (y : T) → i ≢ j → get_elem? (set xs i y) j ≡ get_elem? xs j
  get_elem?-set_other [] i j y h = refl
  get_elem?-set_other (x ∷ xs) zero zero y h = absurd (h refl)
  get_elem?-set_other (x ∷ xs) zero (suc j) y h = refl
  get_elem?-set_other (x ∷ xs) (suc i) zero y h = refl
  get_elem?-set_other (x ∷ xs) (suc i) (suc j) y h =
      get_elem?-set_other xs i j y (λ e. h (ap suc e))

  module _ (permutation : List ℕ) where
    -- the inner loop, from position `i` round to it
    unfoldable pub cycle : ℕ → ℕ → List T → List ℕ → ℕ → T → Option (List T × List ℕ)
    cycle i zero arr visited current_idx current_val = none
    cycle i (suc fuel) arr visited current_idx current_val =
        option_bind (get_elem? permutation current_idx) (λ target_idx.
          option_bind (get_elem? arr target_idx) (λ next_val.
            let arr' = set arr target_idx current_val in
            elim (target_idx == i) [
              | true ↦ some (arr', current_idx ∷ visited)
              | false ↦ cycle i fuel arr' (current_idx ∷ visited) target_idx next_val
            ]))

    -- the outer loop; `default` is what `take` leaves
    unfoldable pub rotate : T → List ℕ → List T → List ℕ → Option (List T)
    unfolding cycle
    rotate default [] arr visited = some arr
    rotate default (i ∷ is) arr visited = elim (member visited i) [
      | true ↦ rotate default is arr visited
      | false ↦ option_bind (get_elem? permutation i) (λ p. elim (p == i) [
        | true ↦ rotate default is arr (i ∷ visited)
        | false ↦ option_bind (get_elem? arr i) (λ current_val.
            option_bind (cycle i (suc (length arr)) (set arr i default) visited i current_val)
              (λ (arr', visited'). rotate default is arr' visited'))
      ])
    ]

unfoldable pub apply_permutation_cycle_rotate {ℓ} :
    {T : Type ℓ} → T → List T → List ℕ → Option (List T)
unfolding rotate
apply_permutation_cycle_rotate default arr permutation =
    rotate permutation default (range (length arr)) arr []
