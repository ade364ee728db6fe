-- ===== src/Tests/Strata.antt =====
-- Stratification at concrete programs.
use mathlib.Core.List.Memᴰ.{head, tail}
use mangle_rs.Prelude.{
  ℕ, zero, suc, ◌≤◌, ◌<◌, ◌≡◌, refl, sym, ap, ◌∙◌, ◌⊎◌, true, false, some, List, [], ◌∷◌, arith,
  length, get_elem?, nat_eq, list_eq, pair_eq, Error, some-injective, ok, err, int_eq,
}
use mangle_rs.Analysis.Strata.Graph.{Term, atom, neg_atom, Clause, Program, make_dep_graph}
use mangle_rs.Analysis.Strata.Rotate.{apply_permutation_cycle_rotate}
use mangle_rs.Analysis.Strata.Ranges.{Permutes}
use mangle_rs.Analysis.Strata.Rotate.Whole.{apply_permutation_cycle_rotate-places}
use mangle_rs.Analysis.Strata.Sort.{stratify, pred_to_index}
use mangle_rs.Analysis.Strata.Reject.{NegativeCycle}
use mangle_rs.Analysis.Strata.Depends.{Depends, asks}
use mangle_rs.Analysis.Strata.Correct.{
  stratify_total, stratify-Depends, stratify_once, stratify-NegativeCycle,
}

abbrev rule : ℕ → List Term → Clause
rule s premises = record { head = s; premises = premises; transform = [] }

-- 1 needs 2 and not 4; 2 and 3 need each other; 4 needs the stored 9
abbrev layered : Program
layered = record {
  ext_preds = 9 ∷ [];
  rules =
      (1, rule 1 (atom 2 ∷ neg_atom 4 ∷ []) ∷ [])
      ∷ (2, rule 2 (atom 3 ∷ []) ∷ [])
      ∷ (3, rule 3 (atom 2 ∷ []) ∷ [])
      ∷ (4, rule 4 (atom 9 ∷ []) ∷ [])
      ∷ [];
}

-- 1 needs not 2, and 2 needs 1
abbrev tangled : Program
tangled = record {
  ext_preds = [];
  rules = (1, rule 1 (neg_atom 2 ∷ []) ∷ []) ∷ (2, rule 2 (atom 1 ∷ []) ∷ []) ∷ [];
}

abbrev layers : List (List ℕ)
layers = (3 ∷ 2 ∷ []) ∷ (4 ∷ []) ∷ (1 ∷ []) ∷ []

layered_strata : stratify layered ≡ some (ok layers)
unfolding stratify
layered_strata = refl

tangled_strata : stratify tangled ≡ some (err Error.not_stratified)
unfolding stratify
tangled_strata = refl

abbrev first : Clause
first = rule 1 (atom 2 ∷ neg_atom 4 ∷ [])

needs_negated : Depends layered 1 4 true
unfolding asks
needs_negated = record {
  rule = first ∷ [];
  clause = first;
  premise = neg_atom 4;
  of_rule = head refl;
  of_clause = head refl;
  of_premise = tail (head refl);
  asked = refl;
  derived = refl;
}

layers-Depends :
    (i j : ℕ) × (pred_to_index layers 1 ≡ some i)
    × (pred_to_index layers 4 ≡ some j)
    × (j ≤ i)
    × ((true ≡ false) ⊎ (j < i))
layers-Depends = stratify-Depends layered layers layered_strata 1 4 true needs_negated

layers_once : pred_to_index layers 2 ≡ some 0
layers_once = stratify_once layered layers layered_strata 0 (3 ∷ 2 ∷ []) 2 refl refl

tangled-NegativeCycle : NegativeCycle (make_dep_graph tangled)
tangled-NegativeCycle = stratify-NegativeCycle tangled Error.not_stratified tangled_strata

layered_returns :
    ((strata : List (List ℕ)) × (stratify layered ≡ some (ok strata)))
    ⊎ (stratify layered ≡ some (err Error.not_stratified))
layered_returns = stratify_total layered

turned-Permutes : Permutes 3 (2 ∷ 0 ∷ 1 ∷ [])
turned-Permutes = record { total = total; into = into; injective = injective }
  where
    total : (k : ℕ) → k < 3 → (p : ℕ) × (get_elem? (2 ∷ 0 ∷ 1 ∷ []) k ≡ some p)
    total zero h = (2, refl)
    total (suc zero) h = (0, refl)
    total (suc (suc zero)) h = (1, refl)
    total (suc (suc (suc k))) h = absurd (omega arith)

    into : (k p : ℕ) → get_elem? (2 ∷ 0 ∷ 1 ∷ []) k ≡ some p → p < 3
    into zero p h = ground arith
    into (suc zero) p h = ground arith
    into (suc (suc zero)) p h = ground arith
    into (suc (suc (suc k))) p h = ground arith

    injective :
        (k l p : ℕ)
        → get_elem? (2 ∷ 0 ∷ 1 ∷ []) k ≡ some p
        → get_elem? (2 ∷ 0 ∷ 1 ∷ []) l ≡ some p
        → k ≡ l
    injective k l p h h' = at k p h ∙ sym (at l p h')
      where
        back : ℕ → ℕ
        back zero = 1
        back (suc zero) = 2
        back (suc (suc p)) = 0

        at : (k p : ℕ) → get_elem? (2 ∷ 0 ∷ 1 ∷ []) k ≡ some p → k ≡ back p
        at zero p h = ap back (some-injective h)
        at (suc zero) p h = ap back (some-injective h)
        at (suc (suc zero)) p h = ap back (some-injective h)
        at (suc (suc (suc k))) p h = ground arith

turned :
    (arr' : List ℕ) × (apply_permutation_cycle_rotate 0 (10 ∷ 20 ∷ 30 ∷ []) (2 ∷ 0 ∷ 1 ∷ [])
      ≡ some arr')
    × (length arr' ≡ 3)
    × (get_elem? arr' 2 ≡ some 10)
turned =
    apply_permutation_cycle_rotate-places 0 (10 ∷ 20 ∷ 30 ∷ []) (2 ∷ 0 ∷ 1 ∷ []) turned-Permutes 0 2
      (omega arith) refl
