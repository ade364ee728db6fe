-- ===== src/Analysis/Strata/Ranges.antt =====
-- The positions of a list: ranges of them, and permutations.
use mangle_rs.Prelude.{
  ℕ, zero, suc, ◌<◌, ◌≡◌, refl, inl, inr, true, some, List, [], ◌∷◌, arith, Bool-cases, length,
  get_elem?, length-append, ◌==◌, nat_eq, list_eq, pair_eq, int_eq,
}
use mangle_rs.Analysis.Strata.Walk.{member}
use mangle_rs.Analysis.Strata.Members.{member-append}
use mangle_rs.Analysis.Strata.Order.{range}

-- A list of positions that is a permutation of the first n.
pub record Permutes (n : ℕ) (permutation : List ℕ) : Type 0 where
  pub total : (k : ℕ) → k < n → (p : ℕ) × (get_elem? permutation k ≡ some p)
  pub into : (k p : ℕ) → get_elem? permutation k ≡ some p → p < n
  pub injective :
      (k l p : ℕ) → get_elem? permutation k ≡ some p → get_elem? permutation l ≡ some p → k ≡ l

pub in_range :
    {T : Type 0} (xs : List T) (i : ℕ) → i < length xs → (x : T) × (get_elem? xs i ≡ some x)
in_range [] i h = absurd (omega arith)
in_range (x ∷ xs) zero h = (x, refl)
in_range (x ∷ xs) (suc i) h = in_range xs i (omega arith)

pub member-range : (n k : ℕ) → k < n → member (range n) k ≡ true
member-range zero k h = absurd (omega arith)
member-range (suc n) k h = elim (Bool-cases (n == k)) [
  | inl e ↦ ground (arith, member-append (range n) (n ∷ []) k)
  | inr ne ↦ ground (arith, member-append (range n) (n ∷ []) k, member-range n k (ground arith))
]

pub length-range : (n : ℕ) → length (range n) ≡ n
length-range zero = refl
length-range (suc n) = omega (arith, length-append (range n) (n ∷ []), length-range n)

pub member-range_lt : (n k : ℕ) → member (range n) k ≡ true → k < n
member-range_lt zero k h = ground arith
member-range_lt (suc n) k h = elim (Bool-cases (member (range n) k)) [
  | inl p ↦ omega (arith, member-range_lt n k p)
  | inr p ↦ ground (arith, member-append (range n) (n ∷ []) k)
]
