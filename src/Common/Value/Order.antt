-- ===== src/Common/Value/Order.antt =====
-- `Ord for Value` of crates/mangle-common/src/lib.rs.
use mangle_rs.Prelude.{◌≡◌, refl, ℤ, Ordering, compare, compare_ℤ, ℕ, Str, [], ◌∷◌, arith}
use mangle_rs.Common.Value.{
  Value, number, float, string, name, time, duration, compound, null, Values, nil, cons, cmp,
  cmp_values, cmp_str, total_cmp, total_key, then_with, rank,
}

abbrev pub flip : Ordering → Ordering
flip Ordering.lt = Ordering.gt
flip Ordering.eq = Ordering.eq
flip Ordering.gt = Ordering.lt

flip-compare : (a b : ℕ) → compare b a ≡ flip (compare a b)
flip-compare a b = ground arith

flip-compare_ℤ : (a b : ℤ) → compare_ℤ b a ≡ flip (compare_ℤ a b)
flip-compare_ℤ a b = flip-compare _ _

flip-then_with : (a b : Ordering) → flip (then_with a b) ≡ then_with (flip a) (flip b)
flip-then_with Ordering.lt b = refl
flip-then_with Ordering.eq b = refl
flip-then_with Ordering.gt b = refl

flip-cmp_str : (a b : Str) → cmp_str b a ≡ flip (cmp_str a b)
unfolding cmp_str
flip-cmp_str [] [] = refl
flip-cmp_str [] (b ∷ bs) = refl
flip-cmp_str (a ∷ xs) [] = refl
flip-cmp_str (a ∷ xs) (b ∷ bs) = rw (flip-compare a b, flip-cmp_str xs bs, flip-then_with)

flip-total_cmp : (a b : ℕ) → total_cmp b a ≡ flip (total_cmp a b)
unfolding total_cmp
flip-total_cmp a b = flip-compare_ℤ (total_key a) (total_key b)

module _ (as_f64 : ℤ → ℕ) where
  mutual
    unfolding cmp cmp_values total_cmp

    flip-cmp_lem : (a b : Value) → cmp as_f64 b a ≡ flip (cmp as_f64 a b)
    flip-cmp_lem (number a) (number b) = flip-compare_ℤ a b
    flip-cmp_lem (float a) (float b) = flip-total_cmp a b
    flip-cmp_lem (number a) (float b) = flip-total_cmp (as_f64 a) b
    flip-cmp_lem (float a) (number b) = flip-total_cmp a (as_f64 b)
    flip-cmp_lem (string a) (string b) = flip-cmp_str a b
    flip-cmp_lem (name a) (name b) = flip-cmp_str a b
    flip-cmp_lem (time a) (time b) = flip-compare_ℤ a b
    flip-cmp_lem (duration a) (duration b) = flip-compare_ℤ a b
    flip-cmp_lem (duration a) (number b) = flip-compare_ℤ a b
    flip-cmp_lem (number a) (duration b) = flip-compare_ℤ a b
    flip-cmp_lem (time a) (number b) = flip-compare_ℤ a b
    flip-cmp_lem (number a) (time b) = flip-compare_ℤ a b
    flip-cmp_lem (compound k a) (compound l b) =
        rw (flip-compare (rank k) (rank l), flip-cmp_values a b, flip-then_with)
    flip-cmp_lem null null = refl
    flip-cmp_lem _ _ = refl

    flip-cmp_values : (a b : Values) → cmp_values as_f64 b a ≡ flip (cmp_values as_f64 a b)
    flip-cmp_values nil nil = refl
    flip-cmp_values nil (cons b bs) = refl
    flip-cmp_values (cons a xs) nil = refl
    flip-cmp_values (cons a xs) (cons b bs) =
        rw (flip-cmp_lem a b, flip-cmp_values xs bs, flip-then_with)

-- The order is antisymmetric as a comparison: swapping the operands flips the answer.
pub cmp-flip : (as_f64 : ℤ → ℕ) (a b : Value) → cmp as_f64 b a ≡ flip (cmp as_f64 a b)
cmp-flip as_f64 a b = flip-cmp_lem as_f64 a b

-- A number, any text and any smaller time compare in a circle, each below the next: the order is
-- not transitive across these variants.
pub cmp_cycle :
    (as_f64 : ℤ → ℕ) (n t : ℤ) (s : Str)
    → compare_ℤ t n ≡ Ordering.lt
    → (cmp as_f64 (number n) (string s) ≡ Ordering.lt)
      × (cmp as_f64 (string s) (time t) ≡ Ordering.lt)
      × (cmp as_f64 (time t) (number n) ≡ Ordering.lt)
unfolding cmp
cmp_cycle as_f64 n t s h = (refl, refl, h)
