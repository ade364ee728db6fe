-- ===== src/Analysis/Strata/Members.antt =====
-- Sets as lists: membership, and how many nodes of a list are still to be seen.
use mangle_rs.Prelude.{
  ℕ, suc, ◌≤◌, ◌<◌, ◌≡◌, refl, ap, ◌⊎◌, inl, inr, true, false, ◌||◌, List, [], ◌∷◌, ◌++◌, arith,
  if◌then◌else◌, Bool-cases, length, ◌==◌, ==-refl, ==_iff, nat_eq, list_eq, pair_eq, int_eq,
}
use mangle_rs.Analysis.Strata.Walk.{member}

pub member-append : (xs ys : List ℕ) (x : ℕ) → member (xs ++ ys) x ≡ (member xs x || member ys x)
member-append [] ys x = refl
member-append (y ∷ xs) ys x = ground (arith, member-append xs ys x)

pub member-head : (x : ℕ) (xs : List ℕ) → member (x ∷ xs) x ≡ true
member-head x xs = ground (arith, ==-refl x)

pub member-cons :
    (x y : ℕ) (xs : List ℕ) → member (x ∷ xs) y ≡ true → (x ≡ y) ⊎ (member xs y ≡ true)
member-cons x y xs h = ground (arith, ==_iff x y)

-- the nodes of the list that are not in the set
abbrev pub unseen : List ℕ → List ℕ → ℕ
unseen [] seen = 0
unseen (u ∷ us) seen = if member seen u then unseen us seen else suc (unseen us seen)

pub unseen_mono :
    (us s t : List ℕ)
    → ((x : ℕ) → member s x ≡ true → member t x ≡ true)
    → unseen us t ≤ unseen us s
unseen_mono [] s t h = omega arith
unseen_mono (u ∷ us) s t h = ground (arith, unseen_mono us s t h, h u)

-- Marking a node of the list leaves fewer.
pub unseen-mark :
    (us s : List ℕ) (n : ℕ)
    → member us n ≡ true
    → member s n ≡ false
    → unseen us (n ∷ s) < unseen us s
unseen-mark [] s n h fresh = ground arith
unseen-mark (u ∷ us) s n h fresh = elim (Bool-cases (u == n)) [
  | inl e ↦
      let here : u ≡ n = (==_iff u n).0 e in
      ground (arith, member-head n s, unseen_mono us s (n ∷ s) (λ x p. ground arith))
  | inr ne ↦ ground (arith, unseen-mark us s n (ground arith) fresh, ==_iff n u, ==_iff u n)
]

pub unseen-nil : (us : List ℕ) → unseen us [] ≡ length us
unseen-nil [] = refl
unseen-nil (u ∷ us) = ap suc (unseen-nil us)
