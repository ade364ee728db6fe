-- ===== src/Analysis/Strata/Heights.antt =====
-- Where a node stands in the order of finishing, which is the reverse of a walk's output.
use mangle_rs.Prelude.{
  ℕ, zero, suc, ◌+◌, ◌≤◌, ◌<◌, ◌≡◌, refl, sym, ap, ◌∙◌, subst, ◌≢◌, inl, inr, true, false, some,
  List, [], ◌∷◌, ◌++◌, arith, if◌then◌else◌, Bool-cases, length, get_elem?, length-append,
  get_elem?-append, get_elem?-append_lt, get_elem?-push, ◌==◌, ==_iff, nat_eq, list_eq, pair_eq,
  int_eq,
}
use mangle_rs.Analysis.Strata.Walk.{member}
use mangle_rs.Analysis.Strata.Members.{member-append, member-head, unseen, unseen-mark, unseen-nil}
use mangle_rs.Analysis.Strata.Finish.{Reach, here, onward, PostOrder}
use mangle_rs.Analysis.Strata.Order.{range}
use mangle_rs.Analysis.Strata.Ranges.{member-range_lt}
use mangle_rs.Analysis.Strata.Sort.{reverse}

abbrev pub Nodup : List ℕ → Type 0
Nodup [] = Unit
Nodup (x ∷ xs) = (member xs x ≡ false) × Nodup xs

pub PostOrder-Nodup : (next : ℕ → List ℕ) (xs : List ℕ) → PostOrder next xs → Nodup xs
PostOrder-Nodup next [] h = tt
PostOrder-Nodup next (x ∷ xs) (f, h) = (f.new, PostOrder-Nodup next xs h)

Nodup-push : (xs : List ℕ) (x : ℕ) → Nodup xs → member xs x ≡ false → Nodup (xs ++ x ∷ [])
Nodup-push [] x h n = (refl, tt)
Nodup-push (y ∷ xs) x (new, h) n = (
  ground (arith, member-append xs (x ∷ []) y, ==_iff x y, ==_iff y x),
  Nodup-push xs x h (ground arith),
)

pub Nodup-range : (n : ℕ) → Nodup (range n)
Nodup-range zero = tt
Nodup-range (suc n) = Nodup-push (range n) n (Nodup-range n) (ground (arith, member-range_lt n n))

-- A list without repetitions is no longer than one that has its elements.
unseen_left :
    (us xs : List ℕ)
    → Nodup xs
    → ((x : ℕ) → member xs x ≡ true → member us x ≡ true)
    → unseen us xs + length xs ≤ length us
unseen_left us [] h low = omega (arith, unseen-nil us)
unseen_left us (x ∷ xs) (new, h) low = omega (
  arith,
  unseen-mark us xs x (low x (member-head x xs)) new,
  unseen_left us xs h (λ y m. low y (ground arith)),
)

pub Nodup-length :
    (us xs : List ℕ)
    → Nodup xs
    → ((x : ℕ) → member xs x ≡ true → member us x ≡ true)
    → length xs ≤ length us
Nodup-length us xs h low = omega (arith, unseen_left us xs h low)

-- how many finished before it
abbrev pub height : List ℕ → ℕ → ℕ
height [] i = 0
height (x ∷ xs) i = if x == i then length xs else height xs i

pub height-lt : (xs : List ℕ) (i : ℕ) → member xs i ≡ true → height xs i < length xs
height-lt [] i m = ground arith
height-lt (x ∷ xs) i m = ground (arith, height-lt xs i)

pub length-reverse : (xs : List ℕ) → length (reverse xs) ≡ length xs
length-reverse [] = refl
length-reverse (x ∷ xs) = omega (arith, length-append (reverse xs) (x ∷ []), length-reverse xs)

pub get_elem?-reverse-height :
    (xs : List ℕ) (i : ℕ) → member xs i ≡ true → get_elem? (reverse xs) (height xs i) ≡ some i
get_elem?-reverse-height [] i m = ground arith
get_elem?-reverse-height (x ∷ xs) i m = elim (Bool-cases (x == i)) [
  | inl e ↦ rw e (
      ap (get_elem? (reverse xs ++ x ∷ [])) (sym (length-reverse xs))
      ∙ get_elem?-append (reverse xs) [] x
      ∙ ap some ((==_iff x i).0 e))
  | inr ne ↦
      let m' : member xs i ≡ true = ground arith in
      rw ne (
        get_elem?-append_lt (reverse xs) (x ∷ []) (height xs i)
          (omega (arith, height-lt xs i m', length-reverse xs))
        ∙ get_elem?-reverse-height xs i m')
]

pub height-get_elem?-reverse :
    (xs : List ℕ) (k i : ℕ)
    → Nodup xs
    → get_elem? (reverse xs) k ≡ some i
    → (member xs i ≡ true) × (k ≡ height xs i)
height-get_elem?-reverse [] k i h e = ground arith
height-get_elem?-reverse (x ∷ xs) k i (new, h) e = elim (get_elem?-push (reverse xs) x k e) [
  | inl (p, q) ↦ ground (arith, length-reverse xs, ==_iff x i)
  | inr e' ↦
      let (m, p) = height-get_elem?-reverse xs k i h e' in
      ground (arith, ==_iff x i, new, m, p, subst (λ z. member xs z ≡ false))
]

module _ (next : ℕ → List ℕ) (up : (i j : ℕ) → member (next i) j ≡ true → i ≤ j) where
  Reach-le : {a b : ℕ} → Reach next a b → a ≤ b
  Reach-le here = omega arith
  Reach-le (onward {b = b} {c = c} p e) = omega (arith, Reach-le p, up b c e)

  -- Where edges never lead down, a node finishes after the others it has edges to.
  pub height-edge :
      (xs : List ℕ)
      → PostOrder next xs
      → (i j : ℕ) → member xs i ≡ true
      → member xs j ≡ true
      → member (next i) j ≡ true
      → i ≢ j
      → height xs j < height xs i
  height-edge [] h i j mi mj e ne = ground arith
  height-edge (x ∷ xs) (f, h) i j mi mj e ne = elim (Bool-cases (x == i)) [
    | inl first ↦ ground (arith, height-lt xs j, ==_iff x j, ==_iff x i)
    | inr later ↦
        let inside : member xs i ≡ true = ground arith in
        elim (Bool-cases (x == j)) [
          | inl last ↦
              let to_x : member (next i) x ≡ true =
                subst (λ z. member (next i) z ≡ true) (sym ((==_iff x j).0 last)) e in
              absurd (elim (Bool-cases (member f.inner i)) [
                | inl p ↦
                    ne (omega (arith, Reach-le (f.reached i p), up i x to_x, (==_iff x j).0 last))
                | inr p ↦ ground (
                  arith,
                  f.apart i x
                      (ground
                        (arith, ap (λ l. member l i) f.parts, member-append f.inner f.outer i))
                      to_x,
                  member-head x f.inner,
                )
              ])
          | inr other ↦ ground (arith, height-edge xs h i j inside (ground arith) e ne)
        ]
  ]
