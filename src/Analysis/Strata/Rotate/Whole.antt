-- ===== src/Analysis/Strata/Rotate/Whole.antt =====
-- The outer loop of `apply_permutation_cycle_rotate`, and the whole function.
use mangle_rs.Prelude.{
  ℕ, suc, ◌<◌, ◌≡◌, refl, sym, ap, ◌∙◌, subst, inl, inr, true, false, some, List, [], ◌∷◌, arith,
  Bool-cases, length, get_elem?, ◌==◌, ==_iff, nat_eq, list_eq, pair_eq, some-injective, int_eq,
}
use mangle_rs.Analysis.Strata.Walk.{member}
use mangle_rs.Analysis.Strata.Members.{member-head, member-cons, unseen, unseen_mono, unseen-nil}
use mangle_rs.Analysis.Strata.Order.{option_bind, range}
use mangle_rs.Analysis.Strata.Ranges.{
  Permutes, in_range, length-range, member-range, member-range_lt,
}
use mangle_rs.Analysis.Strata.Rotate.{
  set, length-set, get_elem?-set_other, cycle, rotate, apply_permutation_cycle_rotate,
}
use mangle_rs.Analysis.Strata.Rotate.Cycle.{Turned, Turning, cycle_total}

module _ {T : Type 0} (orig : List T) (permutation : List ℕ)
    (perm : Permutes (length orig) permutation) where
  begin_cycle :
      (i : ℕ) (default : T) (arr : List T) (visited : List ℕ) (val : T)
      → Turned orig permutation perm arr visited
      → member visited i ≡ false
      → get_elem? arr i ≡ some val
      → Turning orig permutation perm i (set arr i default) visited i val
  begin_cycle i default arr visited val t new g = record {
    len = length-set arr i default ∙ t.len;
    held = sym (t.left i new) ∙ g;
    fresh = new;
    placed = λ k p h m.
        get_elem?-set_other arr i p default (λ q. ground (arith, t.forth k p h m, new, q))
        ∙ t.placed k p h m;
    left = λ k m ne. get_elem?-set_other arr i k default (λ q. ne (sym q)) ∙ t.left k m;
    back = λ k p h m. inl (t.back k p h m);
    forth = λ k p h m. inl (t.forth k p h m);
    rooted = inl refl;
    came = inl refl;
  }

  -- A position that stays where it is.
  stays :
      (i : ℕ) (arr : List T) (visited : List ℕ)
      → Turned orig permutation perm arr visited
      → member visited i ≡ false
      → get_elem? permutation i ≡ some i
      → Turned orig permutation perm arr (i ∷ visited)
  stays i arr visited t new e = record {
    len = t.len;
    placed = λ k p h m. elim (member-cons i k visited m) [
      | inl same ↦
          let q : i ≡ p = some-injective (sym e ∙ ap (get_elem? permutation) same ∙ h) in
          ap (get_elem? arr) (sym q) ∙ t.left i new ∙ ap (get_elem? orig) same
      | inr m' ↦ t.placed k p h m'
    ];
    left = λ k m. t.left k (ground arith);
    back = λ k p h m. elim (member-cons i p visited m) [
      | inl same ↦
          let q = perm.injective i k p (e ∙ ap some same) h in
          subst (λ z. member (i ∷ visited) z ≡ true) q (member-head i visited)
      | inr m' ↦ ground (arith, t.back k p h m')
    ];
    forth = λ k p h m. elim (member-cons i k visited m) [
      | inl same ↦
          let q : i ≡ p = some-injective (sym e ∙ ap (get_elem? permutation) same ∙ h) in
          subst (λ z. member (i ∷ visited) z ≡ true) q (member-head i visited)
      | inr m' ↦ ground (arith, t.forth k p h m')
    ];
  }

  module _ (default : T) (i : ℕ) (is : List ℕ) (arr : List T) (visited : List ℕ) where
    rotate-old :
        member visited i ≡ true
        → rotate permutation default (i ∷ is) arr visited
          ≡ rotate permutation default is arr visited
    unfolding rotate
    rotate-old old = rw (rotate, old) refl

    rotate-fixed :
        (p : ℕ)
        → member visited i ≡ false
        → get_elem? permutation i ≡ some p
        → (p == i) ≡ true
        → rotate permutation default (i ∷ is) arr visited
          ≡ rotate permutation default is arr (i ∷ visited)
    unfolding rotate
    rotate-fixed p new e same = rw (rotate, new, e, option_bind, same) refl

    rotate-moved :
        (p : ℕ) (val : T) (arr1 : List T) (visited1 : List ℕ)
        → member visited i ≡ false
        → get_elem? permutation i ≡ some p
        → (p == i) ≡ false
        → get_elem? arr i ≡ some val
        → cycle permutation i (suc (length arr)) (set arr i default) visited i val
          ≡ some (arr1, visited1)
        → rotate permutation default (i ∷ is) arr visited
          ≡ rotate permutation default is arr1 visited1
    unfolding rotate
    rotate-moved p val arr1 visited1 new e ne g e1 =
        rw (rotate, new, e, option_bind, ne, g, e1) refl

    enough : length arr ≡ length orig → unseen (range (length orig)) visited < suc (length arr)
    enough len = omega (
      arith,
      len,
      length-range (length orig),
      unseen-nil (range (length orig)),
      unseen_mono (range (length orig)) [] visited (λ x h. ground arith),
    )

    -- One round of the outer loop.
    rotate_step :
        i < length orig
        → Turned orig permutation perm arr visited
        → (arr1 : List T) × (visited1 : List ℕ) × (rotate permutation default (i ∷ is) arr visited
            ≡ rotate permutation default is arr1 visited1)
          × Turned orig permutation perm arr1 visited1
          × ((k : ℕ) → member visited k ≡ true → member visited1 k ≡ true)
          × (member visited1 i ≡ true)
    rotate_step low t = elim (Bool-cases (member visited i)) [
      | inl old ↦ (arr, visited, rotate-old old, t, (λ k m. m), old)
      | inr new ↦
          let (p, e) = perm.total i low in
          elim (Bool-cases (p == i)) [
            | inl same ↦ (
              arr,
              i ∷ visited,
              rotate-fixed p new e same,
              stays i arr visited t new (e ∙ ap some ((==_iff p i).0 same)),
              (λ k m. ground arith),
              member-head i visited,
            )
            | inr ne ↦
                let (val, g) = in_range arr i (omega (arith, t.len)) in
                let (arr1, visited1, e1, t1, kept, has) =
                  cycle_total orig permutation perm i (suc (length arr)) (set arr i default) visited
                    i val (enough t.len) low (begin_cycle i default arr visited val t new g) in
                (arr1, visited1, rotate-moved p val arr1 visited1 new e ne g e1, t1, kept, has)
          ]
    ]

  rotate_total :
      (default : T) (is : List ℕ) (arr : List T) (visited : List ℕ)
      → ((i : ℕ) → member is i ≡ true → i < length orig)
      → Turned orig permutation perm arr visited
      → (arr' : List T) × (visited' : List ℕ) × (rotate permutation default is arr visited
          ≡ some arr')
        × Turned orig permutation perm arr' visited'
        × ((k : ℕ) → member visited k ≡ true → member visited' k ≡ true)
        × ((k : ℕ) → member is k ≡ true → member visited' k ≡ true)
  unfolding rotate
  rotate_total default [] arr visited low t =
      (arr, visited, refl, t, (λ k m. m), λ k m. ground arith)
  rotate_total default (i ∷ is) arr visited low t =
      let (arr1, visited1, e1, t1, kept1, has1) =
        rotate_step default i is arr visited (low i (member-head i is)) t in
      let (arr', visited', e', t', kept, has) =
        rotate_total default is arr1 visited1 (λ k m. low k (ground arith)) t1 in
      (
        arr',
        visited',
        e1 ∙ e',
        t',
        (λ k m. kept k (kept1 k m)),
        λ k m. elim (member-cons i k is m) [
          | inl q ↦ subst (λ z. member visited' z ≡ true) q (kept i has1)
          | inr m' ↦ has k m'
        ],
      )

pub apply_permutation_cycle_rotate_total :
    {T : Type 0} (default : T) (arr : List T) (permutation : List ℕ)
    → Permutes (length arr) permutation
    → (arr' : List T) × (apply_permutation_cycle_rotate default arr permutation ≡ some arr')
      × (length arr' ≡ length arr)
      × ((k p : ℕ)
          → get_elem? permutation k ≡ some p
          → k < length arr
          → get_elem? arr' p ≡ get_elem? arr k)
unfolding apply_permutation_cycle_rotate
apply_permutation_cycle_rotate_total default arr permutation perm =
    let (arr', visited, e, t, _, has) =
      rotate_total arr permutation perm default (range (length arr)) arr []
        (member-range_lt (length arr))
        (record {
          len = refl;
          placed = λ k p h m. ground arith;
          left = λ k m. refl;
          back = λ k p h m. ground arith;
          forth = λ k p h m. ground arith;
        }) in
    (arr', e, t.len, λ k p h small. t.placed k p h (has k (member-range (length arr) k small)))

-- Given a permutation of the array's positions, the function returns an array of the same length, which
-- has each element at the position that the permutation gives for it.
pub apply_permutation_cycle_rotate-places :
    {T : Type 0} (default : T) (arr : List T) (permutation : List ℕ)
    → Permutes (length arr) permutation
    → (k p : ℕ) → k < length arr
    → get_elem? permutation k ≡ some p
    → (arr' : List T) × (apply_permutation_cycle_rotate default arr permutation ≡ some arr')
      × (length arr' ≡ length arr)
      × (get_elem? arr' p ≡ get_elem? arr k)
apply_permutation_cycle_rotate-places default arr permutation perm k p small at =
    let (arr', e, len, places) =
      apply_permutation_cycle_rotate_total default arr permutation perm in
    (arr', e, len, places k p at small)
