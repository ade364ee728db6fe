-- ===== src/Analysis/Strata/Rotate/Cycle.antt =====
-- One turn of the inner loop of `apply_permutation_cycle_rotate`, and the loop.
use mangle_rs.Prelude.{
  ℕ, zero, suc, ◌<◌, ◌≡◌, refl, sym, ap, ◌∙◌, subst, ◌≢◌, ◌⊎◌, inl, inr, true, false, some, List,
  ◌∷◌, arith, Bool-cases, length, get_elem?, ◌==◌, ==_iff, nat_eq, list_eq, pair_eq, some-injective,
  int_eq,
}
use mangle_rs.Analysis.Strata.Walk.{member}
use mangle_rs.Analysis.Strata.Members.{member-head, member-cons, unseen, unseen-mark}
use mangle_rs.Analysis.Strata.Order.{range}
use mangle_rs.Analysis.Strata.Ranges.{Permutes, in_range, member-range}
use mangle_rs.Analysis.Strata.Rotate.{
  set, length-set, get_elem?-set_same, get_elem?-set_other, cycle,
}

module _ {T : Type 0} (orig : List T) (permutation : List ℕ)
    (perm : Permutes (length orig) permutation) where
  -- Whole cycles have been turned: those of the visited positions.
  pub record Turned (arr : List T) (visited : List ℕ) : Type 0 where
    pub len : length arr ≡ length orig
    pub placed :
        (k p : ℕ)
        → get_elem? permutation k ≡ some p
        → member visited k ≡ true
        → get_elem? arr p ≡ get_elem? orig k
    pub left : (k : ℕ) → member visited k ≡ false → get_elem? arr k ≡ get_elem? orig k
    pub back :
        (k p : ℕ)
        → get_elem? permutation k ≡ some p
        → member visited p ≡ true
        → member visited k ≡ true
    pub forth :
        (k p : ℕ)
        → get_elem? permutation k ≡ some p
        → member visited k ≡ true
        → member visited p ≡ true

  -- The inner loop holds the element of `current`, which is not placed yet.
  pub record Turning (i : ℕ) (arr : List T) (visited : List ℕ) (current : ℕ) (val : T)
      : Type 0 where
    pub len : length arr ≡ length orig
    pub held : get_elem? orig current ≡ some val
    pub fresh : member visited current ≡ false
    pub placed :
        (k p : ℕ)
        → get_elem? permutation k ≡ some p
        → member visited k ≡ true
        → get_elem? arr p ≡ get_elem? orig k
    pub left : (k : ℕ) → member visited k ≡ false → k ≢ current → get_elem? arr k ≡ get_elem? orig k
    pub back :
        (k p : ℕ)
        → get_elem? permutation k ≡ some p
        → member visited p ≡ true
        → (member visited k ≡ true) ⊎ (p ≡ i)
    pub forth :
        (k p : ℕ)
        → get_elem? permutation k ≡ some p
        → member visited k ≡ true
        → (member visited p ≡ true) ⊎ (p ≡ current)
    pub rooted : (current ≡ i) ⊎ (member visited i ≡ true)
    pub came :
        (current ≡ i)
        ⊎ ((k : ℕ) × (member visited k ≡ true) × (get_elem? permutation k ≡ some current))

  module _ (i : ℕ) (arr : List T) (visited : List ℕ) (current : ℕ) (val : T)
      (t : Turning i arr visited current val) (target : ℕ)
      (e : get_elem? permutation current ≡ some target) where
    -- the position turned to is fresh, unless it is the first
    target-fresh : target ≢ i → member (current ∷ visited) target ≡ false
    target-fresh ne = elim (Bool-cases (member (current ∷ visited) target)) [
      | inr new ↦ new
      | inl old ↦ absurd (elim (member-cons current target visited old) [
        | inl same ↦ elim t.came [
          | inl first ↦ ne (sym same ∙ first)
          | inr (k, m, p) ↦
              ground
                (arith, perm.injective k current current p (e ∙ ap some (sym same)), m, t.fresh)
        ]
        | inr m ↦ elim (t.back current target e m) [
          | inl q ↦ ground (arith, t.fresh)
          | inr q ↦ ne q
        ]
      ])
    ]

    target_small : target < length arr
    target_small = omega (arith, t.len, perm.into current target e)

    other : (k p : ℕ) → get_elem? permutation k ≡ some p → member visited k ≡ true → target ≢ p
    other k p h m q =
        let same = perm.injective k current p h (e ∙ ap some q) in
        ground (arith, t.fresh, subst (λ z. member visited z ≡ true) same m)

    placed_after :
        (k p : ℕ)
        → get_elem? permutation k ≡ some p
        → member (current ∷ visited) k ≡ true
        → get_elem? (set arr target val) p ≡ get_elem? orig k
    placed_after k p h m = elim (member-cons current k visited m) [
      | inl same ↦
          let q : target ≡ p = some-injective (sym e ∙ ap (get_elem? permutation) same ∙ h) in
          ap (λ z. get_elem? (set arr target val) z) (sym q)
          ∙ get_elem?-set_same arr target val (in_range arr target target_small).1
          ∙ sym t.held
          ∙ ap (get_elem? orig) same
      | inr m' ↦ get_elem?-set_other arr target p val (λ q. other k p h m' q) ∙ t.placed k p h m'
    ]

    left_after :
        (k : ℕ)
        → member (current ∷ visited) k ≡ false
        → k ≢ target
        → get_elem? (set arr target val) k ≡ get_elem? orig k
    left_after k m ne =
        get_elem?-set_other arr target k val (λ p. ne (sym p))
        ∙ t.left k (ground arith) (ground (arith, ==_iff current k))

    back_after :
        (k p : ℕ)
        → get_elem? permutation k ≡ some p
        → member (current ∷ visited) p ≡ true
        → (member (current ∷ visited) k ≡ true) ⊎ (p ≡ i)
    back_after k p h m = elim (member-cons current p visited m) [
      | inl same ↦ elim t.came [
        | inl first ↦ inr (sym same ∙ first)
        | inr (j, m', q) ↦
            let alike = perm.injective j k p (q ∙ ap some same) h in
            inl (ground (arith, subst (λ z. member visited z ≡ true) alike m'))
      ]
      | inr m' ↦ elim (t.back k p h m') [ inl q ↦ inl (ground arith) | inr q ↦ inr q ]
    ]

    forth_after :
        (k p : ℕ)
        → get_elem? permutation k ≡ some p
        → member (current ∷ visited) k ≡ true
        → (member (current ∷ visited) p ≡ true) ⊎ (p ≡ target)
    forth_after k p h m = elim (member-cons current k visited m) [
      | inl same ↦ inr (some-injective (sym h ∙ ap (get_elem? permutation) (sym same) ∙ e))
      | inr m' ↦ elim (t.forth k p h m') [
        | inl q ↦ inl (ground arith)
        | inr q ↦
            inl (
              subst (λ z. member (current ∷ visited) z ≡ true) (sym q)
                (member-head current visited))
      ]
    ]

    rooted_after : member (current ∷ visited) i ≡ true
    rooted_after = elim t.rooted [
      | inl q ↦ subst (λ z. member (current ∷ visited) z ≡ true) q (member-head current visited)
      | inr m ↦ ground arith
    ]

    turn_next :
        target ≢ i
        → (next : T) × (get_elem? arr target ≡ some next)
          × Turning i (set arr target val) (current ∷ visited) target next
    turn_next ne =
        let new = target-fresh ne in
        let (next, g) = in_range arr target target_small in
        (
          next,
          g,
          record {
            len = length-set arr target val ∙ t.len;
            held =
                sym (t.left target (ground arith) (λ q. ground (arith, ==_iff current target))) ∙ g;
            fresh = new;
            placed = placed_after;
            left = left_after;
            back = back_after;
            forth = forth_after;
            rooted = inr rooted_after;
            came = inr (current, member-head current visited, e);
          },
        )

    turn_end : target ≡ i → Turned (set arr target val) (current ∷ visited)
    turn_end last = record {
      len = length-set arr target val ∙ t.len;
      placed = placed_after;
      left = λ k m. left_after k m (λ q. ground (arith, rooted_after, q, last));
      back = λ k p h m. elim (back_after k p h m) [
        | inl q ↦ q
        | inr q ↦
            let same = perm.injective current k p (e ∙ ap some (last ∙ sym q)) h in
            subst (λ z. member (current ∷ visited) z ≡ true) same (member-head current visited)
      ];
      forth = λ k p h m. elim (forth_after k p h m) [
        | inl q ↦ q
        | inr q ↦ subst (λ z. member (current ∷ visited) z ≡ true) (sym (q ∙ last)) rooted_after
      ];
    }

  -- The inner loop comes back to its first position.
  pub cycle_total :
      (i fuel : ℕ) (arr : List T) (visited : List ℕ) (current : ℕ) (val : T)
      → unseen (range (length orig)) visited < fuel
      → current < length orig
      → Turning i arr visited current val
      → (arr' : List T) × (visited' : List ℕ) × (cycle permutation i fuel arr visited current val
          ≡ some (arr', visited'))
        × Turned arr' visited'
        × ((k : ℕ) → member visited k ≡ true → member visited' k ≡ true)
        × (member visited' i ≡ true)
  unfolding cycle
  cycle_total i zero arr visited current val small inside t = absurd (omega arith)
  cycle_total i (suc fuel) arr visited current val small inside t =
      let (target, e) = perm.total current inside in
      let (next, g) = in_range arr target (target_small i arr visited current val t target e) in
      elim (Bool-cases (target == i)) [
        | inl q ↦ (
          set arr target val,
          current ∷ visited,
          rw (cycle, e, g, q) refl,
          turn_end i arr visited current val t target e ((==_iff target i).0 q),
          (λ k m. ground arith),
          rooted_after i arr visited current val t target e,
        )
        | inr ne ↦
            let (next', g', t') =
              turn_next i arr visited current val t target e
                (λ q. ground (arith, ==_iff target i)) in
            let (arr', visited', e', turned, kept, has) =
              cycle_total i fuel (set arr target val) (current ∷ visited) target next'
                (omega (
                  arith,
                  unseen-mark (range (length orig)) visited current
                      (member-range (length orig) current inside) t.fresh,
                ))
                (perm.into current target e) t' in
            (arr', visited', rw (cycle, e, g', ne) e', turned, (λ k m. kept k (ground arith)), has)
      ]
