-- ===== src/Analysis/Strata/Permute.antt =====
-- The permutation that `sort_result` fills in sends each stratum to where it finished.
use mangle_rs.Prelude.{
  ℕ, zero, suc, ◌<◌, ◌≡◌, refl, sym, ap, ◌∙◌, subst, ◌≢◌, inl, inr, true, some, List, [], ◌∷◌,
  arith, Bool-cases, length, get_elem?, lt_of_get_elem?, ==_iff, nat_eq, list_eq, pair_eq,
  some-injective, int_eq,
}
use mangle_rs.Analysis.Strata.Walk.{member}
use mangle_rs.Analysis.Strata.Members.{member-head}
use mangle_rs.Analysis.Strata.Order.{option_bind, range}
use mangle_rs.Analysis.Strata.Rotate.{set, length-set, get_elem?-set_same, get_elem?-set_other}
use mangle_rs.Analysis.Strata.Ranges.{
  Permutes, in_range, length-range, member-range, member-range_lt,
}
use mangle_rs.Analysis.Strata.Sort.{reverse, zeros, permute}
use mangle_rs.Analysis.Strata.Heights.{
  Nodup, Nodup-length, Nodup-range, length-reverse, height, height-lt, get_elem?-reverse-height,
  height-get_elem?-reverse,
}

module _ (sorted : List ℕ)
    (one : (k l v : ℕ) → get_elem? sorted k ≡ some v → get_elem? sorted l ≡ some v → k ≡ l) where
  permute_total :
      (ks perm : List ℕ)
      → ((k : ℕ) → member ks k ≡ true → (v : ℕ) × (get_elem? sorted k ≡ some v) × (v < length perm))
      → (perm' : List ℕ) × (permute sorted ks perm ≡ some perm')
        × (length perm' ≡ length perm)
        × ((k v : ℕ)
            → member ks k ≡ true
            → get_elem? sorted k ≡ some v
            → get_elem? perm' v ≡ some k)
        × ((v : ℕ)
            → ((k : ℕ) → member ks k ≡ true → get_elem? sorted k ≢ some v)
            → get_elem? perm' v ≡ get_elem? perm v)
  unfolding permute
  permute_total [] perm valid = (perm, refl, refl, (λ k v m e. ground arith), λ v h. refl)
  permute_total (k ∷ ks) perm valid =
      let (v, e, small) = valid k (member-head k ks) in
      let (old, g) = in_range perm v small in
      let (perm', e', len, hit, miss) = permute_total ks (set perm v k) (λ l m.
        let (u, eu, su) = valid l (ground arith) in (u, eu, omega (arith, length-set perm v k))) in
      (
        perm',
        rw (permute, e, option_bind, g, option_bind) e',
        len ∙ length-set perm v k,
        (λ l u m eu. elim (Bool-cases (member ks l)) [
          | inl p ↦ hit l u p eu
          | inr p ↦
              let same : k ≡ l = (==_iff k l).0 (ground arith) in
              let uv : v ≡ u = some-injective (sym e ∙ ap (get_elem? sorted) same ∙ eu) in
              ap (get_elem? perm') (sym uv)
              ∙ miss v (λ j mj ej.
                ground (arith, p, subst (λ z. member ks z ≡ true) (one j k v ej e ∙ same) mj))
              ∙ get_elem?-set_same perm v k g
              ∙ ap some same
        ]),
        λ u h.
            miss u (λ j mj. h j (ground arith))
            ∙ get_elem?-set_other perm v u k (λ q. h k (member-head k ks) (e ∙ ap some q)),
      )

length-zeros : (n : ℕ) → length (zeros n) ≡ n
length-zeros zero = refl
length-zeros (suc n) = ap suc (length-zeros n)

-- Of an order that holds each stratum once.
pub permute-reverse :
    (n : ℕ) (out : List ℕ)
    → Nodup out
    → ((i : ℕ) → member out i ≡ true → i < n)
    → ((i : ℕ) → i < n → member out i ≡ true)
    → (permutation : List ℕ) × (permute (reverse out) (range n) (zeros n) ≡ some permutation)
      × Permutes n permutation
      × ((i : ℕ) → i < n → get_elem? permutation i ≡ some (height out i))
      × ((p : ℕ) → p < n → (i : ℕ) × (i < n) × (p ≡ height out i))
permute-reverse n out nodup low full =
    let len : length out ≡ n = omega (
      arith,
      length-range n,
      Nodup-length (range n) out nodup (λ x m. member-range n x (low x m)),
      Nodup-length out (range n) (Nodup-range n) (λ x m. full x (member-range_lt n x m)),
    ) in
    let (perm, e, size, hit, miss) =
      permute_total (reverse out)
        (λ k l v p q.
          (height-get_elem?-reverse out k v nodup p).1
          ∙ sym (height-get_elem?-reverse out l v nodup q).1)
        (range n) (zeros n)
        (λ k m.
          let (v, p) =
            in_range (reverse out) k (omega (arith, length-reverse out, member-range_lt n k m)) in
          (
            v,
            p,
            omega (arith, length-zeros n, low v (height-get_elem?-reverse out k v nodup p).0),
          )) in
    let inside : ((k p : ℕ) → get_elem? perm k ≡ some p → k < n) =
      λ k p h. omega (arith, lt_of_get_elem? perm k h, size, length-zeros n) in
    let at : ((i : ℕ) → i < n → get_elem? perm i ≡ some (height out i)) = λ i h.
      hit (height out i) i
        (member-range n (height out i) (omega (arith, height-lt out i (full i h), len)))
        (get_elem?-reverse-height out i (full i h)) in
    (
      perm,
      e,
      record {
        total = λ k h. (height out k, at k h);
        into = λ k p h.
            let h' = at k (inside k p h) in
            omega
              (arith, some-injective (sym h ∙ h'), height-lt out k (full k (inside k p h)), len);
        injective = λ k l p h h'.
            let q : height out k ≡ height out l =
              some-injective (sym (at k (inside k p h)) ∙ h ∙ sym h' ∙ at l (inside l p h')) in
            some-injective (
              sym (get_elem?-reverse-height out k (full k (inside k p h)))
              ∙ ap (get_elem? (reverse out)) q
              ∙ get_elem?-reverse-height out l (full l (inside l p h')));
      },
      at,
      λ p h.
          let (i, e') = in_range (reverse out) p (omega (arith, length-reverse out)) in
          let (m, q) = height-get_elem?-reverse out p i nodup e' in (i, low i m, q),
    )
