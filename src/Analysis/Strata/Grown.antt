-- ===== src/Analysis/Strata/Grown.antt =====
-- What a walk adds to what was seen and to what it put out, and a loop of walks.
use mathlib.Core.List.{append_assoc}
use mangle_rs.Prelude.{
  ℕ, ◌<◌, ◌≡◌, refl, sym, ap, ◌∙◌, subst, inl, inr, true, false, ◌||◌, Option, some, List, [], ◌∷◌,
  ◌++◌, arith, Bool-cases, nat_eq, list_eq, pair_eq, int_eq,
}
use mangle_rs.Analysis.Strata.Walk.{Walk, member, and_then, each}
use mangle_rs.Analysis.Strata.Members.{member-append, member-head, member-cons, unseen, unseen_mono}

-- From the first walk to the second, new nodes have been found, all with the property.
pub record Grown (P : ℕ → Type 0) (w w' : Walk) : Type 0 where
  pub found : List ℕ
  pub out_is : w'.out ≡ found ++ w.out
  pub fresh : (x : ℕ) → member found x ≡ true → member w.seen x ≡ false
  pub seen_is : (x : ℕ) → member w'.seen x ≡ (member found x || member w.seen x)
  pub reached : (x : ℕ) → member found x ≡ true → P x

module _ {P : ℕ → Type 0} where
  pub Grown-refl : (w : Walk) → Grown P w w
  Grown-refl w = record {
    found = [];
    out_is = refl;
    fresh = λ x h. ground arith;
    seen_is = λ x. refl;
    reached = λ x h. ground arith;
  }

  pub Grown-trans : {w w' w'' : Walk} → Grown P w w' → Grown P w' w'' → Grown P w w''
  Grown-trans {w} {w'} {w''} g h = record {
    found = h.found ++ g.found;
    out_is = h.out_is ∙ ap (λ l. h.found ++ l) g.out_is ∙ sym (append_assoc h.found g.found w.out);
    fresh =
        λ x m. ground (arith, member-append h.found g.found x, g.fresh x, h.fresh x, g.seen_is x);
    seen_is = λ x. ground (arith, member-append h.found g.found x, g.seen_is x, h.seen_is x);
    reached = λ x m. elim (Bool-cases (member h.found x)) [
      | inl p ↦ h.reached x p
      | inr p ↦ g.reached x (ground (arith, member-append h.found g.found x))
    ];
  }

  pub Grown-map :
      {Q : ℕ → Type 0} {w w' : Walk} → ((x : ℕ) → P x → Q x) → Grown P w w' → Grown Q w w'
  Grown-map f g = record {
    found = g.found;
    out_is = g.out_is;
    fresh = g.fresh;
    seen_is = g.seen_is;
    reached = λ x m. f x (g.reached x m);
  }

  pub Grown-seen :
      {w w' : Walk} → Grown P w w' → (x : ℕ) → member w.seen x ≡ true → member w'.seen x ≡ true
  Grown-seen g x h = ground (arith, g.seen_is x)

-- A loop of walks, by an invariant and a relation that chains.
module _ (us : List ℕ) (f : ℕ → Walk → Option Walk) (fuel : ℕ) (I : Walk → Type 0)
    (R : Walk → Walk → Type 0) (R_refl : (w : Walk) → R w w)
    (R_trans : (w w' w'' : Walk) → R w w' → R w' w'' → R w w'')
    (R_seen : (w w' : Walk)
      → R w w'
      → (x : ℕ) → member w.seen x ≡ true
      → member w'.seen x ≡ true) where
  abbrev pub Succeeds : ℕ → Type 0
  Succeeds n =
      (w : Walk)
      → unseen us w.seen < fuel
      → I w
      → (w' : Walk) × (f n w ≡ some w') × R w w' × I w' × (member w'.seen n ≡ true)

  pub each_total :
      (ns : List ℕ)
      → ((n : ℕ) → member ns n ≡ true → Succeeds n)
      → (w : Walk) → unseen us w.seen < fuel
      → I w
      → (w' : Walk) × (each f ns w ≡ some w')
        × R w w'
        × I w'
        × ((n : ℕ) → member ns n ≡ true → member w'.seen n ≡ true)
  each_total [] one w small i = (w, refl, R_refl w, i, λ n m. ground arith)
  each_total (n ∷ ns) one w small i =
      let (w1, e1, r1, i1, seen1) = one n (member-head n ns) w small i in
      let fewer = unseen_mono us w.seen w1.seen (R_seen w w1 r1) in
      let (w2, e2, r2, i2, seen2) =
        each_total ns (λ m h. one m (ground arith)) w1 (omega arith) i1 in
      (
        w2,
        ap (λ o. and_then o (each f ns)) e1 ∙ e2,
        R_trans w w1 w2 r1 r2,
        i2,
        λ m h. elim (member-cons n m ns h) [
          | inl q ↦ subst (λ z. member w2.seen z ≡ true) q (R_seen w1 w2 r2 n seen1)
          | inr q ↦ seen2 m q
        ],
      )
