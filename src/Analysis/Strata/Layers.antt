-- ===== src/Analysis/Strata/Layers.antt =====
-- The components that `sccs` finds: each is closed under what leads to it, up to the earlier ones, and
-- its nodes all reach each other.
use mathlib.Core.List.{append-nil}
use mangle_rs.Prelude.{
  ℕ, suc, ◌≡◌, refl, sym, ap, ◌∙◌, subst, ◌≢◌, inl, inr, true, false, ◌||◌, some, List, [], ◌∷◌,
  arith, Bool-cases, length, ◌==◌, ==_iff, nat_eq, list_eq, pair_eq, int_eq,
}
use mangle_rs.Analysis.Strata.Walk.{Walk, member, rvisit}
use mangle_rs.Analysis.Strata.Members.{
  member-append, member-head, member-cons, unseen_mono, unseen-nil,
}
use mangle_rs.Analysis.Strata.Finish.{Closed, Reach, here, onward, Reach-trans, Finished, PostOrder}
use mangle_rs.Analysis.Strata.Collect.{Avoids, Collected, rvisit_total}
use mangle_rs.Analysis.Strata.Order.{option_bind, push_scc, pop_all}

push_scc-filled : (c : List ℕ) (strata : List (List ℕ)) → c ≢ [] → push_scc c strata ≡ c ∷ strata
push_scc-filled [] strata ne = absurd (ne refl)
push_scc-filled (x ∷ c) strata ne = refl

module _ (next : ℕ → List ℕ) where
  pub record Layer (seen c : List ℕ) : Type 0 where
    pub filled : c ≢ []
    pub apart : (x : ℕ) → member c x ≡ true → member seen x ≡ false
    pub closed :
        (x y : ℕ)
        → member c y ≡ true
        → member (next x) y ≡ true
        → (member c x || member seen x) ≡ true
    pub strong : (x y : ℕ) → member c x ≡ true → member c y ≡ true → Reach next x y

  -- After what is seen, these components hold the rest of the nodes.
  abbrev pub Layered : List ℕ → List ℕ → List (List ℕ) → Type 0
  Layered us seen [] = (x : ℕ) → member us x ≡ true → member seen x ≡ true
  Layered us seen (c ∷ strata) =
      Layer seen c
      × (seen' : List ℕ) × ((x : ℕ) → member seen' x ≡ (member c x || member seen x))
      × Layered us seen' strata

  module _ (prev : ℕ → List ℕ) (us : List ℕ)
      (flip : (x y : ℕ) → member (prev y) x ≡ member (next x) y)
      (source : (x y : ℕ) → member (next x) y ≡ true → member us x ≡ true) where
    back_path : {old : List ℕ} {a b : ℕ} → Avoids prev old a b → Reach next b a
    back_path (Avoids.here n) = here
    back_path (Avoids.onward {b = b} {c = c} p e n) =
        Reach-trans next (onward here (sym (flip c b) ∙ e)) (back_path p)

    -- Backward from the last node finished, unseen nodes are among those finished during its visit.
    stays_inner :
        {seen rest : List ℕ} {top x : ℕ}
        → (f : Finished next top rest)
        → ((y : ℕ) → member us y ≡ true → (member (top ∷ rest) y || member seen y) ≡ true)
        → Avoids prev seen top x
        → member (top ∷ f.inner) x ≡ true
    stays_inner {top = top} f known (Avoids.here n) = member-head top f.inner
    stays_inner {rest = rest} {top = top} f known (Avoids.onward {b = b} {c = c} p e n) =
        let in_b = stays_inner f known p in
        let edge : member (next c) b ≡ true = sym (flip c b) ∙ e in
        ground (
          arith,
          known c (source c b edge),
          n,
          in_b,
          f.apart c b,
          edge,
          ap (λ l. member l c) f.parts,
          member-append f.inner f.outer c,
        )

    reached_from :
        {rest : List ℕ} {top : ℕ} (f : Finished next top rest) (x : ℕ)
        → member (top ∷ f.inner) x ≡ true
        → Reach next top x
    reached_from {top = top} f x m = elim (member-cons top x f.inner m) [
      | inl e ↦ subst (λ z. Reach next top z) e here
      | inr p ↦ f.reached x p
    ]

    prev-Closed : Closed prev us
    unfolding Closed
    prev-Closed x y m e = source y x (sym (flip y x) ∙ e)

    -- What one call of `rvisit` collects is a layer.
    module _ (top : ℕ) (rest seen : List ℕ) (f : Finished next top rest)
        (known : (y : ℕ) → member us y ≡ true → (member (top ∷ rest) y || member seen y) ≡ true)
        (w' : Walk)
        (c : Collected prev (Avoids prev seen top) (record { seen = seen; out = [] }) w') where
      collected : (x : ℕ) → member w'.out x ≡ member c.grown.found x
      collected x = ap (λ l. member l x) (c.grown.out_is ∙ append-nil c.grown.found)

      seen_then : (x : ℕ) → member w'.seen x ≡ (member w'.out x || member seen x)
      seen_then x = ground (arith, c.grown.seen_is x, collected x)

      path : (x : ℕ) → member w'.out x ≡ true → Avoids prev seen top x
      path x m = c.grown.reached x (sym (collected x) ∙ m)

      collected-Layer : member w'.seen top ≡ true → member seen top ≡ false → Layer seen w'.out
      collected-Layer has new = record {
        filled = λ e. ground (arith, has, new, seen_then top, ap (λ l. member l top) e);
        apart = λ x m. c.grown.fresh x (sym (collected x) ∙ m);
        closed = λ x y m e.
            sym (seen_then x)
            ∙ c.closed y x (c.grown.fresh y (sym (collected y) ∙ m)) (ground (arith, seen_then y))
                (flip x y ∙ e);
        strong = λ x y mx my.
            Reach-trans next (back_path (path x mx))
              (reached_from f y (stays_inner f known (path y my)));
      }

      -- Then no edge leads from an unseen node to a seen one.
      shut_then :
          member w'.seen top ≡ true
          → member seen top ≡ false
          → ((x y : ℕ) → member seen y ≡ true → member (next x) y ≡ true → member seen x ≡ true)
          → (x y : ℕ) → member w'.seen y ≡ true
          → member (next x) y ≡ true
          → member w'.seen x ≡ true
      shut_then has new shut x y m e = elim (Bool-cases (member w'.out y)) [
        | inl p ↦ seen_then x ∙ (collected-Layer has new).closed x y p e
        | inr p ↦ ground (arith, seen_then x, seen_then y, shut x y)
      ]

    pop_all-new :
        (fuel top : ℕ) (s seen : List ℕ) (w' : Walk) (strata : List (List ℕ))
        → member seen top ≡ false
        → rvisit prev fuel top (record { seen = seen; out = [] }) ≡ some w'
        → w'.out ≢ []
        → pop_all prev fuel s w'.seen ≡ some strata
        → pop_all prev fuel (top ∷ s) seen ≡ some (w'.out ∷ strata)
    unfolding pop_all
    pop_all-new fuel top s seen w' strata new e filled h =
        rw (pop_all, new, e, option_bind, h, option_bind)
          (ap some (push_scc-filled w'.out strata filled))

    -- The loop of `sccs` over the finished nodes ends, and finds the layers.
    pub pop_all_total :
        (s : List ℕ) (seen : List ℕ)
        → PostOrder next s
        → ((x : ℕ) → member s x ≡ true → member us x ≡ true)
        → ((x : ℕ) → member us x ≡ true → (member s x || member seen x) ≡ true)
        → ((x y : ℕ) → member seen y ≡ true → member (next x) y ≡ true → member seen x ≡ true)
        → (strata : List (List ℕ)) × (pop_all prev (suc (length us)) s seen ≡ some strata)
          × Layered us seen strata
    unfolding pop_all
    pop_all_total [] seen order low known shut = ([], refl, λ x m. known x m)
    pop_all_total (top ∷ s) seen order low known shut = elim (Bool-cases (member seen top)) [
      | inl old ↦
          let (strata, e, l) =
            pop_all_total s seen order.1 (λ x m. low x (ground arith))
              (λ x m. ground (arith, known x m, ==_iff top x)) shut in
          (strata, rw (pop_all, old) e, l)
      | inr new ↦
          let (w', e, c, has) =
            rvisit_total prev us prev-Closed (suc (length us)) top
              (record { seen = seen; out = [] }) (low top (member-head top s))
              (omega (arith, unseen-nil us, unseen_mono us [] seen (λ x h. ground arith))) in
          let layer = collected-Layer top s seen order.0 known w' c has new in
          let then_seen = seen_then top s seen order.0 known w' c in
          let (strata, e', l) =
            pop_all_total s w'.seen order.1 (λ x m. low x (ground arith))
              (λ x m. ground (
                arith,
                known x m,
                then_seen x,
                λ (q : (top == x) ≡ true).
                    subst (λ z. member w'.seen z ≡ true) ((==_iff top x).0 q) has,
              ))
              (shut_then top s seen order.0 known w' c has new shut) in
          (
            w'.out ∷ strata,
            pop_all-new (suc (length us)) top s seen w' strata new e layer.filled e',
            (layer, w'.seen, then_seen, l),
          )
    ]
