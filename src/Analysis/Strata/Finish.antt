-- ===== src/Analysis/Strata/Finish.antt =====
-- What a walk with post-order leaves: `visit` ends, and each node finishes after what it reaches.
use mangle_rs.Prelude.{
  ℕ, zero, suc, ◌<◌, ◌≡◌, refl, sym, ap, subst, inl, inr, true, false, some, List, [], ◌∷◌, ◌++◌,
  arith, Bool-cases, ==_iff, nat_eq, list_eq, pair_eq, int_eq,
}
use mangle_rs.Analysis.Strata.Walk.{Walk, member, visit}
use mangle_rs.Analysis.Strata.Members.{member-append, member-head, member-cons, unseen, unseen-mark}
use mangle_rs.Analysis.Strata.Grown.{
  Grown, Grown-refl, Grown-trans, Grown-map, Grown-seen, each_total,
}

module _ (next : ℕ → List ℕ) where
  -- a path of edges
  pub data Reach (a : ℕ) : ℕ → Type 0 where
    here : Reach a a
    onward : {b c : ℕ} → Reach a b → member (next b) c ≡ true → Reach a c

  pub Reach-trans : {a b c : ℕ} → Reach a b → Reach b c → Reach a c
  Reach-trans p here = p
  Reach-trans p (onward q e) = onward (Reach-trans p q) e

  -- The last node finished: it reaches what finished during its visit, `inner`, and no edge leads
  -- from what finished before, `outer`, to it or to those.
  pub record Finished (node : ℕ) (rest : List ℕ) : Type 0 where
    pub new : member rest node ≡ false
    pub inner : List ℕ
    pub outer : List ℕ
    pub parts : rest ≡ inner ++ outer
    pub reached : (x : ℕ) → member inner x ≡ true → Reach node x
    pub apart :
        (x y : ℕ)
        → member outer x ≡ true
        → member (next x) y ≡ true
        → member (node ∷ inner) y ≡ false

  abbrev pub PostOrder : List ℕ → Type 0
  PostOrder [] = Unit
  PostOrder (node ∷ rest) = Finished node rest × PostOrder rest

  pub record Good (w : Walk) : Type 0 where
    pub order : PostOrder w.out
    pub kept : (x : ℕ) → member w.out x ≡ true → member w.seen x ≡ true
    pub closed :
        (x y : ℕ) → member w.out x ≡ true → member (next x) y ≡ true → member w.seen y ≡ true

  -- Finishing a node whose neighbours have all been seen, after the visit of those.
  finish :
      (node : ℕ) (w w' : Walk)
      → member w.seen node ≡ false
      → Good w
      → Good w'
      → ((y : ℕ) → member (next node) y ≡ true → member w'.seen y ≡ true)
      → (g : Grown (Reach node) (record w { seen = node ∷ w.seen }) w')
      → Grown (Reach node) w (record w' { out = node ∷ w'.out })
        × Good (record w' { out = node ∷ w'.out })
  finish node w w' new good good' all g = (
    record {
      found = node ∷ g.found;
      out_is = ap (λ l. node ∷ l) g.out_is;
      fresh = λ x m. elim (member-cons node x g.found m) [
        | inl e ↦ subst (λ z. member w.seen z ≡ false) e new
        | inr p ↦ ground (arith, g.fresh x p)
      ];
      seen_is = λ x. ground (arith, g.seen_is x);
      reached = λ x m. elim (member-cons node x g.found m) [
        | inl e ↦ subst (λ z. Reach node z) e here
        | inr p ↦ g.reached x p
      ];
    },
    record {
      order = (
        record {
          new =
              rw (g.out_is, member-append g.found w.out node)
                (ground (arith, good.kept node, g.fresh node, member-head node w.seen, new));
          inner = g.found;
          outer = w.out;
          parts = g.out_is;
          reached = g.reached;
          apart = λ x y m e. ground (arith, ==_iff node y, new, good.closed x y m e, g.fresh y);
        },
        good'.order,
      );
      kept = λ x m. elim (member-cons node x w'.out m) [
        | inl p ↦ ground (arith, Grown-seen g node (member-head node w.seen), p)
        | inr p ↦ good'.kept x p
      ];
      closed = λ x y m e. elim (member-cons node x w'.out m) [
        | inl p ↦ all y (subst (λ z. member (next z) y ≡ true) (sym p) e)
        | inr p ↦ good'.closed x y p e
      ];
    },
  )

  module _ (us : List ℕ) where
    -- every edge stays among the nodes of the list
    unfoldable pub Closed : Type 0
    Closed = (x y : ℕ) → member us x ≡ true → member (next x) y ≡ true → member us y ≡ true

    abbrev Visits : ℕ → Type 0
    Visits fuel =
        (node : ℕ) (w : Walk)
        → member us node ≡ true
        → unseen us w.seen < fuel
        → Good w
        → (w' : Walk) × (visit next fuel node w ≡ some w')
          × Grown (Reach node) w w'
          × Good w'
          × (member w'.seen node ≡ true)

    -- With more fuel than there are unseen nodes, `visit` ends.
    pub visit_total : Closed → (fuel : ℕ) → Visits fuel
    unfolding visit Closed
    visit_total closed zero node w inside small good = absurd (omega arith)
    visit_total closed (suc fuel) node w inside small good =
        elim (Bool-cases (member w.seen node)) [
          | inl old ↦ (w, rw (visit, old) refl, Grown-refl w, good, old)
          | inr new ↦
              let w0 : Walk = record w { seen = node ∷ w.seen } in
              let good0 : Good w0 = record {
                order = good.order;
                kept = λ x m. ground (arith, good.kept x m);
                closed = λ x y m e. ground (arith, good.closed x y m e);
              } in
              let (w1, e1, g1, good1, all) =
                each_total us (visit next fuel) fuel Good (Grown (Reach node)) Grown-refl
                  (λ _ _ _. Grown-trans) (λ _ _. Grown-seen) (next node)
                  (λ n m w small good.
                    let (w', e, g, good', seen') =
                      visit_total closed fuel n w (closed node n inside m) small good in
                    (w', e, Grown-map (λ x. Reach-trans (onward here m)) g, good', seen'))
                  w0 (omega (arith, unseen-mark us w.seen node inside new)) good0 in
              let (g2, good2) = finish node w w1 new good good1 all g1 in
              (
                record w1 { out = node ∷ w1.out },
                rw (visit, new, e1) refl,
                g2,
                good2,
                Grown-seen g1 node (member-head node w.seen),
              )
        ]
