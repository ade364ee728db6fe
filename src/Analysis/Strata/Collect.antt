-- ===== src/Analysis/Strata/Collect.antt =====
-- What the second walk collects: with more fuel than unseen nodes, `rvisit` puts out what is reached
-- by unseen nodes, and then no edge leads from that to an unseen node.
use mathlib.Core.List.{append_assoc}
use mangle_rs.Prelude.{
  ℕ, zero, suc, ◌<◌, ◌≡◌, refl, sym, ◌∙◌, subst, inl, inr, true, false, some, List, [], ◌∷◌, ◌++◌,
  arith, Bool-cases, ◌==◌, ==_iff, nat_eq, list_eq, pair_eq, int_eq,
}
use mangle_rs.Analysis.Strata.Walk.{Walk, member, rvisit}
use mangle_rs.Analysis.Strata.Members.{member-append, member-head, unseen, unseen-mark}
use mangle_rs.Analysis.Strata.Grown.{
  Grown, Grown-refl, Grown-trans, Grown-map, Grown-seen, each_total,
}
use mangle_rs.Analysis.Strata.Finish.{Closed}

module _ (next : ℕ → List ℕ) where
  -- a path of edges that enters no node of the set
  pub data Avoids (old : List ℕ) (a : ℕ) : ℕ → Type 0 where
    here : member old a ≡ false → Avoids old a a
    onward :
        {b c : ℕ}
        → Avoids old a b
        → member (next b) c ≡ true
        → member old c ≡ false
        → Avoids old a c

  start : {old : List ℕ} {a b : ℕ} → Avoids old a b → member old a ≡ false
  start (here n) = n
  start (onward p e n) = start p

  -- more was to be avoided, from a node after the first
  earlier :
      {a b : ℕ} (old : List ℕ) (older : List ℕ)
      → ((x : ℕ) → member old x ≡ true → member older x ≡ true)
      → Avoids old a b
      → {c : ℕ} → Avoids older b c
      → Avoids old a c
  earlier old older le p (here _) = p
  earlier old older le p (onward {c = c} q e n) =
      onward (earlier old older le p q) e (ground (arith, le c))

  -- by a neighbour
  through :
      (node n : ℕ) (w mid : Walk)
      → member w.seen node ≡ false
      → member (next node) n ≡ true
      → ((x : ℕ) → member w.seen x ≡ true → member mid.seen x ≡ true)
      → {x : ℕ} → Avoids mid.seen n x
      → Avoids w.seen node x
  through node n w mid new m kept p =
      earlier w.seen mid.seen kept (onward (here new) m (ground (arith, start p, kept n))) p

  pub record Collected (P : ℕ → Type 0) (w w' : Walk) : Type 0 where
    pub grown : Grown P w w'
    pub closed :
        (x y : ℕ)
        → member w.seen x ≡ false
        → member w'.seen x ≡ true
        → member (next x) y ≡ true
        → member w'.seen y ≡ true

  Collected-refl : {P : ℕ → Type 0} (w : Walk) → Collected P w w
  Collected-refl w = record { grown = Grown-refl w; closed = λ x y n m e. ground arith }

  Collected-trans :
      {P : ℕ → Type 0} {w w' w'' : Walk} → Collected P w w' → Collected P w' w'' → Collected P w w''
  Collected-trans {w' = w'} c d = record {
    grown = Grown-trans c.grown d.grown;
    closed = λ x y n m e. elim (Bool-cases (member w'.seen x)) [
      | inl p ↦ Grown-seen d.grown y (c.closed x y n p e)
      | inr p ↦ d.closed x y p m e
    ];
  }

  Collected-map :
      {P Q : ℕ → Type 0} {w w' : Walk} → ((x : ℕ) → P x → Q x) → Collected P w w' → Collected Q w w'
  Collected-map f c = record { grown = Grown-map f c.grown; closed = c.closed }

  -- The node entered and what was collected from its neighbours.
  enter :
      (node : ℕ) (w w' : Walk)
      → member w.seen node ≡ false
      → ((y : ℕ) → member (next node) y ≡ true → member w'.seen y ≡ true)
      → Collected (Avoids w.seen node) (record { seen = node ∷ w.seen; out = node ∷ w.out }) w'
      → Collected (Avoids w.seen node) w w'
  enter node w w' new all c =
      let split = λ (x : ℕ). member-append c.grown.found (node ∷ []) x in
      record {
        grown = record {
          found = c.grown.found ++ node ∷ [];
          out_is = c.grown.out_is ∙ sym (append_assoc c.grown.found (node ∷ []) w.out);
          fresh = λ x m. elim (Bool-cases (member c.grown.found x)) [
            | inl p ↦ ground (arith, c.grown.fresh x p)
            | inr p ↦
                subst (λ z. member w.seen z ≡ false) ((==_iff node x).0 (ground (arith, split x)))
                  new
          ];
          seen_is = λ x. ground (arith, split x, c.grown.seen_is x);
          reached = λ x m. elim (Bool-cases (member c.grown.found x)) [
            | inl p ↦ c.grown.reached x p
            | inr p ↦
                subst (λ z. Avoids w.seen node z) ((==_iff node x).0 (ground (arith, split x)))
                  (here new)
          ];
        };
        closed = λ x y n m e. elim (Bool-cases (node == x)) [
          | inl p ↦ all y (subst (λ z. member (next z) y ≡ true) (sym ((==_iff node x).0 p)) e)
          | inr p ↦ c.closed x y (ground arith) m e
        ];
      }

  module _ (us : List ℕ) where
    abbrev pub Collects : ℕ → Type 0
    Collects fuel =
        (node : ℕ) (w : Walk)
        → member us node ≡ true
        → unseen us w.seen < fuel
        → (w' : Walk) × (rvisit next fuel node w ≡ some w')
          × Collected (Avoids w.seen node) w w'
          × (member w'.seen node ≡ true)

    pub rvisit_total : Closed next us → (fuel : ℕ) → Collects fuel
    unfolding rvisit Closed
    rvisit_total closed zero node w inside small = absurd (omega arith)
    rvisit_total closed (suc fuel) node w inside small = elim (Bool-cases (member w.seen node)) [
      | inl old ↦ (w, rw (rvisit, old) refl, Collected-refl w, old)
      | inr new ↦
          let w0 : Walk = record { seen = node ∷ w.seen; out = node ∷ w.out } in
          let (w1, e1, c1, _, all) =
            each_total us (rvisit next fuel) fuel
              (λ w'. (x : ℕ) → member w.seen x ≡ true → member w'.seen x ≡ true)
              (Collected (Avoids w.seen node)) Collected-refl (λ _ _ _. Collected-trans)
              (λ _ _ c. Grown-seen c.grown) (next node)
              (λ n m mid small kept.
                let (w', e, c, seen') =
                  rvisit_total closed fuel n mid (closed node n inside m) small in
                (
                  w',
                  e,
                  Collected-map (λ x. through node n w mid new m kept) c,
                  (λ x p. Grown-seen c.grown x (kept x p)),
                  seen',
                ))
              w0 (omega (arith, unseen-mark us w.seen node inside new)) (λ x p. ground arith) in
          (
            w1,
            rw (rvisit, new, e1) refl,
            enter node w w1 new all c1,
            Grown-seen c1.grown node (member-head node w.seen),
          )
    ]
