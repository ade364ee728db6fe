-- ===== src/Analysis/Strata/Numbers.antt =====
-- The numbers that `stratify` gives to predicates: the position of their stratum among the layers.
use mangle_rs.Prelude.{
  ℕ, zero, suc, ◌≤◌, ◌≡◌, refl, sym, ap, ◌∙◌, inl, inr, true, false, none, some, List, [], ◌∷◌,
  arith, if◌then◌else◌, Bool-cases, Option-cases, get_or, get_elem?, ◌==◌, ==-refl, ==_iff, nat_eq,
  list_eq, pair_eq, some-injective, int_eq,
}
use mangle_rs.Prelude.Assoc.{Assoc, lookup, insert, lookup-insert}
use mangle_rs.Analysis.Strata.Walk.{member}
use mangle_rs.Analysis.Strata.Graph.{EdgeMap, DepGraph}
use mangle_rs.Analysis.Strata.Order.{number, negated_into, rejected}
use mangle_rs.Analysis.Strata.Edges.{edge}
use mangle_rs.Analysis.Strata.Layers.{Layered}
use mangle_rs.Analysis.Strata.Sort.{pred_to_index}

-- A predicate's stratum holds it.
pub pred_to_index-get_elem? :
    (strata : List (List ℕ)) (x i : ℕ)
    → pred_to_index strata x ≡ some i
    → (c : List ℕ) × (get_elem? strata i ≡ some c) × (member c x ≡ true)
unfolding pred_to_index
pred_to_index-get_elem? [] x i h = ground arith
pred_to_index-get_elem? (c ∷ strata) x i h = elim (Bool-cases (member c x)) [
  | inl m ↦ (c, ground arith, m)
  | inr m ↦ elim (Option-cases (pred_to_index strata x)) [
    | inl e ↦ ground arith
    | inr (k, e) ↦
        let (c', g, m') = pred_to_index-get_elem? strata x k e in
        let q : i ≡ suc k = ground arith in (c', ap (get_elem? (c ∷ strata)) q ∙ g, m')
  ]
]

pub pred_to_index-found :
    (strata : List (List ℕ)) (i x : ℕ) (c : List ℕ)
    → get_elem? strata i ≡ some c
    → member c x ≡ true
    → (k : ℕ) × (pred_to_index strata x ≡ some k)
unfolding pred_to_index
pred_to_index-found [] i x c g m = ground arith
pred_to_index-found (d ∷ strata) zero x c g m =
    (0, ground (arith, ap (λ z. member z x) (some-injective g)))
pred_to_index-found (d ∷ strata) (suc i) x c g m = elim (Bool-cases (member d x)) [
  | inl p ↦ (0, rw p refl)
  | inr p ↦ let (k, e) = pred_to_index-found strata i x c g m in (suc k, rw (p, e) refl)
]

module _ (next : ℕ → List ℕ) (us : List ℕ) where
  pub pred_to_index-seen :
      (seen : List ℕ) (strata : List (List ℕ))
      → Layered next us seen strata
      → (x : ℕ) → member seen x ≡ true
      → pred_to_index strata x ≡ none
  unfolding pred_to_index
  pred_to_index-seen seen [] l x m = refl
  pred_to_index-seen seen (c ∷ strata) (layer, seen', after, l) x m =
      ground (arith, layer.apart x, after x, pred_to_index-seen seen' strata l x)

  pub get_elem?-pred_to_index :
      (seen : List ℕ) (strata : List (List ℕ))
      → Layered next us seen strata
      → (x i : ℕ) (c : List ℕ) → get_elem? strata i ≡ some c
      → member c x ≡ true
      → (member seen x ≡ false) × (pred_to_index strata x ≡ some i)
  unfolding pred_to_index
  get_elem?-pred_to_index seen [] l x i c g m = ground arith
  get_elem?-pred_to_index seen (d ∷ strata) (layer, seen', after, l) x zero c g m =
      let m' : member d x ≡ true = ap (λ z. member z x) (some-injective g) ∙ m in
      (layer.apart x m', rw m' refl)
  get_elem?-pred_to_index seen (d ∷ strata) (layer, seen', after, l) x (suc i) c g m =
      let (new, e) = get_elem?-pred_to_index seen' strata l x i c g m in
      ground (arith, after x, new, e)

  pub pred_to_index-covers :
      (seen : List ℕ) (strata : List (List ℕ))
      → Layered next us seen strata
      → (x : ℕ) → member us x ≡ true
      → member seen x ≡ false
      → (i : ℕ) × (pred_to_index strata x ≡ some i)
  unfolding pred_to_index
  pred_to_index-covers seen [] l x m new = ground (arith, l x m)
  pred_to_index-covers seen (c ∷ strata) (layer, seen', after, l) x m new =
      elim (Bool-cases (member c x)) [
        | inl p ↦ (0, rw p refl)
        | inr p ↦
            let (i, e) = pred_to_index-covers seen' strata l x m (ground (arith, after x)) in
            (suc i, rw (p, e) refl)
      ]

  -- An edge never leads to an earlier layer.
  pub pred_to_index-le :
      (seen : List ℕ) (strata : List (List ℕ))
      → Layered next us seen strata
      → (x y j : ℕ) → member (next x) y ≡ true
      → pred_to_index strata y ≡ some j
      → member seen x ≡ false
      → (i : ℕ) × (pred_to_index strata x ≡ some i) × (i ≤ j)
  unfolding pred_to_index
  pred_to_index-le seen [] l x y j e h new = ground arith
  pred_to_index-le seen (c ∷ strata) (layer, seen', after, l) x y j e h new =
      elim (Bool-cases (member c x)) [
        | inl p ↦ (0, rw p refl, omega arith)
        | inr p ↦ elim (Option-cases (pred_to_index strata y)) [
          | inl none_y ↦ ground (arith, layer.closed x y)
          | inr (k, some_y) ↦
              let (i, e', le) =
                pred_to_index-le seen' strata l x y k e some_y (ground (arith, after x)) in
              (suc i, rw (p, e') refl, ground (arith, layer.closed x y))
        ]
      ]

pub lookup-number :
    (numbers : Assoc ℕ ℕ) (i : ℕ) (c : List ℕ) (x : ℕ)
    → lookup x (number numbers i c) ≡ (if member c x then some i else lookup x numbers)
unfolding number
lookup-number numbers i [] x = refl
lookup-number numbers i (sym ∷ c) x =
    ground (arith, lookup-number (insert numbers sym i) i c x, lookup-insert sym x i numbers)

-- A negated edge into the stratum being numbered is found.
negated_into-hit :
    (numbers : Assoc ℕ ℕ) (i d : ℕ) (es : EdgeMap)
    → lookup d es ≡ some true
    → lookup d numbers ≡ some i
    → negated_into numbers i es ≡ true
unfolding negated_into
negated_into-hit numbers i d [] h n = ground arith
negated_into-hit numbers i d ((e, negated) ∷ es) h n =
    ground
      (arith, negated_into-hit numbers i d es, ==_iff e d, ==-refl i, ap (λ z. lookup z numbers))

pub rejected-hit :
    (dep : DepGraph) (numbers : Assoc ℕ ℕ) (i s d : ℕ) (c : List ℕ)
    → member c s ≡ true
    → edge dep s d ≡ some true
    → lookup d numbers ≡ some i
    → rejected dep numbers i c ≡ true
unfolding rejected
rejected-hit dep numbers i s d [] m h n = ground arith
rejected-hit dep numbers i s d (x ∷ c) m h n = elim (Bool-cases (x == s)) [
  | inl e ↦
      let h' : edge dep x d ≡ some true = ap (λ z. edge dep z d) ((==_iff x s).0 e) ∙ h in
      ground (arith, negated_into-hit numbers i d (get_or (lookup x dep) []) h' n)
  | inr ne ↦ ground (arith, rejected-hit dep numbers i s d c)
]
