-- ===== src/Analysis/Strata/Correct.antt =====
-- What `stratify` promises: it returns, it orders the predicates by what they depend on, and it rejects
-- only programs with a cycle through a negated edge.
use mangle_rs.Prelude.{
  ℕ, ◌≤◌, ◌<◌, ◌≡◌, refl, sym, ap, ◌∙◌, subst, ◌≢◌, ◌⊎◌, inl, inr, Bool, true, false, Option, none,
  some, List, [], arith, Bool-cases, get_elem?, ◌==◌, ==_iff, nat_eq, list_eq, pair_eq, Error,
  ok-injective, some-injective, ok, err, int_eq,
}
use mangle_rs.Prelude.Assoc.{Assoc, lookup}
use mangle_rs.Analysis.Strata.Walk.{member}
use mangle_rs.Analysis.Strata.Graph.{Program, DepGraph, neighbors, make_dep_graph}
use mangle_rs.Analysis.Strata.Order.{nodes, sccs, number_strata, option_bind}
use mangle_rs.Analysis.Strata.Edges.{member-neighbors, nodes-source, nodes-target}
use mangle_rs.Analysis.Strata.Layers.{Layered}
use mangle_rs.Analysis.Strata.Sccs.{sccs_total}
use mangle_rs.Analysis.Strata.Sort.{sort_result, stratify, pred_to_index}
use mangle_rs.Analysis.Strata.Numbers.{pred_to_index-covers}
use mangle_rs.Analysis.Strata.Accept.{offset, number_strata-ok, number_strata-apart}
use mangle_rs.Analysis.Strata.Reject.{NegativeCycle, number_strata_result}
use mangle_rs.Analysis.Strata.Sorted.{sort_result_total}
use mangle_rs.Analysis.Strata.Depends.{Depends, Depends-HasEdge, Distinct-make_dep_graph}

-- the order that a stratification owes to the program
pub record Ordered (p : Program) (strata : List (List ℕ)) : Type 0 where
  pub below :
      (s d : ℕ) (negated : Bool)
      → Depends p s d negated
      → (i j : ℕ) × (pred_to_index strata s ≡ some i)
        × (pred_to_index strata d ≡ some j)
        × (j ≤ i)
        × (negated ≡ true → j < i)
  pub once :
      (i : ℕ) (c : List ℕ) (s : ℕ)
      → get_elem? strata i ≡ some c
      → member c s ≡ true
      → pred_to_index strata s ≡ some i

module _ (p : Program) where
  abbrev dep : DepGraph
  dep = make_dep_graph p

  -- the two ends of a run
  stratify_ok :
      (strata sorted : List (List ℕ)) (numbers : Assoc ℕ ℕ)
      → sccs dep ≡ some strata
      → number_strata dep [] 0 strata ≡ ok numbers
      → sort_result dep strata numbers ≡ some sorted
      → stratify p ≡ some (ok sorted)
  unfolding stratify
  stratify_ok strata sorted numbers e n s = rw (stratify, e, option_bind, n, s) refl

  stratify_err :
      (strata : List (List ℕ)) (why : Error)
      → sccs dep ≡ some strata
      → number_strata dep [] 0 strata ≡ err why
      → stratify p ≡ some (err why)
  unfolding stratify
  stratify_err strata why e n = rw (stratify, e, option_bind, n) refl

  numbered :
      (strata : List (List ℕ)) (numbers : Assoc ℕ ℕ)
      → Layered (neighbors dep) (nodes dep) [] strata
      → number_strata dep [] 0 strata ≡ ok numbers
      → (x : ℕ) → lookup x numbers ≡ pred_to_index strata x
  numbered strata numbers l e x =
      number_strata-ok dep (nodes dep) [] strata [] numbers 0 l e x ∙ plain (pred_to_index strata x)
    where
      plain : (o : Option ℕ) → offset 0 o none ≡ o
      plain none = refl
      plain (some k) = ap some (omega arith)

  order :
      (strata : List (List ℕ)) (numbers : Assoc ℕ ℕ)
      → Layered (neighbors dep) (nodes dep) [] strata
      → number_strata dep [] 0 strata ≡ ok numbers
      → (sorted : List (List ℕ)) × (sort_result dep strata numbers ≡ some sorted) × Ordered p sorted
  order strata numbers l e =
      let (sorted, place, ended, moved, apart, once) =
        sort_result_total dep (nodes dep) strata numbers l (numbered strata numbers l e) in
      (
        sorted,
        ended,
        record {
          below = λ s d negated need.
              let (b, h, le) = Depends-HasEdge p s d negated need in
              let step : member (neighbors dep s) d ≡ true =
                ground (arith, member-neighbors dep s d) in
              let (i, hi) =
                pred_to_index-covers (neighbors dep) (nodes dep) [] strata l s
                  (nodes-source dep s d step) refl in
              let (j, hj) =
                pred_to_index-covers (neighbors dep) (nodes dep) [] strata l d
                  (nodes-target dep s d step) refl in
              let strict : (negated ≡ true → i ≢ j) = λ neg q.
                number_strata-apart dep (nodes dep) [] strata [] numbers 0 l e s d i
                  (h ∙ ap some (le neg)) hi (hj ∙ ap some (sym q)) in
              (
                place i,
                place j,
                moved s i hi,
                moved d j hj,
                elim (Bool-cases (i == j)) [
                  | inl same ↦ omega (arith, ap place ((==_iff i j).0 same))
                  | inr other ↦
                      omega (arith, apart s d i j hi step hj (λ q. ground (arith, ==_iff i j)))
                ],
                λ neg. apart s d i j hi step hj (strict neg),
              );
          once = λ i c s. once s i c;
        },
      )

  result :
      ((strata : List (List ℕ)) × (stratify p ≡ some (ok strata)) × Ordered p strata)
      ⊎ ((stratify p ≡ some (err Error.not_stratified)) × NegativeCycle dep)
  result =
      let (strata, e, l) = sccs_total dep (Distinct-make_dep_graph p) in
      elim (number_strata_result dep (nodes dep) [] strata [] 0 l (λ x k h. ground arith)) [
        | inl (numbers, n) ↦
            let (sorted, s, ordered) = order strata numbers l n in
            inl (sorted, stratify_ok strata sorted numbers e n s, ordered)
        | inr (n, cycle) ↦ inr (stratify_err strata Error.not_stratified e n, cycle)
      ]

-- For every program, `stratify` returns: its walks end within their fuel and no index is out of range.
-- It returns strata, or the error that the program cannot be stratified.
pub stratify_total :
    (p : Program)
    → ((strata : List (List ℕ)) × (stratify p ≡ some (ok strata)))
      ⊎ (stratify p ≡ some (err Error.not_stratified))
stratify_total p = elim (result p) [ inl (strata, e, _) ↦ inl (strata, e) | inr (e, _) ↦ inr e ]

stratify-Ordered :
    (p : Program) (strata : List (List ℕ)) → stratify p ≡ some (ok strata) → Ordered p strata
stratify-Ordered p strata e = elim (result p) [
  | inl (strata', e', ordered) ↦
      subst (Ordered p) (ok-injective (some-injective (sym e' ∙ e))) ordered
  | inr (e', _) ↦ absurd (ground arith)
]

-- Where a rule for one predicate has a premise on another derived one, both stand in strata that
-- `stratify` returns, the second in no later one than the first, and in an earlier one if the premise is
-- negated or the rule groups its solutions.
pub stratify-Depends :
    (p : Program) (strata : List (List ℕ))
    → stratify p ≡ some (ok strata)
    → (s d : ℕ) (negated : Bool) → Depends p s d negated
    → (i j : ℕ) × (pred_to_index strata s ≡ some i)
      × (pred_to_index strata d ≡ some j)
      × (j ≤ i)
      × ((negated ≡ false) ⊎ (j < i))
stratify-Depends p strata e s d negated need =
    let (i, j, hi, hj, le, lt) = (stratify-Ordered p strata e).below s d negated need in
    (i, j, hi, hj, le, elim (Bool-cases negated) [ inl neg ↦ inr (lt neg) | inr plain ↦ inl plain ])

-- A predicate stands in at most one of the strata that `stratify` returns, the one that `pred_to_index`
-- finds.
pub stratify_once :
    (p : Program) (strata : List (List ℕ))
    → stratify p ≡ some (ok strata)
    → (i : ℕ) (c : List ℕ) (s : ℕ) → get_elem? strata i ≡ some c
    → member c s ≡ true
    → pred_to_index strata s ≡ some i
stratify_once p strata e = (stratify-Ordered p strata e).once

-- `stratify` fails only on a program whose graph has a negated edge from one predicate to another, from
-- which a path of edges leads back.
pub stratify-NegativeCycle :
    (p : Program) (why : Error) → stratify p ≡ some (err why) → NegativeCycle (make_dep_graph p)
stratify-NegativeCycle p why e = elim (result p) [
  | inl (strata', e', _) ↦ absurd (ground arith)
  | inr (_, cycle) ↦ cycle
]
