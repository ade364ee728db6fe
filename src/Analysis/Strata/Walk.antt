-- ===== src/Analysis/Strata/Walk.antt =====
-- crates/mangle-analysis/src/stratification.rs: the three depth-first walks, over a function that
-- lists a node's neighbours. A set is the list of its elements. A walk deeper than its fuel is `none`.
use mangle_rs.Prelude.{
  ℕ, zero, suc, Bool, true, false, ◌||◌, Option, none, some, List, [], ◌∷◌, ◌==◌, nat_eq, list_eq,
  pair_eq, int_eq,
}

-- `contains` of a set
abbrev pub member : List ℕ → ℕ → Bool
member [] x = false
member (y ∷ ys) x = y == x || member ys x

pub record Walk : Type 0 where
  pub seen : List ℕ
  pub out : List ℕ

abbrev pub and_then : Option Walk → (Walk → Option Walk) → Option Walk
and_then none f = none
and_then (some w) f = f w

-- a `for` loop that visits each node of a list
abbrev pub each : (ℕ → Walk → Option Walk) → List ℕ → Walk → Option Walk
each f [] w = some w
each f (n ∷ ns) w = and_then (f n w) (each f ns)

-- `s.push(node)`, `sorted_indices.push(index)`: the last one pushed stands first
abbrev pub push : ℕ → Walk → Option Walk
push node w = some (record w { out = node ∷ w.out })

module _ (next : ℕ → List ℕ) where
  -- `visit` and `visit_stratum`
  unfoldable pub visit : ℕ → ℕ → Walk → Option Walk
  visit zero node w = none
  visit (suc fuel) node w = elim (member w.seen node) [
    | true ↦ some w
    | false ↦
        and_then (each (visit fuel) (next node) (record w { seen = node ∷ w.seen })) (push node)
  ]

  unfoldable pub rvisit : ℕ → ℕ → Walk → Option Walk
  rvisit zero node w = none
  rvisit (suc fuel) node w = elim (member w.seen node) [
    | true ↦ some w
    | false ↦ each (rvisit fuel) (next node) (record { seen = node ∷ w.seen; out = node ∷ w.out })
  ]
