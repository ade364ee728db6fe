-- ===== src/Prelude/Map.antt =====
-- Rust's `HashMap` as the function that its `get` is.
use mathlib.Core.Path.{◌≡◌}
use mathlib.Core.Logic.{◌≢◌}
use mathlib.Core.Option.{Option, none, some}
use mangle_rs.Prelude.Tests.{if◌then◌else◌, get_or}
use mangle_rs.Prelude.Equals.{Eq, ◌==◌, ==-refl, ==-ne}

abbrev pub Map {ℓ κ} : Type ℓ → Type κ → Type (ℓ ⊔ κ)
Map K V = K → Option V

module _ {ℓ κ} {K : Type ℓ} {V : Type κ} where
  abbrev pub empty : Map K V
  empty k = none

module _ {ℓ κ} {K : Type ℓ} {V : Type κ} ⦃e : Eq K⦄ where
  abbrev pub insert : Map K V → K → V → Map K V
  insert m k v j = if j == k then some v else m j

  abbrev pub remove : Map K V → K → Map K V
  remove m k j = if j == k then none else m j

  -- `entry(k).or_insert(v)`
  abbrev pub or_insert : Map K V → K → V → Map K V
  or_insert m k v j = if j == k then some (get_or (m k) v) else m j

  pub insert_self : (m : Map K V) (k : K) (v : V) → insert m k v k ≡ some v
  insert_self m k v = rw (==-refl k)

  pub insert_ne : (m : Map K V) {k j : K} (v : V) → j ≢ k → insert m k v j ≡ m j
  insert_ne m {k} {j} v h = rw (==-ne j k h)
