-- ===== src/Prelude/Assoc.antt =====
-- A map whose entries are walked through: an association list with one entry to a key.
use mathlib.Core.Path.{◌≡◌, refl}
use mathlib.Core.Logic.{inl, inr}
use mathlib.Core.Bool.{false}
use mathlib.Core.Option.{Option, none, some}
use mathlib.Core.List.{List, [], ◌∷◌}
use native.Mathlib.Omega.{arith}
use mangle_rs.Prelude.Tests.{if◌then◌else◌, Bool-cases}
use mangle_rs.Prelude.Equals.{Eq, ◌==◌, ==_iff}

abbrev pub Assoc {ℓ κ} : Type ℓ → Type κ → Type (ℓ ⊔ κ)
Assoc K V = List (K × V)

module _ {ℓ κ} {K : Type ℓ} {V : Type κ} ⦃e : Eq K⦄ where
  abbrev pub lookup : K → Assoc K V → Option V
  lookup k [] = none
  lookup k ((j, v) ∷ m) = if j == k then some v else lookup k m

  abbrev pub insert : Assoc K V → K → V → Assoc K V
  insert [] k v = (k, v) ∷ []
  insert ((j, w) ∷ m) k v = if j == k then (j, v) ∷ m else (j, w) ∷ insert m k v

  abbrev pub remove : Assoc K V → K → Assoc K V
  remove [] k = []
  remove ((j, w) ∷ m) k = if j == k then m else (j, w) ∷ remove m k

  pub lookup-insert :
      (k j : K) (v : V) (m : Assoc K V)
      → lookup j (insert m k v) ≡ (if k == j then some v else lookup j m)
  lookup-insert k j v [] = refl
  lookup-insert k j v ((i, w) ∷ m) =
      ground (arith, ==_iff k j, ==_iff i k, ==_iff i j, lookup-insert k j v m)

  -- One entry to a key.
  abbrev pub Distinct : Assoc K V → Type κ
  Distinct [] = Unit
  Distinct ((j, w) ∷ m) = (lookup j m ≡ none) × Distinct m

  lookup-insert-none :
      (k j : K) (v : V) (m : Assoc K V)
      → (k == j) ≡ false
      → lookup j m ≡ none
      → lookup j (insert m k v) ≡ none
  lookup-insert-none k j v m ne h = rw (lookup-insert k j v m, ne) h

  pub Distinct-insert : (m : Assoc K V) (k : K) (v : V) → Distinct m → Distinct (insert m k v)
  Distinct-insert [] k v h = (refl, tt)
  Distinct-insert ((j, w) ∷ m) k v h = elim (Bool-cases (j == k)) [
    | inl same ↦ rw same h
    | inr ne ↦ rw ne (
      lookup-insert-none k j v m (ground (arith, ==_iff j k, ==_iff k j)) h.0,
      Distinct-insert m k v h.1,
    )
  ]
