-- ===== src/Interpreter/Premises.antt =====
-- crates/mangle-interpreter/src/lib.rs: what the operations report to `ProvenanceRecorder`.

use mangle_rs.Prelude.{
  ℕ, Bool, true, false, Option, none, some, List, [], ◌∷◌, ◌++◌, nat_eq, list_eq, pair_eq, Str,
  int_eq,
}
use mangle_rs.Common.Value.Equality.{value_eq}
use mangle_rs.Interpreter.Cells.{Tuple}
use mangle_rs.Interpreter.Context.{ProvenanceRecorder, Machine}

-- `if let Some(ref mut prov) = self.provenance { prov.active_premises.push(..) }`
unfoldable pub push_premise : Str → Tuple → Option ProvenanceRecorder → Option ProvenanceRecorder
push_premise rel_name tuple none = none
push_premise rel_name tuple (some p) =
    some (record p { active_premises = p.active_premises ++ (rel_name, tuple) ∷ [] })

-- `Vec::pop`
abbrev pub drop_last {ℓ} : {A : Type ℓ} → List A → List A
drop_last [] = []
drop_last (x ∷ []) = []
drop_last (x ∷ y ∷ ys) = x ∷ drop_last (y ∷ ys)

unfoldable pub pop_premise : Option ProvenanceRecorder → Option ProvenanceRecorder
pop_premise none = none
pop_premise (some p) = some (record p { active_premises = drop_last p.active_premises })

-- a derivation of a new fact, from the premises that are active
unfoldable pub record_entry : Str → Tuple → Option ProvenanceRecorder → Option ProvenanceRecorder
record_entry rel_name tuple none = none
record_entry rel_name tuple (some p) = some (record p {
  entries =
      p.entries ++ (record { derived = (rel_name, tuple); premises = p.active_premises }) ∷ [];
})

-- what an insert leaves, and what it counts
unfoldable pub inserted : {S : Type 0} → Str → Tuple → S → Bool → Machine S → Machine S × ℕ
unfolding record_entry
inserted rel_name tuple store' true m =
    (record m { store = store'; provenance = record_entry rel_name tuple m.provenance }, 1)
inserted rel_name tuple store' false m = (record m { store = store' }, 0)
