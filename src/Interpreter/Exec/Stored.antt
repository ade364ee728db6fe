-- ===== src/Interpreter/Exec/Stored.antt =====
-- What a plan does to the in-memory store (crates/mangle-interpreter/src/lib.rs, `exec_op` over
-- `MemStore`).
use mathlib.Core.List.{append-nil, append_assoc}
use mangle_rs.Prelude.{
  ℕ, ◌≡◌, refl, sym, subst, inl, inr, Bool, true, false, Option, List, [], ◌∷◌, ◌++◌, arith,
  Bool-cases, All, All-append, ◌==◌, ==_iff, nat_eq, list_eq, pair_eq, Str, ok-injective, ok,
  int_eq,
}
use mangle_rs.Common.Value.Equality.{value_eq}
use mangle_rs.Interpreter.Cells.{Tuple}
use mangle_rs.Interpreter.Context.{Context, mem_store, Machine}
use mangle_rs.Interpreter.Exec.{exec_op}
use mangle_rs.Interpreter.Exec.Keeps.{Run-keeps}
use mangle_rs.Interpreter.Exec.Sound.{exec_op-Leads}
use mangle_rs.Interpreter.MemStore.Facts.{Facts, Represents}
use mangle_rs.Interpreter.MemStore.Insert.{insert-Represents, insert_fact, is_new, add_tuple, known}
use mangle_rs.Interpreter.MemStore.State.{MemStore}
use mangle_rs.Interpreter.MemStore.Writes
use mangle_rs.Ir.Physical.{Op}

-- A fact that the relation had neither as a stable nor as a new one.
abbrev pub IsUnknown : Facts → Str → Tuple → Type 0
IsUnknown f r t = (known (f.stable r) t ≡ false) × (known (f.delta r) t ≡ false)

-- The same stable and new facts, and more facts collected, none of which was among the others.
pub record Collects (f g : Facts) : Type 0 where
  pub same_stable : g.stable ≡ f.stable
  pub same_delta : g.delta ≡ f.delta
  pub collected :
      (r : Str) → (more : List Tuple) × (g.next r ≡ f.next r ++ more) × All (IsUnknown f r) more

Collects-refl : (f : Facts) → Collects f f
Collects-refl f = record {
  same_stable = refl;
  same_delta = refl;
  collected = λ r. ([], sym (append-nil (f.next r)), tt);
}

Collects-add :
    (f g : Facts) (arity : Option ℕ) (r : Str) (t : Tuple)
    → Collects f g
    → is_new arity g r t ≡ true
    → Collects f (record g { next = add_tuple g.next r t })
Collects-add f g arity r t h e = record {
  same_stable = h.same_stable;
  same_delta = h.same_delta;
  collected = λ q.
      let (more, p, all) = h.collected q in
      elim (Bool-cases (r == q)) [
        | inl same ↦ (
          more ++ t ∷ [],
          rw (same, p) (append_assoc (f.next q) more (t ∷ [])),
          All-append (IsUnknown f q) more (t ∷ []) all (unknown q same, tt),
        )
        | inr ne ↦ (more, rw ne p, all)
      ];
}
  where
    unknown : (q : Str) → (r == q) ≡ true → IsUnknown f q t
    unknown q same =
        subst (λ k. IsUnknown f k t) ((==_iff r q).0 same)
          (
            subst (λ facts. known (facts r) t ≡ false) h.same_stable (ground (arith, e)),
            subst (λ facts. known (facts r) t ≡ false) h.same_delta (ground (arith, e)),
          )

Collects-insert_fact :
    (f g : Facts) (arity : Option ℕ) (r : Str) (t : Tuple)
    → Collects f g
    → Collects f (insert_fact arity g r t)
Collects-insert_fact f g arity r t h = elim (Bool-cases (is_new arity g r t)) [
  | inl e ↦ rw e (Collects-add f g arity r t h e)
  | inr e ↦ rw e h
]

-- An operation that succeeds on a store that stands for facts leaves a store that stands for facts
-- again, its indexes included: the stable and the new facts are the same, and the facts collected for
-- the next round are followed by others, none of which was stable or new.
pub exec_op-Represents :
    (c : Context) (op : Op) (m u : Machine MemStore) (n : ℕ) (f : Facts)
    → Represents m.store f
    → exec_op c op m ≡ ok (u, n)
    → (g : Facts) × Represents u.store g × Collects f g
exec_op-Represents c op m u n f rep e =
    Run-keeps (λ s. (g : Facts) × Represents s g × Collects f g) step
      ((exec_op-Leads c op m).made u n e) (f, rep, Collects-refl f)
  where
    step :
        (s s' : MemStore) (r : Str) (t : Tuple) (b : Bool)
        → ok (Writes.insert s r t) ≡ ok (s', b)
        → ((g : Facts) × Represents s g × Collects f g)
        → ((g : Facts) × Represents s' g × Collects f g)
    step s s' r t b h (g, rep_s, kept) = (
      insert_fact (s.arity r) g r t,
      subst (λ p. Represents p.0 (insert_fact (s.arity r) g r t)) (ok-injective h)
          (insert-Represents s g r t rep_s).1,
      Collects-insert_fact f g (s.arity r) r t kept,
    )
