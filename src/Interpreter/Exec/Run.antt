-- ===== src/Interpreter/Exec/Run.antt =====
-- What a run of a plan does to the interpreter (crates/mangle-interpreter/src/lib.rs, `exec_op`), as a
-- relation: it changes bindings, inserts facts, and does both under a premise.
use mangle_rs.Prelude.{
  ℕ, ◌+◌, ◌≡◌, subst, Bool, List, [], ◌∷◌, nat_eq, list_eq, pair_eq, Str, Outcome, ◌>>=◌, >>=-eq-ok,
  ok-injective, ok, int_eq,
}
use mangle_rs.Interpreter.Cells.{Tuple}
use mangle_rs.Interpreter.Context.{Env, Store, Machine}
use mangle_rs.Interpreter.Exec.{for_each}
use mangle_rs.Interpreter.Premises.{push_premise, pop_premise, inserted}

module _ {S : Type 0} ⦃i : Store S⦄ where
  pub data Run : Machine S → ℕ → Machine S → Type 0 where
    idle : (m : Machine S) → Run m 0 m
    rebind :
        (m : Machine S) (env : Env) {n : ℕ} {u : Machine S}
        → Run (record m { env = env }) n u
        → Run m n u
    unbind :
        (env : Env) {m : Machine S} {n : ℕ} {u : Machine S}
        → Run m n u
        → Run m n (record u { env = env })
    add :
        (m : Machine S) (relation : Str) (tuple : Tuple) (store : S) (is_new : Bool)
        → i.insert m.store relation tuple ≡ ok (store, is_new)
        → Run m
            (inserted relation tuple store is_new m).1
            (inserted relation tuple store is_new m).0
    under :
        (m : Machine S) (relation : Str) (tuple : Tuple) {n : ℕ} {u : Machine S}
        → Run (record m { provenance = push_premise relation tuple m.provenance }) n u
        → Run m n (record u { provenance = pop_premise u.provenance })
    join : {m t u : Machine S} {n k : ℕ} → Run m n t → Run t k u → Run m (n + k) u

  -- Where an operation succeeds, it has made such a run.
  pub record Leads (m : Machine S) (o : Outcome (Machine S × ℕ)) : Type 0 where
    pub made : (u : Machine S) (n : ℕ) → o ≡ ok (u, n) → Run m n u

  pub Leads-ok : {m : Machine S} {r : Machine S × ℕ} → Run m r.1 r.0 → Leads m (ok r)
  Leads-ok {m} r = record { made = λ u n e. subst (λ p. Run m p.1 p.0) (ok-injective e) r }

  pub Leads->>= :
      {A : Type 0} {m : Machine S} (o : Outcome A) {g : A → Outcome (Machine S × ℕ)}
      → ((a : A) → o ≡ ok a → Leads m (g a))
      → Leads m (o >>= g)
  Leads->>= o {g} h = record {
    made = λ u n e. let (a, p, q) = >>=-eq-ok o g e in (h a p).made u n q;
  }

  pub Leads-then :
      {m t : Machine S} (o : Outcome (Machine S × ℕ)) {g : Machine S × ℕ → Outcome (Machine S × ℕ)}
      → Leads t o
      → ((r : Machine S × ℕ) → Run t r.1 r.0 → Leads m (g r))
      → Leads m (o >>= g)
  Leads-then o {g} r h = record {
    made = λ u n e. let (a, p, q) = >>=-eq-ok o g e in (h a (r.made a.0 a.1 p)).made u n q;
  }

  -- a run that starts by changing bindings
  pub Leads-rebind :
      (m : Machine S) (env : Env) {o : Outcome (Machine S × ℕ)}
      → Leads (record m { env = env }) o
      → Leads m o
  Leads-rebind m env h = record { made = λ u n e. rebind m env (h.made u n e) }

  pub Leads-for_each :
      {A : Type 0} (run : A → Machine S → Outcome (Machine S × ℕ))
      → ((x : A) (m : Machine S) → Leads m (run x m))
      → (xs : List A) (m : Machine S) → Leads m (for_each run xs m)
  unfolding for_each
  Leads-for_each run h [] m = Leads-ok (idle m)
  Leads-for_each run h (x ∷ xs) m = Leads-then (run x m) (h x m) (λ t r.
      Leads-then (for_each run xs t.0) (Leads-for_each run h xs t.0) (λ u q. Leads-ok (join r q)))
