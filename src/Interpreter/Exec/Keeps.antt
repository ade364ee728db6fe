-- ===== src/Interpreter/Exec/Keeps.antt =====
-- What every run of a plan keeps (crates/mangle-interpreter/src/lib.rs, `exec_op`): the recorder's
-- stack of premises, the count against the recorded derivations, and the store's invariant.
use mangle_rs.Prelude.{
  ℕ, ◌+◌, ◌≡◌, refl, sym, ap, ◌∙◌, ap₂, subst, Bool, true, false, Option, none, some, List, [], ◌∷◌,
  ◌++◌, length, length-append, All, All-append, nat_eq, list_eq, pair_eq, Str, ok, int_eq,
}
use mathlib.Core.List.{append-nil, append_assoc}
use mangle_rs.Common.Value.Equality.{value_eq}
use mangle_rs.Interpreter.Cells.{Tuple}
use mangle_rs.Interpreter.Context.{
  Context, Store, mem_store, Machine, ProvenanceEntry, ProvenanceRecorder,
}
use mangle_rs.Interpreter.Exec.{exec_op}
use mangle_rs.Interpreter.Premises.{push_premise, pop_premise, drop_last, record_entry, inserted}
use mangle_rs.Interpreter.Exec.Run.{Run, idle, rebind, unbind, add, under, join}
use mangle_rs.Interpreter.Exec.Sound.{exec_op-Leads}
use mangle_rs.Interpreter.MemStore.Insert.{is_new}
use mangle_rs.Ir.Physical.{Op}

-- The list goes on with further elements.
abbrev pub GoesOn {ℓ} : {A : Type ℓ} → List A → List A → Type ℓ
GoesOn base l = (more : List _) × (l ≡ base ++ more)

-- From one state of the recorder to a later one: `n` derivations more, each of them with the active
-- premises and possibly further ones, and the same premises active.
abbrev pub Recorded : Option ProvenanceRecorder → ℕ → Option ProvenanceRecorder → Type 0
Recorded none n b = b ≡ none
Recorded (some p) n b =
    (news : List ProvenanceEntry) × (b
      ≡ some (record { entries = p.entries ++ news; active_premises = p.active_premises }))
    × (length news ≡ n)
    × All (λ e. GoesOn p.active_premises e.premises) news

Recorded-idle : (a : Option ProvenanceRecorder) → Recorded a 0 a
Recorded-idle none = refl
Recorded-idle (some p) = (
  [],
  ap (λ es. some (record { entries = es; active_premises = p.active_premises }))
      (sym (append-nil p.entries)),
  refl,
  tt,
)

Recorded-join :
    (a b c : Option ProvenanceRecorder) (n k : ℕ)
    → Recorded a n b
    → Recorded b k c
    → Recorded a (n + k) c
Recorded-join none b c n k e h = subst (λ r. Recorded r k c) e h
Recorded-join (some p) b c n k (news, e, l, all) h =
    let (news', e', l', all') = subst (λ r. Recorded r k c) e h in
    (
      news ++ news',
      e'
          ∙ ap (λ es. some (record { entries = es; active_premises = p.active_premises }))
              (append_assoc p.entries news news'),
      length-append news news' ∙ ap₂ (λ x y. x + y) l l',
      All-append (λ e. GoesOn p.active_premises e.premises) news news' all all',
    )

drop_last-push : {A : Type 0} (xs : List A) (x : A) → drop_last (xs ++ x ∷ []) ≡ xs
drop_last-push [] x = refl
drop_last-push (y ∷ []) x = refl
drop_last-push (y ∷ z ∷ zs) x = ap (λ l. y ∷ l) (drop_last-push (z ∷ zs) x)

GoesOn-base :
    {A : Type 0} (base : List A) (x : A) {l : List A} → GoesOn (base ++ x ∷ []) l → GoesOn base l
GoesOn-base base x (more, e) = (x ∷ more, e ∙ append_assoc base (x ∷ []) more)

All-GoesOn :
    (base : List (Str × Tuple)) (x : Str × Tuple) (news : List ProvenanceEntry)
    → All (λ e. GoesOn (base ++ x ∷ []) e.premises) news
    → All (λ e. GoesOn base e.premises) news
All-GoesOn base x [] h = tt
All-GoesOn base x (e ∷ es) h = (GoesOn-base base x h.0, All-GoesOn base x es h.1)

Recorded-under :
    (relation : Str) (tuple : Tuple) (a b : Option ProvenanceRecorder) (n : ℕ)
    → Recorded (push_premise relation tuple a) n b
    → Recorded a n (pop_premise b)
unfolding push_premise pop_premise
Recorded-under relation tuple none b n h = ap pop_premise h
Recorded-under relation tuple (some p) b n (news, e, l, all) = (
  news,
  ap pop_premise e
      ∙ ap (λ a. some (record { entries = p.entries ++ news; active_premises = a }))
          (drop_last-push p.active_premises (relation, tuple)),
  l,
  All-GoesOn p.active_premises (relation, tuple) news all,
)

module _ {S : Type 0} ⦃i : Store S⦄ where
  inserted-Recorded :
      (m : Machine S) (relation : Str) (tuple : Tuple) (store : S) (is_new : Bool)
      → Recorded m.provenance
          (inserted relation tuple store is_new m).1
          (inserted relation tuple store is_new m).0.provenance
  unfolding inserted record_entry
  inserted-Recorded m relation tuple store false = Recorded-idle m.provenance
  inserted-Recorded m relation tuple store true = go m.provenance
    where
      go : (a : Option ProvenanceRecorder) → Recorded a 1 (record_entry relation tuple a)
      go none = refl
      go (some p) = (_, refl, refl, (([], sym (append-nil p.active_premises)), tt))

  Run-Recorded : {m u : Machine S} {n : ℕ} → Run m n u → Recorded m.provenance n u.provenance
  Run-Recorded (idle m) = Recorded-idle m.provenance
  Run-Recorded (rebind m env r) = Run-Recorded r
  Run-Recorded (unbind env r) = Run-Recorded r
  Run-Recorded (add m relation tuple store is_new h) =
      inserted-Recorded m relation tuple store is_new
  Run-Recorded (under m relation tuple {n} {u} r) =
      Recorded-under relation tuple m.provenance u.provenance n (Run-Recorded r)
  Run-Recorded (join {m} {t} {u} {n} {k} r q) =
      Recorded-join m.provenance t.provenance u.provenance n k (Run-Recorded r) (Run-Recorded q)

  -- A property of the store that `insert` keeps is kept by a run.
  pub Run-keeps :
      {m u : Machine S} {n : ℕ} (P : S → Type 0)
      → ((s s' : S) (r : Str) (t : Tuple) (b : Bool) → i.insert s r t ≡ ok (s', b) → P s → P s')
      → Run m n u
      → P m.store
      → P u.store
  Run-keeps P k (idle m) h = h
  Run-keeps P k (rebind m env r) h = Run-keeps P k r h
  Run-keeps P k (unbind env r) h = Run-keeps P k r h
  Run-keeps P k (add m relation tuple store true e) h =
      unfold inserted in k m.store store relation tuple true e h
  Run-keeps P k (add m relation tuple store false e) h =
      unfold inserted in k m.store store relation tuple false e h
  Run-keeps P k (under m relation tuple r) h = Run-keeps P k r h
  Run-keeps P k (join r q) h = Run-keeps P k q (Run-keeps P k r h)

  -- An operation that succeeds reports the number of derivations that it has recorded, where
  -- recording is on. Each has the premises that were active before, in front of those of the
  -- operation itself; and the stack of active premises is left as it was found.
  pub exec_op-Recorded :
      (c : Context) (op : Op) (m u : Machine S) (n : ℕ)
      → exec_op c op m ≡ ok (u, n)
      → Recorded m.provenance n u.provenance
  exec_op-Recorded c op m u n e = Run-Recorded ((exec_op-Leads c op m).made u n e)
