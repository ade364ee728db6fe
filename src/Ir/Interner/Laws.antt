-- ===== src/Ir/Interner/Laws.antt =====
-- The interner of crates/mangle-ir/src/lib.rs gives each string one key, and keeps it.
use mangle_rs.Prelude.{
  ℕ, ◌+◌, ◌-◌, ◌^◌, ◌<◌, ◌≡◌, ◌⊎◌, ◌↔◌, ltb, panic, sym, ap, ◌∙◌, subst, inl, inr, none, some, [],
  ◌∷◌, ◌++◌, arith, Bool-cases, Option-cases, length, get_elem?, length-append, get_elem?-append,
  get_elem?-append_lt, lt_of_get_elem?, get_elem?-push, ◌==◌, ==-refl, ==_iff, ==-ne, nat_eq,
  list_eq, pair_eq, Str, ok-injective, or_panic-eq-ok, some-injective, ok, int_eq,
}
use mangle_rs.Prelude.Map
use mangle_rs.Ir.Interner
use mangle_rs.Ir.Interner.{Interner, new_key, index, intern, intern_fresh, get, lookup}

-- The map and the vector say the same, and a key has room for each string that is interned.
pub record IsInterner (s : Interner) : Type 0 where
  pub room : length s.vec < 2 ^ 32
  pub key_resolves :
      (name : Str) (k : ℕ) → s.keys name ≡ some k → (0 < k) × (get_elem? s.vec (k - 1) ≡ some name)
  pub name_keyed : (i : ℕ) (name : Str) → get_elem? s.vec i ≡ some name → s.keys name ≡ some (i + 1)

new_key_lem : (n : ℕ) → n < 2 ^ 32 - 1 → new_key n ≡ ok (n + 1)
unfolding new_key
new_key_lem n h = ground arith

-- the number after the last key wraps around to zero
new_key_full : (n : ℕ) → n ≡ 2 ^ 32 - 1 → new_key n ≡ panic
unfolding new_key
new_key_full n h = rw h

room_cases : (n : ℕ) → n < 2 ^ 32 → (n < 2 ^ 32 - 1) ⊎ (n ≡ 2 ^ 32 - 1)
room_cases n h = elim (Bool-cases (ltb n (2 ^ 32 - 1))) [
  | inl lt ↦ inl (ground arith)
  | inr ge ↦ inr (ground arith)
]

module _ (s : Interner) (name : Str) (inv : IsInterner s) where
  abbrev grown : Interner
  grown = record { keys = Map.insert s.keys name (length s.vec + 1); vec = s.vec ++ name ∷ [] }

  intern-known : (k : ℕ) → s.keys name ≡ some k → intern s name ≡ ok (s, k)
  unfolding intern
  intern-known k h = rw (h, intern)

  intern-new :
      s.keys name ≡ none → length s.vec < 2 ^ 32 - 1 → intern s name ≡ ok (grown, length s.vec + 1)
  unfolding intern intern_fresh
  intern-new h fits = rw (h, intern) (rw (new_key_lem (length s.vec) fits))

  intern-full : s.keys name ≡ none → length s.vec ≡ 2 ^ 32 - 1 → intern s name ≡ panic
  unfolding intern intern_fresh
  intern-full h full = rw (h, intern) (rw (new_key_full (length s.vec) full))

  grown-key :
      (other : Str) (k : ℕ)
      → grown.keys other ≡ some k
      → (0 < k) × (get_elem? grown.vec (k - 1) ≡ some other)
  grown-key other k h = elim (Bool-cases (other == name)) [
    | inl same ↦
        let e : length s.vec + 1 ≡ k = some-injective (rw same at h) in
        (omega arith, rw (← e, (==_iff other name).0 same) (at_end))
    | inr ne ↦
        let (p, q) = inv.key_resolves other k (rw ne at h) in
        (p, get_elem?-append_lt s.vec _ _ (lt_of_get_elem? s.vec _ q) ∙ q)
  ]
    where
      at_end : get_elem? grown.vec (length s.vec + 1 - 1) ≡ some name
      at_end =
          let e : length s.vec + 1 - 1 ≡ length s.vec = omega arith in
          rw e (get_elem?-append s.vec [] name)

  grown-name :
      s.keys name ≡ none
      → (i : ℕ) (other : Str) → get_elem? grown.vec i ≡ some other
      → grown.keys other ≡ some (i + 1)
  grown-name fresh i other h = elim (get_elem?-push s.vec name i h) [
    | inl (e, p) ↦ rw (← p, ==-refl name, e)
    | inr old ↦
        let known = inv.name_keyed i other old in
        rw (==-ne other name (λ p. cc (known, fresh, ap s.keys p))) known
  ]

  -- What interning leaves: the three ways it can go.
  pub data Interned : Type 0 where
    known : (k : ℕ) → s.keys name ≡ some k → intern s name ≡ ok (s, k) → Interned
    fresh :
        s.keys name ≡ none
        → length s.vec < 2 ^ 32 - 1
        → intern s name ≡ ok (grown, length s.vec + 1)
        → Interned
    full : s.keys name ≡ none → length s.vec ≡ 2 ^ 32 - 1 → intern s name ≡ panic → Interned

  intern-cases : Interned
  intern-cases = elim (Option-cases (s.keys name)) [
    | inl new ↦ elim (room_cases (length s.vec) inv.room) [
      | inl fits ↦ fresh new fits (intern-new new fits)
      | inr end ↦ full new end (intern-full new end)
    ]
    | inr (k, old) ↦ known k old (intern-known k old)
  ]

-- Whenever `intern` answers, the interner that it leaves is consistent if the one before it was.
pub intern-IsInterner :
    (s : Interner) (name : Str) {s' : Interner} {k : ℕ}
    → IsInterner s
    → intern s name ≡ ok (s', k)
    → IsInterner s'
intern-IsInterner s name inv h = elim (intern-cases s name inv) [
  | known k old run ↦ subst IsInterner (ap (λ p. p.0) (ok-injective (sym run ∙ h))) inv
  | fresh new fits run ↦ subst IsInterner (ap (λ p. p.0) (ok-injective (sym run ∙ h))) (record {
    room = omega (arith, length-append s.vec (name ∷ []));
    key_resolves = grown-key s name inv;
    name_keyed = grown-name s name inv new;
  })
  | full new end run ↦ cc (run, h)
]

-- A consistent interner either answers with a key that reads back as the string, and then every key
-- given out before still reads back as the same string, or the string is new and all 2 ^ 32 - 1 keys
-- are given out, and then `intern` panics.
pub intern_reads_back :
    (s : Interner) (name : Str)
    → IsInterner s
    → ((s' : Interner) × (k : ℕ) × (intern s name ≡ ok (s', k))
        × (get s' k ≡ ok name)
        × ((j : ℕ) (other : Str) → get s j ≡ ok other → get s' j ≡ ok other))
      ⊎ ((lookup s name ≡ none) × (length s.vec ≡ 2 ^ 32 - 1) × (intern s name ≡ panic))
unfolding get index lookup
intern_reads_back s name inv = elim (intern-cases s name inv) [
  | known k old run ↦ inl (s, k, run, rw ((inv.key_resolves name k old).1), λ j other h. h)
  | fresh new fits run ↦ inl (
    grown s name inv,
    length s.vec + 1,
    run,
    rw ((grown-key s name inv name (length s.vec + 1) (Map.insert_self s.keys name _)).1),
    λ j other h.
        let p = or_panic-eq-ok _ h in
        rw (get_elem?-append_lt s.vec (name ∷ []) (j - 1) (lt_of_get_elem? s.vec (j - 1) p)) h,
  )
  | full new end run ↦ inr (new, end, run)
]

-- the key of the interned string is found, and the keys found before stay
intern-lookup :
    (s : Interner) (name : Str) {s' : Interner} {k : ℕ}
    → IsInterner s
    → intern s name ≡ ok (s', k)
    → (lookup s' name ≡ some k)
      × ((other : Str) (j : ℕ) → lookup s other ≡ some j → lookup s' other ≡ some j)
unfolding lookup
intern-lookup s name {s'} {k} inv h = elim (intern-cases s name inv) [
  | known i old run ↦ subst Finds (ok-injective (sym run ∙ h)) (old, λ other j q. q)
  | fresh new fits run ↦ subst Finds (ok-injective (sym run ∙ h)) (
    Map.insert_self s.keys name _,
    λ other j q. rw (==-ne other name (λ p. cc (q, new, ap s.keys p))) q,
  )
  | full new end run ↦ cc (run, h)
]
  where
    Finds : Interner × ℕ → Type 0
    Finds r =
        (lookup r.0 name ≡ some r.1)
        × ((other : Str) (j : ℕ) → lookup s other ≡ some j → lookup r.0 other ≡ some j)

-- Two strings interned one after the other get the same key exactly if they are the same string, and
-- each is found under its key afterwards, where the interner was consistent.
pub intern-intern :
    (s : Interner) (a b : Str) {s' s'' : Interner} {j k : ℕ}
    → IsInterner s
    → intern s a ≡ ok (s', j)
    → intern s' b ≡ ok (s'', k)
    → ((j ≡ k) ↔ (a ≡ b)) × (lookup s'' a ≡ some j) × (lookup s'' b ≡ some k)
unfolding lookup
intern-intern s a b {s'} {s''} {j} {k} inv first second =
    let inv' = intern-IsInterner s a inv first in
    let inv'' = intern-IsInterner s' b inv' second in
    let (found_b, kept) = intern-lookup s' b inv' second in
    let found_a = kept a j (intern-lookup s a inv first).0 in
    (
      (
        λ p.
            some-injective
              (sym (inv''.key_resolves a j found_a).1 ∙ rw p (inv''.key_resolves b k found_b).1),
        λ p. some-injective (sym found_a ∙ ap s''.keys p ∙ found_b),
      ),
      found_a,
      found_b,
    )

pub IsInterner-new : IsInterner Interner.new
IsInterner-new = record {
  room = omega arith;
  key_resolves = λ text k h. cc;
  name_keyed = λ i text h. cc;
}
