-- ===== src/Interpreter/MemStore/Merged.antt =====
-- `merge_deltas` of `MemStore` (crates/mangle-interpreter/src/lib.rs) against the facts it stands for.
use mathlib.Core.Path.{fun_ext}
use mathlib.Core.List.{append-nil, map-append}
use mangle_rs.Prelude.{
  ℕ, suc, ◌+◌, ◌≡◌, refl, sym, ap, ◌∙◌, subst, inl, inr, Bool, true, false, none, List, [], ◌∷◌,
  ◌++◌, map, arith, if◌then◌else◌, Bool-cases, get_or, length, All, All-append, ◌==◌, ==-refl,
  ==_iff, ==-sym, nat_eq, list_eq, pair_eq, Str, ok, int_eq,
}
use mangle_rs.Prelude.Map
use mangle_rs.Prelude.Map.{Map}
use mangle_rs.Prelude.Assoc
use mangle_rs.Prelude.Assoc.{Assoc, Distinct}
use mangle_rs.Interpreter.Cells.{Cell, Row, Tuple, flatten_tuple}
use mangle_rs.Interpreter.MemStore.State.{Tables, Indexes, MemStore, rows}
use mangle_rs.Interpreter.MemStore.Merge.{merge_tables, index_delta, merge_deltas}
use mangle_rs.Interpreter.MemStore.Facts.{
  postings, has_key, positions, HasArity, Facts, Holds, Indexed, Represents,
}
use mangle_rs.Interpreter.MemStore.Insert.{rows-insert}
use mangle_rs.Interpreter.MemStore.Scans.{Holds-Typed, no_rows}
use mangle_rs.Interpreter.MemStore.Tables.{Extends, merge_rows_lem, index_delta_rows_lem}

abbrev joined : (Str → List Tuple) → (Str → List Tuple) → Str → List Tuple
joined fs gs q = fs q ++ gs q

-- the facts of one relation, or of all but that one
abbrev only : Str → (Str → List Tuple) → Str → List Tuple
only r fs q = if r == q then fs q else []

abbrev pub without : Str → (Str → List Tuple) → Str → List Tuple
without r fs q = if r == q then [] else fs q

joined-split :
    (r : Str) (fs gs : Str → List Tuple)
    → joined (joined fs (only r gs)) (without r gs) ≡ joined fs gs
joined-split r fs gs = fun_ext λ q. go (r == q) (fs q) (gs q)
  where
    go :
        (b : Bool) (f g : List Tuple)
        → (f ++ (if b then g else [])) ++ (if b then [] else g) ≡ f ++ g
    go true f g = append-nil (f ++ g)
    go false f g = ap (λ x. x ++ g) (append-nil f)

positions-append :
    (d : ℕ) (l : Cell) (ts us : List Tuple) (start : ℕ)
    → positions d l (ts ++ us) start
      ≡ positions d l ts start ++ positions d l us (start + length ts)
positions-append d l [] us start = ap (positions d l us) (omega arith)
positions-append d l (t ∷ ts) us start =
    let ih = positions-append d l ts us (start + 1) in
    let e : start + 1 + length ts ≡ start + suc (length ts) = omega arith in
    go (has_key t d l) _ _ _ (ih ∙ ap (λ n. positions d l ts (start + 1) ++ positions d l us n) e)
  where
    go :
        (b : Bool) (all front back : List ℕ)
        → all ≡ front ++ back
        → (if b then start ∷ all else all) ≡ (if b then start ∷ front else front) ++ back
    go true all front back p = ap (λ is. start ∷ is) p
    go false all front back p = p

length-map : (ts : List Tuple) → length (map flatten_tuple ts) ≡ length ts
length-map [] = refl
length-map (t ∷ ts) = ap suc (length-map ts)

-- The head of a walked table, and the rest of it.
module _ {arity : Map Str ℕ} {facts : Str → List Tuple} (r : Str) (rs : List Row) (l : Tables)
    (fresh : Assoc.lookup r l ≡ none) (h : Holds ((r, rs) ∷ l) arity facts) where
  head_rows : rs ≡ map flatten_tuple (facts r)
  head_rows = rw (==-refl r) at (h.flat r)

  Holds-tail : Holds l arity (without r facts)
  Holds-tail = record {
    flat = λ q. elim (Bool-cases (r == q)) [
      | inl same ↦ rw (same, ← (==_iff r q).0 same, fresh)
      | inr ne ↦ rw ne (rw ne at (h.flat q))
    ];
    typed = λ q. elim (Bool-cases (r == q)) [ inl same ↦ rw same tt | inr ne ↦ rw ne (h.typed q) ];
  }

-- One relation's delta goes behind its stable rows.
module _ {arity : Map Str ℕ} {stable : Tables} {fs : Str → List Tuple} (gs : Str → List Tuple)
    (r : Str) (hs : Holds stable arity fs) (typed : All (HasArity (arity r)) (gs r)) where
  Holds-moved :
      Holds
        (Assoc.insert stable r (rows stable r ++ map flatten_tuple (gs r)))
        arity
        (joined fs (only r gs))
  Holds-moved = record {
    flat = λ q.
        rows-insert stable r q (rows stable r ++ map flatten_tuple (gs r))
        ∙ elim (Bool-cases (r == q)) [
          | inl same ↦
              rw (same, ← (==_iff r q).0 same, map-append)
                (ap (λ x. x ++ map flatten_tuple (gs r)) (hs.flat r))
          | inr ne ↦ rw ne (hs.flat q ∙ ap (map flatten_tuple) (sym (append-nil (fs q))))
        ];
    typed = λ q.
        All-append (HasArity (arity q)) (fs q) (only r gs q) (hs.typed q)
          (elim (Bool-cases (r == q)) [
            | inl same ↦ rw (same, ← (==_iff r q).0 same) typed
            | inr ne ↦ rw ne tt
          ]);
  }

  Indexed-moved :
      (indexes grown : Indexes)
      → Indexed indexes fs
      → Extends indexes grown r (gs r) (length (rows stable r))
      → Indexed grown (joined fs (only r gs))
  Indexed-moved indexes grown hi e q d l = e q d l ∙ elim (Bool-cases (r == q)) [
    | inl same ↦
        let n : length (rows stable r) ≡ 0 + length (fs r) =
          omega (arith, ap length (hs.flat r), length-map (fs r)) in
        rw (same, ← (==_iff r q).0 same, ==-refl r, hi r d l, n)
          (sym (positions-append d l (fs r) (gs r) 0))
    | inr ne ↦
        rw (ne, ==-sym q r, ne, hi q d l) (ap (λ x. positions d l x 0) (sym (append-nil (fs q))))
  ]

merge_tables_lem :
    (l : Tables) (arity : Map Str ℕ) (stable : Tables) (indexes : Indexes)
    (fs gs : Str → List Tuple)
    → Distinct l
    → Holds l arity gs
    → Holds stable arity fs
    → Indexed indexes fs
    → (merged : Tables) × (grown : Indexes) × (merge_tables arity l stable indexes
        ≡ ok (merged, grown))
      × Holds merged arity (joined fs gs)
      × Indexed grown (joined fs gs)
unfolding merge_tables
merge_tables_lem [] arity stable indexes fs gs distinct hl hs hi =
    let e : fs ≡ joined fs gs =
      fun_ext λ r.
        sym (append-nil (fs r)) ∙ ap (λ x. fs r ++ x) (sym (no_rows (gs r) (sym (hl.flat r)))) in
    (stable, indexes, refl, subst (Holds stable arity) e hs, subst (Indexed indexes) e hi)
merge_tables_lem ((r, rs) ∷ l) arity stable indexes fs gs distinct hl hs hi =
    let (next, done, e) =
      merge_rows_lem (gs r) indexes r (get_or (arity r) 0) (rows stable r) (Holds-Typed r hl) in
    let (merged, grown, rest, hm, hg) =
      merge_tables_lem l arity (Assoc.insert stable r (rows stable r ++ map flatten_tuple (gs r)))
        next (joined fs (only r gs)) (without r gs) distinct.1 (Holds-tail r rs l distinct.0 hl)
        (Holds-moved gs r hs (hl.typed r)) (Indexed-moved gs r hs (hl.typed r) indexes next hi e) in
    (
      merged,
      grown,
      rw (head_rows r rs l distinct.0 hl, done) rest,
      subst (Holds merged arity) (joined-split r fs gs) hm,
      subst (Indexed grown) (joined-split r fs gs) hg,
    )

index_delta_lem :
    (l : Tables) (arity : Map Str ℕ) (indexes : Indexes) (gs : Str → List Tuple)
    → Distinct l
    → Holds l arity gs
    → (grown : Indexes) × (index_delta arity l indexes ≡ ok grown)
      × ((q : Str) (d : ℕ) (k : Cell)
          → postings grown q d k ≡ postings indexes q d k ++ positions d k (gs q) 0)
unfolding index_delta
index_delta_lem [] arity indexes gs distinct hl = (
  indexes,
  refl,
  λ q d k.
      sym (append-nil (postings indexes q d k))
      ∙ ap (λ x. postings indexes q d k ++ positions d k x 0)
          (sym (no_rows (gs q) (sym (hl.flat q)))),
)
index_delta_lem ((r, rs) ∷ l) arity indexes gs distinct hl =
    let (next, done, e) =
      index_delta_rows_lem (gs r) indexes r (get_or (arity r) 0) 0 (Holds-Typed r hl) in
    let (grown, rest, g) =
      index_delta_lem l arity next (without r gs) distinct.1 (Holds-tail r rs l distinct.0 hl) in
    (
      grown,
      rw (head_rows r rs l distinct.0 hl, done) rest,
      λ q d k. g q d k ∙ elim (Bool-cases (r == q)) [
        | inl same ↦ rw (same, append-nil) (e q d k ∙ rw (← (==_iff r q).0 same, ==-refl r))
        | inr ne ↦ rw ne (ap (λ x. x ++ positions d k (gs q) 0) (e q d k ∙ rw (==-sym q r, ne)))
      ],
    )

-- The facts after `merge_deltas`: the new facts are stable behind the old ones, those collected for
-- the next round are new, and none are collected.
abbrev pub merge_facts : Facts → Facts
merge_facts f = record { stable = joined f.stable f.delta; delta = f.next; next = λ r. [] }

-- `merge_deltas` never panics on a store that stands for facts. The store that it leaves, its indexes
-- included, stands for these: the stable facts followed by the new ones, as new ones those that were
-- collected, and none collected.
pub merge_deltas-Represents :
    (s : MemStore) (f : Facts)
    → Represents s f
    → (s' : MemStore) × (merge_deltas s ≡ ok s') × Represents s' (merge_facts f)
unfolding merge_deltas
merge_deltas-Represents s f rep =
    let (merged, grown, done, hm, hg) =
      merge_tables_lem s.delta s.arity s.stable s.stable_indexes f.stable f.delta rep.delta_distinct
        rep.delta_holds rep.stable_holds rep.stable_indexed in
    let (delta_grown, delta_done, g) =
      index_delta_lem s.next_delta s.arity Map.empty f.next rep.next_distinct rep.next_holds in
    (
      record s {
        stable = merged;
        delta = s.next_delta;
        next_delta = [];
        stable_indexes = grown;
        delta_indexes = delta_grown;
      },
      rw (done, delta_done),
      record {
        stable_holds = hm;
        delta_holds = rep.next_holds;
        next_holds = record { flat = λ r. refl; typed = λ r. tt };
        stable_indexed = hg;
        delta_indexed = g;
        delta_distinct = rep.next_distinct;
        next_distinct = tt;
      },
    )
