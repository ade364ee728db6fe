-- ===== src/Interpreter/MemStore/Insert.antt =====
-- `insert` of `MemStore` (crates/mangle-interpreter/src/lib.rs) against the facts it stands for.
use mathlib.Core.List.{map-append}
use mangle_rs.Prelude.{
  ℕ, ◌≡◌, refl, ap, ◌∙◌, ap₂, inl, inr, Bool, true, false, ◌&&◌, ◌||◌, not, Option, none, some,
  List, [], ◌∷◌, ◌++◌, map, if◌then◌else◌, Bool-cases, get_or, length, All, All-append, ◌==◌,
  ==-refl, ==_iff, nat_eq, list_eq, pair_eq, Str, int_eq,
}
use mangle_rs.Prelude.Map
use mangle_rs.Prelude.Map.{Map}
use mangle_rs.Prelude.Assoc
use mangle_rs.Prelude.Assoc.{Distinct-insert, lookup-insert}
use mangle_rs.Common.Value.Equality.{value_eq}
use mangle_rs.Interpreter.Cells.{Row, Tuple, flatten_tuple}
use mangle_rs.Interpreter.Cells.Skip.{cell_eq, beq-flatten_tuple}
use mangle_rs.Interpreter.MemStore.State.{Tables, MemStore, rows, contains, push_row}
use mangle_rs.Interpreter.MemStore.Writes.{insert, insert_new, arity_agrees}
use mangle_rs.Interpreter.MemStore.Facts.{HasArity, Facts, Holds, Represents}

-- Whether the tuple is among the tuples.
abbrev pub known : List Tuple → Tuple → Bool
known [] t = false
known (u ∷ us) t = (u == t) || known us t

-- The tuples of one relation with one more tuple behind them.
abbrev pub add_tuple : (Str → List Tuple) → Str → Tuple → Str → List Tuple
add_tuple facts r t q = if r == q then facts q ++ t ∷ [] else facts q

-- A fact is new if no list of its relation has it and its length is the relation's arity, where that
-- is settled; a new fact is collected for the next round.
abbrev pub is_new : Option ℕ → Facts → Str → Tuple → Bool
is_new arity f r t =
    not (known (f.stable r) t || known (f.delta r) t || known (f.next r) t)
    && arity_agrees arity (length t)

abbrev pub insert_fact : Option ℕ → Facts → Str → Tuple → Facts
insert_fact arity f r t = if is_new arity f r t then record f { next = add_tuple f.next r t } else f

pub contains-known :
    (ts : List Tuple) (t : Tuple) → contains (map flatten_tuple ts) (flatten_tuple t) ≡ known ts t
contains-known [] t = refl
contains-known (u ∷ us) t = ap₂ ◌||◌ (beq-flatten_tuple u t) (contains-known us t)

pub rows-insert :
    (tables : Tables) (r q : Str) (rs : List Row)
    → rows (Assoc.insert tables r rs) q ≡ (if r == q then rs else rows tables q)
rows-insert tables r q rs = rw (lookup-insert r q rs tables) (go (r == q))
  where
    go :
        (b : Bool)
        → get_or (if b then some rs else Assoc.lookup q tables) []
          ≡ (if b then rs else rows tables q)
    go true = refl
    go false = refl

module _ (arity : Map Str ℕ) (r : Str) (n : ℕ) where
  -- Settling the arity of a relation that has none, or this one, leaves the others' as they are.
  or_insert-keeps : (q : Str) (m : ℕ) → arity q ≡ some m → Map.or_insert arity r n q ≡ some m
  or_insert-keeps q m h = elim (Bool-cases (q == r)) [
    | inl same ↦ rw same (rw (← (==_iff q r).0 same, h))
    | inr ne ↦ rw ne h
  ]

  All-or_insert :
      (q : Str) (ts : List Tuple)
      → All (HasArity (arity q)) ts
      → All (HasArity (Map.or_insert arity r n q)) ts
  All-or_insert q [] h = tt
  All-or_insert q (t ∷ ts) h = (or_insert-keeps q (length t) h.0, All-or_insert q ts h.1)

  Holds-or_insert :
      {tables : Tables} {facts : Str → List Tuple}
      → Holds tables arity facts
      → Holds tables (Map.or_insert arity r n) facts
  Holds-or_insert {facts = facts} h = record {
    flat = h.flat;
    typed = λ q. All-or_insert q (facts q) (h.typed q);
  }

or_insert-agrees :
    (arity : Map Str ℕ) (r : Str) (n : ℕ)
    → arity_agrees (arity r) n ≡ true
    → Map.or_insert arity r n r ≡ some n
or_insert-agrees arity r n h = rw (==-refl r) (go (arity r) h)
  where
    go : (o : Option ℕ) → arity_agrees o n ≡ true → some (get_or o n) ≡ some n
    go none p = refl
    go (some m) p = ap some ((==_iff m n).0 p)

Holds-push_row :
    {tables : Tables} {arity : Map Str ℕ} {facts : Str → List Tuple} (r : Str) (t : Tuple)
    → arity r ≡ some (length t)
    → Holds tables arity facts
    → Holds (push_row tables r (flatten_tuple t)) arity (add_tuple facts r t)
Holds-push_row {tables} {arity} {facts} r t a h = record {
  flat = λ q. elim (Bool-cases (r == q)) [
    | inl same ↦
        rows-insert tables r q new_rows
        ∙ rw (same, ← (==_iff r q).0 same, map-append)
            (ap (λ rs. rs ++ flatten_tuple t ∷ []) (h.flat r))
    | inr ne ↦ rows-insert tables r q new_rows ∙ rw ne (h.flat q)
  ];
  typed = λ q. elim (Bool-cases (r == q)) [
    | inl same ↦
        rw (same, ← (==_iff r q).0 same)
          (All-append (HasArity (arity r)) (facts r) (t ∷ []) (h.typed r) (a, tt))
    | inr ne ↦ rw ne (h.typed q)
  ];
}
  where
    new_rows : List Row
    new_rows = rows tables r ++ flatten_tuple t ∷ []

module _ {s : MemStore} {f : Facts} (rep : Represents s f) (r : Str) (t : Tuple) where
  found-known :
      (contains (rows s.stable r) (flatten_tuple t)
        || contains (rows s.delta r) (flatten_tuple t)
        || contains (rows s.next_delta r) (flatten_tuple t))
      ≡ (known (f.stable r) t || known (f.delta r) t || known (f.next r) t)
  found-known =
      rw (rep.stable_holds.flat r, rep.delta_holds.flat r, rep.next_holds.flat r)
        (rw (
          contains-known (f.stable r) t,
          contains-known (f.delta r) t,
          contains-known (f.next r) t,
        ))

  insert_new-Represents :
      arity_agrees (s.arity r) (length t) ≡ true
      → Represents
          (insert_new s r (length t) (flatten_tuple t))
          (record f { next = add_tuple f.next r t })
  unfolding insert_new
  insert_new-Represents a = record {
    stable_holds = Holds-or_insert s.arity r (length t) rep.stable_holds;
    delta_holds = Holds-or_insert s.arity r (length t) rep.delta_holds;
    next_holds =
        Holds-push_row r t (or_insert-agrees s.arity r (length t) a)
          (Holds-or_insert s.arity r (length t) rep.next_holds);
    stable_indexed = rep.stable_indexed;
    delta_indexed = rep.delta_indexed;
    delta_distinct = rep.delta_distinct;
    next_distinct =
        Distinct-insert s.next_delta r (rows s.next_delta r ++ flatten_tuple t ∷ [])
          rep.next_distinct;
  }

abbrev answer : MemStore → MemStore → Bool → Bool → MemStore × Bool
answer s added b c = if b then (s, false) else if c then (added, true) else (s, false)

-- the three outcomes of `insert`
insert_cases :
    (s added : MemStore) (f grown : Facts) (b c : Bool)
    → Represents s f
    → (c ≡ true → Represents added grown)
    → ((answer s added b c).1 ≡ (not b && c))
      × Represents (answer s added b c).0 (if not b && c then grown else f)
insert_cases s added f grown true c rep new_rep = (refl, rep)
insert_cases s added f grown false true rep new_rep = (refl, new_rep refl)
insert_cases s added f grown false false rep new_rep = (refl, rep)

-- `insert` reports whether the fact is new, that is in none of the relation's three lists and of its
-- settled arity, and the store it leaves stands for the facts with a new fact collected for the next
-- round, and for the same facts where it is not new.
pub insert-Represents :
    (s : MemStore) (f : Facts) (r : Str) (t : Tuple)
    → Represents s f
    → ((insert s r t).1 ≡ is_new (s.arity r) f r t)
      × Represents (insert s r t).0 (insert_fact (s.arity r) f r t)
unfolding insert
insert-Represents s f r t rep = rw (found-known rep r t) (
    insert_cases s (insert_new s r (length t) (flatten_tuple t)) f
      (record f { next = add_tuple f.next r t })
      (known (f.stable r) t || known (f.delta r) t || known (f.next r) t)
      (arity_agrees (s.arity r) (length t)) rep (insert_new-Represents rep r t))
