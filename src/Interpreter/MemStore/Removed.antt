-- ===== src/Interpreter/MemStore/Removed.antt =====
-- Taking a tuple out of a table (crates/mangle-interpreter/src/lib.rs, `retract`) against the tuples that
-- the table holds.
use mangle_rs.Prelude.{
  ℕ, zero, suc, ◌+◌, ◌≡◌, refl, sym, ap, ◌∙◌, inl, inr, Bool, true, false, ◌||◌, Option, none, some,
  List, [], ◌∷◌, map, if◌then◌else◌, Bool-cases, get_or, length, take, All, ◌==◌, ==_iff, nat_eq,
  list_eq, pair_eq, Str, int_eq,
}
use mangle_rs.Prelude.Map.{Map}
use mangle_rs.Prelude.Assoc
use mangle_rs.Prelude.Assoc.{Distinct, Distinct-insert, lookup-insert}
use mangle_rs.Common.Value.Equality.{value_eq}
use mangle_rs.Interpreter.Cells.{Row, Tuple, flatten_tuple}
use mangle_rs.Interpreter.Cells.Skip.{cell_eq, beq-flatten_tuple}
use mangle_rs.Interpreter.MemStore.State.{Tables}
use mangle_rs.Interpreter.MemStore.Writes.{
  find_position, last_or, replace_at, swap_remove, take_at, take_from, take_out,
}
use mangle_rs.Interpreter.MemStore.Facts.{HasArity, Facts, Holds}
use mangle_rs.Interpreter.MemStore.Insert.{rows-insert, known}
use mangle_rs.Interpreter.MemStore.Scans.{no_rows}

abbrev pub removed_at : List Tuple → Option ℕ → List Tuple
removed_at ts none = ts
removed_at ts (some i) = swap_remove ts i

-- The tuples with the first occurrence of `t` taken out by `swap_remove`.
abbrev pub removed : List Tuple → Tuple → List Tuple
removed ts t = removed_at ts (find_position ts t)

abbrev pub removed_from : (Str → List Tuple) → Str → Tuple → Str → List Tuple
removed_from facts r t q = if r == q then removed (facts q) t else facts q

abbrev pub retract_fact : Facts → Str → Tuple → Facts
retract_fact f r t = record {
  stable = removed_from f.stable r t;
  delta = removed_from f.delta r t;
  next = removed_from f.next r t;
}

pub find_position-flatten :
    (ts : List Tuple) (t : Tuple)
    → find_position (map flatten_tuple ts) (flatten_tuple t) ≡ find_position ts t
find_position-flatten [] t = refl
find_position-flatten (u ∷ us) t = rw (beq-flatten_tuple u t, find_position-flatten us t)

module _ {A B : Type 0} (f : A → B) where
  take-map : (n : ℕ) (xs : List A) → take n (map f xs) ≡ map f (take n xs)
  take-map zero xs = refl
  take-map (suc n) [] = refl
  take-map (suc n) (x ∷ xs) = ap (λ l. f x ∷ l) (take-map n xs)

  last_or-map : (d : A) (xs : List A) → last_or (f d) (map f xs) ≡ f (last_or d xs)
  last_or-map d [] = refl
  last_or-map d (x ∷ xs) = last_or-map x xs

  replace_at-map :
      (xs : List A) (i : ℕ) (x : A) → replace_at (map f xs) i (f x) ≡ map f (replace_at xs i x)
  replace_at-map [] i x = refl
  replace_at-map (y ∷ ys) zero x = refl
  replace_at-map (y ∷ ys) (suc i) x = ap (λ l. f y ∷ l) (replace_at-map ys i x)

  length-map_lem : (xs : List A) → length (map f xs) ≡ length xs
  length-map_lem [] = refl
  length-map_lem (x ∷ xs) = ap suc (length-map_lem xs)

  pub swap_remove-map : (xs : List A) (i : ℕ) → swap_remove (map f xs) i ≡ map f (swap_remove xs i)
  swap_remove-map [] i = refl
  swap_remove-map (x ∷ xs) i =
      rw (length-map_lem xs, last_or-map x xs, replace_at-map (x ∷ xs) i (last_or x xs))
        (take-map (length xs) (replace_at (x ∷ xs) i (last_or x xs)))

module _ {A : Type 0} (P : A → Type 0) where
  All-take : (n : ℕ) (xs : List A) → All P xs → All P (take n xs)
  All-take zero xs h = tt
  All-take (suc n) [] h = tt
  All-take (suc n) (x ∷ xs) h = (h.0, All-take n xs h.1)

  last_or_lem : (d : A) (xs : List A) → P d → All P xs → P (last_or d xs)
  last_or_lem d [] p h = p
  last_or_lem d (x ∷ xs) p h = last_or_lem x xs h.0 h.1

  All-replace_at : (xs : List A) (i : ℕ) (x : A) → P x → All P xs → All P (replace_at xs i x)
  All-replace_at [] i x p h = tt
  All-replace_at (y ∷ ys) zero x p h = (p, h.1)
  All-replace_at (y ∷ ys) (suc i) x p h = (h.0, All-replace_at ys i x p h.1)

  pub All-swap_remove : (xs : List A) (i : ℕ) → All P xs → All P (swap_remove xs i)
  All-swap_remove [] i h = tt
  All-swap_remove (x ∷ xs) i h =
      All-take (length xs) (replace_at (x ∷ xs) i (last_or x xs))
        (All-replace_at (x ∷ xs) i (last_or x xs) (last_or_lem x xs h.0 h.1) h)

All-removed : (P : Tuple → Type 0) (ts : List Tuple) (t : Tuple) → All P ts → All P (removed ts t)
All-removed P ts t h = go (find_position ts t)
  where
    go : (o : Option ℕ) → All P (removed_at ts o)
    go none = h
    go (some i) = All-swap_remove P ts i h

abbrev pub is_some : Option ℕ → Bool
is_some none = false
is_some (some i) = true

abbrev step_position : Bool → Option ℕ → Option ℕ
step_position b o = if b then some 0 else elim o [ none ↦ none | some i ↦ some (i + 1) ]

known-step : (b k : Bool) (o : Option ℕ) → k ≡ is_some o → (b || k) ≡ is_some (step_position b o)
known-step true k o h = refl
known-step false k none h = h
known-step false k (some i) h = h

pub known-find_position : (ts : List Tuple) (t : Tuple) → known ts t ≡ is_some (find_position ts t)
known-find_position [] t = refl
known-find_position (u ∷ us) t =
    known-step (u == t) (known us t) (find_position us t) (known-find_position us t)

-- What `take_out` does to a table that holds facts.
pub record TakesOut (tables : Tables) (arity : Map Str ℕ) (facts : Str → List Tuple) (r : Str)
    (t : Tuple) (out : Tables × Bool) : Type 0 where
  pub found : out.1 ≡ known (facts r) t
  pub holds : Holds out.0 arity (removed_from facts r t)
  pub distinct : Distinct tables → Distinct out.0

module _ {tables : Tables} {arity : Map Str ℕ} {facts : Str → List Tuple} (r : Str) (t : Tuple)
    (h : Holds tables arity facts) where
  typed_removed : (q : Str) → All (HasArity (arity q)) (removed_from facts r t q)
  typed_removed q = elim (Bool-cases (r == q)) [
    | inl same ↦ rw same (All-removed (HasArity (arity q)) (facts q) t (h.typed q))
    | inr ne ↦ rw ne (h.typed q)
  ]

  -- the tables stay where the tuple is not in the relation
  TakesOut-none : find_position (facts r) t ≡ none → TakesOut tables arity facts r t (tables, false)
  TakesOut-none e = record {
    found = sym (known-find_position (facts r) t ∙ ap is_some e);
    holds = record {
      flat = λ q. h.flat q ∙ elim (Bool-cases (r == q)) [
        | inl same ↦
            rw (same, ← (==_iff r q).0 same)
              (ap (λ o. map flatten_tuple (removed_at (facts r) o)) (sym e))
        | inr ne ↦ rw ne
      ];
      typed = typed_removed;
    };
    distinct = λ d. d;
  }

  TakesOut-some :
      (i : ℕ) (table : List Row)
      → table ≡ map flatten_tuple (facts r)
      → find_position (facts r) t ≡ some i
      → TakesOut tables arity facts r t (Assoc.insert tables r (swap_remove table i), true)
  TakesOut-some i table flat e = record {
    found = sym (known-find_position (facts r) t ∙ ap is_some e);
    holds = record {
      flat = λ q. rows-insert tables r q (swap_remove table i) ∙ elim (Bool-cases (r == q)) [
        | inl same ↦
            rw (same, ← (==_iff r q).0 same, flat)
              (swap_remove-map flatten_tuple (facts r) i
                ∙ ap (λ o. map flatten_tuple (removed_at (facts r) o)) (sym e))
        | inr ne ↦ rw ne (h.flat q)
      ];
      typed = typed_removed;
    };
    distinct = Distinct-insert tables r (swap_remove table i);
  }

  take_at-TakesOut :
      (table : List Row) (o : Option ℕ)
      → table ≡ map flatten_tuple (facts r)
      → find_position (facts r) t ≡ o
      → TakesOut tables arity facts r t (take_at tables r table o)
  unfolding take_at
  take_at-TakesOut table none flat e = TakesOut-none e
  take_at-TakesOut table (some i) flat e = TakesOut-some i table flat e

  take_from-TakesOut :
      (o : Option (List Row))
      → get_or o [] ≡ map flatten_tuple (facts r)
      → TakesOut tables arity facts r t (take_from tables r (flatten_tuple t) o)
  unfolding take_from
  take_from-TakesOut none flat = TakesOut-none (rw (no_rows (facts r) (sym flat)))
  take_from-TakesOut (some table) flat =
      take_at-TakesOut table (find_position table (flatten_tuple t)) flat
        (sym (rw flat (find_position-flatten (facts r) t)))

  pub take_out-TakesOut : TakesOut tables arity facts r t (take_out tables r (flatten_tuple t))
  unfolding take_out
  take_out-TakesOut = take_from-TakesOut (Assoc.lookup r tables) (h.flat r)
