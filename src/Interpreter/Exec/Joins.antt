-- ===== src/Interpreter/Exec/Joins.antt =====
-- The hash table that `exec_hash_join` builds (crates/mangle-interpreter/src/lib.rs) against a search
-- of the build side.
use mathlib.Core.List.{append-nil, append_assoc}
use mangle_rs.Prelude.{
  ℕ, ◌≡◌, refl, sym, ap, ◌∙◌, inl, inr, Bool, true, false, ◌&&◌, List, [], ◌∷◌, ◌++◌, nat_beq,
  if◌then◌else◌, Bool-cases, get_or, length, ◌==◌, ==_iff, nat_eq, list_eq, pair_eq, Outcome, ◌>>=◌,
  ok-injective, ok, err, panic, int_eq,
}
use mangle_rs.Prelude.Assoc
use mangle_rs.Prelude.Assoc.{lookup-insert}
use mangle_rs.Common.Value.Equality.{value_eq}
use mangle_rs.Interpreter.Cells.{Tuple}
use mangle_rs.Interpreter.Grouping.{Groups, add_to_group, key_at, build_table}

-- whether the columns at the positions are the key
abbrev pub is_key : Outcome Tuple → Tuple → Bool
is_key (ok k) key = k == key
is_key (err e) key = false
is_key panic key = false

-- The tuples with `n` columns whose columns at the positions are the key, in order.
abbrev pub joined : ℕ → List ℕ → Tuple → List Tuple → List Tuple
joined n positions key [] = []
joined n positions key (t ∷ ts) =
    let rest = joined n positions key ts in
    if nat_beq (length t) n && is_key (key_at t positions) key then t ∷ rest else rest

bucket-add_to_group :
    (table : Groups) (k key t : Tuple)
    → get_or (Assoc.lookup key (add_to_group table k t)) []
      ≡ get_or (Assoc.lookup key table) [] ++ (if k == key then t ∷ [] else [])
unfolding add_to_group
bucket-add_to_group table k key t =
    rw (lookup-insert k key (get_or (Assoc.lookup k table) [] ++ t ∷ []) table)
      (elim (Bool-cases (k == key)) [
        | inl e ↦ rw (e, (==_iff k key).0 e)
        | inr e ↦ rw e (sym (append-nil (get_or (Assoc.lookup key table) [])))
      ])

abbrev pub bucket : Groups → Tuple → List Tuple
bucket table key = get_or (Assoc.lookup key table) []

if-append :
    (b : Bool) (t : Tuple) (rest : List Tuple)
    → (if b then t ∷ [] else []) ++ rest ≡ (if b then t ∷ rest else rest)
if-append true t rest = refl
if-append false t rest = refl

-- one tuple of the build side, with the key found for it
module _ (n : ℕ) (positions : List ℕ) (t : Tuple) (ts : List Tuple) (table out : Groups)
    (key : Tuple)
    (ih : (grown : Groups)
      → build_table n positions ts grown ≡ ok out
      → bucket out key ≡ bucket grown key ++ joined n positions key ts) where
  keyed :
      (o : Outcome Tuple)
      → (o >>= λ k. build_table n positions ts (add_to_group table k t)) ≡ ok out
      → bucket out key
        ≡ bucket table key
          ++ (if is_key o key then t ∷ joined n positions key ts else joined n positions key ts)
  keyed (ok k) h =
      ih (add_to_group table k t) h
      ∙ ap (λ l. l ++ joined n positions key ts) (bucket-add_to_group table k key t)
      ∙ append_assoc (bucket table key) (if k == key then t ∷ [] else [])
          (joined n positions key ts)
      ∙ ap (λ l. bucket table key ++ l) (if-append (k == key) t (joined n positions key ts))
  keyed (err e) h = cc
  keyed panic h = cc

  fitted :
      (b : Bool)
      → elim b as (λ x. Outcome Groups) [
        | true ↦ key_at t positions >>= λ k. build_table n positions ts (add_to_group table k t)
        | false ↦ build_table n positions ts table
      ]
        ≡ ok out
      → bucket out key
        ≡ bucket table key
          ++ (if b && is_key (key_at t positions) key
              then t ∷ joined n positions key ts
              else joined n positions key ts)
  fitted true h = keyed (key_at t positions) h
  fitted false h = ih table h

build_table-lem :
    (n : ℕ) (positions : List ℕ) (ts : List Tuple) (table out : Groups) (key : Tuple)
    → build_table n positions ts table ≡ ok out
    → bucket out key ≡ bucket table key ++ joined n positions key ts
unfolding build_table
build_table-lem n positions [] table out key h =
    ap (λ m. bucket m key) (sym (ok-injective h)) ∙ sym (append-nil (bucket table key))
build_table-lem n positions (t ∷ ts) table out key h =
    fitted n positions t ts table out key (λ grown. build_table-lem n positions ts grown out key)
      (nat_beq (length t) n) h

-- A bucket of the hash table holds exactly the tuples of the build side that have the source's number
-- of columns and the bucket's key, in the order of the build side.
pub build_table-joined :
    (n : ℕ) (positions : List ℕ) (ts : List Tuple) (table : Groups) (key : Tuple)
    → build_table n positions ts [] ≡ ok table
    → get_or (Assoc.lookup key table) [] ≡ joined n positions key ts
build_table-joined n positions ts table key h = build_table-lem n positions ts [] table key h
