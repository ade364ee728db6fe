-- ===== src/Analysis/NameTrie.antt =====
-- crates/mangle-analysis/src/name_trie.rs, `NameTrie`: `add` and `contains`. The children of a node
-- are the list of a map's entries.
use mangle_rs.Prelude.{
  ℕ, ◌≡◌, refl, sym, ap, ◌∙◌, inl, inr, Bool, true, false, ◌||◌, Option, none, some, List, [], ◌∷◌,
  if◌then◌else◌, Bool-cases, get_or, ◌==◌, ==_iff, ==-ne, nat_eq, list_eq, pair_eq, Str, int_eq,
}

mutual
  pub data NameTrie : Type 0 where
    node : Bool → Children → NameTrie

  pub data Children : Type 0 where
    nil : Children
    cons : Str → NameTrie → Children → Children

abbrev pub new : NameTrie
new = node false nil

-- the pieces between the slashes, empty ones included
unfoldable pub pieces : Str → List Str
pieces [] = [] ∷ []
pieces (ch ∷ name) = grow (ch == 47) ch (pieces name)
  where
    grow : Bool → ℕ → List Str → List Str
    grow true ch ps = [] ∷ ps
    grow false ch [] = (ch ∷ []) ∷ []
    grow false ch (p ∷ ps) = (ch ∷ p) ∷ ps

-- `filter(|s| !s.is_empty())`
unfoldable pub non_empty : List Str → List Str
non_empty [] = []
non_empty ([] ∷ ps) = non_empty ps
non_empty ((ch ∷ p) ∷ ps) = (ch ∷ p) ∷ non_empty ps

unfoldable pub split_name : Str → List Str
unfolding pieces non_empty
split_name name = non_empty (pieces name)

-- `children.get(part)`
unfoldable pub find_child : Children → Str → Option NameTrie
find_child nil part = none
find_child (cons key child rest) part = if key == part then some child else find_child rest part

-- the map with this child under the key
unfoldable pub put_child : Children → Str → NameTrie → Children
put_child nil part t = cons part t nil
put_child (cons key child rest) part t =
    if key == part then cons key t rest else cons key child (put_child rest part t)

-- the loop of `add`, and the mark at its end
unfoldable pub add_parts : List Str → NameTrie → NameTrie
unfolding find_child put_child
add_parts [] (node terminal children) = node true children
add_parts (part ∷ parts) (node terminal children) =
    node terminal
      (put_child children part (add_parts parts (get_or (find_child children part) new)))

unfoldable pub add : NameTrie → Str → NameTrie
unfolding add_parts split_name
add t name = add_parts (split_name name) t

-- the loop of `contains`
unfoldable pub contains_parts : List Str → NameTrie → Bool
unfolding find_child
contains_parts [] (node terminal children) = terminal
contains_parts (part ∷ parts) (node terminal children) = elim (find_child children part) [
  | none ↦ false
  | some child ↦ contains_parts parts child
]

unfoldable pub contains : NameTrie → Str → Bool
unfolding contains_parts split_name
contains t name = contains_parts (split_name name) t

overwritten :
    (b : Bool) (x y z : Option NameTrie)
    → (if b then x else z) ≡ (if b then x else if b then y else z)
overwritten true x y z = refl
overwritten false x y z = refl

find_child-put_child :
    (children : Children) (part other : Str) (t : NameTrie)
    → find_child (put_child children part t) other
      ≡ (if part == other then some t else find_child children other)
unfolding find_child put_child
find_child-put_child nil part other t = refl
find_child-put_child (cons key child rest) part other t = elim (Bool-cases (key == part)) [
  | inl e ↦
      rw (e, (==_iff key part).0 e)
        (overwritten (part == other) (some t) (some child) (find_child rest other))
  | inr e ↦
      rw (e, find_child-put_child rest part other t)
        (elim (Bool-cases (key == other)) [
          | inl k ↦ rw (
            k,
            ==-ne part other (λ p. cc (e, (==_iff key part).1 ((==_iff key other).0 k ∙ sym p))),
          )
          | inr k ↦ rw k
        ])
]

contains_parts-new : (parts : List Str) → contains_parts parts new ≡ false
unfolding contains_parts find_child
contains_parts-new [] = refl
contains_parts-new (part ∷ parts) = refl

-- a child that is not there yet holds nothing
in_child :
    (parts : List Str) (o : Option NameTrie)
    → contains_parts parts (get_or o new)
      ≡ elim o [ none ↦ false | some child ↦ contains_parts parts child ]
in_child parts none = contains_parts-new parts
in_child parts (some child) = refl

contains_parts-add_parts :
    (ps qs : List Str) (t : NameTrie)
    → contains_parts qs (add_parts ps t) ≡ (ps == qs || contains_parts qs t)
unfolding contains_parts add_parts
contains_parts-add_parts [] [] (node b kids) = refl
contains_parts-add_parts [] (q ∷ qs) (node b kids) = refl
contains_parts-add_parts (p ∷ ps) [] (node b kids) = refl
contains_parts-add_parts (p ∷ ps) (q ∷ qs) (node b kids) =
    ap (λ o. elim o as (λ k. Bool) [ none ↦ false | some child ↦ contains_parts qs child ])
      (find_child-put_child kids p q (add_parts ps (get_or (find_child kids p) new)))
    ∙ elim (Bool-cases (p == q)) [
      | inl e ↦
          rw (e, ← (==_iff p q).0 e)
            (contains_parts-add_parts ps qs (get_or (find_child kids p) new)
              ∙ ap (λ b. ps == qs || b) (in_child qs (find_child kids p)))
      | inr e ↦ rw e
    ]

-- After a name is added, the trie contains that name, every name with the same segments, and what it
-- contained before, and no other name.
pub contains-add :
    (t : NameTrie) (name other : Str)
    → contains (add t name) other ≡ (split_name name == split_name other || contains t other)
unfolding contains add
contains-add t name other = contains_parts-add_parts (split_name name) (split_name other) t
