-- ===== src/Wal/Membership/Bytes.antt =====
-- Sets and maps that are built in order, and the bytes that a membership is written as.
use mathlib.Core.List.{append-nil, append_assoc}
use mangle_rs.Prelude.{
  ℕ, ◌<◌, ◌≡◌, refl, sym, ap, ◌∙◌, List, [], ◌∷◌, ◌++◌, arith, length, All, nat_eq, list_eq,
  pair_eq, Str, int_eq,
}
use mangle_rs.Wal.Reader.{to_le, put_u64, put_str}
use mangle_rs.Wal.Membership.{set_insert, map_insert, put_ids, put_configs, put_nodes}

-- the elements of a BTreeSet, and the entries of a BTreeMap, in order
unfoldable pub Ascending : List ℕ → Type 0
Ascending [] = Unit
Ascending (x ∷ xs) = All (λ y. x < y) xs × Ascending xs

unfoldable pub AscendingKeys : List (ℕ × Str) → Type 0
AscendingKeys [] = Unit
AscendingKeys (e ∷ es) = All (λ f. e.0 < f.0) es × AscendingKeys es

All-head :
    {A : Type 0} (P : A → Type 0) (xs : List A) (y : A) (ys : List A) → All P (xs ++ y ∷ ys) → P y
All-head P [] y ys h = h.0
All-head P (x ∷ xs) y ys h = All-head P xs y ys h.1

pub set_insert_last :
    (xs : List ℕ) (y : ℕ) (ys : List ℕ) → Ascending (xs ++ y ∷ ys) → set_insert xs y ≡ xs ++ y ∷ []
unfolding set_insert Ascending
set_insert_last [] y ys h = refl
set_insert_last (x ∷ xs) y ys h =
    let below = All-head (λ z. x < z) xs y ys h.0 in ground (arith, set_insert_last xs y ys h.1)

pub map_insert_last :
    (xs : List (ℕ × Str)) (k : ℕ) (v : Str) (ys : List (ℕ × Str))
    → AscendingKeys (xs ++ (k, v) ∷ ys)
    → map_insert xs k v ≡ xs ++ (k, v) ∷ []
unfolding map_insert AscendingKeys
map_insert_last [] k v ys h = refl
map_insert_last ((j, w) ∷ xs) k v ys h =
    let below = All-head (λ (f : ℕ × Str). j < f.0) xs (k, v) ys h.0 in
    ground (arith, map_insert_last xs k v ys h.1)

abbrev pub ids_bytes : List ℕ → List ℕ
ids_bytes [] = []
ids_bytes (id ∷ ids) = to_le 8 id ++ ids_bytes ids

abbrev pub configs_bytes : List (List ℕ) → List ℕ
configs_bytes [] = []
configs_bytes (c ∷ cs) = to_le 8 (length c) ++ (ids_bytes c ++ configs_bytes cs)

abbrev pub nodes_bytes : List (ℕ × Str) → List ℕ
nodes_bytes [] = []
nodes_bytes ((id, addr) ∷ nodes) =
    to_le 8 id ++ (to_le 8 (length addr) ++ (addr ++ nodes_bytes nodes))

pub put_ids_lem : (out ids : List ℕ) → put_ids out ids ≡ out ++ ids_bytes ids
unfolding put_ids put_u64
put_ids_lem out [] = sym (append-nil out)
put_ids_lem out (id ∷ ids) =
    put_ids_lem (out ++ to_le 8 id) ids ∙ append_assoc out (to_le 8 id) (ids_bytes ids)

pub put_configs_lem :
    (out : List ℕ) (cs : List (List ℕ)) → put_configs out cs ≡ out ++ configs_bytes cs
unfolding put_configs put_u64
put_configs_lem out [] = sym (append-nil out)
put_configs_lem out (c ∷ cs) =
    put_configs_lem (put_ids (out ++ to_le 8 (length c)) c) cs
    ∙ ap (λ l. l ++ configs_bytes cs) (put_ids_lem (out ++ to_le 8 (length c)) c)
    ∙ append_assoc (out ++ to_le 8 (length c)) (ids_bytes c) (configs_bytes cs)
    ∙ append_assoc out (to_le 8 (length c)) (ids_bytes c ++ configs_bytes cs)

pub put_nodes_lem : (out : List ℕ) (ns : List (ℕ × Str)) → put_nodes out ns ≡ out ++ nodes_bytes ns
unfolding put_nodes put_u64 put_str
put_nodes_lem out [] = sym (append-nil out)
put_nodes_lem out ((id, addr) ∷ ns) =
    put_nodes_lem (((out ++ to_le 8 id) ++ to_le 8 (length addr)) ++ addr) ns
    ∙ append_assoc ((out ++ to_le 8 id) ++ to_le 8 (length addr)) addr (nodes_bytes ns)
    ∙ append_assoc (out ++ to_le 8 id) (to_le 8 (length addr)) (addr ++ nodes_bytes ns)
    ∙ append_assoc out (to_le 8 id) (to_le 8 (length addr) ++ (addr ++ nodes_bytes ns))
