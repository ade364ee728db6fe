-- ===== src/Wal/Membership.antt =====
-- crates/mangle-wal/src/codec.rs: memberships. The record stands for openraft's structure, of which the
-- codec reads these parts; `Membership::new`, which may add nodes for the voters, is a parameter. A
-- BTreeSet is the ascending list of its elements, a BTreeMap that of its entries.
pub mod Bytes
pub mod RoundTrip
use mangle_rs.Prelude.{
  ℕ, zero, suc, ◌-◌, ◌/◌, ◌^◌, Bool, true, false, Option, none, some, List, [], ◌∷◌, ◌++◌, ltb,
  if◌then◌else◌, length, drop, ◌==◌, nat_eq, list_eq, pair_eq, Str, bytes, Outcome, ◌>>=◌, ok,
  panic, int_eq,
}
use mangle_rs.Wal.Reader
use mangle_rs.Wal.Reader.{
  Reader, put_u64, put_bool, put_str, read_u64, read_bool, read_str, done, advance,
}
use mangle_rs.Wal.Codec.{CommittedLeaderId, LogId, encode_log_id}

pub record Membership : Type 0 where
  pub configs : List (List ℕ)
  pub nodes : List (ℕ × Str)

-- `BTreeSet::insert`
unfoldable pub set_insert : List ℕ → ℕ → List ℕ
set_insert [] x = x ∷ []
set_insert (y ∷ ys) x =
    if ltb x y then x ∷ y ∷ ys else if x == y then y ∷ ys else y ∷ set_insert ys x

-- `BTreeMap::insert`
unfoldable pub map_insert : List (ℕ × Str) → ℕ → Str → List (ℕ × Str)
map_insert [] k v = (k, v) ∷ []
map_insert ((j, w) ∷ m) k v =
    if ltb k j
    then (k, v) ∷ (j, w) ∷ m
    else if k == j
    then (k, v) ∷ m
    else (j, w) ∷ map_insert m k v

unfoldable pub put_ids : List ℕ → List ℕ → List ℕ
unfolding put_u64
put_ids out [] = out
put_ids out (id ∷ ids) = put_ids (put_u64 out id) ids

unfoldable pub put_configs : List ℕ → List (List ℕ) → List ℕ
unfolding put_u64 put_ids
put_configs out [] = out
put_configs out (config ∷ configs) =
    put_configs (put_ids (put_u64 out (length config)) config) configs

unfoldable pub put_nodes : List ℕ → List (ℕ × Str) → List ℕ
unfolding put_u64 put_str
put_nodes out [] = out
put_nodes out ((id, addr) ∷ nodes) = put_nodes (put_str (put_u64 out id) addr) nodes

unfoldable pub encode_membership : Membership → List ℕ
unfolding put_u64 put_configs put_nodes
encode_membership m =
    put_nodes (put_u64 (put_configs (put_u64 [] (length m.configs)) m.configs) (length m.nodes))
      m.nodes

unfoldable pub read_ids : ℕ → Reader → List ℕ → Outcome (List ℕ × Reader)
unfolding read_u64 set_insert
read_ids zero r config = ok (config, r)
read_ids (suc n) r config = read_u64 r >>= λ p. read_ids n p.1 (set_insert config p.0)

unfoldable pub read_configs : ℕ → Reader → List (List ℕ) → Outcome (List (List ℕ) × Reader)
unfolding read_u64 read_ids
read_configs zero r configs = ok (configs, r)
read_configs (suc k) r configs =
    read_u64 r >>= λ p. read_ids p.0 p.1 [] >>= λ q. read_configs k q.1 (configs ++ q.0 ∷ [])

-- `Vec::with_capacity` panics above this many sets of 24 bytes
abbrev pub max_configs : ℕ
max_configs = (2 ^ 63 - 1) / 24

module _ (is_utf8 : List ℕ → Bool) where
  unfoldable pub read_nodes : ℕ → Reader → List (ℕ × Str) → Outcome (List (ℕ × Str) × Reader)
  unfolding read_u64 read_str map_insert
  read_nodes zero r nodes = ok (nodes, r)
  read_nodes (suc n) r nodes =
      read_u64 r >>= λ p. read_str is_utf8 p.1 >>= λ q. read_nodes n q.1 (map_insert nodes p.0 q.0)

  module _ (new_membership : List (List ℕ) → List (ℕ × Str) → Membership) where
    unfoldable pub decode_membership : List ℕ → Outcome Membership
    unfolding read_u64 read_configs read_nodes done
    decode_membership buf = read_u64 (Reader.new buf) >>= λ n_configs.
        elim (ltb max_configs n_configs.0) [
          | true ↦ panic
          | false ↦ read_configs n_configs.0 n_configs.1 [] >>= λ configs.
              read_u64 configs.1 >>= λ n_nodes. read_nodes n_nodes.0 n_nodes.1 [] >>= λ nodes.
              done nodes.1 (new_membership configs.0 nodes.0)
        ]

pub record StoredMembership : Type 0 where
  pub log_id : Option LogId
  pub membership : Membership

unfoldable pub encode_stored_membership : StoredMembership → List ℕ
unfolding put_bool encode_log_id encode_membership
encode_stored_membership m = elim m.log_id [
  | none ↦ put_bool [] false ++ encode_membership m.membership
  | some id ↦ put_bool [] true ++ encode_log_id id ++ encode_membership m.membership
]

-- `LogId::new(CommittedLeaderId::new(term, node_id), index)` of the next three numbers
unfoldable pub read_log_id : Reader → Outcome (LogId × Reader)
unfolding read_u64
read_log_id r = read_u64 r >>= λ term. read_u64 term.1 >>= λ node_id.
    read_u64 node_id.1 >>= λ index.
    ok (
      record { leader_id = record { term = term.0; node_id = node_id.0 }; index = index.0 },
      index.1,
    )

unfoldable pub read_some_log_id : Bool → Reader → Outcome (Option LogId × Reader)
unfolding read_log_id
read_some_log_id true r = read_log_id r >>= λ p. ok (some p.0, p.1)
read_some_log_id false r = ok (none, r)

module _ (is_utf8 : List ℕ → Bool)
    (new_membership : List (List ℕ) → List (ℕ × Str) → Membership) where
  unfoldable pub decode_stored_membership : List ℕ → Outcome StoredMembership
  unfolding read_bool read_some_log_id decode_membership
  decode_stored_membership buf = read_bool (Reader.new buf) >>= λ has_log_id.
      read_some_log_id has_log_id.0 has_log_id.1 >>= λ log_id.
      decode_membership is_utf8 new_membership (drop log_id.1.pos buf) >>= λ membership.
      ok (record { log_id = log_id.0; membership = membership })
