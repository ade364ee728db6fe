-- ===== src/Wal/Membership/RoundTrip.antt =====
-- A membership reads back from its encoding.
use mathlib.Core.List.{append-nil, append_assoc}
use mangle_rs.Prelude.{
  ℕ, ◌^◌, ◌≤◌, ◌<◌, ◌≡◌, refl, sym, ap, ◌∙◌, subst, Bool, true, false, List, [], ◌∷◌, ◌++◌, arith,
  ltb, if◌then◌else◌, length, All, nat_eq, list_eq, pair_eq, Str, Error, Outcome, ◌>>=◌, bind-ok,
  ok, err, panic, int_eq,
}
use mangle_rs.Wal.Reader
use mangle_rs.Wal.Reader.{
  Reader, to_le, put_u64, put_str, read_u64, read_str, take_bytes, done, advance, At, At-new,
  read_u64-At, take_bytes-At, done-At, length-to_le, not_above,
}
use mangle_rs.Wal.Membership.Bytes.{
  Ascending, AscendingKeys, set_insert_last, map_insert_last, ids_bytes, configs_bytes, nodes_bytes,
  put_configs_lem, put_nodes_lem,
}
use mangle_rs.Wal.Membership.{
  Membership, set_insert, map_insert, put_configs, encode_membership, read_ids, read_configs,
  read_nodes, max_configs, decode_membership,
}

abbrev pub Small : ℕ → Type 0
Small n = n < 2 ^ 64

-- A result that leaves the reader in front of the rest.
abbrev pub Leaves : {A : Type 0} → Outcome (A × Reader) → A → List ℕ → Type 0
Leaves o a rest = (r : Reader) × (o ≡ ok (a, r)) × At r rest

read_ids-At :
    (acc ids : List ℕ) (r : Reader) (rest : List ℕ)
    → Ascending (acc ++ ids)
    → All Small ids
    → At r (ids_bytes ids ++ rest)
    → Leaves (read_ids (length ids) r acc) (acc ++ ids) rest
unfolding read_ids
read_ids-At acc [] r rest up small h = (r, ap (λ l. ok (l, r)) (sym (append-nil acc)), h)
read_ids-At acc (id ∷ ids) r rest up (s, ss) h =
    let (e, h1) =
      read_u64-At r id (ids_bytes ids ++ rest) s
        (subst (At r) (append_assoc (to_le 8 id) (ids_bytes ids) rest) h) in
    let again = append_assoc acc (id ∷ []) ids in
    let (r', e', h') =
      read_ids-At (acc ++ id ∷ []) ids (advance 8 r) rest (subst Ascending (sym again) up) ss h1 in
    (
      r',
      bind-ok (read_u64 r) (λ p. read_ids (length ids) p.1 (set_insert acc p.0)) e
          (ap (read_ids (length ids) (advance 8 r)) (set_insert_last acc id ids up)
            ∙ e'
            ∙ ap (λ l. ok (l, r')) again),
      h',
    )

-- a configuration as it can be written
abbrev pub IsConfig : List ℕ → Type 0
IsConfig c = Ascending c × All Small c × Small (length c)

read_configs-At :
    (acc cs : List (List ℕ)) (r : Reader) (rest : List ℕ)
    → All IsConfig cs
    → At r (configs_bytes cs ++ rest)
    → Leaves (read_configs (length cs) r acc) (acc ++ cs) rest
unfolding read_configs
read_configs-At acc [] r rest cfg h = (r, ap (λ l. ok (l, r)) (sym (append-nil acc)), h)
read_configs-At acc (c ∷ cs) r rest ((up, small, len), cfg) h =
    let (e, h1) = read_u64-At r (length c) (ids_bytes c ++ (configs_bytes cs ++ rest)) len (
      subst (At r)
        (append_assoc (to_le 8 (length c)) (ids_bytes c ++ configs_bytes cs) rest
          ∙ ap (λ l. to_le 8 (length c) ++ l) (append_assoc (ids_bytes c) (configs_bytes cs) rest))
        h) in
    let (r2, e2, h2) = read_ids-At [] c (advance 8 r) (configs_bytes cs ++ rest) up small h1 in
    let (r', e', h') = read_configs-At (acc ++ c ∷ []) cs r2 rest cfg h2 in
    (
      r',
      bind-ok (read_u64 r)
          (λ p. read_ids p.0 p.1 [] >>= λ q. read_configs (length cs) q.1 (acc ++ q.0 ∷ [])) e
          (bind-ok (read_ids (length c) (advance 8 r) [])
            (λ q. read_configs (length cs) q.1 (acc ++ q.0 ∷ [])) e2
            (e' ∙ ap (λ l. ok (l, r')) (append_assoc acc (c ∷ []) cs))),
      h',
    )

-- a string as it can be written
abbrev pub IsText : (List ℕ → Bool) → Str → Type 0
IsText is_utf8 s = (is_utf8 s ≡ true) × Small (length s)

read_str-At :
    (is_utf8 : List ℕ → Bool) (s : Str) (r : Reader) (rest : List ℕ)
    → IsText is_utf8 s
    → At r (to_le 8 (length s) ++ (s ++ rest))
    → Leaves (read_str is_utf8 r) s rest
unfolding read_str
read_str-At is_utf8 s r rest (text, small) h =
    let (e, h1) = read_u64-At r (length s) (s ++ rest) small h in
    let (e2, h2) = take_bytes-At (advance 8 r) s rest h1 in
    (
      advance (length s) (advance 8 r),
      bind-ok (read_u64 r)
          (λ p. take_bytes p.0 p.1 >>= λ q.
            if is_utf8 q.0 then ok (q.0, q.1) else err Error.invalid_utf8)
          e
          (bind-ok (take_bytes (length s) (advance 8 r))
            (λ q. if is_utf8 q.0 then ok (q.0, q.1) else err Error.invalid_utf8) e2 (rw text refl)),
      h2,
    )

-- a node as it can be written
abbrev pub IsNode : (List ℕ → Bool) → ℕ × Str → Type 0
IsNode is_utf8 node = Small node.0 × IsText is_utf8 node.1

module _ (is_utf8 : List ℕ → Bool) where
  read_nodes-At :
      (acc ns : List (ℕ × Str)) (r : Reader) (rest : List ℕ)
      → AscendingKeys (acc ++ ns)
      → All (IsNode is_utf8) ns
      → At r (nodes_bytes ns ++ rest)
      → Leaves (read_nodes is_utf8 (length ns) r acc) (acc ++ ns) rest
  unfolding read_nodes
  read_nodes-At acc [] r rest up small h = (r, ap (λ l. ok (l, r)) (sym (append-nil acc)), h)
  read_nodes-At acc ((id, addr) ∷ ns) r rest up ((s, text), ss) h =
      let split =
        append_assoc (to_le 8 id) (to_le 8 (length addr) ++ (addr ++ nodes_bytes ns)) rest
        ∙ ap (λ l. to_le 8 id ++ l)
            (append_assoc (to_le 8 (length addr)) (addr ++ nodes_bytes ns) rest
              ∙ ap (λ l. to_le 8 (length addr) ++ l) (append_assoc addr (nodes_bytes ns) rest)) in
      let (e, h1) =
        read_u64-At r id (to_le 8 (length addr) ++ (addr ++ (nodes_bytes ns ++ rest))) s
          (subst (At r) split h) in
      let (r2, e2, h2) = read_str-At is_utf8 addr (advance 8 r) (nodes_bytes ns ++ rest) text h1 in
      let again = append_assoc acc ((id, addr) ∷ []) ns in
      let (r', e', h') =
        read_nodes-At (acc ++ (id, addr) ∷ []) ns r2 rest (subst AscendingKeys (sym again) up) ss
          h2 in
      (
        r',
        bind-ok (read_u64 r)
            (λ p. read_str is_utf8 p.1 >>= λ q.
              read_nodes is_utf8 (length ns) q.1 (map_insert acc p.0 q.0))
            e
            (bind-ok (read_str is_utf8 (advance 8 r))
              (λ q. read_nodes is_utf8 (length ns) q.1 (map_insert acc id q.0)) e2
              (ap (read_nodes is_utf8 (length ns) r2) (map_insert_last acc id addr ns up)
                ∙ e'
                ∙ ap (λ l. ok (l, r')) again)),
        h',
      )

  -- A membership whose parts fit their encoding: sets and maps in order, 64-bit numbers, UTF-8 text.
  pub record IsEncodable (m : Membership) : Type 0 where
    pub configs : All IsConfig m.configs
    pub few : length m.configs ≤ max_configs
    pub nodes : All (IsNode is_utf8) m.nodes
    pub keys : AscendingKeys m.nodes
    pub node_count : Small (length m.nodes)
    pub size : Small (length (encode_membership m))

  membership_bytes :
      (m : Membership)
      → encode_membership m
        ≡ to_le 8 (length m.configs)
          ++ (configs_bytes m.configs ++ (to_le 8 (length m.nodes) ++ (nodes_bytes m.nodes ++ [])))
  unfolding encode_membership put_u64
  membership_bytes m =
      put_nodes_lem (put_configs (to_le 8 (length m.configs)) m.configs ++ to_le 8 (length m.nodes))
        m.nodes
      ∙ append_assoc (put_configs (to_le 8 (length m.configs)) m.configs) (to_le 8 (length m.nodes))
          (nodes_bytes m.nodes)
      ∙ ap (λ l. l ++ (to_le 8 (length m.nodes) ++ nodes_bytes m.nodes))
          (put_configs_lem (to_le 8 (length m.configs)) m.configs)
      ∙ append_assoc (to_le 8 (length m.configs)) (configs_bytes m.configs)
          (to_le 8 (length m.nodes) ++ nodes_bytes m.nodes)
      ∙ ap
          (λ l.
            to_le 8 (length m.configs)
            ++ (configs_bytes m.configs ++ (to_le 8 (length m.nodes) ++ l)))
          (sym (append-nil (nodes_bytes m.nodes)))

-- A membership reads back from its encoding if its sets and maps are in order, its numbers have 64 bits,
-- its texts are UTF-8, its configurations are no more than a vector can hold and its encoding is shorter
-- than 2 ^ 64 bytes, and if `Membership::new` gives it back from its parts.
pub decode_membership-encode_membership :
    (is_utf8 : List ℕ → Bool) (new_membership : List (List ℕ) → List (ℕ × Str) → Membership)
    (m : Membership)
    → new_membership m.configs m.nodes ≡ m
    → IsEncodable is_utf8 m
    → decode_membership is_utf8 new_membership (encode_membership m) ≡ ok m
unfolding decode_membership
decode_membership-encode_membership is_utf8 new_membership m whole h =
    let bytes_are = membership_bytes is_utf8 m in
    let rest = to_le 8 (length m.nodes) ++ (nodes_bytes m.nodes ++ []) in
    let buf = to_le 8 (length m.configs) ++ (configs_bytes m.configs ++ rest) in
    let size : length buf < 2 ^ 64 = subst (λ l. length l < 2 ^ 64) bytes_are h.size in
    let (e0, h0) =
      read_u64-At (Reader.new buf) (length m.configs) (configs_bytes m.configs ++ rest)
        (omega (arith, h.few)) (At-new buf size) in
    let r0 = advance 8 (Reader.new buf) in
    let (r1, e1, h1) = read_configs-At [] m.configs r0 rest h.configs h0 in
    let (e2, h2) = read_u64-At r1 (length m.nodes) (nodes_bytes m.nodes ++ []) h.node_count h1 in
    let (r3, e3, h3) = read_nodes-At is_utf8 [] m.nodes (advance 8 r1) [] h.keys h.nodes h2 in
    let last =
      λ (c : List (List ℕ)) (n : List (ℕ × Str) × Reader). done n.1 (new_membership c n.0) in
    let after = λ (c : List (List ℕ) × Reader).
      read_u64 c.1 >>= λ n. read_nodes is_utf8 n.0 n.1 [] >>= last c.0 in
    ap (decode_membership is_utf8 new_membership) bytes_are
    ∙ bind-ok (read_u64 (Reader.new buf))
        (λ n. elim (ltb max_configs n.0) [
          | true ↦ panic
          | false ↦ read_configs n.0 n.1 [] >>= after
        ])
        e0
        (ap (λ b. elim b [ true ↦ panic | false ↦ read_configs (length m.configs) r0 [] >>= after ])
            (not_above max_configs (length m.configs) h.few)
          ∙ bind-ok (read_configs (length m.configs) r0 []) after e1 (
              bind-ok (read_u64 r1) (λ n. read_nodes is_utf8 n.0 n.1 [] >>= last m.configs) e2
                (bind-ok (read_nodes is_utf8 (length m.nodes) (advance 8 r1) []) (last m.configs) e3
                  (done-At r3 (new_membership m.configs m.nodes) h3 ∙ ap ok whole))))
