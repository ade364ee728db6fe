-- ===== src/Wal/Codec.antt =====
-- crates/mangle-wal/src/codec.rs: leader ids, log ids and votes. The records stand for openraft's
-- structures of the same names, of which the codec reads and sets these fields.
use mathlib.Core.List.{append-nil, append_assoc}
use mangle_rs.Prelude.{
  ℕ, ◌^◌, ◌≤◌, ◌<◌, ◌≡◌, sym, ap, ◌∙◌, ap₂, Bool, List, [], ◌∷◌, ◌++◌, arith, ltb, if◌then◌else◌,
  length, take, drop, length-append, take-length-append, drop-length-append, nat_eq, list_eq,
  pair_eq, Error, Outcome, ◌>>=◌, bind-ok, ok, err, int_eq,
}
use mangle_rs.Wal.Reader
use mangle_rs.Wal.Reader.{
  Reader, to_le, put_u64, put_bool, byte_of, read_u64, read_bool, done, advance, At, At-new,
  read_u64-At, read_bool-At, done-At, length-to_le, not_above,
}

pub record CommittedLeaderId : Type 0 where
  pub term : ℕ
  pub node_id : ℕ

pub record LogId : Type 0 where
  pub leader_id : CommittedLeaderId
  pub index : ℕ

pub record Vote : Type 0 where
  pub term : ℕ
  pub node_id : ℕ
  pub committed : Bool

unfoldable pub encode_committed_leader_id : CommittedLeaderId → List ℕ
unfolding put_u64
encode_committed_leader_id id = put_u64 (put_u64 [] id.term) id.node_id

unfoldable pub decode_committed_leader_id : List ℕ → Outcome CommittedLeaderId
unfolding read_u64 done
decode_committed_leader_id buf = do
  (term, r) ← read_u64 (Reader.new buf)
  (node_id, r') ← read_u64 r
  done r' (record { term = term; node_id = node_id })

unfoldable pub encode_log_id : LogId → List ℕ
unfolding encode_committed_leader_id put_u64
encode_log_id id = put_u64 (encode_committed_leader_id id.leader_id) id.index

-- the two slices of a log id that is long enough
unfoldable pub decode_slices : List ℕ → List ℕ → Outcome LogId
unfolding decode_committed_leader_id read_u64 done
decode_slices front back = decode_committed_leader_id front >>= λ leader_id.
    read_u64 (Reader.new back) >>= λ p. done p.1 (record { leader_id = leader_id; index = p.0 })

unfoldable pub decode_log_id : List ℕ → Outcome LogId
unfolding decode_slices
decode_log_id buf =
    if ltb (length buf) 24 then err Error.truncated else decode_slices (take 16 buf) (drop 16 buf)

unfoldable pub encode_vote : Vote → List ℕ
unfolding put_u64 put_bool
encode_vote v = put_bool (put_u64 (put_u64 [] v.term) v.node_id) v.committed

unfoldable pub decode_vote : List ℕ → Outcome Vote
unfolding read_u64 read_bool done
decode_vote buf = do
  (term, r) ← read_u64 (Reader.new buf)
  (node_id, r') ← read_u64 r
  (committed, r'') ← read_bool r'
  done r'' (record { term = term; node_id = node_id; committed = committed })

leader_bytes :
    (id : CommittedLeaderId)
    → encode_committed_leader_id id ≡ to_le 8 id.term ++ (to_le 8 id.node_id ++ [])
unfolding encode_committed_leader_id put_u64
leader_bytes id = ap (λ l. to_le 8 id.term ++ l) (sym (append-nil (to_le 8 id.node_id)))

vote_bytes :
    (v : Vote) → encode_vote v ≡ to_le 8 v.term ++ (to_le 8 v.node_id ++ byte_of v.committed ∷ [])
unfolding encode_vote put_u64 put_bool
vote_bytes v = append_assoc (to_le 8 v.term) (to_le 8 v.node_id) (byte_of v.committed ∷ [])

log_id_bytes :
    (id : LogId)
    → encode_log_id id ≡ encode_committed_leader_id id.leader_id ++ (to_le 8 id.index ++ [])
unfolding encode_log_id put_u64
log_id_bytes id =
    ap (λ l. encode_committed_leader_id id.leader_id ++ l) (sym (append-nil (to_le 8 id.index)))

-- A leader id whose numbers are 64-bit reads back from its encoding.
pub decode_committed_leader_id-encode_committed_leader_id :
    (id : CommittedLeaderId)
    → id.term < 2 ^ 64
    → id.node_id < 2 ^ 64
    → decode_committed_leader_id (encode_committed_leader_id id) ≡ ok id
unfolding decode_committed_leader_id
decode_committed_leader_id-encode_committed_leader_id id ht hn =
    let buf = to_le 8 id.term ++ (to_le 8 id.node_id ++ []) in
    let r = Reader.new buf in
    let (e1, a1) =
      read_u64-At r id.term (to_le 8 id.node_id ++ []) ht (At-new buf (short_buf id)) in
    let (e2, a2) = read_u64-At (advance 8 r) id.node_id [] hn a1 in
    ap decode_committed_leader_id (leader_bytes id)
    ∙ bind-ok (read_u64 r) _ e1
        (bind-ok (read_u64 (advance 8 r)) _ e2 (done-At (advance 8 (advance 8 r)) id a2))
  where
    short_buf :
        (k : CommittedLeaderId) → length (to_le 8 k.term ++ (to_le 8 k.node_id ++ [])) < 2 ^ 64
    short_buf k = omega (
      arith,
      length-append (to_le 8 k.term) (to_le 8 k.node_id ++ []),
      length-append (to_le 8 k.node_id) [],
      length-to_le 8 k.term,
      length-to_le 8 k.node_id,
    )

-- A vote whose numbers are 64-bit reads back from its encoding.
pub decode_vote-encode_vote :
    (v : Vote) → v.term < 2 ^ 64 → v.node_id < 2 ^ 64 → decode_vote (encode_vote v) ≡ ok v
unfolding decode_vote
decode_vote-encode_vote v ht hn =
    let buf = to_le 8 v.term ++ (to_le 8 v.node_id ++ byte_of v.committed ∷ []) in
    let r = Reader.new buf in
    let small : length buf < 2 ^ 64 = omega (
      arith,
      length-append (to_le 8 v.term) (to_le 8 v.node_id ++ byte_of v.committed ∷ []),
      length-append (to_le 8 v.node_id) (byte_of v.committed ∷ []),
      length-to_le 8 v.term,
      length-to_le 8 v.node_id,
    ) in
    let (e1, a1) =
      read_u64-At r v.term (to_le 8 v.node_id ++ byte_of v.committed ∷ []) ht (At-new buf small) in
    let (e2, a2) = read_u64-At (advance 8 r) v.node_id (byte_of v.committed ∷ []) hn a1 in
    let (e3, a3) = read_bool-At (advance 8 (advance 8 r)) v.committed [] a2 in
    ap decode_vote (vote_bytes v)
    ∙ bind-ok (read_u64 r) _ e1 (
        bind-ok (read_u64 (advance 8 r)) _ e2 (
          bind-ok (read_bool (advance 8 (advance 8 r))) _ e3
            (done-At (advance 1 (advance 8 (advance 8 r))) v a3)))

length-leader : (id : CommittedLeaderId) → length (encode_committed_leader_id id) ≡ 16
length-leader id =
    ap length (leader_bytes id)
    ∙ omega (
      arith,
      length-append (to_le 8 id.term) (to_le 8 id.node_id ++ []),
      length-append (to_le 8 id.node_id) [],
      length-to_le 8 id.term,
      length-to_le 8 id.node_id,
    )

take-exact : {A : Type 0} (n : ℕ) (xs ys : List A) → length xs ≡ n → take n (xs ++ ys) ≡ xs
take-exact n xs ys e = ap (λ k. take k (xs ++ ys)) (sym e) ∙ take-length-append xs ys

drop-exact : {A : Type 0} (n : ℕ) (xs ys : List A) → length xs ≡ n → drop n (xs ++ ys) ≡ ys
drop-exact n xs ys e = ap (λ k. drop k (xs ++ ys)) (sym e) ∙ drop-length-append xs ys

-- A log id whose numbers are 64-bit reads back from its encoding.
pub decode_log_id-encode_log_id :
    (id : LogId)
    → id.leader_id.term < 2 ^ 64
    → id.leader_id.node_id < 2 ^ 64
    → id.index < 2 ^ 64
    → decode_log_id (encode_log_id id) ≡ ok id
unfolding decode_log_id decode_slices
decode_log_id-encode_log_id id ht hn hi =
    let leader = encode_committed_leader_id id.leader_id in
    let tail = to_le 8 id.index ++ [] in
    let l = length-leader id.leader_id in
    let r = Reader.new tail in
    let long : 24 ≤ length (leader ++ tail) = omega (
      arith,
      l,
      length-append leader tail,
      length-append (to_le 8 id.index) [],
      length-to_le 8 id.index,
    ) in
    let small : length tail < 2 ^ 64 =
      omega (arith, length-append (to_le 8 id.index) [], length-to_le 8 id.index) in
    let (e, a) = read_u64-At r id.index [] hi (At-new tail small) in
    ap decode_log_id (log_id_bytes id)
    ∙ ap
        (λ b.
          if b
          then err Error.truncated
          else decode_slices (take 16 (leader ++ tail)) (drop 16 (leader ++ tail)))
        (not_above (length (leader ++ tail)) 24 long)
    ∙ ap₂ decode_slices (take-exact 16 leader tail l) (drop-exact 16 leader tail l)
    ∙ bind-ok (decode_committed_leader_id leader) _
        (decode_committed_leader_id-encode_committed_leader_id id.leader_id ht hn)
        (bind-ok (read_u64 r) _ e (done-At (advance 8 r) id a))
