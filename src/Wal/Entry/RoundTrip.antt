-- ===== src/Wal/Entry/RoundTrip.antt =====
-- A log entry reads back from its encoding.
use mathlib.Core.List.{append-nil, append_assoc}
use mangle_rs.Prelude.{
  ℕ, ◌^◌, ◌<◌, ◌≡◌, refl, sym, ap, ◌∙◌, subst, List, [], ◌∷◌, ◌++◌, length, get_elem?, nat_eq,
  list_eq, pair_eq, ◌>>=◌, or_panic, bind-ok, ok, int_eq,
}
use mangle_rs.Wal.Reader
use mangle_rs.Wal.Reader.{
  Reader, to_le, put_u64, read_u64, take_bytes, done, advance, At, At-new, read_u64-At,
  take_bytes-At, done-At,
}
use mangle_rs.Wal.Codec.{LogId}
use mangle_rs.Wal.Membership.{encode_membership, decode_membership, read_log_id}
use mangle_rs.Wal.Membership.RoundTrip.{
  Small, Leaves, IsEncodable, decode_membership-encode_membership,
}
use mangle_rs.Wal.Entry.{
  EntryPayload, blank, normal, membership, Entry, Codecs, put_payload, encode_entry, read_sized,
  read_payload, decode_entry,
}

-- a log id of 64-bit numbers
pub record IsLogId (id : LogId) : Type 0 where
  pub term : Small id.leader_id.term
  pub node_id : Small id.leader_id.node_id
  pub index : Small id.index

read_log_id-At :
    (id : LogId) (r : Reader) (rest : List ℕ)
    → IsLogId id
    → At r
        (to_le 8 id.leader_id.term ++ (to_le 8 id.leader_id.node_id ++ (to_le 8 id.index ++ rest)))
    → Leaves (read_log_id r) id rest
unfolding read_log_id
read_log_id-At id r rest small h =
    let (e1, h1) = read_u64-At r id.leader_id.term _ small.term h in
    let (e2, h2) = read_u64-At (advance 8 r) id.leader_id.node_id _ small.node_id h1 in
    let (e3, h3) = read_u64-At (advance 8 (advance 8 r)) id.index rest small.index h2 in
    (advance 8 (advance 8 (advance 8 r)), rw (e1, e2, e3) refl, h3)

module _ {C : Type 0} (c : Codecs C) where
  read_sized-At :
      (b : List ℕ) (r : Reader) (rest : List ℕ)
      → Small (length b)
      → At r (to_le 8 (length b) ++ (b ++ rest))
      → Leaves (read_sized c r) b rest
  unfolding read_sized
  read_sized-At b r rest small h =
      let (e, h1) = read_u64-At r (length b) (b ++ rest) small h in
      let (e2, h2) = take_bytes-At (advance 8 r) b rest h1 in
      (
        advance (length b) (advance 8 r),
        bind-ok (read_u64 r) (λ len. take_bytes len.0 len.1) e e2,
        h2,
      )

  -- the tag and the bytes of a payload
  abbrev tag_of : EntryPayload C → ℕ
  tag_of blank = 0
  tag_of (normal cmd) = 1
  tag_of (membership m) = 2

  abbrev payload_bytes : EntryPayload C → List ℕ
  payload_bytes blank = []
  payload_bytes (normal cmd) =
      to_le 8 (length (c.encode_command cmd)) ++ (c.encode_command cmd ++ [])
  payload_bytes (membership m) =
      to_le 8 (length (encode_membership m)) ++ (encode_membership m ++ [])

  -- A payload whose command or membership its own codec reads back.
  unfoldable pub IsWritable : EntryPayload C → Type 0
  IsWritable blank = Unit
  IsWritable (normal cmd) =
      (c.decode_command (c.encode_command cmd) ≡ ok cmd) × Small (length (c.encode_command cmd))
  IsWritable (membership m) = (c.new_membership m.configs m.nodes ≡ m) × IsEncodable c.is_utf8 m

  sized :
      (out : List ℕ) (t : ℕ) (b : List ℕ)
      → put_u64 (out ++ t ∷ []) (length b) ++ b
        ≡ out ++ ((t ∷ []) ++ (to_le 8 (length b) ++ (b ++ [])))
  unfolding put_u64
  sized out t b =
      append_assoc (out ++ t ∷ []) (to_le 8 (length b)) b
      ∙ append_assoc out (t ∷ []) (to_le 8 (length b) ++ b)
      ∙ ap (λ l. out ++ ((t ∷ []) ++ (to_le 8 (length b) ++ l))) (sym (append-nil b))

  put_payload_lem :
      (out : List ℕ) (p : EntryPayload C)
      → put_payload c out p ≡ out ++ ((tag_of p ∷ []) ++ payload_bytes p)
  unfolding put_payload
  put_payload_lem out blank = refl
  put_payload_lem out (normal cmd) = sized out 1 (c.encode_command cmd)
  put_payload_lem out (membership m) = sized out 2 (encode_membership m)

  entry_bytes :
      (e : Entry C)
      → encode_entry c e
        ≡ to_le 8 e.log_id.leader_id.term
          ++ (to_le 8 e.log_id.leader_id.node_id
              ++ (to_le 8 e.log_id.index ++ ((tag_of e.payload ∷ []) ++ payload_bytes e.payload)))
  unfolding encode_entry put_u64
  entry_bytes e =
      let t = to_le 8 e.log_id.leader_id.term in
      let n = to_le 8 e.log_id.leader_id.node_id in
      let i = to_le 8 e.log_id.index in
      let p = (tag_of e.payload ∷ []) ++ payload_bytes e.payload in
      put_payload_lem ((t ++ n) ++ i) e.payload
      ∙ append_assoc (t ++ n) i p
      ∙ append_assoc t n (i ++ p)

  read_payload-At :
      (p : EntryPayload C) (r : Reader)
      → IsWritable p
      → At r (payload_bytes p)
      → Leaves (read_payload c (tag_of p) r) p []
  unfolding read_payload IsWritable
  read_payload-At blank r w h = (r, refl, h)
  read_payload-At (normal cmd) r (back, small) h =
      let (r', e, h') = read_sized-At (c.encode_command cmd) r [] small h in
      (
        r',
        bind-ok (read_sized c r) (λ b. c.decode_command b.0 >>= λ cmd. ok (normal cmd, b.1)) e
            (bind-ok (c.decode_command (c.encode_command cmd)) (λ cmd. ok (normal cmd, r')) back
              refl),
        h',
      )
  read_payload-At (membership m) r (whole, fits) h =
      let (r', e, h') = read_sized-At (encode_membership m) r [] fits.size h in
      (
        r',
        bind-ok (read_sized c r)
            (λ b. decode_membership c.is_utf8 c.new_membership b.0 >>= λ m. ok (membership m, b.1))
            e
            (bind-ok (decode_membership c.is_utf8 c.new_membership (encode_membership m))
              (λ m. ok (membership m, r'))
              (decode_membership-encode_membership c.is_utf8 c.new_membership m whole fits) refl),
        h',
      )

-- A log entry of every kind reads back from its encoding if the numbers of its log id have 64 bits, its
-- command or membership is one that its own codec reads back, and the encoding is shorter than
-- 2 ^ 64 bytes.
pub decode_entry-encode_entry :
    {C : Type 0} (c : Codecs C) (e : Entry C)
    → IsLogId e.log_id
    → IsWritable c e.payload
    → length (encode_entry c e) < 2 ^ 64
    → decode_entry c (encode_entry c e) ≡ ok e
unfolding decode_entry
decode_entry-encode_entry {C} c e ids writable size =
    let p = e.payload in
    let rest = (tag_of c p ∷ []) ++ payload_bytes c p in
    let buf =
      to_le 8 e.log_id.leader_id.term
      ++ (to_le 8 e.log_id.leader_id.node_id ++ (to_le 8 e.log_id.index ++ rest)) in
    let small : length buf < 2 ^ 64 = subst (λ l. length l < 2 ^ 64) (entry_bytes c e) size in
    let (r1, e1, h1) = read_log_id-At e.log_id (Reader.new buf) rest ids (At-new buf small) in
    let (e2, h2) = take_bytes-At r1 (tag_of c p ∷ []) (payload_bytes c p) h1 in
    let (r3, e3, h3) = read_payload-At c p (advance 1 r1) writable h2 in
    let last = λ (id : LogId) (q : EntryPayload C × Reader).
      done q.1 (record { log_id = id; payload = q.0 }) in
    ap (decode_entry c) (entry_bytes c e)
    ∙ bind-ok (read_log_id (Reader.new buf))
        (λ id. take_bytes 1 id.1 >>= λ tag.
          or_panic (get_elem? tag.0 0) >>= λ t. read_payload c t tag.1 >>= last id.0)
        e1
        (bind-ok (take_bytes 1 r1)
          (λ tag. or_panic (get_elem? tag.0 0) >>= λ t. read_payload c t tag.1 >>= last e.log_id) e2
          (bind-ok (read_payload c (tag_of c p) (advance 1 r1)) (last e.log_id) e3
            (done-At r3 e h3)))
