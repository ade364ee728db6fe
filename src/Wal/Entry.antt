-- ===== src/Wal/Entry.antt =====
-- crates/mangle-wal/src/codec.rs: log entries. The protobuf codec of commands and `Membership::new` are
-- parameters.
pub mod RoundTrip
use mangle_rs.Prelude.{
  ℕ, Bool, List, [], ◌∷◌, ◌++◌, if◌then◌else◌, length, get_elem?, ◌==◌, nat_eq, list_eq, pair_eq,
  Str, bytes, Error, Outcome, ◌>>=◌, or_panic, ok, err, unknown_tag, int_eq,
}
use mangle_rs.Wal.Reader
use mangle_rs.Wal.Reader.{Reader, put_u64, read_u64, take_bytes, done, advance}
use mangle_rs.Wal.Codec.{CommittedLeaderId, LogId}
use mangle_rs.Wal.Membership.{Membership, encode_membership, decode_membership, read_log_id}

pub data EntryPayload (C : Type 0) : Type 0 where
  blank : EntryPayload C
  normal : C → EntryPayload C
  membership : Membership → EntryPayload C

pub record Entry (C : Type 0) : Type 0 where
  pub log_id : LogId
  pub payload : EntryPayload C

-- What the codec of an entry calls.
pub record Codecs (C : Type 0) : Type 0 where
  pub encode_command : C → List ℕ
  pub decode_command : List ℕ → Outcome C
  pub is_utf8 : List ℕ → Bool
  pub new_membership : List (List ℕ) → List (ℕ × Str) → Membership

module _ {C : Type 0} (c : Codecs C) where
  unfoldable pub put_payload : List ℕ → EntryPayload C → List ℕ
  unfolding put_u64 encode_membership
  put_payload out blank = out ++ 0 ∷ []
  put_payload out (normal cmd) =
      let b = c.encode_command cmd in put_u64 (out ++ 1 ∷ []) (length b) ++ b
  put_payload out (membership m) =
      let b = encode_membership m in put_u64 (out ++ 2 ∷ []) (length b) ++ b

  unfoldable pub encode_entry : Entry C → List ℕ
  unfolding put_u64 put_payload
  encode_entry e =
      put_payload
        (put_u64 (put_u64 (put_u64 [] e.log_id.leader_id.term) e.log_id.leader_id.node_id)
          e.log_id.index)
        e.payload

  -- a length and that many bytes
  unfoldable pub read_sized : Reader → Outcome (List ℕ × Reader)
  unfolding read_u64 take_bytes
  read_sized r = read_u64 r >>= λ len. take_bytes len.0 len.1

  unfoldable pub read_payload : ℕ → Reader → Outcome (EntryPayload C × Reader)
  unfolding read_sized decode_membership
  read_payload tag r =
      if tag == 0
      then ok (blank, r)
      else if tag == 1
      then (read_sized r >>= λ b. c.decode_command b.0 >>= λ cmd. ok (normal cmd, b.1))
      else if tag == 2
      then (read_sized r >>= λ b.
          decode_membership c.is_utf8 c.new_membership b.0 >>= λ m. ok (membership m, b.1))
      else err Error.unknown_tag

  unfoldable pub decode_entry : List ℕ → Outcome (Entry C)
  unfolding read_log_id take_bytes read_payload done
  decode_entry buf = read_log_id (Reader.new buf) >>= λ log_id. take_bytes 1 log_id.1 >>= λ tag.
      or_panic (get_elem? tag.0 0) >>= λ t. read_payload t tag.1 >>= λ payload.
      done payload.1 (record { log_id = log_id.0; payload = payload.0 })
