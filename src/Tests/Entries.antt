-- ===== src/Tests/Entries.antt =====
-- Memberships and log entries at concrete values.
use mangle_rs.Prelude.{
  ℕ, ◌^◌, ◌<◌, ◌≡◌, refl, Bool, true, List, [], ◌∷◌, arith, ltb→lt, length, nat_eq, list_eq,
  pair_eq, Str, bytes, ok, panic, int_eq,
}
use mangle_rs.Wal.Membership.{Membership, encode_membership, decode_membership}
use mangle_rs.Wal.Membership.Bytes.{Ascending, AscendingKeys}
use mangle_rs.Wal.Membership.RoundTrip.{IsEncodable, decode_membership-encode_membership}
use mangle_rs.Wal.Entry.{membership, Entry, Codecs, encode_entry, decode_entry}
use mangle_rs.Wal.Entry.RoundTrip.{IsLogId, IsWritable, decode_entry-encode_entry}

abbrev any_text : List ℕ → Bool
any_text s = true

-- the parts as they are
abbrev as_given : List (List ℕ) → List (ℕ × Str) → Membership
as_given configs nodes = record { configs = configs; nodes = nodes }

abbrev two_nodes : Membership
two_nodes = record {
  configs = (1 ∷ 2 ∷ []) ∷ [];
  nodes = (1, bytes "10.0.0.1") ∷ (2, bytes "10.0.0.2") ∷ [];
}

two_nodes-IsEncodable : IsEncodable any_text two_nodes
unfolding Ascending AscendingKeys encode_membership
two_nodes-IsEncodable = record {
  configs = ((((omega arith, tt), (tt, tt)), (omega arith, (omega arith, tt)), omega arith), tt);
  few = omega arith;
  nodes = ((omega arith, (refl, omega arith)), ((omega arith, (refl, omega arith)), tt));
  keys = ((omega arith, tt), (tt, tt));
  node_count = omega arith;
  size = ltb→lt (length (encode_membership two_nodes)) (2 ^ 64) refl;
}

two_nodes_back : decode_membership any_text as_given (encode_membership two_nodes) ≡ ok two_nodes
two_nodes_back =
    decode_membership-encode_membership any_text as_given two_nodes refl two_nodes-IsEncodable

-- commands that are their own encoding
abbrev codecs : Codecs Str
codecs = record {
  encode_command = λ cmd. cmd;
  decode_command = λ b. ok b;
  is_utf8 = any_text;
  new_membership = as_given;
}

abbrev change : Entry Str
change = record {
  log_id = record { leader_id = record { term = 2; node_id = 1 }; index = 9 };
  payload = membership two_nodes;
}

change-IsLogId : IsLogId change.log_id
change-IsLogId = record { term = omega arith; node_id = omega arith; index = omega arith }

change-IsWritable : IsWritable codecs change.payload
unfolding IsWritable
change-IsWritable = (refl, two_nodes-IsEncodable)

change_size : length (encode_entry codecs change) < 2 ^ 64
unfolding encode_entry
change_size = ltb→lt (length (encode_entry codecs change)) (2 ^ 64) refl

change_back : decode_entry codecs (encode_entry codecs change) ≡ ok change
change_back = decode_entry-encode_entry codecs change change-IsLogId change-IsWritable change_size

-- eight bytes that announce more configurations than a vector can hold
too_many :
    decode_membership any_text as_given (255 ∷ 255 ∷ 255 ∷ 255 ∷ 255 ∷ 255 ∷ 255 ∷ 255 ∷ []) ≡ panic
unfolding decode_membership
too_many = refl
