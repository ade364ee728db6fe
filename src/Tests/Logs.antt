-- ===== src/Tests/Logs.antt =====
-- The log's codec at concrete inputs.
use mangle_rs.Prelude.{◌≡◌, refl, true, [], ◌∷◌, arith, nat_eq, list_eq, pair_eq, ok, int_eq}
use mangle_rs.Wal.Codec.{
  CommittedLeaderId, LogId, Vote, encode_log_id, decode_log_id, encode_vote, decode_vote,
  encode_committed_leader_id, decode_committed_leader_id, decode_vote-encode_vote,
  decode_log_id-encode_log_id, decode_committed_leader_id-encode_committed_leader_id,
}

abbrev leader : CommittedLeaderId
leader = record { term = 3; node_id = 258 }

abbrev vote : Vote
vote = record { term = 3; node_id = 258; committed = true }

abbrev log_id : LogId
log_id = record { leader_id = leader; index = 70000 }

vote_layout :
    encode_vote vote ≡ 3 ∷ 0 ∷ 0 ∷ 0 ∷ 0 ∷ 0 ∷ 0 ∷ 0 ∷ 2 ∷ 1 ∷ 0 ∷ 0 ∷ 0 ∷ 0 ∷ 0 ∷ 0 ∷ 1 ∷ []
unfolding encode_vote
vote_layout = refl

decode_committed_leader_id-encode_committed_leader_id_example :
    decode_committed_leader_id (encode_committed_leader_id leader) ≡ ok leader
decode_committed_leader_id-encode_committed_leader_id_example =
    decode_committed_leader_id-encode_committed_leader_id leader (omega arith) (omega arith)

decode_vote-encode_vote_example : decode_vote (encode_vote vote) ≡ ok vote
decode_vote-encode_vote_example = decode_vote-encode_vote vote (omega arith) (omega arith)

decode_log_id-encode_log_id_example : decode_log_id (encode_log_id log_id) ≡ ok log_id
decode_log_id-encode_log_id_example =
    decode_log_id-encode_log_id log_id (omega arith) (omega arith) (omega arith)
