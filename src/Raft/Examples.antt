-- ===== src/Raft/Examples.antt =====
-- The theorems on the Raft log at a log of two entries.
use save.Prelude.{
  ◌⊎◌, ℕ, ◌^◌, ◌<◌, ◌≡◌, Bytes, bytes, [], ◌∷◌, Option, none, some, leb, ◌&&◌, if◌then◌else◌, refl,
  arith, beq, blt,
}
use save.Prelude.Result.{ok, err}
use save.Rocksdb.{raft_log, raft_state}
use save.Rocksdb.SortedMap.{lookup, insert}
use save.Rocksdb.Memory.{put_w, delete_w, mem_get, mem_put, mem_delete, contents, same_cf}
use save.Metadata.{Db}
use save.Metadata.Fixture.{env, empty}
use save.Raft.{RaftTypes, LogId, Entry, EntryPayload, blank, normal, membership}
use save.Raft.Log.{
  RaftLogId, RaftEntry, append, append_loop, index_to_key, be_bytes, write_log_id, read_log_id,
  decode_log_id, get_log_state, delete_range, delete_entries,
}
use save.Raft.Log.Laws.{entry_at, state_at, written, last_of, append_lem}
use save.Raft.Log.Reading.{decoded}
use save.Metadata.StateMachine.{read_error, rocksdb_error}
use save.Raft.Storage.Votes.{read_vote-save_vote}
use save.Raft.Storage.{
  save_vote, read_vote, delete_conflict_logs_since, purge_logs_upto, purge_start,
}
use save.Raft.Storage.Truncation.{delete_conflict_logs_since_lem, purge_logs_upto_lem}

-- Leaders and memberships are numbers, and an entry with a command cannot be written.
abbrev encode_log_id : LogId ℕ → Option Bytes
encode_log_id id = some (id.leader_id ∷ id.index ∷ [])

abbrev decode_id : Bytes → Option (LogId ℕ)
decode_id (l ∷ i ∷ []) = some (record { leader_id = l; index = i })
decode_id _ = none

decode-encode_log_id :
    (id : LogId ℕ) (b : Bytes) → encode_log_id id ≡ some b → decode_id b ≡ some id
decode-encode_log_id id b h = ground arith

abbrev encode_entry : Entry ℕ ℕ → Option Bytes
encode_entry e = encode_payload e.payload
  where
    encode_payload : EntryPayload ℕ → Option Bytes
    encode_payload blank = some (e.log_id.leader_id ∷ e.log_id.index ∷ [])
    encode_payload (normal c) = none
    encode_payload (membership m) = some (e.log_id.leader_id ∷ e.log_id.index ∷ m ∷ [])

abbrev decode_entry : Bytes → Option (Entry ℕ ℕ)
decode_entry (l ∷ i ∷ []) =
    some (record { log_id = record { leader_id = l; index = i }; payload = blank })
decode_entry (l ∷ i ∷ m ∷ []) =
    some (record { log_id = record { leader_id = l; index = i }; payload = membership m })
decode_entry _ = none

decode-encode_entry :
    (e : Entry ℕ ℕ) (b : Bytes) → encode_entry e ≡ some b → decode_entry b ≡ some e
decode-encode_entry e b h = ground arith

abbrev encode_number : ℕ → Option Bytes
encode_number n = some (n ∷ [])

abbrev decode_number : Bytes → Option ℕ
decode_number (n ∷ []) = some n
decode_number _ = none

decode-encode_number : (n : ℕ) (b : Bytes) → encode_number n ≡ some b → decode_number b ≡ some n
decode-encode_number n b h = ground arith

instance abbrev raft : RaftTypes
raft = record {
  LeaderId = ℕ;
  Membership = ℕ;
  log_id_codec = record {
    encode = encode_log_id;
    decode = decode_id;
    decode-encode = decode-encode_log_id;
  };
  entry_codec = record {
    encode = encode_entry;
    decode = decode_entry;
    decode-encode = decode-encode_entry;
  };
  Vote = ℕ;
  vote_codec = record {
    encode = encode_number;
    decode = decode_number;
    decode-encode = decode-encode_number;
  };
  Stored = ℕ;
  stored_codec = record {
    encode = encode_number;
    decode = decode_number;
    decode-encode = decode-encode_number;
  };
  new_stored = λ id m. m;
  default_stored = 0;
}

abbrev id_at : ℕ → RaftLogId
id_at i = record { leader_id = 1; index = i }

abbrev entry : ℕ → RaftEntry
entry i = record { log_id = id_at i; payload = blank }

abbrev key_of : ℕ → Bytes
key_of i = 0 ∷ 0 ∷ 0 ∷ 0 ∷ 0 ∷ 0 ∷ 0 ∷ i ∷ []

abbrev with_two : Db
with_two =
    put_w raft_state (bytes "last_log_id") (1 ∷ 4 ∷ [])
    ∷ put_w raft_log (key_of 4) (1 ∷ 4 ∷ [])
    ∷ put_w raft_log (key_of 3) (1 ∷ 3 ∷ [])
    ∷ []

appends : append (entry 3 ∷ entry 4 ∷ []) empty ≡ (ok (some (id_at 4)), with_two)
unfolding append append_loop write_log_id index_to_key be_bytes mem_put
appends = refl

append_lem_example :
    (some (id_at 4) ≡ last_of none (entry 3 ∷ entry 4 ∷ []))
    × ((id : RaftLogId)
        → some (id_at 4) ≡ some id
        → state_at (bytes "last_log_id") with_two ≡ encode_log_id id)
    × ((i : ℕ)
        → i < 2 ^ 64
        → entry_at i with_two ≡ written i (entry 3 ∷ entry 4 ∷ []) (entry_at i empty))
append_lem_example =
    append_lem (entry 3 ∷ entry 4 ∷ []) (some (id_at 4)) empty with_two
      (omega arith, (omega arith, tt)) appends

last_is_4 : decoded (state_at (bytes "last_log_id") with_two) ≡ some (id_at 4)
unfolding lookup contents insert same_cf beq blt
last_is_4 = refl

abbrev truncated : Db
truncated =
    put_w raft_state (bytes "last_log_id") (1 ∷ 3 ∷ []) ∷ delete_w raft_log (key_of 4) ∷ with_two

truncates : delete_conflict_logs_since (id_at 4) with_two ≡ (ok tt, truncated)
unfolding delete_conflict_logs_since get_log_state read_log_id decode_log_id delete_range
    delete_entries write_log_id index_to_key be_bytes mem_get mem_put mem_delete lookup contents
    insert same_cf beq blt
truncates = refl

delete_conflict_logs_since_lem_example :
    entry_at 4 truncated ≡ (if leb 4 4 && leb 4 4 then none else entry_at 4 with_two)
delete_conflict_logs_since_lem_example =
    delete_conflict_logs_since_lem (id_at 4) (id_at 4) with_two truncated (omega arith)
      (omega arith) last_is_4 truncates 4 (omega arith)

abbrev purged : Db
purged =
    put_w raft_state (bytes "last_purged_log_id") (1 ∷ 0 ∷ [])
    ∷ delete_w raft_log (key_of 0)
    ∷ with_two

purges : purge_logs_upto (id_at 0) with_two ≡ (ok tt, purged)
unfolding purge_logs_upto get_log_state read_log_id decode_log_id delete_range delete_entries
    write_log_id index_to_key be_bytes mem_get mem_put mem_delete lookup contents insert same_cf beq
    blt
purges = refl

purge_logs_upto_lem_example :
    (state_at (bytes "last_purged_log_id") purged ≡ encode_log_id (id_at 0))
    × ((i : ℕ)
        → i < 2 ^ 64
        → entry_at i purged ≡ (
            if leb (purge_start (decoded (state_at (bytes "last_purged_log_id") with_two))) i
              && leb i 0
            then none
            else entry_at i with_two))
purge_logs_upto_lem_example = purge_logs_upto_lem (id_at 0) with_two purged (omega arith) purges

abbrev voted : Db
voted = put_w raft_state (bytes "vote") (7 ∷ []) ∷ with_two

votes : save_vote 7 with_two ≡ (ok tt, voted)
unfolding save_vote mem_put
votes = refl

read_vote-save_vote_example :
    (read_vote voted ≡ (ok (some 7), voted))
    ⊎ ((e : Unit {0}) × (read_vote voted ≡ (err (read_error (rocksdb_error e)), voted)))
read_vote-save_vote_example = read_vote-save_vote 7 with_two voted votes
