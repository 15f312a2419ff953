-- ===== src/Raft/Storage.antt =====
-- crates/save-metadata/src/raft/storage.rs.
pub mod Truncation
pub mod Votes
use save.Prelude.{
  ℕ, ◌+◌, ◌-◌, ◌%◌, ◌^◌, Bytes, bytes, List, [], ◌∷◌, Option, none, some, ltb, if◌then◌else◌,
}
use save.Prelude.Result.{Result, ok, err, ok_or, map_ok}
use save.Rocksdb.{raft_state}
use save.Metadata.{Env, Fallible, DateTime, ◌>>=◌, ◌>>◌, pure, lift, reading}
use save.Metadata.StateMachine.{StorageError, read_error, write_error, serde_error, apply_command}
use save.Raft.{
  RaftTypes, LogId, Entry, EntryPayload, blank, normal, membership, cf_handle, get_cf, put_cf,
}
use save.Raft.Log.{
  RaftLogId, RaftEntry, LogState, read_log_id, write_log_id, delete_key, get_log_state, append,
  delete_range,
}

module _ ⦃env : Env⦄ ⦃raft : RaftTypes⦄ where
  unfoldable pub save_vote : raft.Vote → Fallible StorageError (Unit {0})
  save_vote vote = do
    reading (cf_handle raft_state)
    encoded ← lift (ok_or (raft.vote_codec.encode vote) (write_error serde_error))
    put_cf raft_state (bytes "vote") encoded

  unfoldable decode_vote : Option Bytes → Fallible StorageError (Option raft.Vote)
  decode_vote none = pure none
  decode_vote (some b) =
      lift (map_ok some (ok_or (raft.vote_codec.decode b) (read_error serde_error)))

  unfoldable pub read_vote : Fallible StorageError (Option raft.Vote)
  unfolding decode_vote
  read_vote = do
    reading (cf_handle raft_state)
    found ← reading (get_cf raft_state (bytes "vote"))
    decode_vote found

  unfoldable pub append_to_log : List RaftEntry → Fallible StorageError (Unit {0})
  unfolding append
  append_to_log entries = do last ← append entries; pure tt

  -- The new last log id after a truncation.
  set_last : RaftLogId → Fallible StorageError (Unit {0})
  unfolding write_log_id delete_key
  set_last log_id =
      if ltb 0 log_id.index
      then write_log_id (bytes "last_log_id")
          (record { leader_id = log_id.leader_id; index = log_id.index - 1 })
      else delete_key (bytes "last_log_id")

  truncate_from : RaftLogId → Option RaftLogId → Fallible StorageError (Unit {0})
  unfolding delete_range set_last
  truncate_from log_id none = pure tt
  truncate_from log_id (some last) = do delete_range log_id.index last.index; set_last log_id

  unfoldable pub delete_conflict_logs_since : RaftLogId → Fallible StorageError (Unit {0})
  unfolding get_log_state truncate_from
  delete_conflict_logs_since log_id = do
    current_state ← get_log_state
    truncate_from log_id current_state.last_log_id

  -- `.map(|id| id.index + 1).unwrap_or(0)`
  abbrev pub purge_start : Option RaftLogId → ℕ
  purge_start none = 0
  purge_start (some id) = (id.index + 1) % 2 ^ 64

  unfoldable pub purge_logs_upto : RaftLogId → Fallible StorageError (Unit {0})
  unfolding get_log_state delete_range write_log_id
  purge_logs_upto log_id = do
    current_state ← get_log_state
    delete_range (purge_start current_state.last_purged_log_id) log_id.index
    write_log_id (bytes "last_purged_log_id") log_id

  decode_membership : Option Bytes → Fallible StorageError raft.Stored
  decode_membership none = pure raft.default_stored
  decode_membership (some b) = lift (ok_or (raft.stored_codec.decode b) (read_error serde_error))

  unfoldable pub last_applied_state : Fallible StorageError (Option RaftLogId × raft.Stored)
  unfolding read_log_id decode_membership
  last_applied_state = do
    last_applied ← read_log_id (bytes "last_applied_log_id")
    reading (cf_handle raft_state)
    found ← reading (get_cf raft_state (bytes "membership"))
    stored ← decode_membership found
    pure (last_applied, stored)

  -- One entry, applied at the time `now`.
  unfoldable pub apply_entry :
      DateTime → RaftLogId → EntryPayload raft.Membership → Fallible StorageError (Unit {0})
  unfolding apply_command
  apply_entry now log_id blank = pure tt
  apply_entry now log_id (normal cmd) = apply_command now cmd
  apply_entry now log_id (membership m) = do
    reading (cf_handle raft_state)
    encoded ← lift (
        ok_or (raft.stored_codec.encode (raft.new_stored (some log_id) m))
          (write_error serde_error))
    put_cf raft_state (bytes "membership") encoded

  unfoldable pub apply_loop :
      List (DateTime × RaftEntry) → Option RaftLogId → Fallible StorageError (Option RaftLogId)
  unfolding apply_entry
  apply_loop [] last_applied = pure last_applied
  apply_loop ((now, e) ∷ entries) last_applied = do
    apply_entry now e.log_id e.payload
    apply_loop entries (some e.log_id)

  record_applied : Option RaftLogId → Fallible StorageError (Unit {0})
  unfolding write_log_id
  record_applied none = pure tt
  record_applied (some log_id) = write_log_id (bytes "last_applied_log_id") log_id

  -- The responses are one unit for each entry, and are left out.
  unfoldable pub apply_to_state_machine :
      List (DateTime × RaftEntry) → Fallible StorageError (Unit {0})
  unfolding apply_loop record_applied
  apply_to_state_machine entries = do
    last_applied ← apply_loop entries none
    record_applied last_applied
