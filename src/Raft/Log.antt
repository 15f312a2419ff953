-- ===== src/Raft/Log.antt =====
-- crates/save-metadata/src/raft/log_store.rs.
pub mod Keys
pub mod Laws
pub mod Reading
use save.Prelude.{
  ℕ, zero, suc, ◌+◌, ◌-◌, ◌/◌, ◌%◌, ◌^◌, Bytes, bytes, List, [], ◌∷◌, ◌++◌, Option, none, some,
  ◌==◌,
}
use save.Prelude.Result.{Result, ok, err, ok_or, map_ok}
use save.Rocksdb.{raft_log, raft_state}
use save.Metadata.{Env, Fallible, ◌>>=◌, ◌>>◌, pure, lift, reading}
use save.Metadata.StateMachine.{StorageError, read_error, write_error, serde_error}
use save.Raft.{RaftTypes, LogId, Entry, cf_handle, get_cf, put_cf, delete_cf}

-- The last k bytes of a number, before the bytes that are written already.
unfoldable pub be_bytes : ℕ → ℕ → Bytes → Bytes
be_bytes zero n acc = acc
be_bytes (suc k) n acc = be_bytes k (n / 256) (n % 256 ∷ acc)

-- `to_be_bytes` of a `u64`.
unfoldable pub index_to_key : ℕ → Bytes
unfolding be_bytes
index_to_key index = be_bytes 8 index []

pub data Bound : Type 0 where
  included excluded : ℕ → Bound
  unbounded : Bound

-- The bounds of the loop of `get_entries`; `n + 1` wraps.
unfoldable pub start_of : Bound → ℕ
start_of (included n) = n
start_of (excluded n) = (n + 1) % 2 ^ 64
start_of unbounded = 0

unfoldable pub end_of : Bound → ℕ
end_of (included n) = (n + 1) % 2 ^ 64
end_of (excluded n) = n
end_of unbounded = 2 ^ 64 - 1

pub record LogState (L : Type 0) : Type 0 where
  pub last_purged_log_id : Option (LogId L)
  pub last_log_id : Option (LogId L)

module _ ⦃env : Env⦄ ⦃raft : RaftTypes⦄ where
  abbrev pub RaftLogId : Type 0
  RaftLogId = LogId raft.LeaderId

  abbrev pub RaftEntry : Type 0
  RaftEntry = Entry raft.LeaderId raft.Membership

  unfoldable pub decode_log_id : Option Bytes → Fallible StorageError (Option RaftLogId)
  decode_log_id none = pure none
  decode_log_id (some b) =
      lift (map_ok some (ok_or (raft.log_id_codec.decode b) (read_error serde_error)))

  unfoldable pub read_log_id : Bytes → Fallible StorageError (Option RaftLogId)
  unfolding decode_log_id
  read_log_id key = do
    reading (cf_handle raft_state)
    found ← reading (get_cf raft_state key)
    decode_log_id found

  unfoldable pub write_log_id : Bytes → RaftLogId → Fallible StorageError (Unit {0})
  write_log_id key log_id = do
    reading (cf_handle raft_state)
    encoded ← lift (ok_or (raft.log_id_codec.encode log_id) (write_error serde_error))
    put_cf raft_state key encoded

  unfoldable pub delete_key : Bytes → Fallible StorageError (Unit {0})
  delete_key key = do reading (cf_handle raft_state); delete_cf raft_state key

  unfoldable pub get_log_state : Fallible StorageError (LogState raft.LeaderId)
  unfolding read_log_id
  get_log_state = do
    last_purged ← read_log_id (bytes "last_purged_log_id")
    last ← read_log_id (bytes "last_log_id")
    pure (record { last_purged_log_id = last_purged; last_log_id = last })

  push_entry : List RaftEntry → Option Bytes → Fallible StorageError (List RaftEntry)
  push_entry entries none = pure entries
  push_entry entries (some b) =
      lift (
        map_ok (λ e. entries ++ e ∷ [])
          (ok_or (raft.entry_codec.decode b) (read_error serde_error)))

  -- `for index in start..end`, by the number of indices left.
  unfoldable pub entries_loop : ℕ → ℕ → List RaftEntry → Fallible StorageError (List RaftEntry)
  unfolding push_entry
  entries_loop zero index entries = pure entries
  entries_loop (suc left) index entries = do
    found ← reading (get_cf raft_log (index_to_key index))
    more ← push_entry entries found
    entries_loop left (index + 1) more

  unfoldable pub get_entries : Bound → Bound → Fallible StorageError (List RaftEntry)
  unfolding entries_loop start_of end_of
  get_entries start_bound end_bound = do
    reading (cf_handle raft_log)
    entries_loop (end_of end_bound - start_of start_bound) (start_of start_bound) []

  unfoldable pub append_loop :
      List RaftEntry → Option RaftLogId → Fallible StorageError (Option RaftLogId)
  append_loop [] last_log_id = pure last_log_id
  append_loop (e ∷ entries) last_log_id = do
    encoded ← lift (ok_or (raft.entry_codec.encode e) (write_error serde_error))
    put_cf raft_log (index_to_key e.log_id.index) encoded
    append_loop entries (some e.log_id)

  -- What `append` does with the id of the last entry.
  record_last : Option RaftLogId → Fallible StorageError (Option RaftLogId)
  unfolding write_log_id
  record_last none = pure none
  record_last (some log_id) = do write_log_id (bytes "last_log_id") log_id; pure (some log_id)

  unfoldable pub append : List RaftEntry → Fallible StorageError (Option RaftLogId)
  unfolding append_loop record_last
  append entries = do
    reading (cf_handle raft_log)
    last_log_id ← append_loop entries none
    record_last last_log_id

  -- `for index in start..=end`, by the number of indices left.
  unfoldable pub delete_entries : ℕ → ℕ → Fallible StorageError (Unit {0})
  delete_entries zero index = pure tt
  delete_entries (suc left) index = do
    delete_cf raft_log (index_to_key index)
    delete_entries left (index + 1)

  unfoldable pub delete_range : ℕ → ℕ → Fallible StorageError (Unit {0})
  unfolding delete_entries
  delete_range start end = do reading (cf_handle raft_log); delete_entries (end + 1 - start) start
