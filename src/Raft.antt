-- ===== src/Raft.antt =====
-- crates/save-metadata/src/raft: the storage of the Raft log. Consensus is openraft's; its types
-- and their serialisation (serde_json) are parameters.
pub mod Log
pub mod Storage
pub mod Snapshot
mod Examples
use save.Prelude.{ℕ, Bytes, Bool, true, false, Option, if◌then◌else◌}
use save.Prelude.Result.{Result, ok, err, map_err}
use save.Rocksdb.{Codec, Cf}
use save.Metadata.{Env, Db, Fallible}
use save.Metadata.StateMachine.{
  Command, StorageError, StorageIoError, Cause, read_error, write_error, cf_not_found,
  rocksdb_error,
}

-- `openraft::LogId`, with its leader id left open.
pub record LogId (L : Type 0) : Type 0 where
  pub leader_id : L
  pub index : ℕ

pub data EntryPayload (M : Type 0) : Type 0 where
  blank : EntryPayload M
  normal : Command → EntryPayload M
  membership : M → EntryPayload M

pub record Entry (L M : Type 0) : Type 0 where
  pub log_id : LogId L
  pub payload : EntryPayload M

pub record RaftTypes : Type 1 where
  pub LeaderId : Type 0
  pub Membership : Type 0
  pub log_id_codec : Codec (LogId LeaderId)
  pub entry_codec : Codec (Entry LeaderId Membership)
  pub Vote : Type 0
  pub vote_codec : Codec Vote
  -- `StoredMembership`, with `new` and `default`.
  pub Stored : Type 0
  pub stored_codec : Codec Stored
  pub new_stored : Option (LogId LeaderId) → Membership → Stored
  pub default_stored : Stored

module _ ⦃env : Env⦄ where
  -- `db.cf_handle(..).ok_or_else(..)?`
  abbrev pub cf_handle : Cf → Db → Result StorageError (Unit {0})
  cf_handle cf d = if env.rocksdb.has_cf d cf then ok tt else err (read_error cf_not_found)

  -- `db.get_cf(..)`, `db.put_cf(..)` and `db.delete_cf(..)` with their `map_err`.
  abbrev pub get_cf : Cf → Bytes → Db → Result StorageError (Option Bytes)
  get_cf cf k d = map_err (λ e. read_error (rocksdb_error e)) (env.rocksdb.get d cf k)

  abbrev pub put_cf : Cf → Bytes → Bytes → Fallible StorageError (Unit {0})
  put_cf cf k v d =
      let (r, d') = env.rocksdb.put d cf k v in (map_err (λ e. write_error (rocksdb_error e)) r, d')

  abbrev pub delete_cf : Cf → Bytes → Fallible StorageError (Unit {0})
  delete_cf cf k d =
      let (r, d') = env.rocksdb.delete d cf k in
      (map_err (λ e. write_error (rocksdb_error e)) r, d')
