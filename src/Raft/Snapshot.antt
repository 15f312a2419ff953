-- ===== src/Raft/Snapshot.antt =====
-- crates/save-metadata/src/raft/snapshot.rs. Packing a checkpoint of a database into an archive and
-- opening the database in an archive are parameters, with the errors they give. An iterator goes over
-- the database as it was when the iterator was made.
pub mod Restore
mod Examples
use save.Prelude.{
  ℕ, Bytes, bytes, List, [], ◌∷◌, ◌++◌, Option, none, some, starts_with, if◌then◌else◌,
}
use save.Prelude.Decimal.{display}
use save.Prelude.Result.{Result, ok, err, ok_or, map_err}
use save.Rocksdb.{Codec, Cf, raft_state, raft_snapshot, default_cf}
use save.Metadata.{Env, Db, Fallible, ◌>>=◌, ◌>>◌, pure, fail, lift, reading}
use save.Metadata.StateMachine.{
  StorageError, read_error, write_error, serde_error, rocksdb_error, cf_not_found,
}
use save.Raft.{RaftTypes, LogId, cf_handle, get_cf, put_cf}
use save.Raft.Log.{RaftLogId}
use save.Raft.Storage.{last_applied_state}

pub record SnapshotMeta (L S : Type 0) : Type 0 where
  pub last_log_id : Option (LogId L)
  pub last_membership : S
  pub snapshot_id : Bytes

-- crates/save-metadata/src/keys.rs
abbrev pub data_prefixes : List Bytes
data_prefixes = bytes "bkt:" ∷ bytes "obj:" ∷ bytes "mpu:" ∷ []

module _ ⦃env : Env⦄ where
  -- The column family, with the error of a write.
  abbrev pub cf_to_write : Cf → Db → Result StorageError (Unit {0})
  cf_to_write cf d = if env.rocksdb.has_cf d cf then ok tt else err (write_error cf_not_found)

  -- What an iterator yields.
  abbrev pub Items : Type 0
  Items = List (Result env.rocksdb.Error (Bytes × Bytes))

  -- The loop that deletes what the iterator yields under a prefix.
  unfoldable pub delete_loop : Bytes → Items → Fallible StorageError (Unit {0})
  delete_loop prefix [] d = (ok tt, d)
  delete_loop prefix (err e ∷ items) d = (err (write_error (rocksdb_error e)), d)
  delete_loop prefix (ok (key, value) ∷ items) d =
      let (r, d') = env.rocksdb.delete d default_cf key in
      let rest = delete_loop prefix items d' in
      if starts_with key prefix
      then elim r [ ok _ ↦ rest | err e ↦ (err (write_error (rocksdb_error e)), d') ]
      else (ok tt, d)

  unfoldable pub delete_prefixes : List Bytes → Fallible StorageError (Unit {0})
  unfolding delete_loop
  delete_prefixes [] d = (ok tt, d)
  delete_prefixes (p ∷ prefixes) d =
      (delete_loop p (env.rocksdb.prefix_iterator d p) >> delete_prefixes prefixes) d

  -- The loop that copies what the iterator of the source yields under a prefix.
  unfoldable pub copy_loop : Bytes → Items → Fallible StorageError (Unit {0})
  copy_loop prefix [] d = (ok tt, d)
  copy_loop prefix (err e ∷ items) d = (err (read_error (rocksdb_error e)), d)
  copy_loop prefix (ok (key, value) ∷ items) d =
      let (r, d') = env.rocksdb.put d default_cf key value in
      let rest = copy_loop prefix items d' in
      if starts_with key prefix
      then elim r [ ok _ ↦ rest | err e ↦ (err (write_error (rocksdb_error e)), d') ]
      else (ok tt, d)

  unfoldable pub copy_prefixes : Db → List Bytes → Fallible StorageError (Unit {0})
  unfolding copy_loop
  copy_prefixes source [] = pure tt
  copy_prefixes source (p ∷ prefixes) =
      copy_loop p (env.rocksdb.prefix_iterator source p) >> copy_prefixes source prefixes

  unfoldable pub restore_default_cf : Db → Fallible StorageError (Unit {0})
  unfolding delete_prefixes copy_prefixes
  restore_default_cf source = delete_prefixes data_prefixes >> copy_prefixes source data_prefixes

module _ ⦃env : Env⦄ ⦃raft : RaftTypes⦄
    (meta_codec : Codec (SnapshotMeta raft.LeaderId raft.Stored))
    (create_checkpoint_archive : Db → Result StorageError Bytes)
    (open_archive : Bytes → Result StorageError Db) where
  abbrev pub Meta : Type 0
  Meta = SnapshotMeta raft.LeaderId raft.Stored

  -- `last_applied.map(|id| id.index).unwrap_or(0)`
  abbrev index_of : Option RaftLogId → ℕ
  index_of none = 0
  index_of (some id) = id.index

  unfoldable pub write_snapshot : Meta → Bytes → Fallible StorageError (Unit {0})
  write_snapshot meta body = do
    meta_bytes ← lift (ok_or (meta_codec.encode meta) (write_error serde_error))
    put_cf raft_snapshot (bytes "snapshot_meta") meta_bytes
    put_cf raft_snapshot (bytes "snapshot_data") body

  -- `read_applied_state` reads what `last_applied_state` reads. `now` is in milliseconds.
  unfoldable pub build_snapshot : ℕ → Fallible StorageError (Meta × Bytes)
  unfolding write_snapshot
  build_snapshot now = do
    applied ← last_applied_state
    body ← reading create_checkpoint_archive
    let meta : Meta = record {
      last_log_id = applied.0;
      last_membership = applied.1;
      snapshot_id = display (index_of applied.0) ++ b'-' ∷ display now;
    }
    reading (cf_handle raft_snapshot)
    write_snapshot meta body
    pure (meta, body)

  found_snapshot : Option Bytes → Option Bytes → Fallible StorageError (Option (Meta × Bytes))
  found_snapshot none body = pure none
  found_snapshot (some m) none = pure none
  found_snapshot (some m) (some body) = do
    meta ← lift (ok_or (meta_codec.decode m) (read_error serde_error))
    pure (some (meta, body))

  -- Without metadata the data is not read.
  read_body : Option Bytes → Fallible StorageError (Option Bytes)
  read_body none = pure none
  read_body (some m) = reading (get_cf raft_snapshot (bytes "snapshot_data"))

  unfoldable pub get_current_snapshot : Fallible StorageError (Option (Meta × Bytes))
  unfolding found_snapshot read_body
  get_current_snapshot = do
    reading (cf_handle raft_snapshot)
    meta_bytes ← reading (get_cf raft_snapshot (bytes "snapshot_meta"))
    body ← read_body meta_bytes
    found_snapshot meta_bytes body

  record_last : Option RaftLogId → Fallible StorageError (Unit {0})
  record_last none = pure tt
  record_last (some id) = do
    encoded ← lift (ok_or (raft.log_id_codec.encode id) (write_error serde_error))
    put_cf raft_state (bytes "last_applied_log_id") encoded

  unfoldable pub update_raft_state_from_snapshot : Meta → Fallible StorageError (Unit {0})
  unfolding record_last
  update_raft_state_from_snapshot meta = do
    reading (cf_to_write raft_state)
    record_last meta.last_log_id
    membership_bytes ←
        lift (ok_or (raft.stored_codec.encode meta.last_membership) (write_error serde_error))
    put_cf raft_state (bytes "membership") membership_bytes

  unfoldable pub install_snapshot : Meta → Bytes → Fallible StorageError (Unit {0})
  unfolding restore_default_cf update_raft_state_from_snapshot write_snapshot
  install_snapshot meta body = do
    source ← lift (open_archive body)
    restore_default_cf source
    update_raft_state_from_snapshot meta
    reading (cf_to_write raft_snapshot)
    write_snapshot meta body
