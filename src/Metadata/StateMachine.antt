-- ===== src/Metadata/StateMachine.antt =====
-- crates/save-metadata/src/raft/state_machine.rs and the commands of raft/commands.rs. `now` is
-- what `Utc::now()` gives on the node that applies the command.
pub mod Locks
pub mod Exclusion
mod Examples
pub mod Laws
use save.Prelude.{Bytes, List, [], ◌∷◌, Bool}
use save.Prelude.Result.{Result}
use save.Metadata.{
  Env, Db, Error, Fallible, BucketInfo, ObjectMetadata, LockType, LockHolder, DateTime,
  MetadataError, ◌>>=◌, ◌>>◌, pure, or_else,
}
use save.Metadata.Bucket
use save.Metadata.Object
use save.Metadata.Lock

pub data Command : Type 0 where
  create_bucket : BucketInfo → Command
  delete_bucket : Bytes → Command
  put_object_metadata : ObjectMetadata → Command
  delete_object_metadata : Bytes → Bytes → Command
  acquire_lock : Bytes → Bytes → LockType → LockHolder → Command
  release_lock : Bytes → Bytes → LockHolder → Command

-- `openraft::StorageIOError`, by the operation that it is built for and its cause.
pub data Cause (E : Type 0) : Type 0 where
  metadata : MetadataError E → Cause E
  rocksdb_error : E → Cause E
  serde_error cf_not_found : Cause E

pub data StorageIoError (E : Type 0) : Type 0 where
  read_error write_error : Cause E → StorageIoError E

module _ ⦃env : Env⦄ where
  abbrev pub StorageError : Type 0
  StorageError = StorageIoError env.rocksdb.Error

  -- `.map_err(|e| StorageIOError::write(&std::io::Error::other(e.to_string())))?;`
  abbrev pub or_write_error : {A : Type 0} → Fallible Error A → Fallible StorageError A
  or_write_error = or_else (λ e. write_error (metadata e))

  unfoldable pub apply_command : DateTime → Command → Fallible StorageError (Unit {0})
  apply_command now (create_bucket bucket) = do
    created ← or_write_error (Bucket.create_bucket now bucket.name)
    pure tt
  apply_command now (delete_bucket name) = or_write_error (Bucket.delete_bucket name)
  apply_command now (put_object_metadata m) = or_write_error (Object.put_object_metadata m)
  apply_command now (delete_object_metadata bucket key) =
      or_write_error (Object.delete_object_metadata bucket key)
  apply_command now (acquire_lock bucket key lock_type holder) = do
    acquired ← or_write_error (Lock.acquire_lock bucket key lock_type holder)
    pure tt
  apply_command now (release_lock bucket key holder) =
      or_write_error (Lock.release_lock bucket key holder)

  -- The database after a history of applied commands, each with the time of its application; a
  -- command that fails leaves what it has written.
  unfoldable pub apply_all : List (DateTime × Command) → Db → Db
  apply_all [] d = d
  apply_all ((now, c) ∷ cs) d = apply_all cs (apply_command now c d).1
