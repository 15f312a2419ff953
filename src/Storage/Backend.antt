-- ===== src/Storage/Backend.antt =====
-- crates/save-storage/src/replicated_backend.rs: the object storage of a node together with the
-- coordinator. Where the local commit is not run, the temporary object goes out of scope with it.
pub mod Writes
pub mod Deletions
mod Examples
use save.Prelude.{
  ℕ, ◌-◌, Bytes, List, [], ◌∷◌, Option, none, some, Bool, true, false, ◌==◌, ltb, length, any,
  if◌then◌else◌,
}
use save.Prelude.Result.{Result, ok, err, ok_or}
use save.Replication.{QuorumConfig, Coordinator, Nodes, Message, ReplicationResult, replicate_write}
use save.Replication.TwoPhase.{is_local_write}
use save.Replication.Deletion.{replicate_delete}
use save.Replication.Reads.{read_from_replica}
use save.Replication.Membership.{connected_nodes}
use save.Storage.{FilePath, IoError, StorageError, io, missing, quorum_not_achieved, FileSystem}
use save.Storage.Layout.{temp_dir}
use save.Storage.Objects.{
  TempObject, ObjectStorage, Reader, drop, write_temp_object, commit_object, get_object,
  delete_object, read_to_end,
}

pub record ReplicatedBackend : Type 0 where
  pub local : ObjectStorage
  pub coordinator : Coordinator
  pub quorum_config : QuorumConfig

-- Where the bytes of an object come from: its local file, or a replica.
pub data Source : Type 0 where
  local_file : FilePath → Source
  replica : Bytes → Source

pub data HealthStatus : Type 0 where
  healthy : HealthStatus
  degraded : ℕ → ℕ → HealthStatus
  not_a_directory : HealthStatus
  unhealthy : IoError → HealthStatus

abbrev with_coordinator : ReplicatedBackend → Coordinator → ReplicatedBackend
with_coordinator b c = record b { coordinator = c }

unfoldable pub judge :
    QuorumConfig
    → Result StorageError (ReplicationResult StorageError)
    → Result StorageError (Unit {0})
judge config (err e) = err e
judge config (ok result) =
    if result.quorum_achieved
    then ok tt
    else err (quorum_not_achieved result.success_count config.write_quorum)

unfoldable pub judge_deletion :
    Bytes → Result StorageError (ReplicationResult StorageError) → Result StorageError (Unit {0})
judge_deletion key (err e) = err e
judge_deletion key (ok result) = if result.success_count == 0 then err (missing key) else ok tt

module _ ⦃fs : FileSystem⦄ where
  -- The hash of a file. None if the fuel runs out.
  abbrev pub hash_of_read :
      (Bytes → Bytes) → Option (Result IoError Bytes) → Option (Result StorageError Bytes)
  hash_of_read sha256 none = none
  hash_of_read sha256 (some (err e)) = some (err (io e))
  hash_of_read sha256 (some (ok body)) = some (ok (sha256 body))

  abbrev pub hash_opened :
      (Bytes → Bytes)
      → ℕ
      → FilePath
      → Result IoError (Unit {0})
      → fs.State
      → Option (Result StorageError Bytes)
  hash_opened sha256 fuel path (err e) s = some (err (io e))
  hash_opened sha256 fuel path (ok u) s = hash_of_read sha256 (read_to_end fuel path [] s)

  unfoldable pub compute_file_checksum :
      (Bytes → Bytes) → ℕ → FilePath → fs.State → Option (Result StorageError Bytes)
  compute_file_checksum sha256 fuel path s = hash_opened sha256 fuel path (fs.open_file path s) s

module _ ⦃fs : FileSystem⦄ (nodes : Nodes StorageError) where
  -- The backend and the files afterwards, what the operation returns, and the messages it sends.
  pub record Run : Type 0 where
    pub result : Result StorageError (Unit {0})
    pub backend : ReplicatedBackend
    pub messages : List Message
    pub state : fs.State

  -- The write on the other nodes, to which the temporary file is streamed, and the local commit if
  -- they let it run.
  unfoldable pub replicate_temp : ReplicatedBackend → Bytes → TempObject → Bytes → fs.State → Run
  unfolding judge
  replicate_temp b key t checksum s =
      let (r, s') = commit_object b.local t s in
      let (c, result, sent) =
        replicate_write nodes b.coordinator key (fs.contents s t.temp_path) checksum r in
      record {
        result = judge b.quorum_config result;
        backend = with_coordinator b c;
        messages = sent;
        state = if any is_local_write sent then s' else drop t s;
      }

  abbrev pub commit_checked :
      ReplicatedBackend
      → Bytes
      → TempObject
      → fs.State
      → Option (Result StorageError Bytes)
      → Option Run
  commit_checked b key t s none = none
  commit_checked b key t s (some (err e)) =
      some (record { result = err e; backend = b; messages = []; state = drop t s })
  commit_checked b key t s (some (ok checksum)) = some (replicate_temp b key t checksum s)

  -- `commit_object` of a `ReplicatedTempHandle`, which has a temporary object and its key.
  unfoldable pub commit_handle : ReplicatedBackend → ℕ → Bytes → TempObject → fs.State → Option Run
  unfolding replicate_temp
  commit_handle b fuel key t s =
      commit_checked b key t s (compute_file_checksum b.local.layout.sha256 fuel t.temp_path s)

  abbrev pub commit_written :
      ReplicatedBackend → ℕ → Bytes → Result StorageError TempObject → fs.State → Option Run
  commit_written b fuel key (err e) s =
      some (record { result = err e; backend = b; messages = []; state = s })
  commit_written b fuel key (ok t) s = commit_handle b fuel key t s

  unfoldable pub put_replicated : ReplicatedBackend → ℕ → Bytes → Reader → fs.State → Option Run
  unfolding commit_handle
  put_replicated b fuel key reader s =
      let (r, s') = write_temp_object b.local key reader s in commit_written b fuel key r s'

  abbrev pub local_or_replica :
      ReplicatedBackend → Bytes → Result StorageError FilePath → Result StorageError Source
  local_or_replica b key (ok path) = ok (local_file path)
  local_or_replica b key (err (missing k)) = elim (read_from_replica nodes key b.coordinator) [
    | some body ↦ ok (replica body)
    | none ↦ err (missing key)
  ]
  local_or_replica b key (err e) = err e

  unfoldable pub get_replicated : ReplicatedBackend → Bytes → fs.State → Result StorageError Source
  get_replicated b key s = local_or_replica b key (get_object b.local key s)

  unfoldable pub delete_replicated : ReplicatedBackend → Bytes → fs.State → Run
  unfolding judge_deletion
  delete_replicated b key s =
      let (r, s') = delete_object b.local key s in
      let (c, result, sent) = replicate_delete nodes key r b.coordinator in
      record {
        result = judge_deletion key result;
        backend = with_coordinator b c;
        messages = sent;
        state = s';
      }

  unfoldable pub health_check : ReplicatedBackend → fs.State → HealthStatus
  health_check b s = elim (fs.is_dir (temp_dir b.local.layout) s) [
    | err e ↦ unhealthy e
    | ok false ↦ not_a_directory
    | ok true ↦
        let connected = length (connected_nodes b.coordinator) in
        let min_replicas = b.quorum_config.write_quorum - 1 in
        if ltb connected min_replicas then degraded connected min_replicas else healthy
  ]
