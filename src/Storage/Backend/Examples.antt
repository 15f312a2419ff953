-- ===== src/Storage/Backend/Examples.antt =====
-- The theorems on the replicated backend at files in memory and a cluster of two, and tests.
use save.Prelude.{
  Bytes, bytes, [], ◌∷◌, none, some, true, ◌≡◌, ◌⊎◌, refl, arith, beq, contains, starts_with,
  ends_with,
}
use save.Prelude.Result.{ok, err}
use save.Validation.{validate_object_key}
use save.Replication.{Nodes, local_delete}
use save.Replication.Deletion.{delete_messages}
use save.Replication.Membership.{connected_nodes}
use save.Replication.Reads.{read_from_replica, read_loop}
use save.Storage.{StorageError}
use save.Storage.Layout.{object_id, object_path, object_path_from_id}
use save.Storage.Objects.{slice, get_object, delete_object, object_error}
use save.Storage.Memory.{Files, memory_files}
use save.Storage.Backend.{
  ReplicatedBackend, Run, replica, put_replicated, get_replicated, delete_replicated, health_check,
  healthy,
}
use save.Storage.Backend.Writes.{Cause, Ended, put_replicated_lem}
use save.Storage.Backend.Deletions.{delete_replicated_lem}

abbrev backend : ReplicatedBackend
backend = record {
  local = record {
    layout = record { base_path = bytes "data" ∷ []; sha256 = λ b. b };
    fsync_mode = bytes "data";
  };
  coordinator = record {
    local_node_id = 1;
    config = record { replication_factor = 3; write_quorum = 2; read_quorum = 1 };
    clients = (2, bytes "http://b:9002") ∷ [];
    request_counter = 0;
  };
  quorum_config = record { replication_factor = 3; write_quorum = 2; read_quorum = 1 };
}

abbrev other_node : Nodes StorageError
other_node = record {
  is_healthy = λ n. true;
  prepare = λ n k body c r. some (ok (bytes "0:k"));
  commit = λ n k t r. some (ok tt);
  delete = λ n k r. some (ok tt);
  read = λ n k. ok (bytes "remote");
  connect = λ n a. ok tt;
}

abbrev key : Bytes
key = bytes "b/k"

abbrev no_files : Files
no_files = λ p. none

key_id : object_id backend.local.layout key ≡ ok key
unfolding object_id validate_object_key beq contains starts_with ends_with
key_id = refl

put_replicated_lem_example :
    (run : Run other_node) × (put_replicated other_node backend 4 key (slice (bytes "new")) no_files
      ≡ some run)
    × Ended other_node backend key key
        (Cause other_node backend key key 4 (slice (bytes "new")) no_files)
        (bytes "new")
        no_files
        run
put_replicated_lem_example =
    put_replicated_lem other_node backend key key (slice (bytes "new")) 4 no_files key_id
      (omega arith)

delete_replicated_lem_example :
    (((delete_replicated other_node backend key no_files).result ≡ ok tt)
      × ((delete_object backend.local key no_files).0 ≡ ok tt)
      × (memory_files.contents
            (delete_replicated other_node backend key no_files).state
            (object_path_from_id backend.local.layout key)
          ≡ none)
      × ((delete_replicated other_node backend key no_files).messages
          ≡ local_delete key ∷ delete_messages key 0 ((2, bytes "http://b:9002") ∷ [])))
    ⊎ ((e : StorageError) × ((delete_replicated other_node backend key no_files).result ≡ err e)
        × ((delete_object backend.local key no_files).0 ≡ err e)
        × ((delete_replicated other_node backend key no_files).messages ≡ local_delete key ∷ []))
delete_replicated_lem_example = delete_replicated_lem other_node backend key key no_files key_id

-- An object that is not there is read from the other node.
read_replica : get_replicated other_node backend key no_files ≡ ok (replica (bytes "remote"))
unfolding get_replicated get_object object_path object_id object_path_from_id validate_object_key
    beq contains starts_with ends_with object_error read_from_replica read_loop
read_replica = refl

one_connected : health_check other_node backend no_files ≡ healthy
unfolding health_check connected_nodes
one_connected = refl
