-- ===== src/Storage/Backend/Deletions.antt =====
-- What a replicated deletion does and returns.
use save.Prelude.{Bytes, [], ◌∷◌, none, false, ◌≡◌, ◌⊎◌, refl, ap, inl, inr, arith, length, ◌==◌}
use save.Prelude.Result.{ok, err, Result-cases}
use save.Replication.{Nodes, Coordinator, local_delete}
use save.Replication.Deletion.{replicate_delete, replicate_delete_lem, delete_messages}
use save.Storage.{StorageError, FileSystem}
use save.Storage.Layout.{object_id, object_path_from_id}
use save.Storage.Objects.{delete_object}
use save.Storage.Objects.Reading.{delete_object_lem}
use save.Storage.Backend.{ReplicatedBackend, judge_deletion, delete_replicated}

module _ (nodes : Nodes StorageError) (key : Bytes) (c : Coordinator) where
  judged_ok :
      (judge_deletion key (replicate_delete nodes key (ok tt) c).1 ≡ ok tt)
      × ((replicate_delete nodes key (ok tt) c).2
          ≡ local_delete key ∷ delete_messages key c.request_counter c.clients)
  unfolding judge_deletion
  judged_ok =
      let (failing, res, result, messages, succeeded, failed, count, quorum) =
        replicate_delete_lem nodes key c in
      let positive : (res.success_count == 0) ≡ false =
        ground (arith, count, ap length succeeded) in
      (rw (result, positive) refl, messages)

  judged_err :
      (e : StorageError)
      → (judge_deletion key (replicate_delete nodes key (err e) c).1 ≡ err e)
        × ((replicate_delete nodes key (err e) c).2 ≡ local_delete key ∷ [])
  unfolding judge_deletion
  judged_err e =
      let failing = (replicate_delete_lem nodes key c).0 in (rw ((failing e).0) refl, (failing e).1)

module _ ⦃fs : FileSystem⦄ (nodes : Nodes StorageError) (b : ReplicatedBackend) (key id : Bytes)
    (s : fs.State) where
  -- A replicated deletion succeeds exactly if the local one does, whatever the other nodes answer:
  -- then the local object is gone and every client was asked. An error of the local deletion is
  -- returned, also where it is that the object is not there, and no other node is asked.
  pub delete_replicated_lem :
      object_id b.local.layout key ≡ ok id
      → (((delete_replicated nodes b key s).result ≡ ok tt)
          × ((delete_object b.local key s).0 ≡ ok tt)
          × (fs.contents
                (delete_replicated nodes b key s).state
                (object_path_from_id b.local.layout id)
              ≡ none)
          × ((delete_replicated nodes b key s).messages
              ≡ local_delete key
                ∷ delete_messages key b.coordinator.request_counter b.coordinator.clients))
        ⊎ ((e : StorageError) × ((delete_replicated nodes b key s).result ≡ err e)
            × ((delete_object b.local key s).0 ≡ err e)
            × ((delete_replicated nodes b key s).messages ≡ local_delete key ∷ []))
  unfolding delete_replicated
  delete_replicated_lem known = elim (Result-cases (delete_object b.local key s).0) [
    | inl (u, h) ↦
        let (good, asked) = judged_ok nodes key b.coordinator in
        inl (rw h good, h, delete_object_lem b.local key id s known h, rw h asked)
    | inr (e, h) ↦
        let (bad, asked) = judged_err nodes key b.coordinator e in inr (e, rw h bad, h, rw h asked)
  ]
