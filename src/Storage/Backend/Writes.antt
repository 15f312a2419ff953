-- ===== src/Storage/Backend/Writes.antt =====
-- What a replicated write and a replicated deletion leave behind on the node that runs them.
use save.Prelude.{
  ℕ, ◌+◌, ◌≤◌, ◌<◌, Bytes, bytes, [], Option, some, true, ◌≡◌, ◌≢◌, ◌⊎◌, refl, sym, ap, ◌∙◌, beq,
  inl, inr, length, subst,
}
use save.Prelude.Result.{Result, ok, err, Result-cases}
use save.Replication.{Nodes, prepare_all, select_replica_nodes}
use save.Replication.TwoPhase.{ok_nodes}
use save.Replication.Guarantees.{replicate_write-Ending}
use save.Storage.{FilePath, IoError, StorageError, io, FileSystem, quorum_not_achieved}
use save.Storage.Layout.{
  object_id, object_path_from_id, temp_path_from_id, temp_path_ne-object_path,
}
use save.Storage.Objects.{TempObject, Reader, temp_of, write_temp_object, commit_object}
use save.Storage.Objects.Writing.{concat, drop-ChangesOnly}
use save.Storage.Objects.Laws.{
  commit_object-Settled, Moved, Unmoved, write_temp_object-Ensures, write_temp_object-ChangesOnly,
}
use save.Storage.Objects.Atomicity.{write_temp_object-temp_of}
use save.Storage.Objects.Reading.{read_to_end_lem}
use save.Storage.Backend.{
  ReplicatedBackend, Run, judge, hash_of_read, compute_file_checksum, replicate_temp,
  commit_checked, commit_handle, commit_written, put_replicated,
}

module _ ⦃fs : FileSystem⦄ (nodes : Nodes StorageError) (b : ReplicatedBackend)
    (key id : Bytes) where
  abbrev object_file : FilePath
  object_file = object_path_from_id b.local.layout id

  abbrev pub prepared_from : Option Bytes → Bytes → ℕ
  prepared_from file checksum =
      1
      + length (
          ok_nodes
            (prepare_all nodes b.coordinator
              (select_replica_nodes nodes b.coordinator b.coordinator.config.replication_factor) key
              file checksum b.coordinator.request_counter).0)

  -- The local node, and the nodes that have acknowledged a prepare with this body and its hash.
  abbrev pub prepared : Bytes → ℕ
  prepared body = prepared_from (some body) (b.local.layout.sha256 body)

  -- How a write of `body` that found the files `s` may end, with the causes `C` of an error.
  abbrev pub Ended : (StorageError → Type 0) → Bytes → fs.State → Run nodes → Type 0
  Ended C body s run =
      ((run.result ≡ ok tt)
        × (b.coordinator.config.write_quorum ≤ prepared body)
        × (fs.contents run.state object_file ≡ some body))
      ⊎ ((e : StorageError) × (run.result ≡ err e)
          × C e
          × ((fs.contents run.state object_file ≡ fs.contents s object_file)
              ⊎ (beq b.local.fsync_mode (bytes "full") ≡ true)))

  apart : temp_path_from_id b.local.layout id ≢ object_file
  apart = temp_path_ne-object_path b.local.layout id id

  local_failed :
      (s : fs.State) (e : StorageError)
      → (commit_object b.local (temp_of b.local.layout id) s).0 ≡ err e
      → (fs.contents (commit_object b.local (temp_of b.local.layout id) s).1 object_file
          ≡ fs.contents s object_file)
        ⊎ (beq b.local.fsync_mode (bytes "full") ≡ true)
  unfolding Moved Unmoved
  local_failed s e h = elim (commit_object-Settled b.local (temp_of b.local.layout id) s apart) [
    | inl (unmoved, f, g) ↦ inl (unmoved object_file (λ n. apart (sym n)))
    | inr (moved, inl g) ↦ absurd (cc (g, h))
    | inr (moved, inr full) ↦ inr full
  ]

  local_done :
      (s : fs.State)
      → (commit_object b.local (temp_of b.local.layout id) s).0 ≡ ok tt
      → fs.contents (commit_object b.local (temp_of b.local.layout id) s).1 object_file
        ≡ fs.contents s (temp_path_from_id b.local.layout id)
  unfolding Moved Unmoved
  local_done s h = elim (commit_object-Settled b.local (temp_of b.local.layout id) s apart) [
    | inl (unmoved, f, g) ↦ absurd (cc (g, h))
    | inr ((found, here, gone, others), why) ↦ here
  ]

  replicate_temp-Ended :
      (C : StorageError → Type 0) (body : Bytes) (s : fs.State)
      → fs.contents s (temp_path_from_id b.local.layout id) ≡ some body
      → ((e : StorageError) → prepared body < b.coordinator.config.write_quorum → C e)
      → ((e : StorageError) → (commit_object b.local (temp_of b.local.layout id) s).0 ≡ err e → C e)
      → Ended C body s
          (replicate_temp nodes b key (temp_of b.local.layout id) (b.local.layout.sha256 body) s)
  unfolding replicate_temp judge Moved Unmoved
  replicate_temp-Ended C body s filled missed_by uncommitted =
      let t = temp_of b.local.layout id in
      let r = (commit_object b.local t s).0 in
      let checksum = b.local.layout.sha256 body in
      elim (replicate_write-Ending nodes b.coordinator r key (fs.contents s t.temp_path) checksum) [
        | inl (few, unsent, res, e, missed) ↦ inr (
          quorum_not_achieved res.success_count b.quorum_config.write_quorum,
          rw (e, missed) refl,
          missed_by _ (
              subst (λ o. prepared_from o checksum < b.coordinator.config.write_quorum) filled few),
          inl (rw unsent (drop-ChangesOnly t s object_file (λ n. apart (sym n)))),
        )
        | inr (inl (ran, e, failed, h)) ↦
            inr (e, rw h refl, uncommitted e failed, rw ran (local_failed s e failed))
        | inr (inr (enough, ran, wrote, res, e, reached)) ↦ inl (
          rw (e, reached) refl,
          subst (λ o. b.coordinator.config.write_quorum ≤ prepared_from o checksum) filled enough,
          rw ran (local_done s wrote ∙ filled),
        )
      ]

  checked-Ended :
      (C : StorageError → Type 0) (body : Bytes) (s : fs.State)
      (m : Option (Result StorageError Bytes))
      → fs.contents s (temp_path_from_id b.local.layout id) ≡ some body
      → ((e : StorageError) → prepared body < b.coordinator.config.write_quorum → C e)
      → ((e : StorageError) → (commit_object b.local (temp_of b.local.layout id) s).0 ≡ err e → C e)
      → ((e : StorageError) → m ≡ some (err e) → C e)
      → (m ≡ some (ok (b.local.layout.sha256 body))) ⊎ ((e : StorageError) × (m ≡ some (err e)))
      → (run : Run nodes) × (commit_checked nodes b key (temp_of b.local.layout id) s m ≡ some run)
        × Ended C body s run
  checked-Ended C body s m filled missed uncommitted unread (inl h) = (
    _,
    ap (commit_checked nodes b key (temp_of b.local.layout id) s) h,
    replicate_temp-Ended C body s filled missed uncommitted,
  )
  checked-Ended C body s m filled missed uncommitted unread (inr (e, h)) = (
    _,
    ap (commit_checked nodes b key (temp_of b.local.layout id) s) h,
    inr (
      e,
      refl,
      unread e h,
      inl (drop-ChangesOnly (temp_of b.local.layout id) s object_file (λ n. apart (sym n))),
    ),
  )

module _ ⦃fs : FileSystem⦄ (sha256 : Bytes → Bytes) (path : FilePath) (s : fs.State)
    (body : Bytes) where
  hashed :
      (r : Result IoError Bytes)
      → ((got : Bytes) → r ≡ ok got → got ≡ body)
      → (hash_of_read sha256 (some r) ≡ some (ok (sha256 body)))
        ⊎ ((e : StorageError) × (hash_of_read sha256 (some r) ≡ some (err e)))
  hashed (ok got) right = inl (ap (λ (x : Bytes). some (ok (sha256 x))) (right got refl))
  hashed (err e) right = inr (io e, refl)

  -- With more fuel than the file has bytes the checksum is the hash of all of it, or an error.
  compute_file_checksum_lem :
      (fuel : ℕ)
      → fs.contents s path ≡ some body
      → length body < fuel
      → (compute_file_checksum sha256 fuel path s ≡ some (ok (sha256 body)))
        ⊎ ((e : StorageError) × (compute_file_checksum sha256 fuel path s ≡ some (err e)))
  unfolding compute_file_checksum
  compute_file_checksum_lem fuel here room =
      let (r, run, right, failed) = read_to_end_lem path s body here fuel [] body refl room in
      elim (Result-cases (fs.open_file path s)) [
        | inr (e, h) ↦ inr (io e, rw h refl)
        | inl (u, h) ↦ rw (h, run) (hashed r right)
      ]

module _ ⦃fs : FileSystem⦄ (nodes : Nodes StorageError) (b : ReplicatedBackend)
    (key id : Bytes) where
  -- Why a write of `body` returns the error `e`, where writing the temporary file gave `r` and left `s1`.
  abbrev pub CauseFrom :
      ℕ → Bytes → Result StorageError TempObject → fs.State → StorageError → Type 0
  CauseFrom fuel body r s1 e =
      (r ≡ err e)
      ⊎ ((compute_file_checksum b.local.layout.sha256 fuel (temp_path_from_id b.local.layout id) s1
            ≡ some (err e))
          ⊎ ((prepared nodes b key id body < b.coordinator.config.write_quorum)
              ⊎ ((commit_object b.local (temp_of b.local.layout id) s1).0 ≡ err e)))

  abbrev pub Cause : ℕ → Reader → fs.State → StorageError → Type 0
  Cause fuel reader s =
      CauseFrom fuel (concat reader.pieces) (write_temp_object b.local key reader s).0
        (write_temp_object b.local key reader s).1

  put_Ended :
      (reader : Reader) (fuel : ℕ) (r : Result StorageError TempObject) (s s1 : fs.State)
      → length (concat reader.pieces) < fuel
      → ((t : TempObject) → r ≡ ok t → t ≡ temp_of b.local.layout id)
      → ((t : TempObject) → r ≡ ok t → fs.contents s1 t.temp_path ≡ some (concat reader.pieces))
      → fs.contents s1 (object_path_from_id b.local.layout id)
        ≡ fs.contents s (object_path_from_id b.local.layout id)
      → (run : Run nodes) × (commit_written nodes b fuel key r s1 ≡ some run)
        × Ended nodes b key id
            (CauseFrom fuel (concat reader.pieces) r s1)
            (concat reader.pieces)
            s
            run
  unfolding commit_handle
  put_Ended reader fuel (err e) s s1 room named filled kept =
      (_, refl, inr (e, refl, inl refl, inl kept))
  put_Ended reader fuel (ok t) s s1 room named filled kept =
      let e = named t refl in
      let body = concat reader.pieces in
      let path = temp_path_from_id b.local.layout id in
      let here = ap (λ (t : TempObject). fs.contents s1 t.temp_path) (sym e) ∙ filled t refl in
      let (run, h, ended) =
        checked-Ended nodes b key id (CauseFrom fuel body (ok t) s1) body s1
          (compute_file_checksum b.local.layout.sha256 fuel path s1) here
          (λ f missed. inr (inr (inl missed))) (λ f failed. inr (inr (inr failed)))
          (λ f failed. inr (inl failed))
          (compute_file_checksum_lem b.local.layout.sha256 path s1 body fuel here room) in
      (
        run,
        ap (λ (t : TempObject). commit_handle nodes b fuel key t s1) e ∙ h,
        elim ended [
          | inl good ↦ inl good
          | inr (f, g, c, inl same) ↦ inr (f, g, c, inl (same ∙ kept))
          | inr (f, g, c, inr full) ↦ inr (f, g, c, inr full)
        ],
      )

  -- With more fuel than the reader gives bytes a replicated write ends. It succeeds only if the local
  -- node and the nodes that acknowledged a prepare with the whole body and its hash are a write quorum,
  -- and then the body is the local object. It returns an error only if writing or hashing the temporary
  -- file failed, these nodes are no write quorum, or the local commit failed; and then the local object
  -- is as before, or the sync mode is `full`.
  pub put_replicated_lem :
      (reader : Reader) (fuel : ℕ) (s : fs.State)
      → object_id b.local.layout key ≡ ok id
      → length (concat reader.pieces) < fuel
      → (run : Run nodes) × (put_replicated nodes b fuel key reader s ≡ some run)
        × Ended nodes b key id (Cause fuel reader s) (concat reader.pieces) s run
  unfolding put_replicated
  put_replicated_lem reader fuel s known room =
      put_Ended reader fuel (write_temp_object b.local key reader s).0 s
        (write_temp_object b.local key reader s).1 room
        (λ t h. write_temp_object-temp_of b.local key reader id s t known h)
        (λ t h.
          let (is_temp, filled, whole) = write_temp_object-Ensures b.local key reader s tt t h in
          filled)
        (write_temp_object-ChangesOnly b.local key reader id known s _
          (λ n. temp_path_ne-object_path b.local.layout id id (sym n)))
