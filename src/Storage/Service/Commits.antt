-- ===== src/Storage/Service/Commits.antt =====
-- What a prepare that succeeds leaves behind, and what the commit that follows it does.
use save.Prelude.{
  ℕ, Bytes, bytes, none, some, true, ◌≡◌, ◌≢◌, ◌⊎◌, refl, sym, ap, ◌∙◌, beq, inl, inr,
}
use save.Prelude.Result.{Result, ok, err, map_err, map_err_ok, ok_unique}
use save.Prelude.Dict
use save.Prelude.Dict.{lookup-insert, lookup-remove}
use save.Storage.{FileSystem, continue, or_else}
use save.Storage.Layout.{object_id, temp_path_from_id}
use save.Storage.Objects.{TempObject, ObjectStorage, temp_of, slice, write_temp_object}
use save.Storage.Objects.Laws.{commit_object-Settled, Moved, Unmoved, write_temp_object-Ensures}
use save.Storage.Objects.Atomicity.{write_temp_object-temp_of}
use save.Storage.Objects.Writing.{append_nil}
use save.Storage.Service.{
  PendingPrepare, Pending, ServiceError, storage, PrepareObjectRequest, temp_id, verify_checksum,
  receive_object, answer_prepare, insert_pending, drop_displaced, prepare_object, commit_prepared,
}

-- The entry that a prepare makes for the object with the hash `id`.
abbrev pub entry : ObjectStorage → ℕ → PrepareObjectRequest → Bytes → PendingPrepare
entry o now req id = record {
  temp_object = temp_of o.layout id;
  checksum = req.checksum;
  created_at = now;
}

module _ ⦃fs : FileSystem⦄ (o : ObjectStorage) (now : ℕ) (req : PrepareObjectRequest)
    (pending : Pending) (s : fs.State) (id : Bytes) where
  -- The files once the body is in its temporary file, before an entry is displaced.
  abbrev pub written : fs.State
  written = (write_temp_object o req.key (slice req.body) s).1

  checked :
      (r : Result ServiceError (Unit {0})) (t : TempObject)
      → (continue r (λ _. or_else storage (write_temp_object o req.key (slice req.body))) s).0
        ≡ ok t
      → (r ≡ ok tt)
        × ((write_temp_object o req.key (slice req.body) s).0 ≡ ok t)
        × ((continue r (λ _. or_else storage (write_temp_object o req.key (slice req.body))) s).1
            ≡ written)
  checked (ok u) t h = (refl, map_err_ok storage _ t h, refl)
  checked (err e) t h = cc

  answered :
      (temp : Bytes) (r : Result ServiceError TempObject) (s1 : fs.State) (given : Bytes)
      → (answer_prepare temp req.checksum now r pending s1).0 ≡ ok given
      → (t : TempObject) × (r ≡ ok t)
        × (given ≡ temp)
        × ((answer_prepare temp req.checksum now r pending s1).1
            ≡ Dict.insert temp
                (record { temp_object = t; checksum = req.checksum; created_at = now })
                pending)
        × ((answer_prepare temp req.checksum now r pending s1).2
            ≡ drop_displaced (Dict.lookup temp pending) s1)
  unfolding insert_pending
  answered temp (ok t) s1 given h = (t, refl, ok_unique h refl, refl, refl)
  answered temp (err e) s1 given h = cc

  -- A prepare that succeeds gives the temporary id of its request. The body had the checksum that
  -- came with it, it went into the temporary file of the key, and the entry is inserted.
  pub prepare_object_lem :
      (given : Bytes)
      → object_id o.layout req.key ≡ ok id
      → (prepare_object o now req pending s).0 ≡ ok given
      → (given ≡ temp_id req.request_id req.key)
        × (verify_checksum o.layout.sha256 req.checksum req.body ≡ ok tt)
        × (fs.contents written (temp_path_from_id o.layout id) ≡ some req.body)
        × ((prepare_object o now req pending s).1
            ≡ Dict.insert (temp_id req.request_id req.key) (entry o now req id) pending)
        × ((prepare_object o now req pending s).2
            ≡ drop_displaced (Dict.lookup (temp_id req.request_id req.key) pending) written)
  unfolding prepare_object
  prepare_object_lem given known h =
      let (t, received, e, entries, files) =
        answered (temp_id req.request_id req.key) (receive_object o req s).0
          (receive_object o req s).1 given h in
      let (good, wrote, state) = checked _ t received in
      let named = write_temp_object-temp_of o req.key (slice req.body) id s t known wrote in
      let (is_temp, filled, whole) =
        write_temp_object-Ensures o req.key (slice req.body) s tt t wrote in
      let temp = ap (λ (t : TempObject). t.temp_path) named in
      (
        e,
        good,
        ap (fs.contents written) (sym temp) ∙ filled ∙ ap some (append_nil req.body),
        entries
            ∙ ap
                (λ (t : TempObject).
                  Dict.insert (temp_id req.request_id req.key)
                    (record { temp_object = t; checksum = req.checksum; created_at = now }) pending)
                named,
        files ∙ ap (drop_displaced (Dict.lookup (temp_id req.request_id req.key) pending)) state,
      )

module _ ⦃fs : FileSystem⦄ (o : ObjectStorage) (temp : Bytes) (pending : Pending) (s : fs.State)
    (p : PendingPrepare) where
  -- A commit of an entry removes the entry. It leaves the object as it was and returns an error, or
  -- the temporary file of the entry becomes the object.
  pub commit_prepared_lem :
      p.temp_object.temp_path ≢ p.temp_object.final_path
      → Dict.lookup temp pending ≡ some p
      → (Dict.lookup temp (commit_prepared o temp pending s).1 ≡ none)
        × ((Unmoved p.temp_object s (commit_prepared o temp pending s).2
              × (e : ServiceError) × ((commit_prepared o temp pending s).0 ≡ err e))
            ⊎ (Moved p.temp_object s (commit_prepared o temp pending s).2
                × (((commit_prepared o temp pending s).0 ≡ ok tt)
                    ⊎ (beq o.fsync_mode (bytes "full") ≡ true))))
  unfolding commit_prepared
  commit_prepared_lem apart found = (
    lookup-remove temp pending,
    rw found (elim (commit_object-Settled o p.temp_object s apart) [
      | inl (unmoved, e, h) ↦ inl (unmoved, storage e, ap (map_err storage) h)
      | inr (moved, inl h) ↦ inr (moved, inl (ap (map_err storage) h))
      | inr (moved, inr h) ↦ inr (moved, inr h)
    ]),
  )
