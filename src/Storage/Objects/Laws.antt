-- ===== src/Storage/Objects/Laws.antt =====
-- What `write_temp_object`, `commit_object`, `put_object`, `get_object` and `delete_object` do to the
-- files of the objects.
use save.Prelude.{
  Bytes, bytes, none, Bool, true, false, ◌≡◌, ◌≢◌, ◌⊎◌, refl, sym, ap, ◌∙◌, subst, arith, beq,
  if◌then◌else◌, inl, inr,
}
use save.Prelude.Result.{Result, ok, err, ok_or, map_err, ok_unique}
use save.Storage.{
  FilePath, IoError, StorageError, io, FileSystem, Io, continue, ◌>>◌, pure, lift, try_io,
  invalid_path,
}
use save.Storage.Layout.{object_id, temp_path_from_id}
use save.Storage.Objects.{
  TempObject, ObjectStorage, Reader, temp_of, create_temp_object, make_temp_object, write_temp_file,
  write_temp_object, commit_object, finish, holding, parent,
}
use save.Storage.Objects.Writing.{
  concat, Ensures, ChangesOnly, Has, then-Ensures, then-ChangesOnly, then_keeps, drop-ChangesOnly,
  drop_gone, write_temp_file-Ensures, write_temp_file-ChangesOnly, holding-Ensures,
  holding-ChangesOnly,
}

-- The object `t` is the temporary object of `key`.
unfoldable pub IsTempOf : ObjectStorage → Bytes → TempObject → Type 0
IsTempOf storage key t =
    (id : Bytes) × (object_id storage.layout key ≡ ok id) × (t ≡ temp_of storage.layout id)

module _ ⦃fs : FileSystem⦄ (storage : ObjectStorage) (key : Bytes) where
  pub create_temp_object-Ensures :
      Ensures (λ _. Unit {0}) (create_temp_object storage key) (λ t _. IsTempOf storage key t)
  unfolding create_temp_object IsTempOf
  create_temp_object-Ensures =
      let End = λ (t : TempObject) (_ : fs.State). IsTempOf storage key t in
      then-Ensures (λ id _. object_id storage.layout key ≡ ok id) End
        (lift (object_id storage.layout key)) (make_temp_object storage.layout) (λ s _ id h. h)
        (λ id.
          then-Ensures (λ _ _. object_id storage.layout key ≡ ok id) End
            (lift (ok_or (parent (temp_path_from_id storage.layout id)) invalid_path))
            (λ dir. try_io (fs.create_dir_all dir) >> pure (temp_of storage.layout id))
            (λ s e _ _. e)
            (λ dir.
              then-Ensures (λ _ _. object_id storage.layout key ≡ ok id) End
                (try_io (fs.create_dir_all dir)) (λ _. pure (temp_of storage.layout id))
                (λ s e _ _. e) (λ _ s e t h. (id, e, ok_unique h refl))))

  create_temp_object-ChangesOnly : (p : FilePath) → ChangesOnly p (create_temp_object storage key)
  unfolding create_temp_object
  create_temp_object-ChangesOnly p =
      then-ChangesOnly p (lift (object_id storage.layout key)) (make_temp_object storage.layout)
        (λ s r _. refl)
        (λ id.
          then-ChangesOnly p
            (lift (ok_or (parent (temp_path_from_id storage.layout id)) invalid_path))
            (λ dir. try_io (fs.create_dir_all dir) >> pure (temp_of storage.layout id))
            (λ s r _. refl)
            (λ dir.
              then-ChangesOnly p (try_io (fs.create_dir_all dir)) _
                (λ s r _. fs.create_dir_all_keeps dir r s) (λ _ s r _. refl)))

  -- After a write to the temporary file that succeeds, the whole of the reader is in it.
  pub write_temp_object-Ensures :
      (reader : Reader)
      → Ensures
          (λ _. Unit {0})
          (write_temp_object storage key reader)
          (λ t s.
            IsTempOf storage key t
            × Has t.temp_path (concat reader.pieces) s
            × (reader.failure ≡ none))
  unfolding write_temp_object
  write_temp_object-Ensures reader =
      let End = λ (t : TempObject) (s : fs.State).
        IsTempOf storage key t
        × Has t.temp_path (concat reader.pieces) s
        × (reader.failure ≡ none) in
      then-Ensures (λ t _. IsTempOf storage key t) End (create_temp_object storage key) _
        create_temp_object-Ensures
        (λ t.
          then-Ensures (λ _. End t) End _ (λ _. pure t)
            (λ s is_temp _ h.
              let filled =
                holding-Ensures
                  (λ _ s. Has t.temp_path (concat reader.pieces) s × (reader.failure ≡ none)) t _
                  (write_temp_file-Ensures storage.fsync_mode t.temp_path reader) s tt _ h in
              (is_temp, filled.0, filled.1))
            (λ _ s end u h. subst (λ u. End u s) (ok_unique refl h) end))

  pub write_temp_object-ChangesOnly :
      (reader : Reader) (id : Bytes)
      → object_id storage.layout key ≡ ok id
      → ChangesOnly (temp_path_from_id storage.layout id) (write_temp_object storage key reader)
  unfolding write_temp_object IsTempOf
  write_temp_object-ChangesOnly reader id known s r n =
      then_keeps r (create_temp_object storage key) _ s
        (create_temp_object-ChangesOnly (temp_path_from_id storage.layout id) s r n)
        (λ t h.
          let (id', known', e) = create_temp_object-Ensures s tt t h in
          let here = sym (ap (λ (t : TempObject). t.temp_path) e) in
          let at = ap (temp_path_from_id storage.layout) (ok_unique known known') ∙ here in
          let fill = write_temp_file storage.fsync_mode t.temp_path reader in
          then-ChangesOnly t.temp_path (holding t fill) (λ _. pure t)
            (holding-ChangesOnly t fill
              (write_temp_file-ChangesOnly storage.fsync_mode t.temp_path reader))
            (λ _ s r _. refl) (create_temp_object storage key s).1 r (subst (λ p. r ≢ p) at n))

module _ ⦃fs : FileSystem⦄ (t : TempObject) (s s' : fs.State) where
  -- From `s` to `s'` nothing but the temporary file of `t` has changed.
  unfoldable pub Unmoved : Type 0
  Unmoved = (r : FilePath) → r ≢ t.temp_path → fs.contents s' r ≡ fs.contents s r

  -- From `s` to `s'` the temporary file of `t` has become its final file.
  unfoldable pub Moved : Type 0
  Moved =
      (fs.contents s t.temp_path ≢ none)
      × (fs.contents s' t.final_path ≡ fs.contents s t.temp_path)
      × (fs.contents s' t.temp_path ≡ none)
      × ((r : FilePath) → r ≢ t.temp_path → r ≢ t.final_path → fs.contents s' r ≡ fs.contents s r)

module _ ⦃fs : FileSystem⦄ (storage : ObjectStorage) (t : TempObject) (s : fs.State) where
  -- How a run of `commit_object` from `s` may end, before `t` goes out of scope.
  abbrev Outcome : Result StorageError (Unit {0}) × fs.State → Type 0
  Outcome m =
      (((r : FilePath) → fs.contents m.1 r ≡ fs.contents s r) × (e : StorageError) × (m.0 ≡ err e))
      ⊎ (Moved t s m.1 × ((m.0 ≡ ok tt) ⊎ (beq storage.fsync_mode (bytes "full") ≡ true)))

  -- How it may have ended after that.
  abbrev pub Settled : Result StorageError (Unit {0}) × fs.State → Type 0
  Settled m =
      (Unmoved t s m.1 × (e : StorageError) × (m.0 ≡ err e))
      ⊎ (Moved t s m.1 × ((m.0 ≡ ok tt) ⊎ (beq storage.fsync_mode (bytes "full") ≡ true)))

  continue-Outcome :
      {A : Type 0} (r : Result StorageError A) (k : A → Io StorageError (Unit {0})) (s1 : fs.State)
      → ((q : FilePath) → fs.contents s1 q ≡ fs.contents s q)
      → ((a : A) → Outcome (k a s1))
      → Outcome (continue r k s1)
  continue-Outcome (ok a) k s1 same next = next a
  continue-Outcome (err e) k s1 same next = inl (same, e, refl)

  sync-Outcome :
      (b : Bool) (dir : FilePath) (s1 : fs.State)
      → b ≡ beq storage.fsync_mode (bytes "full")
      → Moved t s s1
      → Outcome ((if b then try_io (fs.sync_dir dir) else pure tt) s1)
  unfolding Moved
  sync-Outcome false dir s1 h moved = inr (moved, inl refl)
  sync-Outcome true dir s1 h (found, here, gone, others) =
      let keeps = λ (r : FilePath). fs.sync_dir_keeps dir r s1 in
      inr (
        (
          found,
          keeps t.final_path ∙ here,
          keeps t.temp_path ∙ gone,
          λ r a b. keeps r ∙ others r a b,
        ),
        inr (sym h),
      )

  rename-Outcome :
      (r : Result IoError (Unit {0})) (dir : FilePath) (s0 : fs.State)
      → r ≡ (fs.rename t.temp_path t.final_path s0).0
      → t.temp_path ≢ t.final_path
      → ((q : FilePath) → fs.contents s0 q ≡ fs.contents s q)
      → Outcome (
          continue
            (map_err io r)
            (λ _.
              if beq storage.fsync_mode (bytes "full") then try_io (fs.sync_dir dir) else pure tt)
            (fs.rename t.temp_path t.final_path s0).1)
  unfolding Moved
  rename-Outcome (err e) dir s0 h apart same =
      inl (λ q. fs.rename_err t.temp_path t.final_path q e s0 (sym h) ∙ same q, io e, refl)
  rename-Outcome (ok u) dir s0 h apart same =
      let done = sym h in
      sync-Outcome (beq storage.fsync_mode (bytes "full")) dir _ refl (
        λ n. fs.rename_found t.temp_path t.final_path s0 done (same t.temp_path ∙ n),
        fs.rename_ok t.temp_path t.final_path s0 done ∙ same t.temp_path,
        fs.rename_from t.temp_path t.final_path s0 done apart,
        λ q a b. fs.rename_other t.temp_path t.final_path q s0 a b ∙ same q,
      )

  finish-Outcome :
      (r : Result StorageError (Unit {0})) (s1 : fs.State)
      → t.temp_path ≢ t.final_path
      → Outcome (r, s1)
      → Settled (finish t r s1)
  unfolding Moved Unmoved
  finish-Outcome (ok u) s1 apart (inl (same, e, h)) = inl (λ q _. same q, e, h)
  finish-Outcome (ok u) s1 apart (inr end) = inr end
  finish-Outcome (err e) s1 apart (inl (same, f, h)) =
      inl (λ q n. drop-ChangesOnly t s1 q n ∙ same q, e, refl)
  finish-Outcome (err e) s1 apart (inr ((found, here, gone, others), why)) = inr (
    (
      found,
      drop-ChangesOnly t s1 t.final_path (λ n. apart (sym n)) ∙ here,
      drop_gone t s1 gone,
      λ q a b. drop-ChangesOnly t s1 q a ∙ others q a b,
    ),
    ground arith,
  )

module _ ⦃fs : FileSystem⦄ (storage : ObjectStorage) (t : TempObject) where
  -- A commit has no effect on any file but the temporary one, and says so, or it has made the
  -- temporary file the final one. In that case it succeeds, except that the sync of mode `full`
  -- may still fail.
  pub commit_object-Settled :
      (s : fs.State) → t.temp_path ≢ t.final_path → Settled storage t s (commit_object storage t s)
  unfolding commit_object
  commit_object-Settled s apart = finish-Outcome storage t s _ _ apart (
      continue-Outcome storage t s (ok_or (parent t.final_path) invalid_path) _ s (λ q. refl)
        (λ dir.
          continue-Outcome storage t s (map_err io (fs.create_dir_all dir s).0) _ _
            (λ q. fs.create_dir_all_keeps dir q s)
            (λ _.
              rename-Outcome storage t s _ dir _ refl apart
                (λ q. fs.create_dir_all_keeps dir q s))))
