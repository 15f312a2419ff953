-- ===== src/Storage/Objects/Atomicity.antt =====
-- `put_object`, where nothing else works on the files meanwhile: its two calls in a row.
use save.Prelude.{Bytes, bytes, none, some, true, ◌≡◌, ◌≢◌, ◌⊎◌, refl, sym, ap, ◌∙◌, beq, inl, inr}
use save.Prelude.Result.{Result, ok, err, ok_unique}
use save.Storage.{FilePath, StorageError, FileSystem, continue}
use save.Storage.Layout.{
  object_id, object_path_from_id, temp_path_from_id, temp_path_ne-object_path,
  object_path_from_id-injective,
}
use save.Storage.Objects.{
  TempObject, ObjectStorage, Reader, temp_of, write_temp_object, commit_object, put_object,
}
use save.Storage.Objects.Writing.{concat}
use save.Storage.Objects.Laws.{
  IsTempOf, write_temp_object-Ensures, write_temp_object-ChangesOnly, commit_object-Settled, Moved,
  Unmoved,
}

module _ ⦃fs : FileSystem⦄ (storage : ObjectStorage) (key : Bytes) (reader : Reader)
    (id : Bytes) where
  abbrev Replaced : fs.State → Result StorageError (Unit {0}) × fs.State → Type 0
  Replaced s m =
      let path = object_path_from_id storage.layout id in
      ((fs.contents m.1 path ≡ fs.contents s path) × (e : StorageError) × (m.0 ≡ err e))
      ⊎ ((fs.contents m.1 path ≡ some (concat reader.pieces))
          × (reader.failure ≡ none)
          × ((m.0 ≡ ok tt) ⊎ (beq storage.fsync_mode (bytes "full") ≡ true)))

  -- The temporary object that `write_temp_object` returns.
  pub write_temp_object-temp_of :
      (s : fs.State) (t : TempObject)
      → object_id storage.layout key ≡ ok id
      → (write_temp_object storage key reader s).0 ≡ ok t
      → t ≡ temp_of storage.layout id
  unfolding IsTempOf
  write_temp_object-temp_of s t known h =
      let ((id', known', e), filled, whole) =
        write_temp_object-Ensures storage key reader s tt t h in
      e ∙ ap (temp_of storage.layout) (ok_unique known' known)

  commit_Replaced :
      (r : Result StorageError TempObject) (s s1 : fs.State)
      → object_id storage.layout key ≡ ok id
      → ((t : TempObject) → r ≡ ok t → t ≡ temp_of storage.layout id)
      → ((t : TempObject)
          → r ≡ ok t
          → (fs.contents s1 t.temp_path ≡ some (concat reader.pieces)) × (reader.failure ≡ none))
      → fs.contents s1 (object_path_from_id storage.layout id)
        ≡ fs.contents s (object_path_from_id storage.layout id)
      → Replaced s (continue r (commit_object storage) s1)
  unfolding Moved Unmoved
  commit_Replaced (err e) s s1 known named filled kept = inl (kept, e, refl)
  commit_Replaced (ok t) s s1 known named filled kept =
      let e = named t refl in
      let (full, whole) = filled t refl in
      let final = ap (λ (t : TempObject). t.final_path) e in
      let apart = temp_path_ne-object_path storage.layout id id in
      let temp = ap (λ (t : TempObject). t.temp_path) e in
      elim (commit_object-Settled storage t s1 (λ n. apart (sym temp ∙ n ∙ final))) [
        | inl (unmoved, f, why) ↦ inl (unmoved _ (λ n. apart (sym temp ∙ sym n)) ∙ kept, f, why)
        | inr ((found, here, gone, others), why) ↦
            inr (ap (fs.contents _) (sym final) ∙ here ∙ full, whole, why)
      ]

  -- A put during which nothing else works on the files leaves the object of the key as it was and
  -- returns an error, or the object is the whole of what the reader gave, which then ended without an
  -- error. In that case the put succeeds, except that the sync of mode `full` may still fail.
  pub put_object_atomic :
      (s : fs.State)
      → object_id storage.layout key ≡ ok id
      → Replaced s (put_object storage key reader s)
  unfolding put_object
  put_object_atomic s known =
      commit_Replaced (write_temp_object storage key reader s).0 s _ known
        (λ t h. write_temp_object-temp_of s t known h)
        (λ t h.
          let (is_temp, filled, whole) = write_temp_object-Ensures storage key reader s tt t h in
          (filled, whole))
        (write_temp_object-ChangesOnly storage key reader id known s _
          (λ n. temp_path_ne-object_path storage.layout id id (sym n)))

  commit_others :
      (r : Result StorageError TempObject) (s1 : fs.State) (p : FilePath)
      → ((t : TempObject) → r ≡ ok t → t ≡ temp_of storage.layout id)
      → p ≢ temp_path_from_id storage.layout id
      → p ≢ object_path_from_id storage.layout id
      → fs.contents (continue r (commit_object storage) s1).1 p ≡ fs.contents s1 p
  unfolding Moved Unmoved
  commit_others (err e) s1 p named a b = refl
  commit_others (ok t) s1 p named a b =
      let e = named t refl in
      let final = ap (λ (t : TempObject). t.final_path) e in
      let temp = ap (λ (t : TempObject). t.temp_path) e in
      elim (commit_object-Settled storage t s1
        (λ n. temp_path_ne-object_path storage.layout id id (sym temp ∙ n ∙ final))) [
          | inl (unmoved, f, why) ↦ unmoved p (λ n. a (n ∙ temp))
          | inr ((found, here, gone, others), why) ↦
              others p (λ n. a (n ∙ temp)) (λ n. b (n ∙ final))
        ]

  -- A put changes no object whose key has another hash, whatever it returns.
  pub put_object_others :
      (other : Bytes) (s : fs.State)
      → object_id storage.layout key ≡ ok id
      → other ≢ id
      → fs.contents (put_object storage key reader s).1 (object_path_from_id storage.layout other)
        ≡ fs.contents s (object_path_from_id storage.layout other)
  unfolding put_object
  put_object_others other s known n =
      let apart =
        λ (e : object_path_from_id storage.layout other ≡ temp_path_from_id storage.layout id).
          temp_path_ne-object_path storage.layout id other (sym e) in
      commit_others (write_temp_object storage key reader s).0 _ _
        (λ t h. write_temp_object-temp_of s t known h) apart
        (λ e. n (object_path_from_id-injective storage.layout other id e))
      ∙ write_temp_object-ChangesOnly storage key reader id known s _ apart
