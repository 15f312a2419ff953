-- ===== src/Metadata/Multipart/Abort.antt =====
-- What `abort_multipart_upload` leaves in the database.
use save.Prelude.{
  Bytes, List, [], ◌∷◌, ◌++◌, none, Bool, true, false, ◌≡◌, refl, arith, beq, beq_iff, any, all,
  ◌||◌, ◌&&◌, if◌then◌else◌, starts_with, inl, inr, ap, ◌∙◌,
}
use mathlib.Core.List.{append_assoc, append-nil}
use save.Prelude.Result.{ok, Result-cases}
use save.Rocksdb.{default_cf}
use save.Rocksdb.SortedMap.{Entries, lookup}
use save.Rocksdb.Scan.{for_prefix, for_prefix_lem, fold_entries, with_prefix, is_ok}
use save.Validation.{validate_object_key}
use save.Metadata.{Env, Db, stored, database}
use save.Metadata.Database.{stored-delete}
use save.Metadata.Multipart.{
  db_key, part_prefix, push_key, delete_keys, delete_upload, abort_multipart_upload,
  validate_upload_id,
}

abbrev pub keys_of : Entries → List Bytes
keys_of [] = []
keys_of ((k, v) ∷ es) = k ∷ keys_of es

abbrev pub among : Bytes → List Bytes → Bool
among j ks = any (λ k. beq k j) ks

starts_with-same : (p k j : Bytes) → beq k j ≡ true → starts_with k p ≡ starts_with j p
starts_with-same p k j e = let same : k ≡ j = (beq_iff k j).0 e in ap (λ x. starts_with x p) same

among-with_prefix :
    (p j : Bytes) (es : Entries)
    → among j (keys_of (with_prefix p es)) ≡ (starts_with j p && among j (keys_of es))
unfolding with_prefix
among-with_prefix p j [] = ground arith
among-with_prefix p j ((k, v) ∷ es) =
    ground (arith, among-with_prefix p j es, starts_with-same p k j)

lookup-among : (j : Bytes) (es : Entries) → among j (keys_of es) ≡ false → lookup j es ≡ none
unfolding lookup
lookup-among j [] h = refl
lookup-among j ((k, v) ∷ es) h = ground (arith, lookup-among j es)

-- Deleting the keys of the entries with a prefix leaves no value under a key with that prefix.
pub lookup-with_prefix :
    (p j : Bytes) (es : Entries)
    → (if among j (keys_of (with_prefix p es)) then none else lookup j es)
      ≡ (if starts_with j p then none else lookup j es)
lookup-with_prefix p j es = ground (arith, among-with_prefix p j es, lookup-among j es)

module _ ⦃env : Env⦄ where
  fold-push_key :
      (acc : List Bytes) (es : Entries)
      → fold_entries (push_key ⦃env = env⦄) acc es ≡ ok (acc ++ keys_of es)
  unfolding fold_entries push_key
  fold-push_key acc [] = rw append-nil
  fold-push_key acc ((k, v) ∷ es) =
      fold-push_key (acc ++ k ∷ []) es ∙ ap ok (append_assoc acc (k ∷ []) (keys_of es))

  stored-delete_keys :
      (ks : List Bytes) (d d' : Db)
      → delete_keys ks d ≡ (ok tt, d')
      → (j : Bytes) → stored d' j ≡ (if among j ks then none else stored d j)
  unfolding delete_keys
  stored-delete_keys [] d d' h j = ap (λ x. stored x j) (ground arith)
  stored-delete_keys (k ∷ ks) d d' h j =
      let d₁ = (env.rocksdb.delete d default_cf k).1 in
      elim (Result-cases (env.rocksdb.delete d default_cf k).0) [
        | inl (t, e) ↦
            ground (arith, stored-delete_keys ks d₁ d' (ground arith) j, stored-delete d k j e)
        | inr (x, e) ↦ absurd (ground arith)
      ]

  module _ (bucket key upload_id : Bytes) (d : Db) where
    -- The database once the metadata of the upload is deleted.
    abbrev pub without_metadata : Db
    without_metadata = (env.rocksdb.delete d default_cf (db_key bucket key upload_id)).1

    delete_upload_lem :
        (d' : Db)
        → all is_ok
            (env.rocksdb.prefix_iterator without_metadata (part_prefix bucket key upload_id))
          ≡ true
        → delete_upload bucket key upload_id d ≡ (ok tt, d')
        → (j : Bytes)
        → stored d' j ≡ (
            if beq (db_key bucket key upload_id) j
              || starts_with j (part_prefix bucket key upload_id)
            then none
            else stored d j)
    unfolding delete_upload
    delete_upload_lem d' readable h j =
        let p = part_prefix bucket key upload_id in
        let k = db_key bucket key upload_id in
        let d₁ = without_metadata in
        let es = env.rocksdb.entries d₁ default_cf in
        let scanned : for_prefix database p push_key [] (env.rocksdb.prefix_iterator d₁ p)
            ≡ ok (keys_of (with_prefix p es)) =
          for_prefix_lem database p push_key [] (env.rocksdb.prefix_iterator d₁ p) es
            (env.rocksdb.iterator_iterates d₁ p) readable (env.rocksdb.entries_sorted d₁ default_cf)
          ∙ fold-push_key [] (with_prefix p es) in
        elim (Result-cases (env.rocksdb.delete d default_cf k).0) [
          | inl (t, e) ↦ ground (
            arith,
            stored-delete_keys (keys_of (with_prefix p es)) d₁ d' (ground (arith, scanned)) j,
            lookup-with_prefix p j es,
            stored-delete d k j e,
          )
          | inr (x, e) ↦ absurd (ground arith)
        ]

    -- Where no read of the scan over its parts fails, a successful abort removes the metadata of the
    -- upload and every key with the prefix of its parts, and leaves every other key.
    pub abort_multipart_upload_lem :
        (d' : Db)
        → all is_ok
            (env.rocksdb.prefix_iterator without_metadata (part_prefix bucket key upload_id))
          ≡ true
        → abort_multipart_upload bucket key upload_id d ≡ (ok tt, d')
        → (j : Bytes)
        → stored d' j ≡ (
            if beq (db_key bucket key upload_id) j
              || starts_with j (part_prefix bucket key upload_id)
            then none
            else stored d j)
    unfolding abort_multipart_upload
    abort_multipart_upload_lem d' readable h j = elim (Result-cases (validate_object_key key)) [
      | inl (u, e) ↦ elim (Result-cases (validate_upload_id upload_id)) [
        | inl (t, f) ↦ delete_upload_lem d' readable (ground arith) j
        | inr (x, f) ↦ absurd (ground arith)
      ]
      | inr (x, e) ↦ absurd (ground arith)
    ]
