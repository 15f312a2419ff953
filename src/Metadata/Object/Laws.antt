-- ===== src/Metadata/Object/Laws.antt =====
-- What the object functions write, read back and list.
use save.Prelude.{
  Bytes, Option, some, ◌≡◌, ◌≢◌, ◌⊎◌, arith, beq, beq_iff, beq_self, inl, inr, Option-cases,
  if◌then◌else◌, all, true,
}
use save.Prelude.Result.{ok, err, Result-cases}
use save.Rocksdb.{default_cf}
use save.Rocksdb.Scan.{with_prefix, is_ok}
use save.Validation.{validate_object_key}
use save.Metadata.{Env, Db, ObjectMetadata, stored, object_not_found, database}
use save.Metadata.Listing.{decode_all, list_prefixed_lem}
use save.Metadata.Database.{get-stored, stored-put, stored-delete, stored-write}
use save.Metadata.Object.{
  db_key, list_prefix, put_object_metadata, commit_object_metadata, get_object_metadata,
  delete_object_metadata, list_objects,
}

module _ ⦃env : Env⦄ (d : Db) (m : ObjectMetadata) where
  -- That `d'` is `d` with the encoding of `m` under the database key of `m`.
  pub record IsWritten (d' : Db) : Type 0 where
    pub valid : validate_object_key m.key ≡ ok tt
    pub value : Bytes
    pub encoded : env.object_codec.encode m ≡ some value
    pub after :
        (k : Bytes)
        → stored d' k ≡ (if beq (db_key m.bucket m.key) k then some value else stored d k)

  put-IsWritten : (d' : Db) → put_object_metadata m d ≡ (ok tt, d') → IsWritten d'
  unfolding put_object_metadata
  put-IsWritten d' h = elim (Option-cases (env.object_codec.encode m)) [
    | inl e ↦ absurd (ground arith)
    | inr (v, e) ↦ record {
      valid = ground arith;
      value = v;
      encoded = e;
      after = λ k. ground (arith, stored-put d (db_key m.bucket m.key) v k);
    }
  ]

  commit-IsWritten : (d' : Db) → commit_object_metadata m d ≡ (ok tt, d') → IsWritten d'
  unfolding commit_object_metadata
  commit-IsWritten d' h = elim (Option-cases (env.object_codec.encode m)) [
    | inl e ↦ absurd (ground arith)
    | inr (v, e) ↦ record {
      valid = ground arith;
      value = v;
      encoded = e;
      after = λ k. ground (arith, stored-write d (db_key m.bucket m.key) v k);
    }
  ]

  get-IsWritten :
      (d' : Db)
      → IsWritten d'
      → (get_object_metadata m.bucket m.key d' ≡ (ok m, d'))
        ⊎ ((e : env.rocksdb.Error) × (get_object_metadata m.bucket m.key d'
              ≡ (err (database e), d')))
  unfolding get_object_metadata
  get-IsWritten d' w = elim (Result-cases (env.rocksdb.get d' default_cf (db_key m.bucket m.key))) [
    | inl (o, e) ↦ inl (
        ground (
          arith,
          w.valid,
          get-stored d' (db_key m.bucket m.key) o,
          w.after (db_key m.bucket m.key),
          beq_self (db_key m.bucket m.key),
          env.object_codec.decode-encode m w.value w.encoded,
        ))
    | inr (x, e) ↦ inr (x, ground (arith, w.valid))
  ]

  -- Metadata that was put is read back unchanged, unless the read of the database fails, and no
  -- other key of the database has changed.
  pub get_object_metadata-put_object_metadata :
      (d' : Db)
      → put_object_metadata m d ≡ (ok tt, d')
      → ((get_object_metadata m.bucket m.key d' ≡ (ok m, d'))
          ⊎ ((e : env.rocksdb.Error) × (get_object_metadata m.bucket m.key d'
                ≡ (err (database e), d'))))
        × ((k : Bytes) → k ≢ db_key m.bucket m.key → stored d' k ≡ stored d k)
  get_object_metadata-put_object_metadata d' h =
      let w = put-IsWritten d' h in
      (get-IsWritten d' w, λ k ne. ground (arith, w.after k, beq_iff (db_key m.bucket m.key) k))

  -- Where both succeed, a commit by a synced batch leaves the same values under all keys as a put.
  pub commit_object_metadata-put_object_metadata :
      (d₁ d₂ : Db)
      → put_object_metadata m d ≡ (ok tt, d₁)
      → commit_object_metadata m d ≡ (ok tt, d₂)
      → (k : Bytes) → stored d₁ k ≡ stored d₂ k
  commit_object_metadata-put_object_metadata d₁ d₂ h₁ h₂ k =
      let w₁ = put-IsWritten d₁ h₁ in
      let w₂ = commit-IsWritten d₂ h₂ in
      ground (arith, w₁.after k, w₂.after k, w₁.encoded, w₂.encoded)

module _ ⦃env : Env⦄ (d : Db) (bucket key : Bytes) where
  -- After a successful deletion the object is not found, unless the read of the database fails, and
  -- every other key has the value it had. The object need not have been there.
  pub get_object_metadata-delete_object_metadata :
      (d' : Db)
      → delete_object_metadata bucket key d ≡ (ok tt, d')
      → ((get_object_metadata bucket key d' ≡ (err (object_not_found bucket key), d'))
          ⊎ ((e : env.rocksdb.Error) × (get_object_metadata bucket key d'
                ≡ (err (database e), d'))))
        × ((k : Bytes) → k ≢ db_key bucket key → stored d' k ≡ stored d k)
  unfolding get_object_metadata delete_object_metadata
  get_object_metadata-delete_object_metadata d' h = (
    elim (Result-cases (env.rocksdb.get d' default_cf (db_key bucket key))) [
      | inl (o, e) ↦ inl (
          ground (
            arith,
            get-stored d' (db_key bucket key) o,
            stored-delete d (db_key bucket key) (db_key bucket key),
            beq_self (db_key bucket key),
          ))
      | inr (x, e) ↦ inr (x, ground arith)
    ],
    λ k ne. ground (arith, stored-delete d (db_key bucket key) k, beq_iff (db_key bucket key) k),
  )

module _ ⦃env : Env⦄ (d : Db) where
  -- Where no read fails, `list_objects` decodes exactly the entries under its prefix, in key order.
  pub list_objects_lem :
      (bucket : Bytes) (prefix : Option Bytes)
      → all is_ok (env.rocksdb.prefix_iterator d (list_prefix bucket prefix)) ≡ true
      → list_objects bucket prefix d ≡ (
        decode_all env.object_codec
            (with_prefix (list_prefix bucket prefix) (env.rocksdb.entries d default_cf)),
        d,
      )
  unfolding list_objects
  list_objects_lem bucket prefix readable =
      rw (list_prefixed_lem env.object_codec d (list_prefix bucket prefix) readable)
