-- ===== src/Metadata/Bucket/Laws.antt =====
-- What the bucket functions do to the database, and what one sees of another's work.
use save.Prelude.{
  ◌⊎◌, true, all, bytes, Bytes, none, some, ◌≡◌, ◌≢◌, arith, beq_iff, beq, beq_self, Option-cases,
  inl, inr, if◌then◌else◌,
}
use save.Prelude.Result.{ok, err, Result-cases}
use save.Metadata.Listing.{decode_all, list_prefixed_lem}
use save.Metadata.Database.{get-stored, stored-put, stored-delete}
use save.Rocksdb.{default_cf}
use save.Rocksdb.Scan.{with_prefix, is_ok}
use save.Validation.{validate_bucket_name}
use save.Metadata.{
  Env, Db, BucketInfo, DateTime, stored, bucket_not_found, bucket_already_exists, database,
}
use save.Metadata.Bucket.{
  bucket_key, create_bucket, get_bucket, delete_bucket, new_bucket, list_buckets,
}

module _ ⦃env : Env⦄ (d : Db) (now : DateTime) (name : Bytes) where
  -- What a successful `create_bucket` has written: the name was valid and free, the bucket
  -- returned carries it and the time, and its encoding is what the database now has under its key.
  pub create_bucket_writes :
      (b : BucketInfo) (d' : Db)
      → create_bucket now name d ≡ (ok b, d')
      → (validate_bucket_name name ≡ ok tt)
        × (stored d (bucket_key name) ≡ none)
        × (b ≡ new_bucket now name)
        × (v : Bytes) × (env.bucket_codec.encode b ≡ some v)
        × ((k : Bytes) → stored d' k ≡ (if beq (bucket_key name) k then some v else stored d k))
  unfolding create_bucket
  create_bucket_writes b d' h =
      elim (Option-cases (env.bucket_codec.encode (new_bucket now name))) [
        | inl e ↦ absurd (ground (arith, get-stored d (bucket_key name)))
        | inr (v, e) ↦ (
          ground arith,
          ground (arith, get-stored d (bucket_key name) none),
          ground arith,
          v,
          ground arith,
          λ k. ground (arith, stored-put d (bucket_key name) v k),
        )
      ]

  -- A bucket that was created is what `get_bucket` returns, unless its read of the database fails.
  pub get_bucket-create_bucket :
      (b : BucketInfo) (d' : Db)
      → create_bucket now name d ≡ (ok b, d')
      → (get_bucket name d' ≡ (ok b, d'))
        ⊎ ((e : env.rocksdb.Error) × (get_bucket name d' ≡ (err (database e), d')))
  unfolding get_bucket
  get_bucket-create_bucket b d' h =
      let (valid, _, _, v, encoded, after) = create_bucket_writes b d' h in
      elim (Result-cases (env.rocksdb.get d' default_cf (bucket_key name))) [
        | inl (o, e) ↦ inl (
            ground (
              arith,
              get-stored d' (bucket_key name) o,
              after (bucket_key name),
              beq_self (bucket_key name),
              env.bucket_codec.decode-encode b v encoded,
            ))
        | inr (x, e) ↦ inr (x, ground arith)
      ]

  -- A valid name that is taken is refused with `bucket_already_exists`, unless the read of the
  -- database fails, and the database stays as it was.
  pub create_bucket_taken :
      (v : Bytes)
      → validate_bucket_name name ≡ ok tt
      → stored d (bucket_key name) ≡ some v
      → (create_bucket now name d ≡ (err (bucket_already_exists name), d))
        ⊎ ((e : env.rocksdb.Error) × (create_bucket now name d ≡ (err (database e), d)))
  unfolding create_bucket
  create_bucket_taken v valid taken =
      elim (Result-cases (env.rocksdb.get d default_cf (bucket_key name))) [
        | inl (o, e) ↦ inl (ground (arith, get-stored d (bucket_key name) o))
        | inr (x, e) ↦ inr (x, ground arith)
      ]

  -- After a successful deletion the bucket is gone and every other key has the value it had.
  pub get_bucket-delete_bucket :
      (d' : Db)
      → delete_bucket name d ≡ (ok tt, d')
      → ((get_bucket name d' ≡ (err (bucket_not_found name), d'))
          ⊎ ((e : env.rocksdb.Error) × (get_bucket name d' ≡ (err (database e), d'))))
        × ((k : Bytes) → k ≢ bucket_key name → stored d' k ≡ stored d k)
  unfolding get_bucket delete_bucket
  get_bucket-delete_bucket d' h = (
    elim (Result-cases (env.rocksdb.get d' default_cf (bucket_key name))) [
      | inl (o, e) ↦ inl (
          ground (
            arith,
            get-stored d' (bucket_key name) o,
            stored-delete d (bucket_key name) (bucket_key name),
            beq_self (bucket_key name),
          ))
      | inr (x, e) ↦ inr (x, ground arith)
    ],
    λ k ne. ground (arith, stored-delete d (bucket_key name) k, beq_iff (bucket_key name) k),
  )

module _ ⦃env : Env⦄ (d : Db) where
  -- Where no read fails, `list_buckets` decodes exactly the entries under "bkt:", in key order.
  pub list_buckets_lem :
      all is_ok (env.rocksdb.prefix_iterator d (bytes "bkt:")) ≡ true
      → list_buckets d ≡ (
        decode_all env.bucket_codec (with_prefix (bytes "bkt:") (env.rocksdb.entries d default_cf)),
        d,
      )
  unfolding list_buckets
  list_buckets_lem readable = rw (list_prefixed_lem env.bucket_codec d (bytes "bkt:") readable)
