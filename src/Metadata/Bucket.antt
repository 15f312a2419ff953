-- ===== src/Metadata/Bucket.antt =====
-- crates/save-metadata/src/bucket.rs
pub mod Laws
use save.Prelude.{Bytes, bytes, ◌++◌, List, [], ◌∷◌, Option, none, some}
use save.Prelude.Result.{Result, map_ok}
use save.Validation.{validate_bucket_name}
use save.Metadata.Listing.{list_prefixed}
use save.Metadata.{
  Env, Db, Error, Op, BucketInfo, DateTime, database, bucket_not_found, bucket_already_exists,
  ◌>>=◌, ◌>>◌, pure, fail, lift, reading, db_get, db_put, db_delete, checked, encode_to_vec,
  decode_from_slice,
}

unfoldable pub bucket_key : Bytes → Bytes
bucket_key name = bytes "bkt:" ++ name

-- `Bucket::new`
unfoldable pub new_bucket : DateTime → Bytes → BucketInfo
new_bucket now name = record { name = name; created_at = now }

module _ ⦃env : Env⦄ where
  insert_bucket : DateTime → Bytes → Option Bytes → Op BucketInfo
  unfolding new_bucket
  insert_bucket now name (some old) = fail (bucket_already_exists name)
  insert_bucket now name none = do
    let bucket = new_bucket now name
    value ← lift (encode_to_vec env.bucket_codec bucket)
    db_put (bucket_key name) value
    pure bucket

  unfoldable pub create_bucket : DateTime → Bytes → Op BucketInfo
  unfolding insert_bucket
  create_bucket now name = do
    lift (checked (validate_bucket_name name))
    found ← reading (db_get (bucket_key name))
    insert_bucket now name found

  found_bucket : Bytes → Option Bytes → Op BucketInfo
  found_bucket name none = fail (bucket_not_found name)
  found_bucket name (some value) = lift (decode_from_slice env.bucket_codec value)

  unfoldable pub get_bucket : Bytes → Op BucketInfo
  unfolding found_bucket
  get_bucket name = do
    lift (checked (validate_bucket_name name))
    found ← reading (db_get (bucket_key name))
    found_bucket name found

  unfoldable pub delete_bucket : Bytes → Op (Unit {0})
  delete_bucket name = do lift (checked (validate_bucket_name name)); db_delete (bucket_key name)

  unfoldable pub list_buckets : Op (List BucketInfo)
  list_buckets = reading (list_prefixed env.bucket_codec (bytes "bkt:"))
