-- ===== src/Metadata/Object.antt =====
-- crates/save-metadata/src/object.rs
pub mod Keys
pub mod Laws
use save.Prelude.{Bytes, bytes, ◌++◌, List, [], ◌∷◌, Option, none, some, ℕ}
use save.Prelude.Result.{Result, map_ok}
use save.Validation.{validate_object_key}
use save.Metadata.Listing.{list_prefixed}
use save.Metadata.{
  Env, Db, Error, Op, ObjectMetadata, DateTime, database, object_not_found, ◌>>=◌, ◌>>◌, pure, fail,
  lift, reading, db_get, db_put, db_delete, db_write, checked, encode_to_vec, decode_from_slice,
}

-- `ObjectMetadata::new`
unfoldable pub new : DateTime → Bytes → Bytes → ℕ → Bytes → ObjectMetadata
new now bucket key size etag = record {
  bucket = bucket;
  key = key;
  size = size;
  etag = etag;
  content_type = none;
  created_at = now;
  modified_at = now;
  replica_nodes = [];
}

unfoldable pub with_replicas : ObjectMetadata → List ℕ → ObjectMetadata
with_replicas m nodes = record m { replica_nodes = nodes }

unfoldable pub db_key : Bytes → Bytes → Bytes
db_key bucket key = bytes "obj:" ++ (bucket ++ (bytes "/" ++ key))

unfoldable pub list_prefix : Bytes → Option Bytes → Bytes
list_prefix bucket none = bytes "obj:" ++ (bucket ++ bytes "/")
list_prefix bucket (some prefix) = bytes "obj:" ++ (bucket ++ (bytes "/" ++ prefix))

module _ ⦃env : Env⦄ where
  unfoldable pub prepare_metadata_write : ObjectMetadata → Op (Bytes × Bytes)
  prepare_metadata_write m = do
    lift (checked (validate_object_key m.key))
    value ← lift (encode_to_vec env.object_codec m)
    pure (db_key m.bucket m.key, value)

  unfoldable pub put_object_metadata : ObjectMetadata → Op (Unit {0})
  unfolding prepare_metadata_write
  put_object_metadata m = do w ← prepare_metadata_write m; db_put w.0 w.1

  unfoldable pub commit_object_metadata : ObjectMetadata → Op (Unit {0})
  unfolding prepare_metadata_write
  commit_object_metadata m = do w ← prepare_metadata_write m; db_write (w ∷ [])

  found_object : Bytes → Bytes → Option Bytes → Op ObjectMetadata
  found_object bucket key none = fail (object_not_found bucket key)
  found_object bucket key (some value) = lift (decode_from_slice env.object_codec value)

  unfoldable pub get_object_metadata : Bytes → Bytes → Op ObjectMetadata
  unfolding found_object
  get_object_metadata bucket key = do
    lift (checked (validate_object_key key))
    found ← reading (db_get (db_key bucket key))
    found_object bucket key found

  unfoldable pub delete_object_metadata : Bytes → Bytes → Op (Unit {0})
  delete_object_metadata bucket key = do
    lift (checked (validate_object_key key))
    db_delete (db_key bucket key)

  unfoldable pub list_objects : Bytes → Option Bytes → Op (List ObjectMetadata)
  list_objects bucket prefix = reading (list_prefixed env.object_codec (list_prefix bucket prefix))
