-- ===== src/Metadata/Examples.antt =====
-- The theorems on buckets and objects at concrete databases, and tests.
use save.Prelude.{
  Bytes, bytes, [], ◌∷◌, ◌++◌, some, ◌≡◌, ◌≢◌, ◌⊎◌, refl, beq, blt, starts_with, contains,
  ends_with,
}
use save.Prelude.Result.{ok, err}
use save.Rocksdb.{default_cf}
use save.Rocksdb.Scan.{with_prefix}
use save.Rocksdb.Memory.{
  put_w, delete_w, mem_get, mem_put, mem_delete, mem_write, mem_iterator, contents,
}
use save.Rocksdb.SortedMap.{seek}
use save.Validation.{validate_bucket_name, validate_object_key}
use save.Metadata.{Db, BucketInfo, ObjectMetadata, stored, database}
use save.Metadata.Fixture.{env, empty}
use save.Metadata.Listing.{decode_all}
use save.Metadata.Bucket.{bucket_key, new_bucket, create_bucket, delete_bucket}
use save.Metadata.Object.{
  db_key, list_prefix, put_object_metadata, commit_object_metadata, get_object_metadata,
  delete_object_metadata, list_objects,
}
use save.Metadata.Object.Laws.{get_object_metadata-put_object_metadata, list_objects_lem}

abbrev photos : BucketInfo
photos = record { name = bytes "photos"; created_at = 7 }

abbrev with_photos : Db
with_photos = put_w default_cf (bytes "bkt:photos") (7 ∷ bytes "photos") ∷ []

valid_photos : validate_bucket_name (bytes "photos") ≡ ok tt
unfolding validate_bucket_name starts_with ends_with
valid_photos = refl

create_photos : create_bucket 7 (bytes "photos") empty ≡ (ok photos, with_photos)
unfolding create_bucket new_bucket bucket_key validate_bucket_name starts_with ends_with mem_get
    mem_put
create_photos = refl

abbrev without_photos : Db
without_photos = delete_w default_cf (bytes "bkt:photos") ∷ with_photos

delete_photos : delete_bucket (bytes "photos") with_photos ≡ (ok tt, without_photos)
unfolding delete_bucket bucket_key validate_bucket_name starts_with ends_with mem_delete
delete_photos = refl

-- Objects.
abbrev cat : ObjectMetadata
cat = record {
  bucket = bytes "photos";
  key = bytes "cat.jpg";
  size = 3;
  etag = bytes "e1";
  content_type = some (bytes "image/jpeg");
  created_at = 8;
  modified_at = 8;
  replica_nodes = 1 ∷ 2 ∷ [];
}

abbrev cat_key : Bytes
cat_key = bytes "obj:photos/cat.jpg"

abbrev cat_value : Bytes
cat_value =
    3 ∷ 8 ∷ 8 ∷ 6 ∷ bytes "photos"
    ++ (7 ∷ bytes "cat.jpg" ++ (2 ∷ bytes "e1" ++ (11 ∷ 1 ∷ bytes "image/jpeg" ++ (1 ∷ 2 ∷ []))))

abbrev with_cat : Db
with_cat = put_w default_cf cat_key cat_value ∷ []

put_cat : put_object_metadata cat empty ≡ (ok tt, with_cat)
unfolding put_object_metadata db_key validate_object_key beq starts_with ends_with contains mem_put
put_cat = refl

commit_cat : commit_object_metadata cat empty ≡ (ok tt, with_cat)
unfolding commit_object_metadata db_key validate_object_key beq starts_with ends_with contains
    mem_write
commit_cat = refl

get_object_metadata-put_object_metadata_example :
    ((get_object_metadata (bytes "photos") (bytes "cat.jpg") with_cat ≡ (ok cat, with_cat))
      ⊎ ((e : Unit {0}) × (get_object_metadata (bytes "photos") (bytes "cat.jpg") with_cat
            ≡ (err (database e), with_cat))))
    × ((k : Bytes)
        → k ≢ db_key (bytes "photos") (bytes "cat.jpg")
        → stored with_cat k ≡ stored empty k)
get_object_metadata-put_object_metadata_example =
    get_object_metadata-put_object_metadata empty cat with_cat put_cat

abbrev without_cat : Db
without_cat = delete_w default_cf cat_key ∷ with_cat

delete_cat :
    delete_object_metadata (bytes "photos") (bytes "cat.jpg") with_cat ≡ (ok tt, without_cat)
unfolding delete_object_metadata db_key validate_object_key beq starts_with ends_with contains
    mem_delete
delete_cat = refl

list_objects_lem_example : list_objects (bytes "photos") (some (bytes "c")) with_cat ≡ (
  decode_all env.object_codec (
      with_prefix
        (list_prefix (bytes "photos") (some (bytes "c")))
        (env.rocksdb.entries with_cat default_cf)),
  with_cat,
)
unfolding mem_iterator contents seek blt list_prefix
list_objects_lem_example = list_objects_lem with_cat (bytes "photos") (some (bytes "c")) refl
