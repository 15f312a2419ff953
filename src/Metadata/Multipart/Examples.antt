-- ===== src/Metadata/Multipart/Examples.antt =====
-- The theorem on aborted uploads at a database with an upload of one part and a bucket.
use save.Prelude.{
  bytes, [], ◌∷◌, none, true, ◌≡◌, refl, all, ◌||◌, beq, blt, starts_with, ends_with, contains,
  if◌then◌else◌,
}
use save.Prelude.Result.{ok}
use save.Rocksdb.{default_cf}
use save.Rocksdb.Scan.{is_ok, for_prefix}
use save.Rocksdb.SortedMap.{seek, insert, remove}
use save.Rocksdb.Memory.{put_w, delete_w, mem_delete, mem_iterator, contents, same_cf}
use save.Validation.{validate_object_key}
use save.Metadata.{Db, stored}
use save.Metadata.Fixture.{env}
use save.Metadata.Multipart.{
  db_key, part_prefix, push_key, delete_keys, delete_upload, abort_multipart_upload,
  validate_upload_id,
}
use save.Metadata.Multipart.Abort.{without_metadata, abort_multipart_upload_lem}

abbrev cat_upload : Db
cat_upload =
    put_w default_cf (bytes "mpu:photos:cat:u1:part:1") (bytes "p")
    ∷ put_w default_cf (bytes "mpu:photos:cat:u1") (bytes "m")
    ∷ put_w default_cf (bytes "bkt:photos") (bytes "b")
    ∷ []

abbrev aborted : Db
aborted =
    delete_w default_cf (bytes "mpu:photos:cat:u1:part:1")
    ∷ delete_w default_cf (bytes "mpu:photos:cat:u1")
    ∷ cat_upload

scan_reads :
    all is_ok (
      env.rocksdb.prefix_iterator
        (without_metadata (bytes "photos") (bytes "cat") (bytes "u1") cat_upload)
        (part_prefix (bytes "photos") (bytes "cat") (bytes "u1")))
    ≡ true
unfolding part_prefix db_key mem_delete mem_iterator contents same_cf insert remove seek beq blt
scan_reads = refl

aborts :
    abort_multipart_upload (bytes "photos") (bytes "cat") (bytes "u1") cat_upload ≡ (ok tt, aborted)
unfolding abort_multipart_upload validate_object_key validate_upload_id delete_upload for_prefix
    push_key delete_keys part_prefix db_key mem_delete mem_iterator contents same_cf insert remove
    seek beq blt starts_with ends_with contains
aborts = refl

abort_multipart_upload_lem_example : stored aborted (bytes "bkt:photos") ≡ (
    if beq (db_key (bytes "photos") (bytes "cat") (bytes "u1")) (bytes "bkt:photos")
      || starts_with (bytes "bkt:photos") (part_prefix (bytes "photos") (bytes "cat") (bytes "u1"))
    then none
    else stored cat_upload (bytes "bkt:photos"))
abort_multipart_upload_lem_example =
    abort_multipart_upload_lem (bytes "photos") (bytes "cat") (bytes "u1") cat_upload aborted
      scan_reads aborts (bytes "bkt:photos")
