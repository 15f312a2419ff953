-- ===== src/Validation/Examples.antt =====
-- Validation at concrete names and keys.
use save.Prelude.{bytes, ◌≡◌, ◌↔◌, refl, beq, contains, starts_with, ends_with}
use save.Prelude.Result.{ok, err}
use save.Validation.{
  validate_object_key, validate_bucket_name, key_dot_dot, key_slash, name_ends, name_characters,
}
use save.Validation.BucketName.{IsBucketName, validate_bucket_name_iff}

keys :
    (validate_object_key (bytes "path/to/object.txt") ≡ ok tt)
    × (validate_object_key (bytes "path/../secret") ≡ err key_dot_dot)
    × (validate_object_key (bytes "path/file/") ≡ err key_slash)
unfolding validate_object_key beq contains ends_with
keys = (refl, refl, refl)

names :
    (validate_bucket_name (bytes "my.test-bucket") ≡ ok tt)
    × (validate_bucket_name (bytes "bucket.") ≡ err name_ends)
    × (validate_bucket_name (bytes "MyBucket") ≡ err name_characters)
unfolding validate_bucket_name starts_with ends_with
names = (refl, refl, refl)

validate_bucket_name_iff_example :
    (validate_bucket_name (bytes "abc") ≡ ok tt) ↔ IsBucketName (bytes "abc")
validate_bucket_name_iff_example = validate_bucket_name_iff (bytes "abc")
