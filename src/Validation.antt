-- ===== src/Validation.antt =====
-- crates/save-common/src/validation.rs. A `&str` is the list of the bytes of its UTF-8 encoding;
-- every byte of a character outside ASCII is 128 or more, so a test of all characters against
-- ASCII sets is the same test on all bytes. An error keeps which check failed and drops its text.
pub mod ObjectKey
pub mod BucketName
mod Examples
use save.Prelude.{
  ℕ, Bool, ◌&&◌, ◌||◌, not, Bytes, bytes, [], ◌∷◌, beq, starts_with, ends_with, contains, length,
  all, ltb, leb, ◌==◌, if◌then◌else◌,
}
use save.Prelude.Result.{Result, ok, err}

pub data ValidationError : Type 0 where
  key_empty key_too_long key_null key_dot_dot key_slash : ValidationError
  name_length name_characters name_ends : ValidationError

abbrev pub max_object_key_length : ℕ
max_object_key_length = 1024

abbrev pub min_bucket_name_length : ℕ
min_bucket_name_length = 3

abbrev pub max_bucket_name_length : ℕ
max_bucket_name_length = 63

unfoldable pub validate_object_key : Bytes → Result ValidationError (Unit {0})
validate_object_key key =
    if beq key []
    then err key_empty
    else if ltb max_object_key_length (length key)
    then err key_too_long
    else if contains key (0 ∷ [])
    then err key_null
    else if contains key (bytes "..")
    then err key_dot_dot
    else if starts_with key (bytes "/") || ends_with key (bytes "/")
    then err key_slash
    else ok tt

-- The closure given to `all` in `validate_bucket_name`.
unfoldable pub is_name_char : ℕ → Bool
is_name_char c = (leb b'a' c && leb c b'z') || (leb b'0' c && leb c b'9') || c == b'-' || c == b'.'

unfoldable pub validate_bucket_name : Bytes → Result ValidationError (Unit {0})
unfolding is_name_char
validate_bucket_name name =
    if ltb (length name) min_bucket_name_length || ltb max_bucket_name_length (length name)
    then err name_length
    else if not (all is_name_char name)
    then err name_characters
    else if starts_with name (bytes "-")
        || starts_with name (bytes ".")
        || ends_with name (bytes "-")
        || ends_with name (bytes ".")
    then err name_ends
    else ok tt
