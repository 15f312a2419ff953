-- ===== src/Metadata/Multipart.antt =====
-- crates/save-metadata/src/multipart.rs. `Utc::now()` is an argument. The `BTreeMap` of an upload's
-- parts is an association list in the order of the part numbers.
pub mod Abort
mod Examples
use save.Prelude.{
  ℕ, zero, suc, ◌+◌, ◌/◌, ◌%◌, Bytes, bytes, ◌++◌, List, [], ◌∷◌, Option, none, some, Bool, ◌==◌,
  ltb, if◌then◌else◌, length, contains,
}
use save.Prelude.Result.{Result, ok, err, map_ok}
use save.Validation.{validate_object_key}
use save.Rocksdb.Scan.{for_prefix}
use save.Metadata.{
  Env, Db, Error, Op, DateTime, MultipartPart, MultipartMetadata, database,
  multipart_upload_not_found, invalid_operation, upload_id_empty, upload_id_too_long, ◌>>=◌, ◌>>◌,
  pure, fail, lift, reading, db_get, db_put, db_delete, checked, encode_to_vec, decode_from_slice,
}

pub record MultipartUpload : Type 0 where
  pub upload_id : Bytes
  pub bucket : Bytes
  pub key : Bytes
  pub parts : List (ℕ × MultipartPart)
  pub initiated_at : DateTime
  pub content_type : Option Bytes

unfoldable pub insert_part : ℕ → MultipartPart → List (ℕ × MultipartPart) → List (ℕ × MultipartPart)
insert_part n p [] = (n, p) ∷ []
insert_part n p ((m, q) ∷ parts) =
    let rest = insert_part n p parts in
    if n == m then (n, p) ∷ parts else if ltb n m then (n, p) ∷ (m, q) ∷ parts else (m, q) ∷ rest

-- The decimal digits of a `u32`, of which there are ten at most.
unfoldable pub digits : ℕ → ℕ → Bytes → Bytes
digits zero n acc = acc
digits (suc left) n acc =
    let more = digits left (n / 10) ((48 + n % 10) ∷ acc) in
    if n / 10 == 0 then (48 + n % 10) ∷ acc else more

unfoldable pub db_key : Bytes → Bytes → Bytes → Bytes
db_key bucket key upload_id =
    bytes "mpu:" ++ (bucket ++ (bytes ":" ++ (key ++ (bytes ":" ++ upload_id))))

unfoldable pub part_prefix : Bytes → Bytes → Bytes → Bytes
unfolding db_key
part_prefix bucket key upload_id = db_key bucket key upload_id ++ bytes ":part:"

unfoldable pub part_key : Bytes → Bytes → Bytes → ℕ → Bytes
unfolding part_prefix digits
part_key bucket key upload_id part_number =
    part_prefix bucket key upload_id ++ digits 10 part_number []

module _ ⦃env : Env⦄ where
  unfoldable pub validate_upload_id : Bytes → Result Error (Unit {0})
  validate_upload_id upload_id =
      if length upload_id == 0
      then err (invalid_operation upload_id_empty)
      else if ltb 256 (length upload_id)
      then err (invalid_operation upload_id_too_long)
      else ok tt

  abbrev pub of_metadata : MultipartMetadata → List (ℕ × MultipartPart) → MultipartUpload
  of_metadata m parts = record {
    upload_id = m.upload_id;
    bucket = m.bucket;
    key = m.key;
    parts = parts;
    initiated_at = m.initiated_at;
    content_type = m.content_type;
  }

  unfoldable pub initiate_multipart_upload :
      DateTime → Bytes → Bytes → Bytes → Option Bytes → Op MultipartUpload
  unfolding validate_upload_id db_key
  initiate_multipart_upload now bucket key upload_id content_type = do
    lift (checked (validate_object_key key))
    lift (validate_upload_id upload_id)
    value ← lift (
        encode_to_vec env.multipart_codec (record {
          upload_id = upload_id;
          bucket = bucket;
          key = key;
          initiated_at = now;
          content_type = content_type;
        }))
    db_put (db_key bucket key upload_id) value
    pure (record {
      upload_id = upload_id;
      bucket = bucket;
      key = key;
      parts = [];
      initiated_at = now;
      content_type = content_type;
    })

  -- The loop over the parts of an upload.
  unfoldable pub add_part :
      List (ℕ × MultipartPart) → Bytes → Bytes → Result Error (List (ℕ × MultipartPart))
  unfolding insert_part
  add_part parts k value =
      map_ok (λ (p : MultipartPart). insert_part p.part_number p parts)
        (decode_from_slice env.part_codec value)

  unfoldable pub parts_of : Bytes → Db → Result Error (List (ℕ × MultipartPart))
  unfolding add_part for_prefix
  parts_of prefix d = for_prefix database prefix add_part [] (env.rocksdb.prefix_iterator d prefix)

  unfoldable found_upload : Bytes → Option Bytes → Op MultipartMetadata
  found_upload upload_id none = fail (multipart_upload_not_found upload_id)
  found_upload upload_id (some value) = lift (decode_from_slice env.multipart_codec value)

  unfoldable pub get_multipart_upload : Bytes → Bytes → Bytes → Op MultipartUpload
  unfolding validate_upload_id db_key found_upload parts_of part_prefix
  get_multipart_upload bucket key upload_id = do
    lift (checked (validate_object_key key))
    lift (validate_upload_id upload_id)
    found ← reading (db_get (db_key bucket key upload_id))
    metadata ← found_upload upload_id found
    parts ← reading (parts_of (part_prefix bucket key upload_id))
    pure (of_metadata metadata parts)

  unfoldable require_upload : Bytes → Option Bytes → Op (Unit {0})
  require_upload upload_id none = fail (multipart_upload_not_found upload_id)
  require_upload upload_id (some value) = pure tt

  unfoldable pub record_part : Bytes → Bytes → Bytes → ℕ → Bytes → ℕ → Op (Unit {0})
  unfolding validate_upload_id db_key require_upload part_key
  record_part bucket key upload_id part_number etag size = do
    lift (checked (validate_object_key key))
    lift (validate_upload_id upload_id)
    found ← reading (db_get (db_key bucket key upload_id))
    require_upload upload_id found
    value ← lift (
        encode_to_vec env.part_codec
          (record { part_number = part_number; etag = etag; size = size }))
    db_put (part_key bucket key upload_id part_number) value

  -- `keys_to_delete.push(k.to_vec())`
  unfoldable pub push_key : List Bytes → Bytes → Bytes → Result Error (List Bytes)
  push_key keys k value = ok (keys ++ k ∷ [])

  unfoldable pub delete_keys : List Bytes → Op (Unit {0})
  delete_keys [] = pure tt
  delete_keys (k ∷ keys) = do db_delete k; delete_keys keys

  -- The end of `complete_multipart_upload` and of `abort_multipart_upload`.
  unfoldable pub delete_upload : Bytes → Bytes → Bytes → Op (Unit {0})
  unfolding db_key part_prefix for_prefix push_key delete_keys
  delete_upload bucket key upload_id = do
    db_delete (db_key bucket key upload_id)
    keys_to_delete ← reading (λ d.
        for_prefix database (part_prefix bucket key upload_id) push_key []
          (env.rocksdb.prefix_iterator d (part_prefix bucket key upload_id)))
    delete_keys keys_to_delete

  unfoldable pub complete_multipart_upload : Bytes → Bytes → Bytes → Op MultipartUpload
  unfolding validate_upload_id get_multipart_upload delete_upload
  complete_multipart_upload bucket key upload_id = do
    lift (checked (validate_object_key key))
    lift (validate_upload_id upload_id)
    upload ← get_multipart_upload bucket key upload_id
    delete_upload bucket key upload_id
    pure upload

  unfoldable pub abort_multipart_upload : Bytes → Bytes → Bytes → Op (Unit {0})
  unfolding validate_upload_id delete_upload
  abort_multipart_upload bucket key upload_id = do
    lift (checked (validate_object_key key))
    lift (validate_upload_id upload_id)
    delete_upload bucket key upload_id

  -- The loop of the listing; a key that contains ":part:" is passed over.
  unfoldable pub push_upload :
      Db → List MultipartUpload → Bytes → Bytes → Result Error (List MultipartUpload)
  unfolding parts_of part_prefix contains
  push_upload d uploads k value =
      if contains k (bytes ":part:")
      then ok uploads
      else elim (decode_from_slice env.multipart_codec value) [
        | ok m ↦
            map_ok (λ parts. uploads ++ of_metadata m parts ∷ [])
              (parts_of (part_prefix m.bucket m.key m.upload_id) d)
        | err e ↦ err e
      ]

  unfoldable pub list_multipart_uploads_with_prefix :
      Bytes → Db → Result Error (List MultipartUpload)
  unfolding for_prefix push_upload
  list_multipart_uploads_with_prefix prefix d =
      for_prefix database prefix (push_upload d) [] (env.rocksdb.prefix_iterator d prefix)

  unfoldable pub list_multipart_uploads : Bytes → Op (List MultipartUpload)
  unfolding list_multipart_uploads_with_prefix
  list_multipart_uploads bucket =
      reading (list_multipart_uploads_with_prefix (bytes "mpu:" ++ (bucket ++ bytes ":")))

  unfoldable pub list_all_multipart_uploads : Op (List MultipartUpload)
  unfolding list_multipart_uploads_with_prefix
  list_all_multipart_uploads = reading (list_multipart_uploads_with_prefix (bytes "mpu:"))
