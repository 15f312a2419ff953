-- ===== src/Metadata.antt =====
-- crates/save-metadata/src: the metadata store over RocksDB. This file has the records that it
-- stores, its errors and the way its functions run; the children have the functions.
pub mod Database
pub mod Listing
pub mod Bucket
pub mod Object
pub mod Lock
pub mod Multipart
pub mod StateMachine
pub mod LockManager
pub mod Fixture
mod Examples
use save.Prelude.{ℕ, Bytes, bytes, List, [], ◌∷◌, ◌++◌, Option, none, some, Bool, true, false, ◌≡◌}
use save.Prelude.Result.{Result, ok, err, map_err, ok_or}
use save.Rocksdb.{Rocksdb, Codec, default_cf}
use save.Rocksdb.SortedMap.{Entries, lookup}
use save.Validation.{ValidationError}

-- `chrono::DateTime<Utc>`, which the code only copies. `Utc::now()` is an argument.
abbrev pub DateTime : Type 0
DateTime = ℕ

-- crates/save-common/src/types.rs
pub record BucketInfo : Type 0 where
  pub name : Bytes
  pub created_at : DateTime

-- object.rs
pub record ObjectMetadata : Type 0 where
  pub bucket : Bytes
  pub key : Bytes
  pub size : ℕ
  pub etag : Bytes
  pub content_type : Option Bytes
  pub created_at : DateTime
  pub modified_at : DateTime
  pub replica_nodes : List ℕ

-- multipart.rs. `MultipartUpload` is declared beside the functions.
pub record MultipartPart : Type 0 where
  pub part_number : ℕ
  pub etag : Bytes
  pub size : ℕ

pub record MultipartMetadata : Type 0 where
  pub upload_id : Bytes
  pub bucket : Bytes
  pub key : Bytes
  pub initiated_at : DateTime
  pub content_type : Option Bytes

-- raft/commands.rs
pub data LockType : Type 0 where
  read write : LockType

pub record LockHolder : Type 0 where
  pub node_id : ℕ
  pub lock_id : ℕ

-- lock.rs
pub record LockState : Type 0 where
  pub lock_type : LockType
  pub holders : List LockHolder

-- error.rs, the errors that the store raises. `invalid_operation` keeps the failed check and drops
-- its text.
pub data InvalidOperation : Type 0 where
  validation : ValidationError → InvalidOperation
  upload_id_empty upload_id_too_long : InvalidOperation

pub data MetadataError (E : Type 0) : Type 0 where
  database : E → MetadataError E
  encode_error decode_error : MetadataError E
  bucket_not_found bucket_already_exists multipart_upload_not_found : Bytes → MetadataError E
  object_not_found : Bytes → Bytes → MetadataError E
  invalid_operation : InvalidOperation → MetadataError E

-- What the store is built on: the database, and bincode for each record that it writes.
pub record Env : Type 1 where
  pub rocksdb : Rocksdb
  pub bucket_codec : Codec BucketInfo
  pub object_codec : Codec ObjectMetadata
  pub multipart_codec : Codec MultipartMetadata
  pub part_codec : Codec MultipartPart
  pub lock_codec : Codec LockState

module _ ⦃env : Env⦄ where
  abbrev pub Db : Type 0
  Db = env.rocksdb.Db

  abbrev pub Error : Type 0
  Error = MetadataError env.rocksdb.Error

  -- A function that writes and may fail with an `F`: the database comes back beside an error too.
  abbrev pub Fallible : Type 0 → Type 0 → Type 0
  Fallible F A = Db → Result F A × Db

  abbrev pub Op : Type 0 → Type 0
  Op A = Fallible Error A

  -- The value stored under a key of the default column family.
  abbrev pub stored : Db → Bytes → Option Bytes
  stored d k = lookup k (env.rocksdb.entries d default_cf)

module _ ⦃env : Env⦄ {F A B : Type 0} where
  abbrev pub continue : Result F A → (A → Fallible F B) → Fallible F B
  continue (ok a) f d = f a d
  continue (err e) f d = (err e, d)

  infixl 5 ◌>>=◌
  abbrev pub ◌>>=◌ : Fallible F A → (A → Fallible F B) → Fallible F B
  ◌>>=◌ m f d = let (r, d') = m d in continue r f d'

module _ ⦃env : Env⦄ {F B : Type 0} where
  infixl 5 ◌>>◌
  abbrev pub ◌>>◌ : Fallible F (Unit {0}) → Fallible F B → Fallible F B
  m >> n = m >>= λ _. n

module _ ⦃env : Env⦄ {F A : Type 0} where
  abbrev pub pure : A → Fallible F A
  pure a d = (ok a, d)

  abbrev pub fail : F → Fallible F A
  fail e d = (err e, d)

  abbrev pub lift : Result F A → Fallible F A
  lift r d = (r, d)

  -- A function that only reads.
  abbrev pub reading : (Db → Result F A) → Fallible F A
  reading f d = (f d, d)

module _ ⦃env : Env⦄ {F G A : Type 0} where
  -- `.map_err(f)`
  abbrev pub or_else : (F → G) → Fallible F A → Fallible G A
  or_else f m d = let (r, d') = m d in (map_err f r, d')

module _ ⦃env : Env⦄ where
  -- `db.get(&key)?`
  abbrev pub db_get : Bytes → Db → Result Error (Option Bytes)
  db_get k d = map_err database (env.rocksdb.get d default_cf k)

  -- `db.put(&key, value)?` and `db.delete(&key)?`
  abbrev pub db_put : Bytes → Bytes → Op (Unit {0})
  db_put k v d = let (r, d') = env.rocksdb.put d default_cf k v in (map_err database r, d')

  abbrev pub db_delete : Bytes → Op (Unit {0})
  db_delete k d = let (r, d') = env.rocksdb.delete d default_cf k in (map_err database r, d')

  -- `db.write_opt(batch, &write_opts)?`
  abbrev pub db_write : Entries → Op (Unit {0})
  db_write batch d = let (r, d') = env.rocksdb.write d batch in (map_err database r, d')

  -- `.map_err(|e| MetadataError::InvalidOperation(e.to_string()))?`
  abbrev pub checked : Result ValidationError (Unit {0}) → Result Error (Unit {0})
  checked = map_err (λ e. invalid_operation (validation e))

  abbrev pub encode_to_vec : {A : Type 0} → Codec A → A → Result Error Bytes
  encode_to_vec c a = ok_or (c.encode a) encode_error

  abbrev pub decode_from_slice : {A : Type 0} → Codec A → Bytes → Result Error A
  decode_from_slice c b = ok_or (c.decode b) decode_error
