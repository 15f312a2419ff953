-- ===== src/Metadata/Fixture.antt =====
-- An environment that runs: the database in memory and a length-prefixed serialisation.
use save.Prelude.{
  ℕ, zero, suc, Bytes, List, [], ◌∷◌, ◌++◌, Option, none, some, Bool, false, ◌≡◌, refl, subst,
  length, take, drop, arith, ap,
}
use mathlib.Core.Option.{some-injective}
use save.Rocksdb.Memory.{memory}
use save.Metadata.{
  Env, Db, BucketInfo, ObjectMetadata, MultipartMetadata, MultipartPart, LockState, LockHolder,
  LockType, read, write,
}

-- A field of a record, put before the fields that are written already.
abbrev pub with_field : Bytes → Bytes → Bytes
with_field xs rest = length xs ∷ xs ++ rest

abbrev pub first_field : Bytes → Bytes
first_field [] = []
first_field (n ∷ rest) = take n rest

abbrev pub later_fields : Bytes → Bytes
later_fields [] = []
later_fields (n ∷ rest) = drop n rest

take-append : (xs ys : Bytes) → take (length xs) (xs ++ ys) ≡ xs
take-append [] ys = refl
take-append (x ∷ xs) ys = ap (◌∷◌ x) (take-append xs ys)

drop-append : (xs ys : Bytes) → drop (length xs) (xs ++ ys) ≡ ys
drop-append [] ys = refl
drop-append (x ∷ xs) ys = drop-append xs ys

abbrev pub option_bytes : Option Bytes → Bytes
option_bytes none = []
option_bytes (some t) = 1 ∷ t

abbrev pub bytes_option : Bytes → Option Bytes
bytes_option [] = none
bytes_option (x ∷ t) = some t

bytes_option-option_bytes : (o : Option Bytes) → bytes_option (option_bytes o) ≡ o
bytes_option-option_bytes none = refl
bytes_option-option_bytes (some t) = refl

abbrev pub encode_bucket : BucketInfo → Option Bytes
encode_bucket b = some (b.created_at ∷ b.name)

abbrev pub decode_bucket : Bytes → Option BucketInfo
decode_bucket [] = none
decode_bucket (t ∷ n) = some (record { name = n; created_at = t })

pub decode-encode_bucket :
    (b : BucketInfo) (v : Bytes) → encode_bucket b ≡ some v → decode_bucket v ≡ some b
decode-encode_bucket b v h = ground arith

abbrev pub encode_object : ObjectMetadata → Option Bytes
encode_object m = some (
    m.size
    ∷ m.created_at
    ∷ m.modified_at
    ∷ with_field m.bucket (
        with_field m.key
          (with_field m.etag (with_field (option_bytes m.content_type) m.replica_nodes))))

abbrev pub decode_fields : ℕ → ℕ → ℕ → Bytes → ObjectMetadata
decode_fields size created modified r = record {
  bucket = first_field r;
  key = first_field (later_fields r);
  size = size;
  etag = first_field (later_fields (later_fields r));
  content_type = bytes_option (first_field (later_fields (later_fields (later_fields r))));
  created_at = created;
  modified_at = modified;
  replica_nodes = later_fields (later_fields (later_fields (later_fields r)));
}

abbrev pub decode_object : Bytes → Option ObjectMetadata
decode_object (size ∷ created ∷ modified ∷ r) = some (decode_fields size created modified r)
decode_object _ = none

pub decode-encode_object :
    (m : ObjectMetadata) (v : Bytes) → encode_object m ≡ some v → decode_object v ≡ some m
decode-encode_object m v h =
    subst (λ w. decode_object w ≡ some m) (some-injective _ _ h)
      (simp (take-append, drop-append, bytes_option-option_bytes))

abbrev pub encode_multipart : MultipartMetadata → Option Bytes
encode_multipart m = some (
    m.initiated_at
    ∷ with_field m.upload_id (with_field m.bucket (with_field m.key (option_bytes m.content_type))))

abbrev pub decode_multipart : Bytes → Option MultipartMetadata
decode_multipart [] = none
decode_multipart (t ∷ r) = some (record {
  upload_id = first_field r;
  bucket = first_field (later_fields r);
  key = first_field (later_fields (later_fields r));
  initiated_at = t;
  content_type = bytes_option (later_fields (later_fields (later_fields r)));
})

pub decode-encode_multipart :
    (m : MultipartMetadata) (v : Bytes) → encode_multipart m ≡ some v → decode_multipart v ≡ some m
decode-encode_multipart m v h =
    subst (λ w. decode_multipart w ≡ some m) (some-injective _ _ h)
      (simp (take-append, drop-append, bytes_option-option_bytes))

abbrev pub encode_part : MultipartPart → Option Bytes
encode_part p = some (p.part_number ∷ p.size ∷ p.etag)

abbrev pub decode_part : Bytes → Option MultipartPart
decode_part (n ∷ size ∷ etag) = some (record { part_number = n; etag = etag; size = size })
decode_part _ = none

pub decode-encode_part :
    (p : MultipartPart) (v : Bytes) → encode_part p ≡ some v → decode_part v ≡ some p
decode-encode_part p v h = ground arith

abbrev pub type_byte : LockType → ℕ
type_byte read = 0
type_byte write = 1

abbrev pub byte_type : ℕ → LockType
byte_type zero = read
byte_type (suc n) = write

byte_type-type_byte : (t : LockType) → byte_type (type_byte t) ≡ t
byte_type-type_byte read = refl
byte_type-type_byte write = refl

abbrev pub holder_bytes : List LockHolder → Bytes
holder_bytes [] = []
holder_bytes (h ∷ hs) = h.node_id ∷ h.lock_id ∷ holder_bytes hs

abbrev pub bytes_holders : Bytes → List LockHolder
bytes_holders (n ∷ l ∷ r) = record { node_id = n; lock_id = l } ∷ bytes_holders r
bytes_holders _ = []

bytes_holders-holder_bytes : (hs : List LockHolder) → bytes_holders (holder_bytes hs) ≡ hs
bytes_holders-holder_bytes [] = refl
bytes_holders-holder_bytes (h ∷ hs) = ap (◌∷◌ h) (bytes_holders-holder_bytes hs)

abbrev pub encode_lock : LockState → Option Bytes
encode_lock s = some (type_byte s.lock_type ∷ holder_bytes s.holders)

abbrev pub decode_lock : Bytes → Option LockState
decode_lock [] = none
decode_lock (t ∷ r) = some (record { lock_type = byte_type t; holders = bytes_holders r })

pub decode-encode_lock :
    (s : LockState) (v : Bytes) → encode_lock s ≡ some v → decode_lock v ≡ some s
decode-encode_lock s v h =
    subst (λ w. decode_lock w ≡ some s) (some-injective _ _ h)
      (simp (byte_type-type_byte, bytes_holders-holder_bytes))

-- The keys for which the database fails are chosen by `fails`.
abbrev pub env_failing : (Bytes → Bool) → Env
env_failing fails = record {
  rocksdb = memory fails;
  bucket_codec = record {
    encode = encode_bucket;
    decode = decode_bucket;
    decode-encode = decode-encode_bucket;
  };
  object_codec = record {
    encode = encode_object;
    decode = decode_object;
    decode-encode = decode-encode_object;
  };
  multipart_codec = record {
    encode = encode_multipart;
    decode = decode_multipart;
    decode-encode = decode-encode_multipart;
  };
  part_codec = record {
    encode = encode_part;
    decode = decode_part;
    decode-encode = decode-encode_part;
  };
  lock_codec = record {
    encode = encode_lock;
    decode = decode_lock;
    decode-encode = decode-encode_lock;
  };
}

instance abbrev pub env : Env
env = env_failing (λ k. false)

abbrev pub empty : Db
empty = []
