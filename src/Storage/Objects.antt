-- ===== src/Storage/Objects.antt =====
-- crates/save-storage/src/lib.rs: `TempObject` and `ObjectStorage`. A reader is the pieces it gives
-- and the error it ends with, if any. A `TempObject` that goes out of scope is passed to `drop`.
-- Two puts of one key share a temporary file and may overlap in the program; here each function runs
-- without anything in between. Errors leave a function early, so each function that holds a `TempObject` drops it there.
pub mod Writing
pub mod Laws
pub mod Atomicity
pub mod Reading
pub mod Calls
pub mod Progress
use save.Prelude.{
  ℕ, zero, suc, ◌*◌, Bytes, bytes, List, [], ◌∷◌, ◌++◌, Option, none, some, Bool, true, false, ◌≡◌,
  beq, not, ◌&&◌, if◌then◌else◌, length,
}
use save.Prelude.Result.{Result, ok, err, ok_or}
use save.Storage.{
  FilePath, IoError, not_found, other, StorageError, io, missing, invalid_path, FileSystem, Io,
  ◌>>=◌, ◌>>◌, pure, fail, lift, try_io, or_else,
}
use save.Storage.Layout.{
  StorageLayout, object_id, object_path, object_path_from_id, temp_path_from_id, objects_dir,
  temp_dir,
}

pub record TempObject : Type 0 where
  pub temp_path : FilePath
  pub final_path : FilePath
  pub committed : Bool

pub record ObjectStorage : Type 0 where
  pub layout : StorageLayout
  pub fsync_mode : Bytes

pub record Reader : Type 0 where
  pub pieces : List Bytes
  pub failure : Option IoError

-- `&data[..]` read as a stream.
abbrev pub slice : Bytes → Reader
slice body = record { pieces = body ∷ []; failure = none }

-- `Path::parent`
abbrev pub parent : FilePath → Option FilePath
parent [] = none
parent (c ∷ []) = some []
parent (c ∷ d ∷ p) = elim (parent (d ∷ p)) [ none ↦ none | some q ↦ some (c ∷ q) ]

-- `TempObject::new` for an object id.
abbrev pub temp_of : StorageLayout → Bytes → TempObject
temp_of layout id = record {
  temp_path = temp_path_from_id layout id;
  final_path = object_path_from_id layout id;
  committed = false;
}

-- The size of the buffers.
abbrev pub buffer_size : ℕ
buffer_size = 64 * 1024

module _ ⦃fs : FileSystem⦄ where
  unfoldable pub drop : TempObject → fs.State → fs.State
  drop t s =
      if not t.committed && fs.exists t.temp_path s then (fs.remove_file t.temp_path s).1 else s

  abbrev pub finish : {E A : Type 0} → TempObject → Result E A → Io E A
  finish t (ok a) s = (ok a, s)
  finish t (err e) s = (err e, drop t s)

  -- A part of a function that holds `t`, which is dropped if the part leaves the function early.
  abbrev pub holding : {E A : Type 0} → TempObject → Io E A → Io E A
  holding t m s = let (r, s') = m s in finish t r s'

  unfoldable pub new_with_fsync_mode : StorageLayout → Bytes → Io StorageError ObjectStorage
  new_with_fsync_mode layout fsync_mode = do
    try_io (fs.create_dir_all (objects_dir layout))
    try_io (fs.create_dir_all (temp_dir layout))
    pure (record { layout = layout; fsync_mode = fsync_mode })

  -- `create_temp_object` after the object id.
  abbrev pub make_temp_object : StorageLayout → Bytes → Io StorageError TempObject
  make_temp_object layout id = do
    temp_parent ← lift (ok_or (parent (temp_path_from_id layout id)) invalid_path)
    try_io (fs.create_dir_all temp_parent)
    pure (temp_of layout id)

  unfoldable pub create_temp_object : ObjectStorage → Bytes → Io StorageError TempObject
  create_temp_object storage key = do
    id ← lift (object_id storage.layout key)
    make_temp_object storage.layout id

  unfoldable pub write_pieces : FilePath → List Bytes → Io IoError (Unit {0})
  write_pieces p [] = pure tt
  write_pieces p (b ∷ bs) = fs.write_all p b >> write_pieces p bs

  abbrev pub end_of_copy : Option IoError → Io IoError (Unit {0})
  end_of_copy none = pure tt
  end_of_copy (some e) = fail e

  -- `tokio::io::copy`
  abbrev pub copy : Reader → FilePath → Io IoError (Unit {0})
  copy reader p = do write_pieces p reader.pieces; end_of_copy reader.failure

  abbrev pub write_temp_file : Bytes → FilePath → Reader → Io StorageError (Unit {0})
  write_temp_file fsync_mode temp_path reader = do
    try_io (fs.create temp_path)
    try_io (copy reader temp_path)
    try_io (fs.flush temp_path)
    if beq fsync_mode (bytes "none") then pure tt else try_io (fs.sync_all temp_path)

  unfoldable pub write_temp_object : ObjectStorage → Bytes → Reader → Io StorageError TempObject
  unfolding create_temp_object
  write_temp_object storage key reader = do
    temp_object ← create_temp_object storage key
    holding temp_object (write_temp_file storage.fsync_mode temp_object.temp_path reader)
    pure temp_object

  unfoldable pub commit_object : ObjectStorage → TempObject → Io StorageError (Unit {0})
  commit_object storage temp_object = holding temp_object do
    final_parent ← lift (ok_or (parent temp_object.final_path) invalid_path)
    try_io (fs.create_dir_all final_parent)
    try_io (fs.rename temp_object.temp_path temp_object.final_path)
    if beq storage.fsync_mode (bytes "full") then try_io (fs.sync_dir final_parent) else pure tt

  unfoldable pub put_object : ObjectStorage → Bytes → Reader → Io StorageError (Unit {0})
  put_object storage key reader = do
    temp_object ← write_temp_object storage key reader
    commit_object storage temp_object

  -- The error of a call on the file of `key`.
  unfoldable pub object_error : Bytes → IoError → StorageError
  object_error key (not_found m) = missing key
  object_error key (other m) = io (other m)

  abbrev pub opened : Bytes → FilePath → Result IoError (Unit {0}) → Result StorageError FilePath
  opened key path (ok u) = ok path
  opened key path (err e) = err (object_error key e)

  abbrev pub open_object :
      Bytes → fs.State → Result StorageError FilePath → Result StorageError FilePath
  open_object key s (err e) = err e
  open_object key s (ok path) = opened key path (fs.open_file path s)

  -- The path of the file that is opened.
  unfoldable pub get_object : ObjectStorage → Bytes → fs.State → Result StorageError FilePath
  unfolding object_error
  get_object storage key s = open_object key s (object_path storage.layout key)

  unfoldable pub delete_object : ObjectStorage → Bytes → Io StorageError (Unit {0})
  delete_object storage key = do
    path ← lift (object_path storage.layout key)
    or_else (object_error key) (fs.remove_file path)

  -- Reads the file until a read gives nothing, each read at the end of what was read before. None
  -- if the fuel runs out.
  unfoldable pub read_to_end : ℕ → FilePath → Bytes → fs.State → Option (Result IoError Bytes)
  read_to_end zero p got s = none
  read_to_end (suc fuel) p got s = elim (fs.read p (length got) buffer_size s) [
    | err e ↦ some (err e)
    | ok [] ↦ some (ok got)
    | ok (b ∷ bs) ↦ read_to_end fuel p (got ++ b ∷ bs) s
  ]

  -- The end of `object_info`, once the file was read.
  abbrev pub info_of_read :
      StorageLayout → ℕ → Option (Result IoError Bytes) → Option (Result StorageError (ℕ × Bytes))
  info_of_read layout size none = none
  info_of_read layout size (some (err e)) = some (err (io e))
  info_of_read layout size (some (ok body)) = some (ok (size, layout.sha256 body))

  unfoldable pub object_info :
      ObjectStorage → ℕ → Bytes → fs.State → Option (Result StorageError (ℕ × Bytes))
  unfolding object_error
  object_info storage fuel key s = elim (object_path storage.layout key) [
    | err e ↦ some (err e)
    | ok path ↦ elim (fs.file_length path s) [
      | err e ↦ some (err (object_error key e))
      | ok size ↦ elim (fs.open_file path s) [
        | err e ↦ some (err (io e))
        | ok _ ↦ info_of_read storage.layout size (read_to_end fuel path [] s)
      ]
    ]
  ]

  unfoldable pub remove_if_exists : FilePath → Io StorageError Bool
  remove_if_exists path s =
      let (r, s') = fs.remove_file path s in
      elim r [
        | ok _ ↦ (ok true, s')
        | err (not_found m) ↦ (ok false, s')
        | err (other m) ↦ (err (io (other m)), s')
      ]
