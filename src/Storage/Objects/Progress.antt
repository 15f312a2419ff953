-- ===== src/Storage/Objects/Progress.antt =====
-- A put on a file system whose calls succeed where they can.
use save.Prelude.{Bytes, ◌≡◌}
use save.Storage.{FilePath, FileSystem, StorageError, Io, ◌>>◌, pure}
use save.Storage.Layout.{object_path_from_id, temp_path_from_id, temp_dir, object_dir}
use save.Storage.Objects.{TempObject, ObjectStorage, Reader, write_temp_file, holding}
use save.Storage.Objects.Calls.{Here, Dir, Clear, Works}

module _ ⦃fs : FileSystem⦄ (storage : ObjectStorage) (id : Bytes) where
  abbrev temp_path : FilePath
  temp_path = temp_path_from_id storage.layout id

  abbrev final_path : FilePath
  final_path = object_path_from_id storage.layout id

  -- The object can be moved to its place, once its directory is made.
  abbrev Rest : fs.State → Type 0
  Rest s = Clear (object_dir storage.layout id) s × (¬ Dir final_path s)

  -- No file is in the way of a directory, and no directory in the way of a file.
  abbrev pub Unobstructed : fs.State → Type 0
  Unobstructed s = Clear (temp_dir storage.layout) s × (¬ Dir temp_path s) × Rest s

  abbrev Made : fs.State → Type 0
  Made s = Dir (temp_dir storage.layout) s × (¬ Dir temp_path s) × Rest s

  abbrev Filled : fs.State → Type 0
  Filled s = Here temp_path s × Rest s

module _ ⦃fs : FileSystem⦄ (works : Works) (storage : ObjectStorage) (id : Bytes) where
  abbrev fill : Reader → TempObject → Io StorageError TempObject
  fill reader t = holding t (write_temp_file storage.fsync_mode t.temp_path reader) >> pure t

  -- The state once the directory of the object is there.
  abbrev Placed : FilePath → fs.State → Type 0
  Placed dir s =
      (dir ≡ object_dir storage.layout id)
      × Dir dir s
      × Here (temp_path storage id) s
      × (¬ Dir (final_path storage id) s)
