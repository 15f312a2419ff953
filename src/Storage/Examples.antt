-- ===== src/Storage/Examples.antt =====
-- The theorems on the storage at files in memory, and tests.
use save.Prelude.{
  ℕ, Bytes, bytes, List, [], ◌∷◌, ◌++◌, none, some, true, false, ◌≡◌, ◌⊎◌, refl, arith, length, beq,
  contains, starts_with, ends_with,
}
use save.Prelude.Result.{ok, err}
use save.Prelude.Decimal.{display}
use save.Prelude.Dict
use save.Validation.{validate_object_key}
use save.Storage.{FilePath, IoError, StorageError}
use save.Storage.Layout.{
  StorageLayout, object_id, object_path, object_path_from_id, temp_path_from_id,
}
use save.Storage.Objects.{
  ObjectStorage, temp_of, slice, put_object, write_temp_object, create_temp_object, write_pieces,
  commit_object, get_object, delete_object, object_info, object_error, drop, buffer_size,
}
use save.Storage.Objects.Atomicity.{put_object_atomic}
use save.Storage.Objects.Reading.{InfoFails, object_info_lem}
use save.Storage.Tree.{Tree}
use save.Storage.Memory.{Files, memory_files, memory_exists, memory_removes, put, path_beq}
use save.Storage.Service.{
  Pending, ServiceError, PrepareObjectRequest, PrepareChunkRequest, ReadObjectResponse, temp_id,
  verify_checksum, prepare_object, commit_prepared, stream_prepare_object, write_chunks,
  insert_pending, read_object,
}
use save.Storage.Service.Conflicts.{
  commit_prepared-prepare_object, commit_first_swapped, commit_first_repeated, prepare_both,
  commit_first, commit_second,
}
use save.Storage.Service.Streams.{body_of, total_of, read_object_lem}
use save.Storage.Service.Uploads.{stream_prepare_object_lem}

-- A hash that leaves the texts as they are.
abbrev layout : StorageLayout
layout = record { base_path = bytes "data" ∷ []; sha256 = λ b. b }

abbrev disk : ObjectStorage
disk = record { layout = layout; fsync_mode = bytes "data" }

abbrev key : Bytes
key = bytes "b/k"

abbrev object_file : FilePath
object_file = object_path_from_id layout key

abbrev no_files : Files
no_files = λ p. none

abbrev with_object : Files
with_object =
    put (bytes "data" ∷ bytes "objects" ∷ bytes "b/" ∷ key ∷ []) (some (bytes "old")) no_files

abbrev path : FilePath
path = bytes "data" ∷ bytes "objects" ∷ bytes "b/" ∷ key ∷ []

key_id : object_id layout key ≡ ok key
unfolding object_id validate_object_key beq contains starts_with ends_with
key_id = refl

put_object_run : (put_object disk key (slice (bytes "new")) with_object).0 ≡ ok tt
unfolding put_object write_temp_object create_temp_object write_pieces commit_object object_id
    object_path_from_id temp_path_from_id validate_object_key beq contains starts_with ends_with
    path_beq
put_object_run = refl

deletes : (delete_object disk key with_object).0 ≡ ok tt
unfolding delete_object object_path object_id object_path_from_id validate_object_key beq contains
    starts_with ends_with path_beq object_error
deletes = refl

opens : get_object disk key with_object ≡ ok path
unfolding get_object object_path object_id object_path_from_id validate_object_key beq contains
    starts_with ends_with path_beq object_error
opens = refl

there : with_object path ≡ some (bytes "old")
unfolding path_beq beq
there = refl

there_too : with_object object_file ≡ some (bytes "old")
unfolding path_beq beq object_path_from_id
there_too = refl

put_object_atomic_example :
    ((memory_files.contents (put_object disk key (slice (bytes "new")) with_object).1 object_file
        ≡ memory_files.contents with_object object_file)
      × (e : StorageError) × ((put_object disk key (slice (bytes "new")) with_object).0 ≡ err e))
    ⊎ ((memory_files.contents (put_object disk key (slice (bytes "new")) with_object).1 object_file
          ≡ some (bytes "new"))
        × ((slice (bytes "new")).failure ≡ none)
        × (((put_object disk key (slice (bytes "new")) with_object).0 ≡ ok tt)
            ⊎ (beq (bytes "data") (bytes "full") ≡ true)))
put_object_atomic_example = put_object_atomic disk key (slice (bytes "new")) key with_object key_id

-- No file and no directory.
abbrev empty_tree : Tree
empty_tree = record { files = no_files; dirs = λ p. false }

object_info_lem_example :
    (object_info disk 4 key with_object ≡ some (ok (3, bytes "old")))
    ⊎ InfoFails disk key key with_object object_file
        (bytes "old")
        (object_info disk 4 key with_object)
object_info_lem_example =
    object_info_lem disk key key with_object 4 (bytes "old") key_id there_too (omega arith)

read_object_lem_example :
    (chunks : List ReadObjectResponse) × (left : Bytes) × (read_object disk 4 key with_object
      ≡ some (ok chunks))
    × (bytes "old" ≡ body_of chunks ++ left)
    × (total_of chunks ≡ length (body_of chunks))
    × ((left ≡ [])
        ⊎ ((n : ℕ) × (e : IoError) × (memory_files.read path n buffer_size with_object ≡ err e)))
read_object_lem_example =
    read_object_lem disk key with_object path (bytes "old") 4 opens there (omega arith)

-- Two requests for one key, and a request that came before.
abbrev one : PrepareObjectRequest
one = record { key = key; body = bytes "one"; checksum = []; request_id = 1 }

abbrev two : PrepareObjectRequest
two = record { key = key; body = bytes "two"; checksum = []; request_id = 2 }

abbrev chunk : Bytes → PrepareChunkRequest
chunk b = record { key = key; chunk = b; is_last = false; checksum = []; request_id = 1 }

abbrev nothing : Pending
nothing = []

-- How the requests run: the first, the second after it, and the commit of the first. Then the first
-- again after itself, and the first in two chunks.
runs :
    ((prepare_object disk 0 one nothing with_object).0 ≡ ok (bytes "1:b/k"))
    × ((prepare_both disk key 0 one two nothing with_object).0 ≡ ok (bytes "2:b/k"))
    × ((commit_first disk key 0 one two nothing with_object (bytes "1:b/k")).0 ≡ ok tt)
    × ((prepare_both disk key 0 one one nothing with_object).0 ≡ ok (bytes "1:b/k"))
    × ((stream_prepare_object disk 0
          (chunk (bytes "o") ∷ chunk (bytes "ne") ∷ [])
          nothing
          with_object).0
        ≡ ok (bytes "1:b/k"))
    × (Dict.lookup (temp_id 1 key) nothing ≡ none)
    × (Dict.lookup (temp_id 2 key) (prepare_object disk 0 one nothing with_object).1 ≡ none)
unfolding prepare_object stream_prepare_object write_chunks verify_checksum insert_pending temp_id
    display write_temp_object create_temp_object write_pieces object_id object_path_from_id
    temp_path_from_id validate_object_key beq contains starts_with ends_with path_beq Dict.lookup
    Dict.insert drop commit_prepared commit_object
runs = (refl, refl, refl, refl, refl, refl, refl)

commit_prepared-prepare_object_example :
    let first = prepare_object disk 0 one nothing with_object in
    let second = commit_prepared disk (bytes "1:b/k") first.1 first.2 in
    (memory_files.contents first.2 object_file ≡ memory_files.contents with_object object_file)
    × (((memory_files.contents second.2 object_file ≡ some (bytes "one"))
          × ((second.0 ≡ ok tt) ⊎ (beq (bytes "data") (bytes "full") ≡ true)))
        ⊎ ((memory_files.contents second.2 object_file
              ≡ memory_files.contents with_object object_file)
            × (e : ServiceError) × (second.0 ≡ err e)))
commit_prepared-prepare_object_example =
    commit_prepared-prepare_object disk key 0 one nothing with_object (bytes "1:b/k") key_id runs.5
      runs.0

commit_first_swapped_example :
    (memory_files.contents
        (commit_first disk key 0 one two nothing with_object (bytes "1:b/k")).2
        object_file
      ≡ some (bytes "two"))
    × ((e : ServiceError) × ((commit_second disk key 0 one two nothing with_object
            (bytes "1:b/k")
            (bytes "2:b/k")).0
          ≡ err e))
commit_first_swapped_example =
    commit_first_swapped disk key 0 one two nothing with_object (bytes "1:b/k") (bytes "2:b/k")
      key_id key_id runs.0 runs.1 runs.5 runs.6 runs.2

commit_first_repeated_example :
    (e : ServiceError) × ((commit_first disk key 0 one one nothing with_object (bytes "1:b/k")).0
      ≡ err e)
commit_first_repeated_example =
    commit_first_repeated disk key 0 one one nothing with_object (bytes "1:b/k") (bytes "1:b/k")
      key_id key_id runs.0 runs.3 runs.5 refl memory_exists memory_removes

stream_prepare_object_lem_example :
    let end =
      stream_prepare_object disk 0
        (chunk (bytes "o") ∷ chunk (bytes "ne") ∷ [])
        nothing
        with_object in
    (bytes "1:b/k" ≡ temp_id 1 key)
    × ((expected : Bytes) × (verify_checksum layout.sha256 expected (bytes "one") ≡ ok tt)
        × (memory_files.contents end.2 (temp_path_from_id layout key) ≡ some (bytes "one"))
        × (Dict.lookup (bytes "1:b/k") end.1
            ≡ some
                (record { temp_object = temp_of layout key; checksum = expected; created_at = 0 })))
stream_prepare_object_lem_example =
    stream_prepare_object_lem disk 0 (chunk (bytes "o")) (chunk (bytes "ne") ∷ []) nothing key
      with_object (bytes "1:b/k") key_id runs.5 runs.4
