-- ===== src/Storage/Service.antt =====
-- crates/save-storage/src/replication/service.rs: the requests that a node answers for the other
-- nodes. `Instant::now()` is an argument, in seconds. A response holds what its message is made of.
-- The storage behind the service is `ObjectStorage`, the one implementation of `ReplicationStorage`.
pub mod Streams
pub mod Uploads
pub mod Commits
pub mod Conflicts
use save.Prelude.{
  ℕ, zero, suc, ◌+◌, ◌-◌, ◌%◌, ◌^◌, Bytes, bytes, List, [], ◌∷◌, ◌++◌, Option, none, some, Bool,
  true, false, ◌&&◌, not, beq, leb, if◌then◌else◌, length,
}
use save.Prelude.Result.{Result, ok, err, map_err}
use save.Prelude.Decimal.{display}
use save.Prelude.Dict
use save.Prelude.Dict.{Dict}
use save.Storage.{
  FilePath, StorageError, missing, invalid_key, invalid_path, quorum_not_achieved, tls, IoError, io,
  FileSystem, Io, ◌>>=◌, ◌>>◌, pure, fail, or_else, lift,
}
use save.Storage.Objects.{
  TempObject, ObjectStorage, slice, put_object, create_temp_object, write_temp_object,
  commit_object, get_object, delete_object, object_info, drop, holding, buffer_size,
}

pub record PendingPrepare : Type 0 where
  pub temp_object : TempObject
  pub checksum : Bytes
  pub created_at : ℕ

-- Why a request failed.
pub data ServiceError : Type 0 where
  checksum_mismatch : Bytes → Bytes → ServiceError
  storage : StorageError → ServiceError
  no_chunks missing_key : ServiceError
  temp_object_failed : StorageError → ServiceError
  temp_file_failed write_failed flush_failed : IoError → ServiceError
  no_pending_prepare : Bytes → ServiceError

-- Requests and responses.
pub record WriteObjectRequest : Type 0 where
  pub key : Bytes
  pub body : Bytes
  pub checksum : Bytes

pub record PrepareObjectRequest : Type 0 where
  pub key : Bytes
  pub body : Bytes
  pub checksum : Bytes
  pub request_id : ℕ

pub record PrepareChunkRequest : Type 0 where
  pub key : Bytes
  pub chunk : Bytes
  pub is_last : Bool
  pub checksum : Bytes
  pub request_id : ℕ

pub record ReadObjectResponse : Type 0 where
  pub chunk : Bytes
  pub is_last : Bool
  pub total_size : ℕ

pub record ObjectExistsResponse : Type 0 where
  pub exists : Bool
  pub size : ℕ
  pub checksum : Bytes

pub record DeleteObjectResponse : Type 0 where
  pub result : Result ServiceError (Unit {0})
  pub was_present : Bool

abbrev pub Pending : Type 0
Pending = Dict PendingPrepare

-- `format!("{}:{}", request_id, key)`
unfoldable pub temp_id : ℕ → Bytes → Bytes
temp_id request_id key = display request_id ++ b':' ∷ key

unfoldable pub verify_checksum : (Bytes → Bytes) → Bytes → Bytes → Result ServiceError (Unit {0})
verify_checksum sha256 expected body =
    if not (beq expected []) && not (beq (sha256 body) expected)
    then err (checksum_mismatch expected (sha256 body))
    else ok tt

abbrev pub is_empty {ℓ} : {A : Type ℓ} → List A → Bool
is_empty [] = true
is_empty (x ∷ xs) = false

abbrev is_ok {ℓ κ} : {E : Type κ} {A : Type ℓ} → Result E A → Bool
is_ok (ok a) = true
is_ok (err e) = false

abbrev pub next_chunk : Bytes → ReadObjectResponse
next_chunk b = record { chunk = b; is_last = false; total_size = 0 }

abbrev pub last_chunk : Bytes → ReadObjectResponse
last_chunk b = record { chunk = b; is_last = true; total_size = 0 }

-- `chunks.first_mut()` and `chunks.last_mut()`
unfoldable pub set_total : ℕ → List ReadObjectResponse → List ReadObjectResponse
set_total total [] = []
set_total total (c ∷ chunks) = record c { total_size = total } ∷ chunks

unfoldable pub mark_last : List ReadObjectResponse → List ReadObjectResponse
mark_last [] = []
mark_last (c ∷ []) = record c { is_last = true } ∷ []
mark_last (c ∷ d ∷ chunks) = c ∷ mark_last (d ∷ chunks)

abbrev answer_delete : Result StorageError (Unit {0}) → Bool → DeleteObjectResponse
answer_delete (ok u) was_present = record { result = ok tt; was_present = was_present }
answer_delete (err (missing key)) was_present = record { result = ok tt; was_present = false }
answer_delete (err (io e)) was_present = record {
  result = err (storage (io e));
  was_present = was_present;
}
answer_delete (err (invalid_key e)) was_present = record {
  result = err (storage (invalid_key e));
  was_present = was_present;
}
answer_delete (err invalid_path) was_present = record {
  result = err (storage invalid_path);
  was_present = was_present;
}
answer_delete (err (quorum_not_achieved a r)) was_present = record {
  result = err (storage (quorum_not_achieved a r));
  was_present = was_present;
}
answer_delete (err (tls m)) was_present = record {
  result = err (storage (tls m));
  was_present = was_present;
}

module _ ⦃fs : FileSystem⦄ where
  -- A request that uses the pending prepares too.
  abbrev pub Serve : Type 0 → Type 0
  Serve A = Pending → fs.State → A × Pending × fs.State

  -- The number of bytes written, or why the write failed.
  unfoldable pub write_object : ObjectStorage → WriteObjectRequest → Io ServiceError ℕ
  unfolding verify_checksum
  write_object o req = do
    lift (verify_checksum o.layout.sha256 req.checksum req.body)
    or_else storage (put_object o req.key (slice req.body))
    pure (length req.body)

  -- The pending prepare that was there under the id goes out of scope.
  abbrev drop_displaced : Option PendingPrepare → fs.State → fs.State
  drop_displaced none s = s
  drop_displaced (some p) s = drop p.temp_object s

  -- `pending_prepares.insert(temp_id, pending)`, whose result is dropped.
  unfoldable pub insert_pending : Bytes → PendingPrepare → Pending → fs.State → Pending × fs.State
  insert_pending id p pending s =
      (Dict.insert id p pending, drop_displaced (Dict.lookup id pending) s)

  abbrev pub answer_prepare :
      Bytes → Bytes → ℕ → Result ServiceError TempObject → Serve (Result ServiceError Bytes)
  answer_prepare id checksum now (err e) pending s = (err e, pending, s)
  answer_prepare id checksum now (ok t) pending s =
      let p : PendingPrepare = record { temp_object = t; checksum = checksum; created_at = now } in
      let (pending', s') = insert_pending id p pending s in (ok id, pending', s')

  abbrev pub receive_object : ObjectStorage → PrepareObjectRequest → Io ServiceError TempObject
  receive_object o req = do
    lift (verify_checksum o.layout.sha256 req.checksum req.body)
    or_else storage (write_temp_object o req.key (slice req.body))

  -- The temporary id, or why the prepare failed.
  unfoldable pub prepare_object :
      ObjectStorage → ℕ → PrepareObjectRequest → Serve (Result ServiceError Bytes)
  unfolding verify_checksum insert_pending
  prepare_object o now req pending s =
      let (r, s') = receive_object o req s in
      answer_prepare (temp_id req.request_id req.key) req.checksum now r pending s'

  -- An empty chunk is not written.
  abbrev pub write_chunk : TempObject → Bytes → Io ServiceError (Unit {0})
  write_chunk t [] = pure tt
  write_chunk t (b ∷ bs) = or_else write_failed (fs.write_all t.temp_path (b ∷ bs))

  -- The loop over the chunks: the bytes that were hashed, and the checksum to expect.
  unfoldable pub write_chunks :
      TempObject → List PrepareChunkRequest → Bytes → Bytes → Io ServiceError (Bytes × Bytes)
  write_chunks t [] hashed expected = pure (hashed, expected)
  write_chunks t (c ∷ chunks) hashed expected =
      let expected' = if c.is_last && not (beq c.checksum []) then c.checksum else expected in
      write_chunk t c.chunk >> write_chunks t chunks (hashed ++ c.chunk) expected'

  -- `stream_prepare_object` once the temporary object is there: the checksum that was expected.
  abbrev pub fill_temp_object :
      ObjectStorage → TempObject → List PrepareChunkRequest → Io ServiceError Bytes
  fill_temp_object o t chunks = do
    or_else temp_file_failed (fs.create t.temp_path)
    written ← write_chunks t chunks [] []
    or_else flush_failed (fs.flush t.temp_path)
    lift (verify_checksum o.layout.sha256 written.1 written.0)
    pure written.1

  abbrev pub answer_stream :
      Bytes → ℕ → TempObject → Result ServiceError Bytes → Serve (Result ServiceError Bytes)
  answer_stream id now t (err e) pending s = (err e, pending, s)
  answer_stream id now t (ok expected) pending s = answer_prepare id expected now (ok t) pending s

  abbrev pub fill_or_fail :
      ObjectStorage
      → ℕ
      → PrepareChunkRequest
      → List PrepareChunkRequest
      → Result StorageError TempObject
      → Serve (Result ServiceError Bytes)
  fill_or_fail o now c chunks (err e) pending s = (err (temp_object_failed e), pending, s)
  fill_or_fail o now c chunks (ok t) pending s =
      let (r, s') = holding t (fill_temp_object o t (c ∷ chunks)) s in
      answer_stream (temp_id c.request_id c.key) now t r pending s'

  unfoldable pub stream_prepare_object :
      ObjectStorage → ℕ → List PrepareChunkRequest → Serve (Result ServiceError Bytes)
  unfolding insert_pending write_chunks
  stream_prepare_object o now [] pending s = (err no_chunks, pending, s)
  stream_prepare_object o now (c ∷ chunks) pending s =
      if beq c.key []
      then (err missing_key, pending, s)
      else let (r, s') = create_temp_object o c.key s in fill_or_fail o now c chunks r pending s'

  abbrev pub commit_pending :
      ObjectStorage
      → Bytes
      → Option PendingPrepare
      → fs.State
      → Result ServiceError (Unit {0}) × fs.State
  commit_pending o id none s = (err (no_pending_prepare id), s)
  commit_pending o id (some p) s = or_else storage (commit_object o p.temp_object) s

  -- `commit_object` of the service.
  unfoldable pub commit_prepared : ObjectStorage → Bytes → Serve (Result ServiceError (Unit {0}))
  commit_prepared o id pending s =
      let (r, s') = commit_pending o id (Dict.lookup id pending) s in
      (r, Dict.remove id pending, s')

  -- `abort_object`, which always succeeds.
  unfoldable pub abort_prepared : Bytes → Serve (Result ServiceError (Unit {0}))
  abort_prepared id pending s =
      (ok tt, Dict.remove id pending, drop_displaced (Dict.lookup id pending) s)

  -- The loop of `read_object`: the sizes of the chunks add up in `total`. None if the fuel runs out.
  unfoldable pub read_loop :
      ℕ → FilePath → ℕ → List ReadObjectResponse → fs.State → Option (List ReadObjectResponse × ℕ)
  read_loop zero p total chunks s = none
  read_loop (suc fuel) p total chunks s = elim (fs.read p total buffer_size s) [
    | err e ↦ some (chunks, total)
    | ok [] ↦ some ((if is_empty chunks then last_chunk [] ∷ [] else chunks), total)
    | ok (b ∷ bs) ↦
        read_loop fuel p (total + length (b ∷ bs)) (chunks ++ next_chunk (b ∷ bs) ∷ []) s
  ]

  unfoldable pub read_object :
      ObjectStorage → ℕ → Bytes → fs.State → Option (Result StorageError (List ReadObjectResponse))
  unfolding read_loop
  read_object o fuel key s = elim (get_object o key s) [
    | err e ↦ some (err e)
    | ok path ↦ elim (read_loop fuel path 0 [] s) [
      | none ↦ none
      | some (chunks, total) ↦ some (ok (mark_last (set_total total chunks)))
    ]
  ]

  unfoldable pub object_exists : ObjectStorage → ℕ → Bytes → fs.State → Option ObjectExistsResponse
  object_exists o fuel key s = elim (object_info o fuel key s) [
    | none ↦ none
    | some (ok (size, checksum)) ↦ some (record { exists = true; size = size; checksum = checksum })
    | some (err e) ↦ some (record { exists = false; size = 0; checksum = [] })
  ]

  -- `delete_object` of the service.
  unfoldable pub delete_stored : ObjectStorage → Bytes → fs.State → DeleteObjectResponse × fs.State
  delete_stored o key s =
      let was_present = is_ok (get_object o key s) in
      let (r, s') = delete_object o key s in (answer_delete r was_present, s')

  -- Files of the entries that are not kept go away with them.
  unfoldable pub cleanup_stale_prepares : ℕ → ℕ → Serve ℕ
  cleanup_stale_prepares now max_age [] s = (0, [], s)
  cleanup_stale_prepares now max_age ((id, p) ∷ pending) s =
      let stale = leb max_age (now - p.created_at) in
      let (n, kept, s') =
        cleanup_stale_prepares now max_age pending (if stale then drop p.temp_object s else s) in
      if stale then (suc n, kept, s') else (n, (id, p) ∷ kept, s')
