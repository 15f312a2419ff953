-- ===== src/Metadata/StateMachine/Locks.antt =====
-- The locks along a history of Raft commands of any kind, failures included.
use save.Prelude.{
  Bytes, ◌≡◌, ◌⊎◌, inl, inr, Bool, true, false, arith, beq, beq_iff, if◌then◌else◌, refl, ap,
  Option-cases,
}
use save.Prelude.Result.{ok, err, Result-cases, map_err_ok}
use save.Rocksdb.{default_cf}
use save.Metadata.{Env, Db, DateTime, ObjectMetadata}
use save.Metadata.Database.{stored-put_any, stored-delete_any}
use save.Metadata.Bucket
use save.Metadata.Bucket.{bucket_key, new_bucket}
use save.Metadata.Object
use save.Metadata.Object.{db_key}
use save.Metadata.Lock
use save.Metadata.Lock.{lock_key}
use save.Metadata.Lock.Progress.{Answers, acquire_lock_succeeds, release_lock_succeeds}
use save.Metadata.Lock.State.{LockView, acquired, released}
use save.Metadata.Lock.Laws.{
  lock_at, lock_at-acquire_lock_any, lock_at-release_lock_any, acquire_lock_lem, release_lock_lem,
}
use save.Metadata.StateMachine.{
  Command, create_bucket, delete_bucket, put_object_metadata, delete_object_metadata, acquire_lock,
  release_lock, apply_command, StorageError,
}

-- What a command makes of the lock under the database key `j`.
unfoldable pub lock_step : Command → Bytes → LockView → LockView
lock_step (acquire_lock b k t h) j v = if beq (lock_key b k) j then (acquired v t h).0 else v
lock_step (release_lock b k h) j v = if beq (lock_key b k) j then released v h else v
lock_step _ j v = v

abbrev pub on_locks : Command → Bool
on_locks (acquire_lock b k t h) = true
on_locks (release_lock b k h) = true
on_locks _ = false

module _ ⦃env : Env⦄ (d : Db) (bucket key : Bytes) where
  other_put :
      (k v : Bytes)
      → beq k (lock_key bucket key) ≡ false
      → lock_at (lock_key bucket key) (env.rocksdb.put d default_cf k v).1
        ≡ lock_at (lock_key bucket key) d
  other_put k v ne = ground (arith, stored-put_any d k v (lock_key bucket key))

  other_delete :
      (k : Bytes)
      → beq k (lock_key bucket key) ≡ false
      → lock_at (lock_key bucket key) (env.rocksdb.delete d default_cf k).1
        ≡ lock_at (lock_key bucket key) d
  other_delete k ne = ground (arith, stored-delete_any d k (lock_key bucket key))

  bucket_key_other : (name : Bytes) → beq (bucket_key name) (lock_key bucket key) ≡ false
  unfolding bucket_key lock_key beq
  bucket_key_other name = refl

  db_key_other : (b k : Bytes) → beq (db_key b k) (lock_key bucket key) ≡ false
  unfolding db_key lock_key beq
  db_key_other b k = refl

  create_bucket_other :
      (now : DateTime) (name : Bytes)
      → lock_at (lock_key bucket key) (Bucket.create_bucket now name d).1
        ≡ lock_at (lock_key bucket key) d
  unfolding Bucket.create_bucket
  create_bucket_other now name =
      elim (Option-cases (env.bucket_codec.encode (new_bucket now name))) [
        | inl e ↦ ground arith
        | inr (v, e) ↦ ground (arith, other_put (bucket_key name) v (bucket_key_other name))
      ]

  delete_bucket_other :
      (name : Bytes)
      → lock_at (lock_key bucket key) (Bucket.delete_bucket name d).1
        ≡ lock_at (lock_key bucket key) d
  unfolding Bucket.delete_bucket
  delete_bucket_other name = ground (arith, other_delete (bucket_key name) (bucket_key_other name))

  put_object_other :
      (m : ObjectMetadata)
      → lock_at (lock_key bucket key) (Object.put_object_metadata m d).1
        ≡ lock_at (lock_key bucket key) d
  unfolding Object.put_object_metadata
  put_object_other m = elim (Option-cases (env.object_codec.encode m)) [
    | inl e ↦ ground arith
    | inr (v, e) ↦ ground (arith, other_put (db_key m.bucket m.key) v (db_key_other m.bucket m.key))
  ]

  delete_object_other :
      (b k : Bytes)
      → lock_at (lock_key bucket key) (Object.delete_object_metadata b k d).1
        ≡ lock_at (lock_key bucket key) d
  unfolding Object.delete_object_metadata
  delete_object_other b k = ground (arith, other_delete (db_key b k) (db_key_other b k))

  -- Whatever a command reports.
  pub lock_at-apply_command_any :
      (now : DateTime) (c : Command)
      → (lock_at (lock_key bucket key) (apply_command now c d).1
          ≡ lock_step c (lock_key bucket key) (lock_at (lock_key bucket key) d))
        ⊎ (lock_at (lock_key bucket key) (apply_command now c d).1
            ≡ lock_at (lock_key bucket key) d)
  unfolding apply_command lock_step
  lock_at-apply_command_any now (create_bucket b) = ground (arith, create_bucket_other now b.name)
  lock_at-apply_command_any now (delete_bucket n) = ground (arith, delete_bucket_other n)
  lock_at-apply_command_any now (put_object_metadata m) = ground (arith, put_object_other m)
  lock_at-apply_command_any now (delete_object_metadata b k) =
      ground (arith, delete_object_other b k)
  lock_at-apply_command_any now (acquire_lock b k t h) = ground (
    arith,
    lock_at-acquire_lock_any b k d (lock_key bucket key) h t,
    beq_iff (lock_key b k) (lock_key bucket key),
  )
  lock_at-apply_command_any now (release_lock b k h) = ground (
    arith,
    lock_at-release_lock_any b k d (lock_key bucket key) h,
    beq_iff (lock_key b k) (lock_key bucket key),
  )

  -- A command that reports a success has made of each lock what `lock_step` says.
  lock_at-apply_command_ok :
      (now : DateTime) (c : Command)
      → (apply_command now c d).0 ≡ ok tt
      → lock_at (lock_key bucket key) (apply_command now c d).1
        ≡ lock_step c (lock_key bucket key) (lock_at (lock_key bucket key) d)
  unfolding apply_command lock_step
  lock_at-apply_command_ok now (create_bucket b) e = ground (arith, create_bucket_other now b.name)
  lock_at-apply_command_ok now (delete_bucket n) e = ground (arith, delete_bucket_other n)
  lock_at-apply_command_ok now (put_object_metadata m) e = ground (arith, put_object_other m)
  lock_at-apply_command_ok now (delete_object_metadata b k) e =
      ground (arith, delete_object_other b k)
  lock_at-apply_command_ok now (acquire_lock b k t h) e =
      elim (Result-cases (Lock.acquire_lock b k t h d).0) [
        | inl (r, f) ↦ ground (
          arith,
          f,
          acquire_lock_lem b k d (lock_key bucket key) h t r (Lock.acquire_lock b k t h d).1
              (ap (λ x. (x, (Lock.acquire_lock b k t h d).1)) f),
          beq_iff (lock_key b k) (lock_key bucket key),
        )
        | inr (x, f) ↦ absurd (ground (arith, f))
      ]
  lock_at-apply_command_ok now (release_lock b k h) e = ground (
    arith,
    release_lock_lem b k d (lock_key bucket key) h (Lock.release_lock b k h d).1 (
        ap (λ x. (x, (Lock.release_lock b k h d).1))
          (map_err_ok _ (Lock.release_lock b k h d).0 tt e)),
    beq_iff (lock_key b k) (lock_key bucket key),
  )

  lock_command_succeeds :
      (now : DateTime) (c : Command)
      → on_locks c ≡ true
      → Answers d
      → (apply_command now c d).0 ≡ ok tt
  unfolding apply_command
  lock_command_succeeds now (acquire_lock b k t h) l a =
      let (r, e) = acquire_lock_succeeds b k h t d a in ground (arith, e)
  lock_command_succeeds now (release_lock b k h) l a =
      ground (arith, release_lock_succeeds b k h d a)
  lock_command_succeeds now _ l a = absurd (ground (arith, l))

  -- A command that succeeds makes of each lock what `lock_step` says: one on locks does so to its own
  -- lock, and no other command changes any. A command that returns an error has done the same or has
  -- left the lock; one on locks does so only if a call on the database or its serialisation failed.
  pub lock_at-apply_command :
      (now : DateTime) (c : Command)
      → (((apply_command now c d).0 ≡ ok tt)
          × (lock_at (lock_key bucket key) (apply_command now c d).1
              ≡ lock_step c (lock_key bucket key) (lock_at (lock_key bucket key) d)))
        ⊎ ((e : StorageError) × ((apply_command now c d).0 ≡ err e)
            × (¬ ((on_locks c ≡ true) × Answers d))
            × ((lock_at (lock_key bucket key) (apply_command now c d).1
                  ≡ lock_step c (lock_key bucket key) (lock_at (lock_key bucket key) d))
                ⊎ (lock_at (lock_key bucket key) (apply_command now c d).1
                    ≡ lock_at (lock_key bucket key) d)))
  lock_at-apply_command now c = elim (Result-cases (apply_command now c d).0) [
    | inl (u, e) ↦ inl (e, lock_at-apply_command_ok now c e)
    | inr (x, e) ↦
        inr
          (x, e, λ (l, a). cc (e, lock_command_succeeds now c l a), lock_at-apply_command_any now c)
  ]
