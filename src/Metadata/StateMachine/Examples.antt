-- ===== src/Metadata/StateMachine/Examples.antt =====
-- The theorems on locks and on Raft commands at concrete databases and histories.
use save.Prelude.{
  Bytes, bytes, List, [], ◌∷◌, none, true, false, ◌≡◌, ◌≢◌, ◌⊎◌, refl, beq, blt, arith,
  if◌then◌else◌, starts_with, ends_with,
}
use save.Prelude.Result.{ok, err}
use save.Rocksdb.{default_cf}
use save.Rocksdb.SortedMap.{lookup}
use save.Rocksdb.Memory.{put_w, delete_w, mem_get, mem_put, mem_delete, contents}
use save.Validation.{validate_bucket_name}
use save.Metadata.{Db, BucketInfo, DateTime, read, write, LockHolder, stored}
use save.Metadata.Fixture.{env, empty}
use save.Metadata.Bucket
use save.Metadata.Bucket.{bucket_key, new_bucket}
use save.Metadata.Lock
use save.Metadata.Lock.{lock_key, same_holder, is_held_by, can_acquire, compatible}
use save.Metadata.Lock.State.{IsLock, acquired, released}
use save.Metadata.Lock.Laws.{lock_at, acquire_lock_lem, release_lock_lem}
use save.Metadata.StateMachine.{
  Command, create_bucket, acquire_lock, release_lock, apply_command, apply_all, StorageError,
}
use save.Metadata.StateMachine.Exclusion.{written_by, apply_all-IsLock, write_lock_excludes}
use save.Metadata.StateMachine.Laws.{create_bucket_replicas_differ}
use save.Metadata.StateMachine.Locks.{lock_step, on_locks, lock_at-apply_command}
use save.Metadata.Lock.Progress.{Answers}

abbrev alice : LockHolder
alice = record { node_id = 1; lock_id = 0 }

abbrev bob : LockHolder
bob = record { node_id = 2; lock_id = 0 }

abbrev cat_lock : Bytes
cat_lock = bytes "lock:photos/cat"

-- Held by alice for writing.
abbrev held_by_alice : Db
held_by_alice = put_w default_cf cat_lock (1 ∷ 1 ∷ 0 ∷ []) ∷ []

alice_locks :
    Lock.acquire_lock (bytes "photos") (bytes "cat") write alice empty ≡ (ok true, held_by_alice)
unfolding Lock.acquire_lock Lock.get_lock_state lock_key mem_get mem_put
alice_locks = refl

acquire_lock_lem_example :
    (true ≡ (acquired (lock_at (lock_key (bytes "photos") (bytes "cat")) empty) write alice).1)
    × (lock_at cat_lock held_by_alice ≡ (
        if beq (lock_key (bytes "photos") (bytes "cat")) cat_lock
        then (acquired (lock_at (lock_key (bytes "photos") (bytes "cat")) empty) write alice).0
        else lock_at cat_lock empty))
acquire_lock_lem_example =
    acquire_lock_lem (bytes "photos") (bytes "cat") empty cat_lock alice write true held_by_alice
      alice_locks

abbrev released_by_alice : Db
released_by_alice = delete_w default_cf cat_lock ∷ held_by_alice

alice_releases :
    Lock.release_lock (bytes "photos") (bytes "cat") alice held_by_alice
    ≡ (ok tt, released_by_alice)
unfolding Lock.release_lock Lock.get_lock_state lock_key mem_get mem_delete lookup contents beq
    same_holder
alice_releases = refl

release_lock_lem_example : lock_at cat_lock released_by_alice ≡ (
    if beq (lock_key (bytes "photos") (bytes "cat")) cat_lock
    then released (lock_at (lock_key (bytes "photos") (bytes "cat")) held_by_alice) alice
    else lock_at cat_lock held_by_alice)
release_lock_lem_example =
    release_lock_lem (bytes "photos") (bytes "cat") held_by_alice cat_lock alice released_by_alice
      alice_releases

abbrev photos : BucketInfo
photos = record { name = bytes "photos"; created_at = 7 }

-- bob asks for the lock, gives back what he has not got, and a bucket is made.
abbrev history : List (DateTime × Command)
history =
    (10, acquire_lock (bytes "photos") (bytes "cat") read bob)
    ∷ (11, release_lock (bytes "photos") (bytes "cat") bob)
    ∷ (12, create_bucket photos)
    ∷ []

held_at : lock_at (lock_key (bytes "photos") (bytes "cat")) held_by_alice ≡ written_by alice
unfolding lookup contents lock_key beq
held_at = refl

apply_all-IsLock_example :
    IsLock (lock_at (lock_key (bytes "photos") (bytes "cat")) (apply_all history empty))
unfolding lookup contents
apply_all-IsLock_example = apply_all-IsLock (bytes "photos") (bytes "cat") history empty tt

-- No call on the database in memory fails.
empty-Answers : Answers empty
unfolding mem_get mem_put mem_delete lookup contents
empty-Answers = record {
  get = λ k. (none, refl);
  put = λ k v. refl;
  delete = λ k. refl;
  encode = λ s. (_, refl);
  decode = λ b k v h. absurd (ground (arith, h));
}

lock_at-apply_command_example :
    (((apply_command 3 (acquire_lock (bytes "photos") (bytes "cat") write alice) empty).0 ≡ ok tt)
      × (lock_at
            (lock_key (bytes "photos") (bytes "cat"))
            (apply_command 3 (acquire_lock (bytes "photos") (bytes "cat") write alice) empty).1
          ≡ lock_step
              (acquire_lock (bytes "photos") (bytes "cat") write alice)
              (lock_key (bytes "photos") (bytes "cat"))
              (lock_at (lock_key (bytes "photos") (bytes "cat")) empty)))
    ⊎ ((e : StorageError) × ((apply_command 3
            (acquire_lock (bytes "photos") (bytes "cat") write alice)
            empty).0
          ≡ err e)
        × (¬ (
            (on_locks (acquire_lock (bytes "photos") (bytes "cat") write alice) ≡ true)
            × Answers empty))
        × ((lock_at
                (lock_key (bytes "photos") (bytes "cat"))
                (apply_command 3 (acquire_lock (bytes "photos") (bytes "cat") write alice) empty).1
              ≡ lock_step
                  (acquire_lock (bytes "photos") (bytes "cat") write alice)
                  (lock_key (bytes "photos") (bytes "cat"))
                  (lock_at (lock_key (bytes "photos") (bytes "cat")) empty))
            ⊎ (lock_at
                  (lock_key (bytes "photos") (bytes "cat"))
                  (apply_command 3
                    (acquire_lock (bytes "photos") (bytes "cat") write alice)
                    empty).1
                ≡ lock_at (lock_key (bytes "photos") (bytes "cat")) empty)))
lock_at-apply_command_example =
    lock_at-apply_command empty (bytes "photos") (bytes "cat") 3
      (acquire_lock (bytes "photos") (bytes "cat") write alice)

bob_refused :
    Lock.acquire_lock (bytes "photos") (bytes "cat") write bob (apply_all history held_by_alice)
    ≡ (ok false, apply_all history held_by_alice)
unfolding apply_all apply_command Bucket.create_bucket new_bucket bucket_key Lock.acquire_lock
    Lock.release_lock Lock.get_lock_state lock_key mem_get mem_put mem_delete lookup contents beq
    blt same_holder is_held_by can_acquire validate_bucket_name starts_with ends_with
bob_refused = refl

write_lock_excludes_example :
    (false ≡ false)
    × (lock_at (lock_key (bytes "photos") (bytes "cat")) (apply_all history held_by_alice)
        ≡ written_by alice)
write_lock_excludes_example =
    write_lock_excludes (bytes "photos") (bytes "cat") history held_by_alice alice bob write false
      (apply_all history held_by_alice) held_at (tt, ((λ e f. ground arith), (tt, tt)))
      (λ f. ground arith) bob_refused

abbrev made_at : DateTime → Db
made_at now = put_w default_cf (bytes "bkt:photos") (now ∷ bytes "photos") ∷ []

makes_at_1 : apply_command 1 (create_bucket photos) empty ≡ (ok tt, made_at 1)
unfolding apply_command Bucket.create_bucket new_bucket bucket_key validate_bucket_name starts_with
    ends_with mem_get mem_put
makes_at_1 = refl

makes_at_2 : apply_command 2 (create_bucket photos) empty ≡ (ok tt, made_at 2)
unfolding apply_command Bucket.create_bucket new_bucket bucket_key validate_bucket_name starts_with
    ends_with mem_get mem_put
makes_at_2 = refl

create_bucket_replicas_differ_example :
    stored (made_at 1) (bucket_key (bytes "photos"))
    ≢ stored (made_at 2) (bucket_key (bytes "photos"))
create_bucket_replicas_differ_example =
    create_bucket_replicas_differ empty (made_at 1) (made_at 2) 1 2 photos (omega arith) makes_at_1
      makes_at_2
