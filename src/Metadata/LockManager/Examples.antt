-- ===== src/Metadata/LockManager/Examples.antt =====
-- The lock manager at a node that is the only one to write, and at one that was started again.
use save.Prelude.{bytes, [], ◌∷◌, some, true, ◌≡◌, refl, beq}
use save.Prelude.Result.{ok}
use save.Rocksdb.{default_cf}
use save.Rocksdb.SortedMap.{lookup, insert}
use save.Rocksdb.Memory.{put_w, mem_get, mem_put, contents, same_cf}
use save.Metadata.{Db, LockHolder, LockState, Fallible, write}
use save.Metadata.Fixture.{env, empty}
use save.Metadata.Lock.{lock_key, same_holder, is_held_by, can_acquire, compatible, get_lock_state}
use save.Metadata.Lock.Laws.{lock_at}
use save.Metadata.StateMachine.{Command, StorageError, apply_command}
use save.Metadata.Lock
use save.Metadata.LockManager.{
  DistributedLockGuard, next_holder, can_acquire_locally, acquire_and_verify, try_acquire_lock,
  acquire_loop, acquire_lock_internal, acquire_write_lock,
}
use save.Metadata.LockManager.Holding.{acquire_loop_lem}

abbrev submit : Command → Fallible StorageError (Unit {0})
submit c = apply_command 0 c

abbrev first_holder : LockHolder
first_holder = record { node_id = 1; lock_id = 0 }

abbrev guard : DistributedLockGuard
guard = record { bucket = bytes "b"; key = bytes "k"; holder = first_holder }

abbrev still : Db → Db
still d = d

granted :
    (acquire_loop submit still 2 (bytes "b") (bytes "k") write first_holder empty).0 ≡ ok guard
unfolding acquire_loop try_acquire_lock can_acquire_locally acquire_and_verify apply_command
    Lock.acquire_lock get_lock_state lock_key is_held_by can_acquire compatible same_holder mem_get
    mem_put lookup contents same_cf insert beq
granted = refl

acquire_loop_lem_example :
    (guard ≡ record { bucket = bytes "b"; key = bytes "k"; holder = first_holder })
    × ((s : LockState) × (lock_at
            (lock_key (bytes "b") (bytes "k"))
            (acquire_loop submit still 2 (bytes "b") (bytes "k") write first_holder empty).1
          ≡ some s)
        × (is_held_by s first_holder ≡ true))
acquire_loop_lem_example =
    acquire_loop_lem submit (bytes "b") (bytes "k") write first_holder still 2 empty guard granted

-- Before it was started again the node had the lock for reading, together with node 2.
abbrev left_over : Db
left_over = put_w default_cf (bytes "lock:b/k") (0 ∷ 1 ∷ 0 ∷ 2 ∷ 5 ∷ []) ∷ []

-- Its counter begins at 0 again, so it is given the lock for writing while node 2 reads.
writes_beside_a_reader :
    acquire_write_lock submit still 2
      (bytes "b")
      (bytes "k")
      (record { node_id = 1; lock_counter = 0 })
      left_over
    ≡ (ok guard, record { node_id = 1; lock_counter = 1 }, left_over)
unfolding acquire_write_lock acquire_lock_internal next_holder acquire_loop try_acquire_lock
    can_acquire_locally acquire_and_verify apply_command Lock.acquire_lock get_lock_state lock_key
    is_held_by can_acquire compatible same_holder mem_get mem_put lookup contents same_cf insert beq
writes_beside_a_reader = refl
