-- ===== src/Metadata/LockManager.antt =====
-- crates/save-metadata/src/lock.rs from the distributed lock manager on. The Raft node is a parameter:
-- it has a command applied and gives the database of this node afterwards, with all that other nodes
-- had applied meanwhile. The timeout is the number of attempts that fit into it.
pub mod Holding
mod Examples
use save.Prelude.{
  ℕ, zero, suc, ◌+◌, ◌%◌, ◌^◌, Bytes, Option, none, some, Bool, true, false, if◌then◌else◌,
}
use save.Prelude.Result.{Result, ok, err, map_ok}
use save.Metadata.{
  Env, Db, Error, Fallible, LockType, LockHolder, LockState, read, write, ◌>>=◌, ◌>>◌, pure, fail,
  lift, or_else,
}
use save.Metadata.Lock.{get_lock_state, can_acquire, is_held_by}
use save.Metadata.StateMachine.{Command, acquire_lock, release_lock}

pub record DistributedLockManager : Type 0 where
  pub node_id : ℕ
  pub lock_counter : ℕ

-- A guard, which releases its lock when it is dropped.
pub record DistributedLockGuard : Type 0 where
  pub bucket : Bytes
  pub key : Bytes
  pub holder : LockHolder

-- `AcquisitionFailed`, of a read of the local state or of the Raft node.
pub data LockError (E F : Type 0) : Type 0 where
  timeout : LockError E F
  read_failed : E → LockError E F
  raft_failed : F → LockError E F

-- `fetch_add` on a 64-bit counter.
unfoldable pub next_holder : DistributedLockManager → LockHolder × DistributedLockManager
next_holder m = (
  record { node_id = m.node_id; lock_id = m.lock_counter },
  record m { lock_counter = (m.lock_counter + 1) % 2 ^ 64 },
)

module _ ⦃env : Env⦄ {F : Type 0} (submit : Command → Fallible F (Unit {0})) where
  abbrev pub Acquire : Type 0 → Type 0
  Acquire A = Fallible (LockError Error F) A

  abbrev may_acquire : LockType → LockHolder → Option LockState → Bool
  may_acquire lock_type holder none = true
  may_acquire lock_type holder (some s) = can_acquire s lock_type holder

  abbrev pub holds : LockHolder → Option LockState → Bool
  holds holder none = false
  holds holder (some s) = is_held_by s holder

  unfoldable pub can_acquire_locally : Bytes → Bytes → LockType → LockHolder → Acquire Bool
  can_acquire_locally bucket key lock_type holder = do
    state ← or_else read_failed (get_lock_state bucket key)
    pure (may_acquire lock_type holder state)

  -- `try_acquire_lock` once the local state allows the lock.
  unfoldable pub acquire_and_verify : Bytes → Bytes → LockType → LockHolder → Acquire Bool
  acquire_and_verify bucket key lock_type holder = do
    or_else raft_failed (submit (acquire_lock bucket key lock_type holder))
    state ← or_else read_failed (get_lock_state bucket key)
    pure (holds holder state)

  unfoldable pub try_acquire_lock : Bytes → Bytes → LockType → LockHolder → Acquire Bool
  unfolding can_acquire_locally acquire_and_verify
  try_acquire_lock bucket key lock_type holder = do
    possible ← can_acquire_locally bucket key lock_type holder
    if possible then acquire_and_verify bucket key lock_type holder else pure false

  -- The loop; `sleep` is what the other nodes have applied during a pause.
  unfoldable pub acquire_loop :
      (Db → Db) → ℕ → Bytes → Bytes → LockType → LockHolder → Acquire DistributedLockGuard
  unfolding try_acquire_lock
  acquire_loop sleep zero bucket key lock_type holder = fail timeout
  acquire_loop sleep (suc attempts) bucket key lock_type holder = do
    acquired ← try_acquire_lock bucket key lock_type holder
    if acquired
        then pure (record { bucket = bucket; key = key; holder = holder })
        else (λ d. acquire_loop sleep attempts bucket key lock_type holder (sleep d))

  unfoldable pub acquire_lock_internal :
      (Db → Db)
      → ℕ
      → Bytes
      → Bytes
      → LockType
      → DistributedLockManager
      → Db
      → Result (LockError Error F) DistributedLockGuard × DistributedLockManager × Db
  unfolding acquire_loop
  acquire_lock_internal sleep attempts bucket key lock_type m d =
      let (holder, m') = next_holder m in
      let (r, d') = acquire_loop sleep attempts bucket key lock_type holder d in (r, m', d')

  unfoldable pub acquire_read_lock :
      (Db → Db)
      → ℕ
      → Bytes
      → Bytes
      → DistributedLockManager
      → Db
      → Result (LockError Error F) DistributedLockGuard × DistributedLockManager × Db
  unfolding acquire_lock_internal
  acquire_read_lock sleep attempts bucket key = acquire_lock_internal sleep attempts bucket key read

  unfoldable pub acquire_write_lock :
      (Db → Db)
      → ℕ
      → Bytes
      → Bytes
      → DistributedLockManager
      → Db
      → Result (LockError Error F) DistributedLockGuard × DistributedLockManager × Db
  unfolding acquire_lock_internal
  acquire_write_lock sleep attempts bucket key =
      acquire_lock_internal sleep attempts bucket key write

  -- What is done when a guard is dropped; an error is only logged.
  unfoldable pub drop_guard : DistributedLockGuard → Db → Db
  drop_guard g d = (submit (release_lock g.bucket g.key g.holder) d).1
