-- ===== src/Metadata/LockManager/Holding.antt =====
-- What a lock that the manager gives out says of the database.
use save.Prelude.{ℕ, zero, suc, Bytes, Option, none, some, true, false, ◌≡◌, refl, arith, inl, inr}
use save.Prelude.Result.{ok, ok_unique, Result-cases}
use save.Metadata.{Env, Db, Fallible, LockType, LockHolder, LockState}
use save.Metadata.Lock.{is_held_by, lock_key}
use save.Metadata.Lock.Laws.{lock_at, get_lock_state_cases}
use save.Metadata.StateMachine.{Command, acquire_lock}
use save.Metadata.LockManager.{
  DistributedLockGuard, holds, can_acquire_locally, acquire_and_verify, try_acquire_lock,
  acquire_loop,
}

module _ ⦃env : Env⦄ {F : Type 0} (submit : Command → Fallible F (Unit {0})) (bucket key : Bytes)
    (lock_type : LockType) (holder : LockHolder) where
  -- The database holds the lock for the holder.
  abbrev pub Held : Db → Type 0
  Held d =
      (s : LockState) × (lock_at (lock_key bucket key) d ≡ some s) × (is_held_by s holder ≡ true)

  held_of :
      (o : Option LockState)
      → holds submit holder o ≡ true
      → (s : LockState) × (o ≡ some s) × (is_held_by s holder ≡ true)
  held_of none h = cc
  held_of (some s) h = (s, refl, h)

  acquire_and_verify-Held :
      (d : Db)
      → (acquire_and_verify submit bucket key lock_type holder d).0 ≡ ok true
      → Held (acquire_and_verify submit bucket key lock_type holder d).1
  unfolding acquire_and_verify
  acquire_and_verify-Held d h =
      let m = submit (acquire_lock bucket key lock_type holder) d in
      elim (Result-cases m.0) [
        | inr (e, f) ↦ absurd (ground arith)
        | inl (u, f) ↦ elim (get_lock_state_cases bucket key m.1) [
          | inr (e, g) ↦ absurd (ground arith)
          | inl g ↦
              let (s, there, held) = held_of (lock_at (lock_key bucket key) m.1) (ground arith) in
              (s, rw (f, g) there, held)
        ]
      ]

  -- An attempt that succeeds leaves the lock with the holder.
  try_acquire_lock-Held :
      (d : Db)
      → (try_acquire_lock submit bucket key lock_type holder d).0 ≡ ok true
      → Held (try_acquire_lock submit bucket key lock_type holder d).1
  unfolding try_acquire_lock
  try_acquire_lock-Held d h =
      let m = can_acquire_locally submit bucket key lock_type holder d in
      elim (Result-cases m.0) [
        | inr (e, f) ↦ absurd (ground arith)
        | inl (false, f) ↦ absurd (ground arith)
        | inl (true, f) ↦ rw f (acquire_and_verify-Held m.1 (ground arith))
      ]

  -- The loop gives out a guard for the holder only with a lock that the holder has, however other
  -- nodes change the database between the attempts.
  pub acquire_loop_lem :
      (sleep : Db → Db) (attempts : ℕ) (d : Db) (g : DistributedLockGuard)
      → (acquire_loop submit sleep attempts bucket key lock_type holder d).0 ≡ ok g
      → (g ≡ record { bucket = bucket; key = key; holder = holder })
        × Held (acquire_loop submit sleep attempts bucket key lock_type holder d).1
  unfolding acquire_loop
  acquire_loop_lem sleep zero d g h = cc
  acquire_loop_lem sleep (suc attempts) d g h =
      let m = try_acquire_lock submit bucket key lock_type holder d in
      elim (Result-cases m.0) [
        | inr (e, f) ↦ absurd (ground arith)
        | inl (true, f) ↦ (ok_unique h (rw f refl), rw f (try_acquire_lock-Held d f))
        | inl (false, f) ↦ rw f (acquire_loop_lem sleep attempts (sleep m.1) g (ground arith))
      ]
