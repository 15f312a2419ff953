-- ===== src/Metadata/StateMachine/Exclusion.antt =====
-- What the locks guarantee along a history of Raft commands of any kind, failures included.
use save.Prelude.{
  Bytes, ◌≡◌, ◌≢◌, inl, inr, some, Bool, false, arith, beq_iff, refl, List, [], ◌∷◌, subst, sym,
}
use save.Prelude.Result.{ok}
use save.Metadata.{Env, Db, DateTime, LockType, write, LockHolder}
use save.Metadata.Lock.{lock_key, same_holder, is_held_by, compatible}
use save.Metadata.Lock
use save.Metadata.Lock.State.{
  LockView, IsLock, acquired, released, of_holders, acquired-IsLock, released-IsLock,
  same_holder_iff,
}
use save.Metadata.Lock.Laws.{lock_at, acquire_lock_lem}
use save.Metadata.StateMachine.{Command, acquire_lock, release_lock, apply_command, apply_all}
use save.Metadata.StateMachine.Locks.{lock_step, lock_at-apply_command_any}

lock_step-IsLock : (c : Command) (j : Bytes) (v : LockView) → IsLock v → IsLock (lock_step c j v)
unfolding lock_step
lock_step-IsLock (acquire_lock b k t h) j v i = ground (arith, acquired-IsLock v t h i)
lock_step-IsLock (release_lock b k h) j v i = ground (arith, released-IsLock v h i)
lock_step-IsLock _ j v i = i

-- The lock of an object that `h` holds for writing.
abbrev pub written_by : LockHolder → LockView
written_by h = some (record { lock_type = write; holders = h ∷ [] })

-- A command other than `h` giving back the lock `j`.
abbrev pub Keeps : LockHolder → Bytes → Command → Type 0
Keeps h j (release_lock b k g) = lock_key b k ≡ j → g ≢ h
Keeps h j _ = Unit

abbrev pub AllKeep : LockHolder → Bytes → List (DateTime × Command) → Type 0
AllKeep h j [] = Unit
AllKeep h j ((now, c) ∷ cs) = Keeps h j c × AllKeep h j cs

acquired-written_by :
    (h g : LockHolder) (t : LockType) → (acquired (written_by h) t g).0 ≡ written_by h
unfolding acquired is_held_by compatible
acquired-written_by h g t = ground arith

refused-written_by :
    (h g : LockHolder) (t : LockType) → g ≢ h → (acquired (written_by h) t g).1 ≡ false
unfolding acquired is_held_by compatible
refused-written_by h g t ne = ground (arith, same_holder_iff h g)

released-written_by : (h g : LockHolder) → g ≢ h → released (written_by h) g ≡ written_by h
unfolding released of_holders
released-written_by h g ne = ground (arith, same_holder_iff h g)

lock_step-written_by :
    (c : Command) (j : Bytes) (h : LockHolder)
    → Keeps h j c
    → lock_step c j (written_by h) ≡ written_by h
unfolding lock_step
lock_step-written_by (acquire_lock b k t g) j h n = ground (arith, acquired-written_by h g t)
lock_step-written_by (release_lock b k g) j h n =
    ground (arith, released-written_by h g, beq_iff (lock_key b k) j)
lock_step-written_by _ j h n = refl

module _ ⦃env : Env⦄ (bucket key : Bytes) where
  -- Along any history of commands, failures included, a lock stays a lock: if it is held at all
  -- it has a holder, no holder is listed twice, and a write lock has exactly one.
  pub apply_all-IsLock :
      (cs : List (DateTime × Command)) (d : Db)
      → IsLock (lock_at (lock_key bucket key) d)
      → IsLock (lock_at (lock_key bucket key) (apply_all cs d))
  unfolding apply_all
  apply_all-IsLock [] d i = i
  apply_all-IsLock ((now, c) ∷ cs) d i =
      apply_all-IsLock cs (apply_command now c d).1
        (elim (lock_at-apply_command_any d bucket key now c) [
          | inl e ↦ subst IsLock (sym e) (lock_step-IsLock c (lock_key bucket key) _ i)
          | inr e ↦ subst IsLock (sym e) i
        ])

  stays_written :
      (cs : List (DateTime × Command)) (d : Db) (h : LockHolder)
      → lock_at (lock_key bucket key) d ≡ written_by h
      → AllKeep h (lock_key bucket key) cs
      → lock_at (lock_key bucket key) (apply_all cs d) ≡ written_by h
  unfolding apply_all
  stays_written [] d h w n = w
  stays_written ((now, c) ∷ cs) d h w n =
      stays_written cs (apply_command now c d).1 h
        (elim (lock_at-apply_command_any d bucket key now c) [
          | inl e ↦ rw (e, w) (lock_step-written_by c (lock_key bucket key) h n.0)
          | inr e ↦ rw e w
        ])
        n.1

  -- While `h` holds an object's lock for writing, whatever commands are applied, none of them its
  -- own release, no other holder gets the lock, for reading or for writing.
  pub write_lock_excludes :
      (cs : List (DateTime × Command)) (d : Db) (h g : LockHolder) (t : LockType) (r : Bool)
      (d' : Db)
      → lock_at (lock_key bucket key) d ≡ written_by h
      → AllKeep h (lock_key bucket key) cs
      → g ≢ h
      → Lock.acquire_lock bucket key t g (apply_all cs d) ≡ (ok r, d')
      → (r ≡ false) × (lock_at (lock_key bucket key) d' ≡ written_by h)
  write_lock_excludes cs d h g t r d' w n ne e = ground (
    arith,
    acquire_lock_lem bucket key (apply_all cs d) (lock_key bucket key) g t r d' e,
    stays_written cs d h w n,
    refused-written_by h g t ne,
    acquired-written_by h g t,
  )
