-- ===== src/Metadata/Lock/Laws.antt =====
-- The lock functions over the database carry out what Lock.State says of a lock.
use save.Prelude.{
  Bytes, ◌≡◌, ◌⊎◌, inl, inr, Option, none, some, Bool, true, arith, beq, beq_iff, if◌then◌else◌,
  refl, Option-cases, ap, not, filter, List, [], ◌∷◌, ◌++◌,
}
use save.Prelude.Result.{ok, err, Result-cases}
use save.Rocksdb.{default_cf}
use save.Metadata.{Env, Db, Error, LockType, LockHolder, LockState, stored, database, decode_error}
use save.Metadata.Database.{
  get-stored, stored-put, stored-put_any, stored-delete, stored-delete_any,
}
use save.Metadata.Lock.{
  lock_key, get_lock_state, acquire_lock, release_lock, is_held_by, can_acquire, same_holder,
  put_state, acquire_from, write_back, release_from,
}
use save.Metadata.Lock.State.{LockView, acquired, released, of_holders}

module _ ⦃env : Env⦄ where
  abbrev pub decoded : Option Bytes → LockView
  decoded none = none
  decoded (some v) = env.lock_codec.decode v

  -- The lock that a database holds under a database key.
  abbrev pub lock_at : Bytes → Db → LockView
  lock_at k d = decoded (stored d k)

  -- Reading a lock changes nothing, and gives the lock or an error.
  pub get_lock_state_cases :
      (bucket key : Bytes) (d : Db)
      → (get_lock_state bucket key d ≡ (ok (lock_at (lock_key bucket key) d), d))
        ⊎ ((e : Error) × (get_lock_state bucket key d ≡ (err e, d)))
  unfolding get_lock_state
  get_lock_state_cases bucket key d =
      elim (Result-cases (env.rocksdb.get d default_cf (lock_key bucket key))) [
        | inl (none, e) ↦ inl (ground (arith, get-stored d (lock_key bucket key) none))
        | inl (some v, e) ↦ elim (Option-cases (env.lock_codec.decode v)) [
          | inl f ↦ inr (decode_error, ground arith)
          | inr (s, f) ↦ inl (ground (arith, get-stored d (lock_key bucket key) (some v)))
        ]
        | inr (x, e) ↦ inr (database x, ground arith)
      ]

  module _ (d : Db) (k : Bytes) where
    pub lock_at-put :
        (s : LockState) (v j : Bytes)
        → env.lock_codec.encode s ≡ some v
        → (env.rocksdb.put d default_cf k v).0 ≡ ok tt
        → lock_at j (env.rocksdb.put d default_cf k v).1 ≡ (if beq k j then some s else lock_at j d)
    lock_at-put s v j enc h =
        ground (arith, stored-put d k v j, env.lock_codec.decode-encode s v enc)

    pub lock_at-put_any :
        (s : LockState) (v j : Bytes)
        → env.lock_codec.encode s ≡ some v
        → (lock_at j (env.rocksdb.put d default_cf k v).1
            ≡ (if beq k j then some s else lock_at j d))
          ⊎ (lock_at j (env.rocksdb.put d default_cf k v).1 ≡ lock_at j d)
    lock_at-put_any s v j enc = elim (stored-put_any d k v j) [
      | inl e ↦ inl (ground (arith, env.lock_codec.decode-encode s v enc))
      | inr e ↦ inr (ap decoded e)
    ]

    pub lock_at-delete :
        (j : Bytes)
        → (env.rocksdb.delete d default_cf k).0 ≡ ok tt
        → lock_at j (env.rocksdb.delete d default_cf k).1 ≡ (if beq k j then none else lock_at j d)
    lock_at-delete j h = ground (arith, stored-delete d k j)

    pub lock_at-delete_any :
        (j : Bytes)
        → (lock_at j (env.rocksdb.delete d default_cf k).1
            ≡ (if beq k j then none else lock_at j d))
          ⊎ (lock_at j (env.rocksdb.delete d default_cf k).1 ≡ lock_at j d)
    lock_at-delete_any j = elim (stored-delete_any d k j) [
      | inl e ↦ inl (ground arith)
      | inr e ↦ inr (ap decoded e)
    ]

  module _ (bucket key : Bytes) (d : Db) (j : Bytes) where
    put_state_any :
        (s : LockState)
        → (lock_at j (put_state bucket key s d).1
            ≡ (if beq (lock_key bucket key) j then some s else lock_at j d))
          ⊎ (lock_at j (put_state bucket key s d).1 ≡ lock_at j d)
    unfolding put_state
    put_state_any s = elim (Option-cases (env.lock_codec.encode s)) [
      | inl e ↦ inr (rw e)
      | inr (v, e) ↦ ground (arith, lock_at-put_any d (lock_key bucket key) s v j e)
    ]

    put_state_ok :
        (s : LockState) (r : Bool) (d' : Db)
        → put_state bucket key s d ≡ (ok r, d')
        → (r ≡ true)
          × (lock_at j d' ≡ (if beq (lock_key bucket key) j then some s else lock_at j d))
    unfolding put_state
    put_state_ok s r d' h = elim (Option-cases (env.lock_codec.encode s)) [
      | inl e ↦ absurd (ground arith)
      | inr (v, e) ↦ ground (arith, lock_at-put d (lock_key bucket key) s v j e)
    ]

    module _ (h : LockHolder) where
      acquire_from_any :
          (t : LockType) (v : LockView)
          → (lock_at j (acquire_from bucket key t h v d).1
              ≡ (if beq (lock_key bucket key) j then (acquired v t h).0 else lock_at j d))
            ⊎ (lock_at j (acquire_from bucket key t h v d).1 ≡ lock_at j d)
      unfolding acquire_from acquired can_acquire is_held_by
      acquire_from_any t none = put_state_any (record { lock_type = t; holders = h ∷ [] })
      acquire_from_any t (some s) =
          ground (arith, put_state_any (record s { holders = s.holders ++ h ∷ [] }))

      acquire_from_ok :
          (t : LockType) (v : LockView) (r : Bool) (d' : Db)
          → v ≡ lock_at (lock_key bucket key) d
          → acquire_from bucket key t h v d ≡ (ok r, d')
          → (r ≡ (acquired v t h).1)
            × (lock_at j d'
                ≡ (if beq (lock_key bucket key) j then (acquired v t h).0 else lock_at j d))
      unfolding acquire_from acquired can_acquire is_held_by
      acquire_from_ok t none r d' at e =
          put_state_ok (record { lock_type = t; holders = h ∷ [] }) r d' e
      acquire_from_ok t (some s) r d' at e = ground (
        arith,
        put_state_ok (record s { holders = s.holders ++ h ∷ [] }) r d',
        beq_iff (lock_key bucket key) j,
      )

      write_back_any :
          (t : LockType) (hs : List LockHolder)
          → (lock_at j (write_back bucket key t hs d).1
              ≡ (if beq (lock_key bucket key) j then of_holders t hs else lock_at j d))
            ⊎ (lock_at j (write_back bucket key t hs d).1 ≡ lock_at j d)
      unfolding write_back of_holders
      write_back_any t [] = lock_at-delete_any d (lock_key bucket key) j
      write_back_any t (g ∷ hs) =
          let s : LockState = record { lock_type = t; holders = g ∷ hs } in
          elim (Option-cases (env.lock_codec.encode s)) [
            | inl e ↦ inr (rw e)
            | inr (v, e) ↦ ground (arith, lock_at-put_any d (lock_key bucket key) s v j e)
          ]

      write_back_ok :
          (t : LockType) (hs : List LockHolder) (d' : Db)
          → write_back bucket key t hs d ≡ (ok tt, d')
          → lock_at j d' ≡ (if beq (lock_key bucket key) j then of_holders t hs else lock_at j d)
      unfolding write_back of_holders
      write_back_ok t [] d' e = ground (arith, lock_at-delete d (lock_key bucket key) j)
      write_back_ok t (g ∷ hs) d' e =
          let s : LockState = record { lock_type = t; holders = g ∷ hs } in
          elim (Option-cases (env.lock_codec.encode s)) [
            | inl f ↦ absurd (ground arith)
            | inr (v, f) ↦ ground (arith, lock_at-put d (lock_key bucket key) s v j f)
          ]

      release_from_any :
          (v : LockView)
          → (lock_at j (release_from bucket key h v d).1
              ≡ (if beq (lock_key bucket key) j then released v h else lock_at j d))
            ⊎ (lock_at j (release_from bucket key h v d).1 ≡ lock_at j d)
      unfolding release_from released
      release_from_any none = inr refl
      release_from_any (some s) =
          write_back_any s.lock_type (filter (λ g. not (same_holder g h)) s.holders)

      release_from_ok :
          (v : LockView) (d' : Db)
          → v ≡ lock_at (lock_key bucket key) d
          → release_from bucket key h v d ≡ (ok tt, d')
          → lock_at j d' ≡ (if beq (lock_key bucket key) j then released v h else lock_at j d)
      unfolding release_from released
      release_from_ok none d' at e = ground (arith, beq_iff (lock_key bucket key) j)
      release_from_ok (some s) d' at e =
          write_back_ok s.lock_type (filter (λ g. not (same_holder g h)) s.holders) d' e

      -- Whatever `acquire_lock` reports, every lock is afterwards what it was, except that the one
      -- asked for may have become what an attempt to acquire it makes of it.
      pub lock_at-acquire_lock_any :
          (t : LockType)
          → (lock_at j (acquire_lock bucket key t h d).1 ≡ (
              if beq (lock_key bucket key) j
              then (acquired (lock_at (lock_key bucket key) d) t h).0
              else lock_at j d))
            ⊎ (lock_at j (acquire_lock bucket key t h d).1 ≡ lock_at j d)
      unfolding acquire_lock
      lock_at-acquire_lock_any t = elim (get_lock_state_cases bucket key d) [
        | inl e ↦ rw e (acquire_from_any t (lock_at (lock_key bucket key) d))
        | inr (x, e) ↦ inr (rw e)
      ]

      -- A successful `acquire_lock` answers and changes the lock as Lock.State says of the lock that
      -- the database holds, and changes no other lock.
      pub acquire_lock_lem :
          (t : LockType) (r : Bool) (d' : Db)
          → acquire_lock bucket key t h d ≡ (ok r, d')
          → (r ≡ (acquired (lock_at (lock_key bucket key) d) t h).1)
            × (lock_at j d' ≡ (
                if beq (lock_key bucket key) j
                then (acquired (lock_at (lock_key bucket key) d) t h).0
                else lock_at j d))
      unfolding acquire_lock
      acquire_lock_lem t r d' f = elim (get_lock_state_cases bucket key d) [
        | inl e ↦ acquire_from_ok t (lock_at (lock_key bucket key) d) r d' refl (rw e at f)
        | inr (x, e) ↦ absurd (ground arith)
      ]

      pub lock_at-release_lock_any :
          (lock_at j (release_lock bucket key h d).1 ≡ (
            if beq (lock_key bucket key) j
            then released (lock_at (lock_key bucket key) d) h
            else lock_at j d))
          ⊎ (lock_at j (release_lock bucket key h d).1 ≡ lock_at j d)
      unfolding release_lock
      lock_at-release_lock_any = elim (get_lock_state_cases bucket key d) [
        | inl e ↦ rw e (release_from_any (lock_at (lock_key bucket key) d))
        | inr (x, e) ↦ inr (rw e)
      ]

      -- A successful `release_lock` takes the holder off the lock, and changes no other lock.
      pub release_lock_lem :
          (d' : Db)
          → release_lock bucket key h d ≡ (ok tt, d')
          → lock_at j d' ≡ (
              if beq (lock_key bucket key) j
              then released (lock_at (lock_key bucket key) d) h
              else lock_at j d)
      unfolding release_lock
      release_lock_lem d' f = elim (get_lock_state_cases bucket key d) [
        | inl e ↦ release_from_ok (lock_at (lock_key bucket key) d) d' refl (rw e at f)
        | inr (x, e) ↦ absurd (ground arith)
      ]
