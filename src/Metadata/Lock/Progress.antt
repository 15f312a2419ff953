-- ===== src/Metadata/Lock/Progress.antt =====
-- The lock functions return no error where the database and its serialisation return none.
use save.Prelude.{
  Bytes, ◌≡◌, inl, inr, Option, none, some, Bool, true, false, Bool-cases, refl, ap, ◌∙◌, arith,
  Option-cases, not, filter, List, [], ◌∷◌, ◌++◌,
}
use save.Prelude.Result.{ok}
use save.Rocksdb.{default_cf}
use save.Metadata.{Env, Db, LockType, LockHolder, LockState}
use save.Metadata.Lock.{
  lock_key, decode_state, get_lock_state, acquire_lock, release_lock, is_held_by, can_acquire,
  same_holder, put_state, acquire_from, write_back, release_from,
}

module _ ⦃env : Env⦄ where
  -- Every call on the database succeeds, a lock can be written, and what is stored as a lock is one.
  pub record Answers (d : Db) : Type 0 where
    pub get : (k : Bytes) → (o : Option Bytes) × (env.rocksdb.get d default_cf k ≡ ok o)
    pub put : (k v : Bytes) → (env.rocksdb.put d default_cf k v).0 ≡ ok tt
    pub delete : (k : Bytes) → (env.rocksdb.delete d default_cf k).0 ≡ ok tt
    pub encode : (s : LockState) → (v : Bytes) × (env.lock_codec.encode s ≡ some v)
    pub decode :
        (bucket key v : Bytes)
        → env.rocksdb.get d default_cf (lock_key bucket key) ≡ ok (some v)
        → (s : LockState) × (env.lock_codec.decode v ≡ some s)

  module _ (bucket key : Bytes) where
    get_lock_state_succeeds :
        (d : Db) → Answers d → (o : Option LockState) × (get_lock_state bucket key d ≡ (ok o, d))
    unfolding get_lock_state decode_state
    get_lock_state_succeeds d a =
        let (o, e) = a.get (lock_key bucket key) in
        elim (Option-cases o) [
          | inl n ↦ (none, ground (arith, e, n))
          | inr (v, n) ↦
              let (s, f) = a.decode bucket key v (e ∙ ap ok n) in (some s, ground (arith, e, n, f))
        ]

    put_state_succeeds :
        (s : LockState) (d : Db) → Answers d → (r : Bool) × ((put_state bucket key s d).0 ≡ ok r)
    unfolding put_state
    put_state_succeeds s d a =
        let (v, e) = a.encode s in (true, ground (arith, e, a.put (lock_key bucket key) v))

    module _ (h : LockHolder) where
      acquire_from_succeeds :
          (t : LockType) (o : Option LockState) (d : Db)
          → Answers d
          → (r : Bool) × ((acquire_from bucket key t h o d).0 ≡ ok r)
      unfolding acquire_from
      acquire_from_succeeds t none d a =
          put_state_succeeds (record { lock_type = t; holders = h ∷ [] }) d a
      acquire_from_succeeds t (some s) d a = elim (Bool-cases (is_held_by s h)) [
        | inl e ↦ rw e (true, refl)
        | inr e ↦ elim (Bool-cases (can_acquire s t h)) [
          | inl f ↦ rw (e, f) (put_state_succeeds (record s { holders = s.holders ++ h ∷ [] }) d a)
          | inr f ↦ rw (e, f) (false, refl)
        ]
      ]

      pub acquire_lock_succeeds :
          (t : LockType) (d : Db)
          → Answers d
          → (r : Bool) × ((acquire_lock bucket key t h d).0 ≡ ok r)
      unfolding acquire_lock
      acquire_lock_succeeds t d a =
          let (o, e) = get_lock_state_succeeds d a in rw e (acquire_from_succeeds t o d a)

      write_back_succeeds :
          (t : LockType) (hs : List LockHolder) (d : Db)
          → Answers d
          → (write_back bucket key t hs d).0 ≡ ok tt
      unfolding write_back
      write_back_succeeds t [] d a = ground (arith, a.delete (lock_key bucket key))
      write_back_succeeds t (g ∷ hs) d a =
          let (v, e) = a.encode (record { lock_type = t; holders = g ∷ hs }) in
          ground (arith, e, a.put (lock_key bucket key) v)

      release_from_succeeds :
          (o : Option LockState) (d : Db) → Answers d → (release_from bucket key h o d).0 ≡ ok tt
      unfolding release_from
      release_from_succeeds none d a = refl
      release_from_succeeds (some s) d a =
          write_back_succeeds s.lock_type (filter (λ g. not (same_holder g h)) s.holders) d a

      pub release_lock_succeeds : (d : Db) → Answers d → (release_lock bucket key h d).0 ≡ ok tt
      unfolding release_lock
      release_lock_succeeds d a =
          let (o, e) = get_lock_state_succeeds d a in rw e (release_from_succeeds o d a)
